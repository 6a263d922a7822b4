-- ===== src/Etw/Monitor/Steps.antt =====
-- Any sequence of calls that change the monitor's state, and what stays true of it.
use inspec_thor.Prelude.{
  ℕ, ◌≤◌, ◌≡◌, Bool, true, false, not, ◌&&◌, List, [], ◌∷◌, Option, none, some, length, ◌==◌, All,
  PidSet, has_pid, has-insert, insert_pid, length-keep_if-le, Bool-cases, inl, inr, arith,
}
use inspec_thor.Etw.Event.{EtwKernelEvent}
use inspec_thor.Etw.Monitor.Retention.{append_event-size}
use inspec_thor.Etw.Monitor.{
  Monitor, new_monitor, has_targets, replace_events, clear_events, begin_target_session,
  add_target_processes, insert_targets, settle_targets, prune_events_for_targets, is_of_target,
  append_event, StartAnswer, fail_start, start_session, allocation_failed, started, already_exists,
  access_denied, start_failed, start_etw_kernel_telemetry, TraceAnswer, open_failed, processed,
  end_thread, stop_etw_kernel_telemetry,
}

pub data Step : Type 0 where
  replaces : List EtwKernelEvent → Step
  clears ends_session : Step
  begins : Bool → Step
  adds : List ℕ → Step
  appends : EtwKernelEvent → Step
  starts : StartAnswer → Step
  ends_trace : TraceAnswer → Step

-- std::terminate leaves nothing to run on: the state stays what it was.
unfoldable pub started_monitor : Monitor → Option (Monitor × Bool) → Monitor
started_monitor m none = m
started_monitor m (some (after, ok)) = after

unfoldable pub step : Monitor → Step → Monitor
unfolding started_monitor
step m (replaces events) = replace_events events m
step m clears = clear_events m
step m ends_session = stop_etw_kernel_telemetry m
step m (begins keep) = begin_target_session keep m
step m (adds pids) = add_target_processes pids m
step m (appends ev) = append_event ev m
step m (starts answer) = started_monitor m (start_etw_kernel_telemetry answer m)
step m (ends_trace answer) = end_thread answer m

unfoldable pub run : Monitor → List Step → Monitor
unfolding step
run m [] = m
run m (s ∷ steps) = run (step m s) steps

-- The events that an import brings.
unfoldable pub import_size : Step → ℕ
import_size (replaces events) = length events
import_size other = 0

-- At most `limit` events, no target with pid 0, no events kept for want of a target while there is
-- one, and a thread to join while the monitor runs.
unfoldable pub IsSound : ℕ → Monitor → Type 0
IsSound limit m =
    (length m.events ≤ limit)
    × (has_pid 0 m.target_pids ≡ false)
    × ((m.keep_until_target && has_targets m) ≡ false)
    × ((m.running && not m.thread_joinable) ≡ false)

pub new-IsSound : (limit : ℕ) → IsSound limit new_monitor
unfolding IsSound has_targets has_pid
new-IsSound limit = ground arith

insert_targets-nonzero :
    (pids : List ℕ) (set : PidSet) (added : Bool)
    → has_pid 0 set ≡ false
    → has_pid 0 (insert_targets pids set added).0 ≡ false
unfolding insert_targets
insert_targets-nonzero [] set added h = h
insert_targets-nonzero (pid ∷ pids) set added h = elim (Bool-cases (pid == 0)) [
  | inl zero ↦ rw zero (insert_targets-nonzero pids set added h)
  | inr other ↦
      rw other
        (insert_targets-nonzero pids (insert_pid pid set) _ (ground (arith, has-insert 0 pid set)))
]

settle-IsSound :
    (limit : ℕ) (m : Monitor) (outcome : PidSet × Bool)
    → IsSound limit m
    → has_pid 0 outcome.0 ≡ false
    → IsSound limit (settle_targets m outcome)
unfolding IsSound settle_targets prune_events_for_targets has_targets
settle-IsSound limit m (set, false) sound h = sound
settle-IsSound limit m (set, true) sound h =
    ground (arith, length-keep_if-le (is_of_target set) m.events)

pub append-IsSound :
    (limit : ℕ) (ev : EtwKernelEvent) (m : Monitor)
    → 10000 ≤ limit
    → IsSound limit m
    → IsSound limit (append_event ev m)
unfolding IsSound append_event has_targets
append-IsSound limit ev m wide (size, nonzero, waiting, thread) = (
  elim (append_event-size ev m) [ inl few ↦ omega arith | inr fewer ↦ omega arith ],
  nonzero,
  waiting,
  thread,
)

start-IsSound :
    (limit : ℕ) (m : Monitor) (answer : StartAnswer)
    → IsSound limit m
    → IsSound limit (started_monitor m (start_etw_kernel_telemetry answer m))
unfolding IsSound start_etw_kernel_telemetry start_session started_monitor fail_start has_targets
start-IsSound limit m allocation_failed sound = ground arith
start-IsSound limit m started sound = ground arith
start-IsSound limit m already_exists sound = ground arith
start-IsSound limit m access_denied sound = ground arith
start-IsSound limit m (start_failed code) sound = ground arith

end-IsSound :
    (limit : ℕ) (m : Monitor) (answer : TraceAnswer)
    → IsSound limit m
    → IsSound limit (end_thread answer m)
unfolding IsSound end_thread has_targets
end-IsSound limit m (open_failed code) sound = ground arith
end-IsSound limit m (processed code) sound = ground arith

pub step-IsSound :
    (limit : ℕ) (m : Monitor) (s : Step)
    → 10000 ≤ limit
    → import_size s ≤ limit
    → IsSound limit m
    → IsSound limit (step m s)
unfolding step import_size IsSound replace_events clear_events begin_target_session has_targets
    has_pid stop_etw_kernel_telemetry add_target_processes
step-IsSound limit m (replaces events) wide import sound = ground arith
step-IsSound limit m clears wide import sound = ground arith
step-IsSound limit m ends_session wide import sound = ground arith
step-IsSound limit m (begins keep) wide import sound = ground arith
step-IsSound limit m (adds pids) wide import sound =
    settle-IsSound limit m _ sound (insert_targets-nonzero pids m.target_pids false sound.1)
step-IsSound limit m (appends ev) wide import sound = append-IsSound limit ev m wide sound
step-IsSound limit m (starts answer) wide import sound = start-IsSound limit m answer sound
step-IsSound limit m (ends_trace answer) wide import sound = end-IsSound limit m answer sound

pub steps-IsSound :
    (limit : ℕ) (m : Monitor) (steps : List Step)
    → 10000 ≤ limit
    → All (λ s. import_size s ≤ limit) steps
    → IsSound limit m
    → IsSound limit (run m steps)
unfolding run
steps-IsSound limit m [] wide imports sound = sound
steps-IsSound limit m (s ∷ steps) wide (import, imports) sound =
    steps-IsSound limit (step m s) steps wide imports (step-IsSound limit m s wide import sound)
