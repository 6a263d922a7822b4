-- ===== src/Lifecycle/Events.antt =====
-- Any sequence of the session functions and of the parts of `SetTargetProcess` and of an exit watch,
-- mixed with other calls of the process tree and the monitor, and what they keep. The stores and the
-- calls that those two make are events too, so the parts of two runs of them on different threads
-- can follow each other in any order; a reported spawn and a queued injection are one run each.
use inspec_thor.Prelude.{ℕ, ◌≤◌, Bool, false, ◌≡◌, List, [], ◌∷◌, Option, Text, All, ◌==◌}
use inspec_thor.ProcessTree.Observe.{Observation}
use inspec_thor.ProcessTree.Steps.{Call, step as step_tree}
use inspec_thor.ProcessTree.Consistent.{IsConsistent}
use inspec_thor.ProcessTree.Consistency.{Restorable}
use inspec_thor.Etw.Monitor.Steps.{Step, step as step_monitor, IsSound, import_size}
use inspec_thor.Lifecycle.{
  Controller, TargetInfo, stop_runtime_string_scanner, store_target, store_run_state, after_stores,
  set_target_process, stop_etw_for_ended_target, ExitAnswer, watch_session_process_exit,
  queue_child_process_instrumentation, run_injection, on_child_process_spawned, on_process_exited,
}

pub data Event : Type 0 where
  calls_tree : Call → Event
  calls_monitor : Step → Event
  spawns : Observation → Option Text → Event
  reports_exit : ℕ → ℕ → ℕ → Event
  watch_ends : ℕ → ExitAnswer → ℕ → Event
  queues : ℕ → Event
  injects : ℕ → List (Bool × Text) → Event
  sets_target : TargetInfo → ℕ → Event
  stores_target : TargetInfo → Event
  stores_run_state : TargetInfo → ℕ → Event
  goes_on : TargetInfo → Bool → ℕ → Event
  stops_scanner stops_etw : Event

unfoldable pub handle : Controller → Event → Controller
handle c (calls_tree call) = record c { manager = step_tree c.manager call }
handle c (calls_monitor s) = record c { etw = step_monitor c.etw s }
handle c (spawns o live) = on_child_process_spawned o live c
handle c (reports_exit pid now code) = on_process_exited pid now code c
handle c (watch_ends pid answer now) = watch_session_process_exit pid answer now c
handle c (queues pid) = queue_child_process_instrumentation pid c
handle c (injects pid attempts) = run_injection pid attempts c
handle c (sets_target info now) = set_target_process info now c
handle c (stores_target info) = store_target info c
handle c (stores_run_state info previous_pid) = store_run_state info previous_pid c
handle c (goes_on info was_active now) = after_stores info was_active now c
handle c stops_scanner = stop_runtime_string_scanner c
handle c stops_etw = stop_etw_for_ended_target c

unfoldable pub handle_all : Controller → List Event → Controller
unfolding handle
handle_all c [] = c
handle_all c (e ∷ events) = handle_all (handle c e) events

-- No pid is 0.
abbrev pub AreGiven : List ℕ → Type 0
AreGiven pids = All (λ pid. (pid == 0) ≡ false) pids

-- The session is consistent, the monitor is sound, and no thread injects into pid 0, waits for it
-- or listens for it.
pub record IsWell (limit : ℕ) (c : Controller) : Type 0 where
  pub consistent : IsConsistent c.manager.session
  pub sound : IsSound limit c.etw
  pub queued : AreGiven c.injections
  pub listened : AreGiven c.listeners
  pub watched : All (λ watch. (watch.0 == 0) ≡ false) c.exit_watches

-- A restored session is consistent, and an import is not larger than the limit.
abbrev pub Allowed : ℕ → Event → Type 0
Allowed limit (calls_tree call) = Restorable call
Allowed limit (calls_monitor s) = import_size s ≤ limit
Allowed limit other = Unit
