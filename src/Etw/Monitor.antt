-- ===== src/Etw/Monitor.antt =====
-- The monitor's shared state and the functions that change it. A function that holds g_EtwMutex
-- throughout is one step; Start and Stop are written as one run each.
pub mod Retention
pub mod Steps
pub mod Lifetime
use inspec_thor.Prelude.{
  ℕ, ◌+◌, Bool, true, false, not, ◌&&◌, ◌||◌, List, [], ◌∷◌, ◌++◌, Option, none, some, Text,
  literal, is_empty, length, drop, ltb, ◌==◌, if◌then◌else◌, keep_if, PidSet, has_pid, insert_pid,
}
use inspec_thor.Format.{to_decimal}
use inspec_thor.Etw.Event.{EtwKernelEvent}

pub record Monitor : Type 0 where
  pub events : List EtwKernelEvent
  pub target_pids : PidSet
  pub running : Bool
  pub session_open : Bool
  pub thread_joinable : Bool
  pub status : Text
  pub keep_until_target : Bool

abbrev pub new_monitor : Monitor
new_monitor = record {
  events = [];
  target_pids = [];
  running = false;
  session_open = false;
  thread_joinable = false;
  status = literal "Stopped";
  keep_until_target = false;
}

unfoldable pub running_status : PidSet → Text
running_status [] = literal "Running (waiting for target PID)"
running_status (pid ∷ []) = (literal "Running (target PID " ++ to_decimal pid) ++ literal ")"
running_status (pid ∷ next ∷ pids) =
    (literal "Running (" ++ to_decimal (length (pid ∷ next ∷ pids))) ++ literal " target PIDs)"

unfoldable pub has_targets : Monitor → Bool
has_targets m = not (is_empty m.target_pids)

unfoldable pub should_retain_event : ℕ → Monitor → Bool
unfolding has_targets
should_retain_event pid m =
    if has_targets m then has_pid pid m.target_pids else m.keep_until_target && not (pid == 0)

unfoldable pub is_of_target : PidSet → EtwKernelEvent → Bool
is_of_target pids ev = has_pid ev.process_id pids

unfoldable pub prune_events_for_targets : Monitor → Monitor
unfolding has_targets is_of_target
prune_events_for_targets m =
    if has_targets m then record m { events = keep_if (is_of_target m.target_pids) m.events } else m

unfoldable pub replace_events : List EtwKernelEvent → Monitor → Monitor
replace_events events m = record m { events = events }

unfoldable pub clear_events : Monitor → Monitor
clear_events m = record m { events = [] }

unfoldable pub begin_target_session : Bool → Monitor → Monitor
begin_target_session keep m = record m {
  events = [];
  target_pids = [];
  keep_until_target = keep;
  status = (if m.running then running_status [] else literal "Waiting for target PID");
}

-- The loop over the pids: the set, and whether one was added.
unfoldable pub insert_targets : List ℕ → PidSet → Bool → PidSet × Bool
insert_targets [] set added = (set, added)
insert_targets (pid ∷ pids) set added =
    if pid == 0
    then insert_targets pids set added
    else insert_targets pids (insert_pid pid set) (not (has_pid pid set) || added)

unfoldable pub settle_targets : Monitor → PidSet × Bool → Monitor
unfolding prune_events_for_targets
settle_targets m (set, false) = m
settle_targets m (set, true) =
    let pruned =
      prune_events_for_targets (record m { target_pids = set; keep_until_target = false }) in
    record pruned { status = (if m.running then running_status set else m.status) }

unfoldable pub add_target_processes : List ℕ → Monitor → Monitor
unfolding settle_targets insert_targets
add_target_processes pids m = settle_targets m (insert_targets pids m.target_pids false)

unfoldable pub add_target_process : ℕ → Monitor → Monitor
unfolding add_target_processes
add_target_process pid m = if pid == 0 then m else add_target_processes (pid ∷ []) m

-- The newest event goes last; beyond ten thousand events the thousand oldest go.
unfoldable pub append_event : EtwKernelEvent → Monitor → Monitor
append_event ev m =
    let events = m.events ++ ev ∷ [] in
    record m { events = (if ltb 10000 (length events) then drop 1000 events else events) }

-- What AllocateKernelTraceProperties and StartTraceW answer.
pub data StartAnswer : Type 0 where
  allocation_failed started already_exists access_denied : StartAnswer
  start_failed : ℕ → StartAnswer

unfoldable pub fail_start : Text → Monitor → Option (Monitor × Bool)
fail_start status m =
    some (record m { running = false; session_open = false; status = status }, false)

-- `none` is std::terminate, which assigning to a std::thread that is still joinable calls.
unfoldable pub start_session : StartAnswer → Monitor → Option (Monitor × Bool)
unfolding fail_start
start_session allocation_failed m =
    some (record m { running = false; status = literal "Allocation failed" }, false)
start_session already_exists m = fail_start (literal "InspecThor ETW session already active") m
start_session access_denied m = fail_start (literal "Administrator required") m
start_session (start_failed code) m =
    fail_start (literal "StartTrace failed: " ++ to_decimal code) m
start_session started m =
    if m.thread_joinable
    then none
    else some (
      record m {
        running = true;
        session_open = true;
        thread_joinable = true;
        status = running_status m.target_pids;
      },
      true,
    )

unfoldable pub start_etw_kernel_telemetry : StartAnswer → Monitor → Option (Monitor × Bool)
unfolding start_session
start_etw_kernel_telemetry answer m = if m.running then some (m, true) else start_session answer m

-- What OpenTraceW and ProcessTrace answer on the monitor's thread; `processed` has a status.
pub data TraceAnswer : Type 0 where
  open_failed : ℕ → TraceAnswer
  processed : ℕ → TraceAnswer

-- 0 is ERROR_SUCCESS and 1223 ERROR_CANCELLED.
unfoldable pub end_thread : TraceAnswer → Monitor → Monitor
end_thread (open_failed code) m = record m {
  status = literal "OpenTrace failed: " ++ to_decimal code;
  session_open = false;
  running = false;
}
end_thread (processed code) m = record m {
  status =
      (if code == 0 || code == 1223
        then m.status
        else literal "ProcessTrace stopped: " ++ to_decimal code);
  running = false;
}

-- Closing the trace ends the thread, which is then joined. The thread's last writes are overwritten.
unfoldable pub stop_etw_kernel_telemetry : Monitor → Monitor
stop_etw_kernel_telemetry m = if not m.running && not m.session_open then m else record m {
  session_open = false;
  thread_joinable = false;
  running = false;
  keep_until_target = false;
  status = literal "Stopped";
}
