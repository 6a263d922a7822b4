-- ===== src/Lifecycle.antt =====
-- The session functions of src/controller/gui.cpp: what the controller does when a process of the
-- session is spawned, exits or is to be injected. g_Target and g_ProcessRunState have no common lock:
-- `set_target_process` is made of its separate stores, and as one function it is a run with no other
-- thread in between; Events has the stores as steps of their own. Log lines, the console and the
-- script trace file are left out.
pub mod Idempotent
pub mod Hooked
pub mod Ending
pub mod Events
pub mod Kept
pub mod Steps
mod Tests
use inspec_thor.Prelude.{
  ℕ, zero, suc, ◌+◌, ◌%◌, ◌^◌, Bool, true, false, not, ◌&&◌, ◌||◌, List, [], ◌∷◌, ◌++◌, Option,
  none, some, Text, is_empty, find_if, ◌==◌, if◌then◌else◌,
}
use inspec_thor.StdPath.{is_absolute}
use inspec_thor.ChildPolicy.Paths.{PolicyHost, or_else}
use inspec_thor.ProcessTree.Session.{ProcessNode, AnalysisSession, ChildObservationResult}
use inspec_thor.ProcessTree.Manager.{
  Manager, stop_session, pid_is, mark_exited, mark_injection_result, belongs_to_session,
  has_live_processes,
}
use inspec_thor.ProcessTree.Observe.{Observation, is_inject, observe_child}
use inspec_thor.Etw.Monitor.{Monitor, add_target_process, stop_etw_kernel_telemetry}

pub record TargetInfo : Type 0 where
  pub active : Bool
  pub pid : ℕ
  pub path : Text
  pub is_32_bit : Bool
  pub launch_mode : Text

abbrev pub empty_target : TargetInfo
empty_target = record { active = false; pid = 0; path = []; is_32_bit = false; launch_mode = [] }

pub data ProcessRunState : Type 0 where
  not_running running terminated : ProcessRunState

-- The process tree, the ETW monitor and the globals that these functions change. The last three are
-- the pipe listeners and the threads that were started: exit watches, which know whether the child
-- is command-only, and injections.
pub record Controller : Type 0 where
  pub manager : Manager
  pub etw : Monitor
  pub target : TargetInfo
  pub run_state : ProcessRunState
  pub scanner_token : ℕ
  pub listeners : List ℕ
  pub exit_watches : List (ℕ × Bool)
  pub injections : List ℕ

-- ERROR_PROCESS_ABORTED
abbrev pub process_aborted : ℕ
process_aborted = 1067

unfoldable pub stop_etw_for_ended_target : Controller → Controller
stop_etw_for_ended_target c =
    if c.etw.running then record c { etw = stop_etw_kernel_telemetry c.etw } else c

unfoldable pub stop_runtime_string_scanner : Controller → Controller
stop_runtime_string_scanner c = record c { scanner_token = (c.scanner_token + 1) % 2 ^ 32 }

unfoldable pub end_analysis : ℕ → Controller → Controller
unfolding stop_etw_for_ended_target
end_analysis now c =
    let stopped = stop_etw_for_ended_target c in
    record stopped { manager = stop_session now stopped.manager }

-- The target as the code finds it where it ends by itself.
unfoldable pub lose_target : ℕ → Controller → Controller
unfolding stop_runtime_string_scanner end_analysis
lose_target now c =
    let quiet = stop_runtime_string_scanner c in
    if has_live_processes c.manager then quiet else end_analysis now quiet

-- The store to g_Target.
unfoldable pub store_target : TargetInfo → Controller → Controller
store_target info c =
    if info.active
    then record c { target = info }
    else record c { target = record (c.target) { active = false } }

-- The store to g_ProcessRunState, with the pid that the function has read before.
unfoldable pub store_run_state : TargetInfo → ℕ → Controller → Controller
store_run_state info previous_pid c = record c {
  run_state =
      (if info.active then running else if previous_pid == 0 then not_running else terminated);
}

-- What follows the stores, with the activity that the function has read before.
unfoldable pub after_stores : TargetInfo → Bool → ℕ → Controller → Controller
unfolding lose_target
after_stores info was_active now c = if was_active && not info.active then lose_target now c else c

unfoldable pub set_target_process : TargetInfo → ℕ → Controller → Controller
unfolding store_target store_run_state after_stores
set_target_process info now c =
    after_stores info c.target.active now (store_run_state info c.target.pid (store_target info c))

-- What the thread of an exit watch finds: no handle, or an exit with the code, if that is told.
pub data ExitAnswer : Type 0 where
  unopened : ExitAnswer
  ended : Option ℕ → ExitAnswer

unfoldable pub waited_exit_code : Option ℕ → ℕ
waited_exit_code none = process_aborted
waited_exit_code (some code) = code

unfoldable pub end_target : ℕ → ℕ → Controller → Controller
end_target pid now c =
    if c.target.active && c.target.pid == pid then set_target_process empty_target now c else c

unfoldable pub is_over : Controller → Bool
is_over c = not c.target.active && not (has_live_processes c.manager)

unfoldable pub note_exit : ℕ → ℕ → ℕ → Controller → Controller
unfolding end_target
note_exit pid now code c =
    end_target pid now (record c { manager = mark_exited pid now code c.manager })

unfoldable pub watch_session_process_exit : ℕ → ExitAnswer → ℕ → Controller → Controller
unfolding note_exit is_over stop_etw_for_ended_target end_analysis waited_exit_code
watch_session_process_exit pid unopened now c =
    let noted = note_exit pid now process_aborted c in
    if is_over noted then stop_etw_for_ended_target noted else noted
watch_session_process_exit pid (ended code) now c =
    let noted = note_exit pid now (waited_exit_code code) c in
    if is_over noted then end_analysis now noted else noted

unfoldable pub node_monitored : Option ProcessNode → Bool
node_monitored none = false
node_monitored (some node) = node.monitored

unfoldable pub root_instrumented : AnalysisSession → Bool
unfolding node_monitored
root_instrumented s = node_monitored (find_if (pid_is s.root_pid) s.nodes)

unfoldable pub queue_child_process_instrumentation : ℕ → Controller → Controller
unfolding root_instrumented
queue_child_process_instrumentation pid c =
    if pid == 0 || pid == c.target.pid then c else record c {
      etw = add_target_process pid c.etw;
      listeners =
          (if root_instrumented c.manager.session then c.listeners else c.listeners ++ pid ∷ []);
      injections = c.injections ++ pid ∷ [];
    }

-- The loop of the injecting thread, over the answers of InjectAgentIntoProcess: three attempts at
-- most, up to the first that succeeds; the diagnostic is that of the last attempt.
unfoldable pub inject_attempts : ℕ → List (Bool × Text) → Bool × Text → Bool × Text
inject_attempts zero attempts last = last
inject_attempts (suc tries) [] last = last
inject_attempts (suc tries) ((true, diagnostic) ∷ attempts) last = (true, diagnostic)
inject_attempts (suc tries) ((false, diagnostic) ∷ attempts) last =
    inject_attempts tries attempts (false, diagnostic)

-- The thread that was started for the pid.
unfoldable pub run_injection : ℕ → List (Bool × Text) → Controller → Controller
unfolding inject_attempts
run_injection pid attempts c =
    let outcome = inject_attempts 3 attempts (false, []) in
    record c { manager = mark_injection_result pid outcome.0 outcome.1 c.manager }

unfoldable pub resolve_live_process_image_path : PolicyHost → Text → Option Text → Text
resolve_live_process_image_path host observed live =
    if not (is_empty (host.widen observed)) && is_absolute (host.widen observed)
    then observed
    else or_else live observed

-- What follows an observation that belongs to the session.
unfoldable pub react : ℕ → ChildObservationResult → Controller → Controller
unfolding queue_child_process_instrumentation
react pid observed c =
    let watched = record c {
      etw = add_target_process pid c.etw;
      exit_watches =
          (if observed.start_exit_watch
            then c.exit_watches ++ (pid, not (is_inject observed.decision)) ∷ []
            else c.exit_watches);
    } in
    if observed.queue_injection then queue_child_process_instrumentation pid watched else watched

unfoldable pub react_to : ℕ → Manager × ChildObservationResult → Controller → Controller
unfolding react
react_to pid (manager, observed) c =
    let seen = record c { manager = manager } in
    if observed.belongs_to_session then react pid observed seen else seen

-- `live` is what QueryFullProcessImageNameW answers for the child.
unfoldable pub on_child_process_spawned : Observation → Option Text → Controller → Controller
unfolding react_to resolve_live_process_image_path
on_child_process_spawned o live c =
    let resolved = record o {
      image_path = resolve_live_process_image_path o.host o.image_path live;
    } in
    if o.child_pid == 0 || o.parent_pid == 0 || o.child_pid == o.own_pid
    then c
    else react_to o.child_pid (observe_child resolved c.manager) c

unfoldable pub on_process_exited : ℕ → ℕ → ℕ → Controller → Controller
on_process_exited pid now code c =
    if belongs_to_session pid c.manager
    then record c { manager = mark_exited pid now code c.manager }
    else c
