-- ===== src/ProcessTree/Manager.antt =====
-- ProcessTreeManager: the session, its root, exits and injection results. Each method holds the
-- manager's mutex from its first access to its last, so it is one step here; `now` is the clock.
use inspec_thor.Prelude.{
  ℕ, ◌+◌, ◌%◌, ◌^◌, Bool, true, false, not, ◌&&◌, ◌||◌, [], ◌∷◌, ◌++◌, List, Text, str_eq, literal,
  is_empty, any, update_first, update_last, insert_pid, ◌==◌, if◌then◌else◌,
}
use inspec_thor.StdPath.{filename}
use inspec_thor.Format.{to_hex}
use inspec_thor.TargetResolver.Profile.{TargetProfile}
use inspec_thor.ProcessTree.Session.{ProcessNode, empty_node, AnalysisSession, empty_session}

pub record Manager : Type 0 where
  pub session : AnalysisSession
  pub generation : ℕ

abbrev pub new_manager : Manager
new_manager = record { session = empty_session; generation = 0 }

unfoldable pub begin_session : Text → Text → TargetProfile → ℕ → Manager → Manager
begin_session path target_type profile now m =
    let generation = (m.generation + 1) % 2 ^ 64 in
    record {
      session = record empty_session {
        original_target_path = path;
        target_type = target_type;
        target_profile = profile;
        start_time = now;
        active = true;
        session_id = to_hex now ++ b'-' ∷ to_hex generation;
      };
      generation = generation;
    }

unfoldable pub reset : Manager → Manager
reset m = record m { session = empty_session }

unfoldable pub stop_session : ℕ → Manager → Manager
stop_session end_time m = record m {
  session = record (m.session) { active = false; end_time = end_time };
}

unfoldable pub restore : AnalysisSession → Manager → Manager
restore session m = record m { session = record session { active = false } }

unfoldable pub root_node : ℕ → Text → Text → ℕ → Bool → Bool → ProcessNode
root_node pid image_path command_line start_time launcher_only instrumented = record empty_node {
  pid = pid;
  image_path = image_path;
  process_name = filename image_path;
  command_line = command_line;
  timestamp = start_time;
  start_time = start_time;
  relationship = (if launcher_only then "launcher" else "root");
  instrumentation_status = (if instrumented then "injected" else "command-only");
  decision = (if instrumented then "Instrumented" else "ETW-only host");
  reason =
      (if instrumented
        then (if launcher_only
            then literal "launcher host registered"
            else literal "root process registered")
        else literal "noisy launcher baseline suppressed");
  is_launcher = launcher_only;
  is_root_target = not launcher_only;
  monitored = instrumented;
}

unfoldable pub register_root : ℕ → Text → Text → ℕ → Bool → Bool → Manager → Manager
register_root pid image_path command_line start_time launcher_only instrumented m =
    let s = m.session in
    if pid == 0 then m else record m {
      session = record s {
        root_pid = pid;
        launcher_pid = (if launcher_only then pid else 0);
        primary_pid = (if launcher_only then 0 else pid);
        monitored_pids =
            (if instrumented then insert_pid pid s.monitored_pids else s.monitored_pids);
        command_only_pids =
            (if instrumented then s.command_only_pids else insert_pid pid s.command_only_pids);
        nodes =
            s.nodes
            ++ root_node pid image_path command_line start_time launcher_only instrumented ∷ [];
      };
    }

unfoldable pub pid_is : ℕ → ProcessNode → Bool
pid_is pid node = node.pid == pid

unfoldable pub live_pid_is : ℕ → ProcessNode → Bool
live_pid_is pid node = node.pid == pid && not node.exited

unfoldable pub injection_outcome : Bool → Text → ProcessNode → ProcessNode
injection_outcome injected diagnostic node = record node {
  monitored = injected;
  instrumentation_status =
      (if injected
        then "injected"
        else if node.exited
        then "exited-before-injection"
        else "failed");
  decision =
      (if injected
        then "Instrumented"
        else if node.exited
        then "Exited before injection"
        else "Failed to inject");
  reason = (if is_empty diagnostic then node.reason else diagnostic);
}

unfoldable pub mark_injection_result : ℕ → Bool → Text → Manager → Manager
mark_injection_result pid injected diagnostic m =
    let s = m.session in
    if any (pid_is pid) s.nodes
    then record m {
      session = record s {
        nodes = update_last (pid_is pid) (injection_outcome injected diagnostic) s.nodes;
        monitored_pids = (if injected then insert_pid pid s.monitored_pids else s.monitored_pids);
      };
    }
    else m

unfoldable pub exit_node : ℕ → ℕ → ProcessNode → ProcessNode
exit_node exit_time exit_code node = record node {
  exited = true;
  exit_time = exit_time;
  exit_code = exit_code;
  instrumentation_status =
      (if str_eq node.instrumentation_status "pending"
        then "exited-before-injection"
        else node.instrumentation_status);
}

unfoldable pub mark_exited : ℕ → ℕ → ℕ → Manager → Manager
mark_exited pid exit_time exit_code m =
    let s = m.session in
    if any (live_pid_is pid) s.nodes
    then record m {
      session = record s {
        nodes = update_last (live_pid_is pid) (exit_node exit_time exit_code) s.nodes;
        exited_pids = insert_pid pid s.exited_pids;
      };
    }
    else m

unfoldable pub watch_node : ProcessNode → ProcessNode
watch_node node = record node { exit_watch_started = true }

unfoldable pub mark_exit_watch_started : ℕ → Manager → Manager
mark_exit_watch_started pid m = record m {
  session = record (m.session) { nodes = update_first (pid_is pid) watch_node m.session.nodes };
}

unfoldable pub belongs_to_session : ℕ → Manager → Bool
belongs_to_session pid m = any (pid_is pid) m.session.nodes

unfoldable pub is_live : ProcessNode → Bool
is_live node = not (node.pid == 0) && not node.exited

unfoldable pub has_live_processes : Manager → Bool
has_live_processes m = any is_live m.session.nodes

unfoldable pub injection_underway : ProcessNode → Bool
injection_underway node =
    str_eq node.instrumentation_status "pending" || str_eq node.instrumentation_status "injected"

unfoldable pub is_injection_pending_or_complete : ℕ → Manager → Bool
is_injection_pending_or_complete pid m =
    any (λ node. pid_is pid node && injection_underway node) m.session.nodes

-- The map of observed paths, newest entry first: a later node with the pid hides an earlier one.
unfoldable pub observed_paths : (Text → Text) → List ProcessNode → List (ℕ × Text) → List (ℕ × Text)
observed_paths utf8 [] found = found
observed_paths utf8 (node ∷ nodes) found = observed_paths utf8 nodes (
    if not (node.pid == 0) && not (is_empty node.image_path)
    then (node.pid, utf8 node.image_path) ∷ found
    else found)

unfoldable pub observed_process_paths : (Text → Text) → Manager → List (ℕ × Text)
observed_process_paths utf8 m = observed_paths utf8 m.session.nodes []
