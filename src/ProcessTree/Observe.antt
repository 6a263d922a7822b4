-- ===== src/ProcessTree/Observe.antt =====
-- `ProcessTreeManager::ObserveChild`.
use inspec_thor.Prelude.{
  ℕ, Bool, true, false, not, ◌&&◌, ◌||◌, [], ◌∷◌, ◌++◌, Option, none, some, Text, is_empty, find_if,
  update_first, insert_pid, ◌==◌, if◌then◌else◌,
}
use inspec_thor.StdPath.{filename, parent_path}
use inspec_thor.ChildPolicy.Paths.{PolicyHost}
use inspec_thor.ChildPolicy.Decide.{
  ChildMonitoringMode, ChildDecision, inject_and_monitor, log_command_only, ignore_system_noise,
  ChildPolicyContext, decide_child_instrumentation,
}
use inspec_thor.ProcessTree.Session.{
  ProcessNode, empty_node, AnalysisSession, ChildObservationResult, empty_result,
}
use inspec_thor.ProcessTree.Manager.{Manager, pid_is, live_pid_is, injection_underway}

-- What one observation says of a child, with the controller's own pid and `utf8`, the conversion
-- by WideCharToMultiByte.
pub record Observation : Type 0 where
  pub host : PolicyHost
  pub utf8 : Text → Text
  pub own_pid : ℕ
  pub child_pid : ℕ
  pub parent_pid : ℕ
  pub image_path : Text
  pub command_line : Text
  pub start_time : ℕ
  pub mode : ChildMonitoringMode

unfoldable pub child_context : Observation → AnalysisSession → ProcessNode → ChildPolicyContext
child_context o s parent = record {
  image_path = o.image_path;
  command_line = o.command_line;
  parent_process_name = o.utf8 parent.process_name;
  parent_pid = o.parent_pid;
  target_type = s.target_type;
  original_sample_directory = parent_path s.original_target_path;
  sandbox_hosted_target =
      s.target_profile.is_launcher_based || s.target_profile.is_office
      || s.target_profile.requires_shell_execute;
  mode = o.mode;
}

unfoldable pub is_inject : ChildDecision → Bool
is_inject inject_and_monitor = true
is_inject other = false

-- The child is already a live node: what is missing of it is filled in.
unfoldable pub fill_node : Observation → ProcessNode → ProcessNode
fill_node o node =
    let image = (if is_empty node.image_path then o.host.widen o.image_path else node.image_path) in
    record node {
      image_path = image;
      process_name = (if is_empty node.process_name then filename image else node.process_name);
      command_line =
          (if is_empty node.command_line then o.host.widen o.command_line else node.command_line);
    }

unfoldable pub queues_again : ChildDecision → ProcessNode → Bool
queues_again decision node = is_inject decision && not (injection_underway node)

unfoldable pub observe_node : Observation → ChildDecision → ProcessNode → ProcessNode
observe_node o decision node =
    let filled = fill_node o node in
    record filled {
      exit_watch_started = true;
      instrumentation_status =
          (if queues_again decision filled then "pending" else filled.instrumentation_status);
    }

unfoldable pub observe_existing :
    Observation → ChildDecision → Text → Manager → ProcessNode → Manager × ChildObservationResult
observe_existing o decision reason m node = (
  record m {
    session = record (m.session) {
      nodes = update_first (live_pid_is o.child_pid) (observe_node o decision) m.session.nodes;
    };
  },
  record empty_result {
    belongs_to_session = true;
    queue_injection = queues_again decision node;
    start_exit_watch = not node.exit_watch_started;
    decision = decision;
    reason = reason;
  },
)

-- The label, the status and the decision text of a new node.
unfoldable pub label_child : ChildDecision → ProcessNode → ProcessNode
label_child inject_and_monitor node = record node {
  relationship = "monitored-child";
  instrumentation_status = "pending";
  decision = "Injection queued";
}
label_child log_command_only node = record node {
  relationship = "command-only";
  instrumentation_status = "command-only";
  decision = "Command only";
}
label_child ignore_system_noise node = record node {
  relationship = "skipped";
  instrumentation_status = "skipped";
  decision = "Skipped";
}

-- The set of pids that the decision puts the child in.
unfoldable pub record_child : ChildDecision → ℕ → AnalysisSession → AnalysisSession
record_child inject_and_monitor pid s = record s {
  monitored_pids = insert_pid pid s.monitored_pids;
}
record_child log_command_only pid s = record s {
  command_only_pids = insert_pid pid s.command_only_pids;
}
record_child ignore_system_noise pid s = record s { skipped_pids = insert_pid pid s.skipped_pids }

unfoldable pub child_node : Observation → ChildDecision → Text → ProcessNode
child_node o decision reason = label_child decision (record empty_node {
  pid = o.child_pid;
  parent_pid = o.parent_pid;
  image_path = o.host.widen o.image_path;
  process_name = filename (o.host.widen o.image_path);
  command_line = o.host.widen o.command_line;
  timestamp = o.start_time;
  start_time = o.start_time;
  reason = reason;
  exit_watch_started = true;
})

-- The first child of a launcher is the primary process.
unfoldable pub takes_primary : AnalysisSession → Bool
takes_primary s = s.primary_pid == 0 && not (s.launcher_pid == 0)

unfoldable pub add_child : Observation → ChildDecision → Text → AnalysisSession → AnalysisSession
add_child o decision reason s =
    let node = child_node o decision reason in
    let recorded = record_child decision o.child_pid s in
    if takes_primary s
    then record recorded {
      primary_pid = o.child_pid;
      nodes = s.nodes ++ record node { relationship = "primary" } ∷ [];
    }
    else record recorded { nodes = s.nodes ++ node ∷ [] }

unfoldable pub observe_new :
    Observation → ChildDecision → Text → Manager → Manager × ChildObservationResult
observe_new o decision reason m = (
  record m { session = add_child o decision reason m.session },
  record empty_result {
    belongs_to_session = true;
    is_new = true;
    queue_injection = is_inject decision;
    start_exit_watch = true;
    decision = decision;
    reason = reason;
  },
)

unfoldable pub observe_decided :
    Observation
    → ChildDecision × Text
    → Manager
    → Option ProcessNode
    → Manager × ChildObservationResult
observe_decided o (decision, reason) m (some node) =
    observe_existing o decision reason m (fill_node o node)
observe_decided o (decision, reason) m none = observe_new o decision reason m

unfoldable pub observe_from :
    Observation → Manager → Option ProcessNode → Manager × ChildObservationResult
observe_from o m none = (m, empty_result)
observe_from o m (some parent) =
    observe_decided o (decide_child_instrumentation o.host (child_context o m.session parent)) m
      (find_if (live_pid_is o.child_pid) m.session.nodes)

-- The early returns.
unfoldable pub ignores : Observation → Manager → Bool
ignores o m =
    o.child_pid == 0
    || o.parent_pid == 0
    || o.child_pid == o.own_pid
    || (not m.session.active && is_empty m.session.session_id)

unfoldable pub observe_child : Observation → Manager → Manager × ChildObservationResult
observe_child o m =
    if ignores o m
    then (m, empty_result)
    else observe_from o m (find_if (pid_is o.parent_pid) m.session.nodes)
