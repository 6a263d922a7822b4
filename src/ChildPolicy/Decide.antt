-- ===== src/ChildPolicy/Decide.antt =====
-- `DecideChildInstrumentation`: the decision and its reason.
use inspec_thor.Prelude.{ℕ, Bool, not, ◌||◌, Text, literal, is_empty, is_member, if◌then◌else◌}
use inspec_thor.StdPath.{is_absolute}
use inspec_thor.ChildPolicy.Paths.{PolicyHost, is_user_writable, is_windows_system_directory}
use inspec_thor.ChildPolicy.Names.{process_image_name, inject_names, command_only_names}

pub data ChildMonitoringMode : Type 0 where
  smart aggressive command_only : ChildMonitoringMode

pub data ChildDecision : Type 0 where
  inject_and_monitor log_command_only ignore_system_noise : ChildDecision

pub record ChildPolicyContext : Type 0 where
  pub image_path : Text
  pub command_line : Text
  pub parent_process_name : Text
  pub parent_pid : ℕ
  pub target_type : Text
  pub original_sample_directory : Text
  pub sandbox_hosted_target : Bool
  pub mode : ChildMonitoringMode

-- A child of a target that runs in a host process of its own.
unfoldable pub decide_hosted : PolicyHost → ChildPolicyContext → ChildDecision × Text
decide_hosted host context =
    let wide_path = host.widen context.image_path in
    if is_empty wide_path || not (is_absolute wide_path)
    then (
      log_command_only,
      literal
          "sandbox-hosted target; child path unavailable or unresolved, retained as ETW/command-only",
    )
    else if is_windows_system_directory host wide_path
    then (
      log_command_only,
      literal "sandbox-hosted target; Windows system-directory child remains ETW/command-only",
    )
    else (
      inject_and_monitor,
      literal "sandbox-hosted target spawned a non-system-directory executable",
    )

-- The lists and the places that the smart mode goes by.
unfoldable pub decide_smart : PolicyHost → ChildPolicyContext → ChildDecision × Text
decide_smart host context =
    let name = process_image_name context.image_path context.command_line in
    if is_member name inject_names
    then (inject_and_monitor, literal "high-value descendant executable")
    else if is_member name command_only_names
    then (log_command_only, literal "noisy system utility; command and exit status only")
    else if is_user_writable host (host.widen context.image_path) context.original_sample_directory
    then (
      inject_and_monitor,
      literal "executable launched from a user-writable or original sample directory",
    )
    else if is_empty name
    then (log_command_only, literal "process path unavailable; retained without injection")
    else (log_command_only, literal "unlisted descendant outside monitored user-writable locations")

unfoldable pub decide_unhosted :
    PolicyHost → ChildPolicyContext → ChildMonitoringMode → ChildDecision × Text
decide_unhosted host context aggressive =
    (inject_and_monitor, literal "aggressive child monitoring mode")
decide_unhosted host context other = decide_smart host context

unfoldable pub decide_mode :
    PolicyHost → ChildPolicyContext → ChildMonitoringMode → ChildDecision × Text
decide_mode host context command_only =
    (log_command_only, literal "command-only child monitoring mode")
decide_mode host context other =
    if context.sandbox_hosted_target
    then decide_hosted host context
    else decide_unhosted host context other

unfoldable pub decide_child_instrumentation : PolicyHost → ChildPolicyContext → ChildDecision × Text
decide_child_instrumentation host context = decide_mode host context context.mode
