-- ===== src/ChildPolicy/Tests.antt =====
-- Runs of the child policy on a small Windows host, and the witnesses.
use inspec_thor.Prelude.{
  true, false, ◌≡◌, ◌↔◌, refl, [], none, some, Option, Text, codes, literal, lower, text_eq,
  starts_with, if◌then◌else◌,
}
use inspec_thor.StdPath.{is_slash, filename, drop_trailing, take_until}
use inspec_thor.ChildPolicy.Paths.{
  PolicyHost, is_under, starts_with_path, usable, environment_root, profile_roots, writable_roots,
  is_user_writable, slash_first,
}
use inspec_thor.ChildPolicy.Names.{
  command_executable, process_image_name, inject_names, command_only_names,
}
use inspec_thor.ChildPolicy.Decide.{
  smart, aggressive, inject_and_monitor, log_command_only, ChildPolicyContext, decide_smart,
  decide_unhosted, decide_mode, decide_child_instrumentation,
}
use inspec_thor.ChildPolicy.Boundary.{Within, is_under_iff}
use inspec_thor.ChildPolicy.Decisions.{aggressive_injects_more, noisy_never_injected}

abbrev temp_only : Text → Option Text
temp_only name = if text_eq name (codes "TEMP") then some (codes "C:\\Temp\\") else none

abbrev sample_host : PolicyHost
sample_host = record {
  weakly_canonical = λ path. some path;
  environment = temp_only;
  windows_directory = some (codes "C:\\Windows");
  widen = λ s. s;
}

abbrev dropped_child : ChildPolicyContext
dropped_child = record {
  image_path = codes "C:\\TEMP\\x.exe";
  command_line = codes "x.exe /q";
  parent_process_name = codes "cmd.exe";
  parent_pid = 4;
  target_type = codes "exe";
  original_sample_directory = [];
  sandbox_hosted_target = false;
  mode = smart;
}

name_of_command : process_image_name [] (codes "\"C:\\a b\\NET.exe\" use") ≡ codes "net.exe"
unfolding process_image_name command_executable lower filename take_until
name_of_command = refl

lookalike : is_under (codes "c:\\windows\\system32x\\a.exe") (codes "c:\\windows\\system32") ≡ false
unfolding is_under slash_first text_eq starts_with is_slash
lookalike = refl

dropped_is_injected :
    (decide_child_instrumentation sample_host dropped_child).0 ≡ inject_and_monitor
unfolding decide_child_instrumentation decide_mode decide_unhosted decide_smart process_image_name
    inject_names command_only_names is_user_writable writable_roots environment_root profile_roots
    usable starts_with_path is_under slash_first lower filename text_eq starts_with literal
    drop_trailing
dropped_is_injected = refl

abbrev noisy_child : ChildPolicyContext
noisy_child = record dropped_child { image_path = codes "C:\\TEMP\\whoami.exe" }

noisy_never_injected_example :
    (decide_child_instrumentation sample_host noisy_child).0 ≡ log_command_only
unfolding process_image_name command_only_names filename text_eq lower literal
noisy_never_injected_example = noisy_never_injected sample_host noisy_child refl refl refl

aggressive_injects_more_example :
    (decide_child_instrumentation sample_host (record dropped_child { mode = aggressive })).0
    ≡ inject_and_monitor
aggressive_injects_more_example =
    aggressive_injects_more sample_host dropped_child dropped_is_injected

is_under_iff_example :
    (is_under (codes "c:\\temp\\x") (codes "c:\\temp") ≡ true)
    ↔ Within (codes "c:\\temp\\x") (codes "c:\\temp")
is_under_iff_example = is_under_iff (codes "c:\\temp\\x") (codes "c:\\temp")
