-- ===== src/TargetResolver/Resolve/Tests.antt =====
-- Runs of the resolver on a small Windows host, and the witnesses.
use inspec_thor.Prelude.{
  ◌≡◌, refl, true, false, [], none, some, ◌||◌, Text, codes, text_eq, literal, lower, is_empty,
}
use inspec_thor.TargetResolver.Profile.{auto, Host, Launchable}
use inspec_thor.TargetResolver.Office.{original_of}
use inspec_thor.TargetResolver.Detect.{detect, detect_extension, other_target_type_name}
use inspec_thor.StdPath.{extension, parent_path, ◌//◌}
use inspec_thor.TargetResolver.Launchers.{native_system_path}
use inspec_thor.TargetResolver.Quote.{quote}
use inspec_thor.TargetResolver.Resolve.{
  chosen_type, resolve_type, name_type, launch_outcome, launch, check_launcher, is_auto,
  append_user_arguments, resolve_target_profile,
}
use inspec_thor.TargetResolver.Resolve.Validity.{resolve-Launchable}

abbrev sample_target : Text
sample_target = codes "C:\\m y\\a.hta"

abbrev sample_launcher : Text
sample_launcher = codes "C:\\Windows\\System32\\mshta.exe"

abbrev sample_host : Host
sample_host = record {
  absolute = λ path. some path;
  lexically_normal = λ path. path;
  is_regular_file = λ path. text_eq path sample_target || text_eq path sample_launcher;
  exists = λ path. text_eq path sample_launcher;
  windows_directory = some (codes "C:\\Windows");
  system_directory = none;
  win_64 = true;
  wow_64 = false;
  reg_value = λ hive view subkey name. none;
  search_path = λ name. none;
}

resolve_hta :
    (resolve_target_profile sample_host sample_target [] auto).launcher_path ≡ sample_launcher
unfolding resolve_target_profile chosen_type resolve_type name_type launch_outcome launch
    check_launcher is_auto append_user_arguments other_target_type_name original_of detect
    detect_extension extension lower text_eq literal native_system_path ◌//◌ quote parent_path
resolve_hta = refl

resolve-Launchable_example :
    (is_empty sample_target ≡ false)
    × Launchable sample_host (resolve_target_profile sample_host sample_target [] auto)
unfolding resolve_target_profile chosen_type resolve_type name_type launch_outcome launch
    check_launcher is_auto append_user_arguments original_of detect detect_extension extension lower
    text_eq literal native_system_path ◌//◌ quote
resolve-Launchable_example = resolve-Launchable sample_host sample_target [] auto refl
