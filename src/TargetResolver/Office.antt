-- ===== src/TargetResolver/Office.antt =====
-- `ResolveOfficeTargetProfile` of src/controller/office_target_resolver.cpp.
pub mod Validity
use inspec_thor.Prelude.{
  true, ◌||◌, ◌++◌, Option, none, some, Text, literal, lower, text_eq, is_empty, drop,
  if◌then◌else◌,
}
use inspec_thor.StdPath.{extension, parent_path}
use inspec_thor.TargetResolver.Profile.{TargetProfile, empty_profile, Host}
use inspec_thor.TargetResolver.Launchers.{registered_application_path, explorer_path}

-- absolute(path, ec).lexically_normal(), and the path itself if that fails.
unfoldable pub original_of : Host → Text → Text
original_of host path = elim (host.absolute path) [
  | none ↦ path
  | some full ↦ host.lexically_normal full
]

-- This file's own `Quote`.
office_quote : Text → Text
office_quote value = literal "\"" ++ (value ++ literal "\"")

unfoldable pub office_host_of : Text → Option Text
office_host_of ext =
    if text_eq ext (literal ".doc") || text_eq ext (literal ".docm")
    then some (literal "WINWORD.EXE")
    else if text_eq ext (literal ".xls")
        || text_eq ext (literal ".xlsm")
        || text_eq ext (literal ".xll")
    then some (literal "EXCEL.EXE")
    else if text_eq ext (literal ".ppt") || text_eq ext (literal ".pptm")
    then some (literal "POWERPNT.EXE")
    else if text_eq ext (literal ".one")
    then some (literal "ONENOTE.EXE")
    else none

-- The Explorer fallback, and the note on add-ins.
with_fallback : Host → Text → Text → TargetProfile → TargetProfile
with_fallback host name ext profile =
    if is_empty profile.launcher_path
    then record profile {
      launcher_path = explorer_path host;
      requires_shell_execute = true;
      notes =
          name
          ++ literal
              " was not resolved through App Paths or PATH. Explorer ShellExecute fallback will track the first meaningful descendant as primary.";
    }
    else if text_eq ext (literal ".xll")
    then record profile {
      notes =
          literal
            "XLL loaded by Excel; the module is suspicious by default and will be highlighted in DLL Activity.";
    }
    else profile

office_profile : Host → TargetProfile → Text → Text → Text → TargetProfile
unfolding office_quote with_fallback
office_profile host profile name ext user_arguments = with_fallback host name ext (record profile {
  detected_type = literal "Office " ++ drop 1 ext;
  working_directory = parent_path profile.original_path;
  launcher_path = registered_application_path host name;
  launcher_arguments =
      (if is_empty user_arguments
        then office_quote profile.original_path
        else office_quote profile.original_path ++ (literal " " ++ user_arguments));
  execution_mode = literal "Office Document Analysis";
  is_launcher_based = true;
  office_host = name;
  is_office = true;
})

-- The last check.
check_office_launcher : Host → TargetProfile → TargetProfile
check_office_launcher host profile =
    if host.is_regular_file profile.launcher_path then profile else record profile {
      error = literal "Office host and ShellExecute fallback could not be resolved.";
    }

-- The profile, once the host is known or not.
office_outcome : Host → TargetProfile → Option Text → Text → Text → TargetProfile
office_outcome host profile none ext user_arguments = record profile {
  error = literal "Unsupported Office target type.";
}
office_outcome host profile (some name) ext user_arguments =
    check_office_launcher host (office_profile host profile name ext user_arguments)

pub resolve_office_target_profile : Host → Text → Text → TargetProfile
resolve_office_target_profile host target_path user_arguments =
    let profile = record empty_profile { original_path = original_of host target_path } in
    let ext = lower (extension profile.original_path) in
    if host.is_regular_file profile.original_path
    then office_outcome host profile (office_host_of ext) ext user_arguments
    else record profile {
      error = literal "Office target does not exist: " ++ profile.original_path;
    }
