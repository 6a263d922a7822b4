-- ===== src/TargetResolver/Resolve.antt =====
-- `ResolveTargetProfile` of src/controller/target_resolver.cpp.
pub mod Validity
pub mod Arguments
mod Tests
use inspec_thor.Prelude.{
  Bool, true, false, not, [], ◌∷◌, ◌++◌, Option, none, some, Text, literal, text_eq, is_empty,
  if◌then◌else◌,
}
use inspec_thor.StdPath.{parent_path}
use inspec_thor.TargetResolver.Quote.{quote}
use inspec_thor.TargetResolver.Profile.{
  OtherTargetType, auto, batch, script, hta, msi, cpl, scr, shortcut, internet_shortcut,
  power_shell, office, TargetProfile, empty_profile, Host,
}
use inspec_thor.TargetResolver.Detect.{detect, other_target_type_name}
use inspec_thor.TargetResolver.Launchers.{
  native_system_path, native_power_shell_path, installed_power_shell_version, windows_path,
}
use inspec_thor.TargetResolver.Office.{original_of, resolve_office_target_profile}

pub append_user_arguments : Text → Text → Text
append_user_arguments arguments user_arguments =
    if is_empty user_arguments
    then arguments
    else if is_empty arguments
    then user_arguments
    else (arguments ++ b' ' ∷ []) ++ user_arguments

explorer_launch : Host → Text → TargetProfile → TargetProfile
unfolding append_user_arguments
explorer_launch host user p = record p {
  launcher_path = windows_path host (literal "explorer.exe");
  launcher_arguments = append_user_arguments (quote p.original_path) user;
  execution_mode = literal "ShellExecute-based (Explorer host)";
  requires_shell_execute = true;
  notes =
      literal
        "Explorer is used as the instrumentable ShellExecute host; spawned descendants remain tracked.";
}

-- The switch: the profile of each type, but for the Office types, which are resolved elsewhere.
pub launch : Host → OtherTargetType → Text → TargetProfile → Option TargetProfile
unfolding append_user_arguments explorer_launch
launch host batch user p = some (record p {
  launcher_path = native_system_path host (literal "cmd.exe");
  launcher_arguments =
      append_user_arguments (literal "/d /s /c \"" ++ quote p.original_path) user ++ literal "\"";
  execution_mode = literal "Launcher-based (Command Processor)";
  notes =
      literal
        "cmd.exe is monitored with ETW only by default; parsed source commands and selectively instrumented descendants provide the primary findings.";
})
launch host script user p = some (record p {
  launcher_path = native_system_path host (literal "cscript.exe");
  launcher_arguments = append_user_arguments (literal "//nologo " ++ quote p.original_path) user;
  execution_mode = literal "Launcher-based (Windows Script Host)";
  notes =
      literal
        "cscript.exe remains ETW-only; source statements, console output, and selectively instrumented descendants are correlated in Scripts, PS.";
})
launch host hta user p = some (record p {
  launcher_path = native_system_path host (literal "mshta.exe");
  launcher_arguments = append_user_arguments (quote p.original_path) user;
  execution_mode = literal "Launcher-based (MSHTA)";
  notes =
      literal
        "mshta.exe remains ETW-only; child processes and system effects are monitored by the sandbox telemetry layers.";
})
launch host msi user p = some (record p {
  launcher_path = native_system_path host (literal "msiexec.exe");
  launcher_arguments = append_user_arguments (literal "/i " ++ quote p.original_path) user;
  execution_mode = literal "Launcher-based (Windows Installer)";
  notes =
      literal
        "msiexec.exe remains ETW-only; installer child processes and resulting system changes are correlated across the session.";
})
launch host cpl user p = some (record p {
  launcher_path = native_system_path host (literal "control.exe");
  launcher_arguments = append_user_arguments (quote p.original_path) user;
  execution_mode = literal "Launcher-based (Control Panel)";
  notes =
      literal
        "control.exe remains ETW-only; spawned processes and system effects are monitored across the session.";
})
launch host scr user p = some (record p {
  launcher_path = p.original_path;
  launcher_arguments = user;
  execution_mode = literal "Direct executable";
  notes =
      literal
        "Screen saver files are PE executables and run through the normal injected launch path.";
})
launch host shortcut user p = some (explorer_launch host user p)
launch host internet_shortcut user p = some (explorer_launch host user p)
launch host power_shell user p = some (record p {
  launcher_path = native_power_shell_path host;
  launcher_arguments =
      append_user_arguments
        (literal "-NoProfile -ExecutionPolicy Bypass -File " ++ quote p.original_path) user;
  execution_mode = literal "PowerShell Script Analysis";
  power_shell_version = installed_power_shell_version host;
  execution_policy = literal "Bypass (process scope)";
  notes =
      literal
        "powershell.exe remains ETW-only by default; PowerShell trace output, source intelligence, and selectively instrumented descendants provide the script findings.";
})
launch host office user p = none
launch host auto user p = none

-- What stands behind the switch.
check_launcher : Host → TargetProfile → TargetProfile
check_launcher host p =
    let q = record p { is_launcher_based = not (text_eq p.launcher_path p.original_path) } in
    if host.is_regular_file q.launcher_path
    then q
    else record q { error = literal "Required Windows launcher was not found: " ++ q.launcher_path }

pub is_auto : OtherTargetType → Bool
is_auto auto = true
is_auto other = false

-- The switch's other cases.
unlaunched : Host → OtherTargetType → Text → TargetProfile → TargetProfile
unlaunched host office user p = resolve_office_target_profile host p.original_path user
unlaunched host other user p = record p {
  error = literal "Unable to resolve the selected target type.";
}

-- What the switch made of it.
launch_outcome :
    Host → OtherTargetType → Text → TargetProfile → Option TargetProfile → TargetProfile
launch_outcome host type user p (some q) = check_launcher host q
launch_outcome host type user p none = unlaunched host type user p

-- The profile as the switch finds it.
name_type : OtherTargetType → OtherTargetType → TargetProfile → TargetProfile
name_type type detected p = record p {
  detected_type = other_target_type_name (if is_auto detected then type else detected);
  working_directory = parent_path p.original_path;
}

resolve_type : Host → OtherTargetType → OtherTargetType → Text → TargetProfile → TargetProfile
resolve_type host type detected user p =
    let named = name_type type detected p in
    launch_outcome host type user named (launch host type user named)

-- The caller's choice, or else what the extension says.
pub chosen_type : OtherTargetType → OtherTargetType → OtherTargetType
chosen_type override detected = if is_auto override then detected else override

pub resolve_target_profile : Host → Text → Text → OtherTargetType → TargetProfile
resolve_target_profile host target_path user override =
    let profile = record empty_profile { original_path = original_of host target_path } in
    let detected = detect profile.original_path in
    let type = chosen_type override detected in
    if is_empty target_path
    then record profile { error = literal "Select a target file." }
    else if not (host.is_regular_file profile.original_path)
    then record profile {
      error =
          literal "Target file does not exist or is not a regular file: " ++ profile.original_path;
    }
    else if is_auto type
    then record profile {
      error =
          literal
            "Unsupported file type. Supported launcher files are PS1, BAT, CMD, VBS, VBE, JS, JSE, WSF, HTA, MSI, CPL, SCR, LNK, URL, DOC/DOCM, XLS/XLSM/XLL, PPT/PPTM, and ONE.";
    }
    else resolve_type host type detected user profile
