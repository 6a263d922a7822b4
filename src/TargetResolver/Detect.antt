-- ===== src/TargetResolver/Detect.antt =====
-- `Detect`, `OtherTargetTypeName`, `IsSupportedOfficeTarget`: the type of a target by its extension.
pub mod Hosts
mod Tests
use inspec_thor.Prelude.{Bool, ◌||◌, Text, literal, lower, text_eq, if◌then◌else◌}
use inspec_thor.StdPath.{extension}
use inspec_thor.TargetResolver.Profile.{
  OtherTargetType, auto, batch, script, hta, msi, cpl, scr, shortcut, internet_shortcut,
  power_shell, office,
}

-- The comparisons of `IsSupportedOfficeTarget`, on the extension in lower case.
unfoldable pub is_office_extension : Text → Bool
is_office_extension ext =
    text_eq ext (literal ".docm")
    || text_eq ext (literal ".xlsm")
    || text_eq ext (literal ".pptm")
    || text_eq ext (literal ".doc")
    || text_eq ext (literal ".xls")
    || text_eq ext (literal ".ppt")
    || text_eq ext (literal ".xll")
    || text_eq ext (literal ".one")

pub is_supported_office_target : Text → Bool
unfolding is_office_extension
is_supported_office_target path = is_office_extension (lower (extension path))

detect_script : Text → Bool
detect_script ext =
    text_eq ext (literal ".vbs")
    || text_eq ext (literal ".vbe")
    || text_eq ext (literal ".js")
    || text_eq ext (literal ".jse")
    || text_eq ext (literal ".wsf")

unfoldable pub detect_extension : Text → OtherTargetType
unfolding detect_script is_office_extension
detect_extension ext =
    if text_eq ext (literal ".bat") || text_eq ext (literal ".cmd")
    then batch
    else if detect_script ext
    then script
    else if text_eq ext (literal ".hta")
    then hta
    else if text_eq ext (literal ".msi")
    then msi
    else if text_eq ext (literal ".cpl")
    then cpl
    else if text_eq ext (literal ".scr")
    then scr
    else if text_eq ext (literal ".lnk")
    then shortcut
    else if text_eq ext (literal ".url")
    then internet_shortcut
    else if text_eq ext (literal ".ps1")
    then power_shell
    else if is_office_extension ext
    then office
    else auto

unfoldable pub detect : Text → OtherTargetType
unfolding detect_extension
detect path = detect_extension (lower (extension path))

unfoldable pub other_target_type_name : OtherTargetType → Text
other_target_type_name batch = literal "BAT / CMD"
other_target_type_name script = literal "VBS / VBE / JS / JSE / WSF"
other_target_type_name hta = literal "HTA"
other_target_type_name msi = literal "MSI"
other_target_type_name cpl = literal "CPL"
other_target_type_name scr = literal "SCR"
other_target_type_name shortcut = literal "LNK"
other_target_type_name internet_shortcut = literal "URL"
other_target_type_name power_shell = literal "PowerShell Script (.ps1)"
other_target_type_name office = literal "Office Document"
other_target_type_name auto = literal "Unsupported"
