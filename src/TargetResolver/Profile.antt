-- ===== src/TargetResolver/Profile.antt =====
-- The target profile (src/controller/target_resolver.h), and what the resolver asks of Windows.
use inspec_thor.Prelude.{◌≡◌, Bool, true, false, [], Option, Text}

-- enum class OtherTargetType
pub data OtherTargetType : Type 0 where
  auto batch script hta msi cpl scr : OtherTargetType
  shortcut internet_shortcut power_shell office : OtherTargetType

pub record TargetProfile : Type 0 where
  pub original_path : Text
  pub detected_type : Text
  pub launcher_path : Text
  pub launcher_arguments : Text
  pub working_directory : Text
  pub execution_mode : Text
  pub power_shell_version : Text
  pub execution_policy : Text
  pub office_host : Text
  pub is_office : Bool
  pub is_launcher_based : Bool
  pub requires_shell_execute : Bool
  pub notes : Text
  pub error : Text

abbrev pub empty_profile : TargetProfile
empty_profile = record {
  original_path = [];
  detected_type = [];
  launcher_path = [];
  launcher_arguments = [];
  working_directory = [];
  execution_mode = [];
  power_shell_version = [];
  execution_policy = [];
  office_host = [];
  is_office = false;
  is_launcher_based = false;
  requires_shell_execute = false;
  notes = [];
  error = [];
}

-- HKEY_CURRENT_USER, HKEY_LOCAL_MACHINE
pub data Hive : Type 0 where
  current_user local_machine : Hive

-- The registry view that RegGetValueW is asked for.
pub data View : Type 0 where
  own_view view_64 view_32 : View

-- The answers of Windows while one target is resolved; `none` is a call that fails. `win_64` is the
-- build's _WIN64, and `lexically_normal` the standard library's.
pub record Host : Type 0 where
  pub absolute : Text → Option Text
  pub lexically_normal : Text → Text
  pub is_regular_file : Text → Bool
  pub exists : Text → Bool
  pub windows_directory : Option Text
  pub system_directory : Option Text
  pub win_64 : Bool
  pub wow_64 : Bool
  pub reg_value : Hive → View → Text → Text → Option Text
  pub search_path : Text → Option Text

-- A profile that can be launched: its target and its launcher are files.
pub record Launchable (host : Host) (p : TargetProfile) : Type 0 where
  pub target_IsFile : host.is_regular_file p.original_path ≡ true
  pub launcher_IsFile : host.is_regular_file p.launcher_path ≡ true
