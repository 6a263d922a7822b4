-- ===== src/TargetResolver/Launchers.antt =====
-- Where the launchers are: `NativeSystemPath`, `NativePowerShellPath`, `WindowsPath`,
-- `RegisteredApplicationPath`, `ExplorerPath`, `InstalledPowerShellVersion`.
use inspec_thor.Prelude.{
  true, ◌≡◌, refl, ◌⊎◌, inl, [], ◌∷◌, ◌++◌, List, Option, none, some, Text, literal, if◌then◌else◌,
  arith,
}
use inspec_thor.StdPath.{◌//◌}
use inspec_thor.TargetResolver.Profile.{
  Host, current_user, local_machine, own_view, view_64, view_32,
}

module _ (host : Host) where
  open host use {
    is_regular_file, exists, windows_directory, system_directory, win_64, wow_64, reg_value,
    search_path,
  }

  -- windowsDir / System32, as the process must name it.
  system_folder : Text → Text
  system_folder windows =
      if win_64
      then windows // literal "System32"
      else windows // (if wow_64 then literal "Sysnative" else literal "System32")

  unfoldable pub native_system_path : Text → Text
  unfolding system_folder
  native_system_path executable = elim windows_directory [
    | none ↦ []
    | some windows ↦
        let result = system_folder windows // executable in
        if exists result
        then result
        else elim system_directory [ none ↦ result | some system ↦ system // executable ]
  ]

  unfoldable pub native_power_shell_path : Text
  unfolding system_folder
  native_power_shell_path = elim windows_directory [
    | none ↦ literal "powershell.exe"
    | some windows ↦
        ((system_folder windows // literal "WindowsPowerShell") // literal "v1.0")
        // literal "powershell.exe"
  ]

  power_shell_engine : Text → Option Text
  power_shell_engine subkey = reg_value local_machine own_view subkey (literal "PowerShellVersion")

  unfoldable pub installed_power_shell_version : Text
  unfolding power_shell_engine
  installed_power_shell_version =
      elim (power_shell_engine (literal "SOFTWARE\\Microsoft\\PowerShell\\3\\PowerShellEngine")) [
        | some version ↦ version
        | none ↦
            elim (power_shell_engine
              (literal "SOFTWARE\\Microsoft\\PowerShell\\1\\PowerShellEngine")) [
                | some version ↦ version
                | none ↦ literal "Windows PowerShell (version unavailable)"
              ]
      ]

  unfoldable pub windows_path : Text → Text
  windows_path executable = elim windows_directory [
    | none ↦ []
    | some windows ↦ windows // executable
  ]

  -- A path that was found counts if it is a file.
  if_file : Option Text → Option Text
  if_file none = none
  if_file (some value) = if is_regular_file value then some value else none

  first_file : List (Option Text) → Text
  unfolding if_file
  first_file [] = []
  first_file (found ∷ others) = elim (if_file found) [
    | some value ↦ value
    | none ↦ first_file others
  ]

  unfoldable pub registered_application_path : Text → Text
  unfolding first_file
  registered_application_path executable =
      let subkey =
        literal "SOFTWARE\\Microsoft\\Windows\\CurrentVersion\\App Paths\\" ++ executable in
      first_file (
        reg_value current_user view_64 subkey []
        ∷ reg_value current_user view_32 subkey []
        ∷ reg_value local_machine view_64 subkey []
        ∷ reg_value local_machine view_32 subkey []
        ∷ search_path executable
        ∷ [])

  unfoldable pub explorer_path : Text
  explorer_path = elim windows_directory [
    | none ↦ literal "explorer.exe"
    | some windows ↦ windows // literal "explorer.exe"
  ]

  -- What the registry or the search path names is used only if it is a file.
  first_file_IsFile :
      (found : List (Option Text))
      → (first_file found ≡ []) ⊎ (is_regular_file (first_file found) ≡ true)
  unfolding first_file
  first_file_IsFile [] = inl refl
  first_file_IsFile (f ∷ fs) = ground (arith, first_file_IsFile fs)
