-- ===== src/ChildPolicy/Paths.antt =====
-- `StartsWithPath`, `IsUserWritable`, `IsWindowsSystemDirectory`.
use inspec_thor.Prelude.{
  Bool, false, ◌&&◌, ◌||◌, [], ◌∷◌, ◌++◌, List, Option, none, some, Text, literal, lower, text_eq,
  is_empty, starts_with, any, length, drop, ltb, if◌then◌else◌,
}
use inspec_thor.StdPath.{is_slash, drop_trailing, ◌//◌}

-- What the policy asks of Windows. `environment` is GetEnvironmentVariableW, `none` where a
-- variable is not set; `widen` is MultiByteToWideChar; `weakly_canonical` is `none` where it
-- reports an error.
pub record PolicyHost : Type 0 where
  pub weakly_canonical : Text → Option Text
  pub environment : Text → Option Text
  pub windows_directory : Option Text
  pub widen : Text → Text

abbrev pub or_else : Option Text → Text → Text
or_else none d = d
or_else (some a) d = a

unfoldable pub slash_first : Text → Bool
slash_first [] = false
slash_first (c ∷ s) = is_slash c

-- p is r, or begins with r and goes on with a separator.
unfoldable pub is_under : Text → Text → Bool
is_under p r =
    text_eq p r || (ltb (length r) (length p) && starts_with p r && slash_first (drop (length r) p))

module _ (host : PolicyHost) where
  unfoldable pub starts_with_path : Text → Text → Bool
  starts_with_path path root =
      if is_empty path || is_empty root
      then false
      else is_under (lower (or_else (host.weakly_canonical path) path))
          (drop_trailing is_slash (lower (or_else (host.weakly_canonical root) root)))

  -- A variable counts if its value is not empty and fits the buffer.
  unfoldable pub usable : Option Text → Option Text
  usable none = none
  usable (some value) =
      if ltb 0 (length value) && ltb (length value) 32768 then some value else none

  unfoldable pub environment_root : Text → List Text
  environment_root name = elim (usable (host.environment name)) [
    | none ↦ []
    | some value ↦ value ∷ []
  ]

  unfoldable pub profile_roots : List Text
  profile_roots = elim (usable (host.environment (literal "USERPROFILE"))) [
    | none ↦ []
    | some user ↦ (user // literal "Desktop") ∷ (user // literal "Downloads") ∷ []
  ]

  unfoldable pub writable_roots : Text → List Text
  writable_roots sample_directory =
      environment_root (literal "TEMP")
      ++ (environment_root (literal "TMP")
          ++ (environment_root (literal "APPDATA")
              ++ (environment_root (literal "LOCALAPPDATA")
                  ++ (environment_root (literal "ProgramData")
                      ++ (environment_root (literal "PUBLIC")
                          ++ (profile_roots
                              ++ (if is_empty sample_directory
                                  then []
                                  else sample_directory ∷ [])))))))

  unfoldable pub is_user_writable : Text → Text → Bool
  is_user_writable image_path sample_directory =
      any (starts_with_path image_path) (writable_roots sample_directory)

  unfoldable pub system_directories : List Text
  system_directories =
      literal "System32" ∷ literal "SysWOW64" ∷ literal "Sysnative" ∷ literal "WinSxS" ∷ []

  unfoldable pub is_windows_system_directory : Text → Bool
  is_windows_system_directory image_path =
      if is_empty image_path then false else elim host.windows_directory [
        | none ↦ false
        | some windows ↦
            any (λ directory. starts_with_path image_path (windows // directory)) system_directories
      ]
