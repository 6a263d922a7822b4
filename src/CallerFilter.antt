-- ===== src/CallerFilter.antt =====
-- src/agent/filter.cpp: whether a call is traced, by the module that its return address lies in.
pub mod Cache
mod Tests
use inspec_thor.Prelude.{
  ℕ, ◌/◌, ◌%◌, Bool, true, false, not, ◌&&◌, ◌||◌, List, [], ◌∷◌, Option, none, some, Text, literal,
  lower, contains, text_eq, is_member, is_empty, after_last, ◌==◌, if◌then◌else◌,
}

-- What Windows answers in the traced process, and `utf8`, the conversion by WideCharToMultiByte.
-- `module_at` is a module's handle, `protection` the Protect of a memory region.
pub record Loader : Type 0 where
  pub module_at : ℕ → Option ℕ
  pub protection : ℕ → Option ℕ
  pub file_name : ℕ → Option Text
  pub main_module : ℕ
  pub utf8 : Text → Text

-- m_moduleCache: paths by handle.
abbrev pub ModuleCache : Type 0
ModuleCache = List (ℕ × Text)

pub record Verdict : Type 0 where
  pub traced : Bool
  pub module_name : Text

unfoldable pub to_utf8 : Loader → Text → Text
to_utf8 l s = if is_empty s then [] else l.utf8 s

unfoldable pub lookup : ℕ → ModuleCache → Option Text
lookup handle [] = none
lookup handle ((key, path) ∷ cache) = if handle == key then some path else lookup handle cache

-- Protect & (PAGE_EXECUTE to PAGE_EXECUTE_WRITECOPY): one of the bits 4 to 7.
unfoldable pub is_executable : ℕ → Bool
is_executable protect = not (protect / 16 % 16 == 0)

unfoldable pub unknown_region : Option ℕ → Verdict
unfolding is_executable
unknown_region none = record { traced = false; module_name = literal "Unknown (Non-Executable)" }
unknown_region (some protect) =
    if is_executable protect
    then record { traced = true; module_name = literal "Unknown (Shellcode/Mapped)" }
    else record { traced = false; module_name = literal "Unknown (Non-Executable)" }

unfoldable pub is_separator : ℕ → Bool
is_separator c = c == b'\\' || c == b'/'

unfoldable pub base_name : Text → Text
unfolding is_separator
base_name = after_last is_separator

abbrev pub system_libs : List Text
system_libs =
    literal "ntdll.dll"
    ∷ literal "kernel32.dll"
    ∷ literal "kernelbase.dll"
    ∷ literal "user32.dll"
    ∷ literal "gdi32.dll"
    ∷ literal "advapi32.dll"
    ∷ literal "comcb.dll"
    ∷ literal "combase.dll"
    ∷ literal "rpcrt4.dll"
    ∷ literal "sechost.dll"
    ∷ literal "ws2_32.dll"
    ∷ literal "wininet.dll"
    ∷ literal "shlwapi.dll"
    ∷ literal "shell32.dll"
    ∷ literal "ole32.dll"
    ∷ literal "oleaut32.dll"
    ∷ literal "bcrypt.dll"
    ∷ literal "crypt32.dll"
    ∷ literal "msvcrt.dll"
    ∷ literal "ucrtbase.dll"
    ∷ literal "vcruntime140.dll"
    ∷ []

unfoldable pub is_windows_system_library : Text → Bool
unfolding base_name
is_windows_system_library path =
    let path_lower = lower path in
    contains path_lower (literal "\\windows\\system32\\")
    || contains path_lower (literal "\\windows\\syswow64\\")
    || contains path_lower (literal "\\windows\\winsxs\\")
    || is_member (base_name path_lower) system_libs

-- The cache is left as it is where the module has no file name.
unfoldable pub remember : ℕ → ModuleCache → Option Text → Text × ModuleCache
remember handle cache none = ([], cache)
remember handle cache (some path) = (path, (handle, path) ∷ cache)

unfoldable pub path_with : Loader → ℕ → ModuleCache → Option Text → Text × ModuleCache
unfolding remember
path_with l handle cache (some path) = (path, cache)
path_with l handle cache none = remember handle cache (l.file_name handle)

unfoldable pub module_path : Loader → ℕ → ModuleCache → Text × ModuleCache
unfolding path_with lookup
module_path l handle cache = path_with l handle cache (lookup handle cache)

unfoldable pub is_agent : Text → Bool
is_agent name =
    text_eq (lower name) (literal "inspecthoragent.dll")
    || text_eq (lower name) (literal "inspecthoragent32.dll")

-- ApiCallerFunctions is 0 and UserModulesOnly 1; the controller's message can bring any number.
unfoldable pub is_filtering : ℕ → Bool
is_filtering mode = mode == 0 || mode == 1

unfoldable pub is_wanted : Loader → ℕ → ℕ → Text → Bool
unfolding is_filtering is_windows_system_library
is_wanted l mode handle path =
    not (is_filtering mode) || handle == l.main_module || not (is_windows_system_library path)

unfoldable pub judge : Loader → ℕ → ℕ → Text → Verdict
unfolding base_name is_agent is_wanted to_utf8
judge l mode handle path =
    let name = to_utf8 l (base_name path) in
    if is_empty path
    then record { traced = false; module_name = literal "Unknown Module" }
    else record { traced = not (is_agent name) && is_wanted l mode handle path; module_name = name }

unfoldable pub should_trace_in : Loader → ℕ → ℕ → ModuleCache → Option ℕ → Verdict × ModuleCache
unfolding judge module_path unknown_region
should_trace_in l mode address cache none = (unknown_region (l.protection address), cache)
should_trace_in l mode address cache (some handle) =
    let found = module_path l handle cache in (judge l mode handle found.0, found.1)

unfoldable pub should_trace : Loader → ℕ → ℕ → ModuleCache → Verdict × ModuleCache
unfolding should_trace_in
should_trace l mode address cache = should_trace_in l mode address cache (l.module_at address)
