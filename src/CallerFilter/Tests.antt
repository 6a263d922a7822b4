-- ===== src/CallerFilter/Tests.antt =====
-- A process with a program and one system library, and the filter's theorem there.
use inspec_thor.Prelude.{
  after_last, ◌≡◌, refl, true, false, [], ◌∷◌, none, some, literal, lower, to_lower, contains,
  starts_with, text_eq, ◌==◌, if◌then◌else◌,
}
use inspec_thor.CallerFilter.{
  Loader, ModuleCache, should_trace, should_trace_in, module_path, path_with, lookup, remember,
  judge, to_utf8, base_name, is_separator, is_agent, is_wanted, is_filtering,
  is_windows_system_library, unknown_region, is_executable,
}
use inspec_thor.CallerFilter.Cache.{IsFresh, should_trace-cache}

abbrev small_process : Loader
small_process = record {
  module_at = λ address. if address == 10 then some 1 else if address == 20 then some 2 else none;
  protection = λ address. if address == 30 then some 64 else none;
  file_name = λ handle.
      if handle == 1
      then some (literal "C:\\a\\b.exe")
      else if handle == 2
      then some (literal "C:\\Windows\\System32\\x.dll")
      else none;
  main_module = 1;
  utf8 = λ s. s;
}

test_program :
    (should_trace small_process 0 10 []).0 ≡ record { traced = true; module_name = literal "b.exe" }
unfolding should_trace should_trace_in module_path path_with lookup remember judge to_utf8 base_name
    is_separator is_agent is_wanted is_filtering is_windows_system_library lower to_lower contains
    starts_with text_eq literal after_last
test_program = refl

test_system : ((should_trace small_process 0 20 []).0).traced ≡ false
unfolding should_trace should_trace_in module_path path_with lookup remember judge to_utf8 base_name
    is_separator is_agent is_wanted is_filtering is_windows_system_library lower to_lower contains
    starts_with text_eq literal after_last
test_system = refl

test_shellcode : ((should_trace small_process 0 30 []).0).traced ≡ true
unfolding should_trace should_trace_in unknown_region is_executable
test_shellcode = refl

abbrev cached : ModuleCache
cached = (2, literal "C:\\Windows\\System32\\x.dll") ∷ []

should_trace-cache_example :
    ((should_trace small_process 0 20 cached).0 ≡ (should_trace small_process 0 20 []).0)
    × IsFresh small_process (should_trace small_process 0 20 cached).1
unfolding IsFresh
should_trace-cache_example = should_trace-cache small_process 0 20 cached (refl, tt)
