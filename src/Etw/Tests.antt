-- ===== src/Etw/Tests.antt =====
-- Concrete runs of the monitor, and the theorems about it at concrete inputs.
use inspec_thor.Prelude.{
  ℕ, ◌+◌, ◌*◌, ◌-◌, ◌%◌, ◌/◌, ◌^◌, ◌≤◌, ◌<◌, ◌≡◌, refl, ◌⊎◌, true, false, not, ◌&&◌, ◌||◌, List, [],
  ◌∷◌, ◌++◌, some, Text, literal, text_eq, length, drop, any, keep_if, has_pid, if◌then◌else◌, ◌==◌,
  All, arith,
}
use inspec_thor.StdPath.{drop_trailing, skip_while}
use inspec_thor.Format.{to_decimal, print_digits, digit}
use inspec_thor.Etw.Event.{
  EtwKernelEvent, EventRecord, TraceInfo, PropertyInfo, uint32, ansi_string, other_out,
}
use inspec_thor.Etw.Values.{
  negsuc, file_time_to_epoch_ms, read_unsigned_value, little_endian, read_signed_value,
  wide_to_utf8, unsigned_value, is_hex_out, without_zeros, format_etw_property_value, format_sized,
  format_by_in_type,
}
use inspec_thor.Etw.Values.RoundTrip.{
  epoch_ms-halves, bytes_of, pattern_of, four, byte_count, modulus_of, Fits, read_signed-bytes_of,
}
use inspec_thor.Etw.Numbers.{
  read_integer, stoul, is_space, read_signed_magnitude, in_range, read_magnitude, read_zero,
  begins_digit, read_digits, digit_value,
}
use inspec_thor.Etw.Integers.{is_unsigned, is_number, format_property-read}
use inspec_thor.Etw.Describe.{
  process_guid, is_guid, make_guid, first_matching_property_value, find_property_value,
}
use inspec_thor.Etw.Build.{
  build_event, describe, name_event, event_text, untold, or_text, read_event_properties,
  read_event_property, read_property, is_property_size, keep_property, read_trace_info_string,
}
use inspec_thor.Etw.Category.{kernel_categories, build_event-category}
use inspec_thor.Etw.Monitor.{
  Monitor, new_monitor, started, access_denied, processed, end_thread, start_session,
  start_etw_kernel_telemetry, stop_etw_kernel_telemetry, open_failed, add_target_processes,
  append_event, is_of_target,
}
use inspec_thor.Etw.Monitor.Retention.{append_event_lem, is_new_target, add_target_processes_lem}
use inspec_thor.Etw.Monitor.Lifetime.{
  stop_times, run_thread, is_open_failure, has_terminated, is_refusal, restart-terminates,
  refused_start-terminates,
}
use inspec_thor.Etw.Monitor.Steps.{
  Step, starts, begins, adds, appends, run, started_monitor, import_size, IsSound,
}
use inspec_thor.Etw.Callback.{
  etw_record_callback, child_process_spawned, notifications, recorded_event, is_network_event,
  is_process_exit, is_process_start, subject_pid, spawn_notification, start_pids, parsed_pids,
  pid_text, find_either,
}
use inspec_thor.Etw.Soundness.{monitor-IsSound}

abbrev utf8_same : Text → Text
utf8_same s = s

-- A process start record: the child 4660 of 300, at name offsets 10, 20 and 30.
abbrev names_at : ℕ → Text
names_at offset =
    if offset == 10
    then literal "ProcessId"
    else if offset == 20
    then literal "ParentId"
    else if offset == 30
    then literal "ImageFileName"
    else []

abbrev pid_property : ℕ → List ℕ → PropertyInfo
pid_property offset bytes = record {
  is_struct = false;
  name_offset = offset;
  in_type = uint32;
  out_type = other_out;
  size = some 4;
  bytes = some bytes;
}

abbrev image_property : PropertyInfo
image_property = record {
  is_struct = false;
  name_offset = 30;
  in_type = ansi_string;
  out_type = other_out;
  size = some 6;
  bytes = some (b'a' ∷ b'.' ∷ b'e' ∷ b'x' ∷ b'e' ∷ 0 ∷ []);
}

abbrev start_info : TraceInfo
start_info = record {
  buffer_size = 100;
  text_at = names_at;
  provider_name_offset = 0;
  task_name_offset = 0;
  opcode_name_offset = 0;
  properties =
      pid_property 10 (52 ∷ 18 ∷ 0 ∷ 0 ∷ [])
      ∷ pid_property 20 (44 ∷ 1 ∷ 0 ∷ 0 ∷ [])
      ∷ image_property
      ∷ [];
}

abbrev start_record : EventRecord
start_record = record {
  time_stamp = 116444736000010000;
  process_id = 300;
  thread_id = 7;
  event_id = 0;
  event_opcode = 1;
  provider_id = process_guid;
  needed_size = some 100;
  info = some start_info;
}

test_spawned :
    notifications utf8_same start_record ≡ child_process_spawned 4660 300 (literal "a.exe") [] ∷ []
unfolding notifications recorded_event is_network_event is_guid make_guid text_eq is_process_exit
    is_process_start subject_pid spawn_notification start_pids parsed_pids pid_text find_either
    first_matching_property_value find_property_value build_event describe name_event event_text
    untold or_text read_event_properties read_event_property read_property is_property_size
    keep_property read_trace_info_string wide_to_utf8 format_etw_property_value format_sized
    format_by_in_type unsigned_value is_hex_out read_unsigned_value little_endian to_decimal
    print_digits digit without_zeros drop_trailing skip_while stoul read_integer is_space
    read_signed_magnitude in_range read_magnitude read_zero begins_digit read_digits digit_value
    literal
test_spawned = refl

test_read_hex : stoul (literal " -0x1F") ≡ some (2 ^ 32 - 31)
unfolding stoul read_integer is_space read_signed_magnitude in_range read_magnitude read_zero
    begins_digit read_digits digit_value literal
test_read_hex = refl

abbrev event_of : ℕ → EtwKernelEvent
event_of pid = record (build_event utf8_same start_record) { process_id = pid }

-- The monitor runs and has an event of the processes 300 and 301.
abbrev early_steps : List Step
early_steps = begins true ∷ starts started ∷ appends (event_of 300) ∷ appends (event_of 301) ∷ []

abbrev early : Monitor
early = run new_monitor early_steps

monitor-IsSound_example :
    IsSound 10000
      (etw_record_callback utf8_same
        (λ n. run n (adds (300 ∷ 0 ∷ []) ∷ []))
        (λ n. run n [])
        start_record
        early).0
unfolding import_size
monitor-IsSound_example =
    monitor-IsSound utf8_same 10000 early_steps (adds (300 ∷ 0 ∷ []) ∷ []) [] start_record
      (omega arith) (omega arith, (omega arith, (omega arith, (omega arith, tt)))) (omega arith, tt)
      tt

append_event_lem_example :
    (n : ℕ) × (n ≤ 1000)
    × ((append_event (event_of 302) early).events ≡ drop n early.events ++ event_of 302 ∷ [])
    × ((length (append_event (event_of 302) early).events ≤ 10000)
        ⊎ (length (append_event (event_of 302) early).events < length early.events))
append_event_lem_example = append_event_lem (event_of 302) early

add_target_processes_lem_example :
    (has_pid 301 (add_target_processes (300 ∷ 0 ∷ []) early).target_pids
      ≡ (has_pid 301 early.target_pids || (not (301 == 0) && has_pid 301 (300 ∷ 0 ∷ []))))
    × ((add_target_processes (300 ∷ 0 ∷ []) early).events ≡ (
        if any (is_new_target early.target_pids) (300 ∷ 0 ∷ [])
        then keep_if
            (is_of_target (add_target_processes (300 ∷ 0 ∷ []) early).target_pids)
            early.events
        else early.events))
add_target_processes_lem_example = add_target_processes_lem 301 (300 ∷ 0 ∷ []) early

abbrev begun : Monitor
begun = started_monitor new_monitor (start_etw_kernel_telemetry started new_monitor)

-- Start, Stop, Start.
test_restart :
    has_terminated (start_etw_kernel_telemetry started (stop_etw_kernel_telemetry begun)) ≡ false
unfolding started_monitor start_etw_kernel_telemetry start_session stop_etw_kernel_telemetry
    has_terminated
test_restart = refl

restart-terminates_example :
    has_terminated
      (start_etw_kernel_telemetry started (stop_times 1 (run_thread (some (open_failed 5)) begun)))
    ≡ is_open_failure (some (open_failed 5))
unfolding started_monitor start_etw_kernel_telemetry start_session
restart-terminates_example = restart-terminates new_monitor begun (some (open_failed 5)) 0 refl refl

abbrev finished : Monitor
finished = end_thread (processed 0) begun

abbrev refused : Monitor
refused = started_monitor finished (start_etw_kernel_telemetry access_denied finished)

refused_start-terminates_example :
    (stop_times 2 refused ≡ refused)
    × (has_terminated (start_etw_kernel_telemetry started (stop_times 2 refused)) ≡ true)
unfolding started_monitor start_etw_kernel_telemetry start_session is_refusal
refused_start-terminates_example =
    refused_start-terminates new_monitor begun 0 2 access_denied refl refl refl

build_event-category_example :
    All
      (λ known.
        (build_event utf8_same (record start_record { provider_id = known.0 })).category ≡ known.1)
      kernel_categories
build_event-category_example = build_event-category utf8_same start_record

format_property-read_example :
    read_integer
      (2 ^ 32)
      (format_etw_property_value utf8_same uint32 other_out (52 ∷ 18 ∷ 0 ∷ 0 ∷ []))
    ≡ some (read_unsigned_value (52 ∷ 18 ∷ 0 ∷ 0 ∷ []))
unfolding is_unsigned is_number read_unsigned_value little_endian
format_property-read_example =
    format_property-read utf8_same (2 ^ 32) uint32 other_out 52 (18 ∷ 0 ∷ 0 ∷ []) refl refl
      (omega arith)

epoch_ms-halves_example :
    file_time_to_epoch_ms
      ((116444736000000000 + 10000 * 1700000000000 + 9) % 2 ^ 32)
      ((116444736000000000 + 10000 * 1700000000000 + 9) / 2 ^ 32)
    ≡ 1700000000000
epoch_ms-halves_example = epoch_ms-halves 1700000000000 9 (omega arith)

read_signed-bytes_of_example :
    read_signed_value (bytes_of (byte_count four) (pattern_of (modulus_of four) (negsuc 41)))
    ≡ negsuc 41
unfolding Fits modulus_of
read_signed-bytes_of_example = read_signed-bytes_of four (negsuc 41) (omega arith)
