-- ===== src/RuntimeStrings/Scanner.antt =====
-- The scanner of src/controller/gui.cpp around its passes (`StartRuntimeStringScanner` and its
-- thread), and `RecoverRuntimeStringsFromMemoryTelemetry`, which looks at what a call wrote.
use inspec_thor.Prelude.{
  ℕ, ◌+◌, ◌%◌, ◌^◌, Bool, true, false, not, ◌&&◌, List, [], ◌∷◌, Option, none, some, Text, literal,
  text_eq, starts_with, is_member, find_if, ltb, ◌==◌, if◌then◌else◌,
}
use inspec_thor.Telemetry.{TelemetryEvent, ParameterCapture}
use inspec_thor.RuntimeStrings.Rows.{MemoryInfo, RecoveredStringRow, mem_commit, mem_private}
use inspec_thor.RuntimeStrings.Extract.{extract_runtime_strings}
use inspec_thor.RuntimeStrings.Merge.{
  RecoveredStrings, no_recovered_strings, merge_recovered_strings,
}
use inspec_thor.RuntimeStrings.Scan.{ScannedProcess, Pass, run_pass, merge_pass}

-- What the scanner keeps; the hashes are those of its thread.
pub record Scanner : Type 0 where
  pub token : ℕ
  pub recovered_strings : RecoveredStrings
  pub hashes : List (ℕ × ℕ)
  pub dumps : List (ℕ × ℕ × List ℕ)

unfoldable pub keep_pass : Option Pass → Scanner → Scanner
keep_pass none s = s
keep_pass (some p) s = record s { hashes = p.hashes; dumps = p.dumps }

unfoldable pub merge_into : Option RecoveredStrings → Scanner → Scanner
merge_into none s = s
merge_into (some recovered) s = record s { recovered_strings = recovered }

-- `token_after` is the scanner's token when the pass merges its rows.
unfoldable pub scan_runtime_string_memory : ScannedProcess → Bool → ℕ → ℕ → Scanner → Scanner
unfolding run_pass keep_pass merge_into merge_pass
scan_runtime_string_memory process emit_strings token token_after s =
    let result = run_pass process emit_strings token s.hashes s.dumps in
    merge_into (merge_pass emit_strings token token_after result s.recovered_strings)
      (keep_pass result s)

-- The new state, and whether the thread is started. A process that cannot be opened is `none`.
unfoldable pub start_runtime_string_scanner : ℕ → Option ScannedProcess → Scanner → Scanner × Bool
unfolding scan_runtime_string_memory
start_runtime_string_scanner pid opened s =
    let cleared = record s {
      token = (s.token + 1) % 2 ^ 32;
      recovered_strings = no_recovered_strings;
      hashes = [];
    } in
    if pid == 0 then (cleared, false) else elim opened [
      | none ↦ (cleared, false)
      | some process ↦
          (scan_runtime_string_memory process false cleared.token cleared.token cleared, true)
    ]

-- A round of the thread: the token and the wait for the process before the pass, the process
-- during it, and the token after it.
pub record Round : Type 0 where
  pub token_before : ℕ
  pub timed_out : Bool
  pub process : ScannedProcess
  pub token_after : ℕ

unfoldable pub run_rounds : ℕ → List Round → Scanner → Scanner
unfolding scan_runtime_string_memory
run_rounds token [] s = s
run_rounds token (round ∷ rounds) s =
    let rest =
      run_rounds token rounds
        (scan_runtime_string_memory round.process true token round.token_after s) in
    if round.token_before == token && round.timed_out then rest else s

unfoldable pub find_param : TelemetryEvent → Text → Option ParameterCapture
find_param event name = find_if (λ (p : ParameterCapture). text_eq p.name name) event.parameters

unfoldable pub value_or_zero : Option ParameterCapture → ℕ
value_or_zero none = 0
value_or_zero (some p) = p.value

unfoldable pub param_value_or_zero : TelemetryEvent → Text → ℕ
unfolding find_param value_or_zero
param_value_or_zero event name = value_or_zero (find_param event name)

unfoldable pub is_write_api : Text → Bool
is_write_api name = is_member name (
    literal "WriteProcessMemory"
    ∷ literal "NtWriteVirtualMemory"
    ∷ literal "RtlMoveMemory"
    ∷ literal "memcpy"
    ∷ [])

-- NTSTATUS is signed.
unfoldable pub write_succeeded : TelemetryEvent → Bool
write_succeeded event =
    if starts_with event.api_name (literal "Nt")
    then ltb (event.return_value % 2 ^ 32) (2 ^ 31)
    else not (event.return_value == 0)

unfoldable pub written_pid : TelemetryEvent → ℕ
unfolding param_value_or_zero
written_pid event =
    let named = param_value_or_zero event (literal "dwProcessId") % 2 ^ 32 in
    if named == 0 then event.process_id else named

unfoldable pub written_info : (ℕ → ℕ → Option MemoryInfo) → ℕ → ℕ → MemoryInfo
written_info query pid address =
    let assumed : MemoryInfo = record {
      base_address = 0;
      region_size = 0;
      state = mem_commit;
      protect = 0x04;
      type = mem_private;
    } in
    if address == 0
    then assumed
    else elim (query pid address) [ none ↦ assumed | some queried ↦ queried ]

-- The rows of what was written, if anything.
unfoldable pub written_rows :
    (ℕ → ℕ → Option MemoryInfo)
    → Text
    → TelemetryEvent
    → Option ParameterCapture
    → List RecoveredStringRow
unfolding written_pid written_info param_value_or_zero
written_rows query time event none = []
written_rows query time event (some buffer) =
    let pid = written_pid event in
    let address = param_value_or_zero event (literal "lpBaseAddress") in
    extract_runtime_strings pid address (written_info query pid address) time buffer.memory []

-- `query` opens a process and asks for an address; `token_after` is the token at the merge. An empty
-- buffer gives no rows.
unfoldable pub recover_runtime_strings_from_memory_telemetry :
    (ℕ → ℕ → Option MemoryInfo) → Text → ℕ → TelemetryEvent → Scanner → Scanner
unfolding is_write_api write_succeeded written_rows find_param
recover_runtime_strings_from_memory_telemetry query time token_after event s =
    if is_write_api event.api_name && write_succeeded event && not (s.token == 0)
    then record s {
      recovered_strings =
          merge_recovered_strings
            (written_rows query time event (find_param event (literal "lpBuffer"))) s.token
            token_after s.recovered_strings;
    }
    else s
