-- ===== src/Etw/Callback.antt =====
-- `EtwRecordCallback`: which process a record is about, what it reports, and whether it is kept.
use inspec_thor.Prelude.{
  ℕ, ◌^◌, Bool, not, ◌&&◌, ◌||◌, List, [], ◌∷◌, Option, none, some, Text, literal, is_empty, ltb,
  ◌==◌, if◌then◌else◌, has_pid,
}
use inspec_thor.Etw.Event.{EtwKernelEvent, EventRecord}
use inspec_thor.Etw.Numbers.{stoul, stoull}
use inspec_thor.Etw.Describe.{
  find_property_value, first_matching_property_value, is_guid, make_guid, process_guid, tcp_ip_guid,
}
use inspec_thor.Etw.Details.{build_friendly_details}
use inspec_thor.Etw.Build.{build_event}
use inspec_thor.Etw.Monitor.{Monitor, should_retain_event, append_event}

-- The calls of OnProcessExited and OnChildProcessSpawned.
pub data Notification : Type 0 where
  process_exited : ℕ → ℕ → Notification
  child_process_spawned : ℕ → ℕ → Text → Text → Notification

unfoldable pub is_network_event : EventRecord → Bool
unfolding is_guid make_guid
is_network_event r = is_guid r.provider_id tcp_ip_guid

unfoldable pub is_process_start : EventRecord → Bool
unfolding is_guid make_guid
is_process_start r = is_guid r.provider_id process_guid && r.event_opcode == 1

unfoldable pub is_process_exit : EventRecord → Bool
unfolding is_guid make_guid
is_process_exit r = is_guid r.provider_id process_guid && r.event_opcode == 2

-- What a conversion gives, or the value that stands where it throws.
unfoldable pub or_value : ℕ → Option ℕ → ℕ
or_value fallback none = fallback
or_value fallback (some n) = n

-- The pid that a network event's properties name, if it is one.
unfoldable pub pid_within : ℕ → ℕ → ℕ
pid_within pid parsed = if ltb parsed (2 ^ 32) then parsed else pid

unfoldable pub network_pid : ℕ → EtwKernelEvent → ℕ
unfolding or_value pid_within
network_pid pid ev =
    let event_pid =
      first_matching_property_value ev.properties
        (literal "PID" ∷ literal "ProcessId" ∷ literal "ProcessID" ∷ []) in
    if is_empty event_pid then pid else pid_within pid (or_value pid (stoull event_pid))

unfoldable pub exit_pid : ℕ → EtwKernelEvent → ℕ
unfolding or_value
exit_pid pid ev =
    let exiting_pid =
      first_matching_property_value ev.properties
        (literal "ProcessId" ∷ literal "ProcessID" ∷ literal "PID" ∷ []) in
    if is_empty exiting_pid then pid else or_value pid (stoul exiting_pid)

unfoldable pub exit_code_of : EtwKernelEvent → ℕ
unfolding or_value
exit_code_of ev =
    let value =
      first_matching_property_value ev.properties
        (literal "ExitStatus" ∷ literal "ExitCode" ∷ literal "Status" ∷ []) in
    if is_empty value then 0 else or_value 0 (stoul value)

unfoldable pub find_either : EtwKernelEvent → Text → Text → Text
find_either ev name other =
    let value = find_property_value ev.properties name in
    if is_empty value then find_property_value ev.properties other else value

unfoldable pub pid_text : Text → Option ℕ
pid_text text = if is_empty text then some 0 else stoul text

-- One try block converts both pids: where the first throws, the second is not reached.
unfoldable pub parsed_pids : Option ℕ → Option ℕ → ℕ × ℕ
parsed_pids none child = (0, 0)
parsed_pids (some parent) none = (parent, 0)
parsed_pids (some parent) (some child) = (parent, child)

-- parentPid and childPid of a process start.
unfoldable pub start_pids : EtwKernelEvent → ℕ × ℕ
unfolding parsed_pids pid_text
start_pids ev =
    let parent = first_matching_property_value ev.properties (
      literal "ParentId"
      ∷ literal "ParentProcessId"
      ∷ literal "ParentProcessID"
      ∷ literal "ParentID"
      ∷ []) in
    let child =
      first_matching_property_value ev.properties
        (literal "ProcessId" ∷ literal "ProcessID" ∷ []) in
    parsed_pids (pid_text parent) (pid_text child)

module _ (utf8 : Text → Text) where
  -- The pid that the gate is asked about.
  unfoldable pub subject_pid : EventRecord → ℕ
  unfolding network_pid exit_pid
  subject_pid r =
      if is_network_event r
      then network_pid r.process_id (build_event utf8 r)
      else if is_process_exit r
      then exit_pid r.process_id (build_event utf8 r)
      else r.process_id

  -- The event that is kept.
  unfoldable pub recorded_event : EventRecord → EtwKernelEvent
  recorded_event r =
      let ev = build_event utf8 r in
      if is_network_event r
      then record ev { process_id = subject_pid r; details = build_friendly_details ev }
      else ev

  unfoldable pub passes_gate : EventRecord → Monitor → Bool
  unfolding subject_pid
  passes_gate r m = is_process_start r || should_retain_event (subject_pid r) m

  unfoldable pub spawn_notification : ℕ × ℕ → EtwKernelEvent → List Notification
  unfolding find_either
  spawn_notification (parent, child) ev =
      if not (child == 0) && not (parent == 0)
      then child_process_spawned child parent
          (find_either ev (literal "ImageFileName") (literal "ImageName"))
          (find_property_value ev.properties (literal "CommandLine"))
        ∷ []
      else []

  unfoldable pub notifications : EventRecord → List Notification
  unfolding recorded_event exit_code_of spawn_notification start_pids
  notifications r =
      let ev = recorded_event r in
      if is_process_exit r
      then process_exited (subject_pid r) (exit_code_of ev) ∷ []
      else if is_process_start r
      then spawn_notification (start_pids ev) ev
      else []

  unfoldable pub names_target : ℕ × ℕ → Monitor → Bool
  names_target (parent, child) m = has_pid parent m.target_pids || has_pid child m.target_pids

  unfoldable pub keeps_event : EventRecord → Monitor → Bool
  unfolding recorded_event names_target start_pids
  keeps_event r m =
      let ev = recorded_event r in
      should_retain_event ev.process_id m || (is_process_start r && names_target (start_pids ev) m)

  -- The mutex is taken three times. `notified` is what the notifications and other threads do to the
  -- state between the first and the second time, `other` what other threads do up to the third.
  unfoldable pub etw_record_callback :
      (Monitor → Monitor)
      → (Monitor → Monitor)
      → EventRecord
      → Monitor
      → Monitor × List Notification
  unfolding passes_gate keeps_event notifications
  etw_record_callback notified other r m =
      let later = notified m in
      let kept = append_event (recorded_event r) (other later) in
      if passes_gate r m
      then (if keeps_event r later then kept else other later, notifications r)
      else (m, [])
