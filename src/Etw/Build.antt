-- ===== src/Etw/Build.antt =====
-- `ReadTraceInfoString`, `ReadEventProperties` and `BuildEvent`.
use inspec_thor.Prelude.{
  ℕ, ◌*◌, ◌/◌, ◌%◌, ◌^◌, Bool, not, ◌&&◌, ◌||◌, List, [], ◌∷◌, ◌++◌, Option, none, some, Text,
  literal, is_empty, ltb, ◌==◌, if◌then◌else◌,
}
use inspec_thor.Etw.Event.{EtwKernelProperty, EtwKernelEvent, PropertyInfo, TraceInfo, EventRecord}
use inspec_thor.Etw.Values.{
  wide_to_utf8, file_time_to_epoch_ms, guid_to_string, format_etw_property_value,
}
use inspec_thor.Etw.Describe.{
  friendly_kernel_provider_name, friendly_category, friendly_action, build_friendly_summary,
}
use inspec_thor.Etw.Details.{build_friendly_details}

-- What stands in the event before it is described.
pub record EventText : Type 0 where
  pub provider : Text
  pub task : Text
  pub opcode : Text
  pub properties : List EtwKernelProperty

unfoldable pub or_text : Text → Text → Text
or_text value fallback = if is_empty value then fallback else value

module _ (utf8 : Text → Text) where
  unfoldable pub read_trace_info_string : TraceInfo → ℕ → Text
  unfolding wide_to_utf8
  read_trace_info_string info offset =
      if offset == 0 || not (ltb offset info.buffer_size)
      then []
      else wide_to_utf8 utf8 (info.text_at offset)

  unfoldable pub is_property_size : ℕ → Bool
  is_property_size size = not (size == 0) && not (ltb (64 * 1024) size)

  unfoldable pub keep_property : Text → Text → List EtwKernelProperty
  keep_property name value =
      if is_empty value then [] else record { name = name; value = value } ∷ []

  -- TdhGetPropertySize, then TdhGetProperty.
  unfoldable pub read_property :
      PropertyInfo → Text → Option ℕ → Option (List ℕ) → List EtwKernelProperty
  unfolding is_property_size keep_property
  read_property prop name none bytes = []
  read_property prop name (some size) none = []
  read_property prop name (some size) (some bytes) =
      if is_property_size size
      then keep_property name (format_etw_property_value utf8 prop.in_type prop.out_type bytes)
      else []

  unfoldable pub read_event_property : TraceInfo → PropertyInfo → List EtwKernelProperty
  unfolding read_property read_trace_info_string
  read_event_property info prop =
      let name = read_trace_info_string info prop.name_offset in
      if prop.is_struct || is_empty name then [] else read_property prop name prop.size prop.bytes

  unfoldable pub read_event_properties : TraceInfo → List PropertyInfo → List EtwKernelProperty
  unfolding read_event_property
  read_event_properties info [] = []
  read_event_properties info (prop ∷ props) =
      read_event_property info prop ++ read_event_properties info props

  unfoldable pub untold : EventRecord → EventText
  untold r = record {
    provider = wide_to_utf8 utf8 (guid_to_string r.provider_id);
    task = [];
    opcode = [];
    properties = [];
  }

  -- The two calls of TdhGetEventInformation.
  unfoldable pub event_text : EventRecord → Option ℕ → Option TraceInfo → EventText
  unfolding untold read_event_properties or_text
  event_text r none info = untold r
  event_text r (some size) none = untold r
  event_text r (some size) (some info) =
      if not (size == 0) && ltb size (64 * 1024)
      then record {
        provider =
            or_text (read_trace_info_string info info.provider_name_offset) (untold r).provider;
        task = read_trace_info_string info info.task_name_offset;
        opcode = read_trace_info_string info info.opcode_name_offset;
        properties = read_event_properties info info.properties;
      }
      else untold r

  -- The event with its names filled up, and not yet described.
  unfoldable pub name_event : EventRecord → EventText → EtwKernelEvent
  unfolding or_text
  name_event r text =
      let provider = or_text (friendly_kernel_provider_name r.provider_id) text.provider in
      record {
        timestamp = file_time_to_epoch_ms (r.time_stamp % 2 ^ 32) (r.time_stamp / 2 ^ 32);
        process_id = r.process_id;
        thread_id = r.thread_id;
        provider = provider;
        task = or_text text.task (or_text provider (literal "Kernel"));
        opcode = or_text text.opcode (literal "Event");
        category = friendly_category provider;
        action = [];
        details = [];
        summary = [];
        properties = text.properties;
        event_id = r.event_id;
      }

  unfoldable pub describe : EtwKernelEvent → EtwKernelEvent
  describe ev = record ev {
    action = friendly_action ev;
    details = build_friendly_details ev;
    summary = build_friendly_summary ev;
  }

  unfoldable pub build_event : EventRecord → EtwKernelEvent
  unfolding describe name_event event_text
  build_event r = describe (name_event r (event_text r r.needed_size r.info))
