-- ===== src/Telemetry.antt =====
-- src/shared/telemetry.h: the events that the agent sends, and their text as JSON.
pub mod Strings
mod Tests
use inspec_thor.Prelude.{
  ℕ, Bool, true, false, ◌&&◌, List, [], ◌∷◌, ◌++◌, map, Text, literal, ltb, ◌==◌, if◌then◌else◌,
}
use inspec_thor.Format.{to_decimal}

pub record ParameterCapture : Type 0 where
  pub name : Text
  pub type : Text
  pub value : ℕ
  pub memory : List ℕ
  pub decoded : Text

pub record TelemetryEvent : Type 0 where
  pub timestamp : ℕ
  pub process_id : ℕ
  pub thread_id : ℕ
  pub api_name : Text
  pub dll_name : Text
  pub caller_address : ℕ
  pub caller_module : Text
  pub caller_module_base : ℕ
  pub return_value : ℕ
  pub parameters : List ParameterCapture
  pub call_stack : List ℕ
  pub session_id : Text
  pub process_relationship : Text
  pub process_name : Text
  pub process_path : Text
  pub monitored_process : Bool

-- A char of 128 or more is negative, and so no control code.
unfoldable pub escape_char : ℕ → Text
escape_char c =
    if c == b'"'
    then b'\\' ∷ b'"' ∷ []
    else if c == b'\\'
    then b'\\' ∷ b'\\' ∷ []
    else if c == 10
    then b'\\' ∷ b'n' ∷ []
    else if c == 13
    then b'\\' ∷ b'r' ∷ []
    else if c == 9
    then b'\\' ∷ b't' ∷ []
    else if ltb c 32
    then []
    else c ∷ []

unfoldable pub escape_json : Text → Text
unfolding escape_char
escape_json [] = []
escape_json (c ∷ s) = escape_char c ++ escape_json s

-- The loops that put a separator between the items.
unfoldable pub separated : Text → List Text → Text
separated separator [] = []
separated separator (item ∷ []) = item
separated separator (item ∷ next ∷ items) =
    item ++ (separator ++ separated separator (next ∷ items))

-- A line `"name": value`, with what follows it.
unfoldable pub text_field : Text → Text → Text → Text
unfolding escape_json
text_field name value rest =
    (literal "  \"" ++ name)
    ++ (literal "\": \"" ++ (escape_json value ++ (literal "\",\n" ++ rest)))

unfoldable pub number_field : Text → ℕ → Text → Text
number_field name value rest =
    (literal "  \"" ++ name) ++ (literal "\": " ++ (to_decimal value ++ (literal ",\n" ++ rest)))

unfoldable pub parameter_to_json : ParameterCapture → Text
unfolding text_field number_field separated
parameter_to_json p =
    literal "{\n"
    ++ text_field (literal "name") p.name (
        text_field (literal "type") p.type (
          number_field (literal "value") p.value (
            text_field (literal "decoded") p.decoded (
              literal "  \"memory\": ["
              ++ (separated (literal ",") (map to_decimal p.memory) ++ literal "]\n}")))))

unfoldable pub lists_to_json : TelemetryEvent → Text → Text
unfolding parameter_to_json separated
lists_to_json e rest =
    literal "  \"parameters\": [\n"
    ++ (separated (literal ",\n") (map parameter_to_json e.parameters)
        ++ (literal "\n  ],\n  \"callStack\": ["
            ++ (separated (literal ",") (map to_decimal e.call_stack) ++ (literal "],\n" ++ rest))))

unfoldable pub correlation_to_json : TelemetryEvent → Text
unfolding text_field
correlation_to_json e = text_field (literal "sessionId") e.session_id (
    text_field (literal "processRelationship") e.process_relationship (
      text_field (literal "processName") e.process_name (
        text_field (literal "processPath") e.process_path (
          literal "  \"monitoredProcess\": "
          ++ ((if e.monitored_process then literal "true" else literal "false")
              ++ literal "\n}")))))

unfoldable pub event_to_json : TelemetryEvent → Text
unfolding text_field number_field lists_to_json correlation_to_json
event_to_json e =
    literal "{\n"
    ++ number_field (literal "timestamp") e.timestamp (
        number_field (literal "processId") e.process_id (
          number_field (literal "threadId") e.thread_id (
            text_field (literal "apiName") e.api_name (
              text_field (literal "dllName") e.dll_name (
                number_field (literal "callerAddress") e.caller_address (
                  text_field (literal "callerModule") e.caller_module (
                    number_field (literal "callerModuleBase") e.caller_module_base (
                      number_field (literal "returnValue") e.return_value
                        (lists_to_json e (correlation_to_json e))))))))))
