-- ===== src/Telemetry/Tests.antt =====
-- An event as JSON, and the theorem about texts at a concrete one.
use inspec_thor.Prelude.{◌≡◌, refl, false, [], ◌∷◌, ◌++◌, some, literal}
use inspec_thor.Format.{to_decimal, print_digits, digit}
use inspec_thor.Telemetry.{
  ParameterCapture, parameter_to_json, text_field, number_field, separated, escape_json,
  escape_char,
}
use inspec_thor.Telemetry.Strings.{read_string, kept, read_string-escape_json}

abbrev captured : ParameterCapture
captured = record {
  name = literal "p";
  type = literal "LPCSTR";
  value = 16;
  memory = 1 ∷ 200 ∷ [];
  decoded = literal "a\\\"b";
}

test_parameter :
    parameter_to_json captured
    ≡ literal
        "{\n  \"name\": \"p\",\n  \"type\": \"LPCSTR\",\n  \"value\": 16,\n  \"decoded\": \"a\\\\\\\"b\",\n  \"memory\": [1,200]\n}"
unfolding parameter_to_json text_field number_field separated escape_json escape_char to_decimal
    print_digits digit literal
test_parameter = refl

read_string-escape_json_example :
    read_string [] false (escape_json (b'a' ∷ 10 ∷ 7 ∷ b'"' ∷ []) ++ b'"' ∷ b',' ∷ [])
    ≡ some ([] ++ kept (b'a' ∷ 10 ∷ 7 ∷ b'"' ∷ []), b',' ∷ [])
read_string-escape_json_example = read_string-escape_json [] (b'a' ∷ 10 ∷ 7 ∷ b'"' ∷ []) (b',' ∷ [])
