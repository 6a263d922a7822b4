-- ===== src/RuntimeStrings/Decode.antt =====
-- The decoders for recovered strings of src/controller/gui.cpp: `DecodeHexRuntimeString` and
-- `DecodeBase64RuntimeString`. A decoder that returns false is `none`; its caller does not look at
-- what it has decoded by then.
use inspec_thor.Prelude.{
  ℕ, ◌+◌, ◌-◌, ◌*◌, ◌/◌, ◌%◌, Bool, not, ◌&&◌, ◌||◌, [], ◌∷◌, ◌++◌, Option, none, some, Text, codes,
  length, any, leb, ltb, ◌==◌, if◌then◌else◌,
}

unfoldable pub is_displayable_decoded_byte : ℕ → Bool
is_displayable_decoded_byte value =
    leb 0x20 value && leb value 0x7E || value == 13 || value == 10 || value == 9

unfoldable pub nibble : ℕ → Option ℕ
nibble c =
    if leb b'0' c && leb c b'9'
    then some (c - b'0')
    else if leb b'a' c && leb c b'f'
    then some (c - b'a' + 10)
    else if leb b'A' c && leb c b'F'
    then some (c - b'A' + 10)
    else none

unfoldable pub push_decoded : Text → Option Text → Option Text
push_decoded s none = none
push_decoded s (some decoded) = some (s ++ decoded)

-- What two digits add to the rest.
unfoldable pub hex_digits_byte : Option ℕ → Option ℕ → Option Text → Option Text
unfolding is_displayable_decoded_byte push_decoded
hex_digits_byte (some high) (some low) rest =
    if is_displayable_decoded_byte (high * 16 + low)
    then push_decoded ((high * 16 + low) ∷ []) rest
    else none
hex_digits_byte (some high) none rest = none
hex_digits_byte none low rest = none

-- After an odd last digit the code would read the terminator, which is no digit.
unfoldable pub hex_digits_bytes : Text → Option Text
unfolding nibble hex_digits_byte
hex_digits_bytes [] = some []
hex_digits_bytes (a ∷ []) = none
hex_digits_bytes (a ∷ b ∷ value) = hex_digits_byte (nibble a) (nibble b) (hex_digits_bytes value)

unfoldable pub long_enough : Option Text → Option Text
long_enough none = none
long_enough (some decoded) = if leb 5 (length decoded) then some decoded else none

unfoldable pub has_bad_size : ℕ → Text → Bool
has_bad_size unit value =
    ltb (length value) 16 || ltb 4096 (length value) || not (length value % unit == 0)

unfoldable pub decode_hex_runtime_string : Text → Option Text
unfolding hex_digits_bytes long_enough has_bad_size
decode_hex_runtime_string value =
    if has_bad_size 2 value then none else long_enough (hex_digits_bytes value)

abbrev pub alphabet : Text
alphabet = codes "ABCDEFGHIJKLMNOPQRSTUVWXYZabcdefghijklmnopqrstuvwxyz0123456789+/"

-- s.find(c), counted from `i`.
unfoldable pub position : ℕ → ℕ → Text → Option ℕ
position c i [] = none
position c i (d ∷ s) = if d == c then some i else position c (i + 1) s

unfoldable pub sextet : ℕ → Option ℕ
unfolding position
sextet c = if c == b'=' then some 0 else position c 0 alphabet

-- The bytes of four symbols; the sextets are below 64, so the disjunction of the source is a sum.
unfoldable pub packed_bytes : ℕ → Bool → Bool → Text
packed_bytes packed third fourth =
    (packed / 65536 % 256) ∷ (if third then (packed / 256 % 256) ∷ [] else [])
    ++ (if fourth then (packed % 256) ∷ [] else [])

unfoldable pub base64_group :
    Option ℕ → Option ℕ → Option ℕ → Option ℕ → Bool → Bool → Option Text → Option Text
unfolding packed_bytes push_decoded
base64_group (some a) (some b) (some c) (some d) third fourth rest =
    push_decoded (packed_bytes (a * 262144 + b * 4096 + c * 64 + d) third fourth) rest
base64_group (some a) (some b) (some c) none third fourth rest = none
base64_group (some a) (some b) none d third fourth rest = none
base64_group (some a) none c d third fourth rest = none
base64_group none b c d third fourth rest = none

-- The size is a multiple of four where this is called.
unfoldable pub base64_bytes : Text → Option Text
unfolding sextet base64_group
base64_bytes [] = some []
base64_bytes (a ∷ []) = none
base64_bytes (a ∷ b ∷ []) = none
base64_bytes (a ∷ b ∷ c ∷ []) = none
base64_bytes (a ∷ b ∷ c ∷ d ∷ value) =
    base64_group (sextet a) (sextet b) (sextet c) (sextet d) (not (c == b'=')) (not (d == b'='))
      (base64_bytes value)

unfoldable pub all_displayable : Option Text → Option Text
unfolding is_displayable_decoded_byte
all_displayable none = none
all_displayable (some decoded) =
    if any (λ c. not (is_displayable_decoded_byte c)) decoded then none else some decoded

unfoldable pub decode_base64_runtime_string : Text → Option Text
unfolding base64_bytes long_enough has_bad_size all_displayable
decode_base64_runtime_string value =
    if has_bad_size 4 value then none else all_displayable (long_enough (base64_bytes value))
