-- ===== src/RuntimeStrings/Hex.antt =====
-- Text written as hexadecimal digits, and what `DecodeHexRuntimeString` makes of it.
use inspec_thor.Prelude.{
  ℕ, ◌+◌, ◌*◌, ◌/◌, ◌%◌, ◌≤◌, ◌<◌, ◌≡◌, refl, true, false, [], ◌∷◌, some, Text, length, arith, All,
}
use inspec_thor.Format.{digit}
use inspec_thor.RuntimeStrings.Decode.{
  is_displayable_decoded_byte, nibble, hex_digits_byte, hex_digits_bytes, long_enough, has_bad_size,
  decode_hex_runtime_string,
}

abbrev pub Displayable : Text → Type 0
Displayable = All (λ c. is_displayable_decoded_byte c ≡ true)

unfoldable pub encode_hex : Text → Text
encode_hex [] = []
encode_hex (c ∷ s) = digit false (c / 16) ∷ digit false (c % 16) ∷ encode_hex s

pub nibble-digit : (d : ℕ) → d < 16 → nibble (digit false d) ≡ some d
unfolding nibble digit
nibble-digit d h = ground arith

pub length-encode_hex : (s : Text) → length (encode_hex s) ≡ length s * 2
unfolding encode_hex
length-encode_hex [] = refl
length-encode_hex (c ∷ s) = omega (arith, length-encode_hex s)

pub byte_bound : (c : ℕ) → is_displayable_decoded_byte c ≡ true → c < 127
unfolding is_displayable_decoded_byte
byte_bound c h = ground arith

hex_digits_byte-split :
    (c : ℕ) (s : Text)
    → is_displayable_decoded_byte c ≡ true
    → hex_digits_byte (some (c / 16)) (some (c % 16)) (some s) ≡ some (c ∷ s)
unfolding hex_digits_byte
hex_digits_byte-split c s h =
    let whole : c / 16 * 16 + c % 16 ≡ c = omega arith in rw (whole, h) refl

hex_digits_bytes-encode_hex : (s : Text) → Displayable s → hex_digits_bytes (encode_hex s) ≡ some s
unfolding encode_hex hex_digits_bytes
hex_digits_bytes-encode_hex [] shown = refl
hex_digits_bytes-encode_hex (c ∷ s) (first, others) =
    let bound : c < 127 = byte_bound c first in
    rw
      (
        nibble-digit (c / 16) (omega arith),
        nibble-digit (c % 16) (omega arith),
        hex_digits_bytes-encode_hex s others,
      )
      (hex_digits_byte-split c s first)

pub decode_hex-encode_hex :
    (s : Text)
    → Displayable s
    → 8 ≤ length s
    → length s ≤ 2048
    → decode_hex_runtime_string (encode_hex s) ≡ some s
unfolding decode_hex_runtime_string long_enough has_bad_size
decode_hex-encode_hex s shown short long =
    rw (length-encode_hex s, hex_digits_bytes-encode_hex s shown) (ground arith)
