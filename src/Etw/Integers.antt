-- ===== src/Etw/Integers.antt =====
-- An integer property, from its bytes to its text and back to the number that the callback uses.
use inspec_thor.Prelude.{ℕ, ◌<◌, ◌≡◌, refl, Bool, true, false, List, ◌∷◌, some, Text, literal}
use inspec_thor.Etw.Event.{
  InType, unicode_string, ansi_string, boolean, int8, int16, int32, int64, uint8, uint16, uint32,
  uint64, pointer, hex_int32, hex_int64, guid, other_in, OutType, ipv4, ipv6, port, out_hex_int32,
  out_hex_int64, other_out,
}
use inspec_thor.Etw.Values.{
  read_unsigned_value, upper_hex, unsigned_value, is_hex_out, format_by_in_type, format_sized,
  format_etw_property_value,
}
use inspec_thor.Etw.Numbers.{read_integer}
use inspec_thor.Etw.Numbers.ReadBack.{read_integer-to_decimal, read_integer-upper_hex}

-- The unsigned input types, and the output types that do not print an address or a port.
unfoldable pub is_unsigned : InType → Bool
is_unsigned uint8 = true
is_unsigned uint16 = true
is_unsigned uint32 = true
is_unsigned uint64 = true
is_unsigned pointer = true
is_unsigned hex_int32 = true
is_unsigned hex_int64 = true
is_unsigned other = false

unfoldable pub is_number : OutType → Bool
is_number ipv4 = false
is_number ipv6 = false
is_number port = false
is_number other = true

module _ (utf8 : Text → Text) (modulus : ℕ) where
  upper_hex-read :
      (bytes : List ℕ)
      → read_unsigned_value bytes < modulus
      → read_integer modulus (upper_hex utf8 bytes) ≡ some (read_unsigned_value bytes)
  unfolding upper_hex literal
  upper_hex-read bytes fits = read_integer-upper_hex modulus (read_unsigned_value bytes) fits

  unsigned_value-read :
      (out : OutType) (bytes : List ℕ)
      → read_unsigned_value bytes < modulus
      → read_integer modulus (unsigned_value utf8 out bytes) ≡ some (read_unsigned_value bytes)
  unfolding unsigned_value is_hex_out
  unsigned_value-read ipv4 bytes fits = read_integer-to_decimal modulus _ fits
  unsigned_value-read ipv6 bytes fits = read_integer-to_decimal modulus _ fits
  unsigned_value-read port bytes fits = read_integer-to_decimal modulus _ fits
  unsigned_value-read out_hex_int32 bytes fits = upper_hex-read bytes fits
  unsigned_value-read out_hex_int64 bytes fits = upper_hex-read bytes fits
  unsigned_value-read other_out bytes fits = read_integer-to_decimal modulus _ fits

  in_type-read :
      (in_type : InType) (out : OutType) (bytes : List ℕ)
      → is_unsigned in_type ≡ true
      → read_unsigned_value bytes < modulus
      → read_integer modulus (format_by_in_type utf8 in_type out bytes)
        ≡ some (read_unsigned_value bytes)
  unfolding format_by_in_type is_unsigned
  in_type-read uint8 out bytes is fits = unsigned_value-read out bytes fits
  in_type-read uint16 out bytes is fits = unsigned_value-read out bytes fits
  in_type-read uint32 out bytes is fits = unsigned_value-read out bytes fits
  in_type-read uint64 out bytes is fits = unsigned_value-read out bytes fits
  in_type-read pointer out bytes is fits = upper_hex-read bytes fits
  in_type-read hex_int32 out bytes is fits = upper_hex-read bytes fits
  in_type-read hex_int64 out bytes is fits = upper_hex-read bytes fits
  in_type-read unicode_string out bytes is fits = cc
  in_type-read ansi_string out bytes is fits = cc
  in_type-read boolean out bytes is fits = cc
  in_type-read int8 out bytes is fits = cc
  in_type-read int16 out bytes is fits = cc
  in_type-read int32 out bytes is fits = cc
  in_type-read int64 out bytes is fits = cc
  in_type-read guid out bytes is fits = cc
  in_type-read other_in out bytes is fits = cc

  format_sized-number :
      (in_type : InType) (out : OutType) (bytes : List ℕ)
      → is_number out ≡ true
      → format_sized utf8 in_type out bytes ≡ format_by_in_type utf8 in_type out bytes
  unfolding format_sized is_number
  format_sized-number in_type ipv4 bytes is = cc
  format_sized-number in_type ipv6 bytes is = cc
  format_sized-number in_type port bytes is = cc
  format_sized-number in_type out_hex_int32 bytes is = refl
  format_sized-number in_type out_hex_int64 bytes is = refl
  format_sized-number in_type other_out bytes is = refl

-- The text that an unsigned property is kept as, which is decimal or hexadecimal by its types, is
-- read back as the number of the property's bytes, where that fits into the type that is read.
pub format_property-read :
    (utf8 : Text → Text) (modulus : ℕ) (in_type : InType) (out : OutType) (b : ℕ) (bs : List ℕ)
    → is_unsigned in_type ≡ true
    → is_number out ≡ true
    → read_unsigned_value (b ∷ bs) < modulus
    → read_integer modulus (format_etw_property_value utf8 in_type out (b ∷ bs))
      ≡ some (read_unsigned_value (b ∷ bs))
unfolding format_etw_property_value
format_property-read utf8 modulus in_type out b bs unsigned number fits =
    rw (format_sized-number utf8 modulus in_type out (b ∷ bs) number)
      (in_type-read utf8 modulus in_type out (b ∷ bs) unsigned fits)
