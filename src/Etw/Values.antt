-- ===== src/Etw/Values.antt =====
-- The readers of event properties: `ReadUnsignedValue` to `FormatEtwPropertyValue`.
pub mod RoundTrip
use inspec_thor.Prelude.{
  ℕ, zero, suc, ◌+◌, ◌-◌, ◌*◌, ◌/◌, ◌%◌, ◌^◌, Bool, true, false, not, ◌&&◌, ◌||◌, List, [], ◌∷◌,
  ◌++◌, Text, literal, is_empty, length, take, drop, ltb, leb, ◌==◌, if◌then◌else◌,
}
use inspec_thor.StdPath.{drop_trailing}
use inspec_thor.Format.{digit, to_decimal, to_hex, to_upper_hex}
use inspec_thor.Etw.Event.{
  Guid, InType, unicode_string, ansi_string, boolean, int8, int16, int32, int64, uint8, uint16,
  uint32, uint64, pointer, hex_int32, hex_int64, guid, other_in, OutType, ipv4, ipv6, port,
  out_hex_int32, out_hex_int64, other_out,
}

-- FILETIME to milliseconds since 1970, from its two halves.
unfoldable pub file_time_to_epoch_ms : ℕ → ℕ → ℕ
file_time_to_epoch_ms low high =
    let quad = high * 2 ^ 32 + low in
    if ltb quad 116444736000000000 then 0 else (quad - 116444736000000000) / 10000

-- The number that bytes stand for, the lowest first.
unfoldable pub little_endian : List ℕ → ℕ
little_endian [] = 0
little_endian (b ∷ bs) = b + 256 * little_endian bs

-- memcpy of at most eight bytes into a zeroed uint64_t.
unfoldable pub read_unsigned_value : List ℕ → ℕ
unfolding little_endian
read_unsigned_value bytes = little_endian (take 8 bytes)

-- `negsuc n` is -(n + 1).
pub data ℤ : Type 0 where
  pos : ℕ → ℤ
  negsuc : ℕ → ℤ

-- A bit pattern of the given number of values, as a two's complement number.
unfoldable pub as_signed : ℕ → ℕ → ℤ
as_signed modulus word = if ltb word (modulus / 2) then pos word else negsuc (modulus - word - 1)

unfoldable pub read_signed_value : List ℕ → ℤ
unfolding as_signed read_unsigned_value
read_signed_value bytes =
    if length bytes == 1
    then as_signed (2 ^ 8) (read_unsigned_value bytes)
    else if length bytes == 2
    then as_signed (2 ^ 16) (read_unsigned_value bytes)
    else if length bytes == 4
    then as_signed (2 ^ 32) (read_unsigned_value bytes)
    else as_signed (2 ^ 64) (read_unsigned_value bytes)

unfoldable pub signed_to_decimal : ℤ → Text
signed_to_decimal (pos n) = to_decimal n
signed_to_decimal (negsuc n) = b'-' ∷ to_decimal (n + 1)

-- Two hexadecimal digits in upper case.
unfoldable pub hex_byte : ℕ → Text
hex_byte b = digit true (b / 16) ∷ digit true (b % 16) ∷ []

unfoldable pub hex_bytes : List ℕ → Text
unfolding hex_byte
hex_bytes [] = []
hex_bytes (b ∷ bs) = hex_byte b ++ hex_bytes bs

unfoldable pub bytes_to_hex : List ℕ → Text
unfolding hex_bytes
bytes_to_hex bytes =
    (literal "0x" ++ hex_bytes (take 16 bytes))
    ++ (if ltb 16 (length bytes) then literal "..." else [])

-- The 16-bit units of a wide text, and the buffer without the zeros at its end.
unfoldable pub wide_units : List ℕ → Text
wide_units [] = []
wide_units (low ∷ []) = []
wide_units (low ∷ high ∷ bytes) = (low + 256 * high) ∷ wide_units bytes

unfoldable pub without_zeros : Text → Text
without_zeros = drop_trailing (λ c. c == 0)

unfoldable pub byte_at : ℕ → List ℕ → ℕ
byte_at i [] = 0
byte_at zero (b ∷ bs) = b
byte_at (suc i) (b ∷ bs) = byte_at i bs

unfoldable pub dotted_address : List ℕ → Text
unfolding byte_at
dotted_address bytes =
    to_decimal (byte_at 0 bytes)
    ++ (b'.' ∷ to_decimal (byte_at 1 bytes)
        ++ (b'.' ∷ to_decimal (byte_at 2 bytes) ++ (b'.' ∷ to_decimal (byte_at 3 bytes))))

-- The groups of an IPv6 address, from the given one on.
unfoldable pub address_groups : ℕ → Bool → List ℕ → Text
address_groups zero first bytes = []
address_groups (suc groups) first [] = []
address_groups (suc groups) first (high ∷ []) = []
address_groups (suc groups) first (high ∷ low ∷ bytes) =
    (if first then [] else b':' ∷ [])
    ++ (to_hex (high * 256 + low) ++ address_groups groups false bytes)

unfoldable pub port_number : List ℕ → ℕ
unfolding byte_at
port_number bytes = byte_at 0 bytes * 256 + byte_at 1 bytes

-- "%08lX-%04hX-…": digits filled up with zeros.
unfoldable pub padded_hex : ℕ → ℕ → Text → Text
padded_hex zero n out = out
padded_hex (suc width) n out = padded_hex width (n / 16) (digit true (n % 16) ∷ out)

unfoldable pub guid_to_string : Guid → Text
unfolding padded_hex hex_bytes
guid_to_string g =
    b'{' ∷ padded_hex 8 g.data1 []
    ++ (b'-' ∷ padded_hex 4 g.data2 []
        ++ (b'-' ∷ padded_hex 4 g.data3 []
            ++ (b'-' ∷ hex_bytes (take 2 g.data4)
                ++ (b'-' ∷ hex_bytes (take 6 (drop 2 g.data4)) ++ b'}' ∷ []))))

-- A GUID from its sixteen bytes in memory.
unfoldable pub guid_of_bytes : List ℕ → Guid
unfolding little_endian
guid_of_bytes bytes = record {
  data1 = little_endian (take 4 bytes);
  data2 = little_endian (take 2 (drop 4 bytes));
  data3 = little_endian (take 2 (drop 6 bytes));
  data4 = take 8 (drop 8 bytes);
}

module _ (utf8 : Text → Text) where
  -- WideToUtf8, and WideBufferToUtf8.
  unfoldable pub wide_to_utf8 : Text → Text
  wide_to_utf8 s = if is_empty s then [] else utf8 s

  unfoldable pub wide_buffer_to_utf8 : Text → Text
  wide_buffer_to_utf8 s = wide_to_utf8 (without_zeros s)

  unfoldable pub upper_hex : List ℕ → Text
  upper_hex bytes = literal "0x" ++ to_upper_hex (read_unsigned_value bytes)

  unfoldable pub is_hex_out : OutType → Bool
  is_hex_out out_hex_int32 = true
  is_hex_out out_hex_int64 = true
  is_hex_out other = false

  unfoldable pub unsigned_value : OutType → List ℕ → Text
  unsigned_value out bytes =
      if is_hex_out out then upper_hex bytes else to_decimal (read_unsigned_value bytes)

  -- The switch on the input type.
  unfoldable pub format_by_in_type : InType → OutType → List ℕ → Text
  format_by_in_type unicode_string out bytes = wide_buffer_to_utf8 (wide_units bytes)
  format_by_in_type ansi_string out bytes = without_zeros bytes
  format_by_in_type boolean out bytes =
      if read_unsigned_value bytes == 0 then literal "false" else literal "true"
  format_by_in_type int8 out bytes = signed_to_decimal (read_signed_value bytes)
  format_by_in_type int16 out bytes = signed_to_decimal (read_signed_value bytes)
  format_by_in_type int32 out bytes = signed_to_decimal (read_signed_value bytes)
  format_by_in_type int64 out bytes = signed_to_decimal (read_signed_value bytes)
  format_by_in_type uint8 out bytes = unsigned_value out bytes
  format_by_in_type uint16 out bytes = unsigned_value out bytes
  format_by_in_type uint32 out bytes = unsigned_value out bytes
  format_by_in_type uint64 out bytes = unsigned_value out bytes
  format_by_in_type pointer out bytes = upper_hex bytes
  format_by_in_type hex_int32 out bytes = upper_hex bytes
  format_by_in_type hex_int64 out bytes = upper_hex bytes
  format_by_in_type guid out bytes =
      if leb 16 (length bytes)
      then wide_to_utf8 (guid_to_string (guid_of_bytes bytes))
      else bytes_to_hex bytes
  format_by_in_type other_in out bytes = bytes_to_hex bytes

  -- The output types that come first, where the value is long enough.
  unfoldable pub format_sized : InType → OutType → List ℕ → Text
  format_sized in_type ipv4 bytes =
      if leb 4 (length bytes) then dotted_address bytes else format_by_in_type in_type ipv4 bytes
  format_sized in_type ipv6 bytes =
      if leb 16 (length bytes)
      then address_groups 8 true bytes
      else format_by_in_type in_type ipv6 bytes
  format_sized in_type port bytes =
      if leb 2 (length bytes)
      then to_decimal (port_number bytes)
      else format_by_in_type in_type port bytes
  format_sized in_type other bytes = format_by_in_type in_type other bytes

  unfoldable pub format_etw_property_value : InType → OutType → List ℕ → Text
  format_etw_property_value in_type out [] = []
  format_etw_property_value in_type out (b ∷ bs) = format_sized in_type out (b ∷ bs)
