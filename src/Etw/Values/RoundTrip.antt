-- ===== src/Etw/Values/RoundTrip.antt =====
-- What is read from the bytes and halves of a value is the value.
use inspec_thor.Prelude.{
  ℕ, zero, suc, ◌+◌, ◌-◌, ◌*◌, ◌/◌, ◌%◌, ◌^◌, ◌≤◌, ◌<◌, ◌≡◌, refl, ap, ◌∙◌, true, false, List, [],
  ◌∷◌, length, ltb, arith,
}
use inspec_thor.Etw.Values.{
  file_time_to_epoch_ms, little_endian, read_unsigned_value, ℤ, pos, negsuc, as_signed,
  read_signed_value,
}

-- A FILETIME's two halves that stand for a time since 1970 give its milliseconds.
pub epoch_ms-halves :
    (ms rest : ℕ)
    → rest < 10000
    → file_time_to_epoch_ms
        ((116444736000000000 + 10000 * ms + rest) % 2 ^ 32)
        ((116444736000000000 + 10000 * ms + rest) / 2 ^ 32)
      ≡ ms
unfolding file_time_to_epoch_ms
epoch_ms-halves ms rest h = ground arith

-- The bytes of a number, the lowest first.
unfoldable pub bytes_of : ℕ → ℕ → List ℕ
bytes_of zero n = []
bytes_of (suc width) n = n % 256 ∷ bytes_of width (n / 256)

-- The two's complement pattern of a number.
unfoldable pub pattern_of : ℕ → ℤ → ℕ
pattern_of modulus (pos n) = n
pattern_of modulus (negsuc n) = modulus - n - 1

-- The number fits into half of the patterns.
unfoldable pub Fits : ℕ → ℤ → Type 0
Fits modulus (pos n) = n < modulus / 2
Fits modulus (negsuc n) = n < modulus / 2

length-bytes_of : (width n : ℕ) → length (bytes_of width n) ≡ width
unfolding bytes_of
length-bytes_of zero n = refl
length-bytes_of (suc width) n = ap suc (length-bytes_of width (n / 256))

read-bytes_of_1 : (n : ℕ) → n < 2 ^ 8 → read_unsigned_value (bytes_of 1 n) ≡ n
unfolding read_unsigned_value little_endian bytes_of
read-bytes_of_1 n h = omega arith

read-bytes_of_2 : (n : ℕ) → n < 2 ^ 16 → read_unsigned_value (bytes_of 2 n) ≡ n
unfolding read_unsigned_value little_endian bytes_of
read-bytes_of_2 n h = omega arith

read-bytes_of_4 : (n : ℕ) → n < 2 ^ 32 → read_unsigned_value (bytes_of 4 n) ≡ n
unfolding read_unsigned_value little_endian bytes_of
read-bytes_of_4 n h = omega arith

read-bytes_of_8 : (n : ℕ) → n < 2 ^ 64 → read_unsigned_value (bytes_of 8 n) ≡ n
unfolding read_unsigned_value little_endian bytes_of
read-bytes_of_8 n h = omega arith

lt→ltb : (a b : ℕ) → a < b → ltb a b ≡ true
lt→ltb a b h = ground arith

ge→ltb : (a b : ℕ) → b ≤ a → ltb a b ≡ false
ge→ltb a b h = ground arith

as_signed-pattern :
    (modulus : ℕ) (z : ℤ) → Fits modulus z → as_signed modulus (pattern_of modulus z) ≡ z
unfolding as_signed pattern_of Fits
as_signed-pattern modulus (pos n) fits = rw (lt→ltb n (modulus / 2) fits) refl
as_signed-pattern modulus (negsuc n) fits =
    rw (ge→ltb (modulus - n - 1) (modulus / 2) (omega arith)) (ap negsuc (omega arith))

pattern-lt : (modulus : ℕ) (z : ℤ) → Fits modulus z → pattern_of modulus z < modulus
unfolding pattern_of Fits
pattern-lt modulus (pos n) fits = omega arith
pattern-lt modulus (negsuc n) fits = omega arith

-- The sizes of the signed types.
pub data Width : Type 0 where
  one two four eight : Width

unfoldable pub byte_count : Width → ℕ
byte_count one = 1
byte_count two = 2
byte_count four = 4
byte_count eight = 8

unfoldable pub modulus_of : Width → ℕ
modulus_of one = 2 ^ 8
modulus_of two = 2 ^ 16
modulus_of four = 2 ^ 32
modulus_of eight = 2 ^ 64

-- A signed number of one, two, four or eight bytes is read back from its two's complement bytes.
pub read_signed-bytes_of :
    (w : Width) (z : ℤ)
    → Fits (modulus_of w) z
    → read_signed_value (bytes_of (byte_count w) (pattern_of (modulus_of w) z)) ≡ z
unfolding read_signed_value byte_count modulus_of
read_signed-bytes_of one z fits = rw (length-bytes_of 1 (pattern_of (2 ^ 8) z)) (
    ap (as_signed (2 ^ 8)) (read-bytes_of_1 _ (pattern-lt (2 ^ 8) z fits))
    ∙ as_signed-pattern (2 ^ 8) z fits)
read_signed-bytes_of two z fits = rw (length-bytes_of 2 (pattern_of (2 ^ 16) z)) (
    ap (as_signed (2 ^ 16)) (read-bytes_of_2 _ (pattern-lt (2 ^ 16) z fits))
    ∙ as_signed-pattern (2 ^ 16) z fits)
read_signed-bytes_of four z fits = rw (length-bytes_of 4 (pattern_of (2 ^ 32) z)) (
    ap (as_signed (2 ^ 32)) (read-bytes_of_4 _ (pattern-lt (2 ^ 32) z fits))
    ∙ as_signed-pattern (2 ^ 32) z fits)
read_signed-bytes_of eight z fits = rw (length-bytes_of 8 (pattern_of (2 ^ 64) z)) (
    ap (as_signed (2 ^ 64)) (read-bytes_of_8 _ (pattern-lt (2 ^ 64) z fits))
    ∙ as_signed-pattern (2 ^ 64) z fits)
