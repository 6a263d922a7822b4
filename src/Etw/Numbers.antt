-- ===== src/Etw/Numbers.antt =====
-- std::stoul and std::stoull with base 0, for an unsigned type of the given number of values.
pub mod ReadBack
use inspec_thor.Prelude.{
  ℕ, ◌+◌, ◌-◌, ◌*◌, ◌%◌, ◌^◌, Bool, true, false, not, ◌&&◌, ◌||◌, [], ◌∷◌, Option, none, some, Text,
  ltb, leb, ◌==◌, if◌then◌else◌,
}

-- The value of a digit or a letter; a code unit that is neither is no digit in any base.
unfoldable pub digit_value : ℕ → ℕ
digit_value c =
    if leb b'0' c && leb c b'9'
    then c - b'0'
    else if leb b'a' c && leb c b'z'
    then (c - b'a') + 10
    else if leb b'A' c && leb c b'Z'
    then (c - b'A') + 10
    else 36

-- The longest run of digits, after the number that is read so far.
unfoldable pub read_digits : ℕ → ℕ → Text → ℕ
unfolding digit_value
read_digits base n [] = n
read_digits base n (c ∷ s) =
    let further = read_digits base (n * base + digit_value c) s in
    if ltb (digit_value c) base then further else n

unfoldable pub begins_digit : ℕ → Text → Bool
unfolding digit_value
begins_digit base [] = false
begins_digit base (c ∷ s) = ltb (digit_value c) base

-- Behind a 0: an x and a hexadecimal digit make the number hexadecimal, or else it is octal.
unfoldable pub read_zero : Text → ℕ
unfolding read_digits begins_digit
read_zero [] = 0
read_zero (c ∷ s) =
    if (c == b'x' || c == b'X') && begins_digit 16 s
    then read_digits 16 0 s
    else read_digits 8 0 (c ∷ s)

-- `none` where there is no digit to read.
unfoldable pub read_magnitude : Text → Option ℕ
unfolding read_zero
read_magnitude [] = none
read_magnitude (c ∷ s) =
    if c == b'0'
    then some (read_zero s)
    else if begins_digit 10 (c ∷ s)
    then some (read_digits 10 0 (c ∷ s))
    else none

unfoldable pub is_space : ℕ → Bool
is_space c = c == 32 || (leb 9 c && leb c 13)

-- A value that does not fit throws out_of_range; a minus sign negates in the unsigned type.
unfoldable pub in_range : ℕ → Bool → Option ℕ → Option ℕ
in_range modulus negative none = none
in_range modulus negative (some n) =
    if not (ltb n modulus)
    then none
    else if negative
    then some ((modulus - n) % modulus)
    else some n

unfoldable pub read_signed_magnitude : ℕ → Text → Option ℕ
unfolding in_range read_magnitude
read_signed_magnitude modulus [] = none
read_signed_magnitude modulus (c ∷ s) =
    if c == b'-'
    then in_range modulus true (read_magnitude s)
    else if c == b'+'
    then in_range modulus false (read_magnitude s)
    else in_range modulus false (read_magnitude (c ∷ s))

-- `none` is an exception.
unfoldable pub read_integer : ℕ → Text → Option ℕ
unfolding is_space read_signed_magnitude
read_integer modulus [] = none
read_integer modulus (c ∷ s) =
    let rest = read_integer modulus s in
    if is_space c then rest else read_signed_magnitude modulus (c ∷ s)

-- unsigned long has 32 bits on Windows.
unfoldable pub stoul : Text → Option ℕ
stoul = read_integer (2 ^ 32)

unfoldable pub stoull : Text → Option ℕ
stoull = read_integer (2 ^ 64)
