-- ===== src/Etw/Numbers/ReadBack.antt =====
-- A printed number is read back by std::stoul and std::stoull with base 0.
use inspec_thor.Prelude.{
  ℕ, zero, suc, ◌+◌, ◌*◌, ◌/◌, ◌%◌, ◌≤◌, ◌<◌, ◌≡◌, refl, ap, sym, ◌∙◌, ◌⊎◌, Bool, true, false, ◌&&◌,
  ◌||◌, [], ◌∷◌, some, Text, ltb, leb, ◌==◌, Bool-cases, inl, inr, arith,
}
use inspec_thor.Format.{digit, print_digits, to_decimal, to_upper_hex}
use inspec_thor.Etw.Numbers.{
  digit_value, read_digits, begins_digit, read_zero, read_magnitude, is_space, in_range,
  read_signed_magnitude, read_integer,
}

digit_value-digit : (upper : Bool) (d : ℕ) → d < 16 → digit_value (digit upper d) ≡ d
unfolding digit_value digit
digit_value-digit true d h = ground arith
digit_value-digit false d h = ground arith

read_digits-digit :
    (upper : Bool) (base n d : ℕ) (out : Text)
    → base ≤ 16
    → d < base
    → read_digits base n (digit upper d ∷ out) ≡ read_digits base (n * base + d) out
unfolding read_digits
read_digits-digit upper base n d out small h =
    rw (digit_value-digit upper d (omega arith)) (ground arith)

-- The bases that numbers are printed in.
module _ (upper : Bool) (base : ℕ) (small : base ≤ 16)
    (step_eq : (n : ℕ) → (n / base * base + n % base ≡ n) × (n % base < base))
    (shrinks : (n : ℕ) → ltb n base ≡ false → (n / base < n) × (0 < n / base)) where
  read-print :
      (fuel n : ℕ) (out : Text)
      → n < fuel
      → read_digits base 0 (print_digits upper base fuel n out) ≡ read_digits base n out
  unfolding print_digits
  read-print zero n out h = absurd (omega arith)
  read-print (suc fuel) n out h = elim (Bool-cases (ltb n base)) [
    | inl short ↦ rw short (
        read_digits-digit upper base 0 n out small (ground arith)
        ∙ ap (λ m. read_digits base m out) (omega arith))
    | inr long ↦ rw long (
        read-print fuel (n / base) (digit upper (n % base) ∷ out)
          (omega (arith, (shrinks n long).0))
        ∙ read_digits-digit upper base (n / base) (n % base) out small (step_eq n).1
        ∙ ap (λ m. read_digits base m out) (step_eq n).0)
  ]

  -- Printed digits begin with a digit, which is 0 for the number 0 alone.
  print-first :
      (fuel n : ℕ) (out : Text)
      → n < fuel
      → (s : Text) × (d : ℕ) × (d < base)
        × ((0 < d) ⊎ (n ≡ 0))
        × (print_digits upper base fuel n out ≡ digit upper d ∷ s)
  unfolding print_digits
  print-first zero n out h = absurd (omega arith)
  print-first (suc fuel) n out h = elim (Bool-cases (ltb n base)) [
    | inl short ↦ (out, n, ground arith, ground arith, rw short refl)
    | inr long ↦
        let (s, d, small, positive, same) =
          print-first fuel (n / base) (digit upper (n % base) ∷ out)
            (omega (arith, (shrinks n long).0)) in
        (s, d, small, inl (ground (arith, (shrinks n long).1)), rw long same)
  ]

step_10 : (n : ℕ) → (n / 10 * 10 + n % 10 ≡ n) × (n % 10 < 10)
step_10 n = (omega arith, omega arith)

shrinks_10 : (n : ℕ) → ltb n 10 ≡ false → (n / 10 < n) × (0 < n / 10)
shrinks_10 n long = (ground arith, ground arith)

step_16 : (n : ℕ) → (n / 16 * 16 + n % 16 ≡ n) × (n % 16 < 16)
step_16 n = (omega arith, omega arith)

shrinks_16 : (n : ℕ) → ltb n 16 ≡ false → (n / 16 < n) × (0 < n / 16)
shrinks_16 n long = (ground arith, ground arith)

read-decimal : (n : ℕ) → read_digits 10 0 (to_decimal n) ≡ n
unfolding to_decimal read_digits
read-decimal n = read-print false 10 (omega arith) step_10 shrinks_10 (suc n) n [] (omega arith)

read-upper_hex : (n : ℕ) → read_digits 16 0 (to_upper_hex n) ≡ n
unfolding to_upper_hex read_digits
read-upper_hex n = read-print true 16 (omega arith) step_16 shrinks_16 (suc n) n [] (omega arith)

space_no : (c : ℕ) → 47 < c → (c == 32 || (leb 9 c && leb c 13)) ≡ false
space_no c high = ground arith

same_no : (c d : ℕ) → d < c → (c == d) ≡ false
same_no c d h = ground arith

-- A code unit that is no space and no sign starts a number.
read_integer-plain :
    (modulus c : ℕ) (s : Text)
    → 47 < c
    → read_integer modulus (c ∷ s) ≡ in_range modulus false (read_magnitude (c ∷ s))
unfolding read_integer is_space read_signed_magnitude
read_integer-plain modulus c s high =
    rw (space_no c high, same_no c b'-' (omega arith), same_no c b'+' (omega arith)) refl

decimal_digit : (c : ℕ) → 48 < c → c ≤ 57 → ltb (digit_value c) 10 ≡ true
unfolding digit_value
decimal_digit c low high = ground arith

read_magnitude-digit :
    (c : ℕ) (s : Text) → 48 < c → c ≤ 57 → read_magnitude (c ∷ s) ≡ some (read_digits 10 0 (c ∷ s))
unfolding read_magnitude begins_digit
read_magnitude-digit c s low high = rw (same_no c b'0' low, decimal_digit c low high) refl

in_range-fits : (modulus n : ℕ) → n < modulus → in_range modulus false (some n) ≡ some n
unfolding in_range
in_range-fits modulus n fits = ground arith

digit-eq : (d : ℕ) → d < 10 → digit false d ≡ 48 + d
unfolding digit
digit-eq d small = ground arith

read_integer-zero : (modulus : ℕ) → 0 < modulus → read_integer modulus (to_decimal 0) ≡ some 0
unfolding to_decimal print_digits digit read_magnitude read_zero
read_integer-zero modulus wide =
    read_integer-plain modulus 48 [] (omega arith) ∙ in_range-fits modulus 0 wide

lt→ltb : (a b : ℕ) → a < b → ltb a b ≡ true
lt→ltb a b h = ground arith

to_decimal_eq : (n : ℕ) → to_decimal n ≡ print_digits false 10 (suc n) n []
unfolding to_decimal
to_decimal_eq n = refl

read_integer-text :
    (modulus d : ℕ) (s text : Text) (n : ℕ)
    → d < 10
    → 0 < d
    → text ≡ digit false d ∷ s
    → read_digits 10 0 text ≡ n
    → n < modulus
    → read_integer modulus text ≡ some n
read_integer-text modulus d s text n small high same read fits =
    let c = digit false d in
    rw same (
      read_integer-plain modulus c s (omega (arith, digit-eq d small))
      ∙ ap (in_range modulus false) (
          read_magnitude-digit c s (omega (arith, digit-eq d small))
            (omega (arith, digit-eq d small))
          ∙ ap some (ap (read_digits 10 0) (sym same) ∙ read))
      ∙ in_range-fits modulus n fits)

-- A printed decimal number that fits is read back.
pub read_integer-to_decimal :
    (modulus n : ℕ) → n < modulus → read_integer modulus (to_decimal n) ≡ some n
read_integer-to_decimal modulus n fits =
    let (s, d, small, positive, same) =
      print-first false 10 (omega arith) step_10 shrinks_10 (suc n) n [] (omega arith) in
    elim positive [
      | inl high ↦
          read_integer-text modulus d s (to_decimal n) n small high (to_decimal_eq n ∙ same)
            (read-decimal n) fits
      | inr nought ↦ rw nought (read_integer-zero modulus (omega arith))
    ]

read_zero-x : (s : Text) → begins_digit 16 s ≡ true → read_zero (b'x' ∷ s) ≡ read_digits 16 0 s
unfolding read_zero
read_zero-x s begins = rw begins refl

begins_digit-upper_hex : (n : ℕ) → begins_digit 16 (to_upper_hex n) ≡ true
unfolding to_upper_hex begins_digit
begins_digit-upper_hex n =
    let (s, d, small, positive, same) =
      print-first true 16 (omega arith) step_16 shrinks_16 (suc n) n [] (omega arith) in
    rw (same, digit_value-digit true d small) (lt→ltb d 16 small)

read_magnitude-zero : (s : Text) → read_magnitude (b'0' ∷ s) ≡ some (read_zero s)
unfolding read_magnitude
read_magnitude-zero s = refl

-- A printed hexadecimal number that fits is read back, with 0x before it.
pub read_integer-upper_hex :
    (modulus n : ℕ) → n < modulus → read_integer modulus (b'0' ∷ b'x' ∷ to_upper_hex n) ≡ some n
read_integer-upper_hex modulus n fits =
    read_integer-plain modulus b'0' (b'x' ∷ to_upper_hex n) (omega arith)
    ∙ ap (in_range modulus false) (
        read_magnitude-zero (b'x' ∷ to_upper_hex n)
        ∙ ap some (read_zero-x (to_upper_hex n) (begins_digit-upper_hex n) ∙ read-upper_hex n))
    ∙ in_range-fits modulus n fits
