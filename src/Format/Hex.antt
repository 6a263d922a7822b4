-- ===== src/Format/Hex.antt =====
-- Hexadecimal text determines the number, also in front of a dash.
use inspec_thor.Prelude.{
  ℕ, zero, suc, ◌+◌, ◌-◌, ◌*◌, ◌/◌, ◌%◌, ◌<◌, ◌≡◌, refl, ap, ◌∙◌, false, [], ◌∷◌, ◌++◌, Text, ltb,
  leb, ◌==◌, if◌then◌else◌, arith, Bool-cases, inl, inr,
}
use inspec_thor.Format.{digit, print_digits, to_hex}

digit_value : ℕ → ℕ
digit_value c = if leb c b'9' then c - b'0' else c + 10 - b'a'

pub read_hex : ℕ → Text → ℕ
read_hex n [] = n
read_hex n (c ∷ s) = read_hex (n * 16 + digit_value c) s

-- Two numbers with a dash between them.
pub read_pair : ℕ → Text → ℕ × ℕ
read_pair n [] = (n, 0)
read_pair n (c ∷ s) =
    let here : ℕ × ℕ = (n, read_hex 0 s) in
    let further = read_pair (n * 16 + digit_value c) s in if c == b'-' then here else further

digit_value-digit : (d : ℕ) → d < 16 → digit_value (digit false d) ≡ d
unfolding digit_value digit
digit_value-digit d h = ground arith

digit-ne-dash : (d : ℕ) → d < 16 → (digit false d == b'-') ≡ false
unfolding digit
digit-ne-dash d h = ground arith

step_eq : (n : ℕ) → n / 16 * 16 + n % 16 ≡ n
step_eq n = omega arith

read_hex-digit :
    (n d : ℕ) (out : Text) → d < 16 → read_hex n (digit false d ∷ out) ≡ read_hex (n * 16 + d) out
unfolding read_hex
read_hex-digit n d out h = ap (λ v. read_hex (n * 16 + v) out) (digit_value-digit d h)

read_pair-digit :
    (n d : ℕ) (out : Text) → d < 16 → read_pair n (digit false d ∷ out) ≡ read_pair (n * 16 + d) out
unfolding read_pair
read_pair-digit n d out h = ground (arith, digit-ne-dash d h, digit_value-digit d h)

-- Both readers take digits in alike.
module _ {ℓ} {A : Type ℓ} (read : ℕ → Text → A)
    (read-digit : (n d : ℕ) (out : Text)
      → d < 16
      → read n (digit false d ∷ out) ≡ read (n * 16 + d) out) where
  read-print :
      (fuel n : ℕ) (out : Text) → n < fuel → read 0 (print_digits false 16 fuel n out) ≡ read n out
  unfolding print_digits
  read-print zero n out h = absurd (omega arith)
  read-print (suc fuel) n out h = elim (Bool-cases (ltb n 16)) [
    | inl short ↦ rw short (read-digit 0 n out (ground arith) ∙ ap (λ m. read m out) (omega arith))
    | inr long ↦ rw long (
        read-print fuel (n / 16) (digit false (n % 16) ∷ out) (ground arith)
        ∙ read-digit (n / 16) (n % 16) out (omega arith)
        ∙ ap (λ m. read m out) (step_eq n))
  ]

print-append :
    (fuel n : ℕ) (out rest : Text)
    → print_digits false 16 fuel n out ++ rest ≡ print_digits false 16 fuel n (out ++ rest)
unfolding print_digits
print-append zero n out rest = refl
print-append (suc fuel) n out rest =
    ground (arith, print-append fuel (n / 16) (digit false (n % 16) ∷ out) rest)

read_pair-dash : (n : ℕ) (s : Text) → read_pair n (b'-' ∷ s) ≡ (n, read_hex 0 s)
unfolding read_pair
read_pair-dash n s = refl

-- Two numbers that are printed in hexadecimal with a dash between them are read back.
pub read_pair-to_hex : (m n : ℕ) → read_pair 0 (to_hex m ++ b'-' ∷ to_hex n) ≡ (m, n)
unfolding to_hex read_hex
read_pair-to_hex m n = rw (print-append (suc m) m [] (b'-' ∷ print_digits false 16 (suc n) n [])) (
    read-print read_pair read_pair-digit (suc m) m _ (omega arith)
    ∙ read_pair-dash m _
    ∙ ap {A = ℕ} {B = ℕ × ℕ} (λ k. (m, k))
        (read-print read_hex read_hex-digit (suc n) n [] (omega arith)))
