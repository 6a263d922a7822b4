-- ===== src/Format.antt =====
-- Numbers as text: std::to_string, and streams with std::hex and std::uppercase.
pub mod Hex
use inspec_thor.Prelude.{
  ℕ, zero, suc, ◌+◌, ◌-◌, ◌/◌, ◌%◌, Bool, true, false, [], ◌∷◌, Text, ltb, if◌then◌else◌,
}

unfoldable pub digit : Bool → ℕ → ℕ
digit upper d = if ltb d 10 then b'0' + d else (if upper then b'A' else b'a') + (d - 10)

-- Digits in front of `out`, the last one first. The number itself is enough fuel for every base
-- from two on, since each round divides.
unfoldable pub print_digits : Bool → ℕ → ℕ → ℕ → Text → Text
print_digits upper base zero n out = out
print_digits upper base (suc fuel) n out =
    let longer = print_digits upper base fuel (n / base) (digit upper (n % base) ∷ out) in
    if ltb n base then digit upper n ∷ out else longer

-- std::to_string
unfoldable pub to_decimal : ℕ → Text
to_decimal n = print_digits false 10 (suc n) n []

unfoldable pub to_hex : ℕ → Text
to_hex n = print_digits false 16 (suc n) n []

unfoldable pub to_upper_hex : ℕ → Text
to_upper_hex n = print_digits true 16 (suc n) n []
