-- ===== src/TargetResolver/Quote/Reader.antt =====
-- A reader that follows the documented rules: the laws of `ArgumentReader` can be met.
use inspec_thor.Prelude.{
  ℕ, zero, suc, ◌+◌, ◌*◌, ◌/◌, ◌%◌, ◌≡◌, ◌≢◌, ap, ◌∙◌, [], ◌∷◌, ◌++◌, Option, none, some, arith,
  Text, ◌==◌, if◌then◌else◌,
}
use inspec_thor.TargetResolver.Quote.{backslash, double_quote}
use inspec_thor.TargetResolver.Quote.RoundTrip.{slashes, Separated, prepend, ArgumentReader}

-- A reader, over the number of slashes just passed.
pub read : Text → ℕ → Option (Text × Text)
read [] n = none
read (c ∷ line) n =
    let counted = read line (suc n) in
    let literal = prepend (slashes n ++ c ∷ []) (read line 0) in
    let escaped = prepend (slashes (n / 2) ++ c ∷ []) (read line 0) in
    if c == backslash
    then counted
    else if c == double_quote
    then (if n % 2 == 0 then some (slashes (n / 2), line) else escaped)
    else literal

read-slashes : (n k : ℕ) (line : Text) → read (slashes n ++ line) k ≡ read line (n + k)
unfolding read
read-slashes zero k line = ap (read line) (omega arith)
read-slashes (suc n) k line = read-slashes n (suc k) line ∙ ap (read line) (omega arith)

half_even : (n : ℕ) → (n * 2 + 0) / 2 ≡ n
half_even n = omega arith

half_odd : (n : ℕ) → (n * 2 + 1 + 0) / 2 ≡ n
half_odd n = omega arith

pub read-closing :
    (n : ℕ) (rest : Text)
    → Separated rest
    → read (slashes (n * 2) ++ double_quote ∷ rest) 0 ≡ some (slashes n, rest)
unfolding read
read-closing n rest h =
    rw (read-slashes (n * 2) 0 (double_quote ∷ rest), read) (ground (arith, half_even n))

pub read-escaped :
    (n : ℕ) (line : Text)
    → read (slashes (n * 2 + 1) ++ double_quote ∷ line) 0
      ≡ prepend (slashes n ++ double_quote ∷ []) (read line 0)
unfolding read
read-escaped n line =
    rw (read-slashes (n * 2 + 1) 0 (double_quote ∷ line), read) (ground (arith, half_odd n))

pub read-literal :
    (n c : ℕ) (line : Text)
    → c ≢ backslash
    → c ≢ double_quote
    → read (slashes n ++ c ∷ line) 0 ≡ prepend (slashes n ++ c ∷ []) (read line 0)
unfolding read
read-literal n c line h k = rw (read-slashes n 0 (c ∷ line), read) (ground arith)

pub documented : ArgumentReader
documented = record {
  inside = λ line. read line 0;
  closing = read-closing;
  escaped = read-escaped;
  literal = read-literal;
}
