-- ===== src/TargetResolver/Quote/RoundTrip.antt =====
-- What Windows reads back from a quoted argument. The reader is not part of the repository: it is a
-- parameter, with the documented rules for backslashes and quotation marks as its laws.
use native.Mathlib.Numerals.{add-one}
use inspec_thor.Prelude.{
  ℕ, zero, suc, ◌+◌, ◌*◌, ◌≡◌, ◌≢◌, refl, ap, ◌∙◌, [], ◌∷◌, ◌++◌, append_assoc, append-nil, Option,
  none, some, false, arith, Text, replicate, ◌==◌, Bool-cases, ==_iff, inl, inr,
}
use inspec_thor.TargetResolver.Quote.{backslash, double_quote, quote_loop, quote}

abbrev pub slashes : ℕ → Text
slashes n = replicate n backslash

-- The rest of the line does not begin with a second quotation mark.
abbrev pub Separated : Text → Type 0
Separated rest = (t : Text) → rest ≢ double_quote ∷ t

-- What was read before an argument's later part.
abbrev pub prepend : Text → Option (Text × Text) → Option (Text × Text)
prepend t none = none
prepend t (some (arg, rest)) = some (t ++ arg, rest)

-- A reader of the inside of a quoted argument: the argument up to its closing mark, and the rest.
pub record ArgumentReader : Type 0 where
  pub inside : Text → Option (Text × Text)
  pub closing :
      (n : ℕ) (rest : Text)
      → Separated rest
      → inside (slashes (n * 2) ++ double_quote ∷ rest) ≡ some (slashes n, rest)
  pub escaped :
      (n : ℕ) (line : Text)
      → inside (slashes (n * 2 + 1) ++ double_quote ∷ line)
        ≡ prepend (slashes n ++ double_quote ∷ []) (inside line)
  pub literal :
      (n c : ℕ) (line : Text)
      → c ≢ backslash
      → c ≢ double_quote
      → inside (slashes n ++ c ∷ line) ≡ prepend (slashes n ++ c ∷ []) (inside line)

slashes_shift : (k : ℕ) (s : Text) → slashes (suc k) ++ s ≡ slashes k ++ backslash ∷ s
slashes_shift zero s = refl
slashes_shift (suc k) s = ap (λ t. backslash ∷ t) (slashes_shift k s)

-- What one round appends comes before what the rest appends.
quote_loop-append : (s : Text) (k : ℕ) (out : Text) → quote_loop s k out ≡ out ++ quote_loop s k []
unfolding quote_loop
quote_loop-append [] k out = append_assoc out _ _
quote_loop-append (c ∷ s) k out =
    let mark = double_quote ∷ [] in
    let odd = slashes (k * 2 + 1) in
    ground (
      arith,
      quote_loop-append s (k + 1) out,
      quote_loop-append s 0 ((out ++ odd) ++ mark),
      quote_loop-append s 0 (odd ++ mark),
      quote_loop-append s 0 ((out ++ slashes k) ++ c ∷ []),
      quote_loop-append s 0 (slashes k ++ c ∷ []),
      append_assoc (out ++ odd) mark (quote_loop s 0 []),
      append_assoc out odd (mark ++ quote_loop s 0 []),
      append_assoc odd mark (quote_loop s 0 []),
      append_assoc (out ++ slashes k) (c ∷ []) (quote_loop s 0 []),
      append_assoc out (slashes k) (c ∷ quote_loop s 0 []),
      append_assoc (slashes k) (c ∷ []) (quote_loop s 0 []),
    )

quote_loop_emitted :
    (s pre rest : Text) (c : ℕ)
    → quote_loop s 0 (pre ++ c ∷ []) ++ rest ≡ pre ++ c ∷ (quote_loop s 0 [] ++ rest)
quote_loop_emitted s pre rest c = rw (
  quote_loop-append s 0 (pre ++ c ∷ []),
  append_assoc pre (c ∷ []) (quote_loop s 0 []),
  append_assoc pre (c ∷ quote_loop s 0 []) rest,
)

prepend_last :
    (k d : ℕ) (s rest : Text) {o : Option (Text × Text)}
    → o ≡ some (s, rest)
    → prepend (slashes k ++ d ∷ []) o ≡ some (slashes k ++ d ∷ s, rest)
prepend_last k d s rest h =
    ap (prepend (slashes k ++ d ∷ [])) h
    ∙ ap (λ t. some (t, rest)) (append_assoc (slashes k) (d ∷ []) s)

ne_of_test : (a b : ℕ) → (a == b) ≡ false → a ≢ b
ne_of_test a b h = ground arith

module _ (reader : ArgumentReader) (rest : Text) (separated : Separated rest) where
  open reader use {inside, closing, escaped, literal}

  -- With k slashes pending, the reader sees them in front of the text that is left.
  inside-quote_loop :
      (s : Text) (k : ℕ) → inside (quote_loop s k [] ++ rest) ≡ some (slashes k ++ s, rest)
  unfolding quote_loop
  inside-quote_loop [] k =
      rw (append_assoc (slashes (k * 2)) (double_quote ∷ []) rest, append-nil)
        (closing k rest separated)
  inside-quote_loop (c ∷ s) k = elim (Bool-cases (c == backslash)) [
    | inl slash ↦
        rw (slash, (==_iff c backslash).0 slash, add-one)
          (inside-quote_loop s (suc k) ∙ ap (λ t. some (t, rest)) (slashes_shift k s))
    | inr other ↦ elim (Bool-cases (c == double_quote)) [
      | inl mark ↦
          rw
            (
              other,
              mark,
              (==_iff c double_quote).0 mark,
              quote_loop_emitted s (slashes (k * 2 + 1)) rest double_quote,
            )
            (escaped k _ ∙ prepend_last k double_quote s rest (inside-quote_loop s 0))
      | inr plain ↦
          rw (other, plain, quote_loop_emitted s (slashes k) rest c)
            (literal k c _ (ne_of_test c backslash other) (ne_of_test c double_quote plain)
              ∙ prepend_last k c s rest (inside-quote_loop s 0))
    ]
  ]

  -- Reading a quoted argument gives the argument back, whatever it holds, and leaves the rest of
  -- the line.
  pub inside-quote :
      (value : Text)
      → (body : Text) × (quote value ≡ double_quote ∷ body)
        × (inside (body ++ rest) ≡ some (value, rest))
  unfolding quote
  inside-quote value = (
    quote_loop value 0 [],
    quote_loop-append value 0 (double_quote ∷ []),
    inside-quote_loop value 0,
  )
