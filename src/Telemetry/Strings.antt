-- ===== src/Telemetry/Strings.antt =====
-- A JSON reader gets from a text in a message what was put there, but for the control codes.
use inspec_thor.Prelude.{
  ℕ, ◌≡◌, refl, sym, ap, subst, ==_iff, Bool, true, false, not, ◌&&◌, [], ◌∷◌, ◌++◌, append_assoc,
  append-nil, Option, none, some, Text, ltb, ◌==◌, if◌then◌else◌, Bool-cases, inl, inr,
}
use inspec_thor.Telemetry.{escape_char, escape_json}

-- The character behind a backslash.
unfoldable pub unescape : ℕ → ℕ
unescape c = if c == b'n' then 10 else if c == b'r' then 13 else if c == b't' then 9 else c

-- A JSON string up to its closing quote, and what stands behind that; `escaped` behind a backslash.
unfoldable pub read_string : Text → Bool → Text → Option (Text × Text)
unfolding unescape
read_string out escaped [] = none
read_string out true (c ∷ s) = read_string (out ++ unescape c ∷ []) false s
read_string out false (c ∷ s) =
    let plain = read_string (out ++ c ∷ []) false s in
    let behind = read_string out true s in
    if c == b'"' then some (out, s) else if c == b'\\' then behind else plain

-- The codes that the writer leaves out.
unfoldable pub is_dropped : ℕ → Bool
is_dropped c = ltb c 32 && not (c == 10) && not (c == 13) && not (c == 9)

unfoldable pub kept_char : ℕ → Text
unfolding is_dropped
kept_char c = if is_dropped c then [] else c ∷ []

unfoldable pub kept : Text → Text
unfolding kept_char
kept [] = []
kept (c ∷ s) = kept_char c ++ kept s

-- What is written for one character is read as what is kept of it.
ReadsChar : Text → Text → ℕ → Type 0
ReadsChar out t c =
    read_string out false (escape_char c ++ t) ≡ read_string (out ++ kept_char c) false t

plain-ReadsChar :
    (out t : Text) (c : ℕ)
    → (c == 34) ≡ false
    → (c == 92) ≡ false
    → (c == 10) ≡ false
    → (c == 13) ≡ false
    → (c == 9) ≡ false
    → ReadsChar out t c
unfolding ReadsChar read_string escape_char kept_char is_dropped
plain-ReadsChar out t c quote slash line return tab =
    rw (quote, slash, line, return, tab)
      (elim (Bool-cases (ltb c 32)) [
        | inl low ↦ rw low (ap (λ o. read_string o false t) (sym (append-nil out)))
        | inr high ↦ rw high (rw (quote, slash) refl)
      ])

special-ReadsChar :
    (out t : Text) (c code : ℕ) → (c == code) ≡ true → ReadsChar out t code → ReadsChar out t c
special-ReadsChar out t c code same reads =
    subst (ReadsChar out t) (sym ((==_iff c code).0 same)) reads

read_string-escape_char : (out t : Text) (c : ℕ) → ReadsChar out t c
unfolding ReadsChar read_string escape_char kept_char is_dropped unescape
read_string-escape_char out t c = elim (Bool-cases (c == 34)) [
  | inl quote ↦ special-ReadsChar out t c 34 quote refl
  | inr not_quote ↦ elim (Bool-cases (c == 92)) [
    | inl slash ↦ special-ReadsChar out t c 92 slash refl
    | inr not_slash ↦ elim (Bool-cases (c == 10)) [
      | inl line ↦ special-ReadsChar out t c 10 line refl
      | inr not_line ↦ elim (Bool-cases (c == 13)) [
        | inl return ↦ special-ReadsChar out t c 13 return refl
        | inr not_return ↦ elim (Bool-cases (c == 9)) [
          | inl tab ↦ special-ReadsChar out t c 9 tab refl
          | inr not_tab ↦ plain-ReadsChar out t c not_quote not_slash not_line not_return not_tab
        ]
      ]
    ]
  ]
]

close_quote : (out rest : Text) → read_string out false (b'"' ∷ rest) ≡ some (out, rest)
unfolding read_string
close_quote out rest = refl

-- A text that is written into a message is read back up to its closing quote, whatever it holds and
-- whatever follows; the control codes but newline, return and tab are left out.
pub read_string-escape_json :
    (out s rest : Text)
    → read_string out false (escape_json s ++ b'"' ∷ rest) ≡ some (out ++ kept s, rest)
unfolding escape_json kept ReadsChar
read_string-escape_json out [] rest = rw (append-nil out) (close_quote out rest)
read_string-escape_json out (c ∷ s) rest =
    rw
      (
        append_assoc (escape_char c) (escape_json s) (b'"' ∷ rest),
        read_string-escape_char out (escape_json s ++ b'"' ∷ rest) c,
        read_string-escape_json (out ++ kept_char c) s rest,
        append_assoc out (kept_char c) (kept s),
      )
      refl
