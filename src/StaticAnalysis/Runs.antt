-- ===== src/StaticAnalysis/Runs.antt =====
-- The strings of a file are its maximal plain runs of four characters or more, the first thousand.
use inspec_thor.Prelude.{
  ℕ, zero, suc, ◌+◌, ◌<◌, ◌≡◌, refl, sym, ap, ◌∙◌, Bool, true, false, List, [], ◌∷◌, ◌++◌, Text,
  length, take, keep_if, leb, if◌then◌else◌, arith, append_assoc, append-nil, length-append,
  Bool-cases, inl, inr,
}
use inspec_thor.StaticAnalysis.Strings.{
  is_plain, max_strings, push_string, collect_strings, words, extract_strings,
}

-- The text between the units that are not plain, from left to right; empty ones included.
abbrev grow : ℕ → List Text → List Text
grow c [] = []
grow c (run ∷ runs) = (c ∷ run) ∷ runs

unfoldable pub plain_runs : List ℕ → List Text
plain_runs [] = [] ∷ []
plain_runs (c ∷ units) = if is_plain c then grow c (plain_runs units) else [] ∷ plain_runs units

abbrev pub is_long : Text → Bool
is_long run = leb 4 (length run)

unfoldable pub strings_of : List ℕ → List Text
unfolding plain_runs
strings_of units = take max_strings (keep_if is_long (plain_runs units))

-- What was collected stands before the first run.
abbrev attach : Text → List Text → List Text
attach current [] = []
attach current (run ∷ runs) = (current ++ run) ∷ runs

abbrev push_all : List Text → List Text → List Text
push_all [] found = found
push_all (run ∷ runs) found = push_all runs (push_string run found)

attach-grow :
    (current : Text) (c : ℕ) (runs : List Text)
    → attach current (grow c runs) ≡ attach (current ++ c ∷ []) runs
attach-grow current c [] = refl
attach-grow current c (run ∷ runs) = ap (λ r. r ∷ runs) (sym (append_assoc current (c ∷ []) run))

attach-nil : (runs : List Text) → attach [] runs ≡ runs
attach-nil [] = refl
attach-nil (run ∷ runs) = refl

collect_strings-push_all :
    (units : List ℕ) (current : Text) (found : List Text)
    → collect_strings units current found ≡ push_all (attach current (plain_runs units)) found
unfolding collect_strings plain_runs
collect_strings-push_all [] current found = ap (λ r. push_string r found) (sym (append-nil current))
collect_strings-push_all (c ∷ units) current found = elim (Bool-cases (is_plain c)) [
  | inl plain ↦
      rw (plain, attach-grow current c (plain_runs units))
        (collect_strings-push_all units (current ++ c ∷ []) found)
  | inr other ↦
      rw (other, append-nil current)
        (collect_strings-push_all units [] (push_string current found)
          ∙ ap (λ runs. push_all runs (push_string current found)) (attach-nil (plain_runs units)))
]

push_string_full :
    (run : Text) (found : List Text) → length found ≡ max_strings → push_string run found ≡ found
unfolding push_string
push_string_full run found full = ground arith

push_string_short :
    (run : Text) (found : List Text) → is_long run ≡ false → push_string run found ≡ found
unfolding push_string
push_string_short run found short = ground arith

push_string_long :
    (run : Text) (found : List Text)
    → is_long run ≡ true
    → length found < max_strings
    → push_string run found ≡ found ++ run ∷ []
unfolding push_string
push_string_long run found long room = ground arith

-- `room` strings can still be kept.
push_all-take :
    (runs found : List Text) (room : ℕ)
    → length found + room ≡ max_strings
    → push_all runs found ≡ found ++ take room (keep_if is_long runs)
push_all-take [] found zero left = sym (append-nil found)
push_all-take [] found (suc room) left = sym (append-nil found)
push_all-take (run ∷ runs) found zero left =
    rw (push_string_full run found (omega arith)) (push_all-take runs found zero left)
push_all-take (run ∷ runs) found (suc room) left = elim (Bool-cases (is_long run)) [
  | inl long ↦
      rw (long, push_string_long run found long (omega arith))
        (push_all-take runs (found ++ run ∷ []) room (omega (arith, length-append found (run ∷ [])))
          ∙ append_assoc found (run ∷ []) (take room (keep_if is_long runs)))
  | inr short ↦
      rw (short, push_string_short run found short) (push_all-take runs found (suc room) left)
]

collect_strings-strings_of : (units : List ℕ) → collect_strings units [] [] ≡ strings_of units
unfolding strings_of
collect_strings-strings_of units =
    collect_strings-push_all units [] []
    ∙ (ap (λ runs. push_all runs []) (attach-nil (plain_runs units))
        ∙ push_all-take (plain_runs units) [] max_strings (omega arith))

-- The strings found in a file are, of its bytes and of its 16-bit units, the maximal plain runs of
-- four units or more, in order, the first thousand of each.
pub extract_strings-strings_of :
    (bytes : List ℕ) → extract_strings bytes [] [] ≡ (strings_of bytes, strings_of (words bytes))
unfolding extract_strings
extract_strings-strings_of bytes =
    rw (collect_strings-strings_of bytes, collect_strings-strings_of (words bytes)) refl
