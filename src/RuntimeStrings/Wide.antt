-- ===== src/RuntimeStrings/Wide.antt =====
-- Texts of two-byte characters are found at either alignment.
use inspec_thor.Prelude.{
  ℕ, zero, suc, ◌+◌, ◌*◌, ◌%◌, ◌^◌, ◌≤◌, ◌≡◌, refl, sym, ap, subst, ◌∙◌, true, List, [], ◌∷◌, ◌++◌,
  map, Text, literal, length, take, drop, All, arith, ◌⊎◌, inl, inr,
}
use inspec_thor.RuntimeStrings.Rows.{
  MemoryInfo, RecoveredStringRow, candidate_row, append_recovered_string_candidate,
}
use inspec_thor.RuntimeStrings.Extract.{
  is_printable, is_wide, low_byte, pairs, keep_wide, extract_ascii, extract_wide,
  extract_runtime_strings,
}
use inspec_thor.RuntimeStrings.Runs.{is_closed, is_open}
use inspec_thor.RuntimeStrings.Found.{
  Holds, Holds-Extends, append-Holds, keep_wide-Extends, scan_runs-Holds, extract_wide-Extends,
  take-append,
}

unfoldable pub widen : Text → List ℕ
widen [] = []
widen (c ∷ s) = c ∷ 0 ∷ widen s

abbrev wide_unit : ℕ → ℕ × ℕ
wide_unit c = (c, 0)

pairs-append :
    (before rest : List ℕ)
    → length before % 2 ≡ 0
    → pairs (before ++ rest) ≡ pairs before ++ pairs rest
unfolding pairs
pairs-append [] rest even = refl
pairs-append (a ∷ []) rest even = absurd (omega arith)
pairs-append (a ∷ b ∷ before) rest even =
    ap (λ r. (a, b) ∷ r) (pairs-append before rest (omega arith))

length-pairs : (before : List ℕ) → length before % 2 ≡ 0 → length (pairs before) * 2 ≡ length before
unfolding pairs
length-pairs [] even = refl
length-pairs (a ∷ []) even = absurd (omega arith)
length-pairs (a ∷ b ∷ before) even = omega (arith, length-pairs before)

pairs-widen :
    (s : Text) (after : List ℕ) → pairs (widen s ++ after) ≡ map wide_unit s ++ pairs after
unfolding pairs widen
pairs-widen [] after = refl
pairs-widen (c ∷ s) after = ap (λ r. (c, 0) ∷ r) (pairs-widen s after)

length-map : (s : Text) → length (map wide_unit s) ≡ length s
length-map [] = refl
length-map (c ∷ s) = ap suc (length-map s)

low_byte-wide : (s : Text) → map low_byte (map wide_unit s) ≡ s
low_byte-wide [] = refl
low_byte-wide (c ∷ s) = ap (λ r. c ∷ r) (low_byte-wide s)

All-is_wide :
    (s : Text) → All (λ c. is_printable c ≡ true) s → All (λ u. is_wide u ≡ true) (map wide_unit s)
All-is_wide [] shown = tt
All-is_wide (c ∷ s) (first, others) = (ground arith, All-is_wide s others)

parity : (n : ℕ) → (n % 2 ≡ 0) ⊎ (n % 2 ≡ 1)
parity zero = inl (omega arith)
parity (suc n) = elim (parity n) [ inl even ↦ inr (omega arith) | inr odd ↦ inl (omega arith) ]

module _ (pid base : ℕ) (mbi : MemoryInfo) (time : Text) (s : Text) (after : List ℕ)
    (shown : All (λ c. is_printable c ≡ true) s) (long : 5 ≤ length s) (short : length s ≤ 2048)
    (opens : is_open is_wide (pairs after) ≡ true) where
  row_at : ℕ → RecoveredStringRow
  row_at offset = candidate_row pid ((base + offset) % 2 ^ 64) s (literal "UTF-16LE") mbi time

  -- At the alignment, with an even number of bytes left before the text.
  found_at :
      (alignment : ℕ) (before bytes : List ℕ) (rows : List RecoveredStringRow)
      → length before % 2 ≡ 0
      → is_closed is_wide (pairs before) ≡ true
      → drop alignment bytes ≡ before ++ (widen s ++ after)
      → Holds
          (row_at (alignment + length before))
          (extract_wide pid base mbi time alignment bytes rows)
  unfolding extract_wide keep_wide row_at
  found_at alignment before bytes rows even closes e =
      let run = map wide_unit s in
      let units : pairs (drop alignment bytes) ≡ pairs before ++ (run ++ pairs after) =
        ap pairs e
        ∙ (pairs-append before (widen s ++ after) even
            ∙ ap (λ r. pairs before ++ r) (pairs-widen s after)) in
      let address = (base + (alignment + length (pairs before) * 2)) % 2 ^ 64 in
      let value : map low_byte (take (length run) (run ++ pairs after)) ≡ s =
        ap (map low_byte) (take-append run (pairs after)) ∙ low_byte-wide s in
      let kept = λ (found : List RecoveredStringRow).
        subst
          (λ text. Holds (candidate_row pid address s (literal "UTF-16LE") mbi time) (
            append_recovered_string_candidate found pid address text (literal "UTF-16LE") mbi time))
          (sym value) (append-Holds pid base mbi time found address s (literal "UTF-16LE") long) in
      subst
        (λ n. Holds (row_at (alignment + n)) (extract_wide pid base mbi time alignment bytes rows))
        (length-pairs before even)
        (scan_runs-Holds is_wide (keep_wide pid base mbi time alignment)
          (keep_wide-Extends pid base mbi time alignment) (pairs before) run (pairs after)
          (candidate_row pid address s (literal "UTF-16LE") mbi time) rows (All-is_wide s shown)
          (omega (arith, length-map s)) (omega (arith, length-map s)) closes opens kept
          (pairs (drop alignment bytes)) units)

  odd_case :
      (before : List ℕ) (rows : List RecoveredStringRow)
      → length before % 2 ≡ 1
      → is_closed is_wide (pairs (drop (length before % 2) before)) ≡ true
      → Holds
          (row_at (length before))
          (extract_wide pid base mbi time 1 (before ++ (widen s ++ after)) rows)
  odd_case [] rows odd closes = absurd (omega arith)
  odd_case (b ∷ before) rows odd closes =
      subst
        (λ n.
          Holds (row_at n)
            (extract_wide pid base mbi time 1 (b ∷ before ++ (widen s ++ after)) rows))
        (omega arith)
        (found_at 1 before (b ∷ before ++ (widen s ++ after)) rows (omega arith)
          (subst (λ n. is_closed is_wide (pairs (drop n (b ∷ before))) ≡ true) odd closes) refl)

  -- A text of 5 to 2048 printable characters in two bytes each is recovered with its address, at an
  -- even or an odd offset, where the pair of bytes before it and the one behind it are no such
  -- character.
  pub finds_wide :
      (before : List ℕ) (rows : List RecoveredStringRow)
      → is_closed is_wide (pairs (drop (length before % 2) before)) ≡ true
      → Holds
          (candidate_row pid ((base + length before) % 2 ^ 64) s (literal "UTF-16LE") mbi time)
          (extract_runtime_strings pid base mbi time (before ++ (widen s ++ after)) rows)
  unfolding extract_runtime_strings row_at
  finds_wide before rows closes =
      let bytes = before ++ (widen s ++ after) in
      let ascii = extract_ascii pid base mbi time bytes rows in
      let aligned = extract_wide pid base mbi time 0 bytes ascii in
      elim (parity (length before)) [
        | inl even ↦
            Holds-Extends (row_at (length before)) aligned
              (extract_wide pid base mbi time 1 bytes aligned)
              (subst (λ n. Holds (row_at n) aligned) (omega arith)
                (found_at 0 before bytes ascii even
                  (subst (λ n. is_closed is_wide (pairs (drop n before)) ≡ true) even closes) refl))
              (extract_wide-Extends pid base mbi time 1 bytes aligned)
        | inr odd ↦ odd_case before aligned odd closes
      ]
