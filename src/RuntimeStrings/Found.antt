-- ===== src/RuntimeStrings/Found.antt =====
-- Rows are only added, and texts in memory are found.
use inspec_thor.Prelude.{
  ℕ, zero, suc, ◌+◌, ◌*◌, ◌%◌, ◌^◌, ◌≤◌, ◌≡◌, refl, sym, ap, subst, ◌∙◌, Bool, true, false, List,
  [], ◌∷◌, ◌++◌, map, Text, literal, length, take, drop, All, ltb, leb, if◌then◌else◌, arith,
  append_assoc, append-nil, Bool-cases, inl, inr, if-elim,
}
use inspec_thor.RuntimeStrings.Decode.{decode_hex_runtime_string, decode_base64_runtime_string}
use inspec_thor.RuntimeStrings.Rows.{
  MemoryInfo, RecoveredStringRow, candidate_row, decoded_rows, append_recovered_string_candidate,
}
use inspec_thor.RuntimeStrings.Extract.{
  is_printable, is_wide, low_byte, advance, pairs, run_length, scan_runs, keep_ascii, keep_wide,
  extract_ascii, extract_wide, extract_runtime_strings,
}
use inspec_thor.RuntimeStrings.Runs.{is_closed, is_open, reaches}

-- The second list is the first with rows added behind.
abbrev pub Extends : List RecoveredStringRow → List RecoveredStringRow → Type 0
Extends rows more = (added : List RecoveredStringRow) × (more ≡ rows ++ added)

-- The row stands somewhere in the list.
abbrev pub Holds : RecoveredStringRow → List RecoveredStringRow → Type 0
Holds row rows =
    (earlier : List RecoveredStringRow) × (later : List RecoveredStringRow) × (rows
      ≡ earlier ++ row ∷ later)

pub Extends-refl : (rows : List RecoveredStringRow) → Extends rows rows
Extends-refl rows = ([], sym (append-nil rows))

pub Extends-trans : (a b c : List RecoveredStringRow) → Extends a b → Extends b c → Extends a c
Extends-trans a b c (m, p) (n, q) = (m ++ n, q ∙ (ap (λ t. t ++ n) p ∙ append_assoc a m n))

pub Holds-Extends :
    (row : RecoveredStringRow) (a b : List RecoveredStringRow)
    → Holds row a
    → Extends a b
    → Holds row b
Holds-Extends row a b (earlier, later, p) (n, q) =
    (earlier, later ++ n, q ∙ (ap (λ t. t ++ n) p ∙ append_assoc earlier (row ∷ later) n))

module _ {U : Type 0} (shows : U → Bool)
    (keep : ℕ → ℕ → List U → List RecoveredStringRow → List RecoveredStringRow)
    (extends : (i n : ℕ) (us : List U) (rows : List RecoveredStringRow)
      → Extends rows (keep i n us rows)) where
  scan_runs-Extends :
      (fuel i : ℕ) (units : List U) (rows : List RecoveredStringRow)
      → Extends rows (scan_runs shows keep fuel i units rows)
  unfolding scan_runs
  scan_runs-Extends zero i units rows = Extends-refl rows
  scan_runs-Extends (suc fuel) i [] rows = Extends-refl rows
  scan_runs-Extends (suc fuel) i (u ∷ units) rows =
      let run = run_length shows 2048 (u ∷ units) in
      let next : List RecoveredStringRow =
        if leb 5 run then keep i run (u ∷ units) rows else rows in
      Extends-trans rows next
        (scan_runs shows keep fuel (i + advance run) (drop (advance run) (u ∷ units)) next)
        (if-elim (Extends rows) (leb 5 run) (keep i run (u ∷ units) rows) rows
          (λ kept. extends i run (u ∷ units) rows) (λ short. Extends-refl rows))
        (scan_runs-Extends fuel (i + advance run) (drop (advance run) (u ∷ units)) next)

  pub scan_runs-Holds :
      (before run after : List U) (row : RecoveredStringRow) (rows : List RecoveredStringRow)
      → All (λ u. shows u ≡ true) run
      → 5 ≤ length run
      → length run ≤ 2048
      → is_closed shows before ≡ true
      → is_open shows after ≡ true
      → ((s : List RecoveredStringRow)
          → Holds row (keep (length before) (length run) (run ++ after) s))
      → (units : List U) → units ≡ before ++ (run ++ after)
      → Holds row (scan_runs shows keep (length units) 0 units rows)
  scan_runs-Holds before run after row rows shown long short closes opens held units e =
      let there =
        reaches shows keep run after shown long short opens (length units) 0 before rows closes
          (omega (arith, ap length e)) in
      let state : List RecoveredStringRow =
        keep (0 + length before) (length run) (run ++ after) there.reached in
      let here : Holds row state =
        subst (λ i. Holds row (keep i (length run) (run ++ after) there.reached)) (omega arith)
          (held there.reached) in
      let result =
        scan_runs shows keep there.fuel_left (0 + length before + length run) after state in
      let done : Holds row result =
        Holds-Extends row state result here
          (scan_runs-Extends there.fuel_left (0 + length before + length run) after state) in
      subst (λ us. Holds row (scan_runs shows keep (length units) 0 us rows)) (sym e)
        (subst (Holds row) (sym there.calls) done)

pub take-append {ℓ} : {A : Type ℓ} (s t : List A) → take (length s) (s ++ t) ≡ s
take-append [] t = refl
take-append (c ∷ s) t = ap (λ r. c ∷ r) (take-append s t)

module _ (pid base : ℕ) (mbi : MemoryInfo) (time : Text) where
  rows_added : (address : ℕ) (value encoding : Text) → List RecoveredStringRow
  rows_added address value encoding =
      let row = candidate_row pid address value encoding mbi time in
      row ∷ decoded_rows (decode_base64_runtime_string value) (decode_hex_runtime_string value) row

  append-Extends :
      (rows : List RecoveredStringRow) (address : ℕ) (value encoding : Text)
      → Extends rows (append_recovered_string_candidate rows pid address value encoding mbi time)
  unfolding append_recovered_string_candidate rows_added
  append-Extends rows address value encoding = elim (Bool-cases (ltb (length value) 5)) [
    | inl short ↦ rw short (Extends-refl rows)
    | inr long ↦ rw long (
      rows_added address value encoding,
      append_assoc rows (candidate_row pid address value encoding mbi time ∷ []) (
          decoded_rows (decode_base64_runtime_string value) (decode_hex_runtime_string value)
            (candidate_row pid address value encoding mbi time)),
    )
  ]

  pub append-Holds :
      (rows : List RecoveredStringRow) (address : ℕ) (value encoding : Text)
      → 5 ≤ length value
      → Holds
          (candidate_row pid address value encoding mbi time)
          (append_recovered_string_candidate rows pid address value encoding mbi time)
  unfolding append_recovered_string_candidate rows_added
  append-Holds rows address value encoding long =
      let enough : ltb (length value) 5 ≡ false = ground arith in
      let row = candidate_row pid address value encoding mbi time in
      let decoded =
        decoded_rows (decode_base64_runtime_string value) (decode_hex_runtime_string value) row in
      rw enough (rows, decoded, append_assoc rows (row ∷ []) decoded)

  pub keep_wide-Extends :
      (alignment i n : ℕ) (us : List (ℕ × ℕ)) (rows : List RecoveredStringRow)
      → Extends rows (keep_wide pid base mbi time alignment i n us rows)
  unfolding keep_wide
  keep_wide-Extends alignment i n us rows =
      append-Extends rows ((base + (alignment + i * 2)) % 2 ^ 64) (map low_byte (take n us))
        (literal "UTF-16LE")

  keep_ascii-Extends :
      (i n : ℕ) (us : List ℕ) (rows : List RecoveredStringRow)
      → Extends rows (keep_ascii pid base mbi time i n us rows)
  unfolding keep_ascii
  keep_ascii-Extends i n us rows =
      append-Extends rows ((base + i) % 2 ^ 64) (take n us) (literal "ASCII / UTF-8")

  pub extract_wide-Extends :
      (alignment : ℕ) (bytes : List ℕ) (rows : List RecoveredStringRow)
      → Extends rows (extract_wide pid base mbi time alignment bytes rows)
  unfolding extract_wide
  extract_wide-Extends alignment bytes rows =
      scan_runs-Extends is_wide (keep_wide pid base mbi time alignment)
        (keep_wide-Extends alignment) (length (pairs (drop alignment bytes))) 0
        (pairs (drop alignment bytes)) rows

  -- A run of 5 to 2048 printable bytes between bytes that are not printable is recovered, with its
  -- address, wherever it stands in the bytes.
  pub finds_ascii :
      (before run after : List ℕ) (rows : List RecoveredStringRow)
      → All (λ c. is_printable c ≡ true) run
      → 5 ≤ length run
      → length run ≤ 2048
      → is_closed is_printable before ≡ true
      → is_open is_printable after ≡ true
      → Holds
          (candidate_row pid
            ((base + length before) % 2 ^ 64)
            run
            (literal "ASCII / UTF-8")
            mbi
            time)
          (extract_runtime_strings pid base mbi time (before ++ (run ++ after)) rows)
  unfolding extract_runtime_strings extract_ascii keep_ascii
  finds_ascii before run after rows shown long short closes opens =
      let bytes = before ++ (run ++ after) in
      let address = (base + length before) % 2 ^ 64 in
      let row = candidate_row pid address run (literal "ASCII / UTF-8") mbi time in
      let ascii = extract_ascii pid base mbi time bytes rows in
      let kept = λ (s : List RecoveredStringRow).
        subst
          (λ value. Holds row (
            append_recovered_string_candidate s pid address value (literal "ASCII / UTF-8") mbi
              time))
          (sym (take-append run after))
          (append-Holds s address run (literal "ASCII / UTF-8") long) in
      let held : Holds row ascii =
        scan_runs-Holds is_printable (keep_ascii pid base mbi time) keep_ascii-Extends before run
          after row rows shown long short closes opens kept bytes refl in
      let aligned = extract_wide pid base mbi time 0 bytes ascii in
      Holds-Extends row ascii (extract_wide pid base mbi time 1 bytes aligned) held (
        Extends-trans ascii aligned (extract_wide pid base mbi time 1 bytes aligned)
          (extract_wide-Extends 0 bytes ascii) (extract_wide-Extends 1 bytes aligned))
