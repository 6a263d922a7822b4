-- ===== src/RuntimeStrings/Extract.antt =====
-- `ExtractRuntimeStrings` of src/controller/gui.cpp. Its loops over bytes and over pairs of bytes
-- are one loop over units: a run of shown units is cut at 2048 and kept from 5 on.
use inspec_thor.Prelude.{
  ℕ, zero, suc, ◌+◌, ◌*◌, ◌%◌, ◌^◌, Bool, ◌&&◌, List, [], ◌∷◌, map, Text, literal, length, take,
  drop, leb, ◌==◌, if◌then◌else◌,
}
use inspec_thor.RuntimeStrings.Rows.{
  MemoryInfo, RecoveredStringRow, append_recovered_string_candidate,
}

abbrev pub is_printable : ℕ → Bool
is_printable byte = leb 0x20 byte && leb byte 0x7E

-- The length of the run in front.
unfoldable pub run_length : {U : Type 0} → (U → Bool) → ℕ → List U → ℕ
run_length shows zero units = 0
run_length shows (suc limit) [] = 0
run_length shows (suc limit) (u ∷ units) = if shows u then suc (run_length shows limit units) else 0

-- How far the loop moves on after a run.
unfoldable pub advance : ℕ → ℕ
advance zero = 1
advance (suc n) = suc n

-- `keep` is the call for a run of that length at the index, with the units from there on. The
-- number of units is enough fuel, since every round moves on.
unfoldable pub scan_runs :
    {U S : Type 0} → (U → Bool) → (ℕ → ℕ → List U → S → S) → ℕ → ℕ → List U → S → S
scan_runs shows keep zero i units s = s
scan_runs shows keep (suc fuel) i [] s = s
scan_runs shows keep (suc fuel) i (u ∷ units) s =
    let run = run_length shows 2048 (u ∷ units) in
    scan_runs shows keep fuel (i + advance run) (drop (advance run) (u ∷ units))
      (if leb 5 run then keep i run (u ∷ units) s else s)

unfoldable pub pairs : List ℕ → List (ℕ × ℕ)
pairs [] = []
pairs (a ∷ []) = []
pairs (a ∷ b ∷ bytes) = (a, b) ∷ pairs bytes

abbrev pub is_wide : ℕ × ℕ → Bool
is_wide (low, high) = is_printable low && high == 0

abbrev pub low_byte : ℕ × ℕ → ℕ
low_byte (low, high) = low

-- One loop over the bytes and one over the pairs at each alignment, on the rows found so far; the
-- address wraps at 64 bits.
module _ (pid base : ℕ) (mbi : MemoryInfo) (time : Text) where
  unfoldable pub keep_ascii : ℕ → ℕ → List ℕ → List RecoveredStringRow → List RecoveredStringRow
  keep_ascii i run bytes rows =
      append_recovered_string_candidate rows pid ((base + i) % 2 ^ 64) (take run bytes)
        (literal "ASCII / UTF-8") mbi time

  unfoldable pub extract_ascii : List ℕ → List RecoveredStringRow → List RecoveredStringRow
  unfolding scan_runs keep_ascii
  extract_ascii bytes = scan_runs is_printable keep_ascii (length bytes) 0 bytes

  unfoldable pub keep_wide :
      ℕ → ℕ → ℕ → List (ℕ × ℕ) → List RecoveredStringRow → List RecoveredStringRow
  keep_wide alignment i run units rows =
      append_recovered_string_candidate rows pid ((base + (alignment + i * 2)) % 2 ^ 64)
        (map low_byte (take run units)) (literal "UTF-16LE") mbi time

  unfoldable pub extract_wide : ℕ → List ℕ → List RecoveredStringRow → List RecoveredStringRow
  unfolding scan_runs keep_wide pairs
  extract_wide alignment bytes =
      let units = pairs (drop alignment bytes) in
      scan_runs is_wide (keep_wide alignment) (length units) 0 units

  unfoldable pub extract_runtime_strings :
      List ℕ → List RecoveredStringRow → List RecoveredStringRow
  unfolding extract_ascii extract_wide
  extract_runtime_strings bytes rows =
      extract_wide 1 bytes (extract_wide 0 bytes (extract_ascii bytes rows))
