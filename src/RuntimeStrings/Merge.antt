-- ===== src/RuntimeStrings/Merge.antt =====
-- `MergeRecoveredStrings` of src/controller/gui.cpp: the recovered rows, the index of their keys,
-- and rows that are merged into them.
use inspec_thor.Prelude.{
  ℕ, zero, suc, ◌+◌, ◌%◌, ◌^◌, not, List, [], ◌∷◌, ◌++◌, Option, none, some, Text, text_eq, length,
  ltb, ◌==◌, if◌then◌else◌,
}
use inspec_thor.Format.{to_decimal}
use inspec_thor.RuntimeStrings.Rows.{RecoveredStringRow}

-- g_RecoveredStrings and g_RecoveredStringIndex; both are changed under one mutex.
pub record RecoveredStrings : Type 0 where
  pub rows : List RecoveredStringRow
  pub index : List (Text × ℕ)

abbrev pub no_recovered_strings : RecoveredStrings
no_recovered_strings = record { rows = []; index = [] }

abbrev pub maximum_recovered_strings : ℕ
maximum_recovered_strings = 50000

unfoldable pub row_key : RecoveredStringRow → Text
row_key row =
    to_decimal row.pid ++ b'|' ∷ to_decimal row.address ++ b'|' ∷ row.encoding ++ b'|' ∷ row.value

unfoldable pub find_key : Text → List (Text × ℕ) → Option ℕ
find_key key [] = none
find_key key ((k, i) ∷ index) = if text_eq k key then some i else find_key key index

-- The row at an index of the vector, changed.
unfoldable pub update_at :
    ℕ
    → (RecoveredStringRow → RecoveredStringRow)
    → List RecoveredStringRow
    → List RecoveredStringRow
update_at i f [] = []
update_at zero f (r ∷ rows) = f r ∷ rows
update_at (suc i) f (r ∷ rows) = r ∷ update_at i f rows

unfoldable pub observe_again : RecoveredStringRow → RecoveredStringRow → RecoveredStringRow
observe_again row current = record current {
  last_seen = row.last_seen;
  observations = (current.observations + 1) % 2 ^ 32;
}

unfoldable pub merge_at : Option ℕ → RecoveredStringRow → RecoveredStrings → RecoveredStrings
unfolding update_at observe_again
merge_at (some i) row s = record s { rows = update_at i (observe_again row) s.rows }
merge_at none row s =
    if ltb (length s.rows) maximum_recovered_strings
    then record { rows = s.rows ++ row ∷ []; index = (row_key row, length s.rows) ∷ s.index }
    else s

unfoldable pub merge_row : RecoveredStringRow → RecoveredStrings → RecoveredStrings
unfolding merge_at find_key
merge_row row s = merge_at (find_key (row_key row) s.index) row s

unfoldable pub merge_rows : List RecoveredStringRow → RecoveredStrings → RecoveredStrings
unfolding merge_row
merge_rows [] s = s
merge_rows (row ∷ rows) s = merge_rows rows (merge_row row s)

-- `scanner_token` is the token that stands when the rows arrive.
unfoldable pub merge_recovered_strings :
    List RecoveredStringRow → ℕ → ℕ → RecoveredStrings → RecoveredStrings
unfolding merge_rows
merge_recovered_strings [] token scanner_token s = s
merge_recovered_strings (row ∷ rows) token scanner_token s =
    if not (scanner_token == token) then s else merge_rows (row ∷ rows) s
