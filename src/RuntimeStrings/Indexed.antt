-- ===== src/RuntimeStrings/Indexed.antt =====
-- The index is exact, so merging by the index is merging by a search for the key.
use inspec_thor.Prelude.{
  ℕ, zero, suc, ◌≤◌, ◌≡◌, refl, sym, ap, ◌∙◌, List, [], ◌∷◌, ◌++◌, Option, none, some, Text, length,
  any, update_first, ltb, ◌==◌, if◌then◌else◌, arith, Bool-cases, ltb→lt, if-elim, inl, inr,
  length-append,
}
use inspec_thor.RuntimeStrings.Rows.{RecoveredStringRow}
use inspec_thor.RuntimeStrings.Merge.{
  RecoveredStrings, no_recovered_strings, maximum_recovered_strings, row_key, find_key, update_at,
  observe_again, merge_at, merge_row, merge_rows, merge_recovered_strings,
}
use inspec_thor.RuntimeStrings.Search.{
  has_key, find_row, FindsSame, find_row-some, find_row-none, find_row-update_at, find_row-append,
}

-- The index gives each key its first row, and the rows keep to their limit.
pub record IsIndexed (s : RecoveredStrings) : Type 0 where
  pub exact : (key : Text) → find_key key s.index ≡ find_row key s.rows
  pub bounded : length s.rows ≤ maximum_recovered_strings

-- Without an index: the first row with the key is observed again; a new key is added behind, while
-- there is room.
unfoldable pub merge_by_search :
    RecoveredStringRow → List RecoveredStringRow → List RecoveredStringRow
merge_by_search row rows =
    if any (has_key (row_key row)) rows
    then update_first (has_key (row_key row)) (observe_again row) rows
    else if ltb (length rows) maximum_recovered_strings
    then rows ++ row ∷ []
    else rows

unfoldable pub merge_all_by_search :
    List RecoveredStringRow → List RecoveredStringRow → List RecoveredStringRow
unfolding merge_by_search
merge_all_by_search [] held = held
merge_all_by_search (row ∷ rows) held = merge_all_by_search rows (merge_by_search row held)

merge_at-search :
    (row : RecoveredStringRow) (s : RecoveredStrings) (found : Option ℕ)
    → find_row (row_key row) s.rows ≡ found
    → (merge_at found row s).rows ≡ merge_by_search row s.rows
unfolding merge_at merge_by_search FindsSame
merge_at-search row s none e =
    rw (find_row-none (row_key row) s.rows e)
      (elim (Bool-cases (ltb (length s.rows) maximum_recovered_strings)) [
        | inl room ↦ rw room refl
        | inr full ↦ rw full refl
      ])
merge_at-search row s (some i) e =
    let same = find_row-some (row_key row) (observe_again row) s.rows i e in rw same.0 same.1

length-update_at :
    (i : ℕ) (f : RecoveredStringRow → RecoveredStringRow) (rows : List RecoveredStringRow)
    → length (update_at i f rows) ≡ length rows
unfolding update_at
length-update_at zero f [] = refl
length-update_at (suc i) f [] = refl
length-update_at zero f (r ∷ rows) = refl
length-update_at (suc i) f (r ∷ rows) = ap suc (length-update_at i f rows)

merge_at-IsIndexed :
    (row : RecoveredStringRow) (s : RecoveredStrings) (found : Option ℕ)
    → IsIndexed s
    → find_row (row_key row) s.rows ≡ found
    → IsIndexed (merge_at found row s)
unfolding merge_at find_key
merge_at-IsIndexed row s (some i) fine e = record {
  exact = λ key. fine.exact key ∙ sym (find_row-update_at key row i s.rows);
  bounded = omega (arith, length-update_at i (observe_again row) s.rows, fine.bounded);
}
merge_at-IsIndexed row s none fine e =
    if-elim IsIndexed (ltb (length s.rows) maximum_recovered_strings) _ s
      (λ room. record {
        exact = λ key. rw (find_row-append key s.rows row e, fine.exact key) refl;
        bounded = omega (
          arith,
          length-append s.rows (row ∷ []),
          ltb→lt (length s.rows) maximum_recovered_strings room,
        );
      })
      (λ full. fine)

merge_row_lem :
    (row : RecoveredStringRow) (s : RecoveredStrings)
    → IsIndexed s
    → IsIndexed (merge_row row s) × ((merge_row row s).rows ≡ merge_by_search row s.rows)
unfolding merge_row
merge_row_lem row s fine =
    let e = sym (fine.exact (row_key row)) in
    let found = find_key (row_key row) s.index in
    (merge_at-IsIndexed row s found fine e, merge_at-search row s found e)

merge_rows_lem :
    (rows : List RecoveredStringRow) (s : RecoveredStrings)
    → IsIndexed s
    → IsIndexed (merge_rows rows s) × ((merge_rows rows s).rows ≡ merge_all_by_search rows s.rows)
unfolding merge_rows merge_all_by_search
merge_rows_lem [] s fine = (fine, refl)
merge_rows_lem (row ∷ rows) s fine =
    let one = merge_row_lem row s fine in
    let rest = merge_rows_lem rows (merge_row row s) one.0 in
    (rest.0, rest.1 ∙ ap (merge_all_by_search rows) one.1)

-- Merging rows by way of the index gives the rows that a search for each key gives, or nothing new
-- where the scanner's token is another by now; either way the index stays exact and the rows keep
-- to their limit.
pub merge_recovered_strings_lem :
    (rows : List RecoveredStringRow) (token scanner_token : ℕ) (s : RecoveredStrings)
    → IsIndexed s
    → IsIndexed (merge_recovered_strings rows token scanner_token s)
      × ((merge_recovered_strings rows token scanner_token s).rows
          ≡ (if scanner_token == token then merge_all_by_search rows s.rows else s.rows))
unfolding merge_recovered_strings merge_all_by_search
merge_recovered_strings_lem [] token scanner_token s fine =
    (fine, if-elim (λ r. s.rows ≡ r) (scanner_token == token) s.rows s.rows (λ a. refl) (λ a. refl))
merge_recovered_strings_lem (row ∷ rows) token scanner_token s fine =
    elim (Bool-cases (scanner_token == token)) [
      | inl same ↦ rw same (merge_rows_lem (row ∷ rows) s fine)
      | inr other ↦ rw other (fine, refl)
    ]

pub no_recovered-IsIndexed : IsIndexed no_recovered_strings
unfolding find_key find_row
no_recovered-IsIndexed = record { exact = λ key. refl; bounded = omega arith }
