-- ===== src/RuntimeStrings/Search.antt =====
-- The first row with a key: where it is, and what a change of it does.
use inspec_thor.Prelude.{
  ℕ, zero, suc, ◌≡◌, ◌⊎◌, refl, sym, ap, subst, Bool, true, false, List, [], ◌∷◌, ◌++◌, Option,
  none, some, Text, text_eq, text_eq→eq, length, any, update_first, if◌then◌else◌, arith,
  Bool-cases, inl, inr,
}
use inspec_thor.RuntimeStrings.Rows.{RecoveredStringRow}
use inspec_thor.RuntimeStrings.Merge.{row_key, update_at, observe_again}

abbrev pub has_key : Text → RecoveredStringRow → Bool
has_key key row = text_eq (row_key row) key

unfoldable pub position_after : Bool → Option ℕ → Option ℕ
position_after true later = some 0
position_after false none = none
position_after false (some i) = some (suc i)

-- The position of the first row with the key.
unfoldable pub find_row : Text → List RecoveredStringRow → Option ℕ
unfolding position_after
find_row key [] = none
find_row key (r ∷ rows) = position_after (has_key key r) (find_row key rows)

pub position_after-none :
    (b : Bool) (o : Option ℕ) → position_after b o ≡ none → (b ≡ false) × (o ≡ none)
unfolding position_after
position_after-none true o h = cc
position_after-none false none h = (refl, refl)
position_after-none false (some i) h = cc

pub position_after-some :
    (b : Bool) (o : Option ℕ) (i : ℕ)
    → position_after b o ≡ some i
    → ((b ≡ true) × (i ≡ 0)) ⊎ ((j : ℕ) × (b ≡ false) × (o ≡ some j) × (i ≡ suc j))
unfolding position_after
position_after-some true o i h = inl (ground arith)
position_after-some false none i h = cc
position_after-some false (some j) i h = inr (j, refl, refl, ground arith)

position_after_last : (b : Bool) → position_after b none ≡ (if b then some 0 else none)
unfolding position_after
position_after_last true = refl
position_after_last false = refl

-- Where a row is found, it is the one that a search by the key changes.
unfoldable pub FindsSame :
    Text → (RecoveredStringRow → RecoveredStringRow) → List RecoveredStringRow → ℕ → Type 0
FindsSame key f rows i =
    (any (has_key key) rows ≡ true) × (update_at i f rows ≡ update_first (has_key key) f rows)

FindsSame-step :
    (key : Text) (f : RecoveredStringRow → RecoveredStringRow) (r : RecoveredStringRow)
    (rows : List RecoveredStringRow) (later : Option ℕ) (i : ℕ)
    → position_after (has_key key r) later ≡ some i
    → ((j : ℕ) → later ≡ some j → FindsSame key f rows j)
    → FindsSame key f (r ∷ rows) i
unfolding FindsSame update_at
FindsSame-step key f r rows later i h ih = elim (position_after-some (has_key key r) later i h) [
  | inl (same, first) ↦ subst (λ n. FindsSame key f (r ∷ rows) n) (sym first) (rw same (refl, refl))
  | inr (j, other, found, next) ↦
      let there = ih j found in
      subst (λ n. FindsSame key f (r ∷ rows) n) (sym next)
        (rw other (there.0, ap (λ (rs : List RecoveredStringRow). r ∷ rs) there.1))
]

pub find_row-some :
    (key : Text) (f : RecoveredStringRow → RecoveredStringRow) (rows : List RecoveredStringRow)
    (i : ℕ)
    → find_row key rows ≡ some i
    → FindsSame key f rows i
unfolding find_row
find_row-some key f [] i h = cc
find_row-some key f (r ∷ rows) i h =
    FindsSame-step key f r rows (find_row key rows) i h (find_row-some key f rows)

pub find_row-none :
    (key : Text) (rows : List RecoveredStringRow)
    → find_row key rows ≡ none
    → any (has_key key) rows ≡ false
unfolding find_row
find_row-none key [] h = refl
find_row-none key (r ∷ rows) h =
    let both = position_after-none (has_key key r) (find_row key rows) h in
    rw both.0 (find_row-none key rows both.1)

-- A change that keeps the keys keeps the positions.
pub find_row-update_at :
    (key : Text) (row : RecoveredStringRow) (i : ℕ) (rows : List RecoveredStringRow)
    → find_row key (update_at i (observe_again row) rows) ≡ find_row key rows
unfolding find_row update_at observe_again row_key
find_row-update_at key row zero [] = refl
find_row-update_at key row (suc i) [] = refl
find_row-update_at key row zero (r ∷ rows) = refl
find_row-update_at key row (suc i) (r ∷ rows) =
    ap (position_after (has_key key r)) (find_row-update_at key row i rows)

pub find_row-append :
    (key : Text) (rows : List RecoveredStringRow) (row : RecoveredStringRow)
    → find_row (row_key row) rows ≡ none
    → find_row key (rows ++ row ∷ [])
      ≡ (if text_eq (row_key row) key then some (length rows) else find_row key rows)
unfolding find_row
find_row-append key [] row h = position_after_last (has_key key row)
find_row-append key (r ∷ rows) row h =
    let both = position_after-none (has_key (row_key row) r) (find_row (row_key row) rows) h in
    rw (find_row-append key rows row both.1) (elim (Bool-cases (text_eq (row_key row) key)) [
      | inl same ↦
          let other : has_key key r ≡ false =
            subst (λ k. has_key k r ≡ false) (text_eq→eq (row_key row) key same) both.0 in
          rw (same, other, position_after) refl
      | inr different ↦ rw different refl
    ])
