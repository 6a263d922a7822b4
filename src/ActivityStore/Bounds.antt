-- ===== src/ActivityStore/Bounds.antt =====
-- What stays true of the store through any of its methods.
use inspec_thor.Prelude.{
  ℕ, ◌≤◌, ◌≡◌, refl, Bool, List, [], ◌∷◌, Text, length, update_first, All, length-append, arith,
}
use inspec_thor.ActivityStore.{
  SpecializedBehaviorRecord, Store, reset_power_shell, reset_office, reset_batch,
  restore_power_shell, restore_office, restore_batch, add_power_shell, add_office, add_batch,
  has_label, mark_row, mark_batch_executed,
}

pub data Update : Type 0 where
  resets_power_shell resets_office resets_batch : Update
  adds_power_shell : SpecializedBehaviorRecord → Bool → Update
  adds_office adds_batch : SpecializedBehaviorRecord → Update
  marks_batch : Text → ℕ → Update
  restores_power_shell restores_office restores_batch : List SpecializedBehaviorRecord → Update

unfoldable pub update : Store → Update → Store
update s resets_power_shell = reset_power_shell s
update s resets_office = reset_office s
update s resets_batch = reset_batch s
update s (adds_power_shell r deduplicate) = add_power_shell r deduplicate s
update s (adds_office r) = add_office r s
update s (adds_batch r) = add_batch r s
update s (marks_batch label timestamp) = mark_batch_executed label timestamp s
update s (restores_power_shell records) = restore_power_shell records s
update s (restores_office records) = restore_office records s
update s (restores_batch records) = restore_batch records s

unfoldable pub update_all : Store → List Update → Store
unfolding update
update_all s [] = s
update_all s (u ∷ updates) = update_all (update s u) updates

-- How many records each list may hold.
pub record Limits : Type 0 where
  pub power_shell : ℕ
  pub office : ℕ
  pub batch : ℕ

unfoldable pub IsBounded : Limits → Store → Type 0
IsBounded l s =
    (length s.power_shell ≤ l.power_shell)
    × (length s.office ≤ l.office)
    × (length s.batch ≤ l.batch)

-- The methods that restore a list do not test its length.
abbrev pub Fits : Limits → Update → Type 0
Fits l (restores_power_shell records) = length records ≤ l.power_shell
Fits l (restores_office records) = length records ≤ l.office
Fits l (restores_batch records) = length records ≤ l.batch
Fits l other = Unit

length-update_first {ℓ} :
    {A : Type ℓ} (p : A → Bool) (f : A → A) (xs : List A) → length (update_first p f xs) ≡ length xs
length-update_first p f [] = refl
length-update_first p f (x ∷ xs) = ground (arith, length-update_first p f xs)

add_power_shell-size :
    (limit : ℕ) (r : SpecializedBehaviorRecord) (deduplicate : Bool) (s : Store)
    → 1000 ≤ limit
    → length s.power_shell ≤ limit
    → length (add_power_shell r deduplicate s).power_shell ≤ limit
unfolding add_power_shell
add_power_shell-size limit r deduplicate s wide h =
    ground (arith, length-append s.power_shell (r ∷ []))

add_office-size :
    (limit : ℕ) (r : SpecializedBehaviorRecord) (s : Store)
    → 1000 ≤ limit
    → length s.office ≤ limit
    → length (add_office r s).office ≤ limit
unfolding add_office
add_office-size limit r s wide h = ground (arith, length-append s.office (r ∷ []))

add_batch-size :
    (limit : ℕ) (r : SpecializedBehaviorRecord) (s : Store)
    → 5000 ≤ limit
    → length s.batch ≤ limit
    → length (add_batch r s).batch ≤ limit
unfolding add_batch
add_batch-size limit r s wide h = ground (arith, length-append s.batch (r ∷ []))

module _ (l : Limits) (scripts : 1000 ≤ l.power_shell) (documents : 1000 ≤ l.office)
    (lines : 5000 ≤ l.batch) where
  update-IsBounded : (s : Store) (u : Update) → Fits l u → IsBounded l s → IsBounded l (update s u)
  unfolding update IsBounded reset_power_shell reset_office reset_batch add_power_shell add_office
      add_batch mark_batch_executed restore_power_shell restore_office restore_batch
  update-IsBounded s resets_power_shell fits (a, b, c) = (omega arith, b, c)
  update-IsBounded s resets_office fits (a, b, c) = (a, omega arith, c)
  update-IsBounded s resets_batch fits (a, b, c) = (a, b, omega arith)
  update-IsBounded s (adds_power_shell r deduplicate) fits (a, b, c) =
      (add_power_shell-size l.power_shell r deduplicate s scripts a, ground arith, ground arith)
  update-IsBounded s (adds_office r) fits (a, b, c) =
      (ground arith, add_office-size l.office r s documents b, ground arith)
  update-IsBounded s (adds_batch r) fits (a, b, c) =
      (ground arith, ground arith, add_batch-size l.batch r s lines c)
  update-IsBounded s (marks_batch label timestamp) fits (a, b, c) =
      (a, b, omega (arith, length-update_first (has_label label) (mark_row timestamp) s.batch))
  update-IsBounded s (restores_power_shell records) fits (a, b, c) = (fits, b, c)
  update-IsBounded s (restores_office records) fits (a, b, c) = (a, fits, c)
  update-IsBounded s (restores_batch records) fits (a, b, c) = (a, b, fits)

-- Through any calls of the store's methods, restores of lists included, no list holds more records
-- than its limit: 1000 PowerShell records, 1000 Office records and 5000 batch records, or the largest
-- number restored or held at first, where that is more.
pub update_all-IsBounded :
    (l : Limits) (s : Store) (updates : List Update)
    → 1000 ≤ l.power_shell
    → 1000 ≤ l.office
    → 5000 ≤ l.batch
    → All (Fits l) updates
    → IsBounded l s
    → IsBounded l (update_all s updates)
unfolding update_all
update_all-IsBounded l s [] scripts documents lines fits bounded = bounded
update_all-IsBounded l s (u ∷ updates) scripts documents lines (first, fits) bounded =
    update_all-IsBounded l (update s u) updates scripts documents lines fits
      (update-IsBounded l scripts documents lines s u first bounded)
