-- ===== src/ActivityStore.antt =====
-- src/controller/specialized_activity_store.cpp: what the PowerShell, Office and batch views list.
-- Each method holds the store's mutex throughout, so it is one step here.
pub mod Bounds
mod Tests
use inspec_thor.Prelude.{
  ℕ, ◌+◌, ◌%◌, ◌^◌, Bool, true, false, not, ◌&&◌, List, [], ◌∷◌, ◌++◌, Option, none, some, Text,
  text_eq, length, last?, ltb, ◌==◌, if◌then◌else◌, update_first,
}

pub record SpecializedBehaviorRecord : Type 0 where
  pub timestamp : ℕ
  pub pid : ℕ
  pub behavior : Text
  pub evidence : Text
  pub source : Text
  pub observations : ℕ
  pub first_seen : ℕ
  pub last_seen : ℕ

pub record Store : Type 0 where
  pub power_shell : List SpecializedBehaviorRecord
  pub office : List SpecializedBehaviorRecord
  pub batch : List SpecializedBehaviorRecord

abbrev pub new_store : Store
new_store = record { power_shell = []; office = []; batch = [] }

unfoldable pub reset_power_shell : Store → Store
reset_power_shell s = record s { power_shell = [] }

unfoldable pub reset_office : Store → Store
reset_office s = record s { office = [] }

unfoldable pub reset_batch : Store → Store
reset_batch s = record s { batch = [] }

unfoldable pub is_same_behavior : SpecializedBehaviorRecord → SpecializedBehaviorRecord → Bool
is_same_behavior last r =
    last.pid == r.pid && text_eq last.behavior r.behavior && text_eq last.evidence r.evidence

-- The last record is the same behaviour.
unfoldable pub repeats : SpecializedBehaviorRecord → Option SpecializedBehaviorRecord → Bool
unfolding is_same_behavior
repeats r none = false
repeats r (some last) = is_same_behavior last r

unfoldable pub add_power_shell : SpecializedBehaviorRecord → Bool → Store → Store
unfolding repeats
add_power_shell r deduplicate_last s =
    if not (ltb (length s.power_shell) 1000)
    then s
    else if deduplicate_last && repeats r (last? s.power_shell)
    then s
    else record s { power_shell = s.power_shell ++ r ∷ [] }

unfoldable pub add_office : SpecializedBehaviorRecord → Store → Store
add_office r s = if ltb (length s.office) 1000 then record s { office = s.office ++ r ∷ [] } else s

unfoldable pub add_batch : SpecializedBehaviorRecord → Store → Store
add_batch r s = if ltb (length s.batch) 5000 then record s { batch = s.batch ++ r ∷ [] } else s

unfoldable pub has_label : Text → SpecializedBehaviorRecord → Bool
has_label label row = text_eq row.behavior label

unfoldable pub mark_row : ℕ → SpecializedBehaviorRecord → SpecializedBehaviorRecord
mark_row timestamp row = record row {
  observations = (row.observations + 1) % 2 ^ 32;
  first_seen = (if row.first_seen == 0 then timestamp else row.first_seen);
  last_seen = timestamp;
}

unfoldable pub mark_batch_executed : Text → ℕ → Store → Store
unfolding has_label mark_row
mark_batch_executed label timestamp s = record s {
  batch = update_first (has_label label) (mark_row timestamp) s.batch;
}

unfoldable pub restore_power_shell : List SpecializedBehaviorRecord → Store → Store
restore_power_shell records s = record s { power_shell = records }

unfoldable pub restore_office : List SpecializedBehaviorRecord → Store → Store
restore_office records s = record s { office = records }

unfoldable pub restore_batch : List SpecializedBehaviorRecord → Store → Store
restore_batch records s = record s { batch = records }
