-- ===== src/ActivityStore/Tests.antt =====
-- The store's theorems at concrete updates.
use inspec_thor.Prelude.{◌≡◌, refl, true, List, [], ◌∷◌, text_eq, literal, length, arith}
use inspec_thor.ActivityStore.{
  SpecializedBehaviorRecord, new_store, add_power_shell, add_batch, mark_batch_executed, repeats,
  is_same_behavior,
}
use inspec_thor.ActivityStore.Bounds.{
  Update, adds_power_shell, adds_batch, marks_batch, restores_office, update, update_all, Limits,
  IsBounded, update_all-IsBounded,
}

abbrev download : SpecializedBehaviorRecord
download = record {
  timestamp = 5;
  pid = 40;
  behavior = literal "Download";
  evidence = literal "iwr";
  source = literal "trace";
  observations = 0;
  first_seen = 0;
  last_seen = 0;
}

abbrev updates : List Update
updates =
    adds_power_shell download true
    ∷ adds_power_shell download true
    ∷ adds_batch download
    ∷ marks_batch (literal "Download") 9
    ∷ []

test_once : length (update_all new_store updates).power_shell ≡ 1
unfolding update_all update add_power_shell repeats is_same_behavior text_eq add_batch
    mark_batch_executed literal
test_once = refl

-- An import of three rows, and then the updates.
abbrev restored : List Update
restored = restores_office (download ∷ download ∷ download ∷ []) ∷ updates

abbrev limits : Limits
limits = record { power_shell = 1000; office = 1000; batch = 5000 }

update_all-IsBounded_example : IsBounded limits (update_all new_store restored)
unfolding IsBounded
update_all-IsBounded_example =
    update_all-IsBounded limits new_store restored (omega arith) (omega arith) (omega arith)
      (omega arith, (tt, (tt, (tt, (tt, tt))))) (omega arith, omega arith, omega arith)
