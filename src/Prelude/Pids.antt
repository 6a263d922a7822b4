-- ===== src/Prelude/Pids.antt =====
-- std::unordered_set<uint32_t>, as a list with no repetition; only membership and size are seen.
use Prim.Native.Nat.{ℕ}
use mathlib.Core.Path.{◌≡◌}
use mathlib.Core.Bool.{Bool, false, ◌||◌}
use mathlib.Core.List.{List, [], ◌∷◌}
use native.Mathlib.Omega.{arith}
use inspec_thor.Prelude.Tests.{◌==◌, if◌then◌else◌}

abbrev pub PidSet : Type 0
PidSet = List ℕ

unfoldable pub has_pid : ℕ → PidSet → Bool
has_pid p [] = false
has_pid p (q ∷ s) = p == q || has_pid p s

unfoldable pub insert_pid : ℕ → PidSet → PidSet
insert_pid p s = if has_pid p s then s else p ∷ s

pub has-insert : (p q : ℕ) (s : PidSet) → has_pid p (insert_pid q s) ≡ (p == q || has_pid p s)
unfolding insert_pid has_pid
has-insert p q s = ground arith
