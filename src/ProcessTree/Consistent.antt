-- ===== src/ProcessTree/Consistent.antt =====
-- The invariant of a session, and that updates of nodes in place keep it.
use inspec_thor.Prelude.{
  ℕ, Bool, true, false, ◌&&◌, ◌||◌, ◌≡◌, refl, ap, ◌∙◌, List, [], ◌∷◌, ◌++◌, any, any-append, All,
  All-append, has_pid, Pointwise, Pointwise-any, Pointwise-All, ◌==◌, arith,
}
use inspec_thor.ProcessTree.Session.{ProcessNode, AnalysisSession}
use inspec_thor.ProcessTree.Manager.{pid_is}

unfoldable pub has_exited : ℕ → ProcessNode → Bool
has_exited pid node = pid_is pid node && node.exited

-- The parent is 0, for a root, or some node of the tree.
unfoldable pub is_rooted : List ProcessNode → ProcessNode → Bool
is_rooted nodes node = node.parent_pid == 0 || any (pid_is node.parent_pid) nodes

-- The pid is in one of the sets.
unfoldable pub is_accounted : AnalysisSession → ProcessNode → Bool
is_accounted s node = has_pid node.pid s.monitored_pids || has_pid node.pid s.command_only_pids

pub record IsConsistent (s : AnalysisSession) : Type 0 where
  pub named : All (λ n. (n.pid == 0) ≡ false) s.nodes
  pub rooted : All (λ n. is_rooted s.nodes n ≡ true) s.nodes
  pub accounted : All (λ n. is_accounted s n ≡ true) s.nodes
  pub exits : (p : ℕ) → has_pid p s.exited_pids ≡ any (has_exited p) s.nodes
  pub none_skipped : s.skipped_pids ≡ []

-- One node before and after an update that moves no process.
pub record SameProcess (x y : ProcessNode) : Type 0 where
  pub pid : y.pid ≡ x.pid
  pub parent_pid : y.parent_pid ≡ x.parent_pid

pub SameProcess-refl : (x : ProcessNode) → SameProcess x x
SameProcess-refl x = record { pid = refl; parent_pid = refl }

same_pid : (p : ℕ) (x y : ProcessNode) → SameProcess x y → pid_is p y ≡ pid_is p x
unfolding pid_is
same_pid p x y h = ap (λ k. k == p) h.pid

module _ {xs ys : List ProcessNode} (h : Pointwise SameProcess xs ys) where
  same_any : (p : ℕ) → any (pid_is p) ys ≡ any (pid_is p) xs
  same_any p = Pointwise-any (pid_is p) (same_pid p) h

  pub same_named : All (λ n. (n.pid == 0) ≡ false) xs → All (λ n. (n.pid == 0) ≡ false) ys
  same_named = Pointwise-All (λ x y e a. ap (λ k. k == 0) e.pid ∙ a) h

  pub same_rooted : All (λ n. is_rooted xs n ≡ true) xs → All (λ n. is_rooted ys n ≡ true) ys
  unfolding is_rooted
  same_rooted = Pointwise-All (λ x y e a. ground (arith, same_any y.parent_pid, a, e.parent_pid)) h

module _ (s t : AnalysisSession)
    (monitored : (p : ℕ) → has_pid p s.monitored_pids ≡ true → has_pid p t.monitored_pids ≡ true)
    (command_only : (p : ℕ)
      → has_pid p s.command_only_pids ≡ true
      → has_pid p t.command_only_pids ≡ true) where
  is_accounted_mono :
      (x y : ProcessNode) → SameProcess x y → is_accounted s x ≡ true → is_accounted t y ≡ true
  unfolding is_accounted
  is_accounted_mono x y e a = ground (arith, monitored x.pid, command_only x.pid, a, e.pid)

  pub same_accounted :
      {xs ys : List ProcessNode}
      → Pointwise SameProcess xs ys
      → All (λ n. is_accounted s n ≡ true) xs
      → All (λ n. is_accounted t n ≡ true) ys
  same_accounted = Pointwise-All is_accounted_mono

-- A new node at the end, whose parent is 0 or known.
module _ (nodes : List ProcessNode) (node : ProcessNode) where
  rooted_before :
      (x : ProcessNode) → is_rooted nodes x ≡ true → is_rooted (nodes ++ node ∷ []) x ≡ true
  unfolding is_rooted
  rooted_before x h = ground (arith, any-append (pid_is x.parent_pid) nodes (node ∷ []))

  rooted-All :
      (xs : List ProcessNode)
      → All (λ n. is_rooted nodes n ≡ true) xs
      → All (λ n. is_rooted (nodes ++ node ∷ []) n ≡ true) xs
  rooted-All [] h = tt
  rooted-All (x ∷ xs) (hx, hxs) = (rooted_before x hx, rooted-All xs hxs)

  pub rooted_append :
      is_rooted nodes node ≡ true
      → All (λ n. is_rooted nodes n ≡ true) nodes
      → All (λ n. is_rooted (nodes ++ node ∷ []) n ≡ true) (nodes ++ node ∷ [])
  rooted_append new old =
      All-append (λ n. is_rooted (nodes ++ node ∷ []) n ≡ true) nodes (node ∷ [])
        (rooted-All nodes old) (rooted_before node new, tt)

  pub exits_append :
      node.exited ≡ false
      → (p : ℕ) → any (has_exited p) (nodes ++ node ∷ []) ≡ any (has_exited p) nodes
  unfolding has_exited
  exits_append live p = ground (arith, any-append (has_exited p) nodes (node ∷ []))
