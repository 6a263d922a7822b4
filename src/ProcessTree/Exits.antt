-- ===== src/ProcessTree/Exits.antt =====
-- What an exit report does to the live processes, and what observations do to the primary process.
use inspec_thor.Prelude.{
  ℕ, suc, ◌-◌, true, false, not, ◌&&◌, ◌≡◌, refl, ◌∙◌, Option, none, some, Text, List, [], ◌∷◌, any,
  update_last, ◌==◌, if◌then◌else◌, arith, Bool-cases, inl, inr,
}
use inspec_thor.ChildPolicy.Decide.{
  ChildDecision, inject_and_monitor, log_command_only, ignore_system_noise,
}
use inspec_thor.ProcessTree.Session.{ProcessNode, AnalysisSession, ChildObservationResult}
use inspec_thor.ProcessTree.Manager.{Manager, live_pid_is, exit_node, mark_exited}
use inspec_thor.ProcessTree.Observe.{
  Observation, record_child, takes_primary, add_child, observe_existing, observe_new,
  observe_decided, observe_from, ignores, observe_child,
}

-- How many live nodes have the pid.
pub live_count : ℕ → List ProcessNode → ℕ
live_count pid [] = 0
live_count pid (x ∷ xs) = if live_pid_is pid x then suc (live_count pid xs) else live_count pid xs

not_any_live :
    (pid : ℕ) (xs : List ProcessNode) → any (live_pid_is pid) xs ≡ false → live_count pid xs ≡ 0
unfolding live_count
not_any_live pid [] h = refl
not_any_live pid (x ∷ xs) h = ground (arith, not_any_live pid xs)

any_live :
    (pid : ℕ) (xs : List ProcessNode)
    → any (live_pid_is pid) xs ≡ true
    → live_count pid xs ≡ suc (live_count pid xs - 1)
unfolding live_count
any_live pid [] h = cc
any_live pid (x ∷ xs) h = ground (arith, any_live pid xs)

exit_node-dead :
    (pid time code : ℕ) (x : ProcessNode) → live_pid_is pid (exit_node time code x) ≡ false
unfolding live_pid_is exit_node
exit_node-dead pid time code x = ground arith

live_pid_unique : (p q : ℕ) (x : ProcessNode) → live_pid_is p x ≡ true → live_pid_is q x ≡ (q == p)
unfolding live_pid_is
live_pid_unique p q x h = ground arith

update_last-live_count :
    (pid time code q : ℕ) (xs : List ProcessNode)
    → any (live_pid_is pid) xs ≡ true
    → live_count q (update_last (live_pid_is pid) (exit_node time code) xs)
      ≡ (if q == pid then live_count q xs - 1 else live_count q xs)
unfolding live_count
update_last-live_count pid time code q [] h = cc
update_last-live_count pid time code q (x ∷ xs) h = ground (
  arith,
  update_last-live_count pid time code q xs,
  exit_node-dead q time code x,
  live_pid_unique pid q x,
  any_live pid xs,
  not_any_live pid xs,
)

-- An exit report ends one live process with the reported pid, if there is one, and no other.
pub mark_exited-live_count :
    (pid time code q : ℕ) (m : Manager)
    → live_count q (mark_exited pid time code m).session.nodes
      ≡ (if q == pid then live_count q m.session.nodes - 1 else live_count q m.session.nodes)
unfolding mark_exited
mark_exited-live_count pid time code q m =
    elim (Bool-cases (any (live_pid_is pid) m.session.nodes)) [
      | inl live ↦
          rw (live, mark_exited) (update_last-live_count pid time code q m.session.nodes live)
      | inr gone ↦ rw (gone, mark_exited) (ground (arith, not_any_live pid m.session.nodes gone))
    ]

record_child-primary :
    (d : ChildDecision) (pid : ℕ) (s : AnalysisSession)
    → (record_child d pid s).primary_pid ≡ s.primary_pid
unfolding record_child
record_child-primary inject_and_monitor pid s = refl
record_child-primary log_command_only pid s = refl
record_child-primary ignore_system_noise pid s = refl

-- What becomes of the primary pid: a new child takes the place where there is a launcher and no
-- primary process yet.
abbrev pub Primary : Observation → Manager → Manager × ChildObservationResult → Type 0
Primary o m r = r.0.session.primary_pid ≡ (
    if r.1.is_new && m.session.primary_pid == 0 && not (m.session.launcher_pid == 0)
    then o.child_pid
    else m.session.primary_pid)

observe_decided-Primary :
    (o : Observation) (d : ChildDecision × Text) (m : Manager) (found : Option ProcessNode)
    → Primary o m (observe_decided o d m found)
unfolding observe_decided observe_new observe_existing add_child takes_primary
observe_decided-Primary o (d, reason) m none =
    ground (arith, record_child-primary d o.child_pid m.session)
observe_decided-Primary o (d, reason) m (some child) = refl

observe_from-Primary :
    (o : Observation) (m : Manager) (found : Option ProcessNode)
    → Primary o m (observe_from o m found)
unfolding observe_from
observe_from-Primary o m none = refl
observe_from-Primary o m (some parent) = observe_decided-Primary o _ m _

observe_child-Primary : (o : Observation) (m : Manager) → Primary o m (observe_child o m)
unfolding observe_child
observe_child-Primary o m = elim (Bool-cases (ignores o m)) [
  | inl passed ↦ rw (passed, observe_child)
  | inr heard ↦ rw (heard, observe_child) (observe_from-Primary o m _)
]

unfoldable pub observe_all : List Observation → Manager → Manager
observe_all [] m = m
observe_all (o ∷ later) m = observe_all later (observe_child o m).0

-- A primary process that is chosen stays.
observe_all-primary :
    (later : List Observation) (m : Manager)
    → (m.session.primary_pid == 0) ≡ false
    → (observe_all later m).session.primary_pid ≡ m.session.primary_pid
unfolding observe_all
observe_all-primary [] m chosen = refl
observe_all-primary (o ∷ later) m chosen =
    let kept : (observe_child o m).0.session.primary_pid ≡ m.session.primary_pid =
      ground (arith, observe_child-Primary o m) in
    observe_all-primary later (observe_child o m).0 (ground arith) ∙ kept

new_child-given :
    (o : Observation) (m : Manager)
    → (observe_child o m).1.is_new ≡ true
    → (o.child_pid == 0) ≡ false
unfolding observe_child ignores
new_child-given o m = ground arith

-- The first new child of a launcher that has no primary process becomes the primary process, and
-- stays it through any later observations.
pub primary_child_stays :
    (o : Observation) (later : List Observation) (m : Manager)
    → (m.session.primary_pid == 0) ≡ true
    → (m.session.launcher_pid == 0) ≡ false
    → (observe_child o m).1.is_new ≡ true
    → (observe_all later (observe_child o m).0).session.primary_pid ≡ o.child_pid
primary_child_stays o later m open_place launched is_new =
    let chosen : (observe_child o m).0.session.primary_pid ≡ o.child_pid =
      ground (arith, observe_child-Primary o m) in
    let given = new_child-given o m is_new in
    observe_all-primary later (observe_child o m).0 (ground arith) ∙ chosen
