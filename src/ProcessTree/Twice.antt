-- ===== src/ProcessTree/Twice.antt =====
-- ETW and the API hooks report the same child: the second report is harmless.
use inspec_thor.Prelude.{
  ℕ, Bool, true, false, ◌≡◌, refl, sym, subst, ◌∙◌, none, some, Text, List, [], ◌∷◌, ◌++◌, find_if,
  update_first, arith, find_if-append_new, find_if-append, find_if-update_first, find_if_holds,
  Bool-cases, Option-cases, inl, inr, any, find_if-any, any-find_if, ==_iff, ◌==◌,
}
use inspec_thor.ChildPolicy.Decide.{
  ChildDecision, inject_and_monitor, log_command_only, ignore_system_noise,
  decide_child_instrumentation,
}
use inspec_thor.ProcessTree.Session.{ProcessNode, AnalysisSession}
use inspec_thor.ProcessTree.Manager.{Manager, pid_is, live_pid_is}
use inspec_thor.ProcessTree.Observe.{
  Observation, child_context, fill_node, observe_node, observe_existing, label_child, child_node,
  record_child, add_child, takes_primary, observe_new, observe_decided, observe_from, ignores,
  observe_child,
}
use inspec_thor.ProcessTree.Settled.{
  IsFilled, IsFilled-fixed, child_node-IsFilled, primary-IsFilled, observe_node_idem, SameTarget,
  decide_same, IsSettled, IsSettled-IsQuiet, IsQuiet, IsQuiet-passed,
}

observe_node_live :
    (o : Observation) (d : ChildDecision) (pid : ℕ) (x : ProcessNode)
    → live_pid_is pid (observe_node o d x) ≡ live_pid_is pid x
unfolding observe_node fill_node live_pid_is
observe_node_live o d pid x = refl

observe_node_pid :
    (o : Observation) (d : ChildDecision) (pid : ℕ) (x : ProcessNode)
    → pid_is pid (observe_node o d x) ≡ pid_is pid x
unfolding observe_node fill_node pid_is
observe_node_pid o d pid x = refl

-- Changing a node without its pid keeps a parent known.
update_keeps_any :
    (p q : ProcessNode → Bool) (f : ProcessNode → ProcessNode)
    → ((x : ProcessNode) → q (f x) ≡ q x)
    → (xs : List ProcessNode) → any q (update_first p f xs) ≡ any q xs
update_keeps_any p q f h [] = refl
update_keeps_any p q f h (x ∷ xs) = ground (arith, h x, update_keeps_any p q f h xs)

-- The child was live already.
module _ (o : Observation) (m : Manager) (parent child : ProcessNode) (heard : ignores o m ≡ false)
    (parent_found : find_if (pid_is o.parent_pid) m.session.nodes ≡ some parent) where
  abbrev decided : ChildDecision × Text
  decided = decide_child_instrumentation o.host (child_context o m.session parent)

  abbrev updated : Manager
  updated = record m {
    session = record (m.session) {
      nodes = update_first (live_pid_is o.child_pid) (observe_node o decided.0) m.session.nodes;
    };
  }

  existing-IsSettled :
      find_if (live_pid_is o.child_pid) m.session.nodes ≡ some child
      → (p : ProcessNode) × IsSettled o updated p (observe_node o decided.0 child)
  unfolding ignores
  existing-IsSettled child_found =
      let (p, found) = any-find_if (pid_is o.parent_pid) updated.session.nodes (
        update_keeps_any (live_pid_is o.child_pid) (pid_is o.parent_pid) (observe_node o decided.0)
          (observe_node_pid o decided.0 o.parent_pid) m.session.nodes
        ∙ find_if-any (pid_is o.parent_pid) m.session.nodes parent parent_found) in
      (
        p,
        record {
          heard = heard;
          parent_found = found;
          child_found =
              find_if-update_first (live_pid_is o.child_pid) (observe_node o decided.0)
                m.session.nodes child child_found
                (observe_node_live o decided.0 o.child_pid child
                  ∙ find_if_holds (live_pid_is o.child_pid) m.session.nodes child child_found);
          fixed =
              rw
                (decide_same o updated.session m.session p parent
                  (record { target_type = refl; target_profile = refl; original_path = refl }))
                (observe_node_idem o decided.0 child);
        },
      )

-- What a new child's node is, whether or not it is the primary process.
record IsAdded (o : Observation) (d : ChildDecision) (s t : AnalysisSession) : Type 0 where
  node : ProcessNode
  filled : IsFilled o d node
  live : live_pid_is o.child_pid node ≡ true
  nodes : t.nodes ≡ s.nodes ++ node ∷ []
  target : SameTarget t s
  active : t.active ≡ s.active
  session_id : t.session_id ≡ s.session_id

==_refl : (n : ℕ) → (n == n) ≡ true
==_refl n = (==_iff n n).1 refl

child_node-live :
    (o : Observation) (d : ChildDecision) (reason : Text)
    → live_pid_is o.child_pid (child_node o d reason) ≡ true
unfolding live_pid_is child_node label_child
child_node-live o inject_and_monitor reason = ground (arith, ==_refl o.child_pid)
child_node-live o log_command_only reason = ground (arith, ==_refl o.child_pid)
child_node-live o ignore_system_noise reason = ground (arith, ==_refl o.child_pid)

primary-live :
    (pid : ℕ) (x : ProcessNode)
    → live_pid_is pid (record x { relationship = "primary" }) ≡ live_pid_is pid x
unfolding live_pid_is
primary-live pid x = refl

record_child-target :
    (d : ChildDecision) (pid : ℕ) (s : AnalysisSession)
    → SameTarget (record_child d pid s) s
      × ((record_child d pid s).active ≡ s.active)
      × ((record_child d pid s).session_id ≡ s.session_id)
unfolding record_child
record_child-target inject_and_monitor pid s =
    (record { target_type = refl; target_profile = refl; original_path = refl }, refl, refl)
record_child-target log_command_only pid s =
    (record { target_type = refl; target_profile = refl; original_path = refl }, refl, refl)
record_child-target ignore_system_noise pid s =
    (record { target_type = refl; target_profile = refl; original_path = refl }, refl, refl)

add_child-IsAdded :
    (o : Observation) (d : ChildDecision) (reason : Text) (s : AnalysisSession)
    → IsAdded o d s (add_child o d reason s)
unfolding add_child
add_child-IsAdded o d reason s =
    let node = child_node o d reason in
    let (target, active, id) = record_child-target d o.child_pid s in
    elim (Bool-cases (takes_primary s)) [
      | inl first ↦
          rw (first, add_child)
            (record {
              node = record node { relationship = "primary" };
              filled = primary-IsFilled o d node (child_node-IsFilled o d reason);
              live = primary-live o.child_pid node ∙ child_node-live o d reason;
              nodes = refl;
              target = record {
                target_type = target.target_type;
                target_profile = target.target_profile;
                original_path = target.original_path;
              };
              active = active;
              session_id = id;
            })
      | inr later ↦
          rw (later, add_child)
            (record {
              node = node;
              filled = child_node-IsFilled o d reason;
              live = child_node-live o d reason;
              nodes = refl;
              target = record {
                target_type = target.target_type;
                target_profile = target.target_profile;
                original_path = target.original_path;
              };
              active = active;
              session_id = id;
            })
    ]

new-IsSettled :
    (o : Observation) (m : Manager) (parent : ProcessNode) (t : AnalysisSession)
    → ignores o m ≡ false
    → find_if (pid_is o.parent_pid) m.session.nodes ≡ some parent
    → find_if (live_pid_is o.child_pid) m.session.nodes ≡ none
    → (added : IsAdded o
        (decide_child_instrumentation o.host (child_context o m.session parent)).0
        m.session
        t)
    → IsSettled o (record m { session = t }) parent added.node
unfolding ignores
new-IsSettled o m parent t heard parent_found no_child added = record {
  heard = rw (added.active, added.session_id) heard;
  parent_found =
      rw added.nodes (find_if-append (pid_is o.parent_pid) m.session.nodes _ parent parent_found);
  child_found =
      rw added.nodes (
        find_if-append_new (live_pid_is o.child_pid) m.session.nodes added.node no_child
          added.live);
  fixed =
      rw (decide_same o t m.session parent parent added.target)
        (IsFilled-fixed o _ added.node added.filled);
}

-- A manager that an observation leads to, if the child is settled there.
IsSettled-again :
    (o : Observation) (m n : Manager) (parent child : ProcessNode)
    → (observe_child o m).0 ≡ n
    → IsSettled o n parent child
    → IsQuiet (observe_child o (observe_child o m).0) (observe_child o m).0
IsSettled-again o m n parent child e h =
    subst (λ k. IsQuiet (observe_child o k) k) (sym e) (IsSettled-IsQuiet o n parent child h)

observe_known :
    (o : Observation) (m : Manager) (parent : ProcessNode)
    → ignores o m ≡ false
    → find_if (pid_is o.parent_pid) m.session.nodes ≡ some parent
    → IsQuiet (observe_child o (observe_child o m).0) (observe_child o m).0
observe_known o m parent heard known =
    let d = decide_child_instrumentation o.host (child_context o m.session parent) in
    elim (Option-cases (find_if (live_pid_is o.child_pid) m.session.nodes)) [
      | inl fresh ↦
          IsSettled-again o m (record m { session = add_child o d.0 d.1 m.session }) parent _
            (unfold observe_child observe_from observe_decided observe_new in
              rw (heard, known, fresh))
            (new-IsSettled o m parent _ heard known fresh (add_child-IsAdded o d.0 d.1 m.session))
      | inr (child, old) ↦
          let (p, settled) = existing-IsSettled o m parent child heard known old in
          IsSettled-again o m (updated o m parent child heard known) p _
            (unfold observe_child observe_from observe_decided observe_existing in
              rw (heard, known, old))
            settled
    ]

-- Once a child was observed, observing it again with the same report leaves the manager as it is,
-- adds no node, queues no second injection and starts no second exit watch.
pub observe_twice :
    (o : Observation) (m : Manager)
    → IsQuiet (observe_child o (observe_child o m).0) (observe_child o m).0
observe_twice o m = elim (Bool-cases (ignores o m)) [
  | inl passed ↦ IsQuiet-passed o m (unfold observe_child in rw passed)
  | inr heard ↦ elim (Option-cases (find_if (pid_is o.parent_pid) m.session.nodes)) [
    | inl unknown ↦ IsQuiet-passed o m (unfold observe_child observe_from in rw (heard, unknown))
    | inr (parent, known) ↦ observe_known o m parent heard known
  ]
]
