-- ===== src/ProcessTree/Consistency.antt =====
-- Every call of the manager keeps the session consistent.
use inspec_thor.Prelude.{
  ℕ, Bool, true, false, ◌||◌, ◌≡◌, ◌≢◌, refl, ap, sym, ◌∙◌, List, [], ◌∷◌, ◌++◌, Option, none, some,
  Text, any, All, All-append, has_pid, Pointwise-refl, update_first-Pointwise, find_if, find_if-any,
  ◌==◌, if◌then◌else◌, arith, Bool-cases, inl, inr,
}
use inspec_thor.ChildPolicy.Decide.{
  ChildDecision, inject_and_monitor, log_command_only, ignore_system_noise,
}
use inspec_thor.ChildPolicy.Decisions.{decide-ne-ignore}
use inspec_thor.ProcessTree.Session.{ProcessNode, AnalysisSession}
use inspec_thor.ProcessTree.Manager.{
  Manager, pid_is, live_pid_is, begin_session, reset, stop_session, restore, root_node,
  register_root,
}
use inspec_thor.ProcessTree.Observe.{
  Observation, child_context, fill_node, observe_node, observe_existing, label_child, child_node,
  record_child, takes_primary, add_child, observe_new, observe_decided, observe_from, ignores,
  observe_child,
}
use inspec_thor.ProcessTree.Steps.{
  Call, begins, resets, stops, restores, registers, observes, injection_results, exits, watches,
  step, run,
}
use inspec_thor.ProcessTree.Updates.{
  empty-IsConsistent, has-insert_self, has-insert_mono, updated-IsConsistent, update_first-exits,
  mark_exited-IsConsistent, mark_injection_result-IsConsistent,
  mark_exit_watch_started-IsConsistent,
}
use inspec_thor.ProcessTree.Consistent.{
  has_exited, is_rooted, is_accounted, IsConsistent, SameProcess, SameProcess-refl, same_accounted,
  rooted_append, exits_append,
}

observe_node-SameProcess :
    (o : Observation) (d : ChildDecision) (x : ProcessNode) → SameProcess x (observe_node o d x)
unfolding observe_node fill_node
observe_node-SameProcess o d x = record { pid = refl; parent_pid = refl }

observe_existing-IsConsistent :
    (o : Observation) (d : ChildDecision) (reason : Text) (m : Manager) (x : ProcessNode)
    → IsConsistent m.session
    → IsConsistent (observe_existing o d reason m x).0.session
unfolding observe_existing
observe_existing-IsConsistent o d reason m x c =
    updated-IsConsistent m.session _ c
      (update_first-Pointwise (live_pid_is o.child_pid) (observe_node o d) SameProcess-refl
        (observe_node-SameProcess o d) m.session.nodes)
      (λ q.
        c.exits q
        ∙ sym (
            update_first-exits (live_pid_is o.child_pid) (observe_node o d)
              (unfold observe_node fill_node has_exited pid_is in λ p x. refl) q m.session.nodes))
      (λ p h. h) refl refl

-- A process joins: its pid is not 0, its parent is 0 or known, and a set holds it.
module _ (s t : AnalysisSession) (c : IsConsistent s) (node : ProcessNode)
    (nodes : t.nodes ≡ s.nodes ++ node ∷ []) (fresh : node.exited ≡ false)
    (named : (node.pid == 0) ≡ false) (rooted : is_rooted s.nodes node ≡ true)
    (accounted : is_accounted t node ≡ true)
    (monitored : (p : ℕ) → has_pid p s.monitored_pids ≡ true → has_pid p t.monitored_pids ≡ true)
    (command_only : (p : ℕ)
      → has_pid p s.command_only_pids ≡ true
      → has_pid p t.command_only_pids ≡ true)
    (ended : t.exited_pids ≡ s.exited_pids) (skipped : t.skipped_pids ≡ []) where
  joined-IsConsistent : IsConsistent t
  unfolding is_accounted
  joined-IsConsistent = record {
    named =
        rw nodes (All-append (λ n. (n.pid == 0) ≡ false) s.nodes (node ∷ []) c.named (named, tt));
    rooted = rw nodes (rooted_append s.nodes node rooted c.rooted);
    accounted = rw nodes (
        All-append (λ n. is_accounted t n ≡ true) s.nodes (node ∷ [])
          (same_accounted s t monitored command_only (Pointwise-refl SameProcess-refl s.nodes)
            c.accounted)
          (accounted, tt));
    exits = λ p. rw (ended, nodes) (c.exits p ∙ sym (exits_append s.nodes node fresh p));
    none_skipped = skipped;
  }

register_root-IsConsistent :
    (pid : ℕ) (image command : Text) (time : ℕ) (launcher instrumented : Bool) (m : Manager)
    → IsConsistent m.session
    → IsConsistent (register_root pid image command time launcher instrumented m).session
unfolding register_root
register_root-IsConsistent pid image command time launcher instrumented m c =
    elim (Bool-cases (pid == 0)) [
      | inl none_given ↦ rw (none_given, register_root) c
      | inr given ↦
          rw (given, register_root)
            (joined-IsConsistent m.session _ c
              (root_node pid image command time launcher instrumented) refl
              (unfold root_node in refl) (unfold root_node in given)
              (unfold root_node is_rooted in refl)
              (unfold root_node is_accounted in
                ground (
                  arith,
                  has-insert_self pid m.session.monitored_pids,
                  has-insert_self pid m.session.command_only_pids,
                ))
              (λ p h. ground (arith, has-insert_mono pid p m.session.monitored_pids))
              (λ p h. ground (arith, has-insert_mono pid p m.session.command_only_pids)) refl
              c.none_skipped)
    ]

-- What the decision adds to the sets: never to the skipped ones, since it never ignores a child.
record HasJoined (o : Observation) (d : ChildDecision) (s t : AnalysisSession) : Type 0 where
  node : ProcessNode
  nodes : t.nodes ≡ s.nodes ++ node ∷ []
  fresh : node.exited ≡ false
  pid : node.pid ≡ o.child_pid
  parent_pid : node.parent_pid ≡ o.parent_pid
  accounted :
      (has_pid o.child_pid t.monitored_pids || has_pid o.child_pid t.command_only_pids) ≡ true
  monitored : (p : ℕ) → has_pid p s.monitored_pids ≡ true → has_pid p t.monitored_pids ≡ true
  command_only :
      (p : ℕ) → has_pid p s.command_only_pids ≡ true → has_pid p t.command_only_pids ≡ true
  ended : t.exited_pids ≡ s.exited_pids
  skipped : t.skipped_pids ≡ s.skipped_pids

joined_node : Observation → ChildDecision → Text → AnalysisSession → ProcessNode
joined_node o d reason s =
    let node = child_node o d reason in
    if takes_primary s then record node { relationship = "primary" } else node

add_child-HasJoined :
    (o : Observation) (d : ChildDecision) (reason : Text) (s : AnalysisSession)
    → d ≢ ignore_system_noise
    → HasJoined o d s (add_child o d reason s)
unfolding add_child joined_node child_node label_child record_child
add_child-HasJoined o ignore_system_noise reason s h = absurd (h refl)
add_child-HasJoined o inject_and_monitor reason s h = record {
  node = joined_node o inject_and_monitor reason s;
  nodes = ground arith;
  fresh = ground arith;
  pid = ground arith;
  parent_pid = ground arith;
  accounted = ground (arith, has-insert_self o.child_pid s.monitored_pids);
  monitored = λ p e. ground (arith, has-insert_mono o.child_pid p s.monitored_pids);
  command_only = λ p e. ground arith;
  ended = ground arith;
  skipped = ground arith;
}
add_child-HasJoined o log_command_only reason s h = record {
  node = joined_node o log_command_only reason s;
  nodes = ground arith;
  fresh = ground arith;
  pid = ground arith;
  parent_pid = ground arith;
  accounted = ground (arith, has-insert_self o.child_pid s.command_only_pids);
  monitored = λ p e. ground arith;
  command_only = λ p e. ground (arith, has-insert_mono o.child_pid p s.command_only_pids);
  ended = ground arith;
  skipped = ground arith;
}

add_child-IsConsistent :
    (o : Observation) (d : ChildDecision) (reason : Text) (s : AnalysisSession)
    → d ≢ ignore_system_noise
    → (o.child_pid == 0) ≡ false
    → any (pid_is o.parent_pid) s.nodes ≡ true
    → IsConsistent s
    → IsConsistent (add_child o d reason s)
unfolding is_rooted is_accounted
add_child-IsConsistent o d reason s noise named parent c =
    let j = add_child-HasJoined o d reason s noise in
    joined-IsConsistent s _ c j.node j.nodes j.fresh (ap (λ k. k == 0) j.pid ∙ named)
      (ground (arith, j.parent_pid, parent)) (ground (arith, j.pid, j.accounted)) j.monitored
      j.command_only j.ended (j.skipped ∙ c.none_skipped)

observe_decided-IsConsistent :
    (o : Observation) (d : ChildDecision × Text) (m : Manager) (found : Option ProcessNode)
    → d.0 ≢ ignore_system_noise
    → (o.child_pid == 0) ≡ false
    → any (pid_is o.parent_pid) m.session.nodes ≡ true
    → IsConsistent m.session
    → IsConsistent (observe_decided o d m found).0.session
unfolding observe_decided observe_new
observe_decided-IsConsistent o (d, reason) m none noise named parent c =
    add_child-IsConsistent o d reason m.session noise named parent c
observe_decided-IsConsistent o (d, reason) m (some child) noise named parent c =
    observe_existing-IsConsistent o d reason m _ c

observe_from-IsConsistent :
    (o : Observation) (m : Manager) (found : Option ProcessNode)
    → find_if (pid_is o.parent_pid) m.session.nodes ≡ found
    → (o.child_pid == 0) ≡ false
    → IsConsistent m.session
    → IsConsistent (observe_from o m found).0.session
unfolding observe_from
observe_from-IsConsistent o m none e named c = c
observe_from-IsConsistent o m (some parent) e named c =
    observe_decided-IsConsistent o _ m _
      (decide-ne-ignore o.host (child_context o m.session parent)) named
      (find_if-any (pid_is o.parent_pid) m.session.nodes parent e) c

observe_child-IsConsistent :
    (o : Observation) (m : Manager)
    → IsConsistent m.session
    → IsConsistent (observe_child o m).0.session
unfolding observe_child
observe_child-IsConsistent o m c = elim (Bool-cases (ignores o m)) [
  | inl passed ↦ rw (passed, observe_child) c
  | inr heard ↦
      rw (heard, observe_child)
        (observe_from-IsConsistent o m _ refl (unfold ignores in ground arith) c)
]

-- A stored session is taken over as it is.
abbrev pub Restorable : Call → Type 0
Restorable (restores session) = IsConsistent session
Restorable other = Unit

pub step-IsConsistent :
    (m : Manager) (call : Call)
    → Restorable call
    → IsConsistent m.session
    → IsConsistent (step m call).session
unfolding step begin_session reset stop_session restore
step-IsConsistent m (begins path type profile now) r c = record {
  named = tt;
  rooted = tt;
  accounted = tt;
  exits = λ p. unfold has_pid in refl;
  none_skipped = refl;
}
step-IsConsistent m resets r c = empty-IsConsistent
step-IsConsistent m (stops time) r c =
    updated-IsConsistent m.session _ c (Pointwise-refl SameProcess-refl _) c.exits (λ p h. h) refl
      refl
step-IsConsistent m (restores session) r c =
    updated-IsConsistent session _ r (Pointwise-refl SameProcess-refl _) r.exits (λ p h. h) refl
      refl
step-IsConsistent m (registers pid image command time launcher instrumented) r c =
    register_root-IsConsistent pid image command time launcher instrumented m c
step-IsConsistent m (observes o) r c = observe_child-IsConsistent o m c
step-IsConsistent m (injection_results pid injected diagnostic) r c =
    mark_injection_result-IsConsistent pid injected diagnostic m c
step-IsConsistent m (exits pid time code) r c = mark_exited-IsConsistent pid time code m c
step-IsConsistent m (watches pid) r c = mark_exit_watch_started-IsConsistent pid m c

-- After any history of calls in which every restored session was consistent, the session is: every
-- node has a pid, a parent of 0 or one in the tree, and a place in the monitored or command-only
-- set; a pid is in the exited set exactly when a node with it has exited; no pid was ever skipped.
pub run-IsConsistent :
    (m : Manager) (calls : List Call)
    → All Restorable calls
    → IsConsistent m.session
    → IsConsistent (run m calls).session
unfolding run
run-IsConsistent m [] r c = c
run-IsConsistent m (call ∷ calls) (r, rs) c =
    run-IsConsistent (step m call) calls rs (step-IsConsistent m call r c)
