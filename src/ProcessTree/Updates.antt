-- ===== src/ProcessTree/Updates.antt =====
-- The calls that update nodes in place keep the session consistent.
use inspec_thor.Prelude.{
  ℕ, Bool, true, ◌||◌, ◌≡◌, refl, sym, ◌∙◌, List, [], ◌∷◌, Text, any, PidSet, has_pid, insert_pid,
  has-insert, Pointwise, update_first, update_last, update_first-Pointwise, update_last-Pointwise,
  ◌==◌, arith, Bool-cases, inl, inr, ==_iff,
}
use inspec_thor.ProcessTree.Session.{ProcessNode, AnalysisSession, empty_session}
use inspec_thor.ProcessTree.Manager.{
  Manager, pid_is, live_pid_is, injection_outcome, mark_injection_result, exit_node, mark_exited,
  watch_node, mark_exit_watch_started,
}
use inspec_thor.ProcessTree.Consistent.{
  has_exited, IsConsistent, SameProcess, SameProcess-refl, same_named, same_rooted, same_accounted,
}

pub empty-IsConsistent : IsConsistent empty_session
unfolding has_pid
empty-IsConsistent = record {
  named = tt;
  rooted = tt;
  accounted = tt;
  exits = λ p. refl;
  none_skipped = refl;
}

pub has-insert_mono :
    (q p : ℕ) (s : PidSet) → has_pid p s ≡ true → has_pid p (insert_pid q s) ≡ true
has-insert_mono q p s h = ground (arith, has-insert p q s)

pub has-insert_self : (p : ℕ) (s : PidSet) → has_pid p (insert_pid p s) ≡ true
has-insert_self p s = ground (arith, has-insert p p s, (==_iff p p).1 refl)

-- An update in place that moves no process and ends none.
module _ (s t : AnalysisSession) (c : IsConsistent s)
    (nodes : Pointwise SameProcess s.nodes t.nodes)
    (ended : (p : ℕ) → has_pid p t.exited_pids ≡ any (has_exited p) t.nodes)
    (monitored : (p : ℕ) → has_pid p s.monitored_pids ≡ true → has_pid p t.monitored_pids ≡ true)
    (command_only : t.command_only_pids ≡ s.command_only_pids)
    (skipped : t.skipped_pids ≡ s.skipped_pids) where
  pub updated-IsConsistent : IsConsistent t
  updated-IsConsistent = record {
    named = same_named nodes c.named;
    rooted = same_rooted nodes c.rooted;
    accounted = same_accounted s t monitored (λ p h. rw command_only h) nodes c.accounted;
    exits = ended;
    none_skipped = skipped ∙ c.none_skipped;
  }

pub update_first-exits :
    (p : ProcessNode → Bool) (f : ProcessNode → ProcessNode)
    → ((q : ℕ) (x : ProcessNode) → has_exited q (f x) ≡ has_exited q x)
    → (q : ℕ) (xs : List ProcessNode)
    → any (has_exited q) (update_first p f xs) ≡ any (has_exited q) xs
update_first-exits p f h q [] = refl
update_first-exits p f h q (x ∷ xs) = ground (arith, h q x, update_first-exits p f h q xs)

update_last-exits :
    (p : ProcessNode → Bool) (f : ProcessNode → ProcessNode)
    → ((q : ℕ) (x : ProcessNode) → has_exited q (f x) ≡ has_exited q x)
    → (q : ℕ) (xs : List ProcessNode)
    → any (has_exited q) (update_last p f xs) ≡ any (has_exited q) xs
update_last-exits p f h q [] = refl
update_last-exits p f h q (x ∷ xs) = ground (arith, h q x, update_last-exits p f h q xs)

-- The last live node with the pid is marked, so the pid joins those that exited.
exit_node-exits :
    (pid time code q : ℕ) (x : ProcessNode)
    → live_pid_is pid x ≡ true
    → has_exited q (exit_node time code x) ≡ (q == pid || has_exited q x)
unfolding live_pid_is exit_node has_exited pid_is
exit_node-exits pid time code q x h = ground arith

mark_exited-exits :
    (pid time code q : ℕ) (xs : List ProcessNode)
    → any (live_pid_is pid) xs ≡ true
    → any (has_exited q) (update_last (live_pid_is pid) (exit_node time code) xs)
      ≡ (q == pid || any (has_exited q) xs)
mark_exited-exits pid time code q [] h = cc
mark_exited-exits pid time code q (x ∷ xs) h =
    ground (arith, exit_node-exits pid time code q x, mark_exited-exits pid time code q xs)

exit_node-SameProcess : (time code : ℕ) (x : ProcessNode) → SameProcess x (exit_node time code x)
unfolding exit_node
exit_node-SameProcess time code x = record { pid = refl; parent_pid = refl }

injection_outcome-SameProcess :
    (injected : Bool) (diagnostic : Text) (x : ProcessNode)
    → SameProcess x (injection_outcome injected diagnostic x)
unfolding injection_outcome
injection_outcome-SameProcess injected diagnostic x = record { pid = refl; parent_pid = refl }

watch_node-SameProcess : (x : ProcessNode) → SameProcess x (watch_node x)
unfolding watch_node
watch_node-SameProcess x = record { pid = refl; parent_pid = refl }

pub mark_exited-IsConsistent :
    (pid time code : ℕ) (m : Manager)
    → IsConsistent m.session
    → IsConsistent (mark_exited pid time code m).session
unfolding mark_exited
mark_exited-IsConsistent pid time code m c =
    elim (Bool-cases (any (live_pid_is pid) m.session.nodes)) [
      | inr gone ↦ rw (gone, mark_exited) c
      | inl live ↦
          rw (live, mark_exited)
            (updated-IsConsistent m.session _ c
              (update_last-Pointwise (live_pid_is pid) (exit_node time code) SameProcess-refl
                (exit_node-SameProcess time code) m.session.nodes)
              (λ q. ground (
                arith,
                has-insert q pid m.session.exited_pids,
                mark_exited-exits pid time code q m.session.nodes,
                c.exits q,
              ))
              (λ p h. h) refl refl)
    ]

pub mark_injection_result-IsConsistent :
    (pid : ℕ) (injected : Bool) (diagnostic : Text) (m : Manager)
    → IsConsistent m.session
    → IsConsistent (mark_injection_result pid injected diagnostic m).session
unfolding mark_injection_result
mark_injection_result-IsConsistent pid injected diagnostic m c =
    elim (Bool-cases (any (pid_is pid) m.session.nodes)) [
      | inr unknown ↦ rw (unknown, mark_injection_result) c
      | inl known ↦
          rw (known, mark_injection_result)
            (updated-IsConsistent m.session _ c
              (update_last-Pointwise (pid_is pid) (injection_outcome injected diagnostic)
                SameProcess-refl (injection_outcome-SameProcess injected diagnostic)
                m.session.nodes)
              (λ q.
                c.exits q
                ∙ sym (
                    update_last-exits (pid_is pid) (injection_outcome injected diagnostic)
                      (unfold injection_outcome has_exited pid_is in λ p x. refl) q
                      m.session.nodes))
              (λ p h. ground (arith, has-insert_mono pid p m.session.monitored_pids)) refl refl)
    ]

pub mark_exit_watch_started-IsConsistent :
    (pid : ℕ) (m : Manager)
    → IsConsistent m.session
    → IsConsistent (mark_exit_watch_started pid m).session
unfolding mark_exit_watch_started
mark_exit_watch_started-IsConsistent pid m c =
    updated-IsConsistent m.session _ c
      (update_first-Pointwise (pid_is pid) watch_node SameProcess-refl watch_node-SameProcess
        m.session.nodes)
      (λ q.
        c.exits q
        ∙ sym (
            update_first-exits (pid_is pid) watch_node
              (unfold watch_node has_exited pid_is in λ p x. refl) q m.session.nodes))
      (λ p h. h) refl refl
