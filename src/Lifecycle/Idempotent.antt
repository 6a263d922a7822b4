-- ===== src/Lifecycle/Idempotent.antt =====
-- The same report of a spawned child twice. Hooked is about the other report of a child, by a call.
use inspec_thor.Prelude.{
  ℕ, true, false, ◌||◌, ◌≡◌, refl, sym, ap, subst, [], ◌∷◌, Option, none, some, Text, has_pid,
  find_if, ◌==◌, Bool-cases, inl, inr, arith,
}
use inspec_thor.ProcessTree.Session.{ProcessNode, ChildObservationResult}
use inspec_thor.ProcessTree.Manager.{Manager, pid_is, live_pid_is}
use inspec_thor.ChildPolicy.Decide.{ChildDecision, decide_child_instrumentation}
use inspec_thor.ProcessTree.Observe.{
  Observation, child_context, observe_existing, observe_new, observe_decided, observe_from, ignores,
  observe_child,
}
use inspec_thor.ProcessTree.Settled.{IsQuiet}
use inspec_thor.ProcessTree.Twice.{observe_twice}
use inspec_thor.Etw.Monitor.{
  Monitor, add_target_process, add_target_processes, insert_targets, settle_targets,
}
use inspec_thor.Etw.Monitor.Retention.{add_target_processes_lem, insert_known}
use inspec_thor.Lifecycle.{
  Controller, queue_child_process_instrumentation, react, react_to, resolve_live_process_image_path,
  on_child_process_spawned,
}

-- A pid that is a target already is not added again.
pub add_target_process-known :
    (pid : ℕ) (m : Monitor) → has_pid pid m.target_pids ≡ true → add_target_process pid m ≡ m
unfolding add_target_process add_target_processes insert_targets settle_targets
add_target_process-known pid m known = elim (Bool-cases (pid == 0)) [
  | inl nought ↦ rw nought refl
  | inr given ↦ rw (given, insert_known pid m.target_pids known, known) refl
]

add_target_processes-has :
    (pid : ℕ) (m : Monitor)
    → (pid == 0) ≡ false
    → has_pid pid (add_target_processes (pid ∷ []) m).target_pids ≡ true
unfolding has_pid
add_target_processes-has pid m given =
    rw ((add_target_processes_lem pid (pid ∷ []) m).0) (ground arith)

add_target_process-given :
    (pid : ℕ) (m : Monitor)
    → (pid == 0) ≡ false
    → add_target_process pid m ≡ add_target_processes (pid ∷ []) m
unfolding add_target_process
add_target_process-given pid m given = rw given refl

add_target_process-has :
    (pid : ℕ) (m : Monitor)
    → (pid == 0) ≡ false
    → has_pid pid (add_target_process pid m).target_pids ≡ true
add_target_process-has pid m given =
    subst (λ n. has_pid pid n.target_pids ≡ true) (sym (add_target_process-given pid m given))
      (add_target_processes-has pid m given)

queue-manager :
    (pid : ℕ) (c : Controller) → (queue_child_process_instrumentation pid c).manager ≡ c.manager
unfolding queue_child_process_instrumentation
queue-manager pid c = ground arith

queue-has :
    (pid : ℕ) (c : Controller)
    → (pid == 0) ≡ false
    → has_pid pid c.etw.target_pids ≡ true
    → has_pid pid (queue_child_process_instrumentation pid c).etw.target_pids ≡ true
unfolding queue_child_process_instrumentation
queue-has pid c given known = elim (Bool-cases (pid == 0 || pid == c.target.pid)) [
  | inl passed ↦ rw passed known
  | inr queued ↦ rw queued (add_target_process-has pid c.etw given)
]

pub react-manager :
    (pid : ℕ) (r : ChildObservationResult) (c : Controller) → (react pid r c).manager ≡ c.manager
unfolding react
react-manager pid r c = elim (Bool-cases r.queue_injection) [
  | inl queued ↦ rw queued (queue-manager pid _)
  | inr not_queued ↦ rw not_queued refl
]

pub react-has :
    (pid : ℕ) (r : ChildObservationResult) (c : Controller)
    → (pid == 0) ≡ false
    → has_pid pid (react pid r c).etw.target_pids ≡ true
unfolding react
react-has pid r c given = elim (Bool-cases r.queue_injection) [
  | inl queued ↦ rw queued (queue-has pid _ given (add_target_process-has pid c.etw given))
  | inr not_queued ↦ rw not_queued (add_target_process-has pid c.etw given)
]

-- A quiet observation leaves the controller as it is where the child is an ETW target.
react_quiet :
    (pid : ℕ) (r : Manager × ChildObservationResult) (c : Controller)
    → r.0 ≡ c.manager
    → r.1.queue_injection ≡ false
    → r.1.start_exit_watch ≡ false
    → has_pid pid c.etw.target_pids ≡ true
    → react_to pid r c ≡ c
unfolding react_to react
react_quiet pid (manager, r) c same unqueued unwatched known =
    elim (Bool-cases r.belongs_to_session) [
      | inl belongs ↦
          rw (belongs, unqueued, unwatched, same, add_target_process-known pid c.etw known) refl
      | inr outside ↦ rw (outside, same) refl
    ]

-- An observation that does not belong to the session leaves the manager as it is.
pub observe_decided-belongs :
    (o : Observation) (d : ChildDecision × Text) (m : Manager) (found : Option ProcessNode)
    → (observe_decided o d m found).1.belongs_to_session ≡ true
unfolding observe_decided observe_existing observe_new
observe_decided-belongs o (d, reason) m none = refl
observe_decided-belongs o (d, reason) m (some node) = refl

observe_from-outside :
    (o : Observation) (m : Manager) (parent : Option ProcessNode)
    → (observe_from o m parent).1.belongs_to_session ≡ false
    → (observe_from o m parent).0 ≡ m
unfolding observe_from
observe_from-outside o m none outside = refl
observe_from-outside o m (some parent) outside =
    let belongs =
      observe_decided-belongs o
        (decide_child_instrumentation o.host (child_context o m.session parent)) m
        (find_if (live_pid_is o.child_pid) m.session.nodes) in
    absurd (cc)

observe_outside :
    (o : Observation) (m : Manager)
    → (observe_child o m).1.belongs_to_session ≡ false
    → (observe_child o m).0 ≡ m
unfolding observe_child
observe_outside o m = elim (Bool-cases (ignores o m)) [
  | inl passed ↦ rw passed (λ outside. refl)
  | inr heard ↦ rw heard (observe_from-outside o m (find_if (pid_is o.parent_pid) m.session.nodes))
]

react_outside :
    (o : Observation) (c : Controller)
    → (observe_child o c.manager).1.belongs_to_session ≡ false
    → react_to o.child_pid (observe_child o c.manager) c ≡ c
unfolding react_to
react_outside o c outside =
    rw outside (ap (λ m. record c { manager = m }) (observe_outside o c.manager outside))

react_quietly :
    (o : Observation) (c : Controller) (m : Manager)
    → c.manager ≡ m
    → IsQuiet (observe_child o m) m
    → has_pid o.child_pid c.etw.target_pids ≡ true
    → react_to o.child_pid (observe_child o c.manager) c ≡ c
react_quietly o c m same quiet known =
    let here : IsQuiet (observe_child o c.manager) c.manager =
      subst (λ n. IsQuiet (observe_child o n) n) (sym same) quiet in
    react_quiet o.child_pid (observe_child o c.manager) c here.unchanged here.no_injection
      here.no_watch known

pub react_inside :
    (pid : ℕ) (r : Manager × ChildObservationResult) (c : Controller)
    → r.1.belongs_to_session ≡ true
    → react_to pid r c ≡ react pid r.1 (record c { manager = r.0 })
unfolding react_to
react_inside pid (m, r) c belongs = rw belongs refl

-- The second of two reactions to the same report.
react_again :
    (o : Observation) (c : Controller)
    → (o.child_pid == 0) ≡ false
    → react_to o.child_pid
        (observe_child o (react_to o.child_pid (observe_child o c.manager) c).manager)
        (react_to o.child_pid (observe_child o c.manager) c)
      ≡ react_to o.child_pid (observe_child o c.manager) c
react_again o c given =
    let r = observe_child o c.manager in
    let again = λ (k : Controller). react_to o.child_pid (observe_child o k.manager) k ≡ k in
    elim (Bool-cases r.1.belongs_to_session) [
      | inl belongs ↦ subst again (sym (react_inside o.child_pid r c belongs)) (
          react_quietly o _ r.0 (react-manager o.child_pid r.1 _) (observe_twice o c.manager)
            (react-has o.child_pid r.1 _ given))
      | inr outside ↦ subst again (sym (react_outside o c outside)) (react_outside o c outside)
    ]

-- The same OnChildProcessSpawned report of a child, twice in a row, does what one does: no second
-- exit watch, no second injection, and the process tree and the ETW monitor stay as they are.
pub spawned_twice :
    (o : Observation) (live : Option Text) (c : Controller)
    → on_child_process_spawned o live (on_child_process_spawned o live c)
      ≡ on_child_process_spawned o live c
unfolding on_child_process_spawned
spawned_twice o live c =
    let resolved = record o {
      image_path = resolve_live_process_image_path o.host o.image_path live;
    } in
    elim (Bool-cases (o.child_pid == 0 || o.parent_pid == 0 || o.child_pid == o.own_pid)) [
      | inl passed ↦ rw passed refl
      | inr heard ↦ rw heard (react_again resolved c (ground arith))
    ]
