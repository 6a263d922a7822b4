-- ===== src/Lifecycle/Hooked.antt =====
-- The end of `PushTelemetryEvent` in src/controller/gui.cpp: a hooked call that creates a process
-- reports the child too.
use inspec_thor.Prelude.{
  ℕ, ◌^◌, Bool, true, false, ◌&&◌, ◌||◌, ◌≡◌, refl, ap, ◌∙◌, [], ◌∷◌, ◌++◌, Option, none, some,
  Text, literal, text_eq, starts_with, has_pid, find_if, ltb, ◌==◌, if◌then◌else◌, Bool-cases, inl,
  inr, arith,
}
use inspec_thor.ChildPolicy.Decide.{decide_child_instrumentation}
use inspec_thor.ProcessTree.Session.{ProcessNode, ChildObservationResult}
use inspec_thor.ProcessTree.Manager.{Manager, pid_is, live_pid_is}
use inspec_thor.ProcessTree.Observe.{
  Observation, child_context, observe_from, ignores, observe_child,
}
use inspec_thor.Telemetry.{TelemetryEvent}
use inspec_thor.RuntimeStrings.Scanner.{param_value_or_zero}
use inspec_thor.Lifecycle.{
  Controller, queue_child_process_instrumentation, react, resolve_live_process_image_path,
  on_child_process_spawned,
}
use inspec_thor.Lifecycle.Idempotent.{
  add_target_process-known, react-has, react_inside, observe_decided-belongs,
}

unfoldable pub is_process_creation_api : Text → Bool
is_process_creation_api api =
    starts_with api (literal "CreateProcess")
    || starts_with api (literal "ShellExecute")
    || text_eq api (literal "WinExec")
    || text_eq api (literal "NtCreateUserProcess")

unfoldable pub queue_created_child : TelemetryEvent → Controller → Controller
unfolding is_process_creation_api
queue_created_child event c =
    let child_pid = param_value_or_zero event (literal "dwProcessId") in
    if is_process_creation_api event.api_name && ltb 0 child_pid && ltb child_pid (2 ^ 32)
    then queue_child_process_instrumentation child_pid c
    else c

-- The report of the spawn, with the path that the process was asked for.
abbrev pub resolved : Observation → Option Text → Observation
resolved o live = record o { image_path = resolve_live_process_image_path o.host o.image_path live }

-- The child gets an injection where it belongs to the session.
observe_decided-queued :
    (o : Observation) (m : Manager) (found : Option ProcessNode)
    → (observe_from o m found).1.queue_injection ≡ true
    → (observe_from o m found).1.belongs_to_session ≡ true
unfolding observe_from
observe_decided-queued o m none queued = cc
observe_decided-queued o m (some parent) queued =
    observe_decided-belongs o
      (decide_child_instrumentation o.host (child_context o m.session parent)) m
      (find_if (live_pid_is o.child_pid) m.session.nodes)

queued-belongs :
    (o : Observation) (m : Manager)
    → (observe_child o m).1.queue_injection ≡ true
    → (observe_child o m).1.belongs_to_session ≡ true
unfolding observe_child
queued-belongs o m = elim (Bool-cases (ignores o m)) [
  | inl passed ↦ rw passed (λ queued. absurd (cc))
  | inr heard ↦
      rw heard (observe_decided-queued o m (find_if (pid_is o.parent_pid) m.session.nodes))
]

-- One more injection, for a process that is traced already.
abbrev IsOneMore : ℕ → Controller → Controller → Type 0
IsOneMore pid before after =
    (after.injections ≡ before.injections ++ pid ∷ [])
    × (after.etw ≡ before.etw)
    × (after.manager ≡ before.manager)

queue-IsOneMore :
    (pid : ℕ) (c : Controller)
    → (pid == 0) ≡ false
    → (pid == c.target.pid) ≡ false
    → has_pid pid c.etw.target_pids ≡ true
    → IsOneMore pid c (queue_child_process_instrumentation pid c)
unfolding queue_child_process_instrumentation
queue-IsOneMore pid c given other known =
    rw (given, other) (refl, add_target_process-known pid c.etw known, refl)

react_queued :
    (pid : ℕ) (r : ChildObservationResult) (c : Controller)
    → r.queue_injection ≡ true
    → (pid == 0) ≡ false
    → (pid == c.target.pid) ≡ false
    → ((react pid r c).injections ≡ c.injections ++ pid ∷ []) × ((react pid r c).target ≡ c.target)
unfolding react queue_child_process_instrumentation
react_queued pid r c queued given other = rw (queued, given, other) (refl, refl)

spawned_inside :
    (o : Observation) (live : Option Text) (c : Controller)
    → (o.child_pid == 0 || o.parent_pid == 0 || o.child_pid == o.own_pid) ≡ false
    → (observe_child (resolved o live) c.manager).1.belongs_to_session ≡ true
    → on_child_process_spawned o live c
      ≡ react o.child_pid
          (observe_child (resolved o live) c.manager).1
          (record c { manager = (observe_child (resolved o live) c.manager).0 })
unfolding on_child_process_spawned
spawned_inside o live c heard belongs =
    rw heard (react_inside o.child_pid (observe_child (resolved o live) c.manager) c belongs)

-- The call names the child that it created.
abbrev pub Names : TelemetryEvent → ℕ → Type 0
Names event pid =
    (is_process_creation_api event.api_name ≡ true)
    × (param_value_or_zero event (literal "dwProcessId") ≡ pid)
    × (ltb pid (2 ^ 32) ≡ true)

queue_created_child-named :
    (event : TelemetryEvent) (pid : ℕ) (c : Controller)
    → Names event pid
    → (pid == 0) ≡ false
    → queue_created_child event c ≡ queue_child_process_instrumentation pid c
unfolding queue_created_child
queue_created_child-named event pid c (creates, named, small) given =
    let positive : ltb 0 pid ≡ true = ground arith in rw (named, creates, small, positive) refl

-- A call that names a child after its spawn was reported and its injection queued queues a second
-- injection of the child, where the child is not the target. The ETW monitor and the process tree
-- stay as the first report left them.
pub hooked_again :
    (o : Observation) (live : Option Text) (event : TelemetryEvent) (c : Controller)
    → (o.child_pid == 0 || o.parent_pid == 0 || o.child_pid == o.own_pid) ≡ false
    → (observe_child (resolved o live) c.manager).1.queue_injection ≡ true
    → (o.child_pid == c.target.pid) ≡ false
    → Names event o.child_pid
    → ((queue_created_child event (on_child_process_spawned o live c)).injections
        ≡ (c.injections ++ o.child_pid ∷ []) ++ o.child_pid ∷ [])
      × ((queue_created_child event (on_child_process_spawned o live c)).etw
          ≡ (on_child_process_spawned o live c).etw)
      × ((queue_created_child event (on_child_process_spawned o live c)).manager
          ≡ (on_child_process_spawned o live c).manager)
hooked_again o live event c heard queued other names =
    let pid = o.child_pid in
    let given : (pid == 0) ≡ false = ground arith in
    let seen = observe_child (resolved o live) c.manager in
    let before : Controller = record c { manager = seen.0 } in
    let (injections, target) = react_queued pid seen.1 before queued given other in
    let k = react pid seen.1 before in
    let still_other : (pid == k.target.pid) ≡ false = rw target other in
    let (more, etw, manager) =
      queue-IsOneMore pid k given still_other (react-has pid seen.1 before given) in
    rw
      (
        spawned_inside o live c heard (queued-belongs (resolved o live) c.manager queued),
        queue_created_child-named event pid k names given,
      )
      (more ∙ ap (λ xs. xs ++ pid ∷ []) injections, etw, manager)
