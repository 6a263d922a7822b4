-- ===== src/Lifecycle/Kept.antt =====
-- The parts that the session functions are made of keep the controller well.
use inspec_thor.Prelude.{
  ℕ, ◌≤◌, Bool, false, ◌≡◌, List, [], ◌∷◌, ◌++◌, Text, ◌==◌, All-append, if-elim, arith,
}
use inspec_thor.ProcessTree.Manager.{stop_session, mark_exited, belongs_to_session}
use inspec_thor.ProcessTree.Observe.{Observation, observe_child}
use inspec_thor.ProcessTree.Steps.{
  Call, observes, injection_results, exits, stops, step as step_tree,
}
use inspec_thor.ProcessTree.Consistency.{Restorable, step-IsConsistent}
use inspec_thor.Etw.Monitor.{add_target_process}
use inspec_thor.Etw.Monitor.Steps.{
  Step, adds, ends_session, step as step_monitor, import_size, step-IsSound,
}
use inspec_thor.Lifecycle.{
  Controller, TargetInfo, ProcessRunState, stop_etw_for_ended_target, stop_runtime_string_scanner,
  inject_attempts, run_injection, on_process_exited,
}
use inspec_thor.Lifecycle.Events.{IsWell}

-- What a function leaves as it is, and what it makes of the rest.
module _ (limit : ℕ) (c : Controller) (wide : 10000 ≤ limit) (well : IsWell limit c) where
  pub tree-IsWell :
      (call : Call)
      → Restorable call
      → IsWell limit (record c { manager = step_tree c.manager call })
  tree-IsWell call restorable = record {
    consistent = step-IsConsistent c.manager call restorable well.consistent;
    sound = well.sound;
    queued = well.queued;
    listened = well.listened;
    watched = well.watched;
  }

  pub monitor-IsWell :
      (s : Step) → import_size s ≤ limit → IsWell limit (record c { etw = step_monitor c.etw s })
  monitor-IsWell s small = record {
    consistent = well.consistent;
    sound = step-IsSound limit c.etw s wide small well.sound;
    queued = well.queued;
    listened = well.listened;
    watched = well.watched;
  }

  pub exits-IsWell :
      (pid now code : ℕ) → IsWell limit (record c { manager = mark_exited pid now code c.manager })
  unfolding step_tree
  exits-IsWell pid now code = tree-IsWell (exits pid now code) tt

  pub reports-IsWell : (pid now code : ℕ) → IsWell limit (on_process_exited pid now code c)
  unfolding on_process_exited
  reports-IsWell pid now code =
      if-elim (IsWell limit) (belongs_to_session pid c.manager) _ c
        (λ belongs. exits-IsWell pid now code) (λ outside. well)

  pub stop_etw-IsWell : IsWell limit (stop_etw_for_ended_target c)
  unfolding stop_etw_for_ended_target step_monitor import_size
  stop_etw-IsWell =
      if-elim (IsWell limit) c.etw.running _ c (λ on. monitor-IsWell ends_session (omega arith))
        (λ off. well)

  pub stop_session-IsWell :
      (now : ℕ) → IsWell limit (record c { manager = stop_session now c.manager })
  unfolding step_tree
  stop_session-IsWell now = tree-IsWell (stops now) tt

  pub add_target-IsWell : (pid : ℕ) → IsWell limit (record c { etw = add_target_process pid c.etw })
  unfolding add_target_process step_monitor import_size
  add_target-IsWell pid =
      if-elim (λ m. IsWell limit (record c { etw = m })) (pid == 0) c.etw _ (λ nought. well)
        (λ given. monitor-IsWell (adds (pid ∷ [])) (omega arith))

  pub observe-IsWell :
      (o : Observation) → IsWell limit (record c { manager = (observe_child o c.manager).0 })
  unfolding step_tree
  observe-IsWell o = tree-IsWell (observes o) tt

  pub run_injection-IsWell :
      (pid : ℕ) (attempts : List (Bool × Text)) → IsWell limit (run_injection pid attempts c)
  unfolding run_injection step_tree
  run_injection-IsWell pid attempts =
      let outcome = inject_attempts 3 attempts (false, []) in
      tree-IsWell (injection_results pid outcome.0 outcome.1) tt

  pub scanner-IsWell : IsWell limit (stop_runtime_string_scanner c)
  unfolding stop_runtime_string_scanner
  scanner-IsWell = record {
    consistent = well.consistent;
    sound = well.sound;
    queued = well.queued;
    listened = well.listened;
    watched = well.watched;
  }

  pub target-IsWell :
      (target : TargetInfo) (state : ProcessRunState)
      → IsWell limit (record c { target = target; run_state = state })
  target-IsWell target state = record {
    consistent = well.consistent;
    sound = well.sound;
    queued = well.queued;
    listened = well.listened;
    watched = well.watched;
  }

  -- One more thread of each kind.
  pub watch_started-IsWell :
      (pid : ℕ) (command_only : Bool)
      → (pid == 0) ≡ false
      → IsWell limit (record c { exit_watches = c.exit_watches ++ (pid, command_only) ∷ [] })
  watch_started-IsWell pid command_only given = record {
    consistent = well.consistent;
    sound = well.sound;
    queued = well.queued;
    listened = well.listened;
    watched = All-append _ c.exit_watches ((pid, command_only) ∷ []) well.watched (given, tt);
  }

  pub listener_started-IsWell :
      (pid : ℕ)
      → (pid == 0) ≡ false
      → IsWell limit (record c { listeners = c.listeners ++ pid ∷ [] })
  listener_started-IsWell pid given = record {
    consistent = well.consistent;
    sound = well.sound;
    queued = well.queued;
    listened = All-append _ c.listeners (pid ∷ []) well.listened (given, tt);
    watched = well.watched;
  }

  pub injection_started-IsWell :
      (pid : ℕ)
      → (pid == 0) ≡ false
      → IsWell limit (record c { injections = c.injections ++ pid ∷ [] })
  injection_started-IsWell pid given = record {
    consistent = well.consistent;
    sound = well.sound;
    queued = All-append _ c.injections (pid ∷ []) well.queued (given, tt);
    listened = well.listened;
    watched = well.watched;
  }
