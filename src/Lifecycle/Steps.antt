-- ===== src/Lifecycle/Steps.antt =====
-- Every event keeps the controller well.
use inspec_thor.Prelude.{
  ℕ, ◌≤◌, Bool, false, not, ◌&&◌, ◌||◌, ◌≡◌, List, [], ◌∷◌, ◌++◌, Option, Text, All, ◌==◌,
  if◌then◌else◌, if-elim, arith,
}
use inspec_thor.ProcessTree.Session.{ChildObservationResult}
use inspec_thor.ProcessTree.Manager.{has_live_processes}
use inspec_thor.ProcessTree.Observe.{Observation, observe_child}
use inspec_thor.Etw.Monitor.{add_target_process}
use inspec_thor.Lifecycle.{
  Controller, TargetInfo, empty_target, process_aborted, store_target, store_run_state,
  after_stores, stop_etw_for_ended_target, stop_runtime_string_scanner, end_analysis, lose_target,
  set_target_process, ExitAnswer, unopened, ended, waited_exit_code, end_target, is_over, note_exit,
  watch_session_process_exit, queue_child_process_instrumentation, resolve_live_process_image_path,
  react, react_to, on_child_process_spawned,
}
use inspec_thor.Lifecycle.Events.{
  Event, calls_tree, calls_monitor, spawns, reports_exit, watch_ends, queues, injects, sets_target,
  stores_target, stores_run_state, goes_on, stops_scanner, stops_etw, handle, handle_all, IsWell,
  Allowed,
}
use inspec_thor.Lifecycle.Kept.{
  tree-IsWell, monitor-IsWell, exits-IsWell, reports-IsWell, stop_etw-IsWell, stop_session-IsWell,
  add_target-IsWell, observe-IsWell, run_injection-IsWell, scanner-IsWell, target-IsWell,
  watch_started-IsWell, listener_started-IsWell, injection_started-IsWell,
}

module _ (limit : ℕ) (wide : 10000 ≤ limit) where
  end_analysis-IsWell :
      (now : ℕ) (c : Controller) → IsWell limit c → IsWell limit (end_analysis now c)
  unfolding end_analysis
  end_analysis-IsWell now c well =
      stop_session-IsWell limit (stop_etw_for_ended_target c) wide
        (stop_etw-IsWell limit c wide well) now

  lose_target-IsWell :
      (now : ℕ) (c : Controller) → IsWell limit c → IsWell limit (lose_target now c)
  unfolding lose_target
  lose_target-IsWell now c well =
      let quiet = scanner-IsWell limit c wide well in
      if-elim (IsWell limit) (has_live_processes c.manager) _ _ (λ live. quiet)
        (λ over. end_analysis-IsWell now (stop_runtime_string_scanner c) quiet)

  store_target-IsWell :
      (info : TargetInfo) (c : Controller) → IsWell limit c → IsWell limit (store_target info c)
  unfolding store_target
  store_target-IsWell info c well =
      let kept = target-IsWell limit c wide well in
      if-elim (IsWell limit) info.active _ _ (λ on. kept info c.run_state)
        (λ off. kept (record (c.target) { active = false }) c.run_state)

  store_run_state-IsWell :
      (info : TargetInfo) (previous_pid : ℕ) (c : Controller)
      → IsWell limit c
      → IsWell limit (store_run_state info previous_pid c)
  unfolding store_run_state
  store_run_state-IsWell info previous_pid c well = target-IsWell limit c wide well c.target _

  after_stores-IsWell :
      (info : TargetInfo) (was_active : Bool) (now : ℕ) (c : Controller)
      → IsWell limit c
      → IsWell limit (after_stores info was_active now c)
  unfolding after_stores
  after_stores-IsWell info was_active now c well =
      if-elim (IsWell limit) (was_active && not info.active) _ c
        (λ lost. lose_target-IsWell now c well) (λ kept. well)

  set_target-IsWell :
      (info : TargetInfo) (now : ℕ) (c : Controller)
      → IsWell limit c
      → IsWell limit (set_target_process info now c)
  unfolding set_target_process
  set_target-IsWell info now c well =
      after_stores-IsWell info c.target.active now _
        (store_run_state-IsWell info c.target.pid _ (store_target-IsWell info c well))

  note_exit-IsWell :
      (pid now code : ℕ) (c : Controller) → IsWell limit c → IsWell limit (note_exit pid now code c)
  unfolding note_exit end_target
  note_exit-IsWell pid now code c well =
      let marked = exits-IsWell limit c wide well pid now code in
      if-elim (IsWell limit) (c.target.active && c.target.pid == pid) _ _
        (λ own. set_target-IsWell empty_target now _ marked) (λ foreign. marked)

  watch-IsWell :
      (pid now : ℕ) (answer : ExitAnswer) (c : Controller)
      → IsWell limit c
      → IsWell limit (watch_session_process_exit pid answer now c)
  unfolding watch_session_process_exit
  watch-IsWell pid now unopened c well =
      let noted = note_exit-IsWell pid now process_aborted c well in
      if-elim (IsWell limit) (is_over (note_exit pid now process_aborted c)) _ _
        (λ over. stop_etw-IsWell limit (note_exit pid now process_aborted c) wide noted)
        (λ more. noted)
  watch-IsWell pid now (ended code) c well =
      let noted = note_exit-IsWell pid now (waited_exit_code code) c well in
      if-elim (IsWell limit) (is_over (note_exit pid now (waited_exit_code code) c)) _ _
        (λ over. end_analysis-IsWell now (note_exit pid now (waited_exit_code code) c) noted)
        (λ more. noted)

  listen-IsWell :
      (pid : ℕ) (c : Controller) (instrumented : Bool)
      → (pid == 0) ≡ false
      → IsWell limit c
      → IsWell limit
          (record c { listeners = (if instrumented then c.listeners else c.listeners ++ pid ∷ []) })
  listen-IsWell pid c instrumented given well =
      if-elim (λ pids. IsWell limit (record c { listeners = pids })) instrumented _ _ (λ yes. well)
        (λ no. listener_started-IsWell limit c wide well pid given)

  queue-IsWell :
      (pid : ℕ) (c : Controller)
      → IsWell limit c
      → IsWell limit (queue_child_process_instrumentation pid c)
  unfolding queue_child_process_instrumentation
  queue-IsWell pid c well =
      if-elim (IsWell limit) (pid == 0 || pid == c.target.pid) _ _ (λ passed. well)
        (λ queued.
          let given : (pid == 0) ≡ false = ground arith in
          let added = add_target-IsWell limit c wide well pid in
          injection_started-IsWell limit _ wide (listen-IsWell pid _ _ given added) pid given)

  react-IsWell :
      (pid : ℕ) (r : ChildObservationResult) (c : Controller)
      → (pid == 0) ≡ false
      → IsWell limit c
      → IsWell limit (react pid r c)
  unfolding react
  react-IsWell pid r c given well =
      let added = add_target-IsWell limit c wide well pid in
      let watched =
        if-elim
          (λ watches.
            IsWell limit (record c { etw = add_target_process pid c.etw; exit_watches = watches }))
          r.start_exit_watch _ _ (λ starts. watch_started-IsWell limit _ wide added pid _ given)
          (λ runs. added) in
      if-elim (IsWell limit) r.queue_injection _ _ (λ queued. queue-IsWell pid _ watched)
        (λ not_queued. watched)

  spawned-IsWell :
      (o : Observation) (live : Option Text) (c : Controller)
      → IsWell limit c
      → IsWell limit (on_child_process_spawned o live c)
  unfolding on_child_process_spawned react_to
  spawned-IsWell o live c well =
      let resolved = record o {
        image_path = resolve_live_process_image_path o.host o.image_path live;
      } in
      let seen = observe-IsWell limit c wide well resolved in
      let r = observe_child resolved c.manager in
      if-elim (IsWell limit) (o.child_pid == 0 || o.parent_pid == 0 || o.child_pid == o.own_pid) c _
        (λ passed. well)
        (λ heard.
          if-elim (IsWell limit) r.1.belongs_to_session _ _
            (λ belongs. react-IsWell o.child_pid r.1 _ (ground arith) seen) (λ outside. seen))

  handle-IsWell :
      (c : Controller) (e : Event) → Allowed limit e → IsWell limit c → IsWell limit (handle c e)
  unfolding handle
  handle-IsWell c (calls_tree call) allowed well = tree-IsWell limit c wide well call allowed
  handle-IsWell c (calls_monitor s) allowed well = monitor-IsWell limit c wide well s allowed
  handle-IsWell c (spawns o live) allowed well = spawned-IsWell o live c well
  handle-IsWell c (reports_exit pid now code) allowed well =
      reports-IsWell limit c wide well pid now code
  handle-IsWell c (watch_ends pid answer now) allowed well = watch-IsWell pid now answer c well
  handle-IsWell c (queues pid) allowed well = queue-IsWell pid c well
  handle-IsWell c (injects pid attempts) allowed well =
      run_injection-IsWell limit c wide well pid attempts
  handle-IsWell c (sets_target info now) allowed well = set_target-IsWell info now c well
  handle-IsWell c (stores_target info) allowed well = store_target-IsWell info c well
  handle-IsWell c (stores_run_state info previous_pid) allowed well =
      store_run_state-IsWell info previous_pid c well
  handle-IsWell c (goes_on info was_active now) allowed well =
      after_stores-IsWell info was_active now c well
  handle-IsWell c stops_scanner allowed well = scanner-IsWell limit c wide well
  handle-IsWell c stops_etw allowed well = stop_etw-IsWell limit c wide well

-- Through any sequence of session functions, of the stores of SetTargetProcess on their own with any
-- values read before, and of calls of the process tree and the monitor, the tree stays consistent and
-- the monitor sound, and no thread is started to inject into pid 0, to wait for it or to listen for
-- it, where restored sessions were consistent and imports no larger than the limit, which is 10000
-- or more.
pub handle_all-IsWell :
    (limit : ℕ) (c : Controller) (events : List Event)
    → 10000 ≤ limit
    → All (Allowed limit) events
    → IsWell limit c
    → IsWell limit (handle_all c events)
unfolding handle_all
handle_all-IsWell limit c [] wide allowed well = well
handle_all-IsWell limit c (e ∷ events) wide (first, others) well =
    handle_all-IsWell limit (handle c e) events wide others
      (handle-IsWell limit wide c e first well)
