-- ===== src/Etw/Monitor/Lifetime.antt =====
-- Starting and stopping: when a new thread can take the place of the old one.
use inspec_thor.Prelude.{
  ℕ, zero, suc, ◌≡◌, Bool, true, false, not, ◌&&◌, Option, none, some, refl, ◌∙◌, arith,
}
use inspec_thor.Etw.Monitor.{
  Monitor, StartAnswer, allocation_failed, started, already_exists, access_denied, start_failed,
  fail_start, start_session, start_etw_kernel_telemetry, TraceAnswer, open_failed, processed,
  end_thread, stop_etw_kernel_telemetry,
}
use inspec_thor.Etw.Monitor.Steps.{started_monitor}

unfoldable pub stop_times : ℕ → Monitor → Monitor
stop_times zero m = m
stop_times (suc n) m = stop_times n (stop_etw_kernel_telemetry m)

-- The thread goes on until it is stopped, or it has ended by itself.
unfoldable pub run_thread : Option TraceAnswer → Monitor → Monitor
run_thread none m = m
run_thread (some answer) m = end_thread answer m

unfoldable pub is_open_failure : Option TraceAnswer → Bool
is_open_failure (some (open_failed code)) = true
is_open_failure other = false

-- std::terminate was called.
unfoldable pub has_terminated : Option (Monitor × Bool) → Bool
has_terminated none = true
has_terminated (some outcome) = false

stop_idle :
    (m : Monitor) → (not m.running && not m.session_open) ≡ true → stop_etw_kernel_telemetry m ≡ m
unfolding stop_etw_kernel_telemetry
stop_idle m idle = rw idle refl

stop_closed :
    (n : ℕ) (m : Monitor) → (not m.running && not m.session_open) ≡ true → stop_times n m ≡ m
unfolding stop_times
stop_closed zero m idle = refl
stop_closed (suc n) m idle = rw (stop_idle m idle) (stop_closed n m idle)

stop_then_closed :
    (m : Monitor)
    → (not (stop_etw_kernel_telemetry m).running && not (stop_etw_kernel_telemetry m).session_open)
      ≡ true
unfolding stop_etw_kernel_telemetry
stop_then_closed m = ground arith

-- Any number of stops but none does what one does.
stop_again : (n : ℕ) (m : Monitor) → stop_times (suc n) m ≡ stop_etw_kernel_telemetry m
unfolding stop_times
stop_again n m = stop_closed n (stop_etw_kernel_telemetry m) (stop_then_closed m)

-- The state that a successful start leaves.
started_state :
    (before m : Monitor)
    → before.running ≡ false
    → start_etw_kernel_telemetry started before ≡ some (m, true)
    → (m.running ≡ true) × (m.session_open ≡ true) × (m.thread_joinable ≡ true)
unfolding start_etw_kernel_telemetry start_session
started_state before m idle begun = ground arith

start_after_stop :
    (m : Monitor) (ended : Option TraceAnswer)
    → m.running ≡ true
    → m.session_open ≡ true
    → m.thread_joinable ≡ true
    → has_terminated
        (start_etw_kernel_telemetry started (stop_etw_kernel_telemetry (run_thread ended m)))
      ≡ is_open_failure ended
unfolding has_terminated is_open_failure run_thread end_thread stop_etw_kernel_telemetry
    start_etw_kernel_telemetry start_session
start_after_stop m none on opened joinable = rw on refl
start_after_stop m (some (open_failed code)) on opened joinable = rw joinable refl
start_after_stop m (some (processed code)) on opened joinable = rw opened refl

-- After a successful start, a Stop or several, and a second start whose StartTrace succeeds, the
-- program has ended exactly where OpenTrace failed on the first thread. Where that thread was still
-- running, or its ProcessTrace had returned with any status, the second start works.
pub restart-terminates :
    (before m : Monitor) (ended : Option TraceAnswer) (n : ℕ)
    → before.running ≡ false
    → start_etw_kernel_telemetry started before ≡ some (m, true)
    → has_terminated (start_etw_kernel_telemetry started (stop_times (suc n) (run_thread ended m)))
      ≡ is_open_failure ended
restart-terminates before m ended n idle begun =
    let (on, opened, joinable) = started_state before m idle begun in
    rw (stop_again n (run_thread ended m)) (start_after_stop m ended on opened joinable)

-- StartTraceW refuses, with whatever code.
unfoldable pub is_refusal : StartAnswer → Bool
is_refusal started = false
is_refusal allocation_failed = false
is_refusal other = true

start_joinable :
    (m : Monitor)
    → m.running ≡ false
    → m.thread_joinable ≡ true
    → has_terminated (start_etw_kernel_telemetry started m) ≡ true
unfolding has_terminated start_etw_kernel_telemetry start_session
start_joinable m idle joinable = rw (idle, joinable) refl

-- A refused start of a monitor that does not run leaves it closed, with the thread it had.
refused_state :
    (m : Monitor) (answer : StartAnswer)
    → m.running ≡ false
    → is_refusal answer ≡ true
    → (let after = started_monitor m (start_etw_kernel_telemetry answer m) in
        (after.running ≡ false)
        × (after.session_open ≡ false)
        × (after.thread_joinable ≡ m.thread_joinable))
unfolding start_etw_kernel_telemetry start_session started_monitor fail_start is_refusal
refused_state m allocation_failed idle refused = cc
refused_state m started idle refused = cc
refused_state m already_exists idle refused = rw idle (refl, refl, refl)
refused_state m access_denied idle refused = rw idle (refl, refl, refl)
refused_state m (start_failed code) idle refused = rw idle (refl, refl, refl)

-- Where ProcessTrace has returned by itself and StartTrace then refuses a second start, any number of
-- stops does nothing, and the next start whose StartTrace succeeds ends the program.
pub refused_start-terminates :
    (before m : Monitor) (code n : ℕ) (answer : StartAnswer)
    → before.running ≡ false
    → start_etw_kernel_telemetry started before ≡ some (m, true)
    → is_refusal answer ≡ true
    → (let finished = end_thread (processed code) m in
        let refused = started_monitor finished (start_etw_kernel_telemetry answer finished) in
        (stop_times n refused ≡ refused)
        × (has_terminated (start_etw_kernel_telemetry started (stop_times n refused)) ≡ true))
unfolding end_thread
refused_start-terminates before m code n answer idle begun refusal =
    let (on, opened, joinable) = started_state before m idle begun in
    let finished = end_thread (processed code) m in
    let refused = started_monitor finished (start_etw_kernel_telemetry answer finished) in
    let (off, closed, thread) = refused_state finished answer refl refusal in
    let stopped : stop_times n refused ≡ refused = stop_closed n refused (rw (off, closed) refl) in
    (stopped, rw stopped (start_joinable refused off (thread ∙ joinable)))
