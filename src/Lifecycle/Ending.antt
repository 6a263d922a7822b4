-- ===== src/Lifecycle/Ending.antt =====
-- What one run of an exit watch does when the last process of the session exits.
use inspec_thor.Prelude.{
  ℕ, true, false, not, ◌&&◌, ◌≡◌, refl, ap, ◌∙◌, Option, ◌==◌, Bool-cases, inl, inr, arith,
}
use inspec_thor.ProcessTree.Manager.{stop_session, mark_exited, has_live_processes}
use inspec_thor.Etw.Monitor.{stop_etw_kernel_telemetry}
use inspec_thor.Lifecycle.{
  Controller, TargetInfo, empty_target, stop_etw_for_ended_target, stop_runtime_string_scanner,
  end_analysis, lose_target, set_target_process, ended, waited_exit_code, end_target, is_over,
  note_exit, watch_session_process_exit,
}

stop_etw-running : (c : Controller) → (stop_etw_for_ended_target c).etw.running ≡ false
unfolding stop_etw_for_ended_target stop_etw_kernel_telemetry
stop_etw-running c = ground arith

stop_etw-manager : (c : Controller) → (stop_etw_for_ended_target c).manager ≡ c.manager
unfolding stop_etw_for_ended_target
stop_etw-manager c = ground arith

stop_etw-target : (c : Controller) → (stop_etw_for_ended_target c).target ≡ c.target
unfolding stop_etw_for_ended_target
stop_etw-target c = ground arith

-- The session is over: it is inactive, its events are no longer traced and there is no target.
pub record IsEnded (c : Controller) : Type 0 where
  pub session : c.manager.session.active ≡ false
  pub etw : c.etw.running ≡ false
  pub target : c.target.active ≡ false

end_analysis-IsEnded :
    (now : ℕ) (c : Controller) → c.target.active ≡ false → IsEnded (end_analysis now c)
unfolding end_analysis stop_session
end_analysis-IsEnded now c inactive = record {
  session = refl;
  etw = stop_etw-running c;
  target = ap (λ (t : TargetInfo). t.active) (stop_etw-target c) ∙ inactive;
}

end_analysis-live :
    (now : ℕ) (c : Controller)
    → has_live_processes (end_analysis now c).manager ≡ has_live_processes c.manager
unfolding end_analysis stop_session has_live_processes
end_analysis-live now c = ap has_live_processes (stop_etw-manager c)

-- The target is given up where its process has exited.
lose_target-inactive :
    (now : ℕ) (c : Controller) → c.target.active ≡ false → (lose_target now c).target.active ≡ false
unfolding lose_target stop_runtime_string_scanner
lose_target-inactive now c inactive = elim (Bool-cases (has_live_processes c.manager)) [
  | inl live ↦ rw live inactive
  | inr over ↦ rw over ((end_analysis-IsEnded now (stop_runtime_string_scanner c) inactive).target)
]

lose_target-live :
    (now : ℕ) (c : Controller)
    → has_live_processes (lose_target now c).manager ≡ has_live_processes c.manager
unfolding lose_target stop_runtime_string_scanner
lose_target-live now c = elim (Bool-cases (has_live_processes c.manager)) [
  | inl live ↦ rw live live
  | inr over ↦ rw over (end_analysis-live now (stop_runtime_string_scanner c) ∙ over)
]

-- No target, and no live process.
abbrev IsGone : Controller → Type 0
IsGone c = (c.target.active ≡ false) × (has_live_processes c.manager ≡ false)

IsGone-over : (c : Controller) → IsGone c → is_over c ≡ true
unfolding is_over
IsGone-over c (inactive, last) = rw (inactive, last) refl

set_empty-IsGone :
    (now : ℕ) (c : Controller)
    → c.target.active ≡ true
    → has_live_processes c.manager ≡ false
    → IsGone (set_target_process empty_target now c)
unfolding set_target_process
set_empty-IsGone now c active last =
    rw active (lose_target-inactive now _ refl, lose_target-live now _ ∙ last)

end_target-IsGone :
    (pid now : ℕ) (c : Controller)
    → has_live_processes c.manager ≡ false
    → (c.target.active && not (c.target.pid == pid)) ≡ false
    → IsGone (end_target pid now c)
unfolding end_target
end_target-IsGone pid now c last own = elim (Bool-cases (c.target.active && c.target.pid == pid)) [
  | inl here ↦ rw here (set_empty-IsGone now c (ground arith) last)
  | inr elsewhere ↦ rw elsewhere (ground arith, last)
]

-- The last process exits, and the target was no other process.
module _ (pid now code : ℕ) (c : Controller)
    (last : has_live_processes (mark_exited pid now code c.manager) ≡ false)
    (own : (c.target.active && not (c.target.pid == pid)) ≡ false) where
  note_exit-IsGone : IsGone (note_exit pid now code c)
  unfolding note_exit
  note_exit-IsGone =
      end_target-IsGone pid now (record c { manager = mark_exited pid now code c.manager }) last own

-- Where the watched process was the last one and no other process is the target, the exit, handled
-- with no other thread in between, ends the session: it becomes inactive, ETW stops and there is no
-- target.
pub watch-IsEnded :
    (pid now : ℕ) (code : Option ℕ) (c : Controller)
    → has_live_processes (mark_exited pid now (waited_exit_code code) c.manager) ≡ false
    → (c.target.active && not (c.target.pid == pid)) ≡ false
    → IsEnded (watch_session_process_exit pid (ended code) now c)
unfolding watch_session_process_exit
watch-IsEnded pid now code c last own =
    let gone = note_exit-IsGone pid now (waited_exit_code code) c last own in
    rw (IsGone-over (note_exit pid now (waited_exit_code code) c) gone)
      (end_analysis-IsEnded now (note_exit pid now (waited_exit_code code) c) gone.0)
