-- ===== src/ProcessTree/Steps.antt =====
-- Any sequence of calls of the manager, from any thread: its mutex makes each call one step.
use inspec_thor.Prelude.{ℕ, Bool, List, [], ◌∷◌, Text}
use inspec_thor.TargetResolver.Profile.{TargetProfile}
use inspec_thor.ProcessTree.Session.{AnalysisSession}
use inspec_thor.ProcessTree.Manager.{
  Manager, begin_session, reset, stop_session, restore, register_root, mark_injection_result,
  mark_exited, mark_exit_watch_started,
}
use inspec_thor.ProcessTree.Observe.{Observation, observe_child}

pub data Call : Type 0 where
  begins : Text → Text → TargetProfile → ℕ → Call
  resets : Call
  stops : ℕ → Call
  restores : AnalysisSession → Call
  registers : ℕ → Text → Text → ℕ → Bool → Bool → Call
  observes : Observation → Call
  injection_results : ℕ → Bool → Text → Call
  exits : ℕ → ℕ → ℕ → Call
  watches : ℕ → Call

unfoldable pub step : Manager → Call → Manager
step m (begins path type profile now) = begin_session path type profile now m
step m resets = reset m
step m (stops time) = stop_session time m
step m (restores session) = restore session m
step m (registers pid image command time launcher instrumented) =
    register_root pid image command time launcher instrumented m
step m (observes o) = (observe_child o m).0
step m (injection_results pid injected diagnostic) = mark_injection_result pid injected diagnostic m
step m (exits pid time code) = mark_exited pid time code m
step m (watches pid) = mark_exit_watch_started pid m

unfoldable pub run : Manager → List Call → Manager
run m [] = m
run m (c ∷ cs) = run (step m c) cs
