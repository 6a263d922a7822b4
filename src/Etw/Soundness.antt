-- ===== src/Etw/Soundness.antt =====
-- The callback among the monitor's other calls.
use inspec_thor.Prelude.{ℕ, ◌≤◌, Bool-cases, inl, inr, List, Text, All}
use inspec_thor.Etw.Event.{EventRecord}
use inspec_thor.Etw.Monitor.{Monitor, new_monitor}
use inspec_thor.Etw.Monitor.Steps.{
  Step, run, import_size, IsSound, new-IsSound, append-IsSound, steps-IsSound,
}
use inspec_thor.Etw.Callback.{etw_record_callback, recorded_event, passes_gate, keeps_event}

-- The callback keeps the monitor sound, whatever other calls run while it has let go of the mutex.
callback-IsSound :
    (utf8 : Text → Text) (limit : ℕ) (m : Monitor) (notified other : List Step) (r : EventRecord)
    → 10000 ≤ limit
    → All (λ s. import_size s ≤ limit) notified
    → All (λ s. import_size s ≤ limit) other
    → IsSound limit m
    → IsSound limit (etw_record_callback utf8 (λ n. run n notified) (λ n. run n other) r m).0
unfolding etw_record_callback
callback-IsSound utf8 limit m notified other r wide few fewer sound =
    let later = steps-IsSound limit m notified wide few sound in
    let latest = steps-IsSound limit (run m notified) other wide fewer later in
    elim (Bool-cases (passes_gate utf8 r m)) [
      | inl passes ↦ rw passes (elim (Bool-cases (keeps_event utf8 r (run m notified))) [
        | inl keeps ↦ rw keeps (append-IsSound limit (recorded_event utf8 r) _ wide latest)
        | inr drops ↦ rw drops latest
      ])
      | inr refused ↦ rw refused sound
    ]

-- After any calls from the start, and a callback that any other calls run into, no more events are
-- held than the limit, no target has pid 0, no event is kept for want of a target while there is
-- one, and a running monitor has a thread to join, where Start and Stop are one run each. The limit
-- is 10000, or the size of the largest import where that is more.
pub monitor-IsSound :
    (utf8 : Text → Text) (limit : ℕ) (before notified other : List Step) (r : EventRecord)
    → 10000 ≤ limit
    → All (λ s. import_size s ≤ limit) before
    → All (λ s. import_size s ≤ limit) notified
    → All (λ s. import_size s ≤ limit) other
    → IsSound limit
        (etw_record_callback utf8
          (λ n. run n notified)
          (λ n. run n other)
          r
          (run new_monitor before)).0
monitor-IsSound utf8 limit before notified other r wide small few fewer =
    callback-IsSound utf8 limit (run new_monitor before) notified other r wide few fewer
      (steps-IsSound limit new_monitor before wide small (new-IsSound limit))
