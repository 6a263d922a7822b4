-- ===== src/Etw/Monitor/Retention.antt =====
-- Which events are kept: the trim at ten thousand, and pruning when targets are added.
use inspec_thor.Prelude.{
  ℕ, zero, suc, ◌≤◌, ◌<◌, ◌≡◌, refl, sym, ap, ◌∙◌, ◌⊎◌, inl, inr, Bool, true, false, not, ◌&&◌,
  ◌||◌, List, [], ◌∷◌, is_empty, ◌++◌, any, keep_if, length, drop, ltb, ◌==◌, if◌then◌else◌, PidSet,
  has_pid, has-insert, insert_pid, length-append, length-drop, Bool-cases, arith,
}
use inspec_thor.Etw.Event.{EtwKernelEvent}
use inspec_thor.Etw.Monitor.{
  Monitor, has_targets, is_of_target, add_target_processes, insert_targets, settle_targets,
  prune_events_for_targets, append_event,
}

drop-snoc {ℓ} :
    {A : Type ℓ} (n : ℕ) (xs : List A) (x : A)
    → n ≤ length xs
    → drop n (xs ++ x ∷ []) ≡ drop n xs ++ x ∷ []
drop-snoc zero xs x h = refl
drop-snoc (suc n) [] x h = absurd (omega arith)
drop-snoc (suc n) (y ∷ xs) x h = drop-snoc n xs x (omega arith)

-- A kept event goes behind all the others, of which only up to a thousand of the oldest are lost;
-- beyond ten thousand events the list gets shorter.
pub append_event_lem :
    (ev : EtwKernelEvent) (m : Monitor)
    → (n : ℕ) × (n ≤ 1000)
      × ((append_event ev m).events ≡ drop n m.events ++ ev ∷ [])
      × ((length (append_event ev m).events ≤ 10000)
          ⊎ (length (append_event ev m).events < length m.events))
unfolding append_event
append_event_lem ev m = elim (Bool-cases (ltb 10000 (length (m.events ++ ev ∷ [])))) [
  | inl long ↦ (
    1000,
    omega arith,
    rw long (drop-snoc 1000 m.events ev (ground (arith, length-append m.events (ev ∷ [])))),
    rw long (
        inr (
          ground
            (arith, length-append m.events (ev ∷ []), length-drop 1000 (m.events ++ ev ∷ [])))),
  )
  | inr short ↦ (0, omega arith, rw short refl, rw short (inl (ground arith)))
]

pub append_event-size :
    (ev : EtwKernelEvent) (m : Monitor)
    → (length (append_event ev m).events ≤ 10000)
      ⊎ (length (append_event ev m).events < length m.events)
append_event-size ev m = let (n, few, kept, size) = append_event_lem ev m in size

-- A pid that is none of the targets yet, and not 0.
unfoldable pub is_new_target : PidSet → ℕ → Bool
is_new_target set pid = not (pid == 0) && not (has_pid pid set)

has-insert_targets :
    (q : ℕ) (pids : List ℕ) (set : PidSet) (added : Bool)
    → has_pid q (insert_targets pids set added).0
      ≡ (has_pid q set || (not (q == 0) && has_pid q pids))
unfolding insert_targets has_pid
has-insert_targets q [] set added = ground arith
has-insert_targets q (pid ∷ pids) set added = elim (Bool-cases (pid == 0)) [
  | inl nought ↦ rw nought (ground (arith, has-insert_targets q pids set added))
  | inr other ↦ rw other (
      ground (
        arith,
        has-insert_targets q pids (insert_pid pid set) (not (has_pid pid set) || added),
        has-insert q pid set,
      ))
]

pub insert_known : (pid : ℕ) (set : PidSet) → has_pid pid set ≡ true → insert_pid pid set ≡ set
unfolding insert_pid
insert_known pid set known = rw known refl

added_stays : (pids : List ℕ) (set : PidSet) → (insert_targets pids set true).1 ≡ true
unfolding insert_targets
added_stays [] set = refl
added_stays (pid ∷ pids) set = elim (Bool-cases (pid == 0)) [
  | inl nought ↦ rw nought (added_stays pids set)
  | inr other ↦ rw other (elim (Bool-cases (has_pid pid set)) [
    | inl known ↦ rw known (added_stays pids (insert_pid pid set))
    | inr fresh ↦ rw fresh (added_stays pids (insert_pid pid set))
  ])
]

-- Whether a target was added, and if not, that the set is what it was.
added_iff :
    (pids : List ℕ) (set : PidSet)
    → (insert_targets pids set false).1 ≡ any (is_new_target set) pids
unfolding insert_targets is_new_target
added_iff [] set = refl
added_iff (pid ∷ pids) set = elim (Bool-cases (pid == 0)) [
  | inl nought ↦ rw nought (added_iff pids set)
  | inr other ↦ rw other (elim (Bool-cases (has_pid pid set)) [
    | inl known ↦ rw (insert_known pid set known, known) (added_iff pids set)
    | inr fresh ↦ rw fresh (added_stays pids (insert_pid pid set))
  ])
]

insert_none_new :
    (pids : List ℕ) (set : PidSet) (added : Bool)
    → any (is_new_target set) pids ≡ false
    → (insert_targets pids set added).0 ≡ set
unfolding insert_targets is_new_target
insert_none_new [] set added old = refl
insert_none_new (pid ∷ pids) set added old = elim (Bool-cases (pid == 0)) [
  | inl nought ↦ rw nought (insert_none_new pids set added (ground arith))
  | inr other ↦
      rw (other, insert_known pid set (ground arith)) (insert_none_new pids set _ (ground arith))
]

insert-nonempty : (pid : ℕ) (set : PidSet) → is_empty (insert_pid pid set) ≡ false
unfolding insert_pid has_pid
insert-nonempty pid [] = refl
insert-nonempty pid (q ∷ set) = ground arith

targets_nonempty :
    (pids : List ℕ) (set : PidSet) (added : Bool)
    → is_empty set ≡ false
    → is_empty (insert_targets pids set added).0 ≡ false
unfolding insert_targets
targets_nonempty [] set added h = h
targets_nonempty (pid ∷ pids) set added h = elim (Bool-cases (pid == 0)) [
  | inl nought ↦ rw nought (targets_nonempty pids set added h)
  | inr other ↦ rw other (targets_nonempty pids (insert_pid pid set) _ (insert-nonempty pid set))
]

new-nonempty :
    (pids : List ℕ) (set : PidSet) (added : Bool)
    → any (is_new_target set) pids ≡ true
    → is_empty (insert_targets pids set added).0 ≡ false
unfolding insert_targets is_new_target
new-nonempty [] set added new = cc
new-nonempty (pid ∷ pids) set added new = elim (Bool-cases (pid == 0)) [
  | inl nought ↦ rw nought (new-nonempty pids set added (ground arith))
  | inr other ↦ rw other (targets_nonempty pids (insert_pid pid set) _ (insert-nonempty pid set))
]

-- The monitor m has the given targets, and of the given events those of its targets.
HasPruned : PidSet → List EtwKernelEvent → Monitor → Type 0
HasPruned set events m =
    (m.target_pids ≡ set) × (m.events ≡ keep_if (is_of_target m.target_pids) events)

settle_new :
    (m : Monitor) (outcome : PidSet × Bool)
    → outcome.1 ≡ true
    → is_empty outcome.0 ≡ false
    → HasPruned outcome.0 m.events (settle_targets m outcome)
unfolding settle_targets prune_events_for_targets has_targets HasPruned
settle_new m (set, false) new h = cc
settle_new m (set, true) new h = rw h (refl, refl)

settle_old :
    (m : Monitor) (outcome : PidSet × Bool) → outcome.1 ≡ false → settle_targets m outcome ≡ m
unfolding settle_targets
settle_old m (set, false) old = refl
settle_old m (set, true) old = cc

-- After targets are added, the targets are the old ones and the given pids but 0; and if one of
-- them is new, the events are those of targets, in their order, or else all the events that were.
pub add_target_processes_lem :
    (q : ℕ) (pids : List ℕ) (m : Monitor)
    → (has_pid q (add_target_processes pids m).target_pids
        ≡ (has_pid q m.target_pids || (not (q == 0) && has_pid q pids)))
      × ((add_target_processes pids m).events ≡ (
          if any (is_new_target m.target_pids) pids
          then keep_if (is_of_target (add_target_processes pids m).target_pids) m.events
          else m.events))
unfolding add_target_processes HasPruned
add_target_processes_lem q pids m =
    let outcome = insert_targets pids m.target_pids false in
    let known = has-insert_targets q pids m.target_pids false in
    elim (Bool-cases (any (is_new_target m.target_pids) pids)) [
      | inl new ↦
          let (targets, events) =
            settle_new m outcome (added_iff pids m.target_pids ∙ new)
              (new-nonempty pids m.target_pids false new) in
          (ap (has_pid q) targets ∙ known, rw new events)
      | inr old ↦
          let same = settle_old m outcome (added_iff pids m.target_pids ∙ old) in
          let set = insert_none_new pids m.target_pids false old in
          (
            ap (λ n. has_pid q n.target_pids) same ∙ (ap (has_pid q) (sym set) ∙ known),
            rw old (ap (λ n. n.events) same),
          )
    ]
