-- ===== src/RuntimeStrings/Runs.antt =====
-- The loop over runs reaches every run that stands between units that are not shown.
use inspec_thor.Prelude.{
  ℕ, zero, suc, ◌+◌, ◌≤◌, ◌<◌, ◌≡◌, refl, sym, ap, subst, Bool, true, not, List, [], ◌∷◌, ◌++◌,
  length, drop, All, leb, if◌then◌else◌, arith, drop-append, length-append, length-drop,
}
use inspec_thor.RuntimeStrings.Extract.{run_length, advance, scan_runs}

le-advance : (n : ℕ) → n ≤ advance n
unfolding advance
le-advance zero = omega arith
le-advance (suc n) = omega arith

advance_pos : (n : ℕ) → 0 < n → advance n ≡ n
unfolding advance
advance_pos zero h = absurd (omega arith)
advance_pos (suc n) h = refl

advance_grows : (n : ℕ) → 0 < advance n
unfolding advance
advance_grows zero = omega arith
advance_grows (suc n) = omega arith

module _ {U : Type 0} (shows : U → Bool) where
  -- Empty, or the last unit is not shown.
  abbrev pub is_closed : List U → Bool
  is_closed [] = true
  is_closed (u ∷ []) = not (shows u)
  is_closed (u ∷ v ∷ units) = is_closed (v ∷ units)

  -- Empty, or the first unit is not shown.
  abbrev pub is_open : List U → Bool
  is_open [] = true
  is_open (u ∷ units) = not (shows u)

  is_closed-drop :
      (n : ℕ) (units : List U) → is_closed units ≡ true → is_closed (drop n units) ≡ true
  is_closed-drop zero units h = h
  is_closed-drop (suc n) [] h = refl
  is_closed-drop (suc zero) (u ∷ []) h = refl
  is_closed-drop (suc (suc n)) (u ∷ []) h = refl
  is_closed-drop (suc n) (u ∷ v ∷ units) h = is_closed-drop n (v ∷ units) h

  run_length-closed :
      (limit : ℕ) (u : U) (before rest : List U)
      → is_closed (u ∷ before) ≡ true
      → advance (run_length shows limit ((u ∷ before) ++ rest)) ≤ length (u ∷ before)
  unfolding run_length advance
  run_length-closed zero u before rest h = omega arith
  run_length-closed (suc limit) u [] rest h = ground arith
  run_length-closed (suc limit) u (v ∷ before) rest h = ground (
    arith,
    run_length-closed limit v before rest h,
    le-advance (run_length shows limit ((v ∷ before) ++ rest)),
  )

  run_length-whole :
      (limit : ℕ) (run after : List U)
      → All (λ u. shows u ≡ true) run
      → length run ≤ limit
      → is_open after ≡ true
      → run_length shows limit (run ++ after) ≡ length run
  unfolding run_length
  run_length-whole zero [] after shown short opens = refl
  run_length-whole (suc limit) [] [] shown short opens = refl
  run_length-whole (suc limit) [] (u ∷ after) shown short opens = ground arith
  run_length-whole zero (u ∷ run) after shown short opens = absurd (omega arith)
  run_length-whole (suc limit) (u ∷ run) after (first, others) short opens =
      rw first (ap suc (run_length-whole limit run after others (omega arith) opens))

  drop-append-le :
      (n : ℕ) (before rest : List U)
      → n ≤ length before
      → drop n (before ++ rest) ≡ drop n before ++ rest
  drop-append-le zero before rest h = refl
  drop-append-le (suc n) [] rest h = absurd (omega arith)
  drop-append-le (suc n) (u ∷ before) rest h = drop-append-le n before rest (omega arith)

-- The state in which the loop reaches the run, and the call that it makes there.
pub record Reaches {U S : Type 0} (shows : U → Bool) (keep : ℕ → ℕ → List U → S → S) (fuel i : ℕ)
    (before run after : List U) (s : S) : Type 0 where
  pub reached : S
  pub fuel_left : ℕ
  pub enough : length after ≤ fuel_left
  pub calls :
      scan_runs shows keep fuel i (before ++ (run ++ after)) s
      ≡ scan_runs shows keep fuel_left
          (i + length before + length run)
          after
          (keep (i + length before) (length run) (run ++ after) reached)

module _ {U S : Type 0} (shows : U → Bool) (keep : ℕ → ℕ → List U → S → S) (run after : List U)
    (shown : All (λ u. shows u ≡ true) run) (long : 5 ≤ length run) (short : length run ≤ 2048)
    (opens : is_open shows after ≡ true) where
  at_run :
      (fuel i : ℕ) (units : List U) (s : S)
      → units ≡ run ++ after
      → length units ≤ suc fuel
      → scan_runs shows keep (suc fuel) i units s
        ≡ scan_runs shows keep fuel (i + length run) after (keep i (length run) (run ++ after) s)
  unfolding scan_runs
  at_run fuel i [] s e enough = absurd (omega (arith, ap length e, length-append run after))
  at_run fuel i (u ∷ units) s e enough =
      let whole : run_length shows 2048 (u ∷ units) ≡ length run =
        subst (λ us. run_length shows 2048 us ≡ length run) (sym e)
          (run_length-whole shows 2048 run after shown short opens) in
      let kept : leb 5 (length run) ≡ true = ground arith in
      rw (whole, advance_pos (length run) (omega arith), kept, e, drop-append run after) refl

  next_state : ℕ → List U → S → S
  next_state i before s =
      let r = run_length shows 2048 (before ++ (run ++ after)) in
      if leb 5 r then keep i r (before ++ (run ++ after)) s else s

  -- The loop comes to the start of the run, whatever stands before.
  pub reaches :
      (fuel i : ℕ) (before : List U) (s : S)
      → is_closed shows before ≡ true
      → length (before ++ (run ++ after)) ≤ fuel
      → Reaches shows keep fuel i before run after s
  unfolding scan_runs next_state
  reaches zero i before s closes enough =
      absurd (omega (arith, length-append before (run ++ after), length-append run after))
  reaches (suc fuel) i [] s closes enough = record {
    reached = s;
    fuel_left = fuel;
    enough = omega (arith, length-append run after);
    calls =
        subst
          (λ j.
            scan_runs shows keep (suc fuel) i (run ++ after) s
            ≡ scan_runs shows keep fuel (j + length run) after
                (keep j (length run) (run ++ after) s))
          (omega arith) (at_run fuel i (run ++ after) s refl enough);
  }
  reaches (suc fuel) i (u ∷ before) s closes enough =
      let n : ℕ = advance (run_length shows 2048 ((u ∷ before) ++ (run ++ after))) in
      let inside : n ≤ length (u ∷ before) =
        run_length-closed shows 2048 u before (run ++ after) closes in
      let cut : drop n ((u ∷ before) ++ (run ++ after)) ≡ drop n (u ∷ before) ++ (run ++ after) =
        drop-append-le shows n (u ∷ before) (run ++ after) inside in
      let index : i + n + length (drop n (u ∷ before)) ≡ i + length (u ∷ before) =
        omega (arith, length-drop n (u ∷ before)) in
      let later =
        reaches fuel (i + n) (drop n (u ∷ before)) (next_state i (u ∷ before) s)
          (is_closed-drop shows n (u ∷ before) closes)
          (omega (
            arith,
            length-append (drop n (u ∷ before)) (run ++ after),
            length-drop n (u ∷ before),
            length-append (u ∷ before) (run ++ after),
            inside,
            advance_grows (run_length shows 2048 ((u ∷ before) ++ (run ++ after))),
          )) in
      let there = λ (j : ℕ).
        scan_runs shows keep later.fuel_left (j + length run) after
          (keep j (length run) (run ++ after) later.reached) in
      record {
        reached = later.reached;
        fuel_left = later.fuel_left;
        enough = later.enough;
        calls =
            subst
              (λ us.
                scan_runs shows keep fuel (i + n) us (next_state i (u ∷ before) s)
                ≡ there (i + length (u ∷ before)))
              (sym cut)
              (subst
                (λ j.
                  scan_runs shows keep fuel (i + n) (drop n (u ∷ before) ++ (run ++ after))
                    (next_state i (u ∷ before) s)
                  ≡ there j)
                index later.calls);
      }
