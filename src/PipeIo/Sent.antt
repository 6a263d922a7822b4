-- ===== src/PipeIo/Sent.antt =====
-- Writing sends exactly the bytes of the message.
use inspec_thor.Prelude.{
  ℕ, zero, suc, ◌≤◌, ◌<◌, ◌≡◌, refl, sym, ap, ◌∙◌, List, [], ◌∷◌, ◌++◌, Option, some, length, take,
  drop, append_assoc, append-nil, length-drop, take-append-drop, arith,
}
use inspec_thor.PipeIo.{chunk_of, write_loop, write_piece, write_pipe_exact}
use inspec_thor.PipeIo.Exact.{chunk-bounds}

-- A pipe to write to: the bytes that have arrived, what a write adds to them, and that a write of some
-- bytes is taken at least in part.
pub record IsSink {ℓ} {Pipe : Type ℓ} (write_file : List ℕ → Pipe → Option (ℕ × Pipe))
    (arrived : Pipe → List ℕ) : Type ℓ where
  pub adds :
      (bytes : List ℕ) (p : Pipe) (n : ℕ) (after : Pipe)
      → write_file bytes p ≡ some (n, after)
      → (n ≤ length bytes) × (arrived after ≡ arrived p ++ take n bytes)
  pub accepts :
      (bytes : List ℕ) (p : Pipe)
      → 0 < length bytes
      → (n : ℕ) × (after : Pipe) × (write_file bytes p ≡ some (suc n, after))

take-take {ℓ} :
    {A : Type ℓ} (n k : ℕ) (xs : List A) → n ≤ length (take k xs) → take n (take k xs) ≡ take n xs
take-take zero k xs h = refl
take-take (suc n) zero xs h = absurd (omega arith)
take-take (suc n) (suc k) [] h = refl
take-take (suc n) (suc k) (x ∷ xs) h = ap (λ ys. x ∷ ys) (take-take n k xs (omega arith))

take-some {ℓ} : {A : Type ℓ} (k : ℕ) (x : A) (xs : List A) → 0 < k → 0 < length (take k (x ∷ xs))
take-some zero x xs h = absurd (omega arith)
take-some (suc k) x xs h = omega arith

module _ {ℓ} {Pipe : Type ℓ} (write_file : List ℕ → Pipe → Option (ℕ × Pipe))
    (arrived : Pipe → List ℕ) (sink : IsSink write_file arrived) where
  write_loop-arrives :
      (fuel : ℕ) (bytes : List ℕ) (p : Pipe)
      → length bytes ≤ fuel
      → (after : Pipe) × (write_loop write_file fuel bytes p ≡ some after)
        × (arrived after ≡ arrived p ++ bytes)
  unfolding write_loop write_piece
  write_loop-arrives fuel [] p enough = (p, refl, sym (append-nil (arrived p)))
  write_loop-arrives zero (b ∷ bytes) p enough = absurd (omega arith)
  write_loop-arrives (suc fuel) (b ∷ bytes) p enough =
      let size = chunk_of (suc (length bytes)) in
      let offered = take size (b ∷ bytes) in
      let (n, next, wrote) =
        sink.accepts offered p (take-some size b bytes (chunk-bounds (length bytes)).1) in
      let (few, added) = sink.adds offered p (suc n) next wrote in
      let (after, same, all) =
        write_loop-arrives fuel (drop (suc n) (b ∷ bytes)) next
          (omega (arith, length-drop n bytes)) in
      (
        after,
        rw wrote same,
        all
            ∙ (ap (λ there. there ++ drop n bytes)
                  (added ∙ ap (λ part. arrived p ++ part) (take-take (suc n) size (b ∷ bytes) few))
                ∙ (append_assoc (arrived p) (take (suc n) (b ∷ bytes)) (drop n bytes)
                    ∙ ap (λ whole. arrived p ++ whole) (take-append-drop (suc n) (b ∷ bytes)))),
      )

-- Into a pipe that takes a part of whatever it is offered, a write succeeds, and the bytes arrive all
-- and in order behind those that had arrived.
pub write_pipe_exact_lem {ℓ} :
    {Pipe : Type ℓ} (write_file : List ℕ → Pipe → Option (ℕ × Pipe)) (arrived : Pipe → List ℕ)
    → IsSink write_file arrived
    → (bytes : List ℕ) (p : Pipe)
    → (after : Pipe) × (write_pipe_exact write_file bytes p ≡ some after)
      × (arrived after ≡ arrived p ++ bytes)
unfolding write_pipe_exact
write_pipe_exact_lem write_file arrived sink bytes p =
    write_loop-arrives write_file arrived sink (length bytes) bytes p (omega arith)
