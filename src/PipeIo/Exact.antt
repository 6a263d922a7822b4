-- ===== src/PipeIo/Exact.antt =====
-- Reading returns exactly the bytes of the message.
use inspec_thor.Prelude.{
  ℕ, zero, suc, ◌-◌, ◌≤◌, ◌<◌, ◌≡◌, refl, sym, ap, ◌∙◌, List, [], ◌∷◌, ◌++◌, Option, some, length,
  take, drop, append_assoc, append-nil, length-append, arith,
}
use inspec_thor.PipeIo.{chunk_of, read_loop, read_piece, read_pipe_exact}

take-past {ℓ} :
    {A : Type ℓ} (xs ys : List A) (n : ℕ)
    → length xs ≤ n
    → take n (xs ++ ys) ≡ xs ++ take (n - length xs) ys
take-past [] ys n h = ap (λ k. take k ys) (omega arith)
take-past (x ∷ xs) ys zero h = absurd (omega arith)
take-past (x ∷ xs) ys (suc n) h =
    ap (λ zs. x ∷ zs) (take-past xs ys n (omega arith) ∙ ap (λ k. xs ++ take k ys) (omega arith))

drop-past {ℓ} :
    {A : Type ℓ} (xs ys : List A) (n : ℕ)
    → length xs ≤ n
    → drop n (xs ++ ys) ≡ drop (n - length xs) ys
drop-past [] ys n h = ap (λ k. drop k ys) (omega arith)
drop-past (x ∷ xs) ys zero h = absurd (omega arith)
drop-past (x ∷ xs) ys (suc n) h =
    drop-past xs ys n (omega arith) ∙ ap (λ k. drop k ys) (omega arith)

pub chunk-bounds : (n : ℕ) → (chunk_of (suc n) ≤ suc n) × (0 < chunk_of (suc n))
unfolding chunk_of
chunk-bounds n = (ground arith, ground arith)

-- A pipe to read from: the bytes that are still to come, what a read takes of them, and that a read
-- gives something while there are bytes to come.
pub record IsSource {ℓ} {Pipe : Type ℓ} (read_file : ℕ → Pipe → Option (List ℕ × Pipe))
    (coming : Pipe → List ℕ) : Type ℓ where
  pub takes :
      (n : ℕ) (p : Pipe) (bytes : List ℕ) (after : Pipe)
      → read_file n p ≡ some (bytes, after)
      → (coming p ≡ bytes ++ coming after) × (length bytes ≤ n)
  pub gives :
      (n : ℕ) (p : Pipe)
      → 0 < n
      → 0 < length (coming p)
      → (b : ℕ) × (bytes : List ℕ) × (after : Pipe) × (read_file n p ≡ some (b ∷ bytes, after))

module _ {ℓ} {Pipe : Type ℓ} (read_file : ℕ → Pipe → Option (List ℕ × Pipe))
    (coming : Pipe → List ℕ) (source : IsSource read_file coming) where
  read_loop-take :
      (fuel remaining : ℕ) (buffer : List ℕ) (p : Pipe)
      → remaining ≤ fuel
      → remaining ≤ length (coming p)
      → (after : Pipe) × (read_loop read_file fuel remaining buffer p
          ≡ some (buffer ++ take remaining (coming p), after))
        × (coming after ≡ drop remaining (coming p))
  unfolding read_loop read_piece
  read_loop-take fuel zero buffer p enough there =
      (p, ap (λ bytes. some (bytes, p)) (sym (append-nil buffer)), refl)
  read_loop-take zero (suc remaining) buffer p enough there = absurd (omega arith)
  read_loop-take (suc fuel) (suc remaining) buffer p enough there =
      let bounds = chunk-bounds remaining in
      let (b, bytes, after, read) =
        source.gives (chunk_of (suc remaining)) p bounds.1 (omega arith) in
      let (split, few) = source.takes (chunk_of (suc remaining)) p (b ∷ bytes) after read in
      let sizes = ap length split ∙ length-append (b ∷ bytes) (coming after) in
      let small : length (b ∷ bytes) ≤ suc remaining = omega (arith, bounds.0) in
      let (last, same, rest) =
        read_loop-take fuel (suc remaining - length (b ∷ bytes)) (buffer ++ b ∷ bytes) after
          (omega arith) (omega (arith, sizes)) in
      (
        last,
        rw read (
            same
            ∙ ap (λ whole. some (whole, last))
                (append_assoc buffer (b ∷ bytes) _
                  ∙ ap (λ tail. buffer ++ tail)
                      (sym (
                        ap (take (suc remaining)) split
                        ∙ take-past (b ∷ bytes) (coming after) (suc remaining) small)))),
        rest
            ∙ sym (
                ap (drop (suc remaining)) split
                ∙ drop-past (b ∷ bytes) (coming after) (suc remaining) small),
      )

-- From a pipe that has the bytes coming, a read of `size` bytes returns the first `size` of them,
-- whatever pieces they come in, and leaves the others.
pub read_pipe_exact_lem {ℓ} :
    {Pipe : Type ℓ} (read_file : ℕ → Pipe → Option (List ℕ × Pipe)) (coming : Pipe → List ℕ)
    → IsSource read_file coming
    → (size : ℕ) (p : Pipe) → size ≤ length (coming p)
    → (after : Pipe) × (read_pipe_exact read_file size p ≡ some (take size (coming p), after))
      × (coming after ≡ drop size (coming p))
unfolding read_pipe_exact
read_pipe_exact_lem read_file coming source size p there =
    read_loop-take read_file coming source size size [] p (omega arith) there
