-- ===== src/PipeIo/Tests.antt =====
-- A pipe that moves at most three bytes at a time.
use inspec_thor.Prelude.{
  ℕ, zero, suc, ◌≤◌, ◌<◌, ◌≡◌, refl, sym, ap, subst, append-nil, List, [], ◌∷◌, ◌++◌, Option, none,
  some, length, take, drop, min, take-append-drop, arith,
}
use inspec_thor.PipeIo.{chunk_of, read_loop, read_piece, read_pipe_exact, write_pipe_exact}
use inspec_thor.PipeIo.Exact.{IsSource, read_pipe_exact_lem}
use inspec_thor.PipeIo.Sent.{IsSink, write_pipe_exact_lem}

-- Reads give at most three of the bytes that are still to come.
abbrev read_three : ℕ → List ℕ → Option (List ℕ × List ℕ)
read_three n [] = none
read_three zero (b ∷ p) = some ([], b ∷ p)
read_three (suc n) (b ∷ p) = some (b ∷ take (min n 2) p, drop (min n 2) p)

length-take-le {ℓ} : {A : Type ℓ} (n : ℕ) (xs : List A) → length (take n xs) ≤ n
length-take-le zero xs = omega arith
length-take-le (suc n) [] = omega arith
length-take-le (suc n) (x ∷ xs) = omega (arith, length-take-le n xs)

-- What a read gives is the beginning of what was to come.
Reads : ℕ → List ℕ → Option (List ℕ × List ℕ) → Type 0
Reads n p none = Unit
Reads n p (some (bytes, after)) = (p ≡ bytes ++ after) × (length bytes ≤ n)

read_three-Reads : (n : ℕ) (p : List ℕ) → Reads n p (read_three n p)
unfolding Reads
read_three-Reads n [] = tt
read_three-Reads zero (b ∷ p) = (refl, omega arith)
read_three-Reads (suc n) (b ∷ p) = (
  ap (λ rest. b ∷ rest) (sym (take-append-drop (min n 2) p)),
  omega (arith, length-take-le (min n 2) p),
)

read_three-gives :
    (n : ℕ) (p : List ℕ)
    → 0 < n
    → 0 < length p
    → (b : ℕ) × (bytes : List ℕ) × (after : List ℕ) × (read_three n p ≡ some (b ∷ bytes, after))
read_three-gives n [] some_wanted there = absurd (omega arith)
read_three-gives zero (b ∷ p) some_wanted there = absurd (omega arith)
read_three-gives (suc n) (b ∷ p) some_wanted there = (b, take (min n 2) p, drop (min n 2) p, refl)

read_three-IsSource : IsSource read_three (λ p. p)
unfolding Reads
read_three-IsSource = record {
  takes = λ n p bytes after e. subst (Reads n p) e (read_three-Reads n p);
  gives = read_three-gives;
}

test_read :
    read_pipe_exact read_three 4 (1 ∷ 2 ∷ 3 ∷ 4 ∷ 5 ∷ []) ≡ some (1 ∷ 2 ∷ 3 ∷ 4 ∷ [], 5 ∷ [])
unfolding read_pipe_exact read_loop read_piece chunk_of
test_read = refl

read_pipe_exact_lem_example :
    (after : List ℕ) × (read_pipe_exact read_three 4 (1 ∷ 2 ∷ 3 ∷ 4 ∷ 5 ∷ [])
      ≡ some (take 4 (1 ∷ 2 ∷ 3 ∷ 4 ∷ 5 ∷ []), after))
    × (after ≡ drop 4 (1 ∷ 2 ∷ 3 ∷ 4 ∷ 5 ∷ []))
read_pipe_exact_lem_example =
    read_pipe_exact_lem read_three (λ p. p) read_three-IsSource 4 (1 ∷ 2 ∷ 3 ∷ 4 ∷ 5 ∷ [])
      (omega arith)

-- Writes take one byte.
abbrev write_one : List ℕ → List ℕ → Option (ℕ × List ℕ)
write_one [] p = some (0, p)
write_one (b ∷ bytes) p = some (1, p ++ b ∷ [])

Writes : List ℕ → List ℕ → Option (ℕ × List ℕ) → Type 0
Writes bytes p none = Unit
Writes bytes p (some (n, after)) = (n ≤ length bytes) × (after ≡ p ++ take n bytes)

write_one-Writes : (bytes p : List ℕ) → Writes bytes p (write_one bytes p)
unfolding Writes
write_one-Writes [] p = (omega arith, sym (append-nil p))
write_one-Writes (b ∷ bytes) p = (omega arith, refl)

write_one-accepts :
    (bytes p : List ℕ)
    → 0 < length bytes
    → (n : ℕ) × (after : List ℕ) × (write_one bytes p ≡ some (suc n, after))
write_one-accepts [] p there = absurd (omega arith)
write_one-accepts (b ∷ bytes) p there = (0, p ++ b ∷ [], refl)

write_one-IsSink : IsSink write_one (λ p. p)
unfolding Writes
write_one-IsSink = record {
  adds = λ bytes p n after e. subst (Writes bytes p) e (write_one-Writes bytes p);
  accepts = write_one-accepts;
}

write_pipe_exact_lem_example :
    (after : List ℕ) × (write_pipe_exact write_one (1 ∷ 2 ∷ []) (9 ∷ []) ≡ some after)
    × (after ≡ 9 ∷ 1 ∷ 2 ∷ [])
write_pipe_exact_lem_example =
    write_pipe_exact_lem write_one (λ p. p) write_one-IsSink (1 ∷ 2 ∷ []) (9 ∷ [])
