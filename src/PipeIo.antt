-- ===== src/PipeIo.antt =====
-- src/shared/pipe_io.h: whole messages over a pipe that moves them in pieces.
pub mod Exact
pub mod Sent
mod Tests
use inspec_thor.Prelude.{
  ℕ, zero, suc, ◌+◌, ◌-◌, ◌≤◌, ◌≡◌, Bool, true, false, List, [], ◌∷◌, ◌++◌, Option, none, some,
  length, take, drop, ltb, leb, ◌==◌, if◌then◌else◌, min,
}

-- A call's chunk: at most MAXDWORD bytes.
unfoldable pub chunk_of : ℕ → ℕ
chunk_of remaining = if ltb 4294967295 remaining then 4294967295 else remaining

-- The pipe's other end and ReadFile: for a number of bytes that is asked for, it fails or gives
-- bytes and the pipe after it.
module _ {ℓ} {Pipe : Type ℓ} (read_file : ℕ → Pipe → Option (List ℕ × Pipe)) where
  -- One answer of ReadFile, and the loop's next round.
  unfoldable pub read_piece :
      (ℕ → List ℕ → Pipe → Option (List ℕ × Pipe))
      → ℕ
      → List ℕ
      → Option (List ℕ × Pipe)
      → Option (List ℕ × Pipe)
  read_piece next remaining buffer none = none
  read_piece next remaining buffer (some ([], pipe)) = none
  read_piece next remaining buffer (some (b ∷ bytes, pipe)) =
      next (remaining - length (b ∷ bytes)) (buffer ++ b ∷ bytes) pipe

  -- The bytes that are still asked for, and the buffer so far. Every round that goes on reads a byte
  -- or more, so that the size is enough fuel.
  unfoldable pub read_loop : ℕ → ℕ → List ℕ → Pipe → Option (List ℕ × Pipe)
  unfolding read_piece
  read_loop fuel zero buffer pipe = some (buffer, pipe)
  read_loop zero (suc remaining) buffer pipe = none
  read_loop (suc fuel) (suc remaining) buffer pipe =
      read_piece (read_loop fuel) (suc remaining) buffer (read_file (chunk_of (suc remaining)) pipe)

  -- The bytes that are read, or none for the code's false.
  unfoldable pub read_pipe_exact : ℕ → Pipe → Option (List ℕ × Pipe)
  unfolding read_loop
  read_pipe_exact size pipe = read_loop size size [] pipe

-- WriteFile: for the bytes that are offered, it fails or tells how many it took.
module _ {ℓ} {Pipe : Type ℓ} (write_file : List ℕ → Pipe → Option (ℕ × Pipe)) where
  -- One answer of WriteFile, and the loop's next round.
  unfoldable pub write_piece :
      (List ℕ → Pipe → Option Pipe) → List ℕ → Option (ℕ × Pipe) → Option Pipe
  write_piece next bytes none = none
  write_piece next bytes (some (zero, pipe)) = none
  write_piece next bytes (some (suc n, pipe)) = next (drop (suc n) bytes) pipe

  -- The bytes that are left; their number is enough fuel.
  unfoldable pub write_loop : ℕ → List ℕ → Pipe → Option Pipe
  unfolding write_piece
  write_loop fuel [] pipe = some pipe
  write_loop zero (b ∷ bytes) pipe = none
  write_loop (suc fuel) (b ∷ bytes) pipe =
      write_piece (write_loop fuel) (b ∷ bytes)
        (write_file (take (chunk_of (length (b ∷ bytes))) (b ∷ bytes)) pipe)

  -- The pipe after it, or none for the code's false.
  unfoldable pub write_pipe_exact : List ℕ → Pipe → Option Pipe
  unfolding write_loop
  write_pipe_exact bytes pipe = write_loop (length bytes) bytes pipe
