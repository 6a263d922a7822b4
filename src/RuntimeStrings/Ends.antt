-- ===== src/RuntimeStrings/Ends.antt =====
-- A pass over memory ends, and keeps to its number of bytes.
use inspec_thor.Prelude.{
  ℕ, zero, suc, ◌+◌, ◌-◌, ◌%◌, ◌^◌, ◌≤◌, ◌<◌, ◌≡◌, refl, sym, Bool, not, ◌&&◌, ◌||◌, List, [], ◌∷◌,
  Option, none, some, length, leb, ltb, ◌==◌, arith, if-elim, subst,
}
use inspec_thor.RuntimeStrings.Rows.{
  MemoryInfo, is_readable_runtime_region, is_executable_page_protection,
}
use inspec_thor.RuntimeStrings.Scan.{
  ScannedProcess, Pass, chunk_size, maximum_bytes_per_pass, note_strings, take_chunk,
  requested_size, scan_chunk, scan_chunks, region_end, scan_region, then_next, visit, scan_regions,
  run_pass, start_pass, hash_runtime_memory, has_changed, find_hash,
}

-- The loop returns a pass that keeps to the limit.
abbrev pub Ends : ℕ → Option Pass → Type 0
Ends limit result = (p : Pass) × (result ≡ some p) × (p.bytes_scanned ≤ limit)

module _ (process : ScannedProcess) (emit_strings : Bool) (limit : ℕ)
    (reads : (address size : ℕ) → length (process.read address size) ≤ size) where
  take_chunk_counts :
      (chunk : ℕ) (mbi : MemoryInfo) (requested : ℕ) (bytes : List ℕ) (p : Pass)
      → 0 < requested
      → length bytes ≤ requested
      → (p.bytes_scanned
          < (take_chunk process emit_strings limit chunk mbi requested bytes p).bytes_scanned)
        × ((take_chunk process emit_strings limit chunk mbi requested bytes p).bytes_scanned
            ≤ p.bytes_scanned + requested)
  unfolding take_chunk note_strings
  take_chunk_counts chunk mbi requested [] p some_requested short = omega arith
  take_chunk_counts chunk mbi requested (byte ∷ bytes) p some_requested short =
      if-elim
        (λ (q : Pass).
          (p.bytes_scanned < q.bytes_scanned) × (q.bytes_scanned ≤ p.bytes_scanned + requested))
        (emit_strings
          && has_changed (find_hash chunk p.hashes) (hash_runtime_memory (byte ∷ bytes)))
        _ _ (λ changed. omega arith) (λ same. omega arith)

  requested_bounds :
      (chunk end : ℕ) (p : Pass)
      → chunk < end
      → p.bytes_scanned < limit
      → (0 < requested_size process emit_strings limit chunk end p)
        × (requested_size process emit_strings limit chunk end p ≤ limit - p.bytes_scanned)
  unfolding requested_size
  requested_bounds chunk end p inside room = omega arith

  scan_chunk_counts :
      (chunk end : ℕ) (mbi : MemoryInfo) (p : Pass)
      → chunk < end
      → p.bytes_scanned < limit
      → (p.bytes_scanned < (scan_chunk process emit_strings limit chunk end mbi p).bytes_scanned)
        × ((scan_chunk process emit_strings limit chunk end mbi p).bytes_scanned ≤ limit)
  unfolding scan_chunk
  scan_chunk_counts chunk end mbi p inside room =
      let requested = requested_size process emit_strings limit chunk end p in
      let sizes = requested_bounds chunk end p inside room in
      let counts =
        take_chunk_counts chunk mbi requested (process.read chunk requested) p sizes.0
          (reads chunk requested) in
      (counts.0, omega (arith, counts.1, sizes.1))

  scan_chunks-Ends :
      (fuel chunk end : ℕ) (mbi : MemoryInfo) (p : Pass)
      → limit - p.bytes_scanned < fuel
      → p.bytes_scanned ≤ limit
      → Ends limit (scan_chunks process emit_strings limit fuel chunk end mbi p)
  unfolding scan_chunks
  scan_chunks-Ends zero chunk end mbi p enough bound = absurd (omega arith)
  scan_chunks-Ends (suc fuel) chunk end mbi p enough bound =
      if-elim (Ends limit) (ltb chunk end && ltb p.bytes_scanned limit) _ (some p)
        (λ on.
          let tests : (chunk < end) × (p.bytes_scanned < limit) = ground arith in
          let counts = scan_chunk_counts chunk end mbi p tests.0 tests.1 in
          scan_chunks-Ends fuel ((chunk + chunk_size) % 2 ^ 64) end mbi
            (scan_chunk process emit_strings limit chunk end mbi p) (omega arith) counts.1)
        (λ off. (p, refl, bound))

  scan_region-Ends :
      (address : ℕ) (mbi : MemoryInfo) (p : Pass)
      → p.bytes_scanned ≤ limit
      → Ends limit (scan_region process emit_strings limit address mbi p)
  unfolding scan_region
  scan_region-Ends address mbi p bound =
      if-elim (Ends limit)
        (is_readable_runtime_region mbi
          && (not (process.executable_only address) || is_executable_page_protection mbi.protect))
        _ (some p)
        (λ scanned.
          scan_chunks-Ends (suc limit) mbi.base_address (region_end process emit_strings limit mbi)
            mbi p (omega arith) bound)
        (λ passed_over. (p, refl, bound))

  visit-Ends :
      (next : ℕ → Pass → Option Pass) (address : ℕ) (found : Option MemoryInfo) (p : Pass)
      → p.bytes_scanned ≤ limit
      → ((end : ℕ) (q : Pass) → address < end → q.bytes_scanned ≤ limit → Ends limit (next end q))
      → Ends limit (visit process emit_strings limit next address found p)
  unfolding visit then_next
  visit-Ends next address none p bound later = (p, refl, bound)
  visit-Ends next address (some mbi) p bound later =
      let end = region_end process emit_strings limit mbi in
      if-elim (Ends limit) (leb end address) (some p) _ (λ back. (p, refl, bound))
        (λ up.
          let (q, e, b) = scan_region-Ends address mbi p bound in
          subst (λ o. Ends limit (then_next process emit_strings limit (next end) o)) (sym e)
            (later end q (ground arith) b))

  scan_regions-Ends :
      (fuel token address : ℕ) (p : Pass)
      → process.maximum_address - address < fuel
      → p.bytes_scanned ≤ limit
      → Ends limit (scan_regions process emit_strings limit fuel token address p)
  unfolding scan_regions
  scan_regions-Ends zero token address p enough bound = absurd (omega arith)
  scan_regions-Ends (suc fuel) token address p enough bound =
      if-elim (Ends limit)
        (ltb address process.maximum_address
          && ltb p.bytes_scanned limit
          && process.token_at address == token)
        _ (some p)
        (λ on.
          let below : address < process.maximum_address = ground arith in
          visit-Ends (scan_regions process emit_strings limit fuel token) address
            (process.query address) p bound
            (λ end q up b. scan_regions-Ends fuel token end q (omega arith) b))
        (λ off. (p, refl, bound))

-- A pass over the memory of a process ends and reads no more than its limit of bytes, whatever
-- regions Windows answers, where no read gives more bytes than were requested.
pub run_pass-Ends :
    (process : ScannedProcess) (emit_strings : Bool) (token : ℕ) (hashes : List (ℕ × ℕ))
    (dumps : List (ℕ × ℕ × List ℕ))
    → ((address size : ℕ) → length (process.read address size) ≤ size)
    → Ends maximum_bytes_per_pass (run_pass process emit_strings token hashes dumps)
unfolding run_pass
run_pass-Ends process emit_strings token hashes dumps reads =
    scan_regions-Ends process emit_strings maximum_bytes_per_pass reads
      (suc process.maximum_address) token 0 (start_pass hashes dumps) (omega arith) (omega arith)
