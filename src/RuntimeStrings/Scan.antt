-- ===== src/RuntimeStrings/Scan.antt =====
-- One pass over the memory of a process, `ScanRuntimeStringMemory` of src/controller/gui.cpp. What
-- Windows answers is a parameter; each address is asked for once in a pass, so an answer that
-- changes during the pass is a function of the address too.
use inspec_thor.Prelude.{
  ℕ, zero, suc, ◌+◌, ◌-◌, ◌*◌, ◌%◌, ◌^◌, min, Bool, true, not, ◌&&◌, ◌||◌, List, [], ◌∷◌, Option,
  none, some, Text, length, leb, ltb, ◌==◌, if◌then◌else◌,
}
use Prim.Native.Nat.{bit_xor}
use inspec_thor.RuntimeStrings.Rows.{
  MemoryInfo, RecoveredStringRow, is_readable_runtime_region, is_executable_page_protection,
}
use inspec_thor.RuntimeStrings.Extract.{extract_runtime_strings}
use inspec_thor.RuntimeStrings.Merge.{RecoveredStrings, merge_recovered_strings}

-- The scanned process: VirtualQueryEx at an address, the bytes that ReadProcessMemory reads of those
-- requested, and, as the pass comes to an address, the scanner's token and the setting for
-- executable regions. `time` formats the clock.
pub record ScannedProcess : Type 0 where
  pub pid : ℕ
  pub maximum_address : ℕ
  pub query : ℕ → Option MemoryInfo
  pub read : ℕ → ℕ → List ℕ
  pub token_at : ℕ → ℕ
  pub executable_only : ℕ → Bool
  pub time : ℕ → Text

-- The locals of the pass, and the cache of memory dumps.
pub record Pass : Type 0 where
  pub bytes_scanned : ℕ
  pub hashes : List (ℕ × ℕ)
  pub recovered : List RecoveredStringRow
  pub dumps : List (ℕ × ℕ × List ℕ)

abbrev pub chunk_size : ℕ
chunk_size = 256 * 1024

abbrev pub maximum_bytes_per_pass : ℕ
maximum_bytes_per_pass = 256 * 1024 * 1024

-- FNV-1a on 64 bits.
unfoldable pub hash_from : ℕ → List ℕ → ℕ
hash_from hash [] = hash
hash_from hash (byte ∷ bytes) = hash_from (bit_xor hash byte * 1099511628211 % 2 ^ 64) bytes

unfoldable pub hash_runtime_memory : List ℕ → ℕ
unfolding hash_from
hash_runtime_memory = hash_from 1469598103934665603

unfoldable pub find_hash : ℕ → List (ℕ × ℕ) → Option ℕ
find_hash address [] = none
find_hash address ((a, h) ∷ hashes) = if a == address then some h else find_hash address hashes

unfoldable pub has_changed : Option ℕ → ℕ → Bool
has_changed none hash = true
has_changed (some previous) hash = not (previous == hash)

-- The cache by pid and address; a new entry hides an older one.
unfoldable pub cache_memory_dump : ℕ → ℕ → List ℕ → List (ℕ × ℕ × List ℕ) → List (ℕ × ℕ × List ℕ)
cache_memory_dump pid address bytes dumps =
    if pid == 0 || address == 0 then dumps else (pid, address, bytes) ∷ dumps

module _ (process : ScannedProcess) (emit_strings : Bool) (limit : ℕ) where
  unfoldable pub note_strings : ℕ → MemoryInfo → List ℕ → Pass → Pass
  unfolding cache_memory_dump
  note_strings chunk mbi bytes p = record p {
    dumps = cache_memory_dump process.pid chunk bytes p.dumps;
    recovered =
        extract_runtime_strings process.pid chunk mbi (process.time chunk) bytes p.recovered;
  }

  unfoldable pub take_chunk : ℕ → MemoryInfo → ℕ → List ℕ → Pass → Pass
  unfolding note_strings has_changed
  take_chunk chunk mbi requested [] p = record p { bytes_scanned = p.bytes_scanned + requested }
  take_chunk chunk mbi requested (byte ∷ bytes) p =
      let hash = hash_runtime_memory (byte ∷ bytes) in
      let hashed = record p {
        bytes_scanned = p.bytes_scanned + length (byte ∷ bytes);
        hashes = (chunk, hash) ∷ p.hashes;
      } in
      if emit_strings && has_changed (find_hash chunk p.hashes) hash
      then note_strings chunk mbi (byte ∷ bytes) hashed
      else hashed

  unfoldable pub requested_size : ℕ → ℕ → Pass → ℕ
  requested_size chunk end p = min (min chunk_size (end - chunk)) (limit - p.bytes_scanned)

  unfoldable pub scan_chunk : ℕ → ℕ → MemoryInfo → Pass → Pass
  unfolding take_chunk requested_size
  scan_chunk chunk end mbi p =
      take_chunk chunk mbi (requested_size chunk end p)
        (process.read chunk (requested_size chunk end p)) p

  -- `none`: the fuel ran out.
  unfoldable pub scan_chunks : ℕ → ℕ → ℕ → MemoryInfo → Pass → Option Pass
  scan_chunks zero chunk end mbi p = none
  scan_chunks (suc fuel) chunk end mbi p =
      let rest =
        scan_chunks fuel ((chunk + chunk_size) % 2 ^ 64) end mbi (scan_chunk chunk end mbi p) in
      if ltb chunk end && ltb p.bytes_scanned limit then rest else some p

  unfoldable pub region_end : MemoryInfo → ℕ
  region_end mbi = (mbi.base_address + mbi.region_size) % 2 ^ 64

  -- The chunks of a region that is scanned; the bytes of a pass are enough fuel, since each round
  -- counts one or more.
  unfoldable pub scan_region : ℕ → MemoryInfo → Pass → Option Pass
  unfolding region_end
  scan_region address mbi p =
      if is_readable_runtime_region mbi
        && (not (process.executable_only address) || is_executable_page_protection mbi.protect)
      then scan_chunks (suc limit) mbi.base_address (region_end mbi) mbi p
      else some p

  unfoldable pub then_next : (Pass → Option Pass) → Option Pass → Option Pass
  then_next next none = none
  then_next next (some p) = next p

  -- `next` is the loop from an address on.
  unfoldable pub visit : (ℕ → Pass → Option Pass) → ℕ → Option MemoryInfo → Pass → Option Pass
  unfolding scan_region then_next region_end
  visit next address none p = some p
  visit next address (some mbi) p =
      if leb (region_end mbi) address
      then some p
      else then_next (next (region_end mbi)) (scan_region address mbi p)

  unfoldable pub scan_regions : ℕ → ℕ → ℕ → Pass → Option Pass
  unfolding visit
  scan_regions zero token address p = none
  scan_regions (suc fuel) token address p =
      let rest = visit (scan_regions fuel token) address (process.query address) p in
      if ltb address process.maximum_address
        && ltb p.bytes_scanned limit
        && process.token_at address == token
      then rest
      else some p

-- The rows are merged only by a pass that may emit strings, while the token still stands; the
-- process may be told by then to stop.
unfoldable pub merge_pass : Bool → ℕ → ℕ → Option Pass → RecoveredStrings → Option RecoveredStrings
merge_pass emit_strings token token_after none s = none
merge_pass emit_strings token token_after (some p) s =
    some (if emit_strings then merge_recovered_strings p.recovered token token_after s else s)

abbrev pub start_pass : List (ℕ × ℕ) → List (ℕ × ℕ × List ℕ) → Pass
start_pass hashes dumps = record {
  bytes_scanned = 0;
  hashes = hashes;
  recovered = [];
  dumps = dumps;
}

-- The pass from address 0 on; the largest address is enough fuel, since each round moves up.
unfoldable pub run_pass :
    ScannedProcess → Bool → ℕ → List (ℕ × ℕ) → List (ℕ × ℕ × List ℕ) → Option Pass
unfolding scan_regions
run_pass process emit_strings token hashes dumps =
    scan_regions process emit_strings maximum_bytes_per_pass (suc process.maximum_address) token 0
      (start_pass hashes dumps)
