-- ===== src/RuntimeStrings/Rescan.antt =====
-- A pass over memory that is as it was: nothing is recovered.
use inspec_thor.Prelude.{
  ℕ, zero, suc, ◌+◌, ◌-◌, ◌%◌, ◌^◌, ◌≤◌, ◌<◌, ◌≡◌, refl, sym, ap, subst, ◌∙◌, min, Bool, true,
  false, ◌&&◌, List, [], ◌∷◌, Option, some, length, ltb, ◌==◌, arith, if-elim, Bool-cases, inl, inr,
}
use inspec_thor.RuntimeStrings.Rows.{MemoryInfo}
use inspec_thor.RuntimeStrings.Scan.{
  ScannedProcess, Pass, chunk_size, note_strings, take_chunk, requested_size, scan_chunk,
  scan_chunks, hash_runtime_memory, has_changed, find_hash,
}

pub some-eq : (p q : Pass) → ◌≡◌ {A = Option Pass} (some p) (some q) → p ≡ q
some-eq p q h = cc

module _ (process : ScannedProcess) (emit_strings : Bool) (limit : ℕ) where
  take_chunk-Keeps :
      (c chunk : ℕ) (mbi : MemoryInfo) (requested : ℕ) (bytes : List ℕ) (p : Pass)
      → (chunk == c) ≡ false
      → find_hash c (take_chunk process emit_strings limit chunk mbi requested bytes p).hashes
        ≡ find_hash c p.hashes
  unfolding take_chunk note_strings find_hash
  take_chunk-Keeps c chunk mbi requested [] p other = refl
  take_chunk-Keeps c chunk mbi requested (byte ∷ bytes) p other =
      if-elim (λ (q : Pass). find_hash c q.hashes ≡ find_hash c p.hashes)
        (emit_strings
          && has_changed (find_hash chunk p.hashes) (hash_runtime_memory (byte ∷ bytes)))
        _ _ (λ changed. rw other refl) (λ same. rw other refl)

  -- Only hashes from the chunk on are written.
  pub scan_chunks-Keeps :
      (fuel chunk end : ℕ) (mbi : MemoryInfo) (p pf : Pass) (c : ℕ)
      → scan_chunks process emit_strings limit fuel chunk end mbi p ≡ some pf
      → end + chunk_size ≤ 2 ^ 64
      → c < chunk
      → find_hash c pf.hashes ≡ find_hash c p.hashes
  unfolding scan_chunks scan_chunk
  scan_chunks-Keeps zero chunk end mbi p pf c h fits below = cc
  scan_chunks-Keeps (suc fuel) chunk end mbi p pf c h fits below =
      elim (Bool-cases (ltb chunk end && ltb p.bytes_scanned limit)) [
        | inl on ↦
            let inside : chunk < end = ground arith in
            let requested = requested_size process emit_strings limit chunk end p in
            scan_chunks-Keeps fuel ((chunk + chunk_size) % 2 ^ 64) end mbi
              (scan_chunk process emit_strings limit chunk end mbi p) pf c (rw on at h) fits
              (omega arith)
            ∙ take_chunk-Keeps c chunk mbi requested (process.read chunk requested) p (ground arith)
        | inr off ↦ ap (λ (q : Pass). find_hash c q.hashes) (sym (some-eq p pf (rw off at h)))
      ]

find_hash_here :
    (chunk hash : ℕ) (hashes : List (ℕ × ℕ)) → find_hash chunk ((chunk, hash) ∷ hashes) ≡ some hash
unfolding find_hash
find_hash_here chunk hash hashes = ground arith

other_chunk : (chunk c : ℕ) → chunk < c → (chunk == c) ≡ false
other_chunk chunk c below = ground arith

unchanged : (hash : ℕ) → ¬ (has_changed (some hash) hash ≡ true)
unfolding has_changed
unchanged hash h = ground arith

-- The second pass has come as far as the first, and has found nothing so far.
pub record Tracks (dumps : List (ℕ × ℕ × List ℕ)) (p q : Pass) : Type 0 where
  pub same : q.bytes_scanned ≡ p.bytes_scanned
  pub nothing : q.recovered ≡ []
  pub untouched : q.dumps ≡ dumps

-- From the address on, the pass still has the hashes of the table.
unfoldable pub Knows : List (ℕ × ℕ) → ℕ → Pass → Type 0
Knows table low q = (c : ℕ) → low ≤ c → find_hash c q.hashes ≡ find_hash c table

-- What the second pass is to show, once the first has returned p.
pub record Follows (dumps : List (ℕ × ℕ × List ℕ)) (table : List (ℕ × ℕ)) (low : ℕ) (p : Pass)
    (result : Option Pass) : Type 0 where
  pub passed : Pass
  pub returned : result ≡ some passed
  pub tracks : Tracks dumps p passed
  pub knows : Knows table low passed

module _ (process : ScannedProcess) (limit : ℕ) (dumps : List (ℕ × ℕ × List ℕ))
    (table : List (ℕ × ℕ)) where
  take_chunk-Tracks :
      (chunk : ℕ) (mbi : MemoryInfo) (requested : ℕ) (bytes : List ℕ) (p q : Pass)
      → Tracks dumps p q
      → find_hash chunk q.hashes
        ≡ find_hash chunk (take_chunk process false limit chunk mbi requested bytes p).hashes
      → Tracks dumps
          (take_chunk process false limit chunk mbi requested bytes p)
          (take_chunk process true limit chunk mbi requested bytes q)
  unfolding take_chunk
  take_chunk-Tracks chunk mbi requested [] p q tracks known = record {
    same = ap (λ n. n + requested) tracks.same;
    nothing = tracks.nothing;
    untouched = tracks.untouched;
  }
  take_chunk-Tracks chunk mbi requested (byte ∷ bytes) p q tracks known =
      let hash = hash_runtime_memory (byte ∷ bytes) in
      let found : find_hash chunk q.hashes ≡ some hash =
        known ∙ find_hash_here chunk hash p.hashes in
      if-elim (Tracks dumps _) (has_changed (find_hash chunk q.hashes) hash) _ _
        (λ changed. absurd (unchanged hash (subst (λ o. has_changed o hash ≡ true) found changed)))
        (λ same. record {
          same = ap (λ n. n + length (byte ∷ bytes)) tracks.same;
          nothing = tracks.nothing;
          untouched = tracks.untouched;
        })

  scan_chunk-Tracks :
      (chunk end : ℕ) (mbi : MemoryInfo) (p q : Pass)
      → Tracks dumps p q
      → find_hash chunk q.hashes
        ≡ find_hash chunk (scan_chunk process false limit chunk end mbi p).hashes
      → Tracks dumps
          (scan_chunk process false limit chunk end mbi p)
          (scan_chunk process true limit chunk end mbi q)
  unfolding scan_chunk requested_size
  scan_chunk-Tracks chunk end mbi p q tracks known =
      let size = λ (n : ℕ). min (min chunk_size (end - chunk)) (limit - n) in
      subst
        (λ n.
          Tracks dumps (scan_chunk process false limit chunk end mbi p)
            (take_chunk process true limit chunk mbi (size n) (process.read chunk (size n)) q))
        (sym tracks.same)
        (take_chunk-Tracks chunk mbi (size p.bytes_scanned)
          (process.read chunk (size p.bytes_scanned)) p q tracks known)

  pub scan_chunks-Follows :
      (fuel chunk end : ℕ) (mbi : MemoryInfo) (p pf q : Pass)
      → scan_chunks process false limit fuel chunk end mbi p ≡ some pf
      → end + chunk_size ≤ 2 ^ 64
      → Tracks dumps p q
      → Knows table (min chunk end) q
      → ((c : ℕ) → chunk ≤ c → c < end → find_hash c table ≡ find_hash c pf.hashes)
      → Follows dumps table end pf (scan_chunks process true limit fuel chunk end mbi q)
  unfolding scan_chunks scan_chunk Knows
  scan_chunks-Follows zero chunk end mbi p pf q h fits tracks knows table_is = cc
  scan_chunks-Follows (suc fuel) chunk end mbi p pf q h fits tracks knows table_is =
      elim (Bool-cases (ltb chunk end && ltb p.bytes_scanned limit)) [
        | inl on ↦
            let inside : chunk < end = ground arith in
            let next = (chunk + chunk_size) % 2 ^ 64 in
            let up : next ≡ chunk + chunk_size = omega arith in
            let on_q : (ltb chunk end && ltb q.bytes_scanned limit) ≡ true =
              subst (λ n. (ltb chunk end && ltb n limit) ≡ true) (sym tracks.same) on in
            let scanned = scan_chunk process false limit chunk end mbi p in
            let requested = requested_size process true limit chunk end q in
            let kept =
              scan_chunks-Keeps process false limit fuel next end mbi scanned pf chunk (rw on at h)
                fits (omega arith) in
            let known : find_hash chunk q.hashes ≡ find_hash chunk scanned.hashes =
              knows chunk (omega arith) ∙ (table_is chunk (omega arith) inside ∙ kept) in
            rw on_q (
              scan_chunks-Follows fuel next end mbi scanned pf
                (scan_chunk process true limit chunk end mbi q) (rw on at h) fits
                (scan_chunk-Tracks chunk end mbi p q tracks known)
                (λ c low.
                  take_chunk-Keeps process true limit c chunk mbi requested
                    (process.read chunk requested) q (other_chunk chunk c (omega arith))
                  ∙ knows c (omega arith))
                (λ c low high. table_is c (omega arith) high))
        | inr off ↦
            let off_q : (ltb chunk end && ltb q.bytes_scanned limit) ≡ false =
              subst (λ n. (ltb chunk end && ltb n limit) ≡ false) (sym tracks.same) off in
            rw off_q (record {
              passed = q;
              returned = refl;
              tracks = subst (λ r. Tracks dumps r q) (some-eq p pf (rw off at h)) tracks;
              knows = λ c low. knows c (omega arith);
            })
      ]
