-- ===== src/RuntimeStrings/Unchanged.antt =====
-- Two passes over the same memory, in step.
use inspec_thor.Prelude.{
  ℕ, zero, suc, ◌%◌, ◌≤◌, ◌<◌, ◌≡◌, refl, sym, subst, ◌∙◌, Bool, true, false, not, ◌&&◌, ◌||◌, List,
  [], Option, none, some, length, leb, ltb, ◌==◌, arith, Bool-cases, Option-cases, inl, inr, ltb→lt,
}
use inspec_thor.RuntimeStrings.Rows.{
  MemoryInfo, is_readable_runtime_region, is_executable_page_protection,
}
use inspec_thor.RuntimeStrings.Scan.{
  ScannedProcess, Pass, maximum_bytes_per_pass, region_end, scan_region, then_next, visit,
  scan_regions, run_pass, start_pass, find_hash,
}
use inspec_thor.RuntimeStrings.Ends.{run_pass-Ends}
use inspec_thor.RuntimeStrings.Rescan.{some-eq, Tracks, Knows, Follows, scan_chunks-Follows}
use inspec_thor.RuntimeStrings.Regions.{
  none-some, Answers, AnswersPages, Keeps, region_end-sum, scan_regions-Keeps,
}

test-same :
    (m n limit address top : ℕ) (token answer : Bool)
    → n ≡ m
    → (ltb address top && ltb m limit && token) ≡ answer
    → (ltb address top && ltb n limit && token) ≡ answer
test-same m n limit address top token answer same h =
    subst (λ k. (ltb address top && ltb k limit && token) ≡ answer) (sym same) h

-- The second pass returns too, as far as the first and with nothing found.
Repeats : List (ℕ × ℕ × List ℕ) → Pass → Option Pass → Type 0
Repeats dumps p result = (q : Pass) × (result ≡ some q) × Tracks dumps p q

module _ (process : ScannedProcess) (limit : ℕ) (dumps : List (ℕ × ℕ × List ℕ))
    (table : List (ℕ × ℕ)) where
  scan_region-Follows :
      (address : ℕ) (mbi : MemoryInfo) (p pf q : Pass)
      → Answers address mbi
      → scan_region process false limit address mbi p ≡ some pf
      → Tracks dumps p q
      → Knows table address q
      → ((c : ℕ)
          → address ≤ c
          → c < region_end process true limit mbi
          → find_hash c table ≡ find_hash c pf.hashes)
      → address < region_end process true limit mbi
      → Follows dumps table
          (region_end process true limit mbi)
          pf
          (scan_region process true limit address mbi q)
  unfolding scan_region Knows region_end
  scan_region-Follows address mbi p pf q answers h tracks knows table_is up =
      elim (Bool-cases (
        is_readable_runtime_region mbi
        && (not (process.executable_only address) || is_executable_page_protection mbi.protect))) [
          | inl scanned ↦ rw scanned (
              scan_chunks-Follows process limit dumps table (suc limit) mbi.base_address
                (region_end process true limit mbi) mbi p pf q (rw scanned at h)
                (omega (
                  arith,
                  region_end-sum process true limit address mbi answers,
                  answers.begins,
                  answers.fits,
                ))
                tracks (λ c low. knows c (omega (arith, answers.begins, up)))
                (λ c low high. table_is c (omega (arith, answers.begins)) high))
          | inr other ↦ rw other (record {
            passed = q;
            returned = refl;
            tracks = subst (λ r. Tracks dumps r q) (some-eq p pf (rw other at h)) tracks;
            knows = λ c low. knows c (omega (arith, up));
          })
        ]

  NextRepeats : (ℕ → Pass → Option Pass) → (ℕ → Pass → Option Pass) → Type 0
  NextRepeats first second =
      (address : ℕ) (p pf q : Pass)
      → address % 4096 ≡ 0
      → first address p ≡ some pf
      → Tracks dumps p q
      → Knows table address q
      → ((c : ℕ) → address ≤ c → find_hash c table ≡ find_hash c pf.hashes)
      → Repeats dumps pf (second address q)

  visit-Repeats :
      (first second : ℕ → Pass → Option Pass) (address : ℕ) (found : Option MemoryInfo)
      (p pf q : Pass)
      → NextRepeats first second
      → Keeps process false limit first
      → address % 4096 ≡ 0
      → ((mbi : MemoryInfo) → found ≡ some mbi → Answers address mbi)
      → visit process false limit first address found p ≡ some pf
      → Tracks dumps p q
      → Knows table address q
      → ((c : ℕ) → address ≤ c → find_hash c table ≡ find_hash c pf.hashes)
      → Repeats dumps pf (visit process true limit second address found q)
  unfolding visit then_next NextRepeats Keeps Repeats region_end
  visit-Repeats first second address none p pf q repeats keeps aligned answers h tracks knows
        table_is =
      (q, refl, subst (λ r. Tracks dumps r q) (some-eq p pf h) tracks)
  visit-Repeats first second address (some mbi) p pf q repeats keeps aligned answers h tracks knows
        table_is =
      let end = region_end process true limit mbi in
      let sum = region_end-sum process true limit address mbi (answers mbi refl) in
      let whole = (answers mbi refl).whole in
      elim (Bool-cases (leb end address)) [
        | inl back ↦
            rw back (q, refl, subst (λ r. Tracks dumps r q) (some-eq p pf (rw back at h)) tracks)
        | inr up ↦ elim (Option-cases (scan_region process false limit address mbi p)) [
          | inl out ↦ none-some _ pf (rw (up, out) at h)
          | inr (r, e) ↦
              let later : first end r ≡ some pf = rw (up, e) at h in
              let follows =
                scan_region-Follows address mbi p r q (answers mbi refl) e tracks knows
                  (λ c low high. table_is c low ∙ keeps end r pf c (omega arith) later high)
                  (ground arith) in
              rw (up, follows.returned)
                (repeats end r pf follows.passed (omega arith) later follows.tracks follows.knows
                  (λ c low. table_is c (omega (arith, ltb→lt address end (ground arith)))))
        ]
      ]

  scan_regions-Repeats :
      AnswersPages process
      → (fuel token : ℕ)
      → NextRepeats
          (scan_regions process false limit fuel token)
          (scan_regions process true limit fuel token)
  unfolding scan_regions NextRepeats Repeats
  scan_regions-Repeats pages zero token address p pf q aligned h tracks knows table_is = cc
  scan_regions-Repeats pages (suc fuel) token address p pf q aligned h tracks knows table_is =
      elim (Bool-cases (
        ltb address process.maximum_address
        && ltb p.bytes_scanned limit
        && process.token_at address == token)) [
          | inl on ↦
              rw
                (test-same p.bytes_scanned q.bytes_scanned limit address process.maximum_address
                  (process.token_at address == token) true tracks.same on)
                (visit-Repeats (scan_regions process false limit fuel token)
                  (scan_regions process true limit fuel token) address (process.query address) p pf
                  q (scan_regions-Repeats pages fuel token)
                  (scan_regions-Keeps process false limit pages fuel token) aligned
                  (λ mbi e. pages address mbi aligned e) (rw on at h) tracks knows table_is)
          | inr off ↦
              rw
                (test-same p.bytes_scanned q.bytes_scanned limit address process.maximum_address
                  (process.token_at address == token) false tracks.same off)
                (q, refl, subst (λ r. Tracks dumps r q) (some-eq p pf (rw off at h)) tracks)
        ]

-- A pass for the hashes alone, and then a pass that looks for strings in the same memory, both
-- return, and the second recovers no string and dumps no memory; for a process whose regions begin
-- where they are asked for and are whole pages, and whose reads give no more bytes than requested.
pub run_pass_unchanged :
    (process : ScannedProcess) (token : ℕ) (hashes : List (ℕ × ℕ)) (dumps : List (ℕ × ℕ × List ℕ))
    → ((address size : ℕ) → length (process.read address size) ≤ size)
    → AnswersPages process
    → (p : Pass) × (q : Pass) × (run_pass process false token hashes dumps ≡ some p)
      × (run_pass process true token p.hashes p.dumps ≡ some q)
      × (q.recovered ≡ [])
      × (q.dumps ≡ p.dumps)
unfolding run_pass Repeats NextRepeats Knows
run_pass_unchanged process token hashes dumps reads pages =
    let (p, first, bound) = run_pass-Ends process false token hashes dumps reads in
    let (q, second, tracks) =
      scan_regions-Repeats process maximum_bytes_per_pass p.dumps p.hashes pages
        (suc process.maximum_address) token 0 (start_pass hashes dumps) p
        (start_pass p.hashes p.dumps) (omega arith) first
        (record { same = refl; nothing = refl; untouched = refl }) (λ c low. refl)
        (λ c low. refl) in
    (p, q, first, second, tracks.nothing, tracks.untouched)
