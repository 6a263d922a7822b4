-- ===== src/RuntimeStrings/Regions.antt =====
-- Which hashes the regions of a pass write.
use inspec_thor.Prelude.{
  ℕ, zero, suc, ◌+◌, ◌%◌, ◌^◌, ◌≤◌, ◌<◌, ◌≡◌, refl, sym, ap, ◌∙◌, Bool, not, ◌&&◌, ◌||◌, Option,
  none, some, leb, ltb, ◌==◌, arith, Bool-cases, Option-cases, inl, inr,
}
use inspec_thor.RuntimeStrings.Rows.{
  MemoryInfo, is_readable_runtime_region, is_executable_page_protection,
}
use inspec_thor.RuntimeStrings.Scan.{
  ScannedProcess, Pass, chunk_size, region_end, scan_region, then_next, visit, scan_regions,
  find_hash,
}
use inspec_thor.RuntimeStrings.Rescan.{some-eq, scan_chunks-Keeps}

-- What VirtualQueryEx says at the start of a page: the region begins there, is whole pages, and lies
-- below the top of the addresses.
pub record Answers (address : ℕ) (mbi : MemoryInfo) : Type 0 where
  pub begins : mbi.base_address ≡ address
  pub whole : mbi.region_size % 4096 ≡ 0
  pub fits : mbi.base_address + mbi.region_size + chunk_size ≤ 2 ^ 64

abbrev pub AnswersPages : ScannedProcess → Type 0
AnswersPages process =
    (address : ℕ) (mbi : MemoryInfo)
    → address % 4096 ≡ 0
    → process.query address ≡ some mbi
    → Answers address mbi

pub none-some : (T : Type 0) (p : Pass) → ◌≡◌ {A = Option Pass} none (some p) → T
none-some T p h = cc

module _ (process : ScannedProcess) (emit_strings : Bool) (limit : ℕ) where
  pub region_end-sum :
      (address : ℕ) (mbi : MemoryInfo)
      → Answers address mbi
      → region_end process emit_strings limit mbi ≡ address + mbi.region_size
  unfolding region_end
  region_end-sum address mbi answers = omega (arith, answers.begins, answers.fits)

  -- Only hashes from the region's start on are written.
  scan_region-Keeps :
      (address : ℕ) (mbi : MemoryInfo) (p pf : Pass) (c : ℕ)
      → Answers address mbi
      → scan_region process emit_strings limit address mbi p ≡ some pf
      → c < address
      → find_hash c pf.hashes ≡ find_hash c p.hashes
  unfolding scan_region
  scan_region-Keeps address mbi p pf c answers h below =
      elim (Bool-cases (
        is_readable_runtime_region mbi
        && (not (process.executable_only address) || is_executable_page_protection mbi.protect))) [
          | inl scanned ↦
              scan_chunks-Keeps process emit_strings limit (suc limit) mbi.base_address
                (region_end process emit_strings limit mbi) mbi p pf c (rw scanned at h)
                (omega (arith, region_end-sum address mbi answers, answers.begins, answers.fits))
                (omega (arith, answers.begins))
          | inr other ↦ ap (λ (q : Pass). find_hash c q.hashes) (sym (some-eq p pf (rw other at h)))
        ]

  unfoldable pub Keeps : (ℕ → Pass → Option Pass) → Type 0
  Keeps next =
      (address : ℕ) (p pf : Pass) (c : ℕ)
      → address % 4096 ≡ 0
      → next address p ≡ some pf
      → c < address
      → find_hash c pf.hashes ≡ find_hash c p.hashes

  visit-Keeps :
      (next : ℕ → Pass → Option Pass) (address : ℕ) (found : Option MemoryInfo) (p pf : Pass)
      (c : ℕ)
      → Keeps next
      → address % 4096 ≡ 0
      → ((mbi : MemoryInfo) → found ≡ some mbi → Answers address mbi)
      → visit process emit_strings limit next address found p ≡ some pf
      → c < address
      → find_hash c pf.hashes ≡ find_hash c p.hashes
  unfolding visit then_next Keeps
  visit-Keeps next address none p pf c keeps aligned answers h below =
      ap (λ (q : Pass). find_hash c q.hashes) (sym (some-eq p pf h))
  visit-Keeps next address (some mbi) p pf c keeps aligned answers h below =
      let end = region_end process emit_strings limit mbi in
      let sum = region_end-sum address mbi (answers mbi refl) in
      let whole = (answers mbi refl).whole in
      elim (Bool-cases (leb end address)) [
        | inl back ↦ ap (λ (q : Pass). find_hash c q.hashes) (sym (some-eq p pf (rw back at h)))
        | inr up ↦ elim (Option-cases (scan_region process emit_strings limit address mbi p)) [
          | inl out ↦
              none-some (find_hash c pf.hashes ≡ find_hash c p.hashes) pf (rw (up, out) at h)
          | inr (r, e) ↦
              keeps end r pf c (omega arith) (rw (up, e) at h) (ground arith)
              ∙ scan_region-Keeps address mbi p r c (answers mbi refl) e below
        ]
      ]

  pub scan_regions-Keeps :
      AnswersPages process
      → (fuel token : ℕ) → Keeps (scan_regions process emit_strings limit fuel token)
  unfolding scan_regions Keeps
  scan_regions-Keeps pages zero token address p pf c aligned h below = cc
  scan_regions-Keeps pages (suc fuel) token address p pf c aligned h below =
      elim (Bool-cases (
        ltb address process.maximum_address
        && ltb p.bytes_scanned limit
        && process.token_at address == token)) [
          | inl on ↦
              visit-Keeps (scan_regions process emit_strings limit fuel token) address
                (process.query address) p pf c (scan_regions-Keeps pages fuel token) aligned
                (λ mbi e. pages address mbi aligned e) (rw on at h) below
          | inr off ↦ ap (λ (q : Pass). find_hash c q.hashes) (sym (some-eq p pf (rw off at h)))
        ]
