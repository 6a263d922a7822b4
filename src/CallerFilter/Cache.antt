-- ===== src/CallerFilter/Cache.antt =====
-- The cache of module paths changes no verdict while the modules stay what they are.
use inspec_thor.Prelude.{
  ℕ, ◌≡◌, refl, sym, ap, ==_iff, ◌∙◌, true, ◌==◌, [], ◌∷◌, Option, none, some, Text, All,
  Bool-cases, Option-cases, inl, inr, arith,
}
use inspec_thor.CallerFilter.{
  Loader, ModuleCache, lookup, remember, path_with, module_path, judge, should_trace_in,
  should_trace,
}

-- Every cached path is what GetModuleFileNameW still answers for its handle.
unfoldable pub IsFresh : Loader → ModuleCache → Type 0
IsFresh l = All (λ entry. l.file_name entry.0 ≡ some entry.1)

lookup-here :
    (handle key : ℕ) (kept : Text) (cache : ModuleCache)
    → (handle == key) ≡ true
    → lookup handle ((key, kept) ∷ cache) ≡ some kept
unfolding lookup
lookup-here handle key kept cache same = rw same refl

lookup-file_name :
    (l : Loader) (handle : ℕ) (cache : ModuleCache) (path : Text)
    → IsFresh l cache
    → lookup handle cache ≡ some path
    → l.file_name handle ≡ some path
unfolding lookup IsFresh
lookup-file_name l handle [] path fresh found = cc
lookup-file_name l handle ((key, kept) ∷ cache) path (here, others) found =
    elim (Bool-cases (handle == key)) [
      | inl same ↦
          ap l.file_name ((==_iff handle key).0 same)
          ∙ (here ∙ (sym (lookup-here handle key kept cache same) ∙ found))
      | inr other ↦ lookup-file_name l handle cache path others (ground arith)
    ]

-- The path that is found does not depend on a fresh cache, which stays fresh.
path_with-IsFresh :
    (l : Loader) (handle : ℕ) (cache : ModuleCache) (found : Option Text)
    → IsFresh l cache
    → lookup handle cache ≡ found
    → ((path_with l handle cache found).0 ≡ (path_with l handle [] none).0)
      × IsFresh l (path_with l handle cache found).1
unfolding path_with remember IsFresh
path_with-IsFresh l handle cache (some path) fresh found =
    (rw (lookup-file_name l handle cache path fresh found) refl, fresh)
path_with-IsFresh l handle cache none fresh found = elim (Option-cases (l.file_name handle)) [
  | inl unnamed ↦ rw unnamed (refl, fresh)
  | inr (path, named) ↦ rw named (refl, (named, fresh))
]

should_trace_in-cache :
    (l : Loader) (mode address : ℕ) (cache : ModuleCache) (handle : Option ℕ)
    → IsFresh l cache
    → ((should_trace_in l mode address cache handle).0
        ≡ (should_trace_in l mode address [] handle).0)
      × IsFresh l (should_trace_in l mode address cache handle).1
unfolding should_trace_in module_path lookup
should_trace_in-cache l mode address cache none fresh = (refl, fresh)
should_trace_in-cache l mode address cache (some handle) fresh =
    let (same, kept) = path_with-IsFresh l handle cache (lookup handle cache) fresh refl in
    (ap (judge l mode handle) same, kept)

-- A verdict found with cached paths that are all still right is the verdict found without a cache,
-- and the cached paths are all right afterwards.
pub should_trace-cache :
    (l : Loader) (mode address : ℕ) (cache : ModuleCache)
    → IsFresh l cache
    → ((should_trace l mode address cache).0 ≡ (should_trace l mode address []).0)
      × IsFresh l (should_trace l mode address cache).1
unfolding should_trace
should_trace-cache l mode address cache fresh =
    should_trace_in-cache l mode address cache (l.module_at address) fresh
