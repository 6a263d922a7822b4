-- ===== src/ChildPolicy/Boundary.antt =====
-- What `StartsWithPath` accepts, described without its tests.
use inspec_thor.Prelude.{
  ℕ, true, ◌≡◌, ◌↔◌, ◌⊎◌, inl, inr, [], ◌∷◌, ◌++◌, Text, text_eq, text_eq→eq, text_eq_refl,
  starts_with-drop, starts_with-append, drop-append, length, length-append, drop, arith, Bool-cases,
}
use inspec_thor.StdPath.{is_slash}
use inspec_thor.ChildPolicy.Paths.{slash_first, is_under}

-- The path is the root itself, or goes on from it with a separator: never a longer name that only
-- begins with the root's letters.
abbrev pub Within : Text → Text → Type 0
Within p r = (p ≡ r) ⊎ ((c : ℕ) × (rest : Text) × (is_slash c ≡ true) × (p ≡ r ++ c ∷ rest))

below : (p r tail : Text) → p ≡ r ++ tail → slash_first tail ≡ true → Within p r
unfolding slash_first
below p r [] e h = cc
below p r (c ∷ rest) e h = inr (c, rest, h, e)

is_under-Within : (p r : Text) → is_under p r ≡ true → Within p r
unfolding is_under
is_under-Within p r h = elim (Bool-cases (text_eq p r)) [
  | inl same ↦ inl (text_eq→eq p r same)
  | inr other ↦ below p r (drop (length r) p) (starts_with-drop p r (ground arith)) (ground arith)
]

Within-is_under : (p r : Text) → Within p r → is_under p r ≡ true
unfolding is_under slash_first
Within-is_under p r (inl e) = rw (e, text_eq_refl r)
Within-is_under p r (inr (c, rest, h, e)) =
    rw (e, drop-append r (c ∷ rest), starts_with-append r (c ∷ rest))
      (ground (arith, length-append r (c ∷ rest)))

-- The test that decides which directories hold a child: a path counts as inside a root exactly when
-- it is the root or continues it with a separator.
pub is_under_iff : (p r : Text) → (is_under p r ≡ true) ↔ Within p r
is_under_iff p r = (is_under-Within p r, Within-is_under p r)
