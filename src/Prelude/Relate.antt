-- ===== src/Prelude/Relate.antt =====
-- Two lists of one length whose items are related in pairs: what an update in place leaves behind.
use mathlib.Core.Path.{◌≡◌, refl}
use mathlib.Core.Bool.{Bool}
use mathlib.Core.List.{List, [], ◌∷◌}
use mathlib.Core.Logic.{inl, inr}
use native.Mathlib.Omega.{arith}
use inspec_thor.Prelude.Tests.{Bool-cases}
use inspec_thor.Prelude.Lists.{any, All, update_first, update_last}

pub data Pointwise {ℓ κ} {A : Type ℓ} (R : A → A → Type κ) : List A → List A → Type (ℓ ⊔ κ) where
  none_left : Pointwise R [] []
  pair : {x y : A} {xs ys : List A} → R x y → Pointwise R xs ys → Pointwise R (x ∷ xs) (y ∷ ys)

module _ {ℓ κ} {A : Type ℓ} {R : A → A → Type κ} where
  pub Pointwise-refl : ((x : A) → R x x) → (xs : List A) → Pointwise R xs xs
  Pointwise-refl h [] = none_left
  Pointwise-refl h (x ∷ xs) = pair (h x) (Pointwise-refl h xs)

  pub update_first-Pointwise :
      (p : A → Bool) (f : A → A)
      → ((x : A) → R x x)
      → ((x : A) → R x (f x))
      → (xs : List A) → Pointwise R xs (update_first p f xs)
  update_first-Pointwise p f same moved [] = none_left
  update_first-Pointwise p f same moved (x ∷ xs) = elim (Bool-cases (p x)) [
    | inl here ↦ rw here (pair (moved x) (Pointwise-refl same xs))
    | inr there ↦ rw there (pair (same x) (update_first-Pointwise p f same moved xs))
  ]

  pub update_last-Pointwise :
      (p : A → Bool) (f : A → A)
      → ((x : A) → R x x)
      → ((x : A) → R x (f x))
      → (xs : List A) → Pointwise R xs (update_last p f xs)
  update_last-Pointwise p f same moved [] = none_left
  update_last-Pointwise p f same moved (x ∷ xs) = elim (Bool-cases (any p xs)) [
    | inl later ↦ rw later (pair (same x) (update_last-Pointwise p f same moved xs))
    | inr last ↦ elim (Bool-cases (p x)) [
      | inl here ↦ rw (last, here) (pair (moved x) (Pointwise-refl same xs))
      | inr nowhere ↦ rw (last, nowhere) (pair (same x) (Pointwise-refl same xs))
    ]
  ]

  -- A test that related items pass alike finds the same in both lists.
  pub Pointwise-any :
      (q : A → Bool)
      → ((x y : A) → R x y → q y ≡ q x)
      → {xs ys : List A} → Pointwise R xs ys
      → any q ys ≡ any q xs
  Pointwise-any q h none_left = refl
  Pointwise-any q h (pair {x = x} {y = y} r rs) = ground (arith, h x y r, Pointwise-any q h rs)

  pub Pointwise-All {μ} :
      {P Q : A → Type μ}
      → ((x y : A) → R x y → P x → Q y)
      → {xs ys : List A} → Pointwise R xs ys
      → All P xs
      → All Q ys
  Pointwise-All h none_left a = tt
  Pointwise-All h (pair {x = x} {y = y} r rs) (a, as') = (h x y r a, Pointwise-All h rs as')
