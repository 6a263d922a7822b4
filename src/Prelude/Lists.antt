-- ===== src/Prelude/Lists.antt =====
-- Lists measured by native numbers, Boolean searches, and predicates on every item.
use Prim.Native.Nat.{ℕ, zero, suc, ◌+◌, ◌-◌, ◌≤◌}
use mathlib.Core.Path.{◌≡◌, refl, ap}
use mathlib.Core.Bool.{Bool, true, false, ◌||◌}
use mathlib.Core.Logic.{inl, inr}
use mathlib.Core.List.{List, [], ◌∷◌, ◌++◌}
use mathlib.Core.Option.{Option, none, some}
use native.Mathlib.Omega.{arith}
use inspec_thor.Prelude.Tests.{if◌then◌else◌, Bool-cases}

module _ {ℓ} {A : Type ℓ} where
  abbrev pub length : List A → ℕ
  length [] = 0
  length (x ∷ xs) = suc (length xs)

  abbrev pub take : ℕ → List A → List A
  take zero xs = []
  take (suc n) [] = []
  take (suc n) (x ∷ xs) = x ∷ take n xs

  abbrev pub drop : ℕ → List A → List A
  drop zero xs = xs
  drop (suc n) [] = []
  drop (suc n) (x ∷ xs) = drop n xs

  abbrev pub replicate : ℕ → A → List A
  replicate zero a = []
  replicate (suc n) a = a ∷ replicate n a

  -- std::any_of, std::find_if and the filter that erase with remove_if keeps.
  abbrev pub any : (A → Bool) → List A → Bool
  any p [] = false
  any p (x ∷ xs) = p x || any p xs

  abbrev pub find_if : (A → Bool) → List A → Option A
  find_if p [] = none
  find_if p (x ∷ xs) = if p x then some x else find_if p xs

  abbrev pub keep_if : (A → Bool) → List A → List A
  keep_if p [] = []
  keep_if p (x ∷ xs) = if p x then x ∷ keep_if p xs else keep_if p xs

  abbrev pub last? : List A → Option A
  last? [] = none
  last? (x ∷ []) = some x
  last? (x ∷ y ∷ xs) = last? (y ∷ xs)

module _ {ℓ} {A : Type ℓ} where
  pub length-append : (xs ys : List A) → length (xs ++ ys) ≡ length xs + length ys
  length-append [] ys = omega arith
  length-append (x ∷ xs) ys = omega (arith, length-append xs ys)

  pub length-drop : (n : ℕ) (xs : List A) → length (drop n xs) ≡ length xs - n
  length-drop zero xs = omega arith
  length-drop (suc n) [] = omega arith
  length-drop (suc n) (x ∷ xs) = omega (arith, length-drop n xs)

  pub take-append-drop : (n : ℕ) (xs : List A) → take n xs ++ drop n xs ≡ xs
  take-append-drop zero xs = refl
  take-append-drop (suc n) [] = refl
  take-append-drop (suc n) (x ∷ xs) = ap (λ ys. x ∷ ys) (take-append-drop n xs)

  pub length-keep_if-le : (p : A → Bool) (xs : List A) → length (keep_if p xs) ≤ length xs
  length-keep_if-le p [] = omega arith
  length-keep_if-le p (x ∷ xs) = ground (arith, length-keep_if-le p xs)

  pub any-append : (p : A → Bool) (xs ys : List A) → any p (xs ++ ys) ≡ (any p xs || any p ys)
  any-append p [] ys = refl
  any-append p (x ∷ xs) ys = ground (arith, any-append p xs ys)

module _ {ℓ κ} {A : Type ℓ} (P : A → Type κ) where
  abbrev pub All : List A → Type κ
  All [] = Unit
  All (x ∷ xs) = P x × All xs

  pub All-append : (xs ys : List A) → All xs → All ys → All (xs ++ ys)
  All-append [] ys _ hy = hy
  All-append (x ∷ xs) ys (px, hx) hy = (px, All-append xs ys hx hy)

  pub All-drop : (n : ℕ) (xs : List A) → All xs → All (drop n xs)
  All-drop zero xs h = h
  All-drop (suc n) [] h = h
  All-drop (suc n) (x ∷ xs) (px, h) = All-drop n xs h

module _ {ℓ} {A : Type ℓ} where
  -- Change the first item that p picks, as through the iterator of std::find_if.
  abbrev pub update_first : (A → Bool) → (A → A) → List A → List A
  update_first p f [] = []
  update_first p f (x ∷ xs) = if p x then f x ∷ xs else x ∷ update_first p f xs

  -- Change the last one, as through std::find_if over rbegin and rend.
  abbrev pub update_last : (A → Bool) → (A → A) → List A → List A
  update_last p f [] = []
  update_last p f (x ∷ xs) =
      if any p xs then x ∷ update_last p f xs else if p x then f x ∷ xs else x ∷ xs

module _ {ℓ} {A : Type ℓ} (p : A → Bool) where
  pub find_if-append_new :
      (xs : List A) (x : A) → find_if p xs ≡ none → p x ≡ true → find_if p (xs ++ x ∷ []) ≡ some x
  find_if-append_new [] x h e = ground arith
  find_if-append_new (y ∷ xs) x h e = ground (arith, find_if-append_new xs x)

  pub find_if-append :
      (xs ys : List A) (x : A) → find_if p xs ≡ some x → find_if p (xs ++ ys) ≡ some x
  find_if-append [] ys x h = cc
  find_if-append (y ∷ xs) ys x h = ground (arith, find_if-append xs ys x)

  pub find_if-update_first :
      (f : A → A) (xs : List A) (x : A)
      → find_if p xs ≡ some x
      → p (f x) ≡ true
      → find_if p (update_first p f xs) ≡ some (f x)
  find_if-update_first f [] x h e = cc
  find_if-update_first f (y ∷ xs) x h e = ground (arith, find_if-update_first f xs x)

  pub update_first_fixed :
      (f : A → A) (xs : List A) (x : A) → find_if p xs ≡ some x → f x ≡ x → update_first p f xs ≡ xs
  update_first_fixed f [] x h e = cc
  update_first_fixed f (y ∷ xs) x h e = ground (arith, update_first_fixed f xs x)

  -- What a search finds passes its test.
  pub find_if_holds : (xs : List A) (x : A) → find_if p xs ≡ some x → p x ≡ true
  find_if_holds [] x h = cc
  find_if_holds (y ∷ xs) x h = ground (arith, find_if_holds xs x)

  pub find_if-any : (xs : List A) (x : A) → find_if p xs ≡ some x → any p xs ≡ true
  find_if-any [] x h = cc
  find_if-any (y ∷ xs) x h = ground (arith, find_if-any xs x)

  pub any-find_if : (xs : List A) → any p xs ≡ true → (x : A) × (find_if p xs ≡ some x)
  any-find_if [] h = absurd (cc)
  any-find_if (y ∷ xs) h = elim (Bool-cases (p y)) [
    | inl here ↦ (y, ground arith)
    | inr there ↦ let (x, e) = any-find_if xs (ground arith) in (x, ground arith)
  ]
