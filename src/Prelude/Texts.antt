-- ===== src/Prelude/Texts.antt =====
-- Text as a list of code units (std::string bytes or std::wstring units), for code that walks it.
use Prim.Native.Nat.{ℕ, ◌+◌}
use Prim.Native.Char.{code}
use Prim.Native.String.{String}
use mathlib.Core.Path.{◌≡◌, refl}
use mathlib.Core.Bool.{Bool, true, false, ◌&&◌, ◌||◌}
use mathlib.Core.List.{List, [], ◌∷◌, ◌++◌, map}
use native.Mathlib.Omega.{arith}
use inspec_thor.Prelude.Tests.{◌==◌, leb, if◌then◌else◌}
use inspec_thor.Prelude.Lists.{any, length, drop}

abbrev pub Text : Type 0
Text = List ℕ

-- The code units of a literal.
abbrev pub codes : String → Text
codes String.[] = []
codes (String.◌∷◌ c s) = code c ∷ codes s

abbrev pub is_empty : Text → Bool
is_empty [] = true
is_empty (c ∷ s) = false

unfoldable pub text_eq : Text → Text → Bool
text_eq [] [] = true
text_eq [] (d ∷ t) = false
text_eq (c ∷ s) [] = false
text_eq (c ∷ s) (d ∷ t) = c == d && text_eq s t

pub text_eq_refl : (s : Text) → text_eq s s ≡ true
unfolding text_eq
text_eq_refl [] = refl
text_eq_refl (c ∷ s) = ground (arith, text_eq_refl s)

pub text_eq→eq : (s t : Text) → text_eq s t ≡ true → s ≡ t
unfolding text_eq
text_eq→eq [] [] h = refl
text_eq→eq [] (d ∷ t) h = cc
text_eq→eq (c ∷ s) [] h = cc
text_eq→eq (c ∷ s) (d ∷ t) h = ground (arith, text_eq→eq s t)

-- tolower and towlower in the C locale.
unfoldable pub to_lower : ℕ → ℕ
to_lower c = if leb b'A' c && leb c b'Z' then c + 32 else c

unfoldable pub lower : Text → Text
unfolding to_lower
lower = map to_lower

pub to_lower_idem : (c : ℕ) → to_lower (to_lower c) ≡ to_lower c
unfolding to_lower
to_lower_idem c = ground arith

pub lower_idem : (s : Text) → lower (lower s) ≡ lower s
unfolding lower
lower_idem [] = refl
lower_idem (c ∷ s) = ground (arith, to_lower_idem c, lower_idem s)

-- s begins with the prefix t.
unfoldable pub starts_with : Text → Text → Bool
starts_with s [] = true
starts_with [] (d ∷ t) = false
starts_with (c ∷ s) (d ∷ t) = c == d && starts_with s t

-- s.find(t) != npos
unfoldable pub contains : Text → Text → Bool
unfolding starts_with
contains [] t = is_empty t
contains (c ∷ s) t = starts_with (c ∷ s) t || contains s t

abbrev pub is_member : Text → List Text → Bool
is_member s = any (text_eq s)

-- The longest suffix with no item that p picks: s.substr(s.find_last_of(...) + 1), or all of s.
unfoldable pub after_last : (ℕ → Bool) → Text → Text
after_last p [] = []
after_last p (c ∷ s) = if any p s then after_last p s else if p c then s else c ∷ s

-- A literal that proofs leave shut.
unfoldable pub literal : String → Text
literal s = codes s

pub starts_with-drop : (s t : Text) → starts_with s t ≡ true → s ≡ t ++ drop (length t) s
unfolding starts_with
starts_with-drop s [] h = refl
starts_with-drop [] (d ∷ t) h = cc
starts_with-drop (c ∷ s) (d ∷ t) h = ground (arith, starts_with-drop s t)

pub starts_with-append : (t s : Text) → starts_with (t ++ s) t ≡ true
unfolding starts_with
starts_with-append [] s = refl
starts_with-append (d ∷ t) s = ground (arith, starts_with-append t s)

pub drop-append {ℓ} : {A : Type ℓ} (t s : List A) → drop (length t) (t ++ s) ≡ s
drop-append [] s = refl
drop-append (d ∷ t) s = drop-append t s
