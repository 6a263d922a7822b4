-- ===== src/StdPath.antt =====
-- std::filesystem::path on Windows, the operations that never ask the system: the parts of a path
-- by the rules of the Microsoft standard library (drive letters, \\server and \\?\ prefixes).
mod Tests
use inspec_thor.Prelude.{
  ℕ, zero, suc, ◌+◌, ◌-◌, Bool, true, false, not, ◌&&◌, ◌||◌, List, [], ◌∷◌, ◌++◌, reverse, Text,
  codes, text_eq, is_empty, ◌==◌, leb, if◌then◌else◌, any, length, take, drop, after_last,
}

unfoldable pub is_slash : ℕ → Bool
is_slash c = c == b'\\' || c == b'/'

unfoldable pub is_letter : ℕ → Bool
is_letter c = (leb b'A' c && leb c b'Z') || (leb b'a' c && leb c b'z')

unfoldable pub skip_while : (ℕ → Bool) → Text → Text
skip_while p [] = []
skip_while p (c ∷ s) = if p c then skip_while p s else c ∷ s

unfoldable pub take_until : (ℕ → Bool) → Text → Text
take_until p [] = []
take_until p (c ∷ s) = if p c then [] else c ∷ take_until p s

unfoldable pub drop_trailing : (ℕ → Bool) → Text → Text
unfolding skip_while
drop_trailing p s = reverse (skip_while p (reverse s))

starts_slash : Text → Bool
unfolding is_slash
starts_slash [] = false
starts_slash (c ∷ s) = is_slash c

-- The length of \\?\, \\.\, \??\ without the last slash, or of \\server.
network_root : ℕ → Text → ℕ
unfolding is_slash starts_slash take_until
network_root b [] = 0
network_root b (x ∷ []) = if is_slash b && not (is_slash x) then 3 else 0
network_root b (x ∷ y ∷ r) =
    if is_slash y
      && not (starts_slash r)
      && ((is_slash b && (x == b'?' || x == b'.')) || (b == b'?' && x == b'?'))
    then 3
    else if is_slash b && not (is_slash x)
    then 3 + length (take_until is_slash (y ∷ r))
    else 0

unfoldable pub root_name_length : Text → ℕ
unfolding is_slash is_letter network_root
root_name_length [] = 0
root_name_length (a ∷ []) = 0
root_name_length (a ∷ b ∷ r) =
    if is_letter a && b == b':' then 2 else if is_slash a then network_root b r else 0

unfoldable pub relative_path : Text → Text
unfolding is_slash root_name_length skip_while
relative_path s = skip_while is_slash (drop (root_name_length s) s)

unfoldable pub filename : Text → Text
unfolding is_slash relative_path after_last
filename s = after_last is_slash (relative_path s)

-- From the last item that p picks, or nothing.
from_last : (ℕ → Bool) → Text → Text
from_last p [] = []
from_last p (c ∷ s) = if any p s then from_last p s else if p c then c ∷ s else []

-- A dot in the first place starts no extension, and `..` has none.
name_extension : Text → Text
unfolding from_last text_eq
name_extension [] = []
name_extension (c ∷ s) = if text_eq (c ∷ s) (codes "..") then [] else from_last (λ d. d == b'.') s

unfoldable pub extension : Text → Text
unfolding filename name_extension take_until
extension s = name_extension (take_until (λ c. c == b':') (filename s))

unfoldable pub parent_path : Text → Text
unfolding is_slash relative_path drop_trailing
parent_path s =
    let rel = relative_path s in
    take (length s - length rel) s
    ++ drop_trailing is_slash (drop_trailing (λ c. not (is_slash c)) rel)

unfoldable pub is_absolute : Text → Bool
unfolding is_letter starts_slash root_name_length
is_absolute [] = false
is_absolute (a ∷ []) = false
is_absolute (a ∷ b ∷ r) =
    if is_letter a && b == b':' then starts_slash r else not (root_name_length (a ∷ b ∷ r) == 0)

ends_slash : Text → Bool
unfolding is_slash
ends_slash [] = false
ends_slash (c ∷ []) = is_slash c
ends_slash (c ∷ d ∷ s) = ends_slash (d ∷ s)

-- `base / name` for a name that has no root of its own.
infixl 60 ◌//◌
unfoldable pub ◌//◌ : Text → Text → Text
unfolding root_name_length ends_slash
base // name =
    if root_name_length base == length base
    then (if leb 3 (length base) then base ++ b'\\' ∷ name else base ++ name)
    else if ends_slash base
    then base ++ name
    else base ++ b'\\' ∷ name
