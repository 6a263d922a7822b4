-- ===== src/StaticAnalysis/Strings.antt =====
-- `ExtractStrings` of the static analysis in src/controller/gui.cpp.
use inspec_thor.Prelude.{
  ℕ, ◌+◌, ◌*◌, Bool, ◌&&◌, List, [], ◌∷◌, ◌++◌, Text, length, leb, ltb, if◌then◌else◌,
}

abbrev pub is_plain : ℕ → Bool
is_plain c = leb 32 c && leb c 126

abbrev pub max_strings : ℕ
max_strings = 1000

unfoldable pub push_string : Text → List Text → List Text
push_string current found =
    if leb 4 (length current) && ltb (length found) max_strings
    then found ++ current ∷ []
    else found

-- The loop, and the push behind it.
unfoldable pub collect_strings : List ℕ → Text → List Text → List Text
unfolding push_string
collect_strings [] current found = push_string current found
collect_strings (c ∷ units) current found =
    collect_strings units (if is_plain c then current ++ c ∷ [] else [])
      (if is_plain c then found else push_string current found)

-- The 16-bit units at even offsets; a last single byte is left.
unfoldable pub words : List ℕ → List ℕ
words [] = []
words (a ∷ []) = []
words (a ∷ b ∷ bytes) = (a + 256 * b) ∷ words bytes

unfoldable pub extract_strings : List ℕ → List Text → List Text → List Text × List Text
unfolding collect_strings words
extract_strings bytes ascii unicode =
    (collect_strings bytes [] ascii, collect_strings (words bytes) [] unicode)
