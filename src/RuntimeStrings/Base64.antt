-- ===== src/RuntimeStrings/Base64.antt =====
-- Text written in base64, and what `DecodeBase64RuntimeString` makes of it.
use inspec_thor.Prelude.{
  ℕ, zero, suc, ◌+◌, ◌*◌, ◌/◌, ◌%◌, ◌≤◌, ◌<◌, ◌≡◌, refl, ap, Bool, true, false, not, ◌&&◌, [], ◌∷◌,
  ◌++◌, Option, none, some, Text, length, any, leb, ◌==◌, arith,
}
use inspec_thor.RuntimeStrings.Decode.{
  is_displayable_decoded_byte, alphabet, sextet, packed_bytes, push_decoded, base64_group,
  base64_bytes, long_enough, has_bad_size, all_displayable, decode_base64_runtime_string,
}
use inspec_thor.RuntimeStrings.Hex.{Displayable, byte_bound}

abbrev get_or : ℕ → Text → ℕ → ℕ
get_or default [] i = default
get_or default (c ∷ s) zero = c
get_or default (c ∷ s) (suc i) = get_or default s i

unfoldable pub symbol : ℕ → ℕ
symbol i = get_or b'=' alphabet i

unfoldable pub encode_base64 : Text → Text
encode_base64 [] = []
encode_base64 (x ∷ []) = symbol (x / 4) ∷ symbol (x % 4 * 16) ∷ b'=' ∷ b'=' ∷ []
encode_base64 (x ∷ y ∷ []) =
    symbol (x / 4) ∷ symbol (x % 4 * 16 + y / 16) ∷ symbol (y % 16 * 4) ∷ b'=' ∷ []
encode_base64 (x ∷ y ∷ z ∷ s) =
    symbol (x / 4)
    ∷ symbol (x % 4 * 16 + y / 16)
    ∷ symbol (y % 16 * 4 + z / 64)
    ∷ symbol (z % 64)
    ∷ encode_base64 s

-- Both facts about a symbol, checked at each of the 64.
unfoldable pub reads_back : Option ℕ → ℕ → Bool
reads_back none i = false
reads_back (some v) i = v == i

-- A test that is true of each index below `count` ones.
unfoldable pub passes_up_to : (ℕ → Bool) → ℕ → Bool
passes_up_to test zero = true
passes_up_to test (suc count) = passes_up_to test count && test count

pub passes_up_to_lem :
    (test : ℕ → Bool) (count i : ℕ) → i < count → passes_up_to test count ≡ true → test i ≡ true
unfolding passes_up_to
passes_up_to_lem test zero i below passed = absurd (omega arith)
passes_up_to_lem test (suc count) i below passed = ground (arith, passes_up_to_lem test count i)

good_symbol : ℕ → Bool
good_symbol i = reads_back (sextet (symbol i)) i && not (symbol i == b'=')

symbol_table : passes_up_to good_symbol 64 ≡ true
unfolding passes_up_to good_symbol reads_back sextet symbol
symbol_table = refl

pub reads_back_lem : (o : Option ℕ) (i : ℕ) → reads_back o i ≡ true → o ≡ some i
unfolding reads_back
reads_back_lem none i h = cc
reads_back_lem (some v) i h = ground arith

sextet-symbol : (i : ℕ) → i < 64 → (sextet (symbol i) ≡ some i) × ((symbol i == b'=') ≡ false)
unfolding good_symbol
sextet-symbol i below =
    let good = passes_up_to_lem good_symbol 64 i below symbol_table in
    ground (arith, reads_back_lem (sextet (symbol i)) i)

sextet_padding : sextet b'=' ≡ some 0
unfolding sextet
sextet_padding = refl

packed_three :
    (x y z : ℕ)
    → x < 127
    → y < 127
    → z < 127
    → packed_bytes
        (x / 4 * 262144 + (x % 4 * 16 + y / 16) * 4096 + (y % 16 * 4 + z / 64) * 64 + z % 64)
        true
        true
      ≡ x ∷ y ∷ z ∷ []
unfolding packed_bytes
packed_three x y z hx hy hz = ground arith

packed_two :
    (x y : ℕ)
    → x < 127
    → y < 127
    → packed_bytes (x / 4 * 262144 + (x % 4 * 16 + y / 16) * 4096 + y % 16 * 4 * 64 + 0) true false
      ≡ x ∷ y ∷ []
unfolding packed_bytes
packed_two x y hx hy = ground arith

packed_one :
    (x : ℕ)
    → x < 127
    → packed_bytes (x / 4 * 262144 + x % 4 * 16 * 4096 + 0 * 64 + 0) false false ≡ x ∷ []
unfolding packed_bytes
packed_one x hx = ground arith

base64_bytes-encode_base64 : (s : Text) → Displayable s → base64_bytes (encode_base64 s) ≡ some s
unfolding encode_base64 base64_bytes base64_group push_decoded
base64_bytes-encode_base64 [] shown = refl
base64_bytes-encode_base64 (x ∷ []) (hx, last) =
    let bx = byte_bound x hx in
    let a = sextet-symbol (x / 4) (omega arith) in
    let b = sextet-symbol (x % 4 * 16) (omega arith) in rw (a.0, b.0) (ap some (packed_one x bx))
base64_bytes-encode_base64 (x ∷ y ∷ []) (hx, (hy, last)) =
    let bx = byte_bound x hx in
    let by = byte_bound y hy in
    let a = sextet-symbol (x / 4) (omega arith) in
    let b = sextet-symbol (x % 4 * 16 + y / 16) (omega arith) in
    let c = sextet-symbol (y % 16 * 4) (omega arith) in
    rw (a.0, b.0, c.0, c.1) (ap some (packed_two x y bx by))
base64_bytes-encode_base64 (x ∷ y ∷ z ∷ s) (hx, (hy, (hz, others))) =
    let bx = byte_bound x hx in
    let by = byte_bound y hy in
    let bz = byte_bound z hz in
    let a = sextet-symbol (x / 4) (omega arith) in
    let b = sextet-symbol (x % 4 * 16 + y / 16) (omega arith) in
    let c = sextet-symbol (y % 16 * 4 + z / 64) (omega arith) in
    let d = sextet-symbol (z % 64) (omega arith) in
    rw (a.0, b.0, c.0, c.1, d.0, d.1, base64_bytes-encode_base64 s others)
      (ap (λ (bytes : Text). some (bytes ++ s)) (packed_three x y z bx by bz))

pub length-encode_base64 : (s : Text) → length (encode_base64 s) ≡ (length s + 2) / 3 * 4
unfolding encode_base64
length-encode_base64 [] = omega arith
length-encode_base64 (x ∷ []) = omega arith
length-encode_base64 (x ∷ y ∷ []) = omega arith
length-encode_base64 (x ∷ y ∷ z ∷ s) = omega (arith, length-encode_base64 s)

any-Displayable :
    (s : Text) → Displayable s → any (λ c. not (is_displayable_decoded_byte c)) s ≡ false
any-Displayable [] shown = refl
any-Displayable (c ∷ s) (first, others) = rw first (any-Displayable s others)

pub decode_base64-encode_base64 :
    (s : Text)
    → Displayable s
    → 10 ≤ length s
    → length s ≤ 3072
    → decode_base64_runtime_string (encode_base64 s) ≡ some s
unfolding decode_base64_runtime_string has_bad_size
decode_base64-encode_base64 s shown short long =
    let size : has_bad_size 4 (encode_base64 s) ≡ false =
      rw (length-encode_base64 s) (ground arith) in
    let enough : leb 5 (length s) ≡ true = ground arith in
    rw
      (
        size,
        base64_bytes-encode_base64 s shown,
        long_enough,
        enough,
        all_displayable,
        any-Displayable s shown,
      )
      refl
