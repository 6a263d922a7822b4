-- ===== src/RuntimeStrings/Recovers.antt =====
-- What the rows of an encoded text are: the encoded one, and the decoded one behind it.
use inspec_thor.Prelude.{
  ℕ, ◌+◌, ◌*◌, ◌/◌, ◌%◌, ◌≤◌, ◌<◌, ◌≡◌, refl, Bool, true, false, not, List, [], ◌∷◌, ◌++◌, Option,
  none, some, Text, literal, length, ltb, ◌==◌, arith, append_assoc, Bool-cases, inl, inr,
}
use inspec_thor.Format.{digit}
use inspec_thor.RuntimeStrings.Decode.{
  alphabet, position, sextet, base64_group, base64_bytes, long_enough, has_bad_size,
  all_displayable, decode_base64_runtime_string,
}
use inspec_thor.RuntimeStrings.Hex.{
  Displayable, byte_bound, encode_hex, length-encode_hex, decode_hex-encode_hex,
}
use inspec_thor.RuntimeStrings.Base64.{
  encode_base64, length-encode_base64, decode_base64-encode_base64, passes_up_to, passes_up_to_lem,
  reads_back, reads_back_lem,
}
use inspec_thor.RuntimeStrings.Rows.{
  MemoryInfo, RecoveredStringRow, candidate_row, decoded_row, append_recovered_string_candidate,
}

position_bound : (c i : ℕ) (s : Text) (v : ℕ) → position c i s ≡ some v → v < i + length s
unfolding position
position_bound c i [] v h = cc
position_bound c i (d ∷ s) v h = ground (arith, position_bound c (i + 1) s v)

sextet_bound : (c v : ℕ) → sextet c ≡ some v → v < 64
unfolding sextet
sextet_bound c v h = elim (Bool-cases (c == b'=')) [
  | inl padding ↦ ground arith
  | inr symbol ↦ position_bound c 0 alphabet v (rw symbol at h)
]

low_digit : ℕ → Bool
low_digit k = reads_back (sextet (digit false k)) (52 + k)

low_digit_table : passes_up_to low_digit 8 ≡ true
unfolding passes_up_to low_digit reads_back sextet digit
low_digit_table = refl

sextet-digit : (k : ℕ) → k < 8 → sextet (digit false k) ≡ some (52 + k)
unfolding low_digit
sextet-digit k below =
    reads_back_lem (sextet (digit false k)) (52 + k)
      (passes_up_to_lem low_digit 8 k below low_digit_table)

-- A decoded text that begins with a byte that is not displayable is refused.
high_byte :
    (byte : ℕ) (s : Text) → 127 ≤ byte → all_displayable (long_enough (some (byte ∷ s))) ≡ none
unfolding all_displayable long_enough
high_byte byte s high = ground arith

refused_none : all_displayable (long_enough none) ≡ none
unfolding all_displayable long_enough
refused_none = refl

group_refused :
    (a : ℕ) (b c d : Option ℕ) (third fourth : Bool) (rest : Option Text)
    → 52 ≤ a
    → a < 60
    → ((v : ℕ) → b ≡ some v → v < 64)
    → ((v : ℕ) → c ≡ some v → v < 64)
    → ((v : ℕ) → d ≡ some v → v < 64)
    → all_displayable (long_enough (base64_group (some a) b c d third fourth rest)) ≡ none
unfolding base64_group
group_refused a none c d third fourth rest lo hi hb hc hd = refused_none
group_refused a (some b) none d third fourth rest lo hi hb hc hd = refused_none
group_refused a (some b) (some c) none third fourth rest lo hi hb hc hd = refused_none
group_refused a (some b) (some c) (some d) third fourth none lo hi hb hc hd = refused_none
group_refused a (some b) (some c) (some d) third fourth (some s) lo hi hb hc hd =
    let bound_b = hb b refl in
    let bound_c = hc c refl in
    let bound_d = hd d refl in
    let first = (a * 262144 + b * 4096 + c * 64 + d) / 65536 % 256 in
    high_byte first _ (omega arith)

-- Hexadecimal digits are symbols of base64 too; read so, they give no text that can be shown.
decode_base64-encode_hex :
    (s : Text) → Displayable s → decode_base64_runtime_string (encode_hex s) ≡ none
unfolding decode_base64_runtime_string has_bad_size encode_hex base64_bytes
decode_base64-encode_hex [] shown = refl
decode_base64-encode_hex (c ∷ []) shown = refl
decode_base64-encode_hex (c ∷ d ∷ s) (first, others) =
    elim (Bool-cases (has_bad_size 4 (encode_hex (c ∷ d ∷ s)))) [
      | inl bad ↦ rw bad refl
      | inr good ↦
          let bound = byte_bound c first in
          let bits = sextet-digit (c / 16) (omega arith) in
          rw (good, bits)
            (group_refused (52 + c / 16) (sextet (digit false (c % 16)))
              (sextet (digit false (d / 16))) (sextet (digit false (d % 16)))
              (not (digit false (d / 16) == b'=')) (not (digit false (d % 16) == b'='))
              (base64_bytes (encode_hex s)) (omega arith) (omega arith)
              (sextet_bound (digit false (c % 16))) (sextet_bound (digit false (d / 16)))
              (sextet_bound (digit false (d % 16))))
    ]

module _ (rows : List RecoveredStringRow) (pid address : ℕ) (encoding : Text) (mbi : MemoryInfo)
    (time : Text) (s : Text) where
  -- A displayable text of 10 to 3072 characters that is found in base64 gives two rows: what was
  -- found, and the text itself, marked as decoded from base64.
  pub recovers_base64 :
      Displayable s
      → 10 ≤ length s
      → length s ≤ 3072
      → append_recovered_string_candidate rows pid address (encode_base64 s) encoding mbi time
        ≡ rows
          ++ candidate_row pid address (encode_base64 s) encoding mbi time
            ∷ decoded_row s
                (literal "Base64 -> ASCII")
                (candidate_row pid address (encode_base64 s) encoding mbi time)
            ∷ []
  unfolding append_recovered_string_candidate
  recovers_base64 shown short long =
      let size : ltb (length (encode_base64 s)) 5 ≡ false =
        rw (length-encode_base64 s) (ground arith) in
      rw (size, decode_base64-encode_base64 s shown short long)
        (append_assoc rows (candidate_row pid address (encode_base64 s) encoding mbi time ∷ []) (
          decoded_row s (literal "Base64 -> ASCII")
            (candidate_row pid address (encode_base64 s) encoding mbi time)
          ∷ []))

  -- A displayable text of 8 to 2048 characters that is found as hexadecimal digits gives two rows:
  -- what was found, and the text itself, marked as decoded from hexadecimal digits.
  pub recovers_hex :
      Displayable s
      → 8 ≤ length s
      → length s ≤ 2048
      → append_recovered_string_candidate rows pid address (encode_hex s) encoding mbi time
        ≡ rows
          ++ candidate_row pid address (encode_hex s) encoding mbi time
            ∷ decoded_row s
                (literal "Hex -> ASCII")
                (candidate_row pid address (encode_hex s) encoding mbi time)
            ∷ []
  unfolding append_recovered_string_candidate
  recovers_hex shown short long =
      let size : ltb (length (encode_hex s)) 5 ≡ false = rw (length-encode_hex s) (ground arith) in
      rw (size, decode_base64-encode_hex s shown, decode_hex-encode_hex s shown short long)
        (append_assoc rows (candidate_row pid address (encode_hex s) encoding mbi time ∷ []) (
          decoded_row s (literal "Hex -> ASCII")
            (candidate_row pid address (encode_hex s) encoding mbi time)
          ∷ []))
