-- ===== src/RuntimeStrings/Tests.antt =====
-- A process with one region, strings in it, and the theorems there.
use inspec_thor.Prelude.{
  subst, ltb, ltb→lt, Option, Bool-cases, inl, inr, false, none, ℕ, zero, suc, ◌+◌, ◌%◌, ◌^◌, ◌≤◌,
  ◌≡◌, refl, true, false, [], ◌∷◌, ◌++◌, some, Text, codes, literal, length, take, All, arith,
  if◌then◌else◌, ◌==◌, text_eq,
}
use inspec_thor.Format.{to_decimal, print_digits, digit}
use inspec_thor.RuntimeStrings.Decode.{
  decode_hex_runtime_string, decode_base64_runtime_string, is_displayable_decoded_byte,
}
use inspec_thor.RuntimeStrings.Hex.{Displayable, encode_hex}
use inspec_thor.RuntimeStrings.Base64.{encode_base64, symbol}
use inspec_thor.RuntimeStrings.Rows.{
  MemoryInfo, RecoveredStringRow, mem_commit, mem_private, candidate_row, decoded_row,
  append_recovered_string_candidate,
}
use inspec_thor.RuntimeStrings.Extract.{extract_runtime_strings, is_printable, pairs}
use inspec_thor.RuntimeStrings.Found.{Holds, finds_ascii}
use inspec_thor.RuntimeStrings.Wide.{widen, finds_wide}
use inspec_thor.RuntimeStrings.Recovers.{recovers_base64, recovers_hex}
use inspec_thor.RuntimeStrings.Merge.{row_key, no_recovered_strings, merge_recovered_strings}
use inspec_thor.RuntimeStrings.Indexed.{
  IsIndexed, merge_all_by_search, merge_recovered_strings_lem, no_recovered-IsIndexed,
}
use inspec_thor.RuntimeStrings.Scan.{ScannedProcess, Pass, run_pass, maximum_bytes_per_pass}
use inspec_thor.RuntimeStrings.Regions.{Answers, AnswersPages}
use inspec_thor.RuntimeStrings.Unchanged.{run_pass_unchanged}
use inspec_thor.RuntimeStrings.Ends.{Ends, run_pass-Ends}

abbrev heap : ℕ → MemoryInfo
heap address = record {
  base_address = address;
  region_size = 4096;
  state = mem_commit;
  protect = 0x04;
  type = mem_private;
}

abbrev password : Text
password = codes "my password"

password_shown : Displayable password
unfolding is_displayable_decoded_byte
password_shown =
    (refl, (refl, (refl, (refl, (refl, (refl, (refl, (refl, (refl, (refl, (refl, tt)))))))))))

password_printable : All (λ c. is_printable c ≡ true) password
password_printable =
    (refl, (refl, (refl, (refl, (refl, (refl, (refl, (refl, (refl, (refl, (refl, tt)))))))))))

test_base64 : decode_base64_runtime_string (codes "bXkgcGFzc3dvcmQ=") ≡ some (codes "my password")
unfolding decode_base64_runtime_string is_displayable_decoded_byte
test_base64 = refl

test_hex : decode_hex_runtime_string (codes "6d792070617373776f7264") ≡ some (codes "my password")
unfolding decode_hex_runtime_string is_displayable_decoded_byte
test_hex = refl

test_encode : encode_base64 (codes "my password") ≡ codes "bXkgcGFzc3dvcmQ="
unfolding encode_base64 symbol
test_encode = refl

recovers_base64_example :
    append_recovered_string_candidate [] 4 4096 (encode_base64 password) (codes "ASCII") (heap 0) []
    ≡ []
      ++ candidate_row 4 4096 (encode_base64 password) (codes "ASCII") (heap 0) []
        ∷ decoded_row password
            (literal "Base64 -> ASCII")
            (candidate_row 4 4096 (encode_base64 password) (codes "ASCII") (heap 0) [])
        ∷ []
recovers_base64_example =
    recovers_base64 [] 4 4096 (codes "ASCII") (heap 0) [] password password_shown (omega arith)
      (omega arith)

recovers_hex_example :
    append_recovered_string_candidate [] 4 4096 (encode_hex password) (codes "ASCII") (heap 0) []
    ≡ []
      ++ candidate_row 4 4096 (encode_hex password) (codes "ASCII") (heap 0) []
        ∷ decoded_row password
            (literal "Hex -> ASCII")
            (candidate_row 4 4096 (encode_hex password) (codes "ASCII") (heap 0) [])
        ∷ []
recovers_hex_example =
    recovers_hex [] 4 4096 (codes "ASCII") (heap 0) [] password password_shown (omega arith)
      (omega arith)

finds_ascii_example :
    Holds
      (candidate_row 4 ((4096 + 2) % 2 ^ 64) password (literal "ASCII / UTF-8") (heap 0) [])
      (extract_runtime_strings 4 4096 (heap 0) [] ((b'x' ∷ 0 ∷ []) ++ (password ++ 0 ∷ [])) [])
finds_ascii_example =
    finds_ascii 4 4096 (heap 0) [] (b'x' ∷ 0 ∷ []) password (0 ∷ []) [] password_printable
      (omega arith) (omega arith) refl refl

finds_wide_example :
    Holds (candidate_row 4 ((4096 + 3) % 2 ^ 64) password (literal "UTF-16LE") (heap 0) []) (
      extract_runtime_strings 4 4096
        (heap 0)
        []
        ((1 ∷ 2 ∷ 3 ∷ []) ++ (widen password ++ 0 ∷ []))
        [])
unfolding pairs
finds_wide_example =
    finds_wide 4 4096 (heap 0) [] password (0 ∷ []) password_printable (omega arith) (omega arith)
      refl (1 ∷ 2 ∷ 3 ∷ []) [] refl

abbrev a_row : RecoveredStringRow
a_row = record {
  pid = 4;
  address = 4096;
  value = password;
  encoding = codes "ASCII";
  classification = [];
  protection = [];
  region_type = [];
  first_seen = [];
  last_seen = [];
  observations = 1;
}

merge_recovered_strings_lem_example :
    IsIndexed (merge_recovered_strings (a_row ∷ a_row ∷ []) 3 3 no_recovered_strings)
    × ((merge_recovered_strings (a_row ∷ a_row ∷ []) 3 3 no_recovered_strings).rows
        ≡ (if 3 == 3 then merge_all_by_search (a_row ∷ a_row ∷ []) [] else []))
merge_recovered_strings_lem_example =
    merge_recovered_strings_lem (a_row ∷ a_row ∷ []) 3 3 no_recovered_strings no_recovered-IsIndexed

-- The same string twice is one row that was observed twice.
test_twice :
    (merge_recovered_strings (a_row ∷ a_row ∷ []) 3 3 no_recovered_strings).rows
    ≡ record a_row { observations = 2 } ∷ []
unfolding merge_recovered_strings text_eq to_decimal print_digits digit row_key
test_twice = refl

abbrev some_process : ScannedProcess
some_process = record {
  pid = 4;
  maximum_address = 8192;
  query = λ address. if ltb address 8192 then some (heap address) else none;
  read = λ address size. take size (b'x' ∷ 0 ∷ password);
  token_at = λ address. 3;
  executable_only = λ address. false;
  time = λ address. [];
}

length-take-le : (n : ℕ) (s : Text) → length (take n s) ≤ n
length-take-le zero s = omega arith
length-take-le (suc n) [] = omega arith
length-take-le (suc n) (c ∷ s) = omega (arith, length-take-le n s)

run_pass-Ends_example : Ends maximum_bytes_per_pass (run_pass some_process true 3 [] [])
run_pass-Ends_example =
    run_pass-Ends some_process true 3 [] []
      (λ address size. length-take-le size (b'x' ∷ 0 ∷ password))

some_process-AnswersPages : AnswersPages some_process
some_process-AnswersPages address mbi aligned e = elim (Bool-cases (ltb address 8192)) [
  | inl low ↦
      let found : ◌≡◌ {A = Option MemoryInfo} (some (heap address)) (some mbi) = rw low at e in
      let same : heap address ≡ mbi = cc in
      subst (Answers address) same (record {
        begins = refl;
        whole = omega arith;
        fits = omega (arith, ltb→lt address 8192 low);
      })
  | inr high ↦ let found : ◌≡◌ {A = Option MemoryInfo} none (some mbi) = rw high at e in cc
]

run_pass_unchanged_example :
    (p : Pass) × (q : Pass) × (run_pass some_process false 3 [] [] ≡ some p)
    × (run_pass some_process true 3 p.hashes p.dumps ≡ some q)
    × (q.recovered ≡ [])
    × (q.dumps ≡ p.dumps)
run_pass_unchanged_example =
    run_pass_unchanged some_process 3 [] []
      (λ address size. length-take-le size (b'x' ∷ 0 ∷ password)) some_process-AnswersPages
