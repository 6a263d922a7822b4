-- ===== src/RuntimeStrings/Rows.antt =====
-- The rows of recovered strings of src/controller/gui.cpp: what Windows answers about a region of
-- memory, the names shown for it, `ClassifyRecoveredString` and `AppendRecoveredStringCandidate`.
use inspec_thor.Prelude.{
  ℕ, ◌/◌, ◌%◌, Bool, false, not, ◌&&◌, ◌||◌, List, [], ◌∷◌, ◌++◌, Option, none, some, Text, literal,
  lower, contains, starts_with, length, take, any, ltb, ◌==◌, if◌then◌else◌,
}
use inspec_thor.RuntimeStrings.Decode.{decode_hex_runtime_string, decode_base64_runtime_string}

-- MEMORY_BASIC_INFORMATION, the members that are read.
pub record MemoryInfo : Type 0 where
  pub base_address : ℕ
  pub region_size : ℕ
  pub state : ℕ
  pub protect : ℕ
  pub type : ℕ

pub record RecoveredStringRow : Type 0 where
  pub pid : ℕ
  pub address : ℕ
  pub value : Text
  pub encoding : Text
  pub classification : Text
  pub protection : Text
  pub region_type : Text
  pub first_seen : Text
  pub last_seen : Text
  pub observations : ℕ

abbrev pub has_page_guard : ℕ → Bool
has_page_guard protection = protection / 0x100 % 2 == 1

abbrev pub has_page_noaccess : ℕ → Bool
has_page_noaccess protection = protection % 2 == 1

unfoldable pub access_name : ℕ → Text
access_name protection =
    if protection == 0x01
    then literal "---"
    else if protection == 0x02
    then literal "R--"
    else if protection == 0x04
    then literal "RW-"
    else if protection == 0x08
    then literal "-W-"
    else if protection == 0x10
    then literal "--X"
    else if protection == 0x20
    then literal "R-X"
    else if protection == 0x40
    then literal "RWX"
    else if protection == 0x80
    then literal "-WX"
    else literal "?"

unfoldable pub runtime_memory_protection_name : ℕ → Text
unfolding access_name
runtime_memory_protection_name protection =
    if has_page_guard protection
    then access_name (protection % 256) ++ literal "+GUARD"
    else access_name (protection % 256)

abbrev pub mem_commit : ℕ
mem_commit = 0x1000

abbrev pub mem_private : ℕ
mem_private = 0x20000

abbrev pub mem_mapped : ℕ
mem_mapped = 0x40000

abbrev pub mem_image : ℕ
mem_image = 0x1000000

unfoldable pub runtime_memory_region_type_name : ℕ → Text
runtime_memory_region_type_name type =
    if type == mem_private
    then literal "Private"
    else if type == mem_mapped
    then literal "Mapped"
    else if type == mem_image
    then literal "Image"
    else literal "Other"

abbrev pub is_access : ℕ → List ℕ → Bool
is_access base = any (λ p. base == p)

unfoldable pub is_executable_page_protection : ℕ → Bool
is_executable_page_protection protection =
    is_access (protection % 256) (0x10 ∷ 0x20 ∷ 0x40 ∷ 0x80 ∷ [])

unfoldable pub is_readable_runtime_region : MemoryInfo → Bool
is_readable_runtime_region mbi =
    let base = mbi.protect % 256 in
    if not (mbi.state == mem_commit)
      || (has_page_noaccess mbi.protect || has_page_guard mbi.protect)
    then false
    else if not (is_access base (0x02 ∷ 0x04 ∷ 0x08 ∷ 0x10 ∷ 0x20 ∷ 0x40 ∷ 0x80 ∷ []))
    then false
    else if mbi.type == mem_image
    then is_access base (0x04 ∷ 0x08 ∷ 0x40 ∷ 0x80 ∷ [])
    else is_access base (0x04 ∷ 0x08 ∷ 0x10 ∷ 0x20 ∷ 0x40 ∷ 0x80 ∷ [])
      && (mbi.type == mem_private || mbi.type == mem_mapped)

unfoldable pub holds_any : Text → List Text → Bool
holds_any s = any (contains s)

unfoldable pub classify_recovered_string : Text → Text
unfolding holds_any
classify_recovered_string value =
    if holds_any (lower value) (literal "http://" ∷ literal "https://" ∷ [])
    then literal "URL"
    else if holds_any (lower value) (literal "hkey_" ∷ literal "hkcu\\" ∷ literal "hklm\\" ∷ [])
    then literal "Registry"
    else if holds_any (lower value) (
        literal "powershell"
        ∷ literal "cmd.exe"
        ∷ literal "rundll32"
        ∷ literal "regsvr32"
        ∷ literal "mshta"
        ∷ literal "wscript"
        ∷ literal "cscript"
        ∷ [])
    then literal "Command"
    else if contains value (literal ":\\") || starts_with value (literal "\\\\")
    then literal "Path"
    else if holds_any (lower value)
        (literal "password" ∷ literal "token" ∷ literal "authorization:" ∷ literal "cookie:" ∷ [])
    then literal "Credential / Secret"
    else literal "Runtime text"

unfoldable pub decoded_row : Text → Text → RecoveredStringRow → RecoveredStringRow
decoded_row decoded encoding row = record row {
  value = decoded;
  encoding = encoding;
  classification = literal "Decoded " ++ classify_recovered_string decoded;
}

-- The row that the decoders add, if one of them succeeds.
unfoldable pub decoded_rows :
    Option Text → Option Text → RecoveredStringRow → List RecoveredStringRow
unfolding decoded_row
decoded_rows (some decoded) hex row = decoded_row decoded (literal "Base64 -> ASCII") row ∷ []
decoded_rows none (some decoded) row = decoded_row decoded (literal "Hex -> ASCII") row ∷ []
decoded_rows none none row = []

unfoldable pub candidate_row : ℕ → ℕ → Text → Text → MemoryInfo → Text → RecoveredStringRow
unfolding runtime_memory_protection_name runtime_memory_region_type_name
candidate_row pid address value encoding mbi time = record {
  pid = pid;
  address = address;
  value = take 2048 value;
  encoding = encoding;
  classification = classify_recovered_string (take 2048 value);
  protection = runtime_memory_protection_name mbi.protect;
  region_type = runtime_memory_region_type_name mbi.type;
  first_seen = time;
  last_seen = time;
  observations = 1;
}

unfoldable pub append_recovered_string_candidate :
    List RecoveredStringRow → ℕ → ℕ → Text → Text → MemoryInfo → Text → List RecoveredStringRow
unfolding candidate_row decoded_rows
append_recovered_string_candidate rows pid address value encoding mbi time =
    let row = candidate_row pid address value encoding mbi time in
    if ltb (length value) 5
    then rows
    else (rows ++ row ∷ [])
      ++ decoded_rows (decode_base64_runtime_string value) (decode_hex_runtime_string value) row
