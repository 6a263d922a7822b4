-- ===== src/StaticAnalysis/Reader.antt =====
-- Reading a file of the static analysis of src/controller/gui.cpp: `ReadStructAt`,
-- `ReadNullTerminatedString` and `RvaToOffset`. A read outside of the file is `none`, as is SIZE_MAX.
use inspec_thor.Prelude.{
  ℕ, zero, suc, ◌+◌, ◌-◌, ◌%◌, ◌^◌, Bool, ◌&&◌, ◌||◌, List, [], ◌∷◌, Option, none, some, Text,
  length, take, drop, leb, ltb, ◌==◌, if◌then◌else◌,
}
use inspec_thor.Etw.Values.{little_endian}

-- A struct of winnt.h: its size, and what its bytes mean.
pub record Struct (A : Type 0) : Type 0 where
  pub size : ℕ
  pub decode : List ℕ → A

unfoldable pub read_bytes : List ℕ → ℕ → ℕ → Option (List ℕ)
read_bytes bytes offset size =
    if ltb (length bytes) offset || ltb (length bytes - offset) size
    then none
    else some (take size (drop offset bytes))

unfoldable pub decoded : {A : Type 0} → Struct A → Option (List ℕ) → Option A
decoded format none = none
decoded format (some bytes) = some (format.decode bytes)

unfoldable pub read_struct_at : {A : Type 0} → Struct A → List ℕ → ℕ → Option A
unfolding read_bytes decoded
read_struct_at format bytes offset = decoded format (read_bytes bytes offset format.size)

-- WORD and wchar_t.
abbrev pub word : Struct ℕ
word = record { size = 2; decode = little_endian }

unfoldable pub until_nul : ℕ → List ℕ → Text
until_nul zero bytes = []
until_nul (suc max_length) [] = []
until_nul (suc max_length) (byte ∷ bytes) =
    if byte == 0 then [] else byte ∷ until_nul max_length bytes

unfoldable pub read_null_terminated_string : List ℕ → ℕ → ℕ → Text
unfolding until_nul
read_null_terminated_string bytes offset max_length = until_nul max_length (drop offset bytes)

-- IMAGE_SECTION_HEADER, the members that are read.
pub record SectionHeader : Type 0 where
  pub name : List ℕ
  pub virtual_size : ℕ
  pub virtual_address : ℕ
  pub size_of_raw_data : ℕ
  pub pointer_to_raw_data : ℕ
  pub characteristics : ℕ

unfoldable pub inside : ℕ → ℕ → Option ℕ
inside file_size offset = if ltb offset file_size then some offset else none

unfoldable pub section_span : SectionHeader → ℕ
section_span section =
    if ltb section.virtual_size section.size_of_raw_data
    then section.size_of_raw_data
    else section.virtual_size

-- The end of a section wraps at 32 bits.
unfoldable pub is_in_section : ℕ → SectionHeader → Bool
unfolding section_span
is_in_section rva section =
    leb section.virtual_address rva
    && ltb rva ((section.virtual_address + section_span section) % 2 ^ 32)

unfoldable pub rva_to_offset : ℕ → List SectionHeader → ℕ → Option ℕ
unfolding inside is_in_section
rva_to_offset rva [] file_size = inside file_size rva
rva_to_offset rva (section ∷ sections) file_size =
    if is_in_section rva section
    then inside file_size (section.pointer_to_raw_data + (rva - section.virtual_address))
    else rva_to_offset rva sections file_size
