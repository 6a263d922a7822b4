-- ===== src/StaticAnalysis/Headers.antt =====
-- The headers of a PE file in the static analysis of src/controller/gui.cpp, as structs of winnt.h
-- that Windows lays out, and the names shown for their values.
use inspec_thor.Prelude.{
  ℕ, zero, suc, ◌+◌, ◌/◌, ◌%◌, Bool, ◌&&◌, List, [], ◌∷◌, ◌++◌, Option, none, some, Text, literal,
  ◌==◌, if◌then◌else◌, is_empty, take, drop,
}
use inspec_thor.Format.{to_upper_hex}
use inspec_thor.Etw.Values.{little_endian}
use inspec_thor.StaticAnalysis.Reader.{Struct, read_struct_at, SectionHeader, until_nul}
use inspec_thor.StaticAnalysis.Resources.{ResourceFormats}

abbrev pub dword : Struct ℕ
dword = record { size = 4; decode = little_endian }

abbrev pub qword : Struct ℕ
qword = record { size = 8; decode = little_endian }

-- The members that are read; e_lfanew as the size_t that it is cast to.
pub record DosHeader : Type 0 where
  pub e_magic : ℕ
  pub e_lfanew : ℕ

pub record FileHeader : Type 0 where
  pub machine : ℕ
  pub number_of_sections : ℕ
  pub time_date_stamp : ℕ
  pub size_of_optional_header : ℕ
  pub characteristics : ℕ

pub record DataDirectory : Type 0 where
  pub virtual_address : ℕ
  pub size : ℕ

pub record OptionalHeader : Type 0 where
  pub address_of_entry_point : ℕ
  pub subsystem : ℕ
  pub major_linker_version : ℕ
  pub minor_linker_version : ℕ
  pub image_base : ℕ
  pub import_directory : DataDirectory
  pub resource_directory : DataDirectory
  pub debug_directory : DataDirectory
  pub tls_directory : DataDirectory

pub record ImportDescriptor : Type 0 where
  pub name : ℕ
  pub first_thunk : ℕ
  pub original_first_thunk : ℕ

pub record DebugDirectory : Type 0 where
  pub type : ℕ
  pub pointer_to_raw_data : ℕ
  pub address_of_raw_data : ℕ

-- A TLS directory is read for its AddressOfCallBacks.
pub record PeFormats : Type 0 where
  pub dos_header : Struct DosHeader
  pub file_header : Struct FileHeader
  pub optional_header_64 : Struct OptionalHeader
  pub optional_header_32 : Struct OptionalHeader
  pub section_header : Struct SectionHeader
  pub tls_directory_64 : Struct ℕ
  pub tls_directory_32 : Struct ℕ
  pub import_descriptor : Struct ImportDescriptor
  pub debug_directory : Struct DebugDirectory
  pub resources : ResourceFormats

abbrev pub magic_64 : ℕ
magic_64 = 0x20B

abbrev pub magic_32 : ℕ
magic_32 = 0x10B

abbrev pub no_directory : DataDirectory
no_directory = record { virtual_address = 0; size = 0 }

-- The values before a header is read.
abbrev pub no_optional_header : OptionalHeader
no_optional_header = record {
  address_of_entry_point = 0;
  subsystem = 0;
  major_linker_version = 0;
  minor_linker_version = 0;
  image_base = 0;
  import_directory = no_directory;
  resource_directory = no_directory;
  debug_directory = no_directory;
  tls_directory = no_directory;
}

unfoldable pub or_none : Option OptionalHeader → OptionalHeader
or_none none = no_optional_header
or_none (some header) = header

unfoldable pub optional_header : PeFormats → List ℕ → ℕ → ℕ → OptionalHeader
unfolding or_none
optional_header formats bytes magic offset =
    if magic == magic_64
    then or_none (read_struct_at formats.optional_header_64 bytes offset)
    else if magic == magic_32
    then or_none (read_struct_at formats.optional_header_32 bytes offset)
    else no_optional_header

unfoldable pub static_hex : ℕ → Text
static_hex value = literal "0x" ++ to_upper_hex value

unfoldable pub machine_to_architecture : ℕ → Text
unfolding static_hex
machine_to_architecture machine =
    if machine == 0x14C
    then literal "x86"
    else if machine == 0x8664
    then literal "x64"
    else if machine == 0xAA64
    then literal "ARM64"
    else if machine == 0x1C4
    then literal "ARM"
    else static_hex machine

unfoldable pub subsystem_to_string : ℕ → Text
unfolding static_hex
subsystem_to_string subsystem =
    if subsystem == 2
    then literal "Windows GUI"
    else if subsystem == 3
    then literal "Windows Console"
    else if subsystem == 1
    then literal "Native"
    else if subsystem == 10
    then literal "EFI Application"
    else if subsystem == 16
    then literal "Boot Application"
    else static_hex subsystem

abbrev pub has_flag : ℕ → ℕ → Bool
has_flag value flag = value / flag % 2 == 1

abbrev pub can_read : ℕ → Bool
can_read characteristics = has_flag characteristics 0x40000000

abbrev pub can_write : ℕ → Bool
can_write characteristics = has_flag characteristics 0x80000000

abbrev pub can_execute : ℕ → Bool
can_execute characteristics = has_flag characteristics 0x20000000

unfoldable pub section_permissions : ℕ → Text
section_permissions characteristics =
    (if can_read characteristics then b'R' else b'-')
    ∷ (if can_write characteristics then b'W' else b'-')
    ∷ (if can_execute characteristics then b'X' else b'-')
    ∷ []

unfoldable pub file_type : ℕ → ℕ → Text
file_type magic characteristics =
    let is_dll = has_flag characteristics 0x2000 in
    if magic == magic_64
    then (if is_dll then literal "PE32+ DLL" else literal "PE32+ executable")
    else if magic == magic_32
    then (if is_dll then literal "PE32 DLL" else literal "PE32 executable")
    else if is_dll
    then literal "PE DLL"
    else literal "PE executable"

-- The entropy is a double; the function that computes it from bytes is a parameter.
pub record SectionRow : Type 0 where
  pub name : Text
  pub raw_size : ℕ
  pub virtual_size : ℕ
  pub permissions : Text
  pub entropy : ℕ
  pub rwx : Bool

unfoldable pub section_row : (List ℕ → ℕ) → List ℕ → SectionHeader → SectionRow
unfolding section_permissions until_nul
section_row entropy bytes section = record {
  name = (if is_empty (until_nul 8 section.name) then literal "-" else until_nul 8 section.name);
  raw_size = section.size_of_raw_data;
  virtual_size = section.virtual_size;
  permissions = section_permissions section.characteristics;
  entropy = entropy (take section.size_of_raw_data (drop section.pointer_to_raw_data bytes));
  rwx =
      can_read section.characteristics
      && can_write section.characteristics
      && can_execute section.characteristics;
}

unfoldable pub push_section : Option SectionHeader → List SectionHeader → List SectionHeader
push_section none sections = []
push_section (some section) sections = section ∷ sections

-- The sections up to the first that lies outside of the file.
unfoldable pub read_sections : Struct SectionHeader → List ℕ → ℕ → ℕ → List SectionHeader
unfolding push_section
read_sections format bytes zero offset = []
read_sections format bytes (suc count) offset =
    push_section (read_struct_at format bytes offset)
      (read_sections format bytes count (offset + format.size))
