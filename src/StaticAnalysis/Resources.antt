-- ===== src/StaticAnalysis/Resources.antt =====
-- The resources of a file, in the static analysis of src/controller/gui.cpp: `ReadResourceName`, the
-- previews and `ParseResourcesRecursive`. The structs are those of winnt.h, a parameter.
use inspec_thor.Prelude.{
  ℕ, zero, suc, ◌+◌, ◌-◌, min, Bool, true, ◌&&◌, List, [], ◌∷◌, ◌++◌, map, Option, none, some, Text,
  literal, is_empty, length, take, drop, leb, ltb, ◌==◌, if◌then◌else◌, ◌/◌, ◌%◌,
}
use inspec_thor.Format.{to_decimal, digit}
use inspec_thor.StaticAnalysis.Reader.{Struct, word, read_struct_at, SectionHeader, rva_to_offset}

-- IMAGE_RESOURCE_DIRECTORY, IMAGE_RESOURCE_DIRECTORY_ENTRY and IMAGE_RESOURCE_DATA_ENTRY, the
-- members that are read.
pub record Directory : Type 0 where
  pub number_of_named_entries : ℕ
  pub number_of_id_entries : ℕ

pub record DirectoryEntry : Type 0 where
  pub name_is_string : Bool
  pub name_offset : ℕ
  pub id : ℕ
  pub data_is_directory : Bool
  pub offset_to_directory : ℕ
  pub offset_to_data : ℕ

pub record DataEntry : Type 0 where
  pub offset_to_data : ℕ
  pub size : ℕ

-- How Windows lays these out, and WStringToString.
pub record ResourceFormats : Type 0 where
  pub directory : Struct Directory
  pub entry : Struct DirectoryEntry
  pub data_entry : Struct DataEntry
  pub narrow : List ℕ → Text

pub record ResourceRow : Type 0 where
  pub type : Text
  pub name : Text
  pub language : Text
  pub size : ℕ
  pub ascii_preview : Text
  pub hex_preview : Text
  pub bytes : List ℕ

unfoldable pub resource_type_name : ℕ → Text
resource_type_name id =
    if id == 1
    then literal "CURSOR"
    else if id == 2
    then literal "BITMAP"
    else if id == 3
    then literal "ICON"
    else if id == 4
    then literal "MENU"
    else if id == 5
    then literal "DIALOG"
    else if id == 6
    then literal "STRING"
    else if id == 16
    then literal "VERSION"
    else if id == 24
    then literal "MANIFEST"
    else b'#' ∷ to_decimal id

abbrev push_unit : Option ℕ → List ℕ → List ℕ
push_unit none units = []
push_unit (some unit) units = unit ∷ units

-- The characters of a name, up to the first that lies outside of the file.
unfoldable pub read_units : ℕ → List ℕ → ℕ → List ℕ
unfolding read_struct_at
read_units zero bytes offset = []
read_units (suc count) bytes offset =
    push_unit (read_struct_at word bytes offset) (read_units count bytes (offset + 2))

unfoldable pub counted_name : (List ℕ → Text) → List ℕ → ℕ → Option ℕ → Text
unfolding read_units
counted_name narrow bytes offset none = literal "?"
counted_name narrow bytes offset (some count) = narrow (read_units count bytes (offset + 2))

unfoldable pub read_resource_name : ResourceFormats → List ℕ → ℕ → DirectoryEntry → ℕ → Text
unfolding counted_name resource_type_name read_struct_at
read_resource_name formats bytes resource_base entry level =
    let offset = resource_base + entry.name_offset in
    if entry.name_is_string
    then counted_name formats.narrow bytes offset (read_struct_at word bytes offset)
    else if level == 0
    then resource_type_name entry.id
    else b'#' ∷ to_decimal entry.id

unfoldable pub bytes_preview_ascii : List ℕ → ℕ → ℕ → Text
bytes_preview_ascii bytes offset size =
    map (λ c. if leb 32 c && leb c 126 then c else b'.') (take (min size 96) (drop offset bytes))

unfoldable pub hex_pairs : List ℕ → Text
unfolding digit
hex_pairs [] = []
hex_pairs (byte ∷ []) = digit true (byte / 16) ∷ digit true (byte % 16) ∷ []
hex_pairs (byte ∷ next ∷ bytes) =
    digit true (byte / 16) ∷ digit true (byte % 16) ∷ b' ' ∷ hex_pairs (next ∷ bytes)

unfoldable pub bytes_preview_hex : List ℕ → ℕ → ℕ → Text
unfolding hex_pairs
bytes_preview_hex bytes offset size = hex_pairs (take (min size 48) (drop offset bytes))

abbrev or_current : Text → Text → Text
or_current value current = if is_empty value then current else value

module _ (formats : ResourceFormats) (bytes : List ℕ) (sections : List SectionHeader)
    (resource_base : ℕ) where
  unfoldable pub resource_row : Text → Text → Text → ℕ → ℕ → ResourceRow
  resource_row type name current size offset = record {
    type = or_current type current;
    name = or_current name current;
    language = current;
    size = size;
    ascii_preview = bytes_preview_ascii bytes offset size;
    hex_preview = bytes_preview_hex bytes offset size;
    bytes = take (min (length bytes - offset) size) (drop offset bytes);
  }

  unfoldable pub push_resource :
      Text → Text → Text → ℕ → Option ℕ → List ResourceRow → List ResourceRow
  unfolding resource_row
  push_resource type name current size none out = out
  push_resource type name current size (some offset) out =
      out ++ resource_row type name current size offset ∷ []

  unfoldable pub add_data :
      Text → Text → Text → Option DataEntry → List ResourceRow → List ResourceRow
  unfolding push_resource
  add_data type name current none out = out
  add_data type name current (some entry) out =
      push_resource type name current entry.size
        (rva_to_offset entry.offset_to_data sections (length bytes)) out

  -- One entry; `descend` is the call for a directory below, at the next level.
  unfoldable pub handle_entry :
      (ℕ → Text → Text → List ResourceRow → List ResourceRow)
      → ℕ
      → Text
      → Text
      → DirectoryEntry
      → List ResourceRow
      → List ResourceRow
  unfolding add_data
  handle_entry descend level type name entry out =
      let current = read_resource_name formats bytes resource_base entry level in
      if entry.data_is_directory
      then descend (resource_base + entry.offset_to_directory)
          (if level == 0 then current else type) (if level == 1 then current else name) out
      else add_data type name current
          (read_struct_at formats.data_entry bytes (resource_base + entry.offset_to_data)) out

  unfoldable pub if_read :
      Option DirectoryEntry
      → (DirectoryEntry → List ResourceRow)
      → List ResourceRow
      → List ResourceRow
  if_read none next out = out
  if_read (some entry) next out = next entry

  -- The loop over the entries that are left.
  unfoldable pub parse_entries :
      (ℕ → Text → Text → List ResourceRow → List ResourceRow)
      → ℕ
      → ℕ
      → ℕ
      → Text
      → Text
      → List ResourceRow
      → List ResourceRow
  unfolding handle_entry if_read
  parse_entries descend zero offset level type name out = out
  parse_entries descend (suc entries) offset level type name out =
      let next = λ (entry : DirectoryEntry).
        parse_entries descend entries (offset + formats.entry.size) level type name
          (handle_entry descend level type name entry out) in
      if ltb (length out) 512
      then if_read (read_struct_at formats.entry bytes offset) next out
      else out

  unfoldable pub parse_directory :
      (ℕ → Text → Text → List ResourceRow → List ResourceRow)
      → ℕ
      → ℕ
      → Text
      → Text
      → Option Directory
      → List ResourceRow
      → List ResourceRow
  unfolding parse_entries
  parse_directory descend offset level type name none out = out
  parse_directory descend offset level type name (some directory) out =
      parse_entries descend (directory.number_of_named_entries + directory.number_of_id_entries)
        (offset + formats.directory.size) level type name out

  -- `levels` are left: five at level 0, none past level 4.
  unfoldable pub parse_resources_recursive :
      ℕ → ℕ → ℕ → Text → Text → List ResourceRow → List ResourceRow
  unfolding parse_directory
  parse_resources_recursive zero level offset type name out = out
  parse_resources_recursive (suc levels) level offset type name out =
      let parsed =
        parse_directory (parse_resources_recursive levels (level + 1)) offset level type name
          (read_struct_at formats.directory bytes offset) out in
      if leb 512 (length out) then out else parsed
