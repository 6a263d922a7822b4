-- ===== src/StaticAnalysis/Bounds.antt =====
-- The resources that are read are slices of the file, and few.
use inspec_thor.Prelude.{
  ℕ, zero, suc, ◌+◌, ◌-◌, ◌≤◌, ◌<◌, ◌≡◌, refl, min, List, [], ◌∷◌, Option, none, some, Text, length,
  take, drop, All, All-append, leb, ltb, ◌==◌, if◌then◌else◌, arith, if-elim, length-append, ltb→lt,
}
use inspec_thor.StaticAnalysis.Reader.{
  SectionHeader, rva_to_offset, inside, is_in_section, read_struct_at,
}
use inspec_thor.StaticAnalysis.Resources.{
  Directory, DirectoryEntry, DataEntry, ResourceFormats, ResourceRow, resource_row, push_resource,
  add_data, handle_entry, if_read, parse_entries, parse_directory, parse_resources_recursive,
  read_resource_name,
}

inside_lem : (file_size n offset : ℕ) → inside file_size n ≡ some offset → offset < file_size
unfolding inside
inside_lem file_size n offset h = ground arith

pub rva_to_offset_lem :
    (rva : ℕ) (sections : List SectionHeader) (file_size offset : ℕ)
    → rva_to_offset rva sections file_size ≡ some offset
    → offset < file_size
unfolding rva_to_offset
rva_to_offset_lem rva [] file_size offset = inside_lem file_size rva offset
rva_to_offset_lem rva (section ∷ sections) file_size offset =
    if-elim (λ (o : Option ℕ). o ≡ some offset → offset < file_size) (is_in_section rva section) _ _
      (λ here.
        inside_lem file_size (section.pointer_to_raw_data + (rva - section.virtual_address)) offset)
      (λ later. rva_to_offset_lem rva sections file_size offset)

-- A row holds the bytes from an offset inside the file, as many as its size says or as there are.
pub record IsSlice (bytes : List ℕ) (row : ResourceRow) : Type 0 where
  pub offset : ℕ
  pub begins : offset < length bytes
  pub copied : row.bytes ≡ take (min (length bytes - offset) row.size) (drop offset bytes)

pub record AreSlices (bytes : List ℕ) (rows : List ResourceRow) : Type 0 where
  pub few : length rows ≤ 512
  pub sliced : All (IsSlice bytes) rows

-- What a call of the code for a directory below keeps.
abbrev Keeps : List ℕ → (ℕ → Text → Text → List ResourceRow → List ResourceRow) → Type 0
Keeps bytes descend =
    (offset : ℕ) (type name : Text) (out : List ResourceRow)
    → AreSlices bytes out
    → AreSlices bytes (descend offset type name out)

module _ (formats : ResourceFormats) (bytes : List ℕ) (sections : List SectionHeader)
    (resource_base : ℕ) where
  push_resource-AreSlices :
      (type name current : Text) (size : ℕ) (found : Option ℕ) (out : List ResourceRow)
      → ((offset : ℕ) → found ≡ some offset → offset < length bytes)
      → length out < 512
      → AreSlices bytes out
      → AreSlices bytes
          (push_resource formats bytes sections resource_base type name current size found out)
  unfolding push_resource
  push_resource-AreSlices type name current size none out within room fine = fine
  push_resource-AreSlices type name current size (some offset) out within room fine =
      let row = resource_row formats bytes sections resource_base type name current size offset in
      record {
        few = omega (arith, length-append out (row ∷ []));
        sliced =
            All-append (IsSlice bytes) out (row ∷ []) fine.sliced
              (record { offset = offset; begins = within offset refl; copied = refl }, tt);
      }

  add_data-AreSlices :
      (type name current : Text) (found : Option DataEntry) (out : List ResourceRow)
      → length out < 512
      → AreSlices bytes out
      → AreSlices bytes (add_data formats bytes sections resource_base type name current found out)
  unfolding add_data
  add_data-AreSlices type name current none out room fine = fine
  add_data-AreSlices type name current (some entry) out room fine =
      push_resource-AreSlices type name current entry.size
        (rva_to_offset entry.offset_to_data sections (length bytes)) out
        (rva_to_offset_lem entry.offset_to_data sections (length bytes)) room fine

  module _ (descend : ℕ → Text → Text → List ResourceRow → List ResourceRow)
      (keeps : Keeps bytes descend) where
    handle_entry-AreSlices :
        (level : ℕ) (type name : Text) (entry : DirectoryEntry) (out : List ResourceRow)
        → length out < 512
        → AreSlices bytes out
        → AreSlices bytes
            (handle_entry formats bytes sections resource_base descend level type name entry out)
    unfolding handle_entry
    handle_entry-AreSlices level type name entry out room fine =
        let current = read_resource_name formats bytes resource_base entry level in
        if-elim (AreSlices bytes) entry.data_is_directory _ _
          (λ below.
            keeps (resource_base + entry.offset_to_directory) (if level == 0 then current else type)
              (if level == 1 then current else name) out fine)
          (λ here.
            add_data-AreSlices type name current
              (read_struct_at formats.data_entry bytes (resource_base + entry.offset_to_data)) out
              room fine)

    if_read-AreSlices :
        (found : Option DirectoryEntry) (next : DirectoryEntry → List ResourceRow)
        (out : List ResourceRow)
        → ((entry : DirectoryEntry) → AreSlices bytes (next entry))
        → AreSlices bytes out
        → AreSlices bytes (if_read formats bytes sections resource_base found next out)
    unfolding if_read
    if_read-AreSlices none next out later fine = fine
    if_read-AreSlices (some entry) next out later fine = later entry

    parse_entries-AreSlices :
        (entries offset level : ℕ) (type name : Text) (out : List ResourceRow)
        → AreSlices bytes out
        → AreSlices bytes (
            parse_entries formats bytes sections resource_base descend entries offset level type
              name out)
    unfolding parse_entries
    parse_entries-AreSlices zero offset level type name out fine = fine
    parse_entries-AreSlices (suc entries) offset level type name out fine =
        if-elim (AreSlices bytes) (ltb (length out) 512) _ out
          (λ room.
            if_read-AreSlices (read_struct_at formats.entry bytes offset) _ out
              (λ entry.
                parse_entries-AreSlices entries (offset + formats.entry.size) level type name
                  (handle_entry formats bytes sections resource_base descend level type name entry
                    out)
                  (handle_entry-AreSlices level type name entry out (ltb→lt (length out) 512 room)
                    fine))
              fine)
          (λ full. fine)

    parse_directory-AreSlices :
        (offset level : ℕ) (type name : Text) (found : Option Directory) (out : List ResourceRow)
        → AreSlices bytes out
        → AreSlices bytes (
            parse_directory formats bytes sections resource_base descend offset level type name
              found out)
    unfolding parse_directory
    parse_directory-AreSlices offset level type name none out fine = fine
    parse_directory-AreSlices offset level type name (some directory) out fine =
        parse_entries-AreSlices (directory.number_of_named_entries + directory.number_of_id_entries)
          (offset + formats.directory.size) level type name out fine

  -- However the directories of a file are made, loops among them included, no more than 512 resources
  -- are read, and each holds bytes of the file from an offset inside it, as many as its size says or
  -- as there are.
  pub parse_resources-AreSlices :
      (levels level offset : ℕ) (type name : Text) (out : List ResourceRow)
      → AreSlices bytes out
      → AreSlices bytes (
          parse_resources_recursive formats bytes sections resource_base levels level offset type
            name out)
  unfolding parse_resources_recursive
  parse_resources-AreSlices zero level offset type name out fine = fine
  parse_resources-AreSlices (suc levels) level offset type name out fine =
      if-elim (AreSlices bytes) (leb 512 (length out)) out _ (λ full. fine)
        (λ room.
          parse_directory-AreSlices
            (parse_resources_recursive formats bytes sections resource_base levels (level + 1))
            (parse_resources-AreSlices levels (level + 1)) offset level type name
            (read_struct_at formats.directory bytes offset) out fine)
