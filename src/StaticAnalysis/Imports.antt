-- ===== src/StaticAnalysis/Imports.antt =====
-- The imports and the TLS callbacks that `AnalyzeSelectedFileInto` of src/controller/gui.cpp reads.
use inspec_thor.Prelude.{
  ℕ, zero, suc, ◌+◌, ◌-◌, ◌/◌, ◌%◌, ◌^◌, Bool, not, ◌&&◌, List, [], ◌∷◌, ◌++◌, Option, none, some,
  Text, literal, text_eq, lower, contains, any, is_empty, length, leb, ltb, ◌==◌, if◌then◌else◌,
}
use inspec_thor.StaticAnalysis.Reader.{
  Struct, read_struct_at, read_null_terminated_string, SectionHeader, rva_to_offset,
}
use inspec_thor.StaticAnalysis.Headers.{
  PeFormats, ImportDescriptor, DataDirectory, magic_64, magic_32, dword, qword, static_hex,
}

-- RvaToOffset of a directory that is there.
unfoldable pub directory_offset : DataDirectory → List SectionHeader → List ℕ → Option ℕ
directory_offset directory sections bytes =
    if directory.virtual_address == 0
    then none
    else rva_to_offset directory.virtual_address sections (length bytes)

unfoldable pub pointer_format : ℕ → Struct ℕ
pointer_format magic = if magic == magic_64 then qword else dword

abbrev pub value_or : ℕ → Option ℕ → ℕ
value_or default none = default
value_or default (some value) = value

unfoldable pub callbacks_va : PeFormats → List ℕ → ℕ → Option ℕ → ℕ
callbacks_va formats bytes magic none = 0
callbacks_va formats bytes magic (some offset) =
    if magic == magic_64
    then value_or 0 (read_struct_at formats.tls_directory_64 bytes offset)
    else if magic == magic_32
    then value_or 0 (read_struct_at formats.tls_directory_32 bytes offset)
    else 0

unfoldable pub note_callback : ℕ → ℕ → List Text → List Text
note_callback image_base va callbacks =
    if leb image_base va then callbacks ++ static_hex (va - image_base) ∷ [] else callbacks

-- The loop, with the callbacks that may still be read.
unfoldable pub read_callbacks : Struct ℕ → List ℕ → ℕ → ℕ → ℕ → List Text → List Text
unfolding note_callback
read_callbacks format bytes image_base zero offset callbacks = callbacks
read_callbacks format bytes image_base (suc left) offset callbacks =
    let va = value_or 0 (read_struct_at format bytes offset) in
    let rest =
      read_callbacks format bytes image_base left (offset + format.size)
        (note_callback image_base va callbacks) in
    if leb (offset + format.size) (length bytes) && not (va == 0) then rest else callbacks

unfoldable pub callbacks_at : Struct ℕ → List ℕ → ℕ → Option ℕ → List Text
unfolding read_callbacks
callbacks_at format bytes image_base none = []
callbacks_at format bytes image_base (some offset) =
    read_callbacks format bytes image_base 128 offset []

unfoldable pub tls_callbacks :
    PeFormats → List ℕ → List SectionHeader → ℕ → ℕ → DataDirectory → List Text
unfolding callbacks_at callbacks_va directory_offset pointer_format
tls_callbacks formats bytes sections magic image_base tls_directory =
    let va = callbacks_va formats bytes magic (directory_offset tls_directory sections bytes) in
    if leb image_base va && not (image_base == 0) && ltb (va - image_base) (2 ^ 32)
    then callbacks_at (pointer_format magic) bytes image_base
        (rva_to_offset (va - image_base) sections (length bytes))
    else []

pub record Imports : Type 0 where
  pub imported_dlls : List Text
  pub compiler_hints : List Text
  pub imports_by_dll : List (Text × List Text)
  pub import_count : ℕ
  pub suspicious_imports : List Text

abbrev pub no_imports : Imports
no_imports = record {
  imported_dlls = [];
  compiler_hints = [];
  imports_by_dll = [];
  import_count = 0;
  suspicious_imports = [];
}

unfoldable pub is_runtime_dll : Text → Bool
is_runtime_dll dll =
    any (contains (lower dll))
      (literal "vcruntime" ∷ literal "msvcp" ∷ literal "ucrtbase" ∷ literal "msvcrt" ∷ [])

unfoldable pub add_import : Text → Text → List (Text × List Text) → List (Text × List Text)
add_import dll api [] = (dll, api ∷ []) ∷ []
add_import dll api ((key, apis) ∷ table) =
    if text_eq key dll
    then (key, apis ++ api ∷ []) ∷ table
    else (key, apis) ∷ add_import dll api table

-- `is_known` is LookupApiIntel, a search in a table of its own.
module _ (formats : PeFormats) (is_known : Text → Bool) (bytes : List ℕ)
    (sections : List SectionHeader) (magic : ℕ) where
  unfoldable pub note_api : Text → Text → Imports → Imports
  unfolding add_import
  note_api dll api s = if is_empty api then s else record s {
    import_count = s.import_count + 1;
    imports_by_dll = add_import dll api s.imports_by_dll;
    suspicious_imports =
        (if is_known api && ltb (length s.suspicious_imports) 256
          then s.suspicious_imports ++ (dll ++ b'!' ∷ api) ∷ []
          else s.suspicious_imports);
  }

  -- The name stands behind a hint of two bytes.
  unfoldable pub note_name : Text → Option ℕ → Imports → Imports
  unfolding note_api
  note_name dll none s = s
  note_name dll (some offset) s =
      if leb (length bytes) (offset + 2)
      then s
      else note_api dll (read_null_terminated_string bytes (offset + 2) 4096) s

  unfoldable pub is_ordinal : ℕ → Bool
  is_ordinal thunk = if magic == magic_64 then thunk / 2 ^ 63 % 2 == 1 else thunk / 2 ^ 31 % 2 == 1

  unfoldable pub note_thunk : Text → ℕ → Imports → Imports
  unfolding note_name is_ordinal
  note_thunk dll thunk s =
      if is_ordinal thunk
      then record s { import_count = s.import_count + 1 }
      else note_name dll (rva_to_offset (thunk % 2 ^ 32) sections (length bytes)) s

  -- The loop over the thunks of a library; the bytes of the file are enough fuel.
  unfoldable pub read_thunks : ℕ → Text → ℕ → Imports → Imports
  unfolding note_thunk pointer_format
  read_thunks zero dll offset s = s
  read_thunks (suc fuel) dll offset s =
      let thunk = value_or 0 (read_struct_at (pointer_format magic) bytes offset) in
      let rest =
        read_thunks fuel dll (offset + (pointer_format magic).size) (note_thunk dll thunk s) in
      if ltb offset (length bytes) && not (thunk == 0) then rest else s

  unfoldable pub thunks_at : Text → Option ℕ → Imports → Imports
  unfolding read_thunks
  thunks_at dll none s = s
  thunks_at dll (some offset) s = read_thunks (length bytes) dll offset s

  unfoldable pub dll_name : Option ℕ → Text
  dll_name none = literal "?"
  dll_name (some offset) = read_null_terminated_string bytes offset 4096

  unfoldable pub note_dll : Text → Imports → Imports
  note_dll dll s = if is_empty dll then s else record s {
    imported_dlls = s.imported_dlls ++ dll ∷ [];
    compiler_hints =
        (if is_runtime_dll dll then s.compiler_hints ++ dll ∷ [] else s.compiler_hints);
  }

  unfoldable pub note_descriptor : ImportDescriptor → Imports → Imports
  unfolding note_dll thunks_at dll_name
  note_descriptor d s =
      let dll = dll_name (rva_to_offset d.name sections (length bytes)) in
      let thunk_rva =
        (if d.original_first_thunk == 0 then d.first_thunk else d.original_first_thunk) in
      thunks_at dll (rva_to_offset thunk_rva sections (length bytes)) (note_dll dll s)

  unfoldable pub is_last : ImportDescriptor → Bool
  is_last d = d.name == 0 && d.first_thunk == 0 && d.original_first_thunk == 0

  unfoldable pub if_descriptor :
      Option ImportDescriptor → (ImportDescriptor → Imports) → Imports → Imports
  unfolding is_last
  if_descriptor none next s = s
  if_descriptor (some d) next s = if is_last d then s else next d

  -- The loop over the descriptors; a read outside of the file ends it.
  unfoldable pub read_descriptors : ℕ → ℕ → Imports → Imports
  unfolding note_descriptor if_descriptor
  read_descriptors zero offset s = s
  read_descriptors (suc fuel) offset s =
      let next = λ (d : ImportDescriptor).
        read_descriptors fuel (offset + formats.import_descriptor.size) (note_descriptor d s) in
      if_descriptor (read_struct_at formats.import_descriptor bytes offset) next s

  unfoldable pub imports_at : Option ℕ → Imports
  unfolding read_descriptors
  imports_at none = no_imports
  imports_at (some offset) = read_descriptors (suc (length bytes)) offset no_imports
