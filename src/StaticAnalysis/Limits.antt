-- ===== src/StaticAnalysis/Limits.antt =====
-- The limits of what is read from the imports and the TLS directory of a file.
use inspec_thor.Prelude.{
  ℕ, zero, suc, ◌+◌, ◌-◌, ◌%◌, ◌^◌, ◌≤◌, Bool, not, ◌&&◌, List, [], ◌∷◌, ◌++◌, Option, none, some,
  Text, is_empty, length, leb, ltb, ◌==◌, arith, if-elim, length-append,
}
use inspec_thor.StaticAnalysis.Reader.{
  Struct, read_struct_at, read_null_terminated_string, SectionHeader, rva_to_offset,
}
use inspec_thor.StaticAnalysis.Headers.{PeFormats, ImportDescriptor, DataDirectory, static_hex}
use inspec_thor.StaticAnalysis.Imports.{
  Imports, value_or, no_imports, directory_offset, pointer_format, callbacks_va, note_callback,
  read_callbacks, callbacks_at, tls_callbacks, note_api, note_name, is_ordinal, note_thunk,
  read_thunks, thunks_at, note_dll, note_descriptor, is_last, if_descriptor, read_descriptors,
  imports_at,
}
use inspec_thor.StaticAnalysis.Analyze.{insert_text, sort_unique}

note_callback-le :
    (image_base va : ℕ) (callbacks : List Text)
    → length (note_callback image_base va callbacks) ≤ suc (length callbacks)
unfolding note_callback
note_callback-le image_base va callbacks =
    ground (arith, length-append callbacks (static_hex (va - image_base) ∷ []))

read_callbacks-le :
    (format : Struct ℕ) (bytes : List ℕ) (image_base left offset : ℕ) (callbacks : List Text)
    → length (read_callbacks format bytes image_base left offset callbacks)
      ≤ length callbacks + left
unfolding read_callbacks
read_callbacks-le format bytes image_base zero offset callbacks = omega arith
read_callbacks-le format bytes image_base (suc left) offset callbacks =
    let va = value_or 0 (read_struct_at format bytes offset) in
    if-elim (λ (l : List Text). length l ≤ length callbacks + suc left)
      (leb (offset + format.size) (length bytes) && not (va == 0))
      (read_callbacks format bytes image_base left (offset + format.size)
        (note_callback image_base va callbacks))
      callbacks
      (λ on. omega (
        arith,
        note_callback-le image_base va callbacks,
        read_callbacks-le format bytes image_base left (offset + format.size)
            (note_callback image_base va callbacks),
      ))
      (λ off. omega arith)

callbacks_at-le :
    (format : Struct ℕ) (bytes : List ℕ) (image_base : ℕ) (found : Option ℕ)
    → length (callbacks_at format bytes image_base found) ≤ 128
unfolding callbacks_at
callbacks_at-le format bytes image_base none = omega arith
callbacks_at-le format bytes image_base (some offset) =
    omega (arith, read_callbacks-le format bytes image_base 128 offset [])

pub tls_callbacks-le :
    (formats : PeFormats) (bytes : List ℕ) (sections : List SectionHeader) (magic image_base : ℕ)
    (directory : DataDirectory)
    → length (tls_callbacks formats bytes sections magic image_base directory) ≤ 128
unfolding tls_callbacks
tls_callbacks-le formats bytes sections magic image_base directory =
    let va = callbacks_va formats bytes magic (directory_offset directory sections bytes) in
    if-elim (λ (l : List Text). length l ≤ 128)
      (leb image_base va && not (image_base == 0) && ltb (va - image_base) (2 ^ 32)) _ []
      (λ on.
        callbacks_at-le (pointer_format magic) bytes image_base
          (rva_to_offset (va - image_base) sections (length bytes)))
      (λ off. omega arith)

insert_text-le : (s : Text) (texts : List Text) → length (insert_text s texts) ≤ suc (length texts)
unfolding insert_text
insert_text-le s [] = omega arith
insert_text-le s (t ∷ texts) = ground (arith, insert_text-le s texts)

pub sort_unique-le : (texts : List Text) → length (sort_unique texts) ≤ length texts
unfolding sort_unique
sort_unique-le [] = omega arith
sort_unique-le (s ∷ texts) =
    omega (arith, insert_text-le s (sort_unique texts), sort_unique-le texts)

pub record IsFew (s : Imports) : Type 0 where
  pub short : length s.suspicious_imports ≤ 256

module _ (formats : PeFormats) (is_known : Text → Bool) (bytes : List ℕ)
    (sections : List SectionHeader) (magic : ℕ) where
  note_api-IsFew :
      (dll api : Text) (s : Imports)
      → IsFew s
      → IsFew (note_api formats is_known bytes sections magic dll api s)
  unfolding note_api
  note_api-IsFew dll api s few =
      if-elim IsFew (is_empty api) s _ (λ none. few)
        (λ named. record {
          short =
              if-elim (λ (l : List Text). length l ≤ 256)
                (is_known api && ltb (length s.suspicious_imports) 256)
                (s.suspicious_imports ++ (dll ++ b'!' ∷ api) ∷ []) s.suspicious_imports
                (λ room.
                  ground (arith, length-append s.suspicious_imports ((dll ++ b'!' ∷ api) ∷ [])))
                (λ full. few.short);
        })

  note_name-IsFew :
      (dll : Text) (found : Option ℕ) (s : Imports)
      → IsFew s
      → IsFew (note_name formats is_known bytes sections magic dll found s)
  unfolding note_name
  note_name-IsFew dll none s few = few
  note_name-IsFew dll (some offset) s few =
      if-elim IsFew (leb (length bytes) (offset + 2)) s _ (λ outside. few)
        (λ within. note_api-IsFew dll (read_null_terminated_string bytes (offset + 2) 4096) s few)

  note_thunk-IsFew :
      (dll : Text) (thunk : ℕ) (s : Imports)
      → IsFew s
      → IsFew (note_thunk formats is_known bytes sections magic dll thunk s)
  unfolding note_thunk
  note_thunk-IsFew dll thunk s few =
      if-elim IsFew (is_ordinal formats is_known bytes sections magic thunk) _ _
        (λ ordinal. record { short = few.short })
        (λ named.
          note_name-IsFew dll (rva_to_offset (thunk % 2 ^ 32) sections (length bytes)) s few)

  read_thunks-IsFew :
      (fuel : ℕ) (dll : Text) (offset : ℕ) (s : Imports)
      → IsFew s
      → IsFew (read_thunks formats is_known bytes sections magic fuel dll offset s)
  unfolding read_thunks
  read_thunks-IsFew zero dll offset s few = few
  read_thunks-IsFew (suc fuel) dll offset s few =
      let thunk = value_or 0 (read_struct_at (pointer_format magic) bytes offset) in
      let noted = note_thunk formats is_known bytes sections magic dll thunk s in
      if-elim IsFew (ltb offset (length bytes) && not (thunk == 0)) _ s
        (λ on.
          read_thunks-IsFew fuel dll (offset + (pointer_format magic).size) noted
            (note_thunk-IsFew dll thunk s few))
        (λ last. few)

  thunks_at-IsFew :
      (dll : Text) (found : Option ℕ) (s : Imports)
      → IsFew s
      → IsFew (thunks_at formats is_known bytes sections magic dll found s)
  unfolding thunks_at
  thunks_at-IsFew dll none s few = few
  thunks_at-IsFew dll (some offset) s few = read_thunks-IsFew (length bytes) dll offset s few

  note_dll-IsFew :
      (dll : Text) (s : Imports)
      → IsFew s
      → IsFew (note_dll formats is_known bytes sections magic dll s)
  unfolding note_dll
  note_dll-IsFew dll s few =
      if-elim IsFew (is_empty dll) s _ (λ unnamed. few) (λ named. record { short = few.short })

  note_descriptor-IsFew :
      (d : ImportDescriptor) (s : Imports)
      → IsFew s
      → IsFew (note_descriptor formats is_known bytes sections magic d s)
  unfolding note_descriptor
  note_descriptor-IsFew d s few = thunks_at-IsFew _ _ _ (note_dll-IsFew _ s few)

  if_descriptor-IsFew :
      (found : Option ImportDescriptor) (next : ImportDescriptor → Imports) (s : Imports)
      → ((d : ImportDescriptor) → IsFew (next d))
      → IsFew s
      → IsFew (if_descriptor formats is_known bytes sections magic found next s)
  unfolding if_descriptor
  if_descriptor-IsFew none next s later few = few
  if_descriptor-IsFew (some d) next s later few =
      if-elim IsFew (is_last formats is_known bytes sections magic d) s (next d) (λ last. few)
        (λ more. later d)

  read_descriptors-IsFew :
      (fuel offset : ℕ) (s : Imports)
      → IsFew s
      → IsFew (read_descriptors formats is_known bytes sections magic fuel offset s)
  unfolding read_descriptors
  read_descriptors-IsFew zero offset s few = few
  read_descriptors-IsFew (suc fuel) offset s few =
      if_descriptor-IsFew (read_struct_at formats.import_descriptor bytes offset) _ s
        (λ d.
          read_descriptors-IsFew fuel (offset + formats.import_descriptor.size) _
            (note_descriptor-IsFew d s few))
        few

  pub imports_at-IsFew :
      (found : Option ℕ) → IsFew (imports_at formats is_known bytes sections magic found)
  unfolding imports_at
  imports_at-IsFew none = record { short = omega arith }
  imports_at-IsFew (some offset) =
      read_descriptors-IsFew (suc (length bytes)) offset no_imports (record { short = omega arith })
