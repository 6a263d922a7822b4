-- ===== src/StaticAnalysis/Fuel.antt =====
-- The loops over imports end by their own tests: the fuel that they are given changes nothing.
use inspec_thor.Prelude.{
  ℕ, zero, suc, ◌+◌, ◌≤◌, ◌<◌, ◌≡◌, refl, ap, Bool, true, false, not, ◌&&◌, List, none, Text,
  length, ltb, ◌==◌, if◌then◌else◌, arith, Option-cases, inl, inr, ◌-◌, ◌||◌,
}
use inspec_thor.StaticAnalysis.Reader.{Struct, read_struct_at, SectionHeader}
use inspec_thor.StaticAnalysis.Headers.{PeFormats}
use inspec_thor.StaticAnalysis.Imports.{
  Imports, value_or, pointer_format, note_thunk, read_thunks, note_descriptor, is_last,
  if_descriptor, read_descriptors,
}

pointer_format-size : (magic : ℕ) → 0 < (pointer_format magic).size
unfolding pointer_format
pointer_format-size magic = ground arith

read_struct_outside :
    {A : Type 0} (format : Struct A) (bytes : List ℕ) (offset : ℕ)
    → 0 < format.size
    → length bytes ≤ offset
    → read_struct_at format bytes offset ≡ none
unfolding read_struct_at
read_struct_outside format bytes offset sized outside =
    let test : (ltb (length bytes) offset || ltb (length bytes - offset) format.size) ≡ true =
      ground arith in
    rw test refl

module _ (formats : PeFormats) (is_known : Text → Bool) (bytes : List ℕ)
    (sections : List SectionHeader) (magic : ℕ) where
  -- More fuel than bytes from the offset on gives the same imports.
  pub read_thunks-fuel :
      (fuel : ℕ) (dll : Text) (offset : ℕ) (s : Imports)
      → length bytes ≤ offset + fuel
      → read_thunks formats is_known bytes sections magic (suc fuel) dll offset s
        ≡ read_thunks formats is_known bytes sections magic fuel dll offset s
  unfolding read_thunks
  read_thunks-fuel zero dll offset s enough =
      let outside : ltb offset (length bytes) ≡ false = ground arith in rw outside refl
  read_thunks-fuel (suc fuel) dll offset s enough =
      let thunk = value_or 0 (read_struct_at (pointer_format magic) bytes offset) in
      let sized = pointer_format-size magic in
      ap (λ rest. if ltb offset (length bytes) && not (thunk == 0) then rest else s)
        (read_thunks-fuel fuel dll (offset + (pointer_format magic).size)
          (note_thunk formats is_known bytes sections magic dll thunk s) (omega arith))

  -- So do the descriptors, where a descriptor has a size.
  pub read_descriptors-fuel :
      (fuel offset : ℕ) (s : Imports)
      → 0 < formats.import_descriptor.size
      → length bytes ≤ offset + fuel
      → read_descriptors formats is_known bytes sections magic (suc (suc fuel)) offset s
        ≡ read_descriptors formats is_known bytes sections magic (suc fuel) offset s
  unfolding read_descriptors if_descriptor
  read_descriptors-fuel zero offset s sized enough =
      rw (read_struct_outside formats.import_descriptor bytes offset sized (omega arith)) refl
  read_descriptors-fuel (suc fuel) offset s sized enough =
      elim (Option-cases (read_struct_at formats.import_descriptor bytes offset)) [
        | inl ends ↦ rw ends refl
        | inr (d, more) ↦ rw more (
            ap (λ rest. if is_last formats is_known bytes sections magic d then s else rest)
              (read_descriptors-fuel fuel (offset + formats.import_descriptor.size)
                (note_descriptor formats is_known bytes sections magic d s) sized (omega arith)))
      ]
