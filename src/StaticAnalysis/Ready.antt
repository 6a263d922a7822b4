-- ===== src/StaticAnalysis/Ready.antt =====
-- Every file that can be read gets a whole analysis, however its headers are made.
use inspec_thor.Prelude.{
  ℕ, ◌+◌, ◌≤◌, ◌≡◌, refl, ap, true, false, List, [], Option, none, some, Text, is_empty, length,
  ◌==◌, arith, if-elim,
}
use inspec_thor.StaticAnalysis.Reader.{word, read_struct_at, SectionHeader}
use inspec_thor.StaticAnalysis.Strings.{words}
use inspec_thor.StaticAnalysis.Runs.{strings_of, extract_strings-strings_of}
use inspec_thor.StaticAnalysis.Bounds.{AreSlices, parse_resources-AreSlices}
use inspec_thor.StaticAnalysis.Headers.{
  PeFormats, DosHeader, FileHeader, OptionalHeader, optional_header, read_sections,
}
use inspec_thor.StaticAnalysis.Imports.{directory_offset, imports_at}
use inspec_thor.StaticAnalysis.Analyze.{SelectedFile, Analysis, resources_at, with_strings}
use inspec_thor.StaticAnalysis.Limits.{tls_callbacks-le, sort_unique-le, imports_at-IsFew}
use inspec_thor.StaticAnalysis.Pe.{
  magic_of, analyze_image, analyze_nt, nt_header, not_pe, analyze_dos, analyze_selected_file,
}

pub record IsBounded (bytes : List ℕ) (a : Analysis) : Type 0 where
  pub resources : AreSlices bytes a.resources
  pub callbacks : length a.tls_callbacks ≤ 128
  pub suspicious : length a.suspicious_imports ≤ 256

-- The analysis is valid, keeps to its limits, and has the strings of the file's bytes and units.
pub record IsReady (bytes : List ℕ) (a : Analysis) : Type 0 where
  pub valid : a.valid ≡ true
  pub bounded : IsBounded bytes a
  pub ascii : a.ascii_strings ≡ strings_of bytes
  pub unicode : a.unicode_strings ≡ strings_of (words bytes)

with_strings-IsReady :
    (bytes : List ℕ) (a : Analysis) → IsBounded bytes a → IsReady bytes (with_strings bytes a)
unfolding with_strings
with_strings-IsReady bytes a bounded = record {
  valid = refl;
  bounded = record {
    resources = bounded.resources;
    callbacks = bounded.callbacks;
    suspicious = bounded.suspicious;
  };
  ascii = ap (λ (s : List Text × List Text). s.0) (extract_strings-strings_of bytes);
  unicode = ap (λ (s : List Text × List Text). s.1) (extract_strings-strings_of bytes);
}

module _ (formats : PeFormats) (file : SelectedFile) where
  resources_at-AreSlices :
      (sections : List SectionHeader) (found : Option ℕ)
      → AreSlices file.bytes (resources_at formats file.bytes sections found)
  unfolding resources_at
  resources_at-AreSlices sections none = record { few = omega arith; sliced = tt }
  resources_at-AreSlices sections (some offset) =
      parse_resources-AreSlices formats.resources file.bytes sections offset 5 0 offset [] [] []
        (record { few = omega arith; sliced = tt })

  analyze_image-IsBounded :
      (h : FileHeader) (magic : ℕ) (header : OptionalHeader) (sections : List SectionHeader)
      (a : Analysis)
      → IsBounded file.bytes (analyze_image formats file h magic header sections a)
  unfolding analyze_image
  analyze_image-IsBounded h magic header sections a =
      let found = directory_offset header.import_directory sections file.bytes in
      let imports = imports_at formats file.is_known file.bytes sections magic found in
      let few = imports_at-IsFew formats file.is_known file.bytes sections magic found in
      record {
        resources =
            resources_at-AreSlices sections
              (directory_offset header.resource_directory sections file.bytes);
        callbacks =
            tls_callbacks-le formats file.bytes sections magic header.image_base
              header.tls_directory;
        suspicious = omega (arith, sort_unique-le imports.suspicious_imports, few.short);
      }

  analyze_nt-IsBounded :
      (nt_offset : ℕ) (found : Option FileHeader) (a : Analysis)
      → IsBounded file.bytes a
      → IsBounded file.bytes (analyze_nt formats file nt_offset found a)
  unfolding analyze_nt
  analyze_nt-IsBounded nt_offset none a bounded = record {
    resources = bounded.resources;
    callbacks = bounded.callbacks;
    suspicious = bounded.suspicious;
  }
  analyze_nt-IsBounded nt_offset (some h) a bounded =
      let optional_offset = nt_offset + 4 + formats.file_header.size in
      let magic = magic_of (read_struct_at word file.bytes optional_offset) in
      analyze_image-IsBounded h magic (optional_header formats file.bytes magic optional_offset)
        (read_sections formats.section_header file.bytes h.number_of_sections
          (optional_offset + h.size_of_optional_header))
        a

  not_pe-IsBounded :
      (a : Analysis) → IsBounded file.bytes a → IsBounded file.bytes (not_pe formats file a)
  unfolding not_pe
  not_pe-IsBounded a bounded = record {
    resources = bounded.resources;
    callbacks = bounded.callbacks;
    suspicious = bounded.suspicious;
  }

  analyze_dos-IsBounded :
      (found : Option DosHeader) (a : Analysis)
      → IsBounded file.bytes a
      → IsBounded file.bytes (analyze_dos formats file found a)
  unfolding analyze_dos
  analyze_dos-IsBounded none a bounded = not_pe-IsBounded a bounded
  analyze_dos-IsBounded (some dos) a bounded =
      if-elim (IsBounded file.bytes) (dos.e_magic == 0x5A4D)
        (analyze_nt formats file dos.e_lfanew (nt_header formats file dos.e_lfanew) a)
        (not_pe formats file a)
        (λ image. analyze_nt-IsBounded dos.e_lfanew (nt_header formats file dos.e_lfanew) a bounded)
        (λ other. not_pe-IsBounded a bounded)

-- Every file that exists and has bytes gets a valid analysis, however its headers, directories and
-- tables are made: with the strings of its bytes and of its 16-bit units, at most 128 TLS callbacks,
-- 256 suspicious imports and 512 resources, each of which holds bytes from inside the file.
pub analyze-IsReady :
    (formats : PeFormats) (file : SelectedFile)
    → is_empty file.path ≡ false
    → file.exists ≡ true
    → is_empty file.bytes ≡ false
    → IsReady file.bytes (analyze_selected_file formats file)
unfolding analyze_selected_file
analyze-IsReady formats file named there filled =
    rw (named, there, filled)
      (with_strings-IsReady file.bytes _ (
        analyze_dos-IsBounded formats file (read_struct_at formats.dos_header file.bytes 0) _
          (record {
            resources = record { few = omega arith; sliced = tt };
            callbacks = omega arith;
            suspicious = omega arith;
          })))
