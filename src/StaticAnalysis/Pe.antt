-- ===== src/StaticAnalysis/Pe.antt =====
-- `AnalyzeSelectedFileInto` of src/controller/gui.cpp, over its parts.
use inspec_thor.Prelude.{
  ℕ, ◌+◌, Bool, false, not, ◌||◌, List, map, Option, none, some, Text, literal, is_empty, ◌==◌,
  if◌then◌else◌,
}
use inspec_thor.StaticAnalysis.Reader.{word, read_struct_at, SectionHeader}
use inspec_thor.StaticAnalysis.Headers.{
  PeFormats, DosHeader, FileHeader, OptionalHeader, dword, optional_header, static_hex,
  machine_to_architecture, subsystem_to_string, file_type, section_row, read_sections,
}
use inspec_thor.StaticAnalysis.Imports.{Imports, directory_offset, tls_callbacks, imports_at}
use inspec_thor.StaticAnalysis.Analyze.{
  SelectedFile, Analysis, no_analysis, sort_unique, import_summary_of, compiler_info_of,
  resources_at, with_strings,
}

unfoldable pub magic_of : Option ℕ → ℕ
magic_of none = 0
magic_of (some magic) = magic

module _ (formats : PeFormats) (file : SelectedFile) where
  unfoldable pub with_imports : List SectionHeader → OptionalHeader → Imports → Analysis → Analysis
  with_imports sections header imports a = record a {
    imported_dlls = sort_unique imports.imported_dlls;
    imports_by_dll =
        map (λ (entry : Text × List Text). (entry.0, sort_unique entry.1)) imports.imports_by_dll;
    suspicious_imports = sort_unique imports.suspicious_imports;
    import_summary = import_summary_of imports;
    compiler_info = compiler_info_of formats file.bytes sections header imports;
  }

  -- An image with its headers and sections.
  unfoldable pub analyze_image :
      FileHeader → ℕ → OptionalHeader → List SectionHeader → Analysis → Analysis
  unfolding with_imports
  analyze_image h magic header sections a =
      let shown = record a {
        file_type = file_type magic h.characteristics;
        architecture = machine_to_architecture h.machine;
        subsystem =
            (if header.subsystem == 0 then literal "-" else subsystem_to_string header.subsystem);
        entry_point_rva = static_hex header.address_of_entry_point;
        compile_time = file.format_pe_timestamp h.time_date_stamp;
        sections = map (section_row file.entropy file.bytes) sections;
        tls_callbacks =
            tls_callbacks formats file.bytes sections magic header.image_base header.tls_directory;
        resources =
            resources_at formats file.bytes sections
              (directory_offset header.resource_directory sections file.bytes);
      } in
      with_imports sections header
        (imports_at formats file.is_known file.bytes sections magic
          (directory_offset header.import_directory sections file.bytes))
        shown

  unfoldable pub analyze_headers : ℕ → FileHeader → Analysis → Analysis
  unfolding analyze_image magic_of
  analyze_headers optional_offset h a =
      let magic = magic_of (read_struct_at word file.bytes optional_offset) in
      analyze_image h magic (optional_header formats file.bytes magic optional_offset)
        (read_sections formats.section_header file.bytes h.number_of_sections
          (optional_offset + h.size_of_optional_header))
        a

  unfoldable pub is_nt_signature : Option ℕ → Bool
  is_nt_signature none = false
  is_nt_signature (some signature) = signature == 0x4550

  unfoldable pub analyze_nt : ℕ → Option FileHeader → Analysis → Analysis
  unfolding analyze_headers
  analyze_nt nt_offset none a = record a { file_type = literal "Unknown / invalid PE" }
  analyze_nt nt_offset (some h) a = analyze_headers (nt_offset + 4 + formats.file_header.size) h a

  unfoldable pub nt_header : ℕ → Option FileHeader
  unfolding is_nt_signature
  nt_header nt_offset =
      if is_nt_signature (read_struct_at dword file.bytes nt_offset)
      then read_struct_at formats.file_header file.bytes (nt_offset + 4)
      else none

  unfoldable pub not_pe : Analysis → Analysis
  not_pe a = record a { file_type = literal "Unknown / non-PE"; compile_time = literal "-" }

  unfoldable pub analyze_dos : Option DosHeader → Analysis → Analysis
  unfolding analyze_nt nt_header not_pe
  analyze_dos none a = not_pe a
  analyze_dos (some dos) a =
      if dos.e_magic == 0x5A4D then analyze_nt dos.e_lfanew (nt_header dos.e_lfanew) a else not_pe a

  unfoldable pub analyze_selected_file : Analysis
  unfolding analyze_dos with_strings
  analyze_selected_file =
      let named = record no_analysis { path = file.path } in
      let hashed = record named { md5 = file.md5; sha1 = file.sha1; sha256 = file.sha256 } in
      if is_empty file.path || not file.exists
      then record named { status = literal "No file selected." }
      else if is_empty file.bytes
      then record hashed { status = literal "Could not read file." }
      else with_strings file.bytes
          (analyze_dos (read_struct_at formats.dos_header file.bytes 0) hashed)
