-- ===== src/StaticAnalysis/Analyze.antt =====
-- `AnalyzeSelectedFileInto` of src/controller/gui.cpp: the parts put together.
use inspec_thor.Prelude.{
  ℕ, zero, suc, ◌+◌, ◌/◌, Bool, true, false, not, ◌&&◌, ◌||◌, List, [], ◌∷◌, ◌++◌, Option, none,
  some, Text, literal, text_eq, length, leb, ltb, ◌==◌, if◌then◌else◌,
}
use inspec_thor.Format.{to_decimal}
use inspec_thor.StaticAnalysis.Reader.{
  Struct, read_struct_at, read_null_terminated_string, SectionHeader, rva_to_offset,
}
use inspec_thor.StaticAnalysis.Strings.{extract_strings}
use inspec_thor.StaticAnalysis.Resources.{ResourceRow, parse_resources_recursive}
use inspec_thor.StaticAnalysis.Headers.{
  PeFormats, DataDirectory, OptionalHeader, DebugDirectory, SectionRow,
}
use inspec_thor.StaticAnalysis.Imports.{Imports, directory_offset}

-- What Windows and other parts answer about the file: whether the path names one, its hashes and
-- bytes, the local time of a stamp, the entropy of bytes as a double's bits, and LookupApiIntel.
pub record SelectedFile : Type 0 where
  pub path : Text
  pub exists : Bool
  pub md5 : Text
  pub sha1 : Text
  pub sha256 : Text
  pub bytes : List ℕ
  pub format_pe_timestamp : ℕ → Text
  pub entropy : List ℕ → ℕ
  pub is_known : Text → Bool

pub record Analysis : Type 0 where
  pub valid : Bool
  pub path : Text
  pub md5 : Text
  pub sha1 : Text
  pub sha256 : Text
  pub file_type : Text
  pub architecture : Text
  pub subsystem : Text
  pub entry_point_rva : Text
  pub compile_time : Text
  pub compiler_info : Text
  pub import_summary : Text
  pub status : Text
  pub imported_dlls : List Text
  pub imports_by_dll : List (Text × List Text)
  pub suspicious_imports : List Text
  pub tls_callbacks : List Text
  pub sections : List SectionRow
  pub ascii_strings : List Text
  pub unicode_strings : List Text
  pub resources : List ResourceRow

abbrev pub no_analysis : Analysis
no_analysis = record {
  valid = false;
  path = [];
  md5 = [];
  sha1 = [];
  sha256 = [];
  file_type = [];
  architecture = [];
  subsystem = [];
  entry_point_rva = [];
  compile_time = [];
  compiler_info = [];
  import_summary = [];
  status = [];
  imported_dlls = [];
  imports_by_dll = [];
  suspicious_imports = [];
  tls_callbacks = [];
  sections = [];
  ascii_strings = [];
  unicode_strings = [];
  resources = [];
}

-- operator< of std::string.
unfoldable pub text_before : Text → Text → Bool
text_before s [] = false
text_before [] (d ∷ t) = true
text_before (c ∷ s) (d ∷ t) = ltb c d || c == d && text_before s t

unfoldable pub insert_text : Text → List Text → List Text
unfolding text_before
insert_text s [] = s ∷ []
insert_text s (t ∷ texts) =
    if text_eq s t
    then t ∷ texts
    else if text_before s t
    then s ∷ t ∷ texts
    else t ∷ insert_text s texts

-- std::sort, and erasing what std::unique leaves over.
unfoldable pub sort_unique : List Text → List Text
unfolding insert_text
sort_unique [] = []
sort_unique (s ∷ texts) = insert_text s (sort_unique texts)

unfoldable pub joined : List Text → Text
joined [] = []
joined (hint ∷ []) = hint
joined (hint ∷ next ∷ hints) = hint ++ b',' ∷ b' ' ∷ joined (next ∷ hints)

unfoldable pub runtime_imports : List Text → Text
unfolding joined
runtime_imports [] = []
runtime_imports (hint ∷ hints) = literal " | Runtime imports: " ++ joined (hint ∷ hints)

unfoldable pub import_summary_of : Imports → Text
import_summary_of s =
    to_decimal (length (sort_unique s.imported_dlls))
    ++ literal " DLLs, "
    ++ to_decimal s.import_count
    ++ literal " imports, "
    ++ to_decimal (length (sort_unique s.suspicious_imports))
    ++ literal " profiled APIs"

-- The path that a CodeView record names.
unfoldable pub pdb_at : List ℕ → Option ℕ → Option Text
pdb_at bytes none = none
pdb_at bytes (some offset) =
    let signature = read_null_terminated_string bytes offset 4 in
    if not (ltb (offset + 4) (length bytes))
    then none
    else if text_eq signature (literal "RSDS") && ltb (offset + 24) (length bytes)
    then some (read_null_terminated_string bytes (offset + 24) 4096)
    else if text_eq signature (literal "NB10") && ltb (offset + 16) (length bytes)
    then some (read_null_terminated_string bytes (offset + 16) 4096)
    else none

unfoldable pub pdb_of : List ℕ → List SectionHeader → Option DebugDirectory → Option Text
unfolding pdb_at
pdb_of bytes sections none = none
pdb_of bytes sections (some d) =
    if not (d.type == 2)
    then none
    else if leb (length bytes) (d.pointer_to_raw_data + 4)
    then pdb_at bytes (rva_to_offset d.address_of_raw_data sections (length bytes))
    else pdb_at bytes (some d.pointer_to_raw_data)

unfoldable pub first_pdb : Option Text → Text → Text
first_pdb none rest = rest
first_pdb (some path) rest = literal " | PDB: " ++ path

-- The loop over the debug entries that are left.
unfoldable pub read_debug : Struct DebugDirectory → List ℕ → List SectionHeader → ℕ → ℕ → Text
unfolding pdb_of first_pdb
read_debug format bytes sections zero offset = []
read_debug format bytes sections (suc count) offset =
    first_pdb (pdb_of bytes sections (read_struct_at format bytes offset))
      (read_debug format bytes sections count (offset + format.size))

unfoldable pub debug_at :
    Struct DebugDirectory → List ℕ → List SectionHeader → DataDirectory → Option ℕ → Text
unfolding read_debug
debug_at format bytes sections directory none = []
debug_at format bytes sections directory (some offset) =
    if ltb directory.size format.size
    then []
    else read_debug format bytes sections (directory.size / format.size) offset

unfoldable pub compiler_info_of :
    PeFormats → List ℕ → List SectionHeader → OptionalHeader → Imports → Text
unfolding debug_at runtime_imports
compiler_info_of formats bytes sections header s =
    literal "Linker "
    ++ to_decimal header.major_linker_version
    ++ b'.' ∷ to_decimal header.minor_linker_version
    ++ runtime_imports s.compiler_hints
    ++ debug_at formats.debug_directory bytes sections header.debug_directory
        (directory_offset header.debug_directory sections bytes)

unfoldable pub resources_at : PeFormats → List ℕ → List SectionHeader → Option ℕ → List ResourceRow
resources_at formats bytes sections none = []
resources_at formats bytes sections (some offset) =
    parse_resources_recursive formats.resources bytes sections offset 5 0 offset [] [] []

-- The end of every analysis of a file that was read.
unfoldable pub with_strings : List ℕ → Analysis → Analysis
with_strings bytes a =
    let strings = extract_strings bytes [] [] in
    record a {
      ascii_strings = strings.0;
      unicode_strings = strings.1;
      valid = true;
      status = literal "Static analysis ready.";
    }
