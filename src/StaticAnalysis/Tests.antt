-- ===== src/StaticAnalysis/Tests.antt =====
-- A file with a text and a resource directory, and the theorems there.
use inspec_thor.Prelude.{
  ℕ, zero, suc, ◌+◌, ◌*◌, ◌≡◌, refl, true, false, List, [], ◌∷◌, ◌++◌, some, codes, literal,
  text_eq, length, arith, ◌==◌,
}
use inspec_thor.Etw.Values.{little_endian}
use inspec_thor.StaticAnalysis.Reader.{
  SectionHeader, rva_to_offset, read_struct_at, read_null_terminated_string,
}
use inspec_thor.StaticAnalysis.Strings.{extract_strings}
use inspec_thor.StaticAnalysis.Resources.{ResourceFormats, parse_resources_recursive}
use inspec_thor.StaticAnalysis.Headers.{
  PeFormats, no_optional_header, optional_header, file_type, read_sections,
}
use inspec_thor.StaticAnalysis.Imports.{imports_at, directory_offset}
use inspec_thor.StaticAnalysis.Analyze.{SelectedFile, sort_unique}
use inspec_thor.StaticAnalysis.Pe.{analyze_selected_file}
use inspec_thor.StaticAnalysis.Ready.{IsReady, analyze-IsReady}
use inspec_thor.StaticAnalysis.Bounds.{AreSlices, parse_resources-AreSlices}

abbrev some_file : List ℕ
some_file =
    1 ∷ codes "text" ++ 0 ∷ codes "abc" ++ 0 ∷ b'w' ∷ 0 ∷ b'i' ∷ 0 ∷ b'd' ∷ 0 ∷ b'e' ∷ 0 ∷ []

test_strings : extract_strings some_file [] [] ≡ (codes "text" ∷ [], codes "cwide" ∷ [])
unfolding extract_strings
test_strings = refl

abbrev byte_at : ℕ → List ℕ → ℕ
byte_at i [] = 0
byte_at zero (b ∷ bytes) = b
byte_at (suc i) (b ∷ bytes) = byte_at i bytes

-- One byte for each member.
abbrev small_formats : ResourceFormats
small_formats = record {
  directory = record {
    size = 2;
    decode =
        λ b. record { number_of_named_entries = byte_at 0 b; number_of_id_entries = byte_at 1 b };
  };
  entry = record {
    size = 3;
    decode = λ b. record {
      name_is_string = false;
      name_offset = 0;
      id = byte_at 0 b;
      data_is_directory = byte_at 1 b == 1;
      offset_to_directory = byte_at 2 b;
      offset_to_data = byte_at 2 b;
    };
  };
  data_entry = record {
    size = 2;
    decode = λ b. record { offset_to_data = byte_at 0 b; size = byte_at 1 b };
  };
  narrow = λ units. units;
}

-- A directory with an icon, and with itself once more.
abbrev looping_file : List ℕ
looping_file = 0 ∷ 2 ∷ 3 ∷ 0 ∷ 8 ∷ 6 ∷ 1 ∷ 0 ∷ 9 ∷ 2 ∷ []

parse_resources-AreSlices_example :
    AreSlices looping_file
      (parse_resources_recursive small_formats looping_file [] 0 5 0 0 [] [] [])
parse_resources-AreSlices_example =
    parse_resources-AreSlices small_formats looping_file [] 0 5 0 0 [] [] []
      (record { few = omega arith; sliced = tt })

-- The icon is read at each of the five levels.
test_looping : length (parse_resources_recursive small_formats looping_file [] 0 5 0 0 [] [] []) ≡ 5
unfolding parse_resources_recursive rva_to_offset read_struct_at
test_looping = refl

abbrev text_section : SectionHeader
text_section = record {
  name = codes ".text";
  virtual_size = 0x100;
  virtual_address = 0x1000;
  size_of_raw_data = 0x200;
  pointer_to_raw_data = 0x400;
  characteristics = 0;
}

test_rva : rva_to_offset 0x1010 (text_section ∷ []) 0x600 ≡ some 0x410
unfolding rva_to_offset
test_rva = refl

-- One byte for each member but the magic numbers.
abbrev small_pe : PeFormats
small_pe = record {
  dos_header = record {
    size = 3;
    decode = λ b. record { e_magic = byte_at 0 b + 256 * byte_at 1 b; e_lfanew = byte_at 2 b };
  };
  file_header = record {
    size = 2;
    decode = λ b. record {
      machine = 0x14C;
      number_of_sections = byte_at 0 b;
      time_date_stamp = 0;
      size_of_optional_header = byte_at 1 b;
      characteristics = 0;
    };
  };
  optional_header_64 = record { size = 0; decode = λ b. no_optional_header };
  optional_header_32 = record {
    size = 4;
    decode = λ b. record no_optional_header {
      import_directory = record { virtual_address = byte_at 2 b; size = 3 };
      resource_directory = record { virtual_address = byte_at 3 b; size = 2 };
    };
  };
  section_header = record { size = 1; decode = λ b. text_section };
  tls_directory_64 = record { size = 8; decode = byte_at 0 };
  tls_directory_32 = record { size = 4; decode = byte_at 0 };
  import_descriptor = record {
    size = 3;
    decode = λ b. record {
      name = byte_at 0 b;
      first_thunk = byte_at 1 b;
      original_first_thunk = byte_at 2 b;
    };
  };
  debug_directory = record {
    size = 3;
    decode = λ b. record {
      type = byte_at 0 b;
      pointer_to_raw_data = byte_at 1 b;
      address_of_raw_data = byte_at 2 b;
    };
  };
  resources = small_formats;
}

-- Headers to byte 12, an import of "api" from "d.dll" from byte 13 on, and an empty resource
-- directory.
abbrev some_image : SelectedFile
some_image = record {
  path = codes "C:\\a.exe";
  exists = true;
  md5 = [];
  sha1 = [];
  sha256 = [];
  bytes =
      codes "MZ"
      ++ 3 ∷ codes "PE"
      ++ 0 ∷ 0 ∷ 0 ∷ 4 ∷ 0x0B ∷ 0x01 ∷ 13 ∷ 29 ∷ 19 ∷ 0 ∷ 25 ∷ 0 ∷ 0 ∷ 0 ∷ codes "d.dll"
      ++ 0 ∷ 33 ∷ 0 ∷ 0 ∷ 0 ∷ 0 ∷ 0 ∷ 0 ∷ 0 ∷ 0 ∷ 0 ∷ codes "api"
      ++ 0 ∷ [];
  format_pe_timestamp = λ stamp. [];
  entropy = λ bytes. 0;
  is_known = λ api. true;
}

test_image_type : (analyze_selected_file small_pe some_image).file_type ≡ codes "PE32 executable"
unfolding analyze_selected_file read_struct_at literal file_type optional_header little_endian
test_image_type = refl

test_image_imports :
    (analyze_selected_file small_pe some_image).suspicious_imports ≡ codes "d.dll!api" ∷ []
unfolding analyze_selected_file read_struct_at literal file_type optional_header little_endian
    imports_at directory_offset rva_to_offset read_null_terminated_string sort_unique text_eq
    read_sections
test_image_imports = refl

analyze-IsReady_example : IsReady some_image.bytes (analyze_selected_file small_pe some_image)
analyze-IsReady_example = analyze-IsReady small_pe some_image refl refl refl
