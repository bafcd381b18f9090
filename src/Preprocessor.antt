-- ===== src/Preprocessor.antt =====
-- iwyu_preprocessor.cc and iwyu_preprocessor.h: what the program learns while Clang preprocesses a file.
-- The state is that of IwyuPreprocessorInfo, with the global include picker and the global flags, which its
-- handlers change too. A pointer to an IwyuFileInfo of the map is the file that is its key.
pub mod Namespaces
pub mod Pragma
pub mod Include
pub mod Headername
pub mod Events
pub mod Finish
pub mod Graph
pub mod Provide
mod Tests
use include_what_you_use.Base.{
  ℕ, ◌+◌, Bool, true, false, not, ◌&&◌, ◌||◌, Option, none, some, List, [], ◌∷◌, ◌++◌, ◌==◌, ◌≡◌,
  ◌↔◌, refl, arith, zero, suc, take, ltb, if◌then◌else◌, drop, length,
}
use include_what_you_use.Base.Key.{Key}
use include_what_you_use.Base.Checked.{◌>>=◌, ◌>>◌, check}
use include_what_you_use.Text.{Text, text, text_eq, starts_with, find, strip_left}
use include_what_you_use.Text.Order.{text_key}
use include_what_you_use.Container.{Map, Set, find_in_map, map_set}
use include_what_you_use.PathUtil.{
  PathApi, normalize_file_path, is_special_filename, is_special_filename_or_stdin,
  is_header_filename,
}
use include_what_you_use.Output.Use.{FileEntry, SourceLocation}
use include_what_you_use.Output.Facts.{file_eq}
use include_what_you_use.Output.FileInfo.{FileInfo}
use include_what_you_use.Picker.{IncludePicker, PickerApi}
use include_what_you_use.Globals.{
  CommandlineFlags, should_report_iwyu_violations_for, should_keep_include_for,
}

abbrev pub File : Type 0
File = Option FileEntry

-- The order of `OptionalFileEntryRef`, in which no file comes first.
abbrev pub file_less : File → File → Bool
file_less none none = false
file_less none (some b) = true
file_less (some a) none = false
file_less (some a) (some b) = ltb a b

pub file_eq_iff : (a b : File) → (file_eq a b ≡ true) ↔ (a ≡ b)
file_eq_iff none none = (λ h. refl, λ h. refl)
file_eq_iff (some a) (some b) = ground arith
file_eq_iff none (some b) = ground arith
file_eq_iff (some a) none = ground arith

instance abbrev pub file_key : Key File
file_key = record { beq = file_eq; less = file_less; beq_iff = file_eq_iff }

-- A `SourceRange`, and a multimap of ranges.
abbrev pub SourceRange : Type 0
SourceRange = SourceLocation × SourceLocation

abbrev pub Ranges : Type 0
Ranges = List (File × SourceRange)

pub record PreprocessorInfo : Type 0 where
  pub main_file : File
  pub files_to_report_iwyu_violations_for : Set File
  pub include_to_fileentry_map : Map Text File
  pub iwyu_file_info_map : Map File FileInfo
  pub associated_headers : Map File (Set File)
  pub num_includes_seen : Map File ℕ
  pub intends_to_provide_map : Map File (Set File)
  pub transitive_include_map : Map File (Set File)
  pub no_include_map : Map File (Set Text)
  pub no_forward_declare_map : Map File (Set Text)
  pub begin_exports_location_stack : List SourceLocation
  pub begin_keep_location_stack : List SourceLocation
  pub keep_location_ranges : Ranges
  pub export_location_ranges : Ranges
  pub associated_pragma_location : SourceLocation
  pub include_filename_loc : SourceLocation
  pub always_keep_files : Set File
  pub picker : IncludePicker
  pub flags : CommandlineFlags
  pub warnings : List (SourceLocation × Text)

-- What the handlers ask Clang and the platform: the file of a location (`GetFileEntry`), the name and the start
-- of a file, whether it is a system header, the location of the directive that includes the file of a location,
-- the expansion location, the text from a location on, and the match of a glob.
pub record SourceApi : Type 0 where
  pub sys : PathApi
  pub picker_api : PickerApi
  pub file_of_loc : SourceLocation → File
  pub name_of_file : FileEntry → Text
  pub file_start_loc : File → SourceLocation
  pub is_system_header : File → Bool
  pub include_loc_of : SourceLocation → SourceLocation
  pub instantiation_loc : SourceLocation → SourceLocation
  pub line_number : SourceLocation → ℕ
  pub char_data : SourceLocation → Option Text
  pub glob_matches_path : Text → Text → Bool

abbrev pub warn : PreprocessorInfo → SourceLocation → Text → PreprocessorInfo
warn s loc message = record s { warnings = s.warnings ++ (loc, message) ∷ [] }

-- The loop of NormalizeNamespaces, with fuel for its rounds.
unfoldable pub strip_anonymous : ℕ → Text → Option Text
unfolding find
strip_anonymous zero symbol = none
strip_anonymous (suc fuel) symbol = elim (find symbol (text "(anonymous namespace)::")) [
  | none ↦ some symbol
  | some index ↦
      strip_anonymous fuel
        (take index symbol ++ drop (index + length (text "(anonymous namespace)::")) symbol)
]

unfoldable pub normalize_namespaces : Text → Option Text
unfolding strip_left strip_anonymous
normalize_namespaces symbol =
    let stripped = (strip_left symbol (text "::")).1 in
    strip_anonymous (suc (length stripped)) stripped

module _ (api : SourceApi) where
  unfoldable pub get_file_path : File → Text
  unfolding normalize_file_path
  get_file_path none = text "<built-in>"
  get_file_path (some file) = normalize_file_path api.sys (api.name_of_file file)

  unfoldable pub is_special_file : File → Bool
  unfolding is_special_filename
  is_special_file none = true
  is_special_file (some file) = is_special_filename (api.name_of_file file)

  unfoldable pub is_special_file_or_stdin : File → Bool
  unfolding is_special_filename_or_stdin
  is_special_file_or_stdin none = true
  is_special_file_or_stdin (some file) = is_special_filename_or_stdin (api.name_of_file file)

  unfoldable pub is_header_file : File → Option Bool
  unfolding is_header_filename
  is_header_file none = some false
  is_header_file (some file) = is_header_filename api.sys (api.name_of_file file)

  abbrev pub quoted_path : File → Option Text
  quoted_path file = api.picker_api.quote (get_file_path file)

  unfoldable pub should_report : PreprocessorInfo → File → Bool
  unfolding should_report_iwyu_violations_for
  should_report s file =
      should_report_iwyu_violations_for api.glob_matches_path s.flags (get_file_path file)

  unfoldable pub should_keep : PreprocessorInfo → File → Bool
  unfolding should_keep_include_for
  should_keep s file = should_keep_include_for api.glob_matches_path s.flags (get_file_path file)

  -- The constructor of IwyuFileInfo.
  unfoldable pub new_file_info : File → Text → FileInfo
  new_file_info file quoted_include_name = record {
    file = file;
    quoted_file = quoted_include_name;
    is_prefix_header = false;
    is_pch_in_code = false;
    associated_headers = [];
    symbol_uses = [];
    lines = [];
    using_decl_referenced = [];
    direct_includes = [];
    direct_includes_as_fileentries = [];
    direct_forward_declares = [];
    kept_includes = [];
    macro_users = [];
    desired_includes = none;
  }

  unfoldable pub insert_into_file_info_map : PreprocessorInfo → File → Text → PreprocessorInfo
  unfolding new_file_info find_in_map map_set
  insert_into_file_info_map s file quoted_include_name =
      elim (find_in_map s.iwyu_file_info_map file) [
        | some _ ↦ s
        | none ↦ record s {
          iwyu_file_info_map =
              map_set s.iwyu_file_info_map file (new_file_info file quoted_include_name);
        }
      ]

  -- GetFromFileInfoMap, with the state that it leaves.
  unfoldable pub get_from_file_info_map :
      PreprocessorInfo → File → Option (FileInfo × PreprocessorInfo)
  unfolding new_file_info find_in_map map_set
  get_from_file_info_map s file = elim (find_in_map s.iwyu_file_info_map file) [
    | some info ↦ some (info, s)
    | none ↦ (do
      quoted_include ← quoted_path file
      let info = new_file_info file quoted_include
      some (info, record s { iwyu_file_info_map = map_set s.iwyu_file_info_map file info }))
  ]

  -- A change of the IwyuFileInfo of a file.
  unfoldable pub change_file_info :
      PreprocessorInfo → File → (FileInfo → Option FileInfo) → Option PreprocessorInfo
  unfolding get_from_file_info_map
  change_file_info s file change = do
    (info, s₁) ← get_from_file_info_map s file
    changed ← change info
    some (record s₁ { iwyu_file_info_map = map_set s₁.iwyu_file_info_map file changed })

  -- FileInfoFor.
  abbrev pub file_info_for : PreprocessorInfo → File → Option FileInfo
  file_info_for s file = find_in_map s.iwyu_file_info_map file
