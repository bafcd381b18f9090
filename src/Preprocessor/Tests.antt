-- ===== src/Preprocessor/Tests.antt =====
-- A run of each theorem, in a small tree of files.
use include_what_you_use.Base.{
  ℕ, true, false, none, some, List, [], ◌∷◌, ◌≡◌, refl, ◌↔◌, ◌==◌, if◌then◌else◌,
}
use include_what_you_use.Text.{Text, text, split_on_white_space_preserving_quotes, find, strip_left}
use include_what_you_use.Container.{map_set, find_in_map, Set, Map, map_contains_key}
use include_what_you_use.Output.FileInfo.{FileInfo}
use include_what_you_use.Globals.{default_flags}
use include_what_you_use.Preprocessor.{
  get_file_path, File, file_key, PreprocessorInfo, SourceApi, normalize_namespaces,
}
use include_what_you_use.Output.Use.{OneUse, full}
use include_what_you_use.Preprocessor.{is_special_file_or_stdin, change_file_info}
use include_what_you_use.Output.Report.{report_include_file_use}
use include_what_you_use.Preprocessor.Include.{
  keep_include, protect_include, maybe_protect_include, line_has_pragma,
}
use include_what_you_use.Preprocessor.Include.Kept.{IsKept, maybe_protect_include-IsKept}
use include_what_you_use.Preprocessor.Namespaces.{Erases, normalize_namespaces-IsNormal}
use include_what_you_use.Preprocessor.Pragma.{
  has_open_begin_exports, has_open_begin_keep, handle_pragma, handle_pragma_comment,
  file_changed_exit_to_file, strip_pragma, match_one_token,
}
use include_what_you_use.Preprocessor.Pragma.Same.{HasRegions}
use include_what_you_use.Preprocessor.Pragma.Exit.{start, comment, file_changed_exit_to_file-closes}
use include_what_you_use.Preprocessor.Graph.{
  populate_transitive_include_map, file_transitively_includes,
}
use include_what_you_use.Preprocessor.Graph.Walk.{Reaches}
use include_what_you_use.Preprocessor.Graph.Reach.{populate_transitive_include_map-Reaches}
use include_what_you_use.Samples.{sys, picker_api, empty_picker}

-- Every location is in the file 1, and a pragma stands there.
abbrev api : SourceApi
api = record {
  sys = sys;
  picker_api = picker_api;
  file_of_loc = λ loc. some 1;
  name_of_file =
      λ file. if file == 1 then text "a.cc" else if file == 2 then text "b.h" else text "c.h";
  file_start_loc = λ file. 1;
  is_system_header = λ file. false;
  include_loc_of = λ loc. 0;
  instantiation_loc = λ loc. loc;
  line_number = λ loc. 1;
  char_data = λ loc. some (text "// IWYU pragma: begin_exports");
  glob_matches_path = λ glob path. false;
}

abbrev info : ℕ → List File → FileInfo
info file includes = record {
  file = some file;
  quoted_file = text "\"a.h\"";
  is_prefix_header = false;
  is_pch_in_code = false;
  associated_headers = [];
  symbol_uses = [];
  lines = [];
  using_decl_referenced = [];
  direct_includes = [];
  direct_includes_as_fileentries = includes;
  direct_forward_declares = [];
  kept_includes = [];
  macro_users = [];
  desired_includes = none;
}

-- The file 1 includes 2, which includes 1 and 3; 3 has no IwyuFileInfo.
abbrev infos : Map File FileInfo
infos = (some 1, info 1 (some 2 ∷ [])) ∷ (some 2, info 2 (some 1 ∷ some 3 ∷ [])) ∷ []

abbrev preprocessor : PreprocessorInfo
preprocessor = record {
  main_file = some 1;
  files_to_report_iwyu_violations_for = [];
  include_to_fileentry_map = [];
  iwyu_file_info_map = infos;
  associated_headers = [];
  num_includes_seen = [];
  intends_to_provide_map = [];
  transitive_include_map = [];
  no_include_map = [];
  no_forward_declare_map = [];
  begin_exports_location_stack = [];
  begin_keep_location_stack = [];
  keep_location_ranges = [];
  export_location_ranges = [];
  associated_pragma_location = 0;
  include_filename_loc = 0;
  always_keep_files = [];
  picker = empty_picker;
  flags = default_flags none;
  warnings = [];
}

abbrev in_exports : PreprocessorInfo
in_exports = record preprocessor { begin_exports_location_stack = 10 ∷ [] }

normalize_namespaces-IsNormal_example :
    (r : Text) × (normalize_namespaces (text "::a::(anonymous namespace)::b") ≡ some r)
    × (find r (text "(anonymous namespace)::") ≡ none)
    × Erases (strip_left (text "::a::(anonymous namespace)::b") (text "::")).1 r
normalize_namespaces-IsNormal_example =
    normalize_namespaces-IsNormal (text "::a::(anonymous namespace)::b")

begins : handle_pragma_comment api preprocessor (10, 39) ≡ some in_exports
unfolding handle_pragma_comment strip_pragma handle_pragma has_open_begin_exports
    has_open_begin_keep match_one_token split_on_white_space_preserving_quotes
begins = refl

file_changed_exit_to_file-closes_example :
    HasRegions api (file_changed_exit_to_file api in_exports (some 1))
    × (has_open_begin_exports api (file_changed_exit_to_file api in_exports (some 1)) (some 1)
        ≡ false)
    × (has_open_begin_keep api (file_changed_exit_to_file api in_exports (some 1)) (some 1) ≡ false)
file_changed_exit_to_file-closes_example =
    file_changed_exit_to_file-closes api preprocessor in_exports (some 1)
      (record { no_exports = refl; no_keep = refl; no_export_ranges = refl; no_keep_ranges = refl })
      (comment (10, 39) start begins)

populate_transitive_include_map-Reaches_example :
    (t : PreprocessorInfo) × (populate_transitive_include_map preprocessor ≡ some t)
    × ((includer includee : File)
        → (file_transitively_includes t includer includee ≡ true)
          ↔ ((map_contains_key infos includer ≡ true) × Reaches infos includer includee))
populate_transitive_include_map-Reaches_example =
    populate_transitive_include_map-Reaches preprocessor refl

abbrev reached : Map File (Set File)
reached = (some 1, some 1 ∷ some 2 ∷ some 3 ∷ []) ∷ (some 2, some 1 ∷ some 2 ∷ some 3 ∷ []) ∷ []

-- The state when the preprocessor is through.
abbrev finished : PreprocessorInfo
finished = record preprocessor {
  picker = record empty_picker { has_called_finalize_added_include_lines = true };
  transitive_include_map = reached;
  intends_to_provide_map =
      (some 1, some 1 ∷ some 2 ∷ []) ∷ (some 2, some 1 ∷ some 2 ∷ some 3 ∷ []) ∷ [];
}

-- The line of the include has a pragma that keeps it.
abbrev keep_api : SourceApi
keep_api = record api { char_data = λ loc. some (text "\"b.h\"  // IWYU pragma: keep") }

abbrev use_of_b : OneUse
use_of_b = record {
  symbol_name = [];
  short_symbol_name = [];
  decl = none;
  decl_loc = 0;
  decl_file = some 2;
  decl_filepath = text "b.h";
  use_loc = 10;
  use_kind = full;
  use_flags = 0;
  comment = [];
  public_headers = [];
  canonical_headers = [];
  suggested_header = text "\"b.h\"";
  ignore_use = false;
  is_iwyu_violation = false;
}

abbrev with_kept : PreprocessorInfo
with_kept = record preprocessor {
  iwyu_file_info_map =
      (
        some 1,
        record (info 1 (some 2 ∷ [])) { kept_includes = some 2 ∷ []; symbol_uses = use_of_b ∷ [] },
      )
      ∷ (some 2, info 2 (some 1 ∷ some 3 ∷ []))
      ∷ [];
}

keeps : maybe_protect_include keep_api preprocessor 10 (some 2) (text "\"b.h\"") ≡ some with_kept
unfolding maybe_protect_include is_special_file_or_stdin line_has_pragma keep_include find_in_map
    protect_include map_contains_key map_set change_file_info report_include_file_use get_file_path
keeps = refl

maybe_protect_include-IsKept_example : IsKept keep_api preprocessor (some 1) (some 2) with_kept
maybe_protect_include-IsKept_example =
    maybe_protect_include-IsKept keep_api preprocessor with_kept 10 (some 2) (text "\"b.h\"") true
      (unfold is_special_file_or_stdin in refl) (unfold line_has_pragma in refl) refl keeps
