-- ===== src/Preprocessor/Graph.antt =====
-- The include graph of iwyu_preprocessor.cc: AddAllIncludesAsFileEntries and PopulateTransitiveIncludeMap, and
-- the queries on what the preprocessor has learned.
pub mod Count
pub mod Walk
pub mod Reach
use include_what_you_use.Base.{
  ℕ, zero, suc, Bool, true, false, not, ◌&&◌, ◌||◌, Option, none, some, List, [], ◌∷◌, ◌++◌, ltb,
  leb, length, map, if◌then◌else◌, any_of,
}
use include_what_you_use.Base.Checked.{◌>>=◌, ◌>>◌, check}
use include_what_you_use.Base.Key.{Key}
use include_what_you_use.Text.{Text, text, text_eq}
use include_what_you_use.Text.Order.{text_key}
use include_what_you_use.Container.{
  Map, Set, find_in_map, get_or_default, map_set, set_insert, contains,
}
use include_what_you_use.Lexer.{is_valid, line_has_text}
use include_what_you_use.Output.Use.{SourceLocation}
use include_what_you_use.Output.Facts.{file_eq}
use include_what_you_use.Output.FileInfo.{FileInfo}
use include_what_you_use.Preprocessor.{
  File, file_key, SourceRange, Ranges, PreprocessorInfo, SourceApi, quoted_path,
  normalize_namespaces,
}

-- What the loop of AddAllIncludesAsFileEntries runs over: nothing for a file without an IwyuFileInfo.
unfoldable pub includes_of : Map File FileInfo → File → Set File
unfolding find_in_map
includes_of infos includer = elim (find_in_map infos includer) [
  | none ↦ []
  | some info ↦ info.direct_includes_as_fileentries
]

-- The loop, with fuel for the depth of the calls.
unfoldable pub add_includes : ℕ → Map File FileInfo → List File → Set File → Option (Set File)
add_includes fuel infos [] retval = some retval
add_includes zero infos (include ∷ includes) retval =
    let skipped = add_includes zero infos includes retval in
    if contains retval include then skipped else none
add_includes (suc fuel) infos (include ∷ includes) retval = elim (contains retval include) [
  | true ↦ add_includes (suc fuel) infos includes retval
  | false ↦ (do
    retval' ← add_includes fuel infos (includes_of infos include) (set_insert retval include)
    add_includes (suc fuel) infos includes retval')
]

-- The includes of all files. A call goes deeper only for one of them that is not in the result yet.
unfoldable pub all_includes : Map File FileInfo → List File
all_includes [] = []
all_includes ((_, info) ∷ infos) = info.direct_includes_as_fileentries ++ all_includes infos

unfoldable pub add_all_includes_as_fileentries :
    Map File FileInfo → File → Set File → Option (Set File)
add_all_includes_as_fileentries infos includer retval =
    add_includes (length (all_includes infos)) infos (includes_of infos includer) retval

unfoldable pub populate_transitive :
    Map File FileInfo → List File → Map File (Set File) → Option (Map File (Set File))
populate_transitive infos [] m = some m
populate_transitive infos (file ∷ files) m = do
  reached ← add_all_includes_as_fileentries infos file (set_insert (get_or_default m file []) file)
  populate_transitive infos files (map_set m file reached)

unfoldable pub populate_transitive_include_map : PreprocessorInfo → Option PreprocessorInfo
populate_transitive_include_map s = do
  check (elim s.transitive_include_map [ [] ↦ true | _ ∷ _ ↦ false ])
  m ← populate_transitive s.iwyu_file_info_map (map (λ e. e.0) s.iwyu_file_info_map) []
  some (record s { transitive_include_map = m })

abbrev pub set_has : {K : Type 0} ⦃o : Key K⦄ → Option (Set K) → K → Bool
set_has none key = false
set_has (some found) key = contains found key

unfoldable pub include_to_fileentry : PreprocessorInfo → Text → File
unfolding get_or_default
include_to_fileentry s quoted_include =
    get_or_default s.include_to_fileentry_map quoted_include none

unfoldable pub public_header_intends_to_provide : PreprocessorInfo → File → File → Bool
unfolding find_in_map
public_header_intends_to_provide s public_header other_file =
    set_has (find_in_map s.intends_to_provide_map public_header) other_file

-- The three forms of FileTransitivelyIncludes.
unfoldable pub file_transitively_includes : PreprocessorInfo → File → File → Bool
unfolding find_in_map
file_transitively_includes s includer includee =
    set_has (find_in_map s.transitive_include_map includer) includee

unfoldable pub include_is_inhibited : PreprocessorInfo → File → Text → Bool
unfolding find_in_map
include_is_inhibited s file other_filename =
    set_has (find_in_map s.no_include_map file) other_filename

unfoldable pub forward_declare_is_inhibited : PreprocessorInfo → File → Text → Option Bool
unfolding find_in_map normalize_namespaces
forward_declare_is_inhibited s file qualified_symbol_name = do
  normalized_symbol_name ← normalize_namespaces qualified_symbol_name
  some (set_has (find_in_map s.no_forward_declare_map file) normalized_symbol_name)

-- `fullyContains` of a range, and the loop over the ranges of a file.
abbrev pub fully_contains : SourceRange → SourceLocation → Bool
fully_contains (from, to) loc = leb from loc && leb loc to

unfoldable pub in_ranges : Ranges → File → SourceLocation → Bool
in_ranges ranges file loc = any_of (λ r. file_eq r.0 file && fully_contains r.1 loc) ranges

module _ (api : SourceApi) where
  unfoldable pub any_quoted_as : List File → Text → Option Bool
  any_quoted_as [] quoted_includee = some false
  any_quoted_as (include ∷ includes) quoted_includee =
      let later = any_quoted_as includes quoted_includee in
      do
        quoted ← quoted_path api include
        if text_eq quoted quoted_includee then some true else later

  unfoldable pub file_transitively_includes_name : PreprocessorInfo → File → Text → Option Bool
  unfolding find_in_map any_quoted_as
  file_transitively_includes_name s includer quoted_includee =
      elim (find_in_map s.transitive_include_map includer) [
        | none ↦ some false
        | some all_of_includer ↦ any_quoted_as all_of_includer quoted_includee
      ]

  unfoldable pub first_quoted_includes : Map File (Set File) → Text → File → Option Bool
  unfolding contains
  first_quoted_includes [] quoted_includer includee = some false
  first_quoted_includes ((file, reached) ∷ m) quoted_includer includee =
      let later = first_quoted_includes m quoted_includer includee in
      do
        quoted ← quoted_path api file
        if text_eq quoted quoted_includer then some (contains reached includee) else later

  unfoldable pub name_transitively_includes_file : PreprocessorInfo → Text → File → Option Bool
  unfolding first_quoted_includes
  name_transitively_includes_file s quoted_includer includee =
      first_quoted_includes s.transitive_include_map quoted_includer includee

  -- The end location of the declaration is `loc`.
  unfoldable pub forward_declare_is_marked_keep : PreprocessorInfo → SourceLocation → Option Bool
  unfolding in_ranges line_has_text
  forward_declare_is_marked_keep s loc =
      if in_ranges s.keep_location_ranges (api.file_of_loc loc) loc then some true else (do
        line_comment ← line_has_text api.char_data loc (text "// IWYU pragma: keep")
        block_comment ← line_has_text api.char_data loc (text "/* IWYU pragma: keep")
        some (line_comment || block_comment))

  unfoldable pub forward_declare_is_exported : PreprocessorInfo → SourceLocation → Option Bool
  unfolding in_ranges line_has_text is_valid
  forward_declare_is_exported s loc =
      if not (is_valid loc)
      then some false
      else if in_ranges s.export_location_ranges (api.file_of_loc loc) loc
      then some true
      else (do
        line_comment ← line_has_text api.char_data loc (text "// IWYU pragma: export")
        block_comment ← line_has_text api.char_data loc (text "/* IWYU pragma: export")
        some (line_comment || block_comment))
