-- ===== src/Preprocessor/Provide.antt =====
-- PopulateIntendsToProvideMap and HandlePreprocessingDone of iwyu_preprocessor.cc.
pub mod Grows
pub mod Own
pub mod Done
use include_what_you_use.Base.{
  true, false, not, Option, none, some, List, [], ◌∷◌, map, if◌then◌else◌,
}
use include_what_you_use.Base.Checked.{◌>>=◌, ◌>>◌, check}
use include_what_you_use.Text.Order.{text_key}
use include_what_you_use.Container.{
  Map, Set, find_in_map, get_or_default, map_set, map_contains_key, set_insert, insert_all_into,
}
use include_what_you_use.Output.Facts.{file_eq, is_some}
use include_what_you_use.Output.FileInfo.{FileInfo}
use include_what_you_use.Picker.{MappedInclude, get_candidate_headers_for_filepath}
use include_what_you_use.Preprocessor.{
  File, file_key, PreprocessorInfo, SourceApi, get_file_path, quoted_path,
}
use include_what_you_use.Preprocessor.Pragma.{file_changed_exit_to_file}
use include_what_you_use.Preprocessor.Finish.{
  is_public_file, infos_preprocessing_done, finalize_picker, finalize_protected_includes,
}
use include_what_you_use.Preprocessor.Graph.{
  add_all_includes_as_fileentries, populate_transitive_include_map,
}

-- `m[key]` with more elements.
abbrev pub add_all_to : Map File (Set File) → File → List File → Map File (Set File)
add_all_to m key source = map_set m key (insert_all_into source (get_or_default m key []))

abbrev pub add_one_to : Map File (Set File) → File → File → Map File (Set File)
add_one_to m key file = map_set m key (set_insert (get_or_default m key []) file)

module _ (api : SourceApi) where
  -- The private headers behind each public one. The path of a caller is empty, its default.
  unfoldable pub note_public_headers :
      PreprocessorInfo
      → File
      → List MappedInclude
      → Map File (Set File)
      → Option (Map File (Set File))
  note_public_headers s header [] behind = some behind
  note_public_headers s header (pub_include ∷ pubs) behind =
      let public_file = get_or_default s.include_to_fileentry_map pub_include.quoted_include none in
      do
        noted ←
            (if not (is_some public_file) then some behind else (do
              check (map_contains_key s.iwyu_file_info_map public_file)
              some (
                  if not (file_eq public_file header)
                  then add_one_to behind public_file header
                  else behind)))
        note_public_headers s header pubs noted

  unfoldable pub private_headers_behind :
      PreprocessorInfo → List File → Map File (Set File) → Option (Map File (Set File))
  private_headers_behind s [] behind = some behind
  private_headers_behind s (header ∷ headers) behind = do
    pubs ← get_candidate_headers_for_filepath api.picker_api s.picker (get_file_path api header) []
    noted ← note_public_headers s header pubs behind
    private_headers_behind s headers noted

  -- What a public header provides: the loop over the files that it reaches.
  unfoldable pub provide_reached :
      Map File (Set File) → List File → Map File (Set File) → Option (Map File (Set File))
  provide_reached transitive [] provides = some provides
  provide_reached transitive (included_file_or_self ∷ files) provides = do
    reached ← find_in_map transitive included_file_or_self
    provide_reached transitive files (add_all_to provides included_file_or_self reached)

  unfoldable pub provide_direct :
      PreprocessorInfo → File → List File → Map File (Set File) → Option (Map File (Set File))
  provide_direct s file [] provides = some provides
  provide_direct s file (inc ∷ includes) provides =
      let with_inc = add_one_to provides file inc in
      do
        is_public_inc ← is_public_file api s inc
        provided ←
            (if is_public_inc
              then (do
                more ←
                    add_all_includes_as_fileentries s.iwyu_file_info_map inc
                      (get_or_default with_inc file [])
                some (map_set with_inc file more))
              else some with_inc)
        provide_direct s file includes provided

  unfoldable pub provide_own :
      PreprocessorInfo → Map File FileInfo → Map File (Set File) → Option (Map File (Set File))
  provide_own s [] provides = some provides
  provide_own s ((none, info) ∷ infos) provides = provide_own s infos provides
  provide_own s ((some entry, info) ∷ infos) provides =
      let file = some entry in
      let with_self = add_one_to provides file file in
      do
        is_public_self ← is_public_file api s file
        provided ←
            (if is_public_self
              then (find_in_map s.transitive_include_map file >>= λ reached.
                  provide_reached s.transitive_include_map reached with_self)
              else provide_direct s file info.direct_includes_as_fileentries with_self)
        provide_own s infos provided

  -- Two files with one name: each provides what the other does.
  unfoldable pub merge_same_names :
      PreprocessorInfo → List File → Map File (Set File) → Option (Map File (Set File))
  merge_same_names s [] provides = some provides
  merge_same_names s (file ∷ files) provides = do
    quoted_include ← quoted_path api file
    let other_file = get_or_default s.include_to_fileentry_map quoted_include file
    let merged = add_all_to provides other_file (get_or_default provides file [])
    merge_same_names s files (
        if file_eq other_file file
        then provides
        else map_set merged file (get_or_default merged other_file []))

  unfoldable pub provide_as_public :
      File → List File → Map File (Set File) → Option (Map File (Set File))
  provide_as_public public_header [] provides = some provides
  provide_as_public public_header (private_header ∷ headers) provides = do
    check (map_contains_key provides private_header)
    provide_as_public public_header headers
        (add_all_to provides private_header (get_or_default provides public_header []))

  unfoldable pub provide_for_private :
      Map File (Set File) → Map File (Set File) → Option (Map File (Set File))
  provide_for_private [] provides = some provides
  provide_for_private ((public_header, headers) ∷ behind) provides = do
    provided ← provide_as_public public_header headers provides
    provide_for_private behind provided

  unfoldable pub populate_intends_to_provide_map : PreprocessorInfo → Option PreprocessorInfo
  populate_intends_to_provide_map s =
      let files = map (λ e. e.0) s.iwyu_file_info_map in
      do
        check (elim s.intends_to_provide_map [ [] ↦ true | _ ∷ _ ↦ false ])
        behind ← private_headers_behind s files []
        own ← provide_own s s.iwyu_file_info_map []
        merged ← merge_same_names s files own
        provides ← provide_for_private behind merged
        some (record s { intends_to_provide_map = provides })

  unfoldable pub handle_preprocessing_done : PreprocessorInfo → Option PreprocessorInfo
  handle_preprocessing_done s = do
    check (is_some s.main_file)
    let exited = file_changed_exit_to_file api s s.main_file
    noted ← infos_preprocessing_done api exited (map (λ e. e.1) exited.iwyu_file_info_map)
    finalized ← finalize_picker api noted
    protected ← finalize_protected_includes api finalized finalized.iwyu_file_info_map
    reached ← populate_transitive_include_map protected
    populate_intends_to_provide_map reached
