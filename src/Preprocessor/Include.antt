-- ===== src/Preprocessor/Include.antt =====
-- AddDirectInclude and MaybeProtectInclude of iwyu_preprocessor.cc: what an `#include` line changes.
pub mod Kept
use include_what_you_use.Base.{
  ◌+◌, Bool, true, false, not, ◌&&◌, ◌||◌, Option, some, [], ◌++◌, ◌==◌, if◌then◌else◌, is_empty,
}
use include_what_you_use.Base.Checked.{◌>>=◌, ◌>>◌, check}
use include_what_you_use.Text.{Text, text, text_eq}
use include_what_you_use.Text.Order.{text_key}
use include_what_you_use.Container.{
  map_set, get_or_default, set_insert, map_contains_key, contains_key_value,
}
use include_what_you_use.PathUtil.{get_canonical_name, basename}
use include_what_you_use.Lexer.{is_valid, line_has_text}
use include_what_you_use.Output.Use.{SourceLocation}
use include_what_you_use.Output.Facts.{file_eq, is_some}
use include_what_you_use.Output.FileInfo.{add_include, report_known_desired_file}
use include_what_you_use.Output.Report.{report_include_file_use}
use include_what_you_use.Picker.Direct
use include_what_you_use.Picker.{mapped_include, add_mapping}
use include_what_you_use.Globals.{add_glob_to_report_iwyu_violations_for}
use include_what_you_use.Preprocessor.{
  File, file_key, PreprocessorInfo, SourceApi, get_file_path, quoted_path, is_special_file_or_stdin,
  is_header_file, should_report, should_keep, insert_into_file_info_map, get_from_file_info_map,
  change_file_info, file_info_for,
}
use include_what_you_use.Preprocessor.Pragma.{has_open_begin_exports, has_open_begin_keep}

module _ (api : SourceApi) where
  unfoldable pub belongs_to_main_compilation_unit : PreprocessorInfo → File → File → Option Bool
  unfolding get_file_path get_canonical_name contains_key_value
  belongs_to_main_compilation_unit s includer includee =
      if not (is_some includee)
      then some false
      else if api.is_system_header includee
      then some false
      else (do
        includee_name ← get_canonical_name api.sys (get_file_path api includee)
        main_name ← get_canonical_name api.sys (get_file_path api s.main_file)
        if text_eq includee_name main_name
            then some true
            else if file_eq includer s.main_file
                && contains_key_value ◌==◌ s.num_includes_seen includer
                    (if s.flags.pch_in_code then 2 else 1)
            then (do
              includee_base ← get_canonical_name api.sys (basename (get_file_path api includee))
              main_base ← get_canonical_name api.sys (basename (get_file_path api s.main_file))
              some (text_eq includee_base main_base))
            else some false)

  abbrev pub add_report_glob : PreprocessorInfo → File → PreprocessorInfo
  unfolding add_glob_to_report_iwyu_violations_for get_file_path
  add_report_glob s file = record s {
    flags = add_glob_to_report_iwyu_violations_for api.sys s.flags (get_file_path api file);
  }

  -- `GetFromFileInfoMap(includer)->AddAssociatedHeader(GetFromFileInfoMap(includee))`, and the glob.
  unfoldable pub associate : PreprocessorInfo → File → File → Option PreprocessorInfo
  unfolding get_or_default set_insert
  associate s includer includee = do
    (_, s₁) ← get_from_file_info_map api s includee
    (_, s₂) ← get_from_file_info_map api s₁ includer
    some (
        add_report_glob
          (record s₂ {
            associated_headers =
                map_set s₂.associated_headers includer
                  (set_insert (get_or_default s₂.associated_headers includer []) includee);
          })
          includee)

  -- The line of the location has the pragma `word`, in a comment of either form.
  unfoldable pub line_has_pragma : SourceLocation → Text → Option Bool
  unfolding line_has_text
  line_has_pragma loc word = do
    line_comment ← line_has_text api.char_data loc (text "// IWYU pragma: " ++ word)
    block_comment ← line_has_text api.char_data loc (text "/* IWYU pragma: " ++ word)
    some (line_comment || block_comment)

  -- `FileInfoFor(includer)->ReportKnownDesiredFile(includee)`.
  unfoldable pub keep_include : PreprocessorInfo → File → File → Option PreprocessorInfo
  unfolding report_known_desired_file
  keep_include s includer includee = do
    info ← file_info_for api s includer
    some (record s {
      iwyu_file_info_map =
          map_set s.iwyu_file_info_map includer (report_known_desired_file info includee);
    })

  -- The mappings of an exported include, by its name as written and by its quoted path.
  unfoldable pub export_include : PreprocessorInfo → File → File → Text → Option PreprocessorInfo
  export_include s includer includee include_name_as_written = do
    quoted_includer ← quoted_path api includer
    map_to ← mapped_include quoted_includer (get_file_path api includer)
    written ← add_mapping s.picker include_name_as_written map_to
    map_from ← quoted_path api includee
    mapped ←
        (if text_eq map_from include_name_as_written
          then some written
          else add_mapping written map_from map_to)
    some (record s { picker = mapped })

  unfoldable pub protect_include :
      PreprocessorInfo → SourceLocation → File → File → Text → Option PreprocessorInfo
  protect_include s includer_loc includer includee include_name_as_written = do
    check (map_contains_key s.iwyu_file_info_map includer)
    change_file_info api s includer λ info.
        report_include_file_use (get_file_path api) info includee include_name_as_written
          includer_loc

  unfoldable pub maybe_protect_include :
      PreprocessorInfo → SourceLocation → File → Text → Option PreprocessorInfo
  maybe_protect_include s includer_loc includee include_name_as_written =
      let includer = api.file_of_loc includer_loc in
      let protect = λ (t : PreprocessorInfo).
        protect_include t includer_loc includer includee include_name_as_written in
      if is_special_file_or_stdin api includer then some s else (do
        keep_line ← line_has_pragma includer_loc (text "keep")
        export_line ← line_has_pragma includer_loc (text "export")
        if keep_line || has_open_begin_keep api s includer
            then keep_include s includer includee >>= protect
            else if should_keep api s includee
            then keep_include s includer includee >>= protect
            else if export_line || has_open_begin_exports api s includer
            then export_include s includer includee include_name_as_written >>= protect
            else (do
              is_header ← is_header_file api includee
              if not is_header then protect s else (do
                info ← file_info_for api s includee
                if info.is_pch_in_code then protect s else some s)))

  -- The first include of the main file is a precompiled header, if the user says so.
  unfoldable pub mark_pch : PreprocessorInfo → File → File → Option PreprocessorInfo
  mark_pch s includer includee =
      if is_some s.main_file
        && file_eq includer s.main_file
        && (get_or_default s.num_includes_seen includer 0 == 1)
      then (check (is_some includee)
          >> (if s.flags.pch_in_code
              then change_file_info api s includee
                  (λ info. some (record info { is_pch_in_code = true; is_prefix_header = true }))
              else some s))
      else some s

  unfoldable pub associate_by_name : PreprocessorInfo → File → File → Option PreprocessorInfo
  associate_by_name s includer includee =
      if file_eq includer s.main_file && not (file_eq includee includer)
      then (do
        belongs ← belongs_to_main_compilation_unit s includer includee
        if belongs then associate s includer includee else some s)
      else some s

  unfoldable pub associate_by_pragma : PreprocessorInfo → File → File → Option PreprocessorInfo
  associate_by_pragma s includer includee =
      if is_valid s.associated_pragma_location
        && file_eq (api.file_of_loc s.associated_pragma_location) includer
      then (do
        associated ← associate s includer includee
        some (record associated { associated_pragma_location = 0 }))
      else some s

  -- The first file that a name stands for.
  unfoldable pub note_file_of_name : PreprocessorInfo → File → Text → PreprocessorInfo
  note_file_of_name s includee include_name_as_written =
      if not (is_empty include_name_as_written)
        && not (map_contains_key s.include_to_fileentry_map include_name_as_written)
      then record s {
        include_to_fileentry_map =
            map_set s.include_to_fileentry_map include_name_as_written includee;
      }
      else s

  unfoldable pub add_direct_include :
      PreprocessorInfo → SourceLocation → File → Text → Option PreprocessorInfo
  add_direct_include s includer_loc includee include_name_as_written =
      let includer = api.file_of_loc includer_loc in
      if is_special_file_or_stdin api includee then some s else (do
        check (not (should_report api s includer) || is_some includee)
        check (not (should_report api s includer) || not (is_empty include_name_as_written))
        let counted = record s {
          num_includes_seen =
              map_set s.num_includes_seen includer
                (get_or_default s.num_includes_seen includer 0 + 1);
        }
        s₁ ← change_file_info api counted includer λ info.
            some (add_include info includee include_name_as_written (api.line_number includer_loc))
        let s₂ = insert_into_file_info_map api s₁ includee include_name_as_written
        s₃ ← mark_pch s₂ includer includee
        s₄ ← associate_by_name s₃ includer includee
        s₅ ← associate_by_pragma s₄ includer includee
        let s₆ = note_file_of_name s₅ includee include_name_as_written
        added ←
            Direct.add_direct_include api.picker_api s₆.picker (get_file_path api includer)
              (get_file_path api includee) include_name_as_written
        maybe_protect_include (record s₆ { picker = added }) includer_loc includee
            include_name_as_written)
