-- ===== src/Preprocessor/Finish.antt =====
-- What iwyu_preprocessor.cc does when the preprocessor is through, file by file: HandlePreprocessingDone of
-- IwyuFileInfo, and FinalizeProtectedIncludes.
use include_what_you_use.Base.{Bool, ◌||◌, Option, some, List, [], ◌∷◌, keep_if, if◌then◌else◌}
use include_what_you_use.Base.Checked.{◌>>=◌, ◌>>◌, check}
use include_what_you_use.Text.Order.{text_key}
use include_what_you_use.Container.{Map, contains}
use include_what_you_use.Output.Facts.{file_eq, is_some}
use include_what_you_use.Output.FileInfo.{FileInfo, report_known_desired_file}
use include_what_you_use.Output.Desired.{contains_file}
use include_what_you_use.Output.Report.{report_include_file_use}
use include_what_you_use.Picker.{mapped_include, add_mapping, mark_include_as_private}
use include_what_you_use.Picker.Queries.{has_mapping, is_public_path}
use include_what_you_use.Picker.Transitive.{finalize_added_includes}
use include_what_you_use.Preprocessor.{
  File, file_key, PreprocessorInfo, SourceApi, get_file_path, quoted_path, should_report,
  change_file_info,
}

module _ (api : SourceApi) where
  -- IsPublic of the picker.
  unfoldable pub is_public_file : PreprocessorInfo → File → Option Bool
  is_public_file s file = do
    check (is_some file)
    is_public_path api.picker_api s.picker (get_file_path api file)

  -- `HandlePreprocessingDone` of one IwyuFileInfo, for each file that uses its macros and that it includes.
  unfoldable pub map_macro_users : PreprocessorInfo → FileInfo → List File → Option PreprocessorInfo
  map_macro_users s info [] = some s
  map_macro_users s info (user ∷ users) = do
    s₁ ←
        (if should_report api s info.file
          then change_file_info api s info.file (λ own. some (report_known_desired_file own user))
          else (do
            private_include ← quoted_path api user
            is_public ← is_public_file s user
            if is_public || file_eq info.file user then some s else (do
              map_to ← mapped_include info.quoted_file (get_file_path api info.file)
              mapped ← add_mapping s.picker private_include map_to
              marked ← mark_include_as_private mapped private_include
              some (record s { picker = marked }))))
    map_macro_users s₁ info users

  unfoldable pub info_preprocessing_done : PreprocessorInfo → FileInfo → Option PreprocessorInfo
  info_preprocessing_done s info =
      if info.is_prefix_header
      then some s
      else map_macro_users s info (
          keep_if (λ user. contains_file info.direct_includes_as_fileentries user) info.macro_users)

  unfoldable pub infos_preprocessing_done :
      PreprocessorInfo → List FileInfo → Option PreprocessorInfo
  infos_preprocessing_done s [] = some s
  infos_preprocessing_done s (info ∷ infos) = do
    s₁ ← info_preprocessing_done s info
    infos_preprocessing_done s₁ infos

  -- The inner loop of FinalizeProtectedIncludes.
  unfoldable pub finalize_protected : PreprocessorInfo → File → List File → Option PreprocessorInfo
  finalize_protected s includer [] = some s
  finalize_protected s includer (include ∷ includes) = do
    mapped ←
        has_mapping api.picker_api s.picker (get_file_path api include) (get_file_path api includer)
    s₁ ←
        (if mapped || contains s.always_keep_files include
          then (do
            quoted_include ← quoted_path api include
            change_file_info api s includer λ info.
                report_include_file_use (get_file_path api)
                  (if mapped then info else report_known_desired_file info include) include
                  quoted_include (api.file_start_loc includer))
          else some s)
    finalize_protected s₁ includer includes

  unfoldable pub finalize_protected_includes :
      PreprocessorInfo → Map File FileInfo → Option PreprocessorInfo
  finalize_protected_includes s [] = some s
  finalize_protected_includes s ((includer, info) ∷ infos) = do
    s₁ ← finalize_protected s includer info.direct_includes_as_fileentries
    finalize_protected_includes s₁ infos

  unfoldable pub finalize_picker : PreprocessorInfo → Option PreprocessorInfo
  finalize_picker s = do
    finalized ← finalize_added_includes api.picker_api s.picker
    some (record s { picker = finalized })
