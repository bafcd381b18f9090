-- ===== src/Preprocessor/Events.antt =====
-- The callbacks of iwyu_preprocessor.cc: files that begin or are skipped, and macros.
use include_what_you_use.Base.{
  Bool, true, false, not, ◌&&◌, Option, none, some, List, [], ◌∷◌, if◌then◌else◌,
}
use include_what_you_use.Base.Checked.{◌>>=◌, ◌>>◌, check}
use include_what_you_use.Text.{Text}
use include_what_you_use.Text.Order.{text_key}
use include_what_you_use.Container.{set_insert}
use include_what_you_use.Lexer.{
  Token, TokenKind, identifier, l_paren, is_valid, get_include_name_as_written, first_kind,
}
use include_what_you_use.Output.Use.{SourceLocation}
use include_what_you_use.Output.Facts.{file_eq, is_some}
use include_what_you_use.Output.FileInfo.{report_defined_macro_use}
use include_what_you_use.Output.Report.{report_macro_use}
use include_what_you_use.Preprocessor.{
  File, file_key, PreprocessorInfo, SourceApi, get_file_path, is_special_file, should_report,
  get_from_file_info_map, change_file_info,
}
use include_what_you_use.Preprocessor.Include.{
  add_direct_include, add_report_glob, belongs_to_main_compilation_unit,
}
use include_what_you_use.Preprocessor.Pragma.{file_changed_exit_to_file}
use include_what_you_use.Preprocessor.Headername.{process_headername_directives_in_file}

-- The definition of a macro: its location, its tokens, and how it is used.
pub record MacroInfo : Type 0 where
  pub definition_loc : SourceLocation
  pub is_enabled : Bool
  pub is_function_like : Bool
  pub tokens : List Token

pub data FileChangeReason : Type 0 where
  enter_file exit_file rename_file system_header_pragma : FileChangeReason

abbrev pub is_l_paren : TokenKind → Bool
is_l_paren l_paren = true
is_l_paren _ = false

module _ (api : SourceApi) where
  unfoldable pub report_macro_use_in :
      PreprocessorInfo → Text → SourceLocation → SourceLocation → Option PreprocessorInfo
  report_macro_use_in s name usage_location dfn_location =
      let used_in = api.file_of_loc usage_location in
      if is_special_file api (api.file_of_loc dfn_location) then some s else (do
        reported ←
            (if should_report api s used_in
              then change_file_info api s used_in (λ info.
                report_macro_use (get_file_path api) api.file_of_loc info usage_location
                  dfn_location name)
              else some s)
        change_file_info api reported (api.file_of_loc dfn_location)
            λ info. some (report_defined_macro_use info used_in))

  -- MacroExpands.
  unfoldable pub macro_expands : PreprocessorInfo → Token → SourceLocation → Option PreprocessorInfo
  macro_expands s macro_use_token dfn_location =
      report_macro_use_in s macro_use_token.name macro_use_token.location dfn_location

  -- Ifdef, Ifndef and Defined: the location is invalid where there is no definition.
  unfoldable pub macro_tested :
      PreprocessorInfo → Token → Option MacroInfo → Option PreprocessorInfo
  macro_tested s id definition =
      report_macro_use_in s id.name id.location
        (elim definition [ none ↦ 0 | some found ↦ found.definition_loc ])

  -- The loop of MacroDefined over the tokens of the body; `macro_of` is `getMacroInfo` of a name. The call of
  -- GetNextMacroTokenKind is given the macro of the name, with a place in the body of the other one, and so
  -- does not stop at the end of this body: `behind` is the kind of what is read there.
  unfoldable pub report_body_macros :
      (Text → Option MacroInfo)
      → TokenKind
      → PreprocessorInfo
      → List Token
      → Option PreprocessorInfo
  report_body_macros macro_of behind s [] = some s
  report_body_macros macro_of behind s (token ∷ tokens) = do
    s₁ ← elim token.kind [
      | identifier ↦ if token.is_expand_disabled then some s else elim (macro_of token.name) [
        | none ↦ some s
        | some found ↦
            if not found.is_enabled
            then some s
            else if found.is_function_like && not (is_l_paren (first_kind behind tokens))
            then some s
            else report_macro_use_in s token.name token.location found.definition_loc
      ]
      | _ ↦ some s
    ]
    report_body_macros macro_of behind s₁ tokens

  unfoldable pub macro_defined :
      (Text → Option MacroInfo)
      → TokenKind
      → PreprocessorInfo
      → Token
      → MacroInfo
      → Option PreprocessorInfo
  macro_defined macro_of behind s id defined_macro =
      if not (should_report api s (api.file_of_loc id.location))
      then some s
      else report_body_macros macro_of behind s defined_macro.tokens

  unfoldable pub inclusion_directive : PreprocessorInfo → SourceLocation → PreprocessorInfo
  inclusion_directive s filename_loc = record s { include_filename_loc = filename_loc }

  unfoldable pub note_file_to_report : PreprocessorInfo → File → PreprocessorInfo
  note_file_to_report s file =
      if should_report api s file
      then record s {
        files_to_report_iwyu_violations_for = set_insert s.files_to_report_iwyu_violations_for file;
      }
      else s

  unfoldable pub file_skipped : PreprocessorInfo → File → SourceLocation → Option PreprocessorInfo
  file_skipped s file filename_loc = do
    check (is_valid s.include_filename_loc)
    include_name_as_written ← get_include_name_as_written api.char_data s.include_filename_loc
    s₁ ← add_direct_include api s (api.instantiation_loc filename_loc) file include_name_as_written
    some (note_file_to_report s₁ file)

  -- The name of the include that enters a file, empty for one that is built in.
  unfoldable pub entered_name : PreprocessorInfo → SourceLocation → Option Text
  entered_name s include_loc =
      if is_special_file api (api.file_of_loc include_loc) then some [] else (do
        check (is_valid s.include_filename_loc)
        get_include_name_as_written api.char_data s.include_filename_loc)

  -- The prefix headers: what another one includes, and what only the command line includes.
  unfoldable pub mark_prefix_header : PreprocessorInfo → File → File → Option PreprocessorInfo
  mark_prefix_header s includer_file new_file = do
    (_, s₁) ← get_from_file_info_map api s new_file
    (is_prefix_header, s₂) ←
        (if is_some includer_file
          then (get_from_file_info_map api s₁ includer_file >>= λ r.
              some (r.0.is_prefix_header, r.1))
          else some (not (file_eq new_file s₁.main_file), s₁))
    if is_prefix_header
        then change_file_info api s₂ new_file
            (λ info. some (record info { is_prefix_header = true }))
        else some s₂

  -- The part of FileChanged_EnterFile that a special file does not reach.
  unfoldable pub enter_plain_file :
      PreprocessorInfo → File → File → Text → SourceLocation → Option PreprocessorInfo
  enter_plain_file s includer_file new_file include_name_as_written file_beginning = do
    s₁ ← process_headername_directives_in_file api s include_name_as_written file_beginning
    let s₂ = if is_some s₁.main_file then s₁ else record s₁ { main_file = new_file }
    belongs ←
        (if is_some s₂.main_file
          then belongs_to_main_compilation_unit api s₂ includer_file new_file
          else some false)
    let s₃ = note_file_to_report (if belongs then add_report_glob api s₂ new_file else s₂) new_file
    check (is_some new_file)
    mark_prefix_header s₃ includer_file new_file

  unfoldable pub file_changed_enter_file :
      PreprocessorInfo → SourceLocation → Option PreprocessorInfo
  file_changed_enter_file s file_beginning =
      let include_loc = api.include_loc_of file_beginning in
      let new_file = api.file_of_loc file_beginning in
      do
        include_name_as_written ← entered_name s include_loc
        s₁ ←
            (if is_some new_file
              then add_direct_include api s include_loc new_file include_name_as_written
              else some s)
        if is_special_file api new_file
            then some s₁
            else enter_plain_file s₁ (api.file_of_loc include_loc) new_file include_name_as_written
                file_beginning

  -- FileChanged. The other reasons, a renamed file and a system header pragma, only print.
  unfoldable pub file_changed :
      PreprocessorInfo → SourceLocation → FileChangeReason → File → Option PreprocessorInfo
  file_changed s loc enter_file exiting_from = file_changed_enter_file s loc
  file_changed s loc exit_file exiting_from = some (file_changed_exit_to_file api s exiting_from)
  file_changed s loc rename_file exiting_from = some s
  file_changed s loc system_header_pragma exiting_from = some s
