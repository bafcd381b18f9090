-- ===== src/Preprocessor/Pragma.antt =====
-- HandlePragmaComment of iwyu_preprocessor.cc, and the end of a file, where an open region is closed.
pub mod Same
pub mod Regions
pub mod Exit
pub mod Quiet
use include_what_you_use.Base.{
  ℕ, ◌-◌, get_elem?, Bool, true, false, not, ◌&&◌, ◌||◌, Option, none, some, List, [], ◌∷◌, ◌++◌,
  leb, if◌then◌else◌, length, take,
}
use include_what_you_use.Base.Checked.{◌>>=◌, ◌>>◌, check}
use include_what_you_use.Text.{
  Text, text, text_eq, strip_left, split_on_white_space_preserving_quotes,
}
use include_what_you_use.Text.Order.{text_key}
use include_what_you_use.Container.{Map, Set, map_set, get_or_default, set_insert}
use include_what_you_use.PathUtil.{is_quoted_include}
use include_what_you_use.Output.Use.{SourceLocation}
use include_what_you_use.Output.Facts.{file_eq}
use include_what_you_use.Lexer.{is_valid}
use include_what_you_use.Picker.{
  mapped_include, add_mapping, mark_include_as_private, mark_path_as_private, add_friend_regex,
}
use include_what_you_use.Preprocessor.{
  File, file_key, SourceRange, PreprocessorInfo, SourceApi, warn, get_file_path, quoted_path,
  normalize_namespaces,
}

-- `tokens[n]`, where the number of tokens has been tested.
abbrev pub token_at : List Text → ℕ → Text
token_at tokens n = elim (get_elem? tokens n) [ some token ↦ token | none ↦ [] ]

-- The warning on further tokens is only printed at a high verbosity level.
unfoldable pub match_one_token : List Text → Text → ℕ → Bool
unfolding text_eq
match_one_token tokens token num_expected_tokens =
    leb num_expected_tokens (length tokens) && text_eq (token_at tokens 0) token

unfoldable pub match_two_tokens : List Text → Text → Text → ℕ → Bool
unfolding text_eq
match_two_tokens tokens token1 token2 num_expected_tokens =
    leb num_expected_tokens (length tokens)
    && text_eq (token_at tokens 0) token1
    && text_eq (token_at tokens 1) token2

abbrev pub insert_text : Map File (Set Text) → File → Text → Map File (Set Text)
insert_text m file name = map_set m file (set_insert (get_or_default m file []) name)

-- The text of the pragma, where the comment is one.
unfoldable pub strip_pragma : Text → Option Text
unfolding strip_left
strip_pragma comment_text =
    let line_comment = strip_left comment_text (text "// IWYU pragma: ") in
    let block_comment = strip_left comment_text (text "/* IWYU pragma: ") in
    if line_comment.0
    then some line_comment.1
    else if block_comment.0
    then some block_comment.1
    else none

module _ (api : SourceApi) where
  abbrev pub top_is : List SourceLocation → File → Bool
  top_is [] file = false
  top_is (loc ∷ _) file = file_eq (api.file_of_loc loc) file

  unfoldable pub has_open_begin_exports : PreprocessorInfo → File → Bool
  has_open_begin_exports s file = top_is s.begin_exports_location_stack file

  unfoldable pub has_open_begin_keep : PreprocessorInfo → File → Bool
  has_open_begin_keep s file = top_is s.begin_keep_location_stack file

  -- `top()` and `pop()`, with the range from there to `begin_loc`.
  unfoldable pub close_exports : PreprocessorInfo → File → SourceLocation → PreprocessorInfo
  close_exports s this_file begin_loc = elim s.begin_exports_location_stack [
    | [] ↦ s
    | export_loc_begin ∷ stack ↦ record s {
      begin_exports_location_stack = stack;
      export_location_ranges =
          s.export_location_ranges ++ (this_file, (export_loc_begin, begin_loc)) ∷ [];
    }
  ]

  unfoldable pub close_keep : PreprocessorInfo → File → SourceLocation → PreprocessorInfo
  close_keep s this_file begin_loc = elim s.begin_keep_location_stack [
    | [] ↦ s
    | keep_loc_begin ∷ stack ↦ record s {
      begin_keep_location_stack = stack;
      keep_location_ranges =
          s.keep_location_ranges ++ (this_file, (keep_loc_begin, begin_loc)) ∷ [];
    }
  ]

  -- `private, include "suggested"`.
  unfoldable pub private_include :
      PreprocessorInfo → SourceLocation → Text → Option PreprocessorInfo
  private_include s begin_loc suggested =
      if not (is_quoted_include suggested)
      then some (warn s begin_loc (text "Suggested include must be a quoted header"))
      else (do
        quoted_this_file ← quoted_path api (api.file_of_loc begin_loc)
        map_to ← mapped_include suggested []
        mapped ← add_mapping s.picker quoted_this_file map_to
        marked ← mark_include_as_private mapped quoted_this_file
        some (record s { picker = marked }))

  unfoldable pub private_path : PreprocessorInfo → SourceLocation → Option PreprocessorInfo
  private_path s begin_loc = do
    marked ← mark_path_as_private s.picker (get_file_path api (api.file_of_loc begin_loc))
    some (record s { picker = marked })

  unfoldable pub no_include : PreprocessorInfo → File → SourceLocation → Text → PreprocessorInfo
  no_include s this_file begin_loc inhibited =
      if not (is_quoted_include inhibited)
      then warn s begin_loc (text "Inhibited include must be a quoted header")
      else record s { no_include_map = insert_text s.no_include_map this_file inhibited }

  unfoldable pub no_forward_declare : PreprocessorInfo → File → Text → Option PreprocessorInfo
  no_forward_declare s this_file symbol = do
    normalized_symbol ← normalize_namespaces symbol
    some (record s {
      no_forward_declare_map = insert_text s.no_forward_declare_map this_file normalized_symbol;
    })

  unfoldable pub friend : PreprocessorInfo → SourceLocation → Text → PreprocessorInfo
  friend s begin_loc regex =
      let quoted_regex =
        if is_quoted_include regex then regex else text "\"(" ++ (regex ++ text ")\"") in
      record s {
        picker =
            add_friend_regex s.picker (get_file_path api (api.file_of_loc begin_loc)) quoted_regex;
      }

  -- The pragmas outside the regions, from `private, include` on.
  unfoldable pub handle_file_pragma :
      PreprocessorInfo → File → SourceLocation → Text → List Text → Option PreprocessorInfo
  handle_file_pragma s this_file begin_loc pragma_text tokens =
      if match_two_tokens tokens (text "private,") (text "include") 3
      then private_include s begin_loc (token_at tokens 2)
      else if match_one_token tokens (text "private") 1
      then private_path s begin_loc
      else if match_one_token tokens (text "no_include") 2
      then some (no_include s this_file begin_loc (token_at tokens 1))
      else if match_one_token tokens (text "no_forward_declare") 2
      then no_forward_declare s this_file (token_at tokens 1)
      else if match_one_token tokens (text "friend") 2
      then some (friend s begin_loc (token_at tokens 1))
      else if match_one_token tokens (text "associated") 1
      then some (
          if is_valid s.associated_pragma_location
          then s
          else record s { associated_pragma_location = begin_loc })
      else if match_one_token tokens (text "always_keep") 1
      then some (record s { always_keep_files = set_insert s.always_keep_files this_file })
      else if not (match_one_token tokens (text "keep") 1)
          && not (match_one_token tokens (text "export") 1)
      then some
          (warn s begin_loc (text "Unknown or malformed pragma (" ++ (pragma_text ++ text ")")))
      else some s

  -- HandlePragmaComment on the tokens of a pragma.
  unfoldable pub handle_pragma :
      PreprocessorInfo → File → SourceLocation → Text → List Text → Option PreprocessorInfo
  handle_pragma s this_file begin_loc pragma_text tokens =
      if has_open_begin_exports s this_file
      then some (
          if match_one_token tokens (text "end_exports") 1
          then close_exports s this_file begin_loc
          else warn s begin_loc (text "Expected end_exports pragma"))
      else if has_open_begin_keep s this_file
      then some (
          if match_one_token tokens (text "end_keep") 1
          then close_keep s this_file begin_loc
          else warn s begin_loc (text "Expected end_keep pragma"))
      else if match_one_token tokens (text "begin_exports") 1
      then some
          (record s { begin_exports_location_stack = begin_loc ∷ s.begin_exports_location_stack })
      else if match_one_token tokens (text "end_exports") 1
      then some (warn s begin_loc (text "end_exports without a begin_exports"))
      else if match_one_token tokens (text "begin_keep") 1
      then some (record s { begin_keep_location_stack = begin_loc ∷ s.begin_keep_location_stack })
      else if match_one_token tokens (text "end_keep") 1
      then some (warn s begin_loc (text "end_keep without a begin_keep"))
      else handle_file_pragma s this_file begin_loc pragma_text tokens

  unfoldable pub handle_pragma_comment : PreprocessorInfo → SourceRange → Option PreprocessorInfo
  handle_pragma_comment s (begin_loc, end_loc) = do
    begin_text ← api.char_data begin_loc
    _ ← api.char_data end_loc
    elim (strip_pragma (take (end_loc - begin_loc) begin_text)) [
      | none ↦ some s
      | some pragma_text ↦
          handle_pragma s (api.file_of_loc begin_loc) begin_loc pragma_text
            (split_on_white_space_preserving_quotes pragma_text 0)
    ]

  -- FileChanged_ExitToFile: an open region of the file that ends is dropped.
  unfoldable pub drop_exports : PreprocessorInfo → File → PreprocessorInfo
  unfolding has_open_begin_exports
  drop_exports s exiting_from =
      if has_open_begin_exports s exiting_from
      then elim s.begin_exports_location_stack [
        | [] ↦ s
        | top ∷ stack ↦ record (warn s top (text "begin_exports without an end_exports")) {
          begin_exports_location_stack = stack;
        }
      ]
      else s

  unfoldable pub drop_keep : PreprocessorInfo → File → PreprocessorInfo
  unfolding has_open_begin_keep
  drop_keep s exiting_from =
      if has_open_begin_keep s exiting_from
      then elim s.begin_keep_location_stack [
        | [] ↦ s
        | top ∷ stack ↦ record (warn s top (text "begin_keep without an end_keep")) {
          begin_keep_location_stack = stack;
        }
      ]
      else s

  unfoldable pub file_changed_exit_to_file : PreprocessorInfo → File → PreprocessorInfo
  file_changed_exit_to_file s exiting_from = drop_keep (drop_exports s exiting_from) exiting_from
