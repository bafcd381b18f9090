-- ===== src/Lexer.antt =====
-- iwyu_lexer_utils.cc: the text of the source from a location on. A location is a number, 0 the invalid
-- one, and the locations of a file follow one another as its bytes do (`getLocWithOffset`). A parameter
-- `char_data` stands for `GetCharacterData`: the text from the location to the end of the buffer.
pub mod Lines
mod Tests
use include_what_you_use.Base.{
  ℕ, zero, suc, ◌+◌, Bool, true, false, not, ◌||◌, Option, none, some, List, [], ◌∷◌, ◌++◌, ◌==◌,
  if◌then◌else◌, length, take, drop,
}
use include_what_you_use.Base.Checked.{◌>>=◌, ◌>>◌, check}
use include_what_you_use.Text.{Text, find}
use include_what_you_use.Output.Use.{SourceLocation}

abbrev pub is_valid : SourceLocation → Bool
is_valid loc = not (loc == 0)

-- The kinds of tokens that the program tells apart.
pub data TokenKind : Type 0 where
  unknown comment identifier l_paren other_kind : TokenKind

pub record Token : Type 0 where
  pub kind : TokenKind
  pub name : Text
  pub location : SourceLocation
  pub length_of_text : ℕ
  pub is_expand_disabled : Bool

-- The text up to the first `\r` or `\n`.
unfoldable pub until_end_of_line : Text → Text
until_end_of_line [] = []
until_end_of_line (c ∷ data_text) =
    let rest = until_end_of_line data_text in if c == 13 || c == 10 then [] else c ∷ rest

-- `GetIncludeNameAsWritten` on the line: the end character is looked for behind the first one.
unfoldable pub include_name_in : Text → Option Text
unfolding find
include_name_in [] = some []
include_name_in (c ∷ line) = do
  check (c == b'<' || c == b'"')
  endpos ← find line ((if c == b'<' then b'>' else b'"') ∷ [])
  some (c ∷ take (endpos + 1) line)

module _ (char_data : SourceLocation → Option Text) where
  unfoldable pub get_source_text_until_end_of_line : SourceLocation → Option Text
  unfolding until_end_of_line
  get_source_text_until_end_of_line start_loc = do
    data_text ← char_data start_loc
    some (until_end_of_line data_text)

  unfoldable pub line_has_text : SourceLocation → Text → Option Bool
  unfolding get_source_text_until_end_of_line find
  line_has_text source_location pattern_text = do
    line ← get_source_text_until_end_of_line source_location
    some (elim (find line pattern_text) [ none ↦ false | some _ ↦ true ])

  unfoldable pub get_location_after : SourceLocation → Text → Option SourceLocation
  unfolding find
  get_location_after start_loc needle = do
    check (is_valid start_loc)
    data_text ← char_data start_loc
    some (elim (find data_text needle) [
      | none ↦ 0
      | some needle_pos ↦ start_loc + needle_pos + length needle
    ])

  unfoldable pub get_include_name_as_written : SourceLocation → Option Text
  unfolding get_source_text_until_end_of_line include_name_in
  get_include_name_as_written include_loc = do
    line ← get_source_text_until_end_of_line include_loc
    include_name_in line

  unfoldable pub get_token_text : Token → Option Text
  get_token_text token = do
    data_text ← char_data token.location
    some (take token.length_of_text data_text)

-- The kind of the first token that is no comment, or of what is behind the tokens.
unfoldable pub first_kind : TokenKind → List Token → TokenKind
first_kind behind [] = behind
first_kind behind (token ∷ tokens) =
    let rest = first_kind behind tokens in elim token.kind [ comment ↦ rest | kind ↦ kind ]

-- `GetNextMacroTokenKind`, on the tokens of the macro from the current one on.
unfoldable pub get_next_macro_token_kind : List Token → TokenKind
unfolding first_kind
get_next_macro_token_kind [] = unknown
get_next_macro_token_kind (current ∷ tokens) = first_kind unknown tokens
