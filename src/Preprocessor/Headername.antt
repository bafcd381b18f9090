-- ===== src/Preprocessor/Headername.antt =====
-- ProcessHeadernameDirectivesInFile of iwyu_preprocessor.cc.
use include_what_you_use.Base.{
  ℕ, zero, suc, Bool, not, ◌&&◌, ◌||◌, Option, none, some, List, [], ◌∷◌, length, if◌then◌else◌,
  is_empty, take,
}
use include_what_you_use.Base.Checked.{◌>>=◌, ◌>>◌, check}
use include_what_you_use.Text.{Text, text, text_eq, find, split, strip_white_space}
use include_what_you_use.Text.Order.{text_key}
use include_what_you_use.PathUtil.{is_quoted_include, add_quotes}
use include_what_you_use.Lexer.{is_valid, get_location_after, get_source_text_until_end_of_line}
use include_what_you_use.Output.Use.{SourceLocation}
use include_what_you_use.Output.Facts.{is_some}
use include_what_you_use.Picker.{mapped_include, add_mapping, mark_include_as_private}
use include_what_you_use.Preprocessor.{file_key, PreprocessorInfo, SourceApi, warn}

module _ (api : SourceApi) where
  -- One public name of a `@headername` directive.
  unfoldable pub map_headername : PreprocessorInfo → Text → Bool → Text → Option PreprocessorInfo
  map_headername s quoted_private_include is_angled public_text =
      let stripped = strip_white_space public_text in
      let public_include =
        if text_eq quoted_private_include (text "<bits/cpp_type_traits.h>")
          && text_eq stripped (text "ext/type_traits")
        then text "ext/type_traits.h"
        else stripped in
      do
        map_to ← mapped_include (add_quotes public_include is_angled) []
        mapped ← add_mapping s.picker quoted_private_include map_to
        marked ← mark_include_as_private mapped quoted_private_include
        some (record s { picker = marked })

  unfoldable pub map_headernames :
      PreprocessorInfo → Text → Bool → List Text → Option PreprocessorInfo
  map_headernames s quoted_private_include is_angled [] = some s
  map_headernames s quoted_private_include is_angled (public_text ∷ public_texts) = do
    s₁ ← map_headername s quoted_private_include is_angled public_text
    map_headernames s₁ quoted_private_include is_angled public_texts

  -- The loop over the `@file` directives, with fuel for its rounds: a directive without a closing brace goes on
  -- to the next one.
  unfoldable pub headername_loop :
      ℕ → PreprocessorInfo → Text → Bool → SourceLocation → Option PreprocessorInfo
  headername_loop zero s quoted_private_include is_angled loc = none
  headername_loop (suc fuel) s quoted_private_include is_angled loc =
      let next = λ (t : PreprocessorInfo) (l : SourceLocation).
        headername_loop fuel t quoted_private_include is_angled l in
      do
        after_file ← get_location_after api.char_data loc (text "@file")
        if not (is_valid after_file) then some s else (do
          after_name ← get_location_after api.char_data after_file (text "@headername{")
          if not (is_valid after_name) then some s else (do
            after_text ← get_source_text_until_end_of_line api.char_data after_name
            elim (find after_text (text "}")) [
              | none ↦
                  next (warn s after_name (text "@headername directive missing a closing brace"))
                    after_name
              | some close_brace_pos ↦ (do
                public_includes ← split (take close_brace_pos after_text) (text ",") 0
                map_headernames s quoted_private_include is_angled public_includes)
            ]))

  -- ProcessHeadernameDirectivesInFile. Each round goes forward in the text of the file.
  unfoldable pub process_headername_directives_in_file :
      PreprocessorInfo → Text → SourceLocation → Option PreprocessorInfo
  process_headername_directives_in_file s quoted_private_include file_beginning =
      let file = api.file_of_loc file_beginning in
      if is_empty quoted_private_include || not (is_some file) then some s else (do
        check (is_quoted_include quoted_private_include)
        contents ← api.char_data file_beginning
        headername_loop (suc (length contents)) s quoted_private_include (api.is_system_header file)
            file_beginning)
