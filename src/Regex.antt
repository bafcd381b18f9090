-- ===== src/Regex.antt =====
-- iwyu_regex.cc. The engines, llvm::Regex and std::regex, are a parameter.
pub mod Anchors
mod Tests
use include_what_you_use.Base.{Bool, true, false, Option, none, some, ◌++◌, [], if◌then◌else◌}
use include_what_you_use.Text.{Text, text, text_eq, starts_with, ends_with}

pub data RegexDialect : Type 0 where
  llvm ecmascript : RegexDialect

-- `search` and `sub` of llvm::Regex; `regex_match` and `regex_replace`, for the first match, of std.
pub record RegexEngines : Type 0 where
  pub llvm_match : Text → Text → Bool
  pub llvm_sub : Text → Text → Text → Text
  pub std_match : Text → Text → Bool
  pub std_replace : Text → Text → Text → Text

unfoldable pub anchored : Text → Text
unfolding starts_with ends_with
anchored pattern_text =
    (if starts_with pattern_text (text "^") then [] else text "^")
    ++ (pattern_text ++ (if ends_with pattern_text (text "$") then [] else text "$"))

unfoldable pub parse_regex_dialect : Text → Option RegexDialect
unfolding text_eq
parse_regex_dialect str =
    if text_eq str (text "llvm")
    then some llvm
    else if text_eq str (text "ecmascript")
    then some ecmascript
    else none

-- The engines take the pattern, the string, and the replacement.
module _ (engines : RegexEngines) where
  unfoldable pub regex_match : RegexDialect → Text → Text → Bool
  unfolding anchored
  regex_match llvm str pattern_text = engines.llvm_match (anchored pattern_text) str
  regex_match ecmascript str pattern_text = engines.std_match pattern_text str

  unfoldable pub regex_replace : RegexDialect → Text → Text → Text → Text
  unfolding anchored
  regex_replace llvm str pattern_text replacement =
      engines.llvm_sub (anchored pattern_text) str replacement
  regex_replace ecmascript str pattern_text replacement =
      engines.std_replace (anchored pattern_text) str replacement
