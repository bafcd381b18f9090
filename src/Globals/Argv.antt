-- ===== src/Globals/Argv.antt =====
-- OptionsParser of iwyu_globals.cc: which words of the command line go to which parser.
pub mod Parts
use include_what_you_use.Base.{Bool, ◌||◌, List, [], ◌∷◌, if◌then◌else◌, ℕ}
use include_what_you_use.Text.{Text, text, text_eq}

-- The words behind the name of the program, for each of the three parsers.
pub record Argv : Type 0 where
  pub iwyu_argv : List Text
  pub intercepted_argv : List Text
  pub clang_argv : List Text

-- A word that does not follow `-Xiwyu`.
unfoldable pub add_word : Text → Argv → Argv
unfolding text_eq
add_word word argv =
    if text_eq word (text "--help") || text_eq word (text "--version")
    then record argv { intercepted_argv = word ∷ argv.intercepted_argv }
    else record argv { clang_argv = word ∷ argv.clang_argv }

-- The loop, on the words that are left. A last `-Xiwyu` has no word behind it.
unfoldable pub split_argv : List Text → Argv
unfolding add_word text_eq
split_argv [] = record { iwyu_argv = []; intercepted_argv = []; clang_argv = [] }
split_argv (word ∷ []) =
    add_word word (record { iwyu_argv = []; intercepted_argv = []; clang_argv = [] })
split_argv (word ∷ next ∷ words) =
    let behind = split_argv words in
    let rest = split_argv (next ∷ words) in
    if text_eq word (text "-Xiwyu")
    then record behind { iwyu_argv = next ∷ behind.iwyu_argv }
    else add_word word rest

pub data InterceptedOption : Type 0 where
  help version unknown_option : InterceptedOption

pub data Intercepted : Type 0 where
  goes_on : Intercepted
  quits : ℕ → Intercepted

-- ParseInterceptedCommandlineFlags, over what getopt_long returns: the first option ends the program.
unfoldable pub parse_intercepted_commandline_flags : List InterceptedOption → Intercepted
parse_intercepted_commandline_flags [] = goes_on
parse_intercepted_commandline_flags (help ∷ _) = quits 0
parse_intercepted_commandline_flags (version ∷ _) = quits 0
parse_intercepted_commandline_flags (unknown_option ∷ _) = quits 1
