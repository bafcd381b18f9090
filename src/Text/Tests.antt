-- ===== src/Text/Tests.antt =====
-- A run of each theorem on the string functions.
use include_what_you_use.Base.{◌≤◌, ◌<◌, ◌-◌, some, List, [], ◌∷◌, ◌++◌, ◌≡◌, refl, length, take}
use include_what_you_use.Text.{
  Text, text, ellipsize, strip_white_space, split, split_on_white_space,
  split_on_white_space_preserving_quotes,
}
use include_what_you_use.Text.Strip.{IsTrimOf, ellipsize_lem, strip_white_space-IsTrimOf}
use include_what_you_use.Text.Split.{IsSplitOf, split-IsSplitOf}
use include_what_you_use.Text.Room.{at_most}
use include_what_you_use.Text.Words.{plain_words, white_space-words}

split-IsSplitOf_example :
    (segs : List Text) × (split (text "a,b,,c") (text ",") 3 ≡ some segs)
    × IsSplitOf (text "a,b,,c") (text ",") 3 segs
split-IsSplitOf_example = split-IsSplitOf (text "a,b,,c") (text ",") 3 refl

three_segments : split (text "a,b,,c") (text ",") 3 ≡ some (text "a" ∷ text "b" ∷ text ",c" ∷ [])
unfolding split
three_segments = refl

one_quoted_word :
    split_on_white_space_preserving_quotes (text "keep \"a b.h\" now") 0
    ≡ text "keep" ∷ text "\"a b.h\"" ∷ text "now" ∷ []
unfolding split_on_white_space_preserving_quotes
one_quoted_word = refl

white_space-words_example :
    split_on_white_space (text " a  b c ") 2 ≡ at_most 2 (plain_words [] (text " a  b c "))
white_space-words_example = white_space-words (text " a  b c ") 2

strip_white_space-IsTrimOf_example : IsTrimOf (text "  a b ") (strip_white_space (text "  a b "))
strip_white_space-IsTrimOf_example = strip_white_space-IsTrimOf (text "  a b ")

ellipsize_lem_example :
    (length (ellipsize (text "a_long_name") 8) ≤ 8)
    × (11 ≤ 8 → ellipsize (text "a_long_name") 8 ≡ text "a_long_name")
    × (8 < 11
        → 6 ≤ 8
        → (length (ellipsize (text "a_long_name") 8) ≡ 8)
          × (ellipsize (text "a_long_name") 8 ≡ take (8 - 3) (text "a_long_name") ++ text "..."))
    × (8 < 11 → 8 < 6 → ellipsize (text "a_long_name") 8 ≡ [])
ellipsize_lem_example = ellipsize_lem (text "a_long_name") 8
