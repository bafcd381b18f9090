-- ===== src/Text.antt =====
-- iwyu_string_util.h: the string helpers. A `string` or `StringRef` is the list of its bytes.
-- What `string`, `StringRef` and `isspace` (in the "C" locale) do is written out here as far as the
-- program calls it: `==`, `<`, `find`, `starts_with`, `ends_with`; `substr(0, n)` is `take n`, and
-- `substr(n)` is `drop n`. A helper that writes through a `string*` returns the new value.
pub mod Order
pub mod Find
pub mod Strip
pub mod Split
pub mod Room
pub mod Words
mod Tests
use include_what_you_use.Base.{
  ℕ, zero, suc, ◌+◌, ◌-◌, Bool, true, false, not, ◌&&◌, ◌||◌, Option, none, some, List, [], ◌∷◌,
  ◌++◌, String, code, leb, ltb, ◌==◌, if◌then◌else◌, length, take, drop, get_elem?, is_empty,
}
use include_what_you_use.Base.Checked.{◌>>=◌, ◌>>◌, check}

abbrev pub Text : Type 0
Text = List ℕ

-- A literal of the source; all of them are ASCII.
abbrev pub text : String → Text
text String.[] = []
text (String.◌∷◌ c s) = code c ∷ text s

unfoldable pub text_eq : Text → Text → Bool
text_eq [] [] = true
text_eq (x ∷ xs) (y ∷ ys) = x == y && text_eq xs ys
text_eq _ _ = false

-- `operator<` on strings, byte by byte.
unfoldable pub text_less : Text → Text → Bool
text_less [] [] = false
text_less [] (y ∷ ys) = true
text_less (x ∷ xs) [] = false
text_less (x ∷ xs) (y ∷ ys) = let rest = text_less xs ys in if x == y then rest else ltb x y

unfoldable pub starts_with : Text → Text → Bool
starts_with str [] = true
starts_with [] (p ∷ ps) = false
starts_with (c ∷ cs) (p ∷ ps) = c == p && starts_with cs ps

unfoldable pub ends_with : Text → Text → Bool
unfolding text_eq
ends_with str suffix =
    leb (length suffix) (length str) && text_eq (drop (length str - length suffix) str) suffix

-- `str.find(substr)`; `none` is `npos`.
unfoldable pub find : Text → Text → Option ℕ
unfolding starts_with
find [] substr = if is_empty substr then some 0 else none
find (c ∷ cs) substr =
    let later = find cs substr in
    if starts_with (c ∷ cs) substr then some 0 else later >>= λ pos. some (suc pos)

unfoldable pub is_space : ℕ → Bool
is_space c = c == b' ' || (leb b'\t' c && leb c b'\r')

unfoldable pub strip_left : Text → Text → Bool × Text
unfolding starts_with
strip_left str prefix =
    if starts_with str prefix then (true, drop (length prefix) str) else (false, str)

unfoldable pub strip_right : Text → Text → Bool × Text
unfolding ends_with
strip_right str suffix =
    if ends_with str suffix then (true, take (length str - length suffix) str) else (false, str)

unfoldable pub ellipsize : Text → ℕ → Text
ellipsize str width =
    if leb (length str) width
    then str
    else if ltb width 6
    then []
    else take (width - 3) str ++ text "..."

unfoldable pub strip_past : Text → Text → Bool × Text
unfolding find
strip_past str substr = elim (find str substr) [
  | none ↦ (false, str)
  | some pos ↦ (true, drop (pos + length substr) str)
]

unfoldable pub strip_white_space_left : Text → Text
unfolding is_space
strip_white_space_left [] = []
strip_white_space_left (c ∷ cs) =
    let rest = strip_white_space_left cs in if not (is_space c) then c ∷ cs else rest

-- `str[end_of_string - 1]` is read for `0 < end_of_string ≤ size` only.
abbrev pub space_at : Text → ℕ → Bool
space_at str i = elim (get_elem? str i) [ none ↦ false | some c ↦ is_space c ]

unfoldable pub strip_right_from : Text → ℕ → Text
unfolding is_space
strip_right_from str zero = []
strip_right_from str (suc e) =
    let rest = strip_right_from str e in if not (space_at str e) then take (suc e) str else rest

unfoldable pub strip_white_space_right : Text → Text
unfolding strip_right_from
strip_white_space_right str = strip_right_from str (length str)

unfoldable pub strip_white_space : Text → Text
unfolding strip_white_space_left strip_white_space_right
strip_white_space str = strip_white_space_right (strip_white_space_left str)

-- The test of the loop in `Split`, with the position that it finds.
unfoldable pub next_divider : Text → Text → ℕ → List Text → Option ℕ
unfolding find
next_divider str divider max_segs retval =
    if length retval + 1 == max_segs then none else find str divider

-- The loop of `Split`, with fuel for its rounds; `none` is a want of fuel.
unfoldable pub split_loop : ℕ → Text → Text → ℕ → List Text → Option (List Text)
unfolding next_divider
split_loop zero str divider max_segs retval = none
split_loop (suc fuel) str divider max_segs retval =
    elim (next_divider str divider max_segs retval) [
      | none ↦ some (retval ++ str ∷ [])
      | some pos ↦
          split_loop fuel (drop (pos + length divider) str) divider max_segs
            (retval ++ take pos str ∷ [])
    ]

unfoldable pub split : Text → Text → ℕ → Option (List Text)
unfolding split_loop
split str divider max_segs = do
  check (not (is_empty divider))
  split_loop (suc (length str)) str divider max_segs []

-- `str.substr(start, end - start)`.
abbrev pub slice : Text → ℕ → ℕ → Text
slice str start end = take (end - start) (drop start str)

-- What stands behind the loops of the two functions below.
abbrev pub last_token : Text → Option ℕ → List Text → List Text
last_token str none retval = retval
last_token str (some start) retval = retval ++ drop start str ∷ []

-- The loop of `SplitOnWhiteSpace` at `pos`, over the bytes from there on.
unfoldable pub white_space_loop : Text → ℕ → Text → ℕ → Option ℕ → List Text → List Text
unfolding is_space
white_space_loop str max_segs [] pos tokstart retval = last_token str tokstart retval
white_space_loop str max_segs (c ∷ cs) pos none retval =
    white_space_loop str max_segs cs (pos + 1) (if is_space c then none else some pos) retval
white_space_loop str max_segs (c ∷ cs) pos (some start) retval =
    let segs = retval ++ slice str start pos ∷ [] in
    let ended = white_space_loop str max_segs cs (pos + 1) none segs in
    let longer = white_space_loop str max_segs cs (pos + 1) (some start) retval in
    if is_space c then (if length segs == max_segs then segs else ended) else longer

unfoldable pub split_on_white_space : Text → ℕ → List Text
unfolding white_space_loop
split_on_white_space str max_segs = white_space_loop str max_segs str 0 none []

-- The byte that closes the token which `c` opens; 0 for none.
abbrev pub closing_quote_for : ℕ → ℕ
closing_quote_for c = if c == b'"' then b'"' else if c == b'<' then b'>' else 0

-- The loop of `SplitOnWhiteSpacePreservingQuotes`; the fifth argument is `closing_quote`.
unfoldable pub quoted_loop : Text → ℕ → Text → ℕ → ℕ → Option ℕ → List Text → List Text
unfolding is_space
quoted_loop str max_segs [] pos quote tokstart retval = last_token str tokstart retval
quoted_loop str max_segs (c ∷ cs) pos quote none retval =
    let space = is_space c in
    quoted_loop str max_segs cs (pos + 1) (if space then quote else closing_quote_for c)
      (if space then none else some pos) retval
quoted_loop str max_segs (c ∷ cs) pos quote (some start) retval =
    let segs = retval ++ slice str start pos ∷ [] in
    let ended = quoted_loop str max_segs cs (pos + 1) quote none segs in
    let kept = quoted_loop str max_segs cs (pos + 1) quote (some start) retval in
    let closed =
      quoted_loop str max_segs cs (pos + 1) (if c == quote then 0 else quote) (some start) retval in
    if is_space c
    then (if quote == 0 then (if length segs == max_segs then segs else ended) else kept)
    else closed

unfoldable pub split_on_white_space_preserving_quotes : Text → ℕ → List Text
unfolding quoted_loop
split_on_white_space_preserving_quotes str max_segs = quoted_loop str max_segs str 0 0 none []
