-- ===== src/Output/Minimal.antt =====
-- `CalculateMinimalIncludes` of iwyu_output.cc: it gives each use a header, and returns the headers.
pub mod Relation
pub mod Fill
pub mod Pick
pub mod Steps
pub mod Count
pub mod Cover
pub mod Served
use include_what_you_use.Base.{
  ℕ, zero, suc, ◌+◌, Bool, true, false, not, ◌&&◌, ◌||◌, Option, none, some, List, [], ◌∷◌, ◌==◌,
  ltb, if◌then◌else◌, is_empty, length, count_if, map,
}
use include_what_you_use.Base.Checked.{◌>>=◌, ◌>>◌, check}
use include_what_you_use.Text.{Text, text_eq}
use include_what_you_use.Text.Order.{text_key}
use include_what_you_use.Container.{Map, Set, contains, set_insert, map_set, get_or_default}
use include_what_you_use.Output.Use.{
  OneUse, HeaderSource, fill_headers, needs_suggested_header, has_suggested_header,
  suggested_header_of, set_suggested_header, public_headers_contain,
}

-- `for (OneUse& use : *uses)` with a body that may change the use and the desired headers.
unfoldable pub for_each :
    (OneUse → Set Text → Option (OneUse × Set Text))
    → List OneUse
    → Set Text
    → Option (List OneUse × Set Text)
for_each body [] desired = some ([], desired)
for_each body (u ∷ uses) desired = do
  (u', desired') ← body u desired
  (uses', last) ← for_each body uses desired'
  some (u' ∷ uses', last)

-- `use.set_suggested_header(choice); desired_headers.insert(use.suggested_header())`.
abbrev pub suggest : OneUse → Set Text → Text → OneUse × Set Text
suggest u desired choice = (set_suggested_header u choice, set_insert desired choice)

-- A loop `for (choice : choices)` that ends once the use has a header, and suggests a choice that passes.
-- `keeps` says whether the choice becomes a desired header too.
unfoldable pub pick :
    (Set Text → Text → Bool) → Bool → List Text → OneUse → Set Text → OneUse × Set Text
pick test keeps [] u desired = (u, desired)
pick test keeps (choice ∷ choices) u desired =
    let picked = set_suggested_header u choice in
    let grown = if keeps then set_insert desired choice else desired in
    let taken = pick test keeps choices picked grown in
    let passed = pick test keeps choices u desired in
    if has_suggested_header u then (u, desired) else if test desired choice then taken else passed

-- The counts of one header: all appearances, and those in the first place.
abbrev pub Counts : Type 0
Counts = ℕ × ℕ

-- `pair<int, int>`'s operator `<`.
unfoldable pub counts_less : Counts → Counts → Bool
counts_less (a, b) (c, d) = ltb a c || (a == c && ltb b d)

-- `++header_counts[choice].first`, and `.second` if the choice is `use->public_headers()[0]`.
unfoldable pub count_choice : Text → Text → Map Text Counts → Map Text Counts
unfolding get_or_default map_set text_eq
count_choice first choice counts =
    let (total, firsts) = get_or_default counts choice (0, 0) in
    map_set counts choice (total + 1, if text_eq choice first then firsts + 1 else firsts)

unfoldable pub count_choices : Text → List Text → Map Text Counts → Map Text Counts
unfolding count_choice
count_choices first [] counts = counts
count_choices first (choice ∷ choices) counts =
    count_choices first choices (count_choice first choice counts)

-- The choices of one use, counted.
unfoldable pub count_public_headers : List Text → Map Text Counts → Map Text Counts
unfolding count_choices
count_public_headers [] counts = counts
count_public_headers (first ∷ others) counts = count_choices first (first ∷ others) counts

-- A use, and whether it is in `unmapped_uses`.
abbrev pub Tracked : Type 0
Tracked = Bool × OneUse

unfoldable pub count_headers : List Tracked → Map Text Counts → Map Text Counts
unfolding count_public_headers
count_headers [] counts = counts
count_headers ((unmapped, u) ∷ rest) counts =
    count_headers rest (if unmapped then count_public_headers u.public_headers counts else counts)

-- The headers that come first for no use are erased.
unfoldable pub erase_never_first : Map Text Counts → Map Text Counts
erase_never_first [] = []
erase_never_first ((header, counts) ∷ m) =
    let later = erase_never_first m in if counts.1 == 0 then later else (header, counts) ∷ later

-- The loop over the counts that keeps the best entry.
unfoldable pub best_of : Text × Counts → Map Text Counts → Text × Counts
unfolding counts_less
best_of best [] = best
best_of best (entry ∷ m) = best_of (if counts_less best.1 entry.1 then entry else best) m

-- `hdr`; the program reads `*header_counts.begin()`, which is undefined if nothing is left: `none`.
unfoldable pub best_in : Map Text Counts → Option Text
unfolding best_of
best_in [] = none
best_in (entry ∷ m) = some (best_of entry (entry ∷ m)).0

unfoldable pub best_header : List Tracked → Option Text
unfolding count_headers erase_never_first best_in
best_header uses = best_in (erase_never_first (count_headers uses []))

module _ (src : HeaderSource) where
  -- The loop over `unmapped_uses` that gives `hdr` to the uses that it serves.
  unfoldable pub assign : Text → List Tracked → Option (List Tracked)
  unfolding needs_suggested_header fill_headers
  assign hdr [] = some []
  assign hdr ((false, u) ∷ rest) = do rest' ← assign hdr rest; some ((false, u) ∷ rest')
  assign hdr ((true, u) ∷ rest) = do
    (needs, u') ← needs_suggested_header src u
    filled ← (if needs then fill_headers src u' else some u')
    rest' ← assign hdr rest
    some (
        (if needs && public_headers_contain filled hdr
          then (false, set_suggested_header filled hdr)
          else (true, filled))
        ∷ rest')

  -- The loop of step (3), with fuel for its rounds.
  unfoldable pub set_cover : ℕ → List Tracked → Set Text → Option (List Tracked × Set Text)
  unfolding best_header assign
  set_cover zero uses desired = if count_if (λ t. t.0) uses == 0 then some (uses, desired) else none
  set_cover (suc fuel) uses desired = elim (count_if (λ t. t.0) uses == 0) [
    | true ↦ some (uses, desired)
    | false ↦ best_header uses >>= λ hdr.
        assign hdr uses >>= λ uses'. set_cover fuel uses' (set_insert desired hdr)
  ]

  -- `unmapped_uses`.
  unfoldable pub track : List OneUse → Option (List Tracked)
  unfolding needs_suggested_header fill_headers
  track [] = some []
  track (u ∷ uses) = do
    (needs, u') ← needs_suggested_header src u
    filled ← (if needs then fill_headers src u' else some u')
    rest ← track uses
    some ((needs, filled) ∷ rest)

module _ (src : HeaderSource) where
  -- `if (!use.NeedsSuggestedHeader()) continue;`, then a body that reads `use.public_headers()`.
  unfoldable pub if_needed :
      (OneUse → Set Text → Option (OneUse × Set Text))
      → OneUse
      → Set Text
      → Option (OneUse × Set Text)
  unfolding needs_suggested_header fill_headers
  if_needed body u desired = do
    (needs, u') ← needs_suggested_header src u
    if not needs
        then some (u', desired)
        else (fill_headers src u' >>= λ filled. body filled desired)

module _ (src : HeaderSource) (self : Text) (direct associated : Set Text) where
  unfoldable pub single_candidate : OneUse → Set Text → OneUse × Set Text
  single_candidate u desired = elim u.public_headers [
    | [] ↦ (u, desired)
    | only ∷ others ↦ if is_empty others then suggest u desired only else (u, desired)
  ]

  -- Special case #2, and the case of one candidate.
  unfoldable pub pick_certain : OneUse → Set Text → Option (OneUse × Set Text)
  unfolding single_candidate
  pick_certain u desired = do
    use_file ← src.quoted (src.file_path u.use_loc)
    decl_file ← src.quoted u.decl_filepath
    some (
        if public_headers_contain u use_file && contains direct decl_file
        then suggest u desired decl_file
        else single_candidate u desired)

  -- Step (1): the use has a header, its file is re-exported here, or there is one candidate only.
  unfoldable pub step_one : OneUse → Set Text → Option (OneUse × Set Text)
  unfolding if_needed pick_certain
  step_one u desired =
      if u.ignore_use
      then some (u, desired)
      else if has_suggested_header u
      then some (u, set_insert desired u.suggested_header)
      else if_needed src pick_certain u desired

  -- Step (2): the file itself, an associated header's include, an include that is needed already, and
  -- a canonical header that is included.
  unfoldable pub pick_present : OneUse → Set Text → OneUse × Set Text
  unfolding pick
  pick_present u desired =
      let (u₁, desired₁) = pick (λ _ c. text_eq c self) false u.public_headers u desired in
      let (u₂, desired₂) = pick (λ _ c. contains associated c) true u.public_headers u₁ desired₁ in
      let (u₃, desired₃) =
        pick (λ d c. contains direct c && contains d c) true u.public_headers u₂ desired₂ in
      pick (λ _ c. contains direct c) true u.canonical_headers u₃ desired₃

  unfoldable pub step_two : OneUse → Set Text → Option (OneUse × Set Text)
  unfolding if_needed pick_present
  step_two = if_needed src (λ u desired. some (pick_present u desired))

  -- A header that is desired already.
  unfoldable pub step_clean : OneUse → Set Text → Option (OneUse × Set Text)
  unfolding if_needed pick
  step_clean =
      if_needed src (λ u desired. some (pick (λ d c. contains d c) true u.public_headers u desired))

  -- The uses with their headers, and the desired headers. One round of the set cover maps one use at
  -- least, so that the number of uses is fuel enough.
  unfoldable pub calculate_minimal_includes : List OneUse → Option (List OneUse × Set Text)
  unfolding for_each step_one step_two step_clean track set_cover
  calculate_minimal_includes uses = do
    (uses₁, desired₁) ← for_each step_one uses []
    (uses₂, desired₂) ← for_each step_two uses₁ desired₁
    (uses₃, desired₃) ← for_each step_clean uses₂ desired₂
    tracked ← track src uses₃
    (mapped, desired) ← set_cover src (length tracked) tracked desired₃
    some (map (λ t. t.1) mapped, desired)
