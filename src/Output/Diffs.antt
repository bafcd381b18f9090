-- ===== src/Output/Diffs.antt =====
-- The report of a file: `PrintableDiffs` of iwyu_output.cc and what it calls.
pub mod Frequency
pub mod Edits
use include_what_you_use.Base.{
  ℕ, zero, suc, ◌+◌, max, Bool, true, false, not, ◌&&◌, ◌||◌, Option, none, some, List, [], ◌∷◌,
  ◌++◌, ◌==◌, ltb, if◌then◌else◌, is_empty, any_of, map, foldl,
}
use include_what_you_use.Base.Checked.{◌>>=◌, ◌>>◌, check}
use include_what_you_use.Text.{Text, text, text_less, starts_with, ends_with}
use include_what_you_use.Text.Order.{text_key}
use include_what_you_use.Container.{Map, Set, contains}
use include_what_you_use.Output.Use.{FileEntry}
use include_what_you_use.Output.Line.{
  Line, OutputLine, is_include_line, line_number_string, output_line, line_length, needs_alignment,
  add_prefix, printable_line,
}

-- A sort that keeps the order of equal entries: an entry goes behind those that are not above it.
unfoldable pub insert_sorted : {A : Type 0} → (A → A → Bool) → A → List A → List A
insert_sorted less x [] = x ∷ []
insert_sorted less x (y ∷ ys) =
    let later = insert_sorted less x ys in if less x y then x ∷ y ∷ ys else y ∷ later

unfoldable pub sort_by : {A : Type 0} → (A → A → Bool) → List A → List A → List A
unfolding insert_sorted
sort_by less sorted [] = sorted
sort_by less sorted (x ∷ xs) = sort_by less (insert_sorted less x sorted) xs

-- `CountGt`: by decreasing count, then by name.
unfoldable pub count_gt : Text × ℕ → Text × ℕ → Bool
unfolding text_less
count_gt (a, n) (b, m) = if n == m then text_less a b else ltb m n

unfoldable pub get_symbols_sorted_by_frequency : Map Text ℕ → List Text
unfolding sort_by count_gt
get_symbols_sorted_by_frequency m = map (λ e. e.0) (sort_by count_gt [] m)

-- The flags that the report reads; `should_print` is `ShouldPrint`.
pub record PrintFlags : Type 0 where
  pub no_comments : Bool
  pub quoted_includes_first : Bool
  pub update_comments : Bool
  pub max_line_length : ℕ
  pub should_print : ℕ → Bool

abbrev pub is_addition : Line → Bool
is_addition l = l.is_desired && not l.is_present

abbrev pub is_deletion : Line → Bool
is_deletion l = l.is_present && not l.is_desired

module _ (flags : PrintFlags) (associated : Set Text) where
  unfoldable pub printable_include_or_forward_declare_line : Line → Option OutputLine
  unfolding output_line line_number_string is_include_line contains get_symbols_sorted_by_frequency
  printable_include_or_forward_declare_line l =
      if flags.no_comments
      then some (output_line l.line [])
      else if is_empty l.symbol_counts && not l.is_present
      then some (output_line l.line [])
      else if is_empty l.symbol_counts || not l.is_desired
      then (check (not (starts_with (line_number_string l) (text "-")))
          >> some (output_line (l.line ++ text "  // lines " ++ line_number_string l) []))
      else if is_include_line l && contains associated l.quoted_include
      then some (output_line l.line [])
      else some (output_line l.line (get_symbols_sorted_by_frequency l.symbol_counts))

  -- `LineSortOrdinal`, as the number that orders it.
  unfoldable pub get_line_sort_ordinal : (Line → Bool) → Line → ℕ
  unfolding is_include_line contains ends_with
  get_line_sort_ordinal is_pch_in_code l =
      if not (is_include_line l)
      then 7
      else if is_pch_in_code l
      then 0
      else if contains associated l.quoted_include
      then (if ends_with l.quoted_include (text "-inl.h\"") then 2 else 1)
      else if flags.quoted_includes_first && ends_with l.quoted_include (text "\"")
      then 3
      else if ends_with l.quoted_include (text ".h>")
      then 4
      else if ends_with l.quoted_include (text ">")
      then 5
      else 6

  -- The order of the keys of `sorted_lines`.
  unfoldable pub sort_key_less : (Line → Bool) → Line → Line → Bool
  unfolding get_line_sort_ordinal text_less
  sort_key_less is_pch_in_code a b =
      let m = get_line_sort_ordinal is_pch_in_code a in
      let n = get_line_sort_ordinal is_pch_in_code b in
      ltb m n || (m == n && text_less a.line b.line)

  -- One of the three loops: the lines that pass, printed behind a prefix, and how many they are.
  unfoldable pub print_lines : (Line → Bool) → Text → List Line → Option (List OutputLine × ℕ)
  unfolding printable_include_or_forward_declare_line
  print_lines test front [] = some ([], 0)
  print_lines test front (l ∷ lines) = do
    (printed, n) ← print_lines test front lines
    if test l
        then (printable_include_or_forward_declare_line l >>= λ out.
            some (add_prefix front out ∷ printed, n + 1))
        else some (printed, n)

  -- A section of the report, with its title.
  unfoldable pub print_section :
      Bool → Text → (Line → Bool) → Text → List Line → Option (List OutputLine × ℕ)
  unfolding print_lines output_line
  print_section shown title test front lines =
      if shown
      then (do
        (printed, n) ← print_lines test front lines
        some (output_line title [] ∷ printed, n))
      else some ([], 0)

  -- The width of the lines with comments, and their texts.
  abbrev pub alignment : List OutputLine → ℕ
  alignment = foldl (λ width l. if needs_alignment l then max (line_length l) width else width) 0

  unfoldable pub print_all : ℕ → List OutputLine → Option Text
  unfolding printable_line
  print_all width [] = some []
  print_all width (l ∷ lines) = do
    printed ← printable_line (flags.should_print 3) width flags.max_line_length l
    rest ← print_all width lines
    some (printed ++ text "\n" ++ rest)

  -- The three sections, and what they come to.
  unfoldable pub print_report : Text → List Line → Option (ℕ × Text)
  unfolding print_section print_all
  print_report filename sorted = do
    (additions, added) ←
        print_section (flags.should_print 1)
          (text "\n" ++ filename ++ text " should add these lines:") is_addition [] sorted
    (deletions, deleted) ←
        print_section (flags.should_print 1)
          (text "\n" ++ filename ++ text " should remove these lines:") is_deletion (text "- ")
          sorted
    (full_list, _) ←
        print_section (flags.should_print 0)
          (text "\nThe full include-list for " ++ filename ++ text ":")
          (λ l. l.is_desired && not l.is_elaborated_type) [] sorted
    let output_lines = additions ++ deletions ++ full_list
    printed ← print_all (alignment output_lines) output_lines
    some (added + deleted, printed ++ text "---\n")

  abbrev pub has_edits : List Line → Bool
  has_edits = any_of (λ l. is_addition l || is_deletion l)

  -- The report of sorted lines: the number of edits, and the text.
  unfoldable pub report_diffs : Text → List Line → Option (ℕ × Text)
  unfolding print_report
  report_diffs filename sorted =
      if not (has_edits sorted) && not flags.update_comments
      then some (0, text "\n(" ++ filename ++ text " has correct #includes/fwd-decls)\n")
      else print_report filename sorted

  unfoldable pub printable_diffs : (Line → Bool) → Text → List Line → Option (ℕ × Text)
  unfolding sort_by sort_key_less report_diffs
  printable_diffs is_pch_in_code filename lines =
      report_diffs filename (sort_by (sort_key_less is_pch_in_code) [] lines)
