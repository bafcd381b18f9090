-- ===== src/Output/Desired.antt =====
-- `CalculateDesiredIncludesAndForwardDeclares` and `CleanupPrefixHeaderIncludes` of iwyu_output.cc: which
-- lines the program wants in the file.
pub mod Passes
pub mod Surplus
pub mod Marks
pub mod Wanted
use include_what_you_use.Base.{
  ℕ, zero, suc, ◌+◌, Bool, true, false, not, ◌&&◌, ◌||◌, Option, none, some, List, [], ◌∷◌, ◌++◌,
  ◌==◌, if◌then◌else◌, is_empty, any_of, map,
}
use include_what_you_use.Base.Checked.{◌>>=◌, ◌>>◌, check}
use include_what_you_use.Text.{Text, text, text_eq}
use include_what_you_use.Text.Order.{text_key}
use include_what_you_use.Container.{Set, contains}
use include_what_you_use.Output.Use.{OneUse, Decl, FileEntry, is_full_use, has_suggested_header}
use include_what_you_use.Output.Facts.{file_eq}
use include_what_you_use.Output.Line.{
  Line, DeclFacts, include_line, fwd_decl_line, is_include_line, matches_include, matches_decl,
  set_desired, clear_desired, clear_line_numbers, has_symbol_use, add_symbol_use,
}

abbrev pub contains_file : List (Option FileEntry) → Option FileEntry → Bool
contains_file files file = any_of (λ f. file_eq f file) files

-- The lines of `fwd_decl_map` for a declaration. The map is keyed by the declaration itself.
unfoldable pub declares : Decl → Line → Bool
unfolding is_include_line
declares decl l = not (is_include_line l) && elim l.fwd_decl [ none ↦ false | some d ↦ d == decl ]

-- The name of a symbol in the comments.
unfoldable pub comment_name : Bool → OneUse → Text
comment_name comments_with_namespace u =
    if comments_with_namespace then u.symbol_name else u.short_symbol_name

module _ (facts : DeclFacts) where
  -- The first loop: a line for each use.
  unfoldable pub add_line : OneUse → List Line → Option (List Line)
  unfolding include_line fwd_decl_line matches_include matches_decl
  add_line u lines =
      if u.ignore_use
      then some lines
      else if has_suggested_header u
      then some (
          if any_of (matches_include u.suggested_header) lines
          then lines
          else lines ++ include_line u.decl_file u.suggested_header none ∷ [])
      else (u.decl >>= λ decl. some (
          if any_of (matches_decl facts decl) lines
          then lines
          else lines ++ clear_line_numbers (fwd_decl_line facts decl) ∷ []))

  unfoldable pub add_lines : List OneUse → List Line → Option (List Line)
  unfolding add_line
  add_lines [] lines = some lines
  add_lines (u ∷ uses) lines = do lines' ← add_line u lines; add_lines uses lines'

-- The second loop, over the full uses: `equal_range` holds the include lines with the header.
unfoldable pub mark_full_use : Text → Text → Line → Line
unfolding matches_include add_symbol_use
mark_full_use header symbol l =
    if matches_include header l then set_desired (add_symbol_use l symbol) else l

-- The accessor checks that a full use has a header.
unfoldable pub mark_full_uses : Bool → List OneUse → List Line → Option (List Line)
unfolding mark_full_use comment_name
mark_full_uses with_namespace [] lines = some lines
mark_full_uses with_namespace (u ∷ uses) lines =
    if u.ignore_use || not (is_full_use u)
    then mark_full_uses with_namespace uses lines
    else check (has_suggested_header u)
      >> mark_full_uses with_namespace uses
          (map (mark_full_use u.suggested_header (comment_name with_namespace u)) lines)

-- The third loop, over the forward-declare uses.
unfoldable pub mark_pointer_use : Text → Text → Line → Line
unfolding matches_include add_symbol_use has_symbol_use
mark_pointer_use header symbol l =
    if matches_include header l
    then (if has_symbol_use l symbol
        then set_desired l
        else set_desired (add_symbol_use l (symbol ++ text " (ptr only)")))
    else l

unfoldable pub mark_declaration : Decl → Line → Line
unfolding declares
mark_declaration decl l = if declares decl l then set_desired l else l

unfoldable pub mark_fwd_decl_use : Bool → OneUse → List Line → Option (List Line)
unfolding mark_pointer_use mark_declaration comment_name matches_include
mark_fwd_decl_use with_namespace u lines =
    if u.ignore_use || is_full_use u
    then some lines
    else if has_suggested_header u
    then (do
      check (any_of (matches_include u.suggested_header) lines)
      some (map (mark_pointer_use u.suggested_header (comment_name with_namespace u)) lines))
    else (u.decl >>= λ decl. some (map (mark_declaration decl) lines))

unfoldable pub mark_fwd_decl_uses : Bool → List OneUse → List Line → Option (List Line)
unfolding mark_fwd_decl_use
mark_fwd_decl_uses with_namespace [] lines = some lines
mark_fwd_decl_uses with_namespace (u ∷ uses) lines = do
  lines' ← mark_fwd_decl_use with_namespace u lines
  mark_fwd_decl_uses with_namespace uses lines'

-- An include that an associated header brings is not added.
unfoldable pub clear_associated : Set Text → Line → Line
unfolding is_include_line contains
clear_associated associated_desired l =
    if l.is_desired
      && not l.is_present
      && is_include_line l
      && contains associated_desired l.quoted_include
    then clear_desired l
    else l

-- `ClearDesiredForSurplusIncludesOrForwardDeclares` on both maps, in one pass over the lines: all but the
-- first line with a key are cleared. `headers` and `decls` are the keys so far.
unfoldable pub is_surplus : Set Text → List (Option Decl) → Line → Bool
unfolding is_include_line contains contains_file
is_surplus headers decls l =
    if is_include_line l then contains headers l.quoted_include else contains_file decls l.fwd_decl

unfoldable pub clear_if_surplus : Bool → Line → Line
clear_if_surplus surplus l = if surplus && not l.is_elaborated_type then clear_desired l else l

unfoldable pub clear_surplus : Set Text → List (Option Decl) → List Line → List Line
unfolding is_include_line is_surplus clear_if_surplus
clear_surplus headers decls [] = []
clear_surplus headers decls (l ∷ lines) =
    clear_if_surplus (is_surplus headers decls l) l
    ∷ clear_surplus (if is_include_line l then l.quoted_include ∷ headers else headers)
        (if is_include_line l then decls else l.fwd_decl ∷ decls) lines

-- The lines with a pragma "keep", and the declarations inside a macro.
unfoldable pub keep_line : List (Option FileEntry) → Line → Line
unfolding is_include_line contains_file
keep_line kept_includes l =
    if not l.is_desired && is_include_line l && contains_file kept_includes l.included_file
    then set_desired l
    else l

unfoldable pub keep_macro : DeclFacts → Line → Line
unfolding is_include_line
keep_macro facts l =
    if not l.is_desired
      && not (is_include_line l)
      && elim l.fwd_decl [ none ↦ false | some d ↦ facts.is_declared_inside_macro d ]
    then set_desired l
    else l

unfoldable pub calculate_desired_includes_and_forward_declares :
    DeclFacts
    → Bool
    → List OneUse
    → Set Text
    → List (Option FileEntry)
    → List Line
    → Option (List Line)
unfolding add_lines mark_full_uses mark_fwd_decl_uses clear_associated clear_surplus keep_line
    keep_macro
calculate_desired_includes_and_forward_declares facts with_namespace uses associated_desired
      kept_includes lines =
    do
      added ← add_lines facts uses lines
      full_marked ← mark_full_uses with_namespace uses added
      marked ← mark_fwd_decl_uses with_namespace uses full_marked
      let single = clear_surplus [] [] (map (clear_associated associated_desired) marked)
      some (map (keep_macro facts) (map (keep_line kept_includes) single))

-- `PrefixHeaderIncludePolicy`.
pub data PrefixHeaderPolicy : Type 0 where
  policy_add policy_keep policy_remove : PrefixHeaderPolicy

unfoldable pub keeps_present : PrefixHeaderPolicy → Bool
keeps_present policy_keep = true
keeps_present policy_add = false
keeps_present policy_remove = false

-- The loop of `CleanupPrefixHeaderIncludes`; `is_removable` is `IsRemovablePrefixHeader` on the file of a line.
unfoldable pub cleanup_line : (Line → Bool) → PrefixHeaderPolicy → Line → Line
unfolding keeps_present
cleanup_line is_removable policy l =
    if not l.is_desired
    then l
    else if l.is_present && keeps_present policy
    then l
    else if is_removable l
    then clear_desired l
    else l

unfoldable pub cleanup_prefix_header_includes :
    (Line → Bool) → PrefixHeaderPolicy → List Line → List Line
unfolding cleanup_line
cleanup_prefix_header_includes is_removable policy_add lines = lines
cleanup_prefix_header_includes is_removable policy_keep lines =
    map (cleanup_line is_removable policy_keep) lines
cleanup_prefix_header_includes is_removable policy_remove lines =
    map (cleanup_line is_removable policy_remove) lines

-- The pragma "no_include".
unfoldable pub clear_inhibited : (Text → Bool) → Line → Line
unfolding is_include_line
clear_inhibited is_inhibited l =
    if is_include_line l && is_inhibited l.quoted_include then clear_desired l else l
