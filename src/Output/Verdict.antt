-- ===== src/Output/Verdict.antt =====
-- The verdict on one use, once the desired includes are known: `CalculateIwyuForForwardDeclareUse` and
-- `CalculateIwyuForFullUse` of iwyu_output.cc.
pub mod Full
pub mod Forward
use include_what_you_use.Base.{
  ℕ, Bool, true, false, not, ◌&&◌, ◌||◌, Option, none, some, List, [], ◌∷◌, ◌++◌, any_of, is_empty,
  if◌then◌else◌,
}
use include_what_you_use.Base.Checked.{◌>>=◌, ◌>>◌, check}
use include_what_you_use.Text.{Text, text, text_eq, starts_with}
use include_what_you_use.Text.Order.{text_key}
use include_what_you_use.Container.{Set, contains}
use include_what_you_use.PathUtil.{PathApi}
use include_what_you_use.PathUtil
use include_what_you_use.Output.Use.{
  OneUse, Decl, FileEntry, is_full_use, has_suggested_header, set_suggested_header, set_ignore_use,
  set_is_iwyu_violation,
}
use include_what_you_use.Output.Facts.{
  ClangFacts, PickerFacts, reset_decl, same_class_decl_used_in_method, template_of, tag_of,
  has_default_args, file_eq, is_some,
}

-- (E1), (E2) and (E3): whether the suggested header is a header by its name, whether it is included now,
-- and whether it is the file itself.
unfoldable pub judge_full : Bool → Bool → Bool → OneUse → OneUse
judge_full is_header is_included is_self u =
    if not is_header && not is_included
    then set_ignore_use u
    else if is_self
    then set_ignore_use u
    else if is_included
    then u
    else set_is_iwyu_violation u

module _ (sys : PathApi) where
  unfoldable pub calculate_iwyu_for_full_use : OneUse → Set Text → Text → Option OneUse
  unfolding PathUtil.is_quoted_header_filename contains judge_full
  calculate_iwyu_for_full_use u actual_includes use_quoted_include = do
    check (not u.ignore_use)
    check (is_full_use u)
    check (has_suggested_header u)
    is_header ← PathUtil.is_quoted_header_filename sys u.suggested_header
    some (
        judge_full is_header (contains actual_includes u.suggested_header)
          (text_eq use_quoted_include u.suggested_header) u)

-- What the definitions of a type give: one from a desired header, with the header, and one from a header
-- that is included now.
pub record FoundDfns : Type 0 where
  pub from_desired : Option (Decl × Text)
  pub from_actual : Option Decl

abbrev pub find_decl : (Decl → Bool) → List Decl → Option Decl
find_decl test [] = none
find_decl test (d ∷ ds) = let later = find_decl test ds in if test d then some d else later

module _ (c : ClangFacts) (p : PickerFacts) (actual_includes desired_includes : Set Text) where
  unfoldable pub note_headers : Decl → List Text → FoundDfns → FoundDfns
  note_headers dfn [] found = found
  note_headers dfn (header ∷ headers) found = note_headers dfn headers (record {
    from_desired =
        if contains desired_includes header then some (dfn, header) else found.from_desired;
    from_actual = if contains actual_includes header then some dfn else found.from_actual;
  })

  -- The loop over the definitions: `none` if one of them is before the use, which is ignored then.
  unfoldable pub find_dfns : OneUse → List Decl → FoundDfns → Option FoundDfns
  unfolding note_headers
  find_dfns u [] found = some found
  find_dfns u (dfn ∷ dfns) found =
      let headers = p.mapped_public_headers dfn (c.path_of_loc u.use_loc) (c.path_of_decl dfn) in
      let later = find_dfns u dfns (note_headers dfn headers found) in
      if c.decl_is_before_in_same_file dfn u.use_loc then none else later

  abbrev pub tag_definitions : List Decl → List Decl
  tag_definitions [] = []
  tag_definitions (spec ∷ specs) = elim (c.tag_definition spec) [
    | none ↦ tag_definitions specs
    | some dfn ↦ dfn ∷ tag_definitions specs
  ]

  -- The definition of the type itself, and those of the specializations of its template.
  unfoldable pub own_definition : Option Decl → List Decl
  own_definition none = []
  own_definition (some dfn) = dfn ∷ []

  unfoldable pub special_definitions : Option Decl → List Decl
  special_definitions none = []
  special_definitions (some tpl) = tag_definitions (c.specializations tpl)

  -- `dfns`: none if the template has default arguments and is not in `std`.
  unfoldable pub definitions_of : OneUse → Decl → List Decl
  unfolding template_of has_default_args own_definition special_definitions
  definitions_of u decl =
      let tpl = template_of c decl in
      if not (has_default_args c tpl) || starts_with u.symbol_name (text "std::")
      then own_definition (c.tag_definition decl) ++ special_definitions tpl
      else []

  -- (D1): the use takes the definition in a desired header, or the declaration in its own file.
  unfoldable pub satisfy : OneUse → FoundDfns → Option Decl → Option OneUse
  unfolding reset_decl
  satisfy u found same_file_decl = elim found.from_desired [
    | some (dfn, header) ↦ do
      check (not (is_empty header))
      u' ← reset_decl c u dfn
      some (set_suggested_header u' header)
    | none ↦ elim same_file_decl [ none ↦ some u | some decl ↦ reset_decl c u decl ]
  ]

  -- `Be sure to store as a ClassTemplateDecl if we're a templated class.`
  unfoldable pub store_as_template : OneUse → Option OneUse
  unfolding reset_decl
  store_as_template u = elim u.decl [
    | none ↦ none
    | some decl ↦ elim (c.as_specialization decl) [
      | some spec ↦ reset_decl c u (c.specialized_template spec)
      | none ↦ elim (c.described_class_template decl) [
        | none ↦ some u
        | some tpl ↦ reset_decl c u tpl
      ]
    ]
  ]

  -- The declaration in the file of the use, before it.
  unfoldable pub same_file_redecl : OneUse → Set Decl → Option Decl
  unfolding same_class_decl_used_in_method
  same_file_redecl u =
      find_decl
        (λ d. c.decl_is_before_in_same_file d u.use_loc || same_class_decl_used_in_method c d u)

  unfoldable pub is_in_associated : List (Option FileEntry) → Set Decl → Bool
  is_in_associated associated redecls =
      any_of (λ d. any_of (λ f. file_eq f (c.file_of_decl d)) associated) redecls

  -- (D1) and (D2), for a use that is not ignored.
  unfoldable pub judge : OneUse → FoundDfns → Option Decl → Option OneUse
  unfolding satisfy store_as_template
  judge u found same_file_decl = do
    satisfied ← satisfy u found same_file_decl
    stored ← store_as_template satisfied
    some (
        if is_some found.from_actual || is_some same_file_decl
        then stored
        else set_is_iwyu_violation stored)

  -- What the search through the definitions led to, with the redeclaration in the file and whether one is in
  -- an associated header.
  unfoldable pub weigh : OneUse → Option Decl → Bool → Option FoundDfns → Option OneUse
  unfolding judge
  weigh u same_file_decl in_associated none = some (set_ignore_use u)
  weigh u same_file_decl in_associated (some found) =
      if not (is_some same_file_decl) && in_associated
      then some (set_ignore_use u)
      else judge u found same_file_decl

  unfoldable pub calculate_iwyu_for_forward_declare_use :
      OneUse → List (Option FileEntry) → Option OneUse
  unfolding tag_of definitions_of find_dfns same_file_redecl is_in_associated weigh
  calculate_iwyu_for_forward_declare_use u associated_includes = do
    check (not u.ignore_use)
    decl ← u.decl
    check (not (is_full_use u))
    tag ← tag_of c decl
    weigh u (same_file_redecl u (c.tag_redecls (some tag)))
        (is_in_associated associated_includes (c.tag_redecls (some tag)))
        (find_dfns u (definitions_of u decl) (record { from_desired = none; from_actual = none }))
