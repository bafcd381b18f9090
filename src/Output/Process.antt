-- ===== src/Output/Process.antt =====
-- The first passes over the uses: `ProcessForwardDeclare`, `ProcessFullUse` and `ProcessSymbolUse` of
-- iwyu_output.cc. They ignore a use, or make a full use of a forward declaration, or the reverse.
use include_what_you_use.Base.{
  Bool, true, false, not, ◌&&◌, ◌||◌, Option, none, some, List, [], ◌∷◌, any_of, is_empty,
  if◌then◌else◌, ◌==◌,
}
use include_what_you_use.Base.Checked.{◌>>=◌, ◌>>◌, check}
use include_what_you_use.Text.{Text, text, text_eq, starts_with}
use include_what_you_use.Output.Use.{
  OneUse, Decl, FileEntry, HeaderSource, is_full_use, has_suggested_header, set_suggested_header,
  set_ignore_use, set_full_use, set_forward_declare_use, fill_headers,
}
use include_what_you_use.Output.Facts.{
  ClangFacts, PreprocessorFacts, PickerFacts, OutputFlags, reset_decl,
  decl_is_visible_to_use_in_same_file, template_of, tag_of, has_default_args, file_eq, is_some,
  has_flag, uf_redecl_use, uf_instantiation_pattern,
}

module _ (c : ClangFacts) (pp : PreprocessorFacts) (src : HeaderSource)
    (quote_from_parent : Text → Text → Option Text) where
  abbrev pub use_is_in_file_of : OneUse → Decl → Bool
  use_is_in_file_of u decl = file_eq (c.file_of_loc u.use_loc) (c.file_of_decl decl)

  abbrev pub is_inhibited : OneUse → Bool
  is_inhibited u = pp.forward_declare_is_inhibited (c.file_of_loc u.use_loc) u.symbol_name

  -- (A2) and (A3): a use in `std`, which stays as it is if it has headers, or of a template with default
  -- parameters.
  unfoldable pub recategorize : OneUse → Decl → Option OneUse
  unfolding template_of has_default_args fill_headers
  recategorize u decl =
      let has_defaults = has_default_args c (template_of c decl) in
      if starts_with u.symbol_name (text "std::")
      then (do
        filled ← fill_headers src u
        some (if is_empty filled.public_headers then set_full_use filled else filled))
      else some (if has_defaults && not (use_is_in_file_of u decl) then set_full_use u else u)

  -- (A4): a pragma forbids the forward declaration.
  unfoldable pub respect_pragma : OneUse → OneUse
  respect_pragma u = if not (is_full_use u) && is_inhibited u then set_full_use u else u

  -- (A5) and (A6): whether the use is discarded.
  unfoldable pub is_provided : OneUse → Decl → Bool
  unfolding tag_of decl_is_visible_to_use_in_same_file
  is_provided u decl =
      let tag = tag_of c decl in
      let defined =
        any_of (λ d. c.is_complete_definition d && decl_is_visible_to_use_in_same_file c d u)
          (c.tag_redecls tag) in
      let seen = not (has_flag u.use_flags uf_redecl_use) && defined in
      if c.is_nested_class tag
      then not (use_is_in_file_of u decl) || seen
      else c.is_declared_inside_function tag || seen

  -- (A7): the first redeclaration that is exported.
  unfoldable pub take_exported : OneUse → List Decl → Option OneUse
  unfolding reset_decl
  take_exported u [] = some u
  take_exported u (d ∷ ds) =
      let later = take_exported u ds in
      if pp.forward_declare_is_exported d
      then (do
        u' ← reset_decl c u d
        header ← quote_from_parent (c.path_of_loc (c.location d)) (c.path_of_loc u.use_loc)
        some (set_suggested_header u' header))
      else later

  -- (A8): the loop over the declaration and those before it, with `promote_to_full_use`.
  unfoldable pub choose_decl : OneUse → List Decl → Bool → Option (OneUse × Bool)
  unfolding reset_decl
  choose_decl u [] promote = some (u, promote)
  choose_decl u (d ∷ ds) promote =
      let own = choose_decl u ds false in
      let later = choose_decl u ds promote in
      if c.is_before_in_same_file (c.location d) u.use_loc
      then own
      else if c.is_before_in_translation_unit (c.location d) u.use_loc
      then (do u' ← reset_decl c u d; some (u', true))
      else later

  unfoldable pub promote : OneUse → Option OneUse
  unfolding choose_decl
  promote u = do
    decl ← u.decl
    (u', promoted) ← choose_decl u (c.decl_and_previous decl) true
    some (if promoted then set_full_use u' else u')

  unfoldable pub export_decl : OneUse → Option OneUse
  unfolding take_exported
  export_decl u =
      if is_full_use u then some u else u.decl >>= λ decl. take_exported u (c.redecls decl)

  -- The steps from (A2) on.
  unfoldable pub recategorize_and_trim : OutputFlags → OneUse → Decl → Option OneUse
  unfolding recategorize respect_pragma is_provided export_decl promote
  recategorize_and_trim flags u decl = do
    moved ← recategorize u decl
    let inhibited = respect_pragma moved
    if is_provided inhibited decl
        then some (set_ignore_use inhibited)
        else (export_decl inhibited >>= λ exported.
            if flags.no_fwd_decls then promote exported else some exported)

  unfoldable pub process_forward_declare : OutputFlags → OneUse → Option OneUse
  unfolding recategorize_and_trim fill_headers
  process_forward_declare flags u = do
    decl ← u.decl
    check (not (is_full_use u))
    if u.ignore_use
        then some u
        else if c.decl_can_be_forward_declared decl
        then recategorize_and_trim flags u decl
        else (fill_headers src u >>= λ filled.
            if is_empty filled.public_headers
            then some (set_full_use filled)
            else recategorize_and_trim flags filled decl)

module _ (c : ClangFacts) (pp : PreprocessorFacts) (picker : PickerFacts)
    (flags : OutputFlags) where
  -- (B3): a declaration that the use sees in its own file.
  unfoldable pub is_seen_in_file : OneUse → Decl → Bool
  unfolding decl_is_visible_to_use_in_same_file
  is_seen_in_file u decl =
      let is_class = is_some (c.as_tag_decl decl) || is_some (c.as_class_template decl) in
      any_of
        (λ d.
          (not (c.fn_decl_has_def_arg decl) || c.fn_decl_has_def_arg d)
          && decl_is_visible_to_use_in_same_file c d u)
        (if is_class then decl ∷ [] else c.non_tag_redecls decl)

  -- (B5): whether a member of a class lives where the class does, by the one header that each file maps to
  -- and else by the files.
  unfoldable pub is_same_header : List Text → List Text → Bool → Bool
  is_same_header (a ∷ []) (b ∷ []) same = text_eq a b
  is_same_header _ _ same = same

  unfoldable pub is_same_file : Option FileEntry → Option FileEntry → Bool
  unfolding is_same_header
  is_same_file decl_file parent_file =
      is_same_header (picker.candidates_for_path (c.path_of_file decl_file))
        (picker.candidates_for_path (c.path_of_file parent_file)) (file_eq decl_file parent_file)

  unfoldable pub is_member_of_class : OneUse → Decl → Bool
  unfolding is_same_file
  is_member_of_class u decl = elim (c.parent_definition decl) [
    | none ↦ false
    | some dfn ↦
        is_same_file (c.file_of_loc u.decl_loc)
          (c.file_of_loc (c.get_instantiation_loc (c.get_location dfn)))
  ]

  -- (B8): a namespace with another use in it.
  unfoldable pub is_used_namespace : Decl → List OneUse → Bool
  is_used_namespace decl all_uses = elim (c.as_namespace decl) [
    | none ↦ false
    | some ns ↦
        any_of
          (λ u. elim u.decl [ none ↦ false | some d ↦ not (ns == d) && c.is_in_namespace d ns ])
          all_uses
  ]

  -- (B3) to (B8): whether the use is discarded.
  unfoldable pub is_discarded : OneUse → Decl → List OneUse → Bool
  unfolding is_seen_in_file is_member_of_class is_used_namespace
  is_discarded u decl all_uses =
      let builtin = c.is_builtin_function decl in
      let mapped = builtin && picker.has_mapping decl in
      let anchored =
        has_flag u.use_flags uf_redecl_use || has_flag u.use_flags uf_instantiation_pattern in
      let use_file = c.file_of_loc u.use_loc in
      let decl_file = c.file_of_decl decl in
      (not anchored && not mapped && is_seen_in_file u decl)
      || c.is_builtin_template decl
      || (builtin && not mapped)
      || c.is_replaceable_global_allocation_function decl
      || is_member_of_class u decl
      || (pp.file_transitively_includes decl_file use_file && not mapped)
      || (flags.transitive_includes_only && not (pp.file_transitively_includes use_file decl_file))
      || is_used_namespace decl all_uses

  -- (B2): the definition comes after the use, and a forward declaration can stand in for it.
  unfoldable pub is_defined_later : OneUse → Decl → Bool
  unfolding decl_is_visible_to_use_in_same_file
  is_defined_later u decl =
      file_eq (c.file_of_loc u.use_loc) (c.file_of_decl decl)
      && not (decl_is_visible_to_use_in_same_file c decl u)
      && c.decl_can_be_forward_declared decl

  unfoldable pub process_full_use : OneUse → List OneUse → Option OneUse
  unfolding is_defined_later is_discarded
  process_full_use u all_uses = do
    decl ← u.decl
    check (is_full_use u)
    some (
        if u.ignore_use
        then u
        else if c.is_declared_inside_function (some decl)
        then set_ignore_use u
        else if is_defined_later u decl
        then (if pp.forward_declare_is_inhibited (c.file_of_loc u.use_loc) u.symbol_name
            then set_ignore_use u
            else set_forward_declare_use u)
        else if is_discarded u decl all_uses
        then set_ignore_use u
        else u)

  unfoldable pub process_symbol_use : (Text → Option Text) → OneUse → Option OneUse
  process_symbol_use convert_to_quoted_include u = if u.ignore_use then some u else (do
    quoted_decl_file ← convert_to_quoted_include u.decl_filepath
    let use_file = c.file_of_loc u.use_loc
    some (
        if text_eq (c.path_of_loc u.use_loc) u.decl_filepath
        then set_ignore_use u
        else if not (has_suggested_header u)
            && pp.quoted_transitively_includes quoted_decl_file use_file
        then set_ignore_use u
        else if flags.transitive_includes_only
            && not (has_suggested_header u)
            && not (pp.file_transitively_includes_quoted use_file quoted_decl_file)
        then set_ignore_use u
        else u))
