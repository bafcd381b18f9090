-- ===== src/Globals/Gathers.antt =====
-- What ParseArgv gathers in the lists of the flags.
use include_what_you_use.Base.{
  if-holds, ℕ, Bool, false, ◌||◌, some, List, [], ◌∷◌, ◌++◌, ◌≡◌, refl, arith, any_of, append_assoc,
  append-nil, sym, ◌∙◌, ap, subst,
}
use include_what_you_use.Text.{Text, text_eq}
use include_what_you_use.Text.Order.{text_key}
use include_what_you_use.Container.{contains}
use include_what_you_use.Container.Laws.{contains-set_insert}
use include_what_you_use.PathUtil.{PathApi, normalize_file_path}
use include_what_you_use.Regex.{parse_regex_dialect}
use include_what_you_use.Globals.Numbers.{parse_integer_optarg, atoi}
use include_what_you_use.Globals.{
  CommandlineFlags, FlagOption, Parsed, parsed, exits, check_failed, parse_option, parse_argv,
  is_nonnegative, opt_check_also, opt_keep, opt_mapping_file, opt_export_mappings, opt_error,
  opt_error_always, opt_unknown, opt_comment_style, opt_prefix_header_includes, opt_max_line_length,
  opt_regex,
}
use include_what_you_use.Globals.Parsing.{
  Option-holds, parsed-eq, comment_style-holds, prefix_header_includes-holds,
}

module _ (sys : PathApi) where
  -- What the options add to the three lists, in their order.
  abbrev pub keeps : Text → FlagOption → Bool
  keeps glob (opt_keep optarg) = text_eq (normalize_file_path sys optarg) glob
  keeps glob _ = false

  abbrev pub checks_also : Text → FlagOption → Bool
  checks_also glob (opt_check_also optarg) = text_eq (normalize_file_path sys optarg) glob
  checks_also glob _ = false

  abbrev pub mapping_files_of : List FlagOption → List Text
  mapping_files_of [] = []
  mapping_files_of (opt_mapping_file optarg ∷ options) = optarg ∷ mapping_files_of options
  mapping_files_of (_ ∷ options) = mapping_files_of options

  abbrev Gathers : CommandlineFlags → CommandlineFlags → List FlagOption → Type 0
  Gathers f f' options =
      ((glob : Text)
        → contains f'.keep glob ≡ (any_of (keeps glob) options || contains f.keep glob))
      × ((glob : Text)
          → contains f'.check_also glob
            ≡ (any_of (checks_also glob) options || contains f.check_also glob))
      × (f'.mapping_files ≡ f.mapping_files ++ mapping_files_of options)

  GathersOr : CommandlineFlags → FlagOption → Parsed → Type 0
  GathersOr f o (parsed f') = Gathers f f' (o ∷ [])
  GathersOr f o (exits _ _) = Unit
  GathersOr f o check_failed = Unit

  same-Gathers :
      (f f' : CommandlineFlags) (o : FlagOption)
      → f'.keep ≡ f.keep
      → f'.check_also ≡ f.check_also
      → f'.mapping_files ≡ f.mapping_files ++ mapping_files_of (o ∷ [])
      → ((glob : Text) → (keeps glob o || checks_also glob o) ≡ false)
      → GathersOr f o (parsed f')
  unfolding GathersOr
  same-Gathers f f' o k c m n =
      (λ glob. rw k (ground (arith, n glob)), λ glob. rw c (ground (arith, n glob)), m)

  exits-Gathers :
      (f : CommandlineFlags) (o : FlagOption) (code : ℕ) (message : Text)
      → GathersOr f o (exits code message)
  unfolding GathersOr
  exits-Gathers f o code message = tt

  parse_option-Gathers :
      (f : CommandlineFlags) (o : FlagOption) → GathersOr f o (parse_option sys f o)
  unfolding parse_option
  parse_option-Gathers f (opt_check_also optarg) =
      unfold GathersOr in
      (
        λ glob. refl,
        λ glob.
            ground (arith, contains-set_insert f.check_also (normalize_file_path sys optarg) glob),
        sym (append-nil f.mapping_files),
      )
  parse_option-Gathers f (opt_keep optarg) =
      unfold GathersOr in
      (
        λ glob. ground (arith, contains-set_insert f.keep (normalize_file_path sys optarg) glob),
        λ glob. refl,
        sym (append-nil f.mapping_files),
      )
  parse_option-Gathers f (opt_mapping_file optarg) =
      unfold GathersOr in (λ glob. refl, λ glob. refl, refl)
  parse_option-Gathers f (opt_comment_style optarg) =
      comment_style-holds (GathersOr f (opt_comment_style optarg)) f
        (λ g k c m. same-Gathers f g _ k c (m ∙ sym (append-nil f.mapping_files)) (λ glob. refl))
        (λ m. exits-Gathers f _ _ _) optarg
  parse_option-Gathers f (opt_prefix_header_includes optarg) =
      prefix_header_includes-holds (GathersOr f (opt_prefix_header_includes optarg)) f
        (λ g k c m. same-Gathers f g _ k c (m ∙ sym (append-nil f.mapping_files)) (λ glob. refl))
        (λ m. exits-Gathers f _ _ _) optarg
  parse_option-Gathers f (opt_max_line_length optarg) =
      if-holds (GathersOr f (opt_max_line_length optarg)) (is_nonnegative (atoi optarg))
        (unfold GathersOr in (λ glob. refl, λ glob. refl, sym (append-nil f.mapping_files)))
        (unfold GathersOr in tt)
  parse_option-Gathers f (opt_error (some optarg)) =
      Option-holds (GathersOr f (opt_error (some optarg)))
        (λ n. parsed (record f { exit_code_error = n })) _ (parse_integer_optarg optarg)
        (λ n. same-Gathers f _ _ refl refl (sym (append-nil f.mapping_files)) (λ glob. refl))
        (exits-Gathers f _ _ _)
  parse_option-Gathers f (opt_error_always (some optarg)) =
      Option-holds (GathersOr f (opt_error_always (some optarg)))
        (λ n. parsed (record f { exit_code_always = n })) _ (parse_integer_optarg optarg)
        (λ n. same-Gathers f _ _ refl refl (sym (append-nil f.mapping_files)) (λ glob. refl))
        (exits-Gathers f _ _ _)
  parse_option-Gathers f (opt_regex optarg) =
      Option-holds (GathersOr f (opt_regex optarg)) (λ d. parsed (record f { regex_dialect = d })) _
        (parse_regex_dialect optarg)
        (λ d. same-Gathers f _ _ refl refl (sym (append-nil f.mapping_files)) (λ glob. refl))
        (exits-Gathers f _ _ _)
  parse_option-Gathers f (opt_export_mappings dirpath) = exits-Gathers f _ _ _
  parse_option-Gathers f opt_unknown = exits-Gathers f _ _ _
  parse_option-Gathers f o =
      unfold GathersOr in (λ glob. refl, λ glob. refl, sym (append-nil f.mapping_files))

  mapping_files_of-cons :
      (o : FlagOption) (options : List FlagOption)
      → mapping_files_of (o ∷ options) ≡ mapping_files_of (o ∷ []) ++ mapping_files_of options
  mapping_files_of-cons (opt_mapping_file optarg) options = refl
  mapping_files_of-cons o options = refl

  -- One step before the others.
  step-Gathers :
      (f f₁ f' : CommandlineFlags) (o : FlagOption) (options : List FlagOption)
      → Gathers f f₁ (o ∷ [])
      → Gathers f₁ f' options
      → Gathers f f' (o ∷ options)
  step-Gathers f f₁ f' o options one rest = (
    λ glob. ground (arith, one.0 glob, rest.0 glob),
    λ glob. ground (arith, one.1 glob, rest.1 glob),
    rest.2
        ∙ ap (λ m. m ++ mapping_files_of options) one.2
        ∙ append_assoc f.mapping_files (mapping_files_of (o ∷ [])) (mapping_files_of options)
        ∙ ap (◌++◌ f.mapping_files) (sym (mapping_files_of-cons o options)),
  )

  parsed_step :
      (f f' : CommandlineFlags) (o : FlagOption) (options : List FlagOption)
      → parse_argv sys f (o ∷ options) ≡ parsed f'
      → (f₁ : CommandlineFlags) × (parse_option sys f o ≡ parsed f₁)
        × (parse_argv sys f₁ options ≡ parsed f')
  unfolding parse_argv
  parsed_step f f' o options e = by_result (parse_option sys f o) e
    where
      by_result :
          (r : Parsed)
          → (elim r [
            | parsed flags ↦ parse_argv sys flags options
            | exits code message ↦ exits code message
            | check_failed ↦ check_failed
          ])
            ≡ parsed f'
          → (f₁ : CommandlineFlags) × (r ≡ parsed f₁) × (parse_argv sys f₁ options ≡ parsed f')
      by_result (parsed f₁) e = (f₁, refl, e)
      by_result (exits code message) e = cc
      by_result check_failed e = cc

  -- If ParseArgv returns, then the globs to keep and the globs to check are the old ones and those of the
  -- options, each normalized, and the mapping files are those of the options behind the old ones.
  pub parse_argv-gathers :
      (f f' : CommandlineFlags) (options : List FlagOption)
      → parse_argv sys f options ≡ parsed f'
      → ((glob : Text)
          → contains f'.keep glob ≡ (any_of (keeps glob) options || contains f.keep glob))
        × ((glob : Text)
            → contains f'.check_also glob
              ≡ (any_of (checks_also glob) options || contains f.check_also glob))
        × (f'.mapping_files ≡ f.mapping_files ++ mapping_files_of options)
  unfolding parse_argv GathersOr
  parse_argv-gathers f f' [] e =
      subst (λ g. Gathers f g []) (parsed-eq e)
        (λ glob. refl, λ glob. refl, sym (append-nil f.mapping_files))
  parse_argv-gathers f f' (o ∷ options) e =
      let (f₁, e₁, e₂) = parsed_step f f' o options e in
      step-Gathers f f₁ f' o options (subst (GathersOr f o) e₁ (parse_option-Gathers f o))
        (parse_argv-gathers f₁ f' options e₂)
