-- ===== src/Globals/Exits.antt =====
-- How ParseArgv ends the program.
use include_what_you_use.Base.{
  if-holds, ℕ, true, Option, none, some, List, [], ◌∷◌, ◌≡◌, refl, ◌⊎◌, inl, inr, arith, Elem,
  subst,
}
use include_what_you_use.Text.{Text, text, starts_with}
use include_what_you_use.Text.Order.{text_key}
use include_what_you_use.Text.Find.{starts_with-append}
use include_what_you_use.PathUtil.{PathApi}
use include_what_you_use.Base.Int.{ℤ}
use include_what_you_use.Regex.{parse_regex_dialect}
use include_what_you_use.Globals.Numbers.{parse_integer_optarg}
use include_what_you_use.Globals.{
  CommandlineFlags, FlagOption, Parsed, parsed, exits, check_failed, parse_option, parse_argv,
  fatal, opt_export_mappings, opt_error, opt_error_always, opt_unknown, opt_comment_style,
  opt_prefix_header_includes, opt_max_line_length, opt_regex,
}
use include_what_you_use.Globals.Parsing.{
  Option-holds, comment_style-holds, prefix_header_includes-holds,
}

module _ (sys : PathApi) where
  -- The ways in which the program may end at an option, and the same for every state of the flags.
  abbrev Same : Parsed → Parsed → Type 0
  Same (parsed _) (parsed _) = Unit
  Same (exits code message) (exits code' message') = (code ≡ code') × (message ≡ message')
  Same check_failed check_failed = Unit
  Same _ _ = ⊥

  parse_option-Same :
      (f g : CommandlineFlags) (o : FlagOption) → Same (parse_option sys f o) (parse_option sys g o)
  unfolding parse_option
  parse_option-Same f g (opt_error none) = tt
  parse_option-Same f g (opt_error (some x)) = by_code (parse_integer_optarg x)
    where
      by_code :
          (code : Option ℤ)
          → Same
              (elim code [
                | some n ↦ parsed (record f { exit_code_error = n })
                | none ↦ fatal (text "--error argument must be valid integer.")
              ])
              (elim code [
                | some n ↦ parsed (record g { exit_code_error = n })
                | none ↦ fatal (text "--error argument must be valid integer.")
              ])
      by_code none = (refl, refl)
      by_code (some n) = tt
  parse_option-Same f g o = ground arith

  parse_argv-Same :
      (f g : CommandlineFlags) (options : List FlagOption)
      → Same (parse_argv sys f options) (parse_argv sys g options)
  unfolding parse_argv
  parse_argv-Same f g [] = tt
  parse_argv-Same f g (o ∷ options) =
      by_step (λ f' g'. parse_argv-Same f' g' options) (parse_option sys f o) (parse_option sys g o)
        (parse_option-Same f g o)
    where
      next : Parsed → Parsed
      next r = elim r [
        | parsed flags ↦ parse_argv sys flags options
        | exits code message ↦ exits code message
        | check_failed ↦ check_failed
      ]

      by_step :
          ((f' g' : CommandlineFlags)
            → Same (parse_argv sys f' options) (parse_argv sys g' options))
          → (r r' : Parsed) → Same r r'
          → Same (next r) (next r')
      by_step rec (parsed f') (parsed g') _ = rec f' g'
      by_step rec (exits code message) (exits code' message') same = same
      by_step rec check_failed check_failed _ = tt
      by_step rec (parsed _) (exits _ _) h = absurd h
      by_step rec (parsed _) check_failed h = absurd h
      by_step rec (exits _ _) (parsed _) h = absurd h
      by_step rec (exits _ _) check_failed h = absurd h
      by_step rec check_failed (parsed _) h = absurd h
      by_step rec check_failed (exits _ _) h = absurd h

  -- Which way out an option is: the end of the program at an export, or a refusal.
  abbrev Ends : List FlagOption → ℕ → Text → Type 0
  Ends options code message =
      ((code ≡ 0) × (dirpath : Text) × Elem (opt_export_mappings dirpath) options)
      ⊎ ((code ≡ 1) × (starts_with message (text "FATAL ERROR: ") ≡ true))

  EndsOr : List FlagOption → Parsed → Type 0
  EndsOr options (exits code message) = Ends options code message
  EndsOr options (parsed _) = Unit
  EndsOr options check_failed = Unit

  parsed-Ends : (options : List FlagOption) (f : CommandlineFlags) → EndsOr options (parsed f)
  unfolding EndsOr
  parsed-Ends options f = tt

  failed-Ends : (options : List FlagOption) → EndsOr options check_failed
  unfolding EndsOr
  failed-Ends options = tt

  fatal-Ends : (options : List FlagOption) (message : Text) → EndsOr options (fatal message)
  unfolding EndsOr
  fatal-Ends options message = inr (refl, starts_with-append (text "FATAL ERROR: ") message)

  parse_option-Ends :
      (f : CommandlineFlags) (o : FlagOption) → EndsOr (o ∷ []) (parse_option sys f o)
  unfolding parse_option
  parse_option-Ends f (opt_export_mappings dirpath) = unfold EndsOr in inl (refl, dirpath, inl refl)
  parse_option-Ends f opt_unknown = fatal-Ends _ _
  parse_option-Ends f (opt_comment_style optarg) =
      comment_style-holds (EndsOr (opt_comment_style optarg ∷ [])) f (λ g k c m. parsed-Ends _ g)
        (λ m. fatal-Ends _ m) optarg
  parse_option-Ends f (opt_prefix_header_includes optarg) =
      prefix_header_includes-holds (EndsOr (opt_prefix_header_includes optarg ∷ [])) f
        (λ g k c m. parsed-Ends _ g) (λ m. fatal-Ends _ m) optarg
  parse_option-Ends f (opt_max_line_length optarg) =
      if-holds (EndsOr _) _ (parsed-Ends _ _) (failed-Ends _)
  parse_option-Ends f (opt_error none) = parsed-Ends _ _
  parse_option-Ends f (opt_error (some optarg)) =
      Option-holds (EndsOr _) (λ n. parsed (record f { exit_code_error = n })) _
        (parse_integer_optarg optarg) (λ n. parsed-Ends _ _) (fatal-Ends _ _)
  parse_option-Ends f (opt_error_always none) = parsed-Ends _ _
  parse_option-Ends f (opt_error_always (some optarg)) =
      Option-holds (EndsOr _) (λ n. parsed (record f { exit_code_always = n })) _
        (parse_integer_optarg optarg) (λ n. parsed-Ends _ _) (fatal-Ends _ _)
  parse_option-Ends f (opt_regex optarg) =
      Option-holds (EndsOr _) (λ d. parsed (record f { regex_dialect = d })) _
        (parse_regex_dialect optarg) (λ d. parsed-Ends _ _) (fatal-Ends _ _)
  parse_option-Ends f o = unfold EndsOr in tt

  exits-Ends :
      (f : CommandlineFlags) (options : List FlagOption) (code : ℕ) (message : Text)
      → parse_argv sys f options ≡ exits code message
      → Ends options code message
  unfolding parse_argv EndsOr
  exits-Ends f [] code message e = cc
  exits-Ends f (o ∷ options) code message e =
      by_result (λ g h. exits-Ends g options code message h) (parse_option sys f o)
        (parse_option-Ends f o) e
    where
      by_result :
          ((g : CommandlineFlags)
            → parse_argv sys g options ≡ exits code message
            → Ends options code message)
          → (r : Parsed) → EndsOr (o ∷ []) r
          → (elim r [
            | parsed flags ↦ parse_argv sys flags options
            | exits code' message' ↦ exits code' message'
            | check_failed ↦ check_failed
          ])
            ≡ exits code message
          → Ends (o ∷ options) code message
      by_result rec (parsed g) ends e = elim (rec g e) [
        | inl (zero_code, dirpath, m) ↦ inl (zero_code, dirpath, inr m)
        | inr refused ↦ inr refused
      ]
      by_result rec (exits code' message') (inl (zero_code, dirpath, m)) e =
          inl (
            ground (arith, e, zero_code),
            dirpath,
            elim m [ inl here ↦ inl here | inr h ↦ absurd h ],
          )
      by_result rec (exits code' message') (inr (one_code, fatal_error)) e = inr (
        ground (arith, e, one_code),
        let same : message' ≡ message = cc in
            subst (λ m. starts_with m (text "FATAL ERROR: ") ≡ true) same fatal_error,
      )
      by_result rec check_failed ends e = cc

  -- If ParseArgv ends the program, then with code 0 at an option that exports the mappings, or with code 1
  -- and a message that starts with `FATAL ERROR: `, and it ends in the same way whatever the flags were before.
  pub parse_argv-exits :
      (f : CommandlineFlags) (options : List FlagOption) (code : ℕ) (message : Text)
      → parse_argv sys f options ≡ exits code message
      → (((code ≡ 0) × (dirpath : Text) × Elem (opt_export_mappings dirpath) options)
          ⊎ ((code ≡ 1) × (starts_with message (text "FATAL ERROR: ") ≡ true)))
        × ((g : CommandlineFlags) → parse_argv sys g options ≡ exits code message)
  parse_argv-exits f options code message e = (
    exits-Ends f options code message e,
    λ g.
        from_same (parse_argv sys g options)
          (subst (λ r. Same r (parse_argv sys g options)) e (parse_argv-Same f g options)),
  )
    where
      from_same : (r : Parsed) → Same (exits code message) r → r ≡ exits code message
      from_same (exits code' message') same = ground (arith, same)
      from_same (parsed _) h = absurd h
      from_same check_failed h = absurd h
