-- ===== src/Globals/Tests.antt =====
-- A run of each theorem on a short command line.
use include_what_you_use.Base.{
  ℕ, ◌+◌, true, ◌||◌, none, some, List, [], ◌∷◌, ◌++◌, ◌≡◌, refl, ◌⊎◌, Elem, any_of, leb,
  if◌then◌else◌,
}
use include_what_you_use.Base.Int.{pos, neg}
use include_what_you_use.Text.{Text, text, text_eq, text_less, starts_with}
use include_what_you_use.Text.Order.{text_key}
use include_what_you_use.Container.{contains, set_insert}
use include_what_you_use.PathUtil.{normalize_file_path}
use include_what_you_use.Globals.{
  CommandlineFlags, FlagOption, opt_keep, opt_check_also, opt_mapping_file, opt_no_comments,
  opt_comment_style, opt_export_mappings, default_flags, parsed, exits, parse_option, parse_argv,
  add_glob_to_keep_includes, add_glob_to_report_iwyu_violations_for,
}
use include_what_you_use.Output.Line.{digits}
use include_what_you_use.Globals.Numbers.{parse_integer_optarg, int_max}
use include_what_you_use.Globals.Numbers.Decimal.{parse_integer_optarg-digits}
use include_what_you_use.Globals.Argv.{split_argv}
use include_what_you_use.Globals.Argv.Parts.{Splits, split_argv-Splits}
use include_what_you_use.Globals.Exits.{parse_argv-exits}
use include_what_you_use.Globals.Gathers.{parse_argv-gathers, keeps, checks_also, mapping_files_of}
use include_what_you_use.Samples.{sys}

parse_integer_optarg-digits_example :
    (parse_integer_optarg (digits 2147483649 2147483648)
      ≡ (if leb 2147483648 int_max then some (pos 2147483648) else none))
    × (parse_integer_optarg (b'-' ∷ digits 2147483649 2147483648)
        ≡ (if leb 2147483648 (int_max + 1) then some (neg 2147483648) else none))
parse_integer_optarg-digits_example = parse_integer_optarg-digits 2147483648

abbrev words : List Text
words = text "-Xiwyu" ∷ text "--no_comments" ∷ text "--help" ∷ text "a.cc" ∷ text "-Xiwyu" ∷ []

split_argv-Splits_example : Splits words (split_argv words)
split_argv-Splits_example = split_argv-Splits words

abbrev options : List FlagOption
options = opt_keep (text "k") ∷ opt_mapping_file (text "m") ∷ opt_check_also (text "c") ∷ []

abbrev gathered : CommandlineFlags
gathered = record (default_flags none) {
  keep = text "*.moc" ∷ text "k" ∷ [];
  mapping_files = text "m" ∷ [];
  check_also = text "c" ∷ [];
}

options-parsed : parse_argv sys (default_flags none) options ≡ parsed gathered
unfolding parse_argv parse_option default_flags add_glob_to_keep_includes
    add_glob_to_report_iwyu_violations_for set_insert normalize_file_path text_eq text_less
options-parsed = refl

parse_argv-gathers_example :
    ((glob : Text)
      → contains gathered.keep glob
        ≡ (any_of (keeps sys glob) options || contains (default_flags none).keep glob))
    × ((glob : Text)
        → contains gathered.check_also glob ≡ (
            any_of (checks_also sys glob) options || contains (default_flags none).check_also glob))
    × (gathered.mapping_files ≡ (default_flags none).mapping_files ++ mapping_files_of sys options)
parse_argv-gathers_example =
    parse_argv-gathers sys (default_flags none) gathered options options-parsed

abbrev bad_options : List FlagOption
bad_options =
    opt_no_comments ∷ opt_comment_style (text "tall") ∷ opt_export_mappings (text "d") ∷ []

bad_options-exits :
    parse_argv sys (default_flags none) bad_options
    ≡ exits 1 (text "FATAL ERROR: unknown comment style.")
unfolding parse_argv parse_option default_flags text_eq
bad_options-exits = refl

abbrev exit_code : ℕ
exit_code = 1

parse_argv-exits_example :
    (((exit_code ≡ 0) × (dirpath : Text) × Elem (opt_export_mappings dirpath) bad_options)
      ⊎ ((exit_code ≡ 1)
          × (starts_with (text "FATAL ERROR: unknown comment style.") (text "FATAL ERROR: ")
              ≡ true)))
    × ((g : CommandlineFlags)
        → parse_argv sys g bad_options ≡ exits 1 (text "FATAL ERROR: unknown comment style."))
parse_argv-exits_example =
    parse_argv-exits sys (default_flags none) bad_options 1
      (text "FATAL ERROR: unknown comment style.") bad_options-exits
