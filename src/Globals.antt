-- ===== src/Globals.antt =====
-- iwyu_globals.cc and iwyu_globals.h: the command line and the flags that it sets. What a call of
-- getopt_long returns is one `FlagOption`: the code of `longopts`, with the argument that the option has
-- there. A message of PrintHelp is the text under the usage.
pub mod Numbers
pub mod Argv
pub mod Parsing
pub mod Exits
pub mod Gathers
mod Tests
use include_what_you_use.Base.{
  ℕ, ◌+◌, Bool, true, false, not, ◌&&◌, ◌||◌, Option, none, some, List, [], ◌∷◌, ◌++◌,
  if◌then◌else◌, any_of, is_empty, keep_if,
}
use include_what_you_use.Base.Int.{ℤ, pos, negsuc}
use include_what_you_use.Text.{Text, text, text_eq, split}
use include_what_you_use.Text.Order.{text_key}
use include_what_you_use.Container.{Set, contains, set_insert, insert_all_into}
use include_what_you_use.PathUtil.{PathApi, normalize_file_path}
use include_what_you_use.Output.Use.{FileEntry}
use include_what_you_use.Output.Desired.{PrefixHeaderPolicy}
use include_what_you_use.Globals.Numbers.{atoi, parse_integer_optarg}
use include_what_you_use.Regex.{RegexDialect, llvm, parse_regex_dialect}
use include_what_you_use.Output.Desired.{policy_add, policy_keep, policy_remove}

pub record CommandlineFlags : Type 0 where
  pub check_also : Set Text
  pub keep : Set Text
  pub transitive_includes_only : Bool
  pub verbose : ℤ
  pub mapping_files : List Text
  pub no_internal_mappings : Bool
  pub max_line_length : ℤ
  pub prefix_header_include_policy : PrefixHeaderPolicy
  pub pch_in_code : Bool
  pub no_comments : Bool
  pub update_comments : Bool
  pub comments_with_namespace : Bool
  pub no_fwd_decls : Bool
  pub quoted_includes_first : Bool
  pub cxx17ns : Bool
  pub exit_code_error : ℤ
  pub exit_code_always : ℤ
  pub dbg_flags : Set Text
  pub exp_flags : Set Text
  pub regex_dialect : RegexDialect
  pub use_c_headers : Bool

-- The constructor; `iwyu_verbose` is the environment variable IWYU_VERBOSE.
unfoldable pub default_flags : Option Text → CommandlineFlags
unfolding atoi
default_flags iwyu_verbose = record {
  check_also = [];
  keep = text "*.moc" ∷ [];
  transitive_includes_only = false;
  verbose = elim iwyu_verbose [ none ↦ pos 1 | some value ↦ atoi value ];
  mapping_files = [];
  no_internal_mappings = false;
  max_line_length = pos 80;
  prefix_header_include_policy = policy_add;
  pch_in_code = false;
  no_comments = false;
  update_comments = false;
  comments_with_namespace = false;
  no_fwd_decls = false;
  quoted_includes_first = false;
  cxx17ns = false;
  exit_code_error = pos 0;
  exit_code_always = pos 0;
  dbg_flags = [];
  exp_flags = [];
  regex_dialect = llvm;
  use_c_headers = false;
}

pub data FlagOption : Type 0 where
  opt_check_also opt_keep opt_verbose opt_mapping_file opt_prefix_header_includes :
      Text → FlagOption
  opt_max_line_length opt_comment_style opt_debug opt_regex opt_experimental : Text → FlagOption
  opt_export_mappings : Text → FlagOption
  opt_error opt_error_always : Option Text → FlagOption
  opt_transitive_includes_only opt_no_internal_mappings opt_pch_in_code opt_no_comments : FlagOption
  opt_update_comments opt_no_fwd_decls opt_quoted_includes_first opt_cxx17ns : FlagOption
  opt_use_c_headers opt_unknown : FlagOption

-- What ParseArgv does: it returns, it ends the program with a code and a message, or a `CHECK_` fails.
pub data Parsed : Type 0 where
  parsed : CommandlineFlags → Parsed
  exits : ℕ → Text → Parsed
  check_failed : Parsed

abbrev pub fatal : Text → Parsed
fatal message = exits 1 (text "FATAL ERROR: " ++ message)

-- The elements of `Split(optarg, ",", 0)` that are not empty.
unfoldable pub split_flags : Text → List Text
unfolding split
split_flags optarg = elim (split optarg (text ",") 0) [
  | none ↦ []
  | some flags ↦ keep_if (λ f. not (is_empty f)) flags
]

abbrev pub is_nonnegative : ℤ → Bool
is_nonnegative (pos n) = true
is_nonnegative (negsuc n) = false

abbrev pub parse_comment_style : CommandlineFlags → Text → Parsed
parse_comment_style flags optarg =
    if text_eq optarg (text "none")
    then parsed (record flags { no_comments = true })
    else if text_eq optarg (text "short")
    then parsed (record flags { comments_with_namespace = false })
    else if text_eq optarg (text "long")
    then parsed (record flags { comments_with_namespace = true })
    else fatal (text "unknown comment style.")

abbrev pub parse_prefix_header_includes : CommandlineFlags → Text → Parsed
parse_prefix_header_includes flags optarg =
    if text_eq optarg (text "add")
    then parsed (record flags { prefix_header_include_policy = policy_add })
    else if text_eq optarg (text "keep")
    then parsed (record flags { prefix_header_include_policy = policy_keep })
    else if text_eq optarg (text "remove")
    then parsed (record flags { prefix_header_include_policy = policy_remove })
    else fatal (text "unknown --prefix_header_includes value.")

module _ (sys : PathApi) where
  unfoldable pub add_glob_to_report_iwyu_violations_for : CommandlineFlags → Text → CommandlineFlags
  unfolding normalize_file_path set_insert
  add_glob_to_report_iwyu_violations_for flags glob = record flags {
    check_also = set_insert flags.check_also (normalize_file_path sys glob);
  }

  unfoldable pub add_glob_to_keep_includes : CommandlineFlags → Text → CommandlineFlags
  unfolding normalize_file_path set_insert
  add_glob_to_keep_includes flags glob = record flags {
    keep = set_insert flags.keep (normalize_file_path sys glob);
  }

  -- The switch of ParseArgv.
  unfoldable pub parse_option : CommandlineFlags → FlagOption → Parsed
  unfolding add_glob_to_report_iwyu_violations_for add_glob_to_keep_includes
  parse_option flags (opt_check_also optarg) =
      parsed (add_glob_to_report_iwyu_violations_for flags optarg)
  parse_option flags (opt_keep optarg) = parsed (add_glob_to_keep_includes flags optarg)
  parse_option flags opt_transitive_includes_only =
      parsed (record flags { transitive_includes_only = true })
  parse_option flags (opt_verbose optarg) = parsed (record flags { verbose = atoi optarg })
  parse_option flags (opt_mapping_file optarg) =
      parsed (record flags { mapping_files = flags.mapping_files ++ optarg ∷ [] })
  parse_option flags opt_no_internal_mappings =
      parsed (record flags { no_internal_mappings = true })
  parse_option flags opt_no_comments = parsed (record flags { no_comments = true })
  parse_option flags opt_update_comments = parsed (record flags { update_comments = true })
  parse_option flags (opt_comment_style optarg) = parse_comment_style flags optarg
  parse_option flags opt_no_fwd_decls = parsed (record flags { no_fwd_decls = true })
  parse_option flags (opt_prefix_header_includes optarg) = parse_prefix_header_includes flags optarg
  parse_option flags opt_pch_in_code = parsed (record flags { pch_in_code = true })
  parse_option flags (opt_max_line_length optarg) =
      if is_nonnegative (atoi optarg)
      then parsed (record flags { max_line_length = atoi optarg })
      else check_failed
  parse_option flags opt_quoted_includes_first =
      parsed (record flags { quoted_includes_first = true })
  parse_option flags opt_cxx17ns = parsed (record flags { cxx17ns = true })
  parse_option flags (opt_error none) = parsed (record flags { exit_code_error = pos 1 })
  parse_option flags (opt_error (some optarg)) = elim (parse_integer_optarg optarg) [
    | some code ↦ parsed (record flags { exit_code_error = code })
    | none ↦ fatal (text "--error argument must be valid integer.")
  ]
  parse_option flags (opt_error_always none) = parsed (record flags { exit_code_always = pos 1 })
  parse_option flags (opt_error_always (some optarg)) = elim (parse_integer_optarg optarg) [
    | some code ↦ parsed (record flags { exit_code_always = code })
    | none ↦ fatal (text "--error_always argument must be valid integer.")
  ]
  parse_option flags (opt_debug optarg) =
      parsed (record flags { dbg_flags = insert_all_into (split_flags optarg) flags.dbg_flags })
  parse_option flags (opt_regex optarg) = elim (parse_regex_dialect optarg) [
    | some dialect ↦ parsed (record flags { regex_dialect = dialect })
    | none ↦ fatal (text "unsupported regex dialect.")
  ]
  parse_option flags (opt_experimental optarg) =
      parsed (record flags { exp_flags = insert_all_into (split_flags optarg) flags.exp_flags })
  parse_option flags (opt_export_mappings optarg) = exits 0 []
  parse_option flags opt_use_c_headers = parsed (record flags { use_c_headers = true })
  parse_option flags opt_unknown = fatal (text "unknown flag.")

  -- The loop of ParseArgv, over what getopt_long returns until it is done.
  unfoldable pub parse_argv : CommandlineFlags → List FlagOption → Parsed
  unfolding parse_option
  parse_argv flags [] = parsed flags
  parse_argv flags (option ∷ options) = elim (parse_option flags option) [
    | parsed flags' ↦ parse_argv flags' options
    | exits code message ↦ exits code message
    | check_failed ↦ check_failed
  ]

unfoldable pub has_debug_flag : CommandlineFlags → Text → Bool
unfolding contains
has_debug_flag flags flag = contains flags.dbg_flags flag

unfoldable pub has_experimental_flag : CommandlineFlags → Text → Bool
unfolding contains
has_experimental_flag flags flag = contains flags.exp_flags flag

-- `GlobMatchesPath` is `glob_matches_path`, on the glob and the path.
unfoldable pub should_report_iwyu_violations_for :
    (Text → Text → Bool) → CommandlineFlags → Text → Bool
should_report_iwyu_violations_for glob_matches_path flags filepath =
    any_of (λ glob. glob_matches_path glob filepath) flags.check_also

unfoldable pub should_keep_include_for : (Text → Text → Bool) → CommandlineFlags → Text → Bool
should_keep_include_for glob_matches_path flags filepath =
    if is_empty flags.keep
    then false
    else any_of (λ glob. glob_matches_path glob filepath) flags.keep

pub data CStdLib : Type 0 where
  c_none c_clang_symbols c_glibc : CStdLib

pub data CxxStdLib : Type 0 where
  cxx_none cxx_clang_symbols cxx_libstdcxx cxx_libcxx : CxxStdLib

unfoldable pub derive_c_std_lib : CommandlineFlags → CStdLib
unfolding has_experimental_flag
derive_c_std_lib flags =
    if flags.no_internal_mappings
    then c_none
    else if has_experimental_flag flags (text "clang_mappings")
    then c_clang_symbols
    else c_glibc

-- `cplusplus` is the language option of the compiler, `is_libcxx` its tool chain's standard library.
unfoldable pub derive_cxx_std_lib : CommandlineFlags → Bool → Bool → CxxStdLib
unfolding has_experimental_flag
derive_cxx_std_lib flags cplusplus is_libcxx =
    if flags.no_internal_mappings || not cplusplus
    then cxx_none
    else if has_experimental_flag flags (text "clang_mappings")
    then cxx_clang_symbols
    else if is_libcxx
    then cxx_libcxx
    else cxx_libstdcxx
