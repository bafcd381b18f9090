-- ===== src/Output/Tests.antt =====
-- A run of each theorem on a small file: x.cc uses one symbol that a.h declares.
use include_what_you_use.Base.{
  ℕ, ◌-◌, ◌≤◌, max, Bool, true, false, none, some, List, [], ◌∷◌, ◌++◌, ◌≡◌, ◌≢◌, refl, ◌↔◌, ◌⊎◌,
  inl, inr, arith, All, Elem, any_of, count_if, length, map,
}
use include_what_you_use.Text.{Text, text}
use include_what_you_use.Text.Order.{text_key}
use include_what_you_use.Container.{Map, contains}
use include_what_you_use.PathUtil.{PathApi, is_quoted_header_filename}
use include_what_you_use.Output.Use.{OneUse, HeaderSource, full, fwd_decl}
use include_what_you_use.Output.Facts.{ClangFacts, PickerFacts}
use include_what_you_use.Output.Verdict.{calculate_iwyu_for_full_use}
use include_what_you_use.Output.Verdict.Full.{calculate_iwyu_for_full_use_lem}
use include_what_you_use.Output.Line.{Line, DeclFacts, OutputLine, printable_line}
use include_what_you_use.Output.Line.Width.{printable_line-fits}
use include_what_you_use.Output.Desired.{calculate_desired_includes_and_forward_declares}
use include_what_you_use.Output.Desired.Marks.{Counts}
use include_what_you_use.Output.Desired.Wanted.{desired_lines-serve, desired_lines-once}
use include_what_you_use.Output.Desired.Surplus.{wants, wants_plainly}
use include_what_you_use.Output.Diffs.{PrintFlags, get_symbols_sorted_by_frequency}
use include_what_you_use.Output.Diffs.Frequency.{IsRanked, get_symbols_sorted_by_frequency-IsRanked}

abbrev a_header : Text
a_header = text "\"a.h\""

abbrev x_file : Text
x_file = text "\"x.cc\""

-- A full use of `A`, without headers yet.
abbrev a_use : OneUse
a_use = record {
  symbol_name = text "A";
  short_symbol_name = text "A";
  decl = some 7;
  decl_loc = 1;
  decl_file = some 2;
  decl_filepath = text "a.h";
  use_loc = 3;
  use_kind = full;
  use_flags = 0;
  comment = [];
  public_headers = [];
  canonical_headers = [];
  suggested_header = [];
  ignore_use = false;
  is_iwyu_violation = false;
}

abbrev header_source : HeaderSource
header_source = record {
  set_public_headers =
      λ u. some (record u { public_headers = a_header ∷ []; canonical_headers = a_header ∷ [] });
  quoted = λ path. some (text "\"" ++ path ++ text "\"");
  file_path = λ loc. text "x.cc";
}

-- The use once it has a header.
abbrev served_use : OneUse
served_use = record a_use { suggested_header = a_header }

abbrev sys : PathApi
sys = record {
  extension = λ path. text ".h";
  remove_dots = λ path. path;
  convert_to_slash = λ path. path;
  is_absolute = λ path. false;
  make_absolute = λ path. some path;
  append = λ dir path. dir ++ path;
  parent_path = λ path. [];
}

a_header-is_header : is_quoted_header_filename sys a_header ≡ some true
unfolding is_quoted_header_filename
a_header-is_header = refl

calculate_iwyu_for_full_use_lem_example :
    (v : OneUse) × (calculate_iwyu_for_full_use sys served_use [] x_file ≡ some v)
    × ((v.is_iwyu_violation ≡ true)
        ↔ ((contains [] a_header ≡ false) × (true ≡ true) × (x_file ≢ a_header)))
    × ((v.ignore_use ≡ true)
        ↔ ((x_file ≡ a_header) ⊎ ((contains [] a_header ≡ false) × (true ≡ false))))
calculate_iwyu_for_full_use_lem_example =
    calculate_iwyu_for_full_use_lem sys served_use [] x_file true refl refl refl refl
      a_header-is_header

-- A program in which the type 7 is declared in another file and defined nowhere.
abbrev clang : ClangFacts
clang = record {
  file_of_loc = λ loc. some 1;
  file_of_decl = λ d. some 2;
  path_of_loc = λ loc. text "x.cc";
  path_of_decl = λ d. text "a.h";
  path_of_file = λ f. text "x.cc";
  qualified_name = λ d. text "A";
  short_name = λ d. text "A";
  location = λ d. 1;
  get_location = λ d. 1;
  get_instantiation_loc = λ loc. loc;
  decl_can_be_forward_declared = λ d. true;
  as_tag_decl = λ d. some d;
  as_class_template = λ d. none;
  as_specialization = λ d. none;
  as_namespace = λ d. none;
  specialized_template = λ d. d;
  templated_decl = λ d. d;
  described_class_template = λ d. none;
  specializations = λ d. [];
  has_default_template_parameters = λ d. false;
  is_nested_class = λ d. false;
  is_declared_inside_function = λ d. false;
  tag_redecls = λ d. 7 ∷ [];
  non_tag_redecls = λ d. d ∷ [];
  tag_definition = λ d. none;
  is_complete_definition = λ d. false;
  redecls = λ d. d ∷ [];
  decl_and_previous = λ d. d ∷ [];
  is_before_in_same_file = λ a b. false;
  decl_is_before_in_same_file = λ d loc. false;
  is_before_in_translation_unit = λ a b. false;
  decls_are_in_same_class = λ d e. false;
  is_out_of_line = λ d. false;
  is_builtin_function = λ d. false;
  is_builtin_template = λ d. false;
  is_replaceable_global_allocation_function = λ d. false;
  fn_decl_has_def_arg = λ d. false;
  parent_definition = λ d. none;
  is_in_namespace = λ d ns. false;
}

abbrev picker : PickerFacts
picker = record {
  has_mapping = λ d. false;
  candidates_for_path = λ path. [];
  mapped_public_headers = λ d including path. a_header ∷ [];
}

abbrev pointer_use : OneUse
pointer_use = record a_use { use_kind = fwd_decl }

abbrev decls : DeclFacts
decls = record {
  munged_forward_declare_line = λ d. text "class A;";
  first_line = λ d. 1;
  last_line = λ d. 1;
  canonical_decl = λ d. d;
  is_declared_inside_macro = λ d. false;
}

abbrev pointer_used : OneUse
pointer_used = record pointer_use { suggested_header = [] }

desired_lines-serve_example :
    (lines' : List Line) × (calculate_desired_includes_and_forward_declares decls true
        (served_use ∷ pointer_used ∷ [])
        []
        []
        []
      ≡ some lines')
    × All
        (λ u.
          Counts u
          → contains [] u.suggested_header ≡ false
          → any_of (wants u.suggested_header) lines' ≡ true)
        (served_use ∷ pointer_used ∷ [])
desired_lines-serve_example =
    desired_lines-serve decls true [] [] (served_use ∷ pointer_used ∷ []) []
      ((λ i. inl refl), ((λ i. inr (refl, (7, refl))), tt))

desired_lines-once_example :
    (lines' : List Line) × (calculate_desired_includes_and_forward_declares decls true
        (served_use ∷ pointer_used ∷ [])
        []
        []
        []
      ≡ some lines')
    × ((h : Text) → count_if (wants_plainly [] h) lines' ≤ 1)
desired_lines-once_example =
    desired_lines-once decls true [] [] (served_use ∷ pointer_used ∷ []) []
      ((λ i. inl refl), ((λ i. inr (refl, (7, refl))), tt))

abbrev flags : PrintFlags
flags = record {
  no_comments = false;
  quoted_includes_first = false;
  update_comments = false;
  max_line_length = 80;
  should_print = λ level. true;
}

-- One line to add, and one in the file that nobody needs.
abbrev new_line : Line
new_line = record {
  line = text "#include \"a.h\"";
  start_linenum = none;
  end_linenum = none;
  is_desired = true;
  is_present = false;
  is_elaborated_type = false;
  symbol_counts = (text "A", 1) ∷ [];
  quoted_include = a_header;
  included_file = some 2;
  fwd_decl = none;
}

abbrev old_line : Line
old_line = record {
  line = text "#include \"b.h\"";
  start_linenum = some 12;
  end_linenum = some 12;
  is_desired = false;
  is_present = true;
  is_elaborated_type = false;
  symbol_counts = [];
  quoted_include = text "\"b.h\"";
  included_file = some 3;
  fwd_decl = none;
}

abbrev counts : Map Text ℕ
counts = (text "A", 1) ∷ (text "B", 3) ∷ []

get_symbols_sorted_by_frequency-IsRanked_example :
    (entries : Map Text ℕ) × (get_symbols_sorted_by_frequency counts ≡ map (λ e. e.0) entries)
    × IsRanked entries
    × ((e : Text × ℕ) → Elem e entries ↔ Elem e counts)
    × ((p : Text × ℕ → Bool) → count_if p entries ≡ count_if p counts)
get_symbols_sorted_by_frequency-IsRanked_example = get_symbols_sorted_by_frequency-IsRanked counts

most_used_first : get_symbols_sorted_by_frequency counts ≡ text "B" ∷ text "A" ∷ []
unfolding get_symbols_sorted_by_frequency
most_used_first = refl

abbrev commented : OutputLine
commented = record {
  text_of = text "#include \"a.h\"";
  symbols = text "A" ∷ text "a_long_symbol_name" ∷ [];
}

printable_line-fits_example :
    (out : Text) × (printable_line false 20 40 commented ≡ some out)
    × (length out ≤ max (length (text "#include \"a.h\"")) (40 - 1))
    × ((rest : Text) × (out ≡ text "#include \"a.h\"" ++ rest))
printable_line-fits_example = printable_line-fits 20 40 commented (omega arith)

cut_line :
    printable_line false 20 40 commented ≡ some (text "#include \"a.h\"        // for A, a_lo...")
unfolding printable_line
cut_line = refl

abbrev warned_use : OneUse
warned_use = record a_use {
  public_headers = a_header ∷ [];
  canonical_headers = a_header ∷ [];
  suggested_header = a_header;
  is_iwyu_violation = true;
}
