-- ===== src/Output/Line.antt =====
-- `OneIncludeOrForwardDeclareLine` and `OutputLine` of iwyu_output.h and iwyu_output.cc: an include or a
-- forward declaration of a file, and a line of the report.
pub mod Width
use include_what_you_use.Base.{
  ℕ, zero, suc, ◌+◌, ◌-◌, Bool, true, false, not, ◌&&◌, ◌||◌, Option, none, some, List, [], ◌∷◌,
  ◌++◌, ◌==◌, ltb, if◌then◌else◌, is_empty, length, keep_if, replicate,
}
use include_what_you_use.Base.Checked.{◌>>=◌, ◌>>◌, check}
use Prim.Native.Nat.{◌/◌, ◌%◌}
use include_what_you_use.Text.{Text, text, text_eq, starts_with, ellipsize}
use include_what_you_use.Text.Order.{text_key}
use include_what_you_use.Container.{Map, map_set, get_or_default, map_contains_key}
use include_what_you_use.Output.Use.{Decl, FileEntry}

-- The line numbers are `none` where the program has -1. An include has a quoted name and perhaps a file,
-- a forward declaration its declaration.
pub record Line : Type 0 where
  pub line : Text
  pub start_linenum : Option ℕ
  pub end_linenum : Option ℕ
  pub is_desired : Bool
  pub is_present : Bool
  pub is_elaborated_type : Bool
  pub symbol_counts : Map Text ℕ
  pub quoted_include : Text
  pub included_file : Option FileEntry
  pub fwd_decl : Option Decl

-- The constructor for an include.
unfoldable pub include_line : Option FileEntry → Text → Option ℕ → Line
include_line included_file quoted_include linenum = record {
  line = text "#include " ++ quoted_include;
  start_linenum = linenum;
  end_linenum = linenum;
  is_desired = false;
  is_present = false;
  is_elaborated_type = false;
  symbol_counts = [];
  quoted_include = quoted_include;
  included_file = included_file;
  fwd_decl = none;
}

-- What Clang knows of the declarations that are lines: their text, their line numbers, the canonical
-- declaration and whether a macro declares them.
pub record DeclFacts : Type 0 where
  pub munged_forward_declare_line : Decl → Text
  pub first_line : Decl → ℕ
  pub last_line : Decl → ℕ
  pub canonical_decl : Decl → Decl
  pub is_declared_inside_macro : Decl → Bool

-- The constructors for a forward declaration, and for the type that an elaborated type declares.
unfoldable pub fwd_decl_line : DeclFacts → Decl → Line
fwd_decl_line facts decl = record {
  line = facts.munged_forward_declare_line decl;
  start_linenum = some (facts.first_line decl);
  end_linenum = some (facts.last_line decl);
  is_desired = false;
  is_present = false;
  is_elaborated_type = false;
  symbol_counts = [];
  quoted_include = [];
  included_file = none;
  fwd_decl = some decl;
}

unfoldable pub elaborated_type_line : Decl → ℕ → ℕ → Line
elaborated_type_line decl first last = record {
  line = [];
  start_linenum = some first;
  end_linenum = some last;
  is_desired = true;
  is_present = true;
  is_elaborated_type = true;
  symbol_counts = [];
  quoted_include = [];
  included_file = none;
  fwd_decl = some decl;
}

unfoldable pub is_include_line : Line → Bool
is_include_line l = starts_with l.line (text "#include")

-- `matches` on a header and on a declaration.
unfoldable pub matches_include : Text → Line → Bool
unfolding is_include_line
matches_include quoted l = is_include_line l && text_eq l.quoted_include quoted

unfoldable pub matches_decl : DeclFacts → Decl → Line → Bool
unfolding is_include_line
matches_decl facts decl l = not (is_include_line l) && elim l.fwd_decl [
  | none ↦ false
  | some d ↦ facts.canonical_decl d == facts.canonical_decl decl
]

abbrev pub set_present : Line → Line
set_present l = record l { is_present = true }

abbrev pub set_desired : Line → Line
set_desired l = record l { is_desired = true }

abbrev pub clear_desired : Line → Line
clear_desired l = record l { is_desired = false }

abbrev pub clear_line_numbers : Line → Line
clear_line_numbers l = record l { start_linenum = none; end_linenum = none }

unfoldable pub has_symbol_use : Line → Text → Bool
unfolding map_contains_key
has_symbol_use l symbol = map_contains_key l.symbol_counts symbol

unfoldable pub add_symbol_use : Line → Text → Line
unfolding map_set get_or_default
add_symbol_use l symbol = record l {
  symbol_counts = map_set l.symbol_counts symbol (get_or_default l.symbol_counts symbol 0 + 1);
}

unfoldable pub linenum_eq : Option ℕ → Option ℕ → Bool
linenum_eq none none = true
linenum_eq (some a) (some b) = a == b
linenum_eq none (some b) = false
linenum_eq (some a) none = false

unfoldable pub line_numbers_match : Line → Line → Bool
unfolding linenum_eq
line_numbers_match l that =
    linenum_eq l.start_linenum that.start_linenum && linenum_eq l.end_linenum that.end_linenum

-- `%d`, with fuel for the digits.
unfoldable pub digits : ℕ → ℕ → Text
digits zero n = []
digits (suc fuel) n =
    let front = digits fuel (n / 10) in
    if ltb n 10 then (48 + n) ∷ [] else front ++ (48 + n % 10) ∷ []

unfoldable pub print_linenum : Option ℕ → Text
unfolding digits
print_linenum none = text "-1"
print_linenum (some n) = digits (suc n) n

unfoldable pub line_number_string : Line → Text
unfolding print_linenum
line_number_string l = print_linenum l.start_linenum ++ text "-" ++ print_linenum l.end_linenum

-- A line of the report, and the symbols that its comment names.
pub record OutputLine : Type 0 where
  pub text_of : Text
  pub symbols : List Text

-- The constructor that drops the empty symbols.
unfoldable pub output_line : Text → List Text → OutputLine
output_line line symbols = record {
  text_of = line;
  symbols = keep_if (λ s. not (is_empty s)) symbols;
}

abbrev pub line_length : OutputLine → ℕ
line_length l = length l.text_of

abbrev pub needs_alignment : OutputLine → Bool
needs_alignment l = not (is_empty l.symbols)

abbrev pub add_prefix : Text → OutputLine → OutputLine
add_prefix front l = record l { text_of = front ++ l.text_of }

-- The loop over the symbols. `is_verbose` is `ShouldPrint(3)`, at which no symbol is cut.
unfoldable pub append_symbols : Bool → ℕ → Text → Text → List Text → Text
unfolding ellipsize
append_symbols is_verbose max_length result symbol_prefix [] = result
append_symbols is_verbose max_length result symbol_prefix (symbol ∷ symbols) =
    let remaining = max_length - (length result + length symbol_prefix) in
    let shown = if is_verbose then symbol else ellipsize symbol remaining in
    let rest =
      append_symbols is_verbose max_length (result ++ symbol_prefix ++ shown) (text ", ") symbols in
    if not is_verbose && is_empty shown then result else rest

unfoldable pub printable_line : Bool → ℕ → ℕ → OutputLine → Option Text
unfolding append_symbols
printable_line is_verbose min_length max_length l =
    if is_empty l.symbols then some l.text_of else (do
      check (ltb 0 max_length)
      let padding = replicate (min_length - length l.text_of) 32
      some (
          append_symbols is_verbose (max_length - 1) l.text_of (padding ++ text "  // for ")
            l.symbols))
