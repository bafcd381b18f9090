-- ===== src/Output/FileInfo.antt =====
-- `IwyuFileInfo` of iwyu_output.h and iwyu_output.cc: what is known of one file, and the functions that
-- record its lines and uses.
pub mod Violations
pub mod Kind
pub mod Judged
use include_what_you_use.Base.{
  ℕ, ◌+◌, Bool, true, false, not, ◌&&◌, ◌||◌, Option, none, some, List, [], ◌∷◌, ◌++◌, ◌==◌, any_of,
  is_empty, map, if◌then◌else◌,
}
use include_what_you_use.Base.Checked.{◌>>=◌, ◌>>◌, check}
use include_what_you_use.Text.{Text, text}
use include_what_you_use.Text.Order.{text_key}
use include_what_you_use.Container.{Set, contains, set_insert, insert_all_into, union}
use include_what_you_use.PathUtil.{PathApi, is_quoted_include, is_quoted_header_filename}
use include_what_you_use.Output.Use.{
  OneUse, Decl, FileEntry, SourceLocation, UseKind, full, fwd_decl, HeaderSource, is_full_use,
}
use include_what_you_use.Output.Facts.{
  ClangFacts, PreprocessorFacts, PickerFacts, OutputFlags, has_flag, uf_redecl_use, file_eq,
  is_some,
}
use include_what_you_use.Output.Minimal.{calculate_minimal_includes}
use include_what_you_use.Output.Process.{
  process_forward_declare, process_full_use, process_symbol_use,
}
use include_what_you_use.Output.Verdict.{
  calculate_iwyu_for_full_use, calculate_iwyu_for_forward_declare_use,
}
use include_what_you_use.Output.Line.{
  Line, DeclFacts, include_line, fwd_decl_line, elaborated_type_line, line_numbers_match,
  set_present, set_desired,
}
use include_what_you_use.Output.Desired.{
  contains_file, PrefixHeaderPolicy, calculate_desired_includes_and_forward_declares,
  clear_inhibited, cleanup_prefix_header_includes,
}
use include_what_you_use.Output.Diffs.{PrintFlags, printable_diffs}

-- An associated header, as its own analysis left it: `desired_includes` is `none` before that.
pub record Associated : Type 0 where
  pub file : Option FileEntry
  pub quoted_file : Text
  pub direct_includes : Set Text
  pub desired_includes : Option (Set Text)

pub record FileInfo : Type 0 where
  pub file : Option FileEntry
  pub quoted_file : Text
  pub is_prefix_header : Bool
  pub is_pch_in_code : Bool
  pub associated_headers : List Associated
  pub symbol_uses : List OneUse
  pub lines : List Line
  pub using_decl_referenced : List (Decl × Bool)
  pub direct_includes : Set Text
  pub direct_includes_as_fileentries : List (Option FileEntry)
  pub direct_forward_declares : List Decl
  pub kept_includes : List (Option FileEntry)
  pub macro_users : List (Option FileEntry)
  pub desired_includes : Option (Set Text)

abbrev pub insert_file : List (Option FileEntry) → Option FileEntry → List (Option FileEntry)
insert_file files file = if contains_file files file then files else file ∷ files

abbrev pub insert_decl : List Decl → Decl → List Decl
insert_decl decls decl = if any_of (λ d. d == decl) decls then decls else decl ∷ decls

unfoldable pub add_associated_header : FileInfo → Associated → FileInfo
add_associated_header info other = record info {
  associated_headers = info.associated_headers ++ other ∷ [];
}

-- An include on a line that has one already is ignored.
unfoldable pub add_include : FileInfo → Option FileEntry → Text → ℕ → FileInfo
unfolding include_line line_numbers_match set_insert
add_include info includee quoted_includee linenumber =
    let new_include = set_present (include_line includee quoted_includee (some linenumber)) in
    if any_of (λ l. line_numbers_match l new_include) info.lines then info else record info {
      lines = info.lines ++ new_include ∷ [];
      direct_includes_as_fileentries = insert_file info.direct_includes_as_fileentries includee;
      direct_includes = set_insert info.direct_includes quoted_includee;
    }

module _ (decls : DeclFacts) where
  unfoldable pub add_forward_declare : FileInfo → Decl → Bool → FileInfo
  unfolding fwd_decl_line
  add_forward_declare info decl definitely_keep_fwd_decl =
      let line = set_present (fwd_decl_line decls decl) in
      record info {
        lines = info.lines ++ (if definitely_keep_fwd_decl then set_desired line else line) ∷ [];
        direct_forward_declares = insert_decl info.direct_forward_declares decl;
      }

  -- The type that an elaborated type declares, where `is_tag_owned` says that it owns it.
  unfoldable pub add_owning_tag_type : FileInfo → Decl → Bool → FileInfo
  unfolding elaborated_type_line
  add_owning_tag_type info decl is_tag_owned =
      if is_tag_owned
      then record info {
        lines =
            info.lines
            ++ elaborated_type_line decl (decls.first_line decl) (decls.last_line decl) ∷ [];
      }
      else info

unfoldable pub add_using_decl : FileInfo → Decl → FileInfo
add_using_decl info using_decl =
    if any_of (λ e. e.0 == using_decl) info.using_decl_referenced
    then info
    else record info { using_decl_referenced = (using_decl, false) ∷ info.using_decl_referenced }

-- A use whose suggested header is known: the constructor for the use of an include file.
unfoldable pub include_file_use : Text → Option FileEntry → Text → SourceLocation → Option OneUse
unfolding is_quoted_include
include_file_use path included_file quoted_include include_loc = do
  check (is_quoted_include quoted_include)
  some (record {
    symbol_name = [];
    short_symbol_name = [];
    decl = none;
    decl_loc = 0;
    decl_file = included_file;
    decl_filepath = path;
    use_loc = include_loc;
    use_kind = full;
    use_flags = 0;
    comment = [];
    public_headers = [];
    canonical_headers = [];
    suggested_header = quoted_include;
    ignore_use = false;
    is_iwyu_violation = false;
  })

unfoldable pub report_known_desired_file : FileInfo → Option FileEntry → FileInfo
report_known_desired_file info included_file = record info {
  kept_includes = insert_file info.kept_includes included_file;
}

unfoldable pub report_defined_macro_use : FileInfo → Option FileEntry → FileInfo
report_defined_macro_use info used_in = record info {
  macro_users = insert_file info.macro_users used_in;
}
