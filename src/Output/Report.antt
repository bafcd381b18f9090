-- ===== src/Output/Report.antt =====
-- The Report functions of `IwyuFileInfo` in iwyu_output.cc, which record the uses of a file, with the
-- constructors of `OneUse`, and the warnings on the uses that are violations.
use include_what_you_use.Base.{
  ℕ, Bool, false, not, ◌&&◌, ◌||◌, Option, none, some, List, [], ◌∷◌, ◌++◌, ◌==◌, ltb, map, length,
  if◌then◌else◌, is_empty,
}
use include_what_you_use.Base.Checked.{◌>>=◌, ◌>>◌, check}
use include_what_you_use.Text.{Text, text, text_eq, text_less}
use include_what_you_use.PathUtil.{is_quoted_include}
use include_what_you_use.Output.Use.{
  OneUse, Decl, FileEntry, SourceLocation, UseKind, full, fwd_decl, is_full_use,
}
use include_what_you_use.Output.Facts.{ClangFacts, has_flag, is_some, uf_redecl_use}
use include_what_you_use.Output.FileInfo.{FileInfo, include_file_use}

abbrev pub uf_none : ℕ
uf_none = 0

abbrev pub uf_explicit_instantiation : ℕ
uf_explicit_instantiation = 4

abbrev pub uf_default_argument : ℕ
uf_default_argument = 16

-- Further functions of iwyu_ast_util.cc: the definition as it is written, the redeclaration of a class
-- that is no friend, and of a using declaration its location and the target of its first shadow.
pub record ReportFacts : Type 0 where
  pub definition_as_written : Decl → Decl
  pub nonfriend_class_redecl : Decl → Decl
  pub using_loc : Decl → SourceLocation
  pub first_shadow_target : Decl → Option Decl

unfoldable pub add_use : FileInfo → OneUse → FileInfo
add_use info u = record info { symbol_uses = info.symbol_uses ++ u ∷ [] }

-- `path_of_file` is `GetFilePath`.
module _ (path_of_file : Option FileEntry → Text) where
  -- The constructor for the full use of a symbol by its name.
  unfoldable pub symbol_use : Text → Option FileEntry → SourceLocation → Option OneUse
  unfolding is_quoted_include
  symbol_use symbol dfn_file use_loc = do
    check (is_some dfn_file)
    check (not (is_empty (path_of_file dfn_file)))
    check (not (is_quoted_include (path_of_file dfn_file)))
    some (record {
      symbol_name = symbol;
      short_symbol_name = symbol;
      decl = none;
      decl_loc = 0;
      decl_file = dfn_file;
      decl_filepath = path_of_file dfn_file;
      use_loc = use_loc;
      use_kind = full;
      use_flags = uf_none;
      comment = [];
      public_headers = [];
      canonical_headers = [];
      suggested_header = [];
      ignore_use = false;
      is_iwyu_violation = false;
    })

  unfoldable pub report_symbol_use_by_name :
      FileInfo → SourceLocation → Option FileEntry → Text → Option FileInfo
  unfolding symbol_use add_use
  report_symbol_use_by_name info use_loc dfn_file symbol = do
    u ← symbol_use symbol dfn_file use_loc
    some (add_use info u)

  unfoldable pub report_include_file_use :
      FileInfo → Option FileEntry → Text → SourceLocation → Option FileInfo
  unfolding include_file_use add_use
  report_include_file_use info included_file quoted_include include_loc = do
    u ← include_file_use (path_of_file included_file) included_file quoted_include include_loc
    some (add_use info u)

  -- `file_of_loc` is `GetFileEntry`.
  unfoldable pub report_macro_use :
      (SourceLocation → Option FileEntry)
      → FileInfo
      → SourceLocation
      → SourceLocation
      → Text
      → Option FileInfo
  unfolding symbol_use add_use
  report_macro_use file_of_loc info use_loc dfn_loc symbol = do
    u ← symbol_use symbol (file_of_loc dfn_loc) use_loc
    some (add_use info u)

module _ (c : ClangFacts) where
  -- The constructor for the use of a declaration.
  unfoldable pub decl_use : Decl → SourceLocation → SourceLocation → UseKind → ℕ → Text → OneUse
  decl_use decl use_loc decl_loc use_kind flags comment_text =
      let loc = c.get_instantiation_loc decl_loc in
      record {
        symbol_name = c.qualified_name decl;
        short_symbol_name = c.short_name decl;
        decl = some decl;
        decl_loc = loc;
        decl_file = c.file_of_loc loc;
        decl_filepath = c.path_of_file (c.file_of_loc loc);
        use_loc = use_loc;
        use_kind = use_kind;
        use_flags = flags;
        comment = comment_text;
        public_headers = [];
        canonical_headers = [];
        suggested_header = [];
        ignore_use = false;
        is_iwyu_violation = false;
      }

  module _ (r : ReportFacts) where
    unfoldable pub report_full_symbol_use :
        FileInfo → SourceLocation → Option Decl → ℕ → Text → FileInfo
    unfolding decl_use add_use
    report_full_symbol_use info use_loc none flags comment_text = info
    report_full_symbol_use info use_loc (some decl) flags comment_text =
        let as_it_is =
          has_flag flags uf_redecl_use
          || has_flag flags uf_explicit_instantiation
          || has_flag flags uf_default_argument in
        let report_decl = if as_it_is then decl else r.definition_as_written decl in
        let report_decl_loc = if as_it_is then c.location decl else c.get_location report_decl in
        add_use info (decl_use report_decl use_loc report_decl_loc full flags comment_text)

    unfoldable pub report_forward_declare_use :
        FileInfo → SourceLocation → Option Decl → ℕ → Text → FileInfo
    unfolding decl_use add_use
    report_forward_declare_use info use_loc none flags comment_text = info
    report_forward_declare_use info use_loc (some decl) flags comment_text =
        let redecl = r.nonfriend_class_redecl decl in
        add_use info (decl_use redecl use_loc (c.get_location redecl) fwd_decl flags comment_text)

    -- A using declaration of this file is marked as referenced.
    unfoldable pub report_using_decl_use : FileInfo → SourceLocation → Decl → ℕ → Text → FileInfo
    unfolding report_full_symbol_use
    report_using_decl_use info use_loc using_decl flags comment_text =
        report_full_symbol_use
          (record info {
            using_decl_referenced =
                map (λ e. (e.0, e.1 || (e.0 == using_decl))) info.using_decl_referenced;
          })
          use_loc (some using_decl) flags comment_text

    -- The loop of ResolvePendingAnalysis.
    unfoldable pub resolve_usings : List (Decl × Bool) → FileInfo → FileInfo
    unfolding report_forward_declare_use
    resolve_usings [] info = info
    resolve_usings ((using_decl, referenced) ∷ usings) info = resolve_usings usings (
        if referenced then info else elim (r.first_shadow_target using_decl) [
          | none ↦ info
          | some target ↦
              report_forward_declare_use info (r.using_loc using_decl) (some target) uf_none
                (text "(for un-referenced using)")
        ])

    unfoldable pub resolve_pending_analysis : FileInfo → FileInfo
    unfolding resolve_usings
    resolve_pending_analysis info = resolve_usings info.using_decl_referenced info

-- The spelling location of a location, its line number, and how it is printed.
pub record WarningFacts : Type 0 where
  pub spelling_loc : SourceLocation → SourceLocation
  pub instantiation_loc : SourceLocation → SourceLocation
  pub line_number : SourceLocation → ℕ
  pub printable_loc : SourceLocation → Text

-- The set of pairs of a line number and a message, in its order.
unfoldable pub insert_warning : List (ℕ × Text) → ℕ × Text → List (ℕ × Text)
unfolding text_eq text_less
insert_warning [] w = w ∷ []
insert_warning (v ∷ warnings) w =
    let later = insert_warning warnings w in
    if (v.0 == w.0) && text_eq v.1 w.1
    then v ∷ warnings
    else if ltb w.0 v.0 || ((v.0 == w.0) && text_less w.1 v.1)
    then w ∷ v ∷ warnings
    else v ∷ later

module _ (w : WarningFacts) where
  unfoldable pub get_warning_msg : OneUse → Text
  get_warning_msg u =
      let spelling = w.spelling_loc u.use_loc in
      let instantiation = w.instantiation_loc u.use_loc in
      w.printable_loc spelling
      ++ (text ": warning: "
          ++ ((if is_full_use u
                then u.symbol_name
                  ++ (text " is defined in "
                      ++ (u.suggested_header ++ text ", which isn't directly #included"))
                else u.symbol_name
                  ++ text " needs a declaration, but does not provide or directly #include one")
              ++ ((if is_empty u.comment then [] else b' ' ∷ u.comment)
                  ++ (text ".\n"
                      ++ (if instantiation == spelling
                          then []
                          else w.printable_loc instantiation ++ text ": note: used here.\n")))))

  -- The warnings in the order in which EmitWarningMessages prints them; it returns their number.
  unfoldable pub warnings_of : List OneUse → List (ℕ × Text) → List (ℕ × Text)
  unfolding get_warning_msg insert_warning
  warnings_of [] warnings = warnings
  warnings_of (u ∷ uses) warnings = warnings_of uses (
      if u.is_iwyu_violation
      then insert_warning warnings (w.line_number u.use_loc, get_warning_msg u)
      else warnings)

  unfoldable pub emit_warning_messages : List OneUse → ℕ
  unfolding warnings_of
  emit_warning_messages uses = length (warnings_of uses [])
