-- ===== src/Output/Facts.antt =====
-- What the passes over the uses ask Clang's AST and the preprocessor's records. The functions of
-- iwyu_ast_util.cc and iwyu_location_util.cc read Clang's data only, and are fields here.
use include_what_you_use.Base.{
  ℕ, Bool, true, false, not, ◌&&◌, ◌||◌, Option, none, some, List, ◌==◌,
}
use include_what_you_use.Base.Checked.{◌>>◌, check}
use Prim.Native.Nat.{◌/◌, ◌%◌}
use include_what_you_use.Text.{Text}
use include_what_you_use.Container.{Set}
use include_what_you_use.Output.Use.{OneUse, Decl, FileEntry, SourceLocation}

pub record ClangFacts : Type 0 where
  pub file_of_loc : SourceLocation → Option FileEntry
  pub file_of_decl : Decl → Option FileEntry
  pub path_of_loc : SourceLocation → Text
  pub path_of_decl : Decl → Text
  pub path_of_file : Option FileEntry → Text
  pub qualified_name : Decl → Text
  pub short_name : Decl → Text
  pub location : Decl → SourceLocation
  pub get_location : Decl → SourceLocation
  pub get_instantiation_loc : SourceLocation → SourceLocation
  pub decl_can_be_forward_declared : Decl → Bool
  pub as_tag_decl : Decl → Option Decl
  pub as_class_template : Decl → Option Decl
  pub as_specialization : Decl → Option Decl
  pub as_namespace : Decl → Option Decl
  pub specialized_template : Decl → Decl
  pub templated_decl : Decl → Decl
  pub described_class_template : Decl → Option Decl
  pub specializations : Decl → List Decl
  pub has_default_template_parameters : Decl → Bool
  pub is_nested_class : Option Decl → Bool
  pub is_declared_inside_function : Option Decl → Bool
  pub tag_redecls : Option Decl → Set Decl
  pub non_tag_redecls : Decl → Set Decl
  pub tag_definition : Decl → Option Decl
  pub is_complete_definition : Decl → Bool
  pub redecls : Decl → List Decl
  pub decl_and_previous : Decl → List Decl
  pub is_before_in_same_file : SourceLocation → SourceLocation → Bool
  pub decl_is_before_in_same_file : Decl → SourceLocation → Bool
  pub is_before_in_translation_unit : SourceLocation → SourceLocation → Bool
  pub decls_are_in_same_class : Decl → Option Decl → Bool
  pub is_out_of_line : Decl → Bool
  pub is_builtin_function : Decl → Bool
  pub is_builtin_template : Decl → Bool
  pub is_replaceable_global_allocation_function : Decl → Bool
  pub fn_decl_has_def_arg : Decl → Bool
  pub parent_definition : Decl → Option Decl
  pub is_in_namespace : Decl → Decl → Bool

pub record PreprocessorFacts : Type 0 where
  pub forward_declare_is_inhibited : Option FileEntry → Text → Bool
  pub forward_declare_is_exported : Decl → Bool
  pub file_transitively_includes : Option FileEntry → Option FileEntry → Bool
  pub quoted_transitively_includes : Text → Option FileEntry → Bool
  pub file_transitively_includes_quoted : Option FileEntry → Text → Bool

-- The include picker's answers for a path and a declaration; `candidates_for_path` are the quoted forms.
pub record PickerFacts : Type 0 where
  pub has_mapping : Decl → Bool
  pub candidates_for_path : Text → List Text
  pub mapped_public_headers : Decl → Text → Text → List Text

-- The command line flags that these passes read.
pub record OutputFlags : Type 0 where
  pub no_fwd_decls : Bool
  pub transitive_includes_only : Bool

abbrev pub uf_in_cxx_method_body : ℕ
uf_in_cxx_method_body = 1

abbrev pub uf_redecl_use : ℕ
uf_redecl_use = 2

abbrev pub uf_instantiation_pattern : ℕ
uf_instantiation_pattern = 8

-- `flags & flag`, for a flag that is a power of two.
abbrev pub has_flag : ℕ → ℕ → Bool
has_flag flags flag = (flags / flag) % 2 == 1

abbrev pub file_eq : Option FileEntry → Option FileEntry → Bool
file_eq none none = true
file_eq (some a) (some b) = a == b
file_eq none (some b) = false
file_eq (some a) none = false

abbrev pub is_some : {A : Type 0} → Option A → Bool
is_some none = false
is_some (some a) = true

module _ (c : ClangFacts) where
  -- `reset_decl`: the location of the declaration stays what it was.
  unfoldable pub reset_decl : OneUse → Decl → Option OneUse
  reset_decl u decl = do
    check (is_some u.decl)
    some (record u {
      decl = some decl;
      decl_file = c.file_of_decl decl;
      decl_filepath = c.path_of_decl decl;
      symbol_name = c.qualified_name decl;
      short_symbol_name = c.short_name decl;
    })

  unfoldable pub same_class_decl_used_in_method : Decl → OneUse → Bool
  same_class_decl_used_in_method decl u =
      c.decls_are_in_same_class decl u.decl
      && not (c.is_out_of_line decl)
      && has_flag u.use_flags uf_in_cxx_method_body

  unfoldable pub decl_is_visible_to_use_in_same_file : Decl → OneUse → Bool
  unfolding same_class_decl_used_in_method
  decl_is_visible_to_use_in_same_file decl u =
      file_eq (c.file_of_decl decl) (c.file_of_loc u.use_loc)
      && (c.decl_is_before_in_same_file decl u.use_loc
          || c.get_location decl == u.use_loc
          || same_class_decl_used_in_method decl u)

  -- `tpl_decl` and `tag_decl`: the class template of a declaration, and its tag declaration.
  unfoldable pub template_of : Decl → Option Decl
  template_of decl = elim (c.as_specialization decl) [
    | some spec ↦ some (c.specialized_template spec)
    | none ↦ c.as_class_template decl
  ]

  unfoldable pub tag_of : Decl → Option Decl
  unfolding template_of
  tag_of decl = elim (template_of decl) [
    | some tpl ↦ some (c.templated_decl tpl)
    | none ↦ c.as_tag_decl decl
  ]

  -- `tpl_decl && HasDefaultTemplateParameters(tpl_decl)`.
  unfoldable pub has_default_args : Option Decl → Bool
  has_default_args none = false
  has_default_args (some tpl) = c.has_default_template_parameters tpl
