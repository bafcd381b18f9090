-- ===== src/Output/Forward.antt =====
-- The text of a forward declaration in iwyu_output.cc, and what can be declared forward. What Clang says of a
-- declaration is its record: its kind with what is printed for it, its name, and the declarations around it.
mod Tests
use include_what_you_use.Base.{
  Bool, true, false, not, ◌&&◌, Option, none, some, List, [], ◌∷◌, ◌++◌, ◌≡◌, refl, take, is_empty,
  if◌then◌else◌,
}
use include_what_you_use.Base.Checked.{◌>>=◌, ◌>>◌, check}
use include_what_you_use.Text.{Text, text}
use include_what_you_use.PathUtil.{rfind}

-- A declaration around another one; a namespace without a name is anonymous.
pub data Context : Type 0 where
  in_record in_function : Text → Context
  in_namespace : Option Text → Context
  in_other : Context

-- A tag with its kind name, or a template with the line that Clang prints for it, which may be one of a class.
pub data DeclKind : Type 0 where
  tag_decl : Text → DeclKind
  template_decl : Bool → Text → DeclKind
  other_decl : DeclKind

-- `underlying_type` is that of an enumeration, as it is printed, and the contexts go outwards.
pub record DeclShape : Type 0 where
  pub decl_kind : DeclKind
  pub name : Text
  pub underlying_type : Text
  pub contexts : List Context
  pub is_in_anonymous_namespace : Bool
  pub is_in_inline_namespace : Bool

-- One namespace in the syntax of C++17, and in the old one.
abbrev pub concat_namespace : Text → Bool → Bool → Text → Text
concat_namespace ns_name is_first is_outermost fwd_decl =
    let prefix = if is_first then ns_name ++ text " { " else ns_name in
    if is_outermost
    then text "namespace " ++ (prefix ++ (fwd_decl ++ text " }"))
    else text "::" ++ (prefix ++ fwd_decl)

abbrev pub wrap_namespace : Option Text → Text → Text
wrap_namespace none fwd_decl = text "namespace { " ++ (fwd_decl ++ text " }")
wrap_namespace (some ns_name) fwd_decl =
    text "namespace " ++ (ns_name ++ (text " { " ++ (fwd_decl ++ text " }")))

abbrev pub name_of : Option Text → Text
name_of none = []
name_of (some ns_name) = ns_name

-- The loop over the contexts.
unfoldable pub wrap_contexts : Text → Bool → List Context → Bool → Text → Option Text
wrap_contexts kind concat [] seen_namespace fwd_decl =
    some (if seen_namespace then fwd_decl else kind ++ (text " " ++ fwd_decl))
wrap_contexts kind concat (in_record rec_name ∷ rest) seen_namespace fwd_decl =
    wrap_contexts kind concat rest seen_namespace (rec_name ++ (text "::" ++ fwd_decl))
wrap_contexts kind concat (in_function fn_name ∷ rest) seen_namespace fwd_decl =
    wrap_contexts kind concat rest seen_namespace (fn_name ++ (text "::" ++ fwd_decl))
wrap_contexts kind concat (in_namespace ns_name ∷ rest) seen_namespace fwd_decl =
    let with_kind = if seen_namespace then fwd_decl else kind ++ (text " " ++ fwd_decl) in
    wrap_contexts kind concat rest true (
      if concat
      then concat_namespace (name_of ns_name) (not seen_namespace) (is_empty rest) with_kind
      else wrap_namespace ns_name with_kind)
wrap_contexts kind concat (in_other ∷ rest) seen_namespace fwd_decl = none

abbrev pub is_other : DeclKind → Bool
is_other other_decl = true
is_other _ = false

unfoldable pub print_forward_declare : DeclShape → Text → Bool → Option Text
unfolding wrap_contexts
print_forward_declare decl tpl_params_and_kind cxx17ns = do
  check (not (is_other decl.decl_kind))
  wrap_contexts tpl_params_and_kind (cxx17ns && not decl.is_in_anonymous_namespace) decl.contexts
      false (decl.name ++ (decl.underlying_type ++ text ";"))

-- For a template the last word of the line, its name, is dropped.
unfoldable pub munged_forward_declare_line : DeclShape → Bool → Option Text
unfolding print_forward_declare rfind
munged_forward_declare_line decl cxx17ns = elim decl.decl_kind [
  | tag_decl kind_name ↦ print_forward_declare decl kind_name cxx17ns
  | template_decl _ line ↦ (do
    namepos ← rfind line b' '
    print_forward_declare decl (take namepos line) cxx17ns)
  | other_decl ↦ none
]

-- DeclCanBeForwardDeclared, with the reason against it.
unfoldable pub decl_can_be_forward_declared : DeclShape → Bool × Text
decl_can_be_forward_declared decl =
    if decl.is_in_inline_namespace
    then (false, text "in inline namespace")
    else elim decl.decl_kind [
      | template_decl true _ ↦ (true, [])
      | tag_decl _ ↦
          if is_empty decl.name then (false, text "declaration has no name") else (true, [])
      | _ ↦ (false, text "not a record, enumeration or class template")
    ]
