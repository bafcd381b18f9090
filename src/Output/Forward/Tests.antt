-- ===== src/Output/Forward/Tests.antt =====
-- Runs on a class in two namespaces.
use include_what_you_use.Base.{true, false, some, [], ◌∷◌, ◌≡◌, refl}
use include_what_you_use.Text.{text}
use include_what_you_use.Output.Forward.{
  DeclShape, tag_decl, in_namespace, munged_forward_declare_line,
}

-- `class X` in the namespaces `a` and, around it, `b`.
abbrev nested : DeclShape
nested = record {
  decl_kind = tag_decl (text "class");
  name = text "X";
  underlying_type = [];
  contexts = in_namespace (some (text "a")) ∷ in_namespace (some (text "b")) ∷ [];
  is_in_anonymous_namespace = false;
  is_in_inline_namespace = false;
}

nested-cxx17 : munged_forward_declare_line nested true ≡ some (text "namespace b::a { class X; }")
unfolding munged_forward_declare_line
nested-cxx17 = refl

nested-old :
    munged_forward_declare_line nested false
    ≡ some (text "namespace b { namespace a { class X; } }")
unfolding munged_forward_declare_line
nested-old = refl
