-- ===== src/Output/FileInfo/Kind.antt =====
-- `CalculateIwyuForForwardDeclareUse` does not change the kind of a use.
use include_what_you_use.Base.{
  ℕ, Bool, true, false, not, ◌&&◌, ◌||◌, Option, none, some, List, ◌≡◌, sym, ◌∙◌, ap, arith,
  if◌then◌else◌,
}
use include_what_you_use.Base.Checked.{check, >>=-eq-some, some-eq}
use include_what_you_use.Text.{Text}
use include_what_you_use.Text.Order.{text_key}
use include_what_you_use.Container.{Set}
use include_what_you_use.Output.Use.{
  OneUse, FileEntry, is_full_use, set_ignore_use, set_is_iwyu_violation,
}
use include_what_you_use.Output.Facts.{ClangFacts, PickerFacts, reset_decl, tag_of, is_some}
use include_what_you_use.Output.Verdict.{
  FoundDfns, calculate_iwyu_for_forward_declare_use, satisfy, store_as_template, judge, weigh,
  same_file_redecl, is_in_associated,
}

module _ (c : ClangFacts) (p : PickerFacts) where
  -- A forward-declare use stays one.
  satisfy-kind :
      (actual desired : Set Text) (u v : OneUse) (found : FoundDfns) (d : Option ℕ)
      → satisfy c p actual desired u found d ≡ some v
      → v.use_kind ≡ u.use_kind
  unfolding satisfy reset_decl
  satisfy-kind actual desired u v found d e = ground (arith, e)

  store_as_template-kind :
      (actual desired : Set Text) (u v : OneUse)
      → store_as_template c p actual desired u ≡ some v
      → v.use_kind ≡ u.use_kind
  unfolding store_as_template reset_decl
  store_as_template-kind actual desired u v e = ground (arith, e)

  judge-kind :
      (actual desired : Set Text) (u v : OneUse) (found : FoundDfns) (d : Option ℕ)
      → judge c p actual desired u found d ≡ some v
      → v.use_kind ≡ u.use_kind
  unfolding judge
  judge-kind actual desired u v found d e =
      let (a, ea, ra) = >>=-eq-some (satisfy c p actual desired u found d) _ e in
      let (b, eb, rb) = >>=-eq-some (store_as_template c p actual desired a) _ ra in
      marked (is_some found.from_actual || is_some d) b rb
      ∙ (store_as_template-kind actual desired a b eb ∙ satisfy-kind actual desired u a found d ea)
    where
      marked :
          (q : Bool) (b : OneUse)
          → some (if q then b else set_is_iwyu_violation b) ≡ some v
          → v.use_kind ≡ b.use_kind
      marked true b r = ap (λ w. w.use_kind) (sym (some-eq r))
      marked false b r = ap (λ w. w.use_kind) (sym (some-eq r))

  weigh-kind :
      (actual desired : Set Text) (u v : OneUse) (d : Option ℕ) (b : Bool)
      (found : Option FoundDfns)
      → weigh c p actual desired u d b found ≡ some v
      → v.use_kind ≡ u.use_kind
  unfolding weigh
  weigh-kind actual desired u v d b none e = ap (λ w. w.use_kind) (sym (some-eq e))
  weigh-kind actual desired u v d b (some found) e = by_place (not (is_some d) && b) e
    where
      by_place :
          (q : Bool)
          → (if q then some (set_ignore_use u) else judge c p actual desired u found d) ≡ some v
          → v.use_kind ≡ u.use_kind
      by_place true r = ap (λ w. w.use_kind) (sym (some-eq r))
      by_place false r = judge-kind actual desired u v found d r

  pub forward-kind :
      (actual desired : Set Text) (u v : OneUse) (files : List (Option FileEntry))
      → calculate_iwyu_for_forward_declare_use c p actual desired u files ≡ some v
      → v.use_kind ≡ u.use_kind
  unfolding calculate_iwyu_for_forward_declare_use
  forward-kind actual desired u v files e =
      let (_, _, r₁) = >>=-eq-some (check (not u.ignore_use)) _ e in
      let (decl, _, r₂) = >>=-eq-some u.decl _ r₁ in
      let (_, _, r₃) = >>=-eq-some (check (not (is_full_use u))) _ r₂ in
      let (tag, _, r₄) = >>=-eq-some (tag_of c decl) _ r₃ in
      weigh-kind actual desired u v
        (same_file_redecl c p actual desired u (c.tag_redecls (some tag)))
        (is_in_associated c p actual desired files (c.tag_redecls (some tag))) _ r₄
