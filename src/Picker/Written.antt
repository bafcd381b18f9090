-- ===== src/Picker/Written.antt =====
-- `AddDirectInclude` and `MaybeGetIncludeNameAsWritten`: how an include is written.
use include_what_you_use.Base.{
  ℕ, Bool, true, ◌==◌, ◌-◌, take, drop, ◌++◌, false, not, ◌&&◌, ◌||◌, Option, none, some, List, [],
  ◌∷◌, ◌≡◌, refl, sym, subst, ◌∙◌, ap, inl, inr, arith, Bool-cases, if◌then◌else◌,
}
use include_what_you_use.Base.Checked.{◌>>=◌, check, >>=-eq-some, some-eq}
use include_what_you_use.Text.{Text, text, text_eq, find, starts_with, strip_past}
use include_what_you_use.Text.Order.{text_key, text_eq_iff, text_eq_refl}
use include_what_you_use.Container.{map_set, set_insert, get_or_default}
use include_what_you_use.Picker.{
  IncludePicker, MappedInclude, PickerApi, mark_include, mark_include_as_private, add_mapping,
  add_friend_regex, pair_less, mark_visibility, is_quoted_filepath_pattern, private, mapped_include,
  include_name_as_written,
}
use include_what_you_use.Picker.Direct.{
  add_internal, add_asm, add_direct_include, set_include_as_written,
}

abbrev SameWritten : IncludePicker → IncludePicker → Type 0
SameWritten p q = q.include_as_written ≡ p.include_as_written

set_include_as_written_same :
    (m : List ((Text × Text) × Text)) (a b written : Text)
    → include_name_as_written (set_include_as_written m a b written) a b ≡ written
unfolding set_include_as_written include_name_as_written
set_include_as_written_same [] a b written = rw (text_eq_refl a, text_eq_refl b) refl
set_include_as_written_same (((k, l), w) ∷ m) a b written =
    let later = set_include_as_written_same m a b written in
    elim (Bool-cases (text_eq k a && text_eq l b)) [
      | inl here ↦ rw here (rw (text_eq_refl a, text_eq_refl b) refl)
      | inr away ↦ rw away (elim (Bool-cases (pair_less (a, b) (k, l))) [
        | inl before ↦ rw before (rw (text_eq_refl a, text_eq_refl b) refl)
        | inr after ↦ rw after (rw away later)
      ])
    ]

same_key :
    (k l a b c d : Text)
    → (text_eq k a && text_eq l b) ≡ true
    → (text_eq a c && text_eq b d) ≡ false
    → (text_eq k c && text_eq l d) ≡ false
same_key k l a b c d here other =
    let k_is = (text_eq_iff k a).0 (ground (arith, here)) in
    let l_is = (text_eq_iff l b).0 (ground (arith, here)) in
    subst (λ x. (text_eq x c && text_eq l d) ≡ false) (sym k_is)
      (subst (λ x. (text_eq a c && text_eq x d) ≡ false) (sym l_is) other)

set_include_as_written_other :
    (m : List ((Text × Text) × Text)) (a b written c d : Text)
    → (text_eq a c && text_eq b d) ≡ false
    → include_name_as_written (set_include_as_written m a b written) c d
      ≡ include_name_as_written m c d
unfolding set_include_as_written include_name_as_written
set_include_as_written_other [] a b written c d other = rw other refl
set_include_as_written_other (((k, l), w) ∷ m) a b written c d other =
    let later = set_include_as_written_other m a b written c d other in
    elim (Bool-cases (text_eq k a && text_eq l b)) [
      | inl here ↦ rw here (rw (other, same_key k l a b c d here other) refl)
      | inr away ↦ rw away (elim (Bool-cases (pair_less (a, b) (k, l))) [
        | inl before ↦ rw before (rw other refl)
        | inr after ↦ rw after (ap (λ r. if text_eq k c && text_eq l d then w else r) later)
      ])
    ]

mark_include_as_private-written :
    (p q : IncludePicker) (pattern_text : Text)
    → mark_include_as_private p pattern_text ≡ some q
    → SameWritten p q
unfolding mark_include_as_private mark_include
mark_include_as_private-written p q pattern_text e =
    let (_, _, e₁) = >>=-eq-some (check (not p.has_called_finalize_added_include_lines)) _ e in
    let (_, _, e₂) = >>=-eq-some (check (is_quoted_filepath_pattern pattern_text)) _ e₁ in
    let (_, _, e₃) =
      >>=-eq-some
        (mark_visibility p.has_called_finalize_added_include_lines p.include_visibility_map
          pattern_text private)
        _ e₂ in
    sym (ap (λ r. r.include_as_written) (some-eq e₃))

add_mapping-written :
    (p q : IncludePicker) (map_from : Text) (map_to : MappedInclude)
    → add_mapping p map_from map_to ≡ some q
    → SameWritten p q
unfolding add_mapping
add_mapping-written p q map_from map_to e =
    let (_, _, e₁) = >>=-eq-some (check (not p.has_called_finalize_added_include_lines)) _ e in
    let (_, _, e₂) = >>=-eq-some (check (is_quoted_filepath_pattern map_from)) _ e₁ in
    sym (ap (λ r. r.include_as_written) (some-eq e₂))

-- The private header that stands for another one, where the test holds.
guarded_mapping-written :
    (p q : IncludePicker) (key : Text) (test : Bool) (target : Option MappedInclude)
    (befriend : IncludePicker → IncludePicker)
    → ((r : IncludePicker) → SameWritten r (befriend r))
    → (if test
        then (do
          p₁ ← mark_include_as_private p key
          mapped ← target
          add_mapping (befriend p₁) key mapped)
        else some p)
      ≡ some q
    → SameWritten p q
guarded_mapping-written p q key false target befriend same e =
    sym (ap (λ r. r.include_as_written) (some-eq e))
guarded_mapping-written p q key true target befriend same e =
    let (p₁, em, e₁) = >>=-eq-some (mark_include_as_private p key) _ e in
    let (mapped, _, e₂) = >>=-eq-some target _ e₁ in
    add_mapping-written (befriend p₁) q key mapped e₂
    ∙ same p₁
    ∙ mark_include_as_private-written p p₁ key em

module _ (api : PickerApi) where
  add_internal-written :
      (p q : IncludePicker) (includer includee quoted_includer quoted_includee : Text)
      → add_internal api p includer includee quoted_includer quoted_includee ≡ some q
      → SameWritten p q
  unfolding add_internal
  add_internal-written p q includer includee quoted_includer quoted_includee e =
      by_pos (find quoted_includee (text "internal/")) e
    where
      by_pos :
          (pos : Option ℕ)
          → (elim pos as (λ _. Option IncludePicker) [
            | none ↦ some p
            | some internal_pos ↦
                if internal_pos == 0
                  || starts_with (drop (internal_pos - 1) quoted_includee) (text "/")
                then (do
                  p₁ ← mark_include_as_private p quoted_includee
                  mapped ← mapped_include quoted_includer includer
                  add_mapping
                      (add_friend_regex p₁ includee
                        (take internal_pos quoted_includee ++ text ".*"))
                      quoted_includee
                      mapped)
                else some p
          ])
            ≡ some q
          → SameWritten p q
      by_pos none e = sym (ap (λ r. r.include_as_written) (some-eq e))
      by_pos (some internal_pos) e =
          guarded_mapping-written p q quoted_includee
            (internal_pos == 0 || starts_with (drop (internal_pos - 1) quoted_includee) (text "/"))
            (mapped_include quoted_includer includer)
            (λ r. add_friend_regex r includee (take internal_pos quoted_includee ++ text ".*"))
            (λ r. unfold add_friend_regex in refl) e

  add_asm-written :
      (p q : IncludePicker) (quoted_includee : Text)
      → add_asm api p quoted_includee ≡ some q
      → SameWritten p q
  unfolding add_asm
  add_asm-written p q quoted_includee e =
      guarded_mapping-written p q quoted_includee (starts_with quoted_includee (text "<asm-"))
        (mapped_include (text "<asm/" ++ (strip_past quoted_includee (text "/")).1) []) (λ r. r)
        (λ r. refl) e

  -- If `AddDirectInclude` returns, then the include of the pair is found as it was written last, and what was
  -- written for every other pair stands.
  pub add_direct_include-written :
      (p q : IncludePicker) (includer includee written : Text)
      → add_direct_include api p includer includee written ≡ some q
      → (include_name_as_written q.include_as_written includer includee ≡ written)
        × ((c d : Text)
            → (text_eq includer c && text_eq includee d) ≡ false
            → include_name_as_written q.include_as_written c d
              ≡ include_name_as_written p.include_as_written c d)
  unfolding add_direct_include
  add_direct_include-written p q includer includee written e =
      let (_, _, e₁) = >>=-eq-some (check (not p.has_called_finalize_added_include_lines)) _ e in
      let (quoted_includer, _, e₂) = >>=-eq-some (api.quote includer) _ e₁ in
      let (quoted_includee, _, e₃) = >>=-eq-some (api.quote includee) _ e₂ in
      let (_, _, e₄) = >>=-eq-some (mapped_include quoted_includer includer) _ e₃ in
      let noted = record p {
        quoted_includes_to_quoted_includers =
            map_set p.quoted_includes_to_quoted_includers quoted_includee (
              set_insert (get_or_default p.quoted_includes_to_quoted_includers quoted_includee [])
                quoted_includer);
        include_as_written = set_include_as_written p.include_as_written includer includee written;
      } in
      let (p₁, eb, e₅) =
        >>=-eq-some
          (if text_eq includer (text "<built-in>")
            then mark_include_as_private noted (text "\"<built-in>\"")
            else some noted)
          _ e₄ in
      let (p₂, ei, ea) =
        >>=-eq-some (add_internal api p₁ includer includee quoted_includer quoted_includee) _ e₅ in
      let kept =
        add_asm-written p₂ q quoted_includee ea
        ∙ add_internal-written p₁ p₂ includer includee quoted_includer quoted_includee ei
        ∙ built_in noted p₁ _ eb in
      (
        ap (λ m. include_name_as_written m includer includee) kept
            ∙ set_include_as_written_same p.include_as_written includer includee written,
        λ c d other.
            ap (λ m. include_name_as_written m c d) kept
            ∙ set_include_as_written_other p.include_as_written includer includee written c d other,
      )
    where
      built_in :
          (r r' : IncludePicker) (test : Bool)
          → (if test then mark_include_as_private r (text "\"<built-in>\"") else some r) ≡ some r'
          → SameWritten r r'
      built_in r r' false e = sym (ap (λ r. r.include_as_written) (some-eq e))
      built_in r r' true e = mark_include_as_private-written r r' (text "\"<built-in>\"") e
