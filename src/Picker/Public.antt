-- ===== src/Picker/Public.antt =====
-- The candidates that the picker gives for a file: a private header only where there is no other.
use include_what_you_use.Base.{
  true, false, not, ◌||◌, some, List, [], ◌∷◌, ◌≡◌, refl, subst, ◌⊎◌, inl, inr, arith, All, Elem,
  Bool-cases, if◌then◌else◌, is_empty,
}
use include_what_you_use.Base.Checked.{check, >>=-eq-some, some-eq}
use include_what_you_use.Text.{Text, text, starts_with}
use include_what_you_use.Text.Order.{text_key}
use include_what_you_use.Container.{get_or_default}
use include_what_you_use.Picker.{
  IncludePicker, IncludeMap, MappedInclude, PickerApi, public, is_public, get_visibility,
  mapped_include, public_values, get_public_values, get_candidate_headers_for_filepath,
}

abbrev pub IsVisible : IncludePicker → MappedInclude → Type 0
IsVisible p v = is_public (get_visibility p v public) ≡ true

public_values_lem :
    (p : IncludePicker) (values out : List MappedInclude)
    → public_values p values ≡ some out
    → All (IsVisible p) out
      × ((v : MappedInclude) → Elem v values → IsVisible p v → Elem v out)
      × ((v : MappedInclude) → Elem v out → Elem v values)
unfolding public_values
public_values_lem p [] out e =
    subst
      (λ o.
        All (IsVisible p) o
        × ((v : MappedInclude) → Elem v [] → IsVisible p v → Elem v o)
        × ((v : MappedInclude) → Elem v o → Elem v []))
      (some-eq e) (tt, λ v m i. m, λ v m. m)
public_values_lem p (w ∷ values) out e =
    let (_, _, e₁) = >>=-eq-some (check (not (starts_with w.quoted_include (text "@")))) _ e in
    let (rest, e₂, e₃) = >>=-eq-some (public_values p values) _ e₁ in
    let (visible, complete, sound) = public_values_lem p values rest e₂ in
    subst
      (λ o.
        All (IsVisible p) o
        × ((v : MappedInclude) → Elem v (w ∷ values) → IsVisible p v → Elem v o)
        × ((v : MappedInclude) → Elem v o → Elem v (w ∷ values)))
      (some-eq e₃)
      (elim (Bool-cases (is_public (get_visibility p w public))) [
        | inl seen ↦ rw seen (
          (seen, visible),
          (λ v m i. elim m [ inl same ↦ inl same | inr old ↦ inr (complete v old i) ]),
          λ v m. elim m [ inl same ↦ inl same | inr old ↦ inr (sound v old) ],
        )
        | inr hidden ↦ rw hidden (
          visible,
          (λ v m i. elim m [
            | inl same ↦ cc (subst (λ x. IsVisible p x) same i, hidden)
            | inr old ↦ complete v old i
          ]),
          λ v m. inr (sound v m),
        )
      ])

-- `GetPublicValues` gives the values of the key that are public, and no others.
pub get_public_values_lem :
    (p : IncludePicker) (m : IncludeMap) (key : Text) (out : List MappedInclude)
    → get_public_values p m key ≡ some out
    → All (IsVisible p) out
      × ((v : MappedInclude) → Elem v (get_or_default m key []) → IsVisible p v → Elem v out)
      × ((v : MappedInclude) → Elem v out → Elem v (get_or_default m key []))
unfolding get_public_values
get_public_values_lem p m key out e =
    let (_, _, e₁) = >>=-eq-some (check (not (starts_with key (text "@")))) _ e in
    public_values_lem p (get_or_default m key []) out e₁

-- If `GetCandidateHeadersForFilepath` returns, then it gives one candidate at least, and each candidate is
-- public, except where the file itself is the only candidate.
pub candidates-IsVisible :
    (api : PickerApi) (p : IncludePicker) (filepath including_filepath : Text)
    (out : List MappedInclude)
    → get_candidate_headers_for_filepath api p filepath including_filepath ≡ some out
    → (is_empty out ≡ false)
      × (All (IsVisible p) out
          ⊎ ((self : MappedInclude) × (out ≡ self ∷ []) × (self.path ≡ filepath)))
unfolding get_candidate_headers_for_filepath
candidates-IsVisible api p filepath including out e =
    let (_, _, e₁) = >>=-eq-some (check p.has_called_finalize_added_include_lines) _ e in
    let (absolute, _, e₂) = >>=-eq-some (api.quote filepath) _ e₁ in
    let (values, ev, e₃) = >>=-eq-some (get_public_values p p.filepath_include_map absolute) _ e₂ in
    let (quoted, _, e₄) =
      >>=-eq-some (if is_empty including then some absolute else api.quote_from filepath including)
        _ e₃ in
    let (self, es, e₅) = >>=-eq-some (mapped_include quoted filepath) _ e₄ in
    let (visible, _, _) = get_public_values_lem p p.filepath_include_map absolute values ev in
    by_values values self visible (own_path quoted self es) (some-eq e₅)
  where
    own_path :
        (quoted : Text) (self : MappedInclude)
        → mapped_include quoted filepath ≡ some self
        → self.path ≡ filepath
    own_path quoted self e = unfold mapped_include in (ground (arith, e))

    by_values :
        (values : List MappedInclude) (self : MappedInclude)
        → All (IsVisible p) values
        → self.path ≡ filepath
        → (if is_empty values || is_public (get_visibility p self public)
            then self ∷ values
            else values)
          ≡ out
        → (is_empty out ≡ false)
          × (All (IsVisible p) out
              ⊎ ((self : MappedInclude) × (out ≡ self ∷ []) × (self.path ≡ filepath)))
    by_values [] self visible own e =
        subst
          (λ o.
            (is_empty o ≡ false)
            × (All (IsVisible p) o
                ⊎ ((self : MappedInclude) × (o ≡ self ∷ []) × (self.path ≡ filepath))))
          e (refl, inr (self, refl, own))
    by_values (v ∷ values) self visible own e =
        subst
          (λ o.
            (is_empty o ≡ false)
            × (All (IsVisible p) o
                ⊎ ((self : MappedInclude) × (o ≡ self ∷ []) × (self.path ≡ filepath))))
          e
          (elim (Bool-cases (is_public (get_visibility p self public))) [
            | inl seen ↦ rw seen (refl, inl (seen, visible))
            | inr hidden ↦ rw hidden (refl, inl visible)
          ])
