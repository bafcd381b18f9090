-- ===== src/Picker/Queries/Mapping.antt =====
-- What `HasMapping` answers.
use include_what_you_use.Base.{
  Bool, Bool-cases, true, ◌||◌, some, List, [], ◌∷◌, ◌≡◌, ◌↔◌, ◌⊎◌, inl, inr, refl, arith, Elem,
}
use include_what_you_use.Text.{Text, text_eq}
use include_what_you_use.Text.Order.{text_key, text_eq_iff}
use include_what_you_use.Container.{get_or_default}
use include_what_you_use.Picker.{IncludePicker, MappedInclude, PickerApi}
use include_what_you_use.Picker.Queries.{contains_quoted_include, has_mapping}

contains_quoted_include_iff :
    (values : List MappedInclude) (quoted : Text)
    → (contains_quoted_include values quoted ≡ true)
      ↔ ((v : MappedInclude) × Elem v values × (v.quoted_include ≡ quoted))
unfolding contains_quoted_include
contains_quoted_include_iff [] quoted = ((λ h. cc), λ (v, m, _). absurd m)
contains_quoted_include_iff (w ∷ values) quoted =
    let (to, from) = contains_quoted_include_iff values quoted in
    (
      (λ h. elim (Bool-cases (text_eq w.quoted_include quoted)) [
        | inl same ↦ (w, inl refl, (text_eq_iff w.quoted_include quoted).0 same)
        | inr other ↦ let (v, m, e) = to (ground (arith, h, other)) in (v, inr m, e)
      ]),
      λ (v, m, e). elim m [
        | inl same ↦ rw ((text_eq_iff w.quoted_include quoted).1 (cc (same, e))) refl
        | inr later ↦ ground (arith, from (v, later, e))
      ],
    )

-- `HasMapping` gives an answer where the maps are finalized and both files have a quoted name, and it is
-- true exactly where the names are one or the second is among the headers that stand for the first.
pub has_mapping_lem :
    (api : PickerApi) (p : IncludePicker) (map_from map_to : Text) (quoted_from quoted_to : Text)
    → p.has_called_finalize_added_include_lines ≡ true
    → api.quote map_from ≡ some quoted_from
    → api.quote map_to ≡ some quoted_to
    → (answer : Bool) × (has_mapping api p map_from map_to ≡ some answer)
      × ((answer ≡ true) ↔ (
          (quoted_to ≡ quoted_from)
          ⊎ ((v : MappedInclude) × Elem v (get_or_default p.filepath_include_map quoted_from [])
              × (v.quoted_include ≡ quoted_to))))
unfolding has_mapping
has_mapping_lem api p map_from map_to quoted_from quoted_to finalized ef et =
    let (to, from) =
      contains_quoted_include_iff (get_or_default p.filepath_include_map quoted_from [])
        quoted_to in
    let (same_to, same_from) = text_eq_iff quoted_to quoted_from in
    (
      contains_quoted_include (get_or_default p.filepath_include_map quoted_from []) quoted_to
          || text_eq quoted_to quoted_from,
      rw (finalized, ef, et) refl,
      (
        (λ h. elim (Bool-cases (text_eq quoted_to quoted_from)) [
          | inl same ↦ inl (same_to same)
          | inr other ↦ inr (to (ground (arith, h, other)))
        ]),
        λ h. elim h [
          | inl same ↦ ground (arith, same_from same)
          | inr found ↦ rw (from found) refl
        ],
      ),
    )
