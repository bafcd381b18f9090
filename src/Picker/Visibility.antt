-- ===== src/Picker/Visibility.antt =====
-- Visibilities are set once.
use include_what_you_use.Base.{
  Bool, true, false, not, some, ◌≡◌, sym, subst, ◌∙◌, inl, inr, arith, Bool-cases,
}
use include_what_you_use.Base.Checked.{check, >>=-eq-some, some-eq}
use include_what_you_use.Text.{Text, text_eq}
use include_what_you_use.Text.Order.{text_key, text_eq_iff}
use include_what_you_use.Container.{find_in_map, map_insert, map_contains_key, get_or_default}
use include_what_you_use.Container.Laws.{find_in_map-insert}
use include_what_you_use.Picker.{
  IncludeVisibility, VisibilityMap, unused_visibility, visibility_eq, mark_visibility,
}

visibility_eq_lem : (a b : IncludeVisibility) → visibility_eq a b ≡ true → a ≡ b
unfolding visibility_eq
visibility_eq_lem a b h = ground arith

-- If `MarkVisibility` returns, then the key has the visibility that was asked for, and every visibility
-- that was set before is still the same: to set another one ends the program.
pub mark_visibility-keeps :
    (finalized : Bool) (m m' : VisibilityMap) (key : Text) (visibility : IncludeVisibility)
    → mark_visibility finalized m key visibility ≡ some m'
    → (get_or_default m' key unused_visibility ≡ visibility)
      × ((j : Text) (v : IncludeVisibility) → find_in_map m j ≡ some v → find_in_map m' j ≡ some v)
unfolding mark_visibility
mark_visibility-keeps finalized m m' key visibility e =
    let (_, _, e₁) = >>=-eq-some (check (not finalized)) _ e in
    let (_, e₂, e₃) =
      >>=-eq-some
        (check (
          visibility_eq (get_or_default (map_insert m key visibility) key unused_visibility)
            visibility))
        _ e₁ in
    moved m' e₃ (visibility_eq_lem _ visibility (passed _ e₂))
  where
    passed : (b : Bool) {u : Unit {0}} → check b ≡ some u → b ≡ true
    passed b e = ground (arith, e)

    old :
        (j : Text) (v : IncludeVisibility)
        → find_in_map m j ≡ some v
        → find_in_map (map_insert m key visibility) j ≡ some v
    old j v f = elim (Bool-cases (map_contains_key m key)) [
      | inl there ↦ find_in_map-insert m key visibility j ∙ rw there f
      | inr new ↦ elim (Bool-cases (text_eq key j)) [
        | inr other ↦ find_in_map-insert m key visibility j ∙ rw new (rw other f)
        | inl same ↦ absurd_key j v ((text_eq_iff key j).0 same) f new
      ]
    ]
      where
        absurd_key :
            (j : Text) (v : IncludeVisibility)
            → key ≡ j
            → find_in_map m j ≡ some v
            → map_contains_key m key ≡ false
            → find_in_map (map_insert m key visibility) j ≡ some v
        absurd_key j v e f new = unfold map_contains_key in (cc (rw (sym e) at f, new))

    moved :
        (m' : VisibilityMap)
        → some (map_insert m key visibility) ≡ some m'
        → get_or_default (map_insert m key visibility) key unused_visibility ≡ visibility
        → (get_or_default m' key unused_visibility ≡ visibility)
          × ((j : Text) (v : IncludeVisibility)
              → find_in_map m j ≡ some v
              → find_in_map m' j ≡ some v)
    moved m' e h =
        subst
          (λ x.
            (get_or_default x key unused_visibility ≡ visibility)
            × ((j : Text) (v : IncludeVisibility)
                → find_in_map m j ≡ some v
                → find_in_map x j ≡ some v))
          (some-eq e) (h, old)
