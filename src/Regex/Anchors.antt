-- ===== src/Regex/Anchors.antt =====
-- What `Anchored` adds.
use include_what_you_use.Base.{
  true, ◌++◌, [], ◌∷◌, ◌≡◌, subst, sym, ap, ◌∙◌, ◌↔◌, inl, inr, Bool-cases, append-nil,
  append_assoc, if◌then◌else◌,
}
use include_what_you_use.Text.{Text, text, starts_with, ends_with}
use include_what_you_use.Text.Find.{starts_with-append, ends_with_iff}
use include_what_you_use.Regex.{anchored}

starts_with-more :
    (p q : Text) → starts_with p (text "^") ≡ true → starts_with (p ++ q) (text "^") ≡ true
unfolding starts_with
starts_with-more [] q h = cc
starts_with-more (c ∷ p) q h = h

ends_with-more : (q p : Text) → ends_with p (text "$") ≡ true → ends_with (q ++ p) (text "$") ≡ true
ends_with-more q p h =
    let (front, e) = (ends_with_iff p (text "$")).0 h in
    (ends_with_iff (q ++ p) (text "$")).1
      (q ++ front, ap (◌++◌ q) e ∙ sym (append_assoc q front (text "$")))

anchored-starts : (p : Text) → starts_with (anchored p) (text "^") ≡ true
unfolding anchored
anchored-starts p =
    let back = if ends_with p (text "$") then [] else text "$" in
    elim (Bool-cases (starts_with p (text "^"))) [
      | inl there ↦ rw there (starts_with-more p back there)
      | inr missing ↦ rw missing (starts_with-append (text "^") (p ++ back))
    ]

anchored-ends : (p : Text) → ends_with (anchored p) (text "$") ≡ true
unfolding anchored
anchored-ends p =
    let front = if starts_with p (text "^") then [] else text "^" in
    elim (Bool-cases (ends_with p (text "$"))) [
      | inl there ↦ rw there (
          subst (λ q. ends_with (front ++ q) (text "$") ≡ true) (sym (append-nil p))
            (ends_with-more front p there))
      | inr missing ↦ rw missing (
          (ends_with_iff (front ++ (p ++ text "$")) (text "$")).1
            (front ++ p, sym (append_assoc front p (text "$"))))
    ]

anchored-fixed :
    (p : Text) → starts_with p (text "^") ≡ true → ends_with p (text "$") ≡ true → anchored p ≡ p
unfolding anchored
anchored-fixed p s e = rw (s, e) (append-nil p)

-- An anchored pattern starts with `^` and ends with `$`, to anchor it again changes nothing, and exactly
-- the patterns that have both already are left as they are.
pub anchored_lem :
    (p : Text)
    → (starts_with (anchored p) (text "^") ≡ true)
      × (ends_with (anchored p) (text "$") ≡ true)
      × (anchored (anchored p) ≡ anchored p)
      × ((anchored p ≡ p) ↔ ((starts_with p (text "^") ≡ true) × (ends_with p (text "$") ≡ true)))
anchored_lem p = (
  anchored-starts p,
  anchored-ends p,
  anchored-fixed (anchored p) (anchored-starts p) (anchored-ends p),
  (
    λ e. (
      subst (λ q. starts_with q (text "^") ≡ true) e (anchored-starts p),
      subst (λ q. ends_with q (text "$") ≡ true) e (anchored-ends p),
    ),
    λ h. anchored-fixed p h.0 h.1,
  ),
)
