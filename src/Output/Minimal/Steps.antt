-- ===== src/Output/Minimal/Steps.antt =====
-- The bodies of the first three loops of `CalculateMinimalIncludes` serve a use well.
use include_what_you_use.Base.{
  Bool, true, false, ◌&&◌, Option, some, List, ◌∷◌, ◌≡◌, refl, ap, ◌∙◌, inl, inr, arith, Bool-cases,
  List-cases, is_empty,
}
use include_what_you_use.Text.{Text, text_eq}
use include_what_you_use.Text.Order.{text_key, text_eq_iff}
use include_what_you_use.Container.{Set, contains, set_insert}
use include_what_you_use.Output.Use.{
  OneUse, HeaderSource, has_suggested_header, set_suggested_header, needs_suggested_header,
  public_headers_contain,
}
use include_what_you_use.Output.Minimal.{
  suggest, pick, if_needed, pick_certain, single_candidate, step_one, pick_present, step_two,
  step_clean,
}
use include_what_you_use.Output.Minimal.Relation.{
  IsWellFormed, Grows-refl, Grows-insert, IsGood, IsCandidate, Evolves-refl, Evolves-trans,
  StepsWell,
}
use include_what_you_use.Output.Minimal.Fill.{
  IsHeaderSource, Needs, settled, no_header, needed, needs_suggested_header_lem,
}
use include_what_you_use.Output.Minimal.Pick.{
  IsPicked, pick-IsPicked, pick-after, suggest-Evolves, suggest-IsGood, insert-InDesired,
}

module _ (src : HeaderSource) (self : Text) (laws : IsHeaderSource src) where
  if_needed-steps :
      (body : OneUse → Set Text → Option (OneUse × Set Text))
      → ((f : OneUse) (d : Set Text)
          → is_empty f.public_headers ≡ false
          → has_suggested_header f ≡ false
          → IsGood src self d f
          → StepsWell src self body f d)
      → (u : OneUse) (d : Set Text) → IsGood src self d u
      → StepsWell src self (if_needed src body) u d
  unfolding if_needed
  if_needed-steps body ok u d good =
      let (n, v, e, why) = needs_suggested_header_lem src laws u good.well_formed in
      by_answer n v e why
    where
      by_answer :
          (n : Bool) (v : OneUse)
          → needs_suggested_header src u ≡ some (n, v)
          → Needs src u n v
          → StepsWell src self (if_needed src body) u d
      by_answer false v e (settled s) = (u, d, rw e refl, Grows-refl d, good, Evolves-refl src u)
      by_answer false v e (no_header i k f m) = (
        v,
        d,
        rw e refl,
        Grows-refl d,
        record { well_formed = f.well_formed; served = λ i' s. cc (s, f.unsuggested) },
        f.evolves,
      )
      by_answer true v e (needed f i fv ef ff m) =
          let good_f : IsGood src self d f = record {
            well_formed = ff.well_formed;
            served = λ i' s. cc (s, ff.unsuggested);
          } in
          let (w, d', eq, g, gd, ev) = ok f d m ff.unsuggested good_f in
          (w, d', rw e (rw ef eq), g, gd, Evolves-trans src u f w ff.evolves ev)

  IsPicked-steps :
      (act : OneUse → Set Text → OneUse × Set Text) (f : OneUse) (d : Set Text)
      → IsPicked src self d f (act f d)
      → StepsWell src self (λ u e. some (act u e)) f d
  IsPicked-steps act f d p = ((act f d).0, (act f d).1, refl, p.grows, p.good, p.evolves)

  module _ (direct associated : Set Text) where
    pick_present-IsPicked :
        (u : OneUse) (d : Set Text)
        → IsGood src self d u
        → IsPicked src self d u (pick_present src self direct associated u d)
    unfolding pick_present
    pick_present-IsPicked u d good =
        let p₁ =
          pick-IsPicked src self (λ _ c. text_eq c self) false u.public_headers u d (inl refl)
            (λ c t. inr ((text_eq_iff c self).0 t)) good in
        let p₂ =
          pick-after src self (λ _ c. contains associated c) true u.public_headers u d _ (inl refl)
            (λ e c t. inl refl) p₁ in
        let p₃ =
          pick-after src self (λ e c. contains direct c && contains e c) true u.public_headers u d _
            (inl refl) (λ e c t. inl refl) p₂ in
        pick-after src self (λ _ c. contains direct c) true u.canonical_headers u d _ (inr refl)
          (λ e c t. inl refl) p₃

    pub step_two-steps :
        (u : OneUse) (d : Set Text)
        → IsGood src self d u
        → StepsWell src self (step_two src self direct associated) u d
    unfolding step_two
    step_two-steps = if_needed-steps _ (λ f d m n good.
        IsPicked-steps (pick_present src self direct associated) f d
          (pick_present-IsPicked f d good))

    pub step_clean-steps :
        (u : OneUse) (d : Set Text)
        → IsGood src self d u
        → StepsWell src self (step_clean src self direct associated) u d
    unfolding step_clean
    step_clean-steps = if_needed-steps _ (λ f d m n good.
        IsPicked-steps (λ u e. pick (λ d' c. contains d' c) true u.public_headers u e) f d
          (pick-IsPicked src self (λ d' c. contains d' c) true f.public_headers f d (inl refl)
            (λ c t. inl refl) good))

    suggest-steps :
        (u : OneUse) (d : Set Text) (c : Text)
        → has_suggested_header u ≡ false
        → IsCandidate src (set_suggested_header u c)
        → IsGood src self d u
        → StepsWell src self (λ v e. some (suggest v e c)) u d
    suggest-steps u d c n m good = (
      set_suggested_header u c,
      set_insert d c,
      refl,
      Grows-insert d c,
      suggest-IsGood src self u _ c good.well_formed (insert-InDesired src self d c),
      suggest-Evolves src self u c n m,
    )

    single_candidate-one :
        (u : OneUse) (d : Set Text) (only : Text) (others : List Text)
        → u.public_headers ≡ only ∷ others
        → is_empty others ≡ true
        → single_candidate src self direct associated u d ≡ suggest u d only
    unfolding single_candidate
    single_candidate-one u d only others e one = ground arith

    step_one-picks :
        (u : OneUse) (d : Set Text)
        → u.ignore_use ≡ false
        → has_suggested_header u ≡ false
        → step_one src self direct associated u d
          ≡ if_needed src (pick_certain src self direct associated) u d
    unfolding step_one
    step_one-picks u d counts n = ground arith

    single_candidate-steps :
        (u : OneUse) (d : Set Text)
        → has_suggested_header u ≡ false
        → IsGood src self d u
        → StepsWell src self (λ v e. some (single_candidate src self direct associated v e)) u d
    unfolding single_candidate
    single_candidate-steps u d n good = elim (List-cases u.public_headers) [
      | inl nil ↦ (u, d, simp (nil, single_candidate), Grows-refl d, good, Evolves-refl src u)
      | inr (only, others, e) ↦
          let (v, d', q, g, gd, ev) = suggest-steps u d only n (inl (rw e (inl refl))) good in
          elim (Bool-cases (is_empty others)) [
            | inl one ↦ (v, d', ap some (single_candidate-one u d only others e one) ∙ q, g, gd, ev)
            | inr more ↦
                (u, d, simp (e, single_candidate, more), Grows-refl d, good, Evolves-refl src u)
          ]
    ]

    pick_certain-steps :
        (u : OneUse) (d : Set Text)
        → has_suggested_header u ≡ false
        → IsGood src self d u
        → StepsWell src self (pick_certain src self direct associated) u d
    unfolding pick_certain
    pick_certain-steps u d n good =
        let (a, ea, na) = good.well_formed.use_quotable in
        let (b, eb, nb) = good.well_formed.decl_quotable in
        elim (Bool-cases (public_headers_contain u a && contains direct b)) [
          | inl here ↦
              let (v, d', q, g, gd, ev) = suggest-steps u d b n (inr (inr eb)) good in
              (v, d', rw ea (rw eb (rw here q)), g, gd, ev)
          | inr away ↦
              let (v, d', q, g, gd, ev) = single_candidate-steps u d n good in
              (v, d', rw ea (rw eb (rw away q)), g, gd, ev)
        ]

    pub step_one-steps :
        (u : OneUse) (d : Set Text)
        → IsWellFormed src u
        → StepsWell src self (step_one src self direct associated) u d
    unfolding step_one
    step_one-steps u d wf = elim (Bool-cases u.ignore_use) [
      | inl i ↦ (
        u,
        d,
        simp i,
        Grows-refl d,
        record { well_formed = wf; served = λ i' s. cc },
        Evolves-refl src u,
      )
      | inr counts ↦ elim (Bool-cases (has_suggested_header u)) [
        | inl s ↦ (
          u,
          set_insert d u.suggested_header,
          simp (counts, s),
          Grows-insert d u.suggested_header,
          record {
            well_formed = wf;
            served = λ i' s'. insert-InDesired src self d u.suggested_header;
          },
          Evolves-refl src u,
        )
        | inr n ↦
            let (v, d', q, g, gd, ev) =
              if_needed-steps (pick_certain src self direct associated)
                (λ f e m n' good. pick_certain-steps f e n' good) u d
                (record { well_formed = wf; served = λ i' s'. cc }) in
            (v, d', step_one-picks u d counts n ∙ q, g, gd, ev)
      ]
    ]
