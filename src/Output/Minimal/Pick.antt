-- ===== src/Output/Minimal/Pick.antt =====
-- The loops over the choices of one use in `CalculateMinimalIncludes`.
use include_what_you_use.Base.{
  Bool, true, false, List, [], ◌∷◌, ◌≡◌, refl, sym, ◌∙◌, ◌⊎◌, inl, inr, arith, All, Elem,
  Bool-cases, is_empty, if◌then◌else◌,
}
use include_what_you_use.Text.{Text}
use include_what_you_use.Text.Order.{text_key, text_eq_iff}
use include_what_you_use.Container.{Set, set_insert}
use include_what_you_use.Container.Laws.{contains-set_insert}
use include_what_you_use.Output.Use.{
  OneUse, HeaderSource, has_suggested_header, set_suggested_header,
}
use include_what_you_use.Output.Minimal.{pick}
use include_what_you_use.Output.Minimal.Relation.{
  IsWellFormed, Grows, Grows-refl, Grows-insert, InDesired, IsGood, IsCandidate, Evolves,
  Evolves-refl, Evolves-trans,
}

-- What a loop over choices does: nothing, or it suggests one that passes the test.
data Picked (test : Set Text → Text → Bool) (keeps : Bool) (choices : List Text) (u : OneUse)
    (d : Set Text) : OneUse × Set Text → Type 0 where
  same : Picked test keeps choices u d (u, d)
  chose :
      (c : Text)
      → has_suggested_header u ≡ false
      → Elem c choices
      → is_empty c ≡ false
      → test d c ≡ true
      → Picked test keeps choices u d
          (set_suggested_header u c, if keeps then set_insert d c else d)

pick_settled :
    (test : Set Text → Text → Bool) (keeps : Bool) (choices : List Text) (u : OneUse) (d : Set Text)
    → has_suggested_header u ≡ true
    → pick test keeps choices u d ≡ (u, d)
unfolding pick
pick_settled test keeps [] u d h = refl
pick_settled test keeps (c ∷ cs) u d h = rw h refl

pick-Picked :
    (test : Set Text → Text → Bool) (keeps : Bool) (choices : List Text) (u : OneUse) (d : Set Text)
    → All (λ h. is_empty h ≡ false) choices
    → Picked test keeps choices u d (pick test keeps choices u d)
unfolding pick
pick-Picked test keeps [] u d ne = same
pick-Picked test keeps (c ∷ cs) u d ne = elim (Bool-cases (has_suggested_header u)) [
  | inl s ↦ rw s same
  | inr n ↦ elim (Bool-cases (test d c)) [
    | inl passes ↦ rw n (
        rw passes (
          rw
            (pick_settled test keeps cs (set_suggested_header u c)
              (if keeps then set_insert d c else d) (ground arith))
            (chose c n (inl refl) ne.0 passes)))
    | inr fails ↦ rw n (rw fails (later (pick-Picked test keeps cs u d ne.1)))
  ]
]
  where
    later : {r : OneUse × Set Text} → Picked test keeps cs u d r → Picked test keeps (c ∷ cs) u d r
    later same = same
    later (chose b n m e t) = chose b n (inr m) e t

module _ (src : HeaderSource) (self : Text) where
  -- A use after picking: it has the same candidates as before.
  pub record IsPicked (d : Set Text) (f : OneUse) (r : OneUse × Set Text) : Type 0 where
    pub grows : Grows d r.1
    pub good : IsGood src self r.1 r.0
    pub evolves : Evolves src f r.0
    pub publics : r.0.public_headers ≡ f.public_headers
    pub canonicals : r.0.canonical_headers ≡ f.canonical_headers

  pub suggest-Evolves :
      (u : OneUse) (c : Text)
      → has_suggested_header u ≡ false
      → IsCandidate src (set_suggested_header u c)
      → Evolves src u (set_suggested_header u c)
  suggest-Evolves u c n m = record {
    kind = refl;
    ignored = refl;
    path = refl;
    loc = refl;
    symbol = refl;
    decl = refl;
    violation = refl;
    settled = λ h. cc;
    origin = λ h k. m;
  }

  pub suggest-IsGood :
      (u : OneUse) (d : Set Text) (c : Text)
      → IsWellFormed src u
      → InDesired src self d c
      → IsGood src self d (set_suggested_header u c)
  suggest-IsGood u d c wf h = record {
    well_formed = record {
      use_quotable = wf.use_quotable;
      decl_quotable = wf.decl_quotable;
      public_nonempty = wf.public_nonempty;
      canonical_nonempty = wf.canonical_nonempty;
    };
    served = λ i s. h;
  }

  pub insert-InDesired : (d : Set Text) (c : Text) → InDesired src self (set_insert d c) c
  insert-InDesired d c = inl (ground (arith, contains-set_insert d c c, text_eq_iff c c))

  Picked-IsPicked :
      (test : Set Text → Text → Bool) (keeps : Bool) (choices : List Text) (u : OneUse)
      (d : Set Text) (r : OneUse × Set Text)
      → ((c : Text) → Elem c choices → Elem c u.public_headers ⊎ Elem c u.canonical_headers)
      → ((c : Text) → test d c ≡ true → (keeps ≡ true) ⊎ (c ≡ self))
      → IsGood src self d u
      → Picked test keeps choices u d r
      → IsPicked d u r
  Picked-IsPicked test keeps choices u d r from ok good same = record {
    grows = Grows-refl d;
    good = good;
    evolves = Evolves-refl src u;
    publics = refl;
    canonicals = refl;
  }
  Picked-IsPicked test keeps choices u d r from ok good (chose c n m ne t) = record {
    grows = grows keeps;
    good = suggest-IsGood u _ c good.well_formed (desired keeps (ok c t));
    evolves = suggest-Evolves u c n (elim (from c m) [ inl p ↦ inl p | inr q ↦ inr (inl q) ]);
    publics = refl;
    canonicals = refl;
  }
    where
      grows : (k : Bool) → Grows d (if k then set_insert d c else d)
      grows true = Grows-insert d c
      grows false = Grows-refl d

      desired :
          (k : Bool)
          → (k ≡ true) ⊎ (c ≡ self)
          → InDesired src self (if k then set_insert d c else d) c
      desired true h = insert-InDesired d c
      desired false (inl e) = cc
      desired false (inr e) = inr e

  IsPicked-trans :
      (d : Set Text) (u : OneUse) (r s : OneUse × Set Text)
      → IsPicked d u r
      → IsPicked r.1 r.0 s
      → IsPicked d u s
  IsPicked-trans d u r s p q = record {
    grows = λ x h. q.grows x (p.grows x h);
    good = q.good;
    evolves = Evolves-trans src u r.0 s.0 p.evolves q.evolves;
    publics = q.publics ∙ p.publics;
    canonicals = q.canonicals ∙ p.canonicals;
  }

  pub pick-IsPicked :
      (test : Set Text → Text → Bool) (keeps : Bool) (choices : List Text) (u : OneUse)
      (d : Set Text)
      → (choices ≡ u.public_headers) ⊎ (choices ≡ u.canonical_headers)
      → ((c : Text) → test d c ≡ true → (keeps ≡ true) ⊎ (c ≡ self))
      → IsGood src self d u
      → IsPicked d u (pick test keeps choices u d)
  pick-IsPicked test keeps choices u d (inl e) ok good =
      Picked-IsPicked test keeps choices u d _ (λ c m. inl (rw e at m)) ok good
        (pick-Picked test keeps choices u d (rw e good.well_formed.public_nonempty))
  pick-IsPicked test keeps choices u d (inr e) ok good =
      Picked-IsPicked test keeps choices u d _ (λ c m. inr (rw e at m)) ok good
        (pick-Picked test keeps choices u d (rw e good.well_formed.canonical_nonempty))

  pub pick-after :
      (test : Set Text → Text → Bool) (keeps : Bool) (choices : List Text) (u : OneUse)
      (d : Set Text) (r : OneUse × Set Text)
      → (choices ≡ u.public_headers) ⊎ (choices ≡ u.canonical_headers)
      → ((e : Set Text) (c : Text) → test e c ≡ true → (keeps ≡ true) ⊎ (c ≡ self))
      → IsPicked d u r
      → IsPicked d u (pick test keeps choices r.0 r.1)
  pick-after test keeps choices u d r from ok p =
      IsPicked-trans d u r _ p
        (pick-IsPicked test keeps choices r.0 r.1 (moved from) (ok r.1) p.good)
    where
      moved :
          (choices ≡ u.public_headers) ⊎ (choices ≡ u.canonical_headers)
          → (choices ≡ r.0.public_headers) ⊎ (choices ≡ r.0.canonical_headers)
      moved (inl e) = inl (e ∙ sym p.publics)
      moved (inr e) = inr (e ∙ sym p.canonicals)
