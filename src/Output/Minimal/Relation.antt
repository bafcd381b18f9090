-- ===== src/Output/Minimal/Relation.antt =====
-- How a step of `CalculateMinimalIncludes` may change a use and the desired headers.
use include_what_you_use.Base.{
  true, false, Option, some, List, [], ◌∷◌, ◌≡◌, refl, ◌∙◌, ◌⊎◌, inl, inr, arith, All, Elem,
  Bool-cases, is_empty,
}
use include_what_you_use.Text.{Text}
use include_what_you_use.Text.Order.{text_key}
use include_what_you_use.Container.{Set, contains, set_insert}
use include_what_you_use.Container.Laws.{contains-set_insert}
use include_what_you_use.Output.Use.{OneUse, HeaderSource, has_suggested_header}
use include_what_you_use.Output.Minimal.{for_each}

-- A path that has a quoted form.
abbrev pub IsQuotable : HeaderSource → Text → Type 0
IsQuotable src path = (q : Text) × (src.quoted path ≡ some q) × (is_empty q ≡ false)

-- The headers that a use may be given are not empty strings, and its paths have a quoted form.
pub record IsWellFormed (src : HeaderSource) (u : OneUse) : Type 0 where
  pub use_quotable : IsQuotable src (src.file_path u.use_loc)
  pub decl_quotable : IsQuotable src u.decl_filepath
  pub public_nonempty : All (λ h. is_empty h ≡ false) u.public_headers
  pub canonical_nonempty : All (λ h. is_empty h ≡ false) u.canonical_headers

abbrev pub Grows : Set Text → Set Text → Type 0
Grows d d' = (x : Text) → contains d x ≡ true → contains d' x ≡ true

pub Grows-refl : (d : Set Text) → Grows d d
Grows-refl d x h = h

pub Grows-insert : (d : Set Text) (c : Text) → Grows d (set_insert d c)
Grows-insert d c x h = ground (arith, contains-set_insert d c x)

module _ (src : HeaderSource) (self : Text) where
  abbrev pub InDesired : Set Text → Text → Type 0
  InDesired d h = (contains d h ≡ true) ⊎ (h ≡ self)

  -- The header of a use that counts is desired, or the file itself.
  abbrev pub IsServed : Set Text → OneUse → Type 0
  IsServed d u =
      u.ignore_use ≡ false → has_suggested_header u ≡ true → InDesired d u.suggested_header

  pub record IsGood (d : Set Text) (u : OneUse) : Type 0 where
    pub well_formed : IsWellFormed src u
    pub served : IsServed d u

  pub IsGood-Grows : (d d' : Set Text) (u : OneUse) → Grows d d' → IsGood d u → IsGood d' u
  IsGood-Grows d d' u g h = record {
    well_formed = h.well_formed;
    served = λ i s. elim (h.served i s) [ inl a ↦ inl (g u.suggested_header a) | inr b ↦ inr b ];
  }

-- Where a header that is given to a use comes from.
abbrev pub IsCandidate : HeaderSource → OneUse → Type 0
IsCandidate src u =
    Elem u.suggested_header u.public_headers
    ⊎ Elem u.suggested_header u.canonical_headers
    ⊎ (src.quoted u.decl_filepath ≡ some u.suggested_header)

-- A step leaves a use alone that has a header, and else fills in headers and may give it a candidate.
pub record Evolves (src : HeaderSource) (u v : OneUse) : Type 0 where
  pub kind : v.use_kind ≡ u.use_kind
  pub ignored : v.ignore_use ≡ u.ignore_use
  pub path : v.decl_filepath ≡ u.decl_filepath
  pub loc : v.use_loc ≡ u.use_loc
  pub symbol : v.symbol_name ≡ u.symbol_name
  pub decl : v.decl ≡ u.decl
  pub violation : v.is_iwyu_violation ≡ u.is_iwyu_violation
  pub settled : has_suggested_header u ≡ true → v ≡ u
  pub origin : has_suggested_header u ≡ false → has_suggested_header v ≡ true → IsCandidate src v

pub Evolves-refl : (src : HeaderSource) (u : OneUse) → Evolves src u u
Evolves-refl src u = record {
  kind = refl;
  ignored = refl;
  path = refl;
  loc = refl;
  symbol = refl;
  decl = refl;
  violation = refl;
  settled = λ h. refl;
  origin = λ h k. cc;
}

pub Evolves-trans :
    (src : HeaderSource) (u v w : OneUse) → Evolves src u v → Evolves src v w → Evolves src u w
Evolves-trans src u v w p q = record {
  kind = q.kind ∙ p.kind;
  ignored = q.ignored ∙ p.ignored;
  path = q.path ∙ p.path;
  loc = q.loc ∙ p.loc;
  symbol = q.symbol ∙ p.symbol;
  decl = q.decl ∙ p.decl;
  violation = q.violation ∙ p.violation;
  settled = λ h. let e = p.settled h in q.settled (rw e h) ∙ e;
  origin = λ h k. elim (Bool-cases (has_suggested_header v)) [
    | inl s ↦ let e = q.settled s in rw e (p.origin h s)
    | inr n ↦ q.origin n k
  ];
}

abbrev pub AllEvolve : HeaderSource → List OneUse → List OneUse → Type 0
AllEvolve src [] [] = Unit
AllEvolve src (u ∷ us) (v ∷ vs) = Evolves src u v × AllEvolve src us vs
AllEvolve src _ _ = ⊥

pub AllEvolve-refl : (src : HeaderSource) (us : List OneUse) → AllEvolve src us us
AllEvolve-refl src [] = tt
AllEvolve-refl src (u ∷ us) = (Evolves-refl src u, AllEvolve-refl src us)

pub AllEvolve-trans :
    (src : HeaderSource) (us vs ws : List OneUse)
    → AllEvolve src us vs
    → AllEvolve src vs ws
    → AllEvolve src us ws
AllEvolve-trans src [] [] [] p q = tt
AllEvolve-trans src (u ∷ us) (v ∷ vs) (w ∷ ws) p q =
    (Evolves-trans src u v w p.0 q.0, AllEvolve-trans src us vs ws p.1 q.1)
AllEvolve-trans src [] [] (w ∷ ws) p q = absurd q
AllEvolve-trans src [] (v ∷ vs) ws p q = absurd p
AllEvolve-trans src (u ∷ us) [] ws p q = absurd p
AllEvolve-trans src (u ∷ us) (v ∷ vs) [] p q = absurd q

module _ (src : HeaderSource) (self : Text) where
  -- What a body of a loop over the uses has to do.
  abbrev pub StepsWell :
      (OneUse → Set Text → Option (OneUse × Set Text)) → OneUse → Set Text → Type 0
  StepsWell body u d =
      (v : OneUse) × (d' : Set Text) × (body u d ≡ some (v, d'))
      × Grows d d'
      × IsGood src self d' v
      × Evolves src u v

  pub for_each-steps :
      (P : Set Text → OneUse → Type 0) (body : OneUse → Set Text → Option (OneUse × Set Text))
      → ((d d' : Set Text) (u : OneUse) → Grows d d' → P d u → P d' u)
      → ((u : OneUse) (d : Set Text) → P d u → StepsWell body u d)
      → (us : List OneUse) (d : Set Text) → All (P d) us
      → (vs : List OneUse) × (d' : Set Text) × (for_each body us d ≡ some (vs, d'))
        × Grows d d'
        × All (IsGood src self d') vs
        × AllEvolve src us vs
  unfolding for_each
  for_each-steps P body mono step [] d all = ([], d, refl, Grows-refl d, tt, tt)
  for_each-steps P body mono step (u ∷ us) d all =
      let (v, d₁, e, g, good, ev) = step u d all.0 in
      let (vs, d₂, es, gs, goods, evs) =
        for_each-steps P body mono step us d₁ (lift us d₁ g all.1) in
      (
        v ∷ vs,
        d₂,
        rw e (rw es refl),
        λ x h. gs x (g x h),
        (IsGood-Grows src self d₁ d₂ v gs good, goods),
        (ev, evs),
      )
    where
      lift : (us : List OneUse) (d₁ : Set Text) → Grows d d₁ → All (P d) us → All (P d₁) us
      lift [] d₁ g a = tt
      lift (w ∷ ws) d₁ g a = (mono d d₁ w g a.0, lift ws d₁ g a.1)
