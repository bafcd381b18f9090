-- ===== src/Output/Minimal/Fill.antt =====
-- `public_headers` and `NeedsSuggestedHeader`: when the headers are filled in, and what is known then.
use include_what_you_use.Base.{
  Bool, true, false, ◌||◌, some, List, ◌≡◌, refl, inl, inr, arith, All, Bool-cases, is_empty,
}
use include_what_you_use.Text.{Text}
use include_what_you_use.Output.Use.{
  OneUse, HeaderSource, is_full_use, has_suggested_header, fill_headers, needs_suggested_header,
}
use include_what_you_use.Output.Minimal.Relation.{IsWellFormed, Evolves, Evolves-refl}

-- What `SetPublicHeaders` does for a use without a header.
pub record Fills (src : HeaderSource) (u : OneUse) : Type 0 where
  pub headers : List Text
  pub canonical : List Text
  pub filled :
      src.set_public_headers u
      ≡ some (record u { public_headers = headers; canonical_headers = canonical })
  pub headers_nonempty : All (λ h. is_empty h ≡ false) headers
  pub canonical_nonempty : All (λ h. is_empty h ≡ false) canonical
  pub full_has_one : is_full_use u ≡ true → is_empty headers ≡ false

-- The promise of `SetPublicHeaders`: it fills in headers for a use that has none yet, and finds one at
-- least for a full use.
pub record IsHeaderSource (src : HeaderSource) : Type 0 where
  pub fills : (u : OneUse) → IsWellFormed src u → has_suggested_header u ≡ false → Fills src u

module _ (src : HeaderSource) where
  -- A use whose headers are filled in.
  pub record IsFilled (u f : OneUse) : Type 0 where
    pub evolves : Evolves src u f
    pub well_formed : IsWellFormed src f
    pub unsuggested : has_suggested_header f ≡ false

  fill_headers_lem :
      IsHeaderSource src
      → (u : OneUse) → IsWellFormed src u
      → has_suggested_header u ≡ false
      → (f : OneUse) × (fill_headers src u ≡ some f)
        × IsFilled u f
        × (is_full_use u ≡ true → is_empty f.public_headers ≡ false)
  unfolding fill_headers
  fill_headers_lem laws u wf n = elim (Bool-cases (is_empty u.public_headers)) [
    | inr there ↦ (
      u,
      rw there refl,
      record { evolves = Evolves-refl src u; well_formed = wf; unsuggested = n },
      λ h. there,
    )
    | inl missing ↦
        let found = laws.fills u wf n in
        let f = record u { public_headers = found.headers; canonical_headers = found.canonical } in
        (
          f,
          rw missing (rw found.filled (ground (arith, found.full_has_one))),
          record {
            evolves = record {
              kind = refl;
              ignored = refl;
              path = refl;
              loc = refl;
              symbol = refl;
              decl = refl;
              violation = refl;
              settled = λ h. cc;
              origin = λ h k. cc;
            };
            well_formed = record {
              use_quotable = wf.use_quotable;
              decl_quotable = wf.decl_quotable;
              public_nonempty = found.headers_nonempty;
              canonical_nonempty = found.canonical_nonempty;
            };
            unsuggested = n;
          },
          found.full_has_one,
        )
  ]

  -- The answers of `NeedsSuggestedHeader`, each with what it means.
  pub data Needs (u : OneUse) : Bool → OneUse → Type 0 where
    settled : (u.ignore_use || has_suggested_header u) ≡ true → Needs u false u
    no_header :
        {f : OneUse}
        → u.ignore_use ≡ false
        → is_full_use u ≡ false
        → IsFilled u f
        → is_empty f.public_headers ≡ true
        → Needs u false f
    needed :
        {v : OneUse} (f : OneUse)
        → u.ignore_use ≡ false
        → IsFilled u v
        → fill_headers src v ≡ some f
        → IsFilled u f
        → is_empty f.public_headers ≡ false
        → Needs u true v

  fill_headers_again :
      (u : OneUse) → is_empty u.public_headers ≡ false → fill_headers src u ≡ some u
  unfolding fill_headers
  fill_headers_again u h = rw h refl

  pub needs_suggested_header_lem :
      IsHeaderSource src
      → (u : OneUse) → IsWellFormed src u
      → (n : Bool) × (v : OneUse) × (needs_suggested_header src u ≡ some (n, v)) × Needs u n v
  unfolding needs_suggested_header
  needs_suggested_header_lem laws u wf =
      elim (Bool-cases (u.ignore_use || has_suggested_header u)) [
        | inl s ↦ (false, u, rw s refl, settled s)
        | inr open_use ↦
            let fresh : has_suggested_header u ≡ false = ground arith in
            let counts : u.ignore_use ≡ false = ground arith in
            let (f, e, filled, full_has) = fill_headers_lem laws u wf fresh in
            elim (Bool-cases (is_full_use u)) [
              | inl full_use ↦ (
                true,
                u,
                rw open_use (rw full_use refl),
                needed f counts
                    (record { evolves = Evolves-refl src u; well_formed = wf; unsuggested = fresh })
                    e filled (full_has full_use),
              )
              | inr fwd ↦ elim (Bool-cases (is_empty f.public_headers)) [
                | inl nothing ↦ (
                  false,
                  f,
                  rw open_use (rw fwd (rw e (rw nothing refl))),
                  no_header counts fwd filled nothing,
                )
                | inr found ↦ (
                  true,
                  f,
                  rw open_use (rw fwd (rw e (rw found refl))),
                  needed f counts filled (fill_headers_again f found) filled found,
                )
              ]
            ]
      ]
