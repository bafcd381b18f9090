-- ===== src/Output/Minimal/Cover.antt =====
-- The set cover of step (3) of `CalculateMinimalIncludes`: each round gives a header to one use at least,
-- so that the loop ends and leaves no use that needs one.
use include_what_you_use.Base.{
  ℕ, zero, suc, ◌≤◌, ◌+◌, Bool, true, false, some, List, [], ◌∷◌, ◌≡◌, refl, ◌∙◌, ◌⊎◌, inl, inr,
  arith, All, All-elem, Bool-cases, is_empty, count_if, map, if◌then◌else◌, ◌==◌, length,
}
use include_what_you_use.Text.{Text}
use include_what_you_use.Text.Order.{text_key}
use include_what_you_use.Container.{Set, set_insert}
use include_what_you_use.Container.Laws.{contains_iff}
use include_what_you_use.Output.Use.{
  OneUse, HeaderSource, is_full_use, has_suggested_header, set_suggested_header, fill_headers,
  needs_suggested_header, public_headers_contain,
}
use include_what_you_use.Output.Minimal.{Tracked, assign, set_cover, track, best_header}
use include_what_you_use.Output.Minimal.Relation.{
  Grows, Grows-refl, Grows-insert, IsGood, IsGood-Grows, Evolves, Evolves-refl, AllEvolve,
  AllEvolve-refl, AllEvolve-trans,
}
use include_what_you_use.Output.Minimal.Fill.{
  IsHeaderSource, Needs, settled, no_header, needed, needs_suggested_header_lem,
}
use include_what_you_use.Output.Minimal.Pick.{suggest-Evolves, suggest-IsGood, insert-InDesired}
use include_what_you_use.Output.Minimal.Count.{serves, best_header_lem}

-- A use that needs no header any more.
abbrev pub IsSettled : OneUse → Type 0
IsSettled u =
    (u.ignore_use ≡ true)
    ⊎ (has_suggested_header u ≡ true)
    ⊎ ((is_full_use u ≡ false) × (is_empty u.public_headers ≡ true))

-- A use that needs one, and knows its candidates.
pub record IsOpen (u : OneUse) : Type 0 where
  pub counts : u.ignore_use ≡ false
  pub unsuggested : has_suggested_header u ≡ false
  pub headers : is_empty u.public_headers ≡ false

unmapped : List Tracked → ℕ
unmapped ts = count_if (λ t. t.0) ts

module _ (src : HeaderSource) (self : Text) (laws : IsHeaderSource src) where
  record IsTracked (d : Set Text) (t : Tracked) : Type 0 where
    good : IsGood src self d t.1
    if_open : t.0 ≡ true → IsOpen t.1
    if_closed : t.0 ≡ false → IsSettled t.1

  IsTracked-Grows : (d d' : Set Text) (t : Tracked) → Grows d d' → IsTracked d t → IsTracked d' t
  IsTracked-Grows d d' t g h = record {
    good = IsGood-Grows src self d d' t.1 g h.good;
    if_open = h.if_open;
    if_closed = h.if_closed;
  }

  All-IsTracked-Grows :
      (d d' : Set Text) (ts : List Tracked)
      → Grows d d'
      → All (IsTracked d) ts
      → All (IsTracked d') ts
  All-IsTracked-Grows d d' [] g a = tt
  All-IsTracked-Grows d d' (t ∷ ts) g a =
      (IsTracked-Grows d d' t g a.0, All-IsTracked-Grows d d' ts g a.1)

  track_lem :
      (d : Set Text) (us : List OneUse)
      → All (IsGood src self d) us
      → (ts : List Tracked) × (track src us ≡ some ts)
        × All (IsTracked d) ts
        × AllEvolve src us (map (λ t. t.1) ts)
  unfolding track
  track_lem d [] a = ([], refl, tt, tt)
  track_lem d (u ∷ us) a =
      let (ts, es, oks, evs) = track_lem d us a.1 in
      let (n, v, e, why) = needs_suggested_header_lem src laws u a.0.well_formed in
      let (t, et, ok, ev) = by_answer n v e why in (t ∷ ts, et ts es, (ok, oks), (ev, evs))
    where
      by_answer :
          (n : Bool) (v : OneUse)
          → needs_suggested_header src u ≡ some (n, v)
          → Needs src u n v
          → (t : Tracked) × ((ts : List Tracked)
              → track src us ≡ some ts
              → track src (u ∷ us) ≡ some (t ∷ ts))
            × IsTracked d t
            × Evolves src u t.1
      by_answer false v e (settled s) = (
        (false, u),
        (λ ts es. rw e (rw es refl)),
        record { good = a.0; if_open = λ h. cc; if_closed = λ h. ground (arith, s) },
        Evolves-refl src u,
      )
      by_answer false v e (no_header i k f m) = (
        (false, v),
        (λ ts es. rw e (rw es refl)),
        record {
          good = record { well_formed = f.well_formed; served = λ i' s. cc (s, f.unsuggested) };
          if_open = λ h. cc;
          if_closed = λ h. inr (inr (still_fwd v f.evolves k, m));
        },
        f.evolves,
      )
        where
          still_fwd : (v : OneUse) → Evolves src u v → is_full_use u ≡ false → is_full_use v ≡ false
          still_fwd v ev k = rw ev.kind k
      by_answer true v e (needed f i fv ef ff m) = (
        (true, f),
        (λ ts es. rw e (rw ef (rw es refl))),
        record {
          good = record { well_formed = ff.well_formed; served = λ i' s. cc (s, ff.unsuggested) };
          if_open = λ h. record {
            counts = ff.evolves.ignored ∙ i;
            unsuggested = ff.unsuggested;
            headers = m;
          };
          if_closed = λ h. cc;
        },
        ff.evolves,
      )

  -- One use that needs a header, in one round.
  open-needs : (u : OneUse) → IsOpen u → needs_suggested_header src u ≡ some (true, u)
  unfolding needs_suggested_header fill_headers
  open-needs u h = ground (arith, h.counts, h.unsuggested, h.headers)

  open-filled : (u : OneUse) → IsOpen u → fill_headers src u ≡ some u
  unfolding fill_headers
  open-filled u h = ground (arith, h.headers)

  -- The uses after a round.
  record IsAssigned (hdr : Text) (d : Set Text) (ts : List Tracked) : Type 0 where
    rest : List Tracked
    assigned : assign src hdr ts ≡ some rest
    tracked : All (IsTracked (set_insert d hdr)) rest
    evolves : AllEvolve src (map (λ t. t.1) ts) (map (λ t. t.1) rest)
    fewer : unmapped rest + (if serves ts hdr then 1 else 0) ≤ unmapped ts

  assign-IsAssigned :
      (hdr : Text) (d : Set Text) (ts : List Tracked) → All (IsTracked d) ts → IsAssigned hdr d ts
  unfolding assign unmapped
  assign-IsAssigned hdr d [] a = record {
    rest = [];
    assigned = refl;
    tracked = tt;
    evolves = tt;
    fewer = omega arith;
  }
  assign-IsAssigned hdr d ((false, u) ∷ ts) a =
      let r = assign-IsAssigned hdr d ts a.1 in
      record {
        rest = (false, u) ∷ r.rest;
        assigned = rw r.assigned refl;
        tracked =
            (IsTracked-Grows d (set_insert d hdr) (false, u) (Grows-insert d hdr) a.0, r.tracked);
        evolves = (Evolves-refl src u, r.evolves);
        fewer = ground (arith, r.fewer);
      }
  assign-IsAssigned hdr d ((true, u) ∷ ts) a =
      let r = assign-IsAssigned hdr d ts a.1 in
      let o = a.0.if_open refl in
      elim (Bool-cases (public_headers_contain u hdr)) [
        | inl takes ↦
            let member = (contains_iff u.public_headers hdr).0 takes in
            let nonempty =
              All-elem (λ h. is_empty h ≡ false) hdr u.public_headers
                a.0.good.well_formed.public_nonempty member in
            record {
              rest = (false, set_suggested_header u hdr) ∷ r.rest;
              assigned = rw (open-needs u o) (rw (open-filled u o) (rw r.assigned (rw takes refl)));
              tracked = (
                record {
                  good =
                      suggest-IsGood src self u _ hdr a.0.good.well_formed
                        (insert-InDesired src self d hdr);
                  if_open = λ h. cc;
                  if_closed = λ h. inr (inl (ground (arith, nonempty)));
                },
                r.tracked,
              );
              evolves = (suggest-Evolves src self u hdr o.unsuggested (inl member), r.evolves);
              fewer = ground (arith, r.fewer);
            }
        | inr other ↦ record {
          rest = (true, u) ∷ r.rest;
          assigned = rw (open-needs u o) (rw (open-filled u o) (rw r.assigned (rw other refl)));
          tracked =
              (IsTracked-Grows d (set_insert d hdr) (true, u) (Grows-insert d hdr) a.0, r.tracked);
          evolves = (Evolves-refl src u, r.evolves);
          fewer = ground (arith, r.fewer);
        }
      ]

  All-open :
      (d : Set Text) (ts : List Tracked)
      → All (IsTracked d) ts
      → All (λ t. t.0 ≡ true → is_empty t.1.public_headers ≡ false) ts
  All-open d [] a = tt
  All-open d (t ∷ ts) a = ((λ h. (a.0.if_open h).headers), All-open d ts a.1)

  All-IsSettled :
      (d : Set Text) (ts : List Tracked)
      → All (IsTracked d) ts
      → unmapped ts ≡ 0
      → All IsSettled (map (λ t. t.1) ts)
  unfolding unmapped
  All-IsSettled d [] a none_left = tt
  All-IsSettled d ((false, u) ∷ ts) a none_left =
      (a.0.if_closed refl, All-IsSettled d ts a.1 (omega (arith, none_left)))
  All-IsSettled d ((true, u) ∷ ts) a none_left = absurd (omega (arith, none_left))

  All-IsGood :
      (d : Set Text) (ts : List Tracked)
      → All (IsTracked d) ts
      → All (IsGood src self d) (map (λ t. t.1) ts)
  All-IsGood d [] a = tt
  All-IsGood d (t ∷ ts) a = (a.0.good, All-IsGood d ts a.1)

  -- What the loop leaves.
  pub record IsCovered (ts : List Tracked) (d : Set Text) (ts' : List Tracked) (d' : Set Text)
      : Type 0 where
    pub grows : Grows d d'
    pub good : All (IsGood src self d') (map (λ t. t.1) ts')
    pub evolves : AllEvolve src (map (λ t. t.1) ts) (map (λ t. t.1) ts')
    pub settled : All IsSettled (map (λ t. t.1) ts')

  set_cover-next :
      (fuel : ℕ) (ts rest : List Tracked) (d : Set Text) (hdr : Text)
      → (unmapped ts == 0) ≡ false
      → best_header ts ≡ some hdr
      → assign src hdr ts ≡ some rest
      → set_cover src (suc fuel) ts d ≡ set_cover src fuel rest (set_insert d hdr)
  unfolding set_cover unmapped
  set_cover-next fuel ts rest d hdr more best e = ground arith

  set_cover_lem :
      (fuel : ℕ) (ts : List Tracked) (d : Set Text)
      → All (IsTracked d) ts
      → unmapped ts ≤ fuel
      → (ts' : List Tracked) × (d' : Set Text) × (set_cover src fuel ts d ≡ some (ts', d'))
        × IsCovered ts d ts' d'
  unfolding set_cover unmapped
  set_cover_lem zero ts d a l = (
    ts,
    d,
    ground (arith, l),
    record {
      grows = Grows-refl d;
      good = All-IsGood d ts a;
      evolves = AllEvolve-refl src (map (λ t. t.1) ts);
      settled = All-IsSettled d ts a (omega (arith, l));
    },
  )
  set_cover_lem (suc fuel) ts d a l = elim (Bool-cases (count_if (λ t. t.0) ts == 0)) [
    | inl finished ↦ (
      ts,
      d,
      ground (arith, finished),
      record {
        grows = Grows-refl d;
        good = All-IsGood d ts a;
        evolves = AllEvolve-refl src (map (λ t. t.1) ts);
        settled = All-IsSettled d ts a (ground (arith, finished));
      },
    )
    | inr more ↦
        let (hdr, best, serves) = best_header_lem ts (All-open d ts a) more in
        let r = assign-IsAssigned hdr d ts a in
        let (ts', d', e, c) =
          set_cover_lem fuel r.rest (set_insert d hdr) r.tracked
            (ground (arith, r.fewer, serves, l)) in
        (
          ts',
          d',
          set_cover-next fuel ts r.rest d hdr more best r.assigned ∙ e,
          record {
            grows = λ x h. c.grows x (Grows-insert d hdr x h);
            good = c.good;
            evolves = AllEvolve-trans src _ _ _ r.evolves c.evolves;
            settled = c.settled;
          },
        )
  ]

  unmapped-length : (ts : List Tracked) → unmapped ts ≤ length ts
  unfolding unmapped
  unmapped-length [] = omega arith
  unmapped-length ((b, u) ∷ ts) = ground (arith, unmapped-length ts)

  -- `unmapped_uses` is built, and the loop ends within as many rounds as there are uses.
  pub cover_lem :
      (us : List OneUse) (d : Set Text)
      → All (IsGood src self d) us
      → (ts : List Tracked) × (ts' : List Tracked) × (d' : Set Text) × (track src us ≡ some ts)
        × (set_cover src (length ts) ts d ≡ some (ts', d'))
        × AllEvolve src us (map (λ t. t.1) ts)
        × IsCovered ts d ts' d'
  cover_lem us d a =
      let (ts, e, oks, evs) = track_lem d us a in
      let (ts', d', e', c) = set_cover_lem (length ts) ts d oks (unmapped-length ts) in
      (ts, ts', d', e, e', evs, c)
