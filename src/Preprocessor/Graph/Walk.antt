-- ===== src/Preprocessor/Graph/Walk.antt =====
-- The depth-first walk of AddAllIncludesAsFileEntries.
use include_what_you_use.Base.{
  ℕ, zero, suc, ◌≤◌, ◌<◌, Bool, true, false, not, Option, some, List, [], ◌∷◌, ◌≡◌, refl, sym,
  subst, ◌∙◌, ap, ◌⊎◌, inl, inr, arith, Elem, count_if, Bool-cases, length,
}
use include_what_you_use.Base.Checked.{◌>>=◌}
use include_what_you_use.Container.{Map, Set, contains, set_insert}
use include_what_you_use.Container.Laws.{contains_iff, Elem-set_insert_iff}
use include_what_you_use.Output.FileInfo.{FileInfo}
use include_what_you_use.Preprocessor.{File, file_key}
use include_what_you_use.Preprocessor.Graph.{
  includes_of, add_includes, all_includes, add_all_includes_as_fileentries,
}
use include_what_you_use.Preprocessor.Graph.Count.{count_if_le, count_if_lt, includes_of-all}

module _ (infos : Map File FileInfo) where
  -- A file, what it includes, what that includes, and so on.
  pub data Reaches : File → File → Type 0 where
    here : {f : File} → Reaches f f
    through : {f h : File} (g : File) → Elem g (includes_of infos f) → Reaches g h → Reaches f h

  -- `after` is what a walk over `todo` makes of `before`.
  pub record Walked (todo : List File) (before after : Set File) : Type 0 where
    pub keeps : (f : File) → Elem f before → Elem f after
    pub covers : (f : File) → Elem f todo → Elem f after
    pub reached :
        (f : File) → Elem f after → Elem f before ⊎ ((g : File) × Elem g todo × Reaches g f)
    pub closed :
        (f : File)
        → Elem f after
        → Elem f before ⊎ ((g : File) → Elem g (includes_of infos f) → Elem g after)

  unseen : Set File → ℕ
  unseen seen = count_if (λ f. not (contains seen f)) (all_includes infos)

  unseen_le :
      (before after : Set File)
      → ((f : File) → Elem f before → Elem f after)
      → unseen after ≤ unseen before
  unfolding unseen
  unseen_le before after keeps =
      count_if_le (λ f. not (contains before f)) (λ f. not (contains after f))
        (λ f e. ground (arith, contains_iff before f, contains_iff after f, keeps f))
        (all_includes infos)

  unseen_lt :
      (seen : Set File) (i : File)
      → contains seen i ≡ false
      → Elem i (all_includes infos)
      → unseen (set_insert seen i) < unseen seen
  unfolding unseen
  unseen_lt seen i new known =
      count_if_lt (λ f. not (contains seen f)) (λ f. not (contains (set_insert seen i) f))
        (λ f e. ground (
          arith,
          contains_iff seen f,
          contains_iff (set_insert seen i) f,
          Elem-set_insert_iff seen i f,
        ))
        i (all_includes infos) (rw new refl)
        (ground (arith, contains_iff (set_insert seen i) i, Elem-set_insert_iff seen i i)) known

  unseen-length : (seen : Set File) → unseen seen ≤ length (all_includes infos)
  unfolding unseen
  unseen-length seen = by_list (all_includes infos)
    where
      by_list : (fs : List File) → count_if (λ f. not (contains seen f)) fs ≤ length fs
      by_list [] = omega arith
      by_list (f ∷ fs) = ground (arith, by_list fs)

  none_unseen :
      (seen : Set File) (i : File)
      → contains seen i ≡ false
      → Elem i (all_includes infos)
      → ¬ (unseen seen ≤ 0)
  none_unseen seen i new known h = omega (arith, unseen_lt seen i new known)

  -- One more file of the list: first what it includes, then the others.
  step-Walked :
      (i : File) (todo : List File) (before middle after : Set File)
      → Walked (includes_of infos i) (set_insert before i) middle
      → Walked todo middle after
      → Walked (i ∷ todo) before after
  step-Walked i todo before middle after down along = record {
    keeps = λ f h. along.keeps f (old f h);
    covers = λ f h. elim h [
      | inl e ↦ subst (λ x. Elem x after) (sym e) here_i
      | inr h' ↦ along.covers f h'
    ];
    reached = λ f h. elim (along.reached f h) [
      | inr (g, m, r) ↦ inr (g, inr m, r)
      | inl h₁ ↦ elim (down.reached f h₁) [
        | inr (g, m, r) ↦ inr (i, inl refl, through g m r)
        | inl h₂ ↦ elim ((Elem-set_insert_iff before i f).0 h₂) [
          | inl e ↦ inr (i, inl refl, subst (λ x. Reaches i x) (sym e) here)
          | inr h₃ ↦ inl h₃
        ]
      ]
    ];
    closed = λ f h. elim (along.closed f h) [
      | inr c ↦ inr c
      | inl h₁ ↦ elim (down.closed f h₁) [
        | inr c ↦ inr (λ g m. along.keeps g (c g m))
        | inl h₂ ↦ elim ((Elem-set_insert_iff before i f).0 h₂) [
          | inl e ↦
              inr (λ g m.
                along.keeps g (down.covers g (subst (λ x. Elem g (includes_of infos x)) e m)))
          | inr h₃ ↦ inl h₃
        ]
      ]
    ];
  }
    where
      old : (f : File) → Elem f before → Elem f middle
      old f h = down.keeps f ((Elem-set_insert_iff before i f).1 (inr h))

      here_i : Elem i after
      here_i = along.keeps i (down.keeps i ((Elem-set_insert_iff before i i).1 (inl refl)))

  skip-Walked :
      (i : File) (todo : List File) (before after : Set File)
      → Elem i before
      → Walked todo before after
      → Walked (i ∷ todo) before after
  skip-Walked i todo before after old along = record {
    keeps = along.keeps;
    covers = λ f h. elim h [
      | inl e ↦ along.keeps f (subst (λ x. Elem x before) (sym e) old)
      | inr h' ↦ along.covers f h'
    ];
    reached =
        λ f h. elim (along.reached f h) [ inl h' ↦ inl h' | inr (g, m, r) ↦ inr (g, inr m, r) ];
    closed = along.closed;
  }

  abbrev pub Walks : List File → Set File → Option (Set File) → Type 0
  Walks todo before result = (after : Set File) × (result ≡ some after) × Walked todo before after

  add_includes-step :
      (fuel : ℕ) (i : File) (todo : List File) (seen : Set File) {old : Bool}
      → contains seen i ≡ old
      → add_includes (suc fuel) infos (i ∷ todo) seen ≡ (elim old [
        | true ↦ add_includes (suc fuel) infos todo seen
        | false ↦
            (add_includes fuel infos (includes_of infos i) (set_insert seen i) >>= λ r.
            add_includes (suc fuel) infos todo r)
      ])
  unfolding add_includes
  add_includes-step fuel i todo seen e =
      ap
        (λ b. elim b [
          | true ↦ add_includes (suc fuel) infos todo seen
          | false ↦
              (add_includes fuel infos (includes_of infos i) (set_insert seen i) >>= λ r.
              add_includes (suc fuel) infos todo r)
        ])
        e

  -- Enough fuel: as many rounds as there are files to see.
  add_includes-Walks :
      (fuel : ℕ) (todo : List File) (seen : Set File)
      → unseen seen ≤ fuel
      → ((f : File) → Elem f todo → Elem f (all_includes infos))
      → Walks todo seen (add_includes fuel infos todo seen)
  unfolding add_includes
  add_includes-Walks fuel [] seen enough known = (
    seen,
    refl,
    record {
      keeps = λ f h. h;
      covers = λ f h. absurd h;
      reached = λ f h. inl h;
      closed = λ f h. inl h;
    },
  )
  add_includes-Walks zero (i ∷ todo) seen enough known = elim (Bool-cases (contains seen i)) [
    | inl old ↦
        let (after, e, w) = add_includes-Walks zero todo seen enough (λ f h. known f (inr h)) in
        (after, rw old e, skip-Walked i todo seen after ((contains_iff seen i).0 old) w)
    | inr new ↦ absurd (none_unseen seen i new (known i (inl refl)) enough)
  ]
  add_includes-Walks (suc fuel) (i ∷ todo) seen enough known = elim (Bool-cases (contains seen i)) [
    | inl old ↦
        let (after, e, w) =
          add_includes-Walks (suc fuel) todo seen enough (λ f h. known f (inr h)) in
        (
          after,
          add_includes-step fuel i todo seen old ∙ e,
          skip-Walked i todo seen after ((contains_iff seen i).0 old) w,
        )
    | inr new ↦
        let (middle, e, down) =
          add_includes-Walks fuel (includes_of infos i) (set_insert seen i)
            (omega (arith, unseen_lt seen i new (known i (inl refl)))) (includes_of-all infos i) in
        let (after, e', along) =
          add_includes-Walks (suc fuel) todo middle
            (omega (
              arith,
              enough,
              unseen_lt seen i new (known i (inl refl)),
              unseen_le (set_insert seen i) middle down.keeps,
            ))
            (λ f h. known f (inr h)) in
        (
          after,
          add_includes-step fuel i todo seen new ∙ (rw e e'),
          step-Walked i todo seen middle after down along,
        )
  ]

  pub add_all_includes_as_fileentries-Walks :
      (file : File) (seen : Set File)
      → Walks (includes_of infos file) seen (add_all_includes_as_fileentries infos file seen)
  unfolding add_all_includes_as_fileentries
  add_all_includes_as_fileentries-Walks file seen =
      add_includes-Walks (length (all_includes infos)) (includes_of infos file) seen
        (unseen-length seen) (includes_of-all infos file)
