-- ===== src/PathUtil/Search.antt =====
-- `ConvertToQuotedInclude` shortens a path by the longest search path that is a prefix of it.
use include_what_you_use.Base.{
  ◌≤◌, true, Option, none, some, List, [], ◌∷◌, ◌++◌, ◌≡◌, ◌≢◌, refl, ◌↔◌, ◌⊎◌, inl, inr, arith, ap,
  length, Bool-cases, Elem, All, All-elem, All-of_Elem,
}
use include_what_you_use.Text.{Text, starts_with}
use include_what_you_use.Text.Find.{starts_with-append, eq_of_starts_with}
use include_what_you_use.PathUtil.{
  PathApi, HeaderSearchPath, add_quotes, strip_path_prefix, is_system, quote_by_search_path,
}
use include_what_you_use.PathUtil.SearchPaths.{insert_by_length, sort_by_descending_length, longer}

abbrev Descending : List HeaderSearchPath → Type 0
Descending [] = Unit
Descending (p ∷ ps) = All (λ q. length q.path ≤ length p.path) ps × Descending ps

Elem-insert_iff :
    (p q : HeaderSearchPath) (ps : List HeaderSearchPath)
    → Elem q (insert_by_length p ps) ↔ ((q ≡ p) ⊎ Elem q ps)
unfolding insert_by_length
Elem-insert_iff p q [] = (λ h. h, λ h. h)
Elem-insert_iff p q (r ∷ ps) = ground (arith, Elem-insert_iff p q ps)

Elem-sort_iff :
    (q : HeaderSearchPath) (ps : List HeaderSearchPath)
    → Elem q (sort_by_descending_length ps) ↔ Elem q ps
unfolding sort_by_descending_length
Elem-sort_iff q [] = (λ h. h, λ h. h)
Elem-sort_iff q (p ∷ ps) =
    ground (arith, Elem-sort_iff q ps, Elem-insert_iff p q (sort_by_descending_length ps))

insert-Descending :
    (p : HeaderSearchPath) (ps : List HeaderSearchPath)
    → Descending ps
    → Descending (insert_by_length p ps)
unfolding insert_by_length
insert-Descending p [] d = (tt, tt)
insert-Descending p (q ∷ ps) d = elim (Bool-cases (longer q p)) [
  | inl lower ↦ rw lower (
    All-of_Elem _ _ (λ r m. elim ((Elem-insert_iff p r ps).0 m) [
      | inl e ↦ rw e (ground arith)
      | inr old ↦ All-elem _ r ps d.0 old
    ]),
    insert-Descending p ps d.1,
  )
  | inr here ↦
      let bound : length q.path ≤ length p.path = ground arith in
      rw here (
        (
          bound,
          All-of_Elem _ ps
              (λ r m. omega (arith, All-elem (λ q'. length q'.path ≤ length q.path) r ps d.0 m)),
        ),
        d,
      )
]

sort-Descending : (ps : List HeaderSearchPath) → Descending (sort_by_descending_length ps)
unfolding sort_by_descending_length
sort-Descending [] = tt
sort-Descending (p ∷ ps) = insert-Descending p _ (sort-Descending ps)

-- What the search answers for `path`: no entry is a prefix of it, or the longest that is one is cut off.
pub data Chosen (entries : List HeaderSearchPath) (path : Text) : Option Text → Type 0 where
  no_prefix :
      ((e : HeaderSearchPath) → Elem e entries → (rest : Text) → path ≢ e.path ++ rest)
      → Chosen entries path none
  longest :
      (e : HeaderSearchPath) (rest : Text)
      → Elem e entries
      → path ≡ e.path ++ rest
      → ((f : HeaderSearchPath)
          → Elem f entries
          → (r : Text) → path ≡ f.path ++ r
          → length f.path ≤ length e.path)
      → Chosen entries path (some (add_quotes rest (is_system e.path_type)))

module _ (sys : PathApi) where
  abbrev pub IsAbsoluteEntry : HeaderSearchPath → Type 0
  IsAbsoluteEntry e = sys.is_absolute e.path ≡ true

  Chosen-cons :
      (e : HeaderSearchPath) (es : List HeaderSearchPath) (path : Text) {o : Option Text}
      → ((rest : Text) → path ≢ e.path ++ rest)
      → Chosen es path o
      → Chosen (e ∷ es) path o
  Chosen-cons e es path away (no_prefix none_is) =
      no_prefix
        (λ f m rest p. elim m [ inl eq ↦ away rest (rw eq at p) | inr old ↦ none_is f old rest p ])
  Chosen-cons e es path away (longest f rest m p best) =
      longest f rest (inr m) p
        (λ g mg r q. elim mg [ inl eq ↦ absurd (away r (rw eq at q)) | inr old ↦ best g old r q ])

  search-Chosen :
      (es : List HeaderSearchPath) (path : Text)
      → Descending es
      → All IsAbsoluteEntry es
      → sys.is_absolute path ≡ true
      → (o : Option Text) × (quote_by_search_path sys es path ≡ some o) × Chosen es path o
  unfolding quote_by_search_path
  search-Chosen [] path d a h = (none, refl, no_prefix (λ e m. absurd m))
  search-Chosen (e ∷ es) path d a h = elim (Bool-cases (starts_with path e.path)) [
    | inl here ↦
        let split = eq_of_starts_with path e.path here in
        (
          some _,
          rw (h, strip_path_prefix) (rw a.0 (rw here refl)),
          longest e _ (inl refl) split (λ f m r p. elim m [
            | inl eq ↦ rw eq (omega arith)
            | inr old ↦ All-elem (λ q. length q.path ≤ length e.path) f es d.0 old
          ]),
        )
    | inr away ↦
        let (o, found, chosen) = search-Chosen es path d.1 a.1 h in
        (
          o,
          rw (h, strip_path_prefix) (rw a.0 (rw away found)),
          Chosen-cons e es path
              (λ rest p. cc (ap (λ t. starts_with t e.path) p, starts_with-append e.path rest))
              chosen,
        )
  ]

  Chosen-same :
      (es fs : List HeaderSearchPath) (path : Text) {o : Option Text}
      → ((e : HeaderSearchPath) → Elem e es ↔ Elem e fs)
      → Chosen es path o
      → Chosen fs path o
  Chosen-same es fs path same (no_prefix none_is) = no_prefix (λ e m. none_is e ((same e).1 m))
  Chosen-same es fs path same (longest e rest m p best) =
      longest e rest ((same e).0 m) p (λ f mf. best f ((same f).1 mf))

  -- With absolute search paths, put in order by `NormalizeHeaderSearchPaths`, the search in
  -- `ConvertToQuotedInclude` cuts off the longest of them that is a prefix of an absolute path, and
  -- quotes the rest by the kind of that entry; it finds nothing exactly where none is a prefix.
  pub quote_by_search_path-Chosen :
      (entries : List HeaderSearchPath) (path : Text)
      → All IsAbsoluteEntry entries
      → sys.is_absolute path ≡ true
      → (o : Option Text) × (quote_by_search_path sys (sort_by_descending_length entries) path
          ≡ some o)
        × Chosen entries path o
  quote_by_search_path-Chosen entries path a h =
      let sorted = sort_by_descending_length entries in
      let absolute =
        All-of_Elem IsAbsoluteEntry sorted
          (λ e m. All-elem IsAbsoluteEntry e entries a ((Elem-sort_iff e entries).0 m)) in
      let (o, found, chosen) = search-Chosen sorted path (sort-Descending entries) absolute h in
      (o, found, Chosen-same sorted entries path (λ e. Elem-sort_iff e entries) chosen)
