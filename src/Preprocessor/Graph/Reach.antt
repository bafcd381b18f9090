-- ===== src/Preprocessor/Graph/Reach.antt =====
-- PopulateTransitiveIncludeMap and reachability.
use include_what_you_use.Base.{
  Bool, true, false, ◌||◌, Option, none, some, List, [], ◌∷◌, ◌≡◌, refl, sym, map, subst, ◌∙◌, ap,
  ◌↔◌, ◌⊎◌, inl, inr, arith, Elem, Bool-cases, if◌then◌else◌,
}
use include_what_you_use.Base.Checked.{some-eq}
use include_what_you_use.Container.{
  Map, Set, find_in_map, map_set, map_contains_key, get_or_default, contains, set_insert,
}
use include_what_you_use.Container.Laws.{contains_iff, Elem-set_insert_iff, find_in_map-set}
use include_what_you_use.Output.FileInfo.{FileInfo}
use include_what_you_use.Preprocessor.{File, file_key, file_eq_iff, PreprocessorInfo}
use include_what_you_use.Preprocessor.Graph.{
  includes_of, populate_transitive, populate_transitive_include_map, file_transitively_includes,
  set_has,
}
use include_what_you_use.Preprocessor.Graph.Walk.{
  Reaches, here, through, Walked, add_all_includes_as_fileentries-Walks,
}

module _ (infos : Map File FileInfo) where
  -- The files that a file reaches, and a part of them that is closed under includes.
  IsReach : File → Set File → Type 0
  IsReach file s = (f : File) → Elem f s ↔ Reaches infos file f

  IsStart : File → Set File → Type 0
  IsStart file s =
      (f : File)
      → Elem f s
      → Reaches infos file f × ((g : File) → Elem g (includes_of infos f) → Elem g s)

  Reaches-snoc :
      {f h : File} (g : File) → Reaches infos f h → Elem g (includes_of infos h) → Reaches infos f g
  Reaches-snoc g here m = through g m here
  Reaches-snoc g (through k m' r) m = through k m' (Reaches-snoc g r m)

  IsReach-IsStart : (file : File) (s : Set File) → IsReach file s → IsStart file s
  unfolding IsReach IsStart
  IsReach-IsStart file s reach f h =
      ((reach f).0 h, λ g m. (reach g).1 (Reaches-snoc g ((reach f).0 h) m))

  Walked-IsReach :
      (file : File) (start after : Set File)
      → IsStart file start
      → Walked infos (includes_of infos file) (set_insert start file) after
      → IsReach file after
  unfolding IsReach IsStart
  Walked-IsReach file start after begin w f = (
    λ h. elim (w.reached f h) [
      | inr (g, m, r) ↦ through g m r
      | inl h' ↦ elim ((Elem-set_insert_iff start file f).0 h') [
        | inl e ↦ subst (λ x. Reaches infos file x) (sym e) here
        | inr h₂ ↦ (begin f h₂).0
      ]
    ],
    λ r. all_behind r (w.keeps file ((Elem-set_insert_iff start file file).1 (inl refl))),
  )
    where
      step : (x g : File) → Elem x after → Elem g (includes_of infos x) → Elem g after
      step x g h m = elim (w.closed x h) [
        | inr c ↦ c g m
        | inl h' ↦ elim ((Elem-set_insert_iff start file x).0 h') [
          | inl e ↦ w.covers g (subst (λ y. Elem g (includes_of infos y)) e m)
          | inr h₂ ↦ w.keeps g ((Elem-set_insert_iff start file g).1 (inr ((begin x h₂).1 g m)))
        ]
      ]

      all_behind : {x y : File} → Reaches infos x y → Elem x after → Elem y after
      all_behind here h = h
      all_behind (through g m r) h = all_behind r (step _ g h m)

  -- Every entry of the map is what its file reaches.
  IsFilled : Map File (Set File) → Type 0
  IsFilled m = (k : File) (s : Set File) → find_in_map m k ≡ some s → IsReach k s

  get_or_default-IsStart :
      (m : Map File (Set File)) (file : File) → IsFilled m → IsStart file (get_or_default m file [])
  unfolding IsFilled get_or_default
  get_or_default-IsStart m file filled = by_found (find_in_map m file) refl
    where
      by_found :
          (o : Option (Set File))
          → find_in_map m file ≡ o
          → IsStart file (elim o [ none ↦ [] | some v ↦ v ])
      by_found none e = unfold IsStart in λ f h. absurd h
      by_found (some s) e = IsReach-IsStart file s (filled file s e)

  IsFilled-set :
      (m : Map File (Set File)) (file : File) (s : Set File)
      → IsFilled m
      → IsReach file s
      → IsFilled (map_set m file s)
  unfolding IsFilled
  IsFilled-set m file s filled reach k s' e = by_test (Bool-cases (file_key.beq file k))
    where
      by_test : (file_key.beq file k ≡ true) ⊎ (file_key.beq file k ≡ false) → IsReach k s'
      by_test (inl same) =
          subst (λ x. IsReach x s') ((file_eq_iff file k).0 same)
            (subst (IsReach file) (some-eq (sym (find_in_map-set m file s k ∙ rw same refl) ∙ e))
              reach)
      by_test (inr other) = filled k s' (sym (find_in_map-set m file s k ∙ rw other refl) ∙ e)

  map_contains_key-set :
      (m : Map File (Set File)) (file : File) (s : Set File) (k : File)
      → map_contains_key (map_set m file s) k ≡ (file_key.beq file k || map_contains_key m k)
  unfolding map_contains_key
  map_contains_key-set m file s k =
      ap (λ o. elim o [ none ↦ false | some _ ↦ true ]) (find_in_map-set m file s k)
      ∙ by_test (file_key.beq file k)
    where
      by_test :
          (b : Bool)
          → (elim (if b then some s else find_in_map m k) [ none ↦ false | some _ ↦ true ])
            ≡ (b || (elim (find_in_map m k) [ none ↦ false | some _ ↦ true ]))
      by_test true = refl
      by_test false = refl

  populate_transitive-IsFilled :
      (files : List File) (m : Map File (Set File))
      → IsFilled m
      → (m' : Map File (Set File)) × (populate_transitive infos files m ≡ some m')
        × IsFilled m'
        × ((k : File) → map_contains_key m' k ≡ (contains files k || map_contains_key m k))
  unfolding populate_transitive
  populate_transitive-IsFilled [] m filled = (m, refl, filled, λ k. unfold contains in refl)
  populate_transitive-IsFilled (file ∷ files) m filled =
      let start = get_or_default m file [] in
      let (s, e, w) = add_all_includes_as_fileentries-Walks infos file (set_insert start file) in
      let (m', e', filled', keys) = populate_transitive-IsFilled files (map_set m file s) (
        IsFilled-set m file s filled
          (Walked-IsReach file start s (get_or_default-IsStart m file filled) w)) in
      (m', rw e e', filled', λ k. keys k ∙ (rw (map_contains_key-set m file s k) (with_file k)))
    where
      with_file :
          (k : File)
          → (contains files k || (file_key.beq file k || map_contains_key m k))
            ≡ (contains (file ∷ files) k || map_contains_key m k)
      with_file k = unfold contains in ground arith

keys_lem :
    {V : Type 0} (m : Map File V) (k : File) → contains (map (λ e. e.0) m) k ≡ map_contains_key m k
unfolding contains map_contains_key find_in_map
keys_lem [] k = refl
keys_lem ((j, v) ∷ m) k = ground (arith, keys_lem m k)

nil-IsFilled : (infos : Map File FileInfo) → IsFilled infos []
unfolding IsFilled find_in_map
nil-IsFilled infos k r e = absurd (cc)

entry_Reaches :
    (infos : Map File FileInfo) (m : Map File (Set File))
    → IsFilled infos m
    → ((k : File) → map_contains_key m k ≡ map_contains_key infos k)
    → (k f : File)
    → (set_has (find_in_map m k) f ≡ true) ↔ ((map_contains_key infos k ≡ true) × Reaches infos k f)
unfolding map_contains_key IsFilled IsReach
entry_Reaches infos m filled keys k f = by_found (find_in_map m k) refl (keys k)
  where
    by_found :
        (o : Option (Set File))
        → find_in_map m k ≡ o
        → (elim o [ none ↦ false | some _ ↦ true ]) ≡ map_contains_key infos k
        → (set_has o f ≡ true) ↔ ((map_contains_key infos k ≡ true) × Reaches infos k f)
    by_found none e known = (λ h. absurd (cc), λ h. absurd (cc))
    by_found (some r) e known = (
      λ h. (sym known, (filled k r e f).0 ((contains_iff r f).0 h)),
      λ h. (contains_iff r f).1 ((filled k r e f).1 h.1),
    )

-- On a fresh transitive include map, PopulateTransitiveIncludeMap returns, and afterwards
-- FileTransitivelyIncludes says yes exactly where the includer has an IwyuFileInfo and reaches the
-- included file, itself or through direct includes.
pub populate_transitive_include_map-Reaches :
    (s : PreprocessorInfo)
    → s.transitive_include_map ≡ []
    → (t : PreprocessorInfo) × (populate_transitive_include_map s ≡ some t)
      × ((includer includee : File)
          → (file_transitively_includes t includer includee ≡ true) ↔ (
              (map_contains_key s.iwyu_file_info_map includer ≡ true)
              × Reaches s.iwyu_file_info_map includer includee))
unfolding populate_transitive_include_map file_transitively_includes map_contains_key
populate_transitive_include_map-Reaches s fresh =
    let infos = s.iwyu_file_info_map in
    let (m, e, filled, keys) =
      populate_transitive-IsFilled infos (map (λ f. f.0) infos) [] (nil-IsFilled infos) in
    (
      record s { transitive_include_map = m },
      rw fresh (rw e refl),
      λ includer includee.
          entry_Reaches infos m filled
            (λ k.
              keys k
              ∙ (ap (λ b. b || false) (keys_lem infos k) ∙ or_false (map_contains_key infos k)))
            includer includee,
    )
  where
    or_false : (b : Bool) → (b || false) ≡ b
    or_false b = ground arith
