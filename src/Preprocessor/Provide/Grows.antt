-- ===== src/Preprocessor/Provide/Grows.antt =====
-- No step of PopulateIntendsToProvideMap takes a file out of what another one provides.
use include_what_you_use.Base.{
  Bool, true, false, none, some, List, [], ◌∷◌, ◌≡◌, refl, sym, subst, ◌∙◌, ap, inl, inr, arith,
  Bool-cases, if◌then◌else◌,
}
use include_what_you_use.Base.Checked.{check, >>=-eq-some, some-eq}
use include_what_you_use.Text.Order.{text_key}
use include_what_you_use.Container.{
  Map, Set, find_in_map, map_set, map_contains_key, get_or_default, contains, set_insert,
  insert_all_into,
}
use include_what_you_use.Container.Laws.{
  contains-set_insert, contains-insert_all_into, find_in_map-set, beq_refl,
}
use include_what_you_use.Output.Facts.{file_eq}
use include_what_you_use.Preprocessor.{
  File, file_key, file_eq_iff, PreprocessorInfo, SourceApi, quoted_path,
}
use include_what_you_use.Preprocessor.Provide.{
  add_all_to, add_one_to, provide_reached, merge_same_names, provide_as_public, provide_for_private,
}

abbrev pub DoesProvide : Map File (Set File) → File → File → Type 0
DoesProvide m k f = contains (get_or_default m k []) f ≡ true

abbrev pub Grows : Map File (Set File) → Map File (Set File) → Type 0
Grows m m' = (k f : File) → DoesProvide m k f → DoesProvide m' k f

get_or_default-set :
    (m : Map File (Set File)) (k : File) (s : Set File) (j : File)
    → get_or_default (map_set m k s) j [] ≡ (if file_key.beq k j then s else get_or_default m j [])
unfolding get_or_default
get_or_default-set m k s j =
    ap (λ o. elim o [ none ↦ [] | some v ↦ v ]) (find_in_map-set m k s j)
    ∙ by_test (file_key.beq k j)
  where
    by_test :
        (b : Bool)
        → (elim (if b then some s else find_in_map m j) [ none ↦ [] | some v ↦ v ])
          ≡ (if b then s else (elim (find_in_map m j) [ none ↦ [] | some v ↦ v ]))
    by_test true = refl
    by_test false = refl

pub set-DoesProvide :
    (m : Map File (Set File)) (k : File) (s : Set File) (f : File)
    → contains s f ≡ true
    → DoesProvide (map_set m k s) k f
set-DoesProvide m k s f h =
    ap (λ r. contains r f) (get_or_default-set m k s k ∙ rw (beq_refl k) refl) ∙ h

pub set-Grows :
    (m : Map File (Set File)) (k : File) (s : Set File)
    → ((f : File) → DoesProvide m k f → contains s f ≡ true)
    → Grows m (map_set m k s)
set-Grows m k s more j f h = elim (Bool-cases (file_key.beq k j)) [
  | inl same ↦
      subst (λ i. DoesProvide (map_set m k s) i f) ((file_eq_iff k j).0 same)
        (set-DoesProvide m k s f
          (more f (subst (λ i. DoesProvide m i f) (sym ((file_eq_iff k j).0 same)) h)))
  | inr other ↦ ap (λ r. contains r f) (get_or_default-set m k s j ∙ rw other refl) ∙ h
]

pub add_one_to-Grows : (m : Map File (Set File)) (k file : File) → Grows m (add_one_to m k file)
add_one_to-Grows m k file =
    set-Grows m k (set_insert (get_or_default m k []) file)
      (λ f h. ground (arith, contains-set_insert (get_or_default m k []) file f))

pub add_one_to-DoesProvide :
    (m : Map File (Set File)) (k file : File) → DoesProvide (add_one_to m k file) k file
add_one_to-DoesProvide m k file =
    set-DoesProvide m k _ file
      (ground (arith, contains-set_insert (get_or_default m k []) file file, beq_refl file))

add_all_to-Grows :
    (m : Map File (Set File)) (k : File) (source : List File) → Grows m (add_all_to m k source)
add_all_to-Grows m k source =
    set-Grows m k (insert_all_into source (get_or_default m k []))
      (λ f h. ground (arith, contains-insert_all_into source (get_or_default m k []) f))

Grows-refl : (m m' : Map File (Set File)) → m ≡ m' → Grows m m'
Grows-refl m m' e k f h = subst (λ n. DoesProvide n k f) e h

pub provide_reached-Grows :
    (api : SourceApi) (transitive : Map File (Set File)) (files : List File)
    (m m' : Map File (Set File))
    → provide_reached api transitive files m ≡ some m'
    → Grows m m'
unfolding provide_reached
provide_reached-Grows api transitive [] m m' e = Grows-refl m m' (some-eq e)
provide_reached-Grows api transitive (file ∷ files) m m' e =
    let (reached, _, e') = >>=-eq-some (find_in_map transitive file) _ e in
    λ k f h.
      provide_reached-Grows api transitive files (add_all_to m file reached) m' e' k f
        (add_all_to-Grows m file reached k f h)

provide_as_public-Grows :
    (api : SourceApi) (public_header : File) (headers : List File) (m m' : Map File (Set File))
    → provide_as_public api public_header headers m ≡ some m'
    → Grows m m'
unfolding provide_as_public
provide_as_public-Grows api public_header [] m m' e = Grows-refl m m' (some-eq e)
provide_as_public-Grows api public_header (header ∷ headers) m m' e =
    let (_, _, e') = >>=-eq-some (check (map_contains_key m header)) _ e in
    λ k f h.
      provide_as_public-Grows api public_header headers _ m' e' k f
        (add_all_to-Grows m header (get_or_default m public_header []) k f h)

pub provide_for_private-Grows :
    (api : SourceApi) (behind m m' : Map File (Set File))
    → provide_for_private api behind m ≡ some m'
    → Grows m m'
unfolding provide_for_private
provide_for_private-Grows api [] m m' e = Grows-refl m m' (some-eq e)
provide_for_private-Grows api ((public_header, headers) ∷ behind) m m' e =
    let (m₁, e₁, e₂) = >>=-eq-some (provide_as_public api public_header headers m) _ e in
    λ k f h.
      provide_for_private-Grows api behind m₁ m' e₂ k f
        (provide_as_public-Grows api public_header headers m m₁ e₁ k f h)

-- Two different files, each given what both provide.
merged-Grows :
    (m : Map File (Set File)) (file other : File)
    → file_key.beq other file ≡ false
    → Grows m (
        map_set
          (add_all_to m other (get_or_default m file []))
          file
          (get_or_default (add_all_to m other (get_or_default m file [])) other []))
merged-Grows m file other differ k f h =
    set-Grows merged file (get_or_default merged other [])
      (λ g h'.
        set-DoesProvide m other
          (insert_all_into (get_or_default m file []) (get_or_default m other [])) g
          (ground (
            arith,
            contains-insert_all_into (get_or_default m file []) (get_or_default m other []) g,
            own g h',
          )))
      k f (add_all_to-Grows m other (get_or_default m file []) k f h)
  where
    merged : Map File (Set File)
    merged = add_all_to m other (get_or_default m file [])

    own : (g : File) → DoesProvide merged file g → DoesProvide m file g
    own g h' =
        ap (λ r. contains r g)
          (sym (
            get_or_default-set m other
              (insert_all_into (get_or_default m file []) (get_or_default m other [])) file
            ∙ rw differ refl))
        ∙ h'

pub merge_same_names-Grows :
    (api : SourceApi) (s : PreprocessorInfo) (files : List File) (m m' : Map File (Set File))
    → merge_same_names api s files m ≡ some m'
    → Grows m m'
unfolding merge_same_names
merge_same_names-Grows api s [] m m' e = Grows-refl m m' (some-eq e)
merge_same_names-Grows api s (file ∷ files) m m' e =
    let (quoted_include, _, e') = >>=-eq-some (quoted_path api file) _ e in
    let other = get_or_default s.include_to_fileentry_map quoted_include file in
    λ k f h. merge_same_names-Grows api s files _ m' e' k f (step other k f h)
  where
    step :
        (other : File)
        → Grows m (
            if file_eq other file
            then m
            else map_set
                (add_all_to m other (get_or_default m file []))
                file
                (get_or_default (add_all_to m other (get_or_default m file [])) other []))
    step other = elim (Bool-cases (file_eq other file)) [
      | inl same ↦ rw same (λ k f h. h)
      | inr differ ↦ rw differ (merged-Grows m file other differ)
    ]
