-- ===== src/Picker/Transitive/Ends.antt =====
-- `MakeMapTransitive` ends, however the map runs in circles.
use include_what_you_use.Base.{
  ℕ, zero, suc, ◌+◌, ◌≤◌, ◌<◌, Option, none, some, List, [], ◌∷◌, ◌≡◌, refl, sym, inl, inr, arith,
  Elem, Bool-cases, if◌then◌else◌, map, length, subst,
}
use include_what_you_use.Text.{Text, text_eq}
use include_what_you_use.Text.Order.{text_key, text_eq_iff, text_eq_refl}
use include_what_you_use.Container.{Map, find_in_map, map_set, get_or_default}
use include_what_you_use.Container.Laws.{find_in_map-set}
use include_what_you_use.Picker.{MappedInclude, IncludeMap}
use include_what_you_use.Picker.Transitive.{
  children_of, expand_once, TransitiveStatus, unused, calculating, done, Closing, status_of,
  for_children, finish_node, visit_node, make_node_transitive, make_keys_transitive,
  make_map_transitive,
}

abbrev weight : TransitiveStatus → ℕ
weight unused = 1
weight calculating = 0
weight done = 0

-- The keys that are still to be calculated.
abbrev left : List Text → Map Text TransitiveStatus → ℕ
left [] seen = 0
left (k ∷ keys) seen = weight (status_of seen k) + left keys seen

status_of-set :
    (seen : Map Text TransitiveStatus) (key : Text) (s : TransitiveStatus) (j : Text)
    → status_of (map_set seen key s) j ≡ (if text_eq key j then s else status_of seen j)
unfolding status_of get_or_default
status_of-set seen key s j = ground (arith, find_in_map-set seen key s j)

weight-set :
    (seen : Map Text TransitiveStatus) (key : Text) (s : TransitiveStatus) (j : Text)
    → weight s ≡ 0
    → weight (status_of (map_set seen key s) j) ≤ weight (status_of seen j)
weight-set seen key s j w = elim (Bool-cases (text_eq key j)) [
  | inl same ↦ rw (status_of-set seen key s j, same, w) (omega arith)
  | inr other ↦ rw (status_of-set seen key s j, other) (omega arith)
]

left-set :
    (keys : List Text) (seen : Map Text TransitiveStatus) (key : Text) (s : TransitiveStatus)
    → weight s ≡ 0
    → left keys (map_set seen key s) ≤ left keys seen
left-set [] seen key s w = omega arith
left-set (k ∷ keys) seen key s w =
    omega (arith, left-set keys seen key s w, weight-set seen key s k w)

left-set_less :
    (keys : List Text) (seen : Map Text TransitiveStatus) (key : Text) (s : TransitiveStatus)
    → weight s ≡ 0
    → status_of seen key ≡ unused
    → Elem key keys
    → left keys (map_set seen key s) < left keys seen
left-set_less [] seen key s w was m = absurd m
left-set_less (k ∷ keys) seen key s w was (inl e) =
    let now : weight (status_of (map_set seen key s) k) ≡ 0 =
      subst (λ j. weight (status_of (map_set seen key s) j) ≡ 0) e
        (rw (status_of-set seen key s key, text_eq_refl key) w) in
    let before : weight (status_of seen k) ≡ 1 =
      subst (λ j. weight (status_of seen j) ≡ 1) e (rw was refl) in
    omega (arith, left-set keys seen key s w, now, before)
left-set_less (k ∷ keys) seen key s w was (inr m) =
    omega (arith, left-set_less keys seen key s w was m, weight-set seen key s k w)

module _ (keys : List Text) where
  -- The keys of a map are among those that are counted.
  abbrev IsKeyed : IncludeMap → Type 0
  IsKeyed m = (j : Text) (v : List MappedInclude) → find_in_map m j ≡ some v → Elem j keys

  -- A step that ends, within a budget of keys.
  abbrev Ends : ℕ → (Text → Closing → Option Closing) → Type 0
  Ends budget visit =
      (key : Text) (m : IncludeMap) (seen : Map Text TransitiveStatus)
      → IsKeyed m
      → left keys seen < budget
      → (m' : IncludeMap) × (seen' : Map Text TransitiveStatus) × (visit key (m, seen)
          ≡ some (m', seen'))
        × IsKeyed m'
        × (left keys seen' ≤ left keys seen)

  for_children-Ends :
      (budget : ℕ) (visit : Text → Closing → Option Closing)
      → Ends budget visit
      → (children : List MappedInclude) (m : IncludeMap) (seen : Map Text TransitiveStatus)
      → IsKeyed m
      → left keys seen < budget
      → (m' : IncludeMap) × (seen' : Map Text TransitiveStatus) × (for_children visit children
            (m, seen)
          ≡ some (m', seen'))
        × IsKeyed m'
        × (left keys seen' ≤ left keys seen)
  unfolding for_children
  for_children-Ends budget visit ends [] m seen keyed l = (m, seen, refl, keyed, omega arith)
  for_children-Ends budget visit ends (c ∷ cs) m seen keyed l =
      let (m₁, seen₁, e₁, keyed₁, l₁) = ends c.quoted_include m seen keyed l in
      let (m₂, seen₂, e₂, keyed₂, l₂) =
        for_children-Ends budget visit ends cs m₁ seen₁ keyed₁ (omega (arith, l, l₁)) in
      (m₂, seen₂, rw e₁ e₂, keyed₂, omega (arith, l₁, l₂))

  IsKeyed-set :
      (m : IncludeMap) (key : Text) (v : List MappedInclude)
      → Elem key keys
      → IsKeyed m
      → IsKeyed (map_set m key v)
  IsKeyed-set m key v member keyed j w e = elim (Bool-cases (text_eq key j)) [
    | inl same ↦ subst (λ k. Elem k keys) ((text_eq_iff key j).0 same) member
    | inr other ↦ keyed j w (rw (find_in_map-set m key v j, other) at e)
  ]

  visit_node-Ends :
      (budget : ℕ) (visit : Text → Closing → Option Closing)
      → Ends budget visit
      → (key : Text) (m : IncludeMap) (seen : Map Text TransitiveStatus) (status : TransitiveStatus)
        (value : Option (List MappedInclude))
      → status_of seen key ≡ status
      → find_in_map m key ≡ value
      → IsKeyed m
      → left keys seen < suc budget
      → (m' : IncludeMap) × (seen' : Map Text TransitiveStatus) × (visit_node visit key
            (m, seen)
            status
            value
          ≡ some (m', seen'))
        × IsKeyed m'
        × (left keys seen' ≤ left keys seen)
  unfolding visit_node finish_node
  visit_node-Ends budget visit ends key m seen calculating value s f keyed l =
      (m, seen, refl, keyed, omega arith)
  visit_node-Ends budget visit ends key m seen done value s f keyed l =
      (m, seen, refl, keyed, omega arith)
  visit_node-Ends budget visit ends key m seen unused none s f keyed l =
      (m, map_set seen key done, refl, keyed, left-set keys seen key done refl)
  visit_node-Ends budget visit ends key m seen unused (some children) s f keyed l =
      let member = keyed key children f in
      let less = left-set_less keys seen key calculating refl s member in
      let (m₁, seen₁, e, keyed₁, l₁) =
        for_children-Ends budget visit ends children m (map_set seen key calculating) keyed
          (omega (arith, less, l)) in
      (
        map_set m₁ key (expand_once m₁ (children_of m₁ key)),
        map_set seen₁ key done,
        rw e refl,
        IsKeyed-set m₁ key (expand_once m₁ (children_of m₁ key)) member keyed₁,
        omega (arith, left-set keys seen₁ key done refl, l₁, less),
      )

  make_node_transitive-Ends : (fuel : ℕ) → Ends fuel (make_node_transitive fuel)
  unfolding make_node_transitive
  make_node_transitive-Ends zero key m seen keyed l = absurd (omega (arith, l))
  make_node_transitive-Ends (suc fuel) key m seen keyed l =
      visit_node-Ends fuel (make_node_transitive fuel) (make_node_transitive-Ends fuel) key m seen
        (status_of seen key) (find_in_map m key) refl refl keyed l

  make_keys_transitive-ends :
      (fuel : ℕ) (todo : List Text) (m : IncludeMap) (seen : Map Text TransitiveStatus)
      → IsKeyed m
      → left keys seen < fuel
      → (st : Closing) × (make_keys_transitive fuel todo (m, seen) ≡ some st)
  unfolding make_keys_transitive
  make_keys_transitive-ends fuel [] m seen keyed l = ((m, seen), refl)
  make_keys_transitive-ends fuel (key ∷ todo) m seen keyed l =
      let (m₁, seen₁, e₁, keyed₁, l₁) = make_node_transitive-Ends fuel key m seen keyed l in
      let (st, e) = make_keys_transitive-ends fuel todo m₁ seen₁ keyed₁ (omega (arith, l₁, l)) in
      (st, rw e₁ e)

left-bound :
    (m : IncludeMap) (seen : Map Text TransitiveStatus) → left (map (λ e. e.0) m) seen ≤ length m
left-bound [] seen = omega arith
left-bound ((k, v) ∷ m) seen = omega (arith, left-bound m seen, weight-bound (status_of seen k))
  where
    weight-bound : (s : TransitiveStatus) → weight s ≤ 1
    weight-bound unused = omega arith
    weight-bound calculating = omega arith
    weight-bound done = omega arith

map-IsKeyed :
    (m : IncludeMap) (j : Text) (v : List MappedInclude)
    → find_in_map m j ≡ some v
    → Elem j (map (λ e. e.0) m)
unfolding find_in_map
map-IsKeyed [] j v f = cc
map-IsKeyed ((k, w) ∷ m) j v f = elim (Bool-cases (text_eq k j)) [
  | inl same ↦ inl (sym ((text_eq_iff k j).0 same))
  | inr other ↦ inr (map-IsKeyed m j v (rw other at f))
]

-- `MakeMapTransitive` returns for every map, one with cycles too: no path through unvisited keys is longer
-- than there are keys.
pub make_map_transitive-ends :
    (m : IncludeMap) → (closed : IncludeMap) × (make_map_transitive m ≡ some closed)
unfolding make_map_transitive
make_map_transitive-ends m =
    let (st, e) =
      make_keys_transitive-ends (map (λ e. e.0) m) (suc (length m)) (map (λ e. e.0) m) m []
        (map-IsKeyed m) (omega (arith, left-bound m [])) in
    (st.0, rw e refl)
