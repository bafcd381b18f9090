-- ===== src/Picker/Transitive/Reach.antt =====
-- What the closed map holds: the old values, and values that the old map leads to.
use include_what_you_use.Base.{
  ℕ, zero, suc, Option, none, some, List, [], ◌∷◌, ◌≡◌, sym, inl, inr, arith, Elem, Bool-cases,
  if◌then◌else◌, map, length, subst,
}
use include_what_you_use.Base.Checked.{>>=-eq-some, some-eq}
use include_what_you_use.Text.{Text, text_eq}
use include_what_you_use.Text.Order.{text_key, text_eq_iff}
use include_what_you_use.Container.{map_set, get_or_default}
use include_what_you_use.Container.Laws.{find_in_map-set}
use include_what_you_use.Picker.{MappedInclude, IncludeMap}
use include_what_you_use.Picker.Transitive.{
  children_of, expand_once, TransitiveStatus, unused, calculating, done, Closing, for_children,
  finish_node, visit_node, make_node_transitive, make_keys_transitive, make_map_transitive,
}
use include_what_you_use.Picker.Transitive.Expand.{names, expand_nodes-all, expand_once-keeps}

-- One header leads to another through the entries of a map.
pub data Leads (m : IncludeMap) : Text → Text → Type 0 where
  entry : {a : Text} (v : MappedInclude) → Elem v (children_of m a) → Leads m a v.quoted_include
  onward : {a b c : Text} → Leads m a b → Leads m b c → Leads m a c

pub children_of-set :
    (m : IncludeMap) (key : Text) (value : List MappedInclude) (j : Text)
    → children_of (map_set m key value) j ≡ (if text_eq key j then value else children_of m j)
unfolding children_of get_or_default
children_of-set m key value j = ground (arith, find_in_map-set m key value j)

module _ (m₀ : IncludeMap) where
  -- The map is between the old one and its closure.
  record IsBetween (m : IncludeMap) : Type 0 where
    sound : (j : Text) (v : MappedInclude) → Elem v (children_of m j) → Leads m₀ j v.quoted_include
    kept : (j x : Text) → Elem x (names (children_of m₀ j)) → Elem x (names (children_of m j))

  finish_node-IsBetween :
      (key : Text) (st : Closing) → IsBetween st.0 → IsBetween (finish_node key st).0
  unfolding finish_node
  finish_node-IsBetween key (m, seen) b = record {
    sound = λ j v h. elim (Bool-cases (text_eq key j)) [
      | inr other ↦
          b.sound j v (rw (children_of-set m key (expand_once m (children_of m key)) j, other) at h)
      | inl same ↦
          subst (λ i. Leads m₀ i v.quoted_include) ((text_eq_iff key j).0 same)
            (expanded v
              (rw (children_of-set m key (expand_once m (children_of m key)) j, same) at h))
    ];
    kept = λ j x h. elim (Bool-cases (text_eq key j)) [
      | inr other ↦
          rw (children_of-set m key (expand_once m (children_of m key)) j, other) (b.kept j x h)
      | inl same ↦
          rw (children_of-set m key (expand_once m (children_of m key)) j, same)
            (expand_once-keeps m (children_of m key) x (
              subst (λ i. Elem x (names (children_of m i))) (sym ((text_eq_iff key j).0 same))
                (b.kept j x h)))
    ];
  }
    where
      expanded :
          (v : MappedInclude)
          → Elem v (expand_once m (children_of m key))
          → Leads m₀ key v.quoted_include
      expanded v h =
          unfold expand_once in
          (expand_nodes-all (λ n. Leads m₀ key n.quoted_include) m ([], []) (children_of m key)
            (λ n e. absurd e) (λ n e. b.sound key n e)
            (λ n k e f. onward (b.sound key n e) (b.sound n.quoted_include k f)) v h)

  -- A step of the search that keeps the map between.
  abbrev Keeps : (Text → Closing → Option Closing) → Type 0
  Keeps visit =
      (key : Text) (st st' : Closing) → visit key st ≡ some st' → IsBetween st.0 → IsBetween st'.0

  for_children-IsBetween :
      (visit : Text → Closing → Option Closing)
      → Keeps visit
      → (children : List MappedInclude) (st st' : Closing)
      → for_children visit children st ≡ some st'
      → IsBetween st.0
      → IsBetween st'.0
  unfolding for_children
  for_children-IsBetween visit k [] st st' e b = subst (λ s. IsBetween s.0) (some-eq e) b
  for_children-IsBetween visit k (c ∷ cs) st st' e b =
      let (mid, e₁, e₂) = >>=-eq-some (visit c.quoted_include st) _ e in
      for_children-IsBetween visit k cs mid st' e₂ (k c.quoted_include st mid e₁ b)

  visit_node-IsBetween :
      (visit : Text → Closing → Option Closing)
      → Keeps visit
      → (key : Text) (st st' : Closing) (status : TransitiveStatus)
        (value : Option (List MappedInclude))
      → visit_node visit key st status value ≡ some st'
      → IsBetween st.0
      → IsBetween st'.0
  unfolding visit_node
  visit_node-IsBetween visit k key st st' calculating value e b =
      subst (λ s. IsBetween s.0) (some-eq e) b
  visit_node-IsBetween visit k key st st' done value e b = subst (λ s. IsBetween s.0) (some-eq e) b
  visit_node-IsBetween visit k key (m, seen) st' unused none e b =
      subst (λ s. IsBetween s.0) (some-eq e) b
  visit_node-IsBetween visit k key (m, seen) st' unused (some children) e b =
      let (mid, e₁, e₂) =
        >>=-eq-some (for_children visit children (m, map_set seen key calculating)) _ e in
      subst (λ s. IsBetween s.0) (some-eq e₂)
        (finish_node-IsBetween key mid (for_children-IsBetween visit k children _ mid e₁ b))

  make_node_transitive-Keeps : (fuel : ℕ) → Keeps (make_node_transitive fuel)
  unfolding make_node_transitive
  make_node_transitive-Keeps zero key st st' e b = cc
  make_node_transitive-Keeps (suc fuel) key (m, seen) st' e b =
      visit_node-IsBetween (make_node_transitive fuel) (make_node_transitive-Keeps fuel) key
        (m, seen) st' _ _ e b

  make_keys_transitive-IsBetween :
      (fuel : ℕ) (keys : List Text) (st st' : Closing)
      → make_keys_transitive fuel keys st ≡ some st'
      → IsBetween st.0
      → IsBetween st'.0
  unfolding make_keys_transitive
  make_keys_transitive-IsBetween fuel [] st st' e b = subst (λ s. IsBetween s.0) (some-eq e) b
  make_keys_transitive-IsBetween fuel (key ∷ keys) st st' e b =
      let (mid, e₁, e₂) = >>=-eq-some (make_node_transitive fuel key st) _ e in
      make_keys_transitive-IsBetween fuel keys mid st' e₂
        (make_node_transitive-Keeps fuel key st mid e₁ b)

  -- Of the values that `MakeMapTransitive` leaves for a header, the old map leads there from the header;
  -- and every name that was a value of the header still is one.
  pub make_map_transitive-Leads :
      (m : IncludeMap)
      → make_map_transitive m₀ ≡ some m
      → ((j : Text) (v : MappedInclude) → Elem v (children_of m j) → Leads m₀ j v.quoted_include)
        × ((j x : Text) → Elem x (names (children_of m₀ j)) → Elem x (names (children_of m j)))
  unfolding make_map_transitive
  make_map_transitive-Leads m e =
      let (st, e₁, e₂) =
        >>=-eq-some (make_keys_transitive (suc (length m₀)) (map (λ e. e.0) m₀) (m₀, [])) _ e in
      let b =
        make_keys_transitive-IsBetween (suc (length m₀)) (map (λ e. e.0) m₀) (m₀, []) st e₁
          (record { sound = λ j v h. entry v h; kept = λ j x h. h }) in
      let c = subst IsBetween (some-eq e₂) b in (c.sound, c.kept)
