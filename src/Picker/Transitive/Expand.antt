-- ===== src/Picker/Transitive/Expand.antt =====
-- The lists that `ExpandOnce` builds.
use include_what_you_use.Base.{
  true, List, [], ◌∷◌, ◌++◌, ◌≡◌, refl, sym, ◌⊎◌, inl, inr, arith, Elem, Bool-cases,
  Elem-append_cases, map, subst,
}
use include_what_you_use.Text.{Text, text_eq}
use include_what_you_use.Text.Order.{text_key, text_eq_iff}
use include_what_you_use.Container.{contains}
use include_what_you_use.Container.Laws.{contains-set_insert, contains_iff}
use include_what_you_use.Picker.{MappedInclude, IncludeMap}
use include_what_you_use.Picker.Transitive.{
  Seen, add_node, add_nodes, children_of, expand_nodes, expand_once,
}

-- The names of a list of nodes.
abbrev pub names : List MappedInclude → List Text
names = map (λ n. n.quoted_include)

module _ (P : MappedInclude → Type 0) where
  add_node-all :
      (acc : Seen) (node : MappedInclude)
      → ((n : MappedInclude) → Elem n acc.0 → P n)
      → P node
      → (n : MappedInclude) → Elem n (add_node acc node).0
      → P n
  unfolding add_node
  add_node-all (nodes, seen) node ok p n m = elim (Bool-cases (contains seen node.quoted_include)) [
    | inl there ↦ ok n (rw there at m)
    | inr new ↦ elim (Elem-append_cases n nodes (node ∷ []) (rw new at m)) [
      | inl old ↦ ok n old
      | inr (inl e) ↦ subst P (sym e) p
      | inr (inr nothing) ↦ absurd nothing
    ]
  ]

  add_nodes-all :
      (acc : Seen) (nodes : List MappedInclude)
      → ((n : MappedInclude) → Elem n acc.0 → P n)
      → ((n : MappedInclude) → Elem n nodes → P n)
      → (n : MappedInclude) → Elem n (add_nodes acc nodes).0
      → P n
  unfolding add_nodes
  add_nodes-all acc [] ok p n m = ok n m
  add_nodes-all acc (node ∷ nodes) ok p n m =
      add_nodes-all (add_node acc node) nodes (add_node-all acc node ok (p node (inl refl)))
        (λ k km. p k (inr km)) n m

  pub expand_nodes-all :
      (m : IncludeMap) (acc : Seen) (nodes : List MappedInclude)
      → ((n : MappedInclude) → Elem n acc.0 → P n)
      → ((n : MappedInclude) → Elem n nodes → P n)
      → ((n k : MappedInclude) → Elem n nodes → Elem k (children_of m n.quoted_include) → P k)
      → (n : MappedInclude) → Elem n (expand_nodes m acc nodes).0
      → P n
  unfolding expand_nodes
  expand_nodes-all m acc [] ok p q n em = ok n em
  expand_nodes-all m acc (node ∷ nodes) ok p q n em =
      expand_nodes-all m (add_nodes (add_node acc node) (children_of m node.quoted_include)) nodes
        (add_nodes-all (add_node acc node) (children_of m node.quoted_include)
          (add_node-all acc node ok (p node (inl refl))) (λ k km. q node k (inl refl) km))
        (λ k km. p k (inr km)) (λ k l km lm. q k l (inr km) lm) n em

-- The names of the list are those of the set.
IsSynced : Seen → Type 0
IsSynced (nodes, seen) = (x : Text) → contains seen x ≡ true → Elem x (names nodes)

add_node-IsSynced :
    (acc : Seen) (node : MappedInclude)
    → IsSynced acc
    → IsSynced (add_node acc node)
      × Elem node.quoted_include (names (add_node acc node).0)
      × ((x : Text) → Elem x (names acc.0) → Elem x (names (add_node acc node).0))
unfolding add_node IsSynced
add_node-IsSynced (nodes, seen) node s = elim (Bool-cases (contains seen node.quoted_include)) [
  | inl there ↦ rw there (s, s node.quoted_include there, λ x m. m)
  | inr new ↦ rw new (
    (λ x c. elim (Bool-cases (text_eq node.quoted_include x)) [
      | inl same ↦
          subst (λ y. Elem y (names (nodes ++ node ∷ [])))
            ((text_eq_iff node.quoted_include x).0 same) (own nodes)
      | inr other ↦
          older x nodes
            (s x (ground (arith, c, other, contains-set_insert seen node.quoted_include x)))
    ]),
    own nodes,
    λ x m. older x nodes m,
  )
]
  where
    own : (ns : List MappedInclude) → Elem node.quoted_include (names (ns ++ node ∷ []))
    own [] = inl refl
    own (k ∷ ns) = inr (own ns)

    older :
        (x : Text) (ns : List MappedInclude) → Elem x (names ns) → Elem x (names (ns ++ node ∷ []))
    older x [] m = absurd m
    older x (k ∷ ns) (inl e) = inl e
    older x (k ∷ ns) (inr m) = inr (older x ns m)

add_nodes-IsSynced :
    (acc : Seen) (nodes : List MappedInclude)
    → IsSynced acc
    → IsSynced (add_nodes acc nodes)
      × ((x : Text) → Elem x (names acc.0) → Elem x (names (add_nodes acc nodes).0))
unfolding add_nodes
add_nodes-IsSynced acc [] s = (s, λ x m. m)
add_nodes-IsSynced acc (node ∷ nodes) s =
    let (s₁, _, k₁) = add_node-IsSynced acc node s in
    let (s₂, k₂) = add_nodes-IsSynced (add_node acc node) nodes s₁ in (s₂, λ x m. k₂ x (k₁ x m))

expand_nodes-synced :
    (m : IncludeMap) (acc : Seen) (nodes : List MappedInclude)
    → IsSynced acc
    → ((x : Text)
        → Elem x (names acc.0) ⊎ Elem x (names nodes)
        → Elem x (names (expand_nodes m acc nodes).0))
unfolding expand_nodes
expand_nodes-synced m acc [] s x (inl h) = h
expand_nodes-synced m acc [] s x (inr h) = absurd h
expand_nodes-synced m acc (node ∷ nodes) s x h =
    let (s₁, own, k₁) = add_node-IsSynced acc node s in
    let (s₂, k₂) = add_nodes-IsSynced (add_node acc node) (children_of m node.quoted_include) s₁ in
    expand_nodes-synced m (add_nodes (add_node acc node) (children_of m node.quoted_include)) nodes
      s₂ x
      (elim h [
        | inl old ↦ inl (k₂ x (k₁ x old))
        | inr (inl e) ↦ inl (
            subst
              (λ y.
                Elem y
                  (names (add_nodes (add_node acc node) (children_of m node.quoted_include)).0))
              (sym e) (k₂ node.quoted_include own))
        | inr (inr later) ↦ inr later
      ])

-- No name is lost.
pub expand_once-keeps :
    (m : IncludeMap) (nodes : List MappedInclude) (x : Text)
    → Elem x (names nodes)
    → Elem x (names (expand_once m nodes))
unfolding expand_once IsSynced
expand_once-keeps m nodes x h =
    expand_nodes-synced m ([], []) nodes (λ y c. absurd_contains y c) x (inr h)
  where
    absurd_contains : (y : Text) → contains [] y ≡ true → Elem y (names [])
    absurd_contains y c = (contains_iff [] y).0 c
