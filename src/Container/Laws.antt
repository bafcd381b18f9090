-- ===== src/Container/Laws.antt =====
-- Lookup after an update, and membership after an insertion.
use include_what_you_use.Base.{
  true, ◌||◌, some, List, [], ◌∷◌, if◌then◌else◌, ◌≡◌, refl, ◌↔◌, ◌⊎◌, ◌≢◌, arith, Elem, ◌∙◌,
}
use include_what_you_use.Base.Key.{Key}
use include_what_you_use.Container.{
  Map, Set, find_in_map, map_set, map_insert, contains, set_insert, insert_all_into, union,
  map_contains_key,
}

module _ {K : Type 0} ⦃o : Key K⦄ where
  pub beq_refl : (k : K) → o.beq k k ≡ true
  beq_refl k = (o.beq_iff k k).1 refl

  pub find_in_map-set :
      {V : Type 0} (m : Map K V) (key : K) (value : V) (j : K)
      → find_in_map (map_set m key value) j ≡ (if o.beq key j then some value else find_in_map m j)
  unfolding find_in_map map_set
  find_in_map-set [] key value j = refl
  find_in_map-set ((k, v) ∷ m) key value j =
      ground (arith, o.beq_iff k key, o.beq_iff key j, o.beq_iff k j, find_in_map-set m key value j)

  pub find_in_map-set_self :
      {V : Type 0} (m : Map K V) (key : K) (value : V)
      → find_in_map (map_set m key value) key ≡ some value
  find_in_map-set_self m key value = find_in_map-set m key value key ∙ rw (beq_refl key)

  pub find_in_map-set_ne :
      {V : Type 0} (m : Map K V) (key : K) (value : V) (j : K)
      → key ≢ j
      → find_in_map (map_set m key value) j ≡ find_in_map m j
  find_in_map-set_ne m key value j ne =
      ground (arith, find_in_map-set m key value j, o.beq_iff key j)

  -- A new entry only where there was none.
  pub find_in_map-insert :
      {V : Type 0} (m : Map K V) (key : K) (value : V) (j : K)
      → find_in_map (map_insert m key value) j ≡ (
          if map_contains_key m key
          then find_in_map m j
          else if o.beq key j
          then some value
          else find_in_map m j)
  unfolding map_insert map_contains_key
  find_in_map-insert m key value j = ground (arith, find_in_map-set m key value j)

  pub contains_iff : (s : List K) (key : K) → (contains s key ≡ true) ↔ Elem key s
  unfolding contains
  contains_iff [] key = (λ h. cc, λ h. absurd h)
  contains_iff (k ∷ s) key = ground (arith, o.beq_iff k key, contains_iff s key)

  pub contains-set_insert :
      (s : Set K) (key j : K) → contains (set_insert s key) j ≡ (o.beq key j || contains s j)
  unfolding contains set_insert
  contains-set_insert [] key j = refl
  contains-set_insert (k ∷ s) key j =
      ground (arith, o.beq_iff k key, o.beq_iff key j, o.beq_iff k j, contains-set_insert s key j)

  pub contains-insert_all_into :
      (source : List K) (target : Set K) (j : K)
      → contains (insert_all_into source target) j ≡ (contains source j || contains target j)
  unfolding insert_all_into
  contains-insert_all_into [] target j = unfold contains in refl
  contains-insert_all_into (k ∷ source) target j = ground (
    arith,
    contains-insert_all_into source (set_insert target k) j,
    contains-set_insert target k j,
    contains-cons k source j,
  )
    where
      contains-cons :
          (k : K) (s : List K) (j : K) → contains (k ∷ s) j ≡ (o.beq k j || contains s j)
      contains-cons k s j = unfold contains in refl

  pub contains-union :
      (first second : Set K) (j : K)
      → contains (union first second) j ≡ (contains second j || contains first j)
  unfolding union
  contains-union first second j = contains-insert_all_into second first j

  pub Elem-set_insert_iff :
      (s : Set K) (key j : K) → Elem j (set_insert s key) ↔ ((j ≡ key) ⊎ Elem j s)
  Elem-set_insert_iff s key j = ground (
    arith,
    contains_iff (set_insert s key) j,
    contains_iff s j,
    contains-set_insert s key j,
    o.beq_iff key j,
  )
