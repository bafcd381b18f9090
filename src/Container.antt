-- ===== src/Container.antt =====
-- iwyu_stl_util.h, with the `std::map` and `std::set` that it works on. A map is the list of its
-- entries and a set that of its elements, in the order of the keys: the loops of the program run in it.
-- `==` on the values is a test that the caller passes where the source uses one.
pub mod Laws
pub mod Unique
mod Tests
use include_what_you_use.Base.{
  Bool, true, false, ◌||◌, Option, none, some, List, [], ◌∷◌, ◌++◌, if◌then◌else◌, any_of, foldl,
}
use include_what_you_use.Base.Key.{Key}

abbrev pub Map : Type 0 → Type 0 → Type 0
Map K V = List (K × V)

abbrev pub Set : Type 0 → Type 0
Set K = List K

module _ {K : Type 0} ⦃o : Key K⦄ where
  -- `FindInMap`, and `find` of a map.
  unfoldable pub find_in_map : {V : Type 0} → Map K V → K → Option V
  find_in_map [] key = none
  find_in_map ((k, v) ∷ m) key =
      let later = find_in_map m key in if o.beq k key then some v else later

  -- `m[key] = value`.
  unfoldable pub map_set : {V : Type 0} → Map K V → K → V → Map K V
  map_set [] key value = (key, value) ∷ []
  map_set ((k, v) ∷ m) key value =
      let later = map_set m key value in
      if o.beq k key
      then (key, value) ∷ m
      else if o.less key k
      then (key, value) ∷ (k, v) ∷ m
      else (k, v) ∷ later

  -- `m.insert(make_pair(key, value))`, which leaves an old value alone.
  unfoldable pub map_insert : {V : Type 0} → Map K V → K → V → Map K V
  unfolding find_in_map map_set
  map_insert m key value = elim (find_in_map m key) [ none ↦ map_set m key value | some _ ↦ m ]

  -- `GetOrDefault`, and `m[key]` as it reads: the value of a new key is the type's default.
  unfoldable pub get_or_default : {V : Type 0} → Map K V → K → V → V
  unfolding find_in_map
  get_or_default m key default_value = elim (find_in_map m key) [
    | none ↦ default_value
    | some v ↦ v
  ]

  -- `ContainsKey` on a map, and the keys in their order.
  unfoldable pub map_contains_key : {V : Type 0} → Map K V → K → Bool
  unfolding find_in_map
  map_contains_key m key = elim (find_in_map m key) [ none ↦ false | some _ ↦ true ]

  -- `ContainsKey` on a set, and `ContainsValue` on a vector.
  unfoldable pub contains : List K → K → Bool
  contains s key = any_of (λ k. o.beq k key) s

  -- `ContainsAnyKey` on a set.
  unfoldable pub contains_any_key : Set K → Set K → Bool
  unfolding contains
  contains_any_key container keys = any_of (contains container) keys

  -- `ContainsKeyValue` on a map, which has one value at most for a key.
  unfoldable pub contains_key_value : {V : Type 0} → (V → V → Bool) → Map K V → K → V → Bool
  unfolding find_in_map
  contains_key_value eq m key value = elim (find_in_map m key) [
    | none ↦ false
    | some v ↦ eq v value
  ]

  unfoldable pub set_insert : Set K → K → Set K
  set_insert [] key = key ∷ []
  set_insert (k ∷ s) key =
      let later = set_insert s key in
      if o.beq k key then k ∷ s else if o.less key k then key ∷ k ∷ s else k ∷ later

  -- `s.erase(key)`.
  unfoldable pub set_erase : Set K → K → Set K
  set_erase [] key = []
  set_erase (k ∷ s) key = let later = set_erase s key in if o.beq k key then s else k ∷ later

  -- `RemoveAllFrom(source, target)`.
  unfoldable pub remove_all_from : List K → Set K → Set K
  unfolding set_erase
  remove_all_from source target = foldl set_erase target source

  -- `InsertAllInto(source, target)`.
  unfoldable pub insert_all_into : List K → Set K → Set K
  unfolding set_insert
  insert_all_into source target = foldl set_insert target source

  -- `Union` of two sets: `first.merge(second)`.
  unfoldable pub union : Set K → Set K → Set K
  unfolding insert_all_into
  union first second = insert_all_into second first

  -- The loop of `GetUniqueEntries`.
  unfoldable pub unique_loop : List K → Set K → List K → List K
  unfolding contains set_insert
  unique_loop [] seen retval = retval
  unique_loop (x ∷ v) seen retval =
      unique_loop v (if contains seen x then seen else set_insert seen x)
        (if contains seen x then retval else retval ++ x ∷ [])

  unfoldable pub get_unique_entries : List K → List K
  unfolding unique_loop
  get_unique_entries v = unique_loop v [] []

-- `Extend(target, source)`.
abbrev pub extend : {A : Type 0} → List A → List A → List A
extend target source = target ++ source
