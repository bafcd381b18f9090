-- ===== src/Container/Unique.antt =====
-- `GetUniqueEntries`.
use include_what_you_use.Base.{
  false, ◌||◌, List, [], ◌∷◌, ◌++◌, if◌then◌else◌, ◌≡◌, refl, ◌↔◌, inl, inr, arith, Elem,
  Bool-cases, sym, ◌∙◌, append_assoc, append-nil,
}
use include_what_you_use.Base.Key.{Key}
use include_what_you_use.Container.{contains, set_insert, unique_loop, get_unique_entries}
use include_what_you_use.Container.Laws.{contains-set_insert}

-- The entries of a vector without those that stand in `seen` or further left.
abbrev pub first_entries : {K : Type 0} ⦃o : Key K⦄ → List K → List K → List K
first_entries [] seen = []
first_entries ⦃o⦄ (x ∷ v) seen =
    let kept = first_entries v (x ∷ seen) in
    let skipped = first_entries v seen in if contains seen x then skipped else x ∷ kept

abbrev pub Distinct : {K : Type 0} → List K → Type 0
Distinct [] = Unit
Distinct (x ∷ xs) = (¬ Elem x xs) × Distinct xs

module _ {K : Type 0} ⦃o : Key K⦄ where
  contains_cons : (k : K) (s : List K) (j : K) → contains (k ∷ s) j ≡ (o.beq k j || contains s j)
  unfolding contains
  contains_cons k s j = refl

  same_after :
      (x : K) (seen seen' : List K)
      → ((y : K) → contains seen y ≡ contains seen' y)
      → (y : K) → contains (set_insert seen x) y ≡ contains (x ∷ seen') y
  same_after x seen seen' h y =
      contains-set_insert seen x y ∙ rw (h y) (sym (contains_cons x seen' y))

  unique_loop-first_entries :
      (v seen seen' retval : List K)
      → ((y : K) → contains seen y ≡ contains seen' y)
      → unique_loop v seen retval ≡ retval ++ first_entries v seen'
  unfolding unique_loop
  unique_loop-first_entries [] seen seen' retval h = sym (append-nil retval)
  unique_loop-first_entries (x ∷ v) seen seen' retval h = elim (Bool-cases (contains seen x)) [
    | inl old ↦ rw old (rw (sym (h x) ∙ old) (unique_loop-first_entries v seen seen' retval h))
    | inr new ↦ rw new (
        rw (sym (h x) ∙ new) (
          unique_loop-first_entries v (set_insert seen x) (x ∷ seen') (retval ++ x ∷ [])
            (same_after x seen seen' h)
          ∙ append_assoc retval (x ∷ []) _))
  ]

  Elem-first_entries_iff :
      (v seen : List K) (y : K)
      → Elem y (first_entries v seen) ↔ (Elem y v × (contains seen y ≡ false))
  Elem-first_entries_iff [] seen y = (λ h. absurd h, λ h. absurd h.0)
  Elem-first_entries_iff (x ∷ v) seen y = elim (Bool-cases (contains seen x)) [
    | inl old ↦ rw old (ground (arith, Elem-first_entries_iff v seen y))
    | inr new ↦ rw new (
        ground
          (arith, Elem-first_entries_iff v (x ∷ seen) y, contains_cons x seen y, o.beq_iff x y))
  ]

  first_entries-Distinct : (v seen : List K) → Distinct (first_entries v seen)
  first_entries-Distinct [] seen = tt
  first_entries-Distinct (x ∷ v) seen = ground (
    arith,
    first_entries-Distinct v seen,
    first_entries-Distinct v (x ∷ seen),
    Elem-first_entries_iff v (x ∷ seen) x,
    contains_cons x seen x,
    o.beq_iff x x,
  )

  -- `GetUniqueEntries` keeps the members of a vector, and each of them once.
  pub get_unique_entries_lem :
      (v : List K)
      → Distinct (get_unique_entries v) × ((y : K) → Elem y (get_unique_entries v) ↔ Elem y v)
  unfolding get_unique_entries
  get_unique_entries_lem v =
      let e = unique_loop-first_entries v [] [] [] (λ y. refl) in
      rw e (
        first_entries-Distinct v [],
        λ y. ground (arith, Elem-first_entries_iff v [] y, contains_nil y),
      )
    where
      contains_nil : (y : K) → contains [] y ≡ false
      contains_nil y = unfold contains in refl
