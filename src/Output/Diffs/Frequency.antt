-- ===== src/Output/Diffs/Frequency.antt =====
-- The order of the symbols in a comment.
use include_what_you_use.Base.{
  ℕ, ◌+◌, ◌<◌, Bool, true, false, List, [], ◌∷◌, ◌≡◌, refl, ◌⊎◌, inl, inr, ◌↔◌, arith, All, Elem,
  Bool-cases, map, if◌then◌else◌, count_if,
}
use include_what_you_use.Text.{Text, text_less}
use include_what_you_use.Text.Order.{text_less_total, text_less_trans, text_less_irrefl}
use include_what_you_use.Container.{Map}
use include_what_you_use.Output.Diffs.{
  insert_sorted, sort_by, count_gt, get_symbols_sorted_by_frequency,
}

-- A sort keeps the entries: as many pass a test as before.
insert_sorted-count :
    {A : Type 0} (less : A → A → Bool) (p : A → Bool) (x : A) (ys : List A)
    → count_if p (insert_sorted less x ys) ≡ (if p x then 1 else 0) + count_if p ys
unfolding insert_sorted
insert_sorted-count less p x [] = refl
insert_sorted-count less p x (y ∷ ys) = ground (arith, insert_sorted-count less p x ys)

pub sort_by-count :
    {A : Type 0} (less : A → A → Bool) (p : A → Bool) (sorted xs : List A)
    → count_if p (sort_by less sorted xs) ≡ count_if p sorted + count_if p xs
unfolding sort_by
sort_by-count less p sorted [] = omega arith
sort_by-count less p sorted (x ∷ xs) = omega (
  arith,
  sort_by-count less p (insert_sorted less x sorted) xs,
  insert_sorted-count less p x sorted,
)

insert_sorted-Elem :
    {A : Type 0} (less : A → A → Bool) (a x : A) (ys : List A)
    → Elem a (insert_sorted less x ys) ↔ ((a ≡ x) ⊎ Elem a ys)
unfolding insert_sorted
insert_sorted-Elem less a x [] = (λ h. h, λ h. h)
insert_sorted-Elem less a x (y ∷ ys) = elim (Bool-cases (less x y)) [
  | inl before ↦ rw before (λ h. h, λ h. h)
  | inr after ↦ rw after (ground (arith, insert_sorted-Elem less a x ys))
]

pub sort_by-Elem :
    {A : Type 0} (less : A → A → Bool) (a : A) (sorted xs : List A)
    → Elem a (sort_by less sorted xs) ↔ (Elem a sorted ⊎ Elem a xs)
unfolding sort_by
sort_by-Elem less a sorted [] = (λ h. inl h, λ h. elim h [ inl s ↦ s | inr n ↦ absurd n ])
sort_by-Elem less a sorted (x ∷ xs) = ground (
  arith,
  sort_by-Elem less a (insert_sorted less x sorted) xs,
  insert_sorted-Elem less a x sorted,
)

-- Sorted by a test: no entry is above one that comes after it.
abbrev pub IsSortedBy : {A : Type 0} → (A → A → Bool) → List A → Type 0
IsSortedBy less [] = Unit
IsSortedBy less (x ∷ xs) = All (λ y. less y x ≡ false) xs × IsSortedBy less xs

-- What a sort needs of its order: `less` is a strict order in which "not above" is transitive.
pub record IsOrder {A : Type 0} (less : A → A → Bool) : Type 0 where
  pub asym : (a b : A) → less a b ≡ true → less b a ≡ false
  pub trans : (a b c : A) → less b a ≡ false → less c b ≡ false → less c a ≡ false

module _ {A : Type 0} (less : A → A → Bool) (order : IsOrder less) where
  All-above :
      (x y : A) (ys : List A)
      → less y x ≡ false
      → All (λ z. less z y ≡ false) ys
      → All (λ z. less z x ≡ false) ys
  All-above x y [] h a = tt
  All-above x y (z ∷ ys) h a = (order.trans x y z h a.0, All-above x y ys h a.1)

  All-insert :
      (P : A → Type 0) (x : A) (ys : List A) → P x → All P ys → All P (insert_sorted less x ys)
  unfolding insert_sorted
  All-insert P x [] p a = (p, tt)
  All-insert P x (y ∷ ys) p a =
      let rest = All-insert P x ys p a.1 in
      elim (Bool-cases (less x y)) [
        | inl before ↦ rw before (p, a)
        | inr after ↦ rw after (a.0, rest)
      ]

  insert_sorted-IsSortedBy :
      (x : A) (ys : List A) → IsSortedBy less ys → IsSortedBy less (insert_sorted less x ys)
  unfolding insert_sorted
  insert_sorted-IsSortedBy x [] s = (tt, tt)
  insert_sorted-IsSortedBy x (y ∷ ys) s =
      let rest = insert_sorted-IsSortedBy x ys s.1 in
      elim (Bool-cases (less x y)) [
        | inl before ↦
            rw before ((order.asym x y before, All-above x y ys (order.asym x y before) s.0), s)
        | inr after ↦ rw after (All-insert (λ z. less z y ≡ false) x ys after s.0, rest)
      ]

  pub sort_by-IsSortedBy :
      (sorted xs : List A) → IsSortedBy less sorted → IsSortedBy less (sort_by less sorted xs)
  unfolding sort_by
  sort_by-IsSortedBy sorted [] s = s
  sort_by-IsSortedBy sorted (x ∷ xs) s =
      sort_by-IsSortedBy (insert_sorted less x sorted) xs (insert_sorted-IsSortedBy x sorted s)

count_gt-IsOrder : IsOrder count_gt
unfolding count_gt
count_gt-IsOrder = record { asym = asym; trans = trans }
  where
    asym : (a b : Text × ℕ) → count_gt a b ≡ true → count_gt b a ≡ false
    asym (a, n) (b, m) h = elim (Bool-cases (text_less b a)) [
      | inr after ↦ ground (arith, h, after)
      | inl before ↦ ground (arith, h, before, text_less_trans a b a, text_less_irrefl a)
    ]

    trans : (a b c : Text × ℕ) → count_gt b a ≡ false → count_gt c b ≡ false → count_gt c a ≡ false
    trans (a, n) (b, m) (c, k) p q = ground (arith, p, q, not_less_trans a b c)
      where
        not_less_trans :
            (a b c : Text) → text_less b a ≡ false → text_less c b ≡ false → text_less c a ≡ false
        not_less_trans a b c p q = elim (text_less_total a b) [
          | inr (inr l) ↦ cc (l, p)
          | inr (inl e) ↦ rw e q
          | inl l ↦ elim (text_less_total b c) [
            | inr (inr k) ↦ cc (k, q)
            | inr (inl e) ↦ rw e at p
            | inl k ↦ elim (Bool-cases (text_less c a)) [
              | inr after ↦ after
              | inl before ↦
                  cc (text_less_trans a b a l (text_less_trans b c a k before), text_less_irrefl a)
            ]
          ]
        ]

-- From the most frequent symbol on, and by name where the counts are the same.
abbrev pub IsRanked : List (Text × ℕ) → Type 0
IsRanked [] = Unit
IsRanked ((a, n) ∷ rest) =
    All (λ e. (e.1 < n) ⊎ ((e.1 ≡ n) × (text_less e.0 a ≡ false))) rest × IsRanked rest

IsRanked-sorted : (es : List (Text × ℕ)) → IsSortedBy count_gt es → IsRanked es
IsRanked-sorted [] s = tt
IsRanked-sorted ((a, n) ∷ rest) s = (below rest s.0, IsRanked-sorted rest s.1)
  where
    below :
        (es : List (Text × ℕ))
        → All (λ y. count_gt y (a, n) ≡ false) es
        → All (λ e. (e.1 < n) ⊎ ((e.1 ≡ n) × (text_less e.0 a ≡ false))) es
    below [] all = tt
    below ((b, m) ∷ es) all = (unfold count_gt in (ground (arith, all.0)), below es all.1)

-- The symbols that a comment names are the keys of the counts, one for each entry, the most frequent
-- first and those with the same count by name.
pub get_symbols_sorted_by_frequency-IsRanked :
    (m : Map Text ℕ)
    → (entries : Map Text ℕ) × (get_symbols_sorted_by_frequency m ≡ map (λ e. e.0) entries)
      × IsRanked entries
      × ((e : Text × ℕ) → Elem e entries ↔ Elem e m)
      × ((p : Text × ℕ → Bool) → count_if p entries ≡ count_if p m)
unfolding get_symbols_sorted_by_frequency
get_symbols_sorted_by_frequency-IsRanked m = (
  sort_by count_gt [] m,
  refl,
  IsRanked-sorted _ (sort_by-IsSortedBy count_gt count_gt-IsOrder [] m tt),
  λ e. (
    λ h. elim ((sort_by-Elem count_gt e [] m).0 h) [ inl n ↦ absurd n | inr k ↦ k ],
    λ h. (sort_by-Elem count_gt e [] m).1 (inr h),
  ),
  λ p. omega (arith, sort_by-count count_gt p [] m),
)
