-- ===== src/Output/Minimal/Count.antt =====
-- The counts of step (3) of `CalculateMinimalIncludes`: the best header is a first choice of a use that
-- still needs one.
use include_what_you_use.Base.{
  ℕ, ◌≤◌, ◌+◌, Bool, true, false, ◌&&◌, some, List, [], ◌∷◌, ◌≡◌, refl, sym, ◌∙◌, subst, ap, inl,
  inr, arith, All, All-of_Elem, Elem, Bool-cases, List-cases, is_empty, any_of, count_if,
  if◌then◌else◌, ◌==◌,
}
use include_what_you_use.Text.{Text, text_eq}
use include_what_you_use.Text.Order.{text_key, text_eq_iff, text_eq_refl}
use include_what_you_use.Container.{Map, find_in_map, map_set, get_or_default}
use include_what_you_use.Container.Laws.{find_in_map-set, contains_iff}
use include_what_you_use.Output.Use.{public_headers_contain}
use include_what_you_use.Output.Minimal.{
  Counts, counts_less, count_choice, count_choices, count_public_headers, Tracked, count_headers,
  erase_never_first, best_of, best_in, best_header,
}

-- How often a header came first.
firsts : Map Text Counts → Text → ℕ
firsts m h = (get_or_default m h (0, 0)).1

firsts-cons :
    (k : Text) (c : Counts) (m : Map Text Counts) (h : Text)
    → firsts ((k, c) ∷ m) h ≡ (if text_eq k h then c.1 else firsts m h)
unfolding firsts get_or_default find_in_map
firsts-cons k c m h = ground arith

-- A property of the headers that came first.
module _ (G : Text → Type 0) where
  abbrev IsFirst : Text × Counts → Type 0
  IsFirst entry = 1 ≤ entry.1.1 → G entry.0

  map_set-All :
      (P : Text × Counts → Type 0) (m : Map Text Counts) (key : Text) (value : Counts)
      → All P m
      → P (key, value)
      → All P (map_set m key value)
  unfolding map_set
  map_set-All P [] key value a p = (p, tt)
  map_set-All P ((k, v) ∷ m) key value a p =
      let rest = map_set-All P m key value a.1 p in
      elim (Bool-cases (text_eq k key)) [
        | inl same ↦ rw same (p, a.1)
        | inr other ↦ elim (Bool-cases (text_key.less key k)) [
          | inl before ↦ rw other (rw before (p, a))
          | inr after ↦ rw other (rw after (a.0, rest))
        ]
      ]

  firsts-sound : (m : Map Text Counts) (h : Text) → All IsFirst m → 1 ≤ firsts m h → G h
  firsts-sound [] h a k = absurd (unfold firsts get_or_default find_in_map in (omega (arith, k)))
  firsts-sound ((k, c) ∷ m) h a l = elim (Bool-cases (text_eq k h)) [
    | inl same ↦ subst G ((text_eq_iff k h).0 same) (a.0 (rw (firsts-cons k c m h, same) at l))
    | inr other ↦ firsts-sound m h a.1 (rw (firsts-cons k c m h, other) at l)
  ]

  count_choice_sound :
      (first c : Text) (m : Map Text Counts)
      → G first
      → All IsFirst m
      → All IsFirst (count_choice first c m)
  unfolding count_choice firsts
  count_choice_sound first c m g a = elim (Bool-cases (text_eq c first)) [
    | inl same ↦ map_set-All IsFirst m c _ a (λ l. subst G (sym ((text_eq_iff c first).0 same)) g)
    | inr other ↦ map_set-All IsFirst m c _ a (λ l. firsts-sound m c a (ground arith))
  ]

  count_choices_sound :
      (first : Text) (choices : List Text) (m : Map Text Counts)
      → G first
      → All IsFirst m
      → All IsFirst (count_choices first choices m)
  unfolding count_choices
  count_choices_sound first [] m g a = a
  count_choices_sound first (c ∷ cs) m g a =
      count_choices_sound first cs (count_choice first c m) g (count_choice_sound first c m g a)

  count_public_headers_sound :
      (choices : List Text) (m : Map Text Counts)
      → ((h : Text) → Elem h choices → G h)
      → All IsFirst m
      → All IsFirst (count_public_headers choices m)
  unfolding count_public_headers
  count_public_headers_sound [] m g a = a
  count_public_headers_sound (c ∷ cs) m g a = count_choices_sound c (c ∷ cs) m (g c (inl refl)) a

  count_headers_sound :
      (uses : List Tracked) (m : Map Text Counts)
      → All (λ t. t.0 ≡ true → (h : Text) → Elem h t.1.public_headers → G h) uses
      → All IsFirst m
      → All IsFirst (count_headers uses m)
  unfolding count_headers
  count_headers_sound [] m ok a = a
  count_headers_sound ((false, u) ∷ uses) m ok a = count_headers_sound uses m ok.1 a
  count_headers_sound ((true, u) ∷ uses) m ok a =
      count_headers_sound uses (count_public_headers u.public_headers m) ok.1
        (count_public_headers_sound u.public_headers m (ok.0 refl) a)

  erase_never_first_sound :
      (m : Map Text Counts) → All IsFirst m → All (λ e. G e.0) (erase_never_first m)
  unfolding erase_never_first
  erase_never_first_sound [] a = tt
  erase_never_first_sound ((h, c) ∷ m) a =
      let rest = erase_never_first_sound m a.1 in
      elim (Bool-cases (c.1 == 0)) [
        | inl never ↦ rw never rest
        | inr once ↦ rw once (a.0 (ground arith), rest)
      ]

best_of-All :
    (P : Text × Counts → Type 0) (best : Text × Counts) (m : Map Text Counts)
    → P best
    → All P m
    → P (best_of best m)
unfolding best_of
best_of-All P best [] p a = p
best_of-All P best (e ∷ m) p a = elim (Bool-cases (counts_less best.1 e.1)) [
  | inl less ↦ rw less (best_of-All P e m a.0 a.1)
  | inr more ↦ rw more (best_of-All P best m p a.1)
]

-- The counts only grow.
firsts-map_set :
    (m : Map Text Counts) (key : Text) (value : Counts) (h : Text)
    → firsts (map_set m key value) h ≡ (if text_eq key h then value.1 else firsts m h)
unfolding firsts get_or_default
firsts-map_set m key value h = ground (arith, find_in_map-set m key value h)

count_choice-firsts :
    (first c : Text) (m : Map Text Counts) (h : Text)
    → firsts (count_choice first c m) h ≡ (
        if text_eq c h
        then (if text_eq c first then firsts m c + 1 else firsts m c)
        else firsts m h)
unfolding count_choice
count_choice-firsts first c m h = firsts-map_set m c _ h ∙ (unfold firsts in refl)

count_choice-grows :
    (first c : Text) (m : Map Text Counts) (h : Text)
    → firsts m h ≤ firsts (count_choice first c m) h
count_choice-grows first c m h = elim (Bool-cases (text_eq c h)) [
  | inr other ↦ ground (arith, count_choice-firsts first c m h)
  | inl same ↦
      subst (λ k. firsts m k ≤ firsts (count_choice first c m) k) ((text_eq_iff c h).0 same)
        (ground (arith, count_choice-firsts first c m c, text_eq_refl c))
]

count_choices-grows :
    (first : Text) (choices : List Text) (m : Map Text Counts) (h : Text)
    → firsts m h ≤ firsts (count_choices first choices m) h
unfolding count_choices
count_choices-grows first [] m h = omega arith
count_choices-grows first (c ∷ cs) m h =
    omega (
      arith,
      count_choices-grows first cs (count_choice first c m) h,
      count_choice-grows first c m h,
    )

count_public_headers-grows :
    (choices : List Text) (m : Map Text Counts) (h : Text)
    → firsts m h ≤ firsts (count_public_headers choices m) h
unfolding count_public_headers
count_public_headers-grows [] m h = omega arith
count_public_headers-grows (c ∷ cs) m h = count_choices-grows c (c ∷ cs) m h

count_public_headers-first :
    (choices : List Text) (m : Map Text Counts)
    → is_empty choices ≡ false
    → (h : Text) × (1 ≤ firsts (count_public_headers choices m) h)
unfolding count_public_headers count_choices
count_public_headers-first [] m ne = cc
count_public_headers-first (c ∷ cs) m ne = (
  c,
  ground (
    arith,
    count_choices-grows c cs (count_choice c c m) c,
    count_choice-firsts c c m c,
    text_eq_refl c,
  ),
)

count_headers-grows :
    (uses : List Tracked) (m : Map Text Counts) (h : Text)
    → firsts m h ≤ firsts (count_headers uses m) h
unfolding count_headers
count_headers-grows [] m h = omega arith
count_headers-grows ((false, u) ∷ uses) m h = count_headers-grows uses m h
count_headers-grows ((true, u) ∷ uses) m h =
    let m' = count_public_headers u.public_headers m in
    omega (arith, count_headers-grows uses m' h, count_public_headers-grows u.public_headers m h)

count_headers-first :
    (uses : List Tracked) (m : Map Text Counts)
    → All (λ t. t.0 ≡ true → is_empty t.1.public_headers ≡ false) uses
    → (count_if (λ t. t.0) uses == 0) ≡ false
    → (h : Text) × (1 ≤ firsts (count_headers uses m) h)
unfolding count_headers
count_headers-first [] m ok some_left = cc
count_headers-first ((false, u) ∷ uses) m ok some_left =
    count_headers-first uses m ok.1 (ground (arith, some_left))
count_headers-first ((true, u) ∷ uses) m ok some_left =
    let m' = count_public_headers u.public_headers m in
    let (h, l) = count_public_headers-first u.public_headers m (ok.0 refl) in
    (h, omega (arith, count_headers-grows uses m' h, l))

erase_never_first-keeps :
    (m : Map Text Counts) (h : Text) → 1 ≤ firsts m h → is_empty (erase_never_first m) ≡ false
unfolding erase_never_first firsts get_or_default find_in_map
erase_never_first-keeps [] h l = absurd (omega (arith, l))
erase_never_first-keeps ((k, c) ∷ m) h l = ground (arith, erase_never_first-keeps m h)

-- A header that a use which still needs one may take.
abbrev pub serves : List Tracked → Text → Bool
serves uses h = any_of (λ t. t.0 && public_headers_contain t.1 h) uses

any_of-Elem :
    {A : Type 0} (p : A → Bool) (a : A) (xs : List A) → Elem a xs → p a ≡ true → any_of p xs ≡ true
any_of-Elem p a [] m h = absurd m
any_of-Elem p a (x ∷ xs) (inl e) h = ground (arith, subst (λ z. p z ≡ true) e h)
any_of-Elem p a (x ∷ xs) (inr m) h = ground (arith, any_of-Elem p a xs m h)

best_header-of :
    (uses : List Tracked) (entry : Text × Counts) (m : Map Text Counts)
    → erase_never_first (count_headers uses []) ≡ entry ∷ m
    → best_header uses ≡ some (best_of entry (entry ∷ m)).0
unfolding best_header best_in
best_header-of uses entry m e = ap best_in e

pub best_header_lem :
    (uses : List Tracked)
    → All (λ t. t.0 ≡ true → is_empty t.1.public_headers ≡ false) uses
    → (count_if (λ t. t.0) uses == 0) ≡ false
    → (h : Text) × (best_header uses ≡ some h) × (serves uses h ≡ true)
unfolding best_header
best_header_lem uses ok some_left =
    let (h, l) = count_headers-first uses [] ok some_left in
    let left = erase_never_first-keeps (count_headers uses []) h l in
    let sound =
      count_headers_sound (λ k. serves uses k ≡ true) uses []
        (All-of_Elem _ uses (λ t m flagged k km.
          any_of-Elem (λ t. t.0 && public_headers_contain t.1 k) t uses m
            (ground (arith, flagged, contains_iff t.1.public_headers k, km))))
        tt in
    let erased =
      erase_never_first_sound (λ k. serves uses k ≡ true) (count_headers uses []) sound in
    elim (List-cases (erase_never_first (count_headers uses []))) [
      | inl e ↦ cc (rw e at left)
      | inr (entry, m, e) ↦ (
        (best_of entry (entry ∷ m)).0,
        best_header-of uses entry m e,
        best_of-All (λ e. serves uses e.0 ≡ true) entry (entry ∷ m) (rw e at erased).0
            (rw e at erased),
      )
    ]
