-- ===== src/Text/Split.antt =====
-- `Split`: the segments are those between the dividers.
use include_what_you_use.Base.{
  ℕ, zero, suc, ◌+◌, ◌-◌, ◌≤◌, ◌<◌, false, none, some, List, [], ◌∷◌, ◌++◌, ◌≡◌, ◌≢◌, refl, ◌⊎◌,
  inl, inr, arith, ap, sym, subst, ◌∙◌, length, take, drop, Option-cases, is_empty, length-append,
  length-drop, append_assoc, ◌==◌, Bool-cases,
}
use include_what_you_use.Text.{Text, find, next_divider, split_loop, split}
use include_what_you_use.Text.Find.{find-occurrence, find-take, find-length, drop_add}

-- The segments with the divider between them.
abbrev pub join : Text → List Text → Text
join d [] = []
join d (s ∷ []) = s
join d (s ∷ t ∷ rest) = s ++ (d ++ join d (t ∷ rest))

-- The divider stands in no segment but perhaps the last, and in the last only where the number of
-- segments has reached `max_segs`.
abbrev pub FreeOf : Text → ℕ → List Text → Type 0
FreeOf d max_segs [] = Unit
FreeOf d max_segs (s ∷ []) = (max_segs ≡ 1) ⊎ (find s d ≡ none)
FreeOf d max_segs (s ∷ t ∷ rest) = (find s d ≡ none) × FreeOf d (max_segs - 1) (t ∷ rest)

pub record IsSplitOf (s d : Text) (max_segs : ℕ) (segs : List Text) : Type 0 where
  pub joined : join d segs ≡ s
  pub free : FreeOf d max_segs segs
  pub some_segment : 1 ≤ length segs
  pub at_most : 1 ≤ max_segs → length segs ≤ max_segs

abbrev Splits : ℕ → Text → Text → ℕ → List Text → Type 0
Splits fuel s d m acc =
    (segs : List Text) × (split_loop fuel s d m acc ≡ some (acc ++ segs))
    × IsSplitOf s d (m - length acc) segs

next_divider_lem :
    (s d : Text) (m : ℕ) (acc : List Text)
    → ((next_divider s d m acc ≡ none) × ((m ≡ length acc + 1) ⊎ (find s d ≡ none)))
      ⊎ ((pos : ℕ) × (next_divider s d m acc ≡ some pos)
          × (m ≢ length acc + 1)
          × (find s d ≡ some pos))
unfolding next_divider
next_divider_lem s d m acc = elim (Bool-cases (length acc + 1 == m)) [
  | inl e ↦ inl (rw e refl, inl (ground arith))
  | inr n ↦ elim (Option-cases (find s d)) [
    | inl gone ↦ inl (rw n gone, inr gone)
    | inr (pos, e) ↦ inr (pos, rw n e, ground arith, e)
  ]
]

IsSplitOf-cons :
    (s d : Text) (pos m : ℕ) (segs : List Text)
    → is_empty d ≡ false
    → find s d ≡ some pos
    → m ≢ 1
    → IsSplitOf (drop (pos + length d) s) d (m - 1) segs
    → IsSplitOf s d m (take pos s ∷ segs)
IsSplitOf-cons s d pos m [] ne e k h = absurd (omega (arith, h.some_segment))
IsSplitOf-cons s d pos m (t ∷ rest) ne e k h = record {
  joined =
      ap (λ u. take pos s ++ (d ++ u)) (h.joined ∙ drop_add pos (length d) s)
      ∙ sym (find-occurrence s d pos e);
  free = (find-take s d pos ne e, h.free);
  some_segment = omega arith;
  at_most = λ q. omega (arith, h.at_most (omega arith));
}

nonempty-length : (d : Text) → is_empty d ≡ false → 1 ≤ length d
nonempty-length [] h = cc
nonempty-length (c ∷ d) h = omega arith

length-snoc : (acc : List Text) (x : Text) → length (acc ++ x ∷ []) ≡ length acc + 1
length-snoc acc x = omega (arith, length-append acc (x ∷ []))

split_loop-Splits :
    (fuel : ℕ) (s d : Text) (m : ℕ) (acc : List Text)
    → is_empty d ≡ false
    → length s < fuel
    → (1 ≤ m → length acc < m)
    → Splits fuel s d m acc
unfolding split_loop
split_loop-Splits zero s d m acc ne h k = absurd (omega arith)
split_loop-Splits (suc fuel) s d m acc ne h k = elim (next_divider_lem s d m acc) [
  | inl (e, last) ↦ (
    s ∷ [],
    rw (e, split_loop) refl,
    record {
      joined = refl;
      free = elim last [ inl a ↦ inl (omega arith) | inr b ↦ inr b ];
      some_segment = omega arith;
      at_most = λ q. omega arith;
    },
  )
  | inr (pos, e, more, at) ↦
      let rest = drop (pos + length d) s in
      let longer = length-snoc acc (take pos s) in
      let shorter : length rest < fuel =
        omega
          (arith, length-drop (pos + length d) s, find-length s d pos at, nonempty-length d ne) in
      let room : 1 ≤ m → length (acc ++ take pos s ∷ []) < m = λ q. omega (arith, k q) in
      let (segs, ends, good) =
        split_loop-Splits fuel rest d m (acc ++ take pos s ∷ []) ne shorter room in
      let left : m - length (acc ++ take pos s ∷ []) ≡ m - length acc - 1 = omega arith in
      (
        take pos s ∷ segs,
        rw (e, split_loop) (ends ∙ ap some (append_assoc acc _ segs)),
        IsSplitOf-cons s d pos (m - length acc) segs ne at (λ q. more (omega arith))
            (subst (λ n. IsSplitOf rest d n segs) left good),
      )
]

-- With a divider that is not empty, `Split` ends, and its segments are those between the dividers, at most `max_segs` of them where that is not 0.
pub split-IsSplitOf :
    (s d : Text) (max_segs : ℕ)
    → is_empty d ≡ false
    → (segs : List Text) × (split s d max_segs ≡ some segs) × IsSplitOf s d max_segs segs
unfolding split
split-IsSplitOf s d max_segs ne =
    let (segs, e, good) =
      split_loop-Splits (suc (length s)) s d max_segs [] ne (omega arith) (λ q. omega arith) in
    (segs, rw ne e, subst (λ n. IsSplitOf s d n segs) (omega arith) good)
