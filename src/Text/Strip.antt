-- ===== src/Text/Strip.antt =====
-- `StripLeft`, `StripRight`, `StripPast`, `Ellipsize` and `StripWhiteSpace`.
use include_what_you_use.Base.{
  ℕ, zero, suc, subst, ◌-◌, ◌≤◌, ◌<◌, Bool, true, false, some, [], ◌∷◌, ◌++◌, ◌≡◌, ◌≢◌, refl, ◌⊎◌,
  inl, inr, arith, ap, sym, ◌∙◌, length, take, drop, get_elem?, Bool-cases, length-append,
  length-take, append_assoc, append-nil, All, All-append,
}
use include_what_you_use.Text.{
  Text, text, starts_with, ends_with, is_space, strip_left, strip_right, ellipsize,
  strip_white_space_left, strip_right_from, strip_white_space_right, strip_white_space, space_at,
}
use include_what_you_use.Text.Find.{starts_with-append, eq_of_starts_with, ends_with_iff}

pub strip_left-append : (p s : Text) → strip_left (p ++ s) p ≡ (true, s)
unfolding strip_left
strip_left-append p s = rw (starts_with-append p s) (rw (drop_length_append p s))
  where
    drop_length_append : (p s : Text) → drop (length p) (p ++ s) ≡ s
    drop_length_append [] s = refl
    drop_length_append (c ∷ p) s = drop_length_append p s

-- What `StripLeft` does on either branch: it splits off the prefix and says so, or the string does
-- not begin with it and stays as it is.
pub data StripsLeft (s p : Text) : Bool × Text → Type 0 where
  stripped : (rest : Text) → s ≡ p ++ rest → StripsLeft s p (true, rest)
  unchanged : ((rest : Text) → s ≢ p ++ rest) → StripsLeft s p (false, s)

pub strip_left_lem : (s p : Text) → StripsLeft s p (strip_left s p)
unfolding strip_left
strip_left_lem s p = elim (Bool-cases (starts_with s p)) [
  | inl h ↦ rw h (stripped (drop (length p) s) (eq_of_starts_with s p h))
  | inr h ↦ rw h (unchanged (λ rest e. clash rest e h))
]
  where
    clash : (rest : Text) → s ≡ p ++ rest → starts_with s p ≡ false → ⊥
    clash rest e h = cc (ap (λ t. starts_with t p) e, starts_with-append p rest)

pub data StripsRight (s p : Text) : Bool × Text → Type 0 where
  stripped : (front : Text) → s ≡ front ++ p → StripsRight s p (true, front)
  unchanged : ((front : Text) → s ≢ front ++ p) → StripsRight s p (false, s)

take_front : (front p : Text) → take (length (front ++ p) - length p) (front ++ p) ≡ front
take_front front p = rw cut (take-length front p)
  where
    cut : length (front ++ p) - length p ≡ length front
    cut = omega (arith, length-append front p)

    take-length : (front p : Text) → take (length front) (front ++ p) ≡ front
    take-length [] p = refl
    take-length (c ∷ f) p = ap (◌∷◌ c) (take-length f p)

pub strip_right-append : (front p : Text) → strip_right (front ++ p) p ≡ (true, front)
unfolding strip_right
strip_right-append front p =
    rw ((ends_with_iff (front ++ p) p).1 (front, refl)) (ap (λ t. (true, t)) (take_front front p))

pub strip_right_lem : (s p : Text) → StripsRight s p (strip_right s p)
unfolding strip_right
strip_right_lem s p = elim (Bool-cases (ends_with s p)) [
  | inl h ↦
      let (front, e) = (ends_with_iff s p).0 h in
      rw h (stripped _ (e ∙ ap (λ f. f ++ p) (sym (rw e (take_front front p)))))
  | inr h ↦ rw h (unchanged (λ front e. cc ((ends_with_iff s p).1 (front, e))))
]

-- `Ellipsize` returns the string where it fits; else at least three bytes of it and an ellipsis, that
-- fill the width, or nothing where the width leaves no room for them.
pub ellipsize_lem :
    (s : Text) (width : ℕ)
    → (length (ellipsize s width) ≤ width)
      × (length s ≤ width → ellipsize s width ≡ s)
      × (width < length s
          → 6 ≤ width
          → (length (ellipsize s width) ≡ width)
            × (ellipsize s width ≡ take (width - 3) s ++ text "..."))
      × (width < length s → width < 6 → ellipsize s width ≡ [])
unfolding ellipsize
ellipsize_lem s width = (
  ground (arith, length-append (take (width - 3) s) (text "..."), length-take (width - 3) s),
  λ h. ground arith,
  λ h k. ground (arith, length-append (take (width - 3) s) (text "..."), length-take (width - 3) s),
  λ h k. ground arith,
)

abbrev IsBlank : Text → Type 0
IsBlank = All (λ c. is_space c ≡ true)

abbrev NoSpaceFirst : Text → Type 0
NoSpaceFirst [] = Unit
NoSpaceFirst (c ∷ _) = is_space c ≡ false

abbrev NoSpaceLast : Text → Type 0
NoSpaceLast s = (s ≡ []) ⊎ ((front : Text) × (c : ℕ) × (s ≡ front ++ c ∷ []) × (is_space c ≡ false))

-- `t` is `s` without the white space at its ends.
pub record IsTrimOf (s t : Text) : Type 0 where
  pub front : Text
  pub back : Text
  pub splits : s ≡ front ++ (t ++ back)
  pub front_blank : IsBlank front
  pub back_blank : IsBlank back
  pub no_space_first : NoSpaceFirst t
  pub no_space_last : NoSpaceLast t

strip_white_space_left_lem :
    (s : Text)
    → (front : Text) × (s ≡ front ++ strip_white_space_left s)
      × IsBlank front
      × NoSpaceFirst (strip_white_space_left s)
unfolding strip_white_space_left
strip_white_space_left_lem [] = ([], refl, tt, tt)
strip_white_space_left_lem (c ∷ cs) = elim (Bool-cases (is_space c)) [
  | inl space ↦
      let (front, e, blank, first) = strip_white_space_left_lem cs in
      (c ∷ front, rw space (ap (◌∷◌ c) e), (space, blank), rw space first)
  | inr no_space ↦ ([], rw no_space refl, tt, rw no_space no_space)
]

take-suc :
    (s : Text) (e : ℕ)
    → suc e ≤ length s
    → (c : ℕ) × (get_elem? s e ≡ some c) × (take (suc e) s ≡ take e s ++ c ∷ [])
take-suc [] e h = absurd (omega arith)
take-suc (x ∷ s) zero h = (x, refl, refl)
take-suc (x ∷ s) (suc e) h = let (c, at, eq) = take-suc s e (omega arith) in (c, at, ap (◌∷◌ x) eq)

strip_right_from_lem :
    (s : Text) (e : ℕ)
    → e ≤ length s
    → (back : Text) × (take e s ≡ strip_right_from s e ++ back)
      × IsBlank back
      × NoSpaceLast (strip_right_from s e)
unfolding strip_right_from
strip_right_from_lem s zero h = ([], refl, tt, inl refl)
strip_right_from_lem s (suc e) h =
    let (c, at, eq) = take-suc s e h in
    let (back, split, blank, last) = strip_right_from_lem s e (omega arith) in
    elim (Bool-cases (is_space c)) [
      | inl space ↦
          rw (at, space_at)
            (rw space (
              back ++ c ∷ [],
              eq ∙ ap (λ t. t ++ c ∷ []) split ∙ append_assoc _ back (c ∷ []),
              All-append (λ d. is_space d ≡ true) back (c ∷ []) blank (space, tt),
              last,
            ))
      | inr no_space ↦
          rw (at, space_at)
            (rw no_space ([], sym (append-nil _), tt, inr (take e s, c, eq, no_space)))
    ]

take-length : (s : Text) → take (length s) s ≡ s
take-length [] = refl
take-length (c ∷ s) = ap (◌∷◌ c) (take-length s)

NoSpaceFirst-front : (t back : Text) → NoSpaceFirst (t ++ back) → NoSpaceFirst t
NoSpaceFirst-front [] back h = tt
NoSpaceFirst-front (c ∷ t) back h = h

-- `StripWhiteSpace` cuts exactly the white space at both ends.
pub strip_white_space-IsTrimOf : (s : Text) → IsTrimOf s (strip_white_space s)
unfolding strip_white_space strip_white_space_right
strip_white_space-IsTrimOf s =
    let m = strip_white_space_left s in
    let (front, split, blank, first) = strip_white_space_left_lem s in
    let (back, cut, back_blank, last) = strip_right_from_lem m (length m) (omega arith) in
    let whole : m ≡ strip_right_from m (length m) ++ back = sym (take-length m) ∙ cut in
    record {
      front = front;
      back = back;
      splits = split ∙ ap (◌++◌ front) whole;
      front_blank = blank;
      back_blank = back_blank;
      no_space_first = NoSpaceFirst-front _ back (subst NoSpaceFirst whole first);
      no_space_last = last;
    }
