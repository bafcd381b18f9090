-- ===== src/Text/Room.antt =====
-- The words that a scan of a text has gathered, and where it stands in the text.
use include_what_you_use.Base.{
  ℕ, zero, suc, ◌+◌, ◌-◌, ◌≤◌, ◌<◌, true, false, Option, none, some, List, [], ◌∷◌, ◌++◌, ◌≡◌, refl,
  inl, inr, arith, ap, ◌∙◌, length, take, drop, length-append, append_assoc, append-nil, ◌==◌,
  if◌then◌else◌, Bool-cases,
}
use include_what_you_use.Text.{Text, slice}

-- The first `max_segs` words, or all for 0.
abbrev pub at_most : ℕ → List Text → List Text
at_most zero ws = ws
at_most (suc m) ws = take (suc m) ws

-- What the loop may still add to `n` words.
abbrev pub room_for : ℕ → ℕ → List Text → List Text
room_for zero n ws = ws
room_for (suc m) n ws = take (suc m - n) ws

pub length-snoc : (acc : List Text) (w : Text) → length (acc ++ w ∷ []) ≡ length acc + 1
length-snoc acc w = omega (arith, length-append acc (w ∷ []))

pub room_for-cons :
    (m : ℕ) (acc : List Text) (w : Text) (ws : List Text)
    → (1 ≤ m → length acc < m)
    → room_for m (length acc) (w ∷ ws)
      ≡ w ∷ (if length acc + 1 == m then [] else room_for m (length acc + 1) ws)
room_for-cons zero acc w ws room = ground arith
room_for-cons (suc m) acc w ws room =
    let here = room (omega arith) in
    let more : suc m - length acc ≡ suc (m - length acc) = omega arith in
    let next : suc m - (length acc + 1) ≡ m - length acc = omega arith in
    elim (Bool-cases (length acc + 1 == suc m)) [
      | inl e ↦
          let none_left : m - length acc ≡ 0 = ground arith in rw more (rw e (rw none_left refl))
      | inr n ↦ rw more (rw n (rw next refl))
    ]

take_front : (f s : Text) → take (length f) (f ++ s) ≡ f
take_front [] s = refl
take_front (c ∷ f) s = ap (◌∷◌ c) (take_front f s)

drop_front : (f s : Text) → drop (length f) (f ++ s) ≡ s
drop_front [] s = refl
drop_front (c ∷ f) s = drop_front f s

slice_lem :
    (str pre tok rest : Text) (start pos : ℕ)
    → str ≡ pre ++ (tok ++ rest)
    → start ≡ length pre
    → pos ≡ length pre + length tok
    → slice str start pos ≡ tok
slice_lem str pre tok rest start pos e a b =
    rw e (rw a (rw b (rw (drop_front pre (tok ++ rest)) (rw cut (take_front tok rest)))))
  where
    cut : length pre + length tok - length pre ≡ length tok
    cut = omega arith

take-nil : (n : ℕ) → take {A = Text} n [] ≡ []
take-nil zero = refl
take-nil (suc n) = refl

pub room_for-nil : (m n : ℕ) → room_for m n [] ≡ []
room_for-nil zero n = refl
room_for-nil (suc m) n = take-nil (suc m - n)

-- Where a word ends at `max_segs` words, and where more may follow.
pub room_for-last :
    (m : ℕ) (acc : List Text) (w : Text) (ws : List Text)
    → (1 ≤ m → length acc < m)
    → (length (acc ++ w ∷ []) == m) ≡ true
    → acc ++ w ∷ [] ≡ acc ++ room_for m (length acc) (w ∷ ws)
room_for-last m acc w ws room h =
    rw (room_for-cons m acc w ws room) (rw (rw (length-snoc acc w) at h) refl)

pub room_for-more :
    (m : ℕ) (acc : List Text) (w : Text) (ws : List Text)
    → (1 ≤ m → length acc < m)
    → (length (acc ++ w ∷ []) == m) ≡ false
    → (acc ++ w ∷ []) ++ room_for m (length (acc ++ w ∷ [])) ws
      ≡ acc ++ room_for m (length acc) (w ∷ ws)
room_for-more m acc w ws room h =
    rw (room_for-cons m acc w ws room)
      (rw (rw (length-snoc acc w) at h) (rw (length-snoc acc w) (append_assoc acc (w ∷ []) _)))

pub room-snoc :
    (m : ℕ) (acc : List Text) (w : Text)
    → (1 ≤ m → length acc < m)
    → (length (acc ++ w ∷ []) == m) ≡ false
    → 1 ≤ m
    → length (acc ++ w ∷ []) < m
room-snoc m acc w room h pos = ground (arith, length-snoc acc w, room pos)

-- Where the loop stands: it has read `pre` and `tok`, and has `rest` before it.
pub record At (str pre tok rest : Text) (pos : ℕ) : Type 0 where
  pub whole : str ≡ pre ++ (tok ++ rest)
  pub position : pos ≡ length pre + length tok

pub At-skip :
    (str pre tok : Text) (c : ℕ) (cs : Text) (pos : ℕ)
    → At str pre tok (c ∷ cs) pos
    → At str (pre ++ (tok ++ c ∷ [])) [] cs (pos + 1)
At-skip str pre tok c cs pos a = record {
  whole = a.whole ∙ simp append_assoc;
  position =
      omega (arith, a.position, length-append pre (tok ++ c ∷ []), length-append tok (c ∷ []));
}

pub At-grow :
    (str pre tok : Text) (c : ℕ) (cs : Text) (pos : ℕ)
    → At str pre tok (c ∷ cs) pos
    → At str pre (tok ++ c ∷ []) cs (pos + 1)
At-grow str pre tok c cs pos a = record {
  whole = a.whole ∙ simp append_assoc;
  position = omega (arith, a.position, length-append tok (c ∷ []));
}

pub At-slice :
    (str pre tok rest : Text) (pos : ℕ) → At str pre tok rest pos → slice str (length pre) pos ≡ tok
At-slice str pre tok rest pos a =
    slice_lem str pre tok rest (length pre) pos a.whole refl a.position

pub At-last : (str pre tok : Text) (pos : ℕ) → At str pre tok [] pos → drop (length pre) str ≡ tok
At-last str pre tok pos a = rw a.whole (drop_front pre (tok ++ []) ∙ append-nil tok)

abbrev pub begun_at : Text → Text → Option ℕ
begun_at pre [] = none
begun_at pre (_ ∷ _) = some (length pre)
