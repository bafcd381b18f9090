-- ===== src/Text/Find.antt =====
-- What `starts_with`, `ends_with` and `find` of the string type mean.
use Prim.Native.Nat.add
use include_what_you_use.Base.{
  ℕ, zero, suc, ◌+◌, ◌-◌, ◌≤◌, true, false, none, some, [], ◌∷◌, ◌++◌, ◌≡◌, refl, ◌↔◌, arith, ap,
  sym, ◌∙◌, length, take, drop, take-append-drop, length-append, leb, ◌&&◌, is_empty,
}
use include_what_you_use.Text.{Text, text_eq, starts_with, ends_with, find}
use include_what_you_use.Text.Order.{text_eq_iff}

pub starts_with-append : (p s : Text) → starts_with (p ++ s) p ≡ true
unfolding starts_with
starts_with-append [] s = refl
starts_with-append (c ∷ p) s = ground (arith, starts_with-append p s)

pub eq_of_starts_with : (s p : Text) → starts_with s p ≡ true → s ≡ p ++ drop (length p) s
unfolding starts_with
eq_of_starts_with s [] h = refl
eq_of_starts_with [] (c ∷ p) h = cc
eq_of_starts_with (x ∷ s) (c ∷ p) h = ground (arith, eq_of_starts_with s p)

pub starts_with-length : (s p : Text) → starts_with s p ≡ true → length p ≤ length s
unfolding starts_with
starts_with-length s [] h = omega arith
starts_with-length [] (c ∷ p) h = cc
starts_with-length (x ∷ s) (c ∷ p) h = ground (arith, starts_with-length s p)

pub starts_with_of_take :
    (n : ℕ) (s p : Text) → starts_with (take n s) p ≡ true → starts_with s p ≡ true
unfolding starts_with
starts_with_of_take n s [] h = refl
starts_with_of_take zero s (c ∷ p) h = cc
starts_with_of_take (suc n) [] (c ∷ p) h = cc
starts_with_of_take (suc n) (x ∷ s) (c ∷ p) h = ground (arith, starts_with_of_take n s p)

drop-append : (p s : Text) → drop (length p) (p ++ s) ≡ s
drop-append [] s = refl
drop-append (c ∷ p) s = drop-append p s

pub ends_with_iff : (s p : Text) → (ends_with s p ≡ true) ↔ ((front : Text) × (s ≡ front ++ p))
unfolding ends_with
ends_with_iff s p = (there, back)
  where
    there :
        (leb (length p) (length s) && text_eq (drop (length s - length p) s) p) ≡ true
        → (front : Text) × (s ≡ front ++ p)
    there h =
        let at_end = (text_eq_iff (drop (length s - length p) s) p).0 (ground arith) in
        (
          take (length s - length p) s,
          sym (take-append-drop (length s - length p) s)
              ∙ ap (◌++◌ (take (length s - length p) s)) at_end,
        )

    cut : (front : Text) → length (front ++ p) - length p ≡ length front
    cut front = omega (arith, length-append front p)

    back :
        (front : Text) × (s ≡ front ++ p)
        → (leb (length p) (length s) && text_eq (drop (length s - length p) s) p) ≡ true
    back (front, e) = rw e (
        rw (cut front)
          (rw (drop-append front p) (ground (arith, length-append front p, text_eq_iff p p))))

pub drop_add : (m n : ℕ) (s : Text) → drop (m + n) s ≡ drop n (drop m s)
drop_add zero n s = rw (add.zero n)
drop_add (suc m) zero [] = rw (add.suc m zero)
drop_add (suc m) (suc n) [] = rw (add.suc m (suc n))
drop_add (suc m) n (c ∷ s) = rw (add.suc m n) (drop_add m n s)

-- A position that `find` returns is that of an occurrence.
pub find-occurrence :
    (s d : Text) (pos : ℕ)
    → find s d ≡ some pos
    → s ≡ take pos s ++ (d ++ drop (length d) (drop pos s))
unfolding find
find-occurrence [] [] zero h = refl
find-occurrence [] [] (suc pos) h = cc
find-occurrence [] (c ∷ d) pos h = cc
find-occurrence (x ∷ s) d zero h = ground (arith, eq_of_starts_with (x ∷ s) d)
find-occurrence (x ∷ s) d (suc pos) h = ground (arith, find-occurrence s d pos)

pub find-length : (s d : Text) (pos : ℕ) → find s d ≡ some pos → pos + length d ≤ length s
unfolding find
find-length [] [] pos h = ground arith
find-length [] (c ∷ d) pos h = cc
find-length (x ∷ s) d zero h = ground (arith, starts_with-length (x ∷ s) d)
find-length (x ∷ s) d (suc pos) h = ground (arith, find-length s d pos)

-- Before the position that `find` returns there is no occurrence.
pub find-take :
    (s d : Text) (pos : ℕ) → is_empty d ≡ false → find s d ≡ some pos → find (take pos s) d ≡ none
unfolding find
find-take [] d pos ne h = ground arith
find-take (x ∷ s) d zero ne h = ground arith
find-take (x ∷ s) d (suc pos) ne h =
    ground (arith, starts_with_of_take (suc pos) (x ∷ s) d, find-take s d pos)

pub find-none :
    (s d : Text) (i : ℕ) → find s d ≡ none → i ≤ length s → starts_with (drop i s) d ≡ false
unfolding find starts_with
find-none [] d zero h k = ground arith
find-none [] d (suc i) h k = absurd (omega arith)
find-none (x ∷ s) d zero h k = ground arith
find-none (x ∷ s) d (suc i) h k = ground (arith, find-none s d i)
