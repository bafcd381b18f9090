-- ===== src/Globals/Numbers/Decimal.antt =====
-- The integers that `--error` takes, as the decimal numbers of iwyu_output.cc write them.
use Prim.Native.Nat.{◌/◌, ◌%◌}
use include_what_you_use.Base.{
  ℕ, zero, suc, ◌+◌, ◌-◌, ◌*◌, ◌<◌, true, false, none, some, [], ◌∷◌, ◌++◌, leb→le, leb, ltb, ◌≡◌,
  refl, ap, ◌∙◌, subst, arith, inl, inr, Bool-cases, if◌then◌else◌, min,
}
use include_what_you_use.Base.Int.{ℤ, pos, neg}
use include_what_you_use.Text.{Text, is_space}
use include_what_you_use.Output.Line.{digits}
use include_what_you_use.Globals.Numbers.{
  is_digit, read_digits, skip_space, long_max, read_sign, strtol, int_max, is_int,
  parse_integer_optarg,
}

read_digits-append :
    (acc : ℕ) (xs ys : Text)
    → (read_digits acc xs).1 ≡ []
    → read_digits acc (xs ++ ys) ≡ read_digits (read_digits acc xs).0 ys
unfolding read_digits
read_digits-append acc [] ys e = refl
read_digits-append acc (c ∷ xs) ys e = elim (Bool-cases (is_digit c)) [
  | inl d ↦ rw d (read_digits-append (acc * 10 + (c - b'0')) xs ys (rw d at e))
  | inr d ↦ let e' : c ∷ xs ≡ [] = rw d at e in absurd (cc)
]

read_digits-digits : (fuel n : ℕ) → n < fuel → read_digits 0 (digits fuel n) ≡ (n, [])
unfolding digits read_digits
read_digits-digits zero n h = absurd (omega arith)
read_digits-digits (suc fuel) n h = elim (Bool-cases (ltb n 10)) [
  | inl small ↦ rw small (ground (arith, small))
  | inr large ↦
      let rest : read_digits 0 (digits fuel (n / 10)) ≡ (n / 10, []) =
        read_digits-digits fuel (n / 10) (ground arith) in
      rw large (
        read_digits-append 0 (digits fuel (n / 10)) ((48 + n % 10) ∷ []) (ap (λ r. r.1) rest)
        ∙ ap (λ r. read_digits r.0 ((48 + n % 10) ∷ [])) rest
        ∙ ground arith)
]

digits_head :
    (fuel n : ℕ) → n < fuel → (c : ℕ) × (s : Text) × (digits fuel n ≡ c ∷ s) × (is_digit c ≡ true)
unfolding digits
digits_head zero n h = absurd (omega arith)
digits_head (suc fuel) n h = elim (Bool-cases (ltb n 10)) [
  | inl small ↦ (48 + n, [], rw small refl, ground arith)
  | inr large ↦
      let (c, s, e, d) = digits_head fuel (n / 10) (ground arith) in
      (c, s ++ (48 + n % 10) ∷ [], rw (large, e) refl, d)
]

skip_space-digit : (c : ℕ) (s : Text) → is_digit c ≡ true → skip_space (c ∷ s) ≡ c ∷ s
unfolding skip_space is_space
skip_space-digit c s d = ground arith

read_sign-digit : (c : ℕ) (s : Text) → is_digit c ≡ true → read_sign (c ∷ s) ≡ (false, c ∷ s)
unfolding read_sign
read_sign-digit c s d = ground arith

strtol_unsigned :
    (c : ℕ) (s : Text) (n : ℕ)
    → is_digit c ≡ true
    → read_digits 0 (c ∷ s) ≡ (n, [])
    → strtol (c ∷ s) ≡ (pos (min n long_max), [])
unfolding strtol
strtol_unsigned c s n d r =
    rw (skip_space-digit c s d) (rw (read_sign-digit c s d) (rw (r, d) refl))

strtol_negative :
    (c : ℕ) (s : Text) (n : ℕ)
    → is_digit c ≡ true
    → read_digits 0 (c ∷ s) ≡ (n, [])
    → strtol (b'-' ∷ c ∷ s) ≡ (neg (min n (long_max + 1)), [])
unfolding strtol skip_space is_space read_sign
strtol_negative c s n d r = rw (r, d) refl

-- The test of the bounds on what strtol gives for a whole text.
parse_of_strtol :
    (c : ℕ) (s : Text) (v : ℤ)
    → strtol (c ∷ s) ≡ (v, [])
    → parse_integer_optarg (c ∷ s) ≡ (if is_int v then some v else none)
unfolding parse_integer_optarg
parse_of_strtol c s v e = rw e (ground arith)

is_int-pos : (n : ℕ) → is_int (pos (min n long_max)) ≡ leb n int_max
unfolding is_int
is_int-pos n = ground arith

is_int-neg : (n : ℕ) → is_int (neg (min n (long_max + 1))) ≡ leb n (int_max + 1)
unfolding is_int
is_int-neg zero = refl
is_int-neg (suc n) = elim (Bool-cases (leb n long_max)) [
  | inl le ↦
      let e : min (suc n) (long_max + 1) ≡ suc n = omega (arith, leb→le n long_max le) in
      rw e (ground arith)
  | inr gt ↦ let e : min (suc n) (long_max + 1) ≡ suc long_max = ground arith in rw e (ground arith)
]

-- ParseIntegerOptarg reads back every decimal number that an `int` holds, with its sign, and refuses every
-- other one, also those that are too large for `strtol`.
pub parse_integer_optarg-digits :
    (n : ℕ)
    → (parse_integer_optarg (digits (suc n) n) ≡ (if leb n int_max then some (pos n) else none))
      × (parse_integer_optarg (b'-' ∷ digits (suc n) n)
          ≡ (if leb n (int_max + 1) then some (neg n) else none))
parse_integer_optarg-digits n =
    let (c, s, e, d) = digits_head (suc n) n (omega arith) in
    let r = subst (λ t. read_digits 0 t ≡ (n, [])) e (read_digits-digits (suc n) n (omega arith)) in
    rw e (
      parse_of_strtol c s _ (strtol_unsigned c s n d r) ∙ unsigned n,
      parse_of_strtol b'-' (c ∷ s) _ (strtol_negative c s n d r) ∙ negative n,
    )
  where
    unsigned :
        (n : ℕ)
        → (if is_int (pos (min n long_max)) then some (pos (min n long_max)) else none)
          ≡ (if leb n int_max then some (pos n) else none)
    unsigned n = rw (is_int-pos n) (ground arith)

    negative :
        (n : ℕ)
        → (if is_int (neg (min n (long_max + 1))) then some (neg (min n (long_max + 1))) else none)
          ≡ (if leb n (int_max + 1) then some (neg n) else none)
    negative n = rw (is_int-neg n) (elim (Bool-cases (leb n (int_max + 1))) [
      | inl le ↦
          let e : min n (long_max + 1) ≡ n = omega (arith, leb→le n (int_max + 1) le) in rw e refl
      | inr gt ↦ rw gt refl
    ])
