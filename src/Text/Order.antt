-- ===== src/Text/Order.antt =====
-- The equality test and the order of strings, as keys of the containers.
use include_what_you_use.Base.{true, false, [], ◌∷◌, ◌≡◌, refl, ◌↔◌, ◌⊎◌, inl, inr, arith}
use include_what_you_use.Base.Key.{Key}
use include_what_you_use.Text.{Text, text_eq, text_less}

pub text_eq_iff : (a b : Text) → (text_eq a b ≡ true) ↔ (a ≡ b)
unfolding text_eq
text_eq_iff (x ∷ a) (y ∷ b) = ground (arith, text_eq_iff a b)
text_eq_iff _ _ = ground arith

pub text_eq_refl : (a : Text) → text_eq a a ≡ true
text_eq_refl a = (text_eq_iff a a).1 refl

-- Of two strings one comes first, or they are equal.
pub text_less_total : (a b : Text) → (text_less a b ≡ true) ⊎ (a ≡ b) ⊎ (text_less b a ≡ true)
unfolding text_less
text_less_total [] [] = inr (inl refl)
text_less_total [] (y ∷ b) = inl refl
text_less_total (x ∷ a) [] = inr (inr refl)
text_less_total (x ∷ a) (y ∷ b) = ground (arith, text_less_total a b)

pub text_less_trans :
    (a b c : Text) → text_less a b ≡ true → text_less b c ≡ true → text_less a c ≡ true
unfolding text_less
text_less_trans (x ∷ a) (y ∷ b) (z ∷ c) p q = ground (arith, text_less_trans a b c)
text_less_trans [] (y ∷ b) (z ∷ c) p q = refl
text_less_trans _ _ _ p q = ground arith

pub text_less_irrefl : (a : Text) → text_less a a ≡ false
unfolding text_less
text_less_irrefl [] = refl
text_less_irrefl (x ∷ a) = ground (arith, text_less_irrefl a)

instance abbrev pub text_key : Key Text
text_key = record { beq = text_eq; less = text_less; beq_iff = text_eq_iff }
