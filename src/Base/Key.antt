-- ===== src/Base/Key.antt =====
-- Keys of the ordered containers `std::map` and `std::set`: an equality test and the order `<`.
use mathlib.Core.Path.{◌≡◌}
use mathlib.Core.Logic.{◌↔◌}
use mathlib.Core.Bool.{Bool, true}

pub record Key (K : Type 0) : Type 0 where
  pub beq : K → K → Bool
  pub less : K → K → Bool
  pub beq_iff : (a b : K) → (beq a b ≡ true) ↔ (a ≡ b)
