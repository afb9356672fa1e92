-- ===== src/Engine/Floats.antt =====
-- The binary64 arithmetic that packages/core/src/belief_ledger_core/engine uses, on bit patterns.
-- It belongs to the machine, so it is an argument of the model.
use belief_ledger_pramana.Prelude.{ℕ, ◌≡◌, Bool, true, false, ℤ}

pub record Floats : Type 0 where
  pub lt : ℕ → ℕ → Bool
  pub ge : ℕ → ℕ → Bool
  pub add : ℕ → ℕ → ℕ
  pub divide : ℕ → ℕ → ℕ
  pub from_int : ℕ → ℕ
  pub half : ℕ → ℕ
  -- `round(x * 1_000)`
  pub round_milli : ℕ → ℤ
  -- the literals 0.5 and 0.8
  pub one_half : ℕ
  pub four_fifths : ℕ

-- `<` on floats that are not NaN orders them.
pub record IsOrdered (f : Floats) : Type 0 where
  pub irreflexive : (a : ℕ) → f.lt a a ≡ false
  pub asymmetric : (a b : ℕ) → f.lt a b ≡ true → f.lt b a ≡ false
