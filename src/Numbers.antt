-- ===== src/Numbers.antt =====
-- The numbers of JavaScript where they are not whole: the scores and thresholds of the interview
-- and of what is compiled from it. Their arithmetic rounds, so the code is modelled over any
-- arithmetic, and a theorem assumes of it what it needs. No value of a JSON text is NaN.
use oss_agent_tools.Prelude.{ℕ, ◌≡◌, Bool, true, not}

pub record Arithmetic (N : Type 0) : Type 0 where
  -- `a < b` and `a + b`.
  pub lt : N → N → Bool
  pub plus : N → N → N
  -- The literal of so many thousandths.
  pub thousandths : ℕ → N

-- `a >= b`.
abbrev pub at_least : {N : Type 0} → Arithmetic N → N → N → Bool
at_least a x y = not (a.lt x y)

-- What the order of the numbers and their rounding sum satisfy.
pub record IsOrdered {N : Type 0} (a : Arithmetic N) : Type 0 where
  -- The order is strict and connected, in the form of its transitive negation.
  pub ge_trans : (x y z : N) → at_least a x y ≡ true → at_least a y z ≡ true → at_least a x z ≡ true
  -- Adding a positive number does not make a sum smaller.
  pub plus_grows : (x d : N) → a.lt (a.thousandths 0) d ≡ true → at_least a (a.plus x d) x ≡ true
