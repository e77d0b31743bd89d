-- ===== src/Replay.antt =====
-- The signal rules: src/investment_tracker/replay.py (V1), replay_v2.py (V2) and replay_v2_1.py (V21).
-- Python's numbers, floats in the first and Decimals in the others, are a parameter with the
-- operations that the rules use; nothing is assumed of their rounding.
pub mod V1
pub mod V2
pub mod V21
pub mod Strictness
mod Examples
use investment_tracker.Prelude.{ℕ, Bool, Option}

pub record Number : Type 1 where
  pub N : Type 0
  pub lt : N → N → Bool
  pub le : N → N → Bool
  pub times : N → N → N
  pub minus : N → N → N
  pub plus : N → N → N
  pub negate : N → N
  -- The value that a literal of so many hundredths denotes.
  pub hundredths : ℕ → N

-- `SignalState`, whose values are the strings that replay.py returns.
pub data SignalState : Type 0 where
  accumulate watch wait trim_avoid abstain : SignalState
