-- ===== src/Backtest/Points.antt =====
-- Natural numbers in the place of the Decimals of src/investment_tracker/backtest_v1.py, for the examples.
use investment_tracker.Prelude.{◌+◌, ◌-◌, ◌*◌, ◌/◌, ltb, leb, ◌==◌, ℕ, arith, ◌^◌}
use investment_tracker.Backtest.{Decimals}
use investment_tracker.Backtest.Statistics.Median.{Linear}

-- A number is so many ten-thousandths.
abbrev pub points : Decimals
points = record {
  N = ℕ;
  lt = ltb;
  le = leb;
  same = ◌==◌;
  plus = λ a b. a + b;
  minus = λ a b. a - b;
  absolute = λ a. a;
  half = λ a. a / 2;
  negate = λ a. 0;
  whole = λ n. 10000 * n;
  divide = λ a b. 10000 * a / b;
  power_of_two = λ n. 10000 * 2 ^ n;
  ratio = λ a b. 10000 * a / b;
}

points-Linear : Linear points
points-Linear = record {
  asymmetric = λ a b h. ground arith;
  transitive = λ a b c h k. ground arith;
  connected = λ a b h k. ground arith;
}
