-- ===== src/Replay/Examples.antt =====
-- The theorems on the signal rules at concrete numbers, and tests.
use investment_tracker.Prelude.{ℕ, ◌*◌, ◌+◌, ◌-◌, ◌/◌, ◌≡◌, refl, some, ltb, leb}
use investment_tracker.Replay.{Number, accumulate}
use investment_tracker.Replay.V2.{
  ReplayV2Inputs, evaluate_replay_v2, evaluate_options, evaluate_known, state_v2,
}
use investment_tracker.Replay.V21.{ReplayV21Inputs, evaluate_replay_v2_1}
use investment_tracker.Replay.Strictness.{demoted, above_cushion, evaluate_replay_v2_1_demotes}

-- Hundredths that do not go below 0.
abbrev cents : Number
cents = record {
  N = ℕ;
  lt = ltb;
  le = leb;
  times = λ a b. (a * b) / 100;
  minus = λ a b. a - b;
  plus = λ a b. a + b;
  negate = λ a. 0;
  hundredths = λ n. n;
}

abbrev rising : ReplayV2Inputs ℕ
rising = record {
  asset_close = some 9000;
  asset_sma200 = some 8900;
  prior60_high = some 10000;
  prior_close = some 8950;
  asset_sma5 = some 8990;
  asset_ret20 = some 4;
  spy_ret20 = some 2;
  spy_close = some 50000;
  spy_sma200 = some 40000;
}

abbrev near_average : ReplayV21Inputs ℕ
near_average = record {
  asset_close = some 9000;
  asset_sma200 = some 8900;
  prior60_high = some 10000;
  prior_close = some 8950;
  asset_sma5 = some 8990;
  asset_ret20 = some 4;
  spy_ret20 = some 2;
  spy_close = some 50000;
  spy_sma200 = some 40000;
}

accumulates : (evaluate_replay_v2 cents rising).state ≡ accumulate
unfolding evaluate_replay_v2 evaluate_options evaluate_known state_v2
accumulates = refl

evaluate_replay_v2_1_demotes_example :
    (evaluate_replay_v2_1 cents near_average).state
    ≡ demoted (above_cushion cents (some 9000) (some 8900)) accumulate
unfolding evaluate_replay_v2 evaluate_options evaluate_known state_v2
evaluate_replay_v2_1_demotes_example = evaluate_replay_v2_1_demotes cents near_average
