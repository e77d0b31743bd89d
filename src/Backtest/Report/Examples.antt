-- ===== src/Backtest/Report/Examples.antt =====
-- The theorems on `evaluate_backtest` of src/investment_tracker/backtest_v1.py at a concrete backtest of
-- one episode.
use investment_tracker.Prelude.{
  ℕ, zero, suc, ◌-◌, ◌*◌, ◌/◌, String, ◌≡◌, refl, true, some, none, List, [], ◌∷◌, All, ok,
}
use investment_tracker.Timestamp.{aware}
use investment_tracker.Backtest.{
  ValidationFold, FrozenBacktestProtocol, EpisodeObservation, BaselineObservation, BacktestReport,
  FoldResult, failed,
}
use investment_tracker.Backtest.Points.{points}
use investment_tracker.Backtest.Protocol.{ProtocolPayload}
use investment_tracker.Backtest.Observations.Lookahead.{NoLookahead}
use investment_tracker.Backtest.Report.{evaluate_backtest}
use investment_tracker.Backtest.Report.Verified.{evaluate_backtest-NoLookahead}
use investment_tracker.Governance.{assert_symbol_allowed}
use investment_tracker.Dict.{get, put, pair_beq}

abbrev pub plain : String → String
plain s = s

abbrev pub digest_of : ProtocolPayload → String
digest_of p = p.strategy_version

abbrev falling : ℕ → ℕ → ℕ
falling n zero = 1
falling n (suc k) = n * falling (n - 1) k

abbrev pub comb : ℕ → ℕ → ℕ
comb n k = falling n k / falling k k

abbrev pub year_of : ℕ → ℕ
year_of day = day / 200

-- Every sample repeats the first value.
abbrev repeat : {A : Type 0} → ℕ → A → List A
repeat zero a = []
repeat (suc n) a = a ∷ repeat n a

abbrev pub rng : String → ℕ → ℕ → List (List ℕ)
rng seed n draws = repeat draws (0 ∷ [])

abbrev pub days : ℕ → ℕ → List ℕ
days from zero = []
days from (suc n) = from ∷ days (suc from) n

abbrev sessions : List ℕ
sessions = days 0 50

abbrev pub fold : String → ℕ → ℕ → ValidationFold
fold name from to = record { fold_id = name; start_date = from; end_date = to }

abbrev protocol : FrozenBacktestProtocol
protocol = record {
  candidate_id = "dip";
  qualification_dataset_id = "2024";
  panel = "CIBR" ∷ "SMH" ∷ [];
  benchmark = "SPY";
  research_end_date = 0;
  folds = fold "one" 21 42 ∷ fold "two" 43 44 ∷ fold "three" 45 46 ∷ [];
  preregistered_at = aware 5;
  history_accessed_at = aware 6;
  strategy_version = "v1";
  calculation_version = "v1";
  robustness_version = "v1";
  protocol_digest = "v1";
}

abbrev observation : ℕ → EpisodeObservation ℕ
observation bps = record {
  candidate_id = "dip";
  qualification_dataset_id = "2024";
  fold_id = "one";
  episode_id = "first";
  asset = "CIBR";
  signal_date = 21;
  entry_date = 22;
  horizon_close_date = 41;
  horizon_td = 20;
  friction_bps = bps;
  gross_return = 1000;
  spy_return = 100;
  cash_return = 10;
  return_net = 1000 - bps;
  max_drawdown = some 0;
  dq_status = "CLEAN";
}

abbrev observations : List (EpisodeObservation ℕ)
observations = observation 0 ∷ observation 10 ∷ observation 25 ∷ []

abbrev pub baseline : BaselineObservation ℕ
baseline = record {
  qualification_dataset_id = "2024";
  fold_id = "one";
  baseline_id = "simple-dip";
  asset = "SMH";
  excess_spy_20d = 50;
  dq_status = "CLEAN";
}

abbrev empty_fold : String → FoldResult ℕ
empty_fold name = record {
  fold_id = name;
  independent_count = 0;
  median_net_excess_spy = none;
  median_net_excess_cash = none;
  positive = none;
}

abbrev report : BacktestReport ℕ
report = record {
  version = "BACKTEST-v1.0";
  candidate_id = "dip";
  qualification_dataset_id = "2024";
  status = failed;
  failures =
      "asset_concentration_above_50pct" ∷ "calendar_year_concentration_above_50pct"
      ∷ "fewer_than_two_thirds_validation_folds_positive" ∷ [];
  inconclusive_reasons =
      "fewer_than_4_adequately_sampled_assets" ∷ "independent_episode_count_below_20"
      ∷ "one:independent_count_below_5" ∷ "sign_test_effective_trials_below_20"
      ∷ "three:independent_count_below_5" ∷ "two:independent_count_below_5" ∷ [];
  clean_episode_count = 1;
  independent_episode_count = 1;
  fold_results =
      record {
        fold_id = "one";
        independent_count = 1;
        median_net_excess_spy = some 875;
        median_net_excess_cash = some 965;
        positive = some true;
      }
      ∷ empty_fold "two"
      ∷ empty_fold "three"
      ∷ [];
  positive_fold_count = 1;
  median_net_excess_spy = some 875;
  median_net_excess_cash = some 965;
  median_stress50_excess_spy = some 850;
  median_stress50_excess_cash = some 940;
  simple_dip_median_excess_spy = some 50;
  max_calendar_year_concentration = some 10000;
  max_asset_concentration = some 10000;
  adequately_sampled_asset_count = 0;
  nonnegative_asset_count = 0;
  sign_test_successes = 1;
  sign_test_trials = 1;
  sign_test_one_sided_p = some 5000;
  bootstrap_median_p05 = some 875;
  bootstrap_median_p95 = some 875;
  median_max_drawdown = some 0;
  worst_max_drawdown = some 0;
  protocol_digest = "v1";
}

returns :
    evaluate_backtest points plain digest_of comb year_of rng protocol observations
      (baseline ∷ [])
      sessions
      []
      100
    ≡ ok report
unfolding evaluate_backtest assert_symbol_allowed get put pair_beq
returns = refl

evaluate_backtest-NoLookahead_example :
    All (NoLookahead points plain protocol sessions) observations
evaluate_backtest-NoLookahead_example =
    evaluate_backtest-NoLookahead points plain digest_of comb year_of rng protocol observations
      (baseline ∷ []) sessions [] 100 returns
