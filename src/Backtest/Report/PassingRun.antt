-- ===== src/Backtest/Report/PassingRun.antt =====
-- A run of `evaluate_backtest` of src/investment_tracker/backtest_v1.py that passes: seven episodes in
-- each of three folds.
use investment_tracker.Prelude.{◌++◌, ◌+◌, ℕ, ◌-◌, String, true, some, List, [], ◌∷◌}
use investment_tracker.Timestamp.{aware}
use investment_tracker.Backtest.{
  FrozenBacktestProtocol, EpisodeObservation, BacktestReport, FoldResult, passed,
}
use investment_tracker.Backtest.Report.Examples.{days, fold}

abbrev sessions : List ℕ
sessions = days 0 445

abbrev protocol : FrozenBacktestProtocol
protocol = record {
  candidate_id = "dip";
  qualification_dataset_id = "2024";
  panel = "CIBR" ∷ "SMH" ∷ "XLK" ∷ "IGV" ∷ [];
  benchmark = "SPY";
  research_end_date = 0;
  folds = fold "one" 21 161 ∷ fold "two" 162 302 ∷ fold "three" 303 443 ∷ [];
  preregistered_at = aware 5;
  history_accessed_at = aware 6;
  strategy_version = "v1";
  calculation_version = "v1";
  robustness_version = "v1";
  protocol_digest = "v1";
}

abbrev observation : String → String → String → ℕ → ℕ → EpisodeObservation ℕ
observation fold_id episode_id asset signal bps = record {
  candidate_id = "dip";
  qualification_dataset_id = "2024";
  fold_id = fold_id;
  episode_id = episode_id;
  asset = asset;
  signal_date = signal;
  entry_date = signal + 1;
  horizon_close_date = signal + 20;
  horizon_td = 20;
  friction_bps = bps;
  gross_return = 1000;
  spy_return = 100;
  cash_return = 10;
  return_net = 1000 - bps;
  max_drawdown = some 0;
  dq_status = "CLEAN";
}

-- One episode every twenty sessions, each at three frictions.
abbrev episodes : String → ℕ → List (String × String) → List (EpisodeObservation ℕ)
episodes fold_id signal [] = []
episodes fold_id signal ((name, asset) ∷ rest) =
    observation fold_id name asset signal 0
    ∷ observation fold_id name asset signal 10
    ∷ observation fold_id name asset signal 25
    ∷ episodes fold_id (signal + 20) rest

abbrev named : List (String × String)
named =
    ("a", "CIBR")
    ∷ ("b", "SMH")
    ∷ ("c", "XLK")
    ∷ ("d", "IGV")
    ∷ ("e", "CIBR")
    ∷ ("f", "SMH")
    ∷ ("g", "XLK")
    ∷ []

abbrev observations : List (EpisodeObservation ℕ)
observations = episodes "one" 21 named ++ episodes "two" 162 named ++ episodes "three" 303 named

abbrev seven : String → FoldResult ℕ
seven name = record {
  fold_id = name;
  independent_count = 7;
  median_net_excess_spy = some 875;
  median_net_excess_cash = some 965;
  positive = some true;
}

abbrev report : BacktestReport ℕ
report = record {
  version = "BACKTEST-v1.0";
  candidate_id = "dip";
  qualification_dataset_id = "2024";
  status = passed;
  failures = [];
  inconclusive_reasons = [];
  clean_episode_count = 21;
  independent_episode_count = 21;
  fold_results = seven "one" ∷ seven "two" ∷ seven "three" ∷ [];
  positive_fold_count = 3;
  median_net_excess_spy = some 875;
  median_net_excess_cash = some 965;
  median_stress50_excess_spy = some 850;
  median_stress50_excess_cash = some 940;
  simple_dip_median_excess_spy = some 50;
  max_calendar_year_concentration = some 4761;
  max_asset_concentration = some 2857;
  adequately_sampled_asset_count = 4;
  nonnegative_asset_count = 4;
  sign_test_successes = 21;
  sign_test_trials = 21;
  sign_test_one_sided_p = some 0;
  bootstrap_median_p05 = some 875;
  bootstrap_median_p95 = some 875;
  median_max_drawdown = some 0;
  worst_max_drawdown = some 0;
  protocol_digest = "v1";
}
