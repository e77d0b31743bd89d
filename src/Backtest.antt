-- ===== src/Backtest.antt =====
-- src/investment_tracker/backtest_v1.py: the data of the governed backtest. A date is a number of days;
-- Python's Decimals, sha256 with JSON, a text's `strip` with `upper`, a date's year, and the
-- pseudo-random sampling are parameters of the modules that use them.
pub mod Protocol
pub mod Statistics
pub mod Points
pub mod Episodes
pub mod Observations
pub mod Verdict
pub mod Report
use investment_tracker.Prelude.{ℕ, String, Bool, Option, List}
use investment_tracker.Timestamp.{Timestamp}

-- Finite Decimals, with the operations that the backtest uses; nothing is assumed of their rounding.
pub record Decimals : Type 1 where
  pub N : Type 0
  pub lt : N → N → Bool
  pub le : N → N → Bool
  pub same : N → N → Bool
  pub plus : N → N → N
  pub minus : N → N → N
  pub absolute : N → N
  pub half : N → N
  pub negate : N → N
  -- `Decimal(n)`, which is exact
  pub whole : ℕ → N
  pub divide : N → N → N
  -- `Decimal(2) ** n`
  pub power_of_two : ℕ → N
  -- `Decimal(a) / Decimal(b)`
  pub ratio : ℕ → ℕ → N

pub data BacktestStatus : Type 0 where
  passed failed inconclusive : BacktestStatus

pub data BacktestError : Type 0 where
  protocol_error reuse_error symbol_refused value_error index_error key_error : BacktestError

pub record ValidationFold : Type 0 where
  pub fold_id : String
  pub start_date : ℕ
  pub end_date : ℕ

pub record FrozenBacktestProtocol : Type 0 where
  pub candidate_id : String
  pub qualification_dataset_id : String
  pub panel : List String
  pub benchmark : String
  pub research_end_date : ℕ
  pub folds : List ValidationFold
  pub preregistered_at : Timestamp
  pub history_accessed_at : Timestamp
  pub strategy_version : String
  pub calculation_version : String
  pub robustness_version : String
  pub protocol_digest : String

pub record QualificationAttempt : Type 0 where
  pub candidate_id : String
  pub qualification_dataset_id : String
  pub protocol_digest : String
  pub first_accessed_at : Timestamp
  pub purpose : String

pub record EpisodeObservation (N : Type 0) : Type 0 where
  pub candidate_id : String
  pub qualification_dataset_id : String
  pub fold_id : String
  pub episode_id : String
  pub asset : String
  pub signal_date : ℕ
  pub entry_date : ℕ
  pub horizon_close_date : ℕ
  pub horizon_td : ℕ
  pub friction_bps : ℕ
  pub gross_return : N
  pub spy_return : N
  pub cash_return : N
  pub return_net : N
  pub max_drawdown : Option N
  pub dq_status : String

pub record BaselineObservation (N : Type 0) : Type 0 where
  pub qualification_dataset_id : String
  pub fold_id : String
  pub baseline_id : String
  pub asset : String
  pub excess_spy_20d : N
  pub dq_status : String

pub record IndependentCluster (N : Type 0) : Type 0 where
  pub fold_id : String
  pub entry_date : ℕ
  pub episode_ids : List String
  pub assets : List String
  pub net_excess_spy : N
  pub net_excess_cash : N
  pub stress50_excess_spy : N
  pub stress50_excess_cash : N
  pub max_drawdown : N

pub record FoldResult (N : Type 0) : Type 0 where
  pub fold_id : String
  pub independent_count : ℕ
  pub median_net_excess_spy : Option N
  pub median_net_excess_cash : Option N
  pub positive : Option Bool

pub record BacktestReport (N : Type 0) : Type 0 where
  pub version : String
  pub candidate_id : String
  pub qualification_dataset_id : String
  pub status : BacktestStatus
  pub failures : List String
  pub inconclusive_reasons : List String
  pub clean_episode_count : ℕ
  pub independent_episode_count : ℕ
  pub fold_results : List (FoldResult N)
  pub positive_fold_count : ℕ
  pub median_net_excess_spy : Option N
  pub median_net_excess_cash : Option N
  pub median_stress50_excess_spy : Option N
  pub median_stress50_excess_cash : Option N
  pub simple_dip_median_excess_spy : Option N
  pub max_calendar_year_concentration : Option N
  pub max_asset_concentration : Option N
  pub adequately_sampled_asset_count : ℕ
  pub nonnegative_asset_count : ℕ
  pub sign_test_successes : ℕ
  pub sign_test_trials : ℕ
  pub sign_test_one_sided_p : Option N
  pub bootstrap_median_p05 : Option N
  pub bootstrap_median_p95 : Option N
  pub median_max_drawdown : Option N
  pub worst_max_drawdown : Option N
  pub protocol_digest : String
