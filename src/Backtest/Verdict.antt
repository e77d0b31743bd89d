-- ===== src/Backtest/Verdict.antt =====
-- The verdict of src/investment_tracker/backtest_v1.py: what `evaluate_backtest` computes of the collected
-- observations, the failures and the inconclusive reasons, and the status.
pub mod Passing
use Prim.Native.Nat.{Ordering}
use Prim.Native.String.{◌++◌ as str_append, compare as str_compare}
use investment_tracker.Prelude.{
  ℕ, ◌+◌, ◌*◌, String, Bool, true, false, not, ◌&&◌, Option, none, some, List, [], ◌∷◌, ◌++◌, map,
  length, ltb, leb, ◌==◌, if◌then◌else◌,
}
use investment_tracker.Dict.{Dict, get, put, string_key}
use investment_tracker.Selector.{rows_of, day_key}
use investment_tracker.Backtest.{
  Decimals, BacktestStatus, passed, failed, inconclusive, EpisodeObservation, IndependentCluster,
  FoldResult,
}
use investment_tracker.Backtest.Statistics.{
  median, median_or_none, concentration, one_sided_sign_test,
}
use investment_tracker.Backtest.Episodes.{net_excess_spy}

-- The reasons of the tests that hold, in order: one `if` with an `append` for each.
unfoldable pub raised : List (Bool × String) → List String
raised [] = []
raised ((holds, reason) ∷ tests) = if holds then reason ∷ raised tests else raised tests

-- `sorted(set(reasons))`
insert_reason : String → List String → List String
insert_reason r [] = r ∷ []
insert_reason r (s ∷ reasons) = elim (str_compare r s) [
  | Ordering.lt ↦ r ∷ s ∷ reasons
  | Ordering.eq ↦ s ∷ reasons
  | Ordering.gt ↦ s ∷ insert_reason r reasons
]

unfoldable pub sorted_reasons : List String → List String
unfolding insert_reason
sorted_reasons [] = []
sorted_reasons (r ∷ reasons) = insert_reason r (sorted_reasons reasons)

abbrev pub is_nonempty : {A : Type 0} → List A → Bool
is_nonempty [] = false
is_nonempty (x ∷ xs) = true

-- What the checks read.
pub record Evidence (N : Type 0) : Type 0 where
  pub incomplete_friction : Bool
  pub inconsistent_scenarios : Bool
  pub clean_primary_rows : List (EpisodeObservation N)
  pub clusters : List (IndependentCluster N)
  pub fold_results : List (FoldResult N)
  pub median_spy : Option N
  pub median_cash : Option N
  pub median_stress_spy : Option N
  pub median_stress_cash : Option N
  pub positive_folds : ℕ
  pub year_concentration : Option N
  pub asset_concentration : Option N
  pub adequate : ℕ
  pub nonnegative_assets : ℕ
  pub baseline_median : Option N
  pub successes : ℕ
  pub trials : ℕ
  pub sign_p : Option N

-- `sum(result.positive is True for result in fold_results)`
abbrev pub is_true : Option Bool → Bool
is_true (some true) = true
is_true (some false) = false
is_true none = false

abbrev pub count : {A : Type 0} → (A → Bool) → List A → ℕ
count p [] = 0
count p (x ∷ xs) = if p x then 1 + count p xs else count p xs

unfoldable pub thin_folds : {N : Type 0} → List (FoldResult N) → List (Bool × String)
thin_folds [] = []
thin_folds (result ∷ results) =
    (ltb result.independent_count 5, str_append result.fold_id ":independent_count_below_5")
    ∷ thin_folds results

unfoldable pub status_of : List String → List String → BacktestStatus
status_of failures reasons =
    if is_nonempty failures then failed else if is_nonempty reasons then inconclusive else passed

module _ (D : Decimals) where
  -- `by_asset`, from the assets so far.
  unfoldable pub by_asset :
      List (EpisodeObservation D.N) → Dict String (List D.N) → Dict String (List D.N)
  by_asset [] groups = groups
  by_asset (row ∷ rows) groups =
      by_asset rows
        (put groups row.asset (rows_of (get groups row.asset) ++ net_excess_spy D row ∷ []))

  -- The values of the assets in `adequate`.
  abbrev pub adequate_values : Dict String (List D.N) → List (List D.N)
  adequate_values [] = []
  adequate_values ((asset, values) ∷ groups) =
      if leb 3 (length values) then values ∷ adequate_values groups else adequate_values groups

  -- `_median(values) >= 0`, of a list that is not empty
  abbrev pub is_nonnegative : Option D.N → Bool
  is_nonnegative none = false
  is_nonnegative (some m) = D.le (D.ratio 0 1) m

  abbrev pub count_nonnegative : List (List D.N) → ℕ
  count_nonnegative = count (λ values. is_nonnegative (median D values))

  -- `value is not None and value <= 0`
  abbrev pub is_not_positive : Option D.N → Bool
  is_not_positive none = false
  is_not_positive (some m) = D.le m (D.ratio 0 1)

  -- `value is not None and value > limit`
  abbrev pub exceeds : Option D.N → D.N → Bool
  exceeds none limit = false
  exceeds (some v) limit = D.lt limit v

  -- `median_spy is not None and median_spy < baseline_median`
  abbrev pub underperforms : Option D.N → Option D.N → Bool
  underperforms (some m) (some b) = D.lt m b
  underperforms _ _ = false

  abbrev pub is_missing : Option D.N → Bool
  is_missing none = true
  is_missing (some v) = false

  abbrev pub failure_tests : Evidence D.N → List (Bool × String)
  failure_tests e =
      (e.inconsistent_scenarios, "inconsistent_friction_scenario_inputs")
      ∷ (is_not_positive e.median_spy, "median_25bps_excess_spy_not_positive")
      ∷ (is_not_positive e.median_cash, "median_25bps_excess_cash_not_positive")
      ∷ (is_not_positive e.median_stress_spy, "median_50bps_stress_excess_spy_not_positive")
      ∷ (is_not_positive e.median_stress_cash, "median_50bps_stress_excess_cash_not_positive")
      ∷ (
        leb 3 (length e.fold_results) && ltb (e.positive_folds * 3) (length e.fold_results * 2),
        "fewer_than_two_thirds_validation_folds_positive",
      )
      ∷ (exceeds e.year_concentration (D.ratio 50 100), "calendar_year_concentration_above_50pct")
      ∷ (exceeds e.asset_concentration (D.ratio 50 100), "asset_concentration_above_50pct")
      ∷ (
        leb 4 e.adequate && leb (e.nonnegative_assets * 2) e.adequate,
        "cross_asset_breadth_not_strict_majority_nonnegative",
      )
      ∷ (underperforms e.median_spy e.baseline_median, "strategy_underperforms_simple_dip_baseline")
      ∷ (leb 20 e.trials && exceeds e.sign_p (D.ratio 10 100), "sign_test_not_significant_at_10pct")
      ∷ []

  unfoldable pub failures_of : Evidence D.N → List String
  unfolding raised
  failures_of e = raised (failure_tests e)

  -- `[row for row in clean_primary_rows if row.max_drawdown is None]` has an element.
  abbrev pub any_missing_drawdown : List (EpisodeObservation D.N) → Bool
  any_missing_drawdown [] = false
  any_missing_drawdown (row ∷ rows) =
      if is_missing row.max_drawdown then true else any_missing_drawdown rows

  abbrev pub evidence_tests : Evidence D.N → List (Bool × String)
  evidence_tests e =
      (e.incomplete_friction, "incomplete_0_10_25bps_friction_scenarios")
      ∷ (not (is_nonempty e.clean_primary_rows), "no_clean_primary_horizon_observations")
      ∷ (
        any_missing_drawdown e.clean_primary_rows,
        "max_drawdown_missing_for_clean_primary_observations",
      )
      ∷ (ltb (length e.clusters) 20, "independent_episode_count_below_20")
      ∷ []

  abbrev pub breadth_tests : Evidence D.N → List (Bool × String)
  breadth_tests e =
      (ltb e.adequate 4, "fewer_than_4_adequately_sampled_assets")
      ∷ (is_missing e.baseline_median, "simple_dip_baseline_missing")
      ∷ (ltb e.trials 20, "sign_test_effective_trials_below_20")
      ∷ []

  unfoldable pub inconclusive_of : Evidence D.N → List String
  unfolding thin_folds raised
  inconclusive_of e =
      raised (evidence_tests e) ++ raised (thin_folds e.fold_results) ++ raised (breadth_tests e)
