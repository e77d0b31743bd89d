-- ===== src/Backtest/Report.antt =====
-- `evaluate_backtest` of src/investment_tracker/backtest_v1.py as a whole. `comb` stands for `math.comb`,
-- `year_of` for a date's year, and `rng` for the sampling of `random.Random`.
pub mod Verified
pub mod Figures
mod Examples
mod PassingRun
use investment_tracker.Prelude.{
  ℕ, String, Bool, not, Option, none, List, [], ◌∷◌, map, length, leb, ltb, ◌==◌, if◌then◌else◌,
  Result, ok, err, and_then, or_raise,
}
use investment_tracker.Selector.{is_increasing, day_key}
use investment_tracker.Dict.{string_key}
use investment_tracker.Backtest.{
  Decimals, BacktestError, value_error, protocol_error, FrozenBacktestProtocol,
  QualificationAttempt, EpisodeObservation, BaselineObservation, IndependentCluster, BacktestReport,
}
use investment_tracker.Backtest.Protocol.{
  ProtocolPayload, require, calendar, verify_protocol_digest, assert_qualification_dataset_unused,
  validate_protocol_calendar,
}
use investment_tracker.Backtest.Statistics.{
  median, median_or_none, concentration, one_sided_sign_test, bootstrap_median_interval,
}
use investment_tracker.Backtest.Episodes.{independent_clusters, fold_results, minimum}
use investment_tracker.Backtest.Observations.{
  Collected, nothing_collected, collect, clean_baselines, any_incomplete, any_inconsistent,
}
use investment_tracker.Backtest.Verdict.{
  Evidence, is_nonempty, is_true, count, by_asset, adequate_values, count_nonnegative, failures_of,
  inconclusive_of, sorted_reasons, status_of,
}

module _ (D : Decimals) where
  -- `_one_sided_sign_test(successes, trials) if trials else None`; there are never more successes than
  -- trials.
  abbrev pub sign_p_of : (ℕ → ℕ → ℕ) → ℕ → ℕ → Option D.N
  sign_p_of comb successes trials =
      if trials == 0 then none else one_sided_sign_test D comb successes trials

  -- What is computed of the collected rows, their clusters and the baselines.
  unfoldable pub evidence_of :
      (ℕ → ℕ → ℕ)
      → (ℕ → ℕ)
      → FrozenBacktestProtocol
      → Collected D.N
      → List (IndependentCluster D.N)
      → List D.N
      → Evidence D.N
  unfolding median one_sided_sign_test concentration fold_results by_asset
  evidence_of comb year_of protocol c clusters baselines =
      let spy : List D.N = map (λ (k : IndependentCluster D.N). k.net_excess_spy) clusters in
      let results = fold_results D protocol.folds clusters in
      let adequate = adequate_values D (by_asset D c.clean_primary_rows []) in
      let successes = count (λ v. D.lt (D.ratio 0 1) v) spy in
      let trials = count (λ v. not (D.same v (D.ratio 0 1))) spy in
      record {
        incomplete_friction = any_incomplete D c.grouped;
        inconsistent_scenarios = any_inconsistent D c.grouped;
        clean_primary_rows = c.clean_primary_rows;
        clusters = clusters;
        fold_results = results;
        median_spy = median_or_none D spy;
        median_cash =
            median_or_none D (map (λ (k : IndependentCluster D.N). k.net_excess_cash) clusters);
        median_stress_spy =
            median_or_none D (map (λ (k : IndependentCluster D.N). k.stress50_excess_spy) clusters);
        median_stress_cash =
            median_or_none D
              (map (λ (k : IndependentCluster D.N). k.stress50_excess_cash) clusters);
        positive_folds = count (λ r. is_true r.positive) results;
        year_concentration =
            concentration D {K = ℕ}
              (map (λ (row : EpisodeObservation D.N). year_of row.entry_date) c.clean_primary_rows);
        asset_concentration =
            concentration D {K = String}
              (map (λ (row : EpisodeObservation D.N). row.asset) c.clean_primary_rows);
        adequate = length adequate;
        nonnegative_assets = count_nonnegative D adequate;
        baseline_median = median_or_none D baselines;
        successes = successes;
        trials = trials;
        sign_p = sign_p_of comb successes trials;
      }

  unfoldable pub report_of :
      FrozenBacktestProtocol → Evidence D.N → Option D.N × Option D.N → BacktestReport D.N
  unfolding failures_of inconclusive_of sorted_reasons status_of median
  report_of protocol e bootstrap =
      let drawdowns : List D.N = map (λ (k : IndependentCluster D.N). k.max_drawdown) e.clusters in
      record {
        version = "BACKTEST-v1.0";
        candidate_id = protocol.candidate_id;
        qualification_dataset_id = protocol.qualification_dataset_id;
        status = status_of (failures_of D e) (inconclusive_of D e);
        failures = sorted_reasons (failures_of D e);
        inconclusive_reasons = sorted_reasons (inconclusive_of D e);
        clean_episode_count = length e.clean_primary_rows;
        independent_episode_count = length e.clusters;
        fold_results = e.fold_results;
        positive_fold_count = e.positive_folds;
        median_net_excess_spy = e.median_spy;
        median_net_excess_cash = e.median_cash;
        median_stress50_excess_spy = e.median_stress_spy;
        median_stress50_excess_cash = e.median_stress_cash;
        simple_dip_median_excess_spy = e.baseline_median;
        max_calendar_year_concentration = e.year_concentration;
        max_asset_concentration = e.asset_concentration;
        adequately_sampled_asset_count = e.adequate;
        nonnegative_asset_count = e.nonnegative_assets;
        sign_test_successes = e.successes;
        sign_test_trials = e.trials;
        sign_test_one_sided_p = e.sign_p;
        bootstrap_median_p05 = bootstrap.0;
        bootstrap_median_p95 = bootstrap.1;
        median_max_drawdown = median_or_none D drawdowns;
        worst_max_drawdown = minimum D drawdowns;
        protocol_digest = protocol.protocol_digest;
      }

  module _ (strip_upper : String → String) (digest_of : ProtocolPayload → String) (comb : ℕ → ℕ → ℕ)
      (year_of : ℕ → ℕ) (rng : String → ℕ → ℕ → List (List ℕ)) where
    unfoldable pub evaluate_backtest :
        FrozenBacktestProtocol
        → List (EpisodeObservation D.N)
        → List (BaselineObservation D.N)
        → List ℕ
        → List QualificationAttempt
        → ℕ
        → Result BacktestError (BacktestReport D.N)
    unfolding verify_protocol_digest assert_qualification_dataset_unused validate_protocol_calendar
        is_increasing collect independent_clusters clean_baselines bootstrap_median_interval
        evidence_of report_of
    evaluate_backtest protocol observations baselines benchmark_sessions prior_attempts draws =
        and_then (require (verify_protocol_digest digest_of protocol)) λ _.
          and_then (assert_qualification_dataset_unused protocol prior_attempts) λ _.
            and_then (validate_protocol_calendar protocol benchmark_sessions) λ _.
              and_then (require (leb 100 draws)) λ _.
                and_then (calendar benchmark_sessions) λ sessions.
                  and_then (collect D strip_upper protocol sessions observations nothing_collected)
                    λ c. and_then (require (not (is_nonempty c.timing_errors))) λ _.
                      and_then (independent_clusters D c.clean_primary_rows sessions) λ clusters.
                        and_then (clean_baselines D strip_upper protocol baselines) λ clean.
                          and_then
                            (or_raise value_error (
                              bootstrap_median_interval D rng
                                (map (λ (k : IndependentCluster D.N). k.net_excess_spy) clusters)
                                protocol.protocol_digest draws))
                            λ interval. ok (
                              report_of protocol
                                (evidence_of comb year_of protocol c clusters clean) interval)
