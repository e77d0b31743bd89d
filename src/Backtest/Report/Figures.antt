-- ===== src/Backtest/Report/Figures.antt =====
-- What a report of src/investment_tracker/backtest_v1.py says of the observations.
use investment_tracker.Prelude.{◌*◌, ◌≤◌, ◌<◌, ◌≡◌, false, not, List, map, length, All}
use investment_tracker.Backtest.{
  Decimals, passed, FoldResult, EpisodeObservation, IndependentCluster, BacktestReport,
}
use investment_tracker.Backtest.Statistics.{median_or_none}
use investment_tracker.Backtest.Observations.Primary.{primary_rows}
use investment_tracker.Backtest.Verdict.{count, is_not_positive, exceeds, underperforms, is_missing}
use investment_tracker.Backtest.Verdict.Passing.{Passing}

module _ (D : Decimals) where
  -- The figures of a report that says PASS.
  pub record Passes (r : BacktestReport D.N) : Type 0 where
    pub independent : 20 ≤ r.independent_episode_count
    pub thick : All (λ (f : FoldResult D.N). 5 ≤ f.independent_count) r.fold_results
    pub folds : 3 ≤ length r.fold_results → length r.fold_results * 2 ≤ r.positive_fold_count * 3
    pub spy : is_not_positive D r.median_net_excess_spy ≡ false
    pub cash : is_not_positive D r.median_net_excess_cash ≡ false
    pub stress_spy : is_not_positive D r.median_stress50_excess_spy ≡ false
    pub stress_cash : is_not_positive D r.median_stress50_excess_cash ≡ false
    pub years : exceeds D r.max_calendar_year_concentration (D.ratio 50 100) ≡ false
    pub assets : exceeds D r.max_asset_concentration (D.ratio 50 100) ≡ false
    pub breadth :
        (4 ≤ r.adequately_sampled_asset_count)
        × (r.adequately_sampled_asset_count < r.nonnegative_asset_count * 2)
    pub baseline : is_missing D r.simple_dip_median_excess_spy ≡ false
    pub ahead : underperforms D r.median_net_excess_spy r.simple_dip_median_excess_spy ≡ false
    pub trials : 20 ≤ r.sign_test_trials
    pub significant : exceeds D r.sign_test_one_sided_p (D.ratio 10 100) ≡ false

  abbrev pub spy_of : List (IndependentCluster D.N) → List D.N
  spy_of clusters = map (λ (k : IndependentCluster D.N). k.net_excess_spy) clusters

  abbrev pub cash_of : List (IndependentCluster D.N) → List D.N
  cash_of clusters = map (λ (k : IndependentCluster D.N). k.net_excess_cash) clusters

  -- The report's figures are those of the clusters, and of the observations.
  pub record Accurate (observations : List (EpisodeObservation D.N))
      (clusters : List (IndependentCluster D.N)) (r : BacktestReport D.N) : Type 0 where
    pub episodes : r.clean_episode_count ≡ length (primary_rows D observations)
    pub independent : r.independent_episode_count ≡ length clusters
    pub spy : r.median_net_excess_spy ≡ median_or_none D (spy_of clusters)
    pub cash : r.median_net_excess_cash ≡ median_or_none D (cash_of clusters)
    pub successes : r.sign_test_successes ≡ count (λ v. D.lt (D.ratio 0 1) v) (spy_of clusters)
    pub trials : r.sign_test_trials ≡ count (λ v. not (D.same v (D.ratio 0 1))) (spy_of clusters)
    pub verdict : r.status ≡ passed → Passes r
