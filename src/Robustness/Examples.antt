-- ===== src/Robustness/Examples.antt =====
-- The theorem on src/investment_tracker/robustness_v2.py at concrete observations.
use investment_tracker.Backtest.Statistics.{median_or_none}
use investment_tracker.Robustness.Selection.{Covered}
use investment_tracker.Prelude.{ℕ, String, ◌≡◌, ◌↔◌, refl, some, List, [], ◌∷◌, ok, length, All, In}
use investment_tracker.Dict.{get, put}
use investment_tracker.Governance.{assert_symbol_allowed}
use investment_tracker.Backtest.Points.{points}
use investment_tracker.Robustness.{
  DependenceObservation, SameSessionCluster, Rb09Report, passed, inconclusive, evaluate_rb09_v2,
  build_same_session_clusters, excesses,
}
use investment_tracker.Robustness.Counting.{clean_rows}
use investment_tracker.Robustness.Rule.{Spaced, Passes, evaluate_rb09_v2-reports}

abbrev plain : String → String
plain s = s

abbrev row : String → ℕ → ℕ → DependenceObservation ℕ
row asset day excess = record {
  episode_id = "e";
  asset = asset;
  entry_date = day;
  excess_spy_20d = excess;
  dq_status = "CLEAN";
}

abbrev days : List ℕ
days =
    1 ∷ 2 ∷ 3 ∷ 4 ∷ 5 ∷ 6 ∷ 7 ∷ 8 ∷ 9 ∷ 10 ∷ 11 ∷ 12 ∷ 13 ∷ 14 ∷ 15 ∷ 16 ∷ 17 ∷ 18 ∷ 19 ∷ 20 ∷ 21
    ∷ []

-- Two on the first day, one too soon, and one on the last.
abbrev observations : List (DependenceObservation ℕ)
observations = row "SMH" 1 10 ∷ row "CIBR" 1 30 ∷ row "SMH" 20 5 ∷ row "SMH" 21 40 ∷ []

abbrev report : Rb09Report ℕ
report = record {
  status = inconclusive;
  clean_observation_count = 4;
  same_session_cluster_count = 3;
  nonoverlap_cluster_count = 2;
  median_nonoverlap_excess_spy_20d = some 30;
}

returns : evaluate_rb09_v2 points plain observations days ≡ ok report
unfolding evaluate_rb09_v2 assert_symbol_allowed get put
returns = refl

evaluate_rb09_v2-reports_example :
    (4 ≡ clean_rows points observations)
    × (clusters : List (SameSessionCluster ℕ)) × (selected : List (SameSessionCluster ℕ))
    × (build_same_session_clusters points plain observations ≡ ok clusters)
    × (3 ≡ length clusters)
    × (2 ≡ length selected)
    × All (λ (s : SameSessionCluster ℕ). In s clusters) selected
    × All (Covered points days selected) clusters
    × Spaced points days 0 selected
    × (some 30 ≡ median_or_none points (excesses points selected))
    × ((inconclusive ≡ passed) ↔ Passes points selected)
evaluate_rb09_v2-reports_example = evaluate_rb09_v2-reports points plain observations days returns
