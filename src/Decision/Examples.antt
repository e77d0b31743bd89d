-- ===== src/Decision/Examples.antt =====
-- The theorems on src/investment_tracker/decision.py at concrete requests, and tests.
use investment_tracker.Prelude.{◌≡◌, ◌≢◌, ◌↔◌, refl, true, some, []}
use investment_tracker.Timestamp.{aware}
use investment_tracker.Decision.{
  EvidenceHealth, PortfolioRiskPolicy, PortfolioSnapshot, DecisionRequest, generate_decision,
  abstain, consider_trimming, assess, failures, recommend,
}
use investment_tracker.Decision.Clearance.{
  AllMet, WithinPolicy, IsActionable, generate_decision_iff,
}

abbrev healthy : EvidenceHealth
healthy = record {
  market_data_fresh = true;
  benchmark_aligned = true;
  no_critical_dq = true;
  canonical_digests_valid = true;
  snapshot_current = true;
  versions_match = true;
  calculation_tests_pass = true;
  breadth_met = true;
  independent_recalculation_agrees = true;
  phase_b_passed = true;
  prospective_gate_met = true;
  operational_healthy = true;
}

abbrev policy : PortfolioRiskPolicy
policy = record {
  policy_version = "P1";
  max_single_position = 20;
  max_theme_exposure = 40;
  max_correlated_exposure = 50;
  max_aggregate_exposure = 80;
  minimum_cash_buffer = 10;
}

abbrev portfolio : PortfolioSnapshot
portfolio = record {
  snapshot_id = "S1";
  as_of_timestamp = aware 5;
  asset_allocation = some 15;
  theme_allocation = some 40;
  correlated_allocation = some 15;
  aggregate_exposure = some 70;
  cash_allocation = some 30;
}

abbrev request : DecisionRequest
request = record {
  decision_id = "D1";
  asset = "CIBR";
  as_of_timestamp = aware 6;
  market_data_cutoff = aware 4;
  signal_state = "TRIM/AVOID";
  source_snapshot_id = "S1";
  evidence = healthy;
  policy = some policy;
  portfolio = some portfolio;
  relevant_dq_refs = [];
  contrary_evidence = [];
  invalidators = [];
}

trims : (generate_decision request).recommendation_state ≡ consider_trimming
unfolding generate_decision assess failures recommend
trims = refl

generate_decision_iff_example :
    ((generate_decision request).recommendation_state ≢ abstain)
    ↔ (AllMet healthy × WithinPolicy (some policy) (some portfolio) × IsActionable "TRIM/AVOID")
generate_decision_iff_example = generate_decision_iff request

has_room : (generate_decision request).incremental_policy_room ≡ some 5
unfolding generate_decision assess
has_room = refl
