-- ===== src/Readiness/Examples.antt =====
-- The theorems on src/investment_tracker/readiness.py at concrete evidence.
use investment_tracker.Prelude.{◌≤◌, ◌≡◌, true, false, arith, refl}
use investment_tracker.Readiness.{ReadinessEvidence, score_readiness}
use investment_tracker.Readiness.Caps.{capped_by_gates, score_readiness_caps}

abbrev evidence : ReadinessEvidence
evidence = record {
  phase_a = 20;
  robustness = 15;
  phase_b = 15;
  prospective = 10;
  portfolio_risk = 10;
  reconciliation = 10;
  operations = 10;
  governance = 5;
  phase_a_complete = true;
  robustness_passed = true;
  phase_b_passed = false;
  prospective_gate_met = false;
  critical_controls_clear = true;
  independent_audit_approved = false;
}

capped : (score_readiness evidence).capped_score ≡ 79
unfolding score_readiness
capped = refl

score_readiness_caps_example :
    ((score_readiness evidence).capped_score
      ≡ capped_by_gates evidence (score_readiness evidence).raw_score)
    × ((score_readiness evidence).raw_score ≤ 100)
score_readiness_caps_example = score_readiness_caps evidence (omega arith)
