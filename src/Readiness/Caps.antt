-- ===== src/Readiness/Caps.antt =====
-- What a readiness score of src/investment_tracker/readiness.py says of the gates behind it.
use investment_tracker.Prelude.{ℕ, ◌≤◌, ◌<◌, ◌≡◌, ◌↔◌, true, [], arith, if◌then◌else◌, min}
use investment_tracker.Readiness.{ReadinessEvidence, score_readiness}

-- The bounds that the fields of the evidence declare.
pub record InBounds (e : ReadinessEvidence) : Type 0 where
  pub phase_a : e.phase_a ≤ 20
  pub robustness : e.robustness ≤ 15
  pub phase_b : e.phase_b ≤ 15
  pub prospective : e.prospective ≤ 15
  pub portfolio_risk : e.portfolio_risk ≤ 10
  pub reconciliation : e.reconciliation ≤ 10
  pub operations : e.operations ≤ 10
  pub governance : e.governance ≤ 5

-- The score as a chain of caps, from the strictest gate to the loosest.
abbrev pub capped_by_gates : ReadinessEvidence → ℕ → ℕ
capped_by_gates e raw =
    if e.phase_a_complete
    then (if e.robustness_passed
        then (if e.phase_b_passed
            then (if e.prospective_gate_met
                then (if e.critical_controls_clear then raw else min raw 84)
                else min raw 84)
            else min raw 79)
        else min raw 74)
    else min raw 69

-- The capped score is the raw score under the cap of the strictest gate that fails, and the raw
-- score itself if none fails; the raw score of evidence within its bounds is 100 at most.
pub score_readiness_caps :
    (e : ReadinessEvidence)
    → InBounds e
    → ((score_readiness e).capped_score ≡ capped_by_gates e (score_readiness e).raw_score)
      × ((score_readiness e).raw_score ≤ 100)
unfolding score_readiness
score_readiness_caps e b = (ground arith, omega arith)

-- No hard gate fails exactly when all six are met.
hard_gate_failures_iff :
    (e : ReadinessEvidence)
    → ((score_readiness e).hard_gate_failures ≡ []) ↔ (
        (e.phase_a_complete ≡ true)
        × (e.robustness_passed ≡ true)
        × (e.phase_b_passed ≡ true)
        × (e.prospective_gate_met ≡ true)
        × (e.critical_controls_clear ≡ true)
        × (e.independent_audit_approved ≡ true))
unfolding score_readiness
hard_gate_failures_iff e = (λ h. ground arith, λ h. ground arith)

-- A score above 84 is given only to evidence that meets the five gates with a cap.
pub score_above_84 :
    (e : ReadinessEvidence)
    → 84 < (score_readiness e).capped_score
    → (e.phase_a_complete ≡ true)
      × (e.robustness_passed ≡ true)
      × (e.phase_b_passed ≡ true)
      × (e.prospective_gate_met ≡ true)
      × (e.critical_controls_clear ≡ true)
unfolding score_readiness
score_above_84 e h = ground arith
