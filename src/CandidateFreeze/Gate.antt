-- ===== src/CandidateFreeze/Gate.antt =====
-- What a frozen candidate of src/investment_tracker/candidate_freeze.py has passed.
use investment_tracker.Prelude.{String, ◌≡◌, ◌↔◌, true, arith, ok}
use investment_tracker.Dict.{string_key}
use investment_tracker.CandidateFreeze.{
  CandidateFreezeInputs, freeze_candidate, failed_names, frozen_record,
}

-- The gates of a freeze.
record Passed (inputs : CandidateFreezeInputs) : Type 0 where
  pub tests : inputs.tests_passed ≡ true
  pub phase_a : inputs.phase_a_complete ≡ true
  pub robustness : inputs.robustness_passed ≡ true
  pub recomputed : inputs.independent_recompute_passed ≡ true

module _ (digest : CandidateFreezeInputs → String) where
  -- A candidate is frozen exactly when all four gates passed.
  freeze_candidate_iff :
      (inputs : CandidateFreezeInputs)
      → (freeze_candidate digest inputs ≡ ok (frozen_record digest inputs)) ↔ Passed inputs
  unfolding freeze_candidate failed_names
  freeze_candidate_iff inputs = (λ h. ground arith, λ h. ground arith)
