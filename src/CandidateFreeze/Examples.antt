-- ===== src/CandidateFreeze/Examples.antt =====
-- Tests of src/investment_tracker/candidate_freeze.py.
use investment_tracker.Prelude.{◌≡◌, refl, true, [], ◌∷◌, ok}
use investment_tracker.Dict.{get}
use investment_tracker.Timestamp.{aware}
use investment_tracker.Snapshot.{unchanged}
use investment_tracker.CandidateFreeze.{
  CandidateFreezeInputs, validate_inputs, fields_valid, frozen_versions,
}

abbrev inputs : CandidateFreezeInputs
inputs = record {
  candidate_id = "C1";
  implementation_sha = "0123456789abcdef0123456789abcdef01234567";
  canonical_input_digests = ("spy", "d1") ∷ [];
  calculation_versions = frozen_versions;
  test_suite_ref = "suite";
  tests_passed = true;
  phase_a_complete = true;
  robustness_passed = true;
  independent_recompute_passed = true;
  robustness_result_digest = "0123456789abcdef0123456789abcdef0123456789abcdef0123456789abcdef";
  unresolved_limitations = [];
  frozen_at = aware 5;
}

accepted : validate_inputs inputs ≡ ok inputs
unfolding validate_inputs fields_valid unchanged get
accepted = refl
