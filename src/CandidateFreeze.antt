-- ===== src/CandidateFreeze.antt =====
-- src/investment_tracker/candidate_freeze.py. The digest of the inputs' JSON is a parameter; the
-- inputs' own types keep a timestamp and the lists as they are.
pub mod Gate
mod Examples
use investment_tracker.Prelude.{
  ℕ, String, Bool, true, false, not, ◌&&◌, ◌||◌, Option, none, some, List, [], ◌∷◌, ◌==◌,
  if◌then◌else◌, str_eq, is_digest, all_hex, count_chars, Result, ok, err, ◌≡◌,
}
use investment_tracker.Dict.{Dict}
use investment_tracker.Timestamp.{Timestamp}
use investment_tracker.Snapshot.{same_dict}

pub data FreezeError : Type 0 where
  value_error freeze_blocked : FreezeError

pub record CandidateFreezeInputs : Type 0 where
  pub candidate_id : String
  pub implementation_sha : String
  pub canonical_input_digests : Dict String String
  pub calculation_versions : Dict String String
  pub test_suite_ref : String
  pub tests_passed : Bool
  pub phase_a_complete : Bool
  pub robustness_passed : Bool
  pub independent_recompute_passed : Bool
  pub robustness_result_digest : String
  pub unresolved_limitations : List String
  pub frozen_at : Timestamp

pub record CandidateFreezeRecord : Type 0 where
  pub candidate_id : String
  pub implementation_sha : String
  pub canonical_input_digests : Dict String String
  pub calculation_versions : Dict String String
  pub test_suite_ref : String
  pub robustness_result_digest : String
  pub unresolved_limitations : List String
  pub frozen_at : Timestamp
  pub candidate_output_digest : String
  pub status : String

-- `FROZEN_VERSIONS.as_dict()`
abbrev pub frozen_versions : Dict String String
frozen_versions =
    ("tpc", "TPC-v1.2")
    ∷ ("replay", "REPLAY-v1.0")
    ∷ ("calc", "CALC-v1.2")
    ∷ ("robust", "ROBUST-v1.0")
    ∷ []

-- `not d`
abbrev pub is_empty_dict : Dict String String → Bool
is_empty_dict [] = true
is_empty_dict (item ∷ items) = false

-- The fields' own bounds: two texts that are not empty, a commit and a digest in hexadecimal.
unfoldable pub fields_valid : CandidateFreezeInputs → Bool
unfolding all_hex count_chars is_digest
fields_valid inputs =
    not (str_eq inputs.candidate_id "")
    && count_chars inputs.implementation_sha == 40
    && all_hex inputs.implementation_sha
    && not (str_eq inputs.test_suite_ref "")
    && is_digest inputs.robustness_result_digest

-- The construction of the inputs: the fields, then `validate_versions_and_digests`.
unfoldable pub validate_inputs : CandidateFreezeInputs → Result FreezeError CandidateFreezeInputs
validate_inputs inputs =
    if not (fields_valid inputs)
    then err value_error
    else if not (same_dict (some inputs.calculation_versions) (some frozen_versions))
    then err value_error
    else if is_empty_dict inputs.canonical_input_digests
    then err value_error
    else ok inputs

-- `name for name in (...) if not getattr(inputs, name)`
unfoldable pub failed_names : List (String × Bool) → List String
failed_names [] = []
failed_names ((name, passed) ∷ rest) =
    if passed then failed_names rest else name ∷ failed_names rest

abbrev pub freeze_gates : CandidateFreezeInputs → List (String × Bool)
freeze_gates inputs =
    ("tests_passed", inputs.tests_passed)
    ∷ ("phase_a_complete", inputs.phase_a_complete)
    ∷ ("robustness_passed", inputs.robustness_passed)
    ∷ ("independent_recompute_passed", inputs.independent_recompute_passed)
    ∷ []

module _ (digest : CandidateFreezeInputs → String) where
  abbrev pub frozen_record : CandidateFreezeInputs → CandidateFreezeRecord
  frozen_record inputs = record {
    candidate_id = inputs.candidate_id;
    implementation_sha = inputs.implementation_sha;
    canonical_input_digests = inputs.canonical_input_digests;
    calculation_versions = inputs.calculation_versions;
    test_suite_ref = inputs.test_suite_ref;
    robustness_result_digest = inputs.robustness_result_digest;
    unresolved_limitations = inputs.unresolved_limitations;
    frozen_at = inputs.frozen_at;
    candidate_output_digest = digest inputs;
    status = "FROZEN_CANDIDATE_NOT_PRODUCTION_APPROVED";
  }

  unfoldable pub freeze_candidate : CandidateFreezeInputs → Result FreezeError CandidateFreezeRecord
  unfolding failed_names
  freeze_candidate inputs = elim (failed_names (freeze_gates inputs)) [
    | [] ↦ ok (frozen_record inputs)
    | name ∷ names ↦ err freeze_blocked
  ]
