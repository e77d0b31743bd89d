-- ===== src/Promotion/Examples.antt =====
-- The theorems on src/investment_tracker/quant/promotion.py at a concrete experiment.
use investment_tracker.Prelude.{String, ◌≡◌, refl, true, none, some, [], ◌∷◌, ok}
use investment_tracker.Dict.{get, put, string_key}
use investment_tracker.Timestamp.{Timestamp, aware}
use investment_tracker.Governance.{assert_symbol_allowed}
use investment_tracker.Promotion.{
  PromotionGate, ResearchCandidateManifest, ExperimentRecord, ValidatedSnapshot, Registry,
  names_failed, failures, create, symbols_allowed, add, promote_candidate,
}
use investment_tracker.Promotion.Registry.{
  Passed, promote_candidate-Passed, promote_all, promote_all-keeps,
}

abbrev gate : PromotionGate
gate = record {
  research_passed = true;
  validation_passed = true;
  walk_forward_passed = true;
  robustness_passed = true;
  benchmark_passed = true;
  tests_passed = true;
}

abbrev experiment : ExperimentRecord Unit
experiment = record {
  experiment_id = "E1";
  candidate_manifest = record { data_manifest_hashes = ("CIBR", "h") ∷ []; other_fields = tt };
  accepted = true;
  recorded_at = aware 5;
}

abbrev same : String → String
same s = s

abbrev by_experiment : String → ResearchCandidateManifest Unit → PromotionGate → Timestamp → String
by_experiment id manifest g at = id

abbrev snapshot : ValidatedSnapshot Unit
snapshot = record {
  source_experiment_id = "E1";
  candidate_manifest = experiment.candidate_manifest;
  promotion_gate = gate;
  created_at = aware 5;
  digest = "E1";
}

abbrev nothing : Registry Unit
nothing = []

abbrev one_stored : Registry Unit
one_stored = ("E1", snapshot) ∷ []

promoted : promote_candidate same by_experiment experiment gate nothing ≡ (ok snapshot, one_stored)
unfolding promote_candidate create add failures names_failed symbols_allowed assert_symbol_allowed
    put get
promoted = refl

promote_candidate-Passed_example :
    Passed gate
    × (experiment.accepted ≡ true)
    × (get nothing "E1" ≡ none)
    × (get one_stored "E1" ≡ some snapshot)
promote_candidate-Passed_example =
    promote_candidate-Passed same by_experiment experiment gate nothing promoted

stored : get one_stored "E1" ≡ some snapshot
unfolding get
stored = refl

promote_all-keeps_example :
    get
      (promote_all same by_experiment ((experiment, gate) ∷ (experiment, gate) ∷ []) one_stored)
      "E1"
    ≡ some snapshot
promote_all-keeps_example =
    promote_all-keeps same by_experiment ((experiment, gate) ∷ (experiment, gate) ∷ []) one_stored
      "E1" stored
