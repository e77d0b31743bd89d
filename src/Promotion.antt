-- ===== src/Promotion.antt =====
-- The promotion of a candidate in src/investment_tracker/quant/promotion.py. The registry's state is
-- the snapshots by their digest; writing a directory that is not there is taken to succeed. The
-- digest of a snapshot's JSON, `strip` with `upper`, and the fields of a candidate's manifest that
-- promotion only copies are parameters.
pub mod Registry
mod Examples
use investment_tracker.Prelude.{
  String, Bool, true, false, not, Option, none, some, List, [], ◌∷◌, ◌++◌, if◌then◌else◌, str_eq,
  Result, ok, err, Exec, raise_if, raise, pure, gets, modify, lift, ◌>>=◌, ◌>>◌,
}
use investment_tracker.Dict.{Dict, get, put, string_key}
use investment_tracker.Timestamp.{Timestamp}
use investment_tracker.Governance.{assert_symbol_allowed}

pub data PromotionError : Type 0 where
  promotion_blocked symbol_refused artifact_exists value_error : PromotionError

pub record PromotionGate : Type 0 where
  pub research_passed : Bool
  pub validation_passed : Bool
  pub walk_forward_passed : Bool
  pub robustness_passed : Bool
  pub benchmark_passed : Bool
  pub tests_passed : Bool

-- `name for name, value in ... if not value`
unfoldable pub names_failed : List (String × Bool) → List String
names_failed [] = []
names_failed ((name, value) ∷ rest) = if value then names_failed rest else name ∷ names_failed rest

unfoldable pub failures : PromotionGate → List String
unfolding names_failed
failures gate = names_failed (
    ("research_passed", gate.research_passed)
    ∷ ("validation_passed", gate.validation_passed)
    ∷ ("walk_forward_passed", gate.walk_forward_passed)
    ∷ ("robustness_passed", gate.robustness_passed)
    ∷ ("benchmark_passed", gate.benchmark_passed)
    ∷ ("tests_passed", gate.tests_passed)
    ∷ [])

pub record ResearchCandidateManifest (M : Type 0) : Type 0 where
  pub data_manifest_hashes : Dict String String
  pub other_fields : M

pub record ExperimentRecord (M : Type 0) : Type 0 where
  pub experiment_id : String
  pub candidate_manifest : ResearchCandidateManifest M
  pub accepted : Bool
  pub recorded_at : Timestamp

pub record ValidatedSnapshot (M : Type 0) : Type 0 where
  pub source_experiment_id : String
  pub candidate_manifest : ResearchCandidateManifest M
  pub promotion_gate : PromotionGate
  pub created_at : Timestamp
  pub digest : String

abbrev pub Registry : Type 0 → Type 0
Registry M = Dict String (ValidatedSnapshot M)

abbrev pub is_present : {A : Type 0} → Option A → Bool
is_present none = false
is_present (some a) = true

-- `not failures`
abbrev pub is_none_failed : List String → Bool
is_none_failed [] = true
is_none_failed (name ∷ names) = false

module _ {M : Type 0} (strip_upper : String → String)
    (digest_of : String → ResearchCandidateManifest M → PromotionGate → Timestamp → String) where
  abbrev pub Action : Type 0 → Type 0
  Action A = Exec (Registry M) PromotionError A

  -- `create`, with the validator of what it builds: the digest is then the right one.
  unfoldable pub create :
      ExperimentRecord M → PromotionGate → Result PromotionError (ValidatedSnapshot M)
  create e gate =
      if is_none_failed (failures gate)
      then ok (record {
        source_experiment_id = e.experiment_id;
        candidate_manifest = e.candidate_manifest;
        promotion_gate = gate;
        created_at = e.recorded_at;
        digest = digest_of e.experiment_id e.candidate_manifest gate e.recorded_at;
      })
      else err value_error

  unfoldable pub symbols_allowed : Dict String String → Bool
  symbols_allowed [] = true
  symbols_allowed ((symbol, hash) ∷ rest) = elim (assert_symbol_allowed strip_upper symbol) [
    | err e ↦ false
    | ok name ↦ symbols_allowed rest
  ]

  -- `BaselineRegistry.add`
  unfoldable pub add : ValidatedSnapshot M → Action Unit
  unfolding symbols_allowed
  add snapshot = do
    raise_if (not (symbols_allowed snapshot.candidate_manifest.data_manifest_hashes)) symbol_refused
    earlier ← gets (λ r. get r snapshot.digest)
    raise_if (is_present earlier) artifact_exists
    modify (λ r. put r snapshot.digest snapshot)

  -- `failures`, with the experiment's own acceptance.
  abbrev pub all_failures : ExperimentRecord M → PromotionGate → List String
  all_failures e gate = failures gate ++ (if e.accepted then [] else "experiment_accepted" ∷ [])

  unfoldable pub promote_candidate :
      ExperimentRecord M → PromotionGate → Action (ValidatedSnapshot M)
  unfolding create add
  promote_candidate e gate = do
    raise_if (not (is_none_failed (all_failures e gate))) promotion_blocked
    snapshot ← lift (create e gate)
    add snapshot
    pure snapshot
