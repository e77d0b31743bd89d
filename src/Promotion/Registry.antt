-- ===== src/Promotion/Registry.antt =====
-- The registry of src/investment_tracker/quant/promotion.py over sequences of promotions.
use investment_tracker.Prelude.{
  String, ◌≡◌, true, none, some, List, [], ◌∷◌, ◌++◌, arith, eq_iff, ok, if◌then◌else◌,
}
use investment_tracker.Dict.{get, get-put, get-put_self, string_key}
use investment_tracker.Timestamp.{Timestamp}
use investment_tracker.Promotion.{
  PromotionGate, ResearchCandidateManifest, ExperimentRecord, ValidatedSnapshot, Registry, failures,
  names_failed, is_none_failed, create, add, promote_candidate,
}

-- All six gates passed.
pub record Passed (gate : PromotionGate) : Type 0 where
  pub research : gate.research_passed ≡ true
  pub validation : gate.validation_passed ≡ true
  pub walk_forward : gate.walk_forward_passed ≡ true
  pub robustness : gate.robustness_passed ≡ true
  pub benchmark : gate.benchmark_passed ≡ true
  pub tests : gate.tests_passed ≡ true

-- The condition under which a promotion goes on.
no_failures-Passed :
    {M : Type 0} (e : ExperimentRecord M) (gate : PromotionGate)
    → is_none_failed (failures gate ++ (if e.accepted then [] else "experiment_accepted" ∷ []))
      ≡ true
    → Passed gate × (e.accepted ≡ true)
unfolding failures names_failed
no_failures-Passed e gate h = ground arith

module _ {M : Type 0} (strip_upper : String → String)
    (digest_of : String → ResearchCandidateManifest M → PromotionGate → Timestamp → String) where
  -- A promotion that returns was of an accepted experiment with all six gates passed, under a digest
  -- that was free, and the registry answers that digest with the snapshot.
  pub promote_candidate-Passed :
      (e : ExperimentRecord M) (gate : PromotionGate) (r : Registry M)
      {snapshot : ValidatedSnapshot M} {r' : Registry M}
      → promote_candidate strip_upper digest_of e gate r ≡ (ok snapshot, r')
      → Passed gate
        × (e.accepted ≡ true)
        × (get r snapshot.digest ≡ none)
        × (get r' snapshot.digest ≡ some snapshot)
  unfolding promote_candidate create add
  promote_candidate-Passed e gate r {snapshot} {r'} h =
      let d = digest_of e.experiment_id e.candidate_manifest gate e.recorded_at in
      let new : ValidatedSnapshot M = record {
        source_experiment_id = e.experiment_id;
        candidate_manifest = e.candidate_manifest;
        promotion_gate = gate;
        created_at = e.recorded_at;
        digest = d;
      } in
      let (passed, accepted) = no_failures-Passed e gate (ground arith) in
      (passed, accepted, ground arith, ground (arith, get-put_self r d new))

  promote_candidate-keeps :
      (e : ExperimentRecord M) (gate : PromotionGate) (r : Registry M) (digest : String)
      {old : ValidatedSnapshot M}
      → get r digest ≡ some old
      → get (promote_candidate strip_upper digest_of e gate r).1 digest ≡ some old
  unfolding promote_candidate create add
  promote_candidate-keeps e gate r digest known =
      let d = digest_of e.experiment_id e.candidate_manifest gate e.recorded_at in
      ground (
        arith,
        get-put r d digest (record {
          source_experiment_id = e.experiment_id;
          candidate_manifest = e.candidate_manifest;
          promotion_gate = gate;
          created_at = e.recorded_at;
          digest = d;
        }),
        eq_iff d digest,
      )

  unfoldable pub promote_all : List (ExperimentRecord M × PromotionGate) → Registry M → Registry M
  promote_all [] r = r
  promote_all ((e, gate) ∷ calls) r =
      promote_all calls (promote_candidate strip_upper digest_of e gate r).1

  -- The registry is additive: no further promotions, whether they return or raise, change or lose a
  -- snapshot that it holds.
  pub promote_all-keeps :
      (calls : List (ExperimentRecord M × PromotionGate)) (r : Registry M) (digest : String)
      {old : ValidatedSnapshot M}
      → get r digest ≡ some old
      → get (promote_all calls r) digest ≡ some old
  unfolding promote_all
  promote_all-keeps [] r digest known = known
  promote_all-keeps ((e, gate) ∷ calls) r digest known =
      promote_all-keeps calls (promote_candidate strip_upper digest_of e gate r).1 digest
        (promote_candidate-keeps e gate r digest known)
