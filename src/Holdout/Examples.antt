-- ===== src/Holdout/Examples.antt =====
-- The theorem on src/investment_tracker/quant/validation/holdout.py at a concrete candidate, and tests.
use investment_tracker.Prelude.{◌≡◌, refl, none, some, String, [], ◌∷◌, ok, err}
use investment_tracker.Timestamp.{aware}
use investment_tracker.Dict.{get, put}
use investment_tracker.Governance.{assert_symbol_allowed}
use investment_tracker.Holdout.{
  FrozenCandidateManifest, Disk, Sealed, usable, allowed_symbols, evaluate, update, load_all,
  record_result, holdout_reuse, evaluation_raised,
}
use investment_tracker.Holdout.SingleUse.{evaluate_all, evaluate-once}

abbrev candidate : FrozenCandidateManifest
candidate = record {
  strategy_parameters = ("window", "20") ∷ [];
  data_manifest_hashes = ("CIBR", "h") ∷ [];
  frozen_at = aware 5;
  digest = "d1";
}

abbrev fresh : Disk
fresh = record { audits = []; loaded = [] }

-- The data of a symbol is its name; this evaluator raises, and the next one does not.
abbrev broken : Sealed String
broken = record { load = λ symbol. some symbol; run = λ candidate by_symbol. none }

abbrev sound : Sealed String
sound = record {
  load = λ symbol. some symbol;
  run = λ candidate by_symbol. some (("sharpe", usable "1.0") ∷ []);
}

abbrev plain : String → String
plain s = s

allowed : allowed_symbols plain candidate.data_manifest_hashes ≡ ok ("CIBR" ∷ [])
unfolding allowed_symbols assert_symbol_allowed
allowed = refl

-- The evaluator raises after the data was loaded, with the start recorded.
raises : evaluate plain broken candidate "audit" fresh ≡ (
  err evaluation_raised,
  record {
    audits = ("audit", record { started = ("d1", tt) ∷ []; results = [] }) ∷ [];
    loaded = "CIBR" ∷ [];
  },
)
unfolding evaluate assert_symbol_allowed get put update load_all record_result
raises = refl

evaluate-once_example :
    let later =
      evaluate_all plain
        (record { sealed = sound; candidate = candidate; directory = "elsewhere" } ∷ [])
        (evaluate plain broken candidate "audit" fresh).1 in
    evaluate plain sound candidate "audit" later ≡ (err holdout_reuse, later)
evaluate-once_example =
    evaluate-once plain broken sound candidate "audit" fresh
      (record { sealed = sound; candidate = candidate; directory = "elsewhere" } ∷ []) allowed
