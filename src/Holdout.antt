-- ===== src/Holdout.antt =====
-- The single use of the final holdout in src/investment_tracker/quant/validation/holdout.py. The state
-- is the audit directories by their paths, each with the candidates that have a started file and a
-- result file, and a log of the symbols whose holdout data was asked for. The store and the evaluator
-- are parameters that a call brings. Writing a file is taken to succeed unless the file is there.
pub mod SingleUse
mod Examples
use investment_tracker.Prelude.{
  String, Bool, true, false, not, ◌&&◌, Option, none, some, List, [], ◌∷◌, any, if◌then◌else◌,
  str_eq, is_digest, Result, ok, err, Exec, raise_if, raise, pure, gets, modify, ◌>>=◌, ◌>>◌, lift,
  or_raise, and_then,
}
use investment_tracker.Dict.{Dict, get, put, string_key}
use investment_tracker.Timestamp.{Timestamp, is_aware}
use investment_tracker.Governance.{assert_symbol_allowed}

pub data HoldoutError : Type 0 where
  symbol_refused holdout_reuse evaluation_raised value_error file_exists : HoldoutError

-- A metric: a float that is not finite, or any other value.
pub data Metric : Type 0 where
  not_finite : Metric
  usable : String → Metric

-- The manifest's fields that the evaluation and its own validator read.
pub record FrozenCandidateManifest : Type 0 where
  pub strategy_parameters : Dict String String
  pub data_manifest_hashes : Dict String String
  pub frozen_at : Timestamp
  pub digest : String

pub record HoldoutEvaluationResult : Type 0 where
  pub candidate_digest : String
  pub status : String
  pub metrics : Dict String Metric

pub record Audit : Type 0 where
  pub started : Dict String Unit
  pub results : Dict String HoldoutEvaluationResult

-- The disk: the audit directories, and each `load` of the final holdout, the last one first.
pub record Disk : Type 0 where
  pub audits : Dict String Audit
  pub loaded : List String

abbrev pub Action : Type 0 → Type 0
Action A = Exec Disk HoldoutError A

-- A SealedHoldoutEvaluator: `load` of its store at the stage FINAL_HOLDOUT, and its evaluator; `none`
-- is an exception.
pub record Sealed (Data : Type 0) : Type 0 where
  pub load : String → Option Data
  pub run : FrozenCandidateManifest → Dict String Data → Option (Dict String Metric)

-- A directory that is not there is made, and is empty.
abbrev pub audit_at : String → Disk → Audit
audit_at directory disk = elim (get disk.audits directory) [
  | none ↦ record { started = []; results = [] }
  | some a ↦ a
]

-- The directory after `change`.
unfoldable pub update : String → (Audit → Audit) → Disk → Disk
update directory change disk = record disk {
  audits = put disk.audits directory (change (audit_at directory disk));
}

abbrev pub is_missing : {A : Type 0} → Option A → Bool
is_missing none = true
is_missing (some a) = false

abbrev pub is_not_finite : Metric → Bool
is_not_finite not_finite = true
is_not_finite (usable v) = false

abbrev pub is_empty_dict : Dict String String → Bool
is_empty_dict [] = true
is_empty_dict (item ∷ items) = false

module _ (strip_upper : String → String) where
  -- The names of the data manifests' keys, if all of them pass the symbol check.
  unfoldable pub allowed_symbols : Dict String String → Result HoldoutError (List String)
  allowed_symbols [] = ok []
  allowed_symbols ((symbol, hash) ∷ rest) = elim (assert_symbol_allowed strip_upper symbol) [
    | err e ↦ err symbol_refused
    | ok name ↦ and_then (allowed_symbols rest) λ names. ok (name ∷ names)
  ]

  -- The manifest's validator loops over items: a symbol that is allowed and a hash of 64 digits.
  unfoldable pub hashes_valid : Dict String String → Bool
  hashes_valid [] = true
  hashes_valid ((symbol, hash) ∷ rest) = elim (assert_symbol_allowed strip_upper symbol) [
    | err e ↦ false
    | ok name ↦ is_digest hash && hashes_valid rest
  ]

  -- `validate_complete_identity`; the digest of the other fields' JSON is a parameter.
  unfoldable pub validate_identity :
      (FrozenCandidateManifest → String) → FrozenCandidateManifest → Result HoldoutError Unit
  unfolding hashes_valid
  validate_identity digest_of c =
      if not (is_aware c.frozen_at)
      then err value_error
      else if not
          (not (is_empty_dict c.strategy_parameters) && not (is_empty_dict c.data_manifest_hashes))
      then err value_error
      else if not (hashes_valid c.data_manifest_hashes)
      then err value_error
      else if not (str_eq c.digest (digest_of c))
      then err value_error
      else ok tt

  -- `{symbol: self._store.load(symbol, ...) for symbol in symbols}`, onto the data so far.
  unfoldable pub load_all :
      {Data : Type 0} → Sealed Data → List String → Dict String Data → Action (Dict String Data)
  load_all sealed [] by_symbol = pure by_symbol
  load_all sealed (symbol ∷ symbols) by_symbol = do
    modify (λ (d : Disk). record d { loaded = symbol ∷ d.loaded })
    found ← lift (or_raise evaluation_raised (sealed.load symbol))
    load_all sealed symbols (put by_symbol symbol found)

  -- The end of `evaluate`, on the metrics.
  unfoldable pub record_result :
      FrozenCandidateManifest → String → Dict String Metric → Action HoldoutEvaluationResult
  unfolding update
  record_result candidate directory metrics = do
    raise_if (any (λ (item : String × Metric). is_not_finite item.1) metrics) value_error
    earlier ← gets (λ d. get (audit_at directory d).results candidate.digest)
    raise_if (not (is_missing earlier)) file_exists
    let result : HoldoutEvaluationResult = record {
      candidate_digest = candidate.digest;
      status = "FROZEN_CANDIDATE_NOT_PRODUCTION_APPROVED";
      metrics = metrics;
    } in
        do
          modify
              (update directory λ a. record a { results = put a.results candidate.digest result })
          pure result

  -- The started file is made; it must not be there.
  unfoldable pub start : FrozenCandidateManifest → String → Action (Unit {0})
  unfolding update
  start candidate directory = do
    started ← gets (λ d. get (audit_at directory d).started candidate.digest)
    raise_if (not (is_missing started)) holdout_reuse
    modify (update directory λ a. record a { started = put a.started candidate.digest tt })

  -- What `evaluate` does once the start is recorded.
  unfoldable pub finish :
      {Data : Type 0}
      → Sealed Data
      → FrozenCandidateManifest
      → String
      → List String
      → Action HoldoutEvaluationResult
  unfolding load_all record_result
  finish sealed candidate directory symbols = do
    data_by_symbol ← load_all sealed symbols []
    metrics ← lift (or_raise evaluation_raised (sealed.run candidate data_by_symbol))
    record_result candidate directory metrics

  unfoldable pub evaluate :
      {Data : Type 0}
      → Sealed Data
      → FrozenCandidateManifest
      → String
      → Action HoldoutEvaluationResult
  unfolding allowed_symbols start finish
  evaluate sealed candidate directory = do
    symbols ← lift (allowed_symbols candidate.data_manifest_hashes)
    start candidate directory
    finish sealed candidate directory symbols
