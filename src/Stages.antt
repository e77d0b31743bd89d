-- ===== src/Stages.antt =====
-- src/investment_tracker/quant/validation/access.py: the periods of a split, and the view that seals
-- the final holdout. Dates are numbers of days; the digest of a split's JSON, the data store and a
-- text's `strip` with `upper` are parameters.
pub mod Sealing
mod Examples
use investment_tracker.Prelude.{
  ℕ, String, Bool, true, false, not, ◌&&◌, Option, none, some, if◌then◌else◌, leb, ltb, str_eq,
  Result, ok, err,
}
use investment_tracker.Governance.{assert_symbol_allowed}

pub data DataStage : Type 0 where
  train validation final_holdout : DataStage

pub data ViewError : Type 0 where
  symbol_refused holdout_access_error value_error : ViewError

pub record SplitDefinition : Type 0 where
  pub version : String
  pub train_start : ℕ
  pub train_end : ℕ
  pub validation_start : ℕ
  pub validation_end : ℕ
  pub final_holdout_start : ℕ
  pub final_holdout_end : ℕ
  pub digest : String

-- `validate_periods_and_digest`, which every split that is constructed has passed.
unfoldable pub validate_split : (SplitDefinition → String) → SplitDefinition → Result ViewError Unit
validate_split digest_of s =
    if not (
      leb s.train_start s.train_end
      && ltb s.train_end s.validation_start
      && leb s.validation_start s.validation_end
      && ltb s.validation_end s.final_holdout_start
      && leb s.final_holdout_start s.final_holdout_end)
    then err value_error
    else if not (str_eq s.digest (digest_of s))
    then err value_error
    else ok tt

unfoldable pub stage_for : SplitDefinition → ℕ → Option DataStage
stage_for s value =
    if leb s.train_start value && leb value s.train_end
    then some train
    else if leb s.validation_start value && leb value s.validation_end
    then some validation
    else if leb s.final_holdout_start value && leb value s.final_holdout_end
    then some final_holdout
    else none

-- `stage not in (TRAIN, VALIDATION)`; the two enumerations compare by their strings.
abbrev pub is_sealed : DataStage → Bool
is_sealed final_holdout = true
is_sealed _ = false

-- `ResearchDataView.load`, over what the store's `load` gives.
unfoldable pub load :
    {D : Type 0}
    → (String → String)
    → (String → DataStage → D)
    → String
    → DataStage
    → Result ViewError D
load strip_upper store symbol stage = elim (assert_symbol_allowed strip_upper symbol) [
  | err e ↦ err symbol_refused
  | ok normalized ↦
      if is_sealed stage then err holdout_access_error else ok (store normalized stage)
]
