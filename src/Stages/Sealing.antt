-- ===== src/Stages/Sealing.antt =====
-- What src/investment_tracker/quant/validation/access.py keeps apart.
use investment_tracker.Prelude.{ℕ, ◌≤◌, String, ◌≡◌, ◌↔◌, some, arith, ok, Result-cases, inl, inr}
use investment_tracker.Governance.{assert_symbol_allowed}
use investment_tracker.Stages.{
  DataStage, train, validation, final_holdout, SplitDefinition, validate_split, stage_for, load,
}

-- The day lies in the stage's period.
abbrev pub InPeriod : SplitDefinition → DataStage → ℕ → Type 0
InPeriod s train day = (s.train_start ≤ day) × (day ≤ s.train_end)
InPeriod s validation day = (s.validation_start ≤ day) × (day ≤ s.validation_end)
InPeriod s final_holdout day = (s.final_holdout_start ≤ day) × (day ≤ s.final_holdout_end)

-- Under a split that was accepted, a day has a stage exactly when it lies in that stage's period, so
-- no day belongs to two stages.
stage_for_iff :
    (digest_of : SplitDefinition → String) (s : SplitDefinition) (stage : DataStage) (day : ℕ)
    → validate_split digest_of s ≡ ok tt
    → (stage_for s day ≡ some stage) ↔ InPeriod s stage day
unfolding validate_split stage_for
stage_for_iff digest_of s train day h = (λ e. ground arith, λ e. ground arith)
stage_for_iff digest_of s validation day h = (λ e. ground arith, λ e. ground arith)
stage_for_iff digest_of s final_holdout day h = (λ e. ground arith, λ e. ground arith)

-- What the research view returns does not depend on the final holdout: two stores that agree on the
-- other stages give the same answer to every request.
pub load-sealed :
    {D : Type 0} (strip_upper : String → String) (a b : String → DataStage → D) (symbol : String)
    (stage : DataStage)
    → ((name : String) → a name train ≡ b name train)
    → ((name : String) → a name validation ≡ b name validation)
    → load strip_upper a symbol stage ≡ load strip_upper b symbol stage
unfolding load
load-sealed strip_upper a b symbol stage trains validates =
    elim (Result-cases (assert_symbol_allowed strip_upper symbol)) [
      | inl (e, bad) ↦ ground arith
      | inr (name, good) ↦ ground (arith, trains name, validates name)
    ]
