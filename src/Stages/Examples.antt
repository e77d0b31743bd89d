-- ===== src/Stages/Examples.antt =====
-- The theorems on src/investment_tracker/quant/validation/access.py at a concrete split and stores.
use investment_tracker.Prelude.{ℕ, String, ◌≡◌, refl, ok}
use investment_tracker.Stages.{
  DataStage, train, validation, final_holdout, SplitDefinition, validate_split, load,
}
use investment_tracker.Stages.Sealing.{load-sealed}

abbrev split : SplitDefinition
split = record {
  version = "v1";
  train_start = 1;
  train_end = 10;
  validation_start = 11;
  validation_end = 20;
  final_holdout_start = 21;
  final_holdout_end = 30;
  digest = "v1";
}

accepted : validate_split (λ s. s.version) split ≡ ok tt
unfolding validate_split
accepted = refl

-- Two stores that differ in the final holdout alone.
abbrev store : ℕ → String → DataStage → ℕ
store sealed name train = 1
store sealed name validation = 2
store sealed name final_holdout = sealed

load-sealed_example :
    load (λ s. s) (store 3) "CIBR" final_holdout ≡ load (λ s. s) (store 4) "CIBR" final_holdout
load-sealed_example =
    load-sealed (λ s. s) (store 3) (store 4) "CIBR" final_holdout (λ name. refl) (λ name. refl)
