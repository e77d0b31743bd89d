-- ===== src/Governance/Examples.antt =====
-- Tests of src/investment_tracker/governance.py.
use investment_tracker.Prelude.{◌≡◌, err, refl}
use investment_tracker.Governance.{assert_symbol_allowed, locked_holdout_error}

locked : assert_symbol_allowed (λ s. s) "SOXX" ≡ err locked_holdout_error
unfolding assert_symbol_allowed
locked = refl
