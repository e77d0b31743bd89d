-- ===== src/Backtest/Protocol/Examples.antt =====
-- The theorems on the preregistration of src/investment_tracker/backtest_v1.py at a concrete protocol.
use investment_tracker.Prelude.{
  ℕ, zero, suc, String, ◌≡◌, ◌↔◌, refl, true, List, [], ◌∷◌, All, ok, some,
}
use investment_tracker.Timestamp.{aware}
use investment_tracker.Selector.{index_from, is_increasing}
use investment_tracker.Backtest.{ValidationFold, FrozenBacktestProtocol, QualificationAttempt}
use investment_tracker.Backtest.Protocol.{
  ProtocolPayload, freeze_backtest_protocol, verify_protocol_digest,
  assert_qualification_dataset_unused, validate_protocol_calendar, validate_fold_sessions,
}
use investment_tracker.Backtest.Protocol.Frozen.{
  Sound, freeze_backtest_protocol-verifies, freeze_backtest_protocol-Sound,
}
use investment_tracker.Backtest.Protocol.Reuse.{Recomputes, assert_qualification_dataset_unused_iff}
use investment_tracker.Backtest.Protocol.Embargo.{Embargoed, freeze_backtest_protocol-Embargoed}
use investment_tracker.Governance.{assert_symbol_allowed}

abbrev plain : String → String
plain s = s

abbrev digest_of : ProtocolPayload → String
digest_of p = p.strategy_version

abbrev fold : String → ℕ → ℕ → ValidationFold
fold name from to = record { fold_id = name; start_date = from; end_date = to }

abbrev payload : ProtocolPayload
payload = record {
  candidate_id = "dip";
  qualification_dataset_id = "2024";
  panel = "CIBR" ∷ "SMH" ∷ [];
  benchmark = "SPY";
  research_end_date = 100;
  folds = fold "one" 121 122 ∷ fold "two" 123 124 ∷ fold "three" 125 126 ∷ [];
  preregistered_at = aware 5;
  history_accessed_at = aware 6;
  strategy_version = "v1";
  calculation_version = "v1";
  robustness_version = "v1";
}

abbrev protocol : FrozenBacktestProtocol
protocol = record {
  candidate_id = "dip";
  qualification_dataset_id = "2024";
  panel = "CIBR" ∷ "SMH" ∷ [];
  benchmark = "SPY";
  research_end_date = 100;
  folds = fold "one" 121 122 ∷ fold "two" 123 124 ∷ fold "three" 125 126 ∷ [];
  preregistered_at = aware 5;
  history_accessed_at = aware 6;
  strategy_version = "v1";
  calculation_version = "v1";
  robustness_version = "v1";
  protocol_digest = "v1";
}

freezes : freeze_backtest_protocol plain digest_of payload ≡ ok protocol
unfolding freeze_backtest_protocol assert_symbol_allowed
freezes = refl

freeze_backtest_protocol-verifies_example : verify_protocol_digest digest_of protocol ≡ true
freeze_backtest_protocol-verifies_example =
    freeze_backtest_protocol-verifies plain digest_of payload freezes

freeze_backtest_protocol-Sound_example : Sound protocol
freeze_backtest_protocol-Sound_example =
    freeze_backtest_protocol-Sound plain digest_of payload freezes

abbrev attempts : List QualificationAttempt
attempts =
    record {
      candidate_id = "dip";
      qualification_dataset_id = "2024";
      protocol_digest = "v1";
      first_accessed_at = aware 7;
      purpose = "QUALIFICATION";
    }
    ∷ []

assert_qualification_dataset_unused_iff_example :
    (assert_qualification_dataset_unused protocol attempts ≡ ok tt)
    ↔ All (Recomputes protocol) attempts
assert_qualification_dataset_unused_iff_example =
    assert_qualification_dataset_unused_iff protocol attempts

-- So many days in a row.
abbrev days : ℕ → ℕ → List ℕ
days from zero = []
days from (suc n) = from ∷ days (suc from) n

accepts : validate_protocol_calendar protocol (days 100 30) ≡ ok tt
unfolding validate_protocol_calendar is_increasing validate_fold_sessions index_from
accepts = refl

freeze_backtest_protocol-Embargoed_example :
    (r : ℕ) × (index_from 0 (days 100 30) 100 ≡ some r)
    × All (Embargoed (days 100 30) r) protocol.folds
freeze_backtest_protocol-Embargoed_example =
    freeze_backtest_protocol-Embargoed plain digest_of payload (days 100 30) freezes accepts
