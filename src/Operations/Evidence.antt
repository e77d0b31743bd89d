-- ===== src/Operations/Evidence.antt =====
-- The readback and the reconciliation report of src/investment_tracker/operations.py.
use investment_tracker.Prelude.{
  String, ◌≡◌, ◌≢◌, ◌↔◌, Bool, true, false, Option, none, some, List, [], ◌∷◌, if◌then◌else◌,
  str_eq, eq_iff, Result, ok, err, arith,
}

pub data RecoveryError : Type 0 where
  value_error recovery_mismatch : RecoveryError

-- `verify_recovery_readback`; `none` is a readback that raises.
unfoldable pub verify_recovery_readback : String → Option String → Result RecoveryError Bool
verify_recovery_readback expected_digest readback =
    if str_eq expected_digest "" then err value_error else elim readback [
      | none ↦ err recovery_mismatch
      | some actual ↦ if str_eq actual expected_digest then ok true else err recovery_mismatch
    ]

-- A recovery is verified exactly when a digest was expected and the readback returned that digest.
verify_recovery_readback_iff :
    (expected_digest : String) (readback : Option String)
    → (verify_recovery_readback expected_digest readback ≡ ok true)
      ↔ ((expected_digest ≢ "") × (readback ≡ some expected_digest))
unfolding verify_recovery_readback
verify_recovery_readback_iff expected none =
    (λ h. ground (arith, eq_iff expected ""), λ h. ground arith)
verify_recovery_readback_iff expected (some actual) = (
  λ h. ground (arith, eq_iff expected "", eq_iff actual expected),
  λ h. ground (arith, eq_iff expected "", eq_iff actual expected),
)

pub record OperationalReconciliationEvidence : Type 0 where
  pub single_writer_runtime_proven : Bool
  pub post_write_readback_runtime_proven : Bool
  pub interrupted_write_recovery_runtime_proven : Bool
  pub alert_delivery_runtime_proven : Bool
  pub alert_acknowledgement_runtime_proven : Bool
  pub alert_failure_escalation_runtime_proven : Bool

pub record OperationalReconciliationReport : Type 0 where
  pub resolved : Bool
  pub status : String
  pub missing_evidence : List String

-- `name for name in required if not getattr(evidence, name)`
unfoldable pub names_unproven : List (String × Bool) → List String
names_unproven [] = []
names_unproven ((name, proven) ∷ rest) =
    if proven then names_unproven rest else name ∷ names_unproven rest

abbrev pub required : OperationalReconciliationEvidence → List (String × Bool)
required e =
    ("single_writer_runtime_proven", e.single_writer_runtime_proven)
    ∷ ("post_write_readback_runtime_proven", e.post_write_readback_runtime_proven)
    ∷ ("interrupted_write_recovery_runtime_proven", e.interrupted_write_recovery_runtime_proven)
    ∷ ("alert_delivery_runtime_proven", e.alert_delivery_runtime_proven)
    ∷ ("alert_acknowledgement_runtime_proven", e.alert_acknowledgement_runtime_proven)
    ∷ ("alert_failure_escalation_runtime_proven", e.alert_failure_escalation_runtime_proven)
    ∷ []

abbrev report : List String → OperationalReconciliationReport
report [] = record { resolved = true; status = "RECON-009_RESOLVED"; missing_evidence = [] }
report (name ∷ names) = record {
  resolved = false;
  status = "RECON-009_OPEN";
  missing_evidence = name ∷ names;
}

unfoldable pub evaluate_operational_reconciliation :
    OperationalReconciliationEvidence → OperationalReconciliationReport
unfolding names_unproven
evaluate_operational_reconciliation evidence = report (names_unproven (required evidence))

-- The gate is resolved exactly when all six observations were made at runtime.
evaluate_operational_reconciliation_iff :
    (e : OperationalReconciliationEvidence)
    → ((evaluate_operational_reconciliation e).resolved ≡ true) ↔ (
        (e.single_writer_runtime_proven ≡ true)
        × (e.post_write_readback_runtime_proven ≡ true)
        × (e.interrupted_write_recovery_runtime_proven ≡ true)
        × (e.alert_delivery_runtime_proven ≡ true)
        × (e.alert_acknowledgement_runtime_proven ≡ true)
        × (e.alert_failure_escalation_runtime_proven ≡ true))
unfolding evaluate_operational_reconciliation names_unproven
evaluate_operational_reconciliation_iff e = (λ h. ground arith, λ h. ground arith)
