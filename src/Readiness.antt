-- ===== src/Readiness.antt =====
-- src/investment_tracker/readiness.py: the readiness score and its caps.
pub mod Caps
mod Examples
use investment_tracker.Prelude.{
  ℕ, ◌+◌, String, Bool, true, false, Option, none, some, List, [], ◌∷◌, ◌++◌, min, if◌then◌else◌,
  ◌==◌,
}

pub record ReadinessEvidence : Type 0 where
  pub phase_a : ℕ
  pub robustness : ℕ
  pub phase_b : ℕ
  pub prospective : ℕ
  pub portfolio_risk : ℕ
  pub reconciliation : ℕ
  pub operations : ℕ
  pub governance : ℕ
  pub phase_a_complete : Bool
  pub robustness_passed : Bool
  pub phase_b_passed : Bool
  pub prospective_gate_met : Bool
  pub critical_controls_clear : Bool
  pub independent_audit_approved : Bool

pub record ReadinessResult : Type 0 where
  pub raw_score : ℕ
  pub capped_score : ℕ
  pub applied_cap : Option ℕ
  pub label : String
  pub hard_gate_failures : List String

-- `sum(evidence.model_dump()[key] for key in WEIGHTS)`
raw_sum : ReadinessEvidence → ℕ
raw_sum e =
    e.phase_a + e.robustness + e.phase_b + e.prospective + e.portfolio_risk + e.reconciliation
    + e.operations + e.governance

-- The gates in the order of the loop: a field's name, its value and its cap.
gates : ReadinessEvidence → List (String × Bool × ℕ)
gates e =
    ("phase_a_complete", e.phase_a_complete, 69)
    ∷ ("robustness_passed", e.robustness_passed, 74)
    ∷ ("phase_b_passed", e.phase_b_passed, 79)
    ∷ ("prospective_gate_met", e.prospective_gate_met, 84)
    ∷ ("critical_controls_clear", e.critical_controls_clear, 84)
    ∷ []

-- The loop, on `caps` and `failures`.
check_gates : List (String × Bool × ℕ) → List ℕ × List String → List ℕ × List String
check_gates [] found = found
check_gates ((field, passed, cap) ∷ rest) (caps, failures) =
    check_gates rest
      (if passed then (caps, failures) else (caps ++ cap ∷ [], failures ++ field ∷ []))

-- `min(caps)` of a list with a first element.
minimum : ℕ → List ℕ → ℕ
minimum m [] = m
minimum m (x ∷ xs) = minimum (min m x) xs

-- `min(caps) if caps else None`
min_cap : List ℕ → Option ℕ
unfolding minimum
min_cap [] = none
min_cap (x ∷ xs) = some (minimum x xs)

-- `min(raw, cap) if cap else raw`, where a cap of 0 counts as none
apply_cap : ℕ → Option ℕ → ℕ
apply_cap raw none = raw
apply_cap raw (some cap) = if cap == 0 then raw else min raw cap

pub score_readiness : ReadinessEvidence → ReadinessResult
unfolding raw_sum gates check_gates min_cap apply_cap
score_readiness e =
    let raw = raw_sum e in
    let (caps, failures) = check_gates (gates e) ([], []) in
    let all_failures =
      if e.independent_audit_approved
      then failures
      else failures ++ "independent_audit_approved" ∷ [] in
    let cap = min_cap caps in
    record {
      raw_score = raw;
      capped_score = apply_cap raw cap;
      applied_cap = cap;
      label = "NON_OFFICIAL_ENGINEERING_EVIDENCE_SCORE";
      hard_gate_failures = all_failures;
    }
