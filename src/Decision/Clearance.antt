-- ===== src/Decision/Clearance.antt =====
-- When src/investment_tracker/decision.py recommends anything but to abstain, and what it then says.
use investment_tracker.Prelude.{
  Bool-cases, All, Option-cases, ℕ, ◌+◌, ◌≤◌, String, ◌≡◌, ◌≢◌, ◌↔◌, ◌⊎◌, inl, inr, Bool, true,
  false, Option, none, some, List, [], ◌∷◌, ◌++◌, arith, str_eq, eq_iff, refl,
}
use investment_tracker.Decision.{
  or_all_met, is_abstain, all_met, EvidenceHealth, PortfolioRiskPolicy, PortfolioSnapshot,
  DecisionRequest, abstain, high, unavailable, failures, failed_names, dump_evidence, assess,
  recommend, signal_recommendation, generate_decision, RecommendationState, ConfidenceLevel,
}

-- Every dimension of the evidence is met.
pub record AllMet (e : EvidenceHealth) : Type 0 where
  pub fresh : e.market_data_fresh ≡ true
  pub aligned : e.benchmark_aligned ≡ true
  pub no_dq : e.no_critical_dq ≡ true
  pub digests : e.canonical_digests_valid ≡ true
  pub snapshot : e.snapshot_current ≡ true
  pub versions : e.versions_match ≡ true
  pub tests : e.calculation_tests_pass ≡ true
  pub breadth : e.breadth_met ≡ true
  pub recalculated : e.independent_recalculation_agrees ≡ true
  pub phase_b : e.phase_b_passed ≡ true
  pub prospective : e.prospective_gate_met ≡ true
  pub operational : e.operational_healthy ≡ true

failures_iff : (e : EvidenceHealth) → (failures e ≡ []) ↔ AllMet e
unfolding failures
failures_iff e = (λ h. ground arith, λ h. ground arith)

-- The portfolio's value is known and lies on the right side of its limit.
abbrev pub AtMost : Option ℕ → ℕ → Type 0
AtMost none limit = ⊥
AtMost (some v) limit = v ≤ limit

abbrev pub AtLeast : Option ℕ → ℕ → Type 0
AtLeast none limit = ⊥
AtLeast (some v) limit = limit ≤ v

abbrev pub WithinPolicy : Option PortfolioRiskPolicy → Option PortfolioSnapshot → Type 0
WithinPolicy (some p) (some s) =
    AtMost s.asset_allocation p.max_single_position
    × AtMost s.theme_allocation p.max_theme_exposure
    × AtMost s.correlated_allocation p.max_correlated_exposure
    × AtMost s.aggregate_exposure p.max_aggregate_exposure
    × AtLeast s.cash_allocation p.minimum_cash_buffer
WithinPolicy _ _ = ⊥

assess_iff :
    (policy : Option PortfolioRiskPolicy) (portfolio : Option PortfolioSnapshot)
    → ((assess policy portfolio).added_failures ≡ []) ↔ WithinPolicy policy portfolio
unfolding assess
assess_iff (some p) (some s) = (λ h. ground arith, λ h. ground arith)
assess_iff _ _ = (λ h. cc, λ h. absurd h)

abbrev pub IsActionable : String → Type 0
IsActionable signal =
    (signal ≡ "ACCUMULATE") ⊎ ((signal ≡ "TRIM/AVOID") ⊎ ((signal ≡ "WATCH") ⊎ (signal ≡ "WAIT")))

signal_recommendation_iff :
    (signal : String) → (signal_recommendation signal ≢ abstain) ↔ IsActionable signal
unfolding signal_recommendation
signal_recommendation_iff signal = (
  λ h. ground (
    arith,
    eq_iff signal "ACCUMULATE",
    eq_iff signal "TRIM/AVOID",
    eq_iff signal "WATCH",
    eq_iff signal "WAIT",
  ),
  λ h. ground (
    arith,
    eq_iff signal "ACCUMULATE",
    eq_iff signal "TRIM/AVOID",
    eq_iff signal "WATCH",
    eq_iff signal "WAIT",
  ),
)

recommend_iff :
    (signal : String) (failed : List String)
    → ((recommend signal failed).0 ≢ abstain)
      ↔ ((failed ≡ []) × (signal_recommendation signal ≢ abstain))
unfolding recommend
recommend_iff signal [] = (λ h. ground arith, λ h. ground arith)
recommend_iff signal (x ∷ xs) = (λ h. absurd (h refl), λ h. cc)

append_nil_iff : (xs ys : List String) → (xs ++ ys ≡ []) ↔ ((xs ≡ []) × (ys ≡ []))
append_nil_iff [] ys = (λ h. (refl, h), λ h. h.1)
append_nil_iff (x ∷ xs) ys = (λ h. cc, λ h. cc)

-- The decision is other than to abstain exactly when every dimension of the evidence is met, a policy
-- and a portfolio are given whose five values are known and within the limits, and the signal is one
-- of the four actionable ones.
pub generate_decision_iff :
    (r : DecisionRequest)
    → ((generate_decision r).recommendation_state ≢ abstain)
      ↔ (AllMet r.evidence × WithinPolicy r.policy r.portfolio × IsActionable r.signal_state)
unfolding generate_decision
generate_decision_iff r =
    let assessed = assess r.policy r.portfolio in
    let (forth, back) =
      recommend_iff r.signal_state (failures r.evidence ++ assessed.added_failures) in
    let (split, join) = append_nil_iff (failures r.evidence) assessed.added_failures in
    (
      λ h.
          let (clear, known) = forth h in
          (
            (failures_iff r.evidence).0 (split clear).0,
            (assess_iff r.policy r.portfolio).0 (split clear).1,
            (signal_recommendation_iff r.signal_state).0 known,
          ),
      λ (met, within, known). back (
        join ((failures_iff r.evidence).1 met, (assess_iff r.policy r.portfolio).1 within),
        (signal_recommendation_iff r.signal_state).1 known,
      ),
    )

-- No name of a failure reads as the text that says that all was met.
abbrev Named : List String → Type 0
Named = All (λ x. str_eq x all_met ≡ false)

Named-append : (xs ys : List String) → Named xs → Named ys → Named (xs ++ ys)
Named-append [] ys hx hy = hy
Named-append (x ∷ xs) ys hx hy = (hx.0, Named-append xs ys hx.1 hy)

failed_names-Named :
    (items : List (String × Bool))
    → All (λ item. str_eq item.0 all_met ≡ false) items
    → Named (failed_names items)
unfolding failed_names
failed_names-Named [] h = tt
failed_names-Named ((name, true) ∷ items) h = failed_names-Named items h.1
failed_names-Named ((name, false) ∷ items) h = (h.0, failed_names-Named items h.1)

failures-Named : (e : EvidenceHealth) → Named (failures e)
unfolding failures
failures-Named e = failed_names-Named (dump_evidence e) (
  refl,
  (refl, (refl, (refl, (refl, (refl, (refl, (refl, (refl, (refl, (refl, (refl, tt))))))))))),
)

assess-Named :
    (policy : Option PortfolioRiskPolicy) (portfolio : Option PortfolioSnapshot)
    → Named (assess policy portfolio).added_failures
unfolding assess
assess-Named (some p) (some s) = ground arith
assess-Named _ _ = (refl, tt)

assess-within :
    (policy : Option PortfolioRiskPolicy) (portfolio : Option PortfolioSnapshot)
    → (assess policy portfolio).added_failures ≡ []
    → (assess policy portfolio).risk_status ≡ "WITHIN_POLICY"
unfolding assess
assess-within (some p) (some s) h = ground arith
assess-within _ _ h = cc

-- Either an abstention without confidence that names a failure, or high confidence in an action.
abbrev Outcome : RecommendationState → ConfidenceLevel → List String → String → Type 0
Outcome recommendation confidence basis risk =
    ((recommendation ≡ abstain) × (confidence ≡ unavailable) × (basis ≢ all_met ∷ []))
    ⊎ ((recommendation ≢ abstain)
        × (confidence ≡ high)
        × (risk ≡ "WITHIN_POLICY")
        × (basis ≡ all_met ∷ []))

recommend-Outcome :
    (signal : String) (failed : List String) (risk : String)
    → Named failed
    → (failed ≡ [] → risk ≡ "WITHIN_POLICY")
    → let o = recommend signal failed in Outcome o.0 o.1 (or_all_met o.2) risk
unfolding recommend
recommend-Outcome signal [] risk named within =
    elim (Bool-cases (is_abstain (signal_recommendation signal))) [
      | inl quiet ↦
          inl (
            ground arith,
            ground arith,
            ground (arith, eq_iff "signal_abstained_or_unknown" all_met),
          )
      | inr acts ↦ inr (ground arith, ground arith, within refl, ground arith)
    ]
recommend-Outcome signal (x ∷ xs) risk named within =
    inl (refl, refl, ground (arith, eq_iff x all_met))

-- Either the decision abstains with no confidence, and names a failure, or its confidence is high,
-- the portfolio is within policy, and the basis says that all was met: never one without the other.
generate_decision_dichotomy :
    (r : DecisionRequest)
    → let d = generate_decision r in
      Outcome d.recommendation_state d.confidence_level d.confidence_basis d.portfolio_risk_status
unfolding generate_decision
generate_decision_dichotomy r =
    let assessed = assess r.policy r.portfolio in
    recommend-Outcome r.signal_state (failures r.evidence ++ assessed.added_failures)
      assessed.risk_status
      (Named-append (failures r.evidence) assessed.added_failures (failures-Named r.evidence)
        (assess-Named r.policy r.portfolio))
      (λ e.
        assess-within r.policy r.portfolio
          ((append_nil_iff (failures r.evidence) assessed.added_failures).0 e).1)

assess_room :
    (policy : Option PortfolioRiskPolicy) (portfolio : Option PortfolioSnapshot) {room : ℕ}
    → (assess policy portfolio).room ≡ some room
    → (current : ℕ) × (maximum : ℕ) × ((assess policy portfolio).current ≡ some current)
      × ((assess policy portfolio).maximum ≡ some maximum)
      × (((room ≡ 0) × (maximum ≤ current)) ⊎ (current + room ≡ maximum))
unfolding assess
assess_room (some p) (some s) h = elim (Option-cases s.asset_allocation) [
  | inl unknown ↦ absurd (ground arith)
  | inr (a, e) ↦ (a, p.max_single_position, ground arith, ground arith, ground arith)
]
assess_room _ _ h = absurd (cc)

-- The room that a decision reports is what is left to the limit on a single position: nothing when
-- the position is at the limit or above it, and with the position it makes up the limit otherwise.
generate_decision_room :
    (r : DecisionRequest) {room : ℕ}
    → (generate_decision r).incremental_policy_room ≡ some room
    → (current : ℕ) × (maximum : ℕ) × ((generate_decision r).current_policy_allocation
        ≡ some current)
      × ((generate_decision r).max_policy_allocation ≡ some maximum)
      × (((room ≡ 0) × (maximum ≤ current)) ⊎ (current + room ≡ maximum))
unfolding generate_decision
generate_decision_room r h = assess_room r.policy r.portfolio h
