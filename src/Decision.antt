-- ===== src/Decision.antt =====
-- src/investment_tracker/decision.py: the recommendation that a request's evidence and portfolio
-- allow. A Decimal between 0 and 1 is a number of units of 10^-28 (`Decimal`'s precision), so that
-- differences are exact. `validate_asset` stands in Governance; zone changes of the two time stamps
-- keep the instant and are left out.
pub mod Clearance
mod Examples
use investment_tracker.Prelude.{
  ℕ, ◌-◌, String, Bool, true, false, not, ◌||◌, Option, none, some, List, [], ◌∷◌, ◌++◌, ltb,
  if◌then◌else◌, str_eq,
}
use Prim.Native.String.{◌++◌ as str_append}
use investment_tracker.Timestamp.{Timestamp}

pub data RecommendationState : Type 0 where
  consider_accumulating hold_off consider_trimming no_action abstain : RecommendationState

pub data ConfidenceLevel : Type 0 where
  low medium high unavailable : ConfidenceLevel

pub record EvidenceHealth : Type 0 where
  pub market_data_fresh : Bool
  pub benchmark_aligned : Bool
  pub no_critical_dq : Bool
  pub canonical_digests_valid : Bool
  pub snapshot_current : Bool
  pub versions_match : Bool
  pub calculation_tests_pass : Bool
  pub breadth_met : Bool
  pub independent_recalculation_agrees : Bool
  pub phase_b_passed : Bool
  pub prospective_gate_met : Bool
  pub operational_healthy : Bool

-- `model_dump().items()`
dump_evidence : EvidenceHealth → List (String × Bool)
dump_evidence e =
    ("market_data_fresh", e.market_data_fresh)
    ∷ ("benchmark_aligned", e.benchmark_aligned)
    ∷ ("no_critical_dq", e.no_critical_dq)
    ∷ ("canonical_digests_valid", e.canonical_digests_valid)
    ∷ ("snapshot_current", e.snapshot_current)
    ∷ ("versions_match", e.versions_match)
    ∷ ("calculation_tests_pass", e.calculation_tests_pass)
    ∷ ("breadth_met", e.breadth_met)
    ∷ ("independent_recalculation_agrees", e.independent_recalculation_agrees)
    ∷ ("phase_b_passed", e.phase_b_passed)
    ∷ ("prospective_gate_met", e.prospective_gate_met)
    ∷ ("operational_healthy", e.operational_healthy)
    ∷ []

-- `[name for name, value in items if not value]`
failed_names : List (String × Bool) → List String
failed_names [] = []
failed_names ((name, value) ∷ items) =
    let rest = failed_names items in if value then rest else name ∷ rest

pub failures : EvidenceHealth → List String
unfolding dump_evidence failed_names
failures e = failed_names (dump_evidence e)

pub record PortfolioRiskPolicy : Type 0 where
  pub policy_version : String
  pub max_single_position : ℕ
  pub max_theme_exposure : ℕ
  pub max_correlated_exposure : ℕ
  pub max_aggregate_exposure : ℕ
  pub minimum_cash_buffer : ℕ

pub record PortfolioSnapshot : Type 0 where
  pub snapshot_id : String
  pub as_of_timestamp : Timestamp
  pub asset_allocation : Option ℕ
  pub theme_allocation : Option ℕ
  pub correlated_allocation : Option ℕ
  pub aggregate_exposure : Option ℕ
  pub cash_allocation : Option ℕ

pub record DecisionRequest : Type 0 where
  pub decision_id : String
  pub asset : String
  pub as_of_timestamp : Timestamp
  pub market_data_cutoff : Timestamp
  pub signal_state : String
  pub source_snapshot_id : String
  pub evidence : EvidenceHealth
  pub policy : Option PortfolioRiskPolicy
  pub portfolio : Option PortfolioSnapshot
  pub relevant_dq_refs : List String
  pub contrary_evidence : List String
  pub invalidators : List String

pub record DecisionRecord : Type 0 where
  pub decision_id : String
  pub asset : String
  pub as_of_timestamp : Timestamp
  pub market_data_cutoff : Timestamp
  pub signal_state : String
  pub recommendation_state : RecommendationState
  pub confidence_level : ConfidenceLevel
  pub confidence_basis : List String
  pub portfolio_risk_status : String
  pub max_policy_allocation : Option ℕ
  pub current_policy_allocation : Option ℕ
  pub incremental_policy_room : Option ℕ
  pub rationale : List String
  pub contrary_evidence : List String
  pub invalidators : List String
  pub relevant_dq_refs : List String
  pub source_snapshot_id : String
  pub calculation_version : String
  pub recommendation_version : String
  pub confidence_version : String
  pub decision_status : String
  pub human_approval_required : Bool

-- The variables of `generate_decision` that the portfolio check sets.
pub record Assessment : Type 0 where
  pub added_failures : List String
  pub risk_status : String
  pub current : Option ℕ
  pub maximum : Option ℕ
  pub room : Option ℕ

abbrev unassessed : String → Assessment
unassessed failure = record {
  added_failures = failure ∷ [];
  risk_status = "UNAVAILABLE";
  current = none;
  maximum = none;
  room = none;
}

-- With every value known: `max(Decimal("0"), maximum - current)` is the subtraction on ℕ.
assess_known : PortfolioRiskPolicy → ℕ → ℕ → ℕ → ℕ → ℕ → Assessment
assess_known policy asset theme correlated aggregate cash =
    let violations =
      ltb policy.max_single_position asset
      || ltb policy.max_theme_exposure theme
      || ltb policy.max_correlated_exposure correlated
      || ltb policy.max_aggregate_exposure aggregate
      || ltb cash policy.minimum_cash_buffer in
    record {
      added_failures = if violations then "portfolio_risk_violation" ∷ [] else [];
      risk_status = if violations then "VIOLATION" else "WITHIN_POLICY";
      current = some asset;
      maximum = some policy.max_single_position;
      room = some (policy.max_single_position - asset);
    }

assess_values :
    PortfolioRiskPolicy → Option ℕ → Option ℕ → Option ℕ → Option ℕ → Option ℕ → Assessment
unfolding assess_known
assess_values policy (some asset) (some theme) (some correlated) (some aggregate) (some cash) =
    assess_known policy asset theme correlated aggregate cash
assess_values policy _ _ _ _ _ = unassessed "portfolio_value_unknown"

assess : Option PortfolioRiskPolicy → Option PortfolioSnapshot → Assessment
unfolding assess_values
assess (some policy) (some values) =
    assess_values policy values.asset_allocation values.theme_allocation
      values.correlated_allocation values.aggregate_exposure values.cash_allocation
assess _ _ = unassessed "portfolio_policy_or_snapshot_missing"

-- The table of recommendations by signal.
signal_recommendation : String → RecommendationState
signal_recommendation signal =
    if str_eq signal "ACCUMULATE"
    then consider_accumulating
    else if str_eq signal "TRIM/AVOID"
    then consider_trimming
    else if str_eq signal "WATCH"
    then hold_off
    else if str_eq signal "WAIT"
    then no_action
    else abstain

abbrev is_abstain : RecommendationState → Bool
is_abstain abstain = true
is_abstain _ = false

-- The recommendation, the confidence and the failures, from the failures so far.
recommend : String → List String → RecommendationState × ConfidenceLevel × List String
unfolding signal_recommendation
recommend signal [] =
    let recommendation = signal_recommendation signal in
    if is_abstain recommendation
    then (recommendation, unavailable, "signal_abstained_or_unknown" ∷ [])
    else (recommendation, high, [])
recommend signal (failure ∷ rest) = (abstain, unavailable, failure ∷ rest)

-- `failures or [...]`
abbrev pub all_met : String
all_met = "all_CONF-v1.0_critical_dimensions_met"

abbrev or_all_met : List String → List String
or_all_met [] = all_met ∷ []
or_all_met (failure ∷ rest) = failure ∷ rest

pub generate_decision : DecisionRequest → DecisionRecord
generate_decision request =
    let assessed = assess request.policy request.portfolio in
    let outcome =
      recommend request.signal_state (failures request.evidence ++ assessed.added_failures) in
    record {
      decision_id = request.decision_id;
      asset = request.asset;
      as_of_timestamp = request.as_of_timestamp;
      market_data_cutoff = request.market_data_cutoff;
      signal_state = request.signal_state;
      recommendation_state = outcome.0;
      confidence_level = outcome.1;
      confidence_basis = or_all_met outcome.2;
      portfolio_risk_status = assessed.risk_status;
      max_policy_allocation = assessed.maximum;
      current_policy_allocation = assessed.current;
      incremental_policy_room = assessed.room;
      rationale =
          str_append "Frozen signal: " request.signal_state
          ∷ str_append "Portfolio risk: " assessed.risk_status
          ∷ [];
      contrary_evidence = request.contrary_evidence;
      invalidators = request.invalidators;
      relevant_dq_refs = request.relevant_dq_refs;
      source_snapshot_id = request.source_snapshot_id;
      calculation_version = "CALC-v1.2";
      recommendation_version = "REC-v1.0";
      confidence_version = "CONF-v1.0";
      decision_status = "PAPER_ONLY_NOT_PRODUCTION_APPROVED";
      human_approval_required = true;
    }
