-- ===== src/Backtest/Protocol.antt =====
-- The preregistration of src/investment_tracker/backtest_v1.py: freezing a protocol, verifying its digest,
-- the reuse of a qualification dataset, and the calendar of the folds.
pub mod Folds
pub mod Frozen
pub mod Reuse
pub mod Embargo
mod Examples
use investment_tracker.Prelude.{
  ℕ, ◌+◌, String, Bool, true, false, not, ◌&&◌, ◌||◌, Option, none, some, List, [], ◌∷◌, any,
  length, ltb, leb, if◌then◌else◌, str_eq, Result, ok, err, and_then, or_raise,
}
use investment_tracker.Timestamp.{Timestamp, is_aware, before}
use investment_tracker.Governance.{assert_symbol_allowed}
use investment_tracker.Selector.{is_increasing, index_from}
use investment_tracker.Backtest.{
  BacktestError, protocol_error, reuse_error, symbol_refused, index_error, ValidationFold,
  FrozenBacktestProtocol, QualificationAttempt,
}

abbrev pub require : Bool → Result BacktestError (Unit {0})
require true = ok tt
require false = err protocol_error

abbrev pub require_aware : Timestamp → Result BacktestError (Unit {0})
require_aware value = require (is_aware value)

-- `previous_end is not None and start <= previous_end`
abbrev pub reaches_back : Option ℕ → ℕ → Bool
reaches_back none start = false
reaches_back (some previous_end) start = leb start previous_end

-- `_validate_fold_order`, from the fold IDs seen and the end of the fold before.
unfoldable pub validate_fold_order :
    List String → Option ℕ → List ValidationFold → Result BacktestError (Unit {0})
validate_fold_order seen previous_end [] = ok tt
validate_fold_order seen previous_end (fold ∷ folds) =
    let rest = validate_fold_order (fold.fold_id ∷ seen) (some fold.end_date) folds in
    if str_eq fold.fold_id "" || any (str_eq fold.fold_id) seen
    then err protocol_error
    else if ltb fold.end_date fold.start_date
    then err protocol_error
    else if reaches_back previous_end fold.start_date
    then err protocol_error
    else rest

-- `len(panel) != len(set(panel))`
abbrev pub has_duplicates : List String → Bool
has_duplicates [] = false
has_duplicates (s ∷ symbols) = any (str_eq s) symbols || has_duplicates symbols

-- What the digest is taken of: every field but the digest itself.
pub record ProtocolPayload : Type 0 where
  pub candidate_id : String
  pub qualification_dataset_id : String
  pub panel : List String
  pub benchmark : String
  pub research_end_date : ℕ
  pub folds : List ValidationFold
  pub preregistered_at : Timestamp
  pub history_accessed_at : Timestamp
  pub strategy_version : String
  pub calculation_version : String
  pub robustness_version : String

abbrev pub protocol_payload : FrozenBacktestProtocol → ProtocolPayload
protocol_payload p = record {
  candidate_id = p.candidate_id;
  qualification_dataset_id = p.qualification_dataset_id;
  panel = p.panel;
  benchmark = p.benchmark;
  research_end_date = p.research_end_date;
  folds = p.folds;
  preregistered_at = p.preregistered_at;
  history_accessed_at = p.history_accessed_at;
  strategy_version = p.strategy_version;
  calculation_version = p.calculation_version;
  robustness_version = p.robustness_version;
}

module _ (strip_upper : String → String) where
  abbrev pub allowed : String → Result BacktestError String
  allowed symbol = elim (assert_symbol_allowed strip_upper symbol) [
    | ok normalized ↦ ok normalized
    | err e ↦ err symbol_refused
  ]

  unfoldable pub allowed_all : List String → Result BacktestError (List String)
  allowed_all [] = ok []
  allowed_all (s ∷ symbols) =
      and_then (allowed s) λ n. and_then (allowed_all symbols) λ rest. ok (n ∷ rest)

-- `history_accessed_at < preregistered_at`, of two aware times
abbrev pub accessed_early : Timestamp → Timestamp → Bool
accessed_early accessed preregistered = elim (before accessed preregistered) [
  | some early ↦ early
  | none ↦ false
]

abbrev pub frozen : ProtocolPayload → List String → String → FrozenBacktestProtocol
frozen a panel benchmark = record {
  candidate_id = a.candidate_id;
  qualification_dataset_id = a.qualification_dataset_id;
  panel = panel;
  benchmark = benchmark;
  research_end_date = a.research_end_date;
  folds = a.folds;
  preregistered_at = a.preregistered_at;
  history_accessed_at = a.history_accessed_at;
  strategy_version = a.strategy_version;
  calculation_version = a.calculation_version;
  robustness_version = a.robustness_version;
  protocol_digest = "";
}

module _ (digest_of : ProtocolPayload → String) where
  abbrev pub with_digest : FrozenBacktestProtocol → FrozenBacktestProtocol
  with_digest p = record p { protocol_digest = digest_of (protocol_payload p) }

  unfoldable pub verify_protocol_digest : FrozenBacktestProtocol → Bool
  verify_protocol_digest p = str_eq p.protocol_digest (digest_of (protocol_payload p))

-- The arguments are the fields of a protocol without a digest.
unfoldable pub freeze_backtest_protocol :
    (String → String)
    → (ProtocolPayload → String)
    → ProtocolPayload
    → Result BacktestError FrozenBacktestProtocol
unfolding validate_fold_order allowed_all
freeze_backtest_protocol strip_upper digest_of a =
    and_then (require (not (str_eq a.candidate_id "" || str_eq a.qualification_dataset_id ""))) λ _.
      and_then (require_aware a.preregistered_at) λ _.
        and_then (require_aware a.history_accessed_at) λ _.
          and_then (require (not (accessed_early a.history_accessed_at a.preregistered_at))) λ _.
            and_then (allowed_all strip_upper a.panel) λ panel.
              and_then (allowed strip_upper a.benchmark) λ benchmark.
                and_then (require (not (has_duplicates panel))) λ _.
                  and_then (require (not (any (str_eq benchmark) panel))) λ _.
                    and_then (require (leb 3 (length a.folds))) λ _.
                      and_then (validate_fold_order [] none a.folds)
                        λ _. ok (with_digest digest_of (frozen a panel benchmark))

abbrev pub same_protocol : FrozenBacktestProtocol → QualificationAttempt → Bool
same_protocol protocol attempt =
    str_eq attempt.candidate_id protocol.candidate_id
    && str_eq attempt.protocol_digest protocol.protocol_digest
    && str_eq attempt.purpose "QUALIFICATION"

unfoldable pub assert_qualification_dataset_unused :
    FrozenBacktestProtocol → List QualificationAttempt → Result BacktestError (Unit {0})
assert_qualification_dataset_unused protocol [] = ok tt
assert_qualification_dataset_unused protocol (attempt ∷ attempts) =
    let rest = assert_qualification_dataset_unused protocol attempts in
    if not (str_eq attempt.qualification_dataset_id protocol.qualification_dataset_id)
    then rest
    else if same_protocol protocol attempt
    then rest
    else err reuse_error

-- `_calendar`: the sessions, which increase strictly.
abbrev pub calendar : List ℕ → Result BacktestError (List ℕ)
calendar sessions = if is_increasing sessions then ok sessions else err protocol_error

-- `index[day]`, or the error where it is not in the calendar.
abbrev pub session_of : List ℕ → ℕ → Result BacktestError ℕ
session_of sessions day = or_raise protocol_error (index_from 0 sessions day)

-- `previous_end is not None and index[start] <= index[previous_end]`: the end of an earlier fold is
-- given by its session.
unfoldable pub validate_fold_sessions :
    List ℕ → Option ℕ → List ValidationFold → Result BacktestError (Unit {0})
unfolding index_from
validate_fold_sessions sessions previous_end [] = ok tt
validate_fold_sessions sessions previous_end (fold ∷ folds) =
    and_then (session_of sessions fold.start_date) λ start.
      and_then (session_of sessions fold.end_date) λ end. elim (reaches_back previous_end start) [
        | true ↦ err protocol_error
        | false ↦ validate_fold_sessions sessions (some end) folds
      ]

abbrev pub first_fold : List ValidationFold → Result BacktestError ValidationFold
first_fold [] = err index_error
first_fold (fold ∷ folds) = ok fold

-- `index[start] - index[research_end] <= 20` is refused.
unfoldable pub validate_protocol_calendar :
    FrozenBacktestProtocol → List ℕ → Result BacktestError (Unit {0})
unfolding is_increasing validate_fold_sessions
validate_protocol_calendar protocol benchmark_sessions =
    and_then (calendar benchmark_sessions) λ sessions.
      and_then (session_of sessions protocol.research_end_date) λ research_end.
        and_then (first_fold protocol.folds) λ first.
          and_then (session_of sessions first.start_date) λ start.
            and_then (session_of sessions first.end_date) λ end.
              and_then (require (ltb (research_end + 20) start))
                λ _. validate_fold_sessions sessions none protocol.folds
