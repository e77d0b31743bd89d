-- ===== src/PhaseState.antt =====
-- src/investment_tracker/phase_state.py: the phases of an asset's evidence and the moves between them.
pub mod Progress
mod Examples
use investment_tracker.Prelude.{
  ℕ, ◌≡◌, Bool, true, false, not, List, [], ◌∷◌, ltb, if◌then◌else◌, Result, ok, err, ◌||◌,
}
use mathlib.Core.Bool.{decide}

pub data PhaseState : Type 0 where
  validated_not_cached partial_cache cached_clean quarantined : PhaseState
  replay_daily_complete episodes_complete outcomes_complete baselines_complete : PhaseState

-- The messages of `TransitionError`.
pub data TransitionError : Type 0 where
  no_readback regression invalid_transition : TransitionError

PhaseState-discrete : Discrete PhaseState
PhaseState-discrete = hlevel

pub same_phase : PhaseState → PhaseState → Bool
unfolding PhaseState-discrete decide
same_phase a b = decide (PhaseState-discrete a b)

-- `_ALLOWED_NEXT`
pub allowed_next : PhaseState → List PhaseState
allowed_next validated_not_cached = partial_cache ∷ []
allowed_next partial_cache = cached_clean ∷ quarantined ∷ []
allowed_next cached_clean = replay_daily_complete ∷ []
allowed_next quarantined = replay_daily_complete ∷ []
allowed_next replay_daily_complete = episodes_complete ∷ []
allowed_next episodes_complete = outcomes_complete ∷ []
allowed_next outcomes_complete = baselines_complete ∷ []
allowed_next baselines_complete = []

-- `_RANK`
unfoldable pub rank : PhaseState → ℕ
rank validated_not_cached = 0
rank partial_cache = 1
rank cached_clean = 2
rank quarantined = 2
rank replay_daily_complete = 3
rank episodes_complete = 4
rank outcomes_complete = 5
rank baselines_complete = 6

is_next : PhaseState → List PhaseState → Bool
unfolding same_phase
is_next target [] = false
is_next target (p ∷ ps) = same_phase p target || is_next target ps

pub assert_transition : PhaseState → PhaseState → Bool → Bool → Result TransitionError Unit
assert_transition current target evidence_readback_ok dq_reconciliation =
    if not evidence_readback_ok
    then err no_readback
    else if same_phase current target
    then ok tt
    else if ltb (rank target) (rank current)
    then (if dq_reconciliation then ok tt else err regression)
    else if is_next target (allowed_next current)
    then ok tt
    else err invalid_transition
