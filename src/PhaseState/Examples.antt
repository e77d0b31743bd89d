-- ===== src/PhaseState/Examples.antt =====
-- The theorems on src/investment_tracker/phase_state.py at concrete moves.
use investment_tracker.Prelude.{◌+◌, ◌<◌, ◌≡◌, ◌↔◌, ◌⊎◌, refl, true, List, [], ◌∷◌, ok}
use investment_tracker.PhaseState.{
  PhaseState, validated_not_cached, partial_cache, quarantined, cached_clean, replay_daily_complete,
  rank, assert_transition, same_phase, is_next, allowed_next,
}
use investment_tracker.PhaseState.Progress.{Advances, assert_transition_iff}

assert_transition_iff_example : (assert_transition cached_clean quarantined true true ≡ ok tt) ↔ (
    (true ≡ true)
    × ((cached_clean ≡ quarantined)
        ⊎ ((rank quarantined ≡ rank cached_clean + 1)
            ⊎ ((true ≡ true) × (rank quarantined < rank cached_clean)))))
assert_transition_iff_example = assert_transition_iff cached_clean quarantined true true

abbrev phases : List PhaseState
phases = partial_cache ∷ partial_cache ∷ quarantined ∷ replay_daily_complete ∷ []

advancing : Advances validated_not_cached phases
unfolding assert_transition rank same_phase is_next allowed_next
advancing = (refl, (refl, (refl, (refl, tt))))
