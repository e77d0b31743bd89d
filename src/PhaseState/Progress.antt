-- ===== src/PhaseState/Progress.antt =====
-- Which moves src/investment_tracker/phase_state.py accepts, and what a run of accepted moves does.
use mathlib.Core.Bool.{decide_iff}
use investment_tracker.Prelude.{
  ap, ℕ, suc, ◌+◌, ◌≤◌, ◌<◌, ◌==◌, ◌≡◌, refl, ◌↔◌, ◌⊎◌, inl, inr, Bool, true, false, List, [], ◌∷◌,
  ok, arith, if◌then◌else◌,
}
use investment_tracker.PhaseState.{
  partial_cache, cached_clean, quarantined, replay_daily_complete, episodes_complete,
  outcomes_complete, baselines_complete, PhaseState, validated_not_cached, PhaseState-discrete,
  same_phase, allowed_next, rank, is_next, assert_transition,
}

-- The table of next phases is the table of ranks.
is_next-rank : (a b : PhaseState) → is_next b (allowed_next a) ≡ (rank b == suc (rank a))
unfolding is_next allowed_next rank
is_next-rank validated_not_cached validated_not_cached = refl
is_next-rank validated_not_cached _ = refl
is_next-rank partial_cache validated_not_cached = refl
is_next-rank partial_cache _ = refl
is_next-rank cached_clean validated_not_cached = refl
is_next-rank cached_clean _ = refl
is_next-rank quarantined validated_not_cached = refl
is_next-rank quarantined _ = refl
is_next-rank replay_daily_complete validated_not_cached = refl
is_next-rank replay_daily_complete _ = refl
is_next-rank episodes_complete validated_not_cached = refl
is_next-rank episodes_complete _ = refl
is_next-rank outcomes_complete validated_not_cached = refl
is_next-rank outcomes_complete _ = refl
is_next-rank baselines_complete validated_not_cached = refl
is_next-rank baselines_complete _ = refl

same_phase_iff : (a b : PhaseState) → (same_phase a b ≡ true) ↔ (a ≡ b)
unfolding same_phase
same_phase_iff a b = decide_iff (PhaseState-discrete a b)

-- A move is accepted exactly when the readback is there and the target is the current phase, or one
-- rank above it, or, under a reconciliation, of a lower rank.
pub assert_transition_iff :
    (a b : PhaseState) (readback dq : Bool)
    → (assert_transition a b readback dq ≡ ok tt) ↔ (
        (readback ≡ true) × ((a ≡ b) ⊎ ((rank b ≡ rank a + 1) ⊎ ((dq ≡ true) × (rank b < rank a)))))
unfolding assert_transition
assert_transition_iff a b readback dq = (
  λ h. ground (arith, is_next-rank a b, same_phase_iff a b),
  λ h. ground (arith, is_next-rank a b, same_phase_iff a b, ap rank),
)

-- Each phase of the list is accepted after the one before it, with no reconciliation.
abbrev pub Advances : PhaseState → List PhaseState → Type 0
Advances p [] = Unit
Advances p (q ∷ qs) = (assert_transition p q true false ≡ ok tt) × Advances q qs

abbrev last_phase : PhaseState → List PhaseState → PhaseState
last_phase p [] = p
last_phase p (q ∷ qs) = last_phase q qs

-- How often the phase changes along the list.
abbrev changes : PhaseState → List PhaseState → ℕ
changes p [] = 0
changes p (q ∷ qs) = (if same_phase p q then 0 else 1) + changes q qs

rank-step :
    (p q : PhaseState)
    → assert_transition p q true false ≡ ok tt
    → rank q ≡ rank p + (if same_phase p q then 0 else 1)
rank-step p q h = elim ((assert_transition_iff p q true false).0 h).1 [
  | inl same ↦ rw ((same_phase_iff p q).1 same) (rw same (omega arith))
  | inr (inl up) ↦ ground (arith, same_phase_iff p q)
  | inr (inr (no_dq, down)) ↦ cc
]

rank-changes :
    (p : PhaseState) (qs : List PhaseState)
    → Advances p qs
    → rank (last_phase p qs) ≡ rank p + changes p qs
rank-changes p [] h = omega arith
rank-changes p (q ∷ qs) h = omega (arith, rank-step p q h.0, rank-changes q qs h.1)

rank-le : (p : PhaseState) → rank p ≤ 6
unfolding rank
rank-le validated_not_cached = omega arith
rank-le _ = omega arith

-- Along moves accepted with no reconciliation, the rank rises by one at each change of phase and at
-- nothing else; so the phase changes six times at most.
advance-changes :
    (p : PhaseState) (qs : List PhaseState)
    → Advances p qs
    → (rank (last_phase p qs) ≡ rank p + changes p qs) × (changes p qs ≤ 6)
advance-changes p qs h =
    (rank-changes p qs h, omega (arith, rank-changes p qs h, rank-le (last_phase p qs)))
