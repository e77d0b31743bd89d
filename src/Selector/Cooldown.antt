-- ===== src/Selector/Cooldown.antt =====
-- What the selection in src/investment_tracker/replay_v3.py keeps apart.
use investment_tracker.Prelude.{
  ℕ, ◌+◌, ◌≤◌, String, ◌≡◌, inl, inr, List, [], ◌∷◌, arith, ltb, Bool-cases, Option-cases,
  Result-cases, ok,
}
use investment_tracker.Dict.{Dict}
use investment_tracker.Replay.{Number}
use investment_tracker.Selector.{
  EligibleOpportunity, SelectedOpportunity, group_rows, by_day, index_from, sort_rows, first_of,
  select_days, select_cluster_aware_opportunities,
}

-- From session `from` on, and each at least twenty sessions after the one before.
abbrev pub Spaced : {N : Type 0} → ℕ → List (SelectedOpportunity N) → Type 0
Spaced from [] = Unit
Spaced from (s ∷ rest) =
    (from ≤ s.benchmark_session_index) × Spaced (s.benchmark_session_index + 20) rest

module _ (F : Number) (strip_upper : String → String) (sessions : List ℕ) where
  select_days-Spaced :
      (from : ℕ) (groups : Dict ℕ (List (EligibleOpportunity F.N)))
      {chosen : List (SelectedOpportunity F.N)}
      → select_days F strip_upper sessions from groups ≡ ok chosen
      → Spaced from chosen
  unfolding select_days
  select_days-Spaced from [] h = ground arith
  select_days-Spaced from ((day, rows) ∷ groups) {chosen} h =
      elim (Option-cases (index_from 0 sessions day)) [
        | inl absent ↦ absurd (ground arith)
        | inr (position, found) ↦ elim (Bool-cases (ltb position from)) [
          | inl early ↦ select_days-Spaced from groups (ground arith)
          | inr late ↦ elim (Result-cases (first_of F strip_upper (sort_rows F strip_upper rows))) [
            | inl (e, bad) ↦ absurd (ground arith)
            | inr (winner, best) ↦
                elim (Result-cases (select_days F strip_upper sessions (position + 20) groups)) [
                  | inl (e, bad) ↦ absurd (ground arith)
                  | inr (rest, fine) ↦
                      let later = select_days-Spaced (position + 20) groups fine in ground arith
                ]
          ]
        ]
      ]

  -- A selection never holds two opportunities less than twenty sessions apart.
  pub select_cluster_aware_opportunities-Spaced :
      (opportunities : List (EligibleOpportunity F.N)) {chosen : List (SelectedOpportunity F.N)}
      → select_cluster_aware_opportunities F strip_upper opportunities sessions ≡ ok chosen
      → Spaced 0 chosen
  unfolding select_cluster_aware_opportunities
  select_cluster_aware_opportunities-Spaced opportunities {chosen} h =
      elim (Result-cases (group_rows F strip_upper sessions opportunities [])) [
        | inl (e, bad) ↦ absurd (ground arith)
        | inr (grouped, fine) ↦ select_days-Spaced 0 (by_day grouped) (ground arith)
      ]
