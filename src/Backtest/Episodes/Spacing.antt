-- ===== src/Backtest/Episodes/Spacing.antt =====
-- What the independent clusters of src/investment_tracker/backtest_v1.py keep apart.
use investment_tracker.Prelude.{
  ℕ, ◌+◌, ◌≤◌, ◌≡◌, inl, inr, some, List, [], ◌∷◌, arith, ltb, Bool-cases, ok, or_raise,
  and_then-ok_then, sym, subst, Result-cases, sym, subst, Result-cases,
}
use investment_tracker.Selector.{index_from, by_day}
use investment_tracker.Backtest.{Decimals, IndependentCluster, EpisodeObservation, key_error}
use investment_tracker.Backtest.Episodes.{
  select_clusters, independent_clusters, clustered, by_entry,
}

module _ (D : Decimals) (sessions : List ℕ) where
  -- From session `from` on, and each at least twenty sessions after the one before.
  abbrev pub Spaced : ℕ → List (IndependentCluster D.N) → Type 0
  Spaced from [] = Unit
  Spaced from (c ∷ rest) =
      (at : ℕ) × (index_from 0 sessions c.entry_date ≡ some at)
      × (from ≤ at)
      × Spaced (at + 20) rest

  select_clusters-Spaced :
      (from : ℕ) (clusters : List (IndependentCluster D.N)) {chosen : List (IndependentCluster D.N)}
      → select_clusters D sessions from clusters ≡ ok chosen
      → Spaced from chosen
  unfolding select_clusters
  select_clusters-Spaced from [] h = ground arith
  select_clusters-Spaced from (c ∷ clusters) {chosen} h =
      and_then-ok_then (or_raise key_error (index_from 0 sessions c.entry_date)) h λ at found rest.
        elim (Bool-cases (ltb at from)) [
          | inl early ↦ select_clusters-Spaced from clusters (ground arith)
          | inr late ↦ elim (Result-cases (select_clusters D sessions (at + 20) clusters)) [
            | inl (e, bad) ↦ absurd (ground arith)
            | inr (others, fine) ↦
                let later = select_clusters-Spaced (at + 20) clusters fine in
                let is : chosen ≡ c ∷ others = ground arith in
                subst (Spaced from) (sym is) (at, ground arith, ground arith, later)
          ]
        ]

  -- The clusters that count as independent are entered at least twenty sessions apart.
  pub independent_clusters-Spaced :
      (rows : List (EpisodeObservation D.N)) {chosen : List (IndependentCluster D.N)}
      → independent_clusters D rows sessions ≡ ok chosen
      → Spaced 0 chosen
  unfolding independent_clusters
  independent_clusters-Spaced rows h =
      and_then-ok_then (clustered D (by_day (by_entry D rows []))) h
        λ clusters made chose. select_clusters-Spaced 0 clusters chose
