-- ===== src/Backtest/Episodes/Covering.antt =====
-- Which episodes the independent clusters of src/investment_tracker/backtest_v1.py stand for.
use investment_tracker.Prelude.{
  ℕ, ◌+◌, ◌≤◌, ◌<◌, ◌≡◌, inl, inr, refl, sym, some, List, [], ◌∷◌, All, All-map, In, arith, ltb,
  Bool-cases, Result-cases, ok, or_raise, and_then-ok_then, subst,
}
use investment_tracker.Selector.{index_from, by_day}
use investment_tracker.Backtest.{Decimals, IndependentCluster, EpisodeObservation, key_error}
use investment_tracker.Backtest.Episodes.{
  by_entry, clustered, select_clusters, independent_clusters,
}
use investment_tracker.Backtest.Episodes.Days.{
  Chronological, HasDay, HasDay-by_day, by_day-Ordered, by_entry-HasDay, clustered-Entered,
  clustered-Chronological,
}

module _ (D : Decimals) (sessions : List ℕ) where
  -- A chosen cluster enters on the day or before, and less than twenty sessions before.
  abbrev pub Covered : List (IndependentCluster D.N) → ℕ → Type 0
  Covered chosen day =
      (s : IndependentCluster D.N) × (p : ℕ) × (q : ℕ) × In s chosen
      × (s.entry_date ≤ day)
      × (index_from 0 sessions s.entry_date ≡ some p)
      × (index_from 0 sessions day ≡ some q)
      × (q < p + 20)

  abbrev AllCovered : List (IndependentCluster D.N) → List (IndependentCluster D.N) → Type 0
  AllCovered chosen clusters =
      All (λ (k : IndependentCluster D.N). Covered chosen k.entry_date) clusters

  Covered-more :
      (s : IndependentCluster D.N) (chosen : List (IndependentCluster D.N)) (day : ℕ)
      → Covered chosen day
      → Covered (s ∷ chosen) day
  Covered-more s chosen day (t, p, q, m, a, b, c, d) = (t, p, q, inr m, a, b, c, d)

  -- After the choice of `s`.
  select_clusters-Covered :
      (s : IndependentCluster D.N) (p : ℕ) (clusters : List (IndependentCluster D.N))
      {chosen : List (IndependentCluster D.N)}
      → index_from 0 sessions s.entry_date ≡ some p
      → All (λ (c : IndependentCluster D.N). s.entry_date ≤ c.entry_date) clusters
      → Chronological D clusters
      → select_clusters D sessions (p + 20) clusters ≡ ok chosen
      → AllCovered (s ∷ chosen) clusters
  unfolding select_clusters
  select_clusters-Covered s p [] at after order h = tt
  select_clusters-Covered s p (c ∷ clusters) {chosen} at after order h =
      and_then-ok_then (or_raise key_error (index_from 0 sessions c.entry_date)) h λ q found rest.
        elim (Bool-cases (ltb q (p + 20))) [
          | inl early ↦ (
            (s, p, q, inl refl, after.0, at, ground arith, ground arith),
            select_clusters-Covered s p clusters {chosen = chosen} at after.1 order.1
                (ground arith),
          )
          | inr late ↦ elim (Result-cases (select_clusters D sessions (q + 20) clusters)) [
            | inl (e, bad) ↦ absurd (ground arith)
            | inr (others, fine) ↦
                let is : chosen ≡ c ∷ others = ground arith in
                let here : index_from 0 sessions c.entry_date ≡ some q = ground arith in
                let later =
                  select_clusters-Covered c q clusters {chosen = others} here order.0 order.1
                    fine in
                subst (λ (ch : List (IndependentCluster D.N)). AllCovered (s ∷ ch) (c ∷ clusters))
                  (sym is)
                  (
                    (c, q, q, inr (inl refl), omega arith, here, here, omega arith),
                    All-map (λ k. Covered (c ∷ others) k.entry_date)
                        (λ k. Covered (s ∷ c ∷ others) k.entry_date) clusters
                        (λ k m. Covered-more s (c ∷ others) k.entry_date m) later,
                  )
          ]
        ]

  select_first-Covered :
      (clusters : List (IndependentCluster D.N)) {chosen : List (IndependentCluster D.N)}
      → Chronological D clusters
      → select_clusters D sessions 0 clusters ≡ ok chosen
      → AllCovered chosen clusters
  unfolding select_clusters
  select_first-Covered [] order h = tt
  select_first-Covered (c ∷ clusters) {chosen} order h =
      and_then-ok_then (or_raise key_error (index_from 0 sessions c.entry_date)) h λ q found rest.
        elim (Result-cases (select_clusters D sessions (q + 20) clusters)) [
          | inl (e, bad) ↦ absurd (ground arith)
          | inr (others, fine) ↦
              let is : chosen ≡ c ∷ others = ground arith in
              let here : index_from 0 sessions c.entry_date ≡ some q = ground arith in
              subst (λ (ch : List (IndependentCluster D.N)). AllCovered ch (c ∷ clusters)) (sym is)
                (
                  (c, q, q, inl refl, omega arith, here, here, omega arith),
                  select_clusters-Covered c q clusters {chosen = others} here order.0 order.1 fine,
                )
        ]

  All-In :
      (Q : IndependentCluster D.N → Type 0) (clusters : List (IndependentCluster D.N))
      (k : IndependentCluster D.N)
      → All Q clusters
      → In k clusters
      → Q k
  All-In Q [] k all m = absurd m
  All-In Q (c ∷ clusters) k all m = elim m [
    | inl e ↦ subst Q (sym e) all.0
    | inr n ↦ All-In Q clusters k all.1 n
  ]

  -- Each row's day is covered by a chosen cluster.
  pub independent_clusters-Covered :
      (rows : List (EpisodeObservation D.N)) {chosen : List (IndependentCluster D.N)}
      → independent_clusters D rows sessions ≡ ok chosen
      → All (λ (row : EpisodeObservation D.N). Covered chosen row.entry_date) rows
  unfolding independent_clusters
  independent_clusters-Covered rows {chosen} h =
      let groups = by_entry D rows [] in
      and_then-ok_then (clustered D (by_day groups)) h λ built made chose.
        let order =
          clustered-Chronological D (by_day groups) {built = built} made (by_day-Ordered groups) in
        let covered = select_first-Covered built {chosen = chosen} order chose in
        All-map (λ (row : EpisodeObservation D.N). HasDay row.entry_date groups)
          (λ (row : EpisodeObservation D.N). Covered chosen row.entry_date) rows
          (λ row m.
            let (k, member, at) =
              clustered-Entered D (by_day groups) {built = built} row.entry_date made
                (HasDay-by_day groups row.entry_date m) in
            subst (Covered chosen) at
              (All-In (λ j. Covered chosen j.entry_date) built k covered member))
          (by_entry-HasDay D rows [])
