-- ===== src/Robustness/Selection.antt =====
-- Which clusters `select_nonoverlap_clusters` of src/investment_tracker/robustness_v2.py leaves out.
use investment_tracker.Prelude.{
  ℕ, ◌+◌, ◌≤◌, ◌<◌, ◌≡◌, ◌↔◌, inl, inr, refl, sym, some, List, [], ◌∷◌, All, All-map, In,
  Bool-cases, Result-cases, arith, ok, and_then-ok_then, or_raise, ltb, leb, subst, ◌⊎◌,
}
use investment_tracker.Selector.{index_from}
use investment_tracker.Backtest.{Decimals}
use investment_tracker.Robustness.{
  SameSessionCluster, insert_cluster, sort_clusters, select_from, select_nonoverlap_clusters,
  value_error,
}

module _ (D : Decimals) where
  -- Sorting keeps what holds of all clusters.
  All-insert_cluster :
      (Q : SameSessionCluster D.N → Type 0) (a : SameSessionCluster D.N)
      (clusters : List (SameSessionCluster D.N))
      → All Q (insert_cluster D a clusters) ↔ (Q a × All Q clusters)
  unfolding insert_cluster
  All-insert_cluster Q a [] = (λ h. h, λ h. h)
  All-insert_cluster Q a (b ∷ clusters) = elim (Bool-cases (leb a.entry_date b.entry_date)) [
    | inl le ↦ rw le (λ h. h, λ h. h)
    | inr gt ↦
        let rest = All-insert_cluster Q a clusters in
        rw gt (λ h. ((rest.0 h.1).0, (h.0, (rest.0 h.1).1)), λ h. (h.1.0, rest.1 (h.0, h.1.1)))
  ]

  All-sort_clusters :
      (Q : SameSessionCluster D.N → Type 0) (clusters : List (SameSessionCluster D.N))
      → All Q (sort_clusters D clusters) ↔ All Q clusters
  unfolding sort_clusters
  All-sort_clusters Q [] = (λ h. h, λ h. h)
  All-sort_clusters Q (a ∷ clusters) =
      let here = All-insert_cluster Q a (sort_clusters D clusters) in
      let rest = All-sort_clusters Q clusters in
      (λ h. ((here.0 h).0, rest.0 (here.0 h).1), λ h. here.1 (h.0, rest.1 h.1))

  -- By the entry date.
  abbrev Chronological : List (SameSessionCluster D.N) → Type 0
  Chronological [] = Unit
  Chronological (a ∷ clusters) =
      All (λ (c : SameSessionCluster D.N). a.entry_date ≤ c.entry_date) clusters
      × Chronological clusters

  insert_cluster-Chronological :
      (a : SameSessionCluster D.N) (clusters : List (SameSessionCluster D.N))
      → Chronological clusters
      → Chronological (insert_cluster D a clusters)
  unfolding insert_cluster
  insert_cluster-Chronological a [] h = (tt, tt)
  insert_cluster-Chronological a (b ∷ clusters) h =
      elim (Bool-cases (leb a.entry_date b.entry_date)) [
        | inl le ↦
            let below : a.entry_date ≤ b.entry_date = ground arith in
            rw le (
              (
                below,
                All-map (λ (c : SameSessionCluster D.N). b.entry_date ≤ c.entry_date)
                    (λ (c : SameSessionCluster D.N). a.entry_date ≤ c.entry_date) clusters
                    (λ c k. omega (arith, below, k)) h.0,
              ),
              h,
            )
        | inr gt ↦ rw gt (
          (All-insert_cluster (λ c. b.entry_date ≤ c.entry_date) a clusters).1 (ground arith, h.0),
          insert_cluster-Chronological a clusters h.1,
        )
      ]

  sort_clusters-Chronological :
      (clusters : List (SameSessionCluster D.N)) → Chronological (sort_clusters D clusters)
  unfolding sort_clusters
  sort_clusters-Chronological [] = tt
  sort_clusters-Chronological (a ∷ clusters) =
      insert_cluster-Chronological a (sort_clusters D clusters)
        (sort_clusters-Chronological clusters)

  module _ (sessions : List ℕ) where
    -- `c` does not enter before `s`, and enters less than twenty sessions after it.
    abbrev pub Near : SameSessionCluster D.N → SameSessionCluster D.N → Type 0
    Near s c =
        (s.entry_date ≤ c.entry_date)
        × (p : ℕ) × (q : ℕ) × (index_from 0 sessions s.entry_date ≡ some p)
        × (index_from 0 sessions c.entry_date ≡ some q)
        × (q < p + 20)

    -- The cluster is among the chosen ones, or near one of them.
    abbrev pub Covered : List (SameSessionCluster D.N) → SameSessionCluster D.N → Type 0
    Covered chosen c = In c chosen ⊎ ((s : SameSessionCluster D.N) × In s chosen × Near s c)

    Covered-more :
        (s : SameSessionCluster D.N) (chosen : List (SameSessionCluster D.N))
        (c : SameSessionCluster D.N)
        → Covered chosen c
        → Covered (s ∷ chosen) c
    Covered-more s chosen c h = elim h [
      | inl m ↦ inl (inr m)
      | inr (t, m, near) ↦ inr (t, inr m, near)
    ]

    -- After the choice of `s`.
    select_from-Covered :
        (s : SameSessionCluster D.N) (p : ℕ) (clusters : List (SameSessionCluster D.N))
        {chosen : List (SameSessionCluster D.N)}
        → index_from 0 sessions s.entry_date ≡ some p
        → All (λ (c : SameSessionCluster D.N). s.entry_date ≤ c.entry_date) clusters
        → Chronological clusters
        → select_from D sessions (p + 20) clusters ≡ ok chosen
        → All (Covered (s ∷ chosen)) clusters
    unfolding select_from
    select_from-Covered s p [] at after order h = tt
    select_from-Covered s p (c ∷ clusters) {chosen} at after order h =
        and_then-ok_then (or_raise value_error (index_from 0 sessions c.entry_date)) h
          λ q found rest. elim (Bool-cases (ltb q (p + 20))) [
            | inl early ↦ (
              inr (s, inl refl, (after.0, p, q, at, ground arith, ground arith)),
              select_from-Covered s p clusters {chosen = chosen} at after.1 order.1 (ground arith),
            )
            | inr late ↦ elim (Result-cases (select_from D sessions (q + 20) clusters)) [
              | inl (e, bad) ↦ absurd (ground arith)
              | inr (others, fine) ↦
                  let is : chosen ≡ c ∷ others = ground arith in
                  let later =
                    select_from-Covered c q clusters {chosen = others} (ground arith) order.0
                      order.1 fine in
                  subst
                    (λ (ch : List (SameSessionCluster D.N)). All (Covered (s ∷ ch)) (c ∷ clusters))
                    (sym is)
                    (
                      inl (inr (inl refl)),
                      All-map (Covered (c ∷ others)) (Covered (s ∷ c ∷ others)) clusters
                          (λ x k. Covered-more s (c ∷ others) x k) later,
                    )
            ]
          ]

    select_first-Covered :
        (clusters : List (SameSessionCluster D.N)) {chosen : List (SameSessionCluster D.N)}
        → Chronological clusters
        → select_from D sessions 0 clusters ≡ ok chosen
        → All (Covered chosen) clusters
    unfolding select_from
    select_first-Covered [] order h = tt
    select_first-Covered (c ∷ clusters) {chosen} order h =
        and_then-ok_then (or_raise value_error (index_from 0 sessions c.entry_date)) h
          λ q found rest. elim (Result-cases (select_from D sessions (q + 20) clusters)) [
            | inl (e, bad) ↦ absurd (ground arith)
            | inr (others, fine) ↦
                let is : chosen ≡ c ∷ others = ground arith in
                subst (λ (ch : List (SameSessionCluster D.N)). All (Covered ch) (c ∷ clusters))
                  (sym is)
                  (
                    inl (inl refl),
                    select_from-Covered c q clusters {chosen = others} (ground arith) order.0
                        order.1 fine,
                  )
          ]

    -- What is chosen has what all clusters have.
    select_from-All :
        (Q : SameSessionCluster D.N → Type 0) (from : ℕ) (clusters : List (SameSessionCluster D.N))
        {chosen : List (SameSessionCluster D.N)}
        → All Q clusters
        → select_from D sessions from clusters ≡ ok chosen
        → All Q chosen
    unfolding select_from
    select_from-All Q from [] {chosen} all h = let is : chosen ≡ [] = ground arith in rw is tt
    select_from-All Q from (c ∷ clusters) {chosen} all h =
        and_then-ok_then (or_raise value_error (index_from 0 sessions c.entry_date)) h
          λ q found rest. elim (Bool-cases (ltb q from)) [
            | inl early ↦ select_from-All Q from clusters all.1 (ground arith)
            | inr late ↦ elim (Result-cases (select_from D sessions (q + 20) clusters)) [
              | inl (e, bad) ↦ absurd (ground arith)
              | inr (others, fine) ↦
                  let is : chosen ≡ c ∷ others = ground arith in
                  rw is (all.0, select_from-All Q (q + 20) clusters all.1 fine)
            ]
          ]

    In-All : (clusters : List (SameSessionCluster D.N)) → All (λ c. In c clusters) clusters
    In-All [] = tt
    In-All (c ∷ clusters) = (
      inl refl,
      All-map (λ x. In x clusters) (λ x. In x (c ∷ clusters)) clusters (λ x k. inr k)
          (In-All clusters),
    )

    -- The chosen clusters are among the given ones, and each given one is chosen or near a chosen one.
    pub select_nonoverlap_clusters-Covered :
        (clusters : List (SameSessionCluster D.N)) {chosen : List (SameSessionCluster D.N)}
        → select_nonoverlap_clusters D clusters sessions ≡ ok chosen
        → All (λ (s : SameSessionCluster D.N). In s clusters) chosen × All (Covered chosen) clusters
    unfolding select_nonoverlap_clusters
    select_nonoverlap_clusters-Covered clusters {chosen} h =
        let sorted = sort_clusters D clusters in
        let run : select_from D sessions 0 sorted ≡ ok chosen = ground arith in
        (
          select_from-All (λ s. In s clusters) 0 sorted
              ((All-sort_clusters (λ s. In s clusters) clusters).1 (In-All clusters)) run,
          (All-sort_clusters (Covered chosen) clusters).0
              (select_first-Covered sorted (sort_clusters-Chronological clusters) run),
        )
