-- ===== src/Robustness/Counting.antt =====
-- That the clustering in src/investment_tracker/robustness_v2.py loses no observation.
use investment_tracker.Prelude.{
  ℕ, suc, ◌+◌, String, ◌≡◌, refl, sym, ap, ◌∙◌, List, [], ◌∷◌, ◌++◌, map, length, length-append,
  inl, inr, Bool-cases, Result-cases, arith, ok, and_then-ok_then, or_raise, str_eq, ◌==◌,
  if◌then◌else◌,
}
use investment_tracker.Dict.{Dict, get, put}
use investment_tracker.Governance.{assert_symbol_allowed}
use investment_tracker.Selector.{by_day, insert_day, rows_of, day_key}
use investment_tracker.Backtest.{Decimals}
use investment_tracker.Backtest.Statistics.{median}
use investment_tracker.Robustness.{
  DependenceObservation, SameSessionCluster, insert_row, sort_rows, cluster_of, clusters_of,
  clean_count, group_rows, build_same_session_clusters, value_error,
}

-- How many rows the groups hold.
abbrev total : {A : Type 0} → Dict ℕ (List A) → ℕ
total [] = 0
total ((day, rows) ∷ groups) = length rows + total groups

total-put :
    {A : Type 0} (groups : Dict ℕ (List A)) (day : ℕ) (row : A)
    → total (put groups day (rows_of (get groups day) ++ row ∷ [])) ≡ total groups + 1
unfolding get put
total-put [] day row = refl
total-put ((d, rows) ∷ groups) day row = elim (Bool-cases (d == day)) [
  | inl here ↦ let longer = length-append rows (row ∷ []) in ground arith
  | inr away ↦ let rest = total-put groups day row in ground arith
]

total-insert_day :
    {A : Type 0} (day : ℕ) (rows : List A) (groups : Dict ℕ (List A))
    → total (insert_day day rows groups) ≡ length rows + total groups
unfolding insert_day
total-insert_day day rows [] = refl
total-insert_day day rows ((d, r) ∷ groups) =
    let rest = total-insert_day day rows groups in ground arith

total-by_day : {A : Type 0} (groups : Dict ℕ (List A)) → total (by_day groups) ≡ total groups
unfolding by_day
total-by_day [] = refl
total-by_day ((day, rows) ∷ groups) =
    omega (arith, total-insert_day day rows (by_day groups), total-by_day groups)

length-map_rows : {A B : Type 0} (f : A → B) (xs : List A) → length (map f xs) ≡ length xs
length-map_rows f [] = refl
length-map_rows f (x ∷ xs) = omega (arith, length-map_rows f xs)

module _ (D : Decimals) where
  length-insert_row :
      (a : DependenceObservation D.N) (rows : List (DependenceObservation D.N))
      → length (insert_row D a rows) ≡ suc (length rows)
  unfolding insert_row
  length-insert_row a [] = refl
  length-insert_row a (b ∷ rows) = let rest = length-insert_row a rows in ground arith

  length-sort_rows :
      (rows : List (DependenceObservation D.N)) → length (sort_rows D rows) ≡ length rows
  unfolding sort_rows
  length-sort_rows [] = refl
  length-sort_rows (a ∷ rows) =
      omega (arith, length-insert_row a (sort_rows D rows), length-sort_rows rows)

  length-cluster_of :
      (day : ℕ) (rows : List (DependenceObservation D.N)) {c : SameSessionCluster D.N}
      → cluster_of D day rows ≡ ok c
      → length c.episode_ids ≡ length rows
  unfolding cluster_of
  length-cluster_of day rows {c} h =
      and_then-ok_then
        (or_raise value_error
          (median D (map (λ (r : DependenceObservation D.N). r.excess_spy_20d) rows)))
        h
        λ middle _ is.
          let ids : map (λ (r : DependenceObservation D.N). r.episode_id) rows ≡ c.episode_ids =
            ground arith in
          ap length (sym ids)
          ∙ length-map_rows (λ (r : DependenceObservation D.N). r.episode_id) rows

  clean_count-clusters_of :
      (groups : Dict ℕ (List (DependenceObservation D.N)))
      {clusters : List (SameSessionCluster D.N)}
      → clusters_of D groups ≡ ok clusters
      → clean_count D clusters ≡ total groups
  unfolding clusters_of cluster_of
  clean_count-clusters_of [] h = ground arith
  clean_count-clusters_of ((day, rows) ∷ groups) {clusters} h =
      and_then-ok_then (cluster_of D day (sort_rows D rows)) h λ c made h1.
        and_then-ok_then (clusters_of D groups) h1 λ rest others h2.
          let is : clusters ≡ c ∷ rest = ground arith in
          let here = length-cluster_of day (sort_rows D rows) made in
          let sorted = length-sort_rows rows in
          let there = clean_count-clusters_of groups others in
          ap (clean_count D) is ∙ omega (arith, here, sorted, there)

  -- The clean rows.
  unfoldable pub clean_rows : List (DependenceObservation D.N) → ℕ
  clean_rows [] = 0
  clean_rows (row ∷ rows) =
      if str_eq row.dq_status "CLEAN" then 1 + clean_rows rows else clean_rows rows

  total-group_rows :
      (strip_upper : String → String) (rows : List (DependenceObservation D.N))
      (groups : Dict ℕ (List (DependenceObservation D.N)))
      {grouped : Dict ℕ (List (DependenceObservation D.N))}
      → group_rows D strip_upper rows groups ≡ ok grouped
      → total grouped ≡ total groups + clean_rows rows
  unfolding group_rows clean_rows
  total-group_rows strip_upper [] groups h = ground arith
  total-group_rows strip_upper (row ∷ rows) groups {grouped} h =
      elim (Result-cases (assert_symbol_allowed strip_upper row.asset)) [
        | inl (e, bad) ↦ absurd (ground arith)
        | inr (asset, fine) ↦ elim (Bool-cases (str_eq row.episode_id "")) [
          | inl blank ↦ absurd (ground arith)
          | inr named ↦ elim (Bool-cases (str_eq row.dq_status "CLEAN")) [
            | inl clean ↦
                let kept : DependenceObservation D.N = record row { asset = asset } in
                let rest =
                  total-group_rows strip_upper rows
                    (put groups row.entry_date (rows_of (get groups row.entry_date) ++ kept ∷ []))
                    {grouped = grouped} (ground arith) in
                let more = total-put groups row.entry_date kept in ground arith
            | inr dirty ↦
                let rest =
                  total-group_rows strip_upper rows groups {grouped = grouped} (ground arith) in
                ground arith
          ]
        ]
      ]

  -- The clusters hold as many episodes as there are clean observations.
  pub build_same_session_clusters-clean :
      (strip_upper : String → String) (observations : List (DependenceObservation D.N))
      {clusters : List (SameSessionCluster D.N)}
      → build_same_session_clusters D strip_upper observations ≡ ok clusters
      → clean_count D clusters ≡ clean_rows observations
  unfolding build_same_session_clusters
  build_same_session_clusters-clean strip_upper observations h =
      and_then-ok_then (group_rows D strip_upper observations []) h λ grouped made clustered.
        omega (
          arith,
          clean_count-clusters_of (by_day grouped) clustered,
          total-by_day grouped,
          total-group_rows strip_upper observations [] made,
        )
