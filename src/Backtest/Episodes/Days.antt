-- ===== src/Backtest/Episodes/Days.antt =====
-- The clusters by day of src/investment_tracker/backtest_v1.py: every day is there, in order.
use investment_tracker.Prelude.{
  ℕ, ◌≤◌, ◌≡◌, ◌⊎◌, inl, inr, refl, List, [], ◌∷◌, All, In, arith, ltb, Bool-cases, ok, or_raise,
  and_then-ok_then, ◌==◌, ==_iff,
}
use investment_tracker.Dict.{Dict, put}
use investment_tracker.Selector.{insert_day, by_day, day_key}
use investment_tracker.Backtest.{Decimals, IndependentCluster, EpisodeObservation, value_error}
use investment_tracker.Backtest.Episodes.{
  by_entry, sort_episodes, cluster_drawdown, first_episode, median_of, net_excess_spy,
  net_excess_cash, stressed, cluster_of, clustered,
}

-- The day is a key of the groups.
abbrev pub HasDay : {A : Type 0} → ℕ → Dict ℕ A → Type 0
HasDay day [] = ⊥
HasDay day ((d, rows) ∷ groups) = (day ≡ d) ⊎ HasDay day groups

-- No day of the groups is before `from`.
abbrev From : {A : Type 0} → ℕ → Dict ℕ A → Type 0
From from [] = Unit
From from ((d, rows) ∷ groups) = (from ≤ d) × From from groups

abbrev pub Ordered : {A : Type 0} → Dict ℕ A → Type 0
Ordered [] = Unit
Ordered ((d, rows) ∷ groups) = From d groups × Ordered groups

module _ {A : Type 0} where
  HasDay-put :
      (groups : Dict ℕ A) (day k : ℕ) (v : A)
      → ((day ≡ k) ⊎ HasDay day groups)
      → HasDay day (put groups k v)
  unfolding put
  HasDay-put [] day k v h = h
  HasDay-put ((d, w) ∷ groups) day k v h = elim (Bool-cases (d == k)) [
    | inl here ↦
        let same : d ≡ k = (==_iff d k).0 here in
        rw here (elim h [ inl e ↦ inl (cc) | inr m ↦ elim m [ inl e ↦ inl (cc) | inr n ↦ inr n ] ])
    | inr away ↦ rw away (elim h [
      | inl e ↦ inr (HasDay-put groups day k v (inl e))
      | inr m ↦ elim m [ inl e ↦ inl e | inr n ↦ inr (HasDay-put groups day k v (inr n)) ]
    ])
  ]

  HasDay-insert_day :
      (groups : Dict ℕ A) (day k : ℕ) (v : A)
      → ((day ≡ k) ⊎ HasDay day groups)
      → HasDay day (insert_day k v groups)
  unfolding insert_day
  HasDay-insert_day [] day k v h = h
  HasDay-insert_day ((d, w) ∷ groups) day k v h = elim (Bool-cases (ltb d k)) [
    | inl below ↦ rw below (elim h [
      | inl e ↦ inr (HasDay-insert_day groups day k v (inl e))
      | inr m ↦ elim m [ inl e ↦ inl e | inr n ↦ inr (HasDay-insert_day groups day k v (inr n)) ]
    ])
    | inr other ↦ rw other h
  ]

  pub HasDay-by_day : (groups : Dict ℕ A) (day : ℕ) → HasDay day groups → HasDay day (by_day groups)
  unfolding by_day
  HasDay-by_day [] day h = h
  HasDay-by_day ((d, w) ∷ groups) day h =
      HasDay-insert_day (by_day groups) day d w
        (elim h [ inl e ↦ inl e | inr m ↦ inr (HasDay-by_day groups day m) ])

  From-insert_day :
      (groups : Dict ℕ A) (from k : ℕ) (v : A)
      → from ≤ k
      → From from groups
      → From from (insert_day k v groups)
  unfolding insert_day
  From-insert_day [] from k v le h = (le, tt)
  From-insert_day ((d, w) ∷ groups) from k v le h = elim (Bool-cases (ltb d k)) [
    | inl below ↦ rw below (h.0, From-insert_day groups from k v le h.1)
    | inr other ↦ rw other (le, h)
  ]

  From-lower : (groups : Dict ℕ A) (low from : ℕ) → low ≤ from → From from groups → From low groups
  From-lower [] low from le h = tt
  From-lower ((d, w) ∷ groups) low from le h =
      (omega (arith, le, h.0), From-lower groups low from le h.1)

  insert_day-Ordered :
      (groups : Dict ℕ A) (k : ℕ) (v : A) → Ordered groups → Ordered (insert_day k v groups)
  unfolding insert_day
  insert_day-Ordered [] k v h = (tt, tt)
  insert_day-Ordered ((d, w) ∷ groups) k v h = elim (Bool-cases (ltb d k)) [
    | inl below ↦
        rw below
          (From-insert_day groups d k v (ground arith) h.0, insert_day-Ordered groups k v h.1)
    | inr other ↦ let le : k ≤ d = ground arith in rw other ((le, From-lower groups k d le h.0), h)
  ]

  pub by_day-Ordered : (groups : Dict ℕ A) → Ordered (by_day groups)
  unfolding by_day
  by_day-Ordered [] = tt
  by_day-Ordered ((d, w) ∷ groups) = insert_day-Ordered (by_day groups) d w (by_day-Ordered groups)

module _ (D : Decimals) where
  HasDay-by_entry :
      (rows : List (EpisodeObservation D.N)) (groups : Dict ℕ (List (EpisodeObservation D.N)))
      (day : ℕ)
      → HasDay day groups
      → HasDay day (by_entry D rows groups)
  unfolding by_entry
  HasDay-by_entry [] groups day h = h
  HasDay-by_entry (row ∷ rows) groups day h =
      HasDay-by_entry rows _ day (HasDay-put groups day row.entry_date _ (inr h))

  pub by_entry-HasDay :
      (rows : List (EpisodeObservation D.N)) (groups : Dict ℕ (List (EpisodeObservation D.N)))
      → All (λ (row : EpisodeObservation D.N). HasDay row.entry_date (by_entry D rows groups)) rows
  unfolding by_entry
  by_entry-HasDay [] groups = tt
  by_entry-HasDay (row ∷ rows) groups = (
    HasDay-by_entry rows _ row.entry_date
        (HasDay-put groups row.entry_date row.entry_date _ (inl refl)),
    by_entry-HasDay rows _,
  )

  cluster_of-entry_date :
      (day : ℕ) (items : List (EpisodeObservation D.N)) {k : IndependentCluster D.N}
      → cluster_of D day items ≡ ok k
      → k.entry_date ≡ day
  unfolding cluster_of
  cluster_of-entry_date day items h =
      and_then-ok_then (or_raise value_error (cluster_drawdown D items)) h λ low _ h1.
        and_then-ok_then (first_episode D items) h1 λ first _ h2.
          and_then-ok_then (median_of D (net_excess_spy D) items) h2 λ spy _ h3.
            and_then-ok_then (median_of D (net_excess_cash D) items) h3 λ cash _ h4.
              and_then-ok_then (median_of D (λ row. D.minus (stressed D row) row.spy_return) items)
                h4
                λ stress_spy _ h5.
                  and_then-ok_then
                    (median_of D (λ row. D.minus (stressed D row) row.cash_return) items) h5
                    λ stress_cash _ h6. ground arith

  -- A cluster of the day.
  abbrev pub Entered : ℕ → List (IndependentCluster D.N) → Type 0
  Entered day clusters = (k : IndependentCluster D.N) × In k clusters × (k.entry_date ≡ day)

  pub clustered-Entered :
      (groups : Dict ℕ (List (EpisodeObservation D.N))) {built : List (IndependentCluster D.N)}
      (day : ℕ)
      → clustered D groups ≡ ok built
      → HasDay day groups
      → Entered day built
  unfolding clustered
  clustered-Entered [] day h m = absurd m
  clustered-Entered ((d, rows) ∷ groups) {built} day h m =
      and_then-ok_then (cluster_of D d (sort_episodes D rows)) h λ k one h1.
        and_then-ok_then (clustered D groups) h1 λ rest others h2.
          let is : built ≡ k ∷ rest = ground arith in
          let dated = cluster_of-entry_date d (sort_episodes D rows) {k = k} one in
          rw is (elim m [
            | inl e ↦ (k, inl refl, cc)
            | inr n ↦
                let (j, member, at) = clustered-Entered groups {built = rest} day others n in
                (j, inr member, at)
          ])

  clustered-From :
      (groups : Dict ℕ (List (EpisodeObservation D.N))) {built : List (IndependentCluster D.N)}
      (from : ℕ)
      → clustered D groups ≡ ok built
      → From from groups
      → All (λ (k : IndependentCluster D.N). from ≤ k.entry_date) built
  unfolding clustered
  clustered-From [] {built} from h after = let is : built ≡ [] = ground arith in rw is tt
  clustered-From ((d, rows) ∷ groups) {built} from h after =
      and_then-ok_then (cluster_of D d (sort_episodes D rows)) h λ k one h1.
        and_then-ok_then (clustered D groups) h1 λ rest others h2.
          let is : built ≡ k ∷ rest = ground arith in
          let dated = cluster_of-entry_date d (sort_episodes D rows) {k = k} one in
          rw is (
            omega (arith, after.0, dated),
            clustered-From groups {built = rest} from others after.1,
          )

  abbrev pub Chronological : List (IndependentCluster D.N) → Type 0
  Chronological [] = Unit
  Chronological (k ∷ clusters) =
      All (λ (c : IndependentCluster D.N). k.entry_date ≤ c.entry_date) clusters
      × Chronological clusters

  pub clustered-Chronological :
      (groups : Dict ℕ (List (EpisodeObservation D.N))) {built : List (IndependentCluster D.N)}
      → clustered D groups ≡ ok built
      → Ordered groups
      → Chronological built
  unfolding clustered
  clustered-Chronological [] {built} h order = let is : built ≡ [] = ground arith in rw is tt
  clustered-Chronological ((d, rows) ∷ groups) {built} h order =
      and_then-ok_then (cluster_of D d (sort_episodes D rows)) h λ k one h1.
        and_then-ok_then (clustered D groups) h1 λ rest others h2.
          let is : built ≡ k ∷ rest = ground arith in
          let dated = cluster_of-entry_date d (sort_episodes D rows) {k = k} one in
          rw is (
            clustered-From groups {built = rest} k.entry_date others (rw dated order.0),
            clustered-Chronological groups {built = rest} others order.1,
          )
