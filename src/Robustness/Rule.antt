-- ===== src/Robustness/Rule.antt =====
-- When src/investment_tracker/robustness_v2.py lets a candidate pass RB09.
use investment_tracker.Robustness.Selection.{Covered, select_nonoverlap_clusters-Covered}
use investment_tracker.Prelude.{
  ℕ, ◌+◌, ◌≤◌, String, ◌≡◌, ◌↔◌, sym, ◌∙◌, subst, true, Option, some, List, [], ◌∷◌, length, inl,
  inr, Bool-cases, Result-cases, arith, ok, and_then-ok_then, or_raise, ltb, All, In,
}
use investment_tracker.Selector.{index_from}
use investment_tracker.Backtest.{Decimals}
use investment_tracker.Backtest.Statistics.{median, median_or_none}
use investment_tracker.Robustness.{
  DependenceObservation, SameSessionCluster, Rb09Report, Rb09Status, passed, judge, excesses,
  select_from, sort_clusters, select_nonoverlap_clusters, build_same_session_clusters, clean_count,
  evaluate_rb09_v2, value_error,
}
use investment_tracker.Robustness.Counting.{clean_rows, build_same_session_clusters-clean}

module _ (D : Decimals) (sessions : List ℕ) where
  -- From session `from` on, and each at least twenty sessions after the one before.
  abbrev pub Spaced : ℕ → List (SameSessionCluster D.N) → Type 0
  Spaced from [] = Unit
  Spaced from (c ∷ rest) =
      (at : ℕ) × (index_from 0 sessions c.entry_date ≡ some at)
      × (from ≤ at)
      × Spaced (at + 20) rest

  select_from-Spaced :
      (from : ℕ) (clusters : List (SameSessionCluster D.N)) {chosen : List (SameSessionCluster D.N)}
      → select_from D sessions from clusters ≡ ok chosen
      → Spaced from chosen
  unfolding select_from
  select_from-Spaced from [] h = ground arith
  select_from-Spaced from (c ∷ clusters) {chosen} h =
      and_then-ok_then (or_raise value_error (index_from 0 sessions c.entry_date)) h
        λ at found rest. elim (Bool-cases (ltb at from)) [
          | inl early ↦ select_from-Spaced from clusters (ground arith)
          | inr late ↦ elim (Result-cases (select_from D sessions (at + 20) clusters)) [
            | inl (e, bad) ↦ absurd (ground arith)
            | inr (others, fine) ↦
                let later = select_from-Spaced (at + 20) clusters fine in
                let is : chosen ≡ c ∷ others = ground arith in
                subst (Spaced from) (sym is) (at, ground arith, ground arith, later)
          ]
        ]

  select_nonoverlap_clusters-Spaced :
      (clusters : List (SameSessionCluster D.N)) {chosen : List (SameSessionCluster D.N)}
      → select_nonoverlap_clusters D clusters sessions ≡ ok chosen
      → Spaced 0 chosen
  unfolding select_nonoverlap_clusters
  select_nonoverlap_clusters-Spaced clusters h =
      select_from-Spaced 0 (sort_clusters D clusters) (ground arith)

-- Twenty clusters or more, whose median is not negative.
abbrev pub Passes : (D : Decimals) → List (SameSessionCluster D.N) → Type 0
Passes D selected =
    (20 ≤ length selected)
    × (m : D.N) × (median D (excesses D selected) ≡ some m)
    × (D.le (D.ratio 0 1) m ≡ true)

module _ (D : Decimals) where
  judge_iff :
      (selected : List (SameSessionCluster D.N)) {status : Rb09Status} {middle : Option D.N}
      → judge D selected ≡ ok (status, middle)
      → (status ≡ passed) ↔ Passes D selected
  unfolding judge
  judge_iff [] h = (λ p. absurd (ground arith), λ p. absurd (omega (arith, p.0)))
  judge_iff (c ∷ selected) {status} {middle} h =
      and_then-ok_then (or_raise value_error (median D (excesses D (c ∷ selected)))) h
        λ m found rest. (
          λ p. (ground arith, m, ground arith, ground arith),
          λ (many, n, is, fine).
              let same : n ≡ m = ground arith in
              let good : D.le (D.ratio 0 1) m ≡ true =
                subst (λ (v : D.N). D.le (D.ratio 0 1) v ≡ true) same fine in
              ground arith,
        )

module _ (D : Decimals) where
  judge-median :
      (selected : List (SameSessionCluster D.N)) {status : Rb09Status} {middle : Option D.N}
      → judge D selected ≡ ok (status, middle)
      → middle ≡ median_or_none D (excesses D selected)
  unfolding judge
  judge-median [] h = ground arith
  judge-median (c ∷ selected) {status} {middle} h =
      and_then-ok_then (or_raise value_error (median D (excesses D (c ∷ selected)))) h
        λ m found rest. ground arith

-- A report counts every clean observation and the clusters that they form. It is on some of these
-- clusters: twenty sessions apart, and each other cluster enters less than twenty sessions after one
-- of them. It gives the median of their excess, and passes exactly if there are twenty of them or more
-- and that median is not negative.
pub evaluate_rb09_v2-reports :
    (D : Decimals) (strip_upper : String → String) (observations : List (DependenceObservation D.N))
    (sessions : List ℕ) {report : Rb09Report D.N}
    → evaluate_rb09_v2 D strip_upper observations sessions ≡ ok report
    → (report.clean_observation_count ≡ clean_rows D observations)
      × (clusters : List (SameSessionCluster D.N)) × (selected : List (SameSessionCluster D.N))
      × (build_same_session_clusters D strip_upper observations ≡ ok clusters)
      × (report.same_session_cluster_count ≡ length clusters)
      × (report.nonoverlap_cluster_count ≡ length selected)
      × All (λ (s : SameSessionCluster D.N). In s clusters) selected
      × All (Covered D sessions selected) clusters
      × Spaced D sessions 0 selected
      × (report.median_nonoverlap_excess_spy_20d ≡ median_or_none D (excesses D selected))
      × ((report.status ≡ passed) ↔ Passes D selected)
unfolding evaluate_rb09_v2
evaluate_rb09_v2-reports D strip_upper observations sessions {report} h =
    and_then-ok_then (build_same_session_clusters D strip_upper observations) h λ clusters built h1.
      and_then-ok_then (select_nonoverlap_clusters D clusters sessions) h1 λ selected chosen h2.
        and_then-ok_then (judge D selected) h2 λ verdict judged h3.
          let counted : report.clean_observation_count ≡ clean_count D clusters = ground arith in
          let clustered : report.same_session_cluster_count ≡ length clusters = ground arith in
          let size : report.nonoverlap_cluster_count ≡ length selected = ground arith in
          let middle : report.median_nonoverlap_excess_spy_20d ≡ verdict.1 = ground arith in
          let status : report.status ≡ verdict.0 = ground arith in
          let rule = judge_iff D selected {status = verdict.0} {middle = verdict.1} judged in
          let (members, covered) =
            select_nonoverlap_clusters-Covered D sessions clusters {chosen = selected} chosen in
          (
            counted ∙ build_same_session_clusters-clean D strip_upper observations built,
            clusters,
            selected,
            built,
            clustered,
            size,
            members,
            covered,
            select_nonoverlap_clusters-Spaced D sessions clusters chosen,
            middle ∙ judge-median D selected {status = verdict.0} {middle = verdict.1} judged,
            (λ p. rule.0 (sym status ∙ p), λ p. status ∙ rule.1 p),
          )
