-- ===== src/Robustness.antt =====
-- src/investment_tracker/robustness_v2.py: the dependence rule RB09 of ROBUST-v2.0. Finite Decimals and a
-- text's `strip` with `upper` are parameters, as in the backtest, whose median is the same.
pub mod Counting
pub mod Selection
pub mod Rule
mod Examples
use Prim.Native.Nat.{Ordering}
use Prim.Native.String.{compare as str_compare}
use investment_tracker.Prelude.{
  ℕ, ◌+◌, Bool, true, false, not, String, Option, none, some, List, [], ◌∷◌, ◌++◌, map, length, ltb,
  leb, if◌then◌else◌, str_eq, Result, ok, err, and_then, or_raise,
}
use investment_tracker.Dict.{Dict, get, put}
use investment_tracker.Governance.{assert_symbol_allowed}
use investment_tracker.Selector.{is_increasing, index_from, by_day, rows_of, day_key}
use investment_tracker.Backtest.{Decimals}
use investment_tracker.Backtest.Statistics.{median}

pub data Rb09Status : Type 0 where
  passed failed inconclusive : Rb09Status

pub data RobustnessError : Type 0 where
  symbol_refused value_error : RobustnessError

pub record DependenceObservation (N : Type 0) : Type 0 where
  pub episode_id : String
  pub asset : String
  pub entry_date : ℕ
  pub excess_spy_20d : N
  pub dq_status : String

pub record SameSessionCluster (N : Type 0) : Type 0 where
  pub entry_date : ℕ
  pub assets : List String
  pub episode_ids : List String
  pub representative_excess_spy_20d : N

pub record Rb09Report (N : Type 0) : Type 0 where
  pub status : Rb09Status
  pub clean_observation_count : ℕ
  pub same_session_cluster_count : ℕ
  pub nonoverlap_cluster_count : ℕ
  pub median_nonoverlap_excess_spy_20d : Option N

module _ (D : Decimals) where
  -- `(r.asset, r.episode_id)` in order
  abbrev pub row_le : DependenceObservation D.N → DependenceObservation D.N → Bool
  row_le a b = elim (str_compare a.asset b.asset) [
    | Ordering.lt ↦ true
    | Ordering.gt ↦ false
    | Ordering.eq ↦ elim (str_compare a.episode_id b.episode_id) [ Ordering.gt ↦ false | _ ↦ true ]
  ]

  pub insert_row :
      DependenceObservation D.N
      → List (DependenceObservation D.N)
      → List (DependenceObservation D.N)
  insert_row a [] = a ∷ []
  insert_row a (b ∷ rows) = if row_le a b then a ∷ b ∷ rows else b ∷ insert_row a rows

  unfoldable pub sort_rows : List (DependenceObservation D.N) → List (DependenceObservation D.N)
  unfolding insert_row
  sort_rows [] = []
  sort_rows (a ∷ rows) = insert_row a (sort_rows rows)

  unfoldable pub cluster_of :
      ℕ → List (DependenceObservation D.N) → Result RobustnessError (SameSessionCluster D.N)
  unfolding median
  cluster_of entry_date rows =
      and_then
        (or_raise value_error
          (median D (map (λ (r : DependenceObservation D.N). r.excess_spy_20d) rows)))
        λ middle. ok (record {
          entry_date = entry_date;
          assets = map (λ (r : DependenceObservation D.N). r.asset) rows;
          episode_ids = map (λ (r : DependenceObservation D.N). r.episode_id) rows;
          representative_excess_spy_20d = middle;
        })

  unfoldable pub clusters_of :
      Dict ℕ (List (DependenceObservation D.N))
      → Result RobustnessError (List (SameSessionCluster D.N))
  unfolding cluster_of sort_rows
  clusters_of [] = ok []
  clusters_of ((day, rows) ∷ groups) =
      and_then (cluster_of day (sort_rows rows))
        λ cluster. and_then (clusters_of groups) λ rest. ok (cluster ∷ rest)

  -- Stable, by the entry date.
  pub insert_cluster :
      SameSessionCluster D.N → List (SameSessionCluster D.N) → List (SameSessionCluster D.N)
  insert_cluster a [] = a ∷ []
  insert_cluster a (b ∷ clusters) =
      if leb a.entry_date b.entry_date then a ∷ b ∷ clusters else b ∷ insert_cluster a clusters

  unfoldable pub sort_clusters : List (SameSessionCluster D.N) → List (SameSessionCluster D.N)
  unfolding insert_cluster
  sort_clusters [] = []
  sort_clusters (a ∷ clusters) = insert_cluster a (sort_clusters clusters)

  -- The selecting loop, from `next_allowed`.
  unfoldable pub select_from :
      List ℕ
      → ℕ
      → List (SameSessionCluster D.N)
      → Result RobustnessError (List (SameSessionCluster D.N))
  unfolding index_from
  select_from sessions next_allowed [] = ok []
  select_from sessions next_allowed (cluster ∷ clusters) =
      and_then (or_raise value_error (index_from 0 sessions cluster.entry_date)) λ position.
        elim (ltb position next_allowed) [
          | true ↦ select_from sessions next_allowed clusters
          | false ↦
              and_then (select_from sessions (position + 20) clusters) λ rest. ok (cluster ∷ rest)
        ]

  unfoldable pub select_nonoverlap_clusters :
      List (SameSessionCluster D.N)
      → List ℕ
      → Result RobustnessError (List (SameSessionCluster D.N))
  unfolding is_increasing sort_clusters select_from
  select_nonoverlap_clusters clusters sessions =
      if not (is_increasing sessions)
      then err value_error
      else select_from sessions 0 (sort_clusters clusters)

  -- `sum(len(cluster.episode_ids) for cluster in clusters)`
  abbrev pub clean_count : List (SameSessionCluster D.N) → ℕ
  clean_count [] = 0
  clean_count (c ∷ clusters) = length c.episode_ids + clean_count clusters

  abbrev pub excesses : List (SameSessionCluster D.N) → List D.N
  excesses clusters = map (λ (c : SameSessionCluster D.N). c.representative_excess_spy_20d) clusters

  -- Status and median of the selected clusters.
  unfoldable pub judge :
      List (SameSessionCluster D.N) → Result RobustnessError (Rb09Status × Option D.N)
  unfolding median
  judge [] = ok (inconclusive, none)
  judge (c ∷ selected) =
      and_then (or_raise value_error (median D (excesses (c ∷ selected)))) λ middle.
        if ltb (length (c ∷ selected)) 20
        then ok (inconclusive, some middle)
        else if D.le (D.ratio 0 1) middle
        then ok (passed, some middle)
        else ok (failed, some middle)

  module _ (strip_upper : String → String) where
    unfoldable pub group_rows :
        List (DependenceObservation D.N)
        → Dict ℕ (List (DependenceObservation D.N))
        → Result RobustnessError (Dict ℕ (List (DependenceObservation D.N)))
    group_rows [] grouped = ok grouped
    group_rows (row ∷ rows) grouped = elim (assert_symbol_allowed strip_upper row.asset) [
      | err e ↦ err symbol_refused
      | ok asset ↦ elim (str_eq row.episode_id "") [
        | true ↦ err value_error
        | false ↦ elim (str_eq row.dq_status "CLEAN") [
          | false ↦ group_rows rows grouped
          | true ↦ group_rows rows (
              put grouped row.entry_date
                (rows_of (get grouped row.entry_date) ++ (record row { asset = asset } ∷ [])))
        ]
      ]
    ]

    unfoldable pub build_same_session_clusters :
        List (DependenceObservation D.N) → Result RobustnessError (List (SameSessionCluster D.N))
    unfolding group_rows by_day clusters_of
    build_same_session_clusters observations =
        and_then (group_rows observations []) λ grouped. clusters_of (by_day grouped)

    unfoldable pub evaluate_rb09_v2 :
        List (DependenceObservation D.N) → List ℕ → Result RobustnessError (Rb09Report D.N)
    unfolding build_same_session_clusters select_nonoverlap_clusters judge
    evaluate_rb09_v2 observations sessions =
        and_then (build_same_session_clusters observations) λ clusters.
          and_then (select_nonoverlap_clusters clusters sessions) λ selected.
            and_then (judge selected) λ verdict. ok (record {
              status = verdict.0;
              clean_observation_count = clean_count clusters;
              same_session_cluster_count = length clusters;
              nonoverlap_cluster_count = length selected;
              median_nonoverlap_excess_spy_20d = verdict.1;
            })
