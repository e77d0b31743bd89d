-- ===== src/Backtest/Episodes.antt =====
-- The episodes of src/investment_tracker/backtest_v1.py: the timing of an observation, the independent
-- clusters, and the results of the folds. An index is the place of a day in the calendar.
pub mod Timing
pub mod Spacing
pub mod Days
pub mod Covering
use Prim.Native.Nat.{Ordering}
use Prim.Native.String.{compare as str_compare}
use investment_tracker.Prelude.{
  ℕ, ◌+◌, ◌-◌, Bool, true, false, not, ◌&&◌, String, Option, none, some, List, [], ◌∷◌, ◌++◌, map,
  length, ltb, leb, ◌==◌, if◌then◌else◌, str_eq, Result, ok, err, and_then, or_raise,
}
use investment_tracker.Dict.{Dict, get, put}
use investment_tracker.Selector.{index_from, by_day, rows_of, day_key}
use investment_tracker.Backtest.{
  Decimals, BacktestError, value_error, index_error, key_error, ValidationFold, EpisodeObservation,
  IndependentCluster, FoldResult,
}
use investment_tracker.Backtest.Statistics.{median, median_or_none}

-- The texts that `_timing_error` returns.
pub data TimingError : Type 0 where
  date_missing signal_outside entry_outside horizon_outside entry_not_next horizon_exceeds
        horizon_mismatch drawdown_outside :
      TimingError

abbrev pub inside : ValidationFold → ℕ → Bool
inside fold day = leb fold.start_date day && leb day fold.end_date

module _ (D : Decimals) where
  -- `max_drawdown is not None and not (Decimal("-1") <= max_drawdown <= 0)`
  abbrev pub bad_drawdown : Option D.N → Bool
  bad_drawdown none = false
  bad_drawdown (some d) = not (D.le (D.negate (D.ratio 1 1)) d && D.le d (D.ratio 0 1))

  -- What is checked of the sessions, once all three days are found; `horizon_td` is not 0 here.
  abbrev pub session_error :
      EpisodeObservation D.N → ValidationFold → ℕ → ℕ → ℕ → ℕ → Option TimingError
  session_error row fold sessions signal entry horizon =
      if not (inside fold row.signal_date)
      then some signal_outside
      else if not (inside fold row.entry_date)
      then some entry_outside
      else if not (inside fold row.horizon_close_date)
      then some horizon_outside
      else if not (entry == (signal + 1))
      then some entry_not_next
      else if leb sessions (entry + row.horizon_td - 1)
      then some horizon_exceeds
      else if not (horizon == (entry + row.horizon_td - 1))
      then some horizon_mismatch
      else if bad_drawdown row.max_drawdown
      then some drawdown_outside
      else none

  unfoldable pub timing_error :
      EpisodeObservation D.N → ValidationFold → List ℕ → Option TimingError
  unfolding index_from
  timing_error row fold sessions = elim (index_from 0 sessions row.signal_date) [
    | none ↦ some date_missing
    | some signal ↦ elim (index_from 0 sessions row.entry_date) [
      | none ↦ some date_missing
      | some entry ↦ elim (index_from 0 sessions row.horizon_close_date) [
        | none ↦ some date_missing
        | some horizon ↦ session_error row fold (length sessions) signal entry horizon
      ]
    ]
  ]

  abbrev pub net_excess_spy : EpisodeObservation D.N → D.N
  net_excess_spy row = D.minus row.return_net row.spy_return

  abbrev pub net_excess_cash : EpisodeObservation D.N → D.N
  net_excess_cash row = D.minus row.return_net row.cash_return

  -- `row.gross_return - Decimal(50) / Decimal(10000)`
  abbrev pub stressed : EpisodeObservation D.N → D.N
  stressed row = D.minus row.gross_return (D.ratio 50 10000)

  -- `by_date`, in the order of the rows
  unfoldable pub by_entry :
      List (EpisodeObservation D.N)
      → Dict ℕ (List (EpisodeObservation D.N))
      → Dict ℕ (List (EpisodeObservation D.N))
  by_entry [] groups = groups
  by_entry (row ∷ rows) groups =
      by_entry rows (put groups row.entry_date (rows_of (get groups row.entry_date) ++ row ∷ []))

  -- `(row.asset, row.episode_id)` in order
  abbrev pub row_le : EpisodeObservation D.N → EpisodeObservation D.N → Bool
  row_le a b = elim (str_compare a.asset b.asset) [
    | Ordering.lt ↦ true
    | Ordering.gt ↦ false
    | Ordering.eq ↦ elim (str_compare a.episode_id b.episode_id) [ Ordering.gt ↦ false | _ ↦ true ]
  ]

  insert_episode :
      EpisodeObservation D.N → List (EpisodeObservation D.N) → List (EpisodeObservation D.N)
  insert_episode a [] = a ∷ []
  insert_episode a (b ∷ rows) = if row_le a b then a ∷ b ∷ rows else b ∷ insert_episode a rows

  unfoldable pub sort_episodes : List (EpisodeObservation D.N) → List (EpisodeObservation D.N)
  unfolding insert_episode
  sort_episodes [] = []
  sort_episodes (a ∷ rows) = insert_episode a (sort_episodes rows)

  -- `[row.max_drawdown for row in items if row.max_drawdown is not None]`
  abbrev pub drawdowns_of : List (EpisodeObservation D.N) → List D.N
  drawdowns_of [] = []
  drawdowns_of (row ∷ rows) = elim row.max_drawdown [
    | none ↦ drawdowns_of rows
    | some d ↦ d ∷ drawdowns_of rows
  ]

  -- `min(values)`, from the first
  abbrev pub least : D.N → List D.N → D.N
  least low [] = low
  least low (v ∷ values) = least (if D.lt v low then v else low) values

  abbrev pub minimum : List D.N → Option D.N
  minimum [] = none
  minimum (v ∷ values) = some (least v values)

  abbrev pub cluster_drawdown : List (EpisodeObservation D.N) → Option D.N
  cluster_drawdown items =
      if length (drawdowns_of items) == length items
      then minimum (drawdowns_of items)
      else some (D.ratio 0 1)

  abbrev pub first_episode :
      List (EpisodeObservation D.N) → Result BacktestError (EpisodeObservation D.N)
  first_episode [] = err index_error
  first_episode (row ∷ rows) = ok row

  abbrev pub median_of :
      (EpisodeObservation D.N → D.N) → List (EpisodeObservation D.N) → Result BacktestError D.N
  median_of f items = or_raise value_error (median D (map f items))

  -- The cluster of a day, of its rows in order.
  unfoldable pub cluster_of :
      ℕ → List (EpisodeObservation D.N) → Result BacktestError (IndependentCluster D.N)
  unfolding median
  cluster_of entry_date items = and_then (or_raise value_error (cluster_drawdown items)) λ drawdown.
      and_then (first_episode items) λ first. and_then (median_of net_excess_spy items) λ spy.
        and_then (median_of net_excess_cash items) λ cash.
          and_then (median_of (λ row. D.minus (stressed row) row.spy_return) items) λ stress_spy.
            and_then (median_of (λ row. D.minus (stressed row) row.cash_return) items)
              λ stress_cash. ok (record {
                fold_id = first.fold_id;
                entry_date = entry_date;
                episode_ids = map (λ (row : EpisodeObservation D.N). row.episode_id) items;
                assets = map (λ (row : EpisodeObservation D.N). row.asset) items;
                net_excess_spy = spy;
                net_excess_cash = cash;
                stress50_excess_spy = stress_spy;
                stress50_excess_cash = stress_cash;
                max_drawdown = drawdown;
              })

  unfoldable pub clustered :
      Dict ℕ (List (EpisodeObservation D.N)) → Result BacktestError (List (IndependentCluster D.N))
  unfolding cluster_of sort_episodes
  clustered [] = ok []
  clustered ((day, rows) ∷ groups) =
      and_then (cluster_of day (sort_episodes rows))
        λ cluster. and_then (clustered groups) λ rest. ok (cluster ∷ rest)

  -- The selecting loop, from `next_allowed_index`; the -1 that it starts from lets every place pass, as
  -- 0 does.
  unfoldable pub select_clusters :
      List ℕ
      → ℕ
      → List (IndependentCluster D.N)
      → Result BacktestError (List (IndependentCluster D.N))
  unfolding index_from
  select_clusters sessions next_allowed [] = ok []
  select_clusters sessions next_allowed (cluster ∷ clusters) =
      and_then (or_raise key_error (index_from 0 sessions cluster.entry_date)) λ position.
        elim (ltb position next_allowed) [
          | true ↦ select_clusters sessions next_allowed clusters
          | false ↦
              and_then (select_clusters sessions (position + 20) clusters)
                λ rest. ok (cluster ∷ rest)
        ]

  unfoldable pub independent_clusters :
      List (EpisodeObservation D.N) → List ℕ → Result BacktestError (List (IndependentCluster D.N))
  unfolding by_entry by_day clustered select_clusters
  independent_clusters rows sessions =
      and_then (clustered (by_day (by_entry rows [])))
        λ clusters. select_clusters sessions 0 clusters

  -- `[row for row in clusters if row.fold_id == fold.fold_id]`
  abbrev pub of_fold : String → List (IndependentCluster D.N) → List (IndependentCluster D.N)
  of_fold fold_id [] = []
  of_fold fold_id (c ∷ clusters) =
      if str_eq c.fold_id fold_id then c ∷ of_fold fold_id clusters else of_fold fold_id clusters

  abbrev pub is_positive : Option D.N → Option Bool
  is_positive none = none
  is_positive (some spy) = some (D.lt (D.ratio 0 1) spy)

  abbrev pub fold_result : ValidationFold → List (IndependentCluster D.N) → FoldResult D.N
  fold_result fold rows =
      let spy = median_or_none D (map (λ (c : IndependentCluster D.N). c.net_excess_spy) rows) in
      record {
        fold_id = fold.fold_id;
        independent_count = length rows;
        median_net_excess_spy = spy;
        median_net_excess_cash =
            median_or_none D (map (λ (c : IndependentCluster D.N). c.net_excess_cash) rows);
        positive = is_positive spy;
      }

  unfoldable pub fold_results :
      List ValidationFold → List (IndependentCluster D.N) → List (FoldResult D.N)
  unfolding median
  fold_results [] clusters = []
  fold_results (fold ∷ folds) clusters =
      fold_result fold (of_fold fold.fold_id clusters) ∷ fold_results folds clusters
