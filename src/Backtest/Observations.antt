-- ===== src/Backtest/Observations.antt =====
-- The observations that src/investment_tracker/backtest_v1.py takes in: the loops of `evaluate_backtest`
-- over its rows and its baselines, and the checks of the friction scenarios.
pub mod Lookahead
pub mod Primary
use investment_tracker.Prelude.{
  ℕ, String, Bool, true, false, not, ◌&&◌, ◌||◌, Option, none, some, List, [], ◌∷◌, ◌++◌, any,
  length, ◌==◌, if◌then◌else◌, str_eq, Result, ok, err, and_then, or_raise,
}
use investment_tracker.Dict.{Dict, get, put, pair_key}
use investment_tracker.Selector.{day_key}
use investment_tracker.Backtest.{
  Decimals, BacktestError, protocol_error, ValidationFold, FrozenBacktestProtocol,
  EpisodeObservation, BaselineObservation,
}
use investment_tracker.Backtest.Protocol.{allowed, require}
use investment_tracker.Backtest.Episodes.{TimingError, timing_error}

-- `{fold.fold_id: fold for fold in folds}[fold_id]`: the last of a name.
unfoldable pub fold_named : List ValidationFold → String → Option ValidationFold
fold_named [] fold_id = none
fold_named (fold ∷ folds) fold_id = elim (fold_named folds fold_id) [
  | some later ↦ some later
  | none ↦ if str_eq fold.fold_id fold_id then some fold else none
]

-- `friction_bps in (0, 10, 25)`
abbrev pub is_required_friction : ℕ → Bool
is_required_friction bps = bps == 0 || bps == 10 || bps == 25

abbrev pub is_present : {A : Type 0} → Option A → Bool
is_present none = false
is_present (some a) = true

-- The loop's `grouped`, `clean_primary_rows` and `timing_errors`.
pub record Collected (N : Type 0) : Type 0 where
  pub grouped : Dict (String × String) (Dict ℕ (EpisodeObservation N))
  pub clean_primary_rows : List (EpisodeObservation N)
  pub timing_errors : List (String × TimingError)

abbrev pub nothing_collected : {N : Type 0} → Collected N
nothing_collected = record { grouped = []; clean_primary_rows = []; timing_errors = [] }

-- `grouped[key]` of a `defaultdict(dict)`
abbrev pub scenarios : {A : Type 0} → Option (Dict ℕ A) → Dict ℕ A
scenarios none = []
scenarios (some rows) = rows

module _ (D : Decimals) (strip_upper : String → String) (protocol : FrozenBacktestProtocol) where
  -- The row's fold, once the row is found to belong to the protocol.
  unfoldable pub admit : EpisodeObservation D.N → Result BacktestError ValidationFold
  unfolding fold_named
  admit row = and_then (allowed strip_upper row.asset) λ asset.
      and_then (require (any (str_eq asset) protocol.panel)) λ _.
        and_then (require (str_eq row.candidate_id protocol.candidate_id)) λ _.
          and_then (require (str_eq row.qualification_dataset_id protocol.qualification_dataset_id))
            λ _. or_raise protocol_error (fold_named protocol.folds row.fold_id)

  abbrev pub with_error :
      EpisodeObservation D.N
      → Option TimingError
      → List (String × TimingError)
      → List (String × TimingError)
  with_error row none errors = errors
  with_error row (some e) errors = errors ++ (row.episode_id, e) ∷ []

  abbrev pub with_primary :
      EpisodeObservation D.N → List (EpisodeObservation D.N) → List (EpisodeObservation D.N)
  with_primary row rows = if row.friction_bps == 25 then rows ++ row ∷ [] else rows

  -- What a clean row of the primary horizon adds.
  abbrev pub add_clean :
      List ℕ
      → EpisodeObservation D.N
      → ValidationFold
      → Collected D.N
      → Result BacktestError (Collected D.N)
  add_clean sessions row fold c =
      let key : String × String = (row.fold_id, row.episode_id) in
      let rows = scenarios (get c.grouped key) in
      if is_present (get rows row.friction_bps)
      then err protocol_error
      else ok (record {
        grouped = put c.grouped key (put rows row.friction_bps row);
        clean_primary_rows = with_primary row c.clean_primary_rows;
        timing_errors = with_error row (timing_error D row fold sessions) c.timing_errors;
      })

  unfoldable pub add_row :
      List ℕ
      → EpisodeObservation D.N
      → ValidationFold
      → Collected D.N
      → Result BacktestError (Collected D.N)
  unfolding timing_error
  add_row sessions row fold c =
      if not (row.horizon_td == 20)
      then ok c
      else if not (is_required_friction row.friction_bps)
      then err protocol_error
      else if not (str_eq row.dq_status "CLEAN")
      then ok c
      else add_clean sessions row fold c

  unfoldable pub collect :
      List ℕ → List (EpisodeObservation D.N) → Collected D.N → Result BacktestError (Collected D.N)
  unfolding admit add_row
  collect sessions [] c = ok c
  collect sessions (row ∷ rows) c =
      and_then (admit row)
        λ fold. and_then (add_row sessions row fold c) λ next. collect sessions rows next

  -- The loop over the baselines: the clean ones' excess.
  unfoldable pub clean_baselines : List (BaselineObservation D.N) → Result BacktestError (List D.N)
  unfolding fold_named
  clean_baselines [] = ok []
  clean_baselines (row ∷ rows) = and_then (allowed strip_upper row.asset) λ asset.
      and_then (require (any (str_eq asset) protocol.panel)) λ _.
        and_then (require (str_eq row.qualification_dataset_id protocol.qualification_dataset_id))
          λ _. and_then (require (is_present (fold_named protocol.folds row.fold_id))) λ _.
            and_then (clean_baselines rows)
              λ rest. ok (if str_eq row.dq_status "CLEAN" then row.excess_spy_20d ∷ rest else rest)

module _ (D : Decimals) where
  -- `set(rows) == {0, 10, 25}`
  abbrev pub is_complete : Dict ℕ (EpisodeObservation D.N) → Bool
  is_complete rows =
      is_present (get rows 0)
      && is_present (get rows 10)
      && is_present (get rows 25)
      && length rows == 3

  abbrev pub same_drawdown : Option D.N → Option D.N → Bool
  same_drawdown none none = true
  same_drawdown (some a) (some b) = D.same a b
  same_drawdown _ _ = false

  -- Equal anchors.
  abbrev pub same_anchor : EpisodeObservation D.N → EpisodeObservation D.N → Bool
  same_anchor a b =
      str_eq a.asset b.asset
      && a.signal_date == b.signal_date
      && a.entry_date == b.entry_date
      && a.horizon_close_date == b.horizon_close_date
      && D.same a.gross_return b.gross_return
      && D.same a.spy_return b.spy_return
      && D.same a.cash_return b.cash_return
      && same_drawdown a.max_drawdown b.max_drawdown

  -- `len(anchors) == 1`
  abbrev pub all_anchored : EpisodeObservation D.N → Dict ℕ (EpisodeObservation D.N) → Bool
  all_anchored first [] = true
  all_anchored first ((bps, row) ∷ rows) = same_anchor first row && all_anchored first rows

  abbrev pub is_anchored : Dict ℕ (EpisodeObservation D.N) → Bool
  is_anchored [] = false
  is_anchored ((bps, row) ∷ rows) = all_anchored row rows

  -- `abs(net - expected) > Decimal("0.0000000001")`
  abbrev pub is_off : ℕ → EpisodeObservation D.N → Bool
  is_off bps row =
      D.lt (D.ratio 1 10000000000)
        (D.absolute (D.minus row.return_net (D.minus row.gross_return (D.ratio bps 10000))))

  abbrev pub any_off : Dict ℕ (EpisodeObservation D.N) → Bool
  any_off [] = false
  any_off ((bps, row) ∷ rows) = is_off bps row || any_off rows

  -- Whether `incomplete_friction` has an element.
  abbrev pub any_incomplete : Dict (String × String) (Dict ℕ (EpisodeObservation D.N)) → Bool
  any_incomplete [] = false
  any_incomplete ((key, rows) ∷ grouped) = not (is_complete rows) || any_incomplete grouped

  -- Whether `inconsistent_scenarios` has an element.
  abbrev pub any_inconsistent : Dict (String × String) (Dict ℕ (EpisodeObservation D.N)) → Bool
  any_inconsistent [] = false
  any_inconsistent ((key, rows) ∷ grouped) =
      (is_complete rows && (not (is_anchored rows) || any_off rows)) || any_inconsistent grouped
