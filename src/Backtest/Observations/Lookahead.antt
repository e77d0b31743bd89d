-- ===== src/Backtest/Observations/Lookahead.antt =====
-- What the collection of observations in src/investment_tracker/backtest_v1.py lets in.
use investment_tracker.Prelude.{
  ℕ, String, ◌≡◌, inl, inr, sym, ◌∙◌, Bool-cases, any, Option, none, some, List, [], ◌∷◌, All,
  arith, ok, and_then-ok_then, eq_iff, ◌==◌, str_eq, if◌then◌else◌, ◌&&◌, refl,
}
use investment_tracker.Backtest.{
  Decimals, FrozenBacktestProtocol, ValidationFold, EpisodeObservation,
}
use investment_tracker.Backtest.Protocol.{allowed, require}
use investment_tracker.Backtest.Episodes.{TimingError, timing_error}
use investment_tracker.Backtest.Episodes.Timing.{OnTime, timing_error_iff}
use investment_tracker.Backtest.Observations.{
  Collected, admit, add_row, collect, fold_named, with_error,
}

module _ (D : Decimals) (strip_upper : String → String) (protocol : FrozenBacktestProtocol)
    (sessions : List ℕ) where
  -- If the row is clean and of the primary horizon, it is on time in its fold.
  abbrev pub NoLookahead : EpisodeObservation D.N → Type 0
  NoLookahead row =
      row.horizon_td ≡ 20
      → row.dq_status ≡ "CLEAN"
      → (fold : ValidationFold) × (fold_named protocol.folds row.fold_id ≡ some fold)
        × OnTime D row fold sessions

  with_error-none :
      (row : EpisodeObservation D.N) (e : Option TimingError) (errors : List (String × TimingError))
      → with_error D strip_upper protocol row e errors ≡ []
      → (e ≡ none) × (errors ≡ [])
  with_error-none row none errors h = (refl, h)
  with_error-none row (some e) [] h = cc
  with_error-none row (some e) (f ∷ errors) h = cc

  add_row-errors :
      (row : EpisodeObservation D.N) (fold : ValidationFold) (c next : Collected D.N)
      → add_row D strip_upper protocol sessions row fold c ≡ ok next
      → next.timing_errors ≡ (
          if row.horizon_td == 20 && str_eq row.dq_status "CLEAN"
          then with_error D strip_upper protocol row
              (timing_error D row fold sessions)
              c.timing_errors
          else c.timing_errors)
  unfolding add_row
  add_row-errors row fold c next h = ground arith

  admit-fold :
      (row : EpisodeObservation D.N) (fold : ValidationFold)
      → admit D strip_upper protocol row ≡ ok fold
      → fold_named protocol.folds row.fold_id ≡ some fold
  unfolding admit
  admit-fold row fold h = and_then-ok_then (allowed strip_upper row.asset) h λ asset _ h1.
      and_then-ok_then (require (any (str_eq asset) protocol.panel)) h1 λ _ _ h2.
        and_then-ok_then (require (str_eq row.candidate_id protocol.candidate_id)) h2 λ _ _ h3.
          and_then-ok_then
            (require (str_eq row.qualification_dataset_id protocol.qualification_dataset_id)) h3
            λ _ _ h4. ground arith

  errors-NoLookahead :
      (row : EpisodeObservation D.N) (fold : ValidationFold) (c : Collected D.N)
      → (if row.horizon_td == 20 && str_eq row.dq_status "CLEAN"
          then with_error D strip_upper protocol row
              (timing_error D row fold sessions)
              c.timing_errors
          else c.timing_errors)
        ≡ []
      → fold_named protocol.folds row.fold_id ≡ some fold
      → (c.timing_errors ≡ []) × NoLookahead row
  errors-NoLookahead row fold c h named =
      elim (Bool-cases (row.horizon_td == 20 && str_eq row.dq_status "CLEAN")) [
        | inr other ↦
            (ground arith, λ horizon status. absurd (ground (arith, eq_iff row.dq_status "CLEAN")))
        | inl primary ↦
            let errors : with_error D strip_upper protocol row (timing_error D row fold sessions)
                  c.timing_errors
                ≡ [] =
              ground arith in
            let (none_here, before) =
              with_error-none row (timing_error D row fold sessions) c.timing_errors errors in
            (
              before,
              λ horizon status. (
                fold,
                named,
                (timing_error_iff D row fold sessions (omega (arith, horizon))).0 none_here,
              ),
            )
      ]

  pub collect-NoLookahead :
      (rows : List (EpisodeObservation D.N)) (c last : Collected D.N)
      → collect D strip_upper protocol sessions rows c ≡ ok last
      → last.timing_errors ≡ []
      → (c.timing_errors ≡ []) × All NoLookahead rows
  unfolding collect
  collect-NoLookahead [] c last h clean = (ground arith, tt)
  collect-NoLookahead (row ∷ rows) c last h clean =
      and_then-ok_then (admit D strip_upper protocol row) h λ fold admitted h1.
        and_then-ok_then (add_row D strip_upper protocol sessions row fold c) h1 λ next added h2.
          let (quiet, others) = collect-NoLookahead rows next last h2 clean in
          let (before, here) =
            errors-NoLookahead row fold c (sym (add_row-errors row fold c next added) ∙ quiet)
              (admit-fold row fold admitted) in
          (before, (here, others))
