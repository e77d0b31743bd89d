-- ===== src/Backtest/Observations/Primary.antt =====
-- Which rows src/investment_tracker/backtest_v1.py computes its statistics of.
use investment_tracker.Prelude.{
  ℕ, String, ◌≡◌, ◌∙◌, ap, Bool, List, [], ◌∷◌, ◌++◌, arith, ok, and_then-ok_then, str_eq, ◌==◌,
  ◌&&◌, if◌then◌else◌,
}
use mathlib.Core.List.{append_assoc, append-nil}
use investment_tracker.Backtest.{
  Decimals, FrozenBacktestProtocol, EpisodeObservation, ValidationFold,
}
use investment_tracker.Backtest.Observations.{Collected, admit, add_row, collect}

module _ (D : Decimals) where
  -- Clean, of the horizon of 20 days, at the friction of 25 basis points.
  abbrev pub is_primary : EpisodeObservation D.N → Bool
  is_primary row = row.horizon_td == 20 && str_eq row.dq_status "CLEAN" && row.friction_bps == 25

  abbrev pub primary_rows : List (EpisodeObservation D.N) → List (EpisodeObservation D.N)
  primary_rows [] = []
  primary_rows (row ∷ rows) = if is_primary row then row ∷ primary_rows rows else primary_rows rows

  module _ (strip_upper : String → String) (protocol : FrozenBacktestProtocol)
      (sessions : List ℕ) where
    add_row-rows :
        (row : EpisodeObservation D.N) (fold : ValidationFold) (c : Collected D.N)
        {next : Collected D.N}
        → add_row D strip_upper protocol sessions row fold c ≡ ok next
        → next.clean_primary_rows ≡ c.clean_primary_rows ++ primary_rows (row ∷ [])
    unfolding add_row
    add_row-rows row fold c {next} h = let same = append-nil c.clean_primary_rows in ground arith

    append-primary :
        (row : EpisodeObservation D.N) (rows : List (EpisodeObservation D.N))
        → primary_rows (row ∷ []) ++ primary_rows rows ≡ primary_rows (row ∷ rows)
    append-primary row rows = ground arith

    pub collect-rows :
        (rows : List (EpisodeObservation D.N)) (c : Collected D.N) {last : Collected D.N}
        → collect D strip_upper protocol sessions rows c ≡ ok last
        → last.clean_primary_rows ≡ c.clean_primary_rows ++ primary_rows rows
    unfolding collect
    collect-rows [] c {last} h = let same = append-nil c.clean_primary_rows in ground arith
    collect-rows (row ∷ rows) c {last} h =
        and_then-ok_then (admit D strip_upper protocol row) h λ fold _ h1.
          and_then-ok_then (add_row D strip_upper protocol sessions row fold c) h1 λ next added h2.
            collect-rows rows next {last = last} h2
            ∙ ap (λ (l : List (EpisodeObservation D.N)). l ++ primary_rows rows)
                (add_row-rows row fold c {next = next} added)
            ∙ append_assoc c.clean_primary_rows (primary_rows (row ∷ [])) (primary_rows rows)
            ∙ ap (λ (l : List (EpisodeObservation D.N)). c.clean_primary_rows ++ l)
                (append-primary row rows)
