-- ===== src/Backtest/Episodes/Timing.antt =====
-- Which observations src/investment_tracker/backtest_v1.py takes as on time.
use investment_tracker.Prelude.{
  ℕ, suc, ◌+◌, ◌≤◌, ◌<◌, ◌≡◌, ◌↔◌, inl, inr, false, Bool-cases, Option-cases, none, some, List, [],
  ◌∷◌, arith, length, ◌==◌,
}
use investment_tracker.Selector.{index_from}
use investment_tracker.Backtest.{Decimals, ValidationFold, EpisodeObservation}
use investment_tracker.Backtest.Episodes.{timing_error, session_error, bad_drawdown}

pub index_from-lt :
    (i : ℕ) (sessions : List ℕ) (day : ℕ) {m : ℕ}
    → index_from i sessions day ≡ some m
    → m < i + length sessions
unfolding index_from
index_from-lt i [] day h = cc
index_from-lt i (d ∷ days) day {m} h = elim (Bool-cases (d == day)) [
  | inl here ↦ ground arith
  | inr away ↦
      let rest = index_from-lt (suc i) days day {m = m} (ground arith) in omega (arith, rest)
]

module _ (D : Decimals) (row : EpisodeObservation D.N) (fold : ValidationFold)
    (sessions : List ℕ) where
  abbrev pub Within : ℕ → Type 0
  Within day = (fold.start_date ≤ day) × (day ≤ fold.end_date)

  -- It is entered at the session after its signal, closed at the end of the last session of its
  -- horizon, and lies in its fold as a whole.
  abbrev pub OnTime : Type 0
  OnTime =
      (s : ℕ) × (index_from 0 sessions row.signal_date ≡ some s)
      × (index_from 0 sessions row.entry_date ≡ some (s + 1))
      × (index_from 0 sessions row.horizon_close_date ≡ some (s + row.horizon_td))
      × Within row.signal_date
      × Within row.entry_date
      × Within row.horizon_close_date
      × (bad_drawdown D row.max_drawdown ≡ false)

  timing_error-OnTime : timing_error D row fold sessions ≡ none → 0 < row.horizon_td → OnTime
  unfolding timing_error
  timing_error-OnTime h some_horizon = elim (Option-cases (index_from 0 sessions row.signal_date)) [
    | inl e ↦ absurd (ground arith)
    | inr (s, signal) ↦ elim (Option-cases (index_from 0 sessions row.entry_date)) [
      | inl e ↦ absurd (ground arith)
      | inr (t, entry) ↦ elim (Option-cases (index_from 0 sessions row.horizon_close_date)) [
        | inl e ↦ absurd (ground arith)
        | inr (u, horizon) ↦
            let passed : session_error D row fold (length sessions) s t u ≡ none = ground arith in
            let next : t ≡ s + 1 = ground arith in
            let last : u ≡ s + row.horizon_td = ground arith in
            (
              s,
              signal,
              cc,
              cc,
              (ground arith, ground arith),
              (ground arith, ground arith),
              (ground arith, ground arith),
              ground arith,
            )
      ]
    ]
  ]

  OnTime-timing_error : OnTime → timing_error D row fold sessions ≡ none
  unfolding timing_error
  OnTime-timing_error (s, signal, entry, horizon, one, two, three, drawdown) =
      let room = index_from-lt 0 sessions row.horizon_close_date {m = s + row.horizon_td} horizon in
      ground arith

  -- An observation with a horizon has no timing error exactly if it is entered at the session after its
  -- signal and closed `horizon_td` sessions after it, all three days are in its fold, and its drawdown,
  -- if it has one, is from -1 to 0.
  pub timing_error_iff : 0 < row.horizon_td → (timing_error D row fold sessions ≡ none) ↔ OnTime
  timing_error_iff some_horizon = (λ h. timing_error-OnTime h some_horizon, OnTime-timing_error)
