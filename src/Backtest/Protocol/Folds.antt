-- ===== src/Backtest/Protocol/Folds.antt =====
-- What the fold order check of src/investment_tracker/backtest_v1.py lets through.
use investment_tracker.Prelude.{
  ℕ, ◌≤◌, ◌<◌, String, ◌≡◌, ◌≢◌, false, Option, some, List, [], ◌∷◌, any, arith, All, All-map, ok,
  str_eq, eq_iff,
}
use investment_tracker.Backtest.{ValidationFold}
use investment_tracker.Backtest.Protocol.{validate_fold_order}

-- Each fold ends before every later one starts, and has another ID.
abbrev pub Before : ValidationFold → ValidationFold → Type 0
Before a b = (a.end_date < b.start_date) × (a.fold_id ≢ b.fold_id)

abbrev pub Chronological : List ValidationFold → Type 0
Chronological [] = Unit
Chronological (f ∷ folds) =
    (f.fold_id ≢ "") × (f.start_date ≤ f.end_date) × All (Before f) folds × Chronological folds

abbrev Later : List String → ℕ → ValidationFold → Type 0
Later seen p f = (any (str_eq f.fold_id) seen ≡ false) × (p < f.start_date)

validate_fold_order-Later :
    (seen : List String) (p : ℕ) (folds : List ValidationFold)
    → validate_fold_order seen (some p) folds ≡ ok tt
    → All (Later seen p) folds
unfolding validate_fold_order
validate_fold_order-Later seen p [] h = tt
validate_fold_order-Later seen p (f ∷ folds) h =
    let rest = validate_fold_order-Later (f.fold_id ∷ seen) f.end_date folds (ground arith) in
    let start : p < f.start_date = ground arith in
    let whole : f.start_date ≤ f.end_date = ground arith in
    (
      (ground arith, start),
      All-map (Later (f.fold_id ∷ seen) f.end_date) (Later seen p) folds
          (λ g later. let fresh = later.0 in (ground arith, omega (arith, later.1, start, whole)))
          rest,
    )

Later-Before :
    (seen : List String) (f g : ValidationFold) → Later (f.fold_id ∷ seen) f.end_date g → Before f g
Later-Before seen f g (fresh, later) = (later, λ same. ground (arith, eq_iff g.fold_id f.fold_id))

pub validate_fold_order-Chronological :
    (seen : List String) (previous_end : Option ℕ) (folds : List ValidationFold)
    → validate_fold_order seen previous_end folds ≡ ok tt
    → Chronological folds
unfolding validate_fold_order
validate_fold_order-Chronological seen previous_end [] h = tt
validate_fold_order-Chronological seen previous_end (f ∷ folds) h =
    let tail : validate_fold_order (f.fold_id ∷ seen) (some f.end_date) folds ≡ ok tt =
      ground arith in
    (
      λ blank. ground (arith, eq_iff f.fold_id ""),
      ground arith,
      All-map (Later (f.fold_id ∷ seen) f.end_date) (Before f) folds (Later-Before seen f)
          (validate_fold_order-Later (f.fold_id ∷ seen) f.end_date folds tail),
      validate_fold_order-Chronological (f.fold_id ∷ seen) (some f.end_date) folds tail,
    )
