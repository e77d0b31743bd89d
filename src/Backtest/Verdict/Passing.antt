-- ===== src/Backtest/Verdict/Passing.antt =====
-- When src/investment_tracker/backtest_v1.py passes a strategy.
use investment_tracker.Prelude.{
  ◌*◌, ◌≤◌, ◌<◌, ◌≡◌, ◌↔◌, String, Bool, false, true, List, [], ◌∷◌, ◌++◌, All, arith, length, refl,
}
use investment_tracker.Backtest.{Decimals, FoldResult, passed}
use investment_tracker.Backtest.Verdict.{
  Evidence, is_nonempty, raised, failure_tests, evidence_tests, breadth_tests, is_not_positive,
  exceeds, underperforms, is_missing, any_missing_drawdown, failures_of, thin_folds,
  inconclusive_of, status_of,
}

-- Nothing speaks against the strategy, and nothing is missing.
pub record Passing (D : Decimals) (e : Evidence D.N) : Type 0 where
  pub consistent : e.inconsistent_scenarios ≡ false
  pub complete : e.incomplete_friction ≡ false
  pub observed : is_nonempty e.clean_primary_rows ≡ true
  pub drawdowns : any_missing_drawdown D e.clean_primary_rows ≡ false
  pub spy : is_not_positive D e.median_spy ≡ false
  pub cash : is_not_positive D e.median_cash ≡ false
  pub stress_spy : is_not_positive D e.median_stress_spy ≡ false
  pub stress_cash : is_not_positive D e.median_stress_cash ≡ false
  pub folds : 3 ≤ length e.fold_results → length e.fold_results * 2 ≤ e.positive_folds * 3
  pub years : exceeds D e.year_concentration (D.ratio 50 100) ≡ false
  pub assets : exceeds D e.asset_concentration (D.ratio 50 100) ≡ false
  pub breadth : (4 ≤ e.adequate) × (e.adequate < e.nonnegative_assets * 2)
  pub independent : 20 ≤ length e.clusters
  pub thick : All (λ (r : FoldResult D.N). 5 ≤ r.independent_count) e.fold_results
  pub baseline : is_missing D e.baseline_median ≡ false
  pub ahead : underperforms D e.median_spy e.baseline_median ≡ false
  pub significant : (20 ≤ e.trials) × (exceeds D e.sign_p (D.ratio 10 100) ≡ false)

abbrev Silent : Bool × String → Type 0
Silent test = test.0 ≡ false

raised-Silent :
    (tests : List (Bool × String)) → (is_nonempty (raised tests) ≡ false) ↔ All Silent tests
unfolding raised
raised-Silent [] = (λ h. tt, λ h. refl)
raised-Silent ((true, reason) ∷ tests) = (λ h. absurd (ground arith), λ h. absurd (ground arith))
raised-Silent ((false, reason) ∷ tests) =
    let rest = raised-Silent tests in (λ h. (refl, rest.0 h), λ h. rest.1 h.1)

append-empty :
    (xs ys : List String)
    → (is_nonempty (xs ++ ys) ≡ false) ↔ ((is_nonempty xs ≡ false) × (is_nonempty ys ≡ false))
append-empty [] ys = (λ h. (refl, h), λ h. h.1)
append-empty (x ∷ xs) ys = (λ h. absurd (ground arith), λ h. absurd (ground arith))

thin_folds-Silent :
    {N : Type 0} (results : List (FoldResult N))
    → All Silent (thin_folds results) ↔ All (λ (r : FoldResult N). 5 ≤ r.independent_count) results
unfolding thin_folds
thin_folds-Silent [] = (λ h. tt, λ h. tt)
thin_folds-Silent (r ∷ results) =
    let rest = thin_folds-Silent results in
    (λ h. (ground arith, rest.0 h.1), λ h. (ground arith, rest.1 h.1))

status_of-passed :
    (failures reasons : List String)
    → (status_of failures reasons ≡ passed)
      ↔ ((is_nonempty failures ≡ false) × (is_nonempty reasons ≡ false))
unfolding status_of
status_of-passed failures reasons = (λ h. (ground arith, ground arith), λ h. ground arith)

module _ (D : Decimals) (e : Evidence D.N) where
  failures_of-Silent : (is_nonempty (failures_of D e) ≡ false) ↔ All Silent (failure_tests D e)
  unfolding failures_of
  failures_of-Silent = raised-Silent (failure_tests D e)

  inconclusive_of-Silent : (is_nonempty (inconclusive_of D e) ≡ false) ↔ (
      All Silent (evidence_tests D e)
      × All Silent (thin_folds e.fold_results)
      × All Silent (breadth_tests D e))
  unfolding inconclusive_of
  inconclusive_of-Silent =
      let one = raised-Silent (evidence_tests D e) in
      let two = raised-Silent (thin_folds e.fold_results) in
      let three = raised-Silent (breadth_tests D e) in
      let front =
        append-empty (raised (evidence_tests D e) ++ raised (thin_folds e.fold_results))
          (raised (breadth_tests D e)) in
      let back = append-empty (raised (evidence_tests D e)) (raised (thin_folds e.fold_results)) in
      (
        λ h. let (b, c) = front.0 h in let (a, f) = back.0 b in (one.0 a, two.0 f, three.0 c),
        λ h. front.1 (back.1 (one.1 h.0, two.1 h.1), three.1 h.2),
      )

  Silent-Passing :
      All Silent (failure_tests D e)
      → All Silent (evidence_tests D e)
      → All Silent (thin_folds e.fold_results)
      → All Silent (breadth_tests D e)
      → Passing D e
  Silent-Passing (f1, (f2, (f3, (f4, (f5, (f6, (f7, (f8, (f9, (f10, (f11, _)))))))))))
        (e1, (e2, (e3, (e4, _)))) folds (b1, (b2, (b3, _))) =
      record {
        consistent = f1;
        complete = e1;
        observed = ground arith;
        drawdowns = e3;
        spy = f2;
        cash = f3;
        stress_spy = f4;
        stress_cash = f5;
        folds = λ many. ground arith;
        years = f7;
        assets = f8;
        breadth = (ground arith, ground arith);
        independent = ground arith;
        thick = (thin_folds-Silent e.fold_results).0 folds;
        baseline = b2;
        ahead = f10;
        significant = (ground arith, ground arith);
      }

  Passing-Silent :
      Passing D e
      → All Silent (failure_tests D e)
        × All Silent (evidence_tests D e)
        × All Silent (thin_folds e.fold_results)
        × All Silent (breadth_tests D e)
  Passing-Silent p = (
    (
      p.consistent,
      (
        p.spy,
        (
          p.cash,
          (
            p.stress_spy,
            (
              p.stress_cash,
              (
                (let f = p.folds in ground arith),
                (
                  p.years,
                  (
                    p.assets,
                    (
                      (let b = p.breadth in ground arith),
                      (p.ahead, ((let s = p.significant in ground arith), tt)),
                    ),
                  ),
                ),
              ),
            ),
          ),
        ),
      ),
    ),
    (
      p.complete,
      (
        (let o = p.observed in ground arith),
        (p.drawdowns, ((let i = p.independent in ground arith), tt)),
      ),
    ),
    (thin_folds-Silent e.fold_results).1 p.thick,
    (
      (let b = p.breadth in ground arith),
      (p.baseline, ((let s = p.significant in ground arith), tt)),
    ),
  )

  -- The verdict on the evidence is PASS exactly if every requirement on it is met.
  pub status_of_iff : (status_of (failures_of D e) (inconclusive_of D e) ≡ passed) ↔ Passing D e
  status_of_iff =
      let verdict = status_of-passed (failures_of D e) (inconclusive_of D e) in
      (
        λ h.
            let (quiet, whole) = verdict.0 h in
            let (a, b, c) = inconclusive_of-Silent.0 whole in
            Silent-Passing (failures_of-Silent.0 quiet) a b c,
        λ p.
            let (a, b, c, d) = Passing-Silent p in
            verdict.1 (failures_of-Silent.1 a, inconclusive_of-Silent.1 (b, c, d)),
      )
