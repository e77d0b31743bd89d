-- ===== src/Backtest/Statistics/Examples.antt =====
-- The theorems on the statistics of src/investment_tracker/backtest_v1.py at concrete values, and tests.
use investment_tracker.Prelude.{
  ℕ, zero, suc, ◌+◌, ◌^◌, ◌≤◌, ◌<◌, ◌≡◌, refl, some, [], ◌∷◌, arith, true,
}
use investment_tracker.Backtest.Points.{points}
use investment_tracker.Backtest.Statistics.{
  one_sided_sign_test, median, concentration, counts, sign_numerator, sum_from, middle_of, sorted,
  insert_decimal, bootstrap_median_interval, medians_of, sample,
}
use investment_tracker.Backtest.Statistics.SignTest.{Binomial, one_sided_sign_test-falls}
use investment_tracker.Selector.{day_key}
use investment_tracker.Dict.{get, put}

abbrev comb : ℕ → ℕ → ℕ
comb n zero = 1
comb zero (suc k) = 0
comb (suc n) (suc k) = comb n k + comb n (suc k)

comb_beyond : (n k : ℕ) → n < k → comb n k ≡ 0
comb_beyond n zero h = absurd (omega arith)
comb_beyond zero (suc k) h = refl
comb_beyond (suc n) (suc k) h =
    omega (arith, comb_beyond n k (omega arith), comb_beyond n (suc k) (omega arith))

comb_first : (n : ℕ) → comb n 0 ≡ 1
comb_first zero = refl
comb_first (suc n) = refl

comb-Binomial : Binomial comb
comb-Binomial = record { first = comb_first; beyond = comb_beyond; next = λ n k. refl }

-- Nine successes of ten: eleven of 1024.
nine_of_ten : sign_numerator comb 9 10 ≡ 11
unfolding sign_numerator sum_from
nine_of_ten = refl

divides_monotonely :
    (a b : ℕ)
    → a ≤ b
    → points.le
        (points.divide (points.whole a) (points.power_of_two 10))
        (points.divide (points.whole b) (points.power_of_two 10))
      ≡ true
divides_monotonely a b h = ground arith

one_sided_sign_test-falls_example :
    (p : ℕ) × (q : ℕ) × (top : ℕ) × (one_sided_sign_test points comb 9 10 ≡ some p)
    × (one_sided_sign_test points comb 10 10 ≡ some q)
    × (one_sided_sign_test points comb 0 10 ≡ some top)
    × (top ≡ points.divide (points.whole (2 ^ 10)) (points.power_of_two 10))
    × (points.le q p ≡ true)
    × (points.le p top ≡ true)
one_sided_sign_test-falls_example =
    one_sided_sign_test-falls comb comb-Binomial 9 10 10 (omega arith) (omega arith) points
      divides_monotonely (omega arith)

even_median : median points (8 ∷ 2 ∷ 4 ∷ 6 ∷ []) ≡ some 5
unfolding median middle_of sorted insert_decimal
even_median = refl

two_of_three : concentration points {K = ℕ} (7 ∷ 3 ∷ 7 ∷ []) ≡ some 6666
unfolding concentration counts get put
two_of_three = refl

two_draws :
    bootstrap_median_interval points
      (λ seed n draws. (1 ∷ 1 ∷ []) ∷ (0 ∷ 0 ∷ []) ∷ [])
      (30 ∷ 20 ∷ [])
      "seed"
      2
    ≡ some (some 20, some 20)
unfolding bootstrap_median_interval medians_of sample median middle_of sorted insert_decimal
two_draws = refl
