-- ===== src/Backtest/Statistics/SignTest.antt =====
-- The p-value of the sign test in src/investment_tracker/backtest_v1.py, for the binomial coefficients
-- that `math.comb` gives.
use investment_tracker.Prelude.{
  ℕ, zero, suc, ◌+◌, ◌-◌, ◌^◌, ◌≤◌, ◌<◌, ◌≡◌, refl, arith, ap, ◌∙◌, some, true,
}
use investment_tracker.Backtest.{Decimals}
use investment_tracker.Backtest.Statistics.{sum_from, sign_numerator, one_sided_sign_test}

-- Pascal's triangle.
pub record Binomial (comb : ℕ → ℕ → ℕ) : Type 0 where
  pub first : (n : ℕ) → comb n 0 ≡ 1
  pub beyond : (n k : ℕ) → n < k → comb n k ≡ 0
  pub next : (n k : ℕ) → comb (suc n) (suc k) ≡ comb n k + comb n (suc k)

module _ (comb : ℕ → ℕ → ℕ) (laws : Binomial comb) where
  sum_from-next :
      (n k count : ℕ)
      → sum_from comb (suc n) (k + 1) count
        ≡ sum_from comb n k count + sum_from comb n (k + 1) count
  unfolding sum_from
  sum_from-next n k zero = refl
  sum_from-next n k (suc count) =
      grind (arith, laws.next n k, laws.next n (k + 1), sum_from-next n (k + 1) count)

  sum_from-add :
      (n k a b : ℕ) → sum_from comb n k (a + b) ≡ sum_from comb n k a + sum_from comb n (k + a) b
  unfolding sum_from
  sum_from-add n k zero b = grind arith
  sum_from-add n k (suc a) b =
      let there : suc a + b ≡ suc (a + b) = omega arith in
      let here : k + suc a ≡ k + 1 + a = omega arith in
      let rest = sum_from-add n (k + 1) a b in
      ap (λ c. sum_from comb n k c) there ∙ omega (arith, rest, ap (λ j. sum_from comb n j b) here)

  -- A row of the triangle.
  sum_from-row : (n : ℕ) → sum_from comb n 0 (n + 1) ≡ 2 ^ n
  unfolding sum_from
  sum_from-row zero = grind (arith, laws.first 0)
  sum_from-row (suc n) = grind (
    arith,
    laws.first n,
    laws.first (suc n),
    laws.beyond n (n + 1) (omega arith),
    sum_from-next n 0 (n + 1),
    sum_from-add n 0 (n + 1) 1,
    sum_from-row n,
  )

  module _ (fewer more trials : ℕ) (le : fewer ≤ more) (room : more ≤ trials) where
    sum_from-tail :
        (sum_from comb trials fewer (trials + 1 - fewer) ≤ 2 ^ trials)
        × (sum_from comb trials more (trials + 1 - more)
            ≤ sum_from comb trials fewer (trials + 1 - fewer))
    sum_from-tail =
        let split : fewer + (trials + 1 - fewer) ≡ trials + 1 = omega arith in
        let rest : (more - fewer) + (trials + 1 - more) ≡ trials + 1 - fewer = omega arith in
        let at : fewer + (more - fewer) ≡ more = omega arith in
        let all = sum_from-add trials 0 fewer (trials + 1 - fewer) in
        let part = sum_from-add trials fewer (more - fewer) (trials + 1 - more) in
        let whole = ap (λ c. sum_from comb trials 0 c) split in
        let tail = ap (λ c. sum_from comb trials fewer c) rest in
        let begun = ap (λ k. sum_from comb trials k (trials + 1 - more)) at in
        let row = sum_from-row trials in
        let zeroth : 0 + fewer ≡ fewer = omega arith in
        let from = ap (λ k. sum_from comb trials k (trials + 1 - fewer)) zeroth in
        (omega (arith, all, whole, row, from), omega (arith, part, tail, begun))

    -- Where a division of Decimals by the power of two is monotone, a sign test of the same trials with
    -- more successes has no greater p-value, and none has a greater one than the test with no
    -- successes, which divides the exact power of two by the rounded one.
    pub one_sided_sign_test-falls :
        (D : Decimals)
        → ((a b : ℕ)
            → a ≤ b
            → D.le
                (D.divide (D.whole a) (D.power_of_two trials))
                (D.divide (D.whole b) (D.power_of_two trials))
              ≡ true)
        → 0 < trials
        → (p : D.N) × (q : D.N) × (top : D.N) × (one_sided_sign_test D comb fewer trials ≡ some p)
          × (one_sided_sign_test D comb more trials ≡ some q)
          × (one_sided_sign_test D comb 0 trials ≡ some top)
          × (top ≡ D.divide (D.whole (2 ^ trials)) (D.power_of_two trials))
          × (D.le q p ≡ true)
          × (D.le p top ≡ true)
    unfolding one_sided_sign_test sign_numerator
    one_sided_sign_test-falls D monotone some_trials =
        let none_off : trials + 1 - 0 ≡ trials + 1 = omega arith in
        let all : sign_numerator comb 0 trials ≡ 2 ^ trials =
          ap (λ c. sum_from comb trials 0 c) none_off ∙ sum_from-row trials in
        let p_value : ℕ → D.N = λ a. D.divide (D.whole a) (D.power_of_two trials) in
        let a = sign_numerator comb fewer trials in
        let b = sign_numerator comb more trials in
        (
          p_value a,
          p_value b,
          p_value (2 ^ trials),
          ground arith,
          ground arith,
          ground (arith, all),
          refl,
          monotone b a sum_from-tail.1,
          monotone a (2 ^ trials) sum_from-tail.0,
        )
