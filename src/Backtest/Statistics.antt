-- ===== src/Backtest/Statistics.antt =====
-- The statistics of src/investment_tracker/backtest_v1.py: the median, the one-sided sign test, the
-- concentration and the bootstrap. `math.comb` and the sampling of `random.Random` are parameters.
pub mod SignTest
pub mod Median
mod Examples
use investment_tracker.Prelude.{
  ℕ, zero, suc, ◌+◌, ◌-◌, ◌*◌, ◌/◌, ◌%◌, ◌^◌, Bool, ◌||◌, String, Option, none, some, List, [], ◌∷◌,
  length, get_elem?, ltb, ◌==◌, if◌then◌else◌, map,
}
use investment_tracker.Dict.{Dict, Key, get, put}
use investment_tracker.Backtest.{Decimals}

-- `sum(comb(trials, k) for k in range(k, k + count))`
unfoldable pub sum_from : (ℕ → ℕ → ℕ) → ℕ → ℕ → ℕ → ℕ
sum_from comb trials k zero = 0
sum_from comb trials k (suc count) = comb trials k + sum_from comb trials (k + 1) count

-- The p-value's numerator, over `Decimal(2) ** trials`.
unfoldable pub sign_numerator : (ℕ → ℕ → ℕ) → ℕ → ℕ → ℕ
unfolding sum_from
sign_numerator comb successes trials = sum_from comb trials successes (trials + 1 - successes)

module _ (D : Decimals) where
  -- The two `raise`s of ValueError are `none`.
  unfoldable pub one_sided_sign_test : (ℕ → ℕ → ℕ) → ℕ → ℕ → Option D.N
  unfolding sign_numerator
  one_sided_sign_test comb successes trials =
      if trials == 0 || ltb trials successes
      then none
      else some (D.divide (D.whole (sign_numerator comb successes trials)) (D.power_of_two trials))

  unfoldable pub insert_decimal : D.N → List D.N → List D.N
  insert_decimal x [] = x ∷ []
  insert_decimal x (y ∷ ys) = if D.lt y x then y ∷ insert_decimal x ys else x ∷ y ∷ ys

  unfoldable pub sorted : List D.N → List D.N
  unfolding insert_decimal
  sorted [] = []
  sorted (x ∷ xs) = insert_decimal x (sorted xs)

  -- `(a + b) / Decimal(2)`, of two list accesses
  abbrev pub average : Option D.N → Option D.N → Option D.N
  average (some a) (some b) = some (D.half (D.plus a b))
  average _ _ = none

  -- The middle of a sorted list; of the empty one the ValueError, as `none`.
  unfoldable pub middle_of : List D.N → Option D.N
  middle_of ordered =
      let middle = length ordered / 2 in
      if length ordered == 0
      then none
      else if length ordered % 2 == 1
      then get_elem? ordered middle
      else average (get_elem? ordered (middle - 1)) (get_elem? ordered middle)

  unfoldable pub median : List D.N → Option D.N
  unfolding middle_of sorted
  median values = middle_of (sorted values)

  abbrev pub median_or_none : List D.N → Option D.N
  median_or_none [] = none
  median_or_none (v ∷ values) = median (v ∷ values)

  abbrev pub count_of : Option ℕ → ℕ
  count_of none = 0
  count_of (some n) = n

  module _ {K : Type 0} ⦃e : Key K⦄ where
    unfoldable pub counts : List K → Dict K ℕ → Dict K ℕ
    counts [] seen = seen
    counts (value ∷ values) seen = counts values (put seen value (count_of (get seen value) + 1))

    -- `max(counts.values())`, above what came before
    abbrev pub max_count : ℕ → Dict K ℕ → ℕ
    max_count top [] = top
    max_count top ((k, n) ∷ items) = max_count (if ltb top n then n else top) items

    unfoldable pub concentration : List K → Option D.N
    unfolding counts
    concentration [] = none
    concentration (v ∷ values) =
        some (D.ratio (max_count 0 (counts (v ∷ values) [])) (length (v ∷ values)))

  abbrev pub cons : {A : Type 0} → Option A → Option (List A) → Option (List A)
  cons (some a) (some rest) = some (a ∷ rest)
  cons _ _ = none

  -- `[values[i] for i in indices]`; `none` is an exception, here and below.
  unfoldable pub sample : List D.N → List ℕ → Option (List D.N)
  sample values [] = some []
  sample values (i ∷ indices) = cons (get_elem? values i) (sample values indices)

  unfoldable pub medians_of : List D.N → List (List ℕ) → Option (List D.N)
  unfolding sample median
  medians_of values [] = some []
  medians_of values (indices ∷ draws) = elim (sample values indices) [
    | none ↦ none
    | some drawn ↦ cons (median drawn) (medians_of values draws)
  ]

  -- `medians[int((draws - 1) * 0.05)]` and the same for 0.95
  abbrev pub interval : ℕ → List D.N → Option D.N × Option D.N
  interval draws medians =
      (get_elem? medians ((draws - 1) * 5 / 100), get_elem? medians ((draws - 1) * 95 / 100))

  -- `rng seed n draws` are the indices that `random.Random`, seeded by the text's digest, draws below n.
  unfoldable pub bootstrap_median_interval :
      (String → ℕ → ℕ → List (List ℕ)) → List D.N → String → ℕ → Option (Option D.N × Option D.N)
  unfolding medians_of sorted
  bootstrap_median_interval rng [] seed_text draws = some (none, none)
  bootstrap_median_interval rng (v ∷ values) seed_text draws =
      elim (medians_of (v ∷ values) (rng seed_text (length (v ∷ values)) draws)) [
        | none ↦ none
        | some medians ↦ some (interval draws (sorted medians))
      ]
