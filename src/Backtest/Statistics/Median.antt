-- ===== src/Backtest/Statistics/Median.antt =====
-- The median of src/investment_tracker/backtest_v1.py, over Decimals in their order.
use mathlib.Core.List.{Permᴰ}
use mathlib.Core.List.Permᴰ.{nil, cons, swap, trans}
use investment_tracker.Prelude.{◌≡◌, refl, ap, ◌∙◌, true, false, List, [], ◌∷◌, arith}
use investment_tracker.Backtest.{Decimals}
use investment_tracker.Backtest.Statistics.{insert_decimal, sorted, median, middle_of}

-- `<` is a linear order of the values.
pub record Linear (D : Decimals) : Type 0 where
  pub asymmetric : (a b : D.N) → D.lt a b ≡ true → D.lt b a ≡ false
  pub transitive : (a b c : D.N) → D.lt b a ≡ false → D.lt c b ≡ false → D.lt c a ≡ false
  pub connected : (a b : D.N) → D.lt a b ≡ false → D.lt b a ≡ false → a ≡ b

module _ (D : Decimals) (laws : Linear D) where
  insert_decimal-swap :
      (a b : D.N) (l : List D.N)
      → insert_decimal D a (insert_decimal D b l) ≡ insert_decimal D b (insert_decimal D a l)
  unfolding insert_decimal
  insert_decimal-swap a b [] = ground (arith, laws.asymmetric a b, laws.connected a b)
  insert_decimal-swap a b (c ∷ l) = ground (
    arith,
    laws.asymmetric a b,
    laws.connected a b,
    laws.transitive a b c,
    laws.transitive b a c,
    laws.transitive c a b,
    laws.transitive c b a,
    laws.asymmetric c a,
    laws.asymmetric c b,
    insert_decimal-swap a b l,
  )

  sorted-Perm : {xs ys : List D.N} → Permᴰ xs ys → sorted D xs ≡ sorted D ys
  unfolding sorted
  sorted-Perm nil = refl
  sorted-Perm (cons {a = a} {b = b} {l₁ = xs} {l₂ = ys} e p) = let rest = sorted-Perm p in cc
  sorted-Perm (swap {a = a} {b = b} {l = l} e f) =
      let commutes = insert_decimal-swap a b (sorted D l) in cc
  sorted-Perm (trans p q) = sorted-Perm p ∙ sorted-Perm q

  -- The median of a list of values does not depend on their order.
  median-Perm : {xs ys : List D.N} → Permᴰ xs ys → median D xs ≡ median D ys
  unfolding median
  median-Perm p = ap (middle_of D) (sorted-Perm p)
