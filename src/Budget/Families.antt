-- ===== src/Budget/Families.antt =====
-- The ranges of the families in src/investment_tracker/quant/phase4/engine/budget.py: as the models'
-- validator asks (engine/models.py), they are contiguous and increasing and cover the population.
use native.Mathlib.Nat.{add_assoc}
use investment_tracker.Prelude.{
  ℕ, zero, suc, ◌+◌, ◌≤◌, ◌<◌, ◌≡◌, refl, some, List, [], ◌∷◌, arith, get_elem?, All,
}
use investment_tracker.Budget.{family_ranges_from}

-- The ranges go on from `start` up to `total`, and none is empty.
abbrev pub Covers : ℕ → List (ℕ × ℕ) → ℕ → Type 0
Covers start [] total = start ≡ total
Covers start ((a, b) ∷ ranges) total = (a ≡ start) × (a < b) × Covers b ranges total

unfoldable pub total_size : List ℕ → ℕ
total_size [] = 0
total_size (n ∷ families) = n + total_size families

pub family_ranges-Covers :
    (start : ℕ) (families : List ℕ)
    → All (λ n. 0 < n) families
    → Covers start (family_ranges_from start families) (start + total_size families)
unfolding family_ranges_from total_size
family_ranges-Covers start [] h = omega arith
family_ranges-Covers start (n ∷ families) h = (
  refl,
  omega arith,
  rw (← add_assoc start n (total_size families)) (family_ranges-Covers (start + n) families h.1),
)

pub Covers-le :
    (start : ℕ) (ranges : List (ℕ × ℕ)) (total : ℕ) → Covers start ranges total → start ≤ total
Covers-le start [] total h = omega arith
Covers-le start ((a, b) ∷ ranges) total h = omega (arith, Covers-le b ranges total h.2)

pub range-at :
    (start : ℕ) (ranges : List (ℕ × ℕ)) (total i : ℕ) {a b : ℕ}
    → Covers start ranges total
    → get_elem? ranges i ≡ some (a, b)
    → (a < b) × (b ≤ total)
range-at start [] total i c e = cc
range-at start ((x, y) ∷ ranges) total zero c e =
    (ground arith, ground (arith, Covers-le y ranges total c.2))
range-at start ((x, y) ∷ ranges) total (suc i) c e = range-at y ranges total i c.2 e

-- The next range starts where one ends, and the last ends with the population.
pub range-next :
    (start : ℕ) (ranges : List (ℕ × ℕ)) (total i : ℕ) {a b c d : ℕ}
    → Covers start ranges total
    → get_elem? ranges i ≡ some (a, b)
    → get_elem? ranges (suc i) ≡ some (c, d)
    → c ≡ b
range-next start [] total i v e f = cc
range-next start ((x, y) ∷ []) total zero v e f = cc
range-next start ((x, y) ∷ (z, w) ∷ ranges) total zero v e f = ground arith
range-next start ((x, y) ∷ ranges) total (suc i) v e f = range-next y ranges total i v.2 e f
