-- ===== src/Budget/Rows.antt =====
-- Counting the consumed rows under the updates of src/investment_tracker/quant/phase4/engine/budget.py.
use investment_tracker.Prelude.{
  ℕ, zero, suc, ◌+◌, ◌≤◌, ◌≡◌, refl, ◌∙◌, false, some, List, [], ◌∷◌, map, arith, ok, length,
  get_elem?, set, length-set, none-past, Option-cases, inl, inr, if◌then◌else◌,
}
use investment_tracker.Budget.{
  RowState, unattempted, consumed, is_consumed, skip_unattempted, skip_rows,
}

pub count_consumed : List RowState → ℕ
count_consumed [] = 0
count_consumed (row ∷ rows) = (if is_consumed row then 1 else 0) + count_consumed rows

-- A row that was not consumed counts once it is; a skipped row never counts.
pub count-consume :
    (rows : List RowState) (i : ℕ) {row : RowState}
    → get_elem? rows i ≡ some row
    → is_consumed row ≡ false
    → count_consumed (set rows i consumed) ≡ count_consumed rows + 1
unfolding count_consumed
count-consume [] i e h = cc
count-consume (r ∷ rows) zero e h = ground arith
count-consume (r ∷ rows) (suc i) e h = omega (arith, count-consume rows i e h)

count-skip :
    (state : RowState) (rows : List RowState) (i : ℕ) (row : RowState)
    → is_consumed state ≡ false
    → get_elem? rows i ≡ some row
    → count_consumed (set rows i (skip_unattempted state row)) ≡ count_consumed rows
unfolding count_consumed
count-skip state [] i row n e = refl
count-skip state (r ∷ rows) zero row n e = ground arith
count-skip state (r ∷ rows) (suc i) row n e = omega (arith, count-skip state rows i row n e)

pub count-map_skip :
    (state : RowState) (rows : List RowState)
    → is_consumed state ≡ false
    → count_consumed (map (skip_unattempted state) rows) ≡ count_consumed rows
unfolding count_consumed
count-map_skip state [] n = refl
count-map_skip state (unattempted ∷ rows) n = ground (arith, count-map_skip state rows n)
count-map_skip state (_ ∷ rows) n = ground (arith, count-map_skip state rows n)

pub length-map {ℓ κ} :
    {A : Type ℓ} {B : Type κ} (f : A → B) (xs : List A) → length (map f xs) ≡ length xs
length-map f [] = refl
length-map f (x ∷ xs) = omega (arith, length-map f xs)

-- Skipping rows keeps their number and the number of consumed ones.
pub skip_rows-keeps :
    (state : RowState) (first count : ℕ) (rows : List RowState) {rows' : List RowState}
    → is_consumed state ≡ false
    → skip_rows state first count rows ≡ ok rows'
    → (length rows' ≡ length rows) × (count_consumed rows' ≡ count_consumed rows)
unfolding skip_rows
skip_rows-keeps state first zero rows n e = (ground arith, ground arith)
skip_rows-keeps state first (suc count) rows n e = elim (Option-cases (get_elem? rows first)) [
  | inl past ↦ absurd (ground arith)
  | inr (old, found) ↦
      let later =
        skip_rows-keeps state (suc first) count (set rows first (skip_unattempted state old)) n
          (ground arith) in
      (
        later.0 ∙ length-set rows first (skip_unattempted state old),
        later.1 ∙ count-skip state rows first old n found,
      )
]

-- Skipping rows inside the list does not raise.
pub skip_rows-returns :
    (state : RowState) (first count : ℕ) (rows : List RowState)
    → first + count ≤ length rows
    → (rows' : List RowState) × (skip_rows state first count rows ≡ ok rows')
unfolding skip_rows
skip_rows-returns state first zero rows h = (rows, refl)
skip_rows-returns state first (suc count) rows h = elim (Option-cases (get_elem? rows first)) [
  | inl past ↦ absurd (omega (arith, none-past rows first past))
  | inr (old, found) ↦
      let (rows', e) =
        skip_rows-returns state (suc first) count (set rows first (skip_unattempted state old))
          (omega (arith, length-set rows first (skip_unattempted state old))) in
      (rows', ground (arith, e))
]

pub count-fresh {ℓ} : {A : Type ℓ} (xs : List A) → count_consumed (map (λ _. unattempted) xs) ≡ 0
unfolding count_consumed
count-fresh [] = refl
count-fresh (x ∷ xs) = omega (arith, count-fresh xs)
