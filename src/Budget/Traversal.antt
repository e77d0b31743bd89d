-- ===== src/Budget/Traversal.antt =====
-- Campaigns of src/investment_tracker/quant/phase4/engine/budget.py as sequences of operations.
use investment_tracker.Prelude.{
  ℕ, ◌+◌, ◌≤◌, ◌<◌, ◌≡◌, refl, ◌∙◌, sym, ap, subst, String, Bool, true, Option, List, [], ◌∷◌, map,
  arith, ok, length, inl, inr, All,
}
use investment_tracker.Budget.{
  family_ranges_from, BudgetState, Candidate, FamilyReason, RowState, Sign, is_active,
  from_authority, consume_current, consume_row, exhaust_aggregate_budget, past_family, stop_family,
  advance_past_family, after_outcome, record_candidate_outcome, terminate_family, fail_campaign,
}
use investment_tracker.Budget.Rows.{count-fresh, count_consumed, length-map}
use investment_tracker.Budget.Families.{Covers, total_size, family_ranges-Covers}
use investment_tracker.Budget.Inversion.{
  consume_current-ok, stop_family-ok, advance_past_family-ok, after_outcome-cases,
  record_candidate_outcome-ok, terminate_family-cases, terminate_family-active,
  consume_unless-cases,
}
use investment_tracker.Budget.Invariant.{
  IsValid, streak-IsValid, consume_current-IsValid, record_candidate_outcome-IsValid,
  terminate_family-IsValid, fail_campaign-IsValid, inside,
}

-- The candidates are those of the families, and no family is empty.
pub record IsPopulation (families : List (List Candidate)) (candidates : List Candidate)
    : Type 0 where
  pub sizes : total_size (map (λ f. length f) families) ≡ length candidates
  pub nonempty : All (λ n. 0 < n) (map (λ f. length f) families)
  pub some_family : 0 < length families

from_authority-IsValid :
    (families : List (List Candidate)) (candidates : List Candidate)
    → IsPopulation families candidates
    → IsValid (from_authority families candidates)
unfolding from_authority
from_authority-IsValid [] candidates p = absurd (omega (arith, p.some_family))
from_authority-IsValid (f ∷ families) candidates p = record {
  rows = length-map _ candidates ∙ sym (length-map _ candidates);
  ordinals = length-map _ candidates ∙ sym (length-map _ candidates);
  budget = refl;
  next = refl;
  counted = count-fresh candidates;
  ranges =
      subst (Covers 0 (family_ranges_from 0 (map (λ f. length f) (f ∷ families))))
        {y = length (map (λ (c : Candidate). c.trial_id) candidates)}
        (omega (arith, p.sizes, length-map (λ (c : Candidate). c.trial_id) candidates))
        (family_ranges-Covers 0 (map (λ f. length f) (f ∷ families)) p.nonempty);
  cursor = omega arith;
  placed = omega (arith, p.nonempty.0);
}

trials-from_authority :
    (families : List (List Candidate)) (candidates : List Candidate)
    → length (from_authority families candidates).trial_ids ≡ length candidates
unfolding from_authority
trials-from_authority families candidates = length-map _ candidates

-- What one operation does, when it returns; `n` is 1 for a recorded outcome, and 0 otherwise.
pub data Step (s : BudgetState) (n : ℕ) (s' : BudgetState) : Type 0 where
  consume : (trial_id : String) → n ≡ 0 → consume_current s trial_id ≡ ok s' → Step s n s'
  outcome : (o : Option Sign) → n ≡ 1 → record_candidate_outcome s o ≡ ok s' → Step s n s'
  terminate : (reason : FamilyReason) → n ≡ 0 → terminate_family s reason ≡ ok s' → Step s n s'
  fail : n ≡ 0 → fail_campaign s ≡ s' → Step s n s'

-- The campaign goes from `s` with `n` recorded outcomes to the state at hand.
pub data Run (s : BudgetState) : ℕ → BudgetState → Type 0 where
  start : Run s 0 s
  go_on : {n m k : ℕ} {t u : BudgetState} → Run s n t → Step t m u → k ≡ n + m → Run s k u

Step-IsValid : {s s' : BudgetState} {n : ℕ} → Step s n s' → IsValid s → IsValid s'
Step-IsValid (consume trial_id n e) v = consume_current-IsValid _ v trial_id e
Step-IsValid (outcome o n e) v = record_candidate_outcome-IsValid _ o v e
Step-IsValid (terminate reason n e) v = terminate_family-IsValid _ reason v e
Step-IsValid (fail n e) v = subst IsValid e (fail_campaign-IsValid _ v)

-- The cursor and the trials after a family has ended at `b`.
past-cursor :
    (s : BudgetState) (reason : FamilyReason) (b : ℕ) (rows : List RowState)
    → let s' = past_family reason b rows s in
      (s'.traversal_cursor ≡ b) × (s'.trial_ids ≡ s.trial_ids)
unfolding past_family
past-cursor s reason b rows = (refl, refl)

-- The cursor moved on by `n` at least, over the same trials.
abbrev Moved : BudgetState → ℕ → BudgetState → Type 0
Moved s n s' = (s.traversal_cursor + n ≤ s'.traversal_cursor) × (s'.trial_ids ≡ s.trial_ids)

module _ (s : BudgetState) (v : IsValid s) (on : is_active s.campaign_status ≡ true) where
  stop_family-Moved :
      (reason : FamilyReason) (skipped : RowState) (include_current : Bool) {s' : BudgetState}
      → stop_family reason skipped include_current s ≡ ok s'
      → Moved s 1 s'
  stop_family-Moved reason skipped include_current e =
      let (a, b, rows, found, skip, done) = stop_family-ok s reason skipped include_current e in
      subst (Moved s 1) done (
        omega (arith, inside s v on found, past-cursor s reason b rows),
        (past-cursor s reason b rows).1,
      )

  advance_past_family-Moved :
      (reason : FamilyReason) {s' : BudgetState}
      → advance_past_family reason s ≡ ok s'
      → Moved s 1 s'
  advance_past_family-Moved reason e =
      let (a, b, found, done) = advance_past_family-ok s reason e in
      subst (Moved s 1) done (
        omega (arith, inside s v on found, past-cursor s reason b s.row_states),
        (past-cursor s reason b s.row_states).1,
      )

  after_outcome-Moved : {s' : BudgetState} → after_outcome s ≡ ok s' → Moved s 1 s'
  after_outcome-Moved e = elim (after_outcome-cases s e) [
    | inl stopped ↦ stop_family-Moved _ _ _ stopped
    | inr (inl exhausted) ↦ advance_past_family-Moved _ exhausted
    | inr (inr (a, b, found, inner, done)) ↦ subst (Moved s 1) done (omega arith, refl)
  ]

outcome-Moved :
    (s : BudgetState) (o : Option Sign) {s' : BudgetState}
    → IsValid s
    → record_candidate_outcome s o ≡ ok s'
    → Moved s 1 s'
outcome-Moved s o v e =
    let (streak, on, after) = record_candidate_outcome-ok s o e in
    after_outcome-Moved (record s { oos_streak = streak }) (streak-IsValid s streak v) on after

exhaust-Moved :
    (s : BudgetState)
    → s.traversal_cursor ≤ length s.trial_ids
    → Moved s 0 (exhaust_aggregate_budget s)
unfolding exhaust_aggregate_budget
exhaust-Moved s h = (omega arith, refl)

consume_row-Moved : (s : BudgetState) → Moved s 0 (consume_row s)
unfolding consume_row
consume_row-Moved s = (omega arith, refl)

consume-Moved :
    (s : BudgetState) (trial_id : String) {s' : BudgetState}
    → IsValid s
    → consume_current s trial_id ≡ ok s'
    → Moved s 0 s'
consume-Moved s trial_id {s'} v e =
    let (index, row, found, at, done) = consume_current-ok s trial_id e in
    elim (consume_unless-cases s index row done) [
      | inl same ↦ subst (Moved s 0) same (omega arith, refl)
      | inr (inl spent) ↦ subst (Moved s 0) spent (exhaust-Moved s v.cursor)
      | inr (inr (gone, fresh, here, left)) ↦ subst (Moved s 0) gone (consume_row-Moved s)
    ]

weaken : (s s' : BudgetState) → Moved s 1 s' → Moved s 0 s'
weaken s s' (up, same) = (omega arith, same)

terminate-Moved :
    (s : BudgetState) (reason : FamilyReason) {s' : BudgetState}
    → IsValid s
    → terminate_family s reason ≡ ok s'
    → Moved s 0 s'
terminate-Moved s reason {s'} v e =
    let on = terminate_family-active s reason e in
    elim (terminate_family-cases s reason e) [
      | inl stopped ↦ weaken s s' (stop_family-Moved s v on _ _ _ stopped)
      | inr (inl exhausted) ↦ weaken s s' (advance_past_family-Moved s v on _ exhausted)
      | inr (inr spent) ↦ weaken s s' (stop_family-Moved s v on _ _ _ spent)
    ]

fail-Moved : (s : BudgetState) → Moved s 0 (fail_campaign s)
unfolding fail_campaign
fail-Moved s = (omega arith, refl)

Step-Moved : {s s' : BudgetState} {n : ℕ} → Step s n s' → IsValid s → Moved s n s'
Step-Moved {s} {s'} (consume trial_id n e) v = rw n (consume-Moved _ trial_id v e)
Step-Moved {s} {s'} (outcome o n e) v = rw n (outcome-Moved _ o v e)
Step-Moved {s} {s'} (terminate reason n e) v = rw n (terminate-Moved _ reason v e)
Step-Moved {s} {s'} (fail n e) v = rw n (subst (Moved s 0) e (fail-Moved s))

-- Every state of a campaign keeps the accounting that it started with.
Run-IsValid : {s s' : BudgetState} {n : ℕ} → IsValid s → Run s n s' → IsValid s'
Run-IsValid v start = v
Run-IsValid v (go_on r step n) = Step-IsValid step (Run-IsValid v r)

Run-Moved : {s s' : BudgetState} {n : ℕ} → IsValid s → Run s n s' → Moved s n s'
Run-Moved v start = (omega arith, refl)
Run-Moved v (go_on r step n) =
    let before = Run-Moved v r in
    let last = Step-Moved step (Run-IsValid v r) in
    (omega (arith, before.0, last.0), last.1 ∙ before.1)

-- A campaign over a population records at most one outcome for each candidate, whatever operations
-- are made and in which order: it cannot go on for ever.
pub Run-ends :
    (families : List (List Candidate)) (candidates : List Candidate) {n : ℕ} {s : BudgetState}
    → IsPopulation families candidates
    → Run (from_authority families candidates) n s
    → n ≤ length candidates
Run-ends families candidates p r =
    let v = from_authority-IsValid families candidates p in
    let (up, same) = Run-Moved v r in
    omega (
      arith,
      (Run-IsValid v r).cursor,
      ap (λ (ids : List String). length ids) same,
      trials-from_authority families candidates,
    )

-- In every state of a campaign the consumed rows are as many as the counter says, and with the trials
-- that remain they make up 3000: no sequence of operations consumes more.
pub Run-budget :
    (families : List (List Candidate)) (candidates : List Candidate) {n : ℕ} {s : BudgetState}
    → IsPopulation families candidates
    → Run (from_authority families candidates) n s
    → (count_consumed s.row_states ≡ s.phase4_new_trials_consumed)
      × (s.phase4_new_trials_consumed + s.phase4_new_trials_remaining ≡ 3000)
      × (s.next_consumption_ordinal ≡ s.phase4_new_trials_consumed + 1)
Run-budget families candidates p r =
    let v = Run-IsValid (from_authority-IsValid families candidates p) r in
    (v.counted, v.budget, v.next)
