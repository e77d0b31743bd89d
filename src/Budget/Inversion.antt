-- ===== src/Budget/Inversion.antt =====
-- What a call that returned did, for src/investment_tracker/quant/phase4/engine/budget.py.
use investment_tracker.Prelude.{
  String, ◌==◌, ◌≢◌, Result-cases, ◌⊎◌, ℕ, ◌+◌, ◌-◌, ◌<◌, ◌≡◌, Bool, true, false, some, Option,
  List, arith, ok, get_elem?, Option-cases, Bool-cases, inl, inr, if◌then◌else◌, leb,
}
use investment_tracker.Budget.{
  consume_current, index_of, is_positive, per_family_budget_exhausted, skipped_per_family_budget,
  persistent_oos_limit, persistent_oos_failure, exhausted_grid, skipped_family_stop, past_family,
  BudgetState, RowState, FamilyReason, Sign, is_consumed, is_active, consume_unless, consume_row,
  exhaust_aggregate_budget, stop_family, advance_past_family, after_outcome,
  record_candidate_outcome, terminate_family, skip_rows,
}

pub stop_family-ok :
    (s : BudgetState) (reason : FamilyReason) (skipped : RowState) (include_current : Bool)
    {s' : BudgetState}
    → stop_family reason skipped include_current s ≡ ok s'
    → let first = if include_current then s.traversal_cursor else s.traversal_cursor + 1 in
      (a : ℕ) × (b : ℕ) × (rows : List RowState) × (get_elem? s.family_ranges s.active_family_index
        ≡ some (a, b))
      × (skip_rows skipped first (b - first) s.row_states ≡ ok rows)
      × (past_family reason b rows s ≡ s')
unfolding stop_family
stop_family-ok s reason skipped include_current e =
    elim (Option-cases (get_elem? s.family_ranges s.active_family_index)) [
      | inl past ↦ absurd (ground arith)
      | inr ((a, b), found) ↦
          let first = if include_current then s.traversal_cursor else s.traversal_cursor + 1 in
          elim (Result-cases (skip_rows skipped first (b - first) s.row_states)) [
            | inl (x, failed) ↦ absurd (ground arith)
            | inr (rows, skip) ↦ (a, b, rows, found, skip, ground arith)
          ]
    ]

pub advance_past_family-ok :
    (s : BudgetState) (reason : FamilyReason) {s' : BudgetState}
    → advance_past_family reason s ≡ ok s'
    → (a : ℕ) × (b : ℕ) × (get_elem? s.family_ranges s.active_family_index ≡ some (a, b))
      × (past_family reason b s.row_states s ≡ s')
unfolding advance_past_family
advance_past_family-ok s reason e =
    elim (Option-cases (get_elem? s.family_ranges s.active_family_index)) [
      | inl past ↦ absurd (ground arith)
      | inr ((a, b), found) ↦ (a, b, found, ground arith)
    ]

pub after_outcome-cases :
    (s : BudgetState) {s' : BudgetState}
    → after_outcome s ≡ ok s'
    → (stop_family persistent_oos_failure skipped_family_stop false s ≡ ok s')
      ⊎ ((advance_past_family exhausted_grid s ≡ ok s')
          ⊎ ((a : ℕ) × (b : ℕ) × (get_elem? s.family_ranges s.active_family_index ≡ some (a, b))
              × (s.traversal_cursor + 1 ≢ b)
              × (record s { traversal_cursor = s.traversal_cursor + 1 } ≡ s')))
unfolding after_outcome
after_outcome-cases s e = elim (Option-cases (get_elem? s.family_ranges s.active_family_index)) [
  | inl past ↦ absurd (ground arith)
  | inr ((a, b), found) ↦ elim (Bool-cases (leb persistent_oos_limit s.oos_streak)) [
    | inl stops ↦ inl (ground arith)
    | inr goes_on ↦ elim (Bool-cases (s.traversal_cursor + 1 == b)) [
      | inl ends ↦ inr (inl (ground arith))
      | inr inner ↦ inr (inr (a, b, found, ground arith, ground arith))
    ]
  ]
]

-- A recorded outcome comes from an active campaign whose current row is consumed.
pub record_candidate_outcome-ok :
    (s : BudgetState) (outcome : Option Sign) {s' : BudgetState}
    → record_candidate_outcome s outcome ≡ ok s'
    → (streak : ℕ) × (is_active s.campaign_status ≡ true)
      × (after_outcome (record s { oos_streak = streak }) ≡ ok s')
unfolding record_candidate_outcome
record_candidate_outcome-ok s outcome e =
    (if is_positive outcome then 0 else s.oos_streak + 1, ground arith, ground arith)

-- The calls that `terminate_family` makes.
pub terminate_family-cases :
    (s : BudgetState) (reason : FamilyReason) {s' : BudgetState}
    → terminate_family s reason ≡ ok s'
    → (stop_family persistent_oos_failure skipped_family_stop false s ≡ ok s')
      ⊎ ((advance_past_family exhausted_grid s ≡ ok s')
          ⊎ (stop_family per_family_budget_exhausted skipped_per_family_budget true s ≡ ok s'))
unfolding terminate_family
terminate_family-cases s reason e = ground arith

pub consume_unless-cases :
    (s : BudgetState) (index : ℕ) (row : RowState) {s' : BudgetState}
    → consume_unless s index row ≡ ok s'
    → (s ≡ s')
      ⊎ ((exhaust_aggregate_budget s ≡ s')
          ⊎ ((consume_row s ≡ s')
              × (is_consumed row ≡ false)
              × (index ≡ s.traversal_cursor)
              × (0 < s.phase4_new_trials_remaining)))
unfolding consume_unless
consume_unless-cases s index row e = ground arith

pub terminate_family-active :
    (s : BudgetState) (reason : FamilyReason) {s' : BudgetState}
    → terminate_family s reason ≡ ok s'
    → is_active s.campaign_status ≡ true
unfolding terminate_family
terminate_family-active s reason e = ground arith

pub consume_current-ok :
    (s : BudgetState) (trial_id : String) {s' : BudgetState}
    → consume_current s trial_id ≡ ok s'
    → (index : ℕ) × (row : RowState) × (index_of trial_id s.trial_ids ≡ some index)
      × (get_elem? s.row_states index ≡ some row)
      × (consume_unless s index row ≡ ok s')
unfolding consume_current
consume_current-ok s trial_id e = elim (Option-cases (index_of trial_id s.trial_ids)) [
  | inl unknown ↦ absurd (ground arith)
  | inr (index, found) ↦ elim (Option-cases (get_elem? s.row_states index)) [
    | inl past ↦ absurd (ground arith)
    | inr (row, at) ↦ (index, row, found, at, ground arith)
  ]
]
