-- ===== src/Budget/Examples.antt =====
-- The theorems on src/investment_tracker/quant/phase4/engine/budget.py at a small campaign.
use investment_tracker.Prelude.{
  ◌+◌, ◌≤◌, ◌≡◌, refl, List, [], ◌∷◌, some, ok, err, Result, length, arith,
}
use investment_tracker.Budget.{
  any_unattempted, BudgetState, BudgetError, Candidate, negative, from_authority, consume_current,
  consume_unless, consume_row, index_of, record_candidate_outcome, after_outcome,
  advance_past_family, past_family,
}
use investment_tracker.Budget.Rows.{count_consumed}
use investment_tracker.Budget.Families.{total_size}
use investment_tracker.Budget.Traversal.{
  IsPopulation, Run, start, go_on, consume, outcome, Run-ends, Run-budget,
}

abbrev first : Candidate
first = record { candidate_id = "C1"; trial_id = "T1"; budget_position = 1 }

abbrev second : Candidate
second = record { candidate_id = "C2"; trial_id = "T2"; budget_position = 2 }

abbrev families : List (List Candidate)
families = (first ∷ []) ∷ (second ∷ []) ∷ []

abbrev candidates : List Candidate
candidates = first ∷ second ∷ []

abbrev initial : BudgetState
initial = from_authority families candidates

abbrev state_of : Result BudgetError BudgetState → BudgetState
state_of (ok s) = s
state_of (err e) = initial

abbrev consumed_first : BudgetState
consumed_first = state_of (consume_current initial "T1")

abbrev past_first : BudgetState
past_first = state_of (record_candidate_outcome consumed_first (some negative))

population : IsPopulation families candidates
unfolding total_size
population = record { sizes = refl; nonempty = omega arith; some_family = omega arith }

first_consumed : consume_current initial "T1" ≡ ok consumed_first
unfolding consume_current consume_unless consume_row index_of from_authority any_unattempted
first_consumed = refl

first_recorded : record_candidate_outcome consumed_first (some negative) ≡ ok past_first
unfolding record_candidate_outcome after_outcome advance_past_family past_family consume_current
    consume_unless consume_row index_of from_authority any_unattempted
first_recorded = refl

-- One trial is consumed and its outcome is recorded.
campaign : Run initial 1 past_first
campaign =
    go_on (go_on start (consume "T1" refl first_consumed) refl)
      (outcome (some negative) refl first_recorded) refl

Run-ends_example : ◌≤◌ 1 (length candidates)
Run-ends_example = Run-ends families candidates population campaign

Run-budget_example :
    (count_consumed past_first.row_states ≡ past_first.phase4_new_trials_consumed)
    × (past_first.phase4_new_trials_consumed + past_first.phase4_new_trials_remaining ≡ 3000)
    × (past_first.next_consumption_ordinal ≡ past_first.phase4_new_trials_consumed + 1)
Run-budget_example = Run-budget families candidates population campaign
