-- ===== src/Budget.antt =====
-- src/investment_tracker/quant/phase4/engine/budget.py, with the state's fields from engine/models.py:
-- how a campaign goes through its trials, family by family, on a budget of 3000. States are values:
-- each operation gives a new state, or raises. The models' validator, through which from_authority
-- builds the first state, is left out; `model_copy` does not validate. A tuple index past the end is
-- an IndexError.
pub mod Rows
pub mod Families
pub mod Inversion
pub mod Invariant
pub mod Traversal
mod Examples
use investment_tracker.Prelude.{
  ℕ, zero, suc, ◌+◌, ◌-◌, String, Bool, true, false, not, ◌&&◌, ◌||◌, Option, none, some, List, [],
  ◌∷◌, map, ltb, leb, ◌==◌, if◌then◌else◌, str_eq, Result, ok, err, and_then, or_raise, length,
  get_elem?, set,
}

pub data RowState : Type 0 where
  unattempted consumed skipped_family_stop skipped_per_family_budget : RowState
  skipped_aggregate_budget : RowState

pub data CampaignStatus : Type 0 where
  active campaign_execution_failed aggregate_budget_exhausted complete : CampaignStatus

pub data FamilyReason : Type 0 where
  persistent_oos_failure exhausted_grid per_family_budget_exhausted : FamilyReason

-- `Gate2SealError` with its messages, and IndexError.
pub data BudgetError : Type 0 where
  unknown_trial not_active already_traversed not_current not_consumed unfinished_grid : BudgetError
  index_error : BudgetError

-- A float, as far as its comparison with 0.
pub data Sign : Type 0 where
  negative zero_value positive not_a_number : Sign

pub record BudgetState : Type 0 where
  pub phase4_new_trials_consumed : ℕ
  pub phase4_new_trials_remaining : ℕ
  pub candidate_ids : List String
  pub trial_ids : List String
  pub budget_positions : List ℕ
  pub family_ranges : List (ℕ × ℕ)
  pub row_states : List RowState
  pub consumption_ordinals : List (Option ℕ)
  pub next_consumption_ordinal : ℕ
  pub traversal_cursor : ℕ
  pub active_family_index : ℕ
  pub oos_streak : ℕ
  pub campaign_status : CampaignStatus
  pub campaign_terminated : Bool
  pub last_family_reason : Option FamilyReason

-- A candidate of the grid authority, with the fields that the budget reads.
pub record Candidate : Type 0 where
  pub candidate_id : String
  pub trial_id : String
  pub budget_position : ℕ

abbrev pub persistent_oos_limit : ℕ
persistent_oos_limit = 50

-- `_family_ranges`, from the number of candidates of each family.
pub family_ranges_from : ℕ → List ℕ → List (ℕ × ℕ)
family_ranges_from cursor [] = []
family_ranges_from cursor (n ∷ families) =
    (cursor, cursor + n) ∷ family_ranges_from (cursor + n) families

-- `from_authority`
pub from_authority : List (List Candidate) → List Candidate → BudgetState
unfolding family_ranges_from
from_authority families candidates = record {
  phase4_new_trials_consumed = 0;
  phase4_new_trials_remaining = 3000;
  candidate_ids = map (λ c. c.candidate_id) candidates;
  trial_ids = map (λ c. c.trial_id) candidates;
  budget_positions = map (λ c. c.budget_position) candidates;
  family_ranges = family_ranges_from 0 (map (λ f. length f) families);
  row_states = map (λ _. unattempted) candidates;
  consumption_ordinals = map (λ _. none) candidates;
  next_consumption_ordinal = 1;
  traversal_cursor = 0;
  active_family_index = 0;
  oos_streak = 0;
  campaign_status = active;
  campaign_terminated = false;
  last_family_reason = none;
}

abbrev pub is_active : CampaignStatus → Bool
is_active active = true
is_active _ = false

abbrev pub is_consumed : RowState → Bool
is_consumed consumed = true
is_consumed _ = false

abbrev pub is_unattempted : RowState → Bool
is_unattempted unattempted = true
is_unattempted _ = false

-- `trial_ids.index(trial_id)`
pub index_of : String → List String → Option ℕ
index_of id [] = none
index_of id (x ∷ xs) =
    let rest = index_of id xs in
    if str_eq x id then some 0 else elim rest [ none ↦ none | some i ↦ some (suc i) ]

-- `row_states[index]`
pub row_at : BudgetState → ℕ → Result BudgetError RowState
row_at s i = or_raise index_error (get_elem? s.row_states i)

-- `family_ranges[active_family_index]`
active_range : BudgetState → Result BudgetError (ℕ × ℕ)
active_range s = or_raise index_error (get_elem? s.family_ranges s.active_family_index)

abbrev skip_unattempted : RowState → RowState → RowState
skip_unattempted state unattempted = state
skip_unattempted state other = other

pub exhaust_aggregate_budget : BudgetState → BudgetState
exhaust_aggregate_budget s = record s {
  row_states = map (skip_unattempted skipped_aggregate_budget) s.row_states;
  traversal_cursor = length s.trial_ids;
  active_family_index = length s.family_ranges;
  oos_streak = 0;
  campaign_status = aggregate_budget_exhausted;
  campaign_terminated = true;
}

-- The end of `consume_current`: the current row takes the next ordinal.
pub consume_row : BudgetState → BudgetState
consume_row s =
    let consumed_now = s.phase4_new_trials_consumed + 1 in
    record s {
      row_states = set s.row_states s.traversal_cursor consumed;
      consumption_ordinals =
          set s.consumption_ordinals s.traversal_cursor (some s.next_consumption_ordinal);
      phase4_new_trials_consumed = consumed_now;
      phase4_new_trials_remaining = 3000 - consumed_now;
      next_consumption_ordinal = consumed_now + 1;
    }

-- `consume_current` from the state of the trial's row on.
pub consume_unless : BudgetState → ℕ → RowState → Result BudgetError BudgetState
consume_unless s index state =
    if is_consumed state
    then ok s
    else if not (is_active s.campaign_status)
    then err not_active
    else if leb (length s.trial_ids) s.traversal_cursor
    then err already_traversed
    else if not (index == s.traversal_cursor)
    then err not_current
    else if s.phase4_new_trials_remaining == 0
    then ok (exhaust_aggregate_budget s)
    else ok (consume_row s)

pub consume_current : BudgetState → String → Result BudgetError BudgetState
unfolding row_at
consume_current s trial_id =
    and_then (or_raise unknown_trial (index_of trial_id s.trial_ids))
      λ index. and_then (row_at s index) λ state. consume_unless s index state

-- `for index in range(first, first + count)`, with what `_stop_family` does to each row.
pub skip_rows : RowState → ℕ → ℕ → List RowState → Result BudgetError (List RowState)
skip_rows state first zero rows = ok rows
skip_rows state first (suc count) rows =
    and_then (or_raise index_error (get_elem? rows first))
      λ old. skip_rows state (suc first) count (set rows first (skip_unattempted state old))

-- The status after a family has ended.
abbrev status_after : BudgetState → CampaignStatus
status_after s =
    if leb (length s.family_ranges) (s.active_family_index + 1) then complete else active

-- The updates that the two ways to end a family share.
pub past_family : FamilyReason → ℕ → List RowState → BudgetState → BudgetState
past_family reason family_end rows s = record s {
  row_states = rows;
  traversal_cursor = family_end;
  active_family_index = s.active_family_index + 1;
  oos_streak = 0;
  last_family_reason = some reason;
  campaign_status = status_after s;
}

pub stop_family : FamilyReason → RowState → Bool → BudgetState → Result BudgetError BudgetState
unfolding active_range
stop_family reason skipped_state include_current s = and_then (active_range s) λ range.
    let first = if include_current then s.traversal_cursor else s.traversal_cursor + 1 in
    and_then (skip_rows skipped_state first (range.1 - first) s.row_states)
      λ rows. ok (past_family reason range.1 rows s)

-- `any(state == "UNATTEMPTED" for state in rows[start:end])`
any_unattempted : ℕ → ℕ → List RowState → Bool
any_unattempted start end [] = false
any_unattempted start zero (row ∷ rows) = false
any_unattempted zero (suc end) (row ∷ rows) = is_unattempted row || any_unattempted zero end rows
any_unattempted (suc start) (suc end) (row ∷ rows) = any_unattempted start end rows

abbrev is_exhausted_grid : FamilyReason → Bool
is_exhausted_grid exhausted_grid = true
is_exhausted_grid _ = false

pub advance_past_family : FamilyReason → BudgetState → Result BudgetError BudgetState
unfolding active_range
advance_past_family reason s = and_then (active_range s) λ range.
    if is_exhausted_grid reason && any_unattempted range.0 range.1 s.row_states
    then err unfinished_grid
    else ok (past_family reason range.1 s.row_states s)

-- `outcome is not None and outcome > 0`
abbrev is_positive : Option Sign → Bool
is_positive (some positive) = true
is_positive _ = false

-- `record_candidate_outcome` after its guards, in the state with the new streak.
pub after_outcome : BudgetState → Result BudgetError BudgetState
unfolding active_range
after_outcome s = and_then (active_range s) λ range.
    if leb persistent_oos_limit s.oos_streak
    then stop_family persistent_oos_failure skipped_family_stop false s
    else if s.traversal_cursor + 1 == range.1
    then advance_past_family exhausted_grid s
    else ok (record s { traversal_cursor = s.traversal_cursor + 1 })

pub record_candidate_outcome : BudgetState → Option Sign → Result BudgetError BudgetState
unfolding row_at
record_candidate_outcome s outcome =
    if not (is_active s.campaign_status)
    then err not_active
    else and_then (row_at s s.traversal_cursor) λ state.
      if not (is_consumed state)
      then err not_consumed
      else after_outcome
          (record s { oos_streak = if is_positive outcome then 0 else s.oos_streak + 1 })

-- A reason outside the three is excluded by the type.
pub terminate_family : BudgetState → FamilyReason → Result BudgetError BudgetState
terminate_family s reason =
    if not (is_active s.campaign_status) then err not_active else elim reason [
      | persistent_oos_failure ↦ stop_family persistent_oos_failure skipped_family_stop false s
      | exhausted_grid ↦ advance_past_family exhausted_grid s
      | per_family_budget_exhausted ↦
          stop_family per_family_budget_exhausted skipped_per_family_budget true s
    ]

pub fail_campaign : BudgetState → BudgetState
fail_campaign s = record s {
  campaign_status = campaign_execution_failed;
  campaign_terminated = true;
}
