-- ===== src/Budget/Invariant.antt =====
-- The accounting that every operation of src/investment_tracker/quant/phase4/engine/budget.py keeps.
use investment_tracker.Prelude.{
  subst, ℕ, suc, ◌+◌, ◌≤◌, ◌<◌, ◌≡◌, refl, ◌∙◌, String, Bool, true, false, some, none, Option, List,
  arith, ok, length, get_elem?, length-set, Option-cases, inl, inr, if◌then◌else◌, get_elem?-lt,
  none-past, leb,
}
use investment_tracker.Budget.{
  past_family, complete, BudgetState, RowState, FamilyReason, Sign, active, is_consumed, is_active,
  consume_current, consume_unless, consume_row, exhaust_aggregate_budget, stop_family,
  advance_past_family, after_outcome, record_candidate_outcome, terminate_family, fail_campaign,
  CampaignStatus,
}
use investment_tracker.Budget.Inversion.{
  consume_current-ok, stop_family-ok, advance_past_family-ok, after_outcome-cases,
  record_candidate_outcome-ok, terminate_family-cases, consume_unless-cases,
}
use investment_tracker.Budget.Rows.{
  count_consumed, count-consume, count-map_skip, length-map, skip_rows-keeps,
}
use investment_tracker.Budget.Families.{Covers, range-at, range-next}

-- The cursor stands in the range.
abbrev pub Inside : Option (ℕ × ℕ) → ℕ → Type 0
Inside none cursor = ⊥
Inside (some (a, b)) cursor = (a ≤ cursor) × (cursor < b)

-- While the campaign is active, the cursor stands in the active family.
abbrev pub Placed : CampaignStatus → Option (ℕ × ℕ) → ℕ → Type 0
Placed active range cursor = Inside range cursor
Placed _ range cursor = Unit

-- Rows, ordinals and trials align; the counters add up to 3000 and count the consumed rows; the
-- ranges cover the trials, and the cursor stands in them.
pub record IsValid (s : BudgetState) : Type 0 where
  pub rows : length s.row_states ≡ length s.trial_ids
  pub ordinals : length s.consumption_ordinals ≡ length s.trial_ids
  pub budget : s.phase4_new_trials_consumed + s.phase4_new_trials_remaining ≡ 3000
  pub next : s.next_consumption_ordinal ≡ s.phase4_new_trials_consumed + 1
  pub counted : count_consumed s.row_states ≡ s.phase4_new_trials_consumed
  pub ranges : Covers 0 s.family_ranges (length s.trial_ids)
  pub cursor : s.traversal_cursor ≤ length s.trial_ids
  pub placed :
      Placed s.campaign_status (get_elem? s.family_ranges s.active_family_index) s.traversal_cursor

module _ (s : BudgetState) (v : IsValid s) where
  exhaust-IsValid : IsValid (exhaust_aggregate_budget s)
  unfolding exhaust_aggregate_budget
  exhaust-IsValid = record {
    rows = length-map _ s.row_states ∙ v.rows;
    ordinals = v.ordinals;
    budget = v.budget;
    next = v.next;
    counted = count-map_skip _ s.row_states refl ∙ v.counted;
    ranges = v.ranges;
    cursor = omega arith;
    placed = tt;
  }

  consume_row-IsValid :
      {row : RowState}
      → get_elem? s.row_states s.traversal_cursor ≡ some row
      → is_consumed row ≡ false
      → 0 < s.phase4_new_trials_remaining
      → IsValid (consume_row s)
  unfolding consume_row
  consume_row-IsValid found fresh left = record {
    rows = length-set s.row_states _ _ ∙ v.rows;
    ordinals = length-set s.consumption_ordinals _ _ ∙ v.ordinals;
    budget = omega (arith, v.budget);
    next = refl;
    counted = omega (arith, count-consume s.row_states s.traversal_cursor found fresh, v.counted);
    ranges = v.ranges;
    cursor = v.cursor;
    placed = v.placed;
  }

  consume_unless-IsValid :
      (index : ℕ) {row : RowState} {s' : BudgetState}
      → get_elem? s.row_states index ≡ some row
      → consume_unless s index row ≡ ok s'
      → IsValid s'
  consume_unless-IsValid index {row} found e = elim (consume_unless-cases s index row e) [
    | inl same ↦ subst IsValid same v
    | inr (inl spent) ↦ subst IsValid spent exhaust-IsValid
    | inr (inr (done, fresh, here, left)) ↦
        subst IsValid done (consume_row-IsValid (rw here at found) fresh left)
  ]

  -- A successful consumption keeps the accounting.
  pub consume_current-IsValid :
      (trial_id : String) {s' : BudgetState} → consume_current s trial_id ≡ ok s' → IsValid s'
  consume_current-IsValid trial_id e =
      let (index, row, found, at, done) = consume_current-ok s trial_id e in
      consume_unless-IsValid index at done

  -- Where a family has ended at `b`, the campaign is complete or the cursor is at the next family.
  next-Placed :
      {a b : ℕ}
      → get_elem? s.family_ranges s.active_family_index ≡ some (a, b)
      → Placed
          (if leb (length s.family_ranges) (s.active_family_index + 1) then complete else active)
          (get_elem? s.family_ranges (s.active_family_index + 1))
          b
  next-Placed {b = b} found =
      elim (Option-cases (get_elem? s.family_ranges (suc s.active_family_index))) [
        | inl last ↦ ground (arith, none-past s.family_ranges (suc s.active_family_index) last)
        | inr ((c, d), later) ↦ ground (
          arith,
          get_elem?-lt s.family_ranges (suc s.active_family_index) later,
          range-next 0 s.family_ranges (length s.trial_ids) s.active_family_index v.ranges found
              later,
          range-at 0 s.family_ranges (length s.trial_ids) (suc s.active_family_index) v.ranges
              later,
        )
      ]

  past_family-IsValid :
      (reason : FamilyReason) (rows : List RowState) {a b : ℕ}
      → get_elem? s.family_ranges s.active_family_index ≡ some (a, b)
      → length rows ≡ length s.row_states
      → count_consumed rows ≡ count_consumed s.row_states
      → IsValid (past_family reason b rows s)
  unfolding past_family
  past_family-IsValid reason rows found same_length same_count = record {
    rows = same_length ∙ v.rows;
    ordinals = v.ordinals;
    budget = v.budget;
    next = v.next;
    counted = same_count ∙ v.counted;
    ranges = v.ranges;
    cursor =
        (range-at 0 s.family_ranges (length s.trial_ids) s.active_family_index v.ranges found).1;
    placed = next-Placed found;
  }

  stop_family-IsValid :
      (reason : FamilyReason) (skipped : RowState) (include_current : Bool) {s' : BudgetState}
      → is_consumed skipped ≡ false
      → stop_family reason skipped include_current s ≡ ok s'
      → IsValid s'
  stop_family-IsValid reason skipped include_current {s'} n e =
      let (a, b, rows, found, skip, done) = stop_family-ok s reason skipped include_current e in
      let kept = skip_rows-keeps skipped _ _ s.row_states n skip in
      subst IsValid done (past_family-IsValid reason rows found kept.0 kept.1)

  advance_past_family-IsValid :
      (reason : FamilyReason) {s' : BudgetState} → advance_past_family reason s ≡ ok s' → IsValid s'
  advance_past_family-IsValid reason e =
      let (a, b, found, done) = advance_past_family-ok s reason e in
      subst IsValid done (past_family-IsValid reason s.row_states found refl refl)

  -- The current trial stands in the active family.
  pub inside :
      {a b : ℕ}
      → is_active s.campaign_status ≡ true
      → get_elem? s.family_ranges s.active_family_index ≡ some (a, b)
      → (a ≤ s.traversal_cursor) × (s.traversal_cursor < b)
  inside on found = ground (arith, v.placed)

after_outcome-IsValid :
    (s : BudgetState) {s' : BudgetState}
    → IsValid s
    → is_active s.campaign_status ≡ true
    → after_outcome s ≡ ok s'
    → IsValid s'
after_outcome-IsValid s v on e = elim (after_outcome-cases s e) [
  | inl stopped ↦ stop_family-IsValid s v _ _ _ refl stopped
  | inr (inl exhausted) ↦ advance_past_family-IsValid s v _ exhausted
  | inr (inr (a, b, found, inner, done)) ↦ subst IsValid done (record {
    rows = v.rows;
    ordinals = v.ordinals;
    budget = v.budget;
    next = v.next;
    counted = v.counted;
    ranges = v.ranges;
    cursor = omega (
      arith,
      (inside s v on found).1,
      range-at 0 s.family_ranges (length s.trial_ids) s.active_family_index v.ranges found,
    );
    placed = ground (arith, inside s v on found);
  })
]

pub streak-IsValid :
    (s : BudgetState) (streak : ℕ) → IsValid s → IsValid (record s { oos_streak = streak })
streak-IsValid s streak v = record {
  rows = v.rows;
  ordinals = v.ordinals;
  budget = v.budget;
  next = v.next;
  counted = v.counted;
  ranges = v.ranges;
  cursor = v.cursor;
  placed = v.placed;
}

pub record_candidate_outcome-IsValid :
    (s : BudgetState) (outcome : Option Sign) {s' : BudgetState}
    → IsValid s
    → record_candidate_outcome s outcome ≡ ok s'
    → IsValid s'
record_candidate_outcome-IsValid s outcome v e =
    let (streak, on, after) = record_candidate_outcome-ok s outcome e in
    after_outcome-IsValid (record s { oos_streak = streak }) (streak-IsValid s streak v) on after

pub terminate_family-IsValid :
    (s : BudgetState) (reason : FamilyReason) {s' : BudgetState}
    → IsValid s
    → terminate_family s reason ≡ ok s'
    → IsValid s'
terminate_family-IsValid s reason v e = elim (terminate_family-cases s reason e) [
  | inl stopped ↦ stop_family-IsValid s v _ _ _ refl stopped
  | inr (inl exhausted) ↦ advance_past_family-IsValid s v _ exhausted
  | inr (inr spent) ↦ stop_family-IsValid s v _ _ _ refl spent
]

pub fail_campaign-IsValid : (s : BudgetState) → IsValid s → IsValid (fail_campaign s)
unfolding fail_campaign
fail_campaign-IsValid s v = record {
  rows = v.rows;
  ordinals = v.ordinals;
  budget = v.budget;
  next = v.next;
  counted = v.counted;
  ranges = v.ranges;
  cursor = v.cursor;
  placed = tt;
}
