-- ===== src/Optimizer/Search/Stopping.antt =====
-- When the search of src/investment_tracker/quant/optimizer/search.py stops for persistent failure.
use investment_tracker.Prelude.{
  ℕ, ◌+◌, ◌<◌, ◌≡◌, ◌↔◌, refl, true, List, [], ◌∷◌, ◌++◌, arith, if◌then◌else◌,
}
use investment_tracker.Replay.{Number}
use investment_tracker.Optimizer.Search.Loop.{search_from_rule}
use investment_tracker.Optimizer.Search.{
  CandidateEvaluation, SearchBudget, Progress, Round, stopped, going, persistent_oos_failure,
  observe, update_best, run_search, is_valid_budget, start,
}

module _ {C N : Type 0} where
  -- How many evaluations at the end of the list did not improve out of sample, after `n` before it.
  unfoldable pub streak : ℕ → List (CandidateEvaluation C N) → ℕ
  streak n [] = n
  streak n (e ∷ es) = streak (if e.out_of_sample_improved then 0 else n + 1) es

  pub streak-append :
      (n : ℕ) (es : List (CandidateEvaluation C N)) (e : CandidateEvaluation C N)
      → streak n (es ++ e ∷ []) ≡ (if e.out_of_sample_improved then 0 else streak n es + 1)
  unfolding streak
  streak-append n [] e = refl
  streak-append n (f ∷ es) e = streak-append (if f.out_of_sample_improved then 0 else n + 1) es e

  -- The loop's own count of the streak is the streak of what it has seen, and is below the patience.
  pub record Counts (patience : ℕ) (p : Progress C N) : Type 0 where
    pub counted : p.oos_stale ≡ streak 0 p.evaluations
    pub below : p.oos_stale < patience

-- What a round keeps: to go on, or to stop for failure exactly at the patience.
abbrev pub Kept : {C N : Type 0} → ℕ → Round C N → Type 0
Kept patience (going q) = Counts patience q
Kept patience (stopped q reason) =
    (reason ≡ persistent_oos_failure) ↔ (streak 0 q.evaluations ≡ patience)

module _ {C : Type 0} (F : Number) (budget : SearchBudget F.N) where
  update_best-Kept :
      (e : CandidateEvaluation C F.N) (p : Progress C F.N)
      → Counts budget.patience p
      → Kept budget.patience (update_best F budget e p)
  unfolding update_best
  update_best-Kept e p v = ground arith

  observe-Kept :
      (e : CandidateEvaluation C F.N) (p : Progress C F.N)
      → Counts budget.patience p
      → Kept budget.patience (observe F budget e p)
  unfolding observe
  observe-Kept e p v = ground (arith, streak-append 0 p.evaluations e)

-- A search under a valid budget stops for persistent failure exactly when the evaluations end in as
-- many failures in a row as the patience.
pub run_search-streak :
    {C : Type 0} (F : Number) (evaluator : C → CandidateEvaluation C F.N)
    (budget : SearchBudget F.N) (generator : List C)
    → is_valid_budget F budget ≡ true
    → let r = run_search F evaluator budget generator in
      (r.stop_reason ≡ persistent_oos_failure) ↔ (streak 0 r.evaluations ≡ budget.patience)
unfolding run_search is_valid_budget streak
run_search-streak {C} F evaluator budget generator valid =
    search_from_rule F evaluator budget (λ p cs. Counts budget.patience p)
      (λ r. (r.stop_reason ≡ persistent_oos_failure) ↔ (streak 0 r.evaluations ≡ budget.patience))
      (λ p v. (λ h. cc, λ h. absurd (omega (arith, v.counted, v.below))))
      (λ p c cs v full. (λ h. cc, λ h. absurd (omega (arith, v.counted, v.below))))
      (λ p c cs v room. observe-Kept F budget (evaluator c) p v) generator (start F)
      (record { counted = refl; below = ground arith })
