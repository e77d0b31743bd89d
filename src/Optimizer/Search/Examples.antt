-- ===== src/Optimizer/Search/Examples.antt =====
-- The theorems on src/investment_tracker/quant/optimizer/search.py at a concrete search, and tests.
use investment_tracker.Prelude.{
  ℕ, ◌*◌, ◌+◌, ◌-◌, ◌/◌, ◌≡◌, ◌↔◌, refl, false, some, [], ◌∷◌, List, ltb, leb, arith,
}
use investment_tracker.Replay.{Number}
use investment_tracker.Optimizer.Search.{
  CandidateEvaluation, SearchBudget, SearchResult, run_search, persistent_oos_failure, observe,
  is_valid_budget,
}
use investment_tracker.Optimizer.Search.Stopping.{streak, run_search-streak}
use investment_tracker.Optimizer.Search.Best.{Margin, IsBest, run_search-IsBest}

abbrev points : Number
points = record {
  N = ℕ;
  lt = ltb;
  le = leb;
  times = λ a b. (a * b) / 100;
  minus = λ a b. a - b;
  plus = λ a b. a + b;
  negate = λ a. 0;
  hundredths = λ n. n;
}

-- A candidate is its score, and 0 is a failure out of sample.
abbrev evaluator : ℕ → CandidateEvaluation ℕ ℕ
evaluator n = record {
  candidate = n;
  score = some n;
  out_of_sample_improved = ltb 0 n;
  robustness_deteriorated = false;
}

abbrev budget : SearchBudget ℕ
budget = record { max_candidates = 10; patience = 2; meaningful_improvement = 1 }

abbrev candidates : List ℕ
candidates = 5 ∷ 0 ∷ 9 ∷ 0 ∷ 0 ∷ 7 ∷ []

abbrev found : SearchResult ℕ ℕ
found = record {
  evaluations = evaluator 5 ∷ evaluator 0 ∷ evaluator 9 ∷ evaluator 0 ∷ evaluator 0 ∷ [];
  best = some (evaluator 9);
  evaluated_count = 5;
  stop_reason = persistent_oos_failure;
}

stops : run_search points evaluator budget candidates ≡ found
unfolding run_search observe
stops = refl

points-Margin : Margin points 1
points-Margin = record { no_gain = λ s. ground arith; raised = λ low high s h k. ground arith }

run_search-streak_example :
    let r = run_search points evaluator budget candidates in
    (r.stop_reason ≡ persistent_oos_failure) ↔ (streak 0 r.evaluations ≡ 2)
unfolding is_valid_budget
run_search-streak_example = run_search-streak points evaluator budget candidates refl

run_search-IsBest_example :
    let r = run_search points evaluator budget candidates in IsBest points 1 r.best r.evaluations
run_search-IsBest_example = run_search-IsBest points evaluator budget candidates points-Margin
