-- ===== src/Optimizer/Search.antt =====
-- src/investment_tracker/quant/optimizer/search.py: one family's search under its stopping policies.
-- A candidate is of any type, the evaluator is a parameter, and so are the numbers that scores are.
mod Loop
pub mod Prefix
pub mod Stopping
pub mod Best
mod Examples
use investment_tracker.Prelude.{
  ℕ, ◌+◌, Bool, true, false, not, ◌&&◌, ◌||◌, Option, none, some, List, [], ◌∷◌, ◌++◌, leb, ltb,
  length, if◌then◌else◌,
}
use investment_tracker.Replay.{Number}

pub record CandidateEvaluation (C N : Type 0) : Type 0 where
  pub candidate : C
  pub score : Option N
  pub out_of_sample_improved : Bool
  pub robustness_deteriorated : Bool

pub record SearchBudget (N : Type 0) : Type 0 where
  pub max_candidates : ℕ
  pub patience : ℕ
  pub meaningful_improvement : N

pub data StopReason : Type 0 where
  max_candidates no_meaningful_improvement persistent_oos_failure exhausted : StopReason

pub record SearchResult (C N : Type 0) : Type 0 where
  pub evaluations : List (CandidateEvaluation C N)
  pub best : Option (CandidateEvaluation C N)
  pub evaluated_count : ℕ
  pub stop_reason : StopReason

-- The loop's variables.
pub record Progress (C N : Type 0) : Type 0 where
  pub evaluations : List (CandidateEvaluation C N)
  pub best : Option (CandidateEvaluation C N)
  pub stale : ℕ
  pub oos_stale : ℕ

-- What a round does: it returns from the loop, or goes on.
pub data Round (C N : Type 0) : Type 0 where
  stopped : Progress C N → StopReason → Round C N
  going : Progress C N → Round C N

module _ (F : Number) where
  -- `__post_init__`; numbers below 1 are what ℕ has there.
  unfoldable pub is_valid_budget : SearchBudget F.N → Bool
  is_valid_budget b =
      leb 1 b.max_candidates
      && leb b.max_candidates 500
      && leb 1 b.patience
      && leb b.patience 50
      && not (F.lt b.meaningful_improvement (F.hundredths 0))

module _ {C : Type 0} (F : Number) where
  -- `best is None or best.score is None or score > best.score + meaningful_improvement`
  abbrev pub beats : F.N → F.N → Option (CandidateEvaluation C F.N) → Bool
  beats margin score none = true
  beats margin score (some best) = elim best.score [
    | none ↦ true
    | some top ↦ F.lt (F.plus top margin) score
  ]

  abbrev pub has_score : F.N → Option (CandidateEvaluation C F.N) → Option F.N → Bool
  has_score margin best none = false
  has_score margin best (some score) = beats margin score best

  -- `improved`
  abbrev pub is_improvement :
      F.N → Option (CandidateEvaluation C F.N) → CandidateEvaluation C F.N → Bool
  is_improvement margin best e =
      not e.robustness_deteriorated && e.out_of_sample_improved && has_score margin best e.score

  -- The second half of a round, once the streak of failures is counted.
  unfoldable pub update_best :
      SearchBudget F.N → CandidateEvaluation C F.N → Progress C F.N → Round C F.N
  update_best budget e p =
      if is_improvement budget.meaningful_improvement p.best e
      then going (record p { best = some e; stale = 0 })
      else if leb budget.patience (p.stale + 1)
      then stopped (record p { stale = p.stale + 1 }) no_meaningful_improvement
      else going (record p { stale = p.stale + 1 })

  -- A round, with the evaluation of its candidate.
  unfoldable pub observe :
      SearchBudget F.N → CandidateEvaluation C F.N → Progress C F.N → Round C F.N
  unfolding update_best
  observe budget e p =
      let seen : Progress C F.N = record p { evaluations = p.evaluations ++ e ∷ [] } in
      if e.out_of_sample_improved
      then update_best budget e (record seen { oos_stale = 0 })
      else if leb budget.patience (p.oos_stale + 1)
      then stopped (record seen { oos_stale = p.oos_stale + 1 }) persistent_oos_failure
      else update_best budget e (record seen { oos_stale = p.oos_stale + 1 })

  abbrev pub result : StopReason → Progress C F.N → SearchResult C F.N
  result reason p = record {
    evaluations = p.evaluations;
    best = p.best;
    evaluated_count = length p.evaluations;
    stop_reason = reason;
  }

  abbrev pub start : Progress C F.N
  start = record { evaluations = []; best = none; stale = 0; oos_stale = 0 }

  module _ (evaluator : C → CandidateEvaluation C F.N) (budget : SearchBudget F.N) where
    -- The loop over the candidates that are left.
    unfoldable pub search_from : Progress C F.N → List C → SearchResult C F.N
    search_from p [] = result exhausted p
    search_from p (c ∷ cs) = elim (leb budget.max_candidates (length p.evaluations)) [
      | true ↦ result max_candidates p
      | false ↦ elim (observe budget (evaluator c) p) [
        | stopped q reason ↦ result reason q
        | going q ↦ search_from q cs
      ]
    ]

    unfoldable pub run_search : List C → SearchResult C F.N
    unfolding search_from
    run_search generator = search_from start generator
