-- ===== src/Optimizer/Search/Prefix.antt =====
-- Which candidates the search of src/investment_tracker/quant/optimizer/search.py evaluates.
use mathlib.Core.List.{append_assoc, map-append}
use investment_tracker.Prelude.{
  ◌≤◌, ◌≡◌, ◌≢◌, refl, sym, ap, ◌∙◌, false, List, [], ◌∷◌, ◌++◌, map, arith, leb, length,
  length-append,
}
use investment_tracker.Replay.{Number}
use investment_tracker.Optimizer.Search.Loop.{After, After-map, search_from_rule}
use investment_tracker.Optimizer.Search.{
  CandidateEvaluation, SearchBudget, SearchResult, Progress, exhausted, observe, run_search, start,
  result,
}

module _ {C : Type 0} (F : Number) (budget : SearchBudget F.N) where
  -- A round appends its one evaluation.
  abbrev Appended : CandidateEvaluation C F.N → Progress C F.N → Progress C F.N → Type 0
  Appended e p q = q.evaluations ≡ p.evaluations ++ e ∷ []

  observe-appends :
      (e : CandidateEvaluation C F.N) (p : Progress C F.N) (cs : List C)
      → After
          (λ q ds. Appended e p q)
          (λ reason q. Appended e p q × (reason ≢ exhausted))
          cs
          (observe F budget e p)
  unfolding observe
  observe-appends e p cs = ground arith

  module _ (evaluator : C → CandidateEvaluation C F.N) (generator : List C) where
    abbrev Consumed : Progress C F.N → List C → Type 0
    Consumed p cs =
        (done : List C) × (done ++ cs ≡ generator)
        × (p.evaluations ≡ map evaluator done)
        × (length p.evaluations ≤ budget.max_candidates)

    abbrev IsPrefix : SearchResult C F.N → Type 0
    IsPrefix r =
        (done : List C) × (rest : List C) × (done ++ rest ≡ generator)
        × (r.evaluations ≡ map evaluator done)
        × (r.evaluated_count ≡ length r.evaluations)
        × (r.evaluated_count ≤ budget.max_candidates)
        × (r.stop_reason ≡ exhausted → rest ≡ [])

    next-Consumed :
        (p : Progress C F.N) (c : C) (cs : List C) (q : Progress C F.N)
        → leb budget.max_candidates (length p.evaluations) ≡ false
        → Consumed p (c ∷ cs)
        → Appended (evaluator c) p q
        → Consumed q cs
    next-Consumed p c cs q room (done, whole, seen, few) new = (
      done ++ c ∷ [],
      append_assoc done (c ∷ []) cs ∙ whole,
      new
          ∙ ap (λ (es : List _). es ++ evaluator c ∷ []) seen
          ∙ sym (map-append evaluator done (c ∷ [])),
      ground (arith, ap length new, length-append p.evaluations (evaluator c ∷ [])),
    )

    -- The evaluations of a search are those of the generator's first candidates in order, at most
    -- `max_candidates` of them, and of all its candidates if the search stops as exhausted.
    run_search-IsPrefix : IsPrefix (run_search F evaluator budget generator)
    unfolding run_search
    run_search-IsPrefix =
        search_from_rule F evaluator budget Consumed IsPrefix
          (λ p (done, whole, seen, few). (done, [], whole, seen, refl, few, λ e. refl))
          (λ p c cs (done, whole, seen, few) full. (done, c ∷ cs, whole, seen, refl, few, λ e. cc))
          (λ p c cs v room.
            After-map (λ q ds. Appended (evaluator c) p q) Consumed
              (λ reason q. Appended (evaluator c) p q × (reason ≢ exhausted))
              (λ reason q. IsPrefix (result F reason q)) cs (observe F budget (evaluator c) p)
              (λ q new. next-Consumed p c cs q room v new)
              (λ reason q new.
                let (done, whole, seen, few) = next-Consumed p c cs q room v new.0 in
                (done, cs, whole, seen, refl, few, λ e. absurd (new.1 e)))
              (observe-appends (evaluator c) p cs))
          generator (start F) ([], refl, refl, omega arith)
