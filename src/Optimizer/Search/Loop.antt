-- ===== src/Optimizer/Search/Loop.antt =====
-- The invariant rule of the loop in src/investment_tracker/quant/optimizer/search.py.
use investment_tracker.Prelude.{
  ◌≡◌, refl, sym, subst, true, false, List, [], ◌∷◌, ◌⊎◌, inl, inr, leb, length, Bool-cases, arith,
}
use investment_tracker.Replay.{Number}
use investment_tracker.Optimizer.Search.{
  CandidateEvaluation, SearchBudget, SearchResult, Progress, Round, stopped, going, StopReason,
  max_candidates, exhausted, observe, result, search_from,
}

-- What a round is to show: to go on with the candidates `cs`, or to stop with a result.
abbrev pub After :
    {C N : Type 0}
    → (Progress C N → List C → Type 0)
    → (StopReason → Progress C N → Type 0)
    → List C
    → Round C N
    → Type 0
After Inv Post cs (going q) = Inv q cs
After Inv Post cs (stopped q reason) = Post reason q

pub After-map :
    {C N : Type 0} (I J : Progress C N → List C → Type 0) (P Q : StopReason → Progress C N → Type 0)
    (cs : List C) (r : Round C N)
    → ((q : Progress C N) → I q cs → J q cs)
    → ((reason : StopReason) (q : Progress C N) → P reason q → Q reason q)
    → After I P cs r
    → After J Q cs r
After-map I J P Q cs (going q) goes stops h = goes q h
After-map I J P Q cs (stopped q reason) goes stops h = stops reason q h

Round-cases :
    {C N : Type 0} (r : Round C N)
    → ((q : Progress C N) × (r ≡ going q))
      ⊎ ((q : Progress C N) × (reason : StopReason) × (r ≡ stopped q reason))
Round-cases (going q) = inl (q, refl)
Round-cases (stopped q reason) = inr (q, reason, refl)

module _ {C : Type 0} (F : Number) (evaluator : C → CandidateEvaluation C F.N)
    (budget : SearchBudget F.N) (p : Progress C F.N) (c : C) (cs : List C) where
  search_from_full :
      leb budget.max_candidates (length p.evaluations) ≡ true
      → search_from F evaluator budget p (c ∷ cs) ≡ result F max_candidates p
  unfolding search_from
  search_from_full full = ground arith

  search_from_going :
      (q : Progress C F.N)
      → leb budget.max_candidates (length p.evaluations) ≡ false
      → observe F budget (evaluator c) p ≡ going q
      → search_from F evaluator budget p (c ∷ cs) ≡ search_from F evaluator budget q cs
  unfolding search_from
  search_from_going q room e = ground arith

  search_from_stopped :
      (q : Progress C F.N) (reason : StopReason)
      → leb budget.max_candidates (length p.evaluations) ≡ false
      → observe F budget (evaluator c) p ≡ stopped q reason
      → search_from F evaluator budget p (c ∷ cs) ≡ result F reason q
  unfolding search_from
  search_from_stopped q reason room e = ground arith

module _ {C : Type 0} (F : Number) (evaluator : C → CandidateEvaluation C F.N)
    (budget : SearchBudget F.N) (Inv : Progress C F.N → List C → Type 0)
    (Post : SearchResult C F.N → Type 0)
    (at_end : (p : Progress C F.N) → Inv p [] → Post (result F exhausted p))
    (at_maximum : (p : Progress C F.N) (c : C) (cs : List C)
      → Inv p (c ∷ cs)
      → leb budget.max_candidates (length p.evaluations) ≡ true
      → Post (result F max_candidates p))
    (in_round : (p : Progress C F.N) (c : C) (cs : List C)
      → Inv p (c ∷ cs)
      → leb budget.max_candidates (length p.evaluations) ≡ false
      → After Inv
          (λ reason q. Post (result F reason q))
          cs
          (observe F budget (evaluator c) p)) where
  pub search_from_rule :
      (cs : List C) (p : Progress C F.N) → Inv p cs → Post (search_from F evaluator budget p cs)
  unfolding search_from
  search_from_rule [] p v = at_end p v
  search_from_rule (c ∷ cs) p v =
      elim (Bool-cases (leb budget.max_candidates (length p.evaluations))) [
        | inl full ↦
            subst Post (sym (search_from_full F evaluator budget p c cs full))
              (at_maximum p c cs v full)
        | inr room ↦
            let kept = in_round p c cs v room in
            elim (Round-cases (observe F budget (evaluator c) p)) [
              | inl (q, e) ↦
                  subst Post (sym (search_from_going F evaluator budget p c cs q room e)) (
                    search_from_rule cs q
                      (subst (After Inv (λ r q. Post (result F r q)) cs) e kept))
              | inr (q, reason, e) ↦
                  subst Post (sym (search_from_stopped F evaluator budget p c cs q reason room e))
                    (subst (After Inv (λ r q. Post (result F r q)) cs) e kept)
            ]
      ]
