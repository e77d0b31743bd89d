-- ===== src/Optimizer/Search/Best.antt =====
-- What the best evaluation of a search in src/investment_tracker/quant/optimizer/search.py is.
use mathlib.Core.List.{append_assoc}
use investment_tracker.Prelude.{
  ◌≡◌, refl, sym, subst, true, false, Option, none, some, List, [], ◌∷◌, ◌++◌, arith, All,
  if◌then◌else◌, Option-cases, inl, inr, ap, ◌∙◌, All-append, All-map, Bool-cases,
}
use investment_tracker.Replay.{Number}
use investment_tracker.Optimizer.Search.Loop.{After, search_from_rule}
use investment_tracker.Optimizer.Search.{
  CandidateEvaluation, SearchBudget, Progress, Round, observe, is_improvement, run_search, start,
  stopped, going,
}

-- A number is not above itself with the margin added, and a higher best does not let in what was
-- not above a lower one.
pub record Margin (F : Number) (margin : F.N) : Type 0 where
  pub no_gain : (s : F.N) → F.lt (F.plus s margin) s ≡ false
  pub raised :
      (low high s : F.N)
      → F.lt (F.plus low margin) high ≡ true
      → F.lt (F.plus low margin) s ≡ false
      → F.lt (F.plus high margin) s ≡ false

module _ {C : Type 0} (F : Number) where
  -- It kept its robustness, improved out of sample, and scored.
  abbrev pub Eligible : CandidateEvaluation C F.N → F.N → Type 0
  Eligible e score =
      (e.robustness_deteriorated ≡ false)
      × (e.out_of_sample_improved ≡ true)
      × (e.score ≡ some score)

  -- The best is eligible, and its score is `top`.
  abbrev pub IsTop : Option (CandidateEvaluation C F.N) → F.N → Type 0
  IsTop best top = (b : CandidateEvaluation C F.N) × (best ≡ some b) × Eligible b top

  -- If it is eligible, there is a best, which it does not beat by more than the margin.
  abbrev pub NotAbove :
      F.N → Option (CandidateEvaluation C F.N) → CandidateEvaluation C F.N → Type 0
  NotAbove margin best e =
      (score : F.N)
      → Eligible e score
      → (top : F.N) × IsTop best top × (F.lt (F.plus top margin) score ≡ false)

  -- The best is one of them.
  abbrev pub Chosen : Option (CandidateEvaluation C F.N) → List (CandidateEvaluation C F.N) → Type 0
  Chosen none es = Unit
  Chosen (some b) es =
      (earlier : List (CandidateEvaluation C F.N)) × (later : List (CandidateEvaluation C F.N))
      × (es ≡ earlier ++ b ∷ later)
      × ((score : F.N) × Eligible b score)

  -- The best of these evaluations: one of them, and none is above it.
  abbrev pub IsBest :
      F.N → Option (CandidateEvaluation C F.N) → List (CandidateEvaluation C F.N) → Type 0
  IsBest margin best es = Chosen best es × All (NotAbove margin best) es

  module _ (margin : F.N) (laws : Margin F margin) (best : Option (CandidateEvaluation C F.N))
      (es : List (CandidateEvaluation C F.N)) (e : CandidateEvaluation C F.N) where
    improvement-Eligible : is_improvement F margin best e ≡ true → (score : F.N) × Eligible e score
    improvement-Eligible h = elim (Option-cases e.score) [
      | inl missing ↦ absurd (ground arith)
      | inr (score, e') ↦ (score, (ground arith, ground arith, e'))
    ]

    raised-NotAbove :
        (high : F.N) (f : CandidateEvaluation C F.N)
        → Eligible e high
        → is_improvement F margin best e ≡ true
        → NotAbove margin best f
        → NotAbove margin (some e) f
    raised-NotAbove high f good better before score ok =
        let (low, (b, is, fine), under) = before score ok in
        (high, (e, refl, good), laws.raised low high score (ground arith) under)

  rejected-NotAbove :
      (margin : F.N) (best : Option (CandidateEvaluation C F.N))
      (es : List (CandidateEvaluation C F.N)) (e : CandidateEvaluation C F.N)
      → Chosen best es
      → is_improvement F margin best e ≡ false
      → NotAbove margin best e
  rejected-NotAbove margin none es e c h score ok = absurd (ground arith)
  rejected-NotAbove margin (some b) es e (earlier, later, split, (top, good)) h score ok =
      (top, (b, refl, good), ground arith)

  Chosen-append :
      (best : Option (CandidateEvaluation C F.N)) (es : List (CandidateEvaluation C F.N))
      (e : CandidateEvaluation C F.N)
      → Chosen best es
      → Chosen best (es ++ e ∷ [])
  Chosen-append none es e c = tt
  Chosen-append (some b) es e (earlier, later, split, good) = (
    earlier,
    later ++ e ∷ [],
    ap (λ (l : List _). l ++ e ∷ []) split ∙ append_assoc earlier (b ∷ later) (e ∷ []),
    good,
  )

  module _ (margin : F.N) (laws : Margin F margin) (best : Option (CandidateEvaluation C F.N))
      (es : List (CandidateEvaluation C F.N)) (e : CandidateEvaluation C F.N)
      (old : IsBest margin best es) where
    improved-IsBest : is_improvement F margin best e ≡ true → IsBest margin (some e) (es ++ e ∷ [])
    improved-IsBest better =
        let (high, good) = improvement-Eligible margin laws best es e better in
        (
          (es, [], refl, (high, good)),
          All-append (λ f. NotAbove margin (some e) f) es (e ∷ [])
              (All-map (λ f. NotAbove margin best f) (λ f. NotAbove margin (some e) f) es
                (λ f. raised-NotAbove margin laws best es e high f good better) old.1)
              ((λ score ok. (score, (e, refl, ok), laws.no_gain score)), tt),
        )

    rejected-IsBest : is_improvement F margin best e ≡ false → IsBest margin best (es ++ e ∷ [])
    rejected-IsBest worse = (
      Chosen-append best es e old.0,
      All-append (NotAbove margin best) es (e ∷ []) old.1
          (rejected-NotAbove margin best es e old.0 worse, tt),
    )

abbrev progress_of : {C N : Type 0} → Round C N → Progress C N
progress_of (going q) = q
progress_of (stopped q reason) = q

progress_of-After :
    {C N : Type 0} (P : Progress C N → Type 0) (cs : List C) (r : Round C N)
    → P (progress_of r)
    → After (λ q ds. P q) (λ reason q. P q) cs r
progress_of-After P cs (going q) h = h
progress_of-After P cs (stopped q reason) h = h

module _ {C : Type 0} (F : Number) (budget : SearchBudget F.N) (e : CandidateEvaluation C F.N)
    (p : Progress C F.N) where
  observe-evaluations : (progress_of (observe F budget e p)).evaluations ≡ p.evaluations ++ e ∷ []
  unfolding observe
  observe-evaluations = ground arith

  observe-best :
      (progress_of (observe F budget e p)).best
      ≡ (if is_improvement F budget.meaningful_improvement p.best e then some e else p.best)
  unfolding observe
  observe-best = ground arith

  abbrev BestSoFar : Progress C F.N → Type 0
  BestSoFar q = IsBest F budget.meaningful_improvement q.best q.evaluations

  observe-keeps :
      Margin F budget.meaningful_improvement
      → BestSoFar p
      → BestSoFar (progress_of (observe F budget e p))
  observe-keeps laws old =
      subst
        (λ es. IsBest F budget.meaningful_improvement (progress_of (observe F budget e p)).best es)
        (sym observe-evaluations)
        (elim (Bool-cases (is_improvement F budget.meaningful_improvement p.best e)) [
          | inl better ↦
              let new =
                improved-IsBest F budget.meaningful_improvement laws p.best p.evaluations e old
                  better in
              let is : (progress_of (observe F budget e p)).best ≡ some e =
                ground (arith, observe-best) in
              subst (λ b. IsBest F budget.meaningful_improvement b (p.evaluations ++ e ∷ []))
                (sym is) new
          | inr worse ↦
              let new =
                rejected-IsBest F budget.meaningful_improvement laws p.best p.evaluations e old
                  worse in
              let is : (progress_of (observe F budget e p)).best ≡ p.best =
                ground (arith, observe-best) in
              subst (λ b. IsBest F budget.meaningful_improvement b (p.evaluations ++ e ∷ []))
                (sym is) new
        ])

-- The best that a search returns is one of the evaluations, it is eligible, and no eligible
-- evaluation exceeds its score by more than the margin; there is one if any evaluation is eligible.
pub run_search-IsBest :
    {C : Type 0} (F : Number) (evaluator : C → CandidateEvaluation C F.N)
    (budget : SearchBudget F.N) (generator : List C)
    → Margin F budget.meaningful_improvement
    → let r = run_search F evaluator budget generator in
      IsBest F budget.meaningful_improvement r.best r.evaluations
unfolding run_search
run_search-IsBest F evaluator budget generator laws =
    search_from_rule F evaluator budget
      (λ p cs. IsBest F budget.meaningful_improvement p.best p.evaluations)
      (λ r. IsBest F budget.meaningful_improvement r.best r.evaluations) (λ p v. v)
      (λ p c cs v full. v)
      (λ p c cs v room.
        progress_of-After (λ q. IsBest F budget.meaningful_improvement q.best q.evaluations) cs
          (observe F budget (evaluator c) p) (observe-keeps F budget (evaluator c) p laws v))
      generator (start F) (tt, tt)
