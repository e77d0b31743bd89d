-- ===== src/Optimizer/Grid/Examples.antt =====
-- The theorem on src/investment_tracker/quant/optimizer/candidate_generator.py at a concrete grid, and
-- tests.
use investment_tracker.Prelude.{
  ℕ, ◌*◌, ◌+◌, ◌-◌, String, ◌≡◌, ◌↔◌, refl, [], ◌∷◌, List, map, ltb, leb, length, ok, All, arith,
  In,
}
use investment_tracker.Dict.{Dict}
use investment_tracker.Replay.{Number}
use investment_tracker.Optimizer.Grid.{
  CandidateConfiguration, candidate, by_key, distinct, keys_of, from_parameter_grid,
}
use investment_tracker.Optimizer.Grid.Product.{Fits, size}
use investment_tracker.Optimizer.Grid.Dimensions.{
  Connected, Ascending, values_of, from_parameter_grid-Fits,
}

abbrev whole : Number
whole = record {
  N = ℕ;
  lt = ltb;
  le = leb;
  times = λ a b. a * b;
  minus = λ a b. a - b;
  plus = λ a b. a + b;
  negate = λ a. 0;
  hundredths = λ n. n;
}

abbrev name_it : String → Dict String ℕ → String
name_it family parameters = family

abbrev grid : Dict String (List ℕ)
grid = ("slow", 50 ∷ 40 ∷ 50 ∷ []) ∷ ("fast", 15 ∷ 20 ∷ []) ∷ []

abbrev made : List ℕ → CandidateConfiguration ℕ
made = candidate whole name_it "trend" ("fast" ∷ "slow" ∷ [])

abbrev candidates : List (CandidateConfiguration ℕ)
candidates =
    made (15 ∷ 40 ∷ []) ∷ made (15 ∷ 50 ∷ []) ∷ made (20 ∷ 40 ∷ []) ∷ made (20 ∷ 50 ∷ []) ∷ []

expands : from_parameter_grid whole name_it "trend" grid ≡ ok candidates
unfolding from_parameter_grid by_key distinct
expands = refl

whole-Connected : Connected whole
whole-Connected a b h k = ground arith

from_parameter_grid-Fits_example :
    (items : Dict String (List ℕ)) × (dims : List (List ℕ)) × (values : List (List ℕ))
    × ((x : String × List ℕ) → In x items ↔ In x grid)
    × (candidates ≡ map (candidate whole name_it "trend" (keys_of whole items)) values)
    × ((vs : List ℕ) → In vs values ↔ Fits vs (values_of whole items))
    × ((vs : List ℕ) → Fits vs dims ↔ Fits vs (values_of whole items))
    × All (Ascending whole) dims
    × (length candidates ≡ size dims)
from_parameter_grid-Fits_example =
    from_parameter_grid-Fits whole name_it "trend" grid whole-Connected expands
