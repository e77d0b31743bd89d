-- ===== src/Optimizer/Grid.antt =====
-- src/investment_tracker/quant/optimizer/candidate_generator.py: the candidates of a parameter grid.
-- A grid is a dict of a name's values; the identity of a family with parameters, which the source
-- takes from sha256 and JSON, is a parameter.
pub mod Product
pub mod Dimensions
mod Examples
use Prim.Native.Nat.{Ordering}
use Prim.Native.String.{compare as str_compare}
use investment_tracker.Prelude.{
  ℕ, String, Bool, true, false, not, ◌||◌, Option, none, some, List, [], ◌∷◌, ◌++◌, map, any,
  if◌then◌else◌, str_eq, Result, ok, err,
}
use investment_tracker.Dict.{Dict}
use investment_tracker.Replay.{Number}

pub data GridError : Type 0 where
  value_error : GridError

pub record CandidateConfiguration (N : Type 0) : Type 0 where
  pub candidate_id : String
  pub family : String
  pub parameters : Dict String N

-- `itertools.product(*dimensions)`: the last dimension varies fastest.
abbrev pub each_with : {A : Type 0} → List A → List (List A) → List (List A)
each_with [] tails = []
each_with (x ∷ xs) tails = map (λ t. x ∷ t) tails ++ each_with xs tails

unfoldable pub product : {A : Type 0} → List (List A) → List (List A)
product [] = [] ∷ []
product (d ∷ ds) = each_with d (product ds)

-- `dict(zip(keys, values))`
abbrev pub zip : {A : Type 0} → List String → List A → Dict String A
zip [] values = []
zip (k ∷ keys) [] = []
zip (k ∷ keys) (v ∷ values) = (k, v) ∷ zip keys values

-- `sorted(grid)`, with each key's values.
pub insert_key : {A : Type 0} → String → A → Dict String A → Dict String A
insert_key k v [] = (k, v) ∷ []
insert_key k v ((j, w) ∷ items) = elim (str_compare k j) [
  | Ordering.gt ↦ (j, w) ∷ insert_key k v items
  | _ ↦ (k, v) ∷ (j, w) ∷ items
]

unfoldable pub by_key : {A : Type 0} → Dict String A → Dict String A
unfolding insert_key
by_key [] = []
by_key ((k, v) ∷ items) = insert_key k v (by_key items)

abbrev pub is_empty : {A : Type 0} → List A → Bool
is_empty [] = true
is_empty (x ∷ xs) = false

module _ (F : Number) where
  -- `sorted(set(values))`: two numbers that are not in order either way are one.
  pub insert_value : F.N → List F.N → List F.N
  insert_value v [] = v ∷ []
  insert_value v (w ∷ ws) =
      if F.lt w v then w ∷ insert_value v ws else if F.lt v w then v ∷ w ∷ ws else w ∷ ws

  unfoldable pub distinct : List F.N → List F.N
  unfolding insert_value
  distinct [] = []
  distinct (v ∷ vs) = insert_value v (distinct vs)

  abbrev pub keys_of : Dict String (List F.N) → List String
  keys_of [] = []
  keys_of ((k, vs) ∷ items) = k ∷ keys_of items

  abbrev pub dimensions_of : Dict String (List F.N) → List (List F.N)
  dimensions_of [] = []
  dimensions_of ((k, vs) ∷ items) = distinct vs ∷ dimensions_of items

  module _ (identify : String → Dict String F.N → String) where
    abbrev pub candidate : String → List String → List F.N → CandidateConfiguration F.N
    candidate family keys values = record {
      candidate_id = identify family (zip keys values);
      family = family;
      parameters = zip keys values;
    }

    unfoldable pub from_parameter_grid :
        String → Dict String (List F.N) → Result GridError (List (CandidateConfiguration F.N))
    unfolding product
    from_parameter_grid family grid =
        let sorted = by_key grid in
        if str_eq family ""
        then err value_error
        else if is_empty (keys_of sorted) || any is_empty (dimensions_of sorted)
        then err value_error
        else ok (map (candidate family (keys_of sorted)) (product (dimensions_of sorted)))
