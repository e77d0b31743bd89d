-- ===== src/Optimizer/Grid/Dimensions.antt =====
-- The dimensions that src/investment_tracker/quant/optimizer/candidate_generator.py takes from a grid:
-- what sorting the keys and removing duplicate values keeps.
use Prim.Native.Nat.{Ordering}
use Prim.Native.String.{compare as str_compare}
use investment_tracker.Prelude.{
  String, ◌≡◌, ◌↔◌, ◌⊎◌, inl, inr, refl, true, false, List, [], ◌∷◌, All, arith, Bool-cases, map,
  length, ok, ap, ◌∙◌, In,
}
use investment_tracker.Dict.{Dict}
use investment_tracker.Replay.{Number}
use investment_tracker.Optimizer.Grid.{
  insert_key, by_key, insert_value, distinct, dimensions_of, CandidateConfiguration, candidate,
  keys_of, product, from_parameter_grid,
}
use investment_tracker.Optimizer.Grid.Product.{
  Fits, size, In-product, length-product, length-map_candidates,
}

Ordering-cases : (o : Ordering) → (o ≡ Ordering.lt) ⊎ ((o ≡ Ordering.eq) ⊎ (o ≡ Ordering.gt))
Ordering-cases Ordering.lt = inl refl
Ordering-cases Ordering.eq = inr (inl refl)
Ordering-cases Ordering.gt = inr (inr refl)

-- Two lists with an element each more, in either order.
In-swap :
    {A : Type 0} (x a b : A) (xs ys : List A)
    → (In x xs ↔ ((x ≡ a) ⊎ In x ys))
    → In x (b ∷ xs) ↔ ((x ≡ a) ⊎ In x (b ∷ ys))
In-swap x a b xs ys h = (
  λ m. elim m [
    | inl e ↦ inr (inl e)
    | inr n ↦ elim (h.0 n) [ inl e ↦ inl e | inr k ↦ inr (inr k) ]
  ],
  λ m. elim m [
    | inl e ↦ inr (h.1 (inl e))
    | inr n ↦ elim n [ inl e ↦ inl e | inr k ↦ inr (h.1 (inr k)) ]
  ],
)

module _ {A : Type 0} where
  In-insert_key :
      (x : String × A) (k : String) (v : A) (items : Dict String A)
      → In x (insert_key k v items) ↔ ((x ≡ (k, v)) ⊎ In x items)
  unfolding insert_key
  In-insert_key x k v [] = (λ h. h, λ h. h)
  In-insert_key x k v ((j, w) ∷ items) = elim (Ordering-cases (str_compare k j)) [
    | inl e ↦
        let is : insert_key k v ((j, w) ∷ items) ≡ (k, v) ∷ (j, w) ∷ items = ground arith in
        rw is (λ h. h, λ h. h)
    | inr (inl e) ↦
        let is : insert_key k v ((j, w) ∷ items) ≡ (k, v) ∷ (j, w) ∷ items = ground arith in
        rw is (λ h. h, λ h. h)
    | inr (inr e) ↦
        let is : insert_key k v ((j, w) ∷ items) ≡ (j, w) ∷ insert_key k v items = ground arith in
        rw is (In-swap x (k, v) (j, w) (insert_key k v items) items (In-insert_key x k v items))
  ]

  -- Sorting the keys keeps the items.
  pub In-by_key : (x : String × A) (grid : Dict String A) → In x (by_key grid) ↔ In x grid
  unfolding by_key
  In-by_key x [] = (λ h. h, λ h. h)
  In-by_key x ((k, v) ∷ items) =
      let inserted = In-insert_key x k v (by_key items) in
      let rest = In-by_key x items in
      (
        λ h. elim (inserted.0 h) [ inl e ↦ inl e | inr m ↦ inr (rest.0 m) ],
        λ h. elim h [ inl e ↦ inserted.1 (inl e) | inr m ↦ inserted.1 (inr (rest.1 m)) ],
      )

module _ (F : Number) where
  -- Two numbers that are not in order either way are the same.
  abbrev pub Connected : Type 0
  Connected = (a b : F.N) → F.lt a b ≡ false → F.lt b a ≡ false → a ≡ b

  abbrev Below : F.N → List F.N → Type 0
  Below u [] = Unit
  Below u (w ∷ ws) = F.lt u w ≡ true

  -- Each less than the next one.
  abbrev pub Ascending : List F.N → Type 0
  Ascending [] = Unit
  Ascending (v ∷ vs) = Below v vs × Ascending vs

  In-insert_value :
      (x v : F.N) (ws : List F.N) → Connected → In x (insert_value F v ws) ↔ ((x ≡ v) ⊎ In x ws)
  unfolding insert_value
  In-insert_value x v [] law = (λ h. h, λ h. h)
  In-insert_value x v (w ∷ ws) law = elim (Bool-cases (F.lt w v)) [
    | inl below ↦ rw below (In-swap x v w (insert_value F v ws) ws (In-insert_value x v ws law))
    | inr not_below ↦ rw not_below (elim (Bool-cases (F.lt v w)) [
      | inl above ↦ rw above (λ h. h, λ h. h)
      | inr not_above ↦
          let same = law v w not_above not_below in
          rw not_above (λ h. inr h, λ h. elim h [ inl e ↦ inl (cc) | inr m ↦ m ])
    ])
  ]

  -- `set(values)` has the same members.
  pub In-distinct : (x : F.N) (vs : List F.N) → Connected → In x (distinct F vs) ↔ In x vs
  unfolding distinct
  In-distinct x [] law = (λ h. h, λ h. h)
  In-distinct x (v ∷ vs) law =
      let inserted = In-insert_value x v (distinct F vs) law in
      let rest = In-distinct x vs law in
      (
        λ h. elim (inserted.0 h) [ inl e ↦ inl e | inr m ↦ inr (rest.0 m) ],
        λ h. elim h [ inl e ↦ inserted.1 (inl e) | inr m ↦ inserted.1 (inr (rest.1 m)) ],
      )

  Below-insert_value :
      (u v : F.N) (ws : List F.N) → F.lt u v ≡ true → Below u ws → Below u (insert_value F v ws)
  unfolding insert_value
  Below-insert_value u v [] less under = less
  Below-insert_value u v (w ∷ ws) less under = elim (Bool-cases (F.lt w v)) [
    | inl below ↦ rw below under
    | inr not_below ↦ rw not_below (elim (Bool-cases (F.lt v w)) [
      | inl above ↦ rw above less
      | inr not_above ↦ rw not_above under
    ])
  ]

  insert_value-Ascending :
      (v : F.N) (ws : List F.N) → Ascending ws → Ascending (insert_value F v ws)
  unfolding insert_value
  insert_value-Ascending v [] up = (tt, tt)
  insert_value-Ascending v (w ∷ ws) up = elim (Bool-cases (F.lt w v)) [
    | inl below ↦ rw below (Below-insert_value w v ws below up.0, insert_value-Ascending v ws up.1)
    | inr not_below ↦ rw not_below (elim (Bool-cases (F.lt v w)) [
      | inl above ↦ rw above (above, up)
      | inr not_above ↦ rw not_above up
    ])
  ]

  distinct-Ascending : (vs : List F.N) → Ascending (distinct F vs)
  unfolding distinct
  distinct-Ascending [] = tt
  distinct-Ascending (v ∷ vs) = insert_value-Ascending v (distinct F vs) (distinct-Ascending vs)

  pub dimensions_of-Ascending :
      (items : Dict String (List F.N)) → All Ascending (dimensions_of F items)
  dimensions_of-Ascending [] = tt
  dimensions_of-Ascending ((k, vs) ∷ items) = (distinct-Ascending vs, dimensions_of-Ascending items)

  -- The values that the grid's items name, before duplicates are removed.
  abbrev pub values_of : Dict String (List F.N) → List (List F.N)
  values_of [] = []
  values_of ((k, vs) ∷ items) = vs ∷ values_of items

  pub Fits-dimensions_of :
      (vs : List F.N) (items : Dict String (List F.N))
      → Connected
      → Fits vs (dimensions_of F items) ↔ Fits vs (values_of items)
  Fits-dimensions_of [] [] law = (λ h. h, λ h. h)
  Fits-dimensions_of [] (item ∷ items) law = (λ h. h, λ h. h)
  Fits-dimensions_of (v ∷ vs) [] law = (λ h. h, λ h. h)
  Fits-dimensions_of (v ∷ vs) ((k, ws) ∷ items) law =
      let here = In-distinct v ws law in
      let rest = Fits-dimensions_of vs items law in
      (λ h. (here.0 h.0, rest.0 h.1), λ h. (here.1 h.0, rest.1 h.1))

-- A grid that is accepted gives the candidates of exactly the value lists that take one of the grid's
-- values for each key, the keys and their values being those of the grid, in another order. There are
-- as many as the product of the numbers of values without duplicates, if two numbers that are not in
-- order either way are the same.
pub from_parameter_grid-Fits :
    (F : Number) (identify : String → Dict String F.N → String) (family : String)
    (grid : Dict String (List F.N)) {cs : List (CandidateConfiguration F.N)}
    → Connected F
    → from_parameter_grid F identify family grid ≡ ok cs
    → (items : Dict String (List F.N)) × (dims : List (List F.N)) × (values : List (List F.N))
      × ((x : String × List F.N) → In x items ↔ In x grid)
      × (cs ≡ map (candidate F identify family (keys_of F items)) values)
      × ((vs : List F.N) → In vs values ↔ Fits vs (values_of F items))
      × ((vs : List F.N) → Fits vs dims ↔ Fits vs (values_of F items))
      × All (Ascending F) dims
      × (length cs ≡ size dims)
unfolding from_parameter_grid
from_parameter_grid-Fits F identify family grid {cs} law h =
    let items = by_key grid in
    let dims = dimensions_of F items in
    let make = candidate F identify family (keys_of F items) in
    let is : cs ≡ map make (product dims) = ground arith in
    let fits = λ (vs : List F.N). Fits-dimensions_of F vs items law in
    (
      items,
      dims,
      product dims,
      λ x. In-by_key x grid,
      is,
      λ vs. (
        λ m. (fits vs).0 ((In-product dims vs).0 m),
        λ m. (In-product dims vs).1 ((fits vs).1 m),
      ),
      fits,
      dimensions_of-Ascending F items,
      ap length is ∙ length-map_candidates make (product dims) ∙ length-product dims,
    )
