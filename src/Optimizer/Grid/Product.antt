-- ===== src/Optimizer/Grid/Product.antt =====
-- The product of the dimensions of a grid in src/investment_tracker/quant/optimizer/candidate_generator.py.
use investment_tracker.Prelude.{
  ℕ, ◌*◌, ◌≡◌, ◌↔◌, ◌⊎◌, inl, inr, refl, List, [], ◌∷◌, ◌++◌, map, arith, length, length-append, In,
}
use investment_tracker.Optimizer.Grid.{each_with, product}

module _ {A : Type 0} where
  -- One value of each dimension, in order.
  abbrev pub Fits : List A → List (List A) → Type 0
  Fits [] [] = Unit
  Fits (v ∷ vs) (d ∷ ds) = In v d × Fits vs ds
  Fits _ _ = ⊥

  -- The product of the dimensions' sizes.
  abbrev pub size : List (List A) → ℕ
  size [] = 1
  size (d ∷ ds) = length d * size ds

abbrev Headed : {A : Type 0} → A → List (List A) → List A → Type 0
Headed x tails [] = ⊥
Headed x tails (v ∷ vs) = (v ≡ x) × In vs tails

abbrev Parted : {A : Type 0} → List A → List (List A) → List A → Type 0
Parted d tails [] = ⊥
Parted d tails (v ∷ vs) = In v d × In vs tails

In-append : {A : Type 0} (x : A) (xs ys : List A) → In x (xs ++ ys) ↔ (In x xs ⊎ In x ys)
In-append x [] ys = (λ h. inr h, λ h. elim h [ inl e ↦ absurd e | inr m ↦ m ])
In-append x (z ∷ xs) ys = (
  λ h. elim h [
    | inl e ↦ inl (inl e)
    | inr m ↦ elim ((In-append x xs ys).0 m) [ inl l ↦ inl (inr l) | inr r ↦ inr r ]
  ],
  λ h. elim h [
    | inl l ↦ elim l [ inl e ↦ inl e | inr m ↦ inr ((In-append x xs ys).1 (inl m)) ]
    | inr r ↦ inr ((In-append x xs ys).1 (inr r))
  ],
)

module _ {A : Type 0} where
  In-map :
      (x : A) (tails : List (List A)) (vs : List A)
      → In vs (map (λ t. x ∷ t) tails) ↔ Headed x tails vs
  In-map x [] [] = (λ h. h, λ h. h)
  In-map x [] (v ∷ vs) = (λ h. absurd h, λ h. h.1)
  In-map x (t ∷ tails) [] =
      (λ h. elim h [ inl e ↦ cc | inr m ↦ (In-map x tails []).0 m ], λ h. absurd h)
  In-map x (t ∷ tails) (v ∷ vs) = (
    λ h. elim h [
      | inl e ↦ (cc, inl (cc))
      | inr m ↦ let (same, there) = (In-map x tails (v ∷ vs)).0 m in (same, inr there)
    ],
    λ h. elim h.1 [
      | inl e ↦ let same = h.0 in inl (cc)
      | inr m ↦ inr ((In-map x tails (v ∷ vs)).1 (h.0, m))
    ],
  )

  length-map : (x : A) (tails : List (List A)) → length (map (λ t. x ∷ t) tails) ≡ length tails
  length-map x [] = refl
  length-map x (t ∷ tails) = omega (arith, length-map x tails)

  length-each_with :
      (d : List A) (tails : List (List A)) → length (each_with d tails) ≡ length d * length tails
  length-each_with [] tails = omega arith
  length-each_with (x ∷ d) tails = grind (
    arith,
    length-append (map (λ t. x ∷ t) tails) (each_with d tails),
    length-map x tails,
    length-each_with d tails,
  )

  In-each_with :
      (d : List A) (tails : List (List A)) (vs : List A)
      → In vs (each_with d tails) ↔ Parted d tails vs
  In-each_with [] tails [] = (λ h. h, λ h. h)
  In-each_with [] tails (v ∷ vs) = (λ h. absurd h, λ h. h.0)
  In-each_with (x ∷ d) tails [] = (
    λ h. elim ((In-append [] (map (λ t. x ∷ t) tails) (each_with d tails)).0 h) [
      | inl m ↦ (In-map x tails []).0 m
      | inr m ↦ (In-each_with d tails []).0 m
    ],
    λ h. absurd h,
  )
  In-each_with (x ∷ d) tails (v ∷ vs) =
      let joined = In-append (v ∷ vs) (map (λ t. x ∷ t) tails) (each_with d tails) in
      let heads = In-map x tails (v ∷ vs) in
      let rest = In-each_with d tails (v ∷ vs) in
      (
        λ h. elim (joined.0 h) [
          | inl m ↦ let (e, t) = heads.0 m in (inl e, t)
          | inr m ↦ let (e, t) = rest.0 m in (inr e, t)
        ],
        λ h. elim h.0 [
          | inl e ↦ joined.1 (inl (heads.1 (e, h.1)))
          | inr m ↦ joined.1 (inr (rest.1 (m, h.1)))
        ],
      )

  pub In-product : (dims : List (List A)) (vs : List A) → In vs (product dims) ↔ Fits vs dims
  unfolding product
  In-product [] [] = (λ h. tt, λ h. inl refl)
  In-product [] (v ∷ vs) = (λ h. elim h [ inl e ↦ cc | inr m ↦ m ], λ h. absurd h)
  In-product (d ∷ dims) [] = (λ h. (In-each_with d (product dims) []).0 h, λ h. absurd h)
  In-product (d ∷ dims) (v ∷ vs) =
      let here = In-each_with d (product dims) (v ∷ vs) in
      let deeper = In-product dims vs in
      (λ h. let (e, t) = here.0 h in (e, deeper.0 t), λ h. here.1 (h.0, deeper.1 h.1))

  pub length-product : (dims : List (List A)) → length (product dims) ≡ size dims
  unfolding product
  length-product [] = refl
  length-product (d ∷ dims) = grind (arith, length-each_with d (product dims), length-product dims)

pub length-map_candidates : {A B : Type 0} (f : A → B) (xs : List A) → length (map f xs) ≡ length xs
length-map_candidates f [] = refl
length-map_candidates f (x ∷ xs) = omega (arith, length-map_candidates f xs)
