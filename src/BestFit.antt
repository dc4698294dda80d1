-- ===== src/BestFit.antt =====
-- The choice of the most specific equation in src/libs/system/bestfit.cpp: `regionSubset`,
-- `tupleRefines`, `regionApplicable` and `ConditionalBestfitWS::bestfit`. What these ask of the
-- constants is a record, which `Values` fills.
pub mod Values
pub mod Plain
pub mod Subset
pub mod Chosen
pub mod Priorities
mod Examples
use trans_lucid.Prelude.{
  ℕ, Bool, true, false, not, ◌&&◌, ◌||◌, ◌+◌, Option, none, some, List, [], ◌∷◌, if◌then◌else◌,
  ◌==◌,
}
use trans_lucid.Prelude.Int.{ℤ, ltb_ℤ, eqb_ℤ, to_int16}
use trans_lucid.Region.{Containment, is, is_in, imp, Region}

-- `refines` is `valueRefines`; `as_type` the type in a constant of the type of types.
pub record ConstantOps (C : Type 0) : Type 0 where
  pub beq : C → C → Bool
  pub refines : C → C → Bool
  pub type_of : C → ℕ
  pub as_type : C → Option ℕ

module _ {C : Type 0} (ops : ConstantOps C) where
  -- `bigger.index() == TYPE_INDEX_TYPE`, and then the type is that of the smaller one.
  abbrev pub of_type : C → Option ℕ → Bool
  of_type c none = false
  of_type c (some t) = ops.type_of c == t

  -- `valueInside` and `valueSmaller`
  unfoldable pub value_inside : C → Containment → C → Bool
  value_inside smaller is_in bigger = ops.refines smaller bigger
  value_inside smaller is bigger = ops.beq smaller bigger
  value_inside smaller imp bigger = of_type smaller (ops.as_type bigger)

  unfoldable pub value_smaller : C → Containment → C → Bool
  value_smaller smaller is_in bigger = ops.refines smaller bigger
  value_smaller smaller is bigger = ops.beq smaller bigger
  value_smaller smaller imp bigger = ops.beq smaller bigger

  -- `regionApplicable`, where `look` is the lookup in the tuple or the context.
  unfoldable pub region_applicable : (ℤ → C) → Region C → Bool
  unfolding value_inside
  region_applicable look [] = true
  region_applicable look ((d, (s, c)) ∷ r) =
      if not (value_inside (look d) s c) then false else region_applicable look r

  -- An `is` below an `in` or a `:`.
  abbrev pub is_below : Containment → Containment → Bool
  is_below is is_in = true
  is_below is imp = true
  is_below _ _ = false

  abbrev pub same_containment : Containment → Containment → Bool
  same_containment is is = true
  same_containment is_in is_in = true
  same_containment imp imp = true
  same_containment _ _ = false

  -- The loop of `regionSubset`, and what follows it; `equal` is the variable of that name. The
  -- dimensions are compared as numbers of the type type_index.
  unfoldable pub subset_loop : Bool → Bool → Region C → Region C → Bool
  unfolding value_smaller to_int16
  subset_loop can_equal equal [] [] = not equal || can_equal
  subset_loop can_equal equal [] (_ ∷ _) = false
  subset_loop can_equal equal (_ ∷ _) [] = true
  subset_loop can_equal equal ((d1, (s1, x)) ∷ a) ((d2, (s2, y)) ∷ b) =
      let skipped = subset_loop can_equal false a ((d2, (s2, y)) ∷ b) in
      let smaller = subset_loop can_equal false a b in
      let same = subset_loop can_equal equal a b in
      if ltb_ℤ (to_int16 d2) (to_int16 d1)
      then false
      else if ltb_ℤ (to_int16 d1) (to_int16 d2)
      then skipped
      else if not (same_containment s1 s2)
      then (if is_below s1 s2 then same else false)
      else if not (value_smaller x s1 y)
      then false
      else if not (value_smaller y s1 x)
      then smaller
      else same

  -- `regionSubset`
  unfoldable pub region_subset : Bool → Region C → Region C → Bool
  unfolding subset_loop
  region_subset can_equal a b = subset_loop can_equal true a b

  -- The loop of `tupleRefines`, and what follows it, with the dimensions as in `regionSubset`.
  unfoldable pub refines_loop : Bool → Bool → List (ℤ × C) → List (ℤ × C) → Bool
  refines_loop can_equal equal [] [] = not equal || can_equal
  refines_loop can_equal equal [] (_ ∷ _) = false
  refines_loop can_equal equal (_ ∷ _) [] = true
  refines_loop can_equal equal ((d1, x) ∷ a) ((d2, y) ∷ b) =
      let skipped = refines_loop can_equal false a ((d2, y) ∷ b) in
      let smaller = refines_loop can_equal false a b in
      let same = refines_loop can_equal equal a b in
      if ltb_ℤ (to_int16 d2) (to_int16 d1)
      then false
      else if ltb_ℤ (to_int16 d1) (to_int16 d2)
      then skipped
      else if not (ops.refines x y)
      then false
      else if not (ops.refines y x)
      then smaller
      else same

  unfoldable pub tuple_refines : Bool → List (ℤ × C) → List (ℤ × C) → Bool
  unfolding refines_loop
  tuple_refines can_equal a b = refines_loop can_equal true a b

  -- An applicable equation: the region of its guard and its provenance (when it was added).
  abbrev pub Applicable : Type 0
  Applicable = Region C × ℕ

  -- The loop over `j`: whether the region of the equation at `i` is inside those at all other positions.
  unfoldable pub below_others : ℕ → Region C → ℕ → List Applicable → Bool
  unfolding region_subset
  below_others i r j [] = true
  below_others i r j (e ∷ es) =
      let rest = below_others i r (j + 1) es in
      if not (i == j) && not (region_subset true r e.0) then false else rest

  -- The loop over `i`, which collects the best with their positions and provenances.
  unfoldable pub best_from : List Applicable → ℕ → List Applicable → List (ℕ × ℕ)
  unfolding below_others
  best_from all i [] = []
  best_from all i (e ∷ es) =
      let rest = best_from all (i + 1) es in
      if below_others i e.0 0 all then (i, e.1) ∷ rest else rest

  -- From the back: how many follow that are of the latest provenance.
  unfoldable pub reverse_onto : List (ℕ × ℕ) → List (ℕ × ℕ) → List (ℕ × ℕ)
  reverse_onto [] l = l
  reverse_onto (b ∷ bs) l = reverse_onto bs (b ∷ l)

  unfoldable pub count_latest : ℕ → List (ℕ × ℕ) → ℕ
  count_latest latest [] = 0
  count_latest latest (b ∷ bs) =
      let rest = count_latest latest bs in if latest == b.1 then 1 + rest else 0

  -- The equation that runs, by its position, or SP_UNDEF or SP_MULTIDEF.
  pub data Choice : Type 0 where
    run : ℕ → Choice
    undefined multiply_defined : Choice

  unfoldable pub newest : List (ℕ × ℕ) → Choice
  unfolding count_latest
  newest [] = undefined
  newest (b ∷ bs) = if count_latest b.1 bs == 0 then run b.0 else multiply_defined

  -- `ConditionalBestfitWS::bestfit`
  unfoldable pub bestfit : List Applicable → Choice
  unfolding best_from reverse_onto newest
  bestfit [] = undefined
  bestfit (e ∷ []) = run 0
  bestfit (e ∷ f ∷ es) = newest (reverse_onto (best_from (e ∷ f ∷ es) 0 (e ∷ f ∷ es)) [])
