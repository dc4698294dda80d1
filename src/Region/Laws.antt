-- ===== src/Region/Laws.antt =====
-- `operator==` and `operator<` of src/libs/system/region.cpp.
use trans_lucid.Prelude.{Bool, true, [], ◌∷◌, ◌≡◌, ◌↔◌, refl, arith}
use trans_lucid.Prelude.Int.{eqb_ℤ_iff}
use trans_lucid.Ordered.{StrictOrder, ℤ_order, lex_order, settle-ThreeWay, settle_pair-ThreeWay}
use trans_lucid.Region.{Containment, rank, ltb_containment, Region, region_eq, region_lt}

rank_injective : (a b : Containment) → rank a ≡ rank b → a ≡ b
rank_injective a b h = ground arith

containment_order : StrictOrder ltb_containment
containment_order = record {
  irrefl = λ a. ground arith;
  trans = λ a b c h k. ground arith;
  total = λ a b h k. ground arith;
}

-- `operator<` on regions is a strict total order whenever the one on constants is.
pub region_lt-StrictOrder :
    {C : Type 0} {less : C → C → Bool} → StrictOrder less → StrictOrder (region_lt less)
unfolding region_lt
region_lt-StrictOrder o =
    lex_order
      (settle_pair-ThreeWay ℤ_order (settle_pair-ThreeWay containment_order (settle-ThreeWay o)))

module _ {C : Type 0} (beq : C → C → Bool) (beq_iff : (a b : C) → (beq a b ≡ true) ↔ (a ≡ b)) where
  region_eq_self : (r : Region C) → region_eq beq r r ≡ true
  unfolding region_eq
  region_eq_self [] = refl
  region_eq_self (e ∷ r) = ground (arith, region_eq_self r, beq_iff e.1.1 e.1.1)

  eq_of_region_eq : (r s : Region C) → region_eq beq r s ≡ true → r ≡ s
  unfolding region_eq
  eq_of_region_eq [] [] h = refl
  eq_of_region_eq [] (f ∷ s) h = ground arith
  eq_of_region_eq (e ∷ r) [] h = ground arith
  eq_of_region_eq (e ∷ r) (f ∷ s) h = ground (
    arith,
    eq_of_region_eq r s,
    beq_iff e.1.1 f.1.1,
    rank_injective e.1.0 f.1.0,
    eqb_ℤ_iff e.0 f.0,
  )

  -- `operator==` decides equality of regions whenever the one on constants decides theirs.
  pub region_eq_iff : (r s : Region C) → (region_eq beq r s ≡ true) ↔ (r ≡ s)
  region_eq_iff r s = (eq_of_region_eq r s, λ e. rw e (region_eq_self s))
