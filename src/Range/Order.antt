-- ===== src/Range/Order.antt =====
-- `operator<` and `operator==` of src/libs/system/range.cpp order the ranges, as the key order of a
-- std::set or std::map has to.
use trans_lucid.Prelude.{true, false, ◌≡◌, ◌↔◌, arith}
use trans_lucid.Range.{Range, eq, lt}

eq_iff_eq : (r s : Range) → (eq r s ≡ true) ↔ (r ≡ s)
unfolding eq
eq_iff_eq r s = ground arith

eq_iff_lt : (r s : Range) → (eq r s ≡ true) ↔ ((lt r s ≡ false) × (lt s r ≡ false))
unfolding eq lt
eq_iff_lt r s = ground arith

-- `==` decides equality of ranges, and two ranges are equal exactly when neither is below the
-- other, which is what an ordered container takes for equal.
pub eq_iff :
    (r s : Range)
    → ((eq r s ≡ true) ↔ (r ≡ s)) × ((eq r s ≡ true) ↔ ((lt r s ≡ false) × (lt s r ≡ false)))
eq_iff r s = (eq_iff_eq r s, eq_iff_lt r s)

-- `operator<` on ranges is transitive, whatever bounds are open.
pub lt_trans : (r s t : Range) → lt r s ≡ true → lt s t ≡ true → lt r t ≡ true
unfolding lt
lt_trans r s t h k = ground arith
