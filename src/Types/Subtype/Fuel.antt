-- ===== src/Types/Subtype/Fuel.antt =====
-- `subc` of src/libs/system/tyinf/constraint_graph.cpp ends: each call is on smaller types.
use trans_lucid.Prelude.{ℕ, suc, ◌+◌}
use trans_lucid.Types.{TypeTerm, glb, lub, intension, cbv, base, Types, no_type, next_type}
use trans_lucid.ConstraintGraph.Constraints.{Outcome, done, refused, overrun, out_of_fuel}

module _ {C : Type 0} where
  -- The size of a type.
  abbrev mutual
    pub weight : TypeTerm C → ℕ
    weight (glb vs t) = suc (suc (weight t))
    weight (lub vs t) = suc (suc (weight t))
    weight (intension t) = suc (weight t)
    weight (cbv l r) = suc (weight l + weight r)
    weight (base ls r) = suc (weights ls + weight r)
    weight _ = 1

    pub weights : Types C → ℕ
    weights no_type = 1
    weights (next_type t ts) = suc (weight t + weights ts)

abbrev Ends : {A : Type 0} → Outcome A → Type 0
Ends (done a) = Unit
Ends refused = Unit
Ends overrun = Unit
Ends out_of_fuel = ⊥
