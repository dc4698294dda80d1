-- ===== src/Types/Subtype.antt =====
-- `subc` and `HeadCompare` of src/libs/system/tyinf/constraint_graph.cpp: the constraints on variables
-- that a constraint between two types comes down to. `index`, `beq` and `lt` are those of `Bounds`.
pub mod Fuel
use trans_lucid.Prelude.{
  ℕ, zero, suc, ◌+◌, Bool, true, false, not, ◌&&◌, ◌||◌, List, [], ◌∷◌, ◌++◌, if◌then◌else◌, ◌==◌,
}
use trans_lucid.Types.{
  TypeTerm, nothing, top, bot, region, var, constant, atomic, union, glb, lub, intension, cbv, base,
  tuple, Types, no_type, next_type, size, is_nothing,
}
use trans_lucid.Types.Atomics.{AtomicUnion, atomic_in, constant_in, within}
use trans_lucid.ConstraintGraph.Constraints.{Constraint, Outcome, done, refused, out_of_fuel, ◌>>=◌}

module _ {C : Type 0} where
  -- `is_constructed`
  abbrev pub is_constructed : TypeTerm C → Bool
  is_constructed (var v) = false
  is_constructed bot = false
  is_constructed top = false
  is_constructed (lub vs t) = false
  is_constructed (glb vs t) = false
  is_constructed _ = true

  abbrev pub is_variable : TypeTerm C → Bool
  is_variable (var v) = true
  is_variable _ = false

  -- `is_elementary`
  unfoldable pub is_elementary : TypeTerm C → TypeTerm C → Bool
  is_elementary a b =
      if is_variable a && is_variable b
      then true
      else if is_variable a
      then is_constructed b
      else if is_variable b
      then is_constructed a
      else false

module _ {C : Type 0} (index : C → ℕ) (beq lt : C → C → Bool) where
  -- `HeadCompare`
  unfoldable pub head : TypeTerm C → TypeTerm C → Bool
  head (cbv l r) (cbv l' r') = true
  head (constant a) (atomic n i) = index a == i
  head (constant a) (constant b) = beq a b
  head (constant a) (union u) = constant_in index lt a u
  head _ _ = false

  -- `TypeAtomicUnion::in` of a type
  unfoldable pub type_in : TypeTerm C → AtomicUnion C → Bool
  type_in (constant c) u = constant_in index lt c u
  type_in (atomic n i) u = atomic_in i u
  type_in _ u = false

  -- `TypeAtomicUnion::within` a type
  unfoldable pub within_type : AtomicUnion C → TypeTerm C → Bool
  within_type u (atomic n i) = within index lt i u
  within_type u _ = false

  -- The constraint on the results of a call, which are put behind those that are there.
  abbrev Result : Type 0
  Result = Outcome (List (Constraint (TypeTerm C)))

  module _ (again : TypeTerm C → TypeTerm C → Result) where
    -- Two calls in turn.
    abbrev pub both : Result → Result → Result
    both r s = r >>= λ cs. s >>= λ ds. done (cs ++ ds)

    unfoldable pub each_lower : List ℕ → TypeTerm C → Result
    each_lower [] b = done []
    each_lower (v ∷ vs) b = both (again (var v) b) (each_lower vs b)

    unfoldable pub each_upper : TypeTerm C → List ℕ → Result
    each_upper a [] = done []
    each_upper a (v ∷ vs) = both (again a (var v)) (each_upper a vs)

    -- The arguments of two base functions, which are of one number.
    unfoldable pub each_argument : Types C → Types C → Result
    each_argument (next_type l ls) (next_type r rs) = both (again r l) (each_argument ls rs)
    each_argument _ _ = done []

    -- The cases on the constructors of both sides, after the variables.
    unfoldable pub sub_constructed : TypeTerm C → TypeTerm C → Result
    sub_constructed region region = done []
    sub_constructed (tuple ts v) (tuple us w) = done []
    sub_constructed (cbv l r) (cbv l' r') = both (again l' l) (again r r')
    sub_constructed (base ls r) (base ls' r') =
        if size ls == size ls' then both (each_argument ls ls') (again r r') else refused
    sub_constructed (intension a) (intension b) = again a b
    sub_constructed (atomic n i) (atomic m j) = if i == j then done [] else refused
    sub_constructed (constant c) (atomic n i) = if index c == i then done [] else refused
    sub_constructed (constant c) (union u) = if type_in (constant c) u then done [] else refused
    sub_constructed (atomic n i) (union u) = if type_in (atomic n i) u then done [] else refused
    sub_constructed (union u) (atomic n i) = if within_type u (atomic n i) then done [] else refused
    sub_constructed _ _ = refused

    abbrev pub is_top_or : TypeTerm C → TypeTerm C → Bool
    is_top_or a top = true
    is_top_or bot b = true
    is_top_or a b = false

    -- What follows where the left side is no upper bound, nor the right side a lower one.
    unfoldable pub sub_rest : TypeTerm C → TypeTerm C → Result
    sub_rest a b =
        let constructed = sub_constructed a b in
        if is_elementary a b
        then done (record { lhs = a; rhs = b } ∷ [])
        else if is_top_or a b
        then done []
        else constructed

    unfoldable pub sub_upper : TypeTerm C → TypeTerm C → Result
    sub_upper a (glb vs t) = both (each_upper a vs) (if is_nothing t then done [] else again a t)
    sub_upper a b = sub_rest a b

    unfoldable pub sub_step : TypeTerm C → TypeTerm C → Result
    sub_step (lub vs t) b = both (each_lower vs b) (if is_nothing t then done [] else again t b)
    sub_step a b = sub_upper a b

  -- `subc`
  unfoldable pub subc : ℕ → TypeTerm C → TypeTerm C → Outcome (List (Constraint (TypeTerm C)))
  subc zero a b = out_of_fuel
  subc (suc f) a b = sub_step (subc f) a b
