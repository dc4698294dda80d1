-- ===== src/Types/Compare.antt =====
-- `operator==` of the types of src/include/tl/tyinf/type.hpp, `type_term_contains_neg` and
-- `type_term_contains_pos` of src/libs/system/tyinf/type.cpp, and what the constraint graph asks of the
-- types.
pub mod Sound
use trans_lucid.Prelude.{
  ℕ, zero, suc, ◌+◌, Bool, true, false, ◌&&◌, Option, none, some, List, [], ◌∷◌, ◌==◌,
}
use trans_lucid.Prelude.Int.{ℤ, eqb_ℤ}
use trans_lucid.Types.{
  TypeTerm, nothing, top, bot, region, var, constant, atomic, union, glb, lub, intension, cbv, base,
  tuple, Types, no_type, next_type, Fields, no_field, next_field,
}
use trans_lucid.Types.Atomics.{AtomicUnion, ◌>>=◌}
use trans_lucid.Types.Bounds.{construct_lub, construct_glb}
use trans_lucid.Types.Subtype.{head, subc}
use trans_lucid.Types.Subtype.Fuel.{weight}
use trans_lucid.ConstraintGraph.Constraints.{
  Constraint, TypeOps, Outcome, done, refused, overrun, out_of_fuel,
}

unfoldable pub eqb_vars : List ℕ → List ℕ → Bool
eqb_vars [] [] = true
eqb_vars (v ∷ vs) (w ∷ ws) = v == w && eqb_vars vs ws
eqb_vars _ _ = false

module _ {C : Type 0} (beq : C → C → Bool) where
  unfoldable pub eqb_constants : List C → List C → Bool
  eqb_constants [] [] = true
  eqb_constants (c ∷ cs) (d ∷ ds) = beq c d && eqb_constants cs ds
  eqb_constants _ _ = false

  -- `TypeAtomicUnion::operator==`
  unfoldable pub eqb_union : AtomicUnion C → AtomicUnion C → Bool
  unfolding eqb_vars eqb_constants
  eqb_union u v = eqb_constants u.constants v.constants && eqb_vars u.atomics v.atomics

  unfoldable mutual
    unfolding eqb_vars eqb_union

    pub eqb : TypeTerm C → TypeTerm C → Bool
    eqb nothing nothing = true
    eqb top top = true
    eqb bot bot = true
    eqb region region = true
    eqb (var v) (var w) = v == w
    eqb (constant a) (constant b) = beq a b
    eqb (atomic n i) (atomic m j) = i == j
    eqb (union u) (union v) = eqb_union u v
    eqb (glb vs t) (glb ws t') = eqb_vars vs ws && eqb t t'
    eqb (lub vs t) (lub ws t') = eqb_vars vs ws && eqb t t'
    eqb (intension t) (intension t') = eqb t t'
    eqb (cbv l r) (cbv l' r') = eqb l l' && eqb r r'
    eqb (base ls r) (base ls' r') = eqb_types ls ls' && eqb r r'
    eqb (tuple fs v) (tuple gs w) = eqb_fields fs gs && v == w
    eqb _ _ = false

    pub eqb_types : Types C → Types C → Bool
    eqb_types no_type no_type = true
    eqb_types (next_type t ts) (next_type t' ts') = eqb t t' && eqb_types ts ts'
    eqb_types _ _ = false

    pub eqb_fields : Fields C → Fields C → Bool
    eqb_fields no_field no_field = true
    eqb_fields (next_field d t fs) (next_field e t' gs) = eqb_ℤ d e && eqb t t' && eqb_fields fs gs
    eqb_fields _ _ = false

module _ {C : Type 0} (index : C → ℕ) (beq lt : C → C → Bool) where
  -- `type_term_contains_neg` and `type_term_contains_pos`
  unfoldable pub contains_neg : TypeTerm C → TypeTerm C → Option Bool
  unfolding construct_glb eqb
  contains_neg t p = construct_glb index beq lt t p >>= λ g. some (eqb beq g t)

  unfoldable pub contains_pos : TypeTerm C → TypeTerm C → Option Bool
  unfolding construct_lub eqb
  contains_pos t p = construct_lub index beq lt t p >>= λ l. some (eqb beq l t)

  abbrev when_done : {A : Type 0} → Outcome A → Option A
  when_done (done a) = some a
  when_done refused = none
  when_done overrun = none
  when_done out_of_fuel = none

  abbrev as_variable : TypeTerm C → Option ℕ
  as_variable (var v) = some v
  as_variable _ = none

  -- The types behind the constraint graph. The fuel of `subc` is above the bound of `subc_total`.
  abbrev pub type_ops : TypeOps (TypeTerm C)
  type_ops = record {
    bot = bot;
    top = top;
    var = var;
    variable = as_variable;
    lub = construct_lub index beq lt;
    glb = construct_glb index beq lt;
    contains_neg = contains_neg;
    contains_pos = contains_pos;
    subc = λ c. when_done (subc index beq lt (suc (weight c.lhs + weight c.rhs)) c.lhs c.rhs);
    head = head index beq lt;
  }
