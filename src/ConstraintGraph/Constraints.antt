-- ===== src/ConstraintGraph/Constraints.antt =====
-- The constraints of a `ConstraintGraph` (src/libs/system/tyinf/constraint_graph.cpp): the bounds of
-- the variables, the conditional constraints, and the queue of `add_to_closure`.
use trans_lucid.Prelude.{
  ℕ, zero, suc, ◌+◌, Bool, Option, none, some, List, [], ◌∷◌, ◌++◌, if◌then◌else◌, ltb, ◌==◌,
  length,
}
use trans_lucid.ConstraintGraph.{
  Condition, Node, Graph, node_of, make_entry, set_node, less, add_less_closed, insert_condition,
}

-- `Constraint`: lhs <= rhs
pub record Constraint (T : Type 0) : Type 0 where
  pub lhs : T
  pub rhs : T

-- What the graph asks of the types; `none` is an exception.
pub record TypeOps (T : Type 0) : Type 0 where
  pub bot : T
  pub top : T
  pub var : ℕ → T
  pub variable : T → Option ℕ
  pub lub : T → T → Option T
  pub glb : T → T → Option T
  pub contains_neg : T → T → Option Bool
  pub contains_pos : T → T → Option Bool
  pub subc : Constraint T → Option (List (Constraint T))
  pub head : T → T → Bool

-- The graph after a call, or an exception. `overrun` is a loop over a vector that has grown meanwhile,
-- where the source has no defined behaviour; `out_of_fuel` is no outcome of the source.
pub data Outcome (A : Type 0) : Type 0 where
  done : A → Outcome A
  refused : Outcome A
  overrun : Outcome A
  out_of_fuel : Outcome A

infixl 5 ◌>>=◌
abbrev pub ◌>>=◌ : {A B : Type 0} → Outcome A → (A → Outcome B) → Outcome B
done a >>= f = f a
refused >>= f = refused
overrun >>= f = overrun
out_of_fuel >>= f = out_of_fuel

abbrev pub try : {A : Type 0} → Option A → Outcome A
try none = refused
try (some a) = done a

-- Where a loop over a std::set of conditions begins, and where it goes on after an address.
abbrev pub first_condition : {T : Type 0} → List (Condition T) → Option (Condition T)
first_condition [] = none
first_condition (c ∷ cs) = some c

unfoldable pub next_condition : {T : Type 0} → ℕ → List (Condition T) → Option (Condition T)
next_condition n [] = none
next_condition n (c ∷ cs) =
    let later = next_condition n cs in if ltb n c.address then some c else later

module _ {T : Type 0} (ops : TypeOps T) where
  abbrev pub node : ℕ → Graph T → Node T
  node v g = node_of ops.bot ops.top v g

  abbrev pub set_lower : ℕ → T → Graph T → Graph T
  set_lower v t g = set_node v (record (node v g) { lower = t }) g

  abbrev pub set_upper : ℕ → T → Graph T → Graph T
  set_upper v t g = set_node v (record (node v g) { upper = t }) g

  -- `upper = construct_glb(upper, t)`
  unfoldable pub meet_upper : T → ℕ → Graph T → Outcome (Graph T)
  meet_upper t v g = do u ← try (ops.glb (node v g).upper t); done (set_upper v u g)

  unfoldable pub meet_uppers : T → List ℕ → Graph T → Outcome (Graph T)
  meet_uppers t [] g = done g
  meet_uppers t (v ∷ vs) g = do g' ← meet_upper t v g; meet_uppers t vs g'

  module _ (again : Constraint T → Graph T → Outcome (Graph T)) where
    -- `check_single_conditional`
    unfoldable pub check_single : ℕ → Condition T → Graph T → Outcome (Graph T)
    check_single v c g =
        let implied = again (record { lhs = ops.var c.lhs; rhs = ops.var c.rhs }) g in
        if ops.head c.s (node v g).lower then implied else done g

    -- `check_conditionals`: the loop over the std::set of conditions, which a condition that is met may
    -- add to. An iterator goes on to the next greater element that is there by then. The addresses are
    -- below `made`, so that there are no more than `made` rounds.
    unfoldable pub check_from : ℕ → ℕ → Option (Condition T) → Graph T → Outcome (Graph T)
    unfolding next_condition
    check_from zero v current g = out_of_fuel
    check_from (suc f) v none g = done g
    check_from (suc f) v (some c) g = do
      g' ← check_single v c g
      check_from f v (next_condition c.address (node v g').conditions) g'

    unfoldable pub check_all : ℕ → Graph T → Outcome (Graph T)
    unfolding check_from
    check_all v g = check_from (g.made + 1) v (first_condition (node v g).conditions) g

    -- `new_lower_closed(var, construct_lub(lower, t))`
    unfoldable pub join_lower : T → ℕ → Graph T → Outcome (Graph T)
    join_lower t v g = do l ← try (ops.lub (node v g).lower t); check_all v (set_lower v l g)

    -- Whether the vector of the variables above `b`, over which a loop runs, is as long as it was.
    abbrev pub steady : ℕ → Graph T → Graph T → Bool
    steady b g g' = length (node b g').greater == length (node b g).greater

    unfoldable pub join_lowers : ℕ → ℕ → List ℕ → Graph T → Outcome (Graph T)
    join_lowers a b [] g = done g
    join_lowers a b (v ∷ vs) g = do
      g' ← join_lower (node a g).lower v g
      let rest = join_lowers a b vs g'
      if steady b g g' then rest else overrun

    unfoldable pub raise_lowers : T → ℕ → List ℕ → Graph T → Outcome (Graph T)
    raise_lowers t b [] g = done g
    raise_lowers t b (v ∷ vs) g = do
      g' ← join_lower t v g
      let rest = raise_lowers t b vs g'
      if steady b g g' then rest else overrun

    -- `add_constraint(TypeVariable, TypeVariable, …)`, with the constraints that it queues.
    unfoldable pub add_var_var : ℕ → ℕ → Graph T → Outcome (Graph T × List (Constraint T))
    add_var_var a b g =
        let g0 = make_entry ops.bot ops.top b (make_entry ops.bot ops.top a g) in
        let rest = (do
          queued ← try (ops.subc (record { lhs = (node a g0).lower; rhs = (node b g0).upper }))
          let g1 = add_less_closed ops.bot ops.top a b g0
          g2 ← meet_upper (node b g1).upper a g1
          g3 ← join_lower (node a g2).lower b g2
          g4 ← join_lowers a b (node b g3).greater g3
          g5 ← meet_uppers (node b g4).upper (node a g4).less g4
          done (g5, queued)) in
        if less ops.bot ops.top a b g then done (g, []) else rest

    -- `add_constraint(TypeVariable, Type, …)`
    unfoldable pub add_var_type : ℕ → T → Graph T → Outcome (Graph T × List (Constraint T))
    add_var_type a t g =
        let g0 = make_entry ops.bot ops.top a g in
        let rest = (do
          queued ← try (ops.subc (record { lhs = (node a g0).lower; rhs = t }))
          g1 ← meet_upper t a g0
          g2 ← meet_uppers t (node a g1).less g1
          done (g2, queued)) in
        (do
          there ← try (ops.contains_neg (node a g0).upper t)
          if there then done (g0, []) else rest)

    -- `add_constraint(Type, TypeVariable, …)`
    unfoldable pub add_type_var : T → ℕ → Graph T → Outcome (Graph T × List (Constraint T))
    add_type_var t b g =
        let g0 = make_entry ops.bot ops.top b g in
        let rest = (do
          queued ← try (ops.subc (record { lhs = t; rhs = (node b g0).upper }))
          l ← try (ops.lub (node b g0).lower t)
          let g1 = set_lower b l g0
          g2 ← raise_lowers t b (node b g1).greater g1
          done (g2, queued)) in
        (do
          there ← try (ops.contains_pos (node b g0).lower t)
          if there then done (g0, []) else rest)

    -- The body of the loop of `add_to_closure`, by the variables on the two sides.
    unfoldable pub add_by :
        Option ℕ → Option ℕ → Constraint T → Graph T → Outcome (Graph T × List (Constraint T))
    add_by (some a) (some b) c g = add_var_var a b g
    add_by (some a) none c g = add_var_type a c.rhs g
    add_by none (some b) c g = add_type_var c.lhs b g
    add_by none none c g = refused

    unfoldable pub add_one : Constraint T → Graph T → Outcome (Graph T × List (Constraint T))
    add_one c g = add_by (ops.variable c.lhs) (ops.variable c.rhs) c g

  -- The loop of `add_to_closure` over its queue. A conditional constraint whose condition is met starts
  -- another such loop.
  unfoldable pub drain : ℕ → List (Constraint T) → Graph T → Outcome (Graph T)
  drain zero q g = out_of_fuel
  drain (suc f) [] g = done g
  drain (suc f) (c ∷ q) g =
      add_one (λ c'. drain f (c' ∷ [])) c g >>= λ (g', queued). drain f (q ++ queued) g'

  unfoldable pub add_to_closure : ℕ → Constraint T → Graph T → Outcome (Graph T)
  add_to_closure fuel c g = drain fuel (c ∷ []) g

  -- `add_conditional`
  unfoldable pub share_condition : Condition T → List ℕ → Graph T → Graph T
  share_condition c [] g = g
  share_condition c (v ∷ vs) g =
      share_condition c vs
        (set_node v (record (node v g) { conditions = insert_condition c (node v g).conditions }) g)

  unfoldable pub add_conditional : ℕ → T → ℕ → ℕ → ℕ → Graph T → Outcome (Graph T)
  add_conditional fuel s a lhs rhs g =
      let c : Condition T = record { address = g.made; s = s; lhs = lhs; rhs = rhs } in
      let g0 = record (make_entry ops.bot ops.top a g) { made = g.made + 1 } in
      let g1 =
        set_node a (record (node a g0) { conditions = insert_condition c (node a g0).conditions })
          g0 in
      check_single (add_to_closure fuel) a c g1 >>= λ g2.
      done (share_condition c (node a g2).less g2)
