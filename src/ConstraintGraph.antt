-- ===== src/ConstraintGraph.antt =====
-- The order of the type variables in a `ConstraintGraph` (src/libs/system/tyinf/constraint_graph.cpp
-- and src/include/tl/tyinf/constraint_graph.hpp). `T` are the types of the bounds, with `TypeBot` and
-- `TypeTop`.
pub mod Closure
pub mod Collect
pub mod Constraints
pub mod Grows
pub mod Growth
mod Examples
use trans_lucid.Prelude.{
  ℕ, Bool, true, false, not, ◌&&◌, ◌||◌, Option, none, some, List, [], ◌∷◌, ◌++◌, if◌then◌else◌,
  ltb, ◌==◌,
}
use trans_lucid.OrderedSet.{insert, has}

-- `ConditionalNode`; the address of a node is its number.
pub record Condition (T : Type 0) : Type 0 where
  pub address : ℕ
  pub s : T
  pub lhs : ℕ
  pub rhs : ℕ

-- `ConstraintNode`
pub record Node (T : Type 0) : Type 0 where
  pub less : List ℕ
  pub greater : List ℕ
  pub lower : T
  pub upper : T
  pub conditions : List (Condition T)

-- `m_graph`, and the number of conditional nodes made.
pub record Graph (T : Type 0) : Type 0 where
  pub nodes : List (ℕ × Node T)
  pub made : ℕ

module _ {T : Type 0} where
  unfoldable pub find_node : ℕ → List (ℕ × Node T) → Option (Node T)
  find_node v [] = none
  find_node v ((w, n) ∷ g) = if v == w then some n else find_node v g

  -- The node of a key, replaced or inserted in order.
  unfoldable pub put_node : ℕ → Node T → List (ℕ × Node T) → List (ℕ × Node T)
  put_node v n [] = (v, n) ∷ []
  put_node v n ((w, m) ∷ g) =
      if ltb v w
      then (v, n) ∷ (w, m) ∷ g
      else if v == w
      then (v, n) ∷ g
      else (w, m) ∷ put_node v n g

  -- `conditions.insert`
  unfoldable pub insert_condition : Condition T → List (Condition T) → List (Condition T)
  insert_condition c [] = c ∷ []
  insert_condition c (d ∷ ds) =
      if ltb c.address d.address
      then c ∷ d ∷ ds
      else if c.address == d.address
      then d ∷ ds
      else d ∷ insert_condition c ds

  unfoldable pub insert_conditions : List (Condition T) → List (Condition T) → List (Condition T)
  insert_conditions [] ds = ds
  insert_conditions (c ∷ cs) ds = insert_conditions cs (insert_condition c ds)

  unfoldable pub set_node : ℕ → Node T → Graph T → Graph T
  set_node v n g = record g { nodes = put_node v n g.nodes }

module _ {T : Type 0} (bot top : T) where
  -- `ConstraintNode()`
  abbrev pub new_node : Node T
  new_node = record { less = []; greater = []; lower = bot; upper = top; conditions = [] }

  -- The node that `get_make_entry` returns, and the graph with the entry made.
  unfoldable pub node_of : ℕ → Graph T → Node T
  node_of v g = elim (find_node v g.nodes) [ none ↦ new_node | some n ↦ n ]

  unfoldable pub make_entry : ℕ → Graph T → Graph T
  make_entry v g = set_node v (node_of v g) g

  -- `less`
  unfoldable pub less : ℕ → ℕ → Graph T → Bool
  less a b g = a == b || has ltb b (node_of a g).greater

  -- `add_less`
  unfoldable pub add_less : ℕ → ℕ → Graph T → Graph T
  add_less a b g =
      let na = node_of a g in
      let nb = node_of b g in
      if a == b
      then g
      else set_node b (record nb { less = insert ltb a nb.less })
          (set_node a
            (record na {
              greater = insert ltb b na.greater;
              conditions = insert_conditions nb.conditions na.conditions;
            })
            g)

  -- The two loops of `add_less_closed`.
  unfoldable pub add_less_row : ℕ → List ℕ → Graph T → Graph T
  add_less_row a [] g = g
  add_less_row a (b ∷ bs) g = add_less_row a bs (add_less a b g)

  unfoldable pub add_less_pairs : List ℕ → List ℕ → Graph T → Graph T
  add_less_pairs [] bs g = g
  add_less_pairs (a ∷ more) bs g = add_less_pairs more bs (add_less_row a bs g)

  -- `add_less_closed`
  unfoldable pub add_less_closed : ℕ → ℕ → Graph T → Graph T
  add_less_closed a b g =
      let g' = make_entry b (make_entry a g) in
      if less a b g'
      then g'
      else add_less_pairs ((node_of a g').less ++ a ∷ []) ((node_of b g').greater ++ b ∷ []) g'
