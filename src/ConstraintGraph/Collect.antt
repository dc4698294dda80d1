-- ===== src/ConstraintGraph/Collect.antt =====
-- `ConstraintGraph::collect` of src/libs/system/tyinf/constraint_graph.cpp, and the accessors of the
-- bounds.
pub mod Laws
use trans_lucid.Prelude.{
  ℕ, Bool, true, false, Option, none, some, List, [], ◌∷◌, if◌then◌else◌, ltb,
}
use trans_lucid.OrderedSet.{has}
use trans_lucid.ConstraintGraph.{Node, Graph, node_of, find_node, make_entry, set_node}

-- The elements of `kept` only (`remove_if` and `erase`).
unfoldable pub keep_in : List ℕ → List ℕ → List ℕ
unfolding has
keep_in kept [] = []
keep_in kept (v ∷ vs) = let rest = keep_in kept vs in if has ltb v kept then v ∷ rest else rest

module _ {T : Type 0} (bot top : T) where
  -- `upper` and `lower`
  unfoldable pub upper : ℕ → Graph T → T
  upper a g = elim (find_node a g.nodes) [ none ↦ top | some n ↦ n.upper ]

  unfoldable pub lower : ℕ → Graph T → T
  lower b g = elim (find_node b g.nodes) [ none ↦ bot | some n ↦ n.lower ]

  -- The setters.
  unfoldable pub set_upper : ℕ → T → Graph T → Graph T
  set_upper a t g =
      let g' = make_entry bot top a g in set_node a (record (node_of bot top a g') { upper = t }) g'

  unfoldable pub set_lower : ℕ → T → Graph T → Graph T
  set_lower a t g =
      let g' = make_entry bot top a g in set_node a (record (node_of bot top a g') { lower = t }) g'

  unfoldable pub set_predecessor : ℕ → List ℕ → Graph T → Graph T
  set_predecessor a pred g =
      let g' = make_entry bot top a g in
      set_node a (record (node_of bot top a g') { less = pred }) g'

  unfoldable pub set_successor : ℕ → List ℕ → Graph T → Graph T
  set_successor a succ g =
      let g' = make_entry bot top a g in
      set_node a (record (node_of bot top a g') { greater = succ }) g'

  -- What the loop of `collect` makes of one node: `none` where it is removed.
  unfoldable pub collect_node : List ℕ → List ℕ → ℕ → Node T → Option (Node T)
  unfolding keep_in has
  collect_node neg pos v n =
      if has ltb v pos
      then some (record n { greater = []; upper = top; less = keep_in neg n.less })
      else if has ltb v neg
      then some (record n { less = []; lower = bot; greater = keep_in pos n.greater })
      else none

  unfoldable pub collect_nodes : List ℕ → List ℕ → List (ℕ × Node T) → List (ℕ × Node T)
  unfolding collect_node
  collect_nodes neg pos [] = []
  collect_nodes neg pos ((v, n) ∷ g) =
      let rest = collect_nodes neg pos g in
      elim (collect_node neg pos v n) [ none ↦ rest | some m ↦ (v, m) ∷ rest ]

  -- `collect`
  unfoldable pub collect : List ℕ → List ℕ → Graph T → Graph T
  unfolding collect_nodes
  collect neg pos g = record g { nodes = collect_nodes neg pos g.nodes }
