-- ===== src/ConstraintGraph/Examples.antt =====
-- Constraint graphs over types whose constants are numbers, of the index of their tens.
use trans_lucid.Prelude.{
  ℕ, ◌/◌, ◌≡◌, refl, false, ◌&&◌, ◌||◌, if◌then◌else◌, List, [], ◌∷◌, ltb, ◌==◌, arith,
}
use trans_lucid.OrderedSet.{has, insert}
use trans_lucid.Types.{TypeTerm, top, bot, var, constant}
use trans_lucid.Types.Compare.{type_ops, contains_neg, contains_pos}
use trans_lucid.Types.Bounds.{construct_lub, construct_glb}
use trans_lucid.Types.Subtype.{
  head, subc, sub_step, sub_upper, sub_rest, is_elementary, sub_constructed,
}
use trans_lucid.ConstraintGraph.{
  Node, Graph, find_node, put_node, set_node, make_entry, node_of, less, add_less, add_less_row,
  add_less_pairs, add_less_closed, insert_condition, insert_conditions,
}
use trans_lucid.ConstraintGraph.Closure.{IsClosed, add_less_closed_lem}
use trans_lucid.ConstraintGraph.Constraints.{
  Constraint, TypeOps, done, drain, add_one, add_by, add_var_var, add_var_type, add_type_var,
  meet_upper, meet_uppers, join_lower, join_lowers, raise_lowers, check_all, check_single,
  add_to_closure, share_condition, add_conditional,
}
use trans_lucid.ConstraintGraph.Growth.{add_to_closure_lem}
use trans_lucid.ConstraintGraph.Collect.{upper, lower, collect}
use trans_lucid.ConstraintGraph.Collect.Laws.{collect_lem}

abbrev ops : TypeOps (TypeTerm ℕ)
ops = type_ops (λ c. c / 10) ◌==◌ ltb

abbrev empty : Graph (TypeTerm ℕ)
empty = record { nodes = []; made = 0 }

empty-IsClosed : IsClosed ops.bot ops.top empty
unfolding less node_of find_node has
empty-IsClosed = record { mirror = λ x y. refl; trans = λ x y z h k. ground arith }

abbrev between : ℕ → ℕ → Constraint (TypeTerm ℕ)
between a b = record { lhs = var a; rhs = var b }

-- A node with a lower bound.
abbrev entry : List ℕ → List ℕ → TypeTerm ℕ → Node (TypeTerm ℕ)
entry below above l = record {
  less = below;
  greater = above;
  lower = l;
  upper = top;
  conditions = [];
}

abbrev pair : Graph (TypeTerm ℕ)
pair = record { nodes = (1, entry [] (2 ∷ []) bot) ∷ (2, entry (1 ∷ []) [] bot) ∷ []; made = 0 }

abbrev chain : TypeTerm ℕ → Graph (TypeTerm ℕ)
chain l = record {
  nodes =
      (1, entry [] (2 ∷ 3 ∷ []) l)
      ∷ (2, entry (1 ∷ []) (3 ∷ []) l)
      ∷ (3, entry (1 ∷ 2 ∷ []) [] l)
      ∷ [];
  made = 0;
}

first : add_to_closure ops 5 (between 1 2) empty ≡ done pair
unfolding add_to_closure drain add_one add_by add_var_var add_var_type add_type_var meet_upper
    meet_uppers join_lower join_lowers raise_lowers check_all check_single node_of find_node
    put_node set_node make_entry less add_less_closed add_less_pairs add_less_row add_less
    insert_conditions insert_condition has insert subc sub_step sub_upper sub_rest is_elementary
    sub_constructed construct_lub construct_glb contains_neg contains_pos head
first = refl

second : add_to_closure ops 5 (between 2 3) pair ≡ done (chain bot)
unfolding add_to_closure drain add_one add_by add_var_var add_var_type add_type_var meet_upper
    meet_uppers join_lower join_lowers raise_lowers check_all check_single node_of find_node
    put_node set_node make_entry less add_less_closed add_less_pairs add_less_row add_less
    insert_conditions insert_condition has insert subc sub_step sub_upper sub_rest is_elementary
    sub_constructed construct_lub construct_glb contains_neg contains_pos head
second = refl

-- The constant reaches all three variables.
third :
    add_to_closure ops 5 (record { lhs = constant 21; rhs = var 1 }) (chain bot)
    ≡ done (chain (constant 21))
unfolding add_to_closure drain add_one add_by add_var_var add_var_type add_type_var meet_upper
    meet_uppers join_lower join_lowers raise_lowers check_all check_single node_of find_node
    put_node set_node make_entry less add_less_closed add_less_pairs add_less_row add_less
    insert_conditions insert_condition has insert subc sub_step sub_upper sub_rest is_elementary
    sub_constructed construct_lub construct_glb contains_neg contains_pos head
third = refl

pair-IsClosed : IsClosed ops.bot ops.top pair
pair-IsClosed = (add_to_closure_lem ops 5 (between 1 2) empty pair empty-IsClosed first).0

add_less_closed_lem_example :
    IsClosed ops.bot ops.top (add_less_closed ops.bot ops.top 2 3 pair)
    × ((x y : ℕ)
        → less ops.bot ops.top x y (add_less_closed ops.bot ops.top 2 3 pair) ≡ (
            less ops.bot ops.top x y pair
            || (less ops.bot ops.top x 2 pair && less ops.bot ops.top 3 y pair)))
add_less_closed_lem_example = add_less_closed_lem ops.bot ops.top 2 3 pair pair-IsClosed

chain-IsClosed : IsClosed ops.bot ops.top (chain bot)
chain-IsClosed = (add_to_closure_lem ops 5 (between 2 3) pair (chain bot) pair-IsClosed second).0

apart : (v : ℕ) → (has ltb v (1 ∷ []) && has ltb v (3 ∷ [])) ≡ false
unfolding has
apart v = ground arith

collect_lem_example :
    IsClosed ops.bot ops.top (collect ops.bot ops.top (1 ∷ []) (3 ∷ []) (chain bot))
    × ((x y : ℕ)
        → less ops.bot ops.top x y (collect ops.bot ops.top (1 ∷ []) (3 ∷ []) (chain bot)) ≡ (
            x == y
            || (has ltb x (1 ∷ []) && has ltb y (3 ∷ []) && less ops.bot ops.top x y (chain bot))))
    × ((x : ℕ)
        → (lower ops.bot ops.top x (collect ops.bot ops.top (1 ∷ []) (3 ∷ []) (chain bot))
            ≡ (if has ltb x (3 ∷ []) then lower ops.bot ops.top x (chain bot) else ops.bot))
          × (upper ops.bot ops.top x (collect ops.bot ops.top (1 ∷ []) (3 ∷ []) (chain bot))
              ≡ (if has ltb x (1 ∷ []) then upper ops.bot ops.top x (chain bot) else ops.top)))
collect_lem_example = collect_lem ops.bot ops.top (1 ∷ []) (3 ∷ []) (chain bot) apart chain-IsClosed

-- A conditional constraint whose condition is met at once: 21 is of the twenties.
conditional :
    add_conditional ops 9 (constant 21) 3 4 5 (chain (constant 21))
    ≡ done (record {
      nodes =
          (
            1,
            record (entry [] (2 ∷ 3 ∷ []) (constant 21)) {
              conditions = record { address = 0; s = constant 21; lhs = 4; rhs = 5 } ∷ [];
            },
          )
          ∷ (
            2,
            record (entry (1 ∷ []) (3 ∷ []) (constant 21)) {
              conditions = record { address = 0; s = constant 21; lhs = 4; rhs = 5 } ∷ [];
            },
          )
          ∷ (
            3,
            record (entry (1 ∷ 2 ∷ []) [] (constant 21)) {
              conditions = record { address = 0; s = constant 21; lhs = 4; rhs = 5 } ∷ [];
            },
          )
          ∷ (4, entry [] (5 ∷ []) bot)
          ∷ (5, entry (4 ∷ []) [] bot)
          ∷ [];
      made = 1;
    })
unfolding add_to_closure drain add_one add_by add_var_var add_var_type add_type_var meet_upper
    meet_uppers join_lower join_lowers raise_lowers check_all check_single node_of find_node
    put_node set_node make_entry less add_less_closed add_less_pairs add_less_row add_less
    insert_conditions insert_condition has insert subc sub_step sub_upper sub_rest is_elementary
    sub_constructed construct_lub construct_glb contains_neg contains_pos head add_conditional
    share_condition
conditional = refl
