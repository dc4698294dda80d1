-- ===== src/ConstraintGraph/Collect/Laws.antt =====
-- What `ConstraintGraph::collect` of src/libs/system/tyinf/constraint_graph.cpp leaves of the graph.
use trans_lucid.Prelude.{
  ℕ, false, not, ◌&&◌, ◌||◌, Option, none, some, List, [], ◌∷◌, ◌≡◌, refl, ap, if◌then◌else◌, ltb,
  ◌==◌, arith,
}
use trans_lucid.Ordered.{ltb_order}
use trans_lucid.OrderedSet.{has, same_iff}
use trans_lucid.ConstraintGraph.{Node, Graph, find_node, new_node, node_of, less}
use trans_lucid.ConstraintGraph.Closure.{IsClosed, above, below}
use trans_lucid.ConstraintGraph.Collect.{
  keep_in, upper, lower, collect_node, collect_nodes, collect,
}

has-keep_in :
    (v : ℕ) (kept vs : List ℕ) → has ltb v (keep_in kept vs) ≡ (has ltb v kept && has ltb v vs)
unfolding keep_in has
has-keep_in v kept [] = ground arith
has-keep_in v kept (w ∷ vs) = ground (arith, has-keep_in v kept vs, same_iff ltb_order v w)

module _ {T : Type 0} (bot top : T) (neg pos : List ℕ) where
  -- A node of the collected graph.
  abbrev collected : ℕ → Option (Node T) → Option (Node T)
  unfolding collect_node
  collected v none = none
  collected v (some n) = collect_node bot top neg pos v n

  find_node-collect_nodes :
      (v : ℕ) (g : List (ℕ × Node T))
      → find_node v (collect_nodes bot top neg pos g) ≡ collected v (find_node v g)
  unfolding find_node collect_nodes collect_node
  find_node-collect_nodes v [] = refl
  find_node-collect_nodes v ((w, n) ∷ g) = ground (arith, find_node-collect_nodes v g)

  abbrev or_new : Option (Node T) → Node T
  or_new none = new_node bot top
  or_new (some n) = n

  -- The node that is read of the collected graph.
  found :
      (x : ℕ) (g : Graph T)
      → node_of bot top x (collect bot top neg pos g) ≡ or_new (collected x (find_node x g.nodes))
  unfolding node_of collect
  found x g = ap or_new (find_node-collect_nodes x g.nodes)

  above-collect :
      (x y : ℕ) (g : Graph T)
      → above bot top x y (collect bot top neg pos g)
        ≡ ((not (has ltb x pos) && has ltb x neg) && (has ltb y pos && above bot top x y g))
  unfolding node_of has collect_node
  above-collect x y g = rw (found x g) (go (find_node x g.nodes))
    where
      go :
          (o : Option (Node T))
          → has ltb y (or_new (collected x o)).greater ≡ (
              (not (has ltb x pos) && has ltb x neg)
              && (has ltb y pos && has ltb y (or_new o).greater))
      go none = ground arith
      go (some n) = ground (arith, has-keep_in y pos n.greater)

  below-collect :
      (x y : ℕ) (g : Graph T)
      → below bot top x y (collect bot top neg pos g)
        ≡ (has ltb y pos && (has ltb x neg && below bot top x y g))
  unfolding node_of has collect_node
  below-collect x y g = rw (found y g) (go (find_node y g.nodes))
    where
      go :
          (o : Option (Node T))
          → has ltb x (or_new (collected y o)).less
            ≡ (has ltb y pos && (has ltb x neg && has ltb x (or_new o).less))
      go none = ground arith
      go (some n) = ground (arith, has-keep_in x neg n.less)

  lower-collect :
      (x : ℕ) (g : Graph T)
      → lower bot top x (collect bot top neg pos g)
        ≡ (if has ltb x pos then lower bot top x g else bot)
  unfolding collect lower collect_node
  lower-collect x g = ground (arith, find_node-collect_nodes x g.nodes)

  upper-collect :
      (x : ℕ) (g : Graph T)
      → upper bot top x (collect bot top neg pos g)
        ≡ (if not (has ltb x pos) && has ltb x neg then upper bot top x g else top)
  unfolding collect upper collect_node
  upper-collect x g = ground (arith, find_node-collect_nodes x g.nodes)

  abbrev Apart : Type 0
  Apart = (v : ℕ) → (has ltb v neg && has ltb v pos) ≡ false

  less-collect :
      (x y : ℕ) (g : Graph T)
      → Apart
      → less bot top x y (collect bot top neg pos g)
        ≡ (x == y || (has ltb x neg && has ltb y pos && less bot top x y g))
  unfolding less
  less-collect x y g d = ground (arith, above-collect x y g, d x)

  collect-IsClosed :
      (g : Graph T) → Apart → IsClosed bot top g → IsClosed bot top (collect bot top neg pos g)
  collect-IsClosed g d c = record {
    mirror = λ x y. ground (arith, above-collect x y g, below-collect x y g, c.mirror x y, d x);
    trans = λ x y z h k.
        ground (arith, less-collect x y g d, less-collect y z g d, less-collect x z g d, d y);
  }

  -- Where no variable is both negative and positive, `collect` on a closed graph leaves it closed; the
  -- order between two different variables is kept from the negative ones to the positive ones and
  -- nowhere else; a lower bound is kept for a positive variable only, and an upper bound for a negative
  -- one only, and the other bounds are the bottom and the top.
  pub collect_lem :
      (g : Graph T)
      → ((v : ℕ) → (has ltb v neg && has ltb v pos) ≡ false)
      → IsClosed bot top g
      → IsClosed bot top (collect bot top neg pos g)
        × ((x y : ℕ)
            → less bot top x y (collect bot top neg pos g)
              ≡ (x == y || (has ltb x neg && has ltb y pos && less bot top x y g)))
        × ((x : ℕ)
            → (lower bot top x (collect bot top neg pos g)
                ≡ (if has ltb x pos then lower bot top x g else bot))
              × (upper bot top x (collect bot top neg pos g)
                  ≡ (if has ltb x neg then upper bot top x g else top)))
  collect_lem g d c = (
    collect-IsClosed g d c,
    λ x y. less-collect x y g d,
    λ x. (lower-collect x g, ground (arith, upper-collect x g, d x)),
  )
