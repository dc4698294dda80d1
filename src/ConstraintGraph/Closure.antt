-- ===== src/ConstraintGraph/Closure.antt =====
-- `add_less_closed` of src/libs/system/tyinf/constraint_graph.cpp keeps the order of the variables
-- transitively closed.
use trans_lucid.Prelude.{
  ℕ, Bool, true, not, ◌&&◌, ◌||◌, some, List, [], ◌∷◌, ◌++◌, ◌≡◌, refl, sym, ◌∙◌, if◌then◌else◌,
  ltb, ◌==◌, arith, Bool-cases, inl, inr,
}
use trans_lucid.Ordered.{ltb_order}
use trans_lucid.OrderedSet.{insert, has, has-insert}
use trans_lucid.ConstraintGraph.{
  Node, Graph, insert_conditions, find_node, put_node, node_of, make_entry, set_node, less,
  add_less, add_less_row, add_less_pairs, add_less_closed,
}

module _ {T : Type 0} where
  find_node-put_node :
      (v w : ℕ) (n : Node T) (g : List (ℕ × Node T))
      → find_node v (put_node w n g) ≡ (if v == w then some n else find_node v g)
  unfolding find_node put_node
  find_node-put_node v w n [] = refl
  find_node-put_node v w n ((x, m) ∷ g) = ground (arith, find_node-put_node v w n g)

module _ {T : Type 0} (bot top : T) where
  pub node_of-set_node :
      (v w : ℕ) (n : Node T) (g : Graph T)
      → node_of bot top v (set_node w n g) ≡ (if v == w then n else node_of bot top v g)
  unfolding node_of set_node
  node_of-set_node v w n g = ground (arith, find_node-put_node v w n g.nodes)

  pub node_of-make_entry :
      (v w : ℕ) (g : Graph T) → node_of bot top v (make_entry bot top w g) ≡ node_of bot top v g
  unfolding make_entry
  node_of-make_entry v w g = ground (arith, node_of-set_node v w (node_of bot top w g) g)

  -- Whether `y` is stored above `x`, and `x` below `y`.
  abbrev pub above : ℕ → ℕ → Graph T → Bool
  above x y g = has ltb y (node_of bot top x g).greater

  abbrev pub below : ℕ → ℕ → Graph T → Bool
  below x y g = has ltb x (node_of bot top y g).less

  -- The two nodes that `add_less` stores, and the graph with the first of them.
  abbrev higher : ℕ → ℕ → Graph T → Node T
  higher a b g = record (node_of bot top a g) {
    greater = insert ltb b (node_of bot top a g).greater;
    conditions =
        insert_conditions (node_of bot top b g).conditions (node_of bot top a g).conditions;
  }

  abbrev lower : ℕ → ℕ → Graph T → Node T
  lower a b g = record (node_of bot top b g) { less = insert ltb a (node_of bot top b g).less }

  above-add_less :
      (a b x y : ℕ) (g : Graph T)
      → above x y (add_less bot top a b g) ≡ (not (a == b) && (x == a && y == b) || above x y g)
  unfolding add_less
  above-add_less a b x y g = ground (
    arith,
    node_of-set_node x b (lower a b g) (set_node a (higher a b g) g),
    node_of-set_node x a (higher a b g) g,
    has-insert ltb_order y b (node_of bot top a g).greater,
  )

  below-add_less :
      (a b x y : ℕ) (g : Graph T)
      → below x y (add_less bot top a b g) ≡ (not (a == b) && (x == a && y == b) || below x y g)
  unfolding add_less
  below-add_less a b x y g = ground (
    arith,
    node_of-set_node y b (lower a b g) (set_node a (higher a b g) g),
    node_of-set_node y a (higher a b g) g,
    has-insert ltb_order x a (node_of bot top b g).less,
  )

  -- The edges that a row and the pairs add.
  abbrev in_row : ℕ → List ℕ → ℕ → ℕ → Bool
  in_row a bs x y = x == a && (not (x == y) && has ltb y bs)

  abbrev in_pairs : List ℕ → List ℕ → ℕ → ℕ → Bool
  in_pairs below bs x y = has ltb x below && (not (x == y) && has ltb y bs)

  row_edges :
      (f : ℕ → ℕ → Graph T → Bool)
      → ((a b x y : ℕ) (g : Graph T)
          → f x y (add_less bot top a b g) ≡ (not (a == b) && (x == a && y == b) || f x y g))
      → (a : ℕ) (bs : List ℕ) (x y : ℕ) (g : Graph T)
      → f x y (add_less_row bot top a bs g) ≡ (in_row a bs x y || f x y g)
  unfolding add_less_row has
  row_edges f h a [] x y g = ground arith
  row_edges f h a (b ∷ bs) x y g =
      ground (arith, row_edges f h a bs x y (add_less bot top a b g), h a b x y g)

  pair_edges :
      (f : ℕ → ℕ → Graph T → Bool)
      → ((a b x y : ℕ) (g : Graph T)
          → f x y (add_less bot top a b g) ≡ (not (a == b) && (x == a && y == b) || f x y g))
      → (below bs : List ℕ) (x y : ℕ) (g : Graph T)
      → f x y (add_less_pairs bot top below bs g) ≡ (in_pairs below bs x y || f x y g)
  unfolding add_less_pairs has
  pair_edges f h [] bs x y g = ground arith
  pair_edges f h (a ∷ more) bs x y g =
      ground
        (arith, pair_edges f h more bs x y (add_less_row bot top a bs g), row_edges f h a bs x y g)

  has-snoc : (x a : ℕ) (l : List ℕ) → has ltb x (l ++ a ∷ []) ≡ (x == a || has ltb x l)
  unfolding has
  has-snoc x a [] = ground arith
  has-snoc x a (b ∷ l) = ground (arith, has-snoc x a l)

  -- Both lists of a node tell of the same order, and that order is transitive.
  pub record IsClosed (g : Graph T) : Type 0 where
    pub mirror : (x y : ℕ) → below x y g ≡ above x y g
    pub trans :
        (x y z : ℕ)
        → less bot top x y g ≡ true
        → less bot top y z g ≡ true
        → less bot top x z g ≡ true

  abbrev entries : ℕ → ℕ → Graph T → Graph T
  entries a b g = make_entry bot top b (make_entry bot top a g)

  node_of-entries :
      (v a b : ℕ) (g : Graph T) → node_of bot top v (entries a b g) ≡ node_of bot top v g
  node_of-entries v a b g =
      node_of-make_entry v b (make_entry bot top a g) ∙ node_of-make_entry v a g

  less-entries : (x y a b : ℕ) (g : Graph T) → less bot top x y (entries a b g) ≡ less bot top x y g
  unfolding less
  less-entries x y a b g = rw (node_of-entries x a b g)

  -- The two lists of nodes that are paired.
  abbrev all_below : ℕ → Graph T → List ℕ
  all_below a g = (node_of bot top a g).less ++ a ∷ []

  abbrev all_above : ℕ → Graph T → List ℕ
  all_above b g = (node_of bot top b g).greater ++ b ∷ []

  in_pairs-all :
      (a b x y : ℕ) (g : Graph T)
      → IsClosed g
      → in_pairs (all_below a g) (all_above b g) x y
        ≡ (not (x == y) && (less bot top x a g && less bot top b y g))
  unfolding less
  in_pairs-all a b x y g c = ground (
    arith,
    has-snoc x a (node_of bot top a g).less,
    has-snoc y b (node_of bot top b g).greater,
    c.mirror x a,
  )

  already :
      (a b x y : ℕ) (g : Graph T)
      → IsClosed g
      → less bot top a b g ≡ true
      → above x y g ≡ (not (x == y) && (less bot top x a g && less bot top b y g) || above x y g)
  already a b x y g c h = ground (arith, c.trans x a b, c.trans x b y, unfolded)
    where
      unfolded : less bot top x y g ≡ (x == y || above x y g)
      unfolded = unfold less in refl

  edges-add_less_closed :
      (f : ℕ → ℕ → Graph T → Bool)
      → ((a b x y : ℕ) (g : Graph T)
          → f x y (add_less bot top a b g) ≡ (not (a == b) && (x == a && y == b) || f x y g))
      → (a b x y : ℕ) (g : Graph T) → f x y (entries a b g) ≡ above x y g
      → IsClosed g
      → f x y (add_less_closed bot top a b g)
        ≡ (not (x == y) && (less bot top x a g && less bot top b y g) || above x y g)
  unfolding add_less_closed
  edges-add_less_closed f h a b x y g same c = elim (Bool-cases (less bot top a b g)) [
    | inl there ↦ rw (less-entries a b a b g, there) (same ∙ already a b x y g c there)
    | inr new ↦
        rw (less-entries a b a b g, new, node_of-entries a a b g, node_of-entries b a b g)
          (pair_edges f h (all_below a g) (all_above b g) x y (entries a b g)
            ∙ rw (in_pairs-all a b x y g c, same) refl)
  ]

  less-add_less_closed :
      (a b x y : ℕ) (g : Graph T)
      → IsClosed g
      → less bot top x y (add_less_closed bot top a b g)
        ≡ (less bot top x y g || (less bot top x a g && less bot top b y g))
  unfolding less
  less-add_less_closed a b x y g c = ground (
    arith,
    edges-add_less_closed above above-add_less a b x y g (rw (node_of-entries x a b g) refl) c,
  )

  add_less_closed-IsClosed :
      (a b : ℕ) (g : Graph T) → IsClosed g → IsClosed (add_less_closed bot top a b g)
  add_less_closed-IsClosed a b g c = record {
    mirror = λ x y.
        edges-add_less_closed below below-add_less a b x y g
          (rw (node_of-entries y a b g) (c.mirror x y)) c
        ∙ sym (
            edges-add_less_closed above above-add_less a b x y g (rw (node_of-entries x a b g) refl)
              c);
    trans = λ x y z h k. ground (
      arith,
      less-add_less_closed a b x y g c,
      less-add_less_closed a b y z g c,
      less-add_less_closed a b x z g c,
      c.trans x y z,
      c.trans b y z,
      c.trans x y a,
      c.trans x y z,
      c.trans b y a,
      c.trans x a b,
      c.trans b z y,
    );
  }

  -- `add_less_closed` on a closed graph adds the edges from all that is below `a` to all that is above
  -- `b`, and no others, and leaves the graph closed.
  pub add_less_closed_lem :
      (a b : ℕ) (g : Graph T)
      → IsClosed g
      → IsClosed (add_less_closed bot top a b g)
        × ((x y : ℕ)
            → less bot top x y (add_less_closed bot top a b g)
              ≡ (less bot top x y g || (less bot top x a g && less bot top b y g)))
  add_less_closed_lem a b g c =
      (add_less_closed-IsClosed a b g c, λ x y. less-add_less_closed a b x y g c)
