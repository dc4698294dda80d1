-- ===== src/Workshops/Uncached.antt =====
-- `operator()(Context&)` of the workshops in src/libs/system/eval_workshops.cpp. `none` is an
-- evaluation that ran out of fuel. `ev` evaluates the workshops that one holds. The marks of
-- `RhoManager` are left out: none of these workshops reads them.
use trans_lucid.Prelude.{
  ℕ, zero, suc, Bool, false, ◌&&◌, ◌||◌, Option, none, some, List, [], ◌∷◌, ◌++◌, if◌then◌else◌,
}
use trans_lucid.Prelude.Int.{ℤ, ltb_ℤ, leb_ℤ, eqb_ℤ}
use trans_lucid.Context.{Context, lookup, perturb_tuple, to_tuple}
use trans_lucid.Region.{Containment}
use trans_lucid.Tuple.{map_insert, find}
use trans_lucid.Workshops.{
  access, type_error, dimension_error, undefined, Value, special, bool, tuple, region, intension,
  Node, constant, ident, if_node, hash, region_node, at, at_tuple, make_inten, eval_inten,
  tuple_node, hash_symbol, Nodes, no_node, node, Pairs, no_pair, pair, Parts, no_node_part,
  node_part, World, dimension_index, intmp_of, as_tuple, as_intension, as_dimension, is_special,
  to_entries, to_region, dim_time, dim_rho,
}

infixl 5 ◌>>=◌
abbrev pub ◌>>=◌ {ℓ κ} : {A : Type ℓ} {B : Type κ} → Option A → (A → Option B) → Option B
none >>= f = none
some a >>= f = f a

module _ {X : Type 0} where
  -- `Context::lookup`, with its default.
  abbrev pub ordinate : Context (Value X) → ℤ → Value X
  ordinate k d = lookup (special dimension_error) k d

  -- The context inside a `ContextPerturber` that perturbs by a tuple.
  abbrev pub within : List (ℤ × Value X) → Context (Value X) → Context (Value X)
  within t k = perturb_tuple (special dimension_error) t k

  abbrev pub pairs_list : Pairs X → List (Node X × Node X)
  pairs_list no_pair = []
  pairs_list (pair a b ps) = (a, b) ∷ pairs_list ps

  abbrev pub nodes_list : Nodes X → List (Node X)
  nodes_list no_node = []
  nodes_list (node a ns) = a ∷ nodes_list ns

  abbrev pub parts_list : Parts X → List (Node X × Containment × Node X)
  parts_list no_node_part = []
  parts_list (node_part a i b ps) = (a, i, b) ∷ parts_list ps

  -- The three ways out of the test of a condition in `IfWS`.
  abbrev pub choose {ℓ} : {A : Type ℓ} → Value X → (Value X → A) → A → A → A
  choose (special s) fail t f = fail (special s)
  choose (bool b) fail t f = if b then t else f
  choose c fail t f = fail (special type_error)

  -- `kp[d] = c` on a std::map
  unfoldable pub map_assign : ℤ → Value X → List (ℤ × Value X) → List (ℤ × Value X)
  map_assign d c [] = (d, c) ∷ []
  map_assign d c ((e, v) ∷ t) =
      if ltb_ℤ d e
      then (d, c) ∷ (e, v) ∷ t
      else if eqb_ℤ d e
      then (d, c) ∷ t
      else (e, v) ∷ map_assign d c t

  -- The std::sort of an `IntensionType`. The entries of one dimension are equal.
  unfoldable pub sort_in : ℤ → Value X → List (ℤ × Value X) → List (ℤ × Value X)
  sort_in d c [] = (d, c) ∷ []
  sort_in d c ((e, v) ∷ t) = if leb_ℤ d e then (d, c) ∷ (e, v) ∷ t else (e, v) ∷ sort_in d c t

  unfoldable pub sort_bound : List (ℤ × Value X) → List (ℤ × Value X)
  unfolding sort_in
  sort_bound [] = []
  sort_bound ((d, c) ∷ t) = sort_in d c (sort_bound t)

  -- The ordinates of some dimensions.
  unfoldable pub bind_dims : List ℤ → Context (Value X) → List (ℤ × Value X)
  bind_dims [] k = []
  bind_dims (d ∷ ds) k = (d, ordinate k d) ∷ bind_dims ds k

-- What AtTupleWS gathers in its loop.
pub record Gathered (X : Type 0) : Type 0 where
  pub access : Bool
  pub tuple : List (ℤ × Value X)
  pub specials : List (Value X)

abbrev pub nothing : {X : Type 0} → Gathered X
nothing = record { access = false; tuple = []; specials = [] }

module _ {X : Type 0} (W : World X) where
  -- `lookup_context`
  unfoldable pub lookup_context : Value X → Context (Value X) → Value X
  unfolding dimension_index
  lookup_context c k = elim (as_dimension c) [
    | some d ↦ ordinate k d
    | none ↦ ordinate k (dimension_index W c)
  ]

  -- "validate time": whether a tuple moves the time beyond that of the context.
  unfoldable pub too_late : List (ℤ × Value X) → Context (Value X) → Bool
  unfolding find
  too_late change k = elim (find dim_time change) [
    | none ↦ false
    | some c ↦ ltb_ℤ (intmp_of W (ordinate k dim_time)) (intmp_of W c)
  ]

  abbrev pub is_time : Value X → Bool
  is_time c = elim (as_dimension c) [ none ↦ false | some d ↦ eqb_ℤ d dim_time ]

  -- The two branches of AtTupleWS on a dimension and its ordinate, at the time `now`.
  unfoldable pub add_change : Value X → Value X → Value X → Gathered X → Gathered X
  unfolding dimension_index
  add_change lhs rhs now g = record g {
    access = g.access || is_time lhs && ltb_ℤ (intmp_of W now) (intmp_of W rhs);
    tuple = g.tuple ++ (dimension_index W lhs, rhs) ∷ [];
  }

  -- One round of the loop of AtTupleWS.
  unfoldable pub gather_turn : Value X → Value X → Value X → Gathered X → Gathered X
  unfolding add_change
  gather_turn lhs rhs now g =
      if is_special lhs
      then record g { specials = g.specials ++ lhs ∷ [] }
      else if is_special rhs
      then record g { specials = g.specials ++ rhs ∷ [] }
      else add_change lhs rhs now g

  -- The constructor of `IntensionType`
  unfoldable pub index_all : List (Value X) → List ℤ
  unfolding dimension_index
  index_all [] = []
  index_all (c ∷ cs) = dimension_index W c ∷ index_all cs

  unfoldable pub make_intension : Node X → List (Value X) → List ℤ → Context (Value X) → Value X
  unfolding index_all sort_bound bind_dims
  make_intension rhs binds scope k = intension rhs (
      to_entries (
        sort_bound (
          bind_dims (index_all binds) k
          ++ (bind_dims scope k ++ (dim_rho, ordinate k dim_rho) ∷ []))))

  module _ (ev : Node X → Context (Value X) → Option (Value X)) where
    -- IdentWS
    unfoldable pub ident_ws : List ℕ → Context (Value X) → Option (Value X)
    ident_ws name k = elim (W.idents name) [ none ↦ some (special undefined) | some e ↦ ev e k ]

    -- HashWS
    unfoldable pub hash_ws : Node X → Context (Value X) → Option (Value X)
    unfolding lookup_context
    hash_ws e k = do r ← ev e k; some (lookup_context r k)

    -- IfWS: its loop over the elsifs, and the whole.
    unfoldable pub elsif_loop :
        List (Node X × Node X) → Node X → Context (Value X) → Option (Value X)
    elsif_loop [] e k = ev e k
    elsif_loop ((c, b) ∷ more) e k = do
      cond ← ev c k
      choose cond some (ev b k) (elsif_loop more e k)

    unfoldable pub if_ws :
        Node X → Node X → List (Node X × Node X) → Node X → Context (Value X) → Option (Value X)
    unfolding elsif_loop
    if_ws c t elsifs e k = do condv ← ev c k; choose condv some (ev t k) (elsif_loop elsifs e k)

    -- RegionWS
    unfoldable pub region_loop :
        List (Node X × Containment × Node X)
        → List (ℤ × (Containment × Value X))
        → Context (Value X)
        → Option (Value X)
    unfolding map_insert dimension_index
    region_loop [] entries k = some (region (to_region entries))
    region_loop ((a, i, b) ∷ more) entries k = do
      lhs ← ev a k
      rhs ← ev b k
      region_loop more (map_insert (dimension_index W lhs) (i, rhs) entries) k

    -- TupleWS
    unfoldable pub tuple_loop :
        List (Node X × Node X) → List (ℤ × Value X) → Context (Value X) → Option (Value X)
    unfolding map_assign dimension_index
    tuple_loop [] kp k = some (tuple (to_entries kp))
    tuple_loop ((a, b) ∷ more) kp k = do
      left ← ev a k
      right ← ev b k
      let rest = tuple_loop more (map_assign (dimension_index W left) right kp) k
      if is_special left then some left else if is_special right then some right else rest

    -- AtWS
    unfoldable pub at_ws : Node X → Node X → Context (Value X) → Option (Value X)
    unfolding too_late
    at_ws e1 e2 k = do
      val1 ← ev e1 k
      elim (as_tuple val1) [
        | none ↦ some (special type_error)
        | some t ↦ if too_late t k then some (special access) else ev e2 (within t k)
      ]

    -- AtTupleWS: its loop, and the whole.
    unfoldable pub gather :
        List (Node X × Node X) → Gathered X → Context (Value X) → Option (Gathered X)
    unfolding gather_turn
    gather [] g k = some g
    gather ((a, b) ∷ more) g k = do
      lhs ← ev a k
      rhs ← ev b k
      gather more (gather_turn lhs rhs (ordinate k dim_time) g) k

    unfoldable pub at_tuple_ws :
        Node X → List (Node X × Node X) → Context (Value X) → Option (Value X)
    unfolding gather
    at_tuple_ws e2 pairs k = do
      g ← gather pairs nothing k
      elim g.specials [
        | s ∷ ss ↦ some s
        | [] ↦ if g.access then some (special access) else ev e2 (within g.tuple k)
      ]

    -- MakeIntenWS
    unfoldable pub eval_all :
        List (Node X) → List (Value X) → Context (Value X) → Option (List (Value X))
    eval_all [] binds k = some binds
    eval_all (n ∷ ns) binds k = do c ← ev n k; eval_all ns (binds ++ c ∷ []) k

    unfoldable pub make_inten_ws :
        Node X → List (Node X) → List ℤ → Context (Value X) → Option (Value X)
    unfolding eval_all make_intension
    make_inten_ws rhs binds scope k = do
      cs ← eval_all binds [] k
      some (make_intension rhs cs scope k)

    -- EvalIntenWS and `IntensionType::operator()`
    unfoldable pub eval_inten_ws : Node X → Context (Value X) → Option (Value X)
    eval_inten_ws e k = do
      rhs ← ev e k
      elim (as_intension rhs) [
        | none ↦ some (special type_error)
        | some (body, bound) ↦ ev body (within bound k)
      ]

    -- The operator of each workshop.
    unfoldable pub step : Node X → Context (Value X) → Option (Value X)
    unfolding ident_ws hash_ws if_ws region_loop tuple_loop at_ws at_tuple_ws make_inten_ws
        eval_inten_ws
    step (constant c) k = some c
    step (ident name) k = ident_ws name k
    step (if_node c t elsifs e) k = if_ws c t (pairs_list elsifs) e k
    step (hash e) k = hash_ws e k
    step (region_node parts) k = region_loop (parts_list parts) [] k
    step (at e1 e2) k = at_ws e1 e2 k
    step (at_tuple e2 pairs) k = at_tuple_ws e2 (pairs_list pairs) k
    step (make_inten rhs binds scope) k = make_inten_ws rhs (nodes_list binds) scope k
    step (eval_inten e) k = eval_inten_ws e k
    step (tuple_node x pairs) k = tuple_loop (pairs_list pairs) [] k
    step (hash_symbol x) k = some (tuple (to_entries (to_tuple k)))

  -- The evaluation of an expression, on fuel for its depth.
  unfoldable pub eval : ℕ → Node X → Context (Value X) → Option (Value X)
  unfolding step
  eval zero n k = none
  eval (suc fuel) n k = step (eval fuel) n k
