-- ===== src/Workshops/Cached.antt =====
-- `operator()(Context&, Delta&, const Thread&, size_t)` of the workshops in
-- src/libs/system/eval_workshops.cpp: they may look only at the dimensions of the `Delta`, ask for
-- the others by a demand, and return a time with each answer. The thread is only handed on.
-- `none` is an evaluation that ran out of fuel, `ev` evaluates the workshops that one holds.
pub mod Turns
use Prim.Native.Nat.{max}
use trans_lucid.Prelude.{ℕ, zero, suc, Option, none, some, List, [], ◌∷◌, ◌++◌, if◌then◌else◌}
use trans_lucid.Prelude.Int.{ℤ}
use trans_lucid.Context.{Context, set_insert}
use trans_lucid.Region.{Containment}
use trans_lucid.Tuple.{map_insert}
use trans_lucid.Workshops.{
  access, type_error, undefined, Value, special, bool, tuple, region, Node, constant, ident,
  if_node, hash, region_node, at, at_tuple, make_inten, eval_inten, tuple_node, hash_symbol, World,
  dimension_index, as_tuple, as_intension, is_special, to_entries, to_region, dim_time,
}
use trans_lucid.Workshops.Delta.{Delta, contains, perturbed}
use trans_lucid.Workshops.Uncached.{
  ◌>>=◌, ordinate, within, pairs_list, nodes_list, parts_list, map_assign, Gathered, nothing,
  too_late, add_change, index_all, make_intension,
}
pub use Turns.{
  Answer, value, demand, Loop, Timed, unless_demands, create_demand, append_demand, choose,
  add_special, add_answers, add_part, add_bind, tuple_return, hash_answer, tuple_made, region_made,
  close_loop, close, closed,
}
unfoldable pub use Turns.{dim_set, missing, gather_turn, region_turn, bind_turn, tuple_turn}

module _ {X : Type 0} (W : World X) where
  module _ (ev : Node X → Context (Value X) → Delta → ℕ → Option (Timed X)) where
    -- IdentWS
    unfoldable pub ident_ws : List ℕ → Context (Value X) → Delta → ℕ → Option (Timed X)
    ident_ws name k delta t = elim (W.idents name) [
      | none ↦ some (t, value (special undefined))
      | some e ↦ ev e k delta t
    ]

    -- HashWS
    unfoldable pub hash_ws : Node X → Context (Value X) → Delta → ℕ → Option (Timed X)
    hash_ws e k delta t = do (t1, r) ← ev e k delta t; hash_answer W k delta t1 r

    -- IfWS: its loop over the elsifs, after a condition at the time `t`, and the whole.
    unfoldable pub elsif_loop :
        List (Node X × Node X) → Node X → Context (Value X) → Delta → ℕ → ℕ → Option (Timed X)
    elsif_loop [] e k delta t max_time = ev e k delta max_time
    elsif_loop ((c, b) ∷ more) e k delta t max_time = do
      (t1, cond) ← ev c k delta t
      choose cond (λ a. some (t1, a)) (ev b k delta t1)
          (elsif_loop more e k delta t (max max_time t1))

    unfoldable pub if_ws :
        Node X
        → Node X
        → List (Node X × Node X)
        → Node X
        → Context (Value X)
        → Delta
        → ℕ
        → Option (Timed X)
    unfolding elsif_loop
    if_ws c b elsifs e k delta t = do
      (t1, condv) ← ev c k delta t
      choose condv (λ a. some (t1, a)) (ev b k delta t1) (elsif_loop elsifs e k delta t1 t1)

    -- RegionWS
    unfoldable pub region_loop :
        List (Node X × Containment × Node X)
        → Loop (List (ℤ × (Containment × Value X)))
        → Context (Value X)
        → Delta
        → ℕ
        → Option (Loop (List (ℤ × (Containment × Value X))))
    unfolding region_turn
    region_loop [] l k delta t = some l
    region_loop ((a, i, b) ∷ more) l k delta t = do
      lhs ← ev a k delta t
      rhs ← ev b k delta t
      region_loop more (region_turn W i lhs rhs l) k delta t

    unfoldable pub region_ws :
        List (Node X × Containment × Node X) → Context (Value X) → Delta → ℕ → Option (Timed X)
    unfolding region_loop
    region_ws parts k delta t = do
      l ← region_loop parts (record { time = 0; demands = []; made = [] }) k delta t
      unless_demands l (region_made W)

    -- TupleWS
    unfoldable pub tuple_loop :
        List (Node X × Node X)
        → Loop (List (ℤ × Value X))
        → Context (Value X)
        → Delta
        → ℕ
        → Option (Timed X)
    unfolding tuple_turn
    tuple_loop [] l k delta t = unless_demands l (tuple_made W)
    tuple_loop ((a, b) ∷ more) l k delta t = do
      left ← ev a k delta t
      right ← ev b k delta t
      let rest = tuple_loop more (tuple_turn W left right l) k delta t
      elim (tuple_return W left.1 right.1) [
        | some c ↦ some (max (max l.time left.0) right.0, value c)
        | none ↦ rest
      ]

    -- AtWS: what it does with a tuple, with the answer, and the whole.
    abbrev pub at_change :
        Option (List (ℤ × Value X)) → Node X → Context (Value X) → Delta → ℕ → Option (Timed X)
    at_change none e2 k delta t = some (t, value (special type_error))
    at_change (some change) e2 k delta t =
        if too_late W change k
        then some (t, value (special access))
        else ev e2 (within change k) (perturbed change delta) t

    abbrev pub at_answer : Answer X → Node X → Context (Value X) → Delta → ℕ → Option (Timed X)
    at_answer (demand ds) e2 k delta t = some (t, demand ds)
    at_answer (value c) e2 k delta t = at_change (as_tuple c) e2 k delta t

    unfoldable pub at_ws : Node X → Node X → Context (Value X) → Delta → ℕ → Option (Timed X)
    at_ws e1 e2 k delta t = do (t1, rhs) ← ev e1 k delta t; at_answer rhs e2 k delta t1

    -- AtTupleWS: its loop, and the whole.
    unfoldable pub gather :
        List (Node X × Node X)
        → Loop (Gathered X)
        → Context (Value X)
        → Delta
        → ℕ
        → Option (Loop (Gathered X))
    unfolding gather_turn
    gather [] l k delta t = some l
    gather ((a, b) ∷ more) l k delta t = do
      lhs ← ev a k delta t
      rhs ← ev b k delta t
      gather more (gather_turn W lhs rhs (ordinate k dim_time) l) k delta t

    abbrev pub gathered_from :
        List (Value X) → Node X → Context (Value X) → Delta → ℕ → Gathered X → Option (Timed X)
    gathered_from (s ∷ ss) e2 k delta t g = some (t, value s)
    gathered_from [] e2 k delta t g =
        if g.access
        then some (t, value (special access))
        else ev e2 (within g.tuple k) (perturbed g.tuple delta) t

    abbrev pub gathered : Node X → Context (Value X) → Delta → ℕ → Gathered X → Option (Timed X)
    gathered e2 k delta t g = gathered_from g.specials e2 k delta t g

    unfoldable pub at_tuple_ws :
        Node X → List (Node X × Node X) → Context (Value X) → Delta → ℕ → Option (Timed X)
    unfolding gather
    at_tuple_ws e2 pairs k delta t = do
      l ← gather pairs (record { time = 0; demands = []; made = nothing }) k delta t
      unless_demands l (gathered e2 k delta)

    -- MakeIntenWS
    unfoldable pub bind_loop :
        List (Node X)
        → Loop (List (Value X))
        → Context (Value X)
        → Delta
        → ℕ
        → Option (Loop (List (Value X)))
    unfolding bind_turn
    bind_loop [] l k delta t = some l
    bind_loop (n ∷ ns) l k delta t = do x ← ev n k delta t; bind_loop ns (bind_turn W x l) k delta t

    unfoldable pub make_inten_ws :
        Node X → List (Node X) → List ℤ → Context (Value X) → Delta → ℕ → Option (Timed X)
    unfolding bind_loop missing make_intension index_all
    make_inten_ws rhs binds scope k delta t = do
      l ← bind_loop binds (record { time = 0; demands = []; made = [] }) k delta t
      unless_demands l (closed W rhs scope k delta)

    -- EvalIntenWS and `IntensionType::operator()`; a type error carries the time that was given.
    abbrev pub open_intension :
        Option (Node X × List (ℤ × Value X)) → Context (Value X) → Delta → ℕ → Option (Timed X)
    open_intension none k delta t = some (t, value (special type_error))
    open_intension (some (body, bound)) k delta t =
        ev body (within bound k) (perturbed bound delta) t

    abbrev pub inten_answer : Answer X → Context (Value X) → Delta → ℕ → ℕ → Option (Timed X)
    inten_answer (demand ds) k delta t1 t = some (t1, demand ds)
    inten_answer (value c) k delta t1 t = open_intension (as_intension c) k delta t

    unfoldable pub eval_inten_ws : Node X → Context (Value X) → Delta → ℕ → Option (Timed X)
    eval_inten_ws e k delta t = do (t1, rhs) ← ev e k delta t; inten_answer rhs k delta t1 t

    -- The operator of each workshop.
    unfoldable pub step : Node X → Context (Value X) → Delta → ℕ → Option (Timed X)
    unfolding ident_ws hash_ws if_ws region_ws tuple_loop at_ws at_tuple_ws make_inten_ws
        eval_inten_ws
    step (constant c) k delta t = some (t, value c)
    step (ident name) k delta t = ident_ws name k delta t
    step (if_node c b elsifs e) k delta t = if_ws c b (pairs_list elsifs) e k delta t
    step (hash e) k delta t = hash_ws e k delta t
    step (region_node parts) k delta t = region_ws (parts_list parts) k delta t
    step (at e1 e2) k delta t = at_ws e1 e2 k delta t
    step (at_tuple e2 pairs) k delta t = at_tuple_ws e2 (pairs_list pairs) k delta t
    step (make_inten rhs binds scope) k delta t =
        make_inten_ws rhs (nodes_list binds) scope k delta t
    step (eval_inten e) k delta t = eval_inten_ws e k delta t
    step (tuple_node x pairs) k delta t =
        tuple_loop (pairs_list pairs) (record { time = 0; demands = []; made = [] }) k delta t
    step (hash_symbol x) k delta t = some (t, value (special access))

  -- The evaluation of an expression, on fuel for its depth.
  unfoldable pub eval_cached : ℕ → Node X → Context (Value X) → Delta → ℕ → Option (Timed X)
  unfolding step
  eval_cached zero n k delta t = none
  eval_cached (suc fuel) n k delta t = step (eval_cached fuel) n k delta t
