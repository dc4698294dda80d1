-- ===== src/Workshops/Cached/Turns.antt =====
-- The parts of the workshops of src/libs/system/eval_workshops.cpp that are evaluated with a `Delta`:
-- answers, and one turn of each loop, where the values are there.
use Prim.Native.Nat.{max}
use trans_lucid.Prelude.{ℕ, Option, none, some, List, [], ◌∷◌, ◌++◌, if◌then◌else◌}
use trans_lucid.Prelude.Int.{ℤ}
use trans_lucid.Context.{Context, set_insert}
use trans_lucid.Region.{Containment}
use trans_lucid.Tuple.{map_insert}
use trans_lucid.Workshops.{
  type_error, Value, special, bool, tuple, region, Node, World, dimension_index, is_special,
  to_entries, to_region,
}
use trans_lucid.Workshops.Delta.{Delta, contains}
use trans_lucid.Workshops.Uncached.{
  ordinate, map_assign, Gathered, add_change, index_all, make_intension,
}

-- A constant that is a demand, or any other.
pub data Answer (X : Type 0) : Type 0 where
  value : Value X → Answer X
  demand : List ℤ → Answer X

-- `TimeConstant`
abbrev pub Timed : Type 0 → Type 0
Timed X = ℕ × Answer X

-- The std::set of a `DemandType`.
unfoldable pub dim_set : List ℤ → List ℤ
unfolding set_insert
dim_set [] = []
dim_set (d ∷ ds) = set_insert d (dim_set ds)

-- `for (...) if (!d.contains(i)) demands.push_back(i);`
unfoldable pub missing : Delta → List ℤ → List ℤ
unfolding contains
missing delta [] = []
missing delta (d ∷ ds) = let rest = missing delta ds in if contains delta d then rest else d ∷ rest

module _ {X : Type 0} where
  -- `Types::Demand::create`
  abbrev pub create_demand : List ℤ → Answer X
  create_demand ds = demand (dim_set ds)

  -- `Types::Demand::append`, where the answer is a demand.
  abbrev pub append_demand : Answer X → List ℤ → List ℤ
  append_demand (value c) ds = ds
  append_demand (demand es) ds = ds ++ es

  -- The ways out of the test of a condition in `IfWS`.
  abbrev pub choose {ℓ} : {A : Type ℓ} → Answer X → (Answer X → A) → A → A → A
  choose (demand ds) fail t f = fail (demand ds)
  choose (value (special s)) fail t f = fail (value (special s))
  choose (value (bool b)) fail t f = if b then t else f
  choose (value c) fail t f = fail (value (special type_error))

-- What the loops gather: the latest time, the demands, and what becomes the answer.
pub record Loop (A : Type 0) : Type 0 where
  pub time : ℕ
  pub demands : List ℤ
  pub made : A

-- `if (!demands.empty()) return std::make_pair(maxTime, Types::Demand::create(demands));`
abbrev pub unless_demands : {X A : Type 0} → Loop A → (ℕ → A → Option (Timed X)) → Option (Timed X)
unless_demands l rest = elim l.demands [
  | [] ↦ rest l.time l.made
  | d ∷ ds ↦ some (l.time, create_demand (d ∷ ds))
]

module _ {X : Type 0} (W : World X) where
  -- What AtTupleWS does with two answers: both specials are kept, and two values change the tuple
  -- also when one is special.
  abbrev pub add_special : Answer X → Gathered X → Gathered X
  add_special a g = elim a [
    | demand ds ↦ g
    | value c ↦ if is_special c then record g { specials = g.specials ++ c ∷ [] } else g
  ]

  abbrev pub add_answers : Answer X → Answer X → Value X → Gathered X → Gathered X
  add_answers (value lhs) (value rhs) now g = add_change W lhs rhs now g
  add_answers (value lhs) (demand ds) now g = g
  add_answers (demand ds) rhs now g = g

  unfoldable pub gather_turn : Timed X → Timed X → Value X → Loop (Gathered X) → Loop (Gathered X)
  unfolding add_change
  gather_turn (t1, lhs) (t2, rhs) now l = record {
    time = max t2 (max t1 l.time);
    demands = append_demand rhs (append_demand lhs l.demands);
    made = add_answers lhs rhs now (add_special rhs (add_special lhs l.made));
  }

  -- What RegionWS does with two answers. An entry of a demand is not modelled: the demand is the
  -- answer then.
  abbrev pub add_part :
      Containment
      → Answer X
      → Answer X
      → List (ℤ × (Containment × Value X))
      → List (ℤ × (Containment × Value X))
  add_part i (value lhs) (value rhs) entries = map_insert (dimension_index W lhs) (i, rhs) entries
  add_part i (value lhs) (demand ds) entries = entries
  add_part i (demand ds) rhs entries = entries

  unfoldable pub region_turn :
      Containment
      → Timed X
      → Timed X
      → Loop (List (ℤ × (Containment × Value X)))
      → Loop (List (ℤ × (Containment × Value X)))
  unfolding map_insert dimension_index
  region_turn i (t1, lhs) (t2, rhs) l = record {
    time = max (max l.time t1) t2;
    demands = append_demand rhs (append_demand lhs l.demands);
    made = add_part i lhs rhs l.made;
  }

  -- What MakeIntenWS does with an answer.
  abbrev pub add_bind : Answer X → List (Value X) → List (Value X)
  add_bind (value c) cs = cs ++ c ∷ []
  add_bind (demand ds) cs = cs

  unfoldable pub bind_turn : Timed X → Loop (List (Value X)) → Loop (List (Value X))
  bind_turn (t, a) l = record {
    time = max l.time t;
    demands = append_demand a l.demands;
    made = add_bind a l.made;
  }

  -- A turn of the loop of TupleWS, and whether it returns.
  unfoldable pub tuple_turn :
      Timed X → Timed X → Loop (List (ℤ × Value X)) → Loop (List (ℤ × Value X))
  unfolding map_assign dimension_index
  tuple_turn (t1, value left) (t2, value right) l = record {
    time = max (max l.time t1) t2;
    demands = l.demands;
    made = map_assign (dimension_index W left) right l.made;
  }
  tuple_turn (t1, left) (t2, right) l = record {
    time = max (max l.time t1) t2;
    demands = append_demand right (append_demand left l.demands);
    made = l.made;
  }

  abbrev pub tuple_return : Answer X → Answer X → Option (Value X)
  tuple_return (value left) (value right) =
      if is_special left then some left else if is_special right then some right else none
  tuple_return (value left) (demand ds) = none
  tuple_return (demand ds) right = none

  -- What HashWS does with the dimension.
  abbrev pub hash_answer : Context (Value X) → Delta → ℕ → Answer X → Option (Timed X)
  hash_answer k delta t (demand ds) = some (t, demand ds)
  hash_answer k delta t (value c) =
      let dim = dimension_index W c in
      if contains delta dim
      then some (t, value (ordinate k dim))
      else some (t, create_demand (dim ∷ []))

  -- How TupleWS and RegionWS go on after their loops.
  abbrev pub tuple_made : ℕ → List (ℤ × Value X) → Option (Timed X)
  tuple_made t kp = some (t, value (tuple (to_entries kp)))

  abbrev pub region_made : ℕ → List (ℤ × (Containment × Value X)) → Option (Timed X)
  region_made t entries = some (t, value (region (to_region entries)))

  -- How MakeIntenWS goes on after its loop: "if (!d.contains(i))" for the bound dimensions and those
  -- of the scope, and the intension.
  abbrev pub close_loop : List ℤ → Delta → ℕ → List (Value X) → Loop (List (Value X))
  close_loop scope delta t cs = record {
    time = t;
    demands = missing delta (index_all W cs) ++ missing delta scope;
    made = cs;
  }

  abbrev pub close : Node X → List ℤ → Context (Value X) → ℕ → List (Value X) → Option (Timed X)
  close rhs scope k t cs = some (t, value (make_intension W rhs cs scope k))

  abbrev pub closed :
      Node X → List ℤ → Context (Value X) → Delta → ℕ → List (Value X) → Option (Timed X)
  closed rhs scope k delta t cs = unless_demands (close_loop scope delta t cs) (close rhs scope k)
