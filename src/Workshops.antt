-- ===== src/Workshops.antt =====
-- The evaluation of expressions by src/libs/system/eval_workshops.cpp (src/include/tl/workshop.hpp,
-- src/include/tl/eval_workshops.hpp): the constants, the tree of workshops, and what it takes from
-- the system. `Uncached` has the operators of a context, `Cached` those of a context and a `Delta`.
-- `X` decides whether a tree may have the workshops on which the two disagree: with the empty type
-- it has none of them.
pub mod Delta
pub mod Uncached
pub mod Cached
pub mod Answers
pub mod Support
pub mod Tuples
mod Examples
use trans_lucid.Prelude.{ℕ, Bool, true, false, Option, none, some, List, [], ◌∷◌}
use trans_lucid.Prelude.Int.{ℤ, negsuc}
use trans_lucid.Region.{Containment}

-- The special constants SP_ERROR to SP_LOOP.
pub data Special : Type 0 where
  error access type_error dimension_error arith_error undefined const_error multidef loop : Special

-- DIM_TIME and DIM_RHO
abbrev pub dim_time : ℤ
dim_time = negsuc 0

abbrev pub dim_rho : ℤ
dim_rho = negsuc 15

-- `atom` stands for the constants that no workshop looks into (strings, characters, types): the
-- index of its type, and which constant. An intension keeps its expression and what it binds.
mutual
  pub data Value (X : Type 0) : Type 0 where
    special : Special → Value X
    bool : Bool → Value X
    dimension : ℤ → Value X
    intmp : ℤ → Value X
    atom : ℕ → ℕ → Value X
    tuple : Entries X → Value X
    region : RegionEntries X → Value X
    intension : Node X → Entries X → Value X

  pub data Entries (X : Type 0) : Type 0 where
    no_entry : Entries X
    entry : ℤ → Value X → Entries X → Entries X

  pub data RegionEntries (X : Type 0) : Type 0 where
    no_part : RegionEntries X
    part : ℤ → Containment → Value X → RegionEntries X → RegionEntries X

  -- `constant` is BoolConstWS, TypeConstWS, DimensionWS, IntmpConstWS, SpecialConstWS,
  -- UStringConstWS and UCharConstWS.
  pub data Node (X : Type 0) : Type 0 where
    constant : Value X → Node X
    ident : List ℕ → Node X
    if_node : Node X → Node X → Pairs X → Node X → Node X
    hash : Node X → Node X
    region_node : Parts X → Node X
    at : Node X → Node X → Node X
    at_tuple : Node X → Pairs X → Node X
    make_inten : Node X → Nodes X → List ℤ → Node X
    eval_inten : Node X → Node X
    tuple_node : X → Pairs X → Node X
    hash_symbol : X → Node X

  pub data Nodes (X : Type 0) : Type 0 where
    no_node : Nodes X
    node : Node X → Nodes X → Nodes X

  pub data Pairs (X : Type 0) : Type 0 where
    no_pair : Pairs X
    pair : Node X → Node X → Pairs X → Pairs X

  pub data Parts (X : Type 0) : Type 0 where
    no_node_part : Parts X
    node_part : Node X → Containment → Node X → Parts X → Parts X

module _ {X : Type 0} where
  abbrev pub entries_list : Entries X → List (ℤ × Value X)
  entries_list no_entry = []
  entries_list (entry d c t) = (d, c) ∷ entries_list t

  abbrev pub to_entries : List (ℤ × Value X) → Entries X
  to_entries [] = no_entry
  to_entries ((d, c) ∷ t) = entry d c (to_entries t)

  abbrev pub to_region : List (ℤ × (Containment × Value X)) → RegionEntries X
  to_region [] = no_part
  to_region ((d, (i, c)) ∷ t) = part d i c (to_region t)

  abbrev pub is_special : Value X → Bool
  is_special (special s) = true
  is_special _ = false

  abbrev pub as_dimension : Value X → Option ℤ
  as_dimension (dimension d) = some d
  as_dimension _ = none

  abbrev pub as_tuple : Value X → Option (List (ℤ × Value X))
  as_tuple (tuple t) = some (entries_list t)
  as_tuple _ = none

  abbrev pub as_intension : Value X → Option (Node X × List (ℤ × Value X))
  as_intension (intension rhs bound) = some (rhs, entries_list bound)
  as_intension _ = none

-- What the workshops take from the system: the index that the registry of the dimensions gives to a
-- constant (src/libs/system/dimtranslator.cpp), and the workshop that an identifier is bound to.
-- `misread` is what `Types::Intmp::get` reads from a constant of another type, where the source's
-- behaviour is undefined.
pub record World (X : Type 0) : Type 0 where
  pub constant_index : Value X → ℤ
  pub idents : List ℕ → Option (Node X)
  pub misread : Value X → ℤ

module _ {X : Type 0} (W : World X) where
  -- `System::getDimensionIndex(const Constant&)`
  unfoldable pub dimension_index : Value X → ℤ
  dimension_index c = elim (as_dimension c) [ none ↦ W.constant_index c | some d ↦ d ]

  abbrev pub intmp_of : Value X → ℤ
  intmp_of (intmp n) = n
  intmp_of c = W.misread c
