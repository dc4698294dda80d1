-- ===== src/BestFit/Values.antt =====
-- The comparisons of constants in src/libs/system/bestfit.cpp (`TypeComparators` and `valueRefines`),
-- on integers, ranges, types, other atomic constants and unions of these.
use trans_lucid.Prelude.{ℕ, Bool, true, false, not, ◌&&◌, Option, none, some, List, [], ◌∷◌, ◌==◌}
use trans_lucid.Union.{
  Simple, type_value, UnionType, type_of, union_index, range_index, same_simple, simple_refines,
  contains,
}
use trans_lucid.BestFit.{ConstantOps}

pub data Value : Type 0 where
  simple : Simple → Value
  union : UnionType → Value

abbrev pub index_of : Value → ℕ
index_of (simple a) = type_of a
index_of (union u) = union_index

unfoldable same_list : List Simple → List Simple → Bool
unfolding same_simple
same_list [] [] = true
same_list (a ∷ l) (b ∷ m) = same_simple a b && same_list l m
same_list _ _ = false

-- `operator==`; that of a union compares the types only.
unfoldable pub same_value : Value → Value → Bool
unfolding same_simple same_list
same_value (simple a) (simple b) = same_simple a b
same_value (union u) (union v) = same_list u.types v.types
same_value _ _ = false

-- `valueRefines`: a union is in the type of unions only; a constant is in a union by `contains`.
unfoldable pub value_refines : Value → Value → Bool
unfolding simple_refines contains
value_refines (simple a) (simple b) = simple_refines a b
value_refines (simple a) (union u) = contains a u
value_refines (union u) (union v) = false
value_refines (union u) (simple (type_value t)) = union_index == t
value_refines (union u) (simple b) = false

abbrev as_type : Value → Option ℕ
as_type (simple (type_value t)) = some t
as_type _ = none

abbrev pub value_ops : ConstantOps Value
value_ops = record {
  beq = same_value;
  refines = value_refines;
  type_of = index_of;
  as_type = as_type;
}

-- All constants but unions and the types of ranges and of unions.
abbrev pub is_plain : Value → Bool
is_plain (simple (type_value t)) = not (t == range_index) && not (t == union_index)
is_plain (simple _) = true
is_plain (union u) = false
