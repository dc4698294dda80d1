-- ===== src/Union.antt =====
-- Unions of constants: src/libs/system/types/union.cpp and src/include/tl/types/union.hpp. Of the
-- constants, tuples and regions are left out; the std::set is the list of its elements in the order
-- `lt`, the `operator<` of the constants.
pub mod Overlap
pub mod Ranges
mod Examples
use trans_lucid.Prelude.{ℕ, Bool, true, false, not, ◌&&◌, ◌||◌, List, [], ◌∷◌, if◌then◌else◌, ◌==◌}
use trans_lucid.Prelude.Int.{ℤ, eqb_ℤ}
use trans_lucid.Range.{Range, within_value, within, overlaps, join, eq}
use trans_lucid.OrderedSet.{insert, insert_all}

-- A constant that is no union: an integer, a range, a type by its index, or another one by its index
-- and what it holds.
pub data Simple : Type 0 where
  int : ℤ → Simple
  range : Range → Simple
  type_value : ℕ → Simple
  other : ℕ → ℕ → Simple

-- TYPE_INDEX_INTMP, TYPE_INDEX_TYPE, TYPE_INDEX_RANGE and TYPE_INDEX_UNION
abbrev pub intmp_index : ℕ
intmp_index = 3

abbrev pub type_type_index : ℕ
type_type_index = 11

abbrev pub range_index : ℕ
range_index = 12

abbrev pub union_index : ℕ
union_index = 13

-- `index()`
abbrev pub type_of : Simple → ℕ
type_of (int n) = intmp_index
type_of (range r) = range_index
type_of (type_value t) = type_type_index
type_of (other i p) = i

-- `operator==`
unfoldable pub same_simple : Simple → Simple → Bool
unfolding eq
same_simple (int m) (int n) = eqb_ℤ m n
same_simple (range r) (range s) = eq r s
same_simple (type_value t) (type_value u) = t == u
same_simple (other i p) (other j q) = i == j && p == q
same_simple _ _ = false

-- `valueRefines` for these constants: `isSubsetAtomic`, `subset_of_type` and `subset_of_range`.
unfoldable pub simple_refines : Simple → Simple → Bool
unfolding same_simple within_value within
simple_refines (int n) (range r) = within_value r n
simple_refines (range s) (range r) = within r s
simple_refines (type_value t) (range r) = false
simple_refines (other i p) (range r) = false
simple_refines (type_value t) (type_value u) = same_simple (type_value t) (type_value u)
simple_refines a (type_value u) = type_of a == u
simple_refines a (int n) = same_simple a (int n)
simple_refines a (other j q) = same_simple a (other j q)

pub record UnionType : Type 0 where
  pub types : List Simple
  pub has_intmp : Bool

abbrev pub empty : UnionType
empty = record { types = []; has_intmp = false }

-- The loop of `append`: the ranges that overlap the range so far are taken out and joined to it.
unfoldable pub absorb : Range → List Simple → Range × List Simple
unfolding overlaps join
absorb r [] = (r, [])
absorb r (range s ∷ l) =
    let (joined, rest) = absorb (join s r) l in
    let (r', kept) = absorb r l in if overlaps s r then (joined, rest) else (r', range s ∷ kept)
absorb r (int n ∷ l) = let (r', kept) = absorb r l in (r', int n ∷ kept)
absorb r (type_value t ∷ l) = let (r', kept) = absorb r l in (r', type_value t ∷ kept)
absorb r (other i p ∷ l) = let (r', kept) = absorb r l in (r', other i p ∷ kept)

abbrev is_intmp : Simple → Bool
is_intmp (type_value t) = t == intmp_index
is_intmp _ = false

module _ (lt : Simple → Simple → Bool) where
  -- `append(const UnionType&)`
  unfoldable pub append_union : UnionType → UnionType → UnionType
  unfolding insert_all
  append_union v u = record {
    types = insert_all lt v.types u.types;
    has_intmp = u.has_intmp || v.has_intmp;
  }

  -- `append(const Constant&)`
  unfoldable pub append : Simple → UnionType → UnionType
  unfolding absorb insert
  append (range r) u =
      let (r', kept) = absorb r u.types in record u { types = insert lt (range r') kept }
  append c u = record { types = insert lt c u.types; has_intmp = is_intmp c || u.has_intmp }

-- `contains`
unfoldable pub refines_one : Simple → List Simple → Bool
unfolding simple_refines
refines_one a [] = false
refines_one a (v ∷ l) = if simple_refines a v then true else refines_one a l

abbrev is_range : Simple → Bool
is_range (range r) = true
is_range _ = false

unfoldable pub contains : Simple → UnionType → Bool
unfolding refines_one
contains a u = if is_range a && u.has_intmp then true else refines_one a u.types
