-- ===== src/Union/Examples.antt =====
-- Unions of ranges, in an order of the constants by their index and then by what they hold.
use trans_lucid.Prelude.{ℕ, Bool, true, false, ◌&&◌, ◌||◌, ◌≡◌, refl, some, [], ◌∷◌, ltb, ◌==◌}
use trans_lucid.Prelude.Int.{pos, ltb_ℤ}
use trans_lucid.OrderedSet.{insert, insert_all}
use trans_lucid.Range.{Range, lt, overlaps, join}
use trans_lucid.Union.{
  Simple, int, range, type_value, other, UnionType, absorb, append, append_union,
}
use trans_lucid.Union.Overlap.{is_apart}

-- Integers, ranges, types and the others, in this order.
abbrev below : Simple → Simple → Bool
unfolding lt
below (int m1) (int m2) = ltb_ℤ m1 m2
below (int m1) (range r2) = true
below (int m1) (type_value t2) = true
below (int m1) (other i2 p2) = true
below (range r1) (int m2) = false
below (range r1) (range r2) = lt r1 r2
below (range r1) (type_value t2) = true
below (range r1) (other i2 p2) = true
below (type_value t1) (int m2) = false
below (type_value t1) (range r2) = false
below (type_value t1) (type_value t2) = ltb t1 t2
below (type_value t1) (other i2 p2) = true
below (other i1 p1) (int m2) = false
below (other i1 p1) (range r2) = false
below (other i1 p1) (type_value t2) = false
below (other i1 p1) (other i2 p2) = ltb i1 i2 || (i1 == i2 && ltb p1 p2)

abbrev between : ℕ → ℕ → Range
between a b = record { lower = some (pos a); upper = some (pos b) }

abbrev two_ranges : UnionType
two_ranges = record {
  types = range (between 1 3) ∷ range (between 5 9) ∷ type_value 4 ∷ [];
  has_intmp = false;
}

one_range :
    (append below (range (between 2 6)) two_ranges).types ≡ range (between 1 9) ∷ type_value 4 ∷ []
unfolding append absorb below overlaps join insert
one_range = refl

-- The union of two unions keeps ranges that overlap.
not_apart :
    is_apart
      (append_union below
        (record { types = range (between 2 6) ∷ []; has_intmp = false })
        two_ranges).types
    ≡ false
unfolding append_union insert_all insert below lt is_apart
not_apart = refl
