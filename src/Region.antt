-- ===== src/Region.antt =====
-- `Region` of src/libs/system/region.cpp and src/include/tl/region.hpp: a std::map from dimensions
-- to a containment and a constant, as the list of its entries in the order of the keys. The
-- constants are any type `C` with its `operator==` and `operator<`.
pub mod Laws
mod Examples
use trans_lucid.Prelude.{
  ℕ, Bool, true, false, not, Option, none, List, [], ◌∷◌, if◌then◌else◌, ltb, ◌==◌, length,
}
use trans_lucid.Prelude.Int.{ℤ, ltb_ℤ, eqb_ℤ}
use trans_lucid.Ordered.{settle, lex}

-- `enum class Containment`, compared by the values of its constants.
pub data Containment : Type 0 where
  is is_in imp : Containment

abbrev pub rank : Containment → ℕ
rank is = 0
rank is_in = 1
rank imp = 2

abbrev pub ltb_containment : Containment → Containment → Bool
ltb_containment a b = ltb (rank a) (rank b)

abbrev pub Region : Type 0 → Type 0
Region C = List (ℤ × (Containment × C))

module _ {C : Type 0} (beq : C → C → Bool) where
  -- The loop of `operator==`, over regions of one size.
  unfoldable pub same_entries : Region C → Region C → Bool
  same_entries [] _ = true
  same_entries (l ∷ ls) [] = false
  same_entries (l ∷ ls) (r ∷ rs) =
      if not (eqb_ℤ l.0 r.0)
      then false
      else if not (rank l.1.0 == rank r.1.0)
      then false
      else if not (beq l.1.1 r.1.1)
      then false
      else same_entries ls rs

  -- `Region::operator==`
  unfoldable pub region_eq : Region C → Region C → Bool
  unfolding same_entries
  region_eq l r = if not (length l == length r) then false else same_entries l r

-- The tests on two entries in `Region::operator<`; `none` goes on to the next pair.
abbrev pub region_step :
    {C : Type 0} → (C → C → Bool) → ℤ × (Containment × C) → ℤ × (Containment × C) → Option Bool
region_step less p q =
    settle ltb_ℤ p.0 q.0 (settle ltb_containment p.1.0 q.1.0 (settle less p.1.1 q.1.1 none))

-- `Region::operator<`
unfoldable pub region_lt : {C : Type 0} → (C → C → Bool) → Region C → Region C → Bool
unfolding lex
region_lt less r s = lex (region_step less) r s
