-- ===== src/Tuple.antt =====
-- `Tuple` of src/libs/system/types.cpp and src/include/tl/types.hpp: a std::map from dimensions to
-- constants, as the list of its entries in the order of the keys. The constants are any type `C`
-- with its `operator<`.
pub mod Laws
mod Examples
use trans_lucid.Prelude.{Bool, Option, none, some, List, [], ◌∷◌, if◌then◌else◌}
use trans_lucid.Prelude.Int.{ℤ, ltb_ℤ, eqb_ℤ}
use trans_lucid.Ordered.{settle, lex}

abbrev pub Tuple : Type 0 → Type 0
Tuple C = List (ℤ × C)

module _ {C : Type 0} where
  -- std::map::insert, which keeps an entry that is there.
  unfoldable pub map_insert : ℤ → C → Tuple C → Tuple C
  map_insert d c [] = (d, c) ∷ []
  map_insert d c ((e, v) ∷ t) =
      if ltb_ℤ d e
      then (d, c) ∷ (e, v) ∷ t
      else if eqb_ℤ d e
      then (e, v) ∷ t
      else (e, v) ∷ map_insert d c t

  -- `Tuple::insert`
  unfoldable pub insert : ℤ → C → Tuple C → Tuple C
  unfolding map_insert
  insert d c t = map_insert d c t

  -- `Tuple::at`: the loop over the entries of `k`.
  unfoldable pub at : Tuple C → Tuple C → Tuple C
  unfolding map_insert
  at t [] = t
  at t ((d, c) ∷ k) = at (map_insert d c t) k

  -- `Tuple::find`
  unfoldable pub find : ℤ → Tuple C → Option C
  find d [] = none
  find d ((e, v) ∷ t) = if eqb_ℤ d e then some v else find d t

-- The tests on two entries in `Tuple::operator<`; `none` goes on to the next pair.
abbrev pub tuple_step : {C : Type 0} → (C → C → Bool) → ℤ × C → ℤ × C → Option Bool
tuple_step less p q = settle ltb_ℤ p.0 q.0 (settle less p.1 q.1 none)

-- `Tuple::operator<`
unfoldable pub tuple_lt : {C : Type 0} → (C → C → Bool) → Tuple C → Tuple C → Bool
unfolding lex
tuple_lt less s t = lex (tuple_step less) s t
