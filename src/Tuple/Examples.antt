-- ===== src/Tuple/Examples.antt =====
-- Tuples of numbers.
use trans_lucid.Prelude.{ℕ, arith, [], ◌∷◌, ltb}
use trans_lucid.Prelude.Int.{pos, negsuc}
use trans_lucid.Ordered.{StrictOrder}
use trans_lucid.Tuple.{Tuple}
use trans_lucid.Tuple.Laws.{IsSorted}

ltb_order : StrictOrder ltb
ltb_order = record {
  irrefl = λ a. ground arith;
  trans = λ a b c h k. ground arith;
  total = λ a b h k. ground arith;
}

abbrev old : Tuple ℕ
old = (negsuc 0, 4) ∷ (pos 2, 5) ∷ []

abbrev new : Tuple ℕ
new = (pos 1, 6) ∷ (pos 2, 7) ∷ []

old-IsSorted : IsSorted old
old-IsSorted = ((omega arith, tt), (tt, tt))
