-- ===== src/Region/Examples.antt =====
-- Regions over numbers.
use trans_lucid.Prelude.{ℕ, arith, [], ◌∷◌, ltb}
use trans_lucid.Prelude.Int.{pos}
use trans_lucid.Ordered.{StrictOrder}
use trans_lucid.Region.{Region, is, imp}

ltb_order : StrictOrder ltb
ltb_order = record {
  irrefl = λ a. ground arith;
  trans = λ a b c h k. ground arith;
  total = λ a b h k. ground arith;
}

abbrev one : Region ℕ
one = (pos 1, (is, 3)) ∷ []

abbrev two : Region ℕ
two = (pos 1, (imp, 3)) ∷ []
