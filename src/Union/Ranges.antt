-- ===== src/Union/Ranges.antt =====
-- The ranges in a `UnionType` (src/libs/system/types/union.cpp).
use trans_lucid.Prelude.{Bool, true, ◌||◌, ◌≡◌}
use trans_lucid.Prelude.Int.{ℤ}
use trans_lucid.Ordered.{StrictOrder}
use trans_lucid.Range.{Range}
use trans_lucid.Union.{Simple, range, UnionType}
use trans_lucid.Union.Overlap.{covers_one, covers, nonempty, clear_one, is_apart}

-- Two constants that do not overlap, if they are ranges.
abbrev avoids : Simple → Simple → Bool
avoids (range r) d = clear_one r d
avoids _ d = true

-- Whether the constant is no empty range.
abbrev pub is_fit : Simple → Bool
is_fit (range r) = nonempty r
is_fit _ = true

module _ {lt : Simple → Simple → Bool} (o : StrictOrder lt) where
  -- What `append` keeps: the ranges are nonempty and apart, and the integers in them are those of the
  -- union and of the new constant.
  unfoldable IsAppended : Simple → UnionType → UnionType → Type 0
  IsAppended c u u' =
      (is_apart u'.types ≡ true)
      × ((v : ℤ) → covers v u'.types ≡ (covers_one v c || covers v u.types))
