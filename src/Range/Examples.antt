-- ===== src/Range/Examples.antt =====
-- Runs of the range operations, and the range theorems at concrete inputs.
use trans_lucid.Prelude.{true, false, ◌≡◌, ◌↔◌, refl, some, none}
use trans_lucid.Prelude.Int.{ℤ, pos}
use trans_lucid.Range.{Range, within_value, within, overlaps, join}
use trans_lucid.Range.Sets.{Member, within_iff_subset}

abbrev one_nine : Range
one_nine = record { lower = some (pos 1); upper = some (pos 9) }

abbrev five_fifteen : Range
five_fifteen = record { lower = some (pos 5); upper = some (pos 15) }

abbrev up_to_one : Range
up_to_one = record { lower = none; upper = some (pos 1) }

abbrev from_five : Range
from_five = record { lower = some (pos 5); upper = none }

-- The repository's test of ranges (src/tests/constant.cpp).
joined : join one_nine five_fifteen ≡ record { lower = some (pos 1); upper = some (pos 15) }
unfolding join
joined = refl

overlapping : overlaps one_nine five_fifteen ≡ true
unfolding overlaps
overlapping = refl

apart : overlaps from_five up_to_one ≡ false
unfolding overlaps
apart = refl

within_iff_subset_example :
    (within from_five five_fifteen ≡ true) ↔ ((v : ℤ) → Member v five_fifteen → Member v from_five)
unfolding within_value
within_iff_subset_example = within_iff_subset from_five five_fifteen (pos 7) refl
