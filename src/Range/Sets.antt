-- ===== src/Range/Sets.antt =====
-- Ranges as sets of integers: `within`, `overlaps` and `join` of src/libs/system/range.cpp against
-- the membership test `within(const mpz_class&)`.
use trans_lucid.Prelude.{true, false, ◌≡◌, ◌↔◌, Option, some, none, arith, if◌then◌else◌}
use trans_lucid.Prelude.Int.{ℤ, pos, ltb_ℤ, ◌<ℤ◌, ◌+ℤ◌, ◌-ℤ◌}
use trans_lucid.Range.{Range, within_value, within, overlaps, join}

abbrev pub Member : ℤ → Range → Type 0
Member v r = within_value r v ≡ true

within-subset : (r s : Range) (v : ℤ) → within r s ≡ true → Member v s → Member v r
unfolding within within_value
within-subset r s v h k = ground arith

-- `join` is the least range that both ranges lie within, by the test of `within`.
pub join-lub :
    (r s t : Range)
    → (within (join r s) r ≡ true)
      × (within (join r s) s ≡ true)
      × ((within t (join r s) ≡ true) ↔ ((within t r ≡ true) × (within t s ≡ true)))
unfolding within join
join-lub r s t = ground arith

-- A member of both of two overlapping ranges, `a` and `b` being members of one each.
common : Option ℤ → Option ℤ → ℤ → ℤ → ℤ
common none none a b = if ltb_ℤ a b then a else b
common none (some l) a b = l
common (some l) none a b = l
common (some l) (some m) a b = if ltb_ℤ l m then m else l

-- Two ranges with members that overlap have a member in common.
pub overlaps-common :
    (r s : Range) (a b : ℤ)
    → Member a r
    → Member b s
    → overlaps r s ≡ true
    → (v : ℤ) × Member v r × Member v s
unfolding within_value overlaps common
overlaps-common r s a b ha hb h = (common r.lower s.lower a b, ground arith, ground arith)

-- Ranges with two different members in common overlap.
pub overlaps_of_two :
    (r s : Range) (a b : ℤ)
    → Member a r
    → Member a s
    → Member b r
    → Member b s
    → a <ℤ b
    → overlaps r s ≡ true
unfolding within_value overlaps
overlaps_of_two r s a b h k m n lt = ground arith

-- A range that ends at the number where the next one starts shares that number with it, and
-- `overlaps` says that they do not overlap.
pub overlaps_touching :
    (r s : Range) (x : ℤ)
    → r.upper ≡ some x
    → s.lower ≡ some x
    → Member x r
    → Member x s
    → overlaps r s ≡ false
unfolding within_value overlaps
overlaps_touching r s x h k m n = ground arith

-- A member of `s` that a lower bound `x` of `r` must not cut off; `a` is some member of `s`.
low_point : Option ℤ → Option ℤ → ℤ → ℤ
low_point _ (some y) a = y
low_point none none a = a
low_point (some x) none a = if ltb_ℤ a x then a else x -ℤ pos 1

high_point : Option ℤ → Option ℤ → ℤ → ℤ
high_point _ (some y) a = y
high_point none none a = a
high_point (some x) none a = if ltb_ℤ x a then a else x +ℤ pos 1

low_point-Member : (r s : Range) (a : ℤ) → Member a s → Member (low_point r.lower s.lower a) s
unfolding within_value low_point ◌-ℤ◌
low_point-Member r s a h = ground arith

high_point-Member : (r s : Range) (a : ℤ) → Member a s → Member (high_point r.upper s.upper a) s
unfolding within_value high_point ◌+ℤ◌
high_point-Member r s a h = ground arith

within_of_points :
    (r s : Range) (a : ℤ)
    → Member (low_point r.lower s.lower a) r
    → Member (high_point r.upper s.upper a) r
    → within r s ≡ true
unfolding within within_value low_point high_point ◌+ℤ◌ ◌-ℤ◌
within_of_points r s a h k = ground arith

-- A range with a member lies within another exactly when all its members do.
pub within_iff_subset :
    (r s : Range) (a : ℤ) → Member a s → (within r s ≡ true) ↔ ((v : ℤ) → Member v s → Member v r)
within_iff_subset r s a h = (
  λ w v. within-subset r s v w,
  λ sub.
      within_of_points r s a (sub _ (low_point-Member r s a h)) (sub _ (high_point-Member r s a h)),
)

-- The test is symmetric.
pub overlaps_symm : (r s : Range) → overlaps r s ≡ overlaps s r
unfolding overlaps
overlaps_symm r s = ground arith
