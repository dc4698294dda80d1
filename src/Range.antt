-- ===== src/Range.antt =====
-- The integer ranges of src/libs/system/range.cpp (src/include/tl/range.hpp). A bound is a pointer
-- to a GMP integer, null where the range is open on that side: `Option ℤ`.
pub mod Order
pub mod Sets
mod Examples
use trans_lucid.Prelude.{Bool, true, false, not, ◌&&◌, Option, none, some, if◌then◌else◌}
use trans_lucid.Prelude.Int.{ℤ, ltb_ℤ, leb_ℤ, eqb_ℤ}

pub record Range : Type 0 where
  pub lower : Option ℤ
  pub upper : Option ℤ

-- "both are null, or neither is and the numbers are equal"
abbrev same_bound : Option ℤ → Option ℤ → Bool
same_bound none none = true
same_bound (some a) (some b) = eqb_ℤ a b
same_bound _ _ = false

-- `Range::operator==`
unfoldable pub eq : Range → Range → Bool
eq r s = same_bound r.lower s.lower && same_bound r.upper s.upper

-- The tests on the lower bounds in `operator<`; `rest` is what follows when they are equal.
abbrev lt_lower : Option ℤ → Option ℤ → Bool → Bool
lt_lower none none rest = rest
lt_lower none (some b) rest = true
lt_lower (some a) none rest = false
lt_lower (some a) (some b) rest = if not (eqb_ℤ a b) then ltb_ℤ a b else rest

abbrev lt_upper : Option ℤ → Option ℤ → Bool
lt_upper none none = false
lt_upper none (some b) = false
lt_upper (some a) none = true
lt_upper (some a) (some b) = ltb_ℤ a b

-- `Range::operator<`
unfoldable pub lt : Range → Range → Bool
lt r s = lt_lower r.lower s.lower (lt_upper r.upper s.upper)

-- `!lower || *lower <= v`
abbrev pub above : Option ℤ → ℤ → Bool
above none v = true
above (some a) v = leb_ℤ a v

-- `!upper || *upper >= v`
abbrev pub below : Option ℤ → ℤ → Bool
below none v = true
below (some b) v = leb_ℤ v b

-- `Range::within(const mpz_class&)`
unfoldable pub within_value : Range → ℤ → Bool
within_value r v = above r.lower v && below r.upper v

-- `m_lower == nullptr || (other.m_lower != nullptr && *m_lower <= *other.m_lower)`
abbrev lower_within : Option ℤ → Option ℤ → Bool
lower_within none _ = true
lower_within (some a) none = false
lower_within (some a) (some b) = leb_ℤ a b

abbrev upper_within : Option ℤ → Option ℤ → Bool
upper_within none _ = true
upper_within (some a) none = false
upper_within (some a) (some b) = leb_ℤ b a

-- `Range::within(const Range&)`: is the other range inside this one
unfoldable pub within : Range → Range → Bool
within r other = lower_within r.lower other.lower && upper_within r.upper other.upper

-- `!u || (!l || *u > *l)`
abbrev reaches : Option ℤ → Option ℤ → Bool
reaches none _ = true
reaches (some u) none = true
reaches (some u) (some l) = ltb_ℤ l u

-- `Range::overlaps`
unfoldable pub overlaps : Range → Range → Bool
overlaps r other = reaches r.upper other.lower && reaches other.upper r.lower

abbrev join_lower : Option ℤ → Option ℤ → Option ℤ
join_lower (some a) (some b) = if ltb_ℤ a b then some a else some b
join_lower _ _ = none

abbrev join_upper : Option ℤ → Option ℤ → Option ℤ
join_upper (some a) (some b) = if ltb_ℤ b a then some a else some b
join_upper _ _ = none

-- `Range::join`
unfoldable pub join : Range → Range → Range
join r rhs = record { lower = join_lower r.lower rhs.lower; upper = join_upper r.upper rhs.upper }
