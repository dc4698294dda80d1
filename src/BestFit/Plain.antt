-- ===== src/BestFit/Plain.antt =====
-- Equality and `valueRefines` of src/libs/system/bestfit.cpp on the plain constants.
use trans_lucid.Prelude.{true, ◌≡◌, arith, ap, ap₂}
use trans_lucid.Prelude.Int.{ℤ, eqb_ℤ_iff}
use trans_lucid.Range.{Range, within_value, within}
use trans_lucid.Range.Order.{eq_iff}
use trans_lucid.Union.{Simple, int, range, type_value, other, same_simple, simple_refines}
use trans_lucid.BestFit.Values.{Value, simple, union, same_value, value_refines, is_plain}

within_value-within :
    (r s : Range) (v : ℤ) → within_value s v ≡ true → within r s ≡ true → within_value r v ≡ true
unfolding within_value within
within_value-within r s v h k = ground arith

within_trans : (r s t : Range) → within s t ≡ true → within r s ≡ true → within r t ≡ true
unfolding within
within_trans r s t h k = ground arith

same_simple_sound : (a b : Simple) → same_simple a b ≡ true → a ≡ b
unfolding same_simple
same_simple_sound (int m1) (int m2) h = ap int ((eqb_ℤ_iff m1 m2).0 h)
same_simple_sound (int m1) (range r2) h = ground arith
same_simple_sound (int m1) (type_value t2) h = ground arith
same_simple_sound (int m1) (other i2 p2) h = ground arith
same_simple_sound (range r1) (int m2) h = ground arith
same_simple_sound (range r1) (range r2) h = ap range ((eq_iff r1 r2).0.0 h)
same_simple_sound (range r1) (type_value t2) h = ground arith
same_simple_sound (range r1) (other i2 p2) h = ground arith
same_simple_sound (type_value t1) (int m2) h = ground arith
same_simple_sound (type_value t1) (range r2) h = ground arith
same_simple_sound (type_value t1) (type_value t2) h = ap type_value (ground arith)
same_simple_sound (type_value t1) (other i2 p2) h = ground arith
same_simple_sound (other i1 p1) (int m2) h = ground arith
same_simple_sound (other i1 p1) (range r2) h = ground arith
same_simple_sound (other i1 p1) (type_value t2) h = ground arith
same_simple_sound (other i1 p1) (other i2 p2) h = ap₂ other (ground arith) (ground arith)

simple_trans :
    (a b c : Simple)
    → is_plain (simple c) ≡ true
    → simple_refines a b ≡ true
    → simple_refines b c ≡ true
    → simple_refines a c ≡ true
unfolding simple_refines
simple_trans (int m1) (int m2) (int m3) n h k =
    ground (arith, same_simple_sound (int m1) (int m2), same_simple_sound (int m2) (int m3))
simple_trans (int m1) (int m2) (range r3) n h k =
    ground (arith, same_simple_sound (int m1) (int m2), same_simple_sound (int m2) (range r3))
simple_trans (int m1) (int m2) (type_value t3) n h k =
    ground (arith, same_simple_sound (int m1) (int m2), same_simple_sound (int m2) (type_value t3))
simple_trans (int m1) (int m2) (other i3 p3) n h k =
    ground (arith, same_simple_sound (int m1) (int m2), same_simple_sound (int m2) (other i3 p3))
simple_trans (int m1) (range r2) (int m3) n h k =
    ground (arith, same_simple_sound (int m1) (range r2), same_simple_sound (range r2) (int m3))
simple_trans (int m1) (range r2) (range r3) n h k = within_value-within r3 r2 m1 h k
simple_trans (int m1) (range r2) (type_value t3) n h k =
    ground
      (arith, same_simple_sound (int m1) (range r2), same_simple_sound (range r2) (type_value t3))
simple_trans (int m1) (range r2) (other i3 p3) n h k =
    ground
      (arith, same_simple_sound (int m1) (range r2), same_simple_sound (range r2) (other i3 p3))
simple_trans (int m1) (type_value t2) (int m3) n h k =
    ground (
      arith,
      same_simple_sound (int m1) (type_value t2),
      same_simple_sound (type_value t2) (int m3),
    )
simple_trans (int m1) (type_value t2) (range r3) n h k = ground (
  arith,
  same_simple_sound (int m1) (type_value t2),
  same_simple_sound (type_value t2) (range r3),
)
simple_trans (int m1) (type_value t2) (type_value t3) n h k = ground (
  arith,
  same_simple_sound (int m1) (type_value t2),
  same_simple_sound (type_value t2) (type_value t3),
)
simple_trans (int m1) (type_value t2) (other i3 p3) n h k = ground (
  arith,
  same_simple_sound (int m1) (type_value t2),
  same_simple_sound (type_value t2) (other i3 p3),
)
simple_trans (int m1) (other i2 p2) (int m3) n h k =
    ground
      (arith, same_simple_sound (int m1) (other i2 p2), same_simple_sound (other i2 p2) (int m3))
simple_trans (int m1) (other i2 p2) (range r3) n h k =
    ground
      (arith, same_simple_sound (int m1) (other i2 p2), same_simple_sound (other i2 p2) (range r3))
simple_trans (int m1) (other i2 p2) (type_value t3) n h k = ground (
  arith,
  same_simple_sound (int m1) (other i2 p2),
  same_simple_sound (other i2 p2) (type_value t3),
)
simple_trans (int m1) (other i2 p2) (other i3 p3) n h k =
    ground (
      arith,
      same_simple_sound (int m1) (other i2 p2),
      same_simple_sound (other i2 p2) (other i3 p3),
    )
simple_trans (range r1) (int m2) (int m3) n h k =
    ground (arith, same_simple_sound (range r1) (int m2), same_simple_sound (int m2) (int m3))
simple_trans (range r1) (int m2) (range r3) n h k =
    ground (arith, same_simple_sound (range r1) (int m2), same_simple_sound (int m2) (range r3))
simple_trans (range r1) (int m2) (type_value t3) n h k =
    ground
      (arith, same_simple_sound (range r1) (int m2), same_simple_sound (int m2) (type_value t3))
simple_trans (range r1) (int m2) (other i3 p3) n h k =
    ground (arith, same_simple_sound (range r1) (int m2), same_simple_sound (int m2) (other i3 p3))
simple_trans (range r1) (range r2) (int m3) n h k =
    ground (arith, same_simple_sound (range r1) (range r2), same_simple_sound (range r2) (int m3))
simple_trans (range r1) (range r2) (range r3) n h k = within_trans r3 r2 r1 h k
simple_trans (range r1) (range r2) (type_value t3) n h k =
    ground
      (arith, same_simple_sound (range r1) (range r2), same_simple_sound (range r2) (type_value t3))
simple_trans (range r1) (range r2) (other i3 p3) n h k =
    ground
      (arith, same_simple_sound (range r1) (range r2), same_simple_sound (range r2) (other i3 p3))
simple_trans (range r1) (type_value t2) (int m3) n h k = ground (
  arith,
  same_simple_sound (range r1) (type_value t2),
  same_simple_sound (type_value t2) (int m3),
)
simple_trans (range r1) (type_value t2) (range r3) n h k = ground (
  arith,
  same_simple_sound (range r1) (type_value t2),
  same_simple_sound (type_value t2) (range r3),
)
simple_trans (range r1) (type_value t2) (type_value t3) n h k = ground (
  arith,
  same_simple_sound (range r1) (type_value t2),
  same_simple_sound (type_value t2) (type_value t3),
)
simple_trans (range r1) (type_value t2) (other i3 p3) n h k = ground (
  arith,
  same_simple_sound (range r1) (type_value t2),
  same_simple_sound (type_value t2) (other i3 p3),
)
simple_trans (range r1) (other i2 p2) (int m3) n h k =
    ground
      (arith, same_simple_sound (range r1) (other i2 p2), same_simple_sound (other i2 p2) (int m3))
simple_trans (range r1) (other i2 p2) (range r3) n h k =
    ground (
      arith,
      same_simple_sound (range r1) (other i2 p2),
      same_simple_sound (other i2 p2) (range r3),
    )
simple_trans (range r1) (other i2 p2) (type_value t3) n h k = ground (
  arith,
  same_simple_sound (range r1) (other i2 p2),
  same_simple_sound (other i2 p2) (type_value t3),
)
simple_trans (range r1) (other i2 p2) (other i3 p3) n h k = ground (
  arith,
  same_simple_sound (range r1) (other i2 p2),
  same_simple_sound (other i2 p2) (other i3 p3),
)
simple_trans (type_value t1) (int m2) (int m3) n h k =
    ground (arith, same_simple_sound (type_value t1) (int m2), same_simple_sound (int m2) (int m3))
simple_trans (type_value t1) (int m2) (range r3) n h k =
    ground
      (arith, same_simple_sound (type_value t1) (int m2), same_simple_sound (int m2) (range r3))
simple_trans (type_value t1) (int m2) (type_value t3) n h k =
    ground (
      arith,
      same_simple_sound (type_value t1) (int m2),
      same_simple_sound (int m2) (type_value t3),
    )
simple_trans (type_value t1) (int m2) (other i3 p3) n h k =
    ground
      (arith, same_simple_sound (type_value t1) (int m2), same_simple_sound (int m2) (other i3 p3))
simple_trans (type_value t1) (range r2) (int m3) n h k =
    ground
      (arith, same_simple_sound (type_value t1) (range r2), same_simple_sound (range r2) (int m3))
simple_trans (type_value t1) (range r2) (range r3) n h k =
    ground
      (arith, same_simple_sound (type_value t1) (range r2), same_simple_sound (range r2) (range r3))
simple_trans (type_value t1) (range r2) (type_value t3) n h k = ground (
  arith,
  same_simple_sound (type_value t1) (range r2),
  same_simple_sound (range r2) (type_value t3),
)
simple_trans (type_value t1) (range r2) (other i3 p3) n h k = ground (
  arith,
  same_simple_sound (type_value t1) (range r2),
  same_simple_sound (range r2) (other i3 p3),
)
simple_trans (type_value t1) (type_value t2) (int m3) n h k = ground (
  arith,
  same_simple_sound (type_value t1) (type_value t2),
  same_simple_sound (type_value t2) (int m3),
)
simple_trans (type_value t1) (type_value t2) (range r3) n h k = ground (
  arith,
  same_simple_sound (type_value t1) (type_value t2),
  same_simple_sound (type_value t2) (range r3),
)
simple_trans (type_value t1) (type_value t2) (type_value t3) n h k = ground (
  arith,
  same_simple_sound (type_value t1) (type_value t2),
  same_simple_sound (type_value t2) (type_value t3),
)
simple_trans (type_value t1) (type_value t2) (other i3 p3) n h k = ground (
  arith,
  same_simple_sound (type_value t1) (type_value t2),
  same_simple_sound (type_value t2) (other i3 p3),
)
simple_trans (type_value t1) (other i2 p2) (int m3) n h k = ground (
  arith,
  same_simple_sound (type_value t1) (other i2 p2),
  same_simple_sound (other i2 p2) (int m3),
)
simple_trans (type_value t1) (other i2 p2) (range r3) n h k = ground (
  arith,
  same_simple_sound (type_value t1) (other i2 p2),
  same_simple_sound (other i2 p2) (range r3),
)
simple_trans (type_value t1) (other i2 p2) (type_value t3) n h k = ground (
  arith,
  same_simple_sound (type_value t1) (other i2 p2),
  same_simple_sound (other i2 p2) (type_value t3),
)
simple_trans (type_value t1) (other i2 p2) (other i3 p3) n h k = ground (
  arith,
  same_simple_sound (type_value t1) (other i2 p2),
  same_simple_sound (other i2 p2) (other i3 p3),
)
simple_trans (other i1 p1) (int m2) (int m3) n h k =
    ground (arith, same_simple_sound (other i1 p1) (int m2), same_simple_sound (int m2) (int m3))
simple_trans (other i1 p1) (int m2) (range r3) n h k =
    ground (arith, same_simple_sound (other i1 p1) (int m2), same_simple_sound (int m2) (range r3))
simple_trans (other i1 p1) (int m2) (type_value t3) n h k =
    ground
      (arith, same_simple_sound (other i1 p1) (int m2), same_simple_sound (int m2) (type_value t3))
simple_trans (other i1 p1) (int m2) (other i3 p3) n h k =
    ground
      (arith, same_simple_sound (other i1 p1) (int m2), same_simple_sound (int m2) (other i3 p3))
simple_trans (other i1 p1) (range r2) (int m3) n h k =
    ground
      (arith, same_simple_sound (other i1 p1) (range r2), same_simple_sound (range r2) (int m3))
simple_trans (other i1 p1) (range r2) (range r3) n h k =
    ground
      (arith, same_simple_sound (other i1 p1) (range r2), same_simple_sound (range r2) (range r3))
simple_trans (other i1 p1) (range r2) (type_value t3) n h k = ground (
  arith,
  same_simple_sound (other i1 p1) (range r2),
  same_simple_sound (range r2) (type_value t3),
)
simple_trans (other i1 p1) (range r2) (other i3 p3) n h k =
    ground (
      arith,
      same_simple_sound (other i1 p1) (range r2),
      same_simple_sound (range r2) (other i3 p3),
    )
simple_trans (other i1 p1) (type_value t2) (int m3) n h k = ground (
  arith,
  same_simple_sound (other i1 p1) (type_value t2),
  same_simple_sound (type_value t2) (int m3),
)
simple_trans (other i1 p1) (type_value t2) (range r3) n h k = ground (
  arith,
  same_simple_sound (other i1 p1) (type_value t2),
  same_simple_sound (type_value t2) (range r3),
)
simple_trans (other i1 p1) (type_value t2) (type_value t3) n h k = ground (
  arith,
  same_simple_sound (other i1 p1) (type_value t2),
  same_simple_sound (type_value t2) (type_value t3),
)
simple_trans (other i1 p1) (type_value t2) (other i3 p3) n h k = ground (
  arith,
  same_simple_sound (other i1 p1) (type_value t2),
  same_simple_sound (type_value t2) (other i3 p3),
)
simple_trans (other i1 p1) (other i2 p2) (int m3) n h k =
    ground (
      arith,
      same_simple_sound (other i1 p1) (other i2 p2),
      same_simple_sound (other i2 p2) (int m3),
    )
simple_trans (other i1 p1) (other i2 p2) (range r3) n h k = ground (
  arith,
  same_simple_sound (other i1 p1) (other i2 p2),
  same_simple_sound (other i2 p2) (range r3),
)
simple_trans (other i1 p1) (other i2 p2) (type_value t3) n h k = ground (
  arith,
  same_simple_sound (other i1 p1) (other i2 p2),
  same_simple_sound (other i2 p2) (type_value t3),
)
simple_trans (other i1 p1) (other i2 p2) (other i3 p3) n h k = ground (
  arith,
  same_simple_sound (other i1 p1) (other i2 p2),
  same_simple_sound (other i2 p2) (other i3 p3),
)

-- Equality and refinement on the plain constants.
pub same_value_sound : (x y : Value) → is_plain y ≡ true → same_value x y ≡ true → x ≡ y
unfolding same_value
same_value_sound (simple a) (simple b) n h = ap simple (same_simple_sound a b h)
same_value_sound (union u) (simple b) n h = ground arith
same_value_sound (simple a) (union v) n h = ground arith
same_value_sound (union u) (union v) n h = ground arith

pub value_refines_trans :
    (x y z : Value)
    → is_plain y ≡ true
    → is_plain z ≡ true
    → value_refines x y ≡ true
    → value_refines y z ≡ true
    → value_refines x z ≡ true
unfolding value_refines
value_refines_trans (simple a) (simple b) (simple c) m n h k = simple_trans a b c n h k
value_refines_trans (union u) (simple (type_value t)) (simple c) m n h k = ground arith
value_refines_trans (union u) (simple (int t)) (simple c) m n h k = ground arith
value_refines_trans (union u) (simple (range t)) (simple c) m n h k = ground arith
value_refines_trans (union u) (simple (other i p)) (simple c) m n h k = ground arith
value_refines_trans (simple a) (union v) z m n h k = ground arith
value_refines_trans (union u) (union v) z m n h k = ground arith
value_refines_trans (simple a) (simple b) (union w) m n h k = ground arith
value_refines_trans (union u) (simple b) (union w) m n h k = ground arith
