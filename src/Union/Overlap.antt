-- ===== src/Union/Overlap.antt =====
-- The ranges in a list of constants, and the loop of `append` over them
-- (src/libs/system/types/union.cpp).
use trans_lucid.Prelude.{
  Bool, true, false, not, ◌&&◌, ◌||◌, Option, some, List, [], ◌∷◌, ◌≡◌, refl, arith, Bool-cases,
  inl, inr,
}
use trans_lucid.Prelude.Int.{ℤ, leb_ℤ}
use trans_lucid.Range.{Range, within_value, overlaps, join}
use trans_lucid.Range.Sets.{overlaps_symm}
use trans_lucid.Union.{Simple, int, range, type_value, other, absorb}

-- Whether a range of the list has `v`.
unfoldable pub covers_one : ℤ → Simple → Bool
unfolding within_value
covers_one v (range s) = within_value s v
covers_one v _ = false

unfoldable pub covers : ℤ → List Simple → Bool
covers v [] = false
covers v (c ∷ l) = covers_one v c || covers v l

-- A range whose lower bound is not above its upper one.
abbrev pub in_order : Option ℤ → Option ℤ → Bool
in_order (some a) (some b) = leb_ℤ a b
in_order _ _ = true

unfoldable pub nonempty : Range → Bool
nonempty r = in_order r.lower r.upper

-- Whether no range of the list overlaps with `r`.
unfoldable pub clear_one : Range → Simple → Bool
unfolding overlaps
clear_one r (range s) = not (overlaps s r)
clear_one r _ = true

unfoldable pub clear : Range → List Simple → Bool
unfolding clear_one
clear r [] = true
clear r (c ∷ l) = clear_one r c && clear r l

-- All ranges are nonempty, and no two of them overlap.
unfoldable pub proper : Simple → List Simple → Bool
unfolding clear nonempty
proper (range s) l = nonempty s && clear s l
proper _ l = true

unfoldable pub is_apart : List Simple → Bool
unfolding proper
is_apart [] = true
is_apart (c ∷ l) = proper c l && is_apart l

pub within_value-join :
    (s r : Range) (v : ℤ)
    → overlaps s r ≡ true
    → within_value (join s r) v ≡ (within_value s v || within_value r v)
unfolding within_value join overlaps
within_value-join s r v h = ground arith

pub nonempty-join :
    (s r : Range) → nonempty s ≡ true → nonempty r ≡ true → nonempty (join s r) ≡ true
unfolding nonempty join
nonempty-join s r h k = ground arith

-- A nonempty range that overlaps with neither of two overlapping ranges does not overlap with their join.
pub overlaps-join :
    (x s r : Range)
    → nonempty x ≡ true
    → overlaps s r ≡ true
    → overlaps x s ≡ false
    → overlaps x r ≡ false
    → overlaps x (join s r) ≡ false
unfolding nonempty join overlaps
overlaps-join x s r n h p q = ground arith

pub join_covers :
    (s r : Range) (v : ℤ)
    → overlaps s r ≡ true
    → within_value (join s r) v ≡ (covers_one v (range s) || within_value r v)
unfolding covers_one
join_covers s r v e = within_value-join s r v e

-- Three tests of which the first stands at another place.
pub swap_or : (a b c d e : Bool) → (a || b) ≡ (c || d) → (a || (e || b)) ≡ (c || (e || d))
swap_or a b c d e h = ground arith

pub join_or : (a b c d e f : Bool) → (a || b) ≡ (c || d) → c ≡ (e || f) → (a || b) ≡ (f || (e || d))
join_or a b c d e f h k = ground arith

pub keep_covers :
    (v : ℤ) (c : Simple) (r r' : Range) (l l' : List Simple)
    → (within_value r' v || covers v l') ≡ (within_value r v || covers v l)
    → (within_value r' v || (covers_one v c || covers v l'))
      ≡ (within_value r v || (covers_one v c || covers v l))
keep_covers v c r r' l l' h =
    swap_or (within_value r' v) (covers v l') (within_value r v) (covers v l) (covers_one v c) h

pub join_covered :
    (v : ℤ) (s r r' : Range) (l l' : List Simple)
    → overlaps s r ≡ true
    → (within_value r' v || covers v l') ≡ (within_value (join s r) v || covers v l)
    → (within_value r' v || covers v l')
      ≡ (within_value r v || (covers_one v (range s) || covers v l))
join_covered v s r r' l l' e h =
    join_or (within_value r' v) (covers v l') (within_value (join s r) v) (covers v l)
      (covers_one v (range s)) (within_value r v) h (join_covers s r v e)

pub absorb-covers :
    (v : ℤ) (r : Range) (l : List Simple)
    → (within_value (absorb r l).0 v || covers v (absorb r l).1) ≡ (within_value r v || covers v l)
unfolding absorb covers
absorb-covers v r [] = refl
absorb-covers v r (range s ∷ l) = elim (Bool-cases (overlaps s r)) [
  | inl e ↦ rw e (
      join_covered v s r (absorb (join s r) l).0 l (absorb (join s r) l).1 e
        (absorb-covers v (join s r) l))
  | inr e ↦ rw e (keep_covers v (range s) r (absorb r l).0 l (absorb r l).1 (absorb-covers v r l))
]
absorb-covers v r (int n ∷ l) =
    keep_covers v (int n) r (absorb r l).0 l (absorb r l).1 (absorb-covers v r l)
absorb-covers v r (type_value t ∷ l) =
    keep_covers v (type_value t) r (absorb r l).0 l (absorb r l).1 (absorb-covers v r l)
absorb-covers v r (other i p ∷ l) =
    keep_covers v (other i p) r (absorb r l).0 l (absorb r l).1 (absorb-covers v r l)

pub covers_all :
    (v : ℤ) (r : Range) (l : List Simple)
    → (covers_one v (range (absorb r l).0) || covers v (absorb r l).1)
      ≡ (covers_one v (range r) || covers v l)
unfolding covers_one
covers_all v r l = absorb-covers v r l

-- What is clear of the range and of the list is clear of the range and the list after the loop.
pub absorb-clear :
    (x r : Range) (l : List Simple)
    → nonempty x ≡ true
    → overlaps x r ≡ false
    → clear x l ≡ true
    → (overlaps x (absorb r l).0 ≡ false) × (clear x (absorb r l).1 ≡ true)
unfolding absorb clear clear_one
absorb-clear x r [] n h k = (h, refl)
absorb-clear x r (range s ∷ l) n h k = ground (
  arith,
  absorb-clear x (join s r) l n,
  absorb-clear x r l n h,
  overlaps-join x s r n,
  overlaps_symm x s,
)
absorb-clear x r (int n' ∷ l) n h k = absorb-clear x r l n h k
absorb-clear x r (type_value t ∷ l) n h k = absorb-clear x r l n h k
absorb-clear x r (other i p ∷ l) n h k = absorb-clear x r l n h k

-- The loop leaves ranges that are apart, and a range that overlaps with none of them.
pub absorb-apart :
    (r : Range) (l : List Simple)
    → nonempty r ≡ true
    → is_apart l ≡ true
    → (nonempty (absorb r l).0 ≡ true)
      × (clear (absorb r l).0 (absorb r l).1 ≡ true)
      × (is_apart (absorb r l).1 ≡ true)
unfolding absorb is_apart proper clear clear_one
absorb-apart r [] n h = (n, refl, refl)
absorb-apart r (range s ∷ l) n h = ground (
  arith,
  absorb-apart (join s r) l,
  absorb-apart r l n,
  nonempty-join s r,
  absorb-clear s r l,
  overlaps_symm s (absorb r l).0,
)
absorb-apart r (int n' ∷ l) n h = absorb-apart r l n h
absorb-apart r (type_value t ∷ l) n h = absorb-apart r l n h
absorb-apart r (other i p ∷ l) n h = absorb-apart r l n h
