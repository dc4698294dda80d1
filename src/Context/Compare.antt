-- ===== src/Context/Compare.antt =====
-- `operator<=` of src/libs/system/context.cpp: whether a context has at least what another has.
use trans_lucid.Prelude.{
  ℕ, zero, suc, ◌≡◌, ◌↔◌, refl, Bool, true, false, not, ◌&&◌, Option, none, some, List, [], ◌∷◌,
  if◌then◌else◌, arith, Bool-cases, inl, inr,
}
use trans_lucid.Prelude.Int.{ℤ, pos, ◌+ℤ◌, eqb_ℤ, ltb_ℤ, minus, ◌<ℤ◌, ◌≤ℤ◌, +ℤ_parts, eqb_ℤ_iff}
use trans_lucid.Context.{Context, is_empty, stack_at, make_index}
use trans_lucid.Context.Stacks.{stack_of, IsValid, stack_at_past}
use trans_lucid.Context.Delta.{top_of}

module _ {V : Type 0} where
  -- The loops that ask for empty stacks, from `d` on, with the rounds left.
  unfoldable pub empty_from : ℕ → ℤ → Context V → Bool
  empty_from zero d k = true
  empty_from (suc n) d k =
      let rest = empty_from n (d +ℤ pos 1) k in
      if not (is_empty (stack_at k.slots (make_index k d))) then false else rest

module _ {V : Type 0} (beq : V → V → Bool) where
  -- The round of the loop over the dimensions of both.
  abbrev pub tops_agree : List V → List V → Bool
  tops_agree [] rs = true
  tops_agree (c ∷ cs) [] = false
  tops_agree (c ∷ cs) (e ∷ es) = beq c e

  unfoldable pub same_from : ℕ → ℤ → Context V → Context V → Bool
  same_from zero d l r = true
  same_from (suc n) d l r =
      let rest = same_from n (d +ℤ pos 1) l r in
      if not (tops_agree (stack_at l.slots (make_index l d)) (stack_at r.slots (make_index r d)))
      then false
      else rest

  -- `operator<=`
  unfoldable pub le : Context V → Context V → Bool
  le l r =
      let start = (if ltb_ℤ l.min r.min then r.min else l.min) +ℤ pos 1 in
      let last = if ltb_ℤ l.max r.max then l.max else r.max in
      if ltb_ℤ l.min r.min && not (empty_from (minus r.min l.min) (l.min +ℤ pos 1) l)
      then false
      else if not (same_from (minus last start) start l r)
      then false
      else if ltb_ℤ r.max l.max
      then empty_from (minus l.max last) last l
      else true

-- A test on every dimension from `d` on, for `n` rounds.
all_from : (ℤ → Bool) → ℕ → ℤ → Bool
all_from f zero d = true
all_from f (suc n) d = let rest = all_from f n (d +ℤ pos 1) in if not (f d) then false else rest

all_from_iff :
    (f : ℤ → Bool) (n : ℕ) (d : ℤ)
    → (all_from f n d ≡ true) ↔ ((e : ℤ) → d ≤ℤ e → e <ℤ d +ℤ pos n → f e ≡ true)
unfolding all_from
all_from_iff f zero d = (λ h e a b. ground (arith, +ℤ_parts d (pos 0)), λ h. refl)
all_from_iff f (suc n) d = elim (Bool-cases (f d)) [
  | inl holds ↦ rw holds (
    (λ h e a b. elim (Bool-cases (eqb_ℤ e d)) [
      | inl same ↦ rw ((eqb_ℤ_iff e d).0 same) holds
      | inr other ↦
          (all_from_iff f n (d +ℤ pos 1)).0 h e (ground (arith, +ℤ_parts d (pos 1), eqb_ℤ_iff e d))
            (ground
              (arith, +ℤ_parts d (pos 1), +ℤ_parts d (pos (suc n)), +ℤ_parts (d +ℤ pos 1) (pos n)))
    ]),
    (λ h. (all_from_iff f n (d +ℤ pos 1)).1 (λ e a b. h e (ground (arith, +ℤ_parts d (pos 1))) (
        ground
          (arith, +ℤ_parts d (pos 1), +ℤ_parts d (pos (suc n)), +ℤ_parts (d +ℤ pos 1) (pos n))))),
  )
  | inr fails ↦ rw fails (
    (λ h. absurd (cc)),
    (λ h. let holds = h d (omega arith) (ground (arith, +ℤ_parts d (pos (suc n)))) in absurd (cc)),
  )
]

module _ {V : Type 0} where
  abbrev empty_at : Context V → ℤ → Bool
  empty_at k e = is_empty (stack_at k.slots (make_index k e))

  empty_from-all_from :
      (n : ℕ) (d : ℤ) (k : Context V) → empty_from n d k ≡ all_from (empty_at k) n d
  unfolding empty_from all_from
  empty_from-all_from zero d k = refl
  empty_from-all_from (suc n) d k = rw (empty_from-all_from n (d +ℤ pos 1) k)

  empty_from_iff :
      (n : ℕ) (d : ℤ) (k : Context V)
      → (empty_from n d k ≡ true) ↔ ((e : ℤ) → d ≤ℤ e → e <ℤ d +ℤ pos n → empty_at k e ≡ true)
  empty_from_iff n d k = rw (empty_from-all_from n d k) (all_from_iff (empty_at k) n d)

module _ {V : Type 0} (beq : V → V → Bool) where
  abbrev agree_at : Context V → Context V → ℤ → Bool
  agree_at l r e =
      tops_agree beq (stack_at l.slots (make_index l e)) (stack_at r.slots (make_index r e))

  same_from-all_from :
      (n : ℕ) (d : ℤ) (l r : Context V) → same_from beq n d l r ≡ all_from (agree_at l r) n d
  unfolding same_from all_from
  same_from-all_from zero d l r = refl
  same_from-all_from (suc n) d l r = rw (same_from-all_from n (d +ℤ pos 1) l r)

  same_from_iff :
      (n : ℕ) (d : ℤ) (l r : Context V)
      → (same_from beq n d l r ≡ true)
        ↔ ((e : ℤ) → d ≤ℤ e → e <ℤ d +ℤ pos n → agree_at l r e ≡ true)
  same_from_iff n d l r = rw (same_from-all_from n d l r) (all_from_iff (agree_at l r) n d)

  -- What has to hold at one dimension.
  abbrev below_at : Context V → Context V → ℤ → Bool
  below_at l r e = tops_agree beq (stack_of l e) (stack_of r e)

  tops_agree-nil : (s : List V) → tops_agree beq s [] ≡ is_empty s
  tops_agree-nil [] = refl
  tops_agree-nil (c ∷ cs) = refl

guards :
    (a b c d e : Bool)
    → ((if a && not b then false else if not c then false else if d then e else true) ≡ true)
      ↔ ((a ≡ true → b ≡ true) × (c ≡ true) × (d ≡ true → e ≡ true))
guards a b c d e = ground arith

module _ {V : Type 0} (all : V) (beq : V → V → Bool) (l r : Context V) (v : IsValid all l)
    (w : IsValid all r) where
  -- What the three loops test, one after the other.
  record Parts : Type 0 where
    low : (e : ℤ) → l.min <ℤ e → e ≤ℤ r.min → empty_at l e ≡ true
    both : (e : ℤ) → l.min <ℤ e → r.min <ℤ e → e <ℤ l.max → e <ℤ r.max → agree_at beq l r e ≡ true
    high : (e : ℤ) → r.max ≤ℤ e → e <ℤ l.max → empty_at l e ≡ true

  below_of_empty : (e : ℤ) → l.min <ℤ e → empty_at l e ≡ true → below_at beq l r e ≡ true
  below_of_empty e h k = ground arith

  Parts-below : Parts → (e : ℤ) → below_at beq l r e ≡ true
  Parts-below p e =
      ground
        (arith, v.size, p.low e, p.both e, p.high e, stack_at_past all l.slots (make_index l e))

  below-Parts : ((e : ℤ) → below_at beq l r e ≡ true) → Parts
  below-Parts h = record {
    low = λ e a b. ground (arith, h e);
    both = λ e a b c d. ground (arith, h e);
    high = λ e a b. ground (
      arith,
      h e,
      w.size,
      w.min_neg,
      w.max_nonneg,
      stack_at_past all r.slots (make_index r e),
      tops_agree-nil beq (stack_at l.slots (make_index l e)),
      v.min_neg,
    );
  }

  abbrev start : ℤ
  start = (if ltb_ℤ l.min r.min then r.min else l.min) +ℤ pos 1

  abbrev last : ℤ
  last = if ltb_ℤ l.max r.max then l.max else r.max

  le-guards : (le beq l r ≡ true) ↔ (
      (ltb_ℤ l.min r.min ≡ true → empty_from (minus r.min l.min) (l.min +ℤ pos 1) l ≡ true)
      × (same_from beq (minus last start) start l r ≡ true)
      × (ltb_ℤ r.max l.max ≡ true → empty_from (minus l.max last) last l ≡ true))
  unfolding le
  le-guards = guards (ltb_ℤ l.min r.min) _ _ (ltb_ℤ r.max l.max) _

  le_sound : le beq l r ≡ true → Parts
  le_sound h =
      let (first, second, third) = le-guards.0 h in
      record {
        low = λ e a b.
            (empty_from_iff (minus r.min l.min) (l.min +ℤ pos 1) l).0 (first (ground arith)) e
              (ground (arith, +ℤ_parts l.min (pos 1)))
              (ground (
                arith,
                +ℤ_parts l.min (pos 1),
                +ℤ_parts (l.min +ℤ pos 1) (pos (minus r.min l.min)),
              ));
        both = λ e a b c d.
            (same_from_iff beq (minus last start) start l r).0 second e
              (ground (arith, +ℤ_parts l.min (pos 1), +ℤ_parts r.min (pos 1)))
              (ground (arith, +ℤ_parts start (pos (minus last start))));
        high = λ e a b.
            (empty_from_iff (minus l.max last) last l).0 (third (ground arith)) e (ground arith)
              (ground (arith, +ℤ_parts last (pos (minus l.max last))));
      }

  le_complete : Parts → le beq l r ≡ true
  le_complete p = le-guards.1 (
    (λ h. (empty_from_iff (minus r.min l.min) (l.min +ℤ pos 1) l).1 (λ e a b.
        p.low e (ground (arith, +ℤ_parts l.min (pos 1))) (
          ground
            (arith, +ℤ_parts l.min (pos 1), +ℤ_parts (l.min +ℤ pos 1) (pos (minus r.min l.min)))))),
    (same_from_iff beq (minus last start) start l r).1 (λ e a b.
        p.both e (ground (arith, +ℤ_parts l.min (pos 1), +ℤ_parts r.min (pos 1)))
          (ground (arith, +ℤ_parts l.min (pos 1), +ℤ_parts r.min (pos 1)))
          (ground (
            arith,
            +ℤ_parts start (pos (minus last start)),
            v.max_nonneg,
            w.max_nonneg,
            v.min_neg,
            w.min_neg,
            +ℤ_parts l.min (pos 1),
            +ℤ_parts r.min (pos 1),
          ))
          (ground (
            arith,
            +ℤ_parts start (pos (minus last start)),
            v.max_nonneg,
            w.max_nonneg,
            v.min_neg,
            w.min_neg,
            +ℤ_parts l.min (pos 1),
            +ℤ_parts r.min (pos 1),
          ))),
    (λ h. (empty_from_iff (minus l.max last) last l).1 (λ e a b.
        p.high e (ground arith) (ground (arith, +ℤ_parts last (pos (minus l.max last)))))),
  )

-- Everything that is there on the left is there on the right, with the same value.
abbrev pub Agree : {V : Type 0} → Option V → Option V → Type 0
Agree none b = Unit
Agree (some c) none = ⊥
Agree (some c) (some e) = c ≡ e

module _ {V : Type 0} (all : V) (beq : V → V → Bool)
    (beq_iff : (a b : V) → (beq a b ≡ true) ↔ (a ≡ b)) where
  tops_agree_iff : (s t : List V) → (tops_agree beq s t ≡ true) ↔ Agree (top_of s) (top_of t)
  tops_agree_iff [] t = (λ h. tt, λ h. refl)
  tops_agree_iff (c ∷ cs) [] = (λ h. absurd (cc), λ h. absurd h)
  tops_agree_iff (c ∷ cs) (e ∷ es) = beq_iff c e

  -- Let `beq` decide the equality of ordinates. For valid contexts, `operator<=` holds exactly when
  -- every dimension that has an ordinate on the left has the same one on the right.
  pub le_iff :
      (l r : Context V)
      → IsValid all l
      → IsValid all r
      → (le beq l r ≡ true) ↔ ((e : ℤ) → Agree (top_of (stack_of l e)) (top_of (stack_of r e)))
  le_iff l r v w = (
    (λ h e.
        (tops_agree_iff (stack_of l e) (stack_of r e)).0
          (Parts-below all beq l r v w (le_sound all beq l r v w h) e)),
    (λ h. le_complete all beq l r v w (
        below-Parts all beq l r v w (λ e. (tops_agree_iff (stack_of l e) (stack_of r e)).1 (h e)))),
  )
