-- ===== src/Context/Delta.antt =====
-- `fillDelta` and `operator Tuple` of src/include/tl/context.hpp and src/libs/system/context.cpp.
use trans_lucid.Prelude.{
  ℕ, zero, suc, ◌-◌, ◌≡◌, refl, false, Option, none, some, List, [], ◌∷◌, if◌then◌else◌, arith,
  Bool-cases, inl, inr, ◌⊎◌, inl, inr, ◌∙◌,
}
use trans_lucid.Prelude.Int.{ℤ, pos, ◌+ℤ◌, eqb_ℤ, leb_ℤ, ltb_ℤ, minus, ◌<ℤ◌, +ℤ_parts, eqb_ℤ_iff}
use trans_lucid.Context.{Context, stack_at, make_index, fill_from, fill_delta, tuple_from, to_tuple}
use trans_lucid.Context.Stacks.{stack_of, IsValid, stack_at_past}
use trans_lucid.Tuple.{find}

module _ {V : Type 0} where
  fill_from-none :
      (fuel : ℕ) (m : ℤ) (k : Context V) (delta : List ℤ)
      → eqb_ℤ m k.max ≡ false
      → fill_from fuel m k delta ≡ none
  unfolding fill_from
  fill_from-none zero m k delta h = refl
  fill_from-none (suc fuel) m k delta h = rw h (fill_from-none fuel m k _ h)

  -- `fillDelta` never returns, whatever the fuel, as soon as the deque has a place: its loop does
  -- not step to the next dimension.
  pub fill_delta-none :
      (fuel : ℕ) (k : Context V) (delta : List ℤ)
      → k.min +ℤ pos 1 <ℤ k.max
      → fill_delta fuel k delta ≡ none
  unfolding fill_delta
  fill_delta-none fuel k delta h = fill_from-none fuel (k.min +ℤ pos 1) k delta (ground arith)

  -- The top of a stack, if there is one.
  abbrev pub top_of : List V → Option V
  top_of [] = none
  top_of (c ∷ cs) = some c

  -- One round of the loop of `operator Tuple`.
  find-entry :
      (l : List V) (d e : ℤ) (rest : List (ℤ × V))
      → (find e rest ≡ none) ⊎ (eqb_ℤ e d ≡ false)
      → find e (elim l [ [] ↦ rest | c ∷ cs ↦ (d, c) ∷ rest ])
        ≡ (if eqb_ℤ e d then top_of l else find e rest)
  unfolding find
  find-entry [] d e rest (inl h) = ground arith
  find-entry [] d e rest (inr h) = ground arith
  find-entry (c ∷ cs) d e rest h = ground arith

  find-tuple_from :
      (n : ℕ) (d e : ℤ) (k : Context V)
      → k.min <ℤ d
      → find e (tuple_from n d k) ≡ (
          if leb_ℤ d e
          then (if ltb_ℤ e (d +ℤ pos n) then top_of (stack_at k.slots (make_index k e)) else none)
          else none)
  unfolding find tuple_from
  find-tuple_from zero d e k h = ground (arith, +ℤ_parts d (pos 0))
  find-tuple_from (suc n) d e k h =
      let later : k.min <ℤ d +ℤ pos 1 = ground (arith, +ℤ_parts d (pos 1)) in
      let rest = find-tuple_from n (d +ℤ pos 1) e k later in
      find-entry (stack_at k.slots (make_index k d)) d e (tuple_from n (d +ℤ pos 1) k)
        (elim (Bool-cases (eqb_ℤ e d)) [
          | inl same ↦ inl (rest ∙ ground (arith, +ℤ_parts d (pos 1)))
          | inr other ↦ inr other
        ])
      ∙ elim (Bool-cases (eqb_ℤ e d)) [
        | inl same ↦ rw same (
            let here : e ≡ d = (eqb_ℤ_iff e d).0 same in
            rw here (ground (arith, +ℤ_parts d (pos (suc n)))))
        | inr other ↦ rw other (
            rest
            ∙ ground (
              arith,
              +ℤ_parts d (pos 1),
              +ℤ_parts d (pos (suc n)),
              +ℤ_parts (d +ℤ pos 1) (pos n),
            ))
      ]

module _ {V : Type 0} (all : V) where
  -- `operator Tuple` of a valid context lists the dimensions that have ordinates, each with its
  -- current one, and no others.
  pub find-to_tuple :
      (k : Context V) (d : ℤ) → IsValid all k → find d (to_tuple k) ≡ top_of (stack_of k d)
  unfolding to_tuple
  find-to_tuple k d v =
      find-tuple_from (minus k.max k.min - 1) (k.min +ℤ pos 1) d k
        (ground (arith, +ℤ_parts k.min (pos 1)))
      ∙ ground (
        arith,
        v.size,
        v.min_neg,
        v.max_nonneg,
        +ℤ_parts k.min (pos 1),
        +ℤ_parts (k.min +ℤ pos 1) (pos (minus k.max k.min - 1)),
        stack_at_past all k.slots (make_index k d),
      )
