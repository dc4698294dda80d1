-- ===== src/Context/Stacks.antt =====
-- The context as a map from dimensions to stacks: what `perturb`, `restore` and `lookup` of
-- src/libs/system/context.cpp and src/include/tl/context.hpp do to it.
use trans_lucid.Prelude.{
  ℕ, zero, suc, ◌+◌, ◌-◌, ◌≤◌, ◌<◌, ◌≡◌, refl, ap, ap₂, ◌∙◌, true, none, some, List, [], ◌∷◌, ◌++◌,
  replicate, if◌then◌else◌, get_elem?, length, length-append, length-replicate, arith, ◌==◌, inl,
  inr, leb, Bool-cases,
}
use trans_lucid.Prelude.Int.{ℤ, pos, leb_ℤ, eqb_ℤ, minus, ◌≤ℤ◌, ◌<ℤ◌, eqb_ℤ_iff, +ℤ_parts, -ℤ_parts}
use trans_lucid.Context.{
  Context, Slot, stack_at, push_at, blank, top_or, make_index, grow, grow_back, grow_front, perturb,
  lookup,
}

module _ {V : Type 0} where
  -- The stack of a dimension, empty where the deque has no place for it.
  abbrev pub stack_of : Context V → ℤ → List V
  stack_of k d = if leb_ℤ d k.min then [] else stack_at k.slots (make_index k d)

module _ {V : Type 0} (all : V) where
  -- Each place of the deque caches the top of its stack.
  abbrev pub AllTops : List (Slot V) → Type 0
  AllTops [] = Unit
  AllTops (s ∷ ss) = (s.first ≡ top_or all s.stack) × AllTops ss

  pub record IsValid (k : Context V) : Type 0 where
    pub min_neg : k.min <ℤ pos 0
    pub max_nonneg : pos 0 ≤ℤ k.max
    pub size : length k.slots + 1 ≡ minus k.max k.min
    pub tops : AllTops k.slots

  stack_at-append_blank :
      (ss : List (Slot V)) (n i : ℕ) → stack_at (ss ++ replicate n (blank all)) i ≡ stack_at ss i
  stack_at-append_blank [] zero i = refl
  stack_at-append_blank [] (suc n) zero = refl
  stack_at-append_blank [] (suc n) (suc i) = stack_at-append_blank [] n i
  stack_at-append_blank (s ∷ ss) n zero = refl
  stack_at-append_blank (s ∷ ss) n (suc i) = stack_at-append_blank ss n i

  stack_at-prepend_blank :
      (ss : List (Slot V)) (n i : ℕ)
      → stack_at (replicate n (blank all) ++ ss) i ≡ (if leb n i then stack_at ss (i - n) else [])
  stack_at-prepend_blank ss zero i = ground arith
  stack_at-prepend_blank ss (suc n) zero = ground arith
  stack_at-prepend_blank ss (suc n) (suc i) = ground (arith, stack_at-prepend_blank ss n i)

  stack_at-push_at :
      (ss : List (Slot V)) (i j : ℕ) (c : V)
      → i < length ss
      → stack_at (push_at ss i c) j ≡ (if i == j then c ∷ stack_at ss i else stack_at ss j)
  stack_at-push_at [] i j c h = absurd (omega arith)
  stack_at-push_at (s ∷ ss) zero zero c h = refl
  stack_at-push_at (s ∷ ss) zero (suc j) c h = ground arith
  stack_at-push_at (s ∷ ss) (suc i) zero c h = ground arith
  stack_at-push_at (s ∷ ss) (suc i) (suc j) c h = ground (arith, stack_at-push_at ss i j c)

  length-push_at : (ss : List (Slot V)) (i : ℕ) (c : V) → length (push_at ss i c) ≡ length ss
  length-push_at [] i c = refl
  length-push_at (s ∷ ss) zero c = refl
  length-push_at (s ∷ ss) (suc i) c = ap suc (length-push_at ss i c)

  AllTops-push_at : (ss : List (Slot V)) (i : ℕ) (c : V) → AllTops ss → AllTops (push_at ss i c)
  AllTops-push_at [] i c h = h
  AllTops-push_at (s ∷ ss) zero c h = (refl, h.1)
  AllTops-push_at (s ∷ ss) (suc i) c h = (h.0, AllTops-push_at ss i c h.1)

  AllTops-append : (xs ys : List (Slot V)) → AllTops xs → AllTops ys → AllTops (xs ++ ys)
  AllTops-append [] ys h k = k
  AllTops-append (x ∷ xs) ys h k = (h.0, AllTops-append xs ys h.1 k)

  AllTops-blank : (n : ℕ) → AllTops (replicate n (blank all))
  AllTops-blank zero = tt
  AllTops-blank (suc n) = (refl, AllTops-blank n)

  stack_of-push_at :
      (d e : ℤ) (k : Context V) (c : V)
      → IsValid k
      → k.min <ℤ d
      → d <ℤ k.max
      → stack_of (record k { slots = push_at k.slots (make_index k d) c }) e
        ≡ (if eqb_ℤ d e then c ∷ stack_of k d else stack_of k e)
  stack_of-push_at d e k c v h m =
      ground (arith, v.size, stack_at-push_at k.slots (make_index k d) (make_index k e) c)

  same_stack :
      (d e : ℤ) (k : Context V) (c : V) (s : List V)
      → (if eqb_ℤ d e then c ∷ stack_of k d else s) ≡ (if eqb_ℤ d e then c ∷ stack_of k e else s)
  same_stack d e k c s = elim (Bool-cases (eqb_ℤ d e)) [
    | inl same ↦ rw same (ap (λ x. c ∷ stack_of k x) ((eqb_ℤ_iff d e).0 same))
    | inr other ↦ rw other
  ]

  module _ (d : ℤ) (k : Context V) (v : IsValid k) where
    grow_back-IsValid : leb_ℤ k.max d ≡ true → IsValid (grow_back all d k)
    unfolding grow_back
    grow_back-IsValid h = record {
      min_neg = v.min_neg;
      max_nonneg = ground (arith, +ℤ_parts d (pos 1), v.max_nonneg);
      size = ground (
        arith,
        v.size,
        v.min_neg,
        v.max_nonneg,
        +ℤ_parts d (pos 1),
        length-append k.slots (replicate (minus d k.max + 1) (blank all)),
        length-replicate (minus d k.max + 1) (blank all),
      );
      tops = AllTops-append k.slots _ v.tops (AllTops-blank _);
    }

    grow_front-IsValid : leb_ℤ d k.min ≡ true → IsValid (grow_front all d k)
    unfolding grow_front
    grow_front-IsValid h = record {
      min_neg = ground (arith, -ℤ_parts d (pos 1), v.min_neg);
      max_nonneg = v.max_nonneg;
      size = ground (
        arith,
        v.size,
        v.min_neg,
        v.max_nonneg,
        -ℤ_parts d (pos 1),
        length-append (replicate (minus k.min d + 1) (blank all)) k.slots,
        length-replicate (minus k.min d + 1) (blank all),
      );
      tops = AllTops-append _ k.slots (AllTops-blank _) v.tops;
    }

    grow-IsValid : IsValid (grow all d k)
    unfolding grow
    grow-IsValid = elim (Bool-cases (leb_ℤ k.max d)) [
      | inl up ↦ rw up (grow_back-IsValid up)
      | inr in_max ↦ rw in_max (elim (Bool-cases (leb_ℤ d k.min)) [
        | inl down ↦ rw down (grow_front-IsValid down)
        | inr in_min ↦ rw in_min v
      ])
    ]

    -- There is a place for the dimension.
    grow_room : ((grow all d k).min <ℤ d) × (d <ℤ (grow all d k).max)
    unfolding grow
    grow_room = elim (Bool-cases (leb_ℤ k.max d)) [
      | inl up ↦
          rw up (unfold grow_back in ground (arith, +ℤ_parts d (pos 1), v.min_neg, v.max_nonneg))
      | inr in_max ↦ rw in_max (elim (Bool-cases (leb_ℤ d k.min)) [
        | inl down ↦
            rw down
              (unfold grow_front in ground (arith, -ℤ_parts d (pos 1), v.min_neg, v.max_nonneg))
        | inr in_min ↦ rw in_min (ground arith)
      ])
    ]

    stack_of-grow_front :
        leb_ℤ d k.min ≡ true → (e : ℤ) → stack_of (grow_front all d k) e ≡ stack_of k e
    unfolding grow_front
    stack_of-grow_front h e = ground (
      arith,
      -ℤ_parts d (pos 1),
      stack_at-prepend_blank k.slots (minus k.min d + 1) (make_index (grow_front all d k) e),
    )

    stack_of-grow : (e : ℤ) → stack_of (grow all d k) e ≡ stack_of k e
    unfolding grow
    stack_of-grow e = elim (Bool-cases (leb_ℤ k.max d)) [
      | inl up ↦ rw up (unfold grow_back in rw stack_at-append_blank)
      | inr in_max ↦ rw in_max (elim (Bool-cases (leb_ℤ d k.min)) [
        | inl down ↦ rw down (stack_of-grow_front down e)
        | inr in_min ↦ rw in_min
      ])
    ]

    -- On a valid context `perturb` leaves a valid context, whatever the dimension: the deque has
    -- the size that its bounds say, and each place caches the top of its stack.
    pub perturb-IsValid : (c : V) → IsValid (perturb all d c k)
    unfolding perturb
    perturb-IsValid c = record {
      min_neg = grow-IsValid.min_neg;
      max_nonneg = grow-IsValid.max_nonneg;
      size = rw length-push_at grow-IsValid.size;
      tops = AllTops-push_at _ _ c grow-IsValid.tops;
    }

    -- On a valid context `perturb` pushes on the stack of the dimension, and leaves the stacks of
    -- all others as they are.
    pub stack_of-perturb :
        (c : V) (e : ℤ)
        → stack_of (perturb all d c k) e ≡ (if eqb_ℤ d e then c ∷ stack_of k e else stack_of k e)
    unfolding perturb
    stack_of-perturb c e =
        stack_of-push_at d e (grow all d k) c grow-IsValid grow_room.0 grow_room.1
        ∙ ap₂ (λ s t. if eqb_ℤ d e then c ∷ s else t) (stack_of-grow d) (stack_of-grow e)
        ∙ same_stack d e k c (stack_of k e)

  cached_top :
      (ss : List (Slot V)) (i : ℕ)
      → AllTops ss
      → (elim (get_elem? ss i) [ none ↦ all | some s ↦ s.first ]) ≡ top_or all (stack_at ss i)
  cached_top [] i h = refl
  cached_top (s ∷ ss) zero h = h.0
  cached_top (s ∷ ss) (suc i) h = cached_top ss i h.1

  pub stack_at_past : (ss : List (Slot V)) (i : ℕ) → length ss ≤ i → stack_at ss i ≡ []
  stack_at_past [] i h = refl
  stack_at_past (s ∷ ss) zero h = absurd (omega arith)
  stack_at_past (s ∷ ss) (suc i) h = stack_at_past ss i (omega arith)

  -- On a valid context `lookup` reads the top of the stack, and `all` where there is none.
  pub lookup-stack_of :
      (k : Context V) (d : ℤ) → IsValid k → lookup all k d ≡ top_or all (stack_of k d)
  unfolding lookup
  lookup-stack_of k d v = ground (
    arith,
    v.size,
    cached_top k.slots (make_index k d) v.tops,
    stack_at_past k.slots (make_index k d),
  )
