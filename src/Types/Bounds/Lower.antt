-- ===== src/Types/Bounds/Lower.antt =====
-- The greatest lower bounds of constants, atomic types and unions, by the constants that these stand for
-- (`construct_glb` of src/libs/system/tyinf/type.cpp).
use trans_lucid.Prelude.{
  ℕ, Bool, true, false, ◌&&◌, Option, some, ◌≡◌, ◌↔◌, refl, if◌then◌else◌, ◌==◌, arith,
}
use trans_lucid.Ordered.{StrictOrder}
use trans_lucid.Types.{TypeTerm, bot, constant, atomic, union}
use trans_lucid.Types.Atomics.{AtomicUnion, atomic_in, constant_in, intersection}
use trans_lucid.Types.Atomics.Laws.{constant_in-intersection}
use trans_lucid.Types.Bounds.{build_glb, glb_with, construct_glb}
use trans_lucid.Types.Bounds.Elementary.{
  stands, IsElementary, is_constant, is_atomic, is_union, keep,
}

module _ {C : Type 0} (index : C → ℕ) (beq : C → C → Bool) {lt : C → C → Bool} (o : StrictOrder lt)
    (beq_iff : (a b : C) → (beq a b ≡ true) ↔ (a ≡ b)) where
  glb_with_elementary :
      (f : TypeTerm C → Option (TypeTerm C)) {a b : TypeTerm C}
      → IsElementary index beq o beq_iff a
      → IsElementary index beq o beq_iff b
      → glb_with f a b ≡ f b
  unfolding glb_with
  glb_with_elementary f (is_constant a) (is_constant b) = keep index beq o beq_iff (f _)
  glb_with_elementary f (is_constant a) (is_atomic m j) = keep index beq o beq_iff (f _)
  glb_with_elementary f (is_constant a) (is_union v k) = keep index beq o beq_iff (f _)
  glb_with_elementary f (is_atomic n i) (is_constant b) = keep index beq o beq_iff (f _)
  glb_with_elementary f (is_atomic n i) (is_atomic m j) = keep index beq o beq_iff (f _)
  glb_with_elementary f (is_atomic n i) (is_union v k) = keep index beq o beq_iff (f _)
  glb_with_elementary f (is_union u h) (is_constant b) = keep index beq o beq_iff (f _)
  glb_with_elementary f (is_union u h) (is_atomic m j) = keep index beq o beq_iff (f _)
  glb_with_elementary f (is_union u h) (is_union v k) = keep index beq o beq_iff (f _)

  -- Where the greatest lower bound leaves constants out: a union with a union or an atomic type.
  abbrev pub leaves_out : TypeTerm C → TypeTerm C → Bool
  leaves_out (union u) (union v) = true
  leaves_out (union u) (atomic m j) = true
  leaves_out (atomic n i) (union v) = true
  leaves_out _ _ = false

  abbrev IsGlb : TypeTerm C → TypeTerm C → Option (TypeTerm C) → Type 0
  IsGlb a b r =
      (t : TypeTerm C) × (r ≡ some t)
      × ((c : C)
          → (stands index beq lt c t ≡ true
              → (stands index beq lt c a && stands index beq lt c b) ≡ true)
            × (leaves_out a b ≡ false
                → stands index beq lt c t ≡ (stands index beq lt c a && stands index beq lt c b)))

  IsGlb-if :
      (a b : TypeTerm C) (t : Bool) (x y : Option (TypeTerm C))
      → (t ≡ true → IsGlb a b x)
      → (t ≡ false → IsGlb a b y)
      → IsGlb a b (if t then x else y)
  IsGlb-if a b true x y hx hy = hx refl
  IsGlb-if a b false x y hx hy = hy refl

  both_in :
      (c : C) (u v : AtomicUnion C)
      → constant_in index lt c (intersection index lt u v) ≡ true
      → (constant_in index lt c u && constant_in index lt c v) ≡ true
  both_in c u v h = unfold constant_in in ground (arith, constant_in-intersection index o c u v)

  build_glb-IsGlb :
      {a b : TypeTerm C}
      → IsElementary index beq o beq_iff a
      → IsElementary index beq o beq_iff b
      → IsGlb a b (build_glb index beq lt a b)
  unfolding build_glb
  build_glb-IsGlb (is_constant a) (is_constant b) =
      IsGlb-if (constant a) (constant b) (beq a b) _ _
        (λ e. (constant a, refl, λ c. ground (arith, beq_iff a b)))
        (λ e. (bot, refl, λ c. ground (arith, beq_iff a b, beq_iff c a, beq_iff c b)))
  build_glb-IsGlb (is_atomic n i) (is_constant b) =
      IsGlb-if (atomic n i) (constant b) (index b == i) _ _
        (λ e. (constant b, refl, λ c. ground (arith, beq_iff c b)))
        (λ e. (bot, refl, λ c. ground (arith, beq_iff c b)))
  build_glb-IsGlb (is_constant a) (is_atomic n i) =
      IsGlb-if (constant a) (atomic n i) (index a == i) _ _
        (λ e. (constant a, refl, λ c. ground (arith, beq_iff c a)))
        (λ e. (bot, refl, λ c. ground (arith, beq_iff c a)))
  build_glb-IsGlb (is_atomic n i) (is_atomic m j) =
      IsGlb-if (atomic n i) (atomic m j) (i == j) _ _ (λ e. (atomic n i, refl, λ c. ground arith))
        (λ e. (bot, refl, λ c. ground arith))
  build_glb-IsGlb (is_union u p) (is_union v q) =
      (union (intersection index lt u v), refl, λ c. ground (arith, both_in c u v))
  build_glb-IsGlb (is_union u p) (is_constant b) =
      IsGlb-if (union u) (constant b) (constant_in index lt b u) _ _
        (λ e. (constant b, refl, λ c. ground (arith, beq_iff c b)))
        (λ e. (bot, refl, λ c. ground (arith, beq_iff c b)))
  build_glb-IsGlb (is_constant a) (is_union v q) =
      IsGlb-if (constant a) (union v) (constant_in index lt a v) _ _
        (λ e. (constant a, refl, λ c. ground (arith, beq_iff c a)))
        (λ e. (bot, refl, λ c. ground (arith, beq_iff c a)))
  build_glb-IsGlb (is_union u p) (is_atomic m j) =
      IsGlb-if (union u) (atomic m j) (atomic_in j u) _ _
        (λ e. (atomic m j, refl, λ c. unfold constant_in atomic_in in ground arith))
        (λ e. (bot, refl, λ c. ground arith))
  build_glb-IsGlb (is_atomic n i) (is_union v q) =
      IsGlb-if (atomic n i) (union v) (atomic_in i v) _ _
        (λ e. (atomic n i, refl, λ c. unfold constant_in atomic_in in ground arith))
        (λ e. (bot, refl, λ c. ground arith))

  -- The greatest lower bound of two constants, atomic types or normal unions is never refused, and
  -- stands for constants of both only; for all of them, unless a union meets a union or an atomic type.
  pub construct_glb_lem :
      {a b : TypeTerm C}
      → IsElementary index beq o beq_iff a
      → IsElementary index beq o beq_iff b
      → (t : TypeTerm C) × (construct_glb index beq lt a b ≡ some t)
        × ((c : C)
            → (stands index beq lt c t ≡ true
                → (stands index beq lt c a && stands index beq lt c b) ≡ true)
              × (leaves_out a b ≡ false
                  → stands index beq lt c t ≡ (stands index beq lt c a && stands index beq lt c b)))
  unfolding construct_glb
  construct_glb_lem {a} {b} p q =
      rw (glb_with_elementary (build_glb index beq lt a) p q) (build_glb-IsGlb p q)
