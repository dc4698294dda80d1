-- ===== src/Types/Bounds/Elementary.antt =====
-- The bounds of constants, atomic types and unions, by the constants that these stand for
-- (`construct_lub` of src/libs/system/tyinf/type.cpp).
use trans_lucid.Prelude.{
  ℕ, Bool, true, false, ◌||◌, Option, none, some, List, [], ◌≡◌, ◌↔◌, refl, subst, ltb,
  if◌then◌else◌, ◌==◌, arith,
}
use trans_lucid.Ordered.{StrictOrder}
use trans_lucid.OrderedSet.{has, same, same_iff}
use trans_lucid.Types.{TypeTerm, constant, atomic, union, lub}
use trans_lucid.Types.Atomics.{
  AtomicUnion, ◌>>=◌, copied, empty_union, add_constant, add_atomic, constant_in,
}
use trans_lucid.Types.Atomics.Laws.{
  IsNormal, empty-IsNormal, constant_in-empty, add_constant-IsNormal, copied-IsNormal,
  constant_in-copied, constant_in-add_constant, Free, add_atomic_lem, join_lem,
}
use trans_lucid.Types.Bounds.{build_lub, lub_with, finish, construct_lub}

module _ {C : Type 0} (index : C → ℕ) (beq lt : C → C → Bool) where
  -- The constants that a type stands for.
  abbrev pub stands : C → TypeTerm C → Bool
  stands c (constant a) = beq c a
  stands c (atomic n i) = index c == i
  stands c (union u) = constant_in index lt c u
  stands c _ = false

module _ {C : Type 0} (index : C → ℕ) (beq : C → C → Bool) {lt : C → C → Bool} (o : StrictOrder lt)
    (beq_iff : (a b : C) → (beq a b ≡ true) ↔ (a ≡ b)) where
  pub data IsElementary : TypeTerm C → Type 0 where
    is_constant : (a : C) → IsElementary (constant a)
    is_atomic : (n : List ℕ) (i : ℕ) → IsElementary (atomic n i)
    is_union : (u : AtomicUnion C) → IsNormal index o u → IsElementary (union u)

  -- No atomic type of `b` covers a constant of the union `a`, of which the code takes a copy; where
  -- only `b` is a union, the copy is of that one.
  abbrev pub Apart : TypeTerm C → TypeTerm C → Type 0
  Apart (union u) (union v) =
      (c : C) → has lt c u.constants ≡ true → has ltb (index c) v.atomics ≡ false
  Apart (union u) (atomic m j) = Free index o j u
  Apart (atomic n i) (union v) = Free index o i v
  Apart _ _ = Unit

  -- A type that stands for the constants of both.
  abbrev IsLub : TypeTerm C → TypeTerm C → Option (TypeTerm C) → Type 0
  IsLub a b r =
      (t : TypeTerm C) × (r ≡ some t)
      × IsElementary t
      × ((c : C) → stands index beq lt c t ≡ (stands index beq lt c a || stands index beq lt c b))

  beq_same : (c d : C) → beq c d ≡ same lt c d
  beq_same c d = ground (arith, beq_iff c d, same_iff o c d)

  IsLub-if :
      (a b : TypeTerm C) (t : Bool) (x y : Option (TypeTerm C))
      → (t ≡ true → IsLub a b x)
      → (t ≡ false → IsLub a b y)
      → IsLub a b (if t then x else y)
  IsLub-if a b true x y hx hy = hx refl
  IsLub-if a b false x y hx hy = hy refl

  -- The union of two constants or atomic types, as the visitor builds it.
  build_union :
      (a b : TypeTerm C) (u : AtomicUnion C)
      → IsNormal index o u
      → ((c : C) → constant_in index lt c u ≡ (stands index beq lt c a || stands index beq lt c b))
      → IsLub a b (some (union u))
  build_union a b u n h = (union u, refl, is_union u n, h)

  abbrev one_constant : (a : C) → AtomicUnion C
  one_constant a = add_constant index lt a empty_union

  one_constant-IsNormal : (a : C) → IsNormal index o (one_constant a)
  one_constant-IsNormal a = add_constant-IsNormal index o a empty_union (empty-IsNormal index o)

  constant_in-one_constant : (c a : C) → constant_in index lt c (one_constant a) ≡ beq c a
  constant_in-one_constant c a = ground (
    arith,
    constant_in-add_constant index o c a empty_union,
    constant_in-empty index o c,
    beq_same c a,
  )

  -- The union of one atomic type.
  abbrev OneAtomic : ℕ → AtomicUnion C → Type 0
  OneAtomic i u =
      (add_atomic index lt i empty_union ≡ some u)
      × IsNormal index o u
      × (u.constants ≡ [])
      × ((c : C) → constant_in index lt c u ≡ (index c == i))

  one_atomic : (i : ℕ) → (u : AtomicUnion C) × OneAtomic i u
  one_atomic i =
      let (u, e, (n, same_constants, h)) =
        add_atomic_lem index o i empty_union (empty-IsNormal index o)
          (λ c p. unfold has in ground (arith, p)) in
      (u, (e, n, same_constants, λ c. ground (arith, h c, constant_in-empty index o c)))

  union-constant :
      (a : TypeTerm C) (b : C) (u : AtomicUnion C)
      → IsNormal index o u
      → ((c : C) → constant_in index lt c u ≡ stands index beq lt c a)
      → IsLub a (constant b) (some (union (add_constant index lt b u)))
  union-constant a b u n h =
      build_union a (constant b) (add_constant index lt b u) (add_constant-IsNormal index o b u n)
        (λ c. ground (arith, constant_in-add_constant index o c b u, h c, beq_same c b))

  union-atomic :
      (a : TypeTerm C) (m : List ℕ) (j : ℕ) (u : AtomicUnion C)
      → IsNormal index o u
      → Free index o j u
      → ((c : C) → constant_in index lt c u ≡ stands index beq lt c a)
      → IsLub a (atomic m j) (add_atomic index lt j u >>= λ w. some (union w))
  union-atomic a m j u n f h =
      let (w, e, (n', k, h')) = add_atomic_lem index o j u n f in
      rw e (build_union a (atomic m j) w n' (λ c. ground (arith, h' c, h c)))

  flip : (a b : TypeTerm C) (r : Option (TypeTerm C)) → IsLub a b r → IsLub b a r
  flip a b r (t, e, n, h) = (t, e, n, λ c. ground (arith, h c))

  constant_atomic :
      (a : C) (n : List ℕ) (i : ℕ)
      → IsLub (atomic n i) (constant a) (
          if i == index a
          then some (atomic n i)
          else (add_atomic index lt i empty_union >>= λ u.
              some (union (add_constant index lt a u))))
  constant_atomic a n i =
      IsLub-if (atomic n i) (constant a) (i == index a) _ _
        (λ e. (atomic n i, refl, is_atomic n i, λ c. ground (arith, beq_iff c a)))
        (λ e.
          let (u, (q, k, same_constants, h)) = one_atomic i in
          rw q (union-constant (atomic n i) a u k h))

  atomic_atomic :
      (n m : List ℕ) (i j : ℕ)
      → IsLub (atomic n i) (atomic m j) (
          if i == j
          then some (atomic n i)
          else (add_atomic index lt i empty_union >>= λ u.
              add_atomic index lt j u >>= λ w. some (union w)))
  atomic_atomic n m i j =
      IsLub-if (atomic n i) (atomic m j) (i == j) _ _
        (λ e. (atomic n i, refl, is_atomic n i, λ c. ground arith))
        (λ e.
          let (u, (q, k, same_constants, h)) = one_atomic i in
          rw q (
            union-atomic (atomic n i) m j u k
              (λ c p.
                let r = subst (λ l. has lt c l ≡ true) same_constants p in
                unfold has in ground (arith, r))
              h))

  build_lub-IsLub :
      {a b : TypeTerm C}
      → IsElementary a
      → IsElementary b
      → Apart a b
      → IsLub a b (build_lub index beq lt a b)
  unfolding build_lub copied
  build_lub-IsLub (is_constant a) (is_constant b) f =
      IsLub-if (constant a) (constant b) (beq a b) _ _
        (λ e. (constant a, refl, is_constant a, λ c. ground (arith, beq_iff a b)))
        (λ e.
          union-constant (constant a) b (one_constant a) (one_constant-IsNormal a)
            (λ c. constant_in-one_constant c a))
  build_lub-IsLub (is_atomic n i) (is_constant b) f = constant_atomic b n i
  build_lub-IsLub (is_constant a) (is_atomic n i) f =
      flip (atomic n i) (constant a) _ (constant_atomic a n i)
  build_lub-IsLub (is_atomic n i) (is_atomic m j) f = atomic_atomic n m i j
  build_lub-IsLub (is_union u p) (is_union v q) f =
      let (w, e, n, h) = join_lem index o (copied u) v (copied-IsNormal index o u p) f in
      rw e (
        build_union (union u) (union v) w n
          (λ c. ground (arith, h c, constant_in-copied index o c u)))
  build_lub-IsLub (is_union u p) (is_constant b) f =
      union-constant (union u) b (copied u) (copied-IsNormal index o u p)
        (λ c. constant_in-copied index o c u)
  build_lub-IsLub (is_union u p) (is_atomic m j) f =
      union-atomic (union u) m j (copied u) (copied-IsNormal index o u p) f
        (λ c. constant_in-copied index o c u)
  build_lub-IsLub (is_constant a) (is_union v q) f = flip (union v) (constant a) _ (
      union-constant (union v) a (copied v) (copied-IsNormal index o v q)
        (λ c. constant_in-copied index o c v))
  build_lub-IsLub (is_atomic n i) (is_union v q) f = flip (union v) (atomic n i) _ (
      union-atomic (union v) n i (copied v) (copied-IsNormal index o v q) f
        (λ c. constant_in-copied index o c v))

  pub keep : (r : Option (TypeTerm C)) → (r >>= λ t. some (finish lub [] t)) ≡ r
  keep none = refl
  keep (some t) = refl

  lub_with_elementary :
      (f : TypeTerm C → Option (TypeTerm C)) {a b : TypeTerm C}
      → IsElementary a
      → IsElementary b
      → lub_with f a b ≡ f b
  unfolding lub_with
  lub_with_elementary f (is_constant a) (is_constant b) = keep (f _)
  lub_with_elementary f (is_constant a) (is_atomic m j) = keep (f _)
  lub_with_elementary f (is_constant a) (is_union v k) = keep (f _)
  lub_with_elementary f (is_atomic n i) (is_constant b) = keep (f _)
  lub_with_elementary f (is_atomic n i) (is_atomic m j) = keep (f _)
  lub_with_elementary f (is_atomic n i) (is_union v k) = keep (f _)
  lub_with_elementary f (is_union u h) (is_constant b) = keep (f _)
  lub_with_elementary f (is_union u h) (is_atomic m j) = keep (f _)
  lub_with_elementary f (is_union u h) (is_union v k) = keep (f _)

  -- Take two constants, atomic types or normal unions. Where the first is a union, let no atomic type
  -- of the second cover one of its constants, and where only the second is a union, let the first cover
  -- none of its constants. Then the least upper bound is never refused or undefined, is again one of
  -- these, and stands for the constants of both and no others.
  pub construct_lub_lem :
      {a b : TypeTerm C}
      → IsElementary a
      → IsElementary b
      → Apart a b
      → (t : TypeTerm C) × (construct_lub index beq lt a b ≡ some t)
        × IsElementary t
        × ((c : C) → stands index beq lt c t ≡ (stands index beq lt c a || stands index beq lt c b))
  unfolding construct_lub
  construct_lub_lem {a} {b} p q f =
      rw (lub_with_elementary (build_lub index beq lt a) p q) (build_lub-IsLub p q f)
