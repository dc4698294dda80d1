-- ===== src/Types/Atomics/Laws.antt =====
-- What the operations of `TypeAtomicUnion` in src/libs/system/tyinf/type.cpp do to the constants that
-- a union stands for.
use trans_lucid.Prelude.{
  some, subst, ◌∙◌, ap, ℕ, Bool, true, false, ◌&&◌, ◌||◌, List, [], ◌∷◌, ◌++◌, ◌≡◌, refl,
  if◌then◌else◌, ltb, ◌==◌, arith, Bool-cases, inl, inr,
}
use trans_lucid.Ordered.{StrictOrder, ltb_order}
use trans_lucid.OrderedSet.{erase_all, insert, same, has, same_iff, has-insert, has-intersect}
use trans_lucid.Types.Atomics.{
  IndexMap, Iterator, AtomicUnion, stray, map_copy, copied, values, all_own, empty_union, map_push,
  map_at, map_erase, add_constant, add_atomic, add_atomics, add_constants, join, constant_in,
  intersection,
}

module _ {C : Type 0} where
  map_at-map_push :
      (i j : ℕ) (c : C) (m : IndexMap C)
      → map_at i (map_push j c m) ≡ (if i == j then map_at i m ++ c ∷ [] else map_at i m)
  unfolding map_at map_push
  map_at-map_push i j c [] = ground arith
  map_at-map_push i j c ((k, cs) ∷ m) = ground (arith, map_at-map_push i j c m)

  map_at-map_erase :
      (i j : ℕ) (m : IndexMap C) → map_at i (map_erase j m) ≡ (if i == j then [] else map_at i m)
  unfolding map_at map_erase
  map_at-map_erase i j [] = ground arith
  map_at-map_erase i j ((k, cs) ∷ m) = ground (arith, map_at-map_erase i j m)

  values-stray : (l : List (Iterator C)) → values (stray l) ≡ values l
  unfolding values stray
  values-stray [] = refl
  values-stray ((own, c) ∷ l) = ap (λ r. c ∷ r) (values-stray l)

  map_at-map_copy : (i : ℕ) (m : IndexMap (Iterator C)) → map_at i (map_copy m) ≡ stray (map_at i m)
  unfolding map_at map_copy stray
  map_at-map_copy i [] = refl
  map_at-map_copy i ((j, l) ∷ m) = ground (arith, map_at-map_copy i m)

module _ {C : Type 0} (index : C → ℕ) {lt : C → C → Bool} (o : StrictOrder lt) where
  -- No constant is covered by an atomic type, and the map lists the constants by their index.
  pub record IsNormal (u : AtomicUnion C) : Type 0 where
    pub uncovered : (c : C) → has lt c u.constants ≡ true → has ltb (index c) u.atomics ≡ false
    pub mapped :
        (c : C) (i : ℕ)
        → has lt c (values (map_at i u.atomic_map)) ≡ (has lt c u.constants && index c == i)

  pub empty-IsNormal : IsNormal empty_union
  unfolding has map_at values
  empty-IsNormal = record { uncovered = λ c h. ground arith; mapped = λ c i. refl }

  pub constant_in-empty : (c : C) → constant_in index lt c empty_union ≡ false
  unfolding constant_in has
  constant_in-empty c = refl

  has-snoc :
      (a : C) (x : Iterator C) (l : List (Iterator C))
      → has lt a (values (l ++ x ∷ [])) ≡ (same lt a x.1 || has lt a (values l))
  unfolding has values
  has-snoc a (own, b) [] = refl
  has-snoc a (own, b) ((own', c) ∷ l) = ground (arith, has-snoc a (own, b) l)

  -- A copy stands for the same constants, and is as normal.
  pub copied-IsNormal : (u : AtomicUnion C) → IsNormal u → IsNormal (copied u)
  unfolding copied
  copied-IsNormal u n = record {
    uncovered = n.uncovered;
    mapped = λ c i.
        ap (λ l. has lt c (values l)) (map_at-map_copy i u.atomic_map)
        ∙ ap (has lt c) (values-stray (map_at i u.atomic_map))
        ∙ n.mapped c i;
  }

  pub constant_in-copied :
      (c : C) (u : AtomicUnion C) → constant_in index lt c (copied u) ≡ constant_in index lt c u
  unfolding copied constant_in
  constant_in-copied c u = refl

  pub add_constant-IsNormal :
      (c : C) (u : AtomicUnion C) → IsNormal u → IsNormal (add_constant index lt c u)
  unfolding add_constant
  add_constant-IsNormal c u n = elim (Bool-cases (has ltb (index c) u.atomics)) [
    | inl there ↦ rw there n
    | inr free ↦ rw free (elim (Bool-cases (has lt c u.constants)) [
      | inl old ↦ rw old n
      | inr new ↦ rw new (record {
        uncovered =
            λ d h. ground (arith, has-insert o d c u.constants, n.uncovered d, same_iff o d c);
        mapped = λ d i. ground (
          arith,
          has-insert o d c u.constants,
          map_at-map_push i (index c) (true, c) u.atomic_map,
          has-snoc d (true, c) (map_at i u.atomic_map),
          n.mapped d i,
          same_iff o d c,
        );
      })
    ])
  ]

  no_iterators : (l : List (Iterator C)) → ((c : C) → has lt c (values l) ≡ false) → l ≡ []
  unfolding has values
  no_iterators [] h = refl
  no_iterators ((own, c) ∷ l) h = absurd (ground (arith, h c, (same_iff o c c).1 refl))

  -- No constant of the union is of the atomic type.
  abbrev pub Free : ℕ → AtomicUnion C → Type 0
  Free i u = (c : C) → has lt c u.constants ≡ true → (index c == i) ≡ false

  Free-map_at : (i : ℕ) (u : AtomicUnion C) → IsNormal u → Free i u → map_at i u.atomic_map ≡ []
  Free-map_at i u n f =
      no_iterators (map_at i u.atomic_map) (λ c. ground (arith, n.mapped c i, f c))

  -- A union with an atomic type added.
  abbrev pub Added : ℕ → AtomicUnion C → AtomicUnion C → Type 0
  Added i u w =
      IsNormal w
      × (w.constants ≡ u.constants)
      × ((d : C) → constant_in index lt d w ≡ (index d == i || constant_in index lt d u))

  pub add_atomic_lem :
      (i : ℕ) (u : AtomicUnion C)
      → IsNormal u
      → Free i u
      → (w : AtomicUnion C) × (add_atomic index lt i u ≡ some w) × Added i u w
  unfolding add_atomic values all_own erase_all
  add_atomic_lem i u n f = (
    record {
      constants = u.constants;
      atomics = insert ltb i u.atomics;
      atomic_map = map_erase i u.atomic_map;
    },
    rw (Free-map_at i u n f) refl,
    (
      record {
        uncovered =
            λ d h. ground (arith, has-insert ltb_order (index d) i u.atomics, n.uncovered d, f d);
        mapped = λ d j.
            unfold has in
            unfold values in ground (arith, map_at-map_erase j i u.atomic_map, n.mapped d j, f d);
      },
      refl,
      λ d. unfold constant_in in ground (arith, has-insert ltb_order (index d) i u.atomics),
    ),
  )

  pub constant_in-add_constant :
      (d c : C) (u : AtomicUnion C)
      → constant_in index lt d (add_constant index lt c u)
        ≡ (same lt d c || constant_in index lt d u)
  unfolding constant_in add_constant
  constant_in-add_constant d c u = ground (arith, has-insert o d c u.constants, same_iff o d c)

  add_constants-IsNormal :
      (cs : List C) (u : AtomicUnion C) → IsNormal u → IsNormal (add_constants index lt cs u)
  unfolding add_constants
  add_constants-IsNormal [] u n = n
  add_constants-IsNormal (c ∷ cs) u n = add_constants-IsNormal cs _ (add_constant-IsNormal c u n)

  add_atomics_lem :
      (is : List ℕ) (u : AtomicUnion C)
      → IsNormal u
      → ((c : C) → has lt c u.constants ≡ true → has ltb (index c) is ≡ false)
      → (w : AtomicUnion C) × (add_atomics index lt is u ≡ some w)
        × IsNormal w
        × ((d : C) → constant_in index lt d w ≡ (has ltb (index d) is || constant_in index lt d u))
  unfolding add_atomics has
  add_atomics_lem [] u n f = (u, refl, n, λ d. refl)
  add_atomics_lem (i ∷ is) u n f =
      let (v, e, (m, same_constants, h)) = add_atomic_lem i u n (λ c p. ground (arith, f c p)) in
      let (w, e', m', h') =
        add_atomics_lem is v m (λ c p.
          let q = subst (λ l. has lt c l ≡ true) same_constants p in ground (arith, f c q)) in
      (w, rw (e, e') refl, m', λ d. ground (arith, h d, h' d))

  constant_in-add_constants :
      (d : C) (cs : List C) (u : AtomicUnion C)
      → constant_in index lt d (add_constants index lt cs u)
        ≡ (has lt d cs || constant_in index lt d u)
  unfolding add_constants has
  constant_in-add_constants d [] u = refl
  constant_in-add_constants d (c ∷ cs) u = ground (
    arith,
    constant_in-add_constants d cs (add_constant index lt c u),
    constant_in-add_constant d c u,
  )

  -- The join of a normal union with another, whose atomic types cover none of its constants, is
  -- normal, and stands for the constants of both.
  pub join_lem :
      (u v : AtomicUnion C)
      → IsNormal u
      → ((c : C) → has lt c u.constants ≡ true → has ltb (index c) v.atomics ≡ false)
      → (w : AtomicUnion C) × (join index lt u v ≡ some w)
        × IsNormal w
        × ((c : C)
            → constant_in index lt c w ≡ (constant_in index lt c u || constant_in index lt c v))
  unfolding join
  join_lem u v n f =
      let (w, e, m, h) = add_atomics_lem v.atomics u n f in
      (
        add_constants index lt v.constants w,
        rw e refl,
        add_constants-IsNormal v.constants w m,
        λ c. unfold constant_in in ground (arith, constant_in-add_constants c v.constants w, h c),
      )

  -- The intersection has only constants of both unions, and misses just those that one of them has
  -- as a constant and the other only by its atomic type.
  pub constant_in-intersection :
      (c : C) (a b : AtomicUnion C)
      → constant_in index lt c (intersection index lt a b) ≡ (
          (has ltb (index c) a.atomics && has ltb (index c) b.atomics)
          || (has lt c a.constants && has lt c b.constants))
  unfolding constant_in intersection
  constant_in-intersection c a b =
      rw
        (
          has-intersect ltb_order (index c) a.atomics b.atomics,
          has-intersect o c a.constants b.constants,
        )
        refl
