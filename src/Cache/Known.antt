-- ===== src/Cache/Known.antt =====
-- `get` of src/libs/system/cache.cpp where the tree holds a constant for the context, under dimensions
-- of a list: whatever the delta, `get` finds the constant or demands some of these dimensions.
use trans_lucid.Prelude.{
  Bool, true, ◌≡◌, refl, sym, subst, ap, List, [], ◌∷◌, if◌then◌else◌, Bool-cases, inl, inr, ◌∙◌,
  ◌⊎◌,
}
use trans_lucid.Prelude.Int.{ℤ}
use trans_lucid.Cache.Tree.{
  Constant, demand, Result, ok, ◌>>=◌, CacheEntry, constant, level, CacheNode, map_node, entry_node,
  CacheMap, no_binding, bind, Counters,
}
use trans_lucid.Cache.Get.{get_node, get_map, get_entry, answer, hit, update_retirement_age}
use trans_lucid.Cache.Shape.{missing_cases}
use trans_lucid.Cache.Path.{on_true, on_false}
use trans_lucid.Cache.Lookup.{Lacks, Lacks-missing, mem-missing}
use trans_lucid.Workshops.Answers.{NonEmpty}
use trans_lucid.Workshops.Delta.{mem}

abbrev pub In : List ℤ → List ℤ → Type 0
In ds u = (d : ℤ) → mem d ds ≡ true → mem d u ≡ true

module _ {V : Type 0} (beq : Constant V → Constant V → Bool) (k : ℤ → Constant V) (u : List ℤ)
    (v : Constant V) where
  -- The path of the ordinates `k` ends at `v`, and the dimensions of its levels are in the list `u`.
  unfoldable mutual
    pub KnownNode : CacheNode V → List ℤ → Type 0
    KnownNode (map_node m) [] = ⊥
    KnownNode (map_node m) (d ∷ dims) = KnownMap m (k d) dims
    KnownNode (entry_node e) (d ∷ dims) = ⊥
    KnownNode (entry_node e) [] = KnownEntry e

    pub KnownMap : CacheMap V → Constant V → List ℤ → Type 0
    KnownMap no_binding key dims = ⊥
    KnownMap (bind c n m) key dims =
        let here = KnownNode n dims in
        let there = KnownMap m key dims in if beq c key then here else there

    pub KnownEntry : CacheEntry V → Type 0
    KnownEntry (constant c age) = c ≡ v
    KnownEntry (level dims n age) = In dims u × KnownNode n dims

  module _ (sub : ℤ → Bool) where
    -- The constant, or a demand for some dimensions of the list that the delta lacks.
    abbrev pub Gives : Constant V → Type 0
    Gives c = (c ≡ v) ⊎ ((ds : List ℤ) × (c ≡ demand ds) × NonEmpty ds × Lacks sub ds × In ds u)

    abbrev pub Hit : {A : Type 0} → (A → Type 0) → Result (Constant V × A × Counters) → Type 0
    Hit {A} Inv r =
        (c : Constant V) × (a : A) × (s : Counters) × (r ≡ ok (c, a, s)) × Inv a × Gives c

    Hit-map :
        {A B : Type 0} (InvA : A → Type 0) (InvB : B → Type 0) (f : A → B)
        → ((a : A) → InvA a → InvB (f a))
        → (r : Result (Constant V × A × Counters)) → Hit InvA r
        → Hit InvB (r >>= λ (c, a, s). ok (c, f a, s))
    Hit-map InvA InvB f h r (c, a, s, e, i, g) =
        (c, f a, s, ap (λ r. r >>= λ (c, a, s). ok (c, f a, s)) e, h a i, g)

    module _ (never_calc : answer v ≡ v) where
      mutual
        unfolding get_node KnownNode

        pub get_node-Hit :
            (n : CacheNode V) (dims : List ℤ) (s : Counters)
            → KnownNode n dims
            → Hit (λ n'. KnownNode n' dims) (get_node beq k sub n dims s)
        get_node-Hit (map_node m) [] s h = absurd h
        get_node-Hit (map_node m) (d ∷ dims) s h =
            Hit-map (λ m'. KnownMap m' (k d) dims) (λ n'. KnownNode n' (d ∷ dims)) map_node
              (λ m' i. i) (get_map beq k sub m (k d) dims s) (get_map-Hit m (k d) dims s h)
        get_node-Hit (entry_node e) (d ∷ dims) s h = absurd h
        get_node-Hit (entry_node e) [] s h =
            Hit-map KnownEntry (λ n'. KnownNode n' []) entry_node (λ e' i. i)
              (get_entry beq k sub e s) (get_entry-Hit e s h)

        get_map-Hit :
            (m : CacheMap V) (key : Constant V) (dims : List ℤ) (s : Counters)
            → KnownMap m key dims
            → Hit (λ m'. KnownMap m' key dims) (get_map beq k sub m key dims s)
        get_map-Hit no_binding key dims s h = absurd h
        get_map-Hit (bind c n m) key dims s h = elim (Bool-cases (beq c key)) [
          | inl same ↦ rw same (
              Hit-map (λ n'. KnownNode n' dims) (λ m'. KnownMap m' key dims) (λ n'. bind c n' m)
                (λ n' i. rw same i) (get_node beq k sub n dims s)
                (get_node-Hit n dims s (on_true _ _ _ same h)))
          | inr other ↦ rw other (
              Hit-map (λ m'. KnownMap m' key dims) (λ m'. KnownMap m' key dims) (bind c n)
                (λ m' i. rw other i) (get_map beq k sub m key dims s)
                (get_map-Hit m key dims s (on_false _ _ _ other h)))
        ]

        get_entry-Hit :
            (e : CacheEntry V) (s : Counters)
            → KnownEntry e
            → Hit KnownEntry (get_entry beq k sub e s)
        get_entry-Hit (constant c age) s h = (
          answer c,
          constant c 0,
          hit (update_retirement_age age s),
          refl,
          h,
          inl (ap answer h ∙ never_calc),
        )
        get_entry-Hit (level dims n age) s h = elim (missing_cases sub dims) [
          | inr (d, ds, e) ↦ rw e (
            demand (d ∷ ds),
            level dims n 0,
            update_retirement_age age s,
            refl,
            h,
            inr (
              d ∷ ds,
              refl,
              tt,
              subst (Lacks sub) e (Lacks-missing sub dims),
              λ x m. h.0 x (mem-missing sub dims x (subst (λ l. mem x l ≡ true) (sym e) m)),
            ),
          )
          | inl e ↦ rw e (
              Hit-map (λ n'. KnownNode n' dims) KnownEntry (λ n'. level dims n' 0)
                (λ n' i. (h.0, i)) (get_node beq k sub n dims (update_retirement_age age s))
                (get_node-Hit n dims (update_retirement_age age s) h.1))
        ]
