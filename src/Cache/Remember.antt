-- ===== src/Cache/Remember.antt =====
-- A cache of src/libs/system/cache.cpp that holds a constant for a context, and what `get` makes of it.
use trans_lucid.Prelude.{
  Bool, true, none, some, Option, ◌≡◌, refl, sym, subst, List, [], ◌∷◌, inl, inr, Bool-cases,
}
use trans_lucid.Prelude.Int.{ℤ}
use trans_lucid.Cache.Tree.{
  Constant, demand, Result, ok, CacheEntry, constant, level, CacheNode, map_node, entry_node,
  CacheMap, no_binding, bind, Counters,
}
use trans_lucid.Cache.Get.{missing, answer}
use trans_lucid.Cache.Shape.{missing_cases}
use trans_lucid.Cache.Path.{
  AtLevel, LeadsNode, LeadsMap, LeadsEntry, on_true, on_false, short, stored,
}
use trans_lucid.Cache.Lookup.{Lacks, Lacks-missing, mem-missing, missing-mem}
use trans_lucid.Cache.Root.{Leads}
use trans_lucid.Cache.Known.{In, KnownNode, KnownMap, KnownEntry, Gives, get_node-Hit}
use trans_lucid.Cache.{Cache, Level, get}
use trans_lucid.Workshops.Delta.{mem}

module _ {V : Type 0} (beq : Constant V → Constant V → Bool) (k : ℤ → Constant V) (u : List ℤ)
    (v : Constant V) where
  abbrev KnownRoot : Option (Level V) → Type 0
  KnownRoot none = ⊥
  KnownRoot (some l) = In l.dims u × KnownNode beq k u v l.node l.dims

  -- The cache has the constant for the context, under dimensions of the list.
  abbrev pub Remembers : Cache V → Type 0
  Remembers c = KnownRoot c.entry

  module _ (sub : ℤ → Bool) (within : (d : ℤ) → sub d ≡ true → mem d u ≡ true) where
    In-passed : (dims : List ℤ) → missing sub dims ≡ [] → In dims u
    In-passed dims e d m = within d (missing-mem sub dims e d m)

    not_short : short ≡ stored v → ⊥
    not_short e = cc

    mutual
      unfolding LeadsNode KnownNode

      Leads-KnownNode :
          (n : CacheNode V) (dims passed : List ℤ)
          → LeadsNode beq k sub (λ p s. s ≡ stored v) n dims passed
          → KnownNode beq k u v n dims
      Leads-KnownNode (map_node m) [] passed h = absurd h
      Leads-KnownNode (map_node m) (d ∷ dims) passed h = Leads-KnownMap m (k d) dims (d ∷ passed) h
      Leads-KnownNode (entry_node e) (d ∷ dims) passed h = absurd h
      Leads-KnownNode (entry_node e) [] passed h = Leads-KnownEntry e passed h

      Leads-KnownMap :
          (m : CacheMap V) (key : Constant V) (dims passed : List ℤ)
          → LeadsMap beq k sub (λ p s. s ≡ stored v) m key dims passed
          → KnownMap beq k u v m key dims
      Leads-KnownMap no_binding key dims passed h = cc
      Leads-KnownMap (bind c n m) key dims passed h = elim (Bool-cases (beq c key)) [
        | inl same ↦ rw same (Leads-KnownNode n dims passed (on_true _ _ _ same h))
        | inr other ↦ rw other (Leads-KnownMap m key dims passed (on_false _ _ _ other h))
      ]

      Leads-KnownEntry :
          (e : CacheEntry V) (passed : List ℤ)
          → LeadsEntry beq k sub (λ p s. s ≡ stored v) e passed
          → KnownEntry beq k u v e
      Leads-KnownEntry (constant c age) passed h = cc
      Leads-KnownEntry (level dims n age) passed h = elim (missing_cases sub dims) [
        | inr (d, ds, e) ↦ absurd (
            not_short (
              subst
                (λ l.
                  AtLevel l (LeadsNode beq k sub (λ p s. s ≡ stored v) n dims passed)
                    (short ≡ stored v))
                e h))
        | inl e ↦ (
          In-passed dims e,
          Leads-KnownNode n dims passed (
              subst
                (λ l.
                  AtLevel l (LeadsNode beq k sub (λ p s. s ≡ stored v) n dims passed)
                    (short ≡ stored v))
                e h),
        )
      ]

    Leads-root :
        (o : Option (Level V)) (s : Counters)
        → Leads beq k sub (λ p s. s ≡ stored v) (record { entry = o; counters = s })
        → KnownRoot o
    Leads-root none s h = cc
    Leads-root (some l) s h = elim (missing_cases sub l.dims) [
      | inr (d, ds, e) ↦ absurd (
          not_short (
            subst
              (λ x.
                AtLevel x (LeadsNode beq k sub (λ p s. s ≡ stored v) l.node l.dims [])
                  (short ≡ stored v))
              e h))
      | inl e ↦ (
        In-passed l.dims e,
        Leads-KnownNode l.node l.dims [] (
            subst
              (λ x.
                AtLevel x (LeadsNode beq k sub (λ p s. s ≡ stored v) l.node l.dims [])
                  (short ≡ stored v))
              e h),
      )
    ]

    pub Leads-Remembers : (c : Cache V) → Leads beq k sub (λ p s. s ≡ stored v) c → Remembers c
    Leads-Remembers c h = Leads-root c.entry c.counters h

  module _ (sub : ℤ → Bool) (never_calc : answer v ≡ v) where
    abbrev pub HitCache : Result (Constant V × Cache V) → Type 0
    HitCache r =
        (x : Constant V) × (c : Cache V) × (r ≡ ok (x, c)) × Remembers c × Gives beq k u v sub x

    root_hit :
        (o : Option (Level V)) (s : Counters)
        → KnownRoot o
        → HitCache (get beq k sub (record { entry = o; counters = s }))
    unfolding get
    root_hit none s h = absurd h
    root_hit (some l) s h = elim (missing_cases sub l.dims) [
      | inr (d, ds, e) ↦ rw e (
        demand (d ∷ ds),
        record { entry = some l; counters = s },
        refl,
        h,
        inr (
          d ∷ ds,
          refl,
          tt,
          subst (Lacks sub) e (Lacks-missing sub l.dims),
          λ x m. h.0 x (mem-missing sub l.dims x (subst (λ y. mem x y ≡ true) (sym e) m)),
        ),
      )
      | inl e ↦
          let (x, n, s', q, i, g) = get_node-Hit beq k u v sub never_calc l.node l.dims s h.1 in
          (
            x,
            record { entry = some (record l { node = n }); counters = s' },
            rw (e, q) refl,
            (h.0, i),
            g,
          )
    ]

    pub get-HitCache : (c : Cache V) → Remembers c → HitCache (get beq k sub c)
    get-HitCache c h = root_hit c.entry c.counters h
