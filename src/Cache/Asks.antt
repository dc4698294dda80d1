-- ===== src/Cache/Asks.antt =====
-- The dimensions that a cache of src/libs/system/cache.cpp can demand: those of its levels.
use trans_lucid.Prelude.{
  ℕ, Bool, true, Option, none, some, ◌≡◌, sym, subst, List, [], ◌∷◌, Bool-cases, inl, inr,
}
use trans_lucid.Prelude.Int.{ℤ}
use trans_lucid.Cache.Tree.{
  Constant, calc, loop, demand, value, Result, ok, cache_error, ◌>>=◌, CacheEntry, constant, level,
  CacheNode, map_node, entry_node, CacheMap, no_binding, bind, Counters,
}
use trans_lucid.Cache.Get.{
  get_node, get_map, get_entry, answer, missing, calc_node, update_retirement_age,
}
use trans_lucid.Cache.Set.{set_node, set_map, set_entry, set_cache_value}
use trans_lucid.Cache.Keep.{WhenOk, WhenOk-map}
use trans_lucid.Cache.Known.{In}
use trans_lucid.Cache.Lookup.{mem-missing}
use trans_lucid.Cache.Shape.{missing_cases}
use trans_lucid.Cache.{Cache, Level, get, set, new_level}
use trans_lucid.Workshops.Delta.{mem}

In-missing :
    (u : List ℤ) (delta : ℤ → Bool) (dims ds : List ℤ)
    → In dims u
    → missing delta dims ≡ ds
    → In ds u
In-missing u delta dims ds h e x m =
    h x (mem-missing delta dims x (subst (λ l. mem x l ≡ true) (sym e) m))

module _ {V : Type 0} (u : List ℤ) where
  -- A demand is for dimensions of the list.
  abbrev pub AsksIn : Constant V → Type 0
  AsksIn (demand ds) = In ds u
  AsksIn c = Unit

  unfoldable mutual
    pub InNode : CacheNode V → Type 0
    InNode (map_node m) = InMap m
    InNode (entry_node e) = InEntry e

    pub InMap : CacheMap V → Type 0
    InMap no_binding = Unit
    InMap (bind c n m) = InNode n × InMap m

    pub InEntry : CacheEntry V → Type 0
    InEntry (constant c age) = AsksIn c
    InEntry (level dims n age) = In dims u × InNode n

  abbrev InRoot : Option (Level V) → Type 0
  InRoot none = Unit
  InRoot (some l) = In l.dims u × InNode l.node

  -- All levels of the cache are for dimensions of the list.
  abbrev pub LevelsIn : Cache V → Type 0
  LevelsIn c = InRoot c.entry

  abbrev Got : {A : Type 0} → (A → Type 0) → Result (Constant V × A × Counters) → Type 0
  Got Inv r = WhenOk (λ (c, a, s). AsksIn c × Inv a) r

  Got-map :
      {A B : Type 0} (P : A → Type 0) (Q : B → Type 0) (f : A → B)
      → ((a : A) → P a → Q (f a))
      → (r : Result (Constant V × A × Counters)) → Got P r
      → Got Q (r >>= λ (c, a, s). ok (c, f a, s))
  Got-map P Q f h (ok (c, a, s)) p = (p.0, h a p.1)
  Got-map P Q f h cache_error p = tt

  AsksIn-answer : (c : Constant V) → AsksIn c → AsksIn (answer c)
  unfolding answer
  AsksIn-answer calc h = tt
  AsksIn-answer loop h = tt
  AsksIn-answer (demand ds) h = h
  AsksIn-answer (value x) h = tt

  InNode-calc_node : (k : ℤ → Constant V) (dims : List ℤ) → InNode (calc_node k dims)
  unfolding calc_node InNode
  InNode-calc_node k [] = tt
  InNode-calc_node k (d ∷ dims) = (InNode-calc_node k dims, tt)

  module _ (beq : Constant V → Constant V → Bool) (k : ℤ → Constant V) (delta : ℤ → Bool) where
    mutual
      unfolding get_node InNode

      get_node-Got :
          (n : CacheNode V) (dims : List ℤ) (s : Counters)
          → InNode n
          → Got InNode (get_node beq k delta n dims s)
      get_node-Got (map_node m) [] s h = tt
      get_node-Got (map_node m) (d ∷ dims) s h =
          Got-map InMap InNode map_node (λ m' i. i) (get_map beq k delta m (k d) dims s)
            (get_map-Got m (k d) dims s h)
      get_node-Got (entry_node e) (d ∷ dims) s h = tt
      get_node-Got (entry_node e) [] s h =
          Got-map InEntry InNode entry_node (λ e' i. i) (get_entry beq k delta e s)
            (get_entry-Got e s h)

      get_map-Got :
          (m : CacheMap V) (key : Constant V) (dims : List ℤ) (s : Counters)
          → InMap m
          → Got InMap (get_map beq k delta m key dims s)
      get_map-Got no_binding key dims s h = (tt, (InNode-calc_node k dims, tt))
      get_map-Got (bind c n m) key dims s h = elim (Bool-cases (beq c key)) [
        | inl same ↦ rw same (
            Got-map InNode InMap (λ n'. bind c n' m) (λ n' i. (i, h.1))
              (get_node beq k delta n dims s) (get_node-Got n dims s h.0))
        | inr other ↦ rw other (
            Got-map InMap InMap (bind c n) (λ m' i. (h.0, i)) (get_map beq k delta m key dims s)
              (get_map-Got m key dims s h.1))
      ]

      get_entry-Got :
          (e : CacheEntry V) (s : Counters) → InEntry e → Got InEntry (get_entry beq k delta e s)
      get_entry-Got (constant c age) s h = (AsksIn-answer c h, h)
      get_entry-Got (level dims n age) s h = elim (missing_cases delta dims) [
        | inr (d, ds, e) ↦ rw e (In-missing u delta dims (d ∷ ds) h.0 e, h)
        | inl e ↦ rw e (
            Got-map InNode InEntry (λ n'. level dims n' 0) (λ n' i. (h.0, i))
              (get_node beq k delta n dims (update_retirement_age age s))
              (get_node-Got n dims (update_retirement_age age s) h.1))
      ]

    abbrev pub GotCache : Result (Constant V × Cache V) → Type 0
    GotCache r = WhenOk (λ (c, a). AsksIn c × LevelsIn a) r

    root-Got :
        (l : Level V)
        → In l.dims u
        → (r : Result (Constant V × CacheNode V × Counters)) → Got InNode r
        → GotCache (
            r >>= λ (c, n, s).
            ok (c, record { entry = some (record l { node = n }); counters = s }))
    root-Got l h (ok (c, n, s)) g = (g.0, (h, g.1))
    root-Got l h cache_error g = tt

    get_root-Got :
        (o : Option (Level V)) (s : Counters)
        → InRoot o
        → GotCache (get beq k delta (record { entry = o; counters = s }))
    unfolding get new_level InNode
    get_root-Got none s h = (tt, ((λ d m. absurd (no_mem d m)), tt))
      where
        no_mem : (d : ℤ) → mem d [] ≡ true → ⊥
        no_mem d m = cc
    get_root-Got (some l) s h = elim (missing_cases delta l.dims) [
      | inr (d, ds, e) ↦ rw e (In-missing u delta l.dims (d ∷ ds) h.0 e, h)
      | inl e ↦
          rw e (
            root-Got l h.0 (get_node beq k delta l.node l.dims s)
              (get_node-Got l.node l.dims s h.1))
    ]

    pub get-GotCache : (c : Cache V) → LevelsIn c → GotCache (get beq k delta c)
    get-GotCache c h = get_root-Got c.entry c.counters h

  module _ (beq : Constant V → Constant V → Bool) (k : ℤ → Constant V) (v : Constant V)
      (asks : AsksIn v) where
    InEntry-set_cache_value :
        (w : Constant V) (age : ℕ) → AsksIn w → InEntry (set_cache_value age w)
    unfolding set_cache_value InNode
    InEntry-set_cache_value calc age h = tt
    InEntry-set_cache_value loop age h = tt
    InEntry-set_cache_value (demand ds) age h = (h, tt)
    InEntry-set_cache_value (value x) age h = tt

    mutual
      unfolding set_node InNode

      set_node-In :
          (n : CacheNode V) (dims : List ℤ) → InNode n → WhenOk InNode (set_node beq k v n dims)
      set_node-In (map_node m) [] h = tt
      set_node-In (map_node m) (d ∷ dims) h =
          WhenOk-map InMap InNode map_node (λ m' i. i) (set_map beq k v m (k d) dims)
            (set_map-In m (k d) dims h)
      set_node-In (entry_node e) (d ∷ dims) h = tt
      set_node-In (entry_node e) [] h =
          WhenOk-map InEntry InNode entry_node (λ e' i. i) (set_entry beq k v e) (set_entry-In e h)

      set_map-In :
          (m : CacheMap V) (key : Constant V) (dims : List ℤ)
          → InMap m
          → WhenOk InMap (set_map beq k v m key dims)
      set_map-In no_binding key dims h = tt
      set_map-In (bind c n m) key dims h = elim (Bool-cases (beq c key)) [
        | inl same ↦ rw same (
            WhenOk-map InNode InMap (λ n'. bind c n' m) (λ n' i. (i, h.1)) (set_node beq k v n dims)
              (set_node-In n dims h.0))
        | inr other ↦ rw other (
            WhenOk-map InMap InMap (bind c n) (λ m' i. (h.0, i)) (set_map beq k v m key dims)
              (set_map-In m key dims h.1))
      ]

      set_entry-In : (e : CacheEntry V) → InEntry e → WhenOk InEntry (set_entry beq k v e)
      set_entry-In (constant c age) h = InEntry-set_cache_value v age asks
      set_entry-In (level dims n age) h =
          WhenOk-map InNode InEntry (λ n'. level dims n' age) (λ n' i. (h.0, i))
            (set_node beq k v n dims) (set_node-In n dims h.1)

    set_root-In :
        (o : Option (Level V)) (s : Counters)
        → InRoot o
        → WhenOk LevelsIn (set beq k v (record { entry = o; counters = s }))
    unfolding set
    set_root-In none s h = tt
    set_root-In (some l) s h =
        WhenOk-map InNode LevelsIn
          (λ n. record { entry = some (record l { node = n }); counters = s }) (λ n i. (h.0, i))
          (set_node beq k v l.node l.dims) (set_node-In l.node l.dims h.1)

    pub set-LevelsIn : (c : Cache V) → LevelsIn c → WhenOk LevelsIn (set beq k v c)
    set-LevelsIn c h = set_root-In c.entry c.counters h
