-- ===== src/Cache/Root.antt =====
-- `Cache::get` and `Cache::set` of src/libs/system/cache.cpp on a cache that only holds right values.
use trans_lucid.Prelude.{
  Bool, true, false, Option, none, some, ◌≡◌, ◌↔◌, refl, subst, ap, List, [], inl, inr,
}
use trans_lucid.Prelude.Int.{ℤ}
use trans_lucid.Cache.Tree.{
  Constant, calc, loop, demand, value, Result, ok, cache_error, ◌>>=◌, CacheNode, Counters,
}
use trans_lucid.Cache.Get.{get_node, missing, answer, calc_node}
use trans_lucid.Cache.Set.{set_node}
use trans_lucid.Cache.Shape.{missing_cases}
use trans_lucid.Cache.Path.{
  Stop, fresh, stored, short, Subset, Covers, LeadsNode, RightNode, Covers-node, AtLevel,
  AtLevel-both,
}
use trans_lucid.Cache.Lookup.{Fits, Says, end_delta, EndRel, EndsNode, Outcome, missing-end_delta}
use trans_lucid.Cache.Place.{place_calc_node, short_lem}
use trans_lucid.Cache.Right.{get_node_lem}
use trans_lucid.Cache.Found.{get_node-Found, missing-larger}
use trans_lucid.Cache.{Cache, Level, get, set, new_level}

module _ {V : Type 0} (Sem : (ℤ → Constant V) → Constant V → Type 0) where
  abbrev RightRoot : Option (Level V) → Type 0
  RightRoot none = Unit
  RightRoot (some l) = RightNode Sem (λ k'. Unit) l.node l.dims

  -- No calculation is under way, and what the tree stores under ordinates is right in all contexts
  -- that have these ordinates.
  abbrev pub IsRight : Cache V → Type 0
  IsRight c = RightRoot c.entry

module _ {V : Type 0} (beq : Constant V → Constant V → Bool) (k : ℤ → Constant V) where
  abbrev LeadsRoot : (ℤ → Bool) → (List ℤ → Stop V → Type 0) → Option (Level V) → Type 0
  LeadsRoot delta R none = R [] (fresh [])
  LeadsRoot delta R (some l) =
      AtLevel (missing delta l.dims) (LeadsNode beq k delta R l.node l.dims []) (R [] short)

  -- `R` holds of the end of the path.
  abbrev pub Leads : (ℤ → Bool) → (List ℤ → Stop V → Type 0) → Cache V → Type 0
  Leads delta R c = LeadsRoot delta R c.entry

module _ {V : Type 0} (beq : Constant V → Constant V → Bool)
    (beq_iff : (a b : Constant V) → (beq a b ≡ true) ↔ (a ≡ b)) (k : ℤ → Constant V)
    (Sem : (ℤ → Constant V) → Constant V → Type 0) (delta : ℤ → Bool) where
  abbrev pub EndsCache : Constant V → Cache V → Type 0
  EndsCache v c = Leads beq k (end_delta beq k Sem delta v) (EndRel beq k Sem delta v) c

  -- A place that `set` fills.
  abbrev pub PlaceCache : Cache V → Type 0
  PlaceCache c =
      (v : Constant V)
      → Fits beq k Sem delta v
      → (c' : Cache V) × (set beq k v c ≡ ok c') × IsRight Sem c' × EndsCache v c'

  abbrev pub OutcomeCache : Result (Constant V × Cache V) → Type 0
  OutcomeCache (ok (calc, c)) = PlaceCache c
  OutcomeCache (ok (v, c)) = Says beq k Sem delta v × IsRight Sem c × EndsCache v c
  OutcomeCache cache_error = ⊥

  module _ (l : Level V) (there : missing delta l.dims ≡ []) where
    abbrev with_node : CacheNode V → Counters → Cache V
    with_node n s = record { entry = some (record l { node = n }); counters = s }

    ends_root :
        (v : Constant V) (n : CacheNode V) (s : Counters)
        → EndsNode beq k Sem delta l.dims [] v n
        → EndsCache v (with_node n s)
    ends_root v n s h = rw (missing-end_delta beq k Sem delta v l.dims there) h

    root_outcome :
        (r : Result (Constant V × CacheNode V × Counters))
        → Outcome beq k Sem delta
            (λ n. RightNode Sem (λ k'. Unit) n l.dims)
            (EndsNode beq k Sem delta l.dims [])
            (λ v n. set_node beq k v n l.dims)
            r
        → OutcomeCache (r >>= λ (c, n, s'). ok (c, with_node n s'))
    unfolding set
    root_outcome (ok (calc, n, s)) h = λ v w.
        let (n', e, i, q) = h v w in
        (with_node n' s, ap (λ r. r >>= λ x. ok (with_node x s)) e, i, ends_root v n' s q)
    root_outcome (ok (loop, n, s)) h = (h.0, h.1, ends_root loop n s h.2)
    root_outcome (ok (demand ds, n, s)) h = (h.0, h.1, ends_root (demand ds) n s h.2)
    root_outcome (ok (value x, n, s)) h = (h.0, h.1, ends_root (value x) n s h.2)
    root_outcome cache_error h = absurd h

  get_root_lem :
      (o : Option (Level V)) (s : Counters)
      → RightRoot Sem o
      → LeadsRoot beq k delta (Covers delta) o
      → OutcomeCache (get beq k delta (record { entry = o; counters = s }))
  unfolding get set new_level calc_node LeadsNode RightNode missing
  get_root_lem none s r h = λ v w.
      let (n, put, right, ends) =
        place_calc_node beq beq_iff k Sem delta (λ k'. Unit) [] [] (λ k' p d m. cc) h v w in
      (
        record { entry = some (record { dims = []; node = n }); counters = s },
        ap
            (λ r. r >>= λ x.
              ok (record { entry = some (record { dims = []; node = x }); counters = s }))
            put,
        right,
        ends,
      )
  get_root_lem (some l) s r h = elim (missing_cases delta l.dims) [
    | inl e ↦ rw e (
        root_outcome l e (get_node beq k delta l.node l.dims s) (
          get_node_lem beq beq_iff k Sem delta (λ k'. Unit) l.node l.dims [] s r (λ k' p d m. cc) tt
            (subst
              (λ x.
                AtLevel x (LeadsNode beq k delta (Covers delta) l.node l.dims []) (Subset delta []))
              e h)))
    | inr (d, ds, e) ↦ rw e (
        short_lem beq beq_iff k Sem delta (λ k'. Unit) l.node l.dims [] d ds s r e
          (subst
            (λ x.
              AtLevel x (LeadsNode beq k delta (Covers delta) l.node l.dims []) (Subset delta []))
            e h))
  ]

  -- In a right cache, whose path the delta covers, `get` answers with what is right, with a demand for
  -- some dimensions that the delta lacks, or with a place for the value; the path then leads on.
  pub get_lem :
      (c : Cache V)
      → IsRight Sem c
      → Leads beq k delta (Covers delta) c
      → OutcomeCache (get beq k delta c)
  get_lem c r h = get_root_lem c.entry c.counters r h

module _ {V : Type 0} (beq : Constant V → Constant V → Bool) (k : ℤ → Constant V)
    (Sem : (ℤ → Constant V) → Constant V → Type 0) where
  abbrev nothing : ℤ → Bool
  nothing d = false

  Covers-root :
      (o : Option (Level V)) → RightRoot Sem o → LeadsRoot beq k nothing (Covers nothing) o
  Covers-root none r = λ d p. cc
  Covers-root (some l) r =
      AtLevel-both (missing nothing l.dims) _ _
        (Covers-node beq k Sem nothing (λ k'. Unit) l.node l.dims [] r (λ d p. cc)) (λ d p. cc)

  -- Nothing is covered by every right cache.
  pub Covers-nothing : (c : Cache V) → IsRight Sem c → Leads beq k nothing (Covers nothing) c
  Covers-nothing c r = Covers-root c.entry r

  module _ (sub delta : ℤ → Bool) (larger : (d : ℤ) → sub d ≡ true → delta d ≡ true)
      (v : Constant V) where
    not_short : short ≡ stored v → ⊥
    not_short e = cc

    found_root :
        (o : Option (Level V)) (s : Counters)
        → RightRoot Sem o
        → LeadsRoot beq k sub (λ passed st. st ≡ stored v) o
        → (c' : Cache V) × (get beq k delta (record { entry = o; counters = s })
            ≡ ok (answer v, c'))
          × IsRight Sem c'
    unfolding get
    found_root none s r h = cc
    found_root (some l) s r h = elim (missing_cases sub l.dims) [
      | inr (d, ds, e) ↦ absurd (
          not_short (
            subst
              (λ x.
                AtLevel x (LeadsNode beq k sub (λ passed st. st ≡ stored v) l.node l.dims [])
                  (short ≡ stored v))
              e h))
      | inl e ↦
          let (n, s', q, i) =
            get_node-Found beq k Sem sub delta larger v (λ k'. Unit) l.node l.dims [] s r
              (subst
                (λ x.
                  AtLevel x (LeadsNode beq k sub (λ passed st. st ≡ stored v) l.node l.dims [])
                    (short ≡ stored v))
                e h) in
          (
            record { entry = some (record l { node = n }); counters = s' },
            rw (missing-larger sub delta l.dims larger e, q) refl,
            i,
          )
    ]

    -- A constant at the end of the path is found with every larger delta.
    pub found_lem :
        (c : Cache V)
        → IsRight Sem c
        → Leads beq k sub (λ passed st. st ≡ stored v) c
        → (c' : Cache V) × (get beq k delta c ≡ ok (answer v, c')) × IsRight Sem c'
    found_lem c r h = found_root c.entry c.counters r h
