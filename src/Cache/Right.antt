-- ===== src/Cache/Right.antt =====
-- `get` of src/libs/system/cache.cpp on a tree that only holds right values.
use trans_lucid.Prelude.{
  ℕ, Bool, true, false, ◌≡◌, ◌↔◌, refl, sym, subst, ap, List, [], ◌∷◌, ◌++◌, Bool-cases, inl, inr,
}
use trans_lucid.Prelude.Int.{ℤ}
use trans_lucid.Cache.Tree.{
  Constant, ok, ◌>>=◌, CacheEntry, constant, level, CacheNode, map_node, entry_node, CacheMap,
  no_binding, bind, Counters,
}
use trans_lucid.Cache.Get.{get_node, get_map, get_entry, calc_node, update_retirement_age}
use trans_lucid.Cache.Set.{set_node, set_map, set_entry}
use trans_lucid.Cache.Shape.{missing_cases}
use trans_lucid.Cache.Path.{
  Subset, Covers, LeadsNode, LeadsMap, LeadsEntry, RightNode, RightMap, RightEntry, AtLevel,
  on_true, on_false,
}
use trans_lucid.Cache.Lookup.{EndsNode, EndsMap, EndsEntry, Place, Outcome-map, missing-end_delta}
use trans_lucid.Cache.Place.{
  Agree, Agree-cons, OutcomeNode, OutcomeMap, OutcomeEntry, entry_lem, short_lem, place_calc_node,
}

module _ {V : Type 0} (beq : Constant V → Constant V → Bool)
    (beq_iff : (a b : Constant V) → (beq a b ≡ true) ↔ (a ≡ b)) (k : ℤ → Constant V)
    (Sem : (ℤ → Constant V) → Constant V → Type 0) (delta : ℤ → Bool) where
  put_map :
      (d : ℤ) (dims : List ℤ) (v : Constant V) (m m' : CacheMap V)
      → set_map beq k v m (k d) dims ≡ ok m'
      → set_node beq k v (map_node m) (d ∷ dims) ≡ ok (map_node m')
  unfolding set_node
  put_map d dims v m m' e = ap (λ r. r >>= λ x. ok (map_node x)) e

  put_entry :
      (v : Constant V) (e e' : CacheEntry V)
      → set_entry beq k v e ≡ ok e'
      → set_node beq k v (entry_node e) [] ≡ ok (entry_node e')
  unfolding set_node
  put_entry v e e' q = ap (λ r. r >>= λ x. ok (entry_node x)) q

  put_here :
      (c key : Constant V) (n n' : CacheNode V) (m : CacheMap V) (dims : List ℤ) (v : Constant V)
      → beq c key ≡ true
      → set_node beq k v n dims ≡ ok n'
      → set_map beq k v (bind c n m) key dims ≡ ok (bind c n' m)
  unfolding set_node
  put_here c key n n' m dims v same e = rw same (ap (λ r. r >>= λ x. ok (bind c x m)) e)

  put_there :
      (c key : Constant V) (n : CacheNode V) (m m' : CacheMap V) (dims : List ℤ) (v : Constant V)
      → beq c key ≡ false
      → set_map beq k v m key dims ≡ ok m'
      → set_map beq k v (bind c n m) key dims ≡ ok (bind c n m')
  unfolding set_node
  put_there c key n m m' dims v other e = rw other (ap (λ r. r >>= λ x. ok (bind c n x)) e)

  put_level :
      (dims : List ℤ) (n n' : CacheNode V) (age : ℕ) (v : Constant V)
      → set_node beq k v n dims ≡ ok n'
      → set_entry beq k v (level dims n age) ≡ ok (level dims n' age)
  unfolding set_node
  put_level dims n n' age v e = ap (λ r. r >>= λ x. ok (level dims x age)) e

  -- A map without the key, to which the key and its place are added.
  fresh_map :
      (P : (ℤ → Constant V) → Type 0) (d : ℤ) (dims passed : List ℤ)
      → Agree beq beq_iff k Sem delta P passed
      → Subset delta ((d ∷ passed) ++ dims)
      → Place beq k Sem delta
          (λ m. RightMap Sem P m d dims)
          (EndsMap beq k Sem delta dims (d ∷ passed) (k d))
          (λ v m. set_map beq k v m (k d) dims)
          (bind (k d) (calc_node k dims) no_binding)
  unfolding RightNode LeadsNode
  fresh_map P d dims passed a h v w =
      let same = (beq_iff (k d) (k d)).1 refl in
      let (n, put, right, ends) =
        place_calc_node beq beq_iff k Sem delta (λ k'. P k' × (k' d ≡ k d)) dims (d ∷ passed)
          (Agree-cons beq beq_iff k Sem delta P passed d (k d) a refl) h v w in
      (
        bind (k d) n no_binding,
        put_here (k d) (k d) (calc_node k dims) n no_binding dims v same put,
        (right, tt),
        rw same ends,
      )

  mutual
    unfolding get_node RightNode LeadsNode

    pub get_node_lem :
        (P : (ℤ → Constant V) → Type 0) (n : CacheNode V) (dims passed : List ℤ) (s : Counters)
        → RightNode Sem P n dims
        → Agree beq beq_iff k Sem delta P passed
        → P k
        → LeadsNode beq k delta (Covers delta) n dims passed
        → OutcomeNode beq beq_iff k Sem delta P dims passed (get_node beq k delta n dims s)
    get_node_lem P (map_node m) [] passed s r a p h = absurd r
    get_node_lem P (map_node m) (d ∷ dims) passed s r a p h =
        Outcome-map beq k Sem delta (λ m'. RightMap Sem P m' d dims)
          (EndsMap beq k Sem delta dims (d ∷ passed) (k d)) (λ v m'. set_map beq k v m' (k d) dims)
          (λ n. RightNode Sem P n (d ∷ dims)) (EndsNode beq k Sem delta (d ∷ dims) passed)
          (λ v n. set_node beq k v n (d ∷ dims)) map_node (λ m' i. i) (λ v m' q. q)
          (λ v m' m'' e. put_map d dims v m' m'' e) (get_map beq k delta m (k d) dims s)
          (get_map_lem P m d dims passed s r a p h)
    get_node_lem P (entry_node e) (d ∷ dims) passed s r a p h = absurd r
    get_node_lem P (entry_node e) [] passed s r a p h =
        Outcome-map beq k Sem delta (RightEntry Sem P) (EndsEntry beq k Sem delta passed)
          (λ v e'. set_entry beq k v e') (λ n. RightNode Sem P n [])
          (EndsNode beq k Sem delta [] passed) (λ v n. set_node beq k v n []) entry_node (λ e' i. i)
          (λ v e' q. q) (λ v e' e'' q. put_entry v e' e'' q) (get_entry beq k delta e s)
          (get_entry_lem P e passed s r a p h)

    get_map_lem :
        (P : (ℤ → Constant V) → Type 0) (m : CacheMap V) (d : ℤ) (dims passed : List ℤ)
        (s : Counters)
        → RightMap Sem P m d dims
        → Agree beq beq_iff k Sem delta P passed
        → P k
        → LeadsMap beq k delta (Covers delta) m (k d) dims (d ∷ passed)
        → OutcomeMap beq beq_iff k Sem delta P d dims
            (d ∷ passed)
            (get_map beq k delta m (k d) dims s)
    get_map_lem P no_binding d dims passed s r a p h = λ v w. fresh_map P d dims passed a h v w
    get_map_lem P (bind c n m) d dims passed s r a p h = elim (Bool-cases (beq c (k d))) [
      | inl same ↦ rw same (
          Outcome-map beq k Sem delta (λ n'. RightNode Sem (λ k'. P k' × (k' d ≡ c)) n' dims)
            (EndsNode beq k Sem delta dims (d ∷ passed)) (λ v n'. set_node beq k v n' dims)
            (λ m'. RightMap Sem P m' d dims) (EndsMap beq k Sem delta dims (d ∷ passed) (k d))
            (λ v m'. set_map beq k v m' (k d) dims) (λ n'. bind c n' m) (λ n' i. (i, r.1))
            (λ v n' q. rw same q) (λ v n' n'' e. put_here c (k d) n' n'' m dims v same e)
            (get_node beq k delta n dims s)
            (get_node_lem (λ k'. P k' × (k' d ≡ c)) n dims (d ∷ passed) s r.0
              (Agree-cons beq beq_iff k Sem delta P passed d c a ((beq_iff c (k d)).0 same))
              (p, sym ((beq_iff c (k d)).0 same)) (on_true _ _ _ same h)))
      | inr other ↦ rw other (
          Outcome-map beq k Sem delta (λ m'. RightMap Sem P m' d dims)
            (EndsMap beq k Sem delta dims (d ∷ passed) (k d))
            (λ v m'. set_map beq k v m' (k d) dims) (λ m'. RightMap Sem P m' d dims)
            (EndsMap beq k Sem delta dims (d ∷ passed) (k d))
            (λ v m'. set_map beq k v m' (k d) dims) (λ m'. bind c n m') (λ m' i. (r.0, i))
            (λ v m' q. rw other q) (λ v m' m'' e. put_there c (k d) n m' m'' dims v other e)
            (get_map beq k delta m (k d) dims s)
            (get_map_lem P m d dims passed s r.1 a p (on_false _ _ _ other h)))
    ]

    get_entry_lem :
        (P : (ℤ → Constant V) → Type 0) (e : CacheEntry V) (passed : List ℤ) (s : Counters)
        → RightEntry Sem P e
        → Agree beq beq_iff k Sem delta P passed
        → P k
        → LeadsEntry beq k delta (Covers delta) e passed
        → OutcomeEntry beq beq_iff k Sem delta P passed (get_entry beq k delta e s)
    get_entry_lem P (constant c age) passed s r a p h =
        entry_lem beq beq_iff k Sem delta P c 0 passed _ r p
    get_entry_lem P (level dims n age) passed s r a p h = elim (missing_cases delta dims) [
      | inr (d, ds, e) ↦ rw e (
          short_lem beq beq_iff k Sem delta P n dims passed d ds (update_retirement_age age s) r e (
            subst
              (λ l.
                AtLevel l (LeadsNode beq k delta (Covers delta) n dims passed)
                  (Subset delta passed))
              e h))
      | inl e ↦ rw e (
          Outcome-map beq k Sem delta (λ n'. RightNode Sem P n' dims)
            (EndsNode beq k Sem delta dims passed) (λ v n'. set_node beq k v n' dims)
            (RightEntry Sem P) (EndsEntry beq k Sem delta passed) (λ v e'. set_entry beq k v e')
            (λ n'. level dims n' 0) (λ n' i. i)
            (λ v n' q. rw (missing-end_delta beq k Sem delta v dims e) q)
            (λ v n' n'' q. put_level dims n' n'' 0 v q)
            (get_node beq k delta n dims (update_retirement_age age s))
            (get_node_lem P n dims passed (update_retirement_age age s) r a p (
              subst
                (λ l.
                  AtLevel l (LeadsNode beq k delta (Covers delta) n dims passed)
                    (Subset delta passed))
                e h)))
    ]
