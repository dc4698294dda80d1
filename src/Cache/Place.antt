-- ===== src/Cache/Place.antt =====
-- The ends of a path in a tree that only holds right values (src/libs/system/cache.cpp): the places
-- that `get` leaves for `set`, the constants that are stored, and the levels that demand.
use trans_lucid.Prelude.{
  ℕ, Bool, true, ◌≡◌, ◌↔◌, refl, sym, subst, ap, List, [], ◌∷◌, ◌++◌, arith, Bool-cases, inl, inr,
  ◌∙◌,
}
use trans_lucid.Prelude.Int.{ℤ, eqb_ℤ, eqb_ℤ_iff}
use trans_lucid.Cache.Tree.{
  Constant, calc, loop, demand, value, Result, ok, ◌>>=◌, CacheEntry, constant, level, CacheNode,
  map_node, entry_node, CacheMap, no_binding, bind, Counters,
}
use trans_lucid.Cache.Get.{answer, missing, calc_node}
use trans_lucid.Cache.Set.{set_node, set_map, set_entry, set_cache_value}
use trans_lucid.Cache.Path.{
  Subset, LeadsNode, RightIn, RightNode, RightMap, RightEntry, Covers-node, Subset-move, mem-append,
}
use trans_lucid.Cache.Lookup.{
  joined, Lacks, Lacks-missing, mem-missing, missing-none, EndsNode, EndsMap, EndsEntry, Place,
  Outcome,
}
use trans_lucid.Workshops.Delta.{mem}
use trans_lucid.Workshops.Answers.{NonEmpty}

module _ {V : Type 0} (beq : Constant V → Constant V → Bool)
    (beq_iff : (a b : Constant V) → (beq a b ≡ true) ↔ (a ≡ b)) (k : ℤ → Constant V)
    (Sem : (ℤ → Constant V) → Constant V → Type 0) (delta : ℤ → Bool) where
  -- The contexts of a subtree agree with `k` on the dimensions that are passed.
  abbrev pub Agree : ((ℤ → Constant V) → Type 0) → List ℤ → Type 0
  Agree P passed = (k' : ℤ → Constant V) → P k' → (d : ℤ) → mem d passed ≡ true → k' d ≡ k d

  pub Agree-cons :
      (P : (ℤ → Constant V) → Type 0) (passed : List ℤ) (d : ℤ) (c : Constant V)
      → Agree P passed
      → c ≡ k d
      → Agree (λ k'. P k' × (k' d ≡ c)) (d ∷ passed)
  Agree-cons P passed d c a e k' p x m = elim (Bool-cases (eqb_ℤ x d)) [
    | inl same ↦ subst (λ y. k' y ≡ k y) (sym ((eqb_ℤ_iff x d).0 same)) (p.1 ∙ e)
    | inr other ↦ a k' p.0 x (ground (arith, other, m))
  ]

  abbrev PlaceNode : ((ℤ → Constant V) → Type 0) → List ℤ → List ℤ → CacheNode V → Type 0
  PlaceNode P dims passed =
      Place beq k Sem delta (λ n. RightNode Sem P n dims) (EndsNode beq k Sem delta dims passed)
        (λ v n. set_node beq k v n dims)

  abbrev PlaceEntry : ((ℤ → Constant V) → Type 0) → List ℤ → CacheEntry V → Type 0
  PlaceEntry P passed =
      Place beq k Sem delta (RightEntry Sem P) (EndsEntry beq k Sem delta passed)
        (λ v e. set_entry beq k v e)

  -- A level made of a demand.
  Ends-demand :
      (dims passed : List ℤ) (age : ℕ)
      → NonEmpty dims
      → Subset delta passed
      → RightEntry Sem (λ k'. Unit) (level dims (map_node no_binding) age)
        × EndsEntry beq k Sem delta passed (demand dims) (level dims (map_node no_binding) age)
  unfolding RightNode LeadsNode
  Ends-demand [] passed age n h = absurd n
  Ends-demand (d ∷ dims) passed age n h = (
    tt,
    rw
        (missing-none delta (joined delta (d ∷ dims)) (d ∷ dims) (λ e m p. rw p refl)
          (λ e m. ground (arith, mem-missing delta (d ∷ dims) e m)))
        (Subset-move (joined delta (d ∷ dims)) d dims passed
          (λ e p. ground (arith, h e, mem-append e passed (d ∷ dims)))),
  )

  place_entry :
      (P : (ℤ → Constant V) → Type 0) (c : Constant V) (age : ℕ) (passed : List ℤ)
      → Agree P passed
      → Subset delta passed
      → PlaceEntry P passed (constant c age)
  unfolding set_entry set_cache_value RightNode LeadsNode
  place_entry P c age passed a h calc w = absurd w
  place_entry P c age passed a h loop w =
      (constant loop age, refl, (λ k' p. w k' (λ d m. a k' p d (h d m))), refl)
  place_entry P c age passed a h (value x) w =
      (constant (value x) age, refl, (λ k' p. w k' (λ d m. a k' p d (h d m))), refl)
  place_entry P c age passed a h (demand []) w = absurd w
  place_entry P c age passed a h (demand (d ∷ ds)) w =
      (level (d ∷ ds) (map_node no_binding) age, refl, tt, (Ends-demand (d ∷ ds) passed age w h).1)

  -- The place that `set_calc` makes for the dimensions left.
  pub place_calc_node :
      (P : (ℤ → Constant V) → Type 0) (dims passed : List ℤ)
      → Agree P passed
      → Subset delta (passed ++ dims)
      → PlaceNode P dims passed (calc_node k dims)
  unfolding calc_node set_node RightNode LeadsNode
  place_calc_node P [] passed a h v w =
      let (e, put, right, ends) =
        place_entry P calc 0 passed a (λ d p. ground (arith, h d p, mem-append d passed [])) v w in
      (entry_node e, ap (λ r. r >>= λ e'. ok (entry_node e')) put, right, ends)
  place_calc_node P (d ∷ dims) passed a h v w =
      let same = (beq_iff (k d) (k d)).1 refl in
      let (n, put, right, ends) =
        place_calc_node (λ k'. P k' × (k' d ≡ k d)) dims (d ∷ passed)
          (Agree-cons P passed d (k d) a refl) (Subset-move delta d dims passed h) v w in
      (map_node (bind (k d) n no_binding), rw (same, put) refl, (right, tt), rw same ends)

  abbrev pub OutcomeNode :
      ((ℤ → Constant V) → Type 0)
      → List ℤ
      → List ℤ
      → Result (Constant V × CacheNode V × Counters)
      → Type 0
  OutcomeNode P dims passed =
      Outcome beq k Sem delta (λ n. RightNode Sem P n dims) (EndsNode beq k Sem delta dims passed)
        (λ v n. set_node beq k v n dims)

  abbrev pub OutcomeMap :
      ((ℤ → Constant V) → Type 0)
      → ℤ
      → List ℤ
      → List ℤ
      → Result (Constant V × CacheMap V × Counters)
      → Type 0
  OutcomeMap P d dims passed =
      Outcome beq k Sem delta (λ m. RightMap Sem P m d dims)
        (EndsMap beq k Sem delta dims passed (k d)) (λ v m. set_map beq k v m (k d) dims)

  abbrev pub OutcomeEntry :
      ((ℤ → Constant V) → Type 0) → List ℤ → Result (Constant V × CacheEntry V × Counters) → Type 0
  OutcomeEntry P passed =
      Outcome beq k Sem delta (RightEntry Sem P) (EndsEntry beq k Sem delta passed)
        (λ v e. set_entry beq k v e)

  -- A constant that is stored.
  pub entry_lem :
      (P : (ℤ → Constant V) → Type 0) (c : Constant V) (age : ℕ) (passed : List ℤ) (s : Counters)
      → RightIn Sem P c
      → P k
      → OutcomeEntry P passed (ok (answer c, constant c age, s))
  unfolding answer RightNode LeadsNode
  entry_lem P calc age passed s r p = absurd r
  entry_lem P (demand ds) age passed s r p = absurd r
  entry_lem P loop age passed s r p = (r k p, r, refl)
  entry_lem P (value x) age passed s r p = (r k p, r, refl)

  -- A level of which something is missing.
  pub short_lem :
      (P : (ℤ → Constant V) → Type 0) (n : CacheNode V) (dims passed : List ℤ) (d : ℤ) (ds : List ℤ)
      (s : Counters)
      → RightNode Sem P n dims
      → missing delta dims ≡ d ∷ ds
      → Subset delta passed
      → OutcomeEntry P passed (ok (demand (d ∷ ds), level dims n 0, s))
  unfolding RightNode LeadsNode
  short_lem P n dims passed d ds s r e h =
      let in_missing = λ (x : ℤ) (m : mem x (d ∷ ds) ≡ true).
        mem-missing delta dims x (subst (λ l. mem x l ≡ true) (sym e) m) in
      (
        (tt, subst (Lacks delta) e (Lacks-missing delta dims)),
        r,
        rw
            (missing-none delta (joined delta (d ∷ ds)) dims (λ x m p. rw p refl)
              (λ x m. let q = subst (λ l. mem x l ≡ true) e m in ground (arith, q)))
            (Covers-node beq k Sem (joined delta (d ∷ ds)) P n dims passed r
              (λ x p. ground (arith, h x, in_missing x, mem-append x passed dims))),
      )
