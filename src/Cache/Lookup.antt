-- ===== src/Cache/Lookup.antt =====
-- What `get` of src/libs/system/cache.cpp answers on a tree that only holds right values, on the path
-- of a context whose delta is covered.
use trans_lucid.Prelude.{
  Bool, true, false, ◌||◌, ◌≡◌, refl, subst, List, [], ◌∷◌, arith, Bool-cases, inl, inr, sym,
  if◌then◌else◌, not,
}
use trans_lucid.Prelude.Int.{ℤ, eqb_ℤ, eqb_ℤ_iff}
use trans_lucid.Cache.Tree.{
  Constant, calc, loop, demand, value, Result, ok, cache_error, ◌>>=◌, CacheEntry, CacheNode,
  CacheMap, Counters,
}
use trans_lucid.Cache.Get.{missing}
use trans_lucid.Cache.Path.{Stop, stored, Covers, LeadsNode, LeadsMap, LeadsEntry}
use trans_lucid.Workshops.Delta.{mem}
use trans_lucid.Workshops.Answers.{NonEmpty}

abbrev pub joined : (ℤ → Bool) → List ℤ → ℤ → Bool
joined delta ds d = delta d || mem d ds

-- Dimensions that the delta does not have.
abbrev pub Lacks : (ℤ → Bool) → List ℤ → Type 0
Lacks delta [] = Unit
Lacks delta (d ∷ ds) = (delta d ≡ false) × Lacks delta ds

pub Lacks-missing : (delta : ℤ → Bool) (dims : List ℤ) → Lacks delta (missing delta dims)
unfolding missing
Lacks-missing delta [] = tt
Lacks-missing delta (d ∷ dims) = elim (Bool-cases (delta d)) [
  | inl p ↦ rw p (Lacks-missing delta dims)
  | inr p ↦ rw p (p, Lacks-missing delta dims)
]

pub mem-missing :
    (delta : ℤ → Bool) (dims : List ℤ) (d : ℤ)
    → mem d (missing delta dims) ≡ true
    → mem d dims ≡ true
unfolding missing
mem-missing delta [] d h = h
mem-missing delta (e ∷ dims) d h = elim (Bool-cases (delta e)) [
  | inl p ↦ ground (arith, p, mem-missing delta dims d)
  | inr p ↦ ground (arith, p, mem-missing delta dims d)
]

-- With the dimensions that it lacks, a delta has all of a level.
pub missing-none :
    (delta delta' : ℤ → Bool) (dims : List ℤ)
    → ((d : ℤ) → mem d dims ≡ true → delta d ≡ true → delta' d ≡ true)
    → ((d : ℤ) → mem d (missing delta dims) ≡ true → delta' d ≡ true)
    → missing delta' dims ≡ []
unfolding missing
missing-none delta delta' [] h g = refl
missing-none delta delta' (d ∷ dims) h g = elim (Bool-cases (delta d)) [
  | inl p ↦
      rw (h d (rw ((eqb_ℤ_iff d d).1 refl) refl) p)
        (missing-none delta delta' dims (λ e m. h e (ground (arith, m))) (λ e m. g e (rw p m)))
  | inr p ↦ rw (g d (rw (p, (eqb_ℤ_iff d d).1 refl) refl)) (
      missing-none delta delta' dims (λ e m. h e (ground (arith, m)))
        (λ e m. g e (rw p (ground (arith, m)))))
]

pub missing-mem :
    (f : ℤ → Bool) (ds : List ℤ) → missing f ds ≡ [] → (d : ℤ) → mem d ds ≡ true → f d ≡ true
unfolding missing
missing-mem f [] e d m = cc
missing-mem f (x ∷ ds) e d m = elim (Bool-cases (f x)) [
  | inr p ↦ cc
  | inl p ↦
      let rest =
        missing-mem f ds (subst (λ b. (if not b then x ∷ missing f ds else missing f ds) ≡ []) p e)
          d in
      elim (Bool-cases (eqb_ℤ d x)) [
        | inl same ↦ subst (λ y. f y ≡ true) (sym ((eqb_ℤ_iff d x).0 same)) p
        | inr other ↦ rest (ground (arith, other, m))
      ]
]

module _ {V : Type 0} (beq : Constant V → Constant V → Bool) (k : ℤ → Constant V)
    (Sem : (ℤ → Constant V) → Constant V → Type 0) (delta : ℤ → Bool) where
  -- What may be stored where the path of `k` with `delta` ends: a constant that is right in all
  -- contexts that agree on the delta, or a demand for some dimension.
  abbrev pub Fits : Constant V → Type 0
  Fits calc = ⊥
  Fits (demand ds) = NonEmpty ds
  Fits c = (k' : ℤ → Constant V) → ((d : ℤ) → delta d ≡ true → k' d ≡ k d) → Sem k' c

  -- What `get` says of an answer.
  abbrev pub Says : Constant V → Type 0
  Says calc = ⊥
  Says (demand ds) = NonEmpty ds × Lacks delta ds
  Says c = Sem k c

  -- Where the path leads after the answer: with what is demanded, the delta is covered again; any
  -- other constant is stored at its end.
  abbrev pub end_delta : Constant V → ℤ → Bool
  end_delta (demand ds) = joined delta ds
  end_delta c = delta

  abbrev pub EndRel : Constant V → List ℤ → Stop V → Type 0
  EndRel (demand ds) passed s = Covers (joined delta ds) passed s
  EndRel c passed s = s ≡ stored c

  abbrev pub EndsNode : List ℤ → List ℤ → Constant V → CacheNode V → Type 0
  EndsNode dims passed v n = LeadsNode beq k (end_delta v) (EndRel v) n dims passed

  abbrev pub EndsMap : List ℤ → List ℤ → Constant V → Constant V → CacheMap V → Type 0
  EndsMap dims passed key v m = LeadsMap beq k (end_delta v) (EndRel v) m key dims passed

  abbrev pub EndsEntry : List ℤ → Constant V → CacheEntry V → Type 0
  EndsEntry passed v e = LeadsEntry beq k (end_delta v) (EndRel v) e passed

  module _ {A : Type 0} (Inv : A → Type 0) (Ends : Constant V → A → Type 0)
      (put : Constant V → A → Result A) where
    -- A place that `set` fills.
    abbrev pub Place : A → Type 0
    Place a = (v : Constant V) → Fits v → (a' : A) × (put v a ≡ ok a') × Inv a' × Ends v a'

    -- The outcome of `get`: a place, or an answer, and never the cache error.
    abbrev pub Outcome : Result (Constant V × A × Counters) → Type 0
    Outcome (ok (calc, a, s)) = Place a
    Outcome (ok (c, a, s)) = Says c × Inv a × Ends c a
    Outcome cache_error = ⊥

  module _ {A B : Type 0} (InvA : A → Type 0) (EndsA : Constant V → A → Type 0)
      (putA : Constant V → A → Result A) (InvB : B → Type 0) (EndsB : Constant V → B → Type 0)
      (putB : Constant V → B → Result B) (f : A → B) (inv : (a : A) → InvA a → InvB (f a))
      (ends : (v : Constant V) (a : A) → EndsA v a → EndsB v (f a))
      (puts : (v : Constant V) (a a' : A) → putA v a ≡ ok a' → putB v (f a) ≡ ok (f a')) where
    pub Place-map : (a : A) → Place InvA EndsA putA a → Place InvB EndsB putB (f a)
    Place-map a p v w = let (a', e, i, q) = p v w in (f a', puts v a a' e, inv a' i, ends v a' q)

    pub Outcome-map :
        (r : Result (Constant V × A × Counters))
        → Outcome InvA EndsA putA r
        → Outcome InvB EndsB putB (r >>= λ (c, a, s). ok (c, f a, s))
    Outcome-map (ok (calc, a, s)) h = Place-map a h
    Outcome-map (ok (loop, a, s)) h = (h.0, inv a h.1, ends loop a h.2)
    Outcome-map (ok (demand ds, a, s)) h = (h.0, inv a h.1, ends (demand ds) a h.2)
    Outcome-map (ok (value x, a, s)) h = (h.0, inv a h.1, ends (value x) a h.2)
    Outcome-map cache_error h = absurd h

  -- A level of which nothing is missing is passed, also with a larger delta.
  pub missing-end_delta :
      (v : Constant V) (dims : List ℤ) → missing delta dims ≡ [] → missing (end_delta v) dims ≡ []
  missing-end_delta calc dims h = h
  missing-end_delta loop dims h = h
  missing-end_delta (value x) dims h = h
  missing-end_delta (demand ds) dims h =
      missing-none delta (joined delta ds) dims (λ d m p. rw p refl)
        (λ d m. absurd (nothing_in h d m))
    where
      nothing_in : {l : List ℤ} → l ≡ [] → (d : ℤ) → mem d l ≡ true → ⊥
      nothing_in {l} e d m = let q : mem d [] ≡ true = subst (λ x. mem d x ≡ true) e m in cc
