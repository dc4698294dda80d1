-- ===== src/Cache/Sound.antt =====
-- What `CacheWS::operator()` of src/libs/system/cache.cpp promises of an expression whose answers are
-- right.
use trans_lucid.Prelude.{
  ℕ, zero, suc, ◌<◌, Bool, true, some, ◌≡◌, ◌↔◌, refl, sym, subst, ap, fun_ext, List, [], ◌∷◌,
  arith, inl, inr, ◌∙◌, length,
}
use trans_lucid.Prelude.Int.{ℤ}
use trans_lucid.Cache.Tree.{Constant, calc, loop, demand, value, Result, ok, cache_error}
use trans_lucid.Cache.Get.{answer}
use trans_lucid.Cache.Shape.{missing_cases}
use trans_lucid.Cache.Path.{Covers, stored}
use trans_lucid.Cache.Lookup.{joined, Lacks, Lacks-missing, missing-mem, Fits, Says}
use trans_lucid.Cache.Root.{
  IsRight, Leads, EndsCache, OutcomeCache, get_lem, Covers-nothing, found_lem,
}
use trans_lucid.Cache.Remember.{Remembers, Leads-Remembers, get-HitCache}
use trans_lucid.Cache.Workshop.{
  Evaluated, cache_ws, cached_loop, on_get, on_answer, on_result, on_difference, final_get,
  difference, empty,
}
use trans_lucid.Cache.{Cache, get, set}
use trans_lucid.Workshops.Answers.{NonEmpty, AllMissing}
use trans_lucid.Workshops.Delta.{Delta, contains, insert, insert_all, mem, contains-insert}
use trans_lucid.Cache.Lacking.{lacking, lacking-demands, lacking-le-length}

pub contains-insert_all :
    (ds : List ℤ) (sub : Delta) (d : ℤ)
    → contains (insert_all ds sub) d ≡ joined (contains sub) ds d
unfolding insert_all
contains-insert_all [] sub d = ground arith
contains-insert_all (x ∷ ds) sub d =
    ground (arith, contains-insert_all ds (insert x sub) d, contains-insert x d sub)

pub AllMissing-Lacks : (sub : Delta) (ds : List ℤ) → Lacks (contains sub) ds → AllMissing sub ds
AllMissing-Lacks sub [] h = tt
AllMissing-Lacks sub (d ∷ ds) h = (h.0, AllMissing-Lacks sub ds h.1)

module _ {V : Type 0} (Sem : (ℤ → Constant V) → Constant V → Type 0) where
  -- An answer of the expression that is right: it demands some dimensions that `sub` lacks, or it is
  -- right in all contexts that agree on `sub`.
  abbrev pub IsRightAnswer : (ℤ → Constant V) → Delta → Constant V → Type 0
  IsRightAnswer k sub calc = ⊥
  IsRightAnswer k sub (demand ds) = NonEmpty ds × Lacks (contains sub) ds
  IsRightAnswer k sub v =
      (k' : ℤ → Constant V) → ((d : ℤ) → contains sub d ≡ true → k' d ≡ k d) → Sem k' v

  -- The expression always answers, rightly, and leaves this cache as it is.
  abbrev pub AnswersRightly :
      ((ℤ → Constant V) → Delta → ℕ → Cache V → Evaluated V) → (ℤ → Constant V) → ℕ → Type 0
  AnswersRightly expr k t =
      (sub : Delta) (c : Cache V)
      → (t' : ℕ) × (v : Constant V) × (expr k sub t c ≡ some (ok (t', v, c)))
        × IsRightAnswer k sub v

  -- A right outcome of the operator: it demands some dimensions that are not in the set, or it is
  -- right in the context.
  abbrev pub IsRightFor : (ℤ → Constant V) → Delta → Constant V → Type 0
  IsRightFor k delta calc = ⊥
  IsRightFor k delta (demand ds) = NonEmpty ds × Lacks (λ d. mem d delta.dims) ds
  IsRightFor k delta v = Sem k v

  -- The operator returns, with the time given and without the cache error, what is right for it, and
  -- leaves a right cache.
  abbrev pub Returns : (ℤ → Constant V) → Delta → ℕ → Evaluated V → Type 0
  Returns k delta t r =
      (v : Constant V) × (c : Cache V) × (r ≡ some (ok (t, v, c)))
      × IsRight Sem c
      × IsRightFor k delta v

-- A constant that is neither a demand nor `calc`.
abbrev pub IsPlain : {V : Type 0} → Constant V → Type 0
IsPlain calc = ⊥
IsPlain (demand ds) = ⊥
IsPlain c = Unit

module _ {V : Type 0} (beq : Constant V → Constant V → Bool)
    (beq_iff : (a b : Constant V) → (beq a b ≡ true) ↔ (a ≡ b))
    (Sem : (ℤ → Constant V) → Constant V → Type 0)
    (expr : (ℤ → Constant V) → Delta → ℕ → Cache V → Evaluated V) (k : ℤ → Constant V)
    (delta : Delta) (t : ℕ) (rightly : AnswersRightly Sem expr k t) where
  -- What it returns is kept in the cache that it leaves.
  abbrev Kept : Evaluated V → Type 0
  Kept r =
      (v : Constant V) × (c : Cache V) × (r ≡ some (ok (t, v, c)))
      × IsRight Sem c
      × IsRightFor Sem k delta v
      × (IsPlain v → Remembers beq k delta.dims v c)

  abbrev Within : Delta → Type 0
  Within sub = (d : ℤ) → contains sub d ≡ true → mem d delta.dims ≡ true

  unfoldable AnswersIn : Delta → Constant V → Cache V → Type 0
  AnswersIn sub v c =
      Says beq k Sem (contains sub) v
      × IsRight Sem c
      × EndsCache beq beq_iff k Sem (contains sub) v c

  -- What the rounds after a demand give.
  abbrev GoesOn : Delta → (Delta → Cache V → Evaluated V) → Type 0
  GoesOn sub again =
      (ds : List ℤ) (c : Cache V)
      → NonEmpty ds
      → Lacks (contains sub) ds
      → ((d : ℤ) → mem d ds ≡ true → mem d delta.dims ≡ true)
      → IsRight Sem c
      → Leads beq k (joined (contains sub) ds) (Covers (joined (contains sub) ds)) c
      → Kept (again (insert_all ds sub) c)

  final_lem :
      (sub : Delta) (v : Constant V) (c : Cache V)
      → Within sub
      → answer v ≡ v
      → IsRightFor Sem k delta v
      → IsRight Sem c
      → Leads beq k (contains sub) (λ passed s. s ≡ stored v) c
      → Kept (final_get beq expr k delta t c)
  unfolding final_get
  final_lem sub v c w a says r ends =
      let (c', e, r') =
        found_lem beq k Sem (contains sub) (contains delta)
          (λ d p. unfold contains in ground (arith, w d p)) v c r ends in
      let (x, c2, e2, rem, g) =
        get-HitCache beq k delta.dims v (contains delta) a c
          (Leads-Remembers beq k delta.dims v (contains sub) w c ends) in
      let same : c2 ≡ c' = cc in
      (
        v,
        c',
        rw e (ap (λ x. some (ok (t, x, c'))) a),
        r',
        says,
        λ plain. subst (Remembers beq k delta.dims v) same rem,
      )

  on_answer_lem :
      (again : Delta → Cache V → Evaluated V) (sub : Delta) (v : Constant V) (c : Cache V)
      → Within sub
      → GoesOn sub again
      → AnswersIn sub v c
      → Kept (on_answer beq expr k delta t again sub v c)
  unfolding on_answer on_difference difference AnswersIn
  on_answer_lem again sub calc c w g (says, r, ends) = absurd says
  on_answer_lem again sub loop c w g (says, r, ends) =
      final_lem sub loop c w (unfold answer in refl) says r ends
  on_answer_lem again sub (value x) c w g (says, r, ends) =
      final_lem sub (value x) c w (unfold answer in refl) says r ends
  on_answer_lem again sub (demand ds) c w g (says, r, ends) =
      elim (missing_cases (λ d. mem d delta.dims) ds) [
        | inl e ↦ rw e (g ds c says.0 says.1 (missing-mem (λ d. mem d delta.dims) ds e) r ends)
        | inr (d, diff, e) ↦ rw e (
          demand (d ∷ diff),
          c,
          refl,
          r,
          (tt, subst (Lacks (λ d. mem d delta.dims)) e (Lacks-missing (λ d. mem d delta.dims) ds)),
          λ plain. absurd plain,
        )
      ]

  Fits-IsRightAnswer :
      (sub : Delta) (v : Constant V)
      → IsRightAnswer Sem k sub v
      → Fits beq k Sem (contains sub) v × Says beq k Sem (contains sub) v
  Fits-IsRightAnswer sub calc h = absurd h
  Fits-IsRightAnswer sub loop h = (h, h k (λ d p. refl))
  Fits-IsRightAnswer sub (value x) h = (h, h k (λ d p. refl))
  Fits-IsRightAnswer sub (demand ds) h = (h.0, h)

  on_result-set :
      (again : Delta → Cache V → Evaluated V) (sub : Delta) (t' : ℕ) (v : Constant V)
      (c c' : Cache V)
      → set beq k v c ≡ ok c'
      → on_result beq expr k delta t again sub (some (ok (t', v, c)))
        ≡ on_answer beq expr k delta t again sub v c'
  unfolding on_result
  on_result-set again sub t' v c c' put = rw (put, on_result) refl

  on_get_lem :
      (again : Delta → Cache V → Evaluated V) (sub : Delta) (r : Result (Constant V × Cache V))
      → Within sub
      → GoesOn sub again
      → OutcomeCache beq beq_iff k Sem (contains sub) r
      → Kept (on_get beq expr k delta t again sub r)
  unfolding on_get on_result AnswersIn
  on_get_lem again sub cache_error w g h = absurd h
  on_get_lem again sub (ok (calc, c)) w g h =
      let (t', v, e, right) = rightly sub c in
      let (fits, says) = Fits-IsRightAnswer sub v right in
      let (c', put, r, ends) = h v fits in
      subst Kept
        (sym
          (ap (on_result beq expr k delta t again sub) e ∙ on_result-set again sub t' v c c' put))
        (on_answer_lem again sub v c' w g (says, r, ends))
  on_get_lem again sub (ok (loop, c)) w g h = on_answer_lem again sub loop c w g h
  on_get_lem again sub (ok (value x, c)) w g h = on_answer_lem again sub (value x) c w g h
  on_get_lem again sub (ok (demand ds, c)) w g h = on_answer_lem again sub (demand ds) c w g h

  Within-insert_all :
      (ds : List ℤ) (sub : Delta)
      → Within sub
      → ((d : ℤ) → mem d ds ≡ true → mem d delta.dims ≡ true)
      → Within (insert_all ds sub)
  Within-insert_all ds sub w h d p = ground (arith, w d, h d, contains-insert_all ds sub d)

  loop_lem :
      (fuel : ℕ) (sub : Delta) (c : Cache V)
      → lacking delta.dims sub < fuel
      → Within sub
      → IsRight Sem c
      → Leads beq k (contains sub) (Covers (contains sub)) c
      → Kept (cached_loop beq expr k delta t fuel sub c)
  unfolding cached_loop
  loop_lem zero sub c f w r h = absurd (omega (arith, f))
  loop_lem (suc fuel) sub c f w r h =
      on_get_lem (cached_loop beq expr k delta t fuel) sub (get beq k (contains sub) c) w
        (λ ds c' n l inside r' h'.
          loop_lem fuel (insert_all ds sub) c'
            (omega
              (arith, f, lacking-demands delta.dims ds sub n (AllMissing-Lacks sub ds l) inside))
            (Within-insert_all ds sub w inside) r'
            (subst (λ x. Leads beq k x (Covers x) c') (sym (fun_ext (contains-insert_all ds sub)))
              h'))
        (get_lem beq beq_iff k Sem (contains sub) c r h)

  pub cache_ws-Kept :
      (fuel : ℕ) (c : Cache V)
      → length delta.dims < fuel
      → IsRight Sem c
      → Kept (cache_ws beq expr fuel k delta t c)
  unfolding cache_ws contains
  cache_ws-Kept fuel c f r =
      loop_lem fuel empty c (omega (arith, f, lacking-le-length delta.dims empty)) (λ d p. cc) r
        (Covers-nothing beq k Sem c r)

  -- Let `beq` decide the equality of constants, and let the expression, in the context `k` and for
  -- every set of known dimensions, leave this cache alone and answer either with a demand for some
  -- dimensions that are not known, or with a constant, neither a demand nor `calc`, that is right in
  -- all contexts that agree with `k` on the known dimensions. From a cache of right values, and with
  -- more rounds of fuel than the set `delta` has dimensions, `CacheWS::operator()` returns without the
  -- cache error. What it returns, from the cache or newly computed, is right in `k`, or a demand for
  -- some dimensions that `delta` does not list; and it leaves a cache of right values.
  pub cache_ws_lem :
      (fuel : ℕ) (c : Cache V)
      → length delta.dims < fuel
      → IsRight Sem c
      → Returns Sem k delta t (cache_ws beq expr fuel k delta t c)
  cache_ws_lem fuel c f r = let (v, c', e, i, s, q) = cache_ws-Kept fuel c f r in (v, c', e, i, s)
