-- ===== src/Cache/Again.antt =====
-- A second call of `CacheWS::operator()` of src/libs/system/cache.cpp, in the context of the first.
use trans_lucid.Prelude.{
  ℕ, zero, suc, ◌<◌, Bool, true, some, ◌≡◌, ◌↔◌, refl, sym, subst, ap, List, [], ◌∷◌, arith, inl,
  inr, length,
}
use trans_lucid.Prelude.Int.{ℤ, eqb_ℤ_iff}
use trans_lucid.Cache.Tree.{Constant, calc, loop, demand, value, ok}
use trans_lucid.Cache.Get.{missing, answer}
use trans_lucid.Cache.Lookup.{Lacks}
use trans_lucid.Cache.Known.{In}
use trans_lucid.Cache.Root.{IsRight}
use trans_lucid.Cache.Remember.{Remembers, get-HitCache}
use trans_lucid.Cache.Workshop.{
  Evaluated, cache_ws, cached_loop, on_get, on_answer, on_difference, final_get, difference, empty,
}
use trans_lucid.Cache.Sound.{IsPlain, AnswersRightly, AllMissing-Lacks, cache_ws-Kept}
use trans_lucid.Cache.{Cache}
use trans_lucid.Workshops.Answers.{NonEmpty}
use trans_lucid.Workshops.Delta.{Delta, contains, insert_all, mem}
use trans_lucid.Cache.Lacking.{lacking, lacking-demands, lacking-le-length}

missing-all :
    (f : ℤ → Bool) (ds : List ℤ) → ((d : ℤ) → mem d ds ≡ true → f d ≡ true) → missing f ds ≡ []
unfolding missing
missing-all f [] h = refl
missing-all f (d ∷ ds) h =
    rw (h d (rw ((eqb_ℤ_iff d d).1 refl) refl)) (missing-all f ds (λ x m. h x (ground (arith, m))))

IsPlain-answer : {V : Type 0} (v : Constant V) → IsPlain v → answer v ≡ v
unfolding answer
IsPlain-answer calc p = absurd p
IsPlain-answer loop p = refl
IsPlain-answer (demand ds) p = absurd p
IsPlain-answer (value x) p = refl

module _ {V : Type 0} (beq : Constant V → Constant V → Bool) (k : ℤ → Constant V) (u : List ℤ)
    (v : Constant V) (plain : IsPlain v)
    (expr : (ℤ → Constant V) → Delta → ℕ → Cache V → Evaluated V) (delta : Delta) (t : ℕ)
    (within_delta : In u delta.dims) where
  -- The constant comes back.
  abbrev ComesBack : Evaluated V → Type 0
  ComesBack r = (c' : Cache V) × (r ≡ some (ok (t, v, c')))

  no_demand : (ds : List ℤ) → NonEmpty ds → Lacks (contains delta) ds → In ds delta.dims → ⊥
  unfolding contains
  no_demand [] n l h = n
  no_demand (d ∷ ds) n l h =
      let there = h d (rw ((eqb_ℤ_iff d d).1 refl) refl) in ground (arith, there, l.0)

  final_again : (c : Cache V) → Remembers beq k u v c → ComesBack (final_get beq expr k delta t c)
  unfolding final_get
  final_again c h =
      let (x, c', e, r, g) = get-HitCache beq k u v (contains delta) (IsPlain-answer v plain) c h in
      elim g [
        | inl same ↦ (c', rw e (ap (λ y. some (ok (t, y, c'))) same))
        | inr (ds, is_demand, n, l, i) ↦ absurd (no_demand ds n l (λ d m. within_delta d (i d m)))
      ]

  found_again :
      (w : Constant V) (again : Delta → Cache V → Evaluated V) (sub : Delta) (c : Cache V)
      → IsPlain w
      → ComesBack (final_get beq expr k delta t c)
      → ComesBack (on_get beq expr k delta t again sub (ok (w, c)))
  unfolding on_get on_answer
  found_again calc again sub c p h = absurd p
  found_again loop again sub c p h = h
  found_again (demand ds) again sub c p h = absurd p
  found_again (value x) again sub c p h = h

  demand_again :
      (ds : List ℤ) (again : Delta → Cache V → Evaluated V) (sub : Delta) (c : Cache V)
      → In ds u
      → ComesBack (again (insert_all ds sub) c)
      → ComesBack (on_get beq expr k delta t again sub (ok (demand ds, c)))
  unfolding on_get on_answer difference on_difference
  demand_again ds again sub c i h =
      rw (missing-all (λ d. mem d delta.dims) ds (λ d m. within_delta d (i d m))) h

  loop_again :
      (fuel : ℕ) (sub : Delta) (c : Cache V)
      → lacking u sub < fuel
      → Remembers beq k u v c
      → ComesBack (cached_loop beq expr k delta t fuel sub c)
  unfolding cached_loop
  loop_again zero sub c f h = absurd (omega (arith, f))
  loop_again (suc fuel) sub c f h =
      let (x, c', e, r, g) = get-HitCache beq k u v (contains sub) (IsPlain-answer v plain) c h in
      elim g [
        | inl same ↦
            rw (e, same)
              (found_again v (cached_loop beq expr k delta t fuel) sub c' plain (final_again c' r))
        | inr (ds, is_demand, n, l, i) ↦
            rw (e, is_demand)
              (demand_again ds (cached_loop beq expr k delta t fuel) sub c' i (
                loop_again fuel (insert_all ds sub) c'
                  (omega (arith, f, lacking-demands u ds sub n (AllMissing-Lacks sub ds l) i)) r))
      ]

  remembered_lem :
      (fuel : ℕ) (c : Cache V)
      → length u < fuel
      → Remembers beq k u v c
      → ComesBack (cache_ws beq expr fuel k delta t c)
  unfolding cache_ws
  remembered_lem fuel c f h =
      loop_again fuel empty c (omega (arith, f, lacking-le-length u empty)) h

module _ {V : Type 0} (beq : Constant V → Constant V → Bool)
    (beq_iff : (a b : Constant V) → (beq a b ≡ true) ↔ (a ≡ b))
    (Sem : (ℤ → Constant V) → Constant V → Type 0)
    (expr : (ℤ → Constant V) → Delta → ℕ → Cache V → Evaluated V) (k : ℤ → Constant V)
    (delta : Delta) (t : ℕ) (rightly : AnswersRightly Sem expr k t) where
  -- With `beq`, the expression and the first cache as for the first call: when it returned a constant
  -- that is neither a demand nor `calc`, a second call, on the cache that the first one left, in the
  -- same context and with at least the same dimensions, returns that constant. It does so whatever the
  -- expression would answer now, and at whatever time: the expression is not asked again.
  pub cache_ws-cache_ws :
      (fuel : ℕ) (c c' : Cache V) (v : Constant V)
      → length delta.dims < fuel
      → IsRight Sem c
      → IsPlain v
      → cache_ws beq expr fuel k delta t c ≡ some (ok (t, v, c'))
      → (expr' : (ℤ → Constant V) → Delta → ℕ → Cache V → Evaluated V) (fuel' t' : ℕ)
        (delta' : Delta)
      → In delta.dims delta'.dims
      → length delta.dims < fuel'
      → (c2 : Cache V) × (cache_ws beq expr' fuel' k delta' t' c' ≡ some (ok (t', v, c2)))
  cache_ws-cache_ws fuel c c' v f r plain first expr' fuel' t' delta' larger f' =
      let (v0, c0, e0, i, s, rem) =
        cache_ws-Kept beq beq_iff Sem expr k delta t rightly fuel c f r in
      let same : v0 ≡ v = cc in
      let same_cache : c0 ≡ c' = cc in
      remembered_lem beq k delta.dims v plain expr' delta' t' larger fuel' c' f' (
        subst (Remembers beq k delta.dims v) same_cache (
          subst (λ x. Remembers beq k delta.dims x c0) same (rem (subst IsPlain (sym same) plain))))
