-- ===== src/Cache/Linked.antt =====
-- What `CacheWS::operator()(Context&)` of src/libs/system/cache.cpp promises of an expression whose
-- answers are right.
use trans_lucid.Prelude.{
  ℕ, zero, suc, ◌<◌, Bool, true, false, some, ◌≡◌, ◌↔◌, refl, subst, ap, fun_ext, ◌∙◌, List, [],
  ◌∷◌, arith, if◌then◌else◌, length, Bool-cases, inl, inr,
}
use trans_lucid.Prelude.Int.{ℤ, eqb_ℤ, eqb_ℤ_iff}
use trans_lucid.Context.{Context, lookup}
use trans_lucid.Context.Stacks.{IsValid, perturb-IsValid}
use trans_lucid.Workshops.Support.Contexts.{lookup-perturb}
use trans_lucid.Cache.Tree.{Constant, calc, loop, demand, value, ok}
use trans_lucid.Cache.{Cache}
use trans_lucid.Cache.Lookup.{Lacks}
use trans_lucid.Cache.Asks.{AsksIn, LevelsIn}
use trans_lucid.Cache.Root.{IsRight}
use trans_lucid.Cache.Workshop.{Evaluated, cache_ws, empty}
use trans_lucid.Cache.Sound.{AnswersRightly, IsPlain, IsRightFor, cache_ws_lem}
use trans_lucid.Cache.Stays.{DemandsIn, StaysIn, cache_ws-StaysIn}
use trans_lucid.Cache.Lacking.{lacking, lacking-demands, lacking-le-length}
use trans_lucid.Cache.Link.{perturb_demands, Linked, ask, drive_answer, drive, link}
use trans_lucid.Workshops.Answers.{AllMissing}
use trans_lucid.Workshops.Delta.{Delta, contains, insert, insert_all, mem}

module _ {V : Type 0} (all : Constant V) where
  -- A valid context that has the ordinates of another.
  record SameOrdinates (k k' : Context (Constant V)) : Type 0 where
    valid : IsValid all k'
    same : (e : ℤ) → lookup all k' e ≡ lookup all k e

  SameOrdinates-perturb_demands :
      (ds : List ℤ) (k k' : Context (Constant V))
      → SameOrdinates k k'
      → SameOrdinates k (perturb_demands all ds k')
  unfolding perturb_demands
  SameOrdinates-perturb_demands [] k k' s = s
  SameOrdinates-perturb_demands (d ∷ ds) k k' s = SameOrdinates-perturb_demands ds k _ (record {
    valid = perturb-IsValid all d k' s.valid (lookup all k' d);
    same = λ e. lookup-perturb all d e (lookup all k' d) k' s.valid ∙ by_test e ∙ s.same e;
  })
    where
      by_test : (e : ℤ) → (if eqb_ℤ d e then lookup all k' d else lookup all k' e) ≡ lookup all k' e
      by_test e = elim (Bool-cases (eqb_ℤ d e)) [
        | inl p ↦ rw p (ap (lookup all k') ((eqb_ℤ_iff d e).0 p))
        | inr p ↦ rw p refl
      ]

-- A set that lists its dimensions.
insert_all-listed :
    (ds : List ℤ) (delta : Delta) → delta.all ≡ false → (insert_all ds delta).all ≡ false
unfolding insert_all
insert_all-listed [] delta h = h
insert_all-listed (d ∷ ds) delta h = insert_all-listed ds (insert d delta) (unfold insert in h)

Lacks-AllMissing :
    (delta : Delta) (ds : List ℤ)
    → delta.all ≡ false
    → Lacks (λ d. mem d delta.dims) ds
    → AllMissing delta ds
unfolding contains
Lacks-AllMissing delta [] e h = tt
Lacks-AllMissing delta (d ∷ ds) e h = (rw e h.0, Lacks-AllMissing delta ds e h.1)

module _ {V : Type 0} (all : Constant V) (beq : Constant V → Constant V → Bool)
    (beq_iff : (a b : Constant V) → (beq a b ≡ true) ↔ (a ≡ b))
    (Sem : (ℤ → Constant V) → Constant V → Type 0)
    (expr : (ℤ → Constant V) → Delta → ℕ → Cache V → Evaluated V) (k : Context (Constant V))
    (valid : IsValid all k) (rightly : AnswersRightly Sem expr (lookup all k) 0) (u : List ℤ)
    (within : DemandsIn u expr (lookup all k)) where
  -- It returns a constant that is right in the context, and leaves a right cache.
  abbrev pub IsLinked : Linked all → Type 0
  IsLinked r =
      (v : Constant V) × (c : Cache V) × (r ≡ some (ok (v, c)))
      × IsRight Sem c
      × IsPlain v
      × Sem (lookup all k) v

  abbrev Next : ℕ → Type 0
  Next rounds =
      (k' : Context (Constant V)) (delta : Delta) (c : Cache V)
      → SameOrdinates all k k'
      → delta.all ≡ false
      → lacking u delta < rounds
      → IsRight Sem c
      → LevelsIn u c
      → IsLinked (drive all beq expr rounds k' delta c)

  answer_lem :
      (rounds : ℕ) (k' : Context (Constant V)) (delta : Delta) (t : ℕ) (v : Constant V)
      (c : Cache V)
      → Next rounds
      → SameOrdinates all k k'
      → delta.all ≡ false
      → lacking u delta < suc rounds
      → IsRight Sem c
      → LevelsIn u c
      → AsksIn u v
      → IsRightFor Sem (lookup all k) delta v
      → IsLinked
          (drive_answer all beq expr (drive all beq expr rounds) k' delta (some (ok (t, v, c))))
  unfolding drive_answer
  answer_lem rounds k' delta t calc c next s l m r i a h = absurd h
  answer_lem rounds k' delta t loop c next s l m r i a h = (loop, c, refl, r, tt, h)
  answer_lem rounds k' delta t (value x) c next s l m r i a h = (value x, c, refl, r, tt, h)
  answer_lem rounds k' delta t (demand ds) c next s l m r i a h =
      next (perturb_demands all ds k') (insert_all ds delta) c
        (SameOrdinates-perturb_demands all ds k k' s) (insert_all-listed ds delta l)
        (omega (arith, lacking-demands u ds delta h.0 (Lacks-AllMissing delta ds l h.1) a)) r i

  ask-same :
      (k' : Context (Constant V)) (delta : Delta) (c : Cache V)
      → SameOrdinates all k k'
      → ask all beq expr k' delta c
        ≡ cache_ws beq expr (suc (length delta.dims)) (lookup all k) delta 0 c
  unfolding ask
  ask-same k' delta c s =
      ap (λ f. cache_ws beq expr (suc (length delta.dims)) f delta 0 c) (fun_ext s.same)

  drive_lem : (rounds : ℕ) → Next rounds
  unfolding drive
  drive_lem zero k' delta c s l m r i = absurd (omega (arith, m))
  drive_lem (suc rounds) k' delta c s l m r i =
      let (v, c', e, r', h) =
        cache_ws_lem beq beq_iff Sem expr (lookup all k) delta 0 rightly (suc (length delta.dims)) c
          (omega arith) r in
      let stays : AsksIn u v × LevelsIn u c' =
        subst (StaysIn u beq expr (lookup all k) within delta 0) e (
          cache_ws-StaysIn u beq expr (lookup all k) within delta 0 (suc (length delta.dims)) c
            i) in
      rw (ask-same k' delta c s ∙ e)
        (answer_lem rounds k' delta 0 v c' (drive_lem rounds) s l m r' stays.1 stays.0 h)

  -- Let `beq` decide the equality of constants, and let the expression answer in the context as it does
  -- for `CacheWS::operator()` with a Delta: it leaves this cache alone, and demands dimensions that are
  -- not known, or gives a constant that is right wherever the known dimensions have these ordinates.
  -- Let it only demand dimensions of a finite list, and let a cache of right values have levels for
  -- these alone. For a system without the cache, let the expression's own operator give a constant that
  -- is right, with the same cache. Then `CacheWS::operator()(Context&)` on a valid context returns, with
  -- the cache or without: the loop that tells the expression what it demands ends, after at most one
  -- round more than the list is long. The constant is right in the context, neither a demand nor
  -- `calc`, and the cache that is left has only right values.
  pub link_lem :
      (cache_enabled : Bool) (plain : Context (Constant V) → Cache V → Linked all) (c : Cache V)
      → ((v : Constant V) × (plain k c ≡ some (ok (v, c))) × IsPlain v × Sem (lookup all k) v)
      → IsRight Sem c
      → LevelsIn u c
      → IsLinked (link all beq expr cache_enabled plain (suc (length u)) k c)
  unfolding link
  link_lem false plain c (v, e, p, h) r i = (v, c, e, r, p, h)
  link_lem true plain c there r i =
      drive_lem (suc (length u)) k empty c (record { valid = valid; same = λ e. refl }) refl
        (omega (arith, lacking-le-length u empty)) r i
