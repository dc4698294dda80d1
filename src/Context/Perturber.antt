-- ===== src/Context/Perturber.antt =====
-- `ContextPerturber` and the marks `m_rho` of src/include/tl/context.hpp. A perturber
-- remembers the dimensions that it perturbs, and its destructor restores them.
use mathlib.Core.Option
use trans_lucid.Prelude.{ℕ, ◌≡◌, ◌≢◌, refl, ap, Option, none, some, List, [], ◌∷◌, ◌++◌}
use trans_lucid.Prelude.Int.{ℤ, pos, ◌+ℤ◌}
use trans_lucid.Context.{Context, Slot, perturb, perturb_tuple, restore}
use trans_lucid.Context.Stacks.{IsValid}
use trans_lucid.Context.Restore.{dims, SameStacks, restore-perturb_tuple}

-- A perturber with the context that it refers to.
pub record Perturber (V : Type 0) : Type 0 where
  pub kappa : Context V
  pub dims : List ℤ

-- All but the last of the marks; the source's behaviour on an empty deque is undefined.
unfoldable pub drop_back : List ℕ → Option (List ℕ)
drop_back [] = none
drop_back (x ∷ []) = some []
drop_back (x ∷ y ∷ rest) = Option.map (λ l. x ∷ l) (drop_back (y ∷ rest))

module _ {V : Type 0} where
  -- `pushRho`, at the front of the deque.
  unfoldable pub push_rho : ℕ → Context V → Context V
  push_rho index k = record k { rho = index ∷ k.rho }

  -- `popRho`, at the back.
  unfoldable pub pop_rho : Context V → Option (Context V)
  unfolding drop_back
  pop_rho k = Option.map (λ l. record k { rho = l }) (drop_back k.rho)

  pop_with_marks :
      (x : ℕ) (k : Context V) (l : List ℕ)
      → l ≢ []
      → Option.map (λ r. record k { rho = r }) (drop_back (x ∷ l))
        ≡ Option.map (push_rho x) (Option.map (λ r. record k { rho = r }) (drop_back l))
  unfolding push_rho drop_back
  pop_with_marks x k [] h = absurd (h refl)
  pop_with_marks x k (y ∷ rest) h = after_pop (drop_back (y ∷ rest))
    where
      after_pop :
          (o : Option (List ℕ))
          → Option.map (λ r. record k { rho = r }) (Option.map (λ l. x ∷ l) o)
            ≡ Option.map (push_rho x) (Option.map (λ r. record k { rho = r }) o)
      after_pop none = refl
      after_pop (some l) = refl

  -- Where there is a mark already, `popRho` after `pushRho` does not take back the new mark: it
  -- takes away the oldest one, and the new one stays.
  pub pop_rho-push_rho :
      (x : ℕ) (k : Context V)
      → k.rho ≢ []
      → pop_rho (push_rho x k) ≡ Option.map (push_rho x) (pop_rho k)
  unfolding pop_rho push_rho
  pop_rho-push_rho x k h = pop_with_marks x k k.rho h

module _ {V : Type 0} (all : V) where
  -- `ContextPerturber(Context&)`
  abbrev pub begin : Context V → Perturber V
  begin k = record { kappa = k; dims = [] }

  -- `ContextPerturber::perturb(dimension_index, const Constant&)`
  unfoldable pub perturb_dim : ℤ → V → Perturber V → Perturber V
  perturb_dim d c p = record { kappa = perturb all d c p.kappa; dims = p.dims ++ d ∷ [] }

  -- `ContextPerturber::perturb` of a list of pairs, or of a tuple.
  unfoldable pub perturb_each : List (ℤ × V) → Perturber V → Perturber V
  unfolding perturb_dim
  perturb_each [] p = p
  perturb_each ((d, c) ∷ t) p = perturb_each t (perturb_dim d c p)

  -- `ContextPerturber::perturb(const Context&)`: the loop over the deque of the other context, which
  -- is another object.
  unfoldable pub perturb_slots : List (Slot V) → ℤ → Perturber V → Perturber V
  perturb_slots [] d p = p
  perturb_slots (s ∷ ss) d p =
      perturb_slots ss (d +ℤ pos 1) (elim s.stack [ [] ↦ p | c ∷ cs ↦ perturb_dim d c p ])

  unfoldable pub perturb_by : Context V → Perturber V → Perturber V
  unfolding perturb_slots
  perturb_by k p = perturb_slots k.slots (k.min +ℤ pos 1) p

  -- `~ContextPerturber()`
  unfoldable pub finish : Perturber V → Option (Context V)
  finish p = restore all p.dims p.kappa

  -- The states of a perturber that starts on the context `k`.
  pub data Reaches (k : Context V) : Perturber V → Type 0 where
    started : Reaches k (begin k)
    by_dim : (d : ℤ) (c : V) {p : Perturber V} → Reaches k p → Reaches k (perturb_dim d c p)
    by_each : (t : List (ℤ × V)) {p : Perturber V} → Reaches k p → Reaches k (perturb_each t p)
    by_context :
        (other : Context V) {p : Perturber V} → Reaches k p → Reaches k (perturb_by other p)

  -- What a perturber did is a list of perturbations, and it remembers their dimensions.
  record Did (k : Context V) (p : Perturber V) : Type 0 where
    entries : List (ℤ × V)
    kappa_is : p.kappa ≡ perturb_tuple all entries k
    dims_are : p.dims ≡ dims entries

  perturb_tuple-append :
      (t : List (ℤ × V)) (d : ℤ) (c : V) (k : Context V)
      → perturb_tuple all (t ++ (d, c) ∷ []) k ≡ perturb all d c (perturb_tuple all t k)
  unfolding perturb_tuple
  perturb_tuple-append [] d c k = refl
  perturb_tuple-append (e ∷ t) d c k = perturb_tuple-append t d c (perturb all e.0 e.1 k)

  dims-append : (t : List (ℤ × V)) (d : ℤ) (c : V) → dims (t ++ (d, c) ∷ []) ≡ dims t ++ d ∷ []
  dims-append [] d c = refl
  dims-append (e ∷ t) d c = ap (λ l. e.0 ∷ l) (dims-append t d c)

  perturb_dim-Did :
      (d : ℤ) (c : V) (k : Context V) (p : Perturber V) → Did k p → Did k (perturb_dim d c p)
  unfolding perturb_dim
  perturb_dim-Did d c k p h = record {
    entries = h.entries ++ (d, c) ∷ [];
    kappa_is = rw (perturb_tuple-append h.entries d c k) (ap (perturb all d c) h.kappa_is);
    dims_are = rw (dims-append h.entries d c) (ap (λ l. l ++ d ∷ []) h.dims_are);
  }

  perturb_each-Did :
      (t : List (ℤ × V)) (k : Context V) (p : Perturber V) → Did k p → Did k (perturb_each t p)
  unfolding perturb_each
  perturb_each-Did [] k p h = h
  perturb_each-Did ((d, c) ∷ t) k p h =
      perturb_each-Did t k (perturb_dim d c p) (perturb_dim-Did d c k p h)

  perturb_slots-Did :
      (ss : List (Slot V)) (d : ℤ) (k : Context V) (p : Perturber V)
      → Did k p
      → Did k (perturb_slots ss d p)
  unfolding perturb_slots
  perturb_slots-Did [] d k p h = h
  perturb_slots-Did (s ∷ ss) d k p h = perturb_slots-Did ss (d +ℤ pos 1) k _ (go s.stack)
    where
      go : (l : List V) → Did k (elim l [ [] ↦ p | c ∷ cs ↦ perturb_dim d c p ])
      go [] = h
      go (c ∷ cs) = perturb_dim-Did d c k p h

  Reaches-Did : (k : Context V) {p : Perturber V} → Reaches k p → Did k p
  unfolding perturb_tuple perturb_by
  Reaches-Did k started = record { entries = []; kappa_is = refl; dims_are = refl }
  Reaches-Did k (by_dim d c {p} r) = perturb_dim-Did d c k p (Reaches-Did k r)
  Reaches-Did k (by_each t {p} r) = perturb_each-Did t k p (Reaches-Did k r)
  Reaches-Did k (by_context other {p} r) =
      perturb_slots-Did other.slots (other.min +ℤ pos 1) k p (Reaches-Did k r)

  -- Whatever a perturber did to a valid context, by single dimensions, by tuples and by whole
  -- contexts, its destructor takes it back: no pop fails, the context is valid, and every dimension
  -- has its old stack again.
  pub finish-Reaches :
      (k : Context V) (p : Perturber V)
      → IsValid all k
      → Reaches k p
      → (k' : Context V) × (finish p ≡ some k') × SameStacks all k k'
  unfolding finish
  finish-Reaches k p v r =
      let h = Reaches-Did k r in
      rw (h.kappa_is, h.dims_are) (restore-perturb_tuple all h.entries k v)
