-- ===== src/Workshops/Answers.antt =====
-- The evaluation by a context and a `Delta` (src/libs/system/eval_workshops.cpp) against that by a
-- context alone.
pub mod Branches
pub mod Loops
pub mod Lists
pub mod Result
use trans_lucid.Prelude.{
  ℕ, zero, suc, Bool, true, false, ◌≡◌, refl, Option, none, some, List, [], ◌∷◌, ◌++◌, arith, map,
  subst, sym, ap, Bool-cases, inl, inr,
}
use trans_lucid.Prelude.Int.{ℤ}
use trans_lucid.Context.{Context, set_insert}
use trans_lucid.Workshops.{Value, World}
use trans_lucid.Workshops.Delta.{Delta, contains, perturbed, contains-perturbed}
use trans_lucid.Workshops.Uncached.{◌>>=◌}
use trans_lucid.Workshops.Cached.{Answer, value, demand, Timed, dim_set}

abbrev pub NonEmpty {ℓ} : {A : Type ℓ} → List A → Type 0
NonEmpty [] = ⊥
NonEmpty (x ∷ xs) = Unit

-- Dimensions of which the set has none.
abbrev pub AllMissing : Delta → List ℤ → Type 0
AllMissing delta [] = Unit
AllMissing delta (d ∷ ds) = (contains delta d ≡ false) × AllMissing delta ds

module _ {X : Type 0} (delta : Delta) where
  -- An answer that goes with a value: the value itself, or a demand for dimensions that the set does
  -- not have.
  abbrev pub Matches : Value X → Answer X → Type 0
  Matches v (value c) = c ≡ v
  Matches v (demand ds) = NonEmpty ds × AllMissing delta ds

  abbrev pub Answers : Option (Value X) → Option (Timed X) → Type 0
  Answers none r = Unit
  Answers (some v) none = ⊥
  Answers (some v) (some (t, a)) = Matches v a

  -- The rules for a bind: on every answer that goes with the value, and on the two kinds of answer.
  pub bind-Matches {ℓ κ} :
      {A : Type ℓ} {B : Type κ} (P : Option A → Option B → Type 0)
      → ((r : Option B) → P none r)
      → (o : Option (Value X)) (r : Option (Timed X)) (f : Value X → Option A)
        (g : Timed X → Option B)
      → Answers o r
      → ((v : Value X) (t : ℕ) (a : Answer X) → Matches v a → P (f v) (g (t, a)))
      → P (o >>= f) (r >>= g)
  bind-Matches P empty none r f g h next = empty (r >>= g)
  bind-Matches P empty (some v) none f g h next = absurd h
  bind-Matches P empty (some v) (some (t, a)) f g h next = next v t a h

  -- The rule for two of them in turn.
  pub bind_both-Matches {ℓ κ} :
      {A : Type ℓ} {B : Type κ} (P : Option A → Option B → Type 0)
      → ((r : Option B) → P none r)
      → (o o' : Option (Value X)) (r r' : Option (Timed X)) (f : Value X → Value X → Option A)
        (g : Timed X → Timed X → Option B)
      → Answers o r
      → Answers o' r'
      → ((v w : Value X) (t u : ℕ) (a b : Answer X)
          → Matches v a
          → Matches w b
          → P (f v w) (g (t, a) (u, b)))
      → P (o >>= λ v. o' >>= λ w. f v w) (r >>= λ x. r' >>= λ y. g x y)
  bind_both-Matches P empty o o' r r' f g h h' next =
      bind-Matches P empty o r _ _ h
        λ v t a m. bind-Matches P empty o' r' (f v) (g (t, a)) h' λ w u b n. next v w t u a b m n

  pub Answers->>= :
      (o : Option (Value X)) (r : Option (Timed X)) (f : Value X → Option (Value X))
      (g : Timed X → Option (Timed X))
      → Answers o r
      → ((v : Value X) (t : ℕ) → Answers (f v) (g (t, value v)))
      → ((v : Value X) (t : ℕ) (ds : List ℤ)
          → NonEmpty ds
          → AllMissing delta ds
          → Answers (f v) (g (t, demand ds)))
      → Answers (o >>= f) (r >>= g)
  Answers->>= o r f g h on_value on_demand =
      bind-Matches Answers (λ r'. tt) o r f g h λ v t a m. by_answer v t a m
    where
      by_answer : (v : Value X) (t : ℕ) (a : Answer X) → Matches v a → Answers (f v) (g (t, a))
      by_answer v t (value c) m = subst (λ x. Answers (f v) (g (t, value x))) (sym m) (on_value v t)
      by_answer v t (demand ds) m = on_demand v t ds m.0 m.1

pub AllMissing-append :
    (delta : Delta) (ds es : List ℤ)
    → AllMissing delta ds
    → AllMissing delta es
    → AllMissing delta (ds ++ es)
AllMissing-append delta [] es h k = k
AllMissing-append delta (d ∷ ds) es h k = (h.0, AllMissing-append delta ds es h.1 k)

AllMissing-set_insert :
    (delta : Delta) (d : ℤ) (ds : List ℤ)
    → contains delta d ≡ false
    → AllMissing delta ds
    → AllMissing delta (set_insert d ds)
unfolding set_insert
AllMissing-set_insert delta d [] h k = (h, k)
AllMissing-set_insert delta d (e ∷ ds) h k = ground (arith, AllMissing-set_insert delta d ds)

pub AllMissing-dim_set :
    (delta : Delta) (ds : List ℤ) → AllMissing delta ds → AllMissing delta (dim_set ds)
unfolding dim_set
AllMissing-dim_set delta [] h = h
AllMissing-dim_set delta (d ∷ ds) h =
    AllMissing-set_insert delta d (dim_set ds) h.0 (AllMissing-dim_set delta ds h.1)

pub NonEmpty-dim_set : (d : ℤ) (ds : List ℤ) → NonEmpty (dim_set (d ∷ ds))
unfolding dim_set
NonEmpty-dim_set d ds = inserted (dim_set ds)
  where
    inserted : (es : List ℤ) → NonEmpty (set_insert d es)
    inserted [] = tt
    inserted (e ∷ es) = ground arith

-- What is missing in a larger set is missing in the smaller one.
AllMissing-perturbed {ℓ} :
    {V : Type ℓ} (t : List (ℤ × V)) (delta : Delta) (ds : List ℤ)
    → AllMissing (perturbed t delta) ds
    → AllMissing delta ds
AllMissing-perturbed t delta [] h = h
AllMissing-perturbed t delta (d ∷ ds) h =
    (ground (arith, contains-perturbed t delta d, h.0), AllMissing-perturbed t delta ds h.1)

pub Answers-perturbed {ℓ} :
    {X : Type 0} {V : Type ℓ} (t : List (ℤ × V)) (delta : Delta) (o : Option (Value X))
    (r : Option (Timed X))
    → Answers (perturbed t delta) o r
    → Answers delta o r
Answers-perturbed t delta none r h = tt
Answers-perturbed t delta (some v) none h = h
Answers-perturbed t delta (some v) (some (u, value c)) h = h
Answers-perturbed t delta (some v) (some (u, demand ds)) h =
    (h.0, AllMissing-perturbed t delta ds h.1)

-- A demand goes with every value.
pub Answers-demand :
    {X : Type 0} (delta : Delta) (o : Option (Value X)) (t : ℕ) (ds : List ℤ)
    → NonEmpty ds
    → AllMissing delta ds
    → Answers delta o (some (t, demand ds))
Answers-demand delta none t ds h k = tt
Answers-demand delta (some v) t ds h k = (h, k)

pub Answers-value :
    {X : Type 0} (delta : Delta) (v : Value X) (t : ℕ) → Answers delta (some v) (some (t, value v))
Answers-value delta v t = refl
