-- ===== src/Workshops/Answers/Loops.antt =====
-- The loops of the workshops in src/libs/system/eval_workshops.cpp over those that they hold: what
-- each keeps, and how it ends.
use trans_lucid.Prelude.{
  ℕ, ◌≡◌, refl, Option, some, List, [], ◌∷◌, ◌++◌, Bool-cases, inl, inr, ◌⊎◌, ap,
}
use trans_lucid.Prelude.Int.{ℤ}
use trans_lucid.Workshops.{Value, World, is_special}
use trans_lucid.Workshops.Delta.{Delta, contains}
use trans_lucid.Workshops.Uncached.{Gathered, add_change, gather_turn}
use trans_lucid.Workshops.Cached.{
  Answer, value, demand, Timed, Loop, create_demand, append_demand, add_special, add_answers,
  unless_demands, missing,
}
use trans_lucid.Workshops.Answers.{
  NonEmpty, AllMissing, Answers, Answers-demand, AllMissing-dim_set, NonEmpty-dim_set,
  AllMissing-append, Matches,
}

NonEmpty-append_left {ℓ} : {A : Type ℓ} (xs ys : List A) → NonEmpty xs → NonEmpty (xs ++ ys)
NonEmpty-append_left [] ys h = absurd h
NonEmpty-append_left (x ∷ xs) ys h = tt

NonEmpty-append_right {ℓ} : {A : Type ℓ} (xs ys : List A) → NonEmpty ys → NonEmpty (xs ++ ys)
NonEmpty-append_right [] ys h = h
NonEmpty-append_right (x ∷ xs) ys h = tt

pub AllMissing-missing : (delta : Delta) (ds : List ℤ) → AllMissing delta (missing delta ds)
unfolding missing
AllMissing-missing delta [] = tt
AllMissing-missing delta (d ∷ ds) = elim (Bool-cases (contains delta d)) [
  | inl e ↦ rw e (AllMissing-missing delta ds)
  | inr e ↦ rw e (e, AllMissing-missing delta ds)
]

-- The state of a loop: what it demands is missing, and if it demands nothing then it has made what
-- the uncached loop has made.
abbrev pub Keeps : Delta → List ℤ → Type 0 → Type 0
Keeps delta ds Same = AllMissing delta ds × (NonEmpty ds ⊎ Same)

module _ {X : Type 0} (delta : Delta) where
  pub Keeps-append_demand :
      (v : Value X) (a : Answer X) (ds : List ℤ) {Same Same' : Type 0}
      → Matches delta v a
      → Keeps delta ds Same
      → (a ≡ value v → Same → Same')
      → Keeps delta (append_demand a ds) Same'
  Keeps-append_demand v (value c) ds m (h, inl p) k = (h, inl p)
  Keeps-append_demand v (value c) ds m (h, inr p) k = (h, inr (k (ap value m) p))
  Keeps-append_demand v (demand es) ds m (h, p) k =
      (AllMissing-append delta ds es h m.1, inl (NonEmpty-append_right ds es m.0))

  -- The end of a loop.
  pub Answers-unless_demands :
      {B : Type 0} (o : Option (Value X)) (l : Loop B) (rest : ℕ → B → Option (Timed X))
      {Same : Type 0}
      → Keeps delta l.demands Same
      → (Same → Answers delta o (rest l.time l.made))
      → Answers delta o (unless_demands l rest)
  Answers-unless_demands o l rest {Same} (h, p) k = at_end l.demands h p
    where
      at_end :
          (ds : List ℤ)
          → AllMissing delta ds
          → NonEmpty ds ⊎ Same
          → Answers delta o
              (elim ds [ [] ↦ rest l.time l.made | d ∷ es ↦ some (l.time, create_demand (d ∷ es)) ])
      at_end [] h (inl n) = absurd n
      at_end [] h (inr s) = k s
      at_end (d ∷ es) h p =
          Answers-demand delta o l.time _ (NonEmpty-dim_set d es)
            (AllMissing-dim_set delta (d ∷ es) h)

  -- A turn of a loop over pairs of workshops.
  pub Keeps-turn :
      (v w : Value X) (a b : Answer X) (ds : List ℤ) {Same Same' : Type 0}
      → Matches delta v a
      → Matches delta w b
      → Keeps delta ds Same
      → (a ≡ value v → b ≡ value w → Same → Same')
      → Keeps delta (append_demand b (append_demand a ds)) Same'
  Keeps-turn v w a b ds {Same} m n h k =
      Keeps-append_demand w b _ n
        (Keeps-append_demand v a ds {Same' = (a ≡ value v) × Same} m h (λ p s. (p, s)))
        (λ q ps. k ps.0 q ps.1)

-- The first of the specials is the same, and if there is none then so is what `P` says.
abbrev pub SameHead : {A : Type 0} → List A → List A → Type 0 → Type 0
SameHead [] [] P = P
SameHead (x ∷ xs) (y ∷ ys) P = x ≡ y
SameHead xs ys P = ⊥

abbrev pub SameGathered : {X : Type 0} → Gathered X → Gathered X → Type 0
SameGathered g g' = SameHead g.specials g'.specials ((g.access ≡ g'.access) × (g.tuple ≡ g'.tuple))

SameHead-snoc :
    {A : Type 0} (P Q : Type 0) (xs ys : List A) (c : A)
    → SameHead xs ys P
    → SameHead (xs ++ c ∷ []) (ys ++ c ∷ []) Q
SameHead-snoc P Q [] [] c h = refl
SameHead-snoc P Q [] (y ∷ ys) c h = absurd h
SameHead-snoc P Q (x ∷ xs) [] c h = absurd h
SameHead-snoc P Q (x ∷ xs) (y ∷ ys) c h = h

SameHead-snoc_twice :
    {A : Type 0} (P Q : Type 0) (xs ys : List A) (c d : A)
    → SameHead xs ys P
    → SameHead (xs ++ c ∷ []) ((ys ++ c ∷ []) ++ d ∷ []) Q
SameHead-snoc_twice P Q [] [] c d h = refl
SameHead-snoc_twice P Q [] (y ∷ ys) c d h = absurd h
SameHead-snoc_twice P Q (x ∷ xs) [] c d h = absurd h
SameHead-snoc_twice P Q (x ∷ xs) (y ∷ ys) c d h = h

SameHead-map :
    {A : Type 0} (P Q : Type 0) (xs ys : List A) → SameHead xs ys P → (P → Q) → SameHead xs ys Q
SameHead-map P Q [] [] h f = f h
SameHead-map P Q [] (y ∷ ys) h f = absurd h
SameHead-map P Q (x ∷ xs) [] h f = absurd h
SameHead-map P Q (x ∷ xs) (y ∷ ys) h f = h

pub SameGathered-turn :
    {X : Type 0} (W : World X) (lhs rhs now : Value X) (g g' : Gathered X)
    → SameGathered g g'
    → SameGathered (gather_turn W lhs rhs now g) (
        add_answers W
          (value lhs)
          (value rhs)
          now
          (add_special W (value rhs) (add_special W (value lhs) g')))
unfolding gather_turn add_change
SameGathered-turn W lhs rhs now g g' h = elim (Bool-cases (is_special lhs)) [
  | inl p ↦ elim (Bool-cases (is_special rhs)) [
    | inl q ↦ rw (p, q) (SameHead-snoc_twice _ _ g.specials g'.specials lhs rhs h)
    | inr q ↦ rw (p, q) (SameHead-snoc _ _ g.specials g'.specials lhs h)
  ]
  | inr p ↦ elim (Bool-cases (is_special rhs)) [
    | inl q ↦ rw (p, q) (SameHead-snoc _ _ g.specials g'.specials rhs h)
    | inr q ↦
        rw (p, q) (SameHead-map _ _ g.specials g'.specials h (λ e. (rw e.0 refl, rw e.1 refl)))
  ]
]
