-- ===== src/ConstraintGraph/Grows.antt =====
-- Constraint graphs that grow in the order of their variables (src/libs/system/tyinf/constraint_graph.cpp),
-- and the results of functions that can fail.
use trans_lucid.Prelude.{
  ℕ, Bool, true, false, ◌||◌, Option, none, some, ◌≡◌, refl, sym, ap, ◌∙◌, if◌then◌else◌, ltb, ◌==◌,
  arith,
}
use trans_lucid.OrderedSet.{has}
use trans_lucid.ConstraintGraph.{Node, Graph, make_entry, set_node, less, add_less_closed}
use trans_lucid.ConstraintGraph.Closure.{
  IsClosed, node_of-set_node, node_of-make_entry, add_less_closed_lem,
}
use trans_lucid.ConstraintGraph.Constraints.{
  TypeOps, Outcome, done, refused, overrun, out_of_fuel, ◌>>=◌, try, node,
}

-- What holds of a result, if there is one.
abbrev pub WhenDone : {A : Type 0} → (A → Type 0) → Outcome A → Type 0
WhenDone P (done a) = P a
WhenDone P refused = Unit
WhenDone P overrun = Unit
WhenDone P out_of_fuel = Unit

pub WhenDone-bind :
    {A B : Type 0} (P : A → Type 0) (Q : B → Type 0) (r : Outcome A) (f : A → Outcome B)
    → WhenDone P r
    → ((a : A) → P a → WhenDone Q (f a))
    → WhenDone Q (r >>= f)
WhenDone-bind P Q (done a) f p h = h a p
WhenDone-bind P Q refused f p h = tt
WhenDone-bind P Q overrun f p h = tt
WhenDone-bind P Q out_of_fuel f p h = tt

pub WhenDone-try :
    {A B : Type 0} (Q : B → Type 0) (o : Option A) (f : A → Outcome B)
    → ((a : A) → WhenDone Q (f a))
    → WhenDone Q (try o >>= f)
WhenDone-try Q none f h = tt
WhenDone-try Q (some a) f h = h a

pub WhenDone-if :
    {A : Type 0} (P : A → Type 0) (b : Bool) (x y : Outcome A)
    → (b ≡ true → WhenDone P x)
    → (b ≡ false → WhenDone P y)
    → WhenDone P (if b then x else y)
WhenDone-if P true x y hx hy = hx refl
WhenDone-if P false x y hx hy = hy refl

module _ {T : Type 0} (ops : TypeOps T) where
  abbrev pub leq : ℕ → ℕ → Graph T → Bool
  leq x y g = less ops.bot ops.top x y g

  abbrev pub Closed : Graph T → Type 0
  Closed g = IsClosed ops.bot ops.top g

  -- A graph that is still closed, and has at least the order of `g`.
  pub record Grows (g g' : Graph T) : Type 0 where
    pub still_closed : Closed g → Closed g'
    pub at_least : Closed g → (x y : ℕ) → leq x y g ≡ true → leq x y g' ≡ true

  pub Grows-refl : (g : Graph T) → Grows g g
  Grows-refl g = record { still_closed = λ c. c; at_least = λ c x y h. h }

  pub Grows-trans : {g h k : Graph T} → Grows g h → Grows h k → Grows g k
  Grows-trans p q = record {
    still_closed = λ c. q.still_closed (p.still_closed c);
    at_least = λ c x y e. q.at_least (p.still_closed c) x y (p.at_least c x y e);
  }

  pub WhenDone-Grows :
      {B : Type 0} (Q : B → Graph T) (g h : Graph T) (o : Outcome B)
      → Grows g h
      → WhenDone (λ b. Grows h (Q b)) o
      → WhenDone (λ b. Grows g (Q b)) o
  WhenDone-Grows Q g h (done b) p w = Grows-trans p w
  WhenDone-Grows Q g h refused p w = tt
  WhenDone-Grows Q g h overrun p w = tt
  WhenDone-Grows Q g h out_of_fuel p w = tt

  -- From one step to the next.
  pub after :
      {B : Type 0} (Q : B → Graph T) (g : Graph T) (r : Outcome (Graph T)) (f : Graph T → Outcome B)
      → WhenDone (Grows g) r
      → ((h : Graph T) → WhenDone (λ b. Grows h (Q b)) (f h))
      → WhenDone (λ b. Grows g (Q b)) (r >>= f)
  after Q g (done h) f p k = WhenDone-Grows Q g h (f h) p (k h)
  after Q g refused f p k = tt
  after Q g overrun f p k = tt
  after Q g out_of_fuel f p k = tt

  -- A graph with the same order.
  abbrev pub Same : Graph T → Graph T → Type 0
  Same g g' =
      (v : ℕ)
      → ((node ops v g').less ≡ (node ops v g).less)
        × ((node ops v g').greater ≡ (node ops v g).greater)

  pub Same-Grows : (g g' : Graph T) → Same g g' → Grows g g'
  Same-Grows g g' s =
      let same_leq : (x y : ℕ) → leq x y g' ≡ leq x y g =
        λ x y. unfold less in ap (λ l. x == y || has ltb y l) (s x).1 in
      record {
        still_closed = λ c. record {
          mirror = λ x y. ap (has ltb x) (s y).0 ∙ c.mirror x y ∙ sym (ap (has ltb y) (s x).1);
          trans = λ x y z h k.
              same_leq x z ∙ c.trans x y z (sym (same_leq x y) ∙ h) (sym (same_leq y z) ∙ k);
        };
        at_least = λ c x y h. same_leq x y ∙ h;
      }

  pub set_node-Grows :
      (v : ℕ) (n : Node T) (g : Graph T)
      → n.less ≡ (node ops v g).less
      → n.greater ≡ (node ops v g).greater
      → Grows g (set_node v n g)
  set_node-Grows v n g h k = Same-Grows g (set_node v n g) (λ w. same w)
    where
      same :
          (w : ℕ)
          → ((node ops w (set_node v n g)).less ≡ (node ops w g).less)
            × ((node ops w (set_node v n g)).greater ≡ (node ops w g).greater)
      same w = ground (arith, node_of-set_node ops.bot ops.top w v n g)

  pub make_entry-Grows : (v : ℕ) (g : Graph T) → Grows g (make_entry ops.bot ops.top v g)
  make_entry-Grows v g =
      Same-Grows g _ (λ w. rw (node_of-make_entry ops.bot ops.top w v g) (refl, refl))

  pub add_less_closed-Grows :
      (a b : ℕ) (g : Graph T) → Grows g (add_less_closed ops.bot ops.top a b g)
  add_less_closed-Grows a b g = record {
    still_closed = λ c. (add_less_closed_lem ops.bot ops.top a b g c).0;
    at_least = λ c x y h. (add_less_closed_lem ops.bot ops.top a b g c).1 x y ∙ rw h;
  }
