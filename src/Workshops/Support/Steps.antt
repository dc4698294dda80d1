-- ===== src/Workshops/Support/Steps.antt =====
-- The workshops of src/libs/system/eval_workshops.cpp look at no other dimension than those of the
-- `Delta`, the time and `DIM_RHO`, if those that they hold do not.
use trans_lucid.Prelude.{
  ℕ, Bool, false, ◌||◌, ◌≡◌, refl, ap, ap₂, fun_ext, Option, none, some, List, [], ◌∷◌, ◌++◌, arith,
}
use Prim.Native.Nat.{max}
use trans_lucid.Prelude.Int.{ℤ, eqb_ℤ, ltb_ℤ}
use trans_lucid.Context.{Context}
use trans_lucid.Region.{Containment}
use trans_lucid.Tuple.{find}
use trans_lucid.Workshops.{
  Value, special, Node, constant, ident, if_node, hash, region_node, at, at_tuple, make_inten,
  eval_inten, tuple_node, hash_symbol, World, dimension_index, as_tuple, as_intension, intmp_of,
  undefined, dimension_error, dim_time, dim_rho,
}
use trans_lucid.Workshops.Delta.{Delta, contains, perturbed, contains-perturbed}
use trans_lucid.Workshops.Uncached.{
  ◌>>=◌, Gathered, pairs_list, nodes_list, parts_list, too_late, ordinate, within, bind_dims,
  make_intension, index_all,
}
use trans_lucid.Workshops.Cached
use trans_lucid.Workshops.Support.Contexts.{AgreeOn, AgreeOn-perturb_tuple}

-- The dimensions that an evaluation may look at.
abbrev pub seen : Delta → ℤ → Bool
seen delta e = contains delta e || (eqb_ℤ e dim_time || eqb_ℤ e dim_rho)

abbrev pub Agree : {X : Type 0} → Delta → Context (Value X) → Context (Value X) → Type 0
Agree delta k k' = AgreeOn (special dimension_error) (seen delta) k k'

>>=-eq {ℓ κ} :
    {A : Type ℓ} {B : Type κ} (o o' : Option A) (f g : A → Option B)
    → o ≡ o'
    → ((a : A) → f a ≡ g a)
    → (o >>= f) ≡ (o' >>= g)
>>=-eq o none f g e h = rw e refl
>>=-eq o (some a) f g e h = rw e (h a)

append-eq_nil {ℓ} : {A : Type ℓ} (xs ys : List A) → xs ++ ys ≡ [] → (xs ≡ []) × (ys ≡ [])
append-eq_nil [] ys h = (refl, h)
append-eq_nil (x ∷ xs) ys h = cc

module _ {X : Type 0} where
  Agree-within :
      (t : List (ℤ × Value X)) (delta : Delta) (k k' : Context (Value X))
      → Agree delta k k'
      → Agree (perturbed t delta) (within t k) (within t k')
  Agree-within t delta k k' a =
      AgreeOn-perturb_tuple (special dimension_error) t (seen delta) (seen (perturbed t delta)) k k'
        a (λ e s. ground (arith, contains-perturbed t delta e))

  bind_dims-eq :
      (ds : List ℤ) (delta : Delta) (k k' : Context (Value X))
      → Agree delta k k'
      → Cached.missing delta ds ≡ []
      → bind_dims ds k ≡ bind_dims ds k'
  unfolding bind_dims Cached.missing
  bind_dims-eq [] delta k k' a m = refl
  bind_dims-eq (d ∷ ds) delta k k' a m = ground (arith, a.same d, bind_dims-eq ds delta k k' a)

  unless_demands-eq :
      {B : Type 0} (l : Cached.Loop B) (f g : ℕ → B → Option (Cached.Timed X))
      → (l.demands ≡ [] → f l.time l.made ≡ g l.time l.made)
      → Cached.unless_demands l f ≡ Cached.unless_demands l g
  unless_demands-eq l f g h = by_demands l.demands h
    where
      by_demands :
          (ds : List ℤ)
          → (ds ≡ [] → f l.time l.made ≡ g l.time l.made)
          → (elim ds [
            | [] ↦ f l.time l.made
            | d ∷ es ↦ some (l.time, Cached.create_demand (d ∷ es))
          ])
            ≡ (elim ds [
              | [] ↦ g l.time l.made
              | d ∷ es ↦ some (l.time, Cached.create_demand (d ∷ es))
            ])
      by_demands [] h = h refl
      by_demands (d ∷ es) h = refl

module _ {X : Type 0} (W : World X)
    (ev : Node X → Context (Value X) → Delta → ℕ → Option (Cached.Timed X))
    (h : (n : Node X) (k k' : Context (Value X)) (delta : Delta) (t : ℕ)
      → Agree delta k k'
      → ev n k delta t ≡ ev n k' delta t)
    (k k' : Context (Value X)) (delta : Delta) (a : Agree delta k k') where
  same_time : ordinate k dim_time ≡ ordinate k' dim_time
  same_time = a.same dim_time (ground arith)

  too_late-eq : (c : List (ℤ × Value X)) → too_late W c k ≡ too_late W c k'
  unfolding too_late
  too_late-eq c =
      ap
        (λ now. elim (find dim_time c) [
          | none ↦ false
          | some d ↦ ltb_ℤ (intmp_of W now) (intmp_of W d)
        ])
        same_time

  -- A workshop after another, in the two contexts.
  then_eq :
      {B : Type 0} (n : Node X) (t : ℕ) (f g : Cached.Timed X → Option B)
      → ((x : Cached.Timed X) → f x ≡ g x)
      → (ev n k delta t >>= f) ≡ (ev n k' delta t >>= g)
  then_eq n t f g e = >>=-eq (ev n k delta t) (ev n k' delta t) f g (h n k k' delta t a) e

  ident_eq :
      (name : List ℕ) (t : ℕ)
      → Cached.ident_ws W ev name k delta t ≡ Cached.ident_ws W ev name k' delta t
  unfolding Cached.ident_ws
  ident_eq name t =
      ap
        (λ x. elim (W.idents name) [
          | none ↦ some (t, Cached.value (special undefined))
          | some e ↦ x e
        ])
        (fun_ext (λ e. h e k k' delta t a))

  hash_eq :
      (e : Node X) (t : ℕ) → Cached.hash_ws W ev e k delta t ≡ Cached.hash_ws W ev e k' delta t
  unfolding Cached.hash_ws
  hash_eq e t = then_eq e t _ _ (λ x. found x.0 x.1)
    where
      found :
          (u : ℕ) (r : Cached.Answer X)
          → Cached.hash_answer W k delta u r ≡ Cached.hash_answer W k' delta u r
      found u (Cached.demand ds) = refl
      found u (Cached.value c) = ground (arith, a.same (dimension_index W c))

  elsif_eq :
      (elsifs : List (Node X × Node X)) (e : Node X) (t m : ℕ)
      → Cached.elsif_loop W ev elsifs e k delta t m ≡ Cached.elsif_loop W ev elsifs e k' delta t m
  unfolding Cached.elsif_loop
  elsif_eq [] e t m = h e k k' delta m a
  elsif_eq ((c, b) ∷ more) e t m = then_eq c t _ _ λ x.
      ap₂ (Cached.choose x.1 (λ r. some (x.0, r))) (h b k k' delta x.0 a)
        (elsif_eq more e t (max m x.0))

  if_eq :
      (c b : Node X) (elsifs : List (Node X × Node X)) (e : Node X) (t : ℕ)
      → Cached.if_ws W ev c b elsifs e k delta t ≡ Cached.if_ws W ev c b elsifs e k' delta t
  unfolding Cached.if_ws
  if_eq c b elsifs e t = then_eq c t _ _ λ x.
      ap₂ (Cached.choose x.1 (λ r. some (x.0, r))) (h b k k' delta x.0 a)
        (elsif_eq elsifs e x.0 x.0)

  -- Two workshops in a loop, whose rest is the same in the two contexts.
  both_eq :
      {B : Type 0} (n m : Node X) (t : ℕ) (f g : Cached.Timed X → Cached.Timed X → Option B)
      → ((x y : Cached.Timed X) → f x y ≡ g x y)
      → (ev n k delta t >>= λ x. ev m k delta t >>= λ y. f x y)
        ≡ (ev n k' delta t >>= λ x. ev m k' delta t >>= λ y. g x y)
  both_eq n m t f g e = then_eq n t _ _ (λ x. then_eq m t (f x) (g x) (e x))

  region_loop_eq :
      (parts : List (Node X × Containment × Node X))
      (l : Cached.Loop (List (ℤ × (Containment × Value X)))) (t : ℕ)
      → Cached.region_loop W ev parts l k delta t ≡ Cached.region_loop W ev parts l k' delta t
  unfolding Cached.region_loop
  region_loop_eq [] l t = refl
  region_loop_eq ((n, i, m) ∷ more) l t =
      both_eq n m t _ _ (λ x y. region_loop_eq more (Cached.region_turn W i x y l) t)

  region_eq :
      (parts : List (Node X × Containment × Node X)) (t : ℕ)
      → Cached.region_ws W ev parts k delta t ≡ Cached.region_ws W ev parts k' delta t
  unfolding Cached.region_ws
  region_eq parts t = rw (region_loop_eq parts _ t) refl

  tuple_eq :
      (pairs : List (Node X × Node X)) (l : Cached.Loop (List (ℤ × Value X))) (t : ℕ)
      → Cached.tuple_loop W ev pairs l k delta t ≡ Cached.tuple_loop W ev pairs l k' delta t
  unfolding Cached.tuple_loop
  tuple_eq [] l t = refl
  tuple_eq ((n, m) ∷ more) l t = both_eq n m t _ _ λ x y.
      ap
        (λ (rest : Option (Cached.Timed X)). elim (Cached.tuple_return W x.1 y.1) [
          | some c ↦ some (max (max l.time x.0) y.0, Cached.value c)
          | none ↦ rest
        ])
        (tuple_eq more (Cached.tuple_turn W x y l) t)

  within_eq :
      (n : Node X) (c : List (ℤ × Value X)) (t : ℕ)
      → ev n (within c k) (perturbed c delta) t ≡ ev n (within c k') (perturbed c delta) t
  within_eq n c t = h n _ _ (perturbed c delta) t (Agree-within c delta k k' a)

  changed_eq :
      (o : Option (List (ℤ × Value X))) (e2 : Node X) (t : ℕ)
      → Cached.at_change W ev o e2 k delta t ≡ Cached.at_change W ev o e2 k' delta t
  changed_eq none e2 t = refl
  changed_eq (some c) e2 t = rw (too_late-eq c, within_eq e2 c t) refl

  at_eq :
      (e1 e2 : Node X) (t : ℕ)
      → Cached.at_ws W ev e1 e2 k delta t ≡ Cached.at_ws W ev e1 e2 k' delta t
  unfolding Cached.at_ws
  at_eq e1 e2 t = then_eq e1 t _ _ (λ x. found x.0 x.1)
    where
      found :
          (u : ℕ) (r : Cached.Answer X)
          → Cached.at_answer W ev r e2 k delta u ≡ Cached.at_answer W ev r e2 k' delta u
      found u (Cached.demand ds) = refl
      found u (Cached.value c) = changed_eq (as_tuple c) e2 u

  gather_eq :
      (pairs : List (Node X × Node X)) (l : Cached.Loop (Gathered X)) (t : ℕ)
      → Cached.gather W ev pairs l k delta t ≡ Cached.gather W ev pairs l k' delta t
  unfolding Cached.gather
  gather_eq [] l t = refl
  gather_eq ((n, m) ∷ more) l t =
      both_eq n m t _ _
        λ x y. rw same_time (gather_eq more (Cached.gather_turn W x y (ordinate k' dim_time) l) t)

  gathered_eq :
      (e2 : Node X) (t : ℕ) (g : Gathered X) (ss : List (Value X))
      → Cached.gathered_from W ev ss e2 k delta t g ≡ Cached.gathered_from W ev ss e2 k' delta t g
  gathered_eq e2 t g [] = rw (within_eq e2 g.tuple t) refl
  gathered_eq e2 t g (s ∷ ss) = refl

  at_tuple_eq :
      (e2 : Node X) (pairs : List (Node X × Node X)) (t : ℕ)
      → Cached.at_tuple_ws W ev e2 pairs k delta t ≡ Cached.at_tuple_ws W ev e2 pairs k' delta t
  unfolding Cached.at_tuple_ws
  at_tuple_eq e2 pairs t = >>=-eq _ _ _ _ (gather_eq pairs _ t) λ l.
      unless_demands-eq l (Cached.gathered W ev e2 k delta) (Cached.gathered W ev e2 k' delta)
        (λ e. gathered_eq e2 l.time l.made l.made.specials)

  bind_loop_eq :
      (ns : List (Node X)) (l : Cached.Loop (List (Value X))) (t : ℕ)
      → Cached.bind_loop W ev ns l k delta t ≡ Cached.bind_loop W ev ns l k' delta t
  unfolding Cached.bind_loop
  bind_loop_eq [] l t = refl
  bind_loop_eq (n ∷ ns) l t = then_eq n t _ _ (λ x. bind_loop_eq ns (Cached.bind_turn W x l) t)

  make_intension_eq :
      (rhs : Node X) (cs : List (Value X)) (scope : List ℤ)
      → Cached.missing delta (index_all W cs) ++ Cached.missing delta scope ≡ []
      → make_intension W rhs cs scope k ≡ make_intension W rhs cs scope k'
  unfolding make_intension
  make_intension_eq rhs cs scope m =
      let (p, q) = append-eq_nil (Cached.missing delta (index_all W cs)) _ m in
      rw
        (
          bind_dims-eq (index_all W cs) delta k k' a p,
          bind_dims-eq scope delta k k' a q,
          a.same dim_rho (ground arith),
        )
        refl

  make_inten_eq :
      (rhs : Node X) (binds : List (Node X)) (scope : List ℤ) (t : ℕ)
      → Cached.make_inten_ws W ev rhs binds scope k delta t
        ≡ Cached.make_inten_ws W ev rhs binds scope k' delta t
  unfolding Cached.make_inten_ws
  make_inten_eq rhs binds scope t = >>=-eq _ _ _ _ (bind_loop_eq binds _ t) λ l.
      unless_demands-eq l (Cached.closed W rhs scope k delta) (Cached.closed W rhs scope k' delta)
        λ e.
          unless_demands-eq (Cached.close_loop W scope delta l.time l.made)
            (Cached.close W rhs scope k) (Cached.close W rhs scope k')
            (λ m. ap (λ c. some (l.time, Cached.value c)) (make_intension_eq rhs l.made scope m))

  eval_inten_eq :
      (e : Node X) (t : ℕ)
      → Cached.eval_inten_ws W ev e k delta t ≡ Cached.eval_inten_ws W ev e k' delta t
  unfolding Cached.eval_inten_ws
  eval_inten_eq e t = then_eq e t _ _ (λ x. found x.0 x.1)
    where
      opened :
          (o : Option (Node X × List (ℤ × Value X)))
          → Cached.open_intension W ev o k delta t ≡ Cached.open_intension W ev o k' delta t
      opened none = refl
      opened (some (body, bound)) = within_eq body bound t

      found :
          (u : ℕ) (r : Cached.Answer X)
          → Cached.inten_answer W ev r k delta u t ≡ Cached.inten_answer W ev r k' delta u t
      found u (Cached.demand ds) = refl
      found u (Cached.value c) = opened (as_intension c)

  pub step_eq : (n : Node X) (t : ℕ) → Cached.step W ev n k delta t ≡ Cached.step W ev n k' delta t
  unfolding Cached.step
  step_eq (constant c) t = refl
  step_eq (ident name) t = ident_eq name t
  step_eq (if_node c b elsifs e) t = if_eq c b (pairs_list elsifs) e t
  step_eq (hash e) t = hash_eq e t
  step_eq (region_node parts) t = region_eq (parts_list parts) t
  step_eq (at e1 e2) t = at_eq e1 e2 t
  step_eq (at_tuple e2 pairs) t = at_tuple_eq e2 (pairs_list pairs) t
  step_eq (make_inten rhs binds scope) t = make_inten_eq rhs (nodes_list binds) scope t
  step_eq (eval_inten e) t = eval_inten_eq e t
  step_eq (tuple_node x pairs) t = tuple_eq (pairs_list pairs) _ t
  step_eq (hash_symbol x) t = refl
