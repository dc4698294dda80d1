-- ===== src/ConstraintGraph/Growth.antt =====
-- What `add_to_closure` of src/libs/system/tyinf/constraint_graph.cpp does to the order of the
-- variables.
use trans_lucid.Prelude.{
  ◌+◌, ℕ, zero, suc, true, Option, none, some, List, [], ◌∷◌, ◌++◌, ◌≡◌, refl, ◌∙◌, subst, arith,
}
use trans_lucid.ConstraintGraph.{Condition, Graph, make_entry, set_node, less, add_less_closed}
use trans_lucid.ConstraintGraph.Closure.{add_less_closed_lem}
use trans_lucid.ConstraintGraph.Constraints.{
  Constraint, TypeOps, Outcome, done, refused, overrun, out_of_fuel, ◌>>=◌, node, set_lower,
  meet_upper, meet_uppers, check_single, check_from, check_all, first_condition, next_condition,
  steady, join_lower, join_lowers, raise_lowers, add_var_var, add_var_type, add_type_var, add_by,
  add_one, drain, add_to_closure,
}
use trans_lucid.ConstraintGraph.Grows.{
  WhenDone, WhenDone-try, WhenDone-if, leq, Closed, Grows, Grows-refl, Grows-trans, WhenDone-Grows,
  after, set_node-Grows, make_entry-Grows, add_less_closed-Grows,
}

module _ {T : Type 0} (ops : TypeOps T) where
  meet_upper-Grows : (t : T) (v : ℕ) (g : Graph T) → WhenDone (Grows ops g) (meet_upper ops t v g)
  unfolding meet_upper
  meet_upper-Grows t v g =
      WhenDone-try (Grows ops g) (ops.glb (node ops v g).upper t) _
        (λ u. set_node-Grows ops v (record (node ops v g) { upper = u }) g refl refl)

  meet_uppers-Grows :
      (t : T) (vs : List ℕ) (g : Graph T) → WhenDone (Grows ops g) (meet_uppers ops t vs g)
  unfolding meet_uppers
  meet_uppers-Grows t [] g = Grows-refl ops g
  meet_uppers-Grows t (v ∷ vs) g =
      after ops (λ h. h) g (meet_upper ops t v g) _ (meet_upper-Grows t v g)
        (λ h. meet_uppers-Grows t vs h)

  module _ (again : Constraint T → Graph T → Outcome (Graph T))
      (grows : (c : Constraint T) (g : Graph T) → WhenDone (Grows ops g) (again c g)) where
    check_single-Grows :
        (v : ℕ) (c : Condition T) (g : Graph T)
        → WhenDone (Grows ops g) (check_single ops again v c g)
    unfolding check_single
    check_single-Grows v c g =
        WhenDone-if (Grows ops g) (ops.head c.s (node ops v g).lower) _ _ (λ e. grows _ g)
          (λ e. Grows-refl ops g)

    check_from-Grows :
        (f v : ℕ) (current : Option (Condition T)) (g : Graph T)
        → WhenDone (Grows ops g) (check_from ops again f v current g)
    unfolding check_from
    check_from-Grows zero v current g = tt
    check_from-Grows (suc f) v none g = Grows-refl ops g
    check_from-Grows (suc f) v (some c) g =
        after ops (λ h. h) g (check_single ops again v c g) _ (check_single-Grows v c g)
          (λ h. check_from-Grows f v (next_condition c.address (node ops v h).conditions) h)

    check_all-Grows : (v : ℕ) (g : Graph T) → WhenDone (Grows ops g) (check_all ops again v g)
    unfolding check_all
    check_all-Grows v g =
        check_from-Grows (g.made + 1) v (first_condition (node ops v g).conditions) g

    join_lower-Grows :
        (t : T) (v : ℕ) (g : Graph T) → WhenDone (Grows ops g) (join_lower ops again t v g)
    unfolding join_lower
    join_lower-Grows t v g = WhenDone-try (Grows ops g) (ops.lub (node ops v g).lower t) _ (λ l.
        let n = record (node ops v g) { lower = l } in
        WhenDone-Grows ops (λ h. h) g (set_node v n g) _ (set_node-Grows ops v n g refl refl)
          (check_all-Grows v (set_node v n g)))

    join_lowers-Grows :
        (a b : ℕ) (vs : List ℕ) (g : Graph T)
        → WhenDone (Grows ops g) (join_lowers ops again a b vs g)
    unfolding join_lowers
    join_lowers-Grows a b [] g = Grows-refl ops g
    join_lowers-Grows a b (v ∷ vs) g =
        after ops (λ h. h) g (join_lower ops again (node ops a g).lower v g) _
          (join_lower-Grows (node ops a g).lower v g)
          (λ h.
            WhenDone-if (Grows ops h) (steady ops again b g h) _ _ (λ e. join_lowers-Grows a b vs h)
              (λ e. tt))

    raise_lowers-Grows :
        (t : T) (b : ℕ) (vs : List ℕ) (g : Graph T)
        → WhenDone (Grows ops g) (raise_lowers ops again t b vs g)
    unfolding raise_lowers
    raise_lowers-Grows t b [] g = Grows-refl ops g
    raise_lowers-Grows t b (v ∷ vs) g =
        after ops (λ h. h) g (join_lower ops again t v g) _ (join_lower-Grows t v g)
          (λ h.
            WhenDone-if (Grows ops h) (steady ops again b g h) _ _
              (λ e. raise_lowers-Grows t b vs h) (λ e. tt))

    abbrev graph : Graph T × List (Constraint T) → Graph T
    graph p = p.0

    -- The bounds after `add_less_closed`.
    bounds-Grows :
        (a b : ℕ) (queued : List (Constraint T)) (g : Graph T)
        → WhenDone
            (λ p. Grows ops g (graph p))
            (do
              g2 ← meet_upper ops (node ops b g).upper a g
              g3 ← join_lower ops again (node ops a g2).lower b g2
              g4 ← join_lowers ops again a b (node ops b g3).greater g3
              g5 ← meet_uppers ops (node ops b g4).upper (node ops a g4).less g4
              done (g5, queued))
    bounds-Grows a b queued g =
        after ops graph g _ _ (meet_upper-Grows (node ops b g).upper a g) (λ g2.
          after ops graph g2 _ _ (join_lower-Grows (node ops a g2).lower b g2) (λ g3.
            after ops graph g3 _ _ (join_lowers-Grows a b (node ops b g3).greater g3) (λ g4.
              after ops graph g4 _ _
                (meet_uppers-Grows (node ops b g4).upper (node ops a g4).less g4)
                (λ g5. Grows-refl ops g5))))

    -- The graph grows, and has `a` below `b`.
    abbrev Links : ℕ → ℕ → Graph T → Graph T × List (Constraint T) → Type 0
    Links a b g p = Grows ops g p.0 × (Closed ops g → leq ops a b p.0 ≡ true)

    less_refl : (a : ℕ) (g : Graph T) → leq ops a a g ≡ true
    less_refl a g = unfold less in ground arith

    Links-bounds :
        (a b : ℕ) (g h : Graph T) (r : Outcome (Graph T × List (Constraint T)))
        → Grows ops g h
        → (Closed ops g → leq ops a b h ≡ true)
        → WhenDone (λ p. Grows ops h (graph p)) r
        → WhenDone (Links a b g) r
    Links-bounds a b g h (done p) m e w =
        (Grows-trans ops m w, λ c. w.at_least (m.still_closed c) a b (e c))
    Links-bounds a b g h refused m e w = tt
    Links-bounds a b g h overrun m e w = tt
    Links-bounds a b g h out_of_fuel m e w = tt

    add_var_var-Links :
        (a b : ℕ) (g : Graph T) → WhenDone (Links a b g) (add_var_var ops again a b g)
    unfolding add_var_var
    add_var_var-Links a b g =
        let g0 = make_entry ops.bot ops.top b (make_entry ops.bot ops.top a g) in
        let g1 = add_less_closed ops.bot ops.top a b g0 in
        let made : Grows ops g g0 =
          Grows-trans ops (make_entry-Grows ops a g) (make_entry-Grows ops b _) in
        WhenDone-if (Links a b g) (leq ops a b g) _ _ (λ there. (Grows-refl ops g, λ c. there))
          (λ new. WhenDone-try (Links a b g) _ _ (λ queued.
            Links-bounds a b g g1 _ (Grows-trans ops made (add_less_closed-Grows ops a b g0))
              (λ c.
                (add_less_closed_lem ops.bot ops.top a b g0 (made.still_closed c)).1 a b
                ∙ ground (arith, less_refl a g0, less_refl b g0))
              (bounds-Grows a b queued g1)))

    add_var_type-Grows :
        (a : ℕ) (t : T) (g : Graph T)
        → WhenDone (λ p. Grows ops g (graph p)) (add_var_type ops again a t g)
    unfolding add_var_type
    add_var_type-Grows a t g =
        let g0 = make_entry ops.bot ops.top a g in
        let Q : Graph T × List (Constraint T) → Type 0 = λ p. Grows ops g p.0 in
        WhenDone-try Q (ops.contains_neg (node ops a g0).upper t) _ (λ there.
          WhenDone-if Q there _ _ (λ e. make_entry-Grows ops a g)
            (λ e. WhenDone-try Q _ _ (λ queued.
              WhenDone-Grows ops graph g g0 _ (make_entry-Grows ops a g) (
                after ops graph g0 _ _ (meet_upper-Grows t a g0) (λ g1.
                  after ops graph g1 _ _ (meet_uppers-Grows t (node ops a g1).less g1)
                    (λ g2. Grows-refl ops g2))))))

    add_type_var-Grows :
        (t : T) (b : ℕ) (g : Graph T)
        → WhenDone (λ p. Grows ops g (graph p)) (add_type_var ops again t b g)
    unfolding add_type_var
    add_type_var-Grows t b g =
        let g0 = make_entry ops.bot ops.top b g in
        let Q : Graph T × List (Constraint T) → Type 0 = λ p. Grows ops g p.0 in
        WhenDone-try Q (ops.contains_pos (node ops b g0).lower t) _ (λ there.
          WhenDone-if Q there _ _ (λ e. make_entry-Grows ops b g)
            (λ e.
              WhenDone-try Q (ops.subc (record { lhs = t; rhs = (node ops b g0).upper })) _
                (λ queued.
                  WhenDone-try Q (ops.lub (node ops b g0).lower t)
                    (λ l.
                      raise_lowers ops again t b (node ops b (set_lower ops b l g0)).greater
                        (set_lower ops b l g0)
                      >>= λ g2. done (g2, queued))
                    (λ l.
                      let n = record (node ops b g0) { lower = l } in
                      let g1 = set_node b n g0 in
                      WhenDone-Grows ops graph g g1 _
                        (Grows-trans ops (make_entry-Grows ops b g)
                          (set_node-Grows ops b n g0 refl refl))
                        (after ops graph g1 _ (λ g2. done (g2, queued))
                          (raise_lowers-Grows t b (node ops b g1).greater g1)
                          (λ g2. Grows-refl ops g2))))))

    Links-Grows :
        (a b : ℕ) (g : Graph T) (r : Outcome (Graph T × List (Constraint T)))
        → WhenDone (Links a b g) r
        → WhenDone (λ p. Grows ops g (graph p)) r
    Links-Grows a b g (done p) w = w.0
    Links-Grows a b g refused w = tt
    Links-Grows a b g overrun w = tt
    Links-Grows a b g out_of_fuel w = tt

    add_by-Grows :
        (l r : Option ℕ) (c : Constraint T) (g : Graph T)
        → WhenDone (λ p. Grows ops g (graph p)) (add_by ops again l r c g)
    unfolding add_by
    add_by-Grows (some a) (some b) c g = Links-Grows a b g _ (add_var_var-Links a b g)
    add_by-Grows (some a) none c g = add_var_type-Grows a c.rhs g
    add_by-Grows none (some b) c g = add_type_var-Grows c.lhs b g
    add_by-Grows none none c g = tt

    add_one-Grows :
        (c : Constraint T) (g : Graph T)
        → WhenDone (λ p. Grows ops g (graph p)) (add_one ops again c g)
    unfolding add_one
    add_one-Grows c g = add_by-Grows (ops.variable c.lhs) (ops.variable c.rhs) c g

  drain-Grows :
      (f : ℕ) (q : List (Constraint T)) (g : Graph T) → WhenDone (Grows ops g) (drain ops f q g)
  unfolding drain
  drain-Grows zero q g = tt
  drain-Grows (suc f) [] g = Grows-refl ops g
  drain-Grows (suc f) (c ∷ q) g =
      next (add_one ops (λ c'. drain ops f (c' ∷ [])) c g)
        (add_one-Grows (λ c'. drain ops f (c' ∷ [])) (λ c' h. drain-Grows f (c' ∷ []) h) c g)
        (λ more h. drain-Grows f (q ++ more) h)
    where
      next :
          (r : Outcome (Graph T × List (Constraint T)))
          → WhenDone (λ p. Grows ops g p.0) r
          → ((more : List (Constraint T)) (h : Graph T)
              → WhenDone (Grows ops h) (drain ops f (q ++ more) h))
          → WhenDone (Grows ops g) (r >>= λ (g', queued). drain ops f (q ++ queued) g')
      next (done (h, more)) w k = WhenDone-Grows ops (λ x. x) g h _ w (k more h)
      next refused w k = tt
      next overrun w k = tt
      next out_of_fuel w k = tt

  Linked : ℕ → ℕ → Graph T → Graph T → Type 0
  Linked a b g g' = Grows ops g g' × (Closed ops g → leq ops a b g' ≡ true)

  add_to_closure-Linked :
      (fuel a b : ℕ) (c : Constraint T) (g : Graph T)
      → ops.variable c.lhs ≡ some a
      → ops.variable c.rhs ≡ some b
      → WhenDone (λ g'. Linked a b g g') (add_to_closure ops fuel c g)
  unfolding add_to_closure drain add_one Linked
  add_to_closure-Linked zero a b c g h k = tt
  add_to_closure-Linked (suc f) a b c g h k =
      rw (h, k)
        (unfold add_by in
          next (add_var_var ops (λ c'. drain ops f (c' ∷ [])) a b g)
            (add_var_var-Links (λ c'. drain ops f (c' ∷ [])) (λ c' h. drain-Grows f (c' ∷ []) h) a b
              g)
            (λ more h. drain-Grows f more h))
    where
      linked :
          (h : Graph T) (o : Outcome (Graph T))
          → Grows ops g h × (Closed ops g → leq ops a b h ≡ true)
          → WhenDone (Grows ops h) o
          → WhenDone (λ g'. Linked a b g g') o
      linked h (done g') m w =
          (Grows-trans ops m.0 w, λ cl. w.at_least (m.0.still_closed cl) a b (m.1 cl))
      linked h refused m w = tt
      linked h overrun m w = tt
      linked h out_of_fuel m w = tt

      next :
          (r : Outcome (Graph T × List (Constraint T)))
          → WhenDone (λ p. Grows ops g p.0 × (Closed ops g → leq ops a b p.0 ≡ true)) r
          → ((more : List (Constraint T)) (h : Graph T)
              → WhenDone (Grows ops h) (drain ops f more h))
          → WhenDone (λ g'. Linked a b g g') (r >>= λ (g', queued). drain ops f ([] ++ queued) g')
      next (done (h, more)) w k = linked h _ w (k more h)
      next refused w k = tt
      next overrun w k = tt
      next out_of_fuel w k = tt

  -- Whether the constraint is between two variables, these two.
  abbrev pub Between : ℕ → ℕ → Constraint T → Type 0
  Between a b c = (ops.variable c.lhs ≡ some a) × (ops.variable c.rhs ≡ some b)

  pub add_to_closure_lem :
      (fuel : ℕ) (c : Constraint T) (g g' : Graph T)
      → Closed ops g
      → add_to_closure ops fuel c g ≡ done g'
      → Closed ops g'
        × ((x y : ℕ) → leq ops x y g ≡ true → leq ops x y g' ≡ true)
        × ((a b : ℕ) → Between a b c → leq ops a b g' ≡ true)
  unfolding Linked add_to_closure
  add_to_closure_lem fuel c g g' cl e =
      let grows : Grows ops g g' = subst (WhenDone (Grows ops g)) e (drain-Grows fuel (c ∷ []) g) in
      (
        grows.still_closed cl,
        grows.at_least cl,
        λ a b m.
            let p : Linked a b g g' =
              subst (WhenDone (λ x. Linked a b g x)) e
                (add_to_closure-Linked fuel a b c g m.0 m.1) in
            p.1 cl,
      )
