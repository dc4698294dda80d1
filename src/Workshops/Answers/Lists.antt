-- ===== src/Workshops/Answers/Lists.antt =====
-- The workshops of src/libs/system/eval_workshops.cpp that run over a list: each answers well if
-- those that it holds do.
use trans_lucid.Prelude.{
  ℕ, Bool, true, false, ◌≡◌, refl, sym, ap, Option, some, List, [], ◌∷◌, ◌++◌, inr, if◌then◌else◌,
}
use trans_lucid.Prelude.Int.{ℤ}
use trans_lucid.Context.{Context}
use trans_lucid.Region.{Containment}
use trans_lucid.Tuple.{map_insert}
use trans_lucid.Workshops.{
  Value, special, region, Node, World, access, dimension_index, to_region, dim_time,
}
use trans_lucid.Workshops.Delta.{Delta, perturbed}
use trans_lucid.Workshops.Uncached.{
  ◌>>=◌, Gathered, nothing, within, ordinate, index_all, make_intension, gather_turn,
}
use trans_lucid.Workshops.Uncached
use trans_lucid.Workshops.Cached.{
  Answer, value, Timed, Loop, append_demand, add_bind, unless_demands, missing, region_turn,
}
use trans_lucid.Workshops.Cached
use trans_lucid.Workshops.Answers.{Answers, bind-Matches, bind_both-Matches, AllMissing-append}
use trans_lucid.Workshops.Answers.Branches.{within-Answers}
use trans_lucid.Workshops.Answers.Loops.{
  Keeps, Keeps-append_demand, Keeps-turn, Answers-unless_demands, AllMissing-missing, SameHead,
  SameGathered, SameGathered-turn,
}

module _ {X : Type 0} (W : World X) (ev : Node X → Context (Value X) → Option (Value X))
    (evc : Node X → Context (Value X) → Delta → ℕ → Option (Timed X))
    (h : (n : Node X) (k : Context (Value X)) (delta : Delta) (t : ℕ)
      → Answers delta (ev n k) (evc n k delta t)) where
  abbrev RegionAnswers :
      Delta → Option (Value X) → Option (Loop (List (ℤ × (Containment × Value X)))) → Type 0
  RegionAnswers delta o r = Answers delta o (r >>= λ l. unless_demands l (Cached.region_made W))

  region_loop-Answers :
      (parts : List (Node X × Containment × Node X)) (entries : List (ℤ × (Containment × Value X)))
      (l : Loop (List (ℤ × (Containment × Value X)))) (k : Context (Value X)) (delta : Delta)
      (t : ℕ)
      → Keeps delta l.demands (entries ≡ l.made)
      → RegionAnswers delta
          (Uncached.region_loop W ev parts entries k)
          (Cached.region_loop W evc parts l k delta t)
  unfolding Uncached.region_loop Cached.region_loop region_turn
  region_loop-Answers [] entries l k delta t keep =
      Answers-unless_demands delta (some (region (to_region entries))) l (Cached.region_made W) keep
        (λ e. ap (λ m. region (to_region m)) (sym e))
  region_loop-Answers ((a, i, b) ∷ more) entries l k delta t keep =
      bind_both-Matches delta (RegionAnswers delta) (λ r. tt) (ev a k) (ev b k) (evc a k delta t)
        (evc b k delta t)
        (λ v w. Uncached.region_loop W ev more (map_insert (dimension_index W v) (i, w) entries) k)
        (λ x y. Cached.region_loop W evc more (region_turn W i x y l) k delta t) (h a k delta t)
        (h b k delta t)
        λ v w t1 t2 x y m n.
          region_loop-Answers more (map_insert (dimension_index W v) (i, w) entries)
            (region_turn W i (t1, x) (t2, y) l) k delta t
            (Keeps-turn delta v w x y l.demands m n keep
              (λ p q e. rw (p, q) (ap (λ s. map_insert (dimension_index W v) (i, w) s) e)))

  pub region_ws-Answers :
      (parts : List (Node X × Containment × Node X)) (k : Context (Value X)) (delta : Delta) (t : ℕ)
      → Answers delta
          (Uncached.region_loop W ev parts [] k)
          (Cached.region_ws W evc parts k delta t)
  unfolding Cached.region_ws
  region_ws-Answers parts k delta t = region_loop-Answers parts [] _ k delta t (tt, inr refl)

  -- How AtTupleWS goes on after its loop.
  abbrev after : Node X → Context (Value X) → Gathered X → Option (Value X)
  after e2 k g = elim g.specials [
    | s ∷ ss ↦ some s
    | [] ↦ if g.access then some (special access) else ev e2 (within g.tuple k)
  ]

  abbrev AfterAnswers :
      Node X → Context (Value X) → Delta → Option (Gathered X) → Option (Loop (Gathered X)) → Type 0
  AfterAnswers e2 k delta o r =
      Answers delta (o >>= after e2 k)
        (r >>= λ l. unless_demands l (Cached.gathered W evc e2 k delta))

  changed-Answers :
      (e2 : Node X) (k : Context (Value X)) (delta : Delta) (t : ℕ) (b b' : Bool)
      (c c' : List (ℤ × Value X))
      → b ≡ b'
      → c ≡ c'
      → Answers delta (if b then some (special access) else ev e2 (within c k)) (
          if b'
          then some (t, value (special access))
          else evc e2 (within c' k) (perturbed c' delta) t)
  changed-Answers e2 k delta t true b' c c' p q = rw (← p) refl
  changed-Answers e2 k delta t false b' c c' p q =
      rw (← p, q) (within-Answers W ev evc h e2 c' k delta t)

  after-Answers :
      (e2 : Node X) (k : Context (Value X)) (delta : Delta) (g : Gathered X) (l : Loop (Gathered X))
      → Keeps delta l.demands (SameGathered g l.made)
      → Answers delta (after e2 k g) (unless_demands l (Cached.gathered W evc e2 k delta))
  after-Answers e2 k delta g l keep =
      Answers-unless_demands delta (after e2 k g) l (Cached.gathered W evc e2 k delta) keep
        (λ s. at_end g.specials l.made.specials s)
    where
      at_end :
          (ss ss' : List (Value X))
          → SameHead ss ss' ((g.access ≡ l.made.access) × (g.tuple ≡ l.made.tuple))
          → Answers delta
              (elim ss [
                | s ∷ more ↦ some s
                | [] ↦ if g.access then some (special access) else ev e2 (within g.tuple k)
              ])
              (Cached.gathered_from W evc ss' e2 k delta l.time l.made)
      at_end [] [] e = changed-Answers e2 k delta l.time _ _ _ _ e.0 e.1
      at_end [] (s ∷ ss) e = absurd e
      at_end (s ∷ ss) [] e = absurd e
      at_end (s ∷ ss) (s' ∷ ss') e = sym e

  gather-Answers :
      (pairs : List (Node X × Node X)) (e2 : Node X) (g : Gathered X) (l : Loop (Gathered X))
      (k : Context (Value X)) (delta : Delta) (t : ℕ)
      → Keeps delta l.demands (SameGathered g l.made)
      → AfterAnswers e2 k delta
          (Uncached.gather W ev pairs g k)
          (Cached.gather W evc pairs l k delta t)
  unfolding Uncached.gather Cached.gather Cached.gather_turn
  gather-Answers [] e2 g l k delta t keep = after-Answers e2 k delta g l keep
  gather-Answers ((a, b) ∷ more) e2 g l k delta t keep =
      bind_both-Matches delta (AfterAnswers e2 k delta) (λ r. tt) (ev a k) (ev b k)
        (evc a k delta t) (evc b k delta t)
        (λ v w. Uncached.gather W ev more (gather_turn W v w (ordinate k dim_time) g) k)
        (λ x y.
          Cached.gather W evc more (Cached.gather_turn W x y (ordinate k dim_time) l) k delta t)
        (h a k delta t) (h b k delta t)
        λ v w t1 t2 x y m n.
          gather-Answers more e2 (gather_turn W v w (ordinate k dim_time) g)
            (Cached.gather_turn W (t1, x) (t2, y) (ordinate k dim_time) l) k delta t
            (Keeps-turn delta v w x y l.demands m n keep
              (λ p q s. rw (p, q) (SameGathered-turn W v w (ordinate k dim_time) g l.made s)))

  pub at_tuple_ws-Answers :
      (e2 : Node X) (pairs : List (Node X × Node X)) (k : Context (Value X)) (delta : Delta) (t : ℕ)
      → Answers delta
          (Uncached.at_tuple_ws W ev e2 pairs k)
          (Cached.at_tuple_ws W evc e2 pairs k delta t)
  unfolding Uncached.at_tuple_ws Cached.at_tuple_ws
  at_tuple_ws-Answers e2 pairs k delta t =
      gather-Answers pairs e2 nothing _ k delta t (tt, inr (refl, refl))

  -- How MakeIntenWS goes on after its loop.
  abbrev closed : Node X → List ℤ → Context (Value X) → List (Value X) → Option (Value X)
  closed rhs scope k cs = some (make_intension W rhs cs scope k)

  abbrev ClosedAnswers :
      Node X
      → List ℤ
      → Context (Value X)
      → Delta
      → Option (List (Value X))
      → Option (Loop (List (Value X)))
      → Type 0
  ClosedAnswers rhs scope k delta o r =
      Answers delta (o >>= closed rhs scope k)
        (r >>= λ l. unless_demands l (Cached.closed W rhs scope k delta))

  closed-Answers :
      (rhs : Node X) (scope : List ℤ) (k : Context (Value X)) (delta : Delta) (cs : List (Value X))
      (l : Loop (List (Value X)))
      → Keeps delta l.demands (cs ≡ l.made)
      → Answers delta (closed rhs scope k cs) (unless_demands l (Cached.closed W rhs scope k delta))
  closed-Answers rhs scope k delta cs l keep =
      Answers-unless_demands delta (closed rhs scope k cs) l (Cached.closed W rhs scope k delta)
        keep
        λ e.
          Answers-unless_demands delta (closed rhs scope k cs)
            (Cached.close_loop W scope delta l.time l.made) (Cached.close W rhs scope k)
            (
              AllMissing-append delta _ _ (AllMissing-missing delta (index_all W l.made))
                  (AllMissing-missing delta scope),
              inr e,
            )
            (λ e'. ap (λ b. make_intension W rhs b scope k) (sym e'))

  bind_loop-Answers :
      (ns : List (Node X)) (rhs : Node X) (scope : List ℤ) (cs : List (Value X))
      (l : Loop (List (Value X))) (k : Context (Value X)) (delta : Delta) (t : ℕ)
      → Keeps delta l.demands (cs ≡ l.made)
      → ClosedAnswers rhs scope k delta
          (Uncached.eval_all W ev ns cs k)
          (Cached.bind_loop W evc ns l k delta t)
  unfolding Uncached.eval_all Cached.bind_loop Cached.bind_turn
  bind_loop-Answers [] rhs scope cs l k delta t keep = closed-Answers rhs scope k delta cs l keep
  bind_loop-Answers (n ∷ ns) rhs scope cs l k delta t keep =
      bind-Matches delta (ClosedAnswers rhs scope k delta) (λ r. tt) (ev n k) (evc n k delta t)
        (λ v. Uncached.eval_all W ev ns (cs ++ v ∷ []) k)
        (λ x. Cached.bind_loop W evc ns (Cached.bind_turn W x l) k delta t) (h n k delta t)
        λ v t1 a m.
          bind_loop-Answers ns rhs scope (cs ++ v ∷ []) (Cached.bind_turn W (t1, a) l) k delta t
            (Keeps-append_demand delta v a l.demands m keep (λ p e. rw p (ap (λ b. b ++ v ∷ []) e)))

  pub make_inten_ws-Answers :
      (rhs : Node X) (binds : List (Node X)) (scope : List ℤ) (k : Context (Value X))
      (delta : Delta) (t : ℕ)
      → Answers delta
          (Uncached.make_inten_ws W ev rhs binds scope k)
          (Cached.make_inten_ws W evc rhs binds scope k delta t)
  unfolding Uncached.make_inten_ws Cached.make_inten_ws
  make_inten_ws-Answers rhs binds scope k delta t =
      bind_loop-Answers binds rhs scope [] _ k delta t (tt, inr refl)
