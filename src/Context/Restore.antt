-- ===== src/Context/Restore.antt =====
-- `restore` of src/libs/system/context.cpp and src/include/tl/context.hpp takes back what `perturb`
-- did, in whatever order the dimensions are popped.
use trans_lucid.Prelude.{
  ℕ, zero, suc, ◌+◌, ◌≤◌, ◌<◌, ◌≡◌, refl, sym, fun_ext, ap, ◌∙◌, Option, some, List, [], ◌∷◌,
  if◌then◌else◌, length, drop, arith, ◌==◌, map, Bool-cases, inl, inr,
}
use trans_lucid.Prelude.Int.{ℤ, leb_ℤ, eqb_ℤ, eqb_ℤ_iff}
use trans_lucid.Context.{
  Context, Slot, stack_at, top_or, pop_at, make_index, perturb_tuple, restore_entry, restore_dim,
  forget_dim, restore, restore_tuple, ◌>>=◌, is_empty,
}
use trans_lucid.Context.Stacks.{stack_of, AllTops, IsValid, perturb-IsValid, stack_of-perturb}

abbrev pub dims : {V : Type 0} → List (ℤ × V) → List ℤ
dims = map (λ e. e.0)

module _ {V : Type 0} (all : V) where
  -- The deque after a pop.
  record Popped (ss ss' : List (Slot V)) (i : ℕ) (cs : List V) : Type 0 where
    same_length : length ss' ≡ length ss
    tops : AllTops all ss'
    stacks : (j : ℕ) → stack_at ss' j ≡ (if i == j then cs else stack_at ss j)

  pop_at_lem :
      (ss : List (Slot V)) (i : ℕ) (c : V) (cs : List V)
      → AllTops all ss
      → stack_at ss i ≡ c ∷ cs
      → (ss' : List (Slot V)) × (pop_at all ss i ≡ some ss') × Popped ss ss' i cs
  pop_at_lem [] i c cs h e = absurd (cc)
  pop_at_lem (s ∷ ss) zero c cs h e = (
    record { first = top_or all cs; stack = cs } ∷ ss,
    rw e,
    record {
      same_length = refl;
      tops = (refl, h.1);
      stacks = elim [ zero ↦ ground arith | suc j ↦ ground arith ];
    },
  )
  pop_at_lem (s ∷ ss) (suc i) c cs h e =
      let (ss', popped, p) = pop_at_lem ss i c cs h.1 e in
      (
        s ∷ ss',
        rw popped,
        record {
          same_length = ap suc p.same_length;
          tops = (h.0, p.tops);
          stacks = elim [ zero ↦ ground arith | suc j ↦ ground (arith, p.stacks j) ];
        },
      )

  -- A context with one ordinate less at `d`.
  record Less (d : ℤ) (cs : List V) (k k' : Context V) : Type 0 where
    valid : IsValid all k'
    stacks : (e : ℤ) → stack_of k' e ≡ (if eqb_ℤ d e then cs else stack_of k e)

  restore_entry_lem :
      (d : ℤ) (k : Context V) (c : V) (cs : List V)
      → IsValid all k
      → stack_of k d ≡ c ∷ cs
      → (k' : Context V) × (restore_entry all d k ≡ some k') × Less d cs k k'
  unfolding restore_entry
  restore_entry_lem d k c cs v e = elim (Bool-cases (leb_ℤ d k.min)) [
    | inl out ↦ absurd (ground arith)
    | inr inside ↦
        let here : stack_at k.slots (make_index k d) ≡ c ∷ cs = ground arith in
        let (ss', popped, p) = pop_at_lem k.slots (make_index k d) c cs v.tops here in
        (
          record k { slots = ss' },
          rw (inside, popped),
          record {
            valid = record {
              min_neg = v.min_neg;
              max_nonneg = v.max_nonneg;
              size = rw p.same_length v.size;
              tops = p.tops;
            };
            stacks = λ x. ground (arith, p.stacks (make_index k x));
          },
        )
  ]

  forget_dim-Less :
      (d : ℤ) {k k' : Context V} {cs : List V} → Less d cs k k' → Less d cs k (forget_dim d k')
  unfolding forget_dim
  forget_dim-Less d {k} {k'} p =
      elim (Bool-cases (is_empty (stack_at k'.slots (make_index k' d)))) [
        | inl gone ↦ rw gone (record {
          valid = record {
            min_neg = p.valid.min_neg;
            max_nonneg = p.valid.max_nonneg;
            size = p.valid.size;
            tops = p.valid.tops;
          };
          stacks = p.stacks;
        })
        | inr kept ↦ rw kept p
      ]

  restore_dim_lem :
      (d : ℤ) (k : Context V) (c : V) (cs : List V)
      → IsValid all k
      → stack_of k d ≡ c ∷ cs
      → (k' : Context V) × (restore_dim all d k ≡ some k') × Less d cs k k'
  unfolding restore_dim
  restore_dim_lem d k c cs v e =
      let (k', popped, p) = restore_entry_lem d k c cs v e in
      (forget_dim d k', rw popped, forget_dim-Less d p)

  -- How often a dimension is popped.
  abbrev count_dim : ℤ → List ℤ → ℕ
  count_dim e [] = 0
  count_dim e (d ∷ ds) = if eqb_ℤ d e then suc (count_dim e ds) else count_dim e ds

  uncons : (l : List V) → 0 < length l → (c : V) × (cs : List V) × (l ≡ c ∷ cs)
  uncons [] h = absurd (omega arith)
  uncons (c ∷ cs) h = (c, cs, refl)

  record Dropped (ds : List ℤ) (k k' : Context V) : Type 0 where
    pub valid : IsValid all k'
    pub stacks : (e : ℤ) → stack_of k' e ≡ drop (count_dim e ds) (stack_of k e)

  Dropped-cons :
      (d : ℤ) (ds : List ℤ) (c : V) (cs : List V) {k k' k'' : Context V}
      → stack_of k d ≡ c ∷ cs
      → Less d cs k k'
      → Dropped ds k' k''
      → Dropped (d ∷ ds) k k''
  Dropped-cons d ds c cs {k} {k'} {k''} e p q = record {
    valid = q.valid;
    stacks = λ x. elim (Bool-cases (eqb_ℤ d x)) [
      | inl same ↦ rw same (
          q.stacks x
          ∙ ap (drop (count_dim x ds)) (p.stacks x ∙ rw same)
          ∙ ap (drop (suc (count_dim x ds))) (sym e ∙ ap (stack_of k) ((eqb_ℤ_iff d x).0 same)))
      | inr other ↦ rw other (q.stacks x ∙ ap (drop (count_dim x ds)) (p.stacks x ∙ rw other))
    ];
  }

  room_left :
      (d : ℤ) (ds : List ℤ) (c : V) (cs : List V) {k k' : Context V}
      → stack_of k d ≡ c ∷ cs
      → Less d cs k k'
      → ((e : ℤ) → count_dim e (d ∷ ds) ≤ length (stack_of k e))
      → (x : ℤ) → count_dim x ds ≤ length (stack_of k' x)
  room_left d ds c cs {k} {k'} e p h x = elim (Bool-cases (eqb_ℤ d x)) [
    | inl same ↦
        let at_d : length (stack_of k x) ≡ suc (length cs) =
          ap (λ z. length (stack_of k z)) (sym ((eqb_ℤ_iff d x).0 same)) ∙ ap length e in
        let below : suc (count_dim x ds) ≤ length (stack_of k x) = rw same at (h x) in
        rw (p.stacks x, same) (omega arith)
    | inr other ↦ rw (p.stacks x, other) (rw other at (h x))
  ]

  module _ (step : ℤ → Context V → Option (Context V))
      (step_lem : (d : ℤ) (k : Context V) (c : V) (cs : List V)
        → IsValid all k
        → stack_of k d ≡ c ∷ cs
        → (k' : Context V) × (step d k ≡ some k') × Less d cs k k') where
    loop : List ℤ → Context V → Option (Context V)
    loop [] k = some k
    loop (d ∷ ds) k = step d k >>= loop ds

    loop_lem :
        (ds : List ℤ) (k : Context V)
        → IsValid all k
        → ((e : ℤ) → count_dim e ds ≤ length (stack_of k e))
        → (k' : Context V) × (loop ds k ≡ some k') × Dropped ds k k'
    unfolding loop
    loop_lem [] k v h = (k, refl, record { valid = v; stacks = λ e. refl })
    loop_lem (d ∷ ds) k v h =
        let (c, cs, e) = uncons (stack_of k d) (ground (arith, h d)) in
        let (k', popped, p) = step_lem d k c cs v e in
        let (k'', rest, q) = loop_lem ds k' p.valid (room_left d ds c cs e p h) in
        (k'', rw popped rest, Dropped-cons d ds c cs e p q)

  restore-loop :
      (ds : List ℤ) (k : Context V) → restore all ds k ≡ loop (restore_dim all) restore_dim_lem ds k
  unfolding restore loop
  restore-loop [] k = refl
  restore-loop (d ∷ ds) k = ap (λ f. restore_dim all d k >>= f) (fun_ext (restore-loop ds))

  restore_tuple-loop :
      (t : List (ℤ × V)) (k : Context V)
      → restore_tuple all t k ≡ loop (restore_entry all) restore_entry_lem (dims t) k
  unfolding restore_tuple loop
  restore_tuple-loop [] k = refl
  restore_tuple-loop ((d, c) ∷ t) k =
      ap (λ f. restore_entry all d k >>= f) (fun_ext (restore_tuple-loop t))

  -- What a list of perturbations puts on the stack of a dimension.
  pushes : ℤ → List (ℤ × V) → List V → List V
  pushes e [] s = s
  pushes e ((d, c) ∷ t) s = pushes e t (if eqb_ℤ d e then c ∷ s else s)

  perturb_tuple-IsValid :
      (t : List (ℤ × V)) (k : Context V) → IsValid all k → IsValid all (perturb_tuple all t k)
  unfolding perturb_tuple
  perturb_tuple-IsValid [] k v = v
  perturb_tuple-IsValid ((d, c) ∷ t) k v = perturb_tuple-IsValid t _ (perturb-IsValid all d k v c)

  stack_of-perturb_tuple :
      (t : List (ℤ × V)) (k : Context V)
      → IsValid all k
      → (e : ℤ) → stack_of (perturb_tuple all t k) e ≡ pushes e t (stack_of k e)
  unfolding perturb_tuple pushes
  stack_of-perturb_tuple [] k v e = refl
  stack_of-perturb_tuple ((d, c) ∷ t) k v e =
      stack_of-perturb_tuple t _ (perturb-IsValid all d k v c) e
      ∙ ap (pushes e t) (stack_of-perturb all d k v c e)

  drop-suc : (n : ℕ) (l : List V) → drop (suc n) l ≡ drop 1 (drop n l)
  drop-suc zero l = refl
  drop-suc (suc n) [] = refl
  drop-suc (suc n) (c ∷ l) = drop-suc n l

  drop-pushes :
      (e : ℤ) (t : List (ℤ × V)) (s : List V) → drop (count_dim e (dims t)) (pushes e t s) ≡ s
  unfolding pushes
  drop-pushes e [] s = refl
  drop-pushes e ((d, c) ∷ t) s = elim (Bool-cases (eqb_ℤ d e)) [
    | inl same ↦ rw same (
        drop-suc (count_dim e (dims t)) (pushes e t (c ∷ s))
        ∙ ap (drop 1) (drop-pushes e t (c ∷ s)))
    | inr other ↦ rw other (drop-pushes e t s)
  ]

  length-pushes :
      (e : ℤ) (t : List (ℤ × V)) (s : List V)
      → length (pushes e t s) ≡ count_dim e (dims t) + length s
  unfolding pushes
  length-pushes e [] s = omega arith
  length-pushes e ((d, c) ∷ t) s = elim (Bool-cases (eqb_ℤ d e)) [
    | inl same ↦ rw same (omega (arith, length-pushes e t (c ∷ s)))
    | inr other ↦ rw other (length-pushes e t s)
  ]

  -- A context in which every dimension has the stack that it has in `k`.
  pub record SameStacks (k k' : Context V) : Type 0 where
    pub valid : IsValid all k'
    pub stacks : (e : ℤ) → stack_of k' e ≡ stack_of k e

  module _ (t : List (ℤ × V)) (k : Context V) (v : IsValid all k) where
    enough : (e : ℤ) → count_dim e (dims t) ≤ length (stack_of (perturb_tuple all t k) e)
    enough e = rw (stack_of-perturb_tuple t k v e) (omega (arith, length-pushes e t (stack_of k e)))

    back : {k' : Context V} → Dropped (dims t) (perturb_tuple all t k) k' → SameStacks k k'
    back p = record {
      valid = p.valid;
      stacks = λ e.
          p.stacks e
          ∙ ap (drop (count_dim e (dims t))) (stack_of-perturb_tuple t k v e)
          ∙ drop-pushes e t (stack_of k e);
    }

    -- Perturbations of a valid context, of any dimensions and in any order, are all taken back by
    -- `restore` of the list of their dimensions: no pop fails, the context is valid, and every
    -- dimension has its old stack again.
    pub restore-perturb_tuple :
        (k' : Context V) × (restore all (dims t) (perturb_tuple all t k) ≡ some k')
        × SameStacks k k'
    restore-perturb_tuple =
        let (k', popped, p) =
          loop_lem (restore_dim all) restore_dim_lem (dims t) _ (perturb_tuple-IsValid t k v)
            enough in
        (k', restore-loop (dims t) _ ∙ popped, back p)

    -- `restore` of a tuple takes back `perturb` of a valid context by the same tuple: no pop fails,
    -- the context is valid, and every dimension has its old stack again.
    pub restore_tuple-perturb_tuple :
        (k' : Context V) × (restore_tuple all t (perturb_tuple all t k) ≡ some k') × SameStacks k k'
    restore_tuple-perturb_tuple =
        let (k', popped, p) =
          loop_lem (restore_entry all) restore_entry_lem (dims t) _ (perturb_tuple-IsValid t k v)
            enough in
        (k', restore_tuple-loop t _ ∙ popped, back p)
