-- ===== src/Types/Compare/Sound.antt =====
-- What `type_term_contains_pos` and `type_term_contains_neg` of src/libs/system/tyinf/type.cpp say of
-- the constants that two types stand for.
use trans_lucid.Prelude.{
  ℕ, Bool, true, ◌||◌, some, List, [], ◌∷◌, ◌≡◌, ◌↔◌, refl, ap, ap₂, ltb, arith,
}
use trans_lucid.Ordered.{StrictOrder}
use trans_lucid.OrderedSet.{has}
use trans_lucid.Types.{
  TypeTerm, nothing, top, bot, region, var, constant, atomic, union, glb, lub, intension, cbv, base,
  tuple,
}
use trans_lucid.Types.Atomics.{AtomicUnion, constant_in}
use trans_lucid.Types.Bounds.Elementary.{stands, IsElementary, Apart, construct_lub_lem}
use trans_lucid.Types.Bounds.Lower.{construct_glb_lem}
use trans_lucid.Types.Compare.{eqb_vars, eqb_constants, eqb_union, eqb, contains_pos, contains_neg}

eqb_vars_sound : (vs ws : List ℕ) → eqb_vars vs ws ≡ true → vs ≡ ws
unfolding eqb_vars
eqb_vars_sound [] [] h = refl
eqb_vars_sound (v ∷ vs) (w ∷ ws) h =
    let v_eq_w : v ≡ w = ground arith in
    ap₂ (λ x xs. x ∷ xs) v_eq_w (eqb_vars_sound vs ws (ground arith))
eqb_vars_sound [] (w ∷ ws) h = ground arith
eqb_vars_sound (v ∷ vs) [] h = ground arith

module _ {C : Type 0} (beq : C → C → Bool) (beq_iff : (a b : C) → (beq a b ≡ true) ↔ (a ≡ b)) where
  eqb_constants_sound : (cs ds : List C) → eqb_constants beq cs ds ≡ true → cs ≡ ds
  unfolding eqb_constants
  eqb_constants_sound [] [] h = refl
  eqb_constants_sound (c ∷ cs) (d ∷ ds) h =
      ap₂ (λ x xs. x ∷ xs) ((beq_iff c d).0 (ground arith))
        (eqb_constants_sound cs ds (ground arith))
  eqb_constants_sound [] (d ∷ ds) h = ground arith
  eqb_constants_sound (c ∷ cs) [] h = ground arith

module _ {C : Type 0} (index : C → ℕ) (beq : C → C → Bool) {lt : C → C → Bool} (o : StrictOrder lt)
    (beq_iff : (a b : C) → (beq a b ≡ true) ↔ (a ≡ b)) where
  same_union :
      (c : C) (u v : AtomicUnion C)
      → eqb_union beq u v ≡ true
      → constant_in index lt c u ≡ constant_in index lt c v
  unfolding eqb_union constant_in
  same_union c u v h =
      ap₂ (λ is cs. has ltb (index c) is || has lt c cs)
        (eqb_vars_sound u.atomics v.atomics (ground arith))
        (eqb_constants_sound beq beq_iff u.constants v.constants (ground arith))

  -- Types that compare equal stand for the same constants.
  eqb_same :
      (c : C) (t p : TypeTerm C)
      → eqb beq t p ≡ true
      → stands index beq lt c t ≡ stands index beq lt c p
  unfolding eqb
  eqb_same c (constant a) (constant b) h = ap (beq c) ((beq_iff a b).0 h)
  eqb_same c (atomic n i) (atomic m j) h = ground arith
  eqb_same c (union u) (union v) h = same_union c u v h
  eqb_same c nothing nothing h = refl
  eqb_same c top top h = refl
  eqb_same c bot bot h = refl
  eqb_same c region region h = refl
  eqb_same c (var v) (var w) h = refl
  eqb_same c (glb vs t) (glb ws p) h = refl
  eqb_same c (lub vs t) (lub ws p) h = refl
  eqb_same c (intension t) (intension p) h = refl
  eqb_same c (cbv l r) (cbv l' r') h = refl
  eqb_same c (base ls r) (base ls' r') h = refl
  eqb_same c (tuple fs v) (tuple gs w) h = refl
  eqb_same c _ _ h = ground arith

  -- Take two constants, atomic types or normal unions. Where the first is a union, let no atomic type
  -- of the second cover one of its constants, and where only the second is a union, let the first cover
  -- none of its constants. Then `type_term_contains_pos` always answers, and where it answers that `a`
  -- contains `b`, every constant of `b` is one of `a`.
  pub contains_pos_lem :
      {a b : TypeTerm C}
      → IsElementary index beq o beq_iff a
      → IsElementary index beq o beq_iff b
      → Apart index beq o beq_iff a b
      → (r : Bool) × (contains_pos index beq lt a b ≡ some r)
        × (r ≡ true → (c : C) → stands index beq lt c b ≡ true → stands index beq lt c a ≡ true)
  unfolding contains_pos
  contains_pos_lem {a} {b} p q f =
      let (t, e, n, h) = construct_lub_lem index beq o beq_iff p q f in
      (eqb beq t a, rw e refl, λ same c s. ground (arith, h c, eqb_same c t a same))

  -- And where `type_term_contains_neg` answers so, every constant of `a` is one of `b`.
  pub contains_neg_lem :
      {a b : TypeTerm C}
      → IsElementary index beq o beq_iff a
      → IsElementary index beq o beq_iff b
      → (r : Bool) × (contains_neg index beq lt a b ≡ some r)
        × (r ≡ true → (c : C) → stands index beq lt c a ≡ true → stands index beq lt c b ≡ true)
  unfolding contains_neg
  contains_neg_lem {a} {b} p q =
      let (t, e, h) = construct_glb_lem index beq o beq_iff p q in
      (eqb beq t a, rw e refl, λ same c s. ground (arith, (h c).0, eqb_same c t a same))
