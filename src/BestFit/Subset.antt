-- ===== src/BestFit/Subset.antt =====
-- What `regionSubset` of src/libs/system/bestfit.cpp says of the tuples in two regions.
use trans_lucid.Prelude.{
  Bool, true, false, not, ◌&&◌, [], ◌∷◌, ◌≡◌, refl, sym, subst, if◌then◌else◌, arith,
}
use trans_lucid.Prelude.Int.{ℤ, ltb_ℤ, eqb_ℤ, eqb_ℤ_iff, to_int16, is_int16, to_int16_lem}
use trans_lucid.Region.{Containment, is, is_in, imp, Region}
use trans_lucid.BestFit.{
  ConstantOps, value_inside, value_smaller, region_applicable, subset_loop, region_subset,
  same_containment, is_below,
}

module _ {C : Type 0} (ops : ConstantOps C) where
  -- A region with an `is` at one dimension is a subset of the region with an `in` or a `:` there, whatever the
  -- constants of the two are.
  pub region_subset_unchecked :
      (d : ℤ) (x y : C)
      → (region_subset ops true ((d, (is, x)) ∷ []) ((d, (is_in, y)) ∷ []) ≡ true)
        × (region_subset ops true ((d, (is, x)) ∷ []) ((d, (imp, y)) ∷ []) ≡ true)
  unfolding region_subset
  region_subset_unchecked d x y = ground arith

  -- What the loop leaves out: at a dimension where the first region has an `is`, its constant is in what the
  -- second one asks for there.
  unfoldable pub agree_at : ℤ → C → Region C → Bool
  unfolding value_inside
  agree_at d x [] = true
  agree_at d x ((e, (s, y)) ∷ b) =
      (if eqb_ℤ d e && is_below ops is s then value_inside ops x s y else true) && agree_at d x b

  unfoldable pub agree : Region C → Region C → Bool
  unfolding agree_at
  agree [] b = true
  agree ((d, (is, x)) ∷ a) b = agree_at d x b && agree a b
  agree ((d, (is_in, x)) ∷ a) b = agree a b
  agree ((d, (imp, x)) ∷ a) b = agree a b

  agree_tail :
      (a : Region C) (e : ℤ × (Containment × C)) (b : Region C)
      → agree a (e ∷ b) ≡ true
      → agree a b ≡ true
  unfolding agree
  agree_tail [] e b h = refl
  agree_tail ((d, (is, x)) ∷ a) e b h = ground (arith, agree_tail a e b)
  agree_tail ((d, (is_in, x)) ∷ a) e b h = agree_tail a e b h
  agree_tail ((d, (imp, x)) ∷ a) e b h = agree_tail a e b h

  -- Whether a type_index can hold all dimensions of a region.
  unfoldable pub all_int16 : Region C → Bool
  all_int16 [] = true
  all_int16 ((d, e) ∷ a) = is_int16 d && all_int16 a

  -- Whether all constants of a region are plain.
  unfoldable pub all_plain : (C → Bool) → Region C → Bool
  all_plain plain [] = true
  all_plain plain ((d, (s, x)) ∷ a) = plain x && all_plain plain a

  module _ (plain : C → Bool) (beq_sound : (x y : C) → plain y ≡ true → ops.beq x y ≡ true → x ≡ y)
      (refines_trans : (x y z : C)
        → plain y ≡ true
        → plain z ≡ true
        → ops.refines x y ≡ true
        → ops.refines y z ≡ true
        → ops.refines x z ≡ true)
      (look : ℤ → C) where
    -- One dimension of the two.
    step :
        (c : C) (s t : Containment) (x y : C)
        → plain x ≡ true
        → plain y ≡ true
        → value_inside ops c s x ≡ true
        → (if not (same_containment ops s t) then is_below ops s t else value_smaller ops x s y)
          ≡ true
        → (is_below ops s t ≡ true → value_inside ops x t y ≡ true)
        → value_inside ops c t y ≡ true
    unfolding value_inside value_smaller
    step c is is x y f g p q r = subst (λ z. ops.beq z y ≡ true) (sym (beq_sound c x f p)) q
    step c is is_in x y f g p q r =
        subst (λ z. value_inside ops z is_in y ≡ true) (sym (beq_sound c x f p)) (r refl)
    step c is imp x y f g p q r =
        subst (λ z. value_inside ops z imp y ≡ true) (sym (beq_sound c x f p)) (r refl)
    step c is_in is_in x y f g p q r = refines_trans c x y f g p q
    step c imp imp x y f g p q r =
        subst (λ z. value_inside ops c imp z ≡ true) (beq_sound x y g q) p
    step c is_in is x y f g p q r = ground arith
    step c is_in imp x y f g p q r = ground arith
    step c imp is x y f g p q r = ground arith
    step c imp is_in x y f g p q r = ground arith

    -- What the agreement of the first entry with the second region says of the second region's first.
    head_agrees :
        (d e : ℤ) (s t : Containment) (x y : C) (a b : Region C)
        → agree ((d, (s, x)) ∷ a) ((e, (t, y)) ∷ b) ≡ true
        → eqb_ℤ d e ≡ true
        → is_below ops s t ≡ true
        → value_inside ops x t y ≡ true
    unfolding agree agree_at
    head_agrees d e is is x y a b h k q = ground arith
    head_agrees d e is is_in x y a b h k q = ground arith
    head_agrees d e is imp x y a b h k q = ground arith
    head_agrees d e is_in t x y a b h k q = ground arith
    head_agrees d e imp t x y a b h k q = ground arith

    agree_rest :
        (d : ℤ) (s : Containment) (x : C) (a b : Region C)
        → agree ((d, (s, x)) ∷ a) b ≡ true
        → agree a b ≡ true
    unfolding agree
    agree_rest d is x a b h = ground arith
    agree_rest d is_in x a b h = h
    agree_rest d imp x a b h = h

    -- The comparison of two entries, with the outcomes of the three ways to go on.
    abbrev turn : Containment → Containment → C → C → Bool → Bool → Bool → ℤ → ℤ → Bool
    turn s t x y skipped smaller same d e =
        if ltb_ℤ e d
        then false
        else if ltb_ℤ d e
        then skipped
        else if not (same_containment ops s t)
        then (if is_below ops s t then same else false)
        else if not (value_smaller ops x s y)
        then false
        else if not (value_smaller ops y s x)
        then smaller
        else same

    -- Entries at two dimensions, where the three ways to go on are sound.
    turn_sound :
        (skipped smaller same : Bool) (d e : ℤ) (s t : Containment) (x y : C) (a b : Region C)
        → turn s t x y skipped smaller same d e ≡ true
        → agree ((d, (s, x)) ∷ a) ((e, (t, y)) ∷ b) ≡ true
        → all_plain plain ((d, (s, x)) ∷ a) ≡ true
        → all_plain plain ((e, (t, y)) ∷ b) ≡ true
        → region_applicable ops look ((d, (s, x)) ∷ a) ≡ true
        → (skipped ≡ true → region_applicable ops look ((e, (t, y)) ∷ b) ≡ true)
        → (smaller ≡ true → agree a b ≡ true → region_applicable ops look b ≡ true)
        → (same ≡ true → agree a b ≡ true → region_applicable ops look b ≡ true)
        → region_applicable ops look ((e, (t, y)) ∷ b) ≡ true
    unfolding region_applicable all_plain
    turn_sound skipped smaller same d e s t x y a b h g u w p r1 r2 r3 = ground (
      arith,
      agree_rest d s x a ((e, (t, y)) ∷ b) g,
      agree_tail a (e, (t, y)) b,
      head_agrees d e s t x y a b g,
      step (look e) s t x y,
      eqb_ℤ_iff d e,
    )

    at_int16 :
        (f : ℤ → ℤ → Bool) (d e : ℤ)
        → is_int16 d ≡ true
        → is_int16 e ≡ true
        → f (to_int16 d) (to_int16 e) ≡ true
        → f d e ≡ true
    at_int16 f d e i j h =
        subst (λ x. f x e ≡ true) (to_int16_lem d i)
          (subst (λ y. f (to_int16 d) y ≡ true) (to_int16_lem e j) h)

    both : (a b : Bool) → (a && b) ≡ true → (a ≡ true) × (b ≡ true)
    both a b h = ground arith

    loop_sound :
        (equal : Bool) (a b : Region C)
        → subset_loop ops true equal a b ≡ true
        → agree a b ≡ true
        → all_plain plain a ≡ true
        → all_plain plain b ≡ true
        → all_int16 a ≡ true
        → all_int16 b ≡ true
        → region_applicable ops look a ≡ true
        → region_applicable ops look b ≡ true
    unfolding subset_loop region_applicable all_plain all_int16
    loop_sound equal [] [] h g u w i j p = refl
    loop_sound equal (x ∷ a) [] h g u w i j p = refl
    loop_sound equal [] (y ∷ b) h g u w i j p = ground arith
    loop_sound equal ((d, (s, x)) ∷ a) ((e, (t, y)) ∷ b) h g u w i j p =
        let (i0, i1) = both (is_int16 d) (all_int16 a) i in
        let (j0, j1) = both (is_int16 e) (all_int16 b) j in
        let u1 = (both (plain x) (all_plain plain a) u).1 in
        let w1 = (both (plain y) (all_plain plain b) w).1 in
        let p1 : region_applicable ops look a ≡ true = ground arith in
        turn_sound _ _ _ d e s t x y a b
          (at_int16
            (turn s t x y (subset_loop ops true false a ((e, (t, y)) ∷ b))
              (subset_loop ops true false a b) (subset_loop ops true equal a b))
            d e i0 j0 h)
          g u w p
          (λ q.
            loop_sound false a ((e, (t, y)) ∷ b) q (agree_rest d s x a ((e, (t, y)) ∷ b) g) u1 w i1
              j p1)
          (λ q r. loop_sound false a b q r u1 w1 i1 j1 p1)
          (λ q r. loop_sound equal a b q r u1 w1 i1 j1 p1)

    -- Let equality be sound and the refinement of constants transitive on the plain constants, of which both
    -- regions are made, and let the dimensions of both be in the range of a type_index, an int16_t, to
    -- which the code converts them. If `regionSubset` says that a region is a subset of another, and the constants that the first one fixes with `is`
    -- are in what the second one asks for at the same dimensions, then the second region applies
    -- wherever the first one does.
    pub region_subset_sound :
        (a b : Region C)
        → region_subset ops true a b ≡ true
        → agree a b ≡ true
        → all_plain plain a ≡ true
        → all_plain plain b ≡ true
        → all_int16 a ≡ true
        → all_int16 b ≡ true
        → region_applicable ops look a ≡ true
        → region_applicable ops look b ≡ true
    unfolding region_subset
    region_subset_sound a b h g u w i j p = loop_sound true a b h g u w i j p
