-- ===== src/BestFit/Priorities/Highest.antt =====
-- The equations that `ConditionalBestfitWS::operator()` of src/libs/system/bestfit.cpp hands to the
-- best fit: those that apply at the highest priority at which any does.
use mathlib.Core.List.{append-nil, append_assoc}
use trans_lucid.Prelude.{
  Bool, true, false, ◌&&◌, List, [], ◌∷◌, ◌++◌, ◌≡◌, ◌⊎◌, inl, inr, refl, ap, sym, ◌∙◌, subst,
  fun_ext, if◌then◌else◌, arith, Bool-cases,
}
use trans_lucid.Prelude.Int.{ℤ, ltb_ℤ, eqb_ℤ, eqb_ℤ_iff}
use trans_lucid.BestFit.{ConstantOps, Applicable, undefined, bestfit}
use trans_lucid.BestFit.Priorities.{
  Equation, PriorityList, file, file_all, applicable_at, is_none, walk, evaluate,
}

module _ {C : Type 0} where
  -- The equations of one priority, in their order.
  unfoldable pub of_priority : ℤ → List (Equation C) → List (Equation C)
  of_priority p [] = []
  of_priority p (e ∷ es) =
      let rest = of_priority p es in if eqb_ℤ p e.priority then e ∷ rest else rest

  unfoldable level : ℤ → PriorityList C → List (Equation C)
  level p [] = []
  level p ((q, es) ∷ m) = if eqb_ℤ p q then es else level p m

  -- The priorities are above `p`, and in order.
  unfoldable all_over : ℤ → PriorityList C → Bool
  all_over p [] = true
  all_over p ((q, es) ∷ m) = ltb_ℤ p q && all_over p m

  unfoldable is_sorted : PriorityList C → Bool
  is_sorted [] = true
  is_sorted ((q, es) ∷ m) = all_over q m && is_sorted m

  level-over :
      (p q : ℤ) (m : PriorityList C) → all_over q m ≡ true → ltb_ℤ q p ≡ false → level p m ≡ []
  unfolding level all_over
  level-over p q [] h k = refl
  level-over p q ((r, es) ∷ m) h k = ground (arith, level-over p q m)

  all_over-file :
      (p : ℤ) (e : Equation C) (m : PriorityList C)
      → all_over p (file e m) ≡ (ltb_ℤ p e.priority && all_over p m)
  unfolding file all_over
  all_over-file p e [] = refl
  all_over-file p e ((q, es) ∷ m) = ground (arith, all_over-file p e m, eqb_ℤ_iff q e.priority)

  all_over_trans :
      (p q : ℤ) (m : PriorityList C) → ltb_ℤ p q ≡ true → all_over q m ≡ true → all_over p m ≡ true
  unfolding all_over
  all_over_trans p q [] h k = refl
  all_over_trans p q ((r, es) ∷ m) h k = ground (arith, all_over_trans p q m h)

  is_sorted-file :
      (e : Equation C) (m : PriorityList C) → is_sorted m ≡ true → is_sorted (file e m) ≡ true
  unfolding file is_sorted
  is_sorted-file e [] h = unfold all_over in refl
  is_sorted-file e ((q, es) ∷ m) h = ground (
    arith,
    is_sorted-file e m,
    all_over-file q e m,
    all_over_trans e.priority q m,
    head_over e.priority q es m,
  )
    where
      head_over :
          (p r : ℤ) (fs : List (Equation C)) (n : PriorityList C)
          → all_over p ((r, fs) ∷ n) ≡ (ltb_ℤ p r && all_over p n)
      head_over p r fs n = unfold all_over in refl

  level-file :
      (p : ℤ) (e : Equation C) (m : PriorityList C)
      → is_sorted m ≡ true
      → level p (file e m) ≡ (if eqb_ℤ p e.priority then level p m ++ e ∷ [] else level p m)
  unfolding level file is_sorted
  level-file p e [] h = refl
  level-file p e ((q, es) ∷ m) h = ground (
    arith,
    level-file p e m,
    level-over p q m,
    eqb_ℤ_iff p q,
    eqb_ℤ_iff p e.priority,
    eqb_ℤ_iff q e.priority,
  )

  file_or :
      (b : Bool) (l k r : List (Equation C)) (e : Equation C)
      → k ≡ (if b then l ++ e ∷ [] else l)
      → (k ++ r) ≡ (l ++ (if b then e ∷ r else r))
  file_or true l k r e h = ap (λ x. x ++ r) h ∙ append_assoc l (e ∷ []) r
  file_or false l k r e h = ap (λ x. x ++ r) h

  level-file_all :
      (p : ℤ) (es : List (Equation C)) (m : PriorityList C)
      → is_sorted m ≡ true
      → level p (file_all es m) ≡ level p m ++ of_priority p es
  unfolding file_all of_priority
  level-file_all p [] m h = sym (append-nil (level p m))
  level-file_all p (e ∷ es) m h =
      level-file_all p es (file e m) (is_sorted-file e m h)
      ∙ file_or (eqb_ℤ p e.priority) (level p m) (level p (file e m)) (of_priority p es) e
          (level-file p e m h)

  is_sorted-file_all :
      (es : List (Equation C)) (m : PriorityList C)
      → is_sorted m ≡ true
      → is_sorted (file_all es m) ≡ true
  unfolding file_all
  is_sorted-file_all [] m h = h
  is_sorted-file_all (e ∷ es) m h = is_sorted-file_all es (file e m) (is_sorted-file e m h)

module _ {C : Type 0} (ops : ConstantOps C) (look : ℤ → C) where
  -- What a walk finds: all of the highest priority at which something applies, or nothing anywhere.
  Found : (ℤ → List (Equation C)) → List (Applicable ops) → Type 0
  Found at l =
      ((l ≡ []) × ((q : ℤ) → applicable_at ops look (at q) ≡ []))
      ⊎ ((p : ℤ) × (l ≡ applicable_at ops look (at p))
          × (is_none ops look l ≡ false)
          × ((q : ℤ) → ltb_ℤ p q ≡ true → applicable_at ops look (at q) ≡ []))

  at_or : ℤ → List (Equation C) → (ℤ → List (Equation C)) → ℤ → List (Equation C)
  at_or k es at q = if eqb_ℤ q k then es else at q

  at_here : (k : ℤ) (es : List (Equation C)) (at : ℤ → List (Equation C)) → at_or k es at k ≡ es
  unfolding at_or
  at_here k es at = ground arith

  at_other :
      (k q : ℤ) (es : List (Equation C)) (at : ℤ → List (Equation C))
      → eqb_ℤ q k ≡ false
      → at_or k es at q ≡ at q
  unfolding at_or
  at_other k q es at h = rw h refl

  nothing_at : applicable_at ops look [] ≡ []
  unfolding applicable_at
  nothing_at = refl

  -- The priority `k`, below those that were walked.
  Found-at_or :
      (k : ℤ) (es : List (Equation C)) (at : ℤ → List (Equation C)) (l here : List (Applicable ops))
      → here ≡ applicable_at ops look es
      → ((q : ℤ) → ltb_ℤ k q ≡ false → at q ≡ [])
      → Found at l
      → Found (at_or k es at) (if is_none ops look l then here else l)
  unfolding Found at_or
  Found-at_or k es at [] [] e over (inl (z, n)) =
      inl (refl, λ q. elim (Bool-cases (eqb_ℤ q k)) [ inl s ↦ rw s (sym e) | inr s ↦ rw s (n q) ])
  Found-at_or k es at [] (a ∷ here) e over (inl (z, n)) = inr (
    k,
    e ∙ ap (applicable_at ops look) (sym (at_here k es at)),
    refl,
    λ q s. ap (applicable_at ops look) (at_other k q es at (ground arith)) ∙ n q,
  )
  Found-at_or k es at (b ∷ l) here e over (inl (z, n)) = ground arith
  Found-at_or k es at [] here e over (inr (p, z, f, n)) = ground arith
  Found-at_or k es at (b ∷ l) here e over (inr (p, z, f, n)) = elim (Bool-cases (ltb_ℤ k p)) [
    | inl up ↦ inr (
      p,
      z ∙ ap (applicable_at ops look) (sym (at_other k p es at (ground arith))),
      refl,
      λ q s. ap (applicable_at ops look) (at_other k q es at (ground arith)) ∙ n q s,
    )
    | inr down ↦
        let bad : (b ∷ l) ≡ [] = z ∙ ap (applicable_at ops look) (over p down) ∙ nothing_at in
        ground arith
  ]

  walk-Found : (m : PriorityList C) → is_sorted m ≡ true → Found (λ p. level p m) (walk ops look m)
  unfolding walk level is_sorted at_or
  walk-Found [] h = unfold Found in inl (refl, λ q. unfold applicable_at in refl)
  walk-Found ((k, es) ∷ m) h =
      Found-at_or k es (λ p. level p m) (walk ops look m) (applicable_at ops look es) refl
        (λ q s. level-over q k m (ground arith) s) (walk-Found m (ground arith))

  found : (es : List (Equation C)) → Found (λ p. of_priority p es) (walk ops look (file_all es []))
  unfolding level
  found es =
      subst (λ at. Found at (walk ops look (file_all es [])))
        (fun_ext (λ p. level-file_all p es [] (unfold is_sorted in refl)))
        (walk-Found (file_all es []) (is_sorted-file_all es [] (unfold is_sorted in refl)))

  none_best : bestfit ops [] ≡ undefined
  unfolding bestfit
  none_best = refl

  -- Either no equation applies, and the result is undefined; or the equations of the highest priority
  -- at which any equation applies are those that the best fit is of, in their order.
  pub evaluate_lem :
      (es : List (Equation C))
      → ((evaluate ops look es ≡ undefined)
          × ((q : ℤ) → applicable_at ops look (of_priority q es) ≡ []))
        ⊎ ((p : ℤ) × (evaluate ops look es
              ≡ bestfit ops (applicable_at ops look (of_priority p es)))
            × (is_none ops look (applicable_at ops look (of_priority p es)) ≡ false)
            × ((q : ℤ) → ltb_ℤ p q ≡ true → applicable_at ops look (of_priority q es) ≡ []))
  unfolding evaluate Found
  evaluate_lem es = elim (found es) [
    | inl (z, n) ↦ inl (ap (bestfit ops) z ∙ none_best, n)
    | inr (p, z, k, n) ↦ inr (p, ap (bestfit ops) z, subst (λ l. is_none ops look l ≡ false) z k, n)
  ]
