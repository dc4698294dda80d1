-- ===== src/BestFit/Chosen.antt =====
-- What `ConditionalBestfitWS::bestfit` of src/libs/system/bestfit.cpp chooses.
use trans_lucid.Prelude.{
  ℕ, zero, suc, ◌+◌, Bool, true, false, some, List, [], ◌∷◌, ◌≡◌, ◌≢◌, refl, subst, if◌then◌else◌,
  arith, get_elem?,
}
use trans_lucid.BestFit.{
  ConstantOps, Applicable, region_subset, below_others, best_from, reverse_onto, run, newest,
  bestfit,
}

module _ {C : Type 0} (ops : ConstantOps C) where
  same_head : (g f : Applicable ops) → some g ≡ some f → g ≡ f
  same_head g f e = cc

  below_others_lem :
      (i : ℕ) (r : _) (j : ℕ) (es : List (Applicable ops)) (m : ℕ) (f : Applicable ops)
      → below_others ops i r j es ≡ true
      → get_elem? es m ≡ some f
      → i ≢ j + m
      → region_subset ops true r f.0 ≡ true
  unfolding below_others
  below_others_lem i r j [] m f h e d = ground arith
  below_others_lem i r j (g ∷ es) zero f h e d = ground (arith, same_head g f e)
  below_others_lem i r j (g ∷ es) (suc m) f h e d =
      below_others_lem i r (j + 1) es m f (ground arith) e (λ k. d (ground arith))

  -- The equation at a position of the list, which is inside all the others.
  IsBest : List (Applicable ops) → ℕ × ℕ → Type 0
  IsBest all b =
      (e : Applicable ops) × (get_elem? all b.0 ≡ some e)
      × ((m : ℕ) (f : Applicable ops)
          → get_elem? all m ≡ some f
          → m ≢ b.0
          → region_subset ops true e.0 f.0 ≡ true)

  Every : (ℕ × ℕ → Type 0) → List (ℕ × ℕ) → Type 0
  Every P [] = Unit
  Every P (b ∷ bs) = P b × Every P bs

  Every-reverse_onto :
      (P : ℕ × ℕ → Type 0) (bs l : List (ℕ × ℕ))
      → Every P bs
      → Every P l
      → Every P (reverse_onto ops bs l)
  unfolding reverse_onto Every
  Every-reverse_onto P [] l h k = k
  Every-reverse_onto P (b ∷ bs) l h k = Every-reverse_onto P bs (b ∷ l) h.1 (h.0, k)

  Every-if :
      (P : ℕ × ℕ → Type 0) (t : Bool) (b : ℕ × ℕ) (l : List (ℕ × ℕ))
      → (t ≡ true → P b)
      → Every P l
      → Every P (if t then b ∷ l else l)
  unfolding Every
  Every-if P true b l h k = (h refl, k)
  Every-if P false b l h k = k

  Every-best_from :
      (all : List (Applicable ops)) (i : ℕ) (es : List (Applicable ops))
      → ((m k : ℕ) (f : Applicable ops)
          → k ≡ i + m
          → get_elem? es m ≡ some f
          → get_elem? all k ≡ some f)
      → Every (IsBest all) (best_from ops all i es)
  unfolding best_from Every IsBest
  Every-best_from all i [] h = tt
  Every-best_from all i (e ∷ es) h =
      Every-if (IsBest all) (below_others ops i e.0 0 all) (i, e.1) (best_from ops all (i + 1) es)
        (λ b. (
          e,
          h 0 i e (omega arith) refl,
          λ m f k d. below_others_lem i e.0 0 all m f b k (λ q. d (omega arith)),
        ))
        (Every-best_from all (i + 1) es (λ m k f q. h (suc m) k f (omega arith)))

  newest-IsBest :
      (P : ℕ × ℕ → Type 0) (bs : List (ℕ × ℕ)) (n : ℕ)
      → Every P bs
      → newest ops bs ≡ run n
      → (p : ℕ) × P (n, p)
  unfolding newest Every
  newest-IsBest P [] n h e = ground arith
  newest-IsBest P (b ∷ bs) n h e =
      let same : b.0 ≡ n = ground arith in (b.1, subst (λ k. P (k, b.1)) same h.0)

  alone : (e : Applicable ops) (n : ℕ) → n ≡ 0 → IsBest (e ∷ []) (n, 0)
  unfolding IsBest
  alone e zero h = (e, refl, only)
    where
      only :
          (m : ℕ) (f : Applicable ops)
          → get_elem? (e ∷ []) m ≡ some f
          → m ≢ 0
          → region_subset ops true e.0 f.0 ≡ true
      only zero f k d = elim (d refl) [ ]
      only (suc m) f k d = ground arith
  alone e (suc n) h = ground arith

  -- When `bestfit` runs an equation, it is one of those that apply, and its region is a subset of the
  -- regions of all the others.
  pub bestfit_lem :
      (es : List (Applicable ops)) (n : ℕ)
      → bestfit ops es ≡ run n
      → (e : Applicable ops) × (get_elem? es n ≡ some e)
        × ((m : ℕ) (f : Applicable ops)
            → get_elem? es m ≡ some f
            → m ≢ n
            → region_subset ops true e.0 f.0 ≡ true)
  unfolding bestfit IsBest Every
  bestfit_lem [] n h = ground arith
  bestfit_lem (e ∷ []) n h = alone e n (ground arith)
  bestfit_lem (e ∷ f ∷ es) n h =
      let all : List (Applicable ops) = e ∷ f ∷ es in
      let best =
        Every-best_from all 0 all
          (λ m k g q p. subst (λ x. get_elem? all x ≡ some g) (omega arith) p) in
      (newest-IsBest (IsBest all) _ n
        (Every-reverse_onto (IsBest all) (best_from ops all 0 all) [] best tt) h).1
