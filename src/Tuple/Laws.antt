-- ===== src/Tuple/Laws.antt =====
-- `Tuple::at`, `insert` and `operator<` of src/libs/system/types.cpp: what a tuple holds after an
-- insertion, and the order of the tuples.
use trans_lucid.Prelude.{Bool, Option, none, some, [], ◌∷◌, ◌≡◌, refl, if◌then◌else◌, arith, ◌∙◌}
use trans_lucid.Prelude.Int.{ℤ, eqb_ℤ, ◌<ℤ◌}
use trans_lucid.Ordered.{StrictOrder, ℤ_order, lex_order, settle-ThreeWay, settle_pair-ThreeWay}
use trans_lucid.Tuple.{Tuple, map_insert, at, find, tuple_lt}

-- `operator<` on tuples is a strict total order whenever the one on constants is.
pub tuple_lt-StrictOrder :
    {C : Type 0} {less : C → C → Bool} → StrictOrder less → StrictOrder (tuple_lt less)
unfolding tuple_lt
tuple_lt-StrictOrder o = lex_order (settle_pair-ThreeWay ℤ_order (settle-ThreeWay o))

-- The first of two values that is there.
abbrev pub first_of_two {ℓ} : {A : Type ℓ} → Option A → Option A → Option A
first_of_two none b = b
first_of_two (some a) b = some a

module _ {C : Type 0} where
  -- The keys of a std::map come in strictly ascending order.
  abbrev pub AllAbove : ℤ → Tuple C → Type 0
  AllAbove d [] = Unit
  AllAbove d (e ∷ t) = (d <ℤ e.0) × AllAbove d t

  abbrev pub IsSorted : Tuple C → Type 0
  IsSorted [] = Unit
  IsSorted (e ∷ t) = AllAbove e.0 t × IsSorted t

  AllAbove-find : (d : ℤ) (t : Tuple C) → AllAbove d t → find d t ≡ none
  unfolding find
  AllAbove-find d [] h = refl
  AllAbove-find d (e ∷ t) h = ground (arith, AllAbove-find d t)

  AllAbove-mono : (d e : ℤ) (t : Tuple C) → d <ℤ e → AllAbove e t → AllAbove d t
  AllAbove-mono d e [] h k = tt
  AllAbove-mono d e (p ∷ t) h k = (omega arith, AllAbove-mono d e t h k.1)

  AllAbove-map_insert :
      (d e : ℤ) (c : C) (t : Tuple C) → d <ℤ e → AllAbove d t → AllAbove d (map_insert e c t)
  unfolding map_insert
  AllAbove-map_insert d e c [] h k = (h, tt)
  AllAbove-map_insert d e c (p ∷ t) h k = ground (arith, AllAbove-map_insert d e c t h k.1)

  map_insert-IsSorted : (d : ℤ) (c : C) (t : Tuple C) → IsSorted t → IsSorted (map_insert d c t)
  unfolding map_insert
  map_insert-IsSorted d c [] h = (tt, tt)
  map_insert-IsSorted d c (p ∷ t) h =
      ground
        (arith, AllAbove-mono d p.0 t, AllAbove-map_insert p.0 d c t, map_insert-IsSorted d c t h.1)

  find-map_insert :
      (d e : ℤ) (c : C) (t : Tuple C)
      → IsSorted t
      → find e (map_insert d c t) ≡ first_of_two (find e t) (if eqb_ℤ e d then some c else none)
  unfolding find map_insert
  find-map_insert d e c [] h = ground arith
  find-map_insert d e c (p ∷ t) h =
      ground (arith, find-map_insert d e c t h.1, AllAbove-find e t, AllAbove-mono e p.0 t)

  -- For a sorted `t`: after `t.at(k)` the entries of `t` are as they were, and those of `k` are added
  -- where `t` has none (the first of them for a dimension); the result is sorted again.
  pub find-at :
      (t k : Tuple C) (e : ℤ)
      → IsSorted t
      → (find e (at t k) ≡ first_of_two (find e t) (find e k)) × IsSorted (at t k)
  unfolding at find
  find-at t [] e h = (ground arith, h)
  find-at t ((d, c) ∷ k) e h =
      let (found, sorted) = find-at (map_insert d c t) k e (map_insert-IsSorted d c t h) in
      (found ∙ ground (arith, find-map_insert d e c t h), sorted)
