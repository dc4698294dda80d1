-- ===== src/Types/Bounds.antt =====
-- `construct_lub` and `construct_glb` of src/libs/system/tyinf/type.cpp, and the visitors that they
-- use. `none` is no result: `throw BoundInvalid`, or the undefined behaviour of a union; `index` and `beq` are `index()` and `operator==` of the
-- constants, `lt` their `operator<`.
pub mod Elementary
pub mod Lower
pub mod Lost
use trans_lucid.Prelude.{
  ℕ, Bool, true, false, ◌&&◌, ◌||◌, Option, none, some, List, [], ◌∷◌, if◌then◌else◌, ltb, ◌==◌,
}
use trans_lucid.OrderedSet.{insert_all}
use trans_lucid.Types.{
  TypeTerm, nothing, top, bot, region, var, constant, atomic, union, glb, lub, intension, cbv, base,
  tuple, Types, no_type, next_type, size, is_top, is_bot, is_nothing,
}
use trans_lucid.Types.Atomics.{
  AtomicUnion, ◌>>=◌, copied, empty_union, atomic_in, add_constant, add_atomic, join, constant_in,
  intersection,
}

module _ {C : Type 0} where
  -- The variables that a term adds to the bound, or `none` for a constructed term.
  abbrev pub lub_vars : TypeTerm C → Option (List ℕ)
  lub_vars (lub vars t) = some vars
  lub_vars (var v) = some (v ∷ [])
  lub_vars _ = none

  abbrev pub glb_vars : TypeTerm C → Option (List ℕ)
  glb_vars (glb vars t) = some vars
  glb_vars (var v) = some (v ∷ [])
  glb_vars _ = none

  -- The end of both functions: a bound without variables, one variable alone, or both.
  abbrev pub finish : (List ℕ → TypeTerm C → TypeTerm C) → List ℕ → TypeTerm C → TypeTerm C
  finish bound [] t = t
  finish bound (v ∷ []) t = if is_nothing t then var v else bound (v ∷ []) t
  finish bound (v ∷ w ∷ vs) t = bound (v ∷ w ∷ vs) t

  -- The loop over the two terms, where `build` joins the first with the second.
  unfoldable pub join_terms :
      (TypeTerm C → Option (List ℕ))
      → (List ℕ → TypeTerm C → TypeTerm C)
      → (TypeTerm C → Option (TypeTerm C))
      → TypeTerm C
      → TypeTerm C
      → Option (TypeTerm C)
  unfolding insert_all
  join_terms vars bound build a b = elim (vars a) [
    | some vs ↦ elim (vars b) [
      | some ws ↦ some (finish bound (insert_all ltb ws (insert_all ltb vs [])) nothing)
      | none ↦ some (finish bound (insert_all ltb vs []) b)
    ]
    | none ↦ elim (vars b) [
      | some ws ↦ some (finish bound (insert_all ltb ws []) a)
      | none ↦ build b >>= λ t. some (finish bound [] t)
    ]
  ]

  -- `construct_lub`, where `build` is `build_lub_constructed` on the first term.
  unfoldable pub lub_with :
      (TypeTerm C → Option (TypeTerm C)) → TypeTerm C → TypeTerm C → Option (TypeTerm C)
  unfolding join_terms
  lub_with build a b =
      if is_top a || is_top b
      then some top
      else if is_bot a && is_bot b
      then some bot
      else if is_bot a
      then some b
      else if is_bot b
      then some a
      else join_terms lub_vars lub build a b

  unfoldable pub glb_with :
      (TypeTerm C → Option (TypeTerm C)) → TypeTerm C → TypeTerm C → Option (TypeTerm C)
  unfolding join_terms
  glb_with build a b =
      if is_bot a || is_bot b
      then some bot
      else if is_top a && is_top b
      then some top
      else if is_top a
      then some b
      else if is_top b
      then some a
      else join_terms glb_vars glb build a b

module _ {C : Type 0} (index : C → ℕ) (beq lt : C → C → Bool) where
  unfoldable mutual
    unfolding lub_with glb_with copied add_constant add_atomic join constant_in atomic_in
        intersection

    -- `LUBConstructed`, by `build_lub_constructed`
    pub build_lub : TypeTerm C → TypeTerm C → Option (TypeTerm C)
    build_lub nothing t = some t
    build_lub (cbv l r) (cbv l' r') = do
      x ← glb_with (build_glb l) l l'
      y ← lub_with (build_lub r) r r'
      some (cbv x y)
    build_lub (intension t) (intension t') = do x ← lub_with (build_lub t) t t'; some (intension x)
    build_lub (base ls r) (base ls' r') =
        let both = (do xs ← glb_each ls ls'; y ← lub_with (build_lub r) r r'; some (base xs y)) in
        if size ls == size ls' then both else none
    build_lub (constant a) (constant b) =
        if beq a b
        then some (constant a)
        else some (union (add_constant index lt b (add_constant index lt a empty_union)))
    build_lub (atomic n i) (constant b) =
        if i == index b
        then some (atomic n i)
        else (do u ← add_atomic index lt i empty_union; some (union (add_constant index lt b u)))
    build_lub (constant a) (atomic n i) =
        if i == index a
        then some (atomic n i)
        else (do u ← add_atomic index lt i empty_union; some (union (add_constant index lt a u)))
    build_lub (atomic n i) (atomic m j) = if i == j then some (atomic n i) else (do
      u ← add_atomic index lt i empty_union
      u' ← add_atomic index lt j u
      some (union u'))
    build_lub (union u) (union v) = do w ← join index lt (copied u) v; some (union w)
    build_lub (union u) (constant b) = some (union (add_constant index lt b (copied u)))
    build_lub (union u) (atomic m j) = do w ← add_atomic index lt j (copied u); some (union w)
    build_lub (constant a) (union v) = some (union (add_constant index lt a (copied v)))
    build_lub (atomic n i) (union v) = do w ← add_atomic index lt i (copied v); some (union w)
    build_lub _ _ = none

    -- The loop over the arguments of two base functions.
    pub glb_each : Types C → Types C → Option (Types C)
    glb_each no_type _ = some no_type
    glb_each (next_type t ts) no_type = none
    glb_each (next_type t ts) (next_type t' ts') = do
      x ← glb_with (build_glb t) t t'
      xs ← glb_each ts ts'
      some (next_type x xs)

    -- `GLBConstructed`, by `build_glb_constructed`
    pub build_glb : TypeTerm C → TypeTerm C → Option (TypeTerm C)
    build_glb nothing t = some t
    build_glb (cbv l r) (cbv l' r') = do
      x ← lub_with (build_lub l) l l'
      y ← glb_with (build_glb r) r r'
      some (cbv x y)
    build_glb (intension t) (intension t') = do x ← glb_with (build_glb t) t t'; some (intension x)
    build_glb (base ls r) (base ls' r') =
        let both = (do xs ← lub_each ls ls'; y ← glb_with (build_glb r) r r'; some (base xs y)) in
        if size ls == size ls' then both else none
    build_glb (constant a) (constant b) = if beq a b then some (constant a) else some bot
    build_glb (atomic n i) (atomic m j) = if i == j then some (atomic n i) else some bot
    build_glb (atomic n i) (constant b) = if index b == i then some (constant b) else some bot
    build_glb (constant a) (atomic n i) = if index a == i then some (constant a) else some bot
    build_glb (union u) (union v) = some (union (intersection index lt u v))
    build_glb (union u) (constant b) =
        if constant_in index lt b u then some (constant b) else some bot
    build_glb (union u) (atomic m j) = if atomic_in j u then some (atomic m j) else some bot
    build_glb (constant a) (union v) =
        if constant_in index lt a v then some (constant a) else some bot
    build_glb (atomic n i) (union v) = if atomic_in i v then some (atomic n i) else some bot
    build_glb _ _ = none

    pub lub_each : Types C → Types C → Option (Types C)
    lub_each no_type _ = some no_type
    lub_each (next_type t ts) no_type = none
    lub_each (next_type t ts) (next_type t' ts') = do
      x ← lub_with (build_lub t) t t'
      xs ← lub_each ts ts'
      some (next_type x xs)

  -- `construct_lub` and `construct_glb`
  unfoldable pub construct_lub : TypeTerm C → TypeTerm C → Option (TypeTerm C)
  unfolding build_lub
  construct_lub a b = lub_with (build_lub a) a b

  unfoldable pub construct_glb : TypeTerm C → TypeTerm C → Option (TypeTerm C)
  unfolding build_glb
  construct_glb a b = glb_with (build_glb a) a b
