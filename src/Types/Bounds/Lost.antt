-- ===== src/Types/Bounds/Lost.antt =====
-- What `construct_lub` and `construct_glb` of src/libs/system/tyinf/type.cpp do with the constructed
-- part of a bound.
use trans_lucid.Prelude.{ℕ, Bool, false, List, ◌≡◌, refl, arith}
use trans_lucid.Types.{
  TypeTerm, nothing, top, bot, region, var, constant, atomic, union, glb, lub, intension, cbv, base,
  tuple, is_bot, is_top,
}
use trans_lucid.Types.Bounds.{construct_lub, construct_glb, lub_with, glb_with, join_terms}

module _ {C : Type 0} (index : C → ℕ) (beq lt : C → C → Bool) where
  lub_forgets :
      (vs : List ℕ) (t b : TypeTerm C)
      → is_bot b ≡ false
      → construct_lub index beq lt (lub vs t) b ≡ construct_lub index beq lt (lub vs nothing) b
  unfolding construct_lub lub_with join_terms
  lub_forgets vs t top h = refl
  lub_forgets vs t bot h = ground arith
  lub_forgets vs t (glb ws p) h = refl
  lub_forgets vs t (lub ws p) h = refl
  lub_forgets vs t nothing h = refl
  lub_forgets vs t region h = refl
  lub_forgets vs t (var v) h = refl
  lub_forgets vs t (constant c) h = refl
  lub_forgets vs t (atomic n i) h = refl
  lub_forgets vs t (union u) h = refl
  lub_forgets vs t (intension p) h = refl
  lub_forgets vs t (cbv l r) h = refl
  lub_forgets vs t (base ls r) h = refl
  lub_forgets vs t (tuple fs v) h = refl

  glb_forgets :
      (vs : List ℕ) (t b : TypeTerm C)
      → is_top b ≡ false
      → construct_glb index beq lt (glb vs t) b ≡ construct_glb index beq lt (glb vs nothing) b
  unfolding construct_glb glb_with join_terms
  glb_forgets vs t top h = ground arith
  glb_forgets vs t bot h = refl
  glb_forgets vs t (glb ws p) h = refl
  glb_forgets vs t (lub ws p) h = refl
  glb_forgets vs t nothing h = refl
  glb_forgets vs t region h = refl
  glb_forgets vs t (var v) h = refl
  glb_forgets vs t (constant c) h = refl
  glb_forgets vs t (atomic n i) h = refl
  glb_forgets vs t (union u) h = refl
  glb_forgets vs t (intension p) h = refl
  glb_forgets vs t (cbv l r) h = refl
  glb_forgets vs t (base ls r) h = refl
  glb_forgets vs t (tuple fs v) h = refl

  -- A least upper bound of variables and a constructed type has no trace of that type left in its least
  -- upper bound with another type, unless that is the bottom; nor has a greatest lower bound in its
  -- greatest lower bound with another type, unless that is the top.
  pub bounds_forget :
      (vs : List ℕ) (t b : TypeTerm C)
      → (is_bot b ≡ false
          → construct_lub index beq lt (lub vs t) b ≡ construct_lub index beq lt (lub vs nothing) b)
        × (is_top b ≡ false
            → construct_glb index beq lt (glb vs t) b
              ≡ construct_glb index beq lt (glb vs nothing) b)
  bounds_forget vs t b = (lub_forgets vs t b, glb_forgets vs t b)
