-- ===== src/Charset.antt =====
-- The character checks and conversions of src/include/tl/charset.hpp and `u32_to_ascii` of
-- src/libs/system/utility.cpp. A char32_t is its code point.
pub mod Laws
mod Examples
use trans_lucid.Prelude.{
  ℕ, Bool, true, false, ◌&&◌, Option, none, some, List, [], ◌∷◌, ◌++◌, if◌then◌else◌, ltb, ◌==◌,
}

-- `validate_uchar`
unfoldable pub validate_uchar : ℕ → Bool
validate_uchar c =
    if ltb c 0xd800
    then true
    else if ltb c 0xe000
    then false
    else if ltb c 0x110000
    then true
    else false

-- `validate_ustring`: the loop `while (i != s.size() && valid)`.
unfoldable pub validate_loop : Bool → List ℕ → Bool
unfolding validate_uchar
validate_loop valid [] = valid
validate_loop false (c ∷ s) = false
validate_loop true (c ∷ s) = validate_loop (validate_uchar c) s

unfoldable pub validate_ustring : List ℕ → Bool
unfolding validate_loop
validate_ustring s = validate_loop true s

-- `u32_to_ascii`; `none` stands for `throw "character not ascii"`.
unfoldable pub ascii_loop : List ℕ → List ℕ → Option (List ℕ)
ascii_loop r [] = some r
ascii_loop r (c ∷ s) = let rest = ascii_loop (r ++ c ∷ []) s in if ltb 0x7f c then none else rest

unfoldable pub u32_to_ascii : List ℕ → Option (List ℕ)
unfolding ascii_loop
u32_to_ascii s = ascii_loop [] s

-- `chars_to_u32string`: the array up to its zero. `none` stands for a read past its end.
unfoldable pub chars_loop : List ℕ → List ℕ → Option (List ℕ)
chars_loop result [] = none
chars_loop result (c ∷ s) =
    let rest = chars_loop (result ++ c ∷ []) s in if c == 0 then some result else rest

unfoldable pub chars_to_u32string : List ℕ → Option (List ℕ)
unfolding chars_loop
chars_to_u32string s = chars_loop [] s
