-- ===== src/Charset/Examples.antt =====
-- The theorems on character sets at concrete inputs.
use trans_lucid.Prelude.{ℕ, List, [], ◌∷◌, ◌≡◌, false, none, refl}
use trans_lucid.Charset.{validate_ustring, u32_to_ascii}

abbrev clef : List ℕ
clef = b'a' ∷ 0x1d11e ∷ []

abbrev letter : List ℕ
letter = b'a' ∷ []

surrogate : validate_ustring (b'a' ∷ 0xd800 ∷ b'b' ∷ []) ≡ false
unfolding validate_ustring
surrogate = refl

not_ascii : u32_to_ascii clef ≡ none
unfolding u32_to_ascii
not_ascii = refl
