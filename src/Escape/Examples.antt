-- ===== src/Escape/Examples.antt =====
-- The theorems on escape sequences at concrete inputs, with a conversion for ASCII alone.
use trans_lucid.Prelude.{ℕ, Option, some, List, [], ◌∷◌, ◌≡◌, ◌≢◌, refl, true, false, arith}
use trans_lucid.Escape.{
  build_escaped_characters, built, out_of_fuel, past_end, hex_value, control, value_bytes, is_hex,
  through,
}
use trans_lucid.Escape.Laws.{
  Spells, build_escaped_characters_total, build_escaped_characters-Spells,
}

-- What iconv makes of the characters below 128.
abbrev to_bytes : List ℕ → Option (List ℕ)
to_bytes s = some s

abbrev to_chars : List ℕ → Option (List ℕ)
to_chars s = some s

-- `\n\x41'`
abbrev text : List ℕ
text = b'\\' ∷ b'n' ∷ b'\\' ∷ b'x' ∷ b'4' ∷ b'1' ∷ b'\'' ∷ []

run : build_escaped_characters to_bytes to_chars text ≡ built true (10 ∷ 0x41 ∷ []) (b'\'' ∷ [])
unfolding build_escaped_characters
run = refl

-- A lower-case digit ends the escape too early.
too_few :
    build_escaped_characters to_bytes to_chars (b'\\' ∷ b'x' ∷ b'4' ∷ b'a' ∷ [])
    ≡ built false [] (b'a' ∷ [])
unfolding build_escaped_characters
too_few = refl

-- A run that reaches the end of the input is read past it.
unterminated : build_escaped_characters to_bytes to_chars (b'\\' ∷ b'n' ∷ []) ≡ past_end
unfolding build_escaped_characters
unterminated = refl

build_escaped_characters_total_example :
    build_escaped_characters to_bytes to_chars text ≢ out_of_fuel
build_escaped_characters_total_example = build_escaped_characters_total to_bytes to_chars text

sequences :
    Spells (through to_bytes) (b'\\' ∷ b'n' ∷ b'\\' ∷ b'x' ∷ b'4' ∷ b'1' ∷ []) (10 ∷ 0x41 ∷ [])
unfolding control value_bytes is_hex hex_value
sequences =
    Spells.simple_escape b'n' 10 refl
      (Spells.digit_escape b'x' (b'4' ∷ b'1' ∷ []) refl (refl, (refl, tt)) Spells.nothing)

build_escaped_characters-Spells_example :
    build_escaped_characters to_bytes to_chars text ≡ built true (10 ∷ 0x41 ∷ []) (b'\'' ∷ [])
unfolding through
build_escaped_characters-Spells_example =
    build_escaped_characters-Spells to_bytes to_chars b'\'' [] refl sequences (omega arith)
