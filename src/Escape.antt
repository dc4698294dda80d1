-- ===== src/Escape.antt =====
-- `build_escaped_characters` of src/libs/system/lexer_util.cpp, which reads a run of escape
-- sequences, and the conversions of src/libs/system/utility.cpp that it calls. The characters from
-- `current` up to `end` are a list; iconv itself is a parameter.
pub mod Laws
mod Examples
use trans_lucid.Prelude.{
  Option, none, some, ℕ, zero, suc, ◌+◌, ◌-◌, ◌*◌, ◌%◌, ◌^◌, Bool, true, false, not, ◌&&◌, ◌||◌,
  List, [], ◌∷◌, ◌++◌, if◌then◌else◌, leb, ◌==◌, length, ltb,
}

-- The loop ends with an error flag, the bytes built and what is left, or reads at `end`, where
-- the source's behaviour is undefined. `out_of_fuel` is no outcome of the source.
pub data Outcome : Type 0 where
  built : Bool → List ℕ → List ℕ → Outcome
  past_end : Outcome
  out_of_fuel : Outcome

-- `(c >= '0' && c <= '9') || (c >= 'A' && c <= 'F')`
unfoldable pub is_hex : ℕ → Bool
is_hex c = (leb b'0' c && leb c b'9') || (leb b'A' c && leb c b'F')

-- What the loop over the digits leaves: how many are still to read, the digits, and the rest.
pub record Digits : Type 0 where
  pub to_read : ℕ
  pub chars : List ℕ
  pub rest : List ℕ

-- `while (to_read > 0 && current != end && *current != '\'')`
unfoldable pub read_digits : ℕ → List ℕ → List ℕ → Digits
unfolding is_hex
read_digits zero chars text = record { to_read = 0; chars = chars; rest = text }
read_digits (suc n) chars [] = record { to_read = suc n; chars = chars; rest = [] }
read_digits (suc n) chars (c ∷ text) =
    let more = read_digits n (chars ++ c ∷ []) text in
    if not (c == b'\'') && is_hex c
    then more
    else record { to_read = suc n; chars = chars; rest = c ∷ text }

-- One step of the loop that computes `value`, a uint32_t.
unfoldable pub add_digit : ℕ → ℕ → ℕ
add_digit value c =
    if leb b'0' c && leb c b'9'
    then (value * 16 + (c - b'0')) % 2 ^ 32
    else (value * 16 + (c - b'A' + 10)) % 2 ^ 32

unfoldable pub hex_value : ℕ → List ℕ → ℕ
unfolding add_digit
hex_value value [] = value
hex_value value (c ∷ chars) = hex_value (add_digit value c) chars

-- The `switch`: the number of digits that follow, the byte for a simple escape, or the error.
pub data Control : Type 0 where
  digits : ℕ → Control
  simple : ℕ → Control
  invalid : Control

unfoldable pub control : ℕ → Control
control c =
    if c == b'U'
    then digits 8
    else if c == b'u'
    then digits 4
    else if c == b'x'
    then digits 2
    else if c == b'n'
    then simple 10
    else if c == b'r'
    then simple 13
    else if c == b't'
    then simple 9
    else if c == b'\''
    then simple b'\''
    else if c == b'"'
    then simple b'"'
    else if c == b'\\'
    then simple b'\\'
    else invalid

-- A C string: what stands before the first zero.
unfoldable pub c_string : List ℕ → List ℕ
c_string [] = []
c_string (c ∷ cs) = let rest = c_string cs in if c == 0 then [] else c ∷ rest

-- `utf32_to_utf8` and `utf8_to_utf32` are the same but for the encodings: nothing of an empty
-- string, the empty string if iconv refuses, and else the C string of what it wrote.
abbrev pub converted : Option (List ℕ) → List ℕ
converted none = []
converted (some written) = c_string written

unfoldable pub through : (List ℕ → Option (List ℕ)) → List ℕ → List ℕ
unfolding c_string
through iconv [] = []
through iconv (c ∷ cs) = converted (iconv (c ∷ cs))

-- `utf8_to_utf32(building)`
abbrev pub convert : (List ℕ → List ℕ) → Outcome → Outcome
convert utf8_to_utf32 (built good building rest) = built good (utf8_to_utf32 building) rest
convert utf8_to_utf32 past_end = past_end
convert utf8_to_utf32 out_of_fuel = out_of_fuel

module _ (utf32_to_utf8 : List ℕ → List ℕ) where
  -- What the digits of one escape add to the bytes: a byte for two digits, a character otherwise.
  unfoldable pub value_bytes : List ℕ → List ℕ
  value_bytes chars =
      let value = hex_value 0 chars in
      if length chars == 2 then value % 2 ^ 8 ∷ [] else utf32_to_utf8 (value ∷ [])

  -- The `switch` and what follows it in the outer loop; `again` is the next round, and `text`
  -- starts behind the control character `c`.
  unfoldable pub escape_turn : (List ℕ → List ℕ → Outcome) → Control → List ℕ → ℕ → List ℕ → Outcome
  escape_turn again invalid building c text = built false (building ++ value_bytes []) (c ∷ text)
  escape_turn again (simple s) building c text = again ((building ++ s ∷ []) ++ value_bytes []) text
  escape_turn again (digits n) building c text =
      let d = read_digits n [] text in
      let next = again (building ++ value_bytes d.chars) d.rest in
      if not (d.to_read == 0) then built false building d.rest else next

  -- The outer loop, while `error` is false.
  unfoldable pub escape_loop : ℕ → List ℕ → List ℕ → Outcome
  escape_loop zero building text = out_of_fuel
  escape_loop (suc f) building [] = past_end
  escape_loop (suc f) building (b ∷ []) =
      if b == b'\\' then past_end else built true building (b ∷ [])
  escape_loop (suc f) building (b ∷ c ∷ text) =
      let turn = escape_turn (escape_loop f) (control c) building c text in
      if b == b'\\' then turn else built true building (b ∷ c ∷ text)

-- `build_escaped_characters`: the flag, the string, and the new `current`; `to_utf8` and `to_utf32` are
-- what iconv makes of a string, if anything.
unfoldable pub build_escaped_characters :
    (List ℕ → Option (List ℕ)) → (List ℕ → Option (List ℕ)) → List ℕ → Outcome
unfolding escape_loop escape_turn control read_digits value_bytes hex_value through
build_escaped_characters to_utf8 to_utf32 text =
    convert (through to_utf32) (escape_loop (through to_utf8) (suc (length text)) [] text)
