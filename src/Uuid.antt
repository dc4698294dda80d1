-- ===== src/Uuid.antt =====
-- `uuid` of src/include/tl/uuid.hpp and src/libs/system/uuid.cpp: sixteen bytes, and their text of
-- thirty-two upper-case hexadecimal digits. A character is its code point.
pub mod Laws
mod Examples
use Prim.Native.Nat.{bit_and, bit_or}
use trans_lucid.Prelude.{
  ℕ, ◌+◌, ◌-◌, ◌*◌, ◌/◌, ◌%◌, ◌^◌, Bool, true, false, ◌&&◌, not, Option, none, some, List, [], ◌∷◌,
  ◌++◌, if◌then◌else◌, leb, ◌==◌, length, replicate,
}

-- `append_char`
unfoldable pub append_char : ℕ → List ℕ → List ℕ
append_char value result =
    if leb value 9 then result ++ (value + b'0') ∷ [] else result ++ (value - 10 + b'A') ∷ []

-- The value of a digit; `none` stands for `throw InvalidUUID()`.
unfoldable pub digit_value : ℕ → Option ℕ
digit_value c =
    if leb b'0' c && leb c b'9'
    then some (c - b'0')
    else if leb b'A' c && leb c b'F'
    then some (c - b'A' + 10)
    else none

-- The loop of `parse_uuid`: `first` is `which == 0`, `current` is `*data`, a uint8_t, and `written`
-- the bytes before it.
unfoldable pub parse_loop : List ℕ → Bool → ℕ → List ℕ → Option (List ℕ)
parse_loop [] first current written = some written
parse_loop (c ∷ text) first current written = elim (digit_value c) [
  | none ↦ none
  | some value ↦
      if first
      then parse_loop text false (value * 2 ^ 4 % 256) written
      else parse_loop text true 0 (written ++ bit_or current value ∷ [])
]

-- `parse_uuid`
unfoldable pub parse_uuid : List ℕ → Option (List ℕ)
unfolding parse_loop digit_value
parse_uuid text = if not (length text == 32) then none else parse_loop text true 0 []

-- The loop of `Types::UUID::print`
unfoldable pub print_loop : List ℕ → List ℕ → List ℕ
print_loop [] result = result
print_loop (v ∷ u) result =
    let low = bit_and v 0xf in
    let high = bit_and (v / 2 ^ 4) 0xf in print_loop u (append_char low (append_char high result))

unfoldable pub print_uuid : List ℕ → List ℕ
unfolding print_loop append_char
print_uuid u = print_loop u []

-- `generate_nil_uuid`
unfoldable pub generate_nil_uuid : List ℕ
generate_nil_uuid = replicate 16 0

-- The constants that `Types::UUID::create` and `print` tell apart; `other` stands for all others.
pub data Constant : Type 0 where
  ustring : List ℕ → Constant
  uuid : List ℕ → Constant
  special_const : Constant
  other : Constant

-- `Types::UUID::create(const Constant&)`
unfoldable pub create : Constant → Constant
unfolding parse_uuid
create (ustring text) = elim (parse_uuid text) [ none ↦ special_const | some u ↦ uuid u ]
create _ = special_const

-- `Types::UUID::print`
unfoldable pub print : Constant → Constant
unfolding print_uuid
print (uuid u) = ustring (print_uuid u)
print _ = special_const
