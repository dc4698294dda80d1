-- ===== src/Uuid/Examples.antt =====
-- Runs of the UUID operations, and their theorems at concrete inputs.
use Prim.Native.Char.{code}
use Prim.Native.String.{String}
use trans_lucid.Prelude.{ℕ, some, List, [], ◌∷◌, ◌≡◌, ◌↔◌, refl, length, arith}
use trans_lucid.Uuid.{
  parse_uuid, print_uuid, generate_nil_uuid, create, print, ustring, uuid, special_const, other,
}
use trans_lucid.Uuid.Laws.{AllDigits, parse_uuid-print_uuid, parse_uuid-some_iff}

abbrev codes : String → List ℕ
codes String.[] = []
codes (String.◌∷◌ c s) = code c ∷ codes s

abbrev text : List ℕ
text = codes "00112233445566778899AABBCCDDEEFF"

abbrev bytes : List ℕ
bytes =
    0x00 ∷ 0x11 ∷ 0x22 ∷ 0x33 ∷ 0x44 ∷ 0x55 ∷ 0x66 ∷ 0x77 ∷ 0x88 ∷ 0x99 ∷ 0xaa ∷ 0xbb ∷ 0xcc ∷ 0xdd
    ∷ 0xee ∷ 0xff ∷ []

parsed : parse_uuid text ≡ some bytes
unfolding parse_uuid
parsed = refl

-- Lower-case digits are refused.
lower_case : create (ustring (codes "00112233445566778899aabbccddeeff")) ≡ special_const
unfolding create
lower_case = refl

nil_uuid : print (uuid generate_nil_uuid) ≡ ustring (codes "00000000000000000000000000000000")
unfolding print generate_nil_uuid
nil_uuid = refl

not_a_uuid : print other ≡ special_const
unfolding print
not_a_uuid = refl

parse_uuid-print_uuid_example : parse_uuid (print_uuid bytes) ≡ some bytes
parse_uuid-print_uuid_example = parse_uuid-print_uuid bytes refl (omega arith)

parse_uuid-some_iff_example :
    ((u : List ℕ) × (parse_uuid text ≡ some u)) ↔ ((length text ≡ 32) × AllDigits text)
parse_uuid-some_iff_example = parse_uuid-some_iff text
