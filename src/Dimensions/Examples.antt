-- ===== src/Dimensions/Examples.antt =====
-- Dimensions by name, with numbers for the constants.
use trans_lucid.Prelude.{ℕ, ◌≡◌, ◌≢◌, refl, ◌==◌, none, some, List, [], ◌∷◌}
use trans_lucid.Prelude.Int.{negsuc}
use trans_lucid.Dimensions.{
  find, insert, load, get_index, reverse_lookup, Translator, same_name, initial, lookup_name,
}
use trans_lucid.Dimensions.Laws.{IsValid, lookup_name_lem}
use trans_lucid.Dimensions.Start.{initial-IsValid}

abbrev start : Translator ℕ
unfolding initial
start = initial ◌==◌ 0 1 2

start-IsValid : IsValid ◌==◌ start
unfolding start initial
start-IsValid = initial-IsValid ◌==◌ 0 1 2

abbrev x_name : List ℕ
x_name = b'x' ∷ []

-- A new name gets the next index, and its name back.
abbrev then_x : Translator ℕ
unfolding lookup_name
then_x = (lookup_name x_name start).1

lookup_name_lem_example :
    IsValid ◌==◌ then_x
    × (lookup_name x_name then_x ≡ ((lookup_name x_name start).0, then_x))
    × ((other : List ℕ)
        → other ≢ x_name
        → find same_name other then_x.named.objects ≡ find same_name other start.named.objects)
    × (find same_name x_name start.named.objects ≡ none
        → (reverse_lookup same_name (lookup_name x_name start).0 then_x.named ≡ some x_name)
          × ((other : List ℕ)
              → find same_name other start.named.objects ≢ some (lookup_name x_name start).0)
          × ((c : ℕ) → find ◌==◌ c start.constants.objects ≢ some (lookup_name x_name start).0))
unfolding then_x
lookup_name_lem_example =
    lookup_name_lem ◌==◌ x_name start then_x (lookup_name x_name start).0 start-IsValid refl

x_index : (lookup_name x_name start).0 ≡ negsuc 20
unfolding lookup_name start get_index initial load find insert same_name
x_index = refl

-- `type` has the index that `typename` has, and that index gives `typename` back.
abbrev type_name : List ℕ
type_name = b't' ∷ b'y' ∷ b'p' ∷ b'e' ∷ []

type_back :
    reverse_lookup same_name (lookup_name type_name start).0 start.named
    ≡ some (b't' ∷ b'y' ∷ b'p' ∷ b'e' ∷ b'n' ∷ b'a' ∷ b'm' ∷ b'e' ∷ [])
unfolding lookup_name start get_index initial load find insert same_name reverse_lookup
type_back = refl
