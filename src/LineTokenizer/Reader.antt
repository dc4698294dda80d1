-- ===== src/LineTokenizer/Reader.antt =====
-- The state of a `LineTokenizer` (src/include/tl/line_tokenizer.hpp) and the functions of
-- src/libs/system/line_tokenizer.cpp that read single characters.
use trans_lucid.Prelude.{
  ℕ, ◌+◌, Bool, true, false, ◌&&◌, List, [], ◌∷◌, ◌++◌, if◌then◌else◌, ◌==◌, length, get_elem?,
  none, some,
}
use trans_lucid.Prelude.Int.{ℤ}

-- `enum class State`
pub data State : Type 0 where
  scanning raw interpreted semi skip_space : State

-- `rest` holds the characters from `m_current` up to `m_end`.
pub record Tokenizer : Type 0 where
  pub rest : List ℕ
  pub current_char : ℕ
  pub line : List ℕ
  pub state : State
  pub first : Bool
  pub where_depth : ℤ
  pub reading_ident : Bool
  pub current_ident : List ℕ
  pub line_count : ℕ
  pub char_count : ℕ
  pub start_line : ℕ
  pub start_char : ℕ
  pub peek_buffer : List ℕ
  pub peeked : ℕ

-- The constructor.
abbrev pub initial : List ℕ → Tokenizer
initial input = record {
  rest = input;
  current_char = 0;
  line = [];
  state = scanning;
  first = true;
  where_depth = ℤ.pos 0;
  reading_ident = false;
  current_ident = [];
  line_count = 1;
  char_count = 0;
  start_line = 0;
  start_char = 0;
  peek_buffer = [];
  peeked = 0;
}

-- A function returns, or throws `EndOfInput` or `NewLineInString`; what it did to the tokenizer
-- stays. `out_of_fuel` is no outcome of the source, see `Fuel`.
pub data Outcome {ℓ} (A : Type ℓ) : Type ℓ where
  done : A → Tokenizer → Outcome A
  end_of_input : Tokenizer → Outcome A
  new_line_in_string : Tokenizer → Outcome A
  out_of_fuel : Outcome A

abbrev pub M {ℓ} : Type ℓ → Type ℓ
M A = Tokenizer → Outcome A

abbrev pub then_do {ℓ κ} : {A : Type ℓ} {B : Type κ} → Outcome A → (A → M B) → Outcome B
then_do (done a st) f = f a st
then_do (end_of_input st) f = end_of_input st
then_do (new_line_in_string st) f = new_line_in_string st
then_do out_of_fuel f = out_of_fuel

infixl 5 ◌>>=◌ ◌>>◌
abbrev pub ◌>>=◌ {ℓ κ} : {A : Type ℓ} {B : Type κ} → M A → (A → M B) → M B
◌>>=◌ m f st = then_do (m st) f

abbrev pub ◌>>◌ {ℓ} : {B : Type ℓ} → M (Unit {0}) → M B → M B
m >> n = m >>= λ _. n

abbrev pub pure {ℓ} : {A : Type ℓ} → A → M A
pure a st = done a st

abbrev pub raise_new_line {ℓ} : {A : Type ℓ} → M A
raise_new_line st = new_line_in_string st

-- The characters that are left to read.
abbrev pub size : Tokenizer → ℕ
size st = length st.rest + length st.peek_buffer

-- `currentChar`
abbrev pub get_current : M ℕ
get_current st = done st.current_char st

abbrev pub set_state : State → M (Unit {0})
set_state s st = done tt (record st { state = s })

-- `m_line += c`
abbrev pub append_line : ℕ → M (Unit {0})
append_line c st = done tt (record st { line = st.line ++ c ∷ [] })

abbrev pub same_text : List ℕ → List ℕ → Bool
same_text [] [] = true
same_text (c ∷ s) (d ∷ t) = c == d && same_text s t
same_text _ _ = false

-- `static_cast<char32_t>(-1)`, which `peek` stores for the end of the input.
abbrev pub no_char : ℕ
no_char = 0xffffffff

-- The end of `nextCharCommon`, for the character that was read.
unfoldable pub arrive : ℕ → Tokenizer → Outcome ℕ
arrive c st = done c (
    if c == b'\n'
    then record st { current_char = c; line_count = st.line_count + 1; char_count = 0 }
    else record st { current_char = c; char_count = st.char_count + 1 })

-- `++m_current` and the test for the end.
unfoldable pub advance : List ℕ → Tokenizer → Outcome ℕ
unfolding arrive
advance [] st = end_of_input st
advance (x ∷ []) st = end_of_input (record st { rest = [] })
advance (x ∷ c ∷ rest) st = arrive c (record st { rest = c ∷ rest; peeked = 0 })

-- `nextCharCommon`: the peeked characters come first.
unfoldable pub read_buffer : List ℕ → Tokenizer → Outcome ℕ
read_buffer [] st = advance st.rest st
read_buffer (c ∷ buffer) st =
    if c == no_char then end_of_input st else arrive c (record st { peek_buffer = buffer })

unfoldable pub next_char_common : M ℕ
next_char_common st = read_buffer st.peek_buffer st

-- `nextCharDiscard`
unfoldable pub next_char_discard : M ℕ
next_char_discard = next_char_common

-- `nextChar`
unfoldable pub next_char : M ℕ
next_char = do c ← next_char_common; append_line c; pure c

-- `peek`, where it has to read: the character is stored at the back of the buffer.
unfoldable pub peek_new : List ℕ → Tokenizer → Outcome ℕ
peek_new [] st =
    done no_char (record st { rest = []; peek_buffer = st.peek_buffer ++ no_char ∷ [] })
peek_new (x ∷ []) st =
    done no_char (record st { rest = []; peek_buffer = st.peek_buffer ++ no_char ∷ [] })
peek_new (x ∷ c ∷ rest) st =
    done c (record st { rest = c ∷ rest; peek_buffer = st.peek_buffer ++ c ∷ [] })

-- `peek`
unfoldable pub peek : M ℕ
peek st = elim (get_elem? st.peek_buffer st.peeked) [
  | some c ↦ done c (record st { peeked = st.peeked + 1 })
  | none ↦ peek_new st.rest st
]
