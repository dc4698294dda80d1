-- ===== src/LineTokenizer.antt =====
-- `LineTokenizer` of src/libs/system/line_tokenizer.cpp and src/include/tl/line_tokenizer.hpp, which
-- cuts the input into lines that end in `;;`. The input is the list of its code points.
pub mod Reader
pub mod Fuel
pub mod Text
mod Examples
use trans_lucid.Prelude.{
  ℕ, zero, suc, ◌+◌, Bool, true, false, not, ◌&&◌, ◌||◌, List, [], ◌∷◌, ◌++◌, if◌then◌else◌, leb,
  ◌==◌,
}
use trans_lucid.Prelude.Int.{ℤ, pos, ◌+ℤ◌, ◌-ℤ◌, eqb_ℤ}
use Reader.{
  State, scanning, raw, interpreted, semi, skip_space, Tokenizer, Outcome, done, end_of_input,
  new_line_in_string, out_of_fuel, M, ◌>>=◌, ◌>>◌, pure, size, get_current, set_state, append_line,
  next_char, next_char_discard, peek, same_text, raise_new_line,
}

-- `is_space`, `is_ident_begin` and `is_ident_inside`
unfoldable pub is_space : ℕ → Bool
is_space c = c == b' ' || c == 9 || c == b'\n' || c == 13

unfoldable pub is_ident_begin : ℕ → Bool
is_ident_begin c = (leb b'A' c && leb c b'Z') || (leb b'a' c && leb c b'z') || c == b'_'

unfoldable pub is_ident_inside : ℕ → Bool
unfolding is_ident_begin
is_ident_inside c = is_ident_begin c || (leb b'0' c && leb c b'9')

-- `enum class LineType`
pub data LineType : Type 0 where
  line double_dollar double_percent empty : LineType

-- `struct Line`
pub record Line : Type 0 where
  pub character : ℕ
  pub line : ℕ
  pub text : List ℕ
  pub type : LineType

-- `while (is_space(current)) current = nextCharDiscard();`
unfoldable pub skip_spaces : ℕ → ℕ → M ℕ
skip_spaces zero c = λ st. out_of_fuel
skip_spaces (suc f) c =
    let rest = (do c' ← next_char_discard; skip_spaces f c') in if is_space c then rest else pure c

-- `while (current != '\n') current = next();`, with or without storing the characters.
unfoldable pub skip_until_newline : M ℕ → ℕ → ℕ → M ℕ
skip_until_newline next zero c = λ st. out_of_fuel
skip_until_newline next (suc f) c =
    let rest = (do c' ← next; skip_until_newline next f c') in if c == b'\n' then pure c else rest

-- A loop gets fuel for each character that is left, and one round more.
abbrev pub fuelled {ℓ} : {A : Type ℓ} → (ℕ → M A) → M A
fuelled loop st = loop (suc (size st)) st

-- The loop of `preLineSkip`, and the character that is added to the line after it.
unfoldable pub pre_line_loop : ℕ → ℕ → M (Unit {0})
pre_line_loop zero current = λ st. out_of_fuel
pre_line_loop (suc f) current = do
  c ← fuelled (λ n. skip_spaces n current)
  let again = (do
    _ ← next_char_discard
    d ← next_char_discard
    e ← fuelled (λ n. skip_until_newline next_char_discard n d)
    pre_line_loop f e)
  let slash = (do p ← peek; if p == b'/' then again else append_line p)
  if c == b'/' then slash else append_line c

unfoldable pub pre_line_skip : M (Unit {0})
pre_line_skip = do c ← get_current; fuelled (λ n. pre_line_loop n c)

-- `readRawString`
unfoldable pub raw_loop : ℕ → ℕ → M (Unit {0})
raw_loop zero c = λ st. out_of_fuel
raw_loop (suc f) c =
    let rest = (do c' ← next_char; raw_loop f c') in if c == b'`' then set_state scanning else rest

unfoldable pub read_raw_string : M (Unit {0})
read_raw_string = do set_state raw; c ← next_char; fuelled (λ n. raw_loop n c)

-- `readInterpretedString`
unfoldable pub interpreted_loop : ℕ → ℕ → M (Unit {0})
interpreted_loop zero c = λ st. out_of_fuel
interpreted_loop (suc f) c =
    let escaped = (do _ ← next_char; c' ← next_char; interpreted_loop f c') in
    let rest = (do c' ← next_char; interpreted_loop f c') in
    if c == b'"'
    then set_state scanning
    else if c == b'\\'
    then escaped
    else if c == b'\n'
    then raise_new_line
    else rest

unfoldable pub read_interpreted_string : M (Unit {0})
read_interpreted_string = do
  set_state interpreted
  c ← next_char
  fuelled (λ n. interpreted_loop n c)

-- `skipToNewline`
unfoldable pub skip_to_newline : M ℕ
skip_to_newline = do c ← next_char; fuelled (λ n. skip_until_newline next_char n c)

-- The words that open and close a block.
abbrev where_word : List ℕ
where_word = b'w' ∷ b'h' ∷ b'e' ∷ b'r' ∷ b'e' ∷ []

abbrev end_word : List ℕ
end_word = b'e' ∷ b'n' ∷ b'd' ∷ []

-- What `readOuter` does at the end of an identifier.
unfoldable pub end_ident : Tokenizer → Tokenizer
unfolding ◌+ℤ◌ ◌-ℤ◌
end_ident st =
    let depth =
      if same_text st.current_ident where_word
      then st.where_depth +ℤ pos 1
      else if same_text st.current_ident end_word
      then st.where_depth -ℤ pos 1
      else st.where_depth in
    record st { where_depth = depth; reading_ident = false }

-- `if (m_readingIdent) ... else ...` in `readOuter`
unfoldable pub track_ident : ℕ → Tokenizer → Tokenizer
unfolding end_ident is_ident_inside
track_ident c st =
    if st.reading_ident
    then (if is_ident_inside c
        then record st { current_ident = st.current_ident ++ c ∷ [] }
        else if not (c == b'"') && not (c == b'`')
        then end_ident st
        else st)
    else if is_ident_begin c
    then record st { current_ident = c ∷ []; reading_ident = true }
    else st

-- Whether the input is used up: `m_current == m_end`.
abbrev pub at_end : Tokenizer → Bool
at_end st = elim st.rest [ [] ↦ true | c ∷ cs ↦ false ]

-- `c == ';' && m_whereDepth == 0`
abbrev pub ends_line : ℕ → M Bool
ends_line c st = done (c == b';' && eqb_ℤ st.where_depth (pos 0)) st

-- The loop of `readOuter`; `c` is its current character.
unfoldable pub outer_loop : ℕ → LineType → ℕ → M LineType
outer_loop zero type c = λ st. out_of_fuel
outer_loop (suc f) type c =
    let again = (do c' ← next_char; outer_loop f type c') in
    let turn =
      if c == b';'
      then (do
        set_state semi
        d ← next_char
        closed ← ends_line d
        if closed then (do set_state scanning; pure type) else again)
      else if c == b'/'
      then (do d ← next_char; if d == b'/' then (do _ ← skip_to_newline; again) else again)
      else if c == b'"'
      then (do read_interpreted_string; again)
      else if c == b'`'
      then (do read_raw_string; again)
      else again in
    λ st. if at_end st then done type st else turn (track_ident c st)

-- `readOuter`
-- The second character decides whether a line starts with `$$` or `%%`.
unfoldable pub double_or_line : ℕ → LineType → M LineType
double_or_line mark type = do
  d ← next_char
  if d == mark then pure type else fuelled (λ n. outer_loop n line d)

unfoldable pub read_outer : M LineType
read_outer = do
  c ← get_current
  (if c == b'$'
      then double_or_line b'$' double_dollar
      else if c == b'%'
      then double_or_line b'%' double_percent
      else fuelled (λ n. outer_loop n line c))

-- "the first time we tokenize something we are already pointing at the first character"
unfoldable pub enter : List ℕ → M (Unit {0})
enter [] st = end_of_input st
enter (c ∷ cs) st = pre_line_skip (record st { current_char = c })

-- The `try` block of `next`, up to the reading of the line.
unfoldable pub start_of_line : M (Unit {0})
start_of_line st =
    if st.first
    then enter st.rest (record st { first = false })
    else if at_end st
    then end_of_input st
    else (do _ ← next_char_discard; pre_line_skip) st

unfoldable pub mark_start : M (Unit {0})
mark_start st = done tt (record st { start_line = st.line_count; start_char = st.char_count })

abbrev make_line : LineType → Tokenizer → Line
make_line t st = record {
  character = st.start_char;
  line = st.start_line;
  text = st.line;
  type = t;
}

abbrev is_skipping : State → Bool
is_skipping skip_space = true
is_skipping _ = false

-- The two `catch` clauses of `next` and its `return`.
unfoldable pub finish : Outcome LineType → Outcome Line
finish (done t st) = done (make_line t st) st
finish (end_of_input st) = done (make_line (if is_skipping st.state then empty else line) st) st
finish (new_line_in_string st) = done (make_line line st) st
finish out_of_fuel = out_of_fuel

-- `next`
unfoldable pub next : M Line
next st =
    finish
      ((do start_of_line; mark_start; read_outer) (record st { state = skip_space; line = [] }))
