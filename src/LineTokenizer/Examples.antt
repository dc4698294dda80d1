-- ===== src/LineTokenizer/Examples.antt =====
-- Runs of the tokenizer.
use Prim.Native.Char.{code}
use Prim.Native.String.{String}
use trans_lucid.Prelude.{false, ◌≢◌, ℕ, List, [], ◌∷◌, ◌≡◌, refl}
use trans_lucid.LineTokenizer.Reader.{
  out_of_fuel, Tokenizer, initial, done, arrive, advance, read_buffer, next_char_common,
  next_char_discard, next_char, peek_new, peek,
}
use trans_lucid.LineTokenizer.{
  Line, LineType, line, double_dollar, double_percent, empty, next, is_space, is_ident_begin,
  is_ident_inside, skip_spaces, skip_until_newline, pre_line_loop, pre_line_skip, raw_loop,
  read_raw_string, interpreted_loop, read_interpreted_string, skip_to_newline, end_ident,
  track_ident, outer_loop, double_or_line, read_outer, enter, start_of_line, mark_start, finish,
}
use trans_lucid.LineTokenizer.Fuel.{next_total}
use trans_lucid.LineTokenizer.Text.{Keeps, read_outer_lem}
use trans_lucid.Prelude.Int.{◌+ℤ◌, ◌-ℤ◌}

-- Everything that a run computes.
program : Unit {0}
unfolding is_space is_ident_begin is_ident_inside skip_spaces skip_until_newline pre_line_loop
    pre_line_skip raw_loop read_raw_string interpreted_loop read_interpreted_string skip_to_newline
    end_ident track_ident outer_loop double_or_line read_outer enter start_of_line mark_start finish
    next arrive advance read_buffer next_char_common next_char_discard next_char peek_new peek ◌+ℤ◌
    ◌-ℤ◌
program = tt

abbrev codes : String → List ℕ
codes String.[] = []
codes (String.◌∷◌ c s) = code c ∷ codes s

-- The first `n` lines of an input, with their types.
abbrev lines : ℕ → Tokenizer → List (LineType × List ℕ)
lines ℕ.zero st = []
lines (ℕ.suc n) st = elim (next st) [ done l st' ↦ (l.type, l.text) ∷ lines n st' | _ ↦ [] ]

-- The input runs through every function of the tokenizer.
two_lines :
    lines 3 (initial (codes " x = 1;; // note\ny = \";;\";;"))
    ≡ (line, codes "x = 1;;") ∷ (line, codes "y = \";;\";;") ∷ (empty, []) ∷ []
unfolding program
two_lines = refl

marks :
    lines 2 (initial (codes "%%\n$$"))
    ≡ (double_percent, codes "%%") ∷ (double_dollar, codes "$$") ∷ []
unfolding program
marks = refl

-- A block that `where` opens is one line up to the `;;` after its `end`.
block :
    lines 2 (initial (codes "f where g = 1;; end;; h;;"))
    ≡ (line, codes "f where g = 1;; end;;") ∷ (line, codes "h;;") ∷ []
unfolding program
block = refl

-- The character after a `;` is not looked at again, so this `end` is not seen.
missed_end :
    lines 2 (initial (codes "f where g = 1;end;; h;;"))
    ≡ (line, codes "f where g = 1;end;; h;;") ∷ (empty, []) ∷ []
unfolding program
missed_end = refl

-- The same for the `"` after a `/`: the line ends inside the string.
missed_string : lines 1 (initial (codes "a/\";;\";; h;;")) ≡ (line, codes "a/\";;") ∷ []
unfolding program
missed_string = refl

-- A `/` that starts a line is replaced by the character after it.
lost_slash : lines 1 (initial (codes "/x;; h;;")) ≡ (line, codes "xx;;") ∷ []
unfolding program
lost_slash = refl

-- A line without `;;` at the end of the input has the type `EMPTY`.
unfinished : lines 1 (initial (codes "abc")) ≡ (empty, codes "abc") ∷ []
unfolding program
unfinished = refl

next_total_example :
    (l : Line) × (st' : Tokenizer) × (next (initial (codes "// note\nf where g = `;;`;; end;;"))
      ≡ done l st')
next_total_example = next_total (initial (codes "// note\nf where g = `;;`;; end;;"))

-- A line with a string, from its first character on.
abbrev reading : Tokenizer
reading = record (initial (codes "x = \";;\";; y")) { current_char = b'x'; first = false }

read_outer_lem_example : Keeps reading (read_outer reading) × (read_outer reading ≢ out_of_fuel)
read_outer_lem_example = read_outer_lem reading
