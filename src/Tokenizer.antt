-- ===== src/Tokenizer.antt =====
-- src/tokenizer.c: words and numbers of a command line.
pub mod Numbers
pub mod Words
pub mod Hex
mod Tests
use ceda_cemu.Base.{
  ℕ, ◌+◌, ◌-◌, ◌%◌, ◌^◌, Bool, true, false, not, ◌||◌, Option, none, some, List, [], ◌∷◌, ◌++◌,
  ◌==◌, if◌then◌else◌,
}
use ceda_cemu.Base.Outcome.{Fault, Outcome, ok, fault, ◌>>=◌}
use ceda_cemu.Base.Text.{c_string}
use Numbers.{Errno, Strtol, strtol, is_error, to_unsigned, new_errno}

-- LINE_BUFFER_SIZE
abbrev pub line_buffer_size : ℕ
line_buffer_size = 256

abbrev pub space : ℕ
space = 0x20

-- The loop: the room that is left (`size - 1 - len`), `started`, and the input from `idx` on. It
-- gives what is written to `word`, and the input from the final `idx` on.
unfoldable pub scan : ℕ → Bool → List ℕ → List ℕ × List ℕ
scan room started [] = if room == 0 then ([], []) else (0 ∷ [], [])
scan room started (c ∷ src) =
    if room == 0
    then ([], c ∷ src)
    else if c == space
    then if started then ([], c ∷ src) else scan room started src
    else let (word, rest) = scan (room - 1) true src in (c ∷ word, rest)

-- `NULL` is `none`; else what is written to `word`, and the input behind it. `size - 1` is a
-- `size_t`.
unfoldable pub tokenizer_next_word : Option (List ℕ) → ℕ → Outcome (Option (List ℕ × List ℕ))
unfolding scan
tokenizer_next_word none size = fault Fault.assertion
tokenizer_next_word (some []) size = ok none
tokenizer_next_word (some (c ∷ src)) size =
    let (word, rest) = scan ((size + 2 ^ 64 - 1) % 2 ^ 64) false (c ∷ src) in
    ok (some (word ++ 0 ∷ [], rest))

-- `errno`, `*dst` and the pointer that is returned.
pub record Parsed : Type 0 where
  pub errno : Errno
  pub dst : ℕ
  pub rest : Option (List ℕ)

-- The end of `tokenizer_next_hex` and `tokenizer_next_int`, behind the first word.
unfoldable pub parse_word : ℕ → Errno → ℕ → Option (List ℕ × List ℕ) → Parsed
parse_word base errno dst none = record { errno = errno; dst = dst; rest = none }
parse_word base errno dst (some (word, rest)) =
    let r = strtol base (c_string word) in
    let e = new_errno errno r in
    record {
      errno = e;
      dst = to_unsigned r;
      rest = if is_error e || not r.any_digit then none else some rest;
    }

unfoldable pub tokenizer_next_hex : Errno → ℕ → Option (List ℕ) → Outcome Parsed
tokenizer_next_hex errno dst none = ok (record { errno = errno; dst = dst; rest = none })
tokenizer_next_hex errno dst (some src) = do
  word ← tokenizer_next_word (some src) line_buffer_size
  ok (parse_word 16 errno dst word)

unfoldable pub tokenizer_next_int : Errno → ℕ → Option (List ℕ) → Outcome Parsed
tokenizer_next_int errno dst src = do
  word ← tokenizer_next_word src line_buffer_size
  ok (parse_word 10 errno dst word)
