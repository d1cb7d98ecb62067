-- ===== src/Tokenizer/Tests.antt =====
-- Runs of the tokenizer on concrete lines.
use ceda_cemu.Base.{ℕ, ◌≤◌, ◌≡◌, refl, none, some, List, [], ◌∷◌, ◌++◌, length, arith}
use ceda_cemu.Base.Outcome.{ok}
use ceda_cemu.Base.Text.{codes, c_string}
use ceda_cemu.Tokenizer.{
  Parsed, tokenizer_next_word, tokenizer_next_hex, tokenizer_next_int, parse_word,
}
use ceda_cemu.Tokenizer.Numbers.{
  no_error, strtol, signed_part, unsigned_part, skip_prefix, read_digits,
}
use ceda_cemu.Tokenizer.Words.{next_word_lem}
use ceda_cemu.Tokenizer.Hex.{next_hex_lem, overflow_sticks}

next_word_example :
    (tokenizer_next_word (some []) 3 ≡ ok none)
    × (word : List ℕ) × (rest : List ℕ) × (tokenizer_next_word (some (codes " abc d")) 3
        ≡ ok (some (word, rest)))
    × (c_string word ≡ codes "ab")
    × (c_string word ++ rest ≡ codes "abc d")
    × (length word ≤ 3)
next_word_example = next_word_lem 32 (codes "abc d") 3 (omega arith) (omega arith) (omega arith)

word_then_rest :
    tokenizer_next_word (some (codes " goto 1f")) 128
    ≡ ok (some (codes "goto" ++ 0 ∷ [], codes " 1f"))
unfolding tokenizer_next_word
word_then_rest = refl

-- Behind a last word with spaces after it an empty word is found.
trailing_space : tokenizer_next_word (some (codes " ")) 128 ≡ ok (some (0 ∷ 0 ∷ [], []))
unfolding tokenizer_next_word
trailing_space = refl

next_hex_example :
    (rest : List ℕ) × (tokenizer_next_hex no_error 0 (some (codes " d050 e000"))
      ≡ ok (record { errno = no_error; dst = 0xd050; rest = some rest }))
    × (codes "d050" ++ rest ≡ codes "d050 e000")
next_hex_example =
    next_hex_lem 32 (codes "d050 e000") 100 (codes "050") (omega arith) refl (omega arith) 0
      (omega arith) (omega arith)

signed :
    tokenizer_next_int no_error 0 (some (codes "-1x"))
    ≡ ok (record { errno = no_error; dst = 0xffffffff; rest = some [] })
unfolding tokenizer_next_int tokenizer_next_word parse_word strtol signed_part unsigned_part
    skip_prefix read_digits
signed = refl

overflow_example :
    (p : Parsed) × (tokenizer_next_hex no_error 0 (some (codes "ffffffffffffffff")) ≡ ok p)
    × (p.rest ≡ none)
    × (q : Parsed) × (tokenizer_next_hex p.errno 0 (some (codes "1")) ≡ ok q)
    × (q.rest ≡ none)
overflow_example =
    overflow_sticks 102 (codes "fffffffffffffff") 102 (codes "fffffffffffffff") (omega arith) refl
      (omega arith) 0 (some (codes "1")) 0 (omega arith) (omega arith)
