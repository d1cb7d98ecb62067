-- ===== src/Tokenizer/Hex.antt =====
-- src/tokenizer.c: the numbers that a word stands for.
use ceda_cemu.Base.{
  ℕ, ◌+◌, ◌*◌, ◌^◌, ◌≤◌, ◌<◌, ◌≡◌, ◌≢◌, refl, ap, sym, ◌∙◌, true, false, Option, none, some, List,
  [], ◌∷◌, ◌++◌, length, take_all, ◌==◌, lt→ltb, arith,
}
use native.Mathlib.Nat.{pow-suc, pow-zero}
use ceda_cemu.Base.Outcome.{ok}
use ceda_cemu.Base.Text.{c_string, NoNul}
use ceda_cemu.Tokenizer.Numbers.{
  no_error, erange, strtol, digit_value, is_space, read_digits, skip_prefix, unsigned_part,
  signed_part, new_errno, to_unsigned,
}
use ceda_cemu.Tokenizer.{
  Parsed, parse_word, tokenizer_next_word, tokenizer_next_hex, tokenizer_next_int, scan, space,
}
use ceda_cemu.Tokenizer.Words.{first_word, skip_spaces, next_word_lem}

-- The value of digits by their places.
abbrev pub numeral : ℕ → List ℕ → ℕ
numeral base [] = 0
numeral base (d ∷ ds) = digit_value d * base ^ length ds + numeral base ds

abbrev pub Digits : ℕ → List ℕ → Type 0
Digits base [] = Unit
Digits base (d ∷ ds) = (digit_value d < base) × Digits base ds

horner : (acc base v p n : ℕ) → (acc * base + v) * p + n ≡ acc * (p * base) + (v * p + n)
horner acc base v p n = grind arith

read_digits-true :
    (base : ℕ) (ds : List ℕ) (acc : ℕ)
    → Digits base ds
    → read_digits base ds acc true ≡ (acc * base ^ length ds + numeral base ds, true)
unfolding read_digits
read_digits-true base [] acc h = ground (arith, pow-zero base)
read_digits-true base (d ∷ ds) acc h = rw (lt→ltb _ _ h.0) (
    read_digits-true base ds (acc * base + digit_value d) h.1
    ∙ ap (λ (n : ℕ). (n, true))
        (horner acc base (digit_value d) (base ^ length ds) (numeral base ds)
          ∙ ap (λ (n : ℕ). acc * n + (digit_value d * base ^ length ds + numeral base ds))
              (sym (pow-suc base (length ds)))))

read_digits_lem :
    (base d : ℕ) (ds : List ℕ)
    → Digits base (d ∷ ds)
    → read_digits base (d ∷ ds) 0 false ≡ (numeral base (d ∷ ds), true)
unfolding read_digits
read_digits_lem base d ds h =
    let start : 0 * base + digit_value d ≡ digit_value d = omega arith in
    rw (lt→ltb _ _ h.0, start) (read_digits-true base ds (digit_value d) h.1)

-- A digit is neither a space, nor a sign, nor the x of a prefix.
digit_char :
    (c : ℕ)
    → digit_value c < 16
    → (is_space c ≡ false)
      × ((c == 0x2d) ≡ false)
      × ((c == 0x2b) ≡ false)
      × ((c == 0x78) ≡ false)
      × ((c == 0x58) ≡ false)
      × (c ≢ 0)
      × (c ≢ space)
digit_char c h = (
  ground arith,
  ground arith,
  ground arith,
  ground arith,
  ground arith,
  ground arith,
  ground arith,
)

prefix_kept : (base : ℕ) (ds : List ℕ) → base ≤ 16 → Digits base ds → skip_prefix base ds ≡ ds
unfolding skip_prefix
prefix_kept base [] b h = refl
prefix_kept base (z ∷ []) b h = refl
prefix_kept base (z ∷ x ∷ []) b h = refl
prefix_kept base (z ∷ x ∷ d ∷ s) b h =
    let (sp, minus, plus, lower, upper, nul, blank) = digit_char x (omega arith) in
    rw (lower, upper) (ground arith)

strtol_lem :
    (base d : ℕ) (ds : List ℕ)
    → base ≤ 16
    → Digits base (d ∷ ds)
    → numeral base (d ∷ ds) < 2 ^ 32
    → strtol base (d ∷ ds) ≡ record {
      negative = false;
      magnitude = numeral base (d ∷ ds);
      any_digit = true;
      out_of_range = false;
    }
strtol_lem base d ds b h small =
    let (sp, minus, plus, lower, upper, nul, blank) = digit_char d (omega arith) in
    unfold strtol signed_part unsigned_part in
    rw (sp, minus, plus, prefix_kept base (d ∷ ds) b h, read_digits_lem base d ds h) (ground arith)

strtol_over :
    (base d : ℕ) (ds : List ℕ)
    → base ≤ 16
    → Digits base (d ∷ ds)
    → 2 ^ 63 ≤ numeral base (d ∷ ds)
    → (strtol base (d ∷ ds)).out_of_range ≡ true
strtol_over base d ds b h large =
    let (sp, minus, plus, lower, upper, nul, blank) = digit_char d (omega arith) in
    unfold strtol signed_part unsigned_part in
    rw (sp, minus, plus, prefix_kept base (d ∷ ds) b h, read_digits_lem base d ds h) (ground arith)

-- The first word of a line, if it fits the tokenizer's buffer.
whole_word :
    (c : ℕ) (src : List ℕ)
    → NoNul (c ∷ src)
    → length (first_word (skip_spaces (c ∷ src))) ≤ 255
    → (word : List ℕ) × (rest : List ℕ) × (tokenizer_next_word (some (c ∷ src)) 256
        ≡ ok (some (word, rest)))
      × (c_string word ≡ first_word (skip_spaces (c ∷ src)))
      × (first_word (skip_spaces (c ∷ src)) ++ rest ≡ skip_spaces (c ∷ src))
whole_word c src n fits =
    let (blank, word, rest, e, first, all, small) =
      next_word_lem c src 256 n (omega arith) (omega arith) in
    let same : c_string word ≡ first_word (skip_spaces (c ∷ src)) = first ∙ take_all _ 255 fits in
    (word, rest, e, same, ap (λ (l : List ℕ). l ++ rest) (sym same) ∙ all)

-- With an `errno` that was left set, no number is read.
stuck :
    (src : Option (List ℕ)) (dst : ℕ)
    → (q : Parsed) × (tokenizer_next_hex erange dst src ≡ ok q) × (q.rest ≡ none)
unfolding tokenizer_next_hex parse_word tokenizer_next_word
stuck none dst = (record { errno = erange; dst = dst; rest = none }, refl, refl)
stuck (some []) dst = (record { errno = erange; dst = dst; rest = none }, refl, refl)
stuck (some (c ∷ src)) dst =
    let (word, rest) = scan 255 false (c ∷ src) in
    let r = strtol 16 (c_string (word ++ 0 ∷ [])) in
    (record { errno = new_errno erange r; dst = to_unsigned r; rest = none }, ground arith, refl)

module _ (c : ℕ) (src : List ℕ) (d : ℕ) (ds : List ℕ) (n : NoNul (c ∷ src))
    (first : first_word (skip_spaces (c ∷ src)) ≡ d ∷ ds) (fits : length (d ∷ ds) ≤ 255) where
  -- If the first word of a line consists of up to 255 hexadecimal digits that stand for a number
  -- below 2 ^ 32, and no earlier number was out of range, `tokenizer_next_hex` gives that number
  -- and the line behind the word.
  pub next_hex_lem :
      (dst : ℕ)
      → Digits 16 (d ∷ ds)
      → numeral 16 (d ∷ ds) < 2 ^ 32
      → (rest : List ℕ) × (tokenizer_next_hex no_error dst (some (c ∷ src))
          ≡ ok (record { errno = no_error; dst = numeral 16 (d ∷ ds); rest = some rest }))
        × (d ∷ ds ++ rest ≡ skip_spaces (c ∷ src))
  unfolding tokenizer_next_hex parse_word
  next_hex_lem dst h small =
      let (word, rest, e, same, all) = whole_word c src n (rw first (fits)) in
      (
        rest,
        rw (e, same, first, strtol_lem 16 d ds (omega arith) h small) (ground arith),
        ap (λ (l : List ℕ). l ++ rest) (sym first) ∙ all,
      )

  -- The same for decimal digits and `tokenizer_next_int`.
  pub next_int_lem :
      (dst : ℕ)
      → Digits 10 (d ∷ ds)
      → numeral 10 (d ∷ ds) < 2 ^ 32
      → (rest : List ℕ) × (tokenizer_next_int no_error dst (some (c ∷ src))
          ≡ ok (record { errno = no_error; dst = numeral 10 (d ∷ ds); rest = some rest }))
        × (d ∷ ds ++ rest ≡ skip_spaces (c ∷ src))
  unfolding tokenizer_next_int parse_word
  next_int_lem dst h small =
      let (word, rest, e, same, all) = whole_word c src n (rw first (fits)) in
      (
        rest,
        rw (e, same, first, strtol_lem 10 d ds (omega arith) h small) (ground arith),
        ap (λ (l : List ℕ). l ++ rest) (sym first) ∙ all,
      )

  -- If the first word of a line consists of up to 255 hexadecimal digits that stand for a number
  -- from 2 ^ 63 on, `tokenizer_next_hex` fails, and with the `errno` that it leaves it fails on
  -- every later line too.
  pub overflow_sticks :
      (dst : ℕ) (later : Option (List ℕ)) (other : ℕ)
      → Digits 16 (d ∷ ds)
      → 2 ^ 63 ≤ numeral 16 (d ∷ ds)
      → (p : Parsed) × (tokenizer_next_hex no_error dst (some (c ∷ src)) ≡ ok p)
        × (p.rest ≡ none)
        × (q : Parsed) × (tokenizer_next_hex p.errno other later ≡ ok q)
        × (q.rest ≡ none)
  overflow_sticks dst later other h large =
      let (word, rest, e, same, all) = whole_word c src n (rw first (fits)) in
      let r = strtol 16 (d ∷ ds) in
      let p : Parsed = record { errno = erange; dst = to_unsigned r; rest = none } in
      let over : r.out_of_range ≡ true = strtol_over 16 d ds (omega arith) h large in
      let (q, read, failed) = stuck later other in
      (
        p,
        unfold tokenizer_next_hex parse_word in rw (e, same, first, over) refl,
        refl,
        q,
        read,
        failed,
      )
