-- ===== src/Tokenizer/Numbers.antt =====
-- `strtol` of the C library, with a `long` of 64 bits, as src/tokenizer.c uses it.
use ceda_cemu.Base.{
  ℕ, ◌+◌, ◌-◌, ◌*◌, ◌%◌, ◌^◌, Bool, true, false, ◌&&◌, ◌||◌, not, List, [], ◌∷◌, ltb, leb, ◌==◌,
  if◌then◌else◌,
}

-- `errno`, as far as the tokenizer looks at it.
pub data Errno : Type 0 where
  no_error einval erange : Errno

-- The value, whether there is any digit (`endptr` is not `word`), and whether it is out of range.
pub record Strtol : Type 0 where
  pub negative : Bool
  pub magnitude : ℕ
  pub any_digit : Bool
  pub out_of_range : Bool

-- `isspace`
abbrev pub is_space : ℕ → Bool
is_space c = c == 0x20 || (leb 9 c && leb c 13)

abbrev pub digit_value : ℕ → ℕ
digit_value c =
    if leb 48 c && leb c 57
    then c - 48
    else if leb 97 c && leb c 122
    then c - 87
    else if leb 65 c && leb c 90
    then c - 55
    else 36

unfoldable pub read_digits : ℕ → List ℕ → ℕ → Bool → ℕ × Bool
read_digits base [] acc any = (acc, any)
read_digits base (c ∷ s) acc any =
    let rest = read_digits base s (acc * base + digit_value c) true in
    if ltb (digit_value c) base then rest else (acc, any)

-- The prefix 0x of base 16, if a digit follows.
unfoldable pub skip_prefix : ℕ → List ℕ → List ℕ
skip_prefix base (z ∷ x ∷ d ∷ s) =
    if base == 16 && z == 48 && (x == 0x78 || x == 0x58) && ltb (digit_value d) 16
    then d ∷ s
    else z ∷ x ∷ d ∷ s
skip_prefix base s = s

unfoldable pub unsigned_part : Bool → ℕ → List ℕ → Strtol
unsigned_part negative base s =
    let (value, any) = read_digits base (skip_prefix base s) 0 false in
    let limit : ℕ = if negative then 2 ^ 63 else 2 ^ 63 - 1 in
    record {
      negative = negative;
      magnitude = if leb value limit then value else limit;
      any_digit = any;
      out_of_range = not (leb value limit);
    }

unfoldable pub signed_part : ℕ → List ℕ → Strtol
signed_part base [] = unsigned_part false base []
signed_part base (c ∷ s) =
    if c == 0x2d
    then unsigned_part true base s
    else unsigned_part false base (if c == 0x2b then s else c ∷ s)

unfoldable pub strtol : ℕ → List ℕ → Strtol
strtol base [] = signed_part base []
strtol base (c ∷ s) =
    let rest = strtol base s in if is_space c then rest else signed_part base (c ∷ s)

-- `strtol` sets `errno` only when it fails.
abbrev pub new_errno : Errno → Strtol → Errno
new_errno e r = if r.out_of_range then Errno.erange else e

abbrev pub is_error : Errno → Bool
is_error Errno.no_error = false
is_error Errno.einval = true
is_error Errno.erange = true

-- The conversion to `unsigned int`.
abbrev pub to_unsigned : Strtol → ℕ
to_unsigned r =
    if r.negative then (2 ^ 32 - r.magnitude % 2 ^ 32) % 2 ^ 32 else r.magnitude % 2 ^ 32
