-- ===== src/Cli/Text.antt =====
-- The texts that src/cli.c prints.
use ceda_cemu.Base.{
  ℕ, zero, suc, ◌+◌, ◌-◌, ◌/◌, ◌%◌, ◌&&◌, List, [], ◌∷◌, ◌++◌, ltb, leb, length, if◌then◌else◌,
  replicate,
}
use ceda_cemu.Base.Text.{codes}
use Prim.Native.String.{String}

-- A literal with the newline at its end.
abbrev pub message : String → List ℕ
message s = codes s ++ 0x0a ∷ []

-- `USER_BAD_ARG_STR` before a message.
abbrev pub bad_argument : String → List ℕ
bad_argument s = message "bad argument" ++ message s

-- USER_PROMPT_STR
abbrev pub prompt : List ℕ
prompt = codes "> "

abbrev digit : ℕ → ℕ
digit n = if ltb n 10 then 48 + n else 87 + n

-- The digits of `n`, as many as the fuel allows; the highest first.
unfoldable pub digits_from : ℕ → ℕ → ℕ → List ℕ → List ℕ
digits_from zero base n rest = rest
digits_from (suc fuel) base n rest =
    let more = digits_from fuel base (n / base) (digit (n % base) ∷ rest) in
    if ltb n base then digit n ∷ rest else more

-- `%lu` and `%x`.
unfoldable pub decimal : ℕ → List ℕ
unfolding digits_from
decimal n = digits_from 20 10 n []

-- `%02x`, `%04x`: at least so many digits.
unfoldable pub hex : ℕ → ℕ → List ℕ
unfolding digits_from
hex width n = let digits = digits_from 16 16 n [] in replicate (width - length digits) 48 ++ digits

-- `isprint(c) ? c : '.'`
abbrev pub printable : ℕ → ℕ
printable c = if leb 0x20 c && leb c 0x7e then c else 0x2e
