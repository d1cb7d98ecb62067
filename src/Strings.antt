-- ===== src/Strings.antt =====
-- src/ceda_string.c: strings that grow, and the pool that they are taken from.
pub mod Represents
pub mod Pool
mod Tests
use ceda_cemu.Base.{
  ℕ, zero, suc, ◌+◌, ◌-◌, ◌%◌, ◌^◌, Bool, true, false, Option, none, some, List, [], ◌∷◌, ◌==◌, ltb,
  leb, if◌then◌else◌, length, get_or, set, replicate, take,
}
use ceda_cemu.Base.Outcome.{Fault, Outcome, ok, fault, ◌>>=◌, ◌>>◌, check}
use ceda_cemu.Base.Text.{c_string, str_eq}

-- CEDA_STRING_COUNT
abbrev pub ceda_string_count : ℕ
ceda_string_count = 32

-- CEDA_STRING_DEFAULT_CAPACITY
abbrev pub ceda_string_default_capacity : ℕ
ceda_string_default_capacity = 128

-- CEDA_STRING_PRINTF_BUFFER_SIZE
abbrev pub ceda_string_printf_buffer_size : ℕ
ceda_string_printf_buffer_size = 1024

-- `ceda_string_t`; `data` is the memory that it points to.
pub record CedaString : Type 0 where
  pub valid : Bool
  pub capacity : ℕ
  pub used : ℕ
  pub memory : List ℕ

abbrev pub zero_string : CedaString
zero_string = record { valid = false; capacity = 0; used = 0; memory = [] }

-- `ceda_strings`
abbrev pub static_strings : List CedaString
static_strings = replicate ceda_string_count zero_string

-- `CEDA_STRONG_ASSERT_VALID_PTR` on what `malloc` gave.
abbrev allocated : Option (List ℕ) → Outcome (List ℕ)
allocated none = fault Fault.assertion
allocated (some memory) = ok memory

-- `memory[i] = c`
abbrev pub write : List ℕ → ℕ → ℕ → Outcome (List ℕ)
write memory i c = do check (ltb i (length memory)) Fault.out_of_bounds; ok (set memory i c)

-- The first loop of `ceda_string_cat`: `n` octets from index `i` on.
unfoldable pub copy_from : List ℕ → List ℕ → ℕ → ℕ → Outcome (List ℕ)
copy_from old memory i zero = ok memory
copy_from old memory i (suc n) = do
  copied ← write memory i (get_or old i 0)
  copy_from old copied (i + 1) n

-- The second loop: `used` is a `ceda_size_t`.
unfoldable pub append_from : List ℕ → ℕ → List ℕ → Outcome (List ℕ × ℕ)
append_from memory used [] = ok (memory, used)
append_from memory used (c ∷ text) = do
  written ← write memory used c
  append_from written ((used + 1) % 2 ^ 16) text

-- `malloc` of the C library.
module _ (malloc : ℕ → Option (List ℕ)) where
  -- The slot that is found: its index, and the pool behind it.
  unfoldable pub new_in : List CedaString → ℕ → ℕ → Outcome (List CedaString × ℕ)
  new_in [] i capacity = fault Fault.assertion
  new_in (s ∷ pool) i capacity = elim s.valid [
    | true ↦ do (rest, found) ← new_in pool (i + 1) capacity; ok (s ∷ rest, found)
    | false ↦ do
      memory ← allocated (malloc capacity)
      emptied ← write memory 0 0
      let t : CedaString = record { valid = true; capacity = capacity; used = 1; memory = emptied }
      ok (t ∷ pool, i)
  ]

  unfoldable pub ceda_string_new : List CedaString → ℕ → Outcome (List CedaString × ℕ)
  ceda_string_new pool capacity =
      new_in pool 0 (if capacity == 0 then ceda_string_default_capacity else capacity)

  unfoldable pub grow : CedaString → ℕ → Outcome CedaString
  grow s needed = do
    check (ltb s.capacity 0x8000) Fault.assertion
    let new_capacity = (s.capacity + needed) % 2 ^ 16
    memory ← allocated (malloc new_capacity)
    copied ← copy_from s.memory memory 0 s.used
    ok (record s { capacity = new_capacity; memory = copied })

  unfoldable pub ceda_string_cat : CedaString → List ℕ → Outcome CedaString
  ceda_string_cat s text = do
    check s.valid Fault.assertion
    check (ltb (length text) 0x10000) Fault.assertion
    let needed = length text % 2 ^ 16
    let remaining = (s.capacity + 2 ^ 16 - s.used) % 2 ^ 16
    t ← if ltb remaining needed then grow s needed else ok s
    (memory, used) ← append_from t.memory ((t.used + 2 ^ 16 - 1) % 2 ^ 16) text
    ended ← write memory used 0
    ok (record t { memory = ended; used = (used + 1) % 2 ^ 16 })

  -- `formatted` is what `vsnprintf` makes of the format and the arguments, uncut.
  unfoldable pub ceda_string_printf : CedaString → List ℕ → Outcome CedaString
  ceda_string_printf s formatted =
      ceda_string_cat s (take (ceda_string_printf_buffer_size - 1) formatted)

  -- `other` is not the memory of the string itself.
  unfoldable pub ceda_string_cpy : CedaString → List ℕ → Outcome CedaString
  ceda_string_cpy s other = do
    emptied ← write s.memory 0 0
    ceda_string_cat (record s { memory = emptied; used = 1 }) other

unfoldable pub ceda_string_data : CedaString → Outcome (List ℕ)
ceda_string_data s = do check s.valid Fault.assertion; ok (c_string s.memory)

unfoldable pub ceda_string_eq : CedaString → CedaString → Bool
ceda_string_eq left right = str_eq (c_string left.memory) (c_string right.memory)

unfoldable pub ceda_string_len : CedaString → ℕ
ceda_string_len s = (s.used + 2 ^ 16 - 1) % 2 ^ 16

-- The freed memory is left unreachable.
unfoldable pub ceda_string_delete : CedaString → Outcome CedaString
ceda_string_delete s = do
  check s.valid Fault.assertion
  ok (record s { valid = false; memory = [] })
