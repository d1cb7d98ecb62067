-- ===== src/Cli/State.antt =====
-- src/cli.c: the state of the command line, and what it uses of the rest of the program.
use ceda_cemu.Base.{ℕ, ◌+◌, ◌-◌, ltb, Bool, true, false, Option, none, some, List, if◌then◌else◌}
use ceda_cemu.Base.Outcome.{Fault, Outcome, ok, fault, ◌>>=◌}
use ceda_cemu.Bus.{Memory}
use ceda_cemu.Cpu.{Machine}
use ceda_cemu.Fifo.{Fifo, push}
use ceda_cemu.Floppy.{File}
use ceda_cemu.Serial.{Sockets}
use ceda_cemu.Strings.{ceda_string_count}
use ceda_cemu.Tokenizer.{Parsed, tokenizer_next_word, tokenizer_next_hex}
use ceda_cemu.Tokenizer.Numbers.{Errno}

-- The static variables of cli.c and of its functions, `errno`, the machine, and the host's files.
-- `line` holds the `count` octets of the line that is being read. A `ceda_string_t` is its text, and
-- `strings` counts the slots of the pool that are in use, those of the whole program included; none
-- stands for a pointer that is still NULL. The texts are far below 32 KiB, and memory is given.
pub record Cli (Z W : Type 0) : Type 0 where
  pub quit : Bool
  pub restart : Bool
  pub tx_fifo : Fifo (List ℕ)
  pub line : List ℕ
  pub strings : ℕ
  pub last_line : Option (List ℕ)
  pub prev_filename : Option (List ℕ)
  pub prev_address : ℕ
  pub errno : Errno
  pub machine : Machine Z W
  pub files : List ℕ → Option File

-- What the host answers when a file is written and a port opened: `create` whether `fopen` succeeds,
-- `fwrite` how many octets it writes of so many, and `closes` whether `fclose` succeeds.
pub record Host : Type 0 where
  pub create : List ℕ → Bool
  pub fwrite : ℕ → ℕ
  pub closes : Bool
  pub sockets : Sockets

-- What the debugger reads of the processor: `regs.pc`, the twelve registers in the order that they
-- are printed in, and the vendored `disassemble`, which gives a text and a length.
pub record Debugger (Z : Type 0) : Type 0 where
  pub pc : Z → ℕ
  pub registers : Z → List ℕ
  pub disassemble : List ℕ → ℕ → List ℕ × ℕ

-- LINE_BUFFER_SIZE
abbrev pub line_buffer_size : ℕ
line_buffer_size = 128

-- What a handler returns: NULL, or the message.
abbrev pub Answer : Type 0 → Type 0 → Type 0
Answer Z W = Outcome (Cli Z W × Option (List ℕ))

-- `cli_command_handler_t`
abbrev pub Handler : Type 0 → Type 0 → Type 0
Handler Z W = Cli Z W → List ℕ → Answer Z W

abbrev pub next_word : Option (List ℕ) → Outcome (Option (List ℕ × List ℕ))
next_word src = tokenizer_next_word src line_buffer_size

-- The pointer that `tokenizer_next_word` returns, and the word if there is one.
abbrev pub rest_of : Option (List ℕ × List ℕ) → Option (List ℕ)
rest_of none = none
rest_of (some (word, rest)) = some rest

abbrev pub word_of : Option (List ℕ × List ℕ) → Option (List ℕ)
word_of none = none
word_of (some (word, rest)) = some word

abbrev pub is_some : {A : Type 0} → Option A → Bool
is_some none = false
is_some (some a) = true

-- The number that was read, if there is one.
abbrev pub number : Parsed → Option ℕ
number p = if is_some p.rest then some p.dst else none

module _ {Z W : Type 0} where
  abbrev pub say : Cli Z W → List ℕ → Answer Z W
  say s text = ok (s, some text)

  abbrev pub done : Cli Z W → Answer Z W
  done s = ok (s, none)

  abbrev pub set_errno : Cli Z W → Parsed → Cli Z W
  set_errno s p = record s { errno = p.errno }

  abbrev pub memory : Cli Z W → Memory
  memory s = s.machine.board.memory

  abbrev pub set_memory : Cli Z W → Memory → Cli Z W
  set_memory s m = record s {
    machine = record s.machine { board = record s.machine.board { memory = m } };
  }

  -- `ceda_string_new`, which aborts when all slots are in use.
  unfoldable pub new_string : Cli Z W → Outcome (Cli Z W)
  new_string s =
      if ltb s.strings ceda_string_count
      then ok (record s { strings = s.strings + 1 })
      else fault Fault.assertion

  -- `ceda_string_delete`
  unfoldable pub free_string : Cli Z W → Cli Z W
  free_string s = record s { strings = s.strings - 1 }

  -- The string for the message is taken; a full queue is not looked for.
  unfoldable pub cli_send_string : Cli Z W → List ℕ → Outcome (Cli Z W)
  cli_send_string s text = do t ← new_string s; ok (record t { tx_fifo = push t.tx_fifo text })

  -- `tokenizer_next_hex` behind the command's own name, the first word of the line.
  abbrev pub hex_argument : Cli Z W → List ℕ → Outcome Parsed
  hex_argument s arg = do word ← next_word (some arg); tokenizer_next_hex s.errno 0 (rest_of word)
