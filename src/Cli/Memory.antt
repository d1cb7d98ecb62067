-- ===== src/Cli/Memory.antt =====
-- src/cli.c: the commands that read and write the memory and the ports.
use ceda_cemu.Base.{
  ℕ, zero, suc, ◌+◌, ◌%◌, ◌^◌, Option, none, some, List, [], ◌∷◌, ◌++◌, ◌==◌, leb, if◌then◌else◌,
  length, take, drop,
}
use ceda_cemu.Base.Outcome.{Fault, Outcome, ok, fault, ◌>>=◌}
use ceda_cemu.Bus.{Memory, bus_mem_write}
use ceda_cemu.Io.{bus_io_in, bus_io_out}
use ceda_cemu.Tokenizer.{tokenizer_next_hex}
use ceda_cemu.Cli.Text.{message, bad_argument, hex, printable}
use ceda_cemu.Cli.State.{
  Cli, Debugger, Answer, Handler, is_some, number, say, done, set_errno, memory, set_memory,
  hex_argument,
}
use ceda_cemu.Cli.Debugging.{bus_mem_readsome, cpu_max_opcode_len}

-- One line of the dump in `cli_read`: the octets of it that are left, from index `i` of the line on.
abbrev dump_octets : List ℕ → ℕ → List ℕ
dump_octets [] i = []
dump_octets (c ∷ cs) i =
    hex 2 c ++ 0x20 ∷ (if i == 7 then 0x20 ∷ [] else []) ++ dump_octets cs (i + 1)

abbrev dump_ascii : List ℕ → List ℕ
dump_ascii [] = []
dump_ascii (c ∷ cs) = printable c ∷ dump_ascii cs

-- The loop of `cli_read`, with `n` lines of sixteen octets left.
unfoldable pub dump_lines : ℕ → ℕ → List ℕ → List ℕ
dump_lines zero address blob = []
dump_lines (suc n) address blob =
    let row = take 16 blob in
    hex 4 address
    ++ 0x09 ∷ dump_octets row 0
    ++ 0x09 ∷ dump_ascii row
    ++ 0x0a ∷ []
    ++ dump_lines n (address + 16) (drop 16 blob)

-- How a round of the loop of `cli_write` ends.
pub data Verdict : Type 0 where
  finished : Option (List ℕ) → Verdict
  go_on : Verdict

module _ {Z W : Type 0} where
  unfoldable pub read_with : Cli Z W → Option ℕ → Answer Z W
  read_with s none = say s (bad_argument "missing address")
  read_with s (some address) =
      if leb 0x10000 address
      then say s (bad_argument "address must be 16 bit")
      else do blob ← bus_mem_readsome (memory s) address 128; say s (dump_lines 8 address blob)

  unfoldable pub cli_read : Handler Z W
  cli_read s arg = do address ← hex_argument s arg; read_with (set_errno s address) (number address)

  unfoldable pub write_step : Cli Z W → ℕ → ℕ → Option ℕ → Outcome (Cli Z W × Verdict)
  write_step s address i none =
      ok (s, finished (if i == 0 then some (bad_argument "missing value") else none))
  write_step s address i (some value) =
      if leb 0x100 value then ok (s, finished (some (bad_argument "value must be 8 bit"))) else do
        m ← bus_mem_write (memory s) ((address + i) % 2 ^ 16) value
        ok (set_memory s m, go_on)

  -- The loop of `cli_write`, on fuel; `none` means that it ran out. `i` is a `uint16_t`.
  unfoldable pub write_values :
      ℕ → Cli Z W → ℕ → ℕ → Option (List ℕ) → Outcome (Option (Cli Z W × Option (List ℕ)))
  write_values zero s address i arg = ok none
  write_values (suc fuel) s address i arg = do
    value ← tokenizer_next_hex s.errno 0 arg
    (t, verdict) ← write_step (set_errno s value) address i (number value)
    (elim verdict [
      | finished text ↦ ok (some (t, text))
      | go_on ↦ write_values fuel t address ((i + 1) % 2 ^ 16) value.rest
    ])

  abbrev enough : Option (Cli Z W × Option (List ℕ)) → Answer Z W
  enough none = fault Fault.no_fuel
  enough (some answer) = ok answer

  unfoldable pub write_with : Cli Z W → Option ℕ → ℕ → Option (List ℕ) → Answer Z W
  write_with s none fuel rest = say s (bad_argument "bad address format")
  write_with s (some address) fuel rest =
      if leb 0x10000 address
      then say s (bad_argument "address must be 16 bit")
      else do answer ← write_values fuel s address 0 rest; enough answer

  -- The line's length is fuel enough.
  unfoldable pub cli_write : Handler Z W
  cli_write s arg = do
    address ← hex_argument s arg
    write_with (set_errno s address) (number address) (length arg) address.rest

  unfoldable pub in_with : Cli Z W → Option ℕ → Answer Z W
  in_with s none = say s (bad_argument "missing address")
  in_with s (some address) =
      if leb 0x100 address then say s (message "address must be 8 bit") else do
        (board, value) ← bus_io_in s.machine.board address
        say (record s { machine = record s.machine { board = board } }) (hex 2 value ++ 0x0a ∷ [])

  unfoldable pub cli_in : Handler Z W
  cli_in s arg = do address ← hex_argument s arg; in_with (set_errno s address) (number address)

  unfoldable pub out_value : Cli Z W → ℕ → Option ℕ → Answer Z W
  out_value s address none = say s (bad_argument "missing value")
  out_value s address (some value) =
      if leb 0x100 value then say s (message "value must be 8 bit") else do
        board ← bus_io_out s.machine.board address value
        done (record s { machine = record s.machine { board = board } })

  unfoldable pub out_with : Cli Z W → Option ℕ → Option (List ℕ) → Answer Z W
  out_with s none rest = say s (bad_argument "missing address")
  out_with s (some address) rest =
      if leb 0x100 address then say s (message "address must be 8 bit") else do
        value ← tokenizer_next_hex s.errno 0 rest
        out_value (set_errno s value) address (number value)

  unfoldable pub cli_out : Handler Z W
  cli_out s arg = do
    address ← hex_argument s arg
    out_with (set_errno s address) (number address) address.rest

-- The loop of `cli_dis`, with `n` instructions left; `disb` counts the octets that were disassembled.
module _ {Z : Type 0} (debugger : Debugger Z) where
  unfoldable pub dis_lines : ℕ → Memory → ℕ → ℕ → Outcome (List ℕ)
  dis_lines zero m address disb = ok []
  dis_lines (suc n) m address disb = do
    blob ← bus_mem_readsome m ((address + disb) % 2 ^ 16) cpu_max_opcode_len
    let (text, len) = debugger.disassemble blob (address + disb)
    rest ← dis_lines n m address (disb + len)
    ok (text ++ 0x0a ∷ [] ++ rest)

  unfoldable pub cli_dis : {W : Type 0} → Handler Z W
  cli_dis s arg = do
    address ← hex_argument s arg
    let start = if is_some address.rest then address.dst else debugger.pc s.machine.z80
    text ← dis_lines 16 (memory s) start 0
    say (set_errno s address) text
