-- ===== src/Cli/Debugging.antt =====
-- src/cli.c: the commands of the debugger.
use ceda_cemu.Base.{
  ℕ, zero, suc, ◌+◌, ◌%◌, ◌^◌, Bool, true, false, not, Option, none, some, List, [], ◌∷◌, ◌++◌,
  ◌==◌, leb, if◌then◌else◌,
}
use ceda_cemu.Base.Outcome.{Outcome, ok, ◌>>=◌}
use ceda_cemu.Base.Text.{codes, str_eq, c_string}
use ceda_cemu.Bus.{Memory, bus_mem_read}
use ceda_cemu.Cpu.{Z80, Machine, cpu_pause, cpu_goto, cpu_step}
use ceda_cemu.Interrupts.{int_irq}
use ceda_cemu.Monitor.{
  Kind, Monitor, Monitors, monitor_delete, add_breakpoint, add_read_watchpoint,
  add_write_watchpoint, add_in_watchpoint, add_out_watchpoint,
}
use ceda_cemu.Tokenizer.{Parsed, tokenizer_next_hex, tokenizer_next_int}
use ceda_cemu.Cli.Text.{message, bad_argument, decimal, hex}
use ceda_cemu.Cli.State.{
  Cli, Debugger, Answer, Handler, next_word, rest_of, word_of, is_some, number, say, done,
  set_errno, memory, hex_argument,
}

-- CPU_MAX_OPCODE_LEN
abbrev pub cpu_max_opcode_len : ℕ
cpu_max_opcode_len = 6

-- INTPRIO_EXT
abbrev intprio_ext : ℕ
intprio_ext = 2

-- `bus_mem_readsome`, with `n` octets left.
unfoldable pub bus_mem_readsome : Memory → ℕ → ℕ → Outcome (List ℕ)
bus_mem_readsome m address zero = ok []
bus_mem_readsome m address (suc n) = do
  octet ← bus_mem_read m (address % 2 ^ 16)
  octets ← bus_mem_readsome m (address + 1) n
  ok (octet ∷ octets)

-- `while (*dis == ' ') ++dis;`
abbrev pub skip_blanks : List ℕ → List ℕ
skip_blanks [] = []
skip_blanks (c ∷ s) = if c == 0x20 then skip_blanks s else c ∷ s

-- The registers, with a space between each two.
abbrev pub spaced : List ℕ → List ℕ
spaced [] = []
spaced (r ∷ []) = hex 4 r
spaced (r ∷ s ∷ rs) = hex 4 r ++ 0x20 ∷ spaced (s ∷ rs)

-- `monitor_getKindDescription`
unfoldable pub monitor_get_kind_description : Kind → List ℕ
monitor_get_kind_description Kind.exec = codes "exec"
monitor_get_kind_description Kind.read_mem = codes "read"
monitor_get_kind_description Kind.write_mem = codes "write"
monitor_get_kind_description Kind.read_io = codes "in"
monitor_get_kind_description Kind.write_io = codes "out"

abbrev monitor_line : ℕ → Monitor → List ℕ
monitor_line i m =
    decimal i ++ 0x09 ∷ monitor_get_kind_description m.kind ++ 0x09 ∷ hex 4 m.address ++ 0x0a ∷ []

-- The loop over the monitors, from slot `i` on.
unfoldable pub monitor_lines : List Monitor → ℕ → List ℕ
monitor_lines [] i = []
monitor_lines (m ∷ ms) i =
    let rest = monitor_lines ms (i + 1) in if m.valid then monitor_line i m ++ rest else rest

abbrev any_valid : List Monitor → Bool
any_valid [] = false
any_valid (m ∷ ms) = if m.valid then true else any_valid ms

-- The chain of `strcmp`; `none` is an unknown kind.
unfoldable pub add_kind : Monitors → List ℕ → ℕ → Option ℕ → Option (Outcome (Monitors × Bool))
add_kind s what address value =
    if str_eq what (codes "exec")
    then some (add_breakpoint s address)
    else if str_eq what (codes "read")
    then some (add_read_watchpoint s address)
    else if str_eq what (codes "write")
    then some (add_write_watchpoint s address value)
    else if str_eq what (codes "in")
    then some (add_in_watchpoint s address)
    else if str_eq what (codes "out")
    then some (add_out_watchpoint s address value)
    else none

-- The word as a C string.
abbrev pub text_of : Option (List ℕ) → Option (List ℕ)
text_of none = none
text_of (some word) = some (c_string word)

-- The number is there and does not fit so many values.
abbrev pub too_large : ℕ → Option ℕ → Bool
too_large bound none = false
too_large bound (some n) = leb bound n

module _ {Z W : Type 0} where
  unfoldable pub cli_quit : Handler Z W
  cli_quit s arg = done (record s { quit = true })

  unfoldable pub cli_reset : Handler Z W
  cli_reset s arg = done (record s { restart = true })

  unfoldable pub show_monitors : Cli Z W → Answer Z W
  show_monitors s =
      let ms = s.machine.monitors.monitors in
      say s (if any_valid ms then monitor_lines ms 0 else message "no breakpoint set")

  unfoldable pub added : Cli Z W → Option (Outcome (Monitors × Bool)) → Answer Z W
  added s none = say s (bad_argument "unknown monitor kind")
  added s (some result) = do
    (monitors, free) ← result
    let t = record s { machine = record s.machine { monitors = monitors } }
    if free then done t else say t (message "no space left")

  -- The end of `cli_break`, behind the parsing.
  unfoldable pub break_with : Cli Z W → Option (List ℕ) → Option ℕ → Option ℕ → Answer Z W
  break_with s none address value = show_monitors s
  break_with s (some what) none value = say s (bad_argument "missing address")
  break_with s (some what) (some address) value =
      added s (add_kind s.machine.monitors what address value)

  unfoldable pub break_value : Cli Z W → Option (List ℕ) → Parsed → Answer Z W
  break_value s what address = do
    value ← tokenizer_next_hex address.errno 0 address.rest
    let t = set_errno s value
    if too_large 0x100 (number value)
        then say t (bad_argument "value must be 8 bit")
        else break_with t what (number address) (number value)

  unfoldable pub cli_break : Handler Z W
  cli_break s arg = do
    first ← next_word (some arg)
    what ← next_word (rest_of first)
    address ← tokenizer_next_hex s.errno 0 (rest_of what)
    if too_large 0x10000 (number address)
        then say (set_errno s address) (bad_argument "address must be 16 bit")
        else break_value s (text_of (word_of what)) address

  -- The end of `cli_delete`, with the word that holds the index.
  unfoldable pub delete_index : Cli Z W → Parsed → Answer Z W
  delete_index s index =
      let (monitors, deleted) = monitor_delete s.machine.monitors index.dst in
      let t = record (set_errno s index) { machine = record s.machine { monitors = monitors } } in
      if not (is_some index.rest)
      then say (set_errno s index) (bad_argument "bad index format")
      else if not deleted
      then say t (message "can't delete monitor")
      else done t

  unfoldable pub delete_word : Cli Z W → Option (List ℕ) → Answer Z W
  delete_word s none = say s (bad_argument "missing index")
  delete_word s (some word) = do
    index ← tokenizer_next_int s.errno 0 (some (c_string word))
    delete_index s index

  unfoldable pub cli_delete : Handler Z W
  cli_delete s arg = do
    first ← next_word (some arg)
    second ← next_word (rest_of first)
    delete_word s (word_of second)

  unfoldable pub int_with : Cli Z W → Option ℕ → Answer Z W
  int_with s none = say s (bad_argument "missing device-provided byte")
  int_with s (some byte) =
      if leb 0x100 byte then say s (bad_argument "device-provided byte but be 8 bit") else do
        let sio2 = s.machine.board.sio2
        interrupts ← int_irq sio2.interrupts intprio_ext (byte % 2 ^ 8)
        let board = record s.machine.board { sio2 = record sio2 { interrupts = interrupts } }
        done (record s { machine = record s.machine { board = board } })

  unfoldable pub cli_int : Handler Z W
  cli_int s arg = do byte ← hex_argument s arg; int_with (set_errno s byte) (number byte)

  module _ (lib : Z80 Z) where
    abbrev on_machine : Cli Z W → (Machine Z W → Machine Z W) → Cli Z W
    on_machine s f = record s { machine = f s.machine }

    unfoldable pub cli_pause : Handler Z W
    cli_pause s arg = done (on_machine s (cpu_pause lib true))

    unfoldable pub cli_continue : Handler Z W
    cli_continue s arg = done (on_machine s (cpu_pause lib false))

    unfoldable pub goto_with : Cli Z W → Option ℕ → Answer Z W
    goto_with s none = say s (bad_argument "missing address")
    goto_with s (some address) =
        if leb 0x10000 address
        then say s (bad_argument "address must be 16 bit")
        else done (on_machine s (λ m. cpu_goto lib m address))

    unfoldable pub cli_goto : Handler Z W
    cli_goto s arg = do
      address ← hex_argument s arg
      goto_with (set_errno s address) (number address)

  module _ (debugger : Debugger Z) where
    unfoldable pub cli_reg : Handler Z W
    cli_reg s arg = do
      let z = s.machine.z80
      let pc = debugger.pc z
      blob ← bus_mem_readsome (memory s) pc cpu_max_opcode_len
      let dis = skip_blanks (debugger.disassemble blob pc).0
      let head = message " PC   SP   AF   BC   DE   HL   AF'  BC'  DE'  HL'  IX   IY"
      say s (0x20 ∷ dis ++ 0x0a ∷ head ++ spaced (debugger.registers z) ++ 0x0a ∷ [])

    module _ (lib : Z80 Z) (z80_run : ℕ → Machine Z W → Outcome (Machine Z W × ℕ)) where
      unfoldable pub cli_step : Handler Z W
      cli_step s arg = do
        machine ← cpu_step lib z80_run s.machine
        cli_reg (record s { machine = machine }) arg
