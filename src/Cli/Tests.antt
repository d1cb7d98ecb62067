-- ===== src/Cli/Tests.antt =====
-- The command line of a concrete machine.
use ceda_cemu.Base.{
  ℕ, ◌≡◌, ◌≢◌, refl, true, false, none, some, List, [], ◌∷◌, ◌++◌, length-set, set, ◌∙◌, replicate,
  arith,
}
use ceda_cemu.Base.Outcome.{Fault, Outcome, ok, fault}
use ceda_cemu.Base.Text.{codes}
use ceda_cemu.Cpu.{Machine}
use ceda_cemu.Cpu.Sample.{Processor, blank, memory, memory-Inv, board, z80, machine}
use ceda_cemu.Fifo.{Fifo, is_empty}
use ceda_cemu.Fifo.Refine.{IsValid}
use ceda_cemu.Tokenizer.Numbers.{no_error}
use ceda_cemu.Cli.State.{Cli, Host, Debugger}
use ceda_cemu.Cli.Lines.{cli_handle_incoming_data}
use ceda_cemu.Cli.Memory.{cli_write}
use ceda_cemu.Cli.Framing.{Sent, newline, return_newline, handle_all, cli_handle_incoming_data_lem}
use ceda_cemu.Cli.Flood.{prompts, eight_prompts_lost}
use ceda_cemu.Cli.Ends.{cli_write_ends}
use ceda_cemu.Cli.SaveLoad.{AllRam, save_load}
use ceda_cemu.Cli.Saving.{save_file, load_opened}
use ceda_cemu.Cli.Debugging.{bus_mem_readsome}

abbrev cli : Cli Processor ℕ
cli = record {
  quit = false;
  restart = false;
  tx_fifo = record { head = 0; tail = 0; buffer = replicate 8 [] };
  line = [];
  strings = 1;
  last_line = some [];
  prev_filename = none;
  prev_address = 0;
  errno = no_error;
  machine = machine;
  files = λ name. none;
}

abbrev host : Host
host = record {
  create = λ name. true;
  fwrite = λ n. n;
  closes = true;
  sockets = record { socket = some 3; setsockopt = true; bind = λ port. true; listen = true };
}

abbrev debugger : Debugger Processor
debugger = record {
  pc = λ p. p.0;
  registers = λ p. replicate 12 0;
  disassemble = λ octets at. (codes "nop", 1);
}

-- A processor that takes all the cycles that it is given.
abbrev z80_run : ℕ → Machine Processor ℕ → Outcome (Machine Processor ℕ × ℕ)
z80_run n m = ok (m, n)

abbrev feed : Cli Processor ℕ → List ℕ → Outcome (Cli Processor ℕ)
feed s buffer = cli_handle_incoming_data z80 debugger z80_run host s buffer

-- Two commands, the first with a carriage return.
abbrev two_lines : List Sent
two_lines =
    record { text = codes "pause"; ending = return_newline }
    ∷ record { text = codes "continue"; ending = newline }
    ∷ []

lines_example :
    feed cli (codes "pause" ++ 0x0d ∷ 0x0a ∷ codes "continue" ++ 0x0a ∷ [])
    ≡ handle_all z80 debugger z80_run host cli two_lines
lines_example =
    cli_handle_incoming_data_lem z80 debugger z80_run host two_lines cli
      (ground arith, omega arith, (ground arith, omega arith, _)) refl

cli-IsValid : IsValid cli.tx_fifo
cli-IsValid = record { head_in = omega arith; tail_in = omega arith }

-- Of the 32 strings 9 are in use behind it.
eight_prompts_lost_example :
    (t : Fifo (List ℕ)) × (feed cli (replicate 8 0x0a)
      ≡ ok (record cli { tx_fifo = t; strings = 9 }))
    × (t ≡ prompts 8 cli.tx_fifo)
    × (is_empty t ≡ true)
unfolding is_empty
eight_prompts_lost_example =
    eight_prompts_lost z80 debugger z80_run host cli refl refl cli-IsValid refl refl

cli_write_ends_example : cli_write cli (codes "write 4000 1 2 3") ≢ fault Fault.no_fuel
cli_write_ends_example = cli_write_ends cli (codes "write 4000 1 2 3")

-- The dynamic RAM is switched in.
abbrev ram : Cli Processor ℕ
ram = record cli {
  machine = record machine {
    board = record board { memory = record memory { is_mem_switched = true } };
  };
}

ram-AllRam : AllRam (record memory { is_mem_switched = true })
ram-AllRam = record { switched = refl; released = refl; size = memory-Inv.dynamic }

-- Saved from one machine, loaded in another whose octet at 0x4000 differs.
abbrev other : Cli Processor ℕ
other = record ram {
  machine = record machine {
    board = record board {
      memory = record memory { is_mem_switched = true; dynamic = set (blank 65536) 0x4000 7 };
    };
  };
}

other-AllRam :
    AllRam (record memory { is_mem_switched = true; dynamic = set (blank 65536) 0x4000 7 })
other-AllRam = record {
  switched = refl;
  released = refl;
  size = length-set (blank 65536) 0x4000 7 ∙ memory-Inv.dynamic;
}

save_load_example :
    (octets : List ℕ) × (bus_mem_readsome (record memory { is_mem_switched = true }) 0x4000 3
      ≡ ok octets)
    × (t : Cli Processor ℕ) × (save_file host ram (codes "dump") 0x4000 0x4003 ≡ ok (t, none))
    × (r : Cli Processor ℕ) × (load_opened z80 false other false (some []) (t.files (codes "dump"))
        ≡ ok (r, none))
    × (bus_mem_readsome r.machine.board.memory 0x4000 3 ≡ ok octets)
save_load_example =
    save_load z80 host ram other (codes "dump") 0x4000 0x4003 ram-AllRam other-AllRam refl
      (λ n. refl) refl (omega arith) (omega arith)
