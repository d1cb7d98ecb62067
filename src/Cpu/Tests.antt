-- ===== src/Cpu/Tests.antt =====
-- The processor's callbacks on a concrete machine.
use ceda_cemu.Base.{ℕ, ◌≡◌, ◌↔◌, ◌⊎◌, refl, true, false, some, ◌∷◌, replicate, get_or, set}
use ceda_cemu.Base.Outcome.{ok}
use ceda_cemu.Bus.{
  Memory, bus_mem_read, read_found, bus_mem_write, bus_mem_slots, find_read, find_write,
  write_found,
}
use ceda_cemu.Monitor.{
  Kind, Monitors, no_monitor, check_breakpoint, monitor_check, accepts_value, check_from, triggers,
  differs, strip,
}
use ceda_cemu.Monitor.Slots as Slots
use ceda_cemu.Monitor.Hits.{Watched}
use ceda_cemu.Cpu.{Machine, cpu_fetch_opcode, cpu_mem_write, cpu_hook, cpu_pause}
use ceda_cemu.Cpu.Sample.{blank, memory, z80, machine, Processor}
use ceda_cemu.Cpu.Stops.{stop_and_resume}
use ceda_cemu.Cpu.Accesses.{cpu_mem_write_lem}

-- A breakpoint at 0x100, and a watchpoint on writes of 7 at 0x5000.
abbrev watched : Monitors
watched = record {
  monitors =
      record {
        valid = true;
        kind = Kind.exec;
        address = 0x100;
        bind_value = false;
        value = 0;
        skip = false;
      }
      ∷ record {
        valid = true;
        kind = Kind.write_mem;
        address = 0x5000;
        bind_value = true;
        value = 7;
        skip = false;
      }
      ∷ replicate 6 no_monitor;
  valid_breakpoints = 2;
}

abbrev halted : Monitors
halted = record watched {
  monitors =
      record {
        valid = true;
        kind = Kind.exec;
        address = 0x100;
        bind_value = false;
        value = 0;
        skip = true;
      }
      ∷ record {
        valid = true;
        kind = Kind.write_mem;
        address = 0x5000;
        bind_value = true;
        value = 7;
        skip = false;
      }
      ∷ replicate 6 no_monitor;
}

abbrev debugged : Machine Processor ℕ
debugged = record machine { monitors = watched }

hits : check_breakpoint watched 0x100 ≡ ok (halted, true)
unfolding check_breakpoint monitor_check check_from triggers differs strip accepts_value
hits = refl

readable : bus_mem_read memory 0x100 ≡ ok (get_or (blank 65536) 0x100 0)
unfolding bus_mem_read find_read read_found bus_mem_slots blank
readable = refl

stop_and_resume_example :
    (n : Machine Processor ℕ) × (cpu_fetch_opcode z80 debugged 0x100 ≡ ok (n, 0x64))
    × ((cpu_hook z80 n).0.pause ≡ true)
    × (r : Machine Processor ℕ) × (cpu_fetch_opcode z80
          (cpu_pause z80 false (cpu_hook z80 n).0)
          0x100
        ≡ ok (r, get_or (blank 65536) 0x100 0))
    × (r.monitors ≡ watched)
    × (r.pause ≡ false)
    × (r.z80 ≡ (0, false))
    × (r.board ≡ machine.board)
stop_and_resume_example =
    stop_and_resume z80 debugged halted 0x100 (get_or (blank 65536) 0x100 0) hits readable

watched-Inv : Slots.Inv watched
watched-Inv = record { slots = refl; counted = refl }

abbrev written : Memory
written = record memory { dynamic = set (blank 65536) 0x5000 7 }

writable : bus_mem_write memory 0x5000 7 ≡ ok written
unfolding bus_mem_write find_write write_found bus_mem_slots blank
writable = refl

cpu_mem_write_example :
    (n : Machine Processor ℕ) × (cpu_mem_write z80 debugged 0x5000 7 ≡ ok n)
    × (n.board ≡ record machine.board { memory = written })
    × (n.monitors ≡ watched)
    × ((n.pause ≡ true)
        ↔ ((false ≡ true) ⊎ Watched watched.monitors Kind.write_mem 0x5000 (some 7)))
cpu_mem_write_example = cpu_mem_write_lem z80 debugged written 0x5000 7 watched-Inv writable
