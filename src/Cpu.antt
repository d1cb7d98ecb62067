-- ===== src/Cpu.antt =====
-- src/cpu.c, src/cpu.h: the processor's callbacks and the debugger's control over it.
pub mod Accesses
pub mod Stops
pub mod Sample
mod Tests
use ceda_cemu.Base.{ℕ, ◌+◌, ◌*◌, ◌/◌, ◌%◌, ◌^◌, Bool, true, false, not, List, if◌then◌else◌}
use ceda_cemu.Base.Outcome.{Outcome, ok, ◌>>=◌}
use ceda_cemu.Bus.{bus_mem_read, bus_mem_write}
use ceda_cemu.Floppy.{Units}
use ceda_cemu.Interrupts.{int_pop}
use ceda_cemu.Io.{Board, bus_io_in, bus_io_out}
use ceda_cemu.Monitor.{
  Monitors, check_breakpoint, check_read_watchpoint, check_write_watchpoint, check_in_watchpoint,
  check_out_watchpoint,
}

-- What cpu.c uses of the Z80 library, over its state `Z`: `z80_break`, `z80_power`, the fields
-- `hook` (whether it is `cpu_hook` or NULL) and `pc`, and the opcode `Z80_HOOK`. `z80_int` is the
-- line of `Interrupts`.
pub record Z80 (Z : Type 0) : Type 0 where
  pub break : Z → Z
  pub power : Bool → Z → Z
  pub set_hook : Bool → Z → Z
  pub set_pc : ℕ → Z → Z
  pub hook_opcode : ℕ

-- The static variables of cpu.c, and the rest of the machine that the callbacks reach. Times are in
-- microseconds.
pub record Machine (Z W : Type 0) : Type 0 where
  pub z80 : Z
  pub pause : Bool
  pub cycles : ℕ
  pub last_update : ℕ
  pub update_interval : ℕ
  pub monitors : Monitors
  pub board : Board Units W

abbrev pub cpu_chunk_cycles : ℕ
cpu_chunk_cycles = 4000

abbrev cpu_freq : ℕ
cpu_freq = 4000000

abbrev pub cpu_chunk_period : ℕ
cpu_chunk_period = cpu_chunk_cycles * 1000 * 1000 / cpu_freq

abbrev pub cpu_pause_period : ℕ
cpu_pause_period = 20000

module _ {Z W : Type 0} (lib : Z80 Z) where
  unfoldable pub cpu_pause : Bool → Machine Z W → Machine Z W
  cpu_pause enable m = record m {
    pause = enable;
    z80 = if not enable then lib.set_hook false m.z80 else m.z80;
    update_interval = if enable then cpu_pause_period else cpu_chunk_period;
  }

  -- `z80_break(&cpu); cpu_pause(true);`
  abbrev pub stop : Machine Z W → Machine Z W
  stop m = cpu_pause true (record m { z80 = lib.break m.z80 })

  -- The machine with the monitors of a check, stopped if there was a hit.
  abbrev pub checked : Machine Z W → Monitors × Bool → Machine Z W
  checked m (monitors, hit) = let n = record m { monitors = monitors } in if hit then stop n else n

  unfoldable pub cpu_fetch_opcode : Machine Z W → ℕ → Outcome (Machine Z W × ℕ)
  cpu_fetch_opcode m address = do
    (monitors, hit) ← check_breakpoint m.monitors address
    data_read ← if hit then ok lib.hook_opcode else bus_mem_read m.board.memory address
    ok (
      record m { monitors = monitors; z80 = if hit then lib.set_hook true m.z80 else m.z80 },
      data_read,
    )

  -- `cpu_mem_read`, also for `fetch`.
  unfoldable pub cpu_mem_read : Machine Z W → ℕ → Outcome (Machine Z W × ℕ)
  cpu_mem_read m address = do
    result ← check_read_watchpoint m.monitors address
    let n = checked m result
    value ← bus_mem_read n.board.memory address
    ok (n, value)

  unfoldable pub cpu_mem_write : Machine Z W → ℕ → ℕ → Outcome (Machine Z W)
  cpu_mem_write m address value = do
    result ← check_write_watchpoint m.monitors address value
    let n = checked m result
    memory ← bus_mem_write n.board.memory address value
    ok (record n { board = record n.board { memory = memory } })

  -- `(ceda_ioaddr_t)address` is its low octet.
  unfoldable pub cpu_io_in : Machine Z W → ℕ → Outcome (Machine Z W × ℕ)
  cpu_io_in m address = do
    result ← check_in_watchpoint m.monitors address
    let n = checked m result
    (board, value) ← bus_io_in n.board (address % 256)
    ok (record n { board = board }, value)

  unfoldable pub cpu_io_out : Machine Z W → ℕ → ℕ → Outcome (Machine Z W)
  cpu_io_out m address value = do
    result ← check_out_watchpoint m.monitors address value
    let n = checked m result
    board ← bus_io_out n.board (address % 256) value
    ok (record n { board = board })

  -- `cpu_int_read`, the acknowledge cycle.
  unfoldable pub cpu_int_read : Machine Z W → Outcome (Machine Z W × ℕ)
  cpu_int_read m = do
    (interrupts, byte) ← int_pop m.board.sio2.interrupts
    let sio2 = record m.board.sio2 { interrupts = interrupts }
    ok (record m { board = record m.board { sio2 = sio2 } }, byte)

  -- What the library calls behind the opcode `Z80_HOOK`.
  unfoldable pub cpu_hook : Machine Z W → Machine Z W × ℕ
  cpu_hook m = (stop m, lib.hook_opcode)

  unfoldable pub cpu_goto : Machine Z W → ℕ → Machine Z W
  cpu_goto m address = record m { z80 = lib.set_pc address m.z80 }

  unfoldable pub cpu_restart : Machine Z W → Machine Z W
  cpu_restart m = record m { z80 = lib.power true (lib.power false m.z80) }

  -- `z80_run` for as many cycles calls the callbacks; it returns the cycles that it took.
  module _ (z80_run : ℕ → Machine Z W → Outcome (Machine Z W × ℕ)) where
    unfoldable pub cpu_step : Machine Z W → Outcome (Machine Z W)
    cpu_step m = do (n, _) ← z80_run 1 (cpu_pause true m); ok n

    -- `now` is the host's clock.
    unfoldable pub cpu_poll : ℕ → Machine Z W → Outcome (Machine Z W)
    cpu_poll now m =
        let n = record m { last_update = now } in
        if m.pause then ok n else do
          (u, spent) ← z80_run cpu_chunk_cycles n
          ok (record u { cycles = (u.cycles + spent) % 2 ^ 64 })
