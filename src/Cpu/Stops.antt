-- ===== src/Cpu/Stops.antt =====
-- src/cpu.c, src/monitor.c: a breakpoint stops the processor, and it goes on from there.
use ceda_cemu.Base.{ℕ, ◌≡◌, refl, true, false}
use ceda_cemu.Base.Outcome.{ok}
use ceda_cemu.Bus.{bus_mem_read}
use ceda_cemu.Monitor.{Monitors, check_breakpoint}
use ceda_cemu.Monitor.Resume.{breakpoint_resumes}
use ceda_cemu.Cpu.{Z80, Machine, stop, cpu_pause, cpu_fetch_opcode, cpu_hook}

module _ {Z W : Type 0} (lib : Z80 Z) where
  -- If a breakpoint is hit at an address whose octet can be read, the fetch gives the library's
  -- hook opcode instead of the octet and arms the hook; the hook pauses the processor; when the
  -- debugger lets it go on, the hook is disarmed and the next fetch of the same address gives the
  -- octet. The monitors are then as before the stop, and the rest of the board was never changed.
  pub stop_and_resume :
      (m : Machine Z W) (t : Monitors) (address octet : ℕ)
      → check_breakpoint m.monitors address ≡ ok (t, true)
      → bus_mem_read m.board.memory address ≡ ok octet
      → (n : Machine Z W) × (cpu_fetch_opcode lib m address ≡ ok (n, lib.hook_opcode))
        × ((cpu_hook lib n).0.pause ≡ true)
        × (r : Machine Z W) × (cpu_fetch_opcode lib (cpu_pause lib false (cpu_hook lib n).0) address
            ≡ ok (r, octet))
        × (r.monitors ≡ m.monitors)
        × (r.pause ≡ false)
        × (r.z80 ≡ lib.set_hook false (lib.break (lib.set_hook true m.z80)))
        × (r.board ≡ m.board)
  unfolding cpu_fetch_opcode cpu_hook cpu_pause
  stop_and_resume m t address octet hit readable =
      let n = record m { monitors = t; z80 = lib.set_hook true m.z80 } in
      let again = breakpoint_resumes m.monitors t address hit in
      let r = record (cpu_pause lib false (stop lib n)) { monitors = m.monitors } in
      (n, rw hit refl, refl, r, rw (again, readable) refl, refl, refl, refl, refl)
