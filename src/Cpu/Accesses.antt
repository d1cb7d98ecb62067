-- ===== src/Cpu/Accesses.antt =====
-- src/cpu.c, src/monitor.c, src/bus.c: a watched access is made, and pauses the processor.
use ceda_cemu.Base.{ℕ, ◌≡◌, ◌↔◌, ◌⊎◌, inl, inr, refl, Bool, true, false, some, arith}
use ceda_cemu.Base.Outcome.{ok}
use ceda_cemu.Bus.{Memory, bus_mem_write}
use ceda_cemu.Monitor.{Kind, accepts_value, check_write_watchpoint, strip}
use ceda_cemu.Monitor.Slots as Slots
use ceda_cemu.Monitor.Hits.{Watched, watchpoint_hits}
use ceda_cemu.Cpu.{Z80, Machine, stop, cpu_pause, cpu_mem_write}

module _ {Z W : Type 0} (lib : Z80 Z) where
  write_checked :
      (m : Machine Z W) (hit : Bool) (t : Memory) (address value : ℕ)
      → check_write_watchpoint m.monitors address value ≡ ok (m.monitors, hit)
      → bus_mem_write m.board.memory address value ≡ ok t
      → (n : Machine Z W) × (cpu_mem_write lib m address value ≡ ok n)
        × (n.board ≡ record m.board { memory = t })
        × (n.monitors ≡ m.monitors)
        × ((n.pause ≡ true) ↔ ((m.pause ≡ true) ⊎ (hit ≡ true)))
  unfolding cpu_mem_write cpu_pause
  write_checked m true t address value e written = (
    record (stop lib m) { board = record m.board { memory = t } },
    rw (e, written) refl,
    refl,
    refl,
    (λ p. inr refl, λ p. refl),
  )
  write_checked m false t address value e written = (
    record m { board = record m.board { memory = t } },
    rw (e, written) refl,
    refl,
    refl,
    (λ p. inl p, λ p. ground arith),
  )

  -- With well-formed monitors, a write of the processor that the memory accepts is always made,
  -- watched or not, and changes nothing else of the board and no monitor; the processor is paused
  -- afterwards exactly if it was before or a watchpoint watches this address and value.
  pub cpu_mem_write_lem :
      (m : Machine Z W) (t : Memory) (address value : ℕ)
      → Slots.Inv m.monitors
      → bus_mem_write m.board.memory address value ≡ ok t
      → (n : Machine Z W) × (cpu_mem_write lib m address value ≡ ok n)
        × (n.board ≡ record m.board { memory = t })
        × (n.monitors ≡ m.monitors)
        × ((n.pause ≡ true)
            ↔ ((m.pause ≡ true) ⊎ Watched m.monitors.monitors Kind.write_mem address (some value)))
  unfolding check_write_watchpoint strip accepts_value
  cpu_mem_write_lem m t address value v written =
      let (hit, e, w) =
        watchpoint_hits m.monitors Kind.write_mem address (some value) v refl refl in
      let (n, done, board, monitors, p) = write_checked m hit t address value e written in
      (
        n,
        done,
        board,
        monitors,
        (
          λ q. elim (p.0 q) [ inl paused ↦ inl paused | inr stopped ↦ inr (w.0 stopped) ],
          λ q. p.1 (elim q [ inl paused ↦ inl paused | inr watched ↦ inr (w.1 watched) ]),
        ),
      )
