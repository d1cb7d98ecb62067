-- ===== src/Io/Tests.antt =====
-- The ports of a concrete machine.
use ceda_cemu.Base.{ℕ, ◌≡◌, inl, inr, refl, arith}
use ceda_cemu.Base.Outcome.{ok}
use ceda_cemu.Bus.{Memory, bus_mem_read, bus_mem_write, release_bios}
use ceda_cemu.Floppy.{Units}
use ceda_cemu.Io.{Board, bus_io_in, bus_io_out}
use ceda_cemu.Cpu.Sample.{memory, memory-Inv, board}
use ceda_cemu.Io.Safety.{port_reads, port_accepts}
use ceda_cemu.Io.Switching.{ram_everywhere}

-- The status port of the parallel interface.
port_reads_example :
    (b' : Board Units ℕ) × (value : ℕ) × (bus_io_in board 0x82 ≡ ok (b', value))
    × (b'.memory ≡ release_bios memory)
port_reads_example = port_reads board 0x82 (inl (omega arith))

-- A port that nothing answers to.
port_accepts_example :
    (b' : Board Units ℕ) × (bus_io_out board 0xf0 7 ≡ ok b')
    × (b'.sio2 ≡ board.sio2)
    × (b'.fdc ≡ board.fdc)
port_accepts_example =
    port_accepts board 0xf0 7 (inr (omega arith)) (inr (omega arith)) (omega arith)

-- The address of the BIOS.
ram_everywhere_example :
    (b' : Board Units ℕ) × (bus_io_out board 0x81 0x81 ≡ ok b')
    × (t : Memory) × (bus_mem_write b'.memory 0xc010 7 ≡ ok t)
    × (bus_mem_read t 0xc010 ≡ ok 7)
ram_everywhere_example = ram_everywhere board 0x81 0xc010 7 memory-Inv refl (omega arith)
