-- ===== src/Bus/Tests.antt =====
-- The memory map on a concrete machine.
use ceda_cemu.Base.{
  ℕ, ◌≡◌, refl, true, false, some, List, get_or, length, length-replicate, replicate, arith, inr,
}
use ceda_cemu.Base.Outcome.{ok}
use ceda_cemu.Bus.{Bank, Memory, bus_mem_read, bus_mem_write, bus_mem_switch}
use ceda_cemu.Bus.Windows.{Inv, write_then_read, bios_shadows}

-- Memory of `n` octets.
unfoldable blank : ℕ → List ℕ
blank n = replicate n 0

length-blank : (n : ℕ) → length (blank n) ≡ n
unfolding blank
length-blank n = length-replicate {A = ℕ} n 0

abbrev machine : Memory
machine = record {
  is_mem_switched = false;
  is_bios_rom_switched = false;
  bios = blank 4096;
  aux = blank 2048;
  dynamic = blank 65536;
  mem_char = blank 2048;
  mem_attr = blank 2048;
  mem = some Bank.char;
}

machine-Inv : Inv machine
machine-Inv = record {
  bios = length-blank 4096;
  aux = length-blank 2048;
  dynamic = length-blank 65536;
  chars = length-blank 2048;
  attrs = length-blank 2048;
  selected = ground arith;
}

write_then_read_example :
    (t : Memory) × (bus_mem_write machine 0xd123 7 ≡ ok t) × (bus_mem_read t 0xd123 ≡ ok 7) × Inv t
write_then_read_example =
    write_then_read machine 0xd123 7 machine-Inv refl (omega arith) (inr (inr (omega arith)))

bios_shadows_example :
    (t : Memory) × (bus_mem_write machine 0xc010 7 ≡ ok t)
    × (bus_mem_read t 0xc010 ≡ ok (get_or (blank 4096) 0x10 0))
    × (bus_mem_read (bus_mem_switch t true) 0xc010 ≡ ok 7)
bios_shadows_example =
    bios_shadows machine 0xc010 7 machine-Inv refl refl (omega arith) (omega arith)
