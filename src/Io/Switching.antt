-- ===== src/Io/Switching.antt =====
-- src/bus.c, src/upd8255.c: the guest switches the dynamic RAM in.
use ceda_cemu.Base.{
  ℕ, ◌<◌, ◌≡◌, ◌≢◌, refl, inl, bit_and, Bool, true, false, not, none, set, ◌==◌, arith,
}
use ceda_cemu.Base.Outcome.{ok}
use ceda_cemu.Bus.{Memory, bus_mem_read, bus_mem_write, bus_mem_switch, video_bank, release_bios}
use ceda_cemu.Bus.Windows.{Inv, write_then_read}
use ceda_cemu.Upd8255.{upd8255_out}
use ceda_cemu.Io.{Board, find_out, out_found, port_out, bus_io_out}

banked : (m : Memory) (attr_bank : Bool) → (video_bank m attr_bank).mem ≢ none
unfolding video_bank
banked m true e = cc
banked m false e = cc

module _ {D W : Type 0} where
  -- With well-formed memories, a write with the lowest bit set to the port at 0x81 switches the
  -- dynamic RAM in and the BIOS's override out: from then on an octet that is written to any 16-bit
  -- address is read back from it.
  pub ram_everywhere :
      (b : Board D W) (value address octet : ℕ)
      → Inv b.memory
      → bit_and value 1 ≡ 1
      → address < 65536
      → (b' : Board D W) × (bus_io_out b 0x81 value ≡ ok b')
        × (t : Memory) × (bus_mem_write b'.memory address octet ≡ ok t)
        × (bus_mem_read t address ≡ ok octet)
  unfolding bus_io_out find_out out_found port_out upd8255_out release_bios bus_mem_switch
      video_bank
  ram_everywhere b value address octet v odd h =
      let m = bus_mem_switch (release_bios b.memory) (not (bit_and value 1 == 0)) in
      let n = video_bank m (not (bit_and value 0x80 == 0)) in
      let b' : Board D W = record b { memory = n; port = set b.port 1 value } in
      let w : Inv n = record {
        bios = v.bios;
        aux = v.aux;
        dynamic = v.dynamic;
        chars = v.chars;
        attrs = v.attrs;
        selected = banked m (not (bit_and value 0x80 == 0));
      } in
      let on : n.is_mem_switched ≡ true = ground arith in
      let (t, written, read, kept) = write_then_read n address octet w refl h (inl on) in
      (b', refl, t, written, read)
