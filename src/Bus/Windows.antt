-- ===== src/Bus/Windows.antt =====
-- Reading and writing the processor's addresses.
use ceda_cemu.Base.{
  ℕ, ◌-◌, ◌%◌, ◌≤◌, ◌<◌, ◌≡◌, ◌≢◌, ◌⊎◌, inl, inr, refl, true, false, Option, none, some, get_or,
  set, length, length-set, get_or-set_self, arith, Bool-cases,
}
use ceda_cemu.Base.Bits.{and-low}
use ceda_cemu.Base.Outcome.{ok}
use ceda_cemu.Bus.{
  Device, Bank, Memory, bus_mem_slots, video_ram_read, video_ram_write, read_device, write_device,
  find_read, find_write, read_found, write_found, bus_mem_read, bus_mem_write, bus_mem_switch,
  bus_restart,
}

-- The sizes of the memories, and a selected video bank.
pub record Inv (s : Memory) : Type 0 where
  pub bios : length s.bios ≡ 4096
  pub aux : length s.aux ≡ 2048
  pub dynamic : length s.dynamic ≡ 65536
  pub chars : length s.mem_char ≡ 2048
  pub attrs : length s.mem_attr ≡ 2048
  pub selected : s.mem ≢ none

-- A place that an access of a 16-bit address can lead to, other than the BIOS.
abbrev Writable : Option (Device × ℕ) → ℕ → Type 0
Writable none address = address < 65536
Writable (some (Device.auxram, own)) address = Unit
Writable (some (Device.rom_bios, own)) address = ⊥
Writable (some (Device.video_ram, own)) address = own < 2048

-- What a write leaves: the value at its place, the switches, and the invariant.
record Written (s t : Memory) (found : Option (Device × ℕ)) (address value : ℕ) : Type 0 where
  reads : read_found t found address ≡ ok value
  switched : t.is_mem_switched ≡ s.is_mem_switched
  released : t.is_bios_rom_switched ≡ s.is_bios_rom_switched
  inv : Inv t

video-Written :
    (s : Memory) (bank : Option Bank) (own address value : ℕ)
    → Inv s
    → s.mem ≡ bank
    → own < 2048
    → (t : Memory) × (write_found s (some (Device.video_ram, own)) address value ≡ ok t)
      × Written s t (some (Device.video_ram, own)) address value
unfolding write_found read_found write_device read_device video_ram_write video_ram_read
video-Written s none own address value v e h = absurd (v.selected e)
video-Written s (some Bank.char) own address value v e h =
    let t : Memory = record s { mem_char = set s.mem_char own value } in
    let n = length-set s.mem_char own value in
    (
      t,
      ground (arith, v),
      record {
        reads = ground (arith, v, n, get_or-set_self s.mem_char own value 0);
        switched = refl;
        released = refl;
        inv = record {
          bios = v.bios;
          aux = v.aux;
          dynamic = v.dynamic;
          chars = omega (arith, n, v.chars);
          attrs = v.attrs;
          selected = v.selected;
        };
      },
    )
video-Written s (some Bank.attr) own address value v e h =
    let t : Memory = record s { mem_attr = set s.mem_attr own value } in
    let n = length-set s.mem_attr own value in
    (
      t,
      ground (arith, v),
      record {
        reads = ground (arith, v, n, get_or-set_self s.mem_attr own value 0);
        switched = refl;
        released = refl;
        inv = record {
          bios = v.bios;
          aux = v.aux;
          dynamic = v.dynamic;
          chars = v.chars;
          attrs = omega (arith, n, v.attrs);
          selected = v.selected;
        };
      },
    )

found-Written :
    (s : Memory) (found : Option (Device × ℕ)) (address value : ℕ)
    → Inv s
    → Writable found address
    → (t : Memory) × (write_found s found address value ≡ ok t) × Written s t found address value
unfolding write_found read_found write_device read_device
found-Written s none address value v h =
    let n = length-set s.dynamic address value in
    (
      record s { dynamic = set s.dynamic address value },
      ground (arith, v),
      record {
        reads = ground (arith, v, n, get_or-set_self s.dynamic address value 0);
        switched = refl;
        released = refl;
        inv = record {
          bios = v.bios;
          aux = v.aux;
          dynamic = omega (arith, n, v.dynamic);
          chars = v.chars;
          attrs = v.attrs;
          selected = v.selected;
        };
      },
    )
found-Written s (some (Device.auxram, own)) address value v h =
    let at = own % 2048 in
    let n = length-set s.aux at value in
    (
      record s { aux = set s.aux at value },
      ground (arith, v),
      record {
        reads = ground (arith, v, n, get_or-set_self s.aux at value 0);
        switched = refl;
        released = refl;
        inv = record {
          bios = v.bios;
          aux = omega (arith, n, v.aux);
          dynamic = v.dynamic;
          chars = v.chars;
          attrs = v.attrs;
          selected = v.selected;
        };
      },
    )
found-Written s (some (Device.rom_bios, own)) address value v h = absurd h
found-Written s (some (Device.video_ram, own)) address value v h =
    video-Written s s.mem own address value v refl h

-- Outside the BIOS window both loops find the same place, which can be written.
decoded :
    (address : ℕ)
    → address < 65536
    → (address < 0xc000) ⊎ (0xd000 ≤ address)
    → (find_write bus_mem_slots address ≡ find_read bus_mem_slots address)
      × Writable (find_read bus_mem_slots address) address
unfolding bus_mem_slots find_read find_write
decoded address h w = (ground arith, ground arith)

-- In the BIOS window only reads are decoded.
bios_window :
    (address : ℕ)
    → 0xc000 ≤ address
    → address < 0xd000
    → (find_write bus_mem_slots address ≡ none)
      × (find_read bus_mem_slots address ≡ some (Device.rom_bios, address - 0xc000))
unfolding bus_mem_slots find_read find_write
bios_window address a b = ground arith

-- On well-formed memories with the BIOS override released, a write to a 16-bit address is read back
-- from it, if the dynamic RAM is switched in or the address lies outside the BIOS window; the
-- memories stay well formed.
pub write_then_read :
    (s : Memory) (address value : ℕ)
    → Inv s
    → s.is_bios_rom_switched ≡ false
    → address < 65536
    → (s.is_mem_switched ≡ true) ⊎ (address < 0xc000) ⊎ (0xd000 ≤ address)
    → (t : Memory) × (bus_mem_write s address value ≡ ok t)
      × (bus_mem_read t address ≡ ok value)
      × Inv t
unfolding bus_mem_write bus_mem_read
write_then_read s address value v r h w = elim (Bool-cases s.is_mem_switched) [
  | inl on ↦
      let (t, e, k) = found-Written s none address value v h in
      (t, ground (arith, e), ground (arith, k), k.inv)
  | inr off ↦
      let windows : (address < 0xc000) ⊎ (0xd000 ≤ address) = ground arith in
      let (same, place) = decoded address h windows in
      let (t, e, k) = found-Written s (find_read bus_mem_slots address) address value v place in
      (t, ground (arith, e, same), ground (arith, k), k.inv)
]

-- On well-formed memories with the BIOS override released and the dynamic RAM not switched in, a
-- write in the BIOS window goes to the dynamic RAM beneath: the processor goes on to read the BIOS
-- there, and finds the value when it switches the dynamic RAM in.
pub bios_shadows :
    (s : Memory) (address value : ℕ)
    → Inv s
    → s.is_bios_rom_switched ≡ false
    → s.is_mem_switched ≡ false
    → 0xc000 ≤ address
    → address < 0xd000
    → (t : Memory) × (bus_mem_write s address value ≡ ok t)
      × (bus_mem_read t address ≡ ok (get_or s.bios (address - 0xc000) 0))
      × (bus_mem_read (bus_mem_switch t true) address ≡ ok value)
unfolding bus_mem_write bus_mem_read bus_mem_switch write_found read_found read_device
bios_shadows s address value v r m a b =
    let (at, bt) = bios_window address a b in
    let n = length-set s.dynamic address value in
    (
      record s { dynamic = set s.dynamic address value },
      ground (arith, v, at),
      ground (arith, v, bt),
      ground (arith, v, n, get_or-set_self s.dynamic address value 0),
    )

-- After a restart of the bus with well-formed memories the processor reads the BIOS at every
-- address, repeated every 4 KiB, and its writes change nothing.
pub bios_overrides :
    (s : Memory) (address value : ℕ)
    → Inv s
    → let t = bus_restart s in
      (bus_mem_read t address ≡ ok (get_or s.bios (address % 4096) 0))
      × (bus_mem_write t address value ≡ ok t)
unfolding bus_restart bus_mem_read bus_mem_write
bios_overrides s address value v = (ground (arith, v, and-low address), refl)
