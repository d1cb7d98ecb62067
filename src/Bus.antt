-- ===== src/Bus.antt =====
-- src/bus.c, src/ram/auxram.c, src/ram/dynamic.c, and the memories of src/bios.c and src/video.c:
-- what the processor finds in its 64 KiB of addresses.
pub mod Windows
mod Tests
use ceda_cemu.Base.{
  ℕ, ◌+◌, ◌-◌, ◌%◌, ◌^◌, bit_and, Bool, true, false, not, ◌&&◌, Option, none, some, List, [], ◌∷◌,
  ◌==◌, ltb, leb, if◌then◌else◌, get_or, set, length, replicate,
}
use ceda_cemu.Base.Outcome.{Fault, Outcome, ok, fault, ◌>>=◌, ◌>>◌, check}

-- `bus_mem_read_t` and `bus_mem_write_t`, by the functions that the slots point to.
pub data Device : Type 0 where
  auxram rom_bios video_ram : Device

-- The video memory that `mem` points to.
pub data Bank : Type 0 where
  char attr : Bank

-- `struct bus_mem_slot`; `none` is NULL.
pub record MemSlot : Type 0 where
  pub base : ℕ
  pub top : ℕ
  pub read : Option Device
  pub write : Option Device

-- The static variables of the files.
pub record Memory : Type 0 where
  pub is_mem_switched : Bool
  pub is_bios_rom_switched : Bool
  pub bios : List ℕ
  pub aux : List ℕ
  pub dynamic : List ℕ
  pub mem_char : List ℕ
  pub mem_attr : List ℕ
  pub mem : Option Bank

-- AUXRAM_SIZE
abbrev auxram_size : ℕ
auxram_size = 2048

-- VIDEO_CHAR_MEM_SIZE
abbrev video_char_mem_size : ℕ
video_char_mem_size = 2048

abbrev slot : ℕ → ℕ → Option Device → Option Device → MemSlot
slot base top read write = record { base = base; top = top; read = read; write = write }

unfoldable pub bus_mem_slots : List MemSlot
bus_mem_slots =
    slot 0xb000 0xb800 (some Device.auxram) (some Device.auxram)
    ∷ slot 0xb800 0xc000 (some Device.auxram) (some Device.auxram)
    ∷ slot 0xc000 0xd000 (some Device.rom_bios) none
    ∷ slot 0xd000 0xd800 (some Device.video_ram) (some Device.video_ram)
    ∷ slot 0xd800 0xe000 (some Device.video_ram) (some Device.video_ram)
    ∷ []

-- An array access; behind the array there is nothing to read or write.
abbrev load : List ℕ → ℕ → Outcome ℕ
load array i = do check (ltb i (length array)) Fault.out_of_bounds; ok (get_or array i 0)

abbrev store : List ℕ → ℕ → ℕ → Outcome (List ℕ)
store array i value = do check (ltb i (length array)) Fault.out_of_bounds; ok (set array i value)

unfoldable pub video_ram_read : Memory → Option Bank → ℕ → Outcome ℕ
video_ram_read s none address = fault Fault.null_pointer
video_ram_read s (some Bank.char) address = load s.mem_char address
video_ram_read s (some Bank.attr) address = load s.mem_attr address

unfoldable pub video_ram_write : Memory → Option Bank → ℕ → ℕ → Outcome Memory
video_ram_write s none address value = fault Fault.null_pointer
video_ram_write s (some Bank.char) address value = do
  mem_char ← store s.mem_char address value
  ok (record s { mem_char = mem_char })
video_ram_write s (some Bank.attr) address value = do
  mem_attr ← store s.mem_attr address value
  ok (record s { mem_attr = mem_attr })

-- `slot->read(address - slot->base)`
unfoldable pub read_device : Memory → Device → ℕ → Outcome ℕ
read_device s Device.auxram address = load s.aux (address % auxram_size)
read_device s Device.rom_bios address = load s.bios address
read_device s Device.video_ram address = do
  check (ltb address video_char_mem_size) Fault.assertion
  video_ram_read s s.mem address

-- `slot->write(address - slot->base, value)`; the BIOS has no write function.
unfoldable pub write_device : Memory → Device → ℕ → ℕ → Outcome Memory
write_device s Device.auxram address value = do
  aux ← store s.aux (address % auxram_size) value
  ok (record s { aux = aux })
write_device s Device.rom_bios address value = fault Fault.null_pointer
write_device s Device.video_ram address value = do
  check (ltb address video_char_mem_size) Fault.assertion
  video_ram_write s s.mem address value

abbrev hits : MemSlot → ℕ → Bool
hits m address = leb m.base address && ltb address m.top

-- The device and its own address, if the slot is hit and has the function.
abbrev target : Bool → MemSlot → Option Device → ℕ → Option (Device × ℕ) → Option (Device × ℕ)
target hit m none address rest = rest
target hit m (some d) address rest = if hit then some (d, address - m.base) else rest

-- The loops of `bus_mem_read` and `bus_mem_write`.
unfoldable pub find_read : List MemSlot → ℕ → Option (Device × ℕ)
find_read [] address = none
find_read (m ∷ ms) address = target (hits m address) m m.read address (find_read ms address)

unfoldable pub find_write : List MemSlot → ℕ → Option (Device × ℕ)
find_write [] address = none
find_write (m ∷ ms) address = target (hits m address) m m.write address (find_write ms address)

unfoldable pub read_found : Memory → Option (Device × ℕ) → ℕ → Outcome ℕ
read_found s none address = load s.dynamic address
read_found s (some (d, own)) address = read_device s d own

unfoldable pub write_found : Memory → Option (Device × ℕ) → ℕ → ℕ → Outcome Memory
write_found s none address value = do
  dynamic ← store s.dynamic address value
  ok (record s { dynamic = dynamic })
write_found s (some (d, own)) address value = write_device s d own value

unfoldable pub bus_mem_read : Memory → ℕ → Outcome ℕ
bus_mem_read s address =
    let found = if s.is_mem_switched then none else find_read bus_mem_slots address in
    if s.is_bios_rom_switched
    then load s.bios (bit_and address 0xfff)
    else read_found s found address

unfoldable pub bus_mem_write : Memory → ℕ → ℕ → Outcome Memory
bus_mem_write s address value =
    let found = if s.is_mem_switched then none else find_write bus_mem_slots address in
    if s.is_bios_rom_switched then ok s else write_found s found address value

-- What `bus_io_in` and `bus_io_out` do to the memory, whatever port they are for.
unfoldable pub release_bios : Memory → Memory
release_bios s = record s { is_bios_rom_switched = false }

unfoldable pub bus_restart : Memory → Memory
bus_restart s = record s { is_mem_switched = false; is_bios_rom_switched = true }

unfoldable pub bus_mem_switch : Memory → Bool → Memory
bus_mem_switch s switched = record s { is_mem_switched = switched }

unfoldable pub video_bank : Memory → Bool → Memory
video_bank s attr_bank = record s { mem = if attr_bank then some Bank.attr else some Bank.char }
