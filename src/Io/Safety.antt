-- ===== src/Io/Safety.antt =====
-- src/bus.c: the ports that the guest can read and write at any time.
use ceda_cemu.Base.{
  ℕ, ◌≤◌, ◌<◌, ◌≡◌, ◌≢◌, ◌⊎◌, refl, Bool, false, Option, none, some, List, ◌+◌, arith,
}
use ceda_cemu.Base.Outcome.{Outcome, ok, IsOk, value_of}
use ceda_cemu.Bus.{Memory, release_bios}
use ceda_cemu.Crtc.{Crtc, crtc_out}
use ceda_cemu.Sio2.{Sio2, sio2_in}
use ceda_cemu.Serial.{Devices}
use ceda_cemu.Fdc.Ports.{fdc_get_int_status}
use ceda_cemu.Ubus.{ubus_io_in, ubus_io_out}
use ceda_cemu.Upd8255.{upd8255_in, upd8255_out}
use ceda_cemu.Io.{
  Board, Port, bus_io_slots, find_in, find_out, port_in, port_out, in_found, out_found, released,
  bus_io_in, bus_io_out,
}

sio2_reads : (s : Sio2 Devices) (own : ℕ) → own < 4 → IsOk (sio2_in s own)
unfolding sio2_in
sio2_reads s own h = ground arith

upd8255_reads :
    (port : List ℕ) (frame_sync int_status : Bool) (own : ℕ)
    → own < 4
    → IsOk (upd8255_in port frame_sync int_status own)
unfolding upd8255_in
upd8255_reads port frame_sync int_status own h = ground arith

-- What a port of the table other than the disk controller's can be.
abbrev Answers : Option (Port × ℕ) → Type 0
Answers none = Unit
Answers (some (Port.parallel, own)) = own < 4
Answers (some (Port.controller, own)) = Unit
Answers (some (Port.serial, own)) = own < 4
Answers (some (Port.disk, own)) = ⊥
Answers (some (Port.speaker, own)) = Unit
Answers (some (Port.disk_tc, own)) = ⊥
Answers (some (Port.clock, own)) = Unit

answering :
    (address : ℕ) → (address < 0xc0) ⊎ (0xc2 ≤ address) → Answers (find_in bus_io_slots address)
unfolding find_in
answering address h = ground arith

-- What a port of the table other than the serial and the disk controller's can be, written to.
abbrev Accepts : Option (Port × ℕ) → Type 0
Accepts none = Unit
Accepts (some (Port.parallel, own)) = own < 4
Accepts (some (Port.controller, own)) = own < 2
Accepts (some (Port.serial, own)) = ⊥
Accepts (some (Port.disk, own)) = ⊥
Accepts (some (Port.speaker, own)) = Unit
Accepts (some (Port.disk_tc, own)) = ⊥
Accepts (some (Port.clock, own)) = Unit

accepting :
    (address : ℕ)
    → (address < 0xb0) ⊎ (0xb4 ≤ address)
    → (address < 0xc0) ⊎ (0xc2 ≤ address)
    → address ≢ 0xdc
    → Accepts (find_out bus_io_slots address)
unfolding find_out
accepting address h k n = ground arith

upd8255_accepts :
    (port : List ℕ) (memory : Memory) (own value : ℕ)
    → own < 4
    → IsOk (upd8255_out port memory own value)
unfolding upd8255_out
upd8255_accepts port memory own value h = ground arith

crtc_accepts : (crtc : Crtc) (own value : ℕ) → own < 2 → IsOk (crtc_out crtc own value)
unfolding crtc_out
crtc_accepts crtc own value h = ground arith

module _ {D W : Type 0} where
  -- The access ends with a value, and the memory only loses the BIOS's override.
  abbrev Reads : Board D W → Outcome (Board D W × ℕ) → Type 0
  Reads b outcome =
      (b' : Board D W) × (value : ℕ) × (outcome ≡ ok (b', value))
      × (b'.memory ≡ release_bios b.memory)

  parallel-Reads :
      (b : Board D W) (own : ℕ) → own < 4 → Reads b (port_in (released b) Port.parallel own)
  unfolding port_in
  parallel-Reads b own h =
      let status = fdc_get_int_status b.fdc in
      let (value, e) =
        value_of (upd8255_in b.port b.frame_sync status own)
          (upd8255_reads b.port b.frame_sync status own h) in
      (released b, value, rw e refl, refl)

  serial-Reads :
      (b : Board D W) (own : ℕ) → own < 4 → Reads b (port_in (released b) Port.serial own)
  unfolding port_in
  serial-Reads b own h =
      let ((sio2, value), e) = value_of (sio2_in b.sio2 own) (sio2_reads b.sio2 own h) in
      (record (released b) { sio2 = sio2 }, value, rw e refl, refl)

  ubus-Reads : (b : Board D W) (address : ℕ) → Reads b (in_found (released b) none address)
  unfolding in_found
  ubus-Reads b address =
      let (peripherals, value) = ubus_io_in b.ubus_slots address b.peripherals in
      (record (released b) { peripherals = peripherals }, value, refl, refl)

  found-Reads :
      (b : Board D W) (found : Option (Port × ℕ)) (address : ℕ)
      → Answers found
      → Reads b (in_found (released b) found address)
  found-Reads b none address h = ubus-Reads b address
  found-Reads b (some (Port.parallel, own)) address h = unfold in_found in parallel-Reads b own h
  found-Reads b (some (Port.controller, own)) address h =
      unfold in_found port_in in (record (released b) { frame_sync = false }, 0, refl, refl)
  found-Reads b (some (Port.serial, own)) address h = unfold in_found in serial-Reads b own h
  found-Reads b (some (Port.disk, own)) address h = absurd h
  found-Reads b (some (Port.speaker, own)) address h =
      unfold in_found port_in in (record (released b) { beeps = b.beeps + 1 }, 0, refl, refl)
  found-Reads b (some (Port.disk_tc, own)) address h = absurd h
  found-Reads b (some (Port.clock, own)) address h =
      unfold in_found port_in in (released b, 0, refl, refl)

  -- A read of any port other than the disk controller's two ends with a value, and the memory only
  -- loses the BIOS's override of the addresses.
  pub port_reads :
      (b : Board D W) (address : ℕ)
      → (address < 0xc0) ⊎ (0xc2 ≤ address)
      → (b' : Board D W) × (value : ℕ) × (bus_io_in b address ≡ ok (b', value))
        × (b'.memory ≡ release_bios b.memory)
  unfolding bus_io_in
  port_reads b address h =
      found-Reads b (find_in bus_io_slots address) address (answering address h)

  found-Accepts :
      (b : Board D W) (found : Option (Port × ℕ)) (address value : ℕ)
      → Accepts found
      → (b' : Board D W) × (out_found (released b) found address value ≡ ok b')
        × (b'.sio2 ≡ b.sio2)
        × (b'.fdc ≡ b.fdc)
  unfolding out_found port_out
  found-Accepts b none address value h =
      let w = ubus_io_out b.ubus_slots address value b.peripherals in
      (record (released b) { peripherals = w }, refl, refl, refl)
  found-Accepts b (some (Port.parallel, own)) address value h =
      let ((port, memory), e) =
        value_of (upd8255_out b.port (release_bios b.memory) own value)
          (upd8255_accepts b.port (release_bios b.memory) own value h) in
      (record (released b) { port = port; memory = memory }, rw e refl, refl, refl)
  found-Accepts b (some (Port.controller, own)) address value h =
      let (crtc, e) = value_of (crtc_out b.crtc own value) (crtc_accepts b.crtc own value h) in
      (record (released b) { crtc = crtc }, rw e refl, refl, refl)
  found-Accepts b (some (Port.serial, own)) address value h = absurd h
  found-Accepts b (some (Port.disk, own)) address value h = absurd h
  found-Accepts b (some (Port.speaker, own)) address value h =
      (record (released b) { beeps = b.beeps + 1 }, refl, refl, refl)
  found-Accepts b (some (Port.disk_tc, own)) address value h = absurd h
  found-Accepts b (some (Port.clock, own)) address value h = (released b, refl, refl, refl)

  -- A write of any value to a port other than those of the serial and the disk controller does not
  -- end the program, and leaves both controllers alone.
  pub port_accepts :
      (b : Board D W) (address value : ℕ)
      → (address < 0xb0) ⊎ (0xb4 ≤ address)
      → (address < 0xc0) ⊎ (0xc2 ≤ address)
      → address ≢ 0xdc
      → (b' : Board D W) × (bus_io_out b address value ≡ ok b')
        × (b'.sio2 ≡ b.sio2)
        × (b'.fdc ≡ b.fdc)
  unfolding bus_io_out
  port_accepts b address value h k n =
      found-Accepts b (find_out bus_io_slots address) address value (accepting address h k n)
