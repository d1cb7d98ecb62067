-- ===== src/Io.antt =====
-- src/bus.c: the I/O ports, with src/speaker.c, src/timer.c and the frame flag of src/video.c.
pub mod Safety
pub mod Switching
mod Tests
use ceda_cemu.Base.{
  ℕ, ◌+◌, ◌-◌, ◌&&◌, Bool, true, false, Option, none, some, List, [], ◌∷◌, ltb, leb, if◌then◌else◌,
}
use ceda_cemu.Base.Outcome.{Fault, Outcome, ok, fault, ◌>>=◌}
use ceda_cemu.Bus.{Memory, release_bios}
use ceda_cemu.Crtc.{Crtc, crtc_out}
use ceda_cemu.Fdc.State.{Fdc}
use ceda_cemu.Fdc.Ports.{fdc_in, fdc_out, fdc_tc_out, fdc_get_int_status}
use ceda_cemu.Serial.{Devices}
use ceda_cemu.Sio2.{Sio2, sio2_in, sio2_out}
use ceda_cemu.Ubus.{Slot, ubus_io_in, ubus_io_out}
use ceda_cemu.Upd8255.{upd8255_in, upd8255_out}

-- The state of everything that the I/O ports reach: `D` is that of the disk drives, `W` that of the
-- peripherals on the expansion bus. `beeps` counts the calls of `speaker_trigger`.
pub record Board (D W : Type 0) : Type 0 where
  pub memory : Memory
  pub port : List ℕ
  pub crtc : Crtc
  pub frame_sync : Bool
  pub sio2 : Sio2 Devices
  pub fdc : Fdc D
  pub beeps : ℕ
  pub ubus_slots : List (Slot W)
  pub peripherals : W

-- `bus_io_read_t` and `bus_io_write_t`, by the functions that the slots point to.
pub data Port : Type 0 where
  parallel controller serial disk speaker disk_tc clock : Port

-- `struct bus_io_slot`; `none` is NULL.
pub record IoSlot : Type 0 where
  pub base : ℕ
  pub top : ℕ
  pub input : Option Port
  pub output : Option Port

abbrev slot : ℕ → ℕ → Option Port → Option Port → IoSlot
slot base top input output = record { base = base; top = top; input = input; output = output }

abbrev pub bus_io_slots : List IoSlot
bus_io_slots =
    slot 0x80 0x84 (some Port.parallel) (some Port.parallel)
    ∷ slot 0xa0 0xa2 (some Port.controller) (some Port.controller)
    ∷ slot 0xb0 0xb4 (some Port.serial) (some Port.serial)
    ∷ slot 0xc0 0xc2 (some Port.disk) (some Port.disk)
    ∷ slot 0xd6 0xd6 none none
    ∷ slot 0xda 0xdb (some Port.speaker) (some Port.speaker)
    ∷ slot 0xdc 0xdd none (some Port.disk_tc)
    ∷ slot 0xde 0xde none none
    ∷ slot 0xe0 0xe4 (some Port.clock) (some Port.clock)
    ∷ []

-- The device and its own address, if the slot is hit and has the function.
abbrev target : Bool → ℕ → Option Port → Option (Port × ℕ) → Option (Port × ℕ)
target hit own none rest = rest
target hit own (some p) rest = if hit then some (p, own) else rest

abbrev hits : IoSlot → ℕ → Bool
hits m address = leb m.base address && ltb address m.top

-- The loops of `bus_io_in` and `bus_io_out`.
unfoldable pub find_in : List IoSlot → ℕ → Option (Port × ℕ)
find_in [] address = none
find_in (m ∷ ms) address = target (hits m address) (address - m.base) m.input (find_in ms address)

unfoldable pub find_out : List IoSlot → ℕ → Option (Port × ℕ)
find_out [] address = none
find_out (m ∷ ms) address =
    target (hits m address) (address - m.base) m.output (find_out ms address)

module _ {D W : Type 0} where
  -- `speaker_trigger`
  abbrev speaker_trigger : Board D W → Board D W
  speaker_trigger b = record b { beeps = b.beeps + 1 }

  -- `slot->in(address - slot->base)`; `crtc_in` is `video_frameSyncReset`, `timer_in` reads 0.
  unfoldable pub port_in : Board D W → Port → ℕ → Outcome (Board D W × ℕ)
  port_in b Port.parallel own = do
    value ← upd8255_in b.port b.frame_sync (fdc_get_int_status b.fdc) own
    ok (b, value)
  port_in b Port.controller own = ok (record b { frame_sync = false }, 0)
  port_in b Port.serial own = do
    (sio2, value) ← sio2_in b.sio2 own
    ok (record b { sio2 = sio2 }, value)
  port_in b Port.disk own = do (fdc, value) ← fdc_in b.fdc own; ok (record b { fdc = fdc }, value)
  port_in b Port.speaker own = ok (speaker_trigger b, 0)
  port_in b Port.disk_tc own = fault Fault.null_pointer
  port_in b Port.clock own = ok (b, 0)

  -- `slot->out(address - slot->base, value)`; `timer_out` does nothing.
  unfoldable pub port_out : Board D W → Port → ℕ → ℕ → Outcome (Board D W)
  port_out b Port.parallel own value = do
    (port, memory) ← upd8255_out b.port b.memory own value
    ok (record b { port = port; memory = memory })
  port_out b Port.controller own value = do
    crtc ← crtc_out b.crtc own value
    ok (record b { crtc = crtc })
  port_out b Port.serial own value = do
    sio2 ← sio2_out b.sio2 own value
    ok (record b { sio2 = sio2 })
  port_out b Port.disk own value = do fdc ← fdc_out b.fdc own value; ok (record b { fdc = fdc })
  port_out b Port.speaker own value = ok (speaker_trigger b)
  port_out b Port.disk_tc own value = do
    fdc ← fdc_tc_out b.fdc own value
    ok (record b { fdc = fdc })
  port_out b Port.clock own value = ok b

  unfoldable pub in_found : Board D W → Option (Port × ℕ) → ℕ → Outcome (Board D W × ℕ)
  in_found b none address =
      let (peripherals, value) = ubus_io_in b.ubus_slots address b.peripherals in
      ok (record b { peripherals = peripherals }, value)
  in_found b (some (p, own)) address = port_in b p own

  unfoldable pub out_found : Board D W → Option (Port × ℕ) → ℕ → ℕ → Outcome (Board D W)
  out_found b none address value =
      ok (record b { peripherals = ubus_io_out b.ubus_slots address value b.peripherals })
  out_found b (some (p, own)) address value = port_out b p own value

  abbrev released : Board D W → Board D W
  released b = record b { memory = release_bios b.memory }

  -- Any access ends the BIOS's override.
  unfoldable pub bus_io_in : Board D W → ℕ → Outcome (Board D W × ℕ)
  bus_io_in b address = in_found (released b) (find_in bus_io_slots address) address

  unfoldable pub bus_io_out : Board D W → ℕ → ℕ → Outcome (Board D W)
  bus_io_out b address value = out_found (released b) (find_out bus_io_slots address) address value
