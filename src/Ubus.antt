-- ===== src/Ubus.antt =====
-- src/ubus.c, src/ubus.h: the expansion bus, which peripherals register on.
pub mod Slots
pub mod Routing
mod Tests
use ceda_cemu.Base.{
  ℕ, ◌+◌, ◌-◌, Bool, true, false, not, ◌&&◌, ◌||◌, Option, none, some, List, [], ◌∷◌, ◌++◌, ◌==◌,
  ltb, leb, if◌then◌else◌, length,
}

-- `ubus_io_read_t` and `ubus_io_write_t`, over the state `W` of the peripherals.
abbrev pub IoRead : Type 0 → Type 0
IoRead W = ℕ → W → W × ℕ

abbrev pub IoWrite : Type 0 → Type 0
IoWrite W = ℕ → ℕ → W → W

-- `struct ubus_io_slot`; a `none` callback is NULL.
pub record Slot (W : Type 0) : Type 0 where
  pub base : ℕ
  pub top : ℕ
  pub input : Option (IoRead W)
  pub output : Option (IoWrite W)

-- UBUS_MAX_PERIPHERALS
abbrev ubus_max_peripherals : ℕ
ubus_max_peripherals = 4

abbrev is_null : {A : Type 0} → Option A → Bool
is_null none = true
is_null (some f) = false

-- `address >= slot->base && address < slot->top`
abbrev pub decodes : {W : Type 0} → Slot W → ℕ → Bool
decodes slot address = leb slot.base address && ltb address slot.top

module _ {W : Type 0} where
  -- The loop of `ubus_register`: no slot overlaps the addresses from `base` to below `top`.
  unfoldable pub is_free : List (Slot W) → ℕ → ℕ → Bool
  is_free [] base top = true
  is_free (slot ∷ slots) base top =
      (leb top slot.base || leb slot.top base) && is_free slots base top

  -- The slots are the entries of `ubus_slots` below `ubus_used`, which is their number.
  unfoldable pub ubus_register :
      List (Slot W) → ℕ → ℕ → Option (IoRead W) → Option (IoWrite W) → List (Slot W) × Bool
  ubus_register slots base top read write =
      if is_null read && is_null write
      then (slots, false)
      else if ltb 0x100 top
      then (slots, false)
      else if leb top base
      then (slots, false)
      else if length slots == ubus_max_peripherals
      then (slots, false)
      else if not (is_free slots base top)
      then (slots, false)
      else (slots ++ record { base = base; top = top; input = read; output = write } ∷ [], true)

  -- A decoded input of a slot that has a callback; the rest of the loop otherwise.
  unfoldable pub input_or : Bool → Slot W → Option (IoRead W) → ℕ → W → W × ℕ → W × ℕ
  input_or hit slot none address w rest = rest
  input_or hit slot (some f) address w rest = if hit then f (address - slot.base) w else rest

  unfoldable pub ubus_io_in : List (Slot W) → ℕ → W → W × ℕ
  ubus_io_in [] address w = (w, 0)
  ubus_io_in (slot ∷ slots) address w =
      input_or (decodes slot address) slot slot.input address w (ubus_io_in slots address w)

  unfoldable pub output_or : Bool → Slot W → Option (IoWrite W) → ℕ → ℕ → W → W → W
  output_or hit slot none address value w rest = rest
  output_or hit slot (some f) address value w rest =
      if hit then f (address - slot.base) value w else rest

  unfoldable pub ubus_io_out : List (Slot W) → ℕ → ℕ → W → W
  ubus_io_out [] address value w = w
  ubus_io_out (slot ∷ slots) address value w =
      output_or (decodes slot address) slot slot.output address value w
        (ubus_io_out slots address value w)
