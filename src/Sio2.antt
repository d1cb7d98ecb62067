-- ===== src/Sio2.antt =====
-- src/sio2.c, src/sio2.h: the serial controller, its write registers, its ports and its poll.
pub mod Channel
pub mod Ports
pub mod Invariant
pub mod Polling
pub mod Events
pub mod Received
mod Tests
use ceda_cemu.Base.{
  ℕ, ◌+◌, ◌-◌, ◌*◌, ◌/◌, ◌%◌, bit_and, Bool, true, false, not, Option, none, some, List, [], ◌∷◌,
  ◌==◌, ltb, leb, if◌then◌else◌, get_or, set, replicate, ◌&&◌,
}
use ceda_cemu.Base.Outcome.{Fault, Outcome, ok, fault, ◌>>=◌, ◌>>◌, check}
use ceda_cemu.Fifo.{is_empty, is_full, push, pop, peek}
use ceda_cemu.Interrupts.{Interrupts, intprio_sio2, int_irq, int_cancel}
use Channel.{
  SioChannel, TryRead, TryWrite, zero_channel, rx_char_available, set_status, sio_channel_reinit,
  sio_channel_init, sio_channel_read_data, sio_channel_write_data, sio_channel_read_control,
}

-- The static variables of sio2.c, the interrupt chain that it raises requests in, and the devices.
pub record Sio2 (W : Type 0) : Type 0 where
  pub channels : List (SioChannel W)
  pub sio_interrupt_vector : ℕ
  pub interrupts : Interrupts
  pub devices : W

-- SIO2_REG_NUM
abbrev sio2_reg_num : ℕ
sio2_reg_num = 4

-- SIO_CHANNEL_CNT
abbrev sio_channel_cnt : ℕ
sio_channel_cnt = 2

module _ {W : Type 0} where
  abbrev pub channel : Sio2 W → ℕ → SioChannel W
  channel s i = get_or s.channels i zero_channel

  abbrev pub set_channel : Sio2 W → ℕ → SioChannel W → Sio2 W
  set_channel s i c = record s { channels = set s.channels i c }

  -- The handlers: a channel is given by its index.
  unfoldable pub write_register_0 : Sio2 W → ℕ → ℕ → Outcome (Sio2 W)
  write_register_0 s i value = do
    let command = value / 8 % 8
    interrupts ← if command == 2 then int_cancel s.interrupts intprio_sio2 else ok s.interrupts
    let c = if command == 3 then sio_channel_reinit (channel s i) else channel s i
    ok (record s { interrupts = interrupts; channels = set s.channels i c })

  unfoldable pub write_register_1 : Sio2 W → ℕ → ℕ → Outcome (Sio2 W)
  write_register_1 s i value =
      let mode = value / 8 % 4 in
      let c = channel s i in
      if mode == 0
      then ok (set_channel s i (record c { rx_int_enabled = false }))
      else if mode == 1
      then ok s
      else if mode == 3
      then ok (set_channel s i (record c { rx_int_enabled = true }))
      else fault Fault.assertion

  unfoldable pub write_register_2 : Sio2 W → ℕ → ℕ → Outcome (Sio2 W)
  write_register_2 s i value = ok (record s { sio_interrupt_vector = value })

  unfoldable pub write_register_3 : Sio2 W → ℕ → ℕ → Outcome (Sio2 W)
  write_register_3 s i value =
      let enabled = not (bit_and value 0x1 == 0) in
      ok (set_channel s i (record (channel s i) { rx_enabled = enabled }))

  unfoldable pub write_register_5 : Sio2 W → ℕ → ℕ → Outcome (Sio2 W)
  write_register_5 s i value =
      let enabled = not (bit_and value 0x8 == 0) in
      ok (set_channel s i (record (channel s i) { tx_enabled = enabled; reg_index = 0 }))

  -- `write_register_4`, `write_register_6` and `write_register_7`.
  unfoldable pub write_register_unused : Sio2 W → ℕ → ℕ → Outcome (Sio2 W)
  write_register_unused s i value = ok s

  unfoldable pub write_register_handlers : List (Sio2 W → ℕ → ℕ → Outcome (Sio2 W))
  write_register_handlers =
      write_register_0 ∷ write_register_1 ∷ write_register_2 ∷ write_register_3
      ∷ write_register_unused ∷ write_register_5 ∷ write_register_unused ∷ write_register_unused
      ∷ []

  -- An index past the table.
  abbrev pub no_handler : Sio2 W → ℕ → ℕ → Outcome (Sio2 W)
  no_handler s i value = fault Fault.out_of_bounds

  unfoldable pub sio_channel_write_control : Sio2 W → ℕ → ℕ → Outcome (Sio2 W)
  sio_channel_write_control s i value = do
    let index = (channel s i).reg_index
    let indexed = if index == 0 then bit_and value 0x7 else 0
    let handler = get_or write_register_handlers index no_handler
    t ← handler s i value
    ok (set_channel t i (record (channel t i) { reg_index = indexed }))

  unfoldable pub read_data : Sio2 W → ℕ → Sio2 W × ℕ
  read_data s i = let (c, byte) = sio_channel_read_data (channel s i) in (set_channel s i c, byte)

  unfoldable pub sio2_in : Sio2 W → ℕ → Outcome (Sio2 W × ℕ)
  sio2_in s address =
      if address == 0
      then ok (read_data s 0)
      else if address == 1
      then ok (s, sio_channel_read_control (channel s 0))
      else if address == 2
      then ok (read_data s 1)
      else if address == 3
      then ok (s, sio_channel_read_control (channel s 1))
      else fault Fault.assertion

  unfoldable pub sio2_out : Sio2 W → ℕ → ℕ → Outcome (Sio2 W)
  sio2_out s address value =
      if address == 0
      then ok (set_channel s 0 (sio_channel_write_data (channel s 0) value))
      else if address == 1
      then sio_channel_write_control s 0 value
      else if address == 2
      then ok (set_channel s 1 (sio_channel_write_data (channel s 1) value))
      else if address == 3
      then sio_channel_write_control s 1 value
      else fault Fault.assertion

  -- The end of the first loop of `sio2_poll`: what `getc` gave.
  unfoldable pub accept_char : SioChannel W → Option ℕ → SioChannel W
  accept_char c none = c
  accept_char c (some byte) = if c.rx_enabled then record c { rx_fifo = push c.rx_fifo byte } else c

  unfoldable pub receive_from : Sio2 W → ℕ → SioChannel W → Option (TryRead W) → Sio2 W
  receive_from s i c none = s
  receive_from s i c (some getc) =
      let (devices, byte) = getc s.devices in
      if is_full c.rx_fifo
      then s
      else record s { devices = devices; channels = set s.channels i (accept_char c byte) }

  -- The body of the first loop of `sio2_poll`,
  abbrev pub receive : Sio2 W → ℕ → Sio2 W
  receive s i = receive_from s i (channel s i) (channel s i).getc

  -- of the second,
  unfoldable pub signal : Sio2 W → ℕ → Outcome (Sio2 W)
  signal s i = do
    let c = channel s i
    let idle = is_empty c.rx_fifo
    let read_regs = if idle then c.read_regs else set_status c rx_char_available
    interrupts ←
        if not idle && c.rx_int_enabled
        then int_irq s.interrupts intprio_sio2 s.sio_interrupt_vector
        else ok s.interrupts
    let d = record c { read_regs = read_regs }
    ok (record s { interrupts = interrupts; channels = set s.channels i d })

  -- and of the third.
  unfoldable pub transmit_to : Sio2 W → ℕ → SioChannel W → Option (TryWrite W) → Sio2 W
  transmit_to s i c none = s
  transmit_to s i c (some putc) =
      let (devices, taken) = putc (peek 0 c.tx_fifo) s.devices in
      let sent = record c { tx_fifo = (pop 0 c.tx_fifo).1 } in
      if not c.tx_enabled
      then s
      else if is_empty c.tx_fifo
      then s
      else record s { devices = devices; channels = set s.channels i (if taken then sent else c) }

  abbrev pub transmit : Sio2 W → ℕ → Sio2 W
  transmit s i = transmit_to s i (channel s i) (channel s i).putc

  unfoldable pub sio2_poll : Sio2 W → Outcome (Sio2 W)
  sio2_poll s = do
    let t = receive (receive s 0) 1
    u ← signal t 0
    v ← signal u 1
    ok (transmit (transmit v 0) 1)

  unfoldable pub sio2_attach_peripheral :
      Sio2 W → ℕ → Option (TryRead W) → Option (TryWrite W) → Outcome (Sio2 W)
  sio2_attach_peripheral s i getc putc = do
    check (ltb i sio_channel_cnt) Fault.assertion
    ok (set_channel s i (record (channel s i) { getc = getc; putc = putc }))

  unfoldable pub sio2_detach_peripheral : Sio2 W → ℕ → Outcome (Sio2 W)
  sio2_detach_peripheral s i = do
    check (ltb i sio_channel_cnt) Fault.assertion
    ok (set_channel s i (record (channel s i) { getc = none; putc = none }))

  -- `keyboard` is `keyboard_getChar`.
  unfoldable pub sio2_restart : Sio2 W → TryRead W → Sio2 W
  sio2_restart s keyboard = record s {
    channels = sio_channel_init ∷ record sio_channel_init { getc = some keyboard } ∷ [];
  }
