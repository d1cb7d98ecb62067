-- ===== src/Sio2/Channel.antt =====
-- src/sio2.c: one channel, its buffers and its data and control registers as they are read.
use ceda_cemu.Base.{
  ℕ, Bool, false, not, Option, none, List, leb, if◌then◌else◌, get_or, set, replicate,
}
use ceda_cemu.Base.Bits.{set_bits, clear_bits}
use ceda_cemu.Fifo.{Fifo, is_empty, is_full, push, pop, init}

-- `sio_channel_try_read_t` and `sio_channel_try_write_t`, over the state `W` of the devices.
abbrev pub TryRead : Type 0 → Type 0
TryRead W = W → W × Option ℕ

abbrev pub TryWrite : Type 0 → Type 0
TryWrite W = ℕ → W → W × Bool

-- `SIOChannel`; a `none` callback is NULL.
pub record SioChannel (W : Type 0) : Type 0 where
  pub reg_index : ℕ
  pub read_regs : List ℕ
  pub rx_fifo : Fifo ℕ
  pub tx_fifo : Fifo ℕ
  pub rx_enabled : Bool
  pub tx_enabled : Bool
  pub rx_int_enabled : Bool
  pub tx_int_enabled : Bool
  pub getc : Option (TryRead W)
  pub putc : Option (TryWrite W)

-- The mask of RX_CHAR_AVAILABLE_BIT, and that of TX_BUFFER_EMPTY_BIT.
abbrev pub rx_char_available : ℕ
rx_char_available = 0x01

abbrev tx_buffer_empty : ℕ
tx_buffer_empty = 0x04

abbrev zero_fifo : Fifo ℕ
zero_fifo = record { head = 0; tail = 0; buffer = replicate 4 0 }

-- A channel of zeroed memory.
abbrev pub zero_channel : {W : Type 0} → SioChannel W
zero_channel = record {
  reg_index = 0;
  read_regs = replicate 3 0;
  rx_fifo = zero_fifo;
  tx_fifo = zero_fifo;
  rx_enabled = false;
  tx_enabled = false;
  rx_int_enabled = false;
  tx_int_enabled = false;
  getc = none;
  putc = none;
}

module _ {W : Type 0} where
  -- `read_regs[0] |= mask` and `read_regs[0] &= ~mask`.
  abbrev pub set_status : SioChannel W → ℕ → List ℕ
  set_status c mask = set c.read_regs 0 (set_bits (get_or c.read_regs 0 0) mask)

  abbrev clear_status : SioChannel W → ℕ → List ℕ
  clear_status c mask = set c.read_regs 0 (clear_bits (get_or c.read_regs 0 0) mask)

  unfoldable pub sio_channel_reinit : SioChannel W → SioChannel W
  sio_channel_reinit c = record c {
    reg_index = 0;
    read_regs = set (replicate 3 0) 0 (set_bits 0 tx_buffer_empty);
    rx_fifo = init c.rx_fifo;
    tx_fifo = init c.tx_fifo;
    rx_enabled = false;
    tx_enabled = false;
    rx_int_enabled = false;
    tx_int_enabled = false;
  }

  unfoldable pub sio_channel_init : SioChannel W
  sio_channel_init = sio_channel_reinit zero_channel

  unfoldable pub sio_channel_read_data : SioChannel W → SioChannel W × ℕ
  sio_channel_read_data c =
      let (byte, rest) = pop 0 c.rx_fifo in
      let read_regs = if is_empty rest then clear_status c rx_char_available else c.read_regs in
      if not (is_empty c.rx_fifo)
      then (record c { rx_fifo = rest; read_regs = read_regs }, byte)
      else (c, 0x55)

  unfoldable pub sio_channel_write_data : SioChannel W → ℕ → SioChannel W
  sio_channel_write_data c value =
      let tx_fifo = push c.tx_fifo value in
      let read_regs = if not (is_full tx_fifo) then set_status c tx_buffer_empty else c.read_regs in
      if is_full c.tx_fifo then c else record c { tx_fifo = tx_fifo; read_regs = read_regs }

  unfoldable pub sio_channel_read_control : SioChannel W → ℕ
  sio_channel_read_control c = if leb 3 c.reg_index then 0x55 else get_or c.read_regs c.reg_index 0
