-- ===== src/Sio2/Ports.antt =====
-- Every access, every poll and every attachment keeps the controller well formed.
use ceda_cemu.Base.{
  ℕ, zero, suc, ◌/◌, ◌%◌, ◌<◌, ◌≡◌, bit_and, Bool, true, false, Option, ◌==◌, if◌then◌else◌, get_or,
  length, length-set, get_or-set_self, get_or-set_ne, arith,
}
use ceda_cemu.Base.Bits.{and_le_mask}
use ceda_cemu.Base.Outcome.{Holds, Holds-bind, ok}
use ceda_cemu.Interrupts.{Interrupts, int_cancel}
use ceda_cemu.Interrupts.Pending.{int_irq-Inv, int_cancel-Inv}
use ceda_cemu.Interrupts.Pending as Chain
use ceda_cemu.Sio2.Channel.{SioChannel, TryRead, TryWrite, zero_channel, sio_channel_reinit}
use ceda_cemu.Sio2.{
  Sio2, channel, set_channel, write_register_0, write_register_1, write_register_2,
  write_register_3, write_register_5, write_register_unused, write_register_handlers, no_handler,
  sio_channel_write_control,
}
use ceda_cemu.Sio2.Invariant.{ChannelInv, reinit-Inv}

-- Two well-formed channels, and a well-formed interrupt chain.
pub record Inv {W : Type 0} (s : Sio2 W) : Type 0 where
  pub count : length s.channels ≡ 2
  pub first : ChannelInv (channel s 0)
  pub second : ChannelInv (channel s 1)
  pub chain : Chain.Inv s.interrupts

module _ {W : Type 0} where
  pub channel-Inv : (s : Sio2 W) (i : ℕ) → Inv s → i < 2 → ChannelInv (channel s i)
  channel-Inv s zero v h = v.first
  channel-Inv s (suc zero) v h = v.second
  channel-Inv s (suc (suc i)) v h = absurd (omega arith)

  pub set-Inv :
      (s : Sio2 W) (i : ℕ) (c : SioChannel W)
      → Inv s
      → i < 2
      → ChannelInv c
      → Inv (set_channel s i c)
  set-Inv s zero c v h w = record {
    count = omega (arith, length-set s.channels 0 c, v.count);
    first = rw (get_or-set_self s.channels 0 c zero_channel (omega (arith, v.count))) w;
    second = rw (get_or-set_ne s.channels {i = 0} {j = 1} c zero_channel (ground arith)) v.second;
    chain = v.chain;
  }
  set-Inv s (suc zero) c v h w = record {
    count = omega (arith, length-set s.channels 1 c, v.count);
    first = rw (get_or-set_ne s.channels {i = 1} {j = 0} c zero_channel (ground arith)) v.first;
    second = rw (get_or-set_self s.channels 1 c zero_channel (omega (arith, v.count))) w;
    chain = v.chain;
  }
  set-Inv s (suc (suc i)) c v h w = absurd (omega arith)

  pub chain-Inv :
      (s : Sio2 W) (t : Interrupts) → Inv s → Chain.Inv t → Inv (record s { interrupts = t })
  chain-Inv s t v w = record { count = v.count; first = v.first; second = v.second; chain = w }

  -- The flags, the callbacks and the register index do not matter.
  pub flags-Inv :
      (c : SioChannel W) (index : ℕ) (rx tx int : Bool) (getc : Option (TryRead W))
      (putc : Option (TryWrite W))
      → ChannelInv c
      → index < 8
      → ChannelInv (record c {
        reg_index = index;
        rx_enabled = rx;
        tx_enabled = tx;
        rx_int_enabled = int;
        getc = getc;
        putc = putc;
      })
  flags-Inv c index rx tx int getc putc v h = record {
    rx_valid = v.rx_valid;
    tx_valid = v.tx_valid;
    rx_size = v.rx_size;
    tx_size = v.tx_size;
    registers = v.registers;
    indexed = h;
    ready = v.ready;
    nothing = v.nothing;
  }

  register_0-Inv :
      (s : Sio2 W) (i value : ℕ) → Inv s → i < 2 → Holds Inv (write_register_0 s i value)
  unfolding write_register_0
  register_0-Inv s i value v h =
      let c = channel s i in
      let w = channel-Inv s i v h in
      let cancelled = int_cancel-Inv s.interrupts 1 v.chain in
      let command = value / 8 % 8 in
      let d = if command == 3 then sio_channel_reinit c else c in
      let after : ChannelInv d = ground (arith, w, reinit-Inv c w) in
      Holds-bind Chain.Inv Inv (if command == 2 then int_cancel s.interrupts 1 else ok s.interrupts)
        _ (ground (arith, cancelled, v.chain))
        (λ t k. set-Inv (record s { interrupts = t }) i d (chain-Inv s t v k) h after)

  register_1-Inv :
      (s : Sio2 W) (i value : ℕ) → Inv s → i < 2 → Holds Inv (write_register_1 s i value)
  unfolding write_register_1
  register_1-Inv s i value v h =
      let c = channel s i in
      let w = channel-Inv s i v h in
      let with_int : (b : Bool) → Inv (set_channel s i (record c { rx_int_enabled = b })) = λ b.
        set-Inv s i _ v h
          (flags-Inv c c.reg_index c.rx_enabled c.tx_enabled b c.getc c.putc w w.indexed) in
      ground (arith, v, with_int true, with_int false)

  handler-Inv :
      (s : Sio2 W) (index i value : ℕ)
      → Inv s
      → i < 2
      → Holds Inv (get_or write_register_handlers index no_handler s i value)
  unfolding write_register_handlers write_register_2 write_register_3 write_register_5
      write_register_unused
  handler-Inv s zero i value v h = register_0-Inv s i value v h
  handler-Inv s (suc zero) i value v h = register_1-Inv s i value v h
  handler-Inv s (suc (suc zero)) i value v h = record {
    count = v.count;
    first = v.first;
    second = v.second;
    chain = v.chain;
  }
  handler-Inv s (suc (suc (suc zero))) i value v h =
      let c = channel s i in
      let w = channel-Inv s i v h in
      set-Inv s i _ v h
        (flags-Inv c c.reg_index _ c.tx_enabled c.rx_int_enabled c.getc c.putc w w.indexed)
  handler-Inv s (suc (suc (suc (suc zero)))) i value v h = v
  handler-Inv s (suc (suc (suc (suc (suc zero))))) i value v h =
      let c = channel s i in
      let w = channel-Inv s i v h in
      set-Inv s i _ v h
        (flags-Inv c 0 c.rx_enabled _ c.rx_int_enabled c.getc c.putc w (omega arith))
  handler-Inv s (suc (suc (suc (suc (suc (suc zero)))))) i value v h = v
  handler-Inv s (suc (suc (suc (suc (suc (suc (suc zero))))))) i value v h = v
  handler-Inv s (suc (suc (suc (suc (suc (suc (suc (suc n)))))))) i value v h = tt

  pub control-Inv :
      (s : Sio2 W) (i value : ℕ) → Inv s → i < 2 → Holds Inv (sio_channel_write_control s i value)
  unfolding sio_channel_write_control
  control-Inv s i value v h =
      let index = (channel s i).reg_index in
      let small : (if index == 0 then bit_and value 7 else 0) < 8 =
        ground (arith, and_le_mask value 7) in
      Holds-bind Inv Inv (get_or write_register_handlers index no_handler s i value) _
        (handler-Inv s index i value v h)
        (λ t w.
          let c = channel t i in
          set-Inv t i _ w h (
            flags-Inv c _ c.rx_enabled c.tx_enabled c.rx_int_enabled c.getc c.putc
              (channel-Inv t i w h) small))
