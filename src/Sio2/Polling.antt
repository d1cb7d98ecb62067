-- ===== src/Sio2/Polling.antt =====
-- What the guest, the main loop and the devices do keeps the controller well formed.
use ceda_cemu.Base.{
  ℕ, ◌<◌, ◌≡◌, refl, false, not, ◌&&◌, Option, none, some, if◌then◌else◌, set, length-set, arith,
}
use ceda_cemu.Base.Bits.{set_bits, and-set_apart}
use ceda_cemu.Base.Outcome.{Holds, ok}
use ceda_cemu.Fifo.{is_empty, is_full, push, pop, peek}
use ceda_cemu.Fifo.Refine.{push-IsValid, pop-IsValid}
use ceda_cemu.Interrupts.{Interrupts, int_irq}
use ceda_cemu.Interrupts.Pending.{int_irq-Inv, int_cancel-Inv}
use ceda_cemu.Interrupts.Pending as Chain
use ceda_cemu.Sio2.Channel.{SioChannel, TryRead, TryWrite, set_status, sio_channel_init}
use ceda_cemu.Sio2.{
  Sio2, channel, set_channel, read_data, sio2_in, sio2_out, accept_char, receive_from, receive,
  signal, transmit_to, transmit, sio2_poll, sio2_attach_peripheral, sio2_restart,
}
use ceda_cemu.Sio2.Invariant.{
  ChannelInv, status, zero-Inv, read-Inv, write-Inv, rx-Inv, tx-Inv, length-push, length-pop,
  push_not_empty, status_set,
}
use ceda_cemu.Sio2.Ports.{Inv, channel-Inv, set-Inv, chain-Inv, flags-Inv, control-Inv}

pub irq_raised :
    (s : Interrupts) (byte : ℕ)
    → Chain.Inv s
    → (t : Interrupts) × (int_irq s 1 byte ≡ ok t) × Chain.Inv t
unfolding int_irq
irq_raised s byte v = (_, refl, int_irq-Inv s 1 byte v)

module _ {W : Type 0} where
  pub in-Inv : (s : Sio2 W) (address : ℕ) → Inv s → Holds (λ r. Inv r.0) (sio2_in s address)
  unfolding sio2_in read_data
  in-Inv s address v =
      let a = set-Inv s 0 _ v (omega arith) (read-Inv (channel s 0) v.first) in
      let b = set-Inv s 1 _ v (omega arith) (read-Inv (channel s 1) v.second) in
      ground (arith, v, a, b)

  pub out-Inv : (s : Sio2 W) (address value : ℕ) → Inv s → Holds Inv (sio2_out s address value)
  unfolding sio2_out
  out-Inv s address value v =
      let a = set-Inv s 0 _ v (omega arith) (write-Inv (channel s 0) value v.first) in
      let b = set-Inv s 1 _ v (omega arith) (write-Inv (channel s 1) value v.second) in
      let c = control-Inv s 0 value v (omega arith) in
      let d = control-Inv s 1 value v (omega arith) in ground (arith, a, b, c, d)

  -- Only the devices change.
  devices-Inv : (s : Sio2 W) (w : W) → Inv s → Inv (record s { devices = w })
  devices-Inv s w v = record {
    count = v.count;
    first = v.first;
    second = v.second;
    chain = v.chain;
  }

  accept-Inv :
      (c : SioChannel W) (byte : Option ℕ)
      → ChannelInv c
      → is_full c.rx_fifo ≡ false
      → ChannelInv (accept_char c byte)
  unfolding accept_char
  accept-Inv c none v h = v
  accept-Inv c (some byte) v h =
      let pushed =
        rx-Inv c (push c.rx_fifo byte) c.read_regs v (push-IsValid 0 c.rx_fifo byte v.rx_valid)
          (omega (arith, length-push c.rx_fifo byte, v.rx_size)) v.registers v.ready
          (λ e. absurd (ground (arith, push_not_empty c.rx_fifo byte v.rx_valid h))) in
      ground (arith, v, pushed)

  receive_from-Inv :
      (s : Sio2 W) (i : ℕ) (getc : Option (TryRead W))
      → Inv s
      → i < 2
      → Inv (receive_from s i (channel s i) getc)
  unfolding receive_from
  receive_from-Inv s i none v h = v
  receive_from-Inv s i (some getc) v h =
      let c = channel s i in
      let (w, byte) = getc s.devices in
      let t : Sio2 W = record s { devices = w } in
      let taken : is_full c.rx_fifo ≡ false → Inv (set_channel t i (accept_char c byte)) = λ room.
        set-Inv t i _ (devices-Inv s w v) h (accept-Inv c byte (channel-Inv s i v h) room) in
      ground (arith, v, taken)

  transmit_to-Inv :
      (s : Sio2 W) (i : ℕ) (putc : Option (TryWrite W))
      → Inv s
      → i < 2
      → Inv (transmit_to s i (channel s i) putc)
  unfolding transmit_to
  transmit_to-Inv s i none v h = v
  transmit_to-Inv s i (some putc) v h =
      let c = channel s i in
      let k = channel-Inv s i v h in
      let (w, taken) = putc (peek 0 c.tx_fifo) s.devices in
      let f = (pop 0 c.tx_fifo).1 in
      let sent : ChannelInv (record c { tx_fifo = f }) =
        tx-Inv c f c.read_regs k (pop-IsValid 0 c.tx_fifo k.tx_valid)
          (omega (arith, length-pop c.tx_fifo, k.tx_size)) k.registers k.ready refl in
      let next : ChannelInv (if taken then record c { tx_fifo = f } else c) =
        ground (arith, k, sent) in
      ground (arith, v, set-Inv (record s { devices = w }) i _ (devices-Inv s w v) h next)

  signal-Inv : (s : Sio2 W) (i : ℕ) → Inv s → i < 2 → (t : Sio2 W) × (signal s i ≡ ok t) × Inv t
  unfolding signal
  signal-Inv s i v h =
      let c = channel s i in
      let k = channel-Inv s i v h in
      let (raised, e, r) = irq_raised s.interrupts s.sio_interrupt_vector v.chain in
      let available = set_bits (status c) 1 in
      let regs = if is_empty c.rx_fifo then c.read_regs else set_status c 1 in
      let irqs = if not (is_empty c.rx_fifo) && c.rx_int_enabled then raised else s.interrupts in
      let d : SioChannel W = record c { read_regs = regs } in
      let marked : is_empty c.rx_fifo ≡ false
          → ChannelInv (record c { read_regs = set_status c 1 }) =
        λ b.
          rx-Inv c c.rx_fifo (set_status c 1) k k.rx_valid k.rx_size
            (omega (arith, length-set c.read_regs 0 available, k.registers))
            (ground (arith, status_set c available k, and-set_apart (status c) 1 4 refl, k.ready))
            (λ x. absurd (ground arith)) in
      let kept : ChannelInv d = ground (arith, k, marked) in
      let chained : Chain.Inv irqs = ground (arith, r, v.chain) in
      (
        record s { interrupts = irqs; channels = set s.channels i d },
        ground (arith, e),
        set-Inv (record s { interrupts = irqs }) i d (chain-Inv s irqs v chained) h kept,
      )

  -- From a well-formed state a poll does not end the program, whatever devices are attached and
  -- whatever they answer, and leaves a well-formed state.
  pub poll-Inv : (s : Sio2 W) → Inv s → (t : Sio2 W) × (sio2_poll s ≡ ok t) × Inv t
  unfolding sio2_poll
  poll-Inv s v =
      let a = receive_from-Inv s 0 (channel s 0).getc v (omega arith) in
      let s' = receive s 0 in
      let b = receive_from-Inv s' 1 (channel s' 1).getc a (omega arith) in
      let (t, e, c) = signal-Inv (receive s' 1) 0 b (omega arith) in
      let (u, e', d) = signal-Inv t 1 c (omega arith) in
      let w = transmit_to-Inv u 0 (channel u 0).putc d (omega arith) in
      let u' = transmit u 0 in
      let x = transmit_to-Inv u' 1 (channel u' 1).putc w (omega arith) in
      (transmit u' 1, ground (arith, e, e'), x)

  pub restart-Inv :
      (s : Sio2 W) (keyboard : TryRead W) → Chain.Inv s.interrupts → Inv (sio2_restart s keyboard)
  unfolding sio2_restart
  restart-Inv s keyboard v = record {
    count = refl;
    first = zero-Inv;
    second =
        let c = sio_channel_init {W = W} in
        flags-Inv c c.reg_index c.rx_enabled c.tx_enabled c.rx_int_enabled (some keyboard) c.putc
          zero-Inv zero-Inv.indexed;
    chain = v;
  }

  pub attach-Inv :
      (s : Sio2 W) (i : ℕ) (getc : Option (TryRead W)) (putc : Option (TryWrite W))
      → Inv s
      → Holds Inv (sio2_attach_peripheral s i getc putc)
  unfolding sio2_attach_peripheral
  attach-Inv s i getc putc v =
      let c = channel s i in
      let attached : i < 2 → Inv (set_channel s i (record c { getc = getc; putc = putc })) = λ h.
        let k = channel-Inv s i v h in
        set-Inv s i _ v h (
          flags-Inv c c.reg_index c.rx_enabled c.tx_enabled c.rx_int_enabled getc putc k
            k.indexed) in
      ground (arith, attached)
