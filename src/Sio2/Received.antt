-- ===== src/Sio2/Received.antt =====
-- An octet that a device sends reaches the guest.
use ceda_cemu.Base.{
  ℕ, ◌<◌, ◌≡◌, refl, ap, ◌∙◌, bit_and, true, false, some, if◌then◌else◌, get_or, set, length,
  length-set, get_or-set_self, arith,
}
use ceda_cemu.Base.Bits.{set_bits, and-set_within}
use ceda_cemu.Base.Outcome.{ok}
use ceda_cemu.Fifo.{Fifo, is_empty, is_full, push, pop}
use ceda_cemu.Fifo.Refine.{IsValid}
use ceda_cemu.Interrupts.{Interrupts, int_irq}
use ceda_cemu.Interrupts.Pending as Chain
use ceda_cemu.Sio2.Channel.{SioChannel, TryRead, zero_channel, set_status, sio_channel_read_data}
use ceda_cemu.Sio2.{
  Sio2, channel, set_channel, read_data, accept_char, receive_from, receive, signal,
}
use ceda_cemu.Sio2.Invariant.{ChannelInv, status, push_not_empty}
use ceda_cemu.Sio2.Ports.{Inv, channel-Inv}
use ceda_cemu.Sio2.Polling.{irq_raised}

-- In an empty ring of four, what is pushed is popped.
push-pop_empty :
    (f : Fifo ℕ) (x : ℕ)
    → IsValid f
    → length f.buffer ≡ 4
    → is_empty f ≡ true
    → (is_full f ≡ false) × ((pop 0 (push f x)).0 ≡ x)
unfolding is_empty is_full push pop
push-pop_empty f x v n e = (
  ground arith,
  ground (arith, get_or-set_self f.buffer f.tail x 0, length-set f.buffer f.tail x),
)

module _ {W : Type 0} where
  channel_set :
      (s : Sio2 W) (i : ℕ) (c : SioChannel W)
      → Inv s
      → i < 2
      → get_or (set s.channels i c) i zero_channel ≡ c
  channel_set s i c v h = get_or-set_self s.channels i c zero_channel (omega (arith, v.count))

  -- What the channel holds after the octet was received and signalled.
  abbrev held : SioChannel W → ℕ → SioChannel W
  held c byte = record c { rx_fifo = push c.rx_fifo byte; read_regs = set_status c 1 }

  received :
      (s : Sio2 W) (i byte : ℕ) (w : W) (getc : TryRead W)
      → Inv s
      → i < 2
      → (channel s i).rx_enabled ≡ true
      → is_empty (channel s i).rx_fifo ≡ true
      → getc s.devices ≡ (w, some byte)
      → receive_from s i (channel s i) (some getc)
        ≡ set_channel
            (record s { devices = w })
            i
            (record (channel s i) { rx_fifo = push (channel s i).rx_fifo byte })
  unfolding receive_from accept_char
  received s i byte w getc v h on e sent =
      let k = channel-Inv s i v h in
      ground (arith, sent, push-pop_empty (channel s i).rx_fifo byte k.rx_valid k.rx_size e)

  signalled :
      (t : Sio2 W) (i : ℕ) (c : SioChannel W)
      → channel t i ≡ c
      → is_empty c.rx_fifo ≡ false
      → Chain.Inv t.interrupts
      → (irqs : Interrupts) × (signal t i
          ≡ ok (record t {
            interrupts = irqs;
            channels = set t.channels i (record c { read_regs = set_status c 1 });
          }))
        × ((if c.rx_int_enabled
              then int_irq t.interrupts 1 t.sio_interrupt_vector
              else ok t.interrupts)
            ≡ ok irqs)
  unfolding signal
  signalled t i c at e v =
      let (raised, r, _) = irq_raised t.interrupts t.sio_interrupt_vector v in
      (
        if c.rx_int_enabled then raised else t.interrupts,
        rw at (ground (arith, e, r)),
        ground (arith, r),
      )

  read_held :
      (c : SioChannel W) (byte : ℕ)
      → ChannelInv c
      → is_empty c.rx_fifo ≡ true
      → (sio_channel_read_data (held c byte)).1 ≡ byte
  unfolding sio_channel_read_data
  read_held c byte k e =
      let (room, popped) = push-pop_empty c.rx_fifo byte k.rx_valid k.rx_size e in
      ground (arith, popped, push_not_empty c.rx_fifo byte k.rx_valid room)

  -- From a well-formed state, on an enabled channel with an empty receive buffer whose device
  -- offers an octet, the receiving and the signalling step of the poll for that channel succeed,
  -- take the octet from the device, report it in the status, request the interrupt if it is
  -- enabled, and the guest's next read of the data register returns the octet.
  pub received_is_read :
      (s : Sio2 W) (i byte : ℕ) (w : W) (getc : TryRead W)
      → Inv s
      → i < 2
      → (channel s i).getc ≡ some getc
      → (channel s i).rx_enabled ≡ true
      → is_empty (channel s i).rx_fifo ≡ true
      → getc s.devices ≡ (w, some byte)
      → (u : Sio2 W) × (signal (receive s i) i ≡ ok u)
        × (u.devices ≡ w)
        × (bit_and (status (channel u i)) 1 ≡ 1)
        × ((if (channel s i).rx_int_enabled
              then int_irq s.interrupts 1 s.sio_interrupt_vector
              else ok s.interrupts)
            ≡ ok u.interrupts)
        × ((read_data u i).1 ≡ byte)
  unfolding read_data
  received_is_read s i byte w getc v h attached on e sent =
      let c = channel s i in
      let k = channel-Inv s i v h in
      let d : SioChannel W = record c { rx_fifo = push c.rx_fifo byte } in
      let t = set_channel (record s { devices = w }) i d in
      let got : receive s i ≡ t =
        ap (receive_from s i c) attached ∙ received s i byte w getc v h on e sent in
      let (room, popped) = push-pop_empty c.rx_fifo byte k.rx_valid k.rx_size e in
      let (irqs, sig, raised) =
        signalled t i d (channel_set s i d v h) (push_not_empty c.rx_fifo byte k.rx_valid room)
          v.chain in
      let u : Sio2 W = record t { interrupts = irqs; channels = set t.channels i (held c byte) } in
      let n : i < length t.channels = omega (arith, length-set s.channels i d, v.count, h) in
      let kept : channel u i ≡ held c byte =
        get_or-set_self t.channels i (held c byte) zero_channel n in
      (
        u,
        rw got sig,
        refl,
        rw kept (
            ground (
              arith,
              k.registers,
              get_or-set_self c.read_regs 0 (set_bits (status c) 1) 0,
              and-set_within (status c) 1 1 refl,
            )),
        raised,
        rw kept (read_held c byte k e),
      )
