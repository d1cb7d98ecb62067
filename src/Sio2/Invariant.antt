-- ===== src/Sio2/Invariant.antt =====
-- What holds of the channels after any accesses and polls.
use ceda_cemu.Base.{
  ℕ, ◌<◌, ◌≡◌, refl, bit_and, true, false, List, get_or, set, length, length-set, get_or-set_self,
  arith,
}
use ceda_cemu.Base.Bits.{
  set_bits, clear_bits, and-set_apart, and-clear_within, and-set_within, and-clear_apart,
}
use ceda_cemu.Fifo.{Fifo, is_empty, is_full, push, pop, init}
use ceda_cemu.Fifo.Refine.{IsValid, push-IsValid, pop-IsValid}
use ceda_cemu.Sio2.Channel.{
  SioChannel, sio_channel_reinit, sio_channel_init, sio_channel_read_data, sio_channel_write_data,
}

module _ {W : Type 0} where
  abbrev pub status : SioChannel W → ℕ
  status c = get_or c.read_regs 0 0

-- Both buffers are valid rings of four, the registers exist, the transmitter always reports an
-- empty buffer, and the receiver reports no octet that is not there.
pub record ChannelInv {W : Type 0} (c : SioChannel W) : Type 0 where
  pub rx_valid : IsValid c.rx_fifo
  pub tx_valid : IsValid c.tx_fifo
  pub rx_size : length c.rx_fifo.buffer ≡ 4
  pub tx_size : length c.tx_fifo.buffer ≡ 4
  pub registers : length c.read_regs ≡ 3
  pub indexed : c.reg_index < 8
  pub ready : bit_and (status c) 4 ≡ 4
  pub nothing : is_empty c.rx_fifo ≡ true → bit_and (status c) 1 ≡ 0

pub length-push : (f : Fifo ℕ) (x : ℕ) → length (push f x).buffer ≡ length f.buffer
unfolding push
length-push f x = length-set f.buffer f.tail x

pub length-pop : (f : Fifo ℕ) → length (pop 0 f).1.buffer ≡ length f.buffer
unfolding pop
length-pop f = ground arith

-- A push into a ring with room leaves something to pop.
pub push_not_empty :
    (f : Fifo ℕ) (x : ℕ) → IsValid f → is_full f ≡ false → is_empty (push f x) ≡ false
unfolding push is_full is_empty
push_not_empty f x v h = ground arith

module _ {W : Type 0} where
  pub reinit-Inv : (c : SioChannel W) → ChannelInv c → ChannelInv (sio_channel_reinit c)
  unfolding sio_channel_reinit init is_empty
  reinit-Inv c v = record {
    rx_valid = ground arith;
    tx_valid = ground arith;
    rx_size = v.rx_size;
    tx_size = v.tx_size;
    registers = refl;
    indexed = omega arith;
    ready = refl;
    nothing = λ e. refl;
  }

  pub zero-Inv : ChannelInv (sio_channel_init {W = W})
  unfolding sio_channel_init sio_channel_reinit init is_empty
  zero-Inv = record {
    rx_valid = ground arith;
    tx_valid = ground arith;
    rx_size = refl;
    tx_size = refl;
    registers = refl;
    indexed = omega arith;
    ready = refl;
    nothing = λ e. refl;
  }

  -- After a change of one bit of the status that keeps the two bits.
  pub status_set : (c : SioChannel W) (x : ℕ) → ChannelInv c → get_or (set c.read_regs 0 x) 0 0 ≡ x
  status_set c x v = get_or-set_self c.read_regs 0 x 0 (omega (arith, v.registers))

  -- A new receiver buffer with a new status, and a new transmitter buffer.
  pub rx-Inv :
      (c : SioChannel W) (f : Fifo ℕ) (regs : List ℕ)
      → ChannelInv c
      → IsValid f
      → length f.buffer ≡ 4
      → length regs ≡ 3
      → bit_and (get_or regs 0 0) 4 ≡ 4
      → (is_empty f ≡ true → bit_and (get_or regs 0 0) 1 ≡ 0)
      → ChannelInv (record c { rx_fifo = f; read_regs = regs })
  rx-Inv c f regs v ok_f size n ready nothing = record {
    rx_valid = ok_f;
    tx_valid = v.tx_valid;
    rx_size = size;
    tx_size = v.tx_size;
    registers = n;
    indexed = v.indexed;
    ready = ready;
    nothing = nothing;
  }

  pub tx-Inv :
      (c : SioChannel W) (f : Fifo ℕ) (regs : List ℕ)
      → ChannelInv c
      → IsValid f
      → length f.buffer ≡ 4
      → length regs ≡ 3
      → bit_and (get_or regs 0 0) 4 ≡ 4
      → bit_and (get_or regs 0 0) 1 ≡ bit_and (status c) 1
      → ChannelInv (record c { tx_fifo = f; read_regs = regs })
  tx-Inv c f regs v ok_f size n ready same = record {
    rx_valid = v.rx_valid;
    tx_valid = ok_f;
    rx_size = v.rx_size;
    tx_size = size;
    registers = n;
    indexed = v.indexed;
    ready = ready;
    nothing = λ e. ground (arith, v.nothing e);
  }

  pub read-Inv : (c : SioChannel W) → ChannelInv c → ChannelInv (sio_channel_read_data c).0
  unfolding sio_channel_read_data
  read-Inv c v =
      let rest = (pop 0 c.rx_fifo).1 in
      let cleared = clear_bits (status c) 1 in
      let valid = pop-IsValid 0 c.rx_fifo v.rx_valid in
      let size : length rest.buffer ≡ 4 = omega (arith, length-pop c.rx_fifo, v.rx_size) in
      let last =
        rx-Inv c rest (set c.read_regs 0 cleared) v valid size
          (omega (arith, length-set c.read_regs 0 cleared, v.registers))
          (ground (arith, status_set c cleared v, and-clear_apart (status c) 1 4 refl, v.ready))
          (λ e. ground (arith, status_set c cleared v, and-clear_within (status c) 1 1 refl)) in
      let more : is_empty rest ≡ false → ChannelInv (record c { rx_fifo = rest }) = λ b.
        rx-Inv c rest c.read_regs v valid size v.registers v.ready (λ e. absurd (ground arith)) in
      ground (arith, v, last, more)

  pub write-Inv :
      (c : SioChannel W) (value : ℕ) → ChannelInv c → ChannelInv (sio_channel_write_data c value)
  unfolding sio_channel_write_data
  write-Inv c value v =
      let f = push c.tx_fifo value in
      let raised = set_bits (status c) 4 in
      let valid = push-IsValid 0 c.tx_fifo value v.tx_valid in
      let size : length f.buffer ≡ 4 = omega (arith, length-push c.tx_fifo value, v.tx_size) in
      let room =
        tx-Inv c f (set c.read_regs 0 raised) v valid size
          (omega (arith, length-set c.read_regs 0 raised, v.registers))
          (ground (arith, status_set c raised v, and-set_within (status c) 4 4 refl))
          (ground (arith, status_set c raised v, and-set_apart (status c) 4 1 refl)) in
      let none_left = tx-Inv c f c.read_regs v valid size v.registers v.ready refl in
      ground (arith, v, room, none_left)
