-- ===== src/Sio2/Tests.antt =====
-- Runs of the serial controller on concrete devices.
use ceda_cemu.Base.{bit_and, arith, true, ℕ, ◌+◌, ◌≡◌, refl, false, some, List, [], ◌∷◌, replicate}
use ceda_cemu.Base.Outcome.{Holds, ok}
use ceda_cemu.Interrupts.{no_irq, int_irq}
use ceda_cemu.Interrupts.Pending as Chain
use ceda_cemu.Sio2.Channel.{TryRead, SioChannel, zero_channel}
use ceda_cemu.Sio2.{Sio2, channel, read_data, receive, signal, sio2_restart, sio2_poll}
use ceda_cemu.Sio2.Ports.{Inv}
use ceda_cemu.Sio2.Polling.{poll-Inv, restart-Inv}
use ceda_cemu.Fifo.{is_empty}
use ceda_cemu.Sio2.Invariant.{ChannelInv, status}
use ceda_cemu.Sio2.Received.{received_is_read}
use ceda_cemu.Sio2.Events.{Event, perform_all, serial_events-Inv}

-- A keyboard that counts the keys that it gave.
abbrev keyboard : TryRead ℕ
keyboard n = (n + 1, some (n + 65))

abbrev fresh : Sio2 ℕ
fresh = record {
  channels = [];
  sio_interrupt_vector = 0;
  interrupts = record { pending = 0; irqs = replicate 3 no_irq; line = false };
  devices = 0;
}

fresh-chain : Chain.Inv fresh.interrupts
fresh-chain = record { lines = refl; counted = refl }

-- The receiver of channel B and its interrupt are turned on, a key arrives and is read.
abbrev script : List (Event ℕ)
script =
    Event.output 3 3
    ∷ Event.output 3 0xc1
    ∷ Event.output 3 1
    ∷ Event.output 3 0x18
    ∷ Event.polling
    ∷ Event.input 2
    ∷ []

serial_events-Inv_example :
    Holds {A = Sio2 ℕ} (Inv {W = ℕ}) (perform_all (sio2_restart fresh keyboard) script)
serial_events-Inv_example = serial_events-Inv fresh keyboard script fresh-chain

poll-Inv_example : (t : Sio2 ℕ) × (sio2_poll (sio2_restart fresh keyboard) ≡ ok t) × Inv t
poll-Inv_example = poll-Inv (sio2_restart fresh keyboard) (restart-Inv fresh keyboard fresh-chain)

-- Channel B with the keyboard, its receiver and its interrupt on.
abbrev listening : SioChannel ℕ
listening = record zero_channel {
  read_regs = 4 ∷ 0 ∷ 0 ∷ [];
  rx_enabled = true;
  rx_int_enabled = true;
  getc = some keyboard;
}

abbrev resting : SioChannel ℕ
resting = record zero_channel { read_regs = 4 ∷ 0 ∷ 0 ∷ [] }

abbrev ready : Sio2 ℕ
ready = record fresh { channels = resting ∷ listening ∷ []; sio_interrupt_vector = 0x22 }

ready-Inv : Inv {W = ℕ} ready
unfolding is_empty
ready-Inv =
    let quiet : ChannelInv {W = ℕ} resting = ground arith in
    let open_line : ChannelInv {W = ℕ} listening = ground arith in
    record { count = refl; first = quiet; second = open_line; chain = fresh-chain }

received_is_read_example :
    (u : Sio2 ℕ) × (signal (receive ready 1) 1 ≡ ok u)
    × (u.devices ≡ 1)
    × (bit_and (status (channel u 1)) 1 ≡ 1)
    × (int_irq ready.interrupts 1 0x22 ≡ ok u.interrupts)
    × ((read_data u 1).1 ≡ 65)
unfolding is_empty
received_is_read_example =
    received_is_read ready 1 65 1 keyboard ready-Inv (omega arith) refl refl refl refl
