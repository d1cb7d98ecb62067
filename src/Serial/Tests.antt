-- ===== src/Serial/Tests.antt =====
-- The serial port on concrete sockets.
use ceda_cemu.Base.{◌≡◌, refl, true, false, some, [], ◌∷◌, replicate, arith}
use ceda_cemu.Base.Outcome.{ok}
use ceda_cemu.Fifo.{is_empty, count, free}
use ceda_cemu.Fifo.Refine.{contents}
use ceda_cemu.Interrupts.{no_irq}
use ceda_cemu.Sio2.Channel.{zero_channel}
use ceda_cemu.Sio2.{Sio2}
use ceda_cemu.Serial.{Serial, Devices, Sockets, static_serial, serial_open, serial_poll}
use ceda_cemu.Serial.Line.{Valid, exchange, poll_transfers}
use ceda_cemu.Serial.Closing.{failed_open_sticks}

-- The octet 7 waits for the client on descriptor 4, and the octet 9 for the guest.
abbrev connected : Serial
connected = record static_serial {
  sockfd = some 3;
  connfd = some 4;
  tx_fifo = record { head = 0; tail = 1; buffer = 7 ∷ replicate 63 0 };
  rx_fifo = record { head = 0; tail = 1; buffer = 9 ∷ replicate 63 0 };
}

connected-Valid : Valid connected
connected-Valid = record {
  rx_ring = record { head_in = omega arith; tail_in = omega arith };
  rx_size = refl;
  tx_ring = record { head_in = omega arith; tail_in = omega arith };
  tx_size = refl;
}

poll_transfers_example :
    let t = serial_poll connected (exchange (65 ∷ 66 ∷ []) 1) in
    (contents 0 t.rx_fifo ≡ 9 ∷ 65 ∷ 66 ∷ [])
    × (t.sent ≡ 7 ∷ [])
    × (is_empty t.tx_fifo ≡ true)
    × (t.connfd ≡ some 4)
    × (t.closed ≡ [])
unfolding count free
poll_transfers_example =
    poll_transfers connected 3 4 1 (65 ∷ 66 ∷ []) connected-Valid refl refl (omega arith)

abbrev port : Serial → Sio2 Devices
port serial = record {
  channels = zero_channel ∷ zero_channel ∷ [];
  sio_interrupt_vector = 0;
  interrupts = record { pending = 0; irqs = replicate 3 no_irq; line = false };
  devices = record {
    keyboard = record {
      keyboard_serial_fifo = record { head = 0; tail = 0; buffer = replicate 8 0 };
      modifiers = 0xc0;
    };
    serial = serial;
  };
}

abbrev willing : Sockets
willing = record { socket = some 5; setsockopt = true; bind = λ p. true; listen = true }

-- The port is taken.
abbrev taken : Sockets
taken = record { socket = some 5; setsockopt = true; bind = λ p. false; listen = true }

failed_open_sticks_example :
    (t : Sio2 Devices) × (serial_open (port static_serial) 0 taken ≡ ok (t, false))
    × (serial_open t 0 willing ≡ ok (t, false))
failed_open_sticks_example =
    failed_open_sticks (port static_serial) 5 0 0 taken willing refl refl refl
