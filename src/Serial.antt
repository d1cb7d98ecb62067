-- ===== src/Serial.antt =====
-- src/serial.c: the serial port on a TCP socket, behind channel A of the serial controller.
pub mod Line
pub mod Closing
mod Tests
use ceda_cemu.Base.{
  ℕ, zero, suc, ◌+◌, ◌-◌, Bool, true, false, not, Option, none, some, List, [], ◌∷◌, ◌++◌, ◌==◌,
  ltb, min, if◌then◌else◌, take, replicate,
}
use ceda_cemu.Base.Outcome.{Outcome, ok, ◌>>=◌}
use ceda_cemu.Fifo.{Fifo, is_empty, is_full, push, pop, init, free}
use ceda_cemu.Keyboard.{Keyboard, keyboard_get_char}
use ceda_cemu.Sio2.Channel.{TryRead, TryWrite}
use ceda_cemu.Sio2.{Sio2, sio2_attach_peripheral, sio2_detach_peripheral}

-- SERIAL_TCP_PORT
abbrev serial_tcp_port : ℕ
serial_tcp_port = 0xcedb

-- SERIAL_NETWORK_BUFFER_SIZE
abbrev pub serial_network_buffer_size : ℕ
serial_network_buffer_size = 64

-- The static variables of serial.c; `none` stands for the descriptor -1. `closed` lists the
-- descriptors that were closed, `sent` the octets that `send` took.
pub record Serial : Type 0 where
  pub sockfd : Option ℕ
  pub connfd : Option ℕ
  pub tx_fifo : Fifo ℕ
  pub rx_fifo : Fifo ℕ
  pub closed : List ℕ
  pub sent : List ℕ

abbrev pub static_serial : Serial
static_serial = record {
  sockfd = none;
  connfd = none;
  tx_fifo = record { head = 0; tail = 0; buffer = replicate 64 0 };
  rx_fifo = record { head = 0; tail = 0; buffer = replicate 64 0 };
  closed = [];
  sent = [];
}

-- What the calls of the system answer: `select`,
pub data Select : Type 0 where
  failed timeout : Select
  ready : Bool → Bool → Select

-- `recv`,
pub data Recv : Type 0 where
  failed disconnected : Recv
  received : List ℕ → Recv

-- and, in one poll, `accept` (a descriptor or -1) and `send` (how many octets it took, or -1).
pub record Network : Type 0 where
  pub select : Select
  pub accept : Option ℕ
  pub recv : Recv
  pub send : Option ℕ

-- `serial_getChar`
unfoldable pub serial_get_char : Serial → Serial × Option ℕ
serial_get_char s =
    let (c, rest) = pop 0 s.rx_fifo in
    if is_empty s.rx_fifo then (s, none) else (record s { rx_fifo = rest }, some c)

-- `serial_putChar`
unfoldable pub serial_put_char : ℕ → Serial → Serial × Bool
serial_put_char c s =
    if is_full s.tx_fifo then (s, false) else (record s { tx_fifo = push s.tx_fifo c }, true)

-- `close(connfd); connfd = -1;`
abbrev pub drop_client : Serial → ℕ → Serial
drop_client s fd = record s { connfd = none; closed = fd ∷ s.closed }

-- The loop behind `recv`.
unfoldable pub store_received : Fifo ℕ → List ℕ → Fifo ℕ
store_received f [] = f
store_received f (c ∷ octets) =
    let rest = store_received (push f c) octets in if is_full f then f else rest

-- The loop before `send`, with `n` octets of room.
unfoldable pub drain : ℕ → Fifo ℕ → List ℕ × Fifo ℕ
drain zero f = ([], f)
drain (suc n) f =
    let (c, rest) = pop 0 f in
    let (octets, left) = drain n rest in if is_empty f then ([], f) else (c ∷ octets, left)

-- The part of `serial_poll` behind `FD_ISSET(connfd, &read_set)`; `true` is an early return.
unfoldable pub read_client : Serial → ℕ → Recv → Serial × Bool
read_client s fd Recv.failed = (drop_client s fd, true)
read_client s fd disconnected = (drop_client s fd, true)
read_client s fd (received octets) = (record s { rx_fifo = store_received s.rx_fifo octets }, false)

-- The part behind `FD_ISSET(connfd, &write_set)`.
unfoldable pub write_client : Serial → ℕ → Option ℕ → Serial
write_client s fd none =
    drop_client (record s { tx_fifo = (drain serial_network_buffer_size s.tx_fifo).1 }) fd
write_client s fd (some taken) =
    let (octets, left) = drain serial_network_buffer_size s.tx_fifo in
    record s { tx_fifo = left; sent = s.sent ++ take taken octets }

abbrev to_receive : Serial → ℕ
to_receive s = min serial_network_buffer_size (free s.rx_fifo)

-- `serial_poll` with a client,
unfoldable pub poll_client : Serial → ℕ → Select → Network → Serial
poll_client s fd Select.failed net = drop_client s fd
poll_client s fd Select.timeout net = s
poll_client s fd (ready readable writable) net =
    let (t, return) =
      if readable
      then if ltb 0 (to_receive s) then read_client s fd net.recv else (s, false)
      else (s, false) in
    if return then t else if writable then write_client t fd net.send else t

-- and without.
unfoldable pub poll_accept : Serial → Select → Network → Serial
poll_accept s Select.failed net = s
poll_accept s Select.timeout net = s
poll_accept s (ready readable writable) net = record s { connfd = net.accept }

abbrev pub poll_open : Serial → Option ℕ → Network → Serial
poll_open s none net = poll_accept s net.select net
poll_open s (some fd) net = poll_client s fd net.select net

abbrev pub poll_with : Serial → Option ℕ → Network → Serial
poll_with s none net = s
poll_with s (some listening) net = poll_open s s.connfd net

unfoldable pub serial_poll : Serial → Network → Serial
serial_poll s net = poll_with s s.sockfd net

-- The devices behind the serial controller.
pub record Devices : Type 0 where
  pub keyboard : Keyboard
  pub serial : Serial

abbrev pub from_serial : TryRead Devices
from_serial w = let (s, c) = serial_get_char w.serial in (record w { serial = s }, c)

abbrev pub to_serial : TryWrite Devices
to_serial c w = let (s, taken) = serial_put_char c w.serial in (record w { serial = s }, taken)

abbrev pub from_keyboard : TryRead Devices
from_keyboard w = let (k, c) = keyboard_get_char w.keyboard in (record w { keyboard = k }, c)

-- What the system answers when a port is opened: the socket or -1, the port that `bind` is given
-- and whether `setsockopt`, `bind` and `listen` succeed.
pub record Sockets : Type 0 where
  pub socket : Option ℕ
  pub setsockopt : Bool
  pub bind : ℕ → Bool
  pub listen : Bool

abbrev pub set_serial : Sio2 Devices → Serial → Sio2 Devices
set_serial s serial = record s { devices = record s.devices { serial = serial } }

-- `serial_open` behind the call of `socket`.
unfoldable pub open_socket : Sio2 Devices → ℕ → Sockets → Option ℕ → Outcome (Sio2 Devices × Bool)
open_socket s port os none = ok (set_serial s (record s.devices.serial { sockfd = none }), false)
open_socket s port os (some fd) =
    let opened = record s.devices.serial { sockfd = some fd } in
    let ready = record opened { tx_fifo = init opened.tx_fifo; rx_fifo = init opened.rx_fifo } in
    if not os.setsockopt
    then ok (set_serial s opened, false)
    else if not (os.bind (if port == 0 then serial_tcp_port else port))
    then ok (set_serial s opened, false)
    else if not os.listen
    then ok (set_serial s opened, false)
    else do
      t ← sio2_attach_peripheral (set_serial s ready) 0 (some from_serial) (some to_serial)
      ok (t, true)

abbrev open_with : Sio2 Devices → ℕ → Sockets → Option ℕ → Outcome (Sio2 Devices × Bool)
open_with s port os none = open_socket s port os os.socket
open_with s port os (some fd) = ok (s, false)

unfoldable pub serial_open : Sio2 Devices → ℕ → Sockets → Outcome (Sio2 Devices × Bool)
serial_open s port os = open_with s port os s.devices.serial.sockfd

-- `if (fd != -1) close(fd);`
abbrev pub close_fd : Option ℕ → List ℕ → List ℕ
close_fd none closed = closed
close_fd (some fd) closed = fd ∷ closed

-- `serial_close`, and `serial_cleanup`.
unfoldable pub serial_close : Sio2 Devices → Outcome (Sio2 Devices)
serial_close s = do
  t ← sio2_detach_peripheral s 0
  let serial = t.devices.serial
  ok (
      set_serial t
        (record serial { closed = close_fd serial.sockfd (close_fd serial.connfd serial.closed) }))
