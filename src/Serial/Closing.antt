-- ===== src/Serial/Closing.antt =====
-- src/serial.c: opening and closing the port.
use ceda_cemu.Base.{
  ℕ, ◌<◌, ◌≡◌, refl, ap, ◌∙◌, false, ◌&&◌, Option, none, some, ◌∷◌, length, set, get_or-set_self,
  ◌==◌, if◌then◌else◌, arith,
}
use ceda_cemu.Base.Outcome.{ok}
use ceda_cemu.Sio2.Channel.{SioChannel, zero_channel}
use ceda_cemu.Sio2.{Sio2, channel, sio2_detach_peripheral}
use ceda_cemu.Serial.{
  Devices, Sockets, close_fd, set_serial, open_with, open_socket, serial_open, serial_close,
}

-- Once the port has been opened, `serial_close` detaches channel A and closes the client's and the
-- listening descriptor, but keeps both: the port cannot be opened again.
pub closed_for_good :
    (s : Sio2 Devices) (fd port : ℕ) (os : Sockets)
    → s.devices.serial.sockfd ≡ some fd
    → 0 < length s.channels
    → (t : Sio2 Devices) × (serial_close s ≡ ok t)
      × ((channel t 0).getc ≡ none)
      × ((channel t 0).putc ≡ none)
      × (t.devices.serial.closed ≡ fd ∷ close_fd s.devices.serial.connfd s.devices.serial.closed)
      × (serial_open t port os ≡ ok (t, false))
unfolding serial_close sio2_detach_peripheral serial_open
closed_for_good s fd port os bound n =
    let c = record (channel s 0) { getc = none; putc = none } in
    let serial = s.devices.serial in
    let t : Sio2 Devices = record s {
      channels = set s.channels 0 c;
      devices = record s.devices {
        serial = record serial {
          closed = close_fd serial.sockfd (close_fd serial.connfd serial.closed);
        };
      };
    } in
    let kept : channel t 0 ≡ c = get_or-set_self s.channels 0 c zero_channel n in
    (
      t,
      refl,
      ap (λ (d : SioChannel Devices). d.getc) kept,
      ap (λ (d : SioChannel Devices). d.putc) kept,
      ap (λ (o : Option ℕ). close_fd o (close_fd serial.connfd serial.closed)) bound,
      ap (λ (o : Option ℕ). open_with t port os o) bound,
    )

-- If the socket can be made but its options cannot be set, or it cannot be bound or listen, then
-- opening the port fails, and every later attempt fails too, whatever the system answers then.
pub failed_open_sticks :
    (s : Sio2 Devices) (fd port later : ℕ) (os next : Sockets)
    → s.devices.serial.sockfd ≡ none
    → os.socket ≡ some fd
    → (os.setsockopt && os.bind (if port == 0 then 0xcedb else port) && os.listen) ≡ false
    → (t : Sio2 Devices) × (serial_open s port os ≡ ok (t, false))
      × (serial_open t later next ≡ ok (t, false))
unfolding serial_open open_socket
failed_open_sticks s fd port later os next free made fails =
    let t : Sio2 Devices = set_serial s (record s.devices.serial { sockfd = some fd }) in
    (t, ap (open_with s port os) free ∙ ap (open_socket s port os) made ∙ ground arith, refl)
