-- ===== src/Serial/Line.antt =====
-- src/serial.c: a poll carries the octets between the buffers and the client.
use ceda_cemu.Base.{
  ℕ, zero, suc, ◌≤◌, ◌≡◌, refl, ap, sym, ◌∙◌, true, false, Option, none, some, List, [], ◌∷◌, ◌++◌,
  length, length-set, take, min, ltb, Bool-cases, inl, inr, arith,
}
use mathlib.Core.List.{append_assoc, append-nil}
use ceda_cemu.Fifo.{Fifo, is_empty, is_full, push, pop, count, free}
use ceda_cemu.Fifo.Refine.{
  IsValid, contents, counters, push-IsValid, pop-IsValid, count-push, count-pop, push-contents,
  pop-contents, count_lt,
}
use ceda_cemu.Serial.{
  Serial, ready, received, Network, store_received, drain, read_client, write_client, poll_client,
  poll_open, poll_with, serial_poll,
}

pub record Valid (s : Serial) : Type 0 where
  pub rx_ring : IsValid s.rx_fifo
  pub rx_size : length s.rx_fifo.buffer ≡ 64
  pub tx_ring : IsValid s.tx_fifo
  pub tx_size : length s.tx_fifo.buffer ≡ 64

store_received-contents :
    (octets : List ℕ) (f : Fifo ℕ)
    → IsValid f
    → length octets ≤ free f
    → (contents 0 (store_received f octets) ≡ contents 0 f ++ octets)
      × IsValid (store_received f octets)
      × (length (store_received f octets).buffer ≡ length f.buffer)
unfolding store_received
store_received-contents [] f v h = (sym (append-nil _), v, refl)
store_received-contents (c ∷ octets) f v h =
    let room : is_full f ≡ false = ground (arith, counters 0 f v) in
    let w = push-IsValid 0 f c v in
    let same : length (push f c).buffer ≡ length f.buffer =
      unfold push in length-set f.buffer f.tail c in
    let left : length octets ≤ free (push f c) =
      omega (
        arith,
        (counters 0 f v).0,
        (counters 0 (push f c) w).0,
        count-push 0 f c v room,
        same,
        h,
      ) in
    let (e, x, n) = store_received-contents octets (push f c) w left in
    rw room (
      e
          ∙ ap (λ (l : List ℕ). l ++ octets) (push-contents 0 f c v room)
          ∙ append_assoc (contents 0 f) (c ∷ []) octets,
      x,
      n ∙ same,
    )

drain-contents :
    (n : ℕ) (f : Fifo ℕ)
    → IsValid f
    → count f ≤ n
    → ((drain n f).0 ≡ contents 0 f) × (is_empty (drain n f).1 ≡ true)
unfolding drain
drain-contents zero f v h =
    let none_left : count f ≡ 0 = omega arith in (rw none_left refl, ground (arith, counters 0 f v))
drain-contents (suc n) f v h = elim (Bool-cases (is_empty f)) [
  | inl empty ↦
      let none_left : count f ≡ 0 = ground (arith, counters 0 f v) in
      rw empty (rw none_left refl, empty)
  | inr full ↦
      let (e, k) =
        drain-contents n (pop 0 f).1 (pop-IsValid 0 f v) (omega (arith, count-pop 0 f v full)) in
      rw full (ap (λ (l : List ℕ). (pop 0 f).0 ∷ l) e ∙ sym (pop-contents 0 f v full), k)
]

no_octets : (octets : List ℕ) → length octets ≡ 0 → octets ≡ []
no_octets [] h = refl
no_octets (c ∷ octets) h = absurd (omega arith)

-- A network whose client is ready for both, sends `octets` and takes `taken` octets.
abbrev pub exchange : List ℕ → ℕ → Network
exchange octets taken = record {
  select = ready true true;
  accept = none;
  recv = received octets;
  send = some taken;
}

sent_all :
    (s : Serial) (fd taken : ℕ)
    → Valid s
    → let t = write_client s fd (some taken) in
      (t.rx_fifo ≡ s.rx_fifo)
      × (t.sent ≡ s.sent ++ take taken (contents 0 s.tx_fifo))
      × (is_empty t.tx_fifo ≡ true)
      × (t.connfd ≡ s.connfd)
      × (t.closed ≡ s.closed)
unfolding write_client
sent_all s fd taken v =
    let (e, k) =
      drain-contents 64 s.tx_fifo v.tx_ring
        (omega (arith, count_lt 0 s.tx_fifo v.tx_ring, v.tx_size)) in
    (refl, ap (λ (l : List ℕ). s.sent ++ take taken l) e, k, refl, refl)

client_exchange :
    (s : Serial) (fd taken : ℕ) (octets : List ℕ)
    → Valid s
    → length octets ≤ free s.rx_fifo
    → let t = poll_client s fd (ready true true) (exchange octets taken) in
      (contents 0 t.rx_fifo ≡ contents 0 s.rx_fifo ++ octets)
      × (t.sent ≡ s.sent ++ take taken (contents 0 s.tx_fifo))
      × (is_empty t.tx_fifo ≡ true)
      × (t.connfd ≡ s.connfd)
      × (t.closed ≡ s.closed)
unfolding poll_client read_client
client_exchange s fd taken octets v fits = elim (Bool-cases (ltb 0 (min 64 (free s.rx_fifo)))) [
  | inl room ↦
      let (e, w, n) = store_received-contents octets s.rx_fifo v.rx_ring fits in
      let t = record s { rx_fifo = store_received s.rx_fifo octets } in
      let x : Valid t = record {
        rx_ring = w;
        rx_size = n ∙ v.rx_size;
        tx_ring = v.tx_ring;
        tx_size = v.tx_size;
      } in
      let (rx, tx, gone, conn, fds) = sent_all t fd taken x in
      rw room (ap (contents 0) rx ∙ e, tx, gone, conn, fds)
  | inr full ↦
      let nothing : octets ≡ [] = no_octets octets (ground (arith, fits)) in
      let (rx, tx, gone, conn, fds) = sent_all s fd taken v in
      rw full (
        ap (contents 0) rx
            ∙ sym (append-nil _)
            ∙ ap (λ (l : List ℕ). contents 0 s.rx_fifo ++ l) (sym nothing),
        tx,
        gone,
        conn,
        fds,
      )
]

-- With well-formed buffers, in a poll with a client that is ready for both, what the client sends,
-- at most as much as the receive buffer has room for, is added to that buffer, and `send`, which
-- takes some of it, is handed the whole transmit buffer, which is empty then; the connection stays.
pub poll_transfers :
    (s : Serial) (listening fd taken : ℕ) (octets : List ℕ)
    → Valid s
    → s.sockfd ≡ some listening
    → s.connfd ≡ some fd
    → length octets ≤ free s.rx_fifo
    → let t = serial_poll s (exchange octets taken) in
      (contents 0 t.rx_fifo ≡ contents 0 s.rx_fifo ++ octets)
      × (t.sent ≡ s.sent ++ take taken (contents 0 s.tx_fifo))
      × (is_empty t.tx_fifo ≡ true)
      × (t.connfd ≡ some fd)
      × (t.closed ≡ s.closed)
unfolding serial_poll
poll_transfers s listening fd taken octets v bound client fits =
    let net = exchange octets taken in
    let polled : serial_poll s net ≡ poll_client s fd (ready true true) net =
      ap (λ (o : Option ℕ). poll_with s o net) bound
      ∙ ap (λ (o : Option ℕ). poll_open s o net) client in
    let (rx, tx, gone, conn, fds) = client_exchange s fd taken octets v fits in
    (
      ap (λ (t : Serial). contents 0 t.rx_fifo) polled ∙ rx,
      ap (λ (t : Serial). t.sent) polled ∙ tx,
      ap (λ (t : Serial). is_empty t.tx_fifo) polled ∙ gone,
      ap (λ (t : Serial). t.connfd) polled ∙ conn ∙ client,
      ap (λ (t : Serial). t.closed) polled ∙ fds,
    )
