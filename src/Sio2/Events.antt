-- ===== src/Sio2/Events.antt =====
-- Any sequence of events keeps the controller well formed.
use ceda_cemu.Base.{ℕ, Option, none, List, [], ◌∷◌, arith}
use ceda_cemu.Base.Outcome.{Outcome, Holds, Holds-bind, ok, ◌>>=◌}
use ceda_cemu.Interrupts.Pending.{int_irq-Inv, int_cancel-Inv}
use ceda_cemu.Interrupts.Pending as Chain
use ceda_cemu.Sio2.Channel.{TryRead, TryWrite}
use ceda_cemu.Sio2.{
  Sio2, sio2_in, sio2_out, sio2_poll, sio2_attach_peripheral, sio2_detach_peripheral, sio2_restart,
}
use ceda_cemu.Sio2.Ports.{Inv}
use ceda_cemu.Sio2.Polling.{in-Inv, out-Inv, poll-Inv, restart-Inv, attach-Inv}

-- What the guest, the main loop and the emulator's commands do.
pub data Event (W : Type 0) : Type 0 where
  input : ℕ → Event W
  output : ℕ → ℕ → Event W
  polling : Event W
  attach : ℕ → Option (TryRead W) → Option (TryWrite W) → Event W
  detach : ℕ → Event W

module _ {W : Type 0} where
  unfoldable pub perform : Sio2 W → Event W → Outcome (Sio2 W)
  perform s (Event.input address) = do (t, _) ← sio2_in s address; ok t
  perform s (Event.output address value) = sio2_out s address value
  perform s Event.polling = sio2_poll s
  perform s (Event.attach i getc putc) = sio2_attach_peripheral s i getc putc
  perform s (Event.detach i) = sio2_detach_peripheral s i

  unfoldable pub perform_all : Sio2 W → List (Event W) → Outcome (Sio2 W)
  perform_all s [] = ok s
  perform_all s (e ∷ es) = do t ← perform s e; perform_all t es

  perform-Inv : (s : Sio2 W) (e : Event W) → Inv s → Holds Inv (perform s e)
  unfolding perform sio2_detach_peripheral sio2_attach_peripheral
  perform-Inv s (Event.input address) v =
      Holds-bind (λ r. Inv r.0) Inv (sio2_in s address) _ (in-Inv s address v) (λ r w. w)
  perform-Inv s (Event.output address value) v = out-Inv s address value v
  perform-Inv s Event.polling v = let (t, e, w) = poll-Inv s v in ground (arith, e, w)
  perform-Inv s (Event.attach i getc putc) v = attach-Inv s i getc putc v
  perform-Inv s (Event.detach i) v = attach-Inv s i none none v

  perform_all-Inv : (es : List (Event W)) (s : Sio2 W) → Inv s → Holds Inv (perform_all s es)
  unfolding perform_all
  perform_all-Inv [] s v = v
  perform_all-Inv (e ∷ es) s v =
      Holds-bind Inv Inv (perform s e) _ (perform-Inv s e v) (λ t w. perform_all-Inv es t w)

  -- After a restart with a well-formed interrupt chain and any accesses, polls, attachments and
  -- detachments that do not end the program, the channels and the chain are well formed: the
  -- buffers are valid rings, an octet is reported only if there is one, and the transmitter always
  -- reports that it is empty.
  pub serial_events-Inv :
      (s : Sio2 W) (keyboard : TryRead W) (es : List (Event W))
      → Chain.Inv s.interrupts
      → Holds Inv (perform_all (sio2_restart s keyboard) es)
  serial_events-Inv s keyboard es v =
      perform_all-Inv es (sio2_restart s keyboard) (restart-Inv s keyboard v)
