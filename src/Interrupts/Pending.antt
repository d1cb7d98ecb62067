-- ===== src/Interrupts/Pending.antt =====
-- `pending` counts the asserted requests.
use ceda_cemu.Base.{
  ℕ, zero, suc, ◌+◌, ◌≤◌, ◌<◌, ◌≡◌, refl, true, false, List, [], ◌∷◌, if◌then◌else◌, get_or, set,
  length, length-set, arith,
}
use ceda_cemu.Base.Outcome.{Holds, Holds-bind, Outcome, ok, ◌>>=◌}
use ceda_cemu.Interrupts.{
  Irq, Interrupts, no_irq, int_irq, int_poll, int_cancel, take_first, int_pop, static_interrupts,
}

abbrev asserted : Irq → ℕ
asserted irq = if irq.request then 1 else 0

abbrev pub requests : List Irq → ℕ
requests [] = 0
requests (irq ∷ irqs) = asserted irq + requests irqs

pub record Inv (s : Interrupts) : Type 0 where
  pub lines : length s.irqs ≡ 3
  pub counted : s.pending ≡ requests s.irqs

pub requests-le : (irqs : List Irq) → requests irqs ≤ length irqs
requests-le [] = omega arith
requests-le (irq ∷ irqs) = ground (arith, requests-le irqs)

requests-set :
    (irqs : List Irq) (i : ℕ) (irq : Irq)
    → i < length irqs
    → requests (set irqs i irq) + asserted (get_or irqs i no_irq) ≡ requests irqs + asserted irq
requests-set [] i irq h = absurd (omega arith)
requests-set (x ∷ irqs) zero irq h = omega arith
requests-set (x ∷ irqs) (suc i) irq h = omega (arith, requests-set irqs i irq (omega arith))

pub requests-take_first :
    (irqs : List Irq) → 0 < requests irqs → requests (take_first irqs).1 + 1 ≡ requests irqs
unfolding take_first
requests-take_first [] h = absurd (omega arith)
requests-take_first (irq ∷ irqs) h = ground (arith, requests-take_first irqs)

pub length-take_first : (irqs : List Irq) → length (take_first irqs).1 ≡ length irqs
unfolding take_first
length-take_first [] = refl
length-take_first (irq ∷ irqs) = ground (arith, length-take_first irqs)

pub int_irq-Inv : (s : Interrupts) (priority byte : ℕ) → Inv s → Holds Inv (int_irq s priority byte)
unfolding int_irq
int_irq-Inv s priority byte v =
    let irq : Irq = record { request = true; byte = byte } in
    ground
      (arith, requests-le s.irqs, requests-set s.irqs priority irq, length-set s.irqs priority irq)

pub int_cancel-Inv : (s : Interrupts) (priority : ℕ) → Inv s → Holds Inv (int_cancel s priority)
unfolding int_cancel
int_cancel-Inv s priority v =
    let old = get_or s.irqs priority no_irq in
    ground (
      arith,
      requests-le s.irqs,
      requests-set s.irqs priority (record old { request = false }),
      length-set s.irqs priority (record old { request = false }),
    )

int_pop-Inv : (s : Interrupts) → Inv s → Holds (λ r. Inv r.0) (int_pop s)
unfolding int_pop
int_pop-Inv s v =
    ground (arith, requests-le s.irqs, requests-take_first s.irqs, length-take_first s.irqs)

int_poll-Inv : (s : Interrupts) → Inv s → Inv (int_poll s)
unfolding int_poll
int_poll-Inv s v = ground arith

-- What the devices, the main loop and the processor do.
pub data Event : Type 0 where
  irq : ℕ → ℕ → Event
  cancel : ℕ → Event
  poll pop : Event

unfoldable pub perform : Interrupts → Event → Outcome Interrupts
perform s (irq priority byte) = int_irq s priority byte
perform s (cancel priority) = int_cancel s priority
perform s poll = ok (int_poll s)
perform s pop = do (t, _) ← int_pop s; ok t

unfoldable pub perform_all : Interrupts → List Event → Outcome Interrupts
perform_all s [] = ok s
perform_all s (e ∷ es) = do t ← perform s e; perform_all t es

perform-Inv : (s : Interrupts) (e : Event) → Inv s → Holds Inv (perform s e)
unfolding perform
perform-Inv s (irq priority byte) v = int_irq-Inv s priority byte v
perform-Inv s (cancel priority) v = int_cancel-Inv s priority v
perform-Inv s poll v = int_poll-Inv s v
perform-Inv s pop v = Holds-bind (λ r. Inv r.0) Inv (int_pop s) _ (int_pop-Inv s v) (λ r w. w)

perform_all-Inv : (es : List Event) (s : Interrupts) → Inv s → Holds Inv (perform_all s es)
unfolding perform_all
perform_all-Inv [] s v = v
perform_all-Inv (e ∷ es) s v =
    Holds-bind Inv Inv (perform s e) _ (perform-Inv s e v) (λ t w. perform_all-Inv es t w)

pub static-Inv : Inv static_interrupts
unfolding static_interrupts
static-Inv = ground arith

-- After any requests, cancellations, polls and acknowledge cycles from the start, in any order,
-- that do not end the program, there are three request lines and `pending` is the number of the
-- asserted ones.
pub chain_events-Inv : (es : List Event) → Holds Inv (perform_all static_interrupts es)
chain_events-Inv es = perform_all-Inv es static_interrupts static-Inv
