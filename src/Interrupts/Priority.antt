-- ===== src/Interrupts/Priority.antt =====
-- Which request the processor is given, and when the INT line falls.
use ceda_cemu.Base.{
  ℕ, zero, suc, ◌<◌, ◌≡◌, refl, true, false, List, [], ◌∷◌, ◌==◌, if◌then◌else◌, get_or, set,
  get_or-set_self, length-set, arith,
}
use ceda_cemu.Base.Outcome.{Fault, Outcome, ok, fault, ◌>>=◌}
use ceda_cemu.Interrupts.{
  Irq, Interrupts, no_irq, int_irq, int_poll, int_cancel, take_first, int_pop,
}
use ceda_cemu.Interrupts.Pending.{
  Inv, requests, requests-le, requests-take_first, length-take_first,
}

-- The bytes of the asserted requests, from the highest priority to the lowest.
unfoldable pub bytes_by_priority : List Irq → List ℕ
bytes_by_priority [] = []
bytes_by_priority (irq ∷ irqs) =
    if irq.request then irq.byte ∷ bytes_by_priority irqs else bytes_by_priority irqs

-- `n` acknowledge cycles of the processor.
unfoldable pub acknowledge : ℕ → Interrupts → Outcome (Interrupts × List ℕ)
acknowledge zero s = ok (s, [])
acknowledge (suc n) s = do (t, byte) ← int_pop s; (u, bytes) ← acknowledge n t; ok (u, byte ∷ bytes)

bytes-take_first :
    (irqs : List Irq)
    → 0 < requests irqs
    → bytes_by_priority irqs ≡ (take_first irqs).0 ∷ bytes_by_priority (take_first irqs).1
unfolding bytes_by_priority take_first
bytes-take_first [] h = absurd (omega arith)
bytes-take_first (irq ∷ irqs) h = ground (arith, bytes-take_first irqs)

bytes_none : (irqs : List Irq) → requests irqs ≡ 0 → bytes_by_priority irqs ≡ []
unfolding bytes_by_priority
bytes_none [] h = refl
bytes_none (irq ∷ irqs) h = ground (arith, bytes_none irqs)

abbrev popped : Interrupts → ℕ → Interrupts
popped s n = record s {
  pending = n;
  irqs = (take_first s.irqs).1;
  line = if n == 0 then false else s.line;
}

pop_one :
    (s : Interrupts) (n : ℕ)
    → Inv s
    → s.pending ≡ suc n
    → int_pop s ≡ ok (popped s n, (take_first s.irqs).0)
unfolding int_pop
pop_one s n v h = ground (arith, requests-le s.irqs)

popped-Inv : (s : Interrupts) (n : ℕ) → Inv s → s.pending ≡ suc n → Inv (popped s n)
popped-Inv s n v h = ground (arith, requests-take_first s.irqs, length-take_first s.irqs)

-- In a well-formed state, as many acknowledge cycles as requests are pending give the devices'
-- bytes from the highest priority to the lowest; then nothing is pending, and the line is released
-- if anything was.
pub acknowledge_all :
    (n : ℕ) (s : Interrupts)
    → Inv s
    → s.pending ≡ n
    → (t : Interrupts) × (acknowledge n s ≡ ok (t, bytes_by_priority s.irqs))
      × (t.pending ≡ 0)
      × (t.line ≡ (if n == 0 then s.line else false))
unfolding acknowledge
acknowledge_all zero s v h = (s, ground (arith, bytes_none s.irqs), h, refl)
acknowledge_all (suc n) s v h =
    let (t, e, z, l) = acknowledge_all n (popped s n) (popped-Inv s n v h) refl in
    (t, ground (arith, pop_one s n v h, bytes-take_first s.irqs), z, ground arith)

no_request : (irqs : List Irq) (i : ℕ) → requests irqs ≡ 0 → (get_or irqs i no_irq).request ≡ false
no_request [] i h = refl
no_request (irq ∷ irqs) zero h = ground arith
no_request (irq ∷ irqs) (suc i) h = no_request irqs i (ground arith)

-- In a well-formed state with nothing pending, a request that is polled and then cancelled leaves
-- the line asserted, and the processor's acknowledge cycle then fails its assertion.
pub cancel_leaves_line :
    (s : Interrupts) (priority byte : ℕ)
    → Inv s
    → s.pending ≡ 0
    → priority < 3
    → (t : Interrupts) × ((int_irq s priority byte >>= λ u. int_cancel (int_poll u) priority)
        ≡ ok t)
      × (t.line ≡ true)
      × (int_pop t ≡ fault Fault.assertion)
unfolding int_irq int_poll int_cancel int_pop
cancel_leaves_line s priority byte v z h =
    let raised : Irq = record { request = true; byte = byte } in
    let irqs = set s.irqs priority raised in
    let t : Interrupts = record {
      pending = 0;
      irqs = set irqs priority (record raised { request = false });
      line = true;
    } in
    (
      t,
      ground (
        arith,
        no_request s.irqs priority,
        length-set s.irqs priority raised,
        get_or-set_self s.irqs priority raised no_irq,
      ),
      refl,
      refl,
    )
