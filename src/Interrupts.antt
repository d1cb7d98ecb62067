-- ===== src/Interrupts.antt =====
-- src/int.c, src/int.h: the interrupt daisy chain.
pub mod Pending
pub mod Priority
mod Tests
use ceda_cemu.Base.{
  ℕ, ◌+◌, ◌-◌, ◌%◌, ◌^◌, Bool, true, false, not, List, [], ◌∷◌, ◌==◌, ltb, if◌then◌else◌, get_or,
  set, replicate,
}
use ceda_cemu.Base.Outcome.{Fault, Outcome, ok, fault, ◌>>=◌, ◌>>◌, check}

-- `irq_t`
pub record Irq : Type 0 where
  pub request : Bool
  pub byte : ℕ

-- The static variables of int.c, and the level of the processor's INT input, which `cpu_int` sets.
pub record Interrupts : Type 0 where
  pub pending : ℕ
  pub irqs : List Irq
  pub line : Bool

-- INTPRIO_COUNT
abbrev intprio_count : ℕ
intprio_count = 3

abbrev pub intprio_sio2 : ℕ
intprio_sio2 = 1

abbrev pub no_irq : Irq
no_irq = record { request = false; byte = 0 }

-- `++pending` and `--pending` on an `unsigned int`.
abbrev increment : ℕ → ℕ
increment n = (n + 1) % 2 ^ 32

abbrev decrement : ℕ → ℕ
decrement n = (n + 2 ^ 32 - 1) % 2 ^ 32

unfoldable pub int_irq : Interrupts → ℕ → ℕ → Outcome Interrupts
int_irq s priority byte = do
  check (ltb priority intprio_count) Fault.assertion
  let old = get_or s.irqs priority no_irq
  ok (record s {
    pending = if not old.request then increment s.pending else s.pending;
    irqs = set s.irqs priority (record { request = true; byte = byte });
  })

unfoldable pub int_poll : Interrupts → Interrupts
int_poll s = if s.pending == 0 then s else record s { line = true }

unfoldable pub int_cancel : Interrupts → ℕ → Outcome Interrupts
int_cancel s priority = do
  check (ltb priority intprio_count) Fault.assertion
  let old = get_or s.irqs priority no_irq
  ok (record s {
    pending = if old.request then decrement s.pending else s.pending;
    irqs = set s.irqs priority (record old { request = false });
  })

-- The loop of `int_pop`: the byte of the first request, which is taken back.
unfoldable pub take_first : List Irq → ℕ × List Irq
take_first [] = (0, [])
take_first (irq ∷ irqs) =
    let (byte, rest) = take_first irqs in
    if irq.request then (irq.byte, record irq { request = false } ∷ irqs) else (byte, irq ∷ rest)

unfoldable pub int_pop : Interrupts → Outcome (Interrupts × ℕ)
int_pop s = do
  check (not (s.pending == 0)) Fault.assertion
  let (byte, irqs) = take_first s.irqs
  let pending = decrement s.pending
  ok (
    record s { pending = pending; irqs = irqs; line = if pending == 0 then false else s.line },
    byte,
  )

-- `int_init`, as it leaves the requests; `pending` is not reset.
unfoldable clear_requests : List Irq → List Irq
clear_requests [] = []
clear_requests (irq ∷ irqs) = record irq { request = false } ∷ clear_requests irqs

unfoldable int_init : Interrupts → Interrupts
int_init s = record s { irqs = clear_requests s.irqs }

-- The static variables when the program starts.
unfoldable pub static_interrupts : Interrupts
static_interrupts = record { pending = 0; irqs = replicate intprio_count no_irq; line = false }
