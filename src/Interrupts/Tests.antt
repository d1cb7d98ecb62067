-- ===== src/Interrupts/Tests.antt =====
-- Runs of the interrupt chain on concrete inputs.
use ceda_cemu.Base.{◌≡◌, refl, true, false, List, [], ◌∷◌}
use ceda_cemu.Base.Outcome.{Holds, ok}
use ceda_cemu.Interrupts.{
  Irq, Interrupts, no_irq, int_irq, int_poll, int_cancel, int_pop, static_interrupts,
}
use ceda_cemu.Interrupts.Pending.{Inv, Event, irq, cancel, poll, pop, perform_all, chain_events-Inv}
use ceda_cemu.Interrupts.Priority.{acknowledge, acknowledge_all, cancel_leaves_line}

abbrev script : List Event
script = irq 2 0x20 ∷ irq 0 0x10 ∷ poll ∷ pop ∷ irq 2 0x22 ∷ cancel 2 ∷ []

chain_events-Inv_example : Holds Inv (perform_all static_interrupts script)
chain_events-Inv_example = chain_events-Inv script

-- Two requests, the one of the lower priority raised first.
abbrev two_requests : Interrupts
two_requests = record {
  pending = 2;
  irqs =
      record { request = true; byte = 0x10 } ∷ no_irq ∷ record { request = true; byte = 0x20 } ∷ [];
  line = true;
}

two_requests-Inv : Inv two_requests
two_requests-Inv = record { lines = refl; counted = refl }

acknowledge_all_example :
    (t : Interrupts) × (acknowledge 2 two_requests ≡ ok (t, 0x10 ∷ 0x20 ∷ []))
    × (t.pending ≡ 0)
    × (t.line ≡ false)
unfolding ceda_cemu.Interrupts.Priority.bytes_by_priority
acknowledge_all_example = acknowledge_all 2 two_requests two_requests-Inv refl
