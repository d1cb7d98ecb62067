-- ===== src/Monitor/Resume.antt =====
-- A breakpoint is skipped once after it was hit, so that the processor can go on.
use ceda_cemu.Base.{ℕ, ◌≡◌, refl, Bool, true, false, none, List, [], ◌∷◌, arith}
use ceda_cemu.Base.Outcome.{ok}
use ceda_cemu.Monitor.{
  Kind, Monitor, Monitors, triggers, differs, strip, check_from, monitor_check, check_breakpoint,
  accepts_value,
}

triggers_skip :
    (m : Monitor) (address : ℕ) (b : Bool)
    → triggers (record m { skip = b }) Kind.exec address none ≡ triggers m Kind.exec address none
unfolding triggers differs
triggers_skip m address b = refl

resumed :
    (ms : List Monitor) (address : ℕ)
    → (check_from ms Kind.exec address none).1 ≡ true
    → check_from (check_from ms Kind.exec address none).0 Kind.exec address none ≡ (ms, false)
unfolding check_from
resumed [] address h = absurd (ground arith)
resumed (m ∷ ms) address h = ground (arith, resumed ms address, triggers_skip m address true)

-- If a breakpoint stops the processor at an address, the next check of that address does not, and
-- leaves all slots as they were before the stop.
pub breakpoint_resumes :
    (s t : Monitors) (address : ℕ)
    → check_breakpoint s address ≡ ok (t, true)
    → check_breakpoint t address ≡ ok (s, false)
unfolding check_breakpoint monitor_check strip accepts_value
breakpoint_resumes s t address h = ground (arith, resumed s.monitors address)
