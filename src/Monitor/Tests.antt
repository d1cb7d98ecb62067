-- ===== src/Monitor/Tests.antt =====
-- Runs of the monitor on concrete inputs.
use ceda_cemu.Base.{ℕ, ◌≡◌, ◌↔◌, refl, Bool, true, false, some, List, [], ◌∷◌, replicate}
use ceda_cemu.Base.Outcome.{ok}
use ceda_cemu.Monitor.{
  Kind, Monitor, Monitors, no_monitor, static_monitors, accepts_value, strip, monitor_check,
}
use ceda_cemu.Monitor.Slots.{Inv, Action, perform_all, actions-Inv}
use ceda_cemu.Monitor.Hits.{Watched, watchpoint_hits}

abbrev script : List Action
script =
    Action.break_at 0x100
    ∷ Action.out_at 0x80 (some 7)
    ∷ Action.fetching 0x100
    ∷ Action.fetching 0x100
    ∷ Action.giving 0x80 7
    ∷ Action.remove 0
    ∷ []

actions-Inv_example : (t : Monitors) × (perform_all static_monitors script ≡ ok t) × Inv t
actions-Inv_example = actions-Inv script

abbrev entry : Kind → ℕ → Bool → ℕ → Monitor
entry kind address bound value = record {
  valid = true;
  kind = kind;
  address = address;
  skip = false;
  bind_value = bound;
  value = value;
}

-- A breakpoint, and a watchpoint on writes of 7 to a port.
abbrev two_set : Monitors
two_set = record {
  monitors =
      entry Kind.exec 0x100 false 0x55 ∷ entry Kind.write_io 0x80 true 7 ∷ replicate 6 no_monitor;
  valid_breakpoints = 2;
}

two_set-Inv : Inv two_set
two_set-Inv = record { slots = refl; counted = refl }

watchpoint_hits_example :
    (hit : Bool) × (monitor_check two_set Kind.write_io 0x1280 (some 7) ≡ ok (two_set, hit))
    × ((hit ≡ true) ↔ Watched two_set.monitors Kind.write_io 0x80 (some 7))
unfolding accepts_value strip
watchpoint_hits_example =
    watchpoint_hits two_set Kind.write_io 0x1280 (some 7) two_set-Inv refl refl
