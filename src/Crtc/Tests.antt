-- ===== src/Crtc/Tests.antt =====
-- Runs of the video controller's registers on concrete inputs.
use ceda_cemu.Base.{ℕ, List, [], ◌∷◌}
use ceda_cemu.Base.Outcome.{Holds}
use ceda_cemu.Crtc.{crtc_restart}
use ceda_cemu.Crtc.Registers.{Inv, outs, outs-Inv}

-- Out of range selections, a register that is too narrow, the light pen, and a bad port.
abbrev script : List (ℕ × ℕ)
script = (0, 10) ∷ (1, 0xff) ∷ (0, 18) ∷ (1, 0x60) ∷ (0, 16) ∷ (1, 1) ∷ []

outs-Inv_example : Holds Inv (outs crtc_restart script)
outs-Inv_example = outs-Inv script
