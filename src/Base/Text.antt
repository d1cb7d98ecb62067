-- ===== src/Base/Text.antt =====
-- C strings: lists of octets without the NUL that ends them.
use Prim.Native.Nat.{ℕ}
use Prim.Native.Char.{code}
use Prim.Native.String.{String}
use mathlib.Core.Path.{◌≡◌, refl}
use mathlib.Core.Logic.{◌≢◌, ◌↔◌}
use mathlib.Core.Bool.{Bool, true, false, ◌&&◌}
use mathlib.Core.List.{List, [], ◌∷◌}
use native.Mathlib.Omega.{arith}
use ceda_cemu.Base.Tests.{◌==◌, if◌then◌else◌}

-- The octets of a literal.
abbrev pub codes : String → List ℕ
codes String.[] = []
codes (String.◌∷◌ c s) = code c ∷ codes s

-- `strcmp(s, t) == 0`
abbrev pub str_eq : List ℕ → List ℕ → Bool
str_eq [] [] = true
str_eq [] (c ∷ t) = false
str_eq (c ∷ s) [] = false
str_eq (c ∷ s) (d ∷ t) = c == d && str_eq s t

-- The string that a buffer holds.
abbrev pub c_string : List ℕ → List ℕ
c_string [] = []
c_string (c ∷ s) = if c == 0 then [] else c ∷ c_string s

-- No octet is NUL.
abbrev pub NoNul : List ℕ → Type 0
NoNul [] = Unit
NoNul (c ∷ s) = (c ≢ 0) × NoNul s

pub str_eq_iff : (s t : List ℕ) → (str_eq s t ≡ true) ↔ (s ≡ t)
str_eq_iff [] [] = (λ e. refl, λ e. refl)
str_eq_iff [] (c ∷ t) = (λ e. cc, λ e. cc)
str_eq_iff (c ∷ s) [] = (λ e. cc, λ e. cc)
str_eq_iff (c ∷ s) (d ∷ t) =
    (λ e. ground (arith, str_eq_iff s t), λ e. ground (arith, str_eq_iff s t))
