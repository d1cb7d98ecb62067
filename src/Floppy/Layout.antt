-- ===== src/Floppy/Layout.antt =====
-- The sectors tile the image.
use ceda_cemu.Base.{
  ◌↔◌, ℕ, ◌+◌, ◌*◌, ◌/◌, ◌%◌, ◌≤◌, ◌<◌, ◌≡◌, Bool, true, false, not, ◌&&◌, some, ◌==◌, ltb,
  if◌then◌else◌, arith, Bool-cases, inl, inr, ◌⊎◌,
}
use ceda_cemu.Floppy.{locate, of_bool}

-- The bytes of an image: 80 tracks of two sides.
abbrev pub image_size : ℕ
image_size = 818176

-- A sector holds the byte at `p`.
abbrev pub HoldsByte : Bool → ℕ → ℕ → ℕ → Type 0
HoldsByte head track sector p =
    (offset : ℕ) × (len : ℕ) × (locate head track sector ≡ some (offset, len))
    × (offset ≤ p)
    × (p < offset + len)

pub located_within :
    (head : Bool) (track sector offset len : ℕ)
    → locate head track sector ≡ some (offset, len)
    → (0 < len) × (offset + len ≤ image_size)
unfolding locate
located_within head track sector offset len h = ground arith

-- The sector that holds the byte at `p`.
abbrev pub head_of : ℕ → Bool
head_of p = if ltb p 4096 then false else ltb 5119 ((p + 1024) % 10240)

abbrev pub track_of : ℕ → ℕ
track_of p = if ltb p 4096 then 0 else (p + 1024) / 10240

abbrev pub sector_of : ℕ → ℕ
sector_of p = if ltb p 4096 then p / 256 else (p + 1024) % 5120 / 1024

-- The two formats, without the wrap-around.
abbrev InFirst : Bool → ℕ → ℕ → ℕ × ℕ → Type 0
InFirst head track sector at =
    (head ≡ false) × (track ≡ 0) × (sector < 16) × (at.0 ≡ sector * 256) × (at.1 ≡ 256)

abbrev InOther : Bool → ℕ → ℕ → ℕ × ℕ → Type 0
InOther head track sector at =
    (4096 ≤ at.0)
    × (sector < 5)
    × (track < 80)
    × (at.0 + 1024 ≡ track * 10240 + of_bool head * 5120 + sector * 1024)
    × (at.1 ≡ 1024)

located_form :
    (head : Bool) (track sector : ℕ) (at : ℕ × ℕ)
    → locate head track sector ≡ some at
    → InFirst head track sector at ⊎ InOther head track sector at
unfolding locate
located_form head track sector at h = elim (Bool-cases ((track == 0) && not head)) [
  | inl first ↦ inl (ground arith)
  | inr other ↦ inr (ground arith)
]

other_holder :
    (head : Bool) (track sector p o l : ℕ)
    → o ≤ p
    → p < o + l
    → InOther head track sector (o, l)
    → (head ≡ head_of p) × (track ≡ track_of p) × (sector ≡ sector_of p)
other_holder true track sector p o l a b (big, s, t, e, len) =
    (ground arith, ground arith, ground arith)
other_holder false track sector p o l a b (big, s, t, e, len) =
    (ground arith, ground arith, ground arith)

pub holder :
    (head : Bool) (track sector p : ℕ)
    → HoldsByte head track sector p
    → (head ≡ head_of p) × (track ≡ track_of p) × (sector ≡ sector_of p)
holder head track sector p (o, l, e, a, b) = elim (located_form head track sector (o, l) e) [
  | inl f ↦ ground (arith, f)
  | inr g ↦ other_holder head track sector p o l a b g
]

covered : (p : ℕ) → p < image_size → HoldsByte (head_of p) (track_of p) (sector_of p) p
unfolding locate
covered p h = elim (Bool-cases (ltb p 4096)) [
  | inl first ↦ ((p / 256) * 256, 256, ground arith, omega arith, omega arith)
  | inr later ↦ ((p / 1024) * 1024, 1024, ground arith, omega arith, omega arith)
]

-- The sectors tile the image: each byte of it lies in exactly one sector, the one whose head, track
-- and number `head_of`, `track_of` and `sector_of` compute from the byte's position.
pub sectors_tile :
    (p : ℕ) (head : Bool) (track sector : ℕ)
    → p < image_size
    → HoldsByte head track sector p
      ↔ ((head ≡ head_of p) × (track ≡ track_of p) × (sector ≡ sector_of p))
sectors_tile p head track sector h =
    (holder head track sector p, λ (a, b, c). rw (a, b, c) (covered p h))
