-- ===== src/Fdc/Drives.antt =====
-- src/fdc.c: the loop of `post_exec_sense_interrupt` that looks for the drive whose busy bit is set.
use ceda_cemu.Base.{
  ℕ, ◌≤◌, ◌<◌, ◌^◌, ◌≡◌, ◌≢◌, refl, bit_and, Bool, true, not, ◌&&◌, ◌||◌, ◌==◌, leb, arith,
}
use ceda_cemu.Base.Bits.{all_below, all_below_sound, and_le_mask}
use ceda_cemu.Fdc.Commands.{lowest_drive}

-- The loop's result on a nibble: a drive, its bit set, the lower ones clear.
is_lowest : ℕ → ℕ → Bool
is_lowest busy d =
    leb d 3
    && not (bit_and busy (2 ^ d) == 0)
    && all_below 4 (λ e. leb d e || bit_and busy (2 ^ e) == 0)

lowest_drive_table : all_below 16 (λ b. b == 0 || is_lowest b (lowest_drive 4 b 0)) ≡ true
unfolding all_below lowest_drive is_lowest
lowest_drive_table = refl

lowest_drive-is_lowest :
    (m : ℕ) → bit_and m 15 ≢ 0 → is_lowest (bit_and m 15) (lowest_drive 4 (bit_and m 15) 0) ≡ true
lowest_drive-is_lowest m h = ground (
  arith,
  and_le_mask m 15,
  all_below_sound 16 (λ b. b == 0 || is_lowest b (lowest_drive 4 b 0)) (bit_and m 15)
      lowest_drive_table,
)

is_lowest_parts :
    (busy d : ℕ)
    → is_lowest busy d ≡ true
    → (d ≤ 3)
      × (bit_and busy (2 ^ d) ≢ 0)
      × (all_below 4 (λ e. leb d e || bit_and busy (2 ^ e) == 0) ≡ true)
unfolding is_lowest
is_lowest_parts busy d e = ground arith

pub record IsLowest (busy d : ℕ) : Type 0 where
  pub within : d ≤ 3
  pub set : bit_and busy (2 ^ d) ≢ 0
  pub first : (e : ℕ) → e < d → bit_and busy (2 ^ e) ≡ 0

lower :
    (busy d e : ℕ)
    → d ≤ 3
    → all_below 4 (λ e. leb d e || bit_and busy (2 ^ e) == 0) ≡ true
    → e < d
    → bit_and busy (2 ^ e) ≡ 0
lower busy d e h t lt =
    ground (arith, all_below_sound 4 (λ e. leb d e || bit_and busy (2 ^ e) == 0) e t)

-- If a busy bit is set, the drive that the sense interrupt command finds is one of the four, its
-- busy bit is set, and those of the lower drives are clear.
pub lowest_drive-IsLowest :
    (m : ℕ) → bit_and m 15 ≢ 0 → IsLowest (bit_and m 15) (lowest_drive 4 (bit_and m 15) 0)
lowest_drive-IsLowest m h =
    let busy = bit_and m 15 in
    let d = lowest_drive 4 busy 0 in
    let parts = is_lowest_parts busy d (lowest_drive-is_lowest m h) in
    record {
      within = parts.0;
      set = parts.1;
      first = λ e lt.
          ground (
            arith,
            parts.0,
            all_below_sound 4 (λ e. leb d e || bit_and busy (2 ^ e) == 0) e parts.2,
          );
    }
