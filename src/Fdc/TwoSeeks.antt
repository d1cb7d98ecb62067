-- ===== src/Fdc/TwoSeeks.antt =====
-- Two drives sent to seek before a sense interrupt command.
use ceda_cemu.Base.{
  leb, ◌||◌, ◌==◌, ℕ, ◌≤◌, ◌<◌, ◌^◌, ◌≡◌, refl, bit_and, bit_or, true, length-set, set,
  get_or-set_self, get_or-set_ne, arith,
}
use ceda_cemu.Base.Bits.{set_bits, and_le_mask, mask_le_or, all_below, all_below_sound}
use ceda_cemu.Base.Outcome.{Outcome, ok, ◌>>=◌}
use ceda_cemu.Fdc.State.{FdcStatus, Fdc, fdc_st_busy, fdc_st0_se, fdc_st0_us}
use ceda_cemu.Fdc.Commands.{lowest_drive}
use ceda_cemu.Fdc.Invariant.{Sized}
use ceda_cemu.Fdc.Seek.{issue_seek, sought, issue_seek-eq-sought}
use ceda_cemu.Fdc.SeekSense.{
  Sensed, sense, sensed, read_twice, sense-eq, one_busy, sought-busy, sought-busy_or,
}

two_busy_table :
    all_below 4 (λ a. all_below 4 (λ b. leb b a || lowest_drive 4 (bit_or (2 ^ a) (2 ^ b)) 0 == a))
    ≡ true
unfolding all_below lowest_drive
two_busy_table = refl

two_busy : (a b : ℕ) → a < b → b ≤ 3 → lowest_drive 4 (bit_or (2 ^ a) (2 ^ b)) 0 ≡ a
two_busy a b h l = ground (
  arith,
  all_below_sound 4
      (λ a. all_below 4 (λ b. leb b a || lowest_drive 4 (bit_or (2 ^ a) (2 ^ b)) 0 == a)) a
      two_busy_table,
  all_below_sound 4 (λ b. leb b a || lowest_drive 4 (bit_or (2 ^ a) (2 ^ b)) 0 == a) b,
)

module _ {D : Type 0} where
  unfoldable pub seek_twice_and_sense : Fdc D → ℕ → ℕ → ℕ → ℕ → Outcome (Sensed D)
  seek_twice_and_sense s unit cylinder unit' cylinder' = do
    t ← issue_seek s unit cylinder
    u ← issue_seek t unit' cylinder'
    sense u

  -- In the command phase with no drive busy, two different drives are sent to seek, the lower one
  -- first: the sense interrupt command then answers with ST0 of the higher drive and the cylinder
  -- of the lower one.
  pub sense_mixes_drives :
      (s : Fdc D) (unit unit' cylinder cylinder' : ℕ)
      → s.fdc_status ≡ FdcStatus.cmd
      → Sized s
      → bit_and s.msr fdc_st_busy ≡ 0
      → bit_and unit fdc_st0_us < bit_and unit' fdc_st0_us
      → (w : Fdc D) × (seek_twice_and_sense s unit cylinder unit' cylinder'
          ≡ ok (record {
            int = true;
            st0 = set_bits (bit_and unit' fdc_st0_us) fdc_st0_se;
            pcn = cylinder;
            fdc = w;
          }))
  unfolding seek_twice_and_sense
  sense_mixes_drives s unit unit' cylinder cylinder' h z b lt =
      let a = bit_and unit fdc_st0_us in
      let c = bit_and unit' fdc_st0_us in
      let t = sought s unit cylinder in
      let u = sought t unit' cylinder' in
      let le : c ≤ 3 = and_le_mask unit' 3 in
      (
        read_twice (sensed u a),
        ground (
          arith,
          issue_seek-eq-sought s unit cylinder h z.args,
          issue_seek-eq-sought t unit' cylinder' refl,
          length-set (set s.args 0 unit) 1 cylinder,
          length-set s.args 0 unit,
          sense-eq u refl z.result,
          sought-busy s unit cylinder b,
          sought-busy_or t unit' cylinder',
          two_busy a c lt le,
          mask_le_or (2 ^ a) (2 ^ c),
          one_busy c le,
          get_or-set_ne (set s.track a cylinder) {i = c} {j = a} cylinder' 0,
          get_or-set_self s.track a cylinder 0,
          z.track,
        ),
      )
