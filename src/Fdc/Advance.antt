-- ===== src/Fdc/Advance.antt =====
-- The order in which a multi-sector transfer visits the sectors.
use ceda_cemu.Base.{
  ℕ, ◌+◌, ◌*◌, ◌-◌, ◌≤◌, ◌<◌, ◌≡◌, ◌≢◌, refl, bit_and, bit_xor, Bool, true, false, not, ◌==◌,
  if◌then◌else◌, arith, Bool-cases, inl, inr, lt→ltb, le→ltb, ◌%◌,
}
use native.Mathlib.Decide.{dec_lt}
use ceda_cemu.Base.Bits.{all_below, all_below_sound}
use ceda_cemu.Fdc.State.{Idr, fdc_st0_hd, fdc_cmd_args_mt_bm}
use ceda_cemu.Fdc.Transfer.{to_bool, flip_head, advance_idr}

-- The disk side that an ID's physical head selects.
abbrev pub side : Idr → ℕ
side id = if to_bool (bit_and id.phy_head fdc_st0_hd) then 1 else 0

-- The number of a sector, on one side or on both, with `eot` sectors to a track.
abbrev pub position : ℕ → Idr → ℕ
position eot id = id.cylinder * eot + (id.record_no - 1)

abbrev pub position_both : ℕ → Idr → ℕ
position_both eot id = (id.cylinder * 2 + side id) * eot + (id.record_no - 1)

-- An ID within the disk: records count from 1, and neither counter is at the end of its byte.
pub record IsOn (eot : ℕ) (id : Idr) : Type 0 where
  pub first : 1 ≤ id.record_no
  pub last : id.record_no ≤ eot
  pub eot_small : eot < 255
  pub cylinder_small : id.cylinder < 255
  pub head_byte : id.phy_head < 256
  pub heads_agree : id.head ≡ side id

flip_table :
    all_below 256
      (λ x. if to_bool (bit_and (bit_xor x 4) 4) then bit_and x 4 == 0 else to_bool (bit_and x 4))
    ≡ true
unfolding all_below
flip_table = refl

-- Flipping the head bit changes the side.
flip_side :
    (x : ℕ)
    → x < 256
    → to_bool (bit_and (flip_head x) fdc_st0_hd) ≡ not (to_bool (bit_and x fdc_st0_hd))
flip_side x h = ground (
  arith,
  all_below_sound 256
      (λ x. if to_bool (bit_and (bit_xor x 4) 4) then bit_and x 4 == 0 else to_bool (bit_and x 4)) x
      flip_table,
)

module _ (command_args eot : ℕ) (id : Idr) (o : IsOn eot id) where
  next_record : (id.record_no + 1) % 256 ≡ id.record_no + 1
  next_record = omega (arith, o)

  next_cylinder_byte : (id.cylinder + 1) % 256 ≡ id.cylinder + 1
  next_cylinder_byte = omega (arith, o)

  -- The side before a flip, and the logical head with it.
  flips_to :
      (b : Bool)
      → to_bool (bit_and (flip_head id.phy_head) fdc_st0_hd) ≡ b
      → (side id ≡ (if b then 0 else 1)) × (id.head ≡ (if b then 0 else 1))
  flips_to true f = ground (arith, flip_side id.phy_head o.head_byte)
  flips_to false f = ground (arith, flip_side id.phy_head o.head_byte)

  within_track :
      id.record_no < eot
      → advance_idr command_args eot id ≡ record id { record_no = id.record_no + 1 }
  unfolding advance_idr
  within_track h = rw (next_record, le→ltb eot (id.record_no + 1) (omega (arith, h)))

  next_cylinder :
      id.record_no ≡ eot
      → to_bool (bit_and command_args fdc_cmd_args_mt_bm) ≡ false
      → advance_idr command_args eot id ≡ record id { record_no = 1; cylinder = id.cylinder + 1 }
  unfolding advance_idr
  next_cylinder h m =
      rw (next_record, lt→ltb eot (id.record_no + 1) (omega (arith, h)), m, next_cylinder_byte)

  other_side :
      id.record_no ≡ eot
      → to_bool (bit_and command_args fdc_cmd_args_mt_bm) ≡ true
      → to_bool (bit_and (flip_head id.phy_head) fdc_st0_hd) ≡ true
      → advance_idr command_args eot id ≡ record id {
        record_no = 1;
        phy_head = flip_head id.phy_head;
        head = if id.head == 0 then 1 else 0;
      }
  unfolding advance_idr
  other_side h m f = rw (next_record, lt→ltb eot (id.record_no + 1) (omega (arith, h)), m, f)

  first_side :
      id.record_no ≡ eot
      → to_bool (bit_and command_args fdc_cmd_args_mt_bm) ≡ true
      → to_bool (bit_and (flip_head id.phy_head) fdc_st0_hd) ≡ false
      → advance_idr command_args eot id ≡ record id {
        record_no = 1;
        phy_head = flip_head id.phy_head;
        head = if id.head == 0 then 1 else 0;
        cylinder = id.cylinder + 1;
      }
  unfolding advance_idr
  first_side h m f =
      rw (next_record, lt→ltb eot (id.record_no + 1) (omega (arith, h)), m, f, next_cylinder_byte)

-- What a transfer's step keeps: the record stays on the track.
abbrev pub OnTrack : ℕ → Idr → Type 0
OnTrack eot id = (1 ≤ id.record_no) × (id.record_no ≤ eot)

-- Without the multi-track bit, behind a sector within the disk (records from 1 to EOT, counters
-- below the end of their bytes) comes the next sector of the same side, the first one of the next
-- cylinder behind the last of a track; neither head changes.
pub advance_single :
    (command_args eot : ℕ) (id : Idr)
    → IsOn eot id
    → bit_and command_args fdc_cmd_args_mt_bm ≡ 0
    → let next = advance_idr command_args eot id in
      (position eot next ≡ position eot id + 1)
      × OnTrack eot next
      × (next.phy_head ≡ id.phy_head)
      × (next.head ≡ id.head)
advance_single command_args eot id o m = elim (dec_lt id.record_no eot) [
  | yes h ↦ rw (within_track command_args eot id o h) (omega (arith, o))
  | no h ↦
      rw (next_cylinder command_args eot id o (omega (arith, o, h)) (ground (arith, m)))
        (omega (arith, o, h))
]

-- The last record of a track is followed by the first one of the next.
to_second_side :
    (c s e r : ℕ) → s ≡ 0 → r ≡ e → 1 ≤ r → (c * 2 + 1) * e + 0 ≡ (c * 2 + s) * e + (r - 1) + 1
to_second_side c s e r h g l = rw h (omega (arith, g, l))

to_next_cylinder :
    (c s e r : ℕ)
    → s ≡ 1
    → r ≡ e
    → 1 ≤ r
    → ((c + 1) * 2 + 0) * e + 0 ≡ (c * 2 + s) * e + (r - 1) + 1
to_next_cylinder c s e r h g l = rw h (omega (arith, g, l))

-- With the multi-track bit, behind a sector within the disk (as before) comes the next sector of
-- the cylinder's two sides, and behind the last of both the first of the next cylinder; the logical
-- head stays that of the side.
pub advance_multi :
    (command_args eot : ℕ) (id : Idr)
    → IsOn eot id
    → bit_and command_args fdc_cmd_args_mt_bm ≢ 0
    → let next = advance_idr command_args eot id in
      (position_both eot next ≡ position_both eot id + 1)
      × OnTrack eot next
      × (next.head ≡ side next)
advance_multi command_args eot id o m = elim (dec_lt id.record_no eot) [
  | yes h ↦ rw (within_track command_args eot id o h) (omega (arith, o))
  | no h ↦
      let last : id.record_no ≡ eot = omega (arith, o, h) in
      let mt : to_bool (bit_and command_args fdc_cmd_args_mt_bm) ≡ true = ground (arith, m) in
      elim (Bool-cases (to_bool (bit_and (flip_head id.phy_head) fdc_st0_hd))) [
        | inl f ↦
            rw (other_side command_args eot id o last mt f, f)
              (
                to_second_side id.cylinder (side id) eot id.record_no
                    (flips_to command_args eot id o true f).0 last o.first,
                omega (arith, o),
                rw ((flips_to command_args eot id o true f).1),
              )
        | inr f ↦
            rw (first_side command_args eot id o last mt f, f)
              (
                to_next_cylinder id.cylinder (side id) eot id.record_no
                    (flips_to command_args eot id o false f).0 last o.first,
                omega (arith, o),
                rw ((flips_to command_args eot id o false f).1),
              )
      ]
]
