-- ===== src/Fdc/SeekSense.antt =====
-- A seek and the sense interrupt command behind it, as the BIOS issues them.
use ceda_cemu.Base.{
  ℕ, zero, suc, ◌-◌, ◌≤◌, ◌^◌, ◌≡◌, ◌≢◌, refl, bit_and, bit_or, Bool, true, false, length,
  length-set, get_or, set, get_or-set_self, get_or-set_ne, some, arith, ◌∙◌,
}
use ceda_cemu.Base.Bits.{
  set_bits, clear_bits, and_le_mask, and-or, and-and, zero-or, and-set_apart, and-clear_apart,
}
use ceda_cemu.Base.Outcome.{Outcome, ok, ◌>>=◌}
use ceda_cemu.Fdc.State.{
  FdcStatus, Fdc, fdc_st_dio, fdc_st_exm, fdc_st_cb, fdc_st_busy, fdc_st0_se, fdc_st0_us,
}
use ceda_cemu.Fdc.Operations.{fdc_sense_interrupt}
use ceda_cemu.Fdc.Transfer.{to_bool}
use ceda_cemu.Fdc.Commands.{lowest_drive}
use ceda_cemu.Fdc.Sequencer.{show_phase}
use ceda_cemu.Fdc.Ports.{fdc_in, fdc_out}
use ceda_cemu.Fdc.Protocol.{in_result, in_last_result}
use ceda_cemu.Fdc.Invariant.{Sized}
use ceda_cemu.Fdc.Seek.{issue_seek, sense_op, sought, issue_seek-eq-sought, out_sense}

-- What the processor learns: the INT line behind the seek, and the two result bytes.
pub record Sensed (D : Type 0) : Type 0 where
  pub int : Bool
  pub st0 : ℕ
  pub pcn : ℕ
  pub fdc : Fdc D

module _ {D : Type 0} where
  unfoldable pub sense : Fdc D → Outcome (Sensed D)
  sense t = do
    u ← fdc_out t 1 fdc_sense_interrupt
    (v, st0) ← fdc_in u 1
    (w, pcn) ← fdc_in v 1
    ok (record { int = t.int_status; st0 = st0; pcn = pcn; fdc = w })

  unfoldable pub seek_and_sense : Fdc D → ℕ → ℕ → Outcome (Sensed D)
  seek_and_sense s unit cylinder = do t ← issue_seek s unit cylinder; sense t

-- The busy nibble is not touched by the phase bits.
show_phase-busy :
    (st : FdcStatus) (m : ℕ) → bit_and (show_phase st m) fdc_st_busy ≡ bit_and m fdc_st_busy
unfolding show_phase
show_phase-busy FdcStatus.cmd m =
    and-clear_apart (clear_bits m fdc_st_exm) fdc_st_cb fdc_st_busy refl
    ∙ and-clear_apart m fdc_st_exm fdc_st_busy refl
show_phase-busy FdcStatus.exec m =
    and-set_apart (set_bits m fdc_st_exm) fdc_st_cb fdc_st_busy refl
    ∙ and-set_apart m fdc_st_exm fdc_st_busy refl
show_phase-busy FdcStatus.args m =
    and-set_apart (clear_bits m fdc_st_exm) fdc_st_cb fdc_st_busy refl
    ∙ and-clear_apart m fdc_st_exm fdc_st_busy refl
show_phase-busy FdcStatus.result m =
    and-set_apart (clear_bits m fdc_st_exm) fdc_st_cb fdc_st_busy refl
    ∙ and-clear_apart m fdc_st_exm fdc_st_busy refl

-- One busy bit: it is found, and clearing it leaves none.
pub record OneBusy (d : ℕ) : Type 0 where
  nibble : bit_and (2 ^ d) fdc_st_busy ≡ 2 ^ d
  pub found : lowest_drive 4 (2 ^ d) 0 ≡ d
  gone : bit_and (2 ^ d) (255 - 2 ^ d) ≡ 0
  pub mask : bit_and (255 - 2 ^ d) fdc_st_busy ≡ bit_and fdc_st_busy (255 - 2 ^ d)
  present : 2 ^ d ≢ 0

pub one_busy : (d : ℕ) → d ≤ 3 → OneBusy d
unfolding lowest_drive
one_busy zero h = record {
  nibble = refl;
  found = refl;
  gone = refl;
  mask = refl;
  present = omega arith;
}
one_busy (suc zero) h = record {
  nibble = refl;
  found = refl;
  gone = refl;
  mask = refl;
  present = omega arith;
}
one_busy (suc (suc zero)) h = record {
  nibble = refl;
  found = refl;
  gone = refl;
  mask = refl;
  present = omega arith;
}
one_busy (suc (suc (suc zero))) h = record {
  nibble = refl;
  found = refl;
  gone = refl;
  mask = refl;
  present = omega arith;
}
one_busy (suc (suc (suc (suc d)))) h = absurd (omega arith)

clear_busy :
    (m d : ℕ)
    → d ≤ 3
    → bit_and m fdc_st_busy ≡ 2 ^ d
    → bit_and (clear_bits m (2 ^ d)) fdc_st_busy ≡ 0
clear_busy m d h e =
    ground (
      arith,
      one_busy d h,
      and-and m (255 - 2 ^ d) fdc_st_busy,
      and-and m fdc_st_busy (255 - 2 ^ d),
    )

module _ {D : Type 0} where
  -- A seek adds its drive's bit to the busy nibble.
  pub sought-busy_or :
      (s : Fdc D) (unit cylinder : ℕ)
      → bit_and (sought s unit cylinder).msr fdc_st_busy
        ≡ bit_or (bit_and s.msr fdc_st_busy) (2 ^ bit_and unit 3)
  sought-busy_or s unit cylinder =
      let d = bit_and unit 3 in
      let m0 = clear_bits s.msr fdc_st_dio in
      let m = show_phase FdcStatus.args (show_phase FdcStatus.args m0) in
      let n = set_bits m (2 ^ d) in
      ground (
        arith,
        and-clear_apart s.msr fdc_st_dio fdc_st_busy,
        show_phase-busy FdcStatus.args m0,
        show_phase-busy FdcStatus.args (show_phase FdcStatus.args m0),
        and-or m (2 ^ d) fdc_st_busy,
        one_busy d (and_le_mask unit 3),
        and-set_apart n fdc_st_dio fdc_st_busy,
        and-clear_apart (set_bits n fdc_st_dio) fdc_st_dio fdc_st_busy,
        show_phase-busy FdcStatus.cmd (clear_bits (set_bits n fdc_st_dio) fdc_st_dio),
      )

  pub sought-busy :
      (s : Fdc D) (unit cylinder : ℕ)
      → bit_and s.msr fdc_st_busy ≡ 0
      → bit_and (sought s unit cylinder).msr fdc_st_busy ≡ 2 ^ bit_and unit 3
  sought-busy s unit cylinder e =
      ground (arith, sought-busy_or s unit cylinder, zero-or (2 ^ bit_and unit 3))

module _ {D : Type 0} where
  -- The state behind the sense interrupt command, and behind its two results.
  abbrev pub sensed : Fdc D → ℕ → Fdc D
  sensed s drive =
      let msr = clear_bits (set_bits (clear_bits s.msr fdc_st_dio) fdc_st_dio) (2 ^ drive) in
      record s {
        fdc_status = FdcStatus.result;
        fdc_currop = some sense_op;
        command_args = 0;
        rwcount = 0;
        rwcount_max = 2;
        tc_status = false;
        int_status = to_bool (bit_and msr fdc_st_busy);
        msr = show_phase FdcStatus.result msr;
        result = set (set s.result 0 (set_bits s.st0 fdc_st0_se)) 1 (get_or s.track drive 0);
      }

  abbrev read_once : Fdc D → Fdc D
  read_once u = record u {
    int_status = false;
    rwcount = 1;
    msr = show_phase FdcStatus.result u.msr;
  }

  abbrev pub read_twice : Fdc D → Fdc D
  read_twice u = record u {
    int_status = false;
    fdc_status = FdcStatus.cmd;
    rwcount = 0;
    rwcount_max = 0;
    msr = show_phase FdcStatus.cmd (clear_bits (show_phase FdcStatus.result u.msr) fdc_st_dio);
  }

  -- The command reports the lowest busy drive's track, and ST0 with the seek end bit.
  pub sense-eq :
      (s : Fdc D)
      → s.fdc_status ≡ FdcStatus.cmd
      → length s.result ≡ 7
      → bit_and s.msr fdc_st_busy ≢ 0
      → let drive = lowest_drive 4 (bit_and s.msr fdc_st_busy) 0 in
        sense s
        ≡ ok (record {
          int = s.int_status;
          st0 = set_bits s.st0 fdc_st0_se;
          pcn = get_or s.track drive 0;
          fdc = read_twice (sensed s drive);
        })
  unfolding sense
  sense-eq s h z b =
      let drive = lowest_drive 4 (bit_and s.msr fdc_st_busy) 0 in
      let u = sensed s drive in
      let st0 = set_bits s.st0 fdc_st0_se in
      let track = get_or s.track drive 0 in
      ground (
        arith,
        out_sense s h b,
        in_result u sense_op refl refl,
        in_last_result (read_once u) sense_op refl refl,
        length-set s.result 0 st0,
        get_or-set_self s.result 0 st0 0,
        get_or-set_ne (set s.result 0 st0) {i = 1} {j = 0} track 0,
        get_or-set_self (set s.result 0 st0) 1 track 0,
      )

  sensed-busy :
      (s : Fdc D) (drive : ℕ)
      → drive ≤ 3
      → bit_and s.msr fdc_st_busy ≡ 2 ^ drive
      → bit_and (read_twice (sensed s drive)).msr fdc_st_busy ≡ 0
  sensed-busy s drive h e =
      let m = set_bits (clear_bits s.msr fdc_st_dio) fdc_st_dio in
      let n = clear_bits m (2 ^ drive) in
      ground (
        arith,
        and-clear_apart s.msr fdc_st_dio fdc_st_busy,
        and-set_apart (clear_bits s.msr fdc_st_dio) fdc_st_dio fdc_st_busy,
        clear_busy m drive h,
        show_phase-busy FdcStatus.result n,
        show_phase-busy FdcStatus.result (show_phase FdcStatus.result n),
        and-clear_apart (show_phase FdcStatus.result (show_phase FdcStatus.result n)) fdc_st_dio
            fdc_st_busy,
        show_phase-busy FdcStatus.cmd
            (clear_bits (show_phase FdcStatus.result (show_phase FdcStatus.result n)) fdc_st_dio),
      )

  -- In the command phase with no drive busy, a seek raises the interrupt, and the sense interrupt
  -- command behind it answers ST0 with the drive and the seek end flag, and the cylinder. Then the
  -- drive's track is that cylinder, the other tracks are as before, no drive is busy, and the
  -- controller waits for a command.
  pub seek_and_sense_lem :
      (s : Fdc D) (unit cylinder : ℕ)
      → s.fdc_status ≡ FdcStatus.cmd
      → Sized s
      → bit_and s.msr fdc_st_busy ≡ 0
      → let drive = bit_and unit fdc_st0_us in
        (w : Fdc D) × (seek_and_sense s unit cylinder
          ≡ ok (record { int = true; st0 = set_bits drive fdc_st0_se; pcn = cylinder; fdc = w }))
        × (w.fdc_status ≡ FdcStatus.cmd)
        × (w.track ≡ set s.track drive cylinder)
        × (bit_and w.msr fdc_st_busy ≡ 0)
  unfolding seek_and_sense
  seek_and_sense_lem s unit cylinder h z b =
      let drive = bit_and unit fdc_st0_us in
      let t = sought s unit cylinder in
      let le : drive ≤ 3 = and_le_mask unit 3 in
      let busy : bit_and t.msr fdc_st_busy ≡ 2 ^ drive = sought-busy s unit cylinder b in
      (
        read_twice (sensed t drive),
        ground (
          arith,
          issue_seek-eq-sought s unit cylinder h z.args,
          sense-eq t refl z.result,
          one_busy drive le,
          get_or-set_self s.track drive cylinder 0,
          z.track,
        ),
        refl,
        refl,
        sensed-busy t drive le busy,
      )
