-- ===== src/Fdc/Shape.antt =====
-- What the routines of a command leave alone: the phase, the operation, the sizes of the buffers
-- and the RQM bit. What becomes of the DIO bit.
use ceda_cemu.Base.{
  ℕ, zero, suc, ◌*◌, ◌-◌, ◌≤◌, ◌^◌, ◌≡◌, refl, bit_and, length, length-set, get_or, set, arith,
  Option, none, some,
}
use ceda_cemu.Base.Bits.{
  set_bits, clear_bits, and_le_mask, and-set_apart, and-set_within, and-clear_apart,
  and-clear_within,
}
use ceda_cemu.Base.Outcome.{Holds}
use ceda_cemu.Fdc.State.{PreExec, Fdc, Callback, fdc_st_rqm, fdc_st_dio}
use ceda_cemu.Fdc.Transfer.{set_error}
use ceda_cemu.Fdc.Commands.{
  load_idr, pre_exec_write_data, pre_exec_read_data, pre_exec_read_track, pre_exec_recalibrate,
  pre_exec_seek, probe_format, format_with, pre_exec_format_track, run_pre_exec,
}
use ceda_cemu.Fdc.Frame.{Frame, fdc_prepare_read-Frame, fdc_commit_write-Frame}

module _ {D : Type 0} where
  pub record Shape (s t : Fdc D) : Type 0 where
    pub status : t.fdc_status ≡ s.fdc_status
    pub currop : t.fdc_currop ≡ s.fdc_currop
    pub rqm : bit_and t.msr fdc_st_rqm ≡ bit_and s.msr fdc_st_rqm
    pub args : length t.args ≡ length s.args
    pub result : length t.result ≡ length s.result
    pub buffer : length t.exec_buffer ≡ length s.exec_buffer
    pub track : length t.track ≡ length s.track

-- A drive's busy bit lies below RQM and DIO.
pub busy_bit :
    (d : ℕ)
    → d ≤ 3
    → (bit_and (2 ^ d) fdc_st_rqm ≡ 0)
      × (bit_and (2 ^ d) fdc_st_dio ≡ 0)
      × (bit_and (255 - 2 ^ d) fdc_st_rqm ≡ fdc_st_rqm)
      × (bit_and (255 - 2 ^ d) fdc_st_dio ≡ fdc_st_dio)
busy_bit zero h = (refl, refl, refl, refl)
busy_bit (suc zero) h = (refl, refl, refl, refl)
busy_bit (suc (suc zero)) h = (refl, refl, refl, refl)
busy_bit (suc (suc (suc zero))) h = (refl, refl, refl, refl)
busy_bit (suc (suc (suc (suc d)))) h = absurd (omega arith)

-- The DIO bit that the routine before the execution phase leaves, from the bit before it.
abbrev pub pre_dio : PreExec → ℕ → ℕ
pre_dio PreExec.read_track d = fdc_st_dio
pre_dio PreExec.read_data d = fdc_st_dio
pre_dio PreExec.write_data d = 0
pre_dio _ d = d

module _ {D : Type 0} where
  abbrev Ran : PreExec → Fdc D → Fdc D → Type 0
  Ran f s t = Shape s t × (bit_and t.msr fdc_st_dio ≡ pre_dio f (bit_and s.msr fdc_st_dio))

  read_data-Ran : (s : Fdc D) → Holds (Ran PreExec.read_data s) (pre_exec_read_data s)
  unfolding pre_exec_read_data
  read_data-Ran s = ground (
    arith,
    fdc_prepare_read-Frame (load_idr (record s { msr = set_bits s.msr fdc_st_dio })),
    and-set_apart s.msr fdc_st_dio fdc_st_rqm,
    and-set_within s.msr fdc_st_dio fdc_st_dio,
  )

  write_data-Ran : (s : Fdc D) → Holds (Ran PreExec.write_data s) (pre_exec_write_data s)
  unfolding pre_exec_write_data
  write_data-Ran s = ground (
    arith,
    fdc_commit_write-Frame (load_idr (record s { msr = clear_bits s.msr fdc_st_dio })),
    and-clear_apart s.msr fdc_st_dio fdc_st_rqm,
    and-clear_within s.msr fdc_st_dio fdc_st_dio,
  )

  read_track-Ran : (s : Fdc D) → Holds (Ran PreExec.read_track s) (pre_exec_read_track s)
  unfolding pre_exec_read_track
  read_track-Ran s =
      ground (arith, read_data-Ran (record s { args = set s.args 3 1 }), length-set s.args 3 1)

  seek-Ran : (s : Fdc D) → Ran PreExec.seek s (pre_exec_seek s)
  unfolding pre_exec_seek
  seek-Ran s =
      let drive = bit_and (get_or s.args 0 0) 0x03 in
      ground (
        arith,
        length-set s.track drive (get_or s.args 1 0),
        busy_bit drive (and_le_mask (get_or s.args 0 0) 0x03),
        and-set_apart s.msr (2 ^ drive) fdc_st_rqm,
        and-set_apart s.msr (2 ^ drive) fdc_st_dio,
      )

  recalibrate-Ran : (s : Fdc D) → Ran PreExec.recalibrate s (pre_exec_recalibrate s)
  unfolding pre_exec_recalibrate
  recalibrate-Ran s =
      let drive = bit_and (get_or s.args 0 0) 0x3 in
      ground (
        arith,
        length-set s.track drive 0,
        busy_bit drive (and_le_mask (get_or s.args 0 0) 0x3),
        and-set_apart s.msr (2 ^ drive) fdc_st_rqm,
        and-set_apart s.msr (2 ^ drive) fdc_st_dio,
      )

  format_with-Frame : (cb : Option (Callback D)) (s : Fdc D) → Frame s (format_with cb s)
  unfolding format_with probe_format set_error
  format_with-Frame none s = ground arith
  format_with-Frame (some cb) s = ground arith

  format_track-Ran : (s : Fdc D) → Holds (Ran PreExec.format_track s) (pre_exec_format_track s)
  unfolding pre_exec_format_track
  format_track-Ran s = ground (
    arith,
    format_with-Frame s.write_buffer_cb (record s {
      st0 = get_or s.args 0 0;
      st1 = 0;
      st2 = 0;
      st3 = 0;
      rwcount = 0;
      rwcount_max = get_or s.args 2 0 * 4;
    }),
  )

  pub run_pre_exec-Ran : (f : PreExec) (s : Fdc D) → Holds (Ran f s) (run_pre_exec f s)
  unfolding run_pre_exec
  run_pre_exec-Ran PreExec.read_track s = read_track-Ran s
  run_pre_exec-Ran PreExec.specify s = ground arith
  run_pre_exec-Ran PreExec.write_data s = write_data-Ran s
  run_pre_exec-Ran PreExec.read_data s = read_data-Ran s
  run_pre_exec-Ran PreExec.recalibrate s = recalibrate-Ran s
  run_pre_exec-Ran PreExec.format_track s = format_track-Ran s
  run_pre_exec-Ran PreExec.seek s = seek-Ran s
