-- ===== src/Fdc/Runs.antt =====
-- What the routines of the execution phase, and those behind it, leave alone.
use ceda_cemu.Base.{
  ℕ, zero, suc, ◌+◌, ◌^◌, ◌≡◌, bit_and, length, length-set, get_or, set, arith, Option, none, some,
  if◌then◌else◌, leb, ltb, true, Bool, Bool-cases, inl, inr, ◌≢◌,
}
use ceda_cemu.Base.Bits.{set_bits, and-clear_apart}
use ceda_cemu.Base.Outcome.{Holds, Holds-bind, Holds-map, Outcome, ok, ◌>>=◌}
use ceda_cemu.Fdc.State.{
  Exec, PostExec, Fdc, Callback, fdc_st_rqm, fdc_st_dio, fdc_st_busy, fdc_st0_se,
}
use ceda_cemu.Fdc.Transfer.{set_error, fdc_prepare_read, fdc_commit_write}
use ceda_cemu.Fdc.Commands.{
  lowest_drive, push_byte, pull_byte, end_commit, commit_buffer, store_value, exec_write_with,
  exec_write_data, exec_read_data, exec_format_track, run_exec,
}
use ceda_cemu.Fdc.Results.{
  post_exec_transfer, post_exec_sense_interrupt, flag_format, fill_sector, format_sector,
  format_sectors, post_exec_format_track, run_post_exec,
}
use ceda_cemu.Fdc.Frame.{Frame, Frame-trans, fdc_prepare_read-Frame, fdc_commit_write-Frame}
use ceda_cemu.Fdc.Drives.{lowest_drive-IsLowest}
use ceda_cemu.Fdc.Shape.{Shape, busy_bit}

module _ {D : Type 0} where
  push_byte-Frame : (s : Fdc D) (value : ℕ) → Holds (Frame s) (push_byte s value)
  unfolding push_byte
  push_byte-Frame s value = ground (arith, length-set s.exec_buffer s.rwcount value)

  pull_byte-Frame : (s : Fdc D) → Holds (λ r. Frame s r.0) (pull_byte s)
  unfolding pull_byte
  pull_byte-Frame s = ground arith

  commit_buffer-Frame : (cb : Callback D) (s : Fdc D) → Holds (Frame s) (commit_buffer cb s)
  unfolding commit_buffer end_commit set_error
  commit_buffer-Frame cb s = ground arith

  store_value-Frame :
      (cb : Callback D) (s : Fdc D) (value : ℕ) → Holds (Frame s) (store_value cb s value)
  unfolding store_value
  store_value-Frame cb s value =
      Holds-bind (Frame s) (Frame s) (push_byte s value) _ (push_byte-Frame s value)
        (λ (t : Fdc D) f. ground (arith, commit_buffer-Frame cb (record t { int_status = true })))

  -- A routine run on the state that `fdc_commit_write` or `fdc_prepare_read` leaves.
  after-Frame :
      (s : Fdc D) (m : Outcome (Fdc D × Bool)) (f : Fdc D × Bool → Outcome (Fdc D))
      → Holds (λ r. Frame s r.0) m
      → ((r : Fdc D × Bool) → Holds (Frame r.0) (f r))
      → Holds (Frame s) (m >>= f)
  after-Frame s m f h k =
      Holds-bind (λ r. Frame s r.0) (Frame s) m f h
        (λ r g. Holds-map (Frame r.0) (Frame s) (f r) (λ t e. Frame-trans g e) (k r))

  store_ready-Frame :
      (cb : Callback D) (value : ℕ) (r : Fdc D × Bool)
      → Holds (Frame r.0) (if r.1 then store_value cb r.0 value else ok r.0)
  store_ready-Frame cb value (t, ready) = ground (arith, store_value-Frame cb t value)

  exec_write_with-Frame :
      (cb : Option (Callback D)) (s : Fdc D) (value : ℕ)
      → Holds (Frame s) (exec_write_with cb s value)
  unfolding exec_write_with
  exec_write_with-Frame none s value = ground arith
  exec_write_with-Frame (some cb) s value = elim (Bool-cases (leb s.rwcount_max s.rwcount)) [
    | inl full ↦ rw full (
        after-Frame s (fdc_commit_write s) _ (fdc_commit_write-Frame s)
          (store_ready-Frame cb value))
    | inr room ↦ rw room (store_value-Frame cb s value)
  ]

  pull_ready-Frame :
      (r : Fdc D × Bool) → Holds (λ p. Frame r.0 p.0) (if r.1 then pull_byte r.0 else ok (r.0, 0))
  pull_ready-Frame (t, ready) = ground (arith, pull_byte-Frame t)

  exec_read_data-Frame : (s : Fdc D) → Holds (λ r. Frame s r.0) (exec_read_data s)
  unfolding exec_read_data
  exec_read_data-Frame s = elim (Bool-cases (ltb s.rwcount s.rwcount_max)) [
    | inl more ↦ rw more (ground (arith, pull_byte-Frame s))
    | inr done ↦ rw done (
        Holds-bind (λ p. Frame s p.0) (λ p. Frame s p.0) _ _
          (Holds-bind (λ r. Frame s r.0) (λ p. Frame s p.0) (fdc_prepare_read s) _
            (fdc_prepare_read-Frame s)
            (λ r g.
              Holds-map (λ p. Frame r.0 p.0) (λ p. Frame s p.0) _ (λ p e. Frame-trans g e)
                (pull_ready-Frame r)))
          (λ p f. ground arith))
  ]

  pub run_exec-Frame :
      (f : Exec) (s : Fdc D) (value : ℕ) → Holds (λ r. Frame s r.0) (run_exec f s value)
  unfolding run_exec exec_write_data exec_format_track
  run_exec-Frame Exec.write_data s value =
      ground (arith, exec_write_with-Frame s.write_buffer_cb s value)
  run_exec-Frame Exec.read_data s value = exec_read_data-Frame s
  run_exec-Frame Exec.format_track s value = ground (arith, push_byte-Frame s value)

  -- The DIO bit survives what fills the result buffer.
  abbrev pub Keeps : Fdc D → Fdc D → Type 0
  Keeps s t = Shape s t × (bit_and t.msr fdc_st_dio ≡ bit_and s.msr fdc_st_dio)

  transfer-Keeps : (s : Fdc D) → length s.result ≡ 7 → Keeps s (post_exec_transfer s)
  unfolding post_exec_transfer
  transfer-Keeps s h = ground arith

  sense_interrupt-Keeps : (s : Fdc D) → Holds (Keeps s) (post_exec_sense_interrupt s)
  unfolding post_exec_sense_interrupt
  sense_interrupt-Keeps s =
      let busy = bit_and s.msr fdc_st_busy in
      let drive = lowest_drive 4 busy 0 in
      ground (
        arith,
        λ (h : busy ≢ 0). busy_bit drive (lowest_drive-IsLowest s.msr h).within,
        and-clear_apart s.msr (2 ^ drive) fdc_st_rqm,
        and-clear_apart s.msr (2 ^ drive) fdc_st_dio,
        length-set s.result 0 (set_bits s.st0 fdc_st0_se),
        length-set (set s.result 0 (set_bits s.st0 fdc_st0_se)) 1 (get_or s.track drive 0),
      )

  format_sector-Frame : (cb : Callback D) (s : Fdc D) (sec : ℕ) → Frame s (format_sector cb s sec)
  unfolding format_sector fill_sector flag_format set_error
  format_sector-Frame cb s sec = ground arith

  format_sectors-Frame :
      (cb : Option (Callback D)) (left sec : ℕ) (s : Fdc D)
      → Holds (Frame s) (format_sectors cb left sec s)
  unfolding format_sectors
  format_sectors-Frame cb zero sec s = ground arith
  format_sectors-Frame none (suc left) sec s = tt
  format_sectors-Frame (some cb) (suc left) sec s =
      Holds-map (Frame (format_sector cb s sec)) (Frame s) _
        (λ t f. Frame-trans (format_sector-Frame cb s sec) f)
        (format_sectors-Frame (some cb) left (sec + 1) (format_sector cb s sec))

  format_track-Keeps :
      (s : Fdc D) → length s.result ≡ 7 → Holds (Keeps s) (post_exec_format_track s)
  unfolding post_exec_format_track
  format_track-Keeps s h =
      ground (arith, format_sectors-Frame s.write_buffer_cb (get_or s.args 2 0) 0 s)

  pub run_post_exec-Keeps :
      (f : PostExec) (s : Fdc D) → length s.result ≡ 7 → Holds (Keeps s) (run_post_exec f s)
  unfolding run_post_exec
  run_post_exec-Keeps PostExec.write_data s h = transfer-Keeps s h
  run_post_exec-Keeps PostExec.read_data s h = transfer-Keeps s h
  run_post_exec-Keeps PostExec.sense_interrupt s h = sense_interrupt-Keeps s
  run_post_exec-Keeps PostExec.format_track s h = format_track-Keeps s h
