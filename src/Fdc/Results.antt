-- ===== src/Fdc/Results.antt =====
-- src/fdc.c: the routines that run when an execution phase has ended, and fill the result buffer.
use ceda_cemu.Base.{
  ℕ, zero, suc, ◌+◌, ◌*◌, ◌%◌, ◌^◌, bit_and, true, not, Option, none, some, [], ◌∷◌, ◌==◌,
  if◌then◌else◌, get_or, set, replicate,
}
use ceda_cemu.Base.Bits.{set_bits, clear_bits}
use ceda_cemu.Base.Int.{ℤ, pos}
use ceda_cemu.Base.Outcome.{Fault, Outcome, ok, fault, ◌>>=◌, ◌>>◌, check}
use ceda_cemu.Fdc.State.{
  PostExec, Idr, Callback, Fdc, fdc_st_busy, fdc_st0_ic, fdc_st0_se, fdc_st0_hd,
}
use ceda_cemu.Fdc.Transfer.{to_bool, set_error}
use ceda_cemu.Fdc.Commands.{lowest_drive, format_request}

module _ {D : Type 0} where
  -- The ID that a transfer reports: the next one, or the current one after an error.
  unfoldable pub reported_idr : Fdc D → Idr
  reported_idr s = if bit_and s.st0 fdc_st0_ic == 0 then s.next_idr else s.idr

  -- `post_exec_read_data` and `post_exec_write_data` write the same seven bytes.
  unfoldable pub post_exec_transfer : Fdc D → Fdc D
  post_exec_transfer s =
      let id = reported_idr s in
      let st0 = clear_bits s.st0 fdc_st0_hd in
      record s {
        result =
            (if to_bool (bit_and id.phy_head fdc_st0_hd) then set_bits st0 fdc_st0_hd else st0)
            ∷ s.st1
            ∷ s.st2
            ∷ id.cylinder
            ∷ id.head
            ∷ id.record_no
            ∷ get_or s.args 4 0
            ∷ [];
      }

  unfoldable pub post_exec_sense_interrupt : Fdc D → Outcome (Fdc D)
  post_exec_sense_interrupt s =
      let fdc_busy = bit_and s.msr fdc_st_busy in
      let drive = lowest_drive 4 fdc_busy 0 in
      let msr = clear_bits s.msr (2 ^ drive) in
      do
        check (not (fdc_busy == 0)) Fault.assertion
        ok (record s {
          msr = msr;
          int_status = if to_bool (bit_and msr fdc_st_busy) then true else s.int_status;
          result = set (set s.result 0 (set_bits s.st0 fdc_st0_se)) 1 (get_or s.track drive 0);
        })

  -- The value that the two calls for one sector leave in `ret`.
  unfoldable pub flag_format : ℤ → Fdc D → Fdc D
  flag_format (pos (suc n)) s = s
  flag_format _ s = record (set_error s) { int_status = true }

  -- The second call, with a buffer of filler bytes, made if the first found the sector.
  unfoldable pub fill_sector : Callback D → ℤ → Fdc D → ℕ → ℕ → ℕ → Fdc D
  fill_sector cb (pos (suc n)) s head cylinder sector =
      let filler = replicate (suc n) (get_or s.args 4 0) in
      let r = cb (some filler) (format_request s head cylinder sector) s.disk in
      flag_format r.ret (record s { disk = r.disk })
  fill_sector cb ret s head cylinder sector = flag_format ret s

  unfoldable pub format_sector : Callback D → Fdc D → ℕ → Fdc D
  format_sector cb s sec =
      let cylinder = get_or s.exec_buffer (4 * sec) 0 in
      let head = get_or s.exec_buffer (4 * sec + 1) 0 in
      let sector = (get_or s.exec_buffer (4 * sec + 2) 0 + 255) % 256 in
      let r = cb none (format_request s head cylinder sector) s.disk in
      fill_sector cb r.ret (record s { disk = r.disk }) head cylinder sector

  -- The loop from sector `sec` on, with `left` rounds left.
  unfoldable pub format_sectors : Option (Callback D) → ℕ → ℕ → Fdc D → Outcome (Fdc D)
  format_sectors cb zero sec s = ok s
  format_sectors none (suc left) sec s = fault Fault.null_pointer
  format_sectors (some cb) (suc left) sec s =
      format_sectors (some cb) left (sec + 1) (format_sector cb s sec)

  unfoldable pub post_exec_format_track : Fdc D → Outcome (Fdc D)
  post_exec_format_track s = do
    s' ← format_sectors s.write_buffer_cb (get_or s.args 2 0) 0 s
    ok (record s' { result = s'.st0 ∷ s'.st1 ∷ s'.st2 ∷ 0 ∷ 0 ∷ 0 ∷ 0 ∷ [] })

  unfoldable pub run_post_exec : PostExec → Fdc D → Outcome (Fdc D)
  run_post_exec PostExec.write_data s = ok (post_exec_transfer s)
  run_post_exec PostExec.read_data s = ok (post_exec_transfer s)
  run_post_exec PostExec.sense_interrupt s = post_exec_sense_interrupt s
  run_post_exec PostExec.format_track s = post_exec_format_track s
