-- ===== src/Fdc/Stream.antt =====
-- The execution phase: bytes come out of the sector buffer, and go into it, in order.
use ceda_cemu.Base.{
  ℕ, zero, suc, ◌+◌, ◌≤◌, ◌<◌, ◌≡◌, ◌≢◌, refl, true, false, arith, List, [], ◌∷◌, length, get_or,
  set, take, drop, take-drop_step, some,
}
use native.Mathlib.Numerals.{add-one}
use ceda_cemu.Base.Int.{pos}
use ceda_cemu.Base.Outcome.{Outcome, ok, ◌>>=◌}
use ceda_cemu.Fdc.State.{FdcStatus, Exec, Operation, Callback, Fdc}
use ceda_cemu.Fdc.Transfer.{request_of}
use ceda_cemu.Fdc.Commands.{
  push_byte, pull_byte, run_exec, exec_read_data, exec_write_data, exec_write_with, store_value,
  commit_buffer, end_commit,
}
use ceda_cemu.Fdc.Sequencer.{
  fdc_compute_next_status, compute_from, next_status_with, count_access, leave_cmd, leave_args,
  leave_exec, leave_result, show_phase,
}
use ceda_cemu.Fdc.Ports.{call_exec, exec_current, read_phase, write_phase, fdc_in, fdc_out}

module _ {D : Type 0} where
  -- `n` reads of the data register.
  unfoldable pub read_bytes : ℕ → Fdc D → Outcome (Fdc D × List ℕ)
  read_bytes zero s = ok (s, [])
  read_bytes (suc n) s = do (t, b) ← fdc_in s 1; (u, bs) ← read_bytes n t; ok (u, b ∷ bs)

  unfoldable pub write_bytes : List ℕ → Fdc D → Outcome (Fdc D)
  write_bytes [] s = ok s
  write_bytes (b ∷ bs) s = do t ← fdc_out s 1 b; write_bytes bs t

  -- A running command whose execution phase is `f`, not ended by TC.
  pub record Running (f : Exec) (op : Operation) (s : Fdc D) : Type 0 where
    pub status : s.fdc_status ≡ FdcStatus.exec
    pub currop : s.fdc_currop ≡ some op
    pub exec : op.exec ≡ some f
    pub tc : s.tc_status ≡ false
    pub buffer : length s.exec_buffer ≡ 1024
    pub fits : s.rwcount_max ≤ 1024

  abbrev pulled : Fdc D → Fdc D
  pulled s = record s {
    int_status = true;
    rwcount = s.rwcount + 1;
    msr = show_phase FdcStatus.exec s.msr;
  }

  stay_in_exec :
      (s : Fdc D) (op : Operation) (f : Exec)
      → s.fdc_status ≡ FdcStatus.exec
      → op.exec ≡ some f
      → s.tc_status ≡ false
      → next_status_with op s ≡ ok (record s { msr = show_phase FdcStatus.exec s.msr })
  unfolding next_status_with count_access leave_cmd leave_args leave_exec leave_result
  stay_in_exec s op f h e t = ground arith

  in_data :
      (s : Fdc D) (op : Operation)
      → Running Exec.read_data op s
      → s.rwcount < s.rwcount_max
      → fdc_in s 1 ≡ ok (pulled s, get_or s.exec_buffer s.rwcount 0)
  unfolding fdc_in read_phase exec_current call_exec run_exec exec_read_data pull_byte
      fdc_compute_next_status compute_from
  in_data s op r l = ground (
    arith,
    stay_in_exec (record s { int_status = true; rwcount = s.rwcount + 1 }) op Exec.read_data
        r.status r.exec r.tc,
  )

  -- The controller after `n` reads from a running transfer.
  pub record HasRead (n : ℕ) (s t : Fdc D) : Type 0 where
    pub status : t.fdc_status ≡ FdcStatus.exec
    pub count : t.rwcount ≡ s.rwcount + n
    pub bound : t.rwcount_max ≡ s.rwcount_max
    pub buffer : t.exec_buffer ≡ s.exec_buffer
    pub disk : t.disk ≡ s.disk

  pulled-Running :
      (s : Fdc D) (op : Operation) (f : Exec) → Running f op s → Running f op (pulled s)
  pulled-Running s op f r = ground arith

  -- In a read command that TC has not ended, `n` reads of the data register within the sector
  -- return the next `n` bytes of the sector buffer in order; the execution phase goes on, with the
  -- same buffer, bound and media.
  pub read_bytes_lem :
      (n : ℕ) (s : Fdc D) (op : Operation)
      → Running Exec.read_data op s
      → s.rwcount + n ≤ s.rwcount_max
      → (t : Fdc D) × (read_bytes n s ≡ ok (t, take n (drop s.rwcount s.exec_buffer)))
        × HasRead n s t
  unfolding read_bytes
  read_bytes_lem zero s op r l = (s, refl, ground (arith, r))
  read_bytes_lem (suc n) s op r l =
      let (t, e, h) =
        read_bytes_lem n (pulled s) op (pulled-Running s op Exec.read_data r) (omega arith) in
      (
        t,
        ground
            (arith, in_data s op r, take-drop_step s.rwcount n s.exec_buffer 0, add-one s.rwcount),
        ground arith,
      )

  abbrev pub pushed : Fdc D → ℕ → Fdc D
  pushed s value = record s {
    int_status = true;
    exec_buffer = set s.exec_buffer s.rwcount value;
    rwcount = s.rwcount + 1;
    msr = show_phase FdcStatus.exec s.msr;
  }

  pub out_data :
      (s : Fdc D) (op : Operation) (cb : Callback D) (value : ℕ)
      → Running Exec.write_data op s
      → s.write_buffer_cb ≡ some cb
      → s.rwcount + 1 < s.rwcount_max
      → fdc_out s 1 value ≡ ok (pushed s value)
  unfolding fdc_out write_phase exec_current call_exec run_exec exec_write_data exec_write_with
      store_value push_byte fdc_compute_next_status compute_from
  out_data s op cb value r c l = ground (
    arith,
    stay_in_exec
        (record s {
          int_status = true;
          exec_buffer = set s.exec_buffer s.rwcount value;
          rwcount = s.rwcount + 1;
        })
        op Exec.write_data r.status r.exec r.tc,
  )

  -- The last byte of a sector: the whole buffer goes to the medium.
  pub out_last_data :
      (s : Fdc D) (op : Operation) (cb : Callback D) (value : ℕ)
      → Running Exec.write_data op s
      → s.write_buffer_cb ≡ some cb
      → s.idr.record_no ≢ 0
      → s.rwcount + 1 ≡ s.rwcount_max
      → let reply = cb (some (set s.exec_buffer s.rwcount value)) (request_of s s.idr) s.disk in
        (n : ℕ)
        → reply.ret ≡ pos (suc n)
        → fdc_out s 1 value ≡ ok (record (pushed s value) { disk = reply.disk })
  unfolding fdc_out write_phase exec_current call_exec run_exec exec_write_data exec_write_with
      store_value push_byte commit_buffer end_commit fdc_compute_next_status compute_from
  out_last_data s op cb value r c z l n e =
      let reply = cb (some (set s.exec_buffer s.rwcount value)) (request_of s s.idr) s.disk in
      ground (
        arith,
        stay_in_exec
            (record s {
              int_status = true;
              exec_buffer = set s.exec_buffer s.rwcount value;
              rwcount = s.rwcount + 1;
              disk = reply.disk;
            })
            op Exec.write_data r.status r.exec r.tc,
      )
