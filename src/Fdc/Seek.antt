-- ===== src/Fdc/Seek.antt =====
-- The seek and sense interrupt commands, from the command byte to the last result.
use ceda_cemu.Base.{
  ℕ, ◌^◌, ◌≡◌, ◌≢◌, refl, bit_and, true, false, length, length-set, get_or, set, get_or-set_self,
  get_or-set_ne, none, some, arith,
}
use ceda_cemu.Base.Bits.{set_bits, clear_bits, and-set_apart, and-clear_apart}
use ceda_cemu.Base.Outcome.{Outcome, ok, ◌>>=◌}
use ceda_cemu.Fdc.State.{
  FdcStatus, PreExec, PostExec, Operation, Fdc, fdc_st_dio, fdc_st_busy, fdc_st0_se,
}
use ceda_cemu.Fdc.Operations.{
  fdc_operations, find_operation, is_cmd_out_of_sequence, fdc_seek, fdc_sense_interrupt,
}
use ceda_cemu.Fdc.Transfer.{to_bool}
use ceda_cemu.Fdc.Commands.{run_pre_exec, pre_exec_seek, lowest_drive}
use ceda_cemu.Fdc.Results.{run_post_exec, post_exec_sense_interrupt}
use ceda_cemu.Fdc.Sequencer.{
  fdc_compute_next_status, compute_from, next_status_with, count_access, leave_cmd, leave_args,
  leave_exec, leave_result, call_pre_exec, call_post_exec, show_phase,
}
use ceda_cemu.Fdc.Ports.{select_operation, accept_command, write_phase, fdc_out}
use ceda_cemu.Fdc.Protocol.{commanded, out_command, out_arg}

abbrev seek_op : Operation
seek_op = record {
  cmd = fdc_seek;
  args_len = 2;
  result_len = 0;
  pre_exec = some PreExec.seek;
  exec = none;
  post_exec = none;
}

abbrev pub sense_op : Operation
sense_op = record {
  cmd = fdc_sense_interrupt;
  args_len = 0;
  result_len = 2;
  pre_exec = none;
  exec = none;
  post_exec = some PostExec.sense_interrupt;
}

find-seek : find_operation fdc_operations fdc_seek ≡ some seek_op
unfolding find_operation fdc_operations
find-seek = refl

module _ {D : Type 0} where
  -- A seek of the drive in `unit` to `cylinder`, as the processor issues it.
  unfoldable pub issue_seek : Fdc D → ℕ → ℕ → Outcome (Fdc D)
  issue_seek s unit cylinder = do
    t ← fdc_out s 1 fdc_seek
    u ← fdc_out t 1 unit
    fdc_out u 1 cylinder

  out_last_seek :
      (s : Fdc D) (value : ℕ)
      → s.fdc_status ≡ FdcStatus.args
      → s.fdc_currop ≡ some seek_op
      → s.rwcount ≡ 1
      → s.rwcount_max ≡ 2
      → let args = set s.args 1 value in
        let drive = bit_and (get_or args 0 0) 3 in
        fdc_out s 1 value
        ≡ ok (record s {
          fdc_status = FdcStatus.cmd;
          rwcount = 0;
          rwcount_max = 0;
          args = args;
          tc_status = false;
          int_status = true;
          track = set s.track drive (get_or args 1 0);
          st0 = drive;
          msr =
              show_phase FdcStatus.cmd
                (clear_bits (set_bits (set_bits s.msr (2 ^ drive)) fdc_st_dio) fdc_st_dio);
        })
  unfolding fdc_out write_phase fdc_compute_next_status compute_from next_status_with count_access
      leave_cmd leave_args leave_exec leave_result call_pre_exec call_post_exec run_pre_exec
      pre_exec_seek
  out_last_seek s value h c m l = ground arith

  pub out_sense :
      (s : Fdc D)
      → s.fdc_status ≡ FdcStatus.cmd
      → bit_and s.msr fdc_st_busy ≢ 0
      → let msr = set_bits (clear_bits s.msr fdc_st_dio) fdc_st_dio in
        let drive = lowest_drive 4 (bit_and s.msr fdc_st_busy) 0 in
        let msr' = clear_bits msr (2 ^ drive) in
        fdc_out s 1 fdc_sense_interrupt
        ≡ ok (record s {
          fdc_status = FdcStatus.result;
          fdc_currop = some sense_op;
          command_args = 0;
          rwcount = 0;
          rwcount_max = 2;
          tc_status = false;
          int_status = to_bool (bit_and msr' fdc_st_busy);
          msr = show_phase FdcStatus.result msr';
          result = set (set s.result 0 (set_bits s.st0 fdc_st0_se)) 1 (get_or s.track drive 0);
        })
  unfolding fdc_out write_phase accept_command select_operation is_cmd_out_of_sequence
      find_operation fdc_operations fdc_compute_next_status compute_from next_status_with
      count_access leave_cmd leave_args leave_exec leave_result call_pre_exec call_post_exec
      run_post_exec post_exec_sense_interrupt
  out_sense s h b = ground (
    arith,
    and-clear_apart s.msr fdc_st_dio fdc_st_busy,
    and-set_apart (clear_bits s.msr fdc_st_dio) fdc_st_dio fdc_st_busy,
  )

  -- The state that a seek leaves.
  abbrev pub sought : Fdc D → ℕ → ℕ → Fdc D
  sought s unit cylinder =
      let args = set (set s.args 0 unit) 1 cylinder in
      let drive = bit_and unit 3 in
      let msr =
        show_phase FdcStatus.args (show_phase FdcStatus.args (clear_bits s.msr fdc_st_dio)) in
      record s {
        fdc_status = FdcStatus.cmd;
        fdc_currop = some seek_op;
        command_args = 0;
        rwcount = 0;
        rwcount_max = 0;
        args = args;
        tc_status = false;
        int_status = true;
        track = set s.track drive cylinder;
        st0 = drive;
        msr =
            show_phase FdcStatus.cmd
              (clear_bits (set_bits (set_bits msr (2 ^ drive)) fdc_st_dio) fdc_st_dio);
      }

  seek_in_sequence : (s : Fdc D) → is_cmd_out_of_sequence s fdc_seek ≡ false
  unfolding is_cmd_out_of_sequence
  seek_in_sequence s = refl

  pub issue_seek-eq-sought :
      (s : Fdc D) (unit cylinder : ℕ)
      → s.fdc_status ≡ FdcStatus.cmd
      → length s.args ≡ 8
      → issue_seek s unit cylinder ≡ ok (sought s unit cylinder)
  unfolding issue_seek
  issue_seek-eq-sought s unit cylinder h z =
      let t = commanded s fdc_seek seek_op in
      let u = record t {
        int_status = false;
        args = set s.args 0 unit;
        rwcount = 1;
        msr = show_phase FdcStatus.args t.msr;
      } in
      ground (
        arith,
        out_command s fdc_seek seek_op h (seek_in_sequence s) find-seek,
        out_arg t unit seek_op refl refl,
        out_last_seek u cylinder refl refl refl refl,
        get_or-set_ne (set s.args 0 unit) {i = 1} {j = 0} cylinder 0,
        get_or-set_self s.args 0 unit 0,
        get_or-set_self (set s.args 0 unit) 1 cylinder 0,
        length-set s.args 0 unit,
      )
