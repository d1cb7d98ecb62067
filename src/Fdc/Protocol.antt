-- ===== src/Fdc/Protocol.antt =====
-- The command and argument phases, byte by byte, for every command that has arguments.
use ceda_cemu.Base.{ℕ, ◌+◌, ◌≤◌, ◌<◌, ◌≡◌, bit_and, false, get_or, set, some, arith}
use ceda_cemu.Base.Bits.{clear_bits}
use ceda_cemu.Base.Outcome.{ok}
use ceda_cemu.Fdc.State.{FdcStatus, Operation, Fdc, fdc_st_dio, fdc_cmd_command_bm, fdc_cmd_args_bm}
use ceda_cemu.Fdc.Operations.{fdc_operations, find_operation, is_cmd_out_of_sequence}
use ceda_cemu.Fdc.Sequencer.{
  fdc_compute_next_status, compute_from, next_status_with, count_access, leave_cmd, leave_args,
  leave_exec, leave_result, show_phase,
}
use ceda_cemu.Fdc.Ports.{read_phase, fdc_in, select_operation, accept_command, write_phase, fdc_out}

module _ {D : Type 0} where
  -- The state behind the command byte `value` of an operation with arguments.
  abbrev pub commanded : Fdc D → ℕ → Operation → Fdc D
  commanded s value op = record s {
    int_status = false;
    command_args = bit_and value fdc_cmd_args_bm;
    fdc_currop = some op;
    fdc_status = FdcStatus.args;
    rwcount_max = op.args_len;
    rwcount = 0;
    msr = show_phase FdcStatus.args (clear_bits s.msr fdc_st_dio);
  }

  -- From the command phase on with an operation that has arguments.
  begin_args :
      (s : Fdc D) (op : Operation)
      → s.fdc_status ≡ FdcStatus.cmd
      → 0 < op.args_len
      → next_status_with op s
        ≡ ok (record s {
          fdc_status = FdcStatus.args;
          rwcount_max = op.args_len;
          rwcount = 0;
          msr = show_phase FdcStatus.args (clear_bits s.msr fdc_st_dio);
        })
  unfolding next_status_with count_access leave_cmd leave_args leave_exec leave_result
  begin_args s op h a = ground arith

  pub out_command :
      (s : Fdc D) (value : ℕ) (op : Operation)
      → s.fdc_status ≡ FdcStatus.cmd
      → is_cmd_out_of_sequence s (bit_and value fdc_cmd_command_bm) ≡ false
      → find_operation fdc_operations (bit_and value fdc_cmd_command_bm) ≡ some op
      → 0 < op.args_len
      → fdc_out s 1 value ≡ ok (commanded s value op)
  unfolding fdc_out write_phase accept_command select_operation fdc_compute_next_status compute_from
      is_cmd_out_of_sequence
  out_command s value op h q f a = ground (
    arith,
    begin_args
        (record s {
          int_status = false;
          command_args = bit_and value fdc_cmd_args_bm;
          fdc_currop = some op;
        })
        op h a,
  )

  -- An argument that is not the last.
  pub out_arg :
      (s : Fdc D) (value : ℕ) (op : Operation)
      → s.fdc_status ≡ FdcStatus.args
      → s.fdc_currop ≡ some op
      → s.rwcount + 1 < s.rwcount_max
      → s.rwcount_max ≤ 8
      → fdc_out s 1 value
        ≡ ok (record s {
          int_status = false;
          args = set s.args s.rwcount value;
          rwcount = s.rwcount + 1;
          msr = show_phase FdcStatus.args s.msr;
        })
  unfolding fdc_out write_phase fdc_compute_next_status compute_from next_status_with count_access
      leave_cmd leave_args leave_exec leave_result
  out_arg s value op h c m l = ground arith

  -- A result that is not the last, and the last.
  pub in_result :
      (s : Fdc D) (op : Operation)
      → s.fdc_status ≡ FdcStatus.result
      → s.fdc_currop ≡ some op
      → s.rwcount + 1 < s.rwcount_max
      → s.rwcount_max ≤ 7
      → fdc_in s 1
        ≡ ok (
          record s {
            int_status = false;
            rwcount = s.rwcount + 1;
            msr = show_phase FdcStatus.result s.msr;
          },
          get_or s.result s.rwcount 0,
        )
  unfolding fdc_in read_phase fdc_compute_next_status compute_from next_status_with count_access
      leave_cmd leave_args leave_exec leave_result
  in_result s op h c m l = ground arith

  pub in_last_result :
      (s : Fdc D) (op : Operation)
      → s.fdc_status ≡ FdcStatus.result
      → s.fdc_currop ≡ some op
      → s.rwcount + 1 ≡ s.rwcount_max
      → s.rwcount_max ≤ 7
      → fdc_in s 1
        ≡ ok (
          record s {
            int_status = false;
            fdc_status = FdcStatus.cmd;
            rwcount = 0;
            rwcount_max = 0;
            msr = show_phase FdcStatus.cmd (clear_bits s.msr fdc_st_dio);
          },
          get_or s.result s.rwcount 0,
        )
  unfolding fdc_in read_phase fdc_compute_next_status compute_from next_status_with count_access
      leave_cmd leave_args leave_exec leave_result
  in_last_result s op h c m l = ground arith
