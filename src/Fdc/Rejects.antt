-- ===== src/Fdc/Rejects.antt =====
-- Commands that the controller refuses, and accesses that end the program.
use ceda_cemu.Base.{
  ℕ, zero, suc, ◌≤◌, ◌<◌, ◌≡◌, ◌⊎◌, refl, bit_and, true, false, arith, length, get_or, set,
  get_or-set_self, none, some, ◌∙◌,
}
use ceda_cemu.Base.Bits.{set_bits, clear_bits, and-clear_apart, and-set_apart, and-set_within}
use ceda_cemu.Base.Outcome.{Fault, Outcome, ok, fault, ◌>>=◌}
use ceda_cemu.Fdc.State.{
  FdcStatus, Exec, PostExec, Operation, Fdc, exec_buffer_size, fdc_st_dio, fdc_st_busy, fdc_st0_us,
  fdc_cmd_command_bm, fdc_cmd_args_bm,
}
use ceda_cemu.Fdc.Operations.{fdc_operations, find_operation, invalid_op, is_cmd_out_of_sequence}
use ceda_cemu.Fdc.Commands.{push_byte, run_exec, exec_format_track}
use ceda_cemu.Fdc.Results.{
  run_post_exec, post_exec_sense_interrupt, post_exec_format_track, format_sectors,
}
use ceda_cemu.Fdc.Sequencer.{
  fdc_compute_next_status, compute_from, next_status_with, count_access, leave_cmd, leave_args,
  leave_exec, leave_result, call_pre_exec, call_post_exec, show_phase,
}
use ceda_cemu.Fdc.Ports.{
  set_invalid_cmd, select_operation, accept_command, call_exec, exec_current, read_phase,
  write_phase, fdc_in, fdc_out, fdc_tc_out,
}
use ceda_cemu.Fdc.Protocol.{in_last_result}
use ceda_cemu.Fdc.Seek.{sense_op}
use ceda_cemu.Fdc.Invariant.{Inv}

module _ {D : Type 0} where
  -- A command byte, and the read of the one result that a refused command has.
  unfoldable pub try_command : Fdc D → ℕ → Outcome (Fdc D × ℕ)
  try_command s value = do t ← fdc_out s 1 value; fdc_in t 1

  -- A command byte that is not accepted: out of sequence, or of no operation.
  abbrev pub IsRefused : Fdc D → ℕ → Type 0
  IsRefused s value =
      let cmd = bit_and value fdc_cmd_command_bm in
      (is_cmd_out_of_sequence s cmd ≡ true) ⊎ (find_operation fdc_operations cmd ≡ none)

  abbrev invalid_st0 : Fdc D → ℕ
  invalid_st0 s = set_bits (clear_bits s.st0 fdc_st0_us) 0x80

  abbrev refused : Fdc D → ℕ → Fdc D
  refused s value = record s {
    int_status = false;
    command_args = bit_and value fdc_cmd_args_bm;
    fdc_currop = some invalid_op;
    st0 = invalid_st0 s;
    result = set s.result 0 (invalid_st0 s);
    fdc_status = FdcStatus.result;
    tc_status = false;
    rwcount = 0;
    rwcount_max = 1;
    msr = show_phase FdcStatus.result (set_bits (clear_bits s.msr fdc_st_dio) fdc_st_dio);
  }

  invalid_phases :
      (s : Fdc D)
      → s.fdc_status ≡ FdcStatus.cmd
      → next_status_with invalid_op s
        ≡ ok (record s {
          fdc_status = FdcStatus.result;
          tc_status = false;
          rwcount = 0;
          rwcount_max = 1;
          msr = show_phase FdcStatus.result (set_bits (clear_bits s.msr fdc_st_dio) fdc_st_dio);
        })
  unfolding next_status_with count_access leave_cmd leave_args leave_exec leave_result call_pre_exec
      call_post_exec
  invalid_phases s h = ground arith

  out_refused :
      (s : Fdc D) (value : ℕ)
      → s.fdc_status ≡ FdcStatus.cmd
      → IsRefused s value
      → fdc_out s 1 value ≡ ok (refused s value)
  unfolding fdc_out write_phase accept_command select_operation set_invalid_cmd
      is_cmd_out_of_sequence fdc_compute_next_status compute_from
  out_refused s value h q = ground (
    arith,
    invalid_phases
        (record s {
          int_status = false;
          command_args = bit_and value fdc_cmd_args_bm;
          fdc_currop = some invalid_op;
          fdc_status = FdcStatus.cmd;
          st0 = invalid_st0 s;
          result = set s.result 0 (invalid_st0 s);
        })
        refl,
  )

  -- In the command phase, a command byte that is out of sequence or of no operation has one result
  -- byte, ST0 with its unit bits cleared and bit 7 set; bit 6 is as before, so that the byte has
  -- the invalid command code only if bit 6 was clear. No track and no medium changes, and the
  -- controller waits for the next command.
  pub refused_command :
      (s : Fdc D) (value : ℕ)
      → s.fdc_status ≡ FdcStatus.cmd
      → length s.result ≡ 7
      → IsRefused s value
      → (t : Fdc D) × (byte : ℕ) × (try_command s value ≡ ok (t, byte))
        × (byte ≡ set_bits (clear_bits s.st0 0x03) 0x80)
        × (bit_and byte 0x80 ≡ 0x80)
        × (bit_and byte 0x40 ≡ bit_and s.st0 0x40)
        × (t.fdc_status ≡ FdcStatus.cmd)
        × (t.track ≡ s.track)
        × (t.disk ≡ s.disk)
  unfolding try_command
  refused_command s value h z q =
      let u = refused s value in
      (
        record u {
          int_status = false;
          fdc_status = FdcStatus.cmd;
          rwcount = 0;
          rwcount_max = 0;
          msr = show_phase FdcStatus.cmd (clear_bits u.msr fdc_st_dio);
        },
        invalid_st0 s,
        ground (
          arith,
          out_refused s value h q,
          in_last_result u invalid_op refl refl refl,
          get_or-set_self s.result 0 (invalid_st0 s) 0,
        ),
        refl,
        and-set_within (clear_bits s.st0 fdc_st0_us) 0x80 0x80 refl,
        and-set_apart (clear_bits s.st0 fdc_st0_us) 0x80 0x40 refl
            ∙ and-clear_apart s.st0 fdc_st0_us 0x40 refl,
        refl,
        refl,
        refl,
      )

  -- In the command phase, with sense interrupt as the last command and no drive busy, a read of the
  -- data register runs that command again and fails its assertion.
  pub stale_sense :
      (s : Fdc D)
      → s.fdc_status ≡ FdcStatus.cmd
      → s.fdc_currop ≡ some sense_op
      → bit_and s.msr fdc_st_busy ≡ 0
      → fdc_in s 1 ≡ fault Fault.assertion
  unfolding fdc_in read_phase fdc_compute_next_status compute_from next_status_with count_access
      leave_cmd leave_args leave_exec leave_result call_pre_exec call_post_exec run_post_exec
      post_exec_sense_interrupt
  stale_sense s h c b = ground (
    arith,
    and-clear_apart s.msr fdc_st_dio fdc_st_busy,
    and-clear_apart (clear_bits s.msr fdc_st_dio) fdc_st_dio fdc_st_busy,
    and-set_apart (clear_bits (clear_bits s.msr fdc_st_dio) fdc_st_dio) fdc_st_dio fdc_st_busy,
  )

  -- In the execution phase of a format command whose counter is at the end of the sector buffer, a
  -- byte that is written to the data register is stored behind the buffer.
  pub format_overflow :
      (s : Fdc D) (op : Operation) (value : ℕ)
      → s.fdc_status ≡ FdcStatus.exec
      → s.fdc_currop ≡ some op
      → op.exec ≡ some Exec.format_track
      → exec_buffer_size ≤ s.rwcount
      → fdc_out s 1 value ≡ fault Fault.out_of_bounds
  unfolding fdc_out write_phase exec_current call_exec run_exec exec_format_track push_byte
  format_overflow s op value h c x l = ground arith

  format_sectors_null :
      (left sec : ℕ) (s : Fdc D)
      → 0 < left
      → format_sectors none left sec s ≡ fault Fault.null_pointer
  unfolding format_sectors
  format_sectors_null zero sec s h = absurd (omega arith)
  format_sectors_null (suc left) sec s h = refl

  format_null :
      (s : Fdc D)
      → s.write_buffer_cb ≡ none
      → 0 < get_or s.args 2 0
      → post_exec_format_track s ≡ fault Fault.null_pointer
  unfolding post_exec_format_track
  format_null s w p = ground (arith, format_sectors_null (get_or s.args 2 0) 0 s)

  -- In the execution phase of a format command for at least one sector, TC calls the write callback
  -- also when there is none.
  pub format_without_medium :
      (s : Fdc D) (op : Operation) (address value : ℕ)
      → s.fdc_status ≡ FdcStatus.exec
      → s.fdc_currop ≡ some op
      → op.post_exec ≡ some PostExec.format_track
      → s.write_buffer_cb ≡ none
      → 0 < get_or s.args 2 0
      → fdc_tc_out s address value ≡ fault Fault.null_pointer
  unfolding fdc_tc_out fdc_compute_next_status compute_from next_status_with count_access leave_cmd
      leave_args leave_exec call_post_exec run_post_exec
  format_without_medium s op address value h c x w p =
      ground
        (arith, format_null (record s { tc_status = false; msr = set_bits s.msr fdc_st_dio }) w p)

  -- The index assertions of `fdc_in` and `fdc_out` hold in every state that the invariant allows.
  counters_in_bounds :
      (s : Fdc D) (value : ℕ)
      → Inv s
      → (s.fdc_status ≡ FdcStatus.args
          → write_phase s.fdc_status s value ≡ ok (record s { args = set s.args s.rwcount value }))
        × (s.fdc_status ≡ FdcStatus.result
            → read_phase s.fdc_status s ≡ ok (s, get_or s.result s.rwcount 0))
  unfolding write_phase read_phase
  counters_in_bounds s value v = ground arith
