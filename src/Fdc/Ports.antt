-- ===== src/Fdc/Ports.antt =====
-- src/fdc.c: the routines that the bus, the TC line and the floppy drives call.
use ceda_cemu.Base.{
  ℕ, bit_and, Bool, true, false, Option, none, some, ◌==◌, ltb, if◌then◌else◌, get_or, set,
  replicate,
}
use ceda_cemu.Base.Bits.{set_bits, clear_bits}
use ceda_cemu.Base.Outcome.{Fault, Outcome, ok, fault, ◌>>=◌, ◌>>◌, check}
use ceda_cemu.Fdc.State.{
  FdcStatus, Exec, Operation, Idr, Callback, Fdc, fdc_st_rqm, fdc_st_dio, fdc_st0_us,
  fdc_cmd_command_bm, fdc_cmd_args_bm, exec_buffer_size,
}
use ceda_cemu.Fdc.Operations.{
  fdc_operations, find_operation, invalid_op, is_cmd_out_of_sequence, fdc_read_data, fdc_write_data,
}
use ceda_cemu.Fdc.Transfer.{fdc_prepare_read, fdc_commit_write}
use ceda_cemu.Fdc.Commands.{run_exec}
use ceda_cemu.Fdc.Sequencer.{fdc_compute_next_status, is_exec}

-- `fdc_status == EXEC && fdc_currop->cmd == cmd`, where a NULL operation faults.
unfoldable pub executing : FdcStatus → Option Operation → ℕ → Outcome Bool
executing FdcStatus.exec none cmd = fault Fault.null_pointer
executing FdcStatus.exec (some op) cmd = ok (op.cmd == cmd)
executing _ currop cmd = ok false

module _ {D : Type 0} where
  unfoldable pub fdc_restart : Fdc D → Fdc D
  fdc_restart s = record s {
    fdc_status = FdcStatus.cmd;
    fdc_currop = none;
    rwcount_max = 0;
    result = replicate 7 0;
    tc_status = false;
    int_status = false;
    msr = fdc_st_rqm;
    track = replicate 4 0;
  }

  unfoldable pub set_invalid_cmd : Fdc D → Fdc D
  set_invalid_cmd s =
      let st0 = set_bits (clear_bits s.st0 fdc_st0_us) 0x80 in
      record s {
        fdc_currop = some invalid_op;
        fdc_status = FdcStatus.cmd;
        st0 = st0;
        result = set s.result 0 st0;
      }

  -- `if (fdc_currop && fdc_currop->exec)`, with its log line as the other branch.
  unfoldable pub call_exec : Option Exec → Fdc D → ℕ → Outcome (Fdc D × ℕ)
  call_exec none s value = ok (s, 0)
  call_exec (some f) s value = run_exec f s value

  unfoldable pub exec_current : Option Operation → Fdc D → ℕ → Outcome (Fdc D × ℕ)
  exec_current none s value = ok (s, 0)
  exec_current (some op) s value = call_exec op.exec s value

  -- What a read of the data register does in each phase, before the next status is computed.
  unfoldable pub read_phase : FdcStatus → Fdc D → Outcome (Fdc D × ℕ)
  read_phase FdcStatus.cmd s = ok (record s { msr = clear_bits s.msr fdc_st_dio }, s.st0)
  read_phase FdcStatus.args s = ok (s, 0)
  read_phase FdcStatus.exec s = exec_current s.fdc_currop s 0
  read_phase FdcStatus.result s = do
    check (ltb s.rwcount 7) Fault.assertion
    ok (s, get_or s.result s.rwcount 0)

  unfoldable pub fdc_in : Fdc D → ℕ → Outcome (Fdc D × ℕ)
  fdc_in s address =
      let s' = record s { int_status = false } in
      if bit_and address 0x01 == 0
      then ok (s', s'.msr)
      else do (t, value) ← read_phase s'.fdc_status s'; u ← fdc_compute_next_status t; ok (u, value)

  unfoldable pub select_operation : Option Operation → Fdc D → Fdc D
  select_operation none s = set_invalid_cmd s
  select_operation (some op) s = record s { fdc_currop = some op }

  -- The command byte: its option bits, and the operation that it selects.
  unfoldable pub accept_command : Fdc D → ℕ → Fdc D
  accept_command s value =
      let cmd = bit_and value fdc_cmd_command_bm in
      let s' = record s { command_args = bit_and value fdc_cmd_args_bm; fdc_currop = none } in
      select_operation
        (if is_cmd_out_of_sequence s' cmd then none else find_operation fdc_operations cmd) s'

  -- What a write of the data register does in each phase.
  unfoldable pub write_phase : FdcStatus → Fdc D → ℕ → Outcome (Fdc D)
  write_phase FdcStatus.cmd s value = ok (accept_command s value)
  write_phase FdcStatus.args s value = do
    check (ltb s.rwcount 8) Fault.assertion
    ok (record s { args = set s.args s.rwcount value })
  write_phase FdcStatus.exec s value = do (s', _) ← exec_current s.fdc_currop s value; ok s'
  write_phase FdcStatus.result s value = ok s

  unfoldable pub fdc_out : Fdc D → ℕ → ℕ → Outcome (Fdc D)
  fdc_out s address value =
      let s' = record s { int_status = false } in
      if bit_and address 0x01 == 0
      then ok s'
      else do t ← write_phase s'.fdc_status s' value; fdc_compute_next_status t

  unfoldable pub fdc_tc_out : Fdc D → ℕ → ℕ → Outcome (Fdc D)
  fdc_tc_out s address value =
      if is_exec s.fdc_status then fdc_compute_next_status (record s { tc_status = true }) else ok s

  abbrev pub fdc_get_int_status : Fdc D → Bool
  fdc_get_int_status s = s.int_status

  -- The two `if`s of `fdc_kickDiskImage`.
  unfoldable pub kick_read : Fdc D → Bool → Outcome (Fdc D)
  kick_read s false = ok s
  kick_read s true = do (t, _) ← fdc_prepare_read s; ok t

  unfoldable pub kick_write : Fdc D → Bool → Outcome (Fdc D)
  kick_write s false = ok s
  kick_write s true = do (t, _) ← fdc_commit_write s; ok t

  unfoldable pub fdc_kick_disk_image :
      Fdc D → Option (Callback D) → Option (Callback D) → Outcome (Fdc D)
  fdc_kick_disk_image s read_callback write_callback = do
    let t = record s { read_buffer_cb = read_callback; write_buffer_cb = write_callback }
    reading ← executing t.fdc_status t.fdc_currop fdc_read_data
    u ← kick_read t reading
    writing ← executing u.fdc_status u.fdc_currop fdc_write_data
    kick_write u writing

-- The static variables before `fdc_init` runs, and after.
abbrev pub zero_idr : Idr
zero_idr = record { phy_head = 0; cylinder = 0; head = 0; record_no = 0 }

unfoldable pub static_fdc : {D : Type 0} → D → Fdc D
static_fdc disk = record {
  fdc_status = FdcStatus.cmd;
  fdc_currop = none;
  command_args = 0;
  rwcount = 0;
  rwcount_max = 0;
  args = replicate 8 0;
  exec_buffer = replicate exec_buffer_size 0;
  result = replicate 7 0;
  tc_status = false;
  int_status = false;
  msr = 0;
  st0 = 0;
  st1 = 0;
  st2 = 0;
  st3 = 0;
  track = replicate 4 0;
  read_buffer_cb = none;
  write_buffer_cb = none;
  idr = zero_idr;
  next_idr = zero_idr;
  disk = disk;
}

unfoldable pub fdc_init : {D : Type 0} → D → Fdc D
fdc_init disk = fdc_restart (static_fdc disk)
