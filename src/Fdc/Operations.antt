-- ===== src/Fdc/Operations.antt =====
-- src/fdc.c: the table of operations, and which command may come when.
use ceda_cemu.Base.{
  ℕ, bit_and, Bool, false, not, ◌||◌, Option, none, some, List, [], ◌∷◌, ◌==◌, if◌then◌else◌,
}
use ceda_cemu.Fdc.State.{PreExec, Exec, PostExec, Operation, Fdc, fdc_st_busy}

abbrev fdc_read_track : ℕ
fdc_read_track = 0x02

abbrev fdc_specify : ℕ
fdc_specify = 0x03

abbrev pub fdc_write_data : ℕ
fdc_write_data = 0x05

abbrev pub fdc_read_data : ℕ
fdc_read_data = 0x06

abbrev fdc_recalibrate : ℕ
fdc_recalibrate = 0x07

abbrev pub fdc_sense_interrupt : ℕ
fdc_sense_interrupt = 0x08

abbrev fdc_write_deleted_data : ℕ
fdc_write_deleted_data = 0x09

abbrev fdc_read_deleted_data : ℕ
fdc_read_deleted_data = 0x0c

abbrev fdc_format_track : ℕ
fdc_format_track = 0x0d

abbrev pub fdc_seek : ℕ
fdc_seek = 0x0f

-- A data transfer: eight arguments, seven results.
abbrev transfer : ℕ → PreExec → Exec → PostExec → Operation
transfer cmd pre ex post = record {
  cmd = cmd;
  args_len = 8;
  result_len = 7;
  pre_exec = some pre;
  exec = some ex;
  post_exec = some post;
}

-- A command with neither execution nor result phase.
abbrev immediate : ℕ → ℕ → PreExec → Operation
immediate cmd args_len pre = record {
  cmd = cmd;
  args_len = args_len;
  result_len = 0;
  pre_exec = some pre;
  exec = none;
  post_exec = none;
}

unfoldable pub fdc_operations : List Operation
fdc_operations =
    transfer fdc_read_track PreExec.read_track Exec.read_data PostExec.read_data
    ∷ immediate fdc_specify 2 PreExec.specify
    ∷ transfer fdc_write_data PreExec.write_data Exec.write_data PostExec.write_data
    ∷ transfer fdc_read_data PreExec.read_data Exec.read_data PostExec.read_data
    ∷ immediate fdc_recalibrate 1 PreExec.recalibrate
    ∷ record {
      cmd = fdc_sense_interrupt;
      args_len = 0;
      result_len = 2;
      pre_exec = none;
      exec = none;
      post_exec = some PostExec.sense_interrupt;
    }
    ∷ transfer fdc_write_deleted_data PreExec.write_data Exec.write_data PostExec.write_data
    ∷ transfer fdc_read_deleted_data PreExec.read_data Exec.read_data PostExec.read_data
    ∷ record {
      cmd = fdc_format_track;
      args_len = 5;
      result_len = 7;
      pre_exec = some PreExec.format_track;
      exec = some Exec.format_track;
      post_exec = some PostExec.format_track;
    }
    ∷ immediate fdc_seek 2 PreExec.seek
    ∷ []

abbrev pub invalid_op : Operation
invalid_op = record {
  cmd = 0;
  args_len = 0;
  result_len = 1;
  pre_exec = none;
  exec = none;
  post_exec = none;
}

-- The loop of `fdc_out` that looks a command up.
unfoldable pub find_operation : List Operation → ℕ → Option Operation
find_operation [] cmd = none
find_operation (op ∷ ops) cmd = if cmd == op.cmd then some op else find_operation ops cmd

module _ {D : Type 0} where
  unfoldable pub is_cmd_out_of_sequence : Fdc D → ℕ → Bool
  is_cmd_out_of_sequence s cmd =
      let fdc_busy = not (bit_and s.msr fdc_st_busy == 0) in
      if cmd == fdc_seek || cmd == fdc_recalibrate
      then false
      else if cmd == fdc_sense_interrupt
      then not fdc_busy
      else fdc_busy
