-- ===== src/Fdc/Tests.antt =====
-- Runs of the controller on concrete inputs.
use ceda_cemu.Base.{
  ℕ, ◌+◌, ◌≡◌, refl, bit_and, true, false, none, some, List, [], ◌∷◌, replicate, arith, inl,
}
use ceda_cemu.Base.Int.{ℤ}
use ceda_cemu.Base.Outcome.{Holds, ok}
use ceda_cemu.Fdc.State.{FdcStatus, PreExec, Exec, PostExec, Operation, Idr, Callback, Fdc}
use ceda_cemu.Fdc.Operations.{is_cmd_out_of_sequence}
use ceda_cemu.Fdc.Ports.{fdc_init, zero_idr}
use ceda_cemu.Fdc.Invariant.{Inv, Sized}
use ceda_cemu.Fdc.Accesses.{Access, reads, writes, terminal_count, perform_all, accesses-Inv}
use ceda_cemu.Fdc.Advance.{position_both, side, OnTrack, IsOn, advance_multi}
use ceda_cemu.Fdc.Stream.{Running, HasRead, read_bytes, read_bytes_lem, write_bytes}
use ceda_cemu.Fdc.WriteSector.{HasWritten, write_sector}
use ceda_cemu.Fdc.SeekSense.{seek_and_sense, seek_and_sense_lem}
use ceda_cemu.Fdc.Rejects.{IsRefused, try_command, refused_command}
use ceda_cemu.Fdc.Transfer.{store_bytes, advance_idr}

-- The controller after power-on; the media are a number.
abbrev idle : Fdc ℕ
idle = record {
  fdc_status = FdcStatus.cmd;
  fdc_currop = none;
  command_args = 0;
  rwcount = 0;
  rwcount_max = 0;
  args = replicate 8 0;
  exec_buffer = replicate 1024 0;
  result = replicate 7 0;
  tc_status = false;
  int_status = false;
  msr = 0x80;
  st0 = 0;
  st1 = 0;
  st2 = 0;
  st3 = 0;
  track = replicate 4 0;
  read_buffer_cb = none;
  write_buffer_cb = none;
  idr = zero_idr;
  next_idr = zero_idr;
  disk = 7;
}

abbrev read_op : Operation
read_op = record {
  cmd = 0x06;
  args_len = 8;
  result_len = 7;
  pre_exec = some PreExec.read_data;
  exec = some Exec.read_data;
  post_exec = some PostExec.read_data;
}

abbrev write_op : Operation
write_op = record {
  cmd = 0x05;
  args_len = 8;
  result_len = 7;
  pre_exec = some PreExec.write_data;
  exec = some Exec.write_data;
  post_exec = some PostExec.write_data;
}

-- A medium that takes any sector and counts the writes.
abbrev counting : Callback ℕ
counting buffer r n = record { ret = ℤ.pos 2; bytes = []; disk = n + 1 }

abbrev reading : Fdc ℕ
reading = record idle {
  fdc_status = FdcStatus.exec;
  fdc_currop = some read_op;
  exec_buffer = 11 ∷ 22 ∷ 33 ∷ replicate 1021 0;
  rwcount_max = 3;
}

abbrev writing : Fdc ℕ
writing = record idle {
  fdc_status = FdcStatus.exec;
  fdc_currop = some write_op;
  rwcount_max = 2;
  idr = record { phy_head = 0; cylinder = 1; head = 0; record_no = 1 };
  write_buffer_cb = some counting;
}

abbrev script : List (Access ℕ)
script =
    writes 1 0x03
    ∷ writes 1 0xdf
    ∷ writes 1 0x02
    ∷ writes 1 0x0f
    ∷ writes 1 1
    ∷ writes 1 5
    ∷ reads 0
    ∷ terminal_count
    ∷ []

accesses-Inv_example : Holds {A = Fdc ℕ} (Inv {D = ℕ}) (perform_all (fdc_init 7) script)
accesses-Inv_example = accesses-Inv 7 script

idle-Sized : Sized {D = ℕ} idle
idle-Sized = record { args = refl; result = refl; buffer = refl; track = refl; rqm = refl }

seek_and_sense_example :
    (w : Fdc ℕ) × (seek_and_sense idle 1 5
      ≡ ok (record { int = true; st0 = 0x21; pcn = 5; fdc = w }))
    × (w.fdc_status ≡ FdcStatus.cmd)
    × (w.track ≡ 0 ∷ 5 ∷ 0 ∷ 0 ∷ [])
    × (bit_and w.msr 15 ≡ 0)
seek_and_sense_example = seek_and_sense_lem idle 1 5 refl idle-Sized refl

reading-Running : Running {D = ℕ} Exec.read_data read_op reading
reading-Running = record {
  status = refl;
  currop = refl;
  exec = refl;
  tc = refl;
  buffer = refl;
  fits = omega arith;
}

read_bytes_example :
    (t : Fdc ℕ) × (read_bytes 3 reading ≡ ok (t, 11 ∷ 22 ∷ 33 ∷ [])) × HasRead 3 reading t
read_bytes_example = read_bytes_lem 3 reading read_op reading-Running (omega arith)

writing-Running : Running {D = ℕ} Exec.write_data write_op writing
writing-Running = record {
  status = refl;
  currop = refl;
  exec = refl;
  tc = refl;
  buffer = refl;
  fits = omega arith;
}

write_sector_example :
    (t : Fdc ℕ) × (write_bytes (44 ∷ 55 ∷ []) writing ≡ ok t)
    × HasWritten write_op counting writing t (store_bytes (44 ∷ 55 ∷ []) writing.exec_buffer)
write_sector_example =
    write_sector write_op counting 44 (55 ∷ []) writing writing-Running refl (ground arith) refl
      refl 1 refl

abbrev last_id : Idr
last_id = record { phy_head = 0; cylinder = 3; head = 0; record_no = 5 }

last_id-IsOn : IsOn 5 last_id
last_id-IsOn = record {
  first = omega arith;
  last = omega arith;
  eot_small = omega arith;
  cylinder_small = omega arith;
  head_byte = omega arith;
  heads_agree = refl;
}

advance_multi_example :
    (position_both 5 (advance_idr 0x80 5 last_id) ≡ position_both 5 last_id + 1)
    × OnTrack 5 (advance_idr 0x80 5 last_id)
    × ((advance_idr 0x80 5 last_id).head ≡ side (advance_idr 0x80 5 last_id))
advance_multi_example = advance_multi 0x80 5 last_id last_id-IsOn (ground arith)

refused : IsRefused {D = ℕ} idle 0x08
unfolding is_cmd_out_of_sequence
refused = inl refl

refused_command_example :
    (t : Fdc ℕ) × (byte : ℕ) × (try_command idle 0x08 ≡ ok (t, byte))
    × (byte ≡ 0x80)
    × (bit_and byte 0x80 ≡ 0x80)
    × (bit_and byte 0x40 ≡ 0)
    × (t.fdc_status ≡ FdcStatus.cmd)
    × (t.track ≡ idle.track)
    × (t.disk ≡ 7)
refused_command_example = refused_command idle 0x08 refl refl refused
