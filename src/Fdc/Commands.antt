-- ===== src/Fdc/Commands.antt =====
-- src/fdc.c: the routines that a command runs before, during and after its execution phase.
use ceda_cemu.Base.{
  ℕ, zero, suc, ◌+◌, ◌*◌, ◌%◌, ◌^◌, bit_and, true, false, not, Option, none, some, ◌==◌, ltb, leb,
  if◌then◌else◌, get_or, set,
}
use ceda_cemu.Base.Bits.{set_bits, clear_bits}
use ceda_cemu.Base.Int.{ℤ, pos}
use ceda_cemu.Base.Outcome.{Fault, Outcome, ok, ◌>>=◌, ◌>>◌, check}
use ceda_cemu.Fdc.State.{
  PreExec, Exec, Idr, Request, Callback, Fdc, exec_buffer_size, fdc_st_dio, fdc_st0_hd,
}
use ceda_cemu.Fdc.Transfer.{
  to_bool, drive_of, set_error, request_of, fdc_prepare_read, fdc_commit_write,
}

-- `size_t` addition.
abbrev pub add_size : ℕ → ℕ → ℕ
add_size a b = (a + b) % 2 ^ 64

-- The drive of the lowest busy bit: the loop of `post_exec_sense_interrupt` over the four bits.
unfoldable pub lowest_drive : ℕ → ℕ → ℕ → ℕ
lowest_drive zero fdc_busy drive = drive
lowest_drive (suc fuel) fdc_busy drive = elim (bit_and fdc_busy (2 ^ drive) == 0) [
  | true ↦ lowest_drive fuel fdc_busy (drive + 1)
  | false ↦ drive
]

module _ {D : Type 0} where
  -- The first lines of `pre_exec_read_data` and `pre_exec_write_data`: both IDs are the arguments'.
  abbrev pub load_idr : Fdc D → Fdc D
  load_idr s =
      let id : Idr = record {
        phy_head = get_or s.args 0 0;
        cylinder = get_or s.args 1 0;
        head = get_or s.args 2 0;
        record_no = get_or s.args 3 0;
      } in
      record s { idr = id; next_idr = id }

  unfoldable pub pre_exec_write_data : Fdc D → Outcome (Fdc D)
  pre_exec_write_data s = do
    (s', _) ← fdc_commit_write (load_idr (record s { msr = clear_bits s.msr fdc_st_dio }))
    ok s'

  unfoldable pub pre_exec_read_data : Fdc D → Outcome (Fdc D)
  pre_exec_read_data s = do
    (s', _) ← fdc_prepare_read (load_idr (record s { msr = set_bits s.msr fdc_st_dio }))
    ok s'

  unfoldable pub pre_exec_read_track : Fdc D → Outcome (Fdc D)
  pre_exec_read_track s = pre_exec_read_data (record s { args = set s.args 3 1 })

  -- Recalibrate and seek end alike: the interrupt, and the drive in the status registers.
  abbrev end_seek : Fdc D → ℕ → Fdc D
  end_seek s drive = record s { int_status = true; st0 = drive; msr = set_bits s.msr (2 ^ drive) }

  unfoldable pub pre_exec_recalibrate : Fdc D → Fdc D
  pre_exec_recalibrate s =
      let drive = bit_and (get_or s.args 0 0) 0x3 in
      end_seek (record s { track = set s.track drive 0 }) drive

  unfoldable pub pre_exec_seek : Fdc D → Fdc D
  pre_exec_seek s =
      let drive = bit_and (get_or s.args 0 0) 0x03 in
      end_seek (record s { track = set s.track drive (get_or s.args 1 0) }) drive

  -- The probe of sector 0 that `pre_exec_format_track` makes.
  unfoldable pub probe_format : ℤ → Fdc D → Fdc D
  probe_format (pos (suc n)) s = record s { int_status = true }
  probe_format _ s = record (set_error s) { int_status = true }

  unfoldable pub format_request : Fdc D → ℕ → ℕ → ℕ → Request
  format_request s head cylinder sector = record {
    unit_number = drive_of s;
    phy_head = to_bool (bit_and (get_or s.args 0 0) fdc_st0_hd);
    phy_track = get_or s.track (drive_of s) 0;
    head = to_bool head;
    track = cylinder;
    sector = sector;
  }

  unfoldable pub format_with : Option (Callback D) → Fdc D → Fdc D
  format_with none s = s
  format_with (some cb) s =
      let head = bit_and (get_or s.args 0 0) fdc_st0_hd in
      let r = cb none (format_request s head (get_or s.track (drive_of s) 0) 0) s.disk in
      probe_format r.ret (record s { disk = r.disk })

  unfoldable pub pre_exec_format_track : Fdc D → Outcome (Fdc D)
  pre_exec_format_track s = do
    let rwcount_max = get_or s.args 2 0 * 4
    check (leb rwcount_max exec_buffer_size) Fault.assertion
    ok (
        format_with s.write_buffer_cb (record s {
          st0 = get_or s.args 0 0;
          st1 = 0;
          st2 = 0;
          st3 = 0;
          rwcount = 0;
          rwcount_max = rwcount_max;
        }))

  unfoldable pub run_pre_exec : PreExec → Fdc D → Outcome (Fdc D)
  run_pre_exec PreExec.read_track s = pre_exec_read_track s
  run_pre_exec PreExec.specify s = ok s
  run_pre_exec PreExec.write_data s = pre_exec_write_data s
  run_pre_exec PreExec.read_data s = pre_exec_read_data s
  run_pre_exec PreExec.recalibrate s = ok (pre_exec_recalibrate s)
  run_pre_exec PreExec.format_track s = pre_exec_format_track s
  run_pre_exec PreExec.seek s = ok (pre_exec_seek s)

  -- `exec_buffer[rwcount++] = value`
  unfoldable pub push_byte : Fdc D → ℕ → Outcome (Fdc D)
  push_byte s value = do
    check (ltb s.rwcount exec_buffer_size) Fault.out_of_bounds
    ok (record s {
      exec_buffer = set s.exec_buffer s.rwcount value;
      rwcount = add_size s.rwcount 1;
    })

  -- `exec_buffer[rwcount++]`, as a value.
  unfoldable pub pull_byte : Fdc D → Outcome (Fdc D × ℕ)
  pull_byte s = do
    check (ltb s.rwcount exec_buffer_size) Fault.out_of_bounds
    ok (record s { rwcount = add_size s.rwcount 1 }, get_or s.exec_buffer s.rwcount 0)

  -- The tail of `exec_write_data`, when the buffer is full: `ret` is the callback's value.
  unfoldable pub end_commit : ℤ → Fdc D → Fdc D
  end_commit (pos (suc n)) s = s
  end_commit _ s = record (set_error s) { int_status = true }

  unfoldable pub commit_buffer : Callback D → Fdc D → Outcome (Fdc D)
  commit_buffer cb s = do
    check (not (s.idr.record_no == 0)) Fault.assertion
    let r = cb (some s.exec_buffer) (request_of s s.idr) s.disk
    ok (end_commit r.ret (record s { disk = r.disk }))

  unfoldable pub store_value : Callback D → Fdc D → ℕ → Outcome (Fdc D)
  store_value cb s value = do
    s' ← push_byte s value
    let s'' = record s' { int_status = true }
    let done = commit_buffer cb s''
    if not (s''.rwcount == s''.rwcount_max) then ok s'' else done

  unfoldable pub exec_write_with : Option (Callback D) → Fdc D → ℕ → Outcome (Fdc D)
  exec_write_with none s value = ok s
  exec_write_with (some cb) s value =
      if leb s.rwcount_max s.rwcount
      then (do (s', ready) ← fdc_commit_write s; if ready then store_value cb s' value else ok s')
      else store_value cb s value

  unfoldable pub exec_write_data : Fdc D → ℕ → Outcome (Fdc D)
  exec_write_data s value = exec_write_with s.write_buffer_cb s value

  -- After the test `rwcount < rwcount_max` fails, the second test of the source always holds.
  unfoldable pub exec_read_data : Fdc D → Outcome (Fdc D × ℕ)
  exec_read_data s = do
    (s', value) ←
        (if ltb s.rwcount s.rwcount_max
          then pull_byte s
          else do (s', ready) ← fdc_prepare_read s; if ready then pull_byte s' else ok (s', 0))
    ok (record s' { int_status = true }, value)

  unfoldable pub exec_format_track : Fdc D → ℕ → Outcome (Fdc D)
  exec_format_track s value = push_byte s value

  unfoldable pub run_exec : Exec → Fdc D → ℕ → Outcome (Fdc D × ℕ)
  run_exec Exec.write_data s value = do s' ← exec_write_data s value; ok (s', 0)
  run_exec Exec.read_data s value = exec_read_data s
  run_exec Exec.format_track s value = do s' ← exec_format_track s value; ok (s', 0)
