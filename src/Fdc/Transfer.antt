-- ===== src/Fdc/Transfer.antt =====
-- src/fdc.c: the helpers that fetch a sector from the medium and announce one to it.
use ceda_cemu.Base.{
  ℕ, zero, suc, ◌+◌, ◌-◌, ◌%◌, bit_and, bit_xor, Bool, true, false, not, Option, none, some, List,
  [], ◌∷◌, ◌==◌, ltb, leb, if◌then◌else◌, length, get_or, min,
}
use ceda_cemu.Base.Bits.{set_bits}
use ceda_cemu.Base.Int.{ℤ, pos, negsuc}
use ceda_cemu.Base.Outcome.{Fault, Outcome, ok, ◌>>=◌, ◌>>◌, check}
use ceda_cemu.Fdc.State.{
  Idr, Request, Callback, Fdc, exec_buffer_size, fdc_st0_hd, fdc_st0_us, fdc_cmd_args_mt_bm,
}

-- `(bool)x`
abbrev pub to_bool : ℕ → Bool
to_bool x = not (x == 0)

-- `x ^= FDC_ST0_HD`
abbrev pub flip_head : ℕ → ℕ
flip_head x = bit_xor x fdc_st0_hd

-- How `next_idr` moves on behind a sector; `fdc_prepare_read` and `fdc_commit_write` both hold
-- these lines.
unfoldable pub advance_idr : ℕ → ℕ → Idr → Idr
advance_idr command_args eot id =
    let next = (id.record_no + 1) % 256 in
    let first = record id { record_no = 1 } in
    let flipped = record first {
      phy_head = flip_head id.phy_head;
      head = if id.head == 0 then 1 else 0;
    } in
    if ltb eot next
    then (if to_bool (bit_and command_args fdc_cmd_args_mt_bm)
        then (if to_bool (bit_and flipped.phy_head fdc_st0_hd)
            then flipped
            else record flipped { cylinder = (id.cylinder + 1) % 256 })
        else record first { cylinder = (id.cylinder + 1) % 256 })
    else record id { record_no = next }

-- Bytes written from the start of an array on.
unfoldable pub store_bytes : List ℕ → List ℕ → List ℕ
store_bytes [] buffer = buffer
store_bytes (b ∷ bs) [] = []
store_bytes (b ∷ bs) (_ ∷ buffer) = b ∷ store_bytes bs buffer

module _ {D : Type 0} where
  -- `rw_args->unit_head & FDC_ST0_US`
  abbrev pub drive_of : Fdc D → ℕ
  drive_of s = bit_and (get_or s.args 0 0) fdc_st0_us

  -- The error flags that every failed access of the medium sets.
  unfoldable pub set_error : Fdc D → Fdc D
  set_error s = record s {
    st0 = set_bits s.st0 0x40;
    st1 = set_bits s.st1 0x20;
    st2 = set_bits s.st2 0x20;
    tc_status = true;
  }

  -- The counters and status registers that both helpers reset first.
  abbrev pub reset_transfer : Fdc D → Fdc D
  reset_transfer s = record s {
    rwcount = 0;
    rwcount_max = 0;
    st0 = drive_of s;
    st1 = 0;
    st2 = 0;
    st3 = 0;
  }

  -- The arguments of a callback for the sector that an ID names.
  abbrev pub request_of : Fdc D → Idr → Request
  request_of s id = record {
    unit_number = drive_of s;
    phy_head = to_bool (bit_and id.phy_head fdc_st0_hd);
    phy_track = get_or s.track (drive_of s) 0;
    head = to_bool id.head;
    track = id.cylinder;
    sector = id.record_no - 1;
  }

  -- A sector of `ret` bytes is ready: set the counter's bound and move the IDs on.
  unfoldable pub accept_sector : Fdc D → ℕ → Fdc D
  accept_sector s ret = record s {
    int_status = true;
    rwcount_max = if get_or s.args 4 0 == 0 then min (get_or s.args 7 0) ret else ret;
    idr = s.next_idr;
    next_idr = advance_idr s.command_args (get_or s.args 5 0) s.next_idr;
  }

  -- What both helpers do with the value that the last callback returned.
  unfoldable pub conclude : Fdc D → ℤ → Fdc D × Bool
  conclude s (pos zero) = (s, false)
  conclude s (pos (suc n)) = (accept_sector s (suc n), true)
  conclude s (negsuc n) = (set_error (record s { int_status = true }), false)

  -- The second call of `read_buffer_cb`, with the buffer, made if the first found a sector.
  unfoldable pub fetch : Callback D → Request → ℤ → Fdc D → Outcome (ℤ × Fdc D)
  fetch cb req (pos (suc n)) s = do
    check (leb (suc n) exec_buffer_size) Fault.assertion
    let r = cb (some s.exec_buffer) req s.disk
    check (leb (length r.bytes) exec_buffer_size) Fault.out_of_bounds
    ok (r.ret, record s { exec_buffer = store_bytes r.bytes s.exec_buffer; disk = r.disk })
  fetch cb req ret s = ok (ret, s)

  unfoldable pub prepare_with : Option (Callback D) → Fdc D → Outcome (Fdc D × Bool)
  prepare_with none s = ok (s, false)
  prepare_with (some cb) s =
      let req = request_of s s.next_idr in
      let r = cb none req s.disk in
      do (ret, s') ← fetch cb req r.ret (record s { disk = r.disk }); ok (conclude s' ret)

  -- The Boolean is the result, false on failure.
  unfoldable pub fdc_prepare_read : Fdc D → Outcome (Fdc D × Bool)
  fdc_prepare_read s = do
    check (not (s.next_idr.record_no == 0)) Fault.assertion
    prepare_with s.read_buffer_cb (reset_transfer s)

  unfoldable pub commit_with : Option (Callback D) → Fdc D → Fdc D × Bool
  commit_with none s = (s, false)
  commit_with (some cb) s =
      let r = cb none (request_of s s.next_idr) s.disk in
      conclude (record s { disk = r.disk }) r.ret

  unfoldable pub fdc_commit_write : Fdc D → Outcome (Fdc D × Bool)
  fdc_commit_write s = do
    check (not (s.next_idr.record_no == 0)) Fault.assertion
    ok (commit_with s.write_buffer_cb (reset_transfer s))
