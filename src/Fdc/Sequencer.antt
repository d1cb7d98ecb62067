-- ===== src/Fdc/Sequencer.antt =====
-- src/fdc.c: `fdc_compute_next_status`, the walk through the four phases of a command.
use ceda_cemu.Base.{ℕ, Bool, true, false, ◌&&◌, ◌||◌, Option, none, some, ◌==◌, if◌then◌else◌}
use ceda_cemu.Base.Bits.{set_bits, clear_bits}
use ceda_cemu.Base.Outcome.{Outcome, ok, ◌>>=◌}
use ceda_cemu.Fdc.State.{
  FdcStatus, PreExec, PostExec, Operation, Fdc, fdc_st_dio, fdc_st_exm, fdc_st_cb,
}
use ceda_cemu.Fdc.Commands.{add_size, run_pre_exec}
use ceda_cemu.Fdc.Results.{run_post_exec}

abbrev pub is_cmd : FdcStatus → Bool
is_cmd FdcStatus.cmd = true
is_cmd _ = false

abbrev pub is_args : FdcStatus → Bool
is_args FdcStatus.args = true
is_args _ = false

abbrev pub is_exec : FdcStatus → Bool
is_exec FdcStatus.exec = true
is_exec _ = false

abbrev is_result : FdcStatus → Bool
is_result FdcStatus.result = true
is_result _ = false

abbrev pub is_null {ℓ} : {A : Type ℓ} → Option A → Bool
is_null none = true
is_null (some _) = false

-- The step dependent bits of the main status register.
unfoldable pub show_phase : FdcStatus → ℕ → ℕ
show_phase status msr =
    let msr' = if is_exec status then set_bits msr fdc_st_exm else clear_bits msr fdc_st_exm in
    if is_cmd status then clear_bits msr' fdc_st_cb else set_bits msr' fdc_st_cb

module _ {D : Type 0} where
  -- `if (fdc_currop->pre_exec) fdc_currop->pre_exec();`
  unfoldable pub call_pre_exec : Option PreExec → Fdc D → Outcome (Fdc D)
  call_pre_exec none s = ok s
  call_pre_exec (some f) s = run_pre_exec f s

  unfoldable pub call_post_exec : Option PostExec → Fdc D → Outcome (Fdc D)
  call_post_exec none s = ok s
  call_post_exec (some f) s = run_post_exec f s

  -- rwcount during execution phase is handled by the exec callback.
  unfoldable pub count_access : Fdc D → Fdc D
  count_access s = if is_exec s.fdc_status then s else record s { rwcount = add_size s.rwcount 1 }

  unfoldable pub leave_cmd : Operation → Fdc D → Fdc D
  leave_cmd op s =
      if is_cmd s.fdc_status
      then record s {
        msr = clear_bits s.msr fdc_st_dio;
        fdc_status = FdcStatus.args;
        rwcount_max = op.args_len;
        rwcount = 0;
      }
      else s

  unfoldable pub leave_args : Operation → Fdc D → Outcome (Fdc D)
  leave_args op s =
      if is_args s.fdc_status && s.rwcount == s.rwcount_max
      then (do
        s' ← call_pre_exec op.pre_exec (record s { fdc_status = FdcStatus.exec })
        ok (record s' { rwcount = 0 }))
      else ok s

  unfoldable pub leave_exec : Operation → Fdc D → Outcome (Fdc D)
  leave_exec op s =
      if is_exec s.fdc_status && (s.tc_status || is_null op.exec)
      then (do
        s' ←
            call_post_exec op.post_exec
              (record s { tc_status = false; msr = set_bits s.msr fdc_st_dio })
        ok (record s' { fdc_status = FdcStatus.result; rwcount_max = op.result_len; rwcount = 0 }))
      else ok s

  unfoldable pub leave_result : Fdc D → Fdc D
  leave_result s =
      if is_result s.fdc_status && s.rwcount == s.rwcount_max
      then record s {
        msr = clear_bits s.msr fdc_st_dio;
        fdc_status = FdcStatus.cmd;
        rwcount_max = 0;
        rwcount = 0;
      }
      else s

  unfoldable pub next_status_with : Operation → Fdc D → Outcome (Fdc D)
  next_status_with op s = do
    s' ← leave_args op (leave_cmd op (count_access s))
    s'' ← leave_exec op s'
    let t = leave_result s''
    ok (record t { msr = show_phase t.fdc_status t.msr })

  unfoldable pub compute_from : Option Operation → Fdc D → Outcome (Fdc D)
  compute_from none s = ok s
  compute_from (some op) s = next_status_with op s

  unfoldable pub fdc_compute_next_status : Fdc D → Outcome (Fdc D)
  fdc_compute_next_status s = compute_from s.fdc_currop s
