-- ===== src/Fdc/Safety.antt =====
-- Every access keeps the controller's invariant.
use ceda_cemu.Base.{
  ℕ, ◌≡◌, refl, bit_and, Bool, true, false, length, length-set, length-replicate, Option, none,
  some, arith, ◌==◌, Bool-cases, inl, inr,
}
use ceda_cemu.Base.Bits.{set_bits, clear_bits, and-clear_apart, and-clear_within}
use ceda_cemu.Base.Outcome.{Holds, Holds-bind, Holds-map}
use ceda_cemu.Fdc.State.{
  FdcStatus, Exec, Operation, Callback, Fdc, fdc_st_rqm, fdc_st_dio, fdc_st_exm, fdc_st_cb,
  fdc_cmd_command_bm, fdc_cmd_args_bm, fdc_st0_us,
}
use ceda_cemu.Fdc.Operations.{fdc_read_data, fdc_write_data}
use ceda_cemu.Fdc.Transfer.{fdc_prepare_read, fdc_commit_write}
use ceda_cemu.Fdc.Commands.{run_exec}
use ceda_cemu.Fdc.Sequencer.{fdc_compute_next_status}
use ceda_cemu.Fdc.Ports.{
  fdc_restart, set_invalid_cmd, call_exec, exec_current, read_phase, fdc_in, select_operation,
  accept_command, write_phase, fdc_out, fdc_tc_out, executing, kick_read, kick_write,
  fdc_kick_disk_image, static_fdc, fdc_init,
}
use ceda_cemu.Fdc.Frame.{Frame, fdc_prepare_read-Frame, fdc_commit_write-Frame}
use ceda_cemu.Fdc.Runs.{run_exec-Frame}
use ceda_cemu.Fdc.Invariant.{IsKnown, Inv, find_operation-IsKnown, invalid_op-IsKnown}
use ceda_cemu.Fdc.Walk.{compute_next_status-Inv}

-- The loads that `fdc_kickDiskImage` makes run in EXEC only.
executing-IsExec :
    (status : FdcStatus) (current : Option Operation) (cmd : ℕ)
    → Holds (λ b. b ≡ true → status ≡ FdcStatus.exec) (executing status current cmd)
unfolding executing
executing-IsExec FdcStatus.exec none cmd = tt
executing-IsExec FdcStatus.exec (some op) cmd = λ _. refl
executing-IsExec _ current cmd = λ e. cc

module _ {D : Type 0} where
  -- Outside the phases with counters, the transfer routines keep the invariant.
  Frame-Inv : (s t : Fdc D) → s.fdc_status ≡ FdcStatus.exec → Frame s t → Inv s → Inv t
  Frame-Inv s t x f v = ground arith

  call_exec-Inv :
      (f : Option Exec) (s : Fdc D) (value : ℕ)
      → s.fdc_status ≡ FdcStatus.exec
      → Inv s
      → Holds (λ r. Inv r.0) (call_exec f s value)
  unfolding call_exec
  call_exec-Inv none s value x v = v
  call_exec-Inv (some f) s value x v =
      Holds-map (λ r. Frame s r.0) (λ r. Inv r.0) (run_exec f s value)
        (λ r g. Frame-Inv s r.0 x g v) (run_exec-Frame f s value)

  exec_current-Inv :
      (o : Option Operation) (s : Fdc D) (value : ℕ)
      → s.fdc_status ≡ FdcStatus.exec
      → Inv s
      → Holds (λ r. Inv r.0) (exec_current o s value)
  unfolding exec_current
  exec_current-Inv none s value x v = v
  exec_current-Inv (some op) s value x v = call_exec-Inv op.exec s value x v

  read_phase-Inv :
      (status : FdcStatus) (s : Fdc D)
      → s.fdc_status ≡ status
      → Inv s
      → Holds (λ r. Inv r.0) (read_phase status s)
  unfolding read_phase
  read_phase-Inv FdcStatus.cmd s x v = ground (
    arith,
    and-clear_apart s.msr fdc_st_dio fdc_st_rqm,
    and-clear_apart s.msr fdc_st_dio fdc_st_cb,
    and-clear_apart s.msr fdc_st_dio fdc_st_exm,
    and-clear_within s.msr fdc_st_dio fdc_st_dio,
  )
  read_phase-Inv FdcStatus.args s x v = v
  read_phase-Inv FdcStatus.exec s x v = exec_current-Inv s.fdc_currop s 0 x v
  read_phase-Inv FdcStatus.result s x v = ground arith

  unmask : (s : Fdc D) → Inv s → Inv (record s { int_status = false })
  unmask s v = ground arith

  pub fdc_in-Inv : (s : Fdc D) (address : ℕ) → Inv s → Holds (λ r. Inv r.0) (fdc_in s address)
  unfolding fdc_in
  fdc_in-Inv s address v =
      let s' = record s { int_status = false } in
      elim (Bool-cases (bit_and address 1 == 0)) [
        | inl e ↦ rw e (unmask s v)
        | inr o ↦ rw o (
            Holds-bind (λ r. Inv r.0) (λ r. Inv r.0) (read_phase s'.fdc_status s') _
              (read_phase-Inv s'.fdc_status s' refl (unmask s v))
              (λ r u.
                Holds-bind Inv (λ p. Inv p.0) (fdc_compute_next_status r.0) _
                  (compute_next_status-Inv r.0 u) (λ t w. w)))
      ]

  select-Inv :
      (o : Option Operation) (s : Fdc D)
      → s.fdc_status ≡ FdcStatus.cmd
      → ((op : Operation) → o ≡ some op → IsKnown op)
      → Inv s
      → Inv (select_operation o s)
  unfolding select_operation set_invalid_cmd
  select-Inv none s x k v = ground (
    arith,
    invalid_op-IsKnown,
    length-set s.result 0 (set_bits (clear_bits s.st0 fdc_st0_us) 0x80),
  )
  select-Inv (some op) s x k v = ground (arith, k op refl)

  accept_command-Inv :
      (s : Fdc D) (value : ℕ) → s.fdc_status ≡ FdcStatus.cmd → Inv s → Inv (accept_command s value)
  unfolding accept_command
  accept_command-Inv s value x v =
      let cmd = bit_and value fdc_cmd_command_bm in
      let s' = record s { command_args = bit_and value fdc_cmd_args_bm; fdc_currop = none } in
      select-Inv _ s' x (λ op e. find_operation-IsKnown cmd (ground arith)) (ground arith)

  write_phase-Inv :
      (status : FdcStatus) (s : Fdc D) (value : ℕ)
      → s.fdc_status ≡ status
      → Inv s
      → Holds Inv (write_phase status s value)
  unfolding write_phase
  write_phase-Inv FdcStatus.cmd s value x v = accept_command-Inv s value x v
  write_phase-Inv FdcStatus.args s value x v = ground (arith, length-set s.args s.rwcount value)
  write_phase-Inv FdcStatus.exec s value x v =
      Holds-bind (λ r. Inv r.0) Inv (exec_current s.fdc_currop s value) _
        (exec_current-Inv s.fdc_currop s value x v) (λ r w. w)
  write_phase-Inv FdcStatus.result s value x v = v

  pub fdc_out-Inv : (s : Fdc D) (address value : ℕ) → Inv s → Holds Inv (fdc_out s address value)
  unfolding fdc_out
  fdc_out-Inv s address value v =
      let s' = record s { int_status = false } in
      elim (Bool-cases (bit_and address 1 == 0)) [
        | inl e ↦ rw e (unmask s v)
        | inr o ↦ rw o (
            Holds-bind Inv Inv (write_phase s'.fdc_status s' value) _
              (write_phase-Inv s'.fdc_status s' value refl (unmask s v))
              (λ t w. compute_next_status-Inv t w))
      ]

  pub fdc_tc_out-Inv :
      (s : Fdc D) (address value : ℕ) → Inv s → Holds Inv (fdc_tc_out s address value)
  unfolding fdc_tc_out
  fdc_tc_out-Inv s address value v = ground (
    arith,
    λ (u : Inv (record s { tc_status = true })).
        compute_next_status-Inv (record s { tc_status = true }) u,
  )

  pub fdc_restart-Inv :
      (s : Fdc D) → length s.args ≡ 8 → length s.exec_buffer ≡ 1024 → Inv (fdc_restart s)
  unfolding fdc_restart
  fdc_restart-Inv s a b = ground arith

  pub fdc_init-Inv : (disk : D) → Inv (fdc_init disk)
  unfolding fdc_init static_fdc
  fdc_init-Inv disk = fdc_restart-Inv (static_fdc disk) refl (length-replicate {A = ℕ} 1024 0)

  kick_read-Inv :
      (s : Fdc D) (b : Bool)
      → (b ≡ true → s.fdc_status ≡ FdcStatus.exec)
      → Inv s
      → Holds Inv (kick_read s b)
  unfolding kick_read
  kick_read-Inv s false x v = v
  kick_read-Inv s true x v =
      Holds-bind (λ r. Frame s r.0) Inv (fdc_prepare_read s) _ (fdc_prepare_read-Frame s)
        (λ r f. Frame-Inv s r.0 (x refl) f v)

  kick_write-Inv :
      (s : Fdc D) (b : Bool)
      → (b ≡ true → s.fdc_status ≡ FdcStatus.exec)
      → Inv s
      → Holds Inv (kick_write s b)
  unfolding kick_write
  kick_write-Inv s false x v = v
  kick_write-Inv s true x v =
      Holds-bind (λ r. Frame s r.0) Inv (fdc_commit_write s) _ (fdc_commit_write-Frame s)
        (λ r f. Frame-Inv s r.0 (x refl) f v)

  pub kick-Inv :
      (s : Fdc D) (r w : Option (Callback D)) → Inv s → Holds Inv (fdc_kick_disk_image s r w)
  unfolding fdc_kick_disk_image
  kick-Inv s r w v =
      let t = record s { read_buffer_cb = r; write_buffer_cb = w } in
      Holds-bind (λ b. b ≡ true → t.fdc_status ≡ FdcStatus.exec) Inv _ _
        (executing-IsExec t.fdc_status t.fdc_currop fdc_read_data)
        (λ b x. Holds-bind Inv Inv (kick_read t b) _ (kick_read-Inv t b x (ground arith)) (λ u y.
          Holds-bind (λ b. b ≡ true → u.fdc_status ≡ FdcStatus.exec) Inv _ _
            (executing-IsExec u.fdc_status u.fdc_currop fdc_write_data)
            (λ c z. kick_write-Inv u c z y)))
