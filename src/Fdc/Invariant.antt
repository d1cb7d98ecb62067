-- ===== src/Fdc/Invariant.antt =====
-- What holds of the controller between two accesses.
use ceda_cemu.Base.{
  ℕ, ◌≤◌, ◌<◌, ◌≡◌, bit_and, false, List, [], ◌∷◌, length, Option, none, some, if◌then◌else◌, arith,
}
use ceda_cemu.Fdc.State.{
  FdcStatus, PreExec, Exec, Operation, Fdc, fdc_st_rqm, fdc_st_dio, fdc_st_exm, fdc_st_cb,
}
use ceda_cemu.Fdc.Operations.{fdc_operations, find_operation, invalid_op}
use ceda_cemu.Fdc.Sequencer.{is_cmd, is_exec, is_null}
use ceda_cemu.Fdc.Shape.{pre_dio}

-- The direction of an execution phase: 0x40 from the controller, 0 to it.
abbrev pub exec_dio : Option Exec → ℕ
exec_dio (some Exec.read_data) = fdc_st_dio
exec_dio _ = 0

abbrev pub pre_dio_of : Option PreExec → ℕ → ℕ
pre_dio_of none d = d
pre_dio_of (some f) d = pre_dio f d

-- An operation of the table: its phases fit the buffers, and its first routine turns DIO the way
-- that its execution phase goes.
pub record IsKnown (op : Operation) : Type 0 where
  pub args_fit : op.args_len ≤ 8
  pub result_fit : op.result_len ≤ 7
  pub direction : pre_dio_of op.pre_exec 0 ≡ exec_dio op.exec

-- The counters in each phase, and the DIO bit.
abbrev PhaseOk : FdcStatus → Option Operation → ℕ → ℕ → ℕ → Type 0
PhaseOk FdcStatus.cmd none n m d = d ≡ 0
PhaseOk FdcStatus.cmd (some op) n m d = IsKnown op × (d ≡ 0)
PhaseOk FdcStatus.args none n m d = ⊥
PhaseOk FdcStatus.args (some op) n m d = IsKnown op × (n < m) × (m ≡ op.args_len) × (d ≡ 0)
PhaseOk FdcStatus.exec none n m d = ⊥
PhaseOk FdcStatus.exec (some op) n m d =
    IsKnown op × (is_null op.exec ≡ false) × (d ≡ exec_dio op.exec)
PhaseOk FdcStatus.result none n m d = ⊥
PhaseOk FdcStatus.result (some op) n m d =
    IsKnown op × (n < m) × (m ≡ op.result_len) × (d ≡ fdc_st_dio)

module _ {D : Type 0} where
  -- The sizes of the static arrays, and the RQM bit.
  pub record Sized (s : Fdc D) : Type 0 where
    pub args : length s.args ≡ 8
    pub result : length s.result ≡ 7
    pub buffer : length s.exec_buffer ≡ 1024
    pub track : length s.track ≡ 4
    pub rqm : bit_and s.msr fdc_st_rqm ≡ fdc_st_rqm

  pub record Core (s : Fdc D) : Type 0 where
    pub sized : Sized s
    pub phase : PhaseOk s.fdc_status s.fdc_currop s.rwcount s.rwcount_max (bit_and s.msr fdc_st_dio)

  -- CB is shown exactly outside CMD, EXM exactly in EXEC.
  pub record Inv (s : Fdc D) : Type 0 where
    pub core : Core s
    pub cb : bit_and s.msr fdc_st_cb ≡ (if is_cmd s.fdc_status then 0 else fdc_st_cb)
    pub exm : bit_and s.msr fdc_st_exm ≡ (if is_exec s.fdc_status then fdc_st_exm else 0)

abbrev AllKnown : List Operation → Type 0
AllKnown [] = Unit
AllKnown (op ∷ ops) = IsKnown op × AllKnown ops

AllKnown-find :
    (ops : List Operation) (cmd : ℕ) {op : Operation}
    → AllKnown ops
    → find_operation ops cmd ≡ some op
    → IsKnown op
unfolding find_operation
AllKnown-find [] cmd k h = cc
AllKnown-find (o ∷ ops) cmd {op} k h = ground (arith, AllKnown-find ops cmd {op = op} k.1)

fdc_operations-AllKnown : AllKnown fdc_operations
unfolding fdc_operations
fdc_operations-AllKnown = omega arith

pub find_operation-IsKnown :
    (cmd : ℕ) {op : Operation} → find_operation fdc_operations cmd ≡ some op → IsKnown op
find_operation-IsKnown cmd h = AllKnown-find fdc_operations cmd fdc_operations-AllKnown h

pub invalid_op-IsKnown : IsKnown invalid_op
invalid_op-IsKnown = omega arith
