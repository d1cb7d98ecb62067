-- ===== src/Fdc/Walk.antt =====
-- `fdc_compute_next_status` keeps the invariant: one lemma for each of its stages.
use ceda_cemu.Base.{
  ℕ, ◌≤◌, ◌<◌, ◌≡◌, refl, bit_and, Bool, true, false, length, Option, none, some, if◌then◌else◌,
  arith, ◌==◌, ◌&&◌, ◌||◌, Bool-cases, ◌∙◌, ◌-◌, inl, inr,
}
use ceda_cemu.Base.Bits.{
  set_bits, clear_bits, and-set_apart, and-set_within, and-clear_apart, and-clear_within,
}
use ceda_cemu.Base.Outcome.{Holds, Holds-bind, Holds-map}
use ceda_cemu.Fdc.State.{
  FdcStatus, PreExec, PostExec, Operation, Fdc, fdc_st_rqm, fdc_st_dio, fdc_st_exm, fdc_st_cb,
}
use ceda_cemu.Fdc.Commands.{run_pre_exec}
use ceda_cemu.Fdc.Sequencer.{
  is_cmd, is_args, is_exec, is_null, call_pre_exec, call_post_exec, count_access, leave_cmd,
  leave_args, leave_exec, leave_result, show_phase, next_status_with, compute_from,
  fdc_compute_next_status,
}
use ceda_cemu.Fdc.Shape.{run_pre_exec-Ran}
use ceda_cemu.Fdc.Runs.{Keeps, run_post_exec-Keeps}
use ceda_cemu.Fdc.Invariant.{exec_dio, pre_dio_of, IsKnown, Sized, Core, Inv}

-- Behind `count_access` and `leave_cmd`: an argument or result may be the last one.
abbrev Counted : Operation → FdcStatus → ℕ → ℕ → ℕ → Type 0
Counted op FdcStatus.cmd n m d = ⊥
Counted op FdcStatus.args n m d = (n ≤ m) × (m ≡ op.args_len) × (d ≡ 0)
Counted op FdcStatus.exec n m d = (is_null op.exec ≡ false) × (d ≡ exec_dio op.exec)
Counted op FdcStatus.result n m d = (n ≤ m) × (m ≡ op.result_len) × (d ≡ fdc_st_dio)

-- Behind `leave_args`: arguments are missing, or the execution phase has come.
abbrev Begun : Operation → FdcStatus → ℕ → ℕ → ℕ → Type 0
Begun op FdcStatus.cmd n m d = ⊥
Begun op FdcStatus.args n m d = (n < m) × (m ≡ op.args_len) × (d ≡ 0)
Begun op FdcStatus.exec n m d = d ≡ exec_dio op.exec
Begun op FdcStatus.result n m d = (n ≤ m) × (m ≡ op.result_len) × (d ≡ fdc_st_dio)

-- Behind `leave_exec`: the execution phase goes on only if it has a routine.
abbrev Ended : Operation → FdcStatus → ℕ → ℕ → ℕ → Type 0
Ended op FdcStatus.cmd n m d = ⊥
Ended op FdcStatus.args n m d = (n < m) × (m ≡ op.args_len) × (d ≡ 0)
Ended op FdcStatus.exec n m d = (is_null op.exec ≡ false) × (d ≡ exec_dio op.exec)
Ended op FdcStatus.result n m d = (n ≤ m) × (m ≡ op.result_len) × (d ≡ fdc_st_dio)

module _ {D : Type 0} where
  resize : (s t : Fdc D) → Sized s → t ≡ record s { fdc_status = FdcStatus.exec } → Sized t
  resize s t z e = ground arith

  call_post_exec-Keeps :
      (f : Option PostExec) (s : Fdc D) → length s.result ≡ 7 → Holds (Keeps s) (call_post_exec f s)
  unfolding call_post_exec
  call_post_exec-Keeps none s h = ground arith
  call_post_exec-Keeps (some f) s h = run_post_exec-Keeps f s h

module _ {D : Type 0} (op : Operation) (known : IsKnown op) where
  record At (P : Operation → FdcStatus → ℕ → ℕ → ℕ → Type 0) (s : Fdc D) : Type 0 where
    currop : s.fdc_currop ≡ some op
    sized : Sized s
    phase : P op s.fdc_status s.rwcount s.rwcount_max (bit_and s.msr fdc_st_dio)

  count-Counted :
      (s : Fdc D) → Core s → s.fdc_currop ≡ some op → At Counted (leave_cmd op (count_access s))
  unfolding leave_cmd count_access
  count-Counted s c e = ground (
    arith,
    and-clear_apart s.msr fdc_st_dio fdc_st_rqm,
    and-clear_within s.msr fdc_st_dio fdc_st_dio,
  )

  abbrev InExec : Fdc D → Type 0
  InExec t = At Begun t × (t.fdc_status ≡ FdcStatus.exec)

  call_pre_exec-Begun :
      (f : Option PreExec) (s : Fdc D)
      → pre_dio_of f 0 ≡ exec_dio op.exec
      → s.fdc_currop ≡ some op
      → Sized s
      → s.fdc_status ≡ FdcStatus.exec
      → bit_and s.msr fdc_st_dio ≡ 0
      → Holds InExec (call_pre_exec f s)
  unfolding call_pre_exec
  call_pre_exec-Begun none s p e z x d = ground arith
  call_pre_exec-Begun (some f) s p e z x d =
      Holds-map _ InExec (run_pre_exec f s) (λ (t : Fdc D) r. ground arith) (run_pre_exec-Ran f s)

  leave_args-Begun : (s : Fdc D) → At Counted s → Holds (At Begun) (leave_args op s)
  unfolding leave_args
  leave_args-Begun s a = elim (Bool-cases (is_args s.fdc_status && s.rwcount == s.rwcount_max)) [
    | inl full ↦ rw full (
        Holds-bind InExec (At Begun)
          (call_pre_exec op.pre_exec (record s { fdc_status = FdcStatus.exec })) _
          (call_pre_exec-Begun op.pre_exec (record s { fdc_status = FdcStatus.exec })
            known.direction a.currop (resize s _ a.sized refl) refl (ground arith))
          (λ t b. ground arith))
    | inr more ↦ rw more (ground arith)
  ]

  leave_exec-Ended : (s : Fdc D) → At Begun s → Holds (At Ended) (leave_exec op s)
  unfolding leave_exec
  leave_exec-Ended s a =
      let t = record s { tc_status = false; msr = set_bits s.msr fdc_st_dio } in
      elim (Bool-cases (is_exec s.fdc_status && (s.tc_status || is_null op.exec))) [
        | inl done ↦ rw done (
            Holds-bind (Keeps t) (At Ended) (call_post_exec op.post_exec t) _
              (call_post_exec-Keeps op.post_exec t a.sized.result)
              (λ (u : Fdc D) k. ground (
                arith,
                and-set_apart s.msr fdc_st_dio fdc_st_rqm,
                and-set_within s.msr fdc_st_dio fdc_st_dio,
              )))
        | inr more ↦ rw more (ground arith)
      ]

  leave_result-Core : (s : Fdc D) → At Ended s → Core (leave_result s)
  unfolding leave_result
  leave_result-Core s a = ground (
    arith,
    known,
    and-clear_apart s.msr fdc_st_dio fdc_st_rqm,
    and-clear_within s.msr fdc_st_dio fdc_st_dio,
  )

abbrev put_bit : Bool → ℕ → ℕ → ℕ
put_bit b m k = if b then set_bits m k else clear_bits m k

-- Of the four upper bits, writing one leaves the others.
abbrev Apart : Bool → ℕ → ℕ → ℕ → Type 0
Apart b m k j = bit_and k j ≡ 0 → bit_and (255 - k) j ≡ j → bit_and (put_bit b m k) j ≡ bit_and m j

put_bit-Apart : (b : Bool) (m k j : ℕ) → Apart b m k j
put_bit-Apart true m k j h g = and-set_apart m k j h
put_bit-Apart false m k j h g = and-clear_apart m k j g

put_bit_within :
    (b : Bool) (m k : ℕ)
    → bit_and k k ≡ k
    → bit_and (255 - k) k ≡ 0
    → bit_and (put_bit b m k) k ≡ (if b then k else 0)
put_bit_within true m k h g = and-set_within m k k h
put_bit_within false m k h g = and-clear_within m k k g

-- EXM and then CB are written.
two_bits :
    (e c : Bool) (m : ℕ)
    → let m' = put_bit c (put_bit e m fdc_st_exm) fdc_st_cb in
      (bit_and m' fdc_st_cb ≡ (if c then fdc_st_cb else 0))
      × (bit_and m' fdc_st_exm ≡ (if e then fdc_st_exm else 0))
      × (bit_and m' fdc_st_rqm ≡ bit_and m fdc_st_rqm)
      × (bit_and m' fdc_st_dio ≡ bit_and m fdc_st_dio)
two_bits e c m =
    let n = put_bit e m fdc_st_exm in
    (
      put_bit_within c n fdc_st_cb refl refl,
      put_bit-Apart c n fdc_st_cb fdc_st_exm refl refl ∙ put_bit_within e m fdc_st_exm refl refl,
      put_bit-Apart c n fdc_st_cb fdc_st_rqm refl refl
          ∙ put_bit-Apart e m fdc_st_exm fdc_st_rqm refl refl,
      put_bit-Apart c n fdc_st_cb fdc_st_dio refl refl
          ∙ put_bit-Apart e m fdc_st_exm fdc_st_dio refl refl,
    )

-- `show_phase` sets CB and EXM by the phase, and no other bit.
show_phase_bits :
    (status : FdcStatus) (m : ℕ)
    → (bit_and (show_phase status m) fdc_st_cb ≡ (if is_cmd status then 0 else fdc_st_cb))
      × (bit_and (show_phase status m) fdc_st_exm ≡ (if is_exec status then fdc_st_exm else 0))
      × (bit_and (show_phase status m) fdc_st_rqm ≡ bit_and m fdc_st_rqm)
      × (bit_and (show_phase status m) fdc_st_dio ≡ bit_and m fdc_st_dio)
unfolding show_phase
show_phase_bits FdcStatus.cmd m = two_bits false false m
show_phase_bits FdcStatus.exec m = two_bits true true m
show_phase_bits _ m = two_bits false true m

module _ {D : Type 0} where
  show-Inv : (t : Fdc D) → Core t → Inv (record t { msr = show_phase t.fdc_status t.msr })
  show-Inv t c = ground (arith, show_phase_bits t.fdc_status t.msr)

  next_status-Inv :
      (op : Operation) (s : Fdc D)
      → IsKnown op
      → Core s
      → s.fdc_currop ≡ some op
      → Holds Inv (next_status_with op s)
  unfolding next_status_with
  next_status-Inv op s known c e =
      Holds-bind (At op known Begun) Inv (leave_args op (leave_cmd op (count_access s))) _
        (leave_args-Begun op known _ (count-Counted op known s c e))
        (λ (t : Fdc D) b.
          Holds-bind (At op known Ended) Inv (leave_exec op t) _ (leave_exec-Ended op known t b)
            (λ (u : Fdc D) d. show-Inv (leave_result u) (leave_result-Core op known u d)))

  current-IsKnown : (s : Fdc D) {op : Operation} → Core s → s.fdc_currop ≡ some op → IsKnown op
  current-IsKnown s c e = ground arith

  compute_from-Inv :
      (current : Option Operation) (s : Fdc D)
      → s.fdc_currop ≡ current
      → Inv s
      → Holds Inv (compute_from current s)
  unfolding compute_from
  compute_from-Inv none s e v = v
  compute_from-Inv (some op) s e v = next_status-Inv op s (current-IsKnown s v.core e) v.core e

  pub compute_next_status-Inv : (s : Fdc D) → Inv s → Holds Inv (fdc_compute_next_status s)
  unfolding fdc_compute_next_status
  compute_next_status-Inv s v = compute_from-Inv s.fdc_currop s refl v
