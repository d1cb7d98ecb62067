-- ===== src/Fdc/Accesses.antt =====
-- The controller driven from outside: any accesses, in any order.
use ceda_cemu.Base.{ℕ, Option, List, [], ◌∷◌}
use ceda_cemu.Base.Outcome.{Holds, Holds-bind, Outcome, ok, ◌>>=◌}
use ceda_cemu.Fdc.State.{Callback, Fdc}
use ceda_cemu.Fdc.Ports.{fdc_restart, fdc_in, fdc_out, fdc_tc_out, fdc_kick_disk_image, fdc_init}
use ceda_cemu.Fdc.Invariant.{Inv}
use ceda_cemu.Fdc.Safety.{
  fdc_in-Inv, fdc_out-Inv, fdc_tc_out-Inv, fdc_restart-Inv, fdc_init-Inv, kick-Inv,
}

-- What the processor, the TC line, the drives and the reset button may do.
pub data Access (D : Type 0) : Type 0 where
  reads : ℕ → Access D
  writes : ℕ → ℕ → Access D
  terminal_count : Access D
  kicks : Option (Callback D) → Option (Callback D) → Access D
  restart : Access D

module _ {D : Type 0} where
  unfoldable pub perform : Fdc D → Access D → Outcome (Fdc D)
  perform s (reads address) = do (t, _) ← fdc_in s address; ok t
  perform s (writes address value) = fdc_out s address value
  perform s terminal_count = fdc_tc_out s 0 0
  perform s (kicks r w) = fdc_kick_disk_image s r w
  perform s restart = ok (fdc_restart s)

  unfoldable pub perform_all : Fdc D → List (Access D) → Outcome (Fdc D)
  perform_all s [] = ok s
  perform_all s (a ∷ l) = do t ← perform s a; perform_all t l

  perform-Inv : (s : Fdc D) (a : Access D) → Inv s → Holds Inv (perform s a)
  unfolding perform
  perform-Inv s (reads address) v =
      Holds-bind (λ r. Inv r.0) Inv (fdc_in s address) _ (fdc_in-Inv s address v) (λ r w. w)
  perform-Inv s (writes address value) v = fdc_out-Inv s address value v
  perform-Inv s terminal_count v = fdc_tc_out-Inv s 0 0 v
  perform-Inv s (kicks r w) v = kick-Inv s r w v
  perform-Inv s restart v = fdc_restart-Inv s v.core.sized.args v.core.sized.buffer

  perform_all-Inv : (l : List (Access D)) (s : Fdc D) → Inv s → Holds Inv (perform_all s l)
  unfolding perform_all
  perform_all-Inv [] s v = v
  perform_all-Inv (a ∷ l) s v =
      Holds-bind Inv Inv (perform s a) _ (perform-Inv s a v) (λ t w. perform_all-Inv l t w)

  -- After any accesses from power-on, in any order, that do not end the program, RQM is set, CB is
  -- shown exactly outside the command phase, EXM exactly in the execution phase, DIO gives the
  -- direction of the phase (and of the running command in the execution phase), the counters lie
  -- within the argument and result phases, and the arrays keep their sizes.
  pub accesses-Inv : (disk : D) (l : List (Access D)) → Holds Inv (perform_all (fdc_init disk) l)
  accesses-Inv disk l = perform_all-Inv l (fdc_init disk) (fdc_init-Inv disk)
