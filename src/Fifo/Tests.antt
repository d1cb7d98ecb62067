-- ===== src/Fifo/Tests.antt =====
-- Runs of the ring buffer on concrete inputs.
use ceda_cemu.Base.{ℕ, ◌≡◌, refl, List, [], ◌∷◌, none, some, arith}
use ceda_cemu.Fifo.{Fifo, is_empty, is_full, push, pop, count, free}
use ceda_cemu.Fifo.Queue.{Op, put, get, queue_run}
use ceda_cemu.Fifo.Refine.{IsValid, index_after, counters, fifo_run, run_refines, push-pop_comm}

-- Four elements of storage, two in use, round the end of the buffer.
abbrev wrapped : Fifo ℕ
wrapped = record { head = 3; tail = 1; buffer = 20 ∷ 0 ∷ 0 ∷ 10 ∷ [] }

wrapped-IsValid : IsValid {A = ℕ} wrapped
wrapped-IsValid = record { head_in = omega arith; tail_in = omega arith }

abbrev ops : List (Op ℕ)
ops = put 30 ∷ put 40 ∷ get ∷ get ∷ get ∷ get ∷ []

run_refines_example : fifo_run 0 wrapped ops ≡ queue_run 3 (10 ∷ 20 ∷ []) ops
unfolding ceda_cemu.Fifo.len count
run_refines_example = run_refines 0 ops wrapped wrapped-IsValid

run_answers : fifo_run 0 wrapped ops ≡ none ∷ none ∷ some 10 ∷ some 20 ∷ some 30 ∷ none ∷ []
unfolding fifo_run ceda_cemu.Fifo.Refine.fifo_step is_full is_empty push pop
run_answers = refl
