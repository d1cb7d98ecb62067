-- ===== src/Fifo/Queue.antt =====
-- The specification: a queue of bounded length, oldest element first, driven by operations.
use ceda_cemu.Base.{ℕ, List, [], ◌∷◌, ◌++◌, Option, none, some, length, ◌==◌, if◌then◌else◌}

-- What a careful client does: it looks before it pushes and before it pops.
pub data Op {ℓ} (A : Type ℓ) : Type ℓ where
  put : A → Op A
  get : Op A
  clear : Op A

module _ {ℓ} {A : Type ℓ} where
  -- The queue and the answer; a full queue drops what is put, an empty one answers `none`.
  unfoldable pub queue_step : ℕ → List A → Op A → List A × Option A
  queue_step cap q (put x) = if length q == cap then (q, none) else (q ++ x ∷ [], none)
  queue_step cap [] get = ([], none)
  queue_step cap (x ∷ q) get = (q, some x)
  queue_step cap q clear = ([], none)

  unfoldable pub queue_run : ℕ → List A → List (Op A) → List (Option A)
  queue_run cap q [] = []
  queue_run cap q (op ∷ ops) =
      let (q', answer) = queue_step cap q op in answer ∷ queue_run cap q' ops
