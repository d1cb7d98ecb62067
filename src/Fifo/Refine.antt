-- ===== src/Fifo/Refine.antt =====
-- The ring buffer holds a queue of at most one element less than its buffer.
use ceda_cemu.Base.{
  ltb, ℕ, zero, suc, ◌+◌, ◌-◌, ◌≤◌, ◌<◌, ◌≡◌, ◌↔◌, refl, ap, ap₂, ◌∙◌, true, false, List, [], ◌∷◌,
  ◌++◌, Option, none, some, length, get_or, set, ◌==◌, if◌then◌else◌, arith, length-set,
  get_or-set_self, get_or-set_ne, Bool-cases, inl, inr,
}
use ceda_cemu.Fifo.{Fifo, is_empty, is_full, push, pop, flush, len, count, free}
use ceda_cemu.Fifo.Queue.{Op, put, get, clear, queue_step, queue_run}

-- The index behind `h`, and the one `n` steps behind it, round a buffer of `size` elements.
abbrev pub next_index : ℕ → ℕ → ℕ
next_index size h = if h == size - 1 then 0 else h + 1

abbrev pub index_after : ℕ → ℕ → ℕ → ℕ
index_after size h n = if ltb (h + n) size then h + n else h + n - size

module _ {A : Type 0} (d : A) where
  -- The client of the macros.
  unfoldable pub fifo_step : Fifo A → Op A → Fifo A × Option A
  fifo_step f (put x) = if is_full f then (f, none) else (push f x, none)
  fifo_step f get = if is_empty f then (f, none) else let (x, f') = pop d f in (f', some x)
  fifo_step f clear = (flush f, none)

  unfoldable pub fifo_run : Fifo A → List (Op A) → List (Option A)
  fifo_run f [] = []
  fifo_run f (op ∷ ops) = let (f', answer) = fifo_step f op in answer ∷ fifo_run f' ops

  -- `n` elements from index `h` on.
  abbrev pub walk : ℕ → List A → ℕ → ℕ → List A
  walk size buffer h zero = []
  walk size buffer h (suc n) = get_or buffer h d ∷ walk size buffer (next_index size h) n

  abbrev pub contents : Fifo A → List A
  contents f = walk (length f.buffer) f.buffer f.head (count f)

  length-walk : (size : ℕ) (buffer : List A) (h n : ℕ) → length (walk size buffer h n) ≡ n
  length-walk size buffer h zero = refl
  length-walk size buffer h (suc n) = ap suc (length-walk size buffer (next_index size h) n)

  walk_pos :
      (size : ℕ) (buffer : List A) (h n : ℕ)
      → 0 < n
      → walk size buffer h n ≡ get_or buffer h d ∷ walk size buffer (next_index size h) (n - 1)
  walk_pos size buffer h zero p = absurd (omega arith)
  walk_pos size buffer h (suc n) p = ap (λ k. walk size buffer h (suc k)) (omega arith)

pub record IsValid {A : Type 0} (f : Fifo A) : Type 0 where
  pub head_in : f.head < length f.buffer
  pub tail_in : f.tail < length f.buffer

module _ {A : Type 0} (d : A) where
  -- A write just behind the elements extends them.
  walk-set :
      (n size : ℕ) (buffer : List A) (h i : ℕ) (x : A)
      → size ≡ length buffer
      → h < size
      → suc n ≤ size
      → i ≡ index_after size h n
      → walk d size (set buffer i x) h (suc n) ≡ walk d size buffer h n ++ x ∷ []
  walk-set zero size buffer h i x z hh hn e =
      let at : i ≡ h = ground arith in ground (arith, get_or-set_self buffer i x d)
  walk-set (suc n) size buffer h i x z hh hn e =
      ap₂ ◌∷◌ (get_or-set_ne buffer x d (ground arith)) (
        walk-set n size buffer (next_index size h) i x z (ground arith) (omega arith)
          (ground arith))

  pub length-contents : (f : Fifo A) → length (contents d f) ≡ count f
  length-contents f = length-walk d (length f.buffer) f.buffer f.head (count f)

  -- On a valid buffer the used and the free elements add up to the capacity, the tests for empty
  -- and full agree with the two counts, and the tail lies the used elements behind the head, round
  -- the end of the buffer.
  pub counters :
      (f : Fifo A)
      → IsValid f
      → (count f + free f ≡ length f.buffer - 1)
        × ((is_empty f ≡ true) ↔ (count f ≡ 0))
        × ((is_full f ≡ true) ↔ (free f ≡ 0))
        × (f.tail ≡ index_after (length f.buffer) f.head (count f))
  unfolding count free is_empty is_full
  counters f v =
      (ground arith, (ground arith, ground arith), (ground arith, ground arith), ground arith)

  pub push-IsValid : (f : Fifo A) (x : A) → IsValid f → IsValid (push f x)
  unfolding push
  push-IsValid f x v = ground (arith, length-set f.buffer f.tail x)

  pub pop-IsValid : (f : Fifo A) → IsValid f → IsValid (pop d f).1
  unfolding pop
  pop-IsValid f v = ground arith

  pub count-push :
      (f : Fifo A) (x : A) → IsValid f → is_full f ≡ false → count (push f x) ≡ suc (count f)
  unfolding push count is_full
  count-push f x v h = ground (arith, length-set f.buffer f.tail x)

  pub count-pop : (f : Fifo A) → IsValid f → is_empty f ≡ false → count (pop d f).1 ≡ count f - 1
  unfolding pop count is_empty
  count-pop f v h = ground arith

  pub count_pos : (f : Fifo A) → IsValid f → is_empty f ≡ false → 0 < count f
  unfolding count is_empty
  count_pos f v h = ground arith

  pub count_lt : (f : Fifo A) → IsValid f → count f < length f.buffer
  unfolding count
  count_lt f v = ground arith

  pub push-contents :
      (f : Fifo A) (x : A)
      → IsValid f
      → is_full f ≡ false
      → contents d (push f x) ≡ contents d f ++ x ∷ []
  unfolding push
  push-contents f x v h = ground (
    arith,
    length-set f.buffer f.tail x,
    count-push f x v h,
    count_lt f v,
    (counters f v).3,
    walk-set (count f) (length f.buffer) f.buffer f.head f.tail x refl v.head_in,
  )

  pub pop-contents :
      (f : Fifo A)
      → IsValid f
      → is_empty f ≡ false
      → contents d f ≡ (pop d f).0 ∷ contents d (pop d f).1
  unfolding pop
  pop-contents f v h = ground (
    arith,
    count-pop f v h,
    count_pos f v h,
    walk_pos d (length f.buffer) f.buffer f.head (count f),
  )

  step-IsValid : (f : Fifo A) (op : Op A) → IsValid f → IsValid (fifo_step d f op).0
  unfolding fifo_step flush
  step-IsValid f (put x) v = ground (arith, push-IsValid f x v)
  step-IsValid f get v = ground (arith, pop-IsValid f v)
  step-IsValid f clear v = ground arith

  len-step : (f : Fifo A) (op : Op A) → len (fifo_step d f op).0 ≡ len f
  unfolding fifo_step flush len push pop
  len-step f (put x) = ground (arith, length-set f.buffer f.tail x)
  len-step f get = ground arith
  len-step f clear = refl

  count-flush : (f : Fifo A) → count (flush f) ≡ 0
  unfolding flush count
  count-flush f = ground arith

  -- One operation of the client is one step of the queue.
  step_refines :
      (f : Fifo A) (op : Op A)
      → IsValid f
      → let (f', answer) = fifo_step d f op in
        queue_step (len f) (contents d f) op ≡ (contents d f', answer)
  unfolding fifo_step queue_step flush len
  step_refines f (put x) v = elim (Bool-cases (is_full f)) [
    | inl full ↦ rw full (ground (arith, length-contents f, counters f v))
    | inr room ↦
        rw (room, push-contents f x v room) (ground (arith, length-contents f, counters f v))
  ]
  step_refines f get v = elim (Bool-cases (is_empty f)) [
    | inl none_left ↦ rw none_left (ground (arith, length-contents f, counters f v))
    | inr some_left ↦ rw (some_left, pop-contents f v some_left)
  ]
  step_refines f clear v = ground (arith, count-flush f)

  -- Any sequence of guarded puts, gets and flushes on a valid ring buffer gives the answers of a
  -- queue of bounded length that starts with the buffer's contents.
  pub run_refines :
      (ops : List (Op A)) (f : Fifo A)
      → IsValid f
      → fifo_run d f ops ≡ queue_run (len f) (contents d f) ops
  unfolding fifo_run queue_run
  run_refines [] f v = refl
  run_refines (op ∷ ops) f v =
      let (f', answer) = fifo_step d f op in
      rw (step_refines f op v) (
        ap (λ l. answer ∷ l)
          (run_refines ops f' (step-IsValid f op v)
            ∙ ap (λ n. queue_run n (contents d f') ops) (len-step f op)))

module _ {A : Type 0} (d : A) where
  -- On a valid buffer that is neither empty nor full, a push before a pop and a pop before a push
  -- give the same element and the same buffer.
  pub push-pop_comm :
      (f : Fifo A) (x : A)
      → IsValid f
      → is_empty f ≡ false
      → is_full f ≡ false
      → let (a, f') = pop d f in ◌≡◌ {A = A × Fifo A} (a, push f' x) (pop d (push f x))
  unfolding push pop is_empty is_full
  push-pop_comm f x v e h =
      ground
        (arith, length-set f.buffer f.tail x, get_or-set_ne f.buffer {i = f.tail} {j = f.head} x d)
