-- ===== src/Fifo.antt =====
-- src/fifo.h: the ring buffer macros. Pointers are indices into `buffer`; `end` is its last index.
pub mod Queue
pub mod Refine
mod Tests
use ceda_cemu.Base.{
  ℕ, ◌+◌, ◌-◌, Bool, List, length, get_or, set, ◌==◌, ◌&&◌, ◌||◌, if◌then◌else◌, ltb,
}

-- `DECLARE_FIFO_TYPE`
pub record Fifo {ℓ} (A : Type ℓ) : Type ℓ where
  pub head : ℕ
  pub tail : ℕ
  pub buffer : List A

module _ {ℓ} {A : Type ℓ} where
  -- `FIFO_END`
  abbrev pub end : Fifo A → ℕ
  end f = length f.buffer - 1

  unfoldable pub is_empty : Fifo A → Bool
  is_empty f = f.head == f.tail

  -- `tail == head - 1` is compared as `tail + 1 == head`: before the buffer there is no index.
  unfoldable pub is_full : Fifo A → Bool
  is_full f = (f.head == 0 && f.tail == end f) || f.tail + 1 == f.head

  unfoldable pub push : Fifo A → A → Fifo A
  push f c = record f {
    buffer = set f.buffer f.tail c;
    tail = if f.tail == end f then 0 else f.tail + 1;
  }

  -- The element that `ret` holds (`d` stands for what lies outside the buffer), and the new state.
  unfoldable pub pop : A → Fifo A → A × Fifo A
  pop d f =
      if f.head == end f
      then (get_or f.buffer (end f) d, record f { head = 0 })
      else (get_or f.buffer f.head d, record f { head = f.head + 1 })

  unfoldable pub peek : A → Fifo A → A
  peek d f = get_or f.buffer f.head d

  unfoldable pub flush : Fifo A → Fifo A
  flush f = record f { head = f.tail }

  unfoldable pub init : Fifo A → Fifo A
  init f = record f { head = 0; tail = 0 }

  unfoldable pub len : Fifo A → ℕ
  len f = end f

  -- `long cnt = tail - head; if (cnt < 0) cnt += ARRAY_SIZE(buffer);`
  unfoldable pub count : Fifo A → ℕ
  count f = if ltb f.tail f.head then f.tail + length f.buffer - f.head else f.tail - f.head

  unfoldable pub free : Fifo A → ℕ
  unfolding count
  free f = length f.buffer - 1 - count f
