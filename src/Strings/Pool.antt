-- ===== src/Strings/Pool.antt =====
-- src/ceda_string.c: how a string object is taken from the pool.
use ceda_cemu.Base.{
  ℕ, zero, suc, ◌+◌, ◌^◌, ◌<◌, ◌≡◌, refl, ap, ◌∙◌, true, false, Option, List, [], ◌∷◌, length, set,
  get_or, ◌==◌, lt→ltb, arith,
}
use ceda_cemu.Base.Outcome.{Outcome, ok, ◌>>=◌}
use ceda_cemu.Strings.{CedaString, zero_string, new_in, ceda_string_new, allocated, write}
use ceda_cemu.Strings.Represents.{Represents, Allocates}

-- All slots below index `i` are in use.
abbrev pub AllValid : List CedaString → ℕ → Type 0
AllValid pool zero = Unit
AllValid [] (suc i) = Unit
AllValid (s ∷ pool) (suc i) = (s.valid ≡ true) × AllValid pool i

-- A slot whose memory was just allocated.
abbrev started : ℕ → List ℕ → CedaString
started capacity memory = record { valid = true; capacity = capacity; used = 1; memory = memory }

abbrev start : ℕ → List ℕ → Outcome CedaString
start capacity memory = do emptied ← write memory 0 0; ok (started capacity emptied)

start-Represents :
    (capacity : ℕ) (memory : List ℕ)
    → 0 < capacity
    → capacity < 2 ^ 16
    → length memory ≡ capacity
    → (t : CedaString) × (start capacity memory ≡ ok t) × Represents t [] × (t.capacity ≡ capacity)
start-Represents capacity [] positive small size = absurd (omega (arith, size))
start-Represents capacity (x ∷ rest) positive small size = (
  started capacity (0 ∷ rest),
  rw (lt→ltb 0 (suc (length rest)) (omega arith)) refl,
  record {
    is_valid = refl;
    size = size;
    bound = small;
    count = omega arith;
    no_nul = tt;
    unused = rest;
    layout = refl;
  },
  refl,
)

module _ (malloc : ℕ → Option (List ℕ)) (gives : Allocates malloc) where
  at_used :
      (s : CedaString) (pool : List CedaString) (k capacity : ℕ)
      → s.valid ≡ true
      → new_in malloc (s ∷ pool) k capacity
        ≡ (do (rest, found) ← new_in malloc pool (k + 1) capacity; ok (s ∷ rest, found))
  unfolding new_in
  at_used s pool k capacity h = ground arith

  at_free :
      (s : CedaString) (pool : List CedaString) (k capacity : ℕ)
      → s.valid ≡ false
      → new_in malloc (s ∷ pool) k capacity ≡ (do
        t ← (do memory ← allocated (malloc capacity); start capacity memory)
        ok (t ∷ pool, k))
  unfolding new_in
  at_free s pool k capacity h = ground arith

  new_in_lem :
      (pool : List CedaString) (i k capacity : ℕ)
      → AllValid pool i
      → i < length pool
      → (get_or pool i zero_string).valid ≡ false
      → 0 < capacity
      → capacity < 2 ^ 16
      → (t : CedaString) × (new_in malloc pool k capacity ≡ ok (set pool i t, k + i))
        × Represents t []
        × (t.capacity ≡ capacity)
  new_in_lem [] i k capacity used h free positive small = absurd (omega arith)
  new_in_lem (s ∷ pool) zero k capacity used h free positive small =
      let (memory, given, size) = gives capacity in
      let (t, e, r, c) = start-Represents capacity memory positive small size in
      (
        t,
        at_free s pool k capacity free
            ∙ ap
                (λ (o : Option (List ℕ)). do
                  u ← (do m ← allocated o; start capacity m)
                  ok (u ∷ pool, k))
                given
            ∙ ap (λ (o : Outcome CedaString). do u ← o; ok (u ∷ pool, k)) e
            ∙ ap (λ (n : ℕ). ok (t ∷ pool, n)) (omega arith),
        r,
        c,
      )
  new_in_lem (s ∷ pool) (suc i) k capacity used h free positive small =
      let (t, e, r, c) =
        new_in_lem pool i (k + 1) capacity used.1 (omega arith) free positive small in
      (
        t,
        at_used s pool k capacity used.0
            ∙ ap (λ (o : Outcome (List CedaString × ℕ)). do (rest, found) ← o; ok (s ∷ rest, found))
                e
            ∙ ap (λ (n : ℕ). ok (s ∷ set pool i t, n)) (omega arith),
        r,
        c,
      )

  -- The first slot that is not in use is taken, holds the empty text and has
  -- the capacity that was asked for; the other slots stay.
  pub new-Represents :
      (pool : List CedaString) (i capacity : ℕ)
      → AllValid pool i
      → i < length pool
      → (get_or pool i zero_string).valid ≡ false
      → 0 < capacity
      → capacity < 2 ^ 16
      → (t : CedaString) × (ceda_string_new malloc pool capacity ≡ ok (set pool i t, i))
        × Represents t []
        × (t.capacity ≡ capacity)
  unfolding ceda_string_new
  new-Represents pool i capacity used h free positive small =
      let (t, e, r, c) = new_in_lem pool i 0 capacity used h free positive small in
      let size : (capacity == 0) ≡ false = ground arith in
      let at : 0 + i ≡ i = omega arith in
      (t, rw size (e ∙ ap (λ (n : ℕ). ok (set pool i t, n)) at), r, c)
