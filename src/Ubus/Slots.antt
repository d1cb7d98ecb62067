-- ===== src/Ubus/Slots.antt =====
-- Registered peripherals never overlap.
use ceda_cemu.Base.{
  ℕ, ◌≤◌, ◌<◌, ◌≡◌, ◌≢◌, ◌⊎◌, true, false, Option, List, [], ◌∷◌, ◌++◌, length, length-append,
  arith,
}
use ceda_cemu.Ubus.{Slot, IoRead, IoWrite, is_free, ubus_register}

module _ {W : Type 0} where
  -- No address is decoded by both.
  abbrev pub Apart : Slot W → Slot W → Type 0
  Apart s t = (t.top ≤ s.base) ⊎ (s.top ≤ t.base)

  abbrev pub ApartFrom : Slot W → List (Slot W) → Type 0
  ApartFrom s [] = Unit
  ApartFrom s (t ∷ ts) = Apart s t × ApartFrom s ts

  abbrev pub Pairwise : List (Slot W) → Type 0
  Pairwise [] = Unit
  Pairwise (s ∷ ss) = ApartFrom s ss × Pairwise ss

  -- A range within the 256 addresses.
  abbrev InRange : List (Slot W) → Type 0
  InRange [] = Unit
  InRange (s ∷ ss) = (s.base < s.top) × (s.top ≤ 256) × InRange ss

pub record Inv {W : Type 0} (slots : List (Slot W)) : Type 0 where
  pub few : length slots ≤ 4
  pub ranges : InRange slots
  pub apart : Pairwise slots

module _ {W : Type 0} where
  ApartFrom-append :
      (s t : Slot W) (ss : List (Slot W)) → ApartFrom s ss → Apart s t → ApartFrom s (ss ++ t ∷ [])
  ApartFrom-append s t [] h k = (k, tt)
  ApartFrom-append s t (u ∷ ss) h k = (h.0, ApartFrom-append s t ss h.1 k)

  Pairwise-append :
      (ss : List (Slot W)) (t : Slot W)
      → Pairwise ss
      → is_free ss t.base t.top ≡ true
      → Pairwise (ss ++ t ∷ [])
  unfolding is_free
  Pairwise-append [] t h f = (tt, tt)
  Pairwise-append (s ∷ ss) t h f =
      (ApartFrom-append s t ss h.0 (ground arith), Pairwise-append ss t h.1 (ground arith))

  InRange-append :
      (ss : List (Slot W)) (t : Slot W)
      → InRange ss
      → t.base < t.top
      → t.top ≤ 256
      → InRange (ss ++ t ∷ [])
  InRange-append [] t h a b = (a, b, tt)
  InRange-append (s ∷ ss) t h a b = (h.0, h.1, InRange-append ss t h.2 a b)

  append-Inv :
      (ss : List (Slot W)) (t : Slot W)
      → Inv ss
      → t.base < t.top
      → t.top ≤ 256
      → length ss ≢ 4
      → is_free ss t.base t.top ≡ true
      → Inv (ss ++ t ∷ [])
  append-Inv ss t v a b n f = record {
    few = omega (arith, length-append ss (t ∷ []), v.few, n);
    ranges = InRange-append ss t v.ranges a b;
    apart = Pairwise-append ss t v.apart f;
  }

  pub register-Inv :
      (ss : List (Slot W)) (base top : ℕ) (read : Option (IoRead W)) (write : Option (IoWrite W))
      → Inv ss
      → Inv (ubus_register ss base top read write).0
  unfolding ubus_register
  register-Inv ss base top read write v =
      let t : Slot W = record { base = base; top = top; input = read; output = write } in
      ground (arith, v, append-Inv ss t v)

  -- A registration either leaves the slots or adds one behind them.
  pub register-cases :
      (ss : List (Slot W)) (base top : ℕ) (read : Option (IoRead W)) (write : Option (IoWrite W))
      → ((ubus_register ss base top read write ≡ (ss, false)))
        ⊎ (ubus_register ss base top read write
            ≡ (ss ++ record { base = base; top = top; input = read; output = write } ∷ [], true))
  unfolding ubus_register
  register-cases ss base top read write = ground arith
