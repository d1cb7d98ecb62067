-- ===== src/Base/Bits/Digits.antt =====
-- One equation for the lowest digit of `&` and of `|`, without the fuel of their definition.
use Prim.Native.Nat.{
  ℕ, zero, suc, ◌+◌, ◌*◌, ◌/◌, ◌%◌, ◌≤◌, min, max, bit_and, bit_or, digits, bit_and-bitwise,
  bit_or-bitwise,
}
use mathlib.Core.Path.{◌≡◌, refl, ap}
use native.Mathlib.Omega.{arith}

module _ (rest : ℕ → ℕ) (op : ℕ → ℕ → ℕ) where
  -- Any fuel from the first operand on gives the same digits.
  more_fuel : (x n y : ℕ) → x ≤ n → digits rest op n x y ≡ digits rest op x x y
  more_fuel x n y h = enough n x x y h (omega arith)
    where
      enough : (n m x y : ℕ) → x ≤ n → x ≤ m → digits rest op n x y ≡ digits rest op m x y
      enough zero zero x y p q = refl
      enough (suc n) (suc m) zero y p q = refl
      enough zero (suc m) zero y p q = refl
      enough (suc n) zero zero y p q = refl
      enough zero m (suc x) y p q = absurd (omega arith)
      enough (suc n) zero (suc x) y p q = absurd (omega arith)
      enough (suc n) (suc m) (suc x) y p q =
          ap (λ (t : ℕ). t * 2 + op (suc x % 2) (y % 2))
            (enough n m (suc x / 2) (y / 2) (omega arith) (omega arith))

pub and_digit : (x y : ℕ) → bit_and x y ≡ bit_and (x / 2) (y / 2) * 2 + min (x % 2) (y % 2)
and_digit zero y = omega (arith, bit_and-bitwise 0 y, bit_and-bitwise 0 (y / 2))
and_digit (suc x) y = omega (
  arith,
  bit_and-bitwise (suc x) y,
  bit_and-bitwise (suc x / 2) (y / 2),
  more_fuel (λ _. 0) min (suc x / 2) x (y / 2) (omega arith),
)

pub or_digit : (x y : ℕ) → bit_or x y ≡ bit_or (x / 2) (y / 2) * 2 + max (x % 2) (y % 2)
or_digit zero y = omega (arith, bit_or-bitwise 0 y, bit_or-bitwise 0 (y / 2))
or_digit (suc x) y = omega (
  arith,
  bit_or-bitwise (suc x) y,
  bit_or-bitwise (suc x / 2) (y / 2),
  more_fuel (λ y. y) max (suc x / 2) x (y / 2) (omega arith),
)

pub zero-and : (y : ℕ) → bit_and 0 y ≡ 0
zero-and y = bit_and-bitwise 0 y

pub zero-or : (y : ℕ) → bit_or 0 y ≡ y
zero-or y = bit_or-bitwise 0 y
