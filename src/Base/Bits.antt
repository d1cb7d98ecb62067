-- ===== src/Base/Bits.antt =====
-- Bytes: the bit operations of the registers, their laws at all values, and tables for the rest.
mod Digits
use Prim.Native.Nat.{ℕ, zero, suc, ◌+◌, ◌-◌, ◌*◌, ◌/◌, ◌%◌, ◌≤◌, ◌<◌, ◌^◌, bit_and, bit_or}
use mathlib.Core.Path.{◌≡◌, ap}
use mathlib.Core.Bool.{Bool, true, ◌&&◌}
use native.Mathlib.Omega.{arith}
use native.Mathlib.Nat.{pow-suc}
use Digits.{and_digit, or_digit}
pub use Digits.{zero-and, zero-or}

-- The test passes on every number below the bound.
unfoldable pub all_below : ℕ → (ℕ → Bool) → Bool
all_below zero test = true
all_below (suc bound) test = all_below bound test && test bound

pub all_below_sound :
    (bound : ℕ) (test : ℕ → Bool) (k : ℕ) → all_below bound test ≡ true → k < bound → test k ≡ true
unfolding all_below
all_below_sound zero test k passes small = absurd (omega arith)
all_below_sound (suc bound) test k passes small = ground (arith, all_below_sound bound test k)

-- `x |= m` and `x &= (uint8_t)~m` on a byte.
abbrev pub set_bits : ℕ → ℕ → ℕ
set_bits x m = bit_or x m

abbrev pub clear_bits : ℕ → ℕ → ℕ
clear_bits x m = bit_and x (255 - m)

-- Induction on binary digits: from `x / 2` to `x`.
module _ (P : ℕ → Type 0) (empty : P 0) (digit : (x : ℕ) → P (x / 2) → P x) where
  digits_upto : (n x : ℕ) → x ≤ n → P x
  digits_upto n zero h = empty
  digits_upto zero (suc x) h = absurd (omega arith)
  digits_upto (suc n) (suc x) h = digit (suc x) (digits_upto n (suc x / 2) (omega arith))

  by_digits : (x : ℕ) → P x
  by_digits x = digits_upto x x (omega arith)

and-zero : (x : ℕ) → bit_and x 0 ≡ 0
and-zero =
    by_digits (λ x. bit_and x 0 ≡ 0) (zero-and 0) (λ (x : ℕ) ih. omega (arith, and_digit x 0, ih))

or-zero : (x : ℕ) → bit_or x 0 ≡ x
or-zero =
    by_digits (λ x. bit_or x 0 ≡ x) (zero-or 0) (λ (x : ℕ) ih. omega (arith, or_digit x 0, ih))

-- A mask bounds the result.
pub and_le_mask : (x m : ℕ) → bit_and x m ≤ m
and_le_mask =
    by_digits (λ x. (m : ℕ) → bit_and x m ≤ m) (λ m. omega (arith, zero-and m))
      (λ (x : ℕ) ih (m : ℕ). omega (arith, and_digit x m, ih (m / 2)))

pub mask_le_or : (x m : ℕ) → m ≤ bit_or x m
mask_le_or =
    by_digits (λ x. (m : ℕ) → m ≤ bit_or x m) (λ m. omega (arith, zero-or m))
      (λ (x : ℕ) ih (m : ℕ). omega (arith, or_digit x m, ih (m / 2)))

-- Reading some bits after setting, and after clearing, others.
pub and-or : (x m k : ℕ) → bit_and (bit_or x m) k ≡ bit_or (bit_and x k) (bit_and m k)
and-or =
    by_digits (λ x. (m k : ℕ) → bit_and (bit_or x m) k ≡ bit_or (bit_and x k) (bit_and m k))
      (λ m k. ground (arith, zero-or m, zero-and k, zero-or (bit_and m k)))
      (λ (x : ℕ) ih (m k : ℕ). ground (
        arith,
        and_digit (bit_or x m) k,
        or_digit x m,
        or_digit (bit_and x k) (bit_and m k),
        and_digit x k,
        and_digit m k,
        ih (m / 2) (k / 2),
      ))

pub and-and : (x m k : ℕ) → bit_and (bit_and x m) k ≡ bit_and x (bit_and m k)
and-and =
    by_digits (λ x. (m k : ℕ) → bit_and (bit_and x m) k ≡ bit_and x (bit_and m k))
      (λ m k. ground (arith, zero-and m, zero-and k, zero-and (bit_and m k)))
      (λ (x : ℕ) ih (m k : ℕ). ground (
        arith,
        and_digit (bit_and x m) k,
        and_digit x m,
        and_digit x (bit_and m k),
        and_digit m k,
        ih (m / 2) (k / 2),
      ))

or_lt_pow_upto : (w x m : ℕ) → x < 2 ^ w → m < 2 ^ w → bit_or x m < 2 ^ w
or_lt_pow_upto zero x m h k = ground (arith, or-zero x)
or_lt_pow_upto (suc w) x m h k =
    ground (arith, pow-suc 2 w, or_digit x m, or_lt_pow_upto w (x / 2) (m / 2))

-- A byte with more bits set is a byte.
or_lt_byte : (x m : ℕ) → x < 256 → m < 256 → bit_or x m < 256
or_lt_byte x m h k = or_lt_pow_upto 8 x m h k

or-and_absorb : (x k : ℕ) → bit_or (bit_and x k) k ≡ k
or-and_absorb =
    by_digits (λ x. (k : ℕ) → bit_or (bit_and x k) k ≡ k)
      (λ k. ground (arith, zero-and k, zero-or k))
      (λ (x : ℕ) ih (k : ℕ). ground (arith, and_digit x k, or_digit (bit_and x k) k, ih (k / 2)))

-- What a mask reads after other bits, or its own, were set or cleared.
pub and-set_apart : (x m k : ℕ) → bit_and m k ≡ 0 → bit_and (set_bits x m) k ≡ bit_and x k
and-set_apart x m k h = ground (arith, and-or x m k, or-zero (bit_and x k))

pub and-set_within : (x m k : ℕ) → bit_and m k ≡ k → bit_and (set_bits x m) k ≡ k
and-set_within x m k h = ground (arith, and-or x m k, or-and_absorb x k)

pub and-clear_apart :
    (x m k : ℕ) → bit_and (255 - m) k ≡ k → bit_and (clear_bits x m) k ≡ bit_and x k
and-clear_apart x m k h = ground (arith, and-and x (255 - m) k)

pub and-clear_within : (x m k : ℕ) → bit_and (255 - m) k ≡ 0 → bit_and (clear_bits x m) k ≡ 0
and-clear_within x m k h = ground (arith, and-and x (255 - m) k, and-zero x)

-- One digit more of a mask of ones.
and_one : (x m : ℕ) → bit_and x (m * 2 + 1) ≡ bit_and (x / 2) m * 2 + x % 2
and_one x m =
    let half : (m * 2 + 1) / 2 ≡ m = omega arith in
    omega (arith, and_digit x (m * 2 + 1), ap (bit_and (x / 2)) half)

and_nibble : (x m : ℕ) → bit_and x (m * 16 + 15) ≡ bit_and (x / 16) m * 16 + x % 16
and_nibble x m =
    let mask : m * 16 + 15 ≡ (((m * 2 + 1) * 2 + 1) * 2 + 1) * 2 + 1 = omega arith in
    let rest : x / 2 / 2 / 2 / 2 ≡ x / 16 = omega arith in
    omega (
      arith,
      ap (bit_and x) mask,
      and_one x (((m * 2 + 1) * 2 + 1) * 2 + 1),
      and_one (x / 2) ((m * 2 + 1) * 2 + 1),
      and_one (x / 2 / 2) (m * 2 + 1),
      and_one (x / 2 / 2 / 2) m,
      ap (λ (k : ℕ). bit_and k m) rest,
    )

-- The offset within 4 KiB.
pub and-low : (x : ℕ) → bit_and x 4095 ≡ x % 4096
and-low x = omega (
  arith,
  and_nibble x 255,
  and_nibble (x / 16) 15,
  and_nibble (x / 16 / 16) 0,
  and-zero (x / 16 / 16 / 16),
)
