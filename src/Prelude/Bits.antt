-- ===== src/Prelude/Bits.antt =====
-- `^`, `&` and `|` at variables: the law for the lowest digit, and what the codecs need of it.
mod Digits
use Digits.{bit_and-digit, bit_or-digit, bit_xor-digit}
use Prim.Native.Nat.{
  ℕ, zero, suc, ◌+◌, ◌*◌, ◌/◌, ◌%◌, ◌^◌, ◌≤◌, ◌<◌, bit_and, bit_or, bit_xor, differ,
}
use mathlib.Core.Bool.{Bool, true, ◌&&◌}
use mathlib.Core.Path.{◌≡◌, refl, ap}
use native.Mathlib.Nat.{pow-suc}
use native.Mathlib.Omega.{arith}
use wisper.Prelude.Tests.{◌==◌, ==_iff}

-- Two functions that agree at every argument below `n`, by evaluation.
pub agree : (ℕ → ℕ) → (ℕ → ℕ) → ℕ → Bool
agree f g zero = true
agree f g (suc n) = f n == g n && agree f g n

-- From the table to each of its entries.
pub agree_at : (f g : ℕ → ℕ) (n : ℕ) → agree f g n ≡ true → (x : ℕ) → x < n → f x ≡ g x
unfolding agree
agree_at f g zero h x lt = absurd (omega arith)
agree_at f g (suc n) h x lt = ground (arith, ==_iff (f n) (g n), agree_at f g n (ground arith) x)

-- Masks of one byte.
pub bit_and-0x80 : (b : ℕ) → b < 256 → bit_and b 0x80 ≡ b / 128 * 128
unfolding agree
bit_and-0x80 = agree_at _ _ 256 refl

pub bit_and-0x7f : (b : ℕ) → b < 256 → bit_and b 0x7f ≡ b % 128
unfolding agree
bit_and-0x7f = agree_at _ _ 256 refl

pub bit_and-0x0f : (b : ℕ) → b < 256 → bit_and b 0x0f ≡ b % 16
unfolding agree
bit_and-0x0f = agree_at _ _ 256 refl

pub bit_or-0x80 : (b : ℕ) → b < 128 → bit_or 0x80 b ≡ 128 + b
unfolding agree
bit_or-0x80 = agree_at _ _ 128 refl

pub bit_or-0x00 : (b : ℕ) → b < 128 → bit_or 0 b ≡ b
unfolding agree
bit_or-0x00 = agree_at _ _ 128 refl

bit_or-zero_bounded : (n a : ℕ) → a ≤ n → bit_or a 0 ≡ a
bit_or-zero_bounded n zero h = refl
bit_or-zero_bounded zero (suc a) h = absurd (omega arith)
bit_or-zero_bounded (suc n) (suc a) h =
    omega (arith, bit_or-digit (suc a) 0, bit_or-zero_bounded n (suc a / 2) (omega arith))

bit_and-zero_bounded : (n a : ℕ) → a ≤ n → bit_and a 0 ≡ 0
bit_and-zero_bounded n zero h = refl
bit_and-zero_bounded zero (suc a) h = absurd (omega arith)
bit_and-zero_bounded (suc n) (suc a) h =
    omega (arith, bit_and-digit (suc a) 0, bit_and-zero_bounded n (suc a / 2) (omega arith))

bit_and-odd : (a m : ℕ) → bit_and a (2 * m + 1) ≡ bit_and (a / 2) m * 2 + a % 2
bit_and-odd a m = omega (arith, bit_and-digit a (2 * m + 1), ap (λ (t : ℕ). bit_and (a / 2) t) half)
  where
    half : (2 * m + 1) / 2 ≡ m
    half = omega arith

bit_and-0x0f_any : (a : ℕ) → bit_and a 0x0f ≡ a % 16
bit_and-0x0f_any a = omega (
  arith,
  bit_and-odd a 7,
  bit_and-odd (a / 2) 3,
  bit_and-odd (a / 2 / 2) 1,
  bit_and-odd (a / 2 / 2 / 2) 0,
  bit_and-zero_bounded a (a / 2 / 2 / 2 / 2) (omega arith),
)

-- The mask of one byte, at every number.
pub bit_and-0xff : (a : ℕ) → bit_and a 0xff ≡ a % 256
bit_and-0xff a = omega (
  arith,
  bit_and-odd a 127,
  bit_and-odd (a / 2) 63,
  bit_and-odd (a / 2 / 2) 31,
  bit_and-odd (a / 2 / 2 / 2) 15,
  bit_and-0x0f_any (a / 2 / 2 / 2 / 2),
)

-- `(q << k) | r` is a sum where `r` fits the low `k` bits.
pub bit_or-shifted : (k q r : ℕ) → r < 2 ^ k → bit_or (q * 2 ^ k) r ≡ q * 2 ^ k + r
bit_or-shifted zero q zero fits = ground (arith, bit_or-zero_bounded q q)
bit_or-shifted zero q (suc r) fits = absurd (omega arith)
bit_or-shifted (suc k) q r fits = omega (
  arith,
  bit_or-digit (q * 2 ^ suc k) r,
  ap (λ (t : ℕ). q * t) (pow-suc 2 k),
  pow-suc 2 k,
  bit_or-shifted k q (r / 2) (omega (arith, pow-suc 2 k)),
  half,
)
  where
    half : bit_or (q * 2 ^ suc k / 2) (r / 2) ≡ bit_or (q * 2 ^ k) (r / 2)
    half = ap (λ (t : ℕ). bit_or t (r / 2)) (omega (arith, ap (λ (t : ℕ). q * t) (pow-suc 2 k)))

differ_twice : (a k : ℕ) → a < 2 → k < 2 → differ (differ a k) k ≡ a
differ_twice zero zero p q = refl
differ_twice zero (suc zero) p q = refl
differ_twice (suc zero) zero p q = refl
differ_twice (suc zero) (suc zero) p q = refl
differ_twice zero (suc (suc k)) p q = absurd (omega arith)
differ_twice (suc zero) (suc (suc k)) p q = absurd (omega arith)
differ_twice (suc (suc a)) k p q = absurd (omega arith)

differ-lt-two : (a k : ℕ) → a < 2 → k < 2 → differ a k < 2
differ-lt-two zero k p q = q
differ-lt-two (suc zero) zero p q = omega arith
differ-lt-two (suc zero) (suc zero) p q = omega arith
differ-lt-two (suc zero) (suc (suc k)) p q = absurd (omega arith)
differ-lt-two (suc (suc a)) k p q = absurd (omega arith)

module _ (a k : ℕ) where
  xor_half : bit_xor a k / 2 ≡ bit_xor (a / 2) (k / 2)
  xor_half =
      omega (arith, bit_xor-digit a k, differ-lt-two (a % 2) (k % 2) (omega arith) (omega arith))

  xor_low : bit_xor a k % 2 ≡ differ (a % 2) (k % 2)
  xor_low =
      omega (arith, bit_xor-digit a k, differ-lt-two (a % 2) (k % 2) (omega arith) (omega arith))

xor_twice_bounded : (n a k : ℕ) → a ≤ n → k ≤ n → bit_xor (bit_xor a k) k ≡ a
xor_twice_bounded zero zero zero p q = refl
xor_twice_bounded zero (suc a) k p q = absurd (omega arith)
xor_twice_bounded zero zero (suc k) p q = absurd (omega arith)
xor_twice_bounded (suc n) a k p q = omega (
  arith,
  bit_xor-digit (bit_xor a k) k,
  ap (λ (t : ℕ). bit_xor t (k / 2)) (xor_half a k),
  ap (λ (t : ℕ). differ t (k % 2)) (xor_low a k),
  differ_twice (a % 2) (k % 2) (omega arith) (omega arith),
  xor_twice_bounded n (a / 2) (k / 2) (omega arith) (omega arith),
)

-- Masking with the same key twice gives the number back.
pub bit_xor-twice : (a k : ℕ) → bit_xor (bit_xor a k) k ≡ a
bit_xor-twice a k = xor_twice_bounded (a + k) a k (omega arith) (omega arith)
