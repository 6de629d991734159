-- ===== src/Base/Bytes.antt =====
-- Bytes, and the bitwise operators of C++ on numbers as arithmetic.
use Prim.Native.Nat.{
  ℕ, zero, suc, ◌+◌, ◌*◌, ◌/◌, ◌%◌, ◌^◌, ◌≤◌, ◌<◌, min, max, bit_and, bit_or, bit_xor, digits,
  bit_and-bitwise, bit_or-bitwise, bit_xor-bitwise, differ,
}
use mathlib.Core.Path.{◌≡◌, refl, ap, ap₂}
use mathlib.Core.Bool.{Bool, true, ◌&&◌}
use native.Mathlib.Nat.{pow-suc}
use native.Mathlib.Omega.{arith}

abbrev pub IsByte : ℕ → Type 0
IsByte b = b < 256

-- The native operations count their digits by a fuel, which may be any bound.
module _ (z : ℕ → ℕ) (f : ℕ → ℕ → ℕ) where
  digits_bound : (b a n m : ℕ) → a ≤ n → a ≤ m → digits z f n a b ≡ digits z f m a b
  digits_bound b zero zero zero p q = refl
  digits_bound b zero zero (suc m) p q = refl
  digits_bound b zero (suc n) zero p q = refl
  digits_bound b zero (suc n) (suc m) p q = refl
  digits_bound b (suc a) zero m p q = absurd (omega arith)
  digits_bound b (suc a) (suc n) zero p q = absurd (omega arith)
  digits_bound b (suc a) (suc n) (suc m) p q =
      ap (λ (t : ℕ). t * 2 + f (suc a % 2) (b % 2))
        (digits_bound (b / 2) (suc a / 2) n m (omega arith) (omega arith))

pub bit_or-halves : (a b : ℕ) → bit_or a b ≡ bit_or (a / 2) (b / 2) * 2 + max (a % 2) (b % 2)
bit_or-halves zero b = omega (arith, bit_or-bitwise 0 b, bit_or-bitwise 0 (b / 2))
bit_or-halves (suc a) b = omega (
  arith,
  bit_or-bitwise (suc a) b,
  bit_or-bitwise (suc a / 2) (b / 2),
  digits_bound (λ t. t) max (b / 2) (suc a / 2) a (suc a / 2) (omega arith) (omega arith),
)

pub bit_and-halves : (a b : ℕ) → bit_and a b ≡ bit_and (a / 2) (b / 2) * 2 + min (a % 2) (b % 2)
bit_and-halves zero b = omega (arith, bit_and-bitwise 0 b, bit_and-bitwise 0 (b / 2))
bit_and-halves (suc a) b = omega (
  arith,
  bit_and-bitwise (suc a) b,
  bit_and-bitwise (suc a / 2) (b / 2),
  digits_bound (λ _. 0) min (b / 2) (suc a / 2) a (suc a / 2) (omega arith) (omega arith),
)

differ-zero : (x : ℕ) → differ x 0 ≡ x
differ-zero zero = refl
differ-zero (suc x) = refl

differ_digits : (x y : ℕ) → x < 2 → y < 2 → differ x y ≡ (x + y) % 2
differ_digits zero y p q = omega arith
differ_digits (suc zero) zero p q = refl
differ_digits (suc zero) (suc zero) p q = refl
differ_digits (suc zero) (suc (suc y)) p q = absurd (omega arith)
differ_digits (suc (suc x)) y p q = absurd (omega arith)

pub bit_xor-halves : (a b : ℕ) → bit_xor a b ≡ bit_xor (a / 2) (b / 2) * 2 + (a % 2 + b % 2) % 2
bit_xor-halves zero b = omega (arith, bit_xor-bitwise 0 b, bit_xor-bitwise 0 (b / 2))
bit_xor-halves (suc a) b = omega (
  arith,
  bit_xor-bitwise (suc a) b,
  bit_xor-bitwise (suc a / 2) (b / 2),
  differ_digits (suc a % 2) (b % 2) (omega arith) (omega arith),
  digits_bound (λ t. t) differ (b / 2) (suc a / 2) a (suc a / 2) (omega arith) (omega arith),
)

-- `lo | (hi << k)` is a sum when `lo` has at most `k` digits.
pub bit_or_shifted : (k lo hi : ℕ) → lo < 2 ^ k → bit_or lo (hi * 2 ^ k) ≡ lo + hi * 2 ^ k
bit_or_shifted zero zero hi h = omega (arith, bit_or-bitwise 0 (hi * 2 ^ 0))
bit_or_shifted zero (suc lo) hi h = absurd (omega arith)
bit_or_shifted (suc k) lo hi h = ground (
  arith,
  pow-suc 2 k,
  ap (λ (t : ℕ). hi * t) (pow-suc 2 k),
  bit_or-halves lo (hi * 2 ^ suc k),
  bit_or_shifted k (lo / 2) hi,
)

bit_and-zero : (k a : ℕ) → a ≤ k → bit_and a 0 ≡ 0
bit_and-zero k zero h = bit_and-bitwise 0 0
bit_and-zero zero (suc a) h = absurd (omega arith)
bit_and-zero (suc k) (suc a) h =
    omega (arith, bit_and-halves (suc a) 0, bit_and-zero k (suc a / 2) (omega arith))

bit_and_0f : (a : ℕ) → bit_and a 0x0f ≡ a % 16
bit_and_0f a = omega (
  arith,
  bit_and-halves a 0x0f,
  bit_and-halves (a / 2) 0x07,
  bit_and-halves (a / 2 / 2) 0x03,
  bit_and-halves (a / 2 / 2 / 2) 0x01,
  bit_and-zero (a / 2 / 2 / 2 / 2) (a / 2 / 2 / 2 / 2) (omega arith),
)

-- `a & 0xFF` keeps the eight low digits.
pub bit_and_ff : (a : ℕ) → bit_and a 0xff ≡ a % 256
bit_and_ff a = omega (
  arith,
  bit_and-halves a 0xff,
  bit_and-halves (a / 2) 0x7f,
  bit_and-halves (a / 2 / 2) 0x3f,
  bit_and-halves (a / 2 / 2 / 2) 0x1f,
  bit_and_0f (a / 2 / 2 / 2 / 2),
)

xor_cancel_bound : (k a b c : ℕ) → a + b + c ≤ k → bit_xor a b ≡ bit_xor a c → b ≡ c
xor_cancel_bound zero a b c h e = omega arith
xor_cancel_bound (suc k) a b c h e =
    let below : a / 2 + b / 2 + c / 2 ≤ k = omega arith in
    let halves : bit_xor (a / 2) (b / 2) ≡ bit_xor (a / 2) (c / 2) =
      omega (arith, bit_xor-halves a b, bit_xor-halves a c) in
    omega (
      arith,
      bit_xor-halves a b,
      bit_xor-halves a c,
      xor_cancel_bound k (a / 2) (b / 2) (c / 2) below halves,
    )

-- `a ^ x` determines `x`.
pub bit_xor-cancel_left : (a b c : ℕ) → bit_xor a b ≡ bit_xor a c → b ≡ c
bit_xor-cancel_left a b c = xor_cancel_bound (a + b + c) a b c (omega arith)

xor_comm_bound : (k a b : ℕ) → a + b ≤ k → bit_xor a b ≡ bit_xor b a
xor_comm_bound zero a b h = cc (zeros a b (omega arith))
  where
    zeros : (x y : ℕ) → x + y ≤ 0 → x ≡ y
    zeros x y z = omega arith
xor_comm_bound (suc k) a b h =
    omega (
      arith,
      bit_xor-halves a b,
      bit_xor-halves b a,
      xor_comm_bound k (a / 2) (b / 2) (omega arith),
    )

pub bit_xor_comm : (a b : ℕ) → bit_xor a b ≡ bit_xor b a
bit_xor_comm a b = xor_comm_bound (a + b) a b (omega arith)

xor_lt_pow : (k a b : ℕ) → a < 2 ^ k → b < 2 ^ k → bit_xor a b < 2 ^ k
xor_lt_pow zero a b h g = omega (arith, xor_zeros a b (omega arith) (omega arith))
  where
    xor_zeros : (x y : ℕ) → x ≡ 0 → y ≡ 0 → bit_xor x y ≡ 0
    xor_zeros x y p q = cc (ap₂ bit_xor p q)
xor_lt_pow (suc k) a b h g =
    ground (arith, pow-suc 2 k, bit_xor-halves a b, xor_lt_pow k (a / 2) (b / 2))

pub bit_xor-IsByte : (a b : ℕ) → IsByte a → IsByte b → IsByte (bit_xor a b)
bit_xor-IsByte a b = xor_lt_pow 8 a b

-- A table over `n` values, checked by evaluation.
unfoldable pub all_below : ℕ → (ℕ → Bool) → Bool
all_below zero p = true
all_below (suc n) p = p n && all_below n p

pub all_below-at : (n : ℕ) (p : ℕ → Bool) (x : ℕ) → all_below n p ≡ true → x < n → p x ≡ true
unfolding all_below
all_below-at zero p x e h = absurd (omega arith)
all_below-at (suc n) p x e h = ground (arith, all_below-at n p x)
