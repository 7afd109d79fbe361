-- ===== src/Base/Bits.antt =====
-- The binary digits of `bit_or` and `bit_and`, of a single bit, and of its complement in a word.
use Prim.Native.Nat.{
  ℕ, zero, suc, ◌+◌, ◌-◌, ◌*◌, ◌/◌, ◌%◌, ◌^◌, ◌≤◌, ◌<◌, min, max, digits, bitwise, bit_and, bit_or,
  bit_and-bitwise, bit_or-bitwise,
}
use mathlib.Core.Path.{◌≡◌, refl, ap, ◌∙◌, sym}
use native.Mathlib.Nat.{le_refl, pow-suc, div-div-eq-div-mul, one-le-pow}
use native.Mathlib.Omega.{arith}
use vprogs.Base.Tests.{◌==◌, if◌then◌else◌}

-- The digit at place `c`, 0 or 1.
abbrev pub digit : ℕ → ℕ → ℕ
digit w c = w / 2 ^ c % 2

module _ (z : ℕ → ℕ) (f : ℕ → ℕ → ℕ) where
  fuel_irrelevant : (n m a b : ℕ) → a ≤ n → a ≤ m → digits z f n a b ≡ digits z f m a b
  fuel_irrelevant zero zero a b p q = refl
  fuel_irrelevant zero (suc m) zero b p q = refl
  fuel_irrelevant zero (suc m) (suc a) b p q = absurd (omega arith)
  fuel_irrelevant (suc n) zero zero b p q = refl
  fuel_irrelevant (suc n) zero (suc a) b p q = absurd (omega arith)
  fuel_irrelevant (suc n) (suc m) zero b p q = refl
  fuel_irrelevant (suc n) (suc m) (suc a) b p q =
      rw (fuel_irrelevant n m (suc a / 2) (b / 2) (omega arith) (omega arith))

  bitwise_halve :
      (a b : ℕ)
      → bitwise z f (suc a) b ≡ bitwise z f (suc a / 2) (b / 2) * 2 + f (suc a % 2) (b % 2)
  bitwise_halve a b =
      omega (arith, fuel_irrelevant a (suc a / 2) (suc a / 2) (b / 2) (omega arith) (le_refl _))

bit_or_halve : (a b : ℕ) → bit_or a b ≡ bit_or (a / 2) (b / 2) * 2 + max (a % 2) (b % 2)
bit_or_halve zero b = simp bit_or-bitwise (omega arith)
bit_or_halve (suc a) b = simp bit_or-bitwise (bitwise_halve (λ y. y) max a b)

bit_and_halve : (a b : ℕ) → bit_and a b ≡ bit_and (a / 2) (b / 2) * 2 + min (a % 2) (b % 2)
bit_and_halve zero b = simp bit_and-bitwise (omega arith)
bit_and_halve (suc a) b = simp bit_and-bitwise (bitwise_halve (λ y. 0) min a b)

digit-zero : (w : ℕ) → digit w zero ≡ w % 2
digit-zero w = omega arith

digit-suc : (w c : ℕ) → digit w (suc c) ≡ digit (w / 2) c
digit-suc w c =
    ap (λ (t : ℕ). t % 2)
      (ap (λ (t : ℕ). w / t) (pow-suc 2 c ∙ omega arith) ∙ sym (div-div-eq-div-mul w 2 (2 ^ c)))

pub digit-bit_or : (c a b : ℕ) → digit (bit_or a b) c ≡ max (digit a c) (digit b c)
digit-bit_or zero a b = omega (arith, bit_or_halve a b)
digit-bit_or (suc c) a b =
    digit-suc (bit_or a b) c
    ∙ ap (λ (t : ℕ). digit t c) (omega (arith, bit_or_halve a b))
    ∙ digit-bit_or c (a / 2) (b / 2)
    ∙ omega (arith, digit-suc a c, digit-suc b c)

pub digit-bit_and : (c a b : ℕ) → digit (bit_and a b) c ≡ min (digit a c) (digit b c)
digit-bit_and zero a b = omega (arith, bit_and_halve a b)
digit-bit_and (suc c) a b =
    digit-suc (bit_and a b) c
    ∙ ap (λ (t : ℕ). digit t c) (omega (arith, bit_and_halve a b))
    ∙ digit-bit_and c (a / 2) (b / 2)
    ∙ omega (arith, digit-suc a c, digit-suc b c)

-- `1 << b` has its one digit at `b`.
pub digit-pow : (b c : ℕ) → digit (2 ^ b) c ≡ (if c == b then 1 else 0)
digit-pow zero zero = refl
digit-pow zero (suc c) = digit-suc 1 c ∙ ground arith
digit-pow (suc b) zero = ground (arith, pow-suc 2 b)
digit-pow (suc b) (suc c) =
    digit-suc (2 ^ suc b) c
    ∙ ap (λ (t : ℕ). digit t c) (omega (arith, pow-suc 2 b))
    ∙ digit-pow b c
    ∙ ground arith

pow_lt : (b k : ℕ) → b < k → 2 ^ b < 2 ^ k
pow_lt b zero h = elim h [ ]
pow_lt zero (suc k) h = omega (arith, pow-suc 2 k, one-le-pow k 2)
pow_lt (suc b) (suc k) h = omega (arith, pow-suc 2 k, pow-suc 2 b, pow_lt b k (omega arith))

digit_ones : (k c : ℕ) → c < k → digit (2 ^ k - 1) c ≡ 1
digit_ones zero c h = elim h [ ]
digit_ones (suc k) zero h = omega (arith, pow-suc 2 k, one-le-pow k 2)
digit_ones (suc k) (suc c) h =
    digit-suc (2 ^ suc k - 1) c
    ∙ ap (λ (t : ℕ). digit t c) (omega (arith, pow-suc 2 k, one-le-pow k 2))
    ∙ digit_ones k c (omega arith)

-- `!(1 << b)` in a word of `k` bits has every digit but that at `b`.
pub digit_complement :
    (k b c : ℕ) → b < k → c < k → digit (2 ^ k - 1 - 2 ^ b) c ≡ (if c == b then 0 else 1)
digit_complement zero b c h p = elim h [ ]
digit_complement (suc k) zero zero h p = omega (arith, pow-suc 2 k, one-le-pow k 2)
digit_complement (suc k) zero (suc c) h p =
    digit-suc (2 ^ suc k - 1 - 1) c
    ∙ ap (λ (t : ℕ). digit t c) (omega (arith, pow-suc 2 k, one-le-pow k 2))
    ∙ digit_ones k c (omega arith)
    ∙ ground arith
digit_complement (suc k) (suc b) zero h p = ground (arith, pow-suc 2 k, pow-suc 2 b, pow_lt b k)
digit_complement (suc k) (suc b) (suc c) h p =
    digit-suc (2 ^ suc k - 1 - 2 ^ suc b) c
    ∙ ap (λ (t : ℕ). digit t c) (omega (arith, pow-suc 2 k, pow-suc 2 b))
    ∙ digit_complement k b c (omega arith) (omega arith)
    ∙ ground arith
