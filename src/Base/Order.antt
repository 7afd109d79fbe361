-- ===== src/Base/Order.antt =====
-- Remainders over a window, and a function changed at one point.
use native.Mathlib.Nat.{two-pow-succ, pow-le-pow_right}
use Prim.Native.Nat.{ℕ, suc, ◌+◌, ◌/◌, ◌%◌, ◌^◌, ◌<◌, ◌≤◌}
use mathlib.Core.Path.{◌≡◌}
use mathlib.Core.Logic.{◌⊎◌, inl, inr}
use native.Mathlib.Nat.{div-add-mod, mul-le-mul_left}
use native.Mathlib.Omega.{arith}
use vprogs.Base.Tests.{◌==◌, if◌then◌else◌}

pub lt_or_ge : (a b : ℕ) → (a < b) ⊎ (b ≤ a)
lt_or_ge a b = grind arith

-- Two numbers with one remainder by `n` that lie less than `n` apart are equal.
mod_window_le : (n i j : ℕ) → i ≤ j → j < i + n → i % n ≡ j % n → i ≡ j
mod_window_le n i j h k e = elim (lt_or_ge (i / n) (j / n)) [
  | inl lt ↦ absurd (omega (arith, div-add-mod i n, div-add-mod j n, mul-le-mul_left n lt))
  | inr ge ↦ omega (arith, div-add-mod i n, div-add-mod j n, mul-le-mul_left n ge)
]

pub mod_window : (n b i j : ℕ) → b ≤ i → b ≤ j → i < b + n → j < b + n → i % n ≡ j % n → i ≡ j
mod_window n b i j p q r s e = elim (lt_or_ge i j) [
  | inl lt ↦ mod_window_le n i j (omega arith) (omega arith) e
  | inr ge ↦ omega (arith, mod_window_le n j i ge (omega arith) (omega arith))
]

-- A function changed at one number.
abbrev pub update {ℓ} : {A : Type ℓ} → (ℕ → A) → ℕ → A → ℕ → A
update f k v i = if i == k then v else f i

pub pow_next : (l : ℕ) → 2 ^ (l + 1) ≡ 2 ^ l + 2 ^ l
pow_next l = let e : l + 1 ≡ suc l = omega arith in rw e (two-pow-succ l)

pub pow_mono : (k m : ℕ) → k ≤ m → 2 ^ k ≤ 2 ^ m
pow_mono k m h = pow-le-pow_right {n = 2} (omega arith) {i = k} {j = m} h

pub pow_reflects : (k m : ℕ) → 2 ^ k < 2 ^ m → k < m
pow_reflects k m h = elim (lt_or_ge k m) [
  | inl below ↦ below
  | inr above ↦ absurd (omega (arith, pow_mono m k above))
]
