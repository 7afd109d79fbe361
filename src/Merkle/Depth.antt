-- ===== src/Merkle/Depth.antt =====
-- `required_depth` of core/merkle-tree/src/streaming_builder.rs.
use vprogs.Base.{
  ℕ, zero, suc, ◌+◌, ◌-◌, ◌^◌, ◌≤◌, ◌<◌, ◌≡◌, false, inl, inr, arith, leb, ltb, Bool-cases,
}
use native.Mathlib.Nat.{two-pow-succ}
use vprogs.Base.Order.{pow_next, pow_reflects}
use vprogs.Merkle.{leading_zeros, required_depth}

pow_reflects_le : (k m : ℕ) → 2 ^ k < 2 ^ m + 2 ^ m → k ≤ m
pow_reflects_le k m h = omega (arith, pow_reflects k (m + 1) (omega (arith, pow_next m)))

-- The bits of a number are those up to its leading one.
leading_zeros_lem : (w d m : ℕ) → d ≤ w → m < 2 ^ d → 2 ^ d ≤ m + m → w - leading_zeros w m ≡ d
leading_zeros_lem zero d m p q r = omega (arith, (let e : d ≡ 0 = omega arith in rw e at q))
leading_zeros_lem (suc w) d m p q r = elim (Bool-cases (ltb m (2 ^ w))) [
  | inl fits ↦
      rw fits (omega (arith, leading_zeros_lem w d m (pow_reflects_le d w (ground arith)) q r))
  | inr top ↦ rw top (omega (arith, pow_reflects w d (ground arith)))
]

-- The natural depth of at least two leaves that the maximal depth holds.
pub required_depth_lem :
    (max_depth d n : ℕ)
    → max_depth ≤ 64
    → 1 < n
    → n < 2 ^ max_depth
    → n ≤ 2 ^ d
    → 2 ^ d < n + n
    → required_depth max_depth n ≡ d
unfolding required_depth
required_depth_lem max_depth zero n w h b p q = absurd (omega arith)
required_depth_lem max_depth (suc d) n w h b p q =
    let more : leb n 1 ≡ false = ground arith in
    let low : suc d ≤ max_depth = pow_reflects_le (suc d) max_depth (omega arith) in
    let e : 64 - leading_zeros 64 (n - 1) ≡ suc d =
      leading_zeros_lem 64 (suc d) (n - 1) (omega arith) (omega arith)
        (omega (arith, two-pow-succ d)) in
    rw (more, e) (omega arith)
