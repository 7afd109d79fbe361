-- ===== src/Chain/Oracle/Roll.antt =====
-- `roll_forward` of storage/canonical-chain/src/hot_zone.rs, seen through the stored bits.
use vprogs.Base.{
  ℕ, zero, suc, ◌-◌, ◌≤◌, ◌<◌, ◌≡◌, refl, subst, ap, ◌∙◌, inl, inr, false, arith, leb, ◌==◌, ==_iff,
  Bool-cases, if◌then◌else◌,
}
use vprogs.Ring.{Ring}
use vprogs.Chain.Bucket
use vprogs.Chain.Bucket.{Bucket}
use vprogs.Chain.Bucket.Laws.{get-new}
use vprogs.Chain.HotZone.{HotZone, roll_forward, bucket_at, sealed_last, seal_behind}
use vprogs.Chain.HotZone.Seal.{Sealed, seal_behind-Sealed}
use vprogs.Chain.Snapshot.{stored_bit}
use vprogs.Chain.Oracle.Invariant.{Fits, stored_bit_lem}

-- Rolling to `target` keeps the fit and every bit from the ring's base on, and the buckets that it
-- adds are empty.
pub record Rolled (z : HotZone) (body : Ring Bucket) (target : ℕ) (z' : HotZone)
    (body' : Ring Bucket) : Type 0 where
  pub fits : Fits z' body'
  pub base_kept : body'.base ≡ body.base
  pub at_target : z'.tail_bucket ≡ target
  pub bits :
      (b c : ℕ)
      → body.base ≤ b
      → b ≤ target
      → stored_bit z' body' (b, c)
        ≡ (if leb b z.tail_bucket then stored_bit z body (b, c) else false)

sealed_last_lem :
    (z : HotZone) (target : ℕ) → 0 < target → bucket_at z (target - 1) ≡ sealed_last z target
sealed_last_lem z zero p = absurd (omega arith)
sealed_last_lem z (suc idx) p = ap (λ (n : ℕ). bucket_at z n) (omega arith)

module _ (z : HotZone) (body : Ring Bucket) (h : Fits z body) where
  stay : Rolled z body z.tail_bucket z body
  stay = record { fits = h; base_kept = refl; at_target = refl; bits = λ b c p q. ground arith }

  module _ (target : ℕ) (onward : z.tail_bucket < target) where
    abbrev advanced : HotZone
    advanced = record {
      tail_bucket = target;
      tail = Bucket.new;
      last_sealed = bucket_at z (target - 1);
    }

    advance :
        (body' : Ring Bucket) → Sealed z target body body' → Rolled z body target advanced body'
    unfolding bucket_at
    advance body' s = record {
      fits = record {
        ring = s.valid;
        sealed = omega (arith, s.tip_raised);
        covered = omega (arith, s.tip_raised, h.covered);
        alone = λ e. absurd (omega (arith, s.tip_raised, h.covered));
      };
      base_kept = s.base_kept;
      at_target = refl;
      bits = λ b c p q.
          stored_bit_lem advanced body' b c
          ∙ ground (
            arith,
            s.reads b,
            get-new c,
            stored_bit_lem z body b c,
            h.alone,
            h.covered,
            h.sealed,
          );
    }

  pub roll_forward-Rolled :
      (target : ℕ)
      → z.tail_bucket ≤ target
      → Rolled z body target (roll_forward z target body).0 (roll_forward z target body).1
  unfolding roll_forward
  roll_forward-Rolled target onward = elim (Bool-cases (target == z.tail_bucket)) [
    | inl same ↦
        let e : target ≡ z.tail_bucket = (==_iff target z.tail_bucket).0 same in rw same (rw e stay)
    | inr other ↦ rw other (
        subst
          (λ (b : Bucket).
            Rolled z body target
              (record { tail_bucket = target; tail = Bucket.new; last_sealed = b })
              (seal_behind target z target body))
          (sealed_last_lem z target (ground arith))
          (advance target (ground arith) (seal_behind target z target body)
            (seal_behind-Sealed target z target body h.ring (omega arith))))
  ]
