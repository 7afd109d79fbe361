-- ===== src/Chain/HotZone/Seal.antt =====
-- The sealing loop of storage/canonical-chain/src/hot_zone.rs: what the body holds after it.
use vprogs.Base.{
  ℕ, zero, suc, ◌+◌, ◌-◌, ◌≤◌, ◌<◌, max, ◌≡◌, refl, ◌∙◌, inl, inr, ◌&&◌, some, arith, ltb, leb,
  ◌==◌, Bool-cases, if◌then◌else◌,
}
use vprogs.Ring
use vprogs.Ring.{Ring, out_of_range}
use vprogs.Ring.Validity.{IsValid, push-IsValid}
use vprogs.Ring.Reads.{get-push, tip-push, base-push}
use vprogs.Chain.Bucket.{Bucket}
use vprogs.Chain.HotZone.{HotZone, bucket_at, seal_behind}

pub record Sealed (z : HotZone) (target : ℕ) (body sealed : Ring Bucket) : Type 0 where
  pub valid : IsValid sealed
  pub base_kept : sealed.base ≡ body.base
  pub tip_raised : sealed.tip ≡ max body.tip (target - 1)
  pub reads :
      (i : ℕ)
      → Ring.get sealed i
        ≡ (if leb body.tip i && ltb i (target - 1) then some (bucket_at z i) else Ring.get body i)

-- One round: the entry at the next index is sealed, and the rest of the loop does the others.
seal_round :
    (z : HotZone) (target : ℕ) (body sealed : Ring Bucket)
    → IsValid body
    → body.tip + 1 < target
    → Sealed z target (Ring.push body (bucket_at z body.tip)).0 sealed
    → Sealed z target body sealed
seal_round z target body sealed h more s = record {
  valid = s.valid;
  base_kept = s.base_kept ∙ base-push body b h;
  tip_raised = omega (arith, s.tip_raised, tip-push body b h);
  reads = λ i. s.reads i ∙ read i;
}
  where
    b : Bucket
    b = bucket_at z body.tip

    next : Ring Bucket
    next = (Ring.push body b).0

    read :
        (i : ℕ)
        → (if leb next.tip i && ltb i (target - 1) then some (bucket_at z i) else Ring.get next i)
          ≡ (if leb body.tip i && ltb i (target - 1) then some (bucket_at z i) else Ring.get body i)
    read i = elim (Bool-cases (i == body.tip)) [
      | inl here ↦ ground (arith, get-push body b i h, tip-push body b h)
      | inr other ↦ ground (arith, get-push body b i h, tip-push body b h)
    ]

-- With fuel for the missing rounds, the loop seals the buckets from the next index up to
-- `target - 2` and changes no other entry.
pub seal_behind-Sealed :
    (fuel : ℕ) (z : HotZone) (target : ℕ) (body : Ring Bucket)
    → IsValid body
    → target ≤ body.tip + 1 + fuel
    → Sealed z target body (seal_behind fuel z target body)
unfolding seal_behind Ring.next_index
seal_behind-Sealed zero z target body h k = record {
  valid = h;
  base_kept = refl;
  tip_raised = omega arith;
  reads = λ i. ground arith;
}
seal_behind-Sealed (suc fuel) z target body h k = elim (Bool-cases (ltb (body.tip + 1) target)) [
  | inl more ↦ rw more (
      seal_round z target body _ h (ground arith) (
        seal_behind-Sealed fuel z target (Ring.push body (bucket_at z body.tip)).0
          (push-IsValid body (bucket_at z body.tip) h)
          (omega (arith, tip-push body (bucket_at z body.tip) h))))
  | inr done ↦
      rw done (record {
        valid = h;
        base_kept = refl;
        tip_raised = ground arith;
        reads = λ i. ground arith;
      })
]
