-- ===== src/Chain/Oracle/Rollback.antt =====
-- `rollback` of storage/canonical-chain/src/chain.rs, to a tip that is not above the current one.
use vprogs.Base.{
  ℕ, ◌+◌, ◌-◌, ◌*◌, ◌/◌, ◌%◌, ◌≤◌, ◌<◌, ◌≡◌, refl, ◌∙◌, ap, inl, inr, false, ◌&&◌, [], arith, leb,
  ltb, ==_refl, Bool-cases, if◌then◌else◌,
}
use vprogs.Ring
use vprogs.Ring.{Ring}
use vprogs.Ring.Validity.{fork-IsValid}
use vprogs.Ring.Reads.{get-fork}
use vprogs.Chain.Bucket.{Bucket}
use vprogs.Chain.HotZone.{HotZone, roll_forward}
use vprogs.Chain.Snapshot.{Snapshot, stored_bit, is_canonical}
use vprogs.Chain.Oracle.{rollback, clear_edits, is_deep}
use vprogs.Chain.Oracle.Invariant.{Fits, IsValid, stored_bit_lem, is_canonical_lem}
use vprogs.Chain.Oracle.Edits.{written, written-clear_edits}
use vprogs.Chain.Oracle.Applied.{Applied, apply_edits-Applied}

-- A ring that stands for another: it fits where that does, and the bits read alike.
record Alike (z : HotZone) (body other : Ring Bucket) : Type 0 where
  fits : Fits z other
  base_kept : other.base ≡ body.base
  bits : (b c : ℕ) → stored_bit z other (b, c) ≡ stored_bit z body (b, c)

fork-Alike : (z : HotZone) (body : Ring Bucket) → Fits z body → Alike z body (Ring.fork body)
unfolding Ring.fork
fork-Alike z body h = record {
  fits = record {
    ring = fork-IsValid body h.ring;
    sealed = h.sealed;
    covered = h.covered;
    alone = h.alone;
  };
  base_kept = refl;
  bits = λ b c.
      stored_bit_lem z (Ring.fork body) b c
      ∙ ground (arith, get-fork body b h.ring, stored_bit_lem z body b c);
}

abbrev shared : Snapshot → ℕ → Ring Bucket
shared s n = if is_deep s n then Ring.fork s.body else s.body

shared-Alike :
    (s : Snapshot) (n : ℕ) → Fits s.hot_zone s.body → Alike s.hot_zone s.body (shared s n)
shared-Alike s n h = elim (Bool-cases (is_deep s n)) [
  | inl deep ↦ rw deep (fork-Alike s.hot_zone s.body h)
  | inr shallow ↦ rw shallow (record { fits = h; base_kept = refl; bits = λ b c. refl })
]

roll_forward_same :
    (z : HotZone) (body : Ring Bucket) → roll_forward z z.tail_bucket body ≡ (z, body)
unfolding roll_forward
roll_forward_same z body = rw (==_refl z.tail_bucket)

module _ (s : Snapshot) (n : ℕ) (v : IsValid s) (below : n ≤ s.tip) where
  applied :
      Applied s.hot_zone
        (shared s n)
        (clear_edits (s.tip - n) (n + 1) [])
        ((rollback s n).hot_zone, (rollback s n).body)
  unfolding rollback
  applied = rw (roll_forward_same s.hot_zone (shared s n)) (
      apply_edits-Applied (clear_edits (s.tip - n) (n + 1) []) s.hot_zone (shared s n)
        (shared-Alike s n v.fits).fits)

  pub stored_bit-rollback :
      (b c : ℕ)
      → s.body.base ≤ b
      → b ≤ s.hot_zone.tail_bucket
      → c < 128
      → stored_bit (rollback s n).hot_zone (rollback s n).body (b, c) ≡ (
          if leb (n + 1) (b * 128 + c + 1) && ltb (b * 128 + c + 1) (s.tip + 1)
          then false
          else stored_bit s.hot_zone s.body (b, c))
  stored_bit-rollback b c lo hi q =
      let a = shared-Alike s n v.fits in
      applied.bits b c (omega (arith, a.base_kept)) hi
      ∙ ap (written (clear_edits (s.tip - n) (n + 1) []) b c) (a.bits b c)
      ∙ written-clear_edits (s.tip - n) (n + 1) [] b c (stored_bit s.hot_zone s.body (b, c))
          (omega arith) q tt
      ∙ ground arith

  pub tip-rollback : (rollback s n).tip ≡ n
  unfolding rollback
  tip-rollback = refl

  -- On a valid snapshot, after a rollback to an id that is not above the tip, the ids up to it
  -- read as before and none above it is canonical, for the ids whose bucket is not below the
  -- ring's base.
  pub is_canonical-rollback :
      (j : ℕ)
      → s.body.base ≤ (j - 1) / 128
      → is_canonical (rollback s n) j ≡ (leb j n && is_canonical s j)
  is_canonical-rollback j p =
      is_canonical_lem (rollback s n) j
      ∙ ground (
        arith,
        tip-rollback,
        is_canonical_lem s j,
        stored_bit-rollback ((j - 1) / 128) ((j - 1) % 128),
        v.bounded,
      )

  -- A rollback to an id that is not above the tip and not below the ids of the pruned buckets
  -- keeps a snapshot valid.
  pub rollback-IsValid : s.body.base * 128 ≤ n → IsValid (rollback s n)
  rollback-IsValid floor = record {
    fits = record {
      ring = applied.fits.ring;
      sealed = applied.fits.sealed;
      covered = applied.fits.covered;
      alone = applied.fits.alone;
    };
    bounded = omega (arith, tip-rollback, applied.tail_kept, v.bounded);
    clear = λ b c p q r.
        stored_bit-rollback b c (omega (arith, tip-rollback)) (omega (arith, applied.tail_kept)) q
        ∙ ground (arith, tip-rollback, applied.tail_kept, v.clear b c);
  }

  pub base-rollback : (rollback s n).body.base ≡ s.body.base
  base-rollback = applied.base_kept ∙ (shared-Alike s n v.fits).base_kept

  pub tail_bucket-rollback : (rollback s n).hot_zone.tail_bucket ≡ s.hot_zone.tail_bucket
  tail_bucket-rollback = applied.tail_kept
