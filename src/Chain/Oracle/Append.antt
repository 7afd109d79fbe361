-- ===== src/Chain/Oracle/Append.antt =====
-- `append` of storage/canonical-chain/src/chain.rs, for an id above the tip in a bucket that is
-- not below the tail's.
use vprogs.Base.{
  ℕ, ◌-◌, ◌/◌, ◌%◌, ◌≤◌, ◌<◌, ◌≡◌, refl, ◌∙◌, false, ◌&&◌, ◌||◌, arith, leb, ◌==◌, if◌then◌else◌,
}
use vprogs.Ring.{Ring}
use vprogs.Chain.Bucket
use vprogs.Chain.Bucket.{Bucket}
use vprogs.Chain.Bucket.Laws.{get-set}
use vprogs.Chain.HotZone.{HotZone, roll_forward}
use vprogs.Chain.Snapshot.{Snapshot, stored_bit, is_canonical}
use vprogs.Chain.Oracle.{append}
use vprogs.Chain.Oracle.Invariant.{IsValid, stored_bit_lem, is_canonical_lem}
use vprogs.Chain.Oracle.Roll.{Rolled, roll_forward-Rolled}

-- Setting a bit of the tail sets that one stored bit.
stored_bit-set :
    (z : HotZone) (body : Ring Bucket) (bit b c : ℕ)
    → stored_bit (record z { tail = Bucket.set z.tail bit }) body (b, c)
      ≡ (((b == z.tail_bucket) && (c == bit)) || stored_bit z body (b, c))
stored_bit-set z body bit b c =
    stored_bit_lem _ body b c ∙ ground (arith, get-set z.tail bit c, stored_bit_lem z body b c)

module _ (s : Snapshot) (id : ℕ) (v : IsValid s) (above : s.tip < id)
    (onward : s.hot_zone.tail_bucket ≤ (id - 1) / 128) where
  rolled :
      Rolled s.hot_zone s.body
        ((id - 1) / 128)
        (roll_forward s.hot_zone ((id - 1) / 128) s.body).0
        (roll_forward s.hot_zone ((id - 1) / 128) s.body).1
  rolled = roll_forward-Rolled s.hot_zone s.body v.fits ((id - 1) / 128) onward

  pub stored_bit-append :
      (b c : ℕ)
      → s.body.base ≤ b
      → b ≤ (id - 1) / 128
      → stored_bit (append s id).hot_zone (append s id).body (b, c) ≡ (
          ((b == (id - 1) / 128) && (c == (id - 1) % 128))
          || (if leb b s.hot_zone.tail_bucket then stored_bit s.hot_zone s.body (b, c) else false))
  unfolding append
  stored_bit-append b c p q =
      stored_bit-set (roll_forward s.hot_zone ((id - 1) / 128) s.body).0
        (roll_forward s.hot_zone ((id - 1) / 128) s.body).1 ((id - 1) % 128) b c
      ∙ ground (arith, rolled.bits b c p q, rolled.at_target)

  pub tip-append : (append s id).tip ≡ id
  unfolding append
  tip-append = refl

  -- On a valid snapshot, appending an id above the tip whose bucket is not below the tail's makes
  -- that id canonical and changes what no other id reads, for the ids whose bucket is not below
  -- the ring's base.
  pub is_canonical-append :
      (j : ℕ)
      → s.body.base ≤ (j - 1) / 128
      → is_canonical (append s id) j ≡ ((j == id) || is_canonical s j)
  is_canonical-append j p =
      is_canonical_lem (append s id) j
      ∙ ground (
        arith,
        tip-append,
        is_canonical_lem s j,
        stored_bit-append ((j - 1) / 128) ((j - 1) % 128),
        v.clear ((j - 1) / 128) ((j - 1) % 128),
      )

  -- Appending an id above the tip whose bucket is not below the tail's keeps a snapshot valid: the
  -- ring is valid and ends at or just under the tail's bucket, and no bit above the tip is set.
  pub append-IsValid : IsValid (append s id)
  unfolding append
  append-IsValid = record {
    fits = record {
      ring = rolled.fits.ring;
      sealed = rolled.fits.sealed;
      covered = rolled.fits.covered;
      alone = rolled.fits.alone;
    };
    bounded = omega (arith, rolled.at_target);
    clear = λ b c p q r.
        stored_bit-append b c (omega (arith, v.fits.ring.ordered, v.fits.covered))
          (omega (arith, rolled.at_target))
        ∙ ground (arith, rolled.at_target, v.clear b c);
  }

  pub base-append : (append s id).body.base ≡ s.body.base
  unfolding append
  base-append = rolled.base_kept

  pub tail_bucket-append : (append s id).hot_zone.tail_bucket ≡ (id - 1) / 128
  unfolding append
  tail_bucket-append = rolled.at_target
