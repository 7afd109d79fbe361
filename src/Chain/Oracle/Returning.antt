-- ===== src/Chain/Oracle/Returning.antt =====
-- `append` of storage/canonical-chain/src/chain.rs for an id whose bucket lies below the tail's: a
-- returning block after a rollback across a bucket boundary.
use vprogs.Base.{ℕ, ◌-◌, ◌/◌, ◌%◌, ◌<◌, ◌≡◌, refl, ◌∙◌, false, arith, ◌==◌}
use vprogs.Ring.{Ring}
use vprogs.Chain.Bucket
use vprogs.Chain.Bucket.{Bucket}
use vprogs.Chain.Bucket.Laws.{get-new, get-set}
use vprogs.Chain.HotZone.{HotZone, roll_forward}
use vprogs.Chain.Snapshot.{Snapshot, is_canonical}
use vprogs.Chain.Oracle.{append}
use vprogs.Chain.Oracle.Invariant.{stored_bit_lem, is_canonical_lem}

roll_forward_back :
    (z : HotZone) (target : ℕ) (body : Ring Bucket)
    → target < z.tail_bucket
    → ((roll_forward z target body).0.tail_bucket ≡ target)
      × ((roll_forward z target body).0.tail ≡ Bucket.new)
unfolding roll_forward
roll_forward_back z target body h =
    let other : (target == z.tail_bucket) ≡ false = ground arith in rw other (refl, refl)

-- Appending an id whose bucket lies below the tail's replaces that bucket by a fresh one: of the
-- bucket's positive ids, the appended one alone is canonical afterwards, whatever was canonical
-- before.
pub append_returning :
    (s : Snapshot) (id j : ℕ)
    → (id - 1) / 128 < s.hot_zone.tail_bucket
    → 0 < j
    → (j - 1) / 128 ≡ (id - 1) / 128
    → is_canonical (append s id) j ≡ (j == id)
unfolding append
append_returning s id j back pos same =
    let (at, fresh) = roll_forward_back s.hot_zone ((id - 1) / 128) s.body back in
    is_canonical_lem _ j
    ∙ ground (
      arith,
      stored_bit_lem (append s id).hot_zone (append s id).body ((j - 1) / 128) ((j - 1) % 128),
      get-set (roll_forward s.hot_zone ((id - 1) / 128) s.body).0.tail ((id - 1) % 128)
          ((j - 1) % 128),
      get-new ((j - 1) % 128),
    )
