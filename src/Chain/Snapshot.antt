-- ===== src/Chain/Snapshot.antt =====
-- storage/canonical-chain/src/snapshot.rs: the read side of the canonical chain.
use vprogs.Base.{ℕ, Bool, true, false, ◌||◌, Option, none, some, ltb, ◌==◌, if◌then◌else◌}
use vprogs.Ring
use vprogs.Ring.{Ring}
use vprogs.Chain.Bucket
use vprogs.Chain.Bucket.{Bucket, locate}
use vprogs.Chain.HotZone
use vprogs.Chain.HotZone.{HotZone, is_last_sealed}

pub record Snapshot : Type 0 where
  pub tip : ℕ
  pub hot_zone : HotZone
  pub body : Ring Bucket

abbrev pub unwrap_or : Option Bool → Bool → Bool
unwrap_or none d = d
unwrap_or (some b) d = b

-- The lookup below the range check: the hot buckets, then the body, where an absent bucket reads
-- canonical.
unfoldable pub stored_bit : HotZone → Ring Bucket → ℕ × ℕ → Bool
stored_bit hot body (bucket, bit) =
    if bucket == hot.tail_bucket
    then Bucket.get hot.tail bit
    else (if is_last_sealed hot bucket
        then Bucket.get hot.last_sealed bit
        else unwrap_or (Ring.with_entry body bucket (λ sealed. Bucket.get sealed bit)) true)

unfoldable pub is_canonical : Snapshot → ℕ → Bool
unfolding stored_bit
is_canonical s id =
    if (id == 0) || ltb s.tip id then false else stored_bit s.hot_zone s.body (locate id)

unfoldable pub empty : Snapshot
empty = record { tip = 0; hot_zone = HotZone.empty; body = Ring.new 0 }
