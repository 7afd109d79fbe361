-- ===== src/Chain/HotZone.antt =====
-- storage/canonical-chain/src/hot_zone.rs: the two buckets above the sealed ring.
--
-- A bucket is held by value: this is the writer's view, in which sharing leaves no trace.
pub mod Seal
use vprogs.Base.{ℕ, zero, suc, ◌+◌, ◌-◌, Bool, ◌&&◌, ltb, leb, ◌==◌, if◌then◌else◌}
use vprogs.Ring
use vprogs.Ring.{Ring}
use vprogs.Chain.Bucket
use vprogs.Chain.Bucket.{Bucket}

pub record HotZone : Type 0 where
  pub tail_bucket : ℕ
  pub tail : Bucket
  pub last_sealed : Bucket

unfoldable pub empty : HotZone
empty = record { tail_bucket = 0; tail = Bucket.new; last_sealed = Bucket.new }

-- `tail_bucket >= 1 && idx == tail_bucket - 1`
abbrev pub is_last_sealed : HotZone → ℕ → Bool
is_last_sealed z idx = leb 1 z.tail_bucket && idx == z.tail_bucket - 1

unfoldable pub bucket_at : HotZone → ℕ → Bucket
bucket_at z idx =
    if idx == z.tail_bucket
    then z.tail
    else (if is_last_sealed z idx then z.last_sealed else Bucket.new)

-- `while body.next_index() + 1 < target`, on fuel: each round raises the next index by one, so
-- `target` rounds are enough.
pub seal_behind : ℕ → HotZone → ℕ → Ring Bucket → Ring Bucket
seal_behind zero z target body = body
seal_behind (suc fuel) z target body =
    let sealed =
      seal_behind fuel z target (Ring.push body (bucket_at z (Ring.next_index body))).0 in
    if ltb (Ring.next_index body + 1) target then sealed else body

-- `self.bucket_at(target - 1)`: at target 0 the index wraps around to 2 ^ 64 - 1, where the hot zone
-- has no bucket.
abbrev pub sealed_last : HotZone → ℕ → Bucket
sealed_last z zero = Bucket.new
sealed_last z (suc idx) = bucket_at z idx

-- The new hot zone, and the body with the buckets sealed into it. The debug assertion that the
-- target is not below the tail's bucket is left out: this is what a release build does.
unfoldable pub roll_forward : HotZone → ℕ → Ring Bucket → HotZone × Ring Bucket
roll_forward z target body = if target == z.tail_bucket then (z, body) else (
  record { tail_bucket = target; tail = Bucket.new; last_sealed = sealed_last z target },
  seal_behind target z target body,
)
