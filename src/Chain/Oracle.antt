-- ===== src/Chain/Oracle.antt =====
-- storage/canonical-chain/src/chain.rs: the writer's operations, each from the current snapshot to
-- the one that it publishes.
pub mod Invariant
pub mod Roll
pub mod Append
pub mod Edits
pub mod Applied
pub mod Rollback
pub mod Finalize
pub mod History
pub mod Returning
pub mod Restore
use vprogs.Base.{
  ℕ, zero, suc, ◌+◌, ◌-◌, Bool, true, false, List, [], ◌∷◌, Option, none, some, ltb, leb, ◌==◌,
  if◌then◌else◌,
}
use vprogs.Base.Order.{update}
use vprogs.Ring
use vprogs.Ring.{Ring}
use vprogs.Chain.Bucket
use vprogs.Chain.Bucket.{Bucket, Edit, locate}
use vprogs.Chain.HotZone
use vprogs.Chain.HotZone.{HotZone, is_last_sealed, roll_forward}
use vprogs.Chain.Snapshot.{Snapshot}

-- `append` of an id above the tip.
unfoldable pub append : Snapshot → ℕ → Snapshot
append cur id =
    let (bucket, bit) = locate id in
    let (hot, body) = roll_forward cur.hot_zone bucket cur.body in
    record { tip = id; hot_zone = record hot { tail = Bucket.set hot.tail bit }; body = body }

-- The map from a bucket to its edits, in ascending order of the buckets: `BTreeMap`.
abbrev pub Edits : Type 0
Edits = List (ℕ × List Edit)

abbrev pub snoc {ℓ} : {A : Type ℓ} → List A → A → List A
snoc [] a = a ∷ []
snoc (x ∷ xs) a = x ∷ snoc xs a

-- `edits.entry(bucket).or_default().push(op)`
unfoldable pub push_edit : ℕ → Edit → Edits → Edits
push_edit bucket op [] = (bucket, op ∷ []) ∷ []
push_edit bucket op ((b, ops) ∷ rest) =
    if bucket == b
    then (b, snoc ops op) ∷ rest
    else (if ltb bucket b
        then (bucket, op ∷ []) ∷ (b, ops) ∷ rest
        else (b, ops) ∷ push_edit bucket op rest)

-- `for id in new_tip + 1..=tip`, over `count` ids from `id` on.
unfoldable pub clear_edits : ℕ → ℕ → Edits → Edits
clear_edits zero id edits = edits
clear_edits (suc count) id edits =
    clear_edits count (id + 1) (push_edit (locate id).0 ((locate id).1, false) edits)

abbrev pub replace_sealed : Option Bucket → ℕ → List Edit → Ring Bucket → Ring Bucket
replace_sealed none bucket ops body = body
replace_sealed (some sealed) bucket ops body = Ring.replace body bucket (Bucket.edited sealed ops)

-- One bucket's edits: the hot buckets are copied on write, a sealed one is replaced in the ring,
-- and the edits of a pruned one drop.
unfoldable pub apply_edit : ℕ → List Edit → HotZone × Ring Bucket → HotZone × Ring Bucket
apply_edit bucket ops (hot, body) =
    if bucket == hot.tail_bucket
    then (record hot { tail = Bucket.edited hot.tail ops }, body)
    else (if is_last_sealed hot bucket
        then (record hot { last_sealed = Bucket.edited hot.last_sealed ops }, body)
        else (hot, replace_sealed (Ring.get body bucket) bucket ops body))

unfoldable pub apply_edits : Edits → HotZone × Ring Bucket → HotZone × Ring Bucket
apply_edits [] s = s
apply_edits ((bucket, ops) ∷ edits) s = apply_edits edits (apply_edit bucket ops s)

unfoldable pub is_deep : Snapshot → ℕ → Bool
is_deep cur new_tip = leb ((locate (new_tip + 1)).0 + 2) cur.hot_zone.tail_bucket

-- `rollback` to a tip that is not above the current one.
unfoldable pub rollback : Snapshot → ℕ → Snapshot
unfolding is_deep
rollback cur new_tip =
    let shared = if is_deep cur new_tip then Ring.fork cur.body else cur.body in
    let start = roll_forward cur.hot_zone cur.hot_zone.tail_bucket shared in
    let edits = clear_edits (cur.tip - new_tip) (new_tip + 1) [] in
    let (hot, body) = apply_edits edits start in
    record { tip = new_tip; hot_zone = hot; body = body }

unfoldable pub finalize : Snapshot → ℕ → Snapshot
finalize cur below =
    if ltb 1 below then record cur { body = Ring.prune_below cur.body (locate below).0 } else cur

-- `buckets[bucket - base_bucket].set(bit)` for each canonical id. The vector is a function from the
-- position, its length beside it; the ids lie in its range.
pub mark_canonical : ℕ → List ℕ → (ℕ → Bucket) → ℕ → Bucket
mark_canonical base_bucket [] buckets = buckets
mark_canonical base_bucket (id ∷ ids) buckets =
    let slot = (locate id).0 - base_bucket in
    mark_canonical base_bucket ids (update buckets slot (Bucket.set (buckets slot) (locate id).1))

-- `for bucket in buckets { body.push(bucket) }`, over `count` buckets from position `i` on.
pub push_buckets : ℕ → ℕ → (ℕ → Bucket) → Ring Bucket → Ring Bucket
push_buckets zero i buckets body = body
push_buckets (suc count) i buckets body =
    push_buckets count (i + 1) buckets (Ring.push body (buckets i)).0

-- `restore` of the canonical ids over `base..=tip`. Two pops take the tail and, if there is one,
-- the last sealed bucket.
unfoldable pub restore : Snapshot → ℕ → ℕ → List ℕ → Snapshot
restore cur base tip canonical =
    let base_bucket = (locate base).0 in
    let tail_bucket = (locate tip).0 in
    let count = tail_bucket - base_bucket + 1 in
    let buckets = mark_canonical base_bucket canonical (λ i. Bucket.new) in
    if tip == 0 then cur else record {
      tip = tip;
      hot_zone = record {
        tail_bucket = tail_bucket;
        tail = buckets (count - 1);
        last_sealed = if leb 2 count then buckets (count - 2) else Bucket.new;
      };
      body = push_buckets (count - 2) 0 buckets (Ring.new base_bucket);
    }
