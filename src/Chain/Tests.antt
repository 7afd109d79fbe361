-- ===== src/Chain/Tests.antt =====
-- The theorems on storage/canonical-chain/src at concrete histories.
use vprogs.Base.{ℕ, ◌≤◌, ◌≡◌, refl, ◌∙◌, true, false, ◌&&◌, ◌||◌, List, [], ◌∷◌, arith, leb, ◌==◌}
use vprogs.Chain.Bucket
use vprogs.Chain.Bucket.{Bucket}
use vprogs.Chain.Bucket.Laws.{last_write, get-edited}
use vprogs.Chain.Snapshot
use vprogs.Chain.Snapshot.{Snapshot, is_canonical}
use vprogs.Chain.Oracle
use vprogs.Chain.Oracle.Invariant
use vprogs.Chain.Oracle.Append.{is_canonical-append, append-IsValid}
use vprogs.Chain.Oracle.Rollback.{is_canonical-rollback, rollback-IsValid, tail_bucket-rollback}
use vprogs.Chain.Oracle.Finalize.{is_finalized, is_canonical-finalize}
use vprogs.Chain.Oracle.Restore.{is_canonical-restore}
use vprogs.Chain.Oracle.Returning.{append_returning}
use vprogs.Chain.Oracle.History
use vprogs.Chain.Oracle.History.{Op, genesis, run-Refines, run_refines, empty-Refines}

-- Appends over four buckets, a rollback into the second and an append after the gap.
abbrev ops : List Op
ops =
    Op.append 1
    ∷ Op.append 2
    ∷ Op.append 130
    ∷ Op.append 131
    ∷ Op.append 390
    ∷ Op.rollback 130
    ∷ Op.append 391
    ∷ []

sample : Snapshot
sample = History.run ops Snapshot.empty

sample-Refines : History.Refines sample (History.observe_all ops genesis)
unfolding sample
sample-Refines = run-Refines ops Snapshot.empty genesis empty-Refines (omega arith)

sample_tip : sample.tip ≡ 391
sample_tip = sample-Refines.same_tip

sample_tail : sample.hot_zone.tail_bucket ≡ 3
sample_tail = sample-Refines.same_tail

sample_base : sample.body.base ≤ 0
sample_base = sample-Refines.unpruned

sample_reads :
    (is_canonical sample 2 ≡ true)
    × (is_canonical sample 131 ≡ false)
    × (is_canonical sample 391 ≡ true)
sample_reads = (
  sample-Refines.reads 2 (omega arith),
  sample-Refines.reads 131 (omega arith),
  sample-Refines.reads 391 (omega arith),
)

run_refines_example :
    (sample.tip ≡ 391)
    × ((j : ℕ) → 0 ≤ j → is_canonical sample j ≡ (History.observe_all ops genesis).canonical j)
unfolding sample
run_refines_example = run_refines ops (omega arith)

sample-IsValid : Invariant.IsValid sample
sample-IsValid = sample-Refines.valid

is_canonical-append_example :
    is_canonical (Oracle.append sample 520) 391 ≡ ((391 == 520) || is_canonical sample 391)
is_canonical-append_example =
    is_canonical-append sample 520 sample-IsValid (omega (arith, sample_tip))
      (omega (arith, sample_tail)) 391 (omega (arith, sample_base))

append-IsValid_example : Invariant.IsValid (Oracle.append sample 520)
append-IsValid_example =
    append-IsValid sample 520 sample-IsValid (omega (arith, sample_tip))
      (omega (arith, sample_tail))

is_canonical-rollback_example :
    is_canonical (Oracle.rollback sample 2) 391 ≡ (leb 391 2 && is_canonical sample 391)
is_canonical-rollback_example =
    is_canonical-rollback sample 2 sample-IsValid (omega (arith, sample_tip)) 391
      (omega (arith, sample_base))

rollback-IsValid_example : Invariant.IsValid (Oracle.rollback sample 2)
rollback-IsValid_example =
    rollback-IsValid sample 2 sample-IsValid (omega (arith, sample_tip))
      (omega (arith, sample_base))

is_canonical-finalize_example :
    is_canonical (Oracle.finalize sample 132) 131
    ≡ (is_finalized sample 132 131 || is_canonical sample 131)
is_canonical-finalize_example = is_canonical-finalize sample 132 sample-IsValid 131

-- Id 131 lies below the bound and is orphaned, and its bucket is not pruned.
orphan_below_bound : is_canonical (Oracle.finalize sample 132) 131 ≡ false
orphan_below_bound = is_canonical-finalize_example ∙ ground (arith, sample_reads)

is_canonical-restore_example :
    is_canonical (Oracle.restore Snapshot.empty 100 300 (300 ∷ 131 ∷ 100 ∷ [])) 200 ≡ false
is_canonical-restore_example =
    is_canonical-restore Snapshot.empty 100 300 (300 ∷ 131 ∷ 100 ∷ []) (omega arith) (omega arith)
      (omega arith) 200 (omega arith)

-- A rollback from id 391 to 2 and the return of id 3: id 2 is lost.
append_returning_example : is_canonical (Oracle.append (Oracle.rollback sample 2) 3) 2 ≡ false
append_returning_example =
    append_returning (Oracle.rollback sample 2) 3 2
      (omega (
        arith,
        tail_bucket-rollback sample 2 sample-IsValid (omega (arith, sample_tip)),
        sample_tail,
      ))
      (omega arith) refl

get-edited_example :
    Bucket.get (Bucket.edited (Bucket.set Bucket.new 70) ((70, false) ∷ (3, true) ∷ [])) 70
    ≡ last_write ((70, false) ∷ (3, true) ∷ []) 70 (Bucket.get (Bucket.set Bucket.new 70) 70)
get-edited_example = get-edited (Bucket.set Bucket.new 70) ((70, false) ∷ (3, true) ∷ []) 70
