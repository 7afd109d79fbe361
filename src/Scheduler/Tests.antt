-- ===== src/Scheduler/Tests.antt =====
-- The theorems on scheduling/scheduler/src at two batches over three resources.
use vprogs.Base.{
  ℕ, ◌+◌, ◌-◌, ◌^◌, ◌≤◌, ◌<◌, ◌≡◌, refl, ◌∙◌, false, List, [], ◌∷◌, none, some, arith, ◌==◌,
  if◌then◌else◌, Bool, true,
}
use vprogs.Chain.Snapshot
use vprogs.Chain.Snapshot.{Snapshot, is_canonical}
use vprogs.Chain.Oracle.History.{run_refines}
use vprogs.State
use vprogs.State.{Bytes, Checkpoint, StateVersion, Store, Op, put_entry, from_latest_data}
use vprogs.Scheduler
use vprogs.Scheduler.{
  StateDiff, ScheduledBatch, SchedulerState, TreeHasher, Rollback, execute, write_diffs,
  latest_ptrs,
}
use vprogs.Scheduler.Writes.{land}
use vprogs.Scheduler.Cancellation
use vprogs.Scheduler.Cancellation.{rollbacks, is_canceled}
use vprogs.Scheduler.Cancellation.Cancels.{canceled_by_lower}
use vprogs.Scheduler.History.{Landed, History, run, contains}
use vprogs.Scheduler.Pruning
use vprogs.Scheduler.Pruning.{Act, works, pauses, sets_threshold, interleave}
use vprogs.Scheduler.Pruning.Handshake.{pause_protects}
use vprogs.Scheduler.Prune.{prune}
use vprogs.Scheduler.Prune.Kept.{prune_keeps}
use vprogs.Scheduler.Executed.{execute-from_latest_data, execute_pointers}

abbrev hasher : TreeHasher
hasher = record { hash = λ bytes. bytes; empty_hash = 0 ∷ [] }

-- Resource 7 has version 1 and resource 8 none.
abbrev disk : Store ℕ
disk = record {
  versions = λ v r. if r == 7 then some (5 ∷ []) else none;
  latest = λ r. if r == 7 then some 1 else none;
  rollback = λ i. [];
  batches = λ i. none;
  root = none;
  last_committed = none;
  tree = [];
}

abbrev checkpoint : ℕ → Checkpoint ℕ
checkpoint i = record { index = i; metadata = 100 + i }

abbrev state : ℕ → SchedulerState ℕ
state i = record { root = checkpoint 1; last_committed = checkpoint i }

abbrev version : ℕ → ℕ → Bytes → StateVersion
version r v bytes = record { resource_id = r; version = v; bytes = bytes }

abbrev diff : ℕ → StateVersion → StateVersion → StateDiff
diff r old new = record { resource_id = r; index = 0; read_state = old; written_state = new }

abbrev batch : ℕ → List StateDiff → ScheduledBatch ℕ
batch i diffs = record {
  checkpoint = checkpoint i;
  restored = false;
  cancel_threshold = 2 ^ 64 - 1;
  state_diffs = diffs;
}

-- Batch 2 writes resource 7 and creates resource 8; batch 3 deletes resource 7 and reads 8.
abbrev landed : List (Landed ℕ)
landed =
    (
      state 2,
      batch 3 (
          diff 7 (version 7 2 (6 ∷ [])) (version 7 3 [])
          ∷ diff 8 (version 8 2 (4 ∷ [])) (version 8 2 (4 ∷ []))
          ∷ []),
    )
    ∷ (
      state 1,
      batch 2 (
          diff 7 (version 7 1 (5 ∷ [])) (version 7 2 (6 ∷ []))
          ∷ diff 8 (version 8 0 []) (version 8 2 (4 ∷ []))
          ∷ []),
    )
    ∷ []

landed-History : History hasher 1 disk landed
unfolding run land State.commit State.apply Scheduler.commit write_diffs latest_ptrs put_entry
landed-History = (
  refl,
  refl,
  omega arith,
  (omega arith, tt),
  refl,
  (refl, refl, refl, (λ e. refl), (refl, refl, refl, (λ e. absurd (ground arith)), tt)),
  (
    refl,
    refl,
    omega arith,
    tt,
    refl,
    (refl, refl, refl, (λ e. refl), (refl, refl, refl, (λ e. refl), tt)),
    tt,
  ),
)

-- The chain after the three batches.
abbrev ops : List (vprogs.Chain.Oracle.History.Op)
ops =
    vprogs.Chain.Oracle.History.Op.append 1
    ∷ vprogs.Chain.Oracle.History.Op.append 2
    ∷ vprogs.Chain.Oracle.History.Op.append 3
    ∷ []

chain : Snapshot
chain = vprogs.Chain.Oracle.History.run ops Snapshot.empty

chain_reads : (i : ℕ) → 1 < i → i ≤ 3 → is_canonical chain i ≡ contains landed i
unfolding chain
chain_reads i lo hi = (run_refines ops (omega arith)).1 i (omega arith) ∙ ground arith

abbrev rollback : Rollback ℕ
rollback = record { target = checkpoint 1; upper_bound = 3; snapshot = chain }

-- The version of resource 7 comes back that batch 3 deleted and batch 2 had overwritten.
execute-from_latest_data_example :
    from_latest_data (execute rollback (run hasher landed disk) [] (state 3)).0 7
    ≡ from_latest_data disk 7
unfolding State.commit
execute-from_latest_data_example =
    execute-from_latest_data rollback (run hasher landed disk) [] (state 3) hasher disk landed
      landed-History refl (omega arith) (omega arith, (omega arith, tt)) chain_reads
      (λ id n found. ground arith) 7

execute_pointers_example :
    ((execute rollback disk [] (state 3)).0.last_committed ≡ some (checkpoint 1))
    × ((execute rollback disk [] (state 3)).0.root ≡ none)
    × ((execute rollback disk [] (state 3)).1.last_committed ≡ checkpoint 1)
    × ((execute rollback disk [] (state 3)).1.root ≡ checkpoint 1)
unfolding State.commit
execute_pointers_example = execute_pointers rollback disk [] (state 3)

-- A pass over the indices 1 to 4 starts, meets the ceiling 2, and gives its cursor back.
abbrev aborting : List Act
aborting =
    sets_threshold 5 ∷ works ∷ works ∷ works ∷ pauses 2 ∷ works ∷ works ∷ works ∷ pauses 2 ∷ []

pause_protects_example : (interleave aborting (Pruning.new 1)).deleted ≤ 2
unfolding interleave Pruning.act Pruning.work Pruning.pause Pruning.set_threshold Pruning.new
pause_protects_example = pause_protects 1 aborting 2 refl

-- A pass over batch 2 alone.
prune_keeps_example :
    ((id : ℕ)
      → from_latest_data (prune 0 (run hasher landed disk) chain 2 2 (state 3)).0 id
        ≡ from_latest_data (run hasher landed disk) id)
    × ((i : ℕ)
        → 2 < i
        → (prune 0 (run hasher landed disk) chain 2 2 (state 3)).0.rollback i
          ≡ (run hasher landed disk).rollback i)
prune_keeps_example =
    prune_keeps hasher 1 disk landed landed-History (λ id n found. ground arith) 0 chain 2 2
      (state 3) (omega arith) (λ i lo hi. chain_reads i (omega arith) (omega arith))

-- A batch of the context that a rollback to 8 made sees the rollback to 5, and not that to 9.
abbrev all_held : ℕ → Bool
all_held context = true

canceled_by_lower_example :
    is_canceled
      (rollbacks
        ((all_held, 9) ∷ (all_held, 5) ∷ [])
        (rollbacks ((all_held, 8) ∷ []) (Cancellation.new 1)))
      1
      9
    ≡ true
unfolding Cancellation.new Cancellation.rollback Cancellation.canceled_parent_context
canceled_by_lower_example =
    canceled_by_lower 1 ((all_held, 8) ∷ []) ((all_held, 9) ∷ (all_held, 5) ∷ []) 9
      ((omega arith, λ p h. refl), ((omega arith, λ p h. refl), tt)) (omega arith) (omega arith)
