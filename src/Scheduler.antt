-- ===== src/Scheduler.antt =====
-- scheduling/scheduler/src: what a batch writes (state_diff.rs, scheduled_batch.rs) and how a
-- rollback reverts it (rollback.rs).
--
-- The workers' threads, latches and queues are left out: a batch is its checkpoint, whether it was
-- restored, and its state diffs, each with the state read before and written after execution.
pub mod Batches
pub mod Writes
pub mod History
pub mod Reverts
pub mod Executed
pub mod Pruning
pub mod Cancellation
pub mod Prune
mod Tests
use vprogs.Base.{
  ℕ, zero, suc, ◌+◌, ◌-◌, Bool, true, false, not, ◌&&◌, ◌||◌, List, [], ◌∷◌, ◌++◌, Option, none,
  some, ltb, leb, ◌==◌, if◌then◌else◌,
}
use vprogs.Chain.Snapshot.{Snapshot, is_canonical}
use vprogs.State
use vprogs.State.{
  Bytes, Checkpoint, StateVersion, Store, Op, put_latest, delete_latest, set_batch, update_tree,
  set_root, set_last_committed,
}

pub record StateDiff : Type 0 where
  pub resource_id : ℕ
  pub index : ℕ
  pub read_state : StateVersion
  pub written_state : StateVersion

pub record ScheduledBatch (M : Type 0) : Type 0 where
  pub checkpoint : Checkpoint M
  pub restored : Bool
  -- The threshold of the batch's cancellation context.
  pub cancel_threshold : ℕ
  pub state_diffs : List StateDiff

-- The shared state of state.rs, less its queues.
pub record SchedulerState (M : Type 0) : Type 0 where
  pub root : Checkpoint M
  pub last_committed : Checkpoint M

abbrev pub data_updated : StateDiff → Bool
data_updated d = ltb d.read_state.version d.written_state.version

-- `Hasher::hash` of the tree and `EMPTY_HASH`, of core/smt.
pub record TreeHasher : Type 0 where
  pub hash : Bytes → Bytes
  pub empty_hash : Bytes

abbrev pub commitment : TreeHasher → StateDiff → ℕ × Bytes
commitment h d = (
  d.resource_id,
  elim d.written_state.bytes [ [] ↦ h.empty_hash | b ∷ bytes ↦ h.hash (b ∷ bytes) ],
)

abbrev pub updated_state_diffs : List StateDiff → List StateDiff
updated_state_diffs [] = []
updated_state_diffs (d ∷ ds) =
    let rest = updated_state_diffs ds in if data_updated d then d ∷ rest else rest

pub record Rollback (M : Type 0) : Type 0 where
  pub target : Checkpoint M
  pub upper_bound : ℕ
  pub snapshot : Snapshot

abbrev commitments : TreeHasher → List StateDiff → List (ℕ × Bytes)
commitments h [] = []
commitments h (d ∷ ds) = commitment h d ∷ commitments h ds

module _ {M : Type 0} where
  abbrev pub canceled : ScheduledBatch M → Bool
  canceled b = ltb b.cancel_threshold b.checkpoint.index

  -- The write of one diff.
  abbrev pub write : ScheduledBatch M → StateDiff → List (Op M)
  write b d =
      if not (canceled b) && data_updated d
      then State.write_data d.written_state
        ++ State.write_rollback_ptr d.read_state b.checkpoint.index
      else []

  -- `set_written_state` submits no diff of a restored or canceled batch; the others' writes.
  unfoldable pub write_diffs : ScheduledBatch M → List StateDiff → List (Op M)
  write_diffs b [] = []
  write_diffs b (d ∷ ds) = write b d ++ write_diffs b ds

  abbrev pub submit_diffs : ScheduledBatch M → List (Op M)
  submit_diffs b = if b.restored || canceled b then [] else write_diffs b b.state_diffs

  unfoldable pub latest_ptrs : List StateDiff → List (Op M)
  latest_ptrs [] = []
  latest_ptrs (d ∷ ds) = State.write_latest_ptr d.written_state ++ latest_ptrs ds

  -- The writes of `commit`.
  unfoldable pub commit : TreeHasher → SchedulerState M → ScheduledBatch M → List (Op M)
  commit h st b =
      let updated = updated_state_diffs b.state_diffs in
      if canceled b
      then []
      else latest_ptrs updated
        ++ ((if b.restored
              then []
              else set_batch b.checkpoint.index b.checkpoint.metadata
                ∷ update_tree b.checkpoint.index (commitments h updated)
                ∷ [])
            ++ (set_last_committed b.checkpoint
                ∷ (if b.checkpoint.index == st.root.index then set_root b.checkpoint ∷ [] else [])))

  unfoldable pub commit_done : ScheduledBatch M → SchedulerState M → SchedulerState M
  commit_done b st = if canceled b then st else record st { last_committed = b.checkpoint }

  abbrev pub restore_latest_ptr : ℕ → ℕ → Op M
  restore_latest_ptr resource_id old_version =
      if old_version == 0 then delete_latest resource_id else put_latest resource_id old_version

  unfoldable pub restore_ptrs : List (ℕ × ℕ) → List (Op M)
  restore_ptrs [] = []
  restore_ptrs ((r, old) ∷ entries) = restore_latest_ptr r old ∷ restore_ptrs entries

  -- `for index in (target + 1..=upper_bound).rev()`, over the `count` indices above the target.
  unfoldable pub revert : Store M → Snapshot → ℕ → ℕ → List (Op M)
  revert s snapshot target zero = []
  revert s snapshot target (suc count) =
      let index = target + suc count in
      let rest = revert s snapshot target count in
      if is_canonical snapshot index then restore_ptrs (s.rollback index) ++ rest else rest

  -- `execute` over the pending write batch: the new store and the shared state.
  unfoldable pub execute :
      Rollback M → Store M → List (Op M) → SchedulerState M → Store M × SchedulerState M
  execute r s pending st =
      let store = State.commit pending s in
      let target_committed = ltb r.target.index st.last_committed.index in
      let rollback_to_genesis = r.target.index == 0 in
      let wb =
        revert store r.snapshot r.target.index (r.upper_bound - r.target.index)
        ++ ((if target_committed then set_last_committed r.target ∷ [] else [])
            ++ (if rollback_to_genesis then set_root r.target ∷ [] else [])) in
      (
        State.commit wb store,
        record {
          root = if rollback_to_genesis then r.target else st.root;
          last_committed = if target_committed then r.target else st.last_committed;
        },
      )
