-- ===== src/Scheduler/Prune.antt =====
-- `prune` of scheduling/scheduler/src/pruning_worker.rs: what a pass deletes.
--
-- The cached receipts and the stale nodes of the state tree, which a pass drops too, are not part
-- of the store of the model.
pub mod Superseded
pub mod Kept
use vprogs.Base.{
  ℕ, zero, suc, ◌+◌, ◌-◌, Bool, true, false, List, [], ◌∷◌, ◌++◌, Option, none, some, ◌==◌,
  if◌then◌else◌,
}
use vprogs.Chain.Snapshot.{Snapshot, is_canonical}
use vprogs.State
use vprogs.State.{Checkpoint, Store, Op, delete_version, delete_rollback, delete_batch, set_root}
use vprogs.Scheduler.{SchedulerState}

module _ {M : Type 0} where
  -- An orphaned batch's own write is reclaimed, a canonical one's predecessor.
  abbrev pub reclaim : Bool → ℕ → ℕ → ℕ → List (Op M)
  reclaim true index r old = if old == 0 then [] else delete_version old r ∷ []
  reclaim false index r old = delete_version index r ∷ []

  unfoldable pub prune_entries : Bool → ℕ → List (ℕ × ℕ) → List (Op M)
  prune_entries canonical index [] = []
  prune_entries canonical index ((r, old) ∷ entries) =
      (reclaim canonical index r old ++ (delete_rollback index r ∷ []))
      ++ prune_entries canonical index entries

  -- `for index in lower_bound..=upper_bound`, over `count` indices from `index` on.
  unfoldable pub prune_range : Store M → Snapshot → ℕ → ℕ → List (Op M)
  prune_range s view zero index = []
  prune_range s view (suc count) index =
      (prune_entries (is_canonical view index) index (s.rollback index)
        ++ (delete_batch index ∷ []))
      ++ prune_range s view count (index + 1)

  abbrev unwrap_or : M → Option M → M
  unwrap_or default none = default
  unwrap_or default (some m) = m

  -- The new store and the shared state, for the metadata type's default.
  unfoldable pub prune :
      M → Store M → Snapshot → ℕ → ℕ → SchedulerState M → Store M × SchedulerState M
  prune default s view lower_bound upper_bound st =
      let new_root : Checkpoint M = record {
        index = upper_bound + 1;
        metadata = unwrap_or default (s.batches (upper_bound + 1));
      } in
      (
        State.commit
            (prune_range s view (upper_bound + 1 - lower_bound) lower_bound
              ++ (set_root new_root ∷ []))
            s,
        record st { root = new_root },
      )
