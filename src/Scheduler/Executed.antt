-- ===== src/Scheduler/Executed.antt =====
-- `execute` of scheduling/scheduler/src/rollback.rs: the state and the pointers that it leaves.
use vprogs.Base.{
  ℕ, suc, ◌+◌, ◌-◌, ◌≤◌, ◌<◌, ◌≡◌, refl, ◌∙◌, sym, ap, subst, inl, inr, List, Option, none, some,
  arith, ltb, ◌==◌, Bool-cases, if◌then◌else◌,
}
use vprogs.Chain.Snapshot.{is_canonical}
use vprogs.State
use vprogs.State.{Bytes, Checkpoint, Store, Op, at_latest, from_latest_data, commit-append}
use vprogs.Scheduler.{SchedulerState, TreeHasher, Rollback, revert, execute}
use vprogs.Scheduler.History.{
  Landed, run, Below, contains, History, Recorded, run-Recorded, versions-run,
}
use vprogs.Scheduler.Reverts.{latest-revert, rest-revert}

pub at_latest_agree :
    {M : Type 0} (t s : Store M) (o : Option ℕ) (id : ℕ)
    → ((v : ℕ) → o ≡ some v → t.versions v id ≡ s.versions v id)
    → at_latest t o id ≡ at_latest s o id
at_latest_agree t s none id h = refl
at_latest_agree t s (some v) id h = rw (h v refl) refl

module _ {M : Type 0} (r : Rollback M) (disk : Store M) (pending : List (Op M))
    (st : SchedulerState M) where
  walked : Store M
  walked =
      State.commit
        (revert (State.commit pending disk) r.snapshot r.target.index
          (r.upper_bound - r.target.index))
        (State.commit pending disk)

  -- The pointers of the metadata follow the walk.
  execute_fields :
      ((execute r disk pending st).0.latest ≡ walked.latest)
      × ((execute r disk pending st).0.versions ≡ walked.versions)
      × ((execute r disk pending st).0.last_committed ≡ (
          if ltb r.target.index st.last_committed.index
          then some r.target
          else walked.last_committed))
      × ((execute r disk pending st).0.root
          ≡ (if r.target.index == 0 then some r.target else walked.root))
  unfolding execute walked State.commit State.apply
  execute_fields =
      rw
        (commit-append
          (revert (State.commit pending disk) r.snapshot r.target.index
            (r.upper_bound - r.target.index))
          _ (State.commit pending disk))
        (elim (Bool-cases (ltb r.target.index st.last_committed.index)) [
          | inl committed ↦ elim (Bool-cases (r.target.index == 0)) [
            | inl genesis ↦ rw (committed, genesis) (refl, refl, refl, refl)
            | inr later ↦ rw (committed, later) (refl, refl, refl, refl)
          ]
          | inr ahead ↦ elim (Bool-cases (r.target.index == 0)) [
            | inl genesis ↦ rw (ahead, genesis) (refl, refl, refl, refl)
            | inr later ↦ rw (ahead, later) (refl, refl, refl, refl)
          ]
        ])

  -- A rollback sets the committed checkpoint, on disk and in memory, to its target exactly when
  -- the target is below the one committed in memory, and the root exactly when the target is
  -- genesis; else both stay as the pending writes left them.
  pub execute_pointers :
      ((execute r disk pending st).0.last_committed ≡ (
        if ltb r.target.index st.last_committed.index
        then some r.target
        else (State.commit pending disk).last_committed))
      × ((execute r disk pending st).0.root
          ≡ (if r.target.index == 0 then some r.target else (State.commit pending disk).root))
      × ((execute r disk pending st).1.last_committed
          ≡ (if ltb r.target.index st.last_committed.index then r.target else st.last_committed))
      × ((execute r disk pending st).1.root ≡ (if r.target.index == 0 then r.target else st.root))
  unfolding execute walked
  execute_pointers =
      let (versions, root, committed) =
        rest-revert r.target.index (State.commit pending disk) r.snapshot
          (r.upper_bound - r.target.index) (State.commit pending disk) in
      (
        execute_fields.2
            ∙ ap
                (λ (o : Option (Checkpoint M)).
                  if ltb r.target.index st.last_committed.index then some r.target else o)
                committed,
        execute_fields.3
            ∙ ap (λ (o : Option (Checkpoint M)). if r.target.index == 0 then some r.target else o)
                root,
        refl,
        refl,
      )

  module _ (h : TreeHasher) (s : Store M) (xs : List (Landed M))
      (v : History h r.target.index s xs) where
    -- A rollback over a store that holds, once its pending writes are committed, a history of
    -- batches over an earlier store leaves each resource's latest state as that earlier store had
    -- it. The batches of the history are fresh and not canceled, their indices rise and lie above
    -- the target and not above the upper bound, and hold no rollback pointer in the earlier store;
    -- each diff of a batch reads the latest version that the batches before it left and writes its
    -- batch's index as its version where it advances. In the range, the snapshot reads exactly the
    -- indices of the history as canonical, and no latest version of the earlier store is above the
    -- target.
    pub execute-from_latest_data :
        State.commit pending disk ≡ run h xs s
        → r.target.index ≤ r.upper_bound
        → Below (r.upper_bound + 1) xs
        → ((i : ℕ)
            → r.target.index < i
            → i ≤ r.upper_bound
            → is_canonical r.snapshot i ≡ contains xs i)
        → ((id n : ℕ) → s.latest id ≡ some n → n ≤ r.target.index)
        → (id : ℕ) → from_latest_data (execute r disk pending st).0 id ≡ from_latest_data s id
    unfolding from_latest_data walked
    execute-from_latest_data e up below oracle old id =
        let count : ℕ = r.upper_bound - r.target.index in
        let top : r.target.index + suc count ≡ r.upper_bound + 1 = omega arith in
        let held : Recorded h r.target.index s (State.commit pending disk) xs =
          subst (λ (t : Store M). Recorded h r.target.index s t xs) (sym e)
            (run-Recorded h r.target.index s xs v) in
        let latest : (execute r disk pending st).0.latest id ≡ s.latest id =
          ap (λ (f : ℕ → Option ℕ). f id) execute_fields.0
          ∙ latest-revert h r.target.index s (State.commit pending disk) r.snapshot count xs
              (State.commit pending disk) v held (subst (λ (n : ℕ). Below n xs) (sym top) below)
              (λ i lo hi. oracle i lo (omega arith)) (λ o. ap (λ (t : Store M). t.latest o) e) id in
        let (versions, root, committed) =
          rest-revert r.target.index (State.commit pending disk) r.snapshot count
            (State.commit pending disk) in
        ap (λ (o : Option ℕ). at_latest (execute r disk pending st).0 o id) latest
        ∙ at_latest_agree (execute r disk pending st).0 s (s.latest id) id (λ n found.
          ap (λ (f : ℕ → ℕ → Option Bytes). f n id)
            (execute_fields.1 ∙ versions ∙ ap (λ (t : Store M). t.versions) e)
          ∙ versions-run h r.target.index s n id xs v (old id n found))
