-- ===== src/Scheduler/Writes.antt =====
-- The column families after the writes of one batch of scheduling/scheduler/src.
use vprogs.Base.{
  ℕ, ◌≡◌, ◌≢◌, refl, ◌∙◌, ap, inl, inr, Bool, true, false, ◌||◌, List, [], ◌∷◌, Option, none, some,
  arith, ◌==◌, ==_refl, ==_ne, Bool-cases, if◌then◌else◌,
}
use vprogs.Base.Order.{update}
use vprogs.State
use vprogs.State.{
  Bytes, StateVersion, Store, Op, is_empty, update_at, put_entry, rollback_version, commit-append,
}
use vprogs.Scheduler
use vprogs.Scheduler.{
  StateDiff, ScheduledBatch, SchedulerState, TreeHasher, data_updated, updated_state_diffs,
  canceled, write, write_diffs, submit_diffs, latest_ptrs, restore_ptrs, restore_latest_ptr,
}
use vprogs.Scheduler.Batches.{pointed, recorded, Fit}
use vprogs.State.Pointers.{restored}

module _ {M : Type 0} where
  -- The store after one diff that advances.
  abbrev recording : ℕ → StateDiff → Store M → Store M
  recording index d s = record s {
    versions =
        (if is_empty d.written_state.bytes
          then s.versions
          else update_at s.versions d.written_state.version d.written_state.resource_id
              (some d.written_state.bytes));
    rollback =
        update s.rollback index
          (put_entry d.read_state.resource_id (rollback_version d.read_state) (s.rollback index));
  }

  commit-write :
      (b : ScheduledBatch M) (d : StateDiff) (s : Store M)
      → canceled b ≡ false
      → data_updated d ≡ true
      → State.commit (write b d) s ≡ recording b.checkpoint.index d s
  unfolding State.commit State.apply
  commit-write b d s live new =
      rw (live, new)
        (elim (Bool-cases (is_empty d.written_state.bytes)) [
          | inl gone ↦ rw gone refl
          | inr kept ↦ rw kept refl
        ])

  commit-write_same :
      (b : ScheduledBatch M) (d : StateDiff) (s : Store M)
      → canceled b ≡ false
      → data_updated d ≡ false
      → State.commit (write b d) s ≡ s
  unfolding State.commit
  commit-write_same b d s live same = rw (live, same) refl

  latest-write_diffs :
      (b : ScheduledBatch M) (ds : List StateDiff) (s : Store M)
      → canceled b ≡ false
      → (State.commit (write_diffs b ds) s).latest ≡ s.latest
  unfolding write_diffs State.commit
  latest-write_diffs b [] s live = refl
  latest-write_diffs b (d ∷ ds) s live =
      rw (commit-append (write b d) (write_diffs b ds) s) (elim (Bool-cases (data_updated d)) [
        | inl new ↦
            rw (commit-write b d s live new)
              (latest-write_diffs b ds (recording b.checkpoint.index d s) live)
        | inr same ↦ rw (commit-write_same b d s live same) (latest-write_diffs b ds s live)
      ])

  rollback-write_diffs :
      (b : ScheduledBatch M) (ds : List StateDiff) (s : Store M) (i : ℕ)
      → canceled b ≡ false
      → (State.commit (write_diffs b ds) s).rollback i ≡ (
          if i == b.checkpoint.index
          then recorded ds (s.rollback b.checkpoint.index)
          else s.rollback i)
  unfolding write_diffs State.commit
  rollback-write_diffs b [] s i live = ground (arith, ap s.rollback)
  rollback-write_diffs b (d ∷ ds) s i live =
      rw (commit-append (write b d) (write_diffs b ds) s) (elim (Bool-cases (data_updated d)) [
        | inl new ↦
            rw (commit-write b d s live new, new)
              (rollback-write_diffs b ds (recording b.checkpoint.index d s) i live
                ∙ elim (Bool-cases (i == b.checkpoint.index)) [
                  | inl here ↦ rw (here, ==_refl b.checkpoint.index) refl
                  | inr there ↦ rw there refl
                ])
        | inr same ↦
            rw (commit-write_same b d s live same, same) (rollback-write_diffs b ds s i live)
      ])

  versions-write_diffs :
      (b : ScheduledBatch M) (latest : ℕ → Option ℕ) (ds : List StateDiff) (s : Store M) (v r : ℕ)
      → canceled b ≡ false
      → Fit latest b.checkpoint.index ds
      → v ≢ b.checkpoint.index
      → (State.commit (write_diffs b ds) s).versions v r ≡ s.versions v r
  unfolding write_diffs State.commit
  versions-write_diffs b latest [] s v r live h other = refl
  versions-write_diffs b latest (d ∷ ds) s v r live (a, c, e, w, h) other =
      rw (commit-append (write b d) (write_diffs b ds) s) (elim (Bool-cases (data_updated d)) [
        | inl new ↦ rw (commit-write b d s live new) (
            versions-write_diffs b latest ds (recording b.checkpoint.index d s) v r live h other
            ∙ elim (Bool-cases (is_empty d.written_state.bytes)) [
              | inl gone ↦ rw gone refl
              | inr kept ↦
                  let apart : (v == d.written_state.version) ≡ false =
                    ==_ne v d.written_state.version (λ e. other (e ∙ w new)) in
                  rw (kept, apart) refl
            ])
        | inr same ↦
            rw (commit-write_same b d s live same)
              (versions-write_diffs b latest ds s v r live h other)
      ])

  commit-latest_ptrs :
      (ds : List StateDiff) (s : Store M)
      → State.commit (latest_ptrs (updated_state_diffs ds)) s
        ≡ record s { latest = pointed ds s.latest }
  unfolding latest_ptrs State.commit State.apply
  commit-latest_ptrs [] s = refl
  commit-latest_ptrs (d ∷ ds) s = elim (Bool-cases (data_updated d)) [
    | inl new ↦ elim (Bool-cases (is_empty d.written_state.bytes)) [
      | inl gone ↦
          rw (new, gone)
            (commit-latest_ptrs ds
              (record s { latest = update s.latest d.written_state.resource_id none }))
      | inr kept ↦
          rw (new, kept)
            (commit-latest_ptrs ds (record s {
              latest = update s.latest d.written_state.resource_id (some d.written_state.version);
            }))
    ]
    | inr same ↦ rw same (commit-latest_ptrs ds s)
  ]

  -- Restoring repoints the latest pointers and nothing else.
  pub commit-restore_ptrs :
      (entries : List (ℕ × ℕ)) (s : Store M)
      → State.commit (restore_ptrs entries) s ≡ record s { latest = restored entries s.latest }
  unfolding restore_ptrs State.commit State.apply
  commit-restore_ptrs [] s = refl
  commit-restore_ptrs ((r, old) ∷ entries) s = elim (Bool-cases (old == 0)) [
    | inl gone ↦
        rw gone (commit-restore_ptrs entries (record s { latest = update s.latest r none }))
    | inr kept ↦
        rw kept (commit-restore_ptrs entries (record s { latest = update s.latest r (some old) }))
  ]

  -- A batch's writes in the order in which they land.
  unfoldable pub land : TreeHasher → SchedulerState M → ScheduledBatch M → Store M → Store M
  land h st b s = State.commit (Scheduler.commit h st b) (State.commit (submit_diffs b) s)

  module _ (h : TreeHasher) (st : SchedulerState M) (b : ScheduledBatch M)
      (live : canceled b ≡ false) (fresh : b.restored ≡ false) where
    -- The batch's own commit changes no version and no rollback pointer.
    commit_fields :
        (s : Store M)
        → ((State.commit (Scheduler.commit h st b) s).latest ≡ pointed b.state_diffs s.latest)
          × ((State.commit (Scheduler.commit h st b) s).rollback ≡ s.rollback)
          × ((State.commit (Scheduler.commit h st b) s).versions ≡ s.versions)
    unfolding Scheduler.commit State.commit State.apply
    commit_fields s =
        rw (live, fresh)
          (rw
            (
              commit-append (latest_ptrs (updated_state_diffs b.state_diffs)) _ s,
              commit-latest_ptrs b.state_diffs s,
            )
            (elim (Bool-cases (b.checkpoint.index == st.root.index)) [
              | inl first ↦ rw first (refl, refl, refl)
              | inr later ↦ rw later (refl, refl, refl)
            ]))

    submitted : submit_diffs b ≡ write_diffs b b.state_diffs
    submitted =
        let runs : (b.restored || canceled b) ≡ false = rw (fresh, live) refl in
        ap (λ (t : Bool). if t then [] else write_diffs b b.state_diffs) runs

    pub latest-land : (s : Store M) → (land h st b s).latest ≡ pointed b.state_diffs s.latest
    unfolding land
    latest-land s =
        (commit_fields (State.commit (submit_diffs b) s)).0
        ∙ rw submitted (ap (pointed b.state_diffs) (latest-write_diffs b b.state_diffs s live))

    pub rollback-land :
        (s : Store M) (i : ℕ)
        → (land h st b s).rollback i ≡ (
            if i == b.checkpoint.index
            then recorded b.state_diffs (s.rollback b.checkpoint.index)
            else s.rollback i)
    unfolding land
    rollback-land s i =
        ap (λ (f : ℕ → List (ℕ × ℕ)). f i) (commit_fields (State.commit (submit_diffs b) s)).1
        ∙ rw submitted (rollback-write_diffs b b.state_diffs s i live)

    pub versions-land :
        (latest : ℕ → Option ℕ) (s : Store M) (v r : ℕ)
        → Fit latest b.checkpoint.index b.state_diffs
        → v ≢ b.checkpoint.index
        → (land h st b s).versions v r ≡ s.versions v r
    unfolding land
    versions-land latest s v r k other =
        ap (λ (f : ℕ → ℕ → Option Bytes). f v r) (commit_fields (State.commit (submit_diffs b) s)).2
        ∙ rw submitted (versions-write_diffs b latest b.state_diffs s v r live k other)
