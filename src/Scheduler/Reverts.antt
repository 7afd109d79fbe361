-- ===== src/Scheduler/Reverts.antt =====
-- scheduling/scheduler/src/rollback.rs against the batches of scheduled_batch.rs: a rollback brings
-- the state back that the canonical batches above its target were applied to.
use vprogs.Base.{
  ℕ, zero, suc, ◌+◌, ◌<◌, ◌≡◌, refl, subst, ◌∙◌, sym, ap, inl, inr, true, false, List, [], ◌∷◌,
  Option, arith, ◌==◌, Bool-cases,
}
use vprogs.Chain.Snapshot.{Snapshot, is_canonical}
use vprogs.State
use vprogs.State.{Bytes, StateVersion, Store, Op, at_latest, from_latest_data, commit-append}
use vprogs.State.Pointers.{restored, restored_agree}
use vprogs.Scheduler.{TreeHasher, restore_ptrs, revert}
use vprogs.Scheduler.Batches.{recorded, pointed, reverts_pointed}
use vprogs.Scheduler.Writes.{latest-land, commit-restore_ptrs}
use vprogs.Scheduler.History.{
  Landed, number, run, Below, contains, History, contains-Below, next-Below, Recorded,
}

module _ {M : Type 0} (target : ℕ) (final : Store M) (snapshot : Snapshot) where
  -- It changes nothing but the latest pointers.
  pub rest-revert :
      (count : ℕ) (t : Store M)
      → ((State.commit (revert final snapshot target count) t).versions ≡ t.versions)
        × ((State.commit (revert final snapshot target count) t).root ≡ t.root)
        × ((State.commit (revert final snapshot target count) t).last_committed ≡ t.last_committed)
  unfolding revert State.commit
  rest-revert zero t = (refl, refl, refl)
  rest-revert (suc count) t = elim (Bool-cases (is_canonical snapshot (target + suc count))) [
    | inl on ↦
        rw
          (
            on,
            commit-append (restore_ptrs (final.rollback (target + suc count)))
                (revert final snapshot target count) t,
            commit-restore_ptrs (final.rollback (target + suc count)) t,
          )
          (rest-revert count
            (record t { latest = restored (final.rollback (target + suc count)) t.latest }))
    | inr off ↦ rw off (rest-revert count t)
  ]

module _ {M : Type 0} (h : TreeHasher) (target : ℕ) (s : Store M) where
  module _ (final : Store M) where
    -- The history without its newest batch, which the index names, once its pointers are restored.
    record Undone (index : ℕ) (xs : List (Landed M)) (latest : ℕ → Option ℕ) : Type 0 where
      older : List (Landed M)
      valid : History h target s older
      pointers : Recorded h target s final older
      below : Below index older
      others : (i : ℕ) → i < index → contains xs i ≡ contains older i
      reads : (r : ℕ) → restored (final.rollback index) latest r ≡ (run h older s).latest r

    undo :
        (index : ℕ) (xs : List (Landed M)) (latest : ℕ → Option ℕ)
        → History h target s xs
        → Recorded h target s final xs
        → Below (suc index) xs
        → ((r : ℕ) → latest r ≡ (run h xs s).latest r)
        → contains xs index ≡ true
        → Undone index xs latest
    unfolding run
    undo index [] latest v w b e found = absurd (ground arith)
    undo index ((st, x) ∷ xs) latest (live, fresh, p, q, k, fit, v) w b e found =
        let at : index ≡ number (st, x) =
          ground (arith, contains-Below (number (st, x)) index xs q, b.0) in
        record {
          older = xs;
          valid = v;
          pointers = w.1;
          below = subst (λ (n : ℕ). Below n xs) (sym at) q;
          others = λ i lower.
              let other : (i == x.checkpoint.index) ≡ false = ground arith in rw other refl;
          reads = λ r.
              ap (λ (es : List (ℕ × ℕ)). restored es latest r) (ap final.rollback at ∙ w.0)
              ∙ restored_agree (recorded x.state_diffs []) latest
                  (pointed x.state_diffs (run h xs s).latest)
                  (λ o.
                    e o
                    ∙ ap (λ (f : ℕ → Option ℕ). f o) (latest-land h st x live fresh (run h xs s)))
                  r
              ∙ reverts_pointed (run h xs s).latest x.checkpoint.index x.state_diffs r fit;
        }

    module _ (snapshot : Snapshot) where
      -- The walk from the newest index down leaves the latest pointers of the target's state.
      pub latest-revert :
          (count : ℕ) (xs : List (Landed M)) (t : Store M)
          → History h target s xs
          → Recorded h target s final xs
          → Below (target + suc count) xs
          → ((i : ℕ)
              → target < i
              → i < target + suc count
              → is_canonical snapshot i ≡ contains xs i)
          → ((r : ℕ) → t.latest r ≡ (run h xs s).latest r)
          → (r : ℕ) → (State.commit (revert final snapshot target count) t).latest r ≡ s.latest r
      unfolding revert State.commit run
      latest-revert zero [] t v w b c e r = e r
      latest-revert zero ((st, x) ∷ xs) t (live, fresh, p, q, k, fit, v) w b c e r =
          absurd (omega (arith, b.0))
      latest-revert (suc count) xs t v w b c e r =
          let index : ℕ = target + suc count in
          let next : Below (suc index) xs =
            subst (λ (n : ℕ). Below n xs) {y = suc index} (omega arith) b in
          let oracle = c index (omega arith) (omega arith) in
          elim (Bool-cases (is_canonical snapshot index)) [
            | inl on ↦
                let u = undo index xs t.latest v w next e (sym oracle ∙ on) in
                rw
                  (
                    on,
                    commit-append (restore_ptrs (final.rollback index))
                        (revert final snapshot target count) t,
                    commit-restore_ptrs (final.rollback index) t,
                  )
                  (latest-revert count u.older
                    (record t { latest = restored (final.rollback index) t.latest }) u.valid
                    u.pointers u.below (λ i lo hi. c i lo (omega arith) ∙ u.others i hi) u.reads r)
            | inr off ↦ rw off (
                latest-revert count xs t v w (next-Below index xs next (sym oracle ∙ off))
                  (λ i lo hi. c i lo (omega arith)) e r)
          ]
