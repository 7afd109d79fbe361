-- ===== src/Scheduler/History.antt =====
-- A history of the batches of scheduling/scheduler/src/scheduled_batch.rs and what it leaves in the store.
use vprogs.Base.{
  ℕ, suc, ◌≤◌, ◌<◌, ◌≡◌, refl, ◌∙◌, ap, Bool, false, ◌||◌, List, [], ◌∷◌, arith, ◌==◌, ==_refl,
}
use vprogs.State.{Store}
use vprogs.Scheduler.{ScheduledBatch, SchedulerState, TreeHasher, canceled}
use vprogs.Scheduler.Batches.{Fit, recorded}
use vprogs.Scheduler.Writes.{land, rollback-land, versions-land}

-- A batch with the shared state at its commit; histories have the newest batch first.
abbrev pub Landed : Type 0 → Type 0
Landed M = SchedulerState M × ScheduledBatch M

module _ {M : Type 0} where
  abbrev pub number : Landed M → ℕ
  number x = x.1.checkpoint.index

  unfoldable pub run : TreeHasher → List (Landed M) → Store M → Store M
  run h [] s = s
  run h ((st, b) ∷ older) s = land h st b (run h older s)

  abbrev pub Below : ℕ → List (Landed M) → Type 0
  Below n [] = Unit
  Below n (x ∷ xs) = (number x < n) × Below n xs

  abbrev pub contains : List (Landed M) → ℕ → Bool
  contains [] i = false
  contains (x ∷ xs) i = (i == number x) || contains xs i

  -- Fresh batches that are not canceled, with rising indices above the target that hold no rollback
  -- pointer yet; each reads what the ones before it left.
  abbrev pub History : TreeHasher → ℕ → Store M → List (Landed M) → Type 0
  History h target s [] = Unit
  History h target s ((st, b) ∷ older) =
      (canceled b ≡ false)
      × (b.restored ≡ false)
      × (target < b.checkpoint.index)
      × Below b.checkpoint.index older
      × (s.rollback b.checkpoint.index ≡ [])
      × Fit (run h older s).latest b.checkpoint.index b.state_diffs
      × History h target s older

  pub contains-Below : (n i : ℕ) (xs : List (Landed M)) → Below n xs → n ≤ i → contains xs i ≡ false
  contains-Below n i [] b p = refl
  contains-Below n i (x ∷ xs) b p =
      let other : (i == number x) ≡ false = ground (arith, b.0) in
      rw other (contains-Below n i xs b.1 p)

  pub next-Below :
      (n : ℕ) (xs : List (Landed M)) → Below (suc n) xs → contains xs n ≡ false → Below n xs
  next-Below n [] b e = tt
  next-Below n (x ∷ xs) b e = (ground (arith, b.0), next-Below n xs b.1 (ground arith))

  module _ (h : TreeHasher) (target : ℕ) (s : Store M) where
    pub rollback-run :
        (i : ℕ) (xs : List (Landed M))
        → History h target s xs
        → contains xs i ≡ false
        → (run h xs s).rollback i ≡ s.rollback i
    unfolding run
    rollback-run i [] v e = refl
    rollback-run i ((st, b) ∷ xs) (live, fresh, p, q, r, fit, v) e =
        let other : (i == b.checkpoint.index) ≡ false = ground arith in
        rollback-land h st b live fresh (run h xs s) i
        ∙ rw other (rollback-run i xs v (ground arith))

    pub versions-run :
        (n r : ℕ) (xs : List (Landed M))
        → History h target s xs
        → n ≤ target
        → (run h xs s).versions n r ≡ s.versions n r
    unfolding run
    versions-run n r [] v e = refl
    versions-run n r ((st, b) ∷ xs) (live, fresh, p, q, k, fit, v) e =
        versions-land h st b live fresh (run h xs s).latest (run h xs s) n r fit (λ c. omega arith)
        ∙ versions-run n r xs v e

    -- The store holds the pointers that each batch recorded.
    abbrev pub Recorded : Store M → List (Landed M) → Type 0
    Recorded t [] = Unit
    Recorded t (x ∷ xs) = (t.rollback (number x) ≡ recorded x.1.state_diffs []) × Recorded t xs

    agree-Recorded :
        (t u : Store M) (n : ℕ) (xs : List (Landed M))
        → Below n xs
        → ((i : ℕ) → i < n → u.rollback i ≡ t.rollback i)
        → Recorded t xs
        → Recorded u xs
    agree-Recorded t u n [] b e r = tt
    agree-Recorded t u n (x ∷ xs) b e r =
        (e (number x) b.0 ∙ r.0, agree-Recorded t u n xs b.1 e r.1)

    pub run-Recorded : (xs : List (Landed M)) → History h target s xs → Recorded (run h xs s) xs
    unfolding run
    run-Recorded [] v = tt
    run-Recorded ((st, b) ∷ xs) (live, fresh, p, q, k, fit, v) =
        let empty : (run h xs s).rollback b.checkpoint.index ≡ [] =
          rollback-run b.checkpoint.index xs v
            (contains-Below b.checkpoint.index b.checkpoint.index xs q (omega arith))
          ∙ k in
        (
          rollback-land h st b live fresh (run h xs s) b.checkpoint.index
              ∙ rw (==_refl b.checkpoint.index) (ap (recorded b.state_diffs) empty),
          agree-Recorded (run h xs s) (land h st b (run h xs s)) b.checkpoint.index xs q
              (λ i below.
                rollback-land h st b live fresh (run h xs s) i
                ∙ (let other : (i == b.checkpoint.index) ≡ false = ground arith in rw other refl))
              (run-Recorded xs v),
        )
