-- ===== src/Scheduler/Prune/Kept.antt =====
-- What a pass of scheduling/scheduler/src/pruning_worker.rs keeps.
use vprogs.Base.{
  ℕ, zero, suc, ◌+◌, ◌-◌, ◌≤◌, ◌<◌, ◌≡◌, ◌≢◌, ◌⊎◌, refl, ◌∙◌, sym, ap, inl, inr, Bool, true, false,
  List, [], ◌∷◌, ◌++◌, Option, some, arith, ◌==◌, ==_iff, ==_ne, Bool-cases,
}
use vprogs.Chain.Snapshot.{Snapshot, is_canonical}
use vprogs.State
use vprogs.State.{Bytes, Store, Op, from_latest_data, at_latest, commit-append}
use vprogs.Scheduler.{SchedulerState, TreeHasher}
use vprogs.Scheduler.History.{Landed, number, run, contains, History, Recorded, run-Recorded}
use vprogs.Scheduler.Executed.{at_latest_agree}
use vprogs.Scheduler.Prune.{prune_entries, prune_range, prune}
use vprogs.Scheduler.Prune.Superseded.{Superseded, AllSuperseded, latest-run, run-AllSuperseded}

module _ {M : Type 0} where
  -- The writes of one batch's pointers leave the latest pointers and the other batches' pointers.
  fields-prune_entries :
      (canonical : Bool) (index : ℕ) (entries : List (ℕ × ℕ)) (t : Store M)
      → ((State.commit (prune_entries canonical index entries) t).latest ≡ t.latest)
        × ((i : ℕ)
            → i ≢ index
            → (State.commit (prune_entries canonical index entries) t).rollback i ≡ t.rollback i)
  unfolding prune_entries State.commit State.apply
  fields-prune_entries canonical index [] t = (refl, λ i h. refl)
  fields-prune_entries true index ((r, old) ∷ entries) t = elim (Bool-cases (old == 0)) [
    | inl gone ↦
        let u =
          fields-prune_entries true index entries
            (State.commit (Op.delete_rollback index r ∷ []) t) in
        rw gone (
          u.0,
          λ i h. u.1 i h ∙ (let other : (i == index) ≡ false = ==_ne i index h in rw other refl),
        )
    | inr kept ↦
        let u =
          fields-prune_entries true index entries
            (State.commit (Op.delete_version old r ∷ Op.delete_rollback index r ∷ []) t) in
        rw kept (
          u.0,
          λ i h. u.1 i h ∙ (let other : (i == index) ≡ false = ==_ne i index h in rw other refl),
        )
  ]
  fields-prune_entries false index ((r, old) ∷ entries) t =
      let u =
        fields-prune_entries false index entries
          (State.commit (Op.delete_version index r ∷ Op.delete_rollback index r ∷ []) t) in
      (u.0, λ i h. u.1 i h ∙ (let other : (i == index) ≡ false = ==_ne i index h in rw other refl))

  -- A canonical batch's pointers name no latest version.
  versions-prune_entries :
      (latest : ℕ → Option ℕ) (index : ℕ) (entries : List (ℕ × ℕ)) (t : Store M) (n id : ℕ)
      → Superseded latest index entries
      → latest id ≡ some n
      → (State.commit (prune_entries true index entries) t).versions n id ≡ t.versions n id
  unfolding prune_entries State.commit State.apply
  versions-prune_entries latest index [] t n id s e = refl
  versions-prune_entries latest index ((r, old) ∷ entries) t n id s e =
      elim (Bool-cases (old == 0)) [
        | inl gone ↦ rw gone (versions-prune_entries latest index entries _ n id s.1 e)
        | inr kept ↦ rw kept (
            versions-prune_entries latest index entries _ n id s.1 e
            ∙ elim (Bool-cases (n == old)) [
              | inr other ↦ rw other refl
              | inl same ↦
                  let apart : (id == r) ≡ false = ==_ne id r (λ q.
                    let below : index ≤ old =
                      s.0.1 old (ap latest (sym q) ∙ e ∙ ap some ((==_iff n old).0 same)) in
                    omega (arith, s.0.0)) in
                  rw (same, apart) (ap (λ (v : ℕ). t.versions v id) (sym ((==_iff n old).0 same)))
            ])
      ]

  -- An orphaned batch's writes go, and no other.
  versions-prune_orphan :
      (index : ℕ) (entries : List (ℕ × ℕ)) (t : Store M) (n id : ℕ)
      → n ≢ index
      → (State.commit (prune_entries false index entries) t).versions n id ≡ t.versions n id
  unfolding prune_entries State.commit State.apply
  versions-prune_orphan index [] t n id h = refl
  versions-prune_orphan index ((r, old) ∷ entries) t n id h =
      versions-prune_orphan index entries _ n id h
      ∙ (let other : (n == index) ≡ false = ==_ne n index h in rw other refl)

module _ {M : Type 0} (s : Store M) (view : Snapshot) where
  -- A pass leaves the latest pointers, and the rollback pointers out of its range.
  fields-prune_range :
      (count index : ℕ) (t : Store M)
      → ((State.commit (prune_range s view count index) t).latest ≡ t.latest)
        × ((i : ℕ)
            → (i < index) ⊎ (index + count ≤ i)
            → (State.commit (prune_range s view count index) t).rollback i ≡ t.rollback i)
  unfolding prune_range State.commit State.apply
  fields-prune_range zero index t = (refl, λ i h. refl)
  fields-prune_range (suc count) index t =
      let entries = prune_entries (is_canonical view index) index (s.rollback index) in
      let mid : Store M = State.commit (entries ++ (Op.delete_batch index ∷ [])) t in
      let u = fields-prune_entries (is_canonical view index) index (s.rollback index) t in
      let w = fields-prune_range count (index + 1) mid in
      let cut : mid ≡ State.commit (Op.delete_batch index ∷ []) (State.commit entries t) =
        commit-append entries (Op.delete_batch index ∷ []) t in
      rw
        (commit-append (entries ++ (Op.delete_batch index ∷ []))
          (prune_range s view count (index + 1)) t)
        (
          w.0 ∙ ap (λ (x : Store M). x.latest) cut ∙ u.0,
          λ i h.
              w.1 i (grind arith)
              ∙ ap (λ (x : Store M). x.rollback i) cut
              ∙ u.1 i (λ e. grind arith),
        )

  versions-prune_range :
      (latest : ℕ → Option ℕ) (n id count index : ℕ) (t : Store M)
      → latest id ≡ some n
      → ((i : ℕ)
          → index ≤ i
          → i < index + count
          → ((is_canonical view i ≡ true) × Superseded latest i (s.rollback i))
            ⊎ ((is_canonical view i ≡ false) × (n ≢ i)))
      → (State.commit (prune_range s view count index) t).versions n id ≡ t.versions n id
  unfolding prune_range State.commit State.apply
  versions-prune_range latest n id zero index t e h = refl
  versions-prune_range latest n id (suc count) index t e h =
      let entries = prune_entries (is_canonical view index) index (s.rollback index) in
      let mid : Store M = State.commit (entries ++ (Op.delete_batch index ∷ [])) t in
      let cut : mid ≡ State.commit (Op.delete_batch index ∷ []) (State.commit entries t) =
        commit-append entries (Op.delete_batch index ∷ []) t in
      rw
        (commit-append (entries ++ (Op.delete_batch index ∷ []))
          (prune_range s view count (index + 1)) t)
        (versions-prune_range latest n id count (index + 1) mid e
            (λ i lo hi. h i (omega arith) (omega arith))
          ∙ ap (λ (x : Store M). x.versions n id) cut
          ∙ elim (h index (omega arith) (omega arith)) [
            | inl on ↦
                rw on.0 (versions-prune_entries latest index (s.rollback index) t n id on.1 e)
            | inr off ↦ rw off.0 (versions-prune_orphan index (s.rollback index) t n id off.1)
          ])

module _ {M : Type 0} (h : TreeHasher) (target : ℕ) (s : Store M) where
  -- The pointers of an index of the history are superseded.
  at_index :
      (latest : ℕ → Option ℕ) (t : Store M) (old : (id v : ℕ) → s.latest id ≡ some v → v ≤ target)
      (xs : List (Landed M)) (i : ℕ)
      → Recorded h target s t xs
      → AllSuperseded h target s old latest xs
      → contains xs i ≡ true
      → Superseded latest i (t.rollback i)
  at_index latest t old [] i r a e = absurd (ground arith)
  at_index latest t old (x ∷ xs) i r a e = elim (Bool-cases (i == number x)) [
    | inl here ↦ let q : i ≡ number x = (==_iff i (number x)).0 here in rw (q, r.0) a.0
    | inr there ↦ at_index latest t old xs i r.1 a.1 (rw there at e)
  ]

  module _ (xs : List (Landed M)) (v : History h target s xs)
      (old : (id n : ℕ) → s.latest id ≡ some n → n ≤ target) (default : M) (view : Snapshot)
      (lower upper : ℕ) (st : SchedulerState M) where
    ran : Store M
    ran = run h xs s

    walked : Store M
    walked = State.commit (prune_range ran view (upper + 1 - lower) lower) ran

    prune_fields :
        ((prune default ran view lower upper st).0.latest ≡ walked.latest)
        × ((prune default ran view lower upper st).0.versions ≡ walked.versions)
        × ((prune default ran view lower upper st).0.rollback ≡ walked.rollback)
    unfolding walked prune State.commit State.apply
    prune_fields =
        rw (commit-append (prune_range ran view (upper + 1 - lower) lower) _ ran) (refl, refl, refl)

    -- An index of the range is of a superseded batch or of an orphaned one.
    spared :
        (id n i : ℕ)
        → ran.latest id ≡ some n
        → target < i
        → is_canonical view i ≡ contains xs i
        → ((is_canonical view i ≡ true) × Superseded ran.latest i (ran.rollback i))
          ⊎ ((is_canonical view i ≡ false) × (n ≢ i))
    unfolding ran
    spared id n i e above oracle = elim (Bool-cases (contains xs i)) [
      | inl on ↦ inl (
        oracle ∙ on,
        at_index (run h xs s).latest (run h xs s) old xs i (run-Recorded h target s xs v)
            (run-AllSuperseded h target s old xs v) on,
      )
      | inr off ↦ inr (
        oracle ∙ off,
        λ same. elim (latest-run h target s old xs id n v e) [
          | inl low ↦ omega arith
          | inr within ↦ ground (arith, ap (contains xs) same)
        ],
      )
    ]

    -- A pruning pass over a history of batches leaves each resource's latest state and the
    -- rollback pointers of every index above the pass as they were. The history is as for a
    -- rollback over a store whose latest versions are not above a target, the pass begins above
    -- that target, and in its range the view reads exactly the indices of the history as
    -- canonical.
    pub prune_keeps :
        target < lower
        → ((i : ℕ) → lower ≤ i → i ≤ upper → is_canonical view i ≡ contains xs i)
        → ((id : ℕ)
            → from_latest_data (prune default (run h xs s) view lower upper st).0 id
              ≡ from_latest_data (run h xs s) id)
          × ((i : ℕ)
              → upper < i
              → (prune default (run h xs s) view lower upper st).0.rollback i
                ≡ (run h xs s).rollback i)
    unfolding from_latest_data walked ran
    prune_keeps above oracle =
        let f = fields-prune_range ran view (upper + 1 - lower) lower ran in
        (
          λ id.
              ap
                (λ (l : ℕ → Option ℕ).
                  at_latest (prune default ran view lower upper st).0 (l id) id)
                (prune_fields.0 ∙ f.0)
              ∙ at_latest_agree (prune default ran view lower upper st).0 ran (ran.latest id) id
                  (λ n e.
                    ap (λ (x : ℕ → ℕ → Option Bytes). x n id) prune_fields.1
                    ∙ versions-prune_range ran view ran.latest n id (upper + 1 - lower) lower ran e
                        (λ i lo hi. spared id n i e (omega arith) (oracle i lo (omega arith)))),
          λ i h. ap (λ (x : ℕ → List (ℕ × ℕ)). x i) prune_fields.2 ∙ f.1 i (grind arith),
        )
