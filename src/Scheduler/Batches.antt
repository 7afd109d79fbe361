-- ===== src/Scheduler/Batches.antt =====
-- What the writes of a batch of scheduling/scheduler/src leave in the store.
use vprogs.Base.{
  ℕ, ◌≡◌, refl, ◌∙◌, sym, ap, inl, inr, Bool, true, false, ◌&&◌, ◌||◌, List, [], ◌∷◌, Option, none,
  some, arith, ◌==◌, ==_iff, Bool-cases, if◌then◌else◌,
}
use vprogs.Base.Order.{update}
use vprogs.State.{StateVersion, is_empty, put_entry, rollback_version}
use vprogs.State.Pointers.{pointer, restored, SortedFrom, restored-put_entry, SortedFrom-put_entry}
use vprogs.Scheduler.{StateDiff, data_updated}

-- The latest pointer of a state: none where it is empty.
abbrev pub latest_of : StateVersion → Option ℕ
latest_of v = if is_empty v.bytes then none else some v.version

abbrev pub pointed : List StateDiff → (ℕ → Option ℕ) → ℕ → Option ℕ
pointed [] f = f
pointed (d ∷ ds) f =
    pointed ds (
      if data_updated d
      then update f d.written_state.resource_id (latest_of d.written_state)
      else f)

abbrev pub recorded : List StateDiff → List (ℕ × ℕ) → List (ℕ × ℕ)
recorded [] entries = entries
recorded (d ∷ ds) entries = recorded ds (
    if data_updated d
    then put_entry d.read_state.resource_id (rollback_version d.read_state) entries
    else entries)

-- A batch changes the resource.
abbrev pub touched : List StateDiff → ℕ → Bool
touched [] r = false
touched (d ∷ ds) r = (data_updated d && r == d.resource_id) || touched ds r

-- The diffs of batch `index` are of their own resource, read the store's latest version, and
-- write the batch's version where they advance.
abbrev pub Fit : (ℕ → Option ℕ) → ℕ → List StateDiff → Type 0
Fit latest index [] = Unit
Fit latest index (d ∷ ds) =
    (d.read_state.resource_id ≡ d.resource_id)
    × (d.written_state.resource_id ≡ d.resource_id)
    × (pointer (rollback_version d.read_state) ≡ latest d.resource_id)
    × (data_updated d ≡ true → d.written_state.version ≡ index)
    × Fit latest index ds

pointed_untouched :
    (latest : ℕ → Option ℕ) (index : ℕ) (ds : List StateDiff) (f : ℕ → Option ℕ) (r : ℕ)
    → Fit latest index ds
    → touched ds r ≡ false
    → pointed ds f r ≡ f r
pointed_untouched latest index [] f r h t = refl
pointed_untouched latest index (d ∷ ds) f r (a, b, c, v, h) t = elim (Bool-cases (data_updated d)) [
  | inl new ↦
      rw (new, b)
        (pointed_untouched latest index ds (update f d.resource_id (latest_of d.written_state)) r h
            (ground arith)
          ∙ (let other : (r == d.resource_id) ≡ false = ground arith in rw other refl))
  | inr same ↦ rw same (pointed_untouched latest index ds f r h (ground arith))
]

-- Restoring the recorded pointers brings the latest pointers back that the batch read.
pub restored-recorded :
    (latest : ℕ → Option ℕ) (index : ℕ) (ds : List StateDiff) (entries : List (ℕ × ℕ))
    (f : ℕ → Option ℕ)
    → SortedFrom 0 entries
    → Fit latest index ds
    → ((r : ℕ) → touched ds r ≡ false → restored entries f r ≡ latest r)
    → (r : ℕ) → restored (recorded ds entries) f r ≡ latest r
restored-recorded latest index [] entries f s h t r = t r refl
restored-recorded latest index (d ∷ ds) entries f s (a, b, c, v, h) t r =
    elim (Bool-cases (data_updated d)) [
      | inl new ↦
          let k = d.read_state.resource_id in
          let old = rollback_version d.read_state in
          rw new (
            restored-recorded latest index ds (put_entry k old entries) f
              (SortedFrom-put_entry entries 0 k old (omega arith) s) h
              (λ q u. restored-put_entry entries 0 f k old s q ∙ rereads q u new) r)
      | inr same ↦
          rw same
            (restored-recorded latest index ds entries f s h (λ q u. t q (rw (same, u) refl)) r)
    ]
  where
    rereads :
        (q : ℕ)
        → touched ds q ≡ false
        → data_updated d ≡ true
        → (if q == d.read_state.resource_id
            then pointer (rollback_version d.read_state)
            else restored entries f q)
          ≡ latest q
    rereads q u new = elim (Bool-cases (q == d.resource_id)) [
      | inl here ↦ rw (a, here) (c ∙ ap latest (sym ((==_iff q d.resource_id).0 here)))
      | inr there ↦ rw (a, there) (t q (rw (new, there, u) refl))
    ]

-- The pointers that a batch recorded undo its latest pointers.
pub reverts_pointed :
    (latest : ℕ → Option ℕ) (index : ℕ) (ds : List StateDiff) (r : ℕ)
    → Fit latest index ds
    → restored (recorded ds []) (pointed ds latest) r ≡ latest r
reverts_pointed latest index ds r h =
    restored-recorded latest index ds [] (pointed ds latest) tt h
      (λ q u. pointed_untouched latest index ds latest q h u) r
