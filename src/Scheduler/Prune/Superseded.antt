-- ===== src/Scheduler/Prune/Superseded.antt =====
-- The versions that the rollback pointers of scheduling/scheduler/src name are superseded by the
-- batches that recorded them.
use vprogs.Base.{
  ℕ, ◌≤◌, ◌<◌, ◌≡◌, ◌⊎◌, refl, ◌∙◌, sym, ap, subst, inl, inr, true, false, List, [], ◌∷◌, Option,
  some, arith, ltb, ◌==◌, ==_refl, Bool-cases,
}
use mathlib.Core.Option.{some-injective}
use vprogs.Base.Order.{update}
use vprogs.State.{StateVersion, Store, is_empty, put_entry, rollback_version}
use vprogs.Scheduler.{StateDiff, TreeHasher, data_updated}
use vprogs.Scheduler.Batches.{latest_of, pointed, recorded, touched, Fit}
use vprogs.Scheduler.Writes.{latest-land}
use vprogs.Scheduler.History.{Landed, number, run, Below, contains, History}

-- Each old version lies below the batch, and the resource's latest version, if any, does not.
abbrev pub Superseded : (ℕ → Option ℕ) → ℕ → List (ℕ × ℕ) → Type 0
Superseded latest index [] = Unit
Superseded latest index ((k, old) ∷ entries) =
    ((old < index) × ((v : ℕ) → latest k ≡ some v → index ≤ v)) × Superseded latest index entries

put_entry-Superseded :
    (latest : ℕ → Option ℕ) (index k old : ℕ) (entries : List (ℕ × ℕ))
    → old < index
    → ((v : ℕ) → latest k ≡ some v → index ≤ v)
    → Superseded latest index entries
    → Superseded latest index (put_entry k old entries)
unfolding put_entry
put_entry-Superseded latest index k old [] h g s = ((h, g), tt)
put_entry-Superseded latest index k old ((a, w) ∷ entries) h g s = elim (Bool-cases (k == a)) [
  | inl same ↦ rw same ((h, g), s.1)
  | inr other ↦ elim (Bool-cases (ltb k a)) [
    | inl less ↦ rw (other, less) ((h, g), s)
    | inr more ↦ rw (other, more) (s.0, put_entry-Superseded latest index k old entries h g s.1)
  ]
]

latest_of_lem : (w : StateVersion) (v : ℕ) → latest_of w ≡ some v → w.version ≡ v
latest_of_lem w v e = elim (Bool-cases (is_empty w.bytes)) [
  | inl gone ↦ cc (rw gone at e)
  | inr kept ↦ some-injective w.version v (rw kept at e)
]

-- A latest pointer after a batch is the earlier one or the batch's index.
pointed_cases :
    (latest : ℕ → Option ℕ) (index : ℕ) (ds : List StateDiff) (f : ℕ → Option ℕ) (r v : ℕ)
    → Fit latest index ds
    → pointed ds f r ≡ some v
    → (f r ≡ some v) ⊎ (v ≡ index)
pointed_cases latest index [] f r v h e = inl e
pointed_cases latest index (d ∷ ds) f r v (a, b, c, w, h) e = elim (Bool-cases (data_updated d)) [
  | inl new ↦
      elim (pointed_cases latest index ds
        (update f d.written_state.resource_id (latest_of d.written_state)) r v h (rw new at e)) [
          | inr q ↦ inr q
          | inl q ↦ elim (Bool-cases (r == d.written_state.resource_id)) [
            | inl here ↦ inr (sym (latest_of_lem d.written_state v (rw here at q)) ∙ w new)
            | inr there ↦ inl (rw there at q)
          ]
        ]
  | inr same ↦ pointed_cases latest index ds f r v h (rw same at e)
]

pointed-touched :
    (latest : ℕ → Option ℕ) (index : ℕ) (ds : List StateDiff) (f : ℕ → Option ℕ) (r v : ℕ)
    → Fit latest index ds
    → touched ds r ≡ true
    → pointed ds f r ≡ some v
    → v ≡ index
pointed-touched latest index [] f r v h t e = absurd (ground arith)
pointed-touched latest index (d ∷ ds) f r v (a, b, c, w, h) t e = elim (Bool-cases (touched ds r)) [
  | inl later ↦ pointed-touched latest index ds _ r v h later e
  | inr last ↦
      let new : data_updated d ≡ true = ground arith in
      let here : (r == d.resource_id) ≡ true = ground arith in
      elim (pointed_cases latest index ds
        (update f d.written_state.resource_id (latest_of d.written_state)) r v h (rw new at e)) [
          | inr q ↦ q
          | inl q ↦ sym (latest_of_lem d.written_state v (rw (b, here) at q)) ∙ w new
        ]
]

recorded-Superseded :
    (latest after : ℕ → Option ℕ) (index : ℕ) (ds : List StateDiff) (entries : List (ℕ × ℕ))
    → 0 < index
    → ((r v : ℕ) → latest r ≡ some v → v < index)
    → ((r v : ℕ) → touched ds r ≡ true → after r ≡ some v → index ≤ v)
    → Fit latest index ds
    → Superseded after index entries
    → Superseded after index (recorded ds entries)
recorded-Superseded latest after index [] entries p old t h s = s
recorded-Superseded latest after index (d ∷ ds) entries p old t (a, b, c, w, h) s =
    elim (Bool-cases (data_updated d)) [
      | inl new ↦ rw new (
          recorded-Superseded latest after index ds
            (put_entry d.read_state.resource_id (rollback_version d.read_state) entries) p old
            (λ r v u. t r v (rw u (ground arith))) h
            (put_entry-Superseded after index d.read_state.resource_id
              (rollback_version d.read_state) entries
              (earlier (Bool-cases (rollback_version d.read_state == 0)))
              (λ v e.
                t d.resource_id v (rw (new, ==_refl d.resource_id) refl) (ap after (sym a) ∙ e))
              s))
      | inr same ↦ rw same (
          recorded-Superseded latest after index ds entries p old
            (λ r v u. t r v (rw u (ground arith))) h s)
    ]
  where
    earlier :
        ((rollback_version d.read_state == 0) ≡ true)
          ⊎ ((rollback_version d.read_state == 0) ≡ false)
        → rollback_version d.read_state < index
    earlier (inl none_before) = ground arith
    earlier (inr some_before) =
        old d.resource_id (rollback_version d.read_state) (sym c ∙ rw some_before refl)

agree-Superseded :
    (f g : ℕ → Option ℕ) (index : ℕ) (entries : List (ℕ × ℕ))
    → ((k v : ℕ) → g k ≡ some v → (f k ≡ some v) ⊎ (index ≤ v))
    → Superseded f index entries
    → Superseded g index entries
agree-Superseded f g index [] h s = tt
agree-Superseded f g index ((k, old) ∷ entries) h s = (
  (s.0.0, λ v e. elim (h k v e) [ inl before ↦ s.0.1 v before | inr after ↦ after ]),
  agree-Superseded f g index entries h s.1,
)

module _ {M : Type 0} (h : TreeHasher) (target : ℕ) (s : Store M)
    (old : (id v : ℕ) → s.latest id ≡ some v → v ≤ target) where
  -- A latest version after a history is an earlier one or the index of one of its batches.
  pub latest-run :
      (xs : List (Landed M)) (r v : ℕ)
      → History h target s xs
      → (run h xs s).latest r ≡ some v
      → (v ≤ target) ⊎ (contains xs v ≡ true)
  unfolding run
  latest-run [] r v w e = inl (old r v e)
  latest-run ((st, b) ∷ xs) r v (live, fresh, p, q, k, fit, w) e =
      elim (pointed_cases (run h xs s).latest b.checkpoint.index b.state_diffs (run h xs s).latest r
        v fit
        (sym (ap (λ (f : ℕ → Option ℕ). f r) (latest-land h st b live fresh (run h xs s))) ∙ e)) [
          | inr here ↦ inr (rw here (rw (==_refl b.checkpoint.index) refl))
          | inl before ↦ elim (latest-run xs r v w before) [
            | inl low ↦ inl low
            | inr within ↦ inr (ground (arith, within))
          ]
        ]

  contains_bound : (n i : ℕ) (xs : List (Landed M)) → Below n xs → contains xs i ≡ true → i < n
  contains_bound n i [] b e = absurd (ground arith)
  contains_bound n i (x ∷ xs) b e = elim (Bool-cases (i == number x)) [
    | inl here ↦ ground (arith, b.0)
    | inr there ↦ contains_bound n i xs b.1 (rw there at e)
  ]

  abbrev pub AllSuperseded : (ℕ → Option ℕ) → List (Landed M) → Type 0
  AllSuperseded latest [] = Unit
  AllSuperseded latest (x ∷ xs) =
      Superseded latest (number x) (recorded x.1.state_diffs []) × AllSuperseded latest xs

  agree-AllSuperseded :
      (f g : ℕ → Option ℕ) (n : ℕ) (xs : List (Landed M))
      → Below n xs
      → ((k v : ℕ) → g k ≡ some v → (f k ≡ some v) ⊎ (v ≡ n))
      → AllSuperseded f xs
      → AllSuperseded g xs
  agree-AllSuperseded f g n [] b e a = tt
  agree-AllSuperseded f g n (x ∷ xs) b e a = (
    agree-Superseded f g (number x) (recorded x.1.state_diffs [])
        (λ k v u. elim (e k v u) [ inl before ↦ inl before | inr after ↦ inr (omega (arith, b.0)) ])
        a.0,
    agree-AllSuperseded f g n xs b.1 e a.1,
  )

  pub run-AllSuperseded :
      (xs : List (Landed M)) → History h target s xs → AllSuperseded (run h xs s).latest xs
  unfolding run
  run-AllSuperseded [] w = tt
  run-AllSuperseded ((st, b) ∷ xs) (live, fresh, p, q, k, fit, w) =
      subst (λ (f : ℕ → Option ℕ). AllSuperseded f ((st, b) ∷ xs))
        (sym (latest-land h st b live fresh (run h xs s)))
        (
          recorded-Superseded (run h xs s).latest (pointed b.state_diffs (run h xs s).latest)
              b.checkpoint.index b.state_diffs [] (omega arith)
              (λ r v e. elim (latest-run xs r v w e) [
                | inl low ↦ omega arith
                | inr within ↦ contains_bound b.checkpoint.index v xs q within
              ])
              (λ r v t e. omega (
                arith,
                pointed-touched (run h xs s).latest b.checkpoint.index b.state_diffs
                    (run h xs s).latest r v fit t e,
              ))
              fit tt,
          agree-AllSuperseded (run h xs s).latest (pointed b.state_diffs (run h xs s).latest)
              b.checkpoint.index xs q
              (λ r v e.
                pointed_cases (run h xs s).latest b.checkpoint.index b.state_diffs
                  (run h xs s).latest r v fit e)
              (run-AllSuperseded xs w),
        )
