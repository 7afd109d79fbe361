-- ===== src/Scheduler/Cancellation/Cancels.antt =====
-- scheduling/scheduler/src/cancellation_context.rs: over any rollbacks, a batch is canceled exactly by
-- those below its index that come after its context was the current one.
use vprogs.Base.{
  ℕ, ◌+◌, ◌<◌, ◌≤◌, ◌≡◌, ◌≢◌, ◌⊎◌, refl, sym, ap, ◌∙◌, inl, inr, List, [], ◌∷◌, Bool, true, ◌||◌,
  Option, some, arith, min, ltb, ◌==◌, Bool-cases, ==_ne, ==_refl, ==_iff,
}
use native.Mathlib.Nat.{le_refl}
use vprogs.Base.Order.{update}
use vprogs.Scheduler.Cancellation.{
  Contexts, new, max_threshold, rollback, rollbacks, is_canceled, any_below,
}
use vprogs.Scheduler.Cancellation.Chain.{
  Descends, Reaches, here, up, Skips, below, over, Reaches-agree, Skips-agree, walk, Untouched,
  Kept, Cut, walk-Skips, walk-Reaches,
}

-- What every context has: parents come first, and the current one is not canceled.
pub record Ordered (s : Contexts) : Type 0 where
  pub descends : Descends s.parent_context
  pub open_current : s.cancel_threshold s.current ≡ max_threshold

-- Where the rollbacks since `c` was current went as low as `lowest`.
abbrev pub Tracked : ℕ → ℕ → Contexts → Type 0
Tracked c lowest s =
    (c ≤ s.current)
    × ((s.cancel_threshold c ≡ lowest)
          × Reaches s.parent_context s.first_index s.cancel_threshold c s.current
        ⊎ (s.cancel_threshold c < s.first_index c)
          × (lowest < s.first_index c)
          × Skips s.parent_context c s.current)

new-Ordered : (first : ℕ) → Ordered (new first)
unfolding new
new-Ordered first = record { descends = λ x y e. absurd (cc e); open_current = refl }

update_other {ℓ} : {A : Type ℓ} (f : ℕ → A) (k : ℕ) (v : A) (i : ℕ) → i ≢ k → update f k v i ≡ f i
update_other f k v i h = rw (==_ne i k h)

update_same {ℓ} : {A : Type ℓ} (f : ℕ → A) (k : ℕ) (v : A) → update f k v k ≡ v
update_same f k v = rw (==_refl k)

module _ (held : ℕ → Bool) (index : ℕ) (s : Contexts) (o : Ordered s) where
  abbrev walked : (ℕ → ℕ) × Option ℕ
  walked =
      walk held s.parent_context s.first_index index (s.current + 1) s.current s.cancel_threshold

  rollback_lem : rollback held index s ≡ record {
    parent_context = update s.parent_context (s.current + 1) walked.1;
    first_index = update s.first_index (s.current + 1) index;
    cancel_threshold = update walked.0 (s.current + 1) max_threshold;
    current = s.current + 1;
  }
  unfolding rollback
  rollback_lem = refl

  found_bound : (z : ℕ) → walked.1 ≡ some z → z ≤ s.current
  found_bound z e =
      ((walk-Skips held s.parent_context s.first_index index o.descends (s.current + 1)
          (s.current + 1) s.current s.cancel_threshold (below (omega arith))).1
        z e).0

  pub rollback-Ordered : Ordered (rollback held index s)
  rollback-Ordered = rw rollback_lem (record {
    descends = λ x y e. elim (Bool-cases (x == s.current + 1)) [
      | inl new_one ↦
          omega (arith, found_bound y (rw new_one at e), (==_iff x (s.current + 1)).0 new_one)
      | inr old_one ↦ o.descends x y (rw old_one at e)
    ];
    open_current = update_same walked.0 (s.current + 1) max_threshold;
  })

  module _ (c lowest : ℕ) where
    ne_new : (x : ℕ) → x ≤ s.current → x ≢ s.current + 1
    ne_new x h q = omega arith

    still :
        (x : ℕ)
        → x < s.current + 1
        → update s.parent_context (s.current + 1) walked.1 x ≡ s.parent_context x
    still x h = update_other s.parent_context (s.current + 1) walked.1 x (λ q. omega arith)

    passes_new :
        c ≤ s.current
        → ((z : ℕ) → walked.1 ≡ some z → (z ≤ s.current) × Skips s.parent_context c z)
        → Skips (update s.parent_context (s.current + 1) walked.1) c (s.current + 1)
    passes_new h past = over (omega arith) λ y e.
        let f : walked.1 ≡ some y =
          sym (update_same s.parent_context (s.current + 1) walked.1) ∙ e in
        Skips-agree (s.current + 1) still o.descends (bound (past y f).0) (past y f).1
      where
        bound : {z : ℕ} → z ≤ s.current → z < s.current + 1
        bound l = omega arith

    pub rollback-Tracked :
        index ≤ max_threshold
        → ((p : ℕ) → c ≤ p → held p ≡ true)
        → Tracked c lowest s
        → Tracked c (min lowest index) (rollback held index s)
    rollback-Tracked h alive (b, inl (t, r)) = rw rollback_lem (
      omega arith,
      go (
          walk-Reaches held s.parent_context s.first_index index o.descends c (s.current + 1)
            s.current s.cancel_threshold alive (omega arith) (omega (arith, o.open_current)) r),
    )
      where
        next : Contexts
        next = record {
          parent_context = update s.parent_context (s.current + 1) walked.1;
          first_index = update s.first_index (s.current + 1) index;
          cancel_threshold = update walked.0 (s.current + 1) max_threshold;
          current = s.current + 1;
        }

        go :
            Kept held s.parent_context s.first_index index o.descends c s.cancel_threshold s.current
                walked
              ⊎ Cut held s.parent_context s.first_index index o.descends c s.current walked
            → (next.cancel_threshold c ≡ min lowest index)
                × Reaches next.parent_context next.first_index next.cancel_threshold c next.current
              ⊎ (next.cancel_threshold c < next.first_index c)
                × (min lowest index < next.first_index c)
                × Skips next.parent_context c next.current
        go (inl (k, z, f, l, first, at, reach)) = inl (
          update_other walked.0 (s.current + 1) max_threshold c (λ q. omega arith)
              ∙ k
              ∙ ap (λ (u : ℕ). min u index) t,
          up z (update_same s.parent_context (s.current + 1) walked.1 ∙ f) (omega arith)
              (omega (
                arith,
                update_other s.first_index (s.current + 1) index z (ne_new z l),
                update_same s.first_index (s.current + 1) index,
              ))
              (update_other walked.0 (s.current + 1) max_threshold z (ne_new z l)
                ∙ at
                ∙ sym (update_same s.first_index (s.current + 1) index))
              (Reaches-agree (s.current + 1) still
                (λ x m. update_other s.first_index (s.current + 1) index x (λ q. omega arith))
                (λ x m. update_other walked.0 (s.current + 1) max_threshold x (λ q. omega arith))
                (omega arith) reach),
        )
        go (inr (l, at, past)) = inr (
          omega (
            arith,
            update_other walked.0 (s.current + 1) max_threshold c (ne_new c b),
            at,
            l,
            update_other s.first_index (s.current + 1) index c (ne_new c b),
          ),
          omega (arith, l, update_other s.first_index (s.current + 1) index c (ne_new c b)),
          passes_new b past,
        )
    rollback-Tracked h alive (b, inr (t, l, r)) =
        let kept : Untouched held s.parent_context s.first_index index o.descends c
            s.cancel_threshold s.current walked =
          walk-Skips held s.parent_context s.first_index index o.descends c (s.current + 1)
            s.current s.cancel_threshold r in
        rw rollback_lem (
          omega arith,
          inr (
            omega (
              arith,
              update_other walked.0 (s.current + 1) max_threshold c (ne_new c b),
              kept.0,
              t,
              update_other s.first_index (s.current + 1) index c (ne_new c b),
            ),
            omega (arith, l, update_other s.first_index (s.current + 1) index c (ne_new c b)),
            passes_new b kept.1,
          ),
        )

-- Every context from `c` on is held when a rollback reads it, and the targets are u64.
abbrev pub Alive : ℕ → List ((ℕ → Bool) × ℕ) → Type 0
Alive c [] = Unit
Alive c ((held, index) ∷ rest) =
    ((index ≤ max_threshold) × ((p : ℕ) → c ≤ p → held p ≡ true)) × Alive c rest

abbrev pub lowest_of : ℕ → List ((ℕ → Bool) × ℕ) → ℕ
lowest_of lowest [] = lowest
lowest_of lowest ((held, index) ∷ rest) = lowest_of (min lowest index) rest

rollbacks-Ordered :
    (steps : List ((ℕ → Bool) × ℕ)) (s : Contexts) → Ordered s → Ordered (rollbacks steps s)
rollbacks-Ordered [] s o = o
rollbacks-Ordered ((held, index) ∷ rest) s o =
    rollbacks-Ordered rest (rollback held index s) (rollback-Ordered held index s o)

rollbacks-Tracked :
    (steps : List ((ℕ → Bool) × ℕ)) (s : Contexts) (c lowest : ℕ)
    → Ordered s
    → Alive c steps
    → Tracked c lowest s
    → Tracked c (lowest_of lowest steps) (rollbacks steps s)
rollbacks-Tracked [] s c lowest o a t = t
rollbacks-Tracked ((held, index) ∷ rest) s c lowest o a t =
    rollbacks-Tracked rest (rollback held index s) c (min lowest index)
      (rollback-Ordered held index s o) a.1 (rollback-Tracked held index s o c lowest a.0.0 a.0.1 t)

lowest_below :
    (steps : List ((ℕ → Bool) × ℕ)) (lowest i : ℕ)
    → ltb (lowest_of lowest steps) i ≡ (ltb lowest i || any_below i steps)
lowest_below [] lowest i = ground arith
lowest_below ((held, index) ∷ rest) lowest i =
    ground (arith, lowest_below rest (min lowest index) i)

first_kept :
    (steps : List ((ℕ → Bool) × ℕ)) (s : Contexts) (c : ℕ)
    → c ≤ s.current
    → (rollbacks steps s).first_index c ≡ s.first_index c
unfolding rollback
first_kept [] s c h = refl
first_kept ((held, index) ∷ rest) s c h =
    first_kept rest (rollback held index s) c (omega arith)
    ∙ update_other s.first_index (s.current + 1) index c (λ q. omega arith)

same_test :
    (threshold lowest i top : ℕ) (any : Bool)
    → i ≤ top
    → ltb lowest i ≡ (ltb top i || any)
    → (threshold ≡ lowest) ⊎ (threshold < i) × (lowest < i)
    → ltb threshold i ≡ any
same_test threshold lowest i top any h e c = ground arith

-- After any rollbacks, a batch whose context was current at some time, and whose index is not
-- below the first index of the context, is canceled exactly where one of the rollbacks since then
-- had a target below the index. The later targets are u64, and at each later rollback every
-- context from that one on is still held.
pub canceled_by_lower :
    (first : ℕ) (earlier later : List ((ℕ → Bool) × ℕ)) (i : ℕ)
    → Alive (rollbacks earlier (new first)).current later
    → (rollbacks earlier (new first)).first_index (rollbacks earlier (new first)).current ≤ i
    → i ≤ max_threshold
    → is_canceled
        (rollbacks later (rollbacks earlier (new first)))
        (rollbacks earlier (new first)).current
        i
      ≡ any_below i later
canceled_by_lower first earlier later i a f m =
    same_test _ (lowest_of max_threshold later) i max_threshold (any_below i later) m
      (lowest_below later max_threshold i) (go tracked.1)
  where
    s : Contexts
    s = rollbacks earlier (new first)

    ordered : Ordered s
    ordered = rollbacks-Ordered earlier (new first) (new-Ordered first)

    tracked : Tracked s.current (lowest_of max_threshold later) (rollbacks later s)
    tracked =
        rollbacks-Tracked later s s.current max_threshold ordered a
          (le_refl s.current, inl (ordered.open_current, here))

    first_stays : (rollbacks later s).first_index s.current ≡ s.first_index s.current
    first_stays = first_kept later s s.current (le_refl s.current)

    go :
        ((rollbacks later s).cancel_threshold s.current ≡ lowest_of max_threshold later)
            × Reaches
                (rollbacks later s).parent_context
                (rollbacks later s).first_index
                (rollbacks later s).cancel_threshold
                s.current
                (rollbacks later s).current
          ⊎ ((rollbacks later s).cancel_threshold s.current
              < (rollbacks later s).first_index s.current)
            × (lowest_of max_threshold later < (rollbacks later s).first_index s.current)
            × Skips (rollbacks later s).parent_context s.current (rollbacks later s).current
        → ((rollbacks later s).cancel_threshold s.current ≡ lowest_of max_threshold later)
          ⊎ ((rollbacks later s).cancel_threshold s.current < i)
            × (lowest_of max_threshold later < i)
    go (inl (t, r)) = inl t
    go (inr (t, l, r)) = inr (omega (arith, first_stays), omega (arith, first_stays))
