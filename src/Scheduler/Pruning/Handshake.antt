-- ===== src/Scheduler/Pruning/Handshake.antt =====
-- The safety of the handshake of scheduling/scheduler/src/pruning_worker.rs.
use vprogs.Base.{
  ℕ, ◌+◌, ◌-◌, ◌≤◌, ◌<◌, min, max, ◌≡◌, refl, ◌∙◌, inl, inr, ◌&&◌, List, [], ◌∷◌, arith, ltb, leb,
  ◌==◌, Bool-cases,
}
use vprogs.Scheduler.Pruning.{
  Worker, Pauser, Shared, Act, idle, rooted, bounded, passing, pruning, checking, restoring,
  running, refused, stored, paused, works, pauses, sets_threshold, schedules, work_at, pause_at,
  new, work, pause, set_threshold, first_batch, act, interleave,
}

-- Between which bounds the worker's reads lie.
abbrev Steady : ℕ → ℕ → Worker → Type 0
Steady deleted cursor idle = Unit
Steady deleted cursor (rooted lower) = 0 < lower → deleted < lower
Steady deleted cursor (bounded lower threshold) = 0 < lower → deleted < lower
Steady deleted cursor (passing lower upper) = (deleted < lower) × (lower ≤ upper)
Steady deleted cursor (checking lower upper prev) =
    (deleted < lower) × (lower ≤ upper) × (deleted ≤ prev) × (cursor ≡ upper)
Steady deleted cursor (restoring prev) = deleted ≤ prev
Steady deleted cursor (pruning lower upper) = (deleted < lower) × (lower ≤ upper) × (cursor ≡ upper)

-- What a pass that has passed its check may delete.
abbrev Reach : ℕ → Worker → Type 0
Reach c idle = Unit
Reach c (rooted lower) = Unit
Reach c (bounded lower threshold) = Unit
Reach c (passing lower upper) = Unit
Reach c (checking lower upper prev) = Unit
Reach c (restoring prev) = Unit
Reach c (pruning lower upper) = upper ≤ c

abbrev Guarded : Shared → Pauser → Type 0
Guarded s running = Unit
Guarded s refused = Unit
Guarded s (stored c) = s.pause_ceiling ≡ c
Guarded s (paused c) = (s.pause_ceiling ≡ c) × (s.deleted ≤ c) × Reach c s.worker

record Safe (s : Shared) : Type 0 where
  behind : s.deleted ≤ s.pruning_cursor
  below : 0 < s.root → s.deleted < s.root
  none : s.root ≡ 0 → s.deleted ≡ 0
  steady : Steady s.deleted s.pruning_cursor s.worker
  guarded : Guarded s s.pauser

new-Safe : (root : ℕ) → Safe (new root)
unfolding new
new-Safe root = record {
  behind = omega arith;
  below = λ p. omega arith;
  none = λ p. omega arith;
  steady = tt;
  guarded = tt;
}

reguard :
    (s t : Shared) (p : Pauser)
    → t.pause_ceiling ≡ s.pause_ceiling
    → ((c : ℕ)
        → s.pause_ceiling ≡ c
        → s.deleted ≤ c
        → Reach c s.worker
        → (t.deleted ≤ c) × Reach c t.worker)
    → Guarded s p
    → Guarded t p
reguard s t running e h g = tt
reguard s t refused e h g = tt
reguard s t (stored c) e h g = e ∙ g
reguard s t (paused c) e h (a, b, r) = let q = h c a b r in (e ∙ a, q.0, q.1)

-- The worker's next access keeps the handshake safe.
work_at-Safe : (w : Worker) (s : Shared) → s.worker ≡ w → Safe s → Safe (work_at w s)
work_at-Safe idle s e v = record {
  behind = v.behind;
  below = v.below;
  none = v.none;
  steady = v.below;
  guarded =
      reguard s (record s { worker = rooted s.root }) s.pauser refl (λ c a b r. (b, tt)) v.guarded;
}
work_at-Safe (rooted lower) s e v = record {
  behind = v.behind;
  below = v.below;
  none = v.none;
  steady = rw e at v.steady;
  guarded =
      reguard s (record s { worker = bounded lower s.pruning_threshold }) s.pauser refl
        (λ c a b r. (b, tt)) v.guarded;
}
work_at-Safe (bounded lower threshold) s e v =
    let upper : ℕ = min threshold s.pause_ceiling - 1 in
    let old : (0 < lower → s.deleted < lower) = rw e at v.steady in
    elim (Bool-cases (leb lower upper && ltb 0 lower)) [
      | inl go ↦ rw go (record {
        behind = v.behind;
        below = v.below;
        none = v.none;
        steady = (old (ground arith), ground arith);
        guarded =
            reguard s (record s { worker = passing lower upper }) s.pauser refl (λ c a b r. (b, tt))
              v.guarded;
      })
      | inr wait ↦ rw wait (record {
        behind = v.behind;
        below = v.below;
        none = v.none;
        steady = tt;
        guarded =
            reguard s (record s { worker = idle }) s.pauser refl (λ c a b r. (b, tt)) v.guarded;
      })
    ]
work_at-Safe (passing lower upper) s e v =
    let old : (s.deleted < lower) × (lower ≤ upper) = rw e at v.steady in
    record {
      behind = omega arith;
      below = v.below;
      none = v.none;
      steady = (old.0, old.1, v.behind, refl);
      guarded =
          reguard s
            (record s { pruning_cursor = upper; worker = checking lower upper s.pruning_cursor })
            s.pauser refl (λ c a b r. (b, tt)) v.guarded;
    }
work_at-Safe (checking lower upper prev) s e v =
    let old : (s.deleted < lower)
        × (lower ≤ upper)
        × (s.deleted ≤ prev)
        × (s.pruning_cursor ≡ upper) =
      rw e at v.steady in
    elim (Bool-cases (leb s.pause_ceiling upper)) [
      | inl abort ↦ rw abort (record {
        behind = v.behind;
        below = v.below;
        none = v.none;
        steady = old.2;
        guarded =
            reguard s (record s { worker = restoring prev }) s.pauser refl (λ c a b r. (b, tt))
              v.guarded;
      })
      | inr go ↦ rw go (record {
        behind = v.behind;
        below = v.below;
        none = v.none;
        steady = (old.0, old.1, old.3);
        guarded =
            reguard s (record s { worker = pruning lower upper }) s.pauser refl
              (λ c a b r. (b, ground arith)) v.guarded;
      })
    ]
work_at-Safe (restoring prev) s e v =
    let old : s.deleted ≤ prev = rw e at v.steady in
    record {
      behind = old;
      below = v.below;
      none = v.none;
      steady = tt;
      guarded =
          reguard s (record s { pruning_cursor = prev; worker = idle }) s.pauser refl
            (λ c a b r. (b, tt)) v.guarded;
    }
work_at-Safe (pruning lower upper) s e v =
    let old : (s.deleted < lower) × (lower ≤ upper) × (s.pruning_cursor ≡ upper) =
      rw e at v.steady in
    record {
      behind = omega arith;
      below = λ p. omega arith;
      none = λ p. absurd (omega arith);
      steady = tt;
      guarded =
          reguard s (record s { root = upper + 1; deleted = upper; worker = idle }) s.pauser refl
            (λ c a b r. (rw e at r, tt)) v.guarded;
    }

-- What an access of `pause` reads of a worker in its pass.
reaches : (w : Worker) (d cursor c : ℕ) → Steady d cursor w → cursor ≤ c → Reach c w
reaches idle d cursor c v h = tt
reaches (rooted lower) d cursor c v h = tt
reaches (bounded lower threshold) d cursor c v h = tt
reaches (passing lower upper) d cursor c v h = tt
reaches (checking lower upper prev) d cursor c v h = tt
reaches (restoring prev) d cursor c v h = tt
reaches (pruning lower upper) d cursor c v h = omega (arith, v.2)

pause_at-Safe :
    (p : Pauser) (ceiling : ℕ) (s : Shared) → s.pauser ≡ p → Safe s → Safe (pause_at p ceiling s)
pause_at-Safe running ceiling s e v = record {
  behind = v.behind;
  below = v.below;
  none = v.none;
  steady = v.steady;
  guarded = refl;
}
pause_at-Safe (stored c) ceiling s e v =
    let ceil : s.pause_ceiling ≡ c = rw e at v.guarded in
    elim (Bool-cases (leb s.pruning_cursor c)) [
      | inl clear ↦ rw clear (record {
        behind = v.behind;
        below = v.below;
        none = v.none;
        steady = v.steady;
        guarded = (
          ceil,
          ground (arith, v.behind),
          reaches s.worker s.deleted s.pruning_cursor c v.steady (ground arith),
        );
      })
      | inr passed ↦ rw passed (record {
        behind = v.behind;
        below = v.below;
        none = v.none;
        steady = v.steady;
        guarded = tt;
      })
    ]
pause_at-Safe refused ceiling s e v = record {
  behind = v.behind;
  below = v.below;
  none = v.none;
  steady = v.steady;
  guarded = tt;
}
pause_at-Safe (paused c) ceiling s e v = record {
  behind = v.behind;
  below = v.below;
  none = v.none;
  steady = v.steady;
  guarded = tt;
}

act-Safe : (a : Act) (s : Shared) → Safe s → Safe (act a s)
unfolding act work pause set_threshold first_batch
act-Safe works s v = work_at-Safe s.worker s refl v
act-Safe (pauses ceiling) s v = pause_at-Safe s.pauser ceiling s refl v
act-Safe (sets_threshold threshold) s v = record {
  behind = v.behind;
  below = v.below;
  none = v.none;
  steady = v.steady;
  guarded =
      reguard s (record s { pruning_threshold = max s.pruning_threshold threshold }) s.pauser refl
        (λ c a b r. (b, r)) v.guarded;
}
act-Safe (schedules id) s v = elim (Bool-cases (s.root == 0)) [
  | inl fresh ↦ rw fresh (record {
    behind = v.behind;
    below = λ p. omega (arith, v.none (ground arith));
    none = λ p. v.none (ground arith);
    steady = v.steady;
    guarded = reguard s (record s { root = id }) s.pauser refl (λ c a b r. (b, r)) v.guarded;
  })
  | inr started ↦ rw started v
]

interleave-Safe : (acts : List Act) (s : Shared) → Safe s → Safe (interleave acts s)
unfolding interleave
interleave-Safe [] s v = v
interleave-Safe (a ∷ acts) s v = interleave-Safe acts (act a s) (act-Safe a s v)

-- In every interleaving of the accesses of the pruning worker, of pauses and of raised thresholds,
-- from a fresh worker over any root, no index above the ceiling has been deleted while a pause
-- with that ceiling stands.
pub pause_protects :
    (root : ℕ) (acts : List Act) (ceiling : ℕ)
    → (interleave acts (new root)).pauser ≡ paused ceiling
    → (interleave acts (new root)).deleted ≤ ceiling
pause_protects root acts ceiling e =
    (rw e at (interleave-Safe acts (new root) (new-Safe root)).guarded).1
