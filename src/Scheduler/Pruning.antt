-- ===== src/Scheduler/Pruning.antt =====
-- The handshake of scheduling/scheduler/src/pruning_worker.rs between the worker's loop and `pause`.
--
-- One step is one access to a shared atomic, and the steps of the two threads interleave in one
-- order. `deleted` is the highest index whose data a pass has deleted; it is the model's own. The
-- reset of the root by a rollback to genesis and the shutdown are left out.
pub mod Handshake
use vprogs.Base.{
  ℕ, zero, suc, ◌+◌, ◌-◌, ◌*◌, ◌^◌, ◌≤◌, ◌<◌, min, max, ◌≡◌, refl, Bool, true, false, ◌&&◌, List,
  [], ◌∷◌, arith, ltb, leb, ◌==◌, if◌then◌else◌,
}

-- `u64::MAX`
abbrev pub unconstrained : ℕ
unconstrained = 2 ^ 64 - 1

-- Where the worker's loop stands, with what it has read so far.
pub data Worker : Type 0 where
  idle : Worker
  rooted : ℕ → Worker
  bounded passing pruning : ℕ → ℕ → Worker
  checking : ℕ → ℕ → ℕ → Worker
  restoring : ℕ → Worker

-- Where the scheduler's thread stands in `pause`, with the ceiling.
pub data Pauser : Type 0 where
  running refused : Pauser
  stored paused : ℕ → Pauser

pub record Shared : Type 0 where
  pub pruning_threshold : ℕ
  pub pause_ceiling : ℕ
  pub pruning_cursor : ℕ
  pub root : ℕ
  pub deleted : ℕ
  pub worker : Worker
  pub pauser : Pauser

-- `new` over a persisted root: what lies below it is deleted.
unfoldable pub new : ℕ → Shared
new root = record {
  pruning_threshold = root;
  pause_ceiling = unconstrained;
  pruning_cursor = root - 1;
  root = root;
  deleted = root - 1;
  worker = idle;
  pauser = running;
}

-- One access of the worker's loop.
abbrev pub work_at : Worker → Shared → Shared
work_at idle s = record s { worker = rooted s.root }
work_at (rooted lower) s = record s { worker = bounded lower s.pruning_threshold }
work_at (bounded lower threshold) s =
    let upper = min threshold s.pause_ceiling - 1 in
    record s { worker = if leb lower upper && ltb 0 lower then passing lower upper else idle }
work_at (passing lower upper) s = record s {
  pruning_cursor = upper;
  worker = checking lower upper s.pruning_cursor;
}
work_at (checking lower upper prev) s = record s {
  worker = if leb s.pause_ceiling upper then restoring prev else pruning lower upper;
}
work_at (restoring prev) s = record s { pruning_cursor = prev; worker = idle }
work_at (pruning lower upper) s = record s { root = upper + 1; deleted = upper; worker = idle }

unfoldable pub work : Shared → Shared
work s = work_at s.worker s

-- One access of `pause` and of `unpause`.
abbrev pub pause_at : Pauser → ℕ → Shared → Shared
pause_at running ceiling s = record s { pause_ceiling = ceiling; pauser = stored ceiling }
pause_at (stored c) ceiling s = record s {
  pauser = if leb s.pruning_cursor c then paused c else refused;
}
pause_at refused ceiling s = record s { pause_ceiling = unconstrained; pauser = running }
pause_at (paused c) ceiling s = record s { pause_ceiling = unconstrained; pauser = running }

unfoldable pub pause : ℕ → Shared → Shared
pause ceiling s = pause_at s.pauser ceiling s

unfoldable pub set_threshold : ℕ → Shared → Shared
set_threshold threshold s = record s { pruning_threshold = max s.pruning_threshold threshold }

-- The scheduler's first batch on a fresh database sets the root.
unfoldable pub first_batch : ℕ → Shared → Shared
first_batch id s = if s.root == 0 then record s { root = id } else s

-- What either thread does next.
pub data Act : Type 0 where
  works : Act
  pauses sets_threshold schedules : ℕ → Act

unfoldable pub act : Act → Shared → Shared
act works s = work s
act (pauses ceiling) s = pause ceiling s
act (sets_threshold threshold) s = set_threshold threshold s
act (schedules id) s = first_batch id s

unfoldable pub interleave : List Act → Shared → Shared
interleave [] s = s
interleave (a ∷ acts) s = interleave acts (act a s)
