-- ===== src/Scheduler/Cancellation.antt =====
-- scheduling/scheduler/src/cancellation_context.rs: the chain of contexts by which a batch in flight
-- learns that a rollback has canceled it.
--
-- Each rollback makes one context, which is the current one from then on: a context is its number
-- in that order. What a context keeps for good (its parent and first index) and its threshold, which
-- rollbacks lower, are functions of the number. A parent is a weak reference: `held` says which
-- contexts some batch or the scheduler still holds when the rollback reads them. `wait_canceled`
-- resolves once `is_canceled` holds.
pub mod Chain
pub mod Cancels
use vprogs.Base.{
  ℕ, zero, suc, ◌+◌, ◌-◌, ◌^◌, ◌*◌, List, [], ◌∷◌, Bool, true, false, ◌||◌, Option, none, some, ltb,
  leb, if◌then◌else◌,
}
use vprogs.Base.Order.{update}

-- `u64::MAX`
abbrev pub max_threshold : ℕ
max_threshold = 2 ^ 64 - 1

pub record Contexts : Type 0 where
  pub parent_context : ℕ → Option ℕ
  pub first_index : ℕ → ℕ
  pub cancel_threshold : ℕ → ℕ
  pub current : ℕ

unfoldable pub new : ℕ → Contexts
new first = record {
  parent_context = λ context. none;
  first_index = λ context. first;
  cancel_threshold = λ context. max_threshold;
  current = 0;
}

-- `upgrade` of a weak reference that may be missing.
abbrev pub upgrade : (ℕ → Bool) → Option ℕ → Option ℕ
upgrade held none = none
upgrade held (some context) = if held context then some context else none

-- The thresholds after the walk, and the parent for the new context. The fuel is above the
-- context's number, and a parent's number is smaller.
unfoldable pub canceled_parent_context :
    (ℕ → Bool) → (ℕ → Option ℕ) → (ℕ → ℕ) → ℕ → ℕ → ℕ → (ℕ → ℕ) → (ℕ → ℕ) × Option ℕ
canceled_parent_context held parent first zero context index threshold = (threshold, none)
canceled_parent_context held parent first (suc fuel) context index threshold =
    let stored = update threshold context index in
    elim (leb (first context) index) [
      | true ↦ (stored, some context)
      | false ↦ elim (upgrade held (parent context)) [
        | none ↦ (stored, none)
        | some next ↦ canceled_parent_context held parent first fuel next index stored
      ]
    ]

unfoldable pub rollback : (ℕ → Bool) → ℕ → Contexts → Contexts
rollback held index s =
    let (threshold, parent) =
      canceled_parent_context held s.parent_context s.first_index (s.current + 1) s.current index
        s.cancel_threshold in
    record {
      parent_context = update s.parent_context (s.current + 1) parent;
      first_index = update s.first_index (s.current + 1) index;
      cancel_threshold = update threshold (s.current + 1) max_threshold;
      current = s.current + 1;
    }

-- Whether a batch of a context sees that it is canceled.
abbrev pub is_canceled : Contexts → ℕ → ℕ → Bool
is_canceled s context index = ltb (s.cancel_threshold context) index

-- Rollbacks in turn, each with the contexts that are held at that time.
abbrev pub rollbacks : List ((ℕ → Bool) × ℕ) → Contexts → Contexts
rollbacks [] s = s
rollbacks ((held, index) ∷ rest) s = rollbacks rest (rollback held index s)

abbrev pub any_below : ℕ → List ((ℕ → Bool) × ℕ) → Bool
any_below index [] = false
any_below index ((held, target) ∷ rest) = ltb target index || any_below index rest
