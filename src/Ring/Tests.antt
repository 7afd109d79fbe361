-- ===== src/Ring/Tests.antt =====
-- The theorems on core/atomics/src/atomic_ring.rs at a ring of two slots that has wrapped.
use vprogs.Base.{ℕ, ◌≡◌, refl, none, some, arith, ◌==◌, if◌then◌else◌}
use vprogs.Ring.{Ring, with_capacity, make_room, grow, copy_live, push, get, prune_below}
use vprogs.Ring.Validity.{IsValid, with_capacity-IsValid, push-IsValid, prune_below-IsValid}
use vprogs.Ring.Reads.{get-push}

-- `wraps_after_pruning`: indices 1 and 2 fill the slots, then 1 is pruned.
abbrev full : Ring ℕ
full = (push (push (with_capacity 1 2) 10).0 20).0

abbrev window : Ring ℕ
window = prune_below full 2

full-IsValid : IsValid full
full-IsValid =
    push-IsValid (push (with_capacity 1 2) 10).0 20
      (push-IsValid (with_capacity 1 2) 10 (with_capacity-IsValid 1 2 (omega arith)))

window-IsValid : IsValid window
window-IsValid = prune_below-IsValid full 2 full-IsValid

wraps : (get (push window 30).0 1 ≡ none) × (get (push window 30).0 3 ≡ some 30)
unfolding push make_room with_capacity get prune_below
wraps = (refl, refl)

-- A third live entry makes the ring grow.
grows : ((push full 30).0.capacity ≡ 4) × (get (push full 30).0 1 ≡ some 10)
unfolding push make_room grow copy_live with_capacity get
grows = (refl, refl)

push-IsValid_example : IsValid (push window 30).0
push-IsValid_example = push-IsValid window 30 window-IsValid

get-push_example : get (push full 30).0 2 ≡ (if 2 == full.tip then some 30 else get full 2)
get-push_example = get-push full 30 2 full-IsValid
