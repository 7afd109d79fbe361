-- ===== src/Ring/Validity.antt =====
-- The invariant of core/atomics/src/atomic_ring.rs: the live window fits the slot array, and each
-- live index finds its own entry in its slot.
use vprogs.Base.{
  ℕ, zero, suc, ◌+◌, ◌-◌, ◌*◌, ◌%◌, ◌≤◌, ◌<◌, ◌≡◌, refl, ◌∙◌, inl, inr, some, arith, ==_iff, ◌==◌,
  Bool-cases, if◌then◌else◌,
}
use vprogs.Base.Order.{update}
use vprogs.Ring.{
  Ring, out_of_range, with_capacity, is_full, grow, make_room, store_at_tip, push, replace, fork,
  truncate_from, prune_below,
}
use vprogs.Ring.Slots.{copy_live_hit, update_window}

module _ {ℓ} {V : Type ℓ} where
  pub record IsValid (r : Ring V) : Type ℓ where
    pub room : 0 < r.capacity
    pub ordered : r.base ≤ r.tip
    pub fits : r.tip ≤ r.base + r.capacity
    pub live : (i : ℕ) → r.base ≤ i → i < r.tip → (v : V) × (r.slots (i % r.capacity) ≡ some (i, v))

  pub with_capacity-IsValid : (b c : ℕ) → 0 < c → IsValid (with_capacity {V = V} b c)
  unfolding with_capacity
  with_capacity-IsValid b c h = record {
    room = h;
    ordered = omega arith;
    fits = omega arith;
    live = λ i p q. absurd (omega arith);
  }

  -- Doubling the slot array keeps each live entry, and with them the invariant.
  pub grow-IsValid : (r : Ring V) → IsValid r → IsValid (grow r)
  unfolding grow
  grow-IsValid r h = record {
    room = omega (arith, h.room);
    ordered = h.ordered;
    fits = omega (arith, h.fits);
    live = λ i p q.
        let (v, e) = h.live i p q in
        (
          v,
          copy_live_hit r.slots r.capacity (r.capacity * 2) (r.tip - r.base) r.base i v _ p
              (omega (arith, h.ordered)) (omega (arith, h.fits)) e,
        );
  }

  pub fork-IsValid : (r : Ring V) → IsValid r → IsValid (fork r)
  unfolding fork
  fork-IsValid r h = record {
    room = h.room;
    ordered = h.ordered;
    fits = h.fits;
    live = λ i p q.
        let (v, e) = h.live i p q in
        (
          v,
          copy_live_hit r.slots r.capacity r.capacity (r.tip - r.base) r.base i v _ p
              (omega (arith, h.ordered)) (omega (arith, h.fits)) e,
        );
  }

  -- `make_room` ends with a free slot, and changes neither the window nor what is live.
  pub make_room-IsValid :
      (f : ℕ) (r : Ring V)
      → IsValid r
      → IsValid (make_room f r) × ((make_room f r).base ≡ r.base) × ((make_room f r).tip ≡ r.tip)
  unfolding make_room
  make_room-IsValid zero r h = (h, refl, refl)
  make_room-IsValid (suc f) r h = elim (Bool-cases (is_full r)) [
    | inl full ↦ rw full (make_room-grow f r (make_room-IsValid f (grow r) (grow-IsValid r h)))
    | inr free ↦ rw free (h, refl, refl)
  ]
    where
      make_room-grow :
          (f : ℕ) (r : Ring V)
          → IsValid (make_room f (grow r))
            × ((make_room f (grow r)).base ≡ (grow r).base)
            × ((make_room f (grow r)).tip ≡ (grow r).tip)
          → IsValid (make_room f (grow r))
            × ((make_room f (grow r)).base ≡ r.base)
            × ((make_room f (grow r)).tip ≡ r.tip)
      make_room-grow f r t = unfold grow in t

  -- The fuel that `push` gives is enough: with a non-empty slot array a free slot is found.
  pub make_room_free :
      (f : ℕ) (r : Ring V)
      → 0 < r.capacity
      → r.tip < r.base + r.capacity + f
      → (make_room f r).tip < (make_room f r).base + (make_room f r).capacity
  unfolding make_room
  make_room_free zero r h k = omega arith
  make_room_free (suc f) r h k = elim (Bool-cases (is_full r)) [
    | inl full ↦
        rw full
          (make_room_free f (grow r) (unfold grow in omega arith) (unfold grow in omega arith))
    | inr free ↦ rw free (ground arith)
  ]

  store_at_tip-IsValid :
      (r : Ring V) (v : V) → IsValid r → r.tip < r.base + r.capacity → IsValid (store_at_tip r v)
  store_at_tip-IsValid r v h k = record {
    room = h.room;
    ordered = omega (arith, h.ordered);
    fits = omega arith;
    live = λ i p q. elim (Bool-cases (i == r.tip)) [
      | inl last ↦ (v, seen i p q ∙ rw last (let e : i ≡ r.tip = (==_iff i r.tip).0 last in rw e))
      | inr old ↦ let (w, e) = h.live i p (ground arith) in (w, seen i p q ∙ rw old e)
    ];
  }
    where
      seen :
          (i : ℕ)
          → r.base ≤ i
          → i < r.tip + 1
          → update r.slots (r.tip % r.capacity) (some (r.tip, v)) (i % r.capacity)
            ≡ (if i == r.tip then some (r.tip, v) else r.slots (i % r.capacity))
      seen i p q =
          update_window r.slots r.capacity r.base r.tip i (some (r.tip, v)) h.ordered p k
            (omega arith)

  -- A push keeps a ring valid: the live range fits the slots, and the slot of each live index
  -- holds an entry tagged with it.
  pub push-IsValid : (r : Ring V) (v : V) → IsValid r → IsValid (push r v).0
  unfolding push
  push-IsValid r v h =
      let f : ℕ = r.tip - r.base + 1 in
      store_at_tip-IsValid (make_room f r) v (make_room-IsValid f r h).0
        (make_room_free f r h.room (omega (arith, h.ordered, h.room)))

  -- A write in place keeps the invariant, in range or out of it.
  pub replace-IsValid : (r : Ring V) (i : ℕ) (v : V) → IsValid r → IsValid (replace r i v)
  unfolding replace
  replace-IsValid r i v h = elim (Bool-cases (out_of_range r i)) [
    | inl out ↦ rw out h
    | inr in_range ↦ rw in_range (record {
      room = h.room;
      ordered = h.ordered;
      fits = h.fits;
      live = λ j p q. replace_live r i v h (ground arith) (ground arith) j p q;
    })
  ]
    where
      replace_live :
          (r : Ring V) (i : ℕ) (v : V)
          → IsValid r
          → r.base ≤ i
          → i < r.tip
          → (j : ℕ) → r.base ≤ j
          → j < r.tip
          → (w : V) × (update r.slots (i % r.capacity) (some (i, v)) (j % r.capacity) ≡ some (j, w))
      replace_live r i v h a b j p q = elim (Bool-cases (j == i)) [
        | inl same ↦ (
          v,
          update_window r.slots r.capacity r.base i j (some (i, v)) a p (omega (arith, h.fits))
                (omega (arith, h.fits))
              ∙ rw same (let e : j ≡ i = (==_iff j i).0 same in rw e),
        )
        | inr other ↦
            let (w, e) = h.live j p q in
            (
              w,
              update_window r.slots r.capacity r.base i j (some (i, v)) a p (omega (arith, h.fits))
                    (omega (arith, h.fits))
                  ∙ rw other e,
            )
      ]

  pub truncate_from-IsValid : (r : Ring V) (n : ℕ) → IsValid r → IsValid (truncate_from r n)
  unfolding truncate_from
  truncate_from-IsValid r n h = record {
    room = h.room;
    ordered = omega (arith, h.ordered);
    fits = omega (arith, h.fits);
    live = λ i p q. h.live i p (omega arith);
  }

  pub prune_below-IsValid : (r : Ring V) (n : ℕ) → IsValid r → IsValid (prune_below r n)
  unfolding prune_below
  prune_below-IsValid r n h = record {
    room = h.room;
    ordered = omega (arith, h.ordered);
    fits = omega (arith, h.fits, h.ordered);
    live = λ i p q. h.live i (omega (arith, h.ordered)) q;
  }
