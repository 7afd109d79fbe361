-- ===== src/Ring/Reads.antt =====
-- What a read of core/atomics/src/atomic_ring.rs returns after each operation.
use vprogs.Base.{
  ℕ, zero, suc, ◌+◌, ◌-◌, ◌*◌, ◌%◌, ◌<◌, ◌≡◌, refl, ◌∙◌, sym, ap, ap₂, inl, inr, Bool, true, false,
  not, ◌&&◌, Option, none, some, arith, ltb, ◌==◌, ==_iff, ==_refl, Bool-cases, if◌then◌else◌,
}
use vprogs.Base.Order.{update}
use vprogs.Ring.{
  Ring, out_of_range, is_full, grow, make_room, store_at_tip, push, get, replace, fork,
  truncate_from, prune_below, with_entry, read_entry,
}
use vprogs.Ring.Slots.{copy_live_hit, update_window}
use vprogs.Ring.Validity.{IsValid, grow-IsValid, make_room-IsValid, make_room_free}

and-false {κ} : {A : Type κ} (b : Bool) (x y : A) → (if b && false then x else y) ≡ y
and-false true x y = refl
and-false false x y = refl

and-true {κ} :
    {A : Type κ} (b : Bool) (x y : A) → (if b && true then x else y) ≡ (if b then x else y)
and-true true x y = refl
and-true false x y = refl

module _ {ℓ} {V : Type ℓ} where
  pub get_out : (r : Ring V) (i : ℕ) → out_of_range r i ≡ true → get r i ≡ none
  unfolding get
  get_out r i h = rw h

  get_in :
      (r : Ring V) (i : ℕ) (v : V)
      → out_of_range r i ≡ false
      → r.slots (i % r.capacity) ≡ some (i, v)
      → get r i ≡ some v
  unfolding get
  get_in r i v h e = rw (h, e, ==_refl i)

  -- Two rings that have one range and the same entries in it read alike.
  get_agree :
      (r s : Ring V) (i : ℕ)
      → IsValid r
      → out_of_range s i ≡ out_of_range r i
      → ((v : V)
          → out_of_range r i ≡ false
          → r.slots (i % r.capacity) ≡ some (i, v)
          → s.slots (i % s.capacity) ≡ some (i, v))
      → get s i ≡ get r i
  get_agree r s i h range same = elim (Bool-cases (out_of_range r i)) [
    | inl out ↦ get_out s i (range ∙ out) ∙ sym (get_out r i out)
    | inr within ↦
        let (v, e) = h.live i (ground arith) (ground arith) in
        get_in s i v (range ∙ within) (same v within e) ∙ sym (get_in r i v within e)
  ]

  -- Each index of the live range is read.
  pub get_live :
      (r : Ring V) (i : ℕ) → IsValid r → out_of_range r i ≡ false → (v : V) × (get r i ≡ some v)
  get_live r i h within =
      let (v, e) = h.live i (ground arith) (ground arith) in (v, get_in r i v within e)

  get-grow : (r : Ring V) (i : ℕ) → IsValid r → get (grow r) i ≡ get r i
  get-grow r i h = get_agree r (grow r) i h (unfold grow in refl) (
      unfold grow in
      λ v within e.
        copy_live_hit r.slots r.capacity (r.capacity * 2) (r.tip - r.base) r.base i v _
          (ground arith) (ground (arith, h.ordered)) (omega (arith, h.fits)) e)

  -- A fork of a valid ring reads at every index as the ring that it was taken from.
  pub get-fork : (r : Ring V) (i : ℕ) → IsValid r → get (fork r) i ≡ get r i
  get-fork r i h = get_agree r (fork r) i h (unfold fork in refl) (
      unfold fork in
      λ v within e.
        copy_live_hit r.slots r.capacity r.capacity (r.tip - r.base) r.base i v _ (ground arith)
          (ground (arith, h.ordered)) (omega (arith, h.fits)) e)

  get-make_room : (f : ℕ) (r : Ring V) (i : ℕ) → IsValid r → get (make_room f r) i ≡ get r i
  unfolding make_room
  get-make_room zero r i h = refl
  get-make_room (suc f) r i h = elim (Bool-cases (is_full r)) [
    | inl full ↦ rw full (get-make_room f (grow r) i (grow-IsValid r h) ∙ get-grow r i h)
    | inr free ↦ rw free
  ]

  get-store_at_tip :
      (r : Ring V) (v : V) (i : ℕ)
      → IsValid r
      → r.tip < r.base + r.capacity
      → get (store_at_tip r v) i ≡ (if i == r.tip then some v else get r i)
  get-store_at_tip r v i h k = elim (Bool-cases (i == r.tip)) [
    | inl last ↦
        let e : i ≡ r.tip = (==_iff i r.tip).0 last in
        rw last (
          get_in (store_at_tip r v) i v (ground (arith, h.ordered)) (
            update_window r.slots r.capacity r.base r.tip i (some (r.tip, v)) h.ordered
              (ground (arith, h.ordered)) k (ground (arith, h.fits))
            ∙ rw last (rw e)))
    | inr old ↦ rw old (
        get_agree r (store_at_tip r v) i h (ground arith) (λ w within e.
          update_window r.slots r.capacity r.base r.tip i (some (r.tip, v)) h.ordered (ground arith)
            k (ground (arith, h.fits))
          ∙ rw old e))
  ]

  -- After a push on a valid ring, whether it grows or not, the new value is read at the old tip
  -- and every other index reads as before.
  pub get-push :
      (r : Ring V) (v : V) (i : ℕ)
      → IsValid r
      → get (push r v).0 i ≡ (if i == r.tip then some v else get r i)
  unfolding push
  get-push r v i h =
      let f : ℕ = r.tip - r.base + 1 in
      get-store_at_tip (make_room f r) v i (make_room-IsValid f r h).0
        (make_room_free f r h.room (omega (arith, h.ordered, h.room)))
      ∙ ap₂ (λ (t : ℕ) (o : Option V). if i == t then some v else o) (make_room-IsValid f r h).2
          (get-make_room f r i h)

  -- `push` returns the index that it stored at.
  pub push_index : (r : Ring V) (v : V) → (push r v).1 ≡ r.tip
  unfolding push
  push_index r v = refl

  pub tip-push : (r : Ring V) (v : V) → IsValid r → (push r v).0.tip ≡ r.tip + 1
  unfolding push
  tip-push r v h = ap (λ (t : ℕ). t + 1) (make_room-IsValid (r.tip - r.base + 1) r h).2

  pub base-push : (r : Ring V) (v : V) → IsValid r → (push r v).0.base ≡ r.base
  unfolding push
  base-push r v h = (make_room-IsValid (r.tip - r.base + 1) r h).1

  abbrev write_at : Ring V → ℕ → V → Ring V
  write_at r i v = record r { slots = update r.slots (i % r.capacity) (some (i, v)) }

  get-write_at :
      (r : Ring V) (i : ℕ) (v : V) (j : ℕ)
      → IsValid r
      → out_of_range r i ≡ false
      → get (write_at r i v) j ≡ (if j == i then some v else get r j)
  get-write_at r i v j h live = elim (Bool-cases (j == i)) [
    | inl same ↦
        let e : j ≡ i = (==_iff j i).0 same in
        rw same (
          get_in (write_at r i v) j v (ground arith) (
            update_window r.slots r.capacity r.base i j (some (i, v)) (ground arith) (ground arith)
              (ground (arith, h.fits)) (ground (arith, h.fits))
            ∙ rw same (rw e)))
    | inr other ↦ rw other (
        get_agree r (write_at r i v) j h refl (λ w within e.
          update_window r.slots r.capacity r.base i j (some (i, v)) (ground arith) (ground arith)
            (ground (arith, h.fits)) (ground (arith, h.fits))
          ∙ rw other e))
  ]

  -- On a valid ring, a replacement changes what is read at its index if that is live, and nothing
  -- else.
  pub get-replace :
      (r : Ring V) (i : ℕ) (v : V) (j : ℕ)
      → IsValid r
      → get (replace r i v) j ≡ (if (j == i) && not (out_of_range r i) then some v else get r j)
  unfolding replace
  get-replace r i v j h = elim (Bool-cases (out_of_range r i)) [
    | inl out ↦ rw out (sym (and-false (j == i) (some v) (get r j)))
    | inr live ↦ rw live (get-write_at r i v j h live ∙ sym (and-true (j == i) (some v) (get r j)))
  ]

  -- `replace` keeps the live range.
  pub range-replace :
      (r : Ring V) (i : ℕ) (v : V) → ((replace r i v).base ≡ r.base) × ((replace r i v).tip ≡ r.tip)
  unfolding replace
  range-replace r i v = elim (Bool-cases (out_of_range r i)) [
    | inl out ↦ rw out (refl, refl)
    | inr live ↦ rw live (refl, refl)
  ]

  -- Truncation hides the indices from its bound on, and keeps the others.
  pub get-truncate_from :
      (r : Ring V) (n i : ℕ)
      → IsValid r
      → get (truncate_from r n) i ≡ (if ltb i n then get r i else none)
  unfolding truncate_from
  get-truncate_from r n i h = elim (Bool-cases (ltb i n)) [
    | inl below ↦ rw below (get_agree r (truncate_from r n) i h (ground arith) (λ v w e. e))
    | inr above ↦ rw above (get_out (truncate_from r n) i (ground (arith, h.ordered)))
  ]

  -- On a valid ring, pruning hides the indices below its bound and changes no other.
  pub get-prune_below :
      (r : Ring V) (n i : ℕ)
      → IsValid r
      → get (prune_below r n) i ≡ (if ltb i n then none else get r i)
  unfolding prune_below
  get-prune_below r n i h = elim (Bool-cases (ltb i n)) [
    | inl below ↦ rw below (get_out (prune_below r n) i (ground (arith, h.ordered)))
    | inr above ↦ rw above (get_agree r (prune_below r n) i h (ground arith) (λ v w e. e))
  ]

-- `with` applies its function to what `get` returns.
abbrev pub map_read {ℓ κ} : {V : Type ℓ} {R : Type κ} → (V → R) → Option V → Option R
map_read f none = none
map_read f (some v) = some (f v)

module _ {ℓ κ} {V : Type ℓ} {R : Type κ} where
  read_entry-map_read :
      (e : Option (ℕ × V)) (i : ℕ) (f : V → R)
      → read_entry e i f ≡ map_read f (read_entry e i (λ v. v))
  read_entry-map_read none i f = refl
  read_entry-map_read (some (t, v)) i f = elim (Bool-cases (t == i)) [
    | inl same ↦ rw same
    | inr other ↦ rw other
  ]

  pub with_entry-map_read :
      (r : Ring V) (i : ℕ) (f : V → R) → with_entry r i f ≡ map_read f (get r i)
  unfolding with_entry get
  with_entry-map_read r i f = elim (Bool-cases (out_of_range r i)) [
    | inl out ↦ rw out
    | inr within ↦ rw within (read_entry-map_read (r.slots (i % r.capacity)) i f)
  ]
