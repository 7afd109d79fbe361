-- ===== src/Ring.antt =====
-- core/atomics/src/atomic_ring.rs: the growable, index-addressed rolling buffer.
--
-- The slot array is its length and a function from the slot position; the code reads and writes
-- it only at `index % len`. The atomics have one writer, so a method is a function on the value.
-- Indices are naturals: the source's u64 counters do not wrap.
pub mod Slots
pub mod Validity
pub mod Reads
mod Tests
use vprogs.Base.{
  ℕ, zero, suc, ◌+◌, ◌-◌, ◌*◌, ◌%◌, min, max, Bool, ◌||◌, Option, none, some, ltb, leb, ◌==◌,
  if◌then◌else◌,
}
use vprogs.Base.Order.{update}

-- `ArcSwapOption<(u64, V)>` for each slot: the `(index, value)` last stored there, or empty.
abbrev pub Slots {ℓ} : Type ℓ → Type ℓ
Slots V = ℕ → Option (ℕ × V)

pub record Ring {ℓ} (V : Type ℓ) : Type ℓ where
  pub base : ℕ
  pub tip : ℕ
  pub capacity : ℕ
  pub slots : Slots V

abbrev pub default_capacity : ℕ
default_capacity = 64

module _ {ℓ} {V : Type ℓ} where
  abbrev pub empty_slots : Slots V
  empty_slots i = none

  unfoldable pub with_capacity : ℕ → ℕ → Ring V
  with_capacity base capacity = record {
    base = base;
    tip = base;
    capacity = capacity;
    slots = empty_slots;
  }

  unfoldable pub new : ℕ → Ring V
  unfolding with_capacity
  new base = with_capacity base default_capacity

  unfoldable pub next_index : Ring V → ℕ
  next_index r = r.tip

  -- One round of the loop over the live indices: copy the entry if its tag is the index.
  abbrev pub copy_entry : Option (ℕ × V) → ℕ → ℕ → Slots V → Slots V
  copy_entry none index len copy = copy
  copy_entry (some (tag, v)) index len copy =
      if tag == index then update copy (index % len) (some (tag, v)) else copy

  -- `for index in base..tip` over `count` indices from `index` on.
  pub copy_live : Slots V → ℕ → ℕ → ℕ → ℕ → Slots V → Slots V
  copy_live old old_len len zero index copy = copy
  copy_live old old_len len (suc count) index copy =
      copy_live old old_len len count (index + 1)
        (copy_entry (old (index % old_len)) index len copy)

  pub grow : Ring V → Ring V
  grow r = record r {
    capacity = r.capacity * 2;
    slots = copy_live r.slots r.capacity (r.capacity * 2) (r.tip - r.base) r.base empty_slots;
  }

  abbrev pub is_full : Ring V → Bool
  is_full r = leb r.capacity (r.tip - r.base)

  -- `push` calls itself with the same value after each growth: the growths, on fuel.
  pub make_room : ℕ → Ring V → Ring V
  make_room zero r = r
  make_room (suc fuel) r = let grown = make_room fuel (grow r) in if is_full r then grown else r

  abbrev pub store_at_tip : Ring V → V → Ring V
  store_at_tip r v = record r {
    tip = r.tip + 1;
    slots = update r.slots (r.tip % r.capacity) (some (r.tip, v));
  }

  -- Each growth adds at least one slot, so the live count is fuel enough.
  unfoldable pub push : Ring V → V → Ring V × ℕ
  push r v = (store_at_tip (make_room (r.tip - r.base + 1) r) v, r.tip)

  abbrev pub out_of_range : Ring V → ℕ → Bool
  out_of_range r index = ltb index r.base || leb r.tip index

  abbrev pub read_entry {κ} : {R : Type κ} → Option (ℕ × V) → ℕ → (V → R) → Option R
  read_entry none index read = none
  read_entry (some (tag, v)) index read = if tag == index then some (read v) else none

  unfoldable pub with_entry {κ} : {R : Type κ} → Ring V → ℕ → (V → R) → Option R
  with_entry r index read =
      if out_of_range r index then none else read_entry (r.slots (index % r.capacity)) index read

  unfoldable pub get : Ring V → ℕ → Option V
  unfolding with_entry
  get r index = with_entry r index (λ v. v)

  unfoldable pub replace : Ring V → ℕ → V → Ring V
  replace r index v =
      if out_of_range r index
      then r
      else record r { slots = update r.slots (index % r.capacity) (some (index, v)) }

  unfoldable pub fork : Ring V → Ring V
  fork r = record {
    base = r.base;
    tip = r.tip;
    capacity = r.capacity;
    slots = copy_live r.slots r.capacity r.capacity (r.tip - r.base) r.base empty_slots;
  }

  unfoldable pub truncate_from : Ring V → ℕ → Ring V
  truncate_from r from = record r { tip = min (max from r.base) r.tip }

  unfoldable pub prune_below : Ring V → ℕ → Ring V
  prune_below r below = record r { base = min (max below r.base) r.tip }
