-- ===== src/Chain/Manager.antt =====
-- storage/canonical-chain/src/manager.rs: the append-only log of batch metadata and its reverse
-- index, which drive the chain.
--
-- The metadata type is a parameter with the two methods of core/types/src/batch_metadata.rs; a
-- 32-byte block hash is the number that its bytes spell. The hash map is a function. The flag
-- that admits one writer at a time guards construction alone and is left out.
pub mod Index
pub mod Finalize
pub mod Blocks
pub mod Ancestry
pub mod Interned
mod Tests
use vprogs.Base.{
  ℕ, zero, suc, ◌+◌, ◌-◌, Bool, true, false, ◌||◌, List, [], ◌∷◌, Option, none, some, ltb, leb,
  ◌==◌, if◌then◌else◌, length, get_elem?,
}
use vprogs.Base.Order.{update}
use vprogs.Chain.Snapshot
use vprogs.Chain.Snapshot.{Snapshot}
use vprogs.Chain.Oracle
use vprogs.Chain.Oracle.{snoc}

-- The trait `BatchMetadata`.
pub record BatchMetadata (M : Type 0) : Type 0 where
  pub block_hash : M → ℕ
  pub parent_id : M → ℕ

pub record AppendOutcome : Type 0 where
  pub id : ℕ
  pub is_new : Bool

pub record Manager (M : Type 0) : Type 0 where
  pub chain : Snapshot
  pub base : ℕ
  pub entries : List M
  pub index : ℕ → Option ℕ

abbrev cons_option : ℕ → Option (List ℕ) → Option (List ℕ)
cons_option x none = none
cons_option x (some xs) = some (x ∷ xs)

module _ {M : Type 0} ⦃meta : BatchMetadata M⦄ where
  unfoldable pub id : Manager M → ℕ → Option ℕ
  id m hash = m.index hash

  unfoldable pub metadata : Manager M → ℕ → Option M
  metadata m id = if ltb id m.base then none else get_elem? m.entries (id - m.base)

  -- The allocated id, and the log with its new entry.
  unfoldable pub push : Manager M → M → Manager M × ℕ
  push m entry =
      let id = m.base + length m.entries in
      (
        record m {
          entries = snoc m.entries entry;
          index = update m.index (meta.block_hash entry) (some id);
        },
        id,
      )

  abbrev pub append_known : Manager M → ℕ → Manager M × AppendOutcome
  append_known m id = (
    (if ltb m.chain.tip id then record m { chain = Oracle.append m.chain id } else m),
    record { id = id; is_new = false },
  )

  abbrev pub append_fresh : Manager M → M → Manager M × AppendOutcome
  append_fresh m entry =
      let (m', id) = push m entry in
      (record m' { chain = Oracle.append m'.chain id }, record { id = id; is_new = true })

  abbrev pub append_seen : Option ℕ → Manager M → M → Manager M × AppendOutcome
  append_seen none m entry = append_fresh m entry
  append_seen (some id) m entry = append_known m id

  unfoldable pub append : Manager M → M → Manager M × AppendOutcome
  unfolding id push
  append m entry = append_seen (id m (meta.block_hash entry)) m entry

  unfoldable pub rollback : Manager M → ℕ → Manager M
  rollback m new_tip = record m { chain = Oracle.rollback m.chain new_tip }

  -- `while base < below`: the loop pops the front entry and its key, and stops with the entries.
  unfoldable pub drop_finalized : ℕ → List M → ℕ → (ℕ → Option ℕ) → ℕ × List M × (ℕ → Option ℕ)
  drop_finalized below [] base index = (base, [], index)
  drop_finalized below (entry ∷ entries) base index =
      if ltb base below
      then drop_finalized below entries (base + 1) (update index (meta.block_hash entry) none)
      else (base, entry ∷ entries, index)

  unfoldable pub finalize : Manager M → ℕ → Manager M
  finalize m below =
      let (base, entries, index) = drop_finalized below m.entries m.base m.index in
      record {
        chain = Oracle.finalize m.chain below;
        base = base;
        entries = entries;
        index = index;
      }

  -- The walk from `id` to the floor. The parent of a step is below its id, so the id is fuel
  -- enough; `none` is the panic on an id that is not live.
  unfoldable pub canonical_ancestry : ℕ → Manager M → ℕ → Option (List ℕ)
  canonical_ancestry zero m id = none
  canonical_ancestry (suc fuel) m id = elim (metadata m id) [
    | none ↦ none
    | some entry ↦
        let rest = canonical_ancestry fuel m (meta.parent_id entry) in
        if ltb (meta.parent_id entry) m.base || leb id (meta.parent_id entry)
        then some (id ∷ [])
        else cons_option id rest
  ]

  -- One entry of the replay: the first one sets the base.
  abbrev replay_entry : Manager M → ℕ → M → Manager M
  replay_entry m id entry =
      (push (elim m.entries [ [] ↦ record m { base = id } | _ ∷ _ ↦ m ]) entry).0

  unfoldable pub replay : List (ℕ × M) → Manager M → Option ℕ → Manager M × Option ℕ
  replay [] m tip = (m, tip)
  replay ((id, entry) ∷ entries) m tip = replay entries (replay_entry m id entry) (some id)

  abbrev restore_chain : Manager M → ℕ → Option (List ℕ) → Option (Manager M)
  restore_chain m tip none = none
  restore_chain m tip (some canonical) =
      some (record m { chain = Oracle.restore m.chain m.base tip canonical })

  abbrev project : Manager M × Option ℕ → Option (Manager M)
  project (m, none) = some m
  project (m, some tip) = restore_chain m tip (canonical_ancestry (suc tip) m tip)

  abbrev pub empty_manager : Snapshot → Manager M
  empty_manager chain = record { chain = chain; base = 1; entries = []; index = λ hash. none }

  -- `new` over the persisted entries; `none` is a panic.
  unfoldable pub new : Snapshot → List (ℕ × M) → Option (Manager M)
  new chain entries = project (replay entries (empty_manager chain) none)
