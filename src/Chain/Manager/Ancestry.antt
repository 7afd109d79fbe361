-- ===== src/Chain/Manager/Ancestry.antt =====
-- The walk of storage/canonical-chain/src/manager.rs from an id to the finalized floor.
use vprogs.Base.{
  ℕ, zero, suc, ◌-◌, ◌≤◌, ◌<◌, ◌≡◌, ◌⊎◌, refl, inl, inr, Bool, true, false, ◌||◌, List, [], ◌∷◌,
  some, arith, ltb, leb, Bool-cases, length, get_elem?,
}
use vprogs.Chain.Oracle.Restore.{Within}
use vprogs.Chain.Manager
use vprogs.Chain.Manager.{BatchMetadata, Manager, cons_option}
use vprogs.Chain.Manager.Blocks.{next_id}

get_elem?_total :
    {A : Type 0} (xs : List A) (i : ℕ) → i < length xs → (a : A) × (get_elem? xs i ≡ some a)
get_elem?_total [] i h = elim h [ ]
get_elem?_total (x ∷ xs) zero h = (x, refl)
get_elem?_total (x ∷ xs) (suc i) h = get_elem?_total xs i (omega arith)

Within-le : (base a b : ℕ) (ids : List ℕ) → a ≤ b → Within base a ids → Within base b ids
Within-le base a b [] p h = tt
Within-le base a b (id ∷ ids) p h = (h.0, omega (arith, h.1), Within-le base a b ids p h.2)

module _ {M : Type 0} ⦃meta : BatchMetadata M⦄ (m : Manager M) where
  -- The walk stops at a parent that is below the floor or not below its child.
  abbrev pub Stops : ℕ → ℕ → Type 0
  Stops id parent = (parent < m.base) ⊎ (id ≤ parent)

  -- `ids` are the ids from `id` on, each the parent of the one before, to the last that is live.
  abbrev pub Lineage : ℕ → List ℕ → Type 0
  Lineage id [] = ⊥
  Lineage id (x ∷ ids) =
      (x ≡ id)
      × (e : M) × (Manager.metadata m id ≡ some e)
      × (((ids ≡ []) × Stops id (meta.parent_id e))
          ⊎ ((m.base ≤ meta.parent_id e)
              × (meta.parent_id e < id)
              × Lineage (meta.parent_id e) ids))

  metadata_live :
      (id : ℕ) → m.base ≤ id → id < next_id m → (e : M) × (Manager.metadata m id ≡ some e)
  unfolding Manager.metadata
  metadata_live id q r =
      let (e, p) = get_elem?_total m.entries (id - m.base) (omega arith) in
      let live : ltb id m.base ≡ false = ground arith in (e, rw live p)

  abbrev stops : ℕ → M → Bool
  stops id e = ltb (meta.parent_id e) m.base || leb id (meta.parent_id e)

  stops-Stops : (id : ℕ) (e : M) → stops id e ≡ true → Stops id (meta.parent_id e)
  stops-Stops id e h = ground arith

  -- From a live id with more fuel than the id, the walk returns a list, which is the id's lineage:
  -- it starts at the id, each further id is the parent of the one before, live and below it, and
  -- it ends where the parent is below the floor or not below its child.
  pub canonical_ancestry_total :
      (fuel id : ℕ)
      → id < fuel
      → m.base ≤ id
      → id < next_id m
      → (ids : List ℕ) × (Manager.canonical_ancestry fuel m id ≡ some ids) × Lineage id ids
  unfolding Manager.canonical_ancestry
  canonical_ancestry_total zero id p q r = elim p [ ]
  canonical_ancestry_total (suc fuel) id p q r =
      let (e, found) = metadata_live id q r in
      rw (found, Manager.canonical_ancestry)
        (elim (Bool-cases (stops id e)) [
          | inl end ↦ rw end (id ∷ [], refl, (refl, e, found, inl (refl, stops-Stops id e end)))
          | inr on ↦
              let lower : m.base ≤ meta.parent_id e = ground arith in
              let upper : meta.parent_id e < id = ground arith in
              let (ids, walked, l) =
                canonical_ancestry_total fuel (meta.parent_id e) (omega arith) lower
                  (omega arith) in
              rw (on, walked) (id ∷ ids, refl, (refl, e, found, inr (lower, upper, l)))
        ])

  -- A lineage stays between the floor and the id that it starts from.
  pub Lineage-Within : (id : ℕ) (ids : List ℕ) → m.base ≤ id → Lineage id ids → Within m.base id ids
  Lineage-Within id [] q l = absurd l
  Lineage-Within id (x ∷ ids) q (a, e, b, inl (end, s)) = rw end (omega arith)
  Lineage-Within id (x ∷ ids) q (a, e, b, inr (lo, hi, l)) = (
    omega arith,
    omega arith,
    Within-le m.base (meta.parent_id e) id ids (omega arith)
        (Lineage-Within (meta.parent_id e) ids lo l),
  )
