-- ===== src/Chain/Manager/Finalize.antt =====
-- `finalize` of storage/canonical-chain/src/manager.rs, on the log and its index.
use vprogs.Base.{
  ℕ, suc, ◌+◌, ◌-◌, ◌≤◌, ◌<◌, min, max, ◌≡◌, ◌↔◌, ◌⊎◌, refl, ◌∙◌, sym, ap, inl, inr, false, List,
  [], ◌∷◌, Option, none, some, arith, ltb, Bool-cases, if◌then◌else◌, length, get_elem?,
}
use vprogs.Base.Order.{update}
use vprogs.Chain.Manager
use vprogs.Chain.Manager.{BatchMetadata, Manager}
use vprogs.Chain.Manager.Index.{Indexed, tail-Indexed}

module _ {M : Type 0} ⦃meta : BatchMetadata M⦄ where
  -- `while base < below` leaves an agreeing log, from the bound on.
  pub record Dropped (below base : ℕ) (entries : List M) (index : ℕ → Option ℕ)
      (r : ℕ × List M × (ℕ → Option ℕ)) : Type 0 where
    pub indexed : Indexed r.0 r.1 r.2
    pub lower : base ≤ r.0
    pub stopped : r.0 ≤ max base below
    pub length_kept : r.0 + length r.1 ≡ base + length entries
    pub bound : (below ≤ r.0) ⊎ (r.1 ≡ [])
    pub kept : (k : ℕ) → r.0 ≤ k → get_elem? r.1 (k - r.0) ≡ get_elem? entries (k - base)

  pub drop_finalized-Dropped :
      (below : ℕ) (entries : List M) (base : ℕ) (index : ℕ → Option ℕ)
      → Indexed base entries index
      → Dropped below base entries index (Manager.drop_finalized below entries base index)
  unfolding Manager.drop_finalized
  drop_finalized-Dropped below [] base index x = record {
    indexed = x;
    lower = omega arith;
    stopped = omega arith;
    length_kept = refl;
    bound = inr refl;
    kept = λ k p. refl;
  }
  drop_finalized-Dropped below (e ∷ entries) base index x = elim (Bool-cases (ltb base below)) [
    | inl more ↦ rw more (
        drop_one (ground arith) (
          drop_finalized-Dropped below entries (base + 1) (update index (meta.block_hash e) none)
            (tail-Indexed base e entries index x)))
    | inr done ↦ rw done (record {
      indexed = x;
      lower = omega arith;
      stopped = ground arith;
      length_kept = refl;
      bound = inl (ground arith);
      kept = λ k p. refl;
    })
  ]
    where
      drop_one :
          base < below
          → {r : ℕ × List M × (ℕ → Option ℕ)}
          → Dropped below (base + 1) entries (update index (meta.block_hash e) none) r
          → Dropped below base (e ∷ entries) index r
      drop_one more d = record {
        indexed = d.indexed;
        lower = omega (arith, d.lower);
        stopped = omega (arith, d.stopped);
        length_kept = omega (arith, d.length_kept);
        bound = d.bound;
        kept = λ k p.
            d.kept k p ∙ (let q : k - base ≡ suc (k - (base + 1)) = omega (arith, d.lower) in rw q);
      }

  module _ (m : Manager M) (below : ℕ) (x : Indexed m.base m.entries m.index) where
    dropped :
        Dropped below m.base m.entries m.index
          (Manager.drop_finalized below m.entries m.base m.index)
    dropped = drop_finalized-Dropped below m.entries m.base m.index x

    -- `finalize` keeps the index in step with the log.
    pub finalize-Indexed :
        Indexed
          (Manager.finalize m below).base
          (Manager.finalize m below).entries
          (Manager.finalize m below).index
    unfolding Manager.finalize
    finalize-Indexed = dropped.indexed

    -- Where log and index agree, the base after a finalization is the larger of the old base and
    -- the bound, but at most the next id of the log.
    pub base-finalize :
        (Manager.finalize m below).base ≡ min (max m.base below) (m.base + length m.entries)
    unfolding Manager.finalize
    base-finalize = elim dropped.bound [
      | inl reached ↦ omega (arith, dropped.lower, dropped.stopped, dropped.length_kept)
      | inr all ↦ omega (arith, dropped.lower, dropped.stopped, dropped.length_kept, ap length all)
    ]

    -- Where log and index agree, a finalization leaves the metadata of the ids from the new base
    -- on, and the ids below it find none.
    pub metadata-finalize :
        (k : ℕ)
        → Manager.metadata (Manager.finalize m below) k
          ≡ (if ltb k (Manager.finalize m below).base then none else Manager.metadata m k)
    unfolding Manager.finalize Manager.metadata
    metadata-finalize k =
        elim (Bool-cases (ltb k (Manager.drop_finalized below m.entries m.base m.index).0)) [
          | inl under ↦ rw under
          | inr live ↦
              let r : ltb k m.base ≡ false = ground (arith, dropped.lower) in
              rw (live, r) (dropped.kept k (ground arith))
        ]

    -- Where log and index agree, a hash is indexed under an id after a finalization exactly when
    -- it was indexed under it before and the id is not below the new base.
    pub id-finalize :
        (h k : ℕ)
        → (Manager.id (Manager.finalize m below) h ≡ some k)
          ↔ ((Manager.id m h ≡ some k) × ((Manager.finalize m below).base ≤ k))
    unfolding Manager.finalize Manager.id
    id-finalize h k = (kept_from, kept_to)
      where
        kept_from :
            (Manager.drop_finalized below m.entries m.base m.index).2 h ≡ some k
            → (m.index h ≡ some k) × ((Manager.drop_finalized below m.entries m.base m.index).0 ≤ k)
        kept_from p =
            let (e, a, b, c) = dropped.indexed.live h k p in
            let q = x.complete (k - m.base) e (sym (dropped.kept k a) ∙ b) in
            (ap m.index (sym c) ∙ q ∙ ap some (omega (arith, dropped.lower)), a)

        kept_to :
            (m.index h ≡ some k) × ((Manager.drop_finalized below m.entries m.base m.index).0 ≤ k)
            → (Manager.drop_finalized below m.entries m.base m.index).2 h ≡ some k
        kept_to p =
            let (e, a, b, c) = x.live h k p.0 in
            let n = (Manager.drop_finalized below m.entries m.base m.index).0 in
            let q = dropped.indexed.complete (k - n) e (dropped.kept k p.1 ∙ b) in
            ap (Manager.drop_finalized below m.entries m.base m.index).2 (sym c)
            ∙ q
            ∙ ap some (omega arith)
