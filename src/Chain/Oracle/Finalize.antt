-- ===== src/Chain/Oracle/Finalize.antt =====
-- `finalize` of storage/canonical-chain/src/chain.rs.
use vprogs.Base.{
  ℕ, ◌+◌, ◌-◌, ◌/◌, ◌%◌, ◌≤◌, ◌<◌, max, ◌≡◌, refl, ◌∙◌, sym, inl, inr, Bool, true, false, ◌&&◌,
  ◌||◌, arith, ltb, leb, Bool-cases,
}
use vprogs.Ring
use vprogs.Ring.{Ring}
use vprogs.Ring.Validity.{prune_below-IsValid}
use vprogs.Ring.Reads.{get-prune_below}
use vprogs.Chain.Bucket.{Bucket}
use vprogs.Chain.Snapshot.{Snapshot, stored_bit, is_canonical}
use vprogs.Chain.Oracle.{finalize}
use vprogs.Chain.Oracle.Invariant.{IsValid, stored_bit_lem, is_canonical_lem}

-- The id is in range, and its bucket is below the bound's and below the hot zone.
abbrev pub is_finalized : Snapshot → ℕ → ℕ → Bool
is_finalized s below j =
    (ltb 0 j && leb j s.tip)
    && (ltb ((j - 1) / 128) ((below - 1) / 128) && ltb ((j - 1) / 128 + 1) s.hot_zone.tail_bucket)

module _ (s : Snapshot) (below : ℕ) (v : IsValid s) where
  abbrev pruned : Ring Bucket
  pruned = Ring.prune_below s.body ((below - 1) / 128)

  stored_bit-pruned :
      (b c : ℕ)
      → (below - 1) / 128 ≤ b
      → stored_bit s.hot_zone pruned (b, c) ≡ stored_bit s.hot_zone s.body (b, c)
  stored_bit-pruned b c p =
      stored_bit_lem s.hot_zone pruned b c
      ∙ ground (
        arith,
        get-prune_below s.body ((below - 1) / 128) b v.fits.ring,
        stored_bit_lem s.hot_zone s.body b c,
      )

  pub is_canonical-finalize_from :
      (j : ℕ)
      → (below - 1) / 128 ≤ (j - 1) / 128
      → is_canonical (finalize s below) j ≡ is_canonical s j
  unfolding finalize
  is_canonical-finalize_from j p = elim (Bool-cases (ltb 1 below)) [
    | inl more ↦ rw more (
        is_canonical_lem _ j
        ∙ ground (arith, is_canonical_lem s j, stored_bit-pruned ((j - 1) / 128) ((j - 1) % 128)))
    | inr none_below ↦ rw none_below
  ]

  pub is_canonical-finalize_below :
      (j : ℕ)
      → 0 < j
      → j ≤ s.tip
      → (j - 1) / 128 < (below - 1) / 128
      → (j - 1) / 128 + 1 < s.hot_zone.tail_bucket
      → is_canonical (finalize s below) j ≡ true
  unfolding finalize
  is_canonical-finalize_below j p q r t =
      let more : ltb 1 below ≡ true = ground arith in
      rw more (
        is_canonical_lem _ j
        ∙ ground (
          arith,
          stored_bit_lem s.hot_zone pruned ((j - 1) / 128) ((j - 1) % 128),
          get-prune_below s.body ((below - 1) / 128) ((j - 1) / 128) v.fits.ring,
        ))

  out_of_range :
      (t : Snapshot) (j : ℕ) → (ltb 0 j && leb j t.tip) ≡ false → is_canonical t j ≡ false
  out_of_range t j p = is_canonical_lem t j ∙ ground arith

  tip_kept : (finalize s below).tip ≡ s.tip
  unfolding finalize
  tip_kept = elim (Bool-cases (ltb 1 below)) [ inl p ↦ rw p refl | inr p ↦ rw p refl ]

  hot_kept :
      (j : ℕ)
      → s.hot_zone.tail_bucket ≤ (j - 1) / 128 + 1
      → j ≤ s.tip
      → is_canonical (finalize s below) j ≡ is_canonical s j
  unfolding finalize
  hot_kept j p q = elim (Bool-cases (ltb 1 below)) [
    | inl more ↦ rw more (
        is_canonical_lem _ j
        ∙ ground (
          arith,
          stored_bit_lem s.hot_zone pruned ((j - 1) / 128) ((j - 1) % 128),
          stored_bit_lem s.hot_zone s.body ((j - 1) / 128) ((j - 1) % 128),
          is_canonical_lem s j,
          v.bounded,
        ))
    | inr none_below ↦ rw none_below
  ]

  -- On a valid snapshot, an id reads canonical after finalizing below a bound exactly when it did
  -- before, or it is positive, not above the tip and in a bucket that is below the bound's and at
  -- least two below the tail's. So an orphaned id below the bound stays orphaned where it shares
  -- the bound's bucket or lies in the hot zone.
  pub is_canonical-finalize :
      (j : ℕ) → is_canonical (finalize s below) j ≡ (is_finalized s below j || is_canonical s j)
  is_canonical-finalize j = elim (Bool-cases (ltb 0 j && leb j s.tip)) [
    | inr out ↦
        rw out (out_of_range (finalize s below) j (rw tip_kept out) ∙ sym (out_of_range s j out))
    | inl within ↦ elim (Bool-cases (ltb ((j - 1) / 128) ((below - 1) / 128))) [
      | inr onward ↦ rw (within, onward) (is_canonical-finalize_from j (ground arith))
      | inl under ↦ elim (Bool-cases (ltb ((j - 1) / 128 + 1) s.hot_zone.tail_bucket)) [
        | inl cold ↦
            rw (within, under, cold)
              (is_canonical-finalize_below j (ground arith) (ground arith) (ground arith)
                (ground arith))
        | inr hot ↦ rw (within, under, hot) (hot_kept j (ground arith) (ground arith))
      ]
    ]
  ]

  prune-IsValid : below ≤ s.tip + 1 → IsValid (record s { body = pruned })
  unfolding Ring.prune_below
  prune-IsValid k = record {
    fits = record {
      ring = prune_below-IsValid s.body ((below - 1) / 128) v.fits.ring;
      sealed = v.fits.sealed;
      covered = v.fits.covered;
      alone = λ e. ground (arith, v.fits.alone, v.fits.ring.ordered);
    };
    bounded = v.bounded;
    clear = λ b c p q r. stored_bit-pruned b c (omega arith) ∙ v.clear b c p q r;
  }

  pub finalize-IsValid : below ≤ s.tip + 1 → IsValid (finalize s below)
  unfolding finalize
  finalize-IsValid k = elim (Bool-cases (ltb 1 below)) [
    | inl more ↦ rw more (prune-IsValid k)
    | inr none_below ↦ rw none_below v
  ]

  -- `finalize` moves neither the tip nor the tail, and the floor not past the finalized bucket.
  pub finalize_range :
      ((finalize s below).tip ≡ s.tip)
      × ((finalize s below).hot_zone.tail_bucket ≡ s.hot_zone.tail_bucket)
      × ((finalize s below).body.base ≤ max s.body.base ((below - 1) / 128))
  unfolding finalize Ring.prune_below
  finalize_range = elim (Bool-cases (ltb 1 below)) [
    | inl more ↦ rw more (refl, refl, omega arith)
    | inr none_below ↦ rw none_below (refl, refl, omega arith)
  ]
