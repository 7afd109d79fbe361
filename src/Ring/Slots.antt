-- ===== src/Ring/Slots.antt =====
-- The loop that `grow` and `fork` of core/atomics/src/atomic_ring.rs share.
use vprogs.Base.{
  ℕ, zero, suc, ◌+◌, ◌%◌, ◌≤◌, ◌<◌, ◌≡◌, refl, ◌∙◌, ◌≢◌, inl, inr, Option, none, some, arith,
  Bool-cases, ==_iff, ==_refl, ◌==◌, if◌then◌else◌,
}
use vprogs.Base.Order.{mod_window, lt_or_ge, update}
use vprogs.Ring.{Slots, copy_entry, copy_live}

module _ {ℓ} {V : Type ℓ} where
  update_ne : (s : Slots V) (i j : ℕ) (e : Option (ℕ × V)) → j ≢ i → update s i e j ≡ s j
  update_ne s i j e n = ground arith

  copy_entry_ne :
      (e : Option (ℕ × V)) (i len p : ℕ) (copy : Slots V)
      → p ≢ i % len
      → copy_entry e i len copy p ≡ copy p
  copy_entry_ne none i len p copy n = refl
  copy_entry_ne (some (t, v)) i len p copy n = ground arith

  copy_entry_hit :
      (e : Option (ℕ × V)) (i len : ℕ) (v : V) (copy : Slots V)
      → e ≡ some (i, v)
      → copy_entry e i len copy (i % len) ≡ some (i, v)
  copy_entry_hit none i len v copy h = ground arith
  copy_entry_hit (some (t, w)) i len v copy h = ground arith

  module _ (old : Slots V) (old_len len : ℕ) where
    -- A position below the loop's range is left alone.
    copy_live_keep :
        (count i j : ℕ) (copy : Slots V)
        → j < i
        → i + count ≤ j + len
        → copy_live old old_len len count i copy (j % len) ≡ copy (j % len)
    unfolding copy_live
    copy_live_keep zero i j copy lt le = refl
    copy_live_keep (suc count) i j copy lt le =
        copy_live_keep count (i + 1) j (copy_entry (old (i % old_len)) i len copy) (omega arith)
          (omega arith)
        ∙ copy_entry_ne (old (i % old_len)) i len (j % len) copy (λ e. absurd (
            omega (
              arith,
              mod_window len j j i (omega arith) (omega arith) (omega arith) (omega arith) e,
            )))

    copy_live_first :
        (count i : ℕ) (v : V) (copy : Slots V)
        → suc count ≤ len
        → old (i % old_len) ≡ some (i, v)
        → copy_live old old_len len count
            (i + 1)
            (copy_entry (old (i % old_len)) i len copy)
            (i % len)
          ≡ some (i, v)
    copy_live_first count i v copy fits h =
        copy_live_keep count (i + 1) i (copy_entry (old (i % old_len)) i len copy) (omega arith)
          (omega arith)
        ∙ copy_entry_hit (old (i % old_len)) i len v copy h

    -- A live entry is found at its place in the copy.
    pub copy_live_hit :
        (count i j : ℕ) (v : V) (copy : Slots V)
        → i ≤ j
        → j < i + count
        → count ≤ len
        → old (j % old_len) ≡ some (j, v)
        → copy_live old old_len len count i copy (j % len) ≡ some (j, v)
    unfolding copy_live
    copy_live_hit zero i j v copy le lt fits h = absurd (omega arith)
    copy_live_hit (suc count) i j v copy le lt fits h = elim (lt_or_ge i j) [
      | inl below ↦
          copy_live_hit count (i + 1) j v (copy_entry (old (i % old_len)) i len copy) (omega arith)
            (omega arith) (omega arith) h
      | inr ge ↦
          let e : j ≡ i = omega arith in rw e (copy_live_first count i v copy fits (rw e at h))
    ]

  -- A write to one index of a window, read at another.
  pub update_window :
      (s : Slots V) (len b i j : ℕ) (e : Option (ℕ × V))
      → b ≤ i
      → b ≤ j
      → i < b + len
      → j < b + len
      → update s (i % len) e (j % len) ≡ (if j == i then e else s (j % len))
  update_window s len b i j e p q u w = elim (Bool-cases (j == i)) [
    | inl same ↦ let e' : j ≡ i = (==_iff j i).0 same in rw same (rw (e', ==_refl (i % len)))
    | inr other ↦ rw other (
        update_ne s (i % len) (j % len) e
          (λ h. absurd (ground (arith, mod_window len b j i q p w u h))))
  ]
