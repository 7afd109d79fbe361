-- ===== src/Wallet/Viability.antt =====
-- l1/wallet/src/build/viability.rs: the smallest change that fits the block.
use vprogs.Base.{
  ℕ, zero, suc, ◌+◌, ◌-◌, ◌/◌, ◌^◌, ◌<◌, ◌≤◌, ◌≡◌, refl, ap, ◌∙◌, ◌⊎◌, inl, inr, List, Bool, true,
  false, Option, none, some, arith, ltb, leb, Bool-cases,
}
use vprogs.Base.Order.{pow_next}
use vprogs.Wallet.{Cell, Consensus, split_last, smallest_fit, change_storage, min_viable_change}

-- A larger number fits where a smaller one does.
abbrev pub Upward : (ℕ → Bool) → Type 0
Upward fits = (u v : ℕ) → u ≤ v → fits u ≡ true → fits v ≡ true

-- What the search between `lo` and `hi` finds.
abbrev pub Finds : (ℕ → Bool) → ℕ → ℕ → Option ℕ → Type 0
Finds fits lo hi outcome =
    (v : ℕ) × (outcome ≡ some v)
    × (lo ≤ v)
    × (v ≤ hi)
    × (fits v ≡ true)
    × (Upward fits → (u : ℕ) → lo ≤ u → u < v → fits u ≡ false)

Upward-below :
    (fits : ℕ → Bool) (u mid : ℕ) → Upward fits → u ≤ mid → fits mid ≡ false → fits u ≡ false
Upward-below fits u mid m h e = elim (Bool-cases (fits u)) [
  | inl f ↦ absurd (cc (m u mid h f, e))
  | inr f ↦ f
]

pub smallest_fit-Finds :
    (fits : ℕ → Bool) (rounds lo hi : ℕ)
    → lo ≤ hi
    → hi - lo < 2 ^ rounds
    → fits hi ≡ true
    → Finds fits lo hi (smallest_fit fits rounds lo hi)
unfolding smallest_fit
smallest_fit-Finds fits zero lo hi h b f =
    let same : lo ≡ hi = omega (arith, h, b) in
    let stop : ltb lo hi ≡ false = ground (arith, same) in
    (lo, rw stop refl, omega arith, h, ap fits same ∙ f, λ m u p q. absurd (omega (arith, p, q)))
smallest_fit-Finds fits (suc rounds) lo hi h b f = elim (Bool-cases (ltb lo hi)) [
  | inr e ↦
      let same : lo ≡ hi = ground (arith, e, h) in
      rw e (lo, refl, omega arith, h, ap fits same ∙ f, λ m u p q. absurd (omega (arith, p, q)))
  | inl e ↦
      let less : lo < hi = ground (arith, e) in
      elim (Bool-cases (fits (lo + (hi - lo) / 2))) [
        | inl g ↦
            let (v, o, p, q, r, s) =
              smallest_fit-Finds fits rounds lo (lo + (hi - lo) / 2) (omega arith)
                (omega (arith, b, two_pow, less)) g in
            rw (e, g) (v, o, p, omega (arith, q, less), r, s)
        | inr g ↦
            let (v, o, p, q, r, s) =
              smallest_fit-Finds fits rounds (lo + (hi - lo) / 2 + 1) hi (omega (arith, less))
                (omega (arith, b, two_pow, less)) f in
            rw (e, g)
              (
                v,
                o,
                omega (arith, p),
                q,
                r,
                λ m u a c. elim (Bool-cases (leb u (lo + (hi - lo) / 2))) [
                  | inl d ↦ Upward-below fits u (lo + (hi - lo) / 2) m (ground (arith, d)) g
                  | inr d ↦ s m u (ground (arith, d)) c
                ],
              )
      ]
]
  where
    two_pow : 2 ^ (suc rounds) ≡ 2 ^ rounds + 2 ^ rounds
    two_pow = ap (λ (t : ℕ). 2 ^ t) (next_round rounds) ∙ pow_next rounds
      where
        next_round : (r : ℕ) → suc r ≡ r + 1
        next_round r = omega arith

module _ (k : Consensus) where
  abbrev pub fits_at : List Cell → List Cell → Cell → ℕ → Bool
  fits_at inputs fixed slot c = leb (change_storage k inputs fixed slot c) k.storage_limit

  -- Where the largest change fits, the search finds one that does.
  pub min_viable_change-Finds :
      (inputs outputs fixed : List Cell) (slot : Cell)
      → split_last outputs ≡ some (slot, fixed)
      → 0 < k.max_sompi
      → k.max_sompi < 18446744073709551616
      → fits_at inputs fixed slot k.max_sompi ≡ true
      → (v : ℕ) × (min_viable_change k inputs outputs ≡ some (some v))
        × (1 ≤ v)
        × (v ≤ k.max_sompi)
        × (fits_at inputs fixed slot v ≡ true)
        × (Upward (fits_at inputs fixed slot)
            → (u : ℕ) → 1 ≤ u
            → u < v
            → fits_at inputs fixed slot u ≡ false)
  unfolding min_viable_change
  min_viable_change-Finds inputs outputs fixed slot e p b f =
      let (v, o, l, h, g, m) =
        smallest_fit-Finds (fits_at inputs fixed slot) 64 1 k.max_sompi (omega (arith, p))
          (omega (arith, b)) f in
      (v, rw (e, f, o) refl, l, h, g, m)

  pub min_viable_change-unfit :
      (inputs outputs fixed : List Cell) (slot : Cell)
      → split_last outputs ≡ some (slot, fixed)
      → fits_at inputs fixed slot k.max_sompi ≡ false
      → min_viable_change k inputs outputs ≡ some none
  unfolding min_viable_change
  min_viable_change-unfit inputs outputs fixed slot e f = rw (e, f) refl

  -- Where the storage mass does not rise with the change, the search for the smallest viable
  -- change ends within its rounds and is exact: either it gives none and the largest amount
  -- exceeds the storage limit, or it gives a positive change that fits the limit while every
  -- smaller positive one exceeds it. The outputs end in a change slot, and the largest amount is
  -- positive and below 2 to the 64.
  pub min_viable_change_exact :
      (inputs outputs fixed : List Cell) (slot : Cell)
      → split_last outputs ≡ some (slot, fixed)
      → 0 < k.max_sompi
      → k.max_sompi < 18446744073709551616
      → ((u v : ℕ)
          → u ≤ v
          → change_storage k inputs fixed slot v ≤ change_storage k inputs fixed slot u)
      → ((min_viable_change k inputs outputs ≡ some none)
          × (k.storage_limit < change_storage k inputs fixed slot k.max_sompi))
        ⊎ ((v : ℕ) × (min_viable_change k inputs outputs ≡ some (some v))
            × (1 ≤ v)
            × (v ≤ k.max_sompi)
            × (change_storage k inputs fixed slot v ≤ k.storage_limit)
            × ((u : ℕ) → 1 ≤ u → u < v → k.storage_limit < change_storage k inputs fixed slot u))
  unfolding min_viable_change
  min_viable_change_exact inputs outputs fixed slot e p b d =
      elim (Bool-cases (fits_at inputs fixed slot k.max_sompi)) [
        | inr f ↦ inl (rw (e, f) refl, ground (arith, f))
        | inl f ↦
            let (v, o, l, h, g, m) = min_viable_change-Finds inputs outputs fixed slot e p b f in
            inr (
              v,
              o,
              l,
              h,
              ground (arith, g),
              λ u q r. above u (m (λ x y s t. upward x y s t) u q r),
            )
      ]
    where
      above :
          (u : ℕ)
          → fits_at inputs fixed slot u ≡ false
          → k.storage_limit < change_storage k inputs fixed slot u
      above u f = ground (arith, f)

      upward : Upward (fits_at inputs fixed slot)
      upward x y s t = ground (arith, t, d x y s)
