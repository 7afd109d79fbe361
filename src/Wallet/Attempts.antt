-- ===== src/Wallet/Attempts.antt =====
-- l1/wallet/src/build/funding.rs: what one attempt at a prefix of the candidates gives.
use vprogs.Base.{
  ℕ, ◌+◌, ◌-◌, ◌<◌, ◌≤◌, ◌≡◌, refl, ◌⊎◌, inl, inr, List, Bool, true, false, Option, none, some,
  arith, ltb, leb, ◌&&◌, if◌then◌else◌, map, Bool-cases,
}
use vprogs.Wallet.{
  Cell, Consensus, FeePolicy, floor, target_feerate, Funding, BuildError, storage_infeasible,
  is_target, or_max, split_last, all_but_last, saturating_add, min_fee, min_viable_change,
  priority_mass, dropped_storage, dropped_required_fee, required_fee, Walk, Flow, breaks, continues,
  try_dropped, fall_back, attempt_priced, available_at, attempt,
}
use vprogs.Wallet.Pricing.{Settled, required_fee-Settled}
use vprogs.Wallet.Viability.{fits_at, min_viable_change-Finds, min_viable_change-unfit}

-- Something was recorded.
abbrev pub Recorded : Option (ℕ × ℕ) → Option BuildError → Type 0
Recorded (some short) infeasible = Unit
Recorded none (some error) = Unit
Recorded none none = ⊥

Recorded-error : (short : Option (ℕ × ℕ)) (e : BuildError) → Recorded short (some e)
Recorded-error none e = tt
Recorded-error (some s) e = tt

both_true : (a b : Bool) → (a && b) ≡ true → a ≡ false → ⊥
both_true true b e f = cc f
both_true false b e f = cc e

module _ (k : Consensus) (policy : FeePolicy k.Rate) (change_required : Bool)
    (probe : ℕ → Option ℕ → k.Tx × List k.Entry) where
  abbrev pub tx_at : ℕ → Option ℕ → k.Tx
  tx_at n change = (probe n change).0

  abbrev pub cells_at : ℕ → List Cell
  cells_at n = map k.input_cell (probe n (some 0)).1

  -- A funding meets the requirement of its own layout.
  abbrev pub Meets : ℕ → ℕ → Option ℕ → Type 0
  Meets n fee (some c) =
      (fee + c ≡ available_at k policy change_required probe n)
      × (min_fee k (tx_at n (some 0)) ≤ fee)
      × (is_target policy ≡ false → fee ≡ min_fee k (tx_at n (some 0)))
      × ((v : ℕ) × (min_viable_change k (cells_at n) (k.output_cells (tx_at n (some 0)))
            ≡ some (some v))
          × (v ≤ c))
  Meets n fee none =
      (fee ≡ available_at k policy change_required probe n)
      × (change_required ≡ false)
      × (min_fee k (tx_at n none) ≤ fee)
      × (dropped_storage k (tx_at n none) (probe n none).1 ≤ k.storage_limit)

  abbrev pub Pays : ℕ → Funding → Type 0
  Pays n f = (1 ≤ f.inputs) × (f.inputs ≤ n) × Meets f.inputs f.fee f.change

  abbrev pub Degraded : ℕ → Option Funding → Type 0
  Degraded n none = Unit
  Degraded n (some f) = Pays n f

  -- The attempts up to the prefix `n` went well.
  abbrev pub Went : ℕ → Flow → Type 0
  Went n (breaks f) = Pays n f
  Went n (continues w) = Recorded w.shortfall w.infeasible × Degraded n w.degraded

  floor_lem :
      (p : FeePolicy k.Rate) (tx : k.Tx) (entries : List k.Entry)
      → (dropped_required_fee k p tx entries).floor_fee ≡ min_fee k tx
  unfolding dropped_required_fee
  floor_lem floor tx entries = refl
  floor_lem (target_feerate rate) tx entries = refl

  either_Degraded :
      (n : ℕ) (b : Bool) (f : Funding) (o : Option Funding)
      → (b ≡ true → Pays n f)
      → Degraded n o
      → Degraded n (if b then some f else o)
  either_Degraded n true f o h d = h refl
  either_Degraded n false f o h d = d

  try_dropped-Went :
      (n available : ℕ) (w : Walk)
      → 1 ≤ n
      → available ≡ available_at k policy change_required probe n
      → change_required ≡ false
      → Degraded n w.degraded
      → Went n (try_dropped k policy change_required probe n available w)
  unfolding try_dropped
  try_dropped-Went n available w l e q d =
      elim (Bool-cases (
        ltb available
          (dropped_required_fee k policy (probe n none).0 (probe n none).1).floor_fee)) [
            | inl a ↦ rw a (tt, d)
            | inr a ↦
                elim (Bool-cases
                  (ltb k.storage_limit (dropped_storage k (probe n none).0 (probe n none).1))) [
                    | inl b ↦ rw (a, b) (Recorded-error w.shortfall _, d)
                    | inr b ↦
                        let pays : Pays n (record { inputs = n; fee = available; change = none }) =
                          (
                            l,
                            omega arith,
                            (
                              e,
                              q,
                              ground (arith, a, floor_lem policy (probe n none).0 (probe n none).1),
                              ground (arith, b),
                            ),
                          ) in
                        elim (Bool-cases (
                          ltb available
                            (dropped_required_fee k policy (probe n none).0
                              (probe n none).1).required)) [
                                | inl c ↦
                                    rw (a, b, c)
                                      (
                                        tt,
                                        either_Degraded n (is_target policy) _ w.degraded
                                            (λ t. pays) d,
                                      )
                                | inr c ↦ rw (a, b, c) pays
                              ]
                  ]
          ]

  fall_back-Went :
      (n available required : ℕ) (w : Walk)
      → 1 ≤ n
      → available ≡ available_at k policy change_required probe n
      → Degraded n w.degraded
      → Went n (fall_back k policy change_required probe n available required w)
  fall_back-Went n available required w l e d = go change_required refl
    where
      go :
          (b : Bool)
          → change_required ≡ b
          → Went n (
              if b
              then continues (record w { shortfall = some (available, required) })
              else try_dropped k policy change_required probe n available w)
      go true f = (tt, d)
      go false f = try_dropped-Went n available w l e f d

  module _ (positive : (tx : k.Tx) → 0 < min_fee k tx) where
    priced-Went :
        (n viable : ℕ) (w : Walk) (outcome : ℕ ⊎ ℕ)
        → 1 ≤ n
        → min_viable_change k (cells_at n) (k.output_cells (tx_at n (some 0))) ≡ some (some viable)
        → ((fee : ℕ)
            → outcome ≡ inl fee
            → (min_fee k (tx_at n (some 0)) ≤ fee)
              × (fee ≤ available_at k policy change_required probe n - viable)
              × (is_target policy ≡ false → fee ≡ min_fee k (tx_at n (some 0))))
        → Degraded n w.degraded
        → Went n (
            attempt_priced k policy change_required probe n
              (available_at k policy change_required probe n)
              (min_fee k (tx_at n (some 0)))
              viable
              w
              outcome)
    priced-Went n viable w (inl fee) l v h d =
        let (low, high, exact) = h fee refl in
        let some_fee = positive (tx_at n (some 0)) in
        (
          l,
          omega arith,
          (
            omega (arith, low, high, some_fee),
            low,
            exact,
            (viable, v, omega (arith, low, high, some_fee)),
          ),
        )
    priced-Went n viable w (inr crossing) l v h d =
        fall_back-Went n _ (saturating_add crossing viable)
          (record w {
            degraded =
                if is_target policy
                  && leb (min_fee k (tx_at n (some 0)))
                      (available_at k policy change_required probe n - viable)
                then some (record {
                  inputs = n;
                  fee = available_at k policy change_required probe n - viable;
                  change = some viable;
                })
                else w.degraded;
          })
          l refl (either_Degraded n _ _ w.degraded (λ e. kept e) d)
      where
        kept :
            (is_target policy
                && leb
                    (min_fee k (tx_at n (some 0)))
                    (available_at k policy change_required probe n - viable))
              ≡ true
            → Pays n (record {
              inputs = n;
              fee = available_at k policy change_required probe n - viable;
              change = some viable;
            })
        kept e =
            let low : min_fee k (tx_at n (some 0))
                ≤ available_at k policy change_required probe n - viable =
              ground (arith, e) in
            (
              l,
              omega arith,
              (
                omega (arith, low, positive (tx_at n (some 0))),
                low,
                λ f. absurd (both_true (is_target policy) _ e f),
                (viable, v, omega arith),
              ),
            )

    Settled-floor :
        (p : FeePolicy k.Rate) (floor_fee available : ℕ) (pm : ℕ → ℕ) (fee : ℕ)
        → Settled k p floor_fee available pm fee
        → is_target p ≡ false
        → fee ≡ floor_fee
    Settled-floor floor floor_fee available pm fee s e = s
    Settled-floor (target_feerate rate) floor_fee available pm fee s e = absurd (cc e)

    -- The change slot of a layout with a change can be priced.
    abbrev pub Slotted : ℕ → Type 0
    Slotted n =
        (slot : Cell) × (fixed : List Cell) × (split_last (k.output_cells (tx_at n (some 0)))
          ≡ some (slot, fixed))

    module _ (p : 0 < k.max_sompi) (b : k.max_sompi < 18446744073709551616) where
      pub attempt-Went :
          (n : ℕ) (w : Walk)
          → 1 ≤ n
          → Slotted n
          → Degraded n w.degraded
          → (flow : Flow) × (attempt k policy change_required probe n w ≡ some flow) × Went n flow
      unfolding attempt
      attempt-Went n w l (slot, fixed, e) d =
          elim (Bool-cases
            (ltb (available_at k policy change_required probe n) (min_fee k (tx_at n (some 0))))) [
              | inl short ↦
                  (_, rw short refl, fall_back-Went n _ (min_fee k (tx_at n (some 0))) w l refl d)
              | inr enough ↦ elim (Bool-cases (fits_at k (cells_at n) fixed slot k.max_sompi)) [
                | inr unfit ↦ (
                  continues (record w {
                    infeasible = some (
                        storage_infeasible
                          (or_max (
                            k.storage_mass (cells_at n)
                              (all_but_last (k.output_cells (tx_at n (some 0))))))
                          k.storage_limit);
                  }),
                  rw
                      (
                        enough,
                        min_viable_change-unfit k (cells_at n) (k.output_cells (tx_at n (some 0)))
                            fixed slot e unfit,
                      )
                      refl,
                  (Recorded-error w.shortfall _, d),
                )
                | inl fit ↦
                    let (v, o, low, high, g, m) =
                      min_viable_change-Finds k (cells_at n) (k.output_cells (tx_at n (some 0)))
                        fixed slot e p b fit in
                    (
                      _,
                      rw (enough, o) refl,
                      priced-Went n v w
                          (required_fee k policy (min_fee k (tx_at n (some 0)))
                            (available_at k policy change_required probe n)
                            (available_at k policy change_required probe n - v)
                            (priority_mass k (tx_at n (some 0)) (cells_at n)
                              (k.output_cells (tx_at n (some 0)))))
                          l o
                          (λ fee q.
                            let (x, y, z) =
                              required_fee-Settled k policy (min_fee k (tx_at n (some 0)))
                                (available_at k policy change_required probe n)
                                (available_at k policy change_required probe n - v) _ fee q in
                            (x, y, Settled-floor policy _ _ _ fee z))
                          d,
                    )
              ]
            ]
