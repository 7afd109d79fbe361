-- ===== src/Wallet/Pricing.antt =====
-- l1/wallet/src/build/pricing.rs: what the fee search pays.
use vprogs.Base.{
  ℕ, zero, suc, ◌+◌, ◌-◌, ◌≤◌, ◌≡◌, refl, sym, subst, max, inl, inr, Bool, true, false, arith, ltb,
  leb, if◌then◌else◌, Bool-cases,
}
use vprogs.Wallet.{
  u64_max, Consensus, FeePolicy, floor, target_feerate, raise_fee, rate_fee, fee_rounds,
  required_fee,
}

raise_fee_from : (short : ℕ → Bool) (left fee : ℕ) → fee ≤ raise_fee short left fee
unfolding raise_fee
raise_fee_from short zero fee = omega arith
raise_fee_from short (suc left) fee = elim (Bool-cases (short fee)) [
  | inl e ↦ rw (raise_fee, e) (omega (arith, raise_fee_from short left (fee + 1)))
  | inr e ↦ rw (raise_fee, e) (omega arith)
]

module _ (k : Consensus) where
  rate_fee_floor : (rate : k.Rate) (floor_fee pm : ℕ) → floor_fee ≤ rate_fee k rate floor_fee pm
  unfolding rate_fee
  rate_fee_floor rate floor_fee pm =
      let start = max floor_fee (k.rate_product rate pm) in
      omega (arith, raise_fee_from (λ fee. k.pays_less rate fee pm) (u64_max - start) start)

  -- What the search ends with, for a target rate.
  abbrev pub Settled : FeePolicy k.Rate → ℕ → ℕ → (ℕ → ℕ) → ℕ → Type 0
  Settled floor floor_fee available pm fee = fee ≡ floor_fee
  Settled (target_feerate rate) floor_fee available pm fee =
      rate_fee k rate floor_fee (pm (available - fee)) ≤ fee

  rounds_lem :
      (rate : k.Rate) (floor_fee available cap : ℕ) (pm : ℕ → ℕ) (rounds fee paid : ℕ)
      → floor_fee ≤ fee
      → fee ≤ cap
      → fee_rounds k rate floor_fee available cap pm rounds fee ≡ inl paid
      → (floor_fee ≤ paid)
        × (paid ≤ cap)
        × (rate_fee k rate floor_fee (pm (available - paid)) ≤ paid)
  unfolding fee_rounds
  rounds_lem rate floor_fee available cap pm zero fee paid h l e = absurd (cc e)
  rounds_lem rate floor_fee available cap pm (suc rounds) fee paid h l e =
      go (ltb cap next) refl (leb next fee) refl
        (λ f m. rounds_lem rate floor_fee available cap pm rounds next paid f m) e
    where
      next : ℕ
      next = rate_fee k rate floor_fee (pm (available - fee))

      go :
          (b : Bool)
          → ltb cap (rate_fee k rate floor_fee (pm (available - fee))) ≡ b
          → (c : Bool) → leb (rate_fee k rate floor_fee (pm (available - fee))) fee ≡ c
          → (floor_fee ≤ rate_fee k rate floor_fee (pm (available - fee))
              → rate_fee k rate floor_fee (pm (available - fee)) ≤ cap
              → fee_rounds k rate floor_fee available cap pm rounds
                  (rate_fee k rate floor_fee (pm (available - fee)))
                ≡ inl paid
              → (floor_fee ≤ paid)
                × (paid ≤ cap)
                × (rate_fee k rate floor_fee (pm (available - paid)) ≤ paid))
          → (if b
              then inr (rate_fee k rate floor_fee (pm (available - fee)))
              else if c
              then inl fee
              else fee_rounds k rate floor_fee available cap pm rounds
                  (rate_fee k rate floor_fee (pm (available - fee))))
            ≡ inl paid
          → (floor_fee ≤ paid)
            × (paid ≤ cap)
            × (rate_fee k rate floor_fee (pm (available - paid)) ≤ paid)
      go true f c g deeper q = absurd (cc q)
      go false f true g deeper q =
          let same : fee ≡ paid = cc in
          let low : rate_fee k rate floor_fee (pm (available - fee)) ≤ fee = ground (arith, g) in
          (
            omega (arith, h, same),
            omega (arith, l, same),
            subst (λ (t : ℕ). rate_fee k rate floor_fee (pm (available - t)) ≤ t) same low,
          )
      go false f false g deeper q =
          deeper (rate_fee_floor rate floor_fee (pm (available - fee))) (ground (arith, f)) q

  -- (comment)
  pub required_fee-Settled :
      (policy : FeePolicy k.Rate) (floor_fee available cap : ℕ) (pm : ℕ → ℕ) (fee : ℕ)
      → required_fee k policy floor_fee available cap pm ≡ inl fee
      → (floor_fee ≤ fee) × (fee ≤ cap) × Settled policy floor_fee available pm fee
  unfolding required_fee
  required_fee-Settled floor floor_fee available cap pm fee e = go (ltb cap floor_fee) refl e
    where
      go :
          (b : Bool)
          → ltb cap floor_fee ≡ b
          → (if b then inr floor_fee else inl floor_fee) ≡ inl fee
          → (floor_fee ≤ fee) × (fee ≤ cap) × (fee ≡ floor_fee)
      go true f q = absurd (cc q)
      go false f q =
          let same : floor_fee ≡ fee = cc in
          (omega (arith, same), ground (arith, f, same), sym same)
  required_fee-Settled (target_feerate rate) floor_fee available cap pm fee e =
      go (ltb cap floor_fee) refl e
    where
      go :
          (b : Bool)
          → ltb cap floor_fee ≡ b
          → (if b
              then inr floor_fee
              else fee_rounds k rate floor_fee available cap pm 256 floor_fee)
            ≡ inl fee
          → (floor_fee ≤ fee)
            × (fee ≤ cap)
            × (rate_fee k rate floor_fee (pm (available - fee)) ≤ fee)
      go true f q = absurd (cc q)
      go false f q =
          rounds_lem rate floor_fee available cap pm 256 floor_fee fee (omega arith)
            (ground (arith, f)) q

  rounds_same :
      (rate : k.Rate) (floor_fee available cap : ℕ) (pm pm' : ℕ → ℕ) (rounds fee : ℕ)
      → ((change : ℕ) → available - cap ≤ change → pm change ≡ pm' change)
      → fee ≤ cap
      → fee_rounds k rate floor_fee available cap pm rounds fee
        ≡ fee_rounds k rate floor_fee available cap pm' rounds fee
  unfolding fee_rounds
  rounds_same rate floor_fee available cap pm pm' zero fee h l = refl
  rounds_same rate floor_fee available cap pm pm' (suc rounds) fee h l =
      let same = h (available - fee) (omega (arith, l)) in
      rw same (elim (Bool-cases (ltb cap (next pm'))) [
        | inl e ↦ rw e refl
        | inr e ↦
            rw
              (
                e,
                rounds_same rate floor_fee available cap pm pm' rounds (next pm') h
                    (ground (arith, e)),
              )
              refl
      ])
    where
      next : (ℕ → ℕ) → ℕ
      next f = rate_fee k rate floor_fee (f (available - fee))

  -- The fee search does not depend on the priority mass of any change below the available amount
  -- less the cap: two masses that agree from there on give the same outcome. So a change below the
  -- viable one, which the node cannot price at zero, is never priced.
  pub required_fee-unpriced :
      (policy : FeePolicy k.Rate) (floor_fee available cap : ℕ) (pm pm' : ℕ → ℕ)
      → ((change : ℕ) → available - cap ≤ change → pm change ≡ pm' change)
      → required_fee k policy floor_fee available cap pm
        ≡ required_fee k policy floor_fee available cap pm'
  unfolding required_fee
  required_fee-unpriced floor floor_fee available cap pm pm' h = refl
  required_fee-unpriced (target_feerate rate) floor_fee available cap pm pm' h =
      elim (Bool-cases (ltb cap floor_fee)) [
        | inl e ↦ rw e refl
        | inr e ↦
            rw
              (
                e,
                rounds_same rate floor_fee available cap pm pm' 256 floor_fee h (ground (arith, e)),
              )
              refl
      ]
