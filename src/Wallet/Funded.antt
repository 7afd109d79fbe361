-- ===== src/Wallet/Funded.antt =====
-- l1/wallet/src/build/funding.rs, `fund`: what the search over the prefixes of the candidates gives.
use vprogs.Base.{
  ℕ, zero, suc, ◌+◌, ◌-◌, ◌%◌, ◌<◌, ◌≤◌, ◌≡◌, refl, sym, subst, ap, ap₂, ◌∙◌, ◌⊎◌, inl, inr, List,
  [], ◌∷◌, ◌++◌, Bool, false, Option, none, some, arith, ltb, map,
}
use vprogs.Wallet.{
  Consensus, FeePolicy, Funding, BuildError, total, sum_u64, min_fee, fee_paid, Walk, new_walk,
  Flow, breaks, continues, conclude, attempt, after_attempt, walk_prefixes, fund,
}
use vprogs.Wallet.Attempts.{Recorded, Meets, Pays, Degraded, Went, Slotted, attempt-Went}

total-snoc : (xs : List ℕ) (c : ℕ) → total (xs ++ c ∷ []) ≡ total xs + c
total-snoc [] c = omega arith
total-snoc (x ∷ xs) c = omega (arith, total-snoc xs c)

module _ (k : Consensus) (policy : FeePolicy k.Rate) (change_required : Bool)
    (probe : ℕ → Option ℕ → k.Tx × List k.Entry) where
  -- The builder's layouts differ in the change output only, which is the last one.
  pub record Layouts : Type 0 where
    pub priced : (tx : k.Tx) → 0 < min_fee k tx
    pub slotted : (n : ℕ) → Slotted k policy change_required probe priced n
    pub appended : (n c : ℕ) → k.values (probe n (some c)).0 ≡ k.values (probe n none).0 ++ c ∷ []
    pub spent : (n c : ℕ) → (probe n (some c)).1 ≡ (probe n none).1

  abbrev Found : ℕ → Funding ⊎ BuildError → Type 0
  Found n (inl f) = Pays k policy change_required probe n f
  Found n (inr e) = Unit

  Pays-further :
      (m n : ℕ) (f : Funding)
      → m ≤ n
      → Pays k policy change_required probe m f
      → Pays k policy change_required probe n f
  Pays-further m n f h (a, b, c) = (a, omega (arith, h, b), c)

  Degraded-further :
      (m n : ℕ) (o : Option Funding)
      → m ≤ n
      → Degraded k policy change_required probe m o
      → Degraded k policy change_required probe n o
  Degraded-further m n none h d = tt
  Degraded-further m n (some f) h d = Pays-further m n f h d

  concluded :
      (n : ℕ) (w : Walk)
      → Recorded w.shortfall w.infeasible
      → Degraded k policy change_required probe n w.degraded
      → (r : Funding ⊎ BuildError) × (conclude w ≡ some r) × Found n r
  concluded n w r d = go w.degraded w.shortfall w.infeasible r d
    where
      go :
          (o : Option Funding) (s : Option (ℕ × ℕ)) (i : Option BuildError)
          → Recorded s i
          → Degraded k policy change_required probe n o
          → (r : Funding ⊎ BuildError) × (conclude
                (record { shortfall = s; infeasible = i; degraded = o })
              ≡ some r)
            × Found n r
      go (some f) s i r d = (inl f, refl, d)
      go none (some (a, b)) i r d = (_, refl, tt)
      go none none (some e) r d = (inr e, refl, tt)
      go none none none r d = absurd r

  module _ (y : Layouts) (p : 0 < k.max_sompi) (b : k.max_sompi < 18446744073709551616) where
    walked :
        (count m n : ℕ) (w : Walk)
        → n ≡ m + 1
        → (0 < count) ⊎ Recorded w.shortfall w.infeasible
        → Degraded k policy change_required probe m w.degraded
        → (r : Funding ⊎ BuildError) × (walk_prefixes k policy change_required probe count n w
            ≡ some r)
          × Found (m + count) r
    unfolding walk_prefixes
    walked zero m n w l (inl c) d = absurd (omega (arith, c))
    walked zero m n w l (inr r) d =
        concluded (m + 0) w r (Degraded-further m (m + 0) w.degraded (omega arith) d)
    walked (suc count) m n w l c d =
        go
          (attempt-Went k policy change_required probe y.priced p b n w (omega (arith, l))
            (y.slotted n) (Degraded-further m n w.degraded (omega (arith, l)) d))
          (λ v r e. walked count n (n + 1) v refl (inr r) e)
      where
        go :
            (flow : Flow) × (attempt k policy change_required probe n w ≡ some flow)
              × Went k policy change_required probe n flow
            → ((v : Walk)
                → Recorded v.shortfall v.infeasible
                → Degraded k policy change_required probe n v.degraded
                → (r : Funding ⊎ BuildError) × (walk_prefixes k policy change_required probe count
                      (n + 1)
                      v
                    ≡ some r)
                  × Found (n + count) r)
            → (r : Funding ⊎ BuildError) × (after_attempt k policy change_required probe
                  (walk_prefixes k policy change_required probe count (n + 1))
                  (attempt k policy change_required probe n w)
                ≡ some r)
              × Found (m + suc count) r
        go (breaks f, e, g) on =
            (inl f, rw e refl, Pays-further n (m + suc count) f (omega (arith, l)) g)
        go (continues v, e, g) on =
            let (r, f, h) = on v g.0 g.1 in
            (r, rw e f, subst (λ (i : ℕ). Found i r) (omega (arith, l)) h)

    paid_change :
        (n fee c : ℕ)
        → Meets k policy change_required probe n fee (some c)
        → fee_paid k (probe n (some c)).0 (probe n (some c)).1 ≡ some fee
    unfolding fee_paid
    paid_change n fee c (e, low, x, v) =
        let whole : sum_u64 (k.values (probe n (some c)).0)
            ≡ (total (k.values (probe n none).0) + c) % 18446744073709551616 =
          ap sum_u64 (y.appended n c)
          ∙ ap (λ (t : ℕ). t % 18446744073709551616) (total-snoc (k.values (probe n none).0) c) in
        let base : sum_u64 (k.values (probe n (some 0)).0)
            ≡ (total (k.values (probe n none).0) + 0) % 18446744073709551616 =
          ap sum_u64 (y.appended n 0)
          ∙ ap (λ (t : ℕ). t % 18446744073709551616) (total-snoc (k.values (probe n none).0) 0) in
        let entries : sum_u64 (map k.amounts (probe n (some c)).1)
            ≡ sum_u64 (map k.amounts (probe n (some 0)).1) =
          ap (λ (t : List k.Entry). sum_u64 (map k.amounts t)) (y.spent n c ∙ sym (y.spent n 0)) in
        let some_fee : 0 < fee = omega (arith, low, y.priced (probe n (some 0)).0) in
        let covers : sum_u64 (k.values (probe n (some c)).0) + fee
            ≡ sum_u64 (map k.amounts (probe n (some c)).1) =
          sums (total (k.values (probe n none).0)) (sum_u64 (k.values (probe n (some 0)).0))
            (total (map k.amounts (probe n (some 0)).1)) _ _ fee c whole base entries e some_fee in
        let fits : ltb (sum_u64 (map k.amounts (probe n (some c)).1))
              (sum_u64 (k.values (probe n (some c)).0))
            ≡ false =
          ground (arith, covers) in
        rw fits (ap some (omega (arith, covers)))
      where
        sums :
            (raw base_out brought all_out all_in fee c : ℕ)
            → all_out ≡ (raw + c) % 18446744073709551616
            → base_out ≡ (raw + 0) % 18446744073709551616
            → all_in ≡ brought % 18446744073709551616
            → fee + c ≡ brought % 18446744073709551616 - base_out
            → 0 < fee
            → all_out + fee ≡ all_in
        sums raw base_out brought all_out all_in fee c f g h i j = omega (arith, f, g, h, i, j)

    paid_dropped :
        (n fee : ℕ)
        → Meets k policy change_required probe n fee none
        → fee_paid k (probe n none).0 (probe n none).1 ≡ some fee
    unfolding fee_paid
    paid_dropped n fee (e, x, low, v) =
        let base : sum_u64 (k.values (probe n (some 0)).0) ≡ sum_u64 (k.values (probe n none).0) =
          ap sum_u64 (y.appended n 0)
          ∙ ap (λ (t : ℕ). t % 18446744073709551616)
              (total-snoc (k.values (probe n none).0) 0 ∙ omega arith) in
        let entries : sum_u64 (map k.amounts (probe n (some 0)).1)
            ≡ sum_u64 (map k.amounts (probe n none).1) =
          ap (λ (t : List k.Entry). sum_u64 (map k.amounts t)) (y.spent n 0) in
        let difference : fee
            ≡ sum_u64 (map k.amounts (probe n none).1) - sum_u64 (k.values (probe n none).0) =
          e ∙ ap₂ (λ (i j : ℕ). i - j) entries base in
        let some_fee : 0 < fee = omega (arith, low, y.priced (probe n none).0) in
        let fits : ltb (sum_u64 (map k.amounts (probe n none).1))
              (sum_u64 (k.values (probe n none).0))
            ≡ false =
          ground (arith, difference, some_fee) in
        rw fits (ap some (sym difference))

    -- What the search promises of its outcome.
    abbrev pub Outcome : ℕ → Funding ⊎ BuildError → Type 0
    Outcome count (inl f) =
        (1 ≤ f.inputs)
        × (f.inputs ≤ count)
        × (fee_paid k (probe f.inputs f.change).0 (probe f.inputs f.change).1 ≡ some f.fee)
        × Meets k policy change_required probe f.inputs f.fee f.change
    Outcome count (inr e) = Unit

    paid :
        (n fee : ℕ) (change : Option ℕ)
        → Meets k policy change_required probe n fee change
        → fee_paid k (probe n change).0 (probe n change).1 ≡ some fee
    paid n fee none m = paid_dropped n fee m
    paid n fee (some c) m = paid_change n fee c m

    -- For any number of candidates, the search for a funding gives a result, so the `expect` after
    -- the last attempt never fails. A funding that it gives spends at least one candidate and no
    -- more than there are, and its final layout pays exactly the fee that it names. With a change,
    -- the fee is at least the minimum for the layout, is that minimum where no rate is aimed at,
    -- and leaves a change that is not below the smallest viable one; without a change, no change
    -- was required, the fee is at least the minimum for the smaller layout, and that layout fits
    -- the storage limit. A layout has a positive minimum fee, and its change output is the last
    -- one and all that differs between the layouts of as many candidates.
    pub fund_pays :
        (count : ℕ)
        → (r : Funding ⊎ BuildError) × (fund k policy change_required probe count ≡ some r)
          × Outcome count r
    unfolding fund
    fund_pays zero = (_, refl, tt)
    fund_pays (suc count) = go (walked (suc count) 0 1 new_walk refl (inl (omega arith)) tt)
      where
        go :
            (r : Funding ⊎ BuildError) × (walk_prefixes k policy change_required probe
                  (suc count)
                  1
                  new_walk
                ≡ some r)
              × Found (0 + suc count) r
            → (r : Funding ⊎ BuildError) × (walk_prefixes k policy change_required probe
                  (suc count)
                  1
                  new_walk
                ≡ some r)
              × Outcome (suc count) r
        go (inr e, f, h) = (inr e, f, tt)
        go (inl f, g, (l, u, m)) =
            (inl f, g, (l, omega (arith, u), paid f.inputs f.fee f.change m, m))
