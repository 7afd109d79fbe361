-- ===== src/Wallet/Tests.antt =====
-- l1/wallet/src/build, on a small node.
use vprogs.Base.{
  ℕ, zero, suc, ◌+◌, ◌-◌, ◌<◌, ◌≤◌, ◌≡◌, refl, ◌⊎◌, inl, List, [], ◌∷◌, true, false, max, Option,
  none, some, arith, ltb, map,
}
use vprogs.Wallet.{
  Cell, Consensus, floor, target_feerate, Funding, BuildError, min_viable_change, change_storage,
  required_fee, fund, walk_prefixes, attempt, try_dropped, smallest_fit, dropped_required_fee,
}
use vprogs.Wallet.Pricing.{required_fee-unpriced}
use vprogs.Wallet.Viability.{min_viable_change_exact}
use vprogs.Wallet.Funded.{Layouts, Outcome, fund_pays}

abbrev cell : ℕ → Cell
cell amount = record { plurality = 1; amount = amount }

-- A cell costs more, the less it is worth.
abbrev cost : List Cell → ℕ
cost [] = 0
cost (c ∷ cs) = 100 - c.amount + cost cs

abbrev node : Consensus
node = record {
  Tx = List ℕ;
  Entry = ℕ;
  Rate = ℕ;
  amounts = λ amount. amount;
  values = λ tx. tx;
  input_cell = cell;
  output_cells = map cell;
  binding_mass = λ tx. 1;
  storage_mass = λ inputs outputs. some (cost outputs);
  normalized_max = λ tx storage. storage + 1;
  storage_limit = 60;
  max_sompi = 1000;
  rate_product = λ rate mass. rate + mass;
  pays_less = λ rate fee mass. ltb fee (rate + mass);
}

-- Each candidate is worth 200, and the payout 90.
abbrev spent : ℕ → List ℕ
spent zero = []
spent (suc n) = 200 ∷ spent n

abbrev probe : ℕ → Option ℕ → List ℕ × List ℕ
probe n none = (90 ∷ [], spent n)
probe n (some change) = (90 ∷ change ∷ [], spent n)

layouts : Layouts node floor false probe
layouts = record {
  priced = λ tx. omega arith;
  slotted = λ n. (cell 0, cell 90 ∷ [], refl);
  appended = λ n c. refl;
  spent = λ n c. refl;
}

-- One candidate pays the payout and the fee but leaves a change below the viable one, which becomes
-- a part of the fee. With the change required, a second candidate is spent.
drops : fund node floor false probe 2 ≡ some (inl (record { inputs = 1; fee = 110; change = none }))
unfolding fund walk_prefixes attempt try_dropped min_viable_change smallest_fit required_fee
    dropped_required_fee
drops = refl

adds :
    fund node floor true probe 2 ≡ some (inl (record { inputs = 2; fee = 100; change = some 210 }))
unfolding fund walk_prefixes attempt try_dropped min_viable_change smallest_fit required_fee
    dropped_required_fee
adds = refl

fund_pays_example :
    (r : Funding ⊎ BuildError) × (fund node floor false probe 2 ≡ some r)
    × Outcome node floor false probe layouts (omega arith) (omega arith) 2 r
fund_pays_example = fund_pays node floor false probe layouts (omega arith) (omega arith) 2

min_viable_change_exact_example :
    ((min_viable_change node [] (cell 90 ∷ cell 0 ∷ []) ≡ some none)
      × (60 < change_storage node [] (cell 90 ∷ []) (cell 0) 1000))
    ⊎ ((v : ℕ) × (min_viable_change node [] (cell 90 ∷ cell 0 ∷ []) ≡ some (some v))
        × (1 ≤ v)
        × (v ≤ 1000)
        × (change_storage node [] (cell 90 ∷ []) (cell 0) v ≤ 60)
        × ((u : ℕ) → 1 ≤ u → u < v → 60 < change_storage node [] (cell 90 ∷ []) (cell 0) u))
min_viable_change_exact_example =
    min_viable_change_exact node [] (cell 90 ∷ cell 0 ∷ []) (cell 90 ∷ []) (cell 0) refl
      (omega arith) (omega arith) (λ u v h. omega (arith, h))

-- The mass of a change below 10 is not read.
required_fee-unpriced_example :
    required_fee node (target_feerate 3) 20 100 90 (λ change. 100 - change)
    ≡ required_fee node (target_feerate 3) 20 100 90 (λ change. 100 - max change 10)
required_fee-unpriced_example =
    required_fee-unpriced node (target_feerate 3) 20 100 90 (λ change. 100 - change)
      (λ change. 100 - max change 10) (λ change h. omega (arith, h))
