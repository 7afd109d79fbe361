-- ===== src/Wallet.antt =====
-- l1/wallet/src/build: the search for the inputs, the fee and the change of a transaction (funding.rs,
-- pricing.rs, viability.rs).
--
-- The node's transactions, its masses and floating-point numbers are parameters. An amount is a
-- number below 2 ^ 64, whose sums wrap. `none` is where the code panics.
pub mod Pricing
pub mod Viability
pub mod Attempts
pub mod Funded
mod Tests
use vprogs.Base.{
  ℕ, zero, suc, ◌+◌, ◌-◌, ◌*◌, ◌/◌, ◌%◌, ◌^◌, max, ◌⊎◌, inl, inr, List, [], ◌∷◌, ◌++◌, Bool, true,
  false, Option, none, some, ltb, leb, not, ◌&&◌, if◌then◌else◌, and_then, map,
}

abbrev pub u64_max : ℕ
u64_max = 18446744073709551615

-- What one transaction cell counts for storage.
pub record Cell : Type 0 where
  pub plurality : ℕ
  pub amount : ℕ

-- The node's consensus code: transactions and the entries that they spend, as far as fees read them.
pub record Consensus : Type 1 where
  pub Tx : Type 0
  pub Entry : Type 0
  pub Rate : Type 0
  pub amounts : Entry → ℕ
  pub values : Tx → List ℕ
  pub input_cell : Entry → Cell
  pub output_cells : Tx → List Cell
  -- The larger of the compute mass and the normalized transient mass.
  pub binding_mass : Tx → ℕ
  -- `calc_storage_mass`
  pub storage_mass : List Cell → List Cell → Option ℕ
  -- `normalized_max` of the masses of the transaction and a storage mass.
  pub normalized_max : Tx → ℕ → ℕ
  pub storage_limit : ℕ
  pub max_sompi : ℕ
  -- `ceil` of the rate times the mass, and whether the fee pays less than the rate for the mass.
  pub rate_product : Rate → ℕ → ℕ
  pub pays_less : Rate → ℕ → ℕ → Bool

pub data FeePolicy (R : Type 0) : Type 0 where
  floor : FeePolicy R
  target_feerate : R → FeePolicy R

pub record Funding : Type 0 where
  pub inputs : ℕ
  pub fee : ℕ
  pub change : Option ℕ

pub data BuildError : Type 0 where
  insufficient_funds : ℕ → ℕ → BuildError
  storage_infeasible : ℕ → ℕ → BuildError

pub record DroppedRequirement : Type 0 where
  pub floor_fee : ℕ
  pub required : ℕ

abbrev pub total : List ℕ → ℕ
total [] = 0
total (x ∷ xs) = x + total xs

abbrev pub sum_u64 : List ℕ → ℕ
sum_u64 xs = total xs % 18446744073709551616

abbrev pub saturating_add : ℕ → ℕ → ℕ
saturating_add a b = if ltb u64_max (a + b) then u64_max else a + b

abbrev pub or_max : Option ℕ → ℕ
or_max none = u64_max
or_max (some mass) = mass

abbrev pub is_target : {R : Type 0} → FeePolicy R → Bool
is_target floor = false
is_target (target_feerate rate) = true

-- The cells less the last one, and the last one.
abbrev pub split_last : List Cell → Option (Cell × List Cell)
split_last [] = none
split_last (c ∷ []) = some (c, [])
split_last (c ∷ d ∷ cs) = and_then (split_last (d ∷ cs)) λ (last, fixed). some (last, c ∷ fixed)

-- `&cells[..cells.len() - 1]`
abbrev pub all_but_last : List Cell → List Cell
all_but_last [] = []
all_but_last (c ∷ []) = []
all_but_last (c ∷ d ∷ cs) = c ∷ all_but_last (d ∷ cs)

-- The loop of `min_viable_change`; the first argument bounds its rounds.
unfoldable pub smallest_fit : (ℕ → Bool) → ℕ → ℕ → ℕ → Option ℕ
smallest_fit fits zero lo hi = if ltb lo hi then none else some lo
smallest_fit fits (suc rounds) lo hi =
    let mid = lo + (hi - lo) / 2 in
    let rest =
      smallest_fit fits rounds (if fits mid then lo else mid + 1) (if fits mid then mid else hi) in
    if ltb lo hi then rest else some lo

-- The loop of `rate_fee`, up to the largest amount; the first argument is what is left to it.
unfoldable pub raise_fee : (ℕ → Bool) → ℕ → ℕ → ℕ
raise_fee short zero fee = fee
raise_fee short (suc left) fee = elim (short fee) [
  | true ↦ raise_fee short left (fee + 1)
  | false ↦ fee
]

module _ (k : Consensus) where
  -- `MIN_FEERATE_PER_GRAM` times the fee-binding mass
  abbrev pub min_fee : k.Tx → ℕ
  min_fee tx = (100 * k.binding_mass tx) % 18446744073709551616

  abbrev pub with_change : List Cell → Cell → ℕ → List Cell
  with_change fixed slot change =
      fixed ++ record { plurality = slot.plurality; amount = change } ∷ []

  -- The storage mass at a change value.
  abbrev pub change_storage : List Cell → List Cell → Cell → ℕ → ℕ
  change_storage inputs fixed slot change =
      or_max (k.storage_mass inputs (with_change fixed slot change))

  -- `none` is the loop out of rounds.
  abbrev pub viable_with : List Cell → Option (Cell × List Cell) → Option (Option ℕ)
  viable_with inputs none = some none
  viable_with inputs (some (slot, fixed)) =
      if leb (change_storage inputs fixed slot k.max_sompi) k.storage_limit
      then and_then
          (smallest_fit (λ c. leb (change_storage inputs fixed slot c) k.storage_limit) 64 1
            k.max_sompi)
          (λ v. some (some v))
      else some none

  unfoldable pub min_viable_change : List Cell → List Cell → Option (Option ℕ)
  min_viable_change inputs outputs = viable_with inputs (split_last outputs)

  -- Without a change slot the code panics, in `split_at`. The one caller, `attempt`, has passed
  -- `min_viable_change` before, which finds no change without a slot.
  abbrev pub priority_mass : k.Tx → List Cell → List Cell → ℕ → ℕ
  priority_mass tx inputs outputs change =
      k.normalized_max tx (priority_storage (split_last outputs))
    where
      priority_storage : Option (Cell × List Cell) → ℕ
      priority_storage none = u64_max
      priority_storage (some (slot, fixed)) = change_storage inputs fixed slot change

  unfoldable pub rate_fee : k.Rate → ℕ → ℕ → ℕ
  rate_fee rate floor_fee pm =
      let start = max floor_fee (k.rate_product rate pm) in
      raise_fee (λ fee. k.pays_less rate fee pm) (u64_max - start) start

  abbrev pub dropped_storage : k.Tx → List k.Entry → ℕ
  dropped_storage tx entries =
      or_max (k.storage_mass (map k.input_cell entries) (k.output_cells tx))

  unfoldable pub dropped_required_fee : FeePolicy k.Rate → k.Tx → List k.Entry → DroppedRequirement
  dropped_required_fee floor tx entries = record { floor_fee = min_fee tx; required = min_fee tx }
  dropped_required_fee (target_feerate rate) tx entries = record {
    floor_fee = min_fee tx;
    required = rate_fee rate (min_fee tx) (k.normalized_max tx (dropped_storage tx entries));
  }

  -- The rounds of `required_fee`; `inl` is `Ok` and `inr` is `Err`.
  unfoldable pub fee_rounds : k.Rate → ℕ → ℕ → ℕ → (ℕ → ℕ) → ℕ → ℕ → ℕ ⊎ ℕ
  fee_rounds rate floor_fee available cap pm zero fee = inr fee
  fee_rounds rate floor_fee available cap pm (suc rounds) fee =
      let required = rate_fee rate floor_fee (pm (available - fee)) in
      let rest = fee_rounds rate floor_fee available cap pm rounds required in
      if ltb cap required then inr required else if leb required fee then inl fee else rest

  unfoldable pub required_fee : FeePolicy k.Rate → ℕ → ℕ → ℕ → (ℕ → ℕ) → ℕ ⊎ ℕ
  required_fee floor floor_fee available cap pm =
      if ltb cap floor_fee then inr floor_fee else inl floor_fee
  required_fee (target_feerate rate) floor_fee available cap pm =
      if ltb cap floor_fee
      then inr floor_fee
      else fee_rounds rate floor_fee available cap pm 256 floor_fee

  -- `fee_paid`; the difference panics where the outputs are worth more.
  unfoldable pub fee_paid : k.Tx → List k.Entry → Option ℕ
  fee_paid tx entries =
      if ltb (sum_u64 (map k.amounts entries)) (sum_u64 (k.values tx))
      then none
      else some (sum_u64 (map k.amounts entries) - sum_u64 (k.values tx))

-- The bookkeeping of the walk over the prefixes of the candidates.
pub record Walk : Type 0 where
  pub shortfall : Option (ℕ × ℕ)
  pub infeasible : Option BuildError
  pub degraded : Option Funding

abbrev pub new_walk : Walk
new_walk = record { shortfall = none; infeasible = none; degraded = none }

-- `ControlFlow`
pub data Flow : Type 0 where
  breaks : Funding → Flow
  continues : Walk → Flow

-- `conclude`; `none` is its `expect`.
abbrev pub conclude_short : Option BuildError → Option (ℕ × ℕ) → Option (Funding ⊎ BuildError)
conclude_short infeasible (some (available, required)) =
    some (inr (insufficient_funds available required))
conclude_short (some error) none = some (inr error)
conclude_short none none = none

abbrev pub conclude_degraded : Walk → Option Funding → Option (Funding ⊎ BuildError)
conclude_degraded w (some funding) = some (inl funding)
conclude_degraded w none = conclude_short w.infeasible w.shortfall

abbrev pub conclude : Walk → Option (Funding ⊎ BuildError)
conclude w = conclude_degraded w w.degraded

module _ (k : Consensus) (policy : FeePolicy k.Rate) (change_required : Bool)
    (probe : ℕ → Option ℕ → k.Tx × List k.Entry) where
  abbrev pub continue_dropped : ℕ → ℕ → ℕ → Walk → Flow
  continue_dropped n available required w = continues (record {
    shortfall = some (available, required);
    infeasible = w.infeasible;
    degraded =
        if is_target policy
        then some (record { inputs = n; fee = available; change = none })
        else w.degraded;
  })

  unfoldable pub try_dropped : ℕ → ℕ → Walk → Flow
  try_dropped n available w =
      let dropped = (probe n none).0 in
      let entries = (probe n none).1 in
      let requirement = dropped_required_fee k policy dropped entries in
      let storage = dropped_storage k dropped entries in
      if ltb available requirement.floor_fee
      then continues (record w { shortfall = some (available, requirement.required) })
      else if ltb k.storage_limit storage
      then continues (record w { infeasible = some (storage_infeasible storage k.storage_limit) })
      else if ltb available requirement.required
      then continue_dropped n available requirement.required w
      else breaks (record { inputs = n; fee = available; change = none })

  -- The with-change layout falls short.
  abbrev pub fall_back : ℕ → ℕ → ℕ → Walk → Flow
  fall_back n available required w =
      if change_required
      then continues (record w { shortfall = some (available, required) })
      else try_dropped n available w

  abbrev pub attempt_priced : ℕ → ℕ → ℕ → ℕ → Walk → ℕ ⊎ ℕ → Flow
  attempt_priced n available floor_fee viable w (inl fee) =
      breaks (record { inputs = n; fee = fee; change = some (available - fee) })
  attempt_priced n available floor_fee viable w (inr crossing_fee) =
      fall_back n available (saturating_add crossing_fee viable) (record w {
        degraded =
            if is_target policy && leb floor_fee (available - viable)
            then some (record { inputs = n; fee = available - viable; change = some viable })
            else w.degraded;
      })

  abbrev pub attempt_viable : ℕ → ℕ → ℕ → k.Tx → List Cell → Walk → Option (Option ℕ) → Option Flow
  attempt_viable n available floor_fee tx inputs w none = none
  attempt_viable n available floor_fee tx inputs w (some none) = some (
      continues (record w {
        infeasible = some (
            storage_infeasible (or_max (k.storage_mass inputs (all_but_last (k.output_cells tx))))
              k.storage_limit);
      }))
  attempt_viable n available floor_fee tx inputs w (some (some viable)) = some (
      attempt_priced n available floor_fee viable w (
        required_fee k policy floor_fee available (available - viable)
          (priority_mass k tx inputs (k.output_cells tx))))

  -- The slack of a prefix, which stops at 0.
  abbrev pub available_at : ℕ → ℕ
  available_at n =
      sum_u64 (map k.amounts (probe n (some 0)).1) - sum_u64 (k.values (probe n (some 0)).0)

  unfoldable pub attempt : ℕ → Walk → Option Flow
  attempt n w =
      let tx = (probe n (some 0)).0 in
      let inputs = map k.input_cell (probe n (some 0)).1 in
      let available = available_at n in
      let floor_fee = min_fee k tx in
      if ltb available floor_fee
      then some (fall_back n available floor_fee w)
      else attempt_viable n available floor_fee tx inputs w
          (min_viable_change k inputs (k.output_cells tx))

  abbrev pub after_attempt :
      (Walk → Option (Funding ⊎ BuildError)) → Option Flow → Option (Funding ⊎ BuildError)
  after_attempt go_on none = none
  after_attempt go_on (some (breaks funding)) = some (inl funding)
  after_attempt go_on (some (continues w)) = go_on w

  -- The attempts at `count` prefixes from `n` on.
  unfoldable pub walk_prefixes : ℕ → ℕ → Walk → Option (Funding ⊎ BuildError)
  walk_prefixes zero n w = conclude w
  walk_prefixes (suc count) n w = after_attempt (walk_prefixes count (n + 1)) (attempt n w)

  -- `fund` of so many candidates.
  unfoldable pub fund : ℕ → Option (Funding ⊎ BuildError)
  fund zero = some (
      inr (insufficient_funds 0 (min_fee k (probe 0 (if change_required then some 0 else none)).0)))
  fund (suc count) = walk_prefixes (suc count) 1 new_walk
