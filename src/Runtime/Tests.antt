-- ===== src/Runtime/Tests.antt =====
-- The theorems on zk/backend/risc0/runtime-processor/src at a transaction of three actions.
use vprogs.Base.{ℕ, ◌+◌, ◌≡◌, refl, true, List, [], ◌∷◌, none, some, ◌==◌, if◌then◌else◌}
use vprogs.Runtime.{
  Scheme, DepositPolicy, Context, Resource, Lifecycle, ActionBody, ok, new, live, empty, config,
  user, transfer, deposit, withdraw, apply_transfer, apply_withdraw, apply_deposit, apply_action,
  apply_actions, create_transition, init_user, find_config, validate_user_create,
}
use vprogs.Runtime.Transfer.{Moved, transfer_conserves}
use vprogs.Runtime.Exit.{Withdrawn, Deposited, withdraw_debits, deposit_credits}
use vprogs.Runtime.Conserved.{Conserved, actions_conserve}

-- A lock is the number of its one signer.
abbrev scheme : Scheme ℕ ℕ
scheme = record {
  unlock = λ lock idx signer. lock == signer;
  id_hash = λ lock. lock;
  derive_user_resource = λ hash. hash + 100;
  config_resource_id = 1;
  genesis_lock = 0;
  delegate_entry_spk_hash = λ covenant. covenant + 1;
}

abbrev policy : DepositPolicy ℕ
policy = record {
  deposit_spk = λ idx output lock covenant. covenant ∷ [];
  credit_target = λ idx output lock. some (record { user_idx = idx; may_create = true });
  min_create_balance = 10;
}

abbrev settings : Resource ℕ
settings = record {
  id = 1;
  contents = config (record { min_withdrawal_amount = 5; covenant_id = 44; lock = 9 });
}

abbrev account : ℕ → ℕ → Resource ℕ
account lock balance = record {
  id = lock + 100;
  contents = user (record { balance = balance; initial_lock_hash = lock; lock = lock });
}

abbrev context : List (Resource ℕ) → List Lifecycle → List (List ℕ × ℕ) → ℕ → List ℕ → Context ℕ ℕ
context resources lifecycle exits hash consumed = record {
  outputs =
      λ i. if i == 0 then some (record { value = 500; spk_version = 0; spk = 44 ∷ [] }) else none;
  resources = resources;
  lifecycle = lifecycle;
  auth_ctx = 7;
  exits = exits;
  deposit = hash;
  consumed_outputs = consumed;
}

-- Account 8 does not exist yet.
abbrev before : Context ℕ ℕ
before =
    context (settings ∷ account 7 1000 ∷ record { id = 108; contents = empty } ∷ [])
      (live ∷ live ∷ new ∷ []) [] 0 []

abbrev moved : Context ℕ ℕ
moved = context (settings ∷ account 7 700 ∷ account 8 300 ∷ []) (live ∷ live ∷ live ∷ []) [] 0 []

abbrev credited : Context ℕ ℕ
credited =
    context (settings ∷ account 7 700 ∷ account 8 800 ∷ []) (live ∷ live ∷ live ∷ []) [] 45 (0 ∷ [])

abbrev settled : Context ℕ ℕ
settled =
    context (settings ∷ account 7 650 ∷ account 8 800 ∷ []) (live ∷ live ∷ live ∷ [])
      ((3 ∷ [], 50) ∷ []) 45 (0 ∷ [])

transfers : apply_transfer scheme policy 1 2 300 (some 8) before ≡ ok moved
unfolding apply_transfer create_transition init_user validate_user_create
transfers = refl

deposits : apply_deposit scheme policy 2 0 8 moved ≡ ok credited
unfolding apply_deposit find_config
deposits = refl

withdraws : apply_withdraw scheme 1 50 (3 ∷ []) credited ≡ ok settled
unfolding apply_withdraw find_config
withdraws = refl

abbrev actions : List (ActionBody ℕ)
actions = transfer 1 2 300 (some 8) ∷ deposit 2 0 8 ∷ withdraw 1 50 (3 ∷ []) ∷ []

runs : apply_actions scheme policy actions before ≡ ok settled
unfolding apply_actions apply_action apply_transfer apply_deposit apply_withdraw find_config
    create_transition init_user validate_user_create
runs = refl

transfer_conserves_example : Moved scheme 1 2 300 before moved
transfer_conserves_example =
    transfer_conserves scheme policy 1 2 300 (some 8) before moved transfers

deposit_credits_example : Deposited scheme policy 2 0 8 moved credited
deposit_credits_example = deposit_credits scheme policy 2 0 8 moved credited deposits

withdraw_debits_example : Withdrawn scheme 1 50 (3 ∷ []) credited settled
withdraw_debits_example = withdraw_debits scheme 1 50 (3 ∷ []) credited settled withdraws

actions_conserve_example : Conserved before settled
actions_conserve_example =
    actions_conserve scheme policy actions before settled (tt, (tt, (tt, tt))) runs
