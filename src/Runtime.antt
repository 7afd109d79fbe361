-- ===== src/Runtime.antt =====
-- zk/backend/risc0/runtime-processor/src: the resource lifecycle (lifecycle.rs) and the actions of a
-- transaction (action.rs and its modules).
--
-- A resource's bytes are what the typed views of config.rs and user.rs read of them. Locks
-- (lock.rs), the derivation of ids (resource_id.rs) and the parsing of the outputs (tx_inputs.rs)
-- are an interface, `Scheme`. A failed action fails the transaction, whose buffers are dropped, so a
-- failure carries its reason alone; an index out of range is a panic and counts as one.
pub mod Slots
pub mod Transfer
pub mod Exit
pub mod Conserved
mod Tests
use vprogs.Base.{
  ℕ, zero, suc, ◌+◌, ◌-◌, ◌^◌, Bool, true, false, not, ◌&&◌, ◌||◌, List, [], ◌∷◌, ◌++◌, Option,
  none, some, ltb, leb, ◌==◌, if◌then◌else◌, get_elem?,
}

-- The messages of the errors, shortened.
pub data Error : Type 0 where
  panicked : Error
  double_create recreate_after_delete delete_of_never_created double_delete : Error
  same_resource dest_deleted no_dest_lock not_a_user lock_not_satisfied : Error
  address_mismatch below_minimum insufficient_balance balance_overflow slot_not_empty : Error
  no_config below_min_withdrawal : Error
  output_consumed bad_output wrong_deposit_script policy_refused index_out_of_range : Error
  create_forbidden initial_lock_mismatch target_deleted deposit_hash_conflict : Error
  not_the_config config_missing config_deleted config_exists covenant_immutable not_genesis
        bad_config :
      Error

pub data Outcome {ℓ} (A : Type ℓ) : Type ℓ where
  ok : A → Outcome A
  fail : Error → Outcome A

-- The operator `?`.
abbrev pub chain {ℓ κ} : {A : Type ℓ} {B : Type κ} → Outcome A → (A → Outcome B) → Outcome B
chain (ok a) f = f a
chain (fail e) f = fail e

abbrev pub ok_or {ℓ} : {A : Type ℓ} → Option A → Error → Outcome A
ok_or none e = fail e
ok_or (some a) e = ok a

abbrev pub require : Bool → Error → Outcome (Unit {0})
require true e = ok tt
require false e = fail e

pub data Lifecycle : Type 0 where
  new live deleted : Lifecycle

-- `created` and `deleted` of `Lifecycle`.
unfoldable pub create_transition : Lifecycle → Outcome Lifecycle
create_transition new = ok live
create_transition live = fail double_create
create_transition deleted = fail recreate_after_delete

unfoldable pub delete_transition : Lifecycle → Outcome Lifecycle
delete_transition new = fail delete_of_never_created
delete_transition live = ok deleted
delete_transition deleted = fail double_delete

pub record Config (L : Type 0) : Type 0 where
  pub min_withdrawal_amount : ℕ
  pub covenant_id : ℕ
  pub lock : L

pub record User (L : Type 0) : Type 0 where
  pub balance : ℕ
  pub initial_lock_hash : ℕ
  pub lock : L

-- The bytes of a resource: none, a valid config or user, or others.
pub data Contents (L : Type 0) : Type 0 where
  empty : Contents L
  config : Config L → Contents L
  user : User L → Contents L
  other : List ℕ → Contents L

pub record Resource (L : Type 0) : Type 0 where
  pub id : ℕ
  pub contents : Contents L

pub record Output : Type 0 where
  pub value : ℕ
  pub spk_version : ℕ
  pub spk : List ℕ

-- What other modules provide: locks over the signers' authority `A`, hashes and outputs.
pub record Scheme (L A : Type 0) : Type 0 where
  pub unlock : L → ℕ → A → Bool
  pub id_hash : L → ℕ
  pub derive_user_resource : ℕ → ℕ
  pub config_resource_id : ℕ
  pub genesis_lock : L
  pub delegate_entry_spk_hash : ℕ → ℕ

pub record CreditTarget : Type 0 where
  pub user_idx : ℕ
  pub may_create : Bool

-- The trait `DepositPolicy`; `deposit_spk` takes the action's fields and the covenant.
pub record DepositPolicy (L : Type 0) : Type 0 where
  pub deposit_spk : ℕ → ℕ → L → ℕ → List ℕ
  pub credit_target : ℕ → ℕ → L → Option CreditTarget
  pub min_create_balance : ℕ

pub record Context (L A : Type 0) : Type 0 where
  pub outputs : ℕ → Option Output
  pub resources : List (Resource L)
  pub lifecycle : List Lifecycle
  pub auth_ctx : A
  -- The exits, as pairs of a destination and an amount.
  pub exits : List (List ℕ × ℕ)
  -- The deposit hash; 0 stands for the unset one.
  pub deposit : ℕ
  pub consumed_outputs : List ℕ

abbrev pub set_at {ℓ} : {A : Type ℓ} → ℕ → A → List A → List A
set_at i a [] = []
set_at zero a (x ∷ xs) = a ∷ xs
set_at (suc i) a (x ∷ xs) = x ∷ set_at i a xs

abbrev pub contains : List ℕ → ℕ → Bool
contains [] i = false
contains (x ∷ xs) i = (x == i) || contains xs i

abbrev pub checked_sub : ℕ → ℕ → Outcome ℕ
checked_sub a b = if leb b a then ok (a - b) else fail insufficient_balance

abbrev pub checked_add : ℕ → ℕ → Outcome ℕ
checked_add a b = if ltb (a + b) (2 ^ 64) then ok (a + b) else fail balance_overflow

-- Equality of byte slices.
abbrev pub same_bytes : List ℕ → List ℕ → Bool
same_bytes [] [] = true
same_bytes (x ∷ xs) (y ∷ ys) = x == y && same_bytes xs ys
same_bytes _ _ = false

module _ {L : Type 0} where
  abbrev pub lifecycle_of : Resource L → Lifecycle
  lifecycle_of r = elim r.contents [
    | empty ↦ new
    | config c ↦ live
    | user u ↦ live
    | other bytes ↦ live
  ]

  abbrev pub user_in : Contents L → Option (User L)
  user_in empty = none
  user_in (config c) = none
  user_in (user u) = some u
  user_in (other bytes) = none

  abbrev pub view_user : Resource L → Option (User L)
  view_user r = user_in r.contents

  abbrev pub view_config : Resource L → Option (Config L)
  view_config r = elim r.contents [
    | empty ↦ none
    | config c ↦ some c
    | user u ↦ none
    | other bytes ↦ none
  ]

  abbrev pub no_data : Contents L → Bool
  no_data empty = true
  no_data (config c) = false
  no_data (user u) = false
  no_data (other bytes) = false

  abbrev pub is_empty : Resource L → Bool
  is_empty r = no_data r.contents

  abbrev pub with_balance : Resource L → User L → ℕ → Resource L
  with_balance r u balance = record r { contents = user (record u { balance = balance }) }

  unfoldable pub init_user : Resource L → ℕ → ℕ → L → Outcome (Resource L)
  init_user r balance initial_lock_hash lock =
      if is_empty r
      then ok (record r {
        contents =
            user (record { balance = balance; initial_lock_hash = initial_lock_hash; lock = lock });
      })
      else fail slot_not_empty

  -- The scan for the config resource, which stops at its id.
  unfoldable pub find_config : ℕ → List (Resource L) → Option (Config L)
  find_config id [] = none
  find_config id (r ∷ rs) =
      let rest = find_config id rs in if r.id == id then view_config r else rest

-- What the deposit does to its target, decided before any change.
pub data CreditKind (L : Type 0) : Type 0 where
  create : ℕ → CreditKind L
  credit_existing : User L → ℕ → CreditKind L

-- `ActionBody` of ix.rs.
pub data ActionBody (L : Type 0) : Type 0 where
  update init : ℕ → ℕ → ℕ → L → ActionBody L
  transfer : ℕ → ℕ → ℕ → Option L → ActionBody L
  update_user_lock : ℕ → L → ActionBody L
  deposit : ℕ → ℕ → L → ActionBody L
  withdraw : ℕ → ℕ → List ℕ → ActionBody L

module _ {L A : Type 0} (S : Scheme L A) where
  -- `mark_created` and `mark_deleted`.
  abbrev pub mark_created : Context L A → ℕ → Outcome (Context L A)
  mark_created cx idx = chain (ok_or (get_elem? cx.lifecycle idx) panicked) (λ l.
      chain (create_transition l) (λ l'. ok (record cx { lifecycle = set_at idx l' cx.lifecycle })))

  abbrev pub mark_deleted : Context L A → ℕ → Outcome (Context L A)
  mark_deleted cx idx = chain (ok_or (get_elem? cx.lifecycle idx) panicked) (λ l.
      chain (delete_transition l) (λ l'. chain (ok_or (get_elem? cx.resources idx) panicked) (λ r.
        ok (record cx {
          lifecycle = set_at idx l' cx.lifecycle;
          resources = set_at idx (record r { contents = empty }) cx.resources;
        }))))

  unfoldable pub validate_user_create : ℕ → L → ℕ → ℕ → Outcome ℕ
  validate_user_create slot_id initial_lock funding min_balance =
      let ilh = S.id_hash initial_lock in
      if not (slot_id == S.derive_user_resource ilh)
      then fail address_mismatch
      else (if ltb funding min_balance then fail below_minimum else ok ilh)

  abbrev pub dest_create : Lifecycle → Outcome Bool
  dest_create new = ok true
  dest_create live = ok false
  dest_create deleted = fail dest_deleted

  -- The validated creation of a new destination, if it is one.
  abbrev pub create_plan :
      DepositPolicy L → Bool → Resource L → ℕ → Option L → Outcome (Option (ℕ × L))
  create_plan policy false dst amount dest_init = ok none
  create_plan policy true dst amount none = fail no_dest_lock
  create_plan policy true dst amount (some lock) =
      chain (validate_user_create dst.id lock amount policy.min_create_balance)
        (λ ilh. ok (some (ilh, lock)))

  abbrev pub credit : Option (ℕ × L) → Resource L → ℕ → Outcome (Resource L)
  credit (some (ilh, lock)) dst amount = init_user dst amount ilh lock
  credit none dst amount =
      chain (ok_or (view_user dst) not_a_user)
        (λ v. chain (checked_add v.balance amount) (λ balance. ok (with_balance dst v balance)))

  abbrev pub created_mark : Bool → Context L A → ℕ → Outcome (Context L A)
  created_mark true cx idx = mark_created cx idx
  created_mark false cx idx = ok cx

  unfoldable pub apply_transfer :
      DepositPolicy L → ℕ → ℕ → ℕ → Option L → Context L A → Outcome (Context L A)
  apply_transfer policy source_idx dest_idx amount dest_init cx =
      chain (require (not (source_idx == dest_idx)) same_resource) (λ u.
        chain (chain (ok_or (get_elem? cx.lifecycle dest_idx) panicked) dest_create) (λ dst_create.
          chain (ok_or (get_elem? cx.resources source_idx) panicked) (λ src.
            chain (ok_or (get_elem? cx.resources dest_idx) panicked) (λ dst.
              chain (ok_or (view_user src) not_a_user) (λ v.
                chain (require (S.unlock v.lock source_idx cx.auth_ctx) lock_not_satisfied) (λ u.
                  chain (create_plan policy dst_create dst amount dest_init) (λ plan.
                    chain (checked_sub v.balance amount) (λ left.
                      chain (credit plan dst amount) (λ dst'.
                        created_mark dst_create
                          (record cx {
                            resources =
                                set_at dest_idx dst'
                                  (set_at source_idx (with_balance src v left) cx.resources);
                          })
                          dest_idx)))))))))

  unfoldable pub apply_update_user_lock : ℕ → L → Context L A → Outcome (Context L A)
  apply_update_user_lock user_idx new_lock cx =
      chain (ok_or (get_elem? cx.resources user_idx) panicked) (λ target.
        chain (ok_or (view_user target) not_a_user) (λ v.
          chain (require (S.unlock v.lock user_idx cx.auth_ctx) lock_not_satisfied) (λ u.
            ok (record cx {
              resources =
                  set_at user_idx (record target { contents = user (record v { lock = new_lock }) })
                    cx.resources;
            }))))

  unfoldable pub apply_withdraw : ℕ → ℕ → List ℕ → Context L A → Outcome (Context L A)
  apply_withdraw user_idx amount dest cx =
      chain (ok_or (find_config S.config_resource_id cx.resources) no_config) (λ c.
        chain (ok_or (get_elem? cx.resources user_idx) panicked) (λ r.
          chain (ok_or (view_user r) not_a_user) (λ v.
            chain (require (S.unlock v.lock user_idx cx.auth_ctx) lock_not_satisfied) (λ u.
              chain (require (leb c.min_withdrawal_amount amount) below_min_withdrawal) (λ u.
                chain (checked_sub v.balance amount) (λ left. ok (record cx {
                  resources = set_at user_idx (with_balance r v left) cx.resources;
                  exits = cx.exits ++ ((dest, amount) ∷ []);
                })))))))

  -- `DepositSink::set` of zk/abi.
  abbrev pub set_deposit : ℕ → ℕ → Outcome ℕ
  set_deposit old hash =
      if old == 0 then ok hash else (if old == hash then ok old else fail deposit_hash_conflict)

  abbrev pub credit_kind :
      DepositPolicy L → CreditTarget → L → ℕ → Resource L → Lifecycle → Outcome (CreditKind L)
  credit_kind policy target initial_lock value r new =
      chain (require target.may_create create_forbidden) (λ u.
        chain (validate_user_create r.id initial_lock value policy.min_create_balance)
          (λ ilh. ok (create ilh)))
  credit_kind policy target initial_lock value r live = chain (ok_or (view_user r) not_a_user) (λ v.
      chain (require (v.initial_lock_hash == S.id_hash initial_lock) initial_lock_mismatch)
        (λ u. chain (checked_add v.balance value) (λ balance. ok (credit_existing v balance))))
  credit_kind policy target initial_lock value r deleted = fail target_deleted

  abbrev pub apply_credit :
      CreditKind L → L → ℕ → ℕ → Resource L → Context L A → Outcome (Context L A)
  apply_credit (create ilh) initial_lock value idx r cx = chain (mark_created cx idx) (λ cx'.
      chain (init_user r value ilh initial_lock)
        (λ r'. ok (record cx' { resources = set_at idx r' cx'.resources })))
  apply_credit (credit_existing v balance) initial_lock value idx r cx =
      ok (record cx { resources = set_at idx (with_balance r v balance) cx.resources })

  unfoldable pub apply_deposit : DepositPolicy L → ℕ → ℕ → L → Context L A → Outcome (Context L A)
  apply_deposit policy user_idx output_idx initial_lock cx =
      chain (require (not (contains cx.consumed_outputs output_idx)) output_consumed) (λ u.
        chain (ok_or (find_config S.config_resource_id cx.resources) no_config) (λ c.
          chain (ok_or (cx.outputs output_idx) bad_output) (λ out.
            chain
              (require
                (out.spk_version == 0
                  && same_bytes out.spk
                      (policy.deposit_spk user_idx output_idx initial_lock c.covenant_id))
                wrong_deposit_script)
              (λ u.
                chain (ok_or (policy.credit_target user_idx output_idx initial_lock) policy_refused)
                  (λ target.
                    chain (ok_or (get_elem? cx.resources target.user_idx) index_out_of_range) (λ r.
                      chain (ok_or (get_elem? cx.lifecycle target.user_idx) panicked) (λ l.
                        chain (credit_kind policy target initial_lock out.value r l) (λ kind.
                          chain (set_deposit cx.deposit (S.delegate_entry_spk_hash c.covenant_id))
                            (λ hash.
                              apply_credit kind initial_lock out.value target.user_idx r
                                (record cx {
                                  deposit = hash;
                                  consumed_outputs = cx.consumed_outputs ++ (output_idx ∷ []);
                                }))))))))))

  abbrev pub require_live : Lifecycle → Outcome (Unit {0})
  require_live live = ok tt
  require_live new = fail config_missing
  require_live deleted = fail config_deleted

  abbrev pub require_new : Lifecycle → Outcome (Unit {0})
  require_new new = ok tt
  require_new live = fail config_exists
  require_new deleted = fail config_exists

  -- `write_new_state`: the resource becomes the encoded config.
  abbrev pub write_new_state : Resource L → ℕ → ℕ → L → Resource L
  write_new_state r min_withdrawal_amount covenant_id lock = record r {
    contents = config (record {
      min_withdrawal_amount = min_withdrawal_amount;
      covenant_id = covenant_id;
      lock = lock;
    });
  }

  unfoldable pub apply_update : ℕ → ℕ → ℕ → L → Context L A → Outcome (Context L A)
  apply_update idx new_min new_covenant_id new_lock cx =
      chain (ok_or (get_elem? cx.resources idx) panicked) (λ target.
        chain (require (target.id == S.config_resource_id) not_the_config) (λ u.
          chain (chain (ok_or (get_elem? cx.lifecycle idx) panicked) require_live) (λ u.
            chain (ok_or (view_config target) bad_config) (λ cur.
              chain (require (new_covenant_id == cur.covenant_id) covenant_immutable) (λ u.
                chain (require (S.unlock cur.lock idx cx.auth_ctx) lock_not_satisfied) (λ u.
                  ok (record cx {
                    resources =
                        set_at idx (write_new_state target new_min new_covenant_id new_lock)
                          cx.resources;
                  })))))))

  unfoldable pub apply_init : ℕ → ℕ → ℕ → L → Context L A → Outcome (Context L A)
  apply_init idx new_min new_covenant_id new_lock cx =
      chain (ok_or (get_elem? cx.resources idx) panicked) (λ target.
        chain (require (target.id == S.config_resource_id) not_the_config) (λ u.
          chain (chain (ok_or (get_elem? cx.lifecycle idx) panicked) require_new) (λ u.
            chain (require (S.unlock S.genesis_lock idx cx.auth_ctx) not_genesis) (λ u.
              mark_created
                (record cx {
                  resources =
                      set_at idx (write_new_state target new_min new_covenant_id new_lock)
                        cx.resources;
                })
                idx))))

  unfoldable pub apply_action : DepositPolicy L → ActionBody L → Context L A → Outcome (Context L A)
  apply_action policy (update idx new_min covenant lock) cx =
      apply_update idx new_min covenant lock cx
  apply_action policy (init idx new_min covenant lock) cx = apply_init idx new_min covenant lock cx
  apply_action policy (transfer source dest amount dest_init) cx =
      apply_transfer policy source dest amount dest_init cx
  apply_action policy (update_user_lock idx lock) cx = apply_update_user_lock idx lock cx
  apply_action policy (deposit idx output_idx lock) cx = apply_deposit policy idx output_idx lock cx
  apply_action policy (withdraw idx amount dest) cx = apply_withdraw idx amount dest cx

  -- The loop of `run` over the decoded actions.
  unfoldable pub apply_actions :
      DepositPolicy L → List (ActionBody L) → Context L A → Outcome (Context L A)
  apply_actions policy [] cx = ok cx
  apply_actions policy (a ∷ actions) cx =
      chain (apply_action policy a cx) (apply_actions policy actions)
