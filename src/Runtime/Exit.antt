-- ===== src/Runtime/Exit.antt =====
-- The withdrawal and the deposit of zk/backend/risc0/runtime-processor/src/action/withdraw.rs and
-- deposit.rs.
use vprogs.Base.{
  ℕ, ◌+◌, ◌≤◌, ◌≡◌, refl, ◌∙◌, ap, Bool, true, false, not, ◌&&◌, List, [], ◌∷◌, ◌++◌, some, arith,
  leb, ◌==◌, get_elem?,
}
use vprogs.Runtime.{
  Scheme, DepositPolicy, CreditTarget, CreditKind, Context, Resource, User, Config, Output, Error,
  Lifecycle, ok, ok_or, require, set_at, view_user, with_balance, checked_sub, checked_add,
  init_user, find_config, contains, same_bytes, set_deposit, credit_kind, apply_credit,
  mark_created, validate_user_create, apply_withdraw, apply_deposit, new, live, deleted,
}
use vprogs.Runtime.Slots.{
  total, total-set_at, view_user_lem, After, After-chain, After_ok, After-imp, ok_or_ok,
}
use vprogs.Runtime.Transfer.{
  checked_sub-After, checked_add-After, require_ok, init_user-After, created_mark-After,
}

module _ {L A : Type 0} (S : Scheme L A) where
  -- What a withdrawal that succeeds has checked, and what it leaves.
  pub record Withdrawn (user_idx amount : ℕ) (dest : List ℕ) (cx c : Context L A) : Type 0 where
    pub settings : Config L
    pub payer : Resource L
    pub payer_user : User L
    pub configured : find_config S.config_resource_id cx.resources ≡ some settings
    pub found : get_elem? cx.resources user_idx ≡ some payer
    pub is_user : view_user payer ≡ some payer_user
    pub authorized : S.unlock payer_user.lock user_idx cx.auth_ctx ≡ true
    pub enough : settings.min_withdrawal_amount ≤ amount
    pub funded : amount ≤ payer_user.balance
    pub debited : total c.resources + amount ≡ total cx.resources
    pub emitted : c.exits ≡ cx.exits ++ ((dest, amount) ∷ [])
    pub outputs_kept : c.consumed_outputs ≡ cx.consumed_outputs
    pub same_transaction : c.outputs ≡ cx.outputs

  pub apply_withdraw-Withdrawn :
      (user_idx amount : ℕ) (dest : List ℕ) (cx : Context L A)
      → After (Withdrawn user_idx amount dest cx) (apply_withdraw S user_idx amount dest cx)
  unfolding apply_withdraw
  apply_withdraw-Withdrawn user_idx amount dest cx =
      After-chain P (ok_or (find_config S.config_resource_id cx.resources) Error.no_config) _
        (λ c e0. After-chain P (ok_or (get_elem? cx.resources user_idx) Error.panicked) _ (λ r e1.
          After-chain P (ok_or (view_user r) Error.not_a_user) _ (λ v e2.
            After-chain P (require (S.unlock v.lock user_idx cx.auth_ctx) Error.lock_not_satisfied)
              _
              (λ u e3.
                After-chain P
                  (require (leb c.min_withdrawal_amount amount) Error.below_min_withdrawal) _
                  (λ w e4. After-chain P (checked_sub v.balance amount) _ (λ left e5.
                    let found = ok_or_ok (get_elem? cx.resources user_idx) Error.panicked r e1 in
                    let user = ok_or_ok (view_user r) Error.not_a_user v e2 in
                    let debit =
                      After_ok _ (checked_sub v.balance amount) left
                        (checked_sub-After v.balance amount) e5 in
                    record {
                      settings = c;
                      payer = r;
                      payer_user = v;
                      configured =
                          ok_or_ok (find_config S.config_resource_id cx.resources) Error.no_config c
                            e0;
                      found = found;
                      is_user = user;
                      authorized =
                          require_ok (S.unlock v.lock user_idx cx.auth_ctx) Error.lock_not_satisfied
                            u e3;
                      enough = ground (
                        arith,
                        require_ok (leb c.min_withdrawal_amount amount) Error.below_min_withdrawal w
                            e4,
                      );
                      funded = omega arith;
                      debited = omega (
                        arith,
                        total-set_at cx.resources user_idx r (with_balance r v left) found,
                        view_user_lem r v user,
                      );
                      emitted = refl;
                      outputs_kept = refl;
                      same_transaction = refl;
                    }))))))
    where
      P : Context L A → Type 0
      P = Withdrawn user_idx amount dest cx

  -- A withdrawal that succeeds found a live config, is not below its minimum, was unlocked by the
  -- user's current lock and covered by its balance, lowers the sum of the balances by the amount,
  -- and appends that exit alone.
  pub withdraw_debits :
      (user_idx amount : ℕ) (dest : List ℕ) (cx c : Context L A)
      → apply_withdraw S user_idx amount dest cx ≡ ok c
      → Withdrawn user_idx amount dest cx c
  withdraw_debits user_idx amount dest cx c e =
      After_ok (Withdrawn user_idx amount dest cx) (apply_withdraw S user_idx amount dest cx) c
        (apply_withdraw-Withdrawn user_idx amount dest cx) e

  -- What a deposit that succeeds has checked, and what it leaves.
  pub record Deposited (policy : DepositPolicy L) (user_idx output_idx : ℕ) (initial_lock : L)
      (cx c : Context L A) : Type 0 where
    pub settings : Config L
    pub output : Output
    pub unspent : contains cx.consumed_outputs output_idx ≡ false
    pub configured : find_config S.config_resource_id cx.resources ≡ some settings
    pub found : cx.outputs output_idx ≡ some output
    pub pays :
        same_bytes output.spk
          (policy.deposit_spk user_idx output_idx initial_lock settings.covenant_id)
        ≡ true
    pub credited : total c.resources ≡ total cx.resources + output.value
    pub exits_kept : c.exits ≡ cx.exits
    pub consumed : c.consumed_outputs ≡ cx.consumed_outputs ++ (output_idx ∷ [])
    pub same_transaction : c.outputs ≡ cx.outputs

  -- The kind of a credit is worked out for the resource as it stands.
  abbrev Decided : Resource L → ℕ → CreditKind L → Type 0
  Decided r value (CreditKind.create ilh) = Unit
  Decided r value (CreditKind.credit_existing v balance) =
      (view_user r ≡ some v) × (balance ≡ v.balance + value)

  credit_kind-Decided :
      (policy : DepositPolicy L) (target : CreditTarget) (lock : L) (value : ℕ) (r : Resource L)
      (l : Lifecycle)
      → After (Decided r value) (credit_kind S policy target lock value r l)
  credit_kind-Decided policy target lock value r new =
      After-chain (Decided r value) (require target.may_create Error.create_forbidden) _ (λ u e0.
        After-chain (Decided r value)
          (validate_user_create S r.id lock value policy.min_create_balance) _ (λ ilh e1. tt))
  credit_kind-Decided policy target lock value r live =
      After-chain (Decided r value) (ok_or (view_user r) Error.not_a_user) _ (λ v e0.
        After-chain (Decided r value)
          (require (v.initial_lock_hash == S.id_hash lock) Error.initial_lock_mismatch) _
          (λ u e1. After-chain (Decided r value) (checked_add v.balance value) _ (λ b e2. (
            ok_or_ok (view_user r) Error.not_a_user v e0,
            (After_ok _ (checked_add v.balance value) b (checked_add-After v.balance value) e2).0,
          ))))
  credit_kind-Decided policy target lock value r deleted = tt

  abbrev Credited : Context L A → ℕ → Context L A → Type 0
  Credited cx value c =
      (total c.resources ≡ total cx.resources + value)
      × (c.exits ≡ cx.exits)
      × (c.consumed_outputs ≡ cx.consumed_outputs)
      × (c.outputs ≡ cx.outputs)

  apply_credit-Credited :
      (kind : CreditKind L) (lock : L) (value idx : ℕ) (r : Resource L) (cx : Context L A)
      → Decided r value kind
      → get_elem? cx.resources idx ≡ some r
      → After (Credited cx value) (apply_credit S kind lock value idx r cx)
  apply_credit-Credited (CreditKind.create ilh) lock value idx r cx k found =
      After-chain (Credited cx value) (mark_created S cx idx) _ (λ cx' e0.
        After-chain (Credited cx value) (init_user r value ilh lock) _ (λ r' e1.
          let kept = After_ok _ (mark_created S cx idx) cx' (created_mark-After S true cx idx) e0 in
          let add =
            After_ok _ (init_user r value ilh lock) r' (init_user-After S r value ilh lock) e1 in
          (
            ap (λ (rs : List (Resource L)). total (set_at idx r' rs)) kept.0
                ∙ omega (arith, total-set_at cx.resources idx r r' found),
            kept.1,
            kept.2,
            kept.3,
          )))
  apply_credit-Credited (CreditKind.credit_existing v balance) lock value idx r cx k found = (
    omega (
      arith,
      total-set_at cx.resources idx r (with_balance r v balance) found,
      view_user_lem r v k.0,
      k.1,
    ),
    refl,
    refl,
    refl,
  )

  abbrev pays_script : DepositPolicy L → ℕ → ℕ → L → Output → Config L → Bool
  pays_script policy user_idx output_idx lock out c =
      out.spk_version == 0
      && same_bytes out.spk (policy.deposit_spk user_idx output_idx lock c.covenant_id)

  pub apply_deposit-Deposited :
      (policy : DepositPolicy L) (user_idx output_idx : ℕ) (lock : L) (cx : Context L A)
      → After
          (Deposited policy user_idx output_idx lock cx)
          (apply_deposit S policy user_idx output_idx lock cx)
  unfolding apply_deposit
  apply_deposit-Deposited policy user_idx output_idx lock cx =
      After-chain P (require (not (contains cx.consumed_outputs output_idx)) Error.output_consumed)
        _
        (λ u e0.
          After-chain P (ok_or (find_config S.config_resource_id cx.resources) Error.no_config) _
            (λ c e1. After-chain P (ok_or (cx.outputs output_idx) Error.bad_output) _ (λ out e2.
              After-chain P
                (require (pays_script policy user_idx output_idx lock out c)
                  Error.wrong_deposit_script)
                _
                (λ u' e3.
                  After-chain P
                    (ok_or (policy.credit_target user_idx output_idx lock) Error.policy_refused) _
                    (λ target e4.
                      After-chain P
                        (ok_or (get_elem? cx.resources target.user_idx) Error.index_out_of_range) _
                        (λ r e5.
                          After-chain P
                            (ok_or (get_elem? cx.lifecycle target.user_idx) Error.panicked) _
                            (λ l e6.
                              After-chain P (credit_kind S policy target lock out.value r l) _
                                (λ kind e7.
                                  After-chain P
                                    (set_deposit S cx.deposit
                                      (S.delegate_entry_spk_hash c.covenant_id))
                                    _
                                    (λ hash e8.
                                      After-imp _ P _
                                        (λ d kept. record {
                                          settings = c;
                                          output = out;
                                          unspent = ground (
                                            arith,
                                            require_ok
                                                (not (contains cx.consumed_outputs output_idx))
                                                Error.output_consumed u e0,
                                          );
                                          configured =
                                              ok_or_ok
                                                (find_config S.config_resource_id cx.resources)
                                                Error.no_config c e1;
                                          found =
                                              ok_or_ok (cx.outputs output_idx) Error.bad_output out
                                                e2;
                                          pays = ground (
                                            arith,
                                            require_ok
                                                (pays_script policy user_idx output_idx lock out c)
                                                Error.wrong_deposit_script u' e3,
                                          );
                                          credited = kept.0;
                                          exits_kept = kept.1;
                                          consumed = kept.2;
                                          same_transaction = kept.3;
                                        })
                                        (apply_credit-Credited kind lock out.value target.user_idx r
                                          (record cx {
                                            deposit = hash;
                                            consumed_outputs =
                                                cx.consumed_outputs ++ (output_idx ∷ []);
                                          })
                                          (After_ok _
                                            (credit_kind S policy target lock out.value r l) kind
                                            (credit_kind-Decided policy target lock out.value r l)
                                            e7)
                                          (ok_or_ok (get_elem? cx.resources target.user_idx)
                                            Error.index_out_of_range r e5)))))))))))
    where
      P : Context L A → Type 0
      P = Deposited policy user_idx output_idx lock cx

  -- A deposit that succeeds found a live config and an output of the transaction that was not
  -- consumed before, which pays the policy's script for the config's covenant, raises the sum of
  -- the balances by that output's value, and marks the output consumed.
  pub deposit_credits :
      (policy : DepositPolicy L) (user_idx output_idx : ℕ) (lock : L) (cx c : Context L A)
      → apply_deposit S policy user_idx output_idx lock cx ≡ ok c
      → Deposited policy user_idx output_idx lock cx c
  deposit_credits policy user_idx output_idx lock cx c e =
      After_ok (Deposited policy user_idx output_idx lock cx)
        (apply_deposit S policy user_idx output_idx lock cx) c
        (apply_deposit-Deposited policy user_idx output_idx lock cx) e
