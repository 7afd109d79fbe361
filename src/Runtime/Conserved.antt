-- ===== src/Runtime/Conserved.antt =====
-- The actions of a transaction of zk/backend/risc0/runtime-processor/src in a row.
use vprogs.Base.{
  ℕ, ◌+◌, ◌≡◌, refl, ◌∙◌, sym, ap, subst, false, ◌||◌, List, [], ◌∷◌, ◌++◌, Option, none, some,
  arith, ◌==◌, get_elem?,
}
use vprogs.Runtime.{
  Scheme, DepositPolicy, Context, Contents, Resource, Config, Output, Error, ActionBody, ok, chain,
  ok_or, require, set_at, view_user, view_config, contains, apply_transfer, apply_withdraw,
  apply_deposit, apply_update, apply_update_user_lock, apply_action, apply_actions, require_live,
  write_new_state, update, init, transfer, update_user_lock, deposit, withdraw, empty, config, user,
  other,
}
use vprogs.Runtime.Slots.{
  balance_in, total, total-set_at, view_user_lem, After, After-chain, After_ok, After-imp, ok_or_ok,
}
use vprogs.Runtime.Transfer.{apply_transfer-Moved}
use vprogs.Runtime.Exit.{apply_withdraw-Withdrawn, apply_deposit-Deposited}

-- The sum of the exits.
abbrev pub exited : List (List ℕ × ℕ) → ℕ
exited [] = 0
exited ((dest, amount) ∷ exits) = amount + exited exits

abbrev value_of : Option Output → ℕ
value_of none = 0
value_of (some output) = output.value

-- The sum of the outputs that the deposits consumed.
abbrev pub funded : (ℕ → Option Output) → List ℕ → ℕ
funded outputs [] = 0
funded outputs (i ∷ indices) = value_of (outputs i) + funded outputs indices

-- No output index occurs twice.
abbrev pub Distinct : List ℕ → Type 0
Distinct [] = Unit
Distinct (i ∷ indices) = (contains indices i ≡ false) × Distinct indices

exited-snoc :
    (exits : List (List ℕ × ℕ)) (dest : List ℕ) (amount : ℕ)
    → exited (exits ++ ((dest, amount) ∷ [])) ≡ exited exits + amount
exited-snoc [] dest amount = omega arith
exited-snoc ((d, a) ∷ exits) dest amount = omega (arith, exited-snoc exits dest amount)

funded-snoc :
    (outputs : ℕ → Option Output) (indices : List ℕ) (i : ℕ)
    → funded outputs (indices ++ (i ∷ [])) ≡ funded outputs indices + value_of (outputs i)
funded-snoc outputs [] i = omega arith
funded-snoc outputs (j ∷ indices) i = omega (arith, funded-snoc outputs indices i)

contains-snoc :
    (indices : List ℕ) (i j : ℕ) → contains (indices ++ (i ∷ [])) j ≡ (contains indices j || i == j)
contains-snoc [] i j = ground arith
contains-snoc (k ∷ indices) i j = ground (arith, contains-snoc indices i j)

snoc-Distinct :
    (indices : List ℕ) (i : ℕ)
    → Distinct indices
    → contains indices i ≡ false
    → Distinct (indices ++ (i ∷ []))
snoc-Distinct [] i d f = (refl, tt)
snoc-Distinct (k ∷ indices) i d f =
    (contains-snoc indices i k ∙ ground (arith, d.0), snoc-Distinct indices i d.1 (ground arith))

-- What a transaction has not created from nothing: balances, exits and consumed outputs agree, and
-- no output is consumed twice.
pub record Conserved {L A : Type 0} (cx c : Context L A) : Type 0 where
  pub same_transaction : c.outputs ≡ cx.outputs
  pub balanced :
      total c.resources + exited c.exits + funded cx.outputs cx.consumed_outputs
      ≡ total cx.resources + exited cx.exits + funded cx.outputs c.consumed_outputs
  pub distinct : Distinct cx.consumed_outputs → Distinct c.consumed_outputs

module _ {L A : Type 0} (S : Scheme L A) where
  view_config_lem :
      (c : Contents L) (v : Config L)
      → elim c [ empty ↦ none | config d ↦ some d | user u ↦ none | other bytes ↦ none ] ≡ some v
      → balance_in c ≡ 0
  view_config_lem empty v e = refl
  view_config_lem (config d) v e = refl
  view_config_lem (user u) v e = cc
  view_config_lem (other bytes) v e = refl

  -- A change of resources alone that keeps the balances.
  kept-Conserved :
      (cx : Context L A) (rs : List (Resource L))
      → total rs ≡ total cx.resources
      → Conserved cx (record cx { resources = rs })
  kept-Conserved cx rs e = record {
    same_transaction = refl;
    balanced = omega arith;
    distinct = λ d. d;
  }

  apply_update-Conserved :
      (idx new_min covenant : ℕ) (lock : L) (cx : Context L A)
      → After (Conserved cx) (apply_update S idx new_min covenant lock cx)
  unfolding apply_update
  apply_update-Conserved idx new_min covenant lock cx =
      After-chain (Conserved cx) (ok_or (get_elem? cx.resources idx) Error.panicked) _ (λ r e0.
        After-chain (Conserved cx) (require (r.id == S.config_resource_id) Error.not_the_config) _
          (λ u e1.
            After-chain (Conserved cx)
              (chain (ok_or (get_elem? cx.lifecycle idx) Error.panicked) (require_live S)) _
              (λ u e2.
                After-chain (Conserved cx) (ok_or (view_config r) Error.bad_config) _ (λ cur e3.
                  After-chain (Conserved cx)
                    (require (covenant == cur.covenant_id) Error.covenant_immutable) _
                    (λ u e4.
                      After-chain (Conserved cx)
                        (require (S.unlock cur.lock idx cx.auth_ctx) Error.lock_not_satisfied) _
                        (λ u e5.
                          kept-Conserved cx
                            (set_at idx (write_new_state S r new_min covenant lock) cx.resources)
                            (omega (
                              arith,
                              total-set_at cx.resources idx r
                                  (write_new_state S r new_min covenant lock)
                                  (ok_or_ok (get_elem? cx.resources idx) Error.panicked r e0),
                              view_config_lem r.contents cur
                                  (ok_or_ok (view_config r) Error.bad_config cur e3),
                            ))))))))

  apply_update_user_lock-Conserved :
      (idx : ℕ) (lock : L) (cx : Context L A)
      → After (Conserved cx) (apply_update_user_lock S idx lock cx)
  unfolding apply_update_user_lock
  apply_update_user_lock-Conserved idx lock cx =
      After-chain (Conserved cx) (ok_or (get_elem? cx.resources idx) Error.panicked) _ (λ r e0.
        After-chain (Conserved cx) (ok_or (view_user r) Error.not_a_user) _ (λ v e1.
          After-chain (Conserved cx)
            (require (S.unlock v.lock idx cx.auth_ctx) Error.lock_not_satisfied) _
            (λ u e2.
              kept-Conserved cx
                (set_at idx (record r { contents = user (record v { lock = lock }) }) cx.resources)
                (omega (
                  arith,
                  total-set_at cx.resources idx r
                      (record r { contents = user (record v { lock = lock }) })
                      (ok_or_ok (get_elem? cx.resources idx) Error.panicked r e0),
                  view_user_lem r v (ok_or_ok (view_user r) Error.not_a_user v e1),
                )))))

  -- The action is no first write of the config.
  abbrev pub AfterGenesis : ActionBody L → Type 0
  AfterGenesis (update idx new_min covenant lock) = Unit
  AfterGenesis (init idx new_min covenant lock) = ⊥
  AfterGenesis (transfer source dest amount dest_init) = Unit
  AfterGenesis (update_user_lock idx lock) = Unit
  AfterGenesis (deposit idx output_idx lock) = Unit
  AfterGenesis (withdraw idx amount dest) = Unit

  abbrev pub AllAfterGenesis : List (ActionBody L) → Type 0
  AllAfterGenesis [] = Unit
  AllAfterGenesis (a ∷ actions) = AfterGenesis a × AllAfterGenesis actions

  apply_action-Conserved :
      (policy : DepositPolicy L) (a : ActionBody L) (cx : Context L A)
      → AfterGenesis a
      → After (Conserved cx) (apply_action S policy a cx)
  unfolding apply_action
  apply_action-Conserved policy (update idx new_min covenant lock) cx g =
      apply_update-Conserved idx new_min covenant lock cx
  apply_action-Conserved policy (init idx new_min covenant lock) cx g = absurd g
  apply_action-Conserved policy (transfer source dest amount dest_init) cx g =
      After-imp _ (Conserved cx) (apply_transfer S policy source dest amount dest_init cx)
        (λ c m. record {
          same_transaction = m.same_transaction;
          balanced =
              omega
                (arith, m.conserved, ap exited m.exits_kept, ap (funded cx.outputs) m.outputs_kept);
          distinct = λ d. subst Distinct (sym m.outputs_kept) d;
        })
        (apply_transfer-Moved S policy source dest amount dest_init cx)
  apply_action-Conserved policy (update_user_lock idx lock) cx g =
      apply_update_user_lock-Conserved idx lock cx
  apply_action-Conserved policy (deposit idx output_idx lock) cx g =
      After-imp _ (Conserved cx) (apply_deposit S policy idx output_idx lock cx)
        (λ c m. record {
          same_transaction = m.same_transaction;
          balanced = omega (
            arith,
            m.credited,
            ap exited m.exits_kept,
            ap (funded cx.outputs) m.consumed
                ∙ funded-snoc cx.outputs cx.consumed_outputs output_idx,
            ap value_of m.found,
          );
          distinct = λ d.
              subst Distinct (sym m.consumed)
                (snoc-Distinct cx.consumed_outputs output_idx d m.unspent);
        })
        (apply_deposit-Deposited S policy idx output_idx lock cx)
  apply_action-Conserved policy (withdraw idx amount dest) cx g =
      After-imp _ (Conserved cx) (apply_withdraw S idx amount dest cx)
        (λ c m. record {
          same_transaction = m.same_transaction;
          balanced = omega (
            arith,
            m.debited,
            ap exited m.emitted ∙ exited-snoc cx.exits dest amount,
            ap (funded cx.outputs) m.outputs_kept,
          );
          distinct = λ d. subst Distinct (sym m.outputs_kept) d;
        })
        (apply_withdraw-Withdrawn S idx amount dest cx)

  after_both : (cx c d : Context L A) → Conserved cx c → Conserved c d → Conserved cx d
  after_both cx c d m n = record {
    same_transaction = n.same_transaction ∙ m.same_transaction;
    balanced = omega (
      arith,
      m.balanced,
      n.balanced,
      ap (λ (o : ℕ → Option Output). funded o c.consumed_outputs) m.same_transaction,
      ap (λ (o : ℕ → Option Output). funded o d.consumed_outputs) m.same_transaction,
    );
    distinct = λ k. n.distinct (m.distinct k);
  }

  apply_actions-Conserved :
      (policy : DepositPolicy L) (actions : List (ActionBody L)) (cx : Context L A)
      → AllAfterGenesis actions
      → After (Conserved cx) (apply_actions S policy actions cx)
  unfolding apply_actions
  apply_actions-Conserved policy [] cx g = record {
    same_transaction = refl;
    balanced = refl;
    distinct = λ d. d;
  }
  apply_actions-Conserved policy (a ∷ actions) cx g =
      After-chain (Conserved cx) (apply_action S policy a cx) _ (λ c e.
        After-imp (Conserved c) (Conserved cx) (apply_actions S policy actions c)
          (λ d n.
            after_both cx c d
              (After_ok (Conserved cx) (apply_action S policy a cx) c
                (apply_action-Conserved policy a cx g.0) e)
              n)
          (apply_actions-Conserved policy actions c g.1))

  -- Where a list of actions without a first write of the config succeeds, the balances of all
  -- users, the exits and the funding outputs consumed agree before and after it (balances and
  -- exits grow together by exactly the outputs that deposits consumed), and no output is consumed
  -- twice if none was before.
  pub actions_conserve :
      (policy : DepositPolicy L) (actions : List (ActionBody L)) (cx c : Context L A)
      → AllAfterGenesis actions
      → apply_actions S policy actions cx ≡ ok c
      → Conserved cx c
  actions_conserve policy actions cx c g e =
      After_ok (Conserved cx) (apply_actions S policy actions cx) c
        (apply_actions-Conserved policy actions cx g) e
