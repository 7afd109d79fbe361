-- ===== src/Runtime/Transfer.antt =====
-- The transfer of zk/backend/risc0/runtime-processor/src/action/user.rs.
use vprogs.Base.{
  ℕ, ◌+◌, ◌^◌, ◌≤◌, ◌<◌, ◌≡◌, ◌≢◌, refl, ◌∙◌, sym, ap, Bool, true, false, not, List, Option, none,
  some, arith, ltb, leb, ◌==◌, inl, inr, Bool-cases, get_elem?,
}
use vprogs.Runtime.{
  Scheme, DepositPolicy, Context, Resource, User, Error, ok, chain, ok_or, require, set_at,
  view_user, with_balance, checked_sub, checked_add, init_user, is_empty, credit, create_plan,
  dest_create, created_mark, apply_transfer, create_transition,
}
use vprogs.Runtime.Slots.{
  balance_of, total, total-set_at, get_elem?-set_at_other, view_user_lem, no_data_lem, After,
  After-chain, After_ok, After-imp, ok_or_ok,
}

pub checked_sub-After : (a b : ℕ) → After (λ (d : ℕ). d + b ≡ a) (checked_sub a b)
checked_sub-After a b = elim (Bool-cases (leb b a)) [
  | inl enough ↦ rw enough (ground arith)
  | inr short ↦ rw short tt
]

pub checked_add-After : (a b : ℕ) → After (λ (d : ℕ). (d ≡ a + b) × (d < 2 ^ 64)) (checked_add a b)
checked_add-After a b = elim (Bool-cases (ltb (a + b) (2 ^ 64))) [
  | inl fits ↦ rw fits (refl, ground arith)
  | inr over ↦ rw over tt
]

pub require_ok : (b : Bool) (e : Error) (u : Unit) → require b e ≡ ok u → b ≡ true
require_ok true e u h = refl
require_ok false e u h = cc

module _ {L A : Type 0} (S : Scheme L A) where
  pub init_user-After :
      (r : Resource L) (n ilh : ℕ) (lock : L)
      → After (λ (r' : Resource L). (balance_of r' ≡ balance_of r + n)) (init_user r n ilh lock)
  unfolding init_user
  init_user-After r n ilh lock = elim (Bool-cases (is_empty r)) [
    | inl vacant ↦ rw vacant (omega (arith, no_data_lem r.contents vacant))
    | inr taken ↦ rw taken tt
  ]

  credit-After :
      (plan : Option (ℕ × L)) (dst : Resource L) (amount : ℕ)
      → After
          (λ (r' : Resource L). balance_of r' ≡ balance_of dst + amount)
          (credit S plan dst amount)
  credit-After (some (ilh, lock)) dst amount = init_user-After dst amount ilh lock
  credit-After none dst amount =
      After-chain (λ (r' : Resource L). balance_of r' ≡ balance_of dst + amount)
        (ok_or (view_user dst) Error.not_a_user) _
        (λ v e.
          After-chain (λ (r' : Resource L). balance_of r' ≡ balance_of dst + amount)
            (checked_add v.balance amount) _
            (λ b f. omega (
              arith,
              (After_ok _ (checked_add v.balance amount) b (checked_add-After v.balance amount)
                  f).0,
              view_user_lem dst v (ok_or_ok (view_user dst) Error.not_a_user v e),
            )))

  -- Marking a slot created changes no resource, exit or consumed output.
  pub created_mark-After :
      (flag : Bool) (cx : Context L A) (idx : ℕ)
      → After
          (λ (c : Context L A).
            (c.resources ≡ cx.resources)
            × (c.exits ≡ cx.exits)
            × (c.consumed_outputs ≡ cx.consumed_outputs)
            × (c.outputs ≡ cx.outputs))
          (created_mark S flag cx idx)
  created_mark-After false cx idx = (refl, refl, refl, refl)
  created_mark-After true cx idx =
      After-chain _ (ok_or (get_elem? cx.lifecycle idx) Error.panicked) _
        (λ l e. After-chain _ (create_transition l) _ (λ l' f. (refl, refl, refl, refl)))

  -- What a transfer that succeeds has checked, and that it only moves balance.
  pub record Moved (source dest amount : ℕ) (cx c : Context L A) : Type 0 where
    pub payer : Resource L
    pub payer_user : User L
    pub found : get_elem? cx.resources source ≡ some payer
    pub is_user : view_user payer ≡ some payer_user
    pub authorized : S.unlock payer_user.lock source cx.auth_ctx ≡ true
    pub funded : amount ≤ payer_user.balance
    pub distinct : source ≢ dest
    pub conserved : total c.resources ≡ total cx.resources
    pub exits_kept : c.exits ≡ cx.exits
    pub outputs_kept : c.consumed_outputs ≡ cx.consumed_outputs
    pub same_transaction : c.outputs ≡ cx.outputs

  moved_total :
      (rs : List (Resource L)) (source dest amount : ℕ) (src src' dst dst' : Resource L)
      → source ≢ dest
      → get_elem? rs source ≡ some src
      → get_elem? rs dest ≡ some dst
      → balance_of src' + amount ≡ balance_of src
      → balance_of dst' ≡ balance_of dst + amount
      → total (set_at dest dst' (set_at source src' rs)) ≡ total rs
  moved_total rs source dest amount src src' dst dst' apart e1 e2 debit add = omega (
    arith,
    total-set_at rs source src src' e1,
    total-set_at (set_at source src' rs) dest dst dst'
        (get_elem?-set_at_other rs source dest src' apart ∙ e2),
  )

  pub apply_transfer-Moved :
      (policy : DepositPolicy L) (source dest amount : ℕ) (init : Option L) (cx : Context L A)
      → After (Moved source dest amount cx) (apply_transfer S policy source dest amount init cx)
  unfolding apply_transfer
  apply_transfer-Moved policy source dest amount init cx =
      After-chain P (require (not (source == dest)) Error.same_resource) _ (λ u differ.
        After-chain P (chain (ok_or (get_elem? cx.lifecycle dest) Error.panicked) (dest_create S)) _
          (λ flag e0.
            After-chain P (ok_or (get_elem? cx.resources source) Error.panicked) _ (λ src e1.
              After-chain P (ok_or (get_elem? cx.resources dest) Error.panicked) _ (λ dst e2.
                After-chain P (ok_or (view_user src) Error.not_a_user) _ (λ v e3.
                  After-chain P
                    (require (S.unlock v.lock source cx.auth_ctx) Error.lock_not_satisfied) _
                    (λ u e4. After-chain P (create_plan S policy flag dst amount init) _ (λ plan e5.
                      After-chain P (checked_sub v.balance amount) _ (λ left e6.
                        After-chain P (credit S plan dst amount) _ (λ dst' e7.
                          let apart : source ≢ dest = λ same. ground (
                            arith,
                            require_ok (not (source == dest)) Error.same_resource u differ,
                          ) in
                          let found =
                            ok_or_ok (get_elem? cx.resources source) Error.panicked src e1 in
                          let user = ok_or_ok (view_user src) Error.not_a_user v e3 in
                          let debit =
                            After_ok _ (checked_sub v.balance amount) left
                              (checked_sub-After v.balance amount) e6 in
                          let add =
                            After_ok _ (credit S plan dst amount) dst'
                              (credit-After plan dst amount) e7 in
                          After-imp _ P _
                            (λ c kept. record {
                              payer = src;
                              payer_user = v;
                              found = found;
                              is_user = user;
                              authorized =
                                  require_ok (S.unlock v.lock source cx.auth_ctx)
                                    Error.lock_not_satisfied u e4;
                              funded = omega arith;
                              distinct = apart;
                              conserved =
                                  ap total kept.0
                                  ∙ moved_total cx.resources source dest amount src
                                      (with_balance src v left) dst dst' apart found
                                      (ok_or_ok (get_elem? cx.resources dest) Error.panicked dst e2)
                                      (debit ∙ sym (view_user_lem src v user)) add;
                              exits_kept = kept.1;
                              outputs_kept = kept.2;
                              same_transaction = kept.3;
                            })
                            (created_mark-After flag
                              (record cx {
                                resources =
                                    set_at dest dst'
                                      (set_at source (with_balance src v left) cx.resources);
                              })
                              dest))))))))))
    where
      P : Context L A → Type 0
      P = Moved source dest amount cx

  -- A transfer that succeeds has distinct ends, was unlocked by its source's current lock and
  -- covered by its balance, and changes neither the sum of the balances nor the exits nor the
  -- consumed outputs.
  pub transfer_conserves :
      (policy : DepositPolicy L) (source dest amount : ℕ) (init : Option L) (cx c : Context L A)
      → apply_transfer S policy source dest amount init cx ≡ ok c
      → Moved source dest amount cx c
  transfer_conserves policy source dest amount init cx c e =
      After_ok (Moved source dest amount cx) (apply_transfer S policy source dest amount init cx) c
        (apply_transfer-Moved policy source dest amount init cx) e
