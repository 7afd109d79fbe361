-- ===== src/Runtime/Slots.antt =====
-- Balances over the resources of a transaction of zk/backend/risc0/runtime-processor/src.
use vprogs.Base.{
  ℕ, zero, suc, ◌+◌, ◌≡◌, ◌≢◌, refl, ap, subst, true, List, [], ◌∷◌, Option, none, some, arith,
  get_elem?,
}
use vprogs.Runtime.{
  Contents, Resource, User, Outcome, Error, ok, fail, chain, ok_or, empty, config, user, other,
  set_at, user_in, no_data, view_user,
}

pub get_elem?-set_at_other :
    {A : Type 0} (xs : List A) (i j : ℕ) (a : A)
    → i ≢ j
    → get_elem? (set_at i a xs) j ≡ get_elem? xs j
get_elem?-set_at_other [] i j a h = refl
get_elem?-set_at_other (x ∷ xs) zero zero a h = absurd (h refl)
get_elem?-set_at_other (x ∷ xs) zero (suc j) a h = refl
get_elem?-set_at_other (x ∷ xs) (suc i) zero a h = refl
get_elem?-set_at_other (x ∷ xs) (suc i) (suc j) a h =
    get_elem?-set_at_other xs i j a (λ e. h (ap suc e))

module _ {L : Type 0} where
  abbrev pub balance_in : Contents L → ℕ
  balance_in empty = 0
  balance_in (config c) = 0
  balance_in (user u) = u.balance
  balance_in (other bytes) = 0

  abbrev pub balance_of : Resource L → ℕ
  balance_of r = balance_in r.contents

  -- The balances of all users.
  abbrev pub total : List (Resource L) → ℕ
  total [] = 0
  total (r ∷ rs) = balance_of r + total rs

  pub total-set_at :
      (rs : List (Resource L)) (i : ℕ) (r r' : Resource L)
      → get_elem? rs i ≡ some r
      → total (set_at i r' rs) + balance_of r ≡ total rs + balance_of r'
  total-set_at [] i r r' e = cc
  total-set_at (x ∷ rs) zero r r' e =
      let q : balance_of x ≡ balance_of r =
        ap (λ (o : Option (Resource L)). elim o [ none ↦ 0 | some y ↦ balance_of y ]) e in
      omega arith
  total-set_at (x ∷ rs) (suc i) r r' e = omega (arith, total-set_at rs i r r' e)

  user_in_lem : (c : Contents L) (v : User L) → user_in c ≡ some v → balance_in c ≡ v.balance
  user_in_lem empty v e = cc
  user_in_lem (config c) v e = cc
  user_in_lem (user u) v e =
      ap (λ (o : Option (User L)). elim o [ none ↦ 0 | some w ↦ w.balance ]) e
  user_in_lem (other bytes) v e = cc

  pub view_user_lem :
      (r : Resource L) (v : User L) → view_user r ≡ some v → balance_of r ≡ v.balance
  view_user_lem r v e = user_in_lem r.contents v e

  pub no_data_lem : (c : Contents L) → no_data c ≡ true → balance_in c ≡ 0
  no_data_lem empty e = refl
  no_data_lem (config c) e = refl
  no_data_lem (user u) e = absurd (ground arith)
  no_data_lem (other bytes) e = refl

-- What holds of a result, if there is one.
abbrev pub After {ℓ κ} : {A : Type ℓ} → (A → Type κ) → Outcome A → Type κ
After P (ok a) = P a
After P (fail e) = Unit

pub After-chain {ℓ κ μ} :
    {A : Type ℓ} {B : Type κ} (P : B → Type μ) (m : Outcome A) (f : A → Outcome B)
    → ((a : A) → m ≡ ok a → After P (f a))
    → After P (chain m f)
After-chain P (ok a) f h = h a refl
After-chain P (fail e) f h = tt

pub After_ok {ℓ κ} :
    {A : Type ℓ} (P : A → Type κ) (m : Outcome A) (a : A) → After P m → m ≡ ok a → P a
After_ok P m a h e = subst (After P) e h

pub ok_or_ok {ℓ} : {A : Type ℓ} (o : Option A) (e : Error) (a : A) → ok_or o e ≡ ok a → o ≡ some a
ok_or_ok none e a h = cc
ok_or_ok (some b) e a h = cc

pub After-imp {ℓ κ μ} :
    {A : Type ℓ} (P : A → Type κ) (Q : A → Type μ) (m : Outcome A)
    → ((a : A) → P a → Q a)
    → After P m
    → After Q m
After-imp P Q (ok a) h p = h a p
After-imp P Q (fail e) h p = tt
