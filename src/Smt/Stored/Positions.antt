-- ===== src/Smt/Stored/Positions.antt =====
-- core/smt/src: the positions that the updates of two subtrees write are apart.
use vprogs.Base.{
  ℕ, ◌<◌, ◌≡◌, ◌⊎◌, refl, ap, ◌∙◌, subst, inl, inr, List, [], ◌∷◌, ◌++◌, Bool, true, false, Option,
  some, arith, if◌then◌else◌, Bool-cases, length,
}
use vprogs.Smt.{Key, Node}
use vprogs.Smt.Updater.{Write, put_node, put_stale_node}
use vprogs.Smt.Stored.{same_key, commit_write, committed}

-- Strictly below a position.
abbrev pub Below : Key → Key → Type 0
Below key [] = ⊥
Below key (b ∷ q) = (q ≡ key) ⊎ Below key q

pub Below-longer : (key q : Key) → Below key q → length key < length q
Below-longer key [] h = absurd h
Below-longer key (b ∷ q) (inl e) = rw e (omega arith)
Below-longer key (b ∷ q) (inr h) = omega (arith, Below-longer key q h)

pub Below-irrefl : (key : Key) → Below key key → ⊥
Below-irrefl key h = omega (arith, Below-longer key key h)

pub Below-child : (b : Bool) (key q : Key) → Below (b ∷ key) q → Below key q
Below-child b key [] h = absurd h
Below-child b key (c ∷ q) (inl e) = inr (rw e (inl refl))
Below-child b key (c ∷ q) (inr h) = inr (Below-child b key q h)

pub Below-apart : (key q : Key) → Below (false ∷ key) q → Below (true ∷ key) q → ⊥
Below-apart key [] h k = absurd h
Below-apart key (c ∷ q) (inl e) (inl f) = cc
Below-apart key (c ∷ q) (inl e) (inr k) =
    omega (arith, Below-longer (true ∷ key) q k, ap (λ (t : Key). length t) e)
Below-apart key (c ∷ q) (inr h) (inl f) =
    omega (arith, Below-longer (false ∷ key) q h, ap (λ (t : Key). length t) f)
Below-apart key (c ∷ q) (inr h) (inr k) = Below-apart key q h k

-- A child is not below its sibling.
pub sibling-Below : (a b : Bool) (key : Key) → Below (a ∷ key) (b ∷ key) → ⊥
sibling-Below a b key h = omega (arith, Below-longer (a ∷ key) (b ∷ key) h)

same_key-eq : (k q : Key) → same_key k q ≡ true → k ≡ q
same_key-eq [] [] h = refl
same_key-eq [] (b ∷ q) h = cc
same_key-eq (a ∷ k) [] h = cc
same_key-eq (true ∷ k) (true ∷ q) h = ap (λ (t : Key). true ∷ t) (same_key-eq k q h)
same_key-eq (false ∷ k) (false ∷ q) h = ap (λ (t : Key). false ∷ t) (same_key-eq k q h)
same_key-eq (true ∷ k) (false ∷ q) h = cc
same_key-eq (false ∷ k) (true ∷ q) h = cc

pub same_key_refl : (k : Key) → same_key k k ≡ true
same_key_refl [] = refl
same_key_refl (true ∷ k) = same_key_refl k
same_key_refl (false ∷ k) = same_key_refl k

-- Every put is at a position that the predicate has.
abbrev pub Puts : (Key → Type 0) → List Write → Type 0
Puts P [] = Unit
Puts P (put_node key version n ∷ ws) = P key × Puts P ws
Puts P (put_stale_node stale ∷ ws) = Puts P ws

pub Puts-append :
    (P : Key → Type 0) (us ws : List Write) → Puts P us → Puts P ws → Puts P (us ++ ws)
Puts-append P [] ws p q = q
Puts-append P (put_node key version n ∷ us) ws p q = (p.0, Puts-append P us ws p.1 q)
Puts-append P (put_stale_node stale ∷ us) ws p q = Puts-append P us ws p q

pub Puts-mono :
    (P Q : Key → Type 0) → ((k : Key) → P k → Q k) → (ws : List Write) → Puts P ws → Puts Q ws
Puts-mono P Q f [] p = tt
Puts-mono P Q f (put_node key version n ∷ ws) p = (f key p.0, Puts-mono P Q f ws p.1)
Puts-mono P Q f (put_stale_node stale ∷ ws) p = Puts-mono P Q f ws p

-- A position where nothing is put reads as before.
pub committed-apart :
    (P : Key → Type 0) (ws : List Write) (store : Key → Option (ℕ × Node)) (q : Key)
    → Puts P ws
    → (P q → ⊥)
    → committed ws store q ≡ store q
unfolding committed
committed-apart P [] store q p h = refl
committed-apart P (put_node key version n ∷ ws) store q p h =
    committed-apart P ws (commit_write (put_node key version n) store) q p.1 h
    ∙ elim (Bool-cases (same_key key q)) [
      | inl same ↦ absurd (h (subst P (same_key-eq key q same) p.0))
      | inr apart ↦ rw apart
    ]
committed-apart P (put_stale_node stale ∷ ws) store q p h =
    committed-apart P ws (commit_write (put_stale_node stale) store) q p h

-- What is read depends on the store at that position alone.
pub committed-agree :
    (ws : List Write) (f g : Key → Option (ℕ × Node)) (q : Key)
    → f q ≡ g q
    → committed ws f q ≡ committed ws g q
unfolding committed
committed-agree [] f g q e = e
committed-agree (put_node key version n ∷ ws) f g q e =
    committed-agree ws (commit_write (put_node key version n) f)
      (commit_write (put_node key version n) g) q
      (ap (λ (t : Option (ℕ × Node)). if same_key key q then some (version, n) else t) e)
committed-agree (put_stale_node stale ∷ ws) f g q e =
    committed-agree ws (commit_write (put_stale_node stale) f)
      (commit_write (put_stale_node stale) g) q e
