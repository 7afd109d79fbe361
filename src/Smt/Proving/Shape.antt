-- ===== src/Smt/Proving/Shape.antt =====
-- core/smt/src/proving/traversal.rs: the tree that a proof lays out, and the walk of it.
use vprogs.Base.{
  ℕ, zero, suc, ◌+◌, ◌/◌, ◌^◌, ◌≡◌, refl, sym, subst, ap, List, [], ◌∷◌, ◌++◌, Bool, true, false,
  some, arith, take, drop, get_elem?, length,
}
use vprogs.Codec.Bits.{get_lsb}
use vprogs.Smt.{Commitment, HashedNode}
use vprogs.Smt.Entries.Halves.{Shares, Shares-halve}
use vprogs.Smt.Proving.Traversal.{Leaf, Proof, resolve, resolve_all}

-- A leaf of the proof with its key.
pub record Tip : Type 0 where
  pub depth : ℕ
  pub entry : Commitment

-- `side goes_left sibling child` has leaves on one side only.
pub data Shape : Type 0 where
  tip : Tip → Shape
  fork : Shape → Shape → Shape
  side : Bool → HashedNode → Shape → Shape

abbrev pub tips : Shape → List Tip
tips (tip t) = t ∷ []
tips (fork l r) = tips l ++ tips r
tips (side b h s) = tips s

abbrev pub sibs : Shape → List HashedNode
sibs (tip t) = []
sibs (fork l r) = sibs l ++ sibs r
sibs (side b h s) = h ∷ sibs s

abbrev pub bits : Shape → List Bool
bits (tip t) = []
bits (fork l r) = true ∷ (bits l ++ bits r)
bits (side b h s) = false ∷ bits s

abbrev pub tip_entries : List Tip → List Commitment
tip_entries [] = []
tip_entries (t ∷ ts) = t.entry ∷ tip_entries ts

-- The tips stand at their depths, below the bits of their keys.
abbrev pub Fitting : ℕ → ℕ → ℕ → Shape → Type 0
Fitting levels prefix level (tip t) = (t.depth ≡ level) × (t.entry.key / 2 ^ levels ≡ prefix)
Fitting zero prefix level (fork l r) = ⊥
Fitting (suc levels) prefix level (fork l r) =
    Fitting levels (prefix + prefix) (level + 1) l
    × Fitting levels (prefix + prefix + 1) (level + 1) r
Fitting zero prefix level (side b h s) = ⊥
Fitting (suc levels) prefix level (side true h s) = Fitting levels (prefix + prefix) (level + 1) s
Fitting (suc levels) prefix level (side false h s) =
    Fitting levels (prefix + prefix + 1) (level + 1) s

-- The list `ys` stands in `xs` at `n`.
abbrev pub At {ℓ} : {A : Type ℓ} → List A → ℕ → List A → Type ℓ
At xs n [] = Unit
At xs n (y ∷ ys) = (get_elem? xs n ≡ some y) × At xs (suc n) ys

abbrev pub AtBits : List ℕ → ℕ → List Bool → Type 0
AtBits topology n [] = Unit
AtBits topology n (b ∷ bs) = (get_lsb topology n ≡ b) × AtBits topology (suc n) bs

abbrev pub AtTips : Proof → ℕ → List Tip → Type 0
AtTips p n [] = Unit
AtTips p n (t ∷ ts) =
    (leaf : Leaf) × (get_elem? p.leaves n ≡ some leaf)
    × (leaf.depth ≡ t.depth)
    × (resolve p.keys leaf ≡ some t.entry)
    × AtTips p (suc n) ts

pub At-append :
    {A : Type 0} (xs : List A) (n : ℕ) (ys zs : List A)
    → At xs n (ys ++ zs)
    → At xs n ys × At xs (n + length ys) zs
At-append xs n [] zs h = (tt, subst (λ (t : ℕ). At xs t zs) (omega arith) h)
At-append xs n (y ∷ ys) zs h =
    let (front, back) = At-append xs (suc n) ys zs h.1 in
    ((h.0, front), subst (λ (t : ℕ). At xs t zs) (omega arith) back)

pub AtBits-append :
    (topology : List ℕ) (n : ℕ) (ys zs : List Bool)
    → AtBits topology n (ys ++ zs)
    → AtBits topology n ys × AtBits topology (n + length ys) zs
AtBits-append topology n [] zs h = (tt, subst (λ (t : ℕ). AtBits topology t zs) (omega arith) h)
AtBits-append topology n (y ∷ ys) zs h =
    let (front, back) = AtBits-append topology (suc n) ys zs h.1 in
    ((h.0, front), subst (λ (t : ℕ). AtBits topology t zs) (omega arith) back)

pub AtTips-append :
    (p : Proof) (n : ℕ) (ys zs : List Tip)
    → AtTips p n (ys ++ zs)
    → AtTips p n ys × AtTips p (n + length ys) zs
AtTips-append p n [] zs h = (tt, subst (λ (t : ℕ). AtTips p t zs) (omega arith) h)
AtTips-append p n (y ∷ ys) zs (leaf, e, d, r, h) =
    let (front, back) = AtTips-append p (suc n) ys zs h in
    ((leaf, e, d, r, front), subst (λ (t : ℕ). AtTips p t zs) (omega arith) back)

drop-suc :
    {A : Type 0} (xs : List A) (n : ℕ) (x : A)
    → get_elem? xs n ≡ some x
    → drop n xs ≡ x ∷ drop (suc n) xs
drop-suc [] n x h = cc
drop-suc (y ∷ ys) zero x h = cc
drop-suc (y ∷ ys) (suc n) x h = drop-suc ys n x h

pub resolve_all-tips :
    (p : Proof) (n : ℕ) (ts : List Tip)
    → AtTips p n ts
    → resolve_all p.keys (take (length ts) (drop n p.leaves)) ≡ some (tip_entries ts)
resolve_all-tips p n [] h = refl
resolve_all-tips p n (t ∷ ts) (leaf, e, d, r, h) =
    rw (drop-suc p.leaves n leaf e, r, resolve_all-tips p (suc n) ts h) refl

pub tip_entries-append :
    (ys zs : List Tip) → tip_entries (ys ++ zs) ≡ tip_entries ys ++ tip_entries zs
tip_entries-append [] zs = refl
tip_entries-append (y ∷ ys) zs =
    ap (λ (t : List Commitment). y.entry ∷ t) (tip_entries-append ys zs)

pub length-tip_entries : (ts : List Tip) → length (tip_entries ts) ≡ length ts
length-tip_entries [] = refl
length-tip_entries (t ∷ ts) = ap suc (length-tip_entries ts)

Shares-append :
    (low prefix : ℕ) (es fs : List Commitment)
    → Shares low prefix es
    → Shares low prefix fs
    → Shares low prefix (es ++ fs)
Shares-append low prefix [] fs s t = t
Shares-append low prefix (e ∷ es) fs s t = (s.0, Shares-append low prefix es fs s.1 t)

pub Fitting-Shares :
    (levels prefix level : ℕ) (s : Shape)
    → Fitting levels prefix level s
    → Shares levels prefix (tip_entries (tips s))
Fitting-Shares levels prefix level (tip t) f = (f.1, tt)
Fitting-Shares zero prefix level (fork l r) f = absurd f
Fitting-Shares (suc levels) prefix level (fork l r) f =
    subst (Shares (suc levels) prefix) (sym (tip_entries-append (tips l) (tips r))) (
      Shares-append (suc levels) prefix _ _
        (Shares-halve levels (prefix + prefix) prefix _ (omega arith)
          (Fitting-Shares levels (prefix + prefix) (level + 1) l f.0))
        (Shares-halve levels (prefix + prefix + 1) prefix _ (omega arith)
          (Fitting-Shares levels (prefix + prefix + 1) (level + 1) r f.1)))
Fitting-Shares zero prefix level (side b h s) f = absurd f
Fitting-Shares (suc levels) prefix level (side true h s) f =
    Shares-halve levels (prefix + prefix) prefix _ (omega arith)
      (Fitting-Shares levels (prefix + prefix) (level + 1) s f)
Fitting-Shares (suc levels) prefix level (side false h s) f =
    Shares-halve levels (prefix + prefix + 1) prefix _ (omega arith)
      (Fitting-Shares levels (prefix + prefix + 1) (level + 1) s f)
