-- ===== src/Smt/Proving/Lays.antt =====
-- core/smt/src/proving: the entries and the keys that a laid-out tree has below its positions.
use vprogs.Base.{
  ℕ, zero, suc, ◌+◌, ◌≡◌, refl, sym, ap, ap₂, ◌∙◌, List, [], ◌∷◌, ◌++◌, true, false, some, arith,
  length, length-append, append_assoc, append_nil,
}
use vprogs.Smt.{Commitment, subtree_hash}
use vprogs.Smt.Entries.{Ascending, Live, set_entry}
use vprogs.Smt.Entries.Halves.{Shares}
use vprogs.Smt.Proving.Shape.{Shape, tip, fork, side, tips}

-- Keys as entries, to measure them.
abbrev pub as_entries : List ℕ → List Commitment
as_entries [] = []
as_entries (k ∷ ks) = record { key = k; value_hash = 0 } ∷ as_entries ks

-- Unique keys in order that share the bits above.
abbrev pub Sorted : ℕ → ℕ → List ℕ → Type 0
Sorted levels prefix ks = Ascending (as_entries ks) × Shares levels prefix (as_entries ks)

-- Entries in order that share the bits above, as a tree holds them.
abbrev pub Kept : ℕ → ℕ → List Commitment → Type 0
Kept levels prefix es = Ascending es × Live es × Shares levels prefix es

-- The entries and the keys of a position, by the bit at its level.
pub record Parts (levels prefix : ℕ) (es : List Commitment) (ks : List ℕ) : Type 0 where
  pub lefts : List Commitment
  pub rights : List Commitment
  pub left_keys : List ℕ
  pub right_keys : List ℕ
  pub entries : es ≡ lefts ++ rights
  pub keys : ks ≡ left_keys ++ right_keys
  pub left_kept : Kept levels (prefix + prefix) lefts
  pub right_kept : Kept levels (prefix + prefix + 1) rights
  pub left_sorted : Sorted levels (prefix + prefix) left_keys
  pub right_sorted : Sorted levels (prefix + prefix + 1) right_keys

-- The tree lays out the entries and the keys, where each tip has the keys of one group. An off-path
-- sibling has no keys and the hash of its entries.
abbrev pub Lays :
    (List ℕ → List ℕ → ℕ) → ℕ → ℕ → ℕ → List Commitment → List ℕ → Shape → List (List ℕ) → Type 0
Lays hash_parts levels prefix level es ks (tip t) mss =
    (mss ≡ ks ∷ []) × (set_entry t.entry [] ≡ es)
Lays hash_parts zero prefix level es ks (fork l r) mss = ⊥
Lays hash_parts (suc levels) prefix level es ks (fork l r) mss =
    (p : Parts levels prefix es ks) × (ml : List (List ℕ)) × (mr : List (List ℕ)) × (mss ≡ ml ++ mr)
    × (length ml ≡ length (tips l))
    × Lays hash_parts levels (prefix + prefix) (level + 1) p.lefts p.left_keys l ml
    × Lays hash_parts levels (prefix + prefix + 1) (level + 1) p.rights p.right_keys r mr
Lays hash_parts zero prefix level es ks (side b x s) mss = ⊥
Lays hash_parts (suc levels) prefix level es ks (side true x s) mss =
    (p : Parts levels prefix es ks) × (p.right_keys ≡ [])
    × (subtree_hash hash_parts levels (level + 1) p.rights ≡ some x)
    × Lays hash_parts levels (prefix + prefix) (level + 1) p.lefts p.left_keys s mss
Lays hash_parts (suc levels) prefix level es ks (side false x s) mss =
    (p : Parts levels prefix es ks) × (p.left_keys ≡ [])
    × (subtree_hash hash_parts levels (level + 1) p.lefts ≡ some x)
    × Lays hash_parts levels (prefix + prefix + 1) (level + 1) p.rights p.right_keys s mss

-- The number of keys in the groups.
abbrev pub total : List (List ℕ) → ℕ
total [] = 0
total (ms ∷ mss) = length ms + total mss

abbrev pub concat : List (List ℕ) → List ℕ
concat [] = []
concat (ms ∷ mss) = ms ++ concat mss

concat-append : (xs ys : List (List ℕ)) → concat (xs ++ ys) ≡ concat xs ++ concat ys
concat-append [] ys = refl
concat-append (ms ∷ mss) ys =
    ap (λ (t : List ℕ). ms ++ t) (concat-append mss ys)
    ∙ sym (append_assoc ms (concat mss) (concat ys))

length-concat : (mss : List (List ℕ)) → length (concat mss) ≡ total mss
length-concat [] = refl
length-concat (ms ∷ mss) = omega (arith, length-append ms (concat mss), length-concat mss)

-- The groups are the keys.
pub Lays-concat :
    (hash_parts : List ℕ → List ℕ → ℕ) (levels prefix level : ℕ) (es : List Commitment)
    (ks : List ℕ) (s : Shape) (mss : List (List ℕ))
    → Lays hash_parts levels prefix level es ks s mss
    → concat mss ≡ ks
Lays-concat hash_parts levels prefix level es ks (tip t) mss h = ap concat h.0 ∙ append_nil ks
Lays-concat hash_parts zero prefix level es ks (fork l r) mss h = absurd h
Lays-concat hash_parts (suc levels) prefix level es ks (fork l r) mss (p, ml, mr, e, n, h, k) =
    ap concat e
    ∙ concat-append ml mr
    ∙ ap₂ (λ (x y : List ℕ). x ++ y)
        (Lays-concat hash_parts levels (prefix + prefix) (level + 1) p.lefts p.left_keys l ml h)
        (Lays-concat hash_parts levels (prefix + prefix + 1) (level + 1) p.rights p.right_keys r mr
          k)
    ∙ sym p.keys
Lays-concat hash_parts zero prefix level es ks (side b x s) mss h = absurd h
Lays-concat hash_parts (suc levels) prefix level es ks (side true x s) mss (p, n, e, h) =
    Lays-concat hash_parts levels (prefix + prefix) (level + 1) p.lefts p.left_keys s mss h
    ∙ sym (p.keys ∙ ap (λ (t : List ℕ). p.left_keys ++ t) n ∙ append_nil p.left_keys)
Lays-concat hash_parts (suc levels) prefix level es ks (side false x s) mss (p, n, e, h) =
    Lays-concat hash_parts levels (prefix + prefix + 1) (level + 1) p.rights p.right_keys s mss h
    ∙ sym (p.keys ∙ ap (λ (t : List ℕ). t ++ p.right_keys) n)

pub Lays-total :
    (hash_parts : List ℕ → List ℕ → ℕ) (levels prefix level : ℕ) (es : List Commitment)
    (ks : List ℕ) (s : Shape) (mss : List (List ℕ))
    → Lays hash_parts levels prefix level es ks s mss
    → total mss ≡ length ks
Lays-total hash_parts levels prefix level es ks s mss h =
    sym (length-concat mss)
    ∙ ap (λ (t : List ℕ). length t) (Lays-concat hash_parts levels prefix level es ks s mss h)
