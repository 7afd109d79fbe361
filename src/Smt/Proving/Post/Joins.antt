-- ===== src/Smt/Proving/Post/Joins.antt =====
-- core/smt/src/proving: the post-states of the leaves join to the reference of the changed entries.
use vprogs.Base.{
  ℕ, zero, suc, ◌+◌, ◌-◌, ◌<◌, ◌≤◌, ◌≡◌, refl, sym, subst, ap, ap₂, ◌∙◌, inl, inr, List, [], ◌∷◌,
  ◌++◌, true, false, Option, none, some, arith, ◌==◌, length, Bool-cases,
}
use vprogs.Smt.{Commitment, HashedNode, empty_node, hashed_leaf, combine, depth, subtree_hash}
use vprogs.Smt.Entries.{set_entries, set_entries-Live}
use vprogs.Smt.Entries.Halves.{set_entries-Shares, set_entries_halves}
use vprogs.Smt.Proving.Traversal.{Proof}
use vprogs.Smt.Proving.Shape.{Tip, Shape, tip, fork, side, tips, Fitting}
use vprogs.Smt.Proving.Walk.{shape_hash, joined}
use vprogs.Smt.Proving.Lays.{Parts, Lays, total, Lays-total}
use vprogs.Smt.Proving.Post.Scanned.{changes}
use vprogs.Smt.Proving.Post.Posted.{changes-append, changes-Shares, TipPost}
use vprogs.Smt.Proving.Post.Halves.{subtree_hash-append}

-- The parts of a pair, where there is one.
abbrev pub prev_of : Option (HashedNode × HashedNode) → HashedNode
prev_of none = empty_node
prev_of (some pair) = pair.0

abbrev pub post_of : Option (HashedNode × HashedNode) → HashedNode
post_of none = empty_node
post_of (some pair) = pair.1

module _ (hash_parts : List ℕ → List ℕ → ℕ) (new_value : ℕ → ℕ)
    (pair_at : ℕ → Option (HashedNode × HashedNode)) where
  -- The pairs of the leaves are the hashes of their entries, before and after the changes.
  abbrev pub Paired : ℕ → ℕ → List Tip → List (List ℕ) → Type 0
  Paired start o [] [] = Unit
  Paired start o [] (ms ∷ mss) = ⊥
  Paired start o (t ∷ ts) [] = ⊥
  Paired start o (t ∷ ts) (ms ∷ mss) =
      ((post : HashedNode) × (pair_at start
          ≡ some (hashed_leaf hash_parts t.entry.key t.entry.value_hash, post))
        × TipPost new_value hash_parts o t ms post)
      × Paired (suc start) (o + length ms) ts mss

  Paired-append :
      (start o : ℕ) (ts us : List Tip) (ml mr : List (List ℕ))
      → length ml ≡ length ts
      → Paired start o (ts ++ us) (ml ++ mr)
      → Paired start o ts ml × Paired (start + length ts) (o + total ml) us mr
  Paired-append start o [] us [] mr n h = (
    tt,
    subst (λ (t : ℕ). Paired t (o + 0) us mr) (omega arith)
        (subst (λ (t : ℕ). Paired start t us mr) (omega arith) h),
  )
  Paired-append start o [] us (ms ∷ ml) mr n h = absurd (omega (arith, n))
  Paired-append start o (t ∷ ts) us [] mr n h = absurd (omega (arith, n))
  Paired-append start o (t ∷ ts) us (ms ∷ ml) mr n h =
      let (front, back) =
        Paired-append (suc start) (o + length ms) ts us ml mr (omega (arith, n)) h.1 in
      (
        (h.0, front),
        subst (λ (i : ℕ). Paired (start + suc (length ts)) i us mr) (omega arith)
            (subst (λ (i : ℕ). Paired i (o + length ms + total ml) us mr) (omega arith) back),
      )

  pub Paired-at :
      (start o : ℕ) (ts : List Tip) (mss : List (List ℕ)) (i : ℕ)
      → Paired start o ts mss
      → start ≤ i
      → i < start + length ts
      → pair_at i ≡ some (prev_of (pair_at i), post_of (pair_at i))
  Paired-at start o [] [] i h m n = absurd (omega (arith, m, n))
  Paired-at start o [] (ms ∷ mss) i h m n = absurd h
  Paired-at start o (t ∷ ts) [] i h m n = absurd h
  Paired-at start o (t ∷ ts) (ms ∷ mss) i h m n = elim (Bool-cases (start == i)) [
    | inl e ↦
        let here : start ≡ i = ground (arith, e) in
        subst (λ (j : ℕ). pair_at j ≡ some (prev_of (pair_at j), post_of (pair_at j))) here
          (rw h.0.1 refl)
    | inr e ↦
        Paired-at (suc start) (o + length ms) ts mss i h.1 (ground (arith, e, m)) (omega (arith, n))
  ]

  module _ (p : Proof) where
    abbrev pub prev : ℕ → Shape → HashedNode
    prev start s = joined hash_parts p (λ i. prev_of (pair_at i)) start s

    abbrev pub post : ℕ → Shape → HashedNode
    post start s = joined hash_parts p (λ i. post_of (pair_at i)) start s

    -- The previous values join to the hash of the laid-out tree.
    pub prev-shape_hash :
        (levels prefix level start o : ℕ) (es : List Commitment) (ks : List ℕ) (s : Shape)
        (mss : List (List ℕ))
        → Lays hash_parts levels prefix level es ks s mss
        → Paired start o (tips s) mss
        → prev start s ≡ shape_hash hash_parts s
    prev-shape_hash levels prefix level start o es ks (tip t) [] h q = absurd q
    prev-shape_hash levels prefix level start o es ks (tip t) (ms ∷ mss) h q = ap prev_of q.0.1
    prev-shape_hash zero prefix level start o es ks (fork l r) mss h q = absurd h
    prev-shape_hash (suc levels) prefix level start o es ks (fork l r) mss (b, ml, mr, e, n, g, h)
          q =
        let (q_left, q_right) =
          Paired-append start o (tips l) (tips r) ml mr n
            (subst (Paired start o (tips l ++ tips r)) e q) in
        ap₂ (combine hash_parts)
          (prev-shape_hash levels (prefix + prefix) (level + 1) start o b.lefts b.left_keys l ml g
            q_left)
          (prev-shape_hash levels (prefix + prefix + 1) (level + 1) (start + length (tips l))
            (o + total ml) b.rights b.right_keys r mr h q_right)
    prev-shape_hash zero prefix level start o es ks (side c x s) mss h q = absurd h
    prev-shape_hash (suc levels) prefix level start o es ks (side true x s) mss (b, n, e, h) q =
        ap (λ (t : HashedNode). combine hash_parts t x)
          (prev-shape_hash levels (prefix + prefix) (level + 1) start o b.lefts b.left_keys s mss h
            q)
    prev-shape_hash (suc levels) prefix level start o es ks (side false x s) mss (b, n, e, h) q =
        ap (λ (t : HashedNode). combine hash_parts x t)
          (prev-shape_hash levels (prefix + prefix + 1) (level + 1) start o b.rights b.right_keys s
            mss h q)

    abbrev changed : ℕ → List Commitment → List ℕ → List Commitment
    changed o es ks = set_entries es (changes new_value o ks)

    -- The changed entries of a position, by halves.
    changed_parts :
        (levels prefix level o : ℕ) (es : List Commitment) (ks : List ℕ)
        (b : Parts levels prefix es ks) (left right : HashedNode)
        → suc levels + level ≡ depth
        → subtree_hash hash_parts levels (level + 1) (changed o b.lefts b.left_keys) ≡ some left
        → subtree_hash hash_parts levels
            (level + 1)
            (changed (o + length b.left_keys) b.rights b.right_keys)
          ≡ some right
        → subtree_hash hash_parts (suc levels) level (changed o es ks)
          ≡ some (combine hash_parts left right)
    changed_parts levels prefix level o es ks b left right at e f =
        ap (subtree_hash hash_parts (suc levels) level) (
          ap₂ (changed o) b.entries b.keys
          ∙ ap (set_entries (b.lefts ++ b.rights))
              (changes-append new_value o b.left_keys b.right_keys)
          ∙ set_entries_halves levels prefix b.lefts b.rights _ _ b.left_kept.2 b.right_kept.2
              (changes-Shares new_value levels (prefix + prefix) o b.left_keys b.left_sorted.1)
              (changes-Shares new_value levels (prefix + prefix + 1) (o + length b.left_keys)
                b.right_keys b.right_sorted.1))
        ∙ subtree_hash-append hash_parts levels prefix level _ _ (omega (arith, at)) left right
            (set_entries-Live b.lefts _ b.left_kept.1) (set_entries-Live b.rights _ b.right_kept.1)
            (set_entries-Shares levels (prefix + prefix) b.lefts _ b.left_kept.2
              (changes-Shares new_value levels (prefix + prefix) o b.left_keys b.left_sorted.1))
            (set_entries-Shares levels (prefix + prefix + 1) b.rights _ b.right_kept.2 (
              changes-Shares new_value levels (prefix + prefix + 1) (o + length b.left_keys)
                b.right_keys b.right_sorted.1))
            (ap (λ (i : ℕ). subtree_hash hash_parts levels i (changed o b.lefts b.left_keys))
                (omega arith)
              ∙ e)
            (ap
                (λ (i : ℕ).
                  subtree_hash hash_parts levels i
                    (changed (o + length b.left_keys) b.rights b.right_keys))
                (omega arith)
              ∙ f)

    unchanged_part :
        (levels level o : ℕ) (es : List Commitment) (ks : List ℕ) (x : HashedNode)
        → ks ≡ []
        → subtree_hash hash_parts levels level es ≡ some x
        → subtree_hash hash_parts levels level (changed o es ks) ≡ some x
    unchanged_part levels level o es ks x n e =
        ap (λ (t : List ℕ). subtree_hash hash_parts levels level (changed o es t)) n
        ∙ unfold set_entries in e

    -- The new values join to the reference of the changed entries.
    pub post-subtree_hash :
        (levels prefix level start o : ℕ) (es : List Commitment) (ks : List ℕ) (s : Shape)
        (mss : List (List ℕ))
        → levels + level ≡ depth
        → Fitting levels prefix level s
        → Lays hash_parts levels prefix level es ks s mss
        → Paired start o (tips s) mss
        → subtree_hash hash_parts levels level (changed o es ks) ≡ some (post start s)
    post-subtree_hash levels prefix level start o es ks (tip t) mss at f h q =
        let here = subst (Paired start o (t ∷ [])) h.0 q in
        ap₂ (λ (i j : ℕ). subtree_hash hash_parts i j (changed o es ks)) (omega (arith, at, f.0))
          (sym f.0)
        ∙ ap
            (λ (u : List Commitment).
              subtree_hash hash_parts (depth - t.depth) t.depth (changed o u ks))
            (sym h.1)
        ∙ here.0.2
        ∙ ap (λ (u : Option (HashedNode × HashedNode)). some (post_of u)) (sym here.0.1)
    post-subtree_hash zero prefix level start o es ks (fork l r) mss at f h q = absurd h
    post-subtree_hash (suc levels) prefix level start o es ks (fork l r) mss at f
          (b, ml, mr, e, n, g, h) q =
        let (q_left, q_right) =
          Paired-append start o (tips l) (tips r) ml mr n
            (subst (Paired start o (tips l ++ tips r)) e q) in
        changed_parts levels prefix level o es ks b (post start l)
          (post (start + length (tips l)) r) at
          (post-subtree_hash levels (prefix + prefix) (level + 1) start o b.lefts b.left_keys l ml
            (omega (arith, at)) f.0 g q_left)
          (post-subtree_hash levels (prefix + prefix + 1) (level + 1) (start + length (tips l))
            (o + length b.left_keys) b.rights b.right_keys r mr (omega (arith, at)) f.1 h
            (subst (λ (i : ℕ). Paired (start + length (tips l)) (o + i) (tips r) mr)
              (Lays-total hash_parts levels (prefix + prefix) (level + 1) b.lefts b.left_keys l ml
                g)
              q_right))
    post-subtree_hash zero prefix level start o es ks (side c x s) mss at f h q = absurd h
    post-subtree_hash (suc levels) prefix level start o es ks (side true x s) mss at f (b, n, e, h)
          q =
        changed_parts levels prefix level o es ks b (post start s) x at
          (post-subtree_hash levels (prefix + prefix) (level + 1) start o b.lefts b.left_keys s mss
            (omega (arith, at)) f h q)
          (unchanged_part levels (level + 1) (o + length b.left_keys) b.rights b.right_keys x n e)
    post-subtree_hash (suc levels) prefix level start o es ks (side false x s) mss at f (b, n, e, h)
          q =
        changed_parts levels prefix level o es ks b x (post start s) at
          (unchanged_part levels (level + 1) o b.lefts b.left_keys x n e)
          (post-subtree_hash levels (prefix + prefix + 1) (level + 1) start (o + length b.left_keys)
            b.rights b.right_keys s mss (omega (arith, at)) f h
            (subst (λ (i : ℕ). Paired start i (tips s) mss)
              (omega (arith, ap (λ (t : List ℕ). length t) n)) q))
