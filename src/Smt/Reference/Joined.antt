-- ===== src/Smt/Reference/Joined.antt =====
-- core/smt/src/updater.rs, `split_and_recurse`: the node that joins the results of both children.
use vprogs.Base.{
  ℕ, zero, suc, ◌+◌, ◌-◌, ◌≡◌, ◌≢◌, refl, sym, ap, ap₂, ◌∙◌, List, [], ◌∷◌, ◌++◌, Option, none,
  some, take, drop, length, arith, and_then, take-append, drop-append,
}
use vprogs.Smt.{
  empty_node, Key, Node, internal, Commitment, HashedNode, internal_kind, empty_hash, split_point,
  summary, leaf_node, hashed_leaf, hashed_internal, combine, subtree_hash,
}
use vprogs.Smt.Updater.{Write, join, join_internal, child_summary}
use vprogs.Smt.Entries.{Live}
use vprogs.Smt.Entries.Halves.{Shares, split_point_lem}
use vprogs.Smt.Reference.{Stands, Yields}

pub subtree_hash_nothing :
    (hash_parts : List ℕ → List ℕ → ℕ) (levels level : ℕ)
    → subtree_hash hash_parts levels level [] ≡ some empty_node
unfolding subtree_hash
subtree_hash_nothing hash_parts zero level = refl
subtree_hash_nothing hash_parts (suc levels) level = refl

module _ (hash_parts : List ℕ → List ℕ → ℕ) where
  summary_leaf :
      (key value_hash : ℕ)
      → value_hash ≢ empty_hash
      → hashed_leaf hash_parts key value_hash ≡ summary (leaf_node hash_parts key value_hash)
  summary_leaf key value_hash h = ground arith

  pub summary_lem :
      (levels level : ℕ) (es : List Commitment) (node : Option Node)
      → Stands hash_parts levels level es node
      → Live es
      → subtree_hash hash_parts levels level es ≡ some (child_summary node)
  unfolding subtree_hash
  summary_lem zero level [] found s l = ap (λ (t : Option Node). some (child_summary t)) (sym s)
  summary_lem (suc levels) level [] found s l =
      ap (λ (t : Option Node). some (child_summary t)) (sym s)
  summary_lem zero level (u ∷ []) found s l =
      ap some (summary_leaf u.key u.value_hash l.0)
      ∙ ap (λ (t : Option Node). some (child_summary t)) (sym s)
  summary_lem (suc levels) level (u ∷ []) found s l =
      ap some (summary_leaf u.key u.value_hash l.0)
      ∙ ap (λ (t : Option Node). some (child_summary t)) (sym s)
  summary_lem levels level (u ∷ v ∷ us) found (hash, e, h) l =
      h ∙ ap (λ (t : Option Node). some (child_summary t)) (sym e)

  -- The reference hash of entries that do not fit in a leaf, by halves.
  pub subtree_hash_halves :
      (levels prefix level : ℕ) (es fs : List Commitment) (u v : Commitment) (us : List Commitment)
      (left right : HashedNode)
      → 255 - level ≡ levels
      → Shares levels (prefix + prefix) es
      → Shares levels (prefix + prefix + 1) fs
      → u ∷ v ∷ us ≡ es ++ fs
      → subtree_hash hash_parts levels (suc level) es ≡ some left
      → subtree_hash hash_parts levels (suc level) fs ≡ some right
      → subtree_hash hash_parts (suc levels) level (u ∷ v ∷ us)
        ≡ some (combine hash_parts left right)
  unfolding subtree_hash
  subtree_hash_halves levels prefix level es fs u v us left right at s t e p q =
      let mid : split_point level (u ∷ v ∷ us) ≡ length es =
        ap (split_point level) e ∙ split_point_lem levels prefix level at es fs s t in
      let lefts : take (split_point level (u ∷ v ∷ us)) (u ∷ v ∷ us) ≡ es =
        ap₂ take mid e ∙ take-append (length es) es fs refl in
      let rights : drop (split_point level (u ∷ v ∷ us)) (u ∷ v ∷ us) ≡ fs =
        ap₂ drop mid e ∙ drop-append (length es) es fs refl in
      ap₂
        (λ (a b : Option HashedNode).
          and_then a λ left. and_then b λ right. some (combine hash_parts left right))
        (ap (subtree_hash hash_parts levels (suc level)) lefts ∙ p)
        (ap (subtree_hash hash_parts levels (suc level)) rights ∙ q)

  module _ (node : Key → Option (ℕ × Node)) (version : ℕ) (key : Key) (writes : List Write)
      (levels prefix level : ℕ) (at : 255 - level ≡ levels) where
    abbrev pub Joins : List Commitment → List Commitment → Type 0
    Joins es fs =
        (left right : Option Node)
        → Shares levels (prefix + prefix) es
        → Shares levels (prefix + prefix + 1) fs
        → Live es
        → Live fs
        → Stands hash_parts levels (suc level) es left
        → Stands hash_parts levels (suc level) fs right
        → Yields hash_parts (join hash_parts node version key writes left right) (suc levels) level
            (es ++ fs)

    join_internal_lem :
        (es fs : List Commitment) (u v : Commitment) (us : List Commitment)
        (left right : Option Node)
        → join hash_parts node version key writes left right
          ≡ join_internal hash_parts node version key writes left right
        → combine hash_parts (child_summary left) (child_summary right) ≡ record {
          kind = internal_kind;
          hash = (hashed_internal hash_parts (child_summary left) (child_summary right)).hash;
        }
        → Shares levels (prefix + prefix) es
        → Shares levels (prefix + prefix + 1) fs
        → Live es
        → Live fs
        → Stands hash_parts levels (suc level) es left
        → Stands hash_parts levels (suc level) fs right
        → u ∷ v ∷ us ≡ es ++ fs
        → Yields hash_parts
            (join hash_parts node version key writes left right)
            (suc levels)
            level
            (u ∷ v ∷ us)
    join_internal_lem es fs u v us left right j c s t l m p q e = (
      _,
      _,
      j,
      (
        _,
        refl,
        subtree_hash_halves levels prefix level es fs u v us (child_summary left)
              (child_summary right) at s t e (summary_lem levels (suc level) es left p l)
              (summary_lem levels (suc level) fs right q m)
            ∙ ap some c,
      ),
    )

    pub join-Yields : (es fs : List Commitment) → Joins es fs
    unfolding join combine
    join-Yields [] [] left right s t l m p q = rw (p, q) (_, _, refl, refl)
    join-Yields [] (y ∷ []) left right s t l m p q = rw (p, q) (_, _, refl, refl)
    join-Yields (x ∷ []) [] left right s t l m p q = rw (p, q) (_, _, refl, refl)
    join-Yields [] (y ∷ y' ∷ ys) left right s t l m p q =
        rw (p, q.1)
          (join_internal_lem [] (y ∷ y' ∷ ys) y y' ys none (some (internal q.0)) refl refl s t l m
            refl (q.0, refl, q.2) refl)
    join-Yields (x ∷ []) (y ∷ []) left right s t l m p q =
        rw (p, q) (join_internal_lem (x ∷ []) (y ∷ []) x y [] _ _ refl refl s t l m refl refl refl)
    join-Yields (x ∷ []) (y ∷ y' ∷ ys) left right s t l m p q =
        rw (p, q.1)
          (join_internal_lem (x ∷ []) (y ∷ y' ∷ ys) x y (y' ∷ ys) _ _ refl refl s t l m refl
            (q.0, refl, q.2) refl)
    join-Yields (x ∷ x' ∷ xs) [] left right s t l m p q =
        rw (p.1, q)
          (join_internal_lem (x ∷ x' ∷ xs) [] x x' (xs ++ []) _ _ refl refl s t l m (p.0, refl, p.2)
            refl refl)
    join-Yields (x ∷ x' ∷ xs) (y ∷ []) left right s t l m p q =
        rw (p.1, q)
          (join_internal_lem (x ∷ x' ∷ xs) (y ∷ []) x x' (xs ++ y ∷ []) _ _ refl refl s t l m
            (p.0, refl, p.2) refl refl)
    join-Yields (x ∷ x' ∷ xs) (y ∷ y' ∷ ys) left right s t l m p q =
        rw (p.1, q.1)
          (join_internal_lem (x ∷ x' ∷ xs) (y ∷ y' ∷ ys) x x' (xs ++ y ∷ y' ∷ ys) _ _ refl refl s t
            l m (p.0, refl, p.2) (q.0, refl, q.2) refl)
