-- ===== src/Smt/Proving/Post/Halves.antt =====
-- core/smt/src/proving/proof.rs, `subtree_hash`: the hash of entries on both sides of a position.
use vprogs.Base.{
  ℕ, zero, suc, ◌+◌, ◌-◌, ◌≡◌, ◌≢◌, refl, sym, subst, ap, ap₂, ◌∙◌, List, Option, none, [], ◌∷◌,
  ◌++◌, some, arith, ==_ne,
}
use vprogs.Smt.{
  Commitment, HashedNode, empty_node, empty_hash, hashed_leaf, combine, depth, subtree_hash,
}
use vprogs.Smt.Entries.{Ascending, Live}
use vprogs.Smt.Entries.Halves.{Shares, Halves, halves, Ascending-append}
use vprogs.Smt.Reference.Updates.{no_two}
use vprogs.Smt.Reference.Joined.{subtree_hash_nothing, subtree_hash_halves}

abbrev hash_or : HashedNode → Option HashedNode → HashedNode
hash_or h none = h
hash_or h (some k) = k

module _ (hash_parts : List ℕ → List ℕ → ℕ) where
  alone :
      (levels level : ℕ) (u : Commitment)
      → subtree_hash hash_parts levels level (u ∷ [])
        ≡ some (hashed_leaf hash_parts u.key u.value_hash)
  unfolding subtree_hash
  alone zero level u = refl
  alone (suc levels) level u = refl

  abbrev Halved : ℕ → ℕ → ℕ → List Commitment → List Commitment → Type 0
  Halved levels prefix level es fs =
      (left right : HashedNode)
      → Live es
      → Live fs
      → Shares levels (prefix + prefix) es
      → Shares levels (prefix + prefix + 1) fs
      → subtree_hash hash_parts levels (suc level) es ≡ some left
      → subtree_hash hash_parts levels (suc level) fs ≡ some right
      → subtree_hash hash_parts (suc levels) level (es ++ fs) ≡ some (combine hash_parts left right)

  value_of : (a b : HashedNode) → some a ≡ some b → a ≡ b
  value_of a b e = ap (hash_or a) e

  lone_left :
      (u : Commitment)
      → u.value_hash ≢ empty_hash
      → combine hash_parts (hashed_leaf hash_parts u.key u.value_hash) empty_node
        ≡ hashed_leaf hash_parts u.key u.value_hash
  unfolding combine
  lone_left u h = rw (==_ne u.value_hash empty_hash h) refl

  lone_right :
      (u : Commitment)
      → u.value_hash ≢ empty_hash
      → combine hash_parts empty_node (hashed_leaf hash_parts u.key u.value_hash)
        ≡ hashed_leaf hash_parts u.key u.value_hash
  unfolding combine
  lone_right u h = rw (==_ne u.value_hash empty_hash h) refl

  -- The hash of live entries joins the hashes of both halves, where one may be empty or a leaf.
  pub subtree_hash-append :
      (levels prefix level : ℕ) (es fs : List Commitment)
      → 255 - level ≡ levels
      → Halved levels prefix level es fs
  subtree_hash-append levels prefix level [] [] at left right l m s t p q =
      subtree_hash_nothing hash_parts (suc levels) level
      ∙ ap some (
          unfold combine in
          ap₂ (combine hash_parts)
            (value_of _ _ (sym (subtree_hash_nothing hash_parts levels (suc level)) ∙ p))
            (value_of _ _ (sym (subtree_hash_nothing hash_parts levels (suc level)) ∙ q)))
  subtree_hash-append levels prefix level [] (v ∷ []) at left right l m s t p q =
      alone (suc levels) level v
      ∙ ap some (
          sym (lone_right v m.0)
          ∙ ap₂ (combine hash_parts)
              (value_of _ _ (sym (subtree_hash_nothing hash_parts levels (suc level)) ∙ p))
              (value_of _ _ (sym (alone levels (suc level) v) ∙ q)))
  subtree_hash-append levels prefix level [] (v ∷ w ∷ ws) at left right l m s t p q =
      subtree_hash_halves hash_parts levels prefix level [] (v ∷ w ∷ ws) v w ws left right at s t
        refl p q
  subtree_hash-append levels prefix level (u ∷ []) [] at left right l m s t p q =
      alone (suc levels) level u
      ∙ ap some (
          sym (lone_left u l.0)
          ∙ ap₂ (combine hash_parts) (value_of _ _ (sym (alone levels (suc level) u) ∙ p))
              (value_of _ _ (sym (subtree_hash_nothing hash_parts levels (suc level)) ∙ q)))
  subtree_hash-append levels prefix level (u ∷ []) (v ∷ vs) at left right l m s t p q =
      subtree_hash_halves hash_parts levels prefix level (u ∷ []) (v ∷ vs) u v vs left right at s t
        refl p q
  subtree_hash-append levels prefix level (u ∷ w ∷ us) fs at left right l m s t p q =
      subtree_hash_halves hash_parts levels prefix level (u ∷ w ∷ us) fs u w (us ++ fs) left right
        at s t refl p q

  -- Entries in order that share the bits above have a hash.
  pub subtree_hash-total :
      (levels prefix level : ℕ) (es : List Commitment)
      → levels + level ≡ depth
      → Ascending es
      → Shares levels prefix es
      → (h : HashedNode) × (subtree_hash hash_parts levels level es ≡ some h)
  subtree_hash-total levels prefix level [] at a s =
      (empty_node, subtree_hash_nothing hash_parts levels level)
  subtree_hash-total zero prefix level (u ∷ []) at a s = (_, alone zero level u)
  subtree_hash-total (suc levels) prefix level (u ∷ []) at a s = (_, alone (suc levels) level u)
  subtree_hash-total zero prefix level (u ∷ v ∷ us) at a s = absurd (no_two prefix u v us a s)
  subtree_hash-total (suc levels) prefix level (u ∷ v ∷ us) at a s =
      go (halves levels prefix (u ∷ v ∷ us) a s)
        (λ es. subtree_hash-total levels (prefix + prefix) (suc level) es (omega arith))
        (λ es. subtree_hash-total levels (prefix + prefix + 1) (suc level) es (omega arith))
    where
      go :
          Halves levels prefix (u ∷ v ∷ us)
          → ((es : List Commitment)
              → Ascending es
              → Shares levels (prefix + prefix) es
              → (h : HashedNode) × (subtree_hash hash_parts levels (suc level) es ≡ some h))
          → ((es : List Commitment)
              → Ascending es
              → Shares levels (prefix + prefix + 1) es
              → (h : HashedNode) × (subtree_hash hash_parts levels (suc level) es ≡ some h))
          → (h : HashedNode) × (subtree_hash hash_parts (suc levels) level (u ∷ v ∷ us) ≡ some h)
      go h on_left on_right =
          let (b, c) = Ascending-append h.left h.right (subst Ascending h.parts a) in
          let (left, p) = on_left h.left b h.left_shares in
          let (right, q) = on_right h.right c h.right_shares in
          (
            combine hash_parts left right,
            subtree_hash_halves hash_parts levels prefix level h.left h.right u v us left right
                (omega (arith, at)) h.left_shares h.right_shares h.parts p q,
          )
