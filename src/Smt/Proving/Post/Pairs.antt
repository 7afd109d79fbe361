-- ===== src/Smt/Proving/Post/Pairs.antt =====
-- core/smt/src/proving/traversal.rs, `walk_pair`: both components are what a walk joins.
use vprogs.Base.{
  ℕ, ◌+◌, ◌<◌, ◌≤◌, ◌≡◌, refl, ap, ap₂, ◌∙◌, inl, inr, List, true, Option, some, arith, ◌&&◌,
  if◌then◌else◌, length, Bool-cases,
}
use vprogs.Smt.{HashedNode, empty_node, combine, depth}
use vprogs.Smt.Proving.Traversal.{Proof, combine_with_sibling}
use vprogs.Smt.Proving.Shape.{Shape, tip, fork, side, tips, sibs, bits, Fitting, At, AtBits, AtTips}
use vprogs.Smt.Proving.Walk.{shape_value, walk_with-shape_value, joined}
use vprogs.Smt.Proving.Post.{same_node, combine_pairs, pair_with_sibling, walk_pair}

same_node_lem : (a b : HashedNode) → same_node a b ≡ true → a ≡ b
same_node_lem a b e =
    ap₂ (λ (x y : ℕ). record { kind = x; hash = y }) (ground (arith, e)) (ground (arith, e))

module _ (hash_parts : List ℕ → List ℕ → ℕ) (p : Proof) where
  reused :
      (a b : HashedNode) (x y : HashedNode)
      → (f : HashedNode → HashedNode → HashedNode)
      → (if same_node a x && same_node b y then f a b else f x y) ≡ f x y
  reused a b x y f = elim (Bool-cases (same_node a x)) [
    | inl e ↦ elim (Bool-cases (same_node b y)) [
      | inl g ↦ rw (e, g) (ap₂ f (same_node_lem a x e) (same_node_lem b y g))
      | inr g ↦ rw (e, g) refl
    ]
    | inr e ↦ rw e refl
  ]

  reused_side :
      (a x : HashedNode) (f : HashedNode → HashedNode) → (if same_node a x then f a else f x) ≡ f x
  reused_side a x f = elim (Bool-cases (same_node a x)) [
    | inl e ↦ rw e (ap f (same_node_lem a x e))
    | inr e ↦ rw e refl
  ]

  abbrev pair_value :
      (ℕ → Option (HashedNode × HashedNode))
      → (ℕ → HashedNode)
      → (ℕ → HashedNode)
      → ℕ
      → Shape
      → HashedNode × HashedNode
  pair_value leaf_hash_fn u w start s =
      shape_value hash_parts p leaf_hash_fn (empty_node, empty_node) (combine_pairs hash_parts p)
        (pair_with_sibling hash_parts p) (λ i. (u i, w i)) start s

  pair_value-joined :
      (f : ℕ → Option (HashedNode × HashedNode)) (u w : ℕ → HashedNode) (start : ℕ) (s : Shape)
      → pair_value f u w start s ≡ (joined hash_parts p u start s, joined hash_parts p w start s)
  pair_value-joined f u w start (tip t) = refl
  pair_value-joined f u w start (fork l r) =
      ap₂ (combine_pairs hash_parts p) (pair_value-joined f u w start l)
        (pair_value-joined f u w (start + length (tips l)) r)
      ∙ ap (λ (h : HashedNode). (joined hash_parts p u start (fork l r), h))
          (reused (joined hash_parts p u start l)
            (joined hash_parts p u (start + length (tips l)) r) (joined hash_parts p w start l)
            (joined hash_parts p w (start + length (tips l)) r) (combine hash_parts))
  pair_value-joined f u w start (side b x s) =
      ap (λ (t : HashedNode × HashedNode). pair_with_sibling hash_parts p t x b)
        (pair_value-joined f u w start s)
      ∙ ap (λ (h : HashedNode). (joined hash_parts p u start (side b x s), h))
          (reused_side (joined hash_parts p u start s) (joined hash_parts p w start s)
            (λ h. combine_with_sibling hash_parts p h x b))

  -- Where the leaves have pairs of values, the paired walk joins both.
  pub walk_pair-joined :
      (f : ℕ → Option (HashedNode × HashedNode)) (u w : ℕ → HashedNode) (levels prefix level : ℕ)
      (s : Shape) (start end sib topo : ℕ)
      → levels + level ≡ depth
      → Fitting levels prefix level s
      → end ≡ start + length (tips s)
      → AtTips p start (tips s)
      → ((i : ℕ) → start ≤ i → i < start + length (tips s) → f i ≡ some (u i, w i))
      → At p.siblings sib (sibs s)
      → AtBits p.topology topo (bits s)
      → walk_pair hash_parts p f levels start end level
          (record { sibling_idx = sib; topo_bit = topo })
        ≡ some (
          (joined hash_parts p u start s, joined hash_parts p w start s),
          record { sibling_idx = sib + length (sibs s); topo_bit = topo + length (bits s) },
        )
  unfolding walk_pair
  walk_pair-joined f u w levels prefix level s start end sib topo at g e h v t b =
      walk_with-shape_value hash_parts p f (empty_node, empty_node) (combine_pairs hash_parts p)
        (pair_with_sibling hash_parts p) (λ i. (u i, w i)) levels prefix level s at g start end sib
        topo e h v t b
      ∙ ap
          (λ (x : HashedNode × HashedNode).
            some (
              x,
              record { sibling_idx = sib + length (sibs s); topo_bit = topo + length (bits s) },
            ))
          (pair_value-joined f u w start s)
