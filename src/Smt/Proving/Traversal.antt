-- ===== src/Smt/Proving/Traversal.antt =====
-- core/smt/src/proving: the parts of a decoded multi-proof (proof.rs) and its walk (traversal.rs).
--
-- `none` is an error of the code, or an index past the end, where it panics.
use vprogs.Base.{
  ℕ, zero, suc, ◌+◌, ◌-◌, List, [], ◌∷◌, Bool, false, Option, none, some, ltb, ◌==◌, if◌then◌else◌,
  and_then, take, drop, get_elem?, length, not,
}
use vprogs.Codec.Bits.{get_lsb}
use vprogs.Smt.{
  Commitment, HashedNode, empty_node, hashed_leaf, combine, get_msb, split_point, depth,
}

pub record Leaf : Type 0 where
  pub depth : ℕ
  pub key_idx : ℕ
  pub value_hash : ℕ

-- The leaf's index.
pub data Membership : Type 0 where
  present : ℕ → Membership
  absent : ℕ → Membership

pub record Proof : Type 0 where
  pub keys : List ℕ
  pub leaves : List Leaf
  pub siblings : List HashedNode
  pub topology : List ℕ
  pub memberships : List Membership

pub record Cursor : Type 0 where
  pub sibling_idx : ℕ
  pub topo_bit : ℕ

-- A leaf with its key.
abbrev pub resolve : List ℕ → Leaf → Option Commitment
resolve keys leaf =
    and_then (get_elem? keys leaf.key_idx)
      λ key. some (record { key = key; value_hash = leaf.value_hash })

abbrev pub resolve_all : List ℕ → List Leaf → Option (List Commitment)
resolve_all keys [] = some []
resolve_all keys (leaf ∷ leaves) =
    and_then (resolve keys leaf) λ u. and_then (resolve_all keys leaves) λ us. some (u ∷ us)

module _ (hash_parts : List ℕ → List ℕ → ℕ) (proof : Proof) where
  -- `Proof::leaf_hash`
  abbrev pub leaf_hash : ℕ → Option HashedNode
  leaf_hash i = and_then (get_elem? proof.leaves i) λ leaf.
      and_then (resolve proof.keys leaf) λ u. some (hashed_leaf hash_parts u.key u.value_hash)

  abbrev pub at_shortcut_depth : ℕ → ℕ → ℕ → Option Bool
  at_shortcut_depth start end level =
      if (end - start) == 1
      then and_then (get_elem? proof.leaves start)
          (λ leaf. if ltb leaf.depth level then none else some (level == leaf.depth))
      else some false

  -- `some none` is to go on.
  abbrev pub terminal_value : {T : Type 0} → (ℕ → Option T) → ℕ → ℕ → ℕ → T → Option (Option T)
  terminal_value leaf_hash_fn start end level empty =
      if start == end
      then some (some empty)
      else and_then (at_shortcut_depth start end level)
          (λ short. if short then and_then (leaf_hash_fn start) (λ h. some (some h)) else some none)

  -- The code reads the keys of those leaves only that its binary search visits.
  abbrev pub leaves_split_point : ℕ → ℕ → ℕ → Option ℕ
  leaves_split_point start end level =
      and_then (resolve_all proof.keys (take (end - start) (drop start proof.leaves)))
        λ us. some (start + split_point level us)

  abbrev pub leaf_goes_left : ℕ → ℕ → Option Bool
  leaf_goes_left start level =
      and_then (get_elem? proof.leaves start)
        λ leaf. and_then (resolve proof.keys leaf) λ u. some (not (get_msb u.key level))

  abbrev pub combine_with_sibling : HashedNode → HashedNode → Bool → HashedNode
  combine_with_sibling child sibling child_goes_left =
      if child_goes_left then combine hash_parts child sibling else combine hash_parts sibling child

  abbrev pub Walking : Type 0 → Type 0
  Walking T = ℕ → ℕ → ℕ → Cursor → Option (T × Cursor)

  -- `both` joins two children and `aside` a child and its sibling.
  abbrev pub walk_both : {T : Type 0} → (T → T → T) → Walking T → Walking T
  walk_both both walk start end level cursor = and_then (leaves_split_point start end level) λ mid.
      and_then (walk start mid (level + 1) cursor) λ (left, after_left).
        and_then (walk mid end (level + 1) after_left)
          λ (right, after_right). some (both left right, after_right)

  abbrev pub walk_side : {T : Type 0} → (T → HashedNode → Bool → T) → Walking T → Walking T
  walk_side aside walk start end level cursor = and_then (leaf_goes_left start level) λ goes_left.
      and_then (get_elem? proof.siblings cursor.sibling_idx) λ sibling.
        and_then
          (walk start end (level + 1) (record cursor { sibling_idx = cursor.sibling_idx + 1 }))
          λ (child, after_child). some (aside child sibling goes_left, after_child)

  abbrev pub descend :
      {T : Type 0} → (T → T → T) → (T → HashedNode → Bool → T) → Walking T → Walking T
  descend both aside walk start end level cursor =
      if get_lsb proof.topology cursor.topo_bit
      then walk_both both walk start end level (record cursor { topo_bit = cursor.topo_bit + 1 })
      else walk_side aside walk start end level (record cursor { topo_bit = cursor.topo_bit + 1 })

  abbrev pub walk_on :
      {T : Type 0} → Option (T × Cursor) → Cursor → Option (Option T) → Option (T × Cursor)
  walk_on deeper cursor none = none
  walk_on deeper cursor (some (some value)) = some (value, cursor)
  walk_on deeper cursor (some none) = deeper

  -- What `walk` and `walk_pair` share. The number of levels left is 0 at `DEPTH`.
  unfoldable pub walk_with :
      {T : Type 0} → (ℕ → Option T) → T → (T → T → T) → (T → HashedNode → Bool → T) → ℕ → Walking T
  walk_with leaf_hash_fn empty both aside zero start end level cursor =
      walk_on none cursor (terminal_value leaf_hash_fn start end level empty)
  walk_with leaf_hash_fn empty both aside (suc levels) start end level cursor =
      walk_on
        (descend both aside (walk_with leaf_hash_fn empty both aside levels) start end level cursor)
        cursor (terminal_value leaf_hash_fn start end level empty)

  unfoldable pub walk : ℕ → Walking HashedNode
  walk levels start end level cursor =
      walk_with leaf_hash empty_node (combine hash_parts) combine_with_sibling levels start end
        level cursor

  -- `Proof::root`
  unfoldable pub proof_root : Option ℕ
  proof_root =
      and_then (walk depth 0 (length proof.leaves) 0 (record { sibling_idx = 0; topo_bit = 0 }))
        λ (node, cursor). some node.hash
