-- ===== src/Smt/Reference.antt =====
-- core/smt/src/updater.rs: an update of a tree that holds a list of entries gives the reference hash of
-- the list with the commitments set.
pub mod Joined
pub mod Subtree
pub mod Updates
use vprogs.Base.{ℕ, zero, suc, ◌≡◌, List, [], ◌∷◌, Option, none, some, take, drop, length}
use vprogs.Smt.{
  Key, Node, internal, Commitment, internal_kind, left_child, right_child, split_point, leaf_node,
  subtree_hash,
}
use vprogs.Smt.Updater.{Write, Outcome}

-- What a child gets of the entries: those in its half, where they do not fit in a leaf.
abbrev pub left_part : ℕ → List Commitment → List Commitment
left_part level [] = []
left_part level (u ∷ []) = []
left_part level (u ∷ v ∷ us) = take (split_point level (u ∷ v ∷ us)) (u ∷ v ∷ us)

abbrev pub right_part : ℕ → List Commitment → List Commitment
right_part level [] = []
right_part level (u ∷ []) = []
right_part level (u ∷ v ∷ us) = drop (split_point level (u ∷ v ∷ us)) (u ∷ v ∷ us)

module _ (hash_parts : List ℕ → List ℕ → ℕ) where
  -- The node of the subtree that holds the entries: none, the one leaf, or an internal node with
  -- the reference hash.
  abbrev pub Stands : ℕ → ℕ → List Commitment → Option Node → Type 0
  Stands levels level [] node = node ≡ none
  Stands levels level (u ∷ []) node = node ≡ some (leaf_node hash_parts u.key u.value_hash)
  Stands levels level (u ∷ v ∷ us) node =
      (hash : ℕ) × (node ≡ some (internal hash))
      × (subtree_hash hash_parts levels level (u ∷ v ∷ us)
          ≡ some (record { kind = internal_kind; hash = hash }))

  -- The stored nodes at and below a position are those of the entries; below a leaf and an empty
  -- position there is none.
  abbrev pub Holds : (Key → Option Node) → ℕ → Key → List Commitment → Type 0
  Holds view zero key es = Stands zero (length key) es (view key)
  Holds view (suc levels) key es =
      Stands (suc levels) (length key) es (view key)
      × Holds view levels (left_child key) (left_part (length key) es)
      × Holds view levels (right_child key) (right_part (length key) es)

  abbrev pub Yields : Outcome → ℕ → ℕ → List Commitment → Type 0
  Yields outcome levels level es =
      (writes : List Write) × (node : Option Node) × (outcome ≡ some (writes, node))
      × Stands levels level es node
