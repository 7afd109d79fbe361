-- ===== src/Smt.antt =====
-- core/smt/src: the nodes of the sparse Merkle tree, their hashes, and the reference hash of a list of
-- entries (`subtree_hash` of proving/proof.rs).
--
-- A 32-byte key or hash is the number that its bytes spell, the first byte the highest: the order of
-- keys is that of the numbers. A position is the list of the turns to it, the last one first, in
-- place of a level and a path of that many bits. The hash function is other crates' code and is a
-- parameter.
pub mod Updater
pub mod Entries
pub mod Reference
pub mod Stored
pub mod Tree
pub mod Proving
pub mod Encoding
mod Tests
use vprogs.Base.{
  ℕ, zero, suc, ◌-◌, List, [], ◌∷◌, Bool, true, false, ◌&&◌, not, Option, none, some, ◌==◌,
  if◌then◌else◌, take, drop, and_then,
}
use vprogs.Base.Bits.{digit}

-- The number of levels, `DEPTH`.
abbrev pub depth : ℕ
depth = 256

-- The kinds of a node, `EMPTY`, `LEAF` and `INTERNAL`, and `EMPTY_HASH`.
abbrev pub empty_kind : ℕ
empty_kind = 0

abbrev pub leaf_kind : ℕ
leaf_kind = 1

abbrev pub internal_kind : ℕ
internal_kind = 2

abbrev pub empty_hash : ℕ
empty_hash = 0

pub record HashedNode : Type 0 where
  pub kind : ℕ
  pub hash : ℕ

-- `HashedNode::EMPTY`
abbrev pub empty_node : HashedNode
empty_node = record { kind = empty_kind; hash = empty_hash }

pub data Node : Type 0 where
  empty : Node
  internal : ℕ → Node
  leaf : ℕ → ℕ → ℕ → Node

pub record Commitment : Type 0 where
  pub key : ℕ
  pub value_hash : ℕ

-- A position: the turns, `true` for right, the last one first.
abbrev pub Key : Type 0
Key = List Bool

abbrev pub root_key : Key
root_key = []

abbrev pub left_child : Key → Key
left_child key = false ∷ key

abbrev pub right_child : Key → Key
right_child key = true ∷ key

-- `get_msb` of a 32-byte key.
abbrev pub get_msb : ℕ → ℕ → Bool
get_msb key index = digit key (255 - index) == 1

-- `partition_point` of a slice whose elements that pass the test stand first.
abbrev pub partition_point {ℓ} : {A : Type ℓ} → (A → Bool) → List A → ℕ
partition_point p [] = 0
partition_point p (x ∷ xs) = if p x then suc (partition_point p xs) else 0

-- The place where the bit at `level` turns to 1.
abbrev pub split_point : ℕ → List Commitment → ℕ
split_point level entries = partition_point (λ u. not (get_msb u.key level)) entries

-- The hash that a stored node has, and its summary for the parent, `From<&Node>`.
abbrev pub node_hash : Node → ℕ
node_hash empty = empty_hash
node_hash (internal hash) = hash
node_hash (leaf key value_hash hash) = hash

abbrev pub summary : Node → HashedNode
summary empty = empty_node
summary (internal hash) = record { kind = internal_kind; hash = hash }
summary (leaf key value_hash hash) = record { kind = leaf_kind; hash = hash }

-- `hash_parts_with_domain` of the trait `Hasher`: the domain's bytes and the parts.
module _ (hash_parts : List ℕ → List ℕ → ℕ) where
  abbrev pub hashed_leaf : ℕ → ℕ → HashedNode
  hashed_leaf key value_hash =
      if value_hash == empty_hash
      then empty_node
      else record { kind = leaf_kind; hash = hash_parts (leaf_kind ∷ []) (key ∷ value_hash ∷ []) }

  abbrev pub hashed_internal : HashedNode → HashedNode → HashedNode
  hashed_internal left right =
      if left.kind == empty_kind && right.kind == empty_kind then empty_node else record {
        kind = internal_kind;
        hash =
            hash_parts (internal_kind ∷ left.kind ∷ right.kind ∷ []) (left.hash ∷ right.hash ∷ []);
      }

  -- A leaf whose sibling is empty takes its parent's place.
  unfoldable pub combine : HashedNode → HashedNode → HashedNode
  combine left right =
      if left.kind == leaf_kind && right.kind == empty_kind
      then left
      else if left.kind == empty_kind && right.kind == leaf_kind
      then right
      else hashed_internal left right

  -- `Node::leaf` and `Node::internal`
  abbrev pub leaf_node : ℕ → ℕ → Node
  leaf_node key value_hash = leaf key value_hash (hashed_leaf key value_hash).hash

  abbrev pub internal_node : HashedNode → HashedNode → Node
  internal_node left right = internal (hashed_internal left right).hash

  -- `Proof::subtree_hash`: the hash of the subtree at `level` that holds the entries, which are
  -- sorted and share the bits above. The first argument is the number of levels left; past the
  -- last one the code would not return.
  unfoldable pub subtree_hash : ℕ → ℕ → List Commitment → Option HashedNode
  subtree_hash levels level [] = some empty_node
  subtree_hash levels level (u ∷ []) = some (hashed_leaf u.key u.value_hash)
  subtree_hash zero level (u ∷ v ∷ us) = none
  subtree_hash (suc levels) level (u ∷ v ∷ us) =
      let mid = split_point level (u ∷ v ∷ us) in
      and_then (subtree_hash levels (suc level) (take mid (u ∷ v ∷ us))) λ left.
        and_then (subtree_hash levels (suc level) (drop mid (u ∷ v ∷ us)))
          λ right. some (combine left right)
