-- ===== src/Smt/Tests.antt =====
-- Runs of the sparse Merkle tree with a toy hash, and the theorems on them.
use vprogs.Base.{
  ℕ, ◌+◌, ◌*◌, ◌^◌, ◌<◌, ◌≡◌, ◌≢◌, ◌⊎◌, ◌++◌, inl, inr, length, get_elem?, refl, List, [], ◌∷◌,
  Bool, true, false, Option, none, some, arith,
}
use vprogs.Smt.{
  Key, Node, internal, Commitment, HashedNode, depth, empty_hash, root_key, leaf_node, hashed_leaf,
  combine, subtree_hash,
}
use vprogs.Smt.Updater.{Write, existing, apply}
use vprogs.Smt.Entries.{set_entries}
use vprogs.Smt.Reference.{Holds}
use vprogs.Smt.Reference.Updates.{apply-subtree_hash}
use vprogs.Smt.Stored.{committed, leaf-Holds, two-Holds}
use vprogs.Smt.Stored.Deleted.{deleted_returns}
use vprogs.Smt.Stored.Grown.{entries_after, grow-subtree_hash}
use vprogs.Smt.Tree.{grow}
use vprogs.Smt.Proving.Topology.{push, push_all, no_topology, bit_or_false, push_all-get_lsb}
use vprogs.Smt.Proving.Traversal.{Proof, present, absent, proof_root}
use vprogs.Smt.Proving.Wire.{FitsWire, encode_proof, decode_proof, decode_proof-encode_proof}
use vprogs.Smt.Proving.Builder.{build}
use vprogs.Smt.Proving.Root.{proof_root-build}
use vprogs.Codec.SortUnique.{sort_unique}
use vprogs.Smt.Proving.Member.{check_sorted_queried_keys}
use vprogs.Smt.Proving.Member.Answers.{Answer}
use vprogs.Smt.Proving.Member.Answered.{member-build}
use vprogs.Smt.Proving.Post.{compute_roots}
use vprogs.Smt.Proving.Post.Scanned.{changes}
use vprogs.Smt.Proving.Post.Roots.{compute_roots-build}
use vprogs.Smt.Encoding.{Field, encode, decode, Fits, decode_exactly}
use vprogs.Codec.Bits.{get_lsb, set_lsb}

abbrev total : List ℕ → ℕ
total [] = 1
total (x ∷ xs) = x + 3 * total xs

abbrev toy_hash : List ℕ → List ℕ → ℕ
toy_hash domain parts = total domain + 5 * total parts

abbrev entry : ℕ → ℕ → Commitment
entry key value_hash = record { key = key; value_hash = value_hash }

abbrev low : Commitment
low = entry 3 10

abbrev high : Commitment
high = entry (2 ^ 255) 20

abbrev higher : Commitment
higher = entry (2 ^ 255 + 2 ^ 254) 30

abbrev root_hash : ℕ
root_hash = (combine toy_hash (hashed_leaf toy_hash 3 10) (hashed_leaf toy_hash (2 ^ 255) 20)).hash

-- The tree that holds `low` and `high`, written at version 1.
abbrev two_leaves : Key → Option (ℕ × Node)
two_leaves [] = some (1, internal root_hash)
two_leaves (false ∷ []) = some (1, leaf_node toy_hash 3 10)
two_leaves (true ∷ []) = some (1, leaf_node toy_hash (2 ^ 255) 20)
two_leaves (a ∷ b ∷ k) = none

abbrev view : Key → Option Node
view key = existing (two_leaves key)

none_below : (b c : Bool) (k : Key) → view (b ∷ c ∷ k) ≡ none
none_below true c k = refl
none_below false c k = refl

two_leaves-Holds : Holds toy_hash view depth root_key (low ∷ high ∷ [])
unfolding subtree_hash combine
two_leaves-Holds =
    two-Holds toy_hash view 255 low high (root_hash, refl, refl) refl refl
      (leaf-Holds toy_hash view none_below 255 false low refl)
      (leaf-Holds toy_hash view none_below 255 true high refl)

-- A new key, a new value and a deletion, out of order.
abbrev two_changes : List Commitment
two_changes = higher ∷ entry 3 0 ∷ entry (2 ^ 255) 21 ∷ []

apply-subtree_hash_example :
    (writes : List Write) × (root : HashedNode) × (subtree_hash toy_hash depth 0
        (set_entries (low ∷ high ∷ []) two_changes)
      ≡ some root)
    × (apply toy_hash two_leaves 2 two_changes ≡ some (writes, root.hash))
apply-subtree_hash_example =
    apply-subtree_hash toy_hash two_leaves 2 (low ∷ high ∷ []) two_changes (omega arith)
      (omega arith) (omega arith) (omega arith) two_leaves-Holds

deleted_returns_example :
    (deleting inserting : List Write) × (hash : ℕ) × (root : HashedNode) × (apply toy_hash
        two_leaves 2
        (entry (2 ^ 255) 0 ∷ [])
      ≡ some (deleting, hash))
    × (apply toy_hash (committed deleting two_leaves) 3 (higher ∷ []) ≡ some (inserting, root.hash))
    × (subtree_hash toy_hash depth 0 (set_entries (low ∷ high ∷ []) (higher ∷ [])) ≡ some root)
deleted_returns_example =
    deleted_returns toy_hash two_leaves 2 3 low high (entry (2 ^ 255) 0) higher (omega arith)
      (omega arith) (omega arith) refl refl (omega arith) (omega arith) (omega arith)
      two_leaves-Holds

-- Three updates, the second with no commitment.
abbrev history : List (List Commitment)
history = (higher ∷ low ∷ []) ∷ [] ∷ (high ∷ entry 3 11 ∷ []) ∷ []

grow-subtree_hash_example :
    (reference : HashedNode) × (subtree_hash toy_hash depth 0 (entries_after [] history)
      ≡ some reference)
    × (grow toy_hash 1 history (λ key. none) empty_hash ≡ some reference.hash)
grow-subtree_hash_example = grow-subtree_hash toy_hash history (
  (omega arith, (omega arith, tt)),
  (refl, (refl, tt)),
  (tt, tt, ((omega arith, (omega arith, tt)), (refl, (refl, tt)), tt)),
)

abbrev shape : List Bool
shape = true ∷ false ∷ false ∷ true ∷ false ∷ false ∷ false ∷ true ∷ true ∷ false ∷ []

push_all-get_lsb_example :
    ((push_all no_topology shape).len ≡ length shape)
    × (8 * length (push_all no_topology shape).bytes < length shape + 8)
    × (get_lsb (push_all no_topology shape).bytes 8 ≡ bit_or_false (get_elem? shape 8))
push_all-get_lsb_example = push_all-get_lsb shape 8

-- The two bytes that hold the shape.
packed_shape : (push_all no_topology shape).bytes ≡ 137 ∷ 1 ∷ []
unfolding push_all push set_lsb
packed_shape = refl

-- An internal node cut short.
abbrev wire : List ℕ
wire = 2 ∷ 7 ∷ 255 ∷ 0 ∷ []

decode_exactly_example :
    ((n : Node) × (rest : List ℕ) × (decode wire ≡ inr (n, rest))
      × Fits n
      × (encode n ++ rest ≡ wire))
    ⊎ ((field : Field) × (decode wire ≡ inl field)
        × ((n : Node) (rest : List ℕ) → Fits n → encode n ++ rest ≢ wire))
decode_exactly_example = decode_exactly wire (omega arith)

two_sorted : sort_unique (2 ^ 254 ∷ 3 ∷ []) ≡ some (3 ∷ 2 ^ 254 ∷ [], 1 ∷ 0 ∷ [])
unfolding sort_unique
two_sorted = refl

-- A proof for the key of `low` and for an absent key beside it; the right side is a sibling.
proof_root-build_example :
    (proof : Proof) × (reference : HashedNode) × (build two_leaves (2 ^ 254 ∷ 3 ∷ []) ≡ some proof)
    × (subtree_hash toy_hash depth 0 (low ∷ high ∷ []) ≡ some reference)
    × (proof_root toy_hash proof ≡ some reference.hash)
proof_root-build_example =
    proof_root-build toy_hash two_leaves (low ∷ high ∷ []) (2 ^ 254 ∷ 3 ∷ []) (3 ∷ 2 ^ 254 ∷ [])
      (1 ∷ 0 ∷ []) (omega arith) (omega arith) (omega arith) two_leaves-Holds two_sorted
      (omega arith) (omega arith)

-- The key of `low` and the absent key beside it get new values: one leaf becomes two.
compute_roots-build_example :
    (proof : Proof) × (before : HashedNode) × (after : HashedNode) × (build two_leaves
        (3 ∷ 2 ^ 254 ∷ [])
      ≡ some proof)
    × (subtree_hash toy_hash depth 0 (low ∷ high ∷ []) ≡ some before)
    × (subtree_hash toy_hash depth 0
          (set_entries (low ∷ high ∷ []) (changes (λ i. i + 40) 0 (3 ∷ 2 ^ 254 ∷ [])))
        ≡ some after)
    × (compute_roots toy_hash proof (λ i. i + 40) ≡ some (before.hash, after.hash))
compute_roots-build_example =
    compute_roots-build toy_hash two_leaves (low ∷ high ∷ []) (3 ∷ 2 ^ 254 ∷ []) (λ i. i + 40)
      (omega arith) (omega arith) (omega arith) two_leaves-Holds (omega arith) (omega arith)
      (omega arith)

-- The absent key beside `low` has no value.
member-build_example :
    (proof : Proof) × (build two_leaves (3 ∷ 2 ^ 254 ∷ []) ≡ some proof)
    × (check_sorted_queried_keys proof ≡ true)
    × Answer proof 1 (2 ^ 254) (low ∷ high ∷ [])
member-build_example =
    member-build toy_hash two_leaves (low ∷ high ∷ []) (3 ∷ 2 ^ 254 ∷ []) 1 (2 ^ 254) (omega arith)
      (omega arith) (omega arith) two_leaves-Holds (omega arith) (omega arith) refl

abbrev small_proof : Proof
small_proof = record {
  keys = 3 ∷ 2 ^ 254 ∷ [];
  leaves = record { depth = 1; key_idx = 0; value_hash = 10 } ∷ [];
  siblings = record { kind = 1; hash = 7 } ∷ [];
  topology = 0 ∷ [];
  memberships = present 0 ∷ absent 0 ∷ [];
}

small_proof-FitsWire : FitsWire (2 ^ 32) small_proof
small_proof-FitsWire = record {
  keys = omega arith;
  leaves = omega arith;
  siblings = omega arith;
  memberships = omega arith;
  counts = omega arith;
  sizes = omega arith;
}

decode_proof-encode_proof_example :
    decode_proof (2 ^ 32) (encode_proof small_proof ++ 7 ∷ []) ≡ inr (small_proof, 7 ∷ [])
decode_proof-encode_proof_example =
    decode_proof-encode_proof (2 ^ 32) small_proof (7 ∷ []) small_proof-FitsWire
