-- ===== src/Smt/Proving/Builder.antt =====
-- core/smt/src/proving/proof_builder.rs: the parts of a multi-proof, collected from the tree.
--
-- `node` is the tree at the proof's version. The keys are unique, so a key's first place in the table
-- is the one that the index map has. `none` is where the code would not return or panics.
use vprogs.Base.{
  ℕ, zero, suc, ◌+◌, List, [], ◌∷◌, ◌++◌, true, false, Option, none, some, ltb, ◌==◌, not, ◌&&◌,
  if◌then◌else◌, and_then, take, drop, get_elem?, length, map,
}
use vprogs.Smt.{
  Key, Node, empty, internal, leaf, HashedNode, empty_node, empty_hash, summary, left_child,
  right_child, get_msb, partition_point, depth, root_key,
}
use vprogs.Smt.Proving.Topology.{Topology, no_topology, push}
use vprogs.Smt.Proving.Traversal.{Leaf, Proof, Membership, present, absent}
use vprogs.Codec.SortUnique.{sort_unique}

pub record ProofBuilder : Type 0 where
  pub keys : List ℕ
  pub leaves : List Leaf
  pub siblings : List HashedNode
  pub topology : Topology
  pub sorted_to_leaf : List ℕ

abbrev pub find_key : List ℕ → ℕ → Option ℕ
find_key [] key = none
find_key (k ∷ ks) key =
    if k == key then some 0 else and_then (find_key ks key) λ idx. some (suc idx)

abbrev pub fill : List ℕ → ℕ → ℕ → ℕ → List ℕ
fill [] start count value = []
fill (x ∷ xs) zero zero value = x ∷ xs
fill (x ∷ xs) zero (suc count) value = value ∷ fill xs zero count value
fill (x ∷ xs) (suc start) count value = x ∷ fill xs start count value

abbrev pub intern_found : List ℕ → ℕ → Option ℕ → ℕ × List ℕ
intern_found keys key (some idx) = (idx, keys)
intern_found keys key none = (length keys, keys ++ key ∷ [])

-- The index of the key, and the table.
abbrev pub intern_key : List ℕ → ℕ → ℕ × List ℕ
intern_key keys key = intern_found keys key (find_key keys key)

-- The slots are `start..start + count`.
abbrev pub emit_leaf : ℕ → ℕ → ℕ → ℕ → ℕ → ProofBuilder → ProofBuilder
emit_leaf key value_hash level start count b = record b {
  keys = (intern_key b.keys key).1;
  leaves =
      b.leaves
      ++ record { depth = level; key_idx = (intern_key b.keys key).0; value_hash = value_hash }
        ∷ [];
  sorted_to_leaf = fill b.sorted_to_leaf start count (length b.leaves);
}

abbrev pub key_split : ℕ → List ℕ → ℕ
key_split level input_keys = partition_point (λ k. not (get_msb k level)) input_keys

abbrev pub push_split : ProofBuilder → ProofBuilder
push_split b = record b { topology = push b.topology true }

abbrev pub push_sibling : HashedNode → ProofBuilder → ProofBuilder
push_sibling sibling b = record b {
  topology = push b.topology false;
  siblings = b.siblings ++ sibling ∷ [];
}

abbrev pub Collecting : Type 0
Collecting = List ℕ → ℕ → ProofBuilder → Option ProofBuilder

-- The last part of `collect_empty`, with the collection one level further down.
abbrev pub split_empty : Collecting → ℕ → List ℕ → ℕ → ProofBuilder → Option ProofBuilder
split_empty deeper mid input_keys offset b =
    if ltb 0 mid && ltb mid (length input_keys)
    then and_then (deeper (take mid input_keys) offset (push_split b))
        (deeper (drop mid input_keys) (offset + mid))
    else deeper input_keys offset (push_sibling empty_node b)

-- The first argument is the number of levels left.
unfoldable pub collect_empty : ℕ → ℕ → List ℕ → ℕ → ProofBuilder → Option ProofBuilder
collect_empty levels level [] offset b = none
collect_empty levels level (k ∷ []) offset b = some (emit_leaf k empty_hash level offset 1 b)
collect_empty zero level (k ∷ l ∷ ks) offset b = none
collect_empty (suc levels) level (k ∷ l ∷ ks) offset b =
    split_empty (collect_empty levels (level + 1)) (key_split level (k ∷ l ∷ ks)) (k ∷ l ∷ ks)
      offset b

abbrev pub found_summary : Option (ℕ × Node) → HashedNode
found_summary none = empty_node
found_summary (some (version, n)) = summary n

abbrev pub new_builder : List ℕ → ProofBuilder
new_builder keys_input = record {
  keys = keys_input;
  leaves = [];
  siblings = [];
  topology = no_topology;
  sorted_to_leaf = map (λ k. 0) keys_input;
}

abbrev pub set_membership : List Membership → ℕ → Membership → Option (List Membership)
set_membership [] idx m = none
set_membership (x ∷ xs) zero m = some (m ∷ xs)
set_membership (x ∷ xs) (suc idx) m = and_then (set_membership xs idx m) λ ys. some (x ∷ ys)

abbrev pub classify : Leaf → ℕ → ℕ → Membership
classify witness leaf_pos idx = if witness.key_idx == idx then present leaf_pos else absent leaf_pos

-- The loop of `classify_memberships`, over the slots and the input places in sorted order.
unfoldable pub classify_slots :
    List Leaf → List ℕ → List ℕ → List Membership → Option (List Membership)
classify_slots leaves slots [] ms = some ms
classify_slots leaves [] (idx ∷ order) ms = none
classify_slots leaves (leaf_pos ∷ slots) (idx ∷ order) ms =
    and_then (get_elem? leaves leaf_pos) λ witness.
      and_then (set_membership ms idx (classify witness leaf_pos idx))
        (classify_slots leaves slots order)

abbrev pub classify_memberships : ProofBuilder → List ℕ → Option (List Membership)
classify_memberships b order =
    classify_slots b.leaves b.sorted_to_leaf order (map (λ i. absent 0) order)

abbrev pub built : ProofBuilder → List Membership → Proof
built b memberships = record {
  keys = b.keys;
  leaves = b.leaves;
  siblings = b.siblings;
  topology = b.topology.bytes;
  memberships = memberships;
}

module _ (node : Key → Option (ℕ × Node)) where
  abbrev pub collect_sides :
      (Key → Collecting) → Key → ℕ → List ℕ → List ℕ → ℕ → ProofBuilder → Option ProofBuilder
  collect_sides deeper key mid [] [] offset b = none
  collect_sides deeper key mid [] (r ∷ rs) offset b =
      deeper (right_child key) (r ∷ rs) offset
        (push_sibling (found_summary (node (left_child key))) b)
  collect_sides deeper key mid (l ∷ ls) [] offset b =
      deeper (left_child key) (l ∷ ls) offset
        (push_sibling (found_summary (node (right_child key))) b)
  collect_sides deeper key mid (l ∷ ls) (r ∷ rs) offset b =
      and_then (deeper (left_child key) (l ∷ ls) offset (push_split b))
        (deeper (right_child key) (r ∷ rs) (offset + mid))

  abbrev pub collect_internal : (Key → Collecting) → Key → Collecting
  collect_internal deeper key input_keys offset b =
      let mid = key_split (length key) input_keys in
      collect_sides deeper key mid (take mid input_keys) (drop mid input_keys) offset b

  abbrev pub collect_found :
      Option ProofBuilder
      → ℕ
      → Key
      → List ℕ
      → ℕ
      → ProofBuilder
      → Option (ℕ × Node)
      → Option ProofBuilder
  collect_found deeper levels key input_keys offset b none =
      collect_empty levels (length key) input_keys offset b
  collect_found deeper levels key input_keys offset b (some (version, empty)) =
      collect_empty levels (length key) input_keys offset b
  collect_found deeper levels key input_keys offset b (some (version, leaf k value_hash hash)) =
      some (emit_leaf k value_hash (length key) offset (length input_keys) b)
  collect_found deeper levels key input_keys offset b (some (version, internal hash)) = deeper

  -- There is no internal node at the last level.
  unfoldable pub collect : ℕ → Key → List ℕ → ℕ → ProofBuilder → Option ProofBuilder
  collect levels key [] offset b = some b
  collect zero key (k ∷ ks) offset b = collect_found none zero key (k ∷ ks) offset b (node key)
  collect (suc levels) key (k ∷ ks) offset b =
      collect_found (collect_internal (collect levels) key (k ∷ ks) offset b) (suc levels) key
        (k ∷ ks) offset b (node key)

  -- `build`, less the encoding.
  unfoldable pub build : List ℕ → Option Proof
  build keys_input = and_then (sort_unique keys_input) λ (sorted, order).
      and_then (collect depth root_key sorted 0 (new_builder keys_input))
        λ b. and_then (classify_memberships b order) λ memberships. some (built b memberships)
