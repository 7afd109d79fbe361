-- ===== src/Smt/Updater.antt =====
-- core/smt/src/updater.rs, `Updater`, and `update` of tree.rs.
--
-- `node` is the tree as the updater reads it: the latest version and node of a position as of the
-- version before the one that is written, in the snapshot that the update took. What a function
-- writes is returned beside its result, in order; `none` stands for the failed assertion on the
-- depth. The fuel is the number of levels below the position.
use vprogs.Base.{
  ℕ, zero, suc, List, [], ◌∷◌, ◌++◌, Bool, true, false, Option, none, some, ltb, ◌==◌,
  if◌then◌else◌, length, get_elem?, take, drop, and_then,
}
use vprogs.Smt.{
  Key, Node, empty, internal, leaf, Commitment, HashedNode, empty_node, empty_hash, left_child,
  right_child, root_key, split_point, partition_point, summary, node_hash, leaf_node, internal_node,
  depth,
}

pub record StaleNode : Type 0 where
  pub stale_since_version : ℕ
  pub key : Key
  pub version : ℕ

pub data Write : Type 0 where
  put_node : Key → ℕ → Node → Write
  put_stale_node : StaleNode → Write

abbrev pub Outcome : Type 0
Outcome = Option (List Write × Option Node)

-- What was written before comes first.
abbrev pub after : List Write → Outcome → Outcome
after earlier none = none
after earlier (some (later, node)) = some (earlier ++ later, node)

abbrev pub live : List Commitment → List Commitment
live [] = []
live (u ∷ us) = if u.value_hash == empty_hash then live us else u ∷ live us

-- The stable sort by key, and the pass that keeps the last value of equal keys.
abbrev pub insert_by_key : Commitment → List Commitment → List Commitment
insert_by_key c [] = c ∷ []
insert_by_key c (d ∷ ds) = if ltb c.key d.key then c ∷ d ∷ ds else d ∷ insert_by_key c ds

unfoldable pub sort_by_key : List Commitment → List Commitment → List Commitment
sort_by_key sorted [] = sorted
sort_by_key sorted (c ∷ cs) = sort_by_key (insert_by_key c sorted) cs

unfoldable pub dedup_from : Commitment → List Commitment → List Commitment
dedup_from b [] = b ∷ []
dedup_from b (a ∷ as') = elim (a.key == b.key) [
  | true ↦ dedup_from (record b { value_hash = a.value_hash }) as'
  | false ↦ b ∷ dedup_from a as'
]

abbrev pub dedup : List Commitment → List Commitment
dedup [] = []
dedup (b ∷ as') = dedup_from b as'

-- A tombstone counts as no node.
abbrev pub existing : Option (ℕ × Node) → Option Node
existing none = none
existing (some (version, empty)) = none
existing (some (version, internal hash)) = some (internal hash)
existing (some (version, leaf key value_hash hash)) = some (leaf key value_hash hash)

abbrev pub has_key : ℕ → Option Commitment → Bool
has_key key none = false
has_key key (some u) = u.key == key

-- The general case of `update_at_leaf`: the leaf joins the commitments if they lack its key.
abbrev pub with_existing : List Commitment → ℕ → ℕ → List Commitment
with_existing commitments key value_hash =
    let pos = partition_point (λ u. ltb u.key key) commitments in
    if has_key key (get_elem? commitments pos)
    then commitments
    else take pos commitments
      ++ record { key = key; value_hash = value_hash } ∷ drop pos commitments

abbrev pub child_summary : Option Node → HashedNode
child_summary none = empty_node
child_summary (some n) = summary n

-- The assertion on the depth fails.
abbrev pub past_depth : Key → List Commitment → Outcome
past_depth key commitments = none

module _ (hash_parts : List ℕ → List ℕ → ℕ) (node : Key → Option (ℕ × Node)) (version : ℕ) where
  abbrev pub stale_marker : Key → Option (ℕ × Node) → List Write
  stale_marker key none = []
  stale_marker key (some (old_version, n)) =
      put_stale_node (record { stale_since_version = version; key = key; version = old_version })
      ∷ []

  abbrev pub mark_stale : Key → List Write
  mark_stale key = stale_marker key (node key)

  -- The tombstone of an emptied position.
  abbrev pub tombstone : Key → Option Node → List Write
  tombstone key none = []
  tombstone key (some n) =
      put_node key version empty
      ∷ put_stale_node (record { stale_since_version = version; key = key; version = version })
      ∷ []

  abbrev pub write_child : Key → Option Node → List Write
  write_child key none = tombstone key (existing (node key))
  write_child key (some n) = put_node key version n ∷ []

  -- The last part of `split_and_recurse`: the writes of both sides, and their results.
  abbrev pub join_internal : Key → List Write → Option Node → Option Node → Outcome
  join_internal key writes left right = some (
    writes ++ (write_child (left_child key) left ++ write_child (right_child key) right),
    some (internal_node hash_parts (child_summary left) (child_summary right)),
  )

  unfoldable pub join : Key → List Write → Option Node → Option Node → Outcome
  join key writes none none = some (writes, none)
  join key writes (some (leaf k v h)) none = some (writes, some (leaf k v h))
  join key writes none (some (leaf k v h)) = some (writes, some (leaf k v h))
  join key writes left right = join_internal key writes left right

  -- `recurse` updates a child.
  unfoldable pub split_and_recurse :
      (Key → List Commitment → Outcome) → Key → List Commitment → Outcome
  split_and_recurse recurse key commitments =
      let mid = split_point (length key) commitments in
      and_then (recurse (left_child key) (take mid commitments)) λ (left_writes, left).
        and_then (recurse (right_child key) (drop mid commitments))
          λ (right_writes, right). join key (left_writes ++ right_writes) left right

  abbrev pub resolve_live :
      (Key → List Commitment → Outcome) → Key → List Commitment → List Commitment → Outcome
  resolve_live recurse key commitments [] = some ([], none)
  resolve_live recurse key commitments (first ∷ []) =
      some ([], some (leaf_node hash_parts first.key first.value_hash))
  resolve_live recurse key commitments (first ∷ second ∷ rest) =
      split_and_recurse recurse key commitments

  abbrev pub resolve_leaves : (Key → List Commitment → Outcome) → Key → List Commitment → Outcome
  resolve_leaves recurse key commitments = resolve_live recurse key commitments (live commitments)

  abbrev pub replace_leaf : ℕ → ℕ → Option Node
  replace_leaf key new_value =
      if new_value == empty_hash then none else some (leaf_node hash_parts key new_value)

  abbrev pub merge_leaf :
      (Key → List Commitment → Outcome) → Key → List Commitment → ℕ → ℕ → Outcome
  merge_leaf recurse key commitments existing_key existing_value =
      resolve_leaves recurse key (with_existing commitments existing_key existing_value)

  -- After the stale marker. The fast path is a single commitment at the leaf's key.
  unfoldable pub update_at_leaf :
      (Key → List Commitment → Outcome) → Key → List Commitment → ℕ → ℕ → Outcome
  update_at_leaf recurse key [] existing_key existing_value =
      merge_leaf recurse key [] existing_key existing_value
  update_at_leaf recurse key (u ∷ []) existing_key existing_value =
      if u.key == existing_key
      then some ([], replace_leaf existing_key u.value_hash)
      else merge_leaf recurse key (u ∷ []) existing_key existing_value
  update_at_leaf recurse key (u ∷ v ∷ us) existing_key existing_value =
      merge_leaf recurse key (u ∷ v ∷ us) existing_key existing_value

  -- By the node that the position holds.
  abbrev pub dispatch :
      (Key → List Commitment → Outcome) → Key → List Commitment → Option (ℕ × Node) → Outcome
  dispatch recurse key commitments none = resolve_leaves recurse key commitments
  dispatch recurse key commitments (some (v, empty)) =
      after (mark_stale key) (resolve_leaves recurse key commitments)
  dispatch recurse key commitments (some (v, leaf existing_key existing_value h)) =
      after (mark_stale key) (update_at_leaf recurse key commitments existing_key existing_value)
  dispatch recurse key commitments (some (v, internal h)) =
      after (mark_stale key) (split_and_recurse recurse key commitments)

  unfoldable pub update_subtree : ℕ → Key → List Commitment → Outcome
  update_subtree levels key [] = some ([], existing (node key))
  update_subtree zero key (u ∷ us) = dispatch past_depth key (u ∷ us) (node key)
  update_subtree (suc levels) key (u ∷ us) =
      dispatch (update_subtree levels) key (u ∷ us) (node key)

  -- The root's node, or its tombstone, and the new root hash.
  abbrev pub put_root : Outcome → Option (List Write × ℕ)
  put_root none = none
  put_root (some (writes, none)) = some (writes ++ put_node root_key version empty ∷ [], empty_hash)
  put_root (some (writes, some n)) = some (writes ++ put_node root_key version n ∷ [], node_hash n)

  unfoldable pub apply : List Commitment → Option (List Write × ℕ)
  apply commitments = put_root (update_subtree depth root_key (dedup (sort_by_key [] commitments)))
