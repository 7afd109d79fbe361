-- ===== src/Smt/Proving/Post.antt =====
-- core/smt/src/proving: the root of a proof after its members have new values (proof.rs, traversal.rs).
--
-- `none` is an error of the code, or an index past the end, where it panics.
pub mod Grouped
pub mod Scanned
pub mod Buffered
pub mod Classified
pub mod Pairs
pub mod Halves
pub mod Posted
pub mod Joins
pub mod Members
pub mod Roots
use vprogs.Base.{
  ℕ, zero, suc, ◌+◌, ◌-◌, ◌<◌, List, [], ◌∷◌, ◌++◌, Bool, true, false, Option, none, some, ltb,
  ◌==◌, if◌then◌else◌, and_then, get_elem?, length, ◌&&◌,
}
use vprogs.Base.Order.{update}
use vprogs.Codec.Bits.{get_lsb}
use vprogs.Smt.{
  Commitment, HashedNode, empty_node, empty_hash, hashed_leaf, combine, depth, subtree_hash,
}
use vprogs.Smt.Updater.{sort_by_key}
use vprogs.Smt.Proving.Traversal.{
  Leaf, Proof, Cursor, Membership, present, absent, combine_with_sibling, walk_with,
}

-- The leaf that a membership names.
abbrev pub leaf_of : Membership → ℕ
leaf_of (present p) = p
leaf_of (absent p) = p

-- The passes of `members_by_leaf`, each over arrays as functions.
abbrev pub bump : (ℕ → ℕ) → ℕ → ℕ → ℕ
bump offsets i = update offsets i (offsets i + 1)

unfoldable pub count_members : ℕ → List Membership → (ℕ → ℕ) → ℕ → ℕ
count_members leaves_len [] offsets = offsets
count_members leaves_len (m ∷ ms) offsets =
    count_members leaves_len ms
      (if ltb (leaf_of m) leaves_len then bump offsets (leaf_of m + 1) else offsets)

unfoldable pub prefix_sum : ℕ → (ℕ → ℕ) → ℕ → ℕ
prefix_sum zero offsets = offsets
prefix_sum (suc i) offsets =
    let before = prefix_sum i offsets in update before (suc i) (before (suc i) + before i)

unfoldable pub fill_indices : ℕ → List Membership → ℕ → (ℕ → ℕ) × (ℕ → ℕ) → (ℕ → ℕ) × (ℕ → ℕ)
fill_indices leaves_len [] i arrays = arrays
fill_indices leaves_len (m ∷ ms) i (indices, offsets) = fill_indices leaves_len ms (suc i) (
    if ltb (leaf_of m) leaves_len
    then (update indices (offsets (leaf_of m)) i, bump offsets (leaf_of m))
    else (indices, offsets))

unfoldable pub shift_right : ℕ → (ℕ → ℕ) → ℕ → ℕ
shift_right zero offsets = offsets
shift_right (suc i) offsets = shift_right i (update offsets (suc i) (offsets i))

pub record MembersByLeaf : Type 0 where
  pub offsets : ℕ → ℕ
  pub indices : ℕ → ℕ

abbrev pub filled : ℕ → (ℕ → ℕ) × (ℕ → ℕ) → MembersByLeaf
filled leaves_len (indices, offsets) = record {
  offsets = update (shift_right leaves_len offsets) 0 0;
  indices = indices;
}

unfoldable pub members_by_leaf : ℕ → List Membership → MembersByLeaf
members_by_leaf leaves_len memberships = filled leaves_len (
    fill_indices leaves_len memberships 0
      (λ i. 0, prefix_sum leaves_len (count_members leaves_len memberships (λ i. 0))))

-- `indices[start..start + count]`
abbrev pub slice : (ℕ → ℕ) → ℕ → ℕ → List ℕ
slice indices start zero = []
slice indices start (suc count) = indices start ∷ slice indices (suc start) count

-- `MembersByLeaf::at`
abbrev pub members_at : MembersByLeaf → ℕ → List ℕ
members_at mbl leaf_pos =
    slice mbl.indices (mbl.offsets leaf_pos) (mbl.offsets (suc leaf_pos) - mbl.offsets leaf_pos)

-- The locals of `classify_leaf_update`.
pub record LeafScan : Type 0 where
  pub new_witness_value : Option ℕ
  pub needs_synthesis : Bool
  pub any_change : Bool
  pub buffer : List Commitment

abbrev pub fresh_scan : LeafScan
fresh_scan = record {
  new_witness_value = none;
  needs_synthesis = false;
  any_change = false;
  buffer = [];
}

abbrev pub scan_present : ℕ → ℕ → LeafScan → LeafScan
scan_present value_hash v s = record s {
  new_witness_value = some v;
  any_change = if v == value_hash then s.any_change else true;
}

abbrev pub scan_absent : ℕ → LeafScan → LeafScan
scan_absent v s =
    if v == empty_hash then s else record s { needs_synthesis = true; any_change = true }

abbrev pub scan_kind : ℕ → Membership → ℕ → LeafScan → LeafScan
scan_kind value_hash (present p) v s = scan_present value_hash v s
scan_kind value_hash (absent p) v s = scan_absent v s

abbrev pub scan_push : Option ℕ → ℕ → LeafScan → Option LeafScan
scan_push key v s =
    if v == empty_hash
    then some s
    else and_then key
        (λ k. some (record s { buffer = s.buffer ++ record { key = k; value_hash = v } ∷ [] }))

pub data LeafUpdate : Type 0 where
  unchanged : LeafUpdate
  single : ℕ → LeafUpdate
  multiple : List Commitment → LeafUpdate

abbrev pub unwrap_or : Option ℕ → ℕ → ℕ
unwrap_or none v = v
unwrap_or (some w) v = w

abbrev pub is_none : Option ℕ → Bool
is_none none = true
is_none (some w) = false

-- After the pass over the members.
abbrev pub classify_scanned : ℕ → ℕ → LeafScan → LeafUpdate
classify_scanned leaf_key value_hash s =
    if s.any_change
    then (if s.needs_synthesis
        then multiple (
            sort_by_key [] (
              if is_none s.new_witness_value
              then (if value_hash == empty_hash
                  then s.buffer
                  else s.buffer ++ record { key = leaf_key; value_hash = value_hash } ∷ [])
              else s.buffer))
        else single (unwrap_or s.new_witness_value value_hash))
    else unchanged

module _ (hash_parts : List ℕ → List ℕ → ℕ) where
  -- The hash of a leaf after its update. The levels left bound the recursion of the synthesis.
  abbrev pub leaf_post : Leaf → ℕ → LeafUpdate → Option HashedNode
  leaf_post leaf leaf_key unchanged = some (hashed_leaf hash_parts leaf_key leaf.value_hash)
  leaf_post leaf leaf_key (single value) = some (hashed_leaf hash_parts leaf_key value)
  leaf_post leaf leaf_key (multiple buffer) =
      subtree_hash hash_parts (depth - leaf.depth) leaf.depth buffer

module _ (proof : Proof) (new_value : ℕ → ℕ) where
  unfoldable pub scan_members : ℕ → List ℕ → LeafScan → Option LeafScan
  scan_members value_hash [] s = some s
  scan_members value_hash (i ∷ is) s = and_then (get_elem? proof.memberships i) λ m.
      and_then
        (scan_push (get_elem? proof.keys i) (new_value i) (scan_kind value_hash m (new_value i) s))
        (scan_members value_hash is)

  abbrev pub classify_leaf_update : Leaf → ℕ → List ℕ → Option LeafUpdate
  classify_leaf_update leaf leaf_key member_indices =
      and_then (scan_members leaf.value_hash member_indices fresh_scan)
        λ s. some (classify_scanned leaf_key leaf.value_hash s)

  module _ (hash_parts : List ℕ → List ℕ → ℕ) where
    unfoldable pub leaf_pair : ℕ → List ℕ → Option (HashedNode × HashedNode)
    leaf_pair leaf_pos member_indices = and_then (get_elem? proof.leaves leaf_pos) λ leaf.
        and_then (get_elem? proof.keys leaf.key_idx) λ leaf_key.
          and_then (classify_leaf_update leaf leaf_key member_indices) λ update.
            and_then (leaf_post hash_parts leaf leaf_key update)
              λ post. some (hashed_leaf hash_parts leaf_key leaf.value_hash, post)

-- `PartialEq` of the summaries.
abbrev pub same_node : HashedNode → HashedNode → Bool
same_node a b = a.kind == b.kind && a.hash == b.hash

module _ (hash_parts : List ℕ → List ℕ → ℕ) (proof : Proof) where
  -- Unchanged children keep the hash.
  abbrev pub combine_pairs :
      HashedNode × HashedNode → HashedNode × HashedNode → HashedNode × HashedNode
  combine_pairs (prev_left, post_left) (prev_right, post_right) = (
    combine hash_parts prev_left prev_right,
    if same_node prev_left post_left && same_node prev_right post_right
        then combine hash_parts prev_left prev_right
        else combine hash_parts post_left post_right,
  )

  abbrev pub pair_with_sibling :
      HashedNode × HashedNode → HashedNode → Bool → HashedNode × HashedNode
  pair_with_sibling (prev_child, post_child) sibling goes_left = (
    combine_with_sibling hash_parts proof prev_child sibling goes_left,
    if same_node prev_child post_child
        then combine_with_sibling hash_parts proof prev_child sibling goes_left
        else combine_with_sibling hash_parts proof post_child sibling goes_left,
  )

  unfoldable pub walk_pair :
      (ℕ → Option (HashedNode × HashedNode))
      → ℕ
      → ℕ
      → ℕ
      → ℕ
      → Cursor
      → Option ((HashedNode × HashedNode) × Cursor)
  walk_pair leaf_hash_fn levels start end level cursor =
      walk_with hash_parts proof leaf_hash_fn (empty_node, empty_node) combine_pairs
        pair_with_sibling levels start end level cursor

module _ (hash_parts : List ℕ → List ℕ → ℕ) (proof : Proof) (new_value : ℕ → ℕ) where
  unfoldable pub compute_roots : Option (ℕ × ℕ)
  compute_roots =
      let mbl = members_by_leaf (length proof.leaves) proof.memberships in
      and_then
        (walk_pair hash_parts proof (λ i. leaf_pair proof new_value hash_parts i (members_at mbl i))
          depth 0 (length proof.leaves) 0 (record { sibling_idx = 0; topo_bit = 0 }))
        λ (pair, cursor). some (pair.0.hash, pair.1.hash)

  unfoldable pub new_root : Option ℕ
  unfolding compute_roots
  new_root = and_then compute_roots λ roots. some roots.1
