-- ===== src/Smt/Stored/Deleted.antt =====
-- core/smt/src/updater.rs, `split_and_recurse`: a child whose leaf was deleted while its sibling's leaf
-- moved up keeps its node.
use vprogs.Base.{
  ℕ, zero, suc, ◌/◌, ◌^◌, ◌<◌, ◌≤◌, ◌≡◌, ◌≢◌, refl, sym, ap, ◌∙◌, subst, List, [], ◌∷◌, ◌++◌, Bool,
  true, false, Option, none, some, arith, ltb, ◌==◌,
}
use vprogs.Smt.{
  Key, Node, empty, internal, leaf, Commitment, HashedNode, empty_hash, depth, root_key, left_child,
  right_child, leaf_node, hashed_leaf, subtree_hash, get_msb,
}
use vprogs.Smt.Updater.{
  Write, put_node, existing, apply, put_root, sort_by_key, dedup, dedup_from, mark_stale,
  update_subtree, past_depth, dispatch, update_at_leaf, split_and_recurse, join, after, Outcome,
}
use vprogs.Smt.Entries.{set_entry, set_entries, set_entry_at, set_entries-Live, keep}
use vprogs.Smt.Entries.Halves.{below_prefix}
use vprogs.Smt.Reference.{Holds, Yields, left_part, right_part}
use vprogs.Smt.Reference.Subtree.{after-Yields, split_lem}
use vprogs.Smt.Reference.Updates.{update_subtree_lem, put_root_lem}
use vprogs.Smt.Stored.{commit_write, committed, committed-append, committed-mark_stale, Holds-agree}

existing_leaf :
    (found : Option (ℕ × Node)) (k v h : ℕ)
    → existing found ≡ some (leaf k v h)
    → (version : ℕ) × (found ≡ some (version, leaf k v h))
existing_leaf none k v h e = cc
existing_leaf (some (version, empty)) k v h e = cc
existing_leaf (some (version, internal x)) k v h e = cc
existing_leaf (some (version, leaf x y z)) k v h e =
    (version, ap (λ (t : Option Node). with_version version t) e)
  where
    with_version : ℕ → Option Node → Option (ℕ × Node)
    with_version version none = none
    with_version version (some n) = some (version, n)

existing_internal :
    (found : Option (ℕ × Node)) (h : ℕ)
    → existing found ≡ some (internal h)
    → (version : ℕ) × (found ≡ some (version, internal h))
existing_internal none h e = cc
existing_internal (some (version, empty)) h e = cc
existing_internal (some (version, leaf x y z)) h e = cc
existing_internal (some (version, internal x)) h e =
    (version, ap (λ (t : Option Node). with_version version t) e)
  where
    with_version : ℕ → Option Node → Option (ℕ × Node)
    with_version version none = none
    with_version version (some n) = some (version, n)

within : (k : ℕ) → k / 2 ^ 255 ≤ 1 → k / 2 ^ 256 ≡ 0
within k h = omega arith

keep_live : (c : Commitment) (es : List Commitment) → c.value_hash ≢ empty_hash → keep c es ≡ c ∷ es
keep_live c es h = ground arith

live_one :
    (c : Commitment) (cs : List Commitment)
    → c.value_hash ≢ empty_hash
    → (c.value_hash == empty_hash) ≡ false
live_one c cs h = ground arith

sort_one : (c : Commitment) → dedup (sort_by_key [] (c ∷ [])) ≡ c ∷ []
unfolding sort_by_key dedup_from
sort_one c = refl

tests_above : (j k : ℕ) → j < k → ((k == j) ≡ false) × (ltb k j ≡ false)
tests_above j k h = ground arith

right_bit : (k : ℕ) → k / 2 ^ 255 ≡ 1 → get_msb k 0 ≡ true
right_bit k h = ground arith

module _ (hash_parts : List ℕ → List ℕ → ℕ) (node : Key → Option (ℕ × Node)) (version : ℕ) where
  untouched :
      (levels : ℕ) (key : Key)
      → update_subtree hash_parts node version levels key [] ≡ some ([], existing (node key))
  unfolding update_subtree
  untouched zero key = refl
  untouched (suc levels) key = refl

  fast_deletes :
      (recurse : Key → List Commitment → Outcome) (key : Key) (c : Commitment) (v : ℕ)
      → c.value_hash ≡ empty_hash
      → update_at_leaf hash_parts node version recurse key (c ∷ []) c.key v ≡ some ([], none)
  unfolding update_at_leaf
  fast_deletes recurse key c v z = ground (arith, z)

  deletes_leaf :
      (levels : ℕ) (key : Key) (c : Commitment) (v h : ℕ)
      → existing (node key) ≡ some (leaf c.key v h)
      → c.value_hash ≡ empty_hash
      → update_subtree hash_parts node version levels key (c ∷ [])
        ≡ some (mark_stale hash_parts node version key ++ [], none)
  unfolding update_subtree
  deletes_leaf zero key c v h e z =
      ap (dispatch hash_parts node version past_depth key (c ∷ [])) (existing_leaf _ _ _ _ e).1
      ∙ ap (after (mark_stale hash_parts node version key)) (fast_deletes past_depth key c v z)
  deletes_leaf (suc levels) key c v h e z =
      ap
        (dispatch hash_parts node version (update_subtree hash_parts node version levels) key
          (c ∷ []))
        (existing_leaf _ _ _ _ e).1
      ∙ ap (after (mark_stale hash_parts node version key))
          (fast_deletes (update_subtree hash_parts node version levels) key c v z)

  module _ (levels : ℕ) (a c : Commitment) (h v x : ℕ)
      (at_root : existing (node root_key) ≡ some (internal h))
      (on_left : existing (node (false ∷ [])) ≡ some (leaf_node hash_parts a.key a.value_hash))
      (on_right : existing (node (true ∷ [])) ≡ some (leaf c.key v x)) where
    -- The deletion writes the sibling's leaf at the root, and nothing at the children.
    deletion_writes : List Write
    deletion_writes =
        mark_stale hash_parts node version root_key
        ++ (mark_stale hash_parts node version (true ∷ []) ++ [])

    split_deletes :
        c.key / 2 ^ 255 ≡ 1
        → c.value_hash ≡ empty_hash
        → split_and_recurse hash_parts node version
            (update_subtree hash_parts node version levels)
            root_key
            (c ∷ [])
          ≡ some (
            mark_stale hash_parts node version (true ∷ []) ++ [],
            some (leaf_node hash_parts a.key a.value_hash),
          )
    unfolding split_and_recurse join
    split_deletes bit z = rw (
      right_bit c.key bit,
      untouched levels (false ∷ []),
      on_left,
      deletes_leaf levels (true ∷ []) c v x on_right z,
    )

    deletes_right :
        c.key / 2 ^ 255 ≡ 1
        → c.value_hash ≡ empty_hash
        → update_subtree hash_parts node version (suc levels) root_key (c ∷ [])
          ≡ some (deletion_writes, some (leaf_node hash_parts a.key a.value_hash))
    unfolding update_subtree deletion_writes
    deletes_right bit z =
        ap
          (dispatch hash_parts node version (update_subtree hash_parts node version levels) root_key
            (c ∷ []))
          (existing_internal _ _ at_root).1
        ∙ ap (after (mark_stale hash_parts node version root_key)) (split_deletes bit z)

    -- The tree that the deletion leaves: the leaf at the root, all else as it was.
    deletion_committed :
        committed
          (deletion_writes
            ++ put_node root_key version (leaf_node hash_parts a.key a.value_hash) ∷ [])
          node
        ≡ commit_write (put_node root_key version (leaf_node hash_parts a.key a.value_hash)) node
    unfolding deletion_writes committed
    deletion_committed =
        committed-append deletion_writes
          (put_node root_key version (leaf_node hash_parts a.key a.value_hash) ∷ []) node
        ∙ ap (commit_write (put_node root_key version (leaf_node hash_parts a.key a.value_hash))) (
            committed-append (mark_stale hash_parts node version root_key)
              (mark_stale hash_parts node version (true ∷ []) ++ []) node
            ∙ ap (committed (mark_stale hash_parts node version (true ∷ []) ++ []))
                (committed-mark_stale hash_parts node version root_key node)
            ∙ committed-append (mark_stale hash_parts node version (true ∷ [])) [] node
            ∙ committed-mark_stale hash_parts node version (true ∷ []) node)

-- A second entry in the root's right half, where the root holds a leaf of the left half.
module _ (hash_parts : List ℕ → List ℕ → ℕ) (node : Key → Option (ℕ × Node)) (version : ℕ)
    (a b d : Commitment) (v : ℕ) (a_live : a.value_hash ≢ empty_hash)
    (b_live : b.value_hash ≢ empty_hash) (d_live : d.value_hash ≢ empty_hash)
    (a_left : a.key / 2 ^ 255 ≡ 0) (b_right : b.key / 2 ^ 255 ≡ 1) (d_right : d.key / 2 ^ 255 ≡ 1)
    (leaf_at_root : node root_key ≡ some (v, leaf_node hash_parts a.key a.value_hash))
    (on_left : Holds hash_parts (λ key. existing (node key)) 255 (left_child root_key) (a ∷ []))
    (on_right : Holds hash_parts
      (λ key. existing (node key))
      255
      (right_child root_key)
      (b ∷ [])) where
  a_below_d : a.key < d.key
  a_below_d = below_prefix 255 0 1 a.key d.key a_left d_right (omega arith)

  set_both : set_entries (a ∷ b ∷ []) (a ∷ d ∷ []) ≡ set_entries (a ∷ b ∷ []) (d ∷ [])
  unfolding set_entries
  set_both = ap (set_entry d) (set_entry_at a a (b ∷ []) refl ∙ keep_live a (b ∷ []) a_live)

  both_sides :
      Yields hash_parts
        (split_and_recurse hash_parts node version
          (update_subtree hash_parts node version 255)
          root_key
          (a ∷ d ∷ []))
        depth
        0
        (set_entries (a ∷ b ∷ []) (a ∷ d ∷ []))
  both_sides =
      split_lem hash_parts node version (update_subtree hash_parts node version 255) 255 root_key
        refl (update_subtree_lem hash_parts node version 255 (left_child root_key) refl)
        (update_subtree_lem hash_parts node version 255 (right_child root_key) refl) 0 (a ∷ [])
        (b ∷ []) (a ∷ d ∷ []) (tt, tt) (tt, tt) (a_live, tt) (b_live, tt) (a_left, tt) (b_right, tt)
        ((a_below_d, tt), (tt, tt)) (within a.key (omega arith), (within d.key (omega arith), tt))
        on_left on_right

  above_test : ((d.key == a.key) ≡ false) × (ltb d.key a.key ≡ false)
  above_test = tests_above a.key d.key a_below_d

  recurses :
      (levels : ℕ)
      → update_subtree hash_parts node version (suc levels) root_key (d ∷ [])
        ≡ after (mark_stale hash_parts node version root_key) (
            split_and_recurse hash_parts node version
              (update_subtree hash_parts node version levels)
              root_key
              (a ∷ d ∷ []))
  unfolding update_subtree update_at_leaf
  recurses levels =
      ap
        (dispatch hash_parts node version (update_subtree hash_parts node version levels) root_key
          (d ∷ []))
        leaf_at_root
      ∙ rw (above_test.0, above_test.1)
          (rw (above_test.0, live_one a (d ∷ []) a_live, live_one d [] d_live) refl)

  inserts :
      (writes : List Write) × (root : HashedNode) × (subtree_hash hash_parts depth 0
          (set_entries (a ∷ b ∷ []) (d ∷ []))
        ≡ some root)
      × (apply hash_parts node version (d ∷ []) ≡ some (writes, root.hash))
  unfolding apply
  inserts =
      put_root_lem hash_parts node version (set_entries (a ∷ b ∷ []) (d ∷ [])) _
        (set_entries-Live (a ∷ b ∷ []) (d ∷ []) (a_live, (b_live, tt)))
        (subst (λ (o : Outcome). Yields hash_parts o depth 0 (set_entries (a ∷ b ∷ []) (d ∷ [])))
          (sym (
            ap (update_subtree hash_parts node version depth root_key) (sort_one d) ∙ recurses 255))
          (after-Yields hash_parts node version depth 0 _
            (mark_stale hash_parts node version root_key) _
            (subst (Yields hash_parts _ depth 0) set_both both_sides)))

left_bit : (k : ℕ) → k / 2 ^ 255 ≡ 0 → get_msb k 0 ≡ false
left_bit k h = ground arith

two_parts :
    (a b : Commitment)
    → a.key / 2 ^ 255 ≡ 0
    → b.key / 2 ^ 255 ≡ 1
    → (left_part 0 (a ∷ b ∷ []) ≡ a ∷ []) × (right_part 0 (a ∷ b ∷ []) ≡ b ∷ [])
two_parts a b p q =
    (rw (left_bit a.key p, right_bit b.key q), rw (left_bit a.key p, right_bit b.key q))

module _ (hash_parts : List ℕ → List ℕ → ℕ) (stored : Key → Option Node) where
  held_left :
      (levels : ℕ) (a b : Commitment)
      → a.key / 2 ^ 255 ≡ 0
      → b.key / 2 ^ 255 ≡ 1
      → Holds hash_parts stored (suc levels) root_key (a ∷ b ∷ [])
      → Holds hash_parts stored levels (left_child root_key) (a ∷ [])
  held_left levels a b p q h =
      subst (Holds hash_parts stored levels (left_child root_key)) (two_parts a b p q).0 h.1

  held_right :
      (levels : ℕ) (a b : Commitment)
      → a.key / 2 ^ 255 ≡ 0
      → b.key / 2 ^ 255 ≡ 1
      → Holds hash_parts stored (suc levels) root_key (a ∷ b ∷ [])
      → Holds hash_parts stored levels (right_child root_key) (b ∷ [])
  held_right levels a b p q h =
      subst (Holds hash_parts stored levels (right_child root_key)) (two_parts a b p q).1 h.2

  held_root :
      (levels : ℕ) (a b : Commitment)
      → Holds hash_parts stored (suc levels) root_key (a ∷ b ∷ [])
      → (hash : ℕ) × (stored root_key ≡ some (internal hash))
  held_root levels a b h = (h.0.0, h.0.1)

  held_leaf :
      (levels : ℕ) (key : Key) (a : Commitment)
      → Holds hash_parts stored levels key (a ∷ [])
      → stored key ≡ some (leaf_node hash_parts a.key a.value_hash)
  held_leaf zero key a h = h
  held_leaf (suc levels) key a h = h.0

-- Where a tree holds one entry on each side of the root, the deletion of the right one and then
-- the insertion of a live entry on the right succeed, and the root that the insertion returns is
-- the reference hash of the old two entries with the new one set: the deleted entry is back,
-- unless the new one has its key.
pub deleted_returns :
    (hash_parts : List ℕ → List ℕ → ℕ) (node : Key → Option (ℕ × Node)) (version later : ℕ)
    (a b deletion d : Commitment)
    → a.value_hash ≢ empty_hash
    → b.value_hash ≢ empty_hash
    → d.value_hash ≢ empty_hash
    → deletion.key ≡ b.key
    → deletion.value_hash ≡ empty_hash
    → a.key / 2 ^ 255 ≡ 0
    → b.key / 2 ^ 255 ≡ 1
    → d.key / 2 ^ 255 ≡ 1
    → Holds hash_parts (λ key. existing (node key)) depth root_key (a ∷ b ∷ [])
    → (deleting inserting : List Write) × (hash : ℕ) × (root : HashedNode) × (apply hash_parts node
          version
          (deletion ∷ [])
        ≡ some (deleting, hash))
      × (apply hash_parts (committed deleting node) later (d ∷ []) ≡ some (inserting, root.hash))
      × (subtree_hash hash_parts depth 0 (set_entries (a ∷ b ∷ []) (d ∷ [])) ≡ some root)
unfolding apply
deleted_returns hash_parts node version later a b deletion d al bl dl same gone a0 b1 d1 held = (
  writes,
  inserting.0,
  _,
  inserting.1,
  ap (put_root hash_parts node version) deleted,
  subst
      (λ (n : Key → Option (ℕ × Node)).
        apply hash_parts n later (d ∷ []) ≡ some (inserting.0, inserting.1.hash))
      (sym left_behind) inserting.3,
  inserting.2,
)
  where
    leaf_a : Node
    leaf_a = leaf_node hash_parts a.key a.value_hash

    after_deletion : Key → Option (ℕ × Node)
    after_deletion = commit_write (put_node root_key version leaf_a) node

    stored : Key → Option Node
    stored key = existing (node key)

    on_left : Holds hash_parts stored 255 (left_child root_key) (a ∷ [])
    on_left = held_left hash_parts stored 255 a b a0 b1 held

    on_right : Holds hash_parts stored 255 (right_child root_key) (b ∷ [])
    on_right = held_right hash_parts stored 255 a b a0 b1 held

    at_root : (hash : ℕ) × (stored root_key ≡ some (internal hash))
    at_root = held_root hash_parts stored 255 a b held

    left_leaf : stored (left_child root_key) ≡ some leaf_a
    left_leaf = held_leaf hash_parts stored 255 (left_child root_key) a on_left

    right_hash : ℕ
    right_hash = (hashed_leaf hash_parts b.key b.value_hash).hash

    right_leaf : existing (node (true ∷ [])) ≡ some (leaf deletion.key b.value_hash right_hash)
    right_leaf =
        held_leaf hash_parts stored 255 (right_child root_key) b on_right
        ∙ ap (λ (k : ℕ). some (leaf k b.value_hash right_hash)) (sym same)

    writes : List Write
    writes =
        deletion_writes hash_parts node version 255 a deletion at_root.0 b.value_hash right_hash
          at_root.1 left_leaf right_leaf
        ++ put_node root_key version leaf_a ∷ []

    left_behind : committed writes node ≡ after_deletion
    left_behind =
        deletion_committed hash_parts node version 255 a deletion at_root.0 b.value_hash right_hash
          at_root.1 left_leaf right_leaf

    deleted :
        update_subtree hash_parts node version depth root_key
          (dedup (sort_by_key [] (deletion ∷ [])))
        ≡ some (
          deletion_writes hash_parts node version 255 a deletion at_root.0 b.value_hash right_hash
              at_root.1 left_leaf right_leaf,
          some leaf_a,
        )
    deleted =
        ap (update_subtree hash_parts node version depth root_key) (sort_one deletion)
        ∙ deletes_right hash_parts node version 255 a deletion at_root.0 b.value_hash right_hash
            at_root.1 left_leaf right_leaf (ap (λ (k : ℕ). k / 2 ^ 255) same ∙ b1) gone

    agree : (s : Bool) (k : Key) → existing (node (s ∷ k)) ≡ existing (after_deletion (s ∷ k))
    agree s k = refl

    inserting :
        (writes : List Write) × (root : HashedNode) × (subtree_hash hash_parts depth 0
            (set_entries (a ∷ b ∷ []) (d ∷ []))
          ≡ some root)
        × (apply hash_parts after_deletion later (d ∷ []) ≡ some (writes, root.hash))
    inserting =
        inserts hash_parts after_deletion later a b d version al bl dl a0 b1 d1 refl
          (Holds-agree hash_parts stored (λ key. existing (after_deletion key)) agree 255 false []
            (a ∷ []) on_left)
          (Holds-agree hash_parts stored (λ key. existing (after_deletion key)) agree 255 true []
            (b ∷ []) on_right)
