-- ===== src/Smt/Reference/Updates.antt =====
-- core/smt/src/updater.rs: an update of a subtree and of the whole tree.
use vprogs.Base.{
  ℕ, zero, suc, ◌+◌, ◌/◌, ◌^◌, ◌≡◌, refl, ap, subst, inl, inr, List, [], ◌∷◌, Option, none, some,
  true, length, arith, ◌==◌, Bool-cases,
}
use vprogs.Smt.{
  Key, Node, empty, internal, leaf, Commitment, empty_hash, depth, root_key, left_child,
  right_child, subtree_hash, HashedNode,
}
use vprogs.Smt.Updater.{
  Write, Outcome, existing, update_subtree, past_depth, dispatch, mark_stale, apply, put_root,
  sort_by_key, dedup, update_at_leaf, resolve_leaves,
}
use vprogs.Smt.Entries.{Live, Ascending, set_entry, set_entries, set_entries-Live}
use vprogs.Smt.Entries.Halves.{Shares}
use vprogs.Smt.Entries.Sorting.{sort_dedup-Ascending, sort_dedup_sets, sort_dedup-Shares}
use vprogs.Smt.Reference.{Stands, Holds, Yields}
use vprogs.Smt.Reference.Joined.{summary_lem}
use vprogs.Smt.Reference.Subtree.{Updates, view, after-Yields, replace_leaf_lem, dispatch_lem}

==_eq : (a b : ℕ) → a ≡ b → (a == b) ≡ true
==_eq a b h = ground arith

-- At the lowest level there is one key.
pub no_two :
    (prefix : ℕ) (u v : Commitment) (us : List Commitment)
    → Ascending (u ∷ v ∷ us)
    → Shares zero prefix (u ∷ v ∷ us)
    → ⊥
no_two prefix u v us a s = omega arith

module _ (hash_parts : List ℕ → List ℕ → ℕ) (node : Key → Option (ℕ × Node)) (version : ℕ)
    (recurse : Key → List Commitment → Outcome) (key : Key) (level : ℕ) where
  resolve_one :
      (c : Commitment)
      → Yields hash_parts
          (resolve_leaves hash_parts node version recurse key (c ∷ []))
          zero
          level
          (set_entries [] (c ∷ []))
  unfolding set_entry set_entries
  resolve_one c = elim (Bool-cases (c.value_hash == empty_hash)) [
    | inl gone ↦ rw gone (_, _, refl, refl)
    | inr kept ↦ rw kept (_, _, refl, rw kept refl)
  ]

  replace_one :
      (e c : Commitment)
      → c.key ≡ e.key
      → Yields hash_parts
          (update_at_leaf hash_parts node version recurse key (c ∷ []) e.key e.value_hash)
          zero
          level
          (set_entries (e ∷ []) (c ∷ []))
  unfolding update_at_leaf
  replace_one e c same =
      rw (==_eq c.key e.key same)
        (replace_leaf_lem hash_parts node version e c zero level (==_eq c.key e.key same))

module _ (hash_parts : List ℕ → List ℕ → ℕ) (node : Key → Option (ℕ × Node)) (version : ℕ) where
  -- At the lowest level, with no commitment or the one of its key.
  lowest :
      (prefix level : ℕ) (key : Key) (es : List Commitment) (c : Commitment)
      (found : Option (ℕ × Node))
      → Ascending es
      → Live es
      → Shares zero prefix es
      → c.key / 2 ^ zero ≡ prefix
      → Stands hash_parts zero level es (existing found)
      → Yields hash_parts
          (dispatch hash_parts node version past_depth key (c ∷ []) found)
          zero
          level
          (set_entries es (c ∷ []))
  lowest prefix level key (e ∷ f ∷ es) c found a l s t st = absurd (no_two prefix e f es a s)
  lowest prefix level key [] c none a l s t st =
      resolve_one hash_parts node version past_depth key level c
  lowest prefix level key [] c (some (v, empty)) a l s t st =
      after-Yields hash_parts node version zero level _ (mark_stale hash_parts node version key) _
        (resolve_one hash_parts node version past_depth key level c)
  lowest prefix level key [] c (some (v, internal x)) a l s t st = cc
  lowest prefix level key [] c (some (v, leaf x y z)) a l s t st = cc
  lowest prefix level key (e ∷ []) c none a l s t st = cc
  lowest prefix level key (e ∷ []) c (some (v, empty)) a l s t st = cc
  lowest prefix level key (e ∷ []) c (some (v, internal x)) a l s t st = cc
  lowest prefix level key (e ∷ []) c (some (v, leaf x y z)) a l s t st =
      let p : x ≡ e.key = cc in
      let q : y ≡ e.value_hash = cc in
      rw (p, q)
        (after-Yields hash_parts node version zero level _ (mark_stale hash_parts node version key)
          _ (replace_one hash_parts node version past_depth key level e c (omega arith)))

  unchanged :
      (levels : ℕ) (key : Key) (es : List Commitment)
      → Holds hash_parts (view hash_parts node version) levels key es
      → Yields hash_parts
          (update_subtree hash_parts node version levels key [])
          levels
          (length key)
          es
  unfolding update_subtree
  unchanged zero key es h = (_, _, refl, h)
  unchanged (suc levels) key es h = (_, _, refl, h.0)

  -- An update of a subtree gives the node of its entries with the commitments set.
  pub update_subtree_lem :
      (levels : ℕ) (key : Key)
      → levels + length key ≡ depth
      → Updates hash_parts node version (update_subtree hash_parts node version levels) levels key
  unfolding update_subtree
  update_subtree_lem zero key at prefix es [] a l s b t h =
      unfold set_entries in unchanged zero key es h
  update_subtree_lem zero key at prefix es (c ∷ []) a l s b t h =
      lowest prefix (length key) key es c (node key) a l s t.0 h
  update_subtree_lem zero key at prefix es (c ∷ d ∷ cs) a l s b t h =
      absurd (no_two prefix c d cs b t)
  update_subtree_lem (suc levels) key at prefix es [] a l s b t h =
      unfold set_entries in unchanged (suc levels) key es h
  update_subtree_lem (suc levels) key at prefix es (c ∷ cs) a l s b t h =
      dispatch_lem hash_parts node version (update_subtree hash_parts node version levels) levels
        key (omega arith) (update_subtree_lem levels (left_child key) (omega arith))
        (update_subtree_lem levels (right_child key) (omega arith)) prefix es (c ∷ cs) (node key) a
        l s b t h.0 h.1 h.2

  pub put_root_lem :
      (es : List Commitment) (outcome : Outcome)
      → Live es
      → Yields hash_parts outcome depth 0 es
      → (writes : List Write) × (root : HashedNode) × (subtree_hash hash_parts depth 0 es
          ≡ some root)
        × (put_root hash_parts node version outcome ≡ some (writes, root.hash))
  put_root_lem es outcome l (w, none, e, s) =
      (_, _, summary_lem hash_parts depth 0 es none s l, ap (put_root hash_parts node version) e)
  put_root_lem es outcome l (w, some empty, e, s) = (
    _,
    _,
    summary_lem hash_parts depth 0 es (some empty) s l,
    ap (put_root hash_parts node version) e,
  )
  put_root_lem es outcome l (w, some (internal h), e, s) = (
    _,
    _,
    summary_lem hash_parts depth 0 es (some (internal h)) s l,
    ap (put_root hash_parts node version) e,
  )
  put_root_lem es outcome l (w, some (leaf k v h), e, s) = (
    _,
    _,
    summary_lem hash_parts depth 0 es (some (leaf k v h)) s l,
    ap (put_root hash_parts node version) e,
  )

-- An update of a tree that holds a list of live entries, with ascending keys of 256 bits, succeeds
-- and gives the reference hash of the list with the commitments set one after the other, an empty
-- value taking its entry out. The commitments have keys of 256 bits, in any order and with
-- repetitions. The tree holds the entries where each position has the node of its part of the
-- entries, and none below a leaf or an empty position.
pub apply-subtree_hash :
    (hash_parts : List ℕ → List ℕ → ℕ) (node : Key → Option (ℕ × Node)) (version : ℕ)
    (es commitments : List Commitment)
    → Ascending es
    → Live es
    → Shares depth 0 es
    → Shares depth 0 commitments
    → Holds hash_parts (λ key. existing (node key)) depth root_key es
    → (writes : List Write) × (root : HashedNode) × (subtree_hash hash_parts depth 0
          (set_entries es commitments)
        ≡ some root)
      × (apply hash_parts node version commitments ≡ some (writes, root.hash))
unfolding apply
apply-subtree_hash hash_parts node version es commitments a l s t h =
    put_root_lem hash_parts node version (set_entries es commitments) _
      (set_entries-Live es commitments l)
      (subst
        (Yields hash_parts
          (update_subtree hash_parts node version depth root_key
            (dedup (sort_by_key [] commitments)))
          depth 0)
        (sort_dedup_sets es commitments a)
        (update_subtree_lem hash_parts node version depth root_key refl 0 es
          (dedup (sort_by_key [] commitments)) a l s (sort_dedup-Ascending commitments)
          (sort_dedup-Shares depth 0 commitments t) h))
