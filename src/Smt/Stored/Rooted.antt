-- ===== src/Smt/Stored/Rooted.antt =====
-- core/smt/src/updater.rs, `apply`: what is read at the root, and the tree that an update of the whole
-- tree with no deletion leaves.
use vprogs.Base.{
  ℕ, zero, suc, ◌+◌, ◌≡◌, refl, sym, subst, List, [], ◌∷◌, ◌++◌, Option, none, some, ap, ◌∙◌,
}
use vprogs.Smt.{
  Key, Node, empty, internal, leaf, Commitment, HashedNode, left_child, right_child, depth,
  root_key, subtree_hash,
}
use vprogs.Smt.Updater.{
  Write, put_node, Outcome, put_root, update_subtree, sort_by_key, dedup, existing, child_summary,
}
use vprogs.Smt.Tree.{hash_or_empty}
use vprogs.Smt.Entries.{Live, Ascending, set_entries}
use vprogs.Smt.Entries.Halves.{Shares}
use vprogs.Smt.Entries.Sorting.{
  sort_dedup-Ascending, sort_dedup_sets, sort_dedup-Shares, sort_dedup-Live,
}
use vprogs.Smt.Reference.{Stands, Holds}
use vprogs.Smt.Reference.Joined.{summary_lem}
use vprogs.Smt.Reference.Updates.{update_subtree_lem}
use vprogs.Smt.Stored.{committed, committed-append}
use vprogs.Smt.Stored.Positions.{Below}
use vprogs.Smt.Stored.Placed.{Placed}
use vprogs.Smt.Stored.Placed.Reads.{Solid, Stands-Solid}
use vprogs.Smt.Stored.Placed.Splits.{same_result}
use vprogs.Smt.Stored.Placed.Whole.{update_subtree-Placed}

Solid-node : (version : ℕ) (n : Node) → Solid (some n) → existing (some (version, n)) ≡ some n
Solid-node version empty s = absurd s
Solid-node version (internal h) s = refl
Solid-node version (leaf k v h) s = refl

module _ (hash_parts : List ℕ → List ℕ → ℕ) (node : Key → Option (ℕ × Node)) (version : ℕ) where
  put_at_root : (w : List Write) (n : Node) → Key → Option (ℕ × Node)
  put_at_root w n = committed (w ++ put_node root_key version n ∷ []) node

  reads_root :
      (w : List Write) (n : Node)
      → existing (put_at_root w n root_key) ≡ existing (some (version, n))
  unfolding put_at_root
  reads_root w n =
      ap (λ (s : Key → Option (ℕ × Node)). existing (s root_key))
        (committed-append w (put_node root_key version n ∷ []) node)
      ∙ unfold committed in refl

  reads-Below :
      (w : List Write) (n : Node) (q : Key)
      → Below root_key q
      → existing (put_at_root w n q) ≡ existing (committed w node q)
  unfolding put_at_root
  reads-Below w n [] b = absurd b
  reads-Below w n (c ∷ q) b =
      ap (λ (s : Key → Option (ℕ × Node)). existing (s (c ∷ q)))
        (committed-append w (put_node root_key version n ∷ []) node)
      ∙ unfold committed in refl

  abbrev pub PutsRoot : Outcome → ℕ → List Commitment → Type 0
  PutsRoot outcome levels es =
      (writes : List Write) × (hash : ℕ) × (put_root hash_parts node version outcome
        ≡ some (writes, hash))
      × Holds hash_parts (λ key. existing (committed writes node key)) levels root_key es

  -- The tree after the root is put.
  put_root-PutsRoot :
      (levels : ℕ) (es : List Commitment) (outcome : Outcome)
      → Placed hash_parts node version outcome levels root_key es
      → ((w : List Write) (r : Option Node) → outcome ≡ some (w, r) → Solid r)
      → PutsRoot outcome levels es
  unfolding put_at_root
  put_root-PutsRoot levels es outcome (w, none, e, p, l) solid = (
    _,
    _,
    ap (put_root hash_parts node version) e,
    l _ (reads_root w empty) (reads-Below w empty),
  )
  put_root-PutsRoot levels es outcome (w, some m, e, p, l) solid = (
    _,
    _,
    ap (put_root hash_parts node version) e,
    l _ (reads_root w m ∙ Solid-node version m (solid w (some m) e)) (reads-Below w m),
  )

  -- An update of the whole tree with no deletion leaves a tree that holds the new entries.
  pub update-Holds :
      (levels : ℕ) (es cs : List Commitment)
      → levels + 0 ≡ depth
      → Ascending es
      → Live es
      → Shares levels 0 es
      → Live cs
      → Shares levels 0 cs
      → Holds hash_parts (λ key. existing (node key)) levels root_key es
      → PutsRoot
          (update_subtree hash_parts node version levels root_key (dedup (sort_by_key [] cs)))
          levels
          (set_entries es cs)
  update-Holds levels es cs at a l s m t h =
      put_root-PutsRoot levels (set_entries es cs) _
        (subst
          (Placed hash_parts node version
            (update_subtree hash_parts node version levels root_key (dedup (sort_by_key [] cs)))
            levels root_key)
          (sort_dedup_sets es cs a)
          (update_subtree-Placed hash_parts node version levels root_key at 0 es _ a l s
            (sort_dedup-Ascending cs) (sort_dedup-Live cs m) (sort_dedup-Shares levels 0 cs t) h))
        (λ w r e. Stands-Solid hash_parts levels 0 _ r (
          same_result hash_parts node version levels 0 _ _ w r e (
            update_subtree_lem hash_parts node version levels root_key at 0 es _ a l s
              (sort_dedup-Ascending cs) (sort_dedup-Shares levels 0 cs t) h)))

abbrev pub hash_of : Option HashedNode → ℕ
hash_of none = 0
hash_of (some n) = n.hash

abbrev pub hash_in : Option (List Write × ℕ) → ℕ
hash_in none = 0
hash_in (some (writes, hash)) = hash

-- The hash that `root` reads is that of the entries.
pub root_reads :
    (hash_parts : List ℕ → List ℕ → ℕ) (levels : ℕ) (es : List Commitment)
    (found : Option (ℕ × Node)) (reference : HashedNode)
    → Live es
    → Stands hash_parts levels 0 es (existing found)
    → subtree_hash hash_parts levels 0 es ≡ some reference
    → hash_or_empty found ≡ reference.hash
root_reads hash_parts levels es found reference l s e =
    reads found ∙ ap hash_of (sym (summary_lem hash_parts levels 0 es (existing found) s l) ∙ e)
  where
    reads : (f : Option (ℕ × Node)) → hash_or_empty f ≡ hash_of (some (child_summary (existing f)))
    reads none = refl
    reads (some (v, empty)) = refl
    reads (some (v, internal h)) = refl
    reads (some (v, leaf k x h)) = refl

pub Holds-root :
    (hash_parts : List ℕ → List ℕ → ℕ) (view : Key → Option Node) (levels : ℕ)
    (es : List Commitment)
    → Holds hash_parts view levels root_key es
    → Stands hash_parts levels 0 es (view root_key)
Holds-root hash_parts view zero es h = h
Holds-root hash_parts view (suc levels) es h = h.0

pub none-Holds :
    (hash_parts : List ℕ → List ℕ → ℕ) (levels : ℕ) (key : Key)
    → Holds hash_parts (λ k. none) levels key []
none-Holds hash_parts zero key = refl
none-Holds hash_parts (suc levels) key = (
  refl,
  none-Holds hash_parts levels (left_child key),
  none-Holds hash_parts levels (right_child key),
)
