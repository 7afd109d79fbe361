-- ===== src/Smt/Tree.antt =====
-- core/smt/src/tree.rs: the root of a tree and an update of it.
--
-- `node` is the tree as of the version before: what `Tree::node` returns at a position. A failed
-- assertion is `none`.
use vprogs.Base.{ℕ, suc, ◌-◌, List, [], ◌∷◌, Option, none, some, ◌==◌, if◌then◌else◌, and_then}
use vprogs.Smt.{Key, Node, Commitment, root_key, node_hash, empty_hash}
use vprogs.Smt.Updater.{Write, apply}
use vprogs.Smt.Stored.{committed}

abbrev pub hash_or_empty : Option (ℕ × Node) → ℕ
hash_or_empty none = empty_hash
hash_or_empty (some (version, n)) = node_hash n

-- Version 0 is before the genesis.
abbrev pub root : (Key → Option (ℕ × Node)) → ℕ → ℕ
root node version = if version == 0 then empty_hash else hash_or_empty (node root_key)

module _ (hash_parts : List ℕ → List ℕ → ℕ) where
  abbrev pub update_some : (Key → Option (ℕ × Node)) → ℕ → List Commitment → Option (List Write × ℕ)
  update_some node version [] = some ([], root node (version - 1))
  update_some node version (c ∷ cs) = apply hash_parts node version (c ∷ cs)

  unfoldable pub update : (Key → Option (ℕ × Node)) → ℕ → List Commitment → Option (List Write × ℕ)
  update node version commitments =
      if version == 0 then none else update_some node version commitments

  -- Updates at successive versions, each committed before the next, and the last root hash.
  unfoldable pub grow : ℕ → List (List Commitment) → (Key → Option (ℕ × Node)) → ℕ → Option ℕ
  grow version [] node last = some last
  grow version (batch ∷ batches) node last =
      and_then (update node version batch)
        λ (writes, hash). grow (suc version) batches (committed writes node) hash
