-- ===== src/Smt/Proving/Post/Classified.antt =====
-- core/smt/src/proving/proof.rs, `leaf_pair`: the post-state of a leaf is the hash of its entry with the
-- new values of its members set.
use vprogs.Base.{
  ℕ, zero, suc, ◌-◌, ◌≡◌, refl, sym, ap, ◌∙◌, inl, inr, List, [], ◌∷◌, ◌++◌, false, Option, none,
  some, arith, ◌==◌, and_then, get_elem?, length, Bool-cases, Option-cases,
}
use vprogs.Smt.{Commitment, HashedNode, empty_hash, hashed_leaf, depth, subtree_hash}
use vprogs.Smt.Updater.{live, insert_by_key, sort_by_key, with_existing}
use vprogs.Smt.Entries.{
  Ascending, set_entry, set_entries, set_entries_live, set_entries-with_existing,
  with_existing-Ascending,
}
use vprogs.Smt.Proving.Traversal.{Leaf, Proof, resolve}
use vprogs.Smt.Proving.Shape.{Tip}
use vprogs.Smt.Proving.Post.{
  LeafScan, fresh_scan, LeafUpdate, unwrap_or, classify_scanned, leaf_post, leaf_pair,
}
use vprogs.Smt.Proving.Post.Scanned.{
  changes, iota, Members, scanned, scan_members-scanned, Scans, scanned_lem, unchanged_lem,
  last_value, others,
}
use vprogs.Smt.Proving.Post.Buffered.{
  alone, live-Ascending, sort-Ascending, sort-snoc, insert_missing, keep_found, keep_dead, entry_of,
}

pub resolve-parts :
    (keys : List ℕ) (leaf : Leaf) (u : Commitment)
    → resolve keys leaf ≡ some u
    → (get_elem? keys leaf.key_idx ≡ some u.key) × (leaf.value_hash ≡ u.value_hash)
resolve-parts keys leaf u h = go (get_elem? keys leaf.key_idx) refl h
  where
    go :
        (o : Option ℕ)
        → get_elem? keys leaf.key_idx ≡ o
        → and_then o (λ key. some (entry_of key leaf.value_hash)) ≡ some u
        → (get_elem? keys leaf.key_idx ≡ some u.key) × (leaf.value_hash ≡ u.value_hash)
    go none e f = cc
    go (some k) e f =
        let same : entry_of k leaf.value_hash ≡ u = cc in
        (e ∙ ap (λ (c : Commitment). some c.key) same, ap (λ (c : Commitment). c.value_hash) same)

module _ (hash_parts : List ℕ → List ℕ → ℕ) where
  -- What a leaf alone hashes to.
  lone :
      (levels level k w : ℕ)
      → subtree_hash hash_parts levels level (live (entry_of k w ∷ []))
        ≡ some (hashed_leaf hash_parts k w)
  unfolding subtree_hash
  lone zero level k w = elim (Bool-cases (w == empty_hash)) [
    | inl e ↦ rw e refl
    | inr e ↦ rw e (rw e refl)
  ]
  lone (suc levels) level k w = elim (Bool-cases (w == empty_hash)) [
    | inl e ↦ rw e refl
    | inr e ↦ rw e (rw e refl)
  ]

  module _ (leaf : Leaf) (k : ℕ) (cs : List Commitment) where
    abbrev Posts : LeafUpdate → Type 0
    Posts update =
        leaf_post hash_parts leaf k update
        ≡ subtree_hash hash_parts (depth - leaf.depth) leaf.depth
            (live (with_existing cs k leaf.value_hash))

  module _ (leaf : Leaf) (k : ℕ) (cs : List Commitment) (a : Ascending cs) (t : LeafScan)
      (r : Scans k leaf.value_hash cs fresh_scan t) where
    kept :
        others k cs false ≡ false
        → (w : ℕ) → unwrap_or (last_value k cs none) leaf.value_hash ≡ w
        → some (hashed_leaf hash_parts k w)
          ≡ subtree_hash hash_parts
              (depth - leaf.depth)
              leaf.depth
              (live (with_existing cs k leaf.value_hash))
    kept h w e =
        sym (lone (depth - leaf.depth) leaf.depth k w)
        ∙ ap
            (λ (x : ℕ).
              subtree_hash hash_parts (depth - leaf.depth) leaf.depth (live (entry_of k x ∷ [])))
            (sym e)
        ∙ ap (subtree_hash hash_parts (depth - leaf.depth) leaf.depth)
            (sym (alone k leaf.value_hash cs a h))

    sorted : sort_by_key [] (live cs) ≡ live cs
    sorted = sort-Ascending [] (live cs) (live-Ascending cs a)

    synthesized :
        (t.new_witness_value ≡ none)
        → (leaf.value_hash == empty_hash) ≡ false
        → sort_by_key [] (t.buffer ++ entry_of k leaf.value_hash ∷ [])
          ≡ live (with_existing cs k leaf.value_hash)
    synthesized e f =
        ap (λ (b : List Commitment). sort_by_key [] (b ++ entry_of k leaf.value_hash ∷ []))
          r.buffered
        ∙ sort-snoc [] (live cs) (entry_of k leaf.value_hash)
        ∙ ap (insert_by_key (entry_of k leaf.value_hash)) sorted
        ∙ insert_missing k leaf.value_hash cs a f (sym r.witness ∙ e)

    classified-Posts : Posts leaf k cs (classify_scanned k leaf.value_hash t)
    classified-Posts = elim (Bool-cases t.any_change) [
      | inr same ↦
          let (h, e) = unchanged_lem k leaf.value_hash cs none (sym r.change ∙ same) refl in
          rw same (kept h leaf.value_hash e)
      | inl change ↦ elim (Bool-cases t.needs_synthesis) [
        | inr few ↦
            rw (change, few)
              (kept (sym r.synthesis ∙ few) (unwrap_or t.new_witness_value leaf.value_hash)
                (ap (λ (o : Option ℕ). unwrap_or o leaf.value_hash) (sym r.witness)))
        | inl many ↦ elim (Option-cases t.new_witness_value) [
          | inr (v, found) ↦
              rw (change, many, found)
                (ap (subtree_hash hash_parts (depth - leaf.depth) leaf.depth) (
                  ap (sort_by_key []) r.buffered
                  ∙ sorted
                  ∙ sym (keep_found k leaf.value_hash v cs a (sym r.witness ∙ found))))
          | inl missing ↦ elim (Bool-cases (leaf.value_hash == empty_hash)) [
            | inl gone ↦
                let e : leaf.value_hash ≡ empty_hash = ground (arith, gone) in
                rw (change, many, missing, gone)
                  (ap (subtree_hash hash_parts (depth - leaf.depth) leaf.depth) (
                    ap (sort_by_key []) r.buffered
                    ∙ sorted
                    ∙ sym (keep_dead k cs)
                    ∙ ap (λ (x : ℕ). live (with_existing cs k x)) (sym e)))
            | inr stays ↦
                rw (change, many, missing, stays)
                  (ap (subtree_hash hash_parts (depth - leaf.depth) leaf.depth)
                    (synthesized missing stays))
          ]
        ]
      ]
    ]

  -- The pair of a leaf.
  pub leaf_pair_lem :
      (p : Proof) (new_value : ℕ → ℕ) (j o : ℕ) (ms : List ℕ) (leaf : Leaf) (t : Tip)
      (post : HashedNode)
      → get_elem? p.leaves j ≡ some leaf
      → leaf.depth ≡ t.depth
      → resolve p.keys leaf ≡ some t.entry
      → Members p t.entry.key j o ms
      → Ascending (changes new_value o ms)
      → subtree_hash hash_parts
          (depth - t.depth)
          t.depth
          (set_entries (set_entry t.entry []) (changes new_value o ms))
        ≡ some post
      → leaf_pair p new_value hash_parts j (iota o (length ms))
        ≡ some (hashed_leaf hash_parts t.entry.key t.entry.value_hash, post)
  unfolding leaf_pair
  leaf_pair_lem p new_value j o ms leaf t post e d r m a h =
      let (k, v) = resolve-parts p.keys leaf t.entry r in
      rw
        (
          e,
          k,
          scan_members-scanned p new_value t.entry.key j leaf.value_hash o ms fresh_scan m,
          classified-Posts leaf t.entry.key (changes new_value o ms) a
              (scanned t.entry.key leaf.value_hash (changes new_value o ms) fresh_scan)
              (scanned_lem t.entry.key leaf.value_hash (changes new_value o ms) fresh_scan),
          d,
          v,
          whole,
        )
        refl
    where
      whole :
          subtree_hash hash_parts
            (depth - t.depth)
            t.depth
            (live (with_existing (changes new_value o ms) t.entry.key t.entry.value_hash))
          ≡ some post
      whole =
          ap (subtree_hash hash_parts (depth - t.depth) t.depth) (
            sym (
              set_entries-with_existing [] (changes new_value o ms) t.entry.key t.entry.value_hash
                tt
              ∙ set_entries_live
                  (with_existing (changes new_value o ms) t.entry.key t.entry.value_hash)
                  (with_existing-Ascending (changes new_value o ms) t.entry.key t.entry.value_hash
                    a)))
          ∙ h
