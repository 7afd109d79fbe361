-- ===== src/Smt/Proving/Post/Roots.antt =====
-- core/smt/src/proving/proof.rs, `compute_roots`: both roots of a built proof are those of the tree.
use vprogs.Base.{
  ℕ, zero, suc, ◌+◌, ◌-◌, ◌<◌, ◌≤◌, ◌≡◌, refl, sym, subst, ap, ap₂, ◌∙◌, List, [], ◌∷◌, Option,
  some, arith, and_then, length, map,
}
use vprogs.Smt.{Key, Node, Commitment, HashedNode, depth, root_key, subtree_hash}
use vprogs.Smt.Updater.{existing}
use vprogs.Smt.Entries.{Ascending, Live, set_entries}
use vprogs.Smt.Entries.Halves.{Shares}
use vprogs.Smt.Reference.{Holds}
use vprogs.Smt.Proving.Traversal.{Proof, Cursor, Membership, absent}
use vprogs.Smt.Proving.Shape.{Tip, Shape, tips, Fitting, AtTips}
use vprogs.Smt.Proving.Walk.{shape_hash}
use vprogs.Smt.Proving.Lays.{as_entries, Sorted, Lays, total, Lays-concat, Lays-total}
use vprogs.Smt.Proving.Builder.{
  ProofBuilder, found_summary, new_builder, classify_slots, built, build,
}
use vprogs.Smt.Proving.Collected.{Adds}
use vprogs.Smt.Proving.Complete.{summed, collect-Collects}
use vprogs.Smt.Proving.Unique.{sort_unique-Ascending}
use vprogs.Smt.Proving.Classes.{
  slots_of, length-same, length-slots_of, slots_of-Within, Classified, classify_slots-Classified,
  length-Classified,
}
use vprogs.Smt.Proving.Root.{
  At-here, length-leaves, built-tips, built-sibs, built-bits, built_slots,
}
use vprogs.Smt.Proving.Post.{MembersByLeaf, members_by_leaf, members_at, leaf_pair, compute_roots}
use vprogs.Smt.Proving.Post.Scanned.{changes, iota}
use vprogs.Smt.Proving.Post.Classified.{leaf_pair_lem}
use vprogs.Smt.Proving.Post.Pairs.{walk_pair-joined}
use vprogs.Smt.Proving.Post.Posted.{Ready, Lays-Ready}
use vprogs.Smt.Proving.Post.Joins.{
  prev_of, post_of, Paired, Paired-at, post, prev-shape_hash, post-subtree_hash,
}
use vprogs.Smt.Proving.Post.Grouped.{members_at-iota}
use vprogs.Smt.Proving.Post.Members.{
  KeysAt, KeysAt-start, FoundAt-here, Classified-Written, GroupMembers, Written-GroupMembers,
  starts, starts_mono, starts-zero, starts-length, groups-InOrder,
}

length-iota : (o count : ℕ) → length (iota o count) ≡ count
length-iota o zero = refl
length-iota o (suc count) = ap suc (length-iota (suc o) count)

module _ (hash_parts : List ℕ → List ℕ → ℕ) (p : Proof) (new_value : ℕ → ℕ)
    (mbl : MembersByLeaf) where
  abbrev pair_at : ℕ → Option (HashedNode × HashedNode)
  pair_at i = leaf_pair p new_value hash_parts i (members_at mbl i)

  -- Leaves with their members have the pairs of their entries.
  groups-Paired :
      (start o len : ℕ) (ts : List Tip) (mss : List (List ℕ)) (first : ℕ → ℕ)
      → ((j : ℕ) → j < len → members_at mbl j ≡ iota (first j) (first (suc j) - first j))
      → ((j : ℕ) → first (start + j) ≡ o + starts mss j)
      → start + length ts ≤ len
      → AtTips p start ts
      → GroupMembers p start o ts mss
      → Ready new_value hash_parts o ts mss
      → Paired hash_parts new_value pair_at start o ts mss
  groups-Paired start o len [] [] first m f n h g r = tt
  groups-Paired start o len [] (ms ∷ mss) first m f n h g r = absurd r
  groups-Paired start o len (t ∷ ts) [] first m f n h g r = absurd r
  groups-Paired start o len (t ∷ ts) (ms ∷ mss) first m f n (leaf, e, d, u, h) (g, gs)
        (a, (post, q), r) =
      (
        (
          post,
          ap (leaf_pair p new_value hash_parts start) (m start (omega (arith, n)) ∙ place)
              ∙ leaf_pair_lem hash_parts p new_value start o ms leaf t post e d u g a q,
          q,
        ),
        groups-Paired (suc start) (o + length ms) len ts mss first m
            (λ j. ap first (later start j) ∙ f (suc j) ∙ omega arith) (omega (arith, n)) h gs r,
      )
    where
      later : (q j : ℕ) → suc q + j ≡ q + suc j
      later q j = omega arith

      here : (q : ℕ) → q ≡ q + 0
      here q = omega arith

      next : (q : ℕ) → suc q ≡ q + 1
      next q = omega arith

      begins : first start ≡ o
      begins = ap first (here start) ∙ f 0 ∙ omega arith

      ends : first (suc start) ≡ o + length ms
      ends = ap first (next start) ∙ f 1 ∙ omega (arith, starts-zero mss)

      place : iota (first start) (first (suc start) - first start) ≡ iota o (length ms)
      place = ap₂ iota begins (omega (arith, begins, ends))

-- The groups of a built proof are those of its memberships.
module _ (hash_parts : List ℕ → List ℕ → ℕ) (keys_input : List ℕ) (new_value : ℕ → ℕ)
    (es : List Commitment) (c : ProofBuilder) (s : Shape) (mss : List (List ℕ))
    (ns : List Membership) where
  abbrev groups : MembersByLeaf
  groups = members_by_leaf (length c.leaves) ns

  -- The members of the leaves.
  pub built-GroupMembers :
      Sorted depth 0 keys_input
      → Adds (new_builder keys_input) c s 0 mss
      → Lays hash_parts depth 0 0 es keys_input s mss
      → Classified c.leaves 0 (slots_of 0 mss) ns
      → GroupMembers (built c ns) 0 0 (tips s) mss
  built-GroupMembers k adds y cl =
      Written-GroupMembers (built c ns) 0 0 (tips s) mss
        (FoundAt-here (built c ns) [] adds.new_leaves (tips s) 0 adds.leaved refl adds.resolved)
        (Classified-Written (built c ns) 0 (slots_of 0 mss) ns cl (At-here ns [] ns 0 refl refl))
        (subst (λ (t : List ℕ). KeysAt c.keys 0 t)
          (sym (Lays-concat hash_parts depth 0 0 es keys_input s mss y))
          (subst (λ (t : List ℕ). KeysAt t 0 keys_input) (sym adds.keyed)
            (KeysAt-start keys_input adds.new_keys k.0)))

  built-Paired :
      Ascending es
      → Live es
      → Shares depth 0 es
      → Sorted depth 0 keys_input
      → Adds (new_builder keys_input) c s 0 mss
      → Fitting depth 0 0 s
      → Lays hash_parts depth 0 0 es keys_input s mss
      → Classified c.leaves 0 (slots_of 0 mss) ns
      → length ns ≡ length keys_input
      → Paired hash_parts new_value
          (pair_at hash_parts (built c ns) new_value groups)
          0
          0
          (tips s)
          mss
  built-Paired a l h k adds f y cl n =
      let (leaves, count) = length-leaves keys_input c s mss adds in
      groups-Paired hash_parts (built c ns) new_value groups 0 0 (length c.leaves) (tips s) mss
        (starts mss)
        (members_at-iota (length c.leaves) (starts mss) (starts_mono mss) ns (starts-zero mss)
          (groups-InOrder (length c.leaves) (starts mss) (starts_mono mss) c.leaves mss ns
            (λ j. refl) (omega (arith, leaves, count)) cl)
          (ap (starts mss) (leaves ∙ count)
            ∙ starts-length mss
            ∙ Lays-total hash_parts depth 0 0 es keys_input s mss y
            ∙ sym n))
        (λ j. ap (starts mss) (from_zero j) ∙ omega arith) (omega (arith, leaves))
        (built-tips keys_input c s mss ns adds) (built-GroupMembers k adds y cl)
        (Lays-Ready new_value hash_parts depth 0 0 0 es keys_input s mss refl (a, l, h) k f y)
    where
      from_zero : (j : ℕ) → 0 + j ≡ j
      from_zero j = omega arith

  -- Both roots that the paired walk of a built proof gives.
  built-roots :
      Adds (new_builder keys_input) c s 0 mss
      → Fitting depth 0 0 s
      → Lays hash_parts depth 0 0 es keys_input s mss
      → Paired hash_parts new_value
          (pair_at hash_parts (built c ns) new_value groups)
          0
          0
          (tips s)
          mss
      → (after : HashedNode) × (subtree_hash hash_parts depth 0
            (set_entries es (changes new_value 0 keys_input))
          ≡ some after)
        × (compute_roots hash_parts (built c ns) new_value
            ≡ some ((shape_hash hash_parts s).hash, after.hash))
  unfolding compute_roots
  built-roots adds f y q =
      let pairs = pair_at hash_parts (built c ns) new_value groups in
      (
        post hash_parts new_value pairs (built c ns) 0 s,
        post-subtree_hash hash_parts new_value pairs (built c ns) depth 0 0 0 0 es keys_input s mss
            refl f y q,
        ap
              (λ (o : Option ((HashedNode × HashedNode) × Cursor)).
                and_then o λ (pair, cursor). some (pair.0.hash, pair.1.hash))
              (walk_pair-joined hash_parts (built c ns) pairs (λ i. prev_of (pairs i))
                (λ i. post_of (pairs i)) depth 0 0 s 0 (length c.leaves) 0 0 refl f
                (omega (arith, (length-leaves keys_input c s mss adds).0))
                (built-tips keys_input c s mss ns adds)
                (λ i. Paired-at hash_parts new_value pairs 0 0 (tips s) mss i q)
                (built-sibs keys_input c s mss ns adds) (built-bits keys_input c s mss ns adds))
            ∙ ap
                (λ (t : HashedNode).
                  some (t.hash, (post hash_parts new_value pairs (built c ns) 0 s).hash))
                (prev-shape_hash hash_parts new_value pairs (built c ns) depth 0 0 0 0 es keys_input
                  s mss y q),
      )

-- What a building collects, with the memberships in the order of the keys.
pub build-Lays :
    (hash_parts : List ℕ → List ℕ → ℕ) (node : Key → Option (ℕ × Node)) (es : List Commitment)
    (keys_input : List ℕ)
    → Ascending es
    → Live es
    → Shares depth 0 es
    → Holds hash_parts (λ key. existing (node key)) depth root_key es
    → 0 < length keys_input
    → Sorted depth 0 keys_input
    → (c : ProofBuilder) × (s : Shape) × (mss : List (List ℕ)) × (ns : List Membership) × (build
          node keys_input
        ≡ some (built c ns))
      × Adds (new_builder keys_input) c s 0 mss
      × Fitting depth 0 0 s
      × Lays hash_parts depth 0 0 es keys_input s mss
      × (shape_hash hash_parts s ≡ found_summary (node root_key))
      × Classified c.leaves 0 (slots_of 0 mss) ns
      × (length ns ≡ length keys_input)
unfolding build
build-Lays hash_parts node es keys_input a l s h n (b, t) =
    let (c, shape, mss, e, adds, f, y, k) =
      collect-Collects hash_parts node depth 0 root_key es refl (a, l, s) h keys_input 0
        (new_builder keys_input) n (b, t) in
    let (leaves, groups) = length-leaves keys_input c shape mss adds in
    let count : length keys_input ≡ total mss =
      sym (Lays-total hash_parts depth 0 0 es keys_input shape mss y) in
    let slots = built_slots keys_input c shape mss [] adds count in
    let order = iota 0 (length keys_input) in
    let blank = map (λ i. absent 0) order in
    let size : length blank ≡ length keys_input =
      length-same (absent 0) order ∙ length-iota 0 (length keys_input) in
    let (ns, m, cl) =
      classify_slots-Classified c.leaves (slots_of 0 mss) 0 [] blank refl
        (length-slots_of 0 mss ∙ sym count ∙ sym size)
        (slots_of-Within (length c.leaves) 0 mss (omega (arith, leaves, groups))) in
    (
      c,
      shape,
      mss,
      ns,
      rw
          (
            sort_unique-Ascending keys_input b,
            e,
            slots,
            ap (λ (i : ℕ). classify_slots c.leaves (slots_of 0 mss) (iota 0 i) blank) (sym size)
                ∙ m,
          )
          refl,
      adds,
      f,
      y,
      k,
      cl,
      length-Classified c.leaves 0 (slots_of 0 mss) ns cl ∙ length-slots_of 0 mss ∙ sym count,
    )

-- Where a tree holds a list of live entries, with ascending keys of 256 bits, and a proof is built
-- for one key or more, which come in strictly ascending order and are 256 bits long, the building
-- succeeds, and both roots that the proof computes are right: the first is the reference hash of
-- the entries, and the second, for any new value of each member, is the reference hash of the
-- entries with those values set, where the empty hash as a value removes the key. The keys may be
-- present or absent, and several absent ones may share the leaf that witnesses them.
pub compute_roots-build :
    (hash_parts : List ℕ → List ℕ → ℕ) (node : Key → Option (ℕ × Node)) (es : List Commitment)
    (keys_input : List ℕ) (new_value : ℕ → ℕ)
    → Ascending es
    → Live es
    → Shares depth 0 es
    → Holds hash_parts (λ key. existing (node key)) depth root_key es
    → 0 < length keys_input
    → Ascending (as_entries keys_input)
    → Shares depth 0 (as_entries keys_input)
    → (proof : Proof) × (before : HashedNode) × (after : HashedNode) × (build node keys_input
        ≡ some proof)
      × (subtree_hash hash_parts depth 0 es ≡ some before)
      × (subtree_hash hash_parts depth 0 (set_entries es (changes new_value 0 keys_input))
          ≡ some after)
      × (compute_roots hash_parts proof new_value ≡ some (before.hash, after.hash))
compute_roots-build hash_parts node es keys_input new_value a l s h n b t =
    let (c, shape, mss, ns, e, adds, f, y, k, cl, size) =
      build-Lays hash_parts node es keys_input a l s h n (b, t) in
    let (after, q, r) = built-roots hash_parts keys_input new_value es c shape mss ns adds f y (
      built-Paired hash_parts keys_input new_value es c shape mss ns a l s (b, t) adds f y cl
        size) in
    (
      built c ns,
      found_summary (node root_key),
      after,
      e,
      summed hash_parts node depth root_key es h l,
      q,
      r ∙ ap (λ (x : HashedNode). some (x.hash, after.hash)) k,
    )
