-- ===== src/Merkle/Root.antt =====
-- The streaming builder of core/merkle-tree/src/streaming_builder.rs against the dense tree.
use vprogs.Base.{
  ℕ, suc, ◌+◌, ◌%◌, ◌^◌, ◌≤◌, ◌<◌, ◌≡◌, refl, ◌∙◌, ap, true, false, List, [], ◌∷◌, ◌++◌, map,
  Option, some, arith, leb, ◌==◌, if◌then◌else◌, length, length-append, append_assoc, append_nil,
  and_then,
}
use native.Mathlib.Nat.{one-le-pow, mod-eq_of_lt}
use vprogs.Base.Order.{pow_reflects, pow_mono}
use vprogs.Merkle
use vprogs.Merkle.{
  Bytes, Hasher, NodeTags, StreamingBuilder, hash_leaf, hash_branch, hash_empty, required_depth,
  merge, add_leaf_hash, add_leaf, finalize, compute_empty_hashes, bottom, combine_all,
}
use vprogs.Merkle.Dense.{dense, compute_empty_hashes_lem}
use vprogs.Merkle.Stack.{Stands, merge-Stands, Stands-length}
use vprogs.Merkle.Finalize.{combine_all-Root}
use vprogs.Merkle.Depth.{required_depth_lem}

length-map : {A : Type 0} {B : Type 0} (f : A → B) (xs : List A) → length (map f xs) ≡ length xs
length-map f [] = refl
length-map f (x ∷ xs) = ap suc (length-map f xs)

module _ (H : Hasher) (T : NodeTags) where
  -- The payloads added in order.
  pub add_leaves : ℕ → List Bytes → StreamingBuilder → Option StreamingBuilder
  add_leaves max_depth [] b = some b
  add_leaves max_depth (p ∷ payloads) b =
      and_then (add_leaf H T max_depth b p) (add_leaves max_depth payloads)

  -- The root that the documentation describes: the dense tree at the required depth, padded by
  -- empty leaves.
  pub padded_root : ℕ → List Bytes → Bytes
  padded_root max_depth hashes =
      if length hashes == 0
      then hash_empty H T
      else dense H T (required_depth max_depth (length hashes)) hashes

  module _ (max_depth : ℕ) (word : max_depth ≤ 32) where
    pub record Holds (b : StreamingBuilder) (xs : List Bytes) : Type 0 where
      pub stands : Stands H T 0 b.stack xs
      pub counted : b.leaf_count ≡ length xs

    add_leaf_hash-Holds :
        (b : StreamingBuilder) (xs : List Bytes) (x : Bytes)
        → Holds b xs
        → length xs + 1 < 2 ^ max_depth
        → (c : StreamingBuilder) × (add_leaf_hash H T max_depth b x ≡ some c)
          × Holds c (xs ++ (x ∷ []))
    unfolding add_leaf_hash dense
    add_leaf_hash-Holds b xs x h p =
        let stands = merge-Stands H T 0 b.stack xs (x ∷ []) h.stands refl in
        let size : length (xs ++ (x ∷ [])) ≡ length xs + 1 = length-append xs (x ∷ []) in
        let room =
          Stands-length H T 0 max_depth (merge H T 0 x b.stack) (xs ++ (x ∷ [])) stands
            (omega arith) in
        let fits : leb (length (merge H T 0 x b.stack)) max_depth ≡ true = ground arith in
        rw fits (
          record { stack = merge H T 0 x b.stack; leaf_count = (b.leaf_count + 1) % 2 ^ 32 },
          refl,
          record {
            stands = stands;
            counted =
                mod-eq_of_lt (omega (arith, pow_mono max_depth 32 word, h.counted))
                ∙ omega (arith, h.counted);
          },
        )

    add_leaves-Holds :
        (payloads : List Bytes) (b : StreamingBuilder) (xs : List Bytes)
        → Holds b xs
        → length xs + length payloads < 2 ^ max_depth
        → (c : StreamingBuilder) × (add_leaves max_depth payloads b ≡ some c)
          × Holds c (xs ++ map (hash_leaf H T) payloads)
    unfolding add_leaves add_leaf
    add_leaves-Holds [] b xs h p = (b, refl, rw (append_nil xs) h)
    add_leaves-Holds (payload ∷ payloads) b xs h p =
        let (c, added, k) = add_leaf_hash-Holds b xs (hash_leaf H T payload) h (omega arith) in
        let (d, rest, r) =
          add_leaves-Holds payloads c (xs ++ (hash_leaf H T payload ∷ [])) k
            (omega (arith, length-append xs (hash_leaf H T payload ∷ []))) in
        rw added (
          d,
          rest,
          rw (append_assoc xs (hash_leaf H T payload ∷ []) (map (hash_leaf H T) payloads)) at r,
        )

    -- The one entry of a builder that holds one leaf.
    bottom_lem :
        (l : ℕ) (stack : List (ℕ × Bytes)) (x : Bytes)
        → Stands H T l stack (x ∷ [])
        → bottom stack ≡ x
    unfolding dense
    bottom_lem l [] x s = absurd (omega (arith, ap length s))
    bottom_lem l ((k, hash) ∷ []) x (a, ys, zs, e, n, h, s) =
        let whole : x ∷ [] ≡ zs = e ∙ ap (λ (t : List Bytes). t ++ zs) s in
        let leaf : k ≡ 0 = omega (arith, pow_reflects k 1 (omega (arith, ap length whole))) in
        h ∙ rw (leaf, ← whole) refl
    bottom_lem l ((k, hash) ∷ (j, next) ∷ stack) x (a, ys, zs, e, n, h, (b, us, vs, f, m, g, s)) =
        absurd (
          omega (
            arith,
            ap length e,
            length-append ys zs,
            ap length f,
            length-append us vs,
            one-le-pow k 2 (omega arith),
            one-le-pow j 2 (omega arith),
          ))

    required_one : required_depth max_depth 1 ≡ 1
    unfolding required_depth
    required_one = refl

    finalize_lem :
        (b : StreamingBuilder) (xs : List Bytes)
        → 0 < max_depth
        → Holds b xs
        → length xs < 2 ^ max_depth
        → finalize H T b (compute_empty_hashes H T max_depth) ≡ some (padded_root max_depth xs)
    unfolding finalize padded_root dense
    finalize_lem b [] d h p = rw (h.counted, compute_empty_hashes_lem H T max_depth 0 d) refl
    finalize_lem b (x ∷ []) d h p =
        rw (h.counted, compute_empty_hashes_lem H T max_depth 0 d, bottom_lem 0 b.stack x h.stands)
          (rw (required_one) refl)
    finalize_lem b (x ∷ y ∷ xs) d h p =
        let r =
          combine_all-Root H T max_depth (compute_empty_hashes H T max_depth)
            (compute_empty_hashes_lem H T max_depth) b.stack (x ∷ y ∷ xs) h.stands (omega arith)
            p in
        let depth =
          required_depth_lem max_depth r.depth (length (x ∷ y ∷ xs)) (omega arith) (omega arith) p
            r.enough r.tight in
        let none_left : (length (x ∷ y ∷ xs) == 0) ≡ false = ground arith in
        let more : (length (x ∷ y ∷ xs) == 1) ≡ false = ground arith in
        rw (h.counted, none_left, more, depth, r.root) refl

    new-Holds : Holds Merkle.new []
    unfolding Merkle.new
    new-Holds = record { stands = refl; counted = refl }

    -- Where the maximal depth is positive and at most 32, a builder that is given fewer than 2 to
    -- that depth payloads accepts them all, counts them, and finalizes, with the table of empty
    -- hashes, to the root of the dense tree over their leaf hashes at the required depth, padded
    -- by empty leaves; without payloads the root is the empty hash.
    pub finalize-padded_root :
        (payloads : List Bytes)
        → 0 < max_depth
        → length payloads < 2 ^ max_depth
        → (b : StreamingBuilder) × (add_leaves max_depth payloads Merkle.new ≡ some b)
          × (b.leaf_count ≡ length payloads)
          × (finalize H T b (compute_empty_hashes H T max_depth)
              ≡ some (padded_root max_depth (map (hash_leaf H T) payloads)))
    finalize-padded_root payloads d p =
        let (b, added, h) = add_leaves-Holds payloads Merkle.new [] new-Holds (omega arith) in
        let size : length (map (hash_leaf H T) payloads) ≡ length payloads =
          length-map (hash_leaf H T) payloads in
        (
          b,
          added,
          h.counted ∙ size,
          finalize_lem b (map (hash_leaf H T) payloads) d h (omega arith),
        )
