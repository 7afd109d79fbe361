-- ===== src/Merkle/Tests.antt =====
-- The theorem on core/merkle-tree/src/streaming_builder.rs over a hash that writes its tree out.
use vprogs.Base.{◌≡◌, refl, List, [], ◌∷◌, ◌++◌, map, some, arith}
use vprogs.Merkle
use vprogs.Merkle.{
  Bytes, Hasher, NodeTags, StreamingBuilder, hash_leaf, required_depth, finalize,
  compute_empty_hashes, merge, hash_branch,
}
use vprogs.Merkle.Root.{add_leaves, padded_root, finalize-padded_root}

abbrev concat_parts : List Bytes → Bytes
concat_parts [] = []
concat_parts (p ∷ parts) = p ++ concat_parts parts

-- The tag, the parts, and a closing byte.
abbrev tracing : Hasher
tracing = record {
  hash = λ bytes. bytes;
  hash_parts_with_domain = λ domain parts. domain ++ (concat_parts parts ++ (9 ∷ []));
}

-- `TestTags`
abbrev tags : NodeTags
tags = record { leaf = 0 ∷ []; branch = 1 ∷ []; empty = 2 ∷ [] }

-- `required_depth_clamps`
depths :
    (required_depth 8 0 ≡ 1)
    × (required_depth 8 2 ≡ 1)
    × (required_depth 8 3 ≡ 2)
    × (required_depth 8 5 ≡ 3)
    × (required_depth 8 257 ≡ 8)
unfolding required_depth
depths = (refl, refl, refl, refl, refl)

abbrev payloads : List Bytes
payloads = (10 ∷ []) ∷ (11 ∷ []) ∷ (12 ∷ []) ∷ (13 ∷ []) ∷ (14 ∷ []) ∷ []

finalize-padded_root_example :
    (b : StreamingBuilder) × (add_leaves tracing tags 8 payloads Merkle.new ≡ some b)
    × (b.leaf_count ≡ 5)
    × (finalize tracing tags b (compute_empty_hashes tracing tags 8)
        ≡ some (padded_root tracing tags 8 (map (hash_leaf tracing tags) payloads)))
finalize-padded_root_example =
    finalize-padded_root tracing tags 8 (omega arith) payloads (omega arith) (omega arith)
