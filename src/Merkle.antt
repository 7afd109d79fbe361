-- ===== src/Merkle.antt =====
-- core/merkle-tree/src/streaming_builder.rs and node_tags.rs: the streaming builder of a dense
-- Merkle tree, over the trait of core/hashing/src/hasher.rs.
--
-- The hash functions are other crates' code: the trait is a record that the definitions take. The
-- stack is a list, its top first, in place of an array with a length; a push past `MAX_DEPTH` and
-- an index past the table are `none`, which stands for the panic.
pub mod Dense
pub mod Stack
pub mod Finalize
pub mod Depth
pub mod Root
mod Tests
use vprogs.Base.{
  ℕ, zero, suc, ◌+◌, ◌-◌, ◌%◌, ◌^◌, min, max, List, [], ◌∷◌, Option, none, some, ltb, leb, ◌==◌,
  if◌then◌else◌, length, get_elem?, and_then,
}

abbrev pub Bytes : Type 0
Bytes = List ℕ

-- The trait `Hasher`, less its default method.
pub record Hasher : Type 0 where
  pub hash : Bytes → Bytes
  pub hash_parts_with_domain : Bytes → List Bytes → Bytes

abbrev pub hash_with_domain : Hasher → Bytes → Bytes → Bytes
hash_with_domain H domain bytes = H.hash_parts_with_domain domain (bytes ∷ [])

-- The trait `NodeTags`.
pub record NodeTags : Type 0 where
  pub leaf : Bytes
  pub branch : Bytes
  pub empty : Bytes

abbrev pub zeros : ℕ → Bytes
zeros zero = []
zeros (suc n) = 0 ∷ zeros n

pub record StreamingBuilder : Type 0 where
  pub stack : List (ℕ × Bytes)
  pub leaf_count : ℕ

unfoldable pub new : StreamingBuilder
new = record { stack = []; leaf_count = 0 }

-- `leading_zeros` of a word of `w` bits.
abbrev pub leading_zeros : ℕ → ℕ → ℕ
leading_zeros zero m = 0
leading_zeros (suc w) m = if ltb m (2 ^ w) then leading_zeros w m + 1 else 0

unfoldable pub required_depth : ℕ → ℕ → ℕ
required_depth max_depth count =
    if leb count 1 then 1 else min (64 - leading_zeros 64 (count - 1)) max_depth

-- The hash at the bottom of the stack: `stack[0].1`.
abbrev pub bottom : List (ℕ × Bytes) → Bytes
bottom [] = zeros 32
bottom ((level, hash) ∷ []) = hash
bottom (entry ∷ next ∷ stack) = bottom (next ∷ stack)

module _ (H : Hasher) (T : NodeTags) where
  unfoldable pub hash_leaf : Bytes → Bytes
  hash_leaf payload = hash_with_domain H T.leaf payload

  unfoldable pub hash_leaf_parts : List Bytes → Bytes
  hash_leaf_parts parts = H.hash_parts_with_domain T.leaf parts

  pub hash_branch : Bytes → Bytes → Bytes
  hash_branch left right = H.hash_parts_with_domain T.branch (left ∷ right ∷ [])

  pub hash_empty : Bytes
  hash_empty = hash_with_domain H T.empty []

  -- The table from one level on, whose hash is `prev`.
  pub empty_hashes_from : ℕ → Bytes → List Bytes
  empty_hashes_from zero prev = []
  empty_hashes_from (suc n) prev = prev ∷ empty_hashes_from n (hash_branch prev prev)

  unfoldable pub compute_empty_hashes : ℕ → List Bytes
  compute_empty_hashes max_depth = empty_hashes_from max_depth hash_empty

  -- The loop over the stack's top, and the push that follows it.
  pub merge : ℕ → Bytes → List (ℕ × Bytes) → List (ℕ × Bytes)
  merge level current [] = (level, current) ∷ []
  merge level current ((top_level, top_hash) ∷ stack) =
      let merged = merge (level + 1) (hash_branch top_hash current) stack in
      if top_level == level then merged else (level, current) ∷ (top_level, top_hash) ∷ stack

  unfoldable pub add_leaf_hash : ℕ → StreamingBuilder → Bytes → Option StreamingBuilder
  add_leaf_hash max_depth b hash =
      let stack = merge 0 hash b.stack in
      if leb (length stack) max_depth
      then some (record { stack = stack; leaf_count = (b.leaf_count + 1) % 2 ^ 32 })
      else none

  unfoldable pub add_leaf : ℕ → StreamingBuilder → Bytes → Option StreamingBuilder
  add_leaf max_depth b payload = add_leaf_hash max_depth b (hash_leaf payload)

  unfoldable pub add_leaf_parts : ℕ → StreamingBuilder → List Bytes → Option StreamingBuilder
  add_leaf_parts max_depth b parts = add_leaf_hash max_depth b (hash_leaf_parts parts)

  -- `while result_level < level`, over the levels that are left.
  pub lift : ℕ → ℕ → Bytes → List Bytes → Option Bytes
  lift zero level hash table = some hash
  lift (suc count) level hash table =
      and_then (get_elem? table level)
        (λ empty. lift count (level + 1) (hash_branch hash empty) table)

  -- The entries under the first one.
  pub combine : List (ℕ × Bytes) → ℕ → Bytes → List Bytes → Option Bytes
  combine [] result_level result_hash table = some result_hash
  combine ((level, hash) ∷ stack) result_level result_hash table =
      and_then (lift (level - result_level) result_level result_hash table)
        (λ lifted. combine stack (max result_level level + 1) (hash_branch hash lifted) table)

  abbrev pub combine_all : List (ℕ × Bytes) → List Bytes → Option Bytes
  combine_all [] table = some (zeros 32)
  combine_all ((level, hash) ∷ stack) table = combine stack level hash table

  unfoldable pub finalize : StreamingBuilder → List Bytes → Option Bytes
  finalize b empty_hashes =
      if b.leaf_count == 0
      then get_elem? empty_hashes 0
      else (if b.leaf_count == 1
          then and_then (get_elem? empty_hashes 0)
              (λ empty. some (hash_branch (bottom b.stack) empty))
          else combine_all b.stack empty_hashes)
