-- ===== src/Merkle/Dense.antt =====
-- The dense tree that core/merkle-tree/src/streaming_builder.rs stands for.
use vprogs.Base.{
  ℕ, zero, suc, ◌+◌, ◌^◌, ◌≤◌, ◌<◌, ◌≡◌, sym, ◌∙◌, ap, ap₂, List, [], ◌∷◌, ◌++◌, some, arith,
  length, get_elem?, take, drop, take-append, drop-append, take_all, drop_all,
}
use vprogs.Merkle.{
  Bytes, Hasher, NodeTags, hash_branch, hash_empty, empty_hashes_from, compute_empty_hashes,
}

module _ (H : Hasher) (T : NodeTags) where
  -- The root of the tree of depth `d` over the leaf hashes, padded on the right by empty leaves.
  unfoldable pub dense : ℕ → List Bytes → Bytes
  dense zero [] = hash_empty H T
  dense zero (x ∷ xs) = x
  dense (suc d) xs = hash_branch H T (dense d (take (2 ^ d) xs)) (dense d (drop (2 ^ d) xs))

  -- A full left half.
  pub dense-append :
      (d : ℕ) (xs ys : List Bytes)
      → length xs ≡ 2 ^ d
      → dense (d + 1) (xs ++ ys) ≡ hash_branch H T (dense d xs) (dense d ys)
  unfolding dense
  dense-append d xs ys e =
      ap (λ (t : ℕ). dense t (xs ++ ys)) {y = suc d} (omega arith)
      ∙ ap₂ (λ (a b : List Bytes). hash_branch H T (dense d a) (dense d b))
          (take-append (2 ^ d) xs ys e) (drop-append (2 ^ d) xs ys e)

  -- An empty right half.
  pub dense_half :
      (d : ℕ) (xs : List Bytes)
      → length xs ≤ 2 ^ d
      → dense (d + 1) xs ≡ hash_branch H T (dense d xs) (dense d [])
  unfolding dense
  dense_half d xs h =
      ap (λ (t : ℕ). dense t xs) {y = suc d} (omega arith)
      ∙ ap₂ (λ (a b : List Bytes). hash_branch H T (dense d a) (dense d b)) (take_all (2 ^ d) xs h)
          (drop_all (2 ^ d) xs h)

  empty_hashes_from_lem :
      (n d i : ℕ)
      → i < n
      → get_elem? (empty_hashes_from H T n (dense d [])) i ≡ some (dense (d + i) [])
  unfolding empty_hashes_from
  empty_hashes_from_lem zero d i h = elim h [ ]
  empty_hashes_from_lem (suc n) d zero h = ap (λ (t : ℕ). some (dense t [])) (omega arith)
  empty_hashes_from_lem (suc n) d (suc i) h =
      ap (λ (t : Bytes). get_elem? (empty_hashes_from H T n t) i)
        (sym (dense_half d [] (omega arith)) ∙ ap (λ (t : ℕ). dense t []) {y = suc d} (omega arith))
      ∙ empty_hashes_from_lem n (suc d) i (omega arith)
      ∙ ap (λ (t : ℕ). some (dense t [])) (omega arith)

  -- The table holds at each level the root of the empty tree of that depth.
  pub compute_empty_hashes_lem :
      (n i : ℕ) → i < n → get_elem? (compute_empty_hashes H T n) i ≡ some (dense i [])
  unfolding compute_empty_hashes dense
  compute_empty_hashes_lem n i h =
      empty_hashes_from_lem n 0 i h ∙ ap (λ (t : ℕ). some (dense t [])) (omega arith)
