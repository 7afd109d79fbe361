-- ===== src/Merkle/Stack.antt =====
-- `add_leaf_hash` of core/merkle-tree/src/streaming_builder.rs: what its stack stands for.
use vprogs.Base.{
  ℕ, ◌+◌, ◌-◌, ◌^◌, ◌≤◌, ◌<◌, ◌≡◌, refl, ◌∙◌, sym, ap, inl, inr, List, [], ◌∷◌, ◌++◌, arith, ◌==◌,
  ==_iff, Bool-cases, length, length-append, append_assoc,
}
use vprogs.Base.Order.{pow_next, pow_reflects}
use vprogs.Merkle.{Bytes, Hasher, NodeTags, hash_branch, merge}
use vprogs.Merkle.Dense.{dense, dense-append}

module _ (H : Hasher) (T : NodeTags) where
  -- The entries are the roots of full trees over consecutive leaves, their levels rising from `l`
  -- on towards the bottom.
  abbrev pub Stands : ℕ → List (ℕ × Bytes) → List Bytes → Type 0
  Stands l [] xs = xs ≡ []
  Stands l ((k, hash) ∷ stack) xs =
      (l ≤ k)
      × (ys : List Bytes) × (zs : List Bytes) × (xs ≡ ys ++ zs)
      × (length zs ≡ 2 ^ k)
      × (hash ≡ dense H T k zs)
      × Stands (k + 1) stack ys

  pub Stands-le :
      (l m : ℕ) (stack : List (ℕ × Bytes)) (xs : List Bytes)
      → m ≤ l
      → Stands l stack xs
      → Stands m stack xs
  Stands-le l m [] xs h s = s
  Stands-le l m ((k, hash) ∷ stack) xs h (a, ys, zs, e, n, d, s) = (omega arith, ys, zs, e, n, d, s)

  -- A full tree of the leaves `zs` is merged into the stack.
  pub merge-Stands :
      (l : ℕ) (stack : List (ℕ × Bytes)) (ys zs : List Bytes)
      → Stands l stack ys
      → length zs ≡ 2 ^ l
      → Stands l (merge H T l (dense H T l zs) stack) (ys ++ zs)
  unfolding merge
  merge-Stands l [] ys zs s n = (omega arith, ys, zs, refl, n, refl, s)
  merge-Stands l ((k, hash) ∷ stack) ys zs (a, us, vs, e, n', h, s) n = elim (Bool-cases (k == l)) [
    | inl same ↦
        let q : k ≡ l = (==_iff k l).0 same in
        let size : length vs ≡ 2 ^ l = n' ∙ ap (λ (t : ℕ). 2 ^ t) q in
        let root : hash_branch H T hash (dense H T l zs) ≡ dense H T (l + 1) (vs ++ zs) =
          ap (λ (t : Bytes). hash_branch H T t (dense H T l zs))
            (h ∙ ap (λ (t : ℕ). dense H T t vs) q)
          ∙ sym (dense-append H T l vs zs size) in
        let r =
          merge-Stands (l + 1) stack us (vs ++ zs) (rw q at s)
            (length-append vs zs ∙ omega (arith, pow_next l)) in
        rw (same, root, e, append_assoc us vs zs)
          (Stands-le (l + 1) l (merge H T (l + 1) (dense H T (l + 1) (vs ++ zs)) stack)
            (us ++ (vs ++ zs)) (omega arith) r)
    | inr other ↦ rw other (omega arith, ys, zs, refl, n, refl, (ground arith, us, vs, e, n', h, s))
  ]

  -- A stack over fewer than `2 ^ m` leaves has at most one entry for each level below `m`.
  pub Stands-length :
      (l m : ℕ) (stack : List (ℕ × Bytes)) (xs : List Bytes)
      → Stands l stack xs
      → length xs < 2 ^ m
      → length stack ≤ m - l
  Stands-length l m [] xs s h = omega arith
  Stands-length l m ((k, hash) ∷ stack) xs (a, ys, zs, e, n, d, s) h =
      let size : length xs ≡ length ys + length zs = ap length e ∙ length-append ys zs in
      let low : k < m = pow_reflects k m (omega arith) in
      omega (arith, Stands-length (k + 1) m stack ys s (omega arith))
