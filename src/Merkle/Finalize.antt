-- ===== src/Merkle/Finalize.antt =====
-- `finalize` of core/merkle-tree/src/streaming_builder.rs: how the stack's entries are combined.
use vprogs.Base.{
  ℕ, zero, suc, ◌+◌, ◌-◌, ◌^◌, ◌≤◌, ◌<◌, max, ◌≡◌, refl, ◌∙◌, sym, ap, List, [], ◌∷◌, ◌++◌, Option,
  some, arith, length, get_elem?, length-append, append_assoc,
}
use native.Mathlib.Nat.{one-le-pow}
use vprogs.Base.Order.{pow_next, pow_mono, pow_reflects}
use vprogs.Merkle.{Bytes, Hasher, NodeTags, hash_branch, lift, combine, combine_all}
use vprogs.Merkle.Dense.{dense, dense-append, dense_half}
use vprogs.Merkle.Stack.{Stands, Stands-le}

module _ (H : Hasher) (T : NodeTags) (m : ℕ) (table : List Bytes)
    (empties : (i : ℕ) → i < m → get_elem? table i ≡ some (dense H T i [])) where
  -- A tree lifted through padding levels is the dense tree of the greater depth.
  lift-dense :
      (count l : ℕ) (xs : List Bytes)
      → l + count ≤ m
      → length xs ≤ 2 ^ l
      → lift H T count l (dense H T l xs) table ≡ some (dense H T (l + count) xs)
  unfolding lift
  lift-dense zero l xs p h = ap (λ (t : ℕ). some (dense H T t xs)) (omega arith)
  lift-dense (suc count) l xs p h =
      rw (empties l (omega arith), ← dense_half H T l xs h)
        (lift-dense count (l + 1) xs (omega arith) (omega (arith, pow_next l))
          ∙ ap (λ (t : ℕ). some (dense H T t xs)) (omega arith))

  -- The root of a tree over `n` leaves at its natural depth: at most full, and more than half
  -- full.
  pub record Root (xs : List Bytes) (r : Option Bytes) : Type 0 where
    pub depth : ℕ
    pub root : r ≡ some (dense H T depth xs)
    pub enough : length xs ≤ 2 ^ depth
    pub tight : 2 ^ depth < length xs + length xs

  combine-Root :
      (stack : List (ℕ × Bytes)) (l : ℕ) (ys zs : List Bytes)
      → Stands H T l stack ys
      → 0 < length zs
      → length zs ≤ 2 ^ l
      → 2 ^ l < length zs + length zs
      → length (ys ++ zs) < 2 ^ m
      → Root (ys ++ zs) (combine H T stack l (dense H T l zs) table)
  unfolding combine
  combine-Root [] l ys zs s p q t b =
      rw s (record { depth = l; root = refl; enough = q; tight = t })
  combine-Root ((k, hash) ∷ stack) l ys zs (a, us, vs, e, n, h, s) p q t b =
      let size : length (ys ++ zs) ≡ length us + length vs + length zs =
        length-append ys zs
        ∙ ap (λ (w : List Bytes). length w + length zs) e
        ∙ ap (λ (w : ℕ). w + length zs) (length-append us vs) in
      let low : k < m = pow_reflects k m (omega arith) in
      let depth : l + (k - l) ≡ k = omega arith in
      let level : max l k + 1 ≡ k + 1 = omega arith in
      let joined : length (vs ++ zs) ≡ length vs + length zs = length-append vs zs in
      let lifted : lift H T (k - l) l (dense H T l zs) table ≡ some (dense H T k zs) =
        lift-dense (k - l) l zs (omega arith) q ∙ ap (λ (w : ℕ). some (dense H T w zs)) depth in
      let branch : hash_branch H T hash (dense H T k zs) ≡ dense H T (k + 1) (vs ++ zs) =
        ap (λ (w : Bytes). hash_branch H T w (dense H T k zs)) h
        ∙ sym (dense-append H T k vs zs n) in
      let r =
        combine-Root stack (k + 1) us (vs ++ zs) s (omega arith)
          (omega (arith, pow_next k, pow_mono l k a)) (omega (arith, pow_next k))
          (omega (arith, length-append us (vs ++ zs))) in
      rw (lifted, level, branch, e, append_assoc us vs zs) r

  pub combine_all-Root :
      (stack : List (ℕ × Bytes)) (xs : List Bytes)
      → Stands H T 0 stack xs
      → 0 < length xs
      → length xs < 2 ^ m
      → Root xs (combine_all H T stack table)
  combine_all-Root [] xs s p b = absurd (omega (arith, ap length s))
  combine_all-Root ((k, hash) ∷ stack) xs (a, ys, zs, e, n, h, s) p b =
      let full : 0 < 2 ^ k = one-le-pow k 2 (omega arith) in
      let fits : length (ys ++ zs) < 2 ^ m = omega (arith, ap length e) in
      rw (e, h)
        (combine-Root stack k ys zs (Stands-le H T (k + 1) k stack ys (omega arith) s) (omega arith)
          (omega arith) (omega arith) fits)
