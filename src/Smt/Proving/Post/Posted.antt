-- ===== src/Smt/Proving/Post/Posted.antt =====
-- core/smt/src/proving: the post-states of the leaves join to the reference of the changed entries.
use vprogs.Base.{
  ℕ, zero, suc, ◌+◌, ◌-◌, ◌≡◌, sym, subst, ap, ◌∙◌, List, [], ◌∷◌, ◌++◌, true, false, some, arith,
  length,
}
use vprogs.Smt.{Commitment, HashedNode, depth, subtree_hash}
use vprogs.Smt.Entries.{Above, Ascending, set_entry, set_entries, set_entries-Ascending}
use vprogs.Smt.Entries.Halves.{Shares, set_entries-Shares}
use vprogs.Smt.Proving.Shape.{Tip, Shape, tip, fork, side, tips, Fitting}
use vprogs.Smt.Proving.Lays.{as_entries, Sorted, Kept, Lays, total}
use vprogs.Smt.Proving.Post.Scanned.{changes}
use vprogs.Smt.Proving.Post.Halves.{subtree_hash-total}

module _ (new_value : ℕ → ℕ) where
  pub changes-append :
      (o : ℕ) (ks ls : List ℕ)
      → changes new_value o (ks ++ ls)
        ≡ changes new_value o ks ++ changes new_value (o + length ks) ls
  changes-append o [] ls = ap (λ (t : ℕ). changes new_value t ls) (omega arith)
  changes-append o (k ∷ ks) ls =
      ap (λ (t : List Commitment). record { key = k; value_hash = new_value o } ∷ t)
        (changes-append (suc o) ks ls
          ∙ ap (λ (t : ℕ). changes new_value (suc o) ks ++ changes new_value t ls) (omega arith))

  changes-Above :
      (o k : ℕ) (ks : List ℕ) → Above k (as_entries ks) → Above k (changes new_value o ks)
  changes-Above o k [] a = tt
  changes-Above o k (l ∷ ls) a = (a.0, changes-Above (suc o) k ls a.1)

  pub changes-Ascending :
      (o : ℕ) (ks : List ℕ) → Ascending (as_entries ks) → Ascending (changes new_value o ks)
  changes-Ascending o [] a = tt
  changes-Ascending o (k ∷ ks) a =
      (changes-Above (suc o) k ks a.0, changes-Ascending (suc o) ks a.1)

  pub changes-Shares :
      (levels prefix o : ℕ) (ks : List ℕ)
      → Shares levels prefix (as_entries ks)
      → Shares levels prefix (changes new_value o ks)
  changes-Shares levels prefix o [] a = tt
  changes-Shares levels prefix o (k ∷ ks) a = (a.0, changes-Shares levels prefix (suc o) ks a.1)

  module _ (hash_parts : List ℕ → List ℕ → ℕ) where
    -- What the entry of a tip hashes to, with the keys of its group set.
    abbrev pub TipPost : ℕ → Tip → List ℕ → HashedNode → Type 0
    TipPost o t ms post =
        subtree_hash hash_parts (depth - t.depth) t.depth
          (set_entries (set_entry t.entry []) (changes new_value o ms))
        ≡ some post

    abbrev pub Ready : ℕ → List Tip → List (List ℕ) → Type 0
    Ready o [] [] = Unit
    Ready o [] (ms ∷ mss) = ⊥
    Ready o (t ∷ ts) [] = ⊥
    Ready o (t ∷ ts) (ms ∷ mss) =
        Ascending (changes new_value o ms)
        × ((post : HashedNode) × TipPost o t ms post)
        × Ready (o + length ms) ts mss

    Ready-append :
        (o : ℕ) (ts us : List Tip) (ml mr : List (List ℕ))
        → Ready o ts ml
        → Ready (o + total ml) us mr
        → Ready o (ts ++ us) (ml ++ mr)
    Ready-append o [] us [] mr r q = subst (λ (t : ℕ). Ready t us mr) (omega arith) q
    Ready-append o [] us (ms ∷ ml) mr r q = absurd r
    Ready-append o (t ∷ ts) us [] mr r q = absurd r
    Ready-append o (t ∷ ts) us (ms ∷ ml) mr r q = (
      r.0,
      r.1,
      Ready-append (o + length ms) ts us ml mr r.2
          (subst (λ (t : ℕ). Ready t us mr) (omega arith) q),
    )

    -- Each group has a post-state.
    pub Lays-Ready :
        (levels prefix level o : ℕ) (es : List Commitment) (ks : List ℕ) (s : Shape)
        (mss : List (List ℕ))
        → levels + level ≡ depth
        → Kept levels prefix es
        → Sorted levels prefix ks
        → Fitting levels prefix level s
        → Lays hash_parts levels prefix level es ks s mss
        → Ready o (tips s) mss
    Lays-Ready levels prefix level o es ks (tip t) mss at k s f h =
        subst (Ready o (t ∷ [])) (sym h.0) (
          changes-Ascending o ks s.0,
          subst
              (λ (d : ℕ).
                (post : HashedNode) × (subtree_hash hash_parts (depth - d) d
                    (set_entries (set_entry t.entry []) (changes new_value o ks))
                  ≡ some post))
              (sym f.0)
              (subst
                (λ (u : List Commitment).
                  (post : HashedNode) × (subtree_hash hash_parts (depth - level) level
                      (set_entries u (changes new_value o ks))
                    ≡ some post))
                (sym h.1)
                (subst
                  (λ (n : ℕ).
                    (post : HashedNode) × (subtree_hash hash_parts n level
                        (set_entries es (changes new_value o ks))
                      ≡ some post))
                  (omega (arith, at))
                  (subtree_hash-total hash_parts levels prefix level _ at
                    (set_entries-Ascending es _ k.0)
                    (set_entries-Shares levels prefix es _ k.2
                      (changes-Shares levels prefix o ks s.1))))),
          tt,
        )
    Lays-Ready zero prefix level o es ks (fork l r) mss at k s f h = absurd h
    Lays-Ready (suc levels) prefix level o es ks (fork l r) mss at k s f (p, ml, mr, e, n, g, h) =
        subst (Ready o (tips l ++ tips r)) (sym e) (
          Ready-append o (tips l) (tips r) ml mr
            (Lays-Ready levels (prefix + prefix) (level + 1) o p.lefts p.left_keys l ml
              (omega (arith, at)) p.left_kept p.left_sorted f.0 g)
            (Lays-Ready levels (prefix + prefix + 1) (level + 1) (o + total ml) p.rights
              p.right_keys r mr (omega (arith, at)) p.right_kept p.right_sorted f.1 h))
    Lays-Ready zero prefix level o es ks (side b x t) mss at k s f h = absurd h
    Lays-Ready (suc levels) prefix level o es ks (side true x t) mss at k s f (p, n, e, h) =
        Lays-Ready levels (prefix + prefix) (level + 1) o p.lefts p.left_keys t mss
          (omega (arith, at)) p.left_kept p.left_sorted f h
    Lays-Ready (suc levels) prefix level o es ks (side false x t) mss at k s f (p, n, e, h) =
        Lays-Ready levels (prefix + prefix + 1) (level + 1) o p.rights p.right_keys t mss
          (omega (arith, at)) p.right_kept p.right_sorted f h
