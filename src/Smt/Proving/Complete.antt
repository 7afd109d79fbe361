-- ===== src/Smt/Proving/Complete.antt =====
-- core/smt/src/proving: the root of a built proof is that of the tree.
use vprogs.Base.{
  ℕ, zero, suc, ◌+◌, ◌-◌, ◌<◌, ◌≡◌, ◌≢◌, refl, sym, subst, ap, ◌∙◌, List, [], ◌∷◌, ◌++◌, Option,
  none, some, arith, take, drop, length, ==_ne,
}
use vprogs.Smt.{
  Key, Node, empty, internal, leaf, Commitment, HashedNode, empty_node, empty_hash, hashed_leaf,
  combine, split_point, depth, left_child, right_child, subtree_hash,
}
use vprogs.Smt.Updater.{existing, child_summary}
use vprogs.Smt.Entries.{Ascending, Live, set_entry}
use vprogs.Smt.Entries.Halves.{Shares, Halves, halves, take_left, drop_right, Ascending-append}
use vprogs.Smt.Reference.{Stands, Holds, left_part, right_part}
use vprogs.Smt.Reference.Updates.{no_two}
use vprogs.Smt.Reference.Joined.{summary_lem, subtree_hash_nothing}
use vprogs.Smt.Proving.Builder.{
  ProofBuilder, key_split, Collecting, collect_empty, found_summary, collect_sides,
  collect_internal, collect_found, collect,
}
use vprogs.Smt.Proving.Lays.{Sorted, Kept, Parts}
use vprogs.Smt.Proving.Absent.{
  key_sides, take-drop, Collects, fork-Collects, left-Collects, right-Collects, emit-Collects,
  collect_empty-Collects,
}

entries_split : (n : ℕ) (es : List Commitment) → take n es ++ drop n es ≡ es
entries_split zero es = refl
entries_split (suc n) [] = refl
entries_split (suc n) (e ∷ es) = ap (λ (t : List Commitment). e ∷ t) (entries_split n es)

Live-take : (n : ℕ) (es : List Commitment) → Live es → Live (take n es)
Live-take zero es l = tt
Live-take (suc n) [] l = tt
Live-take (suc n) (e ∷ es) l = (l.0, Live-take n es l.1)

Live-drop : (n : ℕ) (es : List Commitment) → Live es → Live (drop n es)
Live-drop zero es l = l
Live-drop (suc n) [] l = tt
Live-drop (suc n) (e ∷ es) l = Live-drop n es l.1

left-Kept :
    (levels prefix level : ℕ) (u v : Commitment) (us : List Commitment)
    → 255 - level ≡ levels
    → Kept (suc levels) prefix (u ∷ v ∷ us)
    → Kept levels (prefix + prefix) (left_part level (u ∷ v ∷ us))
left-Kept levels prefix level u v us at k = go (halves levels prefix (u ∷ v ∷ us) k.0 k.2)
  where
    go :
        Halves levels prefix (u ∷ v ∷ us)
        → Kept levels (prefix + prefix) (left_part level (u ∷ v ∷ us))
    go h =
        let e = take_left levels prefix level at (u ∷ v ∷ us) h in
        (
          subst Ascending (sym e) (Ascending-append h.left h.right (subst Ascending h.parts k.0)).0,
          Live-take (split_point level (u ∷ v ∷ us)) (u ∷ v ∷ us) k.1,
          subst (Shares levels (prefix + prefix)) (sym e) h.left_shares,
        )

right-Kept :
    (levels prefix level : ℕ) (u v : Commitment) (us : List Commitment)
    → 255 - level ≡ levels
    → Kept (suc levels) prefix (u ∷ v ∷ us)
    → Kept levels (prefix + prefix + 1) (right_part level (u ∷ v ∷ us))
right-Kept levels prefix level u v us at k = go (halves levels prefix (u ∷ v ∷ us) k.0 k.2)
  where
    go :
        Halves levels prefix (u ∷ v ∷ us)
        → Kept levels (prefix + prefix + 1) (right_part level (u ∷ v ∷ us))
    go h =
        let e = drop_right levels prefix level at (u ∷ v ∷ us) h in
        (
          subst Ascending (sym e) (Ascending-append h.left h.right (subst Ascending h.parts k.0)).1,
          Live-drop (split_point level (u ∷ v ∷ us)) (u ∷ v ∷ us) k.1,
          subst (Shares levels (prefix + prefix + 1)) (sym e) h.right_shares,
        )

found_summary-existing : (f : Option (ℕ × Node)) → found_summary f ≡ child_summary (existing f)
found_summary-existing none = refl
found_summary-existing (some (v, empty)) = refl
found_summary-existing (some (v, internal h)) = refl
found_summary-existing (some (v, leaf k x h)) = refl

-- The hash of a result that is there.
abbrev reference_of : Option HashedNode → HashedNode
reference_of none = empty_node
reference_of (some h) = h

module _ (hash_parts : List ℕ → List ℕ → ℕ) (node : Key → Option (ℕ × Node)) where
  abbrev view : Key → Option Node
  view key = existing (node key)

  Holds-here :
      (levels : ℕ) (key : Key) (es : List Commitment)
      → Holds hash_parts view levels key es
      → Stands hash_parts levels (length key) es (view key)
  Holds-here zero key es h = h
  Holds-here (suc levels) key es h = h.0

  -- The hash of the node at a position is the reference of its entries.
  pub summed :
      (levels : ℕ) (key : Key) (es : List Commitment)
      → Holds hash_parts view levels key es
      → Live es
      → subtree_hash hash_parts levels (length key) es ≡ some (found_summary (node key))
  summed levels key es h l =
      summary_lem hash_parts levels (length key) es (view key) (Holds-here levels key es h) l
      ∙ ap some (sym (found_summary-existing (node key)))

  combined :
      (levels : ℕ) (key : Key) (u v : Commitment) (us : List Commitment)
      → Holds hash_parts view levels (left_child key) (left_part (length key) (u ∷ v ∷ us))
      → Holds hash_parts view levels (right_child key) (right_part (length key) (u ∷ v ∷ us))
      → Live (u ∷ v ∷ us)
      → subtree_hash hash_parts (suc levels) (length key) (u ∷ v ∷ us)
        ≡ some (
            combine hash_parts
              (found_summary (node (left_child key)))
              (found_summary (node (right_child key))))
  unfolding subtree_hash
  combined levels key u v us h k l =
      rw
        (
          summed levels (left_child key) _ h
              (Live-take (split_point (length key) (u ∷ v ∷ us)) _ l),
          summed levels (right_child key) _ k
              (Live-drop (split_point (length key) (u ∷ v ∷ us)) _ l),
        )
        refl

  -- A collection over the keys that come to a position.
  abbrev Covers : ℕ → ℕ → ℕ → List Commitment → HashedNode → Collecting → Type 0
  Covers levels prefix level es reference collecting =
      (ks : List ℕ) (offset : ℕ) (b : ProofBuilder)
      → 0 < length ks
      → Sorted levels prefix ks
      → Collects hash_parts levels prefix level es ks reference offset b (collecting ks offset b)

  abbrev parts :
      (levels prefix : ℕ) (es lefts rights : List Commitment) (ks ls rs : List ℕ)
      → es ≡ lefts ++ rights
      → ks ≡ ls ++ rs
      → Kept levels (prefix + prefix) lefts
      → Kept levels (prefix + prefix + 1) rights
      → Sorted levels (prefix + prefix) ls
      → Sorted levels (prefix + prefix + 1) rs
      → Parts levels prefix es ks
  parts levels prefix es lefts rights ks ls rs e f k l s t = record {
    lefts = lefts;
    rights = rights;
    left_keys = ls;
    right_keys = rs;
    entries = e;
    keys = f;
    left_kept = k;
    right_kept = l;
    left_sorted = s;
    right_sorted = t;
  }

  -- Both sides of a position with an internal node.
  record Flanks (levels prefix level : ℕ) (key : Key) (es : List Commitment) : Type 0 where
    lefts : List Commitment
    rights : List Commitment
    entries : es ≡ lefts ++ rights
    left_kept : Kept levels (prefix + prefix) lefts
    right_kept : Kept levels (prefix + prefix + 1) rights
    left_hash :
        subtree_hash hash_parts levels (level + 1) lefts
        ≡ some (found_summary (node (left_child key)))
    right_hash :
        subtree_hash hash_parts levels (level + 1) rights
        ≡ some (found_summary (node (right_child key)))

  sides-Collects :
      (levels prefix level : ℕ) (key : Key) (deeper : Key → Collecting) (es : List Commitment)
      (x : Flanks levels prefix level key es) (mid : ℕ) (ks ls rs : List ℕ) (offset : ℕ)
      (b : ProofBuilder)
      → Covers levels
          (prefix + prefix)
          (level + 1)
          x.lefts
          (found_summary (node (left_child key)))
          (deeper (left_child key))
      → Covers levels
          (prefix + prefix + 1)
          (level + 1)
          x.rights
          (found_summary (node (right_child key)))
          (deeper (right_child key))
      → 0 < length ks
      → ks ≡ ls ++ rs
      → (0 < length rs → mid ≡ length ls)
      → Sorted levels (prefix + prefix) ls
      → Sorted levels (prefix + prefix + 1) rs
      → Collects hash_parts
          (suc levels)
          prefix
          level
          es
          ks
          (combine hash_parts
            (found_summary (node (left_child key)))
            (found_summary (node (right_child key))))
          offset
          b
          (collect_sides node deeper key mid ls rs offset b)
  sides-Collects levels prefix level key deeper es x mid ks [] [] offset b on_left on_right n e m s
        t =
      absurd (omega (arith, n, ap (λ (u : List ℕ). length u) e))
  sides-Collects levels prefix level key deeper es x mid ks [] (r ∷ rs) offset b on_left on_right n
        e m s t =
      right-Collects hash_parts levels prefix level es ks
        (parts levels prefix es x.lefts x.rights ks [] (r ∷ rs) x.entries e x.left_kept x.right_kept
          s t)
        _ (found_summary (node (left_child key))) offset b _ refl x.left_hash
        (on_right (r ∷ rs) offset _ (omega arith) t)
  sides-Collects levels prefix level key deeper es x mid ks (l ∷ ls) [] offset b on_left on_right n
        e m s t =
      left-Collects hash_parts levels prefix level es ks
        (parts levels prefix es x.lefts x.rights ks (l ∷ ls) [] x.entries e x.left_kept x.right_kept
          s t)
        _ (found_summary (node (right_child key))) offset b _ refl x.right_hash
        (on_left (l ∷ ls) offset _ (omega arith) s)
  sides-Collects levels prefix level key deeper es x mid ks (l ∷ ls) (r ∷ rs) offset b on_left
        on_right n e m s t =
      fork-Collects hash_parts levels prefix level es ks
        (parts levels prefix es x.lefts x.rights ks (l ∷ ls) (r ∷ rs) x.entries e x.left_kept
          x.right_kept s t)
        _ _ offset mid b _ _ (m (omega arith)) (on_left (l ∷ ls) offset _ (omega arith) s)
        (λ c. on_right (r ∷ rs) (offset + mid) c (omega arith) t)

  single :
      (levels level : ℕ) (u : Commitment)
      → subtree_hash hash_parts levels level (u ∷ [])
        ≡ some (hashed_leaf hash_parts u.key u.value_hash)
  unfolding subtree_hash
  single zero level u = refl
  single (suc levels) level u = refl

  abbrev Known : ℕ → Key → List Commitment → HashedNode → Type 0
  Known levels key es reference = subtree_hash hash_parts levels (length key) es ≡ some reference

  lone_set : (u : Commitment) → u.value_hash ≢ empty_hash → set_entry u [] ≡ u ∷ []
  unfolding set_entry
  lone_set u h = rw (==_ne u.value_hash empty_hash h) refl

  -- A position without entries, or with one leaf.
  empty-Collects :
      (levels prefix : ℕ) (key : Key) (reference : HashedNode)
      → levels + length key ≡ depth
      → Known levels key [] reference
      → Covers levels prefix (length key) [] reference (collect_empty levels (length key))
  empty-Collects levels prefix key reference at known ks offset b n s =
      subst
        (λ (t : HashedNode).
          Collects hash_parts levels prefix (length key) [] ks t offset b
            (collect_empty levels (length key) ks offset b))
        (ap reference_of (sym (subtree_hash_nothing hash_parts levels (length key)) ∙ known))
        (collect_empty-Collects hash_parts levels prefix (length key) at ks offset b n s)

  found-Collects :
      (levels prefix : ℕ) (key : Key) (es : List Commitment) (reference : HashedNode)
      (deeper : Option ProofBuilder) (ks : List ℕ) (offset : ℕ) (b : ProofBuilder)
      (found : Option (ℕ × Node))
      → levels + length key ≡ depth
      → Kept levels prefix es
      → Known levels key es reference
      → 0 < length ks
      → Sorted levels prefix ks
      → Stands hash_parts levels (length key) es (existing found)
      → ((u v : Commitment) (us : List Commitment)
          → es ≡ u ∷ v ∷ us
          → Collects hash_parts levels prefix (length key) es ks reference offset b deeper)
      → Collects hash_parts levels prefix
          (length key)
          es
          ks
          reference
          offset
          b
          (collect_found node deeper levels key ks offset b found)
  found-Collects levels prefix key [] reference deeper ks offset b none at k t n s st f =
      empty-Collects levels prefix key reference at t ks offset b n s
  found-Collects levels prefix key [] reference deeper ks offset b (some (v, empty)) at k t n s st
        f =
      empty-Collects levels prefix key reference at t ks offset b n s
  found-Collects levels prefix key [] reference deeper ks offset b (some (v, internal h)) at k t n s
        st f =
      absurd (no_node st)
    where
      no_node : some (internal h) ≡ none → ⊥
      no_node e = cc
  found-Collects levels prefix key [] reference deeper ks offset b (some (v, leaf x y z)) at k t n s
        st f =
      absurd (no_node st)
    where
      no_node : some (leaf x y z) ≡ none → ⊥
      no_node e = cc
  found-Collects levels prefix key (u ∷ []) reference deeper ks offset b none at k t n s st f =
      absurd (cc st)
  found-Collects levels prefix key (u ∷ []) reference deeper ks offset b (some (v, empty)) at k t n
        s st f =
      absurd (cc st)
  found-Collects levels prefix key (u ∷ []) reference deeper ks offset b (some (v, internal h)) at k
        t n s st f =
      absurd (cc st)
  found-Collects levels prefix key (u ∷ []) reference deeper ks offset b (some (v, leaf x y z)) at k
        t n s st f =
      let p : x ≡ u.key = cc in
      let q : y ≡ u.value_hash = cc in
      rw (p, q)
        (subst
          (λ (h : HashedNode).
            Collects hash_parts levels prefix (length key) (u ∷ []) ks h offset b (
              collect_found node deeper levels key ks offset b
                (some (v, leaf u.key u.value_hash z))))
          (ap reference_of (sym (single levels (length key) u) ∙ t))
          (emit-Collects hash_parts levels prefix (length key) u.key u.value_hash offset (u ∷ []) ks
            b k.2.0 (lone_set u k.1.0)))
  found-Collects levels prefix key (u ∷ w ∷ us) reference deeper ks offset b none at k t n s st f =
      absurd (cc st.1)
  found-Collects levels prefix key (u ∷ w ∷ us) reference deeper ks offset b (some (v, empty)) at k
        t n s st f =
      absurd (cc st.1)
  found-Collects levels prefix key (u ∷ w ∷ us) reference deeper ks offset b (some (v, leaf x y z))
        at k t n s st f =
      absurd (cc st.1)
  found-Collects levels prefix key (u ∷ w ∷ us) reference deeper ks offset b (some (v, internal h))
        at k t n s st f =
      f u w us refl

  split_length : (n : ℕ) (ks : List ℕ) → 0 < length (drop n ks) → n ≡ length (take n ks)
  split_length zero ks h = refl
  split_length (suc n) [] h = absurd (omega (arith, h))
  split_length (suc n) (k ∷ ks) h = ap suc (split_length n ks h)

  internal-Collects :
      (levels prefix level : ℕ) (key : Key) (reference : HashedNode) (deeper : Key → Collecting)
      (es : List Commitment) (x : Flanks levels prefix level key es)
      → length key ≡ level
      → 255 - level ≡ levels
      → combine hash_parts
          (found_summary (node (left_child key)))
          (found_summary (node (right_child key)))
        ≡ reference
      → Covers levels
          (prefix + prefix)
          (level + 1)
          x.lefts
          (found_summary (node (left_child key)))
          (deeper (left_child key))
      → Covers levels
          (prefix + prefix + 1)
          (level + 1)
          x.rights
          (found_summary (node (right_child key)))
          (deeper (right_child key))
      → Covers (suc levels) prefix level es reference (collect_internal node deeper key)
  internal-Collects levels prefix level key reference deeper es x e at c on_left on_right ks offset
        b n s =
      rw e (
        subst
          (λ (h : HashedNode). Collects hash_parts (suc levels) prefix level es ks h offset b (
            collect_sides node deeper key (key_split level ks) (take (key_split level ks) ks)
              (drop (key_split level ks) ks) offset b))
          c
          (sides-Collects levels prefix level key deeper es x (key_split level ks) ks _ _ offset b
            on_left on_right n (sym (take-drop (key_split level ks) ks))
            (split_length (key_split level ks) ks) (key_sides levels prefix level ks at s).0
            (key_sides levels prefix level ks at s).1))

  pub collect-Collects :
      (levels prefix : ℕ) (key : Key) (es : List Commitment)
      → levels + length key ≡ depth
      → Kept levels prefix es
      → Holds hash_parts view levels key es
      → Covers levels prefix (length key) es (found_summary (node key)) (collect node levels key)
  unfolding collect
  collect-Collects levels prefix key es at k h [] offset b n s = absurd (omega arith)
  collect-Collects zero prefix key es at k h (q ∷ ks) offset b n s =
      found-Collects zero prefix key es _ none (q ∷ ks) offset b (node key) at k
        (summed zero key es h k.1) n s h
        (λ u v us e.
          absurd (no_two prefix u v us (subst Ascending e k.0) (subst (Shares zero prefix) e k.2)))
  collect-Collects (suc levels) prefix key es at k h (q ∷ ks) offset b n s =
      found-Collects (suc levels) prefix key es _ _ (q ∷ ks) offset b (node key) at k
        (summed (suc levels) key es h k.1) n s h.0
        (λ u v us e.
          let kept = subst (Kept (suc levels) prefix) e k in
          let lefts =
            subst
              (λ (t : List Commitment).
                Holds hash_parts view levels (left_child key) (left_part (length key) t))
              e h.1 in
          let rights =
            subst
              (λ (t : List Commitment).
                Holds hash_parts view levels (right_child key) (right_part (length key) t))
              e h.2 in
          let left_kept = left-Kept levels prefix (length key) u v us (omega arith) kept in
          let right_kept = right-Kept levels prefix (length key) u v us (omega arith) kept in
          let sides : Flanks levels prefix (length key) key es = record {
            lefts = left_part (length key) (u ∷ v ∷ us);
            rights = right_part (length key) (u ∷ v ∷ us);
            entries = e ∙ sym (entries_split (split_point (length key) (u ∷ v ∷ us)) (u ∷ v ∷ us));
            left_kept = left_kept;
            right_kept = right_kept;
            left_hash =
                subst
                  (λ (i : ℕ).
                    subtree_hash hash_parts levels i (left_part (length key) (u ∷ v ∷ us))
                    ≡ some (found_summary (node (left_child key))))
                  (omega arith) (summed levels (left_child key) _ lefts left_kept.1);
            right_hash =
                subst
                  (λ (i : ℕ).
                    subtree_hash hash_parts levels i (right_part (length key) (u ∷ v ∷ us))
                    ≡ some (found_summary (node (right_child key))))
                  (omega arith) (summed levels (right_child key) _ rights right_kept.1);
          } in
          internal-Collects levels prefix (length key) key (found_summary (node key))
            (collect node levels) es sides refl (omega arith)
            (ap reference_of (
              sym (combined levels key u v us lefts rights kept.1)
              ∙ ap (subtree_hash hash_parts (suc levels) (length key)) (sym e)
              ∙ summed (suc levels) key es h k.1))
            (subst
              (λ (t : ℕ).
                Covers levels (prefix + prefix) t (left_part (length key) (u ∷ v ∷ us))
                  (found_summary (node (left_child key))) (collect node levels (left_child key)))
              (omega arith)
              (collect-Collects levels (prefix + prefix) (left_child key) _ (omega arith) left_kept
                lefts))
            (subst
              (λ (t : ℕ).
                Covers levels (prefix + prefix + 1) t (right_part (length key) (u ∷ v ∷ us))
                  (found_summary (node (right_child key))) (collect node levels (right_child key)))
              (omega arith)
              (collect-Collects levels (prefix + prefix + 1) (right_child key) _ (omega arith)
                right_kept rights))
            (q ∷ ks) offset b n s)
