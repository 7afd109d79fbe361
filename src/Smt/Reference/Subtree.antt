-- ===== src/Smt/Reference/Subtree.antt =====
-- core/smt/src/updater.rs: `split_and_recurse`, `resolve_leaves` and `update_at_leaf` over children that
-- are updated as they ought to be.
use vprogs.Base.{
  ℕ, suc, ◌+◌, ◌-◌, ◌/◌, ◌^◌, ◌≡◌, ◌≢◌, refl, sym, ap, ap₂, ◌∙◌, subst, inl, inr, List, [], ◌∷◌,
  ◌++◌, true, Option, none, some, length, arith, and_then, ◌==◌, Bool-cases,
}
use vprogs.Smt.{
  Key, leaf_kind, Node, empty, internal, leaf, Commitment, empty_hash, left_child, right_child,
}
use vprogs.Smt.Updater.{
  Write, Outcome, after, live, existing, join, split_and_recurse, resolve_live, resolve_leaves,
  update_at_leaf, merge_leaf, replace_leaf, with_existing, mark_stale, dispatch,
}
use vprogs.Smt.Entries.{
  Live, Ascending, set_entry, set_entries, set_entry_at, set_entries_live,
  set_entries-with_existing, with_existing-Ascending, set_entries-Live,
}
use vprogs.Smt.Entries.Halves.{
  Shares, Halves, halves, set_entries_halves, Ascending-append, with_existing-Shares,
  set_entries-Shares, take_left, drop_right,
}
use vprogs.Smt.Reference.{Stands, Holds, Yields, left_part, right_part}
use vprogs.Smt.Reference.Joined.{join-Yields}

abbrev pub Updating : Type 0
Updating = Key → List Commitment → Outcome

pub Live-append : (es fs : List Commitment) → Live (es ++ fs) → Live es × Live fs
Live-append [] fs l = (tt, l)
Live-append (e ∷ es) fs l = ((l.0, (Live-append es fs l.1).0), (Live-append es fs l.1).1)

module _ (hash_parts : List ℕ → List ℕ → ℕ) (node : Key → Option (ℕ × Node)) (version : ℕ) where
  abbrev pub view : Key → Option Node
  view key = existing (node key)

  -- An update of the subtree at a position gives the node of the entries with the commitments set.
  abbrev pub Updates : Updating → ℕ → Key → Type 0
  Updates update levels key =
      (prefix : ℕ) (es cs : List Commitment)
      → Ascending es
      → Live es
      → Shares levels prefix es
      → Ascending cs
      → Shares levels prefix cs
      → Holds hash_parts view levels key es
      → Yields hash_parts (update key cs) levels (length key) (set_entries es cs)

  pub after-Yields :
      (levels level : ℕ) (es : List Commitment) (earlier : List Write) (outcome : Outcome)
      → Yields hash_parts outcome levels level es
      → Yields hash_parts (after earlier outcome) levels level es
  after-Yields levels level es earlier outcome (w, n, e, s) = (_, n, ap (after earlier) e, s)

  pub set_live :
      (e : Commitment)
      → e.value_hash ≢ empty_hash
      → set_entry (record { key = e.key; value_hash = e.value_hash }) [] ≡ e ∷ []
  unfolding set_entry
  set_live e l = ground arith

  -- The fast path at a leaf.
  pub replace_leaf_lem :
      (e c : Commitment) (levels level : ℕ)
      → (c.key == e.key) ≡ true
      → Yields hash_parts
          (some ([], replace_leaf hash_parts node version e.key c.value_hash))
          levels
          level
          (set_entries (e ∷ []) (c ∷ []))
  unfolding set_entries
  replace_leaf_lem e c levels level same =
      let key : c.key ≡ e.key = ground (arith, same) in
      rw (set_entry_at c e [] key) (elim (Bool-cases (c.value_hash == empty_hash)) [
        | inl gone ↦ rw gone (_, _, refl, refl)
        | inr kept ↦ rw kept (
          _,
          _,
          refl,
          rw kept (
              ap
                (λ (k : ℕ).
                  some (leaf k c.value_hash (hash_parts (leaf_kind ∷ []) (k ∷ c.value_hash ∷ []))))
                (sym key)),
        )
      ])

  module _ (update : Updating) (levels : ℕ) (key : Key) (at : 255 - length key ≡ levels)
      (on_left : Updates update levels (left_child key))
      (on_right : Updates update levels (right_child key)) where
    -- What both children return, joined.
    pub split_joins :
        (prefix : ℕ) (cs : List Commitment) (p : Halves levels prefix cs) (lw rw' : List Write)
        (left right : Option Node)
        → update (left_child key) p.left ≡ some (lw, left)
        → update (right_child key) p.right ≡ some (rw', right)
        → split_and_recurse hash_parts node version update key cs
          ≡ join hash_parts node version key (lw ++ rw') left right
    unfolding split_and_recurse
    split_joins prefix cs p lw rw' left right le re =
        ap₂
          (λ (x y : Outcome). and_then x λ (left_writes, left). and_then y λ (right_writes, right).
            join hash_parts node version key (left_writes ++ right_writes) left right)
          (ap (update (left_child key)) (take_left levels prefix (length key) at cs p) ∙ le)
          (ap (update (right_child key)) (drop_right levels prefix (length key) at cs p) ∙ re)

    pub split_lem :
        (prefix : ℕ) (es fs cs : List Commitment)
        → Ascending es
        → Ascending fs
        → Live es
        → Live fs
        → Shares levels (prefix + prefix) es
        → Shares levels (prefix + prefix + 1) fs
        → Ascending cs
        → Shares (suc levels) prefix cs
        → Holds hash_parts view levels (left_child key) es
        → Holds hash_parts view levels (right_child key) fs
        → Yields hash_parts
            (split_and_recurse hash_parts node version update key cs)
            (suc levels)
            (length key)
            (set_entries (es ++ fs) cs)
    split_lem prefix es fs cs a b l m s t c u h k = go (halves levels prefix cs c u)
      where
        go :
            Halves levels prefix cs
            → Yields hash_parts
                (split_and_recurse hash_parts node version update key cs)
                (suc levels)
                (length key)
                (set_entries (es ++ fs) cs)
        go p =
            joined
              (on_left (prefix + prefix) es p.left a l s
                (Ascending-append p.left p.right ascending).0 p.left_shares h)
              (on_right (prefix + prefix + 1) fs p.right b m t
                (Ascending-append p.left p.right ascending).1 p.right_shares k)
          where
            ascending : Ascending (p.left ++ p.right)
            ascending = subst Ascending p.parts c

            set : set_entries (es ++ fs) cs ≡ set_entries es p.left ++ set_entries fs p.right
            set =
                ap (set_entries (es ++ fs)) p.parts
                ∙ set_entries_halves levels prefix es fs p.left p.right s t p.left_shares
                    p.right_shares

            joined :
                Yields hash_parts
                  (update (left_child key) p.left)
                  levels
                  (suc (length key))
                  (set_entries es p.left)
                → Yields hash_parts
                    (update (right_child key) p.right)
                    levels
                    (suc (length key))
                    (set_entries fs p.right)
                → Yields hash_parts
                    (split_and_recurse hash_parts node version update key cs)
                    (suc levels)
                    (length key)
                    (set_entries (es ++ fs) cs)
            joined (lw, left, le, ls) (rw', right, re, rs) =
                subst
                  (λ (t : List Commitment).
                    Yields hash_parts (split_and_recurse hash_parts node version update key cs)
                      (suc levels) (length key) t)
                  (sym set)
                  (subst
                    (λ (o : Outcome).
                      Yields hash_parts o (suc levels) (length key)
                        (set_entries es p.left ++ set_entries fs p.right))
                    (sym (split_joins prefix cs p lw rw' left right le re))
                    (join-Yields hash_parts node version key (lw ++ rw') levels prefix (length key)
                      at (set_entries es p.left) (set_entries fs p.right) left right
                      (set_entries-Shares levels (prefix + prefix) es p.left s p.left_shares)
                      (set_entries-Shares levels (prefix + prefix + 1) fs p.right t p.right_shares)
                      (set_entries-Live es p.left l) (set_entries-Live fs p.right m) ls rs))

    -- In an empty subtree.
    resolve_live_lem :
        (prefix : ℕ) (cs us : List Commitment)
        → Ascending cs
        → Shares (suc levels) prefix cs
        → Holds hash_parts view levels (left_child key) []
        → Holds hash_parts view levels (right_child key) []
        → live cs ≡ us
        → Yields hash_parts
            (resolve_live hash_parts node version update key cs us)
            (suc levels)
            (length key)
            us
    resolve_live_lem prefix cs [] a s h k e = (_, _, refl, refl)
    resolve_live_lem prefix cs (x ∷ []) a s h k e = (_, _, refl, refl)
    resolve_live_lem prefix cs (x ∷ y ∷ us) a s h k e =
        subst
          (λ (t : List Commitment).
            Yields hash_parts (split_and_recurse hash_parts node version update key cs) (suc levels)
              (length key) t)
          (set_entries_live cs a ∙ e) (split_lem prefix [] [] cs tt tt tt tt tt tt a s h k)

    pub resolve_leaves_lem :
        (prefix : ℕ) (cs : List Commitment)
        → Ascending cs
        → Shares (suc levels) prefix cs
        → Holds hash_parts view levels (left_child key) []
        → Holds hash_parts view levels (right_child key) []
        → Yields hash_parts
            (resolve_leaves hash_parts node version update key cs)
            (suc levels)
            (length key)
            (set_entries [] cs)
    resolve_leaves_lem prefix cs a s h k =
        rw (set_entries_live cs a) (resolve_live_lem prefix cs (live cs) a s h k refl)

    -- At a leaf, in the general case.
    merge_leaf_lem :
        (prefix : ℕ) (e : Commitment) (cs : List Commitment)
        → e.value_hash ≢ empty_hash
        → e.key / 2 ^ suc levels ≡ prefix
        → Ascending cs
        → Shares (suc levels) prefix cs
        → Holds hash_parts view levels (left_child key) []
        → Holds hash_parts view levels (right_child key) []
        → Yields hash_parts
            (merge_leaf hash_parts node version update key cs e.key e.value_hash)
            (suc levels)
            (length key)
            (set_entries (e ∷ []) cs)
    merge_leaf_lem prefix e cs l p a s h k =
        subst
          (λ (t : List Commitment).
            Yields hash_parts (merge_leaf hash_parts node version update key cs e.key e.value_hash)
              (suc levels) (length key) t)
          (sym (set_entries-with_existing [] cs e.key e.value_hash tt)
            ∙ ap (λ (t : List Commitment). set_entries t cs) (set_live e l))
          (resolve_leaves_lem prefix (with_existing cs e.key e.value_hash)
            (with_existing-Ascending cs e.key e.value_hash a)
            (with_existing-Shares (suc levels) prefix cs e.key e.value_hash p s) h k)

    update_at_leaf_lem :
        (prefix : ℕ) (e : Commitment) (cs : List Commitment)
        → e.value_hash ≢ empty_hash
        → e.key / 2 ^ suc levels ≡ prefix
        → Ascending cs
        → Shares (suc levels) prefix cs
        → Holds hash_parts view levels (left_child key) []
        → Holds hash_parts view levels (right_child key) []
        → Yields hash_parts
            (update_at_leaf hash_parts node version update key cs e.key e.value_hash)
            (suc levels)
            (length key)
            (set_entries (e ∷ []) cs)
    unfolding update_at_leaf
    update_at_leaf_lem prefix e [] l p a s h k = merge_leaf_lem prefix e [] l p a s h k
    update_at_leaf_lem prefix e (c ∷ []) l p a s h k = elim (Bool-cases (c.key == e.key)) [
      | inl same ↦ rw same (replace_leaf_lem e c (suc levels) (length key) same)
      | inr apart ↦ rw apart (merge_leaf_lem prefix e (c ∷ []) l p a s h k)
    ]
    update_at_leaf_lem prefix e (c ∷ d ∷ cs) l p a s h k =
        merge_leaf_lem prefix e (c ∷ d ∷ cs) l p a s h k

    pub dispatch_lem :
        (prefix : ℕ) (es cs : List Commitment) (found : Option (ℕ × Node))
        → Ascending es
        → Live es
        → Shares (suc levels) prefix es
        → Ascending cs
        → Shares (suc levels) prefix cs
        → Stands hash_parts (suc levels) (length key) es (existing found)
        → Holds hash_parts view levels (left_child key) (left_part (length key) es)
        → Holds hash_parts view levels (right_child key) (right_part (length key) es)
        → Yields hash_parts
            (dispatch hash_parts node version update key cs found)
            (suc levels)
            (length key)
            (set_entries es cs)
    dispatch_lem prefix [] cs none a l s b t st h k = resolve_leaves_lem prefix cs b t h k
    dispatch_lem prefix [] cs (some (v, empty)) a l s b t st h k =
        after-Yields _ _ _ (mark_stale hash_parts node version key) _
          (resolve_leaves_lem prefix cs b t h k)
    dispatch_lem prefix [] cs (some (v, internal x)) a l s b t st h k = cc
    dispatch_lem prefix [] cs (some (v, leaf x y z)) a l s b t st h k = cc
    dispatch_lem prefix (e ∷ []) cs none a l s b t st h k = cc
    dispatch_lem prefix (e ∷ []) cs (some (v, empty)) a l s b t st h k = cc
    dispatch_lem prefix (e ∷ []) cs (some (v, internal x)) a l s b t st h k = cc
    dispatch_lem prefix (e ∷ []) cs (some (v, leaf x y z)) a l s b t st h k =
        let p : x ≡ e.key = cc in
        let q : y ≡ e.value_hash = cc in
        rw (p, q)
          (after-Yields _ _ _ (mark_stale hash_parts node version key) _
            (update_at_leaf_lem prefix e cs l.0 s.0 b t h k))
    dispatch_lem prefix (e ∷ f ∷ es) cs none a l s b t st h k = absurd (cc st.1)
    dispatch_lem prefix (e ∷ f ∷ es) cs (some (v, empty)) a l s b t st h k = absurd (cc st.1)
    dispatch_lem prefix (e ∷ f ∷ es) cs (some (v, leaf x y z)) a l s b t st h k = absurd (cc st.1)
    dispatch_lem prefix (e ∷ f ∷ es) cs (some (v, internal x)) a l s b t st h k =
        after-Yields _ _ _ (mark_stale hash_parts node version key) _
          (go (halves levels prefix (e ∷ f ∷ es) a s))
      where
        go :
            Halves levels prefix (e ∷ f ∷ es)
            → Yields hash_parts
                (split_and_recurse hash_parts node version update key cs)
                (suc levels)
                (length key)
                (set_entries (e ∷ f ∷ es) cs)
        go p =
            subst
              (λ (u : List Commitment).
                Yields hash_parts (split_and_recurse hash_parts node version update key cs)
                  (suc levels) (length key) (set_entries u cs))
              (sym p.parts)
              (split_lem prefix p.left p.right cs ascending.0 ascending.1 lives.0 lives.1
                p.left_shares p.right_shares b t
                (subst (Holds hash_parts view levels (left_child key)) lefts h)
                (subst (Holds hash_parts view levels (right_child key)) rights k))
          where
            ascending : Ascending p.left × Ascending p.right
            ascending = Ascending-append p.left p.right (subst Ascending p.parts a)

            lives : Live p.left × Live p.right
            lives = Live-append p.left p.right (subst Live p.parts l)

            lefts : left_part (length key) (e ∷ f ∷ es) ≡ p.left
            lefts = take_left levels prefix (length key) at (e ∷ f ∷ es) p

            rights : right_part (length key) (e ∷ f ∷ es) ≡ p.right
            rights = drop_right levels prefix (length key) at (e ∷ f ∷ es) p
