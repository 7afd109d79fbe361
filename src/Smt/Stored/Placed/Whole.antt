-- ===== src/Smt/Stored/Placed/Whole.antt =====
-- core/smt/src/updater.rs, `update_subtree`: an update with no deletion, at every level.
use vprogs.Base.{
  ℕ, zero, suc, ◌+◌, ◌-◌, ◌/◌, ◌^◌, ◌≡◌, ◌≢◌, ◌≤◌, refl, sym, subst, inl, inr, List, [], ◌∷◌, true,
  false, Option, none, some, ap, ◌∙◌, length, arith, ◌==◌, Bool-cases, ==_ne,
}
use vprogs.Smt.{
  Key, Node, empty, internal, leaf, Commitment, left_child, right_child, leaf_node, empty_hash,
  depth,
}
use vprogs.Smt.Updater.{
  existing, live, resolve_live, resolve_leaves, merge_leaf, with_existing, update_at_leaf,
  replace_leaf, split_and_recurse, dispatch, past_depth, update_subtree,
}
use vprogs.Smt.Entries.{
  Live, Ascending, set_entry, set_entries, set_entries_live, set_entries-with_existing,
  with_existing-Ascending, with_existing-Live, length-set_entries,
}
use vprogs.Smt.Entries.Halves.{
  Shares, Halves, halves, take_left, drop_right, Ascending-append, with_existing-Shares,
}
use vprogs.Smt.Reference.{Stands, Holds, left_part, right_part}
use vprogs.Smt.Reference.Subtree.{Updating, Updates, view, Live-append, replace_leaf_lem, set_live}
use vprogs.Smt.Reference.Updates.{update_subtree_lem, no_two}
use vprogs.Smt.Stored.{committed}
use vprogs.Smt.Stored.Positions.{Below-child}
use vprogs.Smt.Stored.Placed.{Placed, Holds-transfer, Placed-after, Placed-unchanged}
use vprogs.Smt.Stored.Placed.Splits.{Places, same_result, split-Placed}

abbrev Two : List Commitment → Type 0
Two es = (u : Commitment) × (v : Commitment) × (us : List Commitment) × (es ≡ u ∷ v ∷ us)

Two-of : (es : List Commitment) → 2 ≤ length es → Two es
Two-of [] h = absurd (omega arith)
Two-of (u ∷ []) h = absurd (omega arith)
Two-of (u ∷ v ∷ us) h = (u, v, us, refl)

module _ (hash_parts : List ℕ → List ℕ → ℕ) (node : Key → Option (ℕ × Node)) (version : ℕ) where
  unwritten : (q : Key) → committed [] node q ≡ node q
  unfolding committed
  unwritten q = refl

  -- Nothing written, and the result at the position.
  lowest_here :
      (key : Key) (es : List Commitment) (result : Option Node)
      → Stands hash_parts zero (length key) es result
      → Placed hash_parts node version (some ([], result)) zero key es
  lowest_here key es result s =
      ([], result, refl, tt, λ g e f. subst (Stands hash_parts zero (length key) es) (sym e) s)

  Placed-here :
      (levels : ℕ) (key : Key) (es : List Commitment) (result : Option Node)
      → Stands hash_parts (suc levels) (length key) es result
      → Holds hash_parts
          (view hash_parts node version)
          levels
          (left_child key)
          (left_part (length key) es)
      → Holds hash_parts
          (view hash_parts node version)
          levels
          (right_child key)
          (right_part (length key) es)
      → Placed hash_parts node version (some ([], result)) (suc levels) key es
  Placed-here levels key es result s h k = (
    [],
    result,
    refl,
    tt,
    λ g e f. (
      subst (Stands hash_parts (suc levels) (length key) es) (sym e) s,
      Holds-transfer hash_parts node version (view hash_parts node version) g levels
          (left_child key) _ (f (left_child key) (inl refl) ∙ ap existing (unwritten _))
          (λ q d. f q (Below-child false key q d) ∙ ap existing (unwritten q)) h,
      Holds-transfer hash_parts node version (view hash_parts node version) g levels
          (right_child key) _ (f (right_child key) (inl refl) ∙ ap existing (unwritten _))
          (λ q d. f q (Below-child true key q d) ∙ ap existing (unwritten q)) k,
    ),
  )

  -- A single live commitment, into nothing and at its own leaf.
  into_nothing :
      (recurse : Updating) (key : Key) (c : Commitment)
      → c.value_hash ≢ empty_hash
      → resolve_leaves hash_parts node version recurse key (c ∷ [])
        ≡ some ([], some (leaf_node hash_parts c.key c.value_hash))
  into_nothing recurse key c h =
      rw (==_ne c.value_hash empty_hash h) (rw (==_ne c.value_hash empty_hash h))

  set_one : (c : Commitment) → c.value_hash ≢ empty_hash → set_entries [] (c ∷ []) ≡ c ∷ []
  unfolding set_entries set_entry
  set_one c h = ground arith

  set_over :
      (e c : Commitment)
      → c.key ≡ e.key
      → c.value_hash ≢ empty_hash
      → set_entries (e ∷ []) (c ∷ []) ≡ c ∷ []
  unfolding set_entries set_entry
  set_over e c k h = ground arith

  same_test : (a b : ℕ) → a ≡ b → (a == b) ≡ true
  same_test a b h = ground arith

  over_leaf :
      (levels level : ℕ) (e c : Commitment)
      → c.key ≡ e.key
      → c.value_hash ≢ empty_hash
      → Stands hash_parts levels level
          (c ∷ [])
          (replace_leaf hash_parts node version e.key c.value_hash)
  over_leaf levels level e c k h =
      subst
        (λ (t : List Commitment).
          Stands hash_parts levels level t
            (replace_leaf hash_parts node version e.key c.value_hash))
        (set_over e c k h)
        (same_result hash_parts node version levels level (set_entries (e ∷ []) (c ∷ [])) _ [] _
          refl
          (replace_leaf_lem hash_parts node version e c levels level (same_test c.key e.key k)))

  fast_leaf :
      (recurse : Updating) (key : Key) (c : Commitment) (x y : ℕ)
      → c.key ≡ x
      → update_at_leaf hash_parts node version recurse key (c ∷ []) x y
        ≡ some ([], replace_leaf hash_parts node version x c.value_hash)
  unfolding update_at_leaf
  fast_leaf recurse key c x y h = rw (same_test c.key x h)

  general_leaf :
      (recurse : Updating) (key : Key) (c : Commitment) (x y : ℕ)
      → (c.key == x) ≡ false
      → update_at_leaf hash_parts node version recurse key (c ∷ []) x y
        ≡ merge_leaf hash_parts node version recurse key (c ∷ []) x y
  unfolding update_at_leaf
  general_leaf recurse key c x y h = rw h

  lowest-Placed :
      (prefix : ℕ) (key : Key) (es : List Commitment) (c : Commitment) (found : Option (ℕ × Node))
      → Ascending es
      → Live es
      → Shares zero prefix es
      → c.key / 2 ^ zero ≡ prefix
      → c.value_hash ≢ empty_hash
      → Stands hash_parts zero (length key) es (existing found)
      → Placed hash_parts node version
          (dispatch hash_parts node version past_depth key (c ∷ []) found)
          zero
          key
          (set_entries es (c ∷ []))
  lowest-Placed prefix key (e ∷ f ∷ es) c found a l s t n st = absurd (no_two prefix e f es a s)
  lowest-Placed prefix key [] c none a l s t n st =
      rw (set_one c n, into_nothing past_depth key c n) (lowest_here key (c ∷ []) _ refl)
  lowest-Placed prefix key [] c (some (v, empty)) a l s t n st =
      rw (set_one c n, into_nothing past_depth key c n)
        (Placed-after hash_parts node version zero key (c ∷ []) _ (lowest_here key (c ∷ []) _ refl))
  lowest-Placed prefix key [] c (some (v, internal x)) a l s t n st = cc
  lowest-Placed prefix key [] c (some (v, leaf x y z)) a l s t n st = cc
  lowest-Placed prefix key (e ∷ []) c none a l s t n st = cc
  lowest-Placed prefix key (e ∷ []) c (some (v, empty)) a l s t n st = cc
  lowest-Placed prefix key (e ∷ []) c (some (v, internal x)) a l s t n st = cc
  lowest-Placed prefix key (e ∷ []) c (some (v, leaf x y z)) a l s t n st =
      let p : x ≡ e.key = cc in
      let k : c.key ≡ e.key = omega arith in
      rw (p, set_over e c k n, fast_leaf past_depth key c e.key y k)
        (Placed-after hash_parts node version zero key (c ∷ []) _
          (lowest_here key (c ∷ []) _ (over_leaf zero (length key) e c k n)))

  module _ (update : Updating) (levels : ℕ) (key : Key) (at : 255 - length key ≡ levels)
      (on_left : Updates hash_parts node version update levels (left_child key))
      (on_right : Updates hash_parts node version update levels (right_child key))
      (put_left : Places hash_parts node version update levels (left_child key))
      (put_right : Places hash_parts node version update levels (right_child key)) where
    abbrev Vacant : Key → Type 0
    Vacant child = Holds hash_parts (view hash_parts node version) levels child []

    resolve_live-Placed :
        (prefix : ℕ) (cs us : List Commitment)
        → Ascending cs
        → Live cs
        → Shares (suc levels) prefix cs
        → Vacant (left_child key)
        → Vacant (right_child key)
        → live cs ≡ us
        → Placed hash_parts node version
            (resolve_live hash_parts node version update key cs us)
            (suc levels)
            key
            us
    resolve_live-Placed prefix cs [] a l s h k e = Placed-here levels key [] _ refl h k
    resolve_live-Placed prefix cs (x ∷ []) a l s h k e = Placed-here levels key (x ∷ []) _ refl h k
    resolve_live-Placed prefix cs (x ∷ y ∷ us) a l s h k e =
        split-Placed hash_parts node version update levels key at on_left on_right put_left
          put_right prefix [] [] cs x y us tt tt tt tt tt tt a l s h k (set_entries_live cs a ∙ e)

    resolve-Placed :
        (prefix : ℕ) (cs : List Commitment)
        → Ascending cs
        → Live cs
        → Shares (suc levels) prefix cs
        → Vacant (left_child key)
        → Vacant (right_child key)
        → Placed hash_parts node version
            (resolve_leaves hash_parts node version update key cs)
            (suc levels)
            key
            (set_entries [] cs)
    resolve-Placed prefix cs a l s h k =
        rw (set_entries_live cs a) (resolve_live-Placed prefix cs (live cs) a l s h k refl)

    merge-Placed :
        (prefix : ℕ) (e : Commitment) (cs : List Commitment)
        → e.value_hash ≢ empty_hash
        → e.key / 2 ^ suc levels ≡ prefix
        → Ascending cs
        → Live cs
        → Shares (suc levels) prefix cs
        → Vacant (left_child key)
        → Vacant (right_child key)
        → Placed hash_parts node version
            (merge_leaf hash_parts node version update key cs e.key e.value_hash)
            (suc levels)
            key
            (set_entries (e ∷ []) cs)
    merge-Placed prefix e cs n p a l s h k =
        subst
          (Placed hash_parts node version
            (merge_leaf hash_parts node version update key cs e.key e.value_hash) (suc levels) key)
          (sym (set_entries-with_existing [] cs e.key e.value_hash tt)
            ∙ ap (λ (t : List Commitment). set_entries t cs) (set_live hash_parts node version e n))
          (resolve-Placed prefix (with_existing cs e.key e.value_hash)
            (with_existing-Ascending cs e.key e.value_hash a)
            (with_existing-Live cs e.key e.value_hash n l)
            (with_existing-Shares (suc levels) prefix cs e.key e.value_hash p s) h k)

    leaf-Placed :
        (prefix : ℕ) (e c : Commitment) (cs : List Commitment)
        → e.value_hash ≢ empty_hash
        → e.key / 2 ^ suc levels ≡ prefix
        → Ascending (c ∷ cs)
        → Live (c ∷ cs)
        → Shares (suc levels) prefix (c ∷ cs)
        → Vacant (left_child key)
        → Vacant (right_child key)
        → Placed hash_parts node version
            (update_at_leaf hash_parts node version update key (c ∷ cs) e.key e.value_hash)
            (suc levels)
            key
            (set_entries (e ∷ []) (c ∷ cs))
    leaf-Placed prefix e c (d ∷ cs) n p a l s h k =
        unfold update_at_leaf in merge-Placed prefix e (c ∷ d ∷ cs) n p a l s h k
    leaf-Placed prefix e c [] n p a l s h k = elim (Bool-cases (c.key == e.key)) [
      | inl same ↦
          let q : c.key ≡ e.key = ground (arith, same) in
          rw (set_over e c q l.0, fast_leaf update key c e.key e.value_hash q)
            (Placed-here levels key (c ∷ []) _ (over_leaf (suc levels) (length key) e c q l.0) h k)
      | inr apart ↦
          rw (general_leaf update key c e.key e.value_hash apart)
            (merge-Placed prefix e (c ∷ []) n p a l s h k)
    ]

    dispatch-Placed :
        (prefix : ℕ) (es : List Commitment) (c : Commitment) (cs : List Commitment)
        (found : Option (ℕ × Node))
        → Ascending es
        → Live es
        → Shares (suc levels) prefix es
        → Ascending (c ∷ cs)
        → Live (c ∷ cs)
        → Shares (suc levels) prefix (c ∷ cs)
        → Stands hash_parts (suc levels) (length key) es (existing found)
        → Holds hash_parts
            (view hash_parts node version)
            levels
            (left_child key)
            (left_part (length key) es)
        → Holds hash_parts
            (view hash_parts node version)
            levels
            (right_child key)
            (right_part (length key) es)
        → Placed hash_parts node version
            (dispatch hash_parts node version update key (c ∷ cs) found)
            (suc levels)
            key
            (set_entries es (c ∷ cs))
    dispatch-Placed prefix [] c cs none a l s b m t st h k =
        resolve-Placed prefix (c ∷ cs) b m t h k
    dispatch-Placed prefix [] c cs (some (v, empty)) a l s b m t st h k =
        Placed-after hash_parts node version (suc levels) key _ _
          (resolve-Placed prefix (c ∷ cs) b m t h k)
    dispatch-Placed prefix [] c cs (some (v, internal x)) a l s b m t st h k = cc
    dispatch-Placed prefix [] c cs (some (v, leaf x y z)) a l s b m t st h k = cc
    dispatch-Placed prefix (e ∷ []) c cs none a l s b m t st h k = cc
    dispatch-Placed prefix (e ∷ []) c cs (some (v, empty)) a l s b m t st h k = cc
    dispatch-Placed prefix (e ∷ []) c cs (some (v, internal x)) a l s b m t st h k = cc
    dispatch-Placed prefix (e ∷ []) c cs (some (v, leaf x y z)) a l s b m t st h k =
        let p : x ≡ e.key = cc in
        let q : y ≡ e.value_hash = cc in
        rw (p, q)
          (Placed-after hash_parts node version (suc levels) key _ _
            (leaf-Placed prefix e c cs l.0 s.0 b m t h k))
    dispatch-Placed prefix (e ∷ f ∷ es) c cs none a l s b m t st h k = absurd (cc st.1)
    dispatch-Placed prefix (e ∷ f ∷ es) c cs (some (v, empty)) a l s b m t st h k = absurd (cc st.1)
    dispatch-Placed prefix (e ∷ f ∷ es) c cs (some (v, leaf x y z)) a l s b m t st h k =
        absurd (cc st.1)
    dispatch-Placed prefix (e ∷ f ∷ es) c cs (some (v, internal x)) a l s b m t st h k =
        Placed-after hash_parts node version (suc levels) key _ _ (
          go (halves levels prefix (e ∷ f ∷ es) a s) (
            Two-of (set_entries (e ∷ f ∷ es) (c ∷ cs))
              (omega (arith, length-set_entries (e ∷ f ∷ es) (c ∷ cs) m))))
      where
        go :
            Halves levels prefix (e ∷ f ∷ es)
            → Two (set_entries (e ∷ f ∷ es) (c ∷ cs))
            → Placed hash_parts node version
                (split_and_recurse hash_parts node version update key (c ∷ cs))
                (suc levels)
                key
                (set_entries (e ∷ f ∷ es) (c ∷ cs))
        go p (u, w, us, whole) = rw whole (
            split-Placed hash_parts node version update levels key at on_left on_right put_left
              put_right prefix p.left p.right (c ∷ cs) u w us ascending.0 ascending.1 lives.0
              lives.1 p.left_shares p.right_shares b m t
              (subst (Holds hash_parts (view hash_parts node version) levels (left_child key))
                (take_left levels prefix (length key) at (e ∷ f ∷ es) p) h)
              (subst (Holds hash_parts (view hash_parts node version) levels (right_child key))
                (drop_right levels prefix (length key) at (e ∷ f ∷ es) p) k)
              (ap (λ (r : List Commitment). set_entries r (c ∷ cs)) (sym p.parts) ∙ whole))
          where
            ascending : Ascending p.left × Ascending p.right
            ascending = Ascending-append p.left p.right (subst Ascending p.parts a)

            lives : Live p.left × Live p.right
            lives = Live-append p.left p.right (subst Live p.parts l)

  -- An update of a subtree with no deletion leaves a tree that holds the new entries.
  pub update_subtree-Placed :
      (levels : ℕ) (key : Key)
      → levels + length key ≡ depth
      → Places hash_parts node version (update_subtree hash_parts node version levels) levels key
  unfolding update_subtree set_entries
  update_subtree-Placed zero key at prefix es [] a l s b m t h =
      Placed-unchanged hash_parts node version zero key es h
  update_subtree-Placed zero key at prefix es (c ∷ []) a l s b m t h =
      lowest-Placed prefix key es c (node key) a l s t.0 m.0 h
  update_subtree-Placed zero key at prefix es (c ∷ d ∷ cs) a l s b m t h =
      absurd (no_two prefix c d cs b t)
  update_subtree-Placed (suc levels) key at prefix es [] a l s b m t h =
      Placed-unchanged hash_parts node version (suc levels) key es h
  update_subtree-Placed (suc levels) key at prefix es (c ∷ cs) a l s b m t h =
      dispatch-Placed (update_subtree hash_parts node version levels) levels key (omega arith)
        (update_subtree_lem hash_parts node version levels (left_child key) (omega arith))
        (update_subtree_lem hash_parts node version levels (right_child key) (omega arith))
        (update_subtree-Placed levels (left_child key) (omega arith))
        (update_subtree-Placed levels (right_child key) (omega arith)) prefix es c cs (node key) a l
        s b m t h.0 h.1 h.2
