-- ===== src/Smt/Proving/Walk.antt =====
-- core/smt/src/proving/traversal.rs: what a walk of a laid-out proof gives.
use vprogs.Base.{
  ℕ, zero, suc, ◌+◌, ◌-◌, ◌/◌, ◌^◌, ◌<◌, ◌≤◌, ◌≡◌, refl, sym, subst, ap, ap₂, ◌∙◌, inl, inr, List,
  [], ◌∷◌, ◌++◌, Bool, true, false, not, Option, none, some, arith, ltb, ◌==◌, get_elem?, length,
  length-append, ==_ne, Bool-cases,
}
use vprogs.Smt.{HashedNode, empty_node, hashed_leaf, combine, get_msb, depth}
use vprogs.Smt.Entries.Halves.{Shares, split_point_lem, get_msb-left, get_msb-right}
use vprogs.Smt.Proving.Traversal.{
  Leaf, Proof, Cursor, at_shortcut_depth, terminal_value, leaves_split_point, leaf_goes_left,
  combine_with_sibling, walk_with, leaf_hash, walk,
}
use vprogs.Smt.Proving.Shape.{
  Tip, Shape, tip, fork, side, tips, sibs, bits, tip_entries, Fitting, At, AtBits, AtTips,
  At-append, AtBits-append, AtTips-append, resolve_all-tips, tip_entries-append, length-tip_entries,
  Fitting-Shares,
}

abbrev pub Deeper : ℕ → List Tip → Type 0
Deeper level [] = Unit
Deeper level (t ∷ ts) = (level < t.depth) × Deeper level ts

pub Deeper-append :
    (level : ℕ) (ts us : List Tip) → Deeper level ts → Deeper level us → Deeper level (ts ++ us)
Deeper-append level [] us d e = e
Deeper-append level (t ∷ ts) us d e = (d.0, Deeper-append level ts us d.1 e)

pub Fitting-Deeper :
    (levels prefix level above : ℕ) (s : Shape)
    → above < level
    → Fitting levels prefix level s
    → Deeper above (tips s)
Fitting-Deeper levels prefix level above (tip t) h f = (omega (arith, f.0), tt)
Fitting-Deeper zero prefix level above (fork l r) h f = absurd f
Fitting-Deeper (suc levels) prefix level above (fork l r) h f =
    Deeper-append above (tips l) (tips r)
      (Fitting-Deeper levels (prefix + prefix) (level + 1) above l (omega arith) f.0)
      (Fitting-Deeper levels (prefix + prefix + 1) (level + 1) above r (omega arith) f.1)
Fitting-Deeper zero prefix level above (side b x s) h f = absurd f
Fitting-Deeper (suc levels) prefix level above (side true x s) h f =
    Fitting-Deeper levels (prefix + prefix) (level + 1) above s (omega arith) f
Fitting-Deeper (suc levels) prefix level above (side false x s) h f =
    Fitting-Deeper levels (prefix + prefix + 1) (level + 1) above s (omega arith) f

pub some_tip : (s : Shape) → 0 < length (tips s)
some_tip (tip t) = omega arith
some_tip (fork l r) = omega (arith, length-append (tips l) (tips r), some_tip l)
some_tip (side b x s) = some_tip s

abbrev hash_or_empty : Option HashedNode → HashedNode
hash_or_empty none = empty_node
hash_or_empty (some h) = h

module _ (hash_parts : List ℕ → List ℕ → ℕ) where
  -- The hash of the tree that the proof lays out.
  abbrev pub shape_hash : Shape → HashedNode
  shape_hash (tip t) = hashed_leaf hash_parts t.entry.key t.entry.value_hash
  shape_hash (fork l r) = combine hash_parts (shape_hash l) (shape_hash r)
  shape_hash (side true x s) = combine hash_parts (shape_hash s) x
  shape_hash (side false x s) = combine hash_parts x (shape_hash s)

  module _ (p : Proof) where
    past :
        (start end level : ℕ) (leaf : Leaf)
        → end ≡ start + 1
        → get_elem? p.leaves start ≡ some leaf
        → ltb leaf.depth level ≡ false
        → at_shortcut_depth hash_parts p start end level ≡ some (level == leaf.depth)
    past start end level leaf e f h = rw (one, f, h) refl
      where
        one : ((end - start) == 1) ≡ true
        one = ground (arith, e)

    splits :
        (levels prefix level start end : ℕ) (l r : Shape)
        → 255 - level ≡ levels
        → Fitting levels (prefix + prefix) (level + 1) l
        → Fitting levels (prefix + prefix + 1) (level + 1) r
        → end ≡ start + length (tips l ++ tips r)
        → AtTips p start (tips l ++ tips r)
        → leaves_split_point hash_parts p start end level ≡ some (start + length (tips l))
    splits levels prefix level start end l r at f g e h =
        rw
          (
            span,
            resolve_all-tips p start (tips l ++ tips r) h,
            tip_entries-append (tips l) (tips r),
            split_point_lem levels prefix level at (tip_entries (tips l)) (tip_entries (tips r))
                (Fitting-Shares levels (prefix + prefix) (level + 1) l f)
                (Fitting-Shares levels (prefix + prefix + 1) (level + 1) r g),
            length-tip_entries (tips l),
          )
          refl
      where
        span : end - start ≡ length (tips l ++ tips r)
        span = omega (arith, e)

    turns :
        (levels prefix level start : ℕ) (goes_left : Bool) (ts : List Tip)
        → ((k : ℕ) → k / 2 ^ levels ≡ prefix → get_msb k level ≡ not goes_left)
        → 0 < length ts
        → Shares levels prefix (tip_entries ts)
        → AtTips p start ts
        → leaf_goes_left hash_parts p start level ≡ some goes_left
    turns levels prefix level start goes_left [] bit n s h = absurd (omega arith)
    turns levels prefix level start goes_left (t ∷ ts) bit n s (leaf, f, g, r, h) =
        rw (f, r, bit t.entry.key s.0) (ap some (twice goes_left))
      where
        twice : (b : Bool) → not (not b) ≡ b
        twice true = refl
        twice false = refl

    module _ {T : Type 0} (leaf_hash_fn : ℕ → Option T) (empty : T) (both : T → T → T)
        (aside : T → HashedNode → Bool → T) (value : ℕ → T) where
      -- The leaves at `start..start + count` have the values.
      abbrev pub Valued : ℕ → ℕ → Type 0
      Valued start count = (i : ℕ) → start ≤ i → i < start + count → leaf_hash_fn i ≡ some (value i)

      -- What the tree joins the values to, where its first leaf is at the index.
      abbrev pub shape_value : ℕ → Shape → T
      shape_value start (tip t) = value start
      shape_value start (fork l r) =
          both (shape_value start l) (shape_value (start + length (tips l)) r)
      shape_value start (side b x s) = aside (shape_value start s) x b

      stops :
          (start end level : ℕ) (t : Tip)
          → end ≡ start + 1
          → t.depth ≡ level
          → AtTips p start (t ∷ [])
          → leaf_hash_fn start ≡ some (value start)
          → terminal_value hash_parts p leaf_hash_fn start end level empty
            ≡ some (some (value start))
      stops start end level t e d (leaf, f, g, r, h) v =
          rw
            (
              ==_ne start end (λ k. omega (arith, k, e)),
              past start end level leaf e f (ground (arith, d, g)),
              here,
              v,
            )
            refl
        where
          here : (level == leaf.depth) ≡ true
          here = ground (arith, d, g)

      goes_on :
          (start end level : ℕ) (ts : List Tip)
          → end ≡ start + length ts
          → 0 < length ts
          → Deeper level ts
          → AtTips p start ts
          → terminal_value hash_parts p leaf_hash_fn start end level empty ≡ some none
      goes_on start end level [] e n d h = absurd (omega arith)
      goes_on start end level (t ∷ u ∷ us) e n d h =
          rw
            (
              ==_ne start end (λ k. omega (arith, k, e)),
              ==_ne (end - start) 1 (λ k. omega (arith, k, e)),
            )
            refl
      goes_on start end level (t ∷ []) e n d (leaf, f, g, r, h) =
          rw
            (
              ==_ne start end (λ k. omega (arith, k, e)),
              past start end level leaf e f (ground (arith, d.0, g)),
              above,
            )
            refl
        where
          above : (level == leaf.depth) ≡ false
          above = ground (arith, d.0, g)

      abbrev Walks : ℕ → ℕ → ℕ → Shape → Type 0
      Walks levels prefix level s =
          (start end sib topo : ℕ)
          → end ≡ start + length (tips s)
          → AtTips p start (tips s)
          → Valued start (length (tips s))
          → At p.siblings sib (sibs s)
          → AtBits p.topology topo (bits s)
          → walk_with hash_parts p leaf_hash_fn empty both aside levels start end level
              (record { sibling_idx = sib; topo_bit = topo })
            ≡ some (
              shape_value start s,
              record { sibling_idx = sib + length (sibs s); topo_bit = topo + length (bits s) },
            )

      abbrev arrival : T → ℕ → ℕ → Option (T × Cursor)
      arrival h i j = some (h, record { sibling_idx = i; topo_bit = j })

      arrives : (h : T) (i j m n : ℕ) → i ≡ m → j ≡ n → arrival h i j ≡ arrival h m n
      arrives h i j m n e f = ap₂ (arrival h) e f

      walk_fork :
          (levels prefix level : ℕ) (l r : Shape)
          → 255 - level ≡ levels
          → Fitting levels (prefix + prefix) (level + 1) l
          → Fitting levels (prefix + prefix + 1) (level + 1) r
          → Walks levels (prefix + prefix) (level + 1) l
          → Walks levels (prefix + prefix + 1) (level + 1) r
          → Walks (suc levels) prefix level (fork l r)
      unfolding walk_with
      walk_fork levels prefix level l r at f g on_left on_right start end sib topo e h v s b =
          let (left_tips, right_tips) = AtTips-append p start (tips l) (tips r) h in
          let (left_sibs, right_sibs) = At-append p.siblings sib (sibs l) (sibs r) s in
          let (left_bits, right_bits) = AtBits-append p.topology (suc topo) (bits l) (bits r) b.1 in
          rw
            (
              goes_on start end level (tips l ++ tips r) e (some_tip (fork l r))
                  (Deeper-append level (tips l) (tips r)
                    (Fitting-Deeper levels (prefix + prefix) (level + 1) level l (omega arith) f)
                    (Fitting-Deeper levels (prefix + prefix + 1) (level + 1) level r (omega arith)
                      g))
                  h,
              b.0,
              splits levels prefix level start end l r at f g e h,
              on_left start (start + length (tips l)) sib (topo + 1) refl left_tips
                  (λ i m n. v i m (omega (arith, n, length-append (tips l) (tips r)))) left_sibs
                  (subst (λ (t : ℕ). AtBits p.topology t (bits l)) (omega arith) left_bits),
              on_right (start + length (tips l)) end (sib + length (sibs l))
                  (topo + 1 + length (bits l)) (omega (arith, e, length-append (tips l) (tips r)))
                  right_tips
                  (λ i m n.
                    v i (omega (arith, m)) (omega (arith, n, length-append (tips l) (tips r))))
                  right_sibs
                  (subst (λ (t : ℕ). AtBits p.topology t (bits r)) (omega arith) right_bits),
            )
            (arrives (both (shape_value start l) (shape_value (start + length (tips l)) r)) _ _ _ _
              (omega (arith, length-append (sibs l) (sibs r)))
              (omega (arith, length-append (bits l) (bits r))))

      walk_aside :
          (levels prefix level child : ℕ) (goes_left : Bool) (x : HashedNode) (s : Shape)
          → ((k : ℕ) → k / 2 ^ levels ≡ child → get_msb k level ≡ not goes_left)
          → Fitting levels child (level + 1) s
          → Walks levels child (level + 1) s
          → Walks (suc levels) prefix level (side goes_left x s)
      unfolding walk_with
      walk_aside levels prefix level child goes_left x s bit f on_child start end sib topo e h v t
            b =
          rw
            (
              goes_on start end level (tips s) e (some_tip s)
                  (Fitting-Deeper levels child (level + 1) level s (omega arith) f) h,
              b.0,
              turns levels child level start goes_left (tips s) bit (some_tip s)
                  (Fitting-Shares levels child (level + 1) s f) h,
              t.0,
              on_child start end (sib + 1) (topo + 1) e h v
                  (subst (λ (n : ℕ). At p.siblings n (sibs s)) (omega arith) t.1)
                  (subst (λ (n : ℕ). AtBits p.topology n (bits s)) (omega arith) b.1),
            )
            (arrives (aside (shape_value start s) x goes_left) _ _ _ _ (omega arith) (omega arith))

      -- The walk joins the values along the laid-out tree and reads its siblings and bits, no more.
      pub walk_with-shape_value :
          (levels prefix level : ℕ) (s : Shape)
          → levels + level ≡ depth
          → Fitting levels prefix level s
          → Walks levels prefix level s
      walk_with-shape_value zero prefix level (tip t) at f start end sib topo e h v w b =
          unfold walk_with in
          rw
            (stops start end level t (omega (arith, e)) f.0 h (v start (omega arith) (omega arith)))
            (arrives _ _ _ _ _ (omega arith) (omega arith))
      walk_with-shape_value (suc levels) prefix level (tip t) at f start end sib topo e h v w b =
          unfold walk_with in
          rw
            (stops start end level t (omega (arith, e)) f.0 h (v start (omega arith) (omega arith)))
            (arrives _ _ _ _ _ (omega arith) (omega arith))
      walk_with-shape_value zero prefix level (fork l r) at f start end sib topo e h v w b =
          absurd f
      walk_with-shape_value (suc levels) prefix level (fork l r) at f start end sib topo e h v w b =
          walk_fork levels prefix level l r (omega arith) f.0 f.1
            (walk_with-shape_value levels (prefix + prefix) (level + 1) l (omega arith) f.0)
            (walk_with-shape_value levels (prefix + prefix + 1) (level + 1) r (omega arith) f.1)
            start end sib topo e h v w b
      walk_with-shape_value zero prefix level (side c x s) at f start end sib topo e h v w b =
          absurd f
      walk_with-shape_value (suc levels) prefix level (side true x s) at f start end sib topo e h v
            w b =
          walk_aside levels prefix level (prefix + prefix) true x s
            (λ k. get_msb-left levels prefix level k (omega arith)) f
            (walk_with-shape_value levels (prefix + prefix) (level + 1) s (omega arith) f) start end
            sib topo e h v w b
      walk_with-shape_value (suc levels) prefix level (side false x s) at f start end sib topo e h v
            w b =
          walk_aside levels prefix level (prefix + prefix + 1) false x s
            (λ k. get_msb-right levels prefix level k (omega arith)) f
            (walk_with-shape_value levels (prefix + prefix + 1) (level + 1) s (omega arith) f) start
            end sib topo e h v w b

    -- The hash of the leaf at the index, where it has one.
    abbrev pub hash_at : ℕ → HashedNode
    hash_at i = hash_or_empty (leaf_hash hash_parts p i)

    abbrev pub joined : (ℕ → HashedNode) → ℕ → Shape → HashedNode
    joined value start s =
        shape_value (λ i. some (value i)) empty_node (combine hash_parts)
          (combine_with_sibling hash_parts p) value start s

    hash_at_tip :
        (start : ℕ) (t : Tip)
        → AtTips p start (t ∷ [])
        → leaf_hash hash_parts p start
          ≡ some (hashed_leaf hash_parts t.entry.key t.entry.value_hash)
    hash_at_tip start t (leaf, f, g, r, h) = rw (f, r) refl

    pub joined-shape_hash :
        (start : ℕ) (s : Shape) → AtTips p start (tips s) → joined hash_at start s ≡ shape_hash s
    joined-shape_hash start (tip t) h = ap hash_or_empty (hash_at_tip start t h)
    joined-shape_hash start (fork l r) h =
        let (left_tips, right_tips) = AtTips-append p start (tips l) (tips r) h in
        ap₂ (combine hash_parts) (joined-shape_hash start l left_tips)
          (joined-shape_hash (start + length (tips l)) r right_tips)
    joined-shape_hash start (side true x s) h =
        ap (λ (t : HashedNode). combine hash_parts t x) (joined-shape_hash start s h)
    joined-shape_hash start (side false x s) h =
        ap (λ (t : HashedNode). combine hash_parts x t) (joined-shape_hash start s h)

    pub tips_hashed :
        (start : ℕ) (ts : List Tip) (i : ℕ)
        → AtTips p start ts
        → start ≤ i
        → i < start + length ts
        → leaf_hash hash_parts p i ≡ some (hash_at i)
    tips_hashed start [] i h m n = absurd (omega (arith, m, n))
    tips_hashed start (t ∷ ts) i (leaf, f, g, r, h) m n = elim (Bool-cases (start == i)) [
      | inl e ↦
          let here : start ≡ i = ground (arith, e) in
          subst (λ (j : ℕ). leaf_hash hash_parts p j ≡ some (hash_at j)) here
            (hash_at_tip start t (leaf, f, g, r, tt)
              ∙ ap (λ (o : Option HashedNode). some (hash_or_empty o))
                  (sym (hash_at_tip start t (leaf, f, g, r, tt))))
      | inr e ↦ tips_hashed (suc start) ts i h (ground (arith, e, m)) (omega (arith, n))
    ]

    -- The walk gives the hash of the laid-out tree.
    pub walk-shape_hash :
        (levels prefix level : ℕ) (s : Shape) (start end sib topo : ℕ)
        → levels + level ≡ depth
        → Fitting levels prefix level s
        → end ≡ start + length (tips s)
        → AtTips p start (tips s)
        → At p.siblings sib (sibs s)
        → AtBits p.topology topo (bits s)
        → walk hash_parts p levels start end level (record { sibling_idx = sib; topo_bit = topo })
          ≡ some (
            shape_hash s,
            record { sibling_idx = sib + length (sibs s); topo_bit = topo + length (bits s) },
          )
    unfolding walk
    walk-shape_hash levels prefix level s start end sib topo at f e h w b =
        walk_with-shape_value (leaf_hash hash_parts p) empty_node (combine hash_parts)
          (combine_with_sibling hash_parts p) hash_at levels prefix level s at f start end sib topo
          e h (λ i. tips_hashed start (tips s) i h) w b
        ∙ ap
            (λ (x : HashedNode). some (
              x,
              record { sibling_idx = sib + length (sibs s); topo_bit = topo + length (bits s) },
            ))
            (joined-shape_hash start s h)
