-- ===== src/Smt/Proving/Absent.antt =====
-- core/smt/src/proving/proof_builder.rs: the keys on both sides of a position, and `collect_empty`.
use vprogs.Base.{
  ℕ, zero, suc, ◌+◌, ◌-◌, ◌/◌, ◌^◌, ◌<◌, ◌≡◌, refl, sym, subst, ap, ap₂, ◌∙◌, inl, inr, List, [],
  ◌∷◌, ◌++◌, true, false, not, Option, some, arith, ltb, if◌then◌else◌, and_then, take, drop,
  take_all, length, append_nil, Bool-cases,
}
use vprogs.Smt.{
  Commitment, HashedNode, empty_node, empty_hash, hashed_leaf, combine, get_msb, split_point, depth,
  subtree_hash,
}
use vprogs.Smt.Entries.{Ascending, set_entry}
use vprogs.Smt.Entries.Halves.{Shares, Halves, halves, take_left, drop_right, Ascending-append}
use vprogs.Smt.Reference.Updates.{no_two}
use vprogs.Smt.Reference.Joined.{subtree_hash_nothing}
use vprogs.Smt.Proving.Lays.{as_entries, Sorted, Parts, Lays, Lays-total}
use vprogs.Smt.Proving.Shape.{Shape, fork, side, Fitting}
use vprogs.Smt.Proving.Walk.{shape_hash}
use vprogs.Smt.Proving.Builder.{
  ProofBuilder, emit_leaf, key_split, push_split, push_sibling, Collecting, split_empty,
  collect_empty,
}
use vprogs.Smt.Proving.Collected.{Adds, fork-Adds, side-Adds, emit-Adds}

take-as_entries : (n : ℕ) (ks : List ℕ) → as_entries (take n ks) ≡ take n (as_entries ks)
take-as_entries zero ks = refl
take-as_entries (suc n) [] = refl
take-as_entries (suc n) (k ∷ ks) =
    ap (λ (t : List Commitment). record { key = k; value_hash = 0 } ∷ t) (take-as_entries n ks)

drop-as_entries : (n : ℕ) (ks : List ℕ) → as_entries (drop n ks) ≡ drop n (as_entries ks)
drop-as_entries zero ks = refl
drop-as_entries (suc n) [] = refl
drop-as_entries (suc n) (k ∷ ks) = drop-as_entries n ks

key_split-as_entries :
    (level : ℕ) (ks : List ℕ) → key_split level ks ≡ split_point level (as_entries ks)
key_split-as_entries level [] = refl
key_split-as_entries level (k ∷ ks) =
    ap (λ (t : ℕ). if not (get_msb k level) then suc t else 0) (key_split-as_entries level ks)

pub key_sides :
    (levels prefix level : ℕ) (ks : List ℕ)
    → 255 - level ≡ levels
    → Sorted (suc levels) prefix ks
    → Sorted levels (prefix + prefix) (take (key_split level ks) ks)
      × Sorted levels (prefix + prefix + 1) (drop (key_split level ks) ks)
key_sides levels prefix level ks at s = go (halves levels prefix (as_entries ks) s.0 s.1)
  where
    go :
        Halves levels prefix (as_entries ks)
        → Sorted levels (prefix + prefix) (take (key_split level ks) ks)
          × Sorted levels (prefix + prefix + 1) (drop (key_split level ks) ks)
    go h =
        let (on_left, on_right) = Ascending-append h.left h.right (subst Ascending h.parts s.0) in
        let lefts : as_entries (take (key_split level ks) ks) ≡ h.left =
          take-as_entries (key_split level ks) ks
          ∙ ap (λ (t : ℕ). take t (as_entries ks)) (key_split-as_entries level ks)
          ∙ take_left levels prefix level at (as_entries ks) h in
        let rights : as_entries (drop (key_split level ks) ks) ≡ h.right =
          drop-as_entries (key_split level ks) ks
          ∙ ap (λ (t : ℕ). drop t (as_entries ks)) (key_split-as_entries level ks)
          ∙ drop_right levels prefix level at (as_entries ks) h in
        (
          (
            subst Ascending (sym lefts) on_left,
            subst (Shares levels (prefix + prefix)) (sym lefts) h.left_shares,
          ),
          (
            subst Ascending (sym rights) on_right,
            subst (Shares levels (prefix + prefix + 1)) (sym rights) h.right_shares,
          ),
        )

pub take-drop : (n : ℕ) (ks : List ℕ) → take n ks ++ drop n ks ≡ ks
take-drop zero ks = refl
take-drop (suc n) [] = refl
take-drop (suc n) (k ∷ ks) = ap (λ (t : List ℕ). k ∷ t) (take-drop n ks)

length-take_less : (n : ℕ) (ks : List ℕ) → n < length ks → length (take n ks) ≡ n
length-take_less zero ks h = refl
length-take_less (suc m) [] h = absurd (omega (arith, h))
length-take_less (suc m) (k ∷ ks) h = ap suc (length-take_less m ks (omega (arith, h)))

length-take_some : (n : ℕ) (ks : List ℕ) → 0 < n → 0 < length ks → 0 < length (take n ks)
length-take_some zero ks h n = absurd (omega arith)
length-take_some (suc m) [] h n = absurd (omega arith)
length-take_some (suc m) (k ∷ ks) h n = omega arith

length-drop_some : (n : ℕ) (ks : List ℕ) → n < length ks → 0 < length (drop n ks)
length-drop_some zero ks h = h
length-drop_some (suc m) [] h = absurd (omega arith)
length-drop_some (suc m) (k ∷ ks) h = length-drop_some m ks (omega arith)

module _ (hash_parts : List ℕ → List ℕ → ℕ) where
  -- A collection adds the parts of a tree that lays out the entries and the keys, with the reference
  -- as its hash.
  abbrev pub Collects :
      ℕ
      → ℕ
      → ℕ
      → List Commitment
      → List ℕ
      → HashedNode
      → ℕ
      → ProofBuilder
      → Option ProofBuilder
      → Type 0
  Collects levels prefix level es ks reference offset b outcome =
      (c : ProofBuilder) × (s : Shape) × (mss : List (List ℕ)) × (outcome ≡ some c)
      × Adds b c s offset mss
      × Fitting levels prefix level s
      × Lays hash_parts levels prefix level es ks s mss
      × (shape_hash hash_parts s ≡ reference)

  pub fork-Collects :
      (levels prefix level : ℕ) (es : List Commitment) (ks : List ℕ) (p : Parts levels prefix es ks)
      (left right : HashedNode) (offset mid : ℕ) (b : ProofBuilder) (first : Option ProofBuilder)
      (next : ProofBuilder → Option ProofBuilder)
      → mid ≡ length p.left_keys
      → Collects levels
          (prefix + prefix)
          (level + 1)
          p.lefts
          p.left_keys
          left
          offset
          (push_split b)
          first
      → ((c : ProofBuilder)
          → Collects levels
              (prefix + prefix + 1)
              (level + 1)
              p.rights
              p.right_keys
              right
              (offset + mid)
              c
              (next c))
      → Collects
          (suc levels)
          prefix
          level
          es
          ks
          (combine hash_parts left right)
          offset
          b
          (and_then first next)
  fork-Collects levels prefix level es ks p left right offset mid b first next n
        (c, l, ml, e, u, f, y, h) on_right =
      let (d, r, mr, e', v, g, z, k) = on_right c in
      (
        d,
        fork l r,
        ml ++ mr,
        ap (λ (o : Option ProofBuilder). and_then o next) e ∙ e',
        fork-Adds b c d l r offset ml mr u (
            subst (λ (i : ℕ). Adds c d r (offset + i) mr)
              (n
                ∙ sym (
                    Lays-total hash_parts levels (prefix + prefix) (level + 1) p.lefts p.left_keys l
                      ml y))
              v),
        (f, g),
        (p, ml, mr, refl, u.grouped, y, z),
        ap₂ (combine hash_parts) h k,
      )

  pub left-Collects :
      (levels prefix level : ℕ) (es : List Commitment) (ks : List ℕ) (p : Parts levels prefix es ks)
      (left sibling : HashedNode) (offset : ℕ) (b : ProofBuilder) (outcome : Option ProofBuilder)
      → p.right_keys ≡ []
      → subtree_hash hash_parts levels (level + 1) p.rights ≡ some sibling
      → Collects levels
          (prefix + prefix)
          (level + 1)
          p.lefts
          p.left_keys
          left
          offset
          (push_sibling sibling b)
          outcome
      → Collects (suc levels) prefix level es ks (combine hash_parts left sibling) offset b outcome
  left-Collects levels prefix level es ks p left sibling offset b outcome n x
        (c, s, mss, e, u, f, y, h) =
      (
        c,
        side true sibling s,
        mss,
        e,
        side-Adds b c true sibling s offset mss u,
        f,
        (p, n, x, y),
        ap (λ (t : HashedNode). combine hash_parts t sibling) h,
      )

  pub right-Collects :
      (levels prefix level : ℕ) (es : List Commitment) (ks : List ℕ) (p : Parts levels prefix es ks)
      (right sibling : HashedNode) (offset : ℕ) (b : ProofBuilder) (outcome : Option ProofBuilder)
      → p.left_keys ≡ []
      → subtree_hash hash_parts levels (level + 1) p.lefts ≡ some sibling
      → Collects levels
          (prefix + prefix + 1)
          (level + 1)
          p.rights
          p.right_keys
          right
          offset
          (push_sibling sibling b)
          outcome
      → Collects (suc levels) prefix level es ks (combine hash_parts sibling right) offset b outcome
  right-Collects levels prefix level es ks p right sibling offset b outcome n x
        (c, s, mss, e, u, f, y, h) =
      (
        c,
        side false sibling s,
        mss,
        e,
        side-Adds b c false sibling s offset mss u,
        f,
        (p, n, x, y),
        ap (λ (t : HashedNode). combine hash_parts sibling t) h,
      )

  pub emit-Collects :
      (levels prefix level key value_hash offset : ℕ) (es : List Commitment) (ks : List ℕ)
      (b : ProofBuilder)
      → key / 2 ^ levels ≡ prefix
      → set_entry (record { key = key; value_hash = value_hash }) [] ≡ es
      → Collects levels prefix level es ks
          (hashed_leaf hash_parts key value_hash)
          offset
          b
          (some (emit_leaf key value_hash level offset (length ks) b))
  emit-Collects levels prefix level key value_hash offset es ks b h e =
      (_, _, ks ∷ [], refl, emit-Adds key value_hash level offset ks b, (refl, h), (refl, e), refl)

  combine_empty : combine hash_parts empty_node empty_node ≡ empty_node
  unfolding combine
  combine_empty = refl

  -- No entries, and keys on both sides.
  abbrev absent_parts :
      (levels prefix : ℕ) (ks ls rs : List ℕ)
      → ks ≡ ls ++ rs
      → Sorted levels (prefix + prefix) ls
      → Sorted levels (prefix + prefix + 1) rs
      → Parts levels prefix [] ks
  absent_parts levels prefix ks ls rs e s t = record {
    lefts = [];
    rights = [];
    left_keys = ls;
    right_keys = rs;
    entries = refl;
    keys = e;
    left_kept = (tt, tt, tt);
    right_kept = (tt, tt, tt);
    left_sorted = s;
    right_sorted = t;
  }

  abbrev Empties : ℕ → ℕ → ℕ → Collecting → Type 0
  Empties levels prefix level deeper =
      (ks : List ℕ) (offset : ℕ) (b : ProofBuilder)
      → 0 < length ks
      → Sorted levels prefix ks
      → Collects levels prefix level [] ks empty_node offset b (deeper ks offset b)

  -- The outcome, with the reference of no entries.
  joined_empty :
      (levels prefix level : ℕ) (ks : List ℕ) (offset : ℕ) (b : ProofBuilder)
      (outcome : Option ProofBuilder)
      → Collects
          (suc levels)
          prefix
          level
          []
          ks
          (combine hash_parts empty_node empty_node)
          offset
          b
          outcome
      → Collects (suc levels) prefix level [] ks empty_node offset b outcome
  joined_empty levels prefix level ks offset b outcome c =
      subst (λ (t : HashedNode). Collects (suc levels) prefix level [] ks t offset b outcome)
        combine_empty c

  split_empty-Collects :
      (levels prefix level : ℕ) (deeper : Collecting) (ks : List ℕ) (offset : ℕ) (b : ProofBuilder)
      → 255 - level ≡ levels
      → Empties levels (prefix + prefix) (level + 1) deeper
      → Empties levels (prefix + prefix + 1) (level + 1) deeper
      → 0 < length ks
      → Sorted (suc levels) prefix ks
      → Collects
          (suc levels)
          prefix
          level
          []
          ks
          empty_node
          offset
          b
          (split_empty deeper (key_split level ks) ks offset b)
  split_empty-Collects levels prefix level deeper ks offset b at on_left on_right n s =
      elim (Bool-cases (ltb 0 (key_split level ks))) [
        | inr none_left ↦
            let zero_mid : key_split level ks ≡ 0 = ground (arith, none_left) in
            let rights : Sorted levels (prefix + prefix + 1) ks =
              subst (λ (t : ℕ). Sorted levels (prefix + prefix + 1) (drop t ks)) zero_mid
                (key_sides levels prefix level ks at s).1 in
            rw none_left (
              joined_empty levels prefix level ks offset b _ (
                right-Collects levels prefix level [] ks
                  (absent_parts levels prefix ks [] ks refl (tt, tt) rights) empty_node empty_node
                  offset b _ refl (subtree_hash_nothing hash_parts levels (level + 1))
                  (on_right ks offset (push_sibling empty_node b) n rights)))
        | inl some_left ↦ elim (Bool-cases (ltb (key_split level ks) (length ks))) [
          | inl some_right ↦
              rw (some_left, some_right)
                (joined_empty levels prefix level ks offset b _ (
                  fork-Collects levels prefix level [] ks
                    (absent_parts levels prefix ks (take (key_split level ks) ks)
                      (drop (key_split level ks) ks) (sym (take-drop (key_split level ks) ks))
                      (key_sides levels prefix level ks at s).0
                      (key_sides levels prefix level ks at s).1)
                    empty_node empty_node offset (key_split level ks) b _ _
                    (sym (length-take_less (key_split level ks) ks (ground (arith, some_right))))
                    (on_left _ offset (push_split b)
                      (length-take_some (key_split level ks) ks (ground (arith, some_left)) n)
                      (key_sides levels prefix level ks at s).0)
                    (λ c.
                      on_right _ (offset + key_split level ks) c
                        (length-drop_some (key_split level ks) ks (ground (arith, some_right)))
                        (key_sides levels prefix level ks at s).1)))
          | inr none_right ↦
              let lefts : Sorted levels (prefix + prefix) ks =
                subst (Sorted levels (prefix + prefix))
                  (take_all (key_split level ks) ks (ground (arith, none_right)))
                  (key_sides levels prefix level ks at s).0 in
              rw (some_left, none_right)
                (joined_empty levels prefix level ks offset b _ (
                  left-Collects levels prefix level [] ks
                    (absent_parts levels prefix ks ks [] (sym (append_nil ks)) lefts (tt, tt))
                    empty_node empty_node offset b _ refl
                    (subtree_hash_nothing hash_parts levels (level + 1))
                    (on_left ks offset (push_sibling empty_node b) n lefts)))
        ]
      ]

  nothing_set : (k : ℕ) → set_entry (record { key = k; value_hash = empty_hash }) [] ≡ []
  unfolding set_entry
  nothing_set k = refl

  pub collect_empty-Collects :
      (levels prefix level : ℕ)
      → levels + level ≡ depth
      → Empties levels prefix level (collect_empty levels level)
  unfolding collect_empty
  collect_empty-Collects levels prefix level at [] offset b n s = absurd (omega arith)
  collect_empty-Collects zero prefix level at (k ∷ []) offset b n s =
      emit-Collects zero prefix level k empty_hash offset [] (k ∷ []) b s.1.0 (nothing_set k)
  collect_empty-Collects (suc levels) prefix level at (k ∷ []) offset b n s =
      emit-Collects (suc levels) prefix level k empty_hash offset [] (k ∷ []) b s.1.0
        (nothing_set k)
  collect_empty-Collects zero prefix level at (k ∷ l ∷ ks) offset b n s = absurd (
      no_two prefix (record { key = k; value_hash = 0 }) (record { key = l; value_hash = 0 })
        (as_entries ks) s.0 s.1)
  collect_empty-Collects (suc levels) prefix level at (k ∷ l ∷ ks) offset b n s =
      split_empty-Collects levels prefix level (collect_empty levels (level + 1)) (k ∷ l ∷ ks)
        offset b (omega arith)
        (collect_empty-Collects levels (prefix + prefix) (level + 1) (omega arith))
        (collect_empty-Collects levels (prefix + prefix + 1) (level + 1) (omega arith)) n s
