-- ===== src/Smt/Stored/Placed/Reads.antt =====
-- core/smt/src/updater.rs, `write_child`: what is read of both children after a split.
use vprogs.Base.{
  ℕ, ◌≡◌, ◌≢◌, refl, sym, subst, inl, List, [], ◌∷◌, ◌++◌, Bool, true, false, Option, none, some,
  ap, ◌∙◌,
}
use vprogs.Smt.{Key, Node, empty, internal, leaf, Commitment, left_child, right_child}
use vprogs.Smt.Updater.{Write, put_node, existing, write_child, tombstone}
use vprogs.Smt.Reference.{Stands}
use vprogs.Smt.Stored.{commit_write, committed, committed-append}
use vprogs.Smt.Stored.Positions.{
  Below, Below-irrefl, Below-child, Below-apart, sibling-Below, same_key_refl, Puts, Puts-append,
  Puts-mono, committed-apart, committed-agree,
}

-- No tombstone.
abbrev pub Solid : Option Node → Type 0
Solid none = Unit {0}
Solid (some empty) = ⊥
Solid (some (internal h)) = Unit {0}
Solid (some (leaf k v h)) = Unit {0}

pub Stands-Solid :
    (hash_parts : List ℕ → List ℕ → ℕ) (levels level : ℕ) (es : List Commitment)
    (result : Option Node)
    → Stands hash_parts levels level es result
    → Solid result
Stands-Solid hash_parts levels level [] result s = subst Solid (sym s) tt
Stands-Solid hash_parts levels level (u ∷ []) result s = subst Solid (sym s) tt
Stands-Solid hash_parts levels level (u ∷ v ∷ us) result s = subst Solid (sym s.1) tt

module _ (hash_parts : List ℕ → List ℕ → ℕ) (node : Key → Option (ℕ × Node)) (version : ℕ) where
  abbrev child_writes : Key → Option Node → List Write
  child_writes key result = write_child hash_parts node version key result

  Puts-child : (key : Key) (result : Option Node) → Puts (λ k. k ≡ key) (child_writes key result)
  Puts-child key none = go (existing (node key))
    where
      go : (o : Option Node) → Puts (λ k. k ≡ key) (tombstone hash_parts node version key o)
      go none = tt
      go (some n) = (refl, tt)
  Puts-child key (some n) = (refl, tt)

  put_here :
      (store : Key → Option (ℕ × Node)) (key : Key) (n : Node)
      → commit_write (put_node key version n) store key ≡ some (version, n)
  put_here store key n = rw (same_key_refl key)

  -- The child's position reads as its result.
  child_reads :
      (store : Key → Option (ℕ × Node)) (key : Key) (result : Option Node)
      → Solid result
      → store key ≡ node key
      → existing (committed (child_writes key result) store key) ≡ result
  unfolding committed
  child_reads store key none s e = go (existing (node key)) refl
    where
      go :
          (o : Option Node)
          → existing (node key) ≡ o
          → existing (committed (tombstone hash_parts node version key o) store key) ≡ none
      go none f = ap existing e ∙ f
      go (some n) f = ap existing (put_here store key empty)
  child_reads store key (some empty) s e = absurd s
  child_reads store key (some (internal h)) s e = ap existing (put_here store key (internal h))
  child_reads store key (some (leaf k v h)) s e = ap existing (put_here store key (leaf k v h))

  module _ (key : Key) (lw rw' : List Write) (left right : Option Node)
      (lp : Puts (Below (left_child key)) lw) (rp : Puts (Below (right_child key)) rw')
      (ls : Solid left) (rs : Solid right) where
    abbrev pub joined_writes : List Write
    joined_writes =
        (lw ++ rw') ++ (child_writes (left_child key) left ++ child_writes (right_child key) right)

    abbrev inside : Key → Option (ℕ × Node)
    inside = committed rw' (committed lw node)

    abbrev with_left : Key → Option (ℕ × Node)
    with_left = committed (child_writes (left_child key) left) inside

    in_turn :
        committed joined_writes node ≡ committed (child_writes (right_child key) right) with_left
    in_turn =
        committed-append (lw ++ rw') _ node
        ∙ ap
            (committed (child_writes (left_child key) left ++ child_writes (right_child key) right))
            (committed-append lw rw' node)
        ∙ committed-append (child_writes (left_child key) left) _ inside

    apart_left :
        (store : Key → Option (ℕ × Node)) (q : Key)
        → (q ≢ left_child key)
        → committed (child_writes (left_child key) left) store q ≡ store q
    apart_left store q h =
        committed-apart (λ k. k ≡ left_child key) _ store q (Puts-child (left_child key) left) h

    apart_right :
        (store : Key → Option (ℕ × Node)) (q : Key)
        → (q ≢ right_child key)
        → committed (child_writes (right_child key) right) store q ≡ store q
    apart_right store q h =
        committed-apart (λ k. k ≡ right_child key) _ store q (Puts-child (right_child key) right) h

    untouched_inside :
        (q : Key)
        → (Below (left_child key) q → ⊥)
        → (Below (right_child key) q → ⊥)
        → inside q ≡ node q
    untouched_inside q h k =
        committed-apart (Below (right_child key)) rw' (committed lw node) q rp k
        ∙ committed-apart (Below (left_child key)) lw node q lp h

    pub reads_left : existing (committed joined_writes node (left_child key)) ≡ left
    reads_left =
        ap (λ (s : Key → Option (ℕ × Node)). existing (s (left_child key))) in_turn
        ∙ ap existing (apart_right with_left (left_child key) (λ e. cc))
        ∙ child_reads inside (left_child key) left ls (
            untouched_inside (left_child key) (Below-irrefl (left_child key))
              (sibling-Below true false key))

    pub reads_right : existing (committed joined_writes node (right_child key)) ≡ right
    reads_right =
        ap (λ (s : Key → Option (ℕ × Node)). existing (s (right_child key))) in_turn
        ∙ child_reads with_left (right_child key) right rs (
            apart_left inside (right_child key) (λ e. cc)
            ∙ untouched_inside (right_child key) (sibling-Below false true key)
                (Below-irrefl (right_child key)))

    Below-ne : (a b : Bool) (q : Key) → Below (a ∷ key) q → q ≢ b ∷ key
    Below-ne a b q h e = sibling-Below a b key (subst (Below (a ∷ key)) e h)

    pub reads_left-Below :
        (q : Key)
        → Below (left_child key) q
        → existing (committed joined_writes node q) ≡ existing (committed lw node q)
    reads_left-Below q h =
        ap (λ (s : Key → Option (ℕ × Node)). existing (s q)) in_turn
        ∙ ap existing (
            apart_right with_left q (Below-ne false true q h)
            ∙ apart_left inside q (Below-ne false false q h)
            ∙ committed-apart (Below (right_child key)) rw' (committed lw node) q rp
                (λ k. Below-apart key q h k))

    pub reads_right-Below :
        (q : Key)
        → Below (right_child key) q
        → existing (committed joined_writes node q) ≡ existing (committed rw' node q)
    reads_right-Below q h =
        ap (λ (s : Key → Option (ℕ × Node)). existing (s q)) in_turn
        ∙ ap existing (
            apart_right with_left q (Below-ne true true q h)
            ∙ apart_left inside q (Below-ne true false q h)
            ∙ committed-agree rw' (committed lw node) node q (
                committed-apart (Below (left_child key)) lw node q lp (λ k. Below-apart key q k h)))

    pub Puts-joined : Puts (Below key) joined_writes
    Puts-joined =
        Puts-append (Below key) (lw ++ rw') _
          (Puts-append (Below key) lw rw'
            (Puts-mono (Below (left_child key)) (Below key) (Below-child false key) lw lp)
            (Puts-mono (Below (right_child key)) (Below key) (Below-child true key) rw' rp))
          (Puts-append (Below key) (child_writes (left_child key) left) _
            (Puts-mono (λ k. k ≡ left_child key) (Below key) (λ k e. rw e (inl refl))
              (child_writes (left_child key) left) (Puts-child (left_child key) left))
            (Puts-mono (λ k. k ≡ right_child key) (Below key) (λ k e. rw e (inl refl))
              (child_writes (right_child key) right) (Puts-child (right_child key) right)))
