-- ===== src/Smt/Stored/Placed/Splits.antt =====
-- core/smt/src/updater.rs, `split_and_recurse`: a split that leaves two entries or more writes a tree
-- that holds them.
use vprogs.Base.{
  ℕ, suc, ◌+◌, ◌-◌, ◌≡◌, refl, sym, subst, inl, List, [], ◌∷◌, ◌++◌, true, false, Option, none,
  some, ap, ◌∙◌, length,
}
use vprogs.Smt.{Key, Node, Commitment, left_child, right_child}
use vprogs.Smt.Updater.{Write, Outcome, split_and_recurse, join, join_internal}
use vprogs.Smt.Entries.{Live, Ascending, set_entries}
use vprogs.Smt.Entries.Halves.{
  Shares, Halves, halves, take_left, drop_right, Ascending-append, set_entries_halves,
  set_entries-Shares,
}
use vprogs.Smt.Reference.{Stands, Holds, Yields}
use vprogs.Smt.Reference.Subtree.{Updating, Updates, view, split_lem, split_joins, Live-append}
use vprogs.Smt.Stored.Positions.{Below-child}
use vprogs.Smt.Stored.Placed.{Placed}
use vprogs.Smt.Stored.Placed.Reads.{
  Solid, Stands-Solid, reads_left, reads_right, reads_left-Below, reads_right-Below, Puts-joined,
}

abbrev result_of : Outcome → Option Node
result_of none = none
result_of (some (writes, result)) = result

module _ (hash_parts : List ℕ → List ℕ → ℕ) (node : Key → Option (ℕ × Node)) (version : ℕ) where
  pub same_result :
      (levels level : ℕ) (es : List Commitment) (outcome : Outcome) (writes : List Write)
      (result : Option Node)
      → outcome ≡ some (writes, result)
      → Yields hash_parts outcome levels level es
      → Stands hash_parts levels level es result
  same_result levels level es outcome writes result e (w, r, f, s) =
      subst (Stands hash_parts levels level es) (ap result_of (sym f ∙ e)) s

  -- Two entries or more do not move up.
  join_big :
      (key : Key) (writes : List Write) (levels level : ℕ) (es fs : List Commitment)
      (u v : Commitment) (us : List Commitment) (left right : Option Node)
      → Stands hash_parts levels level es left
      → Stands hash_parts levels level fs right
      → es ++ fs ≡ u ∷ v ∷ us
      → join hash_parts node version key writes left right
        ≡ join_internal hash_parts node version key writes left right
  unfolding join
  join_big key writes levels level [] [] u v us left right s t e = cc
  join_big key writes levels level [] (y ∷ []) u v us left right s t e = cc
  join_big key writes levels level (x ∷ []) [] u v us left right s t e = cc
  join_big key writes levels level [] (y ∷ z ∷ fs) u v us left right s t e = rw (s, t.1)
  join_big key writes levels level (x ∷ []) (y ∷ []) u v us left right s t e = rw (s, t)
  join_big key writes levels level (x ∷ []) (y ∷ z ∷ fs) u v us left right s t e = rw (s, t.1)
  join_big key writes levels level (w ∷ x ∷ es) [] u v us left right s t e = rw (s.1, t)
  join_big key writes levels level (w ∷ x ∷ es) (y ∷ []) u v us left right s t e = rw (s.1, t)
  join_big key writes levels level (w ∷ x ∷ es) (y ∷ z ∷ fs) u v us left right s t e = rw (s.1, t.1)

  -- An update of the subtree at a position with no deletion.
  abbrev pub Places : Updating → ℕ → Key → Type 0
  Places update levels key =
      (prefix : ℕ) (es cs : List Commitment)
      → Ascending es
      → Live es
      → Shares levels prefix es
      → Ascending cs
      → Live cs
      → Shares levels prefix cs
      → Holds hash_parts (view hash_parts node version) levels key es
      → Placed hash_parts node version (update key cs) levels key (set_entries es cs)

  module _ (update : Updating) (levels : ℕ) (key : Key) (at : 255 - length key ≡ levels)
      (on_left : Updates hash_parts node version update levels (left_child key))
      (on_right : Updates hash_parts node version update levels (right_child key))
      (put_left : Places update levels (left_child key))
      (put_right : Places update levels (right_child key)) where
    pub split-Placed :
        (prefix : ℕ) (es fs cs : List Commitment) (u v : Commitment) (us : List Commitment)
        → Ascending es
        → Ascending fs
        → Live es
        → Live fs
        → Shares levels (prefix + prefix) es
        → Shares levels (prefix + prefix + 1) fs
        → Ascending cs
        → Live cs
        → Shares (suc levels) prefix cs
        → Holds hash_parts (view hash_parts node version) levels (left_child key) es
        → Holds hash_parts (view hash_parts node version) levels (right_child key) fs
        → set_entries (es ++ fs) cs ≡ u ∷ v ∷ us
        → Placed hash_parts node version
            (split_and_recurse hash_parts node version update key cs)
            (suc levels)
            key
            (u ∷ v ∷ us)
    split-Placed prefix es fs cs u v us a b l m s t c n x h k whole =
        go (halves levels prefix cs c x)
      where
        go :
            Halves levels prefix cs
            → Placed hash_parts node version
                (split_and_recurse hash_parts node version update key cs)
                (suc levels)
                key
                (u ∷ v ∷ us)
        go p =
            joined (put_left (prefix + prefix) es p.left a l s ascending.0 lives.0 p.left_shares h)
              (put_right (prefix + prefix + 1) fs p.right b m t ascending.1 lives.1 p.right_shares
                k)
          where
            ascending : Ascending p.left × Ascending p.right
            ascending = Ascending-append p.left p.right (subst Ascending p.parts c)

            lives : Live p.left × Live p.right
            lives = Live-append p.left p.right (subst Live p.parts n)

            lefts : List Commitment
            lefts = set_entries es p.left

            rights : List Commitment
            rights = set_entries fs p.right

            set : set_entries (es ++ fs) cs ≡ lefts ++ rights
            set =
                ap (set_entries (es ++ fs)) p.parts
                ∙ set_entries_halves levels prefix es fs p.left p.right s t p.left_shares
                    p.right_shares

            parted : Halves levels prefix (u ∷ v ∷ us)
            parted = record {
              left = lefts;
              right = rights;
              parts = sym whole ∙ set;
              left_shares = set_entries-Shares levels (prefix + prefix) es p.left s p.left_shares;
              right_shares =
                  set_entries-Shares levels (prefix + prefix + 1) fs p.right t p.right_shares;
            }

            joined :
                Placed hash_parts node version
                  (update (left_child key) p.left)
                  levels
                  (left_child key)
                  lefts
                → Placed hash_parts node version
                    (update (right_child key) p.right)
                    levels
                    (right_child key)
                    rights
                → Placed hash_parts node version
                    (split_and_recurse hash_parts node version update key cs)
                    (suc levels)
                    key
                    (u ∷ v ∷ us)
            joined (lw, left, le, lp, ll) (rw', right, re, rp, rl) = (
              _,
              _,
              splits,
              Puts-joined hash_parts node version key lw rw' left right lp rp solid_left
                  solid_right,
              λ g e f. (
                subst (Stands hash_parts (suc levels) (length key) (u ∷ v ∷ us)) (sym e) (
                    same_result (suc levels) (length key) (u ∷ v ∷ us) _ _ _ splits (
                      subst
                        (Yields hash_parts (split_and_recurse hash_parts node version update key cs)
                          (suc levels) (length key))
                        whole
                        (split_lem hash_parts node version update levels key at on_left on_right
                          prefix es fs cs a b l m s t c x h k))),
                subst (Holds hash_parts g levels (left_child key))
                    (sym (take_left levels prefix (length key) at (u ∷ v ∷ us) parted))
                    (ll g
                      (f (left_child key) (inl refl)
                        ∙ reads_left hash_parts node version key lw rw' left right lp rp solid_left
                            solid_right)
                      (λ q d.
                        f q (Below-child false key q d)
                        ∙ reads_left-Below hash_parts node version key lw rw' left right lp rp
                            solid_left solid_right q d)),
                subst (Holds hash_parts g levels (right_child key))
                    (sym (drop_right levels prefix (length key) at (u ∷ v ∷ us) parted))
                    (rl g
                      (f (right_child key) (inl refl)
                        ∙ reads_right hash_parts node version key lw rw' left right lp rp solid_left
                            solid_right)
                      (λ q d.
                        f q (Below-child true key q d)
                        ∙ reads_right-Below hash_parts node version key lw rw' left right lp rp
                            solid_left solid_right q d)),
              ),
            )
              where
                stands_left : Stands hash_parts levels (suc (length key)) lefts left
                stands_left =
                    same_result levels (suc (length key)) lefts _ lw left le
                      (on_left (prefix + prefix) es p.left a l s ascending.0 p.left_shares h)

                stands_right : Stands hash_parts levels (suc (length key)) rights right
                stands_right =
                    same_result levels (suc (length key)) rights _ rw' right re
                      (on_right (prefix + prefix + 1) fs p.right b m t ascending.1 p.right_shares k)

                solid_left : Solid left
                solid_left =
                    Stands-Solid hash_parts levels (suc (length key)) lefts left stands_left

                solid_right : Solid right
                solid_right =
                    Stands-Solid hash_parts levels (suc (length key)) rights right stands_right

                splits :
                    split_and_recurse hash_parts node version update key cs
                    ≡ join_internal hash_parts node version key (lw ++ rw') left right
                splits =
                    split_joins hash_parts node version update levels key at on_left on_right prefix
                      cs p lw rw' left right le re
                    ∙ join_big key (lw ++ rw') levels (suc (length key)) lefts rights u v us left
                        right stands_left stands_right (sym set ∙ whole)
