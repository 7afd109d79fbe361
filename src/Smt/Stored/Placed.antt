-- ===== src/Smt/Stored/Placed.antt =====
-- core/smt/src/updater.rs: what an update of a subtree writes, with its result at the subtree's
-- position, holds the entries with the commitments set, if no commitment deletes.
pub mod Reads
pub mod Splits
pub mod Whole
use vprogs.Base.{
  ℕ, zero, suc, ◌≡◌, refl, sym, subst, inl, inr, List, [], ◌∷◌, ◌++◌, true, false, Option, none,
  some, ap, ◌∙◌,
}
use vprogs.Smt.{Key, Node, Commitment, left_child, right_child}
use vprogs.Smt.Updater.{Write, Outcome, existing, after, mark_stale, stale_marker}
use vprogs.Smt.Reference.{Stands, Holds, left_part, right_part}
use vprogs.Smt.Stored.{committed, committed-append, committed-mark_stale}
use vprogs.Smt.Stored.Positions.{Below, Below-child, Puts, Puts-append}

module _ (hash_parts : List ℕ → List ℕ → ℕ) (node : Key → Option (ℕ × Node)) (version : ℕ) where
  -- The result at the position and the writes below it make a tree that holds the entries.
  abbrev pub Leaves : List Write → Option Node → ℕ → Key → List Commitment → Type 0
  Leaves writes result levels key es =
      (g : Key → Option Node)
      → g key ≡ result
      → ((q : Key) → Below key q → g q ≡ existing (committed writes node q))
      → Holds hash_parts g levels key es

  abbrev pub Placed : Outcome → ℕ → Key → List Commitment → Type 0
  Placed outcome levels key es =
      (writes : List Write) × (result : Option Node) × (outcome ≡ some (writes, result))
      × Puts (Below key) writes
      × Leaves writes result levels key es

  pub Holds-transfer :
      (f g : Key → Option Node) (levels : ℕ) (key : Key) (es : List Commitment)
      → g key ≡ f key
      → ((q : Key) → Below key q → g q ≡ f q)
      → Holds hash_parts f levels key es
      → Holds hash_parts g levels key es
  Holds-transfer f g zero key es e h s = subst (Stands hash_parts zero _ es) (sym e) s
  Holds-transfer f g (suc levels) key es e h s = (
    subst (Stands hash_parts (suc levels) _ es) (sym e) s.0,
    Holds-transfer f g levels (left_child key) _ (h (left_child key) (inl refl))
        (λ q b. h q (Below-child false key q b)) s.1,
    Holds-transfer f g levels (right_child key) _ (h (right_child key) (inl refl))
        (λ q b. h q (Below-child true key q b)) s.2,
  )

  -- Nothing written.
  pub Placed-unchanged :
      (levels : ℕ) (key : Key) (es : List Commitment)
      → Holds hash_parts (λ k. existing (node k)) levels key es
      → Placed (some ([], existing (node key))) levels key es
  Placed-unchanged levels key es s = (
    [],
    _,
    refl,
    tt,
    λ g e h.
        Holds-transfer (λ k. existing (node k)) g levels key es e
          (λ q b. h q b ∙ ap existing (nothing q)) s,
  )
    where
      nothing : (q : Key) → committed [] node q ≡ node q
      nothing q = unfold committed in refl

  Puts-mark_stale : (P : Key → Type 0) (key : Key) → Puts P (mark_stale hash_parts node version key)
  Puts-mark_stale P key = go (node key)
    where
      go : (found : Option (ℕ × Node)) → Puts P (stale_marker hash_parts node version key found)
      go none = tt
      go (some (v, n)) = tt

  pub Placed-after :
      (levels : ℕ) (key : Key) (es : List Commitment) (outcome : Outcome)
      → Placed outcome levels key es
      → Placed (after (mark_stale hash_parts node version key) outcome) levels key es
  Placed-after levels key es outcome (w, r, e, p, l) = (
    _,
    r,
    ap (after (mark_stale hash_parts node version key)) e,
    Puts-append (Below key) (mark_stale hash_parts node version key) w
        (Puts-mark_stale (Below key) key) p,
    λ g f h. l g f λ q b.
        h q b
        ∙ ap (λ (s : Key → Option (ℕ × Node)). existing (s q))
            (committed-append (mark_stale hash_parts node version key) w node
              ∙ ap (committed w) (committed-mark_stale hash_parts node version key node)),
  )
