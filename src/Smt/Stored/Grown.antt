-- ===== src/Smt/Stored/Grown.antt =====
-- core/smt/src/tree.rs: any number of updates that delete nothing.
use vprogs.Base.{
  ℕ, suc, ◌-◌, ◌<◌, ◌≡◌, refl, sym, inl, inr, List, [], ◌∷◌, true, Option, none, some, ap, ◌∙◌,
  arith, ◌==◌, Bool-cases,
}
use vprogs.Smt.{
  Key, Node, Commitment, HashedNode, depth, root_key, subtree_hash, empty_hash, empty_node,
}
use vprogs.Smt.Updater.{Write, apply, existing}
use vprogs.Smt.Tree.{root, update, update_some, grow}
use vprogs.Smt.Entries.{Live, Ascending, set_entries, set_entries-Ascending, set_entries-Live}
use vprogs.Smt.Entries.Halves.{Shares, set_entries-Shares}
use vprogs.Smt.Reference.{Holds}
use vprogs.Smt.Reference.Updates.{apply-subtree_hash}
use vprogs.Smt.Stored.{committed}
use vprogs.Smt.Reference.Joined.{subtree_hash_nothing}
use vprogs.Smt.Stored.Rooted.{update-Holds, root_reads, Holds-root, none-Holds, hash_of, hash_in}

first_version : (version : ℕ) → 0 < version → ((version - 1) == 0) ≡ true → version ≡ 1
first_version version h g = ground arith

-- Commitments to set, with keys of 256 bits.
abbrev pub Inserts : List (List Commitment) → Type 0
Inserts [] = Unit
Inserts (batch ∷ batches) = Live batch × Shares depth 0 batch × Inserts batches

abbrev pub entries_after : List Commitment → List (List Commitment) → List Commitment
entries_after es [] = es
entries_after es (batch ∷ batches) = entries_after (set_entries es batch) batches

module _ (hash_parts : List ℕ → List ℕ → ℕ) where
  -- A tree at a version: what it holds, and its last hash.
  record Grows (node : Key → Option (ℕ × Node)) (version : ℕ) (es : List Commitment) (last : ℕ)
      : Type 0 where
    started : 0 < version
    first : version ≡ 1 → es ≡ []
    ascending : Ascending es
    lives : Live es
    shares : Shares depth 0 es
    reference : HashedNode
    referred : subtree_hash hash_parts depth 0 es ≡ some reference
    hashed : reference.hash ≡ last
    holds : Holds hash_parts (λ key. existing (node key)) depth root_key es

  abbrev Steps : (Key → Option (ℕ × Node)) → ℕ → List Commitment → List Commitment → Type 0
  Steps node version es batch =
      (writes : List Write) × (hash : ℕ) × (update hash_parts node version batch
        ≡ some (writes, hash))
      × Grows (committed writes node) (suc version) (set_entries es batch) hash

  root_hash :
      (node : Key → Option (ℕ × Node)) (version : ℕ) (es : List Commitment) (last : ℕ)
      (g : Grows node version es last)
      → root node (version - 1) ≡ g.reference.hash
  root_hash node version es last g = elim (Bool-cases ((version - 1) == 0)) [
    | inl genesis ↦ rw genesis (
        ap hash_of (
          sym (subtree_hash_nothing hash_parts depth 0)
          ∙ ap (subtree_hash hash_parts depth 0)
              (sym (g.first (first_version version g.started genesis)))
          ∙ g.referred))
    | inr later ↦ rw later (
        root_reads hash_parts depth es (node root_key) g.reference g.lives
          (Holds-root hash_parts (λ key. existing (node key)) depth es g.holds) g.referred)
  ]

  update_some_lem :
      (node : Key → Option (ℕ × Node)) (version : ℕ) (batch : List Commitment)
      → 0 < version
      → update hash_parts node version batch ≡ update_some hash_parts node version batch
  unfolding update
  update_some_lem node version batch h = elim (Bool-cases (version == 0)) [
    | inl genesis ↦ ground (arith, genesis, h)
    | inr later ↦ rw later refl
  ]

  -- One update: the reference hash, and a tree that holds the new entries.
  update-Steps :
      (node : Key → Option (ℕ × Node)) (version : ℕ) (es : List Commitment) (last : ℕ)
      (batch : List Commitment)
      → Live batch
      → Shares depth 0 batch
      → Grows node version es last
      → Steps node version es batch
  unfolding committed set_entries apply
  update-Steps node version es last [] l s g = (
    [],
    root node (version - 1),
    update_some_lem node version [] g.started,
    record {
      started = omega (arith, g.started);
      first = λ h. absurd (omega (arith, h, g.started));
      ascending = g.ascending;
      lives = g.lives;
      shares = g.shares;
      reference = g.reference;
      referred = g.referred;
      hashed = sym (root_hash node version es last g);
      holds = g.holds;
    },
  )
  update-Steps node version es last (c ∷ cs) l s g =
      go
        (apply-subtree_hash hash_parts node version es (c ∷ cs) g.ascending g.lives g.shares s
          g.holds)
        (update-Holds hash_parts node version depth es (c ∷ cs) refl g.ascending g.lives g.shares l
          s g.holds)
    where
      go :
          ((writes : List Write) × (root : HashedNode) × (subtree_hash hash_parts depth 0
                (set_entries es (c ∷ cs))
              ≡ some root)
            × (apply hash_parts node version (c ∷ cs) ≡ some (writes, root.hash)))
          → ((writes : List Write) × (hash : ℕ) × (apply hash_parts node version (c ∷ cs)
                ≡ some (writes, hash))
              × Holds hash_parts
                  (λ key. existing (committed writes node key))
                  depth
                  root_key
                  (set_entries es (c ∷ cs)))
          → Steps node version es (c ∷ cs)
      go (w, r, e, f) (w', hash, f', h) = (
        w',
        hash,
        update_some_lem node version (c ∷ cs) g.started ∙ f',
        record {
          started = omega (arith, g.started);
          first = λ k. absurd (omega (arith, k, g.started));
          ascending = set_entries-Ascending es (c ∷ cs) g.ascending;
          lives = set_entries-Live es (c ∷ cs) g.lives;
          shares = set_entries-Shares depth 0 es (c ∷ cs) g.shares s;
          reference = r;
          referred = e;
          hashed = ap hash_in (sym f ∙ f');
          holds = h;
        },
      )

  grow_lem :
      (batches : List (List Commitment)) (node : Key → Option (ℕ × Node)) (version : ℕ)
      (es : List Commitment) (last : ℕ)
      → Inserts batches
      → Grows node version es last
      → (reference : HashedNode) × (subtree_hash hash_parts depth 0 (entries_after es batches)
          ≡ some reference)
        × (grow hash_parts version batches node last ≡ some reference.hash)
  unfolding grow
  grow_lem [] node version es last i g = (g.reference, g.referred, ap some (sym g.hashed))
  grow_lem (batch ∷ batches) node version es last i g =
      let (w, hash, e, h) = update-Steps node version es last batch i.0 i.1 g in
      rw e (grow_lem batches (committed w node) (suc version) (set_entries es batch) hash i.2 h)

-- From the empty tree, updates at the versions 1, 2 and on, each committed before the next, all
-- succeed, and the root hash that the last one returns is the reference hash of all commitments
-- set one after the other, whatever the batches and the order in them: a later commitment of a key
-- has its earlier value replaced. The commitments are live, none deletes, and have keys of 256
-- bits; a batch may have none. Of no update the last root hash is the empty one.
pub grow-subtree_hash :
    (hash_parts : List ℕ → List ℕ → ℕ) (batches : List (List Commitment))
    → Inserts batches
    → (reference : HashedNode) × (subtree_hash hash_parts depth 0 (entries_after [] batches)
        ≡ some reference)
      × (grow hash_parts 1 batches (λ key. none) empty_hash ≡ some reference.hash)
grow-subtree_hash hash_parts batches i =
    grow_lem hash_parts batches (λ key. none) 1 [] empty_hash i
      (record {
        started = omega arith;
        first = λ e. refl;
        ascending = tt;
        lives = tt;
        shares = tt;
        reference = empty_node;
        referred = subtree_hash_nothing hash_parts depth 0;
        hashed = refl;
        holds = none-Holds hash_parts depth root_key;
      })
