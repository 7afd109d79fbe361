-- ===== src/Smt/Stored.antt =====
-- core/smt/src: the tree after a commit. What an update wrote is what a later update reads: the latest
-- node of a position is the one put last.
--
-- The reads go to other crates' stores; what is assumed of them is in `committed`. A stale marker
-- changes no read before the pruning of its version.
pub mod Deleted
pub mod Positions
pub mod Placed
pub mod Rooted
pub mod Grown
use vprogs.Base.{
  ℕ, zero, suc, ◌≡◌, refl, subst, sym, List, [], ◌∷◌, ◌++◌, Bool, true, false, Option, none, some,
  if◌then◌else◌,
}
use vprogs.Smt.{Key, Node, Commitment, leaf_node, root_key, left_child, right_child}
use vprogs.Smt.Updater.{Write, put_node, put_stale_node, existing, mark_stale, stale_marker}
use vprogs.Smt.Reference.{Stands, Holds, left_part, right_part}

abbrev pub same_key : Key → Key → Bool
same_key [] [] = true
same_key [] (b ∷ k) = false
same_key (a ∷ j) [] = false
same_key (true ∷ j) (true ∷ k) = same_key j k
same_key (false ∷ j) (false ∷ k) = same_key j k
same_key (true ∷ j) (false ∷ k) = false
same_key (false ∷ j) (true ∷ k) = false

abbrev pub commit_write : Write → (Key → Option (ℕ × Node)) → Key → Option (ℕ × Node)
commit_write (put_node key version n) node k = if same_key key k then some (version, n) else node k
commit_write (put_stale_node stale) node k = node k

unfoldable pub committed : List Write → (Key → Option (ℕ × Node)) → Key → Option (ℕ × Node)
committed [] node = node
committed (w ∷ ws) node = committed ws (commit_write w node)

pub committed-append :
    (us ws : List Write) (node : Key → Option (ℕ × Node))
    → committed (us ++ ws) node ≡ committed ws (committed us node)
unfolding committed
committed-append [] ws node = refl
committed-append (u ∷ us) ws node = committed-append us ws (commit_write u node)

module _ (hash_parts : List ℕ → List ℕ → ℕ) where
  pub committed-mark_stale :
      (node : Key → Option (ℕ × Node)) (version : ℕ) (key : Key) (store : Key → Option (ℕ × Node))
      → committed (mark_stale hash_parts node version key) store ≡ store
  unfolding committed
  committed-mark_stale node version key store = go (node key)
    where
      go :
          (found : Option (ℕ × Node))
          → committed (stale_marker hash_parts node version key found) store ≡ store
      go none = refl
      go (some (v, n)) = refl

  -- Below the root, only the nodes below the root matter.
  pub Holds-agree :
      (f g : Key → Option Node)
      → ((b : Bool) (k : Key) → f (b ∷ k) ≡ g (b ∷ k))
      → (levels : ℕ) (b : Bool) (k : Key) (es : List Commitment)
      → Holds hash_parts f levels (b ∷ k) es
      → Holds hash_parts g levels (b ∷ k) es
  Holds-agree f g e zero b k es h = subst (Stands hash_parts zero _ es) (e b k) h
  Holds-agree f g e (suc levels) b k es h = (
    subst (Stands hash_parts (suc levels) _ es) (e b k) h.0,
    Holds-agree f g e levels false (b ∷ k) _ h.1,
    Holds-agree f g e levels true (b ∷ k) _ h.2,
  )

  -- Trees for the empty list, one entry and two entries.
  pub nothing-Holds :
      (f : Key → Option Node)
      → ((b c : Bool) (k : Key) → f (b ∷ c ∷ k) ≡ none)
      → (levels : ℕ) (b c : Bool) (k : Key) → Holds hash_parts f levels (b ∷ c ∷ k) []
  nothing-Holds f e zero b c k = e b c k
  nothing-Holds f e (suc levels) b c k =
      (e b c k, nothing-Holds f e levels false b (c ∷ k), nothing-Holds f e levels true b (c ∷ k))

  pub leaf-Holds :
      (f : Key → Option Node)
      → ((b c : Bool) (k : Key) → f (b ∷ c ∷ k) ≡ none)
      → (levels : ℕ) (b : Bool) (u : Commitment)
      → f (b ∷ []) ≡ some (leaf_node hash_parts u.key u.value_hash)
      → Holds hash_parts f levels (b ∷ []) (u ∷ [])
  leaf-Holds f e zero b u h = h
  leaf-Holds f e (suc levels) b u h =
      (h, nothing-Holds f e levels false b [], nothing-Holds f e levels true b [])

  pub two-Holds :
      (f : Key → Option Node) (levels : ℕ) (u v : Commitment)
      → Stands hash_parts (suc levels) 0 (u ∷ v ∷ []) (f root_key)
      → left_part 0 (u ∷ v ∷ []) ≡ u ∷ []
      → right_part 0 (u ∷ v ∷ []) ≡ v ∷ []
      → Holds hash_parts f levels (left_child root_key) (u ∷ [])
      → Holds hash_parts f levels (right_child root_key) (v ∷ [])
      → Holds hash_parts f (suc levels) root_key (u ∷ v ∷ [])
  two-Holds f levels u v s p q h k = (
    s,
    subst (Holds hash_parts f levels (left_child root_key)) (sym p) h,
    subst (Holds hash_parts f levels (right_child root_key)) (sym q) k,
  )
