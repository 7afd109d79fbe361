-- ===== src/Smt/Proving/Root.antt =====
-- core/smt/src/proving: a built proof, read back by the walk.
use vprogs.Base.{
  ℕ, suc, ◌+◌, ◌<◌, ◌≡◌, refl, sym, subst, ap, ap₂, ◌∙◌, List, [], ◌∷◌, ◌++◌, Bool, Option, some,
  arith, and_then, get_elem?, length, map, length-append, append_assoc,
}
use vprogs.Codec.Bits.{get_lsb}
use vprogs.Smt.{Key, Node, Commitment, HashedNode, depth, root_key, subtree_hash}
use vprogs.Smt.Updater.{existing}
use vprogs.Smt.Entries.{Ascending, Live}
use vprogs.Smt.Entries.Halves.{Shares}
use vprogs.Smt.Reference.{Holds}
use vprogs.Smt.Proving.Topology.{Topology, bit_or_false, push_all-get_lsb}
use vprogs.Smt.Proving.Traversal.{Leaf, Proof, Cursor, Membership, absent, walk, proof_root}
use vprogs.Smt.Proving.Shape.{Tip, Shape, Fitting, tips, sibs, bits, At, AtBits, AtTips}
use vprogs.Smt.Proving.Walk.{shape_hash, walk-shape_hash}
use vprogs.Codec.SortUnique.{sort_unique}
use vprogs.Smt.Proving.Lays.{as_entries, total, Lays-total}
use vprogs.Smt.Proving.Unique.{Within, sort_unique_lem}
use vprogs.Smt.Proving.Classes.{
  slots_of, length-same, length-slots_of, slots_of-Within, fill_groups-slots_of,
  classify_slots-some,
}
use vprogs.Smt.Proving.Builder.{ProofBuilder, found_summary, new_builder, built, build}
use vprogs.Smt.Proving.Collected.{Adds, Resolves, length-Resolves}
use vprogs.Smt.Proving.Complete.{summed, collect-Collects}

pub get_elem?-length_append :
    {A : Type 0} (xs ys : List A) (y : A) → get_elem? (xs ++ y ∷ ys) (length xs) ≡ some y
get_elem?-length_append [] ys y = refl
get_elem?-length_append (x ∷ xs) ys y = get_elem?-length_append xs ys y

pub At-here :
    {A : Type 0} (whole before ys : List A) (n : ℕ)
    → whole ≡ before ++ ys
    → n ≡ length before
    → At whole n ys
At-here whole before [] n e h = tt
At-here whole before (y ∷ ys) n e h = (
  ap₂ get_elem? e h ∙ get_elem?-length_append before ys y,
  At-here whole (before ++ y ∷ []) ys (suc n) (e ∙ sym (append_assoc before (y ∷ []) ys))
      (omega (arith, h, length-append before (y ∷ []))),
)

AtTips-here :
    (p : Proof) (before ls : List Leaf) (ts : List Tip) (n : ℕ)
    → p.leaves ≡ before ++ ls
    → n ≡ length before
    → Resolves p.keys ls ts
    → AtTips p n ts
AtTips-here p before [] [] n e h r = tt
AtTips-here p before [] (t ∷ ts) n e h r = absurd r
AtTips-here p before (l ∷ ls) [] n e h r = tt
AtTips-here p before (l ∷ ls) (t ∷ ts) n e h r = (
  l,
  ap₂ get_elem? e h ∙ get_elem?-length_append before ls l,
  r.0,
  r.1,
  AtTips-here p (before ++ l ∷ []) ls ts (suc n) (e ∙ sym (append_assoc before (l ∷ []) ls))
      (omega (arith, h, length-append before (l ∷ []))) r.3,
)

AtBits-here :
    (topology : List ℕ) (n : ℕ) (bs : List Bool)
    → ((i : ℕ) → get_lsb topology (n + i) ≡ bit_or_false (get_elem? bs i))
    → AtBits topology n bs
AtBits-here topology n [] h = tt
AtBits-here topology n (b ∷ bs) h = (
  ap (get_lsb topology) (omega arith) ∙ h 0,
  AtBits-here topology (suc n) bs (λ i. ap (get_lsb topology) (omega arith) ∙ h (suc i)),
)

pub length-leaves :
    (keys_input : List ℕ) (c : ProofBuilder) (s : Shape) (mss : List (List ℕ))
    → Adds (new_builder keys_input) c s 0 mss
    → (length c.leaves ≡ length (tips s)) × (length (tips s) ≡ length mss)
length-leaves keys_input c s mss a = (
  omega (
    arith,
    ap (λ (t : List Leaf). length t) a.leaved,
    length-Resolves c.keys a.new_leaves (tips s) a.resolved,
  ),
  sym a.grouped,
)

module _ (keys_input : List ℕ) (c : ProofBuilder) (s : Shape) (mss : List (List ℕ))
    (ms : List Membership) where
  pub built-tips : Adds (new_builder keys_input) c s 0 mss → AtTips (built c ms) 0 (tips s)
  built-tips a = AtTips-here (built c ms) [] a.new_leaves (tips s) 0 a.leaved refl a.resolved

  pub built-sibs : Adds (new_builder keys_input) c s 0 mss → At c.siblings 0 (sibs s)
  built-sibs a = At-here c.siblings [] (sibs s) 0 a.siblinged refl

  pub built-bits : Adds (new_builder keys_input) c s 0 mss → AtBits c.topology.bytes 0 (bits s)
  built-bits a = AtBits-here c.topology.bytes 0 (bits s) (λ i.
      ap (get_lsb c.topology.bytes) (omega arith)
      ∙ ap (λ (t : Topology). get_lsb t.bytes i) a.shaped
      ∙ (push_all-get_lsb (bits s) i).2)

  -- The slots have the leaves of their groups.
  pub built_slots :
      Adds (new_builder keys_input) c s 0 mss
      → length keys_input ≡ total mss
      → c.sorted_to_leaf ≡ slots_of 0 mss
  built_slots a n =
      a.slotted
      ∙ fill_groups-slots_of mss 0 0 [] (map (λ k. 0) keys_input) refl
          (length-same 0 keys_input ∙ n)

module _ (hash_parts : List ℕ → List ℕ → ℕ) where
  -- The walk of what was added to a new builder.
  built-walks :
      (levels : ℕ) (keys_input : List ℕ) (c : ProofBuilder) (s : Shape) (mss : List (List ℕ))
      (ms : List Membership)
      → levels + 0 ≡ depth
      → Adds (new_builder keys_input) c s 0 mss
      → Fitting levels 0 0 s
      → walk hash_parts
          (built c ms)
          levels
          0
          (length c.leaves)
          0
          (record { sibling_idx = 0; topo_bit = 0 })
        ≡ some (
          shape_hash hash_parts s,
          record { sibling_idx = 0 + length (sibs s); topo_bit = 0 + length (bits s) },
        )
  built-walks levels keys_input c s mss ms at a f =
      walk-shape_hash hash_parts (built c ms) levels 0 0 s 0 (length c.leaves) 0 0 at f
        (omega (arith, (length-leaves keys_input c s mss a).0)) (built-tips keys_input c s mss ms a)
        (built-sibs keys_input c s mss ms a) (built-bits keys_input c s mss ms a)

-- Where a tree holds a list of live entries, with ascending keys of 256 bits, the building of a
-- proof for one key or more, all different, succeeds, and the root that the proof computes from
-- its own leaves, siblings and packed topology is the reference hash of the entries. The keys come
-- in any order that `sort_unique` sorts without an error, are 256 bits long, and may be present or
-- absent. The tree holds the entries where each position has the node of its part of the entries,
-- and none below a leaf or an empty position.
pub proof_root-build :
    (hash_parts : List ℕ → List ℕ → ℕ) (node : Key → Option (ℕ × Node)) (es : List Commitment)
    (keys_input sorted order : List ℕ)
    → Ascending es
    → Live es
    → Shares depth 0 es
    → Holds hash_parts (λ key. existing (node key)) depth root_key es
    → sort_unique keys_input ≡ some (sorted, order)
    → 0 < length keys_input
    → Shares depth 0 (as_entries sorted)
    → (proof : Proof) × (reference : HashedNode) × (build node keys_input ≡ some proof)
      × (subtree_hash hash_parts depth 0 es ≡ some reference)
      × (proof_root hash_parts proof ≡ some reference.hash)
unfolding build proof_root
proof_root-build hash_parts node es keys_input sorted order a l s h q n t =
    let (b, ls, lo, w) = sort_unique_lem keys_input sorted order q in
    let (c, shape, mss, e, adds, f, y, k) =
      collect-Collects hash_parts node depth 0 root_key es refl (a, l, s) h sorted 0
        (new_builder keys_input) (omega (arith, ls, n)) (b, t) in
    let (leaves, groups) = length-leaves keys_input c shape mss adds in
    let count : length keys_input ≡ total mss =
      sym ls ∙ sym (Lays-total hash_parts depth 0 0 es sorted shape mss y) in
    let slots = built_slots keys_input c shape mss [] adds count in
    let (ms, m) =
      classify_slots-some c.leaves (slots_of 0 mss) order (map (λ i. absent 0) order)
        (length-slots_of 0 mss ∙ sym count ∙ sym lo)
        (slots_of-Within (length c.leaves) 0 mss (omega (arith, leaves, groups)))
        (subst (λ (i : ℕ). Within i order) (sym lo ∙ sym (length-same (absent 0) order)) w) in
    (
      built c ms,
      found_summary (node root_key),
      rw (q, e, slots, m) refl,
      summed hash_parts node depth root_key es h l,
      ap (λ (o : Option (HashedNode × Cursor)). and_then o λ r. some r.0.hash)
            (built-walks hash_parts depth keys_input c shape mss ms refl adds f)
          ∙ ap (λ (x : HashedNode). some x.hash) k,
    )
