-- ===== src/Smt/Proving/Collected.antt =====
-- core/smt/src/proving/proof_builder.rs: what a collection adds to the parts of a proof.
use vprogs.Base.{
  ℕ, zero, suc, ◌+◌, ◌≡◌, refl, sym, subst, ap, ap₂, ◌∙◌, inl, inr, List, [], ◌∷◌, ◌++◌, Bool, true,
  false, Option, none, some, arith, ◌==◌, if◌then◌else◌, and_then, get_elem?, length, length-append,
  append_assoc, append_nil, Bool-cases, Option-cases,
}
use vprogs.Smt.{Commitment, HashedNode}
use vprogs.Smt.Proving.Topology.{Topology, push, push_all}
use vprogs.Smt.Proving.Traversal.{Leaf, resolve}
use vprogs.Smt.Proving.Shape.{Tip, Shape, tip, fork, side, tips, sibs, bits}
use vprogs.Smt.Proving.Lays.{total}
use vprogs.Smt.Proving.Builder.{
  ProofBuilder, find_key, fill, intern_key, emit_leaf, push_split, push_sibling,
}

-- The leaves of the proof are the tips.
abbrev pub Resolves : List ℕ → List Leaf → List Tip → Type 0
Resolves keys [] [] = Unit
Resolves keys [] (t ∷ ts) = ⊥
Resolves keys (l ∷ ls) [] = ⊥
Resolves keys (l ∷ ls) (t ∷ ts) =
    (l.depth ≡ t.depth)
    × (resolve keys l ≡ some t.entry)
    × (find_key keys t.entry.key ≡ some l.key_idx)
    × Resolves keys ls ts

pub length-Resolves :
    (keys : List ℕ) (ls : List Leaf) (ts : List Tip) → Resolves keys ls ts → length ls ≡ length ts
length-Resolves keys [] [] r = refl
length-Resolves keys [] (t ∷ ts) r = absurd r
length-Resolves keys (l ∷ ls) [] r = absurd r
length-Resolves keys (l ∷ ls) (t ∷ ts) r = ap suc (length-Resolves keys ls ts r.3)

-- The slots of successive groups have successive leaves.
abbrev pub fill_groups : List (List ℕ) → ℕ → ℕ → List ℕ → List ℕ
fill_groups [] leaf_pos offset slots = slots
fill_groups (ms ∷ mss) leaf_pos offset slots =
    fill_groups mss (suc leaf_pos) (offset + length ms) (fill slots offset (length ms) leaf_pos)

fill_groups-append :
    (ml mr : List (List ℕ)) (leaf_pos offset : ℕ) (slots : List ℕ)
    → fill_groups (ml ++ mr) leaf_pos offset slots
      ≡ fill_groups mr
          (leaf_pos + length ml)
          (offset + total ml)
          (fill_groups ml leaf_pos offset slots)
fill_groups-append [] mr leaf_pos offset slots =
    ap₂ (λ (i j : ℕ). fill_groups mr i j slots) (omega arith) (omega arith)
fill_groups-append (ms ∷ ml) mr leaf_pos offset slots =
    fill_groups-append ml mr (suc leaf_pos) (offset + length ms)
      (fill slots offset (length ms) leaf_pos)
    ∙ ap₂
        (λ (i j : ℕ). fill_groups mr i j (
          fill_groups ml (suc leaf_pos) (offset + length ms)
            (fill slots offset (length ms) leaf_pos)))
        (omega arith) (omega arith)

-- `c` is `b` with the parts of the laid-out tree, whose leaves answer the groups of keys from the
-- place `offset` on.
pub record Adds (b c : ProofBuilder) (s : Shape) (offset : ℕ) (mss : List (List ℕ)) : Type 0 where
  pub new_keys : List ℕ
  pub keyed : c.keys ≡ b.keys ++ new_keys
  pub new_leaves : List Leaf
  pub leaved : c.leaves ≡ b.leaves ++ new_leaves
  pub resolved : Resolves c.keys new_leaves (tips s)
  pub siblinged : c.siblings ≡ b.siblings ++ sibs s
  pub shaped : c.topology ≡ push_all b.topology (bits s)
  pub grouped : length mss ≡ length (tips s)
  pub slotted : c.sorted_to_leaf ≡ fill_groups mss (length b.leaves) offset b.sorted_to_leaf

get_elem?-append :
    {A : Type 0} (xs ys : List A) (i : ℕ) (x : A)
    → get_elem? xs i ≡ some x
    → get_elem? (xs ++ ys) i ≡ some x
get_elem?-append [] ys i x h = cc
get_elem?-append (z ∷ zs) ys zero x h = h
get_elem?-append (z ∷ zs) ys (suc i) x h = get_elem?-append zs ys i x h

get_elem?-snoc_last :
    {A : Type 0} (xs : List A) (x : A) → get_elem? (xs ++ x ∷ []) (length xs) ≡ some x
get_elem?-snoc_last [] x = refl
get_elem?-snoc_last (y ∷ ys) x = get_elem?-snoc_last ys x

resolve-append :
    (keys more : List ℕ) (l : Leaf) (u : Commitment)
    → resolve keys l ≡ some u
    → resolve (keys ++ more) l ≡ some u
resolve-append keys more l u h = elim (Option-cases (get_elem? keys l.key_idx)) [
  | inl missing ↦ cc (h, missing)
  | inr (k, e) ↦ rw (get_elem?-append keys more l.key_idx k e) (
      sym (
        ap
          (λ (o : Option ℕ).
            and_then o λ key. some (record { key = key; value_hash = l.value_hash }))
          e)
      ∙ h)
]

abbrev found_at : Option ℕ → Bool → Option ℕ
found_at o same = if same then some 0 else and_then o λ i. some (suc i)

find_key-append :
    (keys more : List ℕ) (key idx : ℕ)
    → find_key keys key ≡ some idx
    → find_key (keys ++ more) key ≡ some idx
find_key-append [] more key idx h = cc
find_key-append (k ∷ ks) more key idx h = elim (Bool-cases (k == key)) [
  | inl same ↦ rw same (sym (ap (found_at (find_key ks key)) same) ∙ h)
  | inr apart ↦ elim (Option-cases (find_key ks key)) [
    | inl missing ↦
        let never : found_at none false ≡ some idx =
          sym (ap (λ (o : Option ℕ). found_at o false) missing)
          ∙ sym (ap (found_at (find_key ks key)) apart)
          ∙ h in
        cc never
    | inr (i, e) ↦
        rw (apart, find_key-append ks more key i e)
          (sym (ap (λ (o : Option ℕ). found_at o false) e)
            ∙ sym (ap (found_at (find_key ks key)) apart)
            ∙ h)
  ]
]

find_key-snoc :
    (keys : List ℕ) (key : ℕ)
    → find_key keys key ≡ none
    → find_key (keys ++ key ∷ []) key ≡ some (length keys)
find_key-snoc [] key h = let same : (key == key) ≡ true = ground arith in rw same refl
find_key-snoc (k ∷ ks) key h = elim (Bool-cases (k == key)) [
  | inl same ↦ cc (sym (ap (found_at (find_key ks key)) same) ∙ h)
  | inr apart ↦ elim (Option-cases (find_key ks key)) [
    | inl missing ↦ rw (apart, find_key-snoc ks key missing) refl
    | inr (i, e) ↦ cc (
        sym (ap (λ (o : Option ℕ). found_at o false) e)
        ∙ sym (ap (found_at (find_key ks key)) apart)
        ∙ h)
  ]
]

Resolves-more :
    (keys more : List ℕ) (ls : List Leaf) (ts : List Tip)
    → Resolves keys ls ts
    → Resolves (keys ++ more) ls ts
Resolves-more keys more [] [] r = tt
Resolves-more keys more [] (t ∷ ts) r = absurd r
Resolves-more keys more (l ∷ ls) [] r = absurd r
Resolves-more keys more (l ∷ ls) (t ∷ ts) r = (
  r.0,
  resolve-append keys more l t.entry r.1,
  find_key-append keys more t.entry.key l.key_idx r.2,
  Resolves-more keys more ls ts r.3,
)

Resolves-append :
    (keys : List ℕ) (ls ms : List Leaf) (ts us : List Tip)
    → Resolves keys ls ts
    → Resolves keys ms us
    → Resolves keys (ls ++ ms) (ts ++ us)
Resolves-append keys [] ms [] us r q = q
Resolves-append keys [] ms (t ∷ ts) us r q = absurd r
Resolves-append keys (l ∷ ls) ms [] us r q = absurd r
Resolves-append keys (l ∷ ls) ms (t ∷ ts) us r q =
    (r.0, r.1, r.2, Resolves-append keys ls ms ts us r.3 q)

push_all-append :
    (t : Topology) (xs ys : List Bool) → push_all t (xs ++ ys) ≡ push_all (push_all t xs) ys
unfolding push_all
push_all-append t [] ys = refl
push_all-append t (x ∷ xs) ys = push_all-append (push t x) xs ys

fork_slots :
    (b c d : ProofBuilder) (l : Shape) (ml : List (List ℕ)) (offset : ℕ)
    → Adds (push_split b) c l offset ml
    → length c.leaves ≡ length b.leaves + length ml
fork_slots b c d l ml offset p = omega (
  arith,
  ap (λ (t : List Leaf). length t) p.leaved,
  length-append b.leaves p.new_leaves,
  length-Resolves c.keys p.new_leaves (tips l) p.resolved,
  p.grouped,
)

pub fork-Adds :
    (b c d : ProofBuilder) (l r : Shape) (offset : ℕ) (ml mr : List (List ℕ))
    → Adds (push_split b) c l offset ml
    → Adds c d r (offset + total ml) mr
    → Adds b d (fork l r) offset (ml ++ mr)
fork-Adds b c d l r offset ml mr p q = record {
  new_keys = p.new_keys ++ q.new_keys;
  keyed =
      q.keyed
      ∙ ap (λ (t : List ℕ). t ++ q.new_keys) p.keyed
      ∙ append_assoc b.keys p.new_keys q.new_keys;
  new_leaves = p.new_leaves ++ q.new_leaves;
  leaved =
      q.leaved
      ∙ ap (λ (t : List Leaf). t ++ q.new_leaves) p.leaved
      ∙ append_assoc b.leaves p.new_leaves q.new_leaves;
  resolved =
      Resolves-append d.keys p.new_leaves q.new_leaves (tips l) (tips r)
        (subst (λ (t : List ℕ). Resolves t p.new_leaves (tips l)) (sym q.keyed)
          (Resolves-more c.keys q.new_keys p.new_leaves (tips l) p.resolved))
        q.resolved;
  siblinged =
      q.siblinged
      ∙ ap (λ (t : List HashedNode). t ++ sibs r) p.siblinged
      ∙ append_assoc b.siblings (sibs l) (sibs r);
  shaped =
      q.shaped
      ∙ ap (λ (t : Topology). push_all t (bits r)) p.shaped
      ∙ sym (push_all-append (push b.topology true) (bits l) (bits r))
      ∙ unfold push_all in refl;
  grouped =
      omega (arith, p.grouped, q.grouped, length-append ml mr, length-append (tips l) (tips r));
  slotted =
      q.slotted
      ∙ ap₂ (λ (i : ℕ) (t : List ℕ). fill_groups mr i (offset + total ml) t)
          (fork_slots b c d l ml offset p) p.slotted
      ∙ sym (fill_groups-append ml mr (length b.leaves) offset b.sorted_to_leaf);
}

pub side-Adds :
    (b c : ProofBuilder) (goes_left : Bool) (x : HashedNode) (s : Shape) (offset : ℕ)
    (mss : List (List ℕ))
    → Adds (push_sibling x b) c s offset mss
    → Adds b c (side goes_left x s) offset mss
side-Adds b c goes_left x s offset mss p = record {
  new_keys = p.new_keys;
  keyed = p.keyed;
  new_leaves = p.new_leaves;
  leaved = p.leaved;
  resolved = p.resolved;
  siblinged = p.siblinged ∙ append_assoc b.siblings (x ∷ []) (sibs s);
  shaped = p.shaped ∙ unfold push_all in refl;
  grouped = p.grouped;
  slotted = p.slotted;
}

pub find_key-finds :
    (keys : List ℕ) (key idx : ℕ) → find_key keys key ≡ some idx → get_elem? keys idx ≡ some key
find_key-finds [] key idx h = cc
find_key-finds (k ∷ ks) key idx h = elim (Bool-cases (k == key)) [
  | inl same ↦
      let here : some 0 ≡ some idx = sym (ap (found_at (find_key ks key)) same) ∙ h in
      let first : 0 ≡ idx = cc in
      ap (λ (i : ℕ). get_elem? (k ∷ ks) i) (sym first) ∙ ap some (ground (arith, same))
  | inr apart ↦
      later (find_key ks key) (find_key-finds ks key) refl
        (sym (ap (found_at (find_key ks key)) apart) ∙ h)
]
  where
    later :
        (o : Option ℕ)
        → ((i : ℕ) → find_key ks key ≡ some i → get_elem? ks i ≡ some key)
        → find_key ks key ≡ o
        → found_at (find_key ks key) false ≡ some idx
        → get_elem? (k ∷ ks) idx ≡ some key
    later none below e f =
        let never : found_at none false ≡ some idx =
          sym (ap (λ (o : Option ℕ). found_at o false) e) ∙ f in
        cc
    later (some i) below e f =
        let further : some (suc i) ≡ some idx =
          sym (ap (λ (o : Option ℕ). found_at o false) e) ∙ f in
        let next : suc i ≡ idx = cc in ap (λ (j : ℕ). get_elem? (k ∷ ks) j) (sym next) ∙ below i e

-- The key stands in the table at the index.
intern_key-stands :
    (keys : List ℕ) (key : ℕ) → get_elem? (intern_key keys key).1 (intern_key keys key).0 ≡ some key
intern_key-stands keys key = elim (Option-cases (find_key keys key)) [
  | inl missing ↦ rw missing (get_elem?-snoc_last keys key)
  | inr (idx, e) ↦ rw e (find_key-finds keys key idx e)
]

intern_key-finds :
    (keys : List ℕ) (key : ℕ) → find_key (intern_key keys key).1 key ≡ some (intern_key keys key).0
intern_key-finds keys key = elim (Option-cases (find_key keys key)) [
  | inl missing ↦ rw missing (find_key-snoc keys key missing)
  | inr (idx, e) ↦ rw (e, e) refl
]

intern_key-keeps :
    (keys : List ℕ) (key : ℕ) → (more : List ℕ) × ((intern_key keys key).1 ≡ keys ++ more)
intern_key-keeps keys key = elim (Option-cases (find_key keys key)) [
  | inl missing ↦ (key ∷ [], rw missing refl)
  | inr (idx, e) ↦ ([], rw e (sym (append_nil keys)))
]

pub emit-Adds :
    (key value_hash level offset : ℕ) (ms : List ℕ) (b : ProofBuilder)
    → Adds b
        (emit_leaf key value_hash level offset (length ms) b)
        (tip (record { depth = level; entry = record { key = key; value_hash = value_hash } }))
        offset
        (ms ∷ [])
emit-Adds key value_hash level offset ms b =
    let (more, e) = intern_key-keeps b.keys key in
    record {
      new_keys = more;
      keyed = e;
      new_leaves =
          record { depth = level; key_idx = (intern_key b.keys key).0; value_hash = value_hash }
          ∷ [];
      leaved = refl;
      resolved = (refl, rw (intern_key-stands b.keys key) refl, intern_key-finds b.keys key, tt);
      siblinged = sym (append_nil b.siblings);
      shaped = unfold push_all in refl;
      grouped = refl;
      slotted = refl;
    }
