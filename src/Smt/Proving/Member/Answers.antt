-- ===== src/Smt/Proving/Member/Answers.antt =====
-- core/smt/src/proving: the members of a laid-out proof answer for the entries.
use vprogs.Base.{
  ℕ, zero, suc, ◌+◌, ◌-◌, ◌/◌, ◌^◌, ◌≤◌, ◌≡◌, ◌≢◌, refl, sym, subst, ap, ◌∙◌, inl, inr, List, [],
  ◌∷◌, ◌++◌, true, false, some, arith, leb, ◌==◌, if◌then◌else◌, get_elem?, length, append_nil,
  ==_ne, Bool-cases,
}
use vprogs.Smt.{Commitment, empty_hash, depth}
use vprogs.Smt.Entries.{set_entry}
use vprogs.Smt.Entries.Halves.{Shares}
use vprogs.Smt.Proving.Traversal.{Leaf, Proof, resolve}
use vprogs.Smt.Proving.Shape.{Tip, Shape, tip, fork, side, tips, Fitting, AtTips, AtTips-append}
use vprogs.Smt.Proving.Lays.{as_entries, Sorted, Parts, Lays, total, Lays-total}
use vprogs.Smt.Proving.Post.Scanned.{Members}
use vprogs.Smt.Proving.Post.Classified.{resolve-parts}
use vprogs.Smt.Proving.Post.Members.{GroupMembers}
use vprogs.Smt.Proving.Member.{Member, member_value, shares_prefix, member}

-- The value of a key in the entries.
abbrev pub value_in : ℕ → List Commitment → ℕ
value_in key [] = empty_hash
value_in key (e ∷ es) = if e.key == key then e.value_hash else value_in key es

-- The member at the place has the key and its value.
abbrev pub Answer : Proof → ℕ → ℕ → List Commitment → Type 0
Answer p o k es =
    (m : Member) × (member p o ≡ some m) × (m.key ≡ k) × (member_value m ≡ value_in k es)

abbrev pub Answers : Proof → ℕ → List ℕ → List Commitment → Type 0
Answers p o [] es = Unit
Answers p o (k ∷ ks) es = Answer p o k es × Answers p (suc o) ks es

Answers-append :
    (p : Proof) (o : ℕ) (ks ls : List ℕ) (es : List Commitment)
    → Answers p o ks es
    → Answers p (o + length ks) ls es
    → Answers p o (ks ++ ls) es
Answers-append p o [] ls es a b = subst (λ (i : ℕ). Answers p i ls es) (omega arith) b
Answers-append p o (k ∷ ks) ls es a b = (
  a.0,
  Answers-append p (suc o) ks ls es a.1 (subst (λ (i : ℕ). Answers p i ls es) (omega arith) b),
)

-- Entries on the other side have other keys.
other_key :
    (levels prefix other key : ℕ) (e : Commitment)
    → key / 2 ^ levels ≡ prefix
    → e.key / 2 ^ levels ≡ other
    → prefix ≢ other
    → (e.key == key) ≡ false
other_key levels prefix other key e h s n =
    ==_ne e.key key (λ q. n (sym h ∙ ap (λ (t : ℕ). t / 2 ^ levels) (sym q) ∙ s))

value_in-append :
    (levels prefix other key : ℕ) (es fs : List Commitment)
    → key / 2 ^ levels ≡ prefix
    → Shares levels other fs
    → prefix ≢ other
    → value_in key (es ++ fs) ≡ value_in key es
value_in-append levels prefix other key [] [] h s n = refl
value_in-append levels prefix other key [] (f ∷ fs) h s n =
    rw (other_key levels prefix other key f h s.0 n)
      (value_in-append levels prefix other key [] fs h s.1 n)
value_in-append levels prefix other key (e ∷ es) fs h s n =
    ap (λ (t : ℕ). if e.key == key then e.value_hash else t)
      (value_in-append levels prefix other key es fs h s n)

value_in-prepend :
    (levels prefix other key : ℕ) (es fs : List Commitment)
    → key / 2 ^ levels ≡ prefix
    → Shares levels other es
    → prefix ≢ other
    → value_in key (es ++ fs) ≡ value_in key fs
value_in-prepend levels prefix other key [] fs h s n = refl
value_in-prepend levels prefix other key (e ∷ es) fs h s n =
    rw (other_key levels prefix other key e h s.0 n)
      (value_in-prepend levels prefix other key es fs h s.1 n)

Answers-same :
    (p : Proof) (levels prefix o : ℕ) (ks : List ℕ) (es fs : List Commitment)
    → Shares levels prefix (as_entries ks)
    → ((key : ℕ) → key / 2 ^ levels ≡ prefix → value_in key fs ≡ value_in key es)
    → Answers p o ks fs
    → Answers p o ks es
Answers-same p levels prefix o [] es fs s h a = tt
Answers-same p levels prefix o (k ∷ ks) es fs s h ((m, e, f, g), a) =
    ((m, e, f, g ∙ h k s.0), Answers-same p levels prefix (suc o) ks es fs s.1 h a)

-- The value at a tip.
tip_value :
    (t : Tip) (key : ℕ) (es : List Commitment)
    → set_entry t.entry [] ≡ es
    → value_in key es ≡ (if t.entry.key == key then t.entry.value_hash else empty_hash)
unfolding set_entry
tip_value t key es e =
    ap (value_in key) (sym e) ∙ elim (Bool-cases (t.entry.value_hash == empty_hash)) [
      | inl gone ↦
          let zero_value : t.entry.value_hash ≡ empty_hash = ground (arith, gone) in
          rw gone (elim (Bool-cases (t.entry.key == key)) [
            | inl q ↦ rw q (sym zero_value)
            | inr q ↦ rw q refl
          ])
      | inr stays ↦ rw stays refl
    ]

module _ (p : Proof) (t : Tip) (leaf : Leaf) (j levels prefix : ℕ) (es : List Commitment) where
  tip-Answers :
      (o : ℕ) (ms : List ℕ)
      → get_elem? p.leaves j ≡ some leaf
      → leaf.depth ≡ t.depth
      → resolve p.keys leaf ≡ some t.entry
      → levels + t.depth ≡ depth
      → t.entry.key / 2 ^ levels ≡ prefix
      → set_entry t.entry [] ≡ es
      → Members p t.entry.key j o ms
      → Shares levels prefix (as_entries ms)
      → Answers p o ms es
  unfolding member
  tip-Answers o [] e d r at f w g s = tt
  tip-Answers o (m ∷ ms) e d r at f w g s =
      let (own, value) = resolve-parts p.keys leaf t.entry r in
      (
        elim (Bool-cases (m == t.entry.key)) [
          | inl q ↦
              let same : (t.entry.key == m) ≡ true = ground (arith, q) in
              (
                record { key = m; witness = leaf; is_absent = false },
                rw (g.0, q) (rw (g.1, e, own, same) refl),
                refl,
                value ∙ sym (tip_value t m es w ∙ rw same refl),
              )
          | inr q ↦
              let apart : (t.entry.key == m) ≡ false = ground (arith, q) in
              let left : depth - leaf.depth ≡ levels = omega (arith, d, at) in
              let both : m / 2 ^ (depth - leaf.depth) ≡ t.entry.key / 2 ^ (depth - leaf.depth) =
                ap (λ (i : ℕ). m / 2 ^ i) left
                ∙ s.0
                ∙ sym f
                ∙ ap (λ (i : ℕ). t.entry.key / 2 ^ i) (sym left) in
              let shares : shares_prefix m t.entry.key leaf.depth ≡ true =
                shared m t.entry.key leaf.depth (omega (arith, d, at)) both in
              (
                record { key = m; witness = leaf; is_absent = true },
                rw (g.0, q) (rw (g.1, e, own, apart, shares) refl),
                refl,
                sym (tip_value t m es w ∙ rw apart refl),
              )
        ],
        tip-Answers (suc o) ms e d r at f w g.2 s.1,
      )
    where
      ==_same : (a b : ℕ) → a ≡ b → (a == b) ≡ true
      ==_same a b h = ground (arith, h)

      shared :
          (a b bits : ℕ)
          → bits ≤ depth
          → a / 2 ^ (depth - bits) ≡ b / 2 ^ (depth - bits)
          → shares_prefix a b bits ≡ true
      shared a b bits l h =
          let low : leb bits depth ≡ true = ground (arith, l) in
          let same : (a / 2 ^ (depth - bits) == b / 2 ^ (depth - bits)) ≡ true = ==_same _ _ h in
          rw (low, same) refl

GroupMembers-append :
    (p : Proof) (j o : ℕ) (ts us : List Tip) (ml mr : List (List ℕ))
    → length ml ≡ length ts
    → GroupMembers p j o (ts ++ us) (ml ++ mr)
    → GroupMembers p j o ts ml × GroupMembers p (j + length ts) (o + total ml) us mr
GroupMembers-append p j o [] us [] mr n g = (
  tt,
  subst (λ (i : ℕ). GroupMembers p i (o + 0) us mr) (omega arith)
      (subst (λ (i : ℕ). GroupMembers p j i us mr) (omega arith) g),
)
GroupMembers-append p j o [] us (ms ∷ ml) mr n g = absurd (omega (arith, n))
GroupMembers-append p j o (t ∷ ts) us [] mr n g = absurd (omega (arith, n))
GroupMembers-append p j o (t ∷ ts) us (ms ∷ ml) mr n g =
    let (front, back) =
      GroupMembers-append p (suc j) (o + length ms) ts us ml mr (omega (arith, n)) g.1 in
    (
      (g.0, front),
      subst (λ (i : ℕ). GroupMembers p (j + suc (length ts)) i us mr) (omega arith)
          (subst (λ (i : ℕ). GroupMembers p i (o + length ms + total ml) us mr) (omega arith) back),
    )

module _ (hash_parts : List ℕ → List ℕ → ℕ) (p : Proof) where
  -- The answers of both sides are those of the position.
  left-Answers :
      (levels prefix o : ℕ) (es : List Commitment) (ks : List ℕ) (b : Parts levels prefix es ks)
      → Answers p o b.left_keys b.lefts
      → Answers p o b.left_keys es
  left-Answers levels prefix o es ks b a =
      Answers-same p levels (prefix + prefix) o b.left_keys es b.lefts b.left_sorted.1
        (λ key h.
          sym (
            value_in-append levels (prefix + prefix) (prefix + prefix + 1) key b.lefts b.rights h
              b.right_kept.2 (λ q. omega (arith, q)))
          ∙ ap (value_in key) (sym b.entries))
        a

  right-Answers :
      (levels prefix o : ℕ) (es : List Commitment) (ks : List ℕ) (b : Parts levels prefix es ks)
      → Answers p o b.right_keys b.rights
      → Answers p o b.right_keys es
  right-Answers levels prefix o es ks b a =
      Answers-same p levels (prefix + prefix + 1) o b.right_keys es b.rights b.right_sorted.1
        (λ key h.
          sym (
            value_in-prepend levels (prefix + prefix + 1) (prefix + prefix) key b.lefts b.rights h
              b.left_kept.2 (λ q. omega (arith, q)))
          ∙ ap (value_in key) (sym b.entries))
        a

  pub Lays-Answers :
      (levels prefix level start o : ℕ) (es : List Commitment) (ks : List ℕ) (s : Shape)
      (mss : List (List ℕ))
      → levels + level ≡ depth
      → Sorted levels prefix ks
      → Fitting levels prefix level s
      → Lays hash_parts levels prefix level es ks s mss
      → AtTips p start (tips s)
      → GroupMembers p start o (tips s) mss
      → Answers p o ks es
  Lays-Answers levels prefix level start o es ks (tip t) mss at k f y h g =
      let here = subst (GroupMembers p start o (t ∷ [])) y.0 g in
      let (leaf, e, d, r, rest) = h in
      tip-Answers p t leaf start levels prefix es o ks e d r (omega (arith, at, f.0)) f.1 y.1 here.0
        k.1
  Lays-Answers zero prefix level start o es ks (fork l r) mss at k f y h g = absurd y
  Lays-Answers (suc levels) prefix level start o es ks (fork l r) mss at k f (b, ml, mr, e, n, y, z)
        h g =
      let (h_left, h_right) = AtTips-append p start (tips l) (tips r) h in
      let (g_left, g_right) =
        GroupMembers-append p start o (tips l) (tips r) ml mr n
          (subst (GroupMembers p start o (tips l ++ tips r)) e g) in
      subst (λ (t : List ℕ). Answers p o t es) (sym b.keys)
        (Answers-append p o b.left_keys b.right_keys es
          (left-Answers levels prefix o es ks b (
            Lays-Answers levels (prefix + prefix) (level + 1) start o b.lefts b.left_keys l ml
              (omega (arith, at)) b.left_sorted f.0 y h_left g_left))
          (right-Answers levels prefix (o + length b.left_keys) es ks b (
            Lays-Answers levels (prefix + prefix + 1) (level + 1) (start + length (tips l))
              (o + length b.left_keys) b.rights b.right_keys r mr (omega (arith, at)) b.right_sorted
              f.1 z h_right
              (subst (λ (i : ℕ). GroupMembers p (start + length (tips l)) (o + i) (tips r) mr)
                (Lays-total hash_parts levels (prefix + prefix) (level + 1) b.lefts b.left_keys l ml
                  y)
                g_right))))
  Lays-Answers zero prefix level start o es ks (side c x s) mss at k f y h g = absurd y
  Lays-Answers (suc levels) prefix level start o es ks (side true x s) mss at k f (b, n, e, y) h g =
      subst (λ (t : List ℕ). Answers p o t es)
        (sym (b.keys ∙ ap (λ (t : List ℕ). b.left_keys ++ t) n ∙ append_nil b.left_keys))
        (left-Answers levels prefix o es ks b (
          Lays-Answers levels (prefix + prefix) (level + 1) start o b.lefts b.left_keys s mss
            (omega (arith, at)) b.left_sorted f y h g))
  Lays-Answers (suc levels) prefix level start o es ks (side false x s) mss at k f (b, n, e, y) h
        g =
      subst (λ (t : List ℕ). Answers p o t es)
        (sym (b.keys ∙ ap (λ (t : List ℕ). t ++ b.right_keys) n))
        (right-Answers levels prefix o es ks b (
          Lays-Answers levels (prefix + prefix + 1) (level + 1) start o b.rights b.right_keys s mss
            (omega (arith, at)) b.right_sorted f y h g))
