-- ===== src/Smt/Proving/Post/Members.antt =====
-- core/smt/src/proving: the memberships of a built proof, by leaf.
use vprogs.Base.{
  ℕ, zero, suc, ◌+◌, ◌<◌, ◌≤◌, ◌≡◌, refl, sym, subst, ap, ap₂, ◌∙◌, inl, inr, List, [], ◌∷◌, ◌++◌,
  true, false, some, arith, ◌==◌, if◌then◌else◌, get_elem?, length, map, length-append,
  append_assoc, Bool-cases,
}
use vprogs.Smt.Entries.{Above, Ascending}
use vprogs.Smt.Proving.Traversal.{Leaf, Proof, Membership, present, absent}
use vprogs.Smt.Proving.Shape.{Tip, At}
use vprogs.Smt.Proving.Lays.{as_entries, total, concat}
use vprogs.Smt.Proving.Builder.{find_key, classify}
use vprogs.Smt.Proving.Collected.{Resolves, find_key-finds}
use vprogs.Smt.Proving.Classes.{slots_of, length-same, Classified}
use vprogs.Smt.Proving.Root.{get_elem?-length_append}
use vprogs.Smt.Proving.Post.{leaf_of}
use vprogs.Smt.Proving.Post.Scanned.{Members}
use vprogs.Smt.Proving.Post.Grouped.{InOrder}

-- The first places of the keys in the table.
abbrev pub KeysAt : List ℕ → ℕ → List ℕ → Type 0
KeysAt keys o [] = Unit
KeysAt keys o (k ∷ ks) = (find_key keys k ≡ some o) × KeysAt keys (suc o) ks

KeysAt-cons :
    (j : ℕ) (keys : List ℕ) (o : ℕ) (ks : List ℕ)
    → Above j (as_entries ks)
    → KeysAt keys o ks
    → KeysAt (j ∷ keys) (suc o) ks
KeysAt-cons j keys o [] a h = tt
KeysAt-cons j keys o (k ∷ ks) a h =
    let apart : (j == k) ≡ false = ground (arith, a.0) in
    (rw (apart, h.0) refl, KeysAt-cons j keys (suc o) ks a.1 h.1)

-- Keys in order stand at their places in a table that starts with them.
pub KeysAt-start : (ks more : List ℕ) → Ascending (as_entries ks) → KeysAt (ks ++ more) 0 ks
KeysAt-start [] more a = tt
KeysAt-start (k ∷ ks) more a =
    let same : (k == k) ≡ true = ground arith in
    (rw same refl, KeysAt-cons k (ks ++ more) 0 ks a.0 (KeysAt-start ks more a.1))

KeysAt-append :
    (keys : List ℕ) (o : ℕ) (ks ls : List ℕ)
    → KeysAt keys o (ks ++ ls)
    → KeysAt keys o ks × KeysAt keys (o + length ks) ls
KeysAt-append keys o [] ls h = (tt, subst (λ (i : ℕ). KeysAt keys i ls) (omega arith) h)
KeysAt-append keys o (k ∷ ks) ls h =
    let (front, back) = KeysAt-append keys (suc o) ks ls h.1 in
    ((h.0, front), subst (λ (i : ℕ). KeysAt keys i ls) (omega arith) back)

-- The leaves have the first places of their keys.
abbrev pub FoundAt : Proof → ℕ → List Tip → Type 0
FoundAt p n [] = Unit
FoundAt p n (t ∷ ts) =
    (x : Leaf) × (get_elem? p.leaves n ≡ some x)
    × (find_key p.keys t.entry.key ≡ some x.key_idx)
    × FoundAt p (suc n) ts

pub FoundAt-here :
    (p : Proof) (before ls : List Leaf) (ts : List Tip) (n : ℕ)
    → p.leaves ≡ before ++ ls
    → n ≡ length before
    → Resolves p.keys ls ts
    → FoundAt p n ts
FoundAt-here p before [] [] n e h r = tt
FoundAt-here p before [] (t ∷ ts) n e h r = absurd r
FoundAt-here p before (l ∷ ls) [] n e h r = tt
FoundAt-here p before (l ∷ ls) (t ∷ ts) n e h r = (
  l,
  ap₂ get_elem? e h ∙ get_elem?-length_append before ls l,
  r.2,
  FoundAt-here p (before ++ l ∷ []) ls ts (suc n) (e ∙ sym (append_assoc before (l ∷ []) ls))
      (omega (arith, h, length-append before (l ∷ []))) r.3,
)

-- The memberships that the slots have.
abbrev pub Written : Proof → ℕ → List ℕ → Type 0
Written p o [] = Unit
Written p o (pos ∷ slots) =
    ((x : Leaf) × (get_elem? p.leaves pos ≡ some x)
      × (get_elem? p.memberships o ≡ some (classify x pos o)))
    × Written p (suc o) slots

pub Classified-Written :
    (p : Proof) (o : ℕ) (slots : List ℕ) (ms : List Membership)
    → Classified p.leaves o slots ms
    → At p.memberships o ms
    → Written p o slots
Classified-Written p o [] ms c a = tt
Classified-Written p o (pos ∷ slots) [] c a = absurd c
Classified-Written p o (pos ∷ slots) (m ∷ ms) ((x, e, f), c) a =
    ((x, e, a.0 ∙ ap some f), Classified-Written p (suc o) slots ms c a.1)

Written-append :
    (p : Proof) (o : ℕ) (slots more : List ℕ)
    → Written p o (slots ++ more)
    → Written p o slots × Written p (o + length slots) more
Written-append p o [] more h = (tt, subst (λ (i : ℕ). Written p i more) (omega arith) h)
Written-append p o (pos ∷ slots) more h =
    let (front, back) = Written-append p (suc o) slots more h.1 in
    ((h.0, front), subst (λ (i : ℕ). Written p i more) (omega arith) back)

-- A key is present where it is that of its leaf.
classify_lem :
    (keys : List ℕ) (x : Leaf) (j o k m : ℕ)
    → find_key keys k ≡ some x.key_idx
    → find_key keys m ≡ some o
    → classify x j o ≡ (if m == k then present j else absent j)
classify_lem keys x j o k m f g = elim (Bool-cases (m == k)) [
  | inl e ↦
      let same : m ≡ k = ground (arith, e) in
      let first : some o ≡ some x.key_idx = sym g ∙ ap (find_key keys) same ∙ f in
      let place : o ≡ x.key_idx = cc in
      let hit : (x.key_idx == o) ≡ true = ground (arith, place) in rw (e, hit) refl
  | inr e ↦ elim (Bool-cases (x.key_idx == o)) [
    | inl h ↦
        let place : x.key_idx ≡ o = ground (arith, h) in
        let both : some k ≡ some m =
          sym (find_key-finds keys k x.key_idx f)
          ∙ ap (get_elem? keys) place
          ∙ find_key-finds keys m o g in
        let same : k ≡ m = cc in absurd (ground (arith, e, same))
    | inr h ↦ rw (e, h) refl
  ]
]

Written-Members :
    (p : Proof) (k j : ℕ) (x : Leaf) (o : ℕ) (ms : List ℕ)
    → get_elem? p.leaves j ≡ some x
    → find_key p.keys k ≡ some x.key_idx
    → Written p o (map (λ m. j) ms)
    → KeysAt p.keys o ms
    → Members p k j o ms
Written-Members p k j x o [] e f w h = tt
Written-Members p k j x o (m ∷ ms) e f ((y, g, c), w) h =
    let both : some y ≡ some x = sym g ∙ e in
    let same : y ≡ x = cc in
    (
      c
          ∙ ap (λ (z : Leaf). some (classify z j o)) same
          ∙ ap some (classify_lem p.keys x j o k m f h.0),
      find_key-finds p.keys m o h.0,
      Written-Members p k j x (suc o) ms e f w h.1,
    )

-- The members of successive leaves.
abbrev pub GroupMembers : Proof → ℕ → ℕ → List Tip → List (List ℕ) → Type 0
GroupMembers p j o [] mss = Unit
GroupMembers p j o (t ∷ ts) [] = Unit
GroupMembers p j o (t ∷ ts) (ms ∷ mss) =
    Members p t.entry.key j o ms × GroupMembers p (suc j) (o + length ms) ts mss

pub Written-GroupMembers :
    (p : Proof) (j o : ℕ) (ts : List Tip) (mss : List (List ℕ))
    → FoundAt p j ts
    → Written p o (slots_of j mss)
    → KeysAt p.keys o (concat mss)
    → GroupMembers p j o ts mss
Written-GroupMembers p j o [] mss f w h = tt
Written-GroupMembers p j o (t ∷ ts) [] f w h = tt
Written-GroupMembers p j o (t ∷ ts) (ms ∷ mss) (x, e, g, f) w h =
    let (front, back) = Written-append p o (map (λ k. j) ms) (slots_of (suc j) mss) w in
    let (first, rest) = KeysAt-append p.keys o ms (concat mss) h in
    (
      Written-Members p t.entry.key j x o ms e g front first,
      Written-GroupMembers p (suc j) (o + length ms) ts mss f
          (subst (λ (i : ℕ). Written p (o + i) (slots_of (suc j) mss)) (length-same j ms) back)
          rest,
    )

-- The place of a leaf's first member.
abbrev pub starts : List (List ℕ) → ℕ → ℕ
starts [] j = 0
starts (ms ∷ mss) zero = 0
starts (ms ∷ mss) (suc j) = length ms + starts mss j

pub starts_mono : (mss : List (List ℕ)) (i j : ℕ) → i ≤ j → starts mss i ≤ starts mss j
starts_mono [] i j h = omega arith
starts_mono (ms ∷ mss) zero j h = omega arith
starts_mono (ms ∷ mss) (suc i) zero h = absurd (omega (arith, h))
starts_mono (ms ∷ mss) (suc i) (suc j) h = omega (arith, starts_mono mss i j (omega (arith, h)))

pub starts-zero : (mss : List (List ℕ)) → starts mss 0 ≡ 0
starts-zero [] = refl
starts-zero (ms ∷ mss) = refl

pub starts-length : (mss : List (List ℕ)) → starts mss (length mss) ≡ total mss
starts-length [] = refl
starts-length (ms ∷ mss) = ap (λ (i : ℕ). length ms + i) (starts-length mss)

module _ (len : ℕ) (first : ℕ → ℕ) (mono : (i j : ℕ) → i ≤ j → first i ≤ first j) where
  abbrev SlotsInOrder : ℕ → List ℕ → Type 0
  SlotsInOrder i [] = Unit
  SlotsInOrder i (pos ∷ slots) =
      (first pos ≤ i) × (i < first (suc pos)) × (pos < len) × SlotsInOrder (suc i) slots

  group-SlotsInOrder :
      (i pos : ℕ) (ms slots : List ℕ)
      → first pos ≤ i
      → i + length ms ≤ first (suc pos)
      → pos < len
      → SlotsInOrder (i + length ms) slots
      → SlotsInOrder i (map (λ k. pos) ms ++ slots)
  group-SlotsInOrder i pos [] slots h k n s =
      subst (λ (t : ℕ). SlotsInOrder t slots) (omega arith) s
  group-SlotsInOrder i pos (m ∷ ms) slots h k n s = (
    h,
    omega (arith, k),
    n,
    group-SlotsInOrder (suc i) pos ms slots (omega (arith, h)) (omega (arith, k)) n
        (subst (λ (t : ℕ). SlotsInOrder t slots) (omega arith) s),
  )

  slots_of-SlotsInOrder :
      (i pos : ℕ) (mss : List (List ℕ))
      → ((j : ℕ) → first (pos + j) ≡ i + starts mss j)
      → pos + length mss ≤ len
      → SlotsInOrder i (slots_of pos mss)
  slots_of-SlotsInOrder i pos [] h n = tt
  slots_of-SlotsInOrder i pos (ms ∷ mss) h n =
      group-SlotsInOrder i pos ms (slots_of (suc pos) mss)
        (omega (arith, ap first (at_start pos), h 0))
        (omega (arith, ap first (at_next pos), h 1, starts-zero mss)) (omega (arith, n))
        (slots_of-SlotsInOrder (i + length ms) (suc pos) mss
          (λ j. ap first (at_later pos j) ∙ h (suc j) ∙ omega arith) (omega (arith, n)))
    where
      at_start : (q : ℕ) → q ≡ q + 0
      at_start q = omega arith

      at_next : (q : ℕ) → suc q ≡ q + 1
      at_next q = omega arith

      at_later : (q j : ℕ) → suc q + j ≡ q + suc j
      at_later q j = omega arith

  Classified-InOrder :
      (leaves : List Leaf) (i : ℕ) (slots : List ℕ) (ms : List Membership)
      → Classified leaves i slots ms
      → SlotsInOrder i slots
      → InOrder len first mono i ms
  Classified-InOrder leaves i [] [] c s = tt
  Classified-InOrder leaves i [] (m ∷ ms) c s = absurd c
  Classified-InOrder leaves i (pos ∷ slots) [] c s = tt
  Classified-InOrder leaves i (pos ∷ slots) (m ∷ ms) ((x, e, f), c) s =
      let same : pos ≡ leaf_of m = sym (ap leaf_of f ∙ leaf_of-classify x pos i) in
      (
        subst (λ (t : ℕ). first t ≤ i) same s.0,
        subst (λ (t : ℕ). i < first (suc t)) same s.1,
        subst (λ (t : ℕ). t < len) same s.2,
        Classified-InOrder leaves (suc i) slots ms c s.3,
      )
    where
      leaf_of-classify : (y : Leaf) (q o : ℕ) → leaf_of (classify y q o) ≡ q
      leaf_of-classify y q o = elim (Bool-cases (y.key_idx == o)) [
        | inl g ↦ rw g refl
        | inr g ↦ rw g refl
      ]

  -- The memberships of groups come leaf by leaf.
  pub groups-InOrder :
      (leaves : List Leaf) (mss : List (List ℕ)) (ms : List Membership)
      → ((j : ℕ) → first j ≡ starts mss j)
      → length mss ≤ len
      → Classified leaves 0 (slots_of 0 mss) ms
      → InOrder len first mono 0 ms
  groups-InOrder leaves mss ms h n c = Classified-InOrder leaves 0 (slots_of 0 mss) ms c (
      slots_of-SlotsInOrder 0 0 mss (λ j. ap first (from_zero j) ∙ h j ∙ omega arith)
        (omega (arith, n)))
    where
      from_zero : (j : ℕ) → 0 + j ≡ j
      from_zero j = omega arith
