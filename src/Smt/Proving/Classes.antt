-- ===== src/Smt/Proving/Classes.antt =====
-- core/smt/src/proving/proof_builder.rs, `classify_memberships`: the memberships of a built proof.
use vprogs.Base.{
  ℕ, zero, suc, ◌+◌, ◌<◌, ◌≤◌, ◌≡◌, refl, sym, subst, ap, ◌∙◌, List, [], ◌∷◌, ◌++◌, Option, some,
  arith, and_then, drop, get_elem?, length, map, length-append, append_assoc,
}
use vprogs.Smt.Proving.Traversal.{Leaf, Membership}
use vprogs.Smt.Proving.Lays.{total}
use vprogs.Smt.Proving.Builder.{fill, set_membership, classify, classify_slots}
use vprogs.Smt.Proving.Collected.{fill_groups}
use vprogs.Smt.Proving.Unique.{Within}
use vprogs.Smt.Proving.Post.Scanned.{iota}

-- The slots of groups that successive leaves answer.
abbrev pub slots_of : ℕ → List (List ℕ) → List ℕ
slots_of leaf_pos [] = []
slots_of leaf_pos (ms ∷ mss) = map (λ k. leaf_pos) ms ++ slots_of (suc leaf_pos) mss

pub length-same : {A : Type 0} (v : A) (ms : List ℕ) → length (map (λ k. v) ms) ≡ length ms
length-same v [] = refl
length-same v (m ∷ ms) = ap suc (length-same v ms)

pub length-slots_of :
    (leaf_pos : ℕ) (mss : List (List ℕ)) → length (slots_of leaf_pos mss) ≡ total mss
length-slots_of leaf_pos [] = refl
length-slots_of leaf_pos (ms ∷ mss) = omega (
  arith,
  length-append (map (λ k. leaf_pos) ms) (slots_of (suc leaf_pos) mss),
  length-same leaf_pos ms,
  length-slots_of (suc leaf_pos) mss,
)

Within-append : (n : ℕ) (xs ys : List ℕ) → Within n xs → Within n ys → Within n (xs ++ ys)
Within-append n [] ys h k = k
Within-append n (x ∷ xs) ys h k = (h.0, Within-append n xs ys h.1 k)

Within-same : (n v : ℕ) (ms : List ℕ) → v < n → Within n (map (λ k. v) ms)
Within-same n v [] h = tt
Within-same n v (m ∷ ms) h = (h, Within-same n v ms h)

pub slots_of-Within :
    (n leaf_pos : ℕ) (mss : List (List ℕ))
    → leaf_pos + length mss ≤ n
    → Within n (slots_of leaf_pos mss)
slots_of-Within n leaf_pos [] h = tt
slots_of-Within n leaf_pos (ms ∷ mss) h =
    Within-append n (map (λ k. leaf_pos) ms) (slots_of (suc leaf_pos) mss)
      (Within-same n leaf_pos ms (omega (arith, h)))
      (slots_of-Within n (suc leaf_pos) mss (omega (arith, h)))

fill_none : (v : ℕ) (rest : List ℕ) → fill rest 0 0 v ≡ rest
fill_none v [] = refl
fill_none v (x ∷ xs) = refl

fill_here :
    (v : ℕ) (ms rest : List ℕ)
    → length ms ≤ length rest
    → fill rest 0 (length ms) v ≡ map (λ k. v) ms ++ drop (length ms) rest
fill_here v [] rest h = fill_none v rest
fill_here v (m ∷ ms) [] h = absurd (omega (arith, h))
fill_here v (m ∷ ms) (x ∷ xs) h = ap (λ (t : List ℕ). v ∷ t) (fill_here v ms xs (omega (arith, h)))

fill-append :
    (v count : ℕ) (done rest : List ℕ)
    → fill (done ++ rest) (length done) count v ≡ done ++ fill rest 0 count v
fill-append v count [] rest = refl
fill-append v count (x ∷ xs) rest = ap (λ (t : List ℕ). x ∷ t) (fill-append v count xs rest)

length-rest : (n : ℕ) (xs : List ℕ) → n ≤ length xs → length (drop n xs) + n ≡ length xs
length-rest zero xs h = omega arith
length-rest (suc n) [] h = absurd (omega (arith, h))
length-rest (suc n) (x ∷ xs) h = omega (arith, length-rest n xs (omega (arith, h)))

-- The groups fill the slots one after the other.
pub fill_groups-slots_of :
    (mss : List (List ℕ)) (leaf_pos offset : ℕ) (done rest : List ℕ)
    → offset ≡ length done
    → length rest ≡ total mss
    → fill_groups mss leaf_pos offset (done ++ rest) ≡ done ++ slots_of leaf_pos mss
fill_groups-slots_of [] leaf_pos offset done [] e h = refl
fill_groups-slots_of [] leaf_pos offset done (x ∷ xs) e h = absurd (omega (arith, h))
fill_groups-slots_of (ms ∷ mss) leaf_pos offset done rest e h =
    ap (fill_groups mss (suc leaf_pos) (offset + length ms)) (
      ap (λ (i : ℕ). fill (done ++ rest) i (length ms) leaf_pos) e
      ∙ fill-append leaf_pos (length ms) done rest
      ∙ ap (λ (t : List ℕ). done ++ t) (fill_here leaf_pos ms rest (omega (arith, h)))
      ∙ sym (append_assoc done (map (λ k. leaf_pos) ms) (drop (length ms) rest)))
    ∙ fill_groups-slots_of mss (suc leaf_pos) (offset + length ms) (done ++ map (λ k. leaf_pos) ms)
        (drop (length ms) rest)
        (omega (arith, e, length-append done (map (λ k. leaf_pos) ms), length-same leaf_pos ms))
        (omega (arith, h, length-rest (length ms) rest (omega (arith, h))))
    ∙ append_assoc done (map (λ k. leaf_pos) ms) (slots_of (suc leaf_pos) mss)

some_elem : {A : Type 0} (xs : List A) (i : ℕ) → i < length xs → (x : A) × (get_elem? xs i ≡ some x)
some_elem [] i h = absurd (omega (arith, h))
some_elem (x ∷ xs) zero h = (x, refl)
some_elem (x ∷ xs) (suc i) h = some_elem xs i (omega (arith, h))

set_membership-some :
    (ms : List Membership) (idx : ℕ) (m : Membership)
    → idx < length ms
    → (ns : List Membership) × (set_membership ms idx m ≡ some ns) × (length ns ≡ length ms)
set_membership-some [] idx m h = absurd (omega (arith, h))
set_membership-some (x ∷ xs) zero m h = (m ∷ xs, refl, refl)
set_membership-some (x ∷ xs) (suc idx) m h =
    let (ns, e, l) = set_membership-some xs idx m (omega (arith, h)) in
    (x ∷ ns, ap (λ (o : Option (List Membership)). and_then o λ ys. some (x ∷ ys)) e, ap suc l)

-- Places and slots in range are classified.
pub classify_slots-some :
    (leaves : List Leaf) (slots order : List ℕ) (ms : List Membership)
    → length slots ≡ length order
    → Within (length leaves) slots
    → Within (length ms) order
    → (ns : List Membership) × (classify_slots leaves slots order ms ≡ some ns)
unfolding classify_slots
classify_slots-some leaves slots [] ms n h k = (ms, refl)
classify_slots-some leaves [] (idx ∷ order) ms n h k = absurd (omega (arith, n))
classify_slots-some leaves (pos ∷ slots) (idx ∷ order) ms n h k =
    let (x, e) = some_elem leaves pos h.0 in
    let (ns, f, l) = set_membership-some ms idx (classify x pos idx) k.0 in
    let (os, g) =
      classify_slots-some leaves slots order ns (omega (arith, n)) h.1
        (subst (λ (t : ℕ). Within t order) (sym l) k.1) in
    (os, rw (e, f) g)

-- The memberships at successive places.
abbrev pub Classified : List Leaf → ℕ → List ℕ → List Membership → Type 0
Classified leaves o [] [] = Unit
Classified leaves o [] (m ∷ ms) = ⊥
Classified leaves o (pos ∷ slots) [] = ⊥
Classified leaves o (pos ∷ slots) (m ∷ ms) =
    ((x : Leaf) × (get_elem? leaves pos ≡ some x) × (m ≡ classify x pos o))
    × Classified leaves (suc o) slots ms

set_membership_here :
    (done rest : List Membership) (x m : Membership)
    → set_membership (done ++ x ∷ rest) (length done) m ≡ some (done ++ m ∷ rest)
set_membership_here [] rest x m = refl
set_membership_here (y ∷ ys) rest x m =
    ap (λ (o : Option (List Membership)). and_then o λ zs. some (y ∷ zs))
      (set_membership_here ys rest x m)

-- Where the places come in order, the memberships are written one after the other.
pub classify_slots-Classified :
    (leaves : List Leaf) (slots : List ℕ) (o : ℕ) (done rest : List Membership)
    → o ≡ length done
    → length slots ≡ length rest
    → Within (length leaves) slots
    → (ns : List Membership) × (classify_slots leaves slots (iota o (length rest)) (done ++ rest)
        ≡ some (done ++ ns))
      × Classified leaves o slots ns
unfolding classify_slots
classify_slots-Classified leaves [] o done [] e n h = ([], refl, tt)
classify_slots-Classified leaves [] o done (x ∷ rest) e n h = absurd (omega (arith, n))
classify_slots-Classified leaves (pos ∷ slots) o done [] e n h = absurd (omega (arith, n))
classify_slots-Classified leaves (pos ∷ slots) o done (y ∷ rest) e n h =
    let (x, f) = some_elem leaves pos h.0 in
    let m : Membership = classify x pos o in
    let (ns, g, c) =
      classify_slots-Classified leaves slots (suc o) (done ++ m ∷ []) rest
        (omega (arith, e, length-append done (m ∷ []))) (omega (arith, n)) h.1 in
    (
      m ∷ ns,
      rw
          (
            f,
            ap (λ (i : ℕ). set_membership (done ++ y ∷ rest) i m) e
                ∙ set_membership_here done rest y m,
          )
          (ap (classify_slots leaves slots (iota (suc o) (length rest)))
              (sym (append_assoc done (m ∷ []) rest))
            ∙ g
            ∙ ap some (append_assoc done (m ∷ []) ns)),
      ((x, f, refl), c),
    )

pub length-Classified :
    (leaves : List Leaf) (o : ℕ) (slots : List ℕ) (ms : List Membership)
    → Classified leaves o slots ms
    → length ms ≡ length slots
length-Classified leaves o [] [] c = refl
length-Classified leaves o [] (m ∷ ms) c = absurd c
length-Classified leaves o (pos ∷ slots) [] c = absurd c
length-Classified leaves o (pos ∷ slots) (m ∷ ms) c =
    ap suc (length-Classified leaves (suc o) slots ms c.1)
