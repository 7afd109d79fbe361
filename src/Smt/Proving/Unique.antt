-- ===== src/Smt/Proving/Unique.antt =====
-- core/codec/src/sort_unique.rs, as core/smt/src/proving uses it on keys.
use vprogs.Base.{
  ℕ, suc, ◌+◌, ◌<◌, ◌≤◌, ◌≡◌, refl, subst, ap, ◌∙◌, inl, inr, List, [], ◌∷◌, Bool, true, false,
  Option, none, some, arith, ltb, ◌==◌, if◌then◌else◌, and_then, length, Bool-cases,
}
use vprogs.Codec.SortUnique.{
  enumerate, insert_item, sort_items, repeats, collect_unique, sort_unique,
}
use vprogs.Smt.Entries.{Above, Above-mono, Ascending}
use vprogs.Smt.Proving.Lays.{as_entries}
use vprogs.Smt.Proving.Post.Scanned.{iota}

abbrev AtLeast : ℕ → List (ℕ × ℕ) → Type 0
AtLeast k [] = Unit
AtLeast k (a ∷ items) = (k ≤ a.0) × AtLeast k items

abbrev Rising : List (ℕ × ℕ) → Type 0
Rising [] = Unit
Rising (a ∷ items) = AtLeast a.0 items × Rising items

-- The places are below `n`.
abbrev Places : ℕ → List (ℕ × ℕ) → Type 0
Places n [] = Unit
Places n (a ∷ items) = (a.1 < n) × Places n items

abbrev pub Within : ℕ → List ℕ → Type 0
Within n [] = Unit
Within n (i ∷ is) = (i < n) × Within n is

AtLeast-mono : (j k : ℕ) (items : List (ℕ × ℕ)) → j ≤ k → AtLeast k items → AtLeast j items
AtLeast-mono j k [] h a = tt
AtLeast-mono j k (b ∷ items) h a = (omega (arith, h, a.0), AtLeast-mono j k items h a.1)

insert_item-AtLeast :
    (k : ℕ) (a : ℕ × ℕ) (items : List (ℕ × ℕ))
    → k ≤ a.0
    → AtLeast k items
    → AtLeast k (insert_item a items)
insert_item-AtLeast k a [] h l = (h, tt)
insert_item-AtLeast k a (b ∷ bs) h l = elim (Bool-cases (ltb b.0 a.0)) [
  | inl e ↦ rw e (l.0, insert_item-AtLeast k a bs h l.1)
  | inr e ↦ rw e (h, l)
]

insert_item-Rising :
    (a : ℕ × ℕ) (items : List (ℕ × ℕ)) → Rising items → Rising (insert_item a items)
insert_item-Rising a [] r = (tt, tt)
insert_item-Rising a (b ∷ bs) r = elim (Bool-cases (ltb b.0 a.0)) [
  | inl e ↦ rw e (insert_item-AtLeast b.0 a bs (ground (arith, e)) r.0, insert_item-Rising a bs r.1)
  | inr e ↦
      let low : a.0 ≤ b.0 = ground (arith, e) in rw e ((low, AtLeast-mono a.0 b.0 bs low r.0), r)
]

sort_items-Rising : (items : List (ℕ × ℕ)) → Rising (sort_items items)
sort_items-Rising [] = tt
sort_items-Rising (a ∷ items) = insert_item-Rising a (sort_items items) (sort_items-Rising items)

insert_item-Places :
    (n : ℕ) (a : ℕ × ℕ) (items : List (ℕ × ℕ))
    → a.1 < n
    → Places n items
    → Places n (insert_item a items)
insert_item-Places n a [] h p = (h, tt)
insert_item-Places n a (b ∷ bs) h p = elim (Bool-cases (ltb b.0 a.0)) [
  | inl e ↦ rw e (p.0, insert_item-Places n a bs h p.1)
  | inr e ↦ rw e (h, p)
]

sort_items-Places : (n : ℕ) (items : List (ℕ × ℕ)) → Places n items → Places n (sort_items items)
sort_items-Places n [] p = tt
sort_items-Places n (a ∷ items) p =
    insert_item-Places n a (sort_items items) p.0 (sort_items-Places n items p.1)

enumerate-Places : (n i : ℕ) (ks : List ℕ) → i + length ks ≤ n → Places n (enumerate i ks)
enumerate-Places n i [] h = tt
enumerate-Places n i (k ∷ ks) h =
    (omega (arith, h), enumerate-Places n (suc i) ks (omega (arith, h)))

length-insert_item :
    (a : ℕ × ℕ) (items : List (ℕ × ℕ)) → length (insert_item a items) ≡ suc (length items)
length-insert_item a [] = refl
length-insert_item a (b ∷ bs) = elim (Bool-cases (ltb b.0 a.0)) [
  | inl e ↦ rw e (ap suc (length-insert_item a bs))
  | inr e ↦ rw e refl
]

length-sort_items : (items : List (ℕ × ℕ)) → length (sort_items items) ≡ length items
length-sort_items [] = refl
length-sort_items (a ∷ items) =
    length-insert_item a (sort_items items) ∙ ap suc (length-sort_items items)

length-enumerate : (i : ℕ) (ks : List ℕ) → length (enumerate i ks) ≡ length ks
length-enumerate i [] = refl
length-enumerate i (k ∷ ks) = ap suc (length-enumerate (suc i) ks)

abbrev Past : Option ℕ → List (ℕ × ℕ) → Type 0
Past none items = Unit
Past (some k) items = AtLeast k items

abbrev Over : Option ℕ → List ℕ → Type 0
Over none ks = Unit
Over (some k) ks = Above k (as_entries ks)

-- What the walk over the sorted items gives.
record Collected (n count : ℕ) (prev : Option ℕ) (r : List ℕ × List ℕ) : Type 0 where
  over : Over prev r.0
  ascending : Ascending (as_entries r.0)
  sorted_length : length r.0 ≡ count
  order_length : length r.1 ≡ count
  within : Within n r.1

abbrev consed : ℕ × ℕ → Option (List ℕ × List ℕ) → Bool → Option (List ℕ × List ℕ)
consed a rest repeated =
    if repeated then none else and_then rest λ (sorted, order). some (a.0 ∷ sorted, a.1 ∷ order)

Over-next :
    (prev : Option ℕ) (a : ℕ × ℕ) (items : List (ℕ × ℕ)) (ks : List ℕ)
    → Past prev (a ∷ items)
    → repeats prev a.0 ≡ false
    → Above a.0 (as_entries ks)
    → Over prev (a.0 ∷ ks)
Over-next none a items ks p e h = tt
Over-next (some k) a items ks p e h =
    let less : k < a.0 = ground (arith, e, p.0) in
    (less, Above-mono k a.0 (as_entries ks) (omega (arith, less)) h)

collect_unique_lem :
    (n : ℕ) (prev : Option ℕ) (items : List (ℕ × ℕ)) (r : List ℕ × List ℕ)
    → Rising items
    → Past prev items
    → Places n items
    → collect_unique prev items ≡ some r
    → Collected n (length items) prev r
collect_unique_lem n prev [] r h p q e =
    let same : ([], []) ≡ r = cc in
    subst (Collected n 0 prev) same (record {
      over = nothing prev;
      ascending = tt;
      sorted_length = refl;
      order_length = refl;
      within = tt;
    })
  where
    nothing : (o : Option ℕ) → Over o []
    nothing none = tt
    nothing (some k) = tt
collect_unique_lem n prev (a ∷ items) r h p q e =
    go (repeats prev a.0) refl (collect_unique (some a.0) items)
      (λ u f. collect_unique_lem n (some a.0) items u h.1 h.0 q.1 f) refl e
  where
    go :
        (b : Bool)
        → repeats prev a.0 ≡ b
        → (o : Option (List ℕ × List ℕ))
        → ((u : List ℕ × List ℕ)
            → collect_unique (some a.0) items ≡ some u
            → Collected n (length items) (some a.0) u)
        → collect_unique (some a.0) items ≡ o
        → consed a o b ≡ some r
        → Collected n (suc (length items)) prev r
    go true f o below g e = cc
    go false f none below g e = cc
    go false f (some u) below g e =
        let c = below u g in
        let same : (a.0 ∷ u.0, a.1 ∷ u.1) ≡ r = cc in
        subst (Collected n (suc (length items)) prev) same (record {
          over = Over-next prev a items u.0 p f c.over;
          ascending = (c.over, c.ascending);
          sorted_length = ap suc c.sorted_length;
          order_length = ap suc c.order_length;
          within = (q.0, c.within);
        })

-- The sorted keys are in strictly ascending order, and the places are those of the keys.
pub sort_unique_lem :
    (ks sorted order : List ℕ)
    → sort_unique ks ≡ some (sorted, order)
    → Ascending (as_entries sorted)
      × (length sorted ≡ length ks)
      × (length order ≡ length ks)
      × Within (length ks) order
unfolding sort_unique
sort_unique_lem ks sorted order e =
    let c =
      collect_unique_lem (length ks) none (sort_items (enumerate 0 ks)) (sorted, order)
        (sort_items-Rising (enumerate 0 ks)) tt
        (sort_items-Places (length ks) (enumerate 0 ks)
          (enumerate-Places (length ks) 0 ks (omega arith)))
        e in
    let count = length-sort_items (enumerate 0 ks) ∙ length-enumerate 0 ks in
    (c.ascending, c.sorted_length ∙ count, c.order_length ∙ count, c.within)

sort_items-enumerate :
    (i : ℕ) (ks : List ℕ) → Ascending (as_entries ks) → sort_items (enumerate i ks) ≡ enumerate i ks
sort_items-enumerate i [] a = refl
sort_items-enumerate i (k ∷ []) a = refl
sort_items-enumerate i (k ∷ l ∷ ks) a =
    let front : ltb l k ≡ false = ground (arith, a.0.0) in
    ap (insert_item (k, i)) (sort_items-enumerate (suc i) (l ∷ ks) a.1) ∙ rw front refl

collect_unique-enumerate :
    (prev : Option ℕ) (i : ℕ) (ks : List ℕ)
    → Over prev ks
    → Ascending (as_entries ks)
    → collect_unique prev (enumerate i ks) ≡ some (ks, iota i (length ks))
collect_unique-enumerate prev i [] o a = refl
collect_unique-enumerate none i (k ∷ ks) o a =
    rw (collect_unique-enumerate (some k) (suc i) ks a.0 a.1) refl
collect_unique-enumerate (some j) i (k ∷ ks) o a =
    let apart : (j == k) ≡ false = ground (arith, o.0) in
    rw (apart, collect_unique-enumerate (some k) (suc i) ks a.0 a.1) refl

-- Keys in order are their own sorted list.
pub sort_unique-Ascending :
    (ks : List ℕ) → Ascending (as_entries ks) → sort_unique ks ≡ some (ks, iota 0 (length ks))
unfolding sort_unique
sort_unique-Ascending ks a =
    ap (collect_unique none) (sort_items-enumerate 0 ks a) ∙ collect_unique-enumerate none 0 ks tt a
