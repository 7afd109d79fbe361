-- ===== src/Smt/Proving/Post/Buffered.antt =====
-- core/smt/src/proving/proof.rs, `classify_leaf_update`: the entries that the pass over a leaf's members
-- leaves, in order.
use vprogs.Base.{
  ℕ, ◌<◌, ◌≡◌, refl, sym, subst, ap, ◌∙◌, inl, inr, List, [], ◌∷◌, ◌++◌, Bool, true, false, Option,
  none, some, arith, ltb, ◌==◌, append_assoc, append_nil, Bool-cases,
}
use vprogs.Smt.{Commitment, empty_hash}
use vprogs.Smt.Updater.{live, insert_by_key, sort_by_key, with_existing}
use vprogs.Smt.Entries.{Above, Above-mono, Ascending, with_existing_past}
use vprogs.Smt.Entries.Halves.{Ascending-append}
use vprogs.Smt.Proving.Post.{unwrap_or}
use vprogs.Smt.Proving.Post.Scanned.{last_value, others, others-true, live-cons}

abbrev pub entry_of : ℕ → ℕ → Commitment
entry_of k v = record { key = k; value_hash = v }

pub clash : (b : Bool) → b ≡ true → b ≡ false → ⊥
clash true p q = cc
clash false p q = cc

others_kept :
    (k : ℕ) (u : Commitment) (us : List Commitment)
    → (u.key == k) ≡ false
    → (u.value_hash == empty_hash) ≡ false
    → others k (u ∷ us) false ≡ true
others_kept k u us apart kept = rw (apart, kept) (others-true k us)

-- Above the leaf's key, where no other key is set, nothing is.
Above-others :
    (k : ℕ) (cs : List Commitment) (o : Option ℕ)
    → Above k cs
    → others k cs false ≡ false
    → (live cs ≡ []) × (last_value k cs o ≡ o)
Above-others k [] o a h = (refl, refl)
Above-others k (u ∷ us) o a h = elim (Bool-cases (u.value_hash == empty_hash)) [
  | inl gone ↦
      rw (gone, apart)
        (Above-others k us o a.1 (sym (ap (others k us) (rw (apart, gone) refl)) ∙ h))
  | inr kept ↦ absurd (clash _ (others_kept k u us apart kept) h)
]
  where
    apart : (u.key == k) ≡ false
    apart = ground (arith, a.0)

-- Where no other key is set, the leaf stays alone.
pub alone :
    (k value_hash : ℕ) (cs : List Commitment)
    → Ascending cs
    → others k cs false ≡ false
    → live (with_existing cs k value_hash)
      ≡ live (entry_of k (unwrap_or (last_value k cs none) value_hash) ∷ [])
alone k value_hash [] a h = refl
alone k value_hash (u ∷ us) a h = elim (Bool-cases (ltb u.key k)) [
  | inl less ↦
      let apart : (u.key == k) ≡ false = ground (arith, less) in
      elim (Bool-cases (u.value_hash == empty_hash)) [
        | inl gone ↦
            rw (with_existing_past u us k value_hash less, gone, apart)
              (alone k value_hash us a.1 (sym (ap (others k us) (rw (apart, gone) refl)) ∙ h))
        | inr kept ↦ absurd (clash _ (others_kept k u us apart kept) h)
      ]
  | inr more ↦ elim (Bool-cases (u.key == k)) [
    | inl same ↦
        let (none_left, last) =
          Above-others k us (some u.value_hash)
            (subst (λ (t : ℕ). Above t us) (ground (arith, same)) a.0)
            (sym (ap (others k us) (rw same refl)) ∙ h) in
        rw (more, same, last)
          (live-cons u us
            ∙ ap (λ (t : List Commitment). live (u ∷ []) ++ t) none_left
            ∙ append_nil (live (u ∷ []))
            ∙ ap (λ (t : ℕ). live (entry_of t u.value_hash ∷ [])) (ground (arith, same)))
    | inr apart ↦
        let (none_left, last) =
          Above-others k (u ∷ us) none
            (ground (arith, more, apart), Above-mono k u.key us (ground (arith, more, apart)) a.0)
            h in
        let step : last_value k (u ∷ us) none ≡ last_value k us none = rw apart refl in
        rw (more, apart)
          (live-cons (entry_of k value_hash) (u ∷ us)
            ∙ ap (λ (t : List Commitment). live (entry_of k value_hash ∷ []) ++ t) none_left
            ∙ append_nil (live (entry_of k value_hash ∷ []))
            ∙ ap (λ (o : Option ℕ). live (entry_of k (unwrap_or o value_hash) ∷ []))
                (sym last ∙ step))
  ]
]

live-Above : (k : ℕ) (cs : List Commitment) → Above k cs → Above k (live cs)
live-Above k [] a = tt
live-Above k (u ∷ us) a = elim (Bool-cases (u.value_hash == empty_hash)) [
  | inl gone ↦ rw gone (live-Above k us a.1)
  | inr kept ↦ rw kept (a.0, live-Above k us a.1)
]

pub live-Ascending : (cs : List Commitment) → Ascending cs → Ascending (live cs)
live-Ascending [] a = tt
live-Ascending (u ∷ us) a = elim (Bool-cases (u.value_hash == empty_hash)) [
  | inl gone ↦ rw gone (live-Ascending us a.1)
  | inr kept ↦ rw kept (live-Above u.key us a.0, live-Ascending us a.1)
]

insert_front :
    (u : Commitment) (us : List Commitment) → Above u.key us → insert_by_key u us ≡ u ∷ us
insert_front u [] a = refl
insert_front u (v ∷ us) a = let e : ltb u.key v.key ≡ true = ground (arith, a.0) in rw e refl

end-Above : (k : ℕ) (us : List Commitment) (v : Commitment) → Above k (us ++ v ∷ []) → k < v.key
end-Above k [] v a = a.0
end-Above k (u ∷ us) v a = end-Above k us v a.1

insert_last :
    (us : List Commitment) (v : Commitment)
    → Ascending (us ++ v ∷ [])
    → insert_by_key v us ≡ us ++ v ∷ []
insert_last [] v a = refl
insert_last (u ∷ us) v a =
    let e : ltb v.key u.key ≡ false = ground (arith, end-Above u.key us v a.0) in
    rw e (ap (λ (t : List Commitment). u ∷ t) (insert_last us v a.1))

-- Entries in order are not moved; the last one of others is inserted.
pub sort-Ascending : (us vs : List Commitment) → Ascending (us ++ vs) → sort_by_key us vs ≡ us ++ vs
unfolding sort_by_key
sort-Ascending us [] a = sym (append_nil us)
sort-Ascending us (v ∷ vs) a =
    ap (λ (t : List Commitment). sort_by_key t vs)
      (insert_last us v (Ascending-append (us ++ v ∷ []) vs front).0)
    ∙ sort-Ascending (us ++ v ∷ []) vs front
    ∙ append_assoc us (v ∷ []) vs
  where
    front : Ascending ((us ++ v ∷ []) ++ vs)
    front = subst Ascending (sym (append_assoc us (v ∷ []) vs)) a

pub sort-snoc :
    (us vs : List Commitment) (v : Commitment)
    → sort_by_key us (vs ++ v ∷ []) ≡ insert_by_key v (sort_by_key us vs)
unfolding sort_by_key
sort-snoc us [] v = refl
sort-snoc us (w ∷ vs) v = sort-snoc (insert_by_key w us) vs v

last-Above : (k : ℕ) (cs : List Commitment) (o : Option ℕ) → Above k cs → last_value k cs o ≡ o
last-Above k [] o a = refl
last-Above k (u ∷ us) o a =
    let apart : (u.key == k) ≡ false = ground (arith, a.0) in rw apart (last-Above k us o a.1)

last_value-some : (k w : ℕ) (cs : List Commitment) → (v : ℕ) × (last_value k cs (some w) ≡ some v)
last_value-some k w [] = (w, refl)
last_value-some k w (u ∷ us) = elim (Bool-cases (u.key == k)) [
  | inl same ↦ let (v, e) = last_value-some k u.value_hash us in (v, rw same e)
  | inr apart ↦ let (v, e) = last_value-some k w us in (v, rw apart e)
]

-- The leaf's own entry joins the live commitments that lack its key.
pub insert_missing :
    (k value_hash : ℕ) (cs : List Commitment)
    → Ascending cs
    → (value_hash == empty_hash) ≡ false
    → last_value k cs none ≡ none
    → insert_by_key (entry_of k value_hash) (live cs) ≡ live (with_existing cs k value_hash)
insert_missing k value_hash [] a kept h = rw kept refl
insert_missing k value_hash (u ∷ us) a kept h = elim (Bool-cases (ltb u.key k)) [
  | inl less ↦
      let apart : (u.key == k) ≡ false = ground (arith, less) in
      let above : ltb k u.key ≡ false = ground (arith, less) in
      let step : last_value k (u ∷ us) none ≡ last_value k us none = rw apart refl in
      elim (Bool-cases (u.value_hash == empty_hash)) [
        | inl gone ↦
            rw (with_existing_past u us k value_hash less, gone)
              (insert_missing k value_hash us a.1 kept (sym step ∙ h))
        | inr stays ↦
            rw (with_existing_past u us k value_hash less, stays, above)
              (ap (λ (t : List Commitment). u ∷ t)
                (insert_missing k value_hash us a.1 kept (sym step ∙ h)))
      ]
  | inr more ↦ elim (Bool-cases (u.key == k)) [
    | inl same ↦
        let (v, e) = last_value-some k u.value_hash us in
        let step : last_value k (u ∷ us) none ≡ last_value k us (some u.value_hash) =
          rw same refl in
        absurd (cc (e, sym h ∙ step))
    | inr apart ↦
        rw (more, apart, kept)
          (insert_front (entry_of k value_hash) (live (u ∷ us)) (
            live-Above k (u ∷ us) (
              ground (arith, more, apart),
              Above-mono k u.key us (ground (arith, more, apart)) a.0,
            )))
  ]
]

-- With its key among the commitments, or without a value, it does not.
pub keep_found :
    (k value_hash v : ℕ) (cs : List Commitment)
    → Ascending cs
    → last_value k cs none ≡ some v
    → live (with_existing cs k value_hash) ≡ live cs
keep_found k value_hash v [] a h = cc
keep_found k value_hash v (u ∷ us) a h = elim (Bool-cases (ltb u.key k)) [
  | inl less ↦
      let apart : (u.key == k) ≡ false = ground (arith, less) in
      let step : last_value k (u ∷ us) none ≡ last_value k us none = rw apart refl in
      rw (with_existing_past u us k value_hash less) (
        live-cons u (with_existing us k value_hash)
        ∙ ap (λ (t : List Commitment). live (u ∷ []) ++ t)
            (keep_found k value_hash v us a.1 (sym step ∙ h))
        ∙ sym (live-cons u us))
  | inr more ↦ elim (Bool-cases (u.key == k)) [
    | inl same ↦ rw (more, same) refl
    | inr apart ↦ absurd (
        cc (
          last-Above k (u ∷ us) none (
            ground (arith, more, apart),
            Above-mono k u.key us (ground (arith, more, apart)) a.0,
          ),
          h,
        ))
  ]
]

pub keep_dead : (k : ℕ) (cs : List Commitment) → live (with_existing cs k empty_hash) ≡ live cs
keep_dead k [] = refl
keep_dead k (u ∷ us) = elim (Bool-cases (ltb u.key k)) [
  | inl less ↦ rw (with_existing_past u us k empty_hash less) (
      live-cons u (with_existing us k empty_hash)
      ∙ ap (λ (t : List Commitment). live (u ∷ []) ++ t) (keep_dead k us)
      ∙ sym (live-cons u us))
  | inr more ↦ elim (Bool-cases (u.key == k)) [
    | inl same ↦ rw (more, same) refl
    | inr apart ↦ rw (more, apart) refl
  ]
]
