-- ===== src/Smt/Entries/Sorting.antt =====
-- core/smt/src/updater.rs, `apply`: the sort and the pass over equal keys change nothing of what the
-- commitments, set one after the other, leave.
use vprogs.Base.{
  ◌≢◌, ℕ, ◌/◌, ◌^◌, ◌<◌, ◌≤◌, ◌≡◌, refl, sym, ap, ◌∙◌, inl, inr, List, [], ◌∷◌, true, false, arith,
  ltb, ◌==◌, Bool-cases,
}
use vprogs.Smt.{Commitment, empty_hash}
use vprogs.Smt.Updater.{insert_by_key, sort_by_key, dedup_from, dedup}
use vprogs.Smt.Entries.Halves.{Shares}
use vprogs.Smt.Entries.{
  Live, set_entry, set_entries, Above, Ascending, set_entry_comm, set_entry_same,
  set_entry-Ascending,
}

-- No key is smaller than the bound; the keys do not fall.
abbrev From : ℕ → List Commitment → Type 0
From k [] = Unit
From k (e ∷ es) = (k ≤ e.key) × From k es

abbrev Sorted : List Commitment → Type 0
Sorted [] = Unit
Sorted (e ∷ es) = From e.key es × Sorted es

From-mono : (j k : ℕ) (es : List Commitment) → j ≤ k → From k es → From j es
From-mono j k [] h a = tt
From-mono j k (e ∷ es) h a = (omega arith, From-mono j k es h a.1)

insert-From :
    (k : ℕ) (c : Commitment) (es : List Commitment)
    → k ≤ c.key
    → From k es
    → From k (insert_by_key c es)
insert-From k c [] h a = (h, tt)
insert-From k c (e ∷ es) h a = elim (Bool-cases (ltb c.key e.key)) [
  | inl less ↦ rw less (h, a)
  | inr more ↦ rw more (a.0, insert-From k c es h a.1)
]

insert-Sorted : (c : Commitment) (es : List Commitment) → Sorted es → Sorted (insert_by_key c es)
insert-Sorted c [] a = (tt, tt)
insert-Sorted c (e ∷ es) a = elim (Bool-cases (ltb c.key e.key)) [
  | inl less ↦
      rw less ((ground (arith, less), From-mono c.key e.key es (ground (arith, less)) a.0), a)
  | inr more ↦ rw more (insert-From e.key c es (ground (arith, more)) a.0, insert-Sorted c es a.1)
]

sort-Sorted : (acc cs : List Commitment) → Sorted acc → Sorted (sort_by_key acc cs)
unfolding sort_by_key
sort-Sorted acc [] a = a
sort-Sorted acc (c ∷ cs) a = sort-Sorted (insert_by_key c acc) cs (insert-Sorted c acc a)

dedup_same :
    (b c : Commitment) (cs : List Commitment)
    → (c.key == b.key) ≡ true
    → dedup_from b (c ∷ cs) ≡ dedup_from (record b { value_hash = c.value_hash }) cs
unfolding dedup_from
dedup_same b c cs h = ground (arith, h)

dedup_apart :
    (b c : Commitment) (cs : List Commitment)
    → (c.key == b.key) ≡ false
    → dedup_from b (c ∷ cs) ≡ b ∷ dedup_from c cs
unfolding dedup_from
dedup_apart b c cs h = ground (arith, h)

dedup-Above :
    (k : ℕ) (b : Commitment) (cs : List Commitment)
    → k < b.key
    → Sorted (b ∷ cs)
    → Above k (dedup_from b cs)
dedup-Above k b [] h a = unfold dedup_from in (h, tt)
dedup-Above k b (c ∷ cs) h a = elim (Bool-cases (c.key == b.key)) [
  | inl same ↦
      rw (dedup_same b c cs same)
        (dedup-Above k (record b { value_hash = c.value_hash }) cs h (a.0.1, a.1.1))
  | inr apart ↦
      let from : b.key ≤ c.key = a.0.0 in
      rw (dedup_apart b c cs apart) (h, dedup-Above k c cs (omega arith) a.1)
]

dedup-Ascending :
    (b : Commitment) (cs : List Commitment) → Sorted (b ∷ cs) → Ascending (dedup_from b cs)
dedup-Ascending b [] a = unfold dedup_from in (tt, tt)
dedup-Ascending b (c ∷ cs) a = elim (Bool-cases (c.key == b.key)) [
  | inl same ↦
      rw (dedup_same b c cs same)
        (dedup-Ascending (record b { value_hash = c.value_hash }) cs (a.0.1, a.1.1))
  | inr apart ↦
      let from : b.key ≤ c.key = a.0.0 in
      rw (dedup_apart b c cs apart)
        (dedup-Above b.key c cs (ground (arith, apart, from)) a.1, dedup-Ascending c cs a.1)
]

pub sort_dedup-Ascending : (cs : List Commitment) → Ascending (dedup (sort_by_key [] cs))
sort_dedup-Ascending cs = go (sort_by_key [] cs) (sort-Sorted [] cs tt)
  where
    go : (us : List Commitment) → Sorted us → Ascending (dedup us)
    go [] s = tt
    go (b ∷ us) s = dedup-Ascending b us s

-- A setting moves behind settings of larger keys.
set_moves :
    {k : ℕ} (es cs : List Commitment) (c : Commitment)
    → c.key < k
    → From k cs
    → Ascending es
    → set_entries (set_entry c es) cs ≡ set_entry c (set_entries es cs)
unfolding set_entries
set_moves es [] c h f a = refl
set_moves {k} es (d ∷ cs) c h f a =
    ap (λ (t : List Commitment). set_entries t cs) (set_entry_comm d c es (omega arith) a)
    ∙ set_moves (set_entry d es) cs c h f.1 (set_entry-Ascending d es a)

insert_sets :
    (es cs : List Commitment) (c : Commitment)
    → Ascending es
    → Sorted cs
    → set_entries es (insert_by_key c cs) ≡ set_entry c (set_entries es cs)
unfolding set_entries
insert_sets es [] c a s = refl
insert_sets es (d ∷ ds) c a s = elim (Bool-cases (ltb c.key d.key)) [
  | inl less ↦
      rw less (set_moves {k = d.key} es (d ∷ ds) c (ground (arith, less)) (omega arith, s.0) a)
  | inr more ↦ rw more (insert_sets (set_entry d es) ds c (set_entry-Ascending d es a) s.1)
]

sort_sets :
    (es acc cs : List Commitment)
    → Ascending es
    → Sorted acc
    → set_entries es (sort_by_key acc cs) ≡ set_entries (set_entries es acc) cs
unfolding sort_by_key set_entries
sort_sets es acc [] a s = refl
sort_sets es acc (c ∷ cs) a s =
    sort_sets es (insert_by_key c acc) cs a (insert-Sorted c acc s)
    ∙ ap (λ (t : List Commitment). set_entries t cs) (insert_sets es acc c a s)

last_stands :
    (b c : Commitment) (es : List Commitment)
    → c.key ≡ b.key
    → Ascending es
    → set_entry (record b { value_hash = c.value_hash }) es ≡ set_entry c (set_entry b es)
last_stands b c es h a =
    let last_is_c : record b { value_hash = c.value_hash } ≡ c =
      λ i. record { key = sym h i; value_hash = c.value_hash } in
    ap (λ (t : Commitment). set_entry t es) last_is_c ∙ sym (set_entry_same c b es h a)

dedup_sets :
    (es : List Commitment) (b : Commitment) (cs : List Commitment)
    → Ascending es
    → set_entries es (dedup_from b cs) ≡ set_entries (set_entry b es) cs
unfolding set_entries
dedup_sets es b [] a = unfold dedup_from in refl
dedup_sets es b (c ∷ cs) a = elim (Bool-cases (c.key == b.key)) [
  | inl same ↦
      let last : Commitment = record b { value_hash = c.value_hash } in
      rw (dedup_same b c cs same) (
        dedup_sets es last cs a
        ∙ ap (λ (t : List Commitment). set_entries t cs)
            (last_stands b c es (ground (arith, same)) a))
  | inr apart ↦
      rw (dedup_apart b c cs apart) (dedup_sets (set_entry b es) c cs (set_entry-Ascending b es a))
]

-- What the updater makes of the commitments sets what they set one after the other.
pub sort_dedup_sets :
    (es cs : List Commitment)
    → Ascending es
    → set_entries es (dedup (sort_by_key [] cs)) ≡ set_entries es cs
unfolding set_entries
sort_dedup_sets es cs a = go (sort_by_key [] cs) ∙ sort_sets es [] cs a tt
  where
    go : (us : List Commitment) → set_entries es (dedup us) ≡ set_entries es us
    go [] = refl
    go (b ∷ us) = dedup_sets es b us a

insert-Shares :
    (low prefix : ℕ) (c : Commitment) (cs : List Commitment)
    → c.key / 2 ^ low ≡ prefix
    → Shares low prefix cs
    → Shares low prefix (insert_by_key c cs)
insert-Shares low prefix c [] h s = (h, tt)
insert-Shares low prefix c (d ∷ ds) h s = elim (Bool-cases (ltb c.key d.key)) [
  | inl less ↦ rw less (h, s)
  | inr more ↦ rw more (s.0, insert-Shares low prefix c ds h s.1)
]

sort-Shares :
    (low prefix : ℕ) (acc cs : List Commitment)
    → Shares low prefix acc
    → Shares low prefix cs
    → Shares low prefix (sort_by_key acc cs)
unfolding sort_by_key
sort-Shares low prefix acc [] s t = s
sort-Shares low prefix acc (c ∷ cs) s t =
    sort-Shares low prefix (insert_by_key c acc) cs (insert-Shares low prefix c acc t.0 s) t.1

dedup_from-Shares :
    (low prefix : ℕ) (b : Commitment) (cs : List Commitment)
    → b.key / 2 ^ low ≡ prefix
    → Shares low prefix cs
    → Shares low prefix (dedup_from b cs)
dedup_from-Shares low prefix b [] h s = unfold dedup_from in (h, tt)
dedup_from-Shares low prefix b (c ∷ cs) h s = elim (Bool-cases (c.key == b.key)) [
  | inl same ↦
      rw (dedup_same b c cs same)
        (dedup_from-Shares low prefix (record b { value_hash = c.value_hash }) cs h s.1)
  | inr apart ↦ rw (dedup_apart b c cs apart) (h, dedup_from-Shares low prefix c cs s.0 s.1)
]

pub sort_dedup-Shares :
    (low prefix : ℕ) (cs : List Commitment)
    → Shares low prefix cs
    → Shares low prefix (dedup (sort_by_key [] cs))
sort_dedup-Shares low prefix cs s = go (sort_by_key [] cs) (sort-Shares low prefix [] cs tt s)
  where
    go : (us : List Commitment) → Shares low prefix us → Shares low prefix (dedup us)
    go [] t = tt
    go (b ∷ us) t = dedup_from-Shares low prefix b us t.0 t.1

insert-Live :
    (c : Commitment) (cs : List Commitment)
    → c.value_hash ≢ empty_hash
    → Live cs
    → Live (insert_by_key c cs)
insert-Live c [] h l = (h, tt)
insert-Live c (d ∷ ds) h l = elim (Bool-cases (ltb c.key d.key)) [
  | inl less ↦ rw less (h, l)
  | inr more ↦ rw more (l.0, insert-Live c ds h l.1)
]

sort-Live : (acc cs : List Commitment) → Live acc → Live cs → Live (sort_by_key acc cs)
unfolding sort_by_key
sort-Live acc [] l m = l
sort-Live acc (c ∷ cs) l m = sort-Live (insert_by_key c acc) cs (insert-Live c acc m.0 l) m.1

dedup_from-Live :
    (b : Commitment) (cs : List Commitment)
    → b.value_hash ≢ empty_hash
    → Live cs
    → Live (dedup_from b cs)
dedup_from-Live b [] h l = unfold dedup_from in (h, tt)
dedup_from-Live b (c ∷ cs) h l = elim (Bool-cases (c.key == b.key)) [
  | inl same ↦
      rw (dedup_same b c cs same)
        (dedup_from-Live (record b { value_hash = c.value_hash }) cs l.0 l.1)
  | inr apart ↦ rw (dedup_apart b c cs apart) (h, dedup_from-Live c cs l.0 l.1)
]

pub sort_dedup-Live : (cs : List Commitment) → Live cs → Live (dedup (sort_by_key [] cs))
sort_dedup-Live cs l = go (sort_by_key [] cs) (sort-Live [] cs tt l)
  where
    go : (us : List Commitment) → Live us → Live (dedup us)
    go [] m = tt
    go (b ∷ us) m = dedup_from-Live b us m.0 m.1
