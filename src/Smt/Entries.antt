-- ===== src/Smt/Entries.antt =====
-- core/smt/src: lists of entries, as the updater and the reference hash go through them. An entry is
-- set in a sorted list, or taken out where its value is empty.
pub mod Halves
pub mod Sorting
use vprogs.Base.{
  ℕ, zero, suc, ◌+◌, ◌*◌, ◌/◌, ◌^◌, ◌<◌, ◌≤◌, ◌≡◌, ◌≢◌, ◌⊎◌, refl, sym, ap, ◌∙◌, inl, inr, List, [],
  ◌∷◌, ◌++◌, Bool, true, false, Option, none, some, arith, ltb, ◌==◌, if◌then◌else◌, Bool-cases,
  get_elem?, length, append_nil, append_assoc,
}
use vprogs.Base.Order.{lt_or_ge}
use vprogs.Smt.{Commitment, partition_point, empty_hash}
use vprogs.Smt.Updater.{live, with_existing, has_key}

-- The entry in front, unless its value is empty.
abbrev pub keep : Commitment → List Commitment → List Commitment
keep c rest = if c.value_hash == empty_hash then rest else c ∷ rest

unfoldable pub set_entry : Commitment → List Commitment → List Commitment
set_entry c [] = keep c []
set_entry c (e ∷ es) =
    if ltb c.key e.key
    then keep c (e ∷ es)
    else if c.key == e.key
    then keep c es
    else e ∷ set_entry c es

unfoldable pub set_entries : List Commitment → List Commitment → List Commitment
set_entries es [] = es
set_entries es (c ∷ cs) = set_entries (set_entry c es) cs

abbrev pub Above : ℕ → List Commitment → Type 0
Above k [] = Unit
Above k (e ∷ es) = (k < e.key) × Above k es

abbrev pub Ascending : List Commitment → Type 0
Ascending [] = Unit
Ascending (e ∷ es) = Above e.key es × Ascending es

abbrev pub Live : List Commitment → Type 0
Live [] = Unit
Live (e ∷ es) = (e.value_hash ≢ empty_hash) × Live es

pub Above-mono : (j k : ℕ) (es : List Commitment) → j ≤ k → Above k es → Above j es
Above-mono j k [] h a = tt
Above-mono j k (e ∷ es) h a = (omega arith, Above-mono j k es h a.1)

keep-Above :
    (k : ℕ) (c : Commitment) (es : List Commitment) → k < c.key → Above k es → Above k (keep c es)
keep-Above k c es h a = elim (Bool-cases (c.value_hash == empty_hash)) [
  | inl gone ↦ rw gone a
  | inr kept ↦ rw kept (h, a)
]

pub set_entry-Above :
    (k : ℕ) (c : Commitment) (es : List Commitment)
    → k < c.key
    → Above k es
    → Above k (set_entry c es)
unfolding set_entry
set_entry-Above k c [] h a = keep-Above k c [] h a
set_entry-Above k c (e ∷ es) h a = elim (Bool-cases (ltb c.key e.key)) [
  | inl below ↦ rw below (keep-Above k c (e ∷ es) h a)
  | inr above ↦ rw above (elim (Bool-cases (c.key == e.key)) [
    | inl same ↦ rw same (keep-Above k c es h a.1)
    | inr apart ↦ rw apart (a.0, set_entry-Above k c es h a.1)
  ])
]

keep-Ascending :
    (c : Commitment) (es : List Commitment) → Above c.key es → Ascending es → Ascending (keep c es)
keep-Ascending c es h a = elim (Bool-cases (c.value_hash == empty_hash)) [
  | inl gone ↦ rw gone a
  | inr kept ↦ rw kept (h, a)
]

pub set_entry-Ascending :
    (c : Commitment) (es : List Commitment) → Ascending es → Ascending (set_entry c es)
unfolding set_entry
set_entry-Ascending c [] a = keep-Ascending c [] tt tt
set_entry-Ascending c (e ∷ es) a = elim (Bool-cases (ltb c.key e.key)) [
  | inl below ↦ rw below (
      keep-Ascending c (e ∷ es)
        (ground (arith, below), Above-mono c.key e.key es (ground (arith, below)) a.0) a)
  | inr above ↦ rw above (elim (Bool-cases (c.key == e.key)) [
    | inl same ↦
        rw same (keep-Ascending c es (Above-mono c.key e.key es (ground (arith, same)) a.0) a.1)
    | inr apart ↦ rw apart (
      set_entry-Above e.key c es (ground (arith, above, apart)) a.0,
      set_entry-Ascending c es a.1,
    )
  ])
]

pub set_entries-Ascending : (es cs : List Commitment) → Ascending es → Ascending (set_entries es cs)
unfolding set_entries
set_entries-Ascending es [] a = a
set_entries-Ascending es (c ∷ cs) a =
    set_entries-Ascending (set_entry c es) cs (set_entry-Ascending c es a)

keep-Live : (c : Commitment) (es : List Commitment) → Live es → Live (keep c es)
keep-Live c es l = elim (Bool-cases (c.value_hash == empty_hash)) [
  | inl gone ↦ rw gone l
  | inr kept ↦ rw kept (ground (arith, kept), l)
]

set_entry-Live : (c : Commitment) (es : List Commitment) → Live es → Live (set_entry c es)
unfolding set_entry
set_entry-Live c [] l = keep-Live c [] tt
set_entry-Live c (e ∷ es) l = elim (Bool-cases (ltb c.key e.key)) [
  | inl below ↦ rw below (keep-Live c (e ∷ es) l)
  | inr above ↦ rw above (elim (Bool-cases (c.key == e.key)) [
    | inl same ↦ rw same (keep-Live c es l.1)
    | inr apart ↦ rw apart (l.0, set_entry-Live c es l.1)
  ])
]

pub set_entries-Live : (es cs : List Commitment) → Live es → Live (set_entries es cs)
unfolding set_entries
set_entries-Live es [] l = l
set_entries-Live es (c ∷ cs) l = set_entries-Live (set_entry c es) cs (set_entry-Live c es l)

-- Below all keys, the entry comes first.
pub set_entry_below :
    (c : Commitment) (es : List Commitment) → Above c.key es → set_entry c es ≡ keep c es
unfolding set_entry
set_entry_below c [] a = refl
set_entry_below c (e ∷ es) a = ground arith

-- The later of two values for one key stands.
pub set_entry_same :
    (c d : Commitment) (es : List Commitment)
    → c.key ≡ d.key
    → Ascending es
    → set_entry c (set_entry d es) ≡ set_entry c es
unfolding set_entry
set_entry_same c d [] h a = ground arith
set_entry_same c d (e ∷ es) h a = ground (
  arith,
  set_entry_same c d es h a.1,
  λ (p : c.key ≤ e.key). set_entry_below c es (Above-mono c.key e.key es p a.0),
)

set_entry_past :
    (c e : Commitment) (es : List Commitment)
    → e.key < c.key
    → set_entry c (e ∷ es) ≡ e ∷ set_entry c es
unfolding set_entry
set_entry_past c e es h = ground arith

set_entry-keep :
    (c d : Commitment) (es : List Commitment)
    → c.key < d.key
    → set_entry d (keep c es) ≡ keep c (set_entry d es)
set_entry-keep c d es h = elim (Bool-cases (c.value_hash == empty_hash)) [
  | inl gone ↦ rw gone
  | inr kept ↦ rw kept (set_entry_past d c es h)
]

pub set_entry_at :
    (c e : Commitment) (es : List Commitment) → c.key ≡ e.key → set_entry c (e ∷ es) ≡ keep c es
unfolding set_entry
set_entry_at c e es h = ground arith

set_entry_comm_lt :
    (c d : Commitment) (es : List Commitment)
    → c.key < d.key
    → Ascending es
    → set_entry c (set_entry d es) ≡ set_entry d (set_entry c es)
set_entry_comm_lt c d [] h a =
    set_entry_below c (set_entry d []) (set_entry-Above c.key d [] h tt)
    ∙ sym (set_entry-keep c d [] h)
    ∙ ap (set_entry d) (sym (set_entry_below c [] tt))
set_entry_comm_lt c d (e ∷ es) h a = elim (lt_or_ge c.key e.key) [
  | inl less ↦
      let above : Above c.key (e ∷ es) = (less, Above-mono c.key e.key es (omega arith) a.0) in
      set_entry_below c (set_entry d (e ∷ es)) (set_entry-Above c.key d (e ∷ es) h above)
      ∙ sym (set_entry-keep c d (e ∷ es) h)
      ∙ ap (set_entry d) (sym (set_entry_below c (e ∷ es) above))
  | inr more ↦ rw (set_entry_past d e es (omega arith)) (elim (lt_or_ge e.key c.key) [
    | inl past ↦
        set_entry_past c e (set_entry d es) past
        ∙ ap (λ (t : List Commitment). e ∷ t) (set_entry_comm_lt c d es h a.1)
        ∙ sym (set_entry_past d e (set_entry c es) (omega arith))
        ∙ ap (set_entry d) (sym (set_entry_past c e es past))
    | inr at ↦
        set_entry_at c e (set_entry d es) (omega arith)
        ∙ sym (set_entry-keep c d es h)
        ∙ ap (set_entry d) (sym (set_entry_at c e es (omega arith)))
  ])
]

pub set_entry_comm :
    (c d : Commitment) (es : List Commitment)
    → c.key ≢ d.key
    → Ascending es
    → set_entry c (set_entry d es) ≡ set_entry d (set_entry c es)
set_entry_comm c d es h a = elim (lt_or_ge c.key d.key) [
  | inl less ↦ set_entry_comm_lt c d es less a
  | inr more ↦ sym (set_entry_comm_lt d c es (omega arith) a)
]

-- Entries with larger keys, and entries with smaller ones, are left where they are.
pub set_entry-append_left :
    (c : Commitment) (es fs : List Commitment)
    → Above c.key fs
    → set_entry c (es ++ fs) ≡ set_entry c es ++ fs
unfolding set_entry
set_entry-append_left c [] fs a = set_entry_below c fs a ∙ ground arith
set_entry-append_left c (e ∷ es) fs a = ground (arith, set_entry-append_left c es fs a)

abbrev pub Under : ℕ → List Commitment → Type 0
Under k [] = Unit
Under k (e ∷ es) = (e.key < k) × Under k es

pub set_entry-append_right :
    (c : Commitment) (es fs : List Commitment)
    → Under c.key es
    → set_entry c (es ++ fs) ≡ es ++ set_entry c fs
unfolding set_entry
set_entry-append_right c [] fs a = refl
set_entry-append_right c (e ∷ es) fs a = ground (arith, set_entry-append_right c es fs a.1)

pub set_entries-append :
    (es cs ds : List Commitment) → set_entries es (cs ++ ds) ≡ set_entries (set_entries es cs) ds
unfolding set_entries
set_entries-append es [] ds = refl
set_entries-append es (c ∷ cs) ds = set_entries-append (set_entry c es) cs ds

-- Entries below all the commitments stay, with the live commitments behind them.
abbrev pub Before : List Commitment → List Commitment → Type 0
Before es [] = Unit
Before es (c ∷ cs) = Under c.key es × Before es cs

keep-Before :
    (c : Commitment) (es cs : List Commitment)
    → Above c.key cs
    → Before es cs
    → Before (es ++ keep c []) cs
keep-Before c es [] a b = tt
keep-Before c es (d ∷ cs) a b = (under es b.0, keep-Before c es cs a.1 b.1)
  where
    under : (es : List Commitment) → Under d.key es → Under d.key (es ++ keep c [])
    under [] u = ground (arith, a.0)
    under (e ∷ es) u = (u.0, under es u.1)

set_entries_behind :
    (es cs : List Commitment) → Ascending cs → Before es cs → set_entries es cs ≡ es ++ live cs
unfolding set_entry set_entries
set_entries_behind es [] a b = sym (append_nil es)
set_entries_behind es (c ∷ cs) a b =
    ap (λ (t : List Commitment). set_entries t cs)
      (ap (λ (t : List Commitment). set_entry c t) (sym (append_nil es))
        ∙ set_entry-append_right c es [] b.0)
    ∙ set_entries_behind (es ++ keep c []) cs a.1 (keep-Before c es cs a.0 b.1)
    ∙ append_assoc es (keep c []) (live cs)
    ∙ ap (λ (t : List Commitment). es ++ t) (ground arith)

Before-nil : (cs : List Commitment) → Before [] cs
Before-nil [] = tt
Before-nil (c ∷ cs) = (tt, Before-nil cs)

-- Ascending commitments into no entries leave the live ones among them.
pub set_entries_live : (cs : List Commitment) → Ascending cs → set_entries [] cs ≡ live cs
set_entries_live cs a = set_entries_behind [] cs a (Before-nil cs)

pub with_existing_past :
    (c : Commitment) (cs : List Commitment) (k v : ℕ)
    → ltb c.key k ≡ true
    → with_existing (c ∷ cs) k v ≡ c ∷ with_existing cs k v
with_existing_past c cs k v less =
    rw less (elim (Bool-cases (has_key k (get_elem? cs (partition_point (λ u. ltb u.key k) cs)))) [
      | inl found ↦ rw found
      | inr missing ↦ rw missing
    ])

-- The leaf that joins the commitments where they lack its key might as well be an entry.
pub set_entries-with_existing :
    (es cs : List Commitment) (k v : ℕ)
    → Ascending es
    → set_entries (set_entry (record { key = k; value_hash = v }) es) cs
      ≡ set_entries es (with_existing cs k v)
unfolding set_entries
set_entries-with_existing es [] k v a = refl
set_entries-with_existing es (c ∷ cs) k v a = elim (Bool-cases (ltb c.key k)) [
  | inl less ↦ rw (with_existing_past c cs k v less) (
      ap (λ (t : List Commitment). set_entries t cs)
        (set_entry_comm c (record { key = k; value_hash = v }) es (ground (arith, less)) a)
      ∙ set_entries-with_existing (set_entry c es) cs k v (set_entry-Ascending c es a))
  | inr more ↦ elim (Bool-cases (c.key == k)) [
    | inl same ↦
        rw (more, same)
          (ap (λ (t : List Commitment). set_entries t cs)
            (set_entry_same c (record { key = k; value_hash = v }) es (ground (arith, same)) a))
    | inr apart ↦ rw (more, apart)
  ]
]

-- That list is ascending too, and what holds of all its keys and of the leaf's holds of all.
with_existing-Above :
    (j : ℕ) (cs : List Commitment) (k v : ℕ) → j < k → Above j cs → Above j (with_existing cs k v)
with_existing-Above j [] k v h a = (h, tt)
with_existing-Above j (c ∷ cs) k v h a = elim (Bool-cases (ltb c.key k)) [
  | inl less ↦ rw (with_existing_past c cs k v less) (a.0, with_existing-Above j cs k v h a.1)
  | inr more ↦ elim (Bool-cases (c.key == k)) [
    | inl same ↦ rw (more, same) a
    | inr apart ↦ rw (more, apart) (h, a)
  ]
]

pub with_existing-Ascending :
    (cs : List Commitment) (k v : ℕ) → Ascending cs → Ascending (with_existing cs k v)
with_existing-Ascending [] k v a = (tt, tt)
with_existing-Ascending (c ∷ cs) k v a = elim (Bool-cases (ltb c.key k)) [
  | inl less ↦ rw (with_existing_past c cs k v less) (
    with_existing-Above c.key cs k v (ground (arith, less)) a.0,
    with_existing-Ascending cs k v a.1,
  )
  | inr more ↦ elim (Bool-cases (c.key == k)) [
    | inl same ↦ rw (more, same) a
    | inr apart ↦
        let less : k < c.key = ground (arith, more, apart) in
        rw (more, apart) ((less, Above-mono k c.key cs (omega arith) a.0), a)
  ]
]

pub with_existing-Live :
    (cs : List Commitment) (k v : ℕ) → v ≢ empty_hash → Live cs → Live (with_existing cs k v)
with_existing-Live [] k v h l = (h, tt)
with_existing-Live (c ∷ cs) k v h l = elim (Bool-cases (ltb c.key k)) [
  | inl less ↦ rw (with_existing_past c cs k v less) (l.0, with_existing-Live cs k v h l.1)
  | inr more ↦ elim (Bool-cases (c.key == k)) [
    | inl same ↦ rw (more, same) l
    | inr apart ↦ rw (more, apart) (h, l)
  ]
]

-- Live commitments take no entry out.
length-set_entry :
    (c : Commitment) (es : List Commitment)
    → c.value_hash ≢ empty_hash
    → length es ≤ length (set_entry c es)
unfolding set_entry
length-set_entry c [] h = omega arith
length-set_entry c (e ∷ es) h = ground (arith, length-set_entry c es h)

pub length-set_entries :
    (es cs : List Commitment) → Live cs → length es ≤ length (set_entries es cs)
unfolding set_entries
length-set_entries es [] l = omega arith
length-set_entries es (c ∷ cs) l =
    omega (arith, length-set_entry c es l.0, length-set_entries (set_entry c es) cs l.1)
