-- ===== src/Smt/Proving/Post/Scanned.antt =====
-- core/smt/src/proving/proof.rs, `classify_leaf_update`: what the pass over a leaf's members finds.
use vprogs.Base.{
  ℕ, zero, suc, ◌≡◌, refl, sym, ap, ◌∙◌, inl, inr, List, [], ◌∷◌, ◌++◌, Bool, true, false, Option,
  some, arith, ◌==◌, if◌then◌else◌, get_elem?, length, append_assoc, append_nil, Bool-cases,
}
use vprogs.Smt.{Commitment, empty_hash}
use vprogs.Smt.Updater.{live}
use vprogs.Smt.Proving.Traversal.{Proof, present, absent}
use vprogs.Smt.Proving.Post.{
  LeafScan, scan_present, scan_absent, scan_kind, scan_push, unwrap_or, scan_members,
}

-- What the members at successive indices set.
abbrev pub changes : (ℕ → ℕ) → ℕ → List ℕ → List Commitment
changes new_value o [] = []
changes new_value o (m ∷ ms) =
    record { key = m; value_hash = new_value o } ∷ changes new_value (suc o) ms

abbrev pub iota : ℕ → ℕ → List ℕ
iota start zero = []
iota start (suc count) = start ∷ iota (suc start) count

-- The members of a leaf with the key `k`, at successive indices.
abbrev pub Members : Proof → ℕ → ℕ → ℕ → List ℕ → Type 0
Members p k j o [] = Unit
Members p k j o (m ∷ ms) =
    (get_elem? p.memberships o ≡ some (if m == k then present j else absent j))
    × (get_elem? p.keys o ≡ some m)
    × Members p k j (suc o) ms

-- The scan over commitments.
abbrev pub pushed : Commitment → LeafScan → LeafScan
pushed u s = if u.value_hash == empty_hash then s else record s { buffer = s.buffer ++ u ∷ [] }

abbrev pub scanned_one : ℕ → ℕ → Commitment → LeafScan → LeafScan
scanned_one k value_hash u s =
    pushed u
      (if u.key == k then scan_present value_hash u.value_hash s else scan_absent u.value_hash s)

pub scanned : ℕ → ℕ → List Commitment → LeafScan → LeafScan
scanned k value_hash [] s = s
scanned k value_hash (u ∷ us) s = scanned k value_hash us (scanned_one k value_hash u s)

scan_push-some :
    (m v : ℕ) (s : LeafScan)
    → scan_push (some m) v s ≡ some (pushed (record { key = m; value_hash = v }) s)
scan_push-some m v s = elim (Bool-cases (v == empty_hash)) [ inl e ↦ rw e refl | inr e ↦ rw e refl ]

scan_kind_lem :
    (value_hash k j m v : ℕ) (s : LeafScan)
    → scan_kind value_hash (if m == k then present j else absent j) v s
      ≡ (if m == k then scan_present value_hash v s else scan_absent v s)
scan_kind_lem value_hash k j m v s = elim (Bool-cases (m == k)) [
  | inl e ↦ rw e refl
  | inr e ↦ rw e refl
]

pub scan_members-scanned :
    (p : Proof) (new_value : ℕ → ℕ) (k j value_hash o : ℕ) (ms : List ℕ) (s : LeafScan)
    → Members p k j o ms
    → scan_members p new_value value_hash (iota o (length ms)) s
      ≡ some (scanned k value_hash (changes new_value o ms) s)
unfolding scan_members scanned
scan_members-scanned p new_value k j value_hash o [] s h = refl
scan_members-scanned p new_value k j value_hash o (m ∷ ms) s h =
    rw (h.0, h.1, scan_kind_lem value_hash k j m (new_value o) s, scan_push-some m (new_value o))
      (scan_members-scanned p new_value k j value_hash (suc o) ms _ h.2)

-- The fields of the scan.
abbrev pub last_value : ℕ → List Commitment → Option ℕ → Option ℕ
last_value k [] o = o
last_value k (u ∷ us) o = last_value k us (if u.key == k then some u.value_hash else o)

abbrev pub others : ℕ → List Commitment → Bool → Bool
others k [] b = b
others k (u ∷ us) b =
    others k us (if u.key == k then b else if u.value_hash == empty_hash then b else true)

abbrev pub changed : ℕ → ℕ → List Commitment → Bool → Bool
changed k value_hash [] b = b
changed k value_hash (u ∷ us) b = changed k value_hash us (
    if u.key == k
    then (if u.value_hash == value_hash then b else true)
    else if u.value_hash == empty_hash
    then b
    else true)

pub record Scans (k value_hash : ℕ) (cs : List Commitment) (s t : LeafScan) : Type 0 where
  pub witness : t.new_witness_value ≡ last_value k cs s.new_witness_value
  pub synthesis : t.needs_synthesis ≡ others k cs s.needs_synthesis
  pub change : t.any_change ≡ changed k value_hash cs s.any_change
  pub buffered : t.buffer ≡ s.buffer ++ live cs

module _ (k value_hash : ℕ) (u : Commitment) (s : LeafScan) where
  abbrev next_scan : LeafScan
  next_scan = scanned_one k value_hash u s

  one_witness :
      next_scan.new_witness_value ≡ (if u.key == k then some u.value_hash else s.new_witness_value)
  one_witness = elim (Bool-cases (u.value_hash == empty_hash)) [
    | inl gone ↦ elim (Bool-cases (u.key == k)) [
      | inl e ↦ rw (gone, e) refl
      | inr e ↦ rw (gone, e) refl
    ]
    | inr kept ↦ elim (Bool-cases (u.key == k)) [
      | inl e ↦ rw (kept, e) refl
      | inr e ↦ rw (kept, e) refl
    ]
  ]

  one_synthesis : next_scan.needs_synthesis ≡ (
      if u.key == k
      then s.needs_synthesis
      else if u.value_hash == empty_hash
      then s.needs_synthesis
      else true)
  one_synthesis = elim (Bool-cases (u.value_hash == empty_hash)) [
    | inl gone ↦ elim (Bool-cases (u.key == k)) [
      | inl e ↦ rw (gone, e) refl
      | inr e ↦ rw (gone, e) refl
    ]
    | inr kept ↦ elim (Bool-cases (u.key == k)) [
      | inl e ↦ rw (kept, e) refl
      | inr e ↦ rw (kept, e) refl
    ]
  ]

  one_change : next_scan.any_change ≡ (
      if u.key == k
      then (if u.value_hash == value_hash then s.any_change else true)
      else if u.value_hash == empty_hash
      then s.any_change
      else true)
  one_change = elim (Bool-cases (u.value_hash == empty_hash)) [
    | inl gone ↦ elim (Bool-cases (u.key == k)) [
      | inl e ↦ rw (gone, e) refl
      | inr e ↦ rw (gone, e) refl
    ]
    | inr kept ↦ elim (Bool-cases (u.key == k)) [
      | inl e ↦ rw (kept, e) refl
      | inr e ↦ rw (kept, e) refl
    ]
  ]

  one_buffer : next_scan.buffer ≡ s.buffer ++ live (u ∷ [])
  one_buffer = elim (Bool-cases (u.value_hash == empty_hash)) [
    | inl gone ↦ elim (Bool-cases (u.key == k)) [
      | inl e ↦ rw (gone, e) (sym (append_nil s.buffer))
      | inr e ↦ rw (gone, e) (sym (append_nil s.buffer))
    ]
    | inr kept ↦ elim (Bool-cases (u.key == k)) [
      | inl e ↦ rw (kept, e) refl
      | inr e ↦ rw (kept, e) refl
    ]
  ]

pub live-cons : (u : Commitment) (us : List Commitment) → live (u ∷ us) ≡ live (u ∷ []) ++ live us
live-cons u us = elim (Bool-cases (u.value_hash == empty_hash)) [
  | inl e ↦ rw e refl
  | inr e ↦ rw e refl
]

pub scanned_lem :
    (k value_hash : ℕ) (cs : List Commitment) (s : LeafScan)
    → Scans k value_hash cs s (scanned k value_hash cs s)
unfolding scanned
scanned_lem k value_hash [] s = record {
  witness = refl;
  synthesis = refl;
  change = refl;
  buffered = sym (append_nil s.buffer);
}
scanned_lem k value_hash (u ∷ us) s =
    let r = scanned_lem k value_hash us (scanned_one k value_hash u s) in
    record {
      witness = r.witness ∙ ap (last_value k us) (one_witness k value_hash u s);
      synthesis = r.synthesis ∙ ap (others k us) (one_synthesis k value_hash u s);
      change = r.change ∙ ap (changed k value_hash us) (one_change k value_hash u s);
      buffered =
          r.buffered
          ∙ ap (λ (t : List Commitment). t ++ live us) (one_buffer k value_hash u s)
          ∙ append_assoc s.buffer (live (u ∷ [])) (live us)
          ∙ ap (λ (t : List Commitment). s.buffer ++ t) (sym (live-cons u us));
    }

pub others-true : (k : ℕ) (cs : List Commitment) → others k cs true ≡ true
others-true k [] = refl
others-true k (u ∷ us) = elim (Bool-cases (u.key == k)) [
  | inl e ↦ rw e (others-true k us)
  | inr e ↦ elim (Bool-cases (u.value_hash == empty_hash)) [
    | inl f ↦ rw (e, f) (others-true k us)
    | inr f ↦ rw (e, f) (others-true k us)
  ]
]

changed-true : (k value_hash : ℕ) (cs : List Commitment) → changed k value_hash cs true ≡ true
changed-true k value_hash [] = refl
changed-true k value_hash (u ∷ us) = elim (Bool-cases (u.key == k)) [
  | inl e ↦ elim (Bool-cases (u.value_hash == value_hash)) [
    | inl f ↦ rw (e, f) (changed-true k value_hash us)
    | inr f ↦ rw (e, f) (changed-true k value_hash us)
  ]
  | inr e ↦ elim (Bool-cases (u.value_hash == empty_hash)) [
    | inl f ↦ rw (e, f) (changed-true k value_hash us)
    | inr f ↦ rw (e, f) (changed-true k value_hash us)
  ]
]

-- Without a change no other key is set, and the leaf keeps its value.
pub unchanged_lem :
    (k value_hash : ℕ) (cs : List Commitment) (o : Option ℕ)
    → changed k value_hash cs false ≡ false
    → unwrap_or o value_hash ≡ value_hash
    → (others k cs false ≡ false) × (unwrap_or (last_value k cs o) value_hash ≡ value_hash)
unchanged_lem k value_hash [] o h e = (refl, e)
unchanged_lem k value_hash (u ∷ us) o h e = elim (Bool-cases (u.key == k)) [
  | inl same ↦ elim (Bool-cases (u.value_hash == value_hash)) [
    | inl f ↦ rw same (
        unchanged_lem k value_hash us (some u.value_hash)
          (sym (ap (changed k value_hash us) (rw (same, f) refl)) ∙ h) (ground (arith, f)))
    | inr f ↦ absurd (both (sym (ap (changed k value_hash us) (rw (same, f) refl)) ∙ h))
  ]
  | inr apart ↦ elim (Bool-cases (u.value_hash == empty_hash)) [
    | inl f ↦
        rw (apart, f)
          (unchanged_lem k value_hash us o
            (sym (ap (changed k value_hash us) (rw (apart, f) refl)) ∙ h) e)
    | inr f ↦ absurd (both (sym (ap (changed k value_hash us) (rw (apart, f) refl)) ∙ h))
  ]
]
  where
    both : changed k value_hash us true ≡ false → ⊥
    both g = cc (g, changed-true k value_hash us)
