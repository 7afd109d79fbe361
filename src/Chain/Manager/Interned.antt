-- ===== src/Chain/Manager/Interned.antt =====
-- The log of storage/canonical-chain/src/manager.rs over a run of its calls: an id stands for one
-- block hash.
use vprogs.Base.{
  ℕ, ◌+◌, ◌-◌, ◌≤◌, ◌<◌, ◌≡◌, ◌↔◌, ◌⊎◌, refl, ◌∙◌, sym, ap, inl, inr, false, List, [], ◌∷◌, Option,
  none, some, arith, ltb, ◌==◌, ==_ne, ==_refl, Bool-cases, length,
}
use mathlib.Core.Option.{some-injective}
use vprogs.Chain.Manager
use vprogs.Chain.Manager.{BatchMetadata, Manager, AppendOutcome}
use vprogs.Chain.Manager.Index.{Indexed, snoc-Indexed, get_elem?_bound}
use vprogs.Chain.Snapshot.{Snapshot}
use vprogs.Chain.Manager.Blocks.{append_unseen, append_indexed}
use vprogs.Chain.Manager.Finalize.{finalize-Indexed, base-finalize, id-finalize}

-- A call of the manager by its owner.
pub data Call (M : Type 0) : Type 0 where
  append : M → Call M
  rollback : ℕ → Call M
  finalize : ℕ → Call M

-- No call of the run finalizes the id.
abbrev pub Spares : {M : Type 0} → ℕ → List (Call M) → Type 0
Spares id [] = Unit
Spares id (append e ∷ calls) = Spares id calls
Spares id (rollback new_tip ∷ calls) = Spares id calls
Spares id (finalize below ∷ calls) = (below ≤ id) × Spares id calls

outcome_eq :
    (o : AppendOutcome) (k : ℕ)
    → o.id ≡ k
    → o.is_new ≡ false
    → o ≡ record { id = k; is_new = false }
outcome_eq o k p q = λ i. record { id = p i; is_new = q i }

Option-cases : (o : Option ℕ) → (o ≡ none) ⊎ ((k : ℕ) × (o ≡ some k))
Option-cases none = inl refl
Option-cases (some k) = inr (k, refl)

module _ {M : Type 0} ⦃meta : BatchMetadata M⦄ where
  abbrev pub run : List (Call M) → Manager M → Manager M
  run [] m = m
  run (append e ∷ calls) m = run calls (Manager.append m e).0
  run (rollback new_tip ∷ calls) m = run calls (Manager.rollback m new_tip)
  run (finalize below ∷ calls) m = run calls (Manager.finalize m below)

  -- Log and index agree.
  abbrev pub Agrees : Manager M → Type 0
  Agrees m = Indexed m.base m.entries m.index

  -- What an append that ends in `r` does to the log.
  record Logged (m : Manager M) (e : M) (r : Manager M × AppendOutcome) : Type 0 where
    agrees : Agrees r.0
    found : Manager.id r.0 (meta.block_hash e) ≡ some r.1.id
    known :
        (k : ℕ) → Manager.id m (meta.block_hash e) ≡ some k → (r.1.id ≡ k) × (r.1.is_new ≡ false)
    kept : (h k : ℕ) → Manager.id m h ≡ some k → Manager.id r.0 h ≡ some k

  append_known-Logged :
      (m : Manager M) (e : M) (k : ℕ) (chain : Snapshot)
      → Agrees m
      → Manager.id m (meta.block_hash e) ≡ some k
      → Logged m e (record m { chain = chain }, record { id = k; is_new = false })
  unfolding Manager.id
  append_known-Logged m e k chain x p = record {
    agrees = x;
    found = p;
    known = λ j q. (some-injective k j (sym p ∙ q), refl);
    kept = λ h j q. q;
  }

  append-Logged : (m : Manager M) (e : M) → Agrees m → Logged m e (Manager.append m e)
  unfolding Manager.push Manager.id
  append-Logged m e x = elim (Option-cases (Manager.id m (meta.block_hash e))) [
    | inl fresh ↦ rw (append_unseen m e fresh) (record {
      agrees = snoc-Indexed m.base m.entries m.index e x fresh;
      found = rw (==_refl (meta.block_hash e)) refl;
      known = λ k q. absurd cc;
      kept = λ h k q.
          let r : (h == meta.block_hash e) ≡ false =
            ==_ne h (meta.block_hash e) (λ same. cc (ap m.index same)) in
          rw r q;
    })
    | inr seen ↦ rw (append_indexed m e seen.0 seen.1) (elim (Bool-cases (ltb m.chain.tip seen.0)) [
      | inl above ↦ rw above (append_known-Logged m e seen.0 _ x seen.1)
      | inr under ↦ rw under (append_known-Logged m e seen.0 m.chain x seen.1)
    ])
  ]

  -- An indexed hash finds an entry of the log.
  live_entry :
      (m : Manager M) (h k : ℕ)
      → Agrees m
      → Manager.id m h ≡ some k
      → (m.base ≤ k)
        × (k < m.base + length m.entries)
        × (d : M) × (Manager.metadata m k ≡ some d)
        × (meta.block_hash d ≡ h)
  unfolding Manager.id Manager.metadata
  live_entry m h k x p =
      let (d, a, b, c) = x.live h k p in
      let r : ltb k m.base ≡ false = ground arith in
      (a, omega (arith, get_elem?_bound m.entries (k - m.base) d b), d, rw r b, c)

  finalize_kept :
      (m : Manager M) (below h k : ℕ)
      → Agrees m
      → below ≤ k
      → Manager.id m h ≡ some k
      → Manager.id (Manager.finalize m below) h ≡ some k
  finalize_kept m below h k x s p =
      let live = live_entry m h k x p in
      (id-finalize m below x h k).1 (p, omega (arith, base-finalize m below x))

  rollback-Agrees : (m : Manager M) (new_tip : ℕ) → Agrees m → Agrees (Manager.rollback m new_tip)
  unfolding Manager.rollback
  rollback-Agrees m new_tip x = x

  rollback_kept :
      (m : Manager M) (new_tip h : ℕ) → Manager.id (Manager.rollback m new_tip) h ≡ Manager.id m h
  unfolding Manager.rollback Manager.id
  rollback_kept m new_tip h = refl

  -- A run keeps log and index in step, and the hash of an id that it spares.
  run_kept :
      (calls : List (Call M)) (m : Manager M) (h k : ℕ)
      → Agrees m
      → Spares k calls
      → Manager.id m h ≡ some k
      → Agrees (run calls m) × (Manager.id (run calls m) h ≡ some k)
  run_kept [] m h k x s p = (x, p)
  run_kept (append e ∷ calls) m h k x s p =
      let l = append-Logged m e x in run_kept calls _ h k l.agrees s (l.kept h k p)
  run_kept (rollback new_tip ∷ calls) m h k x s p =
      run_kept calls _ h k (rollback-Agrees m new_tip x) s (rollback_kept m new_tip h ∙ p)
  run_kept (finalize below ∷ calls) m h k x s p =
      run_kept calls _ h k (finalize-Indexed m below x) s.1 (finalize_kept m below h k x s.0 p)

  -- Two blocks that a manager's index gives one id have one hash.
  id_injective :
      (m : Manager M) (h h' k : ℕ)
      → Agrees m
      → Manager.id m h ≡ some k
      → Manager.id m h' ≡ some k
      → h ≡ h'
  id_injective m h h' k x p q =
      let (a, b, d, e, f) = live_entry m h k x p in
      let (a', b', d', e', f') = live_entry m h' k x q in
      let same : d ≡ d' = some-injective d d' (sym e ∙ e') in sym f ∙ ap meta.block_hash same ∙ f'

  module _ (m : Manager M) (e e' : M) (calls : List (Call M)) (x : Agrees m)
      (s : Spares (Manager.append m e).1.id calls) where
    abbrev first : AppendOutcome
    first = (Manager.append m e).1

    -- The manager after the block and the run.
    abbrev later : Manager M
    later = run calls (Manager.append m e).0

    abbrev second : AppendOutcome
    second = (Manager.append later e').1

    kept_later : Agrees later × (Manager.id later (meta.block_hash e) ≡ some first.id)
    kept_later =
        let l = append-Logged m e x in
        run_kept calls (Manager.append m e).0 (meta.block_hash e) first.id l.agrees s l.found

    one_hash : second.id ≡ first.id → meta.block_hash e' ≡ meta.block_hash e
    one_hash same =
        let l = append-Logged later e' kept_later.0 in
        id_injective (Manager.append later e').0 (meta.block_hash e') (meta.block_hash e) first.id
          l.agrees (l.found ∙ ap some same) (l.kept (meta.block_hash e) first.id kept_later.1)

    seen_again :
        meta.block_hash e' ≡ meta.block_hash e → (second.id ≡ first.id) × (second.is_new ≡ false)
    seen_again same =
        (append-Logged later e' kept_later.0).known first.id
          (ap (λ (h : ℕ). Manager.id later h) same ∙ kept_later.1)

    -- Where log and index agree, a block is appended, any further appends, rollbacks and
    -- finalizations not above its id follow, and another block is appended: the second append
    -- returns the id of the first one exactly when the two blocks have one hash, and then, and
    -- only then, it returns that id as a known one; before it the id's metadata is that of a block
    -- with the hash.
    pub append_interned :
        ((second.id ≡ first.id) ↔ (meta.block_hash e' ≡ meta.block_hash e))
        × ((second ≡ record { id = first.id; is_new = false })
            ↔ (meta.block_hash e' ≡ meta.block_hash e))
        × (d : M) × (Manager.metadata later first.id ≡ some d)
        × (meta.block_hash d ≡ meta.block_hash e)
    append_interned =
        let (a, b, d, p, q) =
          live_entry later (meta.block_hash e) first.id kept_later.0 kept_later.1 in
        (
          (one_hash, λ same. (seen_again same).0),
          (
            λ o. one_hash (ap (λ (t : AppendOutcome). t.id) o),
            λ same. outcome_eq second first.id (seen_again same).0 (seen_again same).1,
          ),
          d,
          p,
          q,
        )
