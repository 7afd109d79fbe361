-- ===== src/Chain/Manager/Blocks.antt =====
-- `append` of storage/canonical-chain/src/manager.rs: new and returning blocks.
use vprogs.Base.{
  ℕ, ◌+◌, ◌-◌, ◌/◌, ◌≤◌, ◌<◌, ◌≡◌, refl, ◌∙◌, inl, inr, Bool, true, false, ◌||◌, ◌&&◌, ltb→lt, none,
  some, arith, ltb, ◌==◌, Bool-cases, length,
}
use vprogs.Chain.Snapshot.{is_canonical}
use vprogs.Chain.Oracle
use vprogs.Chain.Oracle.{snoc}
use vprogs.Chain.Oracle.Invariant
use vprogs.Chain.Oracle.Append.{is_canonical-append, append-IsValid, tip-append, tail_bucket-append}
use vprogs.Chain.Manager
use vprogs.Chain.Manager.{BatchMetadata, Manager, AppendOutcome}
use vprogs.Chain.Manager.Index.{Indexed, snoc-Indexed, length-snoc}

and_true : (b c : Bool) → (b || c) ≡ ((b && true) || c)
and_true true c = refl
and_true false c = refl

and_false : (b c : Bool) → c ≡ ((b && false) || c)
and_false true c = refl
and_false false c = refl

module _ {M : Type 0} ⦃meta : BatchMetadata M⦄ where
  -- The id that the next new block takes.
  abbrev pub next_id : Manager M → ℕ
  next_id m = m.base + length m.entries

  pub record IsValid (m : Manager M) : Type 0 where
    pub chain_valid : Invariant.IsValid m.chain
    pub indexed : Indexed m.base m.entries m.index
    pub based : 0 < m.base
    pub tip_known : m.chain.tip < next_id m
    pub tail_known : m.chain.hot_zone.tail_bucket ≤ (next_id m - 1) / 128

  pub append_unseen :
      (m : Manager M) (e : M)
      → Manager.id m (meta.block_hash e) ≡ none
      → Manager.append m e ≡ Manager.append_fresh m e
  unfolding Manager.append
  append_unseen m e h = rw h

  pub append_fresh_chain :
      (m : Manager M) (e : M)
      → Manager.id m (meta.block_hash e) ≡ none
      → (Manager.append m e).0.chain ≡ Oracle.append m.chain (next_id m)
  unfolding Manager.push
  append_fresh_chain m e h = rw (append_unseen m e h) refl

  pub append_indexed :
      (m : Manager M) (e : M) (k : ℕ)
      → Manager.id m (meta.block_hash e) ≡ some k
      → Manager.append m e ≡ Manager.append_known m k
  unfolding Manager.append
  append_indexed m e k h = rw h

  module _ (m : Manager M) (e : M) (v : IsValid m)
      (unseen : Manager.id m (meta.block_hash e) ≡ none) where
    fresh_onward : m.chain.hot_zone.tail_bucket ≤ (next_id m - 1) / 128
    fresh_onward = v.tail_known

    -- On a valid manager, appending a block whose hash is not indexed makes the next id canonical
    -- and changes no other id, for the ids whose bucket is not below the ring's base.
    pub append_fresh_canonical :
        (j : ℕ)
        → m.chain.body.base ≤ (j - 1) / 128
        → is_canonical (Manager.append m e).0.chain j ≡ ((j == next_id m) || is_canonical m.chain j)
    unfolding Manager.push
    append_fresh_canonical j p =
        rw (append_unseen m e unseen)
          (is_canonical-append m.chain (next_id m) v.chain_valid v.tip_known fresh_onward j p)

    -- Appending a block whose hash is not indexed keeps a manager valid: its chain is valid, log
    -- and index agree, and tip and tail lie within the ids of the log.
    pub append_fresh-IsValid : IsValid (Manager.append m e).0
    unfolding Manager.push
    append_fresh-IsValid = rw (append_unseen m e unseen) (record {
      chain_valid = append-IsValid m.chain (next_id m) v.chain_valid v.tip_known fresh_onward;
      indexed = snoc-Indexed m.base m.entries m.index e v.indexed (unfold Manager.id in unseen);
      based = v.based;
      tip_known = omega (
        arith,
        tip-append m.chain (next_id m) v.chain_valid v.tip_known fresh_onward,
        length-snoc {0} m.entries e,
      );
      tail_known = omega (
        arith,
        tail_bucket-append m.chain (next_id m) v.chain_valid v.tip_known fresh_onward,
        length-snoc {0} m.entries e,
      );
    })

  module _ (m : Manager M) (e : M) (k : ℕ) (v : IsValid m)
      (seen : Manager.id m (meta.block_hash e) ≡ some k) where
    -- On a valid manager, appending a block that is indexed under an id whose bucket is not below
    -- the tail's makes that id canonical if it is above the tip, and changes nothing else, for the
    -- ids whose bucket is not below the ring's base.
    pub append_known_canonical :
        (j : ℕ)
        → m.chain.hot_zone.tail_bucket ≤ (k - 1) / 128
        → m.chain.body.base ≤ (j - 1) / 128
        → is_canonical (Manager.append m e).0.chain j
          ≡ (((j == k) && ltb m.chain.tip k) || is_canonical m.chain j)
    append_known_canonical j onward p =
        rw (append_indexed m e k seen) (elim (Bool-cases (ltb m.chain.tip k)) [
          | inl above ↦ rw above (
              is_canonical-append m.chain k v.chain_valid (ltb→lt m.chain.tip k above) onward j p
              ∙ and_true (j == k) (is_canonical m.chain j))
          | inr below ↦ rw below (and_false (j == k) (is_canonical m.chain j))
        ])
