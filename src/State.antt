-- ===== src/State.antt =====
-- The persisted state: state/version, state/ptr-latest, state/ptr-rollback and the keys of
-- state/metadata and state/batch-metadata, over the column families of storage/types.
--
-- The store is the database's: a column family is a map on its decoded keys, and the pointers of
-- one batch are a list in the order of their keys, which `prefix_iter` walks. A resource id is the
-- number that its bytes spell; ids of one length are ordered alike. A write batch is the list of
-- its writes, in order; `commit` applies them. What `Tree::update` does is not modelled: the store
-- keeps what it was handed.
pub mod Pointers
use vprogs.Base.{
  ℕ, ◌≡◌, refl, Bool, true, false, not, List, [], ◌∷◌, ◌++◌, Option, none, some, ltb, ◌==◌,
  if◌then◌else◌,
}
use vprogs.Base.Order.{update}

abbrev pub Bytes : Type 0
Bytes = List ℕ

-- core/types/src/checkpoint.rs; `M` is the batch's metadata.
pub record Checkpoint (M : Type 0) : Type 0 where
  pub index : ℕ
  pub metadata : M

pub record StateVersion : Type 0 where
  pub resource_id : ℕ
  pub version : ℕ
  pub bytes : Bytes

pub record Store (M : Type 0) : Type 0 where
  -- `StateVersion`: by version and resource.
  pub versions : ℕ → ℕ → Option Bytes
  -- `StatePtrLatest`: by resource.
  pub latest : ℕ → Option ℕ
  -- `StatePtrRollback`: by batch, the resources with their old versions.
  pub rollback : ℕ → List (ℕ × ℕ)
  pub batches : ℕ → Option M
  pub root : Option (Checkpoint M)
  pub last_committed : Option (Checkpoint M)
  pub tree : List (ℕ × List (ℕ × Bytes))

pub data Op (M : Type 0) : Type 0 where
  put_version : ℕ → ℕ → Bytes → Op M
  delete_version : ℕ → ℕ → Op M
  put_latest : ℕ → ℕ → Op M
  delete_latest : ℕ → Op M
  put_rollback : ℕ → ℕ → ℕ → Op M
  delete_rollback : ℕ → ℕ → Op M
  set_batch : ℕ → M → Op M
  delete_batch : ℕ → Op M
  set_root set_last_committed : Checkpoint M → Op M
  update_tree : ℕ → List (ℕ × Bytes) → Op M

-- A put in a list that its keys order.
unfoldable pub put_entry : ℕ → ℕ → List (ℕ × ℕ) → List (ℕ × ℕ)
put_entry k v [] = (k, v) ∷ []
put_entry k v ((a, w) ∷ entries) =
    if k == a
    then (k, v) ∷ entries
    else (if ltb k a then (k, v) ∷ (a, w) ∷ entries else (a, w) ∷ put_entry k v entries)

unfoldable pub delete_entry : ℕ → List (ℕ × ℕ) → List (ℕ × ℕ)
delete_entry k [] = []
delete_entry k ((a, w) ∷ entries) =
    let rest = delete_entry k entries in if k == a then rest else (a, w) ∷ rest

-- A map of two keys, changed at one pair.
abbrev pub update_at : (ℕ → ℕ → Option Bytes) → ℕ → ℕ → Option Bytes → ℕ → ℕ → Option Bytes
update_at f v r x = update f v (update (f v) r x)

abbrev pub is_empty : Bytes → Bool
is_empty [] = true
is_empty (b ∷ bytes) = false

abbrev unwrap_or_default : Option Bytes → Bytes
unwrap_or_default none = []
unwrap_or_default (some bytes) = bytes

abbrev pub empty : ℕ → StateVersion
empty id = record { resource_id = id; version = 0; bytes = [] }

abbrev pub rollback_version : StateVersion → ℕ
rollback_version v = if is_empty v.bytes then 0 else v.version

module _ {M : Type 0} where
  unfoldable pub apply : Op M → Store M → Store M
  apply (put_version v r bytes) s = record s { versions = update_at s.versions v r (some bytes) }
  apply (delete_version v r) s = record s { versions = update_at s.versions v r none }
  apply (put_latest r v) s = record s { latest = update s.latest r (some v) }
  apply (delete_latest r) s = record s { latest = update s.latest r none }
  apply (put_rollback i r v) s = record s {
    rollback = update s.rollback i (put_entry r v (s.rollback i));
  }
  apply (delete_rollback i r) s = record s {
    rollback = update s.rollback i (delete_entry r (s.rollback i));
  }
  apply (set_batch i m) s = record s { batches = update s.batches i (some m) }
  apply (delete_batch i) s = record s { batches = update s.batches i none }
  apply (set_root c) s = record s { root = some c }
  apply (set_last_committed c) s = record s { last_committed = some c }
  apply (update_tree i commitments) s = record s { tree = (i, commitments) ∷ s.tree }

  unfoldable pub commit : List (Op M) → Store M → Store M
  commit [] s = s
  commit (op ∷ wb) s = commit wb (apply op s)

  pub commit-append :
      (xs ys : List (Op M)) (s : Store M) → commit (xs ++ ys) s ≡ commit ys (commit xs s)
  unfolding commit
  commit-append [] ys s = refl
  commit-append (x ∷ xs) ys s = commit-append xs ys (apply x s)

  abbrev pub at_version : Store M → ℕ → ℕ → StateVersion
  at_version s version id = record {
    resource_id = id;
    version = version;
    bytes = unwrap_or_default (s.versions version id);
  }

  abbrev pub at_latest : Store M → Option ℕ → ℕ → StateVersion
  at_latest s none id = empty id
  at_latest s (some version) id = at_version s version id

  unfoldable pub from_latest_data : Store M → ℕ → StateVersion
  from_latest_data s id = at_latest s (s.latest id) id

  -- The writes of one version; each is added to the batch by the caller.
  abbrev pub write_data : StateVersion → List (Op M)
  write_data v = if is_empty v.bytes then [] else put_version v.version v.resource_id v.bytes ∷ []

  abbrev pub write_latest_ptr : StateVersion → List (Op M)
  write_latest_ptr v =
      (if is_empty v.bytes then delete_latest v.resource_id else put_latest v.resource_id v.version)
      ∷ []

  abbrev pub write_rollback_ptr : StateVersion → ℕ → List (Op M)
  write_rollback_ptr v batch_index =
      put_rollback batch_index v.resource_id (rollback_version v) ∷ []
