-- ===== src/Smt/Proving/Member.antt =====
-- core/smt/src/proving: the members of a proof (member.rs, proof.rs).
--
-- `none` is an error of the code.
pub mod Answers
pub mod Answered
use vprogs.Base.{
  ℕ, zero, suc, ◌-◌, ◌/◌, ◌^◌, List, [], ◌∷◌, Bool, true, false, Option, none, some, ltb, leb, ◌==◌,
  ◌&&◌, if◌then◌else◌, and_then, take, get_elem?, length,
}
use vprogs.Smt.{empty_hash, depth}
use vprogs.Smt.Proving.Traversal.{Leaf, Proof, Membership, present, absent}

-- A member's key, its witness leaf, and whether it is absent.
pub record Member : Type 0 where
  pub key : ℕ
  pub witness : Leaf
  pub is_absent : Bool

abbrev pub member_value : Member → ℕ
member_value m = if m.is_absent then empty_hash else m.witness.value_hash

-- `shares_prefix` of 32-byte keys.
abbrev pub shares_prefix : ℕ → ℕ → ℕ → Bool
shares_prefix key other bits =
    leb bits depth && (key / 2 ^ (depth - bits)) == (other / 2 ^ (depth - bits))

abbrev pub strictly_sorted : List ℕ → Bool
strictly_sorted [] = true
strictly_sorted (k ∷ []) = true
strictly_sorted (k ∷ l ∷ ks) = ltb k l && strictly_sorted (l ∷ ks)

module _ (proof : Proof) where
  abbrev pub leaf_key : Leaf → Option ℕ
  leaf_key witness = get_elem? proof.keys witness.key_idx

  abbrev pub member_present : ℕ → ℕ → Option Member
  member_present idx leaf_idx = and_then (get_elem? proof.keys idx) λ key.
      and_then (get_elem? proof.leaves leaf_idx) λ witness. and_then (leaf_key witness) λ own_key.
        if own_key == key
        then some (record { key = key; witness = witness; is_absent = false })
        else none

  abbrev pub member_absent : ℕ → ℕ → Option Member
  member_absent idx leaf_idx = and_then (get_elem? proof.keys idx) λ key.
      and_then (get_elem? proof.leaves leaf_idx) λ witness. and_then (leaf_key witness) λ own_key.
        if own_key == key
        then none
        else if shares_prefix key own_key witness.depth
        then some (record { key = key; witness = witness; is_absent = true })
        else none

  abbrev pub member_of : ℕ → Membership → Option Member
  member_of idx (present leaf_idx) = member_present idx leaf_idx
  member_of idx (absent leaf_idx) = member_absent idx leaf_idx

  unfoldable pub member : ℕ → Option Member
  member idx = and_then (get_elem? proof.memberships idx) (member_of idx)

  -- Whether the check passes.
  unfoldable pub check_sorted_queried_keys : Bool
  check_sorted_queried_keys =
      leb (length proof.memberships) (length proof.keys)
      && strictly_sorted (take (length proof.memberships) proof.keys)
