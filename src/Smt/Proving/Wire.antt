-- ===== src/Smt/Proving/Wire.antt =====
-- core/smt/src/proving/proof.rs, `encode` and `decode`: the wire format of a proof.
use vprogs.Base.{
  ℕ, suc, ◌*◌, ◌^◌, ◌<◌, ◌≡◌, refl, ap, ap₂, ◌∙◌, inr, List, [], ◌∷◌, ◌++◌, Option, none, some,
  arith, ◌==◌, if◌then◌else◌, take, drop, length, length-append, append_assoc,
}
use vprogs.Codec.Numbers.{to_bytes, from_bytes, length-to_bytes, from_bytes-to_bytes}
use vprogs.Codec.Reader.{Decoded, then_read}
use vprogs.Codec.Slices.{
  le_bytes, from_le, Layout, write_slice, slice_as, length-le_bytes, from_le-le_bytes, Returns,
  AllReturn, slice_as-write_slice,
}
use vprogs.Smt.{HashedNode}
use vprogs.Smt.Proving.Traversal.{Leaf, Proof, Membership, present, absent}

-- The fields that an error names; `zero_copy` is a failed cast.
pub data WireField : Type 0 where
  keys_field : WireField
  leaves_field : WireField
  siblings_field : WireField
  topology_field : WireField
  memberships_field : WireField
  zero_copy : WireField

abbrev pub key_layout : Layout ℕ
key_layout = record { size = 32; to_wire = to_bytes 32; of_wire = λ bs. some (from_bytes 0 bs) }

abbrev pub leaf_layout : Layout Leaf
leaf_layout = record {
  size = 38;
  to_wire = λ l. le_bytes 2 l.depth ++ (le_bytes 4 l.key_idx ++ to_bytes 32 l.value_hash);
  of_wire = λ bs. some (record {
    depth = from_le (take 2 bs);
    key_idx = from_le (take 4 (drop 2 bs));
    value_hash = from_bytes 0 (drop 4 (drop 2 bs));
  });
}

abbrev pub node_of_wire : List ℕ → Option HashedNode
node_of_wire [] = none
node_of_wire (kind ∷ bs) = some (record { kind = kind; hash = from_bytes 0 bs })

abbrev pub node_layout : Layout HashedNode
node_layout = record {
  size = 33;
  to_wire = λ h. h.kind ∷ to_bytes 32 h.hash;
  of_wire = node_of_wire;
}

abbrev pub byte_of_wire : List ℕ → Option ℕ
byte_of_wire [] = none
byte_of_wire (b ∷ bs) = some b

abbrev pub byte_layout : Layout ℕ
byte_layout = record { size = 1; to_wire = λ b. b ∷ []; of_wire = byte_of_wire }

abbrev pub membership_to_wire : Membership → List ℕ
membership_to_wire (present leaf_idx) = 0 ∷ le_bytes 4 leaf_idx
membership_to_wire (absent leaf_idx) = 1 ∷ le_bytes 4 leaf_idx

abbrev pub membership_of_wire : List ℕ → Option Membership
membership_of_wire [] = none
membership_of_wire (tag ∷ bs) =
    if tag == 0
    then some (present (from_le bs))
    else if tag == 1
    then some (absent (from_le bs))
    else none

abbrev pub membership_layout : Layout Membership
membership_layout = record { size = 5; to_wire = membership_to_wire; of_wire = membership_of_wire }

-- `Proof::encode`
abbrev pub encode_proof : Proof → List ℕ
encode_proof p =
    write_slice key_layout p.keys
    ++ (write_slice leaf_layout p.leaves
        ++ (write_slice node_layout p.siblings
            ++ (write_slice byte_layout p.topology ++ write_slice membership_layout p.memberships)))

-- `Proof::decode`
unfoldable pub decode_proof : ℕ → List ℕ → Decoded WireField Proof
decode_proof word buf =
    then_read (slice_as key_layout word keys_field zero_copy buf) λ keys after_keys.
      then_read (slice_as leaf_layout word leaves_field zero_copy after_keys) λ leaves after_leaves.
        then_read (slice_as node_layout word siblings_field zero_copy after_leaves)
          λ siblings after_siblings.
            then_read (slice_as byte_layout word topology_field zero_copy after_siblings)
              λ topology after_topology.
                then_read
                  (slice_as membership_layout word memberships_field zero_copy after_topology)
                  λ memberships rest. inr (
                    record {
                      keys = keys;
                      leaves = leaves;
                      siblings = siblings;
                      topology = topology;
                      memberships = memberships;
                    },
                    rest,
                  )

abbrev pub FitsKeys : List ℕ → Type 0
FitsKeys [] = Unit
FitsKeys (k ∷ ks) = (k < 2 ^ 256) × FitsKeys ks

abbrev pub FitsLeaves : List Leaf → Type 0
FitsLeaves [] = Unit
FitsLeaves (l ∷ ls) =
    ((l.depth < 2 ^ 16) × (l.key_idx < 2 ^ 32) × (l.value_hash < 2 ^ 256)) × FitsLeaves ls

abbrev pub FitsSiblings : List HashedNode → Type 0
FitsSiblings [] = Unit
FitsSiblings (h ∷ hs) = (h.hash < 2 ^ 256) × FitsSiblings hs

abbrev pub index_of : Membership → ℕ
index_of (present leaf_idx) = leaf_idx
index_of (absent leaf_idx) = leaf_idx

abbrev pub FitsMemberships : List Membership → Type 0
FitsMemberships [] = Unit
FitsMemberships (m ∷ ms) = (index_of m < 2 ^ 32) × FitsMemberships ms

-- The numbers have their widths, and the sections fit the machine and their counts.
pub record FitsWire (word : ℕ) (p : Proof) : Type 0 where
  pub keys : FitsKeys p.keys
  pub leaves : FitsLeaves p.leaves
  pub siblings : FitsSiblings p.siblings
  pub memberships : FitsMemberships p.memberships
  pub counts :
      (length p.keys < 2 ^ 32)
      × (length p.leaves < 2 ^ 32)
      × (length p.siblings < 2 ^ 32)
      × (length p.topology < 2 ^ 32)
      × (length p.memberships < 2 ^ 32)
  pub sizes :
      (length p.keys * 32 < word)
      × (length p.leaves * 38 < word)
      × (length p.siblings * 33 < word)
      × (length p.topology * 1 < word)
      × (length p.memberships * 5 < word)

keys_return : (ks : List ℕ) → FitsKeys ks → AllReturn key_layout ks
keys_return [] h = tt
keys_return (k ∷ ks) h = (
  (length-to_bytes 32 k, ap some (from_bytes-to_bytes 32 k (omega (arith, h.0)))),
  keys_return ks h.1,
)

abbrev wire_leaf : ℕ → ℕ → ℕ → Leaf
wire_leaf depth key_idx value_hash = record {
  depth = depth;
  key_idx = key_idx;
  value_hash = value_hash;
}

same_leaf :
    (d d' i i' v v' : ℕ)
    → d ≡ d'
    → i ≡ i'
    → v ≡ v'
    → some (wire_leaf d i v) ≡ some (wire_leaf d' i' v')
same_leaf d d' i i' v v' e f g =
    ap₂ (λ (x y : ℕ). some (wire_leaf x y v)) e f ∙ ap (λ (x : ℕ). some (wire_leaf d' i' x)) g

leaf-Returns :
    (l : Leaf)
    → l.depth < 2 ^ 16
    → l.key_idx < 2 ^ 32
    → l.value_hash < 2 ^ 256
    → Returns leaf_layout l
leaf-Returns l d i v =
    let low = le_bytes 2 l.depth in
    let mid = le_bytes 4 l.key_idx in
    let high = to_bytes 32 l.value_hash in
    let two = length-le_bytes 2 l.depth in
    let four = length-le_bytes 4 l.key_idx in
    (
      omega (
        arith,
        length-append low (mid ++ high),
        length-append mid high,
        two,
        four,
        length-to_bytes 32 l.value_hash,
      ),
      same_leaf _ l.depth _ l.key_idx _ l.value_hash (from_le-le_bytes 2 l.depth (omega (arith, d)))
          (from_le-le_bytes 4 l.key_idx (omega (arith, i)))
          (from_bytes-to_bytes 32 l.value_hash (omega (arith, v))),
    )

leaves_return : (ls : List Leaf) → FitsLeaves ls → AllReturn leaf_layout ls
leaves_return [] h = tt
leaves_return (l ∷ ls) h = (leaf-Returns l h.0.0 h.0.1 h.0.2, leaves_return ls h.1)

siblings_return : (hs : List HashedNode) → FitsSiblings hs → AllReturn node_layout hs
siblings_return [] h = tt
siblings_return (s ∷ hs) h = (
  (
    ap suc (length-to_bytes 32 s.hash),
    ap (λ (n : ℕ). some (record { kind = s.kind; hash = n }))
        (from_bytes-to_bytes 32 s.hash (omega (arith, h.0))),
  ),
  siblings_return hs h.1,
)

bytes_return : (bs : List ℕ) → AllReturn byte_layout bs
bytes_return [] = tt
bytes_return (b ∷ bs) = ((refl, refl), bytes_return bs)

membership-Returns : (m : Membership) → index_of m < 2 ^ 32 → Returns membership_layout m
membership-Returns (present i) h = (
  ap suc (length-le_bytes 4 i),
  ap (λ (n : ℕ). some (present n)) (from_le-le_bytes 4 i (omega (arith, h))),
)
membership-Returns (absent i) h = (
  ap suc (length-le_bytes 4 i),
  ap (λ (n : ℕ). some (absent n)) (from_le-le_bytes 4 i (omega (arith, h))),
)

memberships_return : (ms : List Membership) → FitsMemberships ms → AllReturn membership_layout ms
memberships_return [] h = tt
memberships_return (m ∷ ms) h = (membership-Returns m h.0, memberships_return ms h.1)

-- A proof that is encoded, with any bytes after it, is decoded to the same proof, and those bytes
-- are left. Its keys and hashes have 256 bits, a depth 16 and an index 32; each of its five
-- sections counts fewer than 2 to the 32 elements and has fewer bytes than the bound of the
-- machine word.
pub decode_proof-encode_proof :
    (word : ℕ) (p : Proof) (rest : List ℕ)
    → FitsWire word p
    → decode_proof word (encode_proof p ++ rest) ≡ inr (p, rest)
unfolding decode_proof
decode_proof-encode_proof word p rest f =
    rw
      (
        append_assoc keys (leaves ++ (siblings ++ (topology ++ memberships))) rest,
        append_assoc leaves (siblings ++ (topology ++ memberships)) rest,
        append_assoc siblings (topology ++ memberships) rest,
        append_assoc topology memberships rest,
        slice_as-write_slice key_layout word keys_field zero_copy p.keys
            (leaves ++ (siblings ++ (topology ++ (memberships ++ rest))))
            (keys_return p.keys f.keys) (omega (arith, f.counts.0)) f.sizes.0,
        slice_as-write_slice leaf_layout word leaves_field zero_copy p.leaves
            (siblings ++ (topology ++ (memberships ++ rest))) (leaves_return p.leaves f.leaves)
            (omega (arith, f.counts.1)) f.sizes.1,
        slice_as-write_slice node_layout word siblings_field zero_copy p.siblings
            (topology ++ (memberships ++ rest)) (siblings_return p.siblings f.siblings)
            (omega (arith, f.counts.2)) f.sizes.2,
        slice_as-write_slice byte_layout word topology_field zero_copy p.topology
            (memberships ++ rest) (bytes_return p.topology) (omega (arith, f.counts.3)) f.sizes.3,
        slice_as-write_slice membership_layout word memberships_field zero_copy p.memberships rest
            (memberships_return p.memberships f.memberships) (omega (arith, f.counts.4)) f.sizes.4,
      )
      refl
  where
    keys : List ℕ
    keys = write_slice key_layout p.keys

    leaves : List ℕ
    leaves = write_slice leaf_layout p.leaves

    siblings : List ℕ
    siblings = write_slice node_layout p.siblings

    topology : List ℕ
    topology = write_slice byte_layout p.topology

    memberships : List ℕ
    memberships = write_slice membership_layout p.memberships
