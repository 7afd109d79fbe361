-- ===== src/Smt/Proving/Topology.antt =====
-- core/smt/src/proving/topology.rs: the packed bits of a proof's shape.
use vprogs.Base.{
  ℕ, zero, suc, ◌+◌, ◌*◌, ◌%◌, ◌<◌, ◌≤◌, ◌≡◌, refl, sym, ap, ap₂, subst, ◌∙◌, inl, inr, List, [],
  ◌∷◌, ◌++◌, Bool, true, false, Option, none, some, arith, ◌==◌, if◌then◌else◌, length, get_elem?,
  length-append, append_assoc, append_nil, Bool-cases,
}
use vprogs.Codec.Bits.{get_lsb, set_lsb, length-set_lsb, get_lsb-set_lsb, get_lsb-append_zero}

pub record Topology : Type 0 where
  pub bytes : List ℕ
  pub len : ℕ

-- `Topology::default()`
abbrev pub no_topology : Topology
no_topology = record { bytes = []; len = 0 }

abbrev grown : List ℕ → ℕ → List ℕ
grown bytes len = if (len % 8) == 0 then bytes ++ 0 ∷ [] else bytes

unfoldable pub push : Topology → Bool → Topology
push t bit = record {
  bytes = if bit then set_lsb (grown t.bytes t.len) t.len else grown t.bytes t.len;
  len = t.len + 1;
}

-- One bit after the other.
unfoldable pub push_all : Topology → List Bool → Topology
push_all t [] = t
push_all t (bit ∷ bits) = push_all (push t bit) bits

abbrev pub bit_or_false : Option Bool → Bool
bit_or_false none = false
bit_or_false (some bit) = bit

-- The topology has the bits.
record Packs (t : Topology) (bits : List Bool) : Type 0 where
  counted : t.len ≡ length bits
  enough : length bits ≤ 8 * length t.bytes
  tight : 8 * length t.bytes < length bits + 8
  reads : (index : ℕ) → get_lsb t.bytes index ≡ bit_or_false (get_elem? bits index)

suc_test : (a b : ℕ) → (a == b) ≡ (suc a == suc b)
suc_test a b = ground arith

get_elem?-snoc :
    (bits : List Bool) (bit : Bool) (index : ℕ)
    → bit_or_false (get_elem? (bits ++ bit ∷ []) index)
      ≡ (if index == length bits then bit else bit_or_false (get_elem? bits index))
get_elem?-snoc [] bit zero = refl
get_elem?-snoc [] bit (suc index) = ground arith
get_elem?-snoc (b ∷ bits) bit zero = ground arith
get_elem?-snoc (b ∷ bits) bit (suc index) =
    get_elem?-snoc bits bit index
    ∙ ap (λ (t : Bool). if t then bit else bit_or_false (get_elem? bits index))
        (suc_test index (length bits))

-- Past the end there is no bit.
get_elem?-length : (bits : List Bool) → bit_or_false (get_elem? bits (length bits)) ≡ false
get_elem?-length [] = refl
get_elem?-length (b ∷ bits) = get_elem?-length bits

get_elem?-false :
    (bits : List Bool) (index : ℕ)
    → bit_or_false (get_elem? bits index)
      ≡ (if index == length bits then false else bit_or_false (get_elem? bits index))
get_elem?-false bits index = elim (Bool-cases (index == length bits)) [
  | inl past ↦ rw past (
      ap (λ (t : ℕ). bit_or_false (get_elem? bits t)) (ground (arith, past))
      ∙ get_elem?-length bits)
  | inr within ↦ rw within refl
]

module _ (bytes : List ℕ) (len : ℕ) (enough : len ≤ 8 * length bytes)
    (tight : 8 * length bytes < len + 8) where
  grown_room : (len + 1 ≤ 8 * length (grown bytes len)) × (8 * length (grown bytes len) < len + 9)
  grown_room = elim (Bool-cases ((len % 8) == 0)) [
    | inl full ↦ rw (full, length-append bytes (0 ∷ [])) (ground (arith, full))
    | inr room ↦ rw room (ground (arith, room))
  ]

  grown_reads : (index : ℕ) → get_lsb (grown bytes len) index ≡ get_lsb bytes index
  grown_reads index = elim (Bool-cases ((len % 8) == 0)) [
    | inl full ↦ rw full (get_lsb-append_zero bytes index)
    | inr room ↦ rw room refl
  ]

push-Packs :
    (t : Topology) (bits : List Bool) (bit : Bool)
    → Packs t bits
    → Packs (push t bit) (bits ++ bit ∷ [])
unfolding push
push-Packs t bits bit p = go bit
  where
    at : t.len ≤ 8 * length t.bytes
    at = omega (arith, p.counted, p.enough)

    below : 8 * length t.bytes < t.len + 8
    below = omega (arith, p.counted, p.tight)

    one_more : (b : Bool) → length (bits ++ b ∷ []) ≡ length bits + 1
    one_more b = length-append bits (b ∷ [])

    go : (b : Bool) → Packs (push t b) (bits ++ b ∷ [])
    go true = record {
      counted = omega (arith, p.counted, one_more true);
      enough = omega (
        arith,
        p.counted,
        one_more true,
        (grown_room t.bytes t.len at below).0,
        length-set_lsb (grown t.bytes t.len) t.len,
      );
      tight = omega (
        arith,
        p.counted,
        one_more true,
        (grown_room t.bytes t.len at below).1,
        length-set_lsb (grown t.bytes t.len) t.len,
      );
      reads = λ index.
          get_lsb-set_lsb (grown t.bytes t.len) t.len index
            (omega (arith, (grown_room t.bytes t.len at below).0))
          ∙ ap₂ (λ (n : ℕ) (u : Bool). if index == n then true else u) p.counted
              (grown_reads t.bytes t.len at below index ∙ p.reads index)
          ∙ sym (get_elem?-snoc bits true index);
    }
    go false = record {
      counted = omega (arith, p.counted, one_more false);
      enough = omega (arith, p.counted, one_more false, (grown_room t.bytes t.len at below).0);
      tight = omega (arith, p.counted, one_more false, (grown_room t.bytes t.len at below).1);
      reads = λ index.
          grown_reads t.bytes t.len at below index
          ∙ p.reads index
          ∙ get_elem?-false bits index
          ∙ sym (get_elem?-snoc bits false index);
    }

push_all-Packs :
    (t : Topology) (bits more : List Bool) → Packs t bits → Packs (push_all t more) (bits ++ more)
unfolding push_all
push_all-Packs t bits [] p = subst (Packs t) (sym (append_nil bits)) p
push_all-Packs t bits (bit ∷ more) p =
    subst (Packs (push_all (push t bit) more)) (append_assoc bits (bit ∷ []) more)
      (push_all-Packs (push t bit) (bits ++ bit ∷ []) more (push-Packs t bits bit p))

-- After bits are pushed to an empty topology one by one, its length is their number, it has fewer
-- than 8 bits of room more than that, and the bit read at an index, the least significant first,
-- is the bit pushed at that place, and 0 past the end.
pub push_all-get_lsb :
    (bits : List Bool) (index : ℕ)
    → ((push_all no_topology bits).len ≡ length bits)
      × (8 * length (push_all no_topology bits).bytes < length bits + 8)
      × (get_lsb (push_all no_topology bits).bytes index ≡ bit_or_false (get_elem? bits index))
push_all-get_lsb bits index = (packed.counted, packed.tight, packed.reads index)
  where
    packed : Packs (push_all no_topology bits) bits
    packed = push_all-Packs no_topology [] bits (record {
      counted = refl;
      enough = omega arith;
      tight = omega arith;
      reads = λ i. unfold get_lsb in refl;
    })
