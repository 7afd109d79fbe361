-- ===== src/Smt/Encoding.antt =====
-- core/smt/src/node.rs, `encode` and `decode`: a stored node as bytes. A `[u8; 32]` is a number.
use vprogs.Base.{
  ℕ, zero, suc, ◌^◌, ◌<◌, ◌≡◌, ◌≢◌, refl, sym, subst, ap, ◌∙◌, ◌⊎◌, inl, inr, List, [], ◌∷◌, ◌++◌,
  false, arith, ◌==◌, if◌then◌else◌, append_assoc,
}
use vprogs.Codec.Reader.{
  Decoded, then_read, array, byte, array-append, byte-cons, byte-nil, array-cases,
}
use vprogs.Codec.Numbers.{
  AreBytes, to_bytes, from_bytes, length-to_bytes, from_bytes-to_bytes, from_bytes-bound,
  to_bytes-from_bytes, AreBytes-append,
}
use vprogs.Smt.{Node, empty, internal, leaf, empty_kind, internal_kind, leaf_kind}

-- What an error names: the fields, and `unknown node tag`.
pub data Field : Type 0 where
  tag_field hash_field key_field value_hash_field unknown_tag : Field

unfoldable pub encode : Node → List ℕ
encode empty = empty_kind ∷ []
encode (internal hash) = internal_kind ∷ to_bytes 32 hash
encode (leaf key value_hash hash) =
    leaf_kind ∷ (to_bytes 32 key ++ (to_bytes 32 value_hash ++ to_bytes 32 hash))

-- A `[u8; 32]` field.
abbrev number : Field → List ℕ → Decoded Field ℕ
number field buf = then_read (array 32 field buf) λ chunk rest. inr (from_bytes 0 chunk, rest)

abbrev decode_internal : List ℕ → Decoded Field Node
decode_internal buf = then_read (number hash_field buf) λ hash rest. inr (internal hash, rest)

abbrev decode_leaf : List ℕ → Decoded Field Node
decode_leaf buf = then_read (number key_field buf) λ key rest.
    then_read (number value_hash_field rest) λ value_hash rest'.
      then_read (number hash_field rest') λ hash rest''. inr (leaf key value_hash hash, rest'')

abbrev decode_tagged : ℕ → List ℕ → Decoded Field Node
decode_tagged tag rest =
    if tag == empty_kind
    then inr (empty, rest)
    else if tag == internal_kind
    then decode_internal rest
    else if tag == leaf_kind
    then decode_leaf rest
    else inl unknown_tag

unfoldable pub decode : List ℕ → Decoded Field Node
decode buf = then_read (byte tag_field buf) decode_tagged

-- The fields are 32 bytes long.
abbrev pub Fits : Node → Type 0
Fits empty = Unit {0}
Fits (internal hash) = hash < 256 ^ 32
Fits (leaf key value_hash hash) = (key < 256 ^ 32) × (value_hash < 256 ^ 32) × (hash < 256 ^ 32)

number-to_bytes :
    (field : Field) (n : ℕ) (rest : List ℕ)
    → n < 256 ^ 32
    → number field (to_bytes 32 n ++ rest) ≡ inr (n, rest)
number-to_bytes field n rest h =
    rw
      (
        array-append 32 field (to_bytes 32 n) rest (length-to_bytes 32 n),
        from_bytes-to_bytes 32 n h,
      )
      refl

decode_leaf-to_bytes :
    (key value_hash hash : ℕ) (rest : List ℕ)
    → key < 256 ^ 32
    → value_hash < 256 ^ 32
    → hash < 256 ^ 32
    → decode_leaf (to_bytes 32 key ++ (to_bytes 32 value_hash ++ (to_bytes 32 hash ++ rest)))
      ≡ inr (leaf key value_hash hash, rest)
decode_leaf-to_bytes key value_hash hash rest h k l =
    rw
      (
        number-to_bytes key_field key (to_bytes 32 value_hash ++ (to_bytes 32 hash ++ rest)) h,
        number-to_bytes value_hash_field value_hash (to_bytes 32 hash ++ rest) k,
        number-to_bytes hash_field hash rest l,
      )
      refl

-- (comment)
pub decode-encode : (n : Node) (rest : List ℕ) → Fits n → decode (encode n ++ rest) ≡ inr (n, rest)
unfolding decode encode
decode-encode empty rest h = rw (byte-cons tag_field empty_kind rest) refl
decode-encode (internal hash) rest h =
    rw
      (
        byte-cons tag_field internal_kind (to_bytes 32 hash ++ rest),
        number-to_bytes hash_field hash rest h,
      )
      refl
decode-encode (leaf key value_hash hash) rest h =
    ap (λ (t : List ℕ). then_read (byte tag_field (leaf_kind ∷ t)) decode_tagged)
      (append_assoc (to_bytes 32 key) (to_bytes 32 value_hash ++ to_bytes 32 hash) rest
        ∙ ap (λ (t : List ℕ). to_bytes 32 key ++ t)
            (append_assoc (to_bytes 32 value_hash) (to_bytes 32 hash) rest))
    ∙ rw
        (byte-cons tag_field leaf_kind
          (to_bytes 32 key ++ (to_bytes 32 value_hash ++ (to_bytes 32 hash ++ rest))))
        (decode_leaf-to_bytes key value_hash hash rest h.0 h.1 h.2)

-- A read gives what was encoded in front of the rest, or fails.
abbrev Exact : {A : Type 0} → (A → Type 0) → (A → List ℕ) → Decoded Field A → List ℕ → Type 0
Exact {A} P write outcome buf =
    ((a : A) × (rest : List ℕ) × (outcome ≡ inr (a, rest))
      × P a
      × (write a ++ rest ≡ buf)
      × AreBytes rest)
    ⊎ ((field : Field) × (outcome ≡ inl field))

number-Exact :
    (field : Field) (buf : List ℕ)
    → AreBytes buf
    → Exact (λ n. n < 256 ^ 32) (to_bytes 32) (number field buf) buf
number-Exact field buf p = elim (array-cases 32 field buf) [
  | inl (xs, rest, e, l, whole) ↦
      let (front, back) = AreBytes-append xs rest (subst AreBytes (sym whole) p) in
      inl (
        from_bytes 0 xs,
        rest,
        rw e refl,
        from_bytes-bound 32 xs l front,
        ap (λ (t : List ℕ). t ++ rest) (to_bytes-from_bytes 32 xs l front) ∙ whole,
        back,
      )
  | inr (e, short) ↦ inr (field, rw e refl)
]

decode_internal-Exact :
    (buf : List ℕ) → AreBytes buf → Exact Fits encode (decode_internal buf) (internal_kind ∷ buf)
unfolding encode
decode_internal-Exact buf p = elim (number-Exact hash_field buf p) [
  | inl (hash, rest, e, h, whole, q) ↦
      inl (internal hash, rest, rw e refl, h, ap (λ (t : List ℕ). internal_kind ∷ t) whole, q)
  | inr (field, e) ↦ inr (field, rw e refl)
]

decode_leaf-Exact :
    (buf : List ℕ) → AreBytes buf → Exact Fits encode (decode_leaf buf) (leaf_kind ∷ buf)
unfolding encode
decode_leaf-Exact buf p = elim (number-Exact key_field buf p) [
  | inr (field, e) ↦ inr (field, rw e refl)
  | inl (key, rest, e, h, whole, q) ↦ elim (number-Exact value_hash_field rest q) [
    | inr (field, f) ↦ inr (field, rw (e, f) refl)
    | inl (value_hash, rest', f, k, whole', q') ↦ elim (number-Exact hash_field rest' q') [
      | inr (field, g) ↦ inr (field, rw (e, f, g) refl)
      | inl (hash, rest'', g, l, whole'', q'') ↦ inl (
        leaf key value_hash hash,
        rest'',
        rw (e, f, g) refl,
        (h, k, l),
        ap (λ (t : List ℕ). leaf_kind ∷ t)
            (append_assoc (to_bytes 32 key) (to_bytes 32 value_hash ++ to_bytes 32 hash) rest''
              ∙ ap (λ (t : List ℕ). to_bytes 32 key ++ t)
                  (append_assoc (to_bytes 32 value_hash) (to_bytes 32 hash) rest''
                    ∙ ap (λ (t : List ℕ). to_bytes 32 value_hash ++ t) whole''
                    ∙ whole')
              ∙ whole),
        q'',
      )
    ]
  ]
]

decode_tagged-Exact :
    (tag : ℕ) (buf : List ℕ) → AreBytes buf → Exact Fits encode (decode_tagged tag buf) (tag ∷ buf)
decode_tagged-Exact zero buf p = inl (empty, buf, refl, tt, unfold encode in refl, p)
decode_tagged-Exact (suc zero) buf p = decode_leaf-Exact buf p
decode_tagged-Exact (suc (suc zero)) buf p = decode_internal-Exact buf p
decode_tagged-Exact (suc (suc (suc tag))) buf p =
    inr (unknown_tag, rw (not_zero, not_one, not_two) refl)
  where
    not_zero : (suc (suc (suc tag)) == 0) ≡ false
    not_zero = ground arith

    not_one : (suc (suc (suc tag)) == 1) ≡ false
    not_one = ground arith

    not_two : (suc (suc (suc tag)) == 2) ≡ false
    not_two = ground arith

decode-Exact : (buf : List ℕ) → AreBytes buf → Exact Fits encode (decode buf) buf
unfolding decode
decode-Exact [] p = inr (tag_field, rw (byte-nil tag_field) refl)
decode-Exact (tag ∷ buf) p = rw (byte-cons tag_field tag buf) (decode_tagged-Exact tag buf p.1)

not_both :
    (outcome : Decoded Field Node) (field : Field) (read : Node × List ℕ)
    → outcome ≡ inl field
    → outcome ≡ inr read
    → ⊥
not_both (inl f) field read e h = cc
not_both (inr r) field read e h = cc

-- The decoding of a stored node from a byte slice is exact: it either gives a node with 32-byte
-- fields and a rest, and the slice is the encoding of that node and then the rest; or it gives an
-- error, and the slice does not start with the encoding of any node with 32-byte fields.
pub decode_exactly :
    (buf : List ℕ)
    → AreBytes buf
    → ((n : Node) × (rest : List ℕ) × (decode buf ≡ inr (n, rest))
        × Fits n
        × (encode n ++ rest ≡ buf))
      ⊎ ((field : Field) × (decode buf ≡ inl field)
          × ((n : Node) (rest : List ℕ) → Fits n → encode n ++ rest ≢ buf))
decode_exactly buf p = elim (decode-Exact buf p) [
  | inl (n, rest, e, h, whole, q) ↦ inl (n, rest, e, h, whole)
  | inr (field, e) ↦ inr (field, e, λ n rest h whole. fails field n rest e h whole)
]
  where
    fails :
        (field : Field) (n : Node) (rest : List ℕ)
        → decode buf ≡ inl field
        → Fits n
        → encode n ++ rest ≡ buf
        → ⊥
    fails field n rest e h whole =
        not_both (decode buf) field (n, rest) e (ap decode (sym whole) ∙ decode-encode n rest h)
