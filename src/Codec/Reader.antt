-- ===== src/Codec/Reader.antt =====
-- core/codec/src/reader.rs: fields read from the front of a byte slice.
--
-- A read gives what it read and the rest, or the field of its `Error::Decode`.
use vprogs.Base.{
  ℕ, zero, suc, ◌≤◌, ◌<◌, ◌≡◌, refl, ap, ◌⊎◌, inl, inr, List, [], ◌∷◌, ◌++◌, true, arith, leb,
  if◌then◌else◌, length, take, drop, take-append, drop-append, length-append, Bool-cases, leb→le,
}

abbrev pub Decoded : Type 0 → Type 0 → Type 0
Decoded F A = F ⊎ (A × List ℕ)

abbrev pub then_read : {F A B : Type 0} → Decoded F A → (A → List ℕ → Decoded F B) → Decoded F B
then_read (inl field) f = inl field
then_read (inr (a, rest)) f = f a rest

-- `split_at_checked`
unfoldable pub bytes : {F : Type 0} → ℕ → F → List ℕ → Decoded F (List ℕ)
bytes len field buf = if leb len (length buf) then inr (take len buf, drop len buf) else inl field

-- `split_first_chunk`
unfoldable pub array : {F : Type 0} → ℕ → F → List ℕ → Decoded F (List ℕ)
array n field buf = if leb n (length buf) then inr (take n buf, drop n buf) else inl field

abbrev pub first_byte : List ℕ → ℕ
first_byte [] = 0
first_byte (b ∷ bs) = b

unfoldable pub byte : {F : Type 0} → F → List ℕ → Decoded F ℕ
byte field buf = then_read (array 1 field buf) λ chunk rest. inr (first_byte chunk, rest)

pub array-append :
    {F : Type 0} (n : ℕ) (field : F) (xs ys : List ℕ)
    → length xs ≡ n
    → array n field (xs ++ ys) ≡ inr (xs, ys)
unfolding array
array-append n field xs ys e = rw (long, take-append n xs ys e, drop-append n xs ys e) refl
  where
    long : leb n (length (xs ++ ys)) ≡ true
    long = ground (arith, length-append xs ys, e)

split :
    (n : ℕ) (xs : List ℕ) → n ≤ length xs → (length (take n xs) ≡ n) × (take n xs ++ drop n xs ≡ xs)
split zero xs h = (refl, refl)
split (suc n) [] h = absurd (omega arith)
split (suc n) (x ∷ xs) h =
    (ap suc (split n xs (omega arith)).0, ap (λ (t : List ℕ). x ∷ t) (split n xs (omega arith)).1)

-- A read array is the front of the slice; only a short slice fails.
pub array-cases :
    {F : Type 0} (n : ℕ) (field : F) (buf : List ℕ)
    → ((xs rest : List ℕ) × (array n field buf ≡ inr (xs, rest))
        × (length xs ≡ n)
        × (xs ++ rest ≡ buf))
      ⊎ ((array n field buf ≡ inl field) × (length buf < n))
unfolding array
array-cases n field buf = elim (Bool-cases (leb n (length buf))) [
  | inl long ↦ inl (
    take n buf,
    drop n buf,
    rw long refl,
    (split n buf (leb→le n (length buf) long)).0,
    (split n buf (leb→le n (length buf) long)).1,
  )
  | inr short ↦ inr (rw short refl, ground (arith, short))
]

pub byte-cons : {F : Type 0} (field : F) (b : ℕ) (bs : List ℕ) → byte field (b ∷ bs) ≡ inr (b, bs)
unfolding byte array
byte-cons field b bs = rw one refl
  where
    one : leb 1 (suc (length bs)) ≡ true
    one = ground arith

pub byte-nil : {F : Type 0} (field : F) → byte field [] ≡ inl field
unfolding byte array
byte-nil field = refl
