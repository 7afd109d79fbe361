-- ===== src/Codec/Slices.antt =====
-- core/codec/src/reader.rs and writer.rs: slices of elements with a fixed byte layout.
--
-- `word` is one more than the largest `usize` of the machine.
use native.Mathlib.Nat.{pow-suc}
use vprogs.Base.{
  ℕ, zero, suc, ◌+◌, ◌*◌, ◌/◌, ◌%◌, ◌^◌, ◌<◌, ◌≡◌, refl, ap, ◌∙◌, inl, inr, List, [], ◌∷◌, ◌++◌,
  true, Option, none, some, arith, ltb, leb, if◌then◌else◌, and_then, take, drop, length,
  length-append, take-append, drop-append, append_assoc,
}
use vprogs.Codec.Reader.{Decoded, then_read, array, array-append, bytes}

-- The low byte first.
abbrev pub le_bytes : ℕ → ℕ → List ℕ
le_bytes zero n = []
le_bytes (suc k) n = n % 256 ∷ le_bytes k (n / 256)

abbrev pub from_le : List ℕ → ℕ
from_le [] = 0
from_le (b ∷ bs) = b + 256 * from_le bs

unfoldable pub le_u32 : {F : Type 0} → F → List ℕ → Decoded F ℕ
le_u32 field buf = then_read (array 4 field buf) λ chunk rest. inr (from_le chunk, rest)

-- The bytes of a type, and the cast back.
pub record Layout (T : Type 0) : Type 0 where
  pub size : ℕ
  pub to_wire : T → List ℕ
  pub of_wire : List ℕ → Option T

module _ {T : Type 0} (layout : Layout T) where
  abbrev pub elements : List T → List ℕ
  elements [] = []
  elements (x ∷ xs) = layout.to_wire x ++ elements xs

  abbrev pub write_slice : List T → List ℕ
  write_slice xs = le_bytes 4 (length xs % 4294967296) ++ elements xs

  unfoldable pub cast_many : ℕ → List ℕ → Option (List T)
  cast_many zero chunk = some []
  cast_many (suc count) chunk =
      and_then (layout.of_wire (take layout.size chunk))
        λ x. and_then (cast_many count (drop layout.size chunk)) λ xs. some (x ∷ xs)

  abbrev pub cast_slice : {F : Type 0} → F → List ℕ → Option (List T) → Decoded F (List T)
  cast_slice cast rest none = inl cast
  cast_slice cast rest (some xs) = inr (xs, rest)

  unfoldable pub slice_as : {F : Type 0} → ℕ → F → F → List ℕ → Decoded F (List T)
  slice_as word field cast buf = then_read (le_u32 field buf) λ count rest.
      if ltb (count * layout.size) word
      then then_read (bytes (count * layout.size) field rest)
          (λ chunk after. cast_slice cast after (cast_many count chunk))
      else inl field

pub length-le_bytes : (k n : ℕ) → length (le_bytes k n) ≡ k
length-le_bytes zero n = refl
length-le_bytes (suc k) n = ap suc (length-le_bytes k (n / 256))

pub from_le-le_bytes : (k n : ℕ) → n < 256 ^ k → from_le (le_bytes k n) ≡ n
from_le-le_bytes zero n h = omega (arith, h)
from_le-le_bytes (suc k) n h =
    omega (arith, from_le-le_bytes k (n / 256) (omega (arith, h, pow-suc 256 k)))

bytes-append :
    {F : Type 0} (n : ℕ) (field : F) (xs ys : List ℕ)
    → length xs ≡ n
    → bytes n field (xs ++ ys) ≡ inr (xs, ys)
unfolding bytes
bytes-append n field xs ys e = rw (long, take-append n xs ys e, drop-append n xs ys e) refl
  where
    long : leb n (length (xs ++ ys)) ≡ true
    long = ground (arith, length-append xs ys, e)

module _ {T : Type 0} (layout : Layout T) where
  -- The element is written in its size and read back.
  abbrev pub Returns : T → Type 0
  Returns x =
      (length (layout.to_wire x) ≡ layout.size) × (layout.of_wire (layout.to_wire x) ≡ some x)

  abbrev pub AllReturn : List T → Type 0
  AllReturn [] = Unit
  AllReturn (x ∷ xs) = Returns x × AllReturn xs

  length-elements :
      (xs : List T) → AllReturn xs → length (elements layout xs) ≡ length xs * layout.size
  length-elements [] h = omega arith
  length-elements (x ∷ xs) h =
      length-append (layout.to_wire x) (elements layout xs)
      ∙ step (length (layout.to_wire x)) (length (elements layout xs)) (length xs) layout.size h.0.0
          (length-elements xs h.1)
    where
      step : (a b n s : ℕ) → a ≡ s → b ≡ n * s → a + b ≡ suc n * s
      step a b n s e f = grind (arith, e, f)

  cast_many-elements :
      (xs : List T) → AllReturn xs → cast_many layout (length xs) (elements layout xs) ≡ some xs
  unfolding cast_many
  cast_many-elements [] h = refl
  cast_many-elements (x ∷ xs) h =
      rw
        (
          take-append layout.size (layout.to_wire x) (elements layout xs) h.0.0,
          drop-append layout.size (layout.to_wire x) (elements layout xs) h.0.0,
          h.0.1,
          cast_many-elements xs h.1,
        )
        refl

  -- A written slice is read back, with what follows it.
  pub slice_as-write_slice :
      {F : Type 0} (word : ℕ) (field cast : F) (xs : List T) (rest : List ℕ)
      → AllReturn xs
      → length xs < 4294967296
      → length xs * layout.size < word
      → slice_as layout word field cast (write_slice layout xs ++ rest) ≡ inr (xs, rest)
  unfolding slice_as le_u32
  slice_as-write_slice word field cast xs rest h n w =
      rw
        (
          append_assoc (le_bytes 4 (length xs % 4294967296)) (elements layout xs) rest,
          array-append 4 field (le_bytes 4 (length xs % 4294967296)) (elements layout xs ++ rest)
              (length-le_bytes 4 (length xs % 4294967296)),
          count,
          fits,
          bytes-append (length xs * layout.size) field (elements layout xs) rest
              (length-elements xs h),
          cast_many-elements xs h,
        )
        refl
    where
      count : from_le (le_bytes 4 (length xs % 4294967296)) ≡ length xs
      count = from_le-le_bytes 4 (length xs % 4294967296) (omega (arith, n)) ∙ omega (arith, n)

      fits : ltb (length xs * layout.size) word ≡ true
      fits = ground (arith, w)
