-- ===== src/Codec/Bits.antt =====
-- core/codec/src/bits.rs: the bits of a byte slice, the least significant first.
--
-- `b >> k` is `b / 2 ^ k`, `b & 1` is `b % 2`, and `1 << k` is `2 ^ k`, with `k` below 8.
use Prim.Native.Nat.{bit_or}
use native.Mathlib.Nat.{zero-div}
use vprogs.Base.{
  ℕ, zero, suc, ◌/◌, ◌%◌, ◌^◌, ◌<◌, ◌≡◌, ◌≢◌, refl, sym, ap, ap₂, ◌∙◌, inl, inr, List, [], ◌∷◌,
  ◌++◌, Bool, true, false, Option, none, some, arith, ◌==◌, if◌then◌else◌, length, get_elem?,
  Bool-cases, ==_ne,
}
use vprogs.Base.Bits.{digit, digit-bit_or, digit-pow}

-- `none` is past the end.
abbrev pub bit_lsb : Option ℕ → ℕ → Bool
bit_lsb none index = false
bit_lsb (some byte) index = digit byte (index % 8) == 1

unfoldable pub get_lsb : List ℕ → ℕ → Bool
get_lsb bytes index = bit_lsb (get_elem? bytes (index / 8)) index

abbrev or_byte : List ℕ → ℕ → ℕ → List ℕ
or_byte [] position mask = []
or_byte (byte ∷ bytes) zero mask = bit_or byte mask ∷ bytes
or_byte (byte ∷ bytes) (suc position) mask = byte ∷ or_byte bytes position mask

unfoldable pub set_lsb : List ℕ → ℕ → List ℕ
set_lsb bytes index = or_byte bytes (index / 8) (2 ^ (index % 8))

length-or_byte :
    (bytes : List ℕ) (position mask : ℕ) → length (or_byte bytes position mask) ≡ length bytes
length-or_byte [] position mask = refl
length-or_byte (byte ∷ bytes) zero mask = refl
length-or_byte (byte ∷ bytes) (suc position) mask = ap suc (length-or_byte bytes position mask)

pub length-set_lsb : (bytes : List ℕ) (index : ℕ) → length (set_lsb bytes index) ≡ length bytes
unfolding set_lsb
length-set_lsb bytes index = length-or_byte bytes (index / 8) (2 ^ (index % 8))

digit_zero : (c : ℕ) → digit 0 c ≡ 0
digit_zero c = rw (zero-div (2 ^ c)) refl

or_byte_here :
    (bytes : List ℕ) (position mask c : ℕ)
    → position < length bytes
    → bit_lsb (get_elem? (or_byte bytes position (2 ^ mask)) position) c
      ≡ (if (c % 8) == mask then true else bit_lsb (get_elem? bytes position) c)
or_byte_here [] position mask c h = absurd (omega arith)
or_byte_here (byte ∷ bytes) zero mask c h =
    ground (arith, digit-bit_or (c % 8) byte (2 ^ mask), digit-pow mask (c % 8))
or_byte_here (byte ∷ bytes) (suc position) mask c h =
    or_byte_here bytes position mask c (omega arith)

or_byte_elsewhere :
    (bytes : List ℕ) (position mask other : ℕ)
    → other ≢ position
    → get_elem? (or_byte bytes position mask) other ≡ get_elem? bytes other
or_byte_elsewhere [] position mask other h = refl
or_byte_elsewhere (byte ∷ bytes) zero mask zero h = absurd (h refl)
or_byte_elsewhere (byte ∷ bytes) zero mask (suc other) h = refl
or_byte_elsewhere (byte ∷ bytes) (suc position) mask zero h = refl
or_byte_elsewhere (byte ∷ bytes) (suc position) mask (suc other) h =
    or_byte_elsewhere bytes position mask other (λ e. h (ap suc e))

same_bit :
    (index other : ℕ) → other / 8 ≡ index / 8 → ((other % 8) == (index % 8)) ≡ (other == index)
same_bit index other q = ground arith

pub get_lsb-set_lsb :
    (bytes : List ℕ) (index other : ℕ)
    → index / 8 < length bytes
    → get_lsb (set_lsb bytes index) other ≡ (if other == index then true else get_lsb bytes other)
unfolding get_lsb set_lsb
get_lsb-set_lsb bytes index other h = elim (Bool-cases ((other / 8) == (index / 8))) [
  | inl same ↦
      let q : other / 8 ≡ index / 8 = ground (arith, same) in
      ap (λ (t : ℕ). bit_lsb (get_elem? (or_byte bytes (index / 8) (2 ^ (index % 8))) t) other) q
      ∙ or_byte_here bytes (index / 8) (index % 8) other h
      ∙ ap₂ (λ (t u : Bool). if t then true else u) (same_bit index other q)
          (ap (λ (t : ℕ). bit_lsb (get_elem? bytes t) other) (sym q))
  | inr apart ↦
      rw
        (
          or_byte_elsewhere bytes (index / 8) (2 ^ (index % 8)) (other / 8) (ground (arith, apart)),
          ==_ne other index (λ e. ground (arith, apart, e)),
        )
        refl
]

-- Growing by a byte without bits changes no bit.
pub get_lsb-append_zero :
    (bytes : List ℕ) (index : ℕ) → get_lsb (bytes ++ 0 ∷ []) index ≡ get_lsb bytes index
unfolding get_lsb
get_lsb-append_zero bytes index = go bytes (index / 8)
  where
    go :
        (bs : List ℕ) (position : ℕ)
        → bit_lsb (get_elem? (bs ++ 0 ∷ []) position) index ≡ bit_lsb (get_elem? bs position) index
    go [] zero = ground (arith, digit_zero (index % 8))
    go [] (suc position) = refl
    go (b ∷ bs) zero = refl
    go (b ∷ bs) (suc position) = go bs position
