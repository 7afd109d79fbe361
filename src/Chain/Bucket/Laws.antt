-- ===== src/Chain/Bucket/Laws.antt =====
-- What a bit of storage/canonical-chain/src/bucket.rs reads after `set` and `edited`.
use vprogs.Base.{
  ℕ, ◌-◌, ◌/◌, ◌%◌, ◌^◌, ◌<◌, ◌≡◌, refl, ◌∙◌, ap, inl, inr, Bool, true, false, ◌||◌, List, [], ◌∷◌,
  arith, ◌==◌, ==_iff, Bool-cases, if◌then◌else◌,
}
use vprogs.Base.Order.{update}
use vprogs.Base.Bits.{digit, digit-bit_or, digit-bit_and, digit-pow, digit_complement}
use vprogs.Chain.Bucket.{Bucket, Edit, new, get, set, edit_word, edit_words, edited}

-- The value that the last edit of a bit wrote, or the value from before.
abbrev pub last_write : List Edit → ℕ → Bool → Bool
last_write [] c d = d
last_write ((bit, value) ∷ ops) c d = last_write ops c (if c == bit then value else d)

abbrev word_bit : (ℕ → ℕ) → ℕ → Bool
word_bit words c = digit (words (c / 64)) (c % 64) == 1

digit-edit_word :
    (w b c : ℕ) (value : Bool)
    → b < 64
    → c < 64
    → (digit (edit_word w (2 ^ b) value) c == 1) ≡ (if c == b then value else digit w c == 1)
digit-edit_word w b c true p q = ground (arith, digit-bit_or c w (2 ^ b), digit-pow b c)
digit-edit_word w b c false p q =
    ground (arith, digit-bit_and c w (2 ^ 64 - 1 - 2 ^ b), digit_complement 64 b c p q)

-- One write to a word, read at any bit of the bucket.
word_bit-update :
    (words : ℕ → ℕ) (bit c : ℕ) (value : Bool)
    → word_bit (update words (bit / 64) (edit_word (words (bit / 64)) (2 ^ (bit % 64)) value)) c
      ≡ (if c == bit then value else word_bit words c)
word_bit-update words bit c value = elim (Bool-cases (c / 64 == bit / 64)) [
  | inl same ↦ rw same (
      let e : c / 64 ≡ bit / 64 = (==_iff (c / 64) (bit / 64)).0 same in
      ground (arith, ap words e, digit-edit_word (words (bit / 64)) (bit % 64) (c % 64) value))
  | inr other ↦ rw other (ground arith)
]

get-edit_words :
    (ops : List Edit) (words : ℕ → ℕ) (c : ℕ)
    → word_bit (edit_words ops words) c ≡ last_write ops c (word_bit words c)
unfolding edit_words
get-edit_words [] words c = refl
get-edit_words ((bit, value) ∷ ops) words c =
    get-edit_words ops _ c ∙ ap (last_write ops c) (word_bit-update words bit c value)

-- After a list of edits, each bit of a bucket reads as its last edit, and as before where there is
-- none.
pub get-edited :
    (b : Bucket) (ops : List Edit) (c : ℕ) → get (edited b ops) c ≡ last_write ops c (get b c)
unfolding get edited
get-edited b ops c = get-edit_words ops b.words c

pub get-set : (b : Bucket) (bit c : ℕ) → get (set b bit) c ≡ ((c == bit) || get b c)
unfolding get set
get-set b bit c = word_bit-update b.words bit c true ∙ ground arith

pub get-new : (c : ℕ) → get new c ≡ false
unfolding get new
get-new c = ground arith
