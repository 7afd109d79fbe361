-- ===== src/Chain/Bucket.antt =====
-- storage/canonical-chain/src/bucket.rs: 128 canonical bits in two 64-bit words.
--
-- The word array is a function from the position; only positions 0 and 1 are used. `1 << n` is
-- `2 ^ n`, `w >> n` is `w / 2 ^ n`, `w & 1` is `w % 2` and `!m` is `2 ^ 64 - 1 - m`.
pub mod Laws
use Prim.Native.Nat.{bit_and, bit_or}
use vprogs.Base.{
  ℕ, ◌+◌, ◌-◌, ◌*◌, ◌/◌, ◌%◌, ◌^◌, Bool, true, false, List, [], ◌∷◌, ◌==◌, if◌then◌else◌,
}
use vprogs.Base.Order.{update}

abbrev pub capacity : ℕ
capacity = 128

pub record Bucket : Type 0 where
  pub words : ℕ → ℕ

pub new : Bucket
new = record { words = λ w. 0 }

pub get : Bucket → ℕ → Bool
get b bit = b.words (bit / 64) / 2 ^ (bit % 64) % 2 == 1

pub set : Bucket → ℕ → Bucket
set b bit = record {
  words = update b.words (bit / 64) (bit_or (b.words (bit / 64)) (2 ^ (bit % 64)));
}

abbrev pub Edit : Type 0
Edit = ℕ × Bool

abbrev pub edit_word : ℕ → ℕ → Bool → ℕ
edit_word word mask true = bit_or word mask
edit_word word mask false = bit_and word (2 ^ 64 - 1 - mask)

pub edit_words : List Edit → (ℕ → ℕ) → ℕ → ℕ
edit_words [] words = words
edit_words ((bit, value) ∷ ops) words =
    edit_words ops (update words (bit / 64) (edit_word (words (bit / 64)) (2 ^ (bit % 64)) value))

pub edited : Bucket → List Edit → Bucket
unfolding edit_words
edited b ops = record { words = edit_words ops b.words }

-- The bucket number and the bit in it, of a 1-based id.
abbrev pub locate : ℕ → ℕ × ℕ
locate id = ((id - 1) / capacity, (id - 1) % capacity)
