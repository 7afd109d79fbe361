-- ===== src/Chain/Oracle/Edits.antt =====
-- The grouped edits of `rollback` in storage/canonical-chain/src/chain.rs: what they write, and
-- what the snapshot's bits read when they are applied.
use vprogs.Base.{
  ℕ, zero, suc, ◌+◌, ◌-◌, ◌*◌, ◌/◌, ◌%◌, ◌<◌, ◌≡◌, refl, ◌∙◌, Bool, false, ◌&&◌, List, [], ◌∷◌,
  arith, leb, ltb, ◌==◌, if◌then◌else◌,
}
use vprogs.Chain.Bucket.{Edit}
use vprogs.Chain.Bucket.Laws.{last_write}
use vprogs.Chain.Oracle.{Edits, snoc, push_edit, clear_edits}

-- What the edits leave of a bit that was `d`.
abbrev pub written : Edits → ℕ → ℕ → Bool → Bool
written [] b c d = d
written ((bucket, ops) ∷ edits) b c d =
    written edits b c (if b == bucket then last_write ops c d else d)

-- Every edit clears its bit.
abbrev ClearOps : List Edit → Type 0
ClearOps [] = Unit
ClearOps ((bit, value) ∷ ops) = (value ≡ false) × ClearOps ops

abbrev pub Clears : Edits → Type 0
Clears [] = Unit
Clears ((bucket, ops) ∷ edits) = ClearOps ops × Clears edits

last_write-false : (ops : List Edit) (c : ℕ) → ClearOps ops → last_write ops c false ≡ false
last_write-false [] c h = refl
last_write-false ((bit, value) ∷ ops) c h = ground (arith, last_write-false ops c)

written-false : (edits : Edits) (b c : ℕ) → Clears edits → written edits b c false ≡ false
written-false [] b c h = refl
written-false ((bucket, ops) ∷ edits) b c h =
    ground (arith, last_write-false ops c, written-false edits b c)

last_write-snoc :
    (ops : List Edit) (bit c : ℕ) (d : Bool)
    → last_write (snoc ops (bit, false)) c d ≡ (if c == bit then false else last_write ops c d)
last_write-snoc [] bit c d = refl
last_write-snoc ((b, value) ∷ ops) bit c d = last_write-snoc ops bit c (if c == b then value else d)

snoc-ClearOps : (ops : List Edit) (bit : ℕ) → ClearOps ops → ClearOps (snoc ops (bit, false))
snoc-ClearOps [] bit h = (refl, tt)
snoc-ClearOps ((b, value) ∷ ops) bit h = (h.0, snoc-ClearOps ops bit h.1)

push_edit-Clears :
    (bucket bit : ℕ) (edits : Edits) → Clears edits → Clears (push_edit bucket (bit, false) edits)
unfolding push_edit
push_edit-Clears bucket bit [] h = ((refl, tt), tt)
push_edit-Clears bucket bit ((b, ops) ∷ edits) h =
    ground (arith, snoc-ClearOps ops bit h.0, push_edit-Clears bucket bit edits)

-- One more edit clears its bit, and leaves what the others write.
written-push_edit :
    (bucket bit : ℕ) (edits : Edits) (b c : ℕ) (d : Bool)
    → Clears edits
    → written (push_edit bucket (bit, false) edits) b c d
      ≡ (if (b == bucket) && (c == bit) then false else written edits b c d)
unfolding push_edit
written-push_edit bucket bit [] b c d h = ground arith
written-push_edit bucket bit ((k, ops) ∷ edits) b c d h = ground (
  arith,
  last_write-snoc ops bit c d,
  written-false edits b c h.1,
  written-push_edit bucket bit edits b c d h.1,
  written-push_edit bucket bit edits b c (last_write ops c d) h.1,
)

-- The bits of the ids from `id` on, `count` of them, are cleared, and no others.
pub written-clear_edits :
    (count id : ℕ) (edits : Edits) (b c : ℕ) (d : Bool)
    → 0 < id
    → c < 128
    → Clears edits
    → written (clear_edits count id edits) b c d ≡ (
        if leb id (b * 128 + c + 1) && ltb (b * 128 + c + 1) (id + count)
        then false
        else written edits b c d)
unfolding clear_edits
written-clear_edits zero id edits b c d p q h = ground arith
written-clear_edits (suc count) id edits b c d p q h =
    written-clear_edits count (id + 1) _ b c d (omega arith) q (push_edit-Clears _ _ edits h)
    ∙ ground (arith, written-push_edit ((id - 1) / 128) ((id - 1) % 128) edits b c d h)
