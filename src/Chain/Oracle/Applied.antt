-- ===== src/Chain/Oracle/Applied.antt =====
-- Applying the grouped edits of `rollback` in storage/canonical-chain/src/chain.rs: what the stored
-- bits read after it.
use vprogs.Base.{
  ℕ, ◌≤◌, ◌≡◌, refl, ◌∙◌, sym, ap, inl, inr, false, List, [], ◌∷◌, Option, none, some, arith, ◌==◌,
  Bool-cases, if◌then◌else◌,
}
use vprogs.Ring
use vprogs.Ring.{Ring, out_of_range}
use vprogs.Ring.Validity.{replace-IsValid}
use vprogs.Ring.Reads.{get-replace, range-replace, get_out, get_live}
use vprogs.Chain.Bucket
use vprogs.Chain.Bucket.{Bucket, Edit, locate}
use vprogs.Chain.Bucket.Laws.{last_write, get-edited}
use vprogs.Chain.HotZone.{HotZone, is_last_sealed}
use vprogs.Chain.Snapshot.{stored_bit}
use vprogs.Chain.Oracle.{Edits, apply_edit, apply_edits, replace_sealed}
use vprogs.Chain.Oracle.Invariant.{Fits, stored_bit_lem}
use vprogs.Chain.Oracle.Edits.{written}

replace_sealed-bits :
    (z : HotZone) (body : Ring Bucket) (bucket : ℕ) (ops : List Edit) (b c : ℕ)
    → Fits z body
    → (bucket == z.tail_bucket) ≡ false
    → is_last_sealed z bucket ≡ false
    → body.base ≤ b
    → b ≤ z.tail_bucket
    → stored_bit z (replace_sealed (Ring.get body bucket) bucket ops body) (b, c) ≡ (
        if b == bucket
        then last_write ops c (stored_bit z body (b, c))
        else stored_bit z body (b, c))
replace_sealed-bits z body bucket ops b c h p q lo hi =
    elim (Bool-cases (out_of_range body bucket)) [
      | inl out ↦ rw (get_out body bucket out) (ground (arith, h.sealed, h.covered))
      | inr live ↦
          let (k, e) = get_live body bucket h.ring live in
          rw e (
            stored_bit_lem z (Ring.replace body bucket (Bucket.edited k ops)) b c
            ∙ ground (
              arith,
              e,
              get-replace body bucket (Bucket.edited k ops) b h.ring,
              get-edited k ops c,
              stored_bit_lem z body b c,
            ))
    ]

-- One bucket's edits change what is stored for that bucket, and for no other.
record Edited (z : HotZone) (body : Ring Bucket) (bucket : ℕ) (ops : List Edit)
    (r : HotZone × Ring Bucket) : Type 0 where
  fits : Fits r.0 r.1
  tail_kept : r.0.tail_bucket ≡ z.tail_bucket
  base_kept : r.1.base ≡ body.base
  bits :
      (b c : ℕ)
      → body.base ≤ b
      → b ≤ z.tail_bucket
      → stored_bit r.0 r.1 (b, c) ≡ (
          if b == bucket
          then last_write ops c (stored_bit z body (b, c))
          else stored_bit z body (b, c))

replace_sealed-Fits :
    (z : HotZone) (body : Ring Bucket) (o : Option Bucket) (bucket : ℕ) (ops : List Edit)
    → Fits z body
    → Fits z (replace_sealed o bucket ops body)
      × ((replace_sealed o bucket ops body).base ≡ body.base)
replace_sealed-Fits z body none bucket ops h = (h, refl)
replace_sealed-Fits z body (some k) bucket ops h =
    let (base, tip) = range-replace body bucket (Bucket.edited k ops) in
    (
      record {
        ring = replace-IsValid body bucket (Bucket.edited k ops) h.ring;
        sealed = omega (arith, h.sealed);
        covered = omega (arith, h.covered);
        alone = λ e. base ∙ h.alone (sym tip ∙ e);
      },
      base,
    )

apply_edit-Edited :
    (z : HotZone) (body : Ring Bucket) (bucket : ℕ) (ops : List Edit)
    → Fits z body
    → Edited z body bucket ops (apply_edit bucket ops (z, body))
unfolding apply_edit
apply_edit-Edited z body bucket ops h = elim (Bool-cases (bucket == z.tail_bucket)) [
  | inl tail ↦ rw tail (record {
    fits = record { ring = h.ring; sealed = h.sealed; covered = h.covered; alone = h.alone };
    tail_kept = refl;
    base_kept = refl;
    bits = λ b c lo hi.
        stored_bit_lem _ body b c
        ∙ ground (arith, get-edited z.tail ops c, stored_bit_lem z body b c);
  })
  | inr other ↦ rw other (elim (Bool-cases (is_last_sealed z bucket)) [
    | inl sealed ↦ rw sealed (record {
      fits = record { ring = h.ring; sealed = h.sealed; covered = h.covered; alone = h.alone };
      tail_kept = refl;
      base_kept = refl;
      bits = λ b c lo hi.
          stored_bit_lem _ body b c
          ∙ ground (arith, get-edited z.last_sealed ops c, stored_bit_lem z body b c);
    })
    | inr body_bucket ↦ rw body_bucket (record {
      fits = (replace_sealed-Fits z body (Ring.get body bucket) bucket ops h).0;
      tail_kept = refl;
      base_kept = (replace_sealed-Fits z body (Ring.get body bucket) bucket ops h).1;
      bits = λ b c lo hi. replace_sealed-bits z body bucket ops b c h other body_bucket lo hi;
    })
  ])
]

-- All the edits together write what they say, bucket by bucket.
pub record Applied (z : HotZone) (body : Ring Bucket) (edits : Edits) (r : HotZone × Ring Bucket)
    : Type 0 where
  pub fits : Fits r.0 r.1
  pub tail_kept : r.0.tail_bucket ≡ z.tail_bucket
  pub base_kept : r.1.base ≡ body.base
  pub bits :
      (b c : ℕ)
      → body.base ≤ b
      → b ≤ z.tail_bucket
      → stored_bit r.0 r.1 (b, c) ≡ written edits b c (stored_bit z body (b, c))

apply_more :
    (z : HotZone) (body : Ring Bucket) (bucket : ℕ) (ops : List Edit) (edits : Edits)
    (mid r : HotZone × Ring Bucket)
    → Edited z body bucket ops mid
    → Applied mid.0 mid.1 edits r
    → Applied z body ((bucket, ops) ∷ edits) r
apply_more z body bucket ops edits mid r e a = record {
  fits = a.fits;
  tail_kept = a.tail_kept ∙ e.tail_kept;
  base_kept = a.base_kept ∙ e.base_kept;
  bits = λ b c lo hi.
      a.bits b c (omega (arith, e.base_kept)) (omega (arith, e.tail_kept))
      ∙ ap (written edits b c) (e.bits b c lo hi);
}

pub apply_edits-Applied :
    (edits : Edits) (z : HotZone) (body : Ring Bucket)
    → Fits z body
    → Applied z body edits (apply_edits edits (z, body))
unfolding apply_edits
apply_edits-Applied [] z body h = record {
  fits = h;
  tail_kept = refl;
  base_kept = refl;
  bits = λ b c lo hi. refl;
}
apply_edits-Applied ((bucket, ops) ∷ edits) z body h =
    let e = apply_edit-Edited z body bucket ops h in
    apply_more z body bucket ops edits (apply_edit bucket ops (z, body)) _ e (
      apply_edits-Applied edits (apply_edit bucket ops (z, body)).0
        (apply_edit bucket ops (z, body)).1 e.fits)
