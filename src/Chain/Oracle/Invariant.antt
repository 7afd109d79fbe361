-- ===== src/Chain/Oracle/Invariant.antt =====
-- The invariant of a snapshot that storage/canonical-chain/src/chain.rs publishes.
use vprogs.Base.{
  ℕ, suc, ◌+◌, ◌-◌, ◌*◌, ◌/◌, ◌%◌, ◌≤◌, ◌<◌, ◌≡◌, refl, ◌∙◌, ap, Bool, true, false, ◌||◌, Option,
  none, some, arith, ltb, ◌==◌, if◌then◌else◌,
}
use vprogs.Ring
use vprogs.Ring.{Ring}
use vprogs.Ring.Validity
use vprogs.Ring.Validity.{with_capacity-IsValid}
use vprogs.Ring.Reads.{with_entry-map_read, map_read}
use vprogs.Chain.Bucket
use vprogs.Chain.Bucket.{Bucket, locate}
use vprogs.Chain.Bucket.Laws.{get-new}
use vprogs.Chain.HotZone
use vprogs.Chain.HotZone.{HotZone, is_last_sealed}
use vprogs.Chain.Snapshot.{Snapshot, stored_bit, is_canonical, unwrap_or, empty}

-- How the body fits under the hot zone. Where a restored chain has one bucket alone, the ring is
-- empty at the tail's own number.
pub record Fits (z : HotZone) (body : Ring Bucket) : Type 0 where
  pub ring : Validity.IsValid body
  pub sealed : z.tail_bucket ≤ body.tip + 1
  pub covered : body.tip ≤ z.tail_bucket
  pub alone : body.tip ≡ z.tail_bucket → body.base ≡ z.tail_bucket

pub record IsValid (s : Snapshot) : Type 0 where
  pub fits : Fits s.hot_zone s.body
  pub bounded : s.tip ≤ suc s.hot_zone.tail_bucket * 128
  -- No bit above the tip is set.
  pub clear :
      (b c : ℕ)
      → b ≤ s.hot_zone.tail_bucket
      → c < 128
      → s.tip ≤ b * 128 + c
      → stored_bit s.hot_zone s.body (b, c) ≡ false

-- What a bucket's bit reads, where an absent bucket reads canonical.
abbrev pub bit_or_true : Option Bucket → ℕ → Bool
bit_or_true none c = true
bit_or_true (some b) c = Bucket.get b c

unwrap-map_read :
    (o : Option Bucket) (c : ℕ)
    → unwrap_or (map_read (λ b. Bucket.get b c) o) true ≡ bit_or_true o c
unwrap-map_read none c = refl
unwrap-map_read (some b) c = refl

-- The stored bit by cases over the three regions.
pub stored_bit_lem :
    (z : HotZone) (body : Ring Bucket) (b c : ℕ)
    → stored_bit z body (b, c) ≡ (
        if b == z.tail_bucket
        then Bucket.get z.tail c
        else (if is_last_sealed z b
            then Bucket.get z.last_sealed c
            else bit_or_true (Ring.get body b) c))
unfolding stored_bit
stored_bit_lem z body b c =
    ap
      (λ (t : Bool).
        if b == z.tail_bucket
        then Bucket.get z.tail c
        else (if is_last_sealed z b then Bucket.get z.last_sealed c else t))
      (ap (λ o. unwrap_or o true) (with_entry-map_read body b (λ s. Bucket.get s c))
        ∙ unwrap-map_read (Ring.get body b) c)

pub is_canonical_lem :
    (s : Snapshot) (id : ℕ)
    → is_canonical s id ≡ (
        if (id == 0) || ltb s.tip id
        then false
        else stored_bit s.hot_zone s.body ((id - 1) / 128, (id - 1) % 128))
unfolding is_canonical
is_canonical_lem s id = refl

pub empty-IsValid : IsValid empty
unfolding empty HotZone.empty Ring.new
empty-IsValid = record {
  fits = record {
    ring = with_capacity-IsValid 0 64 (omega arith);
    sealed = omega arith;
    covered = omega arith;
    alone = λ e. refl;
  };
  bounded = omega arith;
  clear = λ b c p q r. stored_bit_lem _ _ b c ∙ ground (arith, get-new c);
}
