-- ===== src/Chain/Oracle/Restore.antt =====
-- `restore` of storage/canonical-chain/src/chain.rs: the snapshot rebuilt from the canonical ids.
use vprogs.Base.{
  ℕ, zero, suc, ◌+◌, ◌-◌, ◌*◌, ◌/◌, ◌%◌, ◌≤◌, ◌<◌, ◌≡◌, refl, ◌∙◌, sym, ap, inl, inr, Bool, false,
  ◌&&◌, ◌||◌, List, [], ◌∷◌, some, arith, leb, ltb, ◌==◌, ==_iff, Bool-cases, if◌then◌else◌,
}
use vprogs.Base.Order.{update}
use vprogs.Ring
use vprogs.Ring.{Ring}
use vprogs.Ring.Validity
use vprogs.Ring.Validity.{push-IsValid, with_capacity-IsValid}
use vprogs.Ring.Reads.{get-push, tip-push, base-push}
use vprogs.Chain.Bucket
use vprogs.Chain.Bucket.{Bucket, locate}
use vprogs.Chain.Bucket.Laws.{get-new, get-set}
use vprogs.Chain.Snapshot.{Snapshot, stored_bit, is_canonical}
use vprogs.Chain.Oracle.{restore, mark_canonical, push_buckets}
use vprogs.Chain.Oracle.Invariant.{IsValid, stored_bit_lem, is_canonical_lem}

abbrev pub contains : List ℕ → ℕ → Bool
contains [] j = false
contains (id ∷ ids) j = (j == id) || contains ids j

-- The ids that are restored lie between the base and the tip.
abbrev pub Within : ℕ → ℕ → List ℕ → Type 0
Within base tip [] = Unit
Within base tip (id ∷ ids) = (base ≤ id) × (id ≤ tip) × Within base tip ids

contains_above :
    (base tip j : ℕ) (ids : List ℕ) → Within base tip ids → tip < j → contains ids j ≡ false
contains_above base tip j [] h p = refl
contains_above base tip j (id ∷ ids) h p = ground (arith, contains_above base tip j ids h.2 p)

get-update :
    (f : ℕ → Bucket) (slot bit i c : ℕ)
    → Bucket.get (update f slot (Bucket.set (f slot) bit) i) c
      ≡ (((i == slot) && (c == bit)) || Bucket.get (f i) c)
get-update f slot bit i c = elim (Bool-cases (i == slot)) [
  | inl same ↦ rw same (
      get-set (f slot) bit c
      ∙ ap (λ (t : ℕ). (c == bit) || Bucket.get (f t) c) (sym ((==_iff i slot).0 same)))
  | inr other ↦ rw other
]

get-mark_canonical :
    (base tip : ℕ) (ids : List ℕ) (f : ℕ → Bucket) (i c : ℕ)
    → 0 < base
    → c < 128
    → Within base tip ids
    → Bucket.get (mark_canonical ((base - 1) / 128) ids f i) c
      ≡ (contains ids (((base - 1) / 128 + i) * 128 + c + 1) || Bucket.get (f i) c)
unfolding mark_canonical
get-mark_canonical base tip [] f i c p q h = refl
get-mark_canonical base tip (id ∷ ids) f i c p q h =
    get-mark_canonical base tip ids _ i c p q h.2
    ∙ ground (arith, get-update f ((id - 1) / 128 - (base - 1) / 128) ((id - 1) % 128) i c)

-- What the pushed buckets leave in the body.
record Pushed (count i : ℕ) (f : ℕ → Bucket) (body r : Ring Bucket) : Type 0 where
  valid : Validity.IsValid r
  base_kept : r.base ≡ body.base
  tip_raised : r.tip ≡ body.tip + count
  reads :
      (k : ℕ)
      → Ring.get r k ≡ (
          if leb body.tip k && ltb k (body.tip + count)
          then some (f (k - body.tip + i))
          else Ring.get body k)

push_buckets-Pushed :
    (count i : ℕ) (f : ℕ → Bucket) (body : Ring Bucket)
    → Validity.IsValid body
    → Pushed count i f body (push_buckets count i f body)
unfolding push_buckets
push_buckets-Pushed zero i f body h = record {
  valid = h;
  base_kept = refl;
  tip_raised = omega arith;
  reads = λ k. ground arith;
}
push_buckets-Pushed (suc count) i f body h =
    let next = (Ring.push body (f i)).0 in
    let r = push_buckets-Pushed count (i + 1) f next (push-IsValid body (f i) h) in
    record {
      valid = r.valid;
      base_kept = r.base_kept ∙ base-push body (f i) h;
      tip_raised = omega (arith, r.tip_raised, tip-push body (f i) h);
      reads = λ k. r.reads k ∙ ground (arith, get-push body (f i) k h, tip-push body (f i) h);
    }

module _ (s : Snapshot) (base tip : ℕ) (ids : List ℕ) (pos : 0 < base) (le : base ≤ tip)
    (within : Within base tip ids) where
  abbrev first : ℕ
  first = (base - 1) / 128

  abbrev last : ℕ
  last = (tip - 1) / 128

  abbrev buckets : ℕ → Bucket
  buckets = mark_canonical first ids (λ i. Bucket.new)

  pushed :
      Pushed
        (last - first + 1 - 2)
        0
        buckets
        (Ring.new first)
        (push_buckets (last - first + 1 - 2) 0 buckets (Ring.new first))
  unfolding Ring.new
  pushed =
      push_buckets-Pushed (last - first + 1 - 2) 0 buckets (Ring.new first)
        (with_capacity-IsValid first 64 (omega arith))

  bucket_bit :
      (i c : ℕ) → c < 128 → Bucket.get (buckets i) c ≡ contains ids ((first + i) * 128 + c + 1)
  bucket_bit i c q =
      get-mark_canonical base tip ids (λ i. Bucket.new) i c pos q within ∙ ground (arith, get-new c)

  stored_bit-restore :
      (b c : ℕ)
      → first ≤ b
      → b ≤ last
      → c < 128
      → stored_bit (restore s base tip ids).hot_zone (restore s base tip ids).body (b, c)
        ≡ contains ids (b * 128 + c + 1)
  unfolding restore Ring.new
  stored_bit-restore b c lo hi q =
      let live : (tip == 0) ≡ false = ground arith in
      rw live (
        stored_bit_lem _ (push_buckets (last - first + 1 - 2) 0 buckets (Ring.new first)) b c
        ∙ ground (
          arith,
          bucket_bit (b - first) c q,
          bucket_bit (last - first) c q,
          bucket_bit (last - first - 1) c q,
          pushed.reads b,
        ))

  tip-restore : (restore s base tip ids).tip ≡ tip
  unfolding restore
  tip-restore = let live : (tip == 0) ≡ false = ground arith in rw live

  -- A chain restored from canonical ids that all lie between a positive base and a tip that is not
  -- below it has exactly those ids canonical among the ids from the base on.
  pub is_canonical-restore :
      (j : ℕ) → base ≤ j → is_canonical (restore s base tip ids) j ≡ contains ids j
  is_canonical-restore j p =
      is_canonical_lem (restore s base tip ids) j
      ∙ ground (
        arith,
        tip-restore,
        stored_bit-restore ((j - 1) / 128) ((j - 1) % 128),
        contains_above base tip j ids within,
      )

  clear-restore :
      (b c : ℕ)
      → b ≤ last
      → c < 128
      → tip ≤ b * 128 + c
      → stored_bit (restore s base tip ids).hot_zone (restore s base tip ids).body (b, c) ≡ false
  clear-restore b c p q r =
      stored_bit-restore b c (omega arith) p q
      ∙ contains_above base tip (b * 128 + c + 1) ids within (omega arith)

  -- A restored chain is valid.
  pub restore-IsValid : IsValid (restore s base tip ids)
  unfolding restore Ring.new
  restore-IsValid =
      let live : (tip == 0) ≡ false = ground arith in
      rw live (record {
        fits = record {
          ring = pushed.valid;
          sealed = omega (arith, pushed.tip_raised);
          covered = omega (arith, pushed.tip_raised);
          alone = λ e. omega (arith, pushed.tip_raised, pushed.base_kept);
        };
        bounded = omega arith;
        clear = λ b c p q r. rw live at (clear-restore b c p q r);
      })
