-- ===== src/Chain/Oracle/History.antt =====
-- Histories of the operations of storage/canonical-chain/src/chain.rs, against the set of canonical
-- ids that they stand for.
use vprogs.Base.{
  ℕ, ◌+◌, ◌-◌, ◌/◌, ◌≤◌, ◌<◌, max, ◌≡◌, refl, ◌∙◌, ap, Bool, false, ◌&&◌, ◌||◌, List, [], ◌∷◌,
  arith, leb, ◌==◌,
}
use vprogs.Ring
use vprogs.Chain.HotZone
use vprogs.Chain.Snapshot
use vprogs.Chain.Snapshot.{Snapshot, is_canonical}
use vprogs.Chain.Oracle
use vprogs.Chain.Oracle.Invariant.{IsValid, empty-IsValid, is_canonical_lem}
use vprogs.Chain.Oracle.Append.{
  is_canonical-append, append-IsValid, tip-append, base-append, tail_bucket-append,
}
use vprogs.Chain.Oracle.Rollback.{
  is_canonical-rollback, rollback-IsValid, tip-rollback, base-rollback, tail_bucket-rollback,
}
use vprogs.Chain.Oracle.Finalize.{is_canonical-finalize_from, finalize-IsValid, finalize_range}

pub data Op : Type 0 where
  append rollback finalize : ℕ → Op

pub apply : Snapshot → Op → Snapshot
apply s (append id) = Oracle.append s id
apply s (rollback n) = Oracle.rollback s n
apply s (finalize below) = Oracle.finalize s below

pub run : List Op → Snapshot → Snapshot
run [] s = s
run (op ∷ ops) s = run ops (apply s op)

-- What a history stands for: the canonical ids as a set, the tip, the id appended last,
-- and the bound of what is finalized.
pub record View : Type 0 where
  pub tip : ℕ
  pub last : ℕ
  pub floor : ℕ
  pub canonical : ℕ → Bool

abbrev pub genesis : View
genesis = record { tip = 0; last = 0; floor = 0; canonical = λ j. false }

abbrev pub observe : View → Op → View
observe v (append id) = record v {
  tip = id;
  last = id;
  canonical = λ j. (j == id) || v.canonical j;
}
observe v (rollback n) = record v { tip = n; canonical = λ j. leb j n && v.canonical j }
observe v (finalize below) = record v { floor = max v.floor below }

abbrev pub observe_all : List Op → View → View
observe_all [] v = v
observe_all (op ∷ ops) v = observe_all ops (observe v op)

-- What the callers keep to: an appended id extends the tip and lies in no bucket below that of the
-- id appended last, a rollback does not pass the finalized ids, and only ids up to the tip are
-- finalized.
abbrev pub Admissible : View → Op → Type 0
Admissible v (append id) = (v.tip < id) × ((v.last - 1) / 128 ≤ (id - 1) / 128)
Admissible v (rollback n) = (n ≤ v.tip) × (v.floor ≤ n + 1)
Admissible v (finalize below) = below ≤ v.tip + 1

abbrev pub AllAdmissible : View → List Op → Type 0
AllAdmissible v [] = Unit
AllAdmissible v (op ∷ ops) = Admissible v op × AllAdmissible (observe v op) ops

pub record Refines (s : Snapshot) (v : View) : Type 0 where
  pub valid : IsValid s
  pub same_tip : s.tip ≡ v.tip
  pub same_tail : s.hot_zone.tail_bucket ≡ (v.last - 1) / 128
  pub unpruned : s.body.base ≤ (v.floor - 1) / 128
  pub reads : (j : ℕ) → v.floor ≤ j → is_canonical s j ≡ v.canonical j

pub empty-Refines : Refines Snapshot.empty genesis
unfolding Snapshot.empty HotZone.empty Ring.new
empty-Refines = record {
  valid = empty-IsValid;
  same_tip = refl;
  same_tail = refl;
  unpruned = omega arith;
  reads = λ j p. is_canonical_lem Snapshot.empty j ∙ ground arith;
}

append-Refines :
    (s : Snapshot) (v : View) (id : ℕ)
    → Refines s v
    → Admissible v (append id)
    → Refines (Oracle.append s id) (observe v (append id))
append-Refines s v id r ok =
    let above : s.tip < id = omega (arith, r.same_tip) in
    let onward : s.hot_zone.tail_bucket ≤ (id - 1) / 128 = omega (arith, r.same_tail) in
    record {
      valid = append-IsValid s id r.valid above onward;
      same_tip = tip-append s id r.valid above onward;
      same_tail = tail_bucket-append s id r.valid above onward;
      unpruned = omega (arith, base-append s id r.valid above onward, r.unpruned);
      reads = λ j p.
          is_canonical-append s id r.valid above onward j (omega (arith, r.unpruned))
          ∙ ap (λ (t : Bool). (j == id) || t) (r.reads j p);
    }

rollback-Refines :
    (s : Snapshot) (v : View) (n : ℕ)
    → Refines s v
    → Admissible v (rollback n)
    → Refines (Oracle.rollback s n) (observe v (rollback n))
rollback-Refines s v n r ok =
    let below : n ≤ s.tip = omega (arith, r.same_tip) in
    record {
      valid = rollback-IsValid s n r.valid below (omega (arith, r.unpruned));
      same_tip = tip-rollback s n r.valid below;
      same_tail = tail_bucket-rollback s n r.valid below ∙ r.same_tail;
      unpruned = omega (arith, base-rollback s n r.valid below, r.unpruned);
      reads = λ j p.
          is_canonical-rollback s n r.valid below j (omega (arith, r.unpruned))
          ∙ ap (λ (t : Bool). leb j n && t) (r.reads j p);
    }

finalize-Refines :
    (s : Snapshot) (v : View) (below : ℕ)
    → Refines s v
    → Admissible v (finalize below)
    → Refines (Oracle.finalize s below) (observe v (finalize below))
finalize-Refines s v below r ok =
    let (tip, tail, base) = finalize_range s below r.valid in
    record {
      valid = finalize-IsValid s below r.valid (omega (arith, r.same_tip));
      same_tip = tip ∙ r.same_tip;
      same_tail = tail ∙ r.same_tail;
      unpruned = omega (arith, r.unpruned);
      reads = λ j p.
          is_canonical-finalize_from s below r.valid j (omega arith) ∙ r.reads j (omega arith);
    }

apply-Refines :
    (s : Snapshot) (v : View) (op : Op)
    → Refines s v
    → Admissible v op
    → Refines (apply s op) (observe v op)
unfolding apply
apply-Refines s v (append id) r ok = append-Refines s v id r ok
apply-Refines s v (rollback n) r ok = rollback-Refines s v n r ok
apply-Refines s v (finalize below) r ok = finalize-Refines s v below r ok

pub run-Refines :
    (ops : List Op) (s : Snapshot) (v : View)
    → Refines s v
    → AllAdmissible v ops
    → Refines (run ops s) (observe_all ops v)
unfolding run
run-Refines [] s v r ok = r
run-Refines (op ∷ ops) s v r ok =
    run-Refines ops (apply s op) (observe v op) (apply-Refines s v op r ok.0) ok.1

-- After any admissible history of appends, rollbacks and finalizations from the empty chain, the
-- snapshot's tip is that of the history, and an id that is not below the finalized bound reads
-- canonical exactly when the history left it in the set. Admissible: an appended id extends the
-- tip and lies in no bucket below that of the id appended last, a rollback goes to no id above the
-- tip and at lowest to the one below the finalized bound, and the bound of a finalization is at
-- most one above the tip.
pub run_refines :
    (ops : List Op)
    → AllAdmissible genesis ops
    → ((run ops Snapshot.empty).tip ≡ (observe_all ops genesis).tip)
      × ((j : ℕ)
          → (observe_all ops genesis).floor ≤ j
          → is_canonical (run ops Snapshot.empty) j ≡ (observe_all ops genesis).canonical j)
run_refines ops ok =
    let r = run-Refines ops Snapshot.empty genesis empty-Refines ok in (r.same_tip, r.reads)
