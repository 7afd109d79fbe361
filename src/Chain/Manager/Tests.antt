-- ===== src/Chain/Manager/Tests.antt =====
-- The theorems on storage/canonical-chain/src/manager.rs at a log of three blocks.
use vprogs.Base.{
  ℕ, ◌≤◌, ◌<◌, ◌≡◌, ◌↔◌, refl, ◌∙◌, false, ◌&&◌, ◌||◌, List, [], ◌∷◌, none, some, arith, ltb, ◌==◌,
}
use vprogs.Ring
use vprogs.Chain.HotZone
use vprogs.Chain.Snapshot
use vprogs.Chain.Snapshot.{is_canonical}
use vprogs.Chain.Oracle.Invariant.{empty-IsValid}
use vprogs.Chain.Oracle.Append.{base-append, tail_bucket-append}
use vprogs.Chain.Manager
use vprogs.Chain.Manager.{BatchMetadata, Manager, AppendOutcome}
use vprogs.Chain.Manager.Index.{empty-Indexed}
use vprogs.Chain.Manager.Finalize.{id-finalize}
use vprogs.Chain.Manager.Blocks.{
  IsValid, next_id, append_fresh_canonical, append_fresh-IsValid, append_known_canonical,
  append_fresh_chain,
}
use vprogs.Chain.Manager.Interned.{Call, append, rollback, finalize, Spares, run, append_interned}
use vprogs.Chain.Manager.Ancestry.{Lineage, canonical_ancestry_total}

-- A block is its hash and its parent's id.
abbrev Block : Type 0
Block = ℕ × ℕ

instance abbrev block_metadata : BatchMetadata Block
block_metadata = record { block_hash = λ b. b.0; parent_id = λ b. b.1 }

abbrev start : Manager Block
start = Manager.empty_manager Snapshot.empty

start-IsValid : IsValid start
unfolding Snapshot.empty HotZone.empty
start-IsValid = record {
  chain_valid = empty-IsValid;
  indexed = empty-Indexed 1;
  based = omega arith;
  tip_known = omega arith;
  tail_known = omega arith;
}

one : Manager Block
one = (Manager.append start (70, 0)).0

one-IsValid : IsValid one
unfolding one Manager.id
one-IsValid = append_fresh-IsValid start (70, 0) start-IsValid refl

one_unseen : Manager.id one 80 ≡ none
unfolding one Manager.append Manager.push Manager.id
one_unseen = refl

start_base : start.chain.body.base ≡ 0
unfolding Snapshot.empty HotZone.empty Ring.new
start_base = refl

one_base : one.chain.body.base ≡ 0
unfolding one Manager.append Manager.push Manager.id
one_base =
    base-append start.chain 1 start-IsValid.chain_valid (omega (arith, start-IsValid.tip_known))
      (omega (arith, start-IsValid.tail_known))
    ∙ start_base

one_tail : one.chain.hot_zone.tail_bucket ≡ 0
unfolding one Manager.append Manager.push Manager.id
one_tail =
    tail_bucket-append start.chain 1 start-IsValid.chain_valid
      (omega (arith, start-IsValid.tip_known)) (omega (arith, start-IsValid.tail_known))

one_next : next_id one ≡ 2
unfolding one Manager.append Manager.push Manager.id
one_next = refl

-- Block 80 extends block 70.
two : Manager Block
two = (Manager.append one (80, 1)).0

two-IsValid : IsValid two
unfolding two one Manager.append
two-IsValid = append_fresh-IsValid one (80, 1) one-IsValid refl

two_seen : Manager.id two 70 ≡ some 1
unfolding two one Manager.append Manager.push Manager.id
two_seen = refl

two_base : two.chain.body.base ≡ 0
unfolding two
two_base = rw (append_fresh_chain one (80, 1) one_unseen) (
    base-append one.chain (next_id one) one-IsValid.chain_valid one-IsValid.tip_known
      one-IsValid.tail_known
    ∙ one_base)

two_tail : two.chain.hot_zone.tail_bucket ≡ 0
unfolding two
two_tail = rw (append_fresh_chain one (80, 1) one_unseen) (
    tail_bucket-append one.chain (next_id one) one-IsValid.chain_valid one-IsValid.tip_known
      one-IsValid.tail_known
    ∙ omega (arith, one_next))

two_log : (two.base ≤ 2) × (2 < next_id two)
unfolding two one Manager.append Manager.push Manager.id
two_log = (omega arith, omega arith)

-- Block 80 follows block 70, a rollback orphans both, a finalization spares them, and block 70
-- returns.
abbrev block : Block
block = (70, 0)

abbrev returning : Block
returning = (70, 5)

abbrev calls : List (Call Block)
calls = append (80, 1) ∷ rollback 0 ∷ finalize 1 ∷ []

calls_spare : Spares (Manager.append start block).1.id calls
unfolding Manager.append Manager.push Manager.id
calls_spare = (omega arith, tt)

append_interned_example :
    (((Manager.append (run calls (Manager.append start block).0) returning).1.id
        ≡ (Manager.append start block).1.id)
      ↔ (returning.0 ≡ block.0))
    × (((Manager.append (run calls (Manager.append start block).0) returning).1
          ≡ record { id = (Manager.append start block).1.id; is_new = false })
        ↔ (returning.0 ≡ block.0))
    × (d : Block) × (Manager.metadata
          (run calls (Manager.append start block).0)
          (Manager.append start block).1.id
        ≡ some d)
    × (d.0 ≡ block.0)
append_interned_example =
    append_interned start block returning calls start-IsValid.indexed calls_spare

append_fresh_canonical_example :
    is_canonical (Manager.append one (80, 1)).0.chain 200
    ≡ ((200 == next_id one) || is_canonical one.chain 200)
append_fresh_canonical_example =
    append_fresh_canonical one (80, 1) one-IsValid one_unseen 200 (omega (arith, one_base))

append_fresh-IsValid_example : IsValid (Manager.append one (80, 1)).0
append_fresh-IsValid_example = append_fresh-IsValid one (80, 1) one-IsValid one_unseen

append_known_canonical_example :
    is_canonical (Manager.append two (70, 0)).0.chain 5
    ≡ (((5 == 1) && ltb two.chain.tip 1) || is_canonical two.chain 5)
append_known_canonical_example =
    append_known_canonical two (70, 0) 1 two-IsValid two_seen 5 (omega (arith, two_tail))
      (omega (arith, two_base))

id-finalize_example :
    (Manager.id (Manager.finalize two 2) 80 ≡ some 2)
    ↔ ((Manager.id two 80 ≡ some 2) × ((Manager.finalize two 2).base ≤ 2))
id-finalize_example = id-finalize two 2 two-IsValid.indexed 80 2

canonical_ancestry_total_example :
    (ids : List ℕ) × (Manager.canonical_ancestry 3 two 2 ≡ some ids) × Lineage two 2 ids
canonical_ancestry_total_example =
    canonical_ancestry_total two 3 2 (omega arith) two_log.0 two_log.1
