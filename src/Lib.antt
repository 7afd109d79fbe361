-- ===== src/Lib.antt =====
-- A model of the core of vprogs, a based-rollup execution layer: the canonical chain, which tells
-- each block of the ordering layer that is on the selected chain from the orphaned ones, with the
-- ring buffer that it is built on; the scheduler's persisted state with its rollback and its
-- pruning; the Merkle tree builder and the sparse Merkle tree, with its proofs; the runtime's
-- actions on accounts; and the funding search of the wallet.
--
-- Parts and files:
--   Ring        core/atomics/src/atomic_ring.rs, `AtomicRing`: an index-addressed ring of slots
--               that doubles when the live range fills it. Every method is a definition of
--               Ring.antt; Validity has the invariant, Slots the modular lemmas, Reads what a read
--               returns.
--   Chain       storage/canonical-chain/src. Bucket is bucket.rs (128 bits in two words), HotZone
--               is hot_zone.rs (the tail and the bucket sealed last), Snapshot is snapshot.rs (the
--               read), Oracle is chain.rs (append, rollback, finalize, restore), each from the
--               current snapshot to the one that it publishes, and Manager is manager.rs, the log
--               of block metadata with its reverse index, which drives the oracle;
--               its Interned runs the manager's calls and follows the id of one block.
--   Merkle      core/merkle-tree/src/streaming_builder.rs, over the traits of node_tags.rs and of
--               core/hashing/src/hasher.rs. Dense is the tree that the builder stands for, Stack
--               and Finalize the loops, Depth the required depth, Root their composition.
--   Codec       core/codec/src: Bits is bits.rs, Reader the reads of reader.rs that the others
--               use, Numbers the reading of a byte array as a number, SortUnique is
--               sort_unique.rs, Slices the slices of reader.rs and writer.rs.
--   Smt         core/smt/src: the sparse Merkle tree. Updater is updater.rs, Entries the lists of
--               entries that it goes through, Reference its result against the reference hash of
--               proving/proof.rs, Tree is `root` and `update` of tree.rs, Stored what a later
--               update reads, Encoding the bytes of a node (node.rs), Proving the multi-proof:
--               Topology its packed bits, Builder its collection (proving/proof_builder.rs),
--               Traversal its walk (proving/traversal.rs), Shape and Lays the tree that it
--               lays out, Post the root after its members have new values, and Member what it says
--               of each key (proving/proof.rs, proving/member.rs). Wire is the wire format
--               of a proof.
--   State       state/version, state/ptr-latest, state/ptr-rollback, state/metadata and
--               state/batch-metadata: the column families, the writes to them and their commit.
--               Pointers is about the rollback pointers of one batch.
--   Scheduler   scheduling/scheduler/src: what a batch writes (state_diff.rs, scheduled_batch.rs)
--               and how a rollback reverts it (rollback.rs). Batches and Writes say what a batch
--               leaves, History strings batches together, Reverts and Executed are about the
--               rollback. Cancellation is cancellation_context.rs. Pruning is the handshake of
--               pruning_worker.rs, Prune what a pass of it deletes.
--   Runtime     zk/backend/risc0/runtime-processor/src: lifecycle.rs and the actions of action.rs
--               and its modules, over decoded resources. Slots sums balances, Transfer and Exit
--               are about single actions, Conserved about a list of them.
--   Wallet      l1/wallet/src/build: the funding search of a transaction. Wallet.antt has funding.rs,
--               pricing.rs and viability.rs, Pricing the fee search, Viability the smallest change,
--               Attempts one prefix of the candidates, Funded the walk over them.
--   Base        the shared names, Boolean tests, list functions and the lemmas on words and
--               windows.
--
-- The manager gives each new block the next id, appends that id to the oracle, and appends a
-- returning block's old id again. The oracle locates an id in a bucket, seals the buckets behind
-- the tail into a ring, edits the buckets of a rollback, and prunes the ring on finalization.
-- Chain.Oracle.History compares the oracle with a plain set of canonical ids over any history of
-- operations. The updater of the sparse Merkle tree writes the nodes that a later update and the
-- builder of a proof read, and the walks of the proof compute the root again, before and after its
-- members have new values. The scheduler writes each batch's new versions, the pointers to the old
-- ones and the latest pointers; its rollback walks the batches that a snapshot of the oracle reads
-- as canonical, from the newest down, and restores the old pointers.
--
-- Conventions: a slot array, a word array, a vector of buckets and a hash map are functions from
-- the position or key; where the length matters it stands beside the function. u64 ids and indices
-- are naturals, which the code does not take to wrap. A 32-byte block hash is the number that its
-- bytes spell. Debug assertions are hypotheses or are left out; each definition says so where it
-- matters.
--
-- Fuel: `make_room` has the live count plus one, since each growth at least doubles a positive
-- capacity; `seal_behind` has the target bucket, since each round raises the next index by one;
-- `canonical_ancestry` has the id plus one, since each step goes to a smaller id; an update of the
-- sparse Merkle tree, the collection of a proof and its walk have the levels below the position,
-- `canceled_parent_context` the context's number plus one, since a parent comes before its child,
-- and the search for the smallest viable change 64 rounds, since each halves an interval below 2 to
-- the 64.
--
-- Not modelled: what an older snapshot shares with the newer ones (the buckets and the ring are
-- values, as their one writer sees them), the flag that admits one writer at a time, and the atomic
-- orderings. The scheduler's threads, queues and latches, the stores, the provers and the rest of
-- the wallet: they are threads and calls of other crates around the parts above. The runtime's byte
-- layouts, locks and signers are an interface of the model. The node's masses and floating-point
-- numbers are parameters of the wallet.
pub mod Base
pub mod Ring
pub mod Chain
pub mod Merkle
pub mod State
pub mod Scheduler
pub mod Runtime
pub mod Codec
pub mod Smt
pub mod Wallet
