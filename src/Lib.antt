-- ===== src/Lib.antt =====
-- A verification library for the core of vcash, a Rust node of a Mimblewimble chain with tokens.
--
-- The program. Blocks and headers are kept in Merkle mountain ranges (core/src/core/pmmr), whose
-- roots the headers commit to; a transaction body (core/src/core/transaction.rs) lists what it spends,
-- what it creates and its kernels, for the coin and for the tokens; a block is valid under the rules
-- of core/src/consensus.rs, which read the parameters of the chain type from core/src/global.rs and
-- the targets in the compact form of core/src/pow/common.rs.
--
-- The files.
--   Prelude: tests on the native numbers, lists, 64-bit words, results.
--   Pmmr/Position: the free functions on positions of core/src/core/pmmr/pmmr.rs, under the code's
--     names. Its children describe a range independently, by the complete trees that stand over the
--     leaves (`node_pos q h` is the position of the node of height `h` over the leaves
--     `q * 2^h .. (q+1) * 2^h`), and prove the bit loops of the code against that.
--   Pmmr/Backend: VecBackend of core/src/core/pmmr/vec_backend.rs. The set of removed positions is a
--     list without repetitions; data and hashes are lists in the order of the files.
--   Pmmr/Tree: struct PMMR of core/src/core/pmmr/pmmr.rs over that backend. A method that changes
--     the range returns the new one. The hashes of leaves and of parents are the record `Hashing`.
--     `IsRange` (Pmmr/Tree/Spec) says what a range of `n` leaves holds, and is the invariant.
--   Consensus/Params, Consensus/Reward, Consensus/Difficulty: core/src/global.rs, the rewards, and
--     the difficulty rules of core/src/consensus.rs and core/src/pow/common.rs. The chain type, a
--     global behind a lock in the code, is an argument. A panic is `none`.
--   Transaction/Types: the data of core/src/core/transaction.rs. The hash functions are the record
--     `Digests`; that outputs hash like inputs, without their proof, is the code's `Writeable`.
--   Transaction/Sorting: verify_sorted_and_unique of core/src/ser.rs, insertion by binary search and
--     the walk over sorted hashes.
--   Transaction/Body, Transaction/Features: TransactionBody and its checks.
--   Transaction/CutThrough: cut_through in place, on vectors with two indices.
--   Transaction/Kernel: the binary forms of kernel features, in both versions of the protocol.
--   Transaction/Aggregate: aggregate and deaggregate, and the sum of offsets of
--     core/src/core/committed.rs. Secret keys and their sums are the record `Keys`.
--   Pool/Types, Pool/Entries, Pool/Buckets, Pool/Accept: pool/src/types.rs, Pool and bucket_transactions
--     of pool/src/pool.rs, and TransactionPool of pool/src/transaction_pool.rs (`accept` is its
--     add_to_pool). What the pool calls is the record `Env`, in which Pool/Linked puts the operations
--     of Transaction/Aggregate. A method gives its result and the state that it leaves, since a call
--     that fails may have changed the pools.
--   Store/PruneList, Store/LeafSet: store/src/prune_list.rs and store/src/leaf_set.rs, without their
--     files, over the bitmaps of croaring: Store/Bitmap has their operations and their documented
--     behaviour (`IsLawful`), which Store/Bitmap/Listed proves of increasing lists.
--   Chain/Types, Chain/Header, Chain/Fork, Chain/Process: chain/src/pipe.rs, over a batch of
--     chain/src/store.rs as lists of what was saved, and the extensions of
--     chain/src/txhashset/txhashset.rs: an extension computes new MMRs, which are kept or dropped as a
--     whole. The MMRs themselves and the checks of proofs are the record `Env`. A failed call leaves a
--     context too, since it may have extended the header MMR before.
--   Chain/Orphans, Chain/Facade: the pool of orphans, and `Chain` of chain/src/chain.rs with its
--     process_block, process_block_header (`process_header`) and sync_block_headers (`sync_headers`).
--     What a batch of the store holds is kept or dropped as a whole; what went to the MMRs stays. The
--     hash maps are the association lists of Prelude/Maps; the clock is a parameter, read in turn.
--   Utxo/Coins, Utxo/Extension, Utxo/View: apply_block of chain/src/txhashset/txhashset.rs and
--     chain/src/txhashset/utxo_view.rs. What coins and tokens have in common is said once, for any
--     identifier of an output; the two indices of chain/src/store.rs are fields of the state. The
--     ranges are the interface Utxo/Mmr, with the laws of pushing and pruning that the proofs use, and
--     Utxo/Range is the range of Pmmr/Tree as one of that interface; the bitmap accumulator, which
--     takes what was made and spent, is a parameter.
-- Transaction/Toy and Utxo/Toy have data for the tests. The modules named Runs hold the tests, and
-- the theorems at concrete inputs.
--
-- Bounds. A word is a native number; `wrap64` and `sub64` write out what 64-bit operations keep. The
-- loops over bits have 64 rounds of fuel, one for each bit of a position, which the theorems on
-- positions below 2^64 and ranges of fewer than 2^63 leaves show to be enough. The walks over two
-- lists have the sum of their lengths as fuel, and each round drops an item. Adding to a prune list has
-- 32 rounds, since a round climbs one height and a node of height 31 is beyond the positions that are
-- allowed. The walk back from a header has its height and one rounds, which a linked store makes
-- enough. Taking up orphans has one round more than there are heights with orphans. A list's length is not
-- bounded by the model: theorems that need no overflow in a weight state a bound on the number of
-- items.
--
-- Not modelled. Storage (lmdb and files), the MMRs on disk, the rest of chain/src (rewinding of the
-- outputs, queries, validation of the whole state, compaction, state sync), the peer-to-peer
-- protocol, the servers, the API, the keychain and the terminal interface. BLAKE2b, secp256k1-zkp,
-- croaring and the num crate are outside the repository: hash functions, keys, bitmaps and the bit
-- length of a BigUint are parameters. TransactionBody::validate, which batches checks of proofs and
-- signatures behind a cache, is a parameter of the pool, and so are the sums on top of a block.
pub mod Prelude
pub mod Chain
pub mod Consensus
pub mod Pmmr
pub mod Pool
pub mod Store
pub mod Transaction
pub mod Utxo
