-- ===== src/Chain/Facade.antt =====
-- The façade of chain/src/chain.rs: how a block, a header and a chunk of headers go through the pipeline,
-- are kept or dropped, and what becomes of orphans.
pub mod Progress
pub mod Terminates
pub mod Status
mod Runs
use vcash.Prelude.{
  is_ok, ℕ, zero, suc, ◌+◌, ◌-◌, Bool, true, false, ◌||◌, List, [], ◌∷◌, length, last, Option, none,
  some, Result, ok, err, ◌==◌, if◌then◌else◌, wrap64,
}
use vcash.Consensus.Params.{ChainType}
use vcash.Chain.Types.{
  BlockHeader, Block, Tip, ChainError, Batch, Env, Context, head, orphan, known_in_head,
  known_in_store, bit_difficulty_too_low, bad_bit_diffbits, invalid_coinbase, invalid_merklebranch,
}
use vcash.Chain.Process.{process_block_header, sync_block_headers}
use vcash.Chain.Process
use vcash.Chain.Orphans.{Options, Orphan, OrphanBlockPool, remove_by_height}
use vcash.Chain.Orphans

pub data BlockStatus : Type 0 where
  next fork : BlockStatus
  reorg : ℕ → BlockStatus

-- What the caller is told: an error of the pipeline, one of auxiliary data, or any other with its
-- text.
pub data BlockError : Type 0 where
  kept : ChainError → BlockError
  bad_aux_data_block : BlockError
  other : ChainError → BlockError

-- The store as it is committed, the two header MMRs and the other MMRs on disk, the orphans, how often
-- the clock was read, and the accepted blocks that the adapter was told of, the last one first.
pub record Chain (env : Env) : Type 0 where
  pub store : Batch
  pub header_pmmr : env.H
  pub sync_pmmr : env.H
  pub txhashset : env.T
  pub orphans : OrphanBlockPool
  pub reads : ℕ
  pub accepted : List (Block × BlockStatus × Options)

-- The status where there is a new head.
abbrev pub status_of_head : Tip → Tip → BlockStatus
status_of_head tip prev_head =
    if tip.prev_block_h == prev_head.last_block_h
    then next
    else reorg (wrap64 (prev_head.height - tip.height + 1))

unfoldable pub determine_status : Option Tip → Tip → BlockStatus
determine_status none prev_head = fork
determine_status (some tip) prev_head = status_of_head tip prev_head

-- The error that is passed on for one of the pipeline.
abbrev pub reported : ChainError → BlockError
reported orphan = kept orphan
reported known_in_head = kept known_in_head
reported known_in_store = kept known_in_store
reported bit_difficulty_too_low = bad_aux_data_block
reported bad_bit_diffbits = bad_aux_data_block
reported invalid_coinbase = bad_aux_data_block
reported invalid_merklebranch = bad_aux_data_block
reported e = other e

module _ (chain : ChainType) (env : Env) (clock : ℕ → ℕ) where
  abbrev pub with_opts : Options → Env
  with_opts opts = record env { skip_pow = opts.skip_pow }

  -- `new_ctx`, with the header MMR or the one of the header sync.
  abbrev pub new_ctx : (opts : Options) → env.H → Chain env → Context (with_opts opts)
  new_ctx opts h c = record { batch = c.store; header_pmmr = h; txhashset = c.txhashset }

  -- A batch that is not committed is dropped; what was written to the MMRs stays.
  abbrev pub dropped : (opts : Options) → Context (with_opts opts) → Chain env → Chain env
  dropped opts x c = record c { header_pmmr = x.header_pmmr; txhashset = x.txhashset }

  abbrev pub committed : (opts : Options) → Context (with_opts opts) → Chain env → Chain env
  committed opts x c = record c {
    store = x.batch;
    header_pmmr = x.header_pmmr;
    txhashset = x.txhashset;
  }

  -- The clock is read for the orphan and again where its age is compared.
  abbrev pub add_orphan : Block → Options → Chain env → Chain env
  add_orphan b opts c = record c {
    orphans =
        Orphans.add env.hash (clock (suc c.reads))
          (record { block = b; opts = opts; added = clock c.reads }) c.orphans;
    reads = suc (suc c.reads);
  }

  unfoldable pub refuse : Block → Options → ChainError → Chain env → Chain env
  refuse b opts orphan c = add_orphan b opts c
  refuse b opts e c = c

  -- What follows the pipeline.
  abbrev pub conclude :
      Block
      → (opts : Options) → Tip
      → Chain env
      → Result ChainError (Option Tip) × Context (with_opts opts)
      → Result BlockError (Option Tip) × Chain env
  conclude b opts prev_head c (ok new_head, x) = (
    ok new_head,
    record (committed opts x c) {
      accepted = (b, determine_status new_head prev_head, opts) ∷ c.accepted;
    },
  )
  conclude b opts prev_head c (err e, x) = (err (reported e), refuse b opts e (dropped opts x c))

  unfoldable pub process_block_single :
      Block → Options → Chain env → Result BlockError (Option Tip) × Chain env
  process_block_single b opts c = elim (head env c.store) [
    | err e ↦ (err (kept e), c)
    | ok prev_head ↦
        conclude b opts prev_head c
          (Process.process_block chain (with_opts opts) b (new_ctx opts c.header_pmmr c))
  ]

  -- Orphans of one height, one after the other, with the height of the last one that was accepted and
  -- whether there was one.
  unfoldable pub process_orphans : List Orphan → ℕ × Bool → Chain env → (ℕ × Bool) × Chain env
  process_orphans [] a c = (a, c)
  process_orphans (o ∷ os) a c =
      let r = process_block_single o.block o.opts c in
      process_orphans os (if is_ok r.0 then (o.block.header.height, true) else a) r.1

  -- Round by round up the heights, as long as a block is accepted; `none` where the rounds run out.
  unfoldable pub check_orphans : ℕ → ℕ → Chain env → Option (Chain env)
  check_orphans zero height c = none
  check_orphans (suc fuel) height c = elim (remove_by_height height c.orphans) [
    | none ↦ some c
    | some taken ↦
        let r = process_orphans taken.0 (height, false) (record c { orphans = taken.1 }) in
        elim (r.0.1) [ true ↦ check_orphans fuel (wrap64 (r.0.0 + 1)) r.1 | false ↦ some r.1 ]
  ]

  -- As many rounds as there are heights with orphans, and one more.
  abbrev pub checked_orphans : ℕ → Chain env → Option (Chain env)
  checked_orphans height c = check_orphans (suc (length c.orphans.height_idx)) height c

  abbrev pub with_result :
      Result BlockError (Option Tip)
      → Option (Chain env)
      → Option (Result BlockError (Option Tip) × Chain env)
  with_result res none = none
  with_result res (some c) = some (res, c)

  unfoldable pub process_block :
      Block → Options → Chain env → Option (Result BlockError (Option Tip) × Chain env)
  process_block b opts c =
      let r = process_block_single b opts c in
      if is_ok r.0
      then with_result r.0 (checked_orphans (wrap64 (b.header.height + 1)) r.1)
      else some r

  -- A header on its own: kept only if it is accepted.
  abbrev pub settle_header :
      (opts : Options)
      → Chain env
      → Result ChainError (Unit {0}) × Context (with_opts opts)
      → Result ChainError (Unit {0}) × Chain env
  settle_header opts c (ok u, x) = (ok u, committed opts x c)
  settle_header opts c (err e, x) = (err e, dropped opts x c)

  unfoldable pub process_header :
      BlockHeader → Options → Chain env → Result ChainError (Unit {0}) × Chain env
  process_header bh opts c =
      settle_header opts c
        (process_block_header chain (with_opts opts) bh (new_ctx opts c.header_pmmr c))

  -- A chunk of headers goes to the MMR of the header sync.
  abbrev pub settle_sync :
      (opts : Options)
      → Chain env
      → Result ChainError (Unit {0}) × Context (with_opts opts)
      → Result ChainError (Unit {0}) × Chain env
  settle_sync opts c (ok u, x) =
      (ok u, record c { store = x.batch; sync_pmmr = x.header_pmmr; txhashset = x.txhashset })
  settle_sync opts c (err e, x) =
      (err e, record c { sync_pmmr = x.header_pmmr; txhashset = x.txhashset })

  -- The last header is then processed on its own.
  abbrev pub process_last :
      Option BlockHeader
      → Options
      → Result ChainError (Unit {0}) × Chain env
      → Result ChainError (Unit {0}) × Chain env
  process_last none opts r = r
  process_last (some header) opts (ok u, c) = process_header header opts c
  process_last (some header) opts (err e, c) = (err e, c)

  unfoldable pub sync_headers :
      List BlockHeader → Options → Chain env → Result ChainError (Unit {0}) × Chain env
  sync_headers headers opts c = process_last (last headers) opts (
      settle_sync opts c
        (sync_block_headers chain (with_opts opts) headers (new_ctx opts c.sync_pmmr c)))
