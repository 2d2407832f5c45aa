-- ===== src/Chain/Fork.antt =====
-- Rewinding to a fork and applying it again, in chain/src/pipe.rs, and the extensions of
-- chain/src/txhashset/txhashset.rs that this runs in.
use vcash.Prelude.{
  ℕ, zero, suc, Bool, true, false, not, ◌&&◌, List, [], ◌∷◌, Result, ok, err, ◌>>=◌, ◌>>◌, ltb,
  if◌then◌else◌,
}
use vcash.Chain.Types.{
  BlockHeader, Block, Tip, ChainError, Batch, Env, Context, get_block_header, get_previous_header,
  get_block, head, head_header, get_sums, out_of_fuel, from_header,
}

module _ (env : Env) where
  -- Back from a header to the first that is on the current chain, on a number of rounds; with the hashes
  -- of those passed, the last one first.
  unfoldable pub fork_loop :
      ℕ → BlockHeader → List ℕ → Batch → env.H → Result ChainError (BlockHeader × List ℕ)
  fork_loop zero current fork_hashes batch h = err out_of_fuel
  fork_loop (suc fuel) current fork_hashes batch h =
      let back = get_previous_header env current batch >>= λ prev.
      fork_loop fuel prev (env.hash current ∷ fork_hashes) batch h in
      if ltb 0 current.height && not (env.is_on_current_chain current batch h)
      then back
      else ok (current, fork_hashes)

  unfoldable pub apply_headers : List ℕ → Batch → env.H → Result ChainError env.H
  apply_headers [] batch h = ok h
  apply_headers (hash ∷ hashes) batch h = do
    header ← get_block_header env hash batch
    env.validate_root header h
    h' ← env.apply_header header h
    apply_headers hashes batch h'

  -- A header loses a height at each step back, so as many rounds as its height and one are enough.
  unfoldable pub rewind_and_apply_header_fork :
      BlockHeader → Batch → env.H → Result ChainError env.H
  rewind_and_apply_header_fork header batch h = do
    (forked_header, fork_hashes) ← fork_loop (suc header.height) header [] batch h
    h' ← env.rewind_headers forked_header h
    apply_headers fork_hashes batch h'

  -- Back from a header to a height, with the hashes of those passed.
  unfoldable pub blocks_loop : ℕ → ℕ → BlockHeader → List ℕ → Batch → Result ChainError (List ℕ)
  blocks_loop zero height current fork_hashes batch = err out_of_fuel
  blocks_loop (suc fuel) height current fork_hashes batch =
      let back = get_previous_header env current batch >>= λ prev.
      blocks_loop fuel height prev (env.hash current ∷ fork_hashes) batch in
      if ltb height current.height then back else ok fork_hashes

  abbrev pub verify_block_sums : Block → Batch → Result ChainError Batch
  verify_block_sums b batch = do
    block_sums ← get_sums b.header.prev_hash batch.block_sums
    sums ← env.verify_kernel_sums block_sums b
    ok (record batch { block_sums = (env.hash b.header, sums) ∷ batch.block_sums })

  abbrev pub verify_block_token_sums : Block → Batch → Result ChainError Batch
  verify_block_token_sums b batch = do
    block_token_sums ← get_sums b.header.prev_hash batch.block_token_sums
    sums ← env.verify_token_kernel_sum block_token_sums b
    ok (record batch { block_token_sums = (env.hash b.header, sums) ∷ batch.block_token_sums })

  abbrev pub apply_block_to_txhashset : Block → Batch → env.T → Result ChainError env.T
  apply_block_to_txhashset b batch t = do
    t' ← env.apply_block b batch t
    env.validate_roots b.header t'
    env.validate_sizes b.header t'
    ok t'

  -- What is done with each block of a fork, and with the new block.
  unfoldable pub verify_and_apply :
      Block → env.H → Batch × env.T → Result ChainError (Batch × env.T)
  verify_and_apply b h (batch, t) = do
    env.verify_coinbase_maturity b batch h t
    env.validate_utxo b batch h t
    batch1 ← verify_block_sums b batch
    batch2 ← verify_block_token_sums b batch1
    t' ← apply_block_to_txhashset b batch2 t
    ok (batch2, t')

  unfoldable pub apply_blocks : List ℕ → env.H → Batch × env.T → Result ChainError (Batch × env.T)
  apply_blocks [] h s = ok s
  apply_blocks (hash ∷ hashes) h s = do
    fb ← get_block env hash (s.0)
    s' ← verify_and_apply fb h s
    apply_blocks hashes h s'

  -- With the header MMR at the fork, which the block is checked against.
  unfoldable pub rewind_and_apply_fork :
      BlockHeader → env.H → Batch × env.T → Result ChainError (env.H × (Batch × env.T))
  rewind_and_apply_fork header h (batch, t) = do
    h' ← rewind_and_apply_header_fork header batch h
    current ← head_header env batch
    (fork_point, _) ← fork_loop (suc current.height) current [] batch h'
    t' ← env.rewind fork_point batch t
    fork_hashes ← blocks_loop (suc header.height) fork_point.height header [] batch
    s ← apply_blocks fork_hashes h' (batch, t')
    ok (h', s)

  abbrev pub Action : Type 0 → Type 0
  Action A = Context env → Result ChainError A × Context env

  -- `?` on a result that reads the context, and on a call that changes it.
  abbrev pub then_try : {A : Type 0} {B : Type 0} → Result ChainError A → (A → Action B) → Action B
  then_try (ok a) k c = k a c
  then_try (err e) k c = (err e, c)

  abbrev pub after :
      {A : Type 0} {B : Type 0}
      → Result ChainError A × Context env
      → (A → Action B)
      → Result ChainError B × Context env
  after (r, c) k = then_try r k c

  -- The tip of the header MMR.
  abbrev pub header_head : Context env → Result ChainError Tip
  header_head c = do
    hash ← env.head_hash c.header_pmmr
    header ← get_block_header env hash c.batch
    ok (from_header env header)

  -- What an extension leaves: nothing on an error or a rollback, where `true` asks for one.
  abbrev pub commit_headers : Result ChainError (env.H × Bool) → Action (Unit {0})
  commit_headers (err e) c = (err e, c)
  commit_headers (ok (h, true)) c = (ok tt, c)
  commit_headers (ok (h, false)) c = (ok tt, record c { header_pmmr = h })

  -- An empty header MMR has a default head; a head that is not in the store is an error.
  abbrev pub mmr_head : Context env → Result ChainError (Unit {0})
  mmr_head c = elim (env.head_hash c.header_pmmr) [
    | err e ↦ ok tt
    | ok hash ↦ get_block_header env hash c.batch >>= λ _. ok tt
  ]

  unfoldable pub header_extending :
      (env.H → Batch → Result ChainError (env.H × Bool)) → Action (Unit {0})
  header_extending inner c =
      then_try (mmr_head c) (λ _ c'. commit_headers (inner c'.header_pmmr c'.batch) c') c

  abbrev pub commit : Result ChainError ((Batch × env.T) × Bool) → Action (Unit {0})
  commit (err e) c = (err e, c)
  commit (ok (s, true)) c = (ok tt, c)
  commit (ok ((batch, t), false)) c = (ok tt, record c { batch = batch; txhashset = t })

  -- The header MMR is only read.
  unfoldable pub extending :
      (env.H → Batch × env.T → Result ChainError ((Batch × env.T) × Bool)) → Action (Unit {0})
  extending inner c =
      then_try (head env c.batch)
        (λ _ c1.
          then_try (header_head c1)
            (λ _ c2. commit (inner c2.header_pmmr (c2.batch, c2.txhashset)) c2) c1)
        c
