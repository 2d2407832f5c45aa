-- ===== src/Chain/Runs.antt =====
-- A chain of two blocks, and the theorems of the pipeline at it.
use vcash.Prelude.{
  ℕ, ◌+◌, ◌≡◌, refl, inl, inr, true, false, List, [], ◌∷◌, none, some, ok, err, arith, leb,
}
use vcash.Consensus.Params.{
  automated_testing, refactor_header_height, support_token_height, min_bit_diff, is_production_mode,
}
use vcash.Consensus.Difficulty.{compact_to_biguint}
use vcash.Transaction.Body.{empty}
use vcash.Chain.Types.{
  AuxData, BlockHeader, Block, Tip, Env, Context, from_header, invalid_block_version,
}
use vcash.Chain.Header.{
  prev_header_store, validate_header, validate_block_auxdata, validate_aux, expected_bits,
  validate_pow_only, check_known, check_known_head, check_known_store,
}
use vcash.Chain.Header.Valid.{IsNext, IsMined, validate_header-IsNext}
use vcash.Chain.Fork.{
  fork_loop, header_extending, rewind_and_apply_header_fork, apply_headers, extending,
  rewind_and_apply_fork, blocks_loop, apply_blocks, verify_and_apply,
}
use vcash.Chain.Process.{process_block, process_block_header, sync_block_headers}
use vcash.Chain.Process.Head.{IsMove, process_block-IsMove}
use vcash.Chain.Process.Linked.{
  IsLinkedTo, IsLinked, process-IsLinked, IsForkPoint, fork_loop-IsForkPoint,
}

-- A header is hashed to its height, and the current chain has the genesis block only.
abbrev pub toy : Env
toy = record {
  hash = λ x. x.height;
  dhash_coinbase = λ tx. 0;
  dhash_with = λ a b. a + b;
  has_magic = λ tx h. true;
  bits_of = λ x. 0;
  skip_pow = false;
  has_edge_bits = λ x. true;
  pow_verifier = λ x. true;
  to_difficulty = λ x. 1;
  validate_block = λ b prev. true;
  verify_kernel_sums = λ sums b. ok sums;
  verify_token_kernel_sum = λ sums b. ok sums;
  H = ℕ;
  T = ℕ;
  head_hash = λ h. ok h;
  get_header_hash_by_height = λ height h. ok height;
  is_on_current_chain = λ x batch h. leb x.height 0;
  rewind_headers = λ x h. ok x.height;
  validate_root = λ x h. ok tt;
  apply_header = λ x h. ok x.height;
  rewind = λ x batch t. ok x.height;
  verify_coinbase_maturity = λ b batch h t. ok tt;
  validate_utxo = λ b batch h t. ok tt;
  apply_block = λ b batch t. ok b.header.height;
  validate_roots = λ x t. ok tt;
  validate_sizes = λ x t. ok tt;
}

abbrev pub aux : AuxData
aux = record { dhash = 5; coinbase_tx = []; merkle_branch = []; merkle_root = 0 }

abbrev pub header_at : ℕ → BlockHeader
header_at height = record {
  height = height;
  version = 2;
  prev_hash = 0;
  timestamp = height;
  bits = 0x2100ffff;
  total_difficulty = height;
  secondary_scaling = 1;
  output_mmr_size = height;
  btc_pow = aux;
}

abbrev pub genesis : BlockHeader
genesis = header_at 0

abbrev pub next : Block
next = record { header = header_at 1; aux_data = aux; body = empty }

abbrev pub old : Tip
old = record { height = 0; last_block_h = 0; prev_block_h = 0; total_difficulty = 0 }

abbrev pub context : Context toy
context = record {
  batch = record {
    head_tip = some old;
    tail_tip = none;
    headers = genesis ∷ [];
    blocks = [];
    block_sums = (0, 5) ∷ [];
    block_token_sums = (0, 6) ∷ [];
  };
  header_pmmr = 0;
  txhashset = 0;
}

-- The next block becomes the head.
moved :
    (process_block automated_testing toy next context).0 ≡ ok (some (from_header toy next.header))
unfolding process_block check_known check_known_head check_known_store validate_pow_only
    refactor_header_height validate_block_auxdata validate_aux min_bit_diff compact_to_biguint
    expected_bits process_block_header header_extending rewind_and_apply_header_fork fork_loop
    apply_headers validate_header support_token_height is_production_mode extending
    rewind_and_apply_fork blocks_loop apply_blocks verify_and_apply
moved = refl

process_block-IsMove_example :
    IsMove automated_testing toy next old context.batch
      (process_block automated_testing toy next context)
process_block-IsMove_example = process_block-IsMove automated_testing toy next old context refl

valid : validate_header automated_testing toy (header_at 1) context ≡ ok tt
unfolding validate_header support_token_height refactor_header_height validate_block_auxdata
    validate_aux min_bit_diff compact_to_biguint expected_bits is_production_mode
valid = refl

-- A header of an old version is refused, but the header MMR has been extended by it.
refused_but_applied :
    process_block_header automated_testing toy (record (header_at 1) { version = 1 }) context
    ≡ (err (invalid_block_version 1), record context { header_pmmr = 1 })
unfolding process_block_header check_known check_known_head check_known_store header_extending
    rewind_and_apply_header_fork fork_loop apply_headers validate_header support_token_height
refused_but_applied = refl

validate_header-IsNext_example :
    (prev : BlockHeader) × ((prev_header_store automated_testing toy (header_at 1) context.batch
        ≡ ok prev)
      × (IsNext automated_testing toy prev (header_at 1)
          × (false ≡ false
              → leb (refactor_header_height automated_testing) 1 ≡ true
              → IsMined automated_testing toy prev (header_at 1) context)))
validate_header-IsNext_example =
    validate_header-IsNext automated_testing toy (header_at 1) context valid

pub genesis-IsLinked : IsLinked toy context.batch.headers
unfolding IsLinked
genesis-IsLinked = ((omega arith, inl refl), tt)

process-IsLinked_example :
    IsLinked toy (process_block automated_testing toy next context).1.batch.headers
    × (IsLinked toy
          (process_block_header automated_testing toy (header_at 1) context).1.batch.headers
        × IsLinked toy
            (sync_block_headers automated_testing toy (header_at 1 ∷ []) context).1.batch.headers)
process-IsLinked_example =
    process-IsLinked toy (λ x y e. e) automated_testing next (header_at 1) (header_at 1 ∷ [])
      context genesis-IsLinked

child-IsLinkedTo : IsLinkedTo toy context.batch.headers (header_at 1)
child-IsLinkedTo = (omega arith, inr (genesis, (refl, refl)))

fork_loop-IsForkPoint_example :
    (r : BlockHeader × List ℕ) × ((fork_loop toy 2 (header_at 1) [] context.batch 0 ≡ ok r)
      × IsForkPoint toy context.batch 0 r.0)
fork_loop-IsForkPoint_example =
    fork_loop-IsForkPoint toy (header_at 1) [] context.batch 0 child-IsLinkedTo genesis-IsLinked
