-- ===== src/Chain/Facade/Runs.antt =====
-- A block and an orphan that waits for it, and the theorems of the façade at them.
use vcash.Prelude.{ℕ, ◌≡◌, refl, inl, false, [], ◌∷◌, some, ok, err, arith, Option, Result}
use vcash.Consensus.Params.{
  automated_testing, refactor_header_height, support_token_height, min_bit_diff, is_production_mode,
}
use vcash.Consensus.Difficulty.{compact_to_biguint}
use vcash.Transaction.Body.{empty}
use vcash.Chain.Types.{Block, Tip, from_header, orphan}
use vcash.Chain.Header.{
  validate_header, validate_block_auxdata, validate_aux, expected_bits, validate_pow_only,
  check_known, check_known_head, check_known_store,
}
use vcash.Chain.Fork.{
  fork_loop, header_extending, rewind_and_apply_header_fork, apply_headers, extending,
  rewind_and_apply_fork, blocks_loop, apply_blocks, verify_and_apply,
}
use vcash.Chain.Process
use vcash.Chain.Process.{process_block_header}
use vcash.Chain.Runs.{toy, header_at, next, old, context, aux, genesis-IsLinked}
use vcash.Chain.Orphans
use vcash.Chain.Orphans.{Options}
use vcash.Chain.Orphans.Bounds.{IsBounded}
use vcash.Chain.Orphans.Placed.{IsPlaced}
use vcash.Chain.Facade.{
  Chain, BlockStatus, BlockError, process_block, process_block_single, process_orphans,
  check_orphans, refuse, determine_status,
}
use vcash.Chain.Facade.Progress.{process_block-IsBounded, IsAhead, process_block-IsAhead}
use vcash.Chain.Facade.Terminates.{process_block-ends}
use vcash.Chain.Facade.Status.{IsNoted, process_block_single-IsNoted}

-- A clock that stands still.
abbrev clock : ℕ → ℕ
clock n = 0

abbrev flags : Options
flags = record { skip_pow = false; sync = false; mine = false }

abbrev start : Chain toy
start = record {
  store = context.batch;
  header_pmmr = 0;
  sync_pmmr = 0;
  txhashset = 0;
  orphans = Orphans.new;
  reads = 0;
  accepted = [];
}

-- The block after `next`.
abbrev second : Block
second = record { header = record (header_at 2) { prev_hash = 1 }; aux_data = aux; body = empty }

-- With `second` among the orphans.
abbrev waiting : Chain toy
waiting = record start {
  orphans = record {
    orphans = (2, record { block = second; opts = flags; added = 0 }) ∷ [];
    height_idx = (2, 2 ∷ []) ∷ [];
    evicted = 0;
  };
  reads = 2;
}

kept_as_orphan :
    process_block_single automated_testing toy clock second flags start
    ≡ (err (BlockError.kept orphan), waiting)
unfolding process_block_single Process.process_block check_known check_known_head check_known_store
    validate_pow_only refactor_header_height validate_block_auxdata validate_aux min_bit_diff
    compact_to_biguint expected_bits refuse Orphans.add Orphans.with_orphan Orphans.push_hash
kept_as_orphan = refl

-- Both blocks are accepted, and the second is the head.
abbrev final : Result BlockError (Option Tip) × Chain toy
final = (
  ok (some (from_header toy next.header)),
  record {
    store = record {
      head_tip = some (from_header toy second.header);
      tail_tip = some (from_header toy next.header);
      headers = second.header ∷ next.header ∷ header_at 0 ∷ [];
      blocks = second ∷ next ∷ [];
      block_sums = (2, 5) ∷ (1, 5) ∷ (1, 5) ∷ (0, 5) ∷ [];
      block_token_sums = (2, 6) ∷ (1, 6) ∷ (1, 6) ∷ (0, 6) ∷ [];
    };
    header_pmmr = 2;
    sync_pmmr = 0;
    txhashset = 2;
    orphans = Orphans.new;
    reads = 2;
    accepted = (second, BlockStatus.next, flags) ∷ (next, BlockStatus.next, flags) ∷ [];
  },
)

taken_up : process_block automated_testing toy clock next flags waiting ≡ some final
unfolding process_block process_block_single process_orphans check_orphans Process.process_block
    check_known check_known_head check_known_store validate_pow_only refactor_header_height
    validate_block_auxdata validate_aux min_bit_diff compact_to_biguint expected_bits
    process_block_header header_extending rewind_and_apply_header_fork fork_loop apply_headers
    validate_header support_token_height is_production_mode extending rewind_and_apply_fork
    blocks_loop apply_blocks verify_and_apply determine_status Orphans.remove_by_height
    Orphans.take_all
taken_up = refl

process_block-IsBounded_example : IsBounded final.1.orphans
process_block-IsBounded_example =
    process_block-IsBounded automated_testing toy clock next flags waiting final taken_up
      (((2, inl refl), tt), omega arith)

start-IsAhead : IsAhead toy 0 waiting.store
start-IsAhead = record { linked = genesis-IsLinked; tip = old; is_head = refl; above = omega arith }

process_block-IsAhead_example : IsAhead toy 0 final.1.store
process_block-IsAhead_example =
    process_block-IsAhead automated_testing toy clock (λ x y e. e) 0 next flags waiting final
      taken_up start-IsAhead

waiting-IsPlaced : IsPlaced toy.hash waiting.orphans
waiting-IsPlaced = record {
  index = ((omega arith, ((second.header, (refl, refl)), tt)), tt);
  keyed = (refl, tt);
}

process_block-ends_example :
    (r : Result BlockError (Option Tip) × Chain toy) × ((process_block automated_testing toy clock
          next flags waiting
        ≡ some r)
      × IsPlaced toy.hash r.1.orphans)
process_block-ends_example =
    process_block-ends automated_testing toy clock (λ x y e. e) next flags waiting (omega arith)
      waiting-IsPlaced

accepted_alone :
    (process_block_single automated_testing toy clock next flags start).0
    ≡ ok (some (from_header toy next.header))
unfolding process_block_single Process.process_block check_known check_known_head check_known_store
    validate_pow_only refactor_header_height validate_block_auxdata validate_aux min_bit_diff
    compact_to_biguint expected_bits process_block_header header_extending
    rewind_and_apply_header_fork fork_loop apply_headers validate_header support_token_height
    is_production_mode extending rewind_and_apply_fork blocks_loop apply_blocks verify_and_apply
accepted_alone = refl

process_block_single-IsNoted_example :
    (s : BlockStatus) × (((process_block_single automated_testing toy clock next flags
          start).1.accepted
        ≡ (next, s, flags) ∷ [])
      × IsNoted next old (some (from_header toy next.header)) s)
process_block_single-IsNoted_example =
    process_block_single-IsNoted automated_testing toy clock next flags start old
      (some (from_header toy next.header)) refl accepted_alone
