-- ===== src/Chain/Header.antt =====
-- The checks of a header in chain/src/pipe.rs.
pub mod Valid
use vcash.Prelude.{
  is_ok, ℕ, zero, suc, ◌+◌, ◌-◌, ◌*◌, ◌%◌, Bool, true, false, not, ◌&&◌, ◌||◌, List, [], ◌∷◌,
  Option, none, some, Result, ok, err, fail_if, ◌>>=◌, ◌>>◌, ltb, leb, ◌==◌, if◌then◌else◌, sub64,
  wrap64,
}
use vcash.Consensus.Params.{
  ChainType, is_production_mode, min_bit_diff, refactor_header_height, difficulty_adjust_window,
}
use vcash.Consensus.Difficulty.{
  valid_header_version, compact_to_biguint, next_bit_difficulty, next_difficulty, HeaderInfo,
}
use vcash.Chain.Types.{
  AuxData, BlockHeader, Tip, ChainError, Batch, Env, Context, get_block_header, get_previous_header,
  head, block_exists, bit_difficulty_too_low, invalid_coinbase, invalid_merklebranch,
  bad_bit_diffbits, low_edgebits, invalid_pow, orphan, known_in_head, known_in_store, old_block,
  invalid_block_height, invalid_block_version, invalid_block_time, wrong_total_difficulty,
  difficulty_too_low, invalid_scaling, panic,
}

abbrev pub has_more_work : BlockHeader → Tip → Bool
has_more_work header head = ltb head.height header.height

abbrev pub or_panic {ℓ} : {A : Type ℓ} → Option A → Result ChainError A
or_panic none = err panic
or_panic (some a) = ok a

-- A target that cannot be read is a difficulty that is too low.
abbrev pub or_too_low : Option ℕ → Result ChainError ℕ
or_too_low none = err bit_difficulty_too_low
or_too_low (some target) = ok target

module _ (chain : ChainType) (env : Env) where
  -- `prev_header_store`: a header that is not found makes an orphan.
  abbrev pub or_orphan : Result ChainError BlockHeader → Result ChainError BlockHeader
  or_orphan (ok header) = ok header
  or_orphan (err e) = err orphan

  abbrev pub prev_header_store : BlockHeader → Batch → Result ChainError BlockHeader
  prev_header_store header batch = or_orphan (get_previous_header env header batch)

  abbrev pub fold_branch : ℕ → List ℕ → ℕ
  fold_branch hash_value [] = hash_value
  fold_branch hash_value (item ∷ items) = fold_branch (env.dhash_with hash_value item) items

  -- The steps 1 to 3, which need no other header.
  unfoldable pub validate_aux : BlockHeader → Result ChainError (Unit {0})
  validate_aux header = do
    fail_if (ltb (min_bit_diff chain) header.bits) bit_difficulty_too_low
    target_diff ← or_too_low (compact_to_biguint header.bits)
    fail_if (ltb target_diff header.btc_pow.dhash) bit_difficulty_too_low
    fail_if (not (env.has_magic header.btc_pow.coinbase_tx (env.hash header))) invalid_coinbase
    fail_if
        (not (
          fold_branch (env.dhash_coinbase header.btc_pow.coinbase_tx) header.btc_pow.merkle_branch
          == header.btc_pow.merkle_root))
        invalid_merklebranch

  -- The bits that a header must have after the given one.
  unfoldable pub expected_bits : BlockHeader → Context env → Result ChainError ℕ
  expected_bits pre_header c =
      if not (wrap64 (pre_header.height + 1) % difficulty_adjust_window == 0)
      then ok pre_header.bits
      else (do
        start_hash ←
            env.get_header_hash_by_height (pre_header.height - (difficulty_adjust_window - 1))
              c.header_pmmr
        start_head ← get_block_header env start_hash c.batch
        or_panic (
            next_bit_difficulty env.bits_of chain pre_header.height pre_header.bits
              pre_header.timestamp start_head.timestamp))

  unfoldable pub validate_block_auxdata :
      BlockHeader → Bool → Context env → Result ChainError (Unit {0})
  validate_block_auxdata header true c = validate_aux header
  validate_block_auxdata header false c = do
    validate_aux header
    pre_header ← prev_header_store header c.batch
    nbits ← expected_bits pre_header c
    fail_if (not (nbits == header.bits)) bad_bit_diffbits

  unfoldable pub check_known_head : BlockHeader → Context env → Result ChainError (Unit {0})
  check_known_head header c = do
    tip ← head env c.batch
    fail_if ((env.hash header == tip.last_block_h) || (env.hash header == tip.prev_block_h))
        known_in_head

  unfoldable pub check_known_store : BlockHeader → Context env → Result ChainError (Unit {0})
  check_known_store header c =
      if block_exists env (env.hash header) c.batch
      then (do
        tip ← head env c.batch
        err (if ltb header.height (tip.height - 50) then old_block else known_in_store))
      else ok tt

  unfoldable pub check_known : BlockHeader → Context env → Result ChainError (Unit {0})
  check_known header c = do check_known_head header c; check_known_store header c

  unfoldable pub validate_pow_only : BlockHeader → Context env → Result ChainError (Unit {0})
  validate_pow_only header c =
      if leb (refactor_header_height chain) header.height
      then validate_block_auxdata header true c
      else if env.skip_pow
      then ok tt
      else (do
        fail_if (not (env.has_edge_bits header)) low_edgebits
        fail_if (not (env.pow_verifier header)) invalid_pow)

  -- The old rules of difficulty.
  unfoldable pub validate_old_pow :
      BlockHeader → BlockHeader → Context env → Result ChainError (Unit {0})
  validate_old_pow header prev c =
      let target_difficulty = header.total_difficulty - prev.total_difficulty in
      let next_header_info = next_difficulty header.height [] in
      do
        validate_pow_only header c
        fail_if (leb header.total_difficulty prev.total_difficulty) difficulty_too_low
        fail_if (ltb (env.to_difficulty header) target_difficulty) difficulty_too_low
        fail_if (not (target_difficulty == next_header_info.difficulty)) wrong_total_difficulty
        fail_if (not (header.secondary_scaling == next_header_info.secondary_scaling))
            invalid_scaling

  abbrev pub validate_work : BlockHeader → BlockHeader → Context env → Result ChainError (Unit {0})
  validate_work header prev c =
      if env.skip_pow
      then ok tt
      else if leb (refactor_header_height chain) header.height
      then validate_block_auxdata header false c
      else validate_old_pow header prev c

  unfoldable pub validate_header : BlockHeader → Context env → Result ChainError (Unit {0})
  validate_header header c = do
    prev ← prev_header_store header c.batch
    fail_if (not (header.height == wrap64 (prev.height + 1))) invalid_block_height
    fail_if (not (valid_header_version chain header.height header.version))
        (invalid_block_version header.version)
    fail_if (leb header.timestamp prev.timestamp) invalid_block_time
    fail_if
        (is_production_mode chain && not (header.total_difficulty == wrap64 (header.height + 1)))
        wrong_total_difficulty
    validate_work header prev c
