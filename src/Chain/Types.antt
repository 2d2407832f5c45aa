-- ===== src/Chain/Types.antt =====
-- The data of the pipeline, what it reads and writes of chain/src/store.rs, and the operations of
-- chain/src/txhashset/txhashset.rs that it calls.
use vcash.Prelude.{
  find, ℕ, Bool, List, [], ◌∷◌, Option, none, some, Result, ok, err, ◌>>=◌, ◌==◌, if◌then◌else◌,
}
use vcash.Transaction.Types.{TransactionBody}
use vcash.Transaction.Features.{any}

-- `btc_pow`: the Bitcoin header that commits to a block, by its double hash, and the proof of that.
pub record AuxData : Type 0 where
  pub dhash : ℕ
  pub coinbase_tx : List ℕ
  pub merkle_branch : List ℕ
  pub merkle_root : ℕ

pub record BlockHeader : Type 0 where
  pub height : ℕ
  pub version : ℕ
  pub prev_hash : ℕ
  pub timestamp : ℕ
  pub bits : ℕ
  pub total_difficulty : ℕ
  pub secondary_scaling : ℕ
  pub output_mmr_size : ℕ
  pub btc_pow : AuxData

pub record Block : Type 0 where
  pub header : BlockHeader
  pub aux_data : AuxData
  pub body : TransactionBody

pub record Tip : Type 0 where
  pub height : ℕ
  pub last_block_h : ℕ
  pub prev_block_h : ℕ
  pub total_difficulty : ℕ

pub data ChainError : Type 0 where
  bit_difficulty_too_low invalid_coinbase invalid_merklebranch bad_bit_diffbits : ChainError
  low_edgebits invalid_pow orphan known_in_head known_in_store old_block : ChainError
  invalid_block_height invalid_block_time wrong_total_difficulty difficulty_too_low : ChainError
  invalid_scaling invalid_block_proof not_found txhashset_err : ChainError
  invalid_block_version : ℕ → ChainError
  -- A panic of the code, and a loop that ran out of its rounds.
  panic out_of_fuel : ChainError

-- A batch of the store: the head, the tail, and what is saved under a hash, the newest first.
pub record Batch : Type 0 where
  pub head_tip : Option Tip
  pub tail_tip : Option Tip
  pub headers : List BlockHeader
  pub blocks : List Block
  pub block_sums : List (ℕ × ℕ)
  pub block_token_sums : List (ℕ × ℕ)

abbrev pub or_not_found {ℓ} : {A : Type ℓ} → Option A → Result ChainError A
or_not_found none = err not_found
or_not_found (some a) = ok a

-- What the pipeline calls: the hash of a header, the proofs of work, the checks that need
-- secp256k1, and the header MMR (in `H`) and the other MMRs with their index (in `T`).
pub record Env : Type 1 where
  pub hash : BlockHeader → ℕ
  pub dhash_coinbase : List ℕ → ℕ
  pub dhash_with : ℕ → ℕ → ℕ
  pub has_magic : List ℕ → ℕ → Bool
  pub bits_of : ℕ → ℕ
  pub skip_pow : Bool
  pub has_edge_bits : BlockHeader → Bool
  pub pow_verifier : BlockHeader → Bool
  pub to_difficulty : BlockHeader → ℕ
  pub validate_block : Block → BlockHeader → Bool
  pub verify_kernel_sums : ℕ → Block → Result ChainError ℕ
  pub verify_token_kernel_sum : ℕ → Block → Result ChainError ℕ
  pub H : Type 0
  pub T : Type 0
  pub head_hash : H → Result ChainError ℕ
  pub get_header_hash_by_height : ℕ → H → Result ChainError ℕ
  pub is_on_current_chain : BlockHeader → Batch → H → Bool
  pub rewind_headers : BlockHeader → H → Result ChainError H
  pub validate_root : BlockHeader → H → Result ChainError (Unit {0})
  pub apply_header : BlockHeader → H → Result ChainError H
  pub rewind : BlockHeader → Batch → T → Result ChainError T
  pub verify_coinbase_maturity : Block → Batch → H → T → Result ChainError (Unit {0})
  pub validate_utxo : Block → Batch → H → T → Result ChainError (Unit {0})
  pub apply_block : Block → Batch → T → Result ChainError T
  pub validate_roots : BlockHeader → T → Result ChainError (Unit {0})
  pub validate_sizes : BlockHeader → T → Result ChainError (Unit {0})

module _ (env : Env) where
  abbrev pub from_header : BlockHeader → Tip
  from_header header = record {
    height = header.height;
    last_block_h = env.hash header;
    prev_block_h = header.prev_hash;
    total_difficulty = header.total_difficulty;
  }

  abbrev pub head : Batch → Result ChainError Tip
  head batch = or_not_found batch.head_tip

  abbrev pub get_block_header : ℕ → Batch → Result ChainError BlockHeader
  get_block_header h batch =
      or_not_found (find (λ (x : BlockHeader). env.hash x == h) batch.headers)

  abbrev pub get_previous_header : BlockHeader → Batch → Result ChainError BlockHeader
  get_previous_header header batch = get_block_header header.prev_hash batch

  abbrev pub head_header : Batch → Result ChainError BlockHeader
  head_header batch = head batch >>= λ (tip : Tip). get_block_header tip.last_block_h batch

  abbrev pub get_block : ℕ → Batch → Result ChainError Block
  get_block h batch = or_not_found (find (λ (x : Block). env.hash x.header == h) batch.blocks)

  abbrev pub block_exists : ℕ → Batch → Bool
  block_exists h batch = any (λ (x : Block). env.hash x.header == h) batch.blocks

  abbrev pub save_block_header : BlockHeader → Batch → Batch
  save_block_header header batch = record batch { headers = header ∷ batch.headers }

  abbrev pub save_block : Block → Batch → Batch
  save_block b batch = record batch { blocks = b ∷ batch.blocks }

  abbrev pub save_body_tail : Tip → Batch → Batch
  save_body_tail tip batch = record batch { tail_tip = some tip }

  abbrev pub save_body_head : Tip → Batch → Batch
  save_body_head tip batch = record batch { head_tip = some tip }

-- The sums that are saved under the hash of a block.
abbrev pub get_sums : ℕ → List (ℕ × ℕ) → Result ChainError ℕ
get_sums h [] = err not_found
get_sums h ((k, sums) ∷ rest) = let later = get_sums h rest in if k == h then ok sums else later

-- `BlockContext`.
pub record Context (env : Env) : Type 0 where
  pub batch : Batch
  pub header_pmmr : env.H
  pub txhashset : env.T
