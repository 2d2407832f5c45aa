-- ===== src/Utxo/Runs.antt =====
-- A block that spends a coin and issues a token, and the theorems on unspent outputs at it.
use mathlib.Core.Path.{subst}
use vcash.Prelude.{
  ℕ, ◌-◌, ◌==◌, ◌<◌, arith, ==→eq, sym, ap, Bool-cases, some-injective, ◌≡◌, refl, inl, inr, List,
  [], ◌∷◌, map, none, some, ok, err, arith,
}
use vcash.Prelude.Maps
use vcash.Consensus.Params.{automated_testing, coinbase_maturity}
use vcash.Transaction.Types.{plain, coinbase, token_issue, Input, TokenOutput}
use vcash.Transaction.Body.{empty}
use vcash.Chain.Types.{AuxData, Block, BlockHeader, Tip}
use vcash.Pmmr.Position.{insertion_to_pmmr_index, ones}
use vcash.Utxo.Coins.{
  CommitPos, duplicate_commitment, immature_coinbase, apply_output, apply_outputs, apply_input,
  apply_inputs, validate_output, validate_input,
}
use vcash.Utxo.Extension.{
  Mmrs, Extension, OutputIdentifier, TokenOutputIdentifier, TokenIssueProof, coin_ident,
  token_ident, of_input, of_token_input, with_proofs, with_token_proofs, apply_block, apply_coins,
  apply_tokens, apply_kernels, apply_token_outputs, apply_token_issue_output, from_token_output,
  tip_of,
}
use vcash.Utxo.Extension.Applied.{IsReady, CoinsApplied, TokensApplied, apply_block-IsApplied}
use vcash.Utxo.View.{
  check_all, validate_token_output, validate_body, coinbase_positions, greatest,
  get_header_by_height, verify_coinbase_maturity,
}
use vcash.Utxo.View.Validated.{IsUpdated, validate_body-apply_block}
use vcash.Utxo.View.Mature.{IsMature, verify_coinbase_maturity-IsMature}
use vcash.Utxo.Toy.{Range, toy_mmr, toy-IsLawful}
use vcash.Utxo.Toy

abbrev hash : BlockHeader → ℕ
hash x = x.height

abbrev aux : AuxData
aux = record { dhash = 0; coinbase_tx = []; merkle_branch = []; merkle_root = 0 }

-- A header after which the outputs have two positions.
abbrev header_at : ℕ → BlockHeader
header_at height = record {
  height = height;
  version = 2;
  prev_hash = height - 1;
  timestamp = height;
  bits = 0;
  total_difficulty = height;
  secondary_scaling = 0;
  output_mmr_size = 2;
  btc_pow = aux;
}

abbrev old : Tip
old = record { height = 3; last_block_h = 3; prev_block_h = 2; total_difficulty = 3 }

abbrev ms : Mmrs
ms = record {
  outputs = toy_mmr OutputIdentifier;
  rproofs = toy_mmr ℕ;
  token_outputs = toy_mmr TokenOutputIdentifier;
  token_rproofs = toy_mmr ℕ;
  issue_proofs = toy_mmr TokenIssueProof;
  kernels = toy_mmr _;
  token_kernels = toy_mmr _;
  Accumulator = ℕ;
  accumulate = λ idx outputs acc. ok acc;
}

abbrev at_pos : ℕ → ℕ → CommitPos
at_pos pos height = record { pos = pos; height = height }

-- One coinbase output, with commitment 5.
abbrev before : Extension ms
before = record {
  head = old;
  coins = record {
    output_pmmr = record {
      elements = (1, record { features = coinbase; commit = 5 }) ∷ [];
      last_pos = 1;
    };
    rproof_pmmr = record { elements = (1, 50) ∷ []; last_pos = 1 };
    output_pos = (5, at_pos 1 0) ∷ [];
  };
  tokens = record { output_pmmr = Toy.empty _; rproof_pmmr = Toy.empty _; output_pos = [] };
  token_issue_proof_pmmr = Toy.empty _;
  token_issue_proof_pos = [];
  kernel_pmmr = Toy.empty _;
  token_kernel_pmmr = Toy.empty _;
  bitmap_accumulator = 0;
  spent_index = [];
  spent_token_index = [];
}

abbrev coin : Input
coin = record { features = coinbase; commit = 5 }

abbrev issued : TokenOutput
issued = record { features = token_issue; token_type = 3; commit = 9; proof = 90 }

abbrev block : Block
block = record {
  header = header_at 4;
  aux_data = aux;
  body = record empty {
    inputs = coin ∷ [];
    outputs = record { features = plain; commit = 7; proof = 70 } ∷ [];
    token_outputs = issued ∷ [];
  };
}

abbrev after : Extension ms
after = record {
  head = tip_of ms hash (header_at 4);
  coins = record {
    output_pmmr = record {
      elements = (2, record { features = plain; commit = 7 }) ∷ [];
      last_pos = 2;
    };
    rproof_pmmr = record { elements = (2, 70) ∷ []; last_pos = 2 };
    output_pos = (7, at_pos 2 4) ∷ [];
  };
  tokens = record {
    output_pmmr = record {
      elements = (1, record { features = token_issue; token_type = 3; commit = 9 }) ∷ [];
      last_pos = 1;
    };
    rproof_pmmr = record { elements = (1, 90) ∷ []; last_pos = 1 };
    output_pos = (9, at_pos 1 4) ∷ [];
  };
  token_issue_proof_pmmr = record { elements = (1, from_token_output issued) ∷ []; last_pos = 1 };
  token_issue_proof_pos = (3, 1) ∷ [];
  kernel_pmmr = Toy.empty _;
  token_kernel_pmmr = Toy.empty _;
  bitmap_accumulator = 0;
  spent_index = (4, at_pos 1 0 ∷ []) ∷ [];
  spent_token_index = (4, []) ∷ [];
}

applied : apply_block ms hash block before ≡ ok after
unfolding apply_block apply_coins apply_tokens apply_kernels apply_outputs apply_output apply_inputs
    apply_input apply_token_outputs apply_token_issue_output validate_output
applied = refl

-- A commitment that is unspent cannot be made again.
repeated :
    validate_output ms.outputs ms.rproofs coin_ident
      (record { features = plain; commit = 5 })
      before.coins
    ≡ err (duplicate_commitment 5)
unfolding validate_output
repeated = refl

stored :
    (c : ℕ) (p : CommitPos)
    → Maps.get c before.coins.output_pos ≡ some p
    → (o : OutputIdentifier) × ((ms.outputs.get_data p.pos before.coins.output_pmmr ≡ some o)
        × (o.commit ≡ c))
stored c p e = elim (Bool-cases (5 == c)) [
  | inl here ↦
      let same : at_pos 1 0 ≡ p = some-injective (rw here at e) in
      (
        record { features = coinbase; commit = 5 },
        (
          ap (λ (q : CommitPos). ms.outputs.get_data q.pos before.coins.output_pmmr) (sym same),
          ==→eq 5 c here,
        ),
      )
  | inr other ↦ absurd (absent (rw other at e))
]
  where
    absent : {q : CommitPos} → none ≡ some q → ⊥
    absent e = cc

placed : (c : ℕ) (p : CommitPos) → Maps.get c before.coins.output_pos ≡ some p → 0 < p.pos
placed c p e = elim (Bool-cases (5 == c)) [
  | inl here ↦
      let same : at_pos 1 0 ≡ p = some-injective (rw here at e) in
      subst (λ (q : CommitPos). 0 < q.pos) same (omega arith)
  | inr other ↦ absurd (absent (rw other at e))
]
  where
    absent : {q : CommitPos} → none ≡ some q → ⊥
    absent e = cc

ready : IsReady ms (toy-IsLawful _) (toy-IsLawful _) block before
ready = record {
  coins = record { room = (omega arith, tt); indexed = stored; positive = placed };
  tokens = record { room = tt; indexed = λ c p e. absurd (cc); positive = λ c p e. absurd (cc) };
}

apply_block-IsApplied_example :
    CoinsApplied ms (toy-IsLawful _) (toy-IsLawful _) block before.coins after.coins
    × TokensApplied ms (toy-IsLawful _) (toy-IsLawful _) block before.tokens after.tokens
apply_block-IsApplied_example =
    apply_block-IsApplied ms (toy-IsLawful _) (toy-IsLawful _) hash block before after ready applied

checked : validate_body ms block.body before ≡ ok tt
unfolding validate_body check_all validate_output validate_input validate_token_output
checked = refl

validate_body-apply_block_example :
    IsUpdated ms.outputs ms.rproofs coin_ident
      (with_proofs block.body.outputs)
      (map of_input block.body.inputs)
      before.coins
      after.coins
    × IsUpdated ms.token_outputs ms.token_rproofs token_ident
        (with_token_proofs block.body.token_outputs)
        (map of_token_input block.body.token_inputs)
        before.tokens
        after.tokens
validate_body-apply_block_example =
    validate_body-apply_block ms (toy-IsLawful _) (toy-IsLawful _) hash block before after ready
      checked applied

-- The headers of heights 0 to 4, at their positions.
abbrev hashes : Range ℕ
hashes = record { elements = (1, 0) ∷ (2, 1) ∷ (4, 2) ∷ (5, 3) ∷ (8, 4) ∷ []; last_pos = 8 }

abbrev headers : List BlockHeader
headers = header_at 1 ∷ header_at 0 ∷ []

-- At height 4 the coinbase of the block of height 0 or 1 may be spent, and at height 2 not.
mature :
    verify_coinbase_maturity ms
      (toy_mmr ℕ)
      hash
      automated_testing
      (coin ∷ [])
      4
      before
      hashes
      headers
    ≡ ok tt
unfolding verify_coinbase_maturity coinbase_positions greatest get_header_by_height
    coinbase_maturity insertion_to_pmmr_index ones
mature = refl

immature :
    verify_coinbase_maturity ms
      (toy_mmr ℕ)
      hash
      automated_testing
      (coin ∷ [])
      2
      before
      hashes
      headers
    ≡ err immature_coinbase
unfolding verify_coinbase_maturity coinbase_positions greatest get_header_by_height
    coinbase_maturity
immature = refl

verify_coinbase_maturity-IsMature_example :
    IsMature ms (toy_mmr ℕ) hash automated_testing 4 1 hashes headers
verify_coinbase_maturity-IsMature_example =
    verify_coinbase_maturity-IsMature ms (toy_mmr ℕ) hash automated_testing (coin ∷ []) 4 before
      hashes headers coin (at_pos 1 0) mature (inl refl) refl refl
