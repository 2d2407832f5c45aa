-- ===== src/Transaction/Body/Runs.antt =====
-- The checks of a body, run on a small one, and the theorems at it.
use vcash.Prelude.{ℕ, ◌≡◌, refl, [], ◌∷◌, ok, err, arith, ◌↔◌, map}
use vcash.Consensus.Params.{mainnet, max_block_weight}
use vcash.Transaction.Types.{
  TransactionBody, Input, TokenInput, Output, TokenOutput, TxKernel, TokenTxKernel, plain,
  height_locked, issue_token, token_issue, input_hash, output_hash, cut_through_error,
}
use vcash.Transaction.Toy.{toy}
use vcash.Transaction.Sorting.Order.{IsIncreasing}
use vcash.Transaction.Sorting.Overlap.{AreDisjoint}
use vcash.Transaction.Sorting.{verify_no_overlap, walk}
use vcash.Transaction.Body.{
  fold_fees, body_weight_as_block, weight_as_block, as_transaction, as_block, fee, validate_read,
  verify_weight, verify_cut_through, with_input, with_output, with_kernel, with_token_input,
  with_token_output, with_token_kernel,
}
use vcash.Transaction.Body.Weight.{verify_weight-with_coinbase}
use vcash.Transaction.Body.Sorted.{IsSorted, validate_read_iff, with-IsSorted}

abbrev coin_in : ℕ → Input
coin_in commit = record { features = plain; commit = commit }

abbrev coin_out : ℕ → Output
coin_out commit = record { features = plain; commit = commit; proof = 0 }

abbrev locked : TxKernel
locked = record { features = height_locked 2 40; excess = 2; excess_sig = 0 }

abbrev sample : TransactionBody
sample = record {
  inputs = coin_in 3 ∷ coin_in 8 ∷ [];
  token_inputs = [];
  outputs = coin_out 5 ∷ coin_out 9 ∷ [];
  token_outputs = record { features = token_issue; token_type = 6; commit = 4; proof = 0 } ∷ [];
  kernels = record { features = plain 7; excess = 1; excess_sig = 0 } ∷ locked ∷ [];
  token_kernels =
      record { features = issue_token; token_type = 6; excess = 1; excess_sig = 0 } ∷ [];
}

sample-fee : fee sample ≡ 9
unfolding fee fold_fees
sample-fee = refl

spent_output :
    verify_cut_through toy (record sample { outputs = coin_out 8 ∷ [] }) ≡ err cut_through_error
unfolding verify_cut_through verify_no_overlap walk
spent_output = refl

sample-IsSorted : IsSorted toy sample
unfolding IsIncreasing
sample-IsSorted = record {
  inputs = ((omega arith, tt), (tt, tt));
  token_inputs = tt;
  outputs = ((omega arith, tt), (tt, tt));
  token_outputs = (tt, tt);
  kernels = ((omega arith, tt), (tt, tt));
  token_kernels = (tt, tt);
}

validate_read_iff_example : (validate_read toy mainnet as_transaction sample ≡ ok tt) ↔ (
    (verify_weight mainnet as_transaction sample ≡ ok tt)
    × (IsSorted toy sample
        × AreDisjoint (map (input_hash toy) sample.inputs) (map (output_hash toy) sample.outputs)))
validate_read_iff_example = validate_read_iff toy mainnet as_transaction sample

with-IsSorted_example :
    ((x : Input) → IsSorted toy (with_input toy x sample))
    × (((x : TokenInput) → IsSorted toy (with_token_input toy x sample))
        × (((x : Output) → IsSorted toy (with_output toy x sample))
            × (((x : TokenOutput) → IsSorted toy (with_token_output toy x sample))
                × (((x : TxKernel) → IsSorted toy (with_kernel toy x sample))
                    × ((x : TokenTxKernel) → IsSorted toy (with_token_kernel toy x sample))))))
with-IsSorted_example = with-IsSorted toy sample sample-IsSorted

light : verify_weight mainnet as_transaction sample ≡ ok tt
unfolding verify_weight max_block_weight body_weight_as_block weight_as_block
light = refl

verify_weight-with_coinbase_example :
    verify_weight mainnet as_block (with_output toy (coin_out 7) (with_kernel toy locked sample))
    ≡ ok tt
verify_weight-with_coinbase_example =
    verify_weight-with_coinbase mainnet toy sample (coin_out 7) locked (omega arith) light
