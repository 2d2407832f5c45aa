-- ===== src/Transaction/Body/Weight.antt =====
-- The weight of a body, and the room that a transaction leaves for the coinbase of a block.
use vcash.Prelude.{
  ℕ, ◌+◌, ◌-◌, ◌*◌, ◌^◌, ◌≤◌, ◌<◌, ◌≡◌, refl, Bool, true, false, length, ok, fail_if, ltb, arith,
  not_ltb→le, le→not_ltb,
}
use vcash.Consensus.Params.{
  ChainType, automated_testing, user_testing, floonet, mainnet, max_block_weight,
}
use vcash.Transaction.Types.{TransactionBody, Output, TxKernel, too_heavy, Digests, output_hash}
use vcash.Transaction.Sorting.Insert.{length-search_insert}
use vcash.Transaction.Body.{
  as_transaction, as_block, weight_as_block, saturating_weight, body_weight_as_block, verify_weight,
  with_output, with_kernel,
}

-- The number of items of a body.
abbrev pub items : TransactionBody → ℕ
items body =
    length body.inputs
    + length body.outputs
    + length body.kernels
    + length body.token_inputs
    + length body.token_outputs
    + length body.token_kernels

saturating_weight_lem :
    (i o k : ℕ) → i + o + k < 2 ^ 59 → saturating_weight i o k ≡ i + 21 * o + 3 * k
saturating_weight_lem i o k lt = omega arith

-- With fewer than 2^59 items, nothing saturates or wraps in the weight of a body: it is the sum of the
-- items' weights, 1 for an input, 21 for an output and 3 for a kernel, tokens counting the same.
pub body_weight_as_block_lem :
    (body : TransactionBody)
    → items body < 2 ^ 59
    → body_weight_as_block body
      ≡ length body.inputs
        + length body.token_inputs
        + 21 * (length body.outputs + length body.token_outputs)
        + 3 * (length body.kernels + length body.token_kernels)
unfolding body_weight_as_block weight_as_block
body_weight_as_block_lem body lt =
    let a =
      saturating_weight_lem (length body.inputs) (length body.outputs) (length body.kernels)
        (omega arith) in
    let b =
      saturating_weight_lem (length body.token_inputs) (length body.token_outputs)
        (length body.token_kernels) (omega arith) in
    rw (a, b) (omega arith)

room : (chain : ChainType) → 24 ≤ max_block_weight chain
unfolding max_block_weight
room automated_testing = omega arith
room user_testing = omega arith
room floonet = omega arith
room mainnet = omega arith

fail_if-ok : {E : Type 0} (b : Bool) (e : E) → fail_if b e ≡ ok tt → b ≡ false
fail_if-ok true e h = absurd (cc)
fail_if-ok false e h = refl

-- A body of fewer than 2^58 items that is not too heavy as a transaction can take an output and a
-- kernel more, the coinbase of a block, and is then not too heavy as a block.
pub verify_weight-with_coinbase :
    (chain : ChainType) (d : Digests) (body : TransactionBody) (output : Output) (kernel : TxKernel)
    → items body < 2 ^ 58
    → verify_weight chain as_transaction body ≡ ok tt
    → verify_weight chain as_block (with_output d output (with_kernel d kernel body)) ≡ ok tt
unfolding verify_weight with_output with_kernel
verify_weight-with_coinbase chain d body output kernel lt light =
    let enough = room chain in
    let after = with_output d output (with_kernel d kernel body) in
    let outputs = length-search_insert (output_hash d) output body.outputs in
    let kernels = length-search_insert d.kernel kernel body.kernels in
    let old = body_weight_as_block_lem body (omega arith) in
    let grown : items after < 2 ^ 59 = omega arith in
    let new = body_weight_as_block_lem after grown in
    let fits = not_ltb→le (max_block_weight chain - 24) (body_weight_as_block body) (
      fail_if-ok (ltb (max_block_weight chain - 24) (body_weight_as_block body)) too_heavy light) in
    let le : body_weight_as_block after ≤ max_block_weight chain = omega arith in
    rw (le→not_ltb (max_block_weight chain) (body_weight_as_block after) le) refl
