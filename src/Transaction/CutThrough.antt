-- ===== src/Transaction/CutThrough.antt =====
-- `cut_through` of core/src/core/transaction.rs: outputs that the inputs spend are taken out of both
-- lists, in place. A list stands for a vector; the two loops of the code, over the coins and over the
-- tokens, are one function of the hashes and of the check that only the second makes.
pub mod Window
pub mod Merge
pub mod Remaining
mod Runs
use vcash.Prelude.{
  ℕ, zero, suc, ◌+◌, ◌-◌, Bool, true, false, not, ◌&&◌, ◌||◌, List, [], ◌∷◌, ◌++◌, take, get_elem?,
  length, Option, none, some, Result, ok, err, fail_if, ◌>>=◌, ◌>>◌, ltb, ◌==◌, if◌then◌else◌,
}
use vcash.Transaction.Types.{
  Input, Output, TokenInput, TokenOutput, Digests, input_hash, output_hash, token_input_hash,
  token_output_hash, TxError, aggregation_error, token_type_mismatch,
}
use vcash.Transaction.Sorting.{sort_unstable}

module _ {ℓ} {A : Type ℓ} where
  -- `xs[i] = x`, for an index in range.
  abbrev pub set_at : ℕ → A → List A → List A
  set_at i x [] = []
  set_at zero x (y ∷ ys) = x ∷ ys
  set_at (suc i) x (y ∷ ys) = y ∷ set_at i x ys

  abbrev pub drop : ℕ → List A → List A
  drop zero xs = xs
  drop (suc n) [] = []
  drop (suc n) (x ∷ xs) = drop n xs

  -- `xs.drain(from..to)`.
  abbrev pub drain : ℕ → ℕ → List A → List A
  drain from to xs = take from xs ++ drop to xs

  -- `xs.windows(2).any(|pair| pair[0] == pair[1])`; items are equal if their hashes are.
  abbrev pub has_duplicates : (A → ℕ) → List A → Bool
  has_duplicates hash [] = false
  has_duplicates hash (x ∷ []) = false
  has_duplicates hash (x ∷ y ∷ ys) = (hash x == hash y) || has_duplicates hash (y ∷ ys)

module _ {ℓ κ} {A : Type ℓ} {B : Type κ} (input_hash : A → ℕ) (output_hash : B → ℕ)
    (mismatch : A → B → Bool) where
  -- The `drain` calls after the loop.
  abbrev pub drain_cut : ℕ → ℕ → ℕ → List A → List B → List A × List B
  drain_cut inputs_idx outputs_idx ncut inputs outputs =
      (drain (inputs_idx - ncut) inputs_idx inputs, drain (outputs_idx - ncut) outputs_idx outputs)

  -- The loop, and what follows it; a round moves an index, so the lengths together are enough rounds.
  unfoldable pub cut_loop : ℕ → List A → List B → ℕ → ℕ → ℕ → Result TxError (List A × List B)
  cut_loop zero inputs outputs inputs_idx outputs_idx ncut =
      ok (drain_cut inputs_idx outputs_idx ncut inputs outputs)
  cut_loop (suc fuel) inputs outputs inputs_idx outputs_idx ncut =
      elim (get_elem? inputs inputs_idx) [
        | none ↦ ok (drain_cut inputs_idx outputs_idx ncut inputs outputs)
        | some input ↦ elim (get_elem? outputs outputs_idx) [
          | none ↦ ok (drain_cut inputs_idx outputs_idx ncut inputs outputs)
          | some output ↦
              let less =
                cut_loop fuel (set_at (inputs_idx - ncut) input inputs) outputs (inputs_idx + 1)
                  outputs_idx ncut in
              let greater =
                cut_loop fuel inputs (set_at (outputs_idx - ncut) output outputs) inputs_idx
                  (outputs_idx + 1) ncut in
              let equal =
                cut_loop fuel inputs outputs (inputs_idx + 1) (outputs_idx + 1) (ncut + 1) in
              if ltb (input_hash input) (output_hash output)
              then less
              else (if ltb (output_hash output) (input_hash input)
                  then greater
                  else (if mismatch input output then err token_type_mismatch else equal))
        ]
      ]

  -- One half of `cut_through`: the lists are sorted, and the outputs must be unique.
  unfoldable pub cut_lists : List A → List B → Result TxError (List A × List B)
  cut_lists inputs outputs =
      let sorted_outputs = sort_unstable output_hash outputs in
      let sorted_inputs = sort_unstable input_hash inputs in
      do
        fail_if (has_duplicates output_hash sorted_outputs) aggregation_error
        cut_loop (length sorted_inputs + length sorted_outputs) sorted_inputs sorted_outputs 0 0 0

module _ (d : Digests) where
  unfoldable pub cut_through :
      List Input
      → List Output
      → List TokenInput
      → List TokenOutput
      → Result TxError (List Input × (List Output × (List TokenInput × List TokenOutput)))
  cut_through inputs outputs token_inputs token_outputs = do
    (is, os) ← cut_lists (input_hash d) (output_hash d) (λ _ _. false) inputs outputs
    (tis, tos) ←
        cut_lists (token_input_hash d) (token_output_hash d)
          (λ i o. not (i.token_type == o.token_type)) token_inputs token_outputs
    ok (is, (os, (tis, tos)))
