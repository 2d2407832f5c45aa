-- ===== src/Transaction/Body/Sorted.antt =====
-- Sorted bodies: what the builders keep and what `verify_sorted` and `validate_read` decide.
use vcash.Prelude.{ℕ, ◌≡◌, refl, ◌↔◌, List, map, Result, ok, err, ◌>>◌}
use vcash.Consensus.Params.{ChainType}
use vcash.Transaction.Types.{
  TransactionBody, Input, Output, TokenInput, TokenOutput, TxKernel, TokenTxKernel, TxError,
  SerError, Digests, input_hash, output_hash, token_input_hash, token_output_hash,
}
use vcash.Transaction.Sorting.{verify_sorted_and_unique}
use vcash.Transaction.Sorting.Order.{IsIncreasing, verify_sorted_and_unique_iff}
use vcash.Transaction.Sorting.Insert.{search_insert-IsIncreasing}
use vcash.Transaction.Sorting.Overlap.{AreDisjoint, verify_no_overlap_iff}
use vcash.Transaction.Body.{
  Weighting, lift_ser, verify_sorted, verify_weight, verify_cut_through, validate_read, with_input,
  with_output, with_token_input, with_token_output, with_kernel, with_token_kernel,
}

pub record IsSorted (d : Digests) (body : TransactionBody) : Type 0 where
  pub inputs : IsIncreasing (map (input_hash d) body.inputs)
  pub token_inputs : IsIncreasing (map (token_input_hash d) body.token_inputs)
  pub outputs : IsIncreasing (map (output_hash d) body.outputs)
  pub token_outputs : IsIncreasing (map (token_output_hash d) body.token_outputs)
  pub kernels : IsIncreasing (map d.kernel body.kernels)
  pub token_kernels : IsIncreasing (map d.token_kernel body.token_kernels)

-- A chain of checks succeeds exactly if each of them does.
pub both : (a b : Result TxError (Unit {0})) → ((a >> b) ≡ ok tt) ↔ ((a ≡ ok tt) × (b ≡ ok tt))
both (ok tt) b = ((λ e. (refl, e)), (λ p. p.1))
both (err e) b = ((λ h. absurd (cc)), (λ p. absurd (let clash = p.0 in cc)))

lifted : (r : Result SerError (Unit {0})) → (lift_ser r ≡ ok tt) ↔ (r ≡ ok tt)
lifted (ok tt) = ((λ e. refl), (λ e. refl))
lifted (err e) = ((λ h. absurd (cc)), (λ h. absurd (cc)))

module _ (d : Digests) where
  sorted_list {ℓ} :
      {A : Type ℓ} (hash : A → ℕ) (xs : List A)
      → (lift_ser (verify_sorted_and_unique hash xs) ≡ ok tt) ↔ IsIncreasing (map hash xs)
  sorted_list hash xs =
      let l = lifted (verify_sorted_and_unique hash xs) in
      let i = verify_sorted_and_unique_iff hash xs in ((λ e. i.0 (l.0 e)), (λ s. l.1 (i.1 s)))

  -- `verify_sorted` succeeds exactly on a body whose six lists are each strictly increasing.
  pub verify_sorted_iff :
      (body : TransactionBody) → (verify_sorted d body ≡ ok tt) ↔ IsSorted d body
  unfolding verify_sorted
  verify_sorted_iff body =
      let i = sorted_list (input_hash d) body.inputs in
      let ti = sorted_list (token_input_hash d) body.token_inputs in
      let o = sorted_list (output_hash d) body.outputs in
      let to = sorted_list (token_output_hash d) body.token_outputs in
      let k = sorted_list d.kernel body.kernels in
      let tk = sorted_list d.token_kernel body.token_kernels in
      (
        (λ e.
            let (e1, r1) = (both _ _).0 e in
            let (e2, r2) = (both _ _).0 r1 in
            let (e3, r3) = (both _ _).0 r2 in
            let (e4, r4) = (both _ _).0 r3 in
            let (e5, e6) = (both _ _).0 r4 in
            record {
              inputs = i.0 e1;
              token_inputs = ti.0 e2;
              outputs = o.0 e3;
              token_outputs = to.0 e4;
              kernels = k.0 e5;
              token_kernels = tk.0 e6;
            }),
        (λ s. (both _ _).1 (
          i.1 s.inputs,
          (both _ _).1 (
            ti.1 s.token_inputs,
            (both _ _).1 (
              o.1 s.outputs,
              (both _ _).1
                  (to.1 s.token_outputs, (both _ _).1 (k.1 s.kernels, tk.1 s.token_kernels)),
            ),
          ),
        )),
      )

  -- The quick validation of a body succeeds exactly if its weight is within the limit, its six lists
  -- are strictly increasing, and no input has the hash of an output.
  pub validate_read_iff :
      (chain : ChainType) (weighting : Weighting) (body : TransactionBody)
      → (validate_read d chain weighting body ≡ ok tt) ↔ (
          (verify_weight chain weighting body ≡ ok tt)
          × (IsSorted d body
              × AreDisjoint (map (input_hash d) body.inputs) (map (output_hash d) body.outputs)))
  unfolding validate_read verify_cut_through
  validate_read_iff chain weighting body =
      let s = verify_sorted_iff body in
      let apart = λ (sorted : IsSorted d body).
        verify_no_overlap_iff (map (input_hash d) body.inputs) (map (output_hash d) body.outputs)
          sorted.inputs sorted.outputs in
      (
        (λ e.
            let (e1, r1) = (both _ _).0 e in
            let (e2, e3) = (both _ _).0 r1 in (e1, (s.0 e2, (apart (s.0 e2)).0 e3))),
        (λ (w, (sorted, p)). (both _ _).1 (w, (both _ _).1 (s.1 sorted, (apart sorted).1 p))),
      )

  -- Each builder keeps a sorted body sorted.
  pub with-IsSorted :
      (body : TransactionBody)
      → IsSorted d body
      → ((x : Input) → IsSorted d (with_input d x body))
        × (((x : TokenInput) → IsSorted d (with_token_input d x body))
            × (((x : Output) → IsSorted d (with_output d x body))
                × (((x : TokenOutput) → IsSorted d (with_token_output d x body))
                    × (((x : TxKernel) → IsSorted d (with_kernel d x body))
                        × ((x : TokenTxKernel) → IsSorted d (with_token_kernel d x body))))))
  unfolding with_input with_output with_token_input with_token_output with_kernel with_token_kernel
  with-IsSorted body s = (
    (λ x. record {
      inputs = search_insert-IsIncreasing (input_hash d) x body.inputs s.inputs;
      token_inputs = s.token_inputs;
      outputs = s.outputs;
      token_outputs = s.token_outputs;
      kernels = s.kernels;
      token_kernels = s.token_kernels;
    }),
    (
      (λ x. record {
        inputs = s.inputs;
        token_inputs =
            search_insert-IsIncreasing (token_input_hash d) x body.token_inputs s.token_inputs;
        outputs = s.outputs;
        token_outputs = s.token_outputs;
        kernels = s.kernels;
        token_kernels = s.token_kernels;
      }),
      (
        (λ x. record {
          inputs = s.inputs;
          token_inputs = s.token_inputs;
          outputs = search_insert-IsIncreasing (output_hash d) x body.outputs s.outputs;
          token_outputs = s.token_outputs;
          kernels = s.kernels;
          token_kernels = s.token_kernels;
        }),
        (
          (λ x. record {
            inputs = s.inputs;
            token_inputs = s.token_inputs;
            outputs = s.outputs;
            token_outputs =
                search_insert-IsIncreasing (token_output_hash d) x body.token_outputs
                  s.token_outputs;
            kernels = s.kernels;
            token_kernels = s.token_kernels;
          }),
          (
            (λ x. record {
              inputs = s.inputs;
              token_inputs = s.token_inputs;
              outputs = s.outputs;
              token_outputs = s.token_outputs;
              kernels = search_insert-IsIncreasing d.kernel x body.kernels s.kernels;
              token_kernels = s.token_kernels;
            }),
            ((λ x. record {
              inputs = s.inputs;
              token_inputs = s.token_inputs;
              outputs = s.outputs;
              token_outputs = s.token_outputs;
              kernels = s.kernels;
              token_kernels =
                  search_insert-IsIncreasing d.token_kernel x body.token_kernels s.token_kernels;
            })),
          ),
        ),
      ),
    ),
  )
