-- ===== src/Transaction/CutThrough/Merge.antt =====
-- The loop of `cut_through` in place against a merge of the two lists.
use mathlib.Core.Path.{subst}
use vcash.Prelude.{
  ℕ, zero, suc, ◌+◌, ◌-◌, ◌≡◌, refl, ap, ◌∙◌, Bool, List, [], ◌∷◌, ◌++◌, get_elem?, length,
  length-append, Result, ok, err, fail_if, ◌>>◌, ltb, if◌then◌else◌, arith,
}
use vcash.Transaction.Types.{TxError, aggregation_error, token_type_mismatch}
use vcash.Transaction.Sorting.{sort_unstable}
use vcash.Transaction.CutThrough.{set_at, drain, drain_cut, cut_loop, cut_lists, has_duplicates}
use vcash.Transaction.CutThrough.Window.{
  Window, get_elem?-Window, keep-Window, cut-Window, drain-Window, whole-Window,
}

module _ {ℓ κ} {A : Type ℓ} {B : Type κ} (input_hash : A → ℕ) (output_hash : B → ℕ)
    (mismatch : A → B → Bool) where
  -- The merge: the items with the lower hash are kept, a pair with the same hash is left out.
  unfoldable pub merge : ℕ → List A → List B → List A → List B → Result TxError (List A × List B)
  merge zero is os kept_is kept_os = ok (kept_is ++ is, kept_os ++ os)
  merge (suc fuel) [] os kept_is kept_os = ok (kept_is ++ [], kept_os ++ os)
  merge (suc fuel) (i ∷ is) [] kept_is kept_os = ok (kept_is ++ (i ∷ is), kept_os ++ [])
  merge (suc fuel) (i ∷ is) (o ∷ os) kept_is kept_os =
      let less = merge fuel is (o ∷ os) (kept_is ++ (i ∷ [])) kept_os in
      let greater = merge fuel (i ∷ is) os kept_is (kept_os ++ (o ∷ [])) in
      let equal = merge fuel is os kept_is kept_os in
      if ltb (input_hash i) (output_hash o)
      then less
      else (if ltb (output_hash o) (input_hash i)
          then greater
          else (if mismatch i o then err token_type_mismatch else equal))

  drain-at {ι} :
      {C : Type ι} (xs kept rest : List C) (n a : ℕ)
      → a ≡ length kept + n
      → Window xs kept n rest
      → drain (a - n) a xs ≡ kept ++ rest
  drain-at xs kept rest n a e w =
      let e' : a - n ≡ length kept = omega arith in
      (λ i. drain (e' i) (e i) xs) ∙ drain-Window xs kept rest n w

  get_elem?-at {ι} :
      {C : Type ι} (xs kept rest : List C) (n a : ℕ)
      → a ≡ length kept + n
      → Window xs kept n rest
      → get_elem? xs a ≡ get_elem? rest 0
  get_elem?-at xs kept rest n a e w = ap (get_elem? xs) e ∙ get_elem?-Window xs kept rest n w

  keep-at {ι} :
      {C : Type ι} (xs kept rest : List C) (x : C) (n a : ℕ)
      → a ≡ length kept + n
      → Window xs kept n (x ∷ rest)
      → Window (set_at (a - n) x xs) (kept ++ (x ∷ [])) n rest
  keep-at xs kept rest x n a e w =
      let e' : length kept ≡ a - n = omega arith in
      subst (λ k. Window (set_at k x xs) (kept ++ (x ∷ [])) n rest) e'
        (keep-Window xs kept rest x n w)

  next-at {ι} :
      {C : Type ι} (kept : List C) (x : C) (n a : ℕ)
      → a ≡ length kept + n
      → a + 1 ≡ length (kept ++ (x ∷ [])) + n
  next-at kept x n a e = omega (arith, length-append kept (x ∷ []), e)

  drained :
      (xs : List A) (ys : List B) (a b n : ℕ) (kept is : List A) (kept' os : List B)
      → a ≡ length kept + n
      → b ≡ length kept' + n
      → Window xs kept n is
      → Window ys kept' n os
      → drain_cut input_hash output_hash mismatch a b n xs ys ≡ (kept ++ is, kept' ++ os)
  drained xs ys a b n kept is kept' os ea eb w w' =
      λ i. (drain-at xs kept is n a ea w i, drain-at ys kept' os n b eb w' i)

  -- In every round, the indices and the number of cut pairs say where the windows of the two vectors
  -- stand, and the loop gives what the merge of the items to come gives.
  cut_loop-merge :
      (fuel n a b : ℕ) (xs : List A) (ys : List B) (kept is : List A) (kept' os : List B)
      → a ≡ length kept + n
      → b ≡ length kept' + n
      → Window xs kept n is
      → Window ys kept' n os
      → cut_loop input_hash output_hash mismatch fuel xs ys a b n ≡ merge fuel is os kept kept'
  unfolding cut_loop merge
  cut_loop-merge zero n a b xs ys kept is kept' os ea eb w w' =
      ap ok (drained xs ys a b n kept is kept' os ea eb w w')
  cut_loop-merge (suc fuel) n a b xs ys kept [] kept' os ea eb w w' =
      rw (cut_loop, get_elem?-at xs kept [] n a ea w)
        (ap ok (drained xs ys a b n kept [] kept' os ea eb w w'))
  cut_loop-merge (suc fuel) n a b xs ys kept (i ∷ is) kept' [] ea eb w w' =
      rw (cut_loop, get_elem?-at xs kept (i ∷ is) n a ea w, get_elem?-at ys kept' [] n b eb w')
        (ap ok (drained xs ys a b n kept (i ∷ is) kept' [] ea eb w w'))
  cut_loop-merge (suc fuel) n a b xs ys kept (i ∷ is) kept' (o ∷ os) ea eb w w' =
      let ea' : a + 1 ≡ length kept + (n + 1) = omega arith in
      let eb' : b + 1 ≡ length kept' + (n + 1) = omega arith in
      let n' : suc n ≡ n + 1 = omega arith in
      let less =
        cut_loop-merge fuel n (a + 1) b (set_at (a - n) i xs) ys (kept ++ (i ∷ [])) is kept'
          (o ∷ os) (next-at kept i n a ea) eb (keep-at xs kept is i n a ea w) w' in
      let greater =
        cut_loop-merge fuel n a (b + 1) xs (set_at (b - n) o ys) kept (i ∷ is) (kept' ++ (o ∷ []))
          os ea (next-at kept' o n b eb) w (keep-at ys kept' os o n b eb w') in
      let equal =
        cut_loop-merge fuel (n + 1) (a + 1) (b + 1) xs ys kept is kept' os ea' eb'
          (subst (λ k. Window xs kept k is) n' (cut-Window xs kept is i n w))
          (subst (λ k. Window ys kept' k os) n' (cut-Window ys kept' os o n w')) in
      rw
        (cut_loop, get_elem?-at xs kept (i ∷ is) n a ea w, get_elem?-at ys kept' (o ∷ os) n b eb w')
        (rw (less, greater, equal) refl)

  -- Cutting through two lists in place is the check for duplicate outputs, and then the merge of the
  -- sorted lists; the number of rounds given to both is the number of items.
  pub cut_lists-eq-merge :
      (inputs : List A) (outputs : List B)
      → cut_lists input_hash output_hash mismatch inputs outputs ≡ (
          fail_if (has_duplicates output_hash (sort_unstable output_hash outputs)) aggregation_error
          >> merge
              (length (sort_unstable input_hash inputs)
                + length (sort_unstable output_hash outputs))
              (sort_unstable input_hash inputs)
              (sort_unstable output_hash outputs)
              []
              [])
  unfolding cut_lists
  cut_lists-eq-merge inputs outputs =
      let is = sort_unstable input_hash inputs in
      let os = sort_unstable output_hash outputs in
      ap (λ r. fail_if (has_duplicates output_hash os) aggregation_error >> r)
        (cut_loop-merge (length is + length os) 0 0 0 is os [] is [] os (omega arith) (omega arith)
          (whole-Window is) (whole-Window os))
