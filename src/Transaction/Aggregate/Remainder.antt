-- ===== src/Transaction/Aggregate/Remainder.antt =====
-- What `deaggregate` leaves of an aggregate.
use mathlib.Core.Path.{subst}
use vcash.Prelude.{
  ℕ, ◌≡◌, refl, sym, ◌∙◌, ◌↔◌, ◌⊎◌, inl, inr, Bool, true, false, ◌||◌, List, [], ◌∷◌, ◌++◌, map,
  ◌==◌, Bool-cases, ok, bind-ok, ok-injective,
}
use vcash.Transaction.Types.{
  TransactionBody, Transaction, Digests, input_hash, output_hash, token_input_hash,
  token_output_hash,
}
use vcash.Transaction.Features.{any}
use vcash.Transaction.Sorting.{sort_unstable}
use vcash.Transaction.Sorting.Insert.{Holds}
use vcash.Transaction.Members.{any-Holds, Holds-any, Holds-append, sort_unstable-Holds}
use vcash.Transaction.Aggregate.{Keys, aggregate, leftover, remaining_offset, deaggregate}

or_true : (a b : Bool) → (a || b) ≡ true → (a ≡ true) ⊎ (b ≡ true)
or_true true b e = inl refl
or_true false b e = inr e

or_false : (a b : Bool) → (a || b) ≡ false → a ≡ false
or_false true b e = absurd (cc)
or_false false b e = refl

module _ (d : Digests) (keys : Keys) where
  -- The rest holds what the whole holds and the part does not.
  abbrev pub IsRest {ℓ} : {A : Type ℓ} → (A → ℕ) → List A → List A → List A → Type 0
  IsRest hash whole part rest =
      (h : ℕ) → Holds h (map hash rest) ↔ (Holds h (map hash whole) × (Holds h (map hash part) → ⊥))

  module _ {ℓ} {A : Type ℓ} (hash : A → ℕ) where
    -- What is kept at the end: what was kept before, and the items that are not held.
    abbrev Kept : List A → List A → List A → ℕ → Type 0
    Kept held kept xs h =
        Holds h (map hash kept) ⊎ (Holds h (map hash xs) × (Holds h (map hash held) → ⊥))

    seen :
        (held kept xs : List A) (x : A) (h : ℕ)
        → (any (λ y. hash y == hash x) held || any (λ y. hash y == hash x) kept) ≡ true
        → Kept held kept (x ∷ xs) h
        → Kept held kept xs h
    unfolding Holds
    seen held kept xs x h t (inl k) = inl k
    seen held kept xs x h t (inr (inr m, n)) = inr (m, n)
    seen held kept xs x h t (inr (inl e, n)) = elim (or_true _ _ t) [
      | inl in_held ↦
          absurd (
            n (subst (λ k. Holds k (map hash held)) (sym e) (any-Holds hash (hash x) held in_held)))
      | inr in_kept ↦
          inl (subst (λ k. Holds k (map hash kept)) (sym e) (any-Holds hash (hash x) kept in_kept))
    ]

    unseen :
        (held kept xs : List A) (x : A) (h : ℕ)
        → (any (λ y. hash y == hash x) held || any (λ y. hash y == hash x) kept) ≡ false
        → Kept held (kept ++ (x ∷ [])) xs h
        → Kept held kept (x ∷ xs) h
    unfolding Holds
    unseen held kept xs x h f (inr (m, n)) = inr (inr m, n)
    unseen held kept xs x h f (inl k) = elim ((Holds-append hash h kept (x ∷ [])).0 k) [
      | inl m ↦ inl m
      | inr (inl e) ↦ inr (
        inl e,
        λ m.
            let hit = Holds-any hash (hash x) held (subst (λ k. Holds k (map hash held)) e m) in
            let clash : true ≡ false = sym hit ∙ or_false _ _ f in absurd (cc),
      )
      | inr (inr n) ↦ absurd n
    ]

    leftover-Holds :
        (held kept xs : List A) (h : ℕ)
        → Holds h (map hash (leftover d keys hash held kept xs)) ↔ Kept held kept xs h
    unfolding Holds
    leftover-Holds held kept [] h = (λ m. inl m, elim [ inl m ↦ m | inr n ↦ absurd (n.0) ])
    leftover-Holds held kept (x ∷ xs) h =
        elim (Bool-cases (any (λ y. hash y == hash x) held || any (λ y. hash y == hash x) kept)) [
          | inl t ↦
              let ih = leftover-Holds held kept xs h in
              rw t (
                λ m. elim (ih.0 m) [ inl k ↦ inl k | inr n ↦ inr (inr n.0, n.1) ],
                λ k. ih.1 (seen held kept xs x h t k),
              )
          | inr f ↦
              let ih = leftover-Holds held (kept ++ (x ∷ [])) xs h in
              rw f (
                λ m. unseen held kept xs x h f (ih.0 m),
                elim [
                  | inl k ↦ ih.1 (inl ((Holds-append hash h kept (x ∷ [])).1 (inl k)))
                  | inr (inl e, n) ↦
                      ih.1 (inl ((Holds-append hash h kept (x ∷ [])).1 (inr (inl e))))
                  | inr (inr m, n) ↦ ih.1 (inr (m, n))
                ],
              )
        ]

    -- The items that are left are sorted twice.
    leftover-IsRest :
        (whole part : List A)
        → IsRest hash whole part
            (sort_unstable hash (sort_unstable hash (leftover d keys hash part [] whole)))
    unfolding Holds
    leftover-IsRest whole part h =
        let left = leftover d keys hash part [] whole in
        let twice = sort_unstable-Holds hash h (sort_unstable hash left) in
        let once = sort_unstable-Holds hash h left in
        let kept = leftover-Holds part [] whole h in
        (
          λ m. elim (kept.0 (once.0 (twice.0 m))) [ inl n ↦ absurd n | inr r ↦ r ],
          λ r. twice.1 (once.1 (kept.1 (inr r))),
        )

  -- Of each kind of item, a body is the rest of another without a part of it.
  pub record IsRemainder (whole part rest : TransactionBody) : Type 0 where
    pub inputs : IsRest (input_hash d) whole.inputs part.inputs rest.inputs
    pub outputs : IsRest (output_hash d) whole.outputs part.outputs rest.outputs
    pub kernels : IsRest d.kernel whole.kernels part.kernels rest.kernels
    pub token_inputs :
        IsRest (token_input_hash d) whole.token_inputs part.token_inputs rest.token_inputs
    pub token_outputs :
        IsRest (token_output_hash d) whole.token_outputs part.token_outputs rest.token_outputs
    pub token_kernels :
        IsRest d.token_kernel whole.token_kernels part.token_kernels rest.token_kernels

  -- Deaggregating leaves, of each of the six kinds, exactly the items of the aggregate that the given
  -- transactions, aggregated, do not have.
  pub deaggregate-IsRemainder :
      (mk_tx rest : Transaction) (txs : List Transaction)
      → deaggregate d keys mk_tx txs ≡ ok rest
      → (tx : Transaction) × ((aggregate d keys txs ≡ ok tx)
          × IsRemainder mk_tx.body tx.body rest.body)
  unfolding deaggregate
  deaggregate-IsRemainder mk_tx rest txs e =
      let (tx, (e1, k1)) = bind-ok (aggregate d keys txs) _ rest e in
      let (offset, (e2, k2)) = bind-ok (remaining_offset d keys mk_tx.offset tx.offset) _ rest k1 in
      (
        tx,
        (
          e1,
          subst (λ (r : Transaction). IsRemainder mk_tx.body tx.body r.body) (ok-injective _ _ k2)
              (record {
                inputs = leftover-IsRest (input_hash d) mk_tx.body.inputs tx.body.inputs;
                outputs = leftover-IsRest (output_hash d) mk_tx.body.outputs tx.body.outputs;
                kernels = leftover-IsRest d.kernel mk_tx.body.kernels tx.body.kernels;
                token_inputs =
                    leftover-IsRest (token_input_hash d) mk_tx.body.token_inputs
                      tx.body.token_inputs;
                token_outputs =
                    leftover-IsRest (token_output_hash d) mk_tx.body.token_outputs
                      tx.body.token_outputs;
                token_kernels =
                    leftover-IsRest d.token_kernel mk_tx.body.token_kernels tx.body.token_kernels;
              }),
        ),
      )
