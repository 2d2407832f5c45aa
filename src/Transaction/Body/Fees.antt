-- ===== src/Transaction/Body/Fees.antt =====
-- The fee and the lock height of a body.
use native.Mathlib.Decide.{dec_lt}
use mathlib.Core.Path.{subst}
use vcash.Transaction.Sorting.Insert.{Holds}
use vcash.Prelude.{
  sym, ℕ, ◌+◌, ◌-◌, ◌≤◌, ◌<◌, ◌≡◌, refl, ◌∙◌, ◌⊎◌, inl, inr, Bool-cases, List, [], ◌∷◌, map, min,
  max, All, Option, none, some, arith, u64_mod, saturating_add64, ltb, ltb→lt, not_ltb→le,
}
use vcash.Transaction.Types.{TransactionBody, TxKernel, TokenTxKernel}
use vcash.Transaction.Body.{
  fee, fold_fees, fee_of, add_fee, lock_height, lock_of, token_lock_of, max_of,
}

abbrev fee_or_zero : Option ℕ → ℕ
fee_or_zero none = 0
fee_or_zero (some f) = f

-- The fees of the kernels that carry one, summed without a bound.
pub sum_fees : List TxKernel → ℕ
sum_fees [] = 0
sum_fees (k ∷ ks) = fee_or_zero (fee_of k.features) + sum_fees ks

fold_step :
    (total : ℕ) (f : Option ℕ) (ks : List TxKernel)
    → total < u64_mod
    → ((next : ℕ) → next < u64_mod → fold_fees next ks ≡ min (next + sum_fees ks) (u64_mod - 1))
    → fold_fees (add_fee total f) ks ≡ min (total + (fee_or_zero f + sum_fees ks)) (u64_mod - 1)
fold_step total none ks lt ih = ih total lt ∙ omega arith
fold_step total (some f) ks lt ih = ih (saturating_add64 total f) (omega arith) ∙ omega arith

fold_fees_lem :
    (total : ℕ) (ks : List TxKernel)
    → total < u64_mod
    → fold_fees total ks ≡ min (total + sum_fees ks) (u64_mod - 1)
unfolding fold_fees sum_fees
fold_fees_lem total [] lt = omega arith
fold_fees_lem total (k ∷ ks) lt =
    fold_step total (fee_of k.features) ks lt (λ next. fold_fees_lem next ks)

-- The fee of a body is the sum of its kernels' fees, or the largest 64-bit word where the sum is
-- above it.
pub fee-eq-sum_fees :
    (body : TransactionBody) → fee body ≡ min (sum_fees body.kernels) (u64_mod - 1)
unfolding fee
fee-eq-sum_fees body = fold_fees_lem 0 body.kernels (omega arith) ∙ omega arith

widen : (a m : ℕ) (xs : List ℕ) → m ≤ a → All (λ x. x ≤ m) xs → All (λ x. x ≤ a) xs
widen a m [] le all = tt
widen a m (x ∷ xs) le (p, all) = (omega arith, widen a m xs le all)

max_of-above : (xs : List ℕ) → All (λ x. x ≤ max_of xs) xs
max_of-above [] = tt
max_of-above (x ∷ xs) =
    (omega arith, widen (max x (max_of xs)) (max_of xs) xs (omega arith) (max_of-above xs))

max_of-Holds : (xs : List ℕ) → (max_of xs ≡ 0) ⊎ Holds (max_of xs) xs
unfolding Holds
max_of-Holds [] = inl refl
max_of-Holds (x ∷ xs) = elim (dec_lt (max_of xs) x) [
  | yes lt ↦ inr (inl (omega arith))
  | no ge ↦
      let e : max x (max_of xs) ≡ max_of xs = omega arith in
      elim (max_of-Holds xs) [
        | inl z ↦ inl (e ∙ z)
        | inr m ↦ inr (inr (subst (λ t. Holds t xs) (sym e) m))
      ]
]

abbrev pub kernel_locks : TransactionBody → List ℕ
kernel_locks body = map (λ (k : TxKernel). lock_of k.features) body.kernels

abbrev pub token_kernel_locks : TransactionBody → List ℕ
token_kernel_locks body = map (λ (k : TokenTxKernel). token_lock_of k.features) body.token_kernels

-- The lock height of a body is the least one that no lock height of its kernels and token kernels is
-- above: all are at most it, and it is one of them or 0.
pub lock_height-least :
    (body : TransactionBody)
    → All (λ x. x ≤ lock_height body) (kernel_locks body)
      × (All (λ x. x ≤ lock_height body) (token_kernel_locks body)
          × ((lock_height body ≡ 0)
              ⊎ (Holds (lock_height body) (kernel_locks body)
                  ⊎ Holds (lock_height body) (token_kernel_locks body))))
unfolding lock_height
lock_height-least body =
    let ks = kernel_locks body in
    let ts = token_kernel_locks body in
    elim (Bool-cases (ltb (max_of ts) (max_of ks))) [
      | inl e ↦
          let lt = ltb→lt (max_of ts) (max_of ks) e in
          rw e (
            max_of-above ks,
            (
              widen (max_of ks) (max_of ts) ts (omega arith) (max_of-above ts),
              elim (max_of-Holds ks) [ inl z ↦ inl z | inr m ↦ inr (inl m) ],
            ),
          )
      | inr e ↦
          let le = not_ltb→le (max_of ts) (max_of ks) e in
          rw e (
            widen (max_of ts) (max_of ks) ks le (max_of-above ks),
            (max_of-above ts, elim (max_of-Holds ts) [ inl z ↦ inl z | inr m ↦ inr (inr m) ]),
          )
    ]
