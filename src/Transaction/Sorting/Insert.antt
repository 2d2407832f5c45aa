-- ===== src/Transaction/Sorting/Insert.antt =====
-- Inserting into a sorted list, as the `with_*` builders of core/src/core/transaction.rs do, and sorting.
use mathlib.Core.Path.{subst}
use vcash.Prelude.{
  suc, length, ℕ, ◌∙◌, ◌<◌, ◌≤◌, ◌≡◌, sym, ◌⊎◌, inl, inr, ◌↔◌, List, [], ◌∷◌, map, ltb, ◌==◌, All,
  arith, ltb→lt, not_ltb→le, not_==→ne, ==→eq, Bool-cases,
}
use vcash.Transaction.Sorting.{search_insert}
use vcash.Transaction.Sorting.Order.{IsIncreasing, All-below}

unfoldable pub Holds : ℕ → List ℕ → Type 0
Holds h [] = ⊥
Holds h (x ∷ xs) = (h ≡ x) ⊎ Holds h xs

pub All-Holds {ℓ} : (P : ℕ → Type ℓ) (h : ℕ) (xs : List ℕ) → All P xs → Holds h xs → P h
unfolding Holds
All-Holds P h [] all m = elim m [ ]
All-Holds P h (x ∷ xs) (p, all) (inl e) = subst P (sym e) p
All-Holds P h (x ∷ xs) (p, all) (inr m) = All-Holds P h xs all m

module _ {ℓ} {A : Type ℓ} (hash : A → ℕ) where
  All-search_insert {κ} :
      (P : ℕ → Type κ) (x : A) (ys : List A)
      → P (hash x)
      → All P (map hash ys)
      → All P (map hash (search_insert hash x ys))
  unfolding search_insert
  All-search_insert P x [] p all = (p, tt)
  All-search_insert P x (y ∷ ys) p (q, all) =
      let ih = All-search_insert P x ys p all in
      elim (Bool-cases (ltb (hash y) (hash x))) [
        | inl e ↦ rw e (q, ih)
        | inr e ↦ rw e (elim (Bool-cases (hash y == hash x)) [
          | inl e' ↦ rw e' (q, all)
          | inr e' ↦ rw e' (p, (q, all))
        ])
      ]

  -- Inserting by search keeps a list strictly increasing.
  pub search_insert-IsIncreasing :
      (x : A) (ys : List A)
      → IsIncreasing (map hash ys)
      → IsIncreasing (map hash (search_insert hash x ys))
  unfolding search_insert IsIncreasing
  search_insert-IsIncreasing x [] inc = (tt, tt)
  search_insert-IsIncreasing x (y ∷ ys) (all, inc) =
      let ih = search_insert-IsIncreasing x ys inc in
      elim (Bool-cases (ltb (hash y) (hash x))) [
        | inl e ↦
            rw e (All-search_insert (λ t. hash y < t) x ys (ltb→lt (hash y) (hash x) e) all, ih)
        | inr e ↦ rw e (elim (Bool-cases (hash y == hash x)) [
          | inl e' ↦ rw e' (all, inc)
          | inr e' ↦
              let le = not_ltb→le (hash y) (hash x) e in
              let ne = not_==→ne (hash y) (hash x) e' in
              let lt : hash x < hash y = omega arith in
              rw e' ((lt, All-below (hash x) (hash y) (map hash ys) (omega arith) all), (all, inc))
        ])
      ]

  -- The inserted hash is in the result, with every hash of the list, and nothing else is.
  pub search_insert-Holds :
      (h : ℕ) (x : A) (ys : List A)
      → Holds h (map hash (search_insert hash x ys)) ↔ ((h ≡ hash x) ⊎ Holds h (map hash ys))
  unfolding search_insert Holds
  search_insert-Holds h x [] = (λ m. m, λ m. m)
  search_insert-Holds h x (y ∷ ys) =
      let ih = search_insert-Holds h x ys in
      elim (Bool-cases (ltb (hash y) (hash x))) [
        | inl e ↦ rw e (
          (elim [
            | inl m ↦ inr (inl m)
            | inr m ↦ elim (ih.0 m) [ inl k ↦ inl k | inr k ↦ inr (inr k) ]
          ]),
          elim [
            | inl m ↦ inr (ih.1 (inl m))
            | inr (inl m) ↦ inl m
            | inr (inr m) ↦ inr (ih.1 (inr m))
          ],
        )
        | inr e ↦ rw e (elim (Bool-cases (hash y == hash x)) [
          | inl e' ↦ rw e' (
            (λ m. inr m),
            elim [ inl m ↦ inl (m ∙ sym (==→eq (hash y) (hash x) e')) | inr m ↦ m ],
          )
          | inr e' ↦ rw e' (λ m. m, λ m. m)
        ])
      ]

pub length-search_insert {ℓ} :
    {A : Type ℓ} (hash : A → ℕ) (x : A) (ys : List A)
    → length (search_insert hash x ys) ≤ suc (length ys)
unfolding search_insert
length-search_insert hash x [] = omega arith
length-search_insert hash x (y ∷ ys) =
    let ih = length-search_insert hash x ys in
    elim (Bool-cases (ltb (hash y) (hash x))) [
      | inl e ↦ rw e (omega arith)
      | inr e ↦ rw e (elim (Bool-cases (hash y == hash x)) [
        | inl e' ↦ rw e' (omega arith)
        | inr e' ↦ rw e' (omega arith)
      ])
    ]
