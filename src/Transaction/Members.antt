-- ===== src/Transaction/Members.antt =====
-- The hashes that a list holds, after a search in it, an append and a sort.
use vcash.Prelude.{
  ℕ, ◌≡◌, refl, sym, ◌↔◌, ◌⊎◌, inl, inr, true, List, [], ◌∷◌, ◌++◌, map, ltb, ◌==◌, ==→eq, eq→==,
  Bool-cases,
}
use vcash.Transaction.Features.{any}
use vcash.Transaction.Sorting.{insert_sorted, sort_unstable}
use vcash.Transaction.Sorting.Insert.{Holds}

module _ {ℓ} {A : Type ℓ} (hash : A → ℕ) where
  pub any-Holds : (h : ℕ) (ys : List A) → any (λ y. hash y == h) ys ≡ true → Holds h (map hash ys)
  unfolding Holds
  any-Holds h [] e = absurd (cc)
  any-Holds h (y ∷ ys) e = elim (Bool-cases (hash y == h)) [
    | inl t ↦ inl (sym (==→eq (hash y) h t))
    | inr f ↦ inr (any-Holds h ys (rw f at e))
  ]

  pub Holds-any : (h : ℕ) (ys : List A) → Holds h (map hash ys) → any (λ y. hash y == h) ys ≡ true
  unfolding Holds
  Holds-any h [] m = elim m [ ]
  Holds-any h (y ∷ ys) (inl e) = rw (eq→== (hash y) h (sym e)) refl
  Holds-any h (y ∷ ys) (inr m) = elim (Bool-cases (hash y == h)) [
    | inl t ↦ rw t refl
    | inr f ↦ rw f (Holds-any h ys m)
  ]

  pub Holds-append :
      (h : ℕ) (xs ys : List A)
      → Holds h (map hash (xs ++ ys)) ↔ (Holds h (map hash xs) ⊎ Holds h (map hash ys))
  unfolding Holds
  Holds-append h [] ys = (λ m. inr m, elim [ inl n ↦ absurd n | inr m ↦ m ])
  Holds-append h (x ∷ xs) ys =
      let ih = Holds-append h xs ys in
      (
        elim [
          | inl e ↦ inl (inl e)
          | inr m ↦ elim (ih.0 m) [ inl k ↦ inl (inr k) | inr k ↦ inr k ]
        ],
        elim [
          | inl (inl e) ↦ inl e
          | inl (inr m) ↦ inr (ih.1 (inl m))
          | inr m ↦ inr (ih.1 (inr m))
        ],
      )

  insert_sorted-Holds :
      (h : ℕ) (x : A) (ys : List A)
      → Holds h (map hash (insert_sorted hash x ys)) ↔ ((h ≡ hash x) ⊎ Holds h (map hash ys))
  unfolding Holds
  insert_sorted-Holds h x [] = (λ m. m, λ m. m)
  insert_sorted-Holds h x (y ∷ ys) =
      let ih = insert_sorted-Holds h x ys in
      elim (Bool-cases (ltb (hash y) (hash x))) [
        | inl e ↦ rw e (
          (elim [
            | inl m ↦ inr (inl m)
            | inr m ↦ elim (ih.0 m) [ inl k ↦ inl k | inr k ↦ inr (inr k) ]
          ]),
          elim [
            | inl m ↦ inr (ih.1 (inl m))
            | inr (inl m) ↦ inl m
            | inr (inr m) ↦ inr (ih.1 (inr m))
          ],
        )
        | inr e ↦ rw e ((λ m. m), (λ m. m))
      ]

  pub sort_unstable-Holds :
      (h : ℕ) (xs : List A) → Holds h (map hash (sort_unstable hash xs)) ↔ Holds h (map hash xs)
  unfolding Holds sort_unstable
  sort_unstable-Holds h [] = (λ m. m, λ m. m)
  sort_unstable-Holds h (x ∷ xs) =
      let ih = sort_unstable-Holds h xs in
      let put = insert_sorted-Holds h x (sort_unstable hash xs) in
      (
        λ m. elim (put.0 m) [ inl e ↦ inl e | inr k ↦ inr (ih.0 k) ],
        elim [ inl e ↦ put.1 (inl e) | inr m ↦ put.1 (inr (ih.1 m)) ],
      )
