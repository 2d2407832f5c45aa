-- ===== src/Transaction/Sorting/Order.antt =====
-- What `verify_sorted_and_unique` decides.
use vcash.Prelude.{
  ℕ, ◌<◌, ◌≤◌, ◌≡◌, refl, ◌↔◌, Bool, true, false, List, [], ◌∷◌, map, Result, ok, fail_if, ◌>>◌,
  ltb, ◌==◌, All, arith, le→not_ltb, not_ltb→le, not_==→ne, ne→not_==,
}
use vcash.Transaction.Types.{sort_error, duplicate_error}
use vcash.Transaction.Sorting.{check_windows, verify_sorted_and_unique}

-- Strictly increasing: every hash is below all that follow it.
unfoldable pub IsIncreasing : List ℕ → Type 0
IsIncreasing [] = Unit
IsIncreasing (h ∷ hs) = All (λ x. h < x) hs × IsIncreasing hs

pub All-below : (a b : ℕ) (hs : List ℕ) → a ≤ b → All (λ x. b < x) hs → All (λ x. a < x) hs
All-below a b [] le all = tt
All-below a b (x ∷ hs) le (lt, all) = (omega arith, All-below a b hs le all)

fail_if-ok :
    {E : Type 0} (b : Bool) (e : E) (k : Result E (Unit {0}))
    → (fail_if b e >> k) ≡ ok tt
    → (b ≡ false) × (k ≡ ok tt)
fail_if-ok true e k h = absurd (cc)
fail_if-ok false e k h = (refl, h)

windows-IsIncreasing : (h : ℕ) (hs : List ℕ) → check_windows h hs ≡ ok tt → IsIncreasing (h ∷ hs)
unfolding check_windows IsIncreasing
windows-IsIncreasing h [] e = (tt, tt)
windows-IsIncreasing h (n ∷ hs) e =
    let (sorted, e1) = fail_if-ok (ltb n h) sort_error _ e in
    let (unique, e2) = fail_if-ok (h == n) duplicate_error _ e1 in
    let ih = windows-IsIncreasing n hs e2 in
    let le : h ≤ n = not_ltb→le n h sorted in
    let ne = not_==→ne h n unique in ((omega arith, All-below h n hs le ih.0), ih)

IsIncreasing-windows : (h : ℕ) (hs : List ℕ) → IsIncreasing (h ∷ hs) → check_windows h hs ≡ ok tt
unfolding check_windows IsIncreasing
IsIncreasing-windows h [] inc = refl
IsIncreasing-windows h (n ∷ hs) ((lt, all), inc) =
    rw (le→not_ltb n h (omega arith), ne→not_== h n (λ e. omega arith))
      (IsIncreasing-windows n hs inc)

module _ {ℓ} {A : Type ℓ} (hash : A → ℕ) where
  -- `verify_sorted_and_unique` succeeds exactly on the lists in which the hash of every item is
  -- below the hashes of all items after it; in particular, no two items have the same hash.
  pub verify_sorted_and_unique_iff :
      (xs : List A) → (verify_sorted_and_unique hash xs ≡ ok tt) ↔ IsIncreasing (map hash xs)
  unfolding IsIncreasing verify_sorted_and_unique
  verify_sorted_and_unique_iff [] = ((λ _. tt), λ _. refl)
  verify_sorted_and_unique_iff (x ∷ xs) =
      (windows-IsIncreasing (hash x) (map hash xs), IsIncreasing-windows (hash x) (map hash xs))
