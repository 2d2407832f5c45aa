-- ===== src/Transaction/Sorting.antt =====
-- The order of the items of a body: `verify_sorted_and_unique` of core/src/ser.rs, `sort_unstable` and
-- `binary_search` as core/src/core/transaction.rs uses them, and the two-pointer walk of
-- `verify_cut_through`. Items compare by their hashes.
pub mod Order
pub mod Insert
pub mod Overlap
use vcash.Prelude.{
  ℕ, zero, suc, Bool, true, false, List, [], ◌∷◌, map, Result, ok, err, fail_if, ◌>>=◌, ◌>>◌, ltb,
  ◌==◌, if◌then◌else◌, length, ◌+◌,
}
use vcash.Transaction.Types.{SerError, sort_error, duplicate_error, TxError, cut_through_error}

-- The loop over `hashes.windows(2)`, with the hash before the window's second.
pub check_windows : ℕ → List ℕ → Result SerError (Unit {0})
check_windows h [] = ok tt
check_windows h (next ∷ rest) = do
  fail_if (ltb next h) sort_error
  fail_if (h == next) duplicate_error
  check_windows next rest

module _ {ℓ} {A : Type ℓ} (hash : A → ℕ) where
  abbrev pub check_order : List ℕ → Result SerError (Unit {0})
  check_order [] = ok tt
  check_order (h ∷ rest) = check_windows h rest

  unfoldable pub verify_sorted_and_unique : List A → Result SerError (Unit {0})
  verify_sorted_and_unique xs = check_order (map hash xs)

  -- `if let Err(e) = xs.binary_search(&x) { xs.insert(e, x) }`, on a sorted list, where the search
  -- fails exactly if no item compares equal and gives the place before the first greater item.
  pub search_insert : A → List A → List A
  search_insert x [] = x ∷ []
  search_insert x (y ∷ ys) =
      let rest = search_insert x ys in
      if ltb (hash y) (hash x) then y ∷ rest else (if hash y == hash x then y ∷ ys else x ∷ y ∷ ys)

  -- `sort_unstable`: an insertion sort by the hashes.
  abbrev pub insert_sorted : A → List A → List A
  insert_sorted x [] = x ∷ []
  insert_sorted x (y ∷ ys) =
      let rest = insert_sorted x ys in if ltb (hash y) (hash x) then y ∷ rest else x ∷ y ∷ ys

  unfoldable pub sort_unstable : List A → List A
  sort_unstable [] = []
  sort_unstable (x ∷ xs) = insert_sorted x (sort_unstable xs)

-- The loop of `verify_cut_through` over the hashes of the inputs and of the outputs that are left, on
-- the number of rounds; each round drops a hash, so their number is enough.
unfoldable pub walk : ℕ → List ℕ → List ℕ → Result TxError (Unit {0})
walk zero is os = ok tt
walk (suc fuel) [] os = ok tt
walk (suc fuel) (i ∷ is) [] = ok tt
walk (suc fuel) (i ∷ is) (o ∷ os) =
    let skip_input = walk fuel is (o ∷ os) in
    let skip_output = walk fuel (i ∷ is) os in
    if ltb i o then skip_input else (if ltb o i then skip_output else err cut_through_error)

unfoldable pub verify_no_overlap : List ℕ → List ℕ → Result TxError (Unit {0})
verify_no_overlap is os = walk (length is + length os) is os
