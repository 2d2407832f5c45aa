-- ===== src/Transaction/CutThrough/Runs.antt =====
-- `cut_through` on small lists, and its theorem at one of them.
use vcash.Transaction.Sorting.Order.{IsIncreasing}
use vcash.Transaction.CutThrough.Remaining.{without, cut_lists-without}
use vcash.Prelude.{
  map, arith, ℕ, ◌≡◌, refl, Bool, false, List, [], ◌∷◌, length, ◌+◌, ok, fail_if, ◌>>◌,
}
use vcash.Transaction.Types.{aggregation_error}
use vcash.Transaction.Sorting.{sort_unstable}
use vcash.Transaction.CutThrough.{cut_lists, cut_loop, has_duplicates}
use vcash.Transaction.CutThrough.Merge.{merge, cut_lists-eq-merge}

abbrev by_value : ℕ → ℕ
by_value x = x

abbrev no_mismatch : ℕ → ℕ → Bool
no_mismatch i o = false

abbrev spent : List ℕ
spent = 8 ∷ 3 ∷ 11 ∷ []

abbrev created : List ℕ
created = 9 ∷ 8 ∷ 11 ∷ []

cut_pairs : cut_lists by_value by_value no_mismatch spent created ≡ ok (3 ∷ [], 9 ∷ [])
unfolding cut_lists cut_loop sort_unstable
cut_pairs = refl

cut_lists-eq-merge_example : cut_lists by_value by_value no_mismatch spent created ≡ (
    fail_if (has_duplicates by_value (sort_unstable by_value created)) aggregation_error
    >> merge by_value by_value no_mismatch
        (length (sort_unstable by_value spent) + length (sort_unstable by_value created))
        (sort_unstable by_value spent)
        (sort_unstable by_value created)
        []
        [])
cut_lists-eq-merge_example = cut_lists-eq-merge by_value by_value no_mismatch spent created

spent-IsIncreasing : IsIncreasing (map by_value (sort_unstable by_value spent))
unfolding IsIncreasing sort_unstable
spent-IsIncreasing = ((omega arith, (omega arith, tt)), ((omega arith, tt), (tt, tt)))

created-IsIncreasing : IsIncreasing (map by_value (sort_unstable by_value created))
unfolding IsIncreasing sort_unstable
created-IsIncreasing = ((omega arith, (omega arith, tt)), ((omega arith, tt), (tt, tt)))

cut_lists-without_example :
    cut_lists by_value by_value no_mismatch spent created
    ≡ ok (
      without by_value
          (map by_value (sort_unstable by_value created))
          (sort_unstable by_value spent),
      without by_value
          (map by_value (sort_unstable by_value spent))
          (sort_unstable by_value created),
    )
cut_lists-without_example =
    cut_lists-without by_value by_value no_mismatch spent created (λ i o e. refl) spent-IsIncreasing
      created-IsIncreasing
