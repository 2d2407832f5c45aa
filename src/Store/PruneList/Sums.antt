-- ===== src/Store/PruneList/Sums.antt =====
-- A cache of shifts holds sums over the pruned roots.
use mathlib.Core.Path.{subst}
use vcash.Prelude.{
  ℕ, suc, ◌+◌, ◌-◌, ◌≤◌, ◌<◌, ◌≡◌, refl, sym, ap, ◌∙◌, ◌⊎◌, inl, inr, Bool, true, List, [], ◌∷◌,
  ◌++◌, length, length-append, get_elem?, All, filter, some, ltb, leb, ◌==◌, leb→le, le→leb,
  not_leb→lt, lt→ltb, eq→==, ==→eq, le→not_ltb, if◌then◌else◌, wrap64, arith, Bool-cases, ◌^◌,
}
use vcash.Transaction.Features.{contains}
use vcash.Transaction.Sorting.Order.{IsIncreasing, All-below}
use vcash.Store.Bitmap.{Bitmaps, IsLawful, as_u32, unwrap_or}
use vcash.Store.PruneList.{
  is_empty, is_empty_list, is_pruned_root, cached_shift, shift_loop, shifts,
}

module _ (shift : ℕ → ℕ) where
  -- The sum of the shifts of the given roots.
  abbrev pub sum_shifts : List ℕ → ℕ
  sum_shifts [] = 0
  sum_shifts (x ∷ xs) = shift x + sum_shifts xs

  -- The sums of the shifts of the first roots, from a sum before them.
  prefix_sums : ℕ → List ℕ → List ℕ
  prefix_sums acc [] = []
  prefix_sums acc (x ∷ xs) = wrap64 (acc + shift x) ∷ prefix_sums (wrap64 (acc + shift x)) xs

  length-prefix_sums : (acc : ℕ) (xs : List ℕ) → length (prefix_sums acc xs) ≡ length xs
  unfolding prefix_sums
  length-prefix_sums acc [] = refl
  length-prefix_sums acc (x ∷ xs) = ap suc (length-prefix_sums (wrap64 (acc + shift x)) xs)

  abbrev up_to : ℕ → List ℕ → List ℕ
  up_to n xs = filter (λ y. leb y n) xs

  none_up_to : (n : ℕ) (xs : List ℕ) → All (λ y. n < y) xs → up_to n xs ≡ []
  none_up_to n [] all = refl
  none_up_to n (x ∷ xs) (lt, all) = elim (Bool-cases (leb x n)) [
    | inl t ↦ absurd (omega (arith, leb→le x n t))
    | inr f ↦ rw f (none_up_to n xs all)
  ]

  wrap64-add : (a b c : ℕ) → wrap64 (wrap64 (a + b) + c) ≡ wrap64 (a + (b + c))
  wrap64-add a b c = omega arith

  first_at :
      (acc x : ℕ) (c sums : List ℕ)
      → (length c ≡ 0)
        ⊎ (get_elem? sums (length c - 1) ≡ some (wrap64 (wrap64 (acc + shift x) + sum_shifts c)))
      → get_elem? (wrap64 (acc + shift x) ∷ sums) (suc (length c) - 1)
        ≡ some (wrap64 (acc + (shift x + sum_shifts c)))
  first_at acc x [] sums h = ap some (ap wrap64 (omega arith))
  first_at acc x (y ∷ ys) sums (inl e) = absurd (omega arith)
  first_at acc x (y ∷ ys) sums (inr e) =
      let i : suc (suc (length ys)) - 1 ≡ suc (length ys) = omega arith in
      let j : length ys ≡ suc (length ys) - 1 = omega arith in
      ap (get_elem? (wrap64 (acc + shift x) ∷ sums)) i
      ∙ ap (get_elem? sums) j
      ∙ e
      ∙ ap some (wrap64-add acc (shift x) (sum_shifts (y ∷ ys)))

  -- The sum for the roots up to a position stands at their number less one.
  prefix_sums-at :
      (acc n : ℕ) (xs : List ℕ)
      → IsIncreasing xs
      → (length (up_to n xs) ≡ 0)
        ⊎ (get_elem? (prefix_sums acc xs) (length (up_to n xs) - 1)
            ≡ some (wrap64 (acc + sum_shifts (up_to n xs))))
  unfolding prefix_sums IsIncreasing
  prefix_sums-at acc n [] inc = inl refl
  prefix_sums-at acc n (x ∷ xs) (all, inc) = elim (Bool-cases (leb x n)) [
    | inr f ↦ inl (
        ap (λ (l : List ℕ). length l)
          (none_up_to n (x ∷ xs)
            (not_leb→lt x n f, All-below n x xs (omega (arith, not_leb→lt x n f)) all)))
    | inl t ↦ rw t (
        inr (
          first_at acc x (up_to n xs) (prefix_sums (wrap64 (acc + shift x)) xs)
            (prefix_sums-at (wrap64 (acc + shift x)) n xs inc)))
  ]

-- What the caches need of the bitmap: no 0, and nothing beyond 32 bits, nor the greatest number of 32
-- bits, on which `build_pruned_cache` would overflow.
pub record IsRoots (roots : List ℕ) : Type 0 where
  pub positive : All (λ x. 0 < x) roots
  pub small : All (λ x. suc x < 2 ^ 32) roots

module _ (m : Bitmaps) (laws : IsLawful m) (shift : ℕ → ℕ) where
  positive_only : (xs : List ℕ) → All (λ x. 0 < x) xs → filter (λ x. ltb 0 x) xs ≡ xs
  positive_only [] all = refl
  positive_only (x ∷ xs) (lt, all) = rw (lt→ltb 0 x lt) (ap (◌∷◌ x) (positive_only xs all))

  -- The last sum of a cache.
  last_sum : List ℕ → ℕ
  last_sum cache = unwrap_or 0 (get_elem? cache (length cache - 1))

  middle-All :
      (P : ℕ → Type 0) (done : List ℕ) (pos : ℕ) (rest : List ℕ)
      → All P (done ++ (pos ∷ rest))
      → P pos
  middle-All P [] pos rest (p, all) = p
  middle-All P (x ∷ done) pos rest (p, all) = middle-All P done pos rest all

  -- The roots before one of them.
  before_root :
      (done : List ℕ) (pos : ℕ) (rest : List ℕ)
      → IsIncreasing (done ++ (pos ∷ rest))
      → 0 < pos
      → length (filter (λ y. leb y (pos - 1)) (done ++ (pos ∷ rest))) ≡ length done
  unfolding IsIncreasing
  before_root [] pos rest (all, inc) lt =
      ap (λ (l : List ℕ). length l)
        (none_up_to shift (pos - 1) (pos ∷ rest)
          (omega arith, All-below (pos - 1) pos rest (omega arith) all))
  before_root (x ∷ done) pos rest (all, inc) lt =
      let le : x ≤ pos - 1 = omega (arith, middle-All (λ y. x < y) done pos rest all) in
      rw (le→leb x (pos - 1) le) (ap suc (before_root done pos rest inc lt))

  middle-contains :
      (done : List ℕ) (pos : ℕ) (rest : List ℕ) → contains pos (done ++ (pos ∷ rest)) ≡ true
  middle-contains [] pos rest = rw (eq→== pos pos refl) refl
  middle-contains (x ∷ done) pos rest = elim (Bool-cases (pos == x)) [
    | inl t ↦ rw t refl
    | inr f ↦ rw f (middle-contains done pos rest)
  ]

  -- The shift that is read at the number of roots up to a position.
  abbrev sum_at : List ℕ → ℕ → ℕ
  sum_at cache k = if k == 0 then 0 else unwrap_or 0 (get_elem? cache (k - 1))

  pub empty-iter : (xs : List ℕ) → is_empty_list xs ≡ true → xs ≡ []
  empty-iter [] e = refl
  empty-iter (x ∷ xs) e = absurd (cc)

  cached_shift-eq-sum_at :
      (b : m.Bitmap) (cache : List ℕ) (pos k : ℕ)
      → m.rank b (as_u32 pos) ≡ k
      → k ≤ length cache
      → cached_shift m b cache pos ≡ sum_at cache k
  unfolding cached_shift
  cached_shift-eq-sum_at b cache pos k e le = elim (Bool-cases (is_empty m b)) [
    | inl t ↦
        let none_yet : k ≡ 0 =
          sym e
          ∙ laws.rank-iter b (as_u32 pos)
          ∙ ap (λ (l : List ℕ). length (filter (λ y. leb y (as_u32 pos)) l))
              (empty-iter (m.iter b) t) in
        rw (t, eq→== k 0 none_yet) refl
    | inr f ↦ rw (f, e, le→not_ltb (length cache) k le) refl
  ]

  last_sum-eq-sum_at : (cache : List ℕ) → sum_at cache (length cache) ≡ last_sum cache
  unfolding last_sum
  last_sum-eq-sum_at [] = refl
  last_sum-eq-sum_at (x ∷ xs) = elim (Bool-cases (suc (length xs) == 0)) [
    | inl t ↦ absurd (omega (arith, ==→eq (suc (length xs)) 0 t))
    | inr f ↦ rw f refl
  ]

  get_elem?-append_one :
      (cache : List ℕ) (v : ℕ) → get_elem? (cache ++ (v ∷ [])) (length cache) ≡ some v
  get_elem?-append_one [] v = refl
  get_elem?-append_one (x ∷ xs) v = get_elem?-append_one xs v

  last_sum-append : (cache : List ℕ) (v : ℕ) → last_sum (cache ++ (v ∷ [])) ≡ v
  unfolding last_sum
  last_sum-append cache v =
      let i : length (cache ++ (v ∷ [])) - 1 ≡ length cache =
        omega (arith, length-append cache (v ∷ [])) in
      rw (i, get_elem?-append_one cache v) refl

  append_nil : (xs : List ℕ) → xs ++ [] ≡ xs
  append_nil [] = refl
  append_nil (x ∷ xs) = ap (◌∷◌ x) (append_nil xs)

  length-filter_le : (test : ℕ → Bool) (xs : List ℕ) → length (filter test xs) ≤ length xs
  length-filter_le test [] = omega arith
  length-filter_le test (x ∷ xs) = elim (Bool-cases (test x)) [
    | inl t ↦ rw t (omega (arith, length-filter_le test xs))
    | inr f ↦ rw f (omega (arith, length-filter_le test xs))
  ]

  append_one : (xs : List ℕ) (v : ℕ) (ys : List ℕ) → (xs ++ (v ∷ [])) ++ ys ≡ xs ++ (v ∷ ys)
  append_one [] v ys = refl
  append_one (x ∷ xs) v ys = ap (◌∷◌ x) (append_one xs v ys)

  shift_loop-eq-prefix_sums :
      (b : m.Bitmap) (done rest cache : List ℕ)
      → m.iter b ≡ done ++ rest
      → IsRoots rest
      → length cache ≡ length done
      → shift_loop m shift b rest cache ≡ cache ++ prefix_sums shift (last_sum cache) rest
  unfolding shift_loop prefix_sums
  shift_loop-eq-prefix_sums b done [] cache e roots len = sym (append_nil cache)
  shift_loop-eq-prefix_sums b done (pos ∷ rest) cache e roots len =
      let (lt, positive) = roots.positive in
      let (fits, small) = roots.small in
      let inc = subst (λ l. IsIncreasing l) e (laws.iter-IsIncreasing b) in
      let u32 : as_u32 (pos - 1) ≡ pos - 1 = omega arith in
      let idx : m.rank b (as_u32 (pos - 1)) ≡ length cache =
        ap (m.rank b) u32
        ∙ laws.rank-iter b (pos - 1)
        ∙ ap (λ (l : List ℕ). length (filter (λ y. leb y (pos - 1)) l)) e
        ∙ before_root done pos rest inc lt
        ∙ sym len in
      let prev : cached_shift m b cache (pos - 1) ≡ last_sum cache =
        cached_shift-eq-sum_at b cache (pos - 1) (length cache) idx (omega arith)
        ∙ last_sum-eq-sum_at cache in
      let root : is_pruned_root m pos b ≡ true =
        ap (λ x. m.has x b) (omega arith)
        ∙ laws.has-iter pos b
        ∙ ap (contains pos) e
        ∙ middle-contains done pos rest in
      let v = wrap64 (last_sum cache + shift pos) in
      let ih =
        shift_loop-eq-prefix_sums b (done ++ (pos ∷ [])) rest (cache ++ (v ∷ []))
          (e ∙ sym (append_one done pos rest)) (record { positive = positive; small = small })
          (omega (arith, len, length-append done (pos ∷ []), length-append cache (v ∷ []))) in
      rw (prev, root)
        (ih
          ∙ ap (λ w. (cache ++ (v ∷ [])) ++ prefix_sums shift w rest) (last_sum-append cache v)
          ∙ append_one cache v (prefix_sums shift v rest))

  sum_at-eq :
      (sums c : List ℕ)
      → (length c ≡ 0) ⊎ (get_elem? sums (length c - 1) ≡ some (wrap64 (0 + sum_shifts shift c)))
      → sum_at sums (length c) ≡ wrap64 (sum_shifts shift c)
  sum_at-eq sums [] h = refl
  sum_at-eq sums (y ∷ ys) (inl e) = absurd (omega arith)
  sum_at-eq sums (y ∷ ys) (inr e) = elim (Bool-cases (suc (length ys) == 0)) [
    | inl t ↦ absurd (omega (arith, ==→eq (suc (length ys)) 0 t))
    | inr f ↦ rw f (ap (unwrap_or 0) e ∙ omega arith)
  ]

  -- The cache that is built from the roots gives, at every position, the sum over the roots up to it.
  pub cached_shift-eq-sum :
      (b : m.Bitmap) (pos : ℕ)
      → IsRoots (m.iter b)
      → pos < 2 ^ 32
      → cached_shift m b (shifts m shift b) pos
        ≡ wrap64 (sum_shifts shift (filter (λ y. leb y pos) (m.iter b)))
  unfolding shifts last_sum
  cached_shift-eq-sum b pos roots fits =
      let xs = m.iter b in
      let u32 : as_u32 pos ≡ pos = omega arith in
      let built : shifts m shift b ≡ prefix_sums shift 0 xs =
        ap (λ l. shift_loop m shift b l []) (positive_only xs roots.positive)
        ∙ shift_loop-eq-prefix_sums b [] xs [] refl roots refl in
      let idx = ap (m.rank b) u32 ∙ laws.rank-iter b pos in
      let le : length (filter (λ y. leb y pos) xs) ≤ length (prefix_sums shift 0 xs) =
        omega (arith, length-filter_le (λ y. leb y pos) xs, length-prefix_sums shift 0 xs) in
      ap (λ c. cached_shift m b c pos) built
      ∙ cached_shift-eq-sum_at b (prefix_sums shift 0 xs) pos (length (filter (λ y. leb y pos) xs))
          idx le
      ∙ sum_at-eq (prefix_sums shift 0 xs) (filter (λ y. leb y pos) xs)
          (prefix_sums-at shift 0 pos xs (laws.iter-IsIncreasing b))
