-- ===== src/Transaction/CutThrough/Remaining.antt =====
-- What the merge of `cut_through` leaves of two sorted lists.
use native.Mathlib.Decide.{dec_lt}
use mathlib.Core.Path.{subst}
use vcash.Prelude.{
  fail_if, ◌>>◌, ℕ, zero, suc, ◌+◌, ◌≤◌, ◌<◌, ◌≡◌, refl, sym, ap, ◌∙◌, Bool, true, false, ◌||◌,
  List, [], ◌∷◌, ◌++◌, map, length, ok, ◌==◌, if◌then◌else◌, arith, lt→ltb, le→not_ltb, ne→not_==,
  eq→==, All,
}
use vcash.Transaction.Sorting.Order.{IsIncreasing}
use vcash.Transaction.CutThrough.Merge.{merge, cut_lists-eq-merge}
use vcash.Transaction.CutThrough.{cut_lists, has_duplicates}
use vcash.Transaction.Sorting.{sort_unstable}
use vcash.Transaction.Types.{aggregation_error}

pub member : ℕ → List ℕ → Bool
member h [] = false
member h (x ∷ xs) = (h == x) || member h xs

-- The items whose hash is not among those given, in their order.
unfoldable pub without {ℓ} : {A : Type ℓ} → (A → ℕ) → List ℕ → List A → List A
without hash hs [] = []
without hash hs (x ∷ xs) =
    let rest = without hash hs xs in if member (hash x) hs then rest else x ∷ rest

member-below : (h : ℕ) (hs : List ℕ) → All (λ x. h < x) hs → member h hs ≡ false
unfolding member
member-below h [] all = refl
member-below h (x ∷ xs) (lt, all) = rw (ne→not_== h x (λ e. omega arith)) (member-below h xs all)

member-head : (h x : ℕ) (xs : List ℕ) → h ≡ x → member h (x ∷ xs) ≡ true
unfolding member
member-head h x xs e = rw (eq→== h x e) refl

module _ {ℓ} {A : Type ℓ} (hash : A → ℕ) where
  without-none : (xs : List A) → without hash [] xs ≡ xs
  unfolding without member
  without-none [] = refl
  without-none (x ∷ xs) = ap (◌∷◌ x) (without-none xs)

  -- A hash below all of the list excludes nothing.
  without-low :
      (h : ℕ) (hs : List ℕ) (xs : List A)
      → All (λ x. h < x) (map hash xs)
      → without hash (h ∷ hs) xs ≡ without hash hs xs
  unfolding without member
  without-low h hs [] all = refl
  without-low h hs (x ∷ xs) (lt, all) =
      rw (ne→not_== (hash x) h (λ e. omega arith), without-low h hs xs all) refl

  without-keep :
      (hs : List ℕ) (x : A) (xs : List A)
      → member (hash x) hs ≡ false
      → without hash hs (x ∷ xs) ≡ x ∷ without hash hs xs
  unfolding without
  without-keep hs x xs e = rw e refl

  without-cut :
      (hs : List ℕ) (x : A) (xs : List A)
      → member (hash x) hs ≡ true
      → without hash hs (x ∷ xs) ≡ without hash hs xs
  unfolding without
  without-cut hs x xs e = rw e refl

  append_one : (ks : List A) (x : A) (xs : List A) → (ks ++ (x ∷ [])) ++ xs ≡ ks ++ (x ∷ xs)
  append_one [] x xs = refl
  append_one (k ∷ ks) x xs = ap (◌∷◌ k) (append_one ks x xs)

below-All : (a b : ℕ) (hs : List ℕ) → a < b → All (λ x. b < x) hs → All (λ x. a < x) (b ∷ hs)
below-All a b hs lt all = (lt, widen hs all)
  where
    widen : (hs : List ℕ) → All (λ x. b < x) hs → All (λ x. a < x) hs
    widen [] all = tt
    widen (x ∷ xs) (p, all) = (omega arith, widen xs all)

module _ {ℓ κ} {A : Type ℓ} {B : Type κ} (input_hash : A → ℕ) (output_hash : B → ℕ)
    (mismatch : A → B → Bool) where
  -- On strictly increasing lists, where items with the same hash never mismatch, the merge succeeds
  -- and leaves in order the inputs whose hash is of no output and the outputs whose hash is of no
  -- input.
  pub merge-without :
      (fuel : ℕ) (is : List A) (os : List B) (kept_is : List A) (kept_os : List B)
      → ((i : A) (o : B) → input_hash i ≡ output_hash o → mismatch i o ≡ false)
      → length is + length os ≤ fuel
      → IsIncreasing (map input_hash is)
      → IsIncreasing (map output_hash os)
      → merge input_hash output_hash mismatch fuel is os kept_is kept_os
        ≡ ok (
          kept_is ++ without input_hash (map output_hash os) is,
          kept_os ++ without output_hash (map input_hash is) os,
        )
  unfolding merge IsIncreasing without
  merge-without zero [] [] ki ko agree le inc inc' = refl
  merge-without zero [] (o ∷ os) ki ko agree le inc inc' = absurd (omega arith)
  merge-without zero (i ∷ is) os ki ko agree le inc inc' = absurd (omega arith)
  merge-without (suc fuel) [] os ki ko agree le inc inc' =
      ap (λ l. ok (ki ++ [], ko ++ l)) (sym (without-none output_hash os))
  merge-without (suc fuel) (i ∷ is) [] ki ko agree le inc inc' =
      ap (λ l. ok (ki ++ l, ko ++ [])) (sym (without-none input_hash (i ∷ is)))
  merge-without (suc fuel) (i ∷ is) (o ∷ os) ki ko agree le (low_i, inc) (low_o, inc') =
      let a = input_hash i in
      let b = output_hash o in
      let hs = map input_hash is in
      let ks = map output_hash os in
      elim (dec_lt a b) [
        | yes lt ↦
            let over = below-All a b ks lt low_o in
            let ih =
              merge-without fuel is (o ∷ os) (ki ++ (i ∷ [])) ko agree (omega arith) inc
                (low_o, inc') in
            let left =
              append_one input_hash ki i (without input_hash (b ∷ ks) is)
              ∙ ap (λ l. ki ++ l)
                  (sym (without-keep input_hash (b ∷ ks) i is (member-below a (b ∷ ks) over))) in
            let right = ap (λ l. ko ++ l) (sym (without-low output_hash a hs (o ∷ os) over)) in
            rw (lt→ltb a b lt) (ih ∙ (λ j. ok (left j, right j)))
        | no ge ↦ elim (dec_lt b a) [
          | yes gt ↦
              let over = below-All b a hs gt low_i in
              let ih =
                merge-without fuel (i ∷ is) os ki (ko ++ (o ∷ [])) agree (omega arith) (low_i, inc)
                  inc' in
              let right =
                append_one output_hash ko o (without output_hash (a ∷ hs) os)
                ∙ ap (λ l. ko ++ l)
                    (sym (without-keep output_hash (a ∷ hs) o os (member-below b (a ∷ hs) over))) in
              let left = ap (λ l. ki ++ l) (sym (without-low input_hash b ks (i ∷ is) over)) in
              rw (le→not_ltb a b (omega arith), lt→ltb b a gt) (ih ∙ (λ j. ok (left j, right j)))
          | no le' ↦
              let e : a ≡ b = omega arith in
              let ih = merge-without fuel is os ki ko agree (omega arith) inc inc' in
              let left =
                ap (λ l. ki ++ l)
                  (sym (
                    without-cut input_hash (b ∷ ks) i is (member-head a b ks e)
                    ∙ without-low input_hash b ks is (subst (λ t. All (λ x. t < x) hs) e low_i))) in
              let right =
                ap (λ l. ko ++ l)
                  (sym (
                    without-cut output_hash (a ∷ hs) o os (member-head b a hs (sym e))
                    ∙ without-low output_hash a hs os
                        (subst (λ t. All (λ x. t < x) ks) (sym e) low_o))) in
              rw (le→not_ltb a b (omega arith), le→not_ltb b a (omega arith), agree i o e)
                (ih ∙ (λ j. ok (left j, right j)))
        ]
      ]

  no_duplicates :
      (os : List B) → IsIncreasing (map output_hash os) → has_duplicates output_hash os ≡ false
  unfolding IsIncreasing
  no_duplicates [] inc = refl
  no_duplicates (o ∷ []) inc = refl
  no_duplicates (o ∷ p ∷ os) ((lt, all), inc) =
      rw (ne→not_== (output_hash o) (output_hash p) (λ e. omega arith)) (no_duplicates (p ∷ os) inc)

  -- Where no two inputs and no two outputs have the same hash, and items with the same hash never
  -- mismatch, cutting through succeeds, and leaves in sorted order the inputs whose hash is of no
  -- output and the outputs whose hash is of no input.
  pub cut_lists-without :
      (inputs : List A) (outputs : List B)
      → ((i : A) (o : B) → input_hash i ≡ output_hash o → mismatch i o ≡ false)
      → IsIncreasing (map input_hash (sort_unstable input_hash inputs))
      → IsIncreasing (map output_hash (sort_unstable output_hash outputs))
      → cut_lists input_hash output_hash mismatch inputs outputs
        ≡ ok (
          without input_hash
              (map output_hash (sort_unstable output_hash outputs))
              (sort_unstable input_hash inputs),
          without output_hash
              (map input_hash (sort_unstable input_hash inputs))
              (sort_unstable output_hash outputs),
        )
  cut_lists-without inputs outputs agree inc inc' =
      let is = sort_unstable input_hash inputs in
      let os = sort_unstable output_hash outputs in
      cut_lists-eq-merge input_hash output_hash mismatch inputs outputs
      ∙ ap
          (λ b.
            fail_if b aggregation_error
            >> merge input_hash output_hash mismatch (length is + length os) is os [] [])
          (no_duplicates os inc')
      ∙ merge-without (length is + length os) is os [] [] agree (omega arith) inc inc'
