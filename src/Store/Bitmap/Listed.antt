-- ===== src/Store/Bitmap/Listed.antt =====
-- Bitmaps as increasing lists: what is assumed of croaring holds of them.
use vcash.Prelude.{
  ℕ, zero, suc, ◌+◌, ◌≤◌, ◌<◌, ◌≡◌, refl, sym, ap, ◌∙◌, inl, inr, Bool, true, false, not, ◌&&◌,
  ◌||◌, List, [], ◌∷◌, length, All, filter, last, ltb, leb, ◌==◌, ltb→lt, ==→eq, not_==→ne,
  if◌then◌else◌, arith, Bool-cases,
}
use vcash.Transaction.Features.{contains}
use vcash.Transaction.Sorting.Order.{IsIncreasing}
use vcash.Store.Bitmap.{Bitmaps, IsLawful, unwrap_or, positions}

head-le_last : (y : ℕ) (ys : List ℕ) → IsIncreasing (y ∷ ys) → y ≤ unwrap_or 0 (last (y ∷ ys))
unfolding IsIncreasing
head-le_last y [] inc = omega arith
head-le_last y (z ∷ zs) ((lt, all), inc) = omega (arith, head-le_last z zs inc)

pub contains-le_last :
    (x : ℕ) (xs : List ℕ) → IsIncreasing xs → contains x xs ≡ true → x ≤ unwrap_or 0 (last xs)
unfolding IsIncreasing
contains-le_last x [] inc e = absurd (cc)
contains-le_last x (y ∷ []) inc e = elim (Bool-cases (x == y)) [
  | inl t ↦ omega (arith, ==→eq x y t)
  | inr f ↦ let clash : false ≡ true = rw f at e in absurd (cc)
]
contains-le_last x (y ∷ z ∷ zs) (all, inc) e = elim (Bool-cases (x == y)) [
  | inl t ↦ omega (arith, ==→eq x y t, head-le_last y (z ∷ zs) (all, inc))
  | inr f ↦ contains-le_last x (z ∷ zs) inc (rw f at e)
]

pub first_in : (x from n : ℕ) → x ≡ from → (leb from x && ltb x (from + suc n)) ≡ true
first_in x from n e = ground arith

pub rest_in :
    (x from n : ℕ)
    → (x ≡ from → ⊥)
    → (leb (suc from) x && ltb x (suc from + n)) ≡ (leb from x && ltb x (from + suc n))
rest_in x from n ne = ground arith

filter-All : (P : ℕ → Type 0) (t : ℕ → Bool) (xs : List ℕ) → All P xs → All P (filter t xs)
filter-All P t [] all = tt
filter-All P t (x ∷ xs) (p, all) = elim (Bool-cases (t x)) [
  | inl on ↦ rw on (p, filter-All P t xs all)
  | inr off ↦ rw off (filter-All P t xs all)
]

positions-All : (b from n : ℕ) → b < from → All (λ x. b < x) (positions from n)
positions-All b from zero lt = tt
positions-All b from (suc n) lt = (lt, positions-All b (suc from) n (omega arith))

pub selected-IsIncreasing : (t : ℕ → Bool) (from n : ℕ) → IsIncreasing (filter t (positions from n))
unfolding IsIncreasing
selected-IsIncreasing t from zero = tt
selected-IsIncreasing t from (suc n) = elim (Bool-cases (t from)) [
  | inl on ↦ rw on (
    filter-All (λ x. from < x) t (positions (suc from) n)
        (positions-All from (suc from) n (omega arith)),
    selected-IsIncreasing t (suc from) n,
  )
  | inr off ↦ rw off (selected-IsIncreasing t (suc from) n)
]

and_false : (b : Bool) → (b && false) ≡ false
and_false true = refl
and_false false = refl

selected-contains :
    (t : ℕ → Bool) (x from n : ℕ)
    → contains x (filter t (positions from n)) ≡ ((leb from x && ltb x (from + n)) && t x)
selected-contains t x from zero = ap (λ g. g && t x) (no_range x from)
  where
    no_range : (x from : ℕ) → false ≡ (leb from x && ltb x (from + 0))
    no_range x from = ground arith
selected-contains t x from (suc n) =
    let ih = selected-contains t x (suc from) n in
    elim (Bool-cases (x == from)) [
      | inl here ↦
          let e = ==→eq x from here in
          elim (Bool-cases (t from)) [
            | inl on ↦
                rw (on, here) (sym (ap (λ g. g && t x) (first_in x from n e) ∙ (ap t e ∙ on)))
            | inr off ↦
                let no_more = ap t e ∙ off in
                rw off (ih ∙ rw no_more (and_false _ ∙ sym (and_false _)))
          ]
      | inr later ↦
          let same = ap (λ g. g && t x) (rest_in x from n (not_==→ne x from later)) in
          elim (Bool-cases (t from)) [
            | inl on ↦ rw (on, later) (ih ∙ same)
            | inr off ↦ rw off (ih ∙ same)
          ]
    ]

abbrev Listed : Type 0
Listed = (xs : List ℕ) × IsIncreasing xs

abbrev select : (ℕ → Bool) → ℕ → Listed
select t n = (filter t (positions 0 n), selected-IsIncreasing t 0 n)

-- More than the last element.
abbrev bound : Listed → ℕ
bound b = suc (unwrap_or 0 (last b.0))

below-bound : (x : ℕ) (b : Listed) → contains x b.0 ≡ true → x < bound b
below-bound x b e = omega (arith, contains-le_last x b.0 b.1 e)

select-contains : (t : ℕ → Bool) (n x : ℕ) → (t x ≡ true → x < n) → contains x (select t n).0 ≡ t x
select-contains t n x lt = elim (Bool-cases (t x)) [
  | inl on ↦ selected-contains t x 0 n ∙ ap (λ g. g && t x) (in_range x n (lt on))
  | inr off ↦ selected-contains t x 0 n ∙ rw off (and_false _)
]
  where
    in_range : (x n : ℕ) → x < n → (leb 0 x && ltb x (0 + n)) ≡ true
    in_range x n h = ground arith

abbrev total : List ℕ → ℕ
total [] = 0
total (x ∷ xs) = x + total xs

contains-le_total : (x : ℕ) (xs : List ℕ) → contains x xs ≡ true → x ≤ total xs
contains-le_total x [] e = absurd (cc)
contains-le_total x (y ∷ ys) e = elim (Bool-cases (x == y)) [
  | inl t ↦ omega (arith, ==→eq x y t)
  | inr f ↦ omega (arith, contains-le_total x ys (rw f at e))
]

unfoldable pub lists : Bitmaps
unfolding IsIncreasing
lists = record {
  Bitmap = Listed;
  create = ([], tt);
  iter = λ b. b.0;
  has = λ x b. contains x b.0;
  add = λ y b. select (λ x. (x == y) || contains x b.0) (suc y + bound b);
  remove = λ y b. select (λ x. not (x == y) && contains x b.0) (bound b);
  rank = λ b x. length (filter (λ y. leb y x) b.0);
  maximum = λ b. last b.0;
  remove_range_closed =
      λ from to b. select (λ x. not (leb from x && leb x to) && contains x b.0) (bound b);
  or_inplace = λ a b. select (λ x. contains x a.0 || contains x b.0) (bound a + bound b);
  and = λ a b. select (λ x. contains x a.0 && contains x b.0) (bound a);
  flip = λ from to b.
      select (λ x. if leb from x && ltb x to then not (contains x b.0) else contains x b.0)
        (to + bound b);
  from_iter = λ xs. select (λ x. contains x xs) (suc (total xs));
}

or_cases :
    (a b : Bool) (x n : ℕ) → (a ≡ true → x < n) → (b ≡ true → x < n) → (a || b) ≡ true → x < n
or_cases true b x n f g e = f refl
or_cases false b x n f g e = g e

and_right : (a b : Bool) → (a && b) ≡ true → b ≡ true
and_right true b e = e
and_right false b e = absurd (cc)

and_left : (a b : Bool) → (a && b) ≡ true → a ≡ true
and_left true b e = refl
and_left false b e = absurd (cc)

flip-below :
    (x from to : ℕ) (b : Listed)
    → (if leb from x && ltb x to then not (contains x b.0) else contains x b.0) ≡ true
    → x < to + bound b
flip-below x from to b e = elim (Bool-cases (leb from x && ltb x to)) [
  | inl t ↦ omega (arith, ltb→lt x to (and_right (leb from x) (ltb x to) t))
  | inr f ↦ omega (arith, below-bound x b (rw f at e))
]

pub lists-IsLawful : IsLawful lists
unfolding lists
lists-IsLawful = record {
  iter-IsIncreasing = λ b. b.1;
  has-iter = λ x b. refl;
  has-create = λ x. refl;
  has-add = λ x y b.
      select-contains (λ z. (z == y) || contains z b.0) (suc y + bound b) x
        (or_cases (x == y) (contains x b.0) x (suc y + bound b) (λ e. omega (arith, ==→eq x y e))
          (λ e. omega (arith, below-bound x b e)));
  has-remove = λ x y b.
      select-contains (λ z. not (z == y) && contains z b.0) (bound b) x
        (λ e. below-bound x b (and_right (not (x == y)) (contains x b.0) e));
  rank-iter = λ b x. refl;
  maximum-iter = λ b. refl;
  has-remove_range = λ x from to b.
      select-contains (λ z. not (leb from z && leb z to) && contains z b.0) (bound b) x
        (λ e. below-bound x b (and_right (not (leb from x && leb x to)) (contains x b.0) e));
  has-or = λ x a b.
      select-contains (λ z. contains z a.0 || contains z b.0) (bound a + bound b) x
        (or_cases (contains x a.0) (contains x b.0) x (bound a + bound b)
          (λ e. omega (arith, below-bound x a e)) (λ e. omega (arith, below-bound x b e)));
  has-and = λ x a b.
      select-contains (λ z. contains z a.0 && contains z b.0) (bound a) x
        (λ e. below-bound x a (and_left (contains x a.0) (contains x b.0) e));
  has-flip = λ x from to b.
      select-contains (λ z. if leb from z && ltb z to then not (contains z b.0) else contains z b.0)
        (to + bound b) x (flip-below x from to b);
  has-from_iter = λ x xs.
      select-contains (λ z. contains z xs) (suc (total xs)) x
        (λ e. omega (arith, contains-le_total x xs e));
}
