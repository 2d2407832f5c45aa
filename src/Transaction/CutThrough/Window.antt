-- ===== src/Transaction/CutThrough/Window.antt =====
-- A vector in the middle of the loop of `cut_through`: what was kept, `n` places of no interest, and
-- what is still to come.
use vcash.Prelude.{
  ℕ, suc, ◌+◌, ◌≡◌, refl, sym, ap, ◌∙◌, List, [], ◌∷◌, ◌++◌, take, get_elem?, length, length-append,
  get_elem?-append_right, take-length_append, arith,
}
use vcash.Transaction.CutThrough.{set_at, drop, drain}

pub record Window {ℓ} {A : Type ℓ} (xs : List A) (kept : List A) (n : ℕ) (rest : List A)
    : Type ℓ where
  pub junk : List A
  pub shape : xs ≡ kept ++ (junk ++ rest)
  pub count : length junk ≡ n

module _ {ℓ} {A : Type ℓ} where
  append_assoc : (xs ys zs : List A) → (xs ++ ys) ++ zs ≡ xs ++ (ys ++ zs)
  append_assoc [] ys zs = refl
  append_assoc (x ∷ xs) ys zs = ap (◌∷◌ x) (append_assoc xs ys zs)

  append_nil : (xs : List A) → xs ++ [] ≡ xs
  append_nil [] = refl
  append_nil (x ∷ xs) = ap (◌∷◌ x) (append_nil xs)

  drop-append : (xs ys : List A) → drop (length xs) (xs ++ ys) ≡ ys
  drop-append [] ys = refl
  drop-append (x ∷ xs) ys = drop-append xs ys

  set_at-append : (xs ys : List A) (x : A) → set_at (length xs) x (xs ++ ys) ≡ xs ++ set_at 0 x ys
  set_at-append [] ys x = refl
  set_at-append (y ∷ xs) ys x = ap (◌∷◌ y) (set_at-append xs ys x)

  -- The place after the kept items is free for the next one.
  pub next_place : List A → A → List A
  next_place [] x = []
  next_place (j ∷ js) x = js ++ (x ∷ [])

  set_at-junk :
      (junk rest : List A) (x : A)
      → set_at 0 x (junk ++ (x ∷ rest)) ≡ x ∷ (next_place junk x ++ rest)
  unfolding next_place
  set_at-junk [] rest x = refl
  set_at-junk (j ∷ js) rest x = ap (◌∷◌ x) (sym (append_assoc js (x ∷ []) rest))

  length-next_place : (junk : List A) (x : A) → length (next_place junk x) ≡ length junk
  unfolding next_place
  length-next_place [] x = refl
  length-next_place (j ∷ js) x = omega (arith, length-append js (x ∷ []))

  -- The item at the index of the loop is the first of the rest.
  pub get_elem?-Window :
      (xs kept rest : List A) (n : ℕ)
      → Window xs kept n rest
      → get_elem? xs (length kept + n) ≡ get_elem? rest 0
  get_elem?-Window xs kept rest n w =
      let e1 = ap (λ l. get_elem? l (length kept + n)) w.shape in
      let e2 = ap (λ k. get_elem? (kept ++ (w.junk ++ rest)) (length kept + k)) (sym w.count) in
      let e3 = get_elem?-append_right kept (w.junk ++ rest) (length w.junk) in
      let i : length w.junk ≡ length w.junk + 0 = omega arith in
      let e4 = ap (get_elem? (w.junk ++ rest)) i in
      e1 ∙ e2 ∙ e3 ∙ e4 ∙ get_elem?-append_right w.junk rest 0

  -- Copying it to the first free place keeps it.
  pub keep-Window :
      (xs kept rest : List A) (x : A) (n : ℕ)
      → Window xs kept n (x ∷ rest)
      → Window (set_at (length kept) x xs) (kept ++ (x ∷ [])) n rest
  keep-Window xs kept rest x n w = record {
    junk = next_place w.junk x;
    shape =
        ap (set_at (length kept) x) w.shape
        ∙ set_at-append kept (w.junk ++ (x ∷ rest)) x
        ∙ ap (λ l. kept ++ l) (set_at-junk w.junk rest x)
        ∙ sym (append_assoc kept (x ∷ []) (next_place w.junk x ++ rest));
    count = length-next_place w.junk x ∙ w.count;
  }

  -- Passing it over leaves one place more.
  pub cut-Window :
      (xs kept rest : List A) (x : A) (n : ℕ)
      → Window xs kept n (x ∷ rest)
      → Window xs kept (suc n) rest
  cut-Window xs kept rest x n w = record {
    junk = w.junk ++ (x ∷ []);
    shape = w.shape ∙ ap (λ l. kept ++ l) (sym (append_assoc w.junk (x ∷ []) rest));
    count = omega (arith, length-append w.junk (x ∷ []), w.count);
  }

  -- The `drain` after the loop takes out exactly the places of no interest.
  pub drain-Window :
      (xs kept rest : List A) (n : ℕ)
      → Window xs kept n rest
      → drain (length kept) (length kept + n) xs ≡ kept ++ rest
  drain-Window xs kept rest n w =
      let before = ap (take (length kept)) w.shape ∙ take-length_append kept (w.junk ++ rest) in
      let len : length (kept ++ w.junk) ≡ length kept + n =
        omega (arith, length-append kept w.junk, w.count) in
      let after =
        ap (λ l. drop (length kept + n) l) (w.shape ∙ sym (append_assoc kept w.junk rest))
        ∙ ap (λ k. drop k ((kept ++ w.junk) ++ rest)) (sym len)
        ∙ drop-append (kept ++ w.junk) rest in
      λ i. before i ++ after i

  pub whole-Window : (xs : List A) → Window xs [] 0 xs
  whole-Window xs = record { junk = []; shape = refl; count = refl }
