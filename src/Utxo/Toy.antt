-- ===== src/Utxo/Toy.antt =====
-- A range for the tests, which gives the positions 1, 2, 3 and so on, and its laws.
use vcash.Prelude.{
  ℕ, suc, ◌≤◌, ◌<◌, ◌≡◌, refl, Bool, true, List, [], ◌∷◌, All, All-weaken, All-filter, inl, inr,
  none, some, ok, ok-injective, arith, ◌==◌, Bool-cases, ==→eq,
}
use mathlib.Core.Path.{subst}
use vcash.Prelude.Maps
use vcash.Utxo.Mmr.{Mmr, IsWritten, IsLawful}

module _ (E : Type 0) where
  pub record Range : Type 0 where
    pub elements : List (ℕ × E)
    pub last_pos : ℕ

  abbrev pub empty : Range
  empty = record { elements = []; last_pos = 0 }

  abbrev pub toy_mmr : Mmr E
  toy_mmr = record {
    M = Range;
    push = λ e x. ok (
      record { elements = Maps.insert (suc x.last_pos) e x.elements; last_pos = suc x.last_pos },
      suc x.last_pos,
    );
    prune = λ pos x.
        ok (record x { elements = Maps.erase pos x.elements }, Maps.contains_key pos x.elements);
    get_data = λ pos x. Maps.get pos x.elements;
    unpruned_size = λ x. x.last_pos;
  }

  -- The positions are those given so far.
  abbrev pub IsGiven : Range → Type 0
  IsGiven x = All (λ (e : ℕ × E). e.0 ≤ x.last_pos) x.elements

  get-beyond :
      (n pos : ℕ) (xs : List (ℕ × E))
      → All (λ (e : ℕ × E). e.0 ≤ n) xs
      → suc n ≤ pos
      → Maps.get pos xs ≡ none
  get-beyond n pos [] ps lt = refl
  get-beyond n pos ((j, v) ∷ xs) (p, ps) lt = elim (Bool-cases (j == pos)) [
    | inl here ↦ absurd (omega (arith, ==→eq j pos here))
    | inr past ↦ rw past (get-beyond n pos xs ps lt)
  ]

  kept-IsGiven :
      (n k pos : ℕ) (xs : List (ℕ × E))
      → n ≤ k
      → All (λ (e : ℕ × E). e.0 ≤ n) xs
      → All (λ (e : ℕ × E). e.0 ≤ k) (Maps.erase pos xs)
  kept-IsGiven n k pos xs le ps =
      All-weaken _ (λ (e : ℕ × E). e.0 ≤ k) (Maps.erase pos xs) (λ e p. omega (arith, p.0, le))
        (All-filter (λ (e : ℕ × E). e.0 ≤ n) _ xs ps)

  pub push_room :
      (k : ℕ) (e : E) (x y : Range) (pos : ℕ)
      → IsGiven x
      → toy_mmr.push e x ≡ ok (y, pos)
      → IsGiven y
  push_room k e x y pos given h =
      subst (λ (z : Range × ℕ). IsGiven z.0) (ok-injective _ _ h)
        (
          omega arith,
          kept-IsGiven x.last_pos (suc x.last_pos) (suc x.last_pos) x.elements (omega arith) given,
        )

  pub push_positive :
      (k : ℕ) (e : E) (x y : Range) (pos : ℕ) → IsGiven x → toy_mmr.push e x ≡ ok (y, pos) → 0 < pos
  push_positive k e x y pos given h =
      subst (λ (z : Range × ℕ). 0 < z.1) (ok-injective _ _ h) (omega arith)

  pub push_free :
      (k : ℕ) (e : E) (x y : Range) (pos : ℕ)
      → IsGiven x
      → toy_mmr.push e x ≡ ok (y, pos)
      → Maps.get pos x.elements ≡ none
  push_free k e x y pos given h =
      subst (λ (z : Range × ℕ). Maps.get z.1 x.elements ≡ none) (ok-injective _ _ h)
        (get-beyond x.last_pos (suc x.last_pos) x.elements given (omega arith))

  pub push-IsWritten :
      (k : ℕ) (e : E) (x y : Range) (pos : ℕ)
      → IsGiven x
      → toy_mmr.push e x ≡ ok (y, pos)
      → IsWritten toy_mmr pos (some e) x y
  push-IsWritten k e x y pos given h =
      subst (λ (z : Range × ℕ). IsWritten toy_mmr z.1 (some e) x z.0) (ok-injective _ _ h)
        (record {
          here = Maps.get-insert_self (suc x.last_pos) e x.elements;
          elsewhere = λ q positive ne. Maps.get-insert q (suc x.last_pos) e x.elements ne;
        })

  pub prune_room :
      (k pos : ℕ) (x y : Range) (b : Bool) → IsGiven x → toy_mmr.prune pos x ≡ ok (y, b) → IsGiven y
  prune_room k pos x y b given h =
      subst (λ (z : Range × Bool). IsGiven z.0) (ok-injective _ _ h)
        (kept-IsGiven x.last_pos x.last_pos pos x.elements (omega arith) given)

  pub prune-IsWritten :
      (k pos : ℕ) (x y : Range)
      → IsGiven x
      → toy_mmr.prune pos x ≡ ok (y, true)
      → IsWritten toy_mmr pos none x y
  prune-IsWritten k pos x y given h =
      subst (λ (z : Range × Bool). IsWritten toy_mmr pos none x z.0) (ok-injective _ _ h)
        (record {
          here = Maps.get-erase_self pos x.elements;
          elsewhere = λ q positive ne. Maps.get-erase q pos x.elements ne;
        })

  abbrev pub toy-IsLawful : IsLawful toy_mmr
  toy-IsLawful = record {
    HasRoom = λ k x. IsGiven x;
    push_room = push_room;
    push_positive = push_positive;
    push_free = push_free;
    push_written = push-IsWritten;
    prune_room = prune_room;
    prune_written = prune-IsWritten;
  }
