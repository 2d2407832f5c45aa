-- ===== src/Transaction/Sorting/Overlap.antt =====
-- What the walk of `verify_cut_through` decides.
use native.Mathlib.Decide.{dec_lt}
use mathlib.Core.Path.{subst}
use vcash.Prelude.{
  le→not_ltb, ℕ, zero, suc, ◌+◌, ◌<◌, ◌≤◌, ◌≡◌, refl, sym, ◌∙◌, ◌⊎◌, inl, inr, ◌↔◌, List, [], ◌∷◌,
  length, ok, err, arith, lt→ltb,
}
use vcash.Transaction.Types.{cut_through_error}
use vcash.Transaction.Sorting.{walk, verify_no_overlap}
use vcash.Transaction.Sorting.Order.{IsIncreasing}
use vcash.Transaction.Sorting.Insert.{Holds, All-Holds}

unfoldable pub AreDisjoint : List ℕ → List ℕ → Type 0
AreDisjoint xs ys = (h : ℕ) → Holds h xs → Holds h ys → ⊥

low-Holds : (i o : ℕ) (os : List ℕ) → i < o → IsIncreasing (o ∷ os) → Holds i (o ∷ os) → ⊥
unfolding Holds IsIncreasing
low-Holds i o os lt (all, inc) (inl e) = absurd (omega arith)
low-Holds i o os lt (all, inc) (inr m) =
    let above = All-Holds (λ t. o < t) i os all m in absurd (omega arith)

-- The walk drops `i`, which is below all of `os`.
drop_input :
    (i o : ℕ) (is os : List ℕ)
    → i < o
    → IsIncreasing (o ∷ os)
    → AreDisjoint is (o ∷ os)
    → AreDisjoint (i ∷ is) (o ∷ os)
unfolding Holds AreDisjoint
drop_input i o is os lt inc apart h (inl e) m =
    low-Holds i o os lt inc (subst (λ t. Holds t (o ∷ os)) e m)
drop_input i o is os lt inc apart h (inr k) m = apart h k m

-- The walk drops `o`, which is below all of `is`.
drop_output :
    (i o : ℕ) (is os : List ℕ)
    → o < i
    → IsIncreasing (i ∷ is)
    → AreDisjoint (i ∷ is) os
    → AreDisjoint (i ∷ is) (o ∷ os)
unfolding Holds AreDisjoint
drop_output i o is os lt inc apart h k (inl e) =
    low-Holds o i is lt inc (subst (λ t. Holds t (i ∷ is)) e k)
drop_output i o is os lt inc apart h k (inr m) = apart h k m

-- One round of the walk, in its three cases.
walk-less :
    (fuel i o : ℕ) (is os : List ℕ)
    → i < o
    → walk (suc fuel) (i ∷ is) (o ∷ os) ≡ walk fuel is (o ∷ os)
unfolding walk
walk-less fuel i o is os lt = rw (lt→ltb i o lt) refl

walk-greater :
    (fuel i o : ℕ) (is os : List ℕ)
    → o < i
    → walk (suc fuel) (i ∷ is) (o ∷ os) ≡ walk fuel (i ∷ is) os
unfolding walk
walk-greater fuel i o is os lt = rw (le→not_ltb i o (omega arith), lt→ltb o i lt) refl

walk-equal :
    (fuel i o : ℕ) (is os : List ℕ)
    → i ≡ o
    → walk (suc fuel) (i ∷ is) (o ∷ os) ≡ err cut_through_error
unfolding walk
walk-equal fuel i o is os e = rw (le→not_ltb i o (omega arith), le→not_ltb o i (omega arith)) refl

three_way : (i o : ℕ) → (i < o) ⊎ ((o < i) ⊎ (i ≡ o))
three_way i o = elim (dec_lt i o) [
  | yes lt ↦ inl lt
  | no ge ↦ elim (dec_lt o i) [ yes gt ↦ inr (inl gt) | no le ↦ inr (inr (omega arith)) ]
]

walk_sound :
    (fuel : ℕ) (is os : List ℕ)
    → length is + length os ≤ fuel
    → IsIncreasing is
    → IsIncreasing os
    → walk fuel is os ≡ ok tt
    → AreDisjoint is os
unfolding AreDisjoint Holds IsIncreasing
walk_sound fuel [] os le inc inc' e = λ h k m. elim k [ ]
walk_sound fuel (i ∷ is) [] le inc inc' e = λ h k m. elim m [ ]
walk_sound zero (i ∷ is) (o ∷ os) le inc inc' e = absurd (omega arith)
walk_sound (suc fuel) (i ∷ is) (o ∷ os) le inc inc' e = elim (three_way i o) [
  | inl lt ↦
      drop_input i o is os lt inc' (
        walk_sound fuel is (o ∷ os) (omega arith) inc.1 inc'
          (sym (walk-less fuel i o is os lt) ∙ e))
  | inr (inl gt) ↦ drop_output i o is os gt inc (
      walk_sound fuel (i ∷ is) os (omega arith) inc inc'.1
        (sym (walk-greater fuel i o is os gt) ∙ e))
  | inr (inr eq) ↦ let clash = sym (walk-equal fuel i o is os eq) ∙ e in absurd (cc)
]

walk_complete :
    (fuel : ℕ) (is os : List ℕ)
    → length is + length os ≤ fuel
    → AreDisjoint is os
    → walk fuel is os ≡ ok tt
unfolding walk AreDisjoint Holds
walk_complete zero is os le apart = refl
walk_complete (suc fuel) [] os le apart = refl
walk_complete (suc fuel) (i ∷ is) [] le apart = refl
walk_complete (suc fuel) (i ∷ is) (o ∷ os) le apart = elim (three_way i o) [
  | inl lt ↦
      walk-less fuel i o is os lt
      ∙ walk_complete fuel is (o ∷ os) (omega arith) (λ h k m. apart h (inr k) m)
  | inr (inl gt) ↦
      walk-greater fuel i o is os gt
      ∙ walk_complete fuel (i ∷ is) os (omega arith) (λ h k m. apart h k (inr m))
  | inr (inr eq) ↦ absurd (apart i (inl refl) (inl eq))
]

-- On two strictly increasing lists of hashes, the walk of `verify_cut_through` succeeds exactly if no
-- hash is in both.
pub verify_no_overlap_iff :
    (is os : List ℕ)
    → IsIncreasing is
    → IsIncreasing os
    → (verify_no_overlap is os ≡ ok tt) ↔ AreDisjoint is os
unfolding verify_no_overlap
verify_no_overlap_iff is os inc inc' =
    (walk_sound _ is os (omega arith) inc inc', walk_complete _ is os (omega arith))
