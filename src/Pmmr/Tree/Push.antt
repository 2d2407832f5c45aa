-- ===== src/Pmmr/Tree/Push.antt =====
-- The loop of `push`: from the new leaf up to the last node that the leaf completes.
use native.Mathlib.Decide.{dec_lt}
use mathlib.Core.Path.{subst, ap₂}
use vcash.Prelude.{
  ℕ, zero, suc, ◌+◌, ◌*◌, ◌/◌, ◌%◌, ◌^◌, ◌≤◌, ◌<◌, ◌≡◌, refl, sym, ap, ◌∙◌, arith, u64_mod, wrap64,
  sub64, some, List, [], ◌∷◌, ◌++◌, length, get_elem?, true, false, length-append,
  get_elem?-append_left, get_elem?-append_right, pow_suc, pow_pos, pow_mono, mul_le, ok, eq→==,
  ne→not_==,
}
use vcash.Pmmr.Position.{ones, has_peak}
use vcash.Pmmr.Position.Node.{node_pos, right_child, left_child, leaf_quotient}
use vcash.Pmmr.Position.Descent.{size_of}
use vcash.Pmmr.Position.Bits.{ones_le, ones_low, ones_shift, ones_suc, ones_odd, ones_even}
use vcash.Pmmr.Backend
use vcash.Pmmr.Backend.{VecBackend, Hashing}
use vcash.Pmmr.Tree.{Pmmr, push_loop}
use vcash.Pmmr.Tree.Spec.{node_value, IsRange}

-- `size_of` grows by the nodes that a leaf completes.
pub size_of_suc :
    (n q h : ℕ)
    → n + 1 ≡ (q + 1) * 2 ^ h
    → n + 1 < u64_mod
    → size_of 64 n + h + 1 ≤ size_of 64 (n + 1)
size_of_suc n q h e low = omega (
  arith,
  ones_low h 64 n q e (omega arith),
  ones_shift h 64 (q + 1) (omega arith),
  ap (ones 64) e,
  ones_suc 64 q,
  ones_le 64 n,
  ones_le 64 (n + 1),
)

-- Where the new nodes stop: the next one would be over a leaf that is not there yet.
pub climbed :
    (n p h : ℕ)
    → n + 1 ≡ (2 * p + 1) * 2 ^ h
    → n + 1 < u64_mod
    → node_pos (2 * p) h ≡ size_of 64 (n + 1)
climbed n p h e low =
    let small : 2 * p < u64_mod = omega (arith, mul_le (2 * p + 1) (pow_pos h)) in
    omega (
      arith,
      ap (ones 64) e,
      ones_shift h 64 (2 * p + 1) (omega arith),
      ones_odd p small,
      ones_even p small,
      ones_le 64 (2 * p),
      ones_le 64 (n + 1),
      ap (λ (t : ℕ). (2 * p + 1) * t) (pow_suc h),
    )

pub same_place : (n q p h : ℕ) → n + 1 ≡ (q + 1) * 2 ^ h → n + 1 ≡ (p + 1) * 2 ^ h → p ≡ q
same_place n q p h e e' = sym (leaf_quotient n p h e') ∙ leaf_quotient n q h e

module _ {ℓ κ} {T : Type ℓ} {H : Type κ} (hs : Hashing T H) (leaf : ℕ → T) where
  -- The hashes that the loop of `push` for leaf `n` has at height `h`.
  pub record IsClimb (n h : ℕ) (hashes : List H) : Type κ where
    pub count : length hashes ≡ suc h
    pub value :
        (q k : ℕ)
        → n + 1 ≡ (q + 1) * 2 ^ k
        → k ≤ h
        → get_elem? hashes k ≡ some (node_value hs leaf q k)

  -- What the loop returns from height `h` on: it ends at a left child, with all that it completes.
  abbrev pub Climbs : ℕ → ℕ → ℕ → ℕ → Pmmr T H → List H → Type κ
  Climbs fuel n q h m hashes =
      (hashes' : List H) × (p : ℕ) × (k : ℕ) × (push_loop hs fuel n m.backend (2 ^ h) (node_pos q h)
          (node_value hs leaf q h) hashes
        ≡ ok (node_pos (2 * p) k, hashes'))
      × (n + 1 ≡ (2 * p + 1) * 2 ^ k)
      × IsClimb n k hashes'

  loop_taken :
      (fuel map peak pos : ℕ) (b : VecBackend T H) (current left : H) (hashes : List H)
      → has_peak map peak ≡ true
      → Backend.get_from_file b (sub64 (wrap64 (pos + 1)) (wrap64 (2 * peak))) ≡ some left
      → push_loop hs (suc fuel) map b peak pos current hashes
        ≡ push_loop hs fuel map b
            (wrap64 (peak * 2))
            (wrap64 (pos + 1))
            (hs.node_hash left current pos)
            (hashes ++ (hs.node_hash left current pos ∷ []))
  unfolding push_loop
  loop_taken fuel map peak pos b current left hashes there found = rw (there, found) refl

  loop_done :
      (fuel map peak pos : ℕ) (b : VecBackend T H) (current : H) (hashes : List H)
      → has_peak map peak ≡ false
      → push_loop hs (suc fuel) map b peak pos current hashes ≡ ok (pos, hashes)
  unfolding push_loop
  loop_done fuel map peak pos b current hashes gone = rw gone refl

  IsClimb-next :
      (n p h : ℕ) (hashes : List H)
      → n + 1 ≡ (p + 1) * 2 ^ suc h
      → IsClimb n h hashes
      → IsClimb n (suc h) (hashes ++ (node_value hs leaf p (suc h) ∷ []))
  IsClimb-next n p h hashes e climb = record {
    count =
        rw (length-append hashes (node_value hs leaf p (suc h) ∷ []), climb.count) (omega arith);
    value = λ q k e' le. elim (dec_lt k (suc h)) [
      | yes lt ↦
          get_elem?-append_left hashes _ k (omega (arith, climb.count))
          ∙ climb.value q k e' (omega arith)
      | no ge ↦
          let last : k ≡ suc h = omega arith in
          let top : suc h ≡ k = sym last in
          let place : p ≡ q =
            same_place n q p (suc h) (subst (λ (t : ℕ). n + 1 ≡ (q + 1) * 2 ^ t) last e') e in
          let index : k ≡ length hashes + 0 = omega (arith, climb.count) in
          let new = node_value hs leaf p (suc h) ∷ [] in
          ap (get_elem? (hashes ++ new)) index
          ∙ get_elem?-append_right hashes new 0
          ∙ ap₂ (λ (a b : ℕ). some (node_value hs leaf a b)) place top
    ];
  }

  climb_step :
      (fuel n p h : ℕ) (m : Pmmr T H) (hashes : List H)
      → IsRange hs leaf m n
      → 2 * (n + 1) < u64_mod
      → n + 1 ≡ (2 * p + 1 + 1) * 2 ^ h
      → Climbs fuel n p (suc h) m (hashes ++ (node_value hs leaf p (suc h) ∷ []))
      → Climbs (suc fuel) n (2 * p + 1) h m hashes
  climb_step fuel n p h m hashes range low e (hashes', p', k, done, e', climb) =
      (hashes', p', k, step ∙ done, e', climb)
    where
      small : 2 * p < u64_mod
      small = omega (arith, mul_le (2 * p + 1 + 1) (pow_pos h))

      whole : (p + 1) * 2 ^ suc (suc h) ≡ 2 * (n + 1)
      whole = omega (
        arith,
        e,
        ap (λ (t : ℕ). (p + 1) * t) (pow_suc (suc h)),
        ap (λ (t : ℕ). (p + 1) * t) (pow_suc h),
      )

      peak : 2 * 2 ^ h ≤ n + 1
      peak = omega (arith, e)

      up : suc (node_pos (2 * p + 1) h) ≡ node_pos p (suc h)
      up = right_child p h small

      there : has_peak n (2 ^ h) ≡ true
      there = rw (leaf_quotient n (2 * p + 1) h e) (eq→== ((2 * p + 1) % 2) 1 (omega arith))

      index : sub64 (wrap64 (node_pos (2 * p + 1) h + 1)) (wrap64 (2 * 2 ^ h)) ≡ node_pos (2 * p) h
      index = omega (arith, up, left_child p h small, whole, peak)

      hash :
          hs.node_hash
            (node_value hs leaf (2 * p) h)
            (node_value hs leaf (2 * p + 1) h)
            (node_pos (2 * p + 1) h)
          ≡ node_value hs leaf p (suc h)
      hash = ap (hs.node_hash _ _) (omega (arith, up))

      next_peak : wrap64 (2 ^ h * 2) ≡ 2 ^ suc h
      next_peak = omega (arith, pow_suc h, peak)

      next_pos : wrap64 (node_pos (2 * p + 1) h + 1) ≡ node_pos p (suc h)
      next_pos = omega (arith, up, whole)

      step :
          push_loop hs
            (suc fuel)
            n
            m.backend
            (2 ^ h)
            (node_pos (2 * p + 1) h)
            (node_value hs leaf (2 * p + 1) h)
            hashes
          ≡ push_loop hs fuel n m.backend
              (2 ^ suc h)
              (node_pos p (suc h))
              (node_value hs leaf p (suc h))
              (hashes ++ (node_value hs leaf p (suc h) ∷ []))
      step =
          loop_taken fuel n (2 ^ h) (node_pos (2 * p + 1) h) m.backend
            (node_value hs leaf (2 * p + 1) h) (node_value hs leaf (2 * p) h) hashes there
            (ap (Backend.get_from_file m.backend) index
              ∙ range.nodes (2 * p) h (omega (arith, e, pow_pos h)))
          ∙ (λ i.
              push_loop hs fuel n m.backend (next_peak i) (next_pos i) (hash i)
                (hashes ++ (hash i ∷ [])))

  pub push_loop-climb :
      (fuel n q h : ℕ) (m : Pmmr T H) (hashes : List H)
      → IsRange hs leaf m n
      → 2 * (n + 1) < u64_mod
      → n + 1 ≡ (q + 1) * 2 ^ h
      → 64 ≤ fuel + h
      → IsClimb n h hashes
      → Climbs fuel n q h m hashes
  push_loop-climb zero n q h m hashes range low e enough climb =
      absurd (
        omega
          (arith, pow_mono 64 h (omega arith), mul_le (2 ^ h) {a = 1} {b = q + 1} (omega arith)))
  push_loop-climb (suc fuel) n q h m hashes range low e enough climb =
      let p = q / 2 in
      elim (dec_lt 0 (q % 2)) [
        | yes odd ↦
            let same : 2 * p + 1 ≡ q = omega arith in
            let e' : n + 1 ≡ (2 * p + 1 + 1) * 2 ^ h =
              e ∙ ap (λ (t : ℕ). (t + 1) * 2 ^ h) (sym same) in
            let up : n + 1 ≡ (p + 1) * 2 ^ suc h =
              omega (arith, e', ap (λ (t : ℕ). (p + 1) * t) (pow_suc h)) in
            subst (λ (t : ℕ). Climbs (suc fuel) n t h m hashes) same
              (climb_step fuel n p h m hashes range low e' (
                push_loop-climb fuel n p (suc h) m (hashes ++ (node_value hs leaf p (suc h) ∷ []))
                  range low up (omega arith) (IsClimb-next n p h hashes up climb)))
        | no even ↦
            let same : 2 * p ≡ q = omega arith in
            let e' : n + 1 ≡ (2 * p + 1) * 2 ^ h = e ∙ ap (λ (t : ℕ). (t + 1) * 2 ^ h) (sym same) in
            let gone : has_peak n (2 ^ h) ≡ false =
              rw (leaf_quotient n q h e) (ne→not_== (q % 2) 1 (omega arith)) in
            subst (λ (t : ℕ). Climbs (suc fuel) n t h m hashes) same
              (hashes, p, h, loop_done fuel n (2 ^ h) _ m.backend _ hashes gone, e', climb)
      ]
