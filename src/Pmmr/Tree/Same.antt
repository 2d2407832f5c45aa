-- ===== src/Pmmr/Tree/Same.antt =====
-- core/src/core/pmmr: ranges over leaves that agree, and what a push and a removal leave as it was.
use vcash.Prelude.{
  ℕ, zero, suc, ◌+◌, ◌-◌, ◌*◌, ◌^◌, ◌≤◌, ◌<◌, ◌≡◌, ◌≢◌, refl, ap, ◌∙◌, inl, inr, arith, true, false,
  ◌==◌, ne→not_==, eq→==, Bool-cases, some, List, [], ◌∷◌, length, get_elem?, All, ok, bind-ok,
  ok-injective, fail_if, not, wrap64,
}
use mathlib.Core.Path.{subst}
use vcash.Pmmr.Position.{peak_map_height}
use vcash.Pmmr.Position.Node.{node_pos, double_leaves}
use vcash.Pmmr.Backend
use vcash.Pmmr.Backend.{Hashing}
use vcash.Pmmr.Tree.{Pmmr, bad_mmr_size, push, push_loop}
use vcash.Pmmr.Tree.Spec.{first, node_value, IsRange}

module _ {ℓ κ} {T : Type ℓ} {H : Type κ} (hs : Hashing T H) where
  module _ (leaf leaf2 : ℕ → T) (n : ℕ) (same : (q : ℕ) → q < n → leaf q ≡ leaf2 q) where
    first-same : (k : ℕ) → k ≤ n → first leaf k ≡ first leaf2 k
    first-same zero le = refl
    first-same (suc k) le = rw (first-same k (omega arith), same k le) refl

    node_value-same :
        (h q : ℕ) → (q + 1) * 2 ^ h ≤ n → node_value hs leaf q h ≡ node_value hs leaf2 q h
    node_value-same zero q le =
        ap (λ (t : T). hs.leaf_hash t (node_pos q 0 - 1)) (same q (omega arith))
    node_value-same (suc h) q le =
        ap (λ (t : H). hs.node_hash t (node_value hs leaf (2 * q + 1) h) (node_pos q (suc h) - 1))
          (node_value-same h (2 * q) (omega (arith, double_leaves q h)))
        ∙ ap (λ (t : H). hs.node_hash (node_value hs leaf2 (2 * q) h) t (node_pos q (suc h) - 1))
            (node_value-same h (2 * q + 1) (omega (arith, double_leaves q h)))

    -- The range over one is the range over the other.
    pub IsRange-same : (m : Pmmr T H) → IsRange hs leaf m n → IsRange hs leaf2 m n
    IsRange-same m range = record {
      size = range.size;
      stored = range.stored;
      leaves = range.leaves ∙ ap some (first-same n (omega arith));
      nodes = λ q h le. range.nodes q h le ∙ ap some (node_value-same h q le);
    }

  -- A push removes nothing and brings nothing back.
  pub push-removed :
      (m m2 : Pmmr T H) (elmt : T) (pos : ℕ)
      → push hs m elmt ≡ ok (m2, pos)
      → m2.backend.removed ≡ m.backend.removed
  unfolding push Backend.append
  push-removed m m2 elmt pos e =
      let (u, (e1, k1)) =
        bind-ok
          (fail_if (not ((peak_map_height (wrap64 (m.last_pos + 1) - 1)).1 == 0))
            (bad_mmr_size (wrap64 (m.last_pos + 1) - 1)))
          _ (m2, pos) e in
      let (x, (e2, k2)) =
        bind-ok
          (push_loop hs 64 (peak_map_height (wrap64 (m.last_pos + 1) - 1)).0 m.backend 1
            (wrap64 (m.last_pos + 1)) _ _)
          _ (m2, pos) k1 in
      subst (λ (z : Pmmr T H × ℕ). z.0.backend.removed ≡ m.backend.removed) (ok-injective _ _ k2)
        refl

-- The position of an element is below the length.
pub get_elem?-lt {ℓ} :
    {A : Type ℓ} (xs : List A) (i : ℕ) (x : A) → get_elem? xs i ≡ some x → i < length xs
get_elem?-lt [] i x e = absurd (cc)
get_elem?-lt (y ∷ xs) zero x e = omega arith
get_elem?-lt (y ∷ xs) (suc i) x e = omega (arith, get_elem?-lt xs i x e)

-- A set of removed positions up to a bound has none beyond it.
pub contains-beyond :
    (p bound : ℕ) (ys : List ℕ)
    → All (λ (y : ℕ). y ≤ bound) ys
    → bound < p
    → Backend.contains p ys ≡ false
contains-beyond p bound [] all lt = refl
contains-beyond p bound (y ∷ ys) (le, all) lt =
    rw (ne→not_== p y (omega arith)) (contains-beyond p bound ys all lt)

pub contains-insert_self : (p : ℕ) (ys : List ℕ) → Backend.contains p (Backend.insert p ys) ≡ true
contains-insert_self p ys = elim (Bool-cases (Backend.contains p ys)) [
  | inl t ↦ rw t t
  | inr f ↦ rw (f, eq→== p p refl) refl
]

pub contains-insert :
    (q p : ℕ) (ys : List ℕ)
    → q ≢ p
    → Backend.contains q (Backend.insert p ys) ≡ Backend.contains q ys
contains-insert q p ys ne = elim (Bool-cases (Backend.contains p ys)) [
  | inl t ↦ rw t refl
  | inr f ↦ rw (f, ne→not_== q p ne) refl
]

pub insert-All :
    (P : ℕ → Type 0) (p : ℕ) (ys : List ℕ) → All P ys → P p → All P (Backend.insert p ys)
insert-All P p ys all here = elim (Bool-cases (Backend.contains p ys)) [
  | inl t ↦ rw t all
  | inr f ↦ rw f (here, all)
]
