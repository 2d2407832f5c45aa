-- ===== src/Pmmr/Tree/Grow.antt =====
-- `push` on a whole range, and a range built leaf by leaf.
use native.Mathlib.Decide.{dec_lt}
use mathlib.Core.Path.{subst}
use vcash.Prelude.{
  ℕ, zero, suc, ◌+◌, ◌-◌, ◌*◌, ◌^◌, ◌≤◌, ◌<◌, ◌≡◌, refl, ap, ◌∙◌, arith, u64_mod, wrap64, some,
  List, [], ◌∷◌, ◌++◌, length, get_elem?, length-append, get_elem?-append_left,
  get_elem?-append_right, pow_suc, pow_pos, pow-add, mul_le, Result, ok, ◌>>=◌,
}
use vcash.Pmmr.Position.{peak_map_height}
use vcash.Pmmr.Position.Node.{
  node_pos, node_pos-pos, node_pos-size, last_leaf, last_leaf_lem, peak_map_height-node_pos,
  double_leaves,
}
use vcash.Pmmr.Position.Descent.{size_of}
use vcash.Pmmr.Position.Bits.{ones_le}
use vcash.Pmmr.Backend
use vcash.Pmmr.Backend.{VecBackend, Hashing, new_backend, append}
use vcash.Pmmr.Tree.{Pmmr, PmmrError, push_loop, push, new}
use vcash.Pmmr.Tree.Spec.{node_value, IsRange}
use vcash.Pmmr.Tree.Push.{size_of_suc, climbed, IsClimb, same_place, push_loop-climb}

pub size_of_mono : (d a : ℕ) → d + a < u64_mod → size_of 64 a ≤ size_of 64 (d + a)
size_of_mono zero a low = let e : zero + a ≡ a = omega arith in rw e (omega arith)
size_of_mono (suc d) a low =
    let e : suc d + a ≡ d + a + 1 = omega arith in
    rw e (
      omega (
        arith,
        size_of_mono d a (omega arith),
        size_of_suc (d + a) (d + a) 0 (omega arith) (omega arith),
      ))

-- A complete node lies within the range.
pub node_inside : (n q h : ℕ) → 2 * n < u64_mod → (q + 1) * 2 ^ h ≤ n → node_pos q h ≤ size_of 64 n
node_inside n q h low inside =
    let l = last_leaf q h in
    let e : l + 1 ≡ (q + 1) * 2 ^ h = last_leaf_lem q h in
    let d = n - (l + 1) in
    let back : d + (l + 1) ≡ n = omega (arith, e) in
    let grown : size_of 64 (l + 1) ≤ size_of 64 n =
      rw back at (size_of_mono d (l + 1) (omega (arith, e))) in
    omega (
      arith,
      grown,
      size_of_suc l q h e (omega (arith, e)),
      node_pos-size q h (omega (arith, double_leaves q h)),
    )

pub first_leaf : (n : ℕ) → node_pos n 0 ≡ size_of 64 n + 1
first_leaf n = omega (arith, ones_le 64 n)

-- No node over the last leaf is higher than a left child among them.
top_height : (n p k : ℕ) → n + 1 ≡ (2 * p + 1) * 2 ^ k → (q h : ℕ) → n + 1 ≡ (q + 1) * 2 ^ h → h ≤ k
top_height n p k e q h e' = elim (dec_lt k h) [
  | no le ↦ omega arith
  | yes above ↦
      let d = h - suc k in
      let split : 2 ^ h ≡ 2 ^ d * 2 ^ suc k =
        ap (λ (t : ℕ). 2 ^ t) (rest d above) ∙ pow-add d (suc k) in
      let x = (q + 1) * 2 ^ d in
      let whole : n + 1 ≡ 2 * x * 2 ^ k =
        e'
        ∙ omega (
          arith,
          ap (λ (t : ℕ). (q + 1) * t) split,
          ap (λ (t : ℕ). (q + 1) * 2 ^ d * t) (pow_suc k),
        ) in
      let positive : 0 < x = omega (arith, mul_le (q + 1) (pow_pos d)) in
      let back : 2 * x ≡ 2 * x - 1 + 1 = omega arith in
      let place : 2 * x - 1 ≡ 2 * p =
        same_place n (2 * p) (2 * x - 1) k e (whole ∙ ap (λ (t : ℕ). t * 2 ^ k) back) in
      absurd (omega (arith, place, positive))
]
  where
    rest : (d : ℕ) → k < h → h ≡ h - suc k + suc k
    rest d above = omega arith

module _ {ℓ κ} {T : Type ℓ} {H : Type κ} (hs : Hashing T H) (leaf : ℕ → T) where
  push_map : (n : ℕ) → 2 * (n + 1) < u64_mod → peak_map_height (node_pos n 0 - 1) ≡ (n, 0)
  push_map n low =
      let e : last_leaf n 0 ≡ n = omega arith in
      peak_map_height-node_pos n 0 (omega arith) ∙ ap (λ (t : ℕ). (t, 0)) e

  -- The range after a push that ended at height `k`.
  abbrev grown : Pmmr T H → ℕ → ℕ → List H → Pmmr T H
  grown m n pos hashes = record {
    last_pos = pos;
    backend = Backend.append (leaf n) hashes m.backend;
  }

  grown-nodes :
      (m : Pmmr T H) (n k : ℕ) (hashes : List H)
      → IsRange hs leaf m n
      → 2 * (n + 1) < u64_mod
      → IsClimb hs leaf n k hashes
      → ((q h : ℕ) → n + 1 ≡ (q + 1) * 2 ^ h → h ≤ k)
      → (q h : ℕ) → (q + 1) * 2 ^ h ≤ n + 1
      → get_elem? (m.backend.hashes ++ hashes) (node_pos q h - 1) ≡ some (node_value hs leaf q h)
  grown-nodes m n k hashes range low climb top q h inside = elim (dec_lt n ((q + 1) * 2 ^ h)) [
    | yes new_node ↦
        let e : n + 1 ≡ (q + 1) * 2 ^ h = omega arith in
        let l : last_leaf q h ≡ n = omega arith in
        let size : size_of 64 (last_leaf q h) ≡ size_of 64 n = ap (size_of 64) l in
        let index : node_pos q h - 1 ≡ length m.backend.hashes + h = omega (
          arith,
          range.stored,
          range.size,
          size,
          node_pos-size q h (omega (arith, double_leaves q h)),
        ) in
        ap (get_elem? (m.backend.hashes ++ hashes)) index
        ∙ get_elem?-append_right m.backend.hashes hashes h
        ∙ climb.value q h e (top q h e)
    | no old ↦
        get_elem?-append_left m.backend.hashes hashes (node_pos q h - 1) (
          omega (
            arith,
            range.stored,
            range.size,
            node_inside n q h (omega arith) (omega arith),
            node_pos-pos q h (omega (arith, double_leaves q h)),
          ))
        ∙ range.nodes q h (omega arith)
  ]

  start_value :
      (n q k : ℕ)
      → n + 1 ≡ (q + 1) * 2 ^ k
      → k ≤ 0
      → get_elem? (node_value hs leaf n 0 ∷ []) k ≡ some (node_value hs leaf q k)
  start_value n q zero e le = ap (λ (t : ℕ). some (node_value hs leaf t 0)) (omega arith)
  start_value n q (suc k) e le = absurd (omega arith)

  start : (n : ℕ) → IsClimb hs leaf n 0 (node_value hs leaf n 0 ∷ [])
  start n = record { count = refl; value = start_value n }

  grown-IsRange :
      (m : Pmmr T H) (n p k : ℕ) (hashes : List H)
      → 2 * (n + 1) < u64_mod
      → IsRange hs leaf m n
      → n + 1 ≡ (2 * p + 1) * 2 ^ k
      → IsClimb hs leaf n k hashes
      → IsRange hs leaf (grown m n (node_pos (2 * p) k) hashes) (n + 1)
  unfolding append
  grown-IsRange m n p k hashes low range e climb =
      let size = climbed n p k e (omega arith) in
      let l : size_of 64 (last_leaf (2 * p) k) ≡ size_of 64 n = ap (size_of 64) (omega arith) in
      let e1 : n + 1 ≡ suc n = omega arith in
      record {
        size = size;
        stored =
            length-append m.backend.hashes hashes
            ∙ omega (
              arith,
              range.stored,
              range.size,
              climb.count,
              l,
              node_pos-size (2 * p) k (omega (arith, double_leaves (2 * p) k)),
            );
        leaves = rw (range.leaves, e1) refl;
        nodes = grown-nodes m n k hashes range low climb (top_height n p k e);
      }

  push_lem :
      (m : Pmmr T H) (elmt : T) (pos n end : ℕ) (hashes : List H)
      → wrap64 (m.last_pos + 1) ≡ pos
      → peak_map_height (pos - 1) ≡ (n, 0)
      → push_loop hs 64 n m.backend 1 pos
          (hs.leaf_hash elmt (pos - 1))
          (hs.leaf_hash elmt (pos - 1) ∷ [])
        ≡ ok (end, hashes)
      → push hs m elmt
        ≡ ok (record { last_pos = end; backend = Backend.append elmt hashes m.backend }, pos)
  unfolding push
  push_lem m elmt pos n end hashes here map loop = rw (here, map, loop) refl

  -- On a range of the `n` leaves before it, with `n + 1` below 2^63, pushing leaf number `n`
  -- succeeds, returns the position of the new leaf, and leaves a range of `n + 1` leaves in which
  -- every node that they complete has the hash of its children.
  pub push-IsRange :
      (m : Pmmr T H) (n : ℕ)
      → 2 * (n + 1) < u64_mod
      → IsRange hs leaf m n
      → (m' : Pmmr T H) × (push hs m (leaf n) ≡ ok (m', node_pos n 0)) × IsRange hs leaf m' (n + 1)
  push-IsRange m n low range =
      let here : wrap64 (m.last_pos + 1) ≡ node_pos n 0 =
        omega (arith, range.size, first_leaf n, ones_le 64 n) in
      let (hashes, p, k, loop, e, climb) =
        push_loop-climb hs leaf 64 n n 0 m (node_value hs leaf n 0 ∷ []) range low (omega arith)
          (omega arith) (start n) in
      (
        grown m n (node_pos (2 * p) k) hashes,
        push_lem m (leaf n) (node_pos n 0) n (node_pos (2 * p) k) hashes here (push_map n low) loop,
        grown-IsRange m n p k hashes low range e climb,
      )

  -- `push` of each leaf in turn, from the first on.
  abbrev pub push_all : ℕ → Pmmr T H → Result PmmrError (Pmmr T H)
  push_all zero m = ok m
  push_all (suc n) m = do before ← push_all n m; (after, _) ← push hs before (leaf n); ok after

  pub empty-IsRange : IsRange hs leaf (new new_backend) 0
  empty-IsRange = record {
    size = omega arith;
    stored = refl;
    leaves = refl;
    nodes = λ q h le. absurd (omega (arith, mul_le (q + 1) (pow_pos h)));
  }

  -- From the empty range, fewer than 2^63 pushes all succeed, and the range then holds the pushed
  -- leaves in order and, at the position of each node that they complete, its Merkle hash.
  pub push_all-IsRange :
      (n : ℕ)
      → 2 * n < u64_mod
      → (m : Pmmr T H) × (push_all n (new new_backend) ≡ ok m) × IsRange hs leaf m n
  push_all-IsRange zero low = (new new_backend, refl, empty-IsRange)
  push_all-IsRange (suc n) low =
      let (before, done, range) = push_all-IsRange n (omega arith) in
      let (after, pushed, grown) = push-IsRange before n (omega arith) range in
      let e : n + 1 ≡ suc n = omega arith in
      (after, rw (done, pushed) refl, subst (IsRange hs leaf after) e grown)
