-- ===== src/Pmmr/Tree/Checked.antt =====
-- What a successful `validate` says of any range, however it came about.
use native.Mathlib.Decide.{dec_lt}
use vcash.Prelude.{
  ℕ, zero, suc, ◌+◌, ◌-◌, ◌^◌, ◌≤◌, ◌<◌, ◌≡◌, refl, sym, ap, ◌∙◌, arith, sub64, Bool, true, false,
  not, lt→ltb, some, Option, Result, ok, err, fail_if, ◌>>◌,
}
use mathlib.Core.Path.{ap₂}
use vcash.Pmmr.Position.{bintree_postorder_height}
use vcash.Pmmr.Backend.{Hashing}
use vcash.Pmmr.Tree.{
  Pmmr, PmmrError, get_hash, get_from_file, check_hashes, check_parent, validate_from, validate,
  invalid_parent,
}

module _ {ℓ κ} {T : Type ℓ} {H : Type κ} (hs : Hashing T H) (hash_eq : H → H → Bool) where
  first_ok : (a b : Result PmmrError (Unit {0})) → (a >> b) ≡ ok tt → (a ≡ ok tt) × (b ≡ ok tt)
  first_ok (ok tt) b e = (refl, e)
  first_ok (err x) b e = absurd (cc)

  passed : (b : Bool) (x : PmmrError) → fail_if (not b) x ≡ ok tt → b ≡ true
  passed true x e = refl
  passed false x e = absurd (cc)

  validate_from-each :
      (m : Pmmr T H) (rounds n k : ℕ)
      → validate_from hs hash_eq m rounds n ≡ ok tt
      → n ≤ k
      → k < n + rounds
      → check_parent hs hash_eq m k ≡ ok tt
  unfolding validate_from
  validate_from-each m zero n k e lo hi = absurd (omega arith)
  validate_from-each m (suc rounds) n k e lo hi =
      let (here, later) = first_ok (check_parent hs hash_eq m n) _ e in
      elim (dec_lt n k) [
        | yes after ↦ validate_from-each m rounds (n + 1) k later (omega arith) (omega arith)
        | no not_after ↦
            let same : n ≡ k = omega arith in ap (check_parent hs hash_eq m) (sym same) ∙ here
      ]

  hashes_agree :
      (m : Pmmr T H) (k : ℕ) (x l r : H)
      → 0 < bintree_postorder_height k
      → get_hash m k ≡ some x
      → get_from_file m (sub64 k (2 ^ bintree_postorder_height k)) ≡ some l
      → get_from_file m (k - 1) ≡ some r
      → check_parent hs hash_eq m k ≡ ok tt
      → hash_eq (hs.node_hash l r (k - 1)) x ≡ true
  unfolding check_parent
  hashes_agree m k x l r inner ex el er e =
      let tested = rw (lt→ltb 0 (bintree_postorder_height k) inner) at e in
      let place = sub64 k (2 ^ bintree_postorder_height k) in
      let known =
        ap (check_hashes hs hash_eq k (get_hash m k) (get_from_file m place)) er
        ∙ ap₂ (λ (a b : Option H). check_hashes hs hash_eq k a b (some r)) ex el in
      passed (hash_eq (hs.node_hash l r (k - 1)) x) (invalid_parent k) (sym known ∙ tested)

  -- Where `validate` succeeds, every parent in the range whose hash and whose children's hashes are
  -- all there has the hash of its two children.
  pub validate-parents :
      (m : Pmmr T H) (k : ℕ) (x l r : H)
      → validate hs hash_eq m ≡ ok tt
      → 1 ≤ k
      → k ≤ m.last_pos
      → 0 < bintree_postorder_height k
      → get_hash m k ≡ some x
      → get_from_file m (sub64 k (2 ^ bintree_postorder_height k)) ≡ some l
      → get_from_file m (k - 1) ≡ some r
      → hash_eq (hs.node_hash l r (k - 1)) x ≡ true
  unfolding validate
  validate-parents m k x l r e lo hi inner ex el er =
      hashes_agree m k x l r inner ex el er (validate_from-each m m.last_pos 1 k e lo (omega arith))
