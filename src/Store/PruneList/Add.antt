-- ===== src/Store/PruneList/Add.antt =====
-- Adding a position to a prune list comes to an end.
use mathlib.Core.Path.{subst}
use vcash.Prelude.{
  ℕ, zero, suc, ◌+◌, ◌-◌, ◌*◌, ◌/◌, ◌%◌, ◌^◌, ◌≤◌, ◌<◌, ◌≡◌, refl, sym, ap, ◌∙◌, ◌⊎◌, inl, inr,
  Bool, true, false, not, ◌&&◌, ◌||◌, Option, leb, leb→le, not_leb→lt, some, ◌==◌, ==→eq, eq→==,
  not_==→ne, u64_mod, arith, Bool-cases, pow_pos, pow_suc, pow_mono,
}
use vcash.Pmmr.Position.Node.{
  node_pos, node_pos-pos, place-lt, left_child, right_child, bintree_postorder_height-total,
}
use vcash.Pmmr.Position.Family.{family-node_pos, sibling, children_fit}
use vcash.Store.Bitmap.{Bitmaps, IsLawful, as_u32}
use vcash.Store.PruneList.{PruneList, add, add_loop, is_pruned}

pow_le-node_pos : (q h : ℕ) → node_pos q h < u64_mod → 2 ^ h ≤ node_pos q h
pow_le-node_pos q zero fits = omega (arith, node_pos-pos q 0 fits)
pow_le-node_pos q (suc h) fits = omega (arith, left_child q h (children_fit q h fits), pow_suc h)

-- The parent and the sibling of a node, by the side on which it stands.
parent-sibling :
    (q h : ℕ)
    → node_pos q h < u64_mod
    → ((node_pos (sibling q) h + 1 ≡ node_pos (q / 2) (suc h))
        × (node_pos (q / 2) (suc h) ≡ node_pos q h + 2 * 2 ^ h))
      ⊎ ((node_pos q h + 1 ≡ node_pos (q / 2) (suc h)) × (node_pos (sibling q) h < node_pos q h))
parent-sibling q h fits = elim (Bool-cases (q % 2 == 1)) [
  | inl odd ↦
      let one : q % 2 ≡ 1 = ==→eq (q % 2) 1 odd in
      let same : 2 * (q / 2) + 1 ≡ q = omega arith in
      let before : 2 * (q / 2) ≡ q - 1 = omega arith in
      let small : 2 * (q / 2) < u64_mod = omega (arith, place-lt q h fits) in
      let here : node_pos (2 * (q / 2) + 1) h ≡ node_pos q h = ap (λ t. node_pos t h) same in
      let there : node_pos (2 * (q / 2)) h ≡ node_pos (q - 1) h = ap (λ t. node_pos t h) before in
      inr (
        omega (arith, right_child (q / 2) h small, here),
        rw odd (
            omega (
              arith,
              left_child (q / 2) h small,
              right_child (q / 2) h small,
              here,
              there,
              pow_pos h,
            )),
      )
  | inr even ↦
      let zero : q % 2 ≡ 0 = omega (arith, not_==→ne (q % 2) 1 even) in
      let same : 2 * (q / 2) ≡ q = omega arith in
      let after : 2 * (q / 2) + 1 ≡ q + 1 = omega arith in
      let small : 2 * (q / 2) < u64_mod = omega (arith, place-lt q h fits) in
      let here : node_pos (2 * (q / 2)) h ≡ node_pos q h = ap (λ t. node_pos t h) same in
      let there : node_pos (2 * (q / 2) + 1) h ≡ node_pos (q + 1) h =
        ap (λ t. node_pos t h) after in
      inl (
        rw even (omega (arith, right_child (q / 2) h small, there)),
        omega (arith, left_child (q / 2) h small, here),
      )
]

height_top : (q h : ℕ) → node_pos q h < u64_mod → node_pos q h ≤ 2 ^ 30 → h ≤ 31
height_top q h fits le = elim (Bool-cases (leb h 31)) [
  | inl t ↦ leb→le h 31 t
  | inr f ↦
      absurd
        (omega (arith, pow_le-node_pos q h fits, pow_mono 32 h (omega (arith, not_leb→lt h 31 f))))
]

height_le : (q h : ℕ) → node_pos q h < u64_mod → node_pos q h ≤ 2 ^ 30 + h → h ≤ 31 → h ≤ 30
height_le q h fits le top = elim (Bool-cases (leb h 30)) [
  | inl t ↦ leb→le h 30 t
  | inr f ↦
      absurd
        (omega (arith, pow_le-node_pos q h fits, pow_mono 31 h (omega (arith, not_leb→lt h 30 f))))
]

module _ (m : Bitmaps) where
  -- No position beyond `n` in the bitmap or the cache.
  unfoldable pub IsWithin : ℕ → PruneList m → Type 0
  IsWithin n p = (x : ℕ) → (m.has x p.bitmap || m.has x p.pruned_cache) ≡ true → x ≤ n

  -- The loop ends with a list in which the position is pruned, and all that was pruned before.
  pub IsAdded : ℕ → PruneList m → Option (PruneList m) → Type 0
  IsAdded pos p r =
      (q : PruneList m) × ((r ≡ some q)
        × ((is_pruned m pos q ≡ true)
            × ((x : ℕ) → m.has x p.pruned_cache ≡ true → m.has x q.pruned_cache ≡ true)))

module _ (m : Bitmaps) (laws : IsLawful m) where
  or_right : (a : Bool) → (a || true) ≡ true
  or_right true = refl
  or_right false = refl

  has_kept : (x y : ℕ) (b : m.Bitmap) → m.has x b ≡ true → m.has x (m.add y b) ≡ true
  has_kept x y b e = laws.has-add x y b ∙ ap (◌||◌ (x == y)) e ∙ or_right (x == y)

  has_added : (x : ℕ) (b : m.Bitmap) → m.has x (m.add x b) ≡ true
  has_added x b = laws.has-add x x b ∙ ap (λ g. g || m.has x b) (eq→== x x refl)

  climbed : ℕ → ℕ → PruneList m → PruneList m
  climbed current sib p = record p {
    bitmap = m.remove sib p.bitmap;
    pruned_cache = m.add current p.pruned_cache;
  }

  member_cases :
      (k b e c : Bool) → ((not k && b) || (e || c)) ≡ true → (e ≡ true) ⊎ ((b || c) ≡ true)
  member_cases k b true c h = inl refl
  member_cases k true false c h = inr refl
  member_cases true false false c h = inr h
  member_cases false false false c h = inr h

  climbed-IsWithin :
      (n k current sib : ℕ) (p : PruneList m)
      → n ≤ k
      → IsWithin m n p
      → current ≤ n
      → IsWithin m k (climbed current sib p)
  unfolding IsWithin climbed
  climbed-IsWithin n k current sib p wide within le x e =
      let removed = laws.has-remove x sib p.bitmap in
      let added = laws.has-add x current p.pruned_cache in
      elim (member_cases (x == sib) (m.has x p.bitmap) (x == current) (m.has x p.pruned_cache)
        (rw (removed, added) at e)) [
          | inl here ↦ omega (arith, ==→eq x current here)
          | inr there ↦ omega (arith, within x there)
        ]

  -- The last round: the position is put into both bitmaps.
  stored-IsAdded :
      (current : ℕ) (p : PruneList m)
      → as_u32 current ≡ current
      → IsAdded m current p (
          some (record p {
            bitmap = m.add (as_u32 current) p.bitmap;
            pruned_cache = m.add (as_u32 current) p.pruned_cache;
          }))
  unfolding IsAdded
  stored-IsAdded current p u32 = (
    _,
    (
      refl,
      (
        has_added (as_u32 current) p.pruned_cache,
        λ x e. has_kept x (as_u32 current) p.pruned_cache e,
      ),
    ),
  )

  -- A round before it.
  climbed-IsAdded :
      (current parent sib : ℕ) (p : PruneList m) (r : Option (PruneList m))
      → as_u32 current ≡ current
      → IsAdded m parent (climbed current sib p) r
      → IsAdded m current p r
  unfolding IsAdded climbed
  climbed-IsAdded current parent sib p r u32 (q, (e, (pruned, keeps))) = (
    q,
    (
      e,
      (
        keeps (as_u32 current) (
            ap (λ x. m.has x (m.add current p.pruned_cache)) u32
            ∙ has_added current p.pruned_cache),
        λ x h. keeps x (has_kept x current p.pruned_cache h),
      ),
    ),
  )

  add_loop-IsAdded :
      (fuel q h : ℕ) (p : PruneList m)
      → node_pos q h ≤ 2 ^ 30 + h
      → h ≤ 31
      → 32 ≤ fuel + h
      → IsWithin m (2 ^ 30 + h) p
      → IsAdded m (node_pos q h) p (add_loop m fuel (node_pos q h) p)
  unfolding add_loop IsWithin climbed
  add_loop-IsAdded zero q h p le top enough within = absurd (omega arith)
  add_loop-IsAdded (suc fuel) q h p le top enough within =
      let current = node_pos q h in
      let parent = node_pos (q / 2) (suc h) in
      let sib = node_pos (sibling q) h in
      let fits : current < u64_mod = omega arith in
      let low = height_le q h fits le top in
      let width : 2 * 2 ^ h ≤ 2 ^ 31 = omega (arith, pow_mono h 30 low) in
      let sides = parent-sibling q h fits in
      let parent_fits : parent < u64_mod = elim sides [
        | inl s ↦ omega (arith, s.1)
        | inr s ↦ omega (arith, s.0)
      ] in
      let sib_fits : sib < 2 ^ 32 = elim sides [
        | inl s ↦ omega (arith, s.0, s.1)
        | inr s ↦ omega (arith, s.1)
      ] in
      let u32 : as_u32 current ≡ current = omega arith in
      let sib32 : as_u32 sib ≡ sib = omega arith in
      let fam = family-node_pos q h parent_fits in
      elim (Bool-cases (m.has sib p.bitmap || m.has sib p.pruned_cache)) [
        | inl pair ↦
            let up : parent ≤ 2 ^ 30 + suc h = elim sides [
              | inl s ↦ omega (arith, s.0, within sib pair)
              | inr s ↦ omega (arith, s.0)
            ] in
            let ih =
              add_loop-IsAdded fuel (q / 2) (suc h) (climbed current sib p) up (omega arith)
                (omega arith)
                (climbed-IsWithin (2 ^ 30 + h) (2 ^ 30 + suc h) current sib p (omega arith) within
                  le) in
            rw (fam, sib32, u32, pair) (climbed-IsAdded current parent sib p _ u32 ih)
        | inr alone ↦ rw (fam, sib32, alone) (stored-IsAdded current p u32)
      ]

  -- Adding a position comes to an end within 32 rounds, with a list in which that position and all that
  -- was pruned before is pruned, as long as no position is beyond 2^30.
  pub add-IsAdded :
      (pos : ℕ) (p : PruneList m)
      → 0 < pos
      → pos ≤ 2 ^ 30
      → IsWithin m (2 ^ 30) p
      → IsAdded m pos p (add m pos p)
  unfolding IsWithin
  add-IsAdded pos p lt le within =
      let (q, h, e, height, leaf) = bintree_postorder_height-total pos lt (omega arith) in
      let same : node_pos q h ≡ pos = sym e in
      let fits : node_pos q h < u64_mod = omega arith in
      let top = height_top q h fits (omega arith) in
      subst (λ x. IsAdded m x p (add m x p)) same
        (add_loop-IsAdded 32 q h p (omega arith) top (omega arith)
          (λ x e. omega (arith, within x e)))
